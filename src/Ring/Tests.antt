-- ===== src/Ring/Tests.antt =====
-- Witnesses for the log ring: a ring of capacity three after some writes.
use logmon_mcp.Common.{
  map, All, ℕ, min, ◌≡◌, ◌<◌, u64_max, refl, false, Option, none, some, List, [], ◌∷◌, leb, length,
  take, drop, keep, All, arith, map, sat_suc,
}
use logmon_mcp.Entry.{Level, LogSource, LogEntry}
use logmon_mcp.Filter.{match_all}
use logmon_mcp.Filter.Text.{TextEngine, contains}
use logmon_mcp.Ring.{
  Store, new, clear_through, is_traced, evict_front, lose, unindex, forget_late, forget_trace,
  remove_seq, refuse_below, sort_by_seq, insert_by_seq, dedup_by_seq, dedup_after, holds, position,
  merge_run, merge_index, trace_seqs, merge_ascending, merge_sorted,
}
use logmon_mcp.Ring.Map.{bt_insert, bt_get, bt_remove}
use logmon_mcp.Filter.Matcher.{matches_entry, matches_entry_past_cursor}
use logmon_mcp.Ring.Write.{
  insert_sorted, append, append_newest, push_newest, push_index, merge_locked, admitted, fresh,
  merge_batch, late_seqs, take_below, partition_point, make_room, evict_excess, drop_excess,
  push_back, number_late, number_one,
}
use logmon_mcp.Ring.Order.{has_seq}
use logmon_mcp.Ring.Merging.{IsRing}
use logmon_mcp.Ring.Invariant.{new-IsRing}
use logmon_mcp.Ring.Contents.{Holds, insert_sorted-Holds}
use logmon_mcp.Ring.AppendContents.{append-Holds}
use logmon_mcp.Ring.History.{Write, appends, flushes, write, run, run-IsRing, clear_through-final}
use logmon_mcp.Ring.Read.{logs_by_trace_id, count_by_trace_id, entry_of, entry_at, view_of}
use logmon_mcp.Ring.Lookups.{logs_by_trace_id-keep}
use logmon_mcp.Ring.Scans.{owed, Tagged, cursor_read_trace, cursor_read_trace-keep}
use logmon_mcp.Ring.Cursor.{
  CursorPos, cursor_read, late_part, walk_late, late_round, take_late, late_above,
  below_every_late_seq, walk_normal, advance_for, advance_whole, advance_part, late_tags,
  highest_normal,
}
use logmon_mcp.Ring.CursorOnce.{Ahead}
use logmon_mcp.Ring.CursorAgain.{Passed, Absent, cursor_read-once}

abbrev entry : ℕ → Option ℕ → LogEntry
entry seq trace_id = record {
  seq = seq;
  timestamp = 0;
  level = Level.info;
  message = "ready";
  full_message = none;
  host = "h";
  facility = none;
  file = none;
  line = none;
  additional_fields = [];
  trace_id = trace_id;
  span_id = none;
  matched_filters = [];
  source = LogSource.by_filter;
}

abbrev engine : TextEngine
engine = record {
  to_lowercase = λ s. s;
  is_match = λ pattern s. contains s pattern;
  double_ge = λ a b. leb b a;
}

-- Seqs 2 and 5, then a flush of 3, 1 and 4, of which the lowest leaves.
abbrev writes : List Write
writes =
    appends (entry 2 (some 7))
    ∷ appends (entry 5 none)
    ∷ flushes (entry 3 (some 7) ∷ entry 1 none ∷ entry 4 (some 7) ∷ [])
    ∷ []

abbrev ring : Store
ring = run (new 3) writes

ring-IsRing : IsRing ring
ring-IsRing = run-IsRing (new 3) writes (new-IsRing 3)

run-IsRing_example : IsRing (run (new 3) writes)
run-IsRing_example = run-IsRing (new 3) writes (new-IsRing 3)

clear_through-final_example : has_seq 4 (run (clear_through ring 6) writes).entries ≡ false
clear_through-final_example = clear_through-final 4 6 ring writes (omega arith) (omega arith)

insert_sorted-Holds_example :
    Holds 6 ring (insert_sorted ring (entry 6 none ∷ [])).0 (has_seq 6 (entry 6 none ∷ []))
insert_sorted-Holds_example =
    insert_sorted-Holds 6 ring (entry 6 none ∷ []) ring-IsRing (omega arith)

append-Holds_example : Holds 3 ring (append ring (entry 9 none)) (has_seq 3 (entry 9 none ∷ []))
append-Holds_example = append-Holds 3 ring (entry 9 none) ring-IsRing (omega arith)

logs_by_trace_id-keep_example :
    (logs_by_trace_id ring 7 ≡ keep (λ e. is_traced 7 e) ring.entries)
    × (count_by_trace_id ring 7 ≡ length (keep (λ e. is_traced 7 e) ring.entries))
logs_by_trace_id-keep_example = logs_by_trace_id-keep ring 7 ring-IsRing

abbrev start : CursorPos
start = record { seq = 2; late_mark = 0; floor = 0 }

cursor_read_trace-keep_example :
    (map (λ (e, t). e) (cursor_read_trace engine (some match_all) ring start 7).entries
      ≡ keep (owed engine (some match_all) ring start) (keep (λ e. is_traced 7 e) ring.entries))
    × All
        (Tagged engine (some match_all) ring start)
        (cursor_read_trace engine (some match_all) ring start 7).entries
cursor_read_trace-keep_example =
    cursor_read_trace-keep engine (some match_all) ring start 7 ring-IsRing

abbrev advanced : CursorPos
advanced =
    let adv = advance_for (cursor_read engine 5 (some match_all) start ring) 1 in
    record { seq = adv.seq; late_mark = adv.late_mark; floor = 0 }

ring_seqs : map (λ (e : LogEntry). e.seq) ring.entries ≡ 3 ∷ 4 ∷ 5 ∷ []
unfolding run write new append append_newest push_newest push_index evict_front lose unindex
    forget_late forget_trace remove_seq refuse_below insert_sorted merge_locked admitted fresh
    sort_by_seq insert_by_seq dedup_by_seq dedup_after holds position merge_batch late_seqs
    take_below partition_point merge_run merge_index trace_seqs is_traced merge_ascending
    merge_sorted make_room evict_excess drop_excess push_back number_late number_one bt_insert
    bt_get bt_remove sat_suc
ring_seqs = refl

advanced_mark : advanced.late_mark ≡ 2
unfolding run write new append append_newest push_newest push_index evict_front lose unindex
    forget_late forget_trace remove_seq refuse_below insert_sorted merge_locked admitted fresh
    sort_by_seq insert_by_seq dedup_by_seq dedup_after holds position merge_batch late_seqs
    take_below partition_point merge_run merge_index trace_seqs is_traced merge_ascending
    merge_sorted make_room evict_excess drop_excess push_back number_late number_one bt_insert
    bt_get bt_remove sat_suc cursor_read late_part walk_late late_round take_late late_above
    below_every_late_seq walk_normal entry_of entry_at matches_entry matches_entry_past_cursor
    view_of advance_for advance_whole advance_part late_tags highest_normal
advanced_mark = refl

abbrev later_writes : List Write
later_writes = appends (entry 9 none) ∷ flushes (entry 7 none ∷ []) ∷ []

ring_small : All (λ e. e.seq < u64_max) ring.entries
unfolding run write new append append_newest push_newest push_index evict_front lose unindex
    forget_late forget_trace remove_seq refuse_below insert_sorted merge_locked admitted fresh
    sort_by_seq insert_by_seq dedup_by_seq dedup_after holds position merge_batch late_seqs
    take_below partition_point merge_run merge_index trace_seqs is_traced merge_ascending
    merge_sorted make_room evict_excess drop_excess push_back number_late number_one bt_insert
    bt_get bt_remove sat_suc
ring_small = (omega arith, (omega arith, (omega arith, tt)))

cursor_read-once_example :
    (let r = cursor_read engine 5 (some match_all) start ring in
      let given = take (min 1 (length r.entries)) r.entries in
      let left = drop (min 1 (length r.entries)) r.entries in
      let adv = advance_for r 1 in
      All (Passed ring adv) given
      × All (Ahead adv.seq adv.late_mark) left
      × All
          (Absent (cursor_read engine 5 (some match_all) advanced (run ring later_writes)).entries)
          given)
cursor_read-once_example =
    cursor_read-once engine 5 5 1 (some match_all) start ring later_writes ring-IsRing ring_small
      (omega arith) (omega (arith, advanced_mark))
