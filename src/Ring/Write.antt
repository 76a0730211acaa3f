-- ===== src/Ring/Write.antt =====
-- crates/core/src/store/memory.rs: the writers of the log ring, `from_records`, `merge_locked`,
-- `insert_sorted` and `append`.
use logmon_mcp.Common.{
  ℕ, zero, suc, ◌+◌, ◌-◌, max, Bool, true, false, not, ◌&&◌, Option, none, some, List, [], ◌∷◌,
  ◌++◌, map, ltb, leb, ◌==◌, if◌then◌else◌, sat_suc, wrapping_add, length, take, drop, keep, last?,
}
use logmon_mcp.Entry.{LogEntry}
use logmon_mcp.Ring.{
  Store, holds, refuse_below, lose, evict_front, sort_by_seq, dedup_by_seq, merge_index, merge_run,
  with_entries, or_default,
}
use logmon_mcp.Ring.Map.{bt_insert, put}

-- `partition_point(p)`: how many elements come before the first that fails `p`.
unfoldable pub partition_point : (LogEntry → Bool) → List LogEntry → ℕ
partition_point p [] = 0
partition_point p (e ∷ es) = if p e then suc (partition_point p es) else 0

unfoldable pub take_below : ℕ → List ℕ → List ℕ
take_below n [] = []
take_below n (s ∷ ss) = if ltb s n then s ∷ take_below n ss else []

-- The seqs of a batch that are stored late: below the newest held.
unfoldable pub late_seqs : List LogEntry → List LogEntry → List ℕ
late_seqs entries batch = elim (last? entries) [
  | none ↦ []
  | some newest ↦ take_below newest.seq (map (λ e. e.seq) batch)
]

-- `while excess > 0 && !entries.is_empty()`: the store, and the excess that is left.
unfoldable pub evict_excess : ℕ → Store → Store × ℕ
evict_excess zero s = (s, 0)
evict_excess (suc excess) s = elim s.entries [
  | [] ↦ (s, suc excess)
  | _ ∷ _ ↦ evict_excess excess (evict_front s)
]

-- What the loop over `merged.take(excess)` leaves.
pub record Dropped : Type 0 where
  pub store : Store
  pub merged : List LogEntry
  pub through : Option ℕ

unfoldable pub drop_excess : ℕ → Dropped → List LogEntry → Dropped
drop_excess zero d merged = record d { merged = merged }
drop_excess (suc excess) d [] = record d { merged = [] }
drop_excess (suc excess) d (e ∷ merged) =
    drop_excess excess (record d { store = lose e d.store; through = some e.seq }) merged

abbrev pub is_dropped : Option ℕ → ℕ → Bool
is_dropped none seq = false
is_dropped (some d) seq = leb seq d

-- One record stored late: the next number is its.
unfoldable pub number_one : Store → ℕ → Store
number_one s seq =
    let n = s.late_counter + 1 in
    record s {
      inner = record (s.inner) {
        late_counter = n;
        late = bt_insert s.late n seq;
        late_by_seq = bt_insert s.late_by_seq seq n;
      };
    }

-- The loop over `late_seqs`.
unfoldable pub number_late : Option ℕ → List ℕ → Store → Store
number_late through [] s = s
number_late through (seq ∷ seqs) s =
    number_late through seqs (if is_dropped through seq then s else number_one s seq)

-- Capacity before pushing back: the front of the ring leaves, then the front of the merged run.
unfoldable pub make_room : ℕ → List LogEntry → Store → Dropped
make_room excess merged s =
    let (t, left) = evict_excess excess s in
    drop_excess left (record { store = t; merged = merged; through = none }) merged

unfoldable pub push_back : Dropped → Store
push_back d = with_entries d.store (d.store.entries ++ d.merged)

-- `merge_locked` from the split on, for a batch whose lowest record is `first`: the store, and how
-- many held records moved.
unfoldable pub merge_batch : Store → LogEntry → List LogEntry → Store × ℕ
merge_batch s first rest =
    let batch = first ∷ rest in
    let late = late_seqs s.entries batch in
    let split = partition_point (λ e. ltb e.seq first.seq) s.entries in
    let tail = drop split s.entries in
    let merged = merge_run tail batch in
    let indexed = record s {
      inner = record (s.inner) {
        entries = take split s.entries;
        trace_index = merge_index s.trace_index batch;
      };
    } in
    let excess = length indexed.entries + length merged - s.max_capacity in
    let roomy = make_room excess merged indexed in
    let numbered = number_late roomy.through late (push_back roomy) in
    (
      record numbered { total_stored = wrapping_add numbered.total_stored (length batch) },
      length tail,
    )

-- The batch once sorted, without repeats and without what is held.
unfoldable pub fresh : Store → List LogEntry → List LogEntry
fresh s batch = keep (λ e. not (holds s.entries e.seq)) (dedup_by_seq (sort_by_seq batch))

-- What of it no floor refuses.
unfoldable pub admitted : Store → List LogEntry → List LogEntry
admitted s batch = keep (λ e. leb (refuse_below s) e.seq) (fresh s batch)

abbrev pub receive : Store → ℕ → Store
receive s n = record s { total_received = wrapping_add s.total_received n }

unfoldable pub merge_locked : Store → List LogEntry → Store × ℕ
merge_locked s batch =
    let received = receive s (length (fresh s batch)) in
    elim (admitted s batch) [ [] ↦ (received, 0) | first ∷ rest ↦ merge_batch received first rest ]

unfoldable pub insert_sorted : Store → List LogEntry → Store × ℕ
insert_sorted s batch = merge_locked s batch

-- `trace_index.entry(tid).or_default().push(seq)`.
unfoldable pub push_index : (ℕ → Option (List ℕ)) → Option ℕ → ℕ → ℕ → Option (List ℕ)
push_index index none seq = index
push_index index (some tid) seq = put index tid (some (or_default (index tid) ++ seq ∷ []))

-- The newest record goes to the back.
unfoldable pub push_newest : Store → LogEntry → Store
push_newest s e = record s {
  inner = record (s.inner) {
    entries = s.entries ++ e ∷ [];
    trace_index = push_index s.trace_index e.trace_id e.seq;
  };
  total_stored = wrapping_add s.total_stored 1;
}

-- `LogStore::append` for a record newer than all that are held.
unfoldable pub append_newest : Store → LogEntry → Store
append_newest s e =
    if ltb e.seq (refuse_below s)
    then s
    else if s.max_capacity == 0
    then record s {
      lost_below = max s.lost_below (sat_suc e.seq);
      total_stored = wrapping_add s.total_stored 1;
    }
    else push_newest (if leb s.max_capacity (length s.entries) then evict_front s else s) e

-- `LogStore::append`.
unfoldable pub append : Store → LogEntry → Store
append s e = elim (last? s.entries) [
  | none ↦ append_newest (receive s 1) e
  | some newest ↦
      if ltb newest.seq e.seq then append_newest (receive s 1) e else (merge_locked s (e ∷ [])).0
]

-- The assertion of `from_records`.
unfoldable pub is_ascending : List LogEntry → Bool
is_ascending [] = true
is_ascending (e ∷ es) = elim es [ [] ↦ true | f ∷ _ ↦ ltb e.seq f.seq ] && is_ascending es

unfoldable pub index_all : (ℕ → Option (List ℕ)) → List LogEntry → ℕ → Option (List ℕ)
index_all index [] = index
index_all index (e ∷ es) = index_all (push_index index e.trace_id e.seq) es

-- `from_records`; a failed assertion, which panics, is `none`.
unfoldable pub from_records : ℕ → List LogEntry → ℕ → Option Store
from_records capacity records lost_below =
    if is_ascending records
    then some (record {
      inner = record {
        entries = records;
        trace_index = index_all (λ _. none) records;
        late = [];
        late_by_seq = [];
        late_counter = 0;
      };
      max_capacity = max capacity (length records);
      total_stored = 0;
      total_received = 0;
      malformed_count = 0;
      lost_below = lost_below;
      admit_from = 0;
    })
    else none
