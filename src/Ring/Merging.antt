-- ===== src/Ring/Merging.antt =====
-- `merge_batch`: the ring after it is the merge of the ring and the batch, less its front.
use logmon_mcp.Common.{
  ℕ, ◌+◌, ◌-◌, ◌≤◌, ◌≡◌, ◌∙◌, refl, sym, true, false, none, List, [], ◌∷◌, ◌++◌, ltb, ◌==◌, length,
  take, drop, All, All-imp, arith, Option-cases, ◌⊎◌, inl, inr, subst, length-append, length-drop,
}
use mathlib.Core.Bool.{false≢true}
use logmon_mcp.Entry.{LogEntry}
use logmon_mcp.Ring.{Store, merge_index, merge_run}
use logmon_mcp.Ring.Map.{bt_get}
use logmon_mcp.Ring.Write.{
  partition_point, Dropped, make_room, push_back, merge_batch, late_seqs, is_dropped,
}
use logmon_mcp.Ring.Order.{From, From-mono, From-append_right, has_seq}
use logmon_mcp.Ring.Merge.{Apart, merge_run-From, any-merge_run, merge_run-split}
use logmon_mcp.Ring.IndexSteps.{merge_index-Indexed}
use logmon_mcp.Ring.Late.{IsLate, IsLate-mono}
use logmon_mcp.Ring.Steps.{Describes, Gone}
use logmon_mcp.Ring.Room.{Room, make_room-Room}
use logmon_mcp.Ring.Numbers.{
  Ready, number_late-Describes, entries-number_late, lost_below-number_late, late_seqs-All,
  late_seqs-Asc,
}

-- The ring as the code relies on it: strictly ascending from the loss floor up, each trace's list
-- its held seqs, the late maps consistent, and no more records than the capacity.
pub record IsRing (s : Store) : Type 0 where
  pub describes : Describes s s.entries
  pub bounded : length s.entries ≤ s.max_capacity

-- The ring that a whole merge would give, less what is over the capacity.
abbrev pub merged_ring : Store → List LogEntry → List LogEntry
merged_ring s batch =
    let whole = merge_run s.entries batch in drop (length whole - s.max_capacity) whole

pub has_self : (es : List LogEntry) → All (λ e. has_seq e.seq es ≡ true) es
has_self [] = tt
has_self (e ∷ es) = (
  ground arith,
  All-imp {P = λ x. has_seq x.seq es ≡ true} {Q = λ x. has_seq x.seq (e ∷ es) ≡ true}
      (λ x h. ground arith) es (has_self es),
)

module _ (s : Store) (first : LogEntry) (rest : List LogEntry) (v : IsRing s)
    (ordered : From s.lost_below (first ∷ rest)) (apart : Apart s.entries (first ∷ rest)) where
  abbrev split : ℕ
  split = partition_point (λ e. ltb e.seq first.seq) s.entries

  abbrev whole : List LogEntry
  whole = merge_run s.entries (first ∷ rest)

  abbrev indexed : Store
  indexed = record s {
    inner = record (s.inner) {
      entries = take split s.entries;
      trace_index = merge_index s.trace_index (first ∷ rest);
    };
  }

  abbrev run : List LogEntry
  run = merge_run (drop split s.entries) (first ∷ rest)

  whole-eq : whole ≡ take split s.entries ++ run
  whole-eq = merge_run-split s.entries first rest

  whole-From : From s.lost_below whole
  whole-From = merge_run-From s.lost_below s.entries _ v.describes.0 ordered apart

  whole-Describes : Describes indexed whole
  whole-Describes = (
    whole-From,
    merge_index-Indexed s.lost_below s.trace_index s.entries _ v.describes.0 ordered apart
        v.describes.1,
    IsLate-mono _ _ _ s.entries _
        (λ q h. ground (arith, any-merge_run (λ e. e.seq == q) s.entries (first ∷ rest)))
        v.describes.2,
  )

  abbrev excess : ℕ
  excess = length indexed.entries + length run - s.max_capacity

  abbrev room : Dropped
  room = make_room excess run indexed

  room-Room : Room excess indexed (take split s.entries) run room
  room-Room =
      make_room-Room excess s.lost_below indexed (take split s.entries) run refl
        (From-append_right s.lost_below (take split s.entries) run
          (subst (From s.lost_below) whole-eq whole-From))
        (subst (Describes indexed) whole-eq whole-Describes)

  excess-eq : drop excess (take split s.entries ++ run) ≡ merged_ring s (first ∷ rest)
  excess-eq = cc (whole-eq, length-append (take split s.entries) run)

  abbrev pushed : Store
  pushed = push_back room

  in_run : All (λ e. has_seq e.seq run ≡ true) (first ∷ rest)
  in_run =
      All-imp {P = λ e. has_seq e.seq (first ∷ rest) ≡ true} {Q = λ e. has_seq e.seq run ≡ true}
        (λ e h.
          ground (arith, any-merge_run (λ x. x.seq == e.seq) (drop split s.entries) (first ∷ rest)))
        (first ∷ rest) (has_self (first ∷ rest))

  never_late : (q : ℕ) → has_seq q s.entries ≡ false → bt_get s.late_by_seq q ≡ none
  never_late q h = elim (Option-cases (bt_get s.late_by_seq q)) [
    | inl e ↦ e
    | inr (n, e) ↦ absurd (false≢true (sym h ∙ l.held n q (l.to_number n q e)))
  ]
    where
      l : IsLate s.late s.late_by_seq s.late_counter s.entries
      l = v.describes.2

  late-Ready :
      Ready (merged_ring s (first ∷ rest)) room.through pushed (late_seqs s.entries (first ∷ rest))
  unfolding push_back
  late-Ready = record {
    ascending =
        late_seqs-Asc 0 s.entries (first ∷ rest)
          (From-mono 0 s.lost_below (first ∷ rest) (omega arith) ordered);
    present = late_seqs-All _ s.entries (first ∷ rest) (
        All-imp {P = λ e. has_seq e.seq run ≡ true} {Q = λ e. _}
          (λ e h.
            subst (λ z. (is_dropped room.through e.seq ≡ true) ⊎ (has_seq e.seq z ≡ true)) excess-eq
              (room-Room.covers e.seq h))
          (first ∷ rest) in_run);
    unnumbered = late_seqs-All _ s.entries (first ∷ rest) (
        All-imp {P = λ e. has_seq e.seq s.entries ≡ false} {Q = λ e. _}
          (λ e h. room-Room.still_none e.seq (never_late e.seq h)) (first ∷ rest) apart);
  }

  pushed-entries : pushed.entries ≡ merged_ring s (first ∷ rest)
  unfolding push_back
  pushed-entries = room-Room.ring ∙ excess-eq

  pushed-Describes : Describes pushed (merged_ring s (first ∷ rest))
  unfolding push_back
  pushed-Describes = subst (Describes room.store) excess-eq room-Room.describes

  pushed-capacity : pushed.max_capacity ≡ s.max_capacity
  unfolding push_back
  pushed-capacity = room-Room.same_capacity

  -- The ring is the whole merge less its front.
  pub entries-merge_batch : (merge_batch s first rest).0.entries ≡ merged_ring s (first ∷ rest)
  unfolding merge_batch
  entries-merge_batch =
      (entries-number_late room.through (late_seqs s.entries (first ∷ rest)) pushed).0
      ∙ pushed-entries

  pub capacity-merge_batch : (merge_batch s first rest).0.max_capacity ≡ s.max_capacity
  unfolding merge_batch
  capacity-merge_batch =
      (entries-number_late room.through (late_seqs s.entries (first ∷ rest)) pushed).1
      ∙ pushed-capacity

  merge_batch-Describes : Describes (merge_batch s first rest).0 (merged_ring s (first ∷ rest))
  unfolding merge_batch
  merge_batch-Describes =
      number_late-Describes _ room.through pushed (late_seqs s.entries (first ∷ rest))
        pushed-Describes late-Ready

  pub merge_batch-IsRing : IsRing (merge_batch s first rest).0
  merge_batch-IsRing = record {
    describes =
        subst (Describes (merge_batch s first rest).0) (sym entries-merge_batch)
          merge_batch-Describes;
    bounded =
        rw (entries-merge_batch, capacity-merge_batch)
          (omega (arith, length-drop (length whole - s.max_capacity) whole));
  }

  -- Whatever has left is below the new floor.
  pub merge_batch-Gone :
      (s.lost_below ≤ (merge_batch s first rest).0.lost_below)
      × Gone (merge_batch s first rest).0 (take (length whole - s.max_capacity) whole)
  unfolding merge_batch push_back
  merge_batch-Gone =
      let floor = lost_below-number_late room.through (late_seqs s.entries (first ∷ rest)) pushed in
      let take-eq : take excess (take split s.entries ++ run)
          ≡ take (length whole - s.max_capacity) whole =
        cc (whole-eq, length-append (take split s.entries) run) in
      (
        omega (arith, floor, room-Room.floor_ge),
        rw floor (subst (Gone room.store) take-eq room-Room.gone),
      )
