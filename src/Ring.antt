-- ===== src/Ring.antt =====
-- crates/core/src/store/memory.rs: the log ring. `InMemoryStore` with its `StoreInner`; the lock
-- is taken for the whole of each method, so a method is one step on the state.
-- A deque is a list, its front first; a `HashMap` is a function to `Option`; a `BTreeMap` is a
-- list in key order. On the ring, which is in seq order, a binary search for a seq is the search
-- for the one record that has it. Memory reservation (`reserve_ring`) leaves no trace, and the
-- late counter, which rises by one for each record stored late, is unbounded.
mod Tests
pub mod Map
pub mod Write
pub mod Order
pub mod Merge
pub mod Index
pub mod IndexSteps
pub mod Late
pub mod Steps
pub mod Room
pub mod Numbers
pub mod Merging
pub mod Invariant
pub mod Append
pub mod Contents
pub mod AppendContents
pub mod Floor
pub mod History
pub mod Read
pub mod Lookups
pub mod Scans
pub mod Cursor
pub mod CursorOnce
pub mod CursorAdvance
pub mod CursorTags
pub mod CursorLate
pub mod KeptNumbers
pub mod KeptWrites
pub mod KeptRuns
pub mod CursorReads
pub mod CursorAgain
use logmon_mcp.Common.{
  ℕ, zero, suc, ◌+◌, ◌-◌, max, Bool, true, false, not, ◌&&◌, ◌||◌, Option, none, some, List, [],
  ◌∷◌, ◌++◌, map, ltb, leb, ◌==◌, if◌then◌else◌, sat_suc, wrapping_add, length, take, drop, keep,
  any, head?, last?,
}
use logmon_mcp.Entry.{LogEntry}
use Map.{BTreeMap, bt_get, bt_insert, bt_remove, put}

pub record StoreInner : Type 0 where
  pub entries : List LogEntry
  pub trace_index : ℕ → Option (List ℕ)
  pub late : BTreeMap
  pub late_by_seq : BTreeMap
  pub late_counter : ℕ

pub record Store : Type 0 where
  pub inner : StoreInner
  pub open inner use *
  pub max_capacity : ℕ
  pub total_stored : ℕ
  pub total_received : ℕ
  pub malformed_count : ℕ
  pub lost_below : ℕ
  pub admit_from : ℕ

abbrev empty_inner : ℕ → StoreInner
empty_inner counter = record {
  entries = [];
  trace_index = λ _. none;
  late = [];
  late_by_seq = [];
  late_counter = counter;
}

-- `InMemoryStore::new`.
unfoldable pub new : ℕ → Store
new capacity = record {
  inner = empty_inner 0;
  max_capacity = capacity;
  total_stored = 0;
  total_received = 0;
  malformed_count = 0;
  lost_below = 0;
  admit_from = 0;
}

-- `StoreInner::position`: the record with a seq, and its index.
unfoldable pub position : List LogEntry → ℕ → Option ℕ
position [] seq = none
position (e ∷ es) seq =
    if e.seq == seq then some 0 else elim (position es seq) [ none ↦ none | some i ↦ some (suc i) ]

abbrev pub is_some {ℓ} : {A : Type ℓ} → Option A → Bool
is_some none = false
is_some (some _) = true

unfoldable pub holds : List LogEntry → ℕ → Bool
holds entries seq = elim (last? entries) [
  | none ↦ false
  | some newest ↦
      if ltb newest.seq seq
      then false
      else if seq == newest.seq
      then true
      else is_some (position entries seq)
]

-- A trace's list, or no entry for the empty list.
abbrev pub listed : List ℕ → Option (List ℕ)
listed [] = none
listed (s ∷ ss) = some (s ∷ ss)

unfoldable pub remove_seq : ℕ → List ℕ → List ℕ
remove_seq seq [] = []
remove_seq seq (s ∷ ss) = if s == seq then ss else s ∷ remove_seq seq ss

-- The late half of `StoreInner::unindex`.
unfoldable pub forget_late : StoreInner → ℕ → StoreInner
forget_late inner seq = elim (bt_get inner.late_by_seq seq) [
  | none ↦ inner
  | some n ↦ record inner {
    late = bt_remove inner.late n;
    late_by_seq = bt_remove inner.late_by_seq seq;
  }
]

-- The trace half.
unfoldable pub forget_trace : StoreInner → Option ℕ → ℕ → StoreInner
forget_trace inner none seq = inner
forget_trace inner (some tid) seq = elim (inner.trace_index tid) [
  | none ↦ inner
  | some seqs ↦ record inner {
    trace_index = put inner.trace_index tid (listed (remove_seq seq seqs));
  }
]

unfoldable pub unindex : StoreInner → Option ℕ → ℕ → StoreInner
unindex inner trace_id seq = forget_trace (forget_late inner seq) trace_id seq

unfoldable pub merge_sorted : List ℕ → List ℕ → List ℕ
merge_sorted [] ys = ys
merge_sorted (x ∷ xs) [] = x ∷ xs
merge_sorted (x ∷ xs) (y ∷ ys) = elim (ltb x y) [
  | true ↦ x ∷ merge_sorted xs (y ∷ ys)
  | false ↦ y ∷ merge_sorted (x ∷ xs) ys
]

-- `merge_ascending`: an appended tail, or one merging pass.
unfoldable pub merge_ascending : List ℕ → List ℕ → List ℕ
merge_ascending list [] = list
merge_ascending list (first ∷ add) = elim (last? list) [
  | none ↦ list ++ first ∷ add
  | some last ↦ if ltb last first then list ++ first ∷ add else merge_sorted list (first ∷ add)
]

unfoldable pub refuse_below : Store → ℕ
refuse_below s = max s.lost_below s.admit_from

unfoldable pub clear_locked : Store → Store
clear_locked s = record s {
  inner = empty_inner s.late_counter;
  lost_below = elim (last? s.entries) [
    | none ↦ s.lost_below
    | some newest ↦ max s.lost_below (sat_suc newest.seq)
  ];
}

unfoldable pub clear : Store → Store
clear s = clear_locked s

unfoldable pub clear_through : Store → ℕ → Store
clear_through s newest_assigned =
    let cleared = clear_locked s in
    record cleared { admit_from = max cleared.admit_from (sat_suc newest_assigned) }

-- A record that has left the ring: the floor rises past it, and it is unindexed.
unfoldable pub lose : LogEntry → Store → Store
lose e s = record s {
  inner = unindex s.inner e.trace_id e.seq;
  lost_below = max s.lost_below (sat_suc e.seq);
}

abbrev pub with_entries : Store → List LogEntry → Store
with_entries s es = record s { inner = record (s.inner) { entries = es } }

unfoldable pub evict_front : Store → Store
evict_front s = elim s.entries [ [] ↦ s | e ∷ rest ↦ lose e (with_entries s rest) ]

-- `batch.sort_by_key(|e| e.seq)`, which is stable.
unfoldable pub insert_by_seq : LogEntry → List LogEntry → List LogEntry
insert_by_seq e [] = e ∷ []
insert_by_seq e (x ∷ xs) = if leb e.seq x.seq then e ∷ x ∷ xs else x ∷ insert_by_seq e xs

unfoldable pub sort_by_seq : List LogEntry → List LogEntry
sort_by_seq [] = []
sort_by_seq (e ∷ es) = insert_by_seq e (sort_by_seq es)

-- `batch.dedup_by_key(|e| e.seq)`: of a run of equal seqs the first stays.
unfoldable pub dedup_after : LogEntry → List LogEntry → List LogEntry
dedup_after e [] = e ∷ []
dedup_after e (x ∷ xs) = elim (e.seq == x.seq) [
  | true ↦ dedup_after e xs
  | false ↦ e ∷ dedup_after x xs
]

unfoldable pub dedup_by_seq : List LogEntry → List LogEntry
dedup_by_seq [] = []
dedup_by_seq (e ∷ es) = dedup_after e es

unfoldable pub is_traced : ℕ → LogEntry → Bool
is_traced tid e = elim e.trace_id [ none ↦ false | some t ↦ t == tid ]

-- The seqs of a trace among some records, in their order.
unfoldable pub trace_seqs : ℕ → List LogEntry → List ℕ
trace_seqs tid [] = []
trace_seqs tid (e ∷ es) = if is_traced tid e then e.seq ∷ trace_seqs tid es else trace_seqs tid es

abbrev pub or_default : Option (List ℕ) → List ℕ
or_default none = []
or_default (some l) = l

-- The loop over `by_trace`: each trace's list takes the batch's seqs for it.
unfoldable pub merge_index : (ℕ → Option (List ℕ)) → List LogEntry → ℕ → Option (List ℕ)
merge_index index batch tid = elim (trace_seqs tid batch) [
  | [] ↦ index tid
  | s ∷ ss ↦ some (merge_ascending (or_default (index tid)) (s ∷ ss))
]

-- The merge of the tail that came off with the batch.
unfoldable pub merge_run : List LogEntry → List LogEntry → List LogEntry
merge_run [] ys = ys
merge_run (x ∷ xs) [] = x ∷ xs
merge_run (x ∷ xs) (y ∷ ys) = elim (ltb x.seq y.seq) [
  | true ↦ x ∷ merge_run xs (y ∷ ys)
  | false ↦ y ∷ merge_run (x ∷ xs) ys
]
