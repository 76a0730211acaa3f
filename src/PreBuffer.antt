-- ===== src/PreBuffer.antt =====
-- crates/core/src/engine/pre_buffer.rs: the pre-trigger buffer, the last `capacity` arrivals less
-- what triggers have flushed. `expire`'s loop and `flush`'s are recursions over the entries; the
-- binary search on the arrival index is the search for the one entry that has it.
mod Tests
pub mod Index
pub mod Lookup
pub mod Contents
pub mod History
use logmon_mcp.Common.{
  ℕ, zero, suc, ◌+◌, ◌-◌, min, Bool, true, false, not, ◌||◌, Option, none, some, List, [], ◌∷◌,
  ◌++◌, map, ltb, ◌==◌, if◌then◌else◌, length, take, drop,
}
use logmon_mcp.Entry.{LogEntry}
use logmon_mcp.Ring.{listed, or_default}
use logmon_mcp.Ring.Map.{put}

pub record Buffer : Type 0 where
  pub entries : List (ℕ × LogEntry)
  pub arrivals : ℕ
  pub capacity : ℕ
  pub by_trace : ℕ → Option (List ℕ)

unfoldable pub new : ℕ → Buffer
new capacity = record { entries = []; arrivals = 0; capacity = capacity; by_trace = λ _. none }

unfoldable pub pop_front : List ℕ → List ℕ
pop_front [] = []
pop_front (a ∷ as') = as'

unfoldable pub pop_back : List ℕ → List ℕ
pop_back [] = []
pop_back (a ∷ []) = []
pop_back (a ∷ b ∷ as') = a ∷ pop_back (b ∷ as')

-- `Inner::forget`.
unfoldable pub forget : Buffer → Option ℕ → Bool → Buffer
forget b none front = b
forget b (some tid) front = elim (b.by_trace tid) [
  | none ↦ b
  | some arrivals ↦ record b {
    by_trace =
        put b.by_trace tid (listed (if front then pop_front arrivals else pop_back arrivals));
  }
]

-- The loop of `Inner::expire`, over the entries from the front.
unfoldable pub expire_below : ℕ → List (ℕ × LogEntry) → Buffer → Buffer
expire_below oldest_kept [] b = record b { entries = [] }
expire_below oldest_kept ((a, e) ∷ es) b = elim (ltb a oldest_kept) [
  | true ↦ expire_below oldest_kept es (forget b e.trace_id true)
  | false ↦ record b { entries = (a, e) ∷ es }
]

unfoldable pub expire : Buffer → ℕ → Buffer
expire b limit = expire_below (b.arrivals - limit) b.entries b

abbrev pub push_trace : (ℕ → Option (List ℕ)) → Option ℕ → ℕ → ℕ → Option (List ℕ)
push_trace index none arrival = index
push_trace index (some tid) arrival = put index tid (some (or_default (index tid) ++ arrival ∷ []))

-- The entry with its arrival index, put at the back.
unfoldable pub arrive : Buffer → LogEntry → Buffer
arrive b e = record b {
  entries = b.entries ++ (b.arrivals, e) ∷ [];
  arrivals = b.arrivals + 1;
  by_trace = push_trace b.by_trace e.trace_id b.arrivals;
}

unfoldable pub append : Buffer → LogEntry → Buffer
append b e = if b.capacity == 0 then b else expire (arrive b e) b.capacity

unfoldable pub forget_all : List (ℕ × LogEntry) → Buffer → Buffer
forget_all [] b = b
forget_all ((a, e) ∷ es) b = forget_all es (forget b e.trace_id false)

-- What stays, and what a flush gives out.
unfoldable pub flush : Buffer → ℕ → Buffer × List LogEntry
flush b pre_window =
    let len = length b.entries in
    let n = min pre_window len in
    let tail = drop (len - n) b.entries in
    if len == 0 || pre_window == 0
    then (b, [])
    else (forget_all tail (record b { entries = take (len - n) b.entries }), map (λ (a, e). e) tail)

unfoldable pub resize : Buffer → ℕ → Buffer
resize b new_capacity = expire (record b { capacity = new_capacity }) new_capacity

unfoldable pub find_arrival : ℕ → List (ℕ × LogEntry) → Option LogEntry
find_arrival a [] = none
find_arrival a ((x, e) ∷ es) = if x == a then some e else find_arrival a es

-- `arrivals.iter().filter_map(…)`.
unfoldable pub entries_at : List (ℕ × LogEntry) → List ℕ → List LogEntry
entries_at es [] = []
entries_at es (a ∷ as') = elim (find_arrival a es) [
  | none ↦ entries_at es as'
  | some e ↦ e ∷ entries_at es as'
]

unfoldable pub entries_by_trace_id : Buffer → ℕ → List LogEntry
entries_by_trace_id b tid = elim (b.by_trace tid) [
  | none ↦ []
  | some arrivals ↦ entries_at b.entries arrivals
]
