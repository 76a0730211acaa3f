-- ===== src/Spans.antt =====
-- crates/core/src/span/store.rs: the span ring. Its lock is taken for the whole of each method, and
-- `insert` takes its seq from the shared counter under it, so a method is one step. A deque is a
-- list, its front first, and the index a function; on the ring, which is in seq order, a binary
-- search for a seq is the search for the one span that has it.
mod Tests
pub mod Invariant
pub mod History
pub mod Lookup
pub mod Process
pub mod Processed
pub mod Apart
use logmon_mcp.Common.{
  ℕ, zero, suc, ◌+◌, ◌-◌, max, min, Bool, true, false, not, ◌&&◌, Option, none, some, List, [], ◌∷◌,
  ◌++◌, ltb, leb, ◌==◌, if◌then◌else◌, sat_suc, length, take, drop, keep, head?, last?,
}
use logmon_mcp.Entry.{SpanEntry}
use logmon_mcp.Filter.{ParsedFilter}
use logmon_mcp.Filter.Text.{TextEngine}
use logmon_mcp.Filter.Matcher.{matches_span}
use logmon_mcp.Ring.{listed, or_default}
use logmon_mcp.Ring.Map.{put}
use logmon_mcp.Throttle.{next}

-- `SpanStore` with its `SpanStoreInner`; `seq_counter` is the counter shared with the log ring.
pub record SpanStore : Type 0 where
  pub buffer : List SpanEntry
  pub trace_index : ℕ → Option (List ℕ)
  pub capacity : ℕ
  pub seq_counter : ℕ
  pub lost_below : ℕ

unfoldable pub new : ℕ → ℕ → SpanStore
new capacity seq_counter = record {
  buffer = [];
  trace_index = λ _. none;
  capacity = capacity;
  seq_counter = seq_counter;
  lost_below = 0;
}

-- `entry(trace_id).or_default().push(seq)`.
unfoldable pub push_index : (ℕ → Option (List ℕ)) → SpanEntry → ℕ → Option (List ℕ)
push_index index s = put index s.trace_id (some (or_default (index s.trace_id) ++ s.seq ∷ []))

unfoldable pub index_all : (ℕ → Option (List ℕ)) → List SpanEntry → ℕ → Option (List ℕ)
index_all index [] = index
index_all index (s ∷ spans) = index_all (push_index index s) spans

-- `windows(2).all(…)`.
unfoldable pub is_ascending : List SpanEntry → Bool
is_ascending [] = true
is_ascending (s ∷ spans) = elim spans [ [] ↦ true | t ∷ _ ↦ ltb s.seq t.seq ] && is_ascending spans

-- A failed assertion, which panics, is `none`.
unfoldable pub from_records : ℕ → ℕ → List SpanEntry → ℕ → Option SpanStore
from_records capacity seq_counter spans lost_below =
    if is_ascending spans
    then some (record {
      buffer = spans;
      trace_index = index_all (λ _. none) spans;
      capacity = max capacity (length spans);
      seq_counter = seq_counter;
      lost_below = lost_below;
    })
    else none

-- What the eviction does to the evicted span's trace.
unfoldable pub forget : (ℕ → Option (List ℕ)) → SpanEntry → ℕ → Option (List ℕ)
forget index s = elim (index s.trace_id) [
  | none ↦ index
  | some seqs ↦ put index s.trace_id (listed (keep (λ q. not (q == s.seq)) seqs))
]

unfoldable pub evict : SpanStore → SpanStore
evict st = elim st.buffer [
  | [] ↦ st
  | s ∷ rest ↦ record st {
    buffer = rest;
    trace_index = forget st.trace_index s;
    lost_below = max st.lost_below (sat_suc s.seq);
  }
]

unfoldable pub push : SpanStore → SpanEntry → SpanStore
push st s = record st { buffer = st.buffer ++ s ∷ []; trace_index = push_index st.trace_index s }

-- The span has its seq.
unfoldable pub store_numbered : SpanStore → SpanEntry → SpanStore
store_numbered st s =
    if st.capacity == 0
    then record st { lost_below = max st.lost_below (sat_suc s.seq) }
    else push (if leb st.capacity (length st.buffer) then evict st else st) s

unfoldable pub insert : SpanStore → SpanEntry → SpanStore × ℕ
insert st span =
    let (counter, seq) = next st.seq_counter in
    (store_numbered (record st { seq_counter = counter }) (record span { seq = seq }), seq)

-- The store, and how many spans the clear removed.
unfoldable pub clear : SpanStore → SpanStore × ℕ
clear st = (
  record st {
    buffer = [];
    trace_index = λ _. none;
    lost_below = elim (last? st.buffer) [
      | none ↦ st.lost_below
      | some newest ↦ max st.lost_below (sat_suc newest.seq)
    ];
  },
  length st.buffer,
)

unfoldable pub find : List SpanEntry → ℕ → Option SpanEntry
find [] seq = none
find (s ∷ spans) seq = if s.seq == seq then some s else find spans seq

-- `seqs.iter().filter_map(…)`.
unfoldable pub spans_of : List SpanEntry → List ℕ → List SpanEntry
spans_of buffer [] = []
spans_of buffer (q ∷ seqs) =
    let rest = spans_of buffer seqs in elim (find buffer q) [ none ↦ rest | some s ↦ s ∷ rest ]

-- `sort_by_key(|s| s.start_time)`, which is stable.
unfoldable pub insert_by_start : SpanEntry → List SpanEntry → List SpanEntry
insert_by_start s [] = s ∷ []
insert_by_start s (t ∷ spans) =
    if leb s.start_time t.start_time then s ∷ t ∷ spans else t ∷ insert_by_start s spans

unfoldable pub sort_by_start : List SpanEntry → List SpanEntry
sort_by_start [] = []
sort_by_start (s ∷ spans) = insert_by_start s (sort_by_start spans)

unfoldable pub trace_spans : SpanStore → ℕ → List SpanEntry
trace_spans st trace_id = elim (st.trace_index trace_id) [
  | none ↦ []
  | some seqs ↦ sort_by_start (spans_of st.buffer seqs)
]

unfoldable pub get_trace : SpanStore → ℕ → List SpanEntry
get_trace st trace_id = trace_spans st trace_id

unfoldable pub partition_point : (SpanEntry → Bool) → List SpanEntry → ℕ
partition_point p [] = 0
partition_point p (s ∷ spans) = if p s then suc (partition_point p spans) else 0

unfoldable pub range_with_floor : SpanStore → ℕ → ℕ → List SpanEntry × ℕ
range_with_floor st from to =
    let start = partition_point (λ s. ltb s.seq from) st.buffer in
    let end = partition_point (λ s. leb s.seq to) st.buffer in
    (drop start (take (max end start) st.buffer), st.lost_below)

unfoldable pub position : List SpanEntry → ℕ → Option ℕ
position [] seq = none
position (s ∷ spans) seq =
    if s.seq == seq
    then some 0
    else elim (position spans seq) [ none ↦ none | some i ↦ some (suc i) ]

unfoldable pub context_by_seq : SpanStore → ℕ → ℕ → ℕ → List SpanEntry
context_by_seq st seq before after = elim (position st.buffer seq) [
  | none ↦ []
  | some i ↦ drop (i - before) (take (min (i + after + 1) (length st.buffer)) st.buffer)
]

abbrev admits : TextEngine → Option ParsedFilter → SpanEntry → Bool
admits engine none s = true
admits engine (some f) s = matches_span engine f s

-- The spans that the closure is called on, in order.
unfoldable pub for_each_matching : TextEngine → SpanStore → Option ParsedFilter → List SpanEntry × ℕ
for_each_matching engine st filter =
    let visited = keep (admits engine filter) st.buffer in (visited, length visited)

unfoldable pub newest_seq : SpanStore → Option ℕ
newest_seq st = elim (last? st.buffer) [ none ↦ none | some s ↦ some s.seq ]

unfoldable pub oldest_seq : SpanStore → Option ℕ
oldest_seq st = elim (head? st.buffer) [ none ↦ none | some s ↦ some s.seq ]
