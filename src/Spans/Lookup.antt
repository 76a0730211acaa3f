-- ===== src/Spans/Lookup.antt =====
-- A trace's spans: the index and the searches give what a walk over the whole ring would.
use logmon_mcp.Common.{
  ℕ, suc, ◌≤◌, ◌≡◌, ◌∙◌, refl, ap, sym, subst, Bool, leb, List, [], ◌∷◌, ◌==◌, keep, All, arith,
  Bool-cases, inl, inr,
}
use logmon_mcp.Entry.{SpanEntry}
use logmon_mcp.Ring.{listed}
use logmon_mcp.Spans.{
  SpanStore, find, spans_of, insert_by_start, sort_by_start, trace_spans, get_trace,
}
use logmon_mcp.Spans.Invariant.{Rising, Rising-mono, trace_seqs, IsSpanStore}

abbrev pub of_trace : ℕ → SpanEntry → Bool
of_trace tid s = s.trace_id == tid

seqs_above :
    (tid n : ℕ) (spans : List SpanEntry) → Rising n spans → All (λ q. n ≤ q) (trace_seqs tid spans)
unfolding trace_seqs
seqs_above tid n [] f = tt
seqs_above tid n (s ∷ spans) f =
    let rest = seqs_above tid n spans (Rising-mono n (suc s.seq) spans (omega (arith, f.0)) f.1) in
    elim (Bool-cases (s.trace_id == tid)) [
      | inl h ↦ rw (h, trace_seqs) (f.0, rest)
      | inr h ↦ rw (h, trace_seqs) rest
    ]

spans_of-later :
    (s : SpanEntry) (spans : List SpanEntry) (seqs : List ℕ)
    → All (λ q. suc s.seq ≤ q) seqs
    → spans_of (s ∷ spans) seqs ≡ spans_of spans seqs
unfolding spans_of find
spans_of-later s spans [] h = refl
spans_of-later s spans (q ∷ seqs) h = ground (arith, spans_of-later s spans seqs h.1, h.0)

spans_of-trace_seqs :
    (tid n : ℕ) (spans : List SpanEntry)
    → Rising n spans
    → spans_of spans (trace_seqs tid spans) ≡ keep (of_trace tid) spans
unfolding spans_of find trace_seqs
spans_of-trace_seqs tid n [] f = refl
spans_of-trace_seqs tid n (s ∷ spans) f =
    let later =
      spans_of-later s spans (trace_seqs tid spans) (seqs_above tid (suc s.seq) spans f.1) in
    let rest = spans_of-trace_seqs tid (suc s.seq) spans f.1 in ground (arith, later, rest)

get_trace-sort :
    (st : SpanStore) (tid : ℕ)
    → IsSpanStore st
    → get_trace st tid ≡ sort_by_start (keep (of_trace tid) st.buffer)
unfolding get_trace trace_spans sort_by_start spans_of
get_trace-sort st tid v = found (trace_seqs tid st.buffer) refl
  where
    found :
        (l : List ℕ)
        → trace_seqs tid st.buffer ≡ l
        → get_trace st tid ≡ sort_by_start (keep (of_trace tid) st.buffer)
    found [] e =
        rw (v.index tid ∙ ap listed e, trace_spans)
          (ap sort_by_start (
            ap (spans_of st.buffer) (sym e)
            ∙ spans_of-trace_seqs tid st.lost_below st.buffer v.rising))
    found (q ∷ l) e =
        rw (v.index tid ∙ ap listed e, trace_spans)
          (ap sort_by_start (
            ap (spans_of st.buffer) (sym e)
            ∙ spans_of-trace_seqs tid st.lost_below st.buffer v.rising))

-- In the order of the start times.
abbrev pub ByStart : List SpanEntry → Type 0
ByStart [] = Unit {0}
ByStart (s ∷ spans) = All (λ (t : SpanEntry). s.start_time ≤ t.start_time) spans × ByStart spans

abbrev pub starts_at : ℕ → SpanEntry → Bool
starts_at x s = s.start_time == x

insert_by_start-All :
    (x : ℕ) (s : SpanEntry) (spans : List SpanEntry)
    → x ≤ s.start_time
    → All (λ (t : SpanEntry). x ≤ t.start_time) spans
    → All (λ (t : SpanEntry). x ≤ t.start_time) (insert_by_start s spans)
unfolding insert_by_start
insert_by_start-All x s [] l h = (l, tt)
insert_by_start-All x s (t ∷ spans) l h =
    ground (arith, insert_by_start-All x s spans l h.1, h.0, h.1, l)

All-le :
    (x y : ℕ) (spans : List SpanEntry)
    → x ≤ y
    → All (λ (t : SpanEntry). y ≤ t.start_time) spans
    → All (λ (t : SpanEntry). x ≤ t.start_time) spans
All-le x y [] l h = tt
All-le x y (t ∷ spans) l h = (omega (arith, l, h.0), All-le x y spans l h.1)

insert_by_start-ByStart :
    (s : SpanEntry) (spans : List SpanEntry) → ByStart spans → ByStart (insert_by_start s spans)
unfolding insert_by_start
insert_by_start-ByStart s [] h = (tt, tt)
insert_by_start-ByStart s (t ∷ spans) h = elim (Bool-cases (leb s.start_time t.start_time)) [
  | inl y ↦
      rw (y, insert_by_start)
        ((ground arith, All-le s.start_time t.start_time spans (ground arith) h.0), h)
  | inr n ↦
      rw (n, insert_by_start)
        (
          insert_by_start-All t.start_time s spans (ground arith) h.0,
          insert_by_start-ByStart s spans h.1,
        )
]

sort_by_start-ByStart : (spans : List SpanEntry) → ByStart (sort_by_start spans)
unfolding sort_by_start
sort_by_start-ByStart [] = tt
sort_by_start-ByStart (s ∷ spans) =
    insert_by_start-ByStart s (sort_by_start spans) (sort_by_start-ByStart spans)

-- Insertion puts a span before those that start when it does.
starts_at-insert :
    (x : ℕ) (s : SpanEntry) (spans : List SpanEntry)
    → keep (starts_at x) (insert_by_start s spans) ≡ keep (starts_at x) (s ∷ spans)
unfolding insert_by_start
starts_at-insert x s [] = refl
starts_at-insert x s (t ∷ spans) = ground (arith, starts_at-insert x s spans)

starts_at-sort :
    (x : ℕ) (spans : List SpanEntry)
    → keep (starts_at x) (sort_by_start spans) ≡ keep (starts_at x) spans
unfolding sort_by_start
starts_at-sort x [] = refl
starts_at-sort x (s ∷ spans) =
    starts_at-insert x s (sort_by_start spans) ∙ ground (arith, starts_at-sort x spans)

-- `get_trace` gives the trace's held spans in the order of their start times: for each start time,
-- exactly those that start then, in seq order.
pub get_trace-keep :
    (st : SpanStore) (tid : ℕ)
    → IsSpanStore st
    → ByStart (get_trace st tid)
      × ((x : ℕ)
          → keep (starts_at x) (get_trace st tid)
            ≡ keep (starts_at x) (keep (of_trace tid) st.buffer))
get_trace-keep st tid v = (
  subst ByStart (sym (get_trace-sort st tid v)) (sort_by_start-ByStart _),
  λ x. ap (keep (starts_at x)) (get_trace-sort st tid v) ∙ starts_at-sort x _,
)
