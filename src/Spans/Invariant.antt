-- ===== src/Spans/Invariant.antt =====
-- What holds of the span ring, and its steps.
use logmon_mcp.Common.{
  ℕ, suc, ◌+◌, ◌≤◌, ◌<◌, ◌≡◌, refl, ap, subst, not, Option, some, List, [], ◌∷◌, ◌++◌, ◌==◌,
  if◌then◌else◌, sat_suc-le, length, length-append, keep, All, All-append, append-nil, eq_of_test,
  arith, Bool-cases, inl, inr,
}
use logmon_mcp.Entry.{SpanEntry}
use logmon_mcp.Ring.{listed, or_default}
use logmon_mcp.Spans.{SpanStore, push_index, forget, evict, push}

-- Strictly ascending from `n` up.
abbrev pub Rising : ℕ → List SpanEntry → Type 0
Rising n [] = Unit {0}
Rising n (s ∷ spans) = (n ≤ s.seq) × Rising (suc s.seq) spans

-- The seqs of a trace's spans.
unfoldable pub trace_seqs : ℕ → List SpanEntry → List ℕ
trace_seqs tid [] = []
trace_seqs tid (s ∷ spans) =
    if s.trace_id == tid then s.seq ∷ trace_seqs tid spans else trace_seqs tid spans

abbrev pub IsIndex : (ℕ → Option (List ℕ)) → List SpanEntry → Type 0
IsIndex index spans = (tid : ℕ) → index tid ≡ listed (trace_seqs tid spans)

-- The span ring: its spans ascend from the loss floor up to the counter, each trace's list is its
-- held seqs, and there are no more spans than the capacity.
pub record IsSpanStore (st : SpanStore) : Type 0 where
  pub rising : Rising st.lost_below st.buffer
  pub index : IsIndex st.trace_index st.buffer
  pub bounded : length st.buffer ≤ st.capacity
  pub counted : All (λ s. s.seq ≤ st.seq_counter) st.buffer
  pub floor : st.lost_below ≤ st.seq_counter + 1

Rising-push :
    (n : ℕ) (spans : List SpanEntry) (s : SpanEntry)
    → n ≤ s.seq
    → Rising n spans
    → All (λ t. t.seq < s.seq) spans
    → Rising n (spans ++ s ∷ [])
Rising-push n [] s l f h = (l, tt)
Rising-push n (t ∷ spans) s l f h = (f.0, Rising-push (suc t.seq) spans s h.0 f.1 h.1)

pub Rising-mono : (m n : ℕ) (spans : List SpanEntry) → m ≤ n → Rising n spans → Rising m spans
Rising-mono m n [] l f = tt
Rising-mono m n (s ∷ spans) l f = (omega (arith, f.0), f.1)

trace_seqs-append :
    (tid : ℕ) (xs ys : List SpanEntry)
    → trace_seqs tid (xs ++ ys) ≡ trace_seqs tid xs ++ trace_seqs tid ys
unfolding trace_seqs
trace_seqs-append tid [] ys = refl
trace_seqs-append tid (x ∷ xs) ys = ground (arith, trace_seqs-append tid xs ys)

default_listed : (l : List ℕ) → or_default (listed l) ≡ l
default_listed [] = refl
default_listed (x ∷ l) = refl

listed_push : (l : List ℕ) (q : ℕ) → some (l ++ q ∷ []) ≡ listed (l ++ q ∷ [])
listed_push [] q = refl
listed_push (x ∷ l) q = refl

push_index-IsIndex :
    (index : ℕ → Option (List ℕ)) (spans : List SpanEntry) (s : SpanEntry)
    → IsIndex index spans
    → IsIndex (push_index index s) (spans ++ s ∷ [])
unfolding push_index trace_seqs
push_index-IsIndex index spans s v tid = elim (Bool-cases (s.trace_id == tid)) [
  | inl h ↦ ground (
    arith,
    h,
    v tid,
    ap index (eq_of_test s.trace_id tid h),
    trace_seqs-append tid spans (s ∷ []),
    default_listed (trace_seqs tid spans),
    listed_push (trace_seqs tid spans) s.seq,
  )
  | inr h ↦
      ground
        (arith, h, v tid, trace_seqs-append tid spans (s ∷ []), append-nil (trace_seqs tid spans))
]

keep_later :
    (q tid n : ℕ) (spans : List SpanEntry)
    → q < n
    → Rising n spans
    → keep (λ x. not (x == q)) (trace_seqs tid spans) ≡ trace_seqs tid spans
unfolding trace_seqs
keep_later q tid n [] l f = refl
keep_later q tid n (s ∷ spans) l f = ground (arith, keep_later q tid (suc s.seq) spans, f.0, f.1)

forget-IsIndex :
    (index : ℕ → Option (List ℕ)) (spans : List SpanEntry) (s : SpanEntry)
    → Rising (suc s.seq) spans
    → IsIndex index (s ∷ spans)
    → IsIndex (forget index s) spans
unfolding forget trace_seqs
forget-IsIndex index spans s f v tid =
    let own : index s.trace_id ≡ some (s.seq ∷ trace_seqs s.trace_id spans) =
      ground (arith, v s.trace_id) in
    rw (own, forget)
      (elim (Bool-cases (s.trace_id == tid)) [
        | inl h ↦ ground (
          arith,
          h,
          ap (λ t. trace_seqs t spans) (eq_of_test s.trace_id tid h),
          keep_later s.seq s.trace_id (suc s.seq) spans (omega arith) f,
        )
        | inr h ↦ ground (arith, h, v tid)
      ])

pub evict-IsSpanStore :
    (st : SpanStore) (s : SpanEntry) (rest : List SpanEntry)
    → st.buffer ≡ s ∷ rest
    → IsSpanStore st
    → IsSpanStore (evict st) × (length (evict st).buffer < st.capacity)
unfolding evict
evict-IsSpanStore st s rest e v =
    let f : Rising st.lost_below (s ∷ rest) = subst (Rising st.lost_below) e v.rising in
    let room : length (s ∷ rest) ≤ st.capacity = subst (λ l. length l ≤ st.capacity) e v.bounded in
    let c : All (λ t. t.seq ≤ st.seq_counter) (s ∷ rest) =
      subst (All (λ t. t.seq ≤ st.seq_counter)) e v.counted in
    rw (e, evict)
      (
        record {
          rising = Rising-mono _ (suc s.seq) rest (omega (arith, f.0, sat_suc-le s.seq)) f.1;
          index =
              forget-IsIndex st.trace_index rest s f.1 (subst (IsIndex st.trace_index) e v.index);
          bounded = omega (arith, room);
          counted = c.1;
          floor = omega (arith, v.floor, c.0, sat_suc-le s.seq);
        },
        room,
      )

pub push-IsSpanStore :
    (st : SpanStore) (s : SpanEntry)
    → length st.buffer < st.capacity
    → st.lost_below ≤ s.seq
    → s.seq ≤ st.seq_counter
    → All (λ t. t.seq < s.seq) st.buffer
    → IsSpanStore st
    → IsSpanStore (push st s)
unfolding push
push-IsSpanStore st s room l c h v = record {
  rising = Rising-push st.lost_below st.buffer s l v.rising h;
  index = push_index-IsIndex st.trace_index st.buffer s v.index;
  bounded = omega (arith, length-append st.buffer (s ∷ []));
  counted = All-append _ st.buffer (s ∷ []) v.counted (c, tt);
  floor = v.floor;
}
