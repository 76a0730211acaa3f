-- ===== src/Spans/History.antt =====
-- The span ring under every insertion and clear, and the seqs that go to logs.
use logmon_mcp.Common.{
  ℕ, suc, ◌+◌, ◌≤◌, ◌<◌, max, ◌≡◌, refl, subst, List, [], ◌∷◌, leb, ◌==◌, if◌then◌else◌, ◌%◌, ◌^◌,
  last?, sat_suc, sat_suc-le, length, length-nil, All, All-imp, All-last, Option-cases, arith,
  Bool-cases, inl, inr, u64_max, lt→leb_false, sym,
}
use logmon_mcp.Entry.{SpanEntry}
use logmon_mcp.Throttle.{next}
use logmon_mcp.Spans.{SpanStore, forget, evict, push, store_numbered, insert, clear, new}
use logmon_mcp.Spans.Invariant.{trace_seqs, IsSpanStore, evict-IsSpanStore, push-IsSpanStore}

abbrev without : SpanStore → SpanEntry → List SpanEntry → SpanStore
without st s rest = record st {
  buffer = rest;
  trace_index = forget st.trace_index s;
  lost_below = max st.lost_below (sat_suc s.seq);
}

evict-cons :
    (st : SpanStore) (s : SpanEntry) (rest : List SpanEntry)
    → st.buffer ≡ s ∷ rest
    → evict st ≡ without st s rest
unfolding evict
evict-cons st s rest e = rw (e, evict) refl

-- A full ring loses its oldest span first.
push_full-IsSpanStore :
    (st : SpanStore) (s x : SpanEntry) (rest : List SpanEntry)
    → st.buffer ≡ x ∷ rest
    → s.seq ≡ st.seq_counter
    → st.lost_below ≤ s.seq
    → All (λ t. t.seq < s.seq) (x ∷ rest)
    → IsSpanStore st
    → IsSpanStore (push (evict st) s)
push_full-IsSpanStore st s x rest e c l h v =
    let ev : IsSpanStore (without st x rest) × (length rest < st.capacity) =
      subst (λ t. IsSpanStore t × (length t.buffer < st.capacity)) (evict-cons st x rest e)
        (evict-IsSpanStore st x rest e v) in
    rw (evict-cons st x rest e) (
      push-IsSpanStore (without st x rest) s ev.1 (omega (arith, h.0, sat_suc-le x.seq))
        (omega (arith, c)) h.1 ev.0)

push_evicted-IsSpanStore :
    (st : SpanStore) (s : SpanEntry) (l : List SpanEntry)
    → st.buffer ≡ l
    → 0 < st.capacity
    → s.seq ≡ st.seq_counter
    → st.lost_below ≤ s.seq
    → All (λ t. t.seq < s.seq) l
    → IsSpanStore st
    → IsSpanStore (push (if leb st.capacity (length l) then evict st else st) s)
push_evicted-IsSpanStore st s [] e some_room c l h v =
    rw (lt→leb_false 0 st.capacity some_room)
      (push-IsSpanStore st s (rw e some_room) l (omega (arith, c)) (rw e tt) v)
push_evicted-IsSpanStore st s (x ∷ rest) e some_room c l h v =
    elim (Bool-cases (leb st.capacity (suc (length rest)))) [
      | inl full ↦ rw full (push_full-IsSpanStore st s x rest e c l h v)
      | inr free ↦ rw free (
          push-IsSpanStore st s (rw e (ground arith)) l (omega (arith, c))
            (subst (All (λ t. t.seq < s.seq)) (sym e) h) v)
    ]

-- A span newer than all that are held, with the counter at its seq.
store_numbered-IsSpanStore :
    (st : SpanStore) (s : SpanEntry)
    → s.seq ≡ st.seq_counter
    → st.lost_below ≤ s.seq
    → All (λ t. t.seq < s.seq) st.buffer
    → IsSpanStore st
    → IsSpanStore (store_numbered st s)
unfolding store_numbered
store_numbered-IsSpanStore st s c l h v = elim (Bool-cases (st.capacity == 0)) [
  | inl z ↦ rw (z, store_numbered) (none_held (length-nil st.buffer (ground (arith, v.bounded))))
  | inr z ↦
      rw (z, store_numbered) (push_evicted-IsSpanStore st s st.buffer refl (ground arith) c l h v)
]
  where
    none_held :
        st.buffer ≡ [] → IsSpanStore (record st { lost_below = max st.lost_below (sat_suc s.seq) })
    none_held e = record {
      rising = rw e tt;
      index = v.index;
      bounded = v.bounded;
      counted = v.counted;
      floor = omega (arith, v.floor, sat_suc-le s.seq, c);
    }

-- The counter, when seqs go elsewhere.
pub counted-IsSpanStore :
    (st : SpanStore) (c : ℕ)
    → st.seq_counter ≤ c
    → IsSpanStore st
    → IsSpanStore (record st { seq_counter = c })
counted-IsSpanStore st c l v = record {
  rising = v.rising;
  index = v.index;
  bounded = v.bounded;
  counted = All-imp (λ s h. omega (arith, h)) st.buffer v.counted;
  floor = omega (arith, v.floor);
}

pub insert-IsSpanStore :
    (st : SpanStore) (span : SpanEntry)
    → st.seq_counter + 1 < u64_max
    → IsSpanStore st
    → IsSpanStore (insert st span).0
unfolding insert next
insert-IsSpanStore st span small v =
    let wrapped : (st.seq_counter + 1) % (2 ^ 64) ≡ st.seq_counter + 1 = omega (arith, small) in
    rw wrapped (
      store_numbered-IsSpanStore _ _ refl (omega (arith, v.floor))
        (All-imp (λ s h. omega (arith, h)) st.buffer v.counted)
        (counted-IsSpanStore st (st.seq_counter + 1) (omega arith) v))

clear-IsSpanStore : (st : SpanStore) → IsSpanStore st → IsSpanStore (clear st).0
unfolding clear trace_seqs
clear-IsSpanStore st v = record {
  rising = tt;
  index = λ tid. refl;
  bounded = omega arith;
  counted = tt;
  floor = elim (Option-cases (last? st.buffer)) [
    | inl h ↦ rw (h, clear) v.floor
    | inr (newest, h) ↦
        rw (h, clear)
          (omega (
            arith,
            v.floor,
            sat_suc-le newest.seq,
            All-last (λ s. s.seq ≤ st.seq_counter) st.buffer newest v.counted h,
          ))
  ];
}

-- What a span ring goes through: insertions, clears, and seqs that the shared counter gives to
-- logs.
pub data Use : Type 0 where
  inserts : SpanEntry → Use
  clears : Use
  logs : Use

unfoldable pub use_once : SpanStore → Use → SpanStore
use_once st (inserts span) = (insert st span).0
use_once st clears = (clear st).0
use_once st logs = record st { seq_counter = (next st.seq_counter).0 }

unfoldable pub run : SpanStore → List Use → SpanStore
run st [] = st
run st (u ∷ us) = run (use_once st u) us

use_once-counter :
    (st : SpanStore) (u : Use)
    → st.seq_counter + 1 < u64_max
    → (use_once st u).seq_counter ≤ st.seq_counter + 1
unfolding use_once insert next clear store_numbered push evict
use_once-counter st (inserts span) h = ground (arith, h)
use_once-counter st clears h = omega arith
use_once-counter st logs h = omega (arith, h)

use_once-IsSpanStore :
    (st : SpanStore) (u : Use)
    → st.seq_counter + 1 < u64_max
    → IsSpanStore st
    → IsSpanStore (use_once st u)
unfolding use_once next
use_once-IsSpanStore st (inserts span) h v = insert-IsSpanStore st span h v
use_once-IsSpanStore st clears h v = clear-IsSpanStore st v
use_once-IsSpanStore st logs h v = counted-IsSpanStore st _ (omega (arith, h)) v

-- Every sequence of insertions and clears, with seqs of the shared counter going to logs in
-- between, keeps the span ring: its spans ascend strictly from the loss floor up to the counter,
-- there are at most `capacity` of them, and each trace's list is exactly its held seqs.
pub run-IsSpanStore :
    (st : SpanStore) (us : List Use)
    → st.seq_counter + length us < u64_max
    → IsSpanStore st
    → IsSpanStore (run st us)
unfolding run
run-IsSpanStore st [] h v = v
run-IsSpanStore st (u ∷ us) h v =
    run-IsSpanStore (use_once st u) us (omega (arith, use_once-counter st u (omega (arith, h)), h))
      (use_once-IsSpanStore st u (omega (arith, h)) v)

pub new-IsSpanStore : (capacity counter : ℕ) → IsSpanStore (new capacity counter)
unfolding new trace_seqs
new-IsSpanStore capacity counter = record {
  rising = tt;
  index = λ tid. refl;
  bounded = omega arith;
  counted = tt;
  floor = omega arith;
}
