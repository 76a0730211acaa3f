-- ===== src/PreBuffer/Lookup.antt =====
-- The pre-trigger buffer's flush and lookup.
use logmon_mcp.Common.{
  ℕ, suc, ◌+◌, ◌-◌, ◌<◌, ◌≡◌, ◌∙◌, refl, sym, ap, false, ◌||◌, Option, none, some, List, [], ◌∷◌,
  ◌++◌, map, ◌==◌, length, take, drop, keep, arith, Option-cases, Bool-cases, inl, inr, append-nil,
  append_assoc, length-append, take-append-drop, eq_of_test, length-nil,
}
use logmon_mcp.Entry.{LogEntry}
use logmon_mcp.Ring.{listed, is_traced}
use logmon_mcp.PreBuffer.{
  Buffer, pop_back, forget, forget_all, flush, find_arrival, entries_at, entries_by_trace_id,
}
use logmon_mcp.PreBuffer.Index.{
  Between, arrivals_of, Traces, IsBuffer, Between-take, forget-same, arrivals_of-append,
}

length-pop_back : (l : List ℕ) → length (pop_back l) ≡ length l - 1
unfolding pop_back
length-pop_back [] = refl
length-pop_back (a ∷ []) = refl
length-pop_back (a ∷ b ∷ l) = omega (arith, length-pop_back (b ∷ l))

pop_back-append :
    (xs ys : List ℕ) (n : ℕ) → length ys ≡ suc n → pop_back (xs ++ ys) ≡ xs ++ pop_back ys
unfolding pop_back
pop_back-append [] ys n h = refl
pop_back-append (x ∷ []) [] n h = absurd (omega (arith, h))
pop_back-append (x ∷ []) (y ∷ ys) n h = refl
pop_back-append (x ∷ z ∷ xs) ys n h = ap (◌∷◌ x) (pop_back-append (z ∷ xs) ys n h)

-- Each trace has its arrivals among the entries that stay, and some others, as many as the tail
-- has of it.
abbrev Excess : (ℕ → Option (List ℕ)) → List (ℕ × LogEntry) → List (ℕ × LogEntry) → Type 0
Excess index es tail =
    (tid : ℕ)
    → (extra : List ℕ) × (length extra ≡ length (arrivals_of tid tail))
      × (index tid ≡ listed (arrivals_of tid es ++ extra))

listed-long : (l : List ℕ) (n : ℕ) → length l ≡ suc n → listed l ≡ some l
listed-long [] n h = absurd (omega (arith, h))
listed-long (x ∷ l) n h = refl

-- The trace's last arrival is forgotten.
forget_one :
    (b : Buffer) (tid n : ℕ) (kept extra : List ℕ)
    → b.by_trace tid ≡ listed (kept ++ extra)
    → length extra ≡ suc n
    → (forget b (some tid) false).by_trace tid ≡ listed (kept ++ pop_back extra)
unfolding forget
forget_one b tid n kept extra e h = ground (
  arith,
  listed-long (kept ++ extra) (length kept + n),
  length-append kept extra,
  pop_back-append kept extra n h,
)

forget_other :
    (b : Buffer) (t tid : ℕ)
    → (t == tid) ≡ false
    → (forget b (some t) false).by_trace tid ≡ b.by_trace tid
unfolding forget
forget_other b t tid h = ground arith

forget_back-Excess :
    (b : Buffer) (a : ℕ) (e : LogEntry) (es tail : List (ℕ × LogEntry))
    → Excess b.by_trace es ((a, e) ∷ tail)
    → Excess (forget b e.trace_id false).by_trace es tail
unfolding forget arrivals_of is_traced
forget_back-Excess b a e es tail i tid = elim (Option-cases e.trace_id) [
  | inl h ↦ rw (h, forget) (let (extra, len, eq) = i tid in (extra, ground arith, eq))
  | inr (t, h) ↦ elim (Bool-cases (t == tid)) [
    | inl same ↦
        let (extra, len, eq) = i tid in
        let t-eq : t ≡ tid = eq_of_test t tid same in
        let long : length extra ≡ suc (length (arrivals_of tid tail)) = ground arith in
        (
          pop_back extra,
          omega (arith, length-pop_back extra, long),
          rw (h, t-eq) (forget_one b tid _ (arrivals_of tid es) extra eq long),
        )
    | inr other ↦
        let (extra, len, eq) = i tid in
        (extra, ground arith, rw h (forget_other b t tid other ∙ eq))
  ]
]

forget_all-Traces :
    (b : Buffer) (es tail : List (ℕ × LogEntry))
    → Excess b.by_trace es tail
    → Traces (forget_all tail b).by_trace es
unfolding forget_all arrivals_of
forget_all-Traces b es [] i = λ tid.
    let (extra, len, eq) = i tid in
    eq
    ∙ ap (λ l. listed (arrivals_of tid es ++ l)) (length-nil extra (omega (arith, len)))
    ∙ ap listed (append-nil (arrivals_of tid es))
forget_all-Traces b es ((a, e) ∷ tail) i =
    forget_all-Traces (forget b e.trace_id false) es tail (forget_back-Excess b a e es tail i)

pub forget_all-same :
    (tail : List (ℕ × LogEntry)) (b : Buffer)
    → ((forget_all tail b).arrivals ≡ b.arrivals)
      × ((forget_all tail b).entries ≡ b.entries)
      × ((forget_all tail b).capacity ≡ b.capacity)
unfolding forget_all
forget_all-same [] b = (refl, refl, refl)
forget_all-same ((a, e) ∷ tail) b =
    let s = forget_all-same tail (forget b e.trace_id false) in
    let f = forget-same b e.trace_id false in (s.0 ∙ f.0, s.1 ∙ f.1, s.2 ∙ f.2)

drained-IsBuffer :
    (b : Buffer) (k : ℕ)
    → IsBuffer b
    → IsBuffer (forget_all (drop k b.entries) (record b { entries = take k b.entries }))
drained-IsBuffer b k v =
    let cut : Buffer = record b { entries = take k b.entries } in
    let same = forget_all-same (drop k b.entries) cut in
    record {
      recent = rw (same.0, same.1, same.2) (Between-take k _ _ b.entries v.recent);
      traces = rw same.1 (
          forget_all-Traces cut (take k b.entries) (drop k b.entries) λ tid. (
            arrivals_of tid (drop k b.entries),
            refl,
            v.traces tid
                ∙ ap (λ l. listed (arrivals_of tid l)) (sym (take-append-drop k b.entries))
                ∙ ap listed (arrivals_of-append tid (take k b.entries) (drop k b.entries)),
          ));
    }

-- A flush keeps the invariant.
pub flush-IsBuffer : (b : Buffer) (n : ℕ) → IsBuffer b → IsBuffer (flush b n).0
unfolding flush
flush-IsBuffer b n v = elim (Bool-cases (length b.entries == 0 || n == 0)) [
  | inl h ↦ rw (h, flush) v
  | inr h ↦ rw (h, flush) (drained-IsBuffer b _ v)
]

find_arrival-append :
    (lo hi a : ℕ) (e : LogEntry) (xs ys : List (ℕ × LogEntry))
    → Between lo hi (xs ++ (a, e) ∷ ys)
    → find_arrival a (xs ++ (a, e) ∷ ys) ≡ some e
unfolding find_arrival
find_arrival-append lo hi a e [] ys f = ground arith
find_arrival-append lo hi a e ((x, d) ∷ xs) ys f =
    ground (arith, find_arrival-append (suc x) hi a e xs ys f.2, after x xs f.2)
  where
    after : (x : ℕ) (xs : List (ℕ × LogEntry)) → Between (suc x) hi (xs ++ (a, e) ∷ ys) → x < a
    after x [] g = omega (arith, g.0)
    after x ((y, d) ∷ xs) g = omega (arith, g.0, after y xs g.2)

lookup_all :
    (lo hi tid : ℕ) (xs ys : List (ℕ × LogEntry))
    → Between lo hi (xs ++ ys)
    → entries_at (xs ++ ys) (arrivals_of tid ys)
      ≡ map (λ (a, e). e) (keep (λ (a, e). is_traced tid e) ys)
unfolding arrivals_of entries_at
lookup_all lo hi tid xs [] f = refl
lookup_all lo hi tid xs ((a, e) ∷ ys) f =
    let whole = append_assoc xs ((a, e) ∷ []) ys in
    ground (
      arith,
      find_arrival-append lo hi a e xs ys f,
      rw whole at (lookup_all lo hi tid (xs ++ (a, e) ∷ []) ys (rw whole f)),
    )

-- A trace's lookup gives exactly the buffered entries of that trace, oldest arrival first.
pub entries_by_trace_id-keep :
    (b : Buffer) (tid : ℕ)
    → IsBuffer b
    → entries_by_trace_id b tid ≡ map (λ (a, e). e) (keep (λ (a, e). is_traced tid e) b.entries)
unfolding entries_by_trace_id entries_at
entries_by_trace_id-keep b tid v =
    rw (v.traces tid, entries_by_trace_id)
      (unlist (arrivals_of tid b.entries) ∙ lookup_all _ _ tid [] b.entries v.recent)
  where
    unlist :
        (l : List ℕ)
        → (elim (listed l) as (λ _. List LogEntry) [
          | none ↦ []
          | some arrivals ↦ entries_at b.entries arrivals
        ])
          ≡ entries_at b.entries l
    unlist [] = refl
    unlist (x ∷ l) = refl
