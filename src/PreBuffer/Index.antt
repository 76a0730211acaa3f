-- ===== src/PreBuffer/Index.antt =====
-- The pre-trigger buffer's invariant: arrivals ascend within the last `capacity`, and each trace's
-- list is the arrivals of its entries.
use logmon_mcp.Common.{
  ℕ, zero, suc, ◌+◌, ◌-◌, ◌≤◌, ◌<◌, ◌≡◌, ◌∙◌, refl, subst, Bool, true, Option, none, some, List, [],
  ◌∷◌, ◌++◌, ltb, leb, ◌==◌, if◌then◌else◌, take, keep, arith, Option-cases, Bool-cases, inl, inr,
  append-nil,
}
use logmon_mcp.Entry.{LogEntry}
use logmon_mcp.Ring.{listed, or_default, is_traced}
use logmon_mcp.PreBuffer.{
  Buffer, new, pop_front, forget, expire_below, expire, arrive, append, resize,
}

-- Arrivals strictly ascending, from `lo` up and below `hi`.
abbrev pub Between : ℕ → ℕ → List (ℕ × LogEntry) → Type 0
Between lo hi [] = Unit {0}
Between lo hi ((a, e) ∷ es) = (lo ≤ a) × (a < hi) × Between (suc a) hi es

unfoldable pub arrivals_of : ℕ → List (ℕ × LogEntry) → List ℕ
arrivals_of tid [] = []
arrivals_of tid ((a, e) ∷ es) =
    if is_traced tid e then a ∷ arrivals_of tid es else arrivals_of tid es

abbrev pub Traces : (ℕ → Option (List ℕ)) → List (ℕ × LogEntry) → Type 0
Traces index es = (tid : ℕ) → index tid ≡ listed (arrivals_of tid es)

pub record IsBuffer (b : Buffer) : Type 0 where
  pub recent : Between (b.arrivals - b.capacity) b.arrivals b.entries
  pub traces : Traces b.by_trace b.entries

pub Between-mono :
    (lo lo' hi hi' : ℕ) (es : List (ℕ × LogEntry))
    → lo' ≤ lo
    → hi ≤ hi'
    → Between lo hi es
    → Between lo' hi' es
Between-mono lo lo' hi hi' [] h g f = tt
Between-mono lo lo' hi hi' ((a, e) ∷ es) h g f = (
  omega (arith, f.0),
  omega (arith, f.1),
  Between-mono (suc a) (suc a) hi hi' es (omega arith) g f.2,
)

Between-push :
    (lo hi : ℕ) (e : LogEntry) (es : List (ℕ × LogEntry))
    → lo ≤ hi
    → Between lo hi es
    → Between lo (hi + 1) (es ++ (hi, e) ∷ [])
Between-push lo hi e [] h f = (h, omega arith, tt)
Between-push lo hi e ((a, x) ∷ es) h f =
    (f.0, omega (arith, f.1), Between-push (suc a) hi e es (omega (arith, f.1)) f.2)

pub Between-take :
    (k lo hi : ℕ) (es : List (ℕ × LogEntry)) → Between lo hi es → Between lo hi (take k es)
Between-take zero lo hi es f = tt
Between-take (suc k) lo hi [] f = tt
Between-take (suc k) lo hi ((a, e) ∷ es) f = (f.0, f.1, Between-take k (suc a) hi es f.2)

pub arrivals_of-append :
    (tid : ℕ) (xs ys : List (ℕ × LogEntry))
    → arrivals_of tid (xs ++ ys) ≡ arrivals_of tid xs ++ arrivals_of tid ys
unfolding arrivals_of
arrivals_of-append tid [] ys = refl
arrivals_of-append tid ((a, e) ∷ xs) ys = ground (arith, arrivals_of-append tid xs ys)

-- The oldest entry is forgotten.
forget_front-Traces :
    (b : Buffer) (a : ℕ) (e : LogEntry) (es : List (ℕ × LogEntry))
    → Traces b.by_trace ((a, e) ∷ es)
    → Traces (forget b e.trace_id true).by_trace es
unfolding forget arrivals_of is_traced pop_front
forget_front-Traces b a e es i tid = elim (Option-cases e.trace_id) [
  | inl h ↦ ground (arith, i tid)
  | inr (t, h) ↦ ground (arith, i tid, i t)
]

pub forget-same :
    (b : Buffer) (t : Option ℕ) (front : Bool)
    → ((forget b t front).arrivals ≡ b.arrivals)
      × ((forget b t front).entries ≡ b.entries)
      × ((forget b t front).capacity ≡ b.capacity)
unfolding forget
forget-same b none front = (refl, refl, refl)
forget-same b (some t) front = elim (Option-cases (b.by_trace t)) [
  | inl h ↦ rw (h, forget) (refl, refl, refl)
  | inr (l, h) ↦ rw (h, forget) (refl, refl, refl)
]

-- What `expire` leaves.
pub record Expired (lo : ℕ) (b t : Buffer) (es : List (ℕ × LogEntry)) : Type 0 where
  pub entries_eq : t.entries ≡ keep (λ (a, e). leb lo a) es
  pub arrivals_eq : t.arrivals ≡ b.arrivals
  pub capacity_eq : t.capacity ≡ b.capacity
  pub recent : Between lo b.arrivals t.entries
  pub traces : Traces t.by_trace t.entries

keep_above :
    (lo x hi : ℕ) (es : List (ℕ × LogEntry))
    → lo ≤ x
    → Between x hi es
    → keep (λ (a, e). leb lo a) es ≡ es
keep_above lo x hi [] h f = refl
keep_above lo x hi ((a, e) ∷ es) h f = ground (arith, keep_above lo (suc a) hi es, f.0, f.2)

pub expire_below-Expired :
    (lo x : ℕ) (es : List (ℕ × LogEntry)) (b : Buffer)
    → Between x b.arrivals es
    → Traces b.by_trace es
    → Expired lo b (expire_below lo es b) es
unfolding expire_below
expire_below-Expired lo x [] b f i = record {
  entries_eq = refl;
  arrivals_eq = refl;
  capacity_eq = refl;
  recent = tt;
  traces = i;
}
expire_below-Expired lo x ((a, e) ∷ es) b f i = elim (Bool-cases (ltb a lo)) [
  | inl h ↦
      rw (h, expire_below)
        (let same = forget-same b e.trace_id true in
          let r =
            expire_below-Expired lo (suc a) es (forget b e.trace_id true) (rw same.0 f.2)
              (forget_front-Traces b a e es i) in
          record {
            entries_eq = ground (arith, r.entries_eq);
            arrivals_eq = r.arrivals_eq ∙ same.0;
            capacity_eq = r.capacity_eq ∙ same.2;
            recent =
                subst (λ n. Between lo n (expire_below lo es (forget b e.trace_id true)).entries)
                  same.0 r.recent;
            traces = r.traces;
          })
  | inr h ↦
      rw (h, expire_below)
        (record {
          entries_eq = ground (arith, keep_above lo (suc a) b.arrivals es, f.2);
          arrivals_eq = refl;
          capacity_eq = refl;
          recent = (ground arith, f.1, f.2);
          traces = i;
        })
]

arrive-Traces :
    (b : Buffer) (e : LogEntry)
    → Traces b.by_trace b.entries
    → Traces (arrive b e).by_trace (arrive b e).entries
unfolding arrive arrivals_of is_traced
arrive-Traces b e i tid = elim (Option-cases e.trace_id) [
  | inl h ↦ ground (
    arith,
    i tid,
    arrivals_of-append tid b.entries ((b.arrivals, e) ∷ []),
    append-nil (arrivals_of tid b.entries),
  )
  | inr (t, h) ↦ ground (
    arith,
    i tid,
    i t,
    arrivals_of-append tid b.entries ((b.arrivals, e) ∷ []),
    append-nil (arrivals_of tid b.entries),
    default_listed (arrivals_of tid b.entries),
    listed_push (arrivals_of tid b.entries) b.arrivals,
  )
]
  where
    default_listed : (l : List ℕ) → or_default (listed l) ≡ l
    default_listed [] = refl
    default_listed (x ∷ l) = refl

    listed_push : (l : List ℕ) (s : ℕ) → listed (l ++ s ∷ []) ≡ some (l ++ s ∷ [])
    listed_push [] s = refl
    listed_push (x ∷ l) s = refl

pub arrive-Expired :
    (b : Buffer) (e : LogEntry)
    → IsBuffer b
    → Expired
        (b.arrivals + 1 - b.capacity)
        (arrive b e)
        (expire (arrive b e) b.capacity)
        (b.entries ++ (b.arrivals, e) ∷ [])
unfolding expire arrive
arrive-Expired b e v =
    expire_below-Expired _ (b.arrivals - b.capacity) _ (arrive b e)
      (Between-push (b.arrivals - b.capacity) b.arrivals e b.entries (omega arith) v.recent)
      (arrive-Traces b e v.traces)

pub append-IsBuffer : (b : Buffer) (e : LogEntry) → IsBuffer b → IsBuffer (append b e)
unfolding append arrive
append-IsBuffer b e v = elim (Bool-cases (b.capacity == 0)) [
  | inl h ↦ rw (h, append) v
  | inr h ↦
      rw (h, append)
        (let r = arrive-Expired b e v in
          record { recent = rw (r.arrivals_eq, r.capacity_eq) r.recent; traces = r.traces })
]

pub resize-IsBuffer : (b : Buffer) (limit : ℕ) → IsBuffer b → IsBuffer (resize b limit)
unfolding resize expire
resize-IsBuffer b limit v =
    let r =
      expire_below-Expired (b.arrivals - limit) (b.arrivals - b.capacity) b.entries
        (record b { capacity = limit }) v.recent v.traces in
    record { recent = rw (r.arrivals_eq, r.capacity_eq) r.recent; traces = r.traces }

pub new-IsBuffer : (limit : ℕ) → IsBuffer (new limit)
unfolding new arrivals_of
new-IsBuffer limit = record { recent = tt; traces = λ tid. refl }
