-- ===== src/Epoch/Log.antt =====
-- The epoch log under `observe`.
use logmon_mcp.Common.{
  ℕ, zero, suc, ◌-◌, ◌≤◌, max, ◌≡◌, ◌≢◌, ◌∙◌, refl, ap, true, false, Option, none, some, List, [],
  ◌∷◌, ◌++◌, inl, inr, leb, if◌then◌else◌, length, drop, last?, arith, Option-cases, Bool-cases,
  length-append, length-drop, All, All-append, All-drop, All-last, drop-append, and_true, ap₂,
  String,
}
use text.Mathlib.Text.{◌==◌ as str_eq}
use text.Mathlib.TextEquality.{eq_iff}
use logmon_mcp.Epoch.{
  FilterPolicy, same_policy, same_texts, Epoch, EpochLog, epoch_capacity, open_epoch, observe,
}

-- The policy in force at a seq: that of the last epoch that began at or below it.
unfoldable pub policy_at : List Epoch → ℕ → Option FilterPolicy
policy_at [] q = none
policy_at (e ∷ es) q =
    let rest = policy_at es q in
    if leb e.seq_at_flip q then elim rest [ none ↦ some e.policy | some p ↦ some p ] else none

-- Boundaries ascend, from `n` up, and each epoch's policy differs from the next one's.
abbrev pub Flips : ℕ → List Epoch → Type 0
Flips n [] = Unit {0}
Flips n (e ∷ []) = n ≤ e.seq_at_flip
Flips n (e ∷ f ∷ es) =
    (n ≤ e.seq_at_flip) × (same_policy e.policy f.policy ≡ false) × Flips e.seq_at_flip (f ∷ es)

pub record IsLog (l : EpochLog) : Type 0 where
  pub flips : Flips l.origin_seq l.epochs
  pub bounded : length l.epochs ≤ epoch_capacity

Flips-mono : (m n : ℕ) (es : List Epoch) → m ≤ n → Flips n es → Flips m es
Flips-mono m n [] h f = tt
Flips-mono m n (e ∷ []) h f = omega (arith, f)
Flips-mono m n (e ∷ d ∷ es) h f = (omega (arith, f.0), f.1, f.2)

Flips-tail : (n : ℕ) (e : Epoch) (es : List Epoch) → Flips n (e ∷ es) → Flips n es
Flips-tail n e [] f = tt
Flips-tail n e (d ∷ es) f = Flips-mono n e.seq_at_flip (d ∷ es) f.0 f.2

Flips-drop : (k n : ℕ) (es : List Epoch) → Flips n es → Flips n (drop k es)
Flips-drop zero n es f = f
Flips-drop (suc k) n [] f = tt
Flips-drop (suc k) n (e ∷ es) f = Flips-drop k n es (Flips-tail n e es f)

Flips-push :
    (n : ℕ) (es : List Epoch) (last e : Epoch)
    → Flips n es
    → last? es ≡ some last
    → last.seq_at_flip ≤ e.seq_at_flip
    → same_policy last.policy e.policy ≡ false
    → Flips n (es ++ e ∷ [])
Flips-push n [] last e f h g d = cc
Flips-push n (x ∷ []) last e f h g d = let p : x ≡ last = cc in (f, rw p d, rw p g)
Flips-push n (x ∷ y ∷ es) last e f h g d =
    (f.0, f.1, Flips-push x.seq_at_flip (y ∷ es) last e f.2 h g d)

last-nil : (es : List Epoch) → last? es ≡ none → es ≡ []
last-nil [] h = refl
last-nil (e ∷ []) h = cc
last-nil (e ∷ d ∷ es) h = absurd (nonempty (last-nil (d ∷ es) h))
  where
    nonempty : d ∷ es ≢ []
    nonempty g = cc

open_epoch-bounded :
    (l : EpochLog) (seq : ℕ) (p : FilterPolicy)
    → length (open_epoch l seq p).epochs ≤ epoch_capacity
unfolding open_epoch
open_epoch-bounded l seq p = omega (
  arith,
  length-drop (length (l.epochs ++ record { seq_at_flip = seq; policy = p } ∷ []) - epoch_capacity)
      (l.epochs ++ record { seq_at_flip = seq; policy = p } ∷ []),
)

-- Every observation keeps the log: boundaries ascend from the origin, adjacent policies differ, and
-- at most 1024 epochs are held.
pub observe-IsLog : (l : EpochLog) (seq : ℕ) (p : FilterPolicy) → IsLog l → IsLog (observe l seq p)
unfolding observe open_epoch
observe-IsLog l seq p v = elim (Option-cases (last? l.epochs)) [
  | inl h ↦
      rw (h, observe)
        (record {
          flips =
              Flips-drop _ l.origin_seq
                (l.epochs ++ record { seq_at_flip = l.origin_seq; policy = p } ∷ [])
                (rw (last-nil l.epochs h) (omega arith));
          bounded = open_epoch-bounded l l.origin_seq p;
        })
  | inr (last, h) ↦ elim (Bool-cases (same_policy last.policy p)) [
    | inl same ↦ rw (h, observe) (rw (same, observe) v)
    | inr differs ↦
        rw (h, observe)
          (rw (differs, observe)
            (record {
              flips =
                  Flips-drop _ l.origin_seq _
                    (Flips-push l.origin_seq l.epochs last _ v.flips h (omega arith) differs);
              bounded = open_epoch-bounded l (max seq last.seq_at_flip) p;
            }))
  ]
]

-- Every epoch has begun at a seq.
abbrev pub Begun : ℕ → List Epoch → Type 0
Begun q es = All (λ e. e.seq_at_flip ≤ q) es

policy_at-last :
    (q : ℕ) (es : List Epoch) (e : Epoch)
    → Begun q es
    → last? es ≡ some e
    → policy_at es q ≡ some e.policy
unfolding policy_at
policy_at-last q [] e b h = cc
policy_at-last q (x ∷ []) e b h = ground (arith, b.0)
policy_at-last q (x ∷ y ∷ es) e b h = ground (arith, policy_at-last q (y ∷ es) e b.1 h, b.0)

last-push : (es : List Epoch) (e : Epoch) → last? (es ++ e ∷ []) ≡ some e
last-push [] e = refl
last-push (x ∷ []) e = refl
last-push (x ∷ y ∷ es) e = last-push (y ∷ es) e

open_epoch-policy_at :
    (l : EpochLog) (seq q : ℕ) (p : FilterPolicy)
    → seq ≤ q
    → Begun q l.epochs
    → policy_at (open_epoch l seq p).epochs q ≡ some p
unfolding open_epoch
open_epoch-policy_at l seq q p h b =
    let e : Epoch = record { seq_at_flip = seq; policy = p } in
    let k = length (l.epochs ++ e ∷ []) - epoch_capacity in
    let none_left : k - length l.epochs ≡ 0 = omega (arith, length-append l.epochs (e ∷ [])) in
    let split : drop k (l.epochs ++ e ∷ []) ≡ drop k l.epochs ++ e ∷ [] =
      drop-append k l.epochs (e ∷ []) ∙ ap (λ n. drop k l.epochs ++ drop n (e ∷ [])) none_left in
    rw split (
      policy_at-last q (drop k l.epochs ++ e ∷ []) e
        (All-append (λ x. x.seq_at_flip ≤ q) (drop k l.epochs) (e ∷ [])
          (All-drop (λ x. x.seq_at_flip ≤ q) k l.epochs b) (h, tt))
        (last-push (drop k l.epochs) e))

same_texts-eq : (xs ys : List String) → same_texts xs ys ≡ true → xs ≡ ys
unfolding same_texts
same_texts-eq [] [] h = refl
same_texts-eq [] (y ∷ ys) h = cc
same_texts-eq (x ∷ xs) [] h = cc
same_texts-eq (x ∷ xs) (y ∷ ys) h =
    let (here, there) = and_true (str_eq x y) (same_texts xs ys) h in
    ap₂ ◌∷◌ ((eq_iff x y).0 here) (same_texts-eq xs ys there)

same_policy-eq : (p q : FilterPolicy) → same_policy p q ≡ true → p ≡ q
unfolding same_policy
same_policy-eq p q h = ap (λ f. record { filters = f }) (same_texts-eq p.filters q.filters h)

-- Once a decision under a policy is observed, that policy is the one on record at the decision's
-- seq and at every later seq, where no epoch begins above it.
pub observe-policy_at :
    (l : EpochLog) (seq q : ℕ) (p : FilterPolicy)
    → l.origin_seq ≤ q
    → seq ≤ q
    → Begun q l.epochs
    → policy_at (observe l seq p).epochs q ≡ some p
unfolding observe
observe-policy_at l seq q p o h b = elim (Option-cases (last? l.epochs)) [
  | inl e ↦ rw (e, observe) (open_epoch-policy_at l l.origin_seq q p o b)
  | inr (last, e) ↦ elim (Bool-cases (same_policy last.policy p)) [
    | inl same ↦
        rw (e, observe)
          (rw (same, observe)
            (policy_at-last q l.epochs last b e ∙ ap some (same_policy-eq last.policy p same)))
    | inr differs ↦
        rw (e, observe)
          (rw (differs, observe)
            (open_epoch-policy_at l (max seq last.seq_at_flip) q p
              (omega (arith, h, All-last (λ x. x.seq_at_flip ≤ q) l.epochs last b e)) b))
  ]
]
