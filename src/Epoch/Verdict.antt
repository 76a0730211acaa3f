-- ===== src/Epoch/Verdict.antt =====
-- What a verdict says about the storage policy over a range.
use logmon_mcp.Common.{
  ℕ, ◌≤◌, ◌<◌, ◌≡◌, refl, Bool, true, false, Option, none, some, List, [], ◌∷◌, inl, inr, u64_max,
  arith, Option-cases,
}
use logmon_mcp.Epoch.{
  FilterPolicy, is_filtered, Epoch, EpochLog, EpochCoverage, EvidenceVerdict, epoch_end,
  narrowed_by, coverage, evidence_verdict,
}
use logmon_mcp.Epoch.Log.{policy_at}

-- The policy at a seq is known and stores everything.
pub StoresAll : Option FilterPolicy → Type 0
StoresAll none = Unit {0}
StoresAll (some p) = is_filtered p ≡ false

narrowed_by-tail :
    (from to : ℕ) (x : Epoch) (es : List Epoch)
    → narrowed_by from to (x ∷ es) ≡ []
    → narrowed_by from to es ≡ []
unfolding narrowed_by
narrowed_by-tail from to x es m = ground arith

policy_at-none :
    (q : ℕ) (y : Epoch) (es : List Epoch) → policy_at (y ∷ es) q ≡ none → q < y.seq_at_flip
unfolding policy_at
policy_at-none q y es e = elim (Option-cases (policy_at es q)) [
  | inl h ↦ ground arith
  | inr (p, h) ↦ ground arith
]

-- The last epoch that has begun, if it touches the range, filters nothing.
unnarrowed_here :
    (from to q : ℕ) (x : Epoch) (es : List Epoch)
    → from ≤ q
    → q ≤ to
    → x.seq_at_flip ≤ q
    → q ≤ epoch_end es
    → narrowed_by from to (x ∷ es) ≡ []
    → is_filtered x.policy ≡ false
unfolding narrowed_by
unnarrowed_here from to q x es h g b f m = ground arith

-- In a range that nothing narrows, no policy in force filters.
unnarrowed :
    (from to q : ℕ) (es : List Epoch) (p : FilterPolicy)
    → from ≤ q
    → q ≤ to
    → q ≤ u64_max
    → narrowed_by from to es ≡ []
    → policy_at es q ≡ some p
    → is_filtered p ≡ false
unfolding policy_at epoch_end
unnarrowed from to q [] p h g m e f = cc
unnarrowed from to q (x ∷ []) p h g m e f = ground (arith, unnarrowed_here from to q x [] h g)
unnarrowed from to q (x ∷ y ∷ es) p h g m e f = elim (Option-cases (policy_at (y ∷ es) q)) [
  | inl o ↦ ground (arith, policy_at-none q y es o, unnarrowed_here from to q x (y ∷ es) h g)
  | inr (r, o) ↦
      let r-ok = unnarrowed from to q (y ∷ es) r h g m (narrowed_by-tail from to x (y ∷ es) e) o in
      ground (arith, r-ok)
]

policy_at-begun :
    (q : ℕ) (x : Epoch) (es : List Epoch)
    → x.seq_at_flip ≤ q
    → (p : FilterPolicy) × (policy_at (x ∷ es) q ≡ some p)
unfolding policy_at
policy_at-begun q x es h = elim (Option-cases (policy_at es q)) [
  | inl o ↦ (x.policy, ground arith)
  | inr (p, o) ↦ (p, ground arith)
]

complete_cases :
    (c : EpochCoverage) (was_evicted capped : Bool)
    → evidence_verdict (some c) was_evicted capped ≡ EvidenceVerdict.complete
    → (c.covered ≡ true) × (c.narrowed ≡ []) × (was_evicted ≡ false) × (capped ≡ false)
unfolding evidence_verdict
complete_cases c was_evicted capped h = ground arith

-- What a `complete` verdict vouches for at one seq of the range.
pub Vouched : EpochLog → ℕ → Type 0
Vouched l q = (p : FilterPolicy) × (policy_at l.epochs q ≡ some p) × (is_filtered p ≡ false)

covered_log :
    (l : EpochLog) (es : List Epoch) (from to q : ℕ)
    → l.epochs ≡ es
    → (coverage l from to).covered ≡ true
    → (coverage l from to).narrowed ≡ []
    → from ≤ q
    → q ≤ to
    → q ≤ u64_max
    → Vouched l q
unfolding coverage Vouched
covered_log l [] from to q e c n h g m = ground arith
covered_log l (x ∷ es) from to q e c n h g m =
    let begun : x.seq_at_flip ≤ q = ground arith in
    let (p, at) = policy_at-begun q x es begun in
    let narrowed : narrowed_by from to (x ∷ es) ≡ [] = ground arith in
    (p, rw e at, unnarrowed from to q (x ∷ es) p h g m narrowed at)

-- A `complete` verdict over a range means that at every seq of it the policy in force is on record
-- and stored everything, and that nothing was evicted and the read was not capped.
pub evidence_verdict-complete :
    (l : EpochLog) (from to q : ℕ) (was_evicted capped : Bool)
    → evidence_verdict (some (coverage l from to)) was_evicted capped ≡ EvidenceVerdict.complete
    → from ≤ q
    → q ≤ to
    → q ≤ u64_max
    → Vouched l q × (was_evicted ≡ false) × (capped ≡ false)
evidence_verdict-complete l from to q was_evicted capped h f g m =
    let c = complete_cases (coverage l from to) was_evicted capped h in
    (covered_log l l.epochs from to q refl c.0 c.1 f g m, c.2, c.3)
