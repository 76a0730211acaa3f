-- ===== src/Sessions/Names.antt =====
-- Who holds a name: renames and claims, and a session's change of domain.

use logmon_mcp.Common.{
  ℕ, ◌≡◌, ◌≢◌, ◌∙◌, refl, ap, Bool, true, false, Option, none, some, String, if◌then◌else◌, arith,
  Bool-cases, Option-cases, inl, inr,
}
use logmon_mcp.Filter.{ParsedFilter}
use logmon_mcp.Sessions.{SessionState, Registry, touch, Result, ok}
use logmon_mcp.Sessions.Id.{SessionId, named, same_id, get, remove, get-insert, get-remove}
use logmon_mcp.Sessions.Lifecycle.{
  create_named, claim_named, reconnect, move_to, rename, rename_onto,
}

-- Where each session is after a rename.
abbrev pub renamed_get :
    Registry → ℕ → SessionId → String → SessionState → SessionId → Option SessionState
renamed_get r now old name s q =
    if same_id (named name) q
    then some (touch now (record s { name = some name }))
    else if same_id old q
    then none
    else get r q

get-move_to :
    (r : Registry) (now : ℕ) (old : SessionId) (name : String) (s : SessionState) (q : SessionId)
    → get (move_to r now old name s) q ≡ renamed_get r now old name s q
unfolding move_to
get-move_to r now old name s q =
    get-insert (remove r old) (named name) _ q
    ∙ ap
        (λ o.
          if same_id (named name) q then some (touch now (record s { name = some name })) else o)
        (get-remove r old q)

-- A displaced holder was under the new name.
get-displaced :
    (r : Registry) (now : ℕ) (old : SessionId) (name : String) (s : SessionState) (q : SessionId)
    → renamed_get (remove r (named name)) now old name s q ≡ renamed_get r now old name s q
get-displaced r now old name s q = elim (Bool-cases (same_id (named name) q)) [
  | inl h ↦ rw h refl
  | inr h ↦ rw h (
      ap (λ o. if same_id old q then none else o)
        (get-remove r (named name) q ∙ ap (λ b. if b then none else get r q) h))
]

get-rename_onto :
    (r : Registry) (now : ℕ) (old : SessionId) (name : String) (s : SessionState)
    (x : SessionId × Bool) (q : SessionId)
    → (rename_onto r now old name s).1 ≡ ok x
    → get (rename_onto r now old name s).0 q ≡ renamed_get r now old name s q
unfolding rename_onto
get-rename_onto r now old name s x q h = elim (Option-cases (get r (named name))) [
  | inl g ↦ rw (g, rename_onto) (get-move_to r now old name s q)
  | inr (t, g) ↦ elim (Bool-cases t.connected) [
    | inl c ↦ ground (arith, g, c, h)
    | inr c ↦
        rw (g, rename_onto)
          (rw c (
            get-move_to (remove r (named name)) now old name s q
            ∙ get-displaced r now old name s q))
  ]
]

-- A rename that succeeds moves the session with all its state to the new name, whose stale holder,
-- if there was one, is gone; no session is left under the old id, and every other is as it was.
pub get-rename :
    (r : Registry) (now : ℕ) (old : SessionId) (name : String) (s : SessionState)
    (x : SessionId × Bool) (q : SessionId)
    → get r old ≡ some s
    → same_id old (named name) ≡ false
    → (rename r now old name).1 ≡ ok x
    → get (rename r now old name).0 q ≡ renamed_get r now old name s q
unfolding rename
get-rename r now old name s x q g other h =
    ground (arith, g, other, h, get-rename_onto r now old name s x q)

-- The registry is as it was, and the result is an error.
abbrev pub Refused : {A : Type 0} → Registry → Registry × Result A → Type 0
Refused {A} r p = (p.0 ≡ r) × ((x : A) → p.1 ≢ ok x)

claim_named-Refused :
    (errors panics : ParsedFilter) (r : Registry) (now : ℕ) (name : String) (s : SessionState)
    → get r (named name) ≡ some s
    → s.connected ≡ true
    → Refused r (claim_named errors panics r now name)
      × Refused r (create_named errors panics r now name)
unfolding claim_named create_named
claim_named-Refused errors panics r now name s g c = (
  (ground (arith, g, c), λ x h. ground (arith, g, c, h)),
  (ground (arith, g, c), λ x h. ground (arith, g, c, h)),
)

reconnect-Refused :
    (r : Registry) (now : ℕ) (id : SessionId) (s : SessionState)
    → get r id ≡ some s
    → s.connected ≡ true
    → Refused r (reconnect r now id)
unfolding reconnect
reconnect-Refused r now id s g c = (ground (arith, g, c), λ x h. ground (arith, g, c, h))

rename-Refused :
    (r : Registry) (now : ℕ) (old : SessionId) (name : String) (s : SessionState)
    → get r (named name) ≡ some s
    → s.connected ≡ true
    → same_id old (named name) ≡ false
    → Refused r (rename r now old name)
unfolding rename rename_onto
rename-Refused r now old name s g c other =
    (ground (arith, g, c, other), λ x h. ground (arith, g, c, other, h))

-- A name that a connected session holds cannot be taken: claiming it, creating it, resuming it and
-- renaming another session to it are all refused, and leave the registry as it was.
pub held_name-Refused :
    (errors panics : ParsedFilter) (r : Registry) (now : ℕ) (old : SessionId) (name : String)
    (s : SessionState)
    → get r (named name) ≡ some s
    → s.connected ≡ true
    → same_id old (named name) ≡ false
    → Refused r (claim_named errors panics r now name)
      × Refused r (create_named errors panics r now name)
      × Refused r (reconnect r now (named name))
      × Refused r (rename r now old name)
held_name-Refused errors panics r now old name s g c other =
    let claims = claim_named-Refused errors panics r now name s g c in
    (
      claims.0,
      claims.1,
      reconnect-Refused r now (named name) s g c,
      rename-Refused r now old name s g c other,
    )
