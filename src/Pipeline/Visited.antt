-- ===== src/Pipeline/Visited.antt =====
-- The sessions of a domain that a round visits, whatever the order it visits them in.
use logmon_mcp.Common.{
  ℕ, ◌≡◌, ◌∙◌, refl, ap, Bool, false, ◌&&◌, ◌||◌, Option, some, List, [], ◌∷◌, map, String, leb,
  any, All, arith, Bool-cases, inl, inr,
}
use logmon_mcp.Sessions.{SessionState, Registry, is_in_domain}
use logmon_mcp.Sessions.Id.{SessionId, same_id, same_id-sym, same_id_refl, get, Unique, has_id}
use logmon_mcp.Sessions.Scan.{
  is_active, insert_by_pre, sorted_pairs, active_session_ids_sorted_by_pre_window_for_domain,
}
use logmon_mcp.Triggers.{max_pre_window}
use logmon_mcp.Pipeline.Rounds.{Distinct, listed_in}

any-insert_by_pre :
    (g : SessionId → Bool) (id : SessionId) (pre : ℕ) (ps : List (SessionId × ℕ))
    → any g (map (λ (i, p). i) (insert_by_pre id pre ps)) ≡ (g id || any g (map (λ (i, p). i) ps))
unfolding insert_by_pre
any-insert_by_pre g id pre [] = refl
any-insert_by_pre g id pre ((j, q) ∷ ps) = ground (arith, any-insert_by_pre g id pre ps)

-- Whether a session is one of the domain's whose triggers are evaluated.
abbrev pub takes_part : String → SessionId → SessionState → Bool
takes_part domain id s = is_active id s && is_in_domain s domain

abbrev pub active_ids : Registry → String → List SessionId
active_ids r domain = active_session_ids_sorted_by_pre_window_for_domain r domain

any-sorted_pairs :
    (g : SessionId → Bool) (r : Registry) (domain : String)
    → any g (map (λ (i, p). i) (sorted_pairs r domain))
      ≡ any (λ (id, s). takes_part domain id s && g id) r
unfolding sorted_pairs
any-sorted_pairs g [] domain = refl
any-sorted_pairs g ((id, s) ∷ r) domain = ground (
  arith,
  any-sorted_pairs g r domain,
  any-insert_by_pre g id (max_pre_window (s.triggers).triggers) (sorted_pairs r domain),
)

pub any-active_ids :
    (g : SessionId → Bool) (r : Registry) (domain : String)
    → any g (active_ids r domain) ≡ any (λ (id, s). takes_part domain id s && g id) r
unfolding active_session_ids_sorted_by_pre_window_for_domain
any-active_ids g r domain = any-sorted_pairs g r domain

abbrev pub Found : Registry → Registry → Type 0
Found r m = All (λ (id, s). get r id ≡ some s) m

Found-cons :
    (j : SessionId) (v : SessionState) (r m : Registry)
    → has_id j m ≡ false
    → Found r m
    → Found ((j, v) ∷ r) m
unfolding get
Found-cons j v r [] h f = tt
Found-cons j v r ((i, w) ∷ m) h f =
    (ground (arith, h, f.0, same_id-sym i j), Found-cons j v r m (ground arith) f.1)

pub Found-self : (r : Registry) → Unique r → Found r r
unfolding get
Found-self [] u = tt
Found-self ((j, v) ∷ r) u = (rw (same_id_refl j) refl, Found-cons j v r r u.0 (Found-self r u.1))

any-Found :
    (g : Option SessionState → Bool) (domain : String) (r m : Registry)
    → Found r m
    → any (λ (id, s). takes_part domain id s && g (get r id)) m
      ≡ any (λ (id, s). takes_part domain id s && g (some s)) m
any-Found g domain r [] f = refl
any-Found g domain r ((i, w) ∷ m) f = ground (arith, ap g f.0, any-Found g domain r m f.1)

-- What holds of one of the visited sessions holds of one of the domain's.
pub any-visited :
    (g : Option SessionState → Bool) (r : Registry) (domain : String)
    → Unique r
    → any (λ id. g (get r id)) (active_ids r domain)
      ≡ any (λ (id, s). takes_part domain id s && g (some s)) r
any-visited g r domain u =
    any-active_ids (λ id. g (get r id)) r domain ∙ any-Found g domain r r (Found-self r u)

insert_by_pre-Distinct :
    (id : SessionId) (pre : ℕ) (ps : List (SessionId × ℕ))
    → listed_in id (map (λ (i, p). i) ps) ≡ false
    → Distinct (map (λ (i, p). i) ps)
    → Distinct (map (λ (i, p). i) (insert_by_pre id pre ps))
unfolding insert_by_pre
insert_by_pre-Distinct id pre [] h d = (refl, tt)
insert_by_pre-Distinct id pre ((j, q) ∷ ps) h d = elim (Bool-cases (leb q pre)) [
  | inl l ↦ rw (l, insert_by_pre) (h, d)
  | inr l ↦
      rw (l, insert_by_pre)
        (
          ground (arith, any-insert_by_pre (λ i. same_id j i) id pre ps, same_id-sym j id, h, d.0),
          insert_by_pre-Distinct id pre ps (ground arith) d.1,
        )
]

any_none :
    (domain : String) (i : SessionId) (r : Registry)
    → has_id i r ≡ false
    → any (λ (id, s). takes_part domain id s && same_id i id) r ≡ false
any_none domain i [] h = refl
any_none domain i ((j, s) ∷ r) h = ground (arith, any_none domain i r, same_id-sym i j)

sorted_pairs-Distinct :
    (r : Registry) (domain : String)
    → Unique r
    → Distinct (map (λ (i, p). i) (sorted_pairs r domain))
unfolding sorted_pairs
sorted_pairs-Distinct [] domain u = tt
sorted_pairs-Distinct ((id, s) ∷ r) domain u = elim (Bool-cases (takes_part domain id s)) [
  | inl h ↦
      rw (h, sorted_pairs)
        (insert_by_pre-Distinct id _ (sorted_pairs r domain)
          (any-sorted_pairs (λ j. same_id id j) r domain ∙ any_none domain id r u.0)
          (sorted_pairs-Distinct r domain u.1))
  | inr h ↦ rw (h, sorted_pairs) (sorted_pairs-Distinct r domain u.1)
]

pub active_ids-Distinct :
    (r : Registry) (domain : String) → Unique r → Distinct (active_ids r domain)
unfolding active_session_ids_sorted_by_pre_window_for_domain
active_ids-Distinct r domain u = sorted_pairs-Distinct r domain u
