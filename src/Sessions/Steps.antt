-- ===== src/Sessions/Steps.antt =====
-- Each operation that makes, moves, binds or ends sessions, or that queues for them, keeps the
-- registry.
use logmon_mcp.Common.{
  ℕ, ◌≡◌, ◌∙◌, refl, ap, Bool, true, false, not, ◌&&◌, Option, some, [], ◌∷◌, String, length,
  length-append, arith, Bool-cases, Option-cases, inl, inr, ltb, ◌⊎◌,
}
use logmon_mcp.Filter.{ParsedFilter}
use logmon_mcp.Ring.{is_some}
use logmon_mcp.Pipeline.Event.{PipelineEvent}
use logmon_mcp.Sessions.{
  SessionState, Registry, is_valid_name, touch, new_state, is_abandoned, Result,
}
use logmon_mcp.Sessions.Id.{
  SessionId, anonymous, named, same_id, same_id-eq, get, remove, has_id, has_id-remove, get-All,
}
use logmon_mcp.Sessions.Lifecycle.{
  refuse_an_anonymous_id, create_anonymous, create_named, claim_named, reconnect, disconnect,
  move_to, rename, rename_onto, dispose_if_expired, bound_to, set_domain, drop_session,
}
use logmon_mcp.Sessions.Work.{queued, send_or_queue_notification, drain_notifications}
use logmon_mcp.Sessions.Invariant.{
  IsSession, IsRegistry, insert-IsRegistry, remove-IsRegistry, update-IsRegistry, anonymous_of,
  new_named-IsRegistry, retake-IsRegistry, branches, Kept,
}

module _ (errors panics : ParsedFilter) where
  pub create_named-IsRegistry :
      (r : Registry) (now : ℕ) (name : String)
      → IsRegistry r
      → IsRegistry (create_named errors panics r now name).0
  unfolding create_named
  create_named-IsRegistry r now name v =
      branches Kept (not (is_valid_name name)) (λ h. v)
        (λ h.
          branches Kept (refuse_an_anonymous_id r name) (λ h. v)
            (λ free. elim (Option-cases (get r (named name))) [
              | inl h ↦ rw (h, create_named) (new_named-IsRegistry errors panics r now name free v)
              | inr (s, h) ↦ rw (h, create_named) (branches Kept s.connected (λ c. v) (λ c. v))
            ]))

  pub claim_named-IsRegistry :
      (r : Registry) (now : ℕ) (name : String)
      → IsRegistry r
      → IsRegistry (claim_named errors panics r now name).0
  unfolding claim_named
  claim_named-IsRegistry r now name v =
      branches Kept (not (is_valid_name name)) (λ h. v)
        (λ h.
          branches Kept (refuse_an_anonymous_id r name) (λ h. v)
            (λ free. elim (Option-cases (get r (named name))) [
              | inl h ↦ rw (h, claim_named) (new_named-IsRegistry errors panics r now name free v)
              | inr (s, h) ↦
                  rw (h, claim_named)
                    (branches Kept s.connected (λ c. v) (λ c. retake-IsRegistry r now name true v))
            ]))

  pub create_anonymous-IsRegistry :
      (r : Registry) (now : ℕ) (uuid : String)
      → has_id (named uuid) r ≡ false
      → IsRegistry r
      → IsRegistry (create_anonymous errors panics r now uuid).0
  unfolding create_anonymous new_state
  create_anonymous-IsRegistry r now uuid h v =
      insert-IsRegistry r (anonymous uuid) _ (refl, refl, refl, omega arith)
        (λ x e.
          ap (λ i. has_id i r) (named_of uuid x (same_id-eq (anonymous uuid) (anonymous x) e)) ∙ h)
        (λ x e. cc) v
    where
      named_of : (n x : String) → anonymous n ≡ anonymous x → named x ≡ named n
      named_of n x e = cc

pub reconnect-IsRegistry :
    (r : Registry) (now : ℕ) (id : SessionId) → IsRegistry r → IsRegistry (reconnect r now id).0
unfolding reconnect
reconnect-IsRegistry r now (anonymous a) v = elim (Option-cases (get r (anonymous a))) [
  | inl h ↦ rw (h, reconnect) v
  | inr (s, h) ↦ rw (h, reconnect) (branches Kept s.connected (λ c. v) (λ c. v))
]
reconnect-IsRegistry r now (named n) v = elim (Option-cases (get r (named n))) [
  | inl h ↦ rw (h, reconnect) v
  | inr (s, h) ↦
      rw (h, reconnect) (branches Kept s.connected (λ c. v) (λ c. retake-IsRegistry r now n true v))
]

pub disconnect-IsRegistry :
    (r : Registry) (now : ℕ) (id : SessionId) → IsRegistry r → IsRegistry (disconnect r now id)
unfolding disconnect
disconnect-IsRegistry r now (anonymous a) v = remove-IsRegistry r (anonymous a) v
disconnect-IsRegistry r now (named n) v = retake-IsRegistry r now n false v

pub dispose-IsRegistry :
    (r : Registry) (now : ℕ) (id : SessionId) (ttl : ℕ)
    → IsRegistry r
    → IsRegistry (dispose_if_expired r now id ttl).0
unfolding dispose_if_expired
dispose-IsRegistry r now id ttl v = elim (Option-cases (get r id)) [
  | inl h ↦ rw (h, dispose_if_expired) v
  | inr (s, h) ↦
      rw (h, dispose_if_expired)
        (branches Kept (is_abandoned now ttl s) (λ c. remove-IsRegistry r id v) (λ c. v))
]

pub drop_session-IsRegistry :
    (r : Registry) (name : String) → IsRegistry r → IsRegistry (drop_session r name).0
unfolding drop_session
drop_session-IsRegistry r name v = elim (Option-cases (get r (named name))) [
  | inl h ↦ rw (h, drop_session) v
  | inr (s, h) ↦
      rw (h, drop_session)
        (branches (λ (p : Registry × Result (Unit {0}) × Option Bool). IsRegistry p.0) s.connected
          (λ c. v) (λ c. remove-IsRegistry r (named name) v))
]

pub set_domain-IsRegistry :
    (r : Registry) (id : SessionId) (domain : String)
    → IsRegistry r
    → IsRegistry (set_domain r id domain)
unfolding set_domain bound_to
set_domain-IsRegistry r id domain v = update-IsRegistry r id (bound_to domain) kept v
  where
    kept :
        (i : SessionId) (s : SessionState)
        → same_id i id ≡ true
        → IsSession i s
        → IsSession i (bound_to domain s)
    kept (anonymous a) s e h =
        branches (IsSession (anonymous a)) _ (λ c. h) (λ c. (h.0, h.1, h.2, omega arith))
    kept (named n) s e h = branches (IsSession (named n)) _ (λ c. h) (λ c. (h.0, h.1, omega arith))

pub send-IsRegistry :
    (r : Registry) (id : SessionId) (event : PipelineEvent)
    → IsRegistry r
    → IsRegistry (send_or_queue_notification r id event)
unfolding send_or_queue_notification queued
send-IsRegistry r id event v = update-IsRegistry r id (queued event) kept v
  where
    waits : SessionState → Bool
    waits s =
        not s.connected && is_some s.name && ltb (length s.notification_queue) s.max_queue_size

    kept :
        (i : SessionId) (s : SessionState)
        → same_id i id ≡ true
        → IsSession i s
        → IsSession i (queued event s)
    kept (anonymous a) s e h =
        branches (IsSession (anonymous a)) (waits s) (λ c. ground (arith, h.1, c)) (λ c. h)
    kept (named n) s e h =
        branches (IsSession (named n)) (waits s)
          (λ c. (h.0, h.1, ground (arith, c, h.1, length-append s.notification_queue (event ∷ []))))
          (λ c. h)

pub drain-IsRegistry :
    (r : Registry) (id : SessionId) → IsRegistry r → IsRegistry (drain_notifications r id).0
unfolding drain_notifications
drain-IsRegistry r id v = elim (Option-cases (get r id)) [
  | inl h ↦ rw (h, drain_notifications) v
  | inr (s, h) ↦ rw (h, drain_notifications) (update-IsRegistry r id _ kept v)
]
  where
    kept :
        (i : SessionId) (s : SessionState)
        → same_id i id ≡ true
        → IsSession i s
        → IsSession i (record s { notification_queue = [] })
    kept (anonymous a) s e h = (h.0, h.1, h.2, omega arith)
    kept (named n) s e h = (h.0, h.1, omega arith)

-- A renamed session's state is what its new id says.
move_to-IsRegistry :
    (r : Registry) (now : ℕ) (old : SessionId) (name : String) (s : SessionState)
    → (same_id old (anonymous name) ≡ true ⊎ (has_id (anonymous name) r ≡ false))
    → IsSession old s
    → IsRegistry r
    → IsRegistry (move_to r now old name s)
unfolding move_to
move_to-IsRegistry r now old name s h i v =
    insert-IsRegistry (remove r old) (named name) _ (renamed old i) (λ x e. cc) free
      (remove-IsRegistry r old v)
  where
    renamed :
        (id : SessionId)
        → IsSession id s
        → IsSession (named name) (touch now (record s { name = some name }))
    renamed (anonymous a) j = (refl, j.2, j.3)
    renamed (named n) j = (refl, j.1, j.2)

    free :
        (x : String)
        → same_id (named name) (named x) ≡ true
        → has_id (anonymous x) (remove r old) ≡ false
    free x e =
        ap (λ i. has_id i (remove r old))
          (anonymous_of name x (same_id-eq (named name) (named x) e))
        ∙ elim h [
          | inl own ↦ ground (arith, has_id-remove r old (anonymous name), own)
          | inr none_held ↦ ground (arith, has_id-remove r old (anonymous name), none_held)
        ]

rename_onto-IsRegistry :
    (r : Registry) (now : ℕ) (old : SessionId) (name : String) (s : SessionState)
    → IsSession old s
    → same_id old (anonymous name) ≡ true ⊎ (has_id (anonymous name) r ≡ false)
    → IsRegistry r
    → IsRegistry (rename_onto r now old name s).0
unfolding rename_onto
rename_onto-IsRegistry r now old name s i a v = elim (Option-cases (get r (named name))) [
  | inl g ↦ rw (g, rename_onto) (move_to-IsRegistry r now old name s a i v)
  | inr (x, g) ↦
      rw (g, rename_onto)
        (branches Kept x.connected (λ c. v)
          (λ c.
            move_to-IsRegistry (remove r (named name)) now old name s still i
              (remove-IsRegistry r (named name) v)))
]
  where
    still :
        same_id old (anonymous name) ≡ true
        ⊎ (has_id (anonymous name) (remove r (named name)) ≡ false)
    still = elim a [
      | inl own ↦ inl own
      | inr none_held ↦
          inr (ground (arith, has_id-remove r (named name) (anonymous name), none_held))
    ]

pub rename-IsRegistry :
    (r : Registry) (now : ℕ) (old : SessionId) (name : String)
    → IsRegistry r
    → IsRegistry (rename r now old name).0
unfolding rename refuse_an_anonymous_id
rename-IsRegistry r now old name v =
    branches Kept (not (is_valid_name name)) (λ h. v)
      (λ h.
        branches Kept (same_id old (named name)) (λ h. v)
          (λ other. elim (Option-cases (get r old)) [
            | inl g ↦ rw (g, rename) v
            | inr (s, g) ↦
                rw (g, rename)
                  (branches Kept
                    (not (same_id old (anonymous name)) && refuse_an_anonymous_id r name) (λ c. v)
                    (λ c.
                      rename_onto-IsRegistry r now old name s
                        (get-All IsSession r old s v.sessions g) (allowed c) v))
          ]))
  where
    allowed :
        (not (same_id old (anonymous name)) && refuse_an_anonymous_id r name) ≡ false
        → same_id old (anonymous name) ≡ true ⊎ (has_id (anonymous name) r ≡ false)
    allowed c = elim (Bool-cases (same_id old (anonymous name))) [
      | inl own ↦ inl own
      | inr other ↦ inr (ground arith)
    ]
