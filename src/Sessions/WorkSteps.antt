-- ===== src/Sessions/WorkSteps.antt =====
-- Each operation on a session's triggers, filters, windows and client keeps the registry: none of
-- them touches what a session's id says of it.
use logmon_mcp.Common.{
  ℕ, ◌≡◌, refl, Bool, true, Option, none, some, String, ◌==◌, Option-cases, inl, inr,
}
use logmon_mcp.Entry.{LogEntry, SpanEntry}
use logmon_mcp.Filter.{ParsedFilter}
use logmon_mcp.Filter.Text.{TextEngine}
use logmon_mcp.Sessions.{SessionState, Registry}
use logmon_mcp.Sessions.Id.{SessionId, anonymous, named, same_id, get, update}
use logmon_mcp.Sessions.Lifecycle.{set_client_info}
use logmon_mcp.Sessions.Work.{
  remove_trigger, add_trigger, edit_trigger, find_filter, remove_filter, edit_parsed_filter,
  add_filter, edit_filter, decrement_post_window, extend_post_window, evaluate_triggers,
  evaluate_span_triggers,
}
use logmon_mcp.Sessions.Invariant.{IsSession, IsRegistry, update-IsRegistry, branches, Kept}

-- A change that leaves the name, the connection and the queue alone.
abbrev Steady : (SessionState → SessionState) → Type 0
Steady f =
    (s : SessionState)
    → ((f s).name ≡ s.name)
      × ((f s).connected ≡ s.connected)
      × ((f s).max_queue_size ≡ s.max_queue_size)
      × ((f s).notification_queue ≡ s.notification_queue)

keep-IsRegistry :
    (r : Registry) (id : SessionId) (f : SessionState → SessionState)
    → Steady f
    → IsRegistry r
    → IsRegistry (update r id f)
keep-IsRegistry r id f g v = update-IsRegistry r id f kept v
  where
    kept :
        (i : SessionId) (s : SessionState) → same_id i id ≡ true → IsSession i s → IsSession i (f s)
    kept (anonymous a) s e h =
        let (name, connected, size, queue) = g s in rw (name, connected, size, queue) h
    kept (named n) s e h = let (name, connected, size, queue) = g s in rw (name, size, queue) h

-- A change of the session if there is one.
present :
    {A : Type 0} (o : Option SessionState) (x : Registry × A) (y : SessionState → Registry × A)
    → IsRegistry x.0
    → ((s : SessionState) → IsRegistry (y s).0)
    → IsRegistry (elim o as (λ _. Registry × A) [ none ↦ x | some s ↦ y s ]).0
present none x y h g = h
present (some s) x y h g = g s

pub set_client_info-IsRegistry :
    (r : Registry) (id : SessionId) (info : Option String)
    → IsRegistry r
    → IsRegistry (set_client_info r id info)
unfolding set_client_info
set_client_info-IsRegistry r id info v = keep-IsRegistry r id _ (λ s. (refl, refl, refl, refl)) v

pub extend-IsRegistry :
    (r : Registry) (id : SessionId) (count : ℕ)
    → IsRegistry r
    → IsRegistry (extend_post_window r id count)
unfolding extend_post_window
extend-IsRegistry r id count v = keep-IsRegistry r id _ (λ s. (refl, refl, refl, refl)) v

pub decrement-IsRegistry :
    (r : Registry) (id : SessionId) → IsRegistry r → IsRegistry (decrement_post_window r id).0
unfolding decrement_post_window
decrement-IsRegistry r id v = present (get r id) _ _ v (λ s.
    branches Kept (s.post_window_remaining == 0) (λ c. v)
      (λ c. keep-IsRegistry r id _ (λ t. (refl, refl, refl, refl)) v))

pub remove_trigger-IsRegistry :
    (r : Registry) (id : SessionId) (trigger_id : ℕ)
    → IsRegistry r
    → IsRegistry (remove_trigger r id trigger_id).0
unfolding remove_trigger
remove_trigger-IsRegistry r id trigger_id v =
    present (get r id) _ _ v (λ s. keep-IsRegistry r id _ (λ t. (refl, refl, refl, refl)) v)

pub remove_filter-IsRegistry :
    (r : Registry) (id : SessionId) (filter_id : ℕ)
    → IsRegistry r
    → IsRegistry (remove_filter r id filter_id).0
unfolding remove_filter
remove_filter-IsRegistry r id filter_id v = elim (Option-cases (get r id)) [
  | inl e ↦ rw (e, remove_filter) v
  | inr (s, e) ↦ elim (Option-cases (find_filter filter_id s.filters)) [
    | inl n ↦ rw (e, remove_filter) (rw (n, remove_filter) v)
    | inr (f, y) ↦
        rw (e, remove_filter)
          (rw (y, remove_filter) (keep-IsRegistry r id _ (λ t. (refl, refl, refl, refl)) v))
  ]
]

module _ (engine : TextEngine) where
  pub evaluate-IsRegistry :
      (r : Registry) (id : SessionId) (e : LogEntry)
      → IsRegistry r
      → IsRegistry (evaluate_triggers engine r id e).0
  unfolding evaluate_triggers
  evaluate-IsRegistry r id e v =
      present (get r id) _ _ v (λ s. keep-IsRegistry r id _ (λ t. (refl, refl, refl, refl)) v)

  pub evaluate_span-IsRegistry :
      (r : Registry) (id : SessionId) (e : SpanEntry)
      → IsRegistry r
      → IsRegistry (evaluate_span_triggers engine r id e).0
  unfolding evaluate_span_triggers
  evaluate_span-IsRegistry r id e v =
      present (get r id) _ _ v (λ s. keep-IsRegistry r id _ (λ t. (refl, refl, refl, refl)) v)

module _ (parse_filter : String → Option ParsedFilter) where
  pub add_trigger-IsRegistry :
      (r : Registry) (id : SessionId) (filter : String) (pre post ctx : ℕ) (desc : Option String)
      (oneshot : Bool)
      → IsRegistry r
      → IsRegistry (add_trigger parse_filter r id filter pre post ctx desc oneshot).0
  unfolding add_trigger
  add_trigger-IsRegistry r id filter pre post ctx desc oneshot v =
      present (get r id) _ _ v (λ s. keep-IsRegistry r id _ (λ t. (refl, refl, refl, refl)) v)

  pub edit_trigger-IsRegistry :
      (r : Registry) (id : SessionId) (trigger_id : ℕ) (filter : Option String)
      (pre post ctx : Option ℕ) (desc : Option String) (oneshot : Option Bool)
      → IsRegistry r
      → IsRegistry (edit_trigger parse_filter r id trigger_id filter pre post ctx desc oneshot).0
  unfolding edit_trigger
  edit_trigger-IsRegistry r id trigger_id filter pre post ctx desc oneshot v =
      present (get r id) _ _ v (λ s. keep-IsRegistry r id _ (λ t. (refl, refl, refl, refl)) v)

  pub add_filter-IsRegistry :
      (r : Registry) (id : SessionId) (filter : String) (desc : Option String)
      → IsRegistry r
      → IsRegistry (add_filter parse_filter r id filter desc).0
  unfolding add_filter
  add_filter-IsRegistry r id filter desc v = elim (Option-cases (parse_filter filter)) [
    | inl e ↦ rw (e, add_filter) v
    | inr (c, e) ↦
        rw (e, add_filter)
          (present (get r id) _ _ v (λ s. keep-IsRegistry r id _ (λ t. (refl, refl, refl, refl)) v))
  ]

edit_parsed-IsRegistry :
    (r : Registry) (id : SessionId) (filter_id : ℕ) (filter : Option (String × ParsedFilter))
    (desc : Option String)
    → IsRegistry r
    → IsRegistry (edit_parsed_filter r id filter_id filter desc).0
unfolding edit_parsed_filter
edit_parsed-IsRegistry r id filter_id filter desc v = elim (Option-cases (get r id)) [
  | inl e ↦ rw (e, edit_parsed_filter) v
  | inr (s, e) ↦ elim (Option-cases (find_filter filter_id s.filters)) [
    | inl n ↦ rw (e, edit_parsed_filter) (rw (n, edit_parsed_filter) v)
    | inr (f, y) ↦
        rw (e, edit_parsed_filter)
          (rw (y, edit_parsed_filter) (keep-IsRegistry r id _ (λ t. (refl, refl, refl, refl)) v))
  ]
]

pub edit_filter-IsRegistry :
    (parse_filter : String → Option ParsedFilter) (r : Registry) (id : SessionId) (filter_id : ℕ)
    (filter desc : Option String)
    → IsRegistry r
    → IsRegistry (edit_filter parse_filter r id filter_id filter desc).0
unfolding edit_filter
edit_filter-IsRegistry parse_filter r id filter_id none desc v =
    edit_parsed-IsRegistry r id filter_id none desc v
edit_filter-IsRegistry parse_filter r id filter_id (some f) desc v =
    elim (Option-cases (parse_filter f)) [
      | inl e ↦ rw (e, edit_filter) v
      | inr (c, e) ↦
          rw (e, edit_filter) (edit_parsed-IsRegistry r id filter_id (some (f, c)) desc v)
    ]
