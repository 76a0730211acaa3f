-- ===== src/Pipeline/Paced.antt =====
-- What the processing of a record does to the sessions.
use logmon_mcp.Common.{
  ℕ, ◌≡◌, ◌∙◌, refl, Bool, true, false, List, [], ◌∷◌, String, ◌==◌, if◌then◌else◌, arith,
  Bool-cases, Option-cases, inl, inr, ap,
}
use logmon_mcp.Entry.{LogEntry, SpanEntry}
use logmon_mcp.Filter.Text.{TextEngine}
use logmon_mcp.Triggers.{TriggerMatch}
use logmon_mcp.Pipeline.Event.{PipelineEvent}
use logmon_mcp.Sessions.{SessionState, Registry, is_in_domain}
use logmon_mcp.Sessions.Id.{
  SessionId, same_id, get, update, changed, get-update, Unique, update-Unique,
}
use logmon_mcp.Sessions.Work.{
  remove_trigger, decrement_post_window, evaluate_triggers, evaluate_span_triggers,
  extend_post_window, queued, send_or_queue_notification,
}
use logmon_mcp.Sessions.Scan.{filters_for_domain}
use logmon_mcp.Pipeline.Process.{
  Node, notify, any_oneshot, largest, store_and_notify, fire, answer, visit,
}

-- From `r` to `r'` only the session `sid` has changed, and neither its filters nor its domain.
pub record Paced (sid : SessionId) (r r' : Registry) : Type 0 where
  pub others : (q : SessionId) → same_id sid q ≡ false → get r' q ≡ get r q
  pub same_filters : (d : String) → filters_for_domain r' d ≡ filters_for_domain r d
  pub unique : Unique r → Unique r'

abbrev Keeps : (SessionState → SessionState) → Type 0
Keeps f = (s : SessionState) → ((f s).filters ≡ s.filters) × ((f s).domain ≡ s.domain)

filters_for_domain-update :
    (r : Registry) (sid : SessionId) (f : SessionState → SessionState) (d : String)
    → Keeps f
    → filters_for_domain (update r sid f) d ≡ filters_for_domain r d
unfolding filters_for_domain update is_in_domain
filters_for_domain-update [] sid f d c = refl
filters_for_domain-update ((j, s) ∷ r) sid f d c =
    ground (arith, filters_for_domain-update r sid f d c, (c s).0, (c s).1)

module _ (sid : SessionId) where
  pub Paced-refl : (r : Registry) → Paced sid r r
  Paced-refl r = record { others = λ q h. refl; same_filters = λ d. refl; unique = λ u. u }

  pub Paced-trans : (r s t : Registry) → Paced sid r s → Paced sid s t → Paced sid r t
  Paced-trans r s t p q = record {
    others = λ i h. q.others i h ∙ p.others i h;
    same_filters = λ d. q.same_filters d ∙ p.same_filters d;
    unique = λ u. q.unique (p.unique u);
  }

  update-Paced :
      (r : Registry) (f : SessionState → SessionState) → Keeps f → Paced sid r (update r sid f)
  update-Paced r f c = record {
    others = λ q h. get-update r sid f q ∙ ap (λ b. if b then changed f (get r q) else get r q) h;
    same_filters = λ d. filters_for_domain-update r sid f d c;
    unique = update-Unique r sid f;
  }

  queued-Keeps : (event : PipelineEvent) → Keeps (queued event)
  unfolding queued
  queued-Keeps event s = ground arith

  decrement-Paced : (r : Registry) → Paced sid r (decrement_post_window r sid).0
  unfolding decrement_post_window
  decrement-Paced r = elim (Option-cases (get r sid)) [
    | inl e ↦ rw (e, decrement_post_window) (Paced-refl r)
    | inr (s, e) ↦
        rw (e, decrement_post_window)
          (elim (Bool-cases (s.post_window_remaining == 0)) [
            | inl h ↦ rw h (Paced-refl r)
            | inr h ↦ rw h (update-Paced r _ (λ t. (refl, refl)))
          ])
  ]

  remove_trigger-Paced : (r : Registry) (id : ℕ) → Paced sid r (remove_trigger r sid id).0
  unfolding remove_trigger
  remove_trigger-Paced r id = elim (Option-cases (get r sid)) [
    | inl e ↦ rw (e, remove_trigger) (Paced-refl r)
    | inr (s, e) ↦ rw (e, remove_trigger) (update-Paced r _ (λ t. (refl, refl)))
  ]

  evaluate_triggers-Paced :
      (engine : TextEngine) (r : Registry) (e : LogEntry)
      → Paced sid r (evaluate_triggers engine r sid e).0
  unfolding evaluate_triggers
  evaluate_triggers-Paced engine r x = elim (Option-cases (get r sid)) [
    | inl e ↦ rw (e, evaluate_triggers) (Paced-refl r)
    | inr (s, e) ↦ rw (e, evaluate_triggers) (update-Paced r _ (λ t. (refl, refl)))
  ]

  pub evaluate_span_triggers-Paced :
      (engine : TextEngine) (r : Registry) (e : SpanEntry)
      → Paced sid r (evaluate_span_triggers engine r sid e).0
  unfolding evaluate_span_triggers
  evaluate_span_triggers-Paced engine r x = elim (Option-cases (get r sid)) [
    | inl e ↦ rw (e, evaluate_span_triggers) (Paced-refl r)
    | inr (s, e) ↦ rw (e, evaluate_span_triggers) (update-Paced r _ (λ t. (refl, refl)))
  ]

  -- One match's notification.
  pub told-Paced :
      (r : Registry) (event : PipelineEvent) (oneshot : Bool) (id : ℕ)
      → Paced sid r (
          let told = send_or_queue_notification r sid event in
          if oneshot then (remove_trigger told sid id).0 else told)
  unfolding send_or_queue_notification
  told-Paced r event false id = update-Paced r (queued event) (queued-Keeps event)
  told-Paced r event true id =
      Paced-trans r (update r sid (queued event)) _
        (update-Paced r (queued event) (queued-Keeps event)) (remove_trigger-Paced _ id)

  notify-Paced :
      (e : LogEntry) (pre : ℕ) (ms : List TriggerMatch) (n : Node)
      → Paced sid n.sessions (notify sid e pre ms n).sessions
  unfolding notify
  notify-Paced e pre [] n = Paced-refl n.sessions
  notify-Paced e pre (m ∷ ms) n =
      Paced-trans n.sessions _ _ (told-Paced n.sessions _ m.oneshot m.id) (notify-Paced e pre ms _)

  store_and_notify-Paced :
      (e : LogEntry) (ms : List TriggerMatch) (n : Node)
      → Paced sid n.sessions (store_and_notify sid e ms n).sessions
  unfolding store_and_notify extend_post_window
  store_and_notify-Paced e ms n =
      Paced-trans n.sessions _ _ (update-Paced n.sessions _ (λ t. (refl, refl)))
        (notify-Paced e (largest (λ m. m.pre_window) ms) ms _)

  fire-Paced :
      (domain : String) (e : LogEntry) (ms : List TriggerMatch) (n : Node)
      → Paced sid n.sessions (fire domain sid e ms n).sessions
  unfolding fire
  fire-Paced domain e ms n = elim (Bool-cases (any_oneshot ms)) [
    | inl h ↦ rw (h, fire) (store_and_notify-Paced e ms n)
    | inr h ↦ rw (h, fire) (store_and_notify-Paced e ms n)
  ]

  answer-Paced :
      (domain : String) (e : LogEntry) (ms : List TriggerMatch) (n : Node) (active : Bool)
      → Paced sid n.sessions (answer domain sid e ms n active).0.sessions
  unfolding answer
  answer-Paced domain e [] n active = Paced-refl n.sessions
  answer-Paced domain e (m ∷ ms) n active = fire-Paced domain e (m ∷ ms) n

  -- A visit changes nothing of the sessions but the one visited.
  pub visit-Paced :
      (engine : TextEngine) (domain : String) (e : LogEntry) (n : Node) (active : Bool)
      → Paced sid n.sessions (visit engine domain e sid n active).0.sessions
  unfolding visit
  visit-Paced engine domain e n active =
      let paced = (decrement_post_window n.sessions sid).0 in
      Paced-trans n.sessions paced _ (decrement-Paced n.sessions) (
        Paced-trans paced (evaluate_triggers engine paced sid e).0 _
          (evaluate_triggers-Paced engine paced e) (answer-Paced domain e _ _ _))
