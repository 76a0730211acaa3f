-- ===== src/Sessions/History.antt =====
-- The registry under every sequence of operations.
use logmon_mcp.Common.{ℕ, ◌≡◌, Bool, false, Option, List, [], ◌∷◌, String}
use logmon_mcp.Entry.{LogEntry, SpanEntry}
use logmon_mcp.Filter.Text.{TextEngine}
use logmon_mcp.Filter.{ParsedFilter}
use logmon_mcp.Pipeline.Event.{PipelineEvent}
use logmon_mcp.Sessions.{Registry}
use logmon_mcp.Sessions.Id.{SessionId, named, has_id}
use logmon_mcp.Sessions.Lifecycle.{
  create_anonymous, create_named, claim_named, reconnect, disconnect, rename, dispose_if_expired,
  set_domain, drop_session, set_client_info,
}
use logmon_mcp.Sessions.Work.{
  send_or_queue_notification, drain_notifications, remove_trigger, add_trigger, edit_trigger,
  remove_filter, add_filter, edit_filter, decrement_post_window, extend_post_window,
  evaluate_triggers, evaluate_span_triggers,
}
use logmon_mcp.Sessions.WorkSteps.{
  set_client_info-IsRegistry, extend-IsRegistry, decrement-IsRegistry, remove_trigger-IsRegistry,
  remove_filter-IsRegistry, evaluate-IsRegistry, evaluate_span-IsRegistry, add_trigger-IsRegistry,
  edit_trigger-IsRegistry, add_filter-IsRegistry, edit_filter-IsRegistry,
}
use logmon_mcp.Sessions.Invariant.{IsRegistry}
use logmon_mcp.Sessions.Steps.{
  create_named-IsRegistry, claim_named-IsRegistry, create_anonymous-IsRegistry,
  reconnect-IsRegistry, disconnect-IsRegistry, dispose-IsRegistry, drop_session-IsRegistry,
  set_domain-IsRegistry, send-IsRegistry, drain-IsRegistry, rename-IsRegistry,
}

-- The operations on the sessions, of every kind that changes one.
pub data Move : Type 0 where
  begins : ℕ → String → Move
  creates claims : ℕ → String → Move
  resumes leaves : ℕ → SessionId → Move
  renames : ℕ → SessionId → String → Move
  binds : SessionId → String → Move
  expires : ℕ → SessionId → ℕ → Move
  drops : String → Move
  queues : SessionId → PipelineEvent → Move
  drains : SessionId → Move
  tells : SessionId → Option String → Move
  counts_down : SessionId → Move
  extends_to : SessionId → ℕ → Move
  sees : SessionId → LogEntry → Move
  sees_span : SessionId → SpanEntry → Move
  adds_trigger : SessionId → String → ℕ → ℕ → ℕ → Option String → Bool → Move
  edits_trigger :
      SessionId
      → ℕ
      → Option String
      → Option ℕ
      → Option ℕ
      → Option ℕ
      → Option String
      → Option Bool
      → Move
  removes_trigger : SessionId → ℕ → Move
  adds_filter : SessionId → String → Option String → Move
  edits_filter : SessionId → ℕ → Option String → Option String → Move
  removes_filter : SessionId → ℕ → Move

module _ (parse_filter : String → Option ParsedFilter) (engine : TextEngine)
    (errors panics : ParsedFilter) where
  unfoldable pub move : Registry → Move → Registry
  move r (begins now uuid) = (create_anonymous errors panics r now uuid).0
  move r (creates now name) = (create_named errors panics r now name).0
  move r (claims now name) = (claim_named errors panics r now name).0
  move r (resumes now id) = (reconnect r now id).0
  move r (leaves now id) = disconnect r now id
  move r (renames now old name) = (rename r now old name).0
  move r (binds id domain) = set_domain r id domain
  move r (expires now id ttl) = (dispose_if_expired r now id ttl).0
  move r (drops name) = (drop_session r name).0
  move r (queues id event) = send_or_queue_notification r id event
  move r (drains id) = (drain_notifications r id).0
  move r (tells id info) = set_client_info r id info
  move r (counts_down id) = (decrement_post_window r id).0
  move r (extends_to id count) = extend_post_window r id count
  move r (sees id e) = (evaluate_triggers engine r id e).0
  move r (sees_span id e) = (evaluate_span_triggers engine r id e).0
  move r (adds_trigger id filter pre post ctx desc oneshot) =
      (add_trigger parse_filter r id filter pre post ctx desc oneshot).0
  move r (edits_trigger id trigger_id filter pre post ctx desc oneshot) =
      (edit_trigger parse_filter r id trigger_id filter pre post ctx desc oneshot).0
  move r (removes_trigger id trigger_id) = (remove_trigger r id trigger_id).0
  move r (adds_filter id filter desc) = (add_filter parse_filter r id filter desc).0
  move r (edits_filter id filter_id filter desc) =
      (edit_filter parse_filter r id filter_id filter desc).0
  move r (removes_filter id filter_id) = (remove_filter r id filter_id).0

  unfoldable pub run : Registry → List Move → Registry
  run r [] = r
  run r (m ∷ ms) = run (move r m) ms

  -- A fresh UUID is not the name of a session.
  abbrev pub IsFresh : Registry → Move → Type 0
  IsFresh r (begins now uuid) = has_id (named uuid) r ≡ false
  IsFresh r _ = Unit {0}

  abbrev pub AllFresh : Registry → List Move → Type 0
  AllFresh r [] = Unit {0}
  AllFresh r (m ∷ ms) = IsFresh r m × AllFresh (move r m) ms

  move-IsRegistry : (r : Registry) (m : Move) → IsFresh r m → IsRegistry r → IsRegistry (move r m)
  unfolding move
  move-IsRegistry r (begins now uuid) f v = create_anonymous-IsRegistry errors panics r now uuid f v
  move-IsRegistry r (creates now name) f v = create_named-IsRegistry errors panics r now name v
  move-IsRegistry r (claims now name) f v = claim_named-IsRegistry errors panics r now name v
  move-IsRegistry r (resumes now id) f v = reconnect-IsRegistry r now id v
  move-IsRegistry r (leaves now id) f v = disconnect-IsRegistry r now id v
  move-IsRegistry r (renames now old name) f v = rename-IsRegistry r now old name v
  move-IsRegistry r (binds id domain) f v = set_domain-IsRegistry r id domain v
  move-IsRegistry r (expires now id ttl) f v = dispose-IsRegistry r now id ttl v
  move-IsRegistry r (drops name) f v = drop_session-IsRegistry r name v
  move-IsRegistry r (queues id event) f v = send-IsRegistry r id event v
  move-IsRegistry r (drains id) f v = drain-IsRegistry r id v
  move-IsRegistry r (tells id info) f v = set_client_info-IsRegistry r id info v
  move-IsRegistry r (counts_down id) f v = decrement-IsRegistry r id v
  move-IsRegistry r (extends_to id count) f v = extend-IsRegistry r id count v
  move-IsRegistry r (sees id e) f v = evaluate-IsRegistry engine r id e v
  move-IsRegistry r (sees_span id e) f v = evaluate_span-IsRegistry engine r id e v
  move-IsRegistry r (adds_trigger id filter pre post ctx desc oneshot) f v =
      add_trigger-IsRegistry parse_filter r id filter pre post ctx desc oneshot v
  move-IsRegistry r (edits_trigger id trigger_id filter pre post ctx desc oneshot) f v =
      edit_trigger-IsRegistry parse_filter r id trigger_id filter pre post ctx desc oneshot v
  move-IsRegistry r (removes_trigger id trigger_id) f v =
      remove_trigger-IsRegistry r id trigger_id v
  move-IsRegistry r (adds_filter id filter desc) f v =
      add_filter-IsRegistry parse_filter r id filter desc v
  move-IsRegistry r (edits_filter id filter_id filter desc) f v =
      edit_filter-IsRegistry parse_filter r id filter_id filter desc v
  move-IsRegistry r (removes_filter id filter_id) f v = remove_filter-IsRegistry r id filter_id v

  -- Every sequence of operations keeps the registry: no id twice, every session what its id says,
  -- at most 1000 events in a queue, and no anonymous session whose id is a named one's name, when
  -- no fresh UUID is a session's name.
  pub run-IsRegistry :
      (r : Registry) (ms : List Move) → AllFresh r ms → IsRegistry r → IsRegistry (run r ms)
  unfolding run
  run-IsRegistry r [] f v = v
  run-IsRegistry r (m ∷ ms) f v = run-IsRegistry (move r m) ms f.1 (move-IsRegistry r m f.0 v)
