-- ===== src/Pipeline/Process.antt =====
-- crates/core/src/daemon/log_processor.rs: the processing of one record of a domain. One task
-- processes a domain's records one after the other; the requests that change its sessions in
-- between are other steps.
use logmon_mcp.Common.{
  ℕ, max, Bool, true, false, ◌||◌, Option, none, some, List, [], ◌∷◌, ◌++◌, map, String, ◌==◌,
  if◌then◌else◌,
}
use logmon_mcp.Entry.{LogEntry, LogSource}
use logmon_mcp.Filter.Text.{TextEngine}
use logmon_mcp.Ring.Read.{context_by_seq}
use logmon_mcp.PreBuffer.{flush, entries_by_trace_id}
use logmon_mcp.Epoch.{observe}
use logmon_mcp.Triggers.{TriggerMatch}
use logmon_mcp.Sessions.{Registry}
use logmon_mcp.Sessions.Id.{SessionId, label}
use logmon_mcp.Sessions.Work.{
  remove_trigger, decrement_post_window, evaluate_triggers, extend_post_window,
  send_or_queue_notification,
}
use logmon_mcp.Sessions.Scan.{
  StorageDecision, evaluate_filters_for_domain, active_session_ids_sorted_by_pre_window_for_domain,
  max_pre_window_for_domain,
}
use logmon_mcp.Pipeline.{
  LogPipeline, assign_seq, append_to_store, insert_into_store, contains_seq, send_event,
  pre_buffer_append, resync_pre_buffer,
}
use logmon_mcp.Pipeline.Event.{PipelineEvent}

-- A domain's pipeline and the daemon's sessions.
pub record Node : Type 0 where
  pub pipeline : LogPipeline
  pub sessions : Registry

abbrev pub from_source : LogSource → LogEntry → LogEntry
from_source source e = record e { source = source }

unfoldable pub sync_pre_buffer_size_for_domain : LogPipeline → Registry → String → LogPipeline
sync_pre_buffer_size_for_domain p sessions domain =
    resync_pre_buffer p (max_pre_window_for_domain sessions domain)

unfoldable pub largest : (TriggerMatch → ℕ) → List TriggerMatch → ℕ
largest size [] = 0
largest size (m ∷ ms) = max (size m) (largest size ms)

-- `context_before.pop()`, when the last record is the match itself.
unfoldable pub without_match : ℕ → List LogEntry → List LogEntry
without_match seq [] = []
without_match seq (e ∷ []) = if e.seq == seq then [] else e ∷ []
without_match seq (e ∷ f ∷ es) = e ∷ without_match seq (f ∷ es)

abbrev event_of : LogPipeline → SessionId → LogEntry → ℕ → TriggerMatch → PipelineEvent
event_of p sid e flushed m = record {
  session_id = label sid;
  trigger_id = m.id;
  trigger_description = m.description;
  filter_string = m.filter_string;
  matched_entry = e;
  context_before = without_match e.seq (context_by_seq p.store e.seq m.notify_context 0);
  pre_trigger_flushed = flushed;
  pre_window = m.pre_window;
  post_window_size = m.post_window;
  notify_context = m.notify_context;
  oneshot = m.oneshot;
  trace_id = e.trace_id;
  trace_summary = none;
}

-- The loop over the matches: each is queued and sent, and a oneshot trigger is removed.
unfoldable pub notify : SessionId → LogEntry → ℕ → List TriggerMatch → Node → Node
notify sid e flushed [] n = n
notify sid e flushed (m ∷ ms) n =
    let event = event_of n.pipeline sid e flushed m in
    let told = send_or_queue_notification n.sessions sid event in
    notify sid e flushed ms (record {
      pipeline = send_event n.pipeline event;
      sessions = if m.oneshot then (remove_trigger told sid m.id).0 else told;
    })

unfoldable pub any_oneshot : List TriggerMatch → Bool
any_oneshot [] = false
any_oneshot (m ∷ ms) = m.oneshot || any_oneshot ms

unfoldable pub trace_entries : LogPipeline → Option ℕ → List LogEntry
trace_entries p none = []
trace_entries p (some tid) = entries_by_trace_id p.pre_buffer tid

-- The pipeline once a firing session's records are stored: the record itself, then the pre-window
-- and the trace's records still in the buffer, as one batch.
unfoldable pub store_fired : LogPipeline → LogEntry → ℕ → LogPipeline
store_fired p e pre =
    let kept =
      if contains_seq p e.seq then p else append_to_store p (from_source LogSource.pre_trigger e) in
    let (buffer, window) = flush kept.pre_buffer pre in
    let drained : LogPipeline = record kept { pre_buffer = buffer } in
    insert_into_store drained
      (map (from_source LogSource.pre_trigger) (window ++ trace_entries drained e.trace_id))

-- A session some of whose triggers fired: its records are stored, its window is extended, and it is
-- told.
unfoldable pub store_and_notify : SessionId → LogEntry → List TriggerMatch → Node → Node
store_and_notify sid e matches n =
    let pre = largest (λ m. m.pre_window) matches in
    notify sid e pre matches (record {
      pipeline = store_fired n.pipeline e pre;
      sessions = extend_post_window n.sessions sid (largest (λ m. m.post_window) matches);
    })

-- The removal of a oneshot trigger may let the pre-trigger buffer shrink.
unfoldable pub fire : String → SessionId → LogEntry → List TriggerMatch → Node → Node
fire domain sid e matches n =
    let told = store_and_notify sid e matches n in
    if any_oneshot matches
    then record told {
      pipeline = sync_pre_buffer_size_for_domain told.pipeline told.sessions domain;
    }
    else told

-- What the matches make of the state and of `any_post_window_active`.
unfoldable pub answer :
    String → SessionId → LogEntry → List TriggerMatch → Node → Bool → Node × Bool
answer domain sid e [] n active = (n, active)
answer domain sid e (m ∷ ms) n active = (fire domain sid e (m ∷ ms) n, true)

-- The record is stored by the domain's filters, under the policy that is put on record.
unfoldable pub store_by_filters : LogPipeline → LogEntry → StorageDecision → LogPipeline
store_by_filters p e decision =
    let observed : LogPipeline = record p { epochs = observe p.epochs e.seq decision.policy } in
    if decision.should_store
    then append_to_store observed
        (record e { matched_filters = decision.matched_descriptions; source = LogSource.by_filter })
    else observed

module _ (engine : TextEngine) where
  -- The loop over the domain's sessions, with `any_post_window_active`.
  unfoldable pub visit : String → LogEntry → SessionId → Node → Bool → Node × Bool
  visit domain e sid n active =
      let (paced, was_open) = decrement_post_window n.sessions sid in
      let (judged, matches) = evaluate_triggers engine paced sid e in
      answer domain sid e matches (record n { sessions = judged }) (active || was_open)

  unfoldable pub visit_all : String → LogEntry → List SessionId → Node → Bool → Node × Bool
  visit_all domain e [] n active = (n, active)
  visit_all domain e (sid ∷ sids) n active =
      let (next, still) = visit domain e sid n active in visit_all domain e sids next still

  -- What happens after the sessions' triggers.
  unfoldable pub settle : String → LogEntry → Node → Bool → Node
  settle domain e n active =
      let buffered = pre_buffer_append n.pipeline e in
      if contains_seq buffered e.seq
      then record n { pipeline = buffered }
      else if active
      then record n { pipeline = append_to_store buffered (from_source LogSource.post_trigger e) }
      else record n {
        pipeline =
            store_by_filters buffered e (evaluate_filters_for_domain engine n.sessions domain e);
      }

  unfoldable pub process_entry_for_domain : Node → String → LogEntry → Node
  process_entry_for_domain n domain entry =
      let (p, seq) = assign_seq n.pipeline in
      let e : LogEntry = record entry { seq = seq } in
      let ids = active_session_ids_sorted_by_pre_window_for_domain n.sessions domain in
      let (visited, active) = visit_all domain e ids (record n { pipeline = p }) false in
      settle domain e visited active

  -- The loop of `spawn_log_processor`.
  unfoldable pub process_all : Node → String → List LogEntry → Node
  process_all n domain [] = n
  process_all n domain (e ∷ es) = process_all (process_entry_for_domain n domain e) domain es
