-- ===== src/Spans/Process.antt =====
-- crates/core/src/daemon/span_processor.rs: the processing of one span of a domain, with
-- `build_span_event` of crates/core/src/daemon/session.rs. The span ring and the pipeline share one
-- seq counter. The collectors, which fold the span too, are not part of the state.
use Prim.Native.String
use logmon_mcp.Common.{
  ℕ, ◌%◌, ◌^◌, Bool, true, false, ◌||◌, Option, none, some, List, [], ◌∷◌, String, any, length,
  if◌then◌else◌,
}
use logmon_mcp.Entry.{Level, LogSource, LogEntry, SpanEntry, SpanStatus, TraceSummary}
use logmon_mcp.Filter.Text.{TextEngine}
use logmon_mcp.Triggers.{TriggerMatch}
use logmon_mcp.Sessions.Id.{SessionId, label}
use logmon_mcp.Sessions.Work.{remove_trigger, evaluate_span_triggers, send_or_queue_notification}
use logmon_mcp.Sessions.Scan.{active_session_ids_for_domain}
use logmon_mcp.Pipeline.{LogPipeline, send_event}
use logmon_mcp.Pipeline.Event.{PipelineEvent}
use logmon_mcp.Pipeline.Process.{Node, any_oneshot, sync_pre_buffer_size_for_domain}
use logmon_mcp.Spans.{SpanStore, insert, get_trace}

-- A domain's stores and the daemon's sessions.
pub record SpanNode : Type 0 where
  pub node : Node
  pub spans : SpanStore

abbrev pub has_failed : SpanEntry → Bool
has_failed s = elim s.status [
  | SpanStatus.unset ↦ false
  | SpanStatus.ok ↦ false
  | SpanStatus.failed _ ↦ true
]

-- The first span without a parent.
unfoldable pub root_of : List SpanEntry → Option SpanEntry
root_of [] = none
root_of (s ∷ spans) = elim s.parent_span_id [ none ↦ some s | some _ ↦ root_of spans ]

unfoldable pub summarised : ℕ → SpanEntry → List SpanEntry → TraceSummary
summarised trace_id first rest =
    let spans = first ∷ rest in
    let root = root_of spans in
    record {
      trace_id = trace_id;
      root_span_name = elim root [ none ↦ "[incomplete]" | some r ↦ r.name ];
      service_name = elim root [ none ↦ "unknown" | some r ↦ r.service_name ];
      start_time = elim root [ none ↦ first.start_time | some r ↦ r.start_time ];
      total_duration_ms = elim root [ none ↦ 0 | some r ↦ r.duration_ms ];
      span_count = length spans % 2 ^ 32;
      has_errors = any has_failed spans;
      linked_log_count = 0;
    }

unfoldable pub build_trace_summary : ℕ → SpanStore → Option TraceSummary
build_trace_summary trace_id st = elim (get_trace st trace_id) [
  | [] ↦ none
  | first ∷ rest ↦ some (summarised trace_id first rest)
]

-- The record that a span's notification carries; `display` writes an `f64`.
unfoldable pub span_as_entry : (ℕ → String) → SpanEntry → LogEntry
span_as_entry display span = record {
  seq = span.seq;
  timestamp = span.start_time;
  level = if has_failed span then Level.error else Level.info;
  message =
      String.◌++◌ "[span] "
        (String.◌++◌ span.name (String.◌++◌ " (" (String.◌++◌ (display span.duration_ms) "ms)")));
  full_message = none;
  host = span.service_name;
  facility = some span.service_name;
  file = none;
  line = none;
  additional_fields = [];
  trace_id = some span.trace_id;
  span_id = some span.span_id;
  matched_filters = [];
  source = LogSource.by_filter;
}

unfoldable pub build_span_event :
    (ℕ → String) → SessionId → SpanEntry → TriggerMatch → Option TraceSummary → PipelineEvent
build_span_event display id span trigger trace_summary = record {
  session_id = label id;
  trigger_id = trigger.id;
  trigger_description = trigger.description;
  filter_string = trigger.filter_string;
  matched_entry = span_as_entry display span;
  context_before = [];
  pre_trigger_flushed = 0;
  pre_window = trigger.pre_window;
  post_window_size = 0;
  notify_context = trigger.notify_context;
  oneshot = trigger.oneshot;
  trace_id = some span.trace_id;
  trace_summary = trace_summary;
}

-- The span is stored under the next seq of the shared counter, which it takes.
unfoldable pub store_span : SpanNode → SpanEntry → SpanNode × SpanEntry
store_span n span =
    let (st, seq) = insert (record n.spans { seq_counter = (n.node).pipeline.seq_counter }) span in
    let pipeline : LogPipeline = record ((n.node).pipeline) { seq_counter = st.seq_counter } in
    (
      record { node = record (n.node) { pipeline = pipeline }; spans = st },
      record span { seq = seq },
    )

module _ (display : ℕ → String) (spans : SpanStore) (span : SpanEntry) where
  -- The loop over a session's matches.
  unfoldable pub notify_span : SessionId → List TriggerMatch → Node → Node
  notify_span sid [] n = n
  notify_span sid (m ∷ ms) n =
      let summary = build_trace_summary span.trace_id spans in
      let event = build_span_event display sid span m summary in
      let told = send_or_queue_notification n.sessions sid event in
      notify_span sid ms (record {
        pipeline = send_event n.pipeline event;
        sessions = if m.oneshot then (remove_trigger told sid m.id).0 else told;
      })

  -- The loop over the domain's sessions, with `any_oneshot_removed`.
  unfoldable pub visit_spans : TextEngine → List SessionId → Node → Bool → Node × Bool
  visit_spans engine [] n removed = (n, removed)
  visit_spans engine (sid ∷ sids) n removed =
      let (judged, matches) = evaluate_span_triggers engine n.sessions sid span in
      visit_spans engine sids (notify_span sid matches (record n { sessions = judged }))
        (removed || any_oneshot matches)

-- The state after the triggers, its pre-trigger buffer sized anew if a oneshot trigger went.
unfoldable pub settle_span : String → Node × Bool → Node
settle_span domain (n, removed) =
    if removed
    then record n { pipeline = sync_pre_buffer_size_for_domain n.pipeline n.sessions domain }
    else n

unfoldable pub process_span_for_domain :
    (ℕ → String) → TextEngine → SpanNode → String → SpanEntry → SpanNode
process_span_for_domain display engine n domain span =
    let (stored, s) = store_span n span in
    let ids = active_session_ids_for_domain stored.node.sessions domain in
    record stored {
      node = settle_span domain (visit_spans display stored.spans s engine ids stored.node false);
    }
