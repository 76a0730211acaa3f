-- ===== src/Pipeline/Event.antt =====
-- crates/core/src/engine/pipeline.rs: the event that a firing trigger sends.
use logmon_mcp.Common.{ℕ, Bool, Option, List, String}
use logmon_mcp.Entry.{LogEntry, TraceSummary}

pub record PipelineEvent : Type 0 where
  pub session_id : String
  pub trigger_id : ℕ
  pub trigger_description : Option String
  pub filter_string : String
  pub matched_entry : LogEntry
  pub context_before : List LogEntry
  pub pre_trigger_flushed : ℕ
  pub pre_window : ℕ
  pub post_window_size : ℕ
  pub notify_context : ℕ
  pub oneshot : Bool
  pub trace_id : Option ℕ
  pub trace_summary : Option TraceSummary
