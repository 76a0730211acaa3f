-- ===== src/Entry.antt =====
-- crates/core/src/gelf/message.rs: the log record and its level.
use logmon_mcp.Common.{ℕ, Bool, String, Option, List}

pub data Level : Type 0 where
  trace debug info warn error : Level

-- `LogSource`: why a record was stored.
pub data LogSource : Type 0 where
  by_filter pre_trigger post_trigger : LogSource

-- A `serde_json::Value` as the matcher reads it: a JSON string, or the text of any other value.
pub data FieldValue : Type 0 where
  text : String → FieldValue
  other : String → FieldValue

-- Times are nanoseconds from a fixed origin.
pub record LogEntry : Type 0 where
  pub seq : ℕ
  pub timestamp : ℕ
  pub level : Level
  pub message : String
  pub full_message : Option String
  pub host : String
  pub facility : Option String
  pub file : Option String
  pub line : Option ℕ
  pub additional_fields : List (String × FieldValue)
  pub trace_id : Option ℕ
  pub span_id : Option ℕ
  pub matched_filters : List String
  pub source : LogSource

-- crates/core/src/span/types.rs: the span record; its events are not modelled.
pub data SpanKind : Type 0 where
  unspecified internal server client producer consumer : SpanKind

pub data SpanStatus : Type 0 where
  unset ok : SpanStatus
  failed : String → SpanStatus

-- `duration_ms` is the bit pattern of its `f64`.
pub record SpanEntry : Type 0 where
  pub seq : ℕ
  pub trace_id : ℕ
  pub span_id : ℕ
  pub parent_span_id : Option ℕ
  pub start_time : ℕ
  pub end_time : ℕ
  pub duration_ms : ℕ
  pub name : String
  pub kind : SpanKind
  pub service_name : String
  pub status : SpanStatus
  pub attributes : List (String × FieldValue)

-- The total duration is the bit pattern of its `f64`.
pub record TraceSummary : Type 0 where
  pub trace_id : ℕ
  pub root_span_name : String
  pub service_name : String
  pub start_time : ℕ
  pub total_duration_ms : ℕ
  pub span_count : ℕ
  pub has_errors : Bool
  pub linked_log_count : ℕ
