-- ===== src/PreBuffer/Tests.antt =====
-- Witnesses for the pre-trigger buffer.
use logmon_mcp.Common.{
  ℕ, ◌-◌, ◌≡◌, Option, none, some, List, [], ◌∷◌, map, drop, keep, length, arith,
}
use logmon_mcp.Entry.{Level, LogSource, LogEntry}
use logmon_mcp.Ring.{is_traced}
use logmon_mcp.PreBuffer.{Buffer, new, entries_by_trace_id}
use logmon_mcp.PreBuffer.Index.{IsBuffer, new-IsBuffer}
use logmon_mcp.PreBuffer.Lookup.{entries_by_trace_id-keep}
use logmon_mcp.PreBuffer.History.{
  Use, appends, flushes, resizes, run, run-IsBuffer, append_all, append_all-last, numbered,
}

abbrev entry : ℕ → Option ℕ → LogEntry
entry seq trace_id = record {
  seq = seq;
  timestamp = 0;
  level = Level.debug;
  message = "step";
  full_message = none;
  host = "h";
  facility = none;
  file = none;
  line = none;
  additional_fields = [];
  trace_id = trace_id;
  span_id = none;
  matched_filters = [];
  source = LogSource.pre_trigger;
}

abbrev uses : List Use
uses =
    appends (entry 1 (some 4))
    ∷ appends (entry 2 none)
    ∷ appends (entry 3 (some 4))
    ∷ flushes 1
    ∷ appends (entry 4 (some 4))
    ∷ resizes 2
    ∷ []

abbrev buffer : Buffer
buffer = run (new 3) uses

run-IsBuffer_example : IsBuffer (run (new 3) uses)
run-IsBuffer_example = run-IsBuffer (new 3) uses (new-IsBuffer 3)

buffer-IsBuffer : IsBuffer buffer
buffer-IsBuffer = run-IsBuffer (new 3) uses (new-IsBuffer 3)

entries_by_trace_id-keep_example :
    entries_by_trace_id buffer 4 ≡ map (λ (a, e). e) (keep (λ (a, e). is_traced 4 e) buffer.entries)
entries_by_trace_id-keep_example = entries_by_trace_id-keep buffer 4 buffer-IsBuffer

abbrev three : List LogEntry
three = entry 1 none ∷ entry 2 none ∷ entry 3 none ∷ []

append_all-last_example :
    (append_all (new 2) three).entries ≡ drop (length three - 2) (numbered 0 three)
append_all-last_example = append_all-last 2 three (omega arith)
