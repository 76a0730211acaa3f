-- ===== src/Spans/Tests.antt =====
-- Witnesses for the span ring and for the processing of spans.
use logmon_mcp.Common.{
  ℕ, ◌≡◌, ◌<◌, ◌+◌, refl, none, some, List, [], ◌∷◌, String, keep, leb, length, u64_max, arith,
}
use logmon_mcp.Entry.{SpanEntry, SpanKind, SpanStatus}
use logmon_mcp.Spans.{new, insert, get_trace}
use logmon_mcp.Entry.{Level, LogSource, LogEntry}
use logmon_mcp.Filter.{match_all, match_none}
use logmon_mcp.Filter.Text.{TextEngine, contains}
use logmon_mcp.Sessions.{SessionState, new_state, is_in_domain}
use logmon_mcp.Sessions.Id.{SessionId, named, anonymous, get, Unique}
use logmon_mcp.Pipeline.{new_with_seq_counter}
use logmon_mcp.Spans.Process.{SpanNode, process_span_for_domain}
use logmon_mcp.Spans.Processed.{on_counter, process_span-isolated}
use logmon_mcp.Spans.Apart.{
  Arrival, a_log, a_span, IsDomain, arrive_all, arrive_all-IsDomain, new-IsDomain,
}
use logmon_mcp.Spans.Invariant.{IsSpanStore}
use logmon_mcp.Spans.History.{Use, inserts, clears, logs, run, new-IsSpanStore, run-IsSpanStore}
use logmon_mcp.Spans.Lookup.{of_trace, ByStart, starts_at, get_trace-keep}

abbrev span : ℕ → ℕ → SpanEntry
span trace_id start_time = record {
  seq = 0;
  trace_id = trace_id;
  span_id = 1;
  parent_span_id = none;
  start_time = start_time;
  end_time = start_time;
  duration_ms = 0;
  name = "s";
  kind = SpanKind.internal;
  service_name = "svc";
  status = SpanStatus.unset;
  attributes = [];
}

abbrev uses : List Use
uses =
    inserts (span 7 30)
    ∷ logs
    ∷ inserts (span 8 20)
    ∷ clears
    ∷ inserts (span 7 20)
    ∷ inserts (span 8 10)
    ∷ inserts (span 7 10)
    ∷ []

run-IsSpanStore_example : IsSpanStore (run (new 2 4) uses)
unfolding new
run-IsSpanStore_example = run-IsSpanStore (new 2 4) uses (omega arith) (new-IsSpanStore 2 4)

held-IsSpanStore : IsSpanStore (run (new 2 4) uses)
unfolding new
held-IsSpanStore = run-IsSpanStore (new 2 4) uses (omega arith) (new-IsSpanStore 2 4)

get_trace-keep_example :
    ByStart (get_trace (run (new 2 4) uses) 7)
    × ((x : ℕ)
        → keep (starts_at x) (get_trace (run (new 2 4) uses) 7)
          ≡ keep (starts_at x) (keep (of_trace 7) (run (new 2 4) uses).buffer))
get_trace-keep_example = get_trace-keep (run (new 2 4) uses) 7 held-IsSpanStore

abbrev engine : TextEngine
engine = record {
  to_lowercase = λ s. s;
  is_match = λ pattern s. contains s pattern;
  double_ge = λ a b. leb b a;
}

abbrev display : ℕ → String
display x = "1"

abbrev elsewhere : SessionState
elsewhere = record (new_state match_all match_none (some "lane") 7) { domain = "lane" }

abbrev sessions : List (SessionId × SessionState)
sessions = (named "lane", elsewhere) ∷ (anonymous "u1", new_state match_all match_none none 7) ∷ []

sessions-Unique : Unique sessions
sessions-Unique = (refl, (refl, tt))

abbrev node : SpanNode
node = record {
  node = record { pipeline = new_with_seq_counter 10 4; sessions = sessions };
  spans = new 2 4;
}

node-IsDomain : IsDomain node
node-IsDomain = new-IsDomain 10 2 4 sessions sessions-Unique

process_span-isolated_example :
    ((process_span_for_domain display engine node "default" (span 7 30)).spans
      ≡ (insert (on_counter node) (span 7 30)).0)
    × ((process_span_for_domain display engine node "default" (span 7 30)).node.pipeline.seq_counter
        ≡ (insert (on_counter node) (span 7 30)).0.seq_counter)
    × ((process_span_for_domain display engine node "default" (span 7 30)).node.pipeline.store
        ≡ (node.node).pipeline.store)
    × ((process_span_for_domain display engine node "default" (span 7 30)).node.pipeline.epochs
        ≡ (node.node).pipeline.epochs)
    × (get
          (process_span_for_domain display engine node "default" (span 7 30)).node.sessions
          (named "lane")
        ≡ some elsewhere)
unfolding get new_state is_in_domain
process_span-isolated_example =
    process_span-isolated display engine node "default" (span 7 30) (named "lane") elsewhere
      sessions-Unique refl refl

abbrev entry : LogEntry
entry = record {
  seq = 0;
  timestamp = 0;
  level = Level.error;
  message = "m";
  full_message = none;
  host = "h";
  facility = none;
  file = none;
  line = none;
  additional_fields = [];
  trace_id = some 7;
  span_id = none;
  matched_filters = [];
  source = LogSource.by_filter;
}

abbrev arrivals : List Arrival
arrivals = a_log entry ∷ a_span (span 7 30) ∷ a_log entry ∷ a_span (span 8 20) ∷ []

arrivals-small : (node.node).pipeline.seq_counter + length arrivals < u64_max
unfolding new_with_seq_counter
arrivals-small = omega arith

arrive_all-IsDomain_example :
    IsDomain (arrive_all display engine "default" node arrivals)
    × ((arrive_all display engine "default" node arrivals).node.pipeline.seq_counter
        ≡ (node.node).pipeline.seq_counter + length arrivals)
arrive_all-IsDomain_example =
    arrive_all-IsDomain display engine "default" node arrivals node-IsDomain arrivals-small
