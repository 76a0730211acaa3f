-- ===== src/Pipeline/Tests.antt =====
-- Witnesses for the processing of records.
use logmon_mcp.Common.{
  ◌+◌, ◌<◌, ◌≡◌, refl, false, ◌&&◌, ◌||◌, none, some, [], ◌∷◌, leb, length, if◌then◌else◌, arith,
}
use logmon_mcp.Entry.{Level, LogSource, LogEntry}
use logmon_mcp.Filter.{ParsedFilter, LevelOp, level_filter, qualifiers, match_none}
use logmon_mcp.Filter.Text.{TextEngine, contains}
use logmon_mcp.Ring.Order.{has_seq}
use logmon_mcp.Epoch.{observe}
use logmon_mcp.Sessions.{SessionState, new_state, is_in_domain}
use logmon_mcp.Sessions.Id.{anonymous, named, get, Unique}
use logmon_mcp.Pipeline.{new_with_seq_counter}
use logmon_mcp.Pipeline.Process.{Node, process_entry_for_domain, process_all}
use logmon_mcp.Pipeline.Stage.{above_floors}
use logmon_mcp.Pipeline.Storage.{IsPipeline, given_seq, some_insists, decision}
use logmon_mcp.Pipeline.Outcome.{
  new-IsPipeline, process_entry-stored, process_entry-epochs, process_entry-isolated,
  process_all-IsPipeline, cleared, clear_logs-final,
}

abbrev engine : TextEngine
engine = record {
  to_lowercase = λ s. s;
  is_match = λ pattern s. contains s pattern;
  double_ge = λ a b. leb b a;
}

abbrev errors : ParsedFilter
errors = qualifiers (level_filter LevelOp.gte Level.error ∷ [])

abbrev lane : SessionState
lane = record (new_state errors match_none (some "lane") 5) { domain = "t3" }

abbrev node : Node
node = record {
  pipeline = new_with_seq_counter 10 4;
  sessions = (named "lane", lane) ∷ (anonymous "u1", new_state errors match_none none 7) ∷ [];
}

abbrev entry : LogEntry
entry = record {
  seq = 0;
  timestamp = 0;
  level = Level.error;
  message = "m";
  full_message = none;
  host = "h";
  facility = none;
  file = none;
  line = none;
  additional_fields = [];
  trace_id = none;
  span_id = none;
  matched_filters = [];
  source = LogSource.by_filter;
}

node-IsPipeline : IsPipeline node.pipeline
node-IsPipeline = new-IsPipeline 10 4

node-Unique : Unique node.sessions
node-Unique = (refl, (refl, tt))

counter-small : (node.pipeline).seq_counter + 2 < 18_446_744_073_709_551_615
unfolding new_with_seq_counter
counter-small = omega arith

process_entry-stored_example :
    has_seq
      (given_seq engine node "default" entry)
      (process_entry_for_domain engine node "default" entry).pipeline.store.entries
    ≡ ((some_insists engine node "default" entry
          || (decision engine node "default" entry).should_store)
        && above_floors
            (given_seq engine node "default" entry)
            (process_entry_for_domain engine node "default" entry).pipeline.store)
process_entry-stored_example =
    process_entry-stored engine node "default" entry node-IsPipeline node-Unique
      (omega (arith, counter-small))

process_entry-epochs_example :
    (process_entry_for_domain engine node "default" entry).pipeline.epochs ≡ (
      if some_insists engine node "default" entry
      then (node.pipeline).epochs
      else observe
          (node.pipeline).epochs
          (given_seq engine node "default" entry)
          (decision engine node "default" entry).policy)
process_entry-epochs_example =
    process_entry-epochs engine node "default" entry node-IsPipeline node-Unique
      (omega (arith, counter-small))

process_entry-isolated_example :
    get (process_entry_for_domain engine node "default" entry).sessions (named "lane") ≡ some lane
unfolding get new_state is_in_domain
process_entry-isolated_example =
    process_entry-isolated engine node "default" entry node-IsPipeline node-Unique
      (omega (arith, counter-small)) (named "lane") lane refl refl

process_all-IsPipeline_example :
    IsPipeline (process_all engine node "default" (entry ∷ entry ∷ [])).pipeline
    × ((process_all engine node "default" (entry ∷ entry ∷ [])).pipeline.seq_counter
        ≡ (node.pipeline).seq_counter + length (entry ∷ entry ∷ []))
process_all-IsPipeline_example =
    process_all-IsPipeline engine node "default" (entry ∷ entry ∷ []) node-IsPipeline node-Unique
      counter-small

clear_logs-final_example :
    has_seq 4
      (process_all engine (cleared node) "default" (entry ∷ entry ∷ [])).pipeline.store.entries
    ≡ false
unfolding new_with_seq_counter
clear_logs-final_example =
    clear_logs-final engine node "default" (entry ∷ entry ∷ []) 4 node-IsPipeline node-Unique
      counter-small (omega arith)
