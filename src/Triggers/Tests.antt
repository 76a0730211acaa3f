-- ===== src/Triggers/Tests.antt =====
-- Witnesses for the triggers.
use logmon_mcp.Common.{
  ℕ, ◌≡◌, refl, true, false, ◌&&◌, Option, none, some, List, [], ◌∷◌, String, leb, ◌==◌, length,
  any, arith,
}
use logmon_mcp.Entry.{Level, LogSource, LogEntry}
use logmon_mcp.Filter.{ParsedFilter, LevelOp, level_filter, qualifiers, match_all}
use logmon_mcp.Filter.Text.{TextEngine, contains}
use logmon_mcp.Filter.Matcher.{matches_entry, matches_qualifier, matches_level}
use logmon_mcp.Triggers.{Trigger, TriggerManager, find, evaluate}
use logmon_mcp.Triggers.Debounce.{Ids, fired, evaluate_all, evaluate-debounce}
use logmon_mcp.Triggers.Edits.{IsManager}
use logmon_mcp.Triggers.History.{Change, adds, edits, removes, sees, resets, run, run-IsManager}

abbrev entry : ℕ → Level → LogEntry
entry seq level = record {
  seq = seq;
  timestamp = 0;
  level = level;
  message = "m";
  full_message = none;
  host = "h";
  facility = none;
  file = none;
  line = none;
  additional_fields = [];
  trace_id = none;
  span_id = none;
  matched_filters = [];
  source = LogSource.by_filter;
}

abbrev engine : TextEngine
engine = record {
  to_lowercase = λ s. s;
  is_match = λ pattern s. contains s pattern;
  double_ge = λ a b. leb b a;
}

abbrev errors : ParsedFilter
errors = qualifiers (level_filter LevelOp.gte Level.error ∷ [])

abbrev quick : Trigger
quick = record {
  id = 1;
  condition = errors;
  filter_string = "l>=ERROR";
  pre_window = 10;
  post_window = 2;
  notify_context = 5;
  description = none;
  oneshot = false;
  match_count = 0;
  post_remaining = 0;
}

abbrev two : List Trigger
two = quick ∷ record quick { id = 2; condition = match_all } ∷ []

two-Ids : Ids 1 3 two
two-Ids = (omega arith, omega arith, (omega arith, omega arith, tt))

quick_found : find 1 two ≡ some quick
unfolding find
quick_found = refl

quick_fires :
    (quick.post_remaining == 0 && matches_entry engine quick.condition (entry 7 Level.error)) ≡ true
unfolding matches_entry matches_qualifier matches_level
quick_fires = refl

abbrev burst : List LogEntry
burst = entry 8 Level.error ∷ entry 9 Level.info ∷ []

evaluate-debounce_example :
    (let after = (evaluate engine two (entry 7 Level.error)).0 in
      (fired 1 (evaluate engine two (entry 7 Level.error)).1 ≡ true)
      × (any (λ ms. fired 1 ms) (evaluate_all engine after burst).1 ≡ false)
      × (fired 1 (evaluate engine (evaluate_all engine after burst).0 (entry 10 Level.error)).1 ≡ (
          length burst == quick.post_window
          && matches_entry engine quick.condition (entry 10 Level.error))))
evaluate-debounce_example =
    evaluate-debounce engine 1 3 1 two (entry 7 Level.error) (entry 10 Level.error) burst quick
      two-Ids quick_found quick_fires (omega arith)

abbrev manager : TriggerManager
manager = record { triggers = two; next_id = 3 }

abbrev parse : String → Option ParsedFilter
parse text = some match_all

abbrev changes : List Change
changes =
    adds "x" 1 2 3 none true
    ∷ sees (entry 7 Level.error)
    ∷ edits 1 (some "y") none (some 4) none none none
    ∷ removes 2
    ∷ resets
    ∷ []

run-IsManager_example : IsManager (run parse engine manager changes)
run-IsManager_example =
    run-IsManager parse engine manager changes (omega arith) (omega arith) two-Ids
