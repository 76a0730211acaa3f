-- ===== src/Filter/Tests.antt =====
-- Witnesses for the filters' seq windows and for the parser.
use logmon_mcp.Common.{
  ℕ, ◌≤◌, ◌<◌, ◌+◌, ◌≡◌, refl, true, false, ◌⊎◌, none, some, List, [], ◌∷◌, String, All, leb,
  sat_suc,
}
use logmon_mcp.Filter.Split.{ok, err, unclosed_quote, split_step, split_loop, split_on_commas}
use logmon_mcp.Filter.SplitTrip.{join, IsToken, odd_quotes, join-split_on_commas}
use logmon_mcp.Filter.Parser.{
  ParseEngine, strip_prefix, is_valid_bookmark_token, all_token_bytes, validate, from_name,
  parse_level, parse_name, prefixes, try_prefixes, parse_token, parse_tokens, parse_filter,
}
use logmon_mcp.Filter.Parsed.{IsFilter, parse_filter-IsFilter}
use logmon_mcp.Entry.{Level, LogSource, LogEntry}
use logmon_mcp.Filter.{
  LevelOp, BookmarkOp, is_span_qualifier, is_cursor_qualifier, level_filter, bookmark_filter, SeqOp,
  ParsedFilter, seq_filter, qualifiers, resolved_seq_range, resolved_lower_bound, max_bound,
  lower_bound, evicted_before_window,
}
use logmon_mcp.Filter.Text.{TextEngine, contains}
use logmon_mcp.Filter.Matcher.{matches_entry, matches_qualifier, matches_seq}
use logmon_mcp.Filter.Window.{Within, matches_entry-Within, evicted_before_window-honest}

abbrev entry : LogEntry
entry = record {
  seq = 12;
  timestamp = 0;
  level = Level.warn;
  message = "slow";
  full_message = none;
  host = "h";
  facility = none;
  file = none;
  line = none;
  additional_fields = [];
  trace_id = none;
  span_id = none;
  matched_filters = [];
  source = LogSource.by_filter;
}

abbrev engine : TextEngine
engine = record {
  to_lowercase = λ s. s;
  is_match = λ pattern s. contains s pattern;
  double_ge = λ a b. leb b a;
}

-- After 9 and before 20.
abbrev window : ParsedFilter
window = qualifiers (seq_filter SeqOp.gt 9 ∷ seq_filter SeqOp.lt 20 ∷ [])

entry_matches : matches_entry engine window entry ≡ true
unfolding matches_entry matches_qualifier matches_seq
entry_matches = refl

part_found : contains "hello" "ell" ≡ true
unfolding contains
part_found = refl

window_opens : resolved_lower_bound window ≡ some 9
unfolding resolved_lower_bound max_bound lower_bound
window_opens = refl

matches_entry-Within_example : Within (resolved_seq_range (some window)) 12
matches_entry-Within_example = matches_entry-Within engine entry window entry_matches

evicted_before_window-honest_example :
    (evicted_before_window window 11 ≡ none → 11 ≤ 12)
    × ((gap : ℕ)
        → evicted_before_window window 11 ≡ some gap
        → (0 < gap) × (sat_suc 9 + gap ≡ 11) × (11 ≤ 12 + gap))
evicted_before_window-honest_example =
    evicted_before_window-honest engine entry window 9 11 entry_matches window_opens

join-split_on_commas_example :
    ((odd_quotes "a,\"b,c\"" ≡ true) × (split_on_commas "a,\"b,c\"" ≡ err unclosed_quote))
    ⊎ ((ts : List String) × (odd_quotes "a,\"b,c\"" ≡ false)
        × (split_on_commas "a,\"b,c\"" ≡ ok ts)
        × (join ts ≡ "a,\"b,c\"")
        × All IsToken ts)
join-split_on_commas_example = join-split_on_commas "a,\"b,c\""

abbrev parse_engine : ParseEngine
parse_engine = record {
  trim = λ s. s;
  to_lowercase = λ s. s;
  to_uppercase = λ s. s;
  is_regex = λ s. true;
  parse_double = λ s. none;
}

filter_parsed :
    parse_filter parse_engine "l>=ERROR,b>=before-run"
    ≡ ok (
        qualifiers
          (level_filter LevelOp.gte Level.error ∷ bookmark_filter BookmarkOp.gte "before-run" ∷ []))
unfolding parse_filter parse_tokens parse_token try_prefixes prefixes strip_prefix parse_level
    from_name parse_name is_valid_bookmark_token all_token_bytes validate split_on_commas split_loop
    split_step is_span_qualifier is_cursor_qualifier
filter_parsed = refl

parse_filter-IsFilter_example :
    IsFilter
      (level_filter LevelOp.gte Level.error ∷ bookmark_filter BookmarkOp.gte "before-run" ∷ [])
parse_filter-IsFilter_example =
    parse_filter-IsFilter parse_engine "l>=ERROR,b>=before-run"
      (level_filter LevelOp.gte Level.error ∷ bookmark_filter BookmarkOp.gte "before-run" ∷ [])
      filter_parsed
