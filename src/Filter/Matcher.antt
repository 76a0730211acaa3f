-- ===== src/Filter/Matcher.antt =====
-- crates/core/src/filter/matcher.rs: whether a filter matches a record or a span.

use text.Mathlib.Text.{◌==◌ as str_eq}
use logmon_mcp.Common.{
  ℕ, Bool, true, false, ◌||◌, Option, none, some, List, [], ◌∷◌, String, any, all, ltb, leb, ◌==◌,
  if◌then◌else◌,
}
use logmon_mcp.Entry.{Level, LogEntry, FieldValue, SpanEntry, SpanKind, SpanStatus}
use logmon_mcp.Filter.{
  DurationOp, SeqOp, LevelOp, Pattern, Selector, Qualifier, ParsedFilter, bare_pattern,
  selector_pattern, level_filter, duration_filter, bookmark_filter, cursor_filter, seq_filter,
  cursor_seq, match_all, match_none, qualifiers, substring, regex,
}
use logmon_mcp.Filter.Text.{TextEngine, contains, to_string}

-- The order of `Level`.
abbrev rank : Level → ℕ
rank Level.trace = 0
rank Level.debug = 1
rank Level.info = 2
rank Level.warn = 3
rank Level.error = 4

unfoldable pub matches_level : LevelOp → Level → Level → Bool
matches_level LevelOp.eq filter_level entry_level = rank entry_level == rank filter_level
matches_level LevelOp.gte filter_level entry_level = leb (rank filter_level) (rank entry_level)
matches_level LevelOp.lte filter_level entry_level = leb (rank entry_level) (rank filter_level)

abbrev pub text_of : FieldValue → String
text_of (FieldValue.text s) = s
text_of (FieldValue.other s) = s

-- `additional_fields.get(name)`.
unfoldable pub field : String → List (String × FieldValue) → Option FieldValue
field name [] = none
field name ((k, v) ∷ fields) = if str_eq k name then some v else field name fields

unfoldable pub matches_seq : SeqOp → ℕ → ℕ → Bool
matches_seq SeqOp.gt value seq = ltb value seq
matches_seq SeqOp.lt value seq = ltb seq value

unfoldable pub kind_text : SpanKind → String
kind_text SpanKind.unspecified = "unspecified"
kind_text SpanKind.internal = "internal"
kind_text SpanKind.server = "server"
kind_text SpanKind.client = "client"
kind_text SpanKind.producer = "producer"
kind_text SpanKind.consumer = "consumer"

abbrev pub is_cursor_seq : Qualifier → Bool
is_cursor_seq (cursor_seq after) = true
is_cursor_seq _ = false

module _ (engine : TextEngine) where
  open engine use {to_lowercase, is_match, double_ge}

  unfoldable pub matches_pattern : Pattern → String → Bool
  matches_pattern (substring s) text = contains (to_lowercase text) (to_lowercase s)
  matches_pattern (regex source compiled ci) text = is_match compiled text

  -- `.map(|t| matches_pattern(p, t)).unwrap_or(false)`.
  unfoldable pub matches_some : Pattern → Option String → Bool
  matches_some p none = false
  matches_some p (some text) = matches_pattern p text

  abbrev line_text : LogEntry → Option String
  line_text e = elim e.line [ none ↦ none | some n ↦ some (to_string n) ]

  unfoldable pub matches_any_field : Pattern → LogEntry → Bool
  matches_any_field p e =
      matches_pattern p e.message
      || matches_some p e.full_message
      || matches_pattern p e.host
      || matches_some p e.facility
      || matches_some p e.file
      || matches_some p (line_text e)
      || any (λ (k, v). matches_pattern p (text_of v)) e.additional_fields

  unfoldable pub matches_selector : Selector → Pattern → LogEntry → Bool
  matches_selector Selector.message p e = matches_pattern p e.message
  matches_selector Selector.full_message p e = matches_some p e.full_message
  matches_selector Selector.message_or_full p e =
      matches_pattern p e.message || matches_some p e.full_message
  matches_selector Selector.host p e = matches_pattern p e.host
  matches_selector Selector.facility p e = matches_some p e.facility
  matches_selector Selector.file p e = matches_some p e.file
  matches_selector Selector.line p e = matches_some p (line_text e)
  matches_selector (Selector.additional_field name) p e = elim (field name e.additional_fields) [
    | none ↦ false
    | some v ↦ matches_pattern p (text_of v)
  ]
  matches_selector _ p e = false

  unfoldable pub matches_qualifier : Qualifier → LogEntry → Bool
  matches_qualifier (bare_pattern p) e = matches_any_field p e
  matches_qualifier (selector_pattern selector p) e = matches_selector selector p e
  matches_qualifier (level_filter op level) e = matches_level op level e.level
  matches_qualifier (duration_filter op threshold) e = false
  matches_qualifier (bookmark_filter op name) e = false
  matches_qualifier (cursor_filter name) e = false
  matches_qualifier (seq_filter op value) e = matches_seq op value e.seq
  matches_qualifier (cursor_seq after) e = ltb after e.seq

  unfoldable pub matches_entry : ParsedFilter → LogEntry → Bool
  matches_entry match_all e = true
  matches_entry match_none e = false
  matches_entry (qualifiers qs) e = all (λ q. matches_qualifier q e) qs

  unfoldable pub matches_entry_past_cursor : ParsedFilter → LogEntry → Bool
  matches_entry_past_cursor match_all e = true
  matches_entry_past_cursor match_none e = false
  matches_entry_past_cursor (qualifiers qs) e =
      all (λ q. is_cursor_seq q || matches_qualifier q e) qs

  -- The text that a status pattern is compared with.
  unfoldable pub status_text : Pattern → String
  status_text (substring s) = s
  status_text (regex source compiled ci) = to_lowercase source

  unfoldable pub matches_status : Pattern → SpanStatus → Bool
  matches_status p (SpanStatus.failed text) =
      str_eq (status_text p) "error" || matches_pattern p text
  matches_status p SpanStatus.ok = str_eq (status_text p) "ok"
  matches_status p SpanStatus.unset = str_eq (status_text p) "unset"

  -- `as_str`, which only a JSON string has.
  unfoldable pub matches_attribute : Pattern → Option FieldValue → Bool
  matches_attribute p (some (FieldValue.text s)) = matches_pattern p s
  matches_attribute p (some (FieldValue.other s)) = false
  matches_attribute p none = false

  unfoldable pub matches_span_selector : Selector → Pattern → SpanEntry → Bool
  matches_span_selector Selector.span_name p s = matches_pattern p s.name
  matches_span_selector Selector.service_name p s = matches_pattern p s.service_name
  matches_span_selector Selector.span_status p s = matches_status p s.status
  matches_span_selector Selector.span_kind p s = matches_pattern p (kind_text s.kind)
  matches_span_selector (Selector.additional_field key) p s =
      matches_attribute p (field key s.attributes)
  matches_span_selector _ p s = false

  unfoldable pub matches_span_qualifier : Qualifier → SpanEntry → Bool
  matches_span_qualifier (bare_pattern p) s = matches_pattern p s.name
  matches_span_qualifier (selector_pattern selector p) s = matches_span_selector selector p s
  matches_span_qualifier (duration_filter DurationOp.at_least t) s = double_ge s.duration_ms t
  matches_span_qualifier (duration_filter DurationOp.at_most t) s = double_ge t s.duration_ms
  matches_span_qualifier (level_filter op level) s = false
  matches_span_qualifier (bookmark_filter op name) s = false
  matches_span_qualifier (cursor_filter name) s = false
  matches_span_qualifier (seq_filter op value) s = matches_seq op value s.seq
  matches_span_qualifier (cursor_seq after) s = ltb after s.seq

  unfoldable pub matches_span : ParsedFilter → SpanEntry → Bool
  matches_span match_all s = true
  matches_span match_none s = false
  matches_span (qualifiers qs) s = all (λ q. matches_span_qualifier q s) qs
