-- ===== src/Filter.antt =====
-- crates/core/src/filter/parser.rs: filters as the matcher and the stores see them, and the seq
-- window that a filter selects.
mod Tests
pub mod Text
pub mod Matcher
pub mod Window
pub mod Split
pub mod SplitTrip
pub mod Parser
pub mod Parsed
use logmon_mcp.Common.{
  ℕ, ◌-◌, ◌+◌, max, min, Bool, true, false, ◌||◌, Option, none, some, List, [], ◌∷◌, String, any,
  ltb, sat_suc, if◌then◌else◌,
}
use logmon_mcp.Entry.{Level}

pub data DurationOp : Type 0 where
  at_least at_most : DurationOp

pub data BookmarkOp : Type 0 where
  gte lte : BookmarkOp

pub data SeqOp : Type 0 where
  gt lt : SeqOp

pub data LevelOp : Type 0 where
  eq gte lte : LevelOp

-- `Regex { source, compiled, case_insensitive }`; a compiled regex is the text it was built from.
pub data Pattern : Type 0 where
  substring : String → Pattern
  regex : String → String → Bool → Pattern

pub data Selector : Type 0 where
  message full_message message_or_full host facility file line : Selector
  span_name service_name span_status span_kind : Selector
  additional_field : String → Selector

-- The threshold of a duration filter is the bit pattern of its `f64`.
pub data Qualifier : Type 0 where
  bare_pattern : Pattern → Qualifier
  selector_pattern : Selector → Pattern → Qualifier
  level_filter : LevelOp → Level → Qualifier
  duration_filter : DurationOp → ℕ → Qualifier
  bookmark_filter : BookmarkOp → String → Qualifier
  cursor_filter : String → Qualifier
  seq_filter : SeqOp → ℕ → Qualifier
  cursor_seq : ℕ → Qualifier

pub data ParsedFilter : Type 0 where
  match_all : ParsedFilter
  match_none : ParsedFilter
  qualifiers : List Qualifier → ParsedFilter

unfoldable pub is_span_qualifier : Qualifier → Bool
is_span_qualifier (selector_pattern span_name p) = true
is_span_qualifier (selector_pattern service_name p) = true
is_span_qualifier (selector_pattern span_status p) = true
is_span_qualifier (selector_pattern span_kind p) = true
is_span_qualifier (duration_filter op threshold) = true
is_span_qualifier _ = false

unfoldable pub is_span_filter : ParsedFilter → Bool
is_span_filter match_all = false
is_span_filter match_none = false
is_span_filter (qualifiers qs) = any is_span_qualifier qs

unfoldable pub is_log_qualifier : Qualifier → Bool
is_log_qualifier (selector_pattern message p) = true
is_log_qualifier (selector_pattern full_message p) = true
is_log_qualifier (selector_pattern message_or_full p) = true
is_log_qualifier (selector_pattern host p) = true
is_log_qualifier (selector_pattern facility p) = true
is_log_qualifier (selector_pattern file p) = true
is_log_qualifier (selector_pattern line p) = true
is_log_qualifier (level_filter op level) = true
is_log_qualifier _ = false

unfoldable pub is_bookmark_qualifier : Qualifier → Bool
is_bookmark_qualifier (bookmark_filter op name) = true
is_bookmark_qualifier (cursor_filter name) = true
is_bookmark_qualifier _ = false

unfoldable pub contains_bookmark_qualifier : ParsedFilter → Bool
contains_bookmark_qualifier match_all = false
contains_bookmark_qualifier match_none = false
contains_bookmark_qualifier (qualifiers qs) = any is_bookmark_qualifier qs

unfoldable pub is_cursor_qualifier : Qualifier → Bool
is_cursor_qualifier (cursor_filter name) = true
is_cursor_qualifier _ = false

unfoldable pub contains_cursor_qualifier : ParsedFilter → Bool
contains_cursor_qualifier match_all = false
contains_cursor_qualifier match_none = false
contains_cursor_qualifier (qualifiers qs) = any is_cursor_qualifier qs

-- The strict lower bound that a qualifier sets.
unfoldable pub lower_bound : Qualifier → Option ℕ
lower_bound (seq_filter SeqOp.gt value) = some value
lower_bound (cursor_seq after) = some after
lower_bound _ = none

abbrev pub max_option : Option ℕ → Option ℕ → Option ℕ
max_option none b = b
max_option (some a) none = some a
max_option (some a) (some b) = some (max a b)

-- `iter().filter_map(lower_bound).max()`.
unfoldable pub max_bound : List Qualifier → Option ℕ
max_bound [] = none
max_bound (q ∷ qs) = max_option (lower_bound q) (max_bound qs)

unfoldable pub resolved_lower_bound : ParsedFilter → Option ℕ
resolved_lower_bound (qualifiers qs) = max_bound qs
resolved_lower_bound _ = none

-- One round of the loop of `resolved_seq_range`, on `(lo, hi)`.
unfoldable pub narrow : Qualifier → Option ℕ × Option ℕ → Option ℕ × Option ℕ
narrow (seq_filter SeqOp.gt value) (lo, hi) =
    (elim lo [ none ↦ some (sat_suc value) | some cur ↦ some (max cur (sat_suc value)) ], hi)
narrow (seq_filter SeqOp.lt value) (lo, hi) =
    (lo, elim hi [ none ↦ some (value - 1) | some cur ↦ some (min cur (value - 1)) ])
narrow (cursor_seq value) (lo, hi) =
    (elim lo [ none ↦ some (sat_suc value) | some cur ↦ some (max cur (sat_suc value)) ], hi)
narrow _ range = range

unfoldable pub narrow_all : List Qualifier → Option ℕ × Option ℕ → Option ℕ × Option ℕ
narrow_all [] range = range
narrow_all (q ∷ qs) range = narrow_all qs (narrow q range)

unfoldable pub resolved_seq_range : Option ParsedFilter → Option ℕ × Option ℕ
resolved_seq_range (some (qualifiers qs)) = narrow_all qs (none, none)
resolved_seq_range _ = (none, none)

unfoldable pub evicted_below : ℕ → ℕ → Option ℕ
evicted_below from lost_below = if ltb from lost_below then some (lost_below - from) else none

unfoldable pub evicted_before_window : ParsedFilter → ℕ → Option ℕ
evicted_before_window filter lost_below = elim (resolved_lower_bound filter) [
  | none ↦ none
  | some lb ↦ evicted_below (sat_suc lb) lost_below
]
