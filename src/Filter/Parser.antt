-- ===== src/Filter/Parser.antt =====
-- crates/core/src/filter/parser.rs: the filter parser; crates/core/src/gelf/message.rs:
-- `Level::from_name`. A regex is its source text, and an error about one carries that text.
use Prim.Native.Char.{code}
use Prim.Native.String
use Prim.Native.String.{len}
use text.Mathlib.Text.{◌==◌ as str_eq}
use logmon_mcp.Common.{
  ℕ, Bool, true, false, not, ◌&&◌, ◌||◌, Option, none, some, List, [], ◌∷◌, String, any, length,
  keep, ltb, leb, ◌==◌, if◌then◌else◌,
}
use logmon_mcp.Entry.{Level}
use logmon_mcp.Filter.{
  DurationOp, BookmarkOp, LevelOp, Pattern, substring, regex, Selector, additional_field, Qualifier,
  bare_pattern, selector_pattern, level_filter, duration_filter, bookmark_filter, cursor_filter,
  ParsedFilter, match_all, match_none, qualifiers, is_span_qualifier, is_log_qualifier,
  is_cursor_qualifier,
}
use logmon_mcp.Filter.Split.{
  empty, mixed_log_span_selectors, empty_bookmark_name, multiple_cursor_qualifiers,
  cursor_lte_not_supported, invalid_regex, unknown_level, invalid_level_syntax,
  invalid_bookmark_name, unknown_comparison_selector, Result, ok, err, split_on_commas,
}

-- What the parser uses of `str`, of the `regex` crate and of `f64`.
pub record ParseEngine : Type 0 where
  -- `str::trim`, over all of Unicode's white space.
  pub trim : String → String
  pub to_lowercase : String → String
  pub to_uppercase : String → String
  -- Whether `Regex::new` accepts a text.
  pub is_regex : String → Bool
  -- `str::parse::<f64>`, as a bit pattern.
  pub parse_double : String → Option ℕ

-- The text after a prefix.
unfoldable pub strip_prefix : String → String → Option String
strip_prefix String.[] s = some s
strip_prefix (String.◌∷◌ p ps) String.[] = none
strip_prefix (String.◌∷◌ p ps) (String.◌∷◌ c s) =
    let rest = strip_prefix ps s in if code p == code c then rest else none

unfoldable pub starts_with : String → ℕ → Bool
starts_with String.[] k = false
starts_with (String.◌∷◌ c s) k = code c == k

unfoldable pub ends_with : String → ℕ → Bool
ends_with String.[] k = false
ends_with (String.◌∷◌ c s) k = elim s [ String.[] ↦ code c == k | String.◌∷◌ _ _ ↦ ends_with s k ]

-- All but the last character.
unfoldable pub but_last : String → String
but_last String.[] = ""
but_last (String.◌∷◌ c s) = elim s [ String.[] ↦ "" | String.◌∷◌ _ _ ↦ String.◌∷◌ c (but_last s) ]

-- `&s[1..s.len() - 1]`.
unfoldable pub inner : String → String
inner String.[] = ""
inner (String.◌∷◌ c s) = but_last s

-- Around the first occurrence of a character.
unfoldable pub split_first : ℕ → String → Option (String × String)
split_first k String.[] = none
split_first k (String.◌∷◌ c s) =
    let rest = split_first k s in
    if code c == k
    then some ("", s)
    else elim rest [ none ↦ none | some (before, after) ↦ some (String.◌∷◌ c before, after) ]

-- Around the last one.
unfoldable pub split_last : ℕ → String → Option (String × String)
split_last k String.[] = none
split_last k (String.◌∷◌ c s) = elim (split_last k s) [
  | some (before, after) ↦ some (String.◌∷◌ c before, after)
  | none ↦ if code c == k then some ("", s) else none
]

unfoldable pub has_char : ℕ → String → Bool
has_char k String.[] = false
has_char k (String.◌∷◌ c s) = code c == k || has_char k s

-- In double quotes, as far as its ends and its length say.
unfoldable pub is_quoted : String → Bool
is_quoted s = starts_with s 34 && ends_with s 34 && leb 2 (len s)

abbrev is_token_byte : ℕ → Bool
is_token_byte b =
    (leb 48 b && leb b 57)
    || (leb 65 b && leb b 90)
    || (leb 97 b && leb b 122)
    || b == 45
    || b == 95
    || b == 47

unfoldable pub all_token_bytes : String → Bool
all_token_bytes String.[] = true
all_token_bytes (String.◌∷◌ c s) = is_token_byte (code c) && all_token_bytes s

unfoldable pub is_valid_bookmark_token : String → Bool
is_valid_bookmark_token name = if len name == 0 then false else all_token_bytes name

unfoldable pub parse_selector : String → Selector
parse_selector s =
    if str_eq s "m"
    then Selector.message
    else if str_eq s "fm"
    then Selector.full_message
    else if str_eq s "mfm"
    then Selector.message_or_full
    else if str_eq s "h"
    then Selector.host
    else if str_eq s "fa"
    then Selector.facility
    else if str_eq s "fi"
    then Selector.file
    else if str_eq s "ln"
    then Selector.line
    else if str_eq s "sn"
    then Selector.span_name
    else if str_eq s "sv"
    then Selector.service_name
    else if str_eq s "st"
    then Selector.span_status
    else if str_eq s "sk"
    then Selector.span_kind
    else additional_field s

abbrev pub with_pattern : (Pattern → Qualifier) → Result Pattern → Result Qualifier
with_pattern make (ok p) = ok (make p)
with_pattern make (err e) = err e

-- The checks on the whole filter.
unfoldable pub validate : List Qualifier → Result ParsedFilter
validate [] = err empty
validate (q ∷ qs) =
    if any is_span_qualifier (q ∷ qs) && any is_log_qualifier (q ∷ qs)
    then err mixed_log_span_selectors
    else if ltb 1 (length (keep is_cursor_qualifier (q ∷ qs)))
    then err multiple_cursor_qualifiers
    else ok (qualifiers (q ∷ qs))

module _ (engine : ParseEngine) where
  unfoldable pub from_name : String → Option Level
  from_name name =
      let upper = engine.to_uppercase name in
      if str_eq upper "ERROR"
      then some Level.error
      else if str_eq upper "WARN" || str_eq upper "WARNING"
      then some Level.warn
      else if str_eq upper "INFO"
      then some Level.info
      else if str_eq upper "DEBUG"
      then some Level.debug
      else if str_eq upper "TRACE"
      then some Level.trace
      else none

  -- The source of the regex after its first slash, and whether an `i` follows the last one.
  abbrev regex_parts : String → String × Bool
  regex_parts text = elim (split_last 47 text) [
    | some (source, flags) ↦ (source, has_char 105 flags)
    | none ↦ (text, false)
  ]

  unfoldable pub compile : String × Bool → Result Pattern
  compile (source, case_insensitive) =
      let pattern = if case_insensitive then String.◌++◌ "(?i)" source else source in
      if engine.is_regex pattern
      then ok (regex source pattern case_insensitive)
      else err (invalid_regex pattern)

  unfoldable pub parse_pattern : String → Result Pattern
  parse_pattern s = elim (strip_prefix "/" s) [
    | some text ↦ compile (regex_parts text)
    | none ↦ ok (substring (engine.to_lowercase s))
  ]

  unfoldable pub parse_level : LevelOp → String → Result Qualifier
  parse_level op rest = elim (from_name rest) [
    | none ↦ err (unknown_level rest)
    | some level ↦ ok (level_filter op level)
  ]

  unfoldable pub parse_duration : DurationOp → String → Result Qualifier
  parse_duration op rest = elim (engine.parse_double rest) [
    | none ↦ err (invalid_level_syntax (String.◌++◌ "invalid duration value: " rest))
    | some value ↦ ok (duration_filter op value)
  ]

  unfoldable pub parse_name : (String → Qualifier) → String → Result Qualifier
  parse_name make rest =
      let name = engine.trim rest in
      if len name == 0
      then err empty_bookmark_name
      else if not (is_valid_bookmark_token name)
      then err (invalid_bookmark_name name)
      else ok (make name)

  -- `selector=pattern`, with the texts around the `=`.
  unfoldable pub parse_selected : String → String → Result Qualifier
  parse_selected lhs rhs =
      if ends_with lhs 62 || ends_with lhs 60
      then err (unknown_comparison_selector lhs)
      else with_pattern (selector_pattern (parse_selector lhs))
          (parse_pattern (if is_quoted rhs then inner rhs else rhs))

  unfoldable pub parse_bare : String → Result Qualifier
  parse_bare token = ok (bare_pattern (substring (engine.to_lowercase token)))

  -- What begins with no comparison selector.
  unfoldable pub parse_other : String → Result Qualifier
  parse_other token =
      if is_quoted token
      then ok (bare_pattern (substring (engine.to_lowercase (inner token))))
      else if starts_with token 47
      then with_pattern bare_pattern (parse_pattern token)
      else elim (split_first 61 token) [
        | none ↦ parse_bare token
        | some (before, after) ↦
            let lhs = engine.trim before in
            if len lhs == 0 then parse_bare token else parse_selected lhs (engine.trim after)
      ]

  -- The prefixes, in the order in which they are tried.
  unfoldable pub prefixes : List (String × (String → Result Qualifier))
  prefixes =
      ("l>=", parse_level LevelOp.gte)
      ∷ ("l<=", parse_level LevelOp.lte)
      ∷ ("l=", parse_level LevelOp.eq)
      ∷ ("d>=", parse_duration DurationOp.at_least)
      ∷ ("d<=", parse_duration DurationOp.at_most)
      ∷ ("b>=", parse_name (bookmark_filter BookmarkOp.gte))
      ∷ ("b<=", parse_name (bookmark_filter BookmarkOp.lte))
      ∷ ("c>=", parse_name cursor_filter)
      ∷ ("c<=", λ rest. err cursor_lte_not_supported)
      ∷ []

  unfoldable pub try_prefixes :
      List (String × (String → Result Qualifier)) → String → Result Qualifier
  try_prefixes [] token = parse_other token
  try_prefixes ((prefix, parse) ∷ ps) token = elim (strip_prefix prefix token) [
    | some rest ↦ parse rest
    | none ↦ try_prefixes ps token
  ]

  unfoldable pub parse_token : String → Result Qualifier
  parse_token token = try_prefixes prefixes (engine.trim token)

  -- The loop over the tokens.
  unfoldable pub parse_tokens : List String → Result (List Qualifier)
  parse_tokens [] = ok []
  parse_tokens (t ∷ ts) =
      let token = engine.trim t in
      let rest = parse_tokens ts in
      if len token == 0 then rest else elim (parse_token token) [
        | err e ↦ err e
        | ok q ↦ elim rest [ err e ↦ err e | ok qs ↦ ok (q ∷ qs) ]
      ]

  unfoldable pub parse_filter : String → Result ParsedFilter
  parse_filter text =
      let input = engine.trim text in
      if len input == 0
      then err empty
      else if str_eq input "ALL"
      then ok match_all
      else if str_eq input "NONE"
      then ok match_none
      else elim (split_on_commas input) [
        | err e ↦ err e
        | ok tokens ↦ elim (parse_tokens tokens) [ err e ↦ err e | ok qs ↦ validate qs ]
      ]
