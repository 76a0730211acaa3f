-- ===== src/Filter/Split.antt =====
-- crates/core/src/filter/parser.rs: `split_on_commas`, with the errors of the parser.
use Prim.Native.Char.{Char, code}
use Prim.Native.String
use logmon_mcp.Common.{Bool, false, not, ◌&&◌, List, [], ◌∷◌, ◌++◌, String, ◌==◌, if◌then◌else◌}

pub data FilterParseError : Type 0 where
  empty unclosed_quote mixed_log_span_selectors empty_bookmark_name : FilterParseError
  multiple_cursor_qualifiers cursor_lte_not_supported : FilterParseError
  invalid_regex unknown_level invalid_level_syntax invalid_bookmark_name : String → FilterParseError
  unknown_comparison_selector : String → FilterParseError

pub data Result (A : Type 0) : Type 0 where
  ok : A → Result A
  err : FilterParseError → Result A

abbrev pub is_quote : Char → Bool
is_quote c = code c == 34

abbrev pub is_comma : Char → Bool
is_comma c = code c == 44

-- `String::push`.
abbrev pub push : String → Char → String
push s c = String.◌++◌ s (String.◌∷◌ c String.[])

-- The state of the loop over the characters.
pub record Split : Type 0 where
  pub tokens : List String
  pub current : String
  pub in_quote : Bool

unfoldable pub split_step : Split → Char → Split
split_step st c =
    if is_quote c
    then record st { current = push st.current c; in_quote = not st.in_quote }
    else if is_comma c && not st.in_quote
    then record st { tokens = st.tokens ++ st.current ∷ []; current = "" }
    else record st { current = push st.current c }

unfoldable pub split_loop : Split → String → Split
split_loop st String.[] = st
split_loop st (String.◌∷◌ c s) = split_loop (split_step st c) s

unfoldable pub split_on_commas : String → Result (List String)
split_on_commas input =
    let end = split_loop (record { tokens = []; current = ""; in_quote = false }) input in
    if end.in_quote then err unclosed_quote else ok (end.tokens ++ end.current ∷ [])
