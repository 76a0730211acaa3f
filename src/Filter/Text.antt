-- ===== src/Filter/Text.antt =====
-- What the matcher uses of Rust's strings and of the `regex` crate. Case folding over the whole of
-- Unicode, the regex engine and the order of `f64` are parameters.
use Prim.Native.String.{len}
use text.Mathlib.Text.{find?}
use logmon_mcp.Common.{
  ℕ, zero, suc, ◌%◌, Bool, true, false, none, some, String, ltb, ◌==◌, if◌then◌else◌,
}
use Prim.Native.Nat.{◌/◌}
use Prim.Native.String

pub record TextEngine : Type 0 where
  -- `str::to_lowercase`.
  pub to_lowercase : String → String
  -- `Regex::is_match`, for the text of the regex.
  pub is_match : String → String → Bool
  -- `a >= b` on bit patterns of `f64`.
  pub double_ge : ℕ → ℕ → Bool

-- `text.contains(part)`.
unfoldable pub contains : String → String → Bool
contains text part = elim (find? text part) [ none ↦ false | some i ↦ true ]

unfoldable pub digit : ℕ → String
digit d =
    if d == 0
    then "0"
    else if d == 1
    then "1"
    else if d == 2
    then "2"
    else if d == 3
    then "3"
    else if d == 4
    then "4"
    else if d == 5
    then "5"
    else if d == 6
    then "6"
    else if d == 7
    then "7"
    else if d == 8
    then "8"
    else "9"

-- The decimal digits of a number of at most `k` digits.
unfoldable pub decimal : ℕ → ℕ → String
decimal zero n = ""
decimal (suc k) n =
    let rest = decimal k (n / 10) in if ltb n 10 then digit n else String.◌++◌ rest (digit (n % 10))

-- `to_string` on a u32, which has at most ten digits.
unfoldable pub to_string : ℕ → String
to_string n = decimal 10 n
