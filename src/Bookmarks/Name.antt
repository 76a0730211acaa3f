-- ===== src/Bookmarks/Name.antt =====
-- crates/core/src/store/bookmarks.rs: bookmark names.
use Prim.Native.Nat.{ℕ}
use Prim.Native.Char.{code}
use Prim.Native.String.{String, [], ◌∷◌, ◌++◌, len}
use text.Mathlib.Text.{find?}
use mathlib.Core.Bool.{Bool, true, false, ◌&&◌, ◌||◌}
use mathlib.Core.Option.{none, some}
use logmon_mcp.Common.{ltb, leb, ◌==◌, if◌then◌else◌}

-- An ASCII letter or digit, `-` or `_`, by its code.
unfoldable pub is_name_byte : ℕ → Bool
is_name_byte b =
    (leb 48 b && leb b 57)
    || (leb 65 b && leb b 90)
    || (leb 97 b && leb b 122)
    || b == 45
    || b == 95

unfoldable pub all_name_bytes : String → Bool
all_name_bytes [] = true
all_name_bytes (c ∷ s) = is_name_byte (code c) && all_name_bytes s

-- A character past ASCII has no valid byte, so the characters are tested for the bytes.
unfoldable pub is_valid_bookmark_name : String → Bool
is_valid_bookmark_name name =
    if len name == 0 || ltb 64 (len name) then false else all_name_bytes name

-- `format!("{session}/{name}")`.
unfoldable pub qualified : String → String → String
qualified session name = session ++ "/" ++ name

unfoldable pub qualify : String → String → String
qualify name current_session = elim (find? name "/") [
  | some i ↦ name
  | none ↦ qualified current_session name
]
