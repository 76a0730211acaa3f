-- ===== src/Bookmarks/Tests.antt =====
-- Witnesses for bookmarks and cursors.
use Prim.Native.Char.{code}
use Prim.Native.String
use text.Mathlib.TextEquality.{eq_iff}
use text.Mathlib.TextLemmas.{cons-append}
use logmon_mcp.Common.{
  String, ℕ, ◌∙◌, ap, Bool-cases, inl, inr, ◌≡◌, refl, true, false, ◌&&◌, List, [], ◌∷◌, Option,
  none, some, ltb, sat_suc, if◌then◌else◌, head?, arith,
}
use text.Mathlib.Text.{◌==◌ as str_eq}
use logmon_mcp.Filter.{
  SeqOp, BookmarkOp, Qualifier, seq_filter, bookmark_filter, cursor_seq, cursor_filter, qualifiers,
}
use logmon_mcp.Bookmarks.Resolver.{ResolvedFilter}
use logmon_mcp.Bookmarks.{
  Bookmark, BookmarkStore, CursorCommit, new, add_at, sweep, rename_session,
  cursor_read_and_advance_at, commit,
}
use logmon_mcp.Bookmarks.Name.{is_valid_bookmark_name, all_name_bytes, is_name_byte, qualified}
use logmon_mcp.Bookmarks.Map.{get, insert}
use logmon_mcp.Bookmarks.Store.{IsStore, Step, adds, step, step-IsStore}
use logmon_mcp.Bookmarks.Laws.{get-sweep, Added, add_at-get}
use logmon_mcp.Bookmarks.RenameRounds.{moved_to}
use logmon_mcp.Bookmarks.Renames.{of_session, get-rename_session}
use logmon_mcp.Bookmarks.Cursors.{
  On, Forward, cursor_read_and_advance_at-On, commit-Forward, commit-once,
}

new-IsStore : IsStore new.bookmarks
unfolding new
new-IsStore = record { unique = tt; keyed = tt }

abbrev adding : Step
adding = adds "claude" "before-run" 40 2 none false 1_000

abbrev sample : BookmarkStore
sample = step head? new adding

step-IsStore_example : IsStore (step head? new adding).bookmarks
step-IsStore_example = step-IsStore head? new adding tt new-IsStore

sample-IsStore : IsStore sample.bookmarks
sample-IsStore = step-IsStore head? new adding tt new-IsStore

get-sweep_example :
    get (sweep head? sample 50 45).bookmarks "claude/before-run"
    ≡ elim (get sample.bookmarks "claude/before-run") as (λ _. Option Bookmark) [
      | none ↦ none
      | some b ↦ if ltb (sat_suc b.seq) 50 && ltb (sat_suc b.seq) 45 then none else some b
    ]
get-sweep_example = get-sweep head? sample 50 45 "claude/before-run" sample-IsStore

add_at-get_example :
    Added sample "claude" "tail" 60 true "claude/tail"
      (add_at sample "claude" "tail" 60 3 none true 2_000)
add_at-get_example = add_at-get sample "claude" "tail" 60 3 none true 2_000 "claude/tail"

abbrev second : String → ℕ
second String.[] = 0
second (String.◌∷◌ c s) = elim s [ String.[] ↦ 0 | String.◌∷◌ d _ ↦ code d ]

second_of_codex : (s : String) → second (String.◌++◌ "codex" s) ≡ 111
second_of_codex s =
    ap second (cons-append "c" "odex" s ∙ ap (String.◌∷◌ "c") (cons-append "o" "dex" s))

none_of_codex : (n : String) → get sample.bookmarks (qualified "codex" n) ≡ none
unfolding get insert step add_at new qualified is_valid_bookmark_name all_name_bytes is_name_byte
none_of_codex n = elim (Bool-cases (str_eq "claude/before-run" (qualified "codex" n))) [
  | inr h ↦ rw h refl
  | inl h ↦
      let same = (eq_iff "claude/before-run" (qualified "codex" n)).0 h in
      let l_is_o : 108 ≡ 111 = ap second same ∙ second_of_codex (String.◌++◌ "/" n) in
      absurd (omega (arith, l_is_o))
]

get-rename_session_example :
    ((k : String) (b : Bookmark)
      → get sample.bookmarks k ≡ some b
      → str_eq b.session "claude" ≡ true
      → get (rename_session sample "claude" "codex").0.bookmarks (qualified "codex" b.name)
        ≡ some (moved_to "codex" b))
    × ((k : String) (b : Bookmark)
        → get sample.bookmarks k ≡ some b
        → str_eq b.session "claude" ≡ false
        → get (rename_session sample "claude" "codex").0.bookmarks k ≡ some b)
    × (of_session "claude" (rename_session sample "claude" "codex").0.bookmarks ≡ false)
get-rename_session_example =
    get-rename_session sample "claude" "codex" sample-IsStore refl none_of_codex

-- A cursor that two readers open.
abbrev opened : BookmarkStore × CursorCommit
opened = cursor_read_and_advance_at sample "claude" "tail" 4 3_000

abbrev handle : CursorCommit
handle = opened.1

handle-On : On handle opened.0.bookmarks
handle-On = cursor_read_and_advance_at-On sample "claude" "tail" 4 3_000

handle_seq : handle.lower_bound ≡ 0
unfolding cursor_read_and_advance_at step add_at new get insert qualified is_valid_bookmark_name
    all_name_bytes is_name_byte
handle_seq = refl

commit-Forward_example : Forward sample.bookmarks (commit handle sample.bookmarks 90 5 4_000)
commit-Forward_example =
    commit-Forward handle sample.bookmarks 90 5 4_000 (omega (arith, handle_seq))

commit-once_example :
    commit handle (commit handle opened.0.bookmarks 90 5 4_000) 70 5 5_000
    ≡ commit handle opened.0.bookmarks 90 5 4_000
commit-once_example =
    commit-once handle handle opened.0.bookmarks 90 70 5 5 4_000 5_000 handle-On handle-On refl
      (ground (arith, handle_seq))

-- A filter that reads from a bookmark on through a cursor.
abbrev asked : List Qualifier
asked = bookmark_filter BookmarkOp.gte "before-run" ∷ cursor_filter "tail" ∷ []

abbrev resolution : ResolvedFilter
resolution = record {
  filter = qualifiers (seq_filter SeqOp.gt 40 ∷ cursor_seq handle.lower_bound ∷ []);
  cursor_commit = some handle;
}
