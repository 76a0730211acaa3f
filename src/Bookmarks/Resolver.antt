-- ===== src/Bookmarks/Resolver.antt =====
-- crates/core/src/filter/bookmark_resolver.rs: bookmark and cursor qualifiers, rewritten to seqs.
-- `split_qualified` panics on a name without a slash; the panic is an
-- outcome of its own. Opening a cursor may add it to the store, which is given out with the outcome.
use text.Mathlib.Text.{◌==◌ as str_eq}
use logmon_mcp.Common.{ℕ, not, Option, none, some, List, [], ◌∷◌, String, if◌then◌else◌}
use logmon_mcp.Filter.{
  BookmarkOp, SeqOp, Qualifier, bookmark_filter, cursor_filter, seq_filter, cursor_seq,
  ParsedFilter, match_all, match_none, qualifiers,
}
use logmon_mcp.Filter.Parser.{split_first}
use logmon_mcp.Bookmarks.{BookmarkStore, CursorCommit, cursor_read_and_advance_at}
use logmon_mcp.Bookmarks.Map.{get}
use logmon_mcp.Bookmarks.Name.{qualify}

pub data BookmarkResolutionError : Type 0 where
  not_found cross_session_cursor_advance : String → BookmarkResolutionError

pub data Outcome (A : Type 0) : Type 0 where
  done : A → Outcome A
  failed : BookmarkResolutionError → Outcome A
  panicked : Outcome A

pub record ResolvedFilter : Type 0 where
  pub filter : ParsedFilter
  pub cursor_commit : Option CursorCommit

unfoldable pub split_qualified : String → Option (String × String)
split_qualified qualified_name = split_first 47 qualified_name

abbrev seq_op : BookmarkOp → SeqOp
seq_op BookmarkOp.gte = SeqOp.gt
seq_op BookmarkOp.lte = SeqOp.lt

-- What a qualifier becomes, with the handle of a cursor.
abbrev pub Rewritten : Type 0
Rewritten = Qualifier × Option CursorCommit

module _ (current_session : String) (late_counter now : ℕ) where
  unfoldable pub resolve_bookmark : BookmarkStore → BookmarkOp → String → Outcome Rewritten
  resolve_bookmark s op name = elim (get s.bookmarks (qualify name current_session)) [
    | none ↦ failed (not_found (qualify name current_session))
    | some b ↦ done (seq_filter (seq_op op) b.seq, none)
  ]

  unfoldable pub open_cursor : BookmarkStore → String → String → BookmarkStore × Outcome Rewritten
  open_cursor s session name =
      let (t, c) = cursor_read_and_advance_at s session name late_counter now in
      (t, done (cursor_seq c.lower_bound, some c))

  unfoldable pub resolve_cursor : BookmarkStore → String → BookmarkStore × Outcome Rewritten
  resolve_cursor s name = elim (split_qualified (qualify name current_session)) [
    | none ↦ (s, panicked)
    | some (target_session, target_name) ↦
        if not (str_eq target_session current_session)
        then (s, failed (cross_session_cursor_advance (qualify name current_session)))
        else open_cursor s target_session target_name
  ]

  unfoldable pub resolve_one : BookmarkStore → Qualifier → BookmarkStore × Outcome Rewritten
  resolve_one s (bookmark_filter op name) = (s, resolve_bookmark s op name)
  resolve_one s (cursor_filter name) = resolve_cursor s name
  resolve_one s other = (s, done (other, none))

  abbrev pub later : Option CursorCommit → Option CursorCommit → Option CursorCommit
  later first none = first
  later first (some c) = some c

  -- What is made of a rewritten qualifier and of the rest of the loop.
  abbrev pub and_then :
      Rewritten
      → Outcome (List Qualifier × Option CursorCommit)
      → Outcome (List Qualifier × Option CursorCommit)
  and_then (q, c) (done (qs, d)) = done (q ∷ qs, later c d)
  and_then (q, c) (failed e) = failed e
  and_then (q, c) panicked = panicked

  unfoldable pub resolve_all :
      BookmarkStore
      → List Qualifier
      → BookmarkStore × Outcome (List Qualifier × Option CursorCommit)
  resolve_all s [] = (s, done ([], none))
  resolve_all s (q ∷ qs) =
      let (t, one) = resolve_one s q in
      elim one [
        | failed e ↦ (t, failed e)
        | panicked ↦ (t, panicked)
        | done r ↦ let (u, rest) = resolve_all t qs in (u, and_then r rest)
      ]

  abbrev pub resolved : Outcome (List Qualifier × Option CursorCommit) → Outcome ResolvedFilter
  resolved (done (qs, c)) = done (record { filter = qualifiers qs; cursor_commit = c })
  resolved (failed e) = failed e
  resolved panicked = panicked

  unfoldable pub resolve_bookmarks_at :
      BookmarkStore → ParsedFilter → BookmarkStore × Outcome ResolvedFilter
  resolve_bookmarks_at s match_all = (s, done (record { filter = match_all; cursor_commit = none }))
  resolve_bookmarks_at s match_none =
      (s, done (record { filter = match_none; cursor_commit = none }))
  resolve_bookmarks_at s (qualifiers qs) = let (t, out) = resolve_all s qs in (t, resolved out)
