-- ===== src/Bookmarks/Resolution.antt =====
-- What a resolution gives.
use text.Mathlib.Text.{◌==◌ as str_eq}
use logmon_mcp.Common.{ℕ, ◌≡◌, false, Option, none, some, List, String, any}
use logmon_mcp.Filter.{Qualifier, is_bookmark_qualifier}
use logmon_mcp.Bookmarks.{BookmarkStore, CursorCommit}
use logmon_mcp.Bookmarks.Cursors.{On}
use logmon_mcp.Bookmarks.Resolver.{Rewritten}

-- Without a cursor the store is as it was; with one, its handle is on the bookmark under its name.
abbrev pub Opened : Option CursorCommit → BookmarkStore → BookmarkStore → Type 0
Opened none s t = t ≡ s
Opened (some c) s t = On c t.bookmarks

-- A rewritten qualifier, and the store after it.
abbrev Clean : BookmarkStore → BookmarkStore → Rewritten → Type 0
Clean s t r = (is_bookmark_qualifier r.0 ≡ false) × Opened r.1 s t

module _ (current_session : String) (late_counter now : ℕ) where
  -- The whole list, and the store after it.
  abbrev AllClean : BookmarkStore → BookmarkStore → List Qualifier × Option CursorCommit → Type 0
  AllClean s t r = (any is_bookmark_qualifier r.0 ≡ false) × Opened r.1 s t
