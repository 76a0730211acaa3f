-- ===== src/Bookmarks/Laws.antt =====
-- What a sweep and an addition do to the bookmarks.

use text.Mathlib.Text.{◌==◌ as str_eq}
use logmon_mcp.Common.{
  ℕ, ◌≡◌, ◌∙◌, refl, Bool, true, false, not, ◌&&◌, ◌||◌, Option, none, some, List, String, ltb,
  if◌then◌else◌, arith, Bool-cases, inl, inr, sat_suc,
}
use logmon_mcp.Filter.{evicted_below}
use logmon_mcp.Bookmarks.{Result, Bookmark, BookmarkStore, ok, err, should_evict, add_at, sweep}
use logmon_mcp.Bookmarks.Name.{is_valid_bookmark_name, qualified}
use logmon_mcp.Bookmarks.Map.{get, has_key, get-insert, get-retain}
use logmon_mcp.Bookmarks.Store.{IsStore}

-- A sweep takes exactly the bookmarks whose window both stores have lost the start of, and leaves
-- every other as it was.
pub get-sweep :
    (victim : List String → Option String) (s : BookmarkStore) (log_lost span_lost : ℕ) (q : String)
    → IsStore s.bookmarks
    → get (sweep victim s log_lost span_lost).bookmarks q ≡ elim (get s.bookmarks q) [
      | none ↦ none
      | some b ↦
          if ltb (sat_suc b.seq) log_lost && ltb (sat_suc b.seq) span_lost then none else some b
    ]
unfolding sweep should_evict evicted_below
get-sweep victim s log_lost span_lost q v =
    get-retain (λ (b : Bookmark). not (should_evict b.seq log_lost span_lost)) s.bookmarks q
      v.unique
    ∙ decided (get s.bookmarks q)
  where
    decided :
        (o : Option Bookmark)
        → (elim o as (λ _. Option Bookmark) [
          | none ↦ none
          | some b ↦ if not (should_evict b.seq log_lost span_lost) then some b else none
        ])
          ≡ elim o as (λ _. Option Bookmark) [
            | none ↦ none
            | some b ↦
                if ltb (sat_suc b.seq) log_lost && ltb (sat_suc b.seq) span_lost
                then none
                else some b
          ]
    decided none = refl
    decided (some b) = ground arith

-- What an addition must leave at a name `q`: of a refused one, the store as it was; of another, the
-- bookmark under its own name.
unfoldable pub Added :
    BookmarkStore
    → String
    → String
    → ℕ
    → Bool
    → String
    → BookmarkStore × Result (Bookmark × Bool)
    → Type 0
Added s session name seq replace q (t, err e) =
    ((not (is_valid_bookmark_name name)
        || (has_key (qualified session name) s.bookmarks && not replace))
      ≡ true)
    × (t ≡ s)
Added s session name seq replace q (t, ok (b, existed)) =
    ((not (is_valid_bookmark_name name)
        || (has_key (qualified session name) s.bookmarks && not replace))
      ≡ false)
    × (b.seq ≡ seq)
    × (b.floor ≡ seq)
    × (get t.bookmarks q
        ≡ (if str_eq (qualified session name) q then some b else get s.bookmarks q))

-- `add_at` refuses an invalid name, and a name in use unless it may replace, and then changes
-- nothing; else the bookmark is found under its name, at `seq` and with `seq` as its floor, and
-- every other name has what it had.
pub add_at-get :
    (s : BookmarkStore) (session name : String) (seq late_mark : ℕ) (description : Option String)
    (replace : Bool) (now : ℕ) (q : String)
    → Added s session name seq replace q
        (add_at s session name seq late_mark description replace now)
unfolding add_at Added
add_at-get s session name seq late_mark description replace now q =
    elim (Bool-cases (is_valid_bookmark_name name)) [
      | inr invalid ↦ rw (invalid, add_at) (ground (arith, invalid), refl)
      | inl valid ↦
          elim (Bool-cases (has_key (qualified session name) s.bookmarks && not replace)) [
            | inl taken ↦
                rw (valid, add_at) (rw (taken, add_at) (ground (arith, valid, taken), refl))
            | inr free ↦
                rw (valid, add_at)
                  (rw (free, add_at)
                    (
                      ground (arith, valid, free),
                      refl,
                      refl,
                      get-insert s.bookmarks (qualified session name) _ q,
                    ))
          ]
    ]
