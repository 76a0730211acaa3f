-- ===== src/Bookmarks/RenameRounds.antt =====
-- Where `rename_all` takes a bookmark, round by round.

use text.Mathlib.Text.{◌==◌ as str_eq}
use text.Mathlib.TextPositions.{eq_refl}
use text.Mathlib.TextEquality.{eq_iff}
use text.Mathlib.TextLemmas.{append_cancel_left}
use mathlib.Core.Bool.{true≢false}
use Prim.Native.String
use logmon_mcp.Common.{
  ◌≡◌, ◌∙◌, refl, ap, sym, true, false, some, List, [], ◌∷◌, String, any, arith, Option-cases,
  Bool-cases, inl, inr,
}
use logmon_mcp.Bookmarks.{Bookmark, Bookmarks, rename_all}
use logmon_mcp.Bookmarks.Name.{qualified}
use logmon_mcp.Bookmarks.Map.{get, insert, remove, get-insert, get-remove, str_eq-sym, same_key}

-- A bookmark under another session.
abbrev pub moved_to : String → Bookmark → Bookmark
moved_to to b = record b { session = to; qualified_name = qualified to b.name }

abbrev pub In : String → List String → Type 0
In k keys = any (λ r. str_eq k r) keys ≡ true

-- No key of a list is under the new session.
abbrev pub Free : String → List String → Type 0
Free to keys = (k : String) → In k keys → (n : String) → str_eq (qualified to n) k ≡ false

pub qualified_names :
    (to a b : String) → str_eq a b ≡ false → str_eq (qualified to a) (qualified to b) ≡ false
unfolding qualified
qualified_names to a b d = elim (Bool-cases (str_eq (qualified to a) (qualified to b))) [
  | inr n ↦ n
  | inl y ↦
      let same : a ≡ b = append_cancel_left "/" a b (
        append_cancel_left to (String.◌++◌ "/" a) (String.◌++◌ "/" b)
          ((eq_iff (qualified to a) (qualified to b)).0 y)) in
      absurd (true≢false (sym ((eq_iff a b).1 same) ∙ d))
]

-- What a round finds under a key that is not the new one was there.
pub found_before :
    (m : Bookmarks) (to key k : String) (b c : Bookmark)
    → str_eq (qualified to b.name) k ≡ false
    → get (insert (remove m key) (qualified to b.name) (moved_to to b)) k ≡ some c
    → get m k ≡ some c
found_before m to key k b c d g = ground (
  arith,
  get-insert (remove m key) (qualified to b.name) (moved_to to b) k,
  d,
  g,
  get-remove m key k,
)

-- What has its new name stays there while the others move.
pub rename_all-settled :
    (to : String) (keys : List String) (m : Bookmarks) (n : String)
    → Free to keys
    → ((k : String) (b : Bookmark) → In k keys → get m k ≡ some b → str_eq b.name n ≡ false)
    → get (rename_all to keys m) (qualified to n) ≡ get m (qualified to n)
unfolding rename_all
rename_all-settled to [] m n f h = refl
rename_all-settled to (key ∷ keys) m n f h = elim (Option-cases (get m key)) [
  | inl e ↦
      rw (e, rename_all)
        (rename_all-settled to keys m n (λ k i. f k (ground (arith, i)))
          (λ k b i. h k b (ground (arith, i))))
  | inr (b, e) ↦
      let here : In key (key ∷ keys) = ground (arith, eq_refl key) in
      let apart = qualified_names to b.name n (h key b here e) in
      rw (e, rename_all)
        (rename_all-settled to keys (insert (remove m key) (qualified to b.name) (moved_to to b)) n
            (λ k i. f k (ground (arith, i)))
            (λ k c i g.
              let there : In k (key ∷ keys) = ground (arith, i) in
              h k c there (found_before m to key k b c (f k there b.name) g))
          ∙ get-insert (remove m key) (qualified to b.name) (moved_to to b) (qualified to n)
          ∙ ground (
            arith,
            apart,
            get-remove m key (qualified to n),
            f key here n,
            str_eq-sym key (qualified to n),
          ))
]

-- What is not listed stays where it is.
pub rename_all-kept :
    (to : String) (keys : List String) (m : Bookmarks) (k : String)
    → any (λ r. str_eq k r) keys ≡ false
    → ((n : String) → str_eq (qualified to n) k ≡ false)
    → get (rename_all to keys m) k ≡ get m k
unfolding rename_all
rename_all-kept to [] m k h f = refl
rename_all-kept to (key ∷ keys) m k h f = elim (Option-cases (get m key)) [
  | inl e ↦ rw (e, rename_all) (rename_all-kept to keys m k (ground (arith, h)) f)
  | inr (b, e) ↦
      rw (e, rename_all)
        (rename_all-kept to keys (insert (remove m key) (qualified to b.name) (moved_to to b)) k
            (ground (arith, h)) f
          ∙ get-insert (remove m key) (qualified to b.name) (moved_to to b) k
          ∙ ground (arith, f b.name, get-remove m key k, str_eq-sym key k, h))
]

-- A listed bookmark goes to its new name, when no other one listed has its name.
pub rename_all-moved :
    (to : String) (keys : List String) (m : Bookmarks) (k : String) (b : Bookmark)
    → Free to keys
    → ((j : String) (c : Bookmark)
        → In j keys
        → get m j ≡ some c
        → str_eq j k ≡ false
        → str_eq c.name b.name ≡ false)
    → In k keys
    → get m k ≡ some b
    → get (rename_all to keys m) (qualified to b.name) ≡ some (moved_to to b)
unfolding rename_all
rename_all-moved to [] m k b f h i g = cc
rename_all-moved to (key ∷ keys) m k b f h i g = elim (Bool-cases (str_eq key k)) [
  | inl same ↦
      let at_key : get m key ≡ some b = ap (get m) ((eq_iff key k).0 same) ∙ g in
      let next : Bookmarks = insert (remove m key) (qualified to b.name) (moved_to to b) in
      rw (at_key, rename_all)
        (rename_all-settled to keys next b.name (λ j l. f j (ground (arith, l)))
            (λ j c l e.
              let there : In j (key ∷ keys) = ground (arith, l) in
              elim (Bool-cases (str_eq j k)) [
                | inr other ↦ h j c there (found_before m to key j b c (f j there b.name) e) other
                | inl again ↦ absurd (
                    ground (
                      arith,
                      e,
                      get-insert (remove m key) (qualified to b.name) (moved_to to b) j,
                      f j there b.name,
                      get-remove m key j,
                      same_key j k key again,
                      same,
                      str_eq-sym key k,
                      str_eq-sym key j,
                    ))
              ])
          ∙ get-insert (remove m key) (qualified to b.name) (moved_to to b) (qualified to b.name)
          ∙ ground (arith, eq_refl (qualified to b.name)))
  | inr other ↦
      let later : In k keys = ground (arith, i, other, str_eq-sym key k) in
      elim (Option-cases (get m key)) [
        | inl e ↦
            rw (e, rename_all)
              (rename_all-moved to keys m k b (λ j l. f j (ground (arith, l)))
                (λ j c l. h j c (ground (arith, l))) later g)
        | inr (w, e) ↦
            rw (e, rename_all)
              (rename_all-moved to keys _ k b (λ j l. f j (ground (arith, l)))
                (λ j c l q.
                  let there : In j (key ∷ keys) = ground (arith, l) in
                  h j c there (found_before m to key j w c (f j there w.name) q))
                later
                (get-insert (remove m key) (qualified to w.name) (moved_to to w) k
                  ∙ ground (arith, f k i w.name, get-remove m key k, other, g)))
      ]
]
