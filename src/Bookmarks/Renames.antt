-- ===== src/Bookmarks/Renames.antt =====
-- Where the bookmarks of a store are after the rename of a session.

use text.Mathlib.Text.{◌==◌ as str_eq}
use text.Mathlib.TextPositions.{eq_refl}
use text.Mathlib.TextEquality.{eq_iff}
use mathlib.Core.Bool.{true≢false}
use logmon_mcp.Common.{
  ◌≡◌, ◌∙◌, refl, ap, sym, subst, Bool, true, false, none, some, List, [], ◌∷◌, map, String, any,
  keep, All, All-imp, arith, Option-cases, Bool-cases, inl, inr,
}
use logmon_mcp.Bookmarks.{Bookmark, Bookmarks, BookmarkStore, rename_all, rename_session}
use logmon_mcp.Bookmarks.Name.{qualified}
use logmon_mcp.Bookmarks.Map.{get, remove, has_key, Unique, insert-All, has_key-get, str_eq-sym}
use logmon_mcp.Bookmarks.RenameRounds.{moved_to, In, rename_all-kept, rename_all-moved}
use logmon_mcp.Bookmarks.Store.{IsStore, get-Keyed}

-- Every bookmark of a session is listed.
abbrev Listed : String → List String → String × Bookmark → Type 0
Listed old keys (k, b) = str_eq b.session old ≡ true → any (λ r. str_eq k r) keys ≡ true

abbrev pub of_session : String → Bookmarks → Bool
of_session old m = any (λ (k, b). str_eq b.session old) m

none_of_session : (old : String) (m : Bookmarks) → All (Listed old []) m → of_session old m ≡ false
none_of_session old [] h = refl
none_of_session old ((k, b) ∷ m) h = ground (arith, none_of_session old m h.1, h.0)

removed-Listed :
    (old key : String) (keys : List String) (m : Bookmarks)
    → All (Listed old (key ∷ keys)) m
    → All (Listed old keys) (remove m key)
unfolding remove
removed-Listed old key keys [] h = tt
removed-Listed old key keys ((k, b) ∷ m) h = elim (Bool-cases (str_eq k key)) [
  | inl same ↦ rw same (removed-Listed old key keys m h.1)
  | inr other ↦ rw other (λ g. ground (arith, h.0 g, other), removed-Listed old key keys m h.1)
]

unlisted :
    (old key : String) (keys : List String) (m : Bookmarks)
    → has_key key m ≡ false
    → All (Listed old (key ∷ keys)) m
    → All (Listed old keys) m
unlisted old key keys [] a h = tt
unlisted old key keys ((k, b) ∷ m) a h =
    (λ g. ground (arith, h.0 g, a), unlisted old key keys m (ground arith) h.1)

rename_all-none :
    (old to : String) (keys : List String) (m : Bookmarks)
    → str_eq to old ≡ false
    → All (Listed old keys) m
    → of_session old (rename_all to keys m) ≡ false
unfolding rename_all
rename_all-none old to [] m d h = none_of_session old m h
rename_all-none old to (key ∷ keys) m d h = elim (Option-cases (get m key)) [
  | inl e ↦
      rw (e, rename_all)
        (rename_all-none old to keys m d (unlisted old key keys m (has_key-get m key e) h))
  | inr (b, e) ↦
      rw (e, rename_all)
        (rename_all-none old to keys _ d (
          insert-All (Listed old keys) (remove m key) (qualified to b.name) _
            (λ g. ground (arith, d, g)) (removed-Listed old key keys m h)))
]

abbrev names_of : String → Bookmarks → List String
names_of old m = map (λ (k, b). k) (keep (λ (k, b). str_eq b.session old) m)

Listed-names_of : (old : String) (m : Bookmarks) → All (Listed old (names_of old m)) m
Listed-names_of old [] = tt
Listed-names_of old ((k, b) ∷ m) = elim (Bool-cases (str_eq b.session old)) [
  | inl here ↦
      let first : names_of old ((k, b) ∷ m) ≡ k ∷ names_of old m = rw here refl in
      subst (λ ks. All (Listed old ks) ((k, b) ∷ m)) (sym first)
        (
          λ g. ground (arith, eq_refl k),
          All-imp {P = Listed old (names_of old m)} {Q = Listed old (k ∷ names_of old m)}
              (λ x h g. ground (arith, h g)) m (Listed-names_of old m),
        )
  | inr other ↦
      let rest : names_of old ((k, b) ∷ m) ≡ names_of old m = rw other refl in
      subst (λ ks. All (Listed old ks) ((k, b) ∷ m)) (sym rest)
        (λ g. ground (arith, g, other), Listed-names_of old m)
]

rename_session-none :
    (s : BookmarkStore) (old to : String)
    → str_eq old to ≡ false
    → of_session old (rename_session s old to).0.bookmarks ≡ false
unfolding rename_session
rename_session-none s old to d =
    rw (d, rename_session)
      (rename_all-none old to _ s.bookmarks (str_eq-sym to old ∙ d)
        (Listed-names_of old s.bookmarks))

names_of-has_key :
    (old : String) (m : Bookmarks) (k : String) → In k (names_of old m) → has_key k m ≡ true
names_of-has_key old [] k i = cc
names_of-has_key old ((j, w) ∷ m) k i = ground (arith, names_of-has_key old m k, i, str_eq-sym j k)

session-names_of :
    (old : String) (m : Bookmarks) (k : String) (b : Bookmark)
    → Unique m
    → In k (names_of old m)
    → get m k ≡ some b
    → str_eq b.session old ≡ true
unfolding get
session-names_of old [] k b u i g = cc
session-names_of old ((j, w) ∷ m) k b u i g = elim (Bool-cases (str_eq j k)) [
  | inl same ↦ ground (
    arith,
    same,
    g,
    i,
    names_of-has_key old m k,
    u.0,
    ap (λ x. has_key x m) ((eq_iff j k).0 same),
  )
  | inr other ↦
      session-names_of old m k b u.1 (ground (arith, i, other, str_eq-sym j k))
        (rw (other, get) at g)
]

names_of-get :
    (old : String) (m : Bookmarks) (k : String) (b : Bookmark)
    → get m k ≡ some b
    → str_eq b.session old ≡ true
    → In k (names_of old m)
unfolding get
names_of-get old [] k b g h = cc
names_of-get old ((j, w) ∷ m) k b g h = ground (arith, g, h, str_eq-sym j k, names_of-get old m k b)

-- Renaming a session to one that has no bookmark takes each of its bookmarks to the same name under
-- the new session, all else about it as it was, and leaves every other bookmark where it is; none
-- is left of the old session.
pub get-rename_session :
    (s : BookmarkStore) (old to : String)
    → IsStore s.bookmarks
    → str_eq old to ≡ false
    → ((n : String) → get s.bookmarks (qualified to n) ≡ none)
    → ((k : String) (b : Bookmark)
        → get s.bookmarks k ≡ some b
        → str_eq b.session old ≡ true
        → get (rename_session s old to).0.bookmarks (qualified to b.name) ≡ some (moved_to to b))
      × ((k : String) (b : Bookmark)
          → get s.bookmarks k ≡ some b
          → str_eq b.session old ≡ false
          → get (rename_session s old to).0.bookmarks k ≡ some b)
      × (of_session old (rename_session s old to).0.bookmarks ≡ false)
unfolding rename_session
get-rename_session s old to v d none_there = (
  λ k b g h.
      rw (d, rename_session)
        (rename_all-moved to (names_of old s.bookmarks) s.bookmarks k b
          (λ j i. elim (Option-cases (get s.bookmarks j)) [
            | inl e ↦ absurd (
                true≢false
                  (sym (names_of-has_key old s.bookmarks j i) ∙ has_key-get s.bookmarks j e))
            | inr (c, e) ↦ not_there j c e
          ])
          (λ j c i e other. names_differ k b g h j c i e other)
          (names_of-get old s.bookmarks k b g h) g),
  λ k b g h.
      rw (d, rename_session)
        (rename_all-kept to (names_of old s.bookmarks) s.bookmarks k (unlisted_key k b g h)
            (not_there k b g)
          ∙ g),
  rename_session-none s old to d,
)
  where
    not_there :
        (k : String) (b : Bookmark)
        → get s.bookmarks k ≡ some b
        → (n : String) → str_eq (qualified to n) k ≡ false
    not_there k b g n = elim (Bool-cases (str_eq (qualified to n) k)) [
      | inr f ↦ f
      | inl y ↦
          let same : get s.bookmarks k ≡ none =
            ap (get s.bookmarks) (sym ((eq_iff (qualified to n) k).0 y)) ∙ none_there n in
          absurd (cc (same, g))
    ]

    unlisted_key :
        (k : String) (b : Bookmark)
        → get s.bookmarks k ≡ some b
        → str_eq b.session old ≡ false
        → any (λ r. str_eq k r) (names_of old s.bookmarks) ≡ false
    unlisted_key k b g h = elim (Bool-cases (any (λ r. str_eq k r) (names_of old s.bookmarks))) [
      | inr f ↦ f
      | inl y ↦ absurd (true≢false (sym (session-names_of old s.bookmarks k b v.unique y g) ∙ h))
    ]

    names_differ :
        (k : String) (b : Bookmark)
        → get s.bookmarks k ≡ some b
        → str_eq b.session old ≡ true
        → (j : String) (c : Bookmark) → In j (names_of old s.bookmarks)
        → get s.bookmarks j ≡ some c
        → str_eq j k ≡ false
        → str_eq c.name b.name ≡ false
    names_differ k b g h j c i e other = elim (Bool-cases (str_eq c.name b.name)) [
      | inr f ↦ f
      | inl y ↦
          let c_keyed = get-Keyed s.bookmarks j c v.keyed e in
          let b_keyed = get-Keyed s.bookmarks k b v.keyed g in
          let c_old : c.session ≡ old =
            (eq_iff c.session old).0 (session-names_of old s.bookmarks j c v.unique i e) in
          let b_old : b.session ≡ old = (eq_iff b.session old).0 h in
          let one_name : c.name ≡ b.name = (eq_iff c.name b.name).0 y in
          let same : j ≡ k =
            c_keyed.0
            ∙ c_keyed.1
            ∙ ap (λ x. qualified x c.name) (c_old ∙ sym b_old)
            ∙ ap (λ x. qualified b.session x) one_name
            ∙ sym b_keyed.1
            ∙ sym b_keyed.0 in
          absurd (true≢false (sym ((eq_iff j k).1 same) ∙ other))
    ]
