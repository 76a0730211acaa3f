-- ===== src/Bookmarks/Store.antt =====
-- The bookmark store's invariant.

use text.Mathlib.Text.{◌==◌ as str_eq}
use text.Mathlib.TextEquality.{eq_iff}
use logmon_mcp.Common.{
  ℕ, ◌≡◌, refl, subst, some, ◌==◌, Bool, not, ◌&&◌, Option, List, [], ◌∷◌, String, keep, All,
  All-keep, Option-cases, Bool-cases, inl, inr,
}
use logmon_mcp.Bookmarks.{
  Bookmark, Bookmarks, BookmarkStore, add_at, remove_bookmark, sweep, clear_session, rename_all,
  rename_session, cursor_read_and_advance_at, CursorCommit, commit, insert_persisted,
}
use logmon_mcp.Bookmarks.Name.{is_valid_bookmark_name, qualified}
use logmon_mcp.Bookmarks.Map.{
  get, insert, remove, retain, has_key, Unique, keep-Unique, insert-Unique, insert-All,
}

-- A bookmark goes by its own qualified name, and no name is there twice.
abbrev pub Keyed : String × Bookmark → Type 0
Keyed (k, b) = (k ≡ b.qualified_name) × (b.qualified_name ≡ qualified b.session b.name)

pub record IsStore (m : Bookmarks) : Type 0 where
  pub unique : Unique m
  pub keyed : All Keyed m

insert-IsStore :
    (m : Bookmarks) (k : String) (b : Bookmark) → Keyed (k, b) → IsStore m → IsStore (insert m k b)
insert-IsStore m k b h v = record {
  unique = insert-Unique m k b v.unique;
  keyed = insert-All Keyed m k b h v.keyed;
}

keep-IsStore : (p : String × Bookmark → Bool) (m : Bookmarks) → IsStore m → IsStore (keep p m)
keep-IsStore p m v = record {
  unique = keep-Unique p m v.unique;
  keyed = All-keep Keyed p m v.keyed;
}

some-path : (x y : Bookmark) → some x ≡ some y → x ≡ y
some-path x y e = cc

pub get-Keyed :
    (m : Bookmarks) (k : String) (b : Bookmark) → All Keyed m → get m k ≡ some b → Keyed (k, b)
unfolding get
get-Keyed [] k b h g = cc
get-Keyed ((j, w) ∷ m) k b h g = elim (Bool-cases (str_eq j k)) [
  | inl y ↦
      let same : w ≡ b = some-path w b (rw (y, get) at g) in
      subst (λ x. Keyed (x, b)) ((eq_iff j k).0 y) (subst (λ x. Keyed (j, x)) same h.0)
  | inr n ↦ get-Keyed m k b h.1 (rw (n, get) at g)
]

rename_all-IsStore :
    (to : String) (keys : List String) (m : Bookmarks) → IsStore m → IsStore (rename_all to keys m)
unfolding rename_all remove
rename_all-IsStore to [] m v = v
rename_all-IsStore to (key ∷ keys) m v = elim (Option-cases (get m key)) [
  | inl h ↦ rw (h, rename_all) (rename_all-IsStore to keys m v)
  | inr (b, h) ↦
      rw (h, rename_all)
        (rename_all-IsStore to keys _
          (insert-IsStore _ (qualified to b.name) _ (refl, refl) (keep-IsStore _ m v)))
]

-- The steps of the bookmark store, a cursor's commit in a step of its own, and the insertion of a
-- bookmark that was kept on disk.
pub data Step : Type 0 where
  adds : String → String → ℕ → ℕ → Option String → Bool → ℕ → Step
  removes clears : String → Step
  sweeps : ℕ → ℕ → Step
  renames : String → String → Step
  opens : String → String → ℕ → ℕ → Step
  commits : CursorCommit → ℕ → ℕ → ℕ → Step
  restores : Bookmark → Step

unfoldable pub step : (List String → Option String) → BookmarkStore → Step → BookmarkStore
step victim s (adds session name seq mark about replace now) =
    (add_at s session name seq mark about replace now).0
step victim s (removes q) = (remove_bookmark s q).0
step victim s (clears session) = (clear_session s session).0
step victim s (sweeps l r) = sweep victim s l r
step victim s (renames old to) = (rename_session s old to).0
step victim s (opens session name counter now) =
    (cursor_read_and_advance_at s session name counter now).0
step victim s (commits c seq mark now) = record s { bookmarks = commit c s.bookmarks seq mark now }
step victim s (restores b) = insert_persisted s b

-- A handle and a kept bookmark go by their own qualified name.
abbrev pub Named : Step → Type 0
Named (commits c seq mark now) = c.qualified_name ≡ qualified c.session c.name
Named (restores b) = b.qualified_name ≡ qualified b.session b.name
Named _ = Unit {0}

commit-IsStore :
    (c : CursorCommit) (m : Bookmarks) (seq mark now : ℕ)
    → c.qualified_name ≡ qualified c.session c.name
    → IsStore m
    → IsStore (commit c m seq mark now)
unfolding commit
commit-IsStore c m seq mark now n v =
    elim (Bool-cases (seq == c.lower_bound && mark == c.late_mark)) [
      | inl still ↦ rw (still, commit) v
      | inr moved ↦ elim (Option-cases (get m c.qualified_name)) [
        | inl gone ↦ elim (Bool-cases (seq == c.lower_bound)) [
          | inl y ↦ rw (moved, commit) (rw (gone, commit) (rw (y, commit) v))
          | inr n' ↦
              rw (moved, commit)
                (rw (gone, commit)
                  (rw (n', commit) (insert-IsStore m c.qualified_name _ (refl, n) v)))
        ]
        | inr (b, found) ↦
            elim (Bool-cases (b.seq == c.lower_bound && b.late_mark == c.late_mark)) [
              | inr other ↦ rw (moved, commit) (rw (found, commit) (rw (other, commit) v))
              | inl same ↦
                  rw (moved, commit)
                    (rw (found, commit)
                      (rw (same, commit)
                        (insert-IsStore m c.qualified_name _
                          (get-Keyed m c.qualified_name b v.keyed found) v)))
            ]
      ]
    ]

add_at-IsStore :
    (s : BookmarkStore) (session name : String) (seq mark : ℕ) (about : Option String)
    (replace : Bool) (now : ℕ)
    → IsStore s.bookmarks
    → IsStore (add_at s session name seq mark about replace now).0.bookmarks
unfolding add_at
add_at-IsStore s session name seq mark about replace now v =
    elim (Bool-cases (is_valid_bookmark_name name)) [
      | inr invalid ↦ rw (invalid, add_at) v
      | inl valid ↦
          elim (Bool-cases (has_key (qualified session name) s.bookmarks && not replace)) [
            | inl taken ↦ rw (valid, add_at) (rw (taken, add_at) v)
            | inr free ↦
                rw (valid, add_at)
                  (rw (free, add_at) (insert-IsStore s.bookmarks _ _ (refl, refl) v))
          ]
    ]

-- Every step, of a handle or a kept bookmark that goes by its own qualified name, keeps each
-- bookmark under its own qualified name, and no name twice.
pub step-IsStore :
    (victim : List String → Option String) (s : BookmarkStore) (x : Step)
    → Named x
    → IsStore s.bookmarks
    → IsStore (step victim s x).bookmarks
unfolding step insert_persisted remove_bookmark clear_session sweep rename_session
    cursor_read_and_advance_at retain remove
step-IsStore victim s (adds session name seq mark about replace now) n v =
    add_at-IsStore s session name seq mark about replace now v
step-IsStore victim s (removes q) n v = elim (Bool-cases (has_key q s.bookmarks)) [
  | inl h ↦ rw (h, step) (keep-IsStore _ s.bookmarks v)
  | inr h ↦ rw (h, step) v
]
step-IsStore victim s (clears session) n v = keep-IsStore _ s.bookmarks v
step-IsStore victim s (sweeps l r) n v = keep-IsStore _ s.bookmarks v
step-IsStore victim s (renames old to) n v = elim (Bool-cases (str_eq old to)) [
  | inl h ↦ rw (h, step) v
  | inr h ↦ rw (h, step) (rename_all-IsStore to _ s.bookmarks v)
]
step-IsStore victim s (opens session name counter now) n v =
    elim (Option-cases (get s.bookmarks (qualified session name))) [
      | inl h ↦ rw (h, step) (insert-IsStore s.bookmarks _ _ (refl, refl) v)
      | inr (b, h) ↦ rw (h, step) v
    ]
step-IsStore victim s (commits c seq mark now) n v = commit-IsStore c s.bookmarks seq mark now n v
step-IsStore victim s (restores b) n v = insert-IsStore s.bookmarks b.qualified_name b (refl, n) v
