-- ===== src/Bookmarks/Cursors.antt =====
-- Cursors: a read's commit lands only over the position that the read started from.
use text.Mathlib.Text.{◌==◌ as str_eq}
use text.Mathlib.TextPositions.{eq_refl}
use text.Mathlib.TextEquality.{eq_iff}
use logmon_mcp.Common.{
  ℕ, ◌≤◌, ◌≡◌, ◌≢◌, ◌∙◌, refl, sym, ap, true, false, ◌&&◌, none, some, String, ◌==◌, arith,
  Option-cases, Bool-cases, inl, inr,
}
use logmon_mcp.Bookmarks.{
  Bookmark, Bookmarks, BookmarkStore, CursorCommit, fresh_cursor, cursor_read_and_advance_at,
  commit,
}
use logmon_mcp.Bookmarks.Name.{qualified}
use logmon_mcp.Bookmarks.Map.{get, insert, get-insert}

-- The bookmark under a name, where a handle on it was taken.
pub record On (c : CursorCommit) (m : Bookmarks) : Type 0 where
  pub bookmark : Bookmark
  pub held : get m c.qualified_name ≡ some bookmark
  pub seq_eq : c.lower_bound ≡ bookmark.seq
  pub mark_eq : c.late_mark ≡ bookmark.late_mark
  pub floor_eq : c.floor ≡ bookmark.floor

get_inserted : (m : Bookmarks) (k : String) (b : Bookmark) → get (insert m k b) k ≡ some b
get_inserted m k b = ground (arith, get-insert m k b k, eq_refl k)

-- Opening a cursor leaves a bookmark under its name, with the handle on that bookmark's position.
pub cursor_read_and_advance_at-On :
    (s : BookmarkStore) (session name : String) (late_counter now : ℕ)
    → (let (t, c) = cursor_read_and_advance_at s session name late_counter now in On c t.bookmarks)
unfolding cursor_read_and_advance_at
cursor_read_and_advance_at-On s session name late_counter now =
    elim (Option-cases (get s.bookmarks (qualified session name))) [
      | inl h ↦
          rw (h, cursor_read_and_advance_at)
            (record {
              bookmark = fresh_cursor session name late_counter now;
              held = get_inserted s.bookmarks (qualified session name) _;
              seq_eq = refl;
              mark_eq = refl;
              floor_eq = refl;
            })
      | inr (b, h) ↦
          rw (h, cursor_read_and_advance_at)
            (record { bookmark = b; held = h; seq_eq = refl; mark_eq = refl; floor_eq = refl })
    ]

-- A bookmark that was there is there still, not moved back, its floor unchanged.
abbrev pub Forward : Bookmarks → Bookmarks → Type 0
Forward m n =
    (q : String) (b : Bookmark)
    → get m q ≡ some b
    → (d : Bookmark) × (get n q ≡ some d) × (b.seq ≤ d.seq) × (d.floor ≡ b.floor)

none≢some : {b : Bookmark} → none ≢ some b
none≢some h = cc

insert-Forward :
    (m : Bookmarks) (k : String) (new : Bookmark)
    → ((b : Bookmark) → get m k ≡ some b → (b.seq ≤ new.seq) × (new.floor ≡ b.floor))
    → Forward m (insert m k new)
insert-Forward m k new f q b h = elim (Bool-cases (str_eq k q)) [
  | inl same ↦
      let k-eq : k ≡ q = (eq_iff k q).0 same in
      let r = f b (rw k-eq h) in (new, get-insert m k new q ∙ rw same refl, r.0, r.1)
  | inr other ↦ (b, get-insert m k new q ∙ rw other h, omega arith, refl)
]

-- Whatever the store has become since a read began, committing the read at or past the position it
-- began at moves no bookmark back and drops none.
pub commit-Forward :
    (c : CursorCommit) (m : Bookmarks) (seq late_mark now : ℕ)
    → c.lower_bound ≤ seq
    → Forward m (commit c m seq late_mark now)
unfolding commit
commit-Forward c m seq late_mark now h =
    elim (Bool-cases (seq == c.lower_bound && late_mark == c.late_mark)) [
      | inl still ↦ rw (still, commit) (λ q b g. (b, g, omega arith, refl))
      | inr moved ↦ elim (Option-cases (get m c.qualified_name)) [
        | inl gone ↦ elim (Bool-cases (seq == c.lower_bound)) [
          | inl same ↦
              rw (moved, commit)
                (rw (gone, commit) (rw (same, commit) (λ q b g. (b, g, omega arith, refl))))
          | inr past ↦
              rw (moved, commit)
                (rw (gone, commit)
                  (rw (past, commit)
                    (insert-Forward m c.qualified_name _
                      (λ b g. absurd (none≢some (sym gone ∙ g))))))
        ]
        | inr (d, found) ↦
            elim (Bool-cases (d.seq == c.lower_bound && d.late_mark == c.late_mark)) [
              | inl unchanged ↦
                  rw (moved, commit)
                    (rw (found, commit)
                      (rw (unchanged, commit)
                        (insert-Forward m c.qualified_name _
                          (λ b g. ground (arith, found, g, unchanged, h)))))
              | inr changed ↦
                  rw (moved, commit)
                    (rw (found, commit) (rw (changed, commit) (λ q b g. (b, g, omega arith, refl))))
            ]
      ]
    ]

-- A commit over the position that the read began at.
commit_lands :
    (c : CursorCommit) (m : Bookmarks) (b : Bookmark) (s k now : ℕ)
    → get m c.qualified_name ≡ some b
    → (s == c.lower_bound && k == c.late_mark) ≡ false
    → (b.seq == c.lower_bound && b.late_mark == c.late_mark) ≡ true
    → commit c m s k now ≡ insert m c.qualified_name (record b { seq = s; late_mark = k })
unfolding commit
commit_lands c m b s k now found moved unchanged =
    rw (moved, commit) (rw (found, commit) (rw (unchanged, commit) refl))

-- A commit over another position.
commit_stale :
    (c : CursorCommit) (m : Bookmarks) (b : Bookmark) (s k now : ℕ)
    → get m c.qualified_name ≡ some b
    → (b.seq == c.lower_bound && b.late_mark == c.late_mark) ≡ false
    → commit c m s k now ≡ m
unfolding commit
commit_stale c m b s k now found changed =
    elim (Bool-cases (s == c.lower_bound && k == c.late_mark)) [
      | inl still ↦ rw (still, commit) refl
      | inr moved ↦ rw (moved, commit) (rw (found, commit) (rw (changed, commit) refl))
    ]

-- Of two reads of a cursor that began at the same position, the commit of the second changes
-- nothing once the first has moved the cursor.
pub commit-once :
    (c d : CursorCommit) (m : Bookmarks) (s t k l now later : ℕ)
    → On c m
    → On d m
    → d.qualified_name ≡ c.qualified_name
    → (s == c.lower_bound && k == c.late_mark) ≡ false
    → commit d (commit c m s k now) t l later ≡ commit c m s k now
commit-once c d m s t k l now later on_c on_d same moved =
    let b = on_c.bookmark in
    let b' : Bookmark = record b { seq = s; late_mark = k } in
    let both : on_d.bookmark ≡ b = some-inj (sym on_d.held ∙ ap (get m) same ∙ on_c.held) in
    let landed =
      commit_lands c m b s k now on_c.held moved (ground (arith, on_c.seq_eq, on_c.mark_eq)) in
    rw landed (
      commit_stale d (insert m c.qualified_name b') b' t l later
        (ap (get (insert m c.qualified_name b')) same ∙ get_inserted m c.qualified_name b')
        (ground (
          arith,
          moved,
          on_c.seq_eq,
          on_c.mark_eq,
          on_d.seq_eq,
          on_d.mark_eq,
          ap (λ (x : Bookmark). x.seq) both,
          ap (λ (x : Bookmark). x.late_mark) both,
        )))
  where
    some-inj : {x y : Bookmark} → some x ≡ some y → x ≡ y
    some-inj e = cc
