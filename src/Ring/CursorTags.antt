-- ===== src/Ring/CursorTags.antt =====
-- The late numbers on the records that `cursor_read` takes, as the ring has them.
use logmon_mcp.Common.{
  ℕ, true, suc, ◌+◌, ◌≤◌, ◌≡◌, ◌∙◌, sym, ap, not, ◌&&◌, ◌||◌, Option, none, some, List, [], ◌∷◌,
  ◌++◌, ltb, leb, ◌==◌, length, All, All-append, All-keep, arith, Option-cases, Bool-cases, inl,
  inr,
}
use logmon_mcp.Entry.{LogEntry}
use logmon_mcp.Filter.{ParsedFilter}
use logmon_mcp.Filter.Text.{TextEngine}
use logmon_mcp.Ring.{Store, position}
use logmon_mcp.Ring.Map.{BTreeMap, Keys, bt_get, bt_get_below}
use logmon_mcp.Ring.Late.{IsLate}
use logmon_mcp.Ring.Merging.{IsRing, has_self}
use logmon_mcp.Ring.Order.{has_seq}
use logmon_mcp.Ring.Read.{entry_of, entry_at, passes, passes_late}
use logmon_mcp.Ring.Cursor.{
  CursorPos, Walk, late_above, below_every_late_seq, take_late, late_round, walk_late, late_part,
  walk_normal, cursor_read,
}
use logmon_mcp.Ring.CursorOnce.{Taken}

-- A record has the seq of a held one; a late record carries the number its seq has in the ring, and
-- is not past a position.
abbrev pub Drawn : Store → ℕ → Taken → Type 0
Drawn s seq (e, none) = has_seq e.seq s.entries ≡ true
Drawn s seq (e, some t) =
    (has_seq e.seq s.entries ≡ true) × (e.seq ≤ seq) × (bt_get s.late_by_seq e.seq ≡ some t.number)

seq-entry_of :
    (es : List LogEntry) (seq : ℕ) (e : LogEntry) → entry_of es seq ≡ some e → e.seq ≡ seq
unfolding entry_of position entry_at
seq-entry_of [] seq e h = cc
seq-entry_of (x ∷ es) seq e h = elim (Bool-cases (x.seq == seq)) [
  | inl y ↦
      ap (λ (o : LogEntry). o.seq) (sym (some-inj (rw (y, entry_of, position, entry_at) at h)))
      ∙ ground (arith, y)
  | inr n ↦ elim (Option-cases (position es seq)) [
    | inl p ↦ absurd (gone (rw (p, position) at (rw (n, entry_of, position) at h)))
    | inr (i, p) ↦
        seq-entry_of es seq e
          (rw (p, entry_of) (rw (p, position, entry_at) at (rw (n, entry_of, position) at h)))
  ]
]
  where
    some-inj : {a b : LogEntry} → some a ≡ some b → a ≡ b
    some-inj g = cc

    gone : {a : LogEntry} → none ≡ some a → ⊥
    gone g = cc

bt_get-All :
    (P : ℕ × ℕ → Type 0) (k : ℕ) (m : BTreeMap)
    → Keys k m
    → ((n q : ℕ) → bt_get m n ≡ some q → P (n, q))
    → All P m
unfolding bt_get
bt_get-All P k [] g h = tt
bt_get-All P k ((j, q) ∷ m) g h = (
  h j q (ground arith),
  bt_get-All P (suc j) m g.1 λ n r e. h n r (ground (arith, e, bt_get_below (suc j) n m g.1)),
)

-- An entry of the late map: a held seq, with its number.
abbrev Numbered : Store → ℕ × ℕ → Type 0
Numbered s (n, q) = (has_seq q s.entries ≡ true) × (bt_get s.late_by_seq q ≡ some n)

module _ (engine : TextEngine) (count : ℕ) (filter : Option ParsedFilter) (pos : CursorPos)
    (s : Store) where
  late_round-Drawn :
      (entries : List LogEntry) (number seq : ℕ) (w : Walk)
      → Numbered s (number, seq)
      → All (Drawn s pos.seq) w.taken
      → All (Drawn s pos.seq) (late_round engine count filter pos entries number seq w).taken
  unfolding late_round take_late
  late_round-Drawn entries number seq w h d =
      elim (Bool-cases (ltb pos.seq seq || leb seq pos.floor)) [
        | inl skip ↦ rw (skip, late_round) d
        | inr look ↦ elim (Option-cases (entry_of entries seq)) [
          | inl gone ↦ rw (look, late_round) (rw (gone, late_round) d)
          | inr (e, found) ↦ elim (Bool-cases (passes_late engine filter e)) [
            | inl y ↦
                let same = seq-entry_of entries seq e found in
                rw (look, late_round)
                  (rw (found, late_round)
                    (rw (y, late_round)
                      (All-append (Drawn s pos.seq) w.taken _ d
                        ((rw same h.0, ground (arith, look, same), rw same h.1), tt))))
            | inr n ↦ rw (look, late_round) (rw (found, late_round) (rw (n, late_round) d))
          ]
        ]
      ]

  walk_late-Drawn :
      (entries : List LogEntry) (late : BTreeMap) (w : Walk)
      → All (Numbered s) late
      → All (Drawn s pos.seq) w.taken
      → All (Drawn s pos.seq) (walk_late engine count filter pos entries late w).taken
  unfolding walk_late
  walk_late-Drawn entries [] w h d = d
  walk_late-Drawn entries ((number, seq) ∷ late) w h d =
      let w' = late_round engine count filter pos entries number seq w in
      let d' = late_round-Drawn entries number seq w h.0 d in
      elim (Bool-cases w'.exhausted) [
        | inl on ↦ rw (on, walk_late) (walk_late-Drawn entries late w' h.1 d')
        | inr cut ↦ rw (cut, walk_late) d'
      ]

  walk_normal-Drawn :
      (es : List LogEntry) (w : Walk)
      → All (λ e. has_seq e.seq s.entries ≡ true) es
      → All (Drawn s pos.seq) w.taken
      → All (Drawn s pos.seq) (walk_normal engine count filter pos es w).taken
  unfolding walk_normal
  walk_normal-Drawn [] w k d = d
  walk_normal-Drawn (e ∷ es) w k d =
      let seen : Walk = record w { scanned = w.scanned + 1 } in
      let took : Walk = record seen { taken = w.taken ++ (e, none) ∷ [] } in
      let d' = All-append (Drawn s pos.seq) w.taken ((e, none) ∷ []) d (k.0, tt) in
      elim (Bool-cases (leb e.seq pos.seq || not (passes engine filter e))) [
        | inl skip ↦ rw (skip, walk_normal) (walk_normal-Drawn es seen k.1 d)
        | inr take_it ↦ elim (Bool-cases (leb count (length took.taken))) [
          | inl full ↦ rw (take_it, walk_normal) (rw (full, walk_normal) d')
          | inr more ↦
              rw (take_it, walk_normal) (rw (more, walk_normal) (walk_normal-Drawn es took k.1 d'))
        ]
      ]

module _ (engine : TextEngine) (count : ℕ) (filter : Option ParsedFilter) (pos : CursorPos) where
  late_part-Drawn :
      (s : Store) → IsRing s → All (Drawn s pos.seq) (late_part engine count filter pos s).taken
  unfolding late_part late_above
  late_part-Drawn s v = elim (Bool-cases (count == 0)) [
    | inl none_asked ↦ rw (none_asked, late_part) tt
    | inr asked ↦ elim (Bool-cases (below_every_late_seq pos.seq s.late_by_seq)) [
      | inl below ↦ rw (asked, late_part) (rw (below, late_part) tt)
      | inr there ↦
          rw (asked, late_part)
            (rw (there, late_part)
              (walk_late-Drawn engine count filter pos s s.entries (late_above pos.late_mark s.late)
                _
                (All-keep (Numbered s) _ s.late (
                  bt_get-All (Numbered s) 0 s.late is_late.late_keys
                    (λ n q h. (is_late.held n q h, is_late.to_seq n q h))))
                tt))
    ]
  ]
    where
      is_late : IsLate s.late s.late_by_seq s.late_counter s.entries
      is_late = v.describes.2

  -- What a cursor read takes is held; its late records are at or below its position, and each carries
  -- the number the ring has it under.
  pub cursor_read-Drawn :
      (s : Store) → IsRing s → All (Drawn s pos.seq) (cursor_read engine count filter pos s).entries
  unfolding cursor_read
  cursor_read-Drawn s v =
      let late = late_part engine count filter pos s in
      let d = late_part-Drawn s v in
      elim (Bool-cases (late.exhausted && ltb (length late.taken) count)) [
        | inr stop ↦ rw (stop, cursor_read) d
        | inl on ↦
            rw (on, cursor_read)
              (walk_normal-Drawn engine count filter pos s s.entries late (has_self s.entries) d)
      ]
