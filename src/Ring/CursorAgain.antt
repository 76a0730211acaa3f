-- ===== src/Ring/CursorAgain.antt =====
-- A cursor read, its advance, and the next read of the cursor, after some writes.
use logmon_mcp.Common.{
  ℕ, zero, suc, ◌≤◌, ◌<◌, min, ◌≡◌, ◌≢◌, ◌∙◌, refl, sym, ap, true, Option, none, some, List, [],
  ◌∷◌, u64_max, length, take, drop, All, arith,
}
use logmon_mcp.Filter.{ParsedFilter}
use logmon_mcp.Filter.Text.{TextEngine}
use logmon_mcp.Ring.{Store}
use logmon_mcp.Ring.Map.{bt_get}
use logmon_mcp.Ring.Late.{IsLate}
use logmon_mcp.Ring.Merging.{IsRing}
use logmon_mcp.Ring.Cursor.{CursorPos, CursorAdvance, cursor_read, advance_for}
use logmon_mcp.Ring.CursorOnce.{Taken, Behind, Ahead, LateThen-Ahead, has_normal}
use logmon_mcp.Ring.CursorAdvance.{advance_for-Parted}
use logmon_mcp.Ring.Order.{has_seq}
use logmon_mcp.Entry.{LogEntry}
use logmon_mcp.Ring.History.{Write, run, run-IsRing}
use logmon_mcp.Ring.KeptNumbers.{Older}
use logmon_mcp.Ring.KeptRuns.{run-Older}
use logmon_mcp.Ring.CursorTags.{Drawn, cursor_read-Drawn}
use logmon_mcp.Ring.CursorReads.{cursor_read-IsRead}

-- Both parts of a cursor have passed a record: its seq, and its late number in the ring, if any,
-- whichever of the parts delivered it.
pub record Passed (s : Store) (adv : CursorAdvance) (x : Taken) : Type 0 where
  pub by_seq : x.0.seq ≤ adv.seq
  pub by_number : (n : ℕ) → bt_get s.late_by_seq x.0.seq ≡ some n → n ≤ adv.late_mark

-- A late number that `t` has for the record is the one that `s` has.
abbrev KeepsNumber : Store → Store → Taken → Type 0
KeepsNumber s t x = Older x.0.seq s t

-- No record of a list has the seq of `x`.
abbrev pub Absent : List Taken → Taken → Type 0
Absent es x = All (λ y. y.0.seq ≢ x.0.seq) es

All-take : (P : Taken → Type 0) (n : ℕ) (xs : List Taken) → All P xs → All P (take n xs)
All-take P zero xs h = tt
All-take P (suc n) [] h = tt
All-take P (suc n) (x ∷ xs) h = (h.0, All-take P n xs h.1)

some-inj : (a b : ℕ) → some a ≡ some b → a ≡ b
some-inj a b h = cc

module _ (s : Store) (adv : CursorAdvance) (seq : ℕ) where
  all-Passed :
      (es : List Taken)
      → seq ≤ adv.seq
      → (has_normal es ≡ true → s.late_counter ≤ adv.late_mark)
      → ((n q : ℕ) → bt_get s.late_by_seq q ≡ some n → n ≤ s.late_counter)
      → All (Drawn s seq) es
      → All (Behind adv.seq adv.late_mark) es
      → All (Passed s adv) es
  all-Passed [] up past top d b = tt
  all-Passed ((e, none) ∷ es) up past top d b = (
    record { by_seq = b.0; by_number = λ n h. omega (arith, top n e.seq h, past refl) },
    all-Passed es up (λ h. past refl) top d.1 b.1,
  )
  all-Passed ((e, some t) ∷ es) up past top d b = (
    record {
      by_seq = omega (arith, d.0.1, up);
      by_number = λ n h. omega (arith, b.0, some-inj n t.number (sym h ∙ d.0.2));
    },
    all-Passed es up past top d.1 b.1,
  )

module _ (s t : Store) (adv : CursorAdvance) where
  passed-Absent :
      (x : Taken)
      → Passed s adv x
      → KeepsNumber s t x
      → (es : List Taken) → All (Ahead adv.seq adv.late_mark) es
      → All (Drawn t adv.seq) es
      → Absent es x
  passed-Absent x p k [] a d = tt
  passed-Absent x p k ((e, none) ∷ es) a d =
      ((λ h. omega (arith, p.by_seq, a.0, h)), passed-Absent x p k es a.1 d.1)
  passed-Absent x p k ((e, some u) ∷ es) a d = (
    (λ h. omega (
      arith,
      a.0,
      p.by_number u.number (k u.number (ap (λ q. bt_get t.late_by_seq q) (sym h) ∙ d.0.2)),
    )),
    passed-Absent x p k es a.1 d.1,
  )

  all-Absent :
      (next kept : List Taken)
      → All (Passed s adv) kept
      → All (KeepsNumber s t) kept
      → All (Ahead adv.seq adv.late_mark) next
      → All (Drawn t adv.seq) next
      → All (Absent next) kept
  all-Absent next [] p k a d = tt
  all-Absent next (x ∷ kept) p k a d =
      (passed-Absent x p.0 k.0 next a d, all-Absent next kept p.1 k.1 a d)

below_top :
    (q top : ℕ) (es : List LogEntry) → All (λ e. e.seq < top) es → has_seq q es ≡ true → q < top
below_top q top [] a h = cc
below_top q top (e ∷ es) a h = ground (arith, below_top q top es a.1, a.0, h)

run-KeepsNumber :
    (s : Store) (ws : List Write) (seq : ℕ) (es : List Taken)
    → IsRing s
    → All (λ e. e.seq < u64_max) s.entries
    → All (Drawn s seq) es
    → All (KeepsNumber s (run s ws)) es
run-KeepsNumber s ws seq [] v small d = tt
run-KeepsNumber s ws seq ((e, none) ∷ es) v small d = (
  run-Older e.seq s ws (below_top e.seq u64_max s.entries small d.0) v d.0,
  run-KeepsNumber s ws seq es v small d.1,
)
run-KeepsNumber s ws seq ((e, some t) ∷ es) v small d = (
  run-Older e.seq s ws (below_top e.seq u64_max s.entries small d.0.0) v d.0.0,
  run-KeepsNumber s ws seq es v small d.1,
)

-- A cursor read of a ring of seqs below the largest u64, its advance for the records kept, any
-- sequence of writes, and the next read of the cursor, with marks below the largest u64. Each record
-- kept, taken as a late one or not, has a seq that the new position is not below, and a late number,
-- if the ring read has it under one, that the new mark is not below; each record taken and not kept is
-- ahead of the new position, by its number if it was taken as a late one and by its seq if not. The
-- next read takes no record of a seq that was kept.
pub cursor_read-once :
    (engine : TextEngine) (count again kept : ℕ) (filter : Option ParsedFilter) (pos : CursorPos)
    (s : Store) (writes : List Write)
    → IsRing s
    → All (λ e. e.seq < u64_max) s.entries
    → pos.late_mark < u64_max
    → (let r = cursor_read engine count filter pos s in
        let given = take (min kept (length r.entries)) r.entries in
        let left = drop (min kept (length r.entries)) r.entries in
        let adv = advance_for r kept in
        let pos' : CursorPos = record {
          seq = adv.seq;
          late_mark = adv.late_mark;
          floor = pos.floor;
        } in
        adv.late_mark < u64_max
        → All (Passed s adv) given
          × All (Ahead adv.seq adv.late_mark) left
          × All (Absent (cursor_read engine again filter pos' (run s writes)).entries) given)
unfolding cursor_read
cursor_read-once engine count again kept filter pos s writes v small h g =
    let r = cursor_read engine count filter pos s in
    let n = min kept (length r.entries) in
    let given = take n r.entries in
    let adv = advance_for r kept in
    let pos' : CursorPos = record { seq = adv.seq; late_mark = adv.late_mark; floor = pos.floor } in
    let t = run s writes in
    let w = run-IsRing s writes v in
    let next = (cursor_read engine again filter pos' t).entries in
    let parted = advance_for-Parted r kept (cursor_read-IsRead engine count filter pos s v h) in
    let drawn =
      All-take (Drawn s pos.seq) n r.entries (cursor_read-Drawn engine count filter pos s v) in
    let passed =
      all-Passed s adv pos.seq given parted.onward parted.past_all (numbered s v) drawn
        parted.behind in
    (
      passed,
      parted.ahead,
      all-Absent s t adv next given passed (run-KeepsNumber s writes pos.seq given v small drawn)
          (LateThen-Ahead adv.late_mark adv.seq next
            (cursor_read-IsRead engine again filter pos' t w g).ordered)
          (cursor_read-Drawn engine again filter pos' t w),
    )
  where
    numbered :
        (s : Store) → IsRing s → (n q : ℕ) → bt_get s.late_by_seq q ≡ some n → n ≤ s.late_counter
    numbered s v n q h =
        let is_late : IsLate s.late s.late_by_seq s.late_counter s.entries = v.describes.2 in
        is_late.numbered n q (is_late.to_number n q h)
