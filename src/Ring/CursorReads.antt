-- ===== src/Ring/CursorReads.antt =====
-- What `cursor_read` takes from a ring.
use logmon_mcp.Common.{
  ℕ, suc, ◌+◌, ◌-◌, ◌≤◌, ◌<◌, max, ◌≡◌, refl, false, not, ◌&&◌, ◌||◌, Option, none, some, List, [],
  ◌∷◌, ◌++◌, ltb, leb, u64_max, length, arith, Bool-cases, inl, inr,
}
use logmon_mcp.Entry.{LogEntry}
use logmon_mcp.Filter.{ParsedFilter}
use logmon_mcp.Filter.Text.{TextEngine}
use logmon_mcp.Ring.{Store}
use logmon_mcp.Ring.Order.{From}
use logmon_mcp.Ring.Merging.{IsRing}
use logmon_mcp.Ring.Read.{passes}
use logmon_mcp.Ring.Cursor.{CursorPos, Walk, late_part, walk_normal, cursor_read, highest_normal}
use logmon_mcp.Ring.CursorOnce.{Taken, Normals, LateThen, has_normal, Numbers}
use logmon_mcp.Ring.CursorAdvance.{IsRead}
use logmon_mcp.Ring.CursorLate.{late_part-IsLatePart}

module _ (engine : TextEngine) (count : ℕ) (filter : Option ParsedFilter) (pos : CursorPos) where
  -- The walk so far.
  record Walked (next top : ℕ) (es : List Taken) : Type 0 where
    ordered : LateThen pos.late_mark pos.seq es
    numbered : Numbers top es
    highest : highest_normal pos.seq es ≤ max pos.seq (next - 1)

  Normals-push :
      (seq : ℕ) (e : LogEntry) (es : List Taken)
      → Normals seq es
      → highest_normal seq es < e.seq
      → Normals seq (es ++ (e, none) ∷ [])
  unfolding highest_normal
  Normals-push seq e [] n h = (h, tt)
  Normals-push seq e ((x, none) ∷ es) n h =
      (n.0, Normals-push x.seq e es n.1 (rw (larger x.seq n.0) at h))
    where
      larger : (k : ℕ) → seq < k → max seq k ≡ k
      larger k g = omega (arith, g)
  Normals-push seq e ((x, some t) ∷ es) n h = absurd n

  LateThen-push :
      (mark seq : ℕ) (e : LogEntry) (es : List Taken)
      → LateThen mark seq es
      → highest_normal seq es < e.seq
      → LateThen mark seq (es ++ (e, none) ∷ [])
  unfolding highest_normal
  LateThen-push mark seq e [] s h = (h, tt)
  LateThen-push mark seq e ((x, none) ∷ es) s h = Normals-push seq e ((x, none) ∷ es) s h
  LateThen-push mark seq e ((x, some t) ∷ es) s h = (s.0, LateThen-push t.number seq e es s.1 h)

  highest-push :
      (seq : ℕ) (e : LogEntry) (es : List Taken)
      → highest_normal seq (es ++ (e, none) ∷ []) ≡ max (highest_normal seq es) e.seq
  unfolding highest_normal
  highest-push seq e [] = refl
  highest-push seq e ((x, none) ∷ es) = highest-push (max seq x.seq) e es
  highest-push seq e ((x, some t) ∷ es) = highest-push seq e es

  Numbers-push_normal :
      (top : ℕ) (e : LogEntry) (es : List Taken)
      → Numbers top es
      → Numbers top (es ++ (e, none) ∷ [])
  Numbers-push_normal top e [] n = tt
  Numbers-push_normal top e ((x, none) ∷ es) n = Numbers-push_normal top e es n
  Numbers-push_normal top e ((x, some t) ∷ es) n = (n.0, Numbers-push_normal top e es n.1)

  Walked-push :
      (next top : ℕ) (e : LogEntry) (es : List Taken)
      → next ≤ e.seq
      → pos.seq < e.seq
      → Walked next top es
      → Walked (suc e.seq) top (es ++ (e, none) ∷ [])
  Walked-push next top e es h g w = record {
    ordered = LateThen-push pos.late_mark pos.seq e es w.ordered (omega (arith, w.highest, h, g));
    numbered = Numbers-push_normal top e es w.numbered;
    highest = rw (highest-push pos.seq e es) (omega (arith, w.highest, h, g));
  }

  walk_normal-Walked :
      (es : List LogEntry) (next top : ℕ) (w : Walk)
      → From next es
      → Walked next top w.taken
      → (end : ℕ) × Walked end top (walk_normal engine count filter pos es w).taken
  unfolding walk_normal
  walk_normal-Walked [] next top w f v = (next, v)
  walk_normal-Walked (e ∷ es) next top w f v =
      let seen : Walk = record w { scanned = w.scanned + 1 } in
      let took : Walk = record seen { taken = w.taken ++ (e, none) ∷ [] } in
      let passed : Walked (suc e.seq) top w.taken = record {
        ordered = v.ordered;
        numbered = v.numbered;
        highest = omega (arith, v.highest, f.0);
      } in
      elim (Bool-cases (leb e.seq pos.seq || not (passes engine filter e))) [
        | inl skip ↦ rw (skip, walk_normal) (walk_normal-Walked es (suc e.seq) top seen f.1 passed)
        | inr take_it ↦
            let v' = Walked-push next top e w.taken f.0 (ground (arith, take_it)) v in
            elim (Bool-cases (leb count (length took.taken))) [
              | inl full ↦ rw (take_it, walk_normal) (rw (full, walk_normal) (suc e.seq, v'))
              | inr more ↦
                  rw (take_it, walk_normal)
                    (rw (more, walk_normal) (walk_normal-Walked es (suc e.seq) top took f.1 v'))
            ]
      ]

  highest_of_late :
      (seq : ℕ) (es : List Taken) → has_normal es ≡ false → highest_normal seq es ≡ seq
  unfolding highest_normal
  highest_of_late seq [] h = refl
  highest_of_late seq ((e, none) ∷ es) h = cc
  highest_of_late seq ((e, some t) ∷ es) h = highest_of_late seq es h

  -- On a ring, whatever it holds and whatever the cursor's position, a cursor read takes late records
  -- of ascending numbers above the cursor's mark and then normal records of ascending seqs above its
  -- seq, and where the late part was cut it takes no normal record.
  pub cursor_read-IsRead :
      (s : Store)
      → IsRing s
      → pos.late_mark < u64_max
      → IsRead (cursor_read engine count filter pos s)
  unfolding cursor_read
  cursor_read-IsRead s v h =
      let late = late_part engine count filter pos s in
      let l = late_part-IsLatePart engine count filter pos s v h in
      elim (Bool-cases (late.exhausted && ltb (length late.taken) count)) [
        | inr stop ↦
            rw (stop, cursor_read)
              (record { ordered = l.ordered; numbered = l.numbered; cut = λ c. l.no_normal })
        | inl on ↦
            let begun : Walked s.lost_below s.late_counter late.taken = record {
              ordered = l.ordered;
              numbered = l.numbered;
              highest = rw (highest_of_late pos.seq late.taken l.no_normal) (omega arith);
            } in
            let (end, w) =
              walk_normal-Walked s.entries s.lost_below s.late_counter late v.describes.0 begun in
            rw (on, cursor_read)
              (record {
                ordered = w.ordered;
                numbered = w.numbered;
                cut = λ c. ground (arith, c, on);
              })
      ]
