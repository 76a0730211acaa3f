-- ===== src/Ring/KeptRuns.antt =====
-- The late number of a record that was held, after any sequence of writes.
use logmon_mcp.Common.{
  ℕ, ◌<◌, ◌≡◌, ◌∙◌, sym, List, [], ◌∷◌, true, false, arith, Bool-cases, inl, inr, u64_max, ◌⊎◌,
}
use mathlib.Core.Bool.{false≢true}
use logmon_mcp.Ring.{Store}
use logmon_mcp.Ring.Order.{has_seq}
use logmon_mcp.Ring.Merging.{IsRing}
use logmon_mcp.Ring.History.{Write, write, run, write-IsRing}
use logmon_mcp.Ring.KeptNumbers.{Older}
use logmon_mcp.Ring.KeptWrites.{late_of, write-After}

-- A seq that a ring held, some writes later: it is held still, or below the loss floor, and a late
-- number it has is the one it had.
record Traced (q : ℕ) (s t : Store) : Type 0 where
  held_or_lost : (has_seq q t.entries ≡ true) ⊎ ((has_seq q t.entries ≡ false) × (q < t.lost_below))
  older : Older q s t

not_late : (q : ℕ) (t : Store) → IsRing t → has_seq q t.entries ≡ false → (s : Store) → Older q s t
not_late q t v h s n e =
    let l = late_of t v in absurd (false≢true (sym h ∙ l.held n q (l.to_number n q e)))

write-Traced :
    (q : ℕ) (s t : Store) (w : Write)
    → q < u64_max
    → IsRing t
    → Traced q s t
    → Traced q s (write t w)
write-Traced q s t w h v d =
    let u = write t w in
    let a = write-After q t w h v in
    elim d.held_or_lost [
      | inl held ↦ record {
        held_or_lost = elim (Bool-cases (has_seq q u.entries)) [
          | inl y ↦ inl y
          | inr n ↦ inr (n, a.lost held n)
        ];
        older = λ n e. d.older n (a.older held n e);
      }
      | inr (absent, below) ↦
          let n = a.gone absent below in
          record {
            held_or_lost = inr (n, omega (arith, below, a.floor_ge));
            older = not_late q u (write-IsRing t w v) n s;
          }
    ]

run-Traced :
    (q : ℕ) (s t : Store) (ws : List Write)
    → q < u64_max
    → IsRing t
    → Traced q s t
    → Traced q s (run t ws)
unfolding run
run-Traced q s t [] h v d = d
run-Traced q s t (w ∷ ws) h v d =
    run-Traced q s (write t w) ws h (write-IsRing t w v) (write-Traced q s t w h v d)

-- A seq that the ring holds has, after any sequence of writes, no late number but the one it had.
pub run-Older :
    (q : ℕ) (s : Store) (ws : List Write)
    → q < u64_max
    → IsRing s
    → has_seq q s.entries ≡ true
    → Older q s (run s ws)
run-Older q s ws h v held =
    (run-Traced q s s ws h v (record { held_or_lost = inl held; older = λ n e. e })).older
