-- ===== src/Throttle/Spacing.antt =====
-- A throttled line over a sequence of hits.
use logmon_mcp.Common.{ℕ, ◌+◌, ◌≤◌, Option, none, some, List, [], ◌∷◌}
use logmon_mcp.Throttle.{Throttle, hit_at}

-- The times of the hits that are logged, each with the total logged for it.
unfoldable pub logged : Throttle → List ℕ → List (ℕ × ℕ)
logged t [] = []
logged t (now ∷ times) =
    let rest = logged (hit_at t now).0 times in
    elim (hit_at t now).1 [ none ↦ rest | some n ↦ (now, n) ∷ rest ]

-- A minute or more after the last time, if there is one.
abbrev pub MinuteAfter : Option ℕ → ℕ → Type 0
MinuteAfter none now = Unit {0}
MinuteAfter (some last) now = last + 60_000_000_000 ≤ now

-- Each time is a minute or more after the one before it, each total higher and at most the number of
-- hits.
abbrev pub Spaced : Option ℕ → ℕ → ℕ → List (ℕ × ℕ) → Type 0
Spaced last low high [] = Unit {0}
Spaced last low high ((now, n) ∷ rest) =
    MinuteAfter last now × (low + 1 ≤ n) × (n ≤ high) × Spaced (some now) n high rest
