-- ===== src/Throttle/Tests.antt =====
-- Witnesses for the throttle.
use logmon_mcp.Common.{ℕ, ◌≡◌, refl, List, [], ◌∷◌}
use logmon_mcp.Throttle.{new, hit_at, is_due}
use logmon_mcp.Throttle.Spacing.{logged}

abbrev times : List ℕ
times = 5 ∷ 7 ∷ 60_000_000_005 ∷ []

two_logged : logged new times ≡ (5, 1) ∷ (60_000_000_005, 3) ∷ []
unfolding logged new hit_at is_due
two_logged = refl
