-- ===== src/Throttle.antt =====
-- crates/core/src/throttle.rs: the rate limit on a repeated log line; crates/core/src/engine/
-- seq_counter.rs: the counter of seqs. Times are nanoseconds of the monotonic clock; `none` stands
-- for `i64::MIN`, which is further back than any interval.
mod Tests
pub mod Spacing
use logmon_mcp.Common.{
  ℕ, ◌+◌, ◌-◌, ◌%◌, ◌^◌, Bool, true, false, Option, none, some, List, [], ◌∷◌, leb, ltb,
  if◌then◌else◌, wrapping_add,
}

abbrev pub interval_nanos : ℕ
interval_nanos = 60_000_000_000

pub record Throttle : Type 0 where
  pub count : ℕ
  pub last : Option ℕ

unfoldable pub new : Throttle
new = record { count = 0; last = none }

unfoldable pub is_due : Option ℕ → ℕ → Bool
is_due none now = true
is_due (some last) now = leb interval_nanos (now - last)

-- Hits are one at a time, so the exchange always succeeds. The total that is logged is `n + 1`,
-- which does not wrap before 2^64 hits.
unfoldable pub hit_at : Throttle → ℕ → Throttle × Option ℕ
hit_at t now =
    let n = t.count + 1 in
    if is_due t.last now
    then (record { count = n; last = some now }, some n)
    else (record { count = n; last = t.last }, none)

-- `pace_after_error`: the failures in a row after an error, the total to log, and whether the loop
-- pauses.
unfoldable pub pace_after_error : Throttle → ℕ → Bool → ℕ → Throttle × ℕ × Option ℕ × Bool
pace_after_error t failures true now = (t, failures, none, false)
pace_after_error t failures false now =
    let failed = if ltb failures 4_294_967_295 then failures + 1 else 4_294_967_295 in
    let (t', n) = hit_at t now in (t', failed, n, ltb 1 failed)

-- `SeqCounter::next`: the counter after it, and the seq.
unfoldable pub next : ℕ → ℕ × ℕ
next counter = (wrapping_add counter 1, counter + 1)
