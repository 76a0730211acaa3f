-- ===== src/Ring/History.antt =====
-- Any sequence of writes: the ring stays a ring, and what a clear cut off never comes back.
use logmon_mcp.Common.{
  ℕ, ◌≤◌, ◌<◌, ◌≡◌, refl, Bool, false, List, [], ◌∷◌, arith, sat_suc-gt, u64_max,
}
use logmon_mcp.Entry.{LogEntry}
use logmon_mcp.Ring.{Store, clear_locked, clear, clear_through}
use logmon_mcp.Ring.Write.{insert_sorted, append}
use logmon_mcp.Ring.Order.{has_seq}
use logmon_mcp.Ring.Merging.{IsRing}
use logmon_mcp.Ring.Invariant.{insert_sorted-IsRing, clear_locked-IsRing, refuse_below_ge}
use logmon_mcp.Ring.Append.{append-IsRing}
use logmon_mcp.Ring.Contents.{Holds, insert_sorted-Holds}
use logmon_mcp.Ring.AppendContents.{append-Holds}
use logmon_mcp.Ring.Floor.{admit_from-insert_sorted, admit_from-append}

pub data Write : Type 0 where
  appends : LogEntry → Write
  flushes : List LogEntry → Write
  clears : Write
  clears_through : ℕ → Write

unfoldable pub write : Store → Write → Store
write s (appends e) = append s e
write s (flushes batch) = (insert_sorted s batch).0
write s clears = clear s
write s (clears_through n) = clear_through s n

unfoldable pub run : Store → List Write → Store
run s [] = s
run s (w ∷ ws) = run (write s w) ws

clear-IsRing : (s : Store) → IsRing (clear s)
unfolding clear
clear-IsRing s = clear_locked-IsRing s

pub clear_through-IsRing : (s : Store) (n : ℕ) → IsRing (clear_through s n)
unfolding clear_through
clear_through-IsRing s n =
    let v = clear_locked-IsRing s in record { describes = v.describes; bounded = v.bounded }

pub write-IsRing : (s : Store) (w : Write) → IsRing s → IsRing (write s w)
unfolding write
write-IsRing s (appends e) v = append-IsRing s e v
write-IsRing s (flushes batch) v = insert_sorted-IsRing s batch v
write-IsRing s clears v = clear-IsRing s
write-IsRing s (clears_through n) v = clear_through-IsRing s n

-- Every sequence of writes keeps the ring: ascending distinct seqs from the loss floor up, at most
-- `max_capacity` of them, the trace index exactly the held seqs of each trace, and the late maps
-- inverse to each other over held records.
pub run-IsRing : (s : Store) (ws : List Write) → IsRing s → IsRing (run s ws)
unfolding run
run-IsRing s [] v = v
run-IsRing s (w ∷ ws) v = run-IsRing (write s w) ws (write-IsRing s w v)

-- A seq below the admission floor that is not held.
record IsCutOff (q : ℕ) (s : Store) : Type 0 where
  absent : has_seq q s.entries ≡ false
  below : q < s.admit_from

still_absent :
    (q : ℕ) (s t : Store) (offered : Bool)
    → IsCutOff q s
    → Holds q s t offered
    → has_seq q t.entries ≡ false
still_absent q s t offered c h =
    ground (arith, c.absent, h.contents, (refuse_below_ge s).1, c.below)

write-IsCutOff :
    (q : ℕ) (s : Store) (w : Write) → q < u64_max → IsRing s → IsCutOff q s → IsCutOff q (write s w)
unfolding write clear clear_through clear_locked
write-IsCutOff q s (appends e) h v c = record {
  absent = still_absent q s _ _ c (append-Holds q s e v h);
  below = rw (admit_from-append s e) c.below;
}
write-IsCutOff q s (flushes batch) h v c = record {
  absent = still_absent q s _ _ c (insert_sorted-Holds q s batch v h);
  below = rw (admit_from-insert_sorted s batch) c.below;
}
write-IsCutOff q s clears h v c = record { absent = refl; below = c.below }
write-IsCutOff q s (clears_through n) h v c = record {
  absent = refl;
  below = omega (arith, c.below);
}

run-IsCutOff :
    (q : ℕ) (s : Store) (ws : List Write)
    → q < u64_max
    → IsRing s
    → IsCutOff q s
    → IsCutOff q (run s ws)
unfolding run
run-IsCutOff q s [] h v c = c
run-IsCutOff q s (w ∷ ws) h v c =
    run-IsCutOff q (write s w) ws h (write-IsRing s w v) (write-IsCutOff q s w h v c)

clear_through-IsCutOff :
    (q n : ℕ) (s : Store) → q ≤ n → n < u64_max → IsCutOff q (clear_through s n)
unfolding clear_through clear_locked
clear_through-IsCutOff q n s h small = record {
  absent = refl;
  below = omega (arith, sat_suc-gt n small);
}

-- After `clear_through n` no sequence of writes brings back a seq up to `n`, held or not when the
-- ring was cleared.
pub clear_through-final :
    (q n : ℕ) (s : Store) (ws : List Write)
    → q ≤ n
    → n < u64_max
    → has_seq q (run (clear_through s n) ws).entries ≡ false
clear_through-final q n s ws h small =
    (run-IsCutOff q (clear_through s n) ws (omega arith) (clear_through-IsRing s n)
      (clear_through-IsCutOff q n s h small)).absent
