-- ===== src/Ring/Invariant.antt =====
-- The ring's invariant holds after every writer.
use logmon_mcp.Common.{
  ℕ, ◌≤◌, ◌≡◌, refl, true, false, not, List, [], ◌∷◌, leb, length, All-keep, keep-All, All, All-imp,
  arith, subst,
}
use logmon_mcp.Entry.{LogEntry}
use logmon_mcp.Ring.{
  Store, new, holds, trace_seqs, refuse_below, clear_locked, sort_by_seq, dedup_by_seq,
}
use logmon_mcp.Ring.Write.{merge_locked, insert_sorted, fresh, admitted, receive}
use logmon_mcp.Ring.Order.{From, From-mono, has_seq, keep-From, holds-has_seq, sorted-From}
use logmon_mcp.Ring.Merge.{Apart}
use logmon_mcp.Ring.Late.{empty-IsLate}
use logmon_mcp.Ring.Merging.{IsRing, merge_batch-IsRing}

pub From-floor :
    (n m : ℕ) (es : List LogEntry) → From n es → All (λ e. leb m e.seq ≡ true) es → From m es
From-floor n m [] f h = tt
From-floor n m (e ∷ es) f h = (ground arith, f.1)

module _ (s : Store) (batch : List LogEntry) where
  fresh-Apart : IsRing s → Apart s.entries (fresh s batch)
  unfolding fresh
  fresh-Apart v =
      All-imp (λ e h. ground (arith, holds-has_seq s.lost_below e.seq s.entries v.describes.0))
        (fresh s batch)
        (keep-All (λ e. not (holds s.entries e.seq)) (dedup_by_seq (sort_by_seq batch)))

  pub admitted-Apart : IsRing s → Apart s.entries (admitted s batch)
  unfolding admitted
  admitted-Apart v =
      All-keep (λ y. has_seq y.seq s.entries ≡ false) (λ e. leb (refuse_below s) e.seq)
        (fresh s batch) (fresh-Apart v)

  -- What is admitted is ascending, from the floors up.
  pub admitted-From : From (refuse_below s) (admitted s batch)
  unfolding admitted fresh
  admitted-From =
      From-floor 0 (refuse_below s) _
        (keep-From _ 0 (fresh s batch)
          (keep-From _ 0 (dedup_by_seq (sort_by_seq batch)) (sorted-From batch)))
        (keep-All (λ e. leb (refuse_below s) e.seq) (fresh s batch))

pub refuse_below_ge : (s : Store) → s.lost_below ≤ refuse_below s × s.admit_from ≤ refuse_below s
unfolding refuse_below
refuse_below_ge s = (omega arith, omega arith)

merge_locked_cases-IsRing :
    (s : Store) (batch kept : List LogEntry)
    → IsRing s
    → admitted s batch ≡ kept
    → IsRing (merge_locked s batch).0
unfolding merge_locked
merge_locked_cases-IsRing s batch [] v e =
    rw (e, merge_locked) (record { describes = v.describes; bounded = v.bounded })
merge_locked_cases-IsRing s batch (first ∷ rest) v e =
    rw (e, merge_locked)
      (merge_batch-IsRing (receive s (length (fresh s batch))) first rest
        (record { describes = v.describes; bounded = v.bounded })
        (From-mono s.lost_below (refuse_below s) (first ∷ rest) (refuse_below_ge s).0
          (subst (From (refuse_below s)) e (admitted-From s batch)))
        (subst (Apart s.entries) e (admitted-Apart s batch v)))

pub merge_locked-IsRing :
    (s : Store) (batch : List LogEntry) → IsRing s → IsRing (merge_locked s batch).0
merge_locked-IsRing s batch v = merge_locked_cases-IsRing s batch (admitted s batch) v refl

-- A flush keeps the ring.
pub insert_sorted-IsRing :
    (s : Store) (batch : List LogEntry) → IsRing s → IsRing (insert_sorted s batch).0
unfolding insert_sorted
insert_sorted-IsRing s batch v = merge_locked-IsRing s batch v

pub new-IsRing : (capacity : ℕ) → IsRing (new capacity)
unfolding new trace_seqs
new-IsRing capacity = record {
  describes = (tt, (λ tid. refl), empty-IsLate 0 []);
  bounded = omega arith;
}

pub clear_locked-IsRing : (s : Store) → IsRing (clear_locked s)
unfolding clear_locked trace_seqs
clear_locked-IsRing s = record {
  describes = (tt, (λ tid. refl), empty-IsLate s.late_counter []);
  bounded = omega arith;
}
