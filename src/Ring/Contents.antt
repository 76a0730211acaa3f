-- ===== src/Ring/Contents.antt =====
-- What the ring holds after a write, seq by seq: nothing leaves it without the loss floor saying
-- so.
use logmon_mcp.Common.{
  ℕ, ◌-◌, ◌≤◌, ◌<◌, ◌≡◌, refl, ap, Bool, true, not, ◌&&◌, ◌||◌, List, [], ◌∷◌, leb, ◌==◌, length,
  take, drop, keep, arith, any-append, inl, inr, subst, Bool-cases, u64_max, take-append-drop,
  eq_of_test,
}
use logmon_mcp.Entry.{LogEntry}
use logmon_mcp.Ring.{Store, holds, refuse_below, merge_run, sort_by_seq, dedup_by_seq}
use logmon_mcp.Ring.Write.{fresh, admitted, merge_batch, merge_locked, insert_sorted, receive}
use logmon_mcp.Ring.Order.{From, From-mono, has_seq, has_seq_below, has_seq-sorted, holds-has_seq}
use logmon_mcp.Ring.Merge.{Apart, any-merge_run}
use logmon_mcp.Ring.Steps.{Gone}
use logmon_mcp.Ring.Merging.{IsRing, entries-merge_batch, merge_batch-IsRing, merge_batch-Gone}
use logmon_mcp.Ring.Invariant.{admitted-Apart, admitted-From, refuse_below_ge}
use logmon_mcp.Ring.Append.{receive-IsRing}

has_seq-keep :
    (q : ℕ) (p : ℕ → Bool) (es : List LogEntry)
    → has_seq q (keep (λ e. p e.seq) es) ≡ (has_seq q es && p q)
has_seq-keep q p [] = refl
has_seq-keep q p (e ∷ es) = elim (Bool-cases (e.seq == q)) [
  | inl same ↦ ground (arith, has_seq-keep q p es, ap p (eq_of_test e.seq q same))
  | inr other ↦ ground (arith, has_seq-keep q p es)
]

-- A record of the batch is admitted when no floor refuses it and the ring does not hold it.
pub has_seq-admitted :
    (q : ℕ) (s : Store) (batch : List LogEntry)
    → IsRing s
    → has_seq q (admitted s batch)
      ≡ (has_seq q batch && not (has_seq q s.entries) && leb (refuse_below s) q)
unfolding admitted fresh
has_seq-admitted q s batch v = ground (
  arith,
  has_seq-keep q (λ n. leb (refuse_below s) n) (fresh s batch),
  has_seq-keep q (λ n. not (holds s.entries n)) (dedup_by_seq (sort_by_seq batch)),
  has_seq-sorted q batch,
  holds-has_seq s.lost_below q s.entries v.describes.0,
)

Gone-at :
    (q : ℕ) (s : Store) (es : List LogEntry)
    → Gone s es
    → q < u64_max
    → has_seq q es ≡ true
    → q < s.lost_below
Gone-at q s [] g h u = cc
Gone-at q s (e ∷ es) g h u = ground (arith, g.0, Gone-at q s es g.1 h)

-- A list of which the front has gone holds what is not below the floor.
kept_above :
    (q k : ℕ) (s : Store) (whole : List LogEntry)
    → q < u64_max
    → Gone s (take k whole)
    → From s.lost_below (drop k whole)
    → has_seq q (drop k whole) ≡ (has_seq q whole && leb s.lost_below q)
kept_above q k s whole h g f = ground (
  arith,
  Gone-at q s (take k whole) g h,
  has_seq_below s.lost_below q (drop k whole) f,
  any-append (λ e. e.seq == q) (take k whole) (drop k whole),
  ap (has_seq q) (take-append-drop k whole),
)

merge_run-nil : (es : List LogEntry) → merge_run es [] ≡ es
unfolding merge_run
merge_run-nil [] = refl
merge_run-nil (e ∷ es) = refl

-- What a write that offers a seq, or does not, leaves of it.
pub record Holds (q : ℕ) (s t : Store) (offered : Bool) : Type 0 where
  pub floor_ge : s.lost_below ≤ t.lost_below
  pub contents :
      has_seq q t.entries
      ≡ ((has_seq q s.entries || (offered && leb (refuse_below s) q)) && leb t.lost_below q)

held_above : (q : ℕ) (s : Store) → IsRing s → has_seq q s.entries ≡ true → leb s.lost_below q ≡ true
held_above q s v h = ground (arith, has_seq_below s.lost_below q s.entries v.describes.0)

merge_locked_cases :
    (q : ℕ) (s : Store) (batch kept : List LogEntry)
    → IsRing s
    → q < u64_max
    → admitted s batch ≡ kept
    → Holds q s (merge_locked s batch).0 (has_seq q batch)
unfolding merge_locked
merge_locked_cases q s batch [] v h e =
    rw (e, merge_locked)
      (record {
        floor_ge = omega arith;
        contents = ground (
          arith,
          held_above q s v,
          has_seq-admitted q s batch v,
          ap (has_seq q) e,
          has_seq_below s.lost_below q s.entries v.describes.0,
        );
      })
merge_locked_cases q s batch (first ∷ rest) v h e =
    let r = receive s (length (fresh s batch)) in
    let v' : IsRing r = receive-IsRing s (length (fresh s batch)) v in
    let f : From s.lost_below (first ∷ rest) =
      From-mono s.lost_below (refuse_below s) (first ∷ rest) (refuse_below_ge s).0
        (subst (From (refuse_below s)) e (admitted-From s batch)) in
    let a : Apart s.entries (first ∷ rest) = subst (Apart s.entries) e (admitted-Apart s batch v) in
    let t = (merge_batch r first rest).0 in
    let whole = merge_run s.entries (first ∷ rest) in
    let k = length whole - s.max_capacity in
    let gone = merge_batch-Gone r first rest v' f a in
    let ring = merge_batch-IsRing r first rest v' f a in
    let entries : t.entries ≡ drop k whole = entries-merge_batch r first rest v' f a in
    rw (e, merge_locked)
      (record {
        floor_ge = gone.0;
        contents = ground (
          arith,
          ap (has_seq q) entries,
          kept_above q k t whole h gone.1 (subst (From t.lost_below) entries ring.describes.0),
          any-merge_run (λ e. e.seq == q) s.entries (first ∷ rest),
          ap (has_seq q) e,
          has_seq-admitted q s batch v,
        );
      })

-- After a flush the ring holds what it held and what was offered and not refused, but for what is
-- below the loss floor, which never falls.
pub insert_sorted-Holds :
    (q : ℕ) (s : Store) (batch : List LogEntry)
    → IsRing s
    → q < u64_max
    → Holds q s (insert_sorted s batch).0 (has_seq q batch)
unfolding insert_sorted
insert_sorted-Holds q s batch v h = merge_locked_cases q s batch (admitted s batch) v h refl
