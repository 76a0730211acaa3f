-- ===== src/Ring/Append.antt =====
-- `append`: its fast path keeps the ring.
use logmon_mcp.Common.{
  ℕ, suc, ◌≤◌, ◌<◌, max, ◌≡◌, refl, sym, true, Option, none, some, List, [], ◌∷◌, ◌++◌, ltb, leb,
  ◌==◌, if◌then◌else◌, length, All, last?, arith, any-append, ◌≢◌, inl, inr, subst, Bool-cases,
  wrapping_add, sat_suc, sat_suc-le, length-append, ltb→ge, lt→leb_false, length-nil, some_of_if,
}
use logmon_mcp.Entry.{LogEntry}
use logmon_mcp.Ring.{Store, trace_seqs, refuse_below, lose, evict_front, with_entries}
use logmon_mcp.Ring.Write.{
  receive, push_newest, append_newest, append, is_ascending, index_all, from_records,
}
use logmon_mcp.Ring.Order.{From}
use logmon_mcp.Ring.Index.{Indexed}
use logmon_mcp.Ring.IndexSteps.{push_index-Indexed, index_all-Indexed}
use logmon_mcp.Ring.Late.{IsLate-mono, empty-IsLate}
use logmon_mcp.Ring.Steps.{Describes, entries-lose, lose-Describes, evict_front_cons}
use logmon_mcp.Ring.Merging.{IsRing}
use logmon_mcp.Ring.Invariant.{merge_locked-IsRing, refuse_below_ge}

-- Every record is below a seq.
abbrev pub Under : ℕ → List LogEntry → Type 0
Under k es = All (λ x. x.seq < k) es

pub last-Under :
    (n k : ℕ) (es : List LogEntry)
    → From n es
    → ((l : LogEntry) → last? es ≡ some l → l.seq < k)
    → Under k es
last-Under n k [] f h = tt
last-Under n k (x ∷ []) f h = (h x refl, tt)
last-Under n k (x ∷ y ∷ es) f h =
    let ih = last-Under (suc x.seq) k (y ∷ es) f.1 h in (omega (arith, ih.0, f.1.0), ih)

push-From :
    (n : ℕ) (es : List LogEntry) (e : LogEntry)
    → From n es
    → n ≤ e.seq
    → Under e.seq es
    → From n (es ++ e ∷ [])
push-From n [] e f h u = (h, tt)
push-From n (x ∷ es) e f h u = (f.0, push-From (suc x.seq) es e f.1 u.0 u.1)

push_newest-IsRing :
    (s : Store) (e : LogEntry)
    → IsRing s
    → s.lost_below ≤ e.seq
    → Under e.seq s.entries
    → length s.entries < s.max_capacity
    → IsRing (push_newest s e)
unfolding push_newest
push_newest-IsRing s e v h u room = record {
  describes = (
    push-From s.lost_below s.entries e v.describes.0 h u,
    push_index-Indexed s.trace_index s.entries e v.describes.1,
    IsLate-mono _ _ _ s.entries _
        (λ q p. ground (arith, any-append (λ x. x.seq == q) s.entries (e ∷ []))) v.describes.2,
  );
  bounded = omega (arith, length-append s.entries (e ∷ []));
}

push_full-IsRing :
    (s : Store) (e x : LogEntry) (rest : List LogEntry)
    → s.entries ≡ x ∷ rest
    → IsRing s
    → s.lost_below ≤ e.seq
    → Under e.seq (x ∷ rest)
    → IsRing (push_newest (evict_front s) e)
unfolding lose
push_full-IsRing s e x rest p v h u =
    let t = lose x (with_entries s rest) in
    let same : t.entries ≡ rest = entries-lose x (with_entries s rest) in
    let d : Describes s (x ∷ rest) = subst (Describes s) p v.describes in
    let d' : Describes t t.entries =
      subst (Describes t) (sym same) (lose-Describes x (with_entries s rest) rest d) in
    let room : suc (length rest) ≤ s.max_capacity =
      subst (λ es. length es ≤ s.max_capacity) p v.bounded in
    rw (evict_front_cons s x rest p) (
      push_newest-IsRing t e (record { describes = d'; bounded = rw same (omega arith) })
        (omega (arith, sat_suc-le x.seq, u.0)) (subst (Under e.seq) (sym same) u.1)
        (rw same (omega arith)))

-- A full ring loses its lowest record first.
push_evicted-IsRing :
    (s : Store) (e : LogEntry) (es : List LogEntry)
    → s.entries ≡ es
    → IsRing s
    → s.lost_below ≤ e.seq
    → Under e.seq es
    → s.max_capacity ≢ 0
    → IsRing (push_newest (if leb s.max_capacity (length es) then evict_front s else s) e)
push_evicted-IsRing s e [] p v h u some_room =
    rw (lt→leb_false 0 s.max_capacity (omega arith))
      (push_newest-IsRing s e v h (rw p u) (rw p (omega arith)))
push_evicted-IsRing s e (x ∷ rest) p v h u some_room =
    elim (Bool-cases (leb s.max_capacity (suc (length rest)))) [
      | inl full ↦ rw full (push_full-IsRing s e x rest p v h u)
      | inr free ↦ rw free (push_newest-IsRing s e v h (rw p u) (rw p (ground arith)))
    ]

-- A ring of no records loses the record at once.
none_held-IsRing :
    (s : Store) (e : LogEntry)
    → IsRing s
    → s.max_capacity ≡ 0
    → IsRing (record s {
      lost_below = max s.lost_below (sat_suc e.seq);
      total_stored = wrapping_add s.total_stored 1;
    })
none_held-IsRing s e v c =
    let nothing : s.entries ≡ [] = length-nil s.entries (omega (arith, v.bounded)) in
    record {
      describes = (
        subst (From (max s.lost_below (sat_suc e.seq))) (sym nothing) tt,
        v.describes.1,
        v.describes.2,
      );
      bounded = v.bounded;
    }

-- The record is newer than all that are held.
append_newest-IsRing :
    (s : Store) (e : LogEntry) → IsRing s → Under e.seq s.entries → IsRing (append_newest s e)
unfolding append_newest
append_newest-IsRing s e v u = elim (Bool-cases (ltb e.seq (refuse_below s))) [
  | inl refused ↦ rw (refused, append_newest) v
  | inr fits ↦
      rw (fits, append_newest)
        (elim (Bool-cases (s.max_capacity == 0)) [
          | inl none_held ↦ rw none_held (none_held-IsRing s e v (ground arith))
          | inr holds_some ↦ rw holds_some (
              push_evicted-IsRing s e s.entries refl v
                (omega (arith, ltb→ge _ _ fits, (refuse_below_ge s).0)) u (ground arith))
        ])
]

pub receive-IsRing : (s : Store) (n : ℕ) → IsRing s → IsRing (receive s n)
receive-IsRing s n v = record { describes = v.describes; bounded = v.bounded }

append_cases-IsRing :
    (s : Store) (e : LogEntry) (o : Option LogEntry)
    → last? s.entries ≡ o
    → IsRing s
    → IsRing (append s e)
unfolding append
append_cases-IsRing s e none p v =
    rw (p, append)
      (append_newest-IsRing (receive s 1) e (receive-IsRing s 1 v)
        (last-Under s.lost_below e.seq s.entries v.describes.0 (λ l h. cc)))
append_cases-IsRing s e (some newest) p v = elim (Bool-cases (ltb newest.seq e.seq)) [
  | inl above ↦
      rw (p, above, append)
        (append_newest-IsRing (receive s 1) e (receive-IsRing s 1 v)
          (last-Under s.lost_below e.seq s.entries v.describes.0 (λ l h. ground arith)))
  | inr below ↦ rw (p, below, append) (merge_locked-IsRing s (e ∷ []) v)
]

-- `append` keeps the ring, on every branch.
pub append-IsRing : (s : Store) (e : LogEntry) → IsRing s → IsRing (append s e)
append-IsRing s e v = append_cases-IsRing s e (last? s.entries) refl v

is_ascending-From :
    (n : ℕ) (x : LogEntry) (es : List LogEntry)
    → is_ascending (x ∷ es) ≡ true
    → n ≤ x.seq
    → From n (x ∷ es)
unfolding is_ascending
is_ascending-From n x [] h a = (a, tt)
is_ascending-From n x (y ∷ es) h a = ground (arith, is_ascending-From (suc x.seq) y es)

loaded-From :
    (n : ℕ) (es : List LogEntry) → is_ascending es ≡ true → All (λ e. n ≤ e.seq) es → From n es
loaded-From n [] h a = tt
loaded-From n (x ∷ es) h a = is_ascending-From n x es h a.0

loaded-Indexed : (records : List LogEntry) → Indexed (index_all (λ _. none) records) records
unfolding trace_seqs
loaded-Indexed records = index_all-Indexed (λ _. none) [] records (λ tid. refl)

-- A loaded case is a ring, when its records are not below its floor.
pub from_records-IsRing :
    (capacity : ℕ) (records : List LogEntry) (lost_below : ℕ) (s : Store)
    → All (λ e. lost_below ≤ e.seq) records
    → from_records capacity records lost_below ≡ some s
    → IsRing s
unfolding from_records
from_records-IsRing capacity records lost_below s a h =
    let (asc, e) = some_of_if (is_ascending records) _ s h in
    subst IsRing e (record {
      describes =
          (loaded-From lost_below records asc a, loaded-Indexed records, empty-IsLate 0 records);
      bounded = omega arith;
    })
