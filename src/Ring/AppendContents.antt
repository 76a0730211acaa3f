-- ===== src/Ring/AppendContents.antt =====
-- What the ring holds after `append`.
use logmon_mcp.Common.{
  ℕ, suc, ◌≤◌, ◌<◌, max, ◌≡◌, refl, ap, true, Option, none, some, List, [], ◌∷◌, ◌++◌, ltb, leb,
  ◌==◌, if◌then◌else◌, length, last?, arith, any-append, ◌≢◌, inl, inr, subst, Bool-cases,
  wrapping_add, sat_suc, sat_suc-le, sat_suc-gt, u64_max, ltb→ge, length-nil, lt→leb_false,
}
use logmon_mcp.Entry.{LogEntry}
use logmon_mcp.Ring.{Store, refuse_below, lose, evict_front, with_entries}
use logmon_mcp.Ring.Write.{insert_sorted, receive, push_newest, append_newest, append}
use logmon_mcp.Ring.Order.{From, has_seq, has_seq_below}
use logmon_mcp.Ring.Steps.{entries-lose, evict_front_cons}
use logmon_mcp.Ring.Merging.{IsRing}
use logmon_mcp.Ring.Invariant.{refuse_below_ge}
use logmon_mcp.Ring.Append.{Under, last-Under, receive-IsRing}
use logmon_mcp.Ring.Contents.{Holds, insert_sorted-Holds}

Under-false : (q k : ℕ) (es : List LogEntry) → Under k es → has_seq q es ≡ true → q < k
Under-false q k [] u h = cc
Under-false q k (e ∷ es) u h = ground (arith, u.0, Under-false q k es u.1)

module _ (q : ℕ) (s : Store) (e : LogEntry) (v : IsRing s) (u : Under e.seq s.entries)
    (small : q < u64_max) where
  above : has_seq q s.entries ≡ true → s.lost_below ≤ q
  above h = ground (arith, has_seq_below s.lost_below q s.entries v.describes.0)

  refused-Holds : ltb e.seq (refuse_below s) ≡ true → Holds q s s (e.seq == q)
  refused-Holds h = record { floor_ge = omega arith; contents = ground (arith, above) }

  none_held-Holds :
      s.max_capacity ≡ 0
      → Holds q s
          (record s {
            lost_below = max s.lost_below (sat_suc e.seq);
            total_stored = wrapping_add s.total_stored 1;
          })
          (e.seq == q)
  none_held-Holds h = record {
    floor_ge = omega arith;
    contents = ground (
      arith,
      ap (has_seq q) (length-nil s.entries (omega (arith, v.bounded))),
      sat_suc-gt q small,
    );
  }

  push-Holds : refuse_below s ≤ e.seq → Holds q s (push_newest s e) (e.seq == q)
  unfolding push_newest
  push-Holds h = record {
    floor_ge = omega arith;
    contents =
        ground
          (arith, any-append (λ x. x.seq == q) s.entries (e ∷ []), above, (refuse_below_ge s).0);
  }

  push_full-Holds :
      (x : LogEntry) (rest : List LogEntry)
      → s.entries ≡ x ∷ rest
      → refuse_below s ≤ e.seq
      → Holds q s (push_newest (evict_front s) e) (e.seq == q)
  unfolding push_newest lose
  push_full-Holds x rest p h =
      let f : From s.lost_below (x ∷ rest) = subst (From s.lost_below) p v.describes.0 in
      let below : Under e.seq (x ∷ rest) = subst (Under e.seq) p u in
      rw (evict_front_cons s x rest p) (record {
        floor_ge = omega arith;
        contents = ground (
          arith,
          ap (has_seq q) p,
          ap (λ l. has_seq q (l ++ e ∷ [])) (entries-lose x (with_entries s rest)),
          any-append (λ y. y.seq == q) rest (e ∷ []),
          has_seq_below (suc x.seq) q rest f.1,
          sat_suc-le x.seq,
          sat_suc-gt q small,
          f.0,
          below.0,
          (refuse_below_ge s).0,
        );
      })

  -- A full ring loses its lowest record first.
  push_evicted-Holds :
      (es : List LogEntry)
      → s.entries ≡ es
      → refuse_below s ≤ e.seq
      → s.max_capacity ≢ 0
      → Holds q s
          (push_newest (if leb s.max_capacity (length es) then evict_front s else s) e)
          (e.seq == q)
  push_evicted-Holds [] p h some_room =
      rw (lt→leb_false 0 s.max_capacity (omega arith)) (push-Holds h)
  push_evicted-Holds (x ∷ rest) p h some_room =
      elim (Bool-cases (leb s.max_capacity (suc (length rest)))) [
        | inl full ↦ rw full (push_full-Holds x rest p h)
        | inr free ↦ rw free (push-Holds h)
      ]

  append_newest-Holds : Holds q s (append_newest s e) (e.seq == q)
  unfolding append_newest
  append_newest-Holds = elim (Bool-cases (ltb e.seq (refuse_below s))) [
    | inl refused ↦ rw (refused, append_newest) (refused-Holds refused)
    | inr fits ↦
        rw (fits, append_newest)
          (elim (Bool-cases (s.max_capacity == 0)) [
            | inl nothing ↦ rw nothing (none_held-Holds (ground arith))
            | inr holds_some ↦
                rw holds_some (push_evicted-Holds s.entries refl (ltb→ge _ _ fits) (ground arith))
          ])
  ]

received-Holds :
    (q : ℕ) (s t : Store) (e : LogEntry)
    → Holds q (receive s 1) t (e.seq == q)
    → Holds q s t (has_seq q (e ∷ []))
unfolding refuse_below
received-Holds q s t e h = record { floor_ge = h.floor_ge; contents = ground (arith, h.contents) }

append_fast :
    (q : ℕ) (s : Store) (e : LogEntry)
    → ((l : LogEntry) → last? s.entries ≡ some l → l.seq < e.seq)
    → IsRing s
    → q < u64_max
    → Holds q s (append_newest (receive s 1) e) (has_seq q (e ∷ []))
append_fast q s e newer v h = received-Holds q s _ e (
    append_newest-Holds q (receive s 1) e (receive-IsRing s 1 v)
      (last-Under s.lost_below e.seq s.entries v.describes.0 newer) h)

append_cases :
    (q : ℕ) (s : Store) (e : LogEntry) (o : Option LogEntry)
    → last? s.entries ≡ o
    → IsRing s
    → q < u64_max
    → Holds q s (append s e) (has_seq q (e ∷ []))
unfolding append insert_sorted
append_cases q s e none p v h = rw (p, append) (append_fast q s e (λ l g. cc) v h)
append_cases q s e (some newest) p v h = elim (Bool-cases (ltb newest.seq e.seq)) [
  | inl above ↦ rw (p, above, append) (append_fast q s e (λ l g. ground arith) v h)
  | inr below ↦ rw (p, below, append) (insert_sorted-Holds q s (e ∷ []) v h)
]

-- After `append` the ring holds what it held and the record, unless a floor refused it, but for
-- what is below the loss floor, which never falls.
pub append-Holds :
    (q : ℕ) (s : Store) (e : LogEntry)
    → IsRing s
    → q < u64_max
    → Holds q s (append s e) (has_seq q (e ∷ []))
append-Holds q s e v h = append_cases q s e (last? s.entries) refl v h
