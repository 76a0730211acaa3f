-- ===== src/Ring/Steps.antt =====
-- What the steps of the writers keep: the floor, the index and the late maps describe a list of
-- records, that is the ring, or the ring and the records on their way back to it.
use logmon_mcp.Common.{
  ℕ, zero, suc, ◌-◌, ◌≤◌, ◌<◌, max, ◌≡◌, ◌∙◌, refl, Option, none, List, [], ◌∷◌, ◌++◌, length, take,
  drop, All, arith, Option-cases, inl, inr, sat_suc, sat_suc-le, sat_suc-gt, u64_max,
}
use logmon_mcp.Entry.{LogEntry}
use logmon_mcp.Ring.{
  Store, StoreInner, unindex, forget_trace, forget_late, lose, evict_front, with_entries,
}
use logmon_mcp.Ring.Write.{evict_excess}
use logmon_mcp.Ring.Map.{bt_get, bt_remove-none}
use logmon_mcp.Ring.Order.{From, From-mono}
use logmon_mcp.Ring.Index.{Indexed}
use logmon_mcp.Ring.IndexSteps.{unindex-Indexed}
use logmon_mcp.Ring.Late.{IsLate, leave_plain, leave_late}

abbrev pub Describes : Store → List LogEntry → Type 0
Describes s es =
    From s.lost_below es × Indexed s.trace_index es × IsLate s.late s.late_by_seq s.late_counter es

pub entries-lose : (e : LogEntry) (s : Store) → (lose e s).entries ≡ s.entries
unfolding lose unindex forget_trace forget_late
entries-lose e s = ground arith

pub late_counter-lose : (e : LogEntry) (s : Store) → (lose e s).late_counter ≡ s.late_counter
unfolding lose unindex forget_trace forget_late
late_counter-lose e s = ground arith

module _ (inner : StoreInner) (trace_id : Option ℕ) (seq : ℕ) where
  late-unindex : (unindex inner trace_id seq).late ≡ (forget_late inner seq).late
  unfolding unindex forget_trace
  late-unindex = ground arith

  pub late_by_seq-unindex :
      (unindex inner trace_id seq).late_by_seq ≡ (forget_late inner seq).late_by_seq
  unfolding unindex forget_trace
  late_by_seq-unindex = ground arith

  late_counter-unindex : (unindex inner trace_id seq).late_counter ≡ inner.late_counter
  unfolding unindex forget_trace forget_late
  late_counter-unindex = ground arith

forget_late-IsLate :
    (inner : StoreInner) (e : LogEntry) (es : List LogEntry)
    → IsLate inner.late inner.late_by_seq inner.late_counter (e ∷ es)
    → let i = forget_late inner e.seq in IsLate i.late i.late_by_seq inner.late_counter es
unfolding forget_late
forget_late-IsLate inner e es l = elim (Option-cases (bt_get inner.late_by_seq e.seq)) [
  | inl h ↦ rw (h, forget_late) (leave_plain _ _ _ e es l h)
  | inr (n, h) ↦ rw (h, forget_late) (leave_late _ _ _ e es l n h)
]

unindex-IsLate :
    (inner : StoreInner) (e : LogEntry) (es : List LogEntry)
    → IsLate inner.late inner.late_by_seq inner.late_counter (e ∷ es)
    → let i = unindex inner e.trace_id e.seq in IsLate i.late i.late_by_seq i.late_counter es
unindex-IsLate inner e es l =
    simp
      (
        late-unindex inner e.trace_id e.seq,
        late_by_seq-unindex inner e.trace_id e.seq,
        late_counter-unindex inner e.trace_id e.seq,
      )
      (forget_late-IsLate inner e es l)

lose-From :
    (floor : ℕ) (e : LogEntry) (es : List LogEntry)
    → From floor (e ∷ es)
    → From (max floor (sat_suc e.seq)) es
lose-From floor e es f =
    From-mono (max floor (sat_suc e.seq)) (suc e.seq) es (omega (arith, sat_suc-le e.seq, f.0)) f.1

-- The lowest record leaves.
pub lose-Describes :
    (e : LogEntry) (s : Store) (es : List LogEntry) → Describes s (e ∷ es) → Describes (lose e s) es
unfolding lose
lose-Describes e s es (f, i, l) =
    (lose-From s.lost_below e es f, unindex-Indexed s.inner e es i, unindex-IsLate s.inner e es l)

-- No record comes to be stored late by another's leaving.
pub lose-none :
    (e : LogEntry) (s : Store) (q : ℕ)
    → bt_get s.late_by_seq q ≡ none
    → bt_get (lose e s).late_by_seq q ≡ none
unfolding lose forget_late
lose-none e s q h =
    rw (late_by_seq-unindex s.inner e.trace_id e.seq)
      (ground (arith, bt_remove-none s.late_by_seq e.seq q))

abbrev pub Gone : Store → List LogEntry → Type 0
Gone s es = All (λ e. e.seq < u64_max → e.seq < s.lost_below) es

-- The floor rises past a record that leaves, and never falls.
pub lose-Gone :
    (e : LogEntry) (s : Store)
    → (s.lost_below ≤ (lose e s).lost_below) × (e.seq < u64_max → e.seq < (lose e s).lost_below)
unfolding lose
lose-Gone e s = (omega arith, λ h. omega (arith, sat_suc-gt e.seq h))

pub evict_front_cons :
    (s : Store) (e : LogEntry) (rest : List LogEntry)
    → s.entries ≡ e ∷ rest
    → evict_front s ≡ lose e (with_entries s rest)
unfolding evict_front
evict_front_cons s e rest h = rw (h, evict_front)

-- What an eviction loop leaves: the front of the ring has gone, one record for each unit.
pub record Evicts (n : ℕ) (s : Store) (es pending : List LogEntry) (r : Store × ℕ) : Type 0 where
  pub rest : r.0.entries ≡ drop n es
  pub left : r.1 ≡ n - length es
  pub same_capacity : r.0.max_capacity ≡ s.max_capacity
  pub same_counter : r.0.late_counter ≡ s.late_counter
  pub describes : Describes r.0 (drop n es ++ pending)
  pub floor_ge : s.lost_below ≤ r.0.lost_below
  pub gone : Gone r.0 (take n es)
  pub still_none : (q : ℕ) → bt_get s.late_by_seq q ≡ none → bt_get r.0.late_by_seq q ≡ none

pub evict_excess-Evicts :
    (n : ℕ) (s : Store) (es pending : List LogEntry)
    → s.entries ≡ es
    → Describes s (es ++ pending)
    → Evicts n s es pending (evict_excess n s)
unfolding evict_excess lose
evict_excess-Evicts zero s es pending h d = record {
  rest = h;
  left = omega arith;
  same_capacity = refl;
  same_counter = refl;
  describes = d;
  floor_ge = omega arith;
  gone = tt;
  still_none = λ q u. u;
}
evict_excess-Evicts (suc n) s [] pending h d =
    rw (h, evict_excess)
      (record {
        rest = h;
        left = omega arith;
        same_capacity = refl;
        same_counter = refl;
        describes = d;
        floor_ge = omega arith;
        gone = tt;
        still_none = λ q u. u;
      })
evict_excess-Evicts (suc n) s (e ∷ es) pending h d =
    rw (h, evict_excess)
      (rw (evict_front_cons s e es h) (
        let t = lose e (with_entries s es) in
        let ih =
          evict_excess-Evicts n t es pending (entries-lose e (with_entries s es))
            (lose-Describes e (with_entries s es) (es ++ pending) d) in
        record {
          rest = ih.rest;
          left = omega (arith, ih.left);
          same_capacity = ih.same_capacity;
          same_counter = ih.same_counter ∙ late_counter-lose e (with_entries s es);
          describes = ih.describes;
          floor_ge = omega (arith, ih.floor_ge, (lose-Gone e (with_entries s es)).0);
          gone = (λ h. omega (arith, ih.floor_ge, (lose-Gone e (with_entries s es)).1 h), ih.gone);
          still_none = λ q u. ih.still_none q (lose-none e (with_entries s es) q u);
        }))
