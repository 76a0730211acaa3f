-- ===== src/Ring/Room.antt =====
-- Making room in the ring: what leaves is the front of the ring and then the front of the merged
-- run, as if the whole merged ring lost its front.
use logmon_mcp.Common.{
  ℕ, zero, suc, ◌-◌, ◌≤◌, ◌<◌, ◌≡◌, ◌∙◌, refl, sym, ap, true, none, some, List, [], ◌∷◌, ◌++◌, ◌==◌,
  length, take, drop, arith, any-append, ◌⊎◌, inl, inr, append-nil, subst, ap₂, Bool-cases,
  drop_all, drop-append, take-append, All-append, All-imp, u64_max,
}
use native.Mathlib.Decide.{dec_le}
use logmon_mcp.Entry.{LogEntry}
use logmon_mcp.Ring.{Store, lose}
use logmon_mcp.Ring.Write.{evict_excess, Dropped, drop_excess, is_dropped, make_room}
use logmon_mcp.Ring.Order.{From, From-mono, has_seq}
use logmon_mcp.Ring.Map.{bt_get}
use logmon_mcp.Ring.Steps.{
  lose-none, lose-Gone, Gone, Describes, Evicts, entries-lose, late_counter-lose, lose-Describes,
  evict_excess-Evicts,
}

stays_dropped :
    (n : ℕ) (d : Dropped) (merged : List LogEntry) (q : ℕ)
    → is_dropped d.through q ≡ true
    → From q merged
    → is_dropped (drop_excess n d merged).through q ≡ true
unfolding drop_excess
stays_dropped zero d merged q h f = h
stays_dropped (suc n) d [] q h f = h
stays_dropped (suc n) d (e ∷ merged) q h f =
    stays_dropped n _ merged q (ground arith)
      (From-mono q (suc e.seq) merged (omega (arith, f.0)) f.1)

-- A record of the merged run is in what is left of it, or marked as dropped.
drop_excess_covers :
    (n k : ℕ) (d : Dropped) (merged : List LogEntry) (q : ℕ)
    → From k merged
    → has_seq q merged ≡ true
    → (is_dropped (drop_excess n d merged).through q ≡ true)
      ⊎ (has_seq q (drop_excess n d merged).merged ≡ true)
unfolding drop_excess
drop_excess_covers zero k d merged q f h = inr h
drop_excess_covers (suc n) k d [] q f h = inr h
drop_excess_covers (suc n) k d (e ∷ merged) q f h = elim (Bool-cases (e.seq == q)) [
  | inl here ↦ inl (
      stays_dropped n _ merged q (ground arith) (From-mono q (suc e.seq) merged (ground arith) f.1))
  | inr there ↦ drop_excess_covers n (suc e.seq) _ merged q f.1 (ground arith)
]

record Drops (n : ℕ) (d : Dropped) (merged : List LogEntry) (r : Dropped) : Type 0 where
  rest : r.merged ≡ drop n merged
  same_entries : r.store.entries ≡ d.store.entries
  same_capacity : r.store.max_capacity ≡ d.store.max_capacity
  same_counter : r.store.late_counter ≡ d.store.late_counter
  describes : Describes r.store (drop n merged)
  floor_ge : d.store.lost_below ≤ r.store.lost_below
  gone : Gone r.store (take n merged)
  still_none : (q : ℕ) → bt_get d.store.late_by_seq q ≡ none → bt_get r.store.late_by_seq q ≡ none

drop_excess-Drops :
    (n : ℕ) (d : Dropped) (merged : List LogEntry)
    → Describes d.store merged
    → Drops n d merged (drop_excess n d merged)
unfolding drop_excess lose
drop_excess-Drops zero d merged h = record {
  rest = refl;
  same_entries = refl;
  same_capacity = refl;
  same_counter = refl;
  describes = h;
  floor_ge = omega arith;
  gone = tt;
  still_none = λ q u. u;
}
drop_excess-Drops (suc n) d [] h = record {
  rest = refl;
  same_entries = refl;
  same_capacity = refl;
  same_counter = refl;
  describes = h;
  floor_ge = omega arith;
  gone = tt;
  still_none = λ q u. u;
}
drop_excess-Drops (suc n) d (e ∷ merged) h =
    let t = lose e d.store in
    let ih =
      drop_excess-Drops n (record d { store = t; through = some e.seq }) merged
        (lose-Describes e d.store merged h) in
    record {
      rest = ih.rest;
      same_entries = ih.same_entries ∙ entries-lose e d.store;
      same_capacity = ih.same_capacity;
      same_counter = ih.same_counter ∙ late_counter-lose e d.store;
      describes = ih.describes;
      floor_ge = omega (arith, ih.floor_ge, (lose-Gone e d.store).0);
      gone = (λ u. omega (arith, ih.floor_ge, (lose-Gone e d.store).1 u), ih.gone);
      still_none = λ q u. ih.still_none q (lose-none e d.store q u);
    }

pub record Room (n : ℕ) (s : Store) (es merged : List LogEntry) (r : Dropped) : Type 0 where
  pub ring : r.store.entries ++ r.merged ≡ drop n (es ++ merged)
  pub same_capacity : r.store.max_capacity ≡ s.max_capacity
  pub same_counter : r.store.late_counter ≡ s.late_counter
  pub describes : Describes r.store (drop n (es ++ merged))
  pub floor_ge : s.lost_below ≤ r.store.lost_below
  pub gone : Gone r.store (take n (es ++ merged))
  pub still_none : (q : ℕ) → bt_get s.late_by_seq q ≡ none → bt_get r.store.late_by_seq q ≡ none
  pub covers :
      (q : ℕ)
      → has_seq q merged ≡ true
      → (is_dropped r.through q ≡ true) ⊎ (has_seq q (drop n (es ++ merged)) ≡ true)

-- The ring alone gives the room.
Room-in_front :
    (n k : ℕ) (s t : Store) (es merged : List LogEntry)
    → n ≤ length es
    → Evicts n s es merged (t, k)
    → Room n s es merged (record { store = t; merged = merged; through = none })
Room-in_front n k s t es merged h v =
    let e : drop n (es ++ merged) ≡ drop n es ++ merged = ground (arith, drop-append n es merged) in
    let nothing_more : n - length es ≡ 0 = omega arith in
    record {
      ring = ap (λ x. x ++ merged) v.rest ∙ sym e;
      same_capacity = v.same_capacity;
      same_counter = v.same_counter;
      describes = subst (Describes t) (sym e) v.describes;
      floor_ge = v.floor_ge;
      gone =
          subst (Gone t)
            (sym (
              take-append n es merged
              ∙ ap (λ k. take n es ++ take k merged) nothing_more
              ∙ append-nil (take n es)))
            v.gone;
      still_none = v.still_none;
      covers = λ q m. inr (rw e (ground (arith, any-append (λ x. x.seq == q) (drop n es) merged)));
    }

-- The ring is empty, and the merged run loses its front too.
Room-in_run :
    (n : ℕ) (s t : Store) (es merged : List LogEntry) (k : ℕ)
    → length es ≤ n
    → From k merged
    → Evicts n s es merged (t, n - length es)
    → Room n s es merged
        (drop_excess (n - length es) (record { store = t; merged = merged; through = none }) merged)
Room-in_run n s t es merged k h f v =
    let m = n - length es in
    let gone : drop n es ≡ [] = drop_all n es h in
    let e : drop n (es ++ merged) ≡ drop m merged =
      drop-append n es merged ∙ ap (λ x. x ++ drop m merged) gone in
    let start : Dropped = record { store = t; merged = merged; through = none } in
    let d : Drops m start merged (drop_excess m start merged) =
      drop_excess-Drops m start merged (subst (λ x. Describes t (x ++ merged)) gone v.describes) in
    record {
      ring = ap₂ (λ x y. x ++ y) (d.same_entries ∙ v.rest ∙ gone) d.rest ∙ sym e;
      same_capacity = d.same_capacity ∙ v.same_capacity;
      same_counter = d.same_counter ∙ v.same_counter;
      describes = subst (Describes (drop_excess m start merged).store) (sym e) d.describes;
      floor_ge = omega (arith, d.floor_ge, v.floor_ge);
      gone = subst (Gone (drop_excess m start merged).store) (sym (take-append n es merged)) (
          All-append _ (take n es) (take m merged)
            (All-imp {P = λ x. x.seq < u64_max → x.seq < t.lost_below}
              {Q = λ x. x.seq < u64_max → x.seq < (drop_excess m start merged).store.lost_below}
              (λ x g u. omega (arith, g u, d.floor_ge)) (take n es) v.gone)
            d.gone);
      still_none = λ q u. d.still_none q (v.still_none q u);
      covers = λ q h. ground (arith, drop_excess_covers m k start merged q f h, d.rest, e);
    }

Room-of :
    (n k : ℕ) (s t : Store) (es merged : List LogEntry) (left : ℕ)
    → From k merged
    → Evicts n s es merged (t, left)
    → Room n s es merged
        (drop_excess left (record { store = t; merged = merged; through = none }) merged)
unfolding drop_excess
Room-of n k s t es merged left f v = elim (dec_le n (length es)) [
  | yes le ↦
      subst (λ l. Room n s es merged (drop_excess l start merged)) (zero_left le)
        (Room-in_front n left s t es merged le v)
  | no gt ↦
      subst (λ l. Room n s es merged (drop_excess l start merged)) (sym v.left)
        (Room-in_run n s t es merged k (omega arith) f
          (subst (λ l. Evicts n s es merged (t, l)) v.left v))
]
  where
    start : Dropped
    start = record { store = t; merged = merged; through = none }

    zero_left : n ≤ length es → 0 ≡ left
    zero_left le = omega (arith, v.left)

pub make_room-Room :
    (n k : ℕ) (s : Store) (es merged : List LogEntry)
    → s.entries ≡ es
    → From k merged
    → Describes s (es ++ merged)
    → Room n s es merged (make_room n merged s)
unfolding make_room
make_room-Room n k s es merged h f d =
    let r = evict_excess n s in
    Room-of n k s r.0 es merged r.1 f (evict_excess-Evicts n s es merged h d)
