-- ===== src/Ring/KeptNumbers.antt =====
-- What the writers make of a late number that a held record has, or has not.
use logmon_mcp.Common.{
  ℕ, zero, suc, ◌+◌, ◌≡◌, ◌∙◌, refl, Option, none, some, List, [], ◌∷◌, true, false, ◌==◌, All,
  arith, Option-cases, Bool-cases, inl, inr,
}
use logmon_mcp.Entry.{LogEntry}
use logmon_mcp.Ring.{Store, lose, evict_front, forget_late, with_entries}
use logmon_mcp.Ring.Map.{
  BTreeMap, Keys, bt_get, bt_get-insert, bt_get-remove, bt_remove, bt_remove-Keys,
}
use logmon_mcp.Ring.Order.{has_seq}
use logmon_mcp.Ring.Merge.{Apart}
use logmon_mcp.Ring.Steps.{late_by_seq-unindex}
use logmon_mcp.Ring.Write.{
  evict_excess, Dropped, drop_excess, make_room, is_dropped, number_one, number_late,
}

-- A late number that `t` has for a seq is the one that `s` has.
abbrev pub Older : ℕ → Store → Store → Type 0
Older q s t = (n : ℕ) → bt_get t.late_by_seq q ≡ some n → bt_get s.late_by_seq q ≡ some n

pub record Shed (q : ℕ) (s t : Store) : Type 0 where
  pub keys : Keys 0 t.late_by_seq
  pub older : Older q s t

pub Shed-then : (q : ℕ) (s t u : Store) → Shed q s t → Shed q t u → Shed q s u
Shed-then q s t u a b = record { keys = b.keys; older = λ n h. a.older n (b.older n h) }

removed :
    (m : BTreeMap) (k q n : ℕ) → Keys 0 m → bt_get (bt_remove m k) q ≡ some n → bt_get m q ≡ some n
removed m k q n h e = ground (arith, bt_get-remove 0 m k q h, e)

lose-Shed : (e : LogEntry) (s : Store) (q : ℕ) → Keys 0 s.late_by_seq → Shed q s (lose e s)
unfolding lose forget_late
lose-Shed e s q h = elim (Option-cases (bt_get s.late_by_seq e.seq)) [
  | inl g ↦
      let same : (lose e s).late_by_seq ≡ s.late_by_seq =
        late_by_seq-unindex s.inner e.trace_id e.seq ∙ rw (g, forget_late) refl in
      record { keys = rw same h; older = λ n x. rw same at x }
  | inr (k, g) ↦
      let same : (lose e s).late_by_seq ≡ bt_remove s.late_by_seq e.seq =
        late_by_seq-unindex s.inner e.trace_id e.seq ∙ rw (g, forget_late) refl in
      record {
        keys = rw same (bt_remove-Keys 0 e.seq s.late_by_seq h);
        older = λ n x. removed s.late_by_seq e.seq q n h (rw same at x);
      }
]

same-Shed : (q : ℕ) (s : Store) → Keys 0 s.late_by_seq → Shed q s s
same-Shed q s h = record { keys = h; older = λ n x. x }

pub evict_front-Shed : (s : Store) (q : ℕ) → Keys 0 s.late_by_seq → Shed q s (evict_front s)
unfolding evict_front
evict_front-Shed s q h = go s.entries
  where
    go :
        (es : List LogEntry)
        → Shed q s (elim es as (λ _. Store) [ [] ↦ s | e ∷ rest ↦ lose e (with_entries s rest) ])
    go [] = same-Shed q s h
    go (e ∷ rest) =
        let l = lose-Shed e (with_entries s rest) q h in record { keys = l.keys; older = l.older }

evict_excess-Shed :
    (n : ℕ) (s : Store) (q : ℕ) → Keys 0 s.late_by_seq → Shed q s (evict_excess n s).0
unfolding evict_excess
evict_excess-Shed zero s q h = same-Shed q s h
evict_excess-Shed (suc n) s q h =
    let t = evict_front s in
    let a = evict_front-Shed s q h in
    go t s.entries (Shed-then q s t (evict_excess n t).0 a (evict_excess-Shed n t q a.keys))
  where
    go :
        (t : Store) (es : List LogEntry)
        → Shed q s (evict_excess n t).0
        → Shed q s (elim es as (λ _. Store × ℕ) [ [] ↦ (s, suc n) | _ ∷ _ ↦ evict_excess n t ]).0
    go t [] r = same-Shed q s h
    go t (_ ∷ _) r = r

drop_excess-Shed :
    (n : ℕ) (d : Dropped) (merged : List LogEntry) (q : ℕ)
    → Keys 0 d.store.late_by_seq
    → Shed q d.store (drop_excess n d merged).store
unfolding drop_excess
drop_excess-Shed zero d merged q h = same-Shed q d.store h
drop_excess-Shed (suc n) d [] q h = same-Shed q d.store h
drop_excess-Shed (suc n) d (e ∷ merged) q h =
    let t = lose e d.store in
    let a = lose-Shed e d.store q h in
    Shed-then q d.store t _ a
      (drop_excess-Shed n (record d { store = t; through = some e.seq }) merged q a.keys)

pub make_room-Shed :
    (n : ℕ) (merged : List LogEntry) (s : Store) (q : ℕ)
    → Keys 0 s.late_by_seq
    → Shed q s (make_room n merged s).store
unfolding make_room
make_room-Shed n merged s q h =
    let r = evict_excess n s in
    let a = evict_excess-Shed n s q h in
    Shed-then q s r.0 _ a (
      drop_excess-Shed r.1 (record { store = r.0; merged = merged; through = none }) merged q
        a.keys)

-- Only the seqs of the list are numbered.
pub number_late-Older :
    (through : Option ℕ) (seqs : List ℕ) (s : Store) (q : ℕ)
    → All (λ x. (x == q) ≡ false) seqs
    → Older q s (number_late through seqs s)
unfolding number_late number_one
number_late-Older through [] s q h n e = e
number_late-Older through (x ∷ seqs) s q h n e = elim (Bool-cases (is_dropped through x)) [
  | inl gone ↦ number_late-Older through seqs s q h.1 n (rw (gone, number_late) at e)
  | inr kept ↦
      let ih =
        number_late-Older through seqs (number_one s x) q h.1 n (rw (kept, number_late) at e) in
      ground (arith, ih, bt_get-insert s.late_by_seq x (s.late_counter + 1) q, h.0)
]

pub not_offered :
    (q : ℕ) (es batch : List LogEntry)
    → has_seq q es ≡ true
    → Apart es batch
    → All (λ e. (e.seq == q) ≡ false) batch
not_offered q es [] h a = tt
not_offered q es (e ∷ batch) h a = (
  elim (Bool-cases (e.seq == q)) [ inl y ↦ ground (arith, y, h, a.0) | inr n ↦ n ],
  not_offered q es batch h a.1,
)
