-- ===== src/Ring/Scans.antt =====
-- crates/core/src/store/memory.rs: `cursor_read_trace` and `for_each_matching`, which read the ring
-- whole or a trace whole. The closure of `for_each_matching` is given the records of the list.
use logmon_mcp.Common.{
  ℕ, ◌≤◌, ◌<◌, ◌≡◌, ◌∙◌, refl, ap, sym, subst, Bool, true, false, not, ◌&&◌, ◌||◌, Option, none,
  some, List, [], ◌∷◌, ◌++◌, map, length, keep, head?, last?, ltb, leb, if◌then◌else◌, arith,
  append_assoc, All, Bool-cases, Option-cases, ◌⊎◌, inl, inr,
}
use logmon_mcp.Entry.{LogEntry}
use logmon_mcp.Filter.{ParsedFilter}
use logmon_mcp.Filter.Text.{TextEngine}
use logmon_mcp.Ring.{Store, listed, is_traced, trace_seqs}
use logmon_mcp.Ring.Map.{bt_get}
use logmon_mcp.Ring.Order.{From}
use logmon_mcp.Ring.Merging.{IsRing}
use logmon_mcp.Ring.Read.{entry_of, view_of, seq_of, passes, passes_late}
use logmon_mcp.Ring.Lookups.{entry_of-append}
use logmon_mcp.Ring.Cursor.{CursorPos, LateTag, CursorRead}

pub record ScanCounts : Type 0 where
  pub scanned : ℕ
  pub matched : ℕ
  pub oldest_seq : Option ℕ
  pub newest_seq : Option ℕ
  pub lost_below : ℕ

unfoldable pub filter_map : {A B : Type 0} → (A → Option B) → List A → List B
filter_map f [] = []
filter_map f (x ∷ xs) = elim (f x) [ none ↦ filter_map f xs | some y ↦ y ∷ filter_map f xs ]

module _ (engine : TextEngine) (filter : Option ParsedFilter) where
  -- The records visited, and the counts.
  unfoldable pub for_each_matching : Store → List LogEntry × ScanCounts
  for_each_matching s =
      let visited = keep (passes engine filter) s.entries in
      (
        visited,
        record {
          scanned = length s.entries;
          matched = length visited;
          oldest_seq = seq_of (head? s.entries);
          newest_seq = seq_of (last? s.entries);
          lost_below = s.lost_below;
        },
      )

  module _ (s : Store) (pos : CursorPos) where
    -- What the loop makes of a record of the trace: whether it is given out, and as a late one.
    unfoldable pub given_out : ℕ → LogEntry → Option (LogEntry × Option LateTag)
    given_out seq e =
        if leb seq pos.floor
        then none
        else if leb seq pos.seq
        then elim (bt_get s.late_by_seq seq) [
          | none ↦ none
          | some number ↦
              if leb number pos.late_mark || not (passes_late engine filter e)
              then none
              else some (e, some (record { number = number; held_through = 0 }))
        ]
        else if passes engine filter e
        then some (e, none)
        else none

    unfoldable pub walk_trace : List LogEntry → List ℕ → List (LogEntry × Option LateTag)
    walk_trace es [] = []
    walk_trace es (seq ∷ seqs) = elim (entry_of es seq) [
      | none ↦ walk_trace es seqs
      | some e ↦ elim (given_out seq e) [
        | none ↦ walk_trace es seqs
        | some r ↦ r ∷ walk_trace es seqs
      ]
    ]

    unfoldable pub cursor_read_trace : ℕ → CursorRead
    cursor_read_trace trace_id = record {
      entries = elim (s.trace_index trace_id) [ none ↦ [] | some seqs ↦ walk_trace s.entries seqs ];
      pos = pos;
      late_exhausted = true;
      late_counter = s.late_counter;
      held_total = none;
      view = view_of s 0;
    }

    walk_trace-keep :
        (lo tid : ℕ) (xs ys : List LogEntry)
        → From lo (xs ++ ys)
        → walk_trace (xs ++ ys) (trace_seqs tid ys)
          ≡ filter_map (λ e. given_out e.seq e) (keep (λ e. is_traced tid e) ys)
    unfolding walk_trace trace_seqs filter_map
    walk_trace-keep lo tid xs [] f = refl
    walk_trace-keep lo tid xs (e ∷ ys) f =
        let whole = append_assoc xs (e ∷ []) ys in
        ground (
          arith,
          entry_of-append lo e xs ys f,
          rw whole at (walk_trace-keep lo tid (xs ++ e ∷ []) ys (rw whole f)),
        )

    entries-cursor_read_trace :
        (tid : ℕ)
        → IsRing s
        → (cursor_read_trace tid).entries
          ≡ filter_map (λ e. given_out e.seq e) (keep (λ e. is_traced tid e) s.entries)
    unfolding cursor_read_trace walk_trace
    entries-cursor_read_trace tid v =
        rw (v.describes.1 tid, cursor_read_trace)
          (unlist (trace_seqs tid s.entries)
            ∙ walk_trace-keep s.lost_below tid [] s.entries v.describes.0)
      where
        unlist :
            (l : List ℕ)
            → (elim (listed l) as (λ _. List (LogEntry × Option LateTag)) [
              | none ↦ []
              | some seqs ↦ walk_trace s.entries seqs
            ])
              ≡ walk_trace s.entries l
        unlist [] = refl
        unlist (x ∷ l) = refl

    -- What the cursor is owed: above the floor, past its position what the filter matches, and up to
    -- it the late arrivals numbered past its mark that the filter matches without the cursor's bound.
    abbrev pub owed : LogEntry → Bool
    owed e =
        ltb pos.floor e.seq
        && (if ltb pos.seq e.seq
            then passes engine filter e
            else elim (bt_get s.late_by_seq e.seq) [
              | none ↦ false
              | some number ↦ ltb pos.late_mark number && passes_late engine filter e
            ])

    -- Past the position a record has no tag, up to it the number it arrived late under.
    abbrev pub Tagged : LogEntry × Option LateTag → Type 0
    Tagged (e, none) = pos.seq < e.seq
    Tagged (e, some t) = (e.seq ≤ pos.seq) × (bt_get s.late_by_seq e.seq ≡ some t.number)

    given_out-owed :
        (e : LogEntry)
        → ((given_out e.seq e ≡ none) × (owed e ≡ false))
          ⊎ ((t : Option LateTag) × (given_out e.seq e ≡ some (e, t))
              × (owed e ≡ true)
              × Tagged (e, t))
    unfolding given_out
    given_out-owed e = elim (Bool-cases (leb e.seq pos.floor)) [
      | inl low ↦ inl (rw (low, given_out) refl, ground (arith, low))
      | inr high ↦ elim (Bool-cases (leb e.seq pos.seq)) [
        | inr past ↦ elim (Bool-cases (passes engine filter e)) [
          | inl y ↦ inr (
            none,
            ground (arith, high, past, y),
            ground (arith, high, past, y),
            ground (arith, past),
          )
          | inr n ↦ inl (ground (arith, high, past, n), ground (arith, high, past, n))
        ]
        | inl back ↦ elim (Option-cases (bt_get s.late_by_seq e.seq)) [
          | inl plain ↦ inl (ground (arith, high, back, plain), ground (arith, high, back, plain))
          | inr (number, late) ↦
              elim (Bool-cases (leb number pos.late_mark || not (passes_late engine filter e))) [
                | inl n ↦
                    inl (ground (arith, high, back, late, n), ground (arith, high, back, late, n))
                | inr y ↦ inr (
                  some (record { number = number; held_through = 0 }),
                  ground (arith, high, back, late, y),
                  ground (arith, high, back, late, y),
                  (ground (arith, back), late),
                )
              ]
        ]
      ]
    ]

    filter_map-owed :
        (es : List LogEntry)
        → (map (λ (e, t). e) (filter_map (λ e. given_out e.seq e) es) ≡ keep owed es)
          × All Tagged (filter_map (λ e. given_out e.seq e) es)
    unfolding filter_map
    filter_map-owed [] = (refl, tt)
    filter_map-owed (e ∷ es) = elim (given_out-owed e) [
      | inl (n, o) ↦ rw (n, filter_map) (rw o (filter_map-owed es))
      | inr (t, y, o, g) ↦
          let rest = filter_map-owed es in
          rw (y, filter_map) (rw o (ap (λ l. e ∷ l) rest.0, (g, rest.1)))
    ]

    -- A cursor's read of a trace gives, of the held records of the trace in seq order, exactly those
    -- that it is owed: nothing at or below the floor; up to the position the late arrivals numbered
    -- past the mark that match without the cursor's own bound, each with its number; past the
    -- position every record that matches, without a number.
    pub cursor_read_trace-keep :
        (tid : ℕ)
        → IsRing s
        → (map (λ (e, t). e) (cursor_read_trace tid).entries
            ≡ keep owed (keep (λ e. is_traced tid e) s.entries))
          × All Tagged (cursor_read_trace tid).entries
    cursor_read_trace-keep tid v =
        let whole = filter_map-owed (keep (λ e. is_traced tid e) s.entries) in
        let same = entries-cursor_read_trace tid v in
        (ap (map (λ (e, t). e)) same ∙ whole.0, subst (λ l. All Tagged l) (sym same) whole.1)
