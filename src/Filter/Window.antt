-- ===== src/Filter/Window.antt =====
-- The seq window of a filter against the matcher: a bound that the window states holds for every
-- record that the filter matches.
use logmon_mcp.Common.{
  ℕ, ◌+◌, ◌≤◌, ◌<◌, ◌≡◌, refl, true, not, ◌||◌, Option, none, some, List, [], ◌∷◌, all, keep,
  sat_suc, sat_suc-le, arith, and_true,
}
use logmon_mcp.Entry.{LogEntry}
use logmon_mcp.Filter.{
  SeqOp, Qualifier, ParsedFilter, seq_filter, cursor_seq, match_all, match_none, qualifiers,
  lower_bound, max_bound, max_option, resolved_lower_bound, narrow, narrow_all, resolved_seq_range,
  evicted_below, evicted_before_window,
}
use logmon_mcp.Filter.Text.{TextEngine}
use logmon_mcp.Filter.Matcher.{matches_seq, matches_qualifier, matches_entry, is_cursor_seq}

abbrev pub Within : Option ℕ × Option ℕ → ℕ → Type 0
Within (lo, hi) seq =
    (elim lo as (λ _. Type 0) [ none ↦ Unit {0} | some l ↦ l ≤ seq ])
    × (elim hi as (λ _. Type 0) [ none ↦ Unit {0} | some h ↦ seq ≤ h ])

max_option-lt :
    (x y : Option ℕ) (b n : ℕ)
    → ((a : ℕ) → x ≡ some a → a < n)
    → ((a : ℕ) → y ≡ some a → a < n)
    → max_option x y ≡ some b
    → b < n
max_option-lt none y b n f g h = g b h
max_option-lt (some a) none b n f g h = f b h
max_option-lt (some a) (some c) b n f g h = ground (arith, f a refl, g c refl)

module _ (engine : TextEngine) (e : LogEntry) where
  narrow-Within :
      (q : Qualifier) (lo hi : Option ℕ)
      → matches_qualifier engine q e ≡ true
      → Within (lo, hi) e.seq
      → Within (narrow q (lo, hi)) e.seq
  unfolding narrow matches_qualifier matches_seq
  narrow-Within (seq_filter SeqOp.gt value) lo hi m w = ground (arith, sat_suc-le value)
  narrow-Within (seq_filter SeqOp.lt value) lo hi m w = ground arith
  narrow-Within (cursor_seq value) lo hi m w = ground (arith, sat_suc-le value)
  narrow-Within q lo hi m w = w

  narrow_all-Within :
      (qs : List Qualifier) (lo hi : Option ℕ)
      → all (λ q. matches_qualifier engine q e) qs ≡ true
      → Within (lo, hi) e.seq
      → Within (narrow_all qs (lo, hi)) e.seq
  unfolding narrow_all
  narrow_all-Within [] lo hi m w = w
  narrow_all-Within (q ∷ qs) lo hi m w =
      let (here, there) = and_true _ _ m in
      narrow_all-Within qs (narrow q (lo, hi)).0 (narrow q (lo, hi)).1 there
        (narrow-Within q lo hi here w)

  lower_bound-lt :
      (q : Qualifier) (b : ℕ)
      → matches_qualifier engine q e ≡ true
      → lower_bound q ≡ some b
      → b < e.seq
  unfolding lower_bound matches_qualifier matches_seq
  lower_bound-lt (seq_filter SeqOp.gt value) b m h = ground arith
  lower_bound-lt (seq_filter SeqOp.lt value) b m h = cc
  lower_bound-lt (cursor_seq value) b m h = ground arith
  lower_bound-lt q b m h = cc

  max_bound-lt :
      (qs : List Qualifier) (b : ℕ)
      → all (λ q. matches_qualifier engine q e) qs ≡ true
      → max_bound qs ≡ some b
      → b < e.seq
  unfolding max_bound
  max_bound-lt [] b m h = cc
  max_bound-lt (q ∷ qs) b m h =
      let (here, there) = and_true _ _ m in
      max_option-lt (lower_bound q) (max_bound qs) b e.seq (λ a. lower_bound-lt q a here)
        (λ a. max_bound-lt qs a there) h

  -- Every record that a filter matches lies in the window that the filter resolves to.
  pub matches_entry-Within :
      (filter : ParsedFilter)
      → matches_entry engine filter e ≡ true
      → Within (resolved_seq_range (some filter)) e.seq
  unfolding matches_entry resolved_seq_range
  matches_entry-Within match_all m = (tt, tt)
  matches_entry-Within match_none m = (tt, tt)
  matches_entry-Within (qualifiers qs) m = narrow_all-Within qs none none m (tt, tt)

  resolved_lower_bound-lt :
      (filter : ParsedFilter) (b : ℕ)
      → matches_entry engine filter e ≡ true
      → resolved_lower_bound filter ≡ some b
      → b < e.seq
  unfolding matches_entry resolved_lower_bound
  resolved_lower_bound-lt match_all b m h = cc
  resolved_lower_bound-lt match_none b m h = cc
  resolved_lower_bound-lt (qualifiers qs) b m h = max_bound-lt qs b m h

  -- Where a filter has a lower bound and `evicted_before_window` reports no loss, no record that
  -- the filter matches is below the store's loss floor; a reported gap is positive and is exactly
  -- how far the loss floor lies above the first seq past the bound.
  pub evicted_before_window-honest :
      (filter : ParsedFilter) (b lost_below : ℕ)
      → matches_entry engine filter e ≡ true
      → resolved_lower_bound filter ≡ some b
      → (evicted_before_window filter lost_below ≡ none → lost_below ≤ e.seq)
        × ((gap : ℕ)
            → evicted_before_window filter lost_below ≡ some gap
            → (0 < gap) × (sat_suc b + gap ≡ lost_below) × (lost_below ≤ e.seq + gap))
  unfolding evicted_before_window evicted_below
  evicted_before_window-honest filter b lost_below m h =
      let below = resolved_lower_bound-lt filter b m h in
      (
        λ g. ground (arith, sat_suc-le b, below, h, g),
        λ gap g. ground (arith, sat_suc-le b, below, h, g),
      )

  -- A cursor read's late part matches by the filter without the cursor's own bound.
  matches_past_cursor_qualifiers :
      (qs : List Qualifier)
      → all (λ q. is_cursor_seq q || matches_qualifier engine q e) qs
        ≡ all (λ q. matches_qualifier engine q e) (keep (λ q. not (is_cursor_seq q)) qs)
  matches_past_cursor_qualifiers [] = refl
  matches_past_cursor_qualifiers (q ∷ qs) = ground (arith, matches_past_cursor_qualifiers qs)
