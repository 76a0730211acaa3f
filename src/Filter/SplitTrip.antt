-- ===== src/Filter/SplitTrip.antt =====
-- `split_on_commas`: joining what it gives is the text again, and no token has a comma outside
-- quotes.
use Prim.Native.Char.{Char, code}
use Prim.Native.String
use text.Mathlib.TextEquality.{Char-path}
use text.Mathlib.TextLemmas.{
  append_assoc as text_assoc, append-nil as text-nil, nil-append, cons-append,
}
use logmon_mcp.Common.{
  ◌≡◌, ◌∙◌, refl, sym, ap, Bool, true, false, not, ◌&&◌, Option, none, some, List, [], ◌∷◌, ◌++◌,
  String, All, All-append, if◌then◌else◌, arith, Bool-cases, inl, inr, ◌⊎◌, ◌≢◌, eq_of_test,
  Option-cases, and_true,
}
use logmon_mcp.Filter.Split.{
  unclosed_quote, ok, err, is_quote, is_comma, push, Split, split_step, split_loop, split_on_commas,
}

-- Tokens with commas between them.
unfoldable pub join : List String → String
join [] = ""
join (t ∷ ts) = elim ts [ [] ↦ t | u ∷ us ↦ String.◌++◌ t (String.◌++◌ "," (join ts)) ]

-- Whether a quote is open after a character; none where the character is a comma outside quotes.
abbrev pub quote_after : Bool → Char → Option Bool
quote_after q c = if is_quote c then some (not q) else if is_comma c && not q then none else some q

unfoldable pub scan : Bool → String → Option Bool
scan q String.[] = some q
scan q (String.◌∷◌ c s) = elim (quote_after q c) [ none ↦ none | some r ↦ scan r s ]

-- Quotes are closed, and no comma stands outside them.
abbrev pub IsToken : String → Type 0
IsToken t = scan false t ≡ some false

scan-push :
    (q r : Bool) (s : String) (c : Char) → scan q s ≡ some r → scan q (push s c) ≡ quote_after r c
unfolding scan
scan-push q r String.[] c h =
    ap (scan q) (nil-append (String.◌∷◌ c ""))
    ∙ ended (quote_after q c)
    ∙ ap (λ x. quote_after x c) (same h)
  where
    ended : (o : Option Bool) → elim o [ none ↦ none | some x ↦ scan x String.[] ] ≡ o
    ended none = refl
    ended (some x) = refl

    same : some q ≡ some r → q ≡ r
    same g = cc
scan-push q r (String.◌∷◌ d s) c h =
    ap (scan q) (cons-append d s (String.◌∷◌ c "")) ∙ elim (Option-cases (quote_after q d)) [
      | inl e ↦ absurd (nothing (rw (e, scan) at h))
      | inr (x, e) ↦ rw (e, scan) (scan-push x r s c (rw (e, scan) at h))
    ]
  where
    nothing : ◌≢◌ {A = Option Bool} none (some r)
    nothing g = cc

apart :
    (t a b c : String)
    → String.◌++◌ t (String.◌++◌ a (String.◌++◌ b c))
      ≡ String.◌++◌ (String.◌++◌ t (String.◌++◌ a b)) c
apart t a b c = ap (String.◌++◌ t) (sym (text_assoc a b c)) ∙ sym (text_assoc t (String.◌++◌ a b) c)

join-push :
    (ts : List String) (s : String) (c : Char)
    → join (ts ++ push s c ∷ []) ≡ push (join (ts ++ s ∷ [])) c
unfolding join
join-push [] s c = refl
join-push (t ∷ []) s c = apart t "," s (String.◌∷◌ c "")
join-push (t ∷ u ∷ ts) s c =
    ap (λ x. String.◌++◌ t (String.◌++◌ "," x)) (join-push (u ∷ ts) s c)
    ∙ apart t "," (join (u ∷ ts ++ s ∷ [])) (String.◌∷◌ c "")

join-comma :
    (ts : List String) (s : String)
    → join ((ts ++ s ∷ []) ++ "" ∷ []) ≡ String.◌++◌ (join (ts ++ s ∷ [])) ","
unfolding join
join-comma [] s = refl
join-comma (t ∷ []) s = apart t "," s ","
join-comma (t ∷ u ∷ ts) s =
    ap (λ x. String.◌++◌ t (String.◌++◌ "," x)) (join-comma (u ∷ ts) s)
    ∙ apart t "," (join (u ∷ ts ++ s ∷ [])) ","

-- What has been read so far.
abbrev read : Split → String
read st = join (st.tokens ++ st.current ∷ [])

record IsSplit (st : Split) : Type 0 where
  closed : All IsToken st.tokens
  open_or_not : scan false st.current ≡ some st.in_quote

comma-char : (c : Char) → is_comma c ≡ true → String.◌∷◌ c "" ≡ ","
comma-char c h = ap (λ (d : Char). String.◌∷◌ d "") (Char-path c "," (eq_of_test (code c) 44 h))

read-split_step : (st : Split) (c : Char) → read (split_step st c) ≡ push (read st) c
unfolding split_step
read-split_step st c = elim (Bool-cases (is_quote c)) [
  | inl q ↦ rw (q, split_step) (join-push st.tokens st.current c)
  | inr q ↦ elim (Bool-cases (is_comma c && not st.in_quote)) [
    | inr n ↦ rw (q, split_step) (rw (n, split_step) (join-push st.tokens st.current c))
    | inl y ↦
        rw (q, split_step)
          (rw (y, split_step)
            (join-comma st.tokens st.current
              ∙ ap (String.◌++◌ (read st))
                  (sym (comma-char c (and_true (is_comma c) (not st.in_quote) y).0))))
  ]
]

split_step-IsSplit : (st : Split) (c : Char) → IsSplit st → IsSplit (split_step st c)
unfolding split_step scan
split_step-IsSplit st c v = elim (Bool-cases (is_quote c)) [
  | inl q ↦
      rw (q, split_step)
        (record {
          closed = v.closed;
          open_or_not = scan-push false st.in_quote st.current c v.open_or_not ∙ rw q refl;
        })
  | inr q ↦ elim (Bool-cases (is_comma c && not st.in_quote)) [
    | inl y ↦
        let outside : st.in_quote ≡ false = ground (arith, y) in
        rw (q, split_step)
          (rw (y, split_step)
            (record {
              closed =
                  All-append IsToken st.tokens (st.current ∷ []) v.closed
                    (v.open_or_not ∙ ap some outside, tt);
              open_or_not = ap some (sym outside);
            }))
    | inr n ↦
        rw (q, split_step)
          (rw (n, split_step)
            (record {
              closed = v.closed;
              open_or_not = scan-push false st.in_quote st.current c v.open_or_not ∙ rw (q, n) refl;
            }))
  ]
]

split_loop-IsSplit : (st : Split) (s : String) → IsSplit st → IsSplit (split_loop st s)
unfolding split_loop
split_loop-IsSplit st String.[] v = v
split_loop-IsSplit st (String.◌∷◌ c s) v =
    split_loop-IsSplit (split_step st c) s (split_step-IsSplit st c v)

read-split_loop : (st : Split) (s : String) → read (split_loop st s) ≡ String.◌++◌ (read st) s
unfolding split_loop
read-split_loop st String.[] = sym (text-nil (read st))
read-split_loop st (String.◌∷◌ c s) =
    read-split_loop (split_step st c) s
    ∙ ap (λ x. String.◌++◌ x s) (read-split_step st c)
    ∙ text_assoc (read st) (String.◌∷◌ c "") s
    ∙ ap (String.◌++◌ (read st)) (cons-append c "" s ∙ ap (String.◌∷◌ c) (nil-append s))

-- Whether a text has an odd number of quotes.
unfoldable pub odd_quotes : String → Bool
odd_quotes String.[] = false
odd_quotes (String.◌∷◌ c s) = let rest = odd_quotes s in if is_quote c then not rest else rest

quote-split_loop :
    (st : Split) (s : String)
    → (split_loop st s).in_quote ≡ (if st.in_quote then not (odd_quotes s) else odd_quotes s)
unfolding split_loop split_step odd_quotes
quote-split_loop st String.[] = ground arith
quote-split_loop st (String.◌∷◌ c s) = ground (arith, quote-split_loop (split_step st c) s)

abbrev start : Split
start = record { tokens = []; current = ""; in_quote = false }

-- Splitting fails exactly on a text with an odd number of quotes. Otherwise its tokens, joined with
-- commas, are the text again, and in each of them the quotes are closed and no comma stands outside
-- quotes.
pub join-split_on_commas :
    (input : String)
    → ((odd_quotes input ≡ true) × (split_on_commas input ≡ err unclosed_quote))
      ⊎ ((ts : List String) × (odd_quotes input ≡ false)
          × (split_on_commas input ≡ ok ts)
          × (join ts ≡ input)
          × All IsToken ts)
unfolding split_on_commas join scan
join-split_on_commas input =
    let end = split_loop start input in
    let whole = read-split_loop start input in
    let v = split_loop-IsSplit start input (record { closed = tt; open_or_not = refl }) in
    elim (Bool-cases end.in_quote) [
      | inl h ↦ inl (sym (quote-split_loop start input) ∙ h, rw (h, split_on_commas) refl)
      | inr h ↦ inr (
        end.tokens ++ end.current ∷ [],
        sym (quote-split_loop start input) ∙ h,
        rw (h, split_on_commas) refl,
        whole ∙ nil-append input,
        All-append IsToken end.tokens (end.current ∷ []) v.closed (v.open_or_not ∙ ap some h, tt),
      )
    ]
