-- ===== src/Filter/Parsed.antt =====
-- What a filter that parses is.
use Prim.Native.String.{len}
use text.Mathlib.Text.{◌==◌ as str_eq}
use logmon_mcp.Common.{
  ◌≤◌, ◌≡◌, ◌≢◌, refl, subst, true, false, ◌&&◌, ◌||◌, Option, none, some, List, [], ◌∷◌, String,
  any, All, length, keep, ltb, ◌==◌, if◌then◌else◌, arith, Bool-cases, Option-cases, inl, inr,
}
use logmon_mcp.Filter.{
  DurationOp, BookmarkOp, LevelOp, Pattern, Qualifier, bare_pattern, selector_pattern, level_filter,
  duration_filter, bookmark_filter, cursor_filter, seq_filter, cursor_seq, ParsedFilter, qualifiers,
  is_span_qualifier, is_log_qualifier, is_cursor_qualifier,
}
use logmon_mcp.Filter.Split.{FilterParseError, Result, ok, err, split_on_commas}
use logmon_mcp.Filter.Parser.{
  ParseEngine, strip_prefix, split_first, ends_with, is_quoted, starts_with,
  is_valid_bookmark_token, from_name, parse_level, parse_duration, parse_name, with_pattern,
  parse_selected, parse_bare, parse_other, prefixes, try_prefixes, parse_token, parse_tokens,
  validate, parse_filter,
}

-- A qualifier as the parser makes it: none of the resolver's, and a name in the alphabet of
-- bookmarks.
abbrev pub IsParsed : Qualifier → Type 0
IsParsed (bare_pattern p) = Unit {0}
IsParsed (selector_pattern s p) = Unit {0}
IsParsed (level_filter op level) = Unit {0}
IsParsed (duration_filter op value) = Unit {0}
IsParsed (bookmark_filter op name) = is_valid_bookmark_token name ≡ true
IsParsed (cursor_filter name) = is_valid_bookmark_token name ≡ true
IsParsed (seq_filter op value) = ⊥
IsParsed (cursor_seq after) = ⊥

-- Every qualifier that a function on texts gives.
abbrev Sound : (String → Result Qualifier) → Type 0
Sound f = (s : String) (q : Qualifier) → f s ≡ ok q → IsParsed q

ok-path : {A : Type 0} (a b : A) → ok a ≡ ok b → a ≡ b
ok-path a b h = cc

err-ok : {A : Type 0} (e : FilterParseError) (a : A) → ◌≢◌ {A = Result A} (err e) (ok a)
err-ok e a h = cc

given : (p q : Qualifier) → IsParsed p → ok p ≡ ok q → IsParsed q
given p q v h = subst IsParsed (ok-path p q h) v

with_pattern-IsParsed :
    (make : Pattern → Qualifier) (r : Result Pattern) (q : Qualifier)
    → ((p : Pattern) → IsParsed (make p))
    → with_pattern make r ≡ ok q
    → IsParsed q
with_pattern-IsParsed make (ok p) q v h = given (make p) q (v p) h
with_pattern-IsParsed make (err e) q v h = absurd (err-ok e q h)

module _ (engine : ParseEngine) where
  level-Sound : (op : LevelOp) → Sound (parse_level engine op)
  unfolding parse_level
  level-Sound op s q h = elim (Option-cases (from_name engine s)) [
    | inl e ↦ absurd (err-ok _ q (rw (e, parse_level) at h))
    | inr (l, e) ↦ given (level_filter op l) q tt (rw (e, parse_level) at h)
  ]

  duration-Sound : (op : DurationOp) → Sound (parse_duration engine op)
  unfolding parse_duration
  duration-Sound op s q h = elim (Option-cases (engine.parse_double s)) [
    | inl e ↦ absurd (err-ok _ q (rw (e, parse_duration) at h))
    | inr (l, e) ↦ given (duration_filter op l) q tt (rw (e, parse_duration) at h)
  ]

  name-Sound :
      (make : String → Qualifier)
      → ((n : String) → is_valid_bookmark_token n ≡ true → IsParsed (make n))
      → Sound (parse_name engine make)
  unfolding parse_name
  name-Sound make v s q h = elim (Bool-cases (len (engine.trim s) == 0)) [
    | inl e ↦ absurd (err-ok _ q (rw (e, parse_name) at h))
    | inr e ↦ elim (Bool-cases (is_valid_bookmark_token (engine.trim s))) [
      | inl y ↦
          given (make (engine.trim s)) q (v (engine.trim s) y) (rw y at (rw (e, parse_name) at h))
      | inr n ↦ absurd (err-ok _ q (rw n at (rw (e, parse_name) at h)))
    ]
  ]

  selected-IsParsed :
      (lhs rhs : String) (q : Qualifier) → parse_selected engine lhs rhs ≡ ok q → IsParsed q
  unfolding parse_selected
  selected-IsParsed lhs rhs q h = elim (Bool-cases (ends_with lhs 62 || ends_with lhs 60)) [
    | inl e ↦ absurd (err-ok _ q (rw (e, parse_selected) at h))
    | inr e ↦ with_pattern-IsParsed _ _ q (λ p. tt) (rw (e, parse_selected) at h)
  ]

  bare-Sound : Sound (parse_bare engine)
  unfolding parse_bare
  bare-Sound s q h = given _ q tt h

  other-Sound : Sound (parse_other engine)
  unfolding parse_other
  other-Sound s q h = elim (Bool-cases (is_quoted s)) [
    | inl e ↦ given _ q tt (rw (e, parse_other) at h)
    | inr e ↦ elim (Bool-cases (starts_with s 47)) [
      | inl r ↦ with_pattern-IsParsed _ _ q (λ p. tt) (rw r at (rw (e, parse_other) at h))
      | inr r ↦ around (split_first 61 s) q (rw r at (rw (e, parse_other) at h))
    ]
  ]
    where
      around :
          (o : Option (String × String)) (q : Qualifier)
          → elim o as (λ _. Result Qualifier) [
            | none ↦ parse_bare engine s
            | some (before, after) ↦
                if len (engine.trim before) == 0
                then parse_bare engine s
                else parse_selected engine (engine.trim before) (engine.trim after)
          ]
            ≡ ok q
          → IsParsed q
      around none q g = bare-Sound s q g
      around (some (before, after)) q g = elim (Bool-cases (len (engine.trim before) == 0)) [
        | inl z ↦ bare-Sound s q (rw z at g)
        | inr z ↦ selected-IsParsed _ _ q (rw z at g)
      ]

  try_prefixes-Sound :
      (ps : List (String × (String → Result Qualifier)))
      → All (λ (prefix, parse). Sound parse) ps
      → Sound (try_prefixes engine ps)
  unfolding try_prefixes
  try_prefixes-Sound [] v s q h = other-Sound s q h
  try_prefixes-Sound ((prefix, parse) ∷ ps) v s q h = elim (Option-cases (strip_prefix prefix s)) [
    | inl e ↦ try_prefixes-Sound ps v.1 s q (rw (e, try_prefixes) at h)
    | inr (rest, e) ↦ v.0 rest q (rw (e, try_prefixes) at h)
  ]

  token-Sound : Sound (parse_token engine)
  unfolding parse_token prefixes
  token-Sound s q h =
      try_prefixes-Sound (prefixes engine)
        (
          level-Sound LevelOp.gte,
          (
            level-Sound LevelOp.lte,
            (
              level-Sound LevelOp.eq,
              (
                duration-Sound DurationOp.at_least,
                (
                  duration-Sound DurationOp.at_most,
                  (
                    name-Sound (bookmark_filter BookmarkOp.gte) (λ n v. v),
                    (
                      name-Sound (bookmark_filter BookmarkOp.lte) (λ n v. v),
                      (
                        name-Sound cursor_filter (λ n v. v),
                        ((λ rest x g. absurd (err-ok _ x g)), tt),
                      ),
                    ),
                  ),
                ),
              ),
            ),
          ),
        )
        (engine.trim s) q h

  tokens-All :
      (ts : List String) (qs : List Qualifier) → parse_tokens engine ts ≡ ok qs → All IsParsed qs
  unfolding parse_tokens
  tokens-All [] qs h = subst (All IsParsed) (ok-path [] qs h) tt
  tokens-All (t ∷ ts) qs h = elim (Bool-cases (len (engine.trim t) == 0)) [
    | inl e ↦ tokens-All ts qs (rw e at h)
    | inr e ↦
        joined (parse_token engine (engine.trim t)) (parse_tokens engine ts)
          (token-Sound (engine.trim t)) (tokens-All ts) (rw e at h)
  ]
    where
      joined :
          (r : Result Qualifier) (rest : Result (List Qualifier))
          → ((q : Qualifier) → r ≡ ok q → IsParsed q)
          → ((l : List Qualifier) → rest ≡ ok l → All IsParsed l)
          → elim r as (λ _. Result (List Qualifier)) [
            | err x ↦ err x
            | ok q ↦ elim rest as (λ _. Result (List Qualifier)) [
              | err x ↦ err x
              | ok l ↦ ok (q ∷ l)
            ]
          ]
            ≡ ok qs
          → All IsParsed qs
      joined (err x) rest f g k = absurd (err-ok x qs k)
      joined (ok q) (err x) f g k = absurd (err-ok x qs k)
      joined (ok q) (ok l) f g k = subst (All IsParsed) (ok-path (q ∷ l) qs k) (f q refl, g l refl)

-- What a whole filter satisfies.
pub record IsFilter (qs : List Qualifier) : Type 0 where
  pub nonempty : qs ≢ []
  pub unmixed : (any is_span_qualifier qs && any is_log_qualifier qs) ≡ false
  pub one_cursor : length (keep is_cursor_qualifier qs) ≤ 1
  pub parsed : All IsParsed qs

validate-IsFilter :
    (qs out : List Qualifier) → All IsParsed qs → validate qs ≡ ok (qualifiers out) → IsFilter out
unfolding validate
validate-IsFilter [] out v h = absurd (err-ok _ _ h)
validate-IsFilter (q ∷ qs) out v h =
    elim (Bool-cases (any is_span_qualifier (q ∷ qs) && any is_log_qualifier (q ∷ qs))) [
      | inl m ↦ absurd (err-ok _ _ (rw m at h))
      | inr m ↦ elim (Bool-cases (ltb 1 (length (keep is_cursor_qualifier (q ∷ qs))))) [
        | inl c ↦ absurd (err-ok _ _ (rw c at (rw m at h)))
        | inr c ↦
            subst IsFilter (same out (ok-path _ _ (rw c at (rw m at h)))) (record {
              nonempty = λ e. cc;
              unmixed = m;
              one_cursor = ground (arith, c);
              parsed = v;
            })
      ]
    ]
  where
    same : (out : List Qualifier) → qualifiers (q ∷ qs) ≡ qualifiers out → q ∷ qs ≡ out
    same out e = cc

-- A filter that parses to qualifiers has at least one, at most one of them a cursor; it never has
-- both a selector of logs and one of spans; every bookmark and cursor name is in the alphabet of
-- bookmarks; and none of its qualifiers is one that only the resolver makes.
pub parse_filter-IsFilter :
    (engine : ParseEngine) (text : String) (qs : List Qualifier)
    → parse_filter engine text ≡ ok (qualifiers qs)
    → IsFilter qs
unfolding parse_filter
parse_filter-IsFilter engine text qs h = elim (Bool-cases (len (engine.trim text) == 0)) [
  | inl e ↦ absurd (err-ok _ _ (rw (e, parse_filter) at h))
  | inr e ↦ elim (Bool-cases (str_eq (engine.trim text) "ALL")) [
    | inl a ↦ absurd (cc (ok-path _ _ (rw a at (rw (e, parse_filter) at h))))
    | inr a ↦ elim (Bool-cases (str_eq (engine.trim text) "NONE")) [
      | inl n ↦ absurd (cc (ok-path _ _ (rw n at (rw a at (rw (e, parse_filter) at h)))))
      | inr n ↦
          split (split_on_commas (engine.trim text)) (rw n at (rw a at (rw (e, parse_filter) at h)))
    ]
  ]
]
  where
    finished :
        (r : Result (List Qualifier))
        → ((l : List Qualifier) → r ≡ ok l → All IsParsed l)
        → elim r as (λ _. Result ParsedFilter) [ err x ↦ err x | ok l ↦ validate l ]
          ≡ ok (qualifiers qs)
        → IsFilter qs
    finished (err x) f k = absurd (err-ok x _ k)
    finished (ok l) f k = validate-IsFilter l qs (f l refl) k

    split :
        (r : Result (List String))
        → elim r as (λ _. Result ParsedFilter) [
          | err x ↦ err x
          | ok tokens ↦ elim (parse_tokens engine tokens) as (λ _. Result ParsedFilter) [
            | err x ↦ err x
            | ok l ↦ validate l
          ]
        ]
          ≡ ok (qualifiers qs)
        → IsFilter qs
    split (err x) k = absurd (err-ok x _ k)
    split (ok tokens) k = finished (parse_tokens engine tokens) (tokens-All engine tokens) k
