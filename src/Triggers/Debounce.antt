-- ===== src/Triggers/Debounce.antt =====
-- Each trigger's own debounce window, whatever the other triggers do.
use logmon_mcp.Common.{
  ℕ, suc, ◌+◌, ◌-◌, ◌≤◌, ◌<◌, ◌≡◌, ◌∙◌, refl, ap, Bool, true, false, ◌&&◌, none, some, List, [],
  ◌∷◌, ◌==◌, any, length, arith, Bool-cases, inl, inr,
}
use logmon_mcp.Entry.{LogEntry}
use logmon_mcp.Filter.Text.{TextEngine}
use logmon_mcp.Filter.Matcher.{matches_entry}
use logmon_mcp.Triggers.{Trigger, TriggerMatch, to_match, find, evaluate_one, evaluate}

-- Ids strictly ascending, from `n` up and below `next`.
abbrev pub Ids : ℕ → ℕ → List Trigger → Type 0
Ids n next [] = Unit {0}
Ids n next (t ∷ ts) = (n ≤ t.id) × (t.id < next) × Ids (suc t.id) next ts

abbrev pub fired : ℕ → List TriggerMatch → Bool
fired id ms = any (λ (m : TriggerMatch). m.id == id) ms

module _ (engine : TextEngine) where
  -- Whether a record makes a trigger fire.
  abbrev pub fires : Trigger → LogEntry → Bool
  fires t e = t.post_remaining == 0 && matches_entry engine t.condition e

  evaluate_one-fires : (t : Trigger) (e : LogEntry) → (evaluate_one engine t e).1 ≡ fires t e
  unfolding evaluate_one
  evaluate_one-fires t e = ground arith

  id-evaluate_one : (t : Trigger) (e : LogEntry) → (evaluate_one engine t e).0.id ≡ t.id
  unfolding evaluate_one
  id-evaluate_one t e = ground arith

  pub evaluate-Ids :
      (n next : ℕ) (ts : List Trigger) (e : LogEntry)
      → Ids n next ts
      → Ids n next (evaluate engine ts e).0
  unfolding evaluate
  evaluate-Ids n next [] e h = tt
  evaluate-Ids n next (t ∷ ts) e h =
      rw (id-evaluate_one t e) (h.0, h.1, evaluate-Ids (suc t.id) next ts e h.2)

  find-evaluate :
      (id : ℕ) (ts : List Trigger) (e : LogEntry)
      → find id (evaluate engine ts e).0
        ≡ elim (find id ts) [ none ↦ none | some t ↦ some (evaluate_one engine t e).0 ]
  unfolding find evaluate
  find-evaluate id [] e = refl
  find-evaluate id (t ∷ ts) e = ground (arith, find-evaluate id ts e, id-evaluate_one t e)

  fired_below :
      (n next id : ℕ) (ts : List Trigger) (e : LogEntry)
      → Ids n next ts
      → id < n
      → fired id (evaluate engine ts e).1 ≡ false
  unfolding evaluate to_match
  fired_below n next id [] e h l = refl
  fired_below n next id (t ∷ ts) e h l = elim (Bool-cases (evaluate_one engine t e).1) [
    | inl y ↦ rw (y, evaluate) (ground (arith, h.0, fired_below (suc t.id) next id ts e h.2))
    | inr y ↦ rw (y, evaluate) (fired_below (suc t.id) next id ts e h.2 (omega (arith, h.0)))
  ]

  -- A match of a trigger is reported when that trigger fires, and only then.
  fired-evaluate :
      (n next id : ℕ) (ts : List Trigger) (e : LogEntry) (t : Trigger)
      → Ids n next ts
      → find id ts ≡ some t
      → fired id (evaluate engine ts e).1 ≡ fires t e
  unfolding evaluate find to_match
  fired-evaluate n next id [] e t h f = cc
  fired-evaluate n next id (x ∷ ts) e t h f = elim (Bool-cases (x.id == id)) [
    | inl same ↦ ground (arith, evaluate_one-fires x e, fired_below (suc x.id) next id ts e h.2, f)
    | inr other ↦ ground (arith, fired-evaluate (suc x.id) next id ts e t h.2, f)
  ]

  -- `evaluate` once per record of a sequence; what each record fired, in order.
  unfoldable pub evaluate_all :
      List Trigger → List LogEntry → List Trigger × List (List TriggerMatch)
  evaluate_all ts [] = (ts, [])
  evaluate_all ts (e ∷ es) =
      let (ts', ms) = evaluate engine ts e in
      let (end, rest) = evaluate_all ts' es in (end, ms ∷ rest)

  evaluate_one-waiting :
      (t : Trigger) (e : LogEntry)
      → 0 < t.post_remaining
      → (evaluate_one engine t e).0 ≡ record t { post_remaining = t.post_remaining - 1 }
  unfolding evaluate_one
  evaluate_one-waiting t e h = ground arith

  -- A firing opens the trigger's window.
  evaluate_one-fired :
      (t : Trigger) (e : LogEntry)
      → fires t e ≡ true
      → (evaluate_one engine t e).0
        ≡ record t { match_count = t.match_count + 1; post_remaining = t.post_window }
  unfolding evaluate_one
  evaluate_one-fired t e h = ground arith

  found_after :
      (id : ℕ) (ts : List Trigger) (e : LogEntry) (t t' : Trigger)
      → find id ts ≡ some t
      → (evaluate_one engine t e).0 ≡ t'
      → find id (evaluate engine ts e).0 ≡ some t'
  found_after id ts e t t' f h = find-evaluate id ts e ∙ rw f (ap some h)

  -- While a trigger is inside its window it reports nothing, and each record, whether it matches or
  -- not, shortens the window by one.
  pub evaluate_all-quiet :
      (n next id : ℕ) (ts : List Trigger) (es : List LogEntry) (t : Trigger)
      → Ids n next ts
      → find id ts ≡ some t
      → length es ≤ t.post_remaining
      → (any (λ ms. fired id ms) (evaluate_all ts es).1 ≡ false)
        × Ids n next (evaluate_all ts es).0
        × (find id (evaluate_all ts es).0
            ≡ some (record t { post_remaining = t.post_remaining - length es }))
  unfolding evaluate_all
  evaluate_all-quiet n next id ts [] t h f l =
      (refl, h, f ∙ ap (λ k. some (record t { post_remaining = k })) (omega arith))
  evaluate_all-quiet n next id ts (e ∷ es) t h f l =
      let t' : Trigger = record t { post_remaining = t.post_remaining - 1 } in
      let f' = found_after id ts e t t' f (evaluate_one-waiting t e (omega arith)) in
      let r =
        evaluate_all-quiet n next id (evaluate engine ts e).0 es t' (evaluate-Ids n next ts e h) f'
          (omega arith) in
      (
        ground (arith, fired-evaluate n next id ts e t h f, r.0, l),
        r.1,
        r.2 ∙ ap (λ k. some (record t { post_remaining = k })) (omega arith),
      )

  -- A trigger that fires on a record stays silent for the next `post_window` records, whatever they
  -- are and whatever the other triggers do; at the record after those it fires exactly if that
  -- record matches.
  pub evaluate-debounce :
      (n next id : ℕ) (ts : List Trigger) (e last : LogEntry) (es : List LogEntry) (t : Trigger)
      → Ids n next ts
      → find id ts ≡ some t
      → fires t e ≡ true
      → length es ≤ t.post_window
      → (let after = (evaluate engine ts e).0 in
          (fired id (evaluate engine ts e).1 ≡ true)
          × (any (λ ms. fired id ms) (evaluate_all after es).1 ≡ false)
          × (fired id (evaluate engine (evaluate_all after es).0 last).1
              ≡ (length es == t.post_window && matches_entry engine t.condition last)))
  evaluate-debounce n next id ts e last es t h f y l =
      let t' : Trigger = record t {
        match_count = t.match_count + 1;
        post_remaining = t.post_window;
      } in
      let f' = found_after id ts e t t' f (evaluate_one-fired t e y) in
      let q =
        evaluate_all-quiet n next id (evaluate engine ts e).0 es t' (evaluate-Ids n next ts e h) f'
          l in
      (
        fired-evaluate n next id ts e t h f ∙ y,
        q.0,
        fired-evaluate n next id _ last _ q.1 q.2 ∙ ground (arith, l),
      )
