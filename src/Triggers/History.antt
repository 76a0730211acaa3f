-- ===== src/Triggers/History.antt =====
-- A session's triggers under every sequence of operations.
use logmon_mcp.Common.{
  ℕ, suc, ◌+◌, ◌^◌, ◌≤◌, ◌<◌, Bool, Option, none, some, List, [], ◌∷◌, map, length, String, arith,
  Option-cases, inl, inr,
}
use logmon_mcp.Entry.{LogEntry, SpanEntry}
use logmon_mcp.Filter.{ParsedFilter}
use logmon_mcp.Filter.Text.{TextEngine}
use logmon_mcp.Triggers.{
  Trigger, TriggerManager, add, edit, edit_parsed, remove, evaluate, evaluate_span,
  reset_post_windows,
}
use logmon_mcp.Triggers.Debounce.{Ids, evaluate-Ids}
use logmon_mcp.Triggers.Edits.{IsManager, add-IsManager, edit_parsed-IsManager, remove-IsManager}

-- What is done to a manager; each operation carries its arguments.
pub data Change : Type 0 where
  adds : String → ℕ → ℕ → ℕ → Option String → Bool → Change
  edits : ℕ → Option String → Option ℕ → Option ℕ → Option ℕ → Option String → Option Bool → Change
  removes : ℕ → Change
  sees : LogEntry → Change
  sees_span : SpanEntry → Change
  resets : Change

module _ (parse_filter : String → Option ParsedFilter) (engine : TextEngine) where
  unfoldable pub change : TriggerManager → Change → TriggerManager
  change m (adds text pre post context about oneshot) =
      (add parse_filter m text pre post context about oneshot).0
  change m (edits id filter pre post context about oneshot) =
      (edit parse_filter m id filter pre post context about oneshot).0
  change m (removes id) = (remove m id).0
  change m (sees e) = record m { triggers = (evaluate engine m.triggers e).0 }
  change m (sees_span s) = record m { triggers = (evaluate_span engine m.triggers s).0 }
  change m resets = reset_post_windows m

  unfoldable pub run : TriggerManager → List Change → TriggerManager
  run m [] = m
  run m (c ∷ cs) = run (change m c) cs

  next_id-change :
      (m : TriggerManager) (c : Change)
      → m.next_id + 1 < 2 ^ 32
      → (m.next_id ≤ (change m c).next_id) × ((change m c).next_id ≤ m.next_id + 1)
  unfolding change add edit remove reset_post_windows edit_parsed
  next_id-change m (adds text pre post context about oneshot) h = ground (arith, h)
  next_id-change m (edits id none pre post context about oneshot) h = ground (arith, h)
  next_id-change m (edits id (some f) pre post context about oneshot) h = ground (arith, h)
  next_id-change m (removes id) h = ground (arith, h)
  next_id-change m (sees e) h = (omega arith, omega arith)
  next_id-change m (sees_span s) h = (omega arith, omega arith)
  next_id-change m resets h = (omega arith, omega arith)

  evaluate_span-Ids :
      (n next : ℕ) (ts : List Trigger) (s : SpanEntry)
      → Ids n next ts
      → Ids n next (evaluate_span engine ts s).0
  unfolding evaluate_span
  evaluate_span-Ids n next [] s h = tt
  evaluate_span-Ids n next (t ∷ ts) s h =
      ground (arith, h.0, h.1, evaluate_span-Ids (suc t.id) next ts s h.2)

  reset-Ids :
      (n next : ℕ) (ts : List Trigger)
      → Ids n next ts
      → Ids n next (map (λ (t : Trigger). record t { post_remaining = 0 }) ts)
  reset-Ids n next [] h = tt
  reset-Ids n next (t ∷ ts) h = (h.0, h.1, reset-Ids (suc t.id) next ts h.2)

  change-IsManager :
      (m : TriggerManager) (c : Change)
      → m.next_id + 1 < 2 ^ 32
      → 1 ≤ m.next_id
      → IsManager m
      → IsManager (change m c)
  unfolding change edit reset_post_windows
  change-IsManager m (adds text pre post context about oneshot) h o v =
      add-IsManager parse_filter m text pre post context about oneshot h o v
  change-IsManager m (edits id none pre post context about oneshot) h o v =
      edit_parsed-IsManager m id none pre post context about oneshot v
  change-IsManager m (edits id (some f) pre post context about oneshot) h o v =
      elim (Option-cases (parse_filter f)) [
        | inl e ↦ rw (e, change) v
        | inr (c, e) ↦
            rw (e, change)
              (edit_parsed-IsManager m id (some (f, c)) pre post context about oneshot v)
      ]
  change-IsManager m (removes id) h o v = remove-IsManager m id v
  change-IsManager m (sees e) h o v = evaluate-Ids engine 1 m.next_id m.triggers e v
  change-IsManager m (sees_span s) h o v = evaluate_span-Ids 1 m.next_id m.triggers s v
  change-IsManager m resets h o v = reset-Ids 1 m.next_id m.triggers v

  -- Every sequence of additions, edits, removals, evaluations of logs and spans, and resets keeps
  -- the triggers' ids distinct, in the order of creation and below the next one, as long as the
  -- 32-bit ids are not used up.
  pub run-IsManager :
      (m : TriggerManager) (cs : List Change)
      → m.next_id + length cs < 2 ^ 32
      → 1 ≤ m.next_id
      → IsManager m
      → IsManager (run m cs)
  unfolding run
  run-IsManager m [] h o v = v
  run-IsManager m (c ∷ cs) h o v =
      let fits : m.next_id + 1 < 2 ^ 32 = omega (arith, h) in
      let (more, most) = next_id-change m c fits in
      run-IsManager (change m c) cs (omega (arith, h, most)) (omega (arith, o, more))
        (change-IsManager m c fits o v)
