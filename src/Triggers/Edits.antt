-- ===== src/Triggers/Edits.antt =====
-- The list of triggers under its operations.
use logmon_mcp.Common.{
  ℕ, suc, ◌+◌, ◌%◌, ◌^◌, ◌≤◌, ◌<◌, ◌≡◌, refl, Bool, Option, none, some, List, [], ◌∷◌, ◌++◌, String,
  ◌==◌, arith, Option-cases, Bool-cases, inl, inr,
}
use logmon_mcp.Filter.{ParsedFilter}
use logmon_mcp.Triggers.{
  Trigger, TriggerManager, find, update, remove_id, remove, edited, edit_parsed, add,
}
use logmon_mcp.Triggers.Debounce.{Ids}

-- Ids are distinct, in the order of creation, and below the next one.
abbrev pub IsManager : TriggerManager → Type 0
IsManager m = Ids 1 m.next_id m.triggers

Ids-mono : (n k next : ℕ) (ts : List Trigger) → n ≤ k → Ids k next ts → Ids n next ts
Ids-mono n k next [] l h = tt
Ids-mono n k next (t ∷ ts) l h = (omega (arith, h.0), h.1, h.2)

Ids-push :
    (n next : ℕ) (ts : List Trigger) (t : Trigger)
    → n ≤ next
    → t.id ≡ next
    → Ids n next ts
    → Ids n (next + 1) (ts ++ t ∷ [])
Ids-push n next [] t l e h = (omega arith, omega arith, tt)
Ids-push n next (x ∷ ts) t l e h =
    (h.0, omega (arith, h.1), Ids-push (suc x.id) next ts t (omega (arith, h.1)) e h.2)

remove_id-Ids : (n next id : ℕ) (ts : List Trigger) → Ids n next ts → Ids n next (remove_id id ts)
unfolding remove_id
remove_id-Ids n next id [] h = tt
remove_id-Ids n next id (t ∷ ts) h =
    ground
      (arith, Ids-mono n (suc t.id) next ts, remove_id-Ids (suc t.id) next id ts h.2, h.0, h.1, h.2)

update-Ids :
    (f : Trigger → Trigger) (n next id : ℕ) (ts : List Trigger)
    → ((t : Trigger) → (f t).id ≡ t.id)
    → Ids n next ts
    → Ids n next (update f id ts)
unfolding update
update-Ids f n next id [] same h = tt
update-Ids f n next id (t ∷ ts) same h = elim (Bool-cases (t.id == id)) [
  | inl y ↦ rw (y, update) (rw (same t) h)
  | inr y ↦ rw (y, update) (h.0, h.1, update-Ids f (suc t.id) next id ts same h.2)
]

id-edited :
    (filter : Option (String × ParsedFilter)) (pre post context : Option ℕ) (text : Option String)
    (oneshot : Option Bool) (t : Trigger)
    → (edited filter pre post context text oneshot t).id ≡ t.id
unfolding edited
id-edited filter pre post context text oneshot t = refl

module _ (parse_filter : String → Option ParsedFilter) where
  pub add-IsManager :
      (m : TriggerManager) (text : String) (pre post context : ℕ) (about : Option String)
      (oneshot : Bool)
      → m.next_id + 1 < 2 ^ 32
      → 1 ≤ m.next_id
      → IsManager m
      → IsManager (add parse_filter m text pre post context about oneshot).0
  unfolding add
  add-IsManager m text pre post context about oneshot l o h =
      elim (Option-cases (parse_filter text)) [
        | inl e ↦ rw (e, add) h
        | inr (c, e) ↦
            rw (e, add) (rw (wrapped m.next_id l) (Ids-push 1 m.next_id m.triggers _ o refl h))
      ]
    where
      wrapped : (k : ℕ) → k + 1 < 2 ^ 32 → (k + 1) % 2 ^ 32 ≡ k + 1
      wrapped k s = omega (arith, s)

pub edit_parsed-IsManager :
    (m : TriggerManager) (id : ℕ) (filter : Option (String × ParsedFilter))
    (pre post context : Option ℕ) (text : Option String) (oneshot : Option Bool)
    → IsManager m
    → IsManager (edit_parsed m id filter pre post context text oneshot).0
unfolding edit_parsed
edit_parsed-IsManager m id filter pre post context text oneshot h =
    elim (Option-cases (find id m.triggers)) [
      | inl e ↦ rw (e, edit_parsed) h
      | inr (t, e) ↦
          rw (e, edit_parsed)
            (update-Ids _ 1 m.next_id id m.triggers
              (λ x. id-edited filter pre post context text oneshot x) h)
    ]

pub remove-IsManager : (m : TriggerManager) (id : ℕ) → IsManager m → IsManager (remove m id).0
unfolding remove
remove-IsManager m id h = elim (Option-cases (find id m.triggers)) [
  | inl e ↦ rw (e, remove) h
  | inr (t, e) ↦ rw (e, remove) (remove_id-Ids 1 m.next_id id m.triggers h)
]

-- The debounce window of an edited trigger: ended by a new condition, else clamped to a new
-- `post_window`, else left.
abbrev pub WindowAfter : Option (String × ParsedFilter) → Option ℕ → ℕ → ℕ → Type 0
WindowAfter (some f) post was is = is ≡ 0
WindowAfter none (some pw) was is = (is ≤ pw) × (is ≤ was) × (was ≤ pw → is ≡ was)
WindowAfter none none was is = is ≡ was

-- Either the value given or the one before.
abbrev pub Given {ℓ} : {A : Type ℓ} → Option A → A → A → Type ℓ
Given none was is = is ≡ was
Given (some new) was is = is ≡ new

-- The condition and its text, either given or as before.
abbrev pub Condition : Option (String × ParsedFilter) → Trigger → Trigger → Type 0
Condition none t d = (d.condition ≡ t.condition) × (d.filter_string ≡ t.filter_string)
Condition (some (text, c)) t d = (d.condition ≡ c) × (d.filter_string ≡ text)
