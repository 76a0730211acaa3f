-- ===== src/Triggers.antt =====
-- crates/core/src/engine/trigger.rs: a session's triggers and their debounce windows. Each method
-- is one step on the list of triggers; `evaluate`'s decrement loop is a step on one counter. What
-- `filter::parser::parse_filter` makes of a filter string is a parameter. A u64 count of matches is
-- not exceeded.
mod Tests
pub mod Debounce
pub mod Edits
pub mod History
use logmon_mcp.Common.{
  ℕ, zero, suc, ◌+◌, ◌-◌, ◌%◌, ◌^◌, max, min, Bool, true, false, not, ◌&&◌, Option, none, some,
  List, [], ◌∷◌, ◌++◌, map, String, ltb, ◌==◌, if◌then◌else◌, any,
}
use logmon_mcp.Entry.{LogEntry, SpanEntry}
use logmon_mcp.Filter.{ParsedFilter, is_span_filter}
use logmon_mcp.Filter.Text.{TextEngine}
use logmon_mcp.Filter.Matcher.{matches_entry, matches_span}

pub record Trigger : Type 0 where
  pub id : ℕ
  pub condition : ParsedFilter
  pub filter_string : String
  pub pre_window : ℕ
  pub post_window : ℕ
  pub notify_context : ℕ
  pub description : Option String
  pub oneshot : Bool
  pub match_count : ℕ
  pub post_remaining : ℕ

pub record TriggerInfo : Type 0 where
  pub id : ℕ
  pub filter_string : String
  pub pre_window : ℕ
  pub post_window : ℕ
  pub notify_context : ℕ
  pub description : Option String
  pub match_count : ℕ
  pub oneshot : Bool
  pub post_remaining : ℕ

pub record TriggerMatch : Type 0 where
  pub id : ℕ
  pub description : Option String
  pub filter_string : String
  pub pre_window : ℕ
  pub post_window : ℕ
  pub notify_context : ℕ
  pub oneshot : Bool

pub record TriggerManager : Type 0 where
  pub triggers : List Trigger
  pub next_id : ℕ

pub data TriggerError : Type 0 where
  not_found : ℕ → TriggerError
  invalid_filter : String → TriggerError

pub data Result (A : Type 0) : Type 0 where
  ok : A → Result A
  err : TriggerError → Result A

unfoldable pub to_info : Trigger → TriggerInfo
to_info t = record {
  id = t.id;
  filter_string = t.filter_string;
  pre_window = t.pre_window;
  post_window = t.post_window;
  notify_context = t.notify_context;
  description = t.description;
  match_count = t.match_count;
  oneshot = t.oneshot;
  post_remaining = t.post_remaining;
}

unfoldable pub to_match : Trigger → TriggerMatch
to_match t = record {
  id = t.id;
  description = t.description;
  filter_string = t.filter_string;
  pre_window = t.pre_window;
  post_window = t.post_window;
  notify_context = t.notify_context;
  oneshot = t.oneshot;
}

-- The triggers of a new session, with the conditions of the two built-in filters.
unfoldable pub new : ParsedFilter → ParsedFilter → TriggerManager
new errors panics = record {
  triggers =
      record {
        id = 1;
        condition = errors;
        filter_string = "l>=ERROR";
        pre_window = 500;
        post_window = 200;
        notify_context = 5;
        description = some "Error-level log detected";
        oneshot = false;
        match_count = 0;
        post_remaining = 0;
      }
      ∷ record {
        id = 2;
        condition = panics;
        filter_string = "/panic|unwrap failed|stack backtrace/";
        pre_window = 500;
        post_window = 200;
        notify_context = 5;
        description = some "Panic or unwrap failure detected";
        oneshot = false;
        match_count = 0;
        post_remaining = 0;
      }
      ∷ [];
  next_id = 3;
}

unfoldable pub find : ℕ → List Trigger → Option Trigger
find id [] = none
find id (t ∷ ts) = if t.id == id then some t else find id ts

unfoldable pub get : TriggerManager → ℕ → Option TriggerInfo
get m id = elim (find id m.triggers) [ none ↦ none | some t ↦ some (to_info t) ]

unfoldable pub list : TriggerManager → List TriggerInfo
list m = map to_info m.triggers

-- Changes the first trigger with an id.
unfoldable pub update : (Trigger → Trigger) → ℕ → List Trigger → List Trigger
update f id [] = []
update f id (t ∷ ts) = if t.id == id then f t ∷ ts else t ∷ update f id ts

unfoldable pub remove_id : ℕ → List Trigger → List Trigger
remove_id id [] = []
remove_id id (t ∷ ts) = if t.id == id then ts else t ∷ remove_id id ts

unfoldable pub remove : TriggerManager → ℕ → TriggerManager × Result (Unit {0})
remove m id = elim (find id m.triggers) [
  | none ↦ (m, err (not_found id))
  | some t ↦ (record m { triggers = remove_id id m.triggers }, ok tt)
]

abbrev pub or_else {ℓ} : {A : Type ℓ} → Option A → A → A
or_else none a = a
or_else (some b) a = b

-- The field changes of `edit`, in the source's order: a new condition ends the window in flight,
-- and a new `post_window` clamps it.
unfoldable pub edited :
    Option (String × ParsedFilter)
    → Option ℕ
    → Option ℕ
    → Option ℕ
    → Option String
    → Option Bool
    → Trigger
    → Trigger
edited filter pre_window post_window notify_context description oneshot t =
    let remaining : ℕ = elim filter [ none ↦ t.post_remaining | some f ↦ 0 ] in
    record {
      id = t.id;
      condition = elim filter [ none ↦ t.condition | some (s, c) ↦ c ];
      filter_string = elim filter [ none ↦ t.filter_string | some (s, c) ↦ s ];
      pre_window = or_else pre_window t.pre_window;
      post_window = or_else post_window t.post_window;
      notify_context = or_else notify_context t.notify_context;
      description = elim description [ none ↦ t.description | some d ↦ some d ];
      oneshot = or_else oneshot t.oneshot;
      match_count = t.match_count;
      post_remaining = elim post_window [
        | none ↦ remaining
        | some pw ↦ if ltb pw remaining then pw else remaining
      ];
    }

unfoldable pub edit_parsed :
    TriggerManager
    → ℕ
    → Option (String × ParsedFilter)
    → Option ℕ
    → Option ℕ
    → Option ℕ
    → Option String
    → Option Bool
    → TriggerManager × Result TriggerInfo
edit_parsed m id filter pre_window post_window notify_context description oneshot =
    let change = edited filter pre_window post_window notify_context description oneshot in
    elim (find id m.triggers) [
      | none ↦ (m, err (not_found id))
      | some t ↦ (record m { triggers = update change id m.triggers }, ok (to_info (change t)))
    ]

module _ (parse_filter : String → Option ParsedFilter) where
  unfoldable pub add :
      TriggerManager → String → ℕ → ℕ → ℕ → Option String → Bool → TriggerManager × Result ℕ
  add m filter_str pre_window post_window notify_context description oneshot =
      elim (parse_filter filter_str) [
        | none ↦ (m, err (invalid_filter filter_str))
        | some condition ↦ (
          record {
            triggers =
                m.triggers
                ++ record {
                  id = m.next_id;
                  condition = condition;
                  filter_string = filter_str;
                  pre_window = pre_window;
                  post_window = post_window;
                  notify_context = notify_context;
                  description = description;
                  oneshot = oneshot;
                  match_count = 0;
                  post_remaining = 0;
                }
                  ∷ [];
            next_id = (m.next_id + 1) % 2 ^ 32;
          },
          ok m.next_id,
        )
      ]

  -- The filter is parsed before anything is changed.
  unfoldable pub edit :
      TriggerManager
      → ℕ
      → Option String
      → Option ℕ
      → Option ℕ
      → Option ℕ
      → Option String
      → Option Bool
      → TriggerManager × Result TriggerInfo
  edit m id none pre_window post_window notify_context description oneshot =
      edit_parsed m id none pre_window post_window notify_context description oneshot
  edit m id (some f) pre_window post_window notify_context description oneshot =
      elim (parse_filter f) [
        | none ↦ (m, err (invalid_filter f))
        | some c ↦
            edit_parsed m id (some (f, c)) pre_window post_window notify_context description oneshot
      ]

unfoldable pub reset_post_windows : TriggerManager → TriggerManager
reset_post_windows m = record m {
  triggers = map (λ (t : Trigger). record t { post_remaining = 0 }) m.triggers;
}

unfoldable pub max_pre_window : List Trigger → ℕ
max_pre_window [] = 0
max_pre_window (t ∷ ts) = max t.pre_window (max_pre_window ts)

module _ (engine : TextEngine) where
  -- One trigger against a record: whether it fires, and what it becomes.
  unfoldable pub evaluate_one : Trigger → LogEntry → Trigger × Bool
  evaluate_one t e =
      if ltb 0 t.post_remaining
      then (record t { post_remaining = t.post_remaining - 1 }, false)
      else if matches_entry engine t.condition e
      then (record t { match_count = t.match_count + 1; post_remaining = t.post_window }, true)
      else (t, false)

  -- `filter_map` over the triggers.
  unfoldable pub evaluate : List Trigger → LogEntry → List Trigger × List TriggerMatch
  evaluate [] e = ([], [])
  evaluate (t ∷ ts) e =
      let (t', fired) = evaluate_one t e in
      let (rest, matches) = evaluate ts e in
      (t' ∷ rest, if fired then to_match t ∷ matches else matches)

  unfoldable pub evaluate_span : List Trigger → SpanEntry → List Trigger × List TriggerMatch
  evaluate_span [] s = ([], [])
  evaluate_span (t ∷ ts) s =
      let (rest, matches) = evaluate_span ts s in
      if is_span_filter t.condition && matches_span engine t.condition s
      then (record t { match_count = t.match_count + 1 } ∷ rest, to_match t ∷ matches)
      else (t ∷ rest, matches)
