-- ===== src/Sessions/Work.antt =====
-- crates/core/src/daemon/session.rs: a session's triggers, filters, post-window and queue. A filter
-- that does not parse is reported with its text in place of the parser's error. The exchange loop of
-- `decrement_post_window` is one step. A `u32` window count is below 2^32, as `pre_window` and
-- `post_window` are.
use logmon_mcp.Common.{
  ℕ, ◌+◌, ◌-◌, ◌%◌, ◌^◌, max, Bool, true, false, not, ◌&&◌, Option, none, some, List, [], ◌∷◌, ◌++◌,
  map, String, ltb, ◌==◌, if◌then◌else◌, length,
}
use logmon_mcp.Entry.{LogEntry, SpanEntry}
use logmon_mcp.Filter.{ParsedFilter}
use logmon_mcp.Filter.Text.{TextEngine, to_string}
use Prim.Native.String
use logmon_mcp.Pipeline.Event.{PipelineEvent}
use logmon_mcp.Ring.{is_some}
use logmon_mcp.Triggers.{TriggerMatch, TriggerInfo, TriggerManager, max_pre_window}
use logmon_mcp.Triggers.{ok as trigger_ok, err as trigger_err, Result as TriggerResult}
use logmon_mcp.Triggers
use logmon_mcp.Sessions.{
  SessionState, not_found, filter_error, trigger_error, Result, ok, err, Registry,
  BufferFilterEntry, FilterInfo,
}
use logmon_mcp.Sessions.Id.{SessionId, label, get, update}

abbrev with_triggers : SessionState → TriggerManager → SessionState
with_triggers s m = record s { triggers = m }

-- A trigger operation's result, its error wrapped.
abbrev from_trigger : {A : Type 0} → TriggerResult A → Result A
from_trigger (trigger_ok a) = ok a
from_trigger (trigger_err e) = err (trigger_error e)

unfoldable pub remove_trigger : Registry → SessionId → ℕ → Registry × Result (Unit {0})
remove_trigger r id trigger_id = elim (get r id) [
  | none ↦ (r, err (not_found (label id)))
  | some s ↦
      let (m, result) = Triggers.remove s.triggers trigger_id in
      (update r id (λ t. with_triggers t m), from_trigger result)
]

unfoldable pub list_triggers : Registry → SessionId → List TriggerInfo
list_triggers r id = elim (get r id) [ none ↦ [] | some s ↦ Triggers.list s.triggers ]

unfoldable pub filter_info : BufferFilterEntry → FilterInfo
filter_info f = record { id = f.id; filter_string = f.filter_string; description = f.description }

unfoldable pub list_filters : Registry → SessionId → List FilterInfo
list_filters r id = elim (get r id) [ none ↦ [] | some s ↦ map filter_info s.filters ]

abbrev pub find_filter : ℕ → List BufferFilterEntry → Option BufferFilterEntry
find_filter id [] = none
find_filter id (f ∷ fs) = if f.id == id then some f else find_filter id fs

unfoldable pub update_filter :
    (BufferFilterEntry → BufferFilterEntry) → ℕ → List BufferFilterEntry → List BufferFilterEntry
update_filter change id [] = []
update_filter change id (f ∷ fs) =
    if f.id == id then change f ∷ fs else f ∷ update_filter change id fs

unfoldable pub remove_filter_id : ℕ → List BufferFilterEntry → List BufferFilterEntry
remove_filter_id id [] = []
remove_filter_id id (f ∷ fs) = if f.id == id then fs else f ∷ remove_filter_id id fs

unfoldable pub remove_filter : Registry → SessionId → ℕ → Registry × Result (Unit {0})
remove_filter r id filter_id = elim (get r id) [
  | none ↦ (r, err (not_found (label id)))
  | some s ↦ elim (find_filter filter_id s.filters) [
    | none ↦ (r, err (not_found (String.◌++◌ "filter " (to_string filter_id))))
    | some f ↦
        (update r id (λ t. record t { filters = remove_filter_id filter_id t.filters }), ok tt)
  ]
]

unfoldable pub edited_filter :
    Option (String × ParsedFilter) → Option String → BufferFilterEntry → BufferFilterEntry
edited_filter filter desc f = record {
  id = f.id;
  condition = elim filter [ none ↦ f.condition | some (s, c) ↦ c ];
  filter_string = elim filter [ none ↦ f.filter_string | some (s, c) ↦ s ];
  description = elim desc [ none ↦ f.description | some d ↦ some d ];
}

-- `edit_filter` once a new filter is parsed.
unfoldable pub edit_parsed_filter :
    Registry
    → SessionId
    → ℕ
    → Option (String × ParsedFilter)
    → Option String
    → Registry × Result FilterInfo
edit_parsed_filter r id filter_id filter desc = elim (get r id) [
  | none ↦ (r, err (not_found (label id)))
  | some s ↦ elim (find_filter filter_id s.filters) [
    | none ↦ (r, err (not_found (String.◌++◌ "filter " (to_string filter_id))))
    | some f ↦
        let change = edited_filter filter desc in
        (
          update r id (λ t. record t { filters = update_filter change filter_id t.filters }),
          ok (filter_info (change f)),
        )
  ]
]

module _ (parse_filter : String → Option ParsedFilter) where
  unfoldable pub add_trigger :
      Registry → SessionId → String → ℕ → ℕ → ℕ → Option String → Bool → Registry × Result ℕ
  add_trigger r id filter pre post ctx desc oneshot = elim (get r id) [
    | none ↦ (r, err (not_found (label id)))
    | some s ↦
        let (m, result) = Triggers.add parse_filter s.triggers filter pre post ctx desc oneshot in
        (update r id (λ t. with_triggers t m), from_trigger result)
  ]

  unfoldable pub edit_trigger :
      Registry
      → SessionId
      → ℕ
      → Option String
      → Option ℕ
      → Option ℕ
      → Option ℕ
      → Option String
      → Option Bool
      → Registry × Result TriggerInfo
  edit_trigger r id trigger_id filter pre post ctx desc oneshot = elim (get r id) [
    | none ↦ (r, err (not_found (label id)))
    | some s ↦
        let (m, result) =
          Triggers.edit parse_filter s.triggers trigger_id filter pre post ctx desc oneshot in
        (update r id (λ t. with_triggers t m), from_trigger result)
  ]

  unfoldable pub add_filter : Registry → SessionId → String → Option String → Registry × Result ℕ
  add_filter r id filter desc = elim (parse_filter filter) [
    | none ↦ (r, err (filter_error filter))
    | some condition ↦ elim (get r id) [
      | none ↦ (r, err (not_found (label id)))
      | some s ↦ (
        update r id (λ t. record t {
          next_filter_id = (t.next_filter_id + 1) % 2 ^ 32;
          filters =
              t.filters
              ++ record {
                id = t.next_filter_id;
                condition = condition;
                filter_string = filter;
                description = desc;
              }
                ∷ [];
        }),
        ok s.next_filter_id,
      )
    ]
  ]

  unfoldable pub edit_filter :
      Registry → SessionId → ℕ → Option String → Option String → Registry × Result FilterInfo
  edit_filter r id filter_id none desc = edit_parsed_filter r id filter_id none desc
  edit_filter r id filter_id (some f) desc = elim (parse_filter f) [
    | none ↦ (r, err (filter_error f))
    | some c ↦ edit_parsed_filter r id filter_id (some (f, c)) desc
  ]

-- The registry after it, and whether the window was open.
unfoldable pub decrement_post_window : Registry → SessionId → Registry × Bool
decrement_post_window r id = elim (get r id) [
  | none ↦ (r, false)
  | some s ↦ if s.post_window_remaining == 0 then (r, false) else (
    update r id (λ t. record t { post_window_remaining = t.post_window_remaining - 1 }),
    true,
  )
]

unfoldable pub extend_post_window : Registry → SessionId → ℕ → Registry
extend_post_window r id count =
    update r id (λ t. record t { post_window_remaining = max t.post_window_remaining count })

-- What the sending of an event does to one session's state.
unfoldable pub queued : PipelineEvent → SessionState → SessionState
queued event s =
    if not s.connected && is_some s.name && ltb (length s.notification_queue) s.max_queue_size
    then record s { notification_queue = s.notification_queue ++ event ∷ [] }
    else s

unfoldable pub send_or_queue_notification : Registry → SessionId → PipelineEvent → Registry
send_or_queue_notification r id event = update r id (queued event)

unfoldable pub drain_notifications : Registry → SessionId → Registry × List PipelineEvent
drain_notifications r id = elim (get r id) [
  | none ↦ (r, [])
  | some s ↦ (update r id (λ t. record t { notification_queue = [] }), s.notification_queue)
]

module _ (engine : TextEngine) where
  unfoldable pub evaluate_triggers : Registry → SessionId → LogEntry → Registry × List TriggerMatch
  evaluate_triggers r id e = elim (get r id) [
    | none ↦ (r, [])
    | some s ↦
        let (ts, matches) = Triggers.evaluate engine (s.triggers).triggers e in
        (update r id (λ t. with_triggers t (record (s.triggers) { triggers = ts })), matches)
  ]

  unfoldable pub evaluate_span_triggers :
      Registry → SessionId → SpanEntry → Registry × List TriggerMatch
  evaluate_span_triggers r id e = elim (get r id) [
    | none ↦ (r, [])
    | some s ↦
        let (ts, matches) = Triggers.evaluate_span engine (s.triggers).triggers e in
        (update r id (λ t. with_triggers t (record (s.triggers) { triggers = ts })), matches)
  ]
