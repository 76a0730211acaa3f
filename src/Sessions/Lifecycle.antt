-- ===== src/Sessions/Lifecycle.antt =====
-- crates/core/src/daemon/session.rs: the sessions' lives, and the domain each is bound to. What
-- a rename, a drop or a disposal runs under the registry's lock (`transfer`, `cleanup`) acts on
-- bookmarks and collectors, not on the registry; `drop_session` gives out its argument.
use text.Mathlib.Text.{◌==◌ as str_eq}
use logmon_mcp.Common.{
  ℕ, Bool, true, false, not, ◌&&◌, Option, none, some, List, [], ◌∷◌, String, if◌then◌else◌,
}
use logmon_mcp.Filter.{ParsedFilter}
use logmon_mcp.Triggers.{reset_post_windows}
use logmon_mcp.Sessions.{
  SessionState, invalid_name, already_connected, already_exists, not_found, Result, ok, err,
  Registry, default_domain, is_valid_name, touch, insert_domain, new_state, is_abandoned,
}
use logmon_mcp.Sessions.Id.{
  SessionId, anonymous, named, label, same_id, get, insert, remove, update, has_id,
}

-- Whether a live anonymous session holds the name as its id.
unfoldable pub refuse_an_anonymous_id : Registry → String → Bool
refuse_an_anonymous_id r name = has_id (anonymous name) r

module _ (errors panics : ParsedFilter) where
  -- `uuid` is the text of a new UUID.
  unfoldable pub create_anonymous : Registry → ℕ → String → Registry × SessionId
  create_anonymous r now uuid =
      (insert r (anonymous uuid) (new_state errors panics none now), anonymous uuid)

  unfoldable pub create_named : Registry → ℕ → String → Registry × Result SessionId
  create_named r now name =
      if not (is_valid_name name)
      then (r, err (invalid_name name))
      else if refuse_an_anonymous_id r name
      then (r, err (already_connected name))
      else elim (get r (named name)) [
        | some existing ↦
            if existing.connected
            then (r, err (already_connected name))
            else (r, err (already_exists name))
        | none ↦ (insert r (named name) (new_state errors panics (some name) now), ok (named name))
      ]

  -- The id, and whether the session is new.
  unfoldable pub claim_named : Registry → ℕ → String → Registry × Result (SessionId × Bool)
  claim_named r now name =
      if not (is_valid_name name)
      then (r, err (invalid_name name))
      else if refuse_an_anonymous_id r name
      then (r, err (already_connected name))
      else elim (get r (named name)) [
        | some existing ↦ if existing.connected then (r, err (already_connected name)) else (
          update r (named name) (λ t. touch now (record t { connected = true })),
          ok (named name, false),
        )
        | none ↦
            (insert r (named name) (new_state errors panics (some name) now), ok (named name, true))
      ]

unfoldable pub reconnect : Registry → ℕ → SessionId → Registry × Result (Unit {0})
reconnect r now id = elim (get r id) [
  | none ↦ (r, err (not_found (label id)))
  | some s ↦ if s.connected then (r, err (already_connected (label id))) else elim id [
    | anonymous a ↦ (r, err (not_found a))
    | named n ↦ (update r (named n) (λ t. touch now (record t { connected = true })), ok tt)
  ]
]

unfoldable pub disconnect : Registry → ℕ → SessionId → Registry
disconnect r now (anonymous a) = remove r (anonymous a)
disconnect r now (named n) = update r (named n) (λ t. touch now (record t { connected = false }))

unfoldable pub set_client_info : Registry → SessionId → Option String → Registry
set_client_info r id info = update r id (λ t. record t { client_info = info })

-- `rename` from the displacement on: `s` is the renamed session's state.
unfoldable pub move_to : Registry → ℕ → SessionId → String → SessionState → Registry
move_to r now old new_name s =
    insert (remove r old) (named new_name) (touch now (record s { name = some new_name }))

-- The holder of the name, if there is one, refuses or is displaced.
unfoldable pub rename_onto :
    Registry → ℕ → SessionId → String → SessionState → Registry × Result (SessionId × Bool)
rename_onto r now old new_name s = elim (get r (named new_name)) [
  | some existing ↦
      if existing.connected
      then (r, err (already_connected new_name))
      else (move_to (remove r (named new_name)) now old new_name s, ok (named new_name, true))
  | none ↦ (move_to r now old new_name s, ok (named new_name, false))
]

-- The new id, and whether a stale holder of the name was displaced.
unfoldable pub rename : Registry → ℕ → SessionId → String → Registry × Result (SessionId × Bool)
rename r now old new_name =
    if not (is_valid_name new_name)
    then (r, err (invalid_name new_name))
    else if same_id old (named new_name)
    then (r, ok (named new_name, false))
    else elim (get r old) [
      | none ↦ (r, err (not_found (label old)))
      | some s ↦
          if not (same_id old (anonymous new_name)) && refuse_an_anonymous_id r new_name
          then (r, err (already_connected new_name))
          else rename_onto r now old new_name s
    ]

pub data DisposeOutcome : Type 0 where
  disposed not_abandoned gone : DisposeOutcome

unfoldable pub dispose_if_expired : Registry → ℕ → SessionId → ℕ → Registry × DisposeOutcome
dispose_if_expired r now id ttl = elim (get r id) [
  | none ↦ (r, gone)
  | some s ↦ if is_abandoned now ttl s then (remove r id, disposed) else (r, not_abandoned)
]

unfoldable pub expired_disconnected : Registry → ℕ → ℕ → List SessionId
expired_disconnected [] now ttl = []
expired_disconnected ((id, s) ∷ r) now ttl =
    let rest = expired_disconnected r now ttl in if is_abandoned now ttl s then id ∷ rest else rest

unfoldable pub domain_of : Registry → SessionId → String
domain_of r id = elim (get r id) [ none ↦ default_domain | some s ↦ s.domain ]

unfoldable pub touched_domains : Registry → SessionId → List String
touched_domains r id = elim (get r id) [ none ↦ [] | some s ↦ s.touched_domains ]

-- What `set_domain` makes of the session's state: a new binding drops what the old one left.
unfoldable pub bound_to : String → SessionState → SessionState
bound_to domain s =
    let touched = insert_domain domain s.touched_domains in
    if str_eq s.domain domain then record s { touched_domains = touched } else record s {
      touched_domains = touched;
      domain = domain;
      notification_queue = [];
      post_window_remaining = 0;
      triggers = reset_post_windows s.triggers;
    }

unfoldable pub set_domain : Registry → SessionId → String → Registry
set_domain r id domain = update r id (bound_to domain)

-- The result, and what the cleanup is told.
unfoldable pub drop_session : Registry → String → Registry × Result (Unit {0}) × Option Bool
drop_session r name = elim (get r (named name)) [
  | none ↦ (r, err (not_found name), some false)
  | some s ↦
      if s.connected
      then (r, err (already_connected name), none)
      else (remove r (named name), ok tt, some true)
]

unfoldable pub is_connected : Registry → SessionId → Bool
is_connected r id = elim (get r id) [ none ↦ false | some s ↦ s.connected ]
