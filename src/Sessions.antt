-- ===== src/Sessions.antt =====
-- crates/core/src/daemon/session.rs: the sessions, their triggers, filters, notification queue and
-- post-window, and the domain each is bound to. The registry's lock is taken for the whole of each
-- method, so a method is one step. The time of `Instant::now()` and a fresh UUID are arguments,
-- times are nanoseconds of the monotonic clock, and a `client_info` value is its text.
-- `parse_filter` (Filter/Parser) is a parameter of the operations that call it.
mod Tests
pub mod Id
pub mod Lifecycle
pub mod Work
pub mod Scan
pub mod Invariant
pub mod Steps
pub mod WorkSteps
pub mod History
pub mod Names
pub mod Binding
use text.Mathlib.Text.{◌==◌ as str_eq}
use Prim.Native.String.{len}
use logmon_mcp.Common.{
  ℕ, ◌-◌, Bool, true, false, Option, none, some, List, [], ◌∷◌, String, ltb, not, ◌&&◌, ◌==◌,
  if◌then◌else◌, any,
}
use logmon_mcp.Filter.{ParsedFilter}
use logmon_mcp.Bookmarks.Name.{all_name_bytes}
use logmon_mcp.Pipeline.Event.{PipelineEvent}
use logmon_mcp.Triggers.{TriggerManager, TriggerError}
use logmon_mcp.Triggers
use Id.{SessionId}

pub record BufferFilterEntry : Type 0 where
  pub id : ℕ
  pub condition : ParsedFilter
  pub filter_string : String
  pub description : Option String

pub record FilterInfo : Type 0 where
  pub id : ℕ
  pub filter_string : String
  pub description : Option String

pub data SessionError : Type 0 where
  invalid_name already_connected already_exists not_found filter_error : String → SessionError
  trigger_error : TriggerError → SessionError

pub data Result (A : Type 0) : Type 0 where
  ok : A → Result A
  err : SessionError → Result A

pub record SessionState : Type 0 where
  pub name : Option String
  pub triggers : TriggerManager
  pub filters : List BufferFilterEntry
  pub next_filter_id : ℕ
  pub notification_queue : List PipelineEvent
  pub max_queue_size : ℕ
  pub post_window_remaining : ℕ
  pub connected : Bool
  pub last_seen : ℕ
  pub client_info : Option String
  pub domain : String
  pub touched_domains : List String

abbrev pub Registry : Type 0
Registry = List (SessionId × SessionState)

abbrev pub default_domain : String
default_domain = "default"

unfoldable pub is_valid_name : String → Bool
is_valid_name name = if len name == 0 then false else all_name_bytes name

unfoldable pub is_in_domain : SessionState → String → Bool
is_in_domain s domain = str_eq s.domain domain

abbrev pub touch : ℕ → SessionState → SessionState
touch now s = record s { last_seen = now }

-- A `HashSet` as the list of its members.
unfoldable pub insert_domain : String → List String → List String
insert_domain d ds = if any (λ x. str_eq x d) ds then ds else d ∷ ds

-- `new_anonymous` and `new_named`, with the conditions of the two built-in triggers.
unfoldable pub new_state : ParsedFilter → ParsedFilter → Option String → ℕ → SessionState
new_state errors panics name now = record {
  name = name;
  triggers = Triggers.new errors panics;
  filters = [];
  next_filter_id = 1;
  notification_queue = [];
  max_queue_size = 1_000;
  post_window_remaining = 0;
  connected = true;
  last_seen = now;
  client_info = none;
  domain = default_domain;
  touched_domains = default_domain ∷ [];
}

-- `!connected && elapsed() > ttl`.
unfoldable pub is_abandoned : ℕ → ℕ → SessionState → Bool
is_abandoned now ttl s = not s.connected && ltb ttl (now - s.last_seen)
