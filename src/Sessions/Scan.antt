-- ===== src/Sessions/Scan.antt =====
-- crates/core/src/daemon/session.rs: the scans over the sessions that are bound to one domain, in
-- the order in which the map is iterated.
use logmon_mcp.Common.{
  ℕ, max, Bool, true, false, not, ◌&&◌, ◌||◌, Option, none, some, List, [], ◌∷◌, ◌++◌, map, String,
  leb, if◌then◌else◌,
}
use logmon_mcp.Entry.{LogEntry}
use logmon_mcp.Epoch.{FilterPolicy, new_policy, is_filtered}
use logmon_mcp.Filter.Text.{TextEngine}
use logmon_mcp.Filter.Matcher.{matches_entry}
use logmon_mcp.Triggers.{max_pre_window}
use logmon_mcp.Sessions.{SessionState, Registry, BufferFilterEntry, is_in_domain}
use logmon_mcp.Sessions.Id.{SessionId, anonymous, named}

-- `StorageDecision`.
pub record StorageDecision : Type 0 where
  pub should_store : Bool
  pub matched_descriptions : List String
  pub policy : FilterPolicy

-- The filters of the sessions bound to a domain, in the order of the loops.
unfoldable pub filters_for_domain : Registry → String → List BufferFilterEntry
filters_for_domain [] domain = []
filters_for_domain ((id, s) ∷ r) domain =
    let rest = filters_for_domain r domain in
    if is_in_domain s domain then s.filters ++ rest else rest

abbrev described : Option String → List String → List String
described none ds = ds
described (some d) ds = d ∷ ds

module _ (engine : TextEngine) where
  -- Whether a filter matches, and the descriptions of those that do.
  unfoldable pub any_matches : List BufferFilterEntry → LogEntry → Bool
  any_matches [] e = false
  any_matches (f ∷ fs) e = matches_entry engine f.condition e || any_matches fs e

  unfoldable pub matched : List BufferFilterEntry → LogEntry → List String
  matched [] e = []
  matched (f ∷ fs) e =
      let rest = matched fs e in
      if matches_entry engine f.condition e then described f.description rest else rest

  unfoldable pub evaluate_filters_for_domain : Registry → String → LogEntry → StorageDecision
  evaluate_filters_for_domain r domain e =
      let filters = filters_for_domain r domain in
      let policy = new_policy (map (λ (f : BufferFilterEntry). f.filter_string) filters) in
      record {
        should_store = any_matches filters e || not (is_filtered policy);
        matched_descriptions = matched filters e;
        policy = policy;
      }

-- `connected || matches!(id, Named(_))`.
abbrev pub is_active : SessionId → SessionState → Bool
is_active (anonymous a) s = s.connected
is_active (named n) s = true

-- `sort_by_key(Reverse(pre))`, which is stable.
unfoldable pub insert_by_pre : SessionId → ℕ → List (SessionId × ℕ) → List (SessionId × ℕ)
insert_by_pre id pre [] = (id, pre) ∷ []
insert_by_pre id pre ((j, q) ∷ ps) =
    if leb q pre then (id, pre) ∷ (j, q) ∷ ps else (j, q) ∷ insert_by_pre id pre ps

unfoldable pub sorted_pairs : Registry → String → List (SessionId × ℕ)
sorted_pairs [] domain = []
sorted_pairs ((id, s) ∷ r) domain =
    let rest = sorted_pairs r domain in
    if is_active id s && is_in_domain s domain
    then insert_by_pre id (max_pre_window (s.triggers).triggers) rest
    else rest

unfoldable pub active_session_ids_sorted_by_pre_window_for_domain :
    Registry → String → List SessionId
active_session_ids_sorted_by_pre_window_for_domain r domain =
    map (λ (id, pre). id) (sorted_pairs r domain)

unfoldable pub active_session_ids_for_domain : Registry → String → List SessionId
active_session_ids_for_domain [] domain = []
active_session_ids_for_domain ((id, s) ∷ r) domain =
    let rest = active_session_ids_for_domain r domain in
    if is_in_domain s domain then id ∷ rest else rest

unfoldable pub max_pre_window_for_domain : Registry → String → ℕ
max_pre_window_for_domain [] domain = 0
max_pre_window_for_domain ((id, s) ∷ r) domain =
    let rest = max_pre_window_for_domain r domain in
    if is_in_domain s domain then max (max_pre_window (s.triggers).triggers) rest else rest
