-- ===== src/Sessions/Binding.antt =====
-- A session that changes its domain.
use text.Mathlib.Text.{◌==◌ as str_eq}
use logmon_mcp.Common.{ℕ, ◌≡◌, ◌∙◌, refl, ap, Bool, false, some, List, [], ◌∷◌, map, String}
use logmon_mcp.Entry.{LogEntry}
use logmon_mcp.Filter.Text.{TextEngine}
use logmon_mcp.Filter.Matcher.{matches_entry}
use logmon_mcp.Triggers.{Trigger, reset_post_windows}
use logmon_mcp.Triggers.Debounce.{fires}
use logmon_mcp.Sessions.{SessionState, Registry}
use logmon_mcp.Sessions.Id.{SessionId, same_id_refl, get, changed, get-update}
use logmon_mcp.Sessions.Lifecycle.{bound_to, set_domain}

-- Trigger by trigger, its id and whether its condition matches a record, with no window of any kind
-- in the way.
abbrev pub matching : TextEngine → LogEntry → List Trigger → List (ℕ × Bool)
matching engine e ts = map (λ (t : Trigger). (t.id, matches_entry engine t.condition e)) ts

-- Trigger by trigger, its id and whether it fires.
abbrev pub firing : TextEngine → LogEntry → List Trigger → List (ℕ × Bool)
firing engine e ts = map (λ (t : Trigger). (t.id, fires engine t e)) ts

firing-reset :
    (engine : TextEngine) (e : LogEntry) (ts : List Trigger)
    → firing engine e (map (λ (t : Trigger). record t { post_remaining = 0 }) ts)
      ≡ matching engine e ts
firing-reset engine e [] = refl
firing-reset engine e (t ∷ ts) =
    ap (λ l. (t.id, matches_entry engine t.condition e) ∷ l) (firing-reset engine e ts)

-- A session that is bound to another domain starts there with an empty queue and no post-window,
-- and each of its triggers fires on a next record exactly if its condition matches it, whatever it
-- was doing in the domain it left; its filters and its connection stay.
pub set_domain-fresh :
    (engine : TextEngine) (r : Registry) (id : SessionId) (domain : String) (s : SessionState)
    (e : LogEntry)
    → get r id ≡ some s
    → str_eq s.domain domain ≡ false
    → (t : SessionState) × (get (set_domain r id domain) id ≡ some t)
      × (t.domain ≡ domain)
      × (t.notification_queue ≡ [])
      × (t.post_window_remaining ≡ 0)
      × (firing engine e (t.triggers).triggers ≡ matching engine e (s.triggers).triggers)
      × (t.filters ≡ s.filters)
      × (t.connected ≡ s.connected)
unfolding set_domain bound_to reset_post_windows
set_domain-fresh engine r id domain s e g d = (
  bound_to domain s,
  get-update r id (bound_to domain) id ∙ rw (same_id_refl id) (ap (changed (bound_to domain)) g),
  rw d refl,
  rw d refl,
  rw d refl,
  rw d (firing-reset engine e (s.triggers).triggers),
  rw d refl,
  rw d refl,
)
