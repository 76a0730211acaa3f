-- ===== src/Sessions/Tests.antt =====
-- Witnesses for the sessions.
use logmon_mcp.Common.{String, Option, ◌≡◌, refl, false, none, some, List, [], ◌∷◌, leb}
use logmon_mcp.Entry.{Level, LogSource, LogEntry}
use logmon_mcp.Filter.{ParsedFilter, LevelOp, level_filter, qualifiers, match_none}
use logmon_mcp.Filter.Text.{TextEngine, contains}
use logmon_mcp.Sessions.{SessionState, Registry, new_state, is_valid_name}
use logmon_mcp.Sessions.Id.{anonymous, named, get}
use logmon_mcp.Bookmarks.Name.{all_name_bytes, is_name_byte}
use logmon_mcp.Sessions.Lifecycle.{
  rename, rename_onto, refuse_an_anonymous_id, set_domain, claim_named, create_named, reconnect,
}
use logmon_mcp.Sessions.Invariant.{IsRegistry}
use logmon_mcp.Sessions.History.{
  Move, begins, claims, leaves, renames, binds, expires, sees, adds_filter, run, run-IsRegistry,
}
use logmon_mcp.Sessions.Names.{get-rename, renamed_get, Refused, held_name-Refused}
use logmon_mcp.Sessions.Binding.{set_domain-fresh, firing, matching}

abbrev pub engine : TextEngine
engine = record {
  to_lowercase = λ s. s;
  is_match = λ pattern s. contains s pattern;
  double_ge = λ a b. leb b a;
}

abbrev pub errors : ParsedFilter
errors = qualifiers (level_filter LevelOp.gte Level.error ∷ [])

abbrev pub lane : SessionState
lane = new_state errors match_none (some "lane") 5

abbrev registry : Registry
registry = (named "lane", lane) ∷ (anonymous "u1", new_state errors match_none none 7) ∷ []

abbrev entry : LogEntry
entry = record {
  seq = 1;
  timestamp = 0;
  level = Level.error;
  message = "m";
  full_message = none;
  host = "h";
  facility = none;
  file = none;
  line = none;
  additional_fields = [];
  trace_id = none;
  span_id = none;
  matched_filters = [];
  source = LogSource.by_filter;
}

abbrev moves : List Move
moves =
    begins 1 "u1"
    ∷ claims 2 "lane"
    ∷ leaves 3 (named "lane")
    ∷ renames 4 (anonymous "u1") "lane"
    ∷ binds (named "lane") "t3"
    ∷ adds_filter (named "lane") "l>=ERROR" none
    ∷ sees (named "lane") entry
    ∷ expires 9 (named "lane") 2
    ∷ []

abbrev parse : String → Option ParsedFilter
parse text = some errors

empty-IsRegistry : IsRegistry []
empty-IsRegistry = record { unique = tt; sessions = tt; apart = λ x. refl }

run-IsRegistry_example : IsRegistry (run parse engine errors match_none [] moves)
run-IsRegistry_example =
    run-IsRegistry parse engine errors match_none [] moves
      (refl, (tt, (tt, (tt, (tt, (tt, (tt, (tt, tt)))))))) empty-IsRegistry

held_name-Refused_example :
    Refused registry (claim_named errors match_none registry 9 "lane")
    × Refused registry (create_named errors match_none registry 9 "lane")
    × Refused registry (reconnect registry 9 (named "lane"))
    × Refused registry (rename registry 9 (anonymous "u1") "lane")
unfolding get new_state
held_name-Refused_example =
    held_name-Refused errors match_none registry 9 (anonymous "u1") "lane" lane refl refl refl

get-rename_example :
    get (rename registry 9 (named "lane") "lane-2").0 (named "lane-2")
    ≡ renamed_get registry 9 (named "lane") "lane-2" lane (named "lane-2")
unfolding get rename rename_onto refuse_an_anonymous_id is_valid_name all_name_bytes is_name_byte
    new_state
get-rename_example =
    get-rename registry 9 (named "lane") "lane-2" lane (named "lane-2", false) (named "lane-2") refl
      refl refl

set_domain-fresh_example :
    (t : SessionState) × (get (set_domain registry (named "lane") "t3") (named "lane") ≡ some t)
    × (t.domain ≡ "t3")
    × (t.notification_queue ≡ [])
    × (t.post_window_remaining ≡ 0)
    × (firing engine entry (t.triggers).triggers ≡ matching engine entry (lane.triggers).triggers)
    × (t.filters ≡ lane.filters)
    × (t.connected ≡ lane.connected)
unfolding get new_state
set_domain-fresh_example = set_domain-fresh engine registry (named "lane") "t3" lane entry refl refl
