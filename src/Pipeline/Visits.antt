-- ===== src/Pipeline/Visits.antt =====
-- The loop over a domain's sessions: whether the record is to be stored.
use logmon_mcp.Common.{
  ℕ, ◌-◌, ◌<◌, ◌≡◌, ◌∙◌, refl, ap, Bool, true, false, ◌||◌, Option, none, some, List, [], ◌∷◌,
  String, ltb, ◌==◌, if◌then◌else◌, any, arith, Bool-cases, Option-cases, inl, inr, u64_max,
}
use logmon_mcp.Entry.{LogEntry}
use logmon_mcp.Filter.Text.{TextEngine}
use logmon_mcp.Triggers.{Trigger, TriggerMatch, evaluate, evaluate_one}
use logmon_mcp.Triggers.Debounce.{fires}
use logmon_mcp.Sessions.{SessionState, Registry}
use logmon_mcp.Sessions.Id.{SessionId, same_id_refl, get, changed, get-update}
use logmon_mcp.Sessions.Work.{decrement_post_window, evaluate_triggers}
use logmon_mcp.Pipeline.{LogPipeline, send_event}
use logmon_mcp.Pipeline.Event.{PipelineEvent}
use logmon_mcp.Pipeline.Process.{
  Node, notify, any_oneshot, store_and_notify, fire, answer, visit, sync_pre_buffer_size_for_domain,
}
use logmon_mcp.Pipeline.Stage.{Stage, store_fired-Stage, resync-Stage}

abbrev is_nil : List TriggerMatch → Bool
is_nil [] = true
is_nil (m ∷ ms) = false

or_false : (b : Bool) → (b || false) ≡ b
or_false b = ground arith

or_right : (b : Bool) → (b || true) ≡ true
or_right b = ground arith

module _ (engine : TextEngine) (e : LogEntry) where
  -- Whether a trigger of the session fires on the record.
  abbrev pub has_fired : SessionState → Bool
  has_fired s = any (λ t. fires engine t e) (s.triggers).triggers

  -- Whether the session has the record stored whatever the filters say.
  abbrev pub insists : SessionState → Bool
  insists s = ltb 0 s.post_window_remaining || has_fired s

  -- Of a session, if there is one.
  abbrev pub fired_of : Option SessionState → Bool
  fired_of none = false
  fired_of (some s) = has_fired s

  abbrev pub insists_of : Option SessionState → Bool
  insists_of none = false
  insists_of (some s) = insists s

  evaluate-is_nil :
      (ts : List Trigger)
      → is_nil (evaluate engine ts e).1 ≡ (if any (λ t. fires engine t e) ts then false else true)
  unfolding evaluate evaluate_one
  evaluate-is_nil [] = refl
  evaluate-is_nil (t ∷ ts) = ground (arith, evaluate-is_nil ts)

  -- What a visit reads of the session: its window before, and its triggers.
  opens-decrement :
      (r : Registry) (sid : SessionId)
      → (decrement_post_window r sid).1
        ≡ elim (get r sid) [ none ↦ false | some s ↦ ltb 0 s.post_window_remaining ]
  unfolding decrement_post_window
  opens-decrement r sid = ground arith

  evaluate_triggers-is_nil :
      (r : Registry) (sid : SessionId)
      → is_nil (evaluate_triggers engine r sid e).1 ≡ (if fired_of (get r sid) then false else true)
  unfolding evaluate_triggers
  evaluate_triggers-is_nil r sid = elim (Option-cases (get r sid)) [
    | inl h ↦ rw (h, evaluate_triggers) refl
    | inr (s, h) ↦ rw (h, evaluate_triggers) (evaluate-is_nil (s.triggers).triggers)
  ]

  fired_at-decrement :
      (r : Registry) (sid : SessionId)
      → fired_of (get (decrement_post_window r sid).0 sid) ≡ fired_of (get r sid)
  unfolding decrement_post_window
  fired_at-decrement r sid = elim (Option-cases (get r sid)) [
    | inl h ↦ rw (h, decrement_post_window) (rw h refl)
    | inr (s, h) ↦
        rw (h, decrement_post_window)
          (elim (Bool-cases (s.post_window_remaining == 0)) [
            | inl z ↦ rw z (ap fired_of h)
            | inr z ↦
                let closer : SessionState → SessionState =
                  λ t. record t { post_window_remaining = t.post_window_remaining - 1 } in
                rw z (
                  ap fired_of (get-update r sid closer sid)
                  ∙ rw (same_id_refl sid) (ap (λ o. fired_of (changed closer o)) h))
          ])
  ]

module _ (k : ℕ) (p0 : LogPipeline) (small : k < u64_max) where
  sent-Stage :
      (kept : Bool) (p : LogPipeline) (event : PipelineEvent)
      → Stage k p0 kept p
      → Stage k p0 kept (send_event p event)
  unfolding send_event
  sent-Stage kept p event st = record {
    ring = st.ring;
    buffer = st.buffer;
    same_epochs = st.same_epochs;
    same_counter = st.same_counter;
    same_admit = st.same_admit;
    floor_ge = st.floor_ge;
    later = st.later;
    waiting = st.waiting;
    cut = st.cut;
    fresh = st.fresh;
    fate = st.fate;
  }

  notify-Stage :
      (kept : Bool) (sid : SessionId) (e : LogEntry) (pre : ℕ) (ms : List TriggerMatch) (n : Node)
      → Stage k p0 kept n.pipeline
      → Stage k p0 kept (notify sid e pre ms n).pipeline
  unfolding notify
  notify-Stage kept sid e pre [] n st = st
  notify-Stage kept sid e pre (m ∷ ms) n st =
      notify-Stage kept sid e pre ms _ (sent-Stage kept n.pipeline _ st)

  fire-Stage :
      (kept : Bool) (domain : String) (sid : SessionId) (e : LogEntry) (ms : List TriggerMatch)
      (n : Node)
      → e.seq ≡ k
      → Stage k p0 kept n.pipeline
      → Stage k p0 true (fire domain sid e ms n).pipeline
  unfolding fire store_and_notify sync_pre_buffer_size_for_domain
  fire-Stage kept domain sid e ms n same st =
      let told =
        notify-Stage true sid e _ ms _ (store_fired-Stage k p0 small kept n.pipeline e _ same st) in
      elim (Bool-cases (any_oneshot ms)) [
        | inl h ↦ rw (h, fire) (resync-Stage k p0 small true _ _ told)
        | inr h ↦ rw (h, fire) told
      ]

  answer-Stage :
      (kept fired active : Bool) (domain : String) (sid : SessionId) (e : LogEntry)
      (ms : List TriggerMatch) (n : Node)
      → e.seq ≡ k
      → is_nil ms ≡ (if fired then false else true)
      → Stage k p0 kept n.pipeline
      → Stage k p0 (kept || fired) (answer domain sid e ms n active).0.pipeline
        × ((answer domain sid e ms n active).1 ≡ (active || fired))
  unfolding answer
  answer-Stage kept fired active domain sid e [] n same h st =
      let quiet : fired ≡ false = ground arith in
      rw quiet (rw (or_false kept) st, rw (or_false active) refl)
  answer-Stage kept fired active domain sid e (m ∷ ms) n same h st =
      let loud : fired ≡ true = ground arith in
      rw loud (rw (or_right kept) (fire-Stage kept domain sid e (m ∷ ms) n same st), ground arith)

  pub visit-Stage :
      (engine : TextEngine) (kept active : Bool) (domain : String) (sid : SessionId) (e : LogEntry)
      (n : Node)
      → e.seq ≡ k
      → Stage k p0 kept n.pipeline
      → Stage k p0
          (kept || fired_of engine e (get n.sessions sid))
          (visit engine domain e sid n active).0.pipeline
        × ((visit engine domain e sid n active).1
            ≡ (active || insists_of engine e (get n.sessions sid)))
  unfolding visit
  visit-Stage engine kept active domain sid e n same st =
      let paced = (decrement_post_window n.sessions sid).0 in
      let asked =
        answer-Stage kept (fired_of engine e (get n.sessions sid)) _ domain sid e _ _ same
          (evaluate_triggers-is_nil engine e paced sid
            ∙ ap (λ b. if b then false else true) (fired_at-decrement engine e n.sessions sid))
          st in
      (asked.0, asked.1 ∙ either (get n.sessions sid) refl)
    where
      either :
          (o : Option SessionState)
          → get n.sessions sid ≡ o
          → ((active || (decrement_post_window n.sessions sid).1) || fired_of engine e o)
            ≡ (active || insists_of engine e o)
      either none h = ground (arith, opens-decrement engine e n.sessions sid, h)
      either (some s) h = ground (arith, opens-decrement engine e n.sessions sid, h)
