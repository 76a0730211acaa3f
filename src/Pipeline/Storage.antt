-- ===== src/Pipeline/Storage.antt =====
-- What the processing of one record does: whether it is stored, what the epoch log learns, and what
-- stays as it was.
use logmon_mcp.Common.{
  ℕ, ◌+◌, ◌≤◌, ◌<◌, ◌≡◌, ◌∙◌, refl, subst, Bool, true, false, ◌&&◌, ◌||◌, Option, none, some, List,
  [], ◌∷◌, String, All-imp, if◌then◌else◌, any, arith, Bool-cases, inl, inr, u64_max,
}
use logmon_mcp.Entry.{LogEntry}
use logmon_mcp.Filter.Text.{TextEngine}
use logmon_mcp.Ring.Order.{has_seq}
use logmon_mcp.Ring.Merging.{IsRing}
use logmon_mcp.PreBuffer.Index.{IsBuffer}
use logmon_mcp.PreBuffer.Contents.{Every}
use logmon_mcp.Epoch.{EpochLog, observe}
use logmon_mcp.Epoch.Log.{IsLog}
use logmon_mcp.Sessions.{SessionState, Registry}
use logmon_mcp.Sessions.Id.{SessionId, get, Unique}
use logmon_mcp.Sessions.Scan.{StorageDecision, evaluate_filters_for_domain, filters_for_domain}
use logmon_mcp.Pipeline.{LogPipeline, contains_seq, pre_buffer_append, assign_seq}
use logmon_mcp.Throttle.{next}
use logmon_mcp.Pipeline.Process.{
  Node, visit_all, store_by_filters, settle, process_entry_for_domain,
}
use logmon_mcp.Pipeline.Stage.{
  Stage, append-Stage, buffered-Stage, contained-Stage, contains_seq-Stage,
}
use logmon_mcp.Pipeline.Visits.{insists, insists_of, fired_of}
use logmon_mcp.Pipeline.Rounds.{Round, visit_all-Round}
use logmon_mcp.Pipeline.Visited.{takes_part, active_ids, any-visited, active_ids-Distinct}

-- The pipeline as the processor relies on it: every part keeps its own invariant, and every record
-- in it has a seq that the counter has given out.
pub record IsPipeline (p : LogPipeline) : Type 0 where
  pub ring : IsRing p.store
  pub buffer : IsBuffer p.pre_buffer
  pub log : IsLog p.epochs
  pub ahead : (q : ℕ) → p.seq_counter < q → q < u64_max → has_seq q p.store.entries ≡ false
  pub waiting : Every (λ x. x.seq ≤ p.seq_counter) p.pre_buffer.entries

abbrev pub with_epochs : LogPipeline → EpochLog → LogPipeline
with_epochs p log = record p { epochs = log }

-- The log after a record: only a decision by the filters is put on record.
abbrev pub log_after : ℕ → LogPipeline → Bool → StorageDecision → EpochLog
log_after k p0 insisted d = if insisted then p0.epochs else observe p0.epochs k d.policy

module _ (k : ℕ) (p0 : LogPipeline) (small : k < u64_max) where
  observed-Stage :
      (kept : Bool) (p : LogPipeline) (log : EpochLog)
      → Stage k p0 kept p
      → Stage k (with_epochs p0 log) kept (with_epochs p log)
  observed-Stage kept p log st = record {
    ring = st.ring;
    buffer = st.buffer;
    same_epochs = refl;
    same_counter = st.same_counter;
    same_admit = st.same_admit;
    floor_ge = st.floor_ge;
    later = st.later;
    waiting = st.waiting;
    cut = st.cut;
    fresh = st.fresh;
    fate = st.fate;
  }

  filtered-Stage :
      (p : LogPipeline) (e : LogEntry) (d : StorageDecision)
      → e.seq ≡ k
      → Stage k p0 false p
      → Stage k
          (with_epochs p0 (observe p0.epochs k d.policy))
          d.should_store
          (store_by_filters p e d)
  unfolding store_by_filters
  filtered-Stage p e d same st =
      let log-eq : observe p.epochs e.seq d.policy ≡ observe p0.epochs k d.policy =
        cc (st.same_epochs, same) in
      let observed = observed-Stage false p (observe p0.epochs k d.policy) st in
      rw log-eq (elim (Bool-cases d.should_store) [
        | inl h ↦ rw (h, store_by_filters) (append-Stage k _ small false _ _ same observed)
        | inr h ↦ rw (h, store_by_filters) observed
      ])

  settle-Stage :
      (engine : TextEngine) (domain : String) (e : LogEntry) (n : Node) (fired active : Bool)
      → e.seq ≡ k
      → (fired ≡ true → active ≡ true)
      → Stage k p0 fired n.pipeline
      → let d = evaluate_filters_for_domain engine n.sessions domain e in
        Stage k
          (with_epochs p0 (log_after k p0 active d))
          (active || d.should_store)
          (settle engine domain e n active).pipeline
  unfolding settle
  settle-Stage engine domain e n fired true same h st =
      let waiting = buffered-Stage k p0 small fired n.pipeline e same st in
      elim (Bool-cases (contains_seq (pre_buffer_append n.pipeline e) e.seq)) [
        | inl c ↦ rw (c, settle) (contained-Stage k p0 small fired _ e.seq same c waiting)
        | inr c ↦ rw (c, settle) (append-Stage k p0 small fired _ _ same waiting)
      ]
  settle-Stage engine domain e n true false same h st = absurd (cc (h refl))
  settle-Stage engine domain e n false false same h st =
      let waiting = buffered-Stage k p0 small false n.pipeline e same st in
      let absent = contains_seq-Stage k p0 small false _ e.seq same waiting in
      rw (absent, settle) (filtered-Stage _ e _ same waiting)

any-imp :
    (f g : SessionId → Bool) (ids : List SessionId)
    → ((i : SessionId) → f i ≡ true → g i ≡ true)
    → any f ids ≡ true
    → any g ids ≡ true
any-imp f g [] h a = cc
any-imp f g (i ∷ ids) h a = ground (arith, h i, any-imp f g ids h)

fired-insists :
    (engine : TextEngine) (e : LogEntry) (o : Option SessionState)
    → fired_of engine e o ≡ true
    → insists_of engine e o ≡ true
fired-insists engine e none h = h
fired-insists engine e (some s) h = ground arith

same_decision :
    (engine : TextEngine) (r r' : Registry) (domain : String) (e : LogEntry)
    → filters_for_domain r' domain ≡ filters_for_domain r domain
    → evaluate_filters_for_domain engine r' domain e ≡ evaluate_filters_for_domain engine r domain e
unfolding evaluate_filters_for_domain
same_decision engine r r' domain e h = rw h refl

module _ (engine : TextEngine) (n : Node) (domain : String) (entry : LogEntry) where
  -- The record's seq, and the record with it.
  abbrev pub given_seq : ℕ
  given_seq = (n.pipeline).seq_counter + 1

  abbrev pub numbered : LogEntry
  numbered = record entry { seq = given_seq }

  -- Whether a session of the domain has the record stored whatever the filters say: its window is
  -- open, or one of its triggers fires.
  abbrev pub some_insists : Bool
  some_insists = any (λ (id, s). takes_part domain id s && insists engine numbered s) n.sessions

  -- What the domain's filters say.
  abbrev pub decision : StorageDecision
  decision = evaluate_filters_for_domain engine n.sessions domain numbered

  abbrev pub arrived : LogPipeline
  arrived = (assign_seq n.pipeline).0

  abbrev pub visited : Node × Bool
  visited =
      visit_all engine domain numbered (active_ids n.sessions domain)
        (record n { pipeline = arrived }) false

  module _ (v : IsPipeline n.pipeline) (u : Unique n.sessions) (small : given_seq < u64_max) where
    start-Stage : Stage given_seq arrived false arrived
    unfolding assign_seq
    start-Stage = record {
      ring = v.ring;
      buffer = v.buffer;
      same_epochs = refl;
      same_counter = refl;
      same_admit = refl;
      floor_ge = omega arith;
      later = λ q l m. v.ahead q (omega arith) m;
      waiting = All-imp (λ x h. omega (arith, h)) (n.pipeline).pre_buffer.entries v.waiting;
      cut = λ q l m a. a;
      fresh = λ q m d a. a;
      fate = v.ahead given_seq (omega arith) small;
    }

    pub round :
        Round engine given_seq arrived numbered
          (active_ids n.sessions domain)
          false
          false
          (record n { pipeline = arrived })
          visited
    round =
        visit_all-Round engine given_seq arrived small domain numbered refl _ false false _
          (active_ids-Distinct n.sessions domain u) start-Stage

    asked : visited.1 ≡ some_insists
    asked = round.answer ∙ any-visited (insists_of engine numbered) n.sessions domain u

    -- The pipeline after the record, by what the sessions and the filters said.
    abbrev pub Ended : Bool → StorageDecision → Type 0
    Ended insisted d =
        Stage given_seq (with_epochs arrived (log_after given_seq arrived insisted d))
          (insisted || d.should_store) (process_entry_for_domain engine n domain entry).pipeline

    pub final-Stage : Ended some_insists decision
    unfolding process_entry_for_domain assign_seq next
    final-Stage =
        let settled =
          settle-Stage given_seq arrived small engine domain numbered visited.0 _ visited.1 refl
            (λ h.
              round.answer
              ∙ any-imp _ _ (active_ids n.sessions domain)
                  (λ i. fired-insists engine numbered (get n.sessions i)) h)
            round.stage in
        subst (λ b. Ended b decision) asked
          (subst (Ended visited.1)
            (same_decision engine n.sessions (visited.0).sessions domain numbered
              (round.same_filters domain))
            settled)
