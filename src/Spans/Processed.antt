-- ===== src/Spans/Processed.antt =====
-- What the processing of a span comes to.
use logmon_mcp.Common.{
  ℕ, ◌≡◌, ◌∙◌, refl, sym, ap, subst, Bool, true, false, some, List, [], ◌∷◌, String, arith,
  Bool-cases, inl, inr,
}
use logmon_mcp.Entry.{LogEntry, SpanEntry}
use logmon_mcp.PreBuffer.Index.{IsBuffer, resize-IsBuffer}
use logmon_mcp.PreBuffer.Contents.{Every, resize-Every}
use logmon_mcp.Filter.Text.{TextEngine}
use logmon_mcp.Triggers.{TriggerMatch}
use logmon_mcp.Sessions.{SessionState, Registry, is_in_domain}
use logmon_mcp.Sessions.Id.{SessionId, same_id, same_id-eq, same_id-sym, get, Unique}
use logmon_mcp.Sessions.Work.{evaluate_span_triggers}
use logmon_mcp.Sessions.Scan.{active_session_ids_for_domain}
use logmon_mcp.Pipeline.{LogPipeline, send_event, resync_pre_buffer}
use logmon_mcp.Pipeline.Process.{Node, sync_pre_buffer_size_for_domain}
use logmon_mcp.Pipeline.Paced.{
  Paced, Paced-refl, Paced-trans, told-Paced, evaluate_span_triggers-Paced,
}
use logmon_mcp.Pipeline.Rounds.{listed_in}
use logmon_mcp.Pipeline.Visited.{Found, Found-self}
use logmon_mcp.Spans.{SpanStore, insert}
use logmon_mcp.Spans.Process.{
  SpanNode, store_span, notify_span, visit_spans, settle_span, process_span_for_domain,
}

-- From `p` to `p'` nothing has changed but the events sent and the pre-trigger buffer, which holds no
-- record that it did not hold.
pub record SameLogs (p p' : LogPipeline) : Type 1 where
  pub same_store : p'.store ≡ p.store
  pub same_epochs : p'.epochs ≡ p.epochs
  pub same_counter : p'.seq_counter ≡ p.seq_counter
  pub buffer : IsBuffer p.pre_buffer → IsBuffer p'.pre_buffer
  pub every :
      (P : LogEntry → Type 0)
      → IsBuffer p.pre_buffer
      → Every P p.pre_buffer.entries
      → Every P p'.pre_buffer.entries

SameLogs-refl : (p : LogPipeline) → SameLogs p p
SameLogs-refl p = record {
  same_store = refl;
  same_epochs = refl;
  same_counter = refl;
  buffer = λ v. v;
  every = λ P v h. h;
}

SameLogs-trans : (p q r : LogPipeline) → SameLogs p q → SameLogs q r → SameLogs p r
SameLogs-trans p q r v w = record {
  same_store = w.same_store ∙ v.same_store;
  same_epochs = w.same_epochs ∙ v.same_epochs;
  same_counter = w.same_counter ∙ v.same_counter;
  buffer = λ b. w.buffer (v.buffer b);
  every = λ P b h. w.every P (v.buffer b) (v.every P b h);
}

outside_domain :
    (domain : String) (r : Registry) (q : SessionId) (s : SessionState) (m : Registry)
    → get r q ≡ some s
    → is_in_domain s domain ≡ false
    → Found r m
    → listed_in q (active_session_ids_for_domain m domain) ≡ false
unfolding active_session_ids_for_domain
outside_domain domain r q s [] g d f = refl
outside_domain domain r q s ((i, w) ∷ m) g d f = elim (Bool-cases (same_id q i)) [
  | inl h ↦
      let same : some s ≡ some w = sym g ∙ ap (get r) (same_id-eq q i h) ∙ f.0 in
      let elsewhere : is_in_domain w domain ≡ false = cc (same, d) in
      ground (arith, elsewhere, outside_domain domain r q s m g d f.1)
  | inr h ↦ ground (arith, h, outside_domain domain r q s m g d f.1)
]

module _ (display : ℕ → String) (spans : SpanStore) (span : SpanEntry) where
  notify_span-SameLogs :
      (sid : SessionId) (ms : List TriggerMatch) (n : Node)
      → SameLogs n.pipeline (notify_span display spans span sid ms n).pipeline
  unfolding notify_span send_event
  notify_span-SameLogs sid [] n = SameLogs-refl n.pipeline
  notify_span-SameLogs sid (m ∷ ms) n =
      let rest = notify_span-SameLogs sid ms _ in
      record {
        same_store = rest.same_store;
        same_epochs = rest.same_epochs;
        same_counter = rest.same_counter;
        buffer = rest.buffer;
        every = rest.every;
      }

  notify_span-Paced :
      (sid : SessionId) (ms : List TriggerMatch) (n : Node)
      → Paced sid n.sessions (notify_span display spans span sid ms n).sessions
  unfolding notify_span
  notify_span-Paced sid [] n = Paced-refl sid n.sessions
  notify_span-Paced sid (m ∷ ms) n =
      Paced-trans sid n.sessions _ _ (told-Paced sid n.sessions _ m.oneshot m.id)
        (notify_span-Paced sid ms _)

  visit_spans-SameLogs :
      (engine : TextEngine) (ids : List SessionId) (n : Node) (removed : Bool)
      → SameLogs n.pipeline (visit_spans display spans span engine ids n removed).0.pipeline
  unfolding visit_spans
  visit_spans-SameLogs engine [] n removed = SameLogs-refl n.pipeline
  visit_spans-SameLogs engine (sid ∷ ids) n removed =
      SameLogs-trans n.pipeline _ _ (notify_span-SameLogs sid _ _)
        (visit_spans-SameLogs engine ids _ _)

  visit_spans-others :
      (engine : TextEngine) (ids : List SessionId) (n : Node) (removed : Bool) (q : SessionId)
      → listed_in q ids ≡ false
      → get (visit_spans display spans span engine ids n removed).0.sessions q ≡ get n.sessions q
  unfolding visit_spans
  visit_spans-others engine [] n removed q h = refl
  visit_spans-others engine (sid ∷ ids) n removed q h =
      let here : same_id q sid ≡ false = ground (arith, h) in
      let apart : same_id sid q ≡ false = same_id-sym sid q ∙ here in
      let judged = evaluate_span_triggers engine n.sessions sid span in
      visit_spans-others engine ids _ _ q (ground (arith, h))
      ∙ (notify_span-Paced sid judged.1 (record n { sessions = judged.0 })).others q apart
      ∙ (evaluate_span_triggers-Paced sid engine n.sessions span).others q apart

  visit_spans-Unique :
      (engine : TextEngine) (ids : List SessionId) (n : Node) (removed : Bool)
      → Unique n.sessions
      → Unique (visit_spans display spans span engine ids n removed).0.sessions
  unfolding visit_spans
  visit_spans-Unique engine [] n removed u = u
  visit_spans-Unique engine (sid ∷ ids) n removed u =
      let judged = evaluate_span_triggers engine n.sessions sid span in
      visit_spans-Unique engine ids _ _ (
        (notify_span-Paced sid judged.1 (record n { sessions = judged.0 })).unique
          ((evaluate_span_triggers-Paced sid engine n.sessions span).unique u))

settle_span-SameLogs :
    (domain : String) (n : Node) (removed : Bool)
    → SameLogs n.pipeline (settle_span domain (n, removed)).pipeline
      × ((settle_span domain (n, removed)).sessions ≡ n.sessions)
unfolding settle_span sync_pre_buffer_size_for_domain resync_pre_buffer
settle_span-SameLogs domain n false = (SameLogs-refl n.pipeline, refl)
settle_span-SameLogs domain n true = (
  record {
    same_store = refl;
    same_epochs = refl;
    same_counter = refl;
    buffer = λ v. resize-IsBuffer (n.pipeline).pre_buffer _ v;
    every = λ P v h. resize-Every P (n.pipeline).pre_buffer _ v h;
  },
  refl,
)

-- The span ring on the pipeline's counter.
abbrev pub on_counter : SpanNode → SpanStore
on_counter n = record n.spans { seq_counter = (n.node).pipeline.seq_counter }

-- The pipeline once the shared counter has given the span its seq.
abbrev pub counted_on : SpanNode → SpanEntry → LogPipeline
counted_on n span = record ((n.node).pipeline) {
  seq_counter = (insert (on_counter n) span).0.seq_counter;
}

pub process_span-SameLogs :
    (display : ℕ → String) (engine : TextEngine) (n : SpanNode) (domain : String) (span : SpanEntry)
    → SameLogs
        (counted_on n span)
        (process_span_for_domain display engine n domain span).node.pipeline
unfolding process_span_for_domain store_span
process_span-SameLogs display engine n domain span =
    let stored = store_span n span in
    let ids = active_session_ids_for_domain (n.node).sessions domain in
    let out = visit_spans display stored.0.spans stored.1 engine ids stored.0.node false in
    SameLogs-trans _ _ _
      (visit_spans-SameLogs display stored.0.spans stored.1 engine ids stored.0.node false)
      (settle_span-SameLogs domain out.0 out.1).0

pub process_span-Unique :
    (display : ℕ → String) (engine : TextEngine) (n : SpanNode) (domain : String) (span : SpanEntry)
    → Unique (n.node).sessions
    → Unique (process_span_for_domain display engine n domain span).node.sessions
unfolding process_span_for_domain store_span
process_span-Unique display engine n domain span u =
    let stored = store_span n span in
    let ids = active_session_ids_for_domain (n.node).sessions domain in
    let out = visit_spans display stored.0.spans stored.1 engine ids stored.0.node false in
    subst (λ r. Unique r) (sym (settle_span-SameLogs domain out.0 out.1).1)
      (visit_spans-Unique display stored.0.spans stored.1 engine ids stored.0.node false u)

-- A span is inserted into the span ring under the next seq of the shared counter, which the
-- pipeline then stands at. Whichever triggers it fires, the log ring and the epoch log stay as they
-- were, and so does every session that is bound to another domain.
pub process_span-isolated :
    (display : ℕ → String) (engine : TextEngine) (n : SpanNode) (domain : String) (span : SpanEntry)
    (q : SessionId) (s : SessionState)
    → Unique (n.node).sessions
    → get (n.node).sessions q ≡ some s
    → is_in_domain s domain ≡ false
    → ((process_span_for_domain display engine n domain span).spans
        ≡ (insert (on_counter n) span).0)
      × ((process_span_for_domain display engine n domain span).node.pipeline.seq_counter
          ≡ (insert (on_counter n) span).0.seq_counter)
      × ((process_span_for_domain display engine n domain span).node.pipeline.store
          ≡ (n.node).pipeline.store)
      × ((process_span_for_domain display engine n domain span).node.pipeline.epochs
          ≡ (n.node).pipeline.epochs)
      × (get (process_span_for_domain display engine n domain span).node.sessions q ≡ some s)
unfolding process_span_for_domain store_span
process_span-isolated display engine n domain span q s u g d =
    let stored = store_span n span in
    let ids = active_session_ids_for_domain (n.node).sessions domain in
    let out = visit_spans display stored.0.spans stored.1 engine ids stored.0.node false in
    let last = settle_span-SameLogs domain out.0 out.1 in
    let whole = process_span-SameLogs display engine n domain span in
    (
      refl,
      whole.same_counter,
      whole.same_store,
      whole.same_epochs,
      ap (λ r. get r q) last.1
          ∙ visit_spans-others display stored.0.spans stored.1 engine ids stored.0.node false q (
              outside_domain domain (n.node).sessions q s (n.node).sessions g d
                (Found-self (n.node).sessions u))
          ∙ g,
    )
