-- ===== src/Pipeline/Outcome.antt =====
-- The processing of a record as a whole, and of a sequence of records.
use logmon_mcp.Common.{
  ℕ, ◌+◌, ◌≤◌, ◌<◌, ◌≡◌, ◌∙◌, refl, sym, ap, subst, Bool, false, ◌&&◌, ◌||◌, some, List, [], ◌∷◌,
  String, if◌then◌else◌, any, arith, Bool-cases, inl, inr, u64_max, length, sat_suc-gt,
}
use logmon_mcp.Entry.{LogEntry}
use logmon_mcp.Filter.Text.{TextEngine}
use logmon_mcp.Ring.Order.{has_seq}
use logmon_mcp.PreBuffer.Contents.{Every}
use logmon_mcp.Epoch.{EpochLog, observe}
use logmon_mcp.Epoch.Log.{IsLog, observe-IsLog}
use logmon_mcp.Sessions.{SessionState, Registry, is_in_domain}
use logmon_mcp.Sessions.Id.{SessionId, get, Unique, same_id, same_id-eq}
use logmon_mcp.Throttle.{next}
use logmon_mcp.Ring.{clear_locked, clear_through}
use logmon_mcp.Ring.History.{clear_through-IsRing}
use logmon_mcp.Ring
use logmon_mcp.Epoch
use logmon_mcp.PreBuffer
use logmon_mcp.Ring.Invariant.{new-IsRing}
use logmon_mcp.PreBuffer.Index.{new-IsBuffer}
use logmon_mcp.Pipeline.{LogPipeline, assign_seq, clear_logs, new_with_seq_counter}
use logmon_mcp.Pipeline.Process.{Node, settle, process_entry_for_domain, process_all}
use logmon_mcp.Pipeline.Stage.{above_floors}
use logmon_mcp.Pipeline.Visited.{takes_part, any-active_ids, Found, Found-self}
use logmon_mcp.Pipeline.Storage.{IsPipeline, given_seq, some_insists, decision, final-Stage, round}

module _ (engine : TextEngine) (n : Node) (domain : String) (entry : LogEntry)
    (v : IsPipeline n.pipeline) (u : Unique n.sessions)
    (small : given_seq engine n domain entry < u64_max) where
  abbrev outcome : Node
  outcome = process_entry_for_domain engine n domain entry

  abbrev seq : ℕ
  seq = given_seq engine n domain entry

  -- The record is in the ring afterwards exactly when some session of the domain insists on it (its
  -- post-window is open or one of its triggers fires) or the domain's filters keep it, and its seq
  -- is not below the floors of the ring.
  pub process_entry-stored : has_seq seq (outcome.pipeline).store.entries ≡ (
      (some_insists engine n domain entry || (decision engine n domain entry).should_store)
      && above_floors seq (outcome.pipeline).store)
  process_entry-stored = (final-Stage engine n domain entry v u small).fate

  -- The policy that decided is put on record at the record's seq exactly when the filters decided;
  -- where a session insisted on the record, the epoch log is left as it was.
  pub process_entry-epochs : (outcome.pipeline).epochs ≡ (
      if some_insists engine n domain entry
      then (n.pipeline).epochs
      else observe (n.pipeline).epochs seq (decision engine n domain entry).policy)
  unfolding assign_seq
  process_entry-epochs = (final-Stage engine n domain entry v u small).same_epochs

  pub seq_counter-process_entry : (outcome.pipeline).seq_counter ≡ seq
  unfolding assign_seq next
  seq_counter-process_entry =
      (final-Stage engine n domain entry v u small).same_counter ∙ omega (arith, small)

  process_entry-IsLog : IsLog (outcome.pipeline).epochs
  process_entry-IsLog = elim (Bool-cases (some_insists engine n domain entry)) [
    | inl h ↦ rw (process_entry-epochs, h) v.log
    | inr h ↦ rw (process_entry-epochs, h) (observe-IsLog _ seq _ v.log)
  ]

  pub process_entry-IsPipeline : IsPipeline outcome.pipeline
  process_entry-IsPipeline =
      let st = final-Stage engine n domain entry v u small in
      record {
        ring = st.ring;
        buffer = st.buffer;
        log = process_entry-IsLog;
        ahead = λ q l m. st.later q (omega (arith, l, seq_counter-process_entry)) m;
        waiting =
            subst (λ c. Every (λ x. x.seq ≤ c) (outcome.pipeline).pre_buffer.entries)
              (sym seq_counter-process_entry) st.waiting;
      }

  process_entry-cut :
      (q : ℕ)
      → q < (n.pipeline).store.admit_from
      → q < u64_max
      → has_seq q (n.pipeline).store.entries ≡ false
      → has_seq q (outcome.pipeline).store.entries ≡ false
  unfolding assign_seq
  process_entry-cut = (final-Stage engine n domain entry v u small).cut

  admit_from-process_entry : (outcome.pipeline).store.admit_from ≡ (n.pipeline).store.admit_from
  unfolding assign_seq
  admit_from-process_entry = (final-Stage engine n domain entry v u small).same_admit

  sessions-settle :
      (e : LogEntry) (m : Node) (active : Bool)
      → (settle engine domain e m active).sessions ≡ m.sessions
  unfolding settle
  sessions-settle e m active = ground arith

  pub process_entry-Unique : Unique outcome.sessions
  unfolding process_entry_for_domain assign_seq next
  process_entry-Unique =
      subst (λ r. Unique r) (sym (sessions-settle _ _ _))
        ((round engine n domain entry v u small).unique u)

  outside :
      (q : SessionId) (s : SessionState) (m : Registry)
      → get n.sessions q ≡ some s
      → is_in_domain s domain ≡ false
      → Found n.sessions m
      → any (λ (id, s). takes_part domain id s && same_id q id) m ≡ false
  outside q s [] g d f = refl
  outside q s ((i, w) ∷ m) g d f = elim (Bool-cases (same_id q i)) [
    | inl h ↦
        let same : some s ≡ some w = sym g ∙ ap (get n.sessions) (same_id-eq q i h) ∙ f.0 in
        let elsewhere : is_in_domain w domain ≡ false = cc (same, d) in
        ground (arith, elsewhere, outside q s m g d f.1)
    | inr h ↦ ground (arith, outside q s m g d f.1)
  ]

  -- A session that is bound to another domain is exactly as it was: its triggers, their debounce
  -- windows, its post-window and its queue.
  pub process_entry-isolated :
      (q : SessionId) (s : SessionState)
      → get n.sessions q ≡ some s
      → is_in_domain s domain ≡ false
      → get outcome.sessions q ≡ some s
  unfolding process_entry_for_domain assign_seq next
  process_entry-isolated q s g d =
      ap (λ r. get r q) (sessions-settle _ _ _)
      ∙ (round engine n domain entry v u small).others q (
          any-active_ids (λ j. same_id q j) n.sessions domain
          ∙ outside q s n.sessions g d (Found-self n.sessions u))
      ∙ g

-- Every sequence of records keeps the pipeline's invariant, and each record takes the next seq.
pub process_all-IsPipeline :
    (engine : TextEngine) (n : Node) (domain : String) (entries : List LogEntry)
    → IsPipeline n.pipeline
    → Unique n.sessions
    → (n.pipeline).seq_counter + length entries < u64_max
    → IsPipeline (process_all engine n domain entries).pipeline
      × ((process_all engine n domain entries).pipeline.seq_counter
          ≡ (n.pipeline).seq_counter + length entries)
unfolding process_all
process_all-IsPipeline engine n domain [] v u small = (v, omega arith)
process_all-IsPipeline engine n domain (e ∷ es) v u small =
    let fits : (n.pipeline).seq_counter + 1 < u64_max = omega (arith, small) in
    let counted = seq_counter-process_entry engine n domain e v u fits in
    let rest =
      process_all-IsPipeline engine (process_entry_for_domain engine n domain e) domain es
        (process_entry-IsPipeline engine n domain e v u fits)
        (process_entry-Unique engine n domain e v u fits) (omega (arith, counted, small)) in
    (rest.0, rest.1 ∙ omega (arith, counted))

process_all-cut :
    (engine : TextEngine) (n : Node) (domain : String) (entries : List LogEntry) (q : ℕ)
    → IsPipeline n.pipeline
    → Unique n.sessions
    → (n.pipeline).seq_counter + length entries < u64_max
    → q < (n.pipeline).store.admit_from
    → q < u64_max
    → has_seq q (n.pipeline).store.entries ≡ false
    → has_seq q (process_all engine n domain entries).pipeline.store.entries ≡ false
unfolding process_all
process_all-cut engine n domain [] q v u small l m a = a
process_all-cut engine n domain (e ∷ es) q v u small l m a =
    let fits : (n.pipeline).seq_counter + 1 < u64_max = omega (arith, small) in
    process_all-cut engine (process_entry_for_domain engine n domain e) domain es q
      (process_entry-IsPipeline engine n domain e v u fits)
      (process_entry-Unique engine n domain e v u fits)
      (omega (arith, seq_counter-process_entry engine n domain e v u fits, small))
      (omega (arith, admit_from-process_entry engine n domain e v u fits, l)) m
      (process_entry-cut engine n domain e v u fits q l m a)

clear_logs-IsPipeline : (p : LogPipeline) → IsPipeline p → IsPipeline (clear_logs p).0
unfolding clear_logs clear_through clear_locked
clear_logs-IsPipeline p v = record {
  ring = clear_through-IsRing p.store p.seq_counter;
  buffer = v.buffer;
  log = v.log;
  ahead = λ q l m. refl;
  waiting = v.waiting;
}

abbrev pub cleared : Node → Node
cleared n = record n { pipeline = (clear_logs n.pipeline).0 }

-- After `clear_logs` nothing that had arrived comes back, in the ring or not when it was cleared:
-- whatever records come next, and whichever triggers they fire, no seq up to the counter's value at
-- the clear is held.
pub clear_logs-final :
    (engine : TextEngine) (n : Node) (domain : String) (entries : List LogEntry) (q : ℕ)
    → IsPipeline n.pipeline
    → Unique n.sessions
    → (n.pipeline).seq_counter + length entries < u64_max
    → q ≤ (n.pipeline).seq_counter
    → has_seq q (process_all engine (cleared n) domain entries).pipeline.store.entries ≡ false
unfolding clear_logs clear_through clear_locked
clear_logs-final engine n domain entries q v u small l =
    process_all-cut engine (cleared n) domain entries q (clear_logs-IsPipeline n.pipeline v) u small
      (omega (arith, sat_suc-gt (n.pipeline).seq_counter (omega arith))) (omega arith) refl

-- A new domain's pipeline.
pub new-IsPipeline : (capacity counter : ℕ) → IsPipeline (new_with_seq_counter capacity counter)
unfolding new_with_seq_counter Ring.new Epoch.new PreBuffer.new
new-IsPipeline capacity counter = record {
  ring = new-IsRing capacity;
  buffer = new-IsBuffer 0;
  log = record { flips = tt; bounded = omega arith };
  ahead = λ q l m. refl;
  waiting = tt;
}
