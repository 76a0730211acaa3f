-- ===== src/Spans/Apart.antt =====
-- The log ring and the span ring on one seq counter: no seq stands for a log and for a span.
use logmon_mcp.Common.{
  ℕ, ◌+◌, ◌<◌, ◌≡◌, ◌∙◌, refl, sym, ap, subst, List, [], ◌∷◌, All, All-imp, All-append, String, leb,
  ◌==◌, length, arith, Bool-cases, inl, inr, u64_max,
}
use logmon_mcp.Entry.{LogEntry, SpanEntry}
use logmon_mcp.Filter.Text.{TextEngine}
use logmon_mcp.Sessions.Id.{Unique}
use logmon_mcp.Ring.Order.{has_seq}
use logmon_mcp.Throttle.{next}
use logmon_mcp.Pipeline.{assign_seq, new_with_seq_counter}
use logmon_mcp.Pipeline.Process.{process_entry_for_domain}
use logmon_mcp.Pipeline.Stage.{Absent, Other}
use logmon_mcp.Pipeline.Storage.{IsPipeline, final-Stage}
use logmon_mcp.Pipeline.Outcome.{
  seq_counter-process_entry, process_entry-IsPipeline, process_entry-Unique, new-IsPipeline,
}
use logmon_mcp.Ring.Merging.{IsRing}
use logmon_mcp.Epoch.Log.{IsLog}
use logmon_mcp.Sessions.{Registry}
use logmon_mcp.Spans
use logmon_mcp.Spans.{SpanStore, insert, store_numbered, push, evict}
use logmon_mcp.Spans.Invariant.{IsSpanStore}
use logmon_mcp.Spans.History.{insert-IsSpanStore, counted-IsSpanStore, new-IsSpanStore}
use logmon_mcp.Spans.Process.{SpanNode, store_span, process_span_for_domain}
use logmon_mcp.Spans.Processed.{on_counter, process_span-SameLogs, process_span-Unique}

-- What a domain's receivers hand over.
pub data Arrival : Type 0 where
  a_log : LogEntry → Arrival
  a_span : SpanEntry → Arrival

-- A domain's two rings, each with its invariant on the shared counter. The seq of a held span is
-- neither in the log ring nor in the pre-trigger buffer, from which it could get there.
pub record IsDomain (n : SpanNode) : Type 0 where
  pub pipeline : IsPipeline (n.node).pipeline
  pub sessions : Unique (n.node).sessions
  pub spans : IsSpanStore (on_counter n)
  pub apart : All (λ s. Absent s.seq (n.node).pipeline) (n.spans).buffer

evict-All : (P : SpanEntry → Type 0) (st : SpanStore) → All P st.buffer → All P (evict st).buffer
unfolding evict
evict-All P st h = split st.buffer refl
  where
    split : (es : List SpanEntry) → st.buffer ≡ es → All P (evict st).buffer
    split [] e = rw (e, evict) h
    split (s ∷ rest) e = rw (e, evict) (rw e at h).1

insert-All :
    (P : SpanEntry → Type 0) (st : SpanStore) (span : SpanEntry)
    → All P st.buffer
    → P (record span { seq = (next st.seq_counter).1 })
    → All P (insert st span).0.buffer
unfolding insert store_numbered push
insert-All P st span h new = elim (Bool-cases (st.capacity == 0)) [
  | inl z ↦ rw (z, store_numbered) h
  | inr z ↦ elim (Bool-cases (leb st.capacity (length st.buffer))) [
    | inl f ↦
        rw (z, store_numbered)
          (rw (f, store_numbered) (All-append P _ (_ ∷ []) (evict-All P _ h) (new, tt)))
    | inr f ↦
        rw (z, store_numbered)
          (rw (f, store_numbered) (All-append P st.buffer (_ ∷ []) h (new, tt)))
  ]
]

All-both :
    {P Q R : SpanEntry → Type 0} (es : List SpanEntry)
    → All P es
    → All Q es
    → ((s : SpanEntry) → P s → Q s → R s)
    → All R es
All-both [] p q f = tt
All-both (s ∷ es) p q f = (f s p.0 q.0, All-both es p.1 q.1 f)

next_seq :
    (st : SpanStore) → st.seq_counter + 1 < u64_max → (next st.seq_counter).1 ≡ st.seq_counter + 1
unfolding next
next_seq st small = omega (arith, small)

insert-counter :
    (st : SpanStore) (span : SpanEntry)
    → st.seq_counter + 1 < u64_max
    → (insert st span).0.seq_counter ≡ st.seq_counter + 1
unfolding insert next store_numbered push evict
insert-counter st span small = ground (arith, small)

module _ (display : ℕ → String) (engine : TextEngine) (domain : String) where
  unfoldable pub arrive : SpanNode → Arrival → SpanNode
  arrive n (a_log e) = record n { node = process_entry_for_domain engine n.node domain e }
  arrive n (a_span s) = process_span_for_domain display engine n domain s

  unfoldable pub arrive_all : SpanNode → List Arrival → SpanNode
  arrive_all n [] = n
  arrive_all n (a ∷ arrivals) = arrive_all (arrive n a) arrivals

  module _ (n : SpanNode) (v : IsDomain n)
      (small : (n.node).pipeline.seq_counter + 1 < u64_max) where
    -- A record takes a seq that no span has.
    log-IsDomain : (e : LogEntry) → IsDomain (arrive n (a_log e))
    unfolding arrive assign_seq
    log-IsDomain e =
        let p = v.pipeline in
        let u = v.sessions in
        let counted = seq_counter-process_entry engine n.node domain e p u small in
        let stage = final-Stage engine n.node domain e p u small in
        record {
          pipeline = process_entry-IsPipeline engine n.node domain e p u small;
          sessions = process_entry-Unique engine n.node domain e p u small;
          spans = counted-IsSpanStore (on_counter n) _ (omega (arith, counted)) v.spans;
          apart =
              All-both (n.spans).buffer (v.spans).counted v.apart
                (λ s l a. stage.fresh s.seq (omega (arith, l, small)) (ground (arith, l)) a);
        }

    absent_next : (q : ℕ) → q ≡ (n.node).pipeline.seq_counter + 1 → Absent q (n.node).pipeline
    absent_next q h = (
      (v.pipeline).ahead q (omega (arith, h)) (omega (arith, h, small)),
      All-imp (λ x l. ground (arith, h, l)) (n.node).pipeline.pre_buffer.entries
          (v.pipeline).waiting,
    )

    spans_counter :
        (s : SpanEntry)
        → (insert (on_counter n) s).0.seq_counter ≡ (n.node).pipeline.seq_counter + 1
    spans_counter s = insert-counter (on_counter n) s small

    span-IsPipeline : (s : SpanEntry) → IsPipeline (arrive n (a_span s)).node.pipeline
    unfolding arrive
    span-IsPipeline s =
        let p = v.pipeline in
        let w = process_span-SameLogs display engine n domain s in
        let counter = w.same_counter ∙ spans_counter s in
        record {
          ring = subst IsRing (sym w.same_store) p.ring;
          buffer = w.buffer p.buffer;
          log = subst IsLog (sym w.same_epochs) p.log;
          ahead = λ q l m.
              ap (λ st. has_seq q st.entries) w.same_store
              ∙ p.ahead q (omega (arith, l, counter)) m;
          waiting = w.every _ p.buffer (All-imp (λ x l. omega (arith, l, counter)) _ p.waiting);
        }

    still_absent :
        (s : SpanEntry) (q : ℕ)
        → Absent q (n.node).pipeline
        → Absent q (arrive n (a_span s)).node.pipeline
    unfolding arrive
    still_absent s q a =
        let w = process_span-SameLogs display engine n domain s in
        (
          ap (λ st. has_seq q st.entries) w.same_store ∙ a.0,
          w.every (Other q) (v.pipeline).buffer a.1,
        )

    -- A span takes a seq that is nowhere in the pipeline.
    span-IsDomain : (s : SpanEntry) → IsDomain (arrive n (a_span s))
    unfolding arrive process_span_for_domain store_span
    span-IsDomain s =
        let w = process_span-SameLogs display engine n domain s in
        record {
          pipeline = span-IsPipeline s;
          sessions = process_span-Unique display engine n domain s v.sessions;
          spans =
              subst (λ c. IsSpanStore (record ((insert (on_counter n) s).0) { seq_counter = c }))
                (sym w.same_counter) (insert-IsSpanStore (on_counter n) s small v.spans);
          apart =
              insert-All (λ x. Absent x.seq (arrive n (a_span s)).node.pipeline) (on_counter n) s
                (All-imp (λ x a. still_absent s x.seq a) (n.spans).buffer v.apart)
                (still_absent s _ (absent_next _ (next_seq (on_counter n) small)));
        }

    arrive-IsDomain :
        (a : Arrival)
        → IsDomain (arrive n a)
          × ((arrive n a).node.pipeline.seq_counter ≡ (n.node).pipeline.seq_counter + 1)
    unfolding arrive
    arrive-IsDomain (a_log e) = (
      log-IsDomain e,
      seq_counter-process_entry engine n.node domain e v.pipeline v.sessions small,
    )
    arrive-IsDomain (a_span s) = (
      span-IsDomain s,
      (process_span-SameLogs display engine n domain s).same_counter ∙ spans_counter s,
    )

-- Logs and spans of a domain, in any order, each take the next seq of the one counter and keep both
-- rings' invariants, and no seq stands for a log and for a span: the seq of a held span is neither
-- in the log ring nor in the pre-trigger buffer.
pub arrive_all-IsDomain :
    (display : ℕ → String) (engine : TextEngine) (domain : String) (n : SpanNode)
    (arrivals : List Arrival)
    → IsDomain n
    → (n.node).pipeline.seq_counter + length arrivals < u64_max
    → IsDomain (arrive_all display engine domain n arrivals)
      × ((arrive_all display engine domain n arrivals).node.pipeline.seq_counter
          ≡ (n.node).pipeline.seq_counter + length arrivals)
unfolding arrive_all
arrive_all-IsDomain display engine domain n [] v small = (v, omega arith)
arrive_all-IsDomain display engine domain n (a ∷ arrivals) v small =
    let (kept, counted) = arrive-IsDomain display engine domain n v (omega (arith, small)) a in
    let rest =
      arrive_all-IsDomain display engine domain (arrive display engine domain n a) arrivals kept
        (omega (arith, counted, small)) in
    (rest.0, rest.1 ∙ omega (arith, counted))

-- A domain before its first arrival.
pub new-IsDomain :
    (capacity span_capacity counter : ℕ) (r : Registry)
    → Unique r
    → IsDomain (record {
      node = record { pipeline = new_with_seq_counter capacity counter; sessions = r };
      spans = Spans.new span_capacity counter;
    })
unfolding new_with_seq_counter Spans.new
new-IsDomain capacity span_capacity counter r u = record {
  pipeline = new-IsPipeline capacity counter;
  sessions = u;
  spans = new-IsSpanStore span_capacity counter;
  apart = tt;
}
