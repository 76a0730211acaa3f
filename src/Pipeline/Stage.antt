-- ===== src/Pipeline/Stage.antt =====
-- The pipeline while a record is processed: its invariants, and whether the ring holds the record.
use logmon_mcp.Common.{
  ℕ, ◌≤◌, ◌<◌, ◌≡◌, ◌∙◌, refl, ap, Bool, true, false, ◌&&◌, Option, none, some, All, All-append,
  List, [], ◌∷◌, map, leb, ◌==◌, if◌then◌else◌, arith, Bool-cases, inl, inr, u64_max,
}
use logmon_mcp.Entry.{LogEntry, LogSource}
use logmon_mcp.Ring.{Store, refuse_below, holds}
use logmon_mcp.Ring.Order.{has_seq, holds-has_seq}
use logmon_mcp.Ring.Merging.{IsRing}
use logmon_mcp.Ring.Invariant.{insert_sorted-IsRing}
use logmon_mcp.Ring.Append.{append-IsRing}
use logmon_mcp.Ring.Contents.{insert_sorted-Holds}
use logmon_mcp.Ring.AppendContents.{append-Holds}
use logmon_mcp.Ring.Floor.{admit_from-append, admit_from-insert_sorted}
use logmon_mcp.PreBuffer.{Buffer}
use logmon_mcp.PreBuffer.Index.{IsBuffer, append-IsBuffer, resize-IsBuffer}
use logmon_mcp.PreBuffer.Lookup.{flush-IsBuffer}
use logmon_mcp.PreBuffer.Contents.{
  Every, append-Every, resize-Every, flush-Every, entries_by_trace_id-All,
}
use logmon_mcp.Pipeline.{
  LogPipeline, append_to_store, insert_into_store, contains_seq, pre_buffer_append,
  resync_pre_buffer,
}
use logmon_mcp.Pipeline.Process.{store_fired, from_source, trace_entries}

-- Whether a seq is at or above both floors.
abbrev pub above_floors : ℕ → Store → Bool
above_floors k s = leb s.admit_from k && leb s.lost_below k

-- A record of another seq.
abbrev pub Other : ℕ → LogEntry → Type 0
Other q x = (x.seq == q) ≡ false

-- A seq that neither the ring nor the pre-trigger buffer has.
abbrev pub Absent : ℕ → LogPipeline → Type 0
Absent q p = (has_seq q p.store.entries ≡ false) × Every (Other q) p.pre_buffer.entries

-- Between the pipeline `p0` that the record of seq `k` came to, and `p`; `kept` says whether the
-- record was to be stored so far.
pub record Stage (k : ℕ) (p0 : LogPipeline) (kept : Bool) (p : LogPipeline) : Type 0 where
  pub ring : IsRing p.store
  pub buffer : IsBuffer p.pre_buffer
  pub same_epochs : p.epochs ≡ p0.epochs
  pub same_counter : p.seq_counter ≡ p0.seq_counter
  pub same_admit : p.store.admit_from ≡ p0.store.admit_from
  pub floor_ge : p0.store.lost_below ≤ p.store.lost_below
  pub later : (q : ℕ) → k < q → q < u64_max → has_seq q p.store.entries ≡ false
  pub waiting : Every (λ x. x.seq ≤ k) p.pre_buffer.entries
  pub cut :
      (q : ℕ)
      → q < p0.store.admit_from
      → q < u64_max
      → has_seq q p0.store.entries ≡ false
      → has_seq q p.store.entries ≡ false
  pub fresh : (q : ℕ) → q < u64_max → (k == q) ≡ false → Absent q p0 → Absent q p
  pub fate : has_seq k p.store.entries ≡ (kept && above_floors k p.store)

none_later : (k q : ℕ) (es : List LogEntry) → k < q → All (λ x. x.seq ≤ k) es → has_seq q es ≡ false
none_later k q [] l h = refl
none_later k q (e ∷ es) l h = ground (arith, h.0, none_later k q es l h.1)

has_seq-others : (q : ℕ) (es : List LogEntry) → All (Other q) es → has_seq q es ≡ false
has_seq-others q [] h = refl
has_seq-others q (e ∷ es) h = ground (arith, h.0, has_seq-others q es h.1)

resourced :
    (P : ℕ → Type 0) (es : List LogEntry)
    → All (λ x. P x.seq) es
    → All (λ x. P x.seq) (map (from_source LogSource.pre_trigger) es)
resourced P [] h = tt
resourced P (e ∷ es) h = (h.0, resourced P es h.1)

trace_entries-All :
    (P : LogEntry → Type 0) (p : LogPipeline) (trace_id : Option ℕ)
    → Every P p.pre_buffer.entries
    → All P (trace_entries p trace_id)
unfolding trace_entries
trace_entries-All P p none h = tt
trace_entries-All P p (some tid) h = entries_by_trace_id-All P p.pre_buffer tid h

module _ (k : ℕ) (p0 : LogPipeline) (small : k < u64_max) where
  pub append-Stage :
      (kept : Bool) (p : LogPipeline) (e : LogEntry)
      → e.seq ≡ k
      → Stage k p0 kept p
      → Stage k p0 true (append_to_store p e)
  unfolding append_to_store refuse_below
  append-Stage kept p e same st =
      let h = append-Holds k p.store e st.ring small in
      record {
        ring = append-IsRing p.store e st.ring;
        buffer = st.buffer;
        same_epochs = st.same_epochs;
        same_counter = st.same_counter;
        same_admit = admit_from-append p.store e ∙ st.same_admit;
        floor_ge = omega (arith, h.floor_ge, st.floor_ge);
        later = λ q l m.
            ground (arith, (append-Holds q p.store e st.ring m).contents, st.later q l m, same);
        waiting = st.waiting;
        cut = λ q l m a.
            ground
              (arith, (append-Holds q p.store e st.ring m).contents, st.cut q l m a, st.same_admit);
        fresh = λ q m d a.
            let old = st.fresh q m d a in
            (ground (arith, (append-Holds q p.store e st.ring m).contents, old.0, d, same), old.1);
        fate = ground (arith, h.contents, h.floor_ge, st.fate, admit_from-append p.store e, same);
      }

  insert-Stage :
      (p : LogPipeline) (batch : List LogEntry)
      → All (λ x. x.seq ≤ k) batch
      → ((q : ℕ) → q < u64_max → (k == q) ≡ false → Absent q p0 → All (Other q) batch)
      → Stage k p0 true p
      → Stage k p0 true (insert_into_store p batch)
  unfolding insert_into_store refuse_below
  insert-Stage p batch old others st =
      let h = insert_sorted-Holds k p.store batch st.ring small in
      record {
        ring = insert_sorted-IsRing p.store batch st.ring;
        buffer = st.buffer;
        same_epochs = st.same_epochs;
        same_counter = st.same_counter;
        same_admit = admit_from-insert_sorted p.store batch ∙ st.same_admit;
        floor_ge = omega (arith, h.floor_ge, st.floor_ge);
        later = λ q l m. ground (
          arith,
          (insert_sorted-Holds q p.store batch st.ring m).contents,
          st.later q l m,
          none_later k q batch l old,
        );
        waiting = st.waiting;
        cut = λ q l m a. ground (
          arith,
          (insert_sorted-Holds q p.store batch st.ring m).contents,
          st.cut q l m a,
          st.same_admit,
        );
        fresh = λ q m d a.
            let known = st.fresh q m d a in
            (
              ground (
                arith,
                (insert_sorted-Holds q p.store batch st.ring m).contents,
                known.0,
                has_seq-others q batch (others q m d a),
              ),
              known.1,
            );
        fate =
            ground (arith, h.contents, h.floor_ge, st.fate, admit_from-insert_sorted p.store batch);
      }

  -- A change of the pre-trigger buffer that keeps it.
  rebuffer-Stage :
      (kept : Bool) (p : LogPipeline) (b : Buffer)
      → IsBuffer b
      → Every (λ x. x.seq ≤ k) b.entries
      → ((q : ℕ)
          → (k == q) ≡ false
          → Every (Other q) p.pre_buffer.entries
          → Every (Other q) b.entries)
      → Stage k p0 kept p
      → Stage k p0 kept (record p { pre_buffer = b })
  rebuffer-Stage kept p b v w others st = record {
    ring = st.ring;
    buffer = v;
    same_epochs = st.same_epochs;
    same_counter = st.same_counter;
    same_admit = st.same_admit;
    floor_ge = st.floor_ge;
    later = st.later;
    waiting = w;
    cut = st.cut;
    fresh = λ q m d a. let old = st.fresh q m d a in (old.0, others q d old.1);
    fate = st.fate;
  }

  pub buffered-Stage :
      (kept : Bool) (p : LogPipeline) (e : LogEntry)
      → e.seq ≡ k
      → Stage k p0 kept p
      → Stage k p0 kept (pre_buffer_append p e)
  unfolding pre_buffer_append
  buffered-Stage kept p e same st =
      rebuffer-Stage kept p _ (append-IsBuffer p.pre_buffer e st.buffer)
        (append-Every (λ x. x.seq ≤ k) p.pre_buffer e st.buffer (omega arith) st.waiting)
        (λ q d h. append-Every (Other q) p.pre_buffer e st.buffer (ground (arith, d, same)) h) st

  pub resync-Stage :
      (kept : Bool) (p : LogPipeline) (size : ℕ)
      → Stage k p0 kept p
      → Stage k p0 kept (resync_pre_buffer p size)
  unfolding resync_pre_buffer
  resync-Stage kept p size st =
      rebuffer-Stage kept p _ (resize-IsBuffer p.pre_buffer size st.buffer)
        (resize-Every (λ x. x.seq ≤ k) p.pre_buffer size st.buffer st.waiting)
        (λ q d h. resize-Every (Other q) p.pre_buffer size st.buffer h) st

  -- `contains_seq` answers for the record.
  pub contains_seq-Stage :
      (kept : Bool) (p : LogPipeline) (seq : ℕ)
      → seq ≡ k
      → Stage k p0 kept p
      → contains_seq p seq ≡ (kept && above_floors k p.store)
  unfolding contains_seq
  contains_seq-Stage kept p seq same st =
      ap (holds p.store.entries) same
      ∙ holds-has_seq p.store.lost_below k p.store.entries st.ring.describes.0
      ∙ st.fate

  -- A record that the ring holds was to be kept.
  pub contained-Stage :
      (kept : Bool) (p : LogPipeline) (seq : ℕ)
      → seq ≡ k
      → contains_seq p seq ≡ true
      → Stage k p0 kept p
      → Stage k p0 true p
  contained-Stage true p seq same h st = st
  contained-Stage false p seq same h st = absurd (cc (contains_seq-Stage false p seq same st, h))

  stored_once :
      (kept : Bool) (p : LogPipeline) (e e' : LogEntry)
      → e.seq ≡ k
      → e'.seq ≡ k
      → Stage k p0 kept p
      → Stage k p0 true (if contains_seq p e.seq then p else append_to_store p e')
  stored_once kept p e e' same same' st = elim (Bool-cases (contains_seq p e.seq)) [
    | inl h ↦ rw h (contained-Stage kept p e.seq same h st)
    | inr h ↦ rw h (append-Stage kept p e' same' st)
  ]

  pub store_fired-Stage :
      (kept : Bool) (p : LogPipeline) (e : LogEntry) (pre : ℕ)
      → e.seq ≡ k
      → Stage k p0 kept p
      → Stage k p0 true (store_fired p e pre)
  unfolding store_fired
  store_fired-Stage kept p e pre same st =
      let once = stored_once kept p e (from_source LogSource.pre_trigger e) same same st in
      let given = flush-Every (λ x. x.seq ≤ k) _ pre once.waiting in
      insert-Stage _ _
        (resourced (λ x. x ≤ k) _
          (All-append _ _ _ given.1 (trace_entries-All (λ x. x.seq ≤ k) _ e.trace_id given.0)))
        (λ q m d a.
          let others = flush-Every (Other q) _ pre (once.fresh q m d a).1 in
          resourced (λ x. (x == q) ≡ false) _
            (All-append _ _ _ others.1 (trace_entries-All (Other q) _ e.trace_id others.0)))
        (rebuffer-Stage true _ _ (flush-IsBuffer _ pre once.buffer) given.0
          (λ q d h. (flush-Every (Other q) _ pre h).0) once)
