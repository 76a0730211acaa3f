-- ===== src/PreBuffer/Contents.antt =====
-- What holds of every record that came to the buffer holds of what it keeps and of what it gives
-- out.
use logmon_mcp.Common.{
  ℕ, zero, suc, ◌-◌, ◌≡◌, some, List, [], ◌∷◌, map, ◌||◌, ◌==◌, length, take, All, All-append,
  All-keep, All-drop, arith, sym, subst, Bool-cases, Option-cases, inl, inr,
}
use logmon_mcp.Entry.{LogEntry}
use logmon_mcp.PreBuffer.{
  Buffer, append, flush, resize, expire, find_arrival, entries_at, entries_by_trace_id,
}
use logmon_mcp.PreBuffer.Index.{IsBuffer, expire_below-Expired, arrive-Expired}
use logmon_mcp.PreBuffer.Lookup.{forget_all-same}

module _ {κ} (P : LogEntry → Type κ) where
  abbrev pub Every : List (ℕ × LogEntry) → Type κ
  Every es = All (λ (a, e). P e) es

  Every-take : (n : ℕ) (es : List (ℕ × LogEntry)) → Every es → Every (take n es)
  Every-take zero es h = tt
  Every-take (suc n) [] h = tt
  Every-take (suc n) (x ∷ es) h = (h.0, Every-take n es h.1)

  Every-map : (es : List (ℕ × LogEntry)) → Every es → All P (map (λ (a, e). e) es)
  Every-map [] h = tt
  Every-map (x ∷ es) h = (h.0, Every-map es h.1)

  pub append-Every :
      (b : Buffer) (e : LogEntry) → IsBuffer b → P e → Every b.entries → Every (append b e).entries
  unfolding append
  append-Every b e v here h = elim (Bool-cases (b.capacity == 0)) [
    | inl z ↦ rw (z, append) h
    | inr z ↦
        rw (z, append)
          (subst Every (sym (arrive-Expired b e v).entries_eq)
            (All-keep _ _ _ (All-append _ b.entries ((b.arrivals, e) ∷ []) h (here, tt))))
  ]

  pub resize-Every :
      (b : Buffer) (limit : ℕ) → IsBuffer b → Every b.entries → Every (resize b limit).entries
  unfolding resize expire
  resize-Every b limit v h =
      let r =
        expire_below-Expired (b.arrivals - limit) (b.arrivals - b.capacity) b.entries
          (record b { capacity = limit }) v.recent v.traces in
      subst Every (sym r.entries_eq) (All-keep _ _ b.entries h)

  -- What stays, and what is given out.
  pub flush-Every :
      (b : Buffer) (n : ℕ) → Every b.entries → Every (flush b n).0.entries × All P (flush b n).1
  unfolding flush
  flush-Every b n h = elim (Bool-cases (length b.entries == 0 || n == 0)) [
    | inl z ↦ rw (z, flush) (h, tt)
    | inr z ↦
        rw (z, flush)
          (
            subst Every (sym (forget_all-same _ _).1) (Every-take _ b.entries h),
            Every-map _ (All-drop _ _ b.entries h),
          )
  ]

  find_arrival-Every :
      (a : ℕ) (es : List (ℕ × LogEntry)) (e : LogEntry)
      → Every es
      → find_arrival a es ≡ some e
      → P e
  unfolding find_arrival
  find_arrival-Every a [] e h f = cc
  find_arrival-Every a ((x, d) ∷ es) e h f = elim (Bool-cases (x == a)) [
    | inl z ↦ subst P (cc) h.0
    | inr z ↦ find_arrival-Every a es e h.1 (ground arith)
  ]

  entries_at-All :
      (es : List (ℕ × LogEntry)) (arrivals : List ℕ) → Every es → All P (entries_at es arrivals)
  unfolding entries_at
  entries_at-All es [] h = tt
  entries_at-All es (a ∷ as') h = elim (Option-cases (find_arrival a es)) [
    | inl z ↦ rw (z, entries_at) (entries_at-All es as' h)
    | inr (e, z) ↦ rw (z, entries_at) (find_arrival-Every a es e h z, entries_at-All es as' h)
  ]

  pub entries_by_trace_id-All :
      (b : Buffer) (tid : ℕ) → Every b.entries → All P (entries_by_trace_id b tid)
  unfolding entries_by_trace_id
  entries_by_trace_id-All b tid h = elim (Option-cases (b.by_trace tid)) [
    | inl z ↦ rw (z, entries_by_trace_id) tt
    | inr (l, z) ↦ rw (z, entries_by_trace_id) (entries_at-All b.entries l h)
  ]
