-- ===== src/Ring/Lookups.antt =====
-- The lookups by trace: the index gives what a scan of the ring would.
use logmon_mcp.Common.{
  ℕ, suc, ◌<◌, ◌≡◌, ◌∙◌, refl, none, some, List, [], ◌∷◌, ◌++◌, length, keep, arith, append_assoc,
}
use logmon_mcp.Entry.{LogEntry}
use logmon_mcp.Ring.{Store, position, listed, is_traced, trace_seqs}
use logmon_mcp.Ring.Order.{From}
use logmon_mcp.Ring.Merging.{IsRing}
use logmon_mcp.Ring.Read.{entry_at, entry_of, entries_of, logs_by_trace_id, count_by_trace_id}

pub entry_of-append :
    (lo : ℕ) (e : LogEntry) (xs ys : List LogEntry)
    → From lo (xs ++ e ∷ ys)
    → entry_of (xs ++ e ∷ ys) e.seq ≡ some e
unfolding entry_of position entry_at
entry_of-append lo e [] ys f = ground arith
entry_of-append lo e (x ∷ xs) ys f =
    ground (arith, entry_of-append (suc x.seq) e xs ys f.1, after x xs f.1)
  where
    after : (x : LogEntry) (xs : List LogEntry) → From (suc x.seq) (xs ++ e ∷ ys) → x.seq < e.seq
    after x [] g = omega (arith, g.0)
    after x (y ∷ xs) g = omega (arith, g.0, after y xs g.1)

lookup_all :
    (lo tid : ℕ) (xs ys : List LogEntry)
    → From lo (xs ++ ys)
    → entries_of (xs ++ ys) (trace_seqs tid ys) ≡ keep (λ e. is_traced tid e) ys
unfolding entries_of trace_seqs
lookup_all lo tid xs [] f = refl
lookup_all lo tid xs (e ∷ ys) f =
    let whole = append_assoc xs (e ∷ []) ys in
    ground (
      arith,
      entry_of-append lo e xs ys f,
      rw whole at (lookup_all lo tid (xs ++ e ∷ []) ys (rw whole f)),
    )

length-trace_seqs :
    (tid : ℕ) (es : List LogEntry)
    → length (trace_seqs tid es) ≡ length (keep (λ e. is_traced tid e) es)
unfolding trace_seqs
length-trace_seqs tid [] = refl
length-trace_seqs tid (e ∷ es) = ground (arith, length-trace_seqs tid es)

-- On a ring, a trace's lookup gives exactly the held records of that trace in seq order, and its
-- count is their number.
pub logs_by_trace_id-keep :
    (s : Store) (tid : ℕ)
    → IsRing s
    → (logs_by_trace_id s tid ≡ keep (λ e. is_traced tid e) s.entries)
      × (count_by_trace_id s tid ≡ length (keep (λ e. is_traced tid e) s.entries))
unfolding logs_by_trace_id count_by_trace_id entries_of
logs_by_trace_id-keep s tid v = (
  rw (v.describes.1 tid, logs_by_trace_id)
      (unlist (trace_seqs tid s.entries) ∙ lookup_all s.lost_below tid [] s.entries v.describes.0),
  rw (v.describes.1 tid, count_by_trace_id)
      (counted (trace_seqs tid s.entries) ∙ length-trace_seqs tid s.entries),
)
  where
    unlist :
        (l : List ℕ)
        → (elim (listed l) as (λ _. List LogEntry) [
          | none ↦ []
          | some seqs ↦ entries_of s.entries seqs
        ])
          ≡ entries_of s.entries l
    unlist [] = refl
    unlist (x ∷ l) = refl

    counted :
        (l : List ℕ)
        → (elim (listed l) as (λ _. ℕ) [ none ↦ 0 | some seqs ↦ length seqs ]) ≡ length l
    counted [] = refl
    counted (x ∷ l) = refl
