-- ===== src/Ring/IndexSteps.antt =====
-- What the writers' steps do to the trace index.
use logmon_mcp.Common.{
  ℕ, ◌≡◌, ◌∙◌, refl, sym, ap, true, false, Option, some, List, [], ◌∷◌, ◌++◌, any, arith,
  Option-cases, inl, inr, append_assoc, append-nil,
}
use logmon_mcp.Common.Ascending.{Asc-ext, has}
use logmon_mcp.Entry.{LogEntry}
use logmon_mcp.Ring.{
  StoreInner, listed, remove_seq, merge_ascending, is_traced, trace_seqs, or_default, merge_index,
  merge_run, unindex, forget_trace, forget_late,
}
use logmon_mcp.Ring.Write.{push_index, index_all}
use logmon_mcp.Ring.Order.{From, has_seq}
use logmon_mcp.Ring.Merge.{Apart, merge_run-From, any-merge_run}
use logmon_mcp.Ring.Index.{
  Indexed, traced_at, has-trace_seqs, trace_seqs-Asc, trace_seqs-append, ApartSeqs,
  merge_ascending-Asc, has-merge_ascending,
}

traced_at-false :
    (tid q : ℕ) (es : List LogEntry) → has_seq q es ≡ false → any (traced_at tid q) es ≡ false
traced_at-false tid q [] h = refl
traced_at-false tid q (e ∷ es) h = ground (arith, traced_at-false tid q es)

trace_seqs-Apart :
    (tid : ℕ) (xs ys : List LogEntry)
    → Apart xs ys
    → ApartSeqs (trace_seqs tid xs) (trace_seqs tid ys)
unfolding trace_seqs
trace_seqs-Apart tid xs [] a = tt
trace_seqs-Apart tid xs (y ∷ ys) a = ground (
  arith,
  trace_seqs-Apart tid xs ys a.1,
  has-trace_seqs tid y.seq xs,
  traced_at-false tid y.seq xs a.0,
)

-- The merged list is the list of the merged run.
trace_seqs-merge_run :
    (tid n : ℕ) (xs ys : List LogEntry)
    → From n xs
    → From n ys
    → Apart xs ys
    → trace_seqs tid (merge_run xs ys) ≡ merge_ascending (trace_seqs tid xs) (trace_seqs tid ys)
trace_seqs-merge_run tid n xs ys f g a =
    Asc-ext n _ _ (trace_seqs-Asc tid n (merge_run xs ys) (merge_run-From n xs ys f g a))
      (merge_ascending-Asc n _ _ (trace_seqs-Asc tid n xs f) (trace_seqs-Asc tid n ys g)
        (trace_seqs-Apart tid xs ys a))
      λ q. cc (
        has-trace_seqs tid q (merge_run xs ys),
        any-merge_run (traced_at tid q) xs ys,
        has-trace_seqs tid q xs,
        has-trace_seqs tid q ys,
        has-merge_ascending q (trace_seqs tid xs) (trace_seqs tid ys),
      )

or_default-listed : (l : List ℕ) → or_default (listed l) ≡ l
or_default-listed [] = refl
or_default-listed (x ∷ l) = refl

listed-some : (q : ℕ) (l : List ℕ) → has q l ≡ true → listed l ≡ some l
listed-some q [] h = cc
listed-some q (x ∷ l) h = refl

listed_merge :
    (old add : List ℕ) (o : Option (List ℕ))
    → o ≡ listed old
    → (elim add as (λ _. Option (List ℕ)) [
      | [] ↦ o
      | s ∷ ss ↦ some (merge_ascending (or_default o) (s ∷ ss))
    ])
      ≡ listed (merge_ascending old add)
unfolding merge_ascending
listed_merge old [] o e = e
listed_merge old (s ∷ ss) o e = ground (
  arith,
  or_default-listed old,
  listed-some s (merge_ascending old (s ∷ ss)),
  has-merge_ascending s old (s ∷ ss),
)

pub merge_index-Indexed :
    (n : ℕ) (index : ℕ → Option (List ℕ)) (es batch : List LogEntry)
    → From n es
    → From n batch
    → Apart es batch
    → Indexed index es
    → Indexed (merge_index index batch) (merge_run es batch)
unfolding merge_index
merge_index-Indexed n index es batch f g a i tid =
    listed_merge (trace_seqs tid es) (trace_seqs tid batch) (index tid) (i tid)
    ∙ ap listed (sym (trace_seqs-merge_run tid n es batch f g a))

listed-push : (l : List ℕ) (s : ℕ) → listed (l ++ s ∷ []) ≡ some (l ++ s ∷ [])
listed-push [] s = refl
listed-push (x ∷ l) s = refl

pub push_index-Indexed :
    (index : ℕ → Option (List ℕ)) (es : List LogEntry) (e : LogEntry)
    → Indexed index es
    → Indexed (push_index index e.trace_id e.seq) (es ++ e ∷ [])
unfolding push_index trace_seqs is_traced
push_index-Indexed index es e i tid = elim (Option-cases e.trace_id) [
  | inl h ↦ ground (arith, i tid, trace_seqs-append tid es (e ∷ []), append-nil (trace_seqs tid es))
  | inr (t, h) ↦ ground (
    arith,
    i tid,
    trace_seqs-append tid es (e ∷ []),
    append-nil (trace_seqs tid es),
    or_default-listed (trace_seqs tid es),
    listed-push (trace_seqs tid es) e.seq,
  )
]

pub index_all-Indexed :
    (index : ℕ → Option (List ℕ)) (es fs : List LogEntry)
    → Indexed index es
    → Indexed (index_all index fs) (es ++ fs)
unfolding index_all
index_all-Indexed index es [] i = rw (append-nil es) i
index_all-Indexed index es (e ∷ fs) i = rw (append_assoc es (e ∷ []) fs) at (
    index_all-Indexed (push_index index e.trace_id e.seq) (es ++ e ∷ []) fs
      (push_index-Indexed index es e i))

-- The lowest record leaves.
pub unindex-Indexed :
    (inner : StoreInner) (e : LogEntry) (es : List LogEntry)
    → Indexed inner.trace_index (e ∷ es)
    → Indexed (unindex inner e.trace_id e.seq).trace_index es
unfolding unindex forget_trace forget_late trace_seqs is_traced remove_seq
unindex-Indexed inner e es i tid = elim (Option-cases e.trace_id) [
  | inl h ↦ ground (arith, i tid)
  | inr (t, h) ↦ ground (arith, i tid, i t)
]
