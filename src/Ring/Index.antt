-- ===== src/Ring/Index.antt =====
-- The trace index of the ring: each trace's list is the seqs of its held records, ascending.
use logmon_mcp.Common.{
  ℕ, suc, ◌<◌, ◌≡◌, refl, Bool, false, ◌&&◌, ◌||◌, Option, none, some, List, [], ◌∷◌, ◌++◌, ◌==◌,
  any, All, last?, arith, any-append, Option-cases, ◌≢◌, inl, inr,
}
use logmon_mcp.Common.Ascending.{Asc, Asc-mono, has}
use logmon_mcp.Entry.{LogEntry}
use logmon_mcp.Ring.{listed, merge_sorted, merge_ascending, is_traced, trace_seqs}
use logmon_mcp.Ring.Order.{From}

abbrev pub Indexed : (ℕ → Option (List ℕ)) → List LogEntry → Type 0
Indexed index es = (tid : ℕ) → index tid ≡ listed (trace_seqs tid es)

abbrev pub traced_at : ℕ → ℕ → LogEntry → Bool
traced_at tid q e = is_traced tid e && e.seq == q

pub has-trace_seqs :
    (tid q : ℕ) (es : List LogEntry) → has q (trace_seqs tid es) ≡ any (traced_at tid q) es
unfolding trace_seqs
has-trace_seqs tid q [] = refl
has-trace_seqs tid q (e ∷ es) = ground (arith, has-trace_seqs tid q es)

pub trace_seqs-Asc : (tid n : ℕ) (es : List LogEntry) → From n es → Asc n (trace_seqs tid es)
unfolding trace_seqs
trace_seqs-Asc tid n [] f = tt
trace_seqs-Asc tid n (e ∷ es) f =
    ground
      (arith, trace_seqs-Asc tid (suc e.seq) es f.1, Asc-mono n (suc e.seq) (trace_seqs tid es))

pub trace_seqs-append :
    (tid : ℕ) (xs ys : List LogEntry)
    → trace_seqs tid (xs ++ ys) ≡ trace_seqs tid xs ++ trace_seqs tid ys
unfolding trace_seqs
trace_seqs-append tid [] ys = refl
trace_seqs-append tid (x ∷ xs) ys = ground (arith, trace_seqs-append tid xs ys)

has-merge_sorted : (q : ℕ) (xs ys : List ℕ) → has q (merge_sorted xs ys) ≡ (has q xs || has q ys)
unfolding merge_sorted
has-merge_sorted q [] ys = refl
has-merge_sorted q (x ∷ xs) [] = ground arith
has-merge_sorted q (x ∷ xs) (y ∷ ys) =
    ground (arith, has-merge_sorted q xs (y ∷ ys), has-merge_sorted q (x ∷ xs) ys)

abbrev pub ApartSeqs : List ℕ → List ℕ → Type 0
ApartSeqs xs ys = All (λ y. has y xs ≡ false) ys

ApartSeqs-tail : (x : ℕ) (xs ys : List ℕ) → ApartSeqs (x ∷ xs) ys → ApartSeqs xs ys
ApartSeqs-tail x xs [] a = tt
ApartSeqs-tail x xs (y ∷ ys) a = (ground arith, ApartSeqs-tail x xs ys a.1)

merge_sorted-Asc :
    (n : ℕ) (xs ys : List ℕ) → Asc n xs → Asc n ys → ApartSeqs xs ys → Asc n (merge_sorted xs ys)
unfolding merge_sorted
merge_sorted-Asc n [] ys f g a = g
merge_sorted-Asc n (x ∷ xs) [] f g a = f
merge_sorted-Asc n (x ∷ xs) (y ∷ ys) f g a = ground (
  arith,
  merge_sorted-Asc (suc x) xs (y ∷ ys) f.1,
  ApartSeqs-tail x xs (y ∷ ys) a,
  merge_sorted-Asc (suc y) (x ∷ xs) ys,
)

append-Asc :
    (n k l : ℕ) (xs ys : List ℕ)
    → Asc n xs
    → last? xs ≡ some l
    → l < k
    → Asc k ys
    → Asc n (xs ++ ys)
append-Asc n k l [] ys f e h g = cc
append-Asc n k l (x ∷ []) ys f e h g = (f.0, Asc-mono (suc x) k ys (ground arith) g)
append-Asc n k l (x ∷ y ∷ xs) ys f e h g = (f.0, append-Asc (suc x) k l (y ∷ xs) ys f.1 e h g)

last-nil : (xs : List ℕ) → last? xs ≡ none → xs ≡ []
last-nil [] e = refl
last-nil (x ∷ []) e = cc
last-nil (x ∷ y ∷ xs) e = absurd (cons-ne-nil (last-nil (y ∷ xs) e))
  where
    cons-ne-nil : y ∷ xs ≢ []
    cons-ne-nil h = cc

-- Either path of `merge_ascending` gives an ascending list
pub merge_ascending-Asc :
    (n : ℕ) (xs ys : List ℕ) → Asc n xs → Asc n ys → ApartSeqs xs ys → Asc n (merge_ascending xs ys)
unfolding merge_ascending
merge_ascending-Asc n xs [] f g a = f
merge_ascending-Asc n xs (y ∷ ys) f g a = elim (Option-cases (last? xs)) [
  | inl e ↦ rw (e, merge_ascending) (rw (last-nil xs e) g)
  | inr (l, e) ↦
      ground (arith, append-Asc n y l xs (y ∷ ys) f e, merge_sorted-Asc n xs (y ∷ ys) f g a)
]

-- with the members of both.
pub has-merge_ascending :
    (q : ℕ) (xs ys : List ℕ) → has q (merge_ascending xs ys) ≡ (has q xs || has q ys)
unfolding merge_ascending
has-merge_ascending q xs [] = ground arith
has-merge_ascending q xs (y ∷ ys) =
    ground (arith, any-append (λ x. x == q) xs (y ∷ ys), has-merge_sorted q xs (y ∷ ys))
