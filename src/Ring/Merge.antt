-- ===== src/Ring/Merge.antt =====
-- The merge of `merge_locked`: what it keeps, that it keeps the order, and that taking off the
-- tail first changes nothing.
use logmon_mcp.Common.{
  ℕ, suc, ◌+◌, ◌≡◌, refl, Bool, false, ◌||◌, List, [], ◌∷◌, ◌++◌, ltb, length, take, drop, any, All,
  arith,
}
use logmon_mcp.Entry.{LogEntry}
use logmon_mcp.Ring.{merge_run}
use logmon_mcp.Ring.Write.{partition_point}
use logmon_mcp.Ring.Order.{From, has_seq}

-- The merge holds what its parts hold.
pub any-merge_run :
    (p : LogEntry → Bool) (xs ys : List LogEntry) → any p (merge_run xs ys) ≡ (any p xs || any p ys)
unfolding merge_run
any-merge_run p [] ys = refl
any-merge_run p (x ∷ xs) [] = ground arith
any-merge_run p (x ∷ xs) (y ∷ ys) =
    ground (arith, any-merge_run p xs (y ∷ ys), any-merge_run p (x ∷ xs) ys)

pub length-merge_run : (xs ys : List LogEntry) → length (merge_run xs ys) ≡ length xs + length ys
unfolding merge_run
length-merge_run [] ys = omega arith
length-merge_run (x ∷ xs) [] = omega arith
length-merge_run (x ∷ xs) (y ∷ ys) =
    ground (arith, length-merge_run xs (y ∷ ys), length-merge_run (x ∷ xs) ys)

-- No seq of the one list is in the other.
abbrev pub Apart : List LogEntry → List LogEntry → Type 0
Apart xs ys = All (λ y. has_seq y.seq xs ≡ false) ys

pub Apart-tail : (x : LogEntry) (xs ys : List LogEntry) → Apart (x ∷ xs) ys → Apart xs ys
Apart-tail x xs [] a = tt
Apart-tail x xs (y ∷ ys) a = (ground arith, Apart-tail x xs ys a.1)

pub merge_run-From :
    (n : ℕ) (xs ys : List LogEntry) → From n xs → From n ys → Apart xs ys → From n (merge_run xs ys)
unfolding merge_run
merge_run-From n [] ys f g a = g
merge_run-From n (x ∷ xs) [] f g a = f
merge_run-From n (x ∷ xs) (y ∷ ys) f g a = ground (
  arith,
  merge_run-From (suc x.seq) xs (y ∷ ys) f.1,
  Apart-tail x xs (y ∷ ys) a,
  merge_run-From (suc y.seq) (x ∷ xs) ys,
)

-- The records below the batch's lowest stay where they are.
pub merge_run-split :
    (xs : List LogEntry) (first : LogEntry) (rest : List LogEntry)
    → let split = partition_point (λ e. ltb e.seq first.seq) xs in
      merge_run xs (first ∷ rest) ≡ take split xs ++ merge_run (drop split xs) (first ∷ rest)
unfolding merge_run partition_point
merge_run-split [] first rest = refl
merge_run-split (x ∷ xs) first rest = ground (arith, merge_run-split xs first rest)
