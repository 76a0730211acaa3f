-- ===== src/Common/Ascending.antt =====
-- Strictly ascending lists of numbers: `Vec<u64>` lists of seqs.
use Prim.Native.Nat.{ℕ, suc, ◌≤◌, ◌<◌}
use mathlib.Core.Path.{◌≡◌, refl, ap₂, subst, sym}
use mathlib.Core.Bool.{Bool, false}
use mathlib.Core.List.{List, [], ◌∷◌}
use native.Mathlib.Omega.{arith}
use logmon_mcp.Common.Tests.{◌==◌}
use logmon_mcp.Common.Lists.{any}

-- Strictly ascending, from `n` up.
abbrev pub Asc : ℕ → List ℕ → Type 0
Asc n [] = Unit {0}
Asc n (x ∷ xs) = (n ≤ x) × Asc (suc x) xs

abbrev pub has : ℕ → List ℕ → Bool
has s xs = any (λ x. x == s) xs

pub Asc-mono : (m n : ℕ) (xs : List ℕ) → m ≤ n → Asc n xs → Asc m xs
Asc-mono m n [] h a = tt
Asc-mono m n (x ∷ xs) h a = (omega arith, a.1)

pub has_below : (n s : ℕ) (xs : List ℕ) → Asc n xs → s < n → has s xs ≡ false
has_below n s [] a h = refl
has_below n s (x ∷ xs) a h = ground (arith, has_below (suc x) s xs a.1)

Asc-head-eq :
    (n x y : ℕ) (xs ys : List ℕ)
    → Asc n (x ∷ xs)
    → Asc n (y ∷ ys)
    → has x (x ∷ xs) ≡ has x (y ∷ ys)
    → has y (x ∷ xs) ≡ has y (y ∷ ys)
    → x ≡ y
Asc-head-eq n x y xs ys a b e f =
    ground (arith, has_below (suc y) x ys b.1, has_below (suc x) y xs a.1)

has-tail :
    (n x s : ℕ) (xs ys : List ℕ)
    → Asc n (x ∷ xs)
    → Asc n (x ∷ ys)
    → has s (x ∷ xs) ≡ has s (x ∷ ys)
    → has s xs ≡ has s ys
has-tail n x s xs ys a b e = ground (arith, has_below (suc x) s xs a.1, has_below (suc x) s ys b.1)

-- Two ascending lists with the same members are equal.
pub Asc-ext :
    (n : ℕ) (xs ys : List ℕ) → Asc n xs → Asc n ys → ((s : ℕ) → has s xs ≡ has s ys) → xs ≡ ys
Asc-ext n [] [] a b e = refl
Asc-ext n [] (y ∷ ys) a b e = ground (arith, e y)
Asc-ext n (x ∷ xs) [] a b e = ground (arith, e x)
Asc-ext n (x ∷ xs) (y ∷ ys) a b e =
    let p : x ≡ y = Asc-head-eq n x y xs ys a b (e x) (e y) in
    let b' : Asc n (x ∷ ys) = subst (λ z. Asc n (z ∷ ys)) (sym p) b in
    let e' : (s : ℕ) → has s (x ∷ xs) ≡ has s (x ∷ ys) =
      subst (λ z. (s : ℕ) → has s (x ∷ xs) ≡ has s (z ∷ ys)) (sym p) e in
    ap₂ ◌∷◌ p (Asc-ext (suc x) xs ys a.1 b'.1 (λ s. has-tail n x s xs ys a b' (e' s)))
