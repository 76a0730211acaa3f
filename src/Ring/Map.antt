-- ===== src/Ring/Map.antt =====
-- The maps of the log ring: `BTreeMap<u64, u64>` as a list in key order, and an update of a
-- `HashMap` that is read as a function.
use logmon_mcp.Common.{
  ℕ, suc, ◌<◌, ◌≤◌, ◌≡◌, refl, Option, none, some, List, [], ◌∷◌, ltb, ◌==◌, if◌then◌else◌, arith,
}

abbrev pub BTreeMap : Type 0
BTreeMap = List (ℕ × ℕ)

unfoldable pub bt_get : BTreeMap → ℕ → Option ℕ
bt_get [] k = none
bt_get ((j, v) ∷ m) k = if j == k then some v else bt_get m k

unfoldable pub bt_insert : BTreeMap → ℕ → ℕ → BTreeMap
bt_insert [] k v = (k, v) ∷ []
bt_insert ((j, w) ∷ m) k v =
    if k == j then (k, v) ∷ m else if ltb k j then (k, v) ∷ (j, w) ∷ m else (j, w) ∷ bt_insert m k v

unfoldable pub bt_remove : BTreeMap → ℕ → BTreeMap
bt_remove [] k = []
bt_remove ((j, w) ∷ m) k = if j == k then m else (j, w) ∷ bt_remove m k

-- Keys strictly ascending, from `n` up.
abbrev pub Keys : ℕ → BTreeMap → Type 0
Keys n [] = Unit {0}
Keys n ((j, w) ∷ m) = (n ≤ j) × Keys (suc j) m

pub Keys-mono : (a b : ℕ) (m : BTreeMap) → a ≤ b → Keys b m → Keys a m
Keys-mono a b [] h k = tt
Keys-mono a b ((j, w) ∷ m) h k = (omega arith, k.1)

pub bt_get_below : (n k : ℕ) (m : BTreeMap) → Keys n m → k < n → bt_get m k ≡ none
unfolding bt_get
bt_get_below n k [] h l = refl
bt_get_below n k ((j, w) ∷ m) h l = ground (arith, bt_get_below (suc j) k m h.1)

pub bt_get-insert :
    (m : BTreeMap) (k v j : ℕ)
    → bt_get (bt_insert m k v) j ≡ (if k == j then some v else bt_get m j)
unfolding bt_get bt_insert
bt_get-insert [] k v j = refl
bt_get-insert ((i, w) ∷ m) k v j = ground (arith, bt_get-insert m k v j)

pub bt_get-remove :
    (n : ℕ) (m : BTreeMap) (k j : ℕ)
    → Keys n m
    → bt_get (bt_remove m k) j ≡ (if k == j then none else bt_get m j)
unfolding bt_get bt_remove
bt_get-remove n [] k j h = ground arith
bt_get-remove n ((i, w) ∷ m) k j h =
    ground (arith, bt_get-remove (suc i) m k j h.1, bt_get_below (suc i) j m h.1)

pub bt_remove-none : (m : BTreeMap) (k j : ℕ) → bt_get m j ≡ none → bt_get (bt_remove m k) j ≡ none
unfolding bt_get bt_remove
bt_remove-none [] k j h = refl
bt_remove-none ((i, w) ∷ m) k j h = ground (arith, bt_remove-none m k j)

pub bt_insert-Keys : (n k v : ℕ) (m : BTreeMap) → n ≤ k → Keys n m → Keys n (bt_insert m k v)
unfolding bt_insert
bt_insert-Keys n k v [] h g = (h, tt)
bt_insert-Keys n k v ((j, w) ∷ m) h g =
    ground (arith, bt_insert-Keys (suc j) k v m, Keys-mono (suc k) (suc j) m)

pub bt_remove-Keys : (n k : ℕ) (m : BTreeMap) → Keys n m → Keys n (bt_remove m k)
unfolding bt_remove
bt_remove-Keys n k [] g = tt
bt_remove-Keys n k ((j, w) ∷ m) g =
    ground (arith, bt_remove-Keys (suc j) k m g.1, Keys-mono n (suc j) m)

module _ {ℓ} {V : Type ℓ} where
  -- `HashMap::insert` and `HashMap::remove` on a map read as a function.
  abbrev pub put : (ℕ → Option V) → ℕ → Option V → ℕ → Option V
  put f k v j = if k == j then v else f j
