-- ===== src/Bookmarks/Map.antt =====
-- A `HashMap` with string keys, as a list of its entries.
use text.Mathlib.Text.{◌==◌ as str_eq}
use text.Mathlib.TextEquality.{eq_iff}
use logmon_mcp.Common.{
  ◌≡◌, ◌∙◌, refl, sym, ap, Bool, true, false, not, ◌||◌, Option, none, some, List, [], ◌∷◌, String,
  if◌then◌else◌, any, keep, All, arith, Bool-cases, inl, inr,
}

pub str_eq-sym : (s t : String) → str_eq s t ≡ str_eq t s
str_eq-sym s t = elim (Bool-cases (str_eq s t)) [
  | inl h ↦ ap (λ x. str_eq x t) ((eq_iff s t).0 h) ∙ ap (λ x. str_eq t x) (sym ((eq_iff s t).0 h))
  | inr h ↦ elim (Bool-cases (str_eq t s)) [
    | inl g ↦
        ap (λ x. str_eq s x) ((eq_iff t s).0 g) ∙ ap (λ x. str_eq x s) (sym ((eq_iff t s).0 g))
    | inr g ↦ h ∙ sym g
  ]
]

pub same_key : (i j k : String) → str_eq i j ≡ true → str_eq i k ≡ str_eq j k
same_key i j k h = ap (λ x. str_eq x k) ((eq_iff i j).0 h)

module _ {V : Type 0} where
  unfoldable pub get : List (String × V) → String → Option V
  get [] k = none
  get ((j, v) ∷ m) k = if str_eq j k then some v else get m k

  unfoldable pub insert : List (String × V) → String → V → List (String × V)
  insert [] k v = (k, v) ∷ []
  insert ((j, w) ∷ m) k v = if str_eq j k then (k, v) ∷ m else (j, w) ∷ insert m k v

  unfoldable pub remove : List (String × V) → String → List (String × V)
  remove m k = keep (λ (j, v). not (str_eq j k)) m

  -- `retain`.
  unfoldable pub retain : (V → Bool) → List (String × V) → List (String × V)
  retain p m = keep (λ (j, v). p v) m

  abbrev pub has_key : String → List (String × V) → Bool
  has_key k m = any (λ (j, v). str_eq j k) m

  -- No key twice.
  abbrev pub Unique : List (String × V) → Type 0
  Unique [] = Unit {0}
  Unique ((j, v) ∷ m) = (has_key j m ≡ false) × Unique m

  pub get-insert :
      (m : List (String × V)) (k : String) (v : V) (q : String)
      → get (insert m k v) q ≡ (if str_eq k q then some v else get m q)
  unfolding get insert
  get-insert [] k v q = refl
  get-insert ((j, w) ∷ m) k v q =
      ground (arith, get-insert m k v q, same_key j k q, same_key j q k, str_eq-sym k q)

  pub get-remove :
      (m : List (String × V)) (k q : String)
      → get (remove m k) q ≡ (if str_eq k q then none else get m q)
  unfolding get remove
  get-remove [] k q = ground arith
  get-remove ((j, w) ∷ m) k q =
      ground
        (arith, get-remove m k q, same_key j k q, str_eq-sym k q, same_key j q k, str_eq-sym j k)

  get_absent : (m : List (String × V)) (k : String) → has_key k m ≡ false → get m k ≡ none
  unfolding get
  get_absent [] k h = refl
  get_absent ((j, w) ∷ m) k h = ground (arith, get_absent m k)

  has_key-cong :
      (m : List (String × V)) (j k : String) → str_eq j k ≡ true → has_key j m ≡ has_key k m
  has_key-cong m j k h = ap (λ x. has_key x m) ((eq_iff j k).0 h)

  keep-absent :
      (p : String × V → Bool) (m : List (String × V)) (k : String)
      → has_key k m ≡ false
      → has_key k (keep p m) ≡ false
  keep-absent p [] k h = refl
  keep-absent p ((j, w) ∷ m) k h = ground (arith, keep-absent p m k)

  pub keep-Unique : (p : String × V → Bool) (m : List (String × V)) → Unique m → Unique (keep p m)
  keep-Unique p [] u = tt
  keep-Unique p ((j, w) ∷ m) u = ground (arith, keep-absent p m j, keep-Unique p m u.1, u.0)

  pub insert-Unique :
      (m : List (String × V)) (k : String) (v : V) → Unique m → Unique (insert m k v)
  unfolding insert
  insert-Unique [] k v u = (refl, tt)
  insert-Unique ((j, w) ∷ m) k v u = ground (
    arith,
    insert-Unique m k v u.1,
    u.0,
    u.1,
    has_key-cong m j k,
    has_key-insert m k v j,
    str_eq-sym j k,
  )
    where
      has_key-insert :
          (m : List (String × V)) (k : String) (v : V) (q : String)
          → has_key q (insert m k v) ≡ (str_eq k q || has_key q m)
      has_key-insert [] k v q = refl
      has_key-insert ((i, w) ∷ m) k v q =
          ground (arith, has_key-insert m k v q, same_key i k q, same_key i q k, str_eq-sym k q)

  pub has_key-get : (m : List (String × V)) (k : String) → get m k ≡ none → has_key k m ≡ false
  unfolding get
  has_key-get [] k h = refl
  has_key-get ((j, w) ∷ m) k h = ground (arith, has_key-get m k)

  pub insert-All {κ} :
      (P : String × V → Type κ) (m : List (String × V)) (k : String) (v : V)
      → P (k, v)
      → All P m
      → All P (insert m k v)
  unfolding insert
  insert-All P [] k v here h = (here, tt)
  insert-All P ((j, w) ∷ m) k v here h = elim (Bool-cases (str_eq j k)) [
    | inl e ↦ rw (e, insert) (here, h.1)
    | inr e ↦ rw (e, insert) (h.0, insert-All P m k v here h.1)
  ]

  pub get-retain :
      (p : V → Bool) (m : List (String × V)) (q : String)
      → Unique m
      → get (retain p m) q ≡ elim (get m q) [ none ↦ none | some v ↦ if p v then some v else none ]
  unfolding get retain
  get-retain p [] q u = refl
  get-retain p ((j, w) ∷ m) q u = ground (
    arith,
    get-retain p m q u.1,
    u.0,
    has_key-cong m j q,
    get_absent (keep (λ (i, v). p v) m) q,
    keep-absent (λ (i, v). p v) m q,
  )
