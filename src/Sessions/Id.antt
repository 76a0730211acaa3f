-- ===== src/Sessions/Id.antt =====
-- crates/core/src/daemon/session.rs: session ids, and the map that they are the keys of. The
-- `HashMap` is the list of its entries in the order of its iteration.
use text.Mathlib.Text.{◌==◌ as str_eq}
use text.Mathlib.TextEquality.{eq_iff}
use logmon_mcp.Common.{
  ◌≡◌, refl, ap, sym, subst, All, ◌∙◌, Bool, true, false, not, ◌&&◌, ◌||◌, Option, none, some, List,
  [], ◌∷◌, String, if◌then◌else◌, any, arith, Bool-cases, inl, inr,
}
use logmon_mcp.Bookmarks.Map.{str_eq-sym}

pub data SessionId : Type 0 where
  anonymous named : String → SessionId

-- `to_string`.
unfoldable pub label : SessionId → String
label (anonymous id) = id
label (named name) = name

-- The derived `PartialEq`.
abbrev pub same_id : SessionId → SessionId → Bool
same_id (anonymous i) (anonymous j) = str_eq i j
same_id (anonymous i) (named j) = false
same_id (named i) (anonymous j) = false
same_id (named i) (named j) = str_eq i j

pub same_id-eq : (i j : SessionId) → same_id i j ≡ true → i ≡ j
same_id-eq (anonymous i) (anonymous j) h = ap anonymous ((eq_iff i j).0 h)
same_id-eq (anonymous i) (named j) h = cc
same_id-eq (named i) (anonymous j) h = cc
same_id-eq (named i) (named j) h = ap named ((eq_iff i j).0 h)

pub same_id_refl : (i : SessionId) → same_id i i ≡ true
same_id_refl (anonymous i) = (eq_iff i i).1 refl
same_id_refl (named i) = (eq_iff i i).1 refl

pub same_id-sym : (i j : SessionId) → same_id i j ≡ same_id j i
same_id-sym (anonymous i) (anonymous j) = str_eq-sym i j
same_id-sym (anonymous i) (named j) = refl
same_id-sym (named i) (anonymous j) = refl
same_id-sym (named i) (named j) = str_eq-sym i j

pub same_id-cong : (i j k : SessionId) → same_id i j ≡ true → same_id i k ≡ same_id j k
same_id-cong i j k h = ap (λ x. same_id x k) (same_id-eq i j h)

module _ {V : Type 0} where
  unfoldable pub get : List (SessionId × V) → SessionId → Option V
  get [] k = none
  get ((j, v) ∷ m) k = if same_id j k then some v else get m k

  unfoldable pub insert : List (SessionId × V) → SessionId → V → List (SessionId × V)
  insert [] k v = (k, v) ∷ []
  insert ((j, w) ∷ m) k v = if same_id j k then (k, v) ∷ m else (j, w) ∷ insert m k v

  unfoldable pub remove : List (SessionId × V) → SessionId → List (SessionId × V)
  remove [] k = []
  remove ((j, v) ∷ m) k = if same_id j k then remove m k else (j, v) ∷ remove m k

  -- A change of what is behind an entry's locks.
  unfoldable pub update : List (SessionId × V) → SessionId → (V → V) → List (SessionId × V)
  update [] k f = []
  update ((j, v) ∷ m) k f = if same_id j k then (j, f v) ∷ m else (j, v) ∷ update m k f

  abbrev pub has_id : SessionId → List (SessionId × V) → Bool
  has_id k m = any (λ (j, v). same_id j k) m

  -- No id twice.
  abbrev pub Unique : List (SessionId × V) → Type 0
  Unique [] = Unit {0}
  Unique ((j, v) ∷ m) = (has_id j m ≡ false) × Unique m

  pub get-insert :
      (m : List (SessionId × V)) (k : SessionId) (v : V) (q : SessionId)
      → get (insert m k v) q ≡ (if same_id k q then some v else get m q)
  unfolding get insert
  get-insert [] k v q = refl
  get-insert ((j, w) ∷ m) k v q =
      ground (arith, get-insert m k v q, same_id-cong j k q, same_id-cong j q k, same_id-sym k q)

  pub get-remove :
      (m : List (SessionId × V)) (k q : SessionId)
      → get (remove m k) q ≡ (if same_id k q then none else get m q)
  unfolding get remove
  get-remove [] k q = ground arith
  get-remove ((j, w) ∷ m) k q = ground (
    arith,
    get-remove m k q,
    same_id-cong j k q,
    same_id-cong j q k,
    same_id-sym k q,
    same_id-sym j k,
  )

  abbrev pub changed : (V → V) → Option V → Option V
  changed f none = none
  changed f (some v) = some (f v)

  pub get-update :
      (m : List (SessionId × V)) (k : SessionId) (f : V → V) (q : SessionId)
      → get (update m k f) q ≡ (if same_id k q then changed f (get m q) else get m q)
  unfolding get update
  get-update [] k f q = ground arith
  get-update ((j, w) ∷ m) k f q =
      ground (arith, get-update m k f q, same_id-cong j k q, same_id-cong j q k, same_id-sym k q)

  pub has_id-update :
      (m : List (SessionId × V)) (k : SessionId) (f : V → V) (q : SessionId)
      → has_id q (update m k f) ≡ has_id q m
  unfolding update
  has_id-update [] k f q = refl
  has_id-update ((j, w) ∷ m) k f q = ground (arith, has_id-update m k f q)

  pub has_id-remove :
      (m : List (SessionId × V)) (k q : SessionId)
      → has_id q (remove m k) ≡ (has_id q m && not (same_id k q))
  unfolding remove
  has_id-remove [] k q = refl
  has_id-remove ((j, w) ∷ m) k q =
      ground (arith, has_id-remove m k q, same_id-cong j k q, same_id-cong j q k, same_id-sym q k)

  pub has_id-insert :
      (m : List (SessionId × V)) (k : SessionId) (v : V) (q : SessionId)
      → has_id q (insert m k v) ≡ (same_id k q || has_id q m)
  unfolding insert
  has_id-insert [] k v q = refl
  has_id-insert ((j, w) ∷ m) k v q = ground (arith, has_id-insert m k v q, same_id-cong j k q)

  pub has_id-get : (m : List (SessionId × V)) (k : SessionId) → get m k ≡ none → has_id k m ≡ false
  unfolding get
  has_id-get [] k h = refl
  has_id-get ((j, w) ∷ m) k h = ground (arith, has_id-get m k)

  pub has_id-got :
      (m : List (SessionId × V)) (k : SessionId) (v : V) → get m k ≡ some v → has_id k m ≡ true
  unfolding get
  has_id-got [] k v h = cc
  has_id-got ((j, w) ∷ m) k v h = ground (arith, has_id-got m k v)

  pub update-Unique :
      (m : List (SessionId × V)) (k : SessionId) (f : V → V) → Unique m → Unique (update m k f)
  unfolding update
  update-Unique [] k f u = tt
  update-Unique ((j, w) ∷ m) k f u =
      ground (arith, update-Unique m k f u.1, has_id-update m k f j, u.0, u.1)

  pub remove-Unique : (m : List (SessionId × V)) (k : SessionId) → Unique m → Unique (remove m k)
  unfolding remove
  remove-Unique [] k u = tt
  remove-Unique ((j, w) ∷ m) k u = ground (arith, remove-Unique m k u.1, has_id-remove m k j, u.0)

  pub insert-Unique :
      (m : List (SessionId × V)) (k : SessionId) (v : V) → Unique m → Unique (insert m k v)
  unfolding insert
  insert-Unique [] k v u = (refl, tt)
  insert-Unique ((j, w) ∷ m) k v u = elim (Bool-cases (same_id j k)) [
    | inl e ↦ rw (e, insert) (ap (λ i. has_id i m) (sym (same_id-eq j k e)) ∙ u.0, u.1)
    | inr e ↦
        rw (e, insert)
          (ground (arith, has_id-insert m k v j, u.0, same_id-sym k j, e), insert-Unique m k v u.1)
  ]

  -- A property of every entry.
  pub update-All {κ} :
      (P : SessionId → V → Type κ) (m : List (SessionId × V)) (k : SessionId) (f : V → V)
      → ((i : SessionId) (v : V) → same_id i k ≡ true → P i v → P i (f v))
      → All (λ (i, v). P i v) m
      → All (λ (i, v). P i v) (update m k f)
  unfolding update
  update-All P [] k f c h = tt
  update-All P ((j, w) ∷ m) k f c h = elim (Bool-cases (same_id j k)) [
    | inl e ↦ rw (e, update) (c j w e h.0, h.1)
    | inr e ↦ rw (e, update) (h.0, update-All P m k f c h.1)
  ]

  pub remove-All {κ} :
      (P : SessionId → V → Type κ) (m : List (SessionId × V)) (k : SessionId)
      → All (λ (i, v). P i v) m
      → All (λ (i, v). P i v) (remove m k)
  unfolding remove
  remove-All P [] k h = tt
  remove-All P ((j, w) ∷ m) k h = elim (Bool-cases (same_id j k)) [
    | inl e ↦ rw (e, remove) (remove-All P m k h.1)
    | inr e ↦ rw (e, remove) (h.0, remove-All P m k h.1)
  ]

  pub insert-All {κ} :
      (P : SessionId → V → Type κ) (m : List (SessionId × V)) (k : SessionId) (v : V)
      → P k v
      → All (λ (i, v). P i v) m
      → All (λ (i, v). P i v) (insert m k v)
  unfolding insert
  insert-All P [] k v here h = (here, tt)
  insert-All P ((j, w) ∷ m) k v here h = elim (Bool-cases (same_id j k)) [
    | inl e ↦ rw (e, insert) (here, h.1)
    | inr e ↦ rw (e, insert) (h.0, insert-All P m k v here h.1)
  ]

  pub get-All {κ} :
      (P : SessionId → V → Type κ) (m : List (SessionId × V)) (k : SessionId) (v : V)
      → All (λ (i, v). P i v) m
      → get m k ≡ some v
      → P k v
  unfolding get
  get-All P [] k v h g = cc
  get-All P ((j, w) ∷ m) k v h g = elim (Bool-cases (same_id j k)) [
    | inl e ↦
        let same : w ≡ v = ground (arith, e, g) in
        subst (λ i. P i v) (same_id-eq j k e) (subst (λ x. P j x) same h.0)
    | inr e ↦ get-All P m k v h.1 (ground (arith, e, g))
  ]
