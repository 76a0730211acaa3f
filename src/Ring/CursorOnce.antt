-- ===== src/Ring/CursorOnce.antt =====
-- What is behind a cursor and what is ahead of it, by seq and by late number.
use logmon_mcp.Common.{
  ℕ, ◌≤◌, ◌<◌, max, ◌≡◌, Bool, true, false, Option, none, some, List, [], ◌∷◌, ◌++◌, length, All,
  arith,
}
use logmon_mcp.Entry.{LogEntry}
use logmon_mcp.Ring.Cursor.{LateTag, late_tags, highest_normal}

abbrev pub Taken : Type 0
Taken = LogEntry × Option LateTag

-- Normal records alone, of ascending seqs above `seq`.
abbrev pub Normals : ℕ → List Taken → Type 0
Normals seq [] = Unit {0}
Normals seq ((e, none) ∷ es) = (seq < e.seq) × Normals e.seq es
Normals seq ((e, some t) ∷ es) = ⊥

-- Late records of ascending numbers above `mark`, then normal ones.
abbrev pub LateThen : ℕ → ℕ → List Taken → Type 0
LateThen mark seq [] = Unit {0}
LateThen mark seq ((e, none) ∷ es) = (seq < e.seq) × Normals e.seq es
LateThen mark seq ((e, some t) ∷ es) = (mark < t.number) × LateThen t.number seq es

-- A taken record is behind a cursor that has delivered it, and ahead of one that will.
abbrev pub Behind : ℕ → ℕ → Taken → Type 0
Behind seq mark (e, none) = e.seq ≤ seq
Behind seq mark (e, some t) = t.number ≤ mark

abbrev pub Ahead : ℕ → ℕ → Taken → Type 0
Ahead seq mark (e, none) = seq < e.seq
Ahead seq mark (e, some t) = mark < t.number

abbrev pub has_normal : List Taken → Bool
has_normal [] = false
has_normal ((e, none) ∷ es) = true
has_normal ((e, some t) ∷ es) = has_normal es

abbrev pub Numbers : ℕ → List Taken → Type 0
Numbers top [] = Unit {0}
Numbers top ((e, none) ∷ es) = Numbers top es
Numbers top ((e, some t) ∷ es) = (t.number ≤ top) × Numbers top es

-- The mark after some late records.
abbrev pub last_number : ℕ → List Taken → ℕ
last_number mark [] = mark
last_number mark ((e, none) ∷ es) = last_number mark es
last_number mark ((e, some t) ∷ es) = last_number t.number es

pub highest_normal-ge : (seq : ℕ) (es : List Taken) → seq ≤ highest_normal seq es
unfolding highest_normal
highest_normal-ge seq [] = omega arith
highest_normal-ge seq ((e, none) ∷ es) = omega (arith, highest_normal-ge (max seq e.seq) es)
highest_normal-ge seq ((e, some t) ∷ es) = highest_normal-ge seq es

-- With the whole late part kept, what is kept is behind the advanced cursor
pub whole-Behind :
    (seq top : ℕ) (es : List Taken) → Numbers top es → All (Behind (highest_normal seq es) top) es
unfolding highest_normal
whole-Behind seq top [] n = tt
whole-Behind seq top ((e, none) ∷ es) n =
    (omega (arith, highest_normal-ge (max seq e.seq) es), whole-Behind (max seq e.seq) top es n)
whole-Behind seq top ((e, some t) ∷ es) n = (n.0, whole-Behind seq top es n.1)

Normals-Ahead : (seq top : ℕ) (es : List Taken) → Normals seq es → All (Ahead seq top) es
Normals-Ahead seq top [] n = tt
Normals-Ahead seq top ((e, none) ∷ es) n = (n.0, weaken es (Normals-Ahead e.seq top es n.1))
  where
    weaken : (xs : List Taken) → All (Ahead e.seq top) xs → All (Ahead seq top) xs
    weaken [] h = tt
    weaken ((x, none) ∷ xs) h = (omega (arith, n.0, h.0), weaken xs h.1)
    weaken ((x, some t) ∷ xs) h = (h.0, weaken xs h.1)
Normals-Ahead seq top ((e, some t) ∷ es) n = absurd n

Normals-rest :
    (seq top : ℕ) (xs ys : List Taken)
    → Normals seq (xs ++ ys)
    → All (Ahead (highest_normal seq xs) top) ys
unfolding highest_normal
Normals-rest seq top [] ys n = Normals-Ahead seq top ys n
Normals-rest seq top ((e, none) ∷ xs) ys n =
    rw (larger e.seq n.0) (Normals-rest e.seq top xs ys n.1)
  where
    larger : (k : ℕ) → seq < k → max seq k ≡ k
    larger k h = omega (arith, h)
Normals-rest seq top ((e, some t) ∷ xs) ys n = absurd n

-- and what is not kept, which is normal, is ahead of it.
pub whole-Ahead :
    (mark seq top : ℕ) (xs ys : List Taken)
    → LateThen mark seq (xs ++ ys)
    → length (late_tags xs) ≡ length (late_tags (xs ++ ys))
    → All (Ahead (highest_normal seq xs) top) ys
unfolding late_tags highest_normal
whole-Ahead mark seq top [] [] s h = tt
whole-Ahead mark seq top [] ((e, none) ∷ ys) s h = Normals-Ahead seq top ((e, none) ∷ ys) s
whole-Ahead mark seq top [] ((e, some t) ∷ ys) s h = absurd (omega (arith, h))
whole-Ahead mark seq top ((e, none) ∷ xs) ys s h = Normals-rest seq top ((e, none) ∷ xs) ys s
whole-Ahead mark seq top ((e, some t) ∷ xs) ys s h =
    whole-Ahead t.number seq top xs ys s.1 (omega (arith, h))

last_number-ge :
    (mark seq : ℕ) (xs ys : List Taken)
    → LateThen mark seq (xs ++ ys)
    → has_normal xs ≡ false
    → mark ≤ last_number mark xs
last_number-ge mark seq [] ys s h = omega arith
last_number-ge mark seq ((e, none) ∷ xs) ys s h = cc
last_number-ge mark seq ((e, some t) ∷ xs) ys s h =
    omega (arith, s.0, last_number-ge t.number seq xs ys s.1 h)

-- With late records alone kept, they are behind the mark
pub part-Behind :
    (mark seq : ℕ) (xs ys : List Taken)
    → LateThen mark seq (xs ++ ys)
    → has_normal xs ≡ false
    → All (Behind seq (last_number mark xs)) xs
part-Behind mark seq [] ys s h = tt
part-Behind mark seq ((e, none) ∷ xs) ys s h = cc
part-Behind mark seq ((e, some t) ∷ xs) ys s h =
    (last_number-ge t.number seq xs ys s.1 h, part-Behind t.number seq xs ys s.1 h)

pub LateThen-Ahead :
    (mark seq : ℕ) (es : List Taken) → LateThen mark seq es → All (Ahead seq mark) es
LateThen-Ahead mark seq [] s = tt
LateThen-Ahead mark seq ((e, none) ∷ es) s = Normals-Ahead seq mark ((e, none) ∷ es) s
LateThen-Ahead mark seq ((e, some t) ∷ es) s = (s.0, weaken es (LateThen-Ahead t.number seq es s.1))
  where
    weaken : (xs : List Taken) → All (Ahead seq t.number) xs → All (Ahead seq mark) xs
    weaken [] h = tt
    weaken ((x, none) ∷ xs) h = (h.0, weaken xs h.1)
    weaken ((x, some u) ∷ xs) h = (omega (arith, s.0, h.0), weaken xs h.1)

-- and the rest is ahead of it.
pub part-Ahead :
    (mark seq : ℕ) (xs ys : List Taken)
    → LateThen mark seq (xs ++ ys)
    → has_normal xs ≡ false
    → All (Ahead seq (last_number mark xs)) ys
part-Ahead mark seq [] ys s h = LateThen-Ahead mark seq ys s
part-Ahead mark seq ((e, none) ∷ xs) ys s h = cc
part-Ahead mark seq ((e, some t) ∷ xs) ys s h = part-Ahead t.number seq xs ys s.1 h
