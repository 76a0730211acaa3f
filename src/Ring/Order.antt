-- ===== src/Ring/Order.antt =====
-- The order of the ring: records strictly ascending by seq, and what the parts of the merge do
-- to it.
use logmon_mcp.Common.{
  ℕ, zero, suc, ◌≤◌, ◌<◌, ◌≡◌, ◌≢◌, ◌∙◌, refl, Bool, true, false, Option, none, some, List, [], ◌∷◌,
  ◌++◌, ◌==◌, drop, keep, any, last?, arith,
}
use logmon_mcp.Entry.{LogEntry}
use logmon_mcp.Ring.{
  position, holds, is_some, insert_by_seq, sort_by_seq, dedup_after, dedup_by_seq,
}

-- Strictly ascending seqs, from `n` up.
abbrev pub From : ℕ → List LogEntry → Type 0
From n [] = Unit {0}
From n (e ∷ es) = (n ≤ e.seq) × From (suc e.seq) es

abbrev pub has_seq : ℕ → List LogEntry → Bool
has_seq seq es = any (λ e. e.seq == seq) es

pub From-mono : (m n : ℕ) (es : List LogEntry) → m ≤ n → From n es → From m es
From-mono m n [] h f = tt
From-mono m n (e ∷ es) h f = (omega arith, f.1)

pub has_seq_below : (n q : ℕ) (es : List LogEntry) → From n es → q < n → has_seq q es ≡ false
has_seq_below n q [] f h = refl
has_seq_below n q (e ∷ es) f h = ground (arith, has_seq_below (suc e.seq) q es f.1)

pub keep-From : (p : LogEntry → Bool) (n : ℕ) (es : List LogEntry) → From n es → From n (keep p es)
keep-From p n [] f = tt
keep-From p n (e ∷ es) f =
    ground (arith, keep-From p (suc e.seq) es f.1, From-mono n (suc e.seq) (keep p es))

pub drop-From : (k n : ℕ) (es : List LogEntry) → From n es → From n (drop k es)
drop-From zero n es f = f
drop-From (suc k) n [] f = tt
drop-From (suc k) n (e ∷ es) f =
    From-mono n (suc e.seq) (drop k es) (omega arith) (drop-From k (suc e.seq) es f.1)

last-ge : (n : ℕ) (e : LogEntry) (es : List LogEntry) → From n es → last? es ≡ some e → n ≤ e.seq
last-ge n e [] f h = cc
last-ge n e (x ∷ []) f h = ground arith
last-ge n e (x ∷ y ∷ es) f h = omega (arith, last-ge (suc x.seq) e (y ∷ es) f.1 h, f.0)

pub From-append_right : (n : ℕ) (xs ys : List LogEntry) → From n (xs ++ ys) → From n ys
From-append_right n [] ys f = f
From-append_right n (x ∷ xs) ys f =
    From-mono n (suc x.seq) ys (omega (arith, f.0)) (From-append_right (suc x.seq) xs ys f.1)

-- The last record has the highest seq.
pub last-highest :
    (n q : ℕ) (e : LogEntry) (es : List LogEntry)
    → From n es
    → last? es ≡ some e
    → e.seq < q
    → has_seq q es ≡ false
last-highest n q e [] f h l = refl
last-highest n q e (x ∷ []) f h l = ground arith
last-highest n q e (x ∷ y ∷ es) f h l =
    ground
      (arith, last-highest (suc x.seq) q e (y ∷ es) f.1 h l, last-ge (suc x.seq) e (y ∷ es) f.1 h)

pub has_seq-last : (e : LogEntry) (es : List LogEntry) → last? es ≡ some e → has_seq e.seq es ≡ true
has_seq-last e [] h = cc
has_seq-last e (x ∷ []) h = ground arith
has_seq-last e (x ∷ y ∷ es) h = ground (arith, has_seq-last e (y ∷ es) h)

pub position-has_seq : (q : ℕ) (es : List LogEntry) → is_some (position es q) ≡ has_seq q es
unfolding position
position-has_seq q [] = refl
position-has_seq q (e ∷ es) = ground (arith, position-has_seq q es)

pub last-ne-none : (x : LogEntry) (es : List LogEntry) → last? (x ∷ es) ≢ none
last-ne-none x [] h = cc
last-ne-none x (y ∷ es) h = last-ne-none y es h

holds_last :
    (n q : ℕ) (es : List LogEntry) (o : Option LogEntry)
    → From n es
    → last? es ≡ o
    → holds es q ≡ has_seq q es
unfolding holds
holds_last n q [] o f e = refl
holds_last n q (x ∷ es) none f e = absurd (last-ne-none x es e)
holds_last n q (x ∷ es) (some l) f e =
    ground (
      arith,
      last-highest n q l (x ∷ es) f e,
      has_seq-last l (x ∷ es) e,
      position-has_seq q (x ∷ es),
    )

-- On an ordered ring `holds` is membership.
pub holds-has_seq : (n q : ℕ) (es : List LogEntry) → From n es → holds es q ≡ has_seq q es
holds-has_seq n q es f = holds_last n q es (last? es) f refl

abbrev Weak : ℕ → List LogEntry → Type 0
Weak n [] = Unit {0}
Weak n (e ∷ es) = (n ≤ e.seq) × Weak e.seq es

Weak-mono : (m n : ℕ) (es : List LogEntry) → m ≤ n → Weak n es → Weak m es
Weak-mono m n [] h f = tt
Weak-mono m n (e ∷ es) h f = (omega arith, f.1)

insert_by_seq-Weak :
    (n : ℕ) (e : LogEntry) (es : List LogEntry)
    → n ≤ e.seq
    → Weak n es
    → Weak n (insert_by_seq e es)
unfolding insert_by_seq
insert_by_seq-Weak n e [] h w = (h, tt)
insert_by_seq-Weak n e (x ∷ es) h w = ground (arith, insert_by_seq-Weak x.seq e es)

sort_by_seq-Weak : (es : List LogEntry) → Weak 0 (sort_by_seq es)
unfolding sort_by_seq
sort_by_seq-Weak [] = tt
sort_by_seq-Weak (e ∷ es) =
    insert_by_seq-Weak 0 e (sort_by_seq es) (omega arith) (sort_by_seq-Weak es)

dedup_after-From :
    (n : ℕ) (e : LogEntry) (es : List LogEntry)
    → n ≤ e.seq
    → Weak e.seq es
    → From n (dedup_after e es)
unfolding dedup_after
dedup_after-From n e [] h w = (h, tt)
dedup_after-From n e (x ∷ es) h w =
    ground (arith, dedup_after-From n e es, dedup_after-From (suc e.seq) x es)

dedup_by_seq-From : (es : List LogEntry) → Weak 0 es → From 0 (dedup_by_seq es)
unfolding dedup_by_seq
dedup_by_seq-From [] w = tt
dedup_by_seq-From (e ∷ es) w = dedup_after-From 0 e es w.0 w.1

-- A batch, sorted and without repeats, is ascending.
pub sorted-From : (es : List LogEntry) → From 0 (dedup_by_seq (sort_by_seq es))
sorted-From es = dedup_by_seq-From (sort_by_seq es) (sort_by_seq-Weak es)

has_seq-insert :
    (q : ℕ) (e : LogEntry) (es : List LogEntry)
    → has_seq q (insert_by_seq e es) ≡ has_seq q (e ∷ es)
unfolding insert_by_seq
has_seq-insert q e [] = refl
has_seq-insert q e (x ∷ es) = ground (arith, has_seq-insert q e es)

has_seq-sort : (q : ℕ) (es : List LogEntry) → has_seq q (sort_by_seq es) ≡ has_seq q es
unfolding sort_by_seq
has_seq-sort q [] = refl
has_seq-sort q (e ∷ es) = ground (arith, has_seq-insert q e (sort_by_seq es), has_seq-sort q es)

has_seq-dedup_after :
    (q : ℕ) (e : LogEntry) (es : List LogEntry) → has_seq q (dedup_after e es) ≡ has_seq q (e ∷ es)
unfolding dedup_after
has_seq-dedup_after q e [] = refl
has_seq-dedup_after q e (x ∷ es) =
    ground (arith, has_seq-dedup_after q e es, has_seq-dedup_after q x es)

has_seq-dedup : (q : ℕ) (es : List LogEntry) → has_seq q (dedup_by_seq es) ≡ has_seq q es
unfolding dedup_by_seq
has_seq-dedup q [] = refl
has_seq-dedup q (e ∷ es) = has_seq-dedup_after q e es

-- It has the seqs that it had.
pub has_seq-sorted :
    (q : ℕ) (es : List LogEntry) → has_seq q (dedup_by_seq (sort_by_seq es)) ≡ has_seq q es
has_seq-sorted q es = has_seq-dedup q (sort_by_seq es) ∙ has_seq-sort q es
