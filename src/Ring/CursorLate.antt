-- ===== src/Ring/CursorLate.antt =====
-- The late part of a cursor read.
use logmon_mcp.Common.{
  ℕ, suc, ◌≤◌, ◌<◌, ◌≡◌, refl, false, ◌||◌, Option, none, some, List, [], ◌∷◌, ◌++◌, ltb, leb, ◌==◌,
  sat_suc-gt, u64_max, arith, Option-cases, Bool-cases, inl, inr,
}
use logmon_mcp.Entry.{LogEntry}
use logmon_mcp.Filter.{ParsedFilter}
use logmon_mcp.Filter.Text.{TextEngine}
use logmon_mcp.Ring.{Store}
use logmon_mcp.Ring.Map.{BTreeMap, Keys, Keys-mono, bt_get, bt_get_below}
use logmon_mcp.Ring.Late.{IsLate}
use logmon_mcp.Ring.Merging.{IsRing}
use logmon_mcp.Ring.Read.{entry_of, passes_late}
use logmon_mcp.Ring.Cursor.{
  CursorPos, LateTag, Walk, late_above, below_every_late_seq, take_late, late_round, walk_late,
  late_part,
}
use logmon_mcp.Ring.CursorOnce.{Taken, LateThen, has_normal, Numbers, last_number}

-- Numbers of a map's entries, at most `top`.
abbrev Tops : ℕ → BTreeMap → Type 0
Tops top [] = Unit {0}
Tops top ((n, q) ∷ m) = (n ≤ top) × Tops top m

-- The late part so far: late records alone, from `mark` up, the last numbered below `next`.
record Late (mark seq next top : ℕ) (es : List Taken) : Type 0 where
  ordered : LateThen mark seq es
  no_normal : has_normal es ≡ false
  numbered : Numbers top es
  below : last_number mark es < next

LateThen-push_late :
    (mark seq : ℕ) (e : LogEntry) (t : LateTag) (es : List Taken)
    → LateThen mark seq es
    → has_normal es ≡ false
    → last_number mark es < t.number
    → LateThen mark seq (es ++ (e, some t) ∷ [])
LateThen-push_late mark seq e t [] s h l = (l, tt)
LateThen-push_late mark seq e t ((x, none) ∷ es) s h l = cc
LateThen-push_late mark seq e t ((x, some u) ∷ es) s h l =
    (s.0, LateThen-push_late u.number seq e t es s.1 h l)

no_normal-push :
    (e : LogEntry) (t : LateTag) (es : List Taken)
    → has_normal es ≡ false
    → has_normal (es ++ (e, some t) ∷ []) ≡ false
no_normal-push e t [] h = refl
no_normal-push e t ((x, none) ∷ es) h = h
no_normal-push e t ((x, some u) ∷ es) h = no_normal-push e t es h

last_number-push :
    (mark : ℕ) (e : LogEntry) (t : LateTag) (es : List Taken)
    → last_number mark (es ++ (e, some t) ∷ []) ≡ t.number
last_number-push mark e t [] = refl
last_number-push mark e t ((x, none) ∷ es) = last_number-push mark e t es
last_number-push mark e t ((x, some u) ∷ es) = last_number-push u.number e t es

Numbers-push :
    (top : ℕ) (e : LogEntry) (t : LateTag) (es : List Taken)
    → Numbers top es
    → t.number ≤ top
    → Numbers top (es ++ (e, some t) ∷ [])
Numbers-push top e t [] n h = (h, tt)
Numbers-push top e t ((x, none) ∷ es) n h = Numbers-push top e t es n h
Numbers-push top e t ((x, some u) ∷ es) n h = (n.0, Numbers-push top e t es n.1 h)

Late-push :
    (mark seq next top : ℕ) (e : LogEntry) (t : LateTag) (es : List Taken)
    → next ≤ t.number
    → t.number ≤ top
    → Late mark seq next top es
    → Late mark seq (suc t.number) top (es ++ (e, some t) ∷ [])
Late-push mark seq next top e t es h g l = record {
  ordered = LateThen-push_late mark seq e t es l.ordered l.no_normal (omega (arith, l.below, h));
  no_normal = no_normal-push e t es l.no_normal;
  numbered = Numbers-push top e t es l.numbered g;
  below = rw (last_number-push mark e t es) (omega arith);
}

Late-next :
    (mark seq a b top : ℕ) (es : List Taken)
    → a ≤ b
    → Late mark seq a top es
    → Late mark seq b top es
Late-next mark seq a b top es h l = record {
  ordered = l.ordered;
  no_normal = l.no_normal;
  numbered = l.numbered;
  below = omega (arith, h, l.below);
}

late_above-Keys :
    (mark n : ℕ) (m : BTreeMap) → mark < u64_max → Keys n m → Keys (suc mark) (late_above mark m)
unfolding late_above
late_above-Keys mark n [] h k = tt
late_above-Keys mark n ((j, q) ∷ m) h k =
    ground
      (arith, sat_suc-gt mark h, late_above-Keys mark (suc j) m h k.1, raise mark (suc j) m k.1)
  where
    raise : (mark n : ℕ) (m : BTreeMap) → Keys n m → Keys n (late_above mark m)
    raise mark n [] k = tt
    raise mark n ((j, q) ∷ m) k =
        ground (arith, raise mark (suc j) m k.1, Keys-mono n (suc j) (late_above mark m))

late_above-Tops : (mark top : ℕ) (m : BTreeMap) → Tops top m → Tops top (late_above mark m)
unfolding late_above
late_above-Tops mark top [] h = tt
late_above-Tops mark top ((j, q) ∷ m) h = ground (arith, late_above-Tops mark top m h.1, h.0)

numbered-Tops :
    (k top : ℕ) (m : BTreeMap) → Keys k m → ((n q : ℕ) → bt_get m n ≡ some q → n ≤ top) → Tops top m
unfolding bt_get
numbered-Tops k top [] g h = tt
numbered-Tops k top ((j, q) ∷ m) g h = (
  h j q (ground arith),
  numbered-Tops (suc j) top m g.1 λ n r e. h n r (ground (arith, e, bt_get_below (suc j) n m g.1)),
)

module _ (engine : TextEngine) (count : ℕ) (filter : Option ParsedFilter) (pos : CursorPos) where
  late_round-Late :
      (entries : List LogEntry) (number seq next top : ℕ) (w : Walk)
      → next ≤ number
      → number ≤ top
      → Late pos.late_mark pos.seq next top w.taken
      → Late pos.late_mark pos.seq
          (suc number)
          top
          (late_round engine count filter pos entries number seq w).taken
  unfolding late_round take_late
  late_round-Late entries number seq next top w h g l =
      elim (Bool-cases (ltb pos.seq seq || leb seq pos.floor)) [
        | inl skip ↦
            rw (skip, late_round) (Late-next _ _ next (suc number) top w.taken (omega arith) l)
        | inr look ↦ elim (Option-cases (entry_of entries seq)) [
          | inl gone ↦
              rw (look, late_round)
                (rw (gone, late_round)
                  (Late-next _ _ next (suc number) top w.taken (omega arith) l))
          | inr (e, found) ↦ elim (Bool-cases (passes_late engine filter e)) [
            | inl y ↦
                rw (look, late_round)
                  (rw (found, late_round)
                    (rw (y, late_round) (Late-push _ _ next top e _ w.taken h g l)))
            | inr n ↦
                rw (look, late_round)
                  (rw (found, late_round)
                    (rw (n, late_round)
                      (Late-next _ _ next (suc number) top w.taken (omega arith) l)))
          ]
        ]
      ]

  pub record IsLatePart (top : ℕ) (es : List Taken) : Type 0 where
    pub ordered : LateThen pos.late_mark pos.seq es
    pub no_normal : has_normal es ≡ false
    pub numbered : Numbers top es

  walk_late-IsLatePart :
      (entries : List LogEntry) (late : BTreeMap) (next top : ℕ) (w : Walk)
      → Keys next late
      → Tops top late
      → Late pos.late_mark pos.seq next top w.taken
      → IsLatePart top (walk_late engine count filter pos entries late w).taken
  unfolding walk_late
  walk_late-IsLatePart entries [] next top w k g l = record {
    ordered = l.ordered;
    no_normal = l.no_normal;
    numbered = l.numbered;
  }
  walk_late-IsLatePart entries ((number, seq) ∷ late) next top w k g l =
      let w' = late_round engine count filter pos entries number seq w in
      let l' = late_round-Late entries number seq next top w k.0 g.0 l in
      elim (Bool-cases w'.exhausted) [
        | inl on ↦
            rw (on, walk_late) (walk_late-IsLatePart entries late (suc number) top w' k.1 g.1 l')
        | inr cut ↦
            rw (cut, walk_late)
              (record { ordered = l'.ordered; no_normal = l'.no_normal; numbered = l'.numbered })
      ]

  begin-Late : (top : ℕ) → Late pos.late_mark pos.seq (suc pos.late_mark) top []
  begin-Late top = record { ordered = tt; no_normal = refl; numbered = tt; below = omega arith }

  none-IsLatePart : (top : ℕ) → IsLatePart top []
  none-IsLatePart top = record { ordered = tt; no_normal = refl; numbered = tt }

  -- The late part of a read.
  pub late_part-IsLatePart :
      (s : Store)
      → IsRing s
      → pos.late_mark < u64_max
      → IsLatePart s.late_counter (late_part engine count filter pos s).taken
  unfolding late_part
  late_part-IsLatePart s v h = elim (Bool-cases (count == 0)) [
    | inl none_asked ↦ rw (none_asked, late_part) (none-IsLatePart s.late_counter)
    | inr asked ↦ elim (Bool-cases (below_every_late_seq pos.seq s.late_by_seq)) [
      | inl below ↦ rw (asked, late_part) (rw (below, late_part) (none-IsLatePart s.late_counter))
      | inr there ↦
          rw (asked, late_part)
            (rw (there, late_part)
              (walk_late-IsLatePart s.entries (late_above pos.late_mark s.late) (suc pos.late_mark)
                s.late_counter _ (late_above-Keys pos.late_mark 0 s.late h is_late.late_keys)
                (late_above-Tops pos.late_mark s.late_counter s.late (
                  numbered-Tops 0 s.late_counter s.late is_late.late_keys
                    (λ n q. is_late.numbered n q)))
                (begin-Late s.late_counter)))
    ]
  ]
    where
      is_late : IsLate s.late s.late_by_seq s.late_counter s.entries
      is_late = v.describes.2
