-- ===== src/Ring/CursorAdvance.antt =====
-- Where `advance_for` moves the cursor: behind it all that was kept, ahead of it all that was not.
use logmon_mcp.Common.{
  ℕ, ◌≤◌, max, min, ◌≡◌, ◌∙◌, refl, sym, ap, subst, true, false, ◌&&◌, none, some, List, [], ◌∷◌,
  ◌++◌, ◌==◌, if◌then◌else◌, length, take, drop, last?, All, arith, Option-cases, Bool-cases, inl,
  inr, take-append-drop,
}
use logmon_mcp.Ring.Cursor.{
  LateTag, CursorRead, CursorAdvance, late_tags, advance_whole, advance_part, advance_for,
}
use logmon_mcp.Ring.CursorOnce.{
  Taken, Normals, LateThen, Behind, Ahead, has_normal, Numbers, last_number, whole-Behind,
  highest_normal-ge, whole-Ahead, part-Behind, part-Ahead,
}

-- A cursor read as `cursor_read` gives it: late records first, by number, then normal ones, which a
-- late part that was cut leaves out.
pub record IsRead (r : CursorRead) : Type 0 where
  pub ordered : LateThen r.pos.late_mark r.pos.seq r.entries
  pub numbered : Numbers r.late_counter r.entries
  pub cut : r.late_exhausted ≡ false → has_normal r.entries ≡ false

Numbers-take : (a b : ℕ) (xs ys : List Taken) → a ≤ b → Numbers a (xs ++ ys) → Numbers b xs
Numbers-take a b [] ys h n = tt
Numbers-take a b ((e, none) ∷ xs) ys h n = Numbers-take a b xs ys h n
Numbers-take a b ((e, some t) ∷ xs) ys h n = (omega (arith, n.0, h), Numbers-take a b xs ys h n.1)

has_normal-take : (xs ys : List Taken) → has_normal (xs ++ ys) ≡ false → has_normal xs ≡ false
has_normal-take [] ys h = refl
has_normal-take ((e, none) ∷ xs) ys h = h
has_normal-take ((e, some t) ∷ xs) ys h = has_normal-take xs ys h

Normals-late_tags : (seq : ℕ) (es : List Taken) → Normals seq es → late_tags es ≡ []
unfolding late_tags
Normals-late_tags seq [] n = refl
Normals-late_tags seq ((e, none) ∷ es) n = Normals-late_tags e.seq es n.1
Normals-late_tags seq ((e, some t) ∷ es) n = absurd n

Normals-left : (seq : ℕ) (xs ys : List Taken) → Normals seq (xs ++ ys) → Normals seq xs
Normals-left seq [] ys n = tt
Normals-left seq ((e, none) ∷ xs) ys n = (n.0, Normals-left e.seq xs ys n.1)
Normals-left seq ((e, some t) ∷ xs) ys n = absurd n

-- Once a normal record is kept, so is the whole late part.
all_late :
    (mark seq : ℕ) (xs ys : List Taken)
    → LateThen mark seq (xs ++ ys)
    → has_normal xs ≡ true
    → length (late_tags xs) ≡ length (late_tags (xs ++ ys))
unfolding late_tags
all_late mark seq [] ys s h = cc
all_late mark seq ((e, none) ∷ xs) ys s h = ap length (
    Normals-late_tags e.seq xs (Normals-left e.seq xs ys s.1)
    ∙ sym (Normals-late_tags e.seq (xs ++ ys) s.1))
all_late mark seq ((e, some t) ∷ xs) ys s h = omega (arith, all_late t.number seq xs ys s.1 h)

last_number-late_tags :
    (mark : ℕ) (xs : List Taken)
    → elim (last? (late_tags xs)) as (λ _. ℕ) [ none ↦ mark | some t ↦ t.number ]
      ≡ last_number mark xs
unfolding late_tags
last_number-late_tags mark [] = refl
last_number-late_tags mark ((e, none) ∷ xs) = last_number-late_tags mark xs
last_number-late_tags mark ((e, some t) ∷ xs) =
    after_one t (late_tags xs) ∙ last_number-late_tags t.number xs
  where
    after_one :
        (t : LateTag) (ts : List LateTag)
        → elim (last? (t ∷ ts)) as (λ _. ℕ) [ none ↦ mark | some u ↦ u.number ]
          ≡ elim (last? ts) as (λ _. ℕ) [ none ↦ t.number | some u ↦ u.number ]
    after_one t [] = refl
    after_one t (u ∷ []) = refl
    after_one t (u ∷ v ∷ ts) = after_last u v ts
      where
        after_last :
            (u v : LateTag) (ts : List LateTag)
            → elim (last? (u ∷ v ∷ ts)) as (λ _. ℕ) [ none ↦ mark | some w ↦ w.number ]
              ≡ elim (last? (u ∷ v ∷ ts)) as (λ _. ℕ) [ none ↦ t.number | some w ↦ w.number ]
        after_last u v [] = refl
        after_last u v (w ∷ ts) = after_last v w ts

-- Kept behind the new position, not kept ahead of it. The position does not fall, and a cursor that
-- keeps a normal record passes every late number given out.
pub record Parted (r : CursorRead) (adv : CursorAdvance) (kept left : List Taken) : Type 0 where
  pub onward : r.pos.seq ≤ adv.seq
  pub past_all : has_normal kept ≡ true → r.late_counter ≤ adv.late_mark
  pub behind : All (Behind adv.seq adv.late_mark) kept
  pub ahead : All (Ahead adv.seq adv.late_mark) left

advance_part-eq :
    (r : CursorRead) (xs : List Taken)
    → ((advance_part r (late_tags xs)).seq ≡ r.pos.seq)
      × ((advance_part r (late_tags xs)).late_mark ≡ last_number r.pos.late_mark xs)
unfolding advance_part
advance_part-eq r xs = elim (Option-cases (last? (late_tags xs))) [
  | inl h ↦ rw (h, advance_part) (refl, rw h at (last_number-late_tags r.pos.late_mark xs))
  | inr (t, h) ↦ rw (h, advance_part) (refl, rw h at (last_number-late_tags r.pos.late_mark xs))
]

advance_part-Parted :
    (r : CursorRead) (xs ys : List Taken)
    → r.entries ≡ xs ++ ys
    → IsRead r
    → has_normal xs ≡ false
    → Parted r (advance_part r (late_tags xs)) xs ys
advance_part-Parted r xs ys e v h =
    let s : LateThen r.pos.late_mark r.pos.seq (xs ++ ys) = subst (LateThen _ _) e v.ordered in
    let (seq-eq, mark-eq) = advance_part-eq r xs in
    record {
      onward = rw seq-eq (omega arith);
      past_all = λ k. absurd (kept_none k);
      behind = rw (seq-eq, mark-eq) (part-Behind r.pos.late_mark r.pos.seq xs ys s h);
      ahead = rw (seq-eq, mark-eq) (part-Ahead r.pos.late_mark r.pos.seq xs ys s h);
    }
  where
    kept_none : has_normal xs ≡ true → ⊥
    kept_none k = cc

advance_whole-Parted :
    (r : CursorRead) (xs ys : List Taken)
    → r.entries ≡ xs ++ ys
    → IsRead r
    → length (late_tags xs) ≡ length (late_tags (xs ++ ys))
    → Parted r (advance_whole r xs) xs ys
unfolding advance_whole
advance_whole-Parted r xs ys e v h = record {
  onward = highest_normal-ge r.pos.seq xs;
  past_all = λ k. omega arith;
  behind = whole-Behind r.pos.seq (max r.late_counter r.pos.late_mark) xs (
      Numbers-take r.late_counter (max r.late_counter r.pos.late_mark) xs ys (omega arith)
        (subst (Numbers _) e v.numbered));
  ahead =
      whole-Ahead r.pos.late_mark r.pos.seq (max r.late_counter r.pos.late_mark) xs ys
        (subst (LateThen _ _) e v.ordered) h;
}

split_at :
    (r : CursorRead) (xs ys : List Taken)
    → r.entries ≡ xs ++ ys
    → IsRead r
    → Parted r
        (if r.late_exhausted && length (late_tags xs) == length (late_tags r.entries)
          then advance_whole r xs
          else advance_part r (late_tags xs))
        xs
        ys
split_at r xs ys e v =
    elim (Bool-cases (r.late_exhausted && length (late_tags xs) == length (late_tags r.entries))) [
      | inl whole ↦ rw whole (
          advance_whole-Parted r xs ys e v
            (ground (arith, whole, ap (λ l. length (late_tags l)) e)))
      | inr part ↦ rw part (advance_part-Parted r xs ys e v (no_normal part))
    ]
  where
    no_normal :
        (r.late_exhausted && length (late_tags xs) == length (late_tags r.entries)) ≡ false
        → has_normal xs ≡ false
    no_normal part = elim (Bool-cases (has_normal xs)) [
      | inr h ↦ h
      | inl h ↦ elim (Bool-cases r.late_exhausted) [
        | inr c ↦ has_normal-take xs ys (subst (λ l. has_normal l ≡ false) e (v.cut c))
        | inl c ↦ ground (
          arith,
          part,
          c,
          all_late r.pos.late_mark r.pos.seq xs ys (subst (LateThen _ _) e v.ordered) h,
          ap (λ l. length (late_tags l)) e,
        )
      ]
    ]

-- After a read, for any number `kept` of the records taken, the cursor moves so that each record
-- kept is behind it and each record that was taken and not kept is ahead of it: a normal record by
-- its seq, a late one by its number.
pub advance_for-Parted :
    (r : CursorRead) (kept : ℕ)
    → IsRead r
    → (let n = min kept (length r.entries) in
        Parted r (advance_for r kept) (take n r.entries) (drop n r.entries))
unfolding advance_for
advance_for-Parted r kept v =
    let n = min kept (length r.entries) in
    split_at r (take n r.entries) (drop n r.entries) (sym (take-append-drop n r.entries)) v
