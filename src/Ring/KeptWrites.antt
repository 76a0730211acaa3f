-- ===== src/Ring/KeptWrites.antt =====
-- What one write makes of the late number of a held record.
use logmon_mcp.Common.{
  ℕ, Bool, ◌≤◌, ◌<◌, max, ◌≡◌, ◌∙◌, refl, sym, Option, none, some, List, [], ◌∷◌, true, false, leb,
  ltb, ◌==◌, length, last?, arith, Bool-cases, inl, inr, subst, u64_max, sat_suc,
}
use mathlib.Core.Bool.{false≢true}
use native.Mathlib.Decide.{dec_le}
use logmon_mcp.Ring.Append.{receive-IsRing}
use logmon_mcp.Entry.{LogEntry}
use logmon_mcp.Ring.{Store, clear, clear_through, clear_locked, refuse_below}
use logmon_mcp.Ring.Map.{bt_get}
use logmon_mcp.Ring.Order.{has_seq, last-highest, last-ne-none}
use logmon_mcp.Ring.Merge.{Apart}
use logmon_mcp.Ring.Late.{IsLate}
use logmon_mcp.Ring.Merging.{IsRing}
use logmon_mcp.Ring.Invariant.{admitted-Apart}
use logmon_mcp.Ring.Numbers.{late_seqs-All}
use logmon_mcp.Ring.Write.{
  push_back, late_seqs, merge_batch, merge_locked, insert_sorted, admitted, fresh, receive,
  push_newest, append_newest, append,
}
use logmon_mcp.Ring.Contents.{Holds, insert_sorted-Holds}
use logmon_mcp.Ring.AppendContents.{append-Holds}
use logmon_mcp.Ring.History.{Write, appends, flushes, clears, clears_through, write}
use logmon_mcp.Ring.KeptNumbers.{
  Older, evict_front-Shed, make_room-Shed, number_late-Older, not_offered,
}

pub late_of : (s : Store) → IsRing s → IsLate s.late s.late_by_seq s.late_counter s.entries
late_of s v = v.describes.2

module _ (q : ℕ) (s : Store) (v : IsRing s) where
  merge_batch-Older :
      (first : LogEntry) (rest : List LogEntry)
      → has_seq q s.entries ≡ true
      → Apart s.entries (first ∷ rest)
      → Older q s (merge_batch s first rest).0
  unfolding merge_batch push_back
  merge_batch-Older first rest h a n e = (make_room-Shed _ _ _ q (late_of s v).seq_keys).older n (
      number_late-Older _ (late_seqs s.entries (first ∷ rest)) _ q
        (late_seqs-All _ s.entries (first ∷ rest) (not_offered q s.entries (first ∷ rest) h a)) n e)

  append_newest-Older : (e : LogEntry) → Older q s (append_newest s e)
  unfolding append_newest push_newest
  append_newest-Older e n h = elim (Bool-cases (ltb e.seq (refuse_below s))) [
    | inl refused ↦ rw (refused, append_newest) at h
    | inr fits ↦ elim (Bool-cases (s.max_capacity == 0)) [
      | inl none_held ↦ rw none_held at (rw (fits, append_newest) at h)
      | inr some_held ↦ elim (Bool-cases (leb s.max_capacity (length s.entries))) [
        | inl full ↦
            (evict_front-Shed s q (late_of s v).seq_keys).older n
              (rw (full, push_newest) at (rw some_held at (rw (fits, append_newest) at h)))
        | inr room ↦ rw (room, push_newest) at (rw some_held at (rw (fits, append_newest) at h))
      ]
    ]
  ]

module _ (q : ℕ) (s : Store) (v : IsRing s) where
  merge_batch-received :
      (first : LogEntry) (rest : List LogEntry) (k : ℕ)
      → has_seq q s.entries ≡ true
      → Apart s.entries (first ∷ rest)
      → Older q s (merge_batch (receive s k) first rest).0
  merge_batch-received first rest k =
      merge_batch-Older q (receive s k) (receive-IsRing s k v) first rest

  append_newest-received : (e : LogEntry) → Older q s (append_newest (receive s 1) e)
  append_newest-received e = append_newest-Older q (receive s 1) (receive-IsRing s 1 v) e

  merge_locked_cases-Older :
      (batch kept : List LogEntry)
      → admitted s batch ≡ kept
      → has_seq q s.entries ≡ true
      → Older q s (merge_locked s batch).0
  unfolding merge_locked
  merge_locked_cases-Older batch [] e h = rw (e, merge_locked) (λ n x. x)
  merge_locked_cases-Older batch (first ∷ rest) e h =
      rw (e, merge_locked)
        (merge_batch-received first rest (length (fresh s batch)) h
          (subst (Apart s.entries) e (admitted-Apart s batch v)))

  insert_sorted-Older :
      (batch : List LogEntry) → has_seq q s.entries ≡ true → Older q s (insert_sorted s batch).0
  unfolding insert_sorted
  insert_sorted-Older batch h = merge_locked_cases-Older batch (admitted s batch) refl h

  append_cases-Older :
      (e : LogEntry) (o : Option LogEntry)
      → last? s.entries ≡ o
      → has_seq q s.entries ≡ true
      → Older q s (append s e)
  unfolding append
  append_cases-Older e none p h = rw (p, append) (append_newest-received e)
  append_cases-Older e (some newest) p h = elim (Bool-cases (ltb newest.seq e.seq)) [
    | inl above ↦ rw (p, append) (rw above (append_newest-received e))
    | inr below ↦
        rw (p, append) (rw below (merge_locked_cases-Older (e ∷ []) (admitted s (e ∷ [])) refl h))
  ]

-- What a write leaves of a seq: a record that is held keeps its late number, or its want of one, for
-- as long as it is held, and leaves only below the loss floor.
pub record After (q : ℕ) (s t : Store) : Type 0 where
  pub floor_ge : s.lost_below ≤ t.lost_below
  pub older : has_seq q s.entries ≡ true → Older q s t
  pub lost : has_seq q s.entries ≡ true → has_seq q t.entries ≡ false → q < t.lost_below
  pub gone : has_seq q s.entries ≡ false → q < s.lost_below → has_seq q t.entries ≡ false

Holds-After :
    (q : ℕ) (s t : Store) (offered : Bool)
    → Holds q s t offered
    → (has_seq q s.entries ≡ true → Older q s t)
    → After q s t
Holds-After q s t offered h o = record {
  floor_ge = h.floor_ge;
  older = o;
  lost = λ a b. ground (arith, h.contents, a, b);
  gone = λ a b. ground (arith, h.contents, a, b, h.floor_ge);
}

sat_suc_above : (k q : ℕ) → q ≤ k → q < u64_max → q < sat_suc k
unfolding sat_suc
sat_suc_above k q h g = omega (arith, h, g)

clear_locked-After : (q : ℕ) (s : Store) → q < u64_max → IsRing s → After q s (clear_locked s)
unfolding clear_locked bt_get
clear_locked-After q s small v = record {
  floor_ge = up (last? s.entries);
  older = λ h n e. cc;
  lost = λ h e. below (last? s.entries) refl h;
  gone = λ h e. refl;
}
  where
    up :
        (o : Option LogEntry)
        → s.lost_below ≤ elim o as (λ _. ℕ) [
          | none ↦ s.lost_below
          | some newest ↦ max s.lost_below (sat_suc newest.seq)
        ]
    up none = omega arith
    up (some e) = omega arith

    below :
        (o : Option LogEntry)
        → last? s.entries ≡ o
        → has_seq q s.entries ≡ true
        → q < elim o as (λ _. ℕ) [
          | none ↦ s.lost_below
          | some newest ↦ max s.lost_below (sat_suc newest.seq)
        ]
    below none p h = nothing s.entries p h
      where
        nothing : (es : List LogEntry) → last? es ≡ none → has_seq q es ≡ true → q < s.lost_below
        nothing [] p h = cc
        nothing (x ∷ es) p h = absurd (last-ne-none x es p)
    below (some e) p h = elim (dec_le q e.seq) [
      | yes le ↦ omega (arith, le, small, sat_suc_above e.seq q le small)
      | no gt ↦ absurd (
          false≢true
            (sym (last-highest s.lost_below q e s.entries v.describes.0 p (omega (arith, gt))) ∙ h))
    ]

pub write-After : (q : ℕ) (s : Store) (w : Write) → q < u64_max → IsRing s → After q s (write s w)
unfolding write clear clear_through
write-After q s (appends e) h v =
    Holds-After q s _ _ (append-Holds q s e v h) (append_cases-Older q s v e (last? s.entries) refl)
write-After q s (flushes batch) h v =
    Holds-After q s _ _ (insert_sorted-Holds q s batch v h) (insert_sorted-Older q s v batch)
write-After q s clears h v = clear_locked-After q s h v
write-After q s (clears_through n) h v =
    let a = clear_locked-After q s h v in
    record { floor_ge = a.floor_ge; older = a.older; lost = a.lost; gone = a.gone }
