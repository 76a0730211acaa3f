-- ===== src/Ring/Floor.antt =====
-- The admission floor: no write moves it, and a clear raises it.
use logmon_mcp.Common.{ℕ, zero, suc, ◌≡◌, ◌∙◌, refl, Option, List, [], ◌∷◌, length, arith}
use logmon_mcp.Entry.{LogEntry}
use logmon_mcp.Ring.{Store, lose, evict_front}
use logmon_mcp.Ring.Write.{
  evict_excess, Dropped, drop_excess, make_room, push_back, number_one, number_late, merge_batch,
  merge_locked, insert_sorted, push_newest, append_newest, append, admitted, receive, fresh,
}

admit_from-evict_front : (s : Store) → (evict_front s).admit_from ≡ s.admit_from
unfolding evict_front lose
admit_from-evict_front s = ground arith

admit_from-evict_excess : (n : ℕ) (s : Store) → (evict_excess n s).0.admit_from ≡ s.admit_from
unfolding evict_excess
admit_from-evict_excess zero s = refl
admit_from-evict_excess (suc n) s =
    ground (arith, admit_from-evict_excess n (evict_front s), admit_from-evict_front s)

admit_from-drop_excess :
    (n : ℕ) (d : Dropped) (merged : List LogEntry)
    → (drop_excess n d merged).store.admit_from ≡ d.store.admit_from
unfolding drop_excess lose
admit_from-drop_excess zero d merged = refl
admit_from-drop_excess (suc n) d [] = refl
admit_from-drop_excess (suc n) d (e ∷ merged) = admit_from-drop_excess n _ merged

admit_from-number_late :
    (through : Option ℕ) (seqs : List ℕ) (s : Store)
    → (number_late through seqs s).admit_from ≡ s.admit_from
unfolding number_late number_one
admit_from-number_late through [] s = refl
admit_from-number_late through (q ∷ seqs) s = ground (
  arith,
  admit_from-number_late through seqs s,
  admit_from-number_late through seqs (number_one s q),
)

admit_from-make_room :
    (n : ℕ) (merged : List LogEntry) (s : Store)
    → (make_room n merged s).store.admit_from ≡ s.admit_from
unfolding make_room
admit_from-make_room n merged s =
    admit_from-drop_excess (evict_excess n s).1 _ merged ∙ admit_from-evict_excess n s

admit_from-merge_batch :
    (s : Store) (first : LogEntry) (rest : List LogEntry)
    → (merge_batch s first rest).0.admit_from ≡ s.admit_from
unfolding merge_batch push_back
admit_from-merge_batch s first rest = admit_from-number_late _ _ _ ∙ admit_from-make_room _ _ _

merge_locked_cases :
    (s : Store) (batch kept : List LogEntry)
    → admitted s batch ≡ kept
    → (merge_locked s batch).0.admit_from ≡ s.admit_from
unfolding merge_locked
merge_locked_cases s batch [] e = rw (e, merge_locked)
merge_locked_cases s batch (first ∷ rest) e =
    rw (e, merge_locked) (admit_from-merge_batch (receive s (length (fresh s batch))) first rest)

admit_from-merge_locked :
    (s : Store) (batch : List LogEntry) → (merge_locked s batch).0.admit_from ≡ s.admit_from
admit_from-merge_locked s batch = merge_locked_cases s batch (admitted s batch) refl

pub admit_from-insert_sorted :
    (s : Store) (batch : List LogEntry) → (insert_sorted s batch).0.admit_from ≡ s.admit_from
unfolding insert_sorted
admit_from-insert_sorted s batch = admit_from-merge_locked s batch

admit_from-append_newest :
    (s : Store) (e : LogEntry) → (append_newest s e).admit_from ≡ s.admit_from
unfolding append_newest push_newest
admit_from-append_newest s e = ground (arith, admit_from-evict_front s)

pub admit_from-append : (s : Store) (e : LogEntry) → (append s e).admit_from ≡ s.admit_from
unfolding append
admit_from-append s e =
    ground (arith, admit_from-append_newest (receive s 1) e, admit_from-merge_locked s (e ∷ []))
