-- ===== src/Epoch.antt =====
-- crates/core/src/engine/epoch.rs: the record over time of the storage policy of a domain, and the
-- verdict on a range read. `observe` runs under the domain's ingest order, its read lock and its
-- write lock as one step.
mod Tests
pub mod Policy
pub mod Log
pub mod Verdict
use Prim.Native.String.{compare as str_compare}
use text.Mathlib.Text.{◌==◌ as str_eq}
use logmon_mcp.Common.{
  ℕ, zero, suc, ◌+◌, ◌-◌, max, min, Bool, true, false, not, ◌&&◌, ◌||◌, Option, none, some, List,
  [], ◌∷◌, ◌++◌, String, Ordering, ltb, leb, if◌then◌else◌, length, drop, last?, u64_max,
}

-- `FilterPolicy`.
pub record FilterPolicy : Type 0 where
  pub filters : List String

-- `sort_unstable` on strings; equal strings are the same, so the sort may as well be stable.
unfoldable pub insert_text : String → List String → List String
insert_text f [] = f ∷ []
insert_text f (g ∷ gs) = elim (str_compare f g) [
  | Ordering.gt ↦ g ∷ insert_text f gs
  | _ ↦ f ∷ g ∷ gs
]

unfoldable pub sort_texts : List String → List String
sort_texts [] = []
sort_texts (f ∷ fs) = insert_text f (sort_texts fs)

unfoldable pub dedup_text_after : String → List String → List String
dedup_text_after f [] = f ∷ []
dedup_text_after f (g ∷ gs) = elim (str_eq f g) [
  | true ↦ dedup_text_after f gs
  | false ↦ f ∷ dedup_text_after g gs
]

unfoldable pub dedup_texts : List String → List String
dedup_texts [] = []
dedup_texts (f ∷ fs) = dedup_text_after f fs

-- `FilterPolicy::new`.
unfoldable pub new_policy : List String → FilterPolicy
new_policy filters = record { filters = dedup_texts (sort_texts filters) }

unfoldable pub is_filtered : FilterPolicy → Bool
is_filtered p = elim p.filters [ [] ↦ false | f ∷ fs ↦ true ]

unfoldable pub same_texts : List String → List String → Bool
same_texts [] [] = true
same_texts [] (g ∷ gs) = false
same_texts (f ∷ fs) [] = false
same_texts (f ∷ fs) (g ∷ gs) = str_eq f g && same_texts fs gs

-- The derived `PartialEq`.
unfoldable pub same_policy : FilterPolicy → FilterPolicy → Bool
same_policy p q = same_texts p.filters q.filters

pub record Epoch : Type 0 where
  pub seq_at_flip : ℕ
  pub policy : FilterPolicy

pub record NarrowedSpan : Type 0 where
  pub from_seq : ℕ
  pub to_seq : ℕ
  pub filters : List String

pub record EpochCoverage : Type 0 where
  pub covered : Bool
  pub narrowed : List NarrowedSpan

pub record EpochLog : Type 0 where
  pub epochs : List Epoch
  pub origin_seq : ℕ

abbrev pub epoch_capacity : ℕ
epoch_capacity = 1_024

unfoldable pub new : ℕ → EpochLog
new origin_seq = record { epochs = []; origin_seq = origin_seq }

-- The new epoch goes to the back, and the oldest are dropped while there are too many.
unfoldable pub open_epoch : EpochLog → ℕ → FilterPolicy → EpochLog
open_epoch log seq_at_flip policy =
    let epochs = log.epochs ++ record { seq_at_flip = seq_at_flip; policy = policy } ∷ [] in
    record log { epochs = drop (length epochs - epoch_capacity) epochs }

unfoldable pub observe : EpochLog → ℕ → FilterPolicy → EpochLog
observe log seq policy = elim (last? log.epochs) [
  | none ↦ open_epoch log log.origin_seq policy
  | some last ↦
      if same_policy last.policy policy
      then log
      else open_epoch log (max seq last.seq_at_flip) policy
]

-- Where the epoch before the rest ends.
unfoldable pub epoch_end : List Epoch → ℕ
epoch_end [] = u64_max
epoch_end (next ∷ es) = next.seq_at_flip - 1

-- The loop of `coverage`.
unfoldable pub narrowed_by : ℕ → ℕ → List Epoch → List NarrowedSpan
narrowed_by from to [] = []
narrowed_by from to (epoch ∷ es) =
    let rest = narrowed_by from to es in
    if ltb to epoch.seq_at_flip || ltb (epoch_end es) from
    then rest
    else if is_filtered epoch.policy
    then record {
      from_seq = max epoch.seq_at_flip from;
      to_seq = min (epoch_end es) to;
      filters = epoch.policy.filters;
    }
      ∷ rest
    else rest

unfoldable pub coverage : EpochLog → ℕ → ℕ → EpochCoverage
coverage log from to = elim log.epochs [
  | [] ↦ record { covered = false; narrowed = [] }
  | first ∷ es ↦ record {
    covered = leb first.seq_at_flip from;
    narrowed = narrowed_by from to (first ∷ es);
  }
]

-- `EvidenceVerdict` of crates/protocol/src/methods.rs.
pub data EvidenceVerdict : Type 0 where
  complete evicted filtered cannot_verify : EvidenceVerdict

unfoldable pub evidence_verdict : Option EpochCoverage → Bool → Bool → EvidenceVerdict
evidence_verdict none was_evicted capped = EvidenceVerdict.cannot_verify
evidence_verdict (some c) was_evicted capped =
    if not c.covered || capped then EvidenceVerdict.cannot_verify else elim c.narrowed [
      | s ∷ ss ↦ EvidenceVerdict.filtered
      | [] ↦ if was_evicted then EvidenceVerdict.evicted else EvidenceVerdict.complete
    ]
