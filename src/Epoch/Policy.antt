-- ===== src/Epoch/Policy.antt =====
-- `FilterPolicy::new` keeps the policy.

use text.Mathlib.Text.{◌==◌ as str_eq}
use text.Mathlib.TextEquality.{eq_iff}
use logmon_mcp.Common.{
  ◌≡◌, ◌∙◌, refl, ap, Bool, List, [], ◌∷◌, String, any, arith, Bool-cases, inl, inr,
}
use logmon_mcp.Epoch.{insert_text, sort_texts, dedup_text_after, dedup_texts, new_policy}

abbrev pub has_text : String → List String → Bool
has_text f fs = any (λ g. str_eq g f) fs

has_text-insert :
    (q f : String) (fs : List String) → has_text q (insert_text f fs) ≡ has_text q (f ∷ fs)
unfolding insert_text
has_text-insert q f [] = refl
has_text-insert q f (g ∷ gs) = ground (arith, has_text-insert q f gs)

has_text-sort : (q : String) (fs : List String) → has_text q (sort_texts fs) ≡ has_text q fs
unfolding sort_texts
has_text-sort q [] = refl
has_text-sort q (f ∷ fs) = ground (arith, has_text-insert q f (sort_texts fs), has_text-sort q fs)

has_text-dedup_after :
    (q f : String) (fs : List String) → has_text q (dedup_text_after f fs) ≡ has_text q (f ∷ fs)
unfolding dedup_text_after
has_text-dedup_after q f [] = refl
has_text-dedup_after q f (g ∷ gs) = elim (Bool-cases (str_eq f g)) [
  | inl same ↦
      ground (arith, has_text-dedup_after q f gs, ap (λ t. str_eq t q) ((eq_iff f g).0 same))
  | inr other ↦ ground (arith, has_text-dedup_after q g gs)
]

-- A policy has exactly the filter strings that it is made from.
pub has_text-new_policy :
    (q : String) (fs : List String) → has_text q (new_policy fs).filters ≡ has_text q fs
unfolding new_policy dedup_texts
has_text-new_policy q fs = deduped (sort_texts fs) ∙ has_text-sort q fs
  where
    deduped : (gs : List String) → has_text q (dedup_texts gs) ≡ has_text q gs
    deduped [] = refl
    deduped (g ∷ gs) = has_text-dedup_after q g gs
