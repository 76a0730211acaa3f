-- ===== src/Ring/Numbers.antt =====
-- The numbering of the records stored late.
use logmon_mcp.Common.{
  ℕ, suc, ◌+◌, ◌<◌, ◌≡◌, refl, true, Option, none, List, [], ◌∷◌, map, All, last?, arith,
  Option-cases, ◌⊎◌, inl, inr, Bool-cases,
}
use logmon_mcp.Common.Ascending.{Asc, Asc-mono}
use logmon_mcp.Entry.{LogEntry}
use logmon_mcp.Ring.{Store}
use logmon_mcp.Ring.Map.{bt_get, bt_get-insert}
use logmon_mcp.Ring.Write.{number_one, number_late, is_dropped, take_below, late_seqs}
use logmon_mcp.Ring.Order.{From, has_seq}
use logmon_mcp.Ring.Late.{number-IsLate}
use logmon_mcp.Ring.Steps.{Describes}

abbrev Unnumbered : Store → List ℕ → Type 0
Unnumbered s seqs = All (λ q. bt_get s.late_by_seq q ≡ none) seqs

Unnumbered-number_one :
    (n q : ℕ) (s : Store) (seqs : List ℕ)
    → q < n
    → Asc n seqs
    → Unnumbered s seqs
    → Unnumbered (number_one s q) seqs
unfolding number_one
Unnumbered-number_one n q s [] h a u = tt
Unnumbered-number_one n q s (x ∷ seqs) h a u = (
  ground (arith, bt_get-insert s.late_by_seq q (s.late_counter + 1) x),
  Unnumbered-number_one (suc x) q s seqs (omega (arith, a.0)) a.1 u.1,
)

-- What a list of late seqs must be for their numbering to keep the maps.
pub record Ready (es : List LogEntry) (through : Option ℕ) (s : Store) (seqs : List ℕ)
    : Type 0 where
  pub ascending : Asc 0 seqs
  pub present : All (λ q. (is_dropped through q ≡ true) ⊎ (has_seq q es ≡ true)) seqs
  pub unnumbered : Unnumbered s seqs

number_one-Describes :
    (s : Store) (es : List LogEntry) (q : ℕ)
    → Describes s es
    → has_seq q es ≡ true
    → bt_get s.late_by_seq q ≡ none
    → Describes (number_one s q) es
unfolding number_one
number_one-Describes s es q (f, i, l) h u = (f, i, number-IsLate _ _ _ q es l h u)

pub number_late-Describes :
    (es : List LogEntry) (through : Option ℕ) (s : Store) (seqs : List ℕ)
    → Describes s es
    → Ready es through s seqs
    → Describes (number_late through seqs s) es
unfolding number_late
number_late-Describes es through s [] d r = d
number_late-Describes es through s (q ∷ seqs) d r = elim (Bool-cases (is_dropped through q)) [
  | inl gone ↦
      rw (gone, number_late)
        (number_late-Describes es through s seqs d (record {
          ascending = Asc-mono 0 (suc q) seqs (omega arith) r.ascending.1;
          present = r.present.1;
          unnumbered = r.unnumbered.1;
        }))
  | inr kept ↦
      rw (kept, number_late)
        (number_late-Describes es through (number_one s q) seqs
          (number_one-Describes s es q d (ground arith) r.unnumbered.0)
          (record {
            ascending = Asc-mono 0 (suc q) seqs (omega arith) r.ascending.1;
            present = r.present.1;
            unnumbered =
                Unnumbered-number_one (suc q) q s seqs (omega arith) r.ascending.1 r.unnumbered.1;
          }))
]

pub entries-number_late :
    (through : Option ℕ) (seqs : List ℕ) (s : Store)
    → (number_late through seqs s).entries ≡ s.entries
      × (number_late through seqs s).max_capacity ≡ s.max_capacity
unfolding number_late number_one
entries-number_late through [] s = (refl, refl)
entries-number_late through (q ∷ seqs) s =
    ground
      (arith, entries-number_late through seqs s, entries-number_late through seqs (number_one s q))

pub lost_below-number_late :
    (through : Option ℕ) (seqs : List ℕ) (s : Store)
    → (number_late through seqs s).lost_below ≡ s.lost_below
unfolding number_late number_one
lost_below-number_late through [] s = refl
lost_below-number_late through (q ∷ seqs) s = ground (
  arith,
  lost_below-number_late through seqs s,
  lost_below-number_late through seqs (number_one s q),
)

take_below-All : (P : ℕ → Type 0) (n : ℕ) (seqs : List ℕ) → All P seqs → All P (take_below n seqs)
unfolding take_below
take_below-All P n [] h = tt
take_below-All P n (q ∷ seqs) h = ground (arith, take_below-All P n seqs h.1)

take_below-Asc : (k n : ℕ) (seqs : List ℕ) → Asc k seqs → Asc k (take_below n seqs)
unfolding take_below
take_below-Asc k n [] h = tt
take_below-Asc k n (q ∷ seqs) h = ground (arith, take_below-Asc (suc q) n seqs h.1)

seqs-All :
    (P : ℕ → Type 0) (es : List LogEntry) → All (λ e. P e.seq) es → All P (map (λ e. e.seq) es)
seqs-All P [] h = tt
seqs-All P (e ∷ es) h = (h.0, seqs-All P es h.1)

seqs-Asc : (n : ℕ) (es : List LogEntry) → From n es → Asc n (map (λ e. e.seq) es)
seqs-Asc n [] f = tt
seqs-Asc n (e ∷ es) f = (f.0, seqs-Asc (suc e.seq) es f.1)

pub late_seqs-All :
    (P : ℕ → Type 0) (entries batch : List LogEntry)
    → All (λ e. P e.seq) batch
    → All P (late_seqs entries batch)
unfolding late_seqs
late_seqs-All P entries batch h = elim (Option-cases (last? entries)) [
  | inl e ↦ rw (e, late_seqs) tt
  | inr (x, e) ↦ rw (e, late_seqs) (take_below-All P x.seq _ (seqs-All P batch h))
]

pub late_seqs-Asc :
    (n : ℕ) (entries batch : List LogEntry) → From n batch → Asc n (late_seqs entries batch)
unfolding late_seqs
late_seqs-Asc n entries batch f = elim (Option-cases (last? entries)) [
  | inl e ↦ rw (e, late_seqs) tt
  | inr (x, e) ↦ rw (e, late_seqs) (take_below-Asc n x.seq _ (seqs-Asc n batch f))
]
