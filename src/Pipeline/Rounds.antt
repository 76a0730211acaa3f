-- ===== src/Pipeline/Rounds.antt =====
-- The round of visits over a list of sessions, and over those of a domain.
use logmon_mcp.Common.{
  ℕ, ◌<◌, ◌≡◌, ◌∙◌, refl, sym, ap, subst, Bool, false, ◌||◌, Option, List, [], ◌∷◌, String, any,
  arith, Bool-cases, inl, inr, u64_max,
}
use logmon_mcp.Entry.{LogEntry}
use logmon_mcp.Filter.Text.{TextEngine}
use logmon_mcp.Sessions.{SessionState, Registry}
use logmon_mcp.Sessions.Id.{SessionId, same_id, same_id-sym, get, Unique}
use logmon_mcp.Sessions.Scan.{filters_for_domain}
use logmon_mcp.Pipeline.{LogPipeline}
use logmon_mcp.Pipeline.Process.{Node, visit, visit_all}
use logmon_mcp.Pipeline.Stage.{Stage}
use logmon_mcp.Pipeline.Paced.{Paced, visit-Paced}
use logmon_mcp.Pipeline.Visits.{fired_of, insists_of, visit-Stage}

abbrev pub listed_in : SessionId → List SessionId → Bool
listed_in i ids = any (λ j. same_id i j) ids

-- No id twice.
abbrev pub Distinct : List SessionId → Type 0
Distinct [] = Unit {0}
Distinct (i ∷ ids) = (listed_in i ids ≡ false) × Distinct ids

any-Paced :
    (g : Option SessionState → Bool) (sid : SessionId) (r r' : Registry) (ids : List SessionId)
    → Paced sid r r'
    → listed_in sid ids ≡ false
    → any (λ q. g (get r' q)) ids ≡ any (λ q. g (get r q)) ids
any-Paced g sid r r' [] p h = refl
any-Paced g sid r r' (q ∷ ids) p h = elim (Bool-cases (same_id sid q)) [
  | inl s ↦ ground arith
  | inr s ↦ ground (arith, ap g (p.others q s), any-Paced g sid r r' ids p)
]

-- What a round of visits leaves.
pub record Round (engine : TextEngine) (k : ℕ) (p0 : LogPipeline) (e : LogEntry)
    (ids : List SessionId) (kept active : Bool) (n : Node) (out : Node × Bool) : Type 0 where
  pub stage :
      Stage k p0 (kept || any (λ q. fired_of engine e (get n.sessions q)) ids) out.0.pipeline
  pub answer : out.1 ≡ (active || any (λ q. insists_of engine e (get n.sessions q)) ids)
  pub others : (q : SessionId) → listed_in q ids ≡ false → get out.0.sessions q ≡ get n.sessions q
  pub same_filters :
      (d : String) → filters_for_domain out.0.sessions d ≡ filters_for_domain n.sessions d
  pub unique : Unique n.sessions → Unique out.0.sessions

or_assoc : (a b c : Bool) → ((a || b) || c) ≡ (a || (b || c))
or_assoc a b c = ground arith

or_false_both : (a b : Bool) → (a || b) ≡ false → (a ≡ false) × (b ≡ false)
or_false_both a b h = (ground arith, ground arith)

module _ (engine : TextEngine) (k : ℕ) (p0 : LogPipeline) (small : k < u64_max) (domain : String)
    (e : LogEntry) (same : e.seq ≡ k) where
  pub visit_all-Round :
      (ids : List SessionId) (kept active : Bool) (n : Node)
      → Distinct ids
      → Stage k p0 kept n.pipeline
      → Round engine k p0 e ids kept active n (visit_all engine domain e ids n active)
  unfolding visit_all
  visit_all-Round [] kept active n d st = record {
    stage = rw (or_false kept) st;
    answer = sym (or_false active);
    others = λ q h. refl;
    same_filters = λ x. refl;
    unique = λ u. u;
  }
    where
      or_false : (b : Bool) → (b || false) ≡ b
      or_false b = ground arith
  visit_all-Round (sid ∷ ids) kept active n d st =
      let first = visit engine domain e sid n active in
      let paced = visit-Paced sid engine domain e n active in
      let here = visit-Stage k p0 small engine kept active domain sid e n same st in
      let rest =
        visit_all-Round ids (kept || fired_of engine e (get n.sessions sid)) first.1 first.0 d.1
          here.0 in
      let later_fired = any-Paced (fired_of engine e) sid n.sessions _ ids paced d.0 in
      let later_insists = any-Paced (insists_of engine e) sid n.sessions _ ids paced d.0 in
      record {
        stage =
            subst (λ b. Stage k p0 b (visit_all engine domain e ids first.0 first.1).0.pipeline)
              (ap (λ b. (kept || fired_of engine e (get n.sessions sid)) || b) later_fired
                ∙ or_assoc kept (fired_of engine e (get n.sessions sid)) _)
              rest.stage;
        answer =
            rest.answer
            ∙ ap (λ b. first.1 || b) later_insists
            ∙ ap (λ b. b || any (λ q. insists_of engine e (get n.sessions q)) ids) here.1
            ∙ or_assoc active (insists_of engine e (get n.sessions sid)) _;
        others = λ q h.
            let (apart, later) = or_false_both _ _ h in
            rest.others q later ∙ paced.others q (same_id-sym sid q ∙ apart);
        same_filters = λ x. rest.same_filters x ∙ paced.same_filters x;
        unique = λ u. rest.unique (paced.unique u);
      }
