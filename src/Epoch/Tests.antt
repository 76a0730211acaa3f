-- ===== src/Epoch/Tests.antt =====
-- Witnesses for the epoch log.
use logmon_mcp.Common.{◌≡◌, refl, false, some, [], ◌∷◌, arith}
use logmon_mcp.Epoch.{
  FilterPolicy, new_policy, is_filtered, sort_texts, insert_text, dedup_texts, dedup_text_after,
  same_policy, same_texts, EpochLog, new, observe, open_epoch, coverage, narrowed_by, epoch_end,
  evidence_verdict, EvidenceVerdict,
}
use logmon_mcp.Epoch.Log.{IsLog, Begun, policy_at, observe-policy_at}
use logmon_mcp.Epoch.Verdict.{Vouched, evidence_verdict-complete}

abbrev everything : FilterPolicy
everything = new_policy []

abbrev errors : FilterPolicy
errors = new_policy ("l>=ERROR" ∷ "service:auth" ∷ "l>=ERROR" ∷ [])

new-IsLog : IsLog (new 10)
unfolding new
new-IsLog = record { flips = tt; bounded = omega arith }

-- Unfiltered from 10, filtered from 20.
abbrev log : EpochLog
log = observe (observe (new 10) 12 everything) 20 errors

log_complete : evidence_verdict (some (coverage log 11 19)) false false ≡ EvidenceVerdict.complete
unfolding evidence_verdict coverage narrowed_by epoch_end observe open_epoch new same_policy
    same_texts new_policy sort_texts insert_text dedup_texts dedup_text_after is_filtered
log_complete = refl

log_filtered : evidence_verdict (some (coverage log 11 20)) false false ≡ EvidenceVerdict.filtered
unfolding evidence_verdict coverage narrowed_by epoch_end observe open_epoch new same_policy
    same_texts new_policy sort_texts insert_text dedup_texts dedup_text_after is_filtered
log_filtered = refl

evidence_verdict-complete_example : Vouched log 15 × (false ≡ false) × (false ≡ false)
evidence_verdict-complete_example =
    evidence_verdict-complete log 11 19 15 false false log_complete (omega arith) (omega arith)
      (omega arith)

log-Begun : Begun 31 log.epochs
unfolding observe open_epoch new same_policy same_texts new_policy sort_texts insert_text
    dedup_texts dedup_text_after
log-Begun = (omega arith, (omega arith, tt))

log_origin : log.origin_seq ≡ 10
unfolding observe open_epoch new same_policy same_texts new_policy sort_texts insert_text
    dedup_texts dedup_text_after
log_origin = refl

observe-policy_at_example : policy_at (observe log 30 everything).epochs 31 ≡ some everything
observe-policy_at_example =
    observe-policy_at log 30 31 everything (omega (arith, log_origin)) (omega arith) log-Begun
