-- ===== src/Pipeline/Tests.antt =====
-- app/pipeline: the policy, the gates and the states on concrete rows.
use range_apply.Common.{All, [], arith, false, none, refl, some, true, ◌↔◌, ◌∷◌, ◌≡◌}
use range_apply.Core.Errors.{Result}
use range_apply.Pipeline.Gates.{GateInput, evaluate_admission, is_blocked}
use range_apply.Pipeline.Gates.Codes.{evaluate_admission-code, first_failure}
use range_apply.Pipeline.Gates.Report.{MeetsPolicy, evaluate_admission_iff}
use range_apply.Pipeline.Models.{
  DuplicatePolicy, EligibilityDecision, FitBand, OpportunityState, OpportunityStatus,
}
use range_apply.Pipeline.Policy.{ApplicationPolicy, fit_band_config}
use range_apply.Pipeline.Policy.Bands.{IsExact, fit_band_config-IsExact}
use range_apply.Pipeline.Repository.{moved_row, state_event, transition}
use range_apply.Pipeline.Repository.History.{Reaches, Reaches-past_submission, is_past_submission}
use range_apply.Pipeline.Rows.{CandidateOpportunityRow}

abbrev some_policy : ApplicationPolicy
some_policy = record {
  tenant_id = "t";
  enabled_bands = FitBand.high ∷ FitBand.medium ∷ [];
  band_thresholds = [];
  daily_cap = 5;
  weekly_cap = 20;
  tailoring_by_band = [];
  lane_by_band = [];
  cover_letter_by_band = [];
  cooldown_days = 30;
  blocked_companies = [];
  minimum_eligibility = EligibilityDecision.likely;
  duplicate_policy = DuplicatePolicy.block;
  minimum_fit_score = none;
  timezone = "UTC";
  version = 1;
}

abbrev good_input : GateInput
good_input = record {
  decision = some EligibilityDecision.eligible;
  fit_band = some FitBand.high;
  company = some "Acme";
  fit_score = some 80;
  opportunity_status = some OpportunityStatus.opened;
  candidate_state = some OpportunityState.eligible;
  geography = none;
  role = none;
}

evaluate_admission_iff_example :
    ((evaluate_admission (λ c. c) some_policy good_input).admitted ≡ true)
    ↔ MeetsPolicy some_policy (is_blocked (λ c. c) some_policy (some "Acme")) good_input
evaluate_admission_iff_example = evaluate_admission_iff (λ c. c) some_policy good_input

evaluate_admission-code_example :
    (evaluate_admission (λ c. c) some_policy good_input).code
    ≡ first_failure false false true false false
        (is_blocked (λ c. c) some_policy (some "Acme"))
        false
        false
        true
        false
        false
evaluate_admission-code_example = evaluate_admission-code (λ c. c) some_policy good_input

fit_band_config-IsExact_example : All (IsExact some_policy 60) (fit_band_config some_policy).bands
fit_band_config-IsExact_example =
    fit_band_config-IsExact some_policy 60 (ground arith) (ground arith) (ground arith)

abbrev submitted_row : CandidateOpportunityRow
submitted_row = record {
  id = "c1";
  tenant_id = "t";
  opportunity_id = "o1";
  state = OpportunityState.submitted;
  eligibility_status = none;
  fit_score = none;
  fit_band = none;
  priority_score = none;
  skipped_reason = none;
  state_changed_at = none;
}

offer_run :
    transition submitted_row OpportunityState.verified "u" 7 none false
    ≡ Result.ok (
      moved_row submitted_row OpportunityState.verified 7 none,
      some (state_event submitted_row OpportunityState.verified "u" 7 none),
    )
unfolding transition
offer_run = refl

Reaches-past_submission_example :
    is_past_submission (moved_row submitted_row OpportunityState.verified 7 none).state ≡ true
Reaches-past_submission_example =
    Reaches-past_submission
      (Reaches.change OpportunityState.verified "u" 7 none Reaches.origin offer_run) refl

good_run : (evaluate_admission (λ c. c) some_policy good_input).admitted ≡ true
unfolding evaluate_admission is_blocked
good_run = refl
