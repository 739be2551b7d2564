-- ===== src/Pipeline/Gates.antt =====
-- app/pipeline/gates.py and `evaluate_admission` of app/pipeline/policy.py. The readable details are
-- not modelled. `company_key` is a parameter: it rests on `unicodedata` and `re`.
pub mod Report
pub mod Codes
use mathlib.Core.Option
use range_apply.Common.{
  Bool, List, Option, String, [], any_of, false, find_first, if◌then◌else◌, is_some, ltb, none, not,
  some, str_eq, true, ℕ, ◌&&◌, ◌==◌, ◌||◌, ◌∷◌,
}
use range_apply.Pipeline.Models.{
  AdmissionReason, EligibilityDecision, FitBand, Lane, OpportunityState, OpportunityStatus,
  TailoringLevel, eligibility_rank, state_place, status_place,
}
use range_apply.Pipeline.Policy.{ApplicationPolicy, is_enabled, lane_for, tailoring_for}

pub data Gate : Type 0 where
  candidate_skip opening_open evaluated hard_eligibility minimum_eligibility : Gate
  company_blocklist geography role_relevance fit_scored band_enabled fit_floor : Gate
  not_already_submitted no_duplicate_application candidate_info_complete evidence_resolved : Gate
  application_supported : Gate

-- `GeoAssessment` and `RoleAssessment`, of which the gates read one field.
pub record GeoAssessment : Type 0 where
  pub in_policy : Bool

pub record RoleAssessment : Type 0 where
  pub in_policy : Bool
  pub relevance_rank : ℕ

pub record GateResult : Type 0 where
  pub gate : Gate
  pub passed : Bool
  pub code : AdmissionReason

pub record GateReport : Type 0 where
  pub policy_version : ℕ
  pub results : List GateResult

-- `GateReport.failed`
abbrev pub failed_gate : GateReport → Option GateResult
failed_gate report = find_first (λ r. not r.passed) report.results

-- `GateReport.passed`
abbrev pub all_passed : GateReport → Bool
all_passed report = not (any_of (λ r. not r.passed) report.results)

-- `GateReport.code`
abbrev pub report_code : GateReport → AdmissionReason
report_code report = elim (failed_gate report) [ none ↦ AdmissionReason.admitted | some r ↦ r.code ]

-- What `evaluate_gates` and `evaluate_admission` are called with.
pub record GateInput : Type 0 where
  pub decision : Option EligibilityDecision
  pub fit_band : Option FitBand
  pub company : Option String
  pub fit_score : Option ℕ
  pub opportunity_status : Option OpportunityStatus
  pub candidate_state : Option OpportunityState
  pub geography : Option GeoAssessment
  pub role : Option RoleAssessment

abbrev pub state_is : OpportunityState → Option OpportunityState → Bool
state_is s none = false
state_is s (some t) = state_place t == state_place s

abbrev pub is_skipped : GateInput → Bool
is_skipped i = state_is OpportunityState.skipped i.candidate_state

abbrev pub is_closed : GateInput → Bool
is_closed i =
    elim i.opportunity_status [
      | none ↦ false
      | some s ↦ status_place s == status_place OpportunityStatus.closed
    ]
    || state_is OpportunityState.closed i.candidate_state

abbrev pub is_ineligible : GateInput → Bool
is_ineligible i = elim i.decision [
  | none ↦ false
  | some d ↦ elim d [ EligibilityDecision.ineligible ↦ true | _ ↦ false ]
]

abbrev pub is_below_minimum : ApplicationPolicy → GateInput → Bool
is_below_minimum policy i = elim i.decision [
  | none ↦ false
  | some d ↦
      not (is_ineligible i)
      && ltb (eligibility_rank d) (eligibility_rank policy.minimum_eligibility)
]

abbrev pub is_outside : GateInput → Bool
is_outside i = elim i.geography [ none ↦ false | some g ↦ not g.in_policy ]

abbrev pub is_irrelevant : GateInput → Bool
is_irrelevant i = elim i.role [ none ↦ false | some r ↦ not r.in_policy ]

abbrev pub is_band_off : ApplicationPolicy → GateInput → Bool
is_band_off policy i = elim i.fit_band [ none ↦ false | some b ↦ not (is_enabled policy b) ]

abbrev pub is_below_floor : ApplicationPolicy → GateInput → Bool
is_below_floor policy i = elim policy.minimum_fit_score [
  | none ↦ false
  | some floor ↦ elim i.fit_score [ none ↦ false | some score ↦ ltb score floor ]
]

abbrev pub gate_result : Gate → Bool → AdmissionReason → GateResult
gate_result gate passed code = record { gate = gate; passed = passed; code = code }

-- `Admission`, without its text
pub record Admission : Type 0 where
  pub admitted : Bool
  pub lane : Option Lane
  pub tailoring_level : Option TailoringLevel
  pub code : AdmissionReason
  pub gates : GateReport

-- What `evaluate_admission` makes of the report; with every gate passed the band is there
unfoldable pub admission_of : ApplicationPolicy → Option FitBand → GateReport → Admission
admission_of policy fit_band report =
    if not (all_passed report)
    then record {
      admitted = false;
      lane = none;
      tailoring_level = none;
      code = report_code report;
      gates = report;
    }
    else record {
      admitted = true;
      lane = Option.map (lane_for policy) fit_band;
      tailoring_level = Option.map (tailoring_for policy) fit_band;
      code = AdmissionReason.admitted;
      gates = report;
    }

module _ (company_key : String → String) where
  unfoldable pub is_blocked : ApplicationPolicy → Option String → Bool
  is_blocked policy none = false
  is_blocked policy (some company) =
      not (str_eq company "")
      && any_of (λ c. str_eq (company_key c) (company_key company)) policy.blocked_companies

  -- `evaluate_gates`
  unfoldable pub evaluate_gates : ApplicationPolicy → GateInput → GateReport
  evaluate_gates policy i = record {
    policy_version = policy.version;
    results =
        gate_result Gate.candidate_skip (not (is_skipped i)) AdmissionReason.user_blocked
        ∷ gate_result Gate.opening_open (not (is_closed i)) AdmissionReason.opportunity_closed
        ∷ gate_result Gate.evaluated (is_some i.decision) AdmissionReason.not_evaluated
        ∷ gate_result Gate.hard_eligibility (not (is_ineligible i)) AdmissionReason.ineligible
        ∷ gate_result Gate.minimum_eligibility (not (is_below_minimum policy i))
            AdmissionReason.below_minimum_eligibility
        ∷ gate_result Gate.company_blocklist (not (is_blocked policy i.company))
            AdmissionReason.company_blocked
        ∷ gate_result Gate.geography (not (is_outside i)) AdmissionReason.outside_target_geography
        ∷ gate_result Gate.role_relevance (not (is_irrelevant i)) AdmissionReason.irrelevant_role
        ∷ gate_result Gate.fit_scored (is_some i.fit_band) AdmissionReason.not_scored
        ∷ gate_result Gate.band_enabled (not (is_band_off policy i)) AdmissionReason.band_disabled
        ∷ gate_result Gate.fit_floor (not (is_below_floor policy i))
            AdmissionReason.below_fit_threshold
        ∷ [];
  }

  -- `evaluate_admission`
  unfoldable pub evaluate_admission : ApplicationPolicy → GateInput → Admission
  unfolding evaluate_gates admission_of
  evaluate_admission policy i = admission_of policy i.fit_band (evaluate_gates policy i)
