-- ===== src/Pipeline/Gates/Codes.antt =====
-- app/pipeline/gates.py: the code of a refusal, and the lane and level of an admission.
use range_apply.Common.{
  Bool, Bool-cases, Option, String, [], any_of, arith, false, find_first-any_of, if◌then◌else◌, inl,
  inr, is_some, not, refl, some, sym, true, ℕ, ◌∙◌, ◌∷◌, ◌≡◌,
}
use range_apply.Pipeline.Gates.{
  Gate, GateInput, GateReport, admission_of, evaluate_admission, evaluate_gates, gate_result,
  is_band_off, is_below_floor, is_below_minimum, is_blocked, is_closed, is_ineligible,
  is_irrelevant, is_outside, is_skipped, report_code,
}
use range_apply.Pipeline.Gates.Report.{evaluate_admission_iff}
use range_apply.Pipeline.Models.{AdmissionReason, FitBand}
use range_apply.Pipeline.Policy.{ApplicationPolicy, lane_for, tailoring_for}

-- The code, when it is known which gates fail.
abbrev pub first_failure :
    Bool → Bool → Bool → Bool → Bool → Bool → Bool → Bool → Bool → Bool → Bool → AdmissionReason
first_failure b1 b2 b3 b4 b5 b6 b7 b8 b9 b10 b11 =
    if b1
    then AdmissionReason.user_blocked
    else if b2
    then AdmissionReason.opportunity_closed
    else if not b3
    then AdmissionReason.not_evaluated
    else if b4
    then AdmissionReason.ineligible
    else if b5
    then AdmissionReason.below_minimum_eligibility
    else if b6
    then AdmissionReason.company_blocked
    else if b7
    then AdmissionReason.outside_target_geography
    else if b8
    then AdmissionReason.irrelevant_role
    else if not b9
    then AdmissionReason.not_scored
    else if b10
    then AdmissionReason.band_disabled
    else if b11
    then AdmissionReason.below_fit_threshold
    else AdmissionReason.admitted

report_code-first :
    (version : ℕ) (b1 b2 b3 b4 b5 b6 b7 b8 b9 b10 b11 : Bool)
    → report_code (record {
      policy_version = version;
      results =
          gate_result Gate.candidate_skip (not b1) AdmissionReason.user_blocked
          ∷ gate_result Gate.opening_open (not b2) AdmissionReason.opportunity_closed
          ∷ gate_result Gate.evaluated b3 AdmissionReason.not_evaluated
          ∷ gate_result Gate.hard_eligibility (not b4) AdmissionReason.ineligible
          ∷ gate_result Gate.minimum_eligibility (not b5) AdmissionReason.below_minimum_eligibility
          ∷ gate_result Gate.company_blocklist (not b6) AdmissionReason.company_blocked
          ∷ gate_result Gate.geography (not b7) AdmissionReason.outside_target_geography
          ∷ gate_result Gate.role_relevance (not b8) AdmissionReason.irrelevant_role
          ∷ gate_result Gate.fit_scored b9 AdmissionReason.not_scored
          ∷ gate_result Gate.band_enabled (not b10) AdmissionReason.band_disabled
          ∷ gate_result Gate.fit_floor (not b11) AdmissionReason.below_fit_threshold
          ∷ [];
    })
      ≡ first_failure b1 b2 b3 b4 b5 b6 b7 b8 b9 b10 b11
report_code-first version b1 b2 b3 b4 b5 b6 b7 b8 b9 b10 b11 = ground arith

admission_of-parts :
    (policy : ApplicationPolicy) (band : Option FitBand) (r : GateReport) (b : FitBand)
    → band ≡ some b
    → (admission_of policy band r).admitted ≡ true
    → ((admission_of policy band r).lane ≡ some (lane_for policy b))
      × ((admission_of policy band r).tailoring_level ≡ some (tailoring_for policy b))
      × ((admission_of policy band r).code ≡ AdmissionReason.admitted)
unfolding admission_of
admission_of-parts policy band r b e h = elim (Bool-cases (any_of (λ x. not x.passed) r.results)) [
  | inl some_fails ↦ absurd (ground (arith, h, some_fails))
  | inr none_fails ↦ rw none_fails (rw e (refl, refl, refl))
]

module _ (company_key : String → String) (policy : ApplicationPolicy) (i : GateInput) where
  admission_of-code :
      (band : Option FitBand) (r : GateReport) → (admission_of policy band r).code ≡ report_code r
  unfolding admission_of
  admission_of-code band r = elim (Bool-cases (any_of (λ x. not x.passed) r.results)) [
    | inl some_fails ↦ rw some_fails refl
    | inr none_fails ↦
        rw none_fails
          (rw (find_first-any_of (λ x. not x.passed) r.results none_fails, report_code) refl)
  ]

  -- The code is that of the first test, in the documented order, that the opportunity fails.
  pub evaluate_admission-code :
      (evaluate_admission company_key policy i).code
      ≡ first_failure
          (is_skipped i)
          (is_closed i)
          (is_some i.decision)
          (is_ineligible i)
          (is_below_minimum policy i)
          (is_blocked company_key policy i.company)
          (is_outside i)
          (is_irrelevant i)
          (is_some i.fit_band)
          (is_band_off policy i)
          (is_below_floor policy i)
  unfolding evaluate_admission
  evaluate_admission-code =
      admission_of-code i.fit_band (evaluate_gates company_key policy i)
      ∙ report_code-first policy.version (is_skipped i) (is_closed i) (is_some i.decision)
          (is_ineligible i) (is_below_minimum policy i) (is_blocked company_key policy i.company)
          (is_outside i) (is_irrelevant i) (is_some i.fit_band) (is_band_off policy i)
          (is_below_floor policy i)

  -- What is admitted has a band, and gets the lane and the level that the policy gives the band.
  pub evaluate_admission-lane :
      (evaluate_admission company_key policy i).admitted ≡ true
      → (b : FitBand) × (i.fit_band ≡ some b)
        × ((evaluate_admission company_key policy i).lane ≡ some (lane_for policy b))
        × ((evaluate_admission company_key policy i).tailoring_level
            ≡ some (tailoring_for policy b))
        × ((evaluate_admission company_key policy i).code ≡ AdmissionReason.admitted)
  unfolding evaluate_admission
  evaluate_admission-lane h =
      let (b, e, enabled) = ((evaluate_admission_iff company_key policy i).0 h).banded in
      let (lane, level, code) =
        admission_of-parts policy i.fit_band (evaluate_gates company_key policy i) b e h in
      (b, e, lane, level, code)

gates_pass :
    (b1 b2 b3 b4 b5 b6 b7 b8 b9 b10 b11 : Bool)
    → first_failure b1 b2 b3 b4 b5 b6 b7 b8 b9 b10 b11 ≡ AdmissionReason.admitted
    → (b1 ≡ false)
      × (b2 ≡ false)
      × (b3 ≡ true)
      × (b4 ≡ false)
      × (b5 ≡ false)
      × (b6 ≡ false)
      × (b7 ≡ false)
      × (b8 ≡ false)
      × (b9 ≡ true)
      × (b10 ≡ false)
      × (b11 ≡ false)
gates_pass b1 b2 b3 b4 b5 b6 b7 b8 b9 b10 b11 h = ground (arith, h)

-- A code ADMITTED is an admission.
pub code-admitted :
    (company_key : String → String) (policy : ApplicationPolicy) (i : GateInput)
    → (evaluate_admission company_key policy i).code ≡ AdmissionReason.admitted
    → (evaluate_admission company_key policy i).admitted ≡ true
unfolding evaluate_admission evaluate_gates admission_of
code-admitted company_key policy i h =
    let (p1, p2, p3, p4, p5, p6, p7, p8, p9, p10, p11) =
      gates_pass (is_skipped i) (is_closed i) (is_some i.decision) (is_ineligible i)
        (is_below_minimum policy i) (is_blocked company_key policy i.company) (is_outside i)
        (is_irrelevant i) (is_some i.fit_band) (is_band_off policy i) (is_below_floor policy i)
        (sym (evaluate_admission-code company_key policy i) ∙ h) in
    rw (p1, p2, p3, p4, p5, p6, p7, p8, p9, p10, p11) refl
