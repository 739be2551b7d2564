-- ===== src/Pipeline/Gates/Report.antt =====
-- app/pipeline/gates.py: the report of the gates, and the admission that it decides.
use range_apply.Common.{
  All-none_fails, Bool, Option, Option-cases, String, ap, arith, false, inl, inr, is_some,
  none_fails-All, not, some, sym, true, ℕ, ◌↔◌, ◌∙◌, ◌≡◌, ◌≢◌, ◌≤◌,
}
use range_apply.Pipeline.Gates.{
  GateInput, GateReport, admission_of, all_passed, evaluate_admission, evaluate_gates, is_band_off,
  is_below_floor, is_below_minimum, is_blocked, is_closed, is_ineligible, is_irrelevant, is_outside,
  is_skipped,
}
use range_apply.Pipeline.Models.{
  EligibilityDecision, FitBand, OpportunityState, OpportunityStatus, eligibility_rank,
}
use range_apply.Pipeline.Policy.{ApplicationPolicy, is_enabled}

-- What the candidate's settings ask of an opportunity, written without the gates.
pub record MeetsPolicy (policy : ApplicationPolicy) (blocked : Bool) (i : GateInput) : Type 0 where
  pub not_skipped : i.candidate_state ≢ some OpportunityState.skipped
  pub not_closed :
      (i.candidate_state ≢ some OpportunityState.closed)
      × (i.opportunity_status ≢ some OpportunityStatus.closed)
  pub decided :
      (d : EligibilityDecision) × (i.decision ≡ some d)
      × (d ≢ EligibilityDecision.ineligible)
      × (eligibility_rank policy.minimum_eligibility ≤ eligibility_rank d)
  pub not_blocked : blocked ≡ false
  pub in_area : is_outside i ≡ false
  pub on_target : is_irrelevant i ≡ false
  pub banded : (b : FitBand) × (i.fit_band ≡ some b) × (is_enabled policy b ≡ true)
  pub above_floor :
      (floor score : ℕ)
      → policy.minimum_fit_score ≡ some floor
      → i.fit_score ≡ some score
      → floor ≤ score

not-true : {b : Bool} → not b ≡ true → b ≡ false
not-true {b} h = ground (arith, h)

module _ (company_key : String → String) (policy : ApplicationPolicy) (i : GateInput) where
  skip_gate : is_skipped i ≡ false → i.candidate_state ≢ some OpportunityState.skipped
  skip_gate h e = ground (arith, h, e)

  closed_gate :
      is_closed i ≡ false
      → (i.candidate_state ≢ some OpportunityState.closed)
        × (i.opportunity_status ≢ some OpportunityStatus.closed)
  closed_gate h = (λ e. ground (arith, h, e), λ e. ground (arith, h, e))

  decision_gate :
      is_some i.decision ≡ true
      → is_ineligible i ≡ false
      → is_below_minimum policy i ≡ false
      → (d : EligibilityDecision) × (i.decision ≡ some d)
        × (d ≢ EligibilityDecision.ineligible)
        × (eligibility_rank policy.minimum_eligibility ≤ eligibility_rank d)
  decision_gate h1 h2 h3 = elim (Option-cases i.decision) [
    | inl missing ↦ absurd (ground (arith, missing, h1))
    | inr (d, e) ↦ (d, e, λ x. ground (arith, e, x, h2), ground (arith, e, h2, h3))
  ]

  band_gate :
      is_some i.fit_band ≡ true
      → is_band_off policy i ≡ false
      → (b : FitBand) × (i.fit_band ≡ some b) × (is_enabled policy b ≡ true)
  band_gate h1 h2 = elim (Option-cases i.fit_band) [
    | inl missing ↦ absurd (ground (arith, missing, h1))
    | inr (b, e) ↦ (b, e, ground (arith, e, h2))
  ]

  floor_gate :
      is_below_floor policy i ≡ false
      → (floor score : ℕ) → policy.minimum_fit_score ≡ some floor
      → i.fit_score ≡ some score
      → floor ≤ score
  floor_gate h floor score e1 e2 = ground (arith, h, e1, e2)

  report : GateReport
  report = evaluate_gates company_key policy i

  admitted-passed :
      (band : Option FitBand) (r : GateReport)
      → (admission_of policy band r).admitted ≡ all_passed r
  unfolding admission_of
  admitted-passed band r = ground arith

  -- What is admitted meets every setting.
  admitted-MeetsPolicy :
      (evaluate_admission company_key policy i).admitted ≡ true
      → MeetsPolicy policy (is_blocked company_key policy i.company) i
  unfolding evaluate_admission
  admitted-MeetsPolicy h =
      let passed = sym (admitted-passed i.fit_band (evaluate_gates company_key policy i)) ∙ h in
      let all =
        All-none_fails (λ r. r.passed) (evaluate_gates company_key policy i).results
          (not-true passed) in
      let (skip, r1) = all in
      let (opening, r2) = r1 in
      let (evaluated, r3) = r2 in
      let (hard, r4) = r3 in
      let (minimum, r5) = r4 in
      let (blocklist, r6) = r5 in
      let (area, r7) = r6 in
      let (role, r8) = r7 in
      let (scored, r9) = r8 in
      let (band, r10) = r9 in
      let (floor, r11) = r10 in
      record {
        not_skipped = skip_gate (not-true skip);
        not_closed = closed_gate (not-true opening);
        decided = decision_gate evaluated (not-true hard) (not-true minimum);
        not_blocked = not-true blocklist;
        in_area = not-true area;
        on_target = not-true role;
        banded = band_gate scored (not-true band);
        above_floor = floor_gate (not-true floor);
      }

  skip_passes : i.candidate_state ≢ some OpportunityState.skipped → not (is_skipped i) ≡ true
  skip_passes h = ground (arith, h)

  closed_passes :
      i.candidate_state ≢ some OpportunityState.closed
      → i.opportunity_status ≢ some OpportunityStatus.closed
      → not (is_closed i) ≡ true
  closed_passes h k = ground (arith, h, k)

  floor_passes :
      ((floor score : ℕ)
        → policy.minimum_fit_score ≡ some floor
        → i.fit_score ≡ some score
        → floor ≤ score)
      → not (is_below_floor policy i) ≡ true
  floor_passes h = elim (Option-cases policy.minimum_fit_score) [
    | inl e ↦ rw e
    | inr (floor, e) ↦ elim (Option-cases i.fit_score) [
      | inl e' ↦ rw e (rw e')
      | inr (score, e') ↦ rw e (rw e' (let le = h floor score e e' in ground (arith, le)))
    ]
  ]

  -- What meets every setting is admitted.
  MeetsPolicy-admitted :
      MeetsPolicy policy (is_blocked company_key policy i.company) i
      → (evaluate_admission company_key policy i).admitted ≡ true
  unfolding evaluate_admission
  MeetsPolicy-admitted m =
      let (d, decided, eligible, enough) = m.decided in
      let (b, banded, enabled) = m.banded in
      admitted-passed i.fit_band (evaluate_gates company_key policy i)
      ∙ ap not (
          none_fails-All (λ r. r.passed) (evaluate_gates company_key policy i).results
            (
              skip_passes m.not_skipped,
              (
                closed_passes m.not_closed.0 m.not_closed.1,
                (
                  rw decided,
                  (
                    ground (arith, decided, eligible),
                    (
                      ground (arith, decided, enough),
                      (
                        rw m.not_blocked,
                        (
                          rw m.in_area,
                          (
                            rw m.on_target,
                            (
                              rw banded,
                              (ground (arith, banded, enabled), (floor_passes m.above_floor, tt)),
                            ),
                          ),
                        ),
                      ),
                    ),
                  ),
                ),
              ),
            ))

  -- Admission holds exactly when the opportunity meets every setting of the policy.
  pub evaluate_admission_iff :
      ((evaluate_admission company_key policy i).admitted ≡ true)
      ↔ MeetsPolicy policy (is_blocked company_key policy i.company) i
  evaluate_admission_iff = (admitted-MeetsPolicy, MeetsPolicy-admitted)
