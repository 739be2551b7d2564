-- ===== src/Scheduler/Decisions/Admitted.antt =====
-- app/scheduler/decisions.py: what an admission by `decide` guarantees.
use range_apply.Application.Rows.{ApplicationRow}
use range_apply.Common.{
  Bool, Bool-cases, Option, Option-cases, String, arith, dict_get, false, if◌then◌else◌, inl, inr,
  none, not, or_else, refl, some, true, ◌<◌, ◌==◌, ◌||◌, ◌≡◌, ◌≢◌,
}
use range_apply.Pipeline.Gates.{Admission, GateInput, evaluate_admission, is_blocked}
use range_apply.Pipeline.Gates.Codes.{code-admitted}
use range_apply.Pipeline.Gates.Report.{MeetsPolicy, evaluate_admission_iff}
use range_apply.Pipeline.Models.{
  AdmissionReason, OpportunityState, OpportunityStatus, state_place, status_place,
}
use range_apply.Pipeline.Rows.{CandidateOpportunityRow, OpportunityRow, QueueRow}
use range_apply.Scheduler.Attempts.{
  Names, duplicate_key, holds_slot, in_applied, is_in_flight, is_submitted,
}
use range_apply.Scheduler.Attempts.Cooldown.{active_until, has_other}
use range_apply.Scheduler.Decisions.{
  Context, PreparationRow, Verdict, attempt_verdict, blocks_reposts, decide, gate_input,
  human_verdict, late_verdict, reposted_after, state_verdict, verdict,
}

abbrev guarded : Bool → Bool → Option Verdict → Verdict → Verdict
guarded b1 b2 o j =
    if b1
    then verdict AdmissionReason.user_blocked none none none none
    else if b2
    then verdict AdmissionReason.opportunity_closed none none none none
    else or_else o j

-- Where no earlier branch admits, an admission is the last branch's.
only_last :
    (b1 b2 : Bool) (o : Option Verdict) (j : Verdict)
    → ((v : Verdict) → o ≡ some v → v.code ≢ AdmissionReason.admitted)
    → (guarded b1 b2 o j).code ≡ AdmissionReason.admitted
    → (o ≡ none) × (j.code ≡ AdmissionReason.admitted)
only_last true b2 o j n h = absurd (ground (arith, h))
only_last false true o j n h = absurd (ground (arith, h))
only_last false false none j n h = (refl, h)
only_last false false (some v) j n h = absurd (n v refl h)

module _ (names : Names) (ctx : Context) (co : CandidateOpportunityRow)
    (opportunity : OpportunityRow) where
  abbrev key : String
  key = duplicate_key names opportunity.company opportunity.title

  abbrev input : GateInput
  input = gate_input names ctx co opportunity

  abbrev admission : Admission
  admission = evaluate_admission names.company_key ctx.policy input

  attempt_verdict-not_admitted :
      (row : ApplicationRow) (v : Verdict)
      → attempt_verdict ctx co opportunity row ≡ some v
      → v.code ≢ AdmissionReason.admitted
  unfolding attempt_verdict
  attempt_verdict-not_admitted row v h e = ground (arith, h, e)

  state_verdict-not_admitted :
      (v : Verdict) → state_verdict co ≡ some v → v.code ≢ AdmissionReason.admitted
  unfolding state_verdict
  state_verdict-not_admitted v h e = ground (arith, h, e)

  human_verdict-not_admitted :
      (item : Option QueueRow) (prep : Option PreparationRow) (row : Option ApplicationRow)
      (v : Verdict)
      → human_verdict item prep row ≡ some v
      → v.code ≢ AdmissionReason.admitted
  unfolding human_verdict
  human_verdict-not_admitted item prep row v h e = ground (arith, h, e)

  abbrev settled : Option Verdict
  settled = elim (dict_get opportunity.id ctx.attempts) [
    | none ↦ state_verdict co
    | some r ↦ attempt_verdict ctx co opportunity r
  ]

  abbrev late : Verdict
  late = late_verdict names ctx co opportunity (dict_get opportunity.id ctx.attempts) admission

  settled-not_admitted : (v : Verdict) → settled ≡ some v → v.code ≢ AdmissionReason.admitted
  settled-not_admitted v h e = elim (Option-cases (dict_get opportunity.id ctx.attempts)) [
    | inl none_there ↦ state_verdict-not_admitted v (rw (none_there, settled) at h) e
    | inr (row, there) ↦ attempt_verdict-not_admitted row v (rw (there, settled) at h) e
  ]

  abbrev judged : Verdict
  judged =
      if not admission.admitted
      then verdict admission.code none none none (some admission.gates)
      else late

  -- An admission comes out of the last branch: nothing settles the matter before it.
  decide-late :
      (decide names ctx co opportunity).code ≡ AdmissionReason.admitted
      → (settled ≡ none) × (admission.admitted ≡ true) × (late.code ≡ AdmissionReason.admitted)
  unfolding decide
  decide-late h =
      let ended =
        only_last (state_place co.state == state_place OpportunityState.skipped)
          ((status_place opportunity.status == status_place OpportunityStatus.closed)
            || (state_place co.state == state_place OpportunityState.closed))
          settled judged settled-not_admitted h in
      let code = code-admitted names.company_key ctx.policy input in
      elim (Bool-cases admission.admitted) [
        | inl admits ↦ (ended.0, admits, rw (admits, judged) at ended.1)
        | inr refuses ↦
            let refused : admission.code ≡ AdmissionReason.admitted =
              rw (refuses, judged) at ended.1 in
            absurd (ground (arith, refuses, code refused))
      ]

  -- What an admission has been checked for: the policy's gates, an earlier attempt, another
  -- opening of the same title, the company's cool-down and the caps.
  pub record IsAdmissible : Type 0 where
    pub meets :
        MeetsPolicy ctx.policy
          (is_blocked names.company_key ctx.policy (some opportunity.company))
          input
    pub not_applied : dict_get opportunity.id ctx.attempts ≡ none → in_applied co.state ≡ false
    pub submitted_before_repost :
        (row : ApplicationRow)
        → dict_get opportunity.id ctx.attempts ≡ some row
        → is_submitted row ≡ true
        → (reposted_after opportunity row ≡ true) × (blocks_reposts ctx.policy ≡ false)
    pub not_live :
        (row : ApplicationRow)
        → dict_get opportunity.id ctx.attempts ≡ some row
        → is_submitted row ≡ false
        → (holds_slot row ≡ false) × (is_in_flight row ≡ false)
    pub no_twin : has_other ctx.duplicates key opportunity.id ≡ false
    pub cooled_down : active_until names ctx.cooldown opportunity.company ctx.now ≡ none
    pub caps_open : (0 < ctx.policy.daily_cap) × (0 < ctx.policy.weekly_cap)

  late-checks :
      late.code ≡ AdmissionReason.admitted
      → (has_other ctx.duplicates key opportunity.id ≡ false)
        × (active_until names ctx.cooldown opportunity.company ctx.now ≡ none)
        × (0 < ctx.policy.daily_cap)
        × (0 < ctx.policy.weekly_cap)
  unfolding late_verdict
  late-checks h =
      elim (Option-cases (
        human_verdict (dict_get opportunity.id ctx.queue_items) (dict_get co.id ctx.preparations)
          (dict_get opportunity.id ctx.attempts))) [
            | inr (v, there) ↦ absurd (
                ground (
                  arith,
                  h,
                  there,
                  human_verdict-not_admitted (dict_get opportunity.id ctx.queue_items)
                      (dict_get co.id ctx.preparations) (dict_get opportunity.id ctx.attempts) v
                      there,
                ))
            | inl free ↦ (
              ground (arith, h, free),
              ground (arith, h, free),
              ground (arith, h, free),
              ground (arith, h, free),
            )
          ]

  -- What is admitted meets the policy's gates, is not in an applied state with no attempt, has no live
  -- earlier attempt, no submitted one but before
  -- a repost that the policy allows, no other opening of the same title applied to, no active
  -- cool-down of the company, and both caps are above 0.
  pub decide-IsAdmissible :
      (decide names ctx co opportunity).code ≡ AdmissionReason.admitted → IsAdmissible
  unfolding state_verdict attempt_verdict
  decide-IsAdmissible h =
      let (free, admits, ends) = decide-late h in
      let (twin, cool, day, week) = late-checks ends in
      record {
        meets = (evaluate_admission_iff names.company_key ctx.policy input).0 admits;
        not_applied = λ e. ground (arith, free, e);
        submitted_before_repost =
            λ row e sub. (ground (arith, free, e, sub), ground (arith, free, e, sub));
        not_live = λ row e sub. (ground (arith, free, e, sub), ground (arith, free, e, sub));
        no_twin = twin;
        cooled_down = cool;
        caps_open = (day, week);
      }
