-- ===== src/Scheduler/Decisions.antt =====
-- app/scheduler/decisions.py: the decision about one candidate opportunity. The readable reasons are
-- not modelled. The clock, the indexes and the rows are loaded by the caller and are arguments.
pub mod Admitted
use mathlib.Core.Option
use range_apply.Application.Models.{ApplicationStatus, attempt_place}
use range_apply.Application.Rows.{ApplicationRow}
use range_apply.Common.{
  Bool, List, Option, String, dict_get, false, first_some, if◌then◌else◌, is_some, ltb, none, not,
  or_else, some, true, ℕ, ◌==◌, ◌||◌,
}
use range_apply.Pipeline.Gates.{
  Admission, GateInput, GateReport, GeoAssessment, RoleAssessment, evaluate_admission,
}
use range_apply.Pipeline.Models.{
  AdmissionReason, DuplicatePolicy, Lane, OpportunityState, OpportunityStatus, QueueState,
  TailoringLevel, queue_place, state_place, status_place,
}
use range_apply.Pipeline.Policy.{ApplicationPolicy}
use range_apply.Pipeline.Rows.{CandidateOpportunityRow, OpportunityRow, QueueRow}
use range_apply.Scheduler.Attempts.{
  Names, duplicate_key, holds_slot, in_applied, is_in_flight, is_submitted,
}
use range_apply.Scheduler.Attempts.Cooldown.{CooldownIndex, DuplicateIndex, active_until, has_other}

-- The parts of an `ApplicationPreparationRow` that the scheduler and the execution read.
pub data PreparationStatus : Type 0 where
  pending ready needs_review needs_user_input failed superseded invalidated : PreparationStatus

pub record PreparationRow : Type 0 where
  pub id : String
  pub tenant_id : String
  pub opportunity_id : String
  pub status : PreparationStatus
  pub validation_passed : Bool
  pub unanswered : ℕ

-- `Verdict`, without its text
pub record Verdict : Type 0 where
  pub code : AdmissionReason
  pub lane : Option Lane
  pub level : Option TailoringLevel
  pub queue_item_id : Option String
  pub application_id : Option String
  pub preparation_id : Option String
  pub gates : Option GateReport

-- `Context`, without the rows that only the caller adopts
pub record Context : Type 0 where
  pub policy : ApplicationPolicy
  pub now : ℕ
  pub cooldown : CooldownIndex
  pub duplicates : DuplicateIndex
  pub attempts : List (String × ApplicationRow)
  pub queue_items : List (String × QueueRow)
  pub preparations : List (String × PreparationRow)
  pub geography : List (String × GeoAssessment)
  pub relevance : List (String × RoleAssessment)

abbrev pub verdict :
    AdmissionReason → Option String → Option String → Option String → Option GateReport → Verdict
verdict code queue_item_id application_id preparation_id gates = record {
  code = code;
  lane = none;
  level = none;
  queue_item_id = queue_item_id;
  application_id = application_id;
  preparation_id = preparation_id;
  gates = gates;
}

-- `_reposted_after`
unfoldable pub reposted_after : OpportunityRow → ApplicationRow → Bool
reposted_after opportunity row = elim opportunity.reposted_at [
  | none ↦ false
  | some reposted ↦ elim (first_some row.submitted_at (first_some row.reserved_at row.updated_at)) [
    | none ↦ false
    | some applied ↦ ltb applied reposted
  ]
]

abbrev pub item_is : QueueState → Option QueueRow → Bool
item_is s none = false
item_is s (some item) = queue_place item.state == queue_place s

abbrev pub status_is : ApplicationStatus → ApplicationRow → Bool
status_is s row = attempt_place row.status == attempt_place s

abbrev pub item_id : Option QueueRow → Option String
item_id item = Option.map (λ i. i.id) item

-- The branch of `_attempt_verdict` for an attempt that holds a slot or is in flight
unfoldable pub live_verdict : Option QueueRow → Option PreparationRow → ApplicationRow → Verdict
live_verdict item prep row =
    let prep_id = Option.map (λ p. p.id) prep in
    if status_is ApplicationStatus.blocked row
    then verdict AdmissionReason.needs_review none (some row.id) row.preparation_id none
    else if status_is ApplicationStatus.needs_user_input row
    then verdict AdmissionReason.needs_user_input none (some row.id) row.preparation_id none
    else if status_is ApplicationStatus.needs_review row
    then verdict AdmissionReason.needs_review none (some row.id) row.preparation_id none
    else if item_is QueueState.blocked item
    then verdict AdmissionReason.needs_user_input (item_id item) (some row.id) prep_id none
    else if item_is QueueState.needs_review item
    then verdict AdmissionReason.needs_review (item_id item) (some row.id) prep_id none
    else if status_is ApplicationStatus.ready row
    then verdict AdmissionReason.already_in_progress (item_id item) (some row.id) row.preparation_id
        none
    else verdict AdmissionReason.already_in_progress (item_id item) (some row.id) none none

abbrev pub blocks_reposts : ApplicationPolicy → Bool
blocks_reposts policy = elim policy.duplicate_policy [
  | DuplicatePolicy.block ↦ true
  | DuplicatePolicy.allow_repost_after_cooldown ↦ false
]

-- `_attempt_verdict`; `none` to continue
unfoldable pub attempt_verdict :
    Context → CandidateOpportunityRow → OpportunityRow → ApplicationRow → Option Verdict
unfolding live_verdict reposted_after
attempt_verdict ctx co opportunity row =
    let item = dict_get opportunity.id ctx.queue_items in
    let prep = dict_get co.id ctx.preparations in
    if is_submitted row
    then (if reposted_after opportunity row
        then (if blocks_reposts ctx.policy
            then some (verdict AdmissionReason.duplicate_opportunity none (some row.id) none none)
            else none)
        else some (verdict AdmissionReason.already_submitted none (some row.id) none none))
    else if holds_slot row || is_in_flight row
    then some (live_verdict item prep row)
    else none

-- What the candidate opportunity's own state settles when there is no attempt row
unfoldable pub state_verdict : CandidateOpportunityRow → Option Verdict
state_verdict co =
    if in_applied co.state
    then some (verdict AdmissionReason.already_submitted none none none none)
    else if (state_place co.state == state_place OpportunityState.approved)
        || (state_place co.state == state_place OpportunityState.submitting)
    then some (verdict AdmissionReason.already_in_progress none none none none)
    else none

-- What a PREPARE item or a preparation that waits on a person settles
unfoldable pub human_verdict :
    Option QueueRow → Option PreparationRow → Option ApplicationRow → Option Verdict
human_verdict item prep row =
    let row_id = Option.map (λ r. r.id) row in
    let waiting : Option Verdict = elim prep [
      | none ↦ none
      | some p ↦ elim p.status [
        | PreparationStatus.needs_user_input ↦
            some (verdict AdmissionReason.needs_user_input none none (some p.id) none)
        | PreparationStatus.needs_review ↦
            some (verdict AdmissionReason.needs_review none none (some p.id) none)
        | _ ↦ none
      ]
    ] in
    if item_is QueueState.cancelled item
    then some (verdict AdmissionReason.user_blocked (item_id item) row_id none none)
    else if item_is QueueState.failed item
    then some (verdict AdmissionReason.needs_review (item_id item) row_id none none)
    else if is_some row
    then none
    else waiting

module _ (names : Names) where
  abbrev pub gate_input : Context → CandidateOpportunityRow → OpportunityRow → GateInput
  gate_input ctx co opportunity = record {
    decision = co.eligibility_status;
    fit_band = co.fit_band;
    company = some opportunity.company;
    fit_score = co.fit_score;
    opportunity_status = some opportunity.status;
    candidate_state = some co.state;
    geography = dict_get opportunity.id ctx.geography;
    role = dict_get opportunity.id ctx.relevance;
  }

  -- The checks of `decide` after the policy's gates
  unfoldable pub late_verdict :
      Context
      → CandidateOpportunityRow
      → OpportunityRow
      → Option ApplicationRow
      → Admission
      → Verdict
  unfolding human_verdict
  late_verdict ctx co opportunity row admission =
      let human =
        human_verdict (dict_get opportunity.id ctx.queue_items) (dict_get co.id ctx.preparations)
          row in
      let key = duplicate_key names opportunity.company opportunity.title in
      let admitted : Verdict = record {
        code = AdmissionReason.admitted;
        lane = admission.lane;
        level = admission.tailoring_level;
        queue_item_id = none;
        application_id = Option.map (λ r. r.id) row;
        preparation_id = none;
        gates = some admission.gates;
      } in
      let open_check : Verdict =
        if has_other ctx.duplicates key opportunity.id
        then verdict AdmissionReason.duplicate_application none none none none
        else if is_some (active_until names ctx.cooldown opportunity.company ctx.now)
        then verdict AdmissionReason.cooldown_active none none none none
        else if ctx.policy.daily_cap == 0
        then verdict AdmissionReason.daily_cap_reached none none none none
        else if ctx.policy.weekly_cap == 0
        then verdict AdmissionReason.weekly_cap_reached none none none none
        else admitted in
      or_else human open_check

  -- `decide`
  unfoldable pub decide : Context → CandidateOpportunityRow → OpportunityRow → Verdict
  unfolding attempt_verdict state_verdict late_verdict
  decide ctx co opportunity =
      let row = dict_get opportunity.id ctx.attempts in
      let settled : Option Verdict = elim row [
        | none ↦ state_verdict co
        | some r ↦ attempt_verdict ctx co opportunity r
      ] in
      let admission =
        evaluate_admission names.company_key ctx.policy (gate_input ctx co opportunity) in
      let judged : Verdict =
        if not admission.admitted
        then verdict admission.code none none none (some admission.gates)
        else late_verdict ctx co opportunity row admission in
      if state_place co.state == state_place OpportunityState.skipped
      then verdict AdmissionReason.user_blocked none none none none
      else if (status_place opportunity.status == status_place OpportunityStatus.closed)
          || (state_place co.state == state_place OpportunityState.closed)
      then verdict AdmissionReason.opportunity_closed none none none none
      else or_else settled judged
