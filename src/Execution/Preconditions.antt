-- ===== src/Execution/Preconditions.antt =====
-- app/execution/preconditions.py: everything that is checked again before a submission. The clock
-- and the keys of its day and week are arguments; `lower` is SQL's and Python's lower case.
pub mod Refresh
pub mod Passed
use range_apply.Application.Models.{ApplicationStatus, attempt_place, in_submitted}
use range_apply.Application.Rows.{ApplicationRow}
use range_apply.Common.{
  Bool, List, Option, String, [], any_of, dict_get, false, if◌then◌else◌, is_some, keep, leb,
  length, ltb, map, none, not, or_else, some, str_eq, ℕ, ◌&&◌, ◌++◌, ◌==◌, ◌||◌, ◌∷◌,
}
use range_apply.Core.Texts.{is_text, opt_eq}
use range_apply.Execution.Models.{PreconditionCode, PreconditionReport}
use range_apply.Pipeline.Models.{
  AdmissionReason, OpportunityState, OpportunityStatus, state_place, status_place,
}
use range_apply.Pipeline.Policy.{ApplicationPolicy}
use range_apply.Pipeline.Rows.{CandidateOpportunityRow, OpportunityRow}
use range_apply.Scheduler.Attempts.{Names, duplicate_key, holds_slot}
use range_apply.Scheduler.Attempts.Cooldown.{active_until, build_indexes, has_other}
use range_apply.Scheduler.Caps.{
  CapLedger, PeriodKeys, PeriodKind, release_slots, reserve_slots, usage,
}
use range_apply.Scheduler.Decisions.{PreparationRow, PreparationStatus, blocks_reposts}

-- `if failed: failures.append(code)`
abbrev pub when : Bool → PreconditionCode → List PreconditionCode
when failed code = if failed then code ∷ [] else []

-- The status that the attempt must have
abbrev pub expected_status : Bool → ApplicationStatus
expected_status executing =
    if executing then ApplicationStatus.submitting else ApplicationStatus.ready

abbrev pub has_status : ApplicationStatus → ApplicationRow → Bool
has_status s row = attempt_place row.status == attempt_place s

-- The checks of the attempt after its two early returns
abbrev pub attempt_failures : ApplicationRow → Bool → List PreconditionCode
attempt_failures attempt executing =
    when (not (has_status (expected_status executing) attempt)) PreconditionCode.attempt_not_ready
    ++ when (is_some attempt.released_at) PreconditionCode.slot_released

-- The check of the preparation's status
unfoldable pub status_failures : PreparationStatus → List PreconditionCode
status_failures PreparationStatus.invalidated = PreconditionCode.preparation_invalidated ∷ []
status_failures PreparationStatus.superseded = PreconditionCode.preparation_not_current ∷ []
status_failures PreparationStatus.ready = []
status_failures _ = PreconditionCode.preparation_not_ready ∷ []

unfoldable pub preparation_failures :
    String → ApplicationRow → Option PreparationRow → List String → List PreconditionCode
preparation_failures tenant_id attempt none stale_inputs = PreconditionCode.preparation_missing ∷ []
preparation_failures tenant_id attempt (some p) stale_inputs =
    when (not (str_eq p.tenant_id tenant_id)) PreconditionCode.tenant_mismatch
    ++ (when
          (is_text attempt.opportunity_id
            && not (opt_eq (some p.opportunity_id) attempt.opportunity_id))
          PreconditionCode.opportunity_mismatch
        ++ (status_failures p.status
            ++ (when (not p.validation_passed) PreconditionCode.validation_failed
                ++ (when (ltb 0 p.unanswered) PreconditionCode.user_input_required
                    ++ when (ltb 0 (length stale_inputs)) PreconditionCode.preparation_stale))))

abbrev pub is_shut : Option CandidateOpportunityRow → Bool
is_shut none = false
is_shut (some co) =
    (state_place co.state == state_place OpportunityState.closed)
    || (state_place co.state == state_place OpportunityState.skipped)

module _ (names : Names) (lower : String → String) where
  -- The join of `_check_company_history`: other attempts of the tenant at the company
  abbrev pub at_company :
      String → ApplicationRow → OpportunityRow → ApplicationRow × OpportunityRow → Bool
  at_company tenant_id attempt opportunity (a, o) =
      opt_eq a.tenant_id (some tenant_id)
      && (not (str_eq a.id attempt.id)
          && (opt_eq o.company_key (some (names.company_key opportunity.company))
              || (not (is_some o.company_key)
                  && str_eq (lower o.company) (lower opportunity.company))))

  -- `_check_company_history`, of the rows that the query returns
  unfoldable pub history_failures :
      ApplicationPolicy
      → OpportunityRow
      → ℕ
      → List (ApplicationRow × OpportunityRow)
      → List PreconditionCode
  history_failures policy opportunity now [] = []
  history_failures policy opportunity now (r ∷ rs) =
      let same_company = map (λ (p : ApplicationRow × OpportunityRow). (p.1.id, p.1)) (r ∷ rs) in
      let attempts = map (λ (p : ApplicationRow × OpportunityRow). (p.1.id, p.0)) (r ∷ rs) in
      let (cooldown, duplicates) =
        build_indexes names attempts same_company (λ co. opportunity) [] policy.cooldown_days in
      let reposted : Bool = elim (dict_get opportunity.id attempts) [
        | none ↦ false
        | some previous ↦ in_submitted previous.status
      ] in
      when (is_some (active_until names cooldown opportunity.company now))
        PreconditionCode.cooldown_active
      ++ (when
            (has_other duplicates (duplicate_key names opportunity.company opportunity.title)
              opportunity.id)
            PreconditionCode.duplicate_application
          ++ when
              ((status_place opportunity.status == status_place OpportunityStatus.reposted)
                && (blocks_reposts policy && reposted))
              PreconditionCode.duplicate_opportunity)

  -- The checks of the opening and of the candidate's state; `rows` is the tables' join
  unfoldable pub opening_failures :
      String
      → ApplicationPolicy
      → List (ApplicationRow × OpportunityRow)
      → ApplicationRow
      → Option CandidateOpportunityRow
      → Option OpportunityRow
      → ℕ
      → List PreconditionCode
  opening_failures tenant_id policy rows attempt co none now =
      PreconditionCode.opportunity_closed ∷ []
  opening_failures tenant_id policy rows attempt co (some opportunity) now =
      when (status_place opportunity.status == status_place OpportunityStatus.closed)
        PreconditionCode.opportunity_closed
      ++ (when (is_shut co) PreconditionCode.opportunity_closed
          ++ (when
                (any_of (λ c. str_eq (names.company_key c) (names.company_key opportunity.company))
                  policy.blocked_companies)
                PreconditionCode.company_blocked
              ++ history_failures policy opportunity now
                  (keep (at_company tenant_id attempt opportunity) rows)))

-- `PreconditionCode(reason.value)`: the ledger gives no other reason than the two
abbrev pub cap_code : AdmissionReason → PreconditionCode
cap_code AdmissionReason.daily_cap_reached = PreconditionCode.daily_cap_reached
cap_code _ = PreconditionCode.weekly_cap_reached

-- The admission's reservation is of this day and week
abbrev pub is_same_period : ApplicationRow → PeriodKeys → Bool
is_same_period attempt keys =
    holds_slot attempt
    && (opt_eq attempt.cap_day (some keys.day_key) && opt_eq attempt.cap_week (some keys.week_key))

-- The attempt with the slot of this day and week
abbrev pub refreshed : ApplicationRow → PeriodKeys → ℕ → ApplicationRow
refreshed attempt keys now = record attempt {
  cap_day = some keys.day_key;
  cap_week = some keys.week_key;
  reserved_at = some (or_else attempt.reserved_at now);
  released_at = none;
}

-- The end of `_check_caps`: a new slot is taken, then the old one is given back
unfoldable pub refresh_slot :
    ApplicationPolicy
    → CapLedger
    → ApplicationRow
    → PeriodKeys
    → ℕ
    → CapLedger × ApplicationRow × Option PreconditionCode
refresh_slot policy ledger attempt keys now =
    let (ledger', reason) = reserve_slots ledger keys policy.daily_cap policy.weekly_cap in
    let given =
      if holds_slot attempt
      then release_slots ledger' attempt.cap_day attempt.cap_week
      else ledger' in
    elim reason [
      | some why ↦ (ledger', attempt, some (cap_code why))
      | none ↦ (given, refreshed attempt keys now, none)
    ]

-- `_check_caps`
unfoldable pub check_caps :
    ApplicationPolicy
    → CapLedger
    → ApplicationRow
    → PeriodKeys
    → ℕ
    → Bool
    → CapLedger × ApplicationRow × Option PreconditionCode
check_caps policy ledger attempt keys now reserve =
    if policy.daily_cap == 0
    then (ledger, attempt, some PreconditionCode.daily_cap_reached)
    else if policy.weekly_cap == 0
    then (ledger, attempt, some PreconditionCode.weekly_cap_reached)
    else if is_same_period attempt keys
    then (ledger, attempt, none)
    else if reserve
    then refresh_slot policy ledger attempt keys now
    else if leb policy.daily_cap (usage ledger PeriodKind.day keys.day_key)
    then (ledger, attempt, some PreconditionCode.daily_cap_reached)
    else if leb policy.weekly_cap (usage ledger PeriodKind.week keys.week_key)
    then (ledger, attempt, some PreconditionCode.weekly_cap_reached)
    else (ledger, attempt, none)

-- What `check` looks at besides the attempt
pub record Situation : Type 0 where
  pub tenant_id : String
  pub policy : ApplicationPolicy
  pub keys : PeriodKeys
  pub now : ℕ
  pub rows : List (ApplicationRow × OpportunityRow)
  pub preparation : Option PreparationRow
  pub candidate : Option CandidateOpportunityRow
  pub opportunity : Option OpportunityRow
  pub stale_inputs : List String

abbrev pub report_of : Situation → List PreconditionCode → PreconditionReport
report_of s failures = record {
  ok = length failures == 0;
  failures = failures;
  stale_inputs = s.stale_inputs;
}

-- The report of the two early returns
abbrev pub refusal_of : PreconditionCode → PreconditionReport
refusal_of code = record { ok = false; failures = code ∷ []; stale_inputs = [] }

module _ (names : Names) (lower : String → String) where
  -- Every check but that of the caps
  unfoldable pub static_failures : Situation → ApplicationRow → Bool → List PreconditionCode
  static_failures s attempt executing =
      attempt_failures attempt executing
      ++ (preparation_failures s.tenant_id attempt s.preparation s.stale_inputs
          ++ opening_failures names lower s.tenant_id s.policy s.rows attempt s.candidate
              s.opportunity s.now)

  -- `check`: the ledger, the attempt and the report
  unfoldable pub check :
      Situation
      → CapLedger
      → ApplicationRow
      → Bool
      → Bool
      → CapLedger × ApplicationRow × PreconditionReport
  check s ledger attempt reserve executing =
      let failures = static_failures s attempt executing in
      let capped : CapLedger × ApplicationRow × PreconditionReport =
        let (ledger', attempt', failure) =
          check_caps s.policy ledger attempt s.keys s.now reserve in
        (
          ledger',
          attempt',
          elim failure [ none ↦ report_of s [] | some code ↦ report_of s (code ∷ []) ],
        ) in
      if not (opt_eq attempt.tenant_id (some s.tenant_id))
      then (ledger, attempt, refusal_of PreconditionCode.tenant_mismatch)
      else if in_submitted attempt.status && not (has_status (expected_status executing) attempt)
      then (ledger, attempt, refusal_of PreconditionCode.already_submitted)
      else if ltb 0 (length failures)
      then (ledger, attempt, report_of s failures)
      else capped
