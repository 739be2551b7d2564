-- ===== src/Scheduler/Tests.antt =====
-- app/scheduler: caps, attempts and decisions on concrete rows.
use range_apply.Application.Models.{ApplicationStatus}
use range_apply.Application.Rows.{ApplicationRow}
use range_apply.Common.{
  [], arith, false, if◌then◌else◌, is_some, none, not, refl, some, true, ◌&&◌, ◌+◌, ◌-◌, ◌∷◌, ◌≡◌,
}
use range_apply.Core.Errors.{Result}
use range_apply.Pipeline.Gates.{evaluate_admission, is_blocked}
use range_apply.Pipeline.Models.{
  AdmissionReason, DuplicatePolicy, EligibilityDecision, FitBand, Lane, OpportunityState,
  OpportunityStatus, TailoringLevel,
}
use range_apply.Pipeline.Policy.{ApplicationPolicy}
use range_apply.Pipeline.Rows.{CandidateOpportunityRow, OpportunityRow}
use range_apply.Scheduler.Attempts.{
  AttemptStore, Names, commit_attempt, log_event, moved_attempt, next_attempt, release_attempt,
  reserve, transition,
}
use range_apply.Scheduler.Attempts.Conserve.{reserve-IsConserved, reserve-counts, spent}
use range_apply.Scheduler.Attempts.Cooldown.{active_until, empty_index, has_other}
use range_apply.Scheduler.Attempts.Held.{IsConserved, IsStored, held}
use range_apply.Scheduler.Attempts.History.{RunsTo, RunsTo-is_past_submitting, is_past_submitting}
use range_apply.Scheduler.Attempts.Released.{HasPeriods, release_attempt-IsConserved}
use range_apply.Scheduler.Caps.{CapLedger, PeriodKeys, PeriodKind, reserve_slots, usage}
use range_apply.Scheduler.Caps.Ensure.{IsKeyedLedger}
use range_apply.Scheduler.Caps.Limit.{reserve_times, reserve_times_granted, smaller}
use range_apply.Scheduler.Caps.Reserve.{
  counts_in, refusal, reserve_slots-reason, usage-reserve_slots,
}
use range_apply.Scheduler.Decisions.{Context, decide}
use range_apply.Scheduler.Decisions.Admitted.{IsAdmissible, decide-IsAdmissible}

abbrev no_slots : CapLedger
no_slots = record { tenant_id = "t"; entries = [] }

abbrev today : PeriodKeys
today = record { day_key = "2026-09-14"; week_key = "2026-W38" }

no_slots-IsKeyedLedger : IsKeyedLedger no_slots
no_slots-IsKeyedLedger = record {
  at_period = λ k j. ground arith;
  balanced = λ k j r h. absurd (ground (arith, h));
}

reserve_slots-reason_example :
    (reserve_slots no_slots today 5 20).1
    ≡ refusal 5 20
        (usage no_slots PeriodKind.day today.day_key)
        (usage no_slots PeriodKind.week today.week_key)
reserve_slots-reason_example = reserve_slots-reason no_slots today 5 20 no_slots-IsKeyedLedger

usage-reserve_slots_example :
    usage (reserve_slots no_slots today 5 20).0 PeriodKind.day "2026-09-14" ≡ (
      if counts_in today PeriodKind.day "2026-09-14"
        && not (is_some (reserve_slots no_slots today 5 20).1)
      then usage no_slots PeriodKind.day "2026-09-14" + 1
      else usage no_slots PeriodKind.day "2026-09-14")
usage-reserve_slots_example =
    usage-reserve_slots no_slots today 5 20 no_slots-IsKeyedLedger PeriodKind.day "2026-09-14"

abbrev candidate : CandidateOpportunityRow
candidate = record {
  id = "c1";
  tenant_id = "t";
  opportunity_id = "o1";
  state = OpportunityState.eligible;
  eligibility_status = some EligibilityDecision.eligible;
  fit_score = some 80;
  fit_band = some FitBand.high;
  priority_score = none;
  skipped_reason = none;
  state_changed_at = none;
}

abbrev opening : OpportunityRow
opening = record {
  id = "o1";
  canonical_job_id = some "j1";
  company = "Acme";
  company_key = some "Acme";
  title = "Engineer";
  status = OpportunityStatus.opened;
  deadline = none;
  first_seen_at = none;
  reposted_at = none;
}

abbrev no_attempts : AttemptStore
no_attempts = record { tenant_id = "t"; rows = []; events = []; ledger = no_slots }

no_attempts-IsConserved : IsConserved no_attempts
unfolding usage held
no_attempts-IsConserved = record {
  same_tenant = refl;
  keyed = no_slots-IsKeyedLedger;
  counted = λ k j. refl;
}

abbrev first_attempt : ApplicationRow
first_attempt =
    next_attempt no_attempts "a1" 3 candidate opening today Lane.review TailoringLevel.l1 none

abbrev one_attempt : AttemptStore
one_attempt =
    log_event
      (record no_attempts {
        ledger = (reserve_slots no_slots today 5 20).0;
        rows = first_attempt ∷ [];
      })
      first_attempt "scheduled" none (some first_attempt.status)

reserve_run :
    reserve no_attempts "a1" 3 candidate opening today 5 20 Lane.review TailoringLevel.l1 none
    ≡ Result.ok (one_attempt, some first_attempt, none)
unfolding reserve reserve_slots
reserve_run = refl

reserve-IsConserved_example : IsConserved one_attempt
reserve-IsConserved_example =
    reserve-IsConserved no_attempts "a1" 3 candidate opening today 5 20 Lane.review
      TailoringLevel.l1 none reserve_run no_attempts-IsConserved tt

one_attempt-IsConserved : IsConserved one_attempt
one_attempt-IsConserved =
    reserve-IsConserved no_attempts "a1" 3 candidate opening today 5 20 Lane.review
      TailoringLevel.l1 none reserve_run no_attempts-IsConserved tt

abbrev second_attempt : ApplicationRow
second_attempt =
    next_attempt one_attempt "a2" 9 candidate opening today Lane.review TailoringLevel.l1
      (some first_attempt)

abbrev renewed_store : AttemptStore
renewed_store =
    commit_attempt (record one_attempt { ledger = (reserve_slots one_attempt.ledger today 5 20).0 })
      first_attempt second_attempt "scheduled"

renewed_run :
    reserve one_attempt "a2" 9 candidate opening today 5 20 Lane.review TailoringLevel.l1
      (some first_attempt)
    ≡ Result.ok (renewed_store, some second_attempt, none)
unfolding reserve reserve_slots
renewed_run = refl

reserve-counts_example :
    usage renewed_store.ledger PeriodKind.day today.day_key
    ≡ held renewed_store PeriodKind.day today.day_key
      + (if is_some (reserve_slots one_attempt.ledger today 5 20).1
          then 0
          else spent "t" (some first_attempt) PeriodKind.day today.day_key)
unfolding log_event next_attempt
reserve-counts_example =
    reserve-counts one_attempt "a2" 9 candidate opening today 5 20 Lane.review TailoringLevel.l1
      (some first_attempt) renewed_run one_attempt-IsConserved refl PeriodKind.day today.day_key

first_attempt-HasPeriods : HasPeriods first_attempt
unfolding next_attempt
first_attempt-HasPeriods = record {
  tenant = "t";
  keys = today;
  is_tenant = refl;
  day = refl;
  week = refl;
  day_named = refl;
  week_named = refl;
}

first_attempt-mine : first_attempt.tenant_id ≡ some one_attempt.tenant_id
unfolding next_attempt log_event
first_attempt-mine = refl

first_attempt-IsStored : IsStored one_attempt first_attempt
unfolding next_attempt log_event
first_attempt-IsStored = refl

release_attempt-IsConserved_example :
    IsConserved (release_attempt one_attempt first_attempt ApplicationStatus.failed "stale" 9).0
release_attempt-IsConserved_example =
    release_attempt-IsConserved one_attempt first_attempt ApplicationStatus.failed "stale" 9
      one_attempt-IsConserved first_attempt-HasPeriods first_attempt-mine first_attempt-IsStored

abbrev plain_names : Names
plain_names = record { company_key = λ c. c; title_key = λ c. c }

abbrev open_policy : ApplicationPolicy
open_policy = record {
  tenant_id = "t";
  enabled_bands = FitBand.high ∷ FitBand.medium ∷ [];
  band_thresholds = [];
  daily_cap = 5;
  weekly_cap = 20;
  tailoring_by_band = [];
  lane_by_band = [];
  cover_letter_by_band = [];
  cooldown_days = 30;
  blocked_companies = [];
  minimum_eligibility = EligibilityDecision.likely;
  duplicate_policy = DuplicatePolicy.block;
  minimum_fit_score = none;
  timezone = "UTC";
  version = 1;
}

abbrev fresh_context : Context
fresh_context = record {
  policy = open_policy;
  now = 100;
  cooldown = empty_index;
  duplicates = [];
  attempts = [];
  queue_items = [];
  preparations = [];
  geography = [];
  relevance = [];
}

decide_run : (decide plain_names fresh_context candidate opening).code ≡ AdmissionReason.admitted
unfolding decide evaluate_admission is_blocked active_until has_other
decide_run = refl

decide-IsAdmissible_example : IsAdmissible plain_names fresh_context candidate opening
decide-IsAdmissible_example =
    decide-IsAdmissible plain_names fresh_context candidate opening decide_run

abbrev sent_attempt : ApplicationRow
sent_attempt = record first_attempt { status = ApplicationStatus.uncertain }

abbrev confirmed_attempt : ApplicationRow
confirmed_attempt = moved_attempt sent_attempt ApplicationStatus.submitted none

confirm_run :
    transition one_attempt sent_attempt ApplicationStatus.submitted none false
    ≡ Result.ok (
      commit_attempt one_attempt sent_attempt confirmed_attempt "attempt",
      confirmed_attempt,
      true,
    )
unfolding transition
confirm_run = refl

RunsTo-is_past_submitting_example : is_past_submitting confirmed_attempt.status ≡ true
RunsTo-is_past_submitting_example =
    RunsTo-is_past_submitting
      (RunsTo.move one_attempt (commit_attempt one_attempt sent_attempt confirmed_attempt "attempt")
        ApplicationStatus.submitted none RunsTo.origin refl confirm_run)
      refl

reserve_times_granted_example :
    (reserve_times today 5 20 7 no_slots).1
    ≡ smaller 7 (
        smaller
          (5 - usage no_slots PeriodKind.day today.day_key)
          (20 - usage no_slots PeriodKind.week today.week_key))
reserve_times_granted_example = reserve_times_granted today 5 20 7 no_slots no_slots-IsKeyedLedger
