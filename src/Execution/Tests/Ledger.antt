-- ===== src/Execution/Tests/Ledger.antt =====
-- app/execution: the ledger after a refresh and after a cancellation, on concrete rows.
use range_apply.Application.Rows.{ApplicationRow}
use range_apply.Common.{String, [], arith, none, refl, some, true, ◌<◌, ◌≡◌, ◌≤◌}
use range_apply.Core.Errors.{Result}
use range_apply.Execution.Humans.{cancel_attempt, close_item, dropped_attempt}
use range_apply.Execution.Humans.Slots.{cancel_attempt-IsConserved}
use range_apply.Execution.Models.{PreconditionCode}
use range_apply.Execution.Preconditions.{check_caps}
use range_apply.Execution.Preconditions.Refresh.{
  check_caps-IsConserved, check_caps-week_full, with_checked,
}
use range_apply.Execution.Runs.{ExecutionStore, get_attempt, item_for, require_attempt}
use range_apply.Execution.Tests.{
  monday, one_ready, one_slot, ready_attempt, tables, tuesday, two_a_day, value_or,
}
use range_apply.Pipeline.Policy.{ApplicationPolicy}
use range_apply.Pipeline.Queue.{commit_change, find_item, idempotency_key}
use range_apply.Pipeline.Queue.Outcomes.{cancel}
use range_apply.Scheduler.Attempts.{release_attempt}
use range_apply.Scheduler.Attempts.Held.{IsConserved, held, scheduled_holds}
use range_apply.Scheduler.Attempts.Released.{HasPeriods}
use range_apply.Scheduler.Caps.{CapLedger, PeriodKind, reserve_slots, usage}
use range_apply.Scheduler.Caps.Ensure.{IsKeyedLedger}
use range_apply.Scheduler.Caps.Reserve.{
  reserve_slots-IsKeyedLedger, reserve_slots-tenant, usage-reserve_slots,
}

abbrev empty_ledger : CapLedger
empty_ledger = record { tenant_id = "t"; entries = [] }

empty_ledger-IsKeyedLedger : IsKeyedLedger empty_ledger
empty_ledger-IsKeyedLedger = record {
  at_period = λ k j. ground arith;
  balanced = λ k j r h. absurd (ground (arith, h));
}

one_slot_granted : (reserve_slots empty_ledger monday 2 1).1 ≡ none
unfolding reserve_slots
one_slot_granted = refl

empty_usage : (k : PeriodKind) (j : String) → usage empty_ledger k j ≡ 0
unfolding usage
empty_usage k j = refl

one_ready-counted : (k : PeriodKind) (j : String) → usage one_slot k j ≡ held one_ready k j
unfolding held
one_ready-counted k j = ground (
  arith,
  usage-reserve_slots empty_ledger monday 2 1 empty_ledger-IsKeyedLedger k j,
  scheduled_holds one_ready ready_attempt monday "t" refl refl refl refl k j,
  one_slot_granted,
  empty_usage k j,
)

one_ready-IsConserved : IsConserved one_ready
one_ready-IsConserved = record {
  same_tenant = reserve_slots-tenant empty_ledger monday 2 1;
  keyed = reserve_slots-IsKeyedLedger empty_ledger monday 2 1 empty_ledger-IsKeyedLedger;
  counted = one_ready-counted;
}

ready_attempt-HasPeriods : HasPeriods ready_attempt
ready_attempt-HasPeriods = record {
  tenant = "t";
  keys = monday;
  is_tenant = refl;
  day = refl;
  week = refl;
  day_named = refl;
  week_named = refl;
}

abbrev roomy : ApplicationPolicy
roomy = record two_a_day { weekly_cap = 5 }

check_caps-IsConserved_example :
    IsConserved (with_checked one_ready (check_caps roomy one_slot ready_attempt tuesday 30 true))
check_caps-IsConserved_example =
    check_caps-IsConserved one_ready ready_attempt roomy tuesday 30 one_ready-IsConserved refl refl
      (λ h. ready_attempt-HasPeriods) true

tuesday_free : usage one_slot PeriodKind.day "2026-09-15" < 2
unfolding usage reserve_slots
tuesday_free = ground arith

week_used : 1 ≤ usage one_slot PeriodKind.week "2026-W38"
unfolding usage reserve_slots
week_used = ground arith

check_caps-week_full_example :
    (check_caps two_a_day one_slot ready_attempt tuesday 30 true).2
    ≡ some PreconditionCode.weekly_cap_reached
check_caps-week_full_example =
    check_caps-week_full one_ready ready_attempt two_a_day tuesday 30 one_ready-IsConserved refl
      refl (λ h. ready_attempt-HasPeriods) (ground arith) (ground arith) refl refl refl tuesday_free
      week_used

abbrev cancelled_tables : ExecutionStore × ApplicationRow
cancelled_tables = value_or (cancel_attempt tables "a1" "me" none 30) (tables, ready_attempt)

cancel_run : cancel_attempt tables "a1" "me" none 30 ≡ Result.ok cancelled_tables
unfolding cancel_attempt require_attempt get_attempt close_item item_for dropped_attempt
    release_attempt find_item idempotency_key cancel commit_change
cancel_run = refl

cancel_found : get_attempt tables "a1" ≡ some ready_attempt
unfolding get_attempt
cancel_found = refl

cancel_attempt-IsConserved_example : IsConserved cancelled_tables.0.attempts
cancel_attempt-IsConserved_example =
    cancel_attempt-IsConserved tables "a1" "me" none 30 ready_attempt cancel_found
      one_ready-IsConserved ready_attempt-HasPeriods refl refl cancel_run
