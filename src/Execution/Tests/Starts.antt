-- ===== src/Execution/Tests/Starts.antt =====
-- app/execution/service.py: a start, and what a person does, on concrete rows.
use range_apply.Application.KillSwitch.{is_paused}
use range_apply.Application.Models.{ApplicationStatus}
use range_apply.Application.Rows.{ApplicationRow}
use range_apply.Common.{[], false, none, not, refl, true, ◌<◌, ◌||◌, ◌∷◌, ◌≡◌}
use range_apply.Core.Errors.{Result}
use range_apply.Execution.Humans.{retried, retry, retry_item}
use range_apply.Execution.Humans.Refusals.{IsRetried, retry-IsRetried}
use range_apply.Execution.Preconditions.{
  check, check_caps, history_failures, is_same_period, opening_failures, preparation_failures,
  static_failures, status_failures,
}
use range_apply.Execution.Preconditions.Passed.{IsClear, check-IsClear}
use range_apply.Execution.Recovery.{force_attempt}
use range_apply.Execution.Runs.{
  ExecutionStore, attempt_for_item, crashed_run, get_attempt, item_for, join_openings, newest,
  require_attempt, situation_of, source_of, stale_of,
}
use range_apply.Execution.Start.{StartOutcome, Started, take_attempt, take_row}
use range_apply.Execution.Start.Entry.{
  begin_item, start_attempt, start_checked, start_item, start_offered, start_ready,
}
use range_apply.Execution.Start.Guard.{IsEntered, start_item-IsEntered}
use range_apply.Execution.Tests.{
  held_item, live_today, lower_case, mock_offer, monday, one_ready, one_slot, plain, ready_attempt,
  tables, two_a_day, value_or,
}
use range_apply.Pipeline.Queue.{find_item, idempotency_key}
use range_apply.Pipeline.Rows.{QueueRow}
use range_apply.Scheduler.Attempts.{transition}

abbrev nothing_started : Started
nothing_started = record {
  store = tables;
  item = held_item;
  run = none;
  outcome = StartOutcome.lost_race;
}

abbrev started_tables : Started
started_tables =
    value_or (start_item plain lower_case live_today mock_offer tables held_item "w")
      nothing_started

start_run :
    start_item plain lower_case live_today mock_offer tables held_item "w"
    ≡ Result.ok started_tables
unfolding start_item attempt_for_item begin_item start_attempt start_ready start_checked
    start_offered take_attempt take_row crashed_run newest source_of check situation_of
    static_failures preparation_failures status_failures stale_of opening_failures history_failures
    join_openings check_caps is_paused
start_run = refl

start_outcome : started_tables.outcome ≡ StartOutcome.started
unfolding start_item attempt_for_item begin_item start_attempt start_ready start_checked
    start_offered take_attempt take_row crashed_run newest source_of check situation_of
    static_failures preparation_failures status_failures stale_of opening_failures history_failures
    join_openings check_caps is_paused
start_outcome = refl

start_item-IsEntered_example :
    (attempt : ApplicationRow) × ((begun : ExecutionStore × QueueRow) × ((current : ExecutionStore
          × ApplicationRow)
        × IsEntered plain lower_case live_today mock_offer tables held_item "w" attempt begun
            current started_tables))
start_item-IsEntered_example =
    start_item-IsEntered plain lower_case live_today mock_offer tables held_item "w" start_outcome
      start_run

check_run :
    (check plain lower_case
      (situation_of tables live_today ready_attempt)
      one_slot
      ready_attempt
      true
      false).2.ok
    ≡ true
unfolding check situation_of static_failures preparation_failures status_failures stale_of
    opening_failures history_failures join_openings check_caps
check_run = refl

check-IsClear_example :
    IsClear plain lower_case (situation_of tables live_today ready_attempt) ready_attempt false
    × (0 < two_a_day.daily_cap)
    × (0 < two_a_day.weekly_cap)
    × ((not true
          || is_same_period
              (check plain lower_case
                (situation_of tables live_today ready_attempt)
                one_slot
                ready_attempt
                true
                false).1
              monday)
        ≡ true)
unfolding situation_of
check-IsClear_example =
    check-IsClear plain lower_case (situation_of tables live_today ready_attempt) one_slot
      ready_attempt true false check_run

abbrev parked_tables : ExecutionStore
parked_tables = record tables {
  attempts = record one_ready {
    rows = record ready_attempt { status = ApplicationStatus.needs_review } ∷ [];
  };
}

abbrev retried_tables : ExecutionStore × ApplicationRow
retried_tables =
    value_or (retry (λ n. "new") 3 30 (λ rows. rows) parked_tables "a1" "me" none)
      (tables, ready_attempt)

retry_run :
    retry (λ n. "new") 3 30 (λ rows. rows) parked_tables "a1" "me" none ≡ Result.ok retried_tables
unfolding retry require_attempt get_attempt retried force_attempt transition retry_item item_for
    find_item idempotency_key
retry_run = refl

retry-IsRetried_example :
    (attempt : ApplicationRow) × IsRetried parked_tables "a1" attempt retried_tables.1
retry-IsRetried_example =
    retry-IsRetried (λ n. "new") 3 30 (λ rows. rows) parked_tables "a1" "me" none retry_run
