-- ===== src/Execution/Tests/Reports.antt =====
-- app/execution/service.py: a report, a verification and the recovery on concrete rows.
use range_apply.Application.KillSwitch.{is_paused}
use range_apply.Application.Models.{ApplicationStatus}
use range_apply.Application.Rows.{ApplicationRow, save_attempt}
use range_apply.Common.{
  All, List, [], arith, false, find_first, none, refl, some, str_eq, true, ◌||◌, ◌∷◌, ◌≡◌,
}
use range_apply.Core.Errors.{Result}
use range_apply.Execution.Execute.{
  Acted, Checked, Executor, Prepared, acted_result, execute, execute_click, execute_report,
  execute_run,
}
use range_apply.Execution.Execute.Doubtful.{execute_report-doubts}
use range_apply.Execution.Gate.{pre_submit_gate, switch_failures}
use range_apply.Execution.Models.{ExecutionOutcome, VerificationStatus}
use range_apply.Execution.Preconditions.{
  check, check_caps, has_status, history_failures, opening_failures, preparation_failures,
  static_failures, status_failures,
}
use range_apply.Execution.Recovery.{Recovery, force_attempt, is_live, item_of, recover_lost_runs}
use range_apply.Execution.Recovery.Kept.{is_done}
use range_apply.Execution.Recovery.Lost.{running_runs}
use range_apply.Execution.Recovery.Returns.{recover_lost_runs-ends}
use range_apply.Execution.Report.{ExecutionResult, report_outcome, report_retryable, report_unknown}
use range_apply.Execution.Report.Reopened.{report_outcome-reopens}
use range_apply.Execution.Runs.{
  ExecutionRunRow, ExecutionStore, attempt_for_item, audit, crashed_run, get_attempt, join_openings,
  newest, require_attempt, save_run, situation_of, source_of, stale_of,
}
use range_apply.Execution.Settle.{on_queue}
use range_apply.Execution.Start.{StartOutcome, may_take, started_run, take_attempt, take_row}
use range_apply.Execution.Start.Entry.{
  begin_item, start_attempt, start_checked, start_item, start_offered, start_ready,
}
use range_apply.Execution.SubmissionMode.{get_state, is_live_enabled}
use range_apply.Execution.Tests.{
  first_run, held_item, live_today, lower_case, mock_offer, plain, pressed_attempt, pressing,
  tables, value_or,
}
use range_apply.Execution.Verification.{
  VerificationResult, apply_as, apply_verification, apply_verified, mark_sent, mark_verified,
  resolve_item, step_attempt,
}
use range_apply.Execution.Verification.Decided.{apply_verification-decides, decided_status}
use range_apply.Pipeline.Models.{QueueState}
use range_apply.Pipeline.Queue.{assert_owner}
use range_apply.Pipeline.Queue.Outcomes.{fail, needs_review, resolve}
use range_apply.Pipeline.Rows.{QueueRow}
use range_apply.Scheduler.Attempts.{transition}

abbrev clicked_run : ExecutionRunRow
clicked_run = record first_run { submit_invoked = true }

abbrev after_click : ExecutionStore
after_click = record pressing { runs = clicked_run ∷ [] }

abbrev lost_network : ExecutionResult
lost_network = record {
  outcome = ExecutionOutcome.retryable_failure;
  submit_attempted = true;
  handoff_reason = none;
  error_class = none;
  message = some "timeout";
  application_url = none;
  external_application_id = none;
  confirmation_reference = none;
  verification = none;
}

abbrev reported : ExecutionStore × QueueRow
reported =
    value_or
      (report_outcome after_click held_item "w" clicked_run pressed_attempt lost_network 90 600 20)
      (after_click, held_item)

reported_ok :
    report_outcome after_click held_item "w" clicked_run pressed_attempt lost_network 90 600 20
    ≡ Result.ok (reported.0, reported.1)
unfolding report_outcome report_retryable step_attempt transition on_queue fail assert_owner
reported_ok = refl

report_outcome-reopens_example :
    (row : ApplicationRow) × ((find_first (λ x. str_eq x.id "a1") reported.0.attempts.rows
        ≡ some row)
      × (may_take row ≡ true))
report_outcome-reopens_example =
    report_outcome-reopens after_click held_item "w" clicked_run pressed_attempt lost_network 90 600
      20 refl refl refl refl (ground arith) reported_ok

abbrev doubtful : ApplicationRow
doubtful = record pressed_attempt { status = ApplicationStatus.uncertain }

abbrev receipt : VerificationResult
receipt = record {
  status = VerificationStatus.verified;
  method = "confirmation_page";
  detail = some "thank you";
  external_application_id = some "77";
  confirmation_reference = some "R-77";
  application_url = none;
}

abbrev settled : ExecutionStore × ApplicationRow
settled =
    value_or (apply_verification after_click clicked_run doubtful receipt (some held_item) 30)
      (after_click, doubtful)

settled_ok :
    apply_verification after_click clicked_run doubtful receipt (some held_item) 30
    ≡ Result.ok (settled.0, settled.1)
unfolding apply_verification apply_as apply_verified mark_verified mark_sent force_attempt
    transition step_attempt resolve_item resolve
settled_ok = refl

apply_verification-decides_example : has_status ApplicationStatus.verified settled.1 ≡ true
unfolding decided_status
apply_verification-decides_example =
    apply_verification-decides after_click clicked_run doubtful receipt (some held_item) 30
      settled_ok

recover_lost_runs-ends_example :
    (r : ExecutionStore × List Recovery) × ((recover_lost_runs after_click 200
        ≡ Result.ok (r.0, r.1))
      × All
          (λ run. (is_live (item_of after_click run) 200 || is_done r.0.runs run.id) ≡ true)
          (running_runs after_click))
recover_lost_runs-ends_example = recover_lost_runs-ends after_click 200

abbrev broken_executor : Executor
broken_executor = record {
  dry_run = false;
  prepared = Prepared.form false 0 0;
  asks_gate = true;
  acted = λ failures. Acted.crashed "TimeoutError" "no answer";
  checked = λ result. Checked.crashed "TimeoutError";
}

abbrev crashed_tables : ExecutionStore × QueueRow
crashed_tables =
    value_or
      (execute_report broken_executor [] after_click held_item "w" clicked_run pressed_attempt 90
        600 20)
      (after_click, held_item)

crashed_ok :
    execute_report broken_executor [] after_click held_item "w" clicked_run pressed_attempt 90 600
      20
    ≡ Result.ok (crashed_tables.0, crashed_tables.1)
unfolding execute_report report_outcome acted_result report_unknown step_attempt transition on_queue
    needs_review
crashed_ok = refl

execute_report-doubts_example :
    (row : ApplicationRow) × ((find_first (λ x. str_eq x.id "a1") crashed_tables.0.attempts.rows
        ≡ some row)
      × (has_status ApplicationStatus.uncertain row ≡ true)
      × (may_take row ≡ false))
execute_report-doubts_example =
    execute_report-doubts broken_executor [] after_click held_item "w" clicked_run pressed_attempt
      90 600 20 refl refl refl refl crashed_ok

abbrev executed : ExecutionStore × QueueRow × StartOutcome
executed =
    value_or (execute plain lower_case live_today mock_offer broken_executor tables held_item "w")
      (tables, held_item, StartOutcome.lost_race)

-- From the claimed item to the report: the crash parks the item.
executed_parked : executed.1.state ≡ QueueState.needs_review
unfolding execute execute_run execute_click pre_submit_gate start_item attempt_for_item begin_item
    start_attempt start_ready start_checked start_offered take_attempt take_row crashed_run newest
    source_of check situation_of static_failures preparation_failures status_failures stale_of
    opening_failures history_failures join_openings check_caps is_paused execute_report
    report_outcome acted_result report_unknown step_attempt transition on_queue needs_review
    assert_owner get_attempt switch_failures is_live_enabled get_state audit save_run save_attempt
    require_attempt started_run
executed_parked = refl
