-- ===== src/Execution/Execute/Doubtful.antt =====
-- app/execution/service.py: what an executor's failure after the click makes of the attempt.
use range_apply.Application.Models.{ApplicationStatus}
use range_apply.Application.Rows.{ApplicationRow}
use range_apply.Common.{
  Bool, List, String, arith, false, find_first, if◌then◌else◌, none, not, refl, some, str_eq, true,
  ℕ, ◌≡◌,
}
use range_apply.Core.Errors.{Result, bind-ok}
use range_apply.Execution.Execute.{Acted, Executor, acted_result, execute_report, with_verification}
use range_apply.Execution.Gate.{GateFailure}
use range_apply.Execution.Models.{ExecutionOutcome, ExecutionStatus, VerificationStatus}
use range_apply.Execution.Preconditions.{has_status}
use range_apply.Execution.Report.{
  ExecutionResult, message_or, report_outcome, report_unknown, reported_run,
}
use range_apply.Execution.Report.Reopened.{on_queue-frame, step_attempt-rows}
use range_apply.Execution.Runs.{ExecutionRunRow, ExecutionStore, audit, finish_run, put_run}
use range_apply.Execution.Settle.{on_queue}
use range_apply.Execution.Start.{may_take}
use range_apply.Execution.Verification.{step_attempt}
use range_apply.Pipeline.Queue.Outcomes.{needs_review}
use range_apply.Pipeline.Rows.{QueueRow}
use range_apply.Scheduler.Attempts.{moved_attempt}
use range_apply.Scheduler.Attempts.Held.{find_first-save_row}

-- The executor failed, and does not say that it was before the click.
abbrev pub may_have_clicked : Acted → Bool
may_have_clicked (Acted.answered result) = false
may_have_clicked (Acted.refused err) = not err.before_submit
may_have_clicked (Acted.crashed kind text) = true

acted_result-unknown :
    (acted : Acted)
    → may_have_clicked acted ≡ true
    → (acted_result false acted).1.outcome ≡ ExecutionOutcome.unknown
unfolding acted_result
acted_result-unknown (Acted.answered result) h = ground (arith, h)
acted_result-unknown (Acted.refused err) h = ground (arith, h)
acted_result-unknown (Acted.crashed kind text) h = refl

with_verification-unknown :
    (x : Executor) (result : ExecutionResult)
    → result.outcome ≡ ExecutionOutcome.unknown
    → (with_verification x result).outcome ≡ ExecutionOutcome.unknown
with_verification-unknown x result h = ground (arith, h)

module _ (s : ExecutionStore) (item : QueueRow) (worker_id : String) (run : ExecutionRunRow)
    (attempt : ApplicationRow) (result : ExecutionResult) where
  abbrev doubted : ApplicationRow
  doubted =
      moved_attempt attempt ApplicationStatus.uncertain
        (some (message_or result "submit outcome unknown"))

  abbrev unknown_run : ℕ → ExecutionRunRow
  unknown_run now =
      record (finish_run (record run { submit_invoked = true }) ExecutionStatus.unknown
        (some result.outcome) none none now) { verification_status = VerificationStatus.pending }

  report_unknown-doubts :
      (now : ℕ) {r : ExecutionStore × QueueRow}
      → has_status ApplicationStatus.submitting attempt ≡ true
      → find_first (λ x. str_eq x.id attempt.id) s.attempts.rows ≡ some attempt
      → report_unknown s item worker_id run attempt result now ≡ Result.ok r
      → find_first (λ x. str_eq x.id attempt.id) r.0.attempts.rows ≡ some doubted
  unfolding report_unknown audit
  report_unknown-doubts now {r} pressed stored h =
      let (moved, (stepped, h1)) =
        bind-ok
          (step_attempt (put_run s (unknown_run now)) attempt ApplicationStatus.uncertain
            (message_or result "submit outcome unknown"))
          _ h in
      let (done, (parked, h2)) =
        bind-ok
          (on_queue moved.0 (
            needs_review moved.0.queue item worker_id
              "submit outcome unknown: verify before anything else; never resubmitted automatically"))
          _ h1 in
      let frame = on_queue-frame moved.0 _ parked in
      let rows =
        step_attempt-rows (put_run s (unknown_run now)) attempt ApplicationStatus.uncertain
          (message_or result "submit outcome unknown") (ground (arith, pressed)) stepped in
      let last : r.0.attempts ≡ done.0.attempts = ground (arith, h2) in
      let once = find_first-save_row attempt attempt s.attempts.rows refl stored in
      let twice = find_first-save_row attempt doubted _ refl once in
      rw (last, frame.0, rows.0) twice

  report_outcome-unknown :
      (day_end week_end now : ℕ) {r : ExecutionStore × QueueRow}
      → result.outcome ≡ ExecutionOutcome.unknown
      → report_outcome s item worker_id run attempt result day_end week_end now ≡ Result.ok r
      → report_unknown
          (put_run s (reported_run run result))
          item
          worker_id
          (reported_run run result)
          attempt
          result
          now
        ≡ Result.ok r
  unfolding report_outcome
  report_outcome-unknown day_end week_end now kind h = ground (arith, h, kind)

-- An executor that is not in a dry run and fails, by a crash or by an error that does not say that it
-- came before the click, leaves a submitting attempt uncertain: no guarded update takes it again.
pub execute_report-doubts :
    (x : Executor) (failures : List GateFailure) (s : ExecutionStore) (item : QueueRow)
    (worker_id : String) (run : ExecutionRunRow) (attempt : ApplicationRow)
    (day_end week_end now : ℕ) {r : ExecutionStore × QueueRow}
    → x.dry_run ≡ false
    → may_have_clicked (x.acted failures) ≡ true
    → has_status ApplicationStatus.submitting attempt ≡ true
    → find_first (λ x. str_eq x.id attempt.id) s.attempts.rows ≡ some attempt
    → execute_report x failures s item worker_id run attempt day_end week_end now ≡ Result.ok r
    → (row : ApplicationRow) × ((find_first (λ x. str_eq x.id attempt.id) r.0.attempts.rows
          ≡ some row)
        × (has_status ApplicationStatus.uncertain row ≡ true)
        × (may_take row ≡ false))
unfolding execute_report
execute_report-doubts x failures s item worker_id run attempt day_end week_end now {r} real doubt
      pressed stored h =
    let answer = acted_result false (x.acted failures) in
    let result = with_verification x answer.1 in
    let run' : ExecutionRunRow = if answer.0 then record run { submit_invoked = false } else run in
    let kind =
      with_verification-unknown x answer.1 (acted_result-unknown (x.acted failures) doubt) in
    let told =
      report_outcome-unknown s item worker_id run' attempt result day_end week_end now kind
        (rw real at h) in
    let row = doubted (put_run s (reported_run run' result)) item worker_id run' attempt result in
    let found =
      report_unknown-doubts (put_run s (reported_run run' result)) item worker_id
        (reported_run run' result) attempt result now pressed stored told in
    (row, (found, refl, refl))
