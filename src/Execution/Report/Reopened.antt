-- ===== src/Execution/Report/Reopened.antt =====
-- app/execution/service.py: what a reported failure does to an attempt whose click has passed.
use range_apply.Application.Models.{ApplicationStatus, attempt_place}
use range_apply.Application.Rows.{ApplicationRow, save_attempt}
use range_apply.Common.{
  String, arith, false, find_first, refl, some, str_eq, true, ℕ, ◌<◌, ◌==◌, ◌≡◌,
}
use range_apply.Core.Errors.{Result, bind-ok}
use range_apply.Execution.Models.{ExecutionOutcome, ExecutionStatus}
use range_apply.Execution.Preconditions.{has_status}
use range_apply.Execution.Report.{
  ExecutionResult, end_run, message_or, report_outcome, report_retryable, reported_run, unlocked,
}
use range_apply.Execution.Runs.{ExecutionRunRow, ExecutionStore, audit, put_run}
use range_apply.Execution.Settle.{on_queue}
use range_apply.Execution.Start.{may_take}
use range_apply.Execution.Verification.{step_attempt}
use range_apply.Pipeline.Models.{QueueState, queue_place}
use range_apply.Pipeline.Queue.{QueueStore}
use range_apply.Pipeline.Queue.Outcomes.{fail}
use range_apply.Pipeline.Rows.{QueueRow}
use range_apply.Scheduler.Attempts.{commit_attempt, log_event, moved_attempt, transition}
use range_apply.Scheduler.Attempts.Held.{find_first-save_row}

pub step_attempt-rows :
    (x : ExecutionStore) (row : ApplicationRow) (status : ApplicationStatus) (reason : String)
    {r : ExecutionStore × ApplicationRow}
    → (attempt_place row.status == attempt_place status) ≡ false
    → step_attempt x row status reason ≡ Result.ok r
    → (r.0.attempts.rows
        ≡ save_attempt (moved_attempt row status (some reason)) (save_attempt row x.attempts.rows))
      × (r.1 ≡ moved_attempt row status (some reason))
unfolding step_attempt transition commit_attempt log_event
step_attempt-rows x row status reason other h = (ground (arith, other, h), ground (arith, other, h))

pub on_queue-frame :
    (x : ExecutionStore) (moved : Result (QueueStore × QueueRow)) {r : ExecutionStore × QueueRow}
    → on_queue x moved ≡ Result.ok r
    → (r.0.attempts ≡ x.attempts) × (moved ≡ Result.ok (r.0.queue, r.1))
unfolding on_queue
on_queue-frame x moved h = (ground (arith, h), ground (arith, h))

module _ (s : ExecutionStore) (item : QueueRow) (worker_id : String) (run : ExecutionRunRow)
    (attempt : ApplicationRow) (result : ExecutionResult) (now : ℕ) where
  abbrev reopened : ApplicationRow
  reopened =
      moved_attempt (unlocked attempt) ApplicationStatus.ready
        (some (message_or result "retryable failure"))

  fail-waits :
      (q : QueueStore) (error : String) {r : QueueStore × QueueRow}
      → item.attempts < item.max_attempts
      → fail q item worker_id now error true ≡ Result.ok r
      → (queue_place r.1.state == queue_place QueueState.failed) ≡ false
  unfolding fail
  fail-waits q error tries h = ground (arith, tries, h)

  -- A reported failure that may be retried makes the attempt ready for the next guarded update, while
  -- the item has tries left, even when the run's click has passed the gate: the run is not asked.
  report_retryable-reopens :
      {r : ExecutionStore × QueueRow}
      → has_status ApplicationStatus.submitting attempt ≡ true
      → find_first (λ x. str_eq x.id attempt.id) s.attempts.rows ≡ some attempt
      → item.attempts < item.max_attempts
      → report_retryable s item worker_id run attempt result now ≡ Result.ok r
      → (row : ApplicationRow) × ((find_first (λ x. str_eq x.id attempt.id) r.0.attempts.rows
            ≡ some row)
          × (may_take row ≡ true))
  unfolding report_retryable audit
  report_retryable-reopens {r} pressed stored tries h =
      let (moved, (stepped, h1)) =
        bind-ok
          (step_attempt (end_run s run ExecutionStatus.failed_retryable result now)
            (unlocked attempt) ApplicationStatus.ready (message_or result "retryable failure"))
          _ h in
      let (done, (failed, h2)) =
        bind-ok
          (on_queue moved.0
            (fail moved.0.queue item worker_id now (message_or result "retryable failure") true))
          _ h1 in
      let frame = on_queue-frame moved.0 _ failed in
      let waits = fail-waits moved.0.queue (message_or result "retryable failure") tries frame.1 in
      let rows =
        step_attempt-rows (end_run s run ExecutionStatus.failed_retryable result now)
          (unlocked attempt) ApplicationStatus.ready (message_or result "retryable failure")
          (ground (arith, pressed)) stepped in
      let last : r.0.attempts ≡ done.0.attempts = ground (arith, waits, h2) in
      let once = find_first-save_row attempt (unlocked attempt) s.attempts.rows refl stored in
      let twice = find_first-save_row (unlocked attempt) reopened _ refl once in
      (reopened, (rw (last, frame.0, rows.0) twice, refl))

-- A reported failure that may be retried makes a submitting attempt ready for the next guarded update,
-- while the item has tries left, even when the run's click has passed the gate.
pub report_outcome-reopens :
    (s : ExecutionStore) (item : QueueRow) (worker_id : String) (run : ExecutionRunRow)
    (attempt : ApplicationRow) (result : ExecutionResult) (day_end week_end now : ℕ)
    {r : ExecutionStore × QueueRow}
    → run.submit_invoked ≡ true
    → result.outcome ≡ ExecutionOutcome.retryable_failure
    → has_status ApplicationStatus.submitting attempt ≡ true
    → find_first (λ x. str_eq x.id attempt.id) s.attempts.rows ≡ some attempt
    → item.attempts < item.max_attempts
    → report_outcome s item worker_id run attempt result day_end week_end now ≡ Result.ok r
    → (row : ApplicationRow) × ((find_first (λ x. str_eq x.id attempt.id) r.0.attempts.rows
          ≡ some row)
        × (may_take row ≡ true))
unfolding report_outcome
report_outcome-reopens s item worker_id run attempt result day_end week_end now {r} clicked kind
      pressed stored tries h =
    let run' = reported_run run result in
    let again : report_retryable (put_run s run') item worker_id run' attempt result now
        ≡ Result.ok r =
      ground (arith, h, kind) in
    report_retryable-reopens (put_run s run') item worker_id run' attempt result now pressed stored
      tries again
