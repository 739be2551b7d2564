-- ===== src/Execution/Report.antt =====
-- app/execution/service.py: `_report`, what an executor's result makes of the run, the attempt and
-- the item. The diagnostics and the signal are left out.
pub mod Reopened
use Prim.Native.String
use range_apply.Application.Models.{ApplicationStatus}
use range_apply.Application.Rows.{ApplicationRow}
use range_apply.Common.{
  Bool, Option, String, [], false, if◌then◌else◌, none, or_else, some, true, ℕ, ◌==◌, ◌||◌, ◌∷◌,
}
use range_apply.Core.Errors.{Result, ServiceError, ◌>>=◌, ◌>>◌}
use range_apply.Core.Texts.{clip_or_none, in_text, opt_eq, take_chars, text_or}
use range_apply.Execution.Models.{ErrorClass, ExecutionOutcome, ExecutionStatus, VerificationStatus}
use range_apply.Execution.Runs.{
  ExecutionRunRow, ExecutionStore, attempt_for_item, audit, crashed_run, finish_run, put_attempt,
  put_run,
}
use range_apply.Execution.Settle.{handoff, on_queue, wait_until}
use range_apply.Execution.Verification.{
  VerificationResult, apply_verification, move_candidate, step_attempt,
}
use range_apply.Pipeline.Models.{OpportunityState, QueueState, queue_place}
use range_apply.Pipeline.Queue.{QueueStore, assert_owner}
use range_apply.Pipeline.Queue.Outcomes.{block, fail, needs_review, succeed}
use range_apply.Pipeline.Rows.{QueueRow}
use range_apply.Scheduler.Attempts.{release_attempt}

-- `ExecutionResult`; a handoff's reason is its value
pub record ExecutionResult : Type 0 where
  pub outcome : ExecutionOutcome
  pub submit_attempted : Bool
  pub handoff_reason : Option String
  pub error_class : Option ErrorClass
  pub message : Option String
  pub application_url : Option String
  pub external_application_id : Option String
  pub confirmation_reference : Option String
  pub verification : Option VerificationResult

-- `result.message or …`
abbrev pub message_or : ExecutionResult → String → String
message_or result fallback = text_or (or_else result.message "") fallback

-- The columns of the run that every result fills
abbrev pub reported_run : ExecutionRunRow → ExecutionResult → ExecutionRunRow
reported_run run result = record run {
  outcome = some result.outcome;
  submit_invoked = run.submit_invoked || result.submit_attempted;
  application_url = result.application_url;
  external_application_id = result.external_application_id;
  confirmation_reference = result.confirmation_reference;
  error_class = result.error_class;
  error_message = clip_or_none 2000 result.message;
}

-- The attempt without its key
abbrev pub unlocked : ApplicationRow → ApplicationRow
unlocked attempt = record attempt { submission_key = none }

-- The end of a run, and the item
abbrev pub end_run :
    ExecutionStore → ExecutionRunRow → ExecutionStatus → ExecutionResult → ℕ → ExecutionStore
end_run s run status result now =
    put_run s (finish_run run status (some result.outcome) none none now)

module _ (s : ExecutionStore) (item : QueueRow) (worker_id : String) (run : ExecutionRunRow)
    (attempt : ApplicationRow) (result : ExecutionResult) (now : ℕ) where
  -- SUBMITTED
  unfoldable pub report_submitted : Result (ExecutionStore × QueueRow)
  report_submitted =
      let finished = finish_run run ExecutionStatus.submitted (some result.outcome) none none now in
      do
        r ←
            step_attempt (put_run s finished) attempt ApplicationStatus.submitted
              (message_or result "submitted")
        let row : ApplicationRow = record r.1 {
          submitted_at = some now;
          result_url = result.application_url;
          external_application_id = result.external_application_id;
          confirmation = result.confirmation_reference;
        }
        done ← on_queue (put_attempt r.0 row) (
            succeed r.0.queue item worker_id now (
              some (
                ("outcome", "SUBMITTED")
                ∷ ("run_id", run.id)
                ∷ ("application_id", attempt.id)
                ∷ [])))
        let s2 =
            audit (move_candidate done.0 row OpportunityState.submitted "submitted" now) row
              "execution:submitted"
        elim result.verification [
          | none ↦ Result.ok (s2, done.1)
          | some v ↦ apply_verification s2 finished row v none now >>= λ x. Result.ok (x.0, done.1)
        ]

  -- DRY_RUN
  unfoldable pub report_dry_run : Result (ExecutionStore × QueueRow)
  report_dry_run = do
    r ←
        step_attempt
          (end_run s (record run { submit_invoked = false }) ExecutionStatus.dry_run result now)
          (unlocked attempt) ApplicationStatus.ready (message_or result "dry run")
    done ← on_queue r.0 (
        needs_review r.0.queue item worker_id
          (String.◌++◌ "dry run complete: " (or_else result.message "")))
    Result.ok (audit done.0 r.1 "execution:dry_run", done.1)

  -- UNKNOWN
  unfoldable pub report_unknown : Result (ExecutionStore × QueueRow)
  report_unknown =
      let finished =
        finish_run (record run { submit_invoked = true }) ExecutionStatus.unknown
          (some result.outcome) none none now in
      do
        r ←
            step_attempt
              (put_run s (record finished { verification_status = VerificationStatus.pending }))
              attempt ApplicationStatus.uncertain (message_or result "submit outcome unknown")
        done ← on_queue r.0 (
            needs_review r.0.queue item worker_id
              "submit outcome unknown: verify before anything else; never resubmitted automatically")
        Result.ok (audit done.0 r.1 "execution:unknown", done.1)

  -- RETRYABLE_FAILURE
  unfoldable pub report_retryable : Result (ExecutionStore × QueueRow)
  report_retryable = do
    r ←
        step_attempt (end_run s run ExecutionStatus.failed_retryable result now) (unlocked attempt)
          ApplicationStatus.ready (message_or result "retryable failure")
    done ←
        on_queue r.0
          (fail r.0.queue item worker_id now (message_or result "retryable failure") true)
    last ←
        if queue_place done.1.state == queue_place QueueState.failed
        then step_attempt done.0 r.1 ApplicationStatus.needs_review "retries exhausted"
        else Result.ok (done.0, r.1)
    Result.ok (audit last.0 last.1 "execution:retryable_failure", done.1)

  -- PERMANENT_FAILURE
  unfoldable pub report_permanent : Result (ExecutionStore × QueueRow)
  report_permanent =
      let s1 = end_run s run ExecutionStatus.failed_permanent result now in
      let (attempts', ended) =
        release_attempt s1.attempts attempt ApplicationStatus.failed
          (message_or result "permanent failure") now in
      do
        done ←
            on_queue (record s1 { attempts = attempts' })
              (fail s1.queue item worker_id now (message_or result "permanent failure") false)
        Result.ok (audit done.0 ended "execution:permanent_failure", done.1)

  -- NEEDS_REVIEW of the gate for want of a slot: the item waits for the period's end
  unfoldable pub report_cap : ℕ → ℕ → Result (ExecutionStore × QueueRow)
  report_cap day_end week_end =
      let finished =
        finish_run run ExecutionStatus.precondition_failed (some result.outcome)
          (some ErrorClass.policy) result.message now in
      let weekly = in_text "WEEKLY_CAP_REACHED" (or_else result.message "") in
      do
        r ←
            step_attempt (put_run s finished) (unlocked attempt) ApplicationStatus.ready
              (message_or result "cap reached at submit")
        done ←
            wait_until r.0 item worker_id (take_chars 512 (message_or result "cap reached"))
              (if weekly then week_end else day_end)
        Result.ok (audit done.0 r.1 "execution:cap_wait", done.1)

  -- NEEDS_USER_INPUT, NEEDS_REVIEW and FORM_CHANGED, with their words
  unfoldable pub report_stop :
      ExecutionStatus
      → ApplicationStatus
      → String
      → (ExecutionStore → Result (QueueStore × QueueRow))
      → String
      → Result (ExecutionStore × QueueRow)
  report_stop run_status status reason parked action = do
    r ← step_attempt (end_run s run run_status result now) (unlocked attempt) status reason
    done ← on_queue r.0 (parked r.0)
    Result.ok (audit done.0 r.1 action, done.1)

-- `_report`; `day_end` and `week_end` are the ends of the current periods
unfoldable pub report_outcome :
    ExecutionStore
    → QueueRow
    → String
    → ExecutionRunRow
    → ApplicationRow
    → ExecutionResult
    → ℕ
    → ℕ
    → ℕ
    → Result (ExecutionStore × QueueRow)
report_outcome s item worker_id run attempt result day_end week_end now =
    let run' = reported_run run result in
    let s1 = put_run s run' in
    let user = String.◌++◌ "needs_user_input: " (message_or result "needs_user_input") in
    let changed = String.◌++◌ "FORM_CHANGED: " (message_or result "form_changed") in
    let reviewed = message_or result "needs_review" in
    let by_policy : Bool = elim result.error_class [
      | some ErrorClass.policy ↦ in_text "CAP_REACHED" (or_else result.message "")
      | _ ↦ false
    ] in
    elim result.outcome [
      | ExecutionOutcome.submitted ↦ report_submitted s1 item worker_id run' attempt result now
      | ExecutionOutcome.dry_run ↦ report_dry_run s1 item worker_id run' attempt result now
      | ExecutionOutcome.unknown ↦ report_unknown s1 item worker_id run' attempt result now
      | ExecutionOutcome.retryable_failure ↦
          report_retryable s1 item worker_id run' attempt result now
      | ExecutionOutcome.permanent_failure ↦
          report_permanent s1 item worker_id run' attempt result now
      | ExecutionOutcome.handoff ↦
          handoff s1 item worker_id attempt (some run')
            (or_else result.handoff_reason "USER_CONFIRMATION_REQUIRED")
            (message_or result "human handoff") now
      | ExecutionOutcome.needs_user_input ↦
          report_stop s1 item worker_id run' attempt result now ExecutionStatus.needs_user_input
            ApplicationStatus.needs_user_input (message_or result "needs_user_input")
            (λ x. block x.queue item worker_id user) "execution:needs_user_input"
      | ExecutionOutcome.needs_review ↦
          if by_policy
          then report_cap s1 item worker_id run' attempt result now day_end week_end
          else report_stop s1 item worker_id run' attempt result now ExecutionStatus.needs_review
              ApplicationStatus.needs_review reviewed
              (λ x. needs_review x.queue item worker_id reviewed) "execution:needs_review"
      | ExecutionOutcome.form_changed ↦
          report_stop s1 item worker_id run' attempt result now ExecutionStatus.needs_review
            ApplicationStatus.needs_review changed
            (λ x. needs_review x.queue item worker_id changed) "execution:form_changed"
    ]

-- `report_result`, of a result whose verification the executor has filled
unfoldable pub report_result :
    ExecutionStore
    → QueueRow
    → String
    → ExecutionResult
    → ℕ
    → ℕ
    → ℕ
    → Result (ExecutionStore × QueueRow)
report_result s item worker_id result day_end week_end now = do
  assert_owner item worker_id
  found ← attempt_for_item s item
  elim found [
    | none ↦ Result.raise ServiceError.not_found
    | some attempt ↦ elim (crashed_run s attempt) [
      | none ↦ Result.raise ServiceError.conflict
      | some run ↦
          if opt_eq run.queue_item_id (some item.id)
          then report_outcome s item worker_id run attempt result day_end week_end now
          else Result.raise ServiceError.conflict
    ]
  ]
