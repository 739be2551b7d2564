-- ===== src/Execution/Start.antt =====
-- app/execution/service.py: `start`, the guarded entry into an execution.
pub mod Runs
pub mod Guard
pub mod Entry
use Prim.Native.String
use range_apply.Application.Models.{ApplicationStatus}
use range_apply.Application.Rows.{ApplicationRow}
use range_apply.Common.{
  Bool, List, Option, String, [], false, if◌then◌else◌, is_some, none, not, some, ℕ, ◌&&◌, ◌++◌,
  ◌+◌, ◌∷◌,
}
use range_apply.Core.Errors.{Result, ◌>>=◌}
use range_apply.Core.Texts.{decimal}
use range_apply.Execution.Models.{ExecutionStatus, VerificationStatus}
use range_apply.Execution.Preconditions.{has_status}
use range_apply.Execution.Runs.{ExecutionRunRow, ExecutionStore, audit, put_attempt}
use range_apply.Execution.Settle.{on_queue}
use range_apply.Pipeline.Queue.Outcomes.{release}
use range_apply.Pipeline.Rows.{QueueRow}
use range_apply.Scheduler.Attempts.{log_event}

-- `outcome` of `start`; `no_executor` is the error that is raised after the commit
pub data StartOutcome : Type 0 where
  started no_attempt already_submitted awaiting_verification not_ready waits : StartOutcome
  precondition_failed no_executor document_failed handed_off lost_race : StartOutcome

-- What the executor and the documents answer, the fresh keys and texts, and what other workers have
-- made of the attempt's row, but for its key, by the guarded update.
pub record Offer : Type 0 where
  pub executor_kind : String
  pub is_registered : Bool
  pub document_problems : List String
  pub can_handle : Bool
  pub failure_text : String
  pub document_text : String
  pub run_id : String
  pub run_key : String
  pub day_end : ℕ
  pub week_end : ℕ
  pub raced : ApplicationRow → ApplicationRow

-- The tables, the item and the run, if one was started
pub record Started : Type 0 where
  pub store : ExecutionStore
  pub item : QueueRow
  pub run : Option ExecutionRunRow
  pub outcome : StartOutcome

abbrev pub settled_as : StartOutcome → ExecutionStore × QueueRow → Started
settled_as outcome r = record { store = r.0; item = r.1; run = none; outcome = outcome }

-- `f"{tenant_id}:{attempt.id}:{attempt.attempt_number}:{run_number}"`
unfoldable pub submission_key_of : ExecutionStore → ApplicationRow → ℕ → String
submission_key_of s attempt run_number = String.◌++◌ s.tenant_id (
    String.◌++◌ ":" (
      String.◌++◌ attempt.id (
        String.◌++◌ ":"
          (String.◌++◌ (decimal attempt.attempt_number) (String.◌++◌ ":" (decimal run_number))))))

-- The condition of the guarded `UPDATE`
abbrev pub may_take : ApplicationRow → Bool
may_take row = has_status ApplicationStatus.ready row && not (is_some row.submission_key)

-- The guarded `UPDATE`, of the row as it finds it
unfoldable pub take_row : ApplicationRow → String → ℕ → String → ℕ → Option ApplicationRow
take_row row key run_number kind now =
    if may_take row
    then some (record row {
      status = ApplicationStatus.submitting;
      submission_key = some key;
      execution_count = run_number;
      status_reason = some (String.◌++◌ "executing with " kind);
      updated_at = some now;
    })
    else none

-- The row of a started run
unfoldable pub started_run :
    ExecutionStore → QueueRow → String → ApplicationRow → Offer → String → ℕ → ExecutionRunRow
started_run s item worker_id attempt o key run_number = record {
  id = o.run_id;
  tenant_id = s.tenant_id;
  application_id = attempt.id;
  preparation_id = attempt.preparation_id;
  candidate_opportunity_id = attempt.candidate_opportunity_id;
  opportunity_id = attempt.opportunity_id;
  queue_item_id = some item.id;
  executor_kind = o.executor_kind;
  worker_id = some worker_id;
  idempotency_key = key;
  run_number = run_number;
  status = ExecutionStatus.running;
  outcome = none;
  submit_invoked = false;
  finished_at = none;
  application_url = none;
  external_application_id = none;
  confirmation_reference = none;
  verification_status = VerificationStatus.not_attempted;
  verification_method = none;
  verification_detail = none;
  error_class = none;
  error_message = none;
  handoff_reason = none;
  preconditions = [];
}

-- The mutex of `start`; `before` and `claimed` are the tables and the item to which a lost race
-- rolls back
unfoldable pub take_attempt :
    ExecutionStore
    → QueueRow
    → ExecutionStore
    → QueueRow
    → String
    → ApplicationRow
    → Offer
    → ℕ
    → Result Started
take_attempt before claimed s item worker_id attempt o now =
    let run_number = attempt.execution_count + 1 in
    let key = submission_key_of s attempt run_number in
    let stored : ApplicationRow = record (o.raced attempt) { id = attempt.id } in
    elim (take_row stored key run_number o.executor_kind now) [
      | none ↦
          on_queue before
            (release before.queue claimed worker_id (some "another worker took this attempt"))
          >>= λ r. Result.ok (settled_as StartOutcome.lost_race r)
      | some row ↦
          let run = started_run s item worker_id row o key run_number in
          let row' : ApplicationRow = record row { last_execution_id = some run.id } in
          let s1 = put_attempt (record s { runs = s.runs ++ run ∷ [] }) row' in
          let s2 : ExecutionStore = record s1 {
            attempts =
                log_event s1.attempts row' "attempt:submitting" (some ApplicationStatus.ready)
                  (some ApplicationStatus.submitting);
          } in
          Result.ok (record {
            store = audit s2 row' "execution:started";
            item = item;
            run = some run;
            outcome = StartOutcome.started;
          })
    ]
