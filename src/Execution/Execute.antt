-- ===== src/Execution/Execute.antt =====
-- app/execution/service.py: `execute`, one claimed item from end to end. What the executor answers is
-- an argument, with the form that `capture_form` makes of it: the counts of `blocking`.
pub mod Doubtful
use Prim.Native.String
use range_apply.Application.Rows.{ApplicationRow}
use range_apply.Common.{
  Bool, List, Option, String, [], false, if◌then◌else◌, ltb, none, not, or_else, some, true, ℕ,
  ◌&&◌, ◌||◌,
}
use range_apply.Core.Errors.{Result, ◌>>=◌, ◌>>◌}
use range_apply.Core.Texts.{decimal, take_chars}
use range_apply.Execution.Gate.{GateFailure, pre_submit_gate}
use range_apply.Execution.Models.{ErrorClass, ExecutionOutcome, VerificationStatus}
use range_apply.Execution.Report.{ExecutionResult, report_outcome}
use range_apply.Execution.Runs.{
  ExecutionRunRow, ExecutionStore, Surroundings, put_run, require_attempt,
}
use range_apply.Execution.Start.{Offer, StartOutcome}
use range_apply.Execution.Start.Entry.{start_item}
use range_apply.Execution.Verification.{VerificationResult}
use range_apply.Pipeline.Queue.Outcomes.{needs_review}
use range_apply.Pipeline.Rows.{QueueRow}
use range_apply.Scheduler.Attempts.{Names}

pub record ExecutorError : Type 0 where
  pub message : String
  pub before_submit : Bool
  pub retryable : Bool
  pub error_class : ErrorClass

-- What `prepare` leads to: a captured form with a handoff of its own or not and the two counts of
-- `blocking`, an error of the executor, or a crash with the name of the exception and its text
pub data Prepared : Type 0 where
  form : Bool → ℕ → ℕ → Prepared
  refused : ExecutorError → Prepared
  crashed : String → String → Prepared

-- What `executor.execute` ends with
pub data Acted : Type 0 where
  answered : ExecutionResult → Acted
  refused : ExecutorError → Acted
  crashed : String → String → Acted

-- What `executor.verify` ends with
pub data Checked : Type 0 where
  answered : VerificationResult → Checked
  crashed : String → Checked

-- An executor: what it does is known only by its answers. `asks_gate` says whether it calls the gate.
pub record Executor : Type 0 where
  pub dry_run : Bool
  pub prepared : Prepared
  pub asks_gate : Bool
  pub acted : List GateFailure → Acted
  pub checked : ExecutionResult → Checked

-- `ExecutionResult` with the defaults of the other fields
abbrev pub bare_result :
    ExecutionOutcome → Bool → Option ErrorClass → String → Option String → ExecutionResult
bare_result outcome submit_attempted error_class message handoff_reason = record {
  outcome = outcome;
  submit_attempted = submit_attempted;
  handoff_reason = handoff_reason;
  error_class = error_class;
  message = some message;
  application_url = none;
  external_application_id = none;
  confirmation_reference = none;
  verification = none;
}

abbrev pub retry_outcome : Bool → ExecutionOutcome
retry_outcome again =
    if again then ExecutionOutcome.retryable_failure else ExecutionOutcome.permanent_failure

-- The result that the answer of the executor stands for, and whether the click is taken back
unfoldable pub acted_result : Bool → Acted → Bool × ExecutionResult
acted_result dry (Acted.answered result) = (false, result)
acted_result dry (Acted.refused err) =
    if err.before_submit || dry
    then (
      true,
      bare_result (retry_outcome (err.retryable || dry)) false (some err.error_class) err.message
          none,
    )
    else (false, bare_result ExecutionOutcome.unknown true (some err.error_class) err.message none)
acted_result dry (Acted.crashed kind text) =
    if dry
    then (
      false,
      bare_result ExecutionOutcome.retryable_failure false (some ErrorClass.executor_crash)
          (take_chars 500 (String.◌++◌ "dry run crashed: " kind)) none,
    )
    else (
      false,
      bare_result ExecutionOutcome.unknown true (some ErrorClass.executor_crash)
          (String.◌++◌ kind (String.◌++◌ ": " text)) none,
    )

abbrev pub checked_result : Checked → VerificationResult
checked_result (Checked.answered v) = v
checked_result (Checked.crashed kind) = record {
  status = VerificationStatus.unknown;
  method = "none";
  detail = some (String.◌++◌ "verify crashed: " kind);
  external_application_id = none;
  confirmation_reference = none;
  application_url = none;
}

-- A submission without a verification is verified by the executor
abbrev pub with_verification : Executor → ExecutionResult → ExecutionResult
with_verification x result = elim result.outcome [
  | ExecutionOutcome.submitted ↦ record result {
    verification = some (or_else result.verification (checked_result (x.checked result)));
  }
  | _ ↦ result
]

-- `execute` from the answer of the executor on
unfoldable pub execute_report :
    Executor
    → List GateFailure
    → ExecutionStore
    → QueueRow
    → String
    → ExecutionRunRow
    → ApplicationRow
    → ℕ
    → ℕ
    → ℕ
    → Result (ExecutionStore × QueueRow)
execute_report x failures s item worker_id run attempt day_end week_end now =
    let (undone, result) = acted_result x.dry_run (x.acted failures) in
    let run' : ExecutionRunRow = if undone then record run { submit_invoked = false } else run in
    report_outcome s item worker_id run' attempt (with_verification x result) day_end week_end now

module _ (names : Names) (lower : String → String) (e : Surroundings) (x : Executor)
    (item : QueueRow) (worker_id : String) (day_end week_end : ℕ) where
  -- `execute` from the click on; the click is recorded before the executor acts
  unfoldable pub execute_click :
      ExecutionStore → ExecutionRunRow → Result (ExecutionStore × QueueRow)
  execute_click s run =
      let run' : ExecutionRunRow =
        if x.dry_run then run else record run { submit_invoked = true } in
      let (s', failures) =
        if x.asks_gate
        then pre_submit_gate names lower (put_run s run') e run.application_id
        else (put_run s run', []) in
      do
        attempt ← require_attempt s' run.application_id
        execute_report x failures s' item worker_id run' attempt day_end week_end e.now

  -- `execute` of a run that has started
  unfoldable pub execute_run : ExecutionStore → ExecutionRunRow → Result (ExecutionStore × QueueRow)
  execute_run s run = do
    attempt ← require_attempt s run.application_id
    let report : ExecutionResult → Result (ExecutionStore × QueueRow) =
        λ result. report_outcome s item worker_id run attempt result day_end week_end e.now
    elim x.prepared [
      | Prepared.refused err ↦
          report (
            bare_result (retry_outcome err.retryable) false (some err.error_class) err.message none)
      | Prepared.crashed kind text ↦ report (
          bare_result ExecutionOutcome.retryable_failure false (some ErrorClass.executor_crash)
            (take_chars 500
              (String.◌++◌ "prepare crashed: " (String.◌++◌ kind (String.◌++◌ ": " text))))
            none)
      | Prepared.form own needs_input needs_review ↦
          if ltb 0 needs_input && not own
          then report (
              bare_result ExecutionOutcome.needs_user_input false none
                (String.◌++◌ (decimal needs_input) " required field(s) need the candidate") none)
          else if ltb 0 needs_review && not own
          then report (
              bare_result ExecutionOutcome.handoff false none
                (String.◌++◌ (decimal needs_review) " required field(s) cannot be filled safely")
                (some "UNKNOWN_REQUIRED_FIELD"))
          else execute_click s run
    ]

-- `execute`: what `start` makes of the item, and the run where one has started
unfoldable pub execute :
    Names
    → (String → String)
    → Surroundings
    → Offer
    → Executor
    → ExecutionStore
    → QueueRow
    → String
    → Result (ExecutionStore × QueueRow × StartOutcome)
execute names lower e o x s item worker_id = do
  started ← start_item names lower e o s item worker_id
  elim started.run [
    | none ↦ Result.ok (started.store, started.item, started.outcome)
    | some run ↦
        execute_run names lower e x started.item worker_id o.day_end o.week_end started.store run
        >>= λ r. Result.ok (r.0, r.1, started.outcome)
  ]
