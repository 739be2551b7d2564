-- ===== src/Execution/Verification/Confirm.antt =====
-- app/execution/service.py: `verify` and `confirm`. What the executor itself verifies is an argument.
use range_apply.Application.Models.{ApplicationStatus}
use range_apply.Application.Rows.{ApplicationRow}
use range_apply.Common.{
  Bool, Option, String, false, find_first, if◌then◌else◌, none, not, or_else, some, str_eq, true, ℕ,
  ◌&&◌, ◌==◌,
}
use range_apply.Core.Errors.{Result, ServiceError, refuse_if, ◌>>=◌, ◌>>◌}
use range_apply.Core.Texts.{text_or}
use range_apply.Execution.Models.{ExecutionOutcome, ExecutionStatus, VerificationStatus, run_place}
use range_apply.Execution.Preconditions.{has_status}
use range_apply.Execution.Recovery.{force_attempt, item_of}
use range_apply.Execution.Runs.{
  ExecutionRunRow, ExecutionStore, finish_run, put_attempt, put_run, require_attempt,
}
use range_apply.Execution.Verification.{VerificationResult, apply_verification, move_candidate}
use range_apply.Pipeline.Models.{OpportunityState}

-- `require_run`
unfoldable pub require_run : ExecutionStore → String → Result ExecutionRunRow
require_run s run_id =
    elim (find_first (λ r. str_eq r.tenant_id s.tenant_id && str_eq r.id run_id) s.runs) [
      | none ↦ Result.raise ServiceError.not_found
      | some run ↦ Result.ok run
    ]

-- The statuses of a run that `verify` takes
abbrev pub may_verify : ExecutionStatus → Bool
may_verify ExecutionStatus.submitted = true
may_verify ExecutionStatus.unknown = true
may_verify ExecutionStatus.verified = true
may_verify ExecutionStatus.verification_failed = true
may_verify ExecutionStatus.handoff = true
may_verify _ = false

-- `verify`; `v` is the caller's verification, or what the executor answers
unfoldable pub verify :
    ExecutionStore → String → VerificationResult → ℕ → Result (ExecutionStore × ApplicationRow)
verify s run_id v now = do
  run ← require_run s run_id
  attempt ← require_attempt s run.application_id
  refuse_if (not (may_verify run.status)) ServiceError.conflict
  apply_verification s run attempt v (item_of s run) now

-- A handed-off run that the candidate says was submitted
unfoldable pub confirm_handoff :
    ExecutionStore → ExecutionRunRow → ApplicationRow → ℕ → Result ExecutionStore
confirm_handoff s run attempt now =
    let finished =
      finish_run (record run { submit_invoked = true }) ExecutionStatus.submitted
        (some ExecutionOutcome.submitted) none none now in
    let s1 = put_run s finished in
    let moved : Result ExecutionStore = do
      r ← force_attempt s1 attempt ApplicationStatus.submitted "submitted by the candidate"
      let row : ApplicationRow = record r.1 { submitted_at = some now }
      Result.ok (
          move_candidate (put_attempt r.0 row) row OpportunityState.submitted
            "submitted by the candidate" now)
    in if has_status ApplicationStatus.submitted attempt then Result.ok s1 else moved

-- `confirm`
unfoldable pub confirm :
    ExecutionStore
    → String
    → Bool
    → Option String
    → Option String
    → ℕ
    → Result (ExecutionStore × ApplicationRow)
confirm s run_id was_submitted reference note now = do
  run ← require_run s run_id
  attempt ← require_attempt s run.application_id
  s1 ←
      if was_submitted && (run_place run.status == run_place ExecutionStatus.handoff)
      then confirm_handoff s run attempt now
      else Result.ok s
  let text =
      if was_submitted
      then "confirmed by the candidate"
      else "the candidate reports it was not submitted"
  verify s1 run_id
      (record {
        status = if was_submitted then VerificationStatus.verified else VerificationStatus.failed;
        method = "user_confirmation";
        detail = some (text_or (or_else note "") text);
        external_application_id = none;
        confirmation_reference = reference;
        application_url = none;
      })
      now
