-- ===== src/Execution/Verification/Decided.antt =====
-- app/execution/service.py: the status that a verification gives the attempt.
use range_apply.Application.Models.{ApplicationStatus, attempt_place}
use range_apply.Application.Rows.{ApplicationRow}
use range_apply.Common.{
  Bool, Bool-cases, Option, String, arith, if◌then◌else◌, inl, inr, none, or_else, true, ℕ, ◌==◌,
  ◌≡◌,
}
use range_apply.Core.Errors.{Result, bind-ok}
use range_apply.Core.Texts.{text_or}
use range_apply.Execution.Models.{ExecutionStatus, VerificationStatus}
use range_apply.Execution.Preconditions.{has_status}
use range_apply.Execution.Recovery.{force_attempt}
use range_apply.Execution.Runs.{ExecutionRunRow, ExecutionStore, finish_run, put_run}
use range_apply.Execution.Verification.{
  VerificationResult, apply_as, apply_failed, apply_likely, apply_unknown, apply_verification,
  apply_verified, mark_sent, mark_verified, step_attempt,
}
use range_apply.Pipeline.Rows.{QueueRow}
use range_apply.Scheduler.Attempts.{transition}

-- The status after a verification, by the verification's own status
unfoldable pub decided_status : VerificationStatus → ApplicationStatus → ApplicationStatus
decided_status VerificationStatus.verified current = ApplicationStatus.verified
decided_status VerificationStatus.failed current = ApplicationStatus.needs_review
decided_status VerificationStatus.likely ApplicationStatus.uncertain = ApplicationStatus.submitted
decided_status _ current = current

step_attempt-status :
    (x : ExecutionStore) (row : ApplicationRow) (status : ApplicationStatus) (reason : String)
    {q : ExecutionStore × ApplicationRow}
    → step_attempt x row status reason ≡ Result.ok q
    → has_status status q.1 ≡ true
unfolding step_attempt transition
step_attempt-status x row status reason h = ground (arith, h)

mark_verified-status :
    (x : ExecutionStore) (row : ApplicationRow) (v : VerificationResult) (now : ℕ)
    {q : ExecutionStore × ApplicationRow}
    → mark_verified x row v now ≡ Result.ok q
    → has_status ApplicationStatus.verified q.1 ≡ true
unfolding mark_verified
mark_verified-status x row v now {q} h =
    let (sent, (first, h1)) = bind-ok (mark_sent x row now) _ h in
    let (r, (stepped, last)) =
      bind-ok
        (step_attempt sent.0 sent.1 ApplicationStatus.verified
          (text_or (or_else v.detail "") "verified"))
        _ h1 in
    let status =
      step_attempt-status sent.0 sent.1 ApplicationStatus.verified
        (text_or (or_else v.detail "") "verified") stepped in
    let same : q.1.status ≡ r.1.status = ground (arith, last) in rw same status

module _ (s : ExecutionStore) (run : ExecutionRunRow) (attempt : ApplicationRow)
    (v : VerificationResult) (item : Option QueueRow) (now : ℕ)
    {r : ExecutionStore × ApplicationRow} where
  apply_failed-status :
      apply_failed s run attempt v item now ≡ Result.ok r
      → has_status ApplicationStatus.needs_review r.1 ≡ true
  unfolding apply_failed force_attempt transition
  apply_failed-status h = ground (arith, h)

  apply_likely-status :
      apply_likely s run attempt v item now ≡ Result.ok r
      → (if has_status ApplicationStatus.uncertain attempt
          then has_status ApplicationStatus.submitted r.1
          else has_status attempt.status r.1)
        ≡ true
  unfolding apply_likely step_attempt transition
  apply_likely-status h = ground (arith, h)

  apply_verified-status :
      apply_verified s run attempt v item now ≡ Result.ok r
      → has_status ApplicationStatus.verified r.1 ≡ true
  unfolding apply_verified
  apply_verified-status h =
      let s1 = put_run s (finish_run run ExecutionStatus.verified none none none now) in
      let first : Result (ExecutionStore × ApplicationRow) =
        if has_status ApplicationStatus.verified attempt
        then Result.ok (s1, attempt)
        else mark_verified s1 attempt v now in
      let (after, (marked, h1)) = bind-ok first _ h in
      let same : r.1 ≡ after.1 = ground (arith, h1) in
      rw same (elim (Bool-cases (has_status ApplicationStatus.verified attempt)) [
        | inl known ↦ ground (arith, marked, known)
        | inr other ↦ mark_verified-status s1 attempt v now (rw other at marked)
      ])

abbrev is_status : ApplicationStatus → ApplicationStatus → Bool
is_status a b = attempt_place a == attempt_place b

likely_decided :
    (current after : ApplicationStatus)
    → (if is_status current ApplicationStatus.uncertain
        then is_status after ApplicationStatus.submitted
        else is_status after current)
      ≡ true
    → is_status after (decided_status VerificationStatus.likely current) ≡ true
unfolding decided_status
likely_decided ApplicationStatus.uncertain after h = h
likely_decided current after h = ground (arith, h)

apply_unknown-same :
    (s : ExecutionStore) (run : ExecutionRunRow) (attempt : ApplicationRow) (v : VerificationResult)
    {r : ExecutionStore × ApplicationRow}
    → apply_unknown s run attempt v ≡ Result.ok r
    → r.1.status ≡ attempt.status
unfolding apply_unknown
apply_unknown-same s run attempt v h = ground (arith, h)

is_status_self : (a : ApplicationStatus) → is_status a a ≡ true
is_status_self a = ground arith

apply_as-status :
    (st : VerificationStatus) (s : ExecutionStore) (run : ExecutionRunRow)
    (attempt : ApplicationRow) (v : VerificationResult) (item : Option QueueRow) (now : ℕ)
    {r : ExecutionStore × ApplicationRow}
    → apply_as st s run attempt v item now ≡ Result.ok r
    → has_status (decided_status st attempt.status) r.1 ≡ true
unfolding apply_as decided_status
apply_as-status VerificationStatus.verified s run attempt v item now h =
    apply_verified-status s run attempt v item now h
apply_as-status VerificationStatus.likely s run attempt v item now {r} h =
    likely_decided attempt.status r.1.status (apply_likely-status s run attempt v item now h)
apply_as-status VerificationStatus.failed s run attempt v item now h =
    apply_failed-status s run attempt v item now h
apply_as-status VerificationStatus.not_attempted s run attempt v item now h =
    rw (apply_unknown-same s run attempt v h) (is_status_self attempt.status)
apply_as-status VerificationStatus.pending s run attempt v item now h =
    rw (apply_unknown-same s run attempt v h) (is_status_self attempt.status)
apply_as-status VerificationStatus.unknown s run attempt v item now h =
    rw (apply_unknown-same s run attempt v h) (is_status_self attempt.status)

-- A verification that does not raise gives the attempt the status VERIFIED, SUBMITTED, where it was
-- uncertain and the evidence likely, or NEEDS_REVIEW, by its own status, and leaves it otherwise.
pub apply_verification-decides :
    (s : ExecutionStore) (run : ExecutionRunRow) (attempt : ApplicationRow) (v : VerificationResult)
    (item : Option QueueRow) (now : ℕ) {r : ExecutionStore × ApplicationRow}
    → apply_verification s run attempt v item now ≡ Result.ok r
    → has_status (decided_status v.status attempt.status) r.1 ≡ true
unfolding apply_verification
apply_verification-decides s run attempt v item now h = apply_as-status v.status _ _ _ v item now h
