-- ===== src/Execution/Humans/Refusals.antt =====
-- app/execution/service.py: what a person may not do.
use Prim.Native.String
use range_apply.Application.Models.{ApplicationStatus, in_submitted}
use range_apply.Application.Rows.{ApplicationRow}
use range_apply.Common.{
  Bool, List, Option, String, any_of, arith, false, if◌then◌else◌, none, not, or_else, refl, some,
  sym, true, ℕ, ◌&&◌, ◌∙◌, ◌≡◌,
}
use range_apply.Core.Errors.{Result, ServiceError, bind-ok, refuse_if, ◌>>◌}
use range_apply.Core.Texts.{is_text, text_or}
use range_apply.Execution.Humans.{
  cancel_attempt, close_item, dropped_attempt, is_open_prepare, is_open_submit, is_unexplained,
  may_retry, retried, retry, retry_item,
}
use range_apply.Execution.Preconditions.{has_status}
use range_apply.Execution.Preconditions.Passed.{undo_not}
use range_apply.Execution.Recovery.{force_attempt}
use range_apply.Execution.Runs.{ExecutionStore, get_attempt, item_for, require_attempt}
use range_apply.Pipeline.Models.{QueueAction}
use range_apply.Pipeline.Queue.{find_item}
use range_apply.Scheduler.Attempts.{holds_slot, release_attempt, transition}

pub require_attempt-ok :
    (s : ExecutionStore) (id : String) {attempt : ApplicationRow}
    → require_attempt s id ≡ Result.ok attempt
    → get_attempt s id ≡ some attempt
unfolding require_attempt
require_attempt-ok s id h = ground (arith, h)

pub refuse_if-ok :
    {B : Type 0} (bad : Bool) (e : ServiceError) (k : Result B) {b : B}
    → (refuse_if bad e >> k) ≡ Result.ok b
    → (bad ≡ false) × (k ≡ Result.ok b)
refuse_if-ok true e k h = absurd (ground (arith, h))
refuse_if-ok false e k h = (refl, h)

force_attempt-status :
    (s : ExecutionStore) (row : ApplicationRow) (status : ApplicationStatus) (reason : String)
    {r : ExecutionStore × ApplicationRow}
    → force_attempt s row status reason ≡ Result.ok r
    → (has_status status r.1 ≡ true) × (r.1.submission_key ≡ row.submission_key)
unfolding force_attempt transition
force_attempt-status s row status reason h = (ground (arith, h), ground (arith, h))

retried-key : (row : ApplicationRow) → (retried row).submission_key ≡ none
unfolding retried
retried-key row = ground arith

-- What a retry found, and what it made of the attempt
pub record IsRetried (s : ExecutionStore) (id : String) (attempt after : ApplicationRow)
    : Type 0 where
  pub found : get_attempt s id ≡ some attempt
  pub not_sent : in_submitted attempt.status ≡ false
  pub retryable : may_retry attempt.status ≡ true
  pub explained : any_of (is_unexplained s attempt.id) s.runs ≡ false
  pub again_ready : has_status ApplicationStatus.ready after ≡ true
  pub unlocked : after.submission_key ≡ none

not_submitted : (st : ApplicationStatus) → may_retry st ≡ true → in_submitted st ≡ false
not_submitted ApplicationStatus.blocked h = refl
not_submitted ApplicationStatus.needs_user_input h = refl
not_submitted ApplicationStatus.needs_review h = refl
not_submitted ApplicationStatus.ready h = refl
not_submitted ApplicationStatus.failed h = refl
not_submitted ApplicationStatus.cancelled h = refl
not_submitted st h = ground (arith, h)

-- A retry that does not raise makes ready, and free for the guarded update, an attempt that has not
-- reached the employer and has no run whose click is unexplained.
pub retry-IsRetried :
    (new_id : ℕ → String) (max_attempts now : ℕ)
    (in_order : List ApplicationRow → List ApplicationRow) (s : ExecutionStore) (id actor : String)
    (reason : Option String) {r : ExecutionStore × ApplicationRow}
    → retry new_id max_attempts now in_order s id actor reason ≡ Result.ok r
    → (attempt : ApplicationRow) × IsRetried s id attempt r.1
unfolding retry
retry-IsRetried new_id max_attempts now in_order s id actor reason {r} h =
    let (attempt, (required, h1)) = bind-ok (require_attempt s id) _ h in
    let (sent, h2) =
      refuse_if-ok
        (in_submitted attempt.status && not (has_status ApplicationStatus.submitting attempt))
        ServiceError.conflict _ h1 in
    let (explained, h3) =
      refuse_if-ok (any_of (is_unexplained s attempt.id) s.runs) ServiceError.conflict _ h2 in
    let (closed, h4) = refuse_if-ok (not (may_retry attempt.status)) ServiceError.conflict _ h3 in
    let (moved, (forced, h5)) = bind-ok (force_attempt _ (retried attempt) _ _) _ h4 in
    let (s2, (queued, last)) =
      bind-ok (retry_item new_id max_attempts now in_order moved.0 moved.1 actor reason) _ h5 in
    let status = force_attempt-status _ (retried attempt) _ _ forced in
    let same : moved.1 ≡ r.1 = ground (arith, last) in
    let open_status = undo_not (may_retry attempt.status) closed in
    (
      attempt,
      record {
        found = require_attempt-ok s id required;
        not_sent = not_submitted attempt.status open_status;
        retryable = open_status;
        explained = explained;
        again_ready = rw (sym same) status.0;
        unlocked = rw (sym same) (status.1 ∙ retried-key attempt);
      },
    )

dropped_attempt-ended :
    (s : ExecutionStore) (attempt : ApplicationRow) (text : String) (now : ℕ)
    → (has_status ApplicationStatus.cancelled (dropped_attempt s attempt text now).1 ≡ true)
      × (holds_slot (dropped_attempt s attempt text now).1 ≡ false)
      × ((dropped_attempt s attempt text now).1.submission_key ≡ none)
unfolding dropped_attempt release_attempt
dropped_attempt-ended s attempt text now = (ground arith, ground arith, ground arith)

-- A cancellation that does not raise is of an attempt that has not reached the employer; it ends the
-- attempt, and leaves it without a slot and without a key.
pub cancel_attempt-ended :
    (s : ExecutionStore) (id actor : String) (reason : Option String) (now : ℕ)
    {r : ExecutionStore × ApplicationRow}
    → cancel_attempt s id actor reason now ≡ Result.ok r
    → (attempt : ApplicationRow) × ((get_attempt s id ≡ some attempt)
        × (in_submitted attempt.status ≡ false)
        × (has_status ApplicationStatus.cancelled r.1 ≡ true)
        × (holds_slot r.1 ≡ false)
        × (r.1.submission_key ≡ none))
unfolding cancel_attempt
cancel_attempt-ended s id actor reason now {r} h =
    let (attempt, (required, h1)) = bind-ok (require_attempt s id) _ h in
    let (sent, h2) = refuse_if-ok (in_submitted attempt.status) ServiceError.conflict _ h1 in
    let text = text_or (or_else reason "") (String.◌++◌ "cancelled by " actor) in
    let dropped = dropped_attempt s attempt text now in
    let (s2, (closed, h3)) =
      bind-ok (close_item dropped.0 (item_for dropped.0 dropped.1) is_open_submit actor reason now)
        _ h2 in
    let (s3, (closed3, last)) =
      bind-ok
        (close_item s2
          (if is_text dropped.1.opportunity_id
            then find_item s2.queue (or_else dropped.1.opportunity_id "") QueueAction.prepare
            else none)
          is_open_prepare actor reason now)
        _ h3 in
    let same : dropped.1 ≡ r.1 = ground (arith, last) in
    let ended = dropped_attempt-ended s attempt text now in
    (
      attempt,
      (
        require_attempt-ok s id required,
        sent,
        rw (sym same) ended.0,
        rw (sym same) ended.1,
        rw (sym same) ended.2,
      ),
    )
