-- ===== src/Execution/Humans.antt =====
-- app/execution/service.py: `enqueue_ready`, and what a person does with an attempt, `retry` and
-- `cancel`. The order of a query and the keys of new rows are arguments.
pub mod Refusals
pub mod Slots
use Prim.Native.String
use range_apply.Application.Models.{ApplicationStatus, in_submitted}
use range_apply.Application.Rows.{ApplicationRow}
use range_apply.Common.{
  Bool, List, Option, String, [], any_of, false, find_first, if◌then◌else◌, is_some, keep, length,
  none, not, or_else, some, str_eq, take, true, ℕ, ◌&&◌, ◌+◌, ◌==◌, ◌||◌, ◌∷◌,
}
use range_apply.Core.Errors.{Result, ServiceError, refuse_if, ◌>>=◌, ◌>>◌}
use range_apply.Core.Texts.{is_text, opt_eq, text_or}
use range_apply.Execution.Models.{ExecutionStatus, VerificationStatus, run_place}
use range_apply.Execution.Preconditions.{has_status}
use range_apply.Execution.Recovery.{force_attempt}
use range_apply.Execution.Runs.{
  ExecutionRunRow, ExecutionStore, audit, item_for, names_row, put_attempt, require_attempt,
}
use range_apply.Pipeline.Models.{Lane, QueueAction, QueueState}
use range_apply.Pipeline.Queue.{find_item}
use range_apply.Pipeline.Queue.Enqueue.{enqueue}
use range_apply.Pipeline.Queue.Outcomes.{cancel, requeue}
use range_apply.Pipeline.Rows.{QueueRow}
use range_apply.Scheduler.Attempts.{release_attempt}

-- `_PARKED`
abbrev pub in_parked : QueueState → Bool
in_parked QueueState.blocked = true
in_parked QueueState.needs_review = true
in_parked QueueState.failed = true
in_parked QueueState.cancelled = true
in_parked _ = false

-- What `enqueue_ready` counts for an attempt
pub data Enqueued : Type 0 where
  no_candidate already_queued parked enqueued : Enqueued

-- `ready`, in the order `in_order`
unfoldable pub ready_attempts :
    (List ApplicationRow → List ApplicationRow) → ExecutionStore → ℕ → List ApplicationRow
ready_attempts in_order s limit = take limit (
    in_order (
      keep
        (λ r.
          opt_eq r.tenant_id (some s.tenant_id)
          && (has_status ApplicationStatus.ready r
              && (not (is_some r.released_at) && is_some r.preparation_id)))
        s.attempts.rows))

module _ (new_id : ℕ → String) (max_attempts now : ℕ) where
  -- One round of `enqueue_ready`
  unfoldable pub enqueue_one : ExecutionStore → ApplicationRow → Result (ExecutionStore × Enqueued)
  enqueue_one s attempt =
      let candidate =
        find_first
          (λ c. str_eq c.tenant_id s.tenant_id && names_row attempt.candidate_opportunity_id c.id)
          s.queue.candidates in
      let existing = find_item s.queue (or_else attempt.opportunity_id "None") QueueAction.submit in
      elim candidate [
        | none ↦ Result.ok (s, Enqueued.no_candidate)
        | some co ↦ elim existing [
          | some item ↦
              Result.ok
                (s, if in_parked item.state then Enqueued.parked else Enqueued.already_queued)
          | none ↦
              enqueue s.queue (new_id (length s.queue.rows)) now co QueueAction.submit s.actor
                (or_else attempt.lane Lane.review) co.priority_score none max_attempts
              >>= λ r. Result.ok (record s { queue = r.0 }, Enqueued.enqueued)
        ]
      ]

  unfoldable pub enqueue_all :
      ExecutionStore → List ApplicationRow → Result (ExecutionStore × List Enqueued)
  enqueue_all s [] = Result.ok (s, [])
  enqueue_all s (attempt ∷ rest) = do
    first ← enqueue_one s attempt
    others ← enqueue_all first.0 rest
    Result.ok (others.0, first.1 ∷ others.1)

  -- `enqueue_ready`
  unfoldable pub enqueue_ready :
      (List ApplicationRow → List ApplicationRow)
      → ExecutionStore
      → Option ℕ
      → Result (ExecutionStore × List Enqueued)
  enqueue_ready in_order s limit =
      let n = or_else limit 10000 in
      enqueue_all s (ready_attempts in_order s (if n == 0 then 10000 else n))

-- A run of the attempt whose click is still unexplained
abbrev pub is_unexplained : ExecutionStore → String → ExecutionRunRow → Bool
is_unexplained s application_id r =
    str_eq r.tenant_id s.tenant_id
    && (str_eq r.application_id application_id
        && ((run_place r.status == run_place ExecutionStatus.unknown)
            && elim r.verification_status [
              | VerificationStatus.pending ↦ true
              | VerificationStatus.unknown ↦ true
              | _ ↦ false
            ]))

-- The statuses that `retry` takes
abbrev pub may_retry : ApplicationStatus → Bool
may_retry ApplicationStatus.blocked = true
may_retry ApplicationStatus.needs_user_input = true
may_retry ApplicationStatus.needs_review = true
may_retry ApplicationStatus.ready = true
may_retry ApplicationStatus.failed = true
may_retry ApplicationStatus.cancelled = true
may_retry _ = false

-- The row that `retry` makes ready
unfoldable pub retried : ApplicationRow → ApplicationRow
retried attempt =
    let cleared : ApplicationRow = record attempt {
      submission_key = none;
      blocked_reason = none;
    } in
    let next : ApplicationRow = record cleared {
      attempt_number = (if attempt.attempt_number == 0 then 1 else attempt.attempt_number) + 1;
      released_at = none;
      reserved_at = none;
      cap_day = none;
      cap_week = none;
    } in
    if has_status ApplicationStatus.failed attempt || has_status ApplicationStatus.cancelled attempt
    then next
    else cleared

module _ (new_id : ℕ → String) (max_attempts now : ℕ)
    (in_order : List ApplicationRow → List ApplicationRow) where
  -- The item of a retried attempt
  unfoldable pub retry_item :
      ExecutionStore → ApplicationRow → String → Option String → Result ExecutionStore
  retry_item s attempt actor reason = elim (item_for s attempt) [
    | some item ↦
        if in_parked item.state
        then (requeue s.queue item actor now (some (text_or (or_else reason "") "retry")) true false
            >>= λ r. Result.ok (record s { queue = r.0 }))
        else Result.ok s
    | none ↦
        if is_text attempt.candidate_opportunity_id
        then (enqueue_ready new_id max_attempts now in_order s none >>= λ r. Result.ok r.0)
        else Result.ok s
  ]

  -- `retry`
  unfoldable pub retry :
      ExecutionStore → String → String → Option String → Result (ExecutionStore × ApplicationRow)
  retry s application_id actor reason = do
    attempt ← require_attempt s application_id
    refuse_if (in_submitted attempt.status && not (has_status ApplicationStatus.submitting attempt))
        ServiceError.conflict
    refuse_if (any_of (is_unexplained s attempt.id) s.runs) ServiceError.conflict
    refuse_if (not (may_retry attempt.status)) ServiceError.conflict
    let next = retried attempt
    moved ←
        force_attempt (put_attempt s next) next ApplicationStatus.ready
          (text_or (or_else reason "") "retried by a person")
    s2 ← retry_item moved.0 moved.1 actor reason
    Result.ok (audit s2 moved.1 "execution:retry", moved.1)

-- An item that `cancel` closes
unfoldable pub close_item :
    ExecutionStore
    → Option QueueRow
    → (QueueState → Bool)
    → String
    → Option String
    → ℕ
    → Result ExecutionStore
close_item s none closes actor reason now = Result.ok s
close_item s (some item) closes actor reason now =
    if closes item.state
    then (cancel s.queue item actor now reason >>= λ r. Result.ok (record s { queue = r.0 }))
    else Result.ok s

abbrev pub is_open_submit : QueueState → Bool
is_open_submit QueueState.succeeded = false
is_open_submit QueueState.cancelled = false
is_open_submit _ = true

abbrev pub is_open_prepare : QueueState → Bool
is_open_prepare QueueState.pending = true
is_open_prepare QueueState.retry_wait = true
is_open_prepare QueueState.blocked = true
is_open_prepare QueueState.needs_review = true
is_open_prepare _ = false

-- The release of `cancel`, and the key that it clears
unfoldable pub dropped_attempt :
    ExecutionStore → ApplicationRow → String → ℕ → ExecutionStore × ApplicationRow
dropped_attempt s attempt text now =
    let (attempts', ended) =
      release_attempt s.attempts attempt ApplicationStatus.cancelled text now in
    let row : ApplicationRow = record ended { submission_key = none } in
    (put_attempt (record s { attempts = attempts' }) row, row)

-- `cancel`
unfoldable pub cancel_attempt :
    ExecutionStore → String → String → Option String → ℕ → Result (ExecutionStore × ApplicationRow)
cancel_attempt s id actor reason now = do
  attempt ← require_attempt s id
  refuse_if (in_submitted attempt.status) ServiceError.conflict
  let dropped =
      dropped_attempt s attempt (text_or (or_else reason "") (String.◌++◌ "cancelled by " actor))
        now
  s2 ← close_item dropped.0 (item_for dropped.0 dropped.1) is_open_submit actor reason now
  s3 ←
      close_item s2
        (if is_text dropped.1.opportunity_id
          then find_item s2.queue (or_else dropped.1.opportunity_id "") QueueAction.prepare
          else none)
        is_open_prepare actor reason now
  Result.ok (audit s3 dropped.1 "execution:cancelled", dropped.1)
