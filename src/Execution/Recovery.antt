-- ===== src/Execution/Recovery.antt =====
-- app/execution/service.py: `recover_lost_runs`. The signal that a lost run emits is left out: it is
-- written in a savepoint of its own, and what it raises is dropped.
pub mod Rows
pub mod Leases
pub mod Kept
pub mod Lost
pub mod Returns
use range_apply.Application.Models.{ApplicationStatus, attempt_place}
use range_apply.Application.Rows.{ApplicationRow}
use range_apply.Common.{
  Bool, List, Option, String, [], false, if◌then◌else◌, keep, leb, none, some, str_eq, true, ℕ,
  ◌&&◌, ◌==◌, ◌||◌, ◌∷◌,
}
use range_apply.Core.Errors.{Result, ◌>>=◌}
use range_apply.Execution.Models.{
  ErrorClass, ExecutionOutcome, ExecutionStatus, VerificationStatus, run_place,
}
use range_apply.Execution.Runs.{
  ExecutionRunRow, ExecutionStore, audit, finish_run, get_attempt, put_run,
}
use range_apply.Pipeline.Models.{QueueState, queue_place}
use range_apply.Pipeline.Queue.{commit_change, get_item}
use range_apply.Pipeline.Queue.Outcomes.{needs_review}
use range_apply.Pipeline.Rows.{QueueRow}
use range_apply.Scheduler.Attempts.{transition}

-- What the count of `recover_lost_runs` says of a run
pub data Recovery : Type 0 where
  left_alone orphaned uncertain retryable : Recovery

abbrev pub is_held_item : QueueRow → Bool
is_held_item item =
    (queue_place item.state == queue_place QueueState.claimed)
    || (queue_place item.state == queue_place QueueState.processing)

-- The item of the run
unfoldable pub item_of : ExecutionStore → ExecutionRunRow → Option QueueRow
item_of s run = elim run.queue_item_id [
  | none ↦ none
  | some key ↦ if str_eq key "" then none else get_item s.queue key
]

-- The item still holds a live lease
unfoldable pub is_live : Option QueueRow → ℕ → Bool
is_live none now = false
is_live (some item) now =
    is_held_item item && elim item.lease_expires_at [ none ↦ false | some t ↦ leb now t ]

-- `self.queue.needs_review`, unless the item is settled already
unfoldable pub review_item : ExecutionStore → Option QueueRow → String → Result ExecutionStore
review_item s none reason = Result.ok s
review_item s (some item) reason =
    let reviewed : Result ExecutionStore = do
      done ← needs_review s.queue item s.actor reason
      Result.ok (record s { queue = done.0 })
    in if (queue_place item.state == queue_place QueueState.succeeded)
        || ((queue_place item.state == queue_place QueueState.cancelled)
            || (queue_place item.state == queue_place QueueState.needs_review))
      then Result.ok s
      else reviewed

-- The item of a run that was lost before the click waits again
unfoldable pub reclaim_item : ExecutionStore → Option QueueRow → ℕ → ExecutionStore
reclaim_item s none now = s
reclaim_item s (some item) now =
    let item' : QueueRow = record item {
      state = QueueState.pending;
      claimed_by = none;
      claimed_at = none;
      lease_expires_at = none;
      available_at = now;
    } in
    if is_held_item item
    then record s {
      queue =
          commit_change s.queue item item' "lease_expired" s.actor
            (some "worker lost before submit");
    }
    else s

-- `self.attempts.transition(attempt, …, force=True)`
unfoldable pub force_attempt :
    ExecutionStore
    → ApplicationRow
    → ApplicationStatus
    → String
    → Result (ExecutionStore × ApplicationRow)
force_attempt s attempt status reason = do
  moved ← transition s.attempts attempt status (some reason) true
  Result.ok (record s { attempts = moved.0 }, moved.1)

-- A run that was lost after its click
unfoldable pub recover_invoked :
    ExecutionStore → ExecutionRunRow → Option QueueRow → ApplicationRow → ℕ → Result ExecutionStore
recover_invoked s run item attempt now =
    let finished =
      finish_run run ExecutionStatus.unknown (some ExecutionOutcome.unknown)
        (some ErrorClass.executor_crash)
        (some "worker lost after submit was invoked (recovered at startup)") now in
    let s1 = put_run s (record finished { verification_status = VerificationStatus.pending }) in
    do
      moved ←
          if attempt_place attempt.status == attempt_place ApplicationStatus.uncertain
          then Result.ok (s1, attempt)
          else force_attempt s1 attempt ApplicationStatus.uncertain
              "worker lost after submit was invoked"
      s2 ← review_item moved.0 item "awaiting verification: worker was lost after pressing submit"
      Result.ok (audit s2 moved.1 "execution:unknown")

-- A run that was lost before its click
unfoldable pub recover_early :
    ExecutionStore → ExecutionRunRow → Option QueueRow → ApplicationRow → ℕ → Result ExecutionStore
recover_early s run item attempt now =
    let finished =
      finish_run run ExecutionStatus.failed_retryable (some ExecutionOutcome.retryable_failure)
        (some ErrorClass.executor_crash)
        (some "worker lost before submit (recovered at startup); safe to retry") now in
    let s1 = put_run s finished in
    do
      moved ←
          if attempt_place attempt.status == attempt_place ApplicationStatus.submitting
          then force_attempt s1 (record attempt { submission_key = none }) ApplicationStatus.ready
              "reclaimed after a lost worker"
          else Result.ok (s1, attempt)
      Result.ok (audit (reclaim_item moved.0 item now) moved.1 "execution:recovered")

-- One round of the loop
unfoldable pub recover_run :
    ExecutionStore → ExecutionRunRow → ℕ → Result (ExecutionStore × Recovery)
recover_run s run now =
    let item = item_of s run in
    let orphan =
      finish_run run ExecutionStatus.failed_permanent (some ExecutionOutcome.permanent_failure)
        (some ErrorClass.executor_crash) (some "attempt vanished while running") now in
    let lost : Result (ExecutionStore × Recovery) = elim (get_attempt s run.application_id) [
      | none ↦ Result.ok (put_run s orphan, Recovery.orphaned)
      | some attempt ↦
          if run.submit_invoked
          then (recover_invoked s run item attempt now >>= λ s'. Result.ok (s', Recovery.uncertain))
          else (recover_early s run item attempt now >>= λ s'. Result.ok (s', Recovery.retryable))
    ] in
    if is_live item now then Result.ok (s, Recovery.left_alone) else lost

unfoldable pub recover_runs :
    ExecutionStore → List ExecutionRunRow → ℕ → Result (ExecutionStore × List Recovery)
recover_runs s [] now = Result.ok (s, [])
recover_runs s (run ∷ runs) now = do
  first ← recover_run s run now
  rest ← recover_runs first.0 runs now
  Result.ok (rest.0, first.1 ∷ rest.1)

-- `recover_lost_runs`
unfoldable pub recover_lost_runs : ExecutionStore → ℕ → Result (ExecutionStore × List Recovery)
recover_lost_runs s now =
    recover_runs s
      (keep
        (λ r.
          str_eq r.tenant_id s.tenant_id
          && (run_place r.status == run_place ExecutionStatus.running))
        s.runs)
      now
