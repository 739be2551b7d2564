-- ===== src/Execution/Start/Entry.antt =====
-- app/execution/service.py: `start` in front of its mutex. The names of the executor and of the
-- target are left out of two texts.
use range_apply.Application.KillSwitch.{is_paused}
use range_apply.Application.Models.{ApplicationStatus, attempt_value}
use range_apply.Application.Rows.{ApplicationRow, save_attempt}
use range_apply.Common.{
  Option, String, [], false, if◌then◌else◌, length, ltb, none, not, or_else, some, true, ℕ, ◌+◌,
  ◌==◌, ◌||◌, ◌∷◌,
}
use range_apply.Core.Errors.{Result, ServiceError, ◌>>=◌}
use range_apply.Core.Texts.{opt_eq, text_or}
use range_apply.Execution.Models.{ErrorClass, ExecutionOutcome, ExecutionStatus}
use range_apply.Execution.Preconditions.{check, has_status}
use range_apply.Execution.Recovery.{force_attempt}
use range_apply.Execution.Runs.{
  ExecutionRunRow, ExecutionStore, Surroundings, attempt_for_item, audit, crashed_run, finish_run,
  put_run, situation_of, source_of,
}
use range_apply.Execution.Settle.{
  handoff, on_queue, park_item, settle_preconditions, stop_attempt, wait_until,
}
use range_apply.Execution.Start.{Offer, StartOutcome, Started, settled_as, take_attempt}
use range_apply.Pipeline.Models.{QueueState, queue_place}
use range_apply.Pipeline.Queue.Outcomes.{fail, needs_review, release, start, succeed}
use range_apply.Pipeline.Rows.{QueueRow}
use range_apply.Scheduler.Attempts.{Names}

-- The item becomes the worker's, in process
unfoldable pub begin_item : ExecutionStore → QueueRow → String → Result (ExecutionStore × QueueRow)
begin_item s item worker_id =
    if queue_place item.state == queue_place QueueState.claimed
    then on_queue s (start s.queue item worker_id)
    else if not (queue_place item.state == queue_place QueueState.processing)
        || not (opt_eq item.claimed_by (some worker_id))
    then Result.raise ServiceError.conflict
    else Result.ok (s, item)

-- The kill switch is on: the item waits ten minutes
unfoldable pub wait_switch :
    ExecutionStore → QueueRow → String → ApplicationRow → ℕ → Result Started
wait_switch s item worker_id attempt now = do
  r ← wait_until s item worker_id "kill switch paused" (now + 600)
  Result.ok (settled_as StartOutcome.waits (audit r.0 attempt "execution:paused", r.1))

-- The documents have problems: the attempt waits for a person
unfoldable pub stop_documents :
    ExecutionStore → QueueRow → String → ApplicationRow → String → Result Started
stop_documents s item worker_id attempt text = do
  r ←
      stop_attempt s attempt ApplicationStatus.needs_review text
        (λ x. needs_review x.queue item worker_id text) "execution:document_failed"
  Result.ok (settled_as StartOutcome.document_failed r)

module _ (names : Names) (lower : String → String) (e : Surroundings) (o : Offer)
    (before : ExecutionStore) (claimed : QueueRow) (worker_id : String) where
  -- The executor and the documents, after the preconditions
  unfoldable pub start_offered : ExecutionStore → QueueRow → ApplicationRow → Result Started
  start_offered s item attempt =
      if not o.is_registered
      then (on_queue s (release s.queue item worker_id (some "no executor registered")) >>= λ r.
          Result.ok (settled_as StartOutcome.no_executor r))
      else if ltb 0 (length o.document_problems)
      then stop_documents s item worker_id attempt o.document_text
      else if not o.can_handle
      then (handoff s item worker_id attempt none "AMBIGUOUS_FORM" "cannot handle the target" e.now
          >>= λ r. Result.ok (settled_as StartOutcome.handed_off r))
      else take_attempt before claimed s item worker_id attempt o e.now

  -- The preconditions, with a reservation
  unfoldable pub start_checked : ExecutionStore → QueueRow → ApplicationRow → Result Started
  start_checked s item attempt =
      let (ledger', attempt', report) =
        check names lower (situation_of s e attempt) s.attempts.ledger attempt true false in
      let s1 : ExecutionStore = record s {
        attempts = record s.attempts {
          ledger = ledger';
          rows = save_attempt attempt' s.attempts.rows;
        };
      } in
      if report.ok
      then start_offered s1 item attempt'
      else (settle_preconditions s1 item worker_id attempt' report.failures o.failure_text o.run_id
            o.run_key o.day_end o.week_end e.now
          >>= λ r. Result.ok (settled_as StartOutcome.precondition_failed r))

  -- The status and the kill switch
  unfoldable pub start_ready : ExecutionStore → QueueRow → ApplicationRow → Result Started
  start_ready s item attempt =
      if not (has_status ApplicationStatus.ready attempt)
      then (park_item s item worker_id attempt.status
            (text_or (or_else attempt.status_reason "") (attempt_value attempt.status)) e.now
          >>= λ r. Result.ok (settled_as StartOutcome.not_ready r))
      else if is_paused e.switches (source_of e attempt)
      then wait_switch s item worker_id attempt e.now
      else start_checked s item attempt

  -- An earlier executor was lost after its click
  unfoldable pub doubt_earlier :
      ExecutionStore → QueueRow → ApplicationRow → ExecutionRunRow → Result Started
  doubt_earlier s item attempt crashed =
      let finished =
        finish_run crashed ExecutionStatus.unknown (some ExecutionOutcome.unknown)
          (some ErrorClass.executor_crash) (some "executor lost after submit was invoked") e.now in
      do
        moved ←
            force_attempt (put_run s finished) attempt ApplicationStatus.uncertain
              "executor lost after submit was invoked"
        r ← on_queue moved.0 (
            needs_review moved.0.queue item worker_id
              "awaiting verification: earlier executor was lost after pressing submit")
        Result.ok (
            settled_as StartOutcome.awaiting_verification
              (audit r.0 moved.1 "execution:unknown", r.1))

  -- An earlier executor was lost before its click, or left no run
  unfoldable pub reclaim_attempt :
      ExecutionStore
      → ApplicationRow
      → Option ExecutionRunRow
      → Result (ExecutionStore × ApplicationRow)
  reclaim_attempt s attempt crashed =
      let s1 : ExecutionStore = elim crashed [
        | none ↦ s
        | some run ↦ put_run s (
            finish_run run ExecutionStatus.failed_retryable
              (some ExecutionOutcome.retryable_failure) (some ErrorClass.executor_crash)
              (some "executor lost before submit; safe to retry") e.now)
      ] in
      force_attempt s1 (record attempt { submission_key = none }) ApplicationStatus.ready
        "reclaimed after a lost executor"

  -- What happened before?
  unfoldable pub start_attempt : ExecutionStore → QueueRow → ApplicationRow → Result Started
  start_attempt s item attempt =
      let crashed = crashed_run s attempt in
      let reclaimed : Result Started = do
        again ← reclaim_attempt s attempt crashed
        start_ready again.0 item again.1
      in if has_status ApplicationStatus.submitted attempt
          || has_status ApplicationStatus.verified attempt
        then (on_queue s (
              succeed s.queue item worker_id e.now
                (some (("outcome", "already_submitted") ∷ ("application_id", attempt.id) ∷ [])))
            >>= λ r. Result.ok (settled_as StartOutcome.already_submitted r))
        else if has_status ApplicationStatus.uncertain attempt
        then (on_queue s (
              needs_review s.queue item worker_id
                "awaiting verification of an earlier submit; never resubmitted automatically")
            >>= λ r. Result.ok (settled_as StartOutcome.awaiting_verification r))
        else if has_status ApplicationStatus.submitting attempt
        then elim crashed [
          | none ↦ reclaimed
          | some run ↦ if run.submit_invoked then doubt_earlier s item attempt run else reclaimed
        ]
        else start_ready s item attempt

-- `start`
unfoldable pub start_item :
    Names
    → (String → String)
    → Surroundings
    → Offer
    → ExecutionStore
    → QueueRow
    → String
    → Result Started
start_item names lower e o s item worker_id = do
  found ← attempt_for_item s item
  begun ← begin_item s item worker_id
  elim found [
    | none ↦
        on_queue begun.0 (
          fail begun.0.queue begun.1 worker_id e.now "no application attempt for this opportunity"
            false)
        >>= λ r. Result.ok (settled_as StartOutcome.no_attempt r)
    | some attempt ↦ start_attempt names lower e o s item worker_id begun.0 begun.1 attempt
  ]
