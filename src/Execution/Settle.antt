-- ===== src/Execution/Settle.antt =====
-- app/execution/service.py: how an item and its attempt are settled without a submission. The text
-- of a failure is an argument.
use Prim.Native.String
use range_apply.Application.Models.{ApplicationStatus}
use range_apply.Application.Rows.{ApplicationRow}
use range_apply.Common.{
  Bool, List, Option, String, [], any_of, false, find_first, if◌then◌else◌, none, or_else, some,
  str_eq, true, ℕ, ◌&&◌, ◌++◌, ◌==◌, ◌||◌, ◌∷◌,
}
use range_apply.Core.Errors.{Result, ◌>>=◌}
use range_apply.Core.Texts.{is_text, take_chars}
use range_apply.Execution.Models.{
  ErrorClass, ExecutionOutcome, ExecutionStatus, PreconditionCode, VerificationStatus, code_place,
}
use range_apply.Execution.Recovery.{force_attempt}
use range_apply.Execution.Runs.{
  ExecutionRunRow, ExecutionStore, audit, finish_run, names_row, put_attempt, put_run,
}
use range_apply.Pipeline.Models.{Lane, QueueAction, QueueState}
use range_apply.Pipeline.Queue.{QueueStore, default_max_attempts, find_item, save}
use range_apply.Pipeline.Queue.Enqueue.{enqueue}
use range_apply.Pipeline.Queue.Outcomes.{block, cancel, needs_review, release, requeue, succeed}
use range_apply.Pipeline.Rows.{QueueRow}
use range_apply.Scheduler.Attempts.{release_attempt}
use range_apply.Scheduler.Decisions.{PreparationRow, PreparationStatus}

-- The change of the item in the queue
unfoldable pub on_queue :
    ExecutionStore → Result (QueueStore × QueueRow) → Result (ExecutionStore × QueueRow)
on_queue s moved = do r ← moved; Result.ok (record s { queue = r.0 }, r.1)

-- `_park_item`
unfoldable pub park_item :
    ExecutionStore
    → QueueRow
    → String
    → ApplicationStatus
    → String
    → ℕ
    → Result (ExecutionStore × QueueRow)
park_item s item worker_id ApplicationStatus.needs_user_input reason now =
    on_queue s (block s.queue item worker_id reason)
park_item s item worker_id ApplicationStatus.blocked reason now =
    on_queue s (block s.queue item worker_id reason)
park_item s item worker_id ApplicationStatus.failed reason now =
    on_queue s (cancel s.queue item s.actor now (some reason))
park_item s item worker_id ApplicationStatus.cancelled reason now =
    on_queue s (cancel s.queue item s.actor now (some reason))
park_item s item worker_id ApplicationStatus.closed reason now =
    on_queue s (cancel s.queue item s.actor now (some reason))
park_item s item worker_id status reason now =
    on_queue s (needs_review s.queue item worker_id reason)

-- `_handoff`; `message` is the reason's value and the text
unfoldable pub handoff :
    ExecutionStore
    → QueueRow
    → String
    → ApplicationRow
    → Option ExecutionRunRow
    → String
    → String
    → ℕ
    → Result (ExecutionStore × QueueRow)
handoff s item worker_id attempt run reason message now =
    let s1 : ExecutionStore = elim run [
      | none ↦ s
      | some r ↦ put_run s (
          finish_run (record r { handoff_reason = some reason }) ExecutionStatus.handoff
            (some ExecutionOutcome.handoff) none none now)
    ] in
    let stopped : ApplicationRow = record attempt {
      submission_key = none;
      blocked_reason = some reason;
    } in
    let text = String.◌++◌ reason (String.◌++◌ ": " message) in
    do
      moved ← force_attempt (put_attempt s1 stopped) stopped ApplicationStatus.blocked text
      parked ← on_queue moved.0 (block moved.0.queue item worker_id text)
      Result.ok (audit parked.0 moved.1 "execution:handoff", parked.1)

-- `PreparationService.invalidate`, for a preparation that is ready
unfoldable pub invalidate : String → Option String → List PreparationRow → List PreparationRow
invalidate tenant_id key [] = []
invalidate tenant_id key (p ∷ ps) =
    let rest = invalidate tenant_id key ps in
    let is_it = str_eq p.tenant_id tenant_id && names_row key p.id in
    elim p.status [
      | PreparationStatus.ready ↦
          (if is_it then record p { status = PreparationStatus.invalidated } else p) ∷ rest
      | _ ↦ p ∷ rest
    ]

abbrev pub may_requeue : QueueState → Bool
may_requeue QueueState.pending = false
may_requeue QueueState.claimed = false
may_requeue QueueState.processing = false
may_requeue QueueState.retry_wait = false
may_requeue _ = true

-- The end of `_reprepare`: the PREPARE item waits again, or a new one is made
unfoldable pub queue_preparation :
    ExecutionStore → ApplicationRow → String → ℕ → Result ExecutionStore
queue_preparation s attempt new_id now =
    let item =
      if is_text attempt.opportunity_id
      then find_item s.queue (or_else attempt.opportunity_id "") QueueAction.prepare
      else none in
    let candidate =
      find_first (λ c. names_row attempt.candidate_opportunity_id c.id) s.queue.candidates in
    elim item [
      | some i ↦
          if may_requeue i.state
          then (requeue s.queue i s.actor now (some "stale preparation at execution") true true
              >>= λ r. Result.ok (record s { queue = r.0 }))
          else Result.ok s
      | none ↦ elim candidate [
        | none ↦ Result.ok s
        | some co ↦
            enqueue s.queue new_id now co QueueAction.prepare s.actor
              (or_else attempt.lane Lane.review) co.priority_score none default_max_attempts
            >>= λ r. Result.ok (record s { queue = r.0 })
      ]
    ]

-- `_reprepare`
unfoldable pub reprepare :
    ExecutionStore → ApplicationRow → String → String → ℕ → Result (ExecutionStore × ApplicationRow)
reprepare s attempt message new_id now =
    let s1 : ExecutionStore = record s {
      preparations = invalidate s.tenant_id attempt.preparation_id s.preparations;
    } in
    let waiting : ApplicationRow = record attempt { submission_key = none } in
    do
      moved ←
          force_attempt (put_attempt s1 waiting) waiting ApplicationStatus.preparing
            (take_chars 256 (String.◌++◌ "re-preparing: " message))
      s2 ← queue_preparation moved.0 moved.1 new_id now
      Result.ok (s2, moved.1)

abbrev pub has_code : List PreconditionCode → PreconditionCode → Bool
has_code codes code = any_of (λ c. code_place c == code_place code) codes

-- The codes that close an attempt
abbrev pub has_closing : List PreconditionCode → Bool
has_closing codes =
    has_code codes PreconditionCode.company_blocked
    || (has_code codes PreconditionCode.opportunity_closed
        || (has_code codes PreconditionCode.duplicate_application
            || (has_code codes PreconditionCode.duplicate_opportunity
                || has_code codes PreconditionCode.already_submitted)))

abbrev pub has_stale : List PreconditionCode → Bool
has_stale codes =
    has_code codes PreconditionCode.preparation_stale
    || has_code codes PreconditionCode.preparation_not_current

abbrev pub has_cap : List PreconditionCode → Bool
has_cap codes =
    has_code codes PreconditionCode.daily_cap_reached
    || has_code codes PreconditionCode.weekly_cap_reached

-- The run row of a refusal; `key` is its idempotency key
unfoldable pub refused_run :
    ExecutionStore
    → QueueRow
    → String
    → ApplicationRow
    → List PreconditionCode
    → String
    → String
    → String
    → ℕ
    → ExecutionRunRow
refused_run s item worker_id attempt codes message run_id key now = record {
  id = run_id;
  tenant_id = s.tenant_id;
  application_id = attempt.id;
  preparation_id = attempt.preparation_id;
  candidate_opportunity_id = attempt.candidate_opportunity_id;
  opportunity_id = attempt.opportunity_id;
  queue_item_id = some item.id;
  executor_kind = "NONE";
  worker_id = some worker_id;
  idempotency_key = key;
  run_number = attempt.execution_count;
  status = if has_stale codes then ExecutionStatus.stale else ExecutionStatus.precondition_failed;
  outcome = none;
  submit_invoked = false;
  finished_at = some now;
  application_url = none;
  external_application_id = none;
  confirmation_reference = none;
  verification_status = VerificationStatus.not_attempted;
  verification_method = none;
  verification_detail = none;
  error_class = some ErrorClass.policy;
  error_message = some message;
  handoff_reason = none;
  preconditions = codes;
}

-- The item and the attempt of a refusal for a reason that closes the attempt
unfoldable pub close_refused :
    ExecutionStore
    → QueueRow
    → String
    → ApplicationRow
    → List PreconditionCode
    → String
    → ℕ
    → Result (ExecutionStore × QueueRow)
close_refused s item worker_id attempt codes message now =
    let (attempts', closed) =
      release_attempt s.attempts attempt ApplicationStatus.closed message now in
    let s1 : ExecutionStore = record s { attempts = attempts' } in
    let dropped : Result (ExecutionStore × QueueRow) = do
      r ← on_queue s1 (cancel s.queue item s.actor now (some (take_chars 512 message)))
      Result.ok (audit r.0 closed "execution:blocked_by_policy", r.1)
    in if has_code codes PreconditionCode.already_submitted
      then on_queue s
          (succeed s.queue item worker_id now (some (("outcome", "already_submitted") ∷ [])))
      else dropped

-- The item waits for the end of the period: `release`, then `available_at`
unfoldable pub wait_until :
    ExecutionStore → QueueRow → String → String → ℕ → Result (ExecutionStore × QueueRow)
wait_until s item worker_id reason until = do
  r ← on_queue s (release s.queue item worker_id (some reason))
  let later : QueueRow = record r.1 { available_at = until }
  Result.ok (record r.0 { queue = record r.0.queue { rows = save later r.0.queue.rows } }, later)

-- An attempt and its item that wait for a person
unfoldable pub stop_attempt :
    ExecutionStore
    → ApplicationRow
    → ApplicationStatus
    → String
    → (ExecutionStore → Result (QueueStore × QueueRow))
    → String
    → Result (ExecutionStore × QueueRow)
stop_attempt s attempt status message parked action = do
  moved ← force_attempt s attempt status (take_chars 256 message)
  r ← on_queue moved.0 (parked moved.0)
  Result.ok (audit r.0 moved.1 action, r.1)

-- `_settle_preconditions`; `day_end` and `week_end` are the ends of the current periods. The key of
-- the run is made from the clock, `run_id` serves for both new rows, and the time in the text of a
-- cooldown is left out
unfoldable pub settle_preconditions :
    ExecutionStore
    → QueueRow
    → String
    → ApplicationRow
    → List PreconditionCode
    → String
    → String
    → String
    → ℕ
    → ℕ
    → ℕ
    → Result (ExecutionStore × QueueRow)
settle_preconditions s item worker_id attempt codes message run_id key day_end week_end now =
    let run = refused_run s item worker_id attempt codes message run_id key now in
    let noted : ApplicationRow = record attempt { last_execution_id = some run_id } in
    let s1 = put_attempt (record s { runs = s.runs ++ run ∷ [] }) noted in
    let short = take_chars 2000 message in
    let stale : Result (ExecutionStore × QueueRow) = do
      again ← reprepare s1 noted message run_id now
      r ←
          on_queue again.0
            (needs_review again.0.queue item worker_id (String.◌++◌ "stale preparation: " message))
      Result.ok (audit r.0 again.1 "execution:stale", r.1)
    in let cooling : Result (ExecutionStore × QueueRow) = do
      moved ← force_attempt s1 noted ApplicationStatus.blocked (take_chars 256 message)
      let blocked : ApplicationRow = record moved.1 { blocked_reason = some "COOLDOWN_ACTIVE" }
      r ← on_queue moved.0 (block moved.0.queue item worker_id "cooldown active")
      Result.ok (audit (put_attempt r.0 blocked) blocked "execution:cooldown_blocked", r.1)
      in let waiting : Result (ExecutionStore × QueueRow) = do
        r ←
            wait_until s1 item worker_id (take_chars 512 message)
              (if has_code codes PreconditionCode.daily_cap_reached then day_end else week_end)
        Result.ok (audit r.0 noted "execution:cap_wait", r.1)
        in if has_stale codes
          then stale
          else if has_closing codes
          then close_refused s1 item worker_id noted codes message now
          else if has_code codes PreconditionCode.cooldown_active
          then cooling
          else if has_cap codes
          then waiting
          else if has_code codes PreconditionCode.user_input_required
          then stop_attempt s1 noted ApplicationStatus.needs_user_input message
              (λ x. block x.queue item worker_id short) "execution:needs_user_input"
          else stop_attempt s1 noted ApplicationStatus.needs_review message
              (λ x. needs_review x.queue item worker_id short) "execution:precondition_failed"
