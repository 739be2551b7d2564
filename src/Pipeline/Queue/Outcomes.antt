-- ===== src/Pipeline/Queue/Outcomes.antt =====
-- app/pipeline/queue.py: what becomes of one item. Each operation takes the store, the row as the
-- session holds it and the clock where it reads it, and returns both, or raises.
use range_apply.Common.{
  Bool, Option, String, [], if◌then◌else◌, ltb, none, not, or_else, some, ℕ, ◌&&◌, ◌*◌, ◌+◌, ◌-◌,
  ◌==◌, ◌^◌, ◌||◌,
}
use range_apply.Core.Errors.{Result, ServiceError, refuse_if, ◌>>◌}
use range_apply.Core.Texts.{clip}
use range_apply.Pipeline.Models.{QueueAction, QueueState, action_place, queue_place}
use range_apply.Pipeline.Queue.{
  QueueStore, assert_owner, commit_change, retry_backoff_base_seconds, save,
}
use range_apply.Pipeline.Rows.{JsonObject, QueueRow}

-- `extend_lease`; it leaves no audit event
unfoldable pub extend_lease :
    QueueStore → QueueRow → String → ℕ → ℕ → Result (QueueStore × QueueRow)
extend_lease q row worker_id now lease_seconds = do
  assert_owner row worker_id
  let row' : QueueRow = record row { lease_expires_at = some (now + lease_seconds) }
  Result.ok (record q { rows = save row' q.rows }, row')

-- `start`
unfoldable pub start : QueueStore → QueueRow → String → Result (QueueStore × QueueRow)
start q row worker_id = do
  assert_owner row worker_id
  refuse_if (not (queue_place row.state == queue_place QueueState.claimed)) ServiceError.conflict
  let row' : QueueRow = record row { state = QueueState.processing }
  Result.ok (commit_change q row row' "processing" worker_id none, row')

-- `release`
unfoldable pub release :
    QueueStore → QueueRow → String → Option String → Result (QueueStore × QueueRow)
release q row worker_id reason = do
  assert_owner row worker_id
  let row' : QueueRow = record row {
    state = QueueState.pending;
    claimed_by = none;
    claimed_at = none;
    lease_expires_at = none;
    attempts = row.attempts - 1;
  }
  Result.ok (commit_change q row row' "released" worker_id reason, row')

-- `succeed`
unfoldable pub succeed :
    QueueStore → QueueRow → String → ℕ → Option JsonObject → Result (QueueStore × QueueRow)
succeed q row worker_id now result = do
  assert_owner row worker_id
  let row' : QueueRow = record row {
    state = QueueState.succeeded;
    result = some (or_else result []);
    completed_at = some now;
    lease_expires_at = none;
    last_error = none;
  }
  Result.ok (commit_change q row row' "succeeded" worker_id none, row')

-- `RETRY_BACKOFF_BASE_SECONDS * 2 ** max(0, attempts - 1)`
abbrev pub retry_delay : ℕ → ℕ
retry_delay attempts = retry_backoff_base_seconds * 2 ^ (attempts - 1)

-- `fail`
unfoldable pub fail :
    QueueStore → QueueRow → String → ℕ → String → Bool → Result (QueueStore × QueueRow)
fail q row worker_id now error retryable = do
  assert_owner row worker_id
  let noted : QueueRow = record row {
    last_error = some (clip 2000 (some error));
    lease_expires_at = none;
  }
  let waiting : QueueRow = record noted {
    state = QueueState.retry_wait;
    available_at = now + retry_delay row.attempts;
    claimed_by = none;
    claimed_at = none;
  }
  let dead : QueueRow = record noted { state = QueueState.failed; completed_at = some now }
  if retryable && ltb row.attempts row.max_attempts
      then Result.ok (commit_change q row waiting "retry_scheduled" worker_id (some error), waiting)
      else Result.ok (commit_change q row dead "failed" worker_id (some error), dead)

-- `block`
unfoldable pub block : QueueStore → QueueRow → String → String → Result (QueueStore × QueueRow)
block q row worker_id reason = do
  assert_owner row worker_id
  let row' : QueueRow = record row {
    state = QueueState.blocked;
    last_error = some (clip 2000 (some reason));
    lease_expires_at = none;
  }
  Result.ok (commit_change q row row' "blocked" worker_id (some reason), row')

-- `needs_review`; any actor may call it
unfoldable pub needs_review :
    QueueStore → QueueRow → String → String → Result (QueueStore × QueueRow)
needs_review q row actor reason =
    let row' : QueueRow = record row {
      state = QueueState.needs_review;
      last_error = some (clip 2000 (some reason));
      lease_expires_at = none;
      claimed_by = none;
    } in
    Result.ok (commit_change q row row' "needs_review" actor (some reason), row')

-- `resolve`
unfoldable pub resolve :
    QueueStore
    → QueueRow
    → String
    → ℕ
    → Option JsonObject
    → Option String
    → Result (QueueStore × QueueRow)
resolve q row actor now result reason = do
  refuse_if
      ((queue_place row.state == queue_place QueueState.succeeded)
        || (queue_place row.state == queue_place QueueState.cancelled))
      ServiceError.conflict
  let row' : QueueRow = record row {
    state = QueueState.succeeded;
    result = some (or_else result []);
    completed_at = some now;
    lease_expires_at = none;
    claimed_by = none;
    last_error = none;
  }
  Result.ok (commit_change q row row' "resolved" actor reason, row')

-- `cancel`
unfoldable pub cancel :
    QueueStore → QueueRow → String → ℕ → Option String → Result (QueueStore × QueueRow)
cancel q row actor now reason = do
  refuse_if (queue_place row.state == queue_place QueueState.succeeded) ServiceError.conflict
  let row' : QueueRow = record row {
    state = QueueState.cancelled;
    completed_at = some now;
    lease_expires_at = none;
    claimed_by = none;
  }
  Result.ok (commit_change q row row' "cancelled" actor reason, row')

-- `requeue`
unfoldable pub requeue :
    QueueStore
    → QueueRow
    → String
    → ℕ
    → Option String
    → Bool
    → Bool
    → Result (QueueStore × QueueRow)
requeue q row actor now reason reset_attempts allow_succeeded = do
  refuse_if
      ((queue_place row.state == queue_place QueueState.succeeded)
        && not (allow_succeeded && (action_place row.action == action_place QueueAction.prepare)))
      ServiceError.conflict
  refuse_if
      ((queue_place row.state == queue_place QueueState.pending)
        || ((queue_place row.state == queue_place QueueState.claimed)
            || (queue_place row.state == queue_place QueueState.processing)))
      ServiceError.conflict
  let row' : QueueRow = record row {
    state = QueueState.pending;
    available_at = now;
    claimed_by = none;
    claimed_at = none;
    lease_expires_at = none;
    completed_at = none;
    last_error = none;
    attempts = if reset_attempts then 0 else row.attempts;
  }
  Result.ok (commit_change q row row' "requeued" actor reason, row')
