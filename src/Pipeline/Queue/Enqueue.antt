-- ===== src/Pipeline/Queue/Enqueue.antt =====
-- app/pipeline/queue.py: `enqueue`, one row for each tenant, opportunity and action.
use range_apply.Common.{
  Bool, Option, String, [], false, if◌then◌else◌, none, or_else, some, str_eq, true, ℕ, ◌++◌, ◌==◌,
  ◌∷◌,
}
use range_apply.Core.Errors.{Result, ServiceError}
use range_apply.Pipeline.Models.{Lane, QueueAction, QueueState, is_active, queue_place}
use range_apply.Pipeline.Queue.{QueueStore, find_item, idempotency_key, record_event}
use range_apply.Pipeline.Rows.{CandidateOpportunityRow, QueueRow}

-- The new row; `id` is the `new_id()` of the column's default.
unfoldable pub new_item :
    QueueStore
    → String
    → ℕ
    → CandidateOpportunityRow
    → QueueAction
    → Lane
    → Option ℕ
    → Option ℕ
    → ℕ
    → QueueRow
new_item q id now co action lane priority available_at max_attempts = record {
  id = id;
  tenant_id = q.tenant_id;
  candidate_opportunity_id = co.id;
  opportunity_id = co.opportunity_id;
  action = action;
  state = QueueState.pending;
  lane = lane;
  priority = or_else priority (or_else co.priority_score 0);
  idempotency_key = idempotency_key q.tenant_id co.opportunity_id action;
  available_at = or_else available_at now;
  attempts = 0;
  max_attempts = max_attempts;
  claimed_by = none;
  claimed_at = none;
  lease_expires_at = none;
  last_error = none;
  result = none;
  completed_at = none;
  created_at = now;
}

-- `enqueue`, with the clock and the fresh key as arguments.
unfoldable pub enqueue :
    QueueStore
    → String
    → ℕ
    → CandidateOpportunityRow
    → QueueAction
    → String
    → Lane
    → Option ℕ
    → Option ℕ
    → ℕ
    → Result (QueueStore × QueueRow × Bool)
unfolding new_item record_event
enqueue q id now co action actor lane priority available_at max_attempts =
    let row = new_item q id now co action lane priority available_at max_attempts in
    let created : Result (QueueStore × QueueRow × Bool) = Result.ok (
      record_event (record q { rows = q.rows ++ row ∷ [] }) row "enqueued" actor none none,
      row,
      true,
    ) in
    let found : Result (QueueStore × QueueRow × Bool) =
      elim (find_item q co.opportunity_id action) [
        | none ↦ created
        | some existing ↦
            if queue_place existing.state == queue_place QueueState.succeeded
            then Result.raise ServiceError.conflict
            else if is_active existing.state
            then Result.ok (q, existing, false)
            else Result.raise ServiceError.conflict
      ] in
    if str_eq co.tenant_id q.tenant_id then found else Result.raise ServiceError.not_found
