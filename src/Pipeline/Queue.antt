-- ===== src/Pipeline/Queue.antt =====
-- app/pipeline/queue.py: the database-backed work queue. This file has the store and its audit
-- trail; the operations and their proofs are in the modules below.
pub mod Enqueue
pub mod Claim
pub mod Outcomes
pub mod Items
pub mod Frame
pub mod Retry
pub mod Once
pub mod Race
mod Tests
use Prim.Native.String
use range_apply.Common.{
  List, Option, String, [], count_of, find_first, if◌then◌else◌, none, not, some, str_eq, ℕ, ◌&&◌,
  ◌++◌, ◌==◌, ◌∷◌,
}
use range_apply.Core.Errors.{Result, ServiceError, refuse_if}
use range_apply.Core.Texts.{clip_or_none, opt_eq, text_or}
use range_apply.Pipeline.Models.{Lane, QueueAction, QueueState, queue_place}
use range_apply.Pipeline.Rows.{CandidateOpportunityRow, QueueRow}

abbrev pub default_lease_seconds : ℕ
default_lease_seconds = 600

abbrev pub default_max_attempts : ℕ
default_max_attempts = 3

abbrev pub retry_backoff_base_seconds : ℕ
retry_backoff_base_seconds = 60

abbrev pub action_value : QueueAction → String
action_value QueueAction.prepare = "PREPARE"
action_value QueueAction.submit = "SUBMIT"
action_value QueueAction.verify = "VERIFY"

-- `f"{tenant_id}:{opportunity_id}:{action.value}"`
unfoldable pub idempotency_key : String → String → QueueAction → String
idempotency_key tenant_id opportunity_id action =
    String.◌++◌ tenant_id
      (String.◌++◌ ":" (String.◌++◌ opportunity_id (String.◌++◌ ":" (action_value action))))

-- What the audit trail keeps of a row, `snapshot(row)`.
pub record Snapshot : Type 0 where
  pub state : QueueState
  pub action : QueueAction
  pub lane : Lane
  pub priority : ℕ
  pub attempts : ℕ
  pub claimed_by : Option String
  pub last_error : Option String

abbrev pub snapshot : QueueRow → Snapshot
snapshot row = record {
  state = row.state;
  action = row.action;
  lane = row.lane;
  priority = row.priority;
  attempts = row.attempts;
  claimed_by = row.claimed_by;
  last_error = row.last_error;
}

-- `AuditEventRow` of a queue item; the order of the list is that of `ordered_db_now`.
pub record AuditEvent : Type 0 where
  pub tenant_id : String
  pub entity_id : String
  pub action : String
  pub actor : String
  pub before : Option Snapshot
  pub after : Snapshot
  pub summary : Option String

-- `QueueRepository`: the tenant, and the tables that it reads and writes.
pub record QueueStore : Type 0 where
  pub tenant_id : String
  pub rows : List QueueRow
  pub candidates : List CandidateOpportunityRow
  pub audit : List AuditEvent

-- The write of one row by its primary key; an unknown key changes nothing.
unfoldable pub save : QueueRow → List QueueRow → List QueueRow
save row [] = []
save row (r ∷ rs) = if str_eq r.id row.id then row ∷ rs else r ∷ save row rs

-- `_record`
unfoldable pub record_event :
    QueueStore → QueueRow → String → String → Option Snapshot → Option String → QueueStore
record_event q row action actor before summary = record q {
  audit =
      q.audit
      ++ record {
        tenant_id = q.tenant_id;
        entity_id = row.id;
        action = action;
        actor = text_or actor "system";
        before = before;
        after = snapshot row;
        summary = clip_or_none 512 summary;
      }
        ∷ [];
}

-- `flush` of the changed row, then `_record` with the snapshot taken before the change.
unfoldable pub commit_change :
    QueueStore → QueueRow → QueueRow → String → String → Option String → QueueStore
unfolding record_event save
commit_change q row row' action actor summary =
    record_event (record q { rows = save row' q.rows }) row' action actor (some (snapshot row))
      summary

-- `find`: the row with the idempotency key of the tenant, the opportunity and the action.
unfoldable pub find_item : QueueStore → String → QueueAction → Option QueueRow
find_item q opportunity_id action =
    let key = idempotency_key q.tenant_id opportunity_id action in
    find_first (λ r. str_eq r.tenant_id q.tenant_id && str_eq r.idempotency_key key) q.rows

-- `get`
unfoldable pub get_item : QueueStore → String → Option QueueRow
get_item q item_id = find_first (λ r. str_eq r.tenant_id q.tenant_id && str_eq r.id item_id) q.rows

-- `require`
unfoldable pub require_item : QueueStore → String → Result QueueRow
unfolding get_item
require_item q item_id = elim (get_item q item_id) [
  | none ↦ Result.raise ServiceError.not_found
  | some row ↦ Result.ok row
]

-- `_assert_owner`
unfoldable pub assert_owner : QueueRow → String → Result (Unit {0})
assert_owner row worker_id =
    refuse_if (not (opt_eq row.claimed_by (some worker_id))) ServiceError.conflict

-- `counts_by_state`, for one state
pub count_state : QueueStore → QueueState → ℕ
count_state q s =
    count_of (λ r. str_eq r.tenant_id q.tenant_id && (queue_place r.state == queue_place s)) q.rows
