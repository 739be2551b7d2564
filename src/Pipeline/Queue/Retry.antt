-- ===== src/Pipeline/Queue/Retry.antt =====
-- app/pipeline/queue.py: owners, failures and retries, and what a settled item still accepts.
use range_apply.Common.{
  Bool, Option, String, arith, eq_refl, false, none, refl, some, true, ℕ, ◌*◌, ◌+◌, ◌-◌, ◌<◌, ◌^◌,
  ◌≡◌, ◌≤◌, ◌⊎◌,
}
use range_apply.Core.Errors.{Result, ServiceError}
use range_apply.Core.Texts.{opt_eq, opt_eq-path}
use range_apply.Pipeline.Models.{QueueState}
use range_apply.Pipeline.Queue.{QueueStore, assert_owner}
use range_apply.Pipeline.Queue.Items.{ItemCall, perform}
use range_apply.Pipeline.Queue.Outcomes.{fail, release, succeed}
use range_apply.Pipeline.Rows.{JsonObject, QueueRow}

-- The worker that must own the item for the call, if it must be owned.
abbrev pub worker_of : ItemCall → Option String
worker_of (ItemCall.extend w now lease) = some w
worker_of (ItemCall.begin w) = some w
worker_of (ItemCall.give_back w reason) = some w
worker_of (ItemCall.finish w now res) = some w
worker_of (ItemCall.report_failure w now error retryable) = some w
worker_of (ItemCall.park w reason) = some w
worker_of _ = none

-- A worker's call is refused whenever another worker, or none, has the item.
pub perform-not_owner :
    (q : QueueStore) (row : QueueRow) (call : ItemCall) (w : String)
    → worker_of call ≡ some w
    → opt_eq row.claimed_by (some w) ≡ false
    → perform call q row ≡ Result.raise ServiceError.conflict
unfolding perform
perform-not_owner q row (ItemCall.extend v now lease) w e ne = ground arith
perform-not_owner q row (ItemCall.begin v) w e ne = ground arith
perform-not_owner q row (ItemCall.give_back v reason) w e ne = ground arith
perform-not_owner q row (ItemCall.finish v now res) w e ne = ground arith
perform-not_owner q row (ItemCall.report_failure v now error retryable) w e ne = ground arith
perform-not_owner q row (ItemCall.park v reason) w e ne = ground arith
perform-not_owner q row (ItemCall.send_to_review a reason) w e ne = ground arith
perform-not_owner q row (ItemCall.settle a now res reason) w e ne = ground arith
perform-not_owner q row (ItemCall.drop_item a now reason) w e ne = ground arith
perform-not_owner q row (ItemCall.put_back a now reason reset allow) w e ne = ground arith

-- The item waits for its backoff: a retry was asked for and a try is left.
abbrev pub WaitsForRetry : QueueRow → QueueRow → ℕ → Bool → Type 0
WaitsForRetry row row' now retryable =
    (retryable ≡ true)
    × (row.attempts < row.max_attempts)
    × (row'.state ≡ QueueState.retry_wait)
    × (row'.available_at ≡ now + 60 * 2 ^ (row.attempts - 1))
    × (row'.claimed_by ≡ none)

-- The item has failed for good.
abbrev pub IsDead : QueueRow → QueueRow → ℕ → Bool → Type 0
IsDead row row' now retryable =
    ((retryable ≡ false) ⊎ (row.max_attempts ≤ row.attempts))
    × (row'.state ≡ QueueState.failed)
    × (row'.completed_at ≡ some now)

module _ (q : QueueStore) (row : QueueRow) (w : String) (now : ℕ) {q' : QueueStore}
    {row' : QueueRow} where
  -- A failure that succeeds keeps the attempts and drops the lease. The item then waits for its
  -- backoff of a minute doubled for each earlier try, if it may be retried and a try is left, or it
  -- has failed for good, if it may not or none is.
  pub fail-outcome :
      (error : String) (retryable : Bool)
      → fail q row w now error retryable ≡ Result.ok (q', row')
      → (row'.attempts ≡ row.attempts)
        × (row'.lease_expires_at ≡ none)
        × (WaitsForRetry row row' now retryable ⊎ IsDead row row' now retryable)
  unfolding fail assert_owner
  fail-outcome error retryable h = ground arith

-- The state that an operation leaves the item in.
abbrev pub state_after : Result (QueueStore × QueueRow) → Option QueueState
state_after (Result.ok (q, row)) = some row.state
state_after (Result.raise e) = none

module _ (q : QueueStore) (row : QueueRow) (w : String) where
  release-owned :
      row.claimed_by ≡ some w
      → (reason : Option String) → state_after (release q row w reason) ≡ some QueueState.pending
  unfolding release assert_owner
  release-owned e reason = rw e (rw eq_refl refl)

  succeed-keeps_owner :
      (now : ℕ) (res : Option JsonObject) {q' : QueueStore} {row' : QueueRow}
      → succeed q row w now res ≡ Result.ok (q', row')
      → (row'.claimed_by ≡ some w) × (row'.state ≡ QueueState.succeeded)
  unfolding succeed assert_owner
  succeed-keeps_owner now res h = ground (arith, opt_eq-path row.claimed_by (some w))

-- An item that `succeed` settled keeps its owner, and that worker's `release` makes it pending again.
pub release-succeed :
    (q : QueueStore) (row : QueueRow) (w : String) (now : ℕ) (res : Option JsonObject)
    {q' : QueueStore} {row' : QueueRow} (reason : Option String)
    → succeed q row w now res ≡ Result.ok (q', row')
    → (row'.state ≡ QueueState.succeeded)
      × (state_after (release q' row' w reason) ≡ some QueueState.pending)
release-succeed q row w now res {q'} {row'} reason h =
    let (owned, done) = succeed-keeps_owner q row w now res h in
    (done, release-owned q' row' w owned reason)
