-- ===== src/Pipeline/Queue/Items.antt =====
-- app/pipeline/queue.py: every operation on one item, and what all of them keep.
use range_apply.Common.{Bool, Option, String, arith, is_some, none, true, ℕ, ◌<◌, ◌≡◌, ◌≤◌}
use range_apply.Core.Errors.{Result}
use range_apply.Pipeline.Queue.{QueueStore, assert_owner}
use range_apply.Pipeline.Queue.Claim.{is_held, is_waiting}
use range_apply.Pipeline.Queue.Outcomes.{
  block, cancel, extend_lease, fail, needs_review, release, requeue, resolve, start, succeed,
}
use range_apply.Pipeline.Rows.{JsonObject, QueueRow}

-- A call of an operation, with its arguments.
pub data ItemCall : Type 0 where
  extend : String → ℕ → ℕ → ItemCall
  begin : String → ItemCall
  give_back : String → Option String → ItemCall
  finish : String → ℕ → Option JsonObject → ItemCall
  report_failure : String → ℕ → String → Bool → ItemCall
  park : String → String → ItemCall
  send_to_review : String → String → ItemCall
  settle : String → ℕ → Option JsonObject → Option String → ItemCall
  drop_item : String → ℕ → Option String → ItemCall
  put_back : String → ℕ → Option String → Bool → Bool → ItemCall

unfoldable pub perform : ItemCall → QueueStore → QueueRow → Result (QueueStore × QueueRow)
unfolding extend_lease start release succeed fail block needs_review resolve cancel requeue
    assert_owner
perform (extend w now lease) q row = extend_lease q row w now lease
perform (begin w) q row = start q row w
perform (give_back w reason) q row = release q row w reason
perform (finish w now res) q row = succeed q row w now res
perform (report_failure w now error retryable) q row = fail q row w now error retryable
perform (park w reason) q row = block q row w reason
perform (send_to_review a reason) q row = needs_review q row a reason
perform (settle a now res reason) q row = resolve q row a now res reason
perform (drop_item a now reason) q row = cancel q row a now reason
perform (put_back a now reason reset allow) q row = requeue q row a now reason reset allow

-- All calls but a requeue that keeps the count of attempts.
abbrev pub ResetsAttempts : ItemCall → Type 0
ResetsAttempts (put_back a now reason reset allow) = reset ≡ true
ResetsAttempts _ = Unit {0}

-- What holds of an item between two operations.
pub record IsSound (row : QueueRow) : Type 0 where
  pub attempts_capped : row.attempts ≤ row.max_attempts
  pub may_try : 0 < row.max_attempts
  pub waiting_has_try : is_waiting row.state ≡ true → row.attempts < row.max_attempts
  pub waiting_is_free : is_waiting row.state ≡ true → row.claimed_by ≡ none
  pub waiting_no_lease : is_waiting row.state ≡ true → row.lease_expires_at ≡ none
  pub held_is_owned : is_held row.state ≡ true → is_some row.claimed_by ≡ true
  pub held_is_leased : is_held row.state ≡ true → is_some row.lease_expires_at ≡ true

module _ (q : QueueStore) (row : QueueRow) {q' : QueueStore} {row' : QueueRow} where
  -- Every operation that succeeds on a sound item leaves it sound, if a requeue resets the attempts.
  pub perform-IsSound :
      (call : ItemCall)
      → ResetsAttempts call
      → IsSound row
      → perform call q row ≡ Result.ok (q', row')
      → IsSound row'
  unfolding perform
  perform-IsSound (extend w now lease) r s h = ground arith
  perform-IsSound (begin w) r s h = ground arith
  perform-IsSound (give_back w reason) r s h = ground arith
  perform-IsSound (finish w now res) r s h = ground arith
  perform-IsSound (report_failure w now error retryable) r s h = ground arith
  perform-IsSound (park w reason) r s h = ground arith
  perform-IsSound (send_to_review a reason) r s h = ground arith
  perform-IsSound (settle a now res reason) r s h = ground arith
  perform-IsSound (drop_item a now reason) r s h = ground arith
  perform-IsSound (put_back a now reason reset allow) r s h = ground arith
