-- ===== src/Pipeline/Queue/Frame.antt =====
-- app/pipeline/queue.py: what an operation on one item writes.
use range_apply.Common.{All, Bool-cases, List, [], arith, inl, inr, str_eq, ◌∷◌, ◌≡◌}
use range_apply.Core.Errors.{Result}
use range_apply.Pipeline.Queue.{QueueStore, commit_change, save}
use range_apply.Pipeline.Queue.Items.{IsSound, ItemCall, ResetsAttempts, perform, perform-IsSound}
use range_apply.Pipeline.Rows.{QueueRow}

-- The columns that say which work a row stands for.
pub record SameWork (a b : QueueRow) : Type 0 where
  pub id : a.id ≡ b.id
  pub tenant_id : a.tenant_id ≡ b.tenant_id
  pub candidate_opportunity_id : a.candidate_opportunity_id ≡ b.candidate_opportunity_id
  pub opportunity_id : a.opportunity_id ≡ b.opportunity_id
  pub action : a.action ≡ b.action
  pub idempotency_key : a.idempotency_key ≡ b.idempotency_key
  pub max_attempts : a.max_attempts ≡ b.max_attempts
  pub created_at : a.created_at ≡ b.created_at

module _ (q : QueueStore) (row : QueueRow) {q' : QueueStore} {row' : QueueRow} where
  pub perform-frame :
      (call : ItemCall)
      → perform call q row ≡ Result.ok (q', row')
      → SameWork row' row
        × (q'.rows ≡ save row' q.rows)
        × (q'.candidates ≡ q.candidates)
        × (q'.tenant_id ≡ q.tenant_id)
  unfolding perform commit_change
  perform-frame (ItemCall.extend w now lease) h = ground arith
  perform-frame (ItemCall.begin w) h = ground arith
  perform-frame (ItemCall.give_back w reason) h = ground arith
  perform-frame (ItemCall.finish w now res) h = ground arith
  perform-frame (ItemCall.report_failure w now error retryable) h = ground arith
  perform-frame (ItemCall.park w reason) h = ground arith
  perform-frame (ItemCall.send_to_review a reason) h = ground arith
  perform-frame (ItemCall.settle a now res reason) h = ground arith
  perform-frame (ItemCall.drop_item a now reason) h = ground arith
  perform-frame (ItemCall.put_back a now reason reset allow) h = ground arith

-- A predicate of the new row and of every old one holds of every row afterwards.
pub All-save {κ} :
    (P : QueueRow → Type κ) (row : QueueRow) (rows : List QueueRow)
    → P row
    → All P rows
    → All P (save row rows)
unfolding save
All-save P row [] h hs = hs
All-save P row (r ∷ rs) h hs = elim (Bool-cases (str_eq r.id row.id)) [
  | inl same ↦ rw same (h, hs.1)
  | inr other ↦ rw other (hs.0, All-save P row rs h hs.1)
]

-- Every row of the store is sound after an operation on a sound row.
pub perform-All-IsSound :
    (q : QueueStore) (row : QueueRow) {q' : QueueStore} {row' : QueueRow} (call : ItemCall)
    → ResetsAttempts call
    → IsSound row
    → All IsSound q.rows
    → perform call q row ≡ Result.ok (q', row')
    → All IsSound q'.rows
perform-All-IsSound q row {q'} {row'} call resets sound all h =
    rw (perform-frame q row call h).1
      (All-save IsSound row' q.rows (perform-IsSound q row call resets sound h) all)
