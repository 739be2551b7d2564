-- ===== src/Pipeline/Queue/Tests.antt =====
-- app/pipeline/queue.py: the queue on concrete items.
use range_apply.Common.{[], arith, false, inl, none, refl, some, true, ◌∷◌, ◌≡◌, ◌⊎◌}
use range_apply.Core.Errors.{Result, ServiceError}
use range_apply.Core.Texts.{clip}
use range_apply.Pipeline.Models.{Lane, OpportunityState, QueueAction, QueueState}
use range_apply.Pipeline.Queue.{QueueStore, assert_owner, commit_change, find_item, record_event}
use range_apply.Pipeline.Queue.Claim.{claim_seen, claimed_row}
use range_apply.Pipeline.Queue.Enqueue.{enqueue, new_item}
use range_apply.Pipeline.Queue.Items.{IsSound, ItemCall, perform, perform-IsSound}
use range_apply.Pipeline.Queue.Once.{
  HasOneRowPerKey, enqueue-HasOneRowPerKey, enqueue-again, key_count,
}
use range_apply.Pipeline.Queue.Outcomes.{fail, release, succeed}
use range_apply.Pipeline.Queue.Race.{claim_seen-once, claim_seen-twice}
use range_apply.Pipeline.Queue.Retry.{
  IsDead, WaitsForRetry, fail-outcome, perform-not_owner, release-succeed, state_after,
}
use range_apply.Pipeline.Rows.{CandidateOpportunityRow, QueueRow}

abbrev waiting_item : QueueRow
waiting_item = record {
  id = "q1";
  tenant_id = "t";
  candidate_opportunity_id = "c1";
  opportunity_id = "o1";
  action = QueueAction.prepare;
  state = QueueState.pending;
  lane = Lane.review;
  priority = 10;
  idempotency_key = "t:o1:PREPARE";
  available_at = 0;
  attempts = 0;
  max_attempts = 3;
  claimed_by = none;
  claimed_at = none;
  lease_expires_at = none;
  last_error = none;
  result = none;
  completed_at = none;
  created_at = 0;
}

abbrev held_item : QueueRow
held_item = record waiting_item {
  state = QueueState.claimed;
  attempts = 1;
  claimed_by = some "w1";
  claimed_at = some 5;
  lease_expires_at = some 65;
}

abbrev retried_item : QueueRow
retried_item = record held_item {
  last_error = some (clip 2000 (some "boom"));
  state = QueueState.retry_wait;
  available_at = 130;
  claimed_by = none;
  claimed_at = none;
  lease_expires_at = none;
}

abbrev store_of : QueueRow → QueueStore
store_of row = record { tenant_id = "t"; rows = row ∷ []; candidates = []; audit = [] }

abbrev after_retry : QueueStore
after_retry =
    commit_change (store_of held_item) held_item retried_item "retry_scheduled" "w1" (some "boom")

held_item-IsSound : IsSound held_item
held_item-IsSound = ground arith

failing_run :
    perform (ItemCall.report_failure "w1" 70 "boom" true) (store_of held_item) held_item
    ≡ Result.ok (after_retry, retried_item)
unfolding perform
failing_run = refl

perform-IsSound_example : IsSound retried_item
perform-IsSound_example =
    perform-IsSound (store_of held_item) held_item {q' = after_retry}
      (ItemCall.report_failure "w1" 70 "boom" true) tt held_item-IsSound failing_run

perform-not_owner_example :
    perform (ItemCall.begin "w2") (store_of held_item) held_item
    ≡ Result.raise ServiceError.conflict
perform-not_owner_example =
    perform-not_owner (store_of held_item) held_item (ItemCall.begin "w2") "w2" refl refl

fail_run :
    fail (store_of held_item) held_item "w1" 70 "boom" true ≡ Result.ok (after_retry, retried_item)
unfolding fail assert_owner
fail_run = refl

fail-outcome_example :
    (retried_item.attempts ≡ 1)
    × (retried_item.lease_expires_at ≡ none)
    × (WaitsForRetry held_item retried_item 70 true ⊎ IsDead held_item retried_item 70 true)
fail-outcome_example = fail-outcome (store_of held_item) held_item "w1" 70 "boom" true fail_run

abbrev claimed_once : QueueRow
claimed_once = claimed_row 5 "w1" 60 waiting_item

abbrev after_claim : QueueStore
after_claim = commit_change (store_of waiting_item) waiting_item claimed_once "claimed" "w1" none

claim_run :
    claim_seen (store_of waiting_item) 5 "w1" 60 "claimed" waiting_item
    ≡ (after_claim, some claimed_once)
unfolding claim_seen
claim_run = refl

claim_seen-once_example :
    claim_seen after_claim 6 "w2" 60 "claimed" waiting_item ≡ (after_claim, none)
claim_seen-once_example =
    claim_seen-once (store_of waiting_item) waiting_item 5 6 "w1" "w2" 60 60 "claimed" "claimed"
      (ground arith) (inl refl) claim_run

abbrev done_item : QueueRow
done_item = record held_item {
  state = QueueState.succeeded;
  result = some [];
  completed_at = some 70;
  lease_expires_at = none;
}

abbrev after_success : QueueStore
after_success = commit_change (store_of held_item) held_item done_item "succeeded" "w1" none

success_run :
    succeed (store_of held_item) held_item "w1" 70 none ≡ Result.ok (after_success, done_item)
unfolding succeed assert_owner
success_run = refl

release-succeed_example :
    (done_item.state ≡ QueueState.succeeded)
    × (state_after (release after_success done_item "w1" none) ≡ some QueueState.pending)
release-succeed_example =
    release-succeed (store_of held_item) held_item "w1" 70 none none success_run

abbrev claimed_again : QueueRow
claimed_again = claimed_row 70 "w1" 60 held_item

abbrev after_reclaim : QueueStore
after_reclaim = commit_change (store_of held_item) held_item claimed_again "claimed" "w1" none

reclaim_run :
    claim_seen (store_of held_item) 70 "w1" 60 "claimed" held_item
    ≡ (after_reclaim, some claimed_again)
unfolding claim_seen
reclaim_run = refl

claim_seen-twice_example :
    (claim_seen after_reclaim 71 "w2" 60 "claimed" held_item).1
    ≡ some (claimed_row 71 "w2" 60 claimed_again)
claim_seen-twice_example =
    claim_seen-twice (store_of held_item) held_item 70 71 "w1" "w2" 60 60 "claimed" "claimed" refl
      refl reclaim_run

abbrev new_candidate : CandidateOpportunityRow
new_candidate = record {
  id = "c1";
  tenant_id = "t";
  opportunity_id = "o1";
  state = OpportunityState.eligible;
  eligibility_status = none;
  fit_score = none;
  fit_band = none;
  priority_score = none;
  skipped_reason = none;
  state_changed_at = none;
}

abbrev empty_queue : QueueStore
empty_queue = record { tenant_id = "t"; rows = []; candidates = []; audit = [] }

abbrev first_item : QueueRow
first_item = new_item empty_queue "q1" 0 new_candidate QueueAction.prepare Lane.review none none 3

abbrev after_enqueue : QueueStore
after_enqueue =
    record_event (record empty_queue { rows = first_item ∷ [] }) first_item "enqueued" "u" none none

enqueue_run :
    enqueue empty_queue "q1" 0 new_candidate QueueAction.prepare "u" Lane.review none none 3
    ≡ Result.ok (after_enqueue, first_item, true)
unfolding enqueue find_item
enqueue_run = refl

empty_queue-HasOneRowPerKey : HasOneRowPerKey empty_queue
unfolding key_count
empty_queue-HasOneRowPerKey = record { at_key = λ key. ground arith }

enqueue-HasOneRowPerKey_example : HasOneRowPerKey after_enqueue
enqueue-HasOneRowPerKey_example =
    enqueue-HasOneRowPerKey empty_queue "q1" 0 new_candidate QueueAction.prepare "u" Lane.review
      none none 3 enqueue_run empty_queue-HasOneRowPerKey

enqueue-again_example :
    enqueue after_enqueue "q2" 9 new_candidate QueueAction.prepare "v" Lane.review (some 5) none 1
    ≡ Result.ok (after_enqueue, first_item, false)
enqueue-again_example =
    enqueue-again empty_queue "q1" 0 new_candidate QueueAction.prepare "u" Lane.review none none 3
      enqueue_run "q2" 9 "v" Lane.review (some 5) none 1
