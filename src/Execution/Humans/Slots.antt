-- ===== src/Execution/Humans/Slots.antt =====
-- app/execution/service.py: `cancel` and the ledger of the caps.
use Prim.Native.String
use range_apply.Application.Models.{ApplicationStatus, attempt_place, in_submitted}
use range_apply.Application.Rows.{ApplicationRow, save_attempt}
use range_apply.Common.{
  Bool, Bool-cases, Option, String, ap, arith, find_first, if◌then◌else◌, inl, inr, none, or_else,
  refl, some, str_eq, sym, ℕ, ◌+◌, ◌==◌, ◌∙◌, ◌≡◌,
}
use range_apply.Core.Errors.{Result, ServiceError, bind-ok}
use range_apply.Core.Texts.{is_text, text_or}
use range_apply.Execution.Humans.{
  cancel_attempt, close_item, dropped_attempt, is_open_prepare, is_open_submit,
}
use range_apply.Execution.Humans.Refusals.{refuse_if-ok, require_attempt-ok}
use range_apply.Execution.Runs.{ExecutionStore, audit, get_attempt, item_for, require_attempt}
use range_apply.Pipeline.Models.{QueueAction, QueueState}
use range_apply.Pipeline.Queue.{find_item}
use range_apply.Pipeline.Rows.{QueueRow}
use range_apply.Scheduler.Attempts.{
  AttemptStore, commit_attempt, holds_slot, log_event, release_attempt,
}
use range_apply.Scheduler.Attempts.Held.{
  IsConserved, IsStored, find_first-save_row, holds_in, one_if, resettled,
}
use range_apply.Scheduler.Attempts.Released.{HasPeriods, release_attempt-IsConserved}
use range_apply.Scheduler.Caps.{PeriodKind, usage}

-- The key of a submission is not read by the count of the slots.
same_slots :
    (s : AttemptStore) (row : ApplicationRow) (k : PeriodKind) (j : String)
    → usage s.ledger k j + one_if (holds_in s.tenant_id k j row)
      ≡ usage s.ledger k j
        + one_if (holds_in s.tenant_id k j (record row { submission_key = none }))
same_slots s row PeriodKind.day j = refl
same_slots s row PeriodKind.week j = refl

module _ (s : ExecutionStore) (attempt : ApplicationRow) (text : String) (now : ℕ)
    (c : IsConserved s.attempts) (keyed : HasPeriods attempt)
    (mine : attempt.tenant_id ≡ some s.attempts.tenant_id)
    (stored : IsStored s.attempts attempt) where
  abbrev released : AttemptStore × ApplicationRow
  released = release_attempt s.attempts attempt ApplicationStatus.cancelled text now

  released-IsStored : IsStored released.0 released.1
  unfolding release_attempt commit_attempt log_event
  released-IsStored =
      let kept : (row : ApplicationRow)
          → row.id ≡ attempt.id
          → find_first (λ r. str_eq r.id row.id) (save_attempt row s.attempts.rows) ≡ some row =
        λ row e. find_first-save_row attempt row s.attempts.rows e stored in
      elim (Bool-cases (holds_slot attempt)) [
        | inl h ↦ rw h (kept _ refl)
        | inr h ↦
            rw h
              (elim (Bool-cases
                (attempt_place attempt.status == attempt_place ApplicationStatus.cancelled)) [
                  | inl same ↦ rw same stored
                  | inr other ↦ rw other (kept _ refl)
                ])
      ]

  dropped_attempt-IsConserved : IsConserved (dropped_attempt s attempt text now).0.attempts
  unfolding dropped_attempt
  dropped_attempt-IsConserved =
      let c' =
        release_attempt-IsConserved s.attempts attempt ApplicationStatus.cancelled text now c keyed
          mine stored in
      resettled released.0 released.1 c' released-IsStored released.0.ledger
        (record released.1 { submission_key = none }) refl refl c'.keyed
        (same_slots released.0 released.1)

close_item-attempts :
    (s : ExecutionStore) (item : Option QueueRow) (closes : QueueState → Bool) (actor : String)
    (reason : Option String) (now : ℕ) {s' : ExecutionStore}
    → close_item s item closes actor reason now ≡ Result.ok s'
    → s'.attempts ≡ s.attempts
unfolding close_item
close_item-attempts s item closes actor reason now h = ground (arith, h)

cancel_attempt-dropped :
    (s : ExecutionStore) (id actor : String) (reason : Option String) (now : ℕ)
    {r : ExecutionStore × ApplicationRow}
    → cancel_attempt s id actor reason now ≡ Result.ok r
    → (attempt : ApplicationRow) × ((get_attempt s id ≡ some attempt)
        × (r.0.attempts
            ≡ (dropped_attempt s attempt
                (text_or (or_else reason "") (String.◌++◌ "cancelled by " actor))
                now).0.attempts))
unfolding cancel_attempt audit
cancel_attempt-dropped s id actor reason now {r} h =
    let (attempt, (required, h0)) = bind-ok (require_attempt s id) _ h in
    let text = text_or (or_else reason "") (String.◌++◌ "cancelled by " actor) in
    let dropped = dropped_attempt s attempt text now in
    let h1 = refuse_if-ok (in_submitted attempt.status) ServiceError.conflict _ h0 in
    let (s2, (closed, h3)) =
      bind-ok (close_item dropped.0 (item_for dropped.0 dropped.1) is_open_submit actor reason now)
        _ h1.1 in
    let (s3, (closed3, last)) =
      bind-ok
        (close_item s2
          (if is_text dropped.1.opportunity_id
            then find_item s2.queue (or_else dropped.1.opportunity_id "") QueueAction.prepare
            else none)
          is_open_prepare actor reason now)
        _ h3 in
    let e2 = close_item-attempts dropped.0 _ is_open_submit actor reason now closed in
    let e3 = close_item-attempts s2 _ is_open_prepare actor reason now closed3 in
    let e : r.0.attempts ≡ s3.attempts = ground (arith, last) in
    (attempt, (require_attempt-ok s id required, e ∙ e3 ∙ e2))

-- A cancellation that does not raise keeps the ledger equal to the attempts that hold slots, if the
-- cancelled attempt is the stored row of its key and its two periods are named.
pub cancel_attempt-IsConserved :
    (s : ExecutionStore) (id actor : String) (reason : Option String) (now : ℕ)
    {r : ExecutionStore × ApplicationRow} (attempt : ApplicationRow)
    → get_attempt s id ≡ some attempt
    → IsConserved s.attempts
    → HasPeriods attempt
    → attempt.tenant_id ≡ some s.attempts.tenant_id
    → IsStored s.attempts attempt
    → cancel_attempt s id actor reason now ≡ Result.ok r
    → IsConserved r.0.attempts
cancel_attempt-IsConserved s id actor reason now attempt found c keyed mine stored h =
    let (attempt', (found', e)) = cancel_attempt-dropped s id actor reason now h in
    let text = text_or (or_else reason "") (String.◌++◌ "cancelled by " actor) in
    let same : attempt' ≡ attempt = ap (λ o. or_else o attempt) (sym found' ∙ found) in
    rw (e, same) (dropped_attempt-IsConserved s attempt text now c keyed mine stored)
