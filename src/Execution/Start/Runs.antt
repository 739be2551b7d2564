-- ===== src/Execution/Start/Runs.antt =====
-- app/execution/service.py: the attempt at the checks of `start`, and the run that it makes.
use Prim.Native.String
use range_apply.Application.Models.{ApplicationStatus}
use range_apply.Application.Rows.{ApplicationRow, save_attempt}
use range_apply.Common.{
  Bool, List, Option, String, [], arith, false, if◌then◌else◌, none, refl, some, true, ℕ, ◌++◌, ◌+◌,
  ◌∷◌, ◌≡◌,
}
use range_apply.Core.Errors.{Result}
use range_apply.Execution.Models.{ExecutionStatus}
use range_apply.Execution.Preconditions.{Situation, check, check_caps, has_status, refresh_slot}
use range_apply.Execution.Recovery.{force_attempt}
use range_apply.Execution.Runs.{ExecutionRunRow, ExecutionStore, Surroundings, audit}
use range_apply.Execution.Settle.{on_queue}
use range_apply.Execution.Start.{
  Offer, StartOutcome, Started, started_run, submission_key_of, take_attempt, take_row,
}
use range_apply.Execution.Start.Entry.{reclaim_attempt}
use range_apply.Pipeline.Policy.{ApplicationPolicy}
use range_apply.Pipeline.Queue.Outcomes.{release}
use range_apply.Pipeline.Rows.{QueueRow}
use range_apply.Scheduler.Attempts.{Names, commit_attempt, log_event, moved_attempt, transition}
use range_apply.Scheduler.Caps.{CapLedger, PeriodKeys}

-- The row that the guarded update has made of the attempt's, and the run of it
abbrev taken_row : ExecutionStore → ApplicationRow → Offer → ℕ → ApplicationRow
taken_row s attempt o now = record (o.raced attempt) {
  id = attempt.id;
  status = ApplicationStatus.submitting;
  submission_key = some (submission_key_of s attempt (attempt.execution_count + 1));
  execution_count = attempt.execution_count + 1;
  status_reason = some (String.◌++◌ "executing with " o.executor_kind);
  updated_at = some now;
}

abbrev new_run : ExecutionStore → QueueRow → String → ApplicationRow → Offer → ℕ → ExecutionRunRow
new_run s item worker_id attempt o now =
    started_run s item worker_id (taken_row s attempt o now) o
      (submission_key_of s attempt (attempt.execution_count + 1)) (attempt.execution_count + 1)

take_attempt-run :
    (before : ExecutionStore) (claimed : QueueRow) (s : ExecutionStore) (item : QueueRow)
    (worker_id : String) (attempt : ApplicationRow) (o : Offer) (now : ℕ) {r : Started}
    → take_attempt before claimed s item worker_id attempt o now ≡ Result.ok r
    → r.outcome ≡ StartOutcome.started
    → (r.run ≡ some (new_run s item worker_id attempt o now))
      × (r.store.runs ≡ s.runs ++ new_run s item worker_id attempt o now ∷ [])
unfolding take_attempt take_row on_queue release log_event audit
take_attempt-run before claimed s item worker_id attempt o now h started =
    (ground (arith, h, started), ground (arith, h, started))

-- The attempt that an earlier executor has lost before its click, ready again
abbrev pub reopened : ApplicationRow → ApplicationRow
reopened attempt =
    moved_attempt (record attempt { submission_key = none }) ApplicationStatus.ready
      (some "reclaimed after a lost executor")

-- The tables and the attempt at the checks: those of the item, or, where the attempt was lost before
-- its click, those with the attempt ready again.
pub record IsCurrent (begun : ExecutionStore) (attempt : ApplicationRow)
    (current : ExecutionStore × ApplicationRow) : Type 0 where
  pub row :
      current.1 ≡ (if has_status ApplicationStatus.ready attempt then attempt else reopened attempt)
  pub rows : current.0.attempts.rows ≡ (
      if has_status ApplicationStatus.ready attempt
      then begun.attempts.rows
      else save_attempt (reopened attempt) begun.attempts.rows)
  pub ledger : current.0.attempts.ledger ≡ begun.attempts.ledger
  pub queue : current.0.queue ≡ begun.queue
  pub preparations : current.0.preparations ≡ begun.preparations
  pub tenant_id : current.0.tenant_id ≡ begun.tenant_id

-- The run that has started is a new one of the attempt, for the item, before any click.
pub record IsNewRun (runs : List ExecutionRunRow) (item : QueueRow) (worker_id : String)
    (attempt : ApplicationRow) (r : Started) (run : ExecutionRunRow) : Type 0 where
  pub returned : r.run ≡ some run
  pub stored : r.store.runs ≡ runs ++ run ∷ []
  pub of_attempt : run.application_id ≡ attempt.id
  pub for_item : run.queue_item_id ≡ some item.id
  pub by_worker : run.worker_id ≡ some worker_id
  pub running : run.status ≡ ExecutionStatus.running
  pub not_clicked : run.submit_invoked ≡ false

pub take_attempt-IsNewRun :
    (before : ExecutionStore) (claimed : QueueRow) (s : ExecutionStore) (item : QueueRow)
    (worker_id : String) (attempt : ApplicationRow) (o : Offer) (now : ℕ) {r : Started}
    → take_attempt before claimed s item worker_id attempt o now ≡ Result.ok r
    → r.outcome ≡ StartOutcome.started
    → (run : ExecutionRunRow) × IsNewRun s.runs item worker_id attempt r run
unfolding started_run
take_attempt-IsNewRun before claimed s item worker_id attempt o now h started =
    let made = take_attempt-run before claimed s item worker_id attempt o now h started in
    (
      new_run s item worker_id attempt o now,
      record {
        returned = made.0;
        stored = made.1;
        of_attempt = refl;
        for_item = refl;
        by_worker = refl;
        running = refl;
        not_clicked = refl;
      },
    )

pub reclaim_attempt-IsCurrent :
    (names : Names) (lower : String → String) (e : Surroundings) (o : Offer)
    (before : ExecutionStore) (claimed : QueueRow) (worker_id : String) (s : ExecutionStore)
    (attempt : ApplicationRow) (crashed : Option ExecutionRunRow)
    {again : ExecutionStore × ApplicationRow}
    → has_status ApplicationStatus.submitting attempt ≡ true
    → reclaim_attempt names lower e o before claimed worker_id s attempt crashed ≡ Result.ok again
    → IsCurrent s attempt again
unfolding reclaim_attempt force_attempt transition commit_attempt log_event
reclaim_attempt-IsCurrent names lower e o before claimed worker_id s attempt crashed pressed h =
    record {
      row = ground (arith, h, pressed);
      rows = ground (arith, h, pressed);
      ledger = ground (arith, h, pressed);
      queue = ground (arith, h, pressed);
      preparations = ground (arith, h, pressed);
      tenant_id = ground (arith, h, pressed);
    }

pub IsCurrent-unmoved :
    (s : ExecutionStore) (attempt : ApplicationRow)
    → has_status ApplicationStatus.ready attempt ≡ true
    → IsCurrent s attempt (s, attempt)
IsCurrent-unmoved s attempt ready = record {
  row = ground (arith, ready);
  rows = ground (arith, ready);
  ledger = refl;
  queue = refl;
  preparations = refl;
  tenant_id = refl;
}

pub IsCurrent-id :
    (s : ExecutionStore) (attempt : ApplicationRow) {current : ExecutionStore × ApplicationRow}
    → IsCurrent s attempt current
    → current.1.id ≡ attempt.id
IsCurrent-id s attempt c = ground (arith, c.row)

refresh_slot-id :
    (policy : ApplicationPolicy) (l : CapLedger) (attempt : ApplicationRow) (keys : PeriodKeys)
    (now : ℕ)
    → (refresh_slot policy l attempt keys now).1.id ≡ attempt.id
unfolding refresh_slot
refresh_slot-id policy l attempt keys now = ground arith

check_caps-id :
    (policy : ApplicationPolicy) (l : CapLedger) (attempt : ApplicationRow) (keys : PeriodKeys)
    (now : ℕ) (may_reserve : Bool)
    → (check_caps policy l attempt keys now may_reserve).1.id ≡ attempt.id
unfolding check_caps
check_caps-id policy l attempt keys now may_reserve =
    ground (arith, refresh_slot-id policy l attempt keys now)

pub check-id :
    (names : Names) (lower : String → String) (x : Situation) (l : CapLedger)
    (attempt : ApplicationRow) (may_reserve executing : Bool)
    → (check names lower x l attempt may_reserve executing).1.id ≡ attempt.id
unfolding check
check-id names lower x l attempt may_reserve executing =
    ground (arith, check_caps-id x.policy l attempt x.keys x.now may_reserve)
