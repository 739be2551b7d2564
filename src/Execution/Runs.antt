-- ===== src/Execution/Runs.antt =====
-- app/execution/database/models.py: `ExecutionRunRow`; app/execution/service.py: the state that
-- `ExecutionService` works on and the lookups that its operations share.
use range_apply.Application.KillSwitch.{KillSwitchRow}
use range_apply.Application.Models.{ApplicationStatus}
use range_apply.Application.Rows.{ApplicationRow, save_attempt}
use range_apply.Common.{
  Bool, List, Option, String, [], dict_get, find_first, first_some, if◌then◌else◌, keep, ltb, none,
  some, str_eq, ℕ, ◌&&◌, ◌++◌, ◌==◌, ◌∷◌,
}
use range_apply.Core.Errors.{Result, ServiceError}
use range_apply.Core.Texts.{clip, is_text, opt_eq}
use range_apply.Execution.Models.{
  ErrorClass, ExecutionOutcome, ExecutionStatus, PreconditionCode, VerificationStatus, run_place,
}
use range_apply.Execution.Preconditions.{Situation}
use range_apply.Execution.SubmissionMode.{ModeState}
use range_apply.Pipeline.Models.{QueueAction}
use range_apply.Pipeline.Policy.{ApplicationPolicy}
use range_apply.Pipeline.Queue.{QueueStore, find_item}
use range_apply.Pipeline.Rows.{OpportunityRow, QueueRow}
use range_apply.Scheduler.Attempts.{AttemptStore}
use range_apply.Scheduler.Caps.{PeriodKeys}
use range_apply.Scheduler.Decisions.{PreparationRow, PreparationStatus}

-- `ExecutionRunRow`; the columns of the form, the documents and the diagnostics are left out.
pub record ExecutionRunRow : Type 0 where
  pub id : String
  pub tenant_id : String
  pub application_id : String
  pub preparation_id : Option String
  pub candidate_opportunity_id : Option String
  pub opportunity_id : Option String
  pub queue_item_id : Option String
  pub executor_kind : String
  pub worker_id : Option String
  pub idempotency_key : String
  pub run_number : ℕ
  pub status : ExecutionStatus
  pub outcome : Option ExecutionOutcome
  pub submit_invoked : Bool
  pub finished_at : Option ℕ
  pub application_url : Option String
  pub external_application_id : Option String
  pub confirmation_reference : Option String
  pub verification_status : VerificationStatus
  pub verification_method : Option String
  pub verification_detail : Option String
  pub error_class : Option ErrorClass
  pub error_message : Option String
  pub handoff_reason : Option String
  pub preconditions : List PreconditionCode

-- `AuditEventRow` of an attempt: the action and the status after it
pub record ExecutionEvent : Type 0 where
  pub application_id : String
  pub action : String
  pub status : ApplicationStatus

-- The tables behind `ExecutionService`, its tenant and its actor.
pub record ExecutionStore : Type 0 where
  pub tenant_id : String
  pub actor : String
  pub attempts : AttemptStore
  pub queue : QueueStore
  pub runs : List ExecutionRunRow
  pub preparations : List PreparationRow
  pub events : List ExecutionEvent

-- What an operation reads and does not write; `now` is the clock, `stale_inputs` what
-- `PreparationService.stale_inputs` finds, and `sources` the job table's sources.
pub record Surroundings : Type 0 where
  pub now : ℕ
  pub keys : PeriodKeys
  pub policy : ApplicationPolicy
  pub opportunities : List OpportunityRow
  pub stale_inputs : List String
  pub sources : List (String × String)
  pub switches : List KillSwitchRow
  pub modes : List (String × ModeState)

-- `UPDATE execution_runs … WHERE id = …`
unfoldable pub save_run : ExecutionRunRow → List ExecutionRunRow → List ExecutionRunRow
save_run run [] = []
save_run run (r ∷ rs) = (if str_eq r.id run.id then run else r) ∷ save_run run rs

abbrev pub put_run : ExecutionStore → ExecutionRunRow → ExecutionStore
put_run s run = record s { runs = save_run run s.runs }

-- The flush of a changed attempt
abbrev pub put_attempt : ExecutionStore → ApplicationRow → ExecutionStore
put_attempt s row = record s {
  attempts = record s.attempts { rows = save_attempt row s.attempts.rows };
}

-- `_audit`
unfoldable pub audit : ExecutionStore → ApplicationRow → String → ExecutionStore
audit s row action = record s {
  events =
      s.events ++ record { application_id = row.id; action = action; status = row.status } ∷ [];
}

-- `get_attempt`
unfoldable pub get_attempt : ExecutionStore → String → Option ApplicationRow
get_attempt s application_id =
    find_first (λ r. opt_eq r.tenant_id (some s.tenant_id) && str_eq r.id application_id)
      s.attempts.rows

-- `require_attempt`
unfoldable pub require_attempt : ExecutionStore → String → Result ApplicationRow
require_attempt s application_id = elim (get_attempt s application_id) [
  | none ↦ Result.raise ServiceError.not_found
  | some row ↦ Result.ok row
]

-- The rows of the tenant's attempts at an opening
abbrev pub is_attempt_at : String → String → ApplicationRow → Bool
is_attempt_at tenant_id opportunity_id r =
    opt_eq r.tenant_id (some tenant_id) && opt_eq r.opportunity_id (some opportunity_id)

-- `_attempt_for_item`
unfoldable pub attempt_for_item : ExecutionStore → QueueRow → Result (Option ApplicationRow)
attempt_for_item s item =
    if str_eq item.tenant_id s.tenant_id
    then Result.ok (find_first (is_attempt_at s.tenant_id item.opportunity_id) s.attempts.rows)
    else Result.raise ServiceError.not_found

-- `item_for`
unfoldable pub item_for : ExecutionStore → ApplicationRow → Option QueueRow
item_for s attempt = elim attempt.opportunity_id [
  | none ↦ none
  | some o ↦ if str_eq o "" then none else find_item s.queue o QueueAction.submit
]

-- `ORDER BY run_number DESC LIMIT 1`
unfoldable pub newest : List ExecutionRunRow → Option ExecutionRunRow
newest [] = none
newest (r ∷ rs) =
    let best = newest rs in
    elim best [ none ↦ some r | some b ↦ if ltb r.run_number b.run_number then some b else some r ]

abbrev pub is_running_of : ExecutionStore → String → ExecutionRunRow → Bool
is_running_of s application_id r =
    str_eq r.tenant_id s.tenant_id
    && (str_eq r.application_id application_id
        && (run_place r.status == run_place ExecutionStatus.running))

-- `_crashed_run`
unfoldable pub crashed_run : ExecutionStore → ApplicationRow → Option ExecutionRunRow
crashed_run s attempt = newest (keep (is_running_of s attempt.id) s.runs)

-- `_finish_run`
unfoldable pub finish_run :
    ExecutionRunRow
    → ExecutionStatus
    → Option ExecutionOutcome
    → Option ErrorClass
    → Option String
    → ℕ
    → ExecutionRunRow
finish_run run status outcome error_class message now = record run {
  status = status;
  outcome = first_some outcome run.outcome;
  error_class = first_some error_class run.error_class;
  error_message = if is_text message then some (clip 2000 message) else run.error_message;
  finished_at = some now;
}

-- The source of the attempt's job, for the kill switch
unfoldable pub source_of : Surroundings → ApplicationRow → Option String
source_of e attempt = if str_eq attempt.job_id "" then none else dict_get attempt.job_id e.sources

-- The join of the attempts with their openings
unfoldable pub join_openings :
    List OpportunityRow → List ApplicationRow → List (ApplicationRow × OpportunityRow)
join_openings opportunities [] = []
join_openings opportunities (r ∷ rs) =
    let rest = join_openings opportunities rs in
    elim (find_first (λ o. opt_eq r.opportunity_id (some o.id)) opportunities) [
      | none ↦ rest
      | some o ↦ (r, o) ∷ rest
    ]

-- The key is set and is that of the row
abbrev pub names_row : Option String → String → Bool
names_row key id = is_text key && opt_eq key (some id)

-- `_stale_inputs`: only a ready preparation is compared
unfoldable pub stale_of : Option PreparationRow → List String → List String
stale_of none found = []
stale_of (some p) found = elim p.status [ PreparationStatus.ready ↦ found | _ ↦ [] ]

-- `_context` and what else the checker is given
unfoldable pub situation_of : ExecutionStore → Surroundings → ApplicationRow → Situation
situation_of s e attempt =
    let preparation =
      find_first (λ p. str_eq p.tenant_id s.tenant_id && names_row attempt.preparation_id p.id)
        s.preparations in
    record {
      tenant_id = s.tenant_id;
      policy = e.policy;
      keys = e.keys;
      now = e.now;
      rows = join_openings e.opportunities s.attempts.rows;
      preparation = preparation;
      candidate =
          find_first (λ c. names_row attempt.candidate_opportunity_id c.id) s.queue.candidates;
      opportunity = find_first (λ o. names_row attempt.opportunity_id o.id) e.opportunities;
      stale_inputs = stale_of preparation e.stale_inputs;
    }
