-- ===== src/Scheduler/Attempts.antt =====
-- app/scheduler/attempts.py: application attempts as the scheduler sees them. `company_key` and
-- `normalize_title_for_identity` are parameters: they rest on `unicodedata` and `re`.
pub mod Cooldown
pub mod Held
pub mod Conserve
pub mod Released
pub mod History
use Prim.Native.String
use range_apply.Application.Models.{
  ApplicationStatus, attempt_place, in_in_flight, in_submitted, may_transition,
}
use range_apply.Application.Rows.{ApplicationEvent, ApplicationRow, save_attempt}
use range_apply.Common.{
  Bool, List, Option, String, [], any_of, false, if◌then◌else◌, is_some, none, not, or_else, some,
  str_eq, true, ℕ, ◌&&◌, ◌++◌, ◌+◌, ◌==◌, ◌||◌, ◌∷◌,
}
use range_apply.Core.Errors.{Result, ServiceError, ◌>>=◌, ◌>>◌}
use range_apply.Core.Texts.{clip, clip_or_none, is_text, opt_eq}
use range_apply.Pipeline.Models.{AdmissionReason, Lane, OpportunityState, TailoringLevel}
use range_apply.Pipeline.Rows.{CandidateOpportunityRow, OpportunityRow}
use range_apply.Scheduler.Caps.{CapLedger, PeriodKeys, release_slots, reserve_slots}

-- `APPLIED_STATES`
abbrev pub in_applied : OpportunityState → Bool
in_applied OpportunityState.submitted = true
in_applied OpportunityState.verification_pending = true
in_applied OpportunityState.verified = true
in_applied OpportunityState.interviewing = true
in_applied OpportunityState.offer = true
in_applied OpportunityState.rejected = true
in_applied _ = false

-- `holds_slot`
abbrev pub holds_slot : ApplicationRow → Bool
holds_slot row = is_some row.reserved_at && not (is_some row.released_at)

-- `is_submitted`
abbrev pub is_submitted : ApplicationRow → Bool
is_submitted row =
    in_submitted row.status
    || (attempt_place row.status == attempt_place ApplicationStatus.rejected)

-- `is_in_flight`
abbrev pub is_in_flight : ApplicationRow → Bool
is_in_flight row = in_in_flight row.status

-- The two normalisations of names.
pub record Names : Type 0 where
  pub company_key : String → String
  pub title_key : String → String

-- `duplicate_key`
unfoldable pub duplicate_key : Names → String → String → String
duplicate_key names company title =
    String.◌++◌ (names.company_key company) (String.◌++◌ "|" (names.title_key title))

-- `AttemptRepository`: the tenant, the table, its events and the ledger. Another tenant's rows, and
-- the legacy rows of none, stand in the same table.
pub record AttemptStore : Type 0 where
  pub tenant_id : String
  pub rows : List ApplicationRow
  pub events : List ApplicationEvent
  pub ledger : CapLedger

-- `_event`
unfoldable pub log_event :
    AttemptStore
    → ApplicationRow
    → String
    → Option ApplicationStatus
    → Option ApplicationStatus
    → AttemptStore
log_event s row event_type from_status to_status = record s {
  events =
      s.events
      ++ record {
        application_id = row.id;
        event_type = event_type;
        from_status = from_status;
        to_status = to_status;
      }
        ∷ [];
}

-- The write of a changed row, and its event.
unfoldable pub commit_attempt :
    AttemptStore → ApplicationRow → ApplicationRow → String → AttemptStore
unfolding save_attempt log_event
commit_attempt s row row' event_type =
    log_event (record s { rows = save_attempt row' s.rows }) row' event_type (some row.status)
      (some row'.status)

-- `uq_applications_tenant_opportunity` and the unique `job_id`: another row has the same identity.
abbrev pub clashes : ApplicationRow → ApplicationRow → Bool
clashes row r =
    not (str_eq r.id row.id)
    && (str_eq r.job_id row.job_id
        || (is_some row.tenant_id
            && (is_some row.opportunity_id
                && (opt_eq r.tenant_id row.tenant_id
                    && opt_eq r.opportunity_id row.opportunity_id))))

-- What `reserve` writes into the row, new or existing
unfoldable pub scheduled_row :
    ApplicationRow → PeriodKeys → Lane → TailoringLevel → ℕ → ApplicationRow
scheduled_row row keys lane level now = record row {
  lane = some lane;
  tailoring_level = some level;
  cap_day = some keys.day_key;
  cap_week = some keys.week_key;
  reserved_at = some now;
  released_at = none;
}

unfoldable pub fresh_attempt :
    String → String → CandidateOpportunityRow → OpportunityRow → ApplicationRow
fresh_attempt id tenant_id co opportunity = record {
  id = id;
  job_id = or_else opportunity.canonical_job_id "";
  tenant_id = some tenant_id;
  opportunity_id = some opportunity.id;
  preparation_id = none;
  candidate_opportunity_id = some co.id;
  attempt_number = 1;
  lane = none;
  tailoring_level = none;
  cap_day = none;
  cap_week = none;
  reserved_at = none;
  released_at = none;
  status = ApplicationStatus.qualified;
  status_reason = none;
  blocked_reason = none;
  submission_key = none;
  execution_count = 0;
  last_execution_id = none;
  verified_at = none;
  external_application_id = none;
  result_url = none;
  adapter = none;
  dry_run = true;
  tailored_artifact_ids = [];
  confirmation = none;
  submitted_at = none;
  updated_at = none;
}

unfoldable pub renewed_attempt :
    ApplicationRow → String → CandidateOpportunityRow → OpportunityRow → ApplicationRow
renewed_attempt row tenant_id co opportunity = record row {
  tenant_id = some tenant_id;
  opportunity_id = some opportunity.id;
  candidate_opportunity_id = some co.id;
  attempt_number = row.attempt_number + 1;
  status = ApplicationStatus.qualified;
  preparation_id = none;
  confirmation = none;
}

-- The `INSERT` or `UPDATE` of the scheduled row with its event; a clash is an `IntegrityError`,
-- which undoes the savepoint with the ledger's change.
unfoldable pub write_scheduled :
    AttemptStore → Option ApplicationRow → ApplicationRow → Result AttemptStore
unfolding commit_attempt
write_scheduled s none row =
    if any_of (clashes row) s.rows
    then Result.raise ServiceError.conflict
    else Result.ok
        (log_event (record s { rows = s.rows ++ row ∷ [] }) row "scheduled" none (some row.status))
write_scheduled s (some existing) row =
    if any_of (clashes row) s.rows
    then Result.raise ServiceError.conflict
    else Result.ok (commit_attempt s existing row "scheduled")

-- The row that `reserve` writes: a new attempt, or the next try of an existing one
unfoldable pub next_attempt :
    AttemptStore
    → String
    → ℕ
    → CandidateOpportunityRow
    → OpportunityRow
    → PeriodKeys
    → Lane
    → TailoringLevel
    → Option ApplicationRow
    → ApplicationRow
unfolding fresh_attempt renewed_attempt scheduled_row
next_attempt s id now co opportunity keys lane level none =
    scheduled_row (fresh_attempt id s.tenant_id co opportunity) keys lane level now
next_attempt s id now co opportunity keys lane level (some row) =
    scheduled_row (renewed_attempt row s.tenant_id co opportunity) keys lane level now

-- `reserve`; the key of a new row and the clock are arguments. A new row without a job is refused by
-- the `NOT NULL` of its column, an `IntegrityError` like a clash.
unfoldable pub reserve :
    AttemptStore
    → String
    → ℕ
    → CandidateOpportunityRow
    → OpportunityRow
    → PeriodKeys
    → ℕ
    → ℕ
    → Lane
    → TailoringLevel
    → Option ApplicationRow
    → Result (AttemptStore × Option ApplicationRow × Option AdmissionReason)
unfolding write_scheduled next_attempt
reserve s id now co opportunity keys daily_cap weekly_cap lane level existing =
    let (ledger', reason) = reserve_slots s.ledger keys daily_cap weekly_cap in
    let row = next_attempt s id now co opportunity keys lane level existing in
    let written : Result (AttemptStore × Option ApplicationRow × Option AdmissionReason) = do
      s' ← write_scheduled (record s { ledger = ledger' }) existing row
      Result.ok (s', some row, none)
    in if is_some reason
      then Result.ok (record s { ledger = ledger' }, none, reason)
      else if not (is_some existing) && not (is_some opportunity.canonical_job_id)
      then Result.raise ServiceError.conflict
      else written

-- `mark_ready`
unfoldable pub mark_ready :
    AttemptStore → ApplicationRow → String → AttemptStore × ApplicationRow × Bool
unfolding commit_attempt
mark_ready s row preparation_id =
    let row' : ApplicationRow = record row {
      status = ApplicationStatus.ready;
      preparation_id = some preparation_id;
    } in
    if (attempt_place row.status == attempt_place ApplicationStatus.ready)
      && opt_eq row.preparation_id (some preparation_id)
    then (s, row, false)
    else (commit_attempt s row row' "prepared", row', true)

-- `mark_preparing`
unfoldable pub mark_preparing :
    AttemptStore → ApplicationRow → Option String → AttemptStore × ApplicationRow × Bool
unfolding commit_attempt
mark_preparing s row preparation_id =
    let row' : ApplicationRow = record row {
      status = ApplicationStatus.preparing;
      preparation_id = if is_text preparation_id then preparation_id else row.preparation_id;
    } in
    if (attempt_place row.status == attempt_place ApplicationStatus.preparing)
      && opt_eq row.preparation_id preparation_id
    then (s, row, false)
    else (commit_attempt s row row' "preparing", row', true)

abbrev pub moved_attempt : ApplicationRow → ApplicationStatus → Option String → ApplicationRow
moved_attempt row new_status reason = record row {
  status = new_status;
  status_reason = clip_or_none 256 reason;
}

-- `transition`; the event's name has the status in it, `attempt:…`
unfoldable pub transition :
    AttemptStore
    → ApplicationRow
    → ApplicationStatus
    → Option String
    → Bool
    → Result (AttemptStore × ApplicationRow × Bool)
unfolding commit_attempt
transition s row new_status reason force =
    let row' = moved_attempt row new_status reason in
    if attempt_place row.status == attempt_place new_status
    then Result.ok (s, row, false)
    else if not force && not (may_transition row.status new_status)
    then Result.raise ServiceError.conflict
    else Result.ok (commit_attempt s row row' "attempt", row', true)

-- `release`
unfoldable pub release_attempt :
    AttemptStore → ApplicationRow → ApplicationStatus → String → ℕ → AttemptStore × ApplicationRow
unfolding commit_attempt
release_attempt s row status reason now =
    let ended : ApplicationRow = record row {
      status = status;
      status_reason = some (clip 256 (some reason));
    } in
    let freed : ApplicationRow = record ended { released_at = some now } in
    if holds_slot row
    then (
      commit_attempt (record s { ledger = release_slots s.ledger row.cap_day row.cap_week }) row
          freed "released",
      freed,
    )
    else if attempt_place row.status == attempt_place status
    then (s, row)
    else (commit_attempt s row ended "released", ended)
