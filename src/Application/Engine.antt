-- ===== src/Application/Engine.antt =====
-- app/application/engine.py: `ApplicationEngine`. The adapter's run is an argument, with the clock and
-- the key of a new row. A clash of the unique indexes is not modelled.
pub mod Boundary
use range_apply.Application.KillSwitch.{KillSwitchRow, is_paused}
use range_apply.Application.Models.{ApplicationStatus, in_submitted}
use range_apply.Application.Rows.{ApplicationEvent, ApplicationRow, save_attempt}
use range_apply.Common.{
  Bool, List, Option, String, [], dict_get, false, find_first, first_some, if◌then◌else◌, is_some,
  length, none, not, or_else, some, str_eq, true, ℕ, ◌&&◌, ◌++◌, ◌==◌, ◌∷◌,
}
use range_apply.Core.Errors.{Result, ServiceError}
use range_apply.Core.Texts.{is_text, opt_eq}

-- The tables that the engine reads and writes.
pub record EngineStore : Type 0 where
  pub rows : List ApplicationRow
  pub events : List ApplicationEvent
  pub switches : List KillSwitchRow
  pub job_links : List (String × String)
  pub job_sources : List (String × String)
  pub approved_artifacts : List (String × List String)

-- `if new and not old: old = new`
abbrev pub fill : Option String → Option String → Option String
fill new old = if is_text new && not (is_text old) then new else old

-- `resolve_opportunity_for_job`
abbrev pub resolve_opportunity_for_job : EngineStore → String → Option String
resolve_opportunity_for_job db job_id = dict_get job_id db.job_links

-- `ApplicationRow(job_id=…, status=DISCOVERED)` with its defaults
abbrev pub discovered_row : String → String → ℕ → ApplicationRow
discovered_row id job_id now = record {
  id = id;
  job_id = job_id;
  tenant_id = none;
  opportunity_id = none;
  preparation_id = none;
  candidate_opportunity_id = none;
  attempt_number = 1;
  lane = none;
  tailoring_level = none;
  cap_day = none;
  cap_week = none;
  reserved_at = none;
  released_at = none;
  status = ApplicationStatus.discovered;
  status_reason = none;
  blocked_reason = none;
  submission_key = none;
  execution_count = 0;
  last_execution_id = none;
  verified_at = none;
  external_application_id = none;
  result_url = none;
  adapter = none;
  dry_run = true;
  tailored_artifact_ids = [];
  confirmation = none;
  submitted_at = none;
  updated_at = some now;
}

-- The two lookups of `get_or_create`, in their order
unfoldable pub find_attempt :
    EngineStore → String → Option String → Option String → Option ApplicationRow
find_attempt db job_id tenant_id opportunity_id =
    let by_opening =
      find_first (λ r. opt_eq r.tenant_id tenant_id && opt_eq r.opportunity_id opportunity_id)
        db.rows in
    let by_job = find_first (λ r. str_eq r.job_id job_id) db.rows in
    if is_text tenant_id && is_text opportunity_id then first_some by_opening by_job else by_job

-- `get_or_create`
unfoldable pub get_or_create :
    EngineStore
    → String
    → ℕ
    → String
    → Option String
    → Option String
    → Option String
    → Option String
    → EngineStore × ApplicationRow
unfolding find_attempt save_attempt
get_or_create db id now job_id tenant_id opportunity_id preparation_id candidate_opportunity_id =
    let opening = first_some opportunity_id (resolve_opportunity_for_job db job_id) in
    let found = find_attempt db job_id tenant_id opening in
    let old = or_else found (discovered_row id job_id now) in
    let row : ApplicationRow = record old {
      tenant_id = fill tenant_id old.tenant_id;
      opportunity_id = fill opening old.opportunity_id;
      candidate_opportunity_id = fill candidate_opportunity_id old.candidate_opportunity_id;
      preparation_id = if is_text preparation_id then preparation_id else old.preparation_id;
    } in
    (
      record db { rows = if is_some found then save_attempt row db.rows else db.rows ++ row ∷ [] },
      row,
    )

-- `_log_event`
abbrev pub log_engine_event :
    EngineStore → ApplicationRow → String → ApplicationStatus → ApplicationStatus → EngineStore
log_engine_event db row event_type from_status to_status = record db {
  events =
      db.events
      ++ record {
        application_id = row.id;
        event_type = event_type;
        from_status = some from_status;
        to_status = some to_status;
      }
        ∷ [];
}

-- The write of a row at the next `commit`.
abbrev pub write_row : EngineStore → ApplicationRow → EngineStore
write_row db row = record db { rows = save_attempt row db.rows }

-- `prepare`; without approved artifacts it raises after the row has been made or found
unfoldable pub prepare :
    EngineStore
    → String
    → ℕ
    → String
    → Option String
    → Option String
    → Option String
    → EngineStore × Result ApplicationRow
unfolding get_or_create save_attempt
prepare db id now job_id tenant_id opportunity_id preparation_id =
    let (db1, row) = get_or_create db id now job_id tenant_id opportunity_id preparation_id none in
    let artifacts : List String =
      if is_some preparation_id then [] else or_else (dict_get job_id db1.approved_artifacts) [] in
    let ready : ApplicationRow = record row {
      tailored_artifact_ids = artifacts;
      status = ApplicationStatus.ready;
    } in
    let db2 = log_engine_event db1 ready "prepare_started" row.status ApplicationStatus.preparing in
    let db3 =
      log_engine_event db2 ready "prepared" ApplicationStatus.preparing ApplicationStatus.ready in
    if not (is_some preparation_id) && (length artifacts == 0)
    then (db1, Result.raise ServiceError.value_error)
    else (write_row db3 ready, Result.ok ready)

-- What became of the adapter's `prepare` and `submit`: an exception, or `SubmitResult`.
pub data AdapterRun : Type 0 where
  raised : AdapterRun
  finished : (success : Bool) → (confirmation : Option String) → AdapterRun

-- What `submit` writes into the row after the adapter's run
abbrev pub settled_row : ApplicationRow → ℕ → AdapterRun → ApplicationRow
settled_row row now AdapterRun.raised = record row { status = ApplicationStatus.failed }
settled_row row now (AdapterRun.finished true confirmation) = record row {
  status = ApplicationStatus.submitted;
  confirmation = confirmation;
  submitted_at = some now;
}
settled_row row now (AdapterRun.finished false confirmation) = record row {
  status = ApplicationStatus.failed;
  confirmation = none;
}

abbrev pub settled_event : AdapterRun → String
settled_event AdapterRun.raised = "submit_failed"
settled_event (AdapterRun.finished success confirmation) = "submit_result"

-- The part of `submit` with an adapter, by its name and its run
unfoldable pub run_adapter :
    EngineStore
    → ApplicationRow
    → ℕ
    → Bool
    → String
    → AdapterRun
    → EngineStore × Result ApplicationRow
run_adapter db row now dry_run name run =
    let db1 = log_engine_event db row "approved" row.status ApplicationStatus.awaiting_approval in
    let db2 =
      log_engine_event db1 row "submitting" ApplicationStatus.awaiting_approval
        ApplicationStatus.submitting in
    let submitting : ApplicationRow = record row {
      status = ApplicationStatus.submitting;
      dry_run = dry_run;
      adapter = some name;
    } in
    let ended = settled_row submitting now run in
    let db3 =
      log_engine_event db2 ended (settled_event run) ApplicationStatus.submitting ended.status in
    (write_row db3 ended, Result.ok ended)

-- `submit`: the tables, which a refusal writes too, and the row or the error
unfoldable pub submit :
    EngineStore
    → String
    → ℕ
    → String
    → Bool
    → Bool
    → Option (String × AdapterRun)
    → Option String
    → Option String
    → EngineStore × Result ApplicationRow
submit db id now job_id approved dry_run adapter tenant_id opportunity_id =
    let (db1, row) = get_or_create db id now job_id tenant_id opportunity_id none none in
    let dry : ApplicationRow = record row { dry_run = true } in
    let recorded : EngineStore × Result ApplicationRow = (
      write_row (log_engine_event db1 row "legacy_dry_run" row.status row.status) dry,
      Result.ok dry,
    ) in
    let run : EngineStore × Result ApplicationRow = elim adapter [
      | none ↦ recorded
      | some (name, outcome) ↦ run_adapter db1 row now dry_run name outcome
    ] in
    if is_paused db1.switches (dict_get job_id db1.job_sources)
    then (
      log_engine_event db1 row "blocked_by_killswitch" row.status row.status,
      Result.raise ServiceError.runtime_error,
    )
    else if in_submitted row.status
    then (db1, Result.ok row)
    else if not approved
    then (db1, Result.raise ServiceError.value_error)
    else if not dry_run
    then (
      log_engine_event db1 row "legacy_submit_refused" row.status row.status,
      Result.raise ServiceError.runtime_error,
    )
    else run
