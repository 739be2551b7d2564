-- ===== src/Application/Rows.antt =====
-- app/application/database/models.py: the attempt row and its events.
use range_apply.Application.Models.{ApplicationStatus}
use range_apply.Common.{Bool, List, Option, String, [], if◌then◌else◌, str_eq, ℕ, ◌∷◌}
use range_apply.Pipeline.Models.{Lane, TailoringLevel}

-- `ApplicationRow`; `created_at` is left out.
pub record ApplicationRow : Type 0 where
  pub id : String
  pub job_id : String
  pub tenant_id : Option String
  pub opportunity_id : Option String
  pub preparation_id : Option String
  pub candidate_opportunity_id : Option String
  pub attempt_number : ℕ
  pub lane : Option Lane
  pub tailoring_level : Option TailoringLevel
  pub cap_day : Option String
  pub cap_week : Option String
  pub reserved_at : Option ℕ
  pub released_at : Option ℕ
  pub status : ApplicationStatus
  pub status_reason : Option String
  pub blocked_reason : Option String
  pub submission_key : Option String
  pub execution_count : ℕ
  pub last_execution_id : Option String
  pub verified_at : Option ℕ
  pub external_application_id : Option String
  pub result_url : Option String
  pub adapter : Option String
  pub dry_run : Bool
  pub tailored_artifact_ids : List String
  pub confirmation : Option String
  pub submitted_at : Option ℕ
  pub updated_at : Option ℕ

-- `ApplicationEventRow`, without its metadata; the order of the list is that of the writes
pub record ApplicationEvent : Type 0 where
  pub application_id : String
  pub event_type : String
  pub from_status : Option ApplicationStatus
  pub to_status : Option ApplicationStatus

-- The write of one row, found by its key.
unfoldable pub save_attempt : ApplicationRow → List ApplicationRow → List ApplicationRow
save_attempt row [] = []
save_attempt row (r ∷ rs) = if str_eq r.id row.id then row ∷ rs else r ∷ save_attempt row rs
