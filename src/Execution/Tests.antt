-- ===== src/Execution/Tests.antt =====
-- app/execution: concrete rows for the tests of the modules below.
mod Mode
mod Clicks
mod Starts
mod Ledger
mod Reports
use range_apply.Application.Models.{ApplicationStatus}
use range_apply.Application.Rows.{ApplicationRow}
use range_apply.Common.{String, [], false, none, some, true, ◌∷◌}
use range_apply.Core.Errors.{Result}
use range_apply.Core.Texts.{take_chars}
use range_apply.Execution.Models.{ExecutionStatus, VerificationStatus}
use range_apply.Execution.Runs.{ExecutionRunRow, ExecutionStore, Surroundings}
use range_apply.Execution.Start.{Offer}
use range_apply.Execution.SubmissionMode.{ModeState}
use range_apply.Pipeline.Models.{
  DuplicatePolicy, EligibilityDecision, FitBand, Lane, OpportunityState, OpportunityStatus,
  QueueAction, QueueState,
}
use range_apply.Pipeline.Policy.{ApplicationPolicy}
use range_apply.Pipeline.Rows.{CandidateOpportunityRow, OpportunityRow, QueueRow}
use range_apply.Scheduler.Attempts.{AttemptStore, Names}
use range_apply.Scheduler.Caps.{CapLedger, PeriodKeys, reserve_slots}
use range_apply.Scheduler.Decisions.{PreparationRow, PreparationStatus}

abbrev pub live_state : ModeState
live_state = record { mode = "LIVE"; changed_at = some 9; changed_by = some (take_chars 64 "me") }

abbrev pub plain : Names
plain = record { company_key = λ c. c; title_key = λ c. c }

abbrev pub lower_case : String → String
lower_case t = t

abbrev pub monday : PeriodKeys
monday = record { day_key = "2026-09-14"; week_key = "2026-W38" }

abbrev pub tuesday : PeriodKeys
tuesday = record { day_key = "2026-09-15"; week_key = "2026-W38" }

abbrev pub two_a_day : ApplicationPolicy
two_a_day = record {
  tenant_id = "t";
  enabled_bands = FitBand.high ∷ [];
  band_thresholds = [];
  daily_cap = 2;
  weekly_cap = 1;
  tailoring_by_band = [];
  lane_by_band = [];
  cover_letter_by_band = [];
  cooldown_days = 30;
  blocked_companies = [];
  minimum_eligibility = EligibilityDecision.likely;
  duplicate_policy = DuplicatePolicy.block;
  minimum_fit_score = none;
  timezone = "UTC";
  version = 1;
}

abbrev pub ready_attempt : ApplicationRow
ready_attempt = record {
  id = "a1";
  job_id = "j1";
  tenant_id = some "t";
  opportunity_id = some "o1";
  preparation_id = some "p1";
  candidate_opportunity_id = some "c1";
  attempt_number = 1;
  lane = some Lane.auto;
  tailoring_level = none;
  cap_day = some "2026-09-14";
  cap_week = some "2026-W38";
  reserved_at = some 3;
  released_at = none;
  status = ApplicationStatus.ready;
  status_reason = none;
  blocked_reason = none;
  submission_key = none;
  execution_count = 0;
  last_execution_id = none;
  verified_at = none;
  external_application_id = none;
  result_url = none;
  adapter = none;
  dry_run = false;
  tailored_artifact_ids = [];
  confirmation = none;
  submitted_at = none;
  updated_at = none;
}

abbrev pub ready_candidate : CandidateOpportunityRow
ready_candidate = record {
  id = "c1";
  tenant_id = "t";
  opportunity_id = "o1";
  state = OpportunityState.eligible;
  eligibility_status = some EligibilityDecision.eligible;
  fit_score = some 80;
  fit_band = some FitBand.high;
  priority_score = none;
  skipped_reason = none;
  state_changed_at = none;
}

abbrev pub open_opening : OpportunityRow
open_opening = record {
  id = "o1";
  canonical_job_id = some "j1";
  company = "Acme";
  company_key = some "Acme";
  title = "Engineer";
  status = OpportunityStatus.opened;
  deadline = none;
  first_seen_at = none;
  reposted_at = none;
}

abbrev pub ready_preparation : PreparationRow
ready_preparation = record {
  id = "p1";
  tenant_id = "t";
  opportunity_id = "o1";
  status = PreparationStatus.ready;
  validation_passed = true;
  unanswered = 0;
}

abbrev pub held_item : QueueRow
held_item = record {
  id = "q1";
  tenant_id = "t";
  candidate_opportunity_id = "c1";
  opportunity_id = "o1";
  action = QueueAction.submit;
  state = QueueState.processing;
  lane = Lane.auto;
  priority = 0;
  idempotency_key = "t:o1:SUBMIT";
  available_at = 0;
  attempts = 1;
  max_attempts = 3;
  claimed_by = some "w";
  claimed_at = some 5;
  lease_expires_at = some 100;
  last_error = none;
  result = none;
  completed_at = none;
  created_at = 0;
}

abbrev pub one_slot : CapLedger
one_slot = (reserve_slots (record { tenant_id = "t"; entries = [] }) monday 2 1).0

abbrev pub one_ready : AttemptStore
one_ready = record { tenant_id = "t"; rows = ready_attempt ∷ []; events = []; ledger = one_slot }

abbrev pub first_run : ExecutionRunRow
first_run = record {
  id = "r1";
  tenant_id = "t";
  application_id = "a1";
  preparation_id = some "p1";
  candidate_opportunity_id = some "c1";
  opportunity_id = some "o1";
  queue_item_id = some "q1";
  executor_kind = "MOCK";
  worker_id = some "w";
  idempotency_key = "t:a1:1:1";
  run_number = 1;
  status = ExecutionStatus.running;
  outcome = none;
  submit_invoked = false;
  finished_at = none;
  application_url = none;
  external_application_id = none;
  confirmation_reference = none;
  verification_status = VerificationStatus.not_attempted;
  verification_method = none;
  verification_detail = none;
  error_class = none;
  error_message = none;
  handoff_reason = none;
  preconditions = [];
}

abbrev pub pressed_attempt : ApplicationRow
pressed_attempt = record ready_attempt {
  status = ApplicationStatus.submitting;
  submission_key = some "t:a1:1:1";
}

abbrev pub tables : ExecutionStore
tables = record {
  tenant_id = "t";
  actor = "execution";
  attempts = one_ready;
  queue = record {
    tenant_id = "t";
    rows = held_item ∷ [];
    candidates = ready_candidate ∷ [];
    audit = [];
  };
  runs = [];
  preparations = ready_preparation ∷ [];
  events = [];
}

abbrev pub pressing : ExecutionStore
pressing = record tables {
  attempts = record one_ready { rows = pressed_attempt ∷ [] };
  runs = first_run ∷ [];
}

abbrev pub live_today : Surroundings
live_today = record {
  now = 20;
  keys = monday;
  policy = two_a_day;
  opportunities = open_opening ∷ [];
  stale_inputs = [];
  sources = [];
  switches = [];
  modes = ("t", live_state) ∷ [];
}

abbrev pub mock_offer : Offer
mock_offer = record {
  executor_kind = "MOCK";
  is_registered = true;
  document_problems = [];
  can_handle = true;
  failure_text = "";
  document_text = "";
  run_id = "r1";
  run_key = "k";
  day_end = 90;
  week_end = 600;
  raced = λ row. row;
}

-- The value of a call, or a default where it raises
abbrev pub value_or {ℓ} : {A : Type ℓ} → Result A → A → A
value_or (Result.ok a) d = a
value_or (Result.raise e) d = d
