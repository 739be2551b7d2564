-- ===== src/Pipeline/Repository.antt =====
-- app/pipeline/repository.py: the guarded change of a candidate opportunity's state.
pub mod History
use range_apply.Common.{Bool, Option, String, if◌then◌else◌, none, not, some, ℕ, ◌&&◌, ◌==◌}
use range_apply.Core.Errors.{Result, ServiceError}
use range_apply.Core.Texts.{clip_or_none}
use range_apply.Pipeline.Models.{EligibilityDecision, FitBand, OpportunityState, state_place}
use range_apply.Pipeline.Rows.{CandidateOpportunityRow}
use range_apply.Pipeline.States.{may_move}

-- `co_snapshot`, for the columns that are modelled
pub record CandidateSnapshot : Type 0 where
  pub state : OpportunityState
  pub eligibility_status : Option EligibilityDecision
  pub fit_score : Option ℕ
  pub fit_band : Option FitBand
  pub priority_score : Option ℕ
  pub skipped_reason : Option String

abbrev pub co_snapshot : CandidateOpportunityRow → CandidateSnapshot
co_snapshot row = record {
  state = row.state;
  eligibility_status = row.eligibility_status;
  fit_score = row.fit_score;
  fit_band = row.fit_band;
  priority_score = row.priority_score;
  skipped_reason = row.skipped_reason;
}

-- The audit event of a change of state; its action is `state:…` with the new state.
pub record StateEvent : Type 0 where
  pub entity_id : String
  pub to_state : OpportunityState
  pub actor : String
  pub before : CandidateSnapshot
  pub after : CandidateSnapshot
  pub reason : Option String

-- `skipped_reason` after the change
abbrev pub skip_note :
    OpportunityState → OpportunityState → Option String → Option String → Option String
skip_note current new_state reason old =
    if state_place new_state == state_place OpportunityState.skipped
    then clip_or_none 256 reason
    else if state_place current == state_place OpportunityState.skipped
    then none
    else old

-- The row after the change.
abbrev pub moved_row :
    CandidateOpportunityRow → OpportunityState → ℕ → Option String → CandidateOpportunityRow
moved_row row new_state now reason = record row {
  state = new_state;
  state_changed_at = some now;
  skipped_reason = skip_note row.state new_state reason row.skipped_reason;
}

-- The audit event of the change.
abbrev pub state_event :
    CandidateOpportunityRow → OpportunityState → String → ℕ → Option String → StateEvent
state_event row new_state actor now reason = record {
  entity_id = row.id;
  to_state = new_state;
  actor = actor;
  before = co_snapshot row;
  after = co_snapshot (moved_row row new_state now reason);
  reason = reason;
}

-- `OpportunityRepository.transition`: the row, and the event when it changed; the clock is an
-- argument
unfoldable pub transition :
    CandidateOpportunityRow
    → OpportunityState
    → String
    → ℕ
    → Option String
    → Bool
    → Result (CandidateOpportunityRow × Option StateEvent)
transition row new_state actor now reason force =
    if state_place row.state == state_place new_state
    then Result.ok (row, none)
    else if not force && not (may_move row.state new_state)
    then Result.raise ServiceError.conflict
    else Result.ok
        (moved_row row new_state now reason, some (state_event row new_state actor now reason))
