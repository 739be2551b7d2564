-- ===== src/Pipeline/Rows.antt =====
-- app/pipeline/database/models.py and app/pipeline/models.py: the rows that the policy, the queue and
-- the scheduler read. A `DateTime` is a number of seconds; columns that nothing modelled reads are
-- left out.
use range_apply.Common.{List, Option, String, ℕ}
use range_apply.Pipeline.Models.{
  EligibilityDecision, FitBand, Lane, OpportunityState, OpportunityStatus, QueueAction, QueueState,
}

pub record OpportunityRow : Type 0 where
  pub id : String
  pub canonical_job_id : Option String
  pub company : String
  pub company_key : Option String
  pub title : String
  pub status : OpportunityStatus
  pub deadline : Option ℕ
  pub first_seen_at : Option ℕ
  pub reposted_at : Option ℕ

pub record CandidateOpportunityRow : Type 0 where
  pub id : String
  pub tenant_id : String
  pub opportunity_id : String
  pub state : OpportunityState
  pub eligibility_status : Option EligibilityDecision
  pub fit_score : Option ℕ
  pub fit_band : Option FitBand
  pub priority_score : Option ℕ
  pub skipped_reason : Option String
  pub state_changed_at : Option ℕ

-- A JSON object: each value is kept as its text.
abbrev pub JsonObject : Type 0
JsonObject = List (String × String)

-- `ApplicationQueueRow`; `updated_at` is left out, since nothing reads it.
pub record QueueRow : Type 0 where
  pub id : String
  pub tenant_id : String
  pub candidate_opportunity_id : String
  pub opportunity_id : String
  pub action : QueueAction
  pub state : QueueState
  pub lane : Lane
  pub priority : ℕ
  pub idempotency_key : String
  pub available_at : ℕ
  pub attempts : ℕ
  pub max_attempts : ℕ
  pub claimed_by : Option String
  pub claimed_at : Option ℕ
  pub lease_expires_at : Option ℕ
  pub last_error : Option String
  pub result : Option JsonObject
  pub completed_at : Option ℕ
  pub created_at : ℕ
