-- ===== src/Signals/Models.antt =====
-- app/signals/models.py: the classifications, outcomes and events that the derivation reads.
use range_apply.Common.{Bool, List, Option, String, ℕ}

pub data SignalCategory : Type 0 where
  application_confirmation application_received rejection interview_invitation : SignalCategory
  recruiter_contact assessment information_request withdrawal duplicate_or_closed : SignalCategory
  status_update execution_result other unknown : SignalCategory

pub data Confidence : Type 0 where
  high medium low none : Confidence

pub data ClassificationSource : Type 0 where
  rules ai execution human declared : ClassificationSource

pub data OutcomeKind : Type 0 where
  submitted application_received under_review assessment_requested recruiter_contact : OutcomeKind
  interview_requested interview_scheduled rejected withdrawn : OutcomeKind
  closed_without_application needs_review unknown : OutcomeKind

-- The place of a member in the enumeration: two members are equal when their places are.
abbrev pub outcome_place : OutcomeKind → ℕ
outcome_place OutcomeKind.submitted = 0
outcome_place OutcomeKind.application_received = 1
outcome_place OutcomeKind.under_review = 2
outcome_place OutcomeKind.assessment_requested = 3
outcome_place OutcomeKind.recruiter_contact = 4
outcome_place OutcomeKind.interview_requested = 5
outcome_place OutcomeKind.interview_scheduled = 6
outcome_place OutcomeKind.rejected = 7
outcome_place OutcomeKind.withdrawn = 8
outcome_place OutcomeKind.closed_without_application = 9
outcome_place OutcomeKind.needs_review = 10
outcome_place OutcomeKind.unknown = 11

pub data EvidenceStrength : Type 0 where
  strong moderate weak : EvidenceStrength

-- `DerivedOutcome`; a conflict is its kind, without its text
pub data Conflict : Type 0 where
  multiple_terminal_outcomes evidence_after_terminal : Conflict

pub record DerivedOutcome : Type 0 where
  pub application_id : String
  pub current : OutcomeKind
  pub provisional : Option OutcomeKind
  pub needs_review : Bool
  pub conflicts : List Conflict
  pub basis_event_id : Option String
  pub event_count : ℕ
  pub last_event_at : Option ℕ
