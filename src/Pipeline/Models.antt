-- ===== src/Pipeline/Models.antt =====
-- app/pipeline/models.py: the enumerations of the pipeline, and the sets and tables over them.
-- An enumeration compares by `==` of the members' places.
use range_apply.Common.{Bool, false, true, ℕ}

pub data OpportunityStatus : Type 0 where
  opened closed reposted : OpportunityStatus

-- The place of a member in the enumeration: two members are equal when their places are.
abbrev pub status_place : OpportunityStatus → ℕ
status_place OpportunityStatus.opened = 0
status_place OpportunityStatus.closed = 1
status_place OpportunityStatus.reposted = 2

pub data OpportunityState : Type 0 where
  discovered eligible uncertain ineligible shortlisted prepared queued in_review : OpportunityState
  approved submitting submitted verification_pending verified rejected interviewing :
      OpportunityState
  offer closed skipped : OpportunityState

-- The place of a member in the enumeration: two members are equal when their places are.
abbrev pub state_place : OpportunityState → ℕ
state_place OpportunityState.discovered = 0
state_place OpportunityState.eligible = 1
state_place OpportunityState.uncertain = 2
state_place OpportunityState.ineligible = 3
state_place OpportunityState.shortlisted = 4
state_place OpportunityState.prepared = 5
state_place OpportunityState.queued = 6
state_place OpportunityState.in_review = 7
state_place OpportunityState.approved = 8
state_place OpportunityState.submitting = 9
state_place OpportunityState.submitted = 10
state_place OpportunityState.verification_pending = 11
state_place OpportunityState.verified = 12
state_place OpportunityState.rejected = 13
state_place OpportunityState.interviewing = 14
state_place OpportunityState.offer = 15
state_place OpportunityState.closed = 16
state_place OpportunityState.skipped = 17

pub data EligibilityDecision : Type 0 where
  eligible likely uncertain ineligible review : EligibilityDecision

pub data FitBand : Type 0 where
  high medium low : FitBand

-- The place of a member in the enumeration: two members are equal when their places are.
abbrev pub band_place : FitBand → ℕ
band_place FitBand.high = 0
band_place FitBand.medium = 1
band_place FitBand.low = 2

pub data AdmissionReason : Type 0 where
  admitted not_evaluated not_scored ineligible below_minimum_eligibility band_disabled :
      AdmissionReason
  below_fit_threshold company_blocked outside_target_geography irrelevant_role : AdmissionReason
  cooldown_active duplicate_application duplicate_opportunity already_in_progress : AdmissionReason
  already_submitted user_blocked opportunity_closed needs_user_input needs_review : AdmissionReason
  daily_cap_reached weekly_cap_reached window_deferred : AdmissionReason

-- The place of a member in the enumeration: two members are equal when their places are.
abbrev pub reason_place : AdmissionReason → ℕ
reason_place AdmissionReason.admitted = 0
reason_place AdmissionReason.not_evaluated = 1
reason_place AdmissionReason.not_scored = 2
reason_place AdmissionReason.ineligible = 3
reason_place AdmissionReason.below_minimum_eligibility = 4
reason_place AdmissionReason.band_disabled = 5
reason_place AdmissionReason.below_fit_threshold = 6
reason_place AdmissionReason.company_blocked = 7
reason_place AdmissionReason.outside_target_geography = 8
reason_place AdmissionReason.irrelevant_role = 9
reason_place AdmissionReason.cooldown_active = 10
reason_place AdmissionReason.duplicate_application = 11
reason_place AdmissionReason.duplicate_opportunity = 12
reason_place AdmissionReason.already_in_progress = 13
reason_place AdmissionReason.already_submitted = 14
reason_place AdmissionReason.user_blocked = 15
reason_place AdmissionReason.opportunity_closed = 16
reason_place AdmissionReason.needs_user_input = 17
reason_place AdmissionReason.needs_review = 18
reason_place AdmissionReason.daily_cap_reached = 19
reason_place AdmissionReason.weekly_cap_reached = 20
reason_place AdmissionReason.window_deferred = 21

pub data TailoringLevel : Type 0 where
  l0 l1 l2 : TailoringLevel

pub data Lane : Type 0 where
  auto review manual : Lane

-- The place of a member in the enumeration: two members are equal when their places are.
abbrev pub lane_place : Lane → ℕ
lane_place Lane.auto = 0
lane_place Lane.review = 1
lane_place Lane.manual = 2

pub data DuplicatePolicy : Type 0 where
  block allow_repost_after_cooldown : DuplicatePolicy

pub data QueueAction : Type 0 where
  prepare submit verify : QueueAction

-- The place of a member in the enumeration: two members are equal when their places are.
abbrev pub action_place : QueueAction → ℕ
action_place QueueAction.prepare = 0
action_place QueueAction.submit = 1
action_place QueueAction.verify = 2

pub data QueueState : Type 0 where
  pending claimed processing succeeded failed retry_wait blocked needs_review cancelled : QueueState

-- The place of a member in the enumeration: two members are equal when their places are.
abbrev pub queue_place : QueueState → ℕ
queue_place QueueState.pending = 0
queue_place QueueState.claimed = 1
queue_place QueueState.processing = 2
queue_place QueueState.succeeded = 3
queue_place QueueState.failed = 4
queue_place QueueState.retry_wait = 5
queue_place QueueState.blocked = 6
queue_place QueueState.needs_review = 7
queue_place QueueState.cancelled = 8

-- `ELIGIBILITY_RANK`
abbrev pub eligibility_rank : EligibilityDecision → ℕ
eligibility_rank EligibilityDecision.eligible = 4
eligibility_rank EligibilityDecision.likely = 3
eligibility_rank EligibilityDecision.uncertain = 2
eligibility_rank EligibilityDecision.review = 2
eligibility_rank EligibilityDecision.ineligible = 0

-- `ACTIVE_QUEUE_STATES`
abbrev pub is_active : QueueState → Bool
is_active QueueState.succeeded = false
is_active QueueState.failed = false
is_active QueueState.cancelled = false
is_active _ = true
