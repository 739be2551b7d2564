-- ===== src/Application/Models.antt =====
-- app/application/models.py: the status of an application attempt and its guarded transitions;
-- app/application/engine.py: the sets of statuses that the scheduler and the executor read.
use range_apply.Common.{Bool, List, String, [], any_of, false, true, ℕ, ◌==◌, ◌∷◌}

pub data ApplicationStatus : Type 0 where
  discovered qualified shortlisted preparing ready awaiting_approval submitting : ApplicationStatus
  submitted verified uncertain blocked needs_user_input needs_review failed cancelled :
      ApplicationStatus
  interviewing rejected closed : ApplicationStatus

-- The place of a member in the enumeration: two members are equal when their places are.
abbrev pub attempt_place : ApplicationStatus → ℕ
attempt_place ApplicationStatus.discovered = 0
attempt_place ApplicationStatus.qualified = 1
attempt_place ApplicationStatus.shortlisted = 2
attempt_place ApplicationStatus.preparing = 3
attempt_place ApplicationStatus.ready = 4
attempt_place ApplicationStatus.awaiting_approval = 5
attempt_place ApplicationStatus.submitting = 6
attempt_place ApplicationStatus.submitted = 7
attempt_place ApplicationStatus.verified = 8
attempt_place ApplicationStatus.uncertain = 9
attempt_place ApplicationStatus.blocked = 10
attempt_place ApplicationStatus.needs_user_input = 11
attempt_place ApplicationStatus.needs_review = 12
attempt_place ApplicationStatus.failed = 13
attempt_place ApplicationStatus.cancelled = 14
attempt_place ApplicationStatus.interviewing = 15
attempt_place ApplicationStatus.rejected = 16
attempt_place ApplicationStatus.closed = 17

-- `ApplicationStatus.value`
abbrev pub attempt_value : ApplicationStatus → String
attempt_value ApplicationStatus.discovered = "DISCOVERED"
attempt_value ApplicationStatus.qualified = "QUALIFIED"
attempt_value ApplicationStatus.shortlisted = "SHORTLISTED"
attempt_value ApplicationStatus.preparing = "PREPARING"
attempt_value ApplicationStatus.ready = "READY"
attempt_value ApplicationStatus.awaiting_approval = "AWAITING_APPROVAL"
attempt_value ApplicationStatus.submitting = "SUBMITTING"
attempt_value ApplicationStatus.submitted = "SUBMITTED"
attempt_value ApplicationStatus.verified = "VERIFIED"
attempt_value ApplicationStatus.uncertain = "UNCERTAIN"
attempt_value ApplicationStatus.blocked = "BLOCKED"
attempt_value ApplicationStatus.needs_user_input = "NEEDS_USER_INPUT"
attempt_value ApplicationStatus.needs_review = "NEEDS_REVIEW"
attempt_value ApplicationStatus.failed = "FAILED"
attempt_value ApplicationStatus.cancelled = "CANCELLED"
attempt_value ApplicationStatus.interviewing = "INTERVIEWING"
attempt_value ApplicationStatus.rejected = "REJECTED"
attempt_value ApplicationStatus.closed = "CLOSED"

-- `ATTEMPT_TRANSITIONS`
abbrev pub attempt_transitions : ApplicationStatus → List ApplicationStatus
attempt_transitions ApplicationStatus.discovered =
    ApplicationStatus.qualified ∷ ApplicationStatus.ready ∷ ApplicationStatus.closed
    ∷ ApplicationStatus.cancelled ∷ []
attempt_transitions ApplicationStatus.qualified =
    ApplicationStatus.preparing ∷ ApplicationStatus.ready ∷ ApplicationStatus.failed
    ∷ ApplicationStatus.closed ∷ ApplicationStatus.cancelled ∷ []
attempt_transitions ApplicationStatus.shortlisted =
    ApplicationStatus.qualified ∷ ApplicationStatus.preparing ∷ ApplicationStatus.ready
    ∷ ApplicationStatus.closed ∷ ApplicationStatus.cancelled ∷ []
attempt_transitions ApplicationStatus.preparing =
    ApplicationStatus.ready ∷ ApplicationStatus.needs_user_input ∷ ApplicationStatus.needs_review
    ∷ ApplicationStatus.failed ∷ ApplicationStatus.closed ∷ ApplicationStatus.cancelled ∷ []
attempt_transitions ApplicationStatus.ready =
    ApplicationStatus.submitting ∷ ApplicationStatus.preparing ∷ ApplicationStatus.needs_user_input
    ∷ ApplicationStatus.needs_review ∷ ApplicationStatus.blocked ∷ ApplicationStatus.failed
    ∷ ApplicationStatus.closed ∷ ApplicationStatus.cancelled ∷ []
attempt_transitions ApplicationStatus.awaiting_approval =
    ApplicationStatus.submitting ∷ ApplicationStatus.ready ∷ ApplicationStatus.cancelled ∷ []
attempt_transitions ApplicationStatus.submitting =
    ApplicationStatus.submitted ∷ ApplicationStatus.uncertain ∷ ApplicationStatus.ready
    ∷ ApplicationStatus.blocked ∷ ApplicationStatus.needs_user_input
    ∷ ApplicationStatus.needs_review ∷ ApplicationStatus.failed ∷ []
attempt_transitions ApplicationStatus.submitted =
    ApplicationStatus.verified ∷ ApplicationStatus.needs_review ∷ ApplicationStatus.interviewing
    ∷ ApplicationStatus.rejected ∷ ApplicationStatus.closed ∷ []
attempt_transitions ApplicationStatus.verified =
    ApplicationStatus.interviewing ∷ ApplicationStatus.rejected ∷ ApplicationStatus.closed ∷ []
attempt_transitions ApplicationStatus.uncertain =
    ApplicationStatus.submitted ∷ ApplicationStatus.verified ∷ ApplicationStatus.needs_review ∷ []
attempt_transitions ApplicationStatus.blocked =
    ApplicationStatus.ready ∷ ApplicationStatus.cancelled ∷ ApplicationStatus.closed ∷ []
attempt_transitions ApplicationStatus.needs_user_input =
    ApplicationStatus.ready ∷ ApplicationStatus.preparing ∷ ApplicationStatus.cancelled
    ∷ ApplicationStatus.closed ∷ []
attempt_transitions ApplicationStatus.needs_review =
    ApplicationStatus.ready ∷ ApplicationStatus.preparing ∷ ApplicationStatus.submitted
    ∷ ApplicationStatus.verified ∷ ApplicationStatus.failed ∷ ApplicationStatus.cancelled
    ∷ ApplicationStatus.closed ∷ []
attempt_transitions ApplicationStatus.failed =
    ApplicationStatus.qualified ∷ ApplicationStatus.ready ∷ ApplicationStatus.closed ∷ []
attempt_transitions ApplicationStatus.cancelled = ApplicationStatus.qualified ∷ []
attempt_transitions ApplicationStatus.interviewing =
    ApplicationStatus.rejected ∷ ApplicationStatus.closed ∷ []
attempt_transitions ApplicationStatus.rejected = ApplicationStatus.closed ∷ []
attempt_transitions ApplicationStatus.closed = ApplicationStatus.qualified ∷ []

-- `SUBMITTED_STATUSES`: these have, or may have, reached the employer.
abbrev pub in_submitted : ApplicationStatus → Bool
in_submitted ApplicationStatus.submitting = true
in_submitted ApplicationStatus.submitted = true
in_submitted ApplicationStatus.verified = true
in_submitted ApplicationStatus.uncertain = true
in_submitted ApplicationStatus.interviewing = true
in_submitted _ = false

-- `IN_FLIGHT_STATUSES`
abbrev pub in_in_flight : ApplicationStatus → Bool
in_in_flight ApplicationStatus.qualified = true
in_in_flight ApplicationStatus.shortlisted = true
in_in_flight ApplicationStatus.preparing = true
in_in_flight ApplicationStatus.ready = true
in_in_flight ApplicationStatus.awaiting_approval = true
in_in_flight ApplicationStatus.blocked = true
in_in_flight ApplicationStatus.needs_user_input = true
in_in_flight ApplicationStatus.needs_review = true
in_in_flight _ = false

-- `TERMINAL_STATUSES`
abbrev pub in_terminal : ApplicationStatus → Bool
in_terminal ApplicationStatus.failed = true
in_terminal ApplicationStatus.cancelled = true
in_terminal ApplicationStatus.rejected = true
in_terminal ApplicationStatus.closed = true
in_terminal _ = false

-- `new_status in ATTEMPT_TRANSITIONS.get(current, frozenset())`
abbrev pub may_transition : ApplicationStatus → ApplicationStatus → Bool
may_transition s t = any_of (λ u. attempt_place u == attempt_place t) (attempt_transitions s)
