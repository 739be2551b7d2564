-- ===== src/Pipeline/States.antt =====
-- app/pipeline/models.py: the transition table of the candidate's relationship with an opportunity.
use range_apply.Common.{Bool, List, [], any_of, false, true, ◌==◌, ◌∷◌}
use range_apply.Pipeline.Models.{OpportunityState, state_place}

-- `EVALUATION_STATES`
abbrev pub is_evaluation : OpportunityState → Bool
is_evaluation OpportunityState.discovered = true
is_evaluation OpportunityState.eligible = true
is_evaluation OpportunityState.uncertain = true
is_evaluation OpportunityState.ineligible = true
is_evaluation _ = false

-- `ALLOWED_TRANSITIONS`
abbrev pub allowed_transitions : OpportunityState → List OpportunityState
allowed_transitions OpportunityState.discovered =
    OpportunityState.eligible ∷ OpportunityState.uncertain ∷ OpportunityState.ineligible
    ∷ OpportunityState.skipped ∷ OpportunityState.closed ∷ []
allowed_transitions OpportunityState.eligible =
    OpportunityState.uncertain ∷ OpportunityState.ineligible ∷ OpportunityState.shortlisted
    ∷ OpportunityState.prepared ∷ OpportunityState.queued ∷ OpportunityState.in_review
    ∷ OpportunityState.skipped ∷ OpportunityState.closed ∷ []
allowed_transitions OpportunityState.uncertain =
    OpportunityState.eligible ∷ OpportunityState.ineligible ∷ OpportunityState.shortlisted
    ∷ OpportunityState.prepared ∷ OpportunityState.queued ∷ OpportunityState.in_review
    ∷ OpportunityState.skipped ∷ OpportunityState.closed ∷ []
allowed_transitions OpportunityState.ineligible =
    OpportunityState.eligible ∷ OpportunityState.uncertain ∷ OpportunityState.skipped
    ∷ OpportunityState.closed ∷ []
allowed_transitions OpportunityState.shortlisted =
    OpportunityState.prepared ∷ OpportunityState.queued ∷ OpportunityState.in_review
    ∷ OpportunityState.skipped ∷ OpportunityState.closed ∷ []
allowed_transitions OpportunityState.prepared =
    OpportunityState.queued ∷ OpportunityState.in_review ∷ OpportunityState.skipped
    ∷ OpportunityState.closed ∷ []
allowed_transitions OpportunityState.queued =
    OpportunityState.prepared ∷ OpportunityState.in_review ∷ OpportunityState.approved
    ∷ OpportunityState.submitting ∷ OpportunityState.skipped ∷ OpportunityState.closed ∷ []
allowed_transitions OpportunityState.in_review =
    OpportunityState.approved ∷ OpportunityState.prepared ∷ OpportunityState.queued
    ∷ OpportunityState.skipped ∷ OpportunityState.closed ∷ []
allowed_transitions OpportunityState.approved =
    OpportunityState.submitting ∷ OpportunityState.queued ∷ OpportunityState.skipped
    ∷ OpportunityState.closed ∷ []
allowed_transitions OpportunityState.submitting =
    OpportunityState.submitted ∷ OpportunityState.verification_pending ∷ OpportunityState.queued
    ∷ OpportunityState.in_review ∷ OpportunityState.closed ∷ []
allowed_transitions OpportunityState.submitted =
    OpportunityState.verification_pending ∷ OpportunityState.verified ∷ OpportunityState.rejected
    ∷ OpportunityState.interviewing ∷ OpportunityState.closed ∷ []
allowed_transitions OpportunityState.verification_pending =
    OpportunityState.verified ∷ OpportunityState.submitted ∷ OpportunityState.rejected
    ∷ OpportunityState.interviewing ∷ OpportunityState.closed ∷ []
allowed_transitions OpportunityState.verified =
    OpportunityState.interviewing ∷ OpportunityState.rejected ∷ OpportunityState.offer
    ∷ OpportunityState.closed ∷ []
allowed_transitions OpportunityState.interviewing =
    OpportunityState.offer ∷ OpportunityState.rejected ∷ OpportunityState.closed ∷ []
allowed_transitions OpportunityState.offer =
    OpportunityState.rejected ∷ OpportunityState.closed ∷ []
allowed_transitions OpportunityState.rejected = OpportunityState.closed ∷ []
allowed_transitions OpportunityState.closed = []
allowed_transitions OpportunityState.skipped =
    OpportunityState.discovered ∷ OpportunityState.eligible ∷ OpportunityState.uncertain ∷ []

-- `new in ALLOWED_TRANSITIONS[current]`
abbrev pub may_move : OpportunityState → OpportunityState → Bool
may_move s t = any_of (λ u. state_place u == state_place t) (allowed_transitions s)
