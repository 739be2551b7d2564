-- ===== src/Signals/Outcomes.antt =====
-- app/signals/outcomes.py: the status of an application from the history of its events. Times are
-- numbers of seconds.
pub mod Order
pub mod Evidence
pub mod Status
use mathlib.Core.Option
use range_apply.Common.{
  Bool, List, Option, String, [], any_of, false, first_some, if◌then◌else◌, is_some, keep, length,
  ltb, none, not, or_else, some, true, ℕ, ◌&&◌, ◌++◌, ◌==◌, ◌||◌, ◌∷◌,
}
use range_apply.Execution.Models.{ExecutionOutcome, VerificationStatus}
use range_apply.Signals.Models.{
  ClassificationSource, Confidence, Conflict, DerivedOutcome, EvidenceStrength, OutcomeKind,
  SignalCategory, outcome_place,
}

-- `_Event`
pub record Event : Type 0 where
  pub id : String
  pub outcome : OutcomeKind
  pub evidence : EvidenceStrength
  pub event_at : ℕ
  pub sequence : ℕ
  pub retracted : Bool
  pub superseded_by_id : Option String

-- `OUTCOME_FOR_CATEGORY`
abbrev pub outcome_for_category : SignalCategory → Option OutcomeKind
outcome_for_category SignalCategory.application_confirmation = some OutcomeKind.application_received
outcome_for_category SignalCategory.application_received = some OutcomeKind.application_received
outcome_for_category SignalCategory.rejection = some OutcomeKind.rejected
outcome_for_category SignalCategory.interview_invitation = some OutcomeKind.interview_requested
outcome_for_category SignalCategory.recruiter_contact = some OutcomeKind.recruiter_contact
outcome_for_category SignalCategory.assessment = some OutcomeKind.assessment_requested
outcome_for_category SignalCategory.information_request = some OutcomeKind.under_review
outcome_for_category SignalCategory.withdrawal = some OutcomeKind.withdrawn
outcome_for_category SignalCategory.duplicate_or_closed =
    some OutcomeKind.closed_without_application
outcome_for_category SignalCategory.status_update = some OutcomeKind.under_review
outcome_for_category SignalCategory.execution_result = some OutcomeKind.submitted
outcome_for_category SignalCategory.other = none
outcome_for_category SignalCategory.unknown = none

-- `STAGE`, where a missing key is 0
abbrev pub stage : OutcomeKind → ℕ
stage OutcomeKind.submitted = 1
stage OutcomeKind.application_received = 2
stage OutcomeKind.under_review = 3
stage OutcomeKind.recruiter_contact = 4
stage OutcomeKind.assessment_requested = 4
stage OutcomeKind.interview_requested = 5
stage OutcomeKind.interview_scheduled = 6
stage _ = 0

-- `outcome in STAGE`
abbrev pub in_stage : OutcomeKind → Bool
in_stage kind = ltb 0 (stage kind)

-- `outcome in TERMINAL`
abbrev pub in_terminal_outcomes : OutcomeKind → Bool
in_terminal_outcomes OutcomeKind.rejected = true
in_terminal_outcomes OutcomeKind.withdrawn = true
in_terminal_outcomes OutcomeKind.closed_without_application = true
in_terminal_outcomes _ = false

-- `evidence_for`
unfoldable pub evidence_for : Confidence → ClassificationSource → EvidenceStrength
evidence_for confidence ClassificationSource.ai = EvidenceStrength.weak
evidence_for confidence ClassificationSource.human = EvidenceStrength.strong
evidence_for confidence ClassificationSource.declared = EvidenceStrength.strong
evidence_for Confidence.high source = EvidenceStrength.strong
evidence_for Confidence.medium source = EvidenceStrength.moderate
evidence_for _ source = EvidenceStrength.weak

-- `outcome_for_verification`
unfoldable pub outcome_for_verification :
    VerificationStatus → Option ExecutionOutcome → OutcomeKind × EvidenceStrength × Confidence
outcome_for_verification VerificationStatus.verified run_outcome =
    (OutcomeKind.submitted, EvidenceStrength.strong, Confidence.high)
outcome_for_verification VerificationStatus.likely run_outcome =
    (OutcomeKind.submitted, EvidenceStrength.moderate, Confidence.medium)
outcome_for_verification VerificationStatus.failed run_outcome =
    (OutcomeKind.needs_review, EvidenceStrength.strong, Confidence.high)
outcome_for_verification status run_outcome =
    (OutcomeKind.unknown, EvidenceStrength.weak, Confidence.low)

abbrev pub is_strong : Event → Bool
is_strong e = elim e.evidence [ EvidenceStrength.strong ↦ true | _ ↦ false ]

abbrev pub is_weak : Event → Bool
is_weak e = elim e.evidence [ EvidenceStrength.weak ↦ true | _ ↦ false ]

-- What the first line of `derive` keeps
abbrev pub is_current_event : Event → Bool
is_current_event e = not e.retracted && not (is_some e.superseded_by_id)

-- `(a.event_at, a.sequence) < (b.event_at, b.sequence)`
abbrev pub is_before : Event → Event → Bool
is_before a b =
    ltb a.event_at b.event_at || ((a.event_at == b.event_at) && ltb a.sequence b.sequence)

-- `sorted` by the two keys, which keeps the order of equal ones
unfoldable pub insert_event : Event → List Event → List Event
insert_event e [] = e ∷ []
insert_event e (x ∷ xs) = if is_before x e then x ∷ insert_event e xs else e ∷ x ∷ xs

unfoldable pub sort_events : List Event → List Event
unfolding insert_event
sort_events [] = []
sort_events (e ∷ es) = insert_event e (sort_events es)

abbrev pub is_strong_terminal : Event → Bool
is_strong_terminal e = in_terminal_outcomes e.outcome && is_strong e

abbrev pub is_weak_terminal : Event → Bool
is_weak_terminal e = in_terminal_outcomes e.outcome && not (is_strong e)

abbrev pub is_progress : Event → Bool
is_progress e = in_stage e.outcome && not (is_weak e)

abbrev pub is_weak_progress : Event → Bool
is_weak_progress e = in_stage e.outcome && is_weak e

abbrev pub is_review : Event → Bool
is_review e = outcome_place e.outcome == outcome_place OutcomeKind.needs_review

-- `events[-1]`
abbrev pub last_event : List Event → Option Event
last_event [] = none
last_event (e ∷ es) = first_some (last_event es) (some e)

-- `(STAGE[a.outcome], a.event_at, a.sequence) > (STAGE[b.outcome], …)`
abbrev pub is_further : Event → Event → Bool
is_further a b =
    ltb (stage b.outcome) (stage a.outcome)
    || ((stage a.outcome == stage b.outcome) && is_before b a)

-- `max` by that key: the first of the greatest
unfoldable pub furthest_from : Event → List Event → Event
furthest_from best [] = best
furthest_from best (e ∷ es) = furthest_from (if is_further e best then e else best) es

unfoldable pub furthest : List Event → Option Event
unfolding furthest_from
furthest [] = none
furthest (e ∷ es) = some (furthest_from e es)

-- The event that the status rests on, from the sorted events
unfoldable pub basis_of : List Event → Option Event
basis_of active =
    first_some (last_event (keep is_strong_terminal active)) (furthest (keep is_progress active))

-- The conflicts of the strong endings with each other and with the progress
unfoldable pub conflicts_with : List Event → List Event → List Conflict
conflicts_with strong_terminal progress = elim (last_event strong_terminal) [
  | none ↦ []
  | some last ↦
      let others =
        any_of (λ e. not (outcome_place e.outcome == outcome_place last.outcome)) strong_terminal in
      let later = any_of (λ p. is_before last p) progress in
      (if others then Conflict.multiple_terminal_outcomes ∷ [] else [])
      ++ (if later then Conflict.evidence_after_terminal ∷ [] else [])
]

abbrev pub conflicts_of : List Event → List Conflict
conflicts_of active = conflicts_with (keep is_strong_terminal active) (keep is_progress active)

-- What is shown besides the status `current`, which is `none` for Python's `None`
unfoldable pub provisional_of : List Event → Option OutcomeKind → Option OutcomeKind
provisional_of active current =
    let ended : Bool = elim current [ none ↦ false | some kind ↦ in_terminal_outcomes kind ] in
    let best : Option OutcomeKind = elim (furthest (keep is_weak_progress active)) [
      | none ↦ none
      | some e ↦ elim current [
        | none ↦ some e.outcome
        | some kind ↦
            if in_stage kind && ltb (stage kind) (stage e.outcome) then some e.outcome else none
      ]
    ] in
    elim (last_event (keep is_weak_terminal active)) [
      | none ↦ best
      | some e ↦ if ended then best else some e.outcome
    ]

abbrev pub same_outcome : OutcomeKind → Option OutcomeKind → Bool
same_outcome kind none = false
same_outcome kind (some other) = outcome_place kind == outcome_place other

-- `derive` of the sorted events
unfoldable pub derive_sorted : String → List Event → DerivedOutcome
derive_sorted application_id active =
    let basis = basis_of active in
    let current : Option OutcomeKind = Option.map (λ e. e.outcome) basis in
    let conflicts = conflicts_of active in
    let provisional = provisional_of active current in
    let review_flag = any_of is_review active in
    let differs : Bool = elim provisional [
      | none ↦ false
      | some kind ↦ not (same_outcome kind current)
    ] in
    let has_conflict = ltb 0 (length conflicts) in
    record {
      application_id = application_id;
      current =
          if has_conflict
          then OutcomeKind.needs_review
          else or_else current
              (if review_flag then OutcomeKind.needs_review else OutcomeKind.unknown);
      provisional = provisional;
      needs_review = has_conflict || (review_flag || differs);
      conflicts = conflicts;
      basis_event_id = Option.map (λ e. e.id) basis;
      event_count = length active;
      last_event_at = Option.map (λ e. e.event_at) (last_event active);
    }

-- `derive`; with no event left its early return is what the rest gives
unfoldable pub derive : String → List Event → DerivedOutcome
derive application_id events =
    derive_sorted application_id (sort_events (keep is_current_event events))
