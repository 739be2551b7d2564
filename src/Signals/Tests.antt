-- ===== src/Signals/Tests.antt =====
-- app/signals/outcomes.py: the derivation on two concrete histories.
use range_apply.Common.{[], any_of, false, none, refl, true, ◌&&◌, ◌∷◌, ◌≡◌, ◌≤◌}
use range_apply.Signals.Models.{EvidenceStrength, OutcomeKind}
use range_apply.Signals.Outcomes.{
  Event, basis_of, conflicts_with, derive, derive_sorted, furthest, in_stage, in_terminal_outcomes,
  is_current_event, is_strong_terminal, sort_events, stage,
}
use range_apply.Signals.Outcomes.Order.{Reorders, derive-Reorders}
use range_apply.Signals.Outcomes.Status.{derive-stage, derive-terminal}

abbrev confirmed : Event
confirmed = record {
  id = "e1";
  outcome = OutcomeKind.application_received;
  evidence = EvidenceStrength.strong;
  event_at = 10;
  sequence = 1;
  retracted = false;
  superseded_by_id = none;
}

abbrev refusal_mail : Event
refusal_mail = record confirmed {
  id = "e2";
  outcome = OutcomeKind.rejected;
  event_at = 20;
  sequence = 2;
}

derive-Reorders_example :
    derive "a1" (refusal_mail ∷ confirmed ∷ []) ≡ derive "a1" (confirmed ∷ refusal_mail ∷ [])
derive-Reorders_example = derive-Reorders "a1" (Reorders.swap {es = []} refusal_mail confirmed refl)

rejected_run : in_terminal_outcomes (derive "a1" (refusal_mail ∷ confirmed ∷ [])).current ≡ true
unfolding derive derive_sorted basis_of conflicts_with sort_events furthest
rejected_run = refl

derive-terminal_example :
    any_of (λ e. is_current_event e && is_strong_terminal e) (refusal_mail ∷ confirmed ∷ []) ≡ true
derive-terminal_example = derive-terminal "a1" (refusal_mail ∷ confirmed ∷ []) rejected_run

received_run : in_stage (derive "a1" (confirmed ∷ [])).current ≡ true
unfolding derive derive_sorted basis_of conflicts_with sort_events furthest
received_run = refl

derive-stage_example : 2 ≤ stage (derive "a1" (confirmed ∷ [])).current
derive-stage_example = derive-stage "a1" (confirmed ∷ []) 2 refl received_run
