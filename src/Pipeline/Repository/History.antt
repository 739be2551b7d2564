-- ===== src/Pipeline/Repository/History.antt =====
-- app/pipeline/repository.py: where unforced changes of state can and cannot lead.
use range_apply.Common.{
  Bool, Option, String, ap, arith, false, inl, inr, none, refl, some, true, ℕ, ◌==◌, ◌||◌, ◌∙◌, ◌≡◌,
  ◌⊎◌,
}
use range_apply.Core.Errors.{Result}
use range_apply.Core.Guards.{guarded-write}
use range_apply.Pipeline.Models.{OpportunityState, state_place}
use range_apply.Pipeline.Repository.{StateEvent, moved_row, state_event, transition}
use range_apply.Pipeline.Rows.{CandidateOpportunityRow}
use range_apply.Pipeline.States.{may_move}
use range_apply.Scheduler.Attempts.{in_applied}

-- The states in which the application has gone out, and the end.
abbrev pub is_past_submission : OpportunityState → Bool
is_past_submission s = in_applied s || (state_place s == state_place OpportunityState.closed)

past_submission-step :
    (s t : OpportunityState)
    → may_move s t ≡ true
    → is_past_submission s ≡ true
    → is_past_submission t ≡ true
past_submission-step s t m h = ground (arith, m, h)

closed-step : (t : OpportunityState) → may_move OpportunityState.closed t ≡ false
closed-step t = refl

-- The rows that unforced changes of state lead to.
pub data Reaches (row : CandidateOpportunityRow) : CandidateOpportunityRow → Type 0 where
  origin : Reaches row row
  change :
      {mid last : CandidateOpportunityRow} {event : Option StateEvent} (t : OpportunityState)
      (actor : String) (now : ℕ) (reason : Option String)
      → Reaches row mid
      → transition mid t actor now reason false ≡ Result.ok (last, event)
      → Reaches row last

transition-moves :
    (row : CandidateOpportunityRow) (t : OpportunityState) (actor : String) (now : ℕ)
    (reason : Option String) {row' : CandidateOpportunityRow} {event : Option StateEvent}
    → transition row t actor now reason false ≡ Result.ok (row', event)
    → (row' ≡ row) ⊎ ((may_move row.state t ≡ true) × (row'.state ≡ t))
unfolding transition
transition-moves row t actor now reason h =
    elim (guarded-write (state_place row.state == state_place t) (may_move row.state t) (row, none)
      (moved_row row t now reason, some (state_event row t actor now reason)) h) [
        | inl same ↦ inl (ap (λ p. p.0) same)
        | inr (m, e) ↦ inr (m, ap (λ p. p.0.state) e)
      ]

-- Once an application has gone out, or the row is closed, no sequence of unforced changes leads back
-- to a state before it.
pub Reaches-past_submission :
    {row last : CandidateOpportunityRow}
    → Reaches row last
    → is_past_submission row.state ≡ true
    → is_past_submission last.state ≡ true
Reaches-past_submission Reaches.origin h = h
Reaches-past_submission (Reaches.change {mid} t actor now reason before e) h =
    let earlier = Reaches-past_submission before h in
    elim (transition-moves mid t actor now reason e) [
      | inl same ↦ rw same earlier
      | inr (m, s) ↦ rw s (past_submission-step mid.state t m earlier)
    ]

-- A closed row stays as it is.
pub Reaches-closed :
    {row last : CandidateOpportunityRow}
    → Reaches row last
    → row.state ≡ OpportunityState.closed
    → last ≡ row
Reaches-closed Reaches.origin h = refl
Reaches-closed (Reaches.change {mid} t actor now reason before e) h =
    let earlier = Reaches-closed before h in
    elim (transition-moves mid t actor now reason e) [
      | inl same ↦ same ∙ earlier
      | inr (m, s) ↦
          let closed : mid.state ≡ OpportunityState.closed = ap (λ r. r.state) earlier ∙ h in
          absurd (ground (arith, closed-step t, rw closed at m))
    ]
