-- ===== src/Signals/Outcomes/Status.antt =====
-- app/signals/outcomes.py: the rules of the derivation, on the status that it derives.
use mathlib.Core.Option
use range_apply.Common.{
  Bool, Bool-cases, List, Option-cases, String, any_of, arith, false, if◌then◌else◌, inl, inr, keep,
  leb, length, ltb, or_else, refl, some, sym, true, ℕ, ◌&&◌, ◌∙◌, ◌∷◌, ◌≡◌, ◌≤◌,
}
use range_apply.Signals.Models.{OutcomeKind}
use range_apply.Signals.Outcomes.{
  Event, basis_of, conflicts_of, derive, derive_sorted, furthest, in_stage, in_terminal_outcomes,
  insert_event, is_current_event, is_progress, is_review, is_strong_terminal, is_weak, last_event,
  sort_events, stage,
}
use range_apply.Signals.Outcomes.Evidence.{
  any_of-insert_false, any_of-keep, any_of-sort_events, furthest-keep, furthest-stage,
  keep-insert_event, last_event-keep,
}

-- The status without its conflicts.
abbrev pub settled_outcome : List Event → OutcomeKind
settled_outcome active =
    or_else (Option.map (λ e. e.outcome) (basis_of active))
      (if any_of is_review active then OutcomeKind.needs_review else OutcomeKind.unknown)

derive_sorted-current :
    (application_id : String) (active : List Event)
    → (derive_sorted application_id active).current ≡ (
        if ltb 0 (length (conflicts_of active))
        then OutcomeKind.needs_review
        else settled_outcome active)
unfolding derive_sorted
derive_sorted-current application_id active = refl

ending_is_no_stage : (k : OutcomeKind) → in_terminal_outcomes k ≡ true → in_stage k ≡ false
ending_is_no_stage k h = ground (arith, h)

-- The basis of an ending is strong, and stands among the events.
basis_of-terminal :
    (active : List Event) {e : Event}
    → basis_of active ≡ some e
    → in_terminal_outcomes e.outcome ≡ true
    → any_of is_strong_terminal active ≡ true
unfolding basis_of
basis_of-terminal active {e} h t =
    elim (Option-cases (last_event (keep is_strong_terminal active))) [
      | inr (a, found) ↦ (last_event-keep is_strong_terminal active found).1
      | inl nothing ↦
          let far : furthest (keep is_progress active) ≡ some e = rw nothing at h in
          let staged = furthest-keep is_progress active far in
          absurd (ground (arith, staged, ending_is_no_stage e.outcome t))
    ]

settled-terminal :
    (active : List Event)
    → in_terminal_outcomes (settled_outcome active) ≡ true
    → any_of is_strong_terminal active ≡ true
settled-terminal active h = elim (Option-cases (basis_of active)) [
  | inl nothing ↦ absurd (ground (arith, h, nothing))
  | inr (e, found) ↦ basis_of-terminal active found (ground (arith, h, found))
]

settled-stage :
    (s : ℕ) (active : List Event)
    → any_of (λ e. leb s (stage e.outcome)) (keep is_progress active) ≡ true
    → in_stage (settled_outcome active) ≡ true
    → s ≤ stage (settled_outcome active)
unfolding basis_of
settled-stage s active some_event h =
    elim (Option-cases (last_event (keep is_strong_terminal active))) [
      | inr (a, found) ↦
          let strong = (last_event-keep is_strong_terminal active found).0 in
          absurd (ground (arith, h, found, strong, ending_is_no_stage a.outcome))
      | inl nothing ↦ elim (Option-cases (furthest (keep is_progress active))) [
        | inl no_progress ↦ absurd (ground (arith, h, nothing, no_progress))
        | inr (e, far) ↦
            rw (nothing, far) (furthest-stage s (keep is_progress active) some_event far)
      ]
    ]

sort_events_cons :
    (e : Event) (es : List Event) → sort_events (e ∷ es) ≡ insert_event e (sort_events es)
unfolding sort_events
sort_events_cons e es = refl

-- What the status is derived from leaves a weak event out.
module _ (e : Event) (weak : is_weak e ≡ true) (calm : is_review e ≡ false) (es : List Event) where
  not_strong : is_strong_terminal e ≡ false
  not_strong = ground (arith, weak)

  not_progress : is_progress e ≡ false
  not_progress = ground (arith, weak)

  settled-weak : settled_outcome (insert_event e es) ≡ settled_outcome es
  unfolding basis_of
  settled-weak =
      rw
        (
          keep-insert_event is_strong_terminal e es not_strong,
          keep-insert_event is_progress e es not_progress,
          any_of-insert_false is_review e es calm,
        )
        refl

  conflicts-weak : conflicts_of (insert_event e es) ≡ conflicts_of es
  conflicts-weak =
      rw
        (
          keep-insert_event is_strong_terminal e es not_strong,
          keep-insert_event is_progress e es not_progress,
        )
        refl

module _ (application_id : String) (events : List Event) where
  abbrev active_events : List Event
  active_events = sort_events (keep is_current_event events)

  any_active :
      (p : Event → Bool) → any_of p active_events ≡ any_of (λ e. is_current_event e && p e) events
  any_active p =
      any_of-sort_events p (keep is_current_event events) ∙ any_of-keep p is_current_event events

  -- A status that is an ending rests on STRONG evidence of an ending, which is neither retracted nor
  -- superseded.
  pub derive-terminal :
      in_terminal_outcomes (derive application_id events).current ≡ true
      → any_of (λ e. is_current_event e && is_strong_terminal e) events ≡ true
  unfolding derive
  derive-terminal h =
      let shown = rw (derive_sorted-current application_id active_events) at h in
      sym (any_active is_strong_terminal) ∙ settled-terminal active_events (ground (arith, shown))

  -- A status that is a stage is no earlier than any stage that an event, neither retracted nor
  -- superseded, gives STRONG or MODERATE evidence of.
  pub derive-stage :
      (s : ℕ)
      → any_of (λ e. is_current_event e && (is_progress e && leb s (stage e.outcome))) events ≡ true
      → in_stage (derive application_id events).current ≡ true
      → s ≤ stage (derive application_id events).current
  unfolding derive
  derive-stage s some_event h =
      let shown = rw (derive_sorted-current application_id active_events) at h in
      let still : in_stage (settled_outcome active_events) ≡ true = ground (arith, shown) in
      let free : ltb 0 (length (conflicts_of active_events)) ≡ false = ground (arith, shown) in
      let there =
        any_of-keep (λ e. leb s (stage e.outcome)) is_progress active_events
        ∙ (any_active (λ e. is_progress e && leb s (stage e.outcome)) ∙ some_event) in
      rw (derive_sorted-current application_id active_events)
        (rw free (settled-stage s active_events there still))

  -- One more event, with WEAK evidence and no request for a review, leaves the status as it was.
  pub derive-weak :
      (e : Event)
      → is_weak e ≡ true
      → is_review e ≡ false
      → (derive application_id (e ∷ events)).current ≡ (derive application_id events).current
  unfolding derive
  derive-weak e weak calm = elim (Bool-cases (is_current_event e)) [
    | inr gone ↦ rw gone refl
    | inl counts ↦ rw counts (
        rw
          (
            sort_events_cons e (keep is_current_event events),
            derive_sorted-current application_id (insert_event e active_events),
            derive_sorted-current application_id active_events,
          )
          (rw (conflicts-weak e weak calm active_events, settled-weak e weak calm active_events)
            refl))
  ]
