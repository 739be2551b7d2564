-- ===== src/Signals/Outcomes/Evidence.antt =====
-- app/signals/outcomes.py: what evidence of each strength can do to the status.
use range_apply.Common.{
  All, Bool, Bool-cases, List, Option-cases, [], any_of, ap, arith, false, if◌then◌else◌, inl, inr,
  keep, leb, or_else, refl, some, sym, true, ℕ, ◌&&◌, ◌||◌, ◌∙◌, ◌∷◌, ◌≡◌, ◌≤◌,
}
use range_apply.Signals.Outcomes.{
  Event, furthest, furthest_from, insert_event, is_further, last_event, sort_events, stage,
}

module _ (p : Event → Bool) where
  any_of-insert_event :
      (e : Event) (es : List Event) → any_of p (insert_event e es) ≡ (p e || any_of p es)
  unfolding insert_event
  any_of-insert_event e [] = refl
  any_of-insert_event e (x ∷ xs) = ground (arith, any_of-insert_event e xs)

  pub any_of-sort_events : (es : List Event) → any_of p (sort_events es) ≡ any_of p es
  unfolding sort_events
  any_of-sort_events [] = refl
  any_of-sort_events (e ∷ es) =
      rw (any_of-insert_event e (sort_events es), any_of-sort_events es) refl

  -- An event that fails the test is nowhere in what is kept.
  pub keep-insert_event :
      (e : Event) (es : List Event) → p e ≡ false → keep p (insert_event e es) ≡ keep p es
  unfolding insert_event
  keep-insert_event e [] h = rw h refl
  keep-insert_event e (x ∷ xs) h = ground (arith, h, keep-insert_event e xs h)

  pub any_of-insert_false :
      (e : Event) (es : List Event) → p e ≡ false → any_of p (insert_event e es) ≡ any_of p es
  any_of-insert_false e es h = any_of-insert_event e es ∙ rw h refl

  pub any_of-keep :
      (q : Event → Bool) (es : List Event) → any_of p (keep q es) ≡ any_of (λ e. q e && p e) es
  any_of-keep q [] = refl
  any_of-keep q (e ∷ es) = ground (arith, any_of-keep q es)

  pub last_event-keep :
      (es : List Event) {a : Event}
      → last_event (keep p es) ≡ some a
      → (p a ≡ true) × (any_of p es ≡ true)
  last_event-keep [] h = absurd (ground (arith, h))
  last_event-keep (e ∷ es) {a} h = elim (Bool-cases (p e)) [
    | inr f ↦ let rest = last_event-keep es {a = a} (rw f at h) in (rest.0, rw f rest.1)
    | inl t ↦ elim (Option-cases (last_event (keep p es))) [
      | inl nothing ↦
          let here : some e ≡ some a = rw (t, nothing) at h in
          (rw (ap (λ o. or_else o e) (sym here)) t, rw t refl)
      | inr (b, found) ↦
          let there : some b ≡ some a = rw (t, found) at h in
          ((last_event-keep es (found ∙ there)).0, rw t refl)
    ]
  ]

  chosen : (a b : Event) → p a ≡ true → p b ≡ true → p (if is_further a b then a else b) ≡ true
  chosen a b ha hb = elim (Bool-cases (is_further a b)) [ inl t ↦ rw t ha | inr f ↦ rw f hb ]

  furthest_from-passes :
      (best : Event) (es : List Event)
      → p best ≡ true
      → All (λ e. p e ≡ true) es
      → p (furthest_from best es) ≡ true
  unfolding furthest_from
  furthest_from-passes best [] h hs = h
  furthest_from-passes best (e ∷ es) h hs =
      furthest_from-passes (if is_further e best then e else best) es (chosen e best hs.0 h) hs.1

  All-keep : (es : List Event) → All (λ e. p e ≡ true) (keep p es)
  All-keep [] = tt
  All-keep (e ∷ es) = elim (Bool-cases (p e)) [
    | inl t ↦ rw t (t, All-keep es)
    | inr f ↦ rw f (All-keep es)
  ]

  pub furthest-keep : (es : List Event) {a : Event} → furthest (keep p es) ≡ some a → p a ≡ true
  unfolding furthest
  furthest-keep es {a} h = passes (keep p es) (All-keep es) h
    where
      passes : (l : List Event) → All (λ e. p e ≡ true) l → furthest l ≡ some a → p a ≡ true
      passes [] hs e = absurd (ground (arith, e))
      passes (x ∷ xs) hs e =
          rw (ap (λ o. or_else o x) (sym e)) (furthest_from-passes x xs hs.0 hs.1)

-- The furthest event is as far as every one that it was chosen from.
furthest_from-stage :
    (s : ℕ) (best : Event) (es : List Event)
    → (leb s (stage best.outcome) || any_of (λ e. leb s (stage e.outcome)) es) ≡ true
    → s ≤ stage (furthest_from best es).outcome
unfolding furthest_from
furthest_from-stage s best [] h = ground (arith, h)
furthest_from-stage s best (e ∷ es) h =
    furthest_from-stage s (if is_further e best then e else best) es
      (elim (Bool-cases (is_further e best)) [
        | inl t ↦ rw t (ground (arith, h, t))
        | inr f ↦ rw f (ground (arith, h, f))
      ])

pub furthest-stage :
    (s : ℕ) (es : List Event) {a : Event}
    → any_of (λ e. leb s (stage e.outcome)) es ≡ true
    → furthest es ≡ some a
    → s ≤ stage a.outcome
unfolding furthest
furthest-stage s [] h f = absurd (ground (arith, h))
furthest-stage s (e ∷ es) {a} h f =
    rw (ap (λ o. or_else o e) (sym f)) (furthest_from-stage s e es h)
