-- ===== src/Signals/Outcomes/Order.antt =====
-- app/signals/outcomes.py: the order in which the events were recorded does not matter.
use range_apply.Common.{
  Bool, Bool-cases, List, String, [], ap, arith, false, inl, inr, keep, refl, ◌&&◌, ◌==◌, ◌∙◌, ◌∷◌,
  ◌≡◌,
}
use range_apply.Signals.Outcomes.{
  Event, derive, derive_sorted, insert_event, is_current_event, sort_events,
}

-- The two events have one time and one sequence number.
abbrev pub is_level : Event → Event → Bool
is_level a b = (a.event_at == b.event_at) && (a.sequence == b.sequence)

-- The second list is the first with its events moved, where no two level events change places.
pub data Reorders : List Event → List Event → Type 0 where
  same : {es : List Event} → Reorders es es
  later : {es fs : List Event} (e : Event) → Reorders es fs → Reorders (e ∷ es) (e ∷ fs)
  swap : {es : List Event} (a b : Event) → is_level a b ≡ false → Reorders (a ∷ b ∷ es) (b ∷ a ∷ es)
  both : {es fs gs : List Event} → Reorders es fs → Reorders fs gs → Reorders es gs

-- Two events with different keys can be inserted in either order, into any list.
insert_event_comm :
    (a b : Event)
    → is_level a b ≡ false
    → (es : List Event) → insert_event a (insert_event b es) ≡ insert_event b (insert_event a es)
unfolding insert_event
insert_event_comm a b d [] = ground (arith, d)
insert_event_comm a b d (x ∷ xs) = ground (arith, d, insert_event_comm a b d xs)

sort_events-Reorders : {es fs : List Event} → Reorders es fs → sort_events es ≡ sort_events fs
unfolding sort_events
sort_events-Reorders Reorders.same = refl
sort_events-Reorders (Reorders.later e r) = ap (insert_event e) (sort_events-Reorders r)
sort_events-Reorders (Reorders.swap {es} a b d) = insert_event_comm a b d (sort_events es)
sort_events-Reorders (Reorders.both r s) = sort_events-Reorders r ∙ sort_events-Reorders s

keep-Reorders :
    (p : Event → Bool) {es fs : List Event} → Reorders es fs → Reorders (keep p es) (keep p fs)
keep-Reorders p Reorders.same = Reorders.same
keep-Reorders p (Reorders.later e r) = elim (Bool-cases (p e)) [
  | inl t ↦ rw t (Reorders.later e (keep-Reorders p r))
  | inr f ↦ rw f (keep-Reorders p r)
]
keep-Reorders p (Reorders.swap a b d) = elim (Bool-cases (p a)) [
  | inl ta ↦ elim (Bool-cases (p b)) [
    | inl tb ↦ rw (ta, tb) (Reorders.swap a b d)
    | inr fb ↦ rw (ta, fb) Reorders.same
  ]
  | inr fa ↦ elim (Bool-cases (p b)) [
    | inl tb ↦ rw (fa, tb) Reorders.same
    | inr fb ↦ rw (fa, fb) Reorders.same
  ]
]
keep-Reorders p (Reorders.both r s) = Reorders.both (keep-Reorders p r) (keep-Reorders p s)

-- Every part of the derived status is the same in whatever order the events were recorded, as long as
-- events with one time and one sequence number keep theirs.
pub derive-Reorders :
    (application_id : String) {es fs : List Event}
    → Reorders es fs
    → derive application_id es ≡ derive application_id fs
unfolding derive
derive-Reorders application_id r =
    ap (derive_sorted application_id) (sort_events-Reorders (keep-Reorders is_current_event r))
