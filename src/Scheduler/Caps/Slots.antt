-- ===== src/Scheduler/Caps/Slots.antt =====
-- app/scheduler/caps.py: one increment, one decrement and one release, as changes of the usage.
use mathlib.Core.Option
use range_apply.Common.{
  Bool, Bool-cases, Option-cases, String, arith, false, find_first, if◌then◌else◌, inl, inr,
  is_some, ltb, refl, some, str_eq, true, ℕ, ◌&&◌, ◌+◌, ◌-◌, ◌<◌, ◌∙◌, ◌≡◌,
}
use range_apply.Scheduler.Caps.{
  CapLedger, LedgerRow, PeriodKind, decrement, ensure, get_entry, give_slot_back, has_room,
  increment, is_period, release_slot, take_slot, usage,
}
use range_apply.Scheduler.Caps.Ensure.{HasEntry, IsKeyedLedger, ensure-IsKeyedLedger, usage-ensure}
use range_apply.Scheduler.Caps.Entries.{
  KeepsPeriod, find-update, find-update_self, same_is_equal, same_period, update-IsKeyed, used,
}

pub keeps_take_slot : KeepsPeriod take_slot
keeps_take_slot = record { keeps = λ t k j r. refl }

abbrev give_slot : LedgerRow → LedgerRow
give_slot r = record r { released = r.released + 1 }

keeps_give_slot : KeepsPeriod give_slot
keeps_give_slot = record { keeps = λ t k j r. refl }

abbrev undo_slot : LedgerRow → LedgerRow
undo_slot r = record r { reserved = r.reserved - 1 }

keeps_undo_slot : KeepsPeriod undo_slot
keeps_undo_slot = record { keeps = λ t k j r. refl }

abbrev always : LedgerRow → Bool
always r = true

module _ (l : CapLedger) (k : PeriodKind) (j : String) (cap : ℕ) (keyed : IsKeyedLedger l) where
  taken :
      (k' : PeriodKind) (j' : String)
      → find_first (is_period l.tenant_id k' j') (increment l k j cap).0.entries
        ≡ Option.map
            (λ r. if same_period k j k' j' && has_room cap r then take_slot r else r)
            (find_first (is_period l.tenant_id k' j') l.entries)
  unfolding increment
  taken = find-update l.tenant_id k j (has_room cap) take_slot keeps_take_slot l.entries keyed

  -- The slot is taken exactly when the usage is below the cap.
  pub increment-ok : HasEntry l k j → (increment l k j cap).1 ≡ ltb (usage l k j) cap
  unfolding increment usage get_entry
  increment-ok has = ground (
    arith,
    (find-update_self l.tenant_id k j (has_room cap) take_slot keeps_take_slot l.entries
        (keyed.at_period k j)).1,
  )

  pub tenant-increment : (increment l k j cap).0.tenant_id ≡ l.tenant_id
  unfolding increment
  tenant-increment = refl

  pub increment-HasEntry :
      (k' : PeriodKind) (j' : String) → HasEntry l k' j' → HasEntry (increment l k j cap).0 k' j'
  unfolding get_entry
  increment-HasEntry k' j' has = ground (arith, taken k' j', tenant-increment)

  -- A taken slot is one more, in this period alone.
  pub usage-increment :
      (k' : PeriodKind) (j' : String)
      → HasEntry l k j
      → usage (increment l k j cap).0 k' j' ≡ (
          if same_period k j k' j' && ltb (usage l k' j') cap
          then usage l k' j' + 1
          else usage l k' j')
  unfolding usage get_entry
  usage-increment k' j' has =
      elim (Option-cases (find_first (is_period l.tenant_id k' j') l.entries)) [
        | inl missing ↦ elim (Bool-cases (same_period k j k' j')) [
          | inl same ↦
              let (ek, ej) = same_is_equal k k' j j' same in
              let here : is_some (find_first (is_period l.tenant_id k' j') l.entries) ≡ true =
                rw (ek, ej) at has in
              absurd (ground (arith, missing, here))
          | inr other ↦ ground (arith, taken k' j', tenant-increment, missing, other)
        ]
        | inr (r, found) ↦
            ground (arith, taken k' j', tenant-increment, found, keyed.balanced k' j' r found)
      ]

  pub increment-IsKeyedLedger : IsKeyedLedger (increment l k j cap).0
  unfolding increment
  increment-IsKeyedLedger =
      update-IsKeyed l.tenant_id k j (has_room cap) take_slot keeps_take_slot l.entries keyed
        (λ r found ok. ground (arith, keyed.balanced k j r found))

module _ (l : CapLedger) (k : PeriodKind) (j : String) (keyed : IsKeyedLedger l) where
  undone :
      (k' : PeriodKind) (j' : String)
      → find_first (is_period l.tenant_id k' j') (decrement l k j).entries
        ≡ Option.map
            (λ r. if same_period k j k' j' && true then undo_slot r else r)
            (find_first (is_period l.tenant_id k' j') l.entries)
  unfolding decrement
  undone = find-update l.tenant_id k j (λ r. true) undo_slot keeps_undo_slot l.entries keyed

  tenant-decrement : (decrement l k j).tenant_id ≡ l.tenant_id
  unfolding decrement
  tenant-decrement = refl

  -- A slot that is handed back at once is one less, in this period alone.
  pub usage-decrement :
      (k' : PeriodKind) (j' : String)
      → usage (decrement l k j) k' j'
        ≡ (if same_period k j k' j' then usage l k' j' - 1 else usage l k' j')
  unfolding usage get_entry
  usage-decrement k' j' = elim (Option-cases (find_first (is_period l.tenant_id k' j') l.entries)) [
    | inl missing ↦ ground (arith, undone k' j', tenant-decrement, missing)
    | inr (r, found) ↦ ground (arith, undone k' j', tenant-decrement, found)
  ]

  pub decrement-IsKeyedLedger : 0 < usage l k j → IsKeyedLedger (decrement l k j)
  unfolding decrement usage get_entry
  decrement-IsKeyedLedger used =
      update-IsKeyed l.tenant_id k j (λ r. true) undo_slot keeps_undo_slot l.entries keyed
        (λ r found ok. ground (arith, found, used))

-- A slot that is given back.
module _ (l : CapLedger) (k : PeriodKind) (j : String) (keyed : IsKeyedLedger l) where
  given :
      (k' : PeriodKind) (j' : String)
      → find_first (is_period l.tenant_id k' j') (give_slot_back l k j).entries
        ≡ Option.map
            (λ r. if same_period k j k' j' && true then give_slot r else r)
            (find_first (is_period l.tenant_id k' j') l.entries)
  unfolding give_slot_back
  given = find-update l.tenant_id k j (λ r. true) give_slot keeps_give_slot l.entries keyed

  tenant-give_slot_back : (give_slot_back l k j).tenant_id ≡ l.tenant_id
  unfolding give_slot_back
  tenant-give_slot_back = refl

  usage-give_slot_back :
      (k' : PeriodKind) (j' : String)
      → usage (give_slot_back l k j) k' j'
        ≡ (if same_period k j k' j' then usage l k' j' - 1 else usage l k' j')
  unfolding usage get_entry
  usage-give_slot_back k' j' =
      elim (Option-cases (find_first (is_period l.tenant_id k' j') l.entries)) [
        | inl missing ↦ ground (arith, given k' j', tenant-give_slot_back, missing)
        | inr (r, found) ↦ ground (arith, given k' j', tenant-give_slot_back, found)
      ]

  give_slot_back-IsKeyedLedger : 0 < usage l k j → IsKeyedLedger (give_slot_back l k j)
  unfolding give_slot_back usage get_entry
  give_slot_back-IsKeyedLedger used =
      update-IsKeyed l.tenant_id k j (λ r. true) give_slot keeps_give_slot l.entries keyed
        (λ r found ok. ground (arith, found, used))

module _ (l : CapLedger) (k : PeriodKind) (key : String) (keyed : IsKeyedLedger l)
    (named : str_eq key "" ≡ false) where
  pub usage-release_slot :
      (k' : PeriodKind) (j' : String)
      → usage (release_slot l k (some key)) k' j'
        ≡ (if same_period k key k' j' then usage l k' j' - 1 else usage l k' j')
  unfolding release_slot
  usage-release_slot k' j' = rw named (
      usage-give_slot_back (ensure l k key) k key (ensure-IsKeyedLedger l k key keyed) k' j'
      ∙ rw (usage-ensure l k key k' j') refl)

  pub release_slot-IsKeyedLedger : 0 < usage l k key → IsKeyedLedger (release_slot l k (some key))
  unfolding release_slot
  release_slot-IsKeyedLedger used = rw named (
      give_slot_back-IsKeyedLedger (ensure l k key) k key (ensure-IsKeyedLedger l k key keyed)
        (rw (usage-ensure l k key k key) used))
