-- ===== src/Scheduler/Caps/Release.antt =====
-- app/scheduler/caps.py: `release` gives one slot back in each of the two periods.
use range_apply.Common.{
  String, arith, eq_refl, false, if◌then◌else◌, refl, some, str_eq, true, ◌-◌, ◌<◌, ◌≡◌,
}
use range_apply.Scheduler.Caps.{
  CapLedger, PeriodKeys, PeriodKind, give_slot_back, release_slot, release_slots, usage,
}
use range_apply.Scheduler.Caps.Ensure.{IsKeyedLedger, tenant-ensure}
use range_apply.Scheduler.Caps.Entries.{same_period}
use range_apply.Scheduler.Caps.Reserve.{counts_in}
use range_apply.Scheduler.Caps.Slots.{release_slot-IsKeyedLedger, usage-release_slot}

module _ (l : CapLedger) (keys : PeriodKeys) (keyed : IsKeyedLedger l)
    (day_named : str_eq keys.day_key "" ≡ false) (week_named : str_eq keys.week_key "" ≡ false)
    (in_use : (k : PeriodKind) (j : String) → counts_in keys k j ≡ true → 0 < usage l k j) where
  abbrev day_released : CapLedger
  day_released = release_slot l PeriodKind.day (some keys.day_key)

  abbrev pub released_ledger : CapLedger
  released_ledger = release_slots l (some keys.day_key) (some keys.week_key)

  usage-day_released :
      (k : PeriodKind) (j : String)
      → usage day_released k j
        ≡ (if same_period PeriodKind.day keys.day_key k j then usage l k j - 1 else usage l k j)
  usage-day_released = usage-release_slot l PeriodKind.day keys.day_key keyed day_named

  day_released-IsKeyedLedger : IsKeyedLedger day_released
  day_released-IsKeyedLedger =
      release_slot-IsKeyedLedger l PeriodKind.day keys.day_key keyed day_named
        (in_use PeriodKind.day keys.day_key (rw (eq_refl keys.day_key) refl))

  pub release_slots-IsKeyedLedger : IsKeyedLedger released_ledger
  unfolding release_slots
  release_slots-IsKeyedLedger =
      release_slot-IsKeyedLedger day_released PeriodKind.week keys.week_key
        day_released-IsKeyedLedger week_named
        (rw (usage-day_released PeriodKind.week keys.week_key)
          (in_use PeriodKind.week keys.week_key (rw (eq_refl keys.week_key) (ground arith))))

  pub release_slots-tenant : released_ledger.tenant_id ≡ l.tenant_id
  unfolding release_slots release_slot give_slot_back
  release_slots-tenant = ground (
    arith,
    tenant-ensure l PeriodKind.day keys.day_key,
    tenant-ensure day_released PeriodKind.week keys.week_key,
  )

  -- A day and a week are never the same period.
  same_period_once :
      (k : PeriodKind) (j : String)
      → same_period PeriodKind.day keys.day_key k j ≡ true
      → same_period PeriodKind.week keys.week_key k j ≡ false
  same_period_once PeriodKind.day j h = refl
  same_period_once PeriodKind.week j h = absurd (ground (arith, h))

  usage-both :
      (k : PeriodKind) (j : String)
      → usage (release_slot day_released PeriodKind.week (some keys.week_key)) k j
        ≡ (if counts_in keys k j then usage l k j - 1 else usage l k j)
  usage-both k j = ground (
    arith,
    usage-release_slot day_released PeriodKind.week keys.week_key day_released-IsKeyedLedger
        week_named k j,
    usage-day_released k j,
    same_period_once k j,
  )

  release_slots-path :
      released_ledger ≡ release_slot day_released PeriodKind.week (some keys.week_key)
  unfolding release_slots
  release_slots-path = refl

  pub usage-release_slots :
      (k : PeriodKind) (j : String)
      → usage released_ledger k j ≡ (if counts_in keys k j then usage l k j - 1 else usage l k j)
  usage-release_slots k j = rw release_slots-path (usage-both k j)
