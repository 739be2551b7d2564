-- ===== src/Scheduler/Caps/Reserve.antt =====
-- app/scheduler/caps.py: a reservation takes a day slot and a week slot together, or none.
use range_apply.Common.{
  Bool, Bool-cases, Option, String, arith, eq_refl, false, if◌then◌else◌, inl, inr, is_some, leb,
  ltb, none, not, refl, some, true, ℕ, ◌&&◌, ◌+◌, ◌-◌, ◌==◌, ◌||◌, ◌∙◌, ◌≡◌,
}
use range_apply.Pipeline.Models.{AdmissionReason}
use range_apply.Scheduler.Caps.{
  CapLedger, PeriodKeys, PeriodKind, decrement, ensure, increment, reserve_slots, usage,
}
use range_apply.Scheduler.Caps.Ensure.{
  HasEntry, IsKeyedLedger, ensure-HasEntry, ensure-HasEntry_other, ensure-IsKeyedLedger,
  tenant-ensure, usage-ensure,
}
use range_apply.Scheduler.Caps.Entries.{same_is_equal, same_period}
use range_apply.Scheduler.Caps.Slots.{
  decrement-IsKeyedLedger, increment-HasEntry, increment-IsKeyedLedger, increment-ok,
  usage-decrement, usage-increment,
}

-- The reason of a refusal, as a function of the two usages.
abbrev pub refusal : ℕ → ℕ → ℕ → ℕ → Option AdmissionReason
refusal daily_cap weekly_cap day_used week_used =
    if daily_cap == 0
    then some AdmissionReason.daily_cap_reached
    else if weekly_cap == 0
    then some AdmissionReason.weekly_cap_reached
    else if leb daily_cap day_used
    then some AdmissionReason.daily_cap_reached
    else if leb weekly_cap week_used
    then some AdmissionReason.weekly_cap_reached
    else none

-- Whether the period is one of the two that the reservation counts in.
abbrev pub counts_in : PeriodKeys → PeriodKind → String → Bool
counts_in keys k j =
    same_period PeriodKind.day keys.day_key k j || same_period PeriodKind.week keys.week_key k j

module _ (l : CapLedger) (keys : PeriodKeys) (d w : ℕ) (keyed : IsKeyedLedger l) where
  abbrev ready : CapLedger
  ready = ensure (ensure l PeriodKind.day keys.day_key) PeriodKind.week keys.week_key

  ready-IsKeyedLedger : IsKeyedLedger ready
  ready-IsKeyedLedger =
      ensure-IsKeyedLedger (ensure l PeriodKind.day keys.day_key) PeriodKind.week keys.week_key
        (ensure-IsKeyedLedger l PeriodKind.day keys.day_key keyed)

  usage-ready : (k : PeriodKind) (j : String) → usage ready k j ≡ usage l k j
  usage-ready k j =
      usage-ensure (ensure l PeriodKind.day keys.day_key) PeriodKind.week keys.week_key k j
      ∙ usage-ensure l PeriodKind.day keys.day_key k j

  ready-day : HasEntry ready PeriodKind.day keys.day_key
  ready-day =
      ensure-HasEntry_other (ensure l PeriodKind.day keys.day_key) PeriodKind.week keys.week_key
        PeriodKind.day keys.day_key (ensure-HasEntry l PeriodKind.day keys.day_key)

  ready-week : HasEntry ready PeriodKind.week keys.week_key
  ready-week = ensure-HasEntry (ensure l PeriodKind.day keys.day_key) PeriodKind.week keys.week_key

  abbrev after_day : CapLedger
  after_day = (increment ready PeriodKind.day keys.day_key d).0

  after_day-IsKeyedLedger : IsKeyedLedger after_day
  after_day-IsKeyedLedger =
      increment-IsKeyedLedger ready PeriodKind.day keys.day_key d ready-IsKeyedLedger

  after_week-ok :
      (increment after_day PeriodKind.week keys.week_key w).1
      ≡ ltb (usage l PeriodKind.week keys.week_key) w
  after_week-ok =
      increment-ok after_day PeriodKind.week keys.week_key w after_day-IsKeyedLedger (
        increment-HasEntry ready PeriodKind.day keys.day_key d ready-IsKeyedLedger PeriodKind.week
          keys.week_key ready-week)
      ∙ rw
          (
            usage-increment ready PeriodKind.day keys.day_key d ready-IsKeyedLedger PeriodKind.week
                keys.week_key ready-day,
            usage-ready PeriodKind.week keys.week_key,
          )
          refl

  after_day-ok :
      (increment ready PeriodKind.day keys.day_key d).1
      ≡ ltb (usage l PeriodKind.day keys.day_key) d
  after_day-ok =
      increment-ok ready PeriodKind.day keys.day_key d ready-IsKeyedLedger ready-day
      ∙ rw (usage-ready PeriodKind.day keys.day_key) refl

  -- On a table with one row a period, a reservation is refused for the day exactly when the daily cap
  -- is 0 or used up, and for the week when that holds of the weekly cap and not of the day's, but a
  -- weekly cap of 0 comes before a day used up.
  pub reserve_slots-reason :
      (reserve_slots l keys d w).1
      ≡ refusal d w (usage l PeriodKind.day keys.day_key) (usage l PeriodKind.week keys.week_key)
  unfolding reserve_slots
  reserve_slots-reason = ground (arith, after_day-ok, after_week-ok)

  usage-after_day :
      (k : PeriodKind) (j : String)
      → usage after_day k j ≡ (
          if same_period PeriodKind.day keys.day_key k j && ltb (usage l k j) d
          then usage l k j + 1
          else usage l k j)
  usage-after_day k j =
      usage-increment ready PeriodKind.day keys.day_key d ready-IsKeyedLedger k j ready-day
      ∙ rw (usage-ready k j) refl

  abbrev after_week : CapLedger
  after_week = (increment after_day PeriodKind.week keys.week_key w).0

  usage-after_week :
      (k : PeriodKind) (j : String)
      → usage after_week k j ≡ (
          if same_period PeriodKind.week keys.week_key k j && ltb (usage after_day k j) w
          then usage after_day k j + 1
          else usage after_day k j)
  usage-after_week k j =
      usage-increment after_day PeriodKind.week keys.week_key w after_day-IsKeyedLedger k j (
        increment-HasEntry ready PeriodKind.day keys.day_key d ready-IsKeyedLedger PeriodKind.week
          keys.week_key ready-week)

  after_week-IsKeyedLedger : IsKeyedLedger after_week
  after_week-IsKeyedLedger =
      increment-IsKeyedLedger after_day PeriodKind.week keys.week_key w after_day-IsKeyedLedger

  usage-after_undo :
      (k : PeriodKind) (j : String)
      → usage (decrement after_week PeriodKind.day keys.day_key) k j ≡ (
          if same_period PeriodKind.day keys.day_key k j
          then usage after_week k j - 1
          else usage after_week k j)
  usage-after_undo = usage-decrement after_week PeriodKind.day keys.day_key after_week-IsKeyedLedger

  usage-same :
      (k : PeriodKind) (j : String) (k' : PeriodKind) (j' : String)
      → same_period k j k' j' ≡ true
      → usage l k j ≡ usage l k' j'
  usage-same k j k' j' same = let (ek, ej) = same_is_equal k k' j j' same in rw (ek, ej) refl

  -- On a table with one row a period, a success counts one more in the day and in the week and in no
  -- other period, and a refusal changes no usage.
  pub usage-reserve_slots :
      (k : PeriodKind) (j : String)
      → usage (reserve_slots l keys d w).0 k j ≡ (
          if counts_in keys k j && not (is_some (reserve_slots l keys d w).1)
          then usage l k j + 1
          else usage l k j)
  unfolding reserve_slots
  usage-reserve_slots PeriodKind.day j = ground (
    arith,
    after_day-ok,
    after_week-ok,
    usage-after_day PeriodKind.day j,
    usage-after_week PeriodKind.day j,
    usage-after_undo PeriodKind.day j,
    usage-same PeriodKind.day keys.day_key PeriodKind.day j,
  )
  usage-reserve_slots PeriodKind.week j = ground (
    arith,
    after_day-ok,
    after_week-ok,
    usage-after_day PeriodKind.week j,
    usage-after_week PeriodKind.week j,
    usage-after_undo PeriodKind.week j,
    usage-same PeriodKind.week keys.week_key PeriodKind.week j,
  )

  undo-IsKeyedLedger :
      (increment ready PeriodKind.day keys.day_key d).1 ≡ true
      → (increment after_day PeriodKind.week keys.week_key w).1 ≡ false
      → IsKeyedLedger (decrement after_week PeriodKind.day keys.day_key)
  undo-IsKeyedLedger day_ok week_full =
      decrement-IsKeyedLedger after_week PeriodKind.day keys.day_key after_week-IsKeyedLedger (
        ground (
          arith,
          day_ok,
          after_day-ok,
          eq_refl keys.day_key,
          usage-after_day PeriodKind.day keys.day_key,
          usage-after_week PeriodKind.day keys.day_key,
        ))

  -- The table stays well formed.
  pub reserve_slots-IsKeyedLedger : IsKeyedLedger (reserve_slots l keys d w).0
  unfolding reserve_slots
  reserve_slots-IsKeyedLedger = elim (Bool-cases (d == 0)) [
    | inl paused ↦ rw paused keyed
    | inr open_day ↦ rw open_day (elim (Bool-cases (w == 0)) [
      | inl paused ↦ rw paused keyed
      | inr open_week ↦
          rw open_week (elim (Bool-cases (increment ready PeriodKind.day keys.day_key d).1) [
            | inr full ↦ rw full after_day-IsKeyedLedger
            | inl day_ok ↦
                rw day_ok
                  (elim (Bool-cases (increment after_day PeriodKind.week keys.week_key w).1) [
                    | inl week_ok ↦ rw week_ok after_week-IsKeyedLedger
                    | inr full ↦ rw full (undo-IsKeyedLedger day_ok full)
                  ])
          ])
    ])
  ]

-- A reservation leaves the ledger the tenant's.
pub reserve_slots-tenant :
    (l : CapLedger) (keys : PeriodKeys) (d w : ℕ)
    → (reserve_slots l keys d w).0.tenant_id ≡ l.tenant_id
unfolding reserve_slots increment decrement
reserve_slots-tenant l keys d w = ground (
  arith,
  tenant-ensure l PeriodKind.day keys.day_key,
  tenant-ensure (ensure l PeriodKind.day keys.day_key) PeriodKind.week keys.week_key,
)
