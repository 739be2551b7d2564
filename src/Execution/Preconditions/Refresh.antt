-- ===== src/Execution/Preconditions/Refresh.antt =====
-- app/execution/preconditions.py: the check of the caps moves the attempt's slot to the current
-- periods.
use range_apply.Application.Rows.{ApplicationRow, save_attempt}
use range_apply.Common.{
  Bool, Bool-cases, Option, Option-cases, String, arith, false, if◌then◌else◌, inl, inr, is_some,
  leb, none, not, refl, some, true, ℕ, ◌&&◌, ◌+◌, ◌<◌, ◌==◌, ◌∙◌, ◌≡◌, ◌≤◌,
}
use range_apply.Core.Texts.{opt_eq}
use range_apply.Execution.Models.{PreconditionCode}
use range_apply.Execution.Preconditions.{check_caps, is_same_period, refresh_slot, refreshed}
use range_apply.Pipeline.Models.{AdmissionReason}
use range_apply.Pipeline.Policy.{ApplicationPolicy}
use range_apply.Scheduler.Attempts.{AttemptStore, holds_slot}
use range_apply.Scheduler.Attempts.Held.{
  IsConserved, IsStored, holds_in, one_if, resettled, scheduled_holds, usage_of_held,
}
use range_apply.Scheduler.Attempts.Released.{HasPeriods}
use range_apply.Scheduler.Caps.{
  CapLedger, PeriodKeys, PeriodKind, release_slots, reserve_slots, usage,
}
use range_apply.Scheduler.Caps.Ensure.{IsKeyedLedger}
use range_apply.Scheduler.Caps.Release.{
  release_slots-IsKeyedLedger, release_slots-tenant, usage-release_slots,
}
use range_apply.Scheduler.Caps.Reserve.{
  counts_in, reserve_slots-IsKeyedLedger, reserve_slots-reason, reserve_slots-tenant,
  usage-reserve_slots,
}

-- What `_check_caps` leaves behind: the ledger, and the attempt where it stands in the table.
abbrev pub with_checked :
    AttemptStore → CapLedger × ApplicationRow × Option PreconditionCode → AttemptStore
with_checked s r = record s { ledger = r.0; rows = save_attempt r.1 s.rows }

-- An attempt that holds a slot has named periods.
abbrev pub IsPeriodic : ApplicationRow → Type 0
IsPeriodic row = holds_slot row ≡ true → HasPeriods row

-- A property of both branches holds of the test.
pub ifs : {A : Type 0} (P : A → Type 0) (b : Bool) {x y : A} → P x → P y → P (if b then x else y)
ifs P true p q = p
ifs P false p q = q

module _ (s : AttemptStore) (row : ApplicationRow) (policy : ApplicationPolicy) (keys : PeriodKeys)
    (now : ℕ) (c : IsConserved s) (mine : row.tenant_id ≡ some s.tenant_id)
    (stored : IsStored s row) (periodic : IsPeriodic row) where
  abbrev taken : CapLedger
  taken = (reserve_slots s.ledger keys policy.daily_cap policy.weekly_cap).0

  abbrev moved : ApplicationRow
  moved = refreshed row keys now

  taken-IsKeyedLedger : IsKeyedLedger taken
  taken-IsKeyedLedger =
      reserve_slots-IsKeyedLedger s.ledger keys policy.daily_cap policy.weekly_cap c.keyed

  usage-taken :
      (k : PeriodKind) (j : String)
      → usage taken k j ≡ (
          if counts_in keys k j
            && not (is_some (reserve_slots s.ledger keys policy.daily_cap policy.weekly_cap).1)
          then usage s.ledger k j + 1
          else usage s.ledger k j)
  usage-taken = usage-reserve_slots s.ledger keys policy.daily_cap policy.weekly_cap c.keyed

  taken-tenant : taken.tenant_id ≡ s.ledger.tenant_id
  taken-tenant = reserve_slots-tenant s.ledger keys policy.daily_cap policy.weekly_cap

  unchanged : IsConserved (record s { rows = save_attempt row s.rows })
  unchanged = resettled s row c stored s.ledger row refl refl c.keyed (λ k j. refl)

  moved-holds : (k : PeriodKind) (j : String) → holds_in s.tenant_id k j moved ≡ counts_in keys k j
  moved-holds = scheduled_holds s moved keys s.tenant_id mine refl refl refl

  refused_slot :
      (why : AdmissionReason)
      → (reserve_slots s.ledger keys policy.daily_cap policy.weekly_cap).1 ≡ some why
      → IsConserved (record s { ledger = taken; rows = save_attempt row s.rows })
  refused_slot why h =
      resettled s row c stored taken row refl taken-tenant taken-IsKeyedLedger
        (λ k j. let u = usage-taken k j in ground (arith, u, h))

  taken_free :
      (reserve_slots s.ledger keys policy.daily_cap policy.weekly_cap).1 ≡ none
      → holds_slot row ≡ false
      → IsConserved (record s { ledger = taken; rows = save_attempt moved s.rows })
  taken_free h free =
      resettled s row c stored taken moved refl taken-tenant taken-IsKeyedLedger (λ k j.
        let u = usage-taken k j in let m = moved-holds k j in rw m (rw free (ground (arith, u, h))))

  module _ (h : (reserve_slots s.ledger keys policy.daily_cap policy.weekly_cap).1 ≡ none)
      (holds : holds_slot row ≡ true) (named : HasPeriods row) where
    abbrev exchanged : CapLedger
    exchanged = release_slots taken (some named.keys.day_key) (some named.keys.week_key)

    row-holds :
        (k : PeriodKind) (j : String) → holds_in s.tenant_id k j row ≡ counts_in named.keys k j
    row-holds = scheduled_holds s row named.keys s.tenant_id mine holds named.day named.week

    taken_in_use :
        (k : PeriodKind) (j : String) → counts_in named.keys k j ≡ true → 0 < usage taken k j
    taken_in_use k j at_period =
        let u = usage-taken k j in
        let p = usage_of_held s row c stored k j (row-holds k j ∙ at_period) in ground (arith, u, p)

    exchanged_balance :
        (k : PeriodKind) (j : String)
        → usage exchanged k j + one_if (holds_in s.tenant_id k j row)
          ≡ usage s.ledger k j + one_if (holds_in s.tenant_id k j moved)
    exchanged_balance k j =
        let u = usage-taken k j in
        let less =
          usage-release_slots taken named.keys taken-IsKeyedLedger named.day_named named.week_named
            taken_in_use k j in
        let p = taken_in_use k j in
        rw (row-holds k j, moved-holds k j) (ground (arith, u, less, p, h))

    taken_held : IsConserved (record s {
      ledger = release_slots taken row.cap_day row.cap_week;
      rows = save_attempt moved s.rows;
    })
    taken_held =
        rw (named.day, named.week)
          (resettled s row c stored exchanged moved refl
            (release_slots-tenant taken named.keys taken-IsKeyedLedger named.day_named
                named.week_named taken_in_use
              ∙ taken-tenant)
            (release_slots-IsKeyedLedger taken named.keys taken-IsKeyedLedger named.day_named
              named.week_named taken_in_use)
            exchanged_balance)

  refresh_slot-IsConserved :
      IsConserved (with_checked s (refresh_slot policy s.ledger row keys now))
  unfolding refresh_slot
  refresh_slot-IsConserved =
      elim (Option-cases (reserve_slots s.ledger keys policy.daily_cap policy.weekly_cap).1) [
        | inr (why, h) ↦ rw (refresh_slot, h) (refused_slot why h)
        | inl h ↦
            rw (refresh_slot, h)
              (elim (Bool-cases (holds_slot row)) [
                | inl holds ↦ rw holds (taken_held h holds (periodic holds))
                | inr free ↦ rw free (taken_free h free)
              ])
      ]

  -- Whatever the check of the caps does to a stored attempt of the tenant, the ledger still counts
  -- exactly the attempts that hold a slot, if a held slot has named periods.
  pub check_caps-IsConserved :
      (reserve : Bool)
      → IsConserved (with_checked s (check_caps policy s.ledger row keys now reserve))
  unfolding check_caps
  check_caps-IsConserved reserve =
      ifs (λ r. IsConserved (with_checked s r)) (policy.daily_cap == 0) unchanged
        (ifs (λ r. IsConserved (with_checked s r)) (policy.weekly_cap == 0) unchanged
          (ifs (λ r. IsConserved (with_checked s r)) (is_same_period row keys) unchanged
            (ifs (λ r. IsConserved (with_checked s r)) reserve refresh_slot-IsConserved
              (ifs (λ r. IsConserved (with_checked s r))
                (leb policy.daily_cap (usage s.ledger PeriodKind.day keys.day_key)) unchanged
                (ifs (λ r. IsConserved (with_checked s r))
                  (leb policy.weekly_cap (usage s.ledger PeriodKind.week keys.week_key)) unchanged
                  unchanged)))))

  -- An attempt that holds a slot of this week and of another day is refused when its week is full,
  -- its own slot included, although the exchange would leave the week's count as it is.
  pub check_caps-week_full :
      0 < policy.daily_cap
      → 0 < policy.weekly_cap
      → holds_slot row ≡ true
      → opt_eq row.cap_week (some keys.week_key) ≡ true
      → opt_eq row.cap_day (some keys.day_key) ≡ false
      → usage s.ledger PeriodKind.day keys.day_key < policy.daily_cap
      → policy.weekly_cap ≤ usage s.ledger PeriodKind.week keys.week_key
      → (check_caps policy s.ledger row keys now true).2 ≡ some PreconditionCode.weekly_cap_reached
  unfolding check_caps refresh_slot
  check_caps-week_full d w holds week day day_open week_full =
      let r = reserve_slots-reason s.ledger keys policy.daily_cap policy.weekly_cap c.keyed in
      ground (arith, d, w, holds, week, day, day_open, week_full, r)
