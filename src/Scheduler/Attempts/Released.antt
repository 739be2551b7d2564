-- ===== src/Scheduler/Attempts/Released.antt =====
-- app/scheduler/attempts.py: `release` gives back exactly the slots that the attempt held.
use range_apply.Application.Models.{ApplicationStatus, attempt_place}
use range_apply.Application.Rows.{ApplicationRow, save_attempt}
use range_apply.Common.{
  Bool-cases, String, arith, false, inl, inr, refl, some, str_eq, true, ℕ, ◌+◌, ◌<◌, ◌==◌, ◌∙◌, ◌≡◌,
  ◌⊎◌,
}
use range_apply.Core.Texts.{clip}
use range_apply.Scheduler.Attempts.{
  AttemptStore, commit_attempt, holds_slot, log_event, release_attempt,
}
use range_apply.Scheduler.Attempts.Held.{
  IsConserved, IsConserved-of, IsStored, holds_in, one_if, resettled, scheduled_holds,
  usage_of_held,
}
use range_apply.Scheduler.Caps.{CapLedger, PeriodKeys, PeriodKind, release_slots, usage}
use range_apply.Scheduler.Caps.Release.{
  release_slots-IsKeyedLedger, release_slots-tenant, usage-release_slots,
}
use range_apply.Scheduler.Caps.Reserve.{counts_in}

-- The attempt's two periods have keys, as `reserve` writes them.
pub record HasPeriods (row : ApplicationRow) : Type 0 where
  pub tenant : String
  pub keys : PeriodKeys
  pub is_tenant : row.tenant_id ≡ some tenant
  pub day : row.cap_day ≡ some keys.day_key
  pub week : row.cap_week ≡ some keys.week_key
  pub day_named : str_eq keys.day_key "" ≡ false
  pub week_named : str_eq keys.week_key "" ≡ false

module _ (s : AttemptStore) (row : ApplicationRow) (status : ApplicationStatus) (reason : String)
    (now : ℕ) (c : IsConserved s) (keyed : HasPeriods row) (mine : row.tenant_id ≡ some s.tenant_id)
    (stored : IsStored s row) where
  abbrev given : CapLedger
  given = release_slots s.ledger (some keyed.keys.day_key) (some keyed.keys.week_key)

  abbrev freed_row : ApplicationRow
  freed_row = record row {
    status = status;
    status_reason = some (clip 256 (some reason));
    released_at = some now;
  }

  abbrev ended_row : ApplicationRow
  ended_row = record row { status = status; status_reason = some (clip 256 (some reason)) }

  abbrev ended : AttemptStore
  ended = (release_attempt s row status reason now).0

  release_slots-row : release_slots s.ledger row.cap_day row.cap_week ≡ given
  release_slots-row = rw (keyed.day, keyed.week) refl

  release_attempt-held :
      holds_slot row ≡ true
      → (ended.ledger ≡ given)
        × (ended.tenant_id ≡ s.tenant_id)
        × (ended.rows ≡ save_attempt freed_row s.rows)
  unfolding release_attempt commit_attempt log_event
  release_attempt-held h = ground (arith, h, release_slots-row)

  release_attempt-free :
      holds_slot row ≡ false
      → (ended.ledger ≡ s.ledger)
        × (ended.tenant_id ≡ s.tenant_id)
        × ((ended.rows ≡ s.rows) ⊎ (ended.rows ≡ save_attempt ended_row s.rows))
  unfolding release_attempt commit_attempt log_event
  release_attempt-free h = elim (Bool-cases (attempt_place row.status == attempt_place status)) [
    | inl same ↦ (ground (arith, h, same), ground (arith, h, same), inl (ground (arith, h, same)))
    | inr other ↦
        (ground (arith, h, other), ground (arith, h, other), inr (ground (arith, h, other)))
  ]

  holds_in-row :
      holds_slot row ≡ true
      → (k : PeriodKind) (j : String) → holds_in s.tenant_id k j row ≡ counts_in keyed.keys k j
  holds_in-row h = scheduled_holds s row keyed.keys s.tenant_id mine h keyed.day keyed.week

  in_use :
      holds_slot row ≡ true
      → (k : PeriodKind) (j : String) → counts_in keyed.keys k j ≡ true
      → 0 < usage s.ledger k j
  in_use h k j at_period = usage_of_held s row c stored k j (holds_in-row h k j ∙ at_period)

  given_balance :
      holds_slot row ≡ true
      → (k : PeriodKind) (j : String)
      → usage given k j + one_if (holds_in s.tenant_id k j row)
        ≡ usage s.ledger k j + one_if (holds_in s.tenant_id k j freed_row)
  given_balance h k j =
      let less =
        usage-release_slots s.ledger keyed.keys c.keyed keyed.day_named keyed.week_named (in_use h)
          k j in
      rw (holds_in-row h k j) (ground (arith, less, in_use h k j))

  unmoved :
      (k : PeriodKind) (j : String)
      → usage s.ledger k j + one_if (holds_in s.tenant_id k j row)
        ≡ usage s.ledger k j + one_if (holds_in s.tenant_id k j ended_row)
  unmoved PeriodKind.day j = refl
  unmoved PeriodKind.week j = refl

  -- A release of a stored attempt of the tenant, with its two periods named, keeps the ledger equal to
  -- the attempts that hold slots, whether it held one or not.
  pub release_attempt-IsConserved : IsConserved ended
  release_attempt-IsConserved = elim (Bool-cases (holds_slot row)) [
    | inl h ↦
        let f = release_attempt-held h in
        IsConserved-of (record s { ledger = given; rows = save_attempt freed_row s.rows }) ended f.0
          f.1 f.2
          (resettled s row c stored given freed_row refl
            (release_slots-tenant s.ledger keyed.keys c.keyed keyed.day_named keyed.week_named
              (in_use h))
            (release_slots-IsKeyedLedger s.ledger keyed.keys c.keyed keyed.day_named
              keyed.week_named (in_use h))
            (given_balance h))
    | inr h ↦
        let f = release_attempt-free h in
        elim f.2 [
          | inl same ↦ IsConserved-of s ended f.0 f.1 same c
          | inr written ↦
              IsConserved-of (record s { rows = save_attempt ended_row s.rows }) ended f.0 f.1
                written (resettled s row c stored s.ledger ended_row refl refl c.keyed unmoved)
        ]
  ]
