-- ===== src/Scheduler/Attempts/Conserve.antt =====
-- app/scheduler/attempts.py: `reserve` keeps the ledger and the attempts in step.
use range_apply.Application.Rows.{ApplicationRow, save_attempt}
use range_apply.Common.{
  Bool, Bool-cases, Option, String, [], arith, count_of-append, false, if◌then◌else◌, inl, inr,
  is_some, none, refl, some, true, ℕ, ◌++◌, ◌+◌, ◌∙◌, ◌∷◌, ◌≡◌,
}
use range_apply.Core.Errors.{Result}
use range_apply.Pipeline.Models.{AdmissionReason, Lane, TailoringLevel}
use range_apply.Pipeline.Rows.{CandidateOpportunityRow, OpportunityRow}
use range_apply.Scheduler.Attempts.{
  AttemptStore, commit_attempt, fresh_attempt, holds_slot, log_event, next_attempt, renewed_attempt,
  reserve, scheduled_row, write_scheduled,
}
use range_apply.Scheduler.Attempts.Held.{
  IsConserved, IsSchedulable, IsStored, count-save_attempt, held, holds_in, one_if, scheduled_holds,
}
use range_apply.Scheduler.Caps.{CapLedger, PeriodKeys, PeriodKind, reserve_slots, usage}
use range_apply.Scheduler.Caps.Reserve.{
  reserve_slots-IsKeyedLedger, reserve_slots-tenant, usage-reserve_slots,
}

-- The attempt to be scheduled is a new one, or a stored one.
abbrev pub AreStored : AttemptStore → Option ApplicationRow → Type 0
AreStored s none = Unit {0}
AreStored s (some row) = IsStored s row

-- The slot of the period that the attempt held before
abbrev pub spent : String → Option ApplicationRow → PeriodKind → String → ℕ
spent t none k j = 0
spent t (some old) k j = one_if (holds_in t k j old)

spent_free :
    (s : AttemptStore) (existing : Option ApplicationRow) (k : PeriodKind) (j : String)
    → IsSchedulable s existing
    → spent s.tenant_id existing k j ≡ 0
spent_free s none k j free = refl
spent_free s (some old) k j free = rw free.0 refl

IsSchedulable-stored :
    (s : AttemptStore) (existing : Option ApplicationRow)
    → IsSchedulable s existing
    → AreStored s existing
IsSchedulable-stored s none free = tt
IsSchedulable-stored s (some old) free = free.1

module _ (s : AttemptStore) (row : ApplicationRow) {s' : AttemptStore} where
  write_scheduled-frame :
      (existing : Option ApplicationRow)
      → write_scheduled s existing row ≡ Result.ok s'
      → (s'.ledger ≡ s.ledger) × (s'.tenant_id ≡ s.tenant_id)
  unfolding write_scheduled commit_attempt log_event
  write_scheduled-frame none h = ground arith
  write_scheduled-frame (some old) h = ground arith

  write_scheduled-new : write_scheduled s none row ≡ Result.ok s' → s'.rows ≡ s.rows ++ row ∷ []
  unfolding write_scheduled log_event
  write_scheduled-new h = ground arith

  write_scheduled-old :
      (old : ApplicationRow)
      → write_scheduled s (some old) row ≡ Result.ok s'
      → s'.rows ≡ save_attempt row s.rows
  unfolding write_scheduled commit_attempt log_event
  write_scheduled-old old h = ground arith

  -- A written row adds itself to the counts, and takes the row that it replaces out of them.
  held-write_scheduled :
      (existing : Option ApplicationRow) (k : PeriodKind) (j : String)
      → AreStored s existing
      → ((old : ApplicationRow) → existing ≡ some old → row.id ≡ old.id)
      → write_scheduled s existing row ≡ Result.ok s'
      → held s' k j + spent s.tenant_id existing k j
        ≡ held s k j + one_if (holds_in s.tenant_id k j row)
  unfolding held
  held-write_scheduled none k j stored same h =
      rw ((write_scheduled-frame none h).1, write_scheduled-new h)
        (rw (count_of-append (holds_in s.tenant_id k j) s.rows (row ∷ [])) (omega arith))
  held-write_scheduled (some old) k j stored same h =
      let p = holds_in s.tenant_id k j in
      let c = count-save_attempt p old row s.rows (same old refl) stored in
      rw ((write_scheduled-frame (some old) h).1, write_scheduled-old old h) (omega (arith, c))

module _ (s : AttemptStore) (id : String) (now : ℕ) (co : CandidateOpportunityRow)
    (opportunity : OpportunityRow) (keys : PeriodKeys) (daily_cap weekly_cap : ℕ) (lane : Lane)
    (level : TailoringLevel) (existing : Option ApplicationRow) where
  abbrev next : ApplicationRow
  next = next_attempt s id now co opportunity keys lane level existing

  abbrev ledger_after : CapLedger
  ledger_after = (reserve_slots s.ledger keys daily_cap weekly_cap).0

  abbrev refused : Bool
  refused = is_some (reserve_slots s.ledger keys daily_cap weekly_cap).1

  next-tenant : next.tenant_id ≡ some s.tenant_id
  unfolding next_attempt scheduled_row fresh_attempt renewed_attempt
  next-tenant = ground arith

  next-holds : holds_slot next ≡ true
  unfolding next_attempt scheduled_row fresh_attempt renewed_attempt
  next-holds = ground arith

  next-day : next.cap_day ≡ some keys.day_key
  unfolding next_attempt scheduled_row fresh_attempt renewed_attempt
  next-day = ground arith

  next-week : next.cap_week ≡ some keys.week_key
  unfolding next_attempt scheduled_row fresh_attempt renewed_attempt
  next-week = ground arith

  next-id : (old : ApplicationRow) → existing ≡ some old → next.id ≡ old.id
  unfolding next_attempt scheduled_row fresh_attempt renewed_attempt
  next-id old e = rw e refl

  ledger-tenant : ledger_after.tenant_id ≡ s.ledger.tenant_id
  ledger-tenant = reserve_slots-tenant s.ledger keys daily_cap weekly_cap

  module _ {s' : AttemptStore} {written : Option ApplicationRow} {reason : Option AdmissionReason}
      (run : reserve s id now co opportunity keys daily_cap weekly_cap lane level existing
        ≡ Result.ok (s', written, reason)) where
    reserve-refused : refused ≡ true → s' ≡ record s { ledger = ledger_after }
    unfolding reserve
    reserve-refused h = ground (arith, run)

    reserve-written :
        refused ≡ false
        → write_scheduled (record s { ledger = ledger_after }) existing next ≡ Result.ok s'
    unfolding reserve
    reserve-written h = ground (arith, run)

    counted_refused :
        IsConserved s
        → refused ≡ true
        → (k : PeriodKind) (j : String) → usage ledger_after k j ≡ held s k j
    counted_refused c h k j = ground (
      arith,
      c.counted k j,
      usage-reserve_slots s.ledger keys daily_cap weekly_cap c.keyed k j,
      h,
    )

    counted_written :
        IsConserved s
        → AreStored s existing
        → refused ≡ false
        → (k : PeriodKind) (j : String)
        → usage ledger_after k j ≡ held s' k j + spent s.tenant_id existing k j
    unfolding held
    counted_written c stored h k j =
        let added =
          held-write_scheduled (record s { ledger = ledger_after }) next existing k j stored next-id
            (reserve-written h) in
        let same =
          scheduled_holds s next keys s.tenant_id next-tenant next-holds next-day next-week k j in
        ground (
          arith,
          c.counted k j,
          usage-reserve_slots s.ledger keys daily_cap weekly_cap c.keyed k j,
          h,
          same,
          added,
        )

    -- After a reservation that does not raise, of a new or a stored attempt, on a ledger that counts
    -- exactly the attempts that hold slots, the ledger counts in every period the attempts that hold
    -- a slot in it, and once more the slot that the stored attempt held before and that a granted
    -- reservation has replaced: that one is not given back.
    pub reserve-counts :
        IsConserved s
        → AreStored s existing
        → (k : PeriodKind) (j : String)
        → usage s'.ledger k j
          ≡ held s' k j + (if refused then 0 else spent s.tenant_id existing k j)
    unfolding held
    reserve-counts c stored k j = elim (Bool-cases refused) [
      | inl h ↦ rw h (rw (reserve-refused h) (omega (arith, counted_refused c h k j)))
      | inr h ↦
          let f =
            write_scheduled-frame (record s { ledger = ledger_after }) next existing
              (reserve-written h) in
          rw h (rw f.0 (counted_written c stored h k j))
    ]

    -- A reservation that does not raise, granted or refused, keeps the ledger equal to the attempts that
    -- hold slots, if the attempt is new, or is stored and holds no slot.
    pub reserve-IsConserved : IsConserved s → IsSchedulable s existing → IsConserved s'
    unfolding held
    reserve-IsConserved c free =
        let keyed = reserve_slots-IsKeyedLedger s.ledger keys daily_cap weekly_cap c.keyed in
        elim (Bool-cases refused) [
          | inl h ↦ rw (reserve-refused h) (record {
            same_tenant = ledger-tenant ∙ c.same_tenant;
            keyed = keyed;
            counted = counted_refused c h;
          })
          | inr h ↦
              let f =
                write_scheduled-frame (record s { ledger = ledger_after }) next existing
                  (reserve-written h) in
              record {
                same_tenant = rw (f.0, f.1) (ledger-tenant ∙ c.same_tenant);
                keyed = rw f.0 keyed;
                counted = λ k j.
                    let n = counted_written c (IsSchedulable-stored s existing free) h k j in
                    let z = spent_free s existing k j free in rw f.0 (omega (arith, n, z));
              }
        ]
