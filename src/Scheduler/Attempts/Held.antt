-- ===== src/Scheduler/Attempts/Held.antt =====
-- app/scheduler/attempts.py: the ledger counts exactly the attempts that hold a slot.
use range_apply.Application.Rows.{ApplicationRow, save_attempt}
use range_apply.Common.{
  Bool, Bool-cases, List, Option, String, [], ap, arith, count_of, count_of-member, eq_refl, false,
  find_first, if◌then◌else◌, inl, inr, none, or_else, refl, some, str_eq, true, ℕ, ◌&&◌, ◌+◌, ◌<◌,
  ◌∙◌, ◌∷◌, ◌≡◌,
}
use range_apply.Core.Texts.{opt_eq}
use range_apply.Scheduler.Attempts.{AttemptStore, holds_slot}
use range_apply.Scheduler.Caps.{CapLedger, PeriodKeys, PeriodKind, usage}
use range_apply.Scheduler.Caps.Ensure.{IsKeyedLedger}
use range_apply.Scheduler.Caps.Reserve.{counts_in}

abbrev pub slot_key : PeriodKind → ApplicationRow → Option String
slot_key PeriodKind.day row = row.cap_day
slot_key PeriodKind.week row = row.cap_week

-- The tenant's attempt holds a slot of the period.
abbrev pub holds_in : String → PeriodKind → String → ApplicationRow → Bool
holds_in t k j row =
    holds_slot row && (opt_eq row.tenant_id (some t) && opt_eq (slot_key k row) (some j))

-- How many attempts hold a slot of the period.
unfoldable pub held : AttemptStore → PeriodKind → String → ℕ
held s k j = count_of (holds_in s.tenant_id k j) s.rows

-- The ledger and the attempts agree on every period.
pub record IsConserved (s : AttemptStore) : Type 0 where
  pub same_tenant : s.ledger.tenant_id ≡ s.tenant_id
  pub keyed : IsKeyedLedger s.ledger
  pub counted : (k : PeriodKind) (j : String) → usage s.ledger k j ≡ held s k j

-- The row is the stored one of its key.
abbrev pub IsStored : AttemptStore → ApplicationRow → Type 0
IsStored s row = find_first (λ r. str_eq r.id row.id) s.rows ≡ some row

abbrev pub one_if : Bool → ℕ
one_if b = if b then 1 else 0

-- The write of a row changes a count by the old row and the new one alone.
pub count-save_attempt :
    (p : ApplicationRow → Bool) (row row' : ApplicationRow) (rows : List ApplicationRow)
    → row'.id ≡ row.id
    → find_first (λ r. str_eq r.id row.id) rows ≡ some row
    → count_of p (save_attempt row' rows) + one_if (p row) ≡ count_of p rows + one_if (p row')
unfolding save_attempt
count-save_attempt p row row' [] e h = absurd (ground (arith, h))
count-save_attempt p row row' (r ∷ rs) e h = elim (Bool-cases (str_eq r.id row.id)) [
  | inl mine ↦
      let same : some r ≡ some row = rw mine at h in
      let equal : r ≡ row = ap (λ o. or_else o r) same in
      let near : str_eq r.id row'.id ≡ true = rw e mine in rw near (rw equal (omega arith))
  | inr other ↦
      let rest = count-save_attempt p row row' rs e (rw other at h) in
      let far : str_eq r.id row'.id ≡ false = rw e other in rw far (omega (arith, rest))
]

-- A row that takes the place of the row of its key is found under the key.
pub find_first-save_row :
    (row row' : ApplicationRow) (rows : List ApplicationRow)
    → row'.id ≡ row.id
    → find_first (λ r. str_eq r.id row.id) rows ≡ some row
    → find_first (λ r. str_eq r.id row'.id) (save_attempt row' rows) ≡ some row'
unfolding save_attempt
find_first-save_row row row' [] e h = absurd (ground (arith, h))
find_first-save_row row row' (r ∷ rs) e h = elim (Bool-cases (str_eq r.id row'.id)) [
  | inl mine ↦ rw mine (rw (eq_refl row'.id) refl)
  | inr other ↦
      let far : str_eq r.id row.id ≡ false = rw e at other in
      rw other (rw other (find_first-save_row row row' rs e (rw far at h)))
]

-- An attempt that is to be scheduled: a new one, or a stored one that holds no slot.
abbrev pub IsSchedulable : AttemptStore → Option ApplicationRow → Type 0
IsSchedulable s none = Unit {0}
IsSchedulable s (some row) = (holds_slot row ≡ false) × IsStored s row

module _ (s : AttemptStore) (row : ApplicationRow) (keys : PeriodKeys) (t : String)
    (tenant : row.tenant_id ≡ some t) (holds : holds_slot row ≡ true)
    (day : row.cap_day ≡ some keys.day_key) (week : row.cap_week ≡ some keys.week_key) where
  -- The scheduled row holds a slot of its two periods and of no other.
  pub scheduled_holds : (k : PeriodKind) (j : String) → holds_in t k j row ≡ counts_in keys k j
  scheduled_holds PeriodKind.day j = rw (holds, tenant, day) (rw (eq_refl t) (ground arith))
  scheduled_holds PeriodKind.week j = rw (holds, tenant, week) (rw (eq_refl t) refl)

-- The invariant reads the ledger, the tenant and the rows.
pub IsConserved-of :
    (s s' : AttemptStore)
    → s'.ledger ≡ s.ledger
    → s'.tenant_id ≡ s.tenant_id
    → s'.rows ≡ s.rows
    → IsConserved s
    → IsConserved s'
unfolding held
IsConserved-of s s' l t r c = record {
  same_tenant = rw (l, t) c.same_tenant;
  keyed = rw l c.keyed;
  counted = λ k j. rw (l, t, r) (c.counted k j);
}

module _ (s : AttemptStore) (row : ApplicationRow) (c : IsConserved s)
    (stored : IsStored s row) where
  -- A slot that a stored attempt holds in the period is counted in the ledger.
  pub usage_of_held :
      (k : PeriodKind) (j : String) → holds_in s.tenant_id k j row ≡ true → 0 < usage s.ledger k j
  unfolding held
  usage_of_held k j h =
      rw (c.counted k j)
        (count_of-member (holds_in s.tenant_id k j) (λ r. str_eq r.id row.id) s.rows stored h)

  -- A change of one stored attempt and of the ledger that moves the same slots keeps them in step.
  pub resettled :
      (l' : CapLedger) (row' : ApplicationRow)
      → row'.id ≡ row.id
      → l'.tenant_id ≡ s.ledger.tenant_id
      → IsKeyedLedger l'
      → ((k : PeriodKind) (j : String)
          → usage l' k j + one_if (holds_in s.tenant_id k j row)
            ≡ usage s.ledger k j + one_if (holds_in s.tenant_id k j row'))
      → IsConserved (record s { ledger = l'; rows = save_attempt row' s.rows })
  unfolding held
  resettled l' row' id tenant keyed balance = record {
    same_tenant = tenant ∙ c.same_tenant;
    keyed = keyed;
    counted = λ k j.
        let moved = count-save_attempt (holds_in s.tenant_id k j) row row' s.rows id stored in
        omega (arith, moved, balance k j, c.counted k j);
  }
