-- ===== src/Scheduler/Caps/Ensure.antt =====
-- app/scheduler/caps.py: `_ensure` changes no usage and keeps the table's constraint.
use range_apply.Common.{
  Bool-cases, Option-cases, String, [], arith, count_of, count_of-append, count_of-find_none,
  eq_refl, find_first, find_first-append, find_first-append_some, inl, inr, is_some, none, refl,
  some, true, ◌++◌, ◌∷◌, ◌≡◌, ◌≤◌, ◌⊎◌,
}
use range_apply.Scheduler.Caps.{
  CapLedger, LedgerRow, PeriodKind, ensure, get_entry, is_period, usage,
}
use range_apply.Scheduler.Caps.Entries.{IsKeyed, same_is_equal, same_period, used}

abbrev pub IsKeyedLedger : CapLedger → Type 0
IsKeyedLedger l = IsKeyed l.tenant_id l.entries

-- The row of the period is there.
abbrev pub HasEntry : CapLedger → PeriodKind → String → Type 0
HasEntry l k j = is_some (get_entry l k j) ≡ true

abbrev empty_entry : String → PeriodKind → String → LedgerRow
empty_entry t k j = record {
  tenant_id = t;
  period_kind = k;
  period_key = j;
  reserved = 0;
  released = 0;
}

module _ (l : CapLedger) (k : PeriodKind) (j : String) where
  pub tenant-ensure : (ensure l k j).tenant_id ≡ l.tenant_id
  unfolding ensure
  tenant-ensure = ground arith

  -- Either the row was there, or one with no slots is appended.
  ensure-cases :
      ((ensure l k j ≡ l) × HasEntry l k j)
      ⊎ ((find_first (is_period l.tenant_id k j) l.entries ≡ none)
          × (ensure l k j ≡ record l { entries = l.entries ++ empty_entry l.tenant_id k j ∷ [] }))
  unfolding ensure get_entry
  ensure-cases = ground arith

  used_appended :
      (k' : PeriodKind) (j' : String)
      → used
          (find_first (is_period l.tenant_id k' j') (l.entries ++ empty_entry l.tenant_id k j ∷ []))
        ≡ used (find_first (is_period l.tenant_id k' j') l.entries)
  used_appended k' j' = elim (Option-cases (find_first (is_period l.tenant_id k' j') l.entries)) [
    | inl e ↦
        rw
          (find_first-append (is_period l.tenant_id k' j') l.entries
            (empty_entry l.tenant_id k j ∷ []) e)
          (ground (arith, e))
    | inr (r, e) ↦
        rw
          (find_first-append_some (is_period l.tenant_id k' j') l.entries
            (empty_entry l.tenant_id k j ∷ []) e)
          (rw e)
  ]

  pub usage-ensure : (k' : PeriodKind) (j' : String) → usage (ensure l k j) k' j' ≡ usage l k' j'
  unfolding usage
  usage-ensure k' j' = elim ensure-cases [
    | inl (e, has) ↦ rw e
    | inr (free, e) ↦ ground (arith, e, used_appended k' j')
  ]

  pub ensure-HasEntry : HasEntry (ensure l k j) k j
  unfolding get_entry
  ensure-HasEntry = elim ensure-cases [
    | inl (e, has) ↦ rw e has
    | inr (free, e) ↦ rw e (
        rw
          (find_first-append (is_period l.tenant_id k j) l.entries
            (empty_entry l.tenant_id k j ∷ []) free)
          (ground (arith, eq_refl l.tenant_id, eq_refl j)))
  ]

  pub ensure-HasEntry_other :
      (k' : PeriodKind) (j' : String) → HasEntry l k' j' → HasEntry (ensure l k j) k' j'
  unfolding get_entry
  ensure-HasEntry_other k' j' has = elim ensure-cases [
    | inl (e, mine) ↦ rw e has
    | inr (free, e) ↦ elim (Option-cases (find_first (is_period l.tenant_id k' j') l.entries)) [
      | inl missing ↦ absurd (ground (arith, missing))
      | inr (r, found) ↦ rw e (
          rw
            (find_first-append_some (is_period l.tenant_id k' j') l.entries
              (empty_entry l.tenant_id k j ∷ []) found)
            refl)
    ]
  ]

  count_appended :
      (k' : PeriodKind) (j' : String)
      → find_first (is_period l.tenant_id k j) l.entries ≡ none
      → count_of (is_period l.tenant_id k' j') l.entries ≤ 1
      → count_of (is_period l.tenant_id k' j') (l.entries ++ empty_entry l.tenant_id k j ∷ []) ≤ 1
  count_appended k' j' free c =
      rw
        (count_of-append (is_period l.tenant_id k' j') l.entries (empty_entry l.tenant_id k j ∷ []))
        (elim (Bool-cases (same_period k j k' j')) [
          | inl same ↦
              let (ek, ej) = same_is_equal k k' j j' same in
              let zero_there = count_of-find_none (is_period l.tenant_id k j) l.entries free in
              let zero_here : count_of (is_period l.tenant_id k' j') l.entries ≡ 0 =
                rw (ek, ej) at zero_there in
              rw zero_here (ground arith)
          | inr other ↦ ground (arith, other, c)
        ])

  balanced_appended :
      (k' : PeriodKind) (j' : String) (r : LedgerRow)
      → ((r' : LedgerRow)
          → find_first (is_period l.tenant_id k' j') l.entries ≡ some r'
          → r'.released ≤ r'.reserved)
      → find_first (is_period l.tenant_id k' j') (l.entries ++ empty_entry l.tenant_id k j ∷ [])
        ≡ some r
      → r.released ≤ r.reserved
  balanced_appended k' j' r b h =
      elim (Option-cases (find_first (is_period l.tenant_id k' j') l.entries)) [
        | inl e ↦
            let h' =
              rw
                (find_first-append (is_period l.tenant_id k' j') l.entries
                  (empty_entry l.tenant_id k j ∷ []) e)
                at h in
            ground (arith, h')
        | inr (r', e) ↦
            let h' =
              rw
                (find_first-append_some (is_period l.tenant_id k' j') l.entries
                  (empty_entry l.tenant_id k j ∷ []) e)
                at h in
            ground (arith, h', b r' e)
      ]

  pub ensure-IsKeyedLedger : IsKeyedLedger l → IsKeyedLedger (ensure l k j)
  ensure-IsKeyedLedger keyed = elim ensure-cases [
    | inl (e, mine) ↦ rw e keyed
    | inr (free, e) ↦ rw e (record {
      at_period = λ k' j'. count_appended k' j' free (keyed.at_period k' j');
      balanced = λ k' j' r. balanced_appended k' j' r (keyed.balanced k' j');
    })
  ]
