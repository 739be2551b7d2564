-- ===== src/Scheduler/Caps/Entries.antt =====
-- app/scheduler/caps.py: the updates of one period, on the rows of the table.
use mathlib.Core.Option
use range_apply.Common.{
  Bool, Bool-cases, List, Option, Option-cases, String, [], arith, count_of, eq_iff, false,
  find_first, if◌then◌else◌, inl, inr, none, refl, some, str_eq, sym, true, ℕ, ◌&&◌, ◌-◌, ◌==◌, ◌∙◌,
  ◌∷◌, ◌≡◌, ◌≤◌,
}
use range_apply.Scheduler.Caps.{LedgerRow, PeriodKind, is_period, kind_place, update_period}

abbrev pub used : Option LedgerRow → ℕ
used none = 0
used (some row) = row.reserved - row.released

-- The table's unique constraint on tenant, kind and key, and that nothing is released twice.
pub record IsKeyed (t : String) (es : List LedgerRow) : Type 0 where
  pub at_period : (k : PeriodKind) (j : String) → count_of (is_period t k j) es ≤ 1
  pub balanced :
      (k : PeriodKind) (j : String) (r : LedgerRow)
      → find_first (is_period t k j) es ≡ some r
      → r.released ≤ r.reserved

-- Whether two periods are one.
abbrev pub same_period : PeriodKind → String → PeriodKind → String → Bool
same_period k j k' j' = (kind_place k == kind_place k') && str_eq j j'

-- A change that leaves the period of a row as it is.
pub record KeepsPeriod (change : LedgerRow → LedgerRow) : Type 0 where
  pub keeps :
      (t : String) (k : PeriodKind) (j : String) (r : LedgerRow)
      → is_period t k j (change r) ≡ is_period t k j r

other_period :
    (t : String) (k k' : PeriodKind) (j j' : String) (r : LedgerRow)
    → same_period k j k' j' ≡ false
    → is_period t k j r ≡ true
    → is_period t k' j' r ≡ false
other_period t k k' j j' r d h =
    ground (arith, eq_iff r.period_key j, eq_iff r.period_key j', eq_iff j j')

pub same_is_equal :
    (k k' : PeriodKind) (j j' : String) → same_period k j k' j' ≡ true → (k ≡ k') × (j ≡ j')
same_is_equal PeriodKind.day PeriodKind.day j j' h = (refl, (eq_iff j j').0 h)
same_is_equal PeriodKind.week PeriodKind.week j j' h = (refl, (eq_iff j j').0 h)
same_is_equal PeriodKind.day PeriodKind.week j j' h = absurd (ground arith)
same_is_equal PeriodKind.week PeriodKind.day j j' h = absurd (ground arith)

module _ (t : String) (k : PeriodKind) (j : String) (test : LedgerRow → Bool)
    (change : LedgerRow → LedgerRow) (keeps : KeepsPeriod change) where
  update_none :
      (es : List LedgerRow)
      → count_of (is_period t k j) es ≡ 0
      → update_period t k j test change es ≡ (es, 0)
  unfolding update_period
  update_none [] h = refl
  update_none (r ∷ es) h = ground (arith, update_none es)

  -- Another period reads what it read.
  pub find-update_other :
      (es : List LedgerRow) (k' : PeriodKind) (j' : String)
      → same_period k j k' j' ≡ false
      → find_first (is_period t k' j') (update_period t k j test change es).0
        ≡ find_first (is_period t k' j') es
  unfolding update_period
  find-update_other [] k' j' d = refl
  find-update_other (r ∷ es) k' j' d =
      ground
        (arith, find-update_other es k' j' d, other_period t k k' j j' r d, keeps.keeps t k' j' r)

  -- The row of the period is changed if it passes the test, and is the only one hit.
  pub find-update_self :
      (es : List LedgerRow)
      → count_of (is_period t k j) es ≤ 1
      → (find_first (is_period t k j) (update_period t k j test change es).0
          ≡ Option.map (λ r. if test r then change r else r) (find_first (is_period t k j) es))
        × ((update_period t k j test change es).1 ≡ elim (find_first (is_period t k j) es) [
          | none ↦ 0
          | some r ↦ if test r then 1 else 0
        ])
  unfolding update_period
  find-update_self [] h = (refl, refl)
  find-update_self (r ∷ es) h = elim (Bool-cases (is_period t k j r)) [
    | inl mine ↦
        let none_left : count_of (is_period t k j) es ≡ 0 = omega (arith, (rw mine at h)) in
        ground (arith, mine, update_none es none_left, keeps.keeps t k j r)
    | inr other ↦ ground (arith, other, find-update_self es (ground (arith, h, other)))
  ]

  -- The constraint stays.
  pub count-update :
      (es : List LedgerRow) (k' : PeriodKind) (j' : String)
      → count_of (is_period t k' j') (update_period t k j test change es).0
        ≡ count_of (is_period t k' j') es
  unfolding update_period
  count-update [] k' j' = refl
  count-update (r ∷ es) k' j' = ground (arith, count-update es k' j', keeps.keeps t k' j' r)

-- What a period reads after an update, in one equation.
module _ (t : String) (k : PeriodKind) (j : String) (test : LedgerRow → Bool)
    (change : LedgerRow → LedgerRow) (keeps : KeepsPeriod change) (es : List LedgerRow)
    (keyed : IsKeyed t es) where
  pub find-update :
      (k' : PeriodKind) (j' : String)
      → find_first (is_period t k' j') (update_period t k j test change es).0
        ≡ Option.map
            (λ r. if same_period k j k' j' && test r then change r else r)
            (find_first (is_period t k' j') es)
  find-update k' j' = elim (Bool-cases (same_period k j k' j')) [
    | inl same ↦
        let (ek, ej) = same_is_equal k k' j j' same in
        rw same
          (rw (← ek, ← ej) (find-update_self t k j test change keeps es (keyed.at_period k j)).0)
    | inr other ↦ rw other (
        find-update_other t k j test change keeps es k' j' other
        ∙ sym (map_self (find_first (is_period t k' j') es)))
  ]
    where
      map_self : (o : Option LedgerRow) → Option.map (λ r. r) o ≡ o
      map_self none = refl
      map_self (some r) = refl

  module _
      (fair : (r : LedgerRow)
        → find_first (is_period t k j) es ≡ some r
        → test r ≡ true
        → (change r).released ≤ (change r).reserved) where
    balanced_update :
        (k' : PeriodKind) (j' : String) (r r' : LedgerRow)
        → find_first (is_period t k' j') es ≡ some r'
        → find_first (is_period t k' j') (update_period t k j test change es).0 ≡ some r
        → r.released ≤ r.reserved
    balanced_update k' j' r r' found h = elim (Bool-cases (same_period k j k' j')) [
      | inl same ↦
          let (ek, ej) = same_is_equal k k' j j' same in
          let mine : find_first (is_period t k j) es ≡ some r' = rw (ek, ej) found in
          ground
            (arith, found, h, same, find-update k' j', fair r' mine, keyed.balanced k' j' r' found)
      | inr other ↦
          ground (arith, found, h, other, find-update k' j', keyed.balanced k' j' r' found)
    ]

    -- The update keeps the table well formed, if it keeps each row that it changes balanced.
    pub update-IsKeyed : IsKeyed t (update_period t k j test change es).0
    update-IsKeyed = record {
      at_period =
          λ k' j'. rw (count-update t k j test change keeps es k' j') (keyed.at_period k' j');
      balanced = λ k' j' r h. elim (Option-cases (find_first (is_period t k' j') es)) [
        | inl missing ↦ absurd (ground (arith, h, missing, find-update k' j'))
        | inr (r', found) ↦ balanced_update k' j' r r' found h
      ];
    }
