-- ===== src/Execution/Gate/Once.antt =====
-- app/execution/service.py: a run's click is authorised once.
use range_apply.Application.Models.{in_submitted}
use range_apply.Application.Rows.{ApplicationRow, save_attempt}
use range_apply.Common.{
  All, Bool, Bool-cases, List, Option, Option-cases, String, [], ap, arith, eq_refl, false,
  find_first, find_first-passes, inl, inr, keep, leb, length, ltb, not, or_else, refl, some, str_eq,
  sym, true, ℕ, ◌&&◌, ◌==◌, ◌∙◌, ◌∷◌, ◌≡◌, ◌⊎◌,
}
use range_apply.Core.Errors.{Result}
use range_apply.Core.Texts.{opt_eq}
use range_apply.Execution.Gate.{ClickReport, gate, gate_check, gate_run, pre_submit_gate}
use range_apply.Execution.Gate.Passing.{gate-cases, gate_run-passed}
use range_apply.Execution.Models.{PreconditionCode, PreconditionReport}
use range_apply.Execution.Preconditions.{
  Situation, check, check_caps, expected_status, has_status, is_same_period, refresh_slot,
  static_failures,
}
use range_apply.Execution.Preconditions.Refresh.{ifs}
use range_apply.Execution.Runs.{
  ExecutionRunRow, ExecutionStore, Surroundings, attempt_for_item, audit, crashed_run, get_attempt,
  is_attempt_at, is_running_of, newest, save_run, situation_of,
}
use range_apply.Pipeline.Policy.{ApplicationPolicy}
use range_apply.Pipeline.Rows.{QueueRow}
use range_apply.Scheduler.Attempts.{Names}
use range_apply.Scheduler.Caps.{CapLedger, PeriodKeys, PeriodKind, reserve_slots, usage}

-- Every running run of the attempt is this one.
abbrev pub IsOnlyRun : ExecutionStore → String → ExecutionRunRow → Type 0
IsOnlyRun s application_id run =
    All (λ r. str_eq r.id run.id ≡ true) (keep (is_running_of s application_id) s.runs)

-- The write of a run reaches every row that the test keeps, if they all have its key.
keep-save_run :
    (p : ExecutionRunRow → Bool) (run' : ExecutionRunRow) (runs : List ExecutionRunRow)
    → run'.submit_invoked ≡ true
    → All (λ r. str_eq r.id run'.id ≡ true) (keep p runs)
    → All (λ r. r.submit_invoked ≡ true) (keep p (save_run run' runs))
unfolding save_run
keep-save_run p run' [] i only = tt
keep-save_run p run' (r ∷ rs) i only = ground (arith, i, only, keep-save_run p run' rs i)

newest-All :
    (runs : List ExecutionRunRow) {run : ExecutionRunRow}
    → All (λ r. r.submit_invoked ≡ true) runs
    → newest runs ≡ some run
    → run.submit_invoked ≡ true
unfolding newest
newest-All [] all h = absurd (ground (arith, h))
newest-All (r ∷ rs) all h = elim (Option-cases (newest rs)) [
  | inl last ↦ ground (arith, h, last, all.0)
  | inr (best, found) ↦ ground (arith, h, found, all.0, newest-All rs all.1 found)
]

-- The attempt that a test finds is found again after a write that keeps its key and the test.
find_first-save_attempt :
    (p : ApplicationRow → Bool) (row row' : ApplicationRow) (rows : List ApplicationRow)
    → row'.id ≡ row.id
    → p row' ≡ true
    → find_first p rows ≡ some row
    → (found : ApplicationRow) × ((find_first p (save_attempt row' rows) ≡ some found)
        × (found.id ≡ row.id))
unfolding save_attempt
find_first-save_attempt p row row' [] e q h = absurd (ground (arith, h))
find_first-save_attempt p row row' (r ∷ rs) e q h = elim (Bool-cases (str_eq r.id row'.id)) [
  | inl mine ↦ (row', (rw mine (rw q refl), e))
  | inr other ↦ elim (Bool-cases (p r)) [
    | inl kept ↦
        let same : r ≡ row = ap (λ o. or_else o r) (rw kept at h) in
        let near : str_eq r.id row'.id ≡ true = rw (same, e) (eq_refl row.id) in
        absurd (ground (arith, other, near))
    | inr passed ↦
        let rest = find_first-save_attempt p row row' rs e q (rw passed at h) in
        (rest.0, (rw other (rw passed rest.1.0), rest.1.1))
  ]
]

-- The item's attempt is the row of its key, and has one running run at most.
abbrev pub IsSole : ExecutionStore → QueueRow → Type 0
IsSole s item =
    (a : ApplicationRow)
    → attempt_for_item s item ≡ Result.ok (some a)
    → (get_attempt s a.id ≡ some a)
      × ((run : ExecutionRunRow) → crashed_run s a ≡ some run → IsOnlyRun s a.id run)

-- The row is of the same attempt, tenant and opening.
abbrev pub IsSameAttempt : ApplicationRow → ApplicationRow → Type 0
IsSameAttempt row row' =
    (row'.id ≡ row.id)
    × (row'.tenant_id ≡ row.tenant_id)
    × (row'.opportunity_id ≡ row.opportunity_id)

module _ (policy : ApplicationPolicy) (ledger : CapLedger) (attempt : ApplicationRow)
    (keys : PeriodKeys) (now : ℕ) where
  abbrev KeepsAttempt : CapLedger × ApplicationRow × Option PreconditionCode → Type 0
  KeepsAttempt r = IsSameAttempt attempt r.1

  refresh_slot-KeepsAttempt : KeepsAttempt (refresh_slot policy ledger attempt keys now)
  unfolding refresh_slot
  refresh_slot-KeepsAttempt =
      elim (Option-cases (reserve_slots ledger keys policy.daily_cap policy.weekly_cap).1) [
        | inr (why, h) ↦ rw (refresh_slot, h) (refl, refl, refl)
        | inl h ↦ rw (refresh_slot, h) (refl, refl, refl)
      ]

  check_caps-KeepsAttempt :
      (again : Bool) → KeepsAttempt (check_caps policy ledger attempt keys now again)
  unfolding check_caps
  check_caps-KeepsAttempt again =
      ifs KeepsAttempt (policy.daily_cap == 0) (refl, refl, refl)
        (ifs KeepsAttempt (policy.weekly_cap == 0) (refl, refl, refl)
          (ifs KeepsAttempt (is_same_period attempt keys) (refl, refl, refl)
            (ifs KeepsAttempt again refresh_slot-KeepsAttempt (
              ifs KeepsAttempt (leb policy.daily_cap (usage ledger PeriodKind.day keys.day_key))
                (refl, refl, refl)
                (ifs KeepsAttempt
                  (leb policy.weekly_cap (usage ledger PeriodKind.week keys.week_key))
                  (refl, refl, refl) (refl, refl, refl))))))

-- The check returns the attempt that it was given, perhaps with another slot.
pub check-IsSameAttempt :
    (names : Names) (lower : String → String) (x : Situation) (l : CapLedger)
    (attempt : ApplicationRow) (again executing : Bool)
    → IsSameAttempt attempt (check names lower x l attempt again executing).1
unfolding check
check-IsSameAttempt names lower x l attempt again executing =
    let P : CapLedger × ApplicationRow × PreconditionReport → Type 0 =
      λ r. IsSameAttempt attempt r.1 in
    ifs P (not (opt_eq attempt.tenant_id (some x.tenant_id))) (refl, refl, refl)
      (ifs P (in_submitted attempt.status && not (has_status (expected_status executing) attempt))
        (refl, refl, refl)
        (ifs P (ltb 0 (length (static_failures names lower x attempt executing))) (refl, refl, refl)
          (check_caps-KeepsAttempt x.policy l attempt x.keys x.now again)))

module _ (names : Names) (lower : String → String) (s : ExecutionStore) (e : Surroundings)
    (item : QueueRow) where
  pre_submit_gate-rows :
      (attempt : ApplicationRow)
      → get_attempt s attempt.id ≡ some attempt
      → ((pre_submit_gate names lower s e attempt.id).0.tenant_id ≡ s.tenant_id)
        × (((pre_submit_gate names lower s e attempt.id).0.attempts.rows ≡ s.attempts.rows)
            ⊎ ((pre_submit_gate names lower s e attempt.id).0.attempts.rows
                ≡ save_attempt (gate_check names lower s e attempt).1 s.attempts.rows))
  unfolding pre_submit_gate
  pre_submit_gate-rows attempt h = elim (Bool-cases (gate_check names lower s e attempt).2.ok) [
    | inl ok ↦ (ground (arith, h, ok), inr (ground (arith, h, ok)))
    | inr not_ok ↦ (ground (arith, h, not_ok), inl (ground (arith, h, not_ok)))
  ]

  gate_run-store :
      (attempt : ApplicationRow) (run : ExecutionRunRow)
      → (gate_run names lower s e item attempt run).1.ok ≡ true
      → ((gate_run names lower s e item attempt run).0.tenant_id
          ≡ (pre_submit_gate names lower s e attempt.id).0.tenant_id)
        × ((gate_run names lower s e item attempt run).0.attempts.rows
            ≡ (pre_submit_gate names lower s e attempt.id).0.attempts.rows)
  unfolding gate_run audit
  gate_run-store attempt run h = ground (arith, h)

  gate_run-invoked :
      (attempt : ApplicationRow) (run : ExecutionRunRow)
      → run.submit_invoked ≡ true
      → (gate_run names lower s e item attempt run).1.ok ≡ false
  unfolding gate_run
  gate_run-invoked attempt run h = ground (arith, h)

  -- After the gate has let a click pass, the item's attempt is the one of before.
  gate_run-attempt :
      (attempt : ApplicationRow) (run : ExecutionRunRow)
      → get_attempt s attempt.id ≡ some attempt
      → attempt_for_item s item ≡ Result.ok (some attempt)
      → (gate_run names lower s e item attempt run).1.ok ≡ true
      → (found : ApplicationRow) × ((find_first
              (is_attempt_at s.tenant_id item.opportunity_id)
              (gate_run names lower s e item attempt run).0.attempts.rows
            ≡ some found)
          × (found.id ≡ attempt.id))
  unfolding attempt_for_item
  gate_run-attempt attempt run stored at_item passed =
      let p = is_attempt_at s.tenant_id item.opportunity_id in
      let rows = gate_run-store attempt run passed in
      let found : find_first p s.attempts.rows ≡ some attempt = ground (arith, at_item) in
      let same =
        check-IsSameAttempt names lower (situation_of s e attempt) s.attempts.ledger attempt true
          true in
      let fits : p attempt ≡ true = find_first-passes p s.attempts.rows found in
      let fits' : p (gate_check names lower s e attempt).1 ≡ true = rw (same.1, same.2) fits in
      elim (pre_submit_gate-rows attempt stored).1 [
        | inl kept ↦ (attempt, (rw (rows.1, kept) found, refl))
        | inr written ↦
            let again =
              find_first-save_attempt p attempt (gate_check names lower s e attempt).1
                s.attempts.rows same.0 fits' found in
            (again.0, (rw (rows.1, written) again.1.0, again.1.1))
      ]

module _ (names : Names) (lower : String → String) where
  -- No click passes on an attempt whose newest running run is invoked already.
  refused_again :
      (s : ExecutionStore) (e : Surroundings) (item : QueueRow) (worker_id : String)
      {s' : ExecutionStore} {report : ClickReport}
      → ((attempt : ApplicationRow) (run : ExecutionRunRow)
          → attempt_for_item s item ≡ Result.ok (some attempt)
          → crashed_run s attempt ≡ some run
          → run.submit_invoked ≡ true)
      → gate names lower s e item worker_id ≡ Result.ok (s', report)
      → report.ok ≡ false
  refused_again s e item worker_id all h =
      let (owned, (attempt, (run, (at_item, latest, same)))) =
        gate-cases names lower s e item worker_id h in
      ap (λ (r : ExecutionStore × ClickReport). r.1.ok) (sym same)
      ∙ gate_run-invoked names lower s e item attempt run (all attempt run at_item latest)

  module _ (s : ExecutionStore) (e : Surroundings) (item : QueueRow) (worker_id : String)
      (sole : IsSole s item) {s' : ExecutionStore} {report : ClickReport}
      (h : gate names lower s e item worker_id ≡ Result.ok (s', report))
      (passed : report.ok ≡ true) where
    invoked_after :
        (item2 : QueueRow)
        → item2.opportunity_id ≡ item.opportunity_id
        → (attempt2 : ApplicationRow) (run2 : ExecutionRunRow)
        → attempt_for_item s' item2 ≡ Result.ok (some attempt2)
        → crashed_run s' attempt2 ≡ some run2
        → run2.submit_invoked ≡ true
    unfolding attempt_for_item crashed_run
    invoked_after item2 o attempt2 run2 at_item2 latest2 =
        let (owned, (attempt, (run, (at_item, latest, same)))) =
          gate-cases names lower s e item worker_id h in
        let own = sole attempt at_item in
        let ok = ap (λ (r : ExecutionStore × ClickReport). r.1.ok) same ∙ passed in
        let store = ap (λ (r : ExecutionStore × ClickReport). r.0) same in
        let found = gate_run-attempt names lower s e item attempt run own.0 at_item ok in
        let tenant : s'.tenant_id ≡ s.tenant_id =
          ap (λ (x : ExecutionStore). x.tenant_id) (sym store)
          ∙ (gate_run-store names lower s e item attempt run ok).0
          ∙ (pre_submit_gate-rows names lower s e item attempt own.0).0 in
        let runs : s'.runs ≡ save_run (record run { submit_invoked = true }) s.runs =
          ap (λ (x : ExecutionStore). x.runs) (sym store)
          ∙ (gate_run-passed names lower s e item worker_id attempt run ok).3 in
        let first : find_first (is_attempt_at s.tenant_id item.opportunity_id) s'.attempts.rows
            ≡ some found.0 =
          ap
            (λ (x : ExecutionStore).
              find_first (is_attempt_at s.tenant_id item.opportunity_id) x.attempts.rows)
            (sym store)
          ∙ found.1.0 in
        let second : find_first (is_attempt_at s'.tenant_id item2.opportunity_id) s'.attempts.rows
            ≡ some attempt2 =
          ground (arith, at_item2) in
        let moved : find_first (is_attempt_at s'.tenant_id item2.opportunity_id) s'.attempts.rows
            ≡ some found.0 =
          rw (tenant, o) first in
        let same_attempt : attempt2 ≡ found.0 = ap (λ r. or_else r attempt2) (sym second ∙ moved) in
        let id : attempt2.id ≡ attempt.id =
          ap (λ (r : ApplicationRow). r.id) same_attempt ∙ found.1.1 in
        newest-All _
          (keep-save_run (is_running_of s attempt.id) (record run { submit_invoked = true }) s.runs
            refl (own.1 run latest))
          (rw (tenant, id, runs) at latest2)

    -- When the gate has let a click pass, a call on the state that it leaves, for an item of the same
    -- opening, does not pass, whoever calls and whatever the surroundings are by then, if the attempt
    -- is the row of its key and the run is its only running one.
    pub gate-once :
        (e2 : Surroundings) (item2 : QueueRow) (worker2 : String) {s2 : ExecutionStore}
        {report2 : ClickReport}
        → item2.opportunity_id ≡ item.opportunity_id
        → gate names lower s' e2 item2 worker2 ≡ Result.ok (s2, report2)
        → report2.ok ≡ false
    gate-once e2 item2 worker2 o h2 = refused_again s' e2 item2 worker2 (invoked_after item2 o) h2
