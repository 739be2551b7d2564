-- ===== src/Execution/Gate/Passing.antt =====
-- app/execution/service.py: what holds when the gate lets a click pass.
use range_apply.Application.KillSwitch.{is_paused}
use range_apply.Application.Rows.{ApplicationRow}
use range_apply.Common.{
  Bool, List, Option-cases, String, [], ap, arith, false, if◌then◌else◌, inl, inr, leb, length, ltb,
  map, none, refl, some, sym, true, ℕ, ◌++◌, ◌∙◌, ◌∷◌, ◌≡◌,
}
use range_apply.Core.Errors.{Result}
use range_apply.Core.Texts.{opt_eq}
use range_apply.Execution.Gate.{
  ClickReport, GateFailure, gate, gate_check, gate_run, lease_lapsed, pre_submit_gate,
  switch_failures,
}
use range_apply.Execution.Preconditions.{Situation, check, is_same_period}
use range_apply.Execution.Preconditions.Passed.{IsClear, append-nil, check-IsClear, length-nil}
use range_apply.Execution.Runs.{
  ExecutionRunRow, ExecutionStore, Surroundings, attempt_for_item, audit, crashed_run, get_attempt,
  save_run, situation_of, source_of,
}
use range_apply.Execution.SubmissionMode.{is_live_enabled}
use range_apply.Pipeline.Queue.{assert_owner}
use range_apply.Pipeline.Rows.{QueueRow}
use range_apply.Scheduler.Attempts.{Names}
use range_apply.Scheduler.Caps.{CapLedger}

map-nil : {A B : Type 0} (f : A → B) (xs : List A) → map f xs ≡ [] → xs ≡ []
map-nil f [] h = refl
map-nil f (x ∷ xs) h = absurd (ground (arith, h))

if-nil : {A : Type 0} (b : Bool) (x : A) → (if b then [] else x ∷ []) ≡ [] → b ≡ true
if-nil true x h = refl
if-nil false x h = absurd (ground (arith, h))

if-cons : {A : Type 0} (b : Bool) (x : A) → (if b then x ∷ [] else []) ≡ [] → b ≡ false
if-cons true x h = absurd (ground (arith, h))
if-cons false x h = refl

-- The attempt, as it stands in the table, may be submitted now.
pub record IsSubmittable (names : Names) (lower : String → String) (s : ExecutionStore)
    (e : Surroundings) (attempt : ApplicationRow) : Type 0 where
  pub live : is_live_enabled e.modes (some s.tenant_id) ≡ true
  pub not_paused : is_paused e.switches (source_of e attempt) ≡ false
  pub clear : IsClear names lower (situation_of s e attempt) attempt true
  pub in_period :
      is_same_period (gate_check names lower s e attempt).1 (situation_of s e attempt).keys ≡ true

module _ (names : Names) (lower : String → String) (s : ExecutionStore) (e : Surroundings) where
  check-ok :
      (x : Situation) (l : CapLedger) (attempt : ApplicationRow) (reserve executing : Bool)
      → (check names lower x l attempt reserve executing).2.failures ≡ []
      → (check names lower x l attempt reserve executing).2.ok ≡ true
  unfolding check
  check-ok x l attempt reserve executing h = ground (arith, h)

  pre_submit_gate-IsSubmittable :
      (id : String)
      → (pre_submit_gate names lower s e id).1 ≡ []
      → (current : ApplicationRow) × ((get_attempt s id ≡ some current)
          × IsSubmittable names lower s e current)
  unfolding pre_submit_gate switch_failures
  pre_submit_gate-IsSubmittable id h = elim (Option-cases (get_attempt s id)) [
    | inl gone ↦ absurd (ground (arith, h, gone))
    | inr (current, found) ↦
        let report = (gate_check names lower s e current).2 in
        let h' : switch_failures names lower s e current
              ++ map GateFailure.precondition report.failures
            ≡ [] =
          ground (arith, h, found) in
        let a = append-nil (switch_failures names lower s e current) _ h' in
        let b =
          append-nil
            (if is_live_enabled e.modes (some s.tenant_id) then [] else GateFailure.safe_mode ∷ [])
            _ a.0 in
        let p =
          check-IsClear names lower (situation_of s e current) s.attempts.ledger current true true (
            check-ok (situation_of s e current) s.attempts.ledger current true true
              (map-nil GateFailure.precondition report.failures a.1)) in
        (
          current,
          (
            found,
            record {
              live = if-nil _ _ b.0;
              not_paused = if-cons _ _ b.1;
              clear = p.0;
              in_period = p.3;
            },
          ),
        )
  ]

in_time :
    (item : QueueRow) (now : ℕ)
    → lease_lapsed item now ≡ false
    → elim item.lease_expires_at [ none ↦ true | some t ↦ leb now t ] ≡ true
in_time item now h = ground (arith, h)

-- The gate let the worker's click on this run of the attempt pass.
pub record IsPassed (names : Names) (lower : String → String) (s : ExecutionStore)
    (e : Surroundings) (item : QueueRow) (worker_id : String) (s' : ExecutionStore)
    (attempt : ApplicationRow) (run : ExecutionRunRow) : Type 0 where
  pub owned : opt_eq item.claimed_by (some worker_id) ≡ true
  pub of_item : attempt_for_item s item ≡ Result.ok (some attempt)
  pub latest : crashed_run s attempt ≡ some run
  pub first_click : run.submit_invoked ≡ false
  pub in_lease : elim item.lease_expires_at [ none ↦ true | some t ↦ leb e.now t ] ≡ true
  pub submittable :
      (current : ApplicationRow) × ((get_attempt s attempt.id ≡ some current)
        × IsSubmittable names lower s e current)
  pub invoked : s'.runs ≡ save_run (record run { submit_invoked = true }) s.runs

module _ (names : Names) (lower : String → String) (s : ExecutionStore) (e : Surroundings)
    (item : QueueRow) (worker_id : String) where
  pre_submit_gate-runs : (id : String) → (pre_submit_gate names lower s e id).0.runs ≡ s.runs
  unfolding pre_submit_gate
  pre_submit_gate-runs id = ground arith

  pub gate_run-passed :
      (attempt : ApplicationRow) (run : ExecutionRunRow)
      → (gate_run names lower s e item attempt run).1.ok ≡ true
      → (run.submit_invoked ≡ false)
        × (lease_lapsed item e.now ≡ false)
        × (ltb 0 (length (pre_submit_gate names lower s e attempt.id).1) ≡ false)
        × ((gate_run names lower s e item attempt run).0.runs
            ≡ save_run (record run { submit_invoked = true }) s.runs)
  unfolding gate_run audit
  gate_run-passed attempt run h = ground (arith, h, pre_submit_gate-runs attempt.id)

  pub gate-cases :
      {s' : ExecutionStore} {report : ClickReport}
      → gate names lower s e item worker_id ≡ Result.ok (s', report)
      → (opt_eq item.claimed_by (some worker_id) ≡ true)
        × ((attempt : ApplicationRow) × ((run : ExecutionRunRow) × ((attempt_for_item s item
                  ≡ Result.ok (some attempt))
                × (crashed_run s attempt ≡ some run)
                × (gate_run names lower s e item attempt run ≡ (s', report)))))
  unfolding gate assert_owner
  gate-cases h = ground (arith, h)

  -- A click that the gate lets pass is the first one of the attempt's running run, of an item that the
  -- worker owns and whose lease, where it has one, is not over, while the tenant is live, no kill
  -- switch is on and every precondition holds of the attempt as it stands in the table, with a slot
  -- of the current day and week; and the gate has recorded it.
  pub gate-IsPassed :
      {s' : ExecutionStore} {report : ClickReport}
      → gate names lower s e item worker_id ≡ Result.ok (s', report)
      → report.ok ≡ true
      → (attempt : ApplicationRow) × ((run : ExecutionRunRow) × IsPassed names lower s e item
            worker_id s' attempt run)
  gate-IsPassed {s'} {report} h passed =
      let (owned, (attempt, (run, (at_item, latest, same)))) = gate-cases h in
      let p =
        gate_run-passed attempt run
          (ap (λ (r : ExecutionStore × ClickReport). r.1.ok) same ∙ passed) in
      (
        attempt,
        (
          run,
          record {
            owned = owned;
            of_item = at_item;
            latest = latest;
            first_click = p.0;
            in_lease = in_time item e.now p.1;
            submittable =
                pre_submit_gate-IsSubmittable names lower s e attempt.id (length-nil _ p.2);
            invoked = sym (ap (λ (r : ExecutionStore × ClickReport). r.0.runs) same) ∙ p.3;
          },
        ),
      )
