-- ===== src/Execution/Gate.antt =====
-- app/execution/service.py: the gate in front of the click, `_pre_submit_gate` and `gate`.
pub mod Passing
pub mod Once
use range_apply.Application.KillSwitch.{is_paused}
use range_apply.Application.Rows.{ApplicationRow, save_attempt}
use range_apply.Common.{
  Bool, List, String, [], false, if◌then◌else◌, length, ltb, map, none, some, true, ℕ, ◌++◌, ◌∷◌,
}
use range_apply.Core.Errors.{Result, ServiceError, ◌>>=◌, ◌>>◌}
use range_apply.Core.Texts.{opt_eq}
use range_apply.Execution.Models.{PreconditionCode, PreconditionReport}
use range_apply.Execution.Preconditions.{check}
use range_apply.Execution.Runs.{
  ExecutionRunRow, ExecutionStore, Surroundings, attempt_for_item, audit, crashed_run, get_attempt,
  put_run, situation_of, source_of,
}
use range_apply.Execution.SubmissionMode.{is_live_enabled}
use range_apply.Pipeline.Queue.{assert_owner}
use range_apply.Pipeline.Rows.{QueueRow}
use range_apply.Scheduler.Attempts.{Names}
use range_apply.Scheduler.Caps.{CapLedger}

-- A reason of the gate, without its text
pub data GateFailure : Type 0 where
  vanished safe_mode kill_switch already_invoked lease_expired : GateFailure
  precondition : PreconditionCode → GateFailure

pub record ClickReport : Type 0 where
  pub ok : Bool
  pub failures : List GateFailure

abbrev pub refused_with : GateFailure → ClickReport
refused_with f = record { ok = false; failures = f ∷ [] }

-- The item's lease is over
abbrev pub lease_lapsed : QueueRow → ℕ → Bool
lease_lapsed item now = elim item.lease_expires_at [ none ↦ false | some t ↦ ltb t now ]

module _ (names : Names) (lower : String → String) where
  -- The failures of the two switches
  unfoldable pub switch_failures : ExecutionStore → Surroundings → ApplicationRow → List GateFailure
  switch_failures s e attempt =
      (if is_live_enabled e.modes (some s.tenant_id) then [] else GateFailure.safe_mode ∷ [])
      ++ (if is_paused e.switches (source_of e attempt) then GateFailure.kill_switch ∷ [] else [])

  -- The check that the gate makes, with a reservation
  abbrev pub gate_check :
      ExecutionStore
      → Surroundings
      → ApplicationRow
      → CapLedger × ApplicationRow × PreconditionReport
  gate_check s e attempt =
      check names lower (situation_of s e attempt) s.attempts.ledger attempt true true

  -- `_pre_submit_gate`: a report that is ok is committed whatever the switches say, any other is
  -- rolled back
  unfoldable pub pre_submit_gate :
      ExecutionStore → Surroundings → String → ExecutionStore × List GateFailure
  pre_submit_gate s e application_id = elim (get_attempt s application_id) [
    | none ↦ (s, GateFailure.vanished ∷ [])
    | some attempt ↦
        let (ledger', attempt', report) = gate_check s e attempt in
        let checked : ExecutionStore = record s {
          attempts = record s.attempts {
            ledger = ledger';
            rows = save_attempt attempt' s.attempts.rows;
          };
        } in
        (
          if report.ok then checked else s,
          switch_failures s e attempt ++ map GateFailure.precondition report.failures,
        )
  ]

  -- `gate` from the checks of the run on
  unfoldable pub gate_run :
      ExecutionStore
      → Surroundings
      → QueueRow
      → ApplicationRow
      → ExecutionRunRow
      → ExecutionStore × ClickReport
  gate_run s e item attempt run =
      let (s', failures) = pre_submit_gate s e attempt.id in
      if run.submit_invoked
      then (s, refused_with GateFailure.already_invoked)
      else if lease_lapsed item e.now
      then (audit s attempt "execution:gate_refused", refused_with GateFailure.lease_expired)
      else if ltb 0 (length failures)
      then (audit s' attempt "execution:gate_refused", record { ok = false; failures = failures })
      else (
        audit (put_run s' (record run { submit_invoked = true })) attempt "execution:gate_passed",
        record { ok = true; failures = [] },
      )

  -- `gate`
  unfoldable pub gate :
      ExecutionStore → Surroundings → QueueRow → String → Result (ExecutionStore × ClickReport)
  gate s e item worker_id = do
    assert_owner item worker_id
    found ← attempt_for_item s item
    elim found [
      | none ↦ Result.raise ServiceError.not_found
      | some attempt ↦ elim (crashed_run s attempt) [
        | none ↦ Result.raise ServiceError.conflict
        | some run ↦
            if opt_eq run.queue_item_id (some item.id)
            then Result.ok (gate_run s e item attempt run)
            else Result.raise ServiceError.conflict
      ]
    ]
