-- ===== src/Execution/Models.antt =====
-- app/execution/models.py: the enumerations of the execution. A message is not modelled.
use range_apply.Common.{Bool, List, String, ℕ}

pub data PreconditionCode : Type 0 where
  attempt_not_ready preparation_missing tenant_mismatch opportunity_mismatch : PreconditionCode
  preparation_not_ready preparation_invalidated preparation_not_current : PreconditionCode
  preparation_stale validation_failed user_input_required opportunity_closed : PreconditionCode
  company_blocked cooldown_active already_submitted duplicate_application : PreconditionCode
  duplicate_opportunity daily_cap_reached weekly_cap_reached slot_released paused : PreconditionCode

-- The place of a member in the enumeration: two members are equal when their places are.
abbrev pub code_place : PreconditionCode → ℕ
code_place PreconditionCode.attempt_not_ready = 0
code_place PreconditionCode.preparation_missing = 1
code_place PreconditionCode.tenant_mismatch = 2
code_place PreconditionCode.opportunity_mismatch = 3
code_place PreconditionCode.preparation_not_ready = 4
code_place PreconditionCode.preparation_invalidated = 5
code_place PreconditionCode.preparation_not_current = 6
code_place PreconditionCode.preparation_stale = 7
code_place PreconditionCode.validation_failed = 8
code_place PreconditionCode.user_input_required = 9
code_place PreconditionCode.opportunity_closed = 10
code_place PreconditionCode.company_blocked = 11
code_place PreconditionCode.cooldown_active = 12
code_place PreconditionCode.already_submitted = 13
code_place PreconditionCode.duplicate_application = 14
code_place PreconditionCode.duplicate_opportunity = 15
code_place PreconditionCode.daily_cap_reached = 16
code_place PreconditionCode.weekly_cap_reached = 17
code_place PreconditionCode.slot_released = 18
code_place PreconditionCode.paused = 19

-- `PreconditionReport`
pub record PreconditionReport : Type 0 where
  pub ok : Bool
  pub failures : List PreconditionCode
  pub stale_inputs : List String

pub data ExecutionOutcome : Type 0 where
  submitted retryable_failure permanent_failure handoff needs_user_input needs_review :
      ExecutionOutcome
  form_changed unknown dry_run : ExecutionOutcome

pub data ExecutionStatus : Type 0 where
  running dry_run submitted verified verification_failed failed_retryable : ExecutionStatus
  failed_permanent handoff needs_user_input needs_review precondition_failed : ExecutionStatus
  stale unknown cancelled : ExecutionStatus

abbrev pub run_place : ExecutionStatus → ℕ
run_place ExecutionStatus.running = 0
run_place ExecutionStatus.dry_run = 1
run_place ExecutionStatus.submitted = 2
run_place ExecutionStatus.verified = 3
run_place ExecutionStatus.verification_failed = 4
run_place ExecutionStatus.failed_retryable = 5
run_place ExecutionStatus.failed_permanent = 6
run_place ExecutionStatus.handoff = 7
run_place ExecutionStatus.needs_user_input = 8
run_place ExecutionStatus.needs_review = 9
run_place ExecutionStatus.precondition_failed = 10
run_place ExecutionStatus.stale = 11
run_place ExecutionStatus.unknown = 12
run_place ExecutionStatus.cancelled = 13

pub data ErrorClass : Type 0 where
  transient_network timeout target_gone form_changed executor_crash browser_crash : ErrorClass
  navigation validation policy unknown : ErrorClass

pub data VerificationStatus : Type 0 where
  not_attempted pending verified likely failed unknown : VerificationStatus
