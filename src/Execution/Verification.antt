-- ===== src/Execution/Verification.antt =====
-- app/execution/service.py: `_apply_verification`. The signals and the events of the candidate's row
-- are left out.
pub mod Decided
pub mod Confirm
use Prim.Native.String
use range_apply.Application.Models.{ApplicationStatus}
use range_apply.Application.Rows.{ApplicationRow}
use range_apply.Common.{
  Bool, List, Option, String, [], false, find_first, if◌then◌else◌, none, or_else, some, str_eq, ℕ,
  ◌==◌, ◌∷◌,
}
use range_apply.Core.Errors.{Result, ◌>>=◌, ◌>>◌}
use range_apply.Core.Texts.{clip_or_none, is_text, take_chars, text_or}
use range_apply.Execution.Models.{ExecutionStatus, VerificationStatus, run_place}
use range_apply.Execution.Preconditions.{has_status}
use range_apply.Execution.Recovery.{force_attempt, review_item}
use range_apply.Execution.Runs.{
  ExecutionRunRow, ExecutionStore, audit, finish_run, names_row, put_attempt, put_run,
}
use range_apply.Pipeline.Models.{OpportunityState, QueueState, queue_place, state_place}
use range_apply.Pipeline.Queue.Outcomes.{resolve}
use range_apply.Pipeline.Repository.{moved_row}
use range_apply.Pipeline.Rows.{CandidateOpportunityRow, JsonObject, QueueRow}
use range_apply.Scheduler.Attempts.{transition}

-- `VerificationResult`; the method is its value
pub record VerificationResult : Type 0 where
  pub status : VerificationStatus
  pub method : String
  pub detail : Option String
  pub external_application_id : Option String
  pub confirmation_reference : Option String
  pub application_url : Option String

-- `self.attempts.transition(attempt, …)` without `force`, of a row that the caller may have changed
unfoldable pub step_attempt :
    ExecutionStore
    → ApplicationRow
    → ApplicationStatus
    → String
    → Result (ExecutionStore × ApplicationRow)
step_attempt s row status reason = do
  moved ← transition (put_attempt s row).attempts row status (some reason) false
  Result.ok (record s { attempts = moved.0 }, moved.1)

-- The write of the candidate's row
unfoldable pub save_candidate :
    CandidateOpportunityRow → List CandidateOpportunityRow → List CandidateOpportunityRow
save_candidate row [] = []
save_candidate row (r ∷ rs) = if str_eq r.id row.id then row ∷ rs else r ∷ save_candidate row rs

-- `_move_candidate`: what the guard refuses is forced
unfoldable pub move_candidate :
    ExecutionStore → ApplicationRow → OpportunityState → String → ℕ → ExecutionStore
move_candidate s attempt state reason now =
    elim (find_first (λ c. names_row attempt.candidate_opportunity_id c.id) s.queue.candidates) [
      | none ↦ s
      | some co ↦
          let row : CandidateOpportunityRow =
            if state_place co.state == state_place state
            then co
            else moved_row co state now (some reason) in
          record s { queue = record s.queue { candidates = save_candidate row s.queue.candidates } }
    ]

-- The columns that a verification fills
abbrev pub filled : Option String → Option String → Option String
filled new old = if is_text new then new else old

abbrev pub verified_run : ExecutionRunRow → VerificationResult → ExecutionRunRow
verified_run run v = record run {
  verification_status = v.status;
  verification_method = some v.method;
  verification_detail = clip_or_none 512 v.detail;
  external_application_id = filled v.external_application_id run.external_application_id;
  confirmation_reference = filled v.confirmation_reference run.confirmation_reference;
  application_url = filled v.application_url run.application_url;
}

abbrev pub verified_attempt : ApplicationRow → VerificationResult → ApplicationRow
verified_attempt attempt v = record attempt {
  external_application_id = filled v.external_application_id attempt.external_application_id;
  confirmation = filled v.confirmation_reference attempt.confirmation;
  result_url = filled v.application_url attempt.result_url;
}

-- The item is resolved, unless it has succeeded
unfoldable pub resolve_item :
    ExecutionStore → Option QueueRow → JsonObject → Option String → ℕ → Result ExecutionStore
resolve_item s none result reason now = Result.ok s
resolve_item s (some item) result reason now =
    if queue_place item.state == queue_place QueueState.succeeded
    then Result.ok s
    else (resolve s.queue item s.actor now (some result) reason >>= λ r.
        Result.ok (record s { queue = r.0 }))

abbrev pub first_submitted : ApplicationRow → ℕ → ApplicationRow
first_submitted row now = record row { submitted_at = some (or_else row.submitted_at now) }

-- An attempt that is not SUBMITTED yet is made so first
unfoldable pub mark_sent :
    ExecutionStore → ApplicationRow → ℕ → Result (ExecutionStore × ApplicationRow)
mark_sent s attempt now =
    if has_status ApplicationStatus.submitted attempt
    then Result.ok (s, attempt)
    else (force_attempt s attempt ApplicationStatus.submitted "verified" >>= λ r.
        Result.ok (r.0, first_submitted r.1 now))

-- An attempt that is not VERIFIED yet is made so
unfoldable pub mark_verified :
    ExecutionStore
    → ApplicationRow
    → VerificationResult
    → ℕ
    → Result (ExecutionStore × ApplicationRow)
mark_verified s attempt v now = do
  sent ← mark_sent s attempt now
  r ←
      step_attempt sent.0 sent.1 ApplicationStatus.verified
        (text_or (or_else v.detail "") "verified")
  let row : ApplicationRow = record r.1 { verified_at = some now }
  Result.ok (move_candidate (put_attempt r.0 row) row OpportunityState.verified "verified" now, row)

-- A verification that is VERIFIED
unfoldable pub apply_verified :
    ExecutionStore
    → ExecutionRunRow
    → ApplicationRow
    → VerificationResult
    → Option QueueRow
    → ℕ
    → Result (ExecutionStore × ApplicationRow)
apply_verified s run attempt v item now =
    let s1 = put_run s (finish_run run ExecutionStatus.verified none none none now) in
    do
      after ←
          if has_status ApplicationStatus.verified attempt
          then Result.ok (s1, attempt)
          else mark_verified s1 attempt v now
      s2 ←
          resolve_item after.0 item (("outcome", "VERIFIED") ∷ ("run_id", run.id) ∷ [])
            (some "verified after an uncertain submit") now
      Result.ok (audit s2 after.1 "execution:verified", after.1)

-- A verification that is LIKELY
unfoldable pub apply_likely :
    ExecutionStore
    → ExecutionRunRow
    → ApplicationRow
    → VerificationResult
    → Option QueueRow
    → ℕ
    → Result (ExecutionStore × ApplicationRow)
apply_likely s run attempt v item now =
    let s1 = put_run s (finish_run run ExecutionStatus.submitted none none none now) in
    let moved : Result (ExecutionStore × ApplicationRow) = do
      r ←
          step_attempt s1 attempt ApplicationStatus.submitted
            (text_or (or_else v.detail "") "likely submitted")
      let row = first_submitted r.1 now
      s2 ←
          resolve_item
            (move_candidate (put_attempt r.0 row) row OpportunityState.submitted "likely submitted"
              now)
            item (("outcome", "LIKELY_SUBMITTED") ∷ ("run_id", run.id) ∷ []) none now
      Result.ok (s2, row)
    in do
      after ←
          if has_status ApplicationStatus.uncertain attempt then moved else Result.ok (s1, attempt)
      Result.ok (audit after.0 after.1 "execution:likely_submitted", after.1)

-- A verification that is FAILED
unfoldable pub apply_failed :
    ExecutionStore
    → ExecutionRunRow
    → ApplicationRow
    → VerificationResult
    → Option QueueRow
    → ℕ
    → Result (ExecutionStore × ApplicationRow)
apply_failed s run attempt v item now =
    let s1 = put_run s (finish_run run ExecutionStatus.verification_failed none none none now) in
    do
      after ←
          if has_status ApplicationStatus.needs_review attempt
          then Result.ok (s1, attempt)
          else force_attempt s1 attempt ApplicationStatus.needs_review
              (take_chars 256 (String.◌++◌ "verification failed: " (or_else v.detail "")))
      s2 ← review_item after.0 item "verification failed; a person must decide whether to retry"
      Result.ok (audit s2 after.1 "execution:verification_failed", after.1)

-- A verification that decides nothing
unfoldable pub apply_unknown :
    ExecutionStore
    → ExecutionRunRow
    → ApplicationRow
    → VerificationResult
    → Result (ExecutionStore × ApplicationRow)
apply_unknown s run attempt v =
    let pending : Bool = elim v.status [
      | VerificationStatus.unknown ↦ run_place run.status == run_place ExecutionStatus.unknown
      | _ ↦ false
    ] in
    let run' : ExecutionRunRow = record run {
      verification_status = if pending then VerificationStatus.pending else v.status;
    } in
    Result.ok (audit (put_run s run') attempt "execution:verification_unknown", attempt)

-- The branches of `_apply_verification`
unfoldable pub apply_as :
    VerificationStatus
    → ExecutionStore
    → ExecutionRunRow
    → ApplicationRow
    → VerificationResult
    → Option QueueRow
    → ℕ
    → Result (ExecutionStore × ApplicationRow)
apply_as VerificationStatus.verified s run attempt v item now =
    apply_verified s run attempt v item now
apply_as VerificationStatus.likely s run attempt v item now = apply_likely s run attempt v item now
apply_as VerificationStatus.failed s run attempt v item now = apply_failed s run attempt v item now
apply_as _ s run attempt v item now = apply_unknown s run attempt v

-- `_apply_verification`
unfoldable pub apply_verification :
    ExecutionStore
    → ExecutionRunRow
    → ApplicationRow
    → VerificationResult
    → Option QueueRow
    → ℕ
    → Result (ExecutionStore × ApplicationRow)
apply_verification s run attempt v item now =
    let run' = verified_run run v in
    let attempt' = verified_attempt attempt v in
    apply_as v.status (put_attempt (put_run s run') attempt') run' attempt' v item now
