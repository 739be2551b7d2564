-- ===== src/Execution/Recovery/Kept.antt =====
-- app/execution/service.py: the runs that one round of the recovery ends.
-- No run of the key is running.
use range_apply.Application.Rows.{ApplicationRow}
use range_apply.Common.{
  Bool, Bool-cases, List, Option, String, [], arith, eq_iff, eq_refl, false, find_first,
  if◌then◌else◌, inl, inr, none, not, refl, some, str_eq, sym, true, ℕ, ◌==◌, ◌∷◌, ◌≡◌,
}
use range_apply.Core.Errors.{Result}
use range_apply.Execution.Models.{
  ErrorClass, ExecutionOutcome, ExecutionStatus, VerificationStatus, run_place,
}
use range_apply.Execution.Recovery.{
  force_attempt, item_of, reclaim_item, recover_early, recover_invoked, review_item,
}
use range_apply.Execution.Recovery.Leases.{
  IsQuiet, IsQuiet-self, item_of-own, reclaim_item-IsQuiet, recover_early-queue,
  recover_invoked-queue, reviewed_queue-IsQuiet,
}
use range_apply.Execution.Recovery.Rows.{orphan_run, recover_early-rows, recover_invoked-rows}
use range_apply.Execution.Runs.{
  ExecutionRunRow, ExecutionStore, audit, finish_run, put_run, save_run,
}
use range_apply.Pipeline.Queue.Outcomes.{needs_review}
use range_apply.Pipeline.Rows.{QueueRow}
use range_apply.Scheduler.Attempts.{transition}

abbrev pub is_done : List ExecutionRunRow → String → Bool
is_done runs id = elim (find_first (λ r. str_eq r.id id) runs) [
  | none ↦ true
  | some run ↦ not (run_place run.status == run_place ExecutionStatus.running)
]

abbrev has_ended : ExecutionRunRow → Bool
has_ended run = not (run_place run.status == run_place ExecutionStatus.running)

-- The write of an ended run ends its key, and no key runs again.
is_done-own :
    (run : ExecutionRunRow) (runs : List ExecutionRunRow)
    → has_ended run ≡ true
    → is_done (save_run run runs) run.id ≡ true
unfolding save_run
is_done-own run [] ended = refl
is_done-own run (r ∷ rs) ended = elim (Bool-cases (str_eq r.id run.id)) [
  | inl mine ↦ ground (arith, mine, eq_refl run.id, ended)
  | inr other ↦ ground (arith, other, is_done-own run rs ended)
]

is_done-kept :
    (run : ExecutionRunRow) (runs : List ExecutionRunRow) (id : String)
    → has_ended run ≡ true
    → is_done runs id ≡ true
    → is_done (save_run run runs) id ≡ true
unfolding save_run
is_done-kept run [] id ended h = refl
is_done-kept run (r ∷ rs) id ended h = elim (Bool-cases (str_eq r.id run.id)) [
  | inl mine ↦
      let e : r.id ≡ run.id = (eq_iff r.id run.id).0 mine in
      elim (Bool-cases (str_eq run.id id)) [
        | inl found ↦ ground (arith, mine, found, ended)
        | inr passed ↦
            let far : str_eq r.id id ≡ false = rw e passed in
            let rest = is_done-kept run rs id ended (ground (arith, h, far)) in
            ground (arith, mine, passed, rest)
      ]
  | inr other ↦ elim (Bool-cases (str_eq r.id id)) [
    | inl found ↦ ground (arith, other, found, h)
    | inr passed ↦
        let rest = is_done-kept run rs id ended (ground (arith, h, passed)) in
        ground (arith, other, passed, rest)
  ]
]

-- The run that a round writes
abbrev pub lost_run : ExecutionRunRow → ℕ → ExecutionRunRow
lost_run run now =
    if run.submit_invoked
    then record (finish_run run ExecutionStatus.unknown (some ExecutionOutcome.unknown)
        (some ErrorClass.executor_crash)
        (some "worker lost after submit was invoked (recovered at startup)") now) {
          verification_status = VerificationStatus.pending;
        }
    else finish_run run ExecutionStatus.failed_retryable (some ExecutionOutcome.retryable_failure)
        (some ErrorClass.executor_crash)
        (some "worker lost before submit (recovered at startup); safe to retry") now

module _ (s : ExecutionStore) (run : ExecutionRunRow) (item : Option QueueRow)
    (attempt : ApplicationRow) (now : ℕ) {s' : ExecutionStore} where
  recover_invoked-runs :
      run.submit_invoked ≡ true
      → recover_invoked s run item attempt now ≡ Result.ok s'
      → s'.runs ≡ save_run (lost_run run now) s.runs
  unfolding recover_invoked force_attempt transition audit review_item needs_review
  recover_invoked-runs clicked h = ground (arith, h, clicked)

  recover_early-runs :
      run.submit_invoked ≡ false
      → recover_early s run item attempt now ≡ Result.ok s'
      → s'.runs ≡ save_run (lost_run run now) s.runs
  unfolding recover_early force_attempt transition audit reclaim_item
  recover_early-runs early h = ground (arith, h, early)

lost_run-ended :
    (run : ExecutionRunRow) (now : ℕ)
    → (has_ended (lost_run run now) ≡ true) × ((lost_run run now).id ≡ run.id)
unfolding finish_run
lost_run-ended run now = (ground arith, ground arith)

-- What one round leaves as it was, and what it settles of its own run.
pub record IsRound (s s' : ExecutionStore) (run : ExecutionRunRow) : Type 0 where
  pub tenant_id : s'.tenant_id ≡ s.tenant_id
  pub quiet : IsQuiet s.queue s'.queue
  pub kept : (id : String) → is_done s.runs id ≡ true → is_done s'.runs id ≡ true
  pub done : is_done s'.runs run.id ≡ true

saved-IsRound :
    (s s' : ExecutionStore) (run run' : ExecutionRunRow)
    → has_ended run' ≡ true
    → run'.id ≡ run.id
    → s'.tenant_id ≡ s.tenant_id
    → IsQuiet s.queue s'.queue
    → s'.runs ≡ save_run run' s.runs
    → IsRound s s' run
saved-IsRound s s' run run' ended same t quiet runs = record {
  tenant_id = t;
  quiet = quiet;
  kept = λ id h. rw runs (is_done-kept run' s.runs id ended h);
  done = rw (runs, sym same) (is_done-own run' s.runs ended);
}

module _ (s : ExecutionStore) (run : ExecutionRunRow) (attempt : ApplicationRow) (now : ℕ)
    {s' : ExecutionStore} where
  pub recover_invoked-IsRound :
      run.submit_invoked ≡ true
      → recover_invoked s run (item_of s run) attempt now ≡ Result.ok s'
      → IsRound s s' run
  recover_invoked-IsRound clicked h =
      let ended = lost_run-ended run now in
      saved-IsRound s s' run (lost_run run now) ended.0 ended.1
        (recover_invoked-rows s run (item_of s run) attempt now h).0
        (rw (recover_invoked-queue s run attempt now (item_of s run) h)
          (reviewed_queue-IsQuiet s.queue (item_of s run) s.actor _ (λ i e. item_of-own s run e)))
        (recover_invoked-runs s run (item_of s run) attempt now clicked h)

  pub recover_early-IsRound :
      run.submit_invoked ≡ false
      → recover_early s run (item_of s run) attempt now ≡ Result.ok s'
      → IsRound s s' run
  recover_early-IsRound early h =
      let ended = lost_run-ended run now in
      saved-IsRound s s' run (lost_run run now) ended.0 ended.1
        (recover_early-rows s run (item_of s run) attempt now h).0
        (rw (recover_early-queue s run attempt now (item_of s run) h)
          (reclaim_item-IsQuiet s (item_of s run) now (λ i e. item_of-own s run e)))
        (recover_early-runs s run (item_of s run) attempt now early h)

pub orphan-IsRound :
    (s : ExecutionStore) (run : ExecutionRunRow) (now : ℕ)
    → IsRound s (put_run s (orphan_run run now)) run
unfolding finish_run
orphan-IsRound s run now =
    saved-IsRound s _ run (orphan_run run now) refl refl refl (IsQuiet-self s.queue) refl
