-- ===== src/Execution/Recovery/Returns.antt =====
-- app/execution/service.py: the recovery never raises, and ends every lost run.
use range_apply.Application.Rows.{ApplicationRow}
use range_apply.Common.{
  All, List, Option, Option-cases, [], arith, inl, inr, refl, true, ℕ, ◌||◌, ◌∷◌, ◌≡◌,
}
use range_apply.Core.Errors.{Result, chain_is_ok, is_ok}
use range_apply.Execution.Recovery.{
  Recovery, force_attempt, is_live, item_of, recover_early, recover_invoked, recover_lost_runs,
  recover_run, recover_runs, review_item,
}
use range_apply.Execution.Recovery.Kept.{is_done}
use range_apply.Execution.Recovery.Lost.{recover_lost_runs-done, running_runs}
use range_apply.Execution.Runs.{ExecutionRunRow, ExecutionStore, get_attempt}
use range_apply.Pipeline.Queue.Outcomes.{needs_review}
use range_apply.Pipeline.Rows.{QueueRow}
use range_apply.Scheduler.Attempts.{transition}

recover_invoked-returns :
    (s : ExecutionStore) (run : ExecutionRunRow) (item : Option QueueRow) (attempt : ApplicationRow)
    (now : ℕ)
    → is_ok (recover_invoked s run item attempt now) ≡ true
unfolding recover_invoked force_attempt transition review_item needs_review
recover_invoked-returns s run item attempt now = ground arith

recover_early-returns :
    (s : ExecutionStore) (run : ExecutionRunRow) (item : Option QueueRow) (attempt : ApplicationRow)
    (now : ℕ)
    → is_ok (recover_early s run item attempt now) ≡ true
unfolding recover_early force_attempt transition
recover_early-returns s run item attempt now = ground arith

recover_run-returns :
    (s : ExecutionStore) (run : ExecutionRunRow) (now : ℕ) → is_ok (recover_run s run now) ≡ true
unfolding recover_run
recover_run-returns s run now = elim (Option-cases (get_attempt s run.application_id)) [
  | inl gone ↦ ground (arith, gone)
  | inr (attempt, found) ↦ ground (
    arith,
    found,
    recover_invoked-returns s run (item_of s run) attempt now,
    recover_early-returns s run (item_of s run) attempt now,
  )
]

recover_runs-returns :
    (s : ExecutionStore) (runs : List ExecutionRunRow) (now : ℕ)
    → is_ok (recover_runs s runs now) ≡ true
unfolding recover_runs
recover_runs-returns s [] now = refl
recover_runs-returns s (run ∷ runs) now =
    chain_is_ok (recover_run s run now) _ (recover_run-returns s run now) (λ first.
      chain_is_ok (recover_runs first.0 runs now) _ (recover_runs-returns first.0 runs now)
        (λ rest. refl))

result_of : {A : Type 0} (m : Result A) → is_ok m ≡ true → (a : A) × (m ≡ Result.ok a)
result_of (Result.ok a) h = (a, refl)
result_of (Result.raise e) h = absurd (ground (arith, h))

recover_lost_runs-returns : (s : ExecutionStore) (now : ℕ) → is_ok (recover_lost_runs s now) ≡ true
unfolding recover_lost_runs
recover_lost_runs-returns s now = recover_runs-returns s _ now

-- The recovery never raises, whatever stands in the tables, and after it every run of the tenant that
-- was running, and whose item had no live lease, has ended.
pub recover_lost_runs-ends :
    (s : ExecutionStore) (now : ℕ)
    → (r : ExecutionStore × List Recovery) × ((recover_lost_runs s now ≡ Result.ok (r.0, r.1))
        × All
            (λ run. (is_live (item_of s run) now || is_done r.0.runs run.id) ≡ true)
            (running_runs s))
recover_lost_runs-ends s now =
    let (r, h) = result_of (recover_lost_runs s now) (recover_lost_runs-returns s now) in
    (r, (h, recover_lost_runs-done s now h))
