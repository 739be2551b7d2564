-- ===== src/Execution/Recovery/Lost.antt =====
-- app/execution/service.py: what the recovery makes of the attempts.
use range_apply.Application.Models.{ApplicationStatus}
use range_apply.Application.Rows.{ApplicationRow}
use range_apply.Common.{
  All, Bool, Bool-cases, List, Option, Option-cases, String, [], ap, arith, false, inl, inr, keep,
  none, not, or_else, refl, some, str_eq, sym, true, ℕ, ◌&&◌, ◌==◌, ◌||◌, ◌∙◌, ◌∷◌, ◌≡◌, ◌⊎◌,
}
use range_apply.Core.Errors.{Result, bind-ok}
use range_apply.Execution.Models.{ExecutionStatus, run_place}
use range_apply.Execution.Preconditions.{has_status}
use range_apply.Execution.Recovery.{
  Recovery, is_live, item_of, recover_early, recover_invoked, recover_lost_runs, recover_run,
  recover_runs,
}
use range_apply.Execution.Recovery.Kept.{
  is_done, orphan-IsRound, recover_early-IsRound, recover_invoked-IsRound,
}
use range_apply.Execution.Recovery.Leases.{IsQuiet, IsQuiet-self, IsQuiet-trans, item_of-lease}
use range_apply.Execution.Recovery.Rows.{
  IsDoubtful, doubt_saved, orphan_run, ready_saved, recover_early-rows, recover_invoked-rows,
  recover_run-cases, unmoved,
}
use range_apply.Execution.Runs.{ExecutionRunRow, ExecutionStore, get_attempt, put_run}
use range_apply.Execution.SubmissionMode.{live}

module _ (s s' : ExecutionStore) (t : s'.tenant_id ≡ s.tenant_id) where
  recover_invoked-doubt :
      (run : ExecutionRunRow) (attempt : ApplicationRow) (now : ℕ)
      → get_attempt s run.application_id ≡ some attempt
      → recover_invoked s run (item_of s run) attempt now ≡ Result.ok s'
      → IsDoubtful s' run.application_id × ((id : String) → IsDoubtful s id → IsDoubtful s' id)
  recover_invoked-doubt run attempt now found h =
      let rows = (recover_invoked-rows s run (item_of s run) attempt now h).1 in
      elim (Bool-cases (has_status ApplicationStatus.uncertain attempt)) [
        | inr certain ↦ doubt_saved s s' t run attempt found (rw certain at rows)
        | inl known ↦
            let kept = unmoved s s' t (rw known at rows) in
            (
              kept run.application_id
                  (λ a g. let e = ap (λ o. or_else o a) (sym found ∙ g) in rw (sym e) known),
              kept,
            )
      ]

  recover_early-doubt :
      (run : ExecutionRunRow) (attempt : ApplicationRow) (now : ℕ)
      → get_attempt s run.application_id ≡ some attempt
      → recover_early s run (item_of s run) attempt now ≡ Result.ok s'
      → (id : String) → IsDoubtful s id
      → IsDoubtful s' id
  recover_early-doubt run attempt now found h =
      let rows = (recover_early-rows s run (item_of s run) attempt now h).1 in
      elim (Bool-cases (has_status ApplicationStatus.submitting attempt)) [
        | inl pressed ↦ ready_saved s s' t run attempt found pressed (rw pressed at rows)
        | inr other ↦ unmoved s s' t (rw other at rows)
      ]

-- What is known of the tables after some rounds: the keys that were uncertain, done or idle still are.
record IsLater (s s' : ExecutionStore) : Type 0 where
  quiet : IsQuiet s.queue s'.queue
  done : (id : String) → is_done s.runs id ≡ true → is_done s'.runs id ≡ true
  doubt : (id : String) → IsDoubtful s id → IsDoubtful s' id

-- What is known of a run after its round: its item's lease is live, or it has ended, and the attempt is
-- uncertain where it was clicked.
record IsSettled (s : ExecutionStore) (now : ℕ) (s' : ExecutionStore) (run : ExecutionRunRow)
    : Type 0 where
  done : (is_live (item_of s run) now || is_done s'.runs run.id) ≡ true
  doubt :
      (is_live (item_of s run) now ≡ true)
      ⊎ ((run.submit_invoked ≡ false) ⊎ IsDoubtful s' run.application_id)

recover_run-round :
    (s : ExecutionStore) (run : ExecutionRunRow) (now : ℕ) {s' : ExecutionStore} {kind : Recovery}
    → recover_run s run now ≡ Result.ok (s', kind)
    → IsLater s s' × IsSettled s now s' run
recover_run-round s run now {s'} h = elim (recover_run-cases s run now h) [
  | inl (live, same) ↦ rw same (
    record { quiet = IsQuiet-self s.queue; done = λ id d. d; doubt = λ id d. d },
    record { done = ground (arith, live); doubt = inl live },
  )
  | inr (inl (gone, same)) ↦
      let round = orphan-IsRound s run now in
      let kept = unmoved s (put_run s (orphan_run run now)) refl refl in
      rw same (
        record { quiet = round.quiet; done = round.kept; doubt = kept },
        record {
          done = ground (arith, round.done);
          doubt =
              inr (inr (kept run.application_id (λ a found. absurd (ground (arith, gone, found)))));
        },
      )
  | inr (inr (attempt, (found, inl (clicked, run')))) ↦
      let round = recover_invoked-IsRound s run attempt now clicked run' in
      let d = recover_invoked-doubt s s' round.tenant_id run attempt now found run' in
      (
        record { quiet = round.quiet; done = round.kept; doubt = d.1 },
        record { done = ground (arith, round.done); doubt = inr (inr d.0) },
      )
  | inr (inr (attempt, (found, inr (early, run')))) ↦
      let round = recover_early-IsRound s run attempt now early run' in
      (
        record {
          quiet = round.quiet;
          done = round.kept;
          doubt = recover_early-doubt s s' round.tenant_id run attempt now found run';
        },
        record { done = ground (arith, round.done); doubt = inr (inl early) },
      )
]

-- No attempt stands in the table, or it is uncertain.
unfoldable pub is_uncertain : Option ApplicationRow → Bool
is_uncertain none = true
is_uncertain (some a) = has_status ApplicationStatus.uncertain a

is_uncertain-of :
    (s : ExecutionStore) (id : String) → IsDoubtful s id → is_uncertain (get_attempt s id) ≡ true
unfolding is_uncertain
is_uncertain-of s id d = elim (Option-cases (get_attempt s id)) [
  | inl gone ↦ rw gone refl
  | inr (a, found) ↦ rw found (d a found)
]

recover_runs-split :
    (s : ExecutionStore) (run : ExecutionRunRow) (runs : List ExecutionRunRow) (now : ℕ)
    {s' : ExecutionStore} {kinds : List Recovery}
    → recover_runs s (run ∷ runs) now ≡ Result.ok (s', kinds)
    → (s1 : ExecutionStore) × ((kind : Recovery) × ((rest : List Recovery) × ((recover_run s run now
              ≡ Result.ok (s1, kind))
            × (recover_runs s1 runs now ≡ Result.ok (s', rest))
            × (kinds ≡ kind ∷ rest))))
unfolding recover_runs
recover_runs-split s run runs now {s'} {kinds} h =
    let first = bind-ok (recover_run s run now) _ h in
    let then_rest = bind-ok (recover_runs first.0.0 runs now) _ first.1.1 in
    (
      first.0.0,
      (
        first.0.1,
        (
          then_rest.0.1,
          (first.1.0, ground (arith, then_rest.1.0, then_rest.1.1), ground (arith, then_rest.1.1)),
        ),
      ),
    )

IsSettled-later :
    (s s1 s' : ExecutionStore) (now : ℕ) (run : ExecutionRunRow)
    → IsLater s1 s'
    → IsSettled s now s1 run
    → IsSettled s now s' run
IsSettled-later s s1 s' now run later settled = record {
  done = ground (arith, settled.done, later.done run.id);
  doubt = elim settled.doubt [
    | inl live ↦ inl live
    | inr (inl early) ↦ inr (inl early)
    | inr (inr doubt) ↦ inr (inr (later.doubt run.application_id doubt))
  ];
}

IsSettled-earlier :
    (s s1 s' : ExecutionStore) (now : ℕ) (run : ExecutionRunRow)
    → IsLater s s1
    → IsSettled s1 now s' run
    → IsSettled s now s' run
IsSettled-earlier s s1 s' now run later settled = record {
  done = ground (arith, settled.done, item_of-lease s s1 run now later.quiet);
  doubt = elim settled.doubt [
    | inl live ↦ inl (item_of-lease s s1 run now later.quiet live)
    | inr rest ↦ inr rest
  ];
}

All-earlier :
    (s s1 s' : ExecutionStore) (now : ℕ) (runs : List ExecutionRunRow)
    → IsLater s s1
    → All (IsSettled s1 now s') runs
    → All (IsSettled s now s') runs
All-earlier s s1 s' now [] later all = tt
All-earlier s s1 s' now (run ∷ runs) later all =
    (IsSettled-earlier s s1 s' now run later all.0, All-earlier s s1 s' now runs later all.1)

recover_runs-IsSettled :
    (s : ExecutionStore) (runs : List ExecutionRunRow) (now : ℕ) {s' : ExecutionStore}
    {kinds : List Recovery}
    → recover_runs s runs now ≡ Result.ok (s', kinds)
    → IsLater s s' × All (IsSettled s now s') runs
unfolding recover_runs
recover_runs-IsSettled s [] now {s'} {kinds} h =
    let e : s' ≡ s = ground (arith, h) in
    rw e (record { quiet = IsQuiet-self s.queue; done = λ id d. d; doubt = λ id d. d }, tt)
recover_runs-IsSettled s (run ∷ runs) now {s'} {kinds} h =
    let (s1, (kind, (rest, (first, then_rest, e)))) = recover_runs-split s run runs now h in
    let r = recover_run-round s run now first in
    let ih = recover_runs-IsSettled s1 runs now then_rest in
    (
      record {
        quiet = IsQuiet-trans r.0.quiet ih.0.quiet;
        done = λ id d. ih.0.done id (r.0.done id d);
        doubt = λ id d. ih.0.doubt id (r.0.doubt id d);
      },
      (IsSettled-later s s1 s' now run ih.0 r.1, All-earlier s s1 s' now runs r.0 ih.1),
    )

-- The runs that the recovery looks at
abbrev pub running_runs : ExecutionStore → List ExecutionRunRow
running_runs s =
    keep
      (λ r.
        str_eq r.tenant_id s.tenant_id && (run_place r.status == run_place ExecutionStatus.running))
      s.runs

-- The item's lease was live, or the run was not clicked, or its attempt is uncertain in the end.
abbrev pub is_accounted : ExecutionStore → ℕ → ExecutionStore → ExecutionRunRow → Bool
is_accounted s now s' run =
    is_live (item_of s run) now
    || (not run.submit_invoked || is_uncertain (get_attempt s' run.application_id))

is_accounted-of :
    (s : ExecutionStore) (now : ℕ) (s' : ExecutionStore) (run : ExecutionRunRow)
    → IsSettled s now s' run
    → is_accounted s now s' run ≡ true
is_accounted-of s now s' run settled = elim settled.doubt [
  | inl live ↦ ground (arith, live)
  | inr (inl early) ↦ ground (arith, early)
  | inr (inr doubt) ↦ ground (arith, is_uncertain-of s' run.application_id doubt)
]

All-map :
    (P Q : ExecutionRunRow → Type 0) (runs : List ExecutionRunRow)
    → ((run : ExecutionRunRow) → P run → Q run)
    → All P runs
    → All Q runs
All-map P Q [] f all = tt
All-map P Q (run ∷ runs) f all = (f run all.0, All-map P Q runs f all.1)

-- After the recovery the attempt of every running run of the tenant whose click had been recorded and
-- whose item had no live lease is uncertain, if it stands in the table at all: no other round of the
-- same recovery makes it ready.
pub recover_lost_runs-uncertain :
    (s : ExecutionStore) (now : ℕ) {s' : ExecutionStore} {kinds : List Recovery}
    → recover_lost_runs s now ≡ Result.ok (s', kinds)
    → All (λ run. is_accounted s now s' run ≡ true) (running_runs s)
unfolding recover_lost_runs
recover_lost_runs-uncertain s now {s'} h =
    All-map (IsSettled s now s') (λ run. is_accounted s now s' run ≡ true) (running_runs s)
      (is_accounted-of s now s') (recover_runs-IsSettled s _ now h).1

pub recover_lost_runs-done :
    (s : ExecutionStore) (now : ℕ) {s' : ExecutionStore} {kinds : List Recovery}
    → recover_lost_runs s now ≡ Result.ok (s', kinds)
    → All (λ run. (is_live (item_of s run) now || is_done s'.runs run.id) ≡ true) (running_runs s)
unfolding recover_lost_runs
recover_lost_runs-done s now {s'} h =
    All-map (IsSettled s now s')
      (λ run. (is_live (item_of s run) now || is_done s'.runs run.id) ≡ true) (running_runs s)
      (λ run settled. settled.done) (recover_runs-IsSettled s _ now h).1
