-- ===== src/Execution/Start/Guard.antt =====
-- app/execution/service.py: what holds when a run starts.
use range_apply.Application.KillSwitch.{is_paused}
use range_apply.Application.Models.{ApplicationStatus}
use range_apply.Application.Rows.{ApplicationRow, save_attempt}
use range_apply.Common.{
  Bool, Bool-cases, Option, Option-cases, String, arith, false, inl, inr, length, ltb, none, not,
  some, sym, true, ℕ, ◌&&◌, ◌||◌, ◌∙◌, ◌≡◌, ◌⊎◌,
}
use range_apply.Core.Errors.{Result, bind-ok, ◌>>=◌}
use range_apply.Execution.Models.{PreconditionReport}
use range_apply.Execution.Preconditions.{check, has_status, is_same_period}
use range_apply.Execution.Preconditions.Passed.{IsClear, check-IsClear}
use range_apply.Execution.Runs.{
  ExecutionRunRow, ExecutionStore, Surroundings, attempt_for_item, crashed_run, situation_of,
  source_of,
}
use range_apply.Execution.Settle.{handoff, on_queue, stop_attempt}
use range_apply.Execution.Start.{Offer, StartOutcome, Started, may_take, take_attempt, take_row}
use range_apply.Execution.Start.Entry.{
  begin_item, doubt_earlier, reclaim_attempt, start_attempt, start_checked, start_item,
  start_offered, start_ready, stop_documents, wait_switch,
}
use range_apply.Execution.Start.Runs.{
  IsCurrent, IsCurrent-id, IsCurrent-unmoved, IsNewRun, check-id, reclaim_attempt-IsCurrent,
  take_attempt-IsNewRun,
}
use range_apply.Pipeline.Queue.Outcomes.{fail, release}
use range_apply.Pipeline.Rows.{QueueRow}
use range_apply.Scheduler.Attempts.{Names}
use range_apply.Scheduler.Caps.{CapLedger}

-- No running run of the attempt may have pressed submit.
abbrev pub may_reclaim : Option ExecutionRunRow → Bool
may_reclaim none = true
may_reclaim (some run) = not run.submit_invoked

take_attempt-started :
    (before : ExecutionStore) (claimed : QueueRow) (s : ExecutionStore) (item : QueueRow)
    (worker_id : String) (attempt : ApplicationRow) (o : Offer) (now : ℕ) {r : Started}
    → take_attempt before claimed s item worker_id attempt o now ≡ Result.ok r
    → r.outcome ≡ StartOutcome.started
    → may_take (o.raced attempt) ≡ true
unfolding take_attempt take_row on_queue release
take_attempt-started before claimed s item worker_id attempt o now h started =
    ground (arith, h, started)

module _ (names : Names) (lower : String → String) (e : Surroundings) (o : Offer)
    (before : ExecutionStore) (claimed : QueueRow) (worker_id : String) where
  start_offered-started :
      (s : ExecutionStore) (item : QueueRow) (attempt : ApplicationRow) {r : Started}
      → start_offered names lower e o before claimed worker_id s item attempt ≡ Result.ok r
      → r.outcome ≡ StartOutcome.started
      → (o.is_registered ≡ true)
        × (ltb 0 (length o.document_problems) ≡ false)
        × (o.can_handle ≡ true)
        × (take_attempt before claimed s item worker_id attempt o e.now ≡ Result.ok r)
  unfolding start_offered stop_documents on_queue release stop_attempt handoff
  start_offered-started s item attempt h started = ground (arith, h, started)

  -- What the check of `start` returns
  abbrev pub start_check :
      ExecutionStore → ApplicationRow → CapLedger × ApplicationRow × PreconditionReport
  start_check s attempt =
      check names lower (situation_of s e attempt) s.attempts.ledger attempt true false

  abbrev checked_store : ExecutionStore → ApplicationRow → ExecutionStore
  checked_store s attempt = record s {
    attempts = record s.attempts {
      ledger = (start_check s attempt).0;
      rows = save_attempt (start_check s attempt).1 s.attempts.rows;
    };
  }

  start_checked-started :
      (s : ExecutionStore) (item : QueueRow) (attempt : ApplicationRow) {r : Started}
      → start_checked names lower e o before claimed worker_id s item attempt ≡ Result.ok r
      → r.outcome ≡ StartOutcome.started
      → ((start_check s attempt).2.ok ≡ true)
        × (start_offered names lower e o before claimed worker_id
              (checked_store s attempt)
              item
              (start_check s attempt).1
            ≡ Result.ok r)
  unfolding start_checked
  start_checked-started s item attempt h started = ground (arith, h, started)

  start_ready-started :
      (s : ExecutionStore) (item : QueueRow) (attempt : ApplicationRow) {r : Started}
      → start_ready names lower e o before claimed worker_id s item attempt ≡ Result.ok r
      → r.outcome ≡ StartOutcome.started
      → (has_status ApplicationStatus.ready attempt ≡ true)
        × (is_paused e.switches (source_of e attempt) ≡ false)
        × (start_checked names lower e o before claimed worker_id s item attempt ≡ Result.ok r)
  unfolding start_ready wait_switch
  start_ready-started s item attempt h started = ground (arith, h, started)

  -- Where the attempt stood before, and as what it reaches the status check
  abbrev Reached : ExecutionStore → QueueRow → ApplicationRow → Started → Type 0
  Reached s item attempt r =
      ((has_status ApplicationStatus.ready attempt ≡ true)
        × (start_ready names lower e o before claimed worker_id s item attempt ≡ Result.ok r))
      ⊎ ((has_status ApplicationStatus.submitting attempt ≡ true)
          × (may_reclaim (crashed_run s attempt) ≡ true)
          × ((again : ExecutionStore × ApplicationRow) × ((reclaim_attempt names lower e o before
                    claimed worker_id s attempt (crashed_run s attempt)
                  ≡ Result.ok again)
                × (start_ready names lower e o before claimed worker_id again.0 item again.1
                    ≡ Result.ok r))))

  start_attempt-started :
      (s : ExecutionStore) (item : QueueRow) (attempt : ApplicationRow) {r : Started}
      → start_attempt names lower e o before claimed worker_id s item attempt ≡ Result.ok r
      → r.outcome ≡ StartOutcome.started
      → Reached s item attempt r
  unfolding start_attempt doubt_earlier
  start_attempt-started s item attempt {r} h started =
      elim (Bool-cases (has_status ApplicationStatus.submitting attempt)) [
        | inr other ↦
            let go : start_ready names lower e o before claimed worker_id s item attempt
                ≡ Result.ok r =
              ground (arith, h, started, other) in
            inl ((start_ready-started s item attempt go started).0, go)
        | inl pressed ↦
            let free : may_reclaim (crashed_run s attempt) ≡ true =
              ground (arith, h, started, pressed) in
            let run : (reclaim_attempt names lower e o before claimed worker_id s attempt
                    (crashed_run s attempt)
                  >>= λ again.
                      start_ready names lower e o before claimed worker_id again.0 item again.1)
                ≡ Result.ok r =
              ground (arith, h, pressed, free) in
            inr (pressed, free, bind-ok _ _ run)
      ]

-- What held of the item's attempt when the run started; `current` is the attempt, and the tables, at
-- the checks.
pub record IsEntered (names : Names) (lower : String → String) (e : Surroundings) (o : Offer)
    (s : ExecutionStore) (item : QueueRow) (worker_id : String) (attempt : ApplicationRow)
    (begun : ExecutionStore × QueueRow) (current : ExecutionStore × ApplicationRow) (r : Started)
    : Type 0 where
  pub of_item : attempt_for_item s item ≡ Result.ok (some attempt)
  pub owned : begin_item s item worker_id ≡ Result.ok begun
  pub not_sent :
      (has_status ApplicationStatus.ready attempt
        || (has_status ApplicationStatus.submitting attempt
            && may_reclaim (crashed_run begun.0 attempt)))
      ≡ true
  pub at_checks : IsCurrent begun.0 attempt current
  pub not_paused : is_paused e.switches (source_of e current.1) ≡ false
  pub clear : IsClear names lower (situation_of current.0 e current.1) current.1 false
  pub in_period :
      is_same_period
        (check names lower
          (situation_of current.0 e current.1)
          current.0.attempts.ledger
          current.1
          true
          false).1
        (situation_of current.0 e current.1).keys
      ≡ true
  pub documents : ltb 0 (length o.document_problems) ≡ false
  pub mutex :
      may_take (
        o.raced
          (check names lower
            (situation_of current.0 e current.1)
            current.0.attempts.ledger
            current.1
            true
            false).1)
      ≡ true
  pub new_run : (run : ExecutionRunRow) × IsNewRun current.0.runs begun.1 worker_id attempt r run

module _ (names : Names) (lower : String → String) (e : Surroundings) (o : Offer)
    (s : ExecutionStore) (item : QueueRow) (worker_id : String) {r : Started}
    (started : r.outcome ≡ StartOutcome.started) where
  start_item-split :
      start_item names lower e o s item worker_id ≡ Result.ok r
      → (attempt : ApplicationRow) × ((begun : ExecutionStore × QueueRow) × ((attempt_for_item s
                item
              ≡ Result.ok (some attempt))
            × (begin_item s item worker_id ≡ Result.ok begun)
            × (start_attempt names lower e o s item worker_id begun.0 begun.1 attempt
                ≡ Result.ok r)))
  unfolding start_item on_queue fail
  start_item-split h =
      let (found, (at_item, h1)) = bind-ok (attempt_for_item s item) _ h in
      let (begun, (own, h2)) = bind-ok (begin_item s item worker_id) _ h1 in
      elim (Option-cases found) [
        | inl gone ↦ absurd (ground (arith, h2, gone, started))
        | inr (attempt, here) ↦
            (attempt, (begun, (rw (sym here) at_item, own, ground (arith, h2, here))))
      ]

  entered :
      (attempt : ApplicationRow) (begun : ExecutionStore × QueueRow)
      (current : ExecutionStore × ApplicationRow)
      → attempt_for_item s item ≡ Result.ok (some attempt)
      → begin_item s item worker_id ≡ Result.ok begun
      → (has_status ApplicationStatus.ready attempt
          || (has_status ApplicationStatus.submitting attempt
              && may_reclaim (crashed_run begun.0 attempt)))
        ≡ true
      → IsCurrent begun.0 attempt current
      → start_ready names lower e o s item worker_id current.0 begun.1 current.1 ≡ Result.ok r
      → IsEntered names lower e o s item worker_id attempt begun current r
  entered attempt begun current at_item own not_sent at_checks h =
      let ready =
        start_ready-started names lower e o s item worker_id current.0 begun.1 current.1 h
          started in
      let sure =
        start_checked-started names lower e o s item worker_id current.0 begun.1 current.1 ready.2
          started in
      let clear =
        check-IsClear names lower (situation_of current.0 e current.1) current.0.attempts.ledger
          current.1 true false sure.0 in
      let offered =
        start_offered-started names lower e o s item worker_id _ begun.1 _ sure.1 started in
      let found = (start_check names lower e o s item worker_id current.0 current.1).1 in
      let (run, made) =
        take_attempt-IsNewRun s item _ begun.1 worker_id found o e.now offered.3 started in
      let own_id =
        check-id names lower (situation_of current.0 e current.1) current.0.attempts.ledger
          current.1 true false
        ∙ IsCurrent-id begun.0 attempt at_checks in
      record {
        of_item = at_item;
        owned = own;
        not_sent = not_sent;
        at_checks = at_checks;
        not_paused = ready.1;
        clear = clear.0;
        in_period = clear.3;
        documents = offered.1;
        mutex = take_attempt-started s item _ begun.1 worker_id _ o e.now offered.3 started;
        new_run = (
          run,
          record {
            returned = made.returned;
            stored = made.stored;
            of_attempt = made.of_attempt ∙ own_id;
            for_item = made.for_item;
            by_worker = made.by_worker;
            running = made.running;
            not_clicked = made.not_clicked;
          },
        );
      }

  -- A run starts only for an attempt that was ready, or that an earlier executor held and lost before it
  -- may have pressed submit; never for one that is submitted, verified, uncertain or waits for a person.
  -- Then the kill switch was off, every precondition held of the attempt with a slot of the current day
  -- and week, the documents were there, and the guarded update found the row ready and without a key.
  -- The checks are of the item's attempt, as it was or ready again, and the run is a new one of it.
  pub start_item-IsEntered :
      start_item names lower e o s item worker_id ≡ Result.ok r
      → (attempt : ApplicationRow) × ((begun : ExecutionStore × QueueRow)
          × ((current : ExecutionStore × ApplicationRow) × IsEntered names lower e o s item
                worker_id attempt begun current r))
  start_item-IsEntered h =
      let (attempt, (begun, (at_item, own, run))) = start_item-split h in
      elim (start_attempt-started names lower e o s item worker_id begun.0 begun.1 attempt run
        started) [
          | inl (ready, go) ↦ (
            attempt,
            (
              begun,
              (
                (begun.0, attempt),
                entered attempt begun (begun.0, attempt) at_item own (ground (arith, ready))
                    (IsCurrent-unmoved begun.0 attempt ready) go,
              ),
            ),
          )
          | inr (pressed, free, (again, (reclaimed, go))) ↦ (
            attempt,
            (
              begun,
              (
                again,
                entered attempt begun again at_item own (ground (arith, pressed, free))
                    (reclaim_attempt-IsCurrent names lower e o s item worker_id begun.0 attempt _
                      pressed reclaimed)
                    go,
              ),
            ),
          )
        ]
