-- ===== src/Execution/Tests/Clicks.antt =====
-- app/execution/service.py: the gate and the recovery on concrete rows.
use range_apply.Application.KillSwitch.{is_paused}
use range_apply.Application.Models.{ApplicationStatus}
use range_apply.Application.Rows.{ApplicationRow, save_attempt}
use range_apply.Common.{All, List, [], ap, false, none, or_else, refl, sym, true, ◌∷◌, ◌≡◌}
use range_apply.Core.Errors.{Result}
use range_apply.Execution.Gate.{
  ClickReport, GateFailure, gate, gate_run, pre_submit_gate, refused_with, switch_failures,
}
use range_apply.Execution.Gate.Once.{IsSole, gate-once}
use range_apply.Execution.Gate.Passing.{IsPassed, gate-IsPassed}
use range_apply.Execution.Preconditions.{
  check, check_caps, history_failures, opening_failures, preparation_failures, static_failures,
  status_failures,
}
use range_apply.Execution.Recovery.{
  Recovery, force_attempt, is_live, item_of, recover_invoked, recover_lost_runs, recover_run,
  recover_runs, review_item,
}
use range_apply.Execution.Recovery.Lost.{is_accounted, recover_lost_runs-uncertain, running_runs}
use range_apply.Execution.Runs.{
  ExecutionRunRow, ExecutionStore, attempt_for_item, audit, crashed_run, get_attempt, join_openings,
  newest, save_run, situation_of, source_of, stale_of,
}
use range_apply.Execution.SubmissionMode.{get_state, is_live_enabled}
use range_apply.Execution.Tests.{
  first_run, held_item, live_today, lower_case, plain, pressed_attempt, pressing, value_or,
}
use range_apply.Pipeline.Queue.{assert_owner, get_item}
use range_apply.Pipeline.Queue.Outcomes.{needs_review}
use range_apply.Scheduler.Attempts.{transition}

abbrev clicked : ExecutionStore × ClickReport
clicked = (
  record pressing {
    runs = record first_run { submit_invoked = true } ∷ [];
    events =
        record {
          application_id = "a1";
          action = "execution:gate_passed";
          status = ApplicationStatus.submitting;
        }
        ∷ [];
  },
  record { ok = true; failures = [] },
)

click_run :
    gate plain lower_case pressing live_today held_item "w" ≡ Result.ok (clicked.0, clicked.1)
unfolding gate gate_run assert_owner attempt_for_item crashed_run newest pre_submit_gate get_attempt
    switch_failures is_live_enabled get_state source_of audit save_run save_attempt check
    situation_of static_failures preparation_failures status_failures stale_of opening_failures
    history_failures join_openings check_caps is_paused
click_run = refl

gate-IsPassed_example :
    (attempt : ApplicationRow) × ((run : ExecutionRunRow) × IsPassed plain lower_case pressing
        live_today held_item "w" clicked.0 attempt run)
gate-IsPassed_example =
    gate-IsPassed plain lower_case pressing live_today held_item "w" click_run refl

pressing-IsSole : IsSole pressing held_item
unfolding attempt_for_item get_attempt crashed_run newest
pressing-IsSole a h =
    let e : pressed_attempt ≡ a = ap (λ r. or_else (value_or r none) a) h in
    rw (sym e) (
      refl,
      λ run g. let e' : first_run ≡ run = ap (λ r. or_else r run) g in rw (sym e') (refl, tt),
    )

abbrev clicked_again : ExecutionStore × ClickReport
clicked_again = (clicked.0, refused_with GateFailure.already_invoked)

again_run :
    gate plain lower_case clicked.0 live_today held_item "w"
    ≡ Result.ok (clicked_again.0, clicked_again.1)
unfolding gate gate_run assert_owner attempt_for_item crashed_run newest
again_run = refl

gate-once_example : clicked_again.1.ok ≡ false
gate-once_example =
    gate-once plain lower_case pressing live_today held_item "w" pressing-IsSole click_run refl
      live_today held_item "w" refl again_run

abbrev lost_click : ExecutionStore
lost_click = record pressing { runs = record first_run { submit_invoked = true } ∷ [] }

abbrev recovered : ExecutionStore × List Recovery
recovered = value_or (recover_lost_runs lost_click 200) (lost_click, [])

recover_run_lost :
    recover_lost_runs lost_click 200 ≡ Result.ok (recovered.0, Recovery.uncertain ∷ [])
unfolding recover_lost_runs recover_runs recover_run is_live item_of get_item get_attempt
    recover_invoked force_attempt transition review_item needs_review
recover_run_lost = refl

recover_lost_runs-uncertain_example :
    All (λ run. is_accounted lost_click 200 recovered.0 run ≡ true) (running_runs lost_click)
recover_lost_runs-uncertain_example = recover_lost_runs-uncertain lost_click 200 recover_run_lost
