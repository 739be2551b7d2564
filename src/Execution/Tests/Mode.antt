-- ===== src/Execution/Tests/Mode.antt =====
-- app/execution/submission_mode.py: the switch on concrete tenants.
use range_apply.Common.{String, [], false, refl, some, str_eq, ◌∷◌, ◌≡◌}
use range_apply.Core.Errors.{Result}
use range_apply.Execution.SubmissionMode.{is_live_enabled, is_live_enabled-set_mode, live, set_mode}
use range_apply.Execution.Tests.{live_state}

live_run : set_mode [] "t" "LIVE" "me" 9 ≡ Result.ok (("t", live_state) ∷ [], live_state)
unfolding set_mode
live_run = refl

is_live_enabled-set_mode_example :
    (is_live_enabled (("t", live_state) ∷ []) (some "t") ≡ str_eq "LIVE" live)
    × ((other : String)
        → str_eq "t" other ≡ false
        → is_live_enabled (("t", live_state) ∷ []) (some other) ≡ is_live_enabled [] (some other))
is_live_enabled-set_mode_example = is_live_enabled-set_mode [] "t" "LIVE" "me" 9 live_run
