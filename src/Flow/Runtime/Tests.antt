-- ===== src/Flow/Runtime/Tests.antt =====
-- Runs of the interpreter, and the theorems at a concrete plan and gateway.
use robine.Prelude.{ℕ, ◌≡◌, refl, none, some, [], ◌∷◌, ok, arith, decimal}
use robine.Flow.Plan.Tests.{IsPlan-sample_plan}
use robine.Flow.Samples.{whole_numbers, sample_plan, recorder, Calls}
use robine.Flow.Runtime.Trace.{
  action_failed, RunResult, completed, failed, command_requested, retry_scheduled, audited,
  trace_of,
}
use robine.Flow.Runtime.{
  verb_value, run_command, execute_retryable_action, after_attempt, perform, run_actions,
  execute_from_resumption, execute_from_trace, execute_from, execute,
}
use robine.Flow.Runtime.Resume.{Extends}
use robine.Flow.Runtime.Values.{checked, execute_from_resumption-checked}
use robine.Flow.Runtime.{attempt_key}
use robine.Flow.Runtime.Keys.{attempt_key-injective}
use robine.Flow.Runtime.Resumption.{
  IsResumable, Outcome, drive, IsOver, execute_from_resumption-Outcome, drive-IsOver,
}

running : Unit {0}
unfolding verb_value run_command execute_retryable_action after_attempt perform run_actions
    execute_from_resumption execute_from_trace execute_from execute drive decimal
running = tt

-- The first call is refused: the switch is not set, and the run fails.
execute-refused :
    execute recorder "r" sample_plan (1, [])
    ≡ (ok (failed (action_failed "command turn-on failed" ∷ [])), (0, "flow:r/0" ∷ []))
unfolding running
execute-refused = refl

-- The run goes on behind the wait; the second retry succeeds.
drive-sample :
    drive whole_numbers recorder "r" 3 sample_plan 2 none [] (1, [])
    ≡ some (
      completed
          (retry_scheduled 2 3 1000 ∷ command_requested "light/a" "turn-off" ∷ audited "off" ∷ []),
      (0, "flow:r/2:attempt:2" ∷ "flow:r/2:attempt:1" ∷ []),
    )
unfolding running
drive-sample = refl

at_retry : IsResumable sample_plan 2 none
at_retry = record { inside = omega arith; startable = omega arith }

execute_from_resumption-Outcome_example :
    (r : RunResult ℕ) × (g : Calls) × (execute_from_resumption recorder "r" sample_plan 2 none []
        (1, [])
      ≡ (ok r, g))
    × Extends [] (trace_of r)
    × Outcome sample_plan 2 none r
execute_from_resumption-Outcome_example =
    execute_from_resumption-Outcome whole_numbers recorder "r" sample_plan 2 none [] (1, [])
      IsPlan-sample_plan at_retry

drive-IsOver_example :
    (last : RunResult ℕ) × (end : Calls) × (drive whole_numbers recorder "r" 5 sample_plan 2 none []
        (1, [])
      ≡ some (last, end))
    × IsOver whole_numbers recorder "r" [] last
drive-IsOver_example =
    drive-IsOver whole_numbers recorder "r" 5 sample_plan 2 none [] (1, []) IsPlan-sample_plan
      at_retry (omega arith)

execute_from_resumption-checked_example :
    execute_from_resumption (checked recorder "bad value") "r" sample_plan 2 none [] (1, [])
    ≡ execute_from_resumption recorder "r" sample_plan 2 none [] (1, [])
execute_from_resumption-checked_example =
    execute_from_resumption-checked recorder "bad value" "r" sample_plan 2 none [] (1, [])

second_attempt : attempt_key "r" 12 1 ≡ "flow:r/12:attempt:2"
unfolding decimal
second_attempt = refl

attempt_key-injective_example : (◌≡◌ {A = ℕ} 12 12) × (◌≡◌ {A = ℕ} 1 1)
attempt_key-injective_example = attempt_key-injective "r" 12 12 1 1 (omega arith) (omega arith) refl
