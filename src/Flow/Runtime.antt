-- ===== src/Flow/Runtime.antt =====
-- crates/robine-flow-runtime/src/lib.rs: the deterministic interpreter of plans. The command gateway
-- is a parameter with a state of its own, which every call may change.
pub mod Trace
mod Command
pub mod Resume
pub mod Drive
pub mod Resumption
pub mod Values
pub mod Keys
mod Tests
unfoldable pub use Command.*
use robine.Prelude.{
  ℕ, suc, ◌+◌, ◌%◌, String, ◌<>◌, decimal, Bool, true, false, Option, none, some, List, [], ◌∷◌,
  ◌++◌, ◌==◌, ltb, eqb, leb, if◌then◌else◌, Result, ok, err, drop,
}
use robine.Domain.{StateValue}
use robine.Flow.Plan.{
  AwaitTrigger, CommandConfirmation, transport, unconfirmed, reported, PlannedAction, ExecutionPlan,
  command, wait, await, audit, set_automation_enabled, retry, command_confirmed,
}
use Trace.{
  TraceStep, command_requested, retry_scheduled, retry_exhausted, action_failed, audited, waiting,
  awaiting, automation_changed, Suspension, RunResult, completed, failed, suspended,
}

module _ {F G : Type 0} (gateway : Gateway F G) (run : String) where
  open gateway use {request, set_enabled}

  abbrev pub enabled_set :
      String → Bool → List (TraceStep F) → Result String (Unit {0}) × G → Progress F G
  enabled_set flow_id enabled trace (err e, g) = fail gateway run trace "automation update failed" g
  enabled_set flow_id enabled trace (ok _, g) =
      go_on (trace ++ automation_changed flow_id enabled ∷ []) g

  -- `execute_retryable_action`: its result, the trace and the gateway
  abbrev pub Attempt : Type 0
  Attempt = Result RuntimeError (Unit {0}) × List (TraceStep F) × G

  abbrev pub attempt_brightened :
      String → String → List (TraceStep F) → Result String String × G → Attempt
  attempt_brightened entity verb trace (err e, g) = (err (command_error e), trace, g)
  attempt_brightened entity verb trace (ok _, g) =
      (ok tt, trace ++ command_requested entity verb ∷ [], g)

  abbrev pub attempt_switched :
      String → String → Option F → String → List (TraceStep F) → Result String String × G → Attempt
  attempt_switched entity verb brightness key trace (err e, g) = (err (command_error e), trace, g)
  attempt_switched entity verb brightness key trace (ok _, g) =
      attempt_brightened entity verb trace (brighten gateway run entity brightness key g)

  abbrev pub attempt_command :
      String → String → Option F → String → List (TraceStep F) → Option (StateValue F) → G → Attempt
  attempt_command entity verb brightness key trace none g = (err (unsupported_verb verb), trace, g)
  attempt_command entity verb brightness key trace (some value) g =
      attempt_switched entity verb brightness key trace (request g entity "switch" value key)

  abbrev pub attempt_enabled :
      String → Bool → List (TraceStep F) → Result String (Unit {0}) × G → Attempt
  attempt_enabled flow_id enabled trace (err e, g) = (err (command_error e), trace, g)
  attempt_enabled flow_id enabled trace (ok _, g) =
      (ok tt, trace ++ automation_changed flow_id enabled ∷ [], g)

  unfoldable pub execute_retryable_action :
      PlannedAction F → ℕ → ℕ → List (TraceStep F) → G → Attempt
  unfolding verb_value
  execute_retryable_action (command entity verb brightness _) index attempt trace g =
      attempt_command entity verb brightness (attempt_key run index attempt) trace
        (verb_value F verb) g
  execute_retryable_action (audit message) index attempt trace g =
      (ok tt, trace ++ audited message ∷ [], g)
  execute_retryable_action (set_automation_enabled flow_id enabled) index attempt trace g =
      attempt_enabled flow_id enabled trace
        (set_enabled g flow_id enabled (attempt_key run index attempt <> ":automation"))
  execute_retryable_action _ index attempt trace g = (err invalid_retry_action, trace, g)

  -- `match execute_retryable_action(…)`
  unfoldable pub after_attempt : ℕ → ℕ → ℕ → ℕ → Attempt → Progress F G
  after_attempt index attempt attempts backoff (ok _, trace, g) = go_on trace g
  after_attempt index attempt attempts backoff (err _, trace, g) =
      if ltb (next_attempt attempt) attempts
      then stop
          (suspended
            (record {
              after_milliseconds = some backoff;
              next_action = index;
              awaiting = none;
              await_timeout_is_failure = false;
              retry_attempt = some (next_attempt attempt);
            })
            (trace ++ retry_scheduled (next_attempt (next_attempt attempt)) attempts backoff ∷ []))
          g
      else stop (failed (trace ++ retry_exhausted attempts ∷ [])) g

  -- one round of the loop, at an index and its action; `attempt` is for a retry
  unfoldable pub perform : ℕ → ℕ → PlannedAction F → List (TraceStep F) → G → Progress F G
  unfolding run_command verb_value
  perform index attempt (command entity verb brightness confirmation) trace g =
      run_command gateway run index entity verb brightness confirmation trace (verb_value F verb) g
  perform index attempt (audit message) trace g = go_on (trace ++ audited message ∷ []) g
  perform index attempt (set_automation_enabled flow_id enabled) trace g =
      enabled_set flow_id enabled trace
        (set_enabled g flow_id enabled (action_key run index <> ":automation"))
  perform index attempt (wait n) trace g =
      stop
        (suspended
          (record {
            after_milliseconds = some n;
            next_action = index + 1;
            awaiting = none;
            await_timeout_is_failure = false;
            retry_attempt = none;
          })
          (trace ++ waiting n ∷ []))
        g
  perform index attempt (await trigger timeout) trace g =
      stop
        (suspended
          (record {
            after_milliseconds = timeout;
            next_action = index + 1;
            awaiting = some trigger;
            await_timeout_is_failure = false;
            retry_attempt = none;
          })
          (trace ++ awaiting trigger timeout ∷ []))
        g
  perform index attempt (retry action attempts backoff) trace g =
      after_attempt index attempt attempts backoff
        (execute_retryable_action action index attempt trace g)

  -- the loop, from an index on: only its first round may resume a retry
  unfoldable pub run_actions :
      ℕ → ℕ → List (PlannedAction F) → List (TraceStep F) → G → RunResult F × G
  run_actions index attempt [] trace g = (completed trace, g)
  run_actions index attempt (action ∷ rest) trace g = elim (perform index attempt action trace g) [
    | go_on trace' g' ↦ run_actions (index + 1) 0 rest trace' g'
    | stop result g' ↦ (result, g')
  ]

  -- No branch of the loop returns an error.
  unfoldable pub execute_from_resumption :
      ExecutionPlan F
      → ℕ
      → Option ℕ
      → List (TraceStep F)
      → G
      → Result RuntimeError (RunResult F) × G
  execute_from_resumption plan start_action retry_attempt trace g =
      let (result, g') =
        run_actions start_action (unwrap_or retry_attempt 0) (drop start_action plan.actions) trace
          g in
      (ok result, g')

  unfoldable pub execute_from_trace :
      ExecutionPlan F → ℕ → List (TraceStep F) → G → Result RuntimeError (RunResult F) × G
  execute_from_trace plan start_action trace g =
      execute_from_resumption plan start_action none trace g

  unfoldable pub execute_from : ExecutionPlan F → ℕ → G → Result RuntimeError (RunResult F) × G
  execute_from plan start_action g = execute_from_trace plan start_action [] g

  unfoldable pub execute : ExecutionPlan F → G → Result RuntimeError (RunResult F) × G
  execute plan g = execute_from plan 0 g
