-- ===== src/Application/Automation.antt =====
-- crates/robine-application/src/lib.rs: `FlowService` resumes and executes what an event or a state concerns.
pub mod Again
mod Tests
use robine.Prelude.{
  ℕ, String, ◌<>◌, decimal, Bool, true, false, Option, none, some, List, [], ◌∷◌, ◌++◌, ◌&&◌,
  if◌then◌else◌, Result, ok, err,
}
use robine.Domain.Model.{Command, FlowDefinition, FlowRun, StateProperty, EventEnvelope}
use robine.Flow.Ast.{FlowAst}
use robine.Flow.Float.{F64}
use robine.Flow.Plan.{AwaitTrigger}
use robine.Application.Errors.{ApplicationError, FlowError}
use robine.Application.Home.{Home, Call}
use robine.Application.Runs.{Outside, FlowExecution, UseCase, event, on_store}
use robine.Application.Runs.Resume.{Executions, push_first, append_to, resume_each}
use robine.Application.Flows.{execute_flow, execute_existing}
use robine.Application.Triggers.{
  await_trigger_matches_event, await_trigger_matches_state, event_trigger_matches,
  state_trigger_matches,
}
use robine.Application.Schedule.{Zones, schedule_trigger_key}
use robine.Store.Flows.{list_flows}
use robine.Store.Runs.{awaiting_flow_runs}
use robine.Store.Claims.{claim_flow_trigger}

module _ {A : Type 0} where
  -- `filter`
  abbrev pub keep : (A → Bool) → List A → List A
  keep p [] = []
  keep p (x ∷ xs) = let more = keep p xs in if p x then x ∷ more else more

module _ {F J : Type 0} (f : F64 F) (o : Outside F J) (refusal : String)
    (dispatch : Command F → Call F J (Unit {0})) where
  abbrev parsed_matches : (AwaitTrigger F → Bool) → Result String (AwaitTrigger F) → Bool
  parsed_matches test (err e) = false
  parsed_matches test (ok trigger) = test trigger

  abbrev pub awaits : (AwaitTrigger F → Bool) → Option J → Bool
  awaits test none = false
  awaits test (some value) = parsed_matches test (o.trigger_from_value value)

  unfoldable pub await_matches_event : FlowRun J → EventEnvelope F J → Bool
  await_matches_event run e = awaits (λ trigger. await_trigger_matches_event trigger e) run.awaiting

  unfoldable pub await_matches_state : FlowRun J → StateProperty F → Bool
  await_matches_state run state =
      awaits (λ trigger. await_trigger_matches_state f trigger state) run.awaiting

  unfoldable pub resume_awaiting_event :
      EventEnvelope F J → ℕ → Home F J → Executions o refusal dispatch
  unfolding await_matches_event
  resume_awaiting_event e now w =
      resume_each o refusal dispatch
        (keep (λ run. await_matches_event run e) (awaiting_flow_runs 100 w.store)) now event w

  unfoldable pub resume_awaiting_state :
      StateProperty F → ℕ → Home F J → Executions o refusal dispatch
  unfolding await_matches_state
  resume_awaiting_state state now w =
      resume_each o refusal dispatch
        (keep (λ run. await_matches_state run state) (awaiting_flow_runs 100 w.store)) now event w

  -- `serde_json::from_value(flow.ast.clone()).ok()?`
  abbrev ast_matches : (FlowAst → Bool) → Result String FlowAst → Bool
  ast_matches test (err e) = false
  ast_matches test (ok ast) = test ast

  -- the flows that are enabled and have the trigger
  abbrev pub triggered : (FlowAst → Bool) → List (FlowDefinition J) → List (FlowDefinition J)
  triggered test flows =
      keep (λ flow. flow.enabled && ast_matches test (o.ast_from_value flow.ast)) flows

  abbrev pub execute_claimed : FlowDefinition J → ℕ → String → Bool → UseCase F J (FlowExecution F)
  execute_claimed flow now correlation_id true w =
      execute_flow f o refusal dispatch (o.new_run_id w) flow now correlation_id w
  execute_claimed flow now correlation_id false w = (err FlowError.already_consumed, w)

  -- what a flow does with a trigger: it claims it, and then it runs
  abbrev pub claim_and_execute : FlowDefinition J → ℕ → String → UseCase F J (FlowExecution F)
  claim_and_execute flow now correlation_id =
      on_store (claim_flow_trigger flow.id correlation_id now)
        (execute_claimed flow now correlation_id)

  -- `.filter(|result| !matches!(result, Err(FlowError::AlreadyConsumed)))`
  abbrev pub push_unconsumed :
      Result FlowError (FlowExecution F)
      → Executions o refusal dispatch
      → Executions o refusal dispatch
  push_unconsumed (err FlowError.already_consumed) rest = rest
  push_unconsumed result rest = push_first o refusal dispatch result rest

  abbrev pub claim_each :
      List (FlowDefinition J) → ℕ → String → Home F J → Executions o refusal dispatch
  claim_each [] now correlation_id w = ([], w)
  claim_each (flow ∷ flows) now correlation_id w =
      let (result, w') = claim_and_execute flow now correlation_id w in
      push_unconsumed result (claim_each flows now correlation_id w')

  abbrev pub event_correlation : EventEnvelope F J → Option String → String
  event_correlation e none = "event:" <> decimal e.sequence
  event_correlation e (some id) = id

  unfoldable pub execute_event_triggered :
      EventEnvelope F J → ℕ → Home F J → Executions o refusal dispatch
  unfolding resume_awaiting_event
  execute_event_triggered e now w =
      let (resumed, w') = resume_awaiting_event e now w in
      append_to o refusal dispatch resumed (
        claim_each (triggered (λ ast. event_trigger_matches ast e) (list_flows w'.store)) now
          (event_correlation e e.correlation_id) w')

  abbrev pub execute_each : List (FlowDefinition J) → ℕ → Home F J → Executions o refusal dispatch
  execute_each [] now w = ([], w)
  execute_each (flow ∷ flows) now w =
      let (result, w') =
        execute_existing f o refusal dispatch (o.new_run_id w) (o.new_correlation_id w) flow.id now
          w in
      push_first o refusal dispatch result (execute_each flows now w')

  unfoldable pub execute_state_triggered :
      StateProperty F → ℕ → Home F J → Executions o refusal dispatch
  unfolding resume_awaiting_state
  execute_state_triggered state now w =
      let (resumed, w') = resume_awaiting_state state now w in
      append_to o refusal dispatch resumed (
        execute_each (triggered (λ ast. state_trigger_matches f ast state) (list_flows w'.store))
          now w')

  -- the loop of `execute_scheduled`, over the flows with their keys
  abbrev claim_scheduled :
      List (FlowDefinition J × String) → ℕ → Home F J → Executions o refusal dispatch
  claim_scheduled [] now w = ([], w)
  claim_scheduled ((flow, key) ∷ flows) now w =
      let (result, w') = claim_and_execute flow now key w in
      push_unconsumed result (claim_scheduled flows now w')

  module _ {Z : Type 0} (z : Zones Z) where
    abbrev ast_key : ℕ → Result String FlowAst → Option String
    ast_key now (err e) = none
    ast_key now (ok ast) = schedule_trigger_key z ast now

    abbrev with_key :
        FlowDefinition J
        → Option String
        → List (FlowDefinition J × String)
        → List (FlowDefinition J × String)
    with_key flow none rest = rest
    with_key flow (some key) rest = (flow, key) ∷ rest

    -- the flows that are enabled and whose schedule occurs
    abbrev pub scheduled : ℕ → List (FlowDefinition J) → List (FlowDefinition J × String)
    scheduled now [] = []
    scheduled now (flow ∷ flows) =
        let rest = scheduled now flows in
        if flow.enabled then with_key flow (ast_key now (o.ast_from_value flow.ast)) rest else rest

    unfoldable pub execute_scheduled : ℕ → Home F J → Executions o refusal dispatch
    execute_scheduled now w = claim_scheduled (scheduled now (list_flows w.store)) now w
