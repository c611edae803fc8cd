-- ===== src/Application/Flows.antt =====
-- crates/robine-application/src/lib.rs: `FlowService` executes a flow: its document is read, its choices are
-- settled, its plan is compiled, its condition is evaluated, and its run is admitted.
pub mod Executed
mod Tests
use robine.Prelude.{
  ℕ, String, ◌<>◌, Bool, true, false, Option, none, some, List, [], ◌∷◌, not, if◌then◌else◌, Result,
  ok, err,
}
use robine.Domain.Model.{Command, FlowDefinition}
use robine.Flow.Ast.{FlowAst}
use robine.Flow.Float.{F64}
use robine.Flow.Plan.{ExecutionPlan, PlanError}
use robine.Flow.Plan.Compile.{compile}
use robine.Flow.Runtime.Trace.{guard_evaluated, skipped}
use robine.Application.Errors.{ApplicationError, FlowError}
use robine.Application.Home.{Home, Call}
use robine.Application.Runs.{Outside, FlowExecution, UseCase, persist}
use robine.Application.Runs.Resume.{execute_plan}
use robine.Application.Guard.{evaluate_guard}
use robine.Application.Choose.{resolve_choose_actions}
use robine.Store.Flows.{get_flow}

-- `#[error]` of `PlanError`
abbrev pub plan_text : PlanError → String
plan_text (PlanError.invalid_flow message) = "invalid Flow: " <> message
plan_text PlanError.missing_body = "missing Flow body"
plan_text PlanError.unsupported_action = "unsupported Flow action"
plan_text PlanError.invalid_command = "invalid command action"
plan_text PlanError.invalid_wait =
    "wait must use a positive, integral duration no longer than thirty days"
plan_text PlanError.invalid_concurrency = "invalid Flow concurrency policy"
plan_text PlanError.invalid_automation_target =
    "activate/deactivate requires an explicit Flow reference"
plan_text PlanError.invalid_brightness = "brightness must be a percentage between 0 and 100"
plan_text PlanError.invalid_confirmation =
    "reported confirmation requires :confirm :reported and a positive :timeout, without :brightness"
plan_text PlanError.invalid_await =
    "await must use an event trigger with :type and an optional bounded :timeout"
plan_text PlanError.invalid_retry =
    "retry requires one idempotent action, :times 1..10 and a positive :backoff duration"

module _ {F J : Type 0} (f : F64 F) (o : Outside F J) (refusal : String)
    (dispatch : Command F → Call F J (Unit {0})) where
  abbrev pub guarded_plan :
      String
      → FlowDefinition J
      → ExecutionPlan F
      → ℕ
      → String
      → Result FlowError Bool
      → UseCase F J (FlowExecution F)
  guarded_plan run_id flow plan now correlation_id (err e) w = (err e, w)
  guarded_plan run_id flow plan now correlation_id (ok false) w =
      persist o flow.id run_id
        (skipped (guard_evaluated false "La condition de l'habitude n'est pas remplie." ∷ [])) now w
  guarded_plan run_id flow plan now correlation_id (ok true) w =
      execute_plan o refusal dispatch run_id flow.id plan now correlation_id w

  abbrev pub execute_compiled :
      String
      → FlowDefinition J
      → FlowAst
      → ℕ
      → String
      → Result PlanError (ExecutionPlan F)
      → UseCase F J (FlowExecution F)
  execute_compiled run_id flow ast now correlation_id (err e) w =
      (err (FlowError.application (ApplicationError.validation (plan_text e))), w)
  execute_compiled run_id flow ast now correlation_id (ok plan) w =
      guarded_plan run_id flow plan now correlation_id (evaluate_guard f o.parse_uuid w.store ast) w

  abbrev pub execute_resolved :
      String
      → FlowDefinition J
      → FlowAst
      → ℕ
      → String
      → Result FlowError FlowAst
      → UseCase F J (FlowExecution F)
  execute_resolved run_id flow ast now correlation_id (err e) w = (err e, w)
  execute_resolved run_id flow ast now correlation_id (ok resolved) w =
      execute_compiled run_id flow ast now correlation_id (compile f resolved) w

  abbrev pub execute_ast :
      String → FlowDefinition J → ℕ → String → Result String FlowAst → UseCase F J (FlowExecution F)
  execute_ast run_id flow now correlation_id (err e) w =
      (err (FlowError.application (ApplicationError.infrastructure e)), w)
  execute_ast run_id flow now correlation_id (ok ast) w =
      execute_resolved run_id flow ast now correlation_id
        (resolve_choose_actions f o.parse_uuid w.store ast) w

  -- `execute_flow`, with the identifier that `RunId::new` gives
  unfoldable pub execute_flow :
      String → FlowDefinition J → ℕ → String → UseCase F J (FlowExecution F)
  execute_flow run_id flow now correlation_id w =
      execute_ast run_id flow now correlation_id (o.ast_from_value flow.ast) w

  abbrev pub execute_enabled :
      String → String → ℕ → Option (FlowDefinition J) → UseCase F J (FlowExecution F)
  execute_enabled run_id manual_id now none w = (err FlowError.not_found, w)
  execute_enabled run_id manual_id now (some flow) w =
      if not flow.enabled
      then (err FlowError.disabled, w)
      else execute_flow run_id flow now ("flow:manual:" <> manual_id) w

  -- `execute_existing`, with the identifiers of the run and of its correlation
  unfoldable pub execute_existing : String → String → String → ℕ → UseCase F J (FlowExecution F)
  execute_existing run_id manual_id id now w =
      execute_enabled run_id manual_id now (get_flow id w.store) w
