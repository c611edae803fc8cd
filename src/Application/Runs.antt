-- ===== src/Application/Runs.antt =====
-- crates/robine-application/src/lib.rs: the runs of `FlowService`, with the SQLite store as its repository.
pub mod Resume
pub mod Kept
pub mod Started
pub mod Tests
use robine.Prelude.{
  ℕ, ◌+◌, ◌-◌, String, ◌<>◌, decimal, ◌≡◌, Bool, true, false, Option, none, some, List, [], ◌∷◌,
  ◌++◌, ◌==◌, ◌&&◌, ◌||◌, not, leb, if◌then◌else◌, Result, ok, err,
}
use robine.Domain.{StateValue}
use robine.Domain.Model.{Command, FlowDefinition, FlowRun, EventEnvelope, add_milliseconds}
use robine.Flow.Ast.{FlowAst}
use robine.Flow.Plan.{ExecutionPlan, AwaitTrigger}
use robine.Flow.Runtime.Trace.{
  TraceStep, audited, action_failed, Suspension, RunResult, completed, failed, skipped, suspended,
  timed_out, cancelled, queued, trace_of,
}
use robine.Flow.Runtime.{
  Gateway, execute_from_resumption, RuntimeError, unsupported_verb, command_error,
  invalid_retry_action,
}
use robine.Application.Errors.{ApplicationError, FlowError}
use robine.Application.Home.{Home, Call, publish, error_text, request_command_with_correlation}
use robine.Store.{Store, Method}
use robine.Store.Flows.{get_flow, update_flow}
use robine.Store.Runs.{
  FlowAdmission, start, rejected, restarted, save_flow_run, delete_flow_run, admit_flow_run,
}
use robine.Store.Retention.{save_flow_trace}

-- What other crates do: `serde_json` and `uuid`
pub record Outside (F J : Type 0) : Type 0 where
  pub parse_uuid : String → Option String
  pub plan_to_value : ExecutionPlan F → J
  pub plan_from_value : J → Result String (ExecutionPlan F)
  pub trace_to_value : List (TraceStep F) → J
  pub trace_from_value : J → Result String (List (TraceStep F))
  pub trigger_to_value : AwaitTrigger F → J
  pub trigger_from_value : J → Result String (AwaitTrigger F)
  pub result_to_value : RunResult F → J
  pub ast_from_value : J → Result String FlowAst
  -- the identifier of the next command
  pub new_command_id : Home F J → String
  -- the identifiers of the next run, and of the correlation of a manual one
  pub new_run_id : Home F J → String
  pub new_correlation_id : Home F J → String
  -- What is serialised is read again.
  pub plan_read : (plan : ExecutionPlan F) → plan_from_value (plan_to_value plan) ≡ ok plan
  pub trace_read : (trace : List (TraceStep F)) → trace_from_value (trace_to_value trace) ≡ ok trace

pub record FlowExecution (F : Type 0) : Type 0 where
  pub flow_id : String
  pub run_id : String
  pub result : RunResult F

pub data ResumptionReason : Type 0 where
  initial event timer : ResumptionReason

abbrev pub is_timer : ResumptionReason → Bool
is_timer timer = true
is_timer _ = false

abbrev pub is_present : {A : Type 0} → Option A → Bool
is_present none = false
is_present (some _) = true

-- `#[error]` of `RuntimeError`
abbrev runtime_text : RuntimeError → String
runtime_text (unsupported_verb verb) = "unsupported Flow command verb " <> verb
runtime_text (command_error error) = "command failed: " <> error
runtime_text invalid_retry_action = "retry contains an action that cannot be retried"

-- `deadline_at.is_some_and(|deadline| deadline <= now)`
abbrev pub is_over_at : Option ℕ → ℕ → Bool
is_over_at none now = false
is_over_at (some deadline) now = leb deadline now

abbrev pub wake_at : ℕ → Option ℕ → ℕ
wake_at now (some milliseconds) = add_milliseconds now milliseconds
-- 36 500 days
wake_at now none = add_milliseconds now 3153600000000

-- `wake_at.min(deadline)`
unfoldable pub suspension_wake_at : ℕ → Option ℕ → Option ℕ → ℕ
suspension_wake_at now after none = wake_at now after
suspension_wake_at now after (some deadline) =
    if leb (wake_at now after) deadline then wake_at now after else deadline

abbrev pub deadline_of : ℕ → Option ℕ → Option ℕ
deadline_of now none = none
deadline_of now (some milliseconds) = some (add_milliseconds now milliseconds)

-- A use case of `FlowService`
abbrev pub UseCase : Type 0 → Type 0 → Type 0 → Type 0
UseCase F J A = Home F J → Result FlowError A × Home F J

module _ {F J : Type 0} where
  -- `.map_err(FlowError::Application)?`
  abbrev pub go_on_with :
      {A B : Type 0} → (A → UseCase F J B) → Result ApplicationError A → UseCase F J B
  go_on_with next (err e) w = (err (FlowError.application e), w)
  go_on_with next (ok a) w = next a w

  abbrev pub on_store : {A B : Type 0} → Method F J A → (A → UseCase F J B) → UseCase F J B
  on_store method next w =
      let (result, s) = method w.store in go_on_with next result (record w { store = s })

  -- `?` on the result of a use case
  abbrev pub then_use :
      {A B : Type 0}
      → (A → UseCase F J B)
      → Result FlowError A × Home F J
      → Result FlowError B × Home F J
  then_use next (err e, w) = (err e, w)
  then_use next (ok a, w) = next a w

  module _ (o : Outside F J) where
    open o use {
      plan_from_value, plan_to_value, trace_to_value, trace_from_value, trigger_to_value,
      result_to_value,
    }

    abbrev trace_result : Result String (List (TraceStep F)) → Result FlowError (List (TraceStep F))
    trace_result (ok trace) = ok trace
    trace_result (err error) = err (
        FlowError.application
          (ApplicationError.infrastructure ("persisted Flow trace is invalid: " <> error)))

    abbrev trace_option : Option J → Result FlowError (List (TraceStep F))
    trace_option none = ok []
    trace_option (some value) = trace_result (trace_from_value value)

    unfoldable pub trace_for_run : FlowRun J → Result FlowError (List (TraceStep F))
    trace_for_run run = trace_option run.trace

    -- `persist_execution_trace`, and then the answer
    abbrev pub persist : String → String → RunResult F → ℕ → UseCase F J (FlowExecution F)
    persist flow_id run_id result now =
        on_store (save_flow_trace run_id flow_id (result_to_value result) now)
          (λ _ w. (ok (record { flow_id = flow_id; run_id = run_id; result = result }), w))

    -- The row is deleted, then the trace persisted.
    abbrev pub finish : String → FlowRun J → RunResult F → ℕ → UseCase F J (FlowExecution F)
    finish flow_id run result now =
        on_store (delete_flow_run run.id) (λ _ w. persist flow_id run.id result now w)

    -- The endings before the run goes on: a step is added to the trace of the run.
    abbrev pub finish_with :
        (List (TraceStep F) → RunResult F)
        → TraceStep F
        → FlowRun J
        → ℕ
        → Result FlowError (List (TraceStep F))
        → UseCase F J (FlowExecution F)
    finish_with ending step run now (err e) w = (err e, w)
    finish_with ending step run now (ok trace) w =
        finish run.flow_id run (ending (trace ++ step ∷ [])) now w

    abbrev awaiting_value : Option (AwaitTrigger F) → Option J
    awaiting_value none = none
    awaiting_value (some trigger) = some (trigger_to_value trigger)

    -- the row of a run that is suspended
    abbrev pub suspended_run :
        FlowRun J → ExecutionPlan F → ℕ → Suspension F → List (TraceStep F) → FlowRun J
    suspended_run run plan now s trace = record {
      id = run.id;
      flow_id = run.flow_id;
      plan = plan_to_value plan;
      trace = some (trace_to_value trace);
      retry_attempt = s.retry_attempt;
      next_action = s.next_action;
      wake_at = suspension_wake_at now s.after_milliseconds run.deadline_at;
      awaiting = awaiting_value s.awaiting;
      await_timeout_is_failure = s.await_timeout_is_failure;
      correlation_id = run.correlation_id;
      deadline_at = run.deadline_at;
      queued = false;
    }

    -- the result of the interpreter: a suspended run stays in the table, any other leaves it
    abbrev pub settle_run :
        String → FlowRun J → ExecutionPlan F → ℕ → RunResult F → UseCase F J (FlowExecution F)
    settle_run flow_id run plan now (suspended s trace) w =
        on_store (save_flow_run (suspended_run run plan now s trace))
          (λ _ w. persist flow_id run.id (suspended s trace) now w) w
    settle_run flow_id run plan now (completed t) w = finish flow_id run (completed t) now w
    settle_run flow_id run plan now (failed t) w = finish flow_id run (failed t) now w
    settle_run flow_id run plan now (skipped t) w = finish flow_id run (skipped t) now w
    settle_run flow_id run plan now (timed_out t) w = finish flow_id run (timed_out t) now w
    settle_run flow_id run plan now (cancelled t) w = finish flow_id run (cancelled t) now w
    settle_run flow_id run plan now (queued t) w = finish flow_id run (queued t) now w

    abbrev pub after_run :
        String
        → FlowRun J
        → ExecutionPlan F
        → ℕ
        → Result RuntimeError (RunResult F)
        → UseCase F J (FlowExecution F)
    after_run flow_id run plan now (err e) w =
        (err (FlowError.application (ApplicationError.infrastructure (runtime_text e))), w)
    after_run flow_id run plan now (ok result) w = settle_run flow_id run plan now result w

    -- `HomeCommandGateway`: the flows that an action refers to
    abbrev set_flow :
        Bool → ℕ → Option (FlowDefinition J) → Home F J → Result String (Unit {0}) × Home F J
    set_flow enabled now none w = (err "referenced automation does not exist", w)
    set_flow enabled now (some flow) w =
        if (flow.enabled && enabled) || (not flow.enabled && not enabled)
        then (ok tt, w)
        else (let (updated, s) =
              update_flow (record flow { enabled = enabled; revision = flow.revision + 1 }) now
                w.store in
            set_published updated (record w { store = s }))
      where
        set_published :
            Result ApplicationError (EventEnvelope F J)
            → Home F J
            → Result String (Unit {0}) × Home F J
        set_published (err e) w = (err (error_text e), w)
        set_published (ok sent) w = (ok tt, publish (sent ∷ []) w)

    abbrev set_parsed : Bool → ℕ → Option String → Home F J → Result String (Unit {0}) × Home F J
    set_parsed enabled now none w = (err "Flow reference is not a UUID", w)
    set_parsed enabled now (some id) w = set_flow enabled now (get_flow id w.store) w

    unfoldable pub set_enabled_from_flow :
        String → Bool → ℕ → Home F J → Result String (Unit {0}) × Home F J
    set_enabled_from_flow flow_id enabled now w = set_parsed enabled now (o.parse_uuid flow_id) w
