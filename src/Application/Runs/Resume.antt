-- ===== src/Application/Runs/Resume.antt =====
-- crates/robine-application/src/lib.rs: `FlowService` starts runs and takes them up again.
use robine.Prelude.{
  ℕ, zero, suc, String, ◌<>◌, decimal, false, Option, none, some, List, [], ◌∷◌, ◌++◌, ◌==◌, ◌&&◌,
  not, if◌then◌else◌, Result, ok, err,
}
use robine.Domain.{StateValue}
use robine.Domain.Model.{Command, FlowDefinition, FlowRun}
use robine.Flow.Plan.{ExecutionPlan}
use robine.Flow.Runtime.Trace.{
  TraceStep, audited, action_failed, skipped, timed_out, cancelled, queued,
}
use robine.Flow.Runtime.{Gateway, execute_from_resumption}
use robine.Application.Errors.{ApplicationError, FlowError}
use robine.Application.Home.{Home, Call, error_text, request_command_with_correlation}
use robine.Application.Runs.{
  Outside, FlowExecution, ResumptionReason, initial, timer, then_use, is_timer, is_present,
  is_over_at, deadline_of, UseCase, on_store, trace_for_run, persist, finish_with, after_run,
  set_enabled_from_flow,
}
use robine.Store.Flows.{get_flow}
use robine.Store.Runs.{
  FlowAdmission, start, rejected, restarted, due_flow_runs, dequeue_next_flow_run, admit_flow_run,
}

-- the correlation of a run's commands
abbrev pub run_correlation : {J : Type 0} → FlowRun J → String
run_correlation run =
    if run.correlation_id == "" then "flow:resumed:" <> run.id else run.correlation_id

module _ {F J : Type 0} (o : Outside F J) (refusal : String)
    (dispatch : Command F → Call F J (Unit {0})) where
  abbrev answer : Result ApplicationError (Command F) × Home F J → Result String String × Home F J
  answer (ok c, w) = (ok c.id, w)
  answer (err e, w) = (err (error_text e), w)

  -- `HomeCommandGateway::request`, at an identifier that is a `Uuid` or is not
  abbrev gateway_request :
      ℕ
      → String
      → Home F J
      → Option String
      → String
      → StateValue F
      → String
      → Result String String × Home F J
  gateway_request now correlation_id w none key value idempotency_key =
      (err "Flow entity reference is not a UUID", w)
  gateway_request now correlation_id w (some id) key value idempotency_key = answer (
      request_command_with_correlation refusal dispatch (o.new_command_id w)
        (record {
          entity_id = id;
          key = key;
          value = value;
          idempotency_key = idempotency_key;
          now = now;
          correlation_id = correlation_id;
        })
        w)

  -- `HomeCommandGateway`
  abbrev pub home_gateway : ℕ → String → Gateway F (Home F J)
  home_gateway now correlation_id = record {
    request = λ w entity_id key value idempotency_key.
        gateway_request now correlation_id w (o.parse_uuid entity_id) key value idempotency_key;
    set_enabled =
        λ w flow_id enabled idempotency_key. set_enabled_from_flow o flow_id enabled now w;
  }

  abbrev pub run_plan :
      String
      → FlowRun J
      → ℕ
      → ExecutionPlan F
      → Result FlowError (List (TraceStep F))
      → UseCase F J (FlowExecution F)
  run_plan flow_id run now plan (err e) w = (err e, w)
  run_plan flow_id run now plan (ok trace) w =
      let (result, w') =
        execute_from_resumption (home_gateway now (run_correlation run)) run.id plan run.next_action
          run.retry_attempt trace w in
      after_run o flow_id run plan now result w'

  abbrev pub resume_plan :
      String → FlowRun J → ℕ → Result String (ExecutionPlan F) → UseCase F J (FlowExecution F)
  resume_plan flow_id run now (err e) w =
      (err (FlowError.application (ApplicationError.infrastructure e)), w)
  resume_plan flow_id run now (ok plan) w = run_plan flow_id run now plan (trace_for_run o run) w

  abbrev pub resume_flow : FlowRun J → ℕ → Option (FlowDefinition J) → UseCase F J (FlowExecution F)
  resume_flow run now none w = (err FlowError.not_found, w)
  resume_flow run now (some flow) w =
      if not flow.enabled
      then finish_with o cancelled (audited "cancelled because the automation was disabled") run now
          (trace_for_run o run) w
      else resume_plan flow.id run now (o.plan_from_value run.plan) w

  unfoldable pub resume_run : FlowRun J → ℕ → ResumptionReason → UseCase F J (FlowExecution F)
  resume_run run now reason w =
      if is_over_at run.deadline_at now
      then finish_with o timed_out (audited "max-runtime reached before the flow could resume") run
          now (trace_for_run o run) w
      else (if is_timer reason && is_present run.awaiting && run.await_timeout_is_failure
          then finish_with o timed_out (action_failed "reported command confirmation timed out") run
              now (trace_for_run o run) w
          else resume_flow run now (get_flow run.flow_id w.store) w)

  -- the rows that a restart cancelled
  abbrev pub cancel_each : List (FlowRun J) → ℕ → UseCase F J (Unit {0})
  cancel_each [] now w = (ok tt, w)
  cancel_each (previous ∷ rest) now w =
      then_use (λ _ w'. cancel_each rest now w')
        (persist o previous.flow_id previous.id
          (cancelled (audited "cancelled by a newer :restart execution" ∷ [])) now w)

  -- `match admission`
  abbrev pub after_admission : FlowRun J → ℕ → FlowAdmission J → UseCase F J (FlowExecution F)
  after_admission run now start w = resume_run run now initial w
  after_admission run now (restarted runs) w =
      then_use (λ _ w'. resume_run run now initial w') (cancel_each runs now w)
  after_admission run now FlowAdmission.queued w =
      persist o run.flow_id run.id (queued (audited "queued behind an active execution" ∷ [])) now w
  after_admission run now (rejected active_runs) w =
      persist o run.flow_id run.id
        (skipped (
          audited ("execution skipped: concurrency limit reached (" <> decimal active_runs <> ")")
          ∷ []))
        now w

  -- `FlowRun { … }` of `execute_flow`, with a new identifier
  abbrev pub new_run : String → String → ExecutionPlan F → ℕ → String → FlowRun J
  new_run run_id flow_id plan now correlation_id = record {
    id = run_id;
    flow_id = flow_id;
    plan = o.plan_to_value plan;
    trace = none;
    retry_attempt = none;
    next_action = 0;
    wake_at = now;
    awaiting = none;
    await_timeout_is_failure = false;
    correlation_id = correlation_id;
    deadline_at = deadline_of now plan.max_runtime_milliseconds;
    queued = false;
  }

  -- `execute_flow`, after its plan is compiled and its guard has passed
  unfoldable pub execute_plan :
      String → String → ExecutionPlan F → ℕ → String → UseCase F J (FlowExecution F)
  unfolding resume_run
  execute_plan run_id flow_id plan now correlation_id w =
      let run = new_run run_id flow_id plan now correlation_id in
      on_store (admit_flow_run run plan.concurrency) (after_admission run now) w

  abbrev pub Executions : Type 0
  Executions = List (Result FlowError (FlowExecution F)) × Home F J

  abbrev pub push_first : Result FlowError (FlowExecution F) → Executions → Executions
  push_first result (results, w) = (result ∷ results, w)

  abbrev pub resume_each : List (FlowRun J) → ℕ → ResumptionReason → Home F J → Executions
  resume_each [] now reason w = ([], w)
  resume_each (run ∷ runs) now reason w =
      let (result, w') = resume_run run now reason w in
      push_first result (resume_each runs now reason w')

  -- a round of the loop over `dequeue_next_flow_run`, with the rounds after it
  abbrev pub dequeued :
      (Home F J → Executions)
      → ℕ
      → Result ApplicationError (Option (FlowRun J))
      → Home F J
      → Executions
  dequeued more now (err e) w = (err (FlowError.application e) ∷ [], w)
  dequeued more now (ok none) w = ([], w)
  dequeued more now (ok (some run)) w =
      let (result, w') = resume_run run now initial w in push_first result (more w')

  abbrev pub dequeue_rounds : ℕ → ℕ → Home F J → Executions
  dequeue_rounds zero now w = ([], w)
  dequeue_rounds (suc rounds) now w =
      let (next, s) = dequeue_next_flow_run w.store in
      dequeued (λ w'. dequeue_rounds rounds now w') now next (record w { store = s })

  abbrev pub append_to : List (Result FlowError (FlowExecution F)) → Executions → Executions
  append_to before (results, w) = (before ++ results, w)

  unfoldable pub resume_due : ℕ → Home F J → Executions
  resume_due now w =
      let (results, w') = resume_each (due_flow_runs now 100 w.store) now timer w in
      append_to results (dequeue_rounds 100 now w')
