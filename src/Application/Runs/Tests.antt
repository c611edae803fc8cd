-- ===== src/Application/Runs/Tests.antt =====
-- Runs at a concrete home, with values that hold what was serialised.
use robine.Prelude.{ℕ, ◌≡◌, refl, String, true, none, some, List, [], ◌∷◌, arith, Result, ok, err}
use robine.Domain.Model.{Command, FlowRun}
use robine.Flow.Ast.{FlowAst}
use robine.Flow.Plan.{ExecutionPlan, AwaitTrigger}
use robine.Flow.Plan.Tests.{IsPlan-sample_plan}
use robine.Flow.Samples.{whole_numbers, sample_plan}
use robine.Flow.Runtime.Trace.{TraceStep}
use robine.Application.Home.{Home, Call}
use robine.Application.Runs.{Outside, initial, trace_for_run}
use robine.Application.Runs.Resume.{resume_run, execute_plan, new_run}
use robine.Application.Runs.Kept.{Kept, resume_run-Kept}
use robine.Application.Runs.Started.{Started, execute_plan-Started}

pub data Value : Type 0 where
  plan_value : ExecutionPlan ℕ → Value
  trace_value : List (TraceStep ℕ) → Value
  ast_value : FlowAst → Value
  trigger_value : AwaitTrigger ℕ → Value
  other_value : Value

abbrev pub as_plan : Value → Result String (ExecutionPlan ℕ)
as_plan (plan_value plan) = ok plan
as_plan _ = err "no plan"

abbrev pub as_trace : Value → Result String (List (TraceStep ℕ))
as_trace (trace_value trace) = ok trace
as_trace _ = err "no trace"

abbrev pub as_ast : Value → Result String FlowAst
as_ast (ast_value ast) = ok ast
as_ast _ = err "no document"

abbrev pub as_trigger : Value → Result String (AwaitTrigger ℕ)
as_trigger (trigger_value trigger) = ok trigger
as_trigger _ = err "no trigger"

abbrev pub outside : Outside ℕ Value
outside = record {
  parse_uuid = λ s. some s;
  plan_to_value = plan_value;
  plan_from_value = as_plan;
  trace_to_value = trace_value;
  trace_from_value = as_trace;
  trigger_to_value = trigger_value;
  trigger_from_value = as_trigger;
  result_to_value = λ _. other_value;
  ast_from_value = as_ast;
  new_command_id = λ _. "command";
  new_run_id = λ _. "run";
  new_correlation_id = λ _. "manual";
  plan_read = λ plan. refl;
  trace_read = λ trace. refl;
}

abbrev pub home : Home ℕ Value
home = record {
  store = record {
    devices = [];
    entities = [];
    areas = [];
    adapter_health = [];
    entity_state = [];
    commands = [];
    events = [];
    last_sequence = 0;
    flows =
        record {
          id = "flow";
          name = "Flow";
          enabled = true;
          revision = 1;
          ast = other_value;
          source = "";
          source_hash = "";
        }
        ∷ [];
    flow_runs = [];
    flow_trigger_claims = [];
    flow_run_traces = [];
    automation_engine_cursor = none;
  };
  published = [];
}

abbrev pub accept : Command ℕ → Call ℕ Value (Unit {0})
accept c w = (ok tt, w)

abbrev first_run : FlowRun Value
first_run = new_run outside "refused" accept "run" "flow" sample_plan 5 "cor"

execute_plan-Started_example :
    Started whole_numbers outside sample_plan first_run
      (execute_plan outside "refused" accept "run" "flow" sample_plan 5 "cor" home)
execute_plan-Started_example =
    execute_plan-Started whole_numbers outside "refused" accept "run" "flow" sample_plan 5 "cor"
      IsPlan-sample_plan home tt

no_trace : trace_for_run outside first_run ≡ ok []
unfolding trace_for_run
no_trace = refl

resume_run-Kept_example :
    Kept whole_numbers outside sample_plan first_run home
      (resume_run outside "refused" accept first_run 6 initial home)
resume_run-Kept_example =
    resume_run-Kept whole_numbers outside "refused" accept sample_plan first_run 6 initial [] home
      refl no_trace IsPlan-sample_plan (record { inside = omega arith; startable = omega arith })
