-- ===== src/Application/Automation/Tests.antt =====
-- The consumption of an event at a concrete home.
use robine.Prelude.{ℕ, ◌≡◌, refl, true, none, [], ◌∷◌, arith}
use robine.Domain.Model.{FlowDefinition, EventEnvelope, area_created}
use robine.Flow.Ast.{FlowAst, list, symbol, keyword, string, forms}
use robine.Flow.Samples.{whole_numbers}
use robine.Application.Home.{Home}
use robine.Application.Runs.Tests.{Value, outside, home, accept}
use robine.Application.Automation.Again.{IsIdle, execute_event_triggered-IsIdle}
use robine.Application.Automation.{execute_event_triggered}
use robine.Application.Triggers.{event_trigger_matches, event_trigger_form_matches}
use robine.Store.Flows.{list_flows}
use robine.Store.Runs.{awaiting_flow_runs}
use robine.Flow.View.{find_section}
use robine.Prelude.{decimal}

abbrev on_area : FlowAst
on_area = record {
  dsl = "robine.flow";
  dsl_version = 1;
  root = list (
      forms (
        symbol "flow"
        ∷ list (
            forms (
              symbol "on"
              ∷ list (forms (symbol "event" ∷ keyword "type" ∷ string "area.created" ∷ []))
              ∷ []))
        ∷ []));
}

abbrev on_area_flow : FlowDefinition Value
on_area_flow = record {
  id = "flow";
  name = "Flow";
  enabled = true;
  revision = 1;
  ast = Value.ast_value on_area;
  source = "";
  source_hash = "";
}

abbrev area_event : EventEnvelope ℕ Value
area_event = record {
  sequence = 7;
  occurred_at = 5;
  correlation_id = none;
  content = area_created (record { id = "area"; name = "Area" });
}

-- The flow has claimed the event a moment ago.
abbrev home_after : Home ℕ Value
home_after = record home {
  store = record home.store {
    flows = on_area_flow ∷ [];
    flow_trigger_claims =
        record { flow_id = "flow"; correlation_id = "event:7"; claimed_at = 5 } ∷ [];
  };
}

is_triggered : event_trigger_matches on_area area_event ≡ true
unfolding event_trigger_matches find_section event_trigger_form_matches
is_triggered = refl

execute_event_triggered-IsIdle_example :
    IsIdle whole_numbers outside "refused" accept home_after
      (execute_event_triggered whole_numbers outside "refused" accept area_event 6 home_after)
unfolding event_trigger_matches awaiting_flow_runs list_flows find_section
    event_trigger_form_matches decimal
execute_event_triggered-IsIdle_example =
    execute_event_triggered-IsIdle whole_numbers outside "refused" accept area_event 5 6 home_after
      (omega arith) refl (refl, tt)
