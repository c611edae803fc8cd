-- ===== src/Application/Flows/Tests.antt =====
-- A flow that is executed at a concrete home.
use robine.Prelude.{ℕ, true, [], ◌∷◌}
use robine.Domain.Model.{FlowDefinition}
use robine.Flow.Samples.{whole_numbers, sample}
use robine.Application.Home.{Home}
use robine.Application.Runs.Tests.{Value, outside, home, accept}
use robine.Application.Flows.{execute_flow}
use robine.Application.Flows.Executed.{Executed, execute_flow-Executed}

abbrev sample_flow : FlowDefinition Value
sample_flow = record {
  id = "flow";
  name = "Flow";
  enabled = true;
  revision = 1;
  ast = Value.ast_value sample;
  source = "";
  source_hash = "";
}

abbrev home_with_flow : Home ℕ Value
home_with_flow = record home { store = record home.store { flows = sample_flow ∷ [] } }

execute_flow-Executed_example :
    Executed whole_numbers outside "refused" accept "run" sample_flow 5 "cor" home_with_flow
      (execute_flow whole_numbers outside "refused" accept "run" sample_flow 5 "cor" home_with_flow)
execute_flow-Executed_example =
    execute_flow-Executed whole_numbers outside "refused" accept "run" sample_flow 5 "cor"
      home_with_flow tt
