-- ===== src/Flow/Check/Tests.antt =====
-- The checker at concrete flows.
use robine.Prelude.{◌≡◌, refl, [], err, decimal}
use robine.Flow.Ast.{validate, validate_root}
use robine.Flow.Plan.{invalid_confirmation}
use robine.Flow.Plan.Compile.{compile}
use robine.Flow.Plan.Tests.{compile-sample, compile-idle_timeout}
use robine.Flow.Samples.{whole_numbers, sample, sample_plan, idle_timeout, catalog}
use robine.Flow.Check.{
  check_confirm, check_option, check_options, validate_command, validate_comparison, check_head,
  visit, validate_flow,
}
use robine.Flow.Check.Compiled.{AreSupported}
use robine.Flow.Check.Commands.{validate-AreSupported}

running : Unit {0}
unfolding validate validate_root decimal check_confirm check_option check_options validate_command
    validate_comparison check_head visit validate_flow
running = tt

validate-sample : validate_flow catalog sample ≡ []
unfolding running
validate-sample = refl

-- The checker finds nothing in a flow that does not compile.
idle_timeout-divergence :
    (validate_flow catalog idle_timeout ≡ [])
    × (compile whole_numbers idle_timeout ≡ err invalid_confirmation)
unfolding running
idle_timeout-divergence = (refl, compile-idle_timeout)

validate-AreSupported_example : AreSupported whole_numbers catalog sample_plan.actions
validate-AreSupported_example =
    validate-AreSupported whole_numbers catalog sample sample_plan validate-sample compile-sample
