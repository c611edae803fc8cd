-- ===== src/Flow/Plan/Tests.antt =====
-- The compiler of plans at a concrete flow.
use robine.Prelude.{◌≡◌, refl, err, ok, chars}
use robine.Flow.Ast.{validate, validate_root}
use robine.Flow.View.{find_section, digits_to, parse_u8}
use robine.Flow.Plan.Duration.{multiplier, whole_milliseconds, duration_milliseconds}
use robine.Flow.Plan.Options.{
  brightness_of, timeout_of, read_option, read_options, settle, command_options,
}
use robine.Flow.Plan.Action.{
  compile_command, compile_wait, compile_audit, pop, retry_options, single_retryable, compile_retry,
  compile_action,
}
use robine.Flow.Plan.Compile.{
  mode_of, read_policy, read_policies, flow_concurrency, runtime_of, read_max_runtime,
  flow_max_runtime, compile_body, compile,
}
use robine.Flow.Plan.Compile.Bounds.{IsPlan, Compiles, compile-Compiles}
use robine.Flow.Samples.{number_of, whole_numbers, sample, sample_plan, idle_timeout}
use robine.Flow.Plan.{invalid_confirmation}

-- Names all that a run computes with.
running : Unit {0}
unfolding validate validate_root find_section digits_to parse_u8 chars multiplier whole_milliseconds
    duration_milliseconds brightness_of timeout_of read_option read_options settle command_options
    compile_command compile_wait compile_audit pop retry_options single_retryable compile_retry
    compile_action mode_of read_policy read_policies flow_concurrency runtime_of read_max_runtime
    flow_max_runtime compile_body compile number_of
running = tt

pub compile-sample : compile whole_numbers sample ≡ ok sample_plan
unfolding running
compile-sample = refl

compile-Compiles_example : Compiles whole_numbers sample sample_plan
compile-Compiles_example = compile-Compiles whole_numbers sample sample_plan compile-sample

pub IsPlan-sample_plan : IsPlan whole_numbers sample_plan
IsPlan-sample_plan = (compile-Compiles whole_numbers sample sample_plan compile-sample).0

pub compile-idle_timeout : compile whole_numbers idle_timeout ≡ err invalid_confirmation
unfolding running
compile-idle_timeout = refl
