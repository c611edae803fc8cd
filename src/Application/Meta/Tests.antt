-- ===== src/Application/Meta/Tests.antt =====
-- The check of `meta` at concrete flows.
use robine.Prelude.{◌≡◌, refl, some, ok, err, [], ◌∷◌, chars}
use robine.Flow.Ast.{FlowAst, list, symbol, keyword, number, string, forms, wrap}
use robine.Flow.View.{find_section, digits_to, parse_u8}
use robine.Flow.Plan.{invalid_wait}
use robine.Flow.Plan.Duration.{multiplier, whole_milliseconds, duration_milliseconds}
use robine.Flow.Plan.Compile.{flow_concurrency, runtime_of, read_max_runtime, flow_max_runtime}
use robine.Flow.Samples.{number_of, whole_numbers, sample}
use robine.Application.Meta.{
  is_seen, is_valid, check_pairs, validate_meta_syntax, invalid_meta_diagnostic,
}
use robine.Application.Meta.Policy.{Succeeds, validate_meta_syntax-Succeeds}

running : Unit {0}
unfolding find_section digits_to parse_u8 chars is_seen is_valid check_pairs validate_meta_syntax
    number_of multiplier whole_milliseconds duration_milliseconds runtime_of read_max_runtime
    flow_max_runtime
running = tt

validate_meta_syntax-sample : validate_meta_syntax whole_numbers sample ≡ ok tt
unfolding running
validate_meta_syntax-sample = refl

abbrev named_twice : FlowAst
named_twice = wrap (
    list (
      forms (
        symbol "flow"
        ∷ list
            (forms (symbol "meta" ∷ keyword "name" ∷ string "a" ∷ keyword "name" ∷ string "b" ∷ []))
        ∷ [])))

validate_meta_syntax-twice :
    validate_meta_syntax whole_numbers named_twice
    ≡ err (invalid_meta_diagnostic "meta keys must not be repeated")
unfolding running
validate_meta_syntax-twice = refl

abbrev forty_days : FlowAst
forty_days = wrap (
    list (
      forms (
        symbol "flow"
        ∷ list (forms (symbol "meta" ∷ keyword "max-runtime" ∷ number "40" (some "d") ∷ []))
        ∷ [])))

-- The check accepts a maximal runtime that the compiler refuses.
forty_days-divergence :
    (validate_meta_syntax whole_numbers forty_days ≡ ok tt)
    × (flow_max_runtime whole_numbers forty_days.root ≡ err invalid_wait)
unfolding running
forty_days-divergence = (refl, refl)

validate_meta_syntax-Succeeds_example : Succeeds (flow_concurrency sample.root)
validate_meta_syntax-Succeeds_example =
    validate_meta_syntax-Succeeds whole_numbers sample validate_meta_syntax-sample
