-- ===== src/Application/Choose/Tests.antt =====
-- A choice within a branch of a choice.
use robine.Prelude.{ℕ, ◌≡◌, refl, String, true, false, none, some, List, [], ◌∷◌, ok}
use robine.Flow.Ast.{
  FlowAst, Form, list, symbol, string, keyword, forms, wrap, validate_root, new, read_sections,
  place_section, section_position,
}
use robine.Flow.Samples.{whole_numbers}
use robine.Application.Guard.{guard_arm, guard_value, evaluate_guard_form}
use robine.Application.Choose.{choice, resolve_sequence, resolve_choose_actions}
use robine.Application.Choose.Resolved.{IsSettledRoot, resolve_choose_actions-IsSettledRoot}
use robine.Store.{Store}

running : Unit {0}
unfolding guard_arm guard_value evaluate_guard_form resolve_sequence resolve_choose_actions
    validate_root new read_sections place_section section_position
running = tt

abbrev say : String → Form
say message = list (forms (symbol "audit" ∷ keyword "message" ∷ string message ∷ []))

abbrev equal : String → String → Form
equal a b = list (forms (symbol "=" ∷ string a ∷ string b ∷ []))

abbrev flow_with : List Form → FlowAst
flow_with body = wrap (
    list (
      forms (
        symbol "flow"
        ∷ list (forms (symbol "on" ∷ list (forms (symbol "event" ∷ [])) ∷ []))
        ∷ list (forms (symbol "do" ∷ body))
        ∷ [])))

abbrev choosing : FlowAst
choosing = flow_with (
    list (
      forms (
        symbol "choose"
        ∷ equal "a" "b"
        ∷ list (forms (symbol "do" ∷ say "no" ∷ []))
        ∷ list (
            forms (
              symbol "do"
              ∷ list (
                  forms (
                    symbol "choose"
                    ∷ equal "a" "a"
                    ∷ list (forms (symbol "do" ∷ say "yes" ∷ []))
                    ∷ []))
              ∷ []))
        ∷ []))
    ∷ [])

abbrev settled : FlowAst
settled = flow_with (choice false ∷ choice true ∷ say "yes" ∷ [])

abbrev nothing_stored : Store ℕ ℕ
nothing_stored = record {
  devices = [];
  entities = [];
  areas = [];
  adapter_health = [];
  entity_state = [];
  commands = [];
  events = [];
  last_sequence = 0;
  flows = [];
  flow_runs = [];
  flow_trigger_claims = [];
  flow_run_traces = [];
  automation_engine_cursor = none;
}

choosing-settled :
    resolve_choose_actions whole_numbers (λ s. some s) nothing_stored choosing ≡ ok settled
unfolding running
choosing-settled = refl

resolve_choose_actions-IsSettledRoot_example : IsSettledRoot settled.root
resolve_choose_actions-IsSettledRoot_example =
    resolve_choose_actions-IsSettledRoot whole_numbers (λ s. some s) nothing_stored choosing settled
      choosing-settled
