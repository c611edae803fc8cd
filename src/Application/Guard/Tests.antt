-- ===== src/Application/Guard/Tests.antt =====
-- A condition at concrete states.
use robine.Prelude.{ℕ, ◌≡◌, refl, true, false, none, some, [], ◌∷◌, ok}
use robine.Domain.{StateValue}
use robine.Domain.Model.{StateQuality}
use robine.Flow.Ast.{FlowAst, Form, list, symbol, string, keyword, forms, wrap}
use robine.Flow.View.{find_section}
use robine.Flow.Samples.{whole_numbers, number_of}
use robine.Application.Guard.{guard_arm, guard_value, evaluate_guard_form, evaluate_guard}
use robine.Application.Guard.Syntax.{
  validate_guard_value_syntax, validate_guard_form_syntax, validate_guard_syntax,
}
use robine.Application.Guard.Sound.{Answers, evaluate_guard-Answers}
use robine.Store.{Store}
use robine.Store.Devices.{get_entity_state}

running : Unit {0}
unfolding find_section number_of guard_arm guard_value evaluate_guard_form evaluate_guard
    validate_guard_value_syntax validate_guard_form_syntax validate_guard_syntax get_entity_state
running = tt

abbrev lamp_state : Form
lamp_state = list (
    forms (
      symbol "state" ∷ list (forms (symbol "entity" ∷ string "lamp" ∷ [])) ∷ keyword "switch" ∷ []))

-- (flow (when (all (not (= (state …) true)) (present? (state …)))))
abbrev when_off : FlowAst
when_off = wrap (
    list (
      forms (
        symbol "flow"
        ∷ list (
            forms (
              symbol "when"
              ∷ list (
                  forms (
                    symbol "all"
                    ∷ list (
                        forms (
                          symbol "not"
                          ∷ list (forms (symbol "=" ∷ lamp_state ∷ Form.bool true ∷ []))
                          ∷ []))
                    ∷ list (forms (symbol "present?" ∷ lamp_state ∷ []))
                    ∷ []))
              ∷ []))
        ∷ [])))

abbrev lamp_off : Store ℕ ℕ
lamp_off = record {
  devices = [];
  entities = [];
  areas = [];
  adapter_health = [];
  entity_state =
      record {
        entity_id = "lamp";
        key = "switch";
        value = StateValue.bool false;
        quality = StateQuality.reported;
        source_at = 1;
        received_at = 1;
        version = 1;
      }
      ∷ [];
  commands = [];
  events = [];
  last_sequence = 0;
  flows = [];
  flow_runs = [];
  flow_trigger_claims = [];
  flow_run_traces = [];
  automation_engine_cursor = none;
}

when_off-valid : validate_guard_syntax whole_numbers (λ s. some s) when_off ≡ ok tt
unfolding running
when_off-valid = refl

when_off-true : evaluate_guard whole_numbers (λ s. some s) lamp_off when_off ≡ ok true
unfolding running
when_off-true = refl

evaluate_guard-Answers_example :
    Answers (evaluate_guard whole_numbers (λ s. some s) lamp_off when_off)
evaluate_guard-Answers_example =
    evaluate_guard-Answers whole_numbers (λ s. some s) lamp_off when_off when_off-valid
