-- ===== src/Application/Triggers/Tests.antt =====
-- A trigger form at a concrete state.
use robine.Prelude.{ℕ, ◌≡◌, refl, true, some, [], ◌∷◌}
use robine.Domain.{StateValue}
use robine.Domain.Model.{StateProperty, StateQuality}
use robine.Flow.Ast.{Forms, list, symbol, keyword, string, bool, forms}
use robine.Flow.Plan.{AwaitTrigger, AwaitValue, any_of, state_changed, cons_triggers, no_triggers}
use robine.Flow.Plan.Await.{compile_await_trigger, compile_state_changed}
use robine.Flow.Samples.{whole_numbers}
use robine.Application.Triggers.{state_trigger_form_matches, await_trigger_matches_state}
use robine.Application.Triggers.Agree.{compile_await_trigger-await_trigger_matches_state}

abbrev switched_on : Forms
switched_on = forms (
    symbol "any-of"
    ∷ list (
        forms (
          symbol "state-changed"
          ∷ list (forms (symbol "entity" ∷ string "light/a" ∷ []))
          ∷ keyword "property"
          ∷ string "switch"
          ∷ keyword "to"
          ∷ bool true
          ∷ []))
    ∷ [])

abbrev on_state : StateProperty ℕ
on_state = record {
  entity_id = "light/a";
  key = "switch";
  value = StateValue.bool true;
  quality = StateQuality.reported;
  source_at = 1;
  received_at = 1;
  version = 1;
}

abbrev awaited : AwaitTrigger ℕ
awaited =
    any_of
      (cons_triggers (state_changed "light/a" "switch" (some (AwaitValue.bool true))) no_triggers)

compile_await_trigger-await_trigger_matches_state_example :
    await_trigger_matches_state whole_numbers awaited on_state ≡ true
unfolding compile_await_trigger state_trigger_form_matches compile_state_changed
compile_await_trigger-await_trigger_matches_state_example =
    compile_await_trigger-await_trigger_matches_state whole_numbers on_state switched_on awaited
      refl refl
