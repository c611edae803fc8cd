-- ===== src/Application/Triggers.antt =====
-- crates/robine-application/src/lib.rs: which flows and which suspended runs an event or a state concerns.
pub mod Agree
mod Tests
use robine.Prelude.{
  String, Bool, true, false, Option, none, some, List, ◌∷◌, ◌==◌, ◌&&◌, ◌||◌, not, if◌then◌else◌,
  get_elem?, drop,
}
use robine.Domain.{StateValue}
use robine.Domain.Model.{Command, FlowDefinition, FlowRun, StateProperty, EventData, EventEnvelope}
use robine.Domain.Model
use robine.Flow.Ast.{
  FlowAst, Form, Forms, list, string, keyword, number, nil_forms, cons_forms, items, as_list,
  as_symbol, is_some_text,
}
use robine.Flow.Float.{F64}
use robine.Flow.View.{find_section, list_of, string_of, get_in}
use robine.Flow.Plan.{AwaitTrigger, AwaitTriggers, AwaitValue}

-- `trigger.windows(2).any(…)`
abbrev names_type : Form → Form → String → Bool
names_type (keyword key) (string value) name = key == "type" && value == name
names_type _ _ name = false

abbrev some_window : List Form → String → Bool
some_window (a ∷ b ∷ rest) name = names_type a b name || some_window (b ∷ rest) name
some_window _ name = false

abbrev pub is_string : Form → String → Bool
is_string (string value) text = value == text
is_string _ text = false

-- the list behind `on`
abbrev pub on_trigger : FlowAst → Option Form
on_trigger ast = get_in (on_section (as_list ast.root)) 1
  where
    on_section : Option (List Form) → Option (List Form)
    on_section none = none
    on_section (some forms) = find_section "on" forms

module _ {F J : Type 0} where
  abbrev is_confirmation : EventData F J → String → Bool
  is_confirmation (EventData.command_confirmed command) id = command.id == id
  is_confirmation _ id = false

  unfoldable mutual
    unfolding Model.event_type

    pub await_trigger_matches_event : AwaitTrigger F → EventEnvelope F J → Bool
    await_trigger_matches_event (AwaitTrigger.any_of triggers) event =
        any_matches_event triggers event
    await_trigger_matches_event (AwaitTrigger.event_type name) event =
        Model.event_type event.content == name
    await_trigger_matches_event (AwaitTrigger.command_confirmed id) event =
        is_confirmation event.content id
    await_trigger_matches_event (AwaitTrigger.state_changed _ _ _) event = false

    any_matches_event : AwaitTriggers F → EventEnvelope F J → Bool
    any_matches_event AwaitTriggers.no_triggers event = false
    any_matches_event (AwaitTriggers.cons_triggers t ts) event =
        await_trigger_matches_event t event || any_matches_event ts event

  unfoldable mutual
    unfolding Model.event_type

    pub event_trigger_form_matches : Forms → EventEnvelope F J → Bool
    event_trigger_form_matches nil_forms event = false
    event_trigger_form_matches (cons_forms head rest) event =
        let any = event_members_match rest event in
        if is_some_text (as_symbol head) "any-of"
        then any
        else (if is_some_text (as_symbol head) "event"
            then some_window (head ∷ items rest) (Model.event_type event.content)
            else false)

    event_members_match : Forms → EventEnvelope F J → Bool
    event_members_match nil_forms event = false
    event_members_match (cons_forms (list fs) rest) event =
        event_trigger_form_matches fs event || event_members_match rest event
    event_members_match (cons_forms _ rest) event = event_members_match rest event

  abbrev event_form_matches : Option Form → EventEnvelope F J → Bool
  event_form_matches (some (list fs)) event = event_trigger_form_matches fs event
  event_form_matches _ event = false

  unfoldable pub event_trigger_matches : FlowAst → EventEnvelope F J → Bool
  event_trigger_matches ast event = event_form_matches (on_trigger ast) event

module _ {F : Type 0} (f : F64 F) where
  open f use {parse_f64, close_f64}

  abbrev close_to : Option F → F → Bool
  close_to none y = false
  close_to (some x) y = close_f64 x y

  unfoldable pub form_matches_state_value : Form → StateValue F → Bool
  form_matches_state_value (Form.bool a) (StateValue.bool b) = (a && b) || (not a && not b)
  form_matches_state_value (number literal (some unit)) (StateValue.percentage y) =
      unit == "%" && close_to (parse_f64 literal) y
  form_matches_state_value (string a) (StateValue.text b) = a == b
  form_matches_state_value _ _ = false

  -- the loop over the pairs behind the entity; a last form without a partner is passed over
  abbrev pub pairs_match : List Form → StateProperty F → Bool
  pairs_match (keyword key ∷ value ∷ rest) state =
      let more = pairs_match rest state in
      if key == "property"
      then is_string value state.key && more
      else if key == "to"
      then form_matches_state_value value state.value && more
      else more
  pairs_match (_ ∷ _ ∷ rest) state = pairs_match rest state
  pairs_match _ state = true

  abbrev pub names_entity : Option String → String → Bool
  names_entity none id = false
  names_entity (some entity) id = entity == id

  unfoldable mutual
    unfolding form_matches_state_value

    pub state_trigger_form_matches : Forms → StateProperty F → Bool
    state_trigger_form_matches nil_forms state = false
    state_trigger_form_matches (cons_forms head rest) state =
        let any = state_members_match rest state in
        if is_some_text (as_symbol head) "any-of"
        then any
        else (is_some_text (as_symbol head) "state-changed"
            && names_entity (string_of (get_in (list_of (get_elem? (items rest) 0)) 1))
                state.entity_id
            && pairs_match (drop 1 (items rest)) state)

    pub state_members_match : Forms → StateProperty F → Bool
    state_members_match nil_forms state = false
    state_members_match (cons_forms (list fs) rest) state =
        state_trigger_form_matches fs state || state_members_match rest state
    state_members_match (cons_forms _ rest) state = state_members_match rest state

  abbrev state_form_matches : Option Form → StateProperty F → Bool
  state_form_matches (some (list fs)) state = state_trigger_form_matches fs state
  state_form_matches _ state = false

  unfoldable pub state_trigger_matches : FlowAst → StateProperty F → Bool
  state_trigger_matches ast state = state_form_matches (on_trigger ast) state

  abbrev pub expects : Option (AwaitValue F) → StateValue F → Bool
  expects none value = true
  expects (some (AwaitValue.bool a)) (StateValue.bool b) = (a && b) || (not a && not b)
  expects (some (AwaitValue.percentage x)) (StateValue.percentage y) = close_f64 x y
  expects (some (AwaitValue.text a)) (StateValue.text b) = a == b
  expects (some _) _ = false

  unfoldable mutual
    pub await_trigger_matches_state : AwaitTrigger F → StateProperty F → Bool
    await_trigger_matches_state (AwaitTrigger.any_of triggers) state =
        any_matches_state triggers state
    await_trigger_matches_state (AwaitTrigger.state_changed entity_id property to) state =
        entity_id == state.entity_id && property == state.key && expects to state.value
    await_trigger_matches_state (AwaitTrigger.event_type _) state = false
    await_trigger_matches_state (AwaitTrigger.command_confirmed _) state = false

    pub any_matches_state : AwaitTriggers F → StateProperty F → Bool
    any_matches_state AwaitTriggers.no_triggers state = false
    any_matches_state (AwaitTriggers.cons_triggers t ts) state =
        await_trigger_matches_state t state || any_matches_state ts state
