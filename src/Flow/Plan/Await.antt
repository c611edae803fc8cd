-- ===== src/Flow/Plan/Await.antt =====
-- crates/robine-flow-plan/src/lib.rs: `compile_await_trigger`.
use robine.Prelude.{
  String, Bool, true, false, Option, none, some, List, ◌∷◌, ◌==◌, if◌then◌else◌, Result, ok, err,
  ◌>>=◌, ok_or, all, get_elem?, drop,
}
use robine.Flow.Ast.{
  Form, Forms, list, symbol, keyword, string, bool, number, nil_forms, cons_forms, items, as_symbol,
}
use robine.Flow.Float.{F64}
use robine.Flow.View.{list_of, get_in, string_of, non_empty, is_empty_text}
use robine.Flow.Plan.{
  AwaitValue, AwaitTrigger, AwaitTriggers, any_of, event_type, state_changed, no_triggers,
  cons_triggers, PlanError, invalid_await,
}

abbrev pub is_list : Form → Bool
is_list (list _) = true
is_list _ = false

-- the value of one window, if its first form is the keyword `:type`
abbrev type_value : Form → Option String
type_value (string value) = some value
type_value (symbol value) = some value
type_value _ = none

abbrev or_else {ℓ} : {A : Type ℓ} → Option A → Option A → Option A
or_else (some a) o = some a
or_else none o = o

abbrev window : Form → Form → Option String
window (keyword key) value = if key == "type" then type_value value else none
window _ value = none

-- `trigger.windows(2).find_map(…)`
unfoldable pub event_type_in : List Form → Option String
event_type_in (a ∷ b ∷ rest) = or_else (window a b) (event_type_in (b ∷ rest))
event_type_in _ = none

-- `.get(1).and_then(Form::list)`, then `.get(1)` as a string
abbrev pub entity_in : List Form → Option String
entity_in forms = string_of (get_in (list_of (get_elem? forms 1)) 1)

-- what the loop of `state-changed` keeps
pub record Watched (F : Type 0) : Type 0 where
  pub property : Option String
  pub to : Option (AwaitValue F)

-- `if triggers.is_empty()`
abbrev pub some_trigger : {F : Type 0} → AwaitTriggers F → Result PlanError (AwaitTrigger F)
some_trigger no_triggers = err invalid_await
some_trigger (cons_triggers t ts) = ok (any_of (cons_triggers t ts))

module _ {F : Type 0} (f : F64 F) where
  open f use {parse_f64}

  -- `match &trigger[index + 1]` of `:to`
  unfoldable pub await_value : Form → Result PlanError (AwaitValue F)
  await_value (bool value) = ok (AwaitValue.bool value)
  await_value (number literal (some unit)) =
      if unit == "%"
      then (do x ← ok_or invalid_await (parse_f64 literal); ok (AwaitValue.percentage x))
      else err invalid_await
  await_value (string value) = ok (AwaitValue.text value)
  await_value _ = err invalid_await

  abbrev pub property_of : Form → Result PlanError String
  property_of (string value) = if is_empty_text value then err invalid_await else ok value
  property_of _ = err invalid_await

  -- the `while` over the pairs behind the entity; a last form without a partner is passed over
  unfoldable pub watch : Watched F → List Form → Result PlanError (Watched F)
  unfolding await_value
  watch w (keyword key ∷ value ∷ rest) =
      if key == "property"
      then (property_of value >>= λ p. watch (record w { property = some p }) rest)
      else if key == "to"
      then (await_value value >>= λ v. watch (record w { to = some v }) rest)
      else err invalid_await
  watch w (_ ∷ _ ∷ _) = err invalid_await
  watch w _ = ok w

  -- the arm `"state-changed"`
  unfoldable pub compile_state_changed : List Form → Result PlanError (AwaitTrigger F)
  unfolding watch
  compile_state_changed trigger = do
    entity ← ok_or invalid_await (non_empty (entity_in trigger))
    w ← watch (record { property = none; to = none }) (drop 2 trigger)
    property ← ok_or invalid_await w.property
    ok (state_changed entity property w.to)

  -- the arm `"event"`
  unfoldable pub compile_event : List Form → Result PlanError (AwaitTrigger F)
  unfolding event_type_in
  compile_event trigger = do
    t ← ok_or invalid_await (non_empty (event_type_in trigger))
    ok (event_type t)

  -- the arm `"any-of"`, whose members are compiled
  abbrev any_of_lists :
      Bool → Result PlanError (AwaitTriggers F) → Result PlanError (AwaitTrigger F)
  any_of_lists lists compiled = if lists then (compiled >>= some_trigger) else err invalid_await

  -- `match trigger.first().and_then(Form::symbol)`
  abbrev trigger_named :
      Result PlanError (AwaitTrigger F)
      → List Form
      → Option String
      → Result PlanError (AwaitTrigger F)
  trigger_named any trigger none = err invalid_await
  trigger_named any trigger (some name) =
      if name == "any-of"
      then any
      else if name == "event"
      then compile_event trigger
      else if name == "state-changed"
      then compile_state_changed trigger
      else err invalid_await

  unfoldable mutual
    pub compile_await_trigger : Forms → Result PlanError (AwaitTrigger F)
    compile_await_trigger nil_forms = err invalid_await
    compile_await_trigger (cons_forms head rest) =
        trigger_named (any_of_lists (all is_list (items rest)) (compile_members rest))
          (head ∷ items rest) (as_symbol head)

    pub compile_members : Forms → Result PlanError (AwaitTriggers F)
    compile_members nil_forms = ok no_triggers
    compile_members (cons_forms member rest) =
        compile_member member >>= λ t. compile_members rest >>= λ ts. ok (cons_triggers t ts)

    pub compile_member : Form → Result PlanError (AwaitTrigger F)
    compile_member (list trigger) = compile_await_trigger trigger
    compile_member _ = err invalid_await
