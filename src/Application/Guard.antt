-- ===== src/Application/Guard.antt =====
-- crates/robine-application/src/lib.rs: the condition of a flow, `evaluate_guard`.
pub mod Syntax
pub mod Sound
mod Tests
use robine.Prelude.{
  ℕ, String, ◌<>◌, Bool, true, false, Option, none, some, List, [], ◌∷◌, ◌==◌, ◌&&◌, ◌||◌, not, eqb,
  length, if◌then◌else◌, Result, ok, err, get_elem?,
}
use robine.Prelude.Tables.{find_row}
use robine.Domain.{StateValue}
use robine.Domain.Model.{StateProperty, StateQuality}
use robine.Flow.Ast.{
  FlowAst, Form, Forms, list, string, keyword, number, nil_forms, cons_forms, items, as_list,
  as_symbol, head_symbol, is_some_text,
}
use robine.Flow.Float.{F64}
use robine.Flow.View.{find_section, string_of, list_of, get_in}
use robine.Application.Errors.{ApplicationError, FlowError}
use robine.Store.{Store}
use robine.Store.Devices.{get_entity_state}

abbrev pub guard_error : String → FlowError
guard_error message = FlowError.application (ApplicationError.validation message)

pub data GuardValue (F : Type 0) : Type 0 where
  bool : Bool → GuardValue F
  percentage : F → GuardValue F
  text : String → GuardValue F

-- The arms of the matches on `items.first().and_then(Form::symbol)`, with their tests of `items.len()`
pub data GuardArm : Type 0 where
  all_of any_of negation presence : GuardArm
  comparison : String → GuardArm
  all_empty any_empty not_misapplied presence_misapplied no_symbol : GuardArm
  unsupported : String → GuardArm

abbrev is_comparison_head : String → Bool
is_comparison_head head =
    head == "=" || head == "!=" || head == "<" || head == "<=" || head == ">" || head == ">="

unfoldable pub guard_arm : Option String → ℕ → GuardArm
guard_arm none count = no_symbol
guard_arm (some head) count =
    if head == "all"
    then (if eqb count 0 then all_empty else all_of)
    else (if head == "any"
        then (if eqb count 0 then any_empty else any_of)
        else (if head == "not"
            then (if eqb count 1 then negation else not_misapplied)
            else (if head == "available?" || head == "present?"
                then (if eqb count 1 then presence else presence_misapplied)
                else if is_comparison_head head && eqb count 2
                then comparison head
                else unsupported head)))

-- `collect::<Result<Vec<_>, _>>()`, then `all` or `any`
abbrev pub all_values : List (Result FlowError Bool) → Result FlowError Bool
all_values [] = ok true
all_values (err e ∷ rest) = err e
all_values (ok b ∷ rest) = and_rest b (all_values rest)
  where
    and_rest : Bool → Result FlowError Bool → Result FlowError Bool
    and_rest b (err e) = err e
    and_rest b (ok c) = ok (b && c)

abbrev pub any_values : List (Result FlowError Bool) → Result FlowError Bool
any_values [] = ok false
any_values (err e ∷ rest) = err e
any_values (ok b ∷ rest) = or_rest b (any_values rest)
  where
    or_rest : Bool → Result FlowError Bool → Result FlowError Bool
    or_rest b (err e) = err e
    or_rest b (ok c) = ok (b || c)

abbrev pub negate : Result FlowError Bool → Result FlowError Bool
negate (err e) = err e
negate (ok b) = ok (not b)

abbrev is_known : StateQuality → Bool
is_known StateQuality.reported = true
is_known StateQuality.estimated = true
is_known _ = false

-- the entity in `(state (entity "…") …)`
abbrev entity_reference : Option (List Form) → Option String
entity_reference none = none
entity_reference (some forms) =
    if is_some_text (head_symbol forms) "entity" then string_of (get_elem? forms 1) else none

abbrev pub state_entity : List Form → Option String
state_entity forms = entity_reference (list_of (get_elem? forms 1))

-- its property
abbrev property_text : Option Form → Option String
property_text (some (keyword value)) = some value
property_text (some (string value)) = some value
property_text _ = none

abbrev pub state_property : List Form → Option String
state_property forms = property_text (get_elem? forms 2)

module _ {F : Type 0} where
  abbrev value_of : Option (StateProperty F) → Option (GuardValue F)
  value_of none = none
  value_of (some p) = elim (p.value) [
    | StateValue.bool b ↦ some (GuardValue.bool b)
    | StateValue.percentage x ↦ some (GuardValue.percentage x)
    | StateValue.text t ↦ some (GuardValue.text t)
  ]

abbrev pub first_value : List (Result FlowError Bool) → Result FlowError Bool
first_value [] = err (guard_error "not requires exactly one condition")
first_value (v ∷ _) = v

abbrev nothing : Form
nothing = Form.nil

abbrev pub at : List Form → ℕ → Form
at forms n = elim (get_elem? forms n) [ none ↦ nothing | some form ↦ form ]

abbrev pub guard_section : Option (List Form) → Option (List Form)
guard_section none = none
guard_section (some forms) = find_section "when" forms

module _ {F J : Type 0} (f : F64 F) (parse_uuid : String → Option String) (s : Store F J) where
  open f use {parse_f64, lt_f64, le_f64, close_f64}

  abbrev pub percentage_value : Option F → Result FlowError (Option (GuardValue F))
  percentage_value none = err (guard_error "invalid percentage in guard")
  percentage_value (some x) = ok (some (GuardValue.percentage x))

  abbrev pub stored_value : String → Option String → Result FlowError (Option (GuardValue F))
  stored_value property none = err (guard_error "state entity reference is not a UUID")
  stored_value property (some id) =
      ok
        (value_of (find_row (λ p. p.key == property && is_known p.quality) (get_entity_state id s)))

  abbrev pub property_value :
      List Form → String → Option String → Result FlowError (Option (GuardValue F))
  property_value forms entity none = err (guard_error "state requires a property")
  property_value forms entity (some property) =
      if eqb (length forms) 3
      then stored_value property (parse_uuid entity)
      else err (guard_error "state accepts only an entity and one property")

  abbrev pub state_value : List Form → Option String → Result FlowError (Option (GuardValue F))
  state_value forms none = err (guard_error "state requires an entity reference")
  state_value forms (some entity) = property_value forms entity (state_property forms)

  unfoldable pub guard_value : Form → Result FlowError (Option (GuardValue F))
  guard_value (Form.bool b) = ok (some (GuardValue.bool b))
  guard_value (string value) = ok (some (GuardValue.text value))
  guard_value (number literal (some unit)) =
      if unit == "%"
      then percentage_value (parse_f64 literal)
      else err (guard_error "unsupported value in guard")
  guard_value (list fs) =
      if is_some_text (head_symbol (items fs)) "state"
      then state_value (items fs) (state_entity (items fs))
      else err (guard_error "unsupported value in guard")
  guard_value _ = err (guard_error "unsupported value in guard")

  abbrev pub guard_values_equal : GuardValue F → GuardValue F → Bool
  guard_values_equal (GuardValue.bool a) (GuardValue.bool b) = (a && b) || (not a && not b)
  guard_values_equal (GuardValue.percentage x) (GuardValue.percentage y) = close_f64 x y
  guard_values_equal (GuardValue.text a) (GuardValue.text b) = a == b
  guard_values_equal _ _ = false

  -- the operators that order percentages
  abbrev compare_values : String → GuardValue F → GuardValue F → Bool
  compare_values operator (GuardValue.percentage x) (GuardValue.percentage y) =
      if operator == "<"
      then lt_f64 x y
      else if operator == "<="
      then le_f64 x y
      else if operator == ">"
      then lt_f64 y x
      else le_f64 y x
  compare_values operator _ _ = false

  abbrev pub compare_options : String → Option (GuardValue F) → Option (GuardValue F) → Bool
  compare_options operator none right = false
  compare_options operator (some left) none = false
  compare_options operator (some left) (some right) =
      if operator == "="
      then guard_values_equal left right
      else if operator == "!="
      then not (guard_values_equal left right)
      else compare_values operator left right

  abbrev pub is_there : Result FlowError (Option (GuardValue F)) → Result FlowError Bool
  is_there (err e) = err e
  is_there (ok none) = ok false
  is_there (ok (some _)) = ok true

  abbrev pub compared :
      String
      → Result FlowError (Option (GuardValue F))
      → Result FlowError (Option (GuardValue F))
      → Result FlowError Bool
  compared operator (err e) right = err e
  compared operator (ok left) (err e) = err e
  compared operator (ok left) (ok right) = ok (compare_options operator left right)

  -- The arms, at the forms behind the head and the values of these as conditions
  abbrev pub evaluate_arm :
      GuardArm → List Form → List (Result FlowError Bool) → Result FlowError Bool
  evaluate_arm all_of forms values = all_values values
  evaluate_arm any_of forms values = any_values values
  evaluate_arm negation forms values = negate (first_value values)
  evaluate_arm presence forms values = is_there (guard_value (at forms 0))
  evaluate_arm (comparison operator) forms values =
      compared operator (guard_value (at forms 0)) (guard_value (at forms 1))
  evaluate_arm all_empty forms values = err (guard_error "all requires at least one condition")
  evaluate_arm any_empty forms values = err (guard_error "any requires at least one condition")
  evaluate_arm not_misapplied forms values = err (guard_error "not requires exactly one condition")
  evaluate_arm presence_misapplied forms values =
      err (guard_error "available? and present? require exactly one value")
  evaluate_arm (unsupported head) forms values =
      err (guard_error ("unsupported guard form " <> head))
  evaluate_arm no_symbol forms values = err (guard_error "guard form has no symbol")

  unfoldable mutual
    pub evaluate_guard_form : Form → Result FlowError Bool
    evaluate_guard_form (list nil_forms) = err (guard_error "guard form has no symbol")
    evaluate_guard_form (list (cons_forms head rest)) =
        evaluate_arm (guard_arm (as_symbol head) (length (items rest))) (items rest)
          (evaluate_guard_forms rest)
    evaluate_guard_form _ = err (guard_error "guard must be a boolean expression")

    -- the forms as conditions
    pub evaluate_guard_forms : Forms → List (Result FlowError Bool)
    evaluate_guard_forms nil_forms = []
    evaluate_guard_forms (cons_forms form rest) =
        evaluate_guard_form form ∷ evaluate_guard_forms rest

  -- at the section `when`, if there is one
  abbrev pub evaluate_when : Option (List Form) → Result FlowError Bool
  evaluate_when none = ok true
  evaluate_when (some (head ∷ form ∷ [])) = evaluate_guard_form form
  evaluate_when (some _) = err (guard_error "when requires exactly one condition")

  unfoldable pub evaluate_guard : FlowAst → Result FlowError Bool
  evaluate_guard ast = evaluate_when (guard_section (as_list ast.root))
