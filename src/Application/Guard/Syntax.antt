-- ===== src/Application/Guard/Syntax.antt =====
-- crates/robine-application/src/lib.rs: `validate_guard_syntax`, the check of a flow's condition, and what
-- it is good for.
use robine.Prelude.{
  String, ◌<>◌, Bool, true, false, Option, none, some, List, [], ◌∷◌, ◌==◌, ◌&&◌, not, eqb, length,
  if◌then◌else◌, Result, ok, err,
}
use robine.Flow.Ast.{
  FlowAst, Form, Forms, list, string, number, nil_forms, cons_forms, items, as_list, as_symbol,
  head_symbol, is_some_text,
}
use robine.Flow.Float.{F64}
use robine.Flow.View.{is_empty_text}
use robine.Flow.Check.{diag}
use robine.Application.Errors.{FlowError}
use robine.Application.Guard.{
  GuardArm, all_of, any_of, negation, presence, comparison, all_empty, any_empty, not_misapplied,
  presence_misapplied, no_symbol, unsupported, guard_arm, state_entity, state_property, at,
  guard_section,
}

abbrev pub invalid_guard_diagnostic : String → FlowError
invalid_guard_diagnostic message =
    FlowError.validation (diag "flow.guard_unsupported" message "$/when" ∷ [])

-- `try_for_each`
abbrev pub try_each : List (Result FlowError (Unit {0})) → Result FlowError (Unit {0})
try_each [] = ok tt
try_each (err e ∷ rest) = err e
try_each (ok _ ∷ rest) = try_each rest

abbrev pub first_check : List (Result FlowError (Unit {0})) → Result FlowError (Unit {0})
first_check [] = err (invalid_guard_diagnostic "not requires exactly one condition")
first_check (c ∷ _) = c

abbrev pub both :
    Result FlowError (Unit {0}) → Result FlowError (Unit {0}) → Result FlowError (Unit {0})
both (err e) second = err e
both (ok _) second = second

module _ {F : Type 0} (f : F64 F) (parse_uuid : String → Option String) where
  open f use {parse_f64}

  abbrev pub is_parsed : {A : Type 0} → Option A → Bool
  is_parsed none = false
  is_parsed (some _) = true

  abbrev pub is_uuid : Option String → Bool
  is_uuid none = false
  is_uuid (some entity) = is_parsed (parse_uuid entity)

  abbrev pub is_named : Option String → Bool
  is_named none = false
  is_named (some property) = not (is_empty_text property)

  unfoldable pub validate_guard_value_syntax : Form → Result FlowError (Unit {0})
  validate_guard_value_syntax (Form.bool _) = ok tt
  validate_guard_value_syntax (string _) = ok tt
  validate_guard_value_syntax (number literal (some unit)) =
      if unit == "%" && is_parsed (parse_f64 literal)
      then ok tt
      else err (invalid_guard_diagnostic "unsupported value in guard")
  validate_guard_value_syntax (list fs) =
      if is_some_text (head_symbol (items fs)) "state"
      then (if eqb (length (items fs)) 3
            && is_uuid (state_entity (items fs))
            && is_named (state_property (items fs))
          then ok tt
          else err
              (invalid_guard_diagnostic "state requires a UUID entity reference and one property"))
      else err (invalid_guard_diagnostic "unsupported value in guard")
  validate_guard_value_syntax _ = err (invalid_guard_diagnostic "unsupported value in guard")

  abbrev pub validate_arm :
      GuardArm → List Form → List (Result FlowError (Unit {0})) → Result FlowError (Unit {0})
  validate_arm all_of forms checks = try_each checks
  validate_arm any_of forms checks = try_each checks
  validate_arm negation forms checks = first_check checks
  validate_arm presence forms checks = validate_guard_value_syntax (at forms 0)
  validate_arm (comparison operator) forms checks =
      both (validate_guard_value_syntax (at forms 0)) (validate_guard_value_syntax (at forms 1))
  validate_arm all_empty forms checks =
      err (invalid_guard_diagnostic "all and any require at least one condition")
  validate_arm any_empty forms checks =
      err (invalid_guard_diagnostic "all and any require at least one condition")
  validate_arm not_misapplied forms checks =
      err (invalid_guard_diagnostic "not requires exactly one condition")
  validate_arm presence_misapplied forms checks =
      err (invalid_guard_diagnostic "available? and present? require exactly one value")
  validate_arm (unsupported head) forms checks =
      err (invalid_guard_diagnostic ("unsupported guard form " <> head))
  validate_arm no_symbol forms checks = err (invalid_guard_diagnostic "guard form has no symbol")

  unfoldable mutual
    pub validate_guard_form_syntax : Form → Result FlowError (Unit {0})
    validate_guard_form_syntax (list nil_forms) =
        err (invalid_guard_diagnostic "guard form has no symbol")
    validate_guard_form_syntax (list (cons_forms head rest)) =
        validate_arm (guard_arm (as_symbol head) (length (items rest))) (items rest)
          (validate_guard_forms rest)
    validate_guard_form_syntax _ =
        err (invalid_guard_diagnostic "guard must be a boolean expression")

    pub validate_guard_forms : Forms → List (Result FlowError (Unit {0}))
    validate_guard_forms nil_forms = []
    validate_guard_forms (cons_forms form rest) =
        validate_guard_form_syntax form ∷ validate_guard_forms rest

  abbrev pub validate_when : Option (List Form) → Result FlowError (Unit {0})
  validate_when none = ok tt
  validate_when (some (head ∷ form ∷ [])) = validate_guard_form_syntax form
  validate_when (some _) = err (invalid_guard_diagnostic "when requires exactly one condition")

  unfoldable pub validate_guard_syntax : FlowAst → Result FlowError (Unit {0})
  validate_guard_syntax ast = validate_when (guard_section (as_list ast.root))
