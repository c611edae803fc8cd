-- ===== src/Application/Guard/Sound.antt =====
-- crates/robine-application/src/lib.rs: a condition that passes its check has a truth value.
use robine.Prelude.{
  ◌≡◌, refl, String, Bool, true, false, Option, none, some, List, [], ◌∷◌, ◌==◌, ◌&&◌, ◌||◌, not,
  eqb, length, Bool-cases, and-true, inl, inr, Result, ok, err,
}
use robine.Flow.Ast.{
  FlowAst, Form, Forms, list, string, keyword, symbol, number, nil_forms, cons_forms, items,
  as_list, as_symbol, head_symbol, is_some_text,
}
use robine.Flow.Float.{F64}
use robine.Application.Errors.{FlowError}
use robine.Application.Guard.{
  GuardValue, GuardArm, all_of, any_of, negation, presence, comparison, all_empty, any_empty,
  not_misapplied, presence_misapplied, no_symbol, unsupported, guard_arm, state_entity,
  state_property, guard_value, percentage_value, state_value, stored_value, all_values, any_values,
  negate, first_value, is_there, compared, evaluate_arm, evaluate_guard_form, evaluate_guard_forms,
  evaluate_when, evaluate_guard, at, guard_section,
}
use robine.Application.Guard.Syntax.{
  try_each, first_check, both, is_parsed, is_uuid, is_named, validate_guard_value_syntax,
  validate_arm, validate_guard_form_syntax, validate_guard_forms, validate_when,
  validate_guard_syntax,
}
use robine.Store.{Store}

-- A result that is no error
abbrev pub Answers : {A : Type 0} → Result FlowError A → Type 0
Answers {A = A} r = (a : A) × (r ≡ ok a)

-- Each condition that passes its check has a value.
abbrev AreSound : List (Result FlowError (Unit {0})) → List (Result FlowError Bool) → Type 0
AreSound [] [] = Unit
AreSound (c ∷ checks) (v ∷ values) = (c ≡ ok tt → Answers v) × AreSound checks values
AreSound _ _ = ⊥

all_values-Answers :
    (checks : List (Result FlowError (Unit {0}))) (values : List (Result FlowError Bool))
    → AreSound checks values
    → try_each checks ≡ ok tt
    → Answers (all_values values)
all_values-Answers [] [] h e = (true, refl)
all_values-Answers [] (v ∷ values) h e = absurd h
all_values-Answers (c ∷ checks) [] h e = absurd h
all_values-Answers (err x ∷ checks) (v ∷ values) h e = cc e
all_values-Answers (ok _ ∷ checks) (v ∷ values) h e =
    let (b, known) = h.0 refl in
    let (c, rest) = all_values-Answers checks values h.1 e in (b && c, rw (known, rest) refl)

any_values-Answers :
    (checks : List (Result FlowError (Unit {0}))) (values : List (Result FlowError Bool))
    → AreSound checks values
    → try_each checks ≡ ok tt
    → Answers (any_values values)
any_values-Answers [] [] h e = (false, refl)
any_values-Answers [] (v ∷ values) h e = absurd h
any_values-Answers (c ∷ checks) [] h e = absurd h
any_values-Answers (err x ∷ checks) (v ∷ values) h e = cc e
any_values-Answers (ok _ ∷ checks) (v ∷ values) h e =
    let (b, known) = h.0 refl in
    let (c, rest) = any_values-Answers checks values h.1 e in (b || c, rw (known, rest) refl)

negate-Answers :
    (checks : List (Result FlowError (Unit {0}))) (values : List (Result FlowError Bool))
    → AreSound checks values
    → first_check checks ≡ ok tt
    → Answers (negate (first_value values))
negate-Answers [] values h e = cc e
negate-Answers (c ∷ checks) [] h e = absurd h
negate-Answers (c ∷ checks) (v ∷ values) h e = let (b, known) = h.0 e in (not b, rw known refl)

both-ok : (a b : Result FlowError (Unit {0})) → both a b ≡ ok tt → (a ≡ ok tt) × (b ≡ ok tt)
both-ok (err x) b e = cc e
both-ok (ok _) b e = (refl, e)

module _ {F J : Type 0} (f : F64 F) (parse_uuid : String → Option String) (s : Store F J) where
  open f use {parse_f64}

  is_there-Answers :
      (r : Result FlowError (Option (GuardValue F)))
      → Answers r
      → Answers (is_there f parse_uuid s r)
  is_there-Answers (ok none) h = (false, refl)
  is_there-Answers (ok (some v)) h = (true, refl)
  is_there-Answers (err x) h = cc h.1

  compared-Answers :
      (operator : String) (l r : Result FlowError (Option (GuardValue F)))
      → Answers l
      → Answers r
      → Answers (compared f parse_uuid s operator l r)
  compared-Answers operator (ok l) (ok r) h k = (_, refl)
  compared-Answers operator (err x) r h k = cc h.1
  compared-Answers operator (ok l) (err x) h k = cc k.1

  stored-Answers :
      (property : String) (id : Option String)
      → is_parsed f parse_uuid id ≡ true
      → Answers (stored_value f parse_uuid s property id)
  stored-Answers property none e = cc e
  stored-Answers property (some id) e = (_, refl)

  state-Answers :
      (forms : List Form) (entity property : Option String)
      → state_property forms ≡ property
      → (eqb (length forms) 3 && is_uuid f parse_uuid entity && is_named f parse_uuid property)
        ≡ true
      → Answers (state_value f parse_uuid s forms entity)
  state-Answers forms none property p e =
      let (first, _) =
        and-true {a = eqb (length forms) 3 && false} {b = is_named f parse_uuid property} e in
      let (_, clash) = and-true {a = eqb (length forms) 3} {b = false} first in cc clash
  state-Answers forms (some entity) none p e =
      let (_, clash) =
        and-true {a = eqb (length forms) 3 && is_uuid f parse_uuid (some entity)} {b = false} e in
      cc clash
  state-Answers forms (some entity) (some property) p e =
      let (first, _) = and-true e in
      let (three, uuid) =
        and-true {a = eqb (length forms) 3} {b = is_uuid f parse_uuid (some entity)} first in
      rw (p, three) (stored-Answers property (parse_uuid entity) uuid)

  percentage-Answers :
      (x : Option F) → is_parsed f parse_uuid x ≡ true → Answers (percentage_value f parse_uuid s x)
  percentage-Answers none e = cc e
  percentage-Answers (some x) e = (_, refl)

  guard_value-Answers :
      (form : Form)
      → validate_guard_value_syntax f parse_uuid form ≡ ok tt
      → Answers (guard_value f parse_uuid s form)
  unfolding validate_guard_value_syntax guard_value
  guard_value-Answers (Form.bool b) e = (_, refl)
  guard_value-Answers (string value) e = (_, refl)
  guard_value-Answers (number literal (some unit)) e =
      elim (Bool-cases (unit == "%" && is_parsed f parse_uuid (parse_f64 literal))) [
        | inl t ↦
            let (percent, parsed) =
              and-true {a = unit == "%"} {b = is_parsed f parse_uuid (parse_f64 literal)} t in
            rw percent (percentage-Answers (parse_f64 literal) parsed)
        | inr t ↦ let clash = (rw t at e) in cc clash
      ]
  guard_value-Answers (number literal none) e = cc e
  guard_value-Answers (list fs) e =
      elim (Bool-cases (is_some_text (head_symbol (items fs)) "state")) [
        | inr t ↦ let clash = (rw t at e) in cc clash
        | inl t ↦
            elim (Bool-cases (
              eqb (length (items fs)) 3
              && is_uuid f parse_uuid (state_entity (items fs))
              && is_named f parse_uuid (state_property (items fs)))) [
                | inr u ↦ let clash = (rw (t, u) at e) in cc clash
                | inl u ↦ rw t (
                    state-Answers (items fs) (state_entity (items fs)) (state_property (items fs))
                      refl u)
              ]
      ]
  guard_value-Answers (symbol _) e = cc e
  guard_value-Answers (keyword _) e = cc e
  guard_value-Answers Form.nil e = cc e

  evaluate_arm-Answers :
      (arm : GuardArm) (forms : List Form) (checks : List (Result FlowError (Unit {0})))
      (values : List (Result FlowError Bool))
      → AreSound checks values
      → validate_arm f parse_uuid arm forms checks ≡ ok tt
      → Answers (evaluate_arm f parse_uuid s arm forms values)
  evaluate_arm-Answers all_of forms checks values h e = all_values-Answers checks values h e
  evaluate_arm-Answers any_of forms checks values h e = any_values-Answers checks values h e
  evaluate_arm-Answers negation forms checks values h e = negate-Answers checks values h e
  evaluate_arm-Answers presence forms checks values h e =
      is_there-Answers (guard_value f parse_uuid s (at forms 0))
        (guard_value-Answers (at forms 0) e)
  evaluate_arm-Answers (comparison operator) forms checks values h e =
      let (l, r) = both-ok _ _ e in
      compared-Answers operator (guard_value f parse_uuid s (at forms 0))
        (guard_value f parse_uuid s (at forms 1)) (guard_value-Answers (at forms 0) l)
        (guard_value-Answers (at forms 1) r)
  evaluate_arm-Answers all_empty forms checks values h e = cc e
  evaluate_arm-Answers any_empty forms checks values h e = cc e
  evaluate_arm-Answers not_misapplied forms checks values h e = cc e
  evaluate_arm-Answers presence_misapplied forms checks values h e = cc e
  evaluate_arm-Answers (unsupported head) forms checks values h e = cc e
  evaluate_arm-Answers no_symbol forms checks values h e = cc e

  mutual
    unfolding validate_guard_form_syntax evaluate_guard_form

    evaluate_guard_form-Answers :
        (form : Form)
        → validate_guard_form_syntax f parse_uuid form ≡ ok tt
        → Answers (evaluate_guard_form f parse_uuid s form)
    evaluate_guard_form-Answers (list nil_forms) e = cc e
    evaluate_guard_form-Answers (list (cons_forms head rest)) e =
        evaluate_arm-Answers (guard_arm (as_symbol head) (length (items rest))) (items rest)
          (validate_guard_forms f parse_uuid rest) (evaluate_guard_forms f parse_uuid s rest)
          (guard_forms-AreSound rest) e
    evaluate_guard_form-Answers (symbol _) e = cc e
    evaluate_guard_form-Answers (keyword _) e = cc e
    evaluate_guard_form-Answers (string _) e = cc e
    evaluate_guard_form-Answers (number _ _) e = cc e
    evaluate_guard_form-Answers (Form.bool _) e = cc e
    evaluate_guard_form-Answers Form.nil e = cc e

    guard_forms-AreSound :
        (fs : Forms)
        → AreSound (validate_guard_forms f parse_uuid fs) (evaluate_guard_forms f parse_uuid s fs)
    guard_forms-AreSound nil_forms = tt
    guard_forms-AreSound (cons_forms form rest) =
        (evaluate_guard_form-Answers form, guard_forms-AreSound rest)

  evaluate_when-Answers :
      (section : Option (List Form))
      → validate_when f parse_uuid section ≡ ok tt
      → Answers (evaluate_when f parse_uuid s section)
  evaluate_when-Answers none e = (true, refl)
  evaluate_when-Answers (some (head ∷ form ∷ [])) e = evaluate_guard_form-Answers form e
  evaluate_when-Answers (some []) e = cc e
  evaluate_when-Answers (some (head ∷ [])) e = cc e
  evaluate_when-Answers (some (head ∷ form ∷ more ∷ rest)) e = cc e

  -- A flow whose condition passes `validate_guard_syntax` has a condition that is true or false: whatever
  -- states are stored, `evaluate_guard` returns no error.
  pub evaluate_guard-Answers :
      (ast : FlowAst)
      → validate_guard_syntax f parse_uuid ast ≡ ok tt
      → Answers (evaluate_guard f parse_uuid s ast)
  unfolding validate_guard_syntax evaluate_guard
  evaluate_guard-Answers ast e = evaluate_when-Answers (guard_section (as_list ast.root)) e
