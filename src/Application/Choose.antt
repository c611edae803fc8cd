-- ===== src/Application/Choose.antt =====
-- crates/robine-application/src/lib.rs: `choose`, a branch of actions that is settled before the flow is compiled.
-- A slice out of range, where the code panics, is an error here; `validate_choose_syntax` excludes it.
pub mod Resolved
mod Tests
use robine.Prelude.{
  ℕ, suc, ◌+◌, String, Bool, true, false, Option, none, some, List, [], ◌∷◌, ◌++◌, ◌==◌, ◌&&◌, not,
  eqb, leb, length, if◌then◌else◌, Result, ok, err, get_elem?,
}
use robine.Flow.Ast.{
  FlowAst, Form, Forms, AstError, list, string, keyword, symbol, nil_forms, cons_forms, items,
  forms, as_list, as_symbol, head_symbol, is_some_text, new,
}
use robine.Flow.Float.{F64}
use robine.Flow.Syntax.Parser.{error_message}
use robine.Flow.Check.{diag}
use robine.Application.Errors.{ApplicationError, FlowError}
use robine.Application.Guard.{evaluate_guard_form}
use robine.Application.Guard.Syntax.{validate_guard_form_syntax}
use robine.Store.{Store}

abbrev pub invalid_choose_diagnostic : String → FlowError
invalid_choose_diagnostic message = FlowError.validation (diag "flow.choose" message "$/do" ∷ [])

abbrev pub out_of_range : FlowError
out_of_range = FlowError.application (ApplicationError.infrastructure "index out of range")

-- the action that records the choice
abbrev pub choice : Bool → Form
choice then_branch = list (
    forms (
      symbol "audit"
      ∷ keyword "message"
      ∷ string (if then_branch then "choose: then" else "choose: else")
      ∷ []))

-- `resolved.extend(…?)`
abbrev pub prepend :
    Result FlowError (List Form) → Result FlowError (List Form) → Result FlowError (List Form)
prepend (err e) rest = err e
prepend (ok before) (err e) = err e
prepend (ok before) (ok rest) = ok (before ++ rest)

-- the branch that is there, or nothing
abbrev pub branch_or_nothing : Option (Result FlowError (List Form)) → Result FlowError (List Form)
branch_or_nothing none = ok []
branch_or_nothing (some resolved) = resolved

abbrev pub with_choice : Bool → Result FlowError (List Form) → Result FlowError (List Form)
with_choice b (err e) = err e
with_choice b (ok branch) = ok (choice b ∷ branch)

-- after the condition, with the resolutions of all forms of the action as branches
abbrev pub take_branch :
    Result FlowError Bool → List (Result FlowError (List Form)) → Result FlowError (List Form)
take_branch (err e) branches = err e
take_branch (ok b) branches =
    with_choice b (branch_or_nothing (get_elem? branches (if b then 2 else 3)))

abbrev pub ast_result : Result AstError FlowAst → Result FlowError FlowAst
ast_result (ok ast) = ok ast
ast_result (err e) = err (FlowError.application (ApplicationError.validation (error_message e)))

module _ {F J : Type 0} (f : F64 F) (parse_uuid : String → Option String) (s : Store F J) where
  abbrev condition : Option Form → Result FlowError Bool
  condition none = err out_of_range
  condition (some form) = evaluate_guard_form f parse_uuid s form

  abbrev pub resolve_items :
      Forms → List (Result FlowError (List Form)) → Result FlowError (List Form)
  resolve_items fs branches =
      if is_some_text (head_symbol (items fs)) "choose"
      then take_branch (condition (get_elem? (items fs) 1)) branches
      else ok (list fs ∷ [])

  unfoldable mutual
    pub resolve_sequence : Forms → Result FlowError (List Form)
    resolve_sequence nil_forms = ok []
    resolve_sequence (cons_forms action rest) =
        prepend (resolve_action action) (resolve_sequence rest)

    pub resolve_action : Form → Result FlowError (List Form)
    resolve_action (list fs) = resolve_items fs (resolve_branches fs)
    resolve_action _ = err (invalid_choose_diagnostic "an action must be a list")

    pub resolve_branches : Forms → List (Result FlowError (List Form))
    resolve_branches nil_forms = []
    resolve_branches (cons_forms form rest) = resolve_branch form ∷ resolve_branches rest

    pub resolve_branch : Form → Result FlowError (List Form)
    resolve_branch (list nil_forms) = err out_of_range
    resolve_branch (list (cons_forms head body)) = resolve_sequence body
    resolve_branch _ = err (invalid_choose_diagnostic "choose branch must be a do block")

  abbrev pub body_with : Result FlowError (List Form) → Result FlowError (List Form)
  body_with (err e) = err e
  body_with (ok resolved) = ok (list (forms (symbol "do" ∷ resolved)) ∷ [])

  -- a section of the root
  abbrev pub rewrite_section : Form → Result FlowError (List Form)
  rewrite_section (list nil_forms) = ok (list nil_forms ∷ [])
  rewrite_section (list (cons_forms head body)) =
      if is_some_text (as_symbol head) "do"
      then body_with (resolve_sequence body)
      else ok (list (cons_forms head body) ∷ [])
  rewrite_section form = ok (form ∷ [])

  abbrev pub rewrite_sections : Forms → Result FlowError (List Form)
  rewrite_sections nil_forms = ok []
  rewrite_sections (cons_forms form rest) = prepend (rewrite_section form) (rewrite_sections rest)

  abbrev pub rewritten : Result FlowError (List Form) → Result FlowError FlowAst
  rewritten (err e) = err e
  rewritten (ok sections) = ast_result (new (list (forms sections)))

  abbrev pub resolve_root : Form → Result FlowError FlowAst
  resolve_root (list fs) = rewritten (rewrite_sections fs)
  resolve_root _ = err (invalid_choose_diagnostic "flow root must be a list")

  unfoldable pub resolve_choose_actions : FlowAst → Result FlowError FlowAst
  resolve_choose_actions ast = resolve_root ast.root
