-- ===== src/Flow/Check/Commands.antt =====
-- crates/robine-flow-check/src/lib.rs and crates/robine-flow-plan/src/lib.rs: the commands of a flow
-- without diagnostics.
use robine.Prelude.{
  ◌≡◌, sym, subst, String, Option, List, [], ◌∷◌, ◌++◌, Result, ok, err, ok_or, bind-eq-ok,
  ok_or-eq-ok, ok-injective,
}
use robine.Flow.Ast.{FlowAst, Form, list, as_list, AstError, validate}
use robine.Flow.Float.{F64}
use robine.Flow.View.{find_section, tail_of}
use robine.Flow.Plan.{PlannedAction, ExecutionPlan, missing_body}
use robine.Flow.Plan.Action.{compile_action}
use robine.Flow.Plan.Compile.{
  compile_body, compile, root_forms, flow_error, flow_max_runtime, flow_concurrency,
}
use robine.Flow.Check.{Capabilities, check_root, validate_flow}
use robine.Flow.Check.Compiled.{IsSupported, AreSupported}
use robine.Flow.Check.Plans.{
  IsClean, AreClean, visit-list, find_section-AreClean, tail_of-AreClean, compile_action-Appends,
}

module _ {F : Type 0} (f : F64 F) (capabilities_for : String → Option Capabilities) where
  AreSupported-append :
      (actions : List (PlannedAction F)) (a : PlannedAction F)
      → AreSupported f capabilities_for actions
      → IsSupported f capabilities_for a
      → AreSupported f capabilities_for (actions ++ a ∷ [])
  AreSupported-append [] a h k = (k, tt)
  AreSupported-append (b ∷ actions) a h k = (h.0, AreSupported-append actions a h.1 k)

  compile_body-AreSupported :
      (body : List Form) (actions more : List (PlannedAction F))
      → AreClean capabilities_for body
      → AreSupported f capabilities_for actions
      → compile_body f body actions ≡ ok more
      → AreSupported f capabilities_for more
  unfolding compile_body
  compile_body-AreSupported [] actions more clean h e =
      subst (AreSupported f capabilities_for) (ok-injective e) h
  compile_body-AreSupported (form ∷ rest) actions more clean h e =
      let (next, compiled, others) = bind-eq-ok (compile_action f form actions) _ e in
      let (a, same, supported) =
        compile_action-Appends f capabilities_for form actions next clean.0 compiled in
      compile_body-AreSupported rest next more clean.1
        (subst (AreSupported f capabilities_for) (sym same)
          (AreSupported-append actions a h supported))
        others

  check_root-IsClean :
      (ast : FlowAst) (r : Result AstError (Unit {0}))
      → check_root capabilities_for ast r ≡ []
      → IsClean capabilities_for ast.root
  check_root-IsClean ast (ok _) h = ("$", h)
  check_root-IsClean ast (err e) h = cc

  root_forms-AreClean :
      (root : Form)
      → IsClean capabilities_for root
      → AreClean capabilities_for (root_forms (as_list root))
  root_forms-AreClean (list forms) h = (visit-list capabilities_for forms h).1
  root_forms-AreClean _ h = tt

  -- If the checker finds nothing in a flow and the flow compiles, then every command of its plan, also one
  -- that is retried, is `turn-on` or `turn-off`, its entity is one that the catalog knows, with the
  -- capability `switch`, and with `light.brightness` where the command sets a brightness.
  pub validate-AreSupported :
      (ast : FlowAst) (plan : ExecutionPlan F)
      → validate_flow capabilities_for ast ≡ []
      → compile f ast ≡ ok plan
      → AreSupported f capabilities_for plan.actions
  unfolding validate_flow compile
  validate-AreSupported ast plan clean e =
      let (_, _, e₁) = bind-eq-ok (flow_error f (validate ast)) _ e in
      let (body, found, e₂) =
        bind-eq-ok (ok_or missing_body (find_section "do" (root_forms (as_list ast.root)))) _ e₁ in
      let (actions, compiled, e₃) = bind-eq-ok (compile_body f (tail_of body) []) _ e₂ in
      let (limit, _, e₄) = bind-eq-ok (flow_max_runtime f ast.root) _ e₃ in
      let (policy, _, same) = bind-eq-ok (flow_concurrency ast.root) _ e₄ in
      let root = check_root-IsClean ast (validate ast) clean in
      let body-clean =
        find_section-AreClean capabilities_for "do" (root_forms (as_list ast.root)) body
          (root_forms-AreClean ast.root root)
          (ok_or-eq-ok (find_section "do" (root_forms (as_list ast.root))) missing_body found) in
      subst (λ (p : ExecutionPlan F). AreSupported f capabilities_for p.actions) (ok-injective same)
        (compile_body-AreSupported (tail_of body) [] actions
          (tail_of-AreClean capabilities_for body body-clean) tt compiled)
