-- ===== src/Application/Flows/Executed.antt =====
-- crates/robine-application/src/lib.rs: what the execution of a flow leaves.
use robine.Prelude.{
  List, [], ◌∷◌, subst, sym, ℕ, ◌≡◌, refl, String, Bool, true, false, Result, ok, err,
}
use robine.Prelude.Tables.{Absent}
use robine.Domain.Model.{Command, FlowDefinition}
use robine.Flow.Ast.{FlowAst}
use robine.Flow.Float.{F64}
use robine.Flow.Plan.{ExecutionPlan, PlanError}
use robine.Flow.Plan.Compile.{compile}
use robine.Flow.Plan.Compile.Bounds.{IsPlan, compile-Compiles}
use robine.Application.Errors.{ApplicationError, FlowError}
use robine.Flow.Runtime.Trace.{guard_evaluated, skipped}
use robine.Store.{FlowRunTrace}
use robine.Application.Home.{Home, Call}
use robine.Application.Runs.{Outside, FlowExecution}
use robine.Application.Runs.Resume.{new_run, execute_plan}
use robine.Application.Runs.Started.{IsPlaced, Started, execute_plan-Started}
use robine.Application.Guard.{evaluate_guard}
use robine.Application.Choose.{resolve_choose_actions}
use robine.Application.Flows.{
  plan_text, guarded_plan, execute_compiled, execute_resolved, execute_ast, execute_flow,
}
use robine.Store.Runs
use robine.Store.Retention.{save_flow_trace}

module _ {F J : Type 0} (f : F64 F) (o : Outside F J) (refusal : String)
    (dispatch : Command F → Call F J (Unit {0})) (run_id : String) (flow : FlowDefinition J)
    (now : ℕ) (correlation_id : String) where
  -- The flow's document is read, its choices are settled, it compiles to a plan, and its condition has a
  -- value.
  pub record Leads (w : Home F J) (plan : ExecutionPlan F) (guard : Result FlowError Bool)
      : Type 0 where
    pub ast : FlowAst
    pub resolved : FlowAst
    pub is_read : o.ast_from_value flow.ast ≡ ok ast
    pub is_resolved : resolve_choose_actions f o.parse_uuid w.store ast ≡ ok resolved
    pub is_compiled : compile f resolved ≡ ok plan
    pub is_decided : evaluate_guard f o.parse_uuid w.store ast ≡ guard

  -- The first of these that fails, with its error
  pub data Refuses (w : Home F J) : FlowError → Type 0 where
    unreadable :
        (e : String)
        → o.ast_from_value flow.ast ≡ err e
        → Refuses w (FlowError.application (ApplicationError.infrastructure e))
    unresolved :
        (ast : FlowAst) (e : FlowError)
        → o.ast_from_value flow.ast ≡ ok ast
        → resolve_choose_actions f o.parse_uuid w.store ast ≡ err e
        → Refuses w e
    uncompiled :
        (ast resolved : FlowAst) (e : PlanError)
        → o.ast_from_value flow.ast ≡ ok ast
        → resolve_choose_actions f o.parse_uuid w.store ast ≡ ok resolved
        → compile f resolved ≡ err e
        → Refuses w (FlowError.application (ApplicationError.validation (plan_text e)))
    undecided : (plan : ExecutionPlan F) (e : FlowError) → Leads w plan (err e) → Refuses w e

  -- the home with another table of traces
  abbrev with_traces : List (FlowRunTrace J) → Home F J → Home F J
  with_traces traces w = record w { store = record w.store { flow_run_traces = traces } }

  -- What an execution answers, and the home after it
  pub data Executed (w : Home F J) : Result FlowError (FlowExecution F) × Home F J → Type 0 where
    refused : (e : FlowError) → Refuses w e → Executed w (err e, w)
    held :
        (plan : ExecutionPlan F) (execution : FlowExecution F) (traces : List (FlowRunTrace J))
        → Leads w plan (ok false)
        → execution.run_id ≡ run_id
        → (reason : String) × (execution.result ≡ skipped (guard_evaluated false reason ∷ []))
        → Executed w (ok execution, with_traces traces w)
    placed :
        (plan : ExecutionPlan F) (execution : FlowExecution F) (w' : Home F J)
        → Leads w plan (ok true)
        → IsPlan f plan
        → execution.run_id ≡ run_id
        → IsPlaced f o plan
            (new_run o refusal dispatch run_id flow.id plan now correlation_id)
            execution.result
            w'.store.flow_runs
        → Executed w (ok execution, w')
    gone :
        (plan : ExecutionPlan F) (w' : Home F J)
        → Leads w plan (ok true)
        → Executed w (err FlowError.not_found, w')

  Started-Executed :
      (plan : ExecutionPlan F) (w : Home F J) (p : Result FlowError (FlowExecution F) × Home F J)
      → Leads w plan (ok true)
      → IsPlan f plan
      → Started f o plan (new_run o refusal dispatch run_id flow.id plan now correlation_id) p
      → Executed w p
  Started-Executed plan w (ok execution, w') leads h k = placed plan execution w' leads h k.0 k.1
  Started-Executed plan w (err e, w') leads h k =
      subst (λ e. Executed w (err e, w')) (sym k) (gone plan w' leads)

  module _ (w : Home F J) (new : Absent Runs.run_id run_id w.store.flow_runs) where
    guarded-Executed :
        (plan : ExecutionPlan F) (guard : Result FlowError Bool)
        → Leads w plan guard
        → IsPlan f plan
        → Executed w (guarded_plan f o refusal dispatch run_id flow plan now correlation_id guard w)
    unfolding save_flow_trace
    guarded-Executed plan (err e) leads h = refused e (undecided plan e leads)
    guarded-Executed plan (ok false) leads h = held plan _ _ leads refl (_, refl)
    guarded-Executed plan (ok true) leads h =
        Started-Executed plan w
          (execute_plan o refusal dispatch run_id flow.id plan now correlation_id w) leads h
          (execute_plan-Started f o refusal dispatch run_id flow.id plan now correlation_id h w new)

    compiled-Executed :
        (ast resolved : FlowAst) (plan : Result PlanError (ExecutionPlan F))
        → o.ast_from_value flow.ast ≡ ok ast
        → resolve_choose_actions f o.parse_uuid w.store ast ≡ ok resolved
        → compile f resolved ≡ plan
        → Executed w
            (execute_compiled f o refusal dispatch run_id flow ast now correlation_id plan w)
    compiled-Executed ast resolved (err e) is_read is_resolved known =
        refused _ (uncompiled ast resolved e is_read is_resolved known)
    compiled-Executed ast resolved (ok plan) is_read is_resolved known =
        guarded-Executed plan (evaluate_guard f o.parse_uuid w.store ast)
          (record {
            ast = ast;
            resolved = resolved;
            is_read = is_read;
            is_resolved = is_resolved;
            is_compiled = known;
            is_decided = refl;
          })
          (compile-Compiles f resolved plan known).0

    resolved-Executed :
        (ast : FlowAst) (resolved : Result FlowError FlowAst)
        → o.ast_from_value flow.ast ≡ ok ast
        → resolve_choose_actions f o.parse_uuid w.store ast ≡ resolved
        → Executed w
            (execute_resolved f o refusal dispatch run_id flow ast now correlation_id resolved w)
    resolved-Executed ast (err e) is_read known = refused e (unresolved ast e is_read known)
    resolved-Executed ast (ok resolved) is_read known =
        compiled-Executed ast resolved (compile f resolved) is_read known refl

    ast-Executed :
        (ast : Result String FlowAst)
        → o.ast_from_value flow.ast ≡ ast
        → Executed w (execute_ast f o refusal dispatch run_id flow now correlation_id ast w)
    ast-Executed (err e) known = refused _ (unreadable e known)
    ast-Executed (ok ast) known =
        resolved-Executed ast (resolve_choose_actions f o.parse_uuid w.store ast) known refl

    -- If the identifier of the run is new, then execute_flow fails with the error of the first step that
    -- fails, and changes nothing: reading the document, settling its choices, compiling it, and evaluating
    -- its condition. If the condition is false, it answers that the run was skipped, and changes no more
    -- than the table of traces. If it is true, it answers for the run of the plan that the settled document
    -- compiles to, and the run's row is in the table, or is not, as its result says; or it says that the
    -- flow is not there any more.
    pub execute_flow-Executed :
        Executed w (execute_flow f o refusal dispatch run_id flow now correlation_id w)
    unfolding execute_flow
    execute_flow-Executed = ast-Executed (o.ast_from_value flow.ast) refl
