-- ===== src/Flow/Plan/Compile.antt =====
-- crates/robine-flow-plan/src/lib.rs: `compile`, `flow_concurrency` and `flow_max_runtime`.
pub mod Bounds
use robine.Prelude.{
  ℕ, String, Bool, true, false, Option, none, some, List, [], ◌∷◌, ◌==◌, ◌&&◌, if◌then◌else◌,
  Result, ok, err, ◌>>=◌, ◌>>◌, ok_or, leb,
}
use robine.Flow.Ast.{FlowAst, Form, keyword, number, AstError, as_list, validate}
use robine.Flow.Syntax.Parser.{error_message}
use robine.Flow.Float.{F64}
use robine.Flow.View.{find_section, tail_of, parse_u8}
use robine.Flow.Plan.{
  ConcurrencyMode, single, restart, queue, ConcurrencyPolicy, default_policy, PlannedAction,
  ExecutionPlan, PlanError, invalid_flow, missing_body, invalid_wait, invalid_concurrency,
}
use robine.Flow.Plan.Duration.{duration_milliseconds}
use robine.Flow.Plan.Action.{compile_action}

-- `match value.as_str()` of `:mode`
unfoldable pub mode_of : String → Result PlanError ConcurrencyMode
mode_of value =
    if value == "single"
    then ok single
    else if value == "restart"
    then ok restart
    else if value == "queue"
    then ok queue
    else err invalid_concurrency

-- `.filter(|value| (1..=32).contains(value))`
abbrev pub runs_of : Option ℕ → Option ℕ
runs_of none = none
runs_of (some n) = if leb 1 n && leb n 32 then some n else none

-- `match pair`, at a pair of two forms
unfoldable pub read_policy : ConcurrencyPolicy → Form → Form → Result PlanError ConcurrencyPolicy
unfolding mode_of
read_policy policy (keyword key) (keyword value) =
    if key == "mode"
    then (do mode ← mode_of value; ok (record policy { mode = mode }))
    else ok policy
read_policy policy (keyword key) (number literal none) =
    if key == "max-runs"
    then (do
      n ← ok_or invalid_concurrency (runs_of (parse_u8 literal))
      ok (record policy { max_runs = n }))
    else ok policy
read_policy policy _ _ = ok policy

-- `for pair in meta[1..].chunks(2)`: a last form without a partner is passed over
unfoldable pub read_policies : ConcurrencyPolicy → List Form → Result PlanError ConcurrencyPolicy
read_policies policy (key ∷ value ∷ rest) =
    read_policy policy key value >>= λ p. read_policies p rest
read_policies policy _ = ok policy

abbrev pub concurrency_of : Option (List Form) → Result PlanError ConcurrencyPolicy
concurrency_of none = ok default_policy
concurrency_of (some meta) = read_policies default_policy (tail_of meta)

-- the forms of a root that is a list
abbrev pub root_forms : Option (List Form) → List Form
root_forms none = []
root_forms (some forms) = forms

unfoldable pub flow_concurrency : Form → Result PlanError ConcurrencyPolicy
unfolding find_section
flow_concurrency root = concurrency_of (find_section "meta" (root_forms (as_list root)))

-- a chunk that may lack its second form: whether its key is `:max-runtime`
abbrev pub is_max_runtime : Form → Bool
is_max_runtime (keyword key) = key == "max-runtime"
is_max_runtime _ = false

module _ {F : Type 0} (f : F64 F) where
  -- the `if let` in the loop, at the chunk that starts with `:max-runtime`
  unfoldable pub runtime_of : List Form → Result PlanError (Option ℕ)
  runtime_of (number literal (some unit) ∷ _) = do
    n ← duration_milliseconds f literal unit
    ok (some n)
  runtime_of _ = err invalid_wait

  unfoldable pub read_max_runtime : List Form → Result PlanError (Option ℕ)
  unfolding runtime_of
  read_max_runtime [] = ok none
  read_max_runtime (key ∷ []) = if is_max_runtime key then err invalid_wait else ok none
  read_max_runtime (key ∷ value ∷ rest) =
      let others = read_max_runtime rest in
      if is_max_runtime key then runtime_of (value ∷ []) else others

  abbrev pub max_runtime_of : Option (List Form) → Result PlanError (Option ℕ)
  max_runtime_of none = ok none
  max_runtime_of (some meta) = read_max_runtime (tail_of meta)

  unfoldable pub flow_max_runtime : Form → Result PlanError (Option ℕ)
  unfolding find_section
  flow_max_runtime root = max_runtime_of (find_section "meta" (root_forms (as_list root)))

  -- `for form in &body[1..]`
  unfoldable pub compile_body :
      List Form → List (PlannedAction F) → Result PlanError (List (PlannedAction F))
  compile_body [] actions = ok actions
  compile_body (form ∷ rest) actions =
      compile_action f form actions >>= λ more. compile_body rest more

  -- `.map_err(|error| PlanError::InvalidFlow(error.to_string()))`
  abbrev pub flow_error : Result AstError (Unit {0}) → Result PlanError (Unit {0})
  flow_error (ok u) = ok u
  flow_error (err e) = err (invalid_flow (error_message e))

  unfoldable pub compile : FlowAst → Result PlanError (ExecutionPlan F)
  compile ast = do
    flow_error (validate ast)
    body ← ok_or missing_body (find_section "do" (root_forms (as_list ast.root)))
    actions ← compile_body (tail_of body) []
    limit ← flow_max_runtime ast.root
    policy ← flow_concurrency ast.root
    ok (record { actions = actions; max_runtime_milliseconds = limit; concurrency = policy })
