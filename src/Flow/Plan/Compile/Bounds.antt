-- ===== src/Flow/Plan/Compile/Bounds.antt =====
-- crates/robine-flow-plan/src/lib.rs: every plan that `compile` returns is within its bounds.
use robine.Prelude.{
  ℕ, ◌≤◌, ◌<◌, ◌+◌, ◌≡◌, sym, ap, String, Option, none, some, List, [], ◌∷◌, ◌++◌, ◌==◌, arith, ok,
  ◌>>=◌, ok_or, bind-eq-ok, if-eq, ok_or-eq-ok, ok-injective, subst, inl, inr, length,
  length-append,
}
use robine.Flow.Ast.{FlowAst, Form, keyword, number, as_list, validate}
use robine.Flow.Float.{F64}
use robine.Flow.View.{find_section, tail_of, parse_u8}
use robine.Flow.Plan.{
  ConcurrencyPolicy, default_policy, PlannedAction, ExecutionPlan, missing_body,
  invalid_concurrency,
}
use robine.Flow.Plan.Duration.{duration_milliseconds, duration_milliseconds_bounds}
use robine.Flow.Plan.Options.Bounds.{IsTimeout}
use robine.Flow.Plan.Action.{compile_action}
use robine.Flow.Plan.Action.Bounds.{IsAction, compile_action-Appends}
use robine.Flow.Plan.Compile.{
  mode_of, runs_of, read_policy, read_policies, concurrency_of, root_forms, flow_concurrency,
  is_max_runtime, runtime_of, read_max_runtime, max_runtime_of, flow_max_runtime, compile_body,
  flow_error, compile,
}

-- The number of runs that a policy allows.
abbrev pub IsPolicy : ConcurrencyPolicy → Type 0
IsPolicy p = (0 < p.max_runs) × (p.max_runs ≤ 32)

runs_of_bounds : (o : Option ℕ) (n : ℕ) → runs_of o ≡ some n → (0 < n) × (n ≤ 32)
runs_of_bounds none n e = cc
runs_of_bounds (some m) n e = ground arith

with_mode :
    (p q : ConcurrencyPolicy) (value : String)
    → IsPolicy p
    → (mode_of value >>= λ m. ok (record p { mode = m })) ≡ ok q
    → IsPolicy q
with_mode p q value h e =
    let (m, _, same) = bind-eq-ok (mode_of value) _ e in subst IsPolicy (ok-injective same) h

read_policy-IsPolicy :
    (p q : ConcurrencyPolicy) (key value : Form)
    → IsPolicy p
    → read_policy p key value ≡ ok q
    → IsPolicy q
unfolding read_policy
read_policy-IsPolicy p q (keyword key) (keyword value) h e = elim (if-eq (key == "mode") e) [
  | inl e ↦ with_mode p q value h e
  | inr e ↦ subst IsPolicy (ok-injective e) h
]
read_policy-IsPolicy p q (keyword key) (number literal none) h e =
    elim (if-eq (key == "max-runs") e) [
      | inl e ↦
          let (n, known, same) =
            bind-eq-ok (ok_or invalid_concurrency (runs_of (parse_u8 literal))) _ e in
          subst IsPolicy (ok-injective same) (
            runs_of_bounds (parse_u8 literal) n
              (ok_or-eq-ok (runs_of (parse_u8 literal)) invalid_concurrency known))
      | inr e ↦ subst IsPolicy (ok-injective e) h
    ]
read_policy-IsPolicy p q _ _ h e = subst IsPolicy (ok-injective e) h

read_policies-IsPolicy :
    (p q : ConcurrencyPolicy) (meta : List Form)
    → IsPolicy p
    → read_policies p meta ≡ ok q
    → IsPolicy q
unfolding read_policies
read_policies-IsPolicy p q (key ∷ value ∷ rest) h e =
    let (r, first, others) = bind-eq-ok (read_policy p key value) _ e in
    read_policies-IsPolicy r q rest (read_policy-IsPolicy p r key value h first) others
read_policies-IsPolicy p q _ h e = subst IsPolicy (ok-injective e) h

concurrency_of-IsPolicy :
    (o : Option (List Form)) (q : ConcurrencyPolicy) → concurrency_of o ≡ ok q → IsPolicy q
concurrency_of-IsPolicy none q e = subst IsPolicy (ok-injective e) (omega arith)
concurrency_of-IsPolicy (some meta) q e =
    read_policies-IsPolicy default_policy q (tail_of meta) (omega arith) e

module _ {F : Type 0} (f : F64 F) where
  runtime_of-IsTimeout :
      (forms : List Form) (o : Option ℕ) → runtime_of f forms ≡ ok o → IsTimeout o
  unfolding runtime_of
  runtime_of-IsTimeout (number literal (some unit) ∷ _) o e =
      let (n, known, same) = bind-eq-ok (duration_milliseconds f literal unit) _ e in
      subst IsTimeout (ok-injective same) (duration_milliseconds_bounds f literal unit known)
  runtime_of-IsTimeout _ o e = cc

  read_max_runtime-IsTimeout :
      (meta : List Form) (o : Option ℕ) → read_max_runtime f meta ≡ ok o → IsTimeout o
  unfolding read_max_runtime
  read_max_runtime-IsTimeout [] o e = subst IsTimeout (ok-injective e) tt
  read_max_runtime-IsTimeout (key ∷ []) o e = elim (if-eq (is_max_runtime key) e) [
    | inl e ↦ cc e
    | inr e ↦ subst IsTimeout (ok-injective e) tt
  ]
  read_max_runtime-IsTimeout (key ∷ value ∷ rest) o e = elim (if-eq (is_max_runtime key) e) [
    | inl e ↦ runtime_of-IsTimeout (value ∷ []) o e
    | inr e ↦ read_max_runtime-IsTimeout rest o e
  ]

  max_runtime_of-IsTimeout :
      (o : Option (List Form)) (n : Option ℕ) → max_runtime_of f o ≡ ok n → IsTimeout n
  max_runtime_of-IsTimeout none n e = subst IsTimeout (ok-injective e) tt
  max_runtime_of-IsTimeout (some meta) n e = read_max_runtime-IsTimeout (tail_of meta) n e

  abbrev pub AreActions : List (PlannedAction F) → Type 0
  AreActions [] = Unit
  AreActions (a ∷ actions) = IsAction f a × AreActions actions

  AreActions-append :
      (xs ys : List (PlannedAction F)) → AreActions xs → AreActions ys → AreActions (xs ++ ys)
  AreActions-append [] ys h k = k
  AreActions-append (x ∷ xs) ys h k = (h.0, AreActions-append xs ys h.1 k)

  -- `more` is `actions` with an action within bounds for each of the forms.
  compile_body_bounds :
      (body : List Form) (actions more : List (PlannedAction F))
      → AreActions actions
      → compile_body f body actions ≡ ok more
      → AreActions more × (length more ≡ length actions + length body)
  unfolding compile_body
  compile_body_bounds [] actions more h e =
      (subst AreActions (ok-injective e) h, omega (arith, ap length (ok-injective e)))
  compile_body_bounds (form ∷ rest) actions more h e =
      let (next, compiled, others) = bind-eq-ok (compile_action f form actions) _ e in
      let (a, whole, bounded) = compile_action-Appends f form actions next compiled in
      let all_of_next =
        subst AreActions (sym whole) (AreActions-append actions (a ∷ []) h (bounded, tt)) in
      let (kept, counted) = compile_body_bounds rest next more all_of_next others in
      (kept, omega (arith, counted, ap length whole, length-append actions (a ∷ [])))

  -- What a compiled plan promises to the interpreter.
  pub record IsPlan (plan : ExecutionPlan F) : Type 0 where
    pub bounded : AreActions plan.actions
    pub limited : IsTimeout plan.max_runtime_milliseconds
    pub admitted : IsPolicy plan.concurrency

  built-IsPlan :
      (root : Form) (body : List Form) (actions : List (PlannedAction F)) (limit : Option ℕ)
      (policy : ConcurrencyPolicy)
      → compile_body f (tail_of body) [] ≡ ok actions
      → flow_max_runtime f root ≡ ok limit
      → flow_concurrency root ≡ ok policy
      → IsPlan
          (record { actions = actions; max_runtime_milliseconds = limit; concurrency = policy })
        × (length actions ≡ length (tail_of body))
  unfolding flow_max_runtime flow_concurrency
  built-IsPlan root body actions limit policy compiled timed admitted =
      let (bounded, counted) = compile_body_bounds (tail_of body) [] actions tt compiled in
      let meta = find_section "meta" (root_forms (as_list root)) in
      (
        record {
          bounded = bounded;
          limited = max_runtime_of-IsTimeout meta limit timed;
          admitted = concurrency_of-IsPolicy meta policy admitted;
        },
        omega (arith, counted),
      )

  -- The plan is within its bounds, and has an action for each form of the flow's body.
  abbrev pub Compiles : FlowAst → ExecutionPlan F → Type 0
  Compiles ast plan =
      IsPlan plan
      × (body : List Form) × (find_section "do" (root_forms (as_list ast.root)) ≡ some body)
      × (length plan.actions ≡ length (tail_of body))

  -- A flow that compiles has a body, and its plan has one action for each form of the body. Every
  -- wait, timeout, backoff and maximal runtime is positive and at most thirty days, a brightness
  -- lies between 0 and 100, a reported confirmation excludes a brightness, a retry holds one action
  -- that may be retried and 1 to 10 attempts, and the policy allows 1 to 32 runs.
  pub compile-Compiles :
      (ast : FlowAst) (plan : ExecutionPlan F) → compile f ast ≡ ok plan → Compiles ast plan
  unfolding compile
  compile-Compiles ast plan e =
      let (_, _, e₁) = bind-eq-ok (flow_error f (validate ast)) _ e in
      let (body, found, e₂) =
        bind-eq-ok (ok_or missing_body (find_section "do" (root_forms (as_list ast.root)))) _ e₁ in
      let (actions, compiled, e₃) = bind-eq-ok (compile_body f (tail_of body) []) _ e₂ in
      let (limit, timed, e₄) = bind-eq-ok (flow_max_runtime f ast.root) _ e₃ in
      let (policy, admitted, same) = bind-eq-ok (flow_concurrency ast.root) _ e₄ in
      let (plans, counted) =
        built-IsPlan ast.root body actions limit policy compiled timed admitted in
      let has_body =
        ok_or-eq-ok (find_section "do" (root_forms (as_list ast.root))) missing_body found in
      subst (Compiles ast) (ok-injective same) (plans, body, has_body, counted)
