-- ===== src/Flow/Plan/Action/Bounds.antt =====
-- crates/robine-flow-plan/src/lib.rs: each form of the body is compiled to one action within bounds.
use robine.Prelude.{
  ℕ, ◌≤◌, ◌<◌, ◌≡◌, ◌∙◌, sym, ap, String, Bool, true, Option, none, some, List, [], ◌∷◌, ◌++◌, ◌==◌,
  ◌&&◌, ◌||◌, arith, Result, ok, err, ◌>>=◌, ok_or, bind-eq-ok, if-eq, if-eq-ok, ok_or-eq-ok,
  ok-injective, subst, inl, inr, get_elem?, drop, length, eqb,
}
use robine.Flow.Ast.{Form, list, keyword, string, number, nil_forms, cons_forms, items, head_symbol}
use robine.Flow.Float.{F64}
use robine.Flow.View.{list_of, keyword_of, parse_u8}
use robine.Flow.Plan.{
  PlannedAction, command, wait, await, audit, set_automation_enabled, retry, PlanError,
  unsupported_action, invalid_command, invalid_automation_target, invalid_await, invalid_retry,
}
use robine.Flow.Plan.Duration.{duration_milliseconds, duration_milliseconds_bounds}
use robine.Flow.Plan.Options.{command_options}
use robine.Flow.Plan.Options.Bounds.{
  IsDuration, IsTimeout, IsBrightness, IsConfirmation, command_options_bounds,
}
use robine.Flow.Plan.Await.{entity_in}
use robine.Flow.Plan.Action.{
  is_retryable, pop, attempts_of, flow_target, await_trigger, compile_named, compile_command,
  compile_wait, await_timeout, compile_await, compile_audit, compile_enable, retry_options,
  single_retryable, compile_retry, compile_action,
}

module _ {F : Type 0} (f : F64 F) where
  -- The bounds that each kind of action keeps. A retry holds one action that may be retried.
  abbrev pub IsAction : PlannedAction F → Type 0
  IsAction (command entity verb brightness confirmation) =
      IsBrightness f brightness × IsConfirmation f brightness confirmation
  IsAction (wait n) = IsDuration n
  IsAction (await trigger timeout) = IsTimeout timeout
  IsAction (audit message) = Unit
  IsAction (set_automation_enabled flow_id enabled) = Unit
  IsAction (retry action attempts backoff) =
      (is_retryable action ≡ true)
      × IsAction action
      × (0 < attempts)
      × (attempts ≤ 10)
      × IsDuration backoff

  compile_command-IsAction :
      (forms : List Form) (a : PlannedAction F) → compile_command f forms ≡ ok a → IsAction a
  unfolding compile_command
  compile_command-IsAction forms a e =
      let (entity, _, e₁) = bind-eq-ok (ok_or invalid_command (entity_in forms)) _ e in
      let (verb, _, e₂) =
        bind-eq-ok (ok_or invalid_command (keyword_of (get_elem? forms 2))) _ e₁ in
      let (o, known, same) = bind-eq-ok (command_options f (drop 3 forms)) _ e₂ in
      subst IsAction (ok-injective same) (command_options_bounds f (drop 3 forms) o known)

  compile_wait-IsAction :
      (form : Option Form) (a : PlannedAction F) → compile_wait f form ≡ ok a → IsAction a
  unfolding compile_wait
  compile_wait-IsAction (some (number literal (some unit))) a e =
      let (n, known, same) = bind-eq-ok (duration_milliseconds f literal unit) _ e in
      subst IsAction (ok-injective same) (duration_milliseconds_bounds f literal unit known)
  compile_wait-IsAction _ a e = cc

  await_timeout-IsTimeout :
      (forms : List Form) (o : Option ℕ) → await_timeout f forms ≡ ok o → IsTimeout o
  unfolding await_timeout
  await_timeout-IsTimeout [] o e = subst IsTimeout (ok-injective e) tt
  await_timeout-IsTimeout (keyword key ∷ number literal (some unit) ∷ []) o e =
      let (_, timed) = if-eq-ok (key == "timeout") invalid_await e in
      let (n, known, same) = bind-eq-ok (duration_milliseconds f literal unit) _ timed in
      subst IsTimeout (ok-injective same) (duration_milliseconds_bounds f literal unit known)
  await_timeout-IsTimeout _ o e = cc

  compile_await-IsAction :
      (forms : List Form) (a : PlannedAction F) → compile_await f forms ≡ ok a → IsAction a
  unfolding compile_await
  compile_await-IsAction forms a e =
      let (trigger, _, e₁) = bind-eq-ok (await_trigger f (get_elem? forms 1)) _ e in
      let (timeout, known, same) = bind-eq-ok (await_timeout f (drop 2 forms)) _ e₁ in
      subst IsAction (ok-injective same) (await_timeout-IsTimeout (drop 2 forms) timeout known)

  compile_audit-IsAction :
      (form : Option Form) (a : PlannedAction F) → compile_audit f form ≡ ok a → IsAction a
  unfolding compile_audit
  compile_audit-IsAction (some (string message)) a e = subst IsAction (ok-injective e) tt
  compile_audit-IsAction _ a e = cc

  compile_enable-IsAction :
      (forms : List Form) (enabled : Bool) (a : PlannedAction F)
      → compile_enable f forms enabled ≡ ok a
      → IsAction a
  unfolding compile_enable
  compile_enable-IsAction forms enabled a e =
      let (flow_id, _, same) =
        bind-eq-ok (ok_or invalid_automation_target (flow_target (list_of (get_elem? forms 1)))) _
          e in
      subst IsAction (ok-injective same) tt

  attempts_of_bounds : (o : Option ℕ) (n : ℕ) → attempts_of o ≡ some n → (0 < n) × (n ≤ 10)
  attempts_of_bounds none n e = cc
  attempts_of_bounds (some m) n e = ground arith

  abbrev AreOptions : ℕ × ℕ → Type 0
  AreOptions o = (0 < o.0) × (o.0 ≤ 10) × IsDuration o.1

  retry_options_bounds :
      (forms : List Form) (o : ℕ × ℕ) → retry_options f forms ≡ ok o → AreOptions o
  unfolding retry_options
  retry_options_bounds
        (keyword times ∷ number literal none ∷ keyword backoff ∷ number other (some unit) ∷ []) o
        e =
      let (_, bounded) = if-eq-ok (times == "times" && backoff == "backoff") invalid_retry e in
      let (n, known, e₁) =
        bind-eq-ok (ok_or invalid_retry (attempts_of (parse_u8 literal))) _ bounded in
      let (b, timed, same) = bind-eq-ok (duration_milliseconds f other unit) _ e₁ in
      let (low, high) =
        attempts_of_bounds (parse_u8 literal) n
          (ok_or-eq-ok (attempts_of (parse_u8 literal)) invalid_retry known) in
      subst AreOptions (ok-injective same)
        (low, high, duration_milliseconds_bounds f other unit timed)
  retry_options_bounds _ o e = cc

  pub single_retryable_lem :
      (o : Option (List (PlannedAction F) × PlannedAction F)) (a : PlannedAction F)
      → single_retryable f o ≡ ok a
      → (o ≡ some ([], a)) × (is_retryable a ≡ true)
  unfolding single_retryable
  single_retryable_lem (some ([], b)) a e =
      let (r, same) = if-eq-ok (is_retryable b) invalid_retry e in (cc same, cc (ok-injective same))
  single_retryable_lem _ a e = cc

  -- `more` is `actions` and one action within bounds behind them.
  abbrev pub Appends : List (PlannedAction F) → List (PlannedAction F) → Type 0
  Appends actions more = (a : PlannedAction F) × (more ≡ actions ++ a ∷ []) × IsAction a

  abbrev Nested : Result PlanError (List (PlannedAction F)) → Type 0
  Nested r = (actions : List (PlannedAction F)) → r ≡ ok actions → Appends [] actions

  pub pop-single : (a b : PlannedAction F) → pop (b ∷ []) ≡ some ([], a) → b ≡ a
  unfolding pop
  pop-single a b e = cc

  compile_retry-IsAction :
      (nested : Result PlanError (List (PlannedAction F))) (forms : List Form) (a : PlannedAction F)
      → Nested nested
      → compile_retry f nested forms ≡ ok a
      → IsAction a
  unfolding compile_retry
  compile_retry-IsAction nested forms a inner e =
      let (actions, compiled, e₁) = bind-eq-ok nested _ e in
      let (b, popped, e₂) = bind-eq-ok (single_retryable f (pop actions)) _ e₁ in
      let (o, options, same) = bind-eq-ok (retry_options f (drop 2 forms)) _ e₂ in
      let (alone, retryable) = single_retryable_lem (pop actions) b popped in
      let (c, whole, bounded) = inner actions compiled in
      let c-eq-b = pop-single b c (ap pop (sym whole) ∙ alone) in
      let (low, high, timed) = retry_options_bounds (drop 2 forms) o options in
      subst IsAction (ok-injective same)
        (retryable, subst IsAction c-eq-b bounded, low, high, timed)

  compile_named-IsAction :
      (nested : Result PlanError (List (PlannedAction F))) (forms : List Form)
      (name : Option String) (a : PlannedAction F)
      → Nested nested
      → compile_named f nested forms name ≡ ok a
      → IsAction a
  compile_named-IsAction nested forms none a inner e = cc
  compile_named-IsAction nested forms (some name) a inner e = elim (if-eq (name == "command") e) [
    | inl e ↦ compile_command-IsAction forms a e
    | inr e ↦ elim (if-eq (name == "wait") e) [
      | inl e ↦ compile_wait-IsAction (get_elem? forms 1) a e
      | inr e ↦ elim (if-eq (name == "await") e) [
        | inl e ↦ compile_await-IsAction forms a e
        | inr e ↦ elim (if-eq (name == "audit") e) [
          | inl e ↦ compile_audit-IsAction (get_elem? forms 2) a e
          | inr e ↦
              elim (if-eq ((name == "activate" || name == "deactivate") && eqb (length forms) 2)
                e) [
                  | inl e ↦ compile_enable-IsAction forms (name == "activate") a e
                  | inr e ↦
                      compile_retry-IsAction nested forms a inner
                        (if-eq-ok (name == "retry") unsupported_action e).1
                ]
        ]
      ]
    ]
  ]

  push-Appends :
      (actions more : List (PlannedAction F)) (compiled : Result PlanError (PlannedAction F))
      → ((a : PlannedAction F) → compiled ≡ ok a → IsAction a)
      → (compiled >>= λ a. ok (actions ++ a ∷ [])) ≡ ok more
      → Appends actions more
  push-Appends actions more compiled h e =
      let (a, known, same) = bind-eq-ok compiled _ e in (a, sym (ok-injective same), h a known)

  -- A form that compiles adds one action, which is within its bounds.
  pub compile_action-Appends :
      (form : Form) (actions more : List (PlannedAction F))
      → compile_action f form actions ≡ ok more
      → Appends actions more
  unfolding compile_action
  compile_action-Appends (list (cons_forms head (cons_forms argument rest))) actions more e =
      push-Appends actions more _
        (λ a.
          compile_named-IsAction (compile_action f argument []) (head ∷ argument ∷ items rest)
            (head_symbol (head ∷ [])) a (compile_action-Appends argument []))
        e
  compile_action-Appends (list (cons_forms head nil_forms)) actions more e =
      push-Appends actions more _
        (λ a.
          compile_named-IsAction (err invalid_retry) (head ∷ []) (head_symbol (head ∷ [])) a
            (λ _ e. cc))
        e
  compile_action-Appends (list nil_forms) actions more e = cc
  compile_action-Appends _ actions more e = cc
