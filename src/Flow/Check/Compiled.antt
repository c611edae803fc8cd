-- ===== src/Flow/Check/Compiled.antt =====
-- crates/robine-flow-check/src/lib.rs and crates/robine-flow-plan/src/lib.rs: what the plan of a flow
-- without diagnostics commands.
use robine.Prelude.{
  ◌≡◌, refl, sym, ap, subst, ◌∙◌, String, Bool, true, Option, none, some, List, [], ◌∷◌, inl, inr,
  Result, ok, ok_or, bind-eq-ok, if-eq-known, ok_or-eq-ok, ok-injective, get_elem?, drop,
}
use robine.Flow.Ast.{Form, head_symbol, is_some_text}
use robine.Flow.Float.{F64}
use robine.Flow.View.{get_in, list_of, string_of, keyword_of}
use robine.Flow.Plan.{
  PlannedAction, command, retry, PlanError, invalid_command, invalid_automation_target,
}
use robine.Flow.Plan.Duration.{duration_milliseconds}
use robine.Flow.Plan.Options.{CommandOptions, command_options}
use robine.Flow.Plan.Await.{entity_in}
use robine.Flow.Plan.Action.{
  compile_command, compile_wait, compile_await, await_trigger, await_timeout, compile_audit,
  compile_enable, flow_target, compile_retry, single_retryable, pop, retry_options,
}
use robine.Flow.Plan.Action.Bounds.{single_retryable_lem, pop-single}
use robine.Flow.Check.{
  Capabilities, entity_in_list, entity_id, check_verb, is_switch_verb, validate_command,
}
use robine.Flow.Check.Supported.{
  IsLit, command_options-IsLit, IsSwitch-verb, IsKnown, check_target-clean,
}

entity_in-entity_id :
    (o : Option (List Form)) (e : String)
    → entity_in_list o ≡ some e
    → string_of (get_in o 1) ≡ some e
entity_in-entity_id none e h = cc
entity_in-entity_id (some forms) e h =
    elim (if-eq-known (is_some_text (head_symbol forms) "entity") h) [
      | inl (_, h) ↦ h
      | inr (_, h) ↦ cc h
    ]

module _ {F : Type 0} (f : F64 F) (capabilities_for : String → Option Capabilities) where
  -- A command of a plan that the catalog supports: its entity is known, it switches, and it dims only a
  -- light that can be dimmed.
  abbrev pub IsSupported : PlannedAction F → Type 0
  IsSupported (command entity verb brightness _) =
      (is_switch_verb (some verb) ≡ true)
      × (contains : Capabilities) × (capabilities_for entity ≡ some contains)
      × (contains "switch" ≡ true)
      × IsLit contains brightness
  IsSupported (retry action _ _) = IsSupported action
  IsSupported _ = Unit

  abbrev pub AreSupported : List (PlannedAction F) → Type 0
  AreSupported [] = Unit
  AreSupported (action ∷ rest) = IsSupported action × AreSupported rest

  IsKnown-IsSupported :
      (forms : List Form) (path entity verb : String) (o : CommandOptions F)
      → entity_in forms ≡ some entity
      → keyword_of (get_elem? forms 2) ≡ some verb
      → command_options f (drop 3 forms) ≡ ok o
      → IsKnown capabilities_for forms path
      → IsSupported (command entity verb o.brightness o.confirmation)
  IsKnown-IsSupported forms path entity verb o here said options
        (target, contains, named, capable, verbs, clean) =
      let found = entity_in-entity_id (list_of (get_elem? forms 1)) target named in
      let target-eq : target ≡ entity = (let both = sym found ∙ here in cc both) in
      let (switches, switch) =
        IsSwitch-verb f contains verb path
          (subst (λ v. check_verb contains v path ≡ []) said verbs) in
      (
        switches,
        contains,
        subst (λ e. capabilities_for e ≡ some contains) target-eq capable,
        switch,
        command_options-IsLit f contains o (drop 3 forms) path options clean,
      )

  pub compile_command-IsSupported :
      (forms : List Form) (path : String) (a : PlannedAction F)
      → compile_command f forms ≡ ok a
      → validate_command capabilities_for forms path ≡ []
      → IsSupported a
  unfolding compile_command validate_command
  compile_command-IsSupported forms path a e clean =
      let (entity, known, e₁) = bind-eq-ok (ok_or invalid_command (entity_in forms)) _ e in
      let (verb, spoken, e₂) =
        bind-eq-ok (ok_or invalid_command (keyword_of (get_elem? forms 2))) _ e₁ in
      let (o, options, same) = bind-eq-ok (command_options f (drop 3 forms)) _ e₂ in
      subst IsSupported (ok-injective same) (
        IsKnown-IsSupported forms path entity verb o
          (ok_or-eq-ok (entity_in forms) invalid_command known)
          (ok_or-eq-ok (keyword_of (get_elem? forms 2)) invalid_command spoken) options
          (check_target-clean capabilities_for forms path (entity_id (get_elem? forms 1)) refl
            clean))

  -- The other arms compile to actions without a command.
  pub compile_wait-IsSupported :
      (o : Option Form) (a : PlannedAction F) → compile_wait f o ≡ ok a → IsSupported a
  unfolding compile_wait
  compile_wait-IsSupported (some (Form.number literal (some unit))) a e =
      let (n, _, same) = bind-eq-ok (duration_milliseconds f literal unit) _ e in
      subst IsSupported (ok-injective same) tt
  compile_wait-IsSupported _ a e = cc

  pub compile_await-IsSupported :
      (forms : List Form) (a : PlannedAction F) → compile_await f forms ≡ ok a → IsSupported a
  unfolding compile_await
  compile_await-IsSupported forms a e =
      let (t, _, e₁) = bind-eq-ok (await_trigger f (get_elem? forms 1)) _ e in
      let (n, _, same) = bind-eq-ok (await_timeout f (drop 2 forms)) _ e₁ in
      subst IsSupported (ok-injective same) tt

  pub compile_audit-IsSupported :
      (o : Option Form) (a : PlannedAction F) → compile_audit f o ≡ ok a → IsSupported a
  unfolding compile_audit
  compile_audit-IsSupported (some (Form.string message)) a e = subst IsSupported (ok-injective e) tt
  compile_audit-IsSupported _ a e = cc

  pub compile_enable-IsSupported :
      (forms : List Form) (enabled : Bool) (a : PlannedAction F)
      → compile_enable f forms enabled ≡ ok a
      → IsSupported a
  unfolding compile_enable
  compile_enable-IsSupported forms enabled a e =
      let (target, _, same) =
        bind-eq-ok (ok_or invalid_automation_target (flow_target (list_of (get_elem? forms 1)))) _
          e in
      subst IsSupported (ok-injective same) tt

  abbrev pub Nested : Result PlanError (List (PlannedAction F)) → Type 0
  Nested r =
      (actions : List (PlannedAction F))
      → r ≡ ok actions
      → (a : PlannedAction F) × (actions ≡ a ∷ []) × IsSupported a

  pub compile_retry-IsSupported :
      (nested : Result PlanError (List (PlannedAction F))) (forms : List Form) (a : PlannedAction F)
      → Nested nested
      → compile_retry f nested forms ≡ ok a
      → IsSupported a
  unfolding compile_retry
  compile_retry-IsSupported nested forms a inner e =
      let (actions, compiled, e₁) = bind-eq-ok nested _ e in
      let (b, popped, e₂) = bind-eq-ok (single_retryable f (pop actions)) _ e₁ in
      let (o, _, same) = bind-eq-ok (retry_options f (drop 2 forms)) _ e₂ in
      let (alone, _) = single_retryable_lem f (pop actions) b popped in
      let (c, whole, supported) = inner actions compiled in
      subst IsSupported (ok-injective same)
        (subst IsSupported (pop-single f b c (ap pop (sym whole) ∙ alone)) supported)
