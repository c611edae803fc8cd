-- ===== src/Flow/Check/Plans.antt =====
-- crates/robine-flow-check/src/lib.rs and crates/robine-flow-plan/src/lib.rs: a flow without diagnostics
-- and its plan.
use robine.Prelude.{
  ℕ, ◌+◌, ◌≡◌, refl, sym, subst, String, ◌<>◌, decimal, true, Option, none, some, List, [], ◌∷◌,
  ◌++◌, ◌==◌, ◌||◌, ◌&&◌, inl, inr, if◌then◌else◌, Result, ok, err, ◌>>=◌, bind-eq-ok, if-eq,
  if-eq-known, if-eq-ok, ok-injective, length, get_elem?, eqb,
}
use robine.Flow.Ast.{Form, Forms, list, nil_forms, cons_forms, items, head_symbol, is_some_text}
use robine.Flow.Float.{F64}
use robine.Flow.View.{find_section, tail_of}
use robine.Flow.Plan.{PlannedAction, PlanError, unsupported_action, invalid_retry}
use robine.Flow.Plan.Action.{compile_named, compile_action}
use robine.Flow.Check.{Capabilities, validate_command, check_head, visit, visit_children}
use robine.Flow.Check.Supported.{append-empty}
use robine.Flow.Check.Compiled.{
  IsSupported, Nested, compile_command-IsSupported, compile_wait-IsSupported,
  compile_await-IsSupported, compile_audit-IsSupported, compile_enable-IsSupported,
  compile_retry-IsSupported,
}

module _ (capabilities_for : String → Option Capabilities) where
  -- Visiting a form pushes no diagnostics.
  abbrev pub IsClean : Form → Type 0
  IsClean form = (path : String) × (visit capabilities_for form path ≡ [])

  abbrev pub AreClean : List Form → Type 0
  AreClean [] = Unit
  AreClean (form ∷ rest) = IsClean form × AreClean rest

  visit_children-AreClean :
      (index : ℕ) (forms : Forms) (path : String)
      → visit_children capabilities_for index forms path ≡ []
      → AreClean (items forms)
  unfolding visit_children
  visit_children-AreClean index nil_forms path h = tt
  visit_children-AreClean index (cons_forms child rest) path h =
      let inner = path <> "/" <> decimal index in
      let (here, others) =
        append-empty (visit capabilities_for child inner)
          (visit_children capabilities_for (index + 1) rest path) h in
      ((inner, here), visit_children-AreClean (index + 1) rest path others)

  pub visit-list :
      (forms : Forms)
      → IsClean (list forms)
      → ((path : String) × (check_head capabilities_for (items forms) path ≡ []))
        × AreClean (items forms)
  unfolding visit
  visit-list forms (path, h) =
      let (head, children) =
        append-empty (check_head capabilities_for (items forms) path)
          (visit_children capabilities_for 0 forms path) h in
      ((path, head), visit_children-AreClean 0 forms path children)

  pub find_section-AreClean :
      (name : String) (forms body : List Form)
      → AreClean forms
      → find_section name forms ≡ some body
      → AreClean body
  unfolding find_section
  find_section-AreClean name [] body h e = cc
  find_section-AreClean name (list fs ∷ rest) body h e =
      elim (if-eq (is_some_text (head_symbol (items fs)) name) e) [
        | inl e ↦ let same : items fs ≡ body = cc e in subst AreClean same (visit-list fs h.0).1
        | inr e ↦ find_section-AreClean name rest body h.1 e
      ]
  find_section-AreClean name (Form.symbol _ ∷ rest) body h e =
      find_section-AreClean name rest body h.1 e
  find_section-AreClean name (Form.keyword _ ∷ rest) body h e =
      find_section-AreClean name rest body h.1 e
  find_section-AreClean name (Form.string _ ∷ rest) body h e =
      find_section-AreClean name rest body h.1 e
  find_section-AreClean name (Form.bool _ ∷ rest) body h e =
      find_section-AreClean name rest body h.1 e
  find_section-AreClean name (Form.nil ∷ rest) body h e = find_section-AreClean name rest body h.1 e
  find_section-AreClean name (Form.number _ _ ∷ rest) body h e =
      find_section-AreClean name rest body h.1 e

  check_head-command :
      (forms : List Form) (path name : String)
      → head_symbol forms ≡ some name
      → (name == "command") ≡ true
      → check_head capabilities_for forms path ≡ []
      → validate_command capabilities_for forms path ≡ []
  unfolding check_head
  check_head-command forms path name named e h =
      let first =
        (append-empty
          (if is_some_text (head_symbol forms) "command"
            then validate_command capabilities_for forms path
            else [])
          _ h).0 in
      (rw (named, e) at first)

  pub tail_of-AreClean : (forms : List Form) → AreClean forms → AreClean (tail_of forms)
  tail_of-AreClean [] h = tt
  tail_of-AreClean (form ∷ rest) h = h.1

module _ {F : Type 0} (f : F64 F) (capabilities_for : String → Option Capabilities) where
  compile_named-IsSupported :
      (nested : Result PlanError (List (PlannedAction F))) (forms : List Form) (path : String)
      (name : Option String) (a : PlannedAction F)
      → head_symbol forms ≡ name
      → check_head capabilities_for forms path ≡ []
      → Nested f capabilities_for nested
      → compile_named f nested forms name ≡ ok a
      → IsSupported f capabilities_for a
  compile_named-IsSupported nested forms path none a named clean inner e = cc
  compile_named-IsSupported nested forms path (some name) a named clean inner e =
      elim (if-eq-known (name == "command") e) [
        | inl (is, e) ↦
            compile_command-IsSupported f capabilities_for forms path a e
              (check_head-command capabilities_for forms path name named is clean)
        | inr (_, e) ↦ elim (if-eq (name == "wait") e) [
          | inl e ↦ compile_wait-IsSupported f capabilities_for (get_elem? forms 1) a e
          | inr e ↦ elim (if-eq (name == "await") e) [
            | inl e ↦ compile_await-IsSupported f capabilities_for forms a e
            | inr e ↦ elim (if-eq (name == "audit") e) [
              | inl e ↦ compile_audit-IsSupported f capabilities_for (get_elem? forms 2) a e
              | inr e ↦
                  elim (if-eq ((name == "activate" || name == "deactivate") && eqb (length forms) 2)
                    e) [
                      | inl e ↦
                          compile_enable-IsSupported f capabilities_for forms (name == "activate") a
                            e
                      | inr e ↦
                          compile_retry-IsSupported f capabilities_for nested forms a inner
                            (if-eq-ok (name == "retry") unsupported_action e).1
                    ]
            ]
          ]
        ]
      ]

  -- One action is appended, and the catalog supports it.
  abbrev pub Appends : List (PlannedAction F) → List (PlannedAction F) → Type 0
  Appends actions more =
      (a : PlannedAction F) × (more ≡ actions ++ a ∷ []) × IsSupported f capabilities_for a

  push-Appends :
      (actions more : List (PlannedAction F)) (compiled : Result PlanError (PlannedAction F))
      → ((a : PlannedAction F) → compiled ≡ ok a → IsSupported f capabilities_for a)
      → (compiled >>= λ a. ok (actions ++ a ∷ [])) ≡ ok more
      → Appends actions more
  push-Appends actions more compiled h e =
      let (a, known, same) = bind-eq-ok compiled _ e in (a, sym (ok-injective same), h a known)

  pub compile_action-Appends :
      (form : Form) (actions more : List (PlannedAction F))
      → IsClean capabilities_for form
      → compile_action f form actions ≡ ok more
      → Appends actions more
  unfolding compile_action
  compile_action-Appends (list (cons_forms head (cons_forms argument rest))) actions more clean e =
      let ((path, first), children) =
        visit-list capabilities_for (cons_forms head (cons_forms argument rest)) clean in
      push-Appends actions more _
        (λ a.
          compile_named-IsSupported (compile_action f argument []) (head ∷ argument ∷ items rest)
            path (head_symbol (head ∷ [])) a refl first
            (λ inner. compile_action-Appends argument [] inner children.1.0))
        e
  compile_action-Appends (list (cons_forms head nil_forms)) actions more clean e =
      let ((path, first), children) =
        visit-list capabilities_for (cons_forms head nil_forms) clean in
      push-Appends actions more _
        (λ a.
          compile_named-IsSupported (err invalid_retry) (head ∷ []) path (head_symbol (head ∷ [])) a
            refl first (λ _ e. cc))
        e
  compile_action-Appends (list nil_forms) actions more clean e = cc
  compile_action-Appends _ actions more clean e = cc
