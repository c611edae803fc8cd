-- ===== src/Application/Meta/Policy.antt =====
-- crates/robine-application/src/lib.rs and crates/robine-flow-plan/src/lib.rs: the policy of a flow with a
-- valid `meta` section.
use robine.Prelude.{
  ℕ, ◌≡◌, refl, subst, String, true, Option, none, some, List, [], ◌∷◌, ◌==◌, eq_iff, Bool-cases,
  Option-cases, inl, inr, Result, ok, if-eq-known, if-eq-ok, eqb, length, ◌%◌,
}
use robine.Flow.Ast.{FlowAst, Form, keyword, number, as_list}
use robine.Flow.Float.{F64}
use robine.Flow.View.{find_section, tail_of, parse_u8}
use robine.Flow.Plan.{single, restart, queue, ConcurrencyPolicy, default_policy}
use robine.Flow.Plan.Compile.{
  mode_of, runs_of, read_policy, read_policies, concurrency_of, flow_concurrency, root_forms,
}
use robine.Application.Meta.{
  is_seen, is_valid, check_pairs, check_meta, validate_meta_syntax, invalid_meta_diagnostic,
}

-- A result without an error
abbrev pub Succeeds : {E A : Type 0} → Result E A → Type 0
Succeeds {A = A} r = (a : A) × (r ≡ ok a)

module _ {F : Type 0} (f : F64 F) where
  is_valid-mode :
      (value : String) → is_valid f "mode" (keyword value) ≡ true → Succeeds (mode_of value)
  unfolding is_valid mode_of
  is_valid-mode value h = elim (Bool-cases (value == "single")) [
    | inl a ↦ (single, rw a)
    | inr a ↦ elim (Bool-cases (value == "restart")) [
      | inl b ↦ (restart, rw (a, b))
      | inr b ↦ elim (Bool-cases (value == "queue")) [
        | inl c ↦ (queue, rw (a, b, c))
        | inr c ↦ let h' = (rw (a, b, c) at h) in cc h'
      ]
    ]
  ]

  is_valid-max_runs :
      (literal : String)
      → is_valid f "max-runs" (number literal none) ≡ true
      → (n : ℕ) × (runs_of (parse_u8 literal) ≡ some n)
  unfolding is_valid
  is_valid-max_runs literal h = elim (Option-cases (runs_of (parse_u8 literal))) [
    | inl e ↦ let h' = (rw e at h) in cc h'
    | inr e ↦ e
  ]

  is_valid-read_policy :
      (policy : ConcurrencyPolicy) (key : String) (value : Form)
      → is_valid f key value ≡ true
      → Succeeds (read_policy policy (keyword key) value)
  unfolding read_policy
  is_valid-read_policy policy key (keyword value) h = elim (Bool-cases (key == "mode")) [
    | inl e ↦
        let (m, known) =
          is_valid-mode value
            (subst (λ k. is_valid f k (keyword value) ≡ true) ((eq_iff key "mode").0 e) h) in
        (record policy { mode = m }, rw (e, known))
    | inr e ↦ (policy, rw e)
  ]
  is_valid-read_policy policy key (number literal none) h = elim (Bool-cases (key == "max-runs")) [
    | inl e ↦
        let (n, known) = is_valid-max_runs literal (
          subst (λ k. is_valid f k (number literal none) ≡ true) ((eq_iff key "max-runs").0 e) h) in
        (record policy { max_runs = n }, rw (e, known))
    | inr e ↦ (policy, rw e)
  ]
  is_valid-read_policy policy key (number literal (some _)) h = (policy, refl)
  is_valid-read_policy policy key (Form.list _) h = (policy, refl)
  is_valid-read_policy policy key (Form.symbol _) h = (policy, refl)
  is_valid-read_policy policy key (Form.string _) h = (policy, refl)
  is_valid-read_policy policy key (Form.bool _) h = (policy, refl)
  is_valid-read_policy policy key Form.nil h = (policy, refl)

  check_pairs-read_policies :
      (seen : List String) (pairs : List Form) (policy : ConcurrencyPolicy)
      → check_pairs f seen pairs ≡ ok tt
      → Succeeds (read_policies policy pairs)
  unfolding check_pairs read_policies
  check_pairs-read_policies seen [] policy h = (policy, refl)
  check_pairs-read_policies seen (keyword key ∷ value ∷ rest) policy h =
      elim (if-eq-known (is_seen seen key) h) [
        | inl (_, e) ↦ cc e
        | inr (_, e) ↦
            let (valid, others) = if-eq-ok (is_valid f key value) (invalid_meta_diagnostic _) e in
            let (next, read) = is_valid-read_policy policy key value valid in
            let (last, more) = check_pairs-read_policies (key ∷ seen) rest next others in
            (last, rw read more)
      ]
  check_pairs-read_policies seen _ policy h = cc h

  check_meta-concurrency_of :
      (o : Option (List Form)) → check_meta f o ≡ ok tt → Succeeds (concurrency_of o)
  check_meta-concurrency_of none h = (default_policy, refl)
  check_meta-concurrency_of (some meta) h = elim (if-eq-known (eqb (length meta % 2) 0) h) [
    | inl (_, e) ↦ cc e
    | inr (_, e) ↦ check_pairs-read_policies [] (tail_of meta) default_policy e
  ]

  -- A flow whose `meta` section passes the check has a concurrency policy: the compiler does not refuse
  -- its mode or its number of runs.
  pub validate_meta_syntax-Succeeds :
      (ast : FlowAst) → validate_meta_syntax f ast ≡ ok tt → Succeeds (flow_concurrency ast.root)
  unfolding validate_meta_syntax flow_concurrency
  validate_meta_syntax-Succeeds ast h =
      check_meta-concurrency_of (find_section "meta" (root_forms (as_list ast.root))) h
