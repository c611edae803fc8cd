-- ===== src/Store/Runs/Exclusive.antt =====
-- crates/robine-store-sqlite/src/lib.rs: a flow has at most one active run, whatever its policy is.
use robine.Prelude.{
  ◌≤◌, ◌≡◌, refl, sym, subst, ◌∙◌, String, Bool, true, false, List, [], ◌∷◌, ◌++◌, ◌==◌, ◌||◌,
  eq_iff, arith, if◌then◌else◌, Bool-cases, and-true, not-true, inl, inr,
}
use robine.Prelude.Tables.{where_rows, delete_rows, has_row, count_rows, upsert, All, Absent}
use robine.Prelude.Tables.Keys.{Absent-has_row, Absent-delete, eq-false, eq-false-ne}
use robine.Domain.Model.{FlowRun}
use robine.Store.Runs.{run_id, by_wake, of_flow, is_active, existing_runs, delete_each}
use robine.Store.Runs.Active.{count-append, count-delete, count-none, has_row-order, All-active}

All-weaken {ℓ κ ι} :
    {A : Type ℓ} {P : A → Type κ} {Q : A → Type ι} (xs : List A)
    → ((x : A) → P x → Q x)
    → All P xs
    → All Q xs
All-weaken [] f h = tt
All-weaken (x ∷ xs) f h = (f x h.0, All-weaken xs f h.1)

or-false : (a b : Bool) → (a || b) ≡ false → b ≡ false
or-false true b h = cc h
or-false false b h = h

or-false_left : (a b : Bool) → (a || b) ≡ false → a ≡ false
or-false_left true b h = cc h
or-false_left false b h = refl

eq_sym-false : (a b : String) → (a == b) ≡ false → (b == a) ≡ false
eq_sym-false a b h = eq-false b a (λ e. eq-false-ne a b h (sym e))

module _ {J : Type 0} where
  abbrev same_id : FlowRun J → FlowRun J → Bool
  same_id r x = x.id == r.id

  chosen :
      (q : FlowRun J → Bool) (x : FlowRun J) (rows xs : List (FlowRun J)) (b : Bool)
      → q x ≡ b
      → All (λ r. has_row (same_id r) rows ≡ false → q r ≡ false) xs
      → All (λ r. has_row (same_id r) (if b then x ∷ rows else rows) ≡ false → q r ≡ false) (x ∷ xs)
  chosen q x rows xs true e hs = (
    (λ h.
        let clash = sym (or-false_left (x.id == x.id) _ h) ∙ (eq_iff x.id x.id).1 refl in cc clash),
    All-weaken xs (λ r old h. old (or-false (x.id == r.id) _ h)) hs,
  )
  chosen q x rows xs false e hs = ((λ h. e), hs)

  -- A row whose identifier is not among the selected rows was not selected.
  unselected :
      (q : FlowRun J → Bool) (xs : List (FlowRun J))
      → All (λ r. has_row (same_id r) (where_rows q xs) ≡ false → q r ≡ false) xs
  unselected q [] = tt
  unselected q (x ∷ xs) = chosen q x (where_rows q xs) xs (q x) refl (unselected q xs)

  -- What holds of every row whose identifier is not listed holds after the deletions.
  delete_each-All {κ} :
      (Q : FlowRun J → Type κ) (listed runs : List (FlowRun J))
      → All (λ r. has_row (same_id r) listed ≡ false → Q r) runs
      → All Q (delete_each listed runs)
  delete_each-All Q [] runs h = All-weaken runs (λ r k. k refl) h
  delete_each-All Q (p ∷ rest) runs h =
      delete_each-All Q rest (delete_rows (λ r. r.id == p.id) runs) (kept runs h)
    where
      kept :
          (runs : List (FlowRun J))
          → All (λ r. (p.id == r.id || has_row (λ x. x.id == r.id) rest) ≡ false → Q r) runs
          → All
              (λ r. has_row (λ x. x.id == r.id) rest ≡ false → Q r)
              (delete_rows (λ r. r.id == p.id) runs)
      kept [] h = tt
      kept (r ∷ runs) h = elim (Bool-cases (r.id == p.id)) [
        | inl e ↦ rw e (kept runs h.1)
        | inr e ↦ rw e ((λ k. h.0 (rw (eq_sym-false r.id p.id e) k)), kept runs h.1)
      ]

  pub delete_each-none :
      (flow_id : String) (runs : List (FlowRun J))
      → count_rows (is_active flow_id) (delete_each (existing_runs flow_id runs) runs) ≡ 0
  delete_each-none flow_id runs =
      let left = delete_each (existing_runs flow_id runs) runs in
      count-none (is_active flow_id) left (
        All-active flow_id left (
          delete_each-All (λ r. of_flow flow_id r ≡ false) (existing_runs flow_id runs) runs
            (All-weaken runs
              (λ r old h.
                old
                  (sym (has_row-order (same_id r) by_wake (where_rows (of_flow flow_id) runs)) ∙ h))
              (unselected (of_flow flow_id) runs))))

  pub delete_each-count :
      (flow_id : String) (listed runs : List (FlowRun J))
      → count_rows (is_active flow_id) (delete_each listed runs)
        ≤ count_rows (is_active flow_id) runs
  delete_each-count flow_id [] runs = omega arith
  delete_each-count flow_id (p ∷ rest) runs = omega (
    arith,
    delete_each-count flow_id rest (delete_rows (λ r. r.id == p.id) runs),
    count-delete (is_active flow_id) (λ r. r.id == p.id) runs,
  )

  pub delete_each-Absent :
      (k : String) (listed runs : List (FlowRun J))
      → Absent run_id k runs
      → Absent run_id k (delete_each listed runs)
  delete_each-Absent k [] runs h = h
  delete_each-Absent k (p ∷ rest) runs h =
      delete_each-Absent k rest (delete_rows (λ r. r.id == p.id) runs)
        (Absent-delete run_id (λ r. r.id == p.id) k runs h)

  pub upsert-Absent :
      (run : FlowRun J) (runs : List (FlowRun J))
      → Absent run_id run.id runs
      → upsert run_id run runs ≡ runs ++ run ∷ []
  upsert-Absent run runs h = rw (Absent-has_row run_id run.id runs h)

  -- At most one run of each flow is active.
  abbrev pub IsExclusive : List (FlowRun J) → Type 0
  IsExclusive runs = (flow_id : String) → count_rows (is_active flow_id) runs ≤ 1

  pub append-IsExclusive :
      (run : FlowRun J) (runs : List (FlowRun J))
      → IsExclusive runs
      → (run.queued ≡ false → count_rows (is_active run.flow_id) runs ≡ 0)
      → IsExclusive (runs ++ run ∷ [])
  append-IsExclusive run runs h idle flow_id = elim (Bool-cases (is_active flow_id run)) [
    | inl e ↦
        let (same, running) = and-true e in
        let empty : count_rows (is_active flow_id) runs ≡ 0 =
          subst (λ f. count_rows (is_active f) runs ≡ 0) ((eq_iff run.flow_id flow_id).0 same)
            (idle (not-true running)) in
        rw (count-append (is_active flow_id) runs (run ∷ []), e) (omega (arith, empty))
    | inr e ↦ rw (count-append (is_active flow_id) runs (run ∷ []), e) (omega (arith, h flow_id))
  ]
