-- ===== src/Store/Runs/Admission.antt =====
-- crates/robine-store-sqlite/src/lib.rs: admissions and starts of queued runs keep a flow's runs apart.
use robine.Prelude.{
  ℕ, ◌≤◌, ◌≡◌, refl, sym, subst, true, false, List, [], ◌∷◌, ◌==◌, leb, eqb, eq_iff, eqb_iff,
  length, arith, Bool-cases, and-true, inl, inr,
}
use robine.Prelude.Tables.{delete_rows, update_rows, count_rows, upsert, Absent, IsUnique}
use robine.Prelude.Tables.Keys.{IsUnique-delete, IsUnique-update, IsUnique-upsert, eq-false}
use robine.Domain.Model.{FlowRun}
use robine.Flow.Plan.{ConcurrencyMode, single, restart, queue}
use robine.Store.Runs.{
  run_id, is_active, existing_runs, delete_each, admit, is_candidate, started, dequeue,
}
use robine.Store.Runs.Active.{count-update, existing-none}
use robine.Store.Runs.Exclusive.{
  IsExclusive, append-IsExclusive, delete_each-none, delete_each-count, delete_each-Absent,
  upsert-Absent,
}

module _ {J : Type 0} where
  insert-IsExclusive :
      (run : FlowRun J) (runs : List (FlowRun J))
      → Absent run_id run.id runs
      → IsExclusive runs
      → (run.queued ≡ false → count_rows (is_active run.flow_id) runs ≡ 0)
      → IsExclusive (upsert run_id run runs)
  insert-IsExclusive run runs new h idle =
      subst IsExclusive (sym (upsert-Absent run runs new)) (append-IsExclusive run runs h idle)

  pub admit-IsExclusive :
      (run : FlowRun J) (mode : ConcurrencyMode) (max_runs : ℕ) (existing runs : List (FlowRun J))
      → existing_runs run.flow_id runs ≡ existing
      → Absent run_id run.id runs
      → IsExclusive runs
      → IsExclusive ((admit run mode max_runs existing runs).1)
  unfolding admit
  admit-IsExclusive run single max_runs [] runs e new h =
      insert-IsExclusive run runs new h (λ _. existing-none run.flow_id runs e)
  admit-IsExclusive run single max_runs (r ∷ existing) runs e new h = h
  admit-IsExclusive run restart max_runs existing runs e new h =
      insert-IsExclusive run (delete_each existing runs)
        (delete_each-Absent run.id existing runs new)
        (λ f. omega (arith, delete_each-count f existing runs, h f))
        (λ _.
          subst (λ l. count_rows (is_active run.flow_id) (delete_each l runs) ≡ 0) e
            (delete_each-none run.flow_id runs))
  admit-IsExclusive run queue max_runs [] runs e new h = elim (Bool-cases (leb max_runs 0)) [
    | inl t ↦ rw t h
    | inr t ↦ rw t (insert-IsExclusive run runs new h (λ _. existing-none run.flow_id runs e))
  ]
  admit-IsExclusive run queue max_runs (r ∷ existing) runs e new h =
      elim (Bool-cases (leb max_runs (length (r ∷ existing)))) [
        | inl t ↦ rw t h
        | inr t ↦
            rw t (insert-IsExclusive (record run { queued = true }) runs new h (λ clash. cc clash))
      ]

  delete_each-IsUnique :
      (listed runs : List (FlowRun J))
      → IsUnique run_id runs
      → IsUnique run_id (delete_each listed runs)
  delete_each-IsUnique [] runs h = h
  delete_each-IsUnique (p ∷ rest) runs h =
      delete_each-IsUnique rest (delete_rows (λ r. r.id == p.id) runs)
        (IsUnique-delete run_id (λ r. r.id == p.id) runs h)

  pub admit-IsUnique :
      (run : FlowRun J) (mode : ConcurrencyMode) (max_runs : ℕ) (existing runs : List (FlowRun J))
      → IsUnique run_id runs
      → IsUnique run_id ((admit run mode max_runs existing runs).1)
  unfolding admit
  admit-IsUnique run single max_runs [] runs h = IsUnique-upsert run_id run runs h
  admit-IsUnique run single max_runs (r ∷ existing) runs h = h
  admit-IsUnique run restart max_runs existing runs h =
      IsUnique-upsert run_id run (delete_each existing runs) (delete_each-IsUnique existing runs h)
  admit-IsUnique run queue max_runs [] runs h = elim (Bool-cases (leb max_runs 0)) [
    | inl t ↦ rw t h
    | inr t ↦ rw t (IsUnique-upsert run_id run runs h)
  ]
  admit-IsUnique run queue max_runs (r ∷ existing) runs h =
      elim (Bool-cases (leb max_runs (length (r ∷ existing)))) [
        | inl t ↦ rw t h
        | inr t ↦ rw t (IsUnique-upsert run_id (record run { queued = true }) runs h)
      ]

  -- A key that is unique selects at most one row.
  count-Absent :
      (candidate : FlowRun J) (runs : List (FlowRun J))
      → Absent run_id candidate.id runs
      → count_rows (is_candidate candidate) runs ≡ 0
  count-Absent candidate [] h = refl
  count-Absent candidate (r ∷ runs) h =
      rw (eq-false r.id candidate.id h.0) (omega (arith, count-Absent candidate runs h.1))

  pub count-IsUnique :
      (candidate : FlowRun J) (runs : List (FlowRun J))
      → IsUnique run_id runs
      → count_rows (is_candidate candidate) runs ≤ 1
  count-IsUnique candidate [] h = omega arith
  count-IsUnique candidate (r ∷ runs) h = elim (Bool-cases (is_candidate candidate r)) [
    | inl e ↦
        let same = (eq_iff r.id candidate.id).0 ((and-true e).0) in
        rw e
          (omega (arith, count-Absent candidate runs (subst (λ k. Absent run_id k runs) same h.0)))
    | inr e ↦ rw e (omega (arith, count-IsUnique candidate runs h.1))
  ]

  module _ (candidate : FlowRun J) (runs : List (FlowRun J)) where
    abbrev start_rows : List (FlowRun J)
    start_rows = update_rows (is_candidate candidate) (λ _. started candidate) runs

    start-IsUnique : IsUnique run_id runs → IsUnique run_id start_rows
    start-IsUnique h =
        IsUnique-update run_id (is_candidate candidate) (λ _. started candidate)
          (λ r e. sym ((eq_iff r.id candidate.id).0 ((and-true e).0))) runs h

    start-IsExclusive :
        IsUnique run_id runs
        → count_rows (is_active candidate.flow_id) runs ≡ 0
        → IsExclusive runs
        → IsExclusive start_rows
    start-IsExclusive h idle k flow_id =
        let bound =
          count-update (is_active flow_id) (is_candidate candidate) (started candidate) runs in
        elim (Bool-cases (is_active flow_id (started candidate))) [
          | inl e ↦
              let same = (eq_iff candidate.flow_id flow_id).0 ((and-true e).0) in
              let idle' = subst (λ f. count_rows (is_active f) runs ≡ 0) same idle in
              let bound' = (rw e at bound) in
              omega (arith, bound', idle', count-IsUnique candidate runs h)
          | inr e ↦ let bound' = (rw e at bound) in omega (arith, bound', k flow_id)
        ]

  pub dequeue-invariant :
      (candidates runs : List (FlowRun J))
      → IsUnique run_id runs
      → IsExclusive runs
      → IsUnique run_id ((dequeue candidates runs).1) × IsExclusive ((dequeue candidates runs).1)
  unfolding dequeue
  dequeue-invariant [] runs h k = (h, k)
  dequeue-invariant (c ∷ rest) runs h k =
      elim (Bool-cases (eqb (count_rows (is_active c.flow_id) runs) 0)) [
        | inr e ↦ rw (e, dequeue) (dequeue-invariant rest runs h k)
        | inl e ↦
            let unique = start-IsUnique c runs h in
            let exclusive = start-IsExclusive c runs h ((eqb_iff _ 0).0 e) k in
            elim (Bool-cases (eqb (count_rows (is_candidate c) runs) 1)) [
              | inl f ↦ rw (e, f, dequeue) (unique, exclusive)
              | inr f ↦
                  rw (e, f, dequeue) (dequeue-invariant rest (start_rows c runs) unique exclusive)
            ]
      ]
