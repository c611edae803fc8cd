-- ===== src/Store/Runs/Next.antt =====
-- crates/robine-store-sqlite/src/lib.rs: which queued run `dequeue_next_flow_run` starts.
use robine.Prelude.{◌≡◌, Bool, false, Option, none, some, List, [], ◌∷◌, eqb, Bool-cases, inl, inr}
use robine.Prelude.Tables.{find_row, update_rows, count_rows, All}
use robine.Domain.Model.{FlowRun}
use robine.Store.{Store}
use robine.Store.Runs.{is_active, is_candidate, started}

-- A property of rows under the statements
module _ {ℓ κ} {A : Type ℓ} (P : A → Type κ) where
  find-All :
      (q : A → Bool) (xs : List A) → find_row q xs ≡ none → ((x : A) → q x ≡ false → P x) → All P xs
  find-All q [] e f = tt
  find-All q (x ∷ xs) e f = elim (Bool-cases (q x)) [
    | inl t ↦ let clash = (rw t at e) in cc clash
    | inr t ↦ (f x t, find-All q xs (rw t at e) f)
  ]

module _ {J : Type 0} where
  -- whether no run of the flow is active
  abbrev pub is_idle : List (FlowRun J) → FlowRun J → Bool
  is_idle runs candidate = eqb (count_rows (is_active candidate.flow_id) runs) 0

  -- the start of a run, if there is one to start
  abbrev pub start_first :
      Option (FlowRun J) → List (FlowRun J) → Option (FlowRun J) × List (FlowRun J)
  start_first none runs = (none, runs)
  start_first (some c) runs = (some (started c), update_rows (is_candidate c) (λ _. started c) runs)
