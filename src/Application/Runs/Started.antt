-- ===== src/Application/Runs/Started.antt =====
-- crates/robine-application/src/lib.rs: what the start of a run leaves in the table of runs.
use robine.Prelude.{
  ℕ, ◌≡◌, refl, sym, subst, String, true, none, some, List, [], ◌∷◌, ◌==◌, Bool-cases, inl, inr,
  Result, ok, err, leb, length, arith,
}
use robine.Prelude.Tables.{find_row, Absent}
use robine.Prelude.Tables.Keys.{Absent-has_row}
use robine.Domain.Model.{Command, FlowRun}
use robine.Flow.Float.{F64}
use robine.Flow.Plan.{ExecutionPlan, ConcurrencyMode, single, restart, queue}
use robine.Flow.Plan.Compile.Bounds.{IsPlan}
use robine.Flow.Runtime.Trace.{
  RunResult, skipped, suspended, completed, failed, timed_out, cancelled, queued,
}
use robine.Flow.Runtime.Drive.{IsStart-fresh}
use robine.Flow.Runtime.Resumption.{IsResumable}
use robine.Application.Errors.{FlowError}
use robine.Application.Home.{Home, Call}
use robine.Application.Runs.{Outside, FlowExecution, initial, trace_for_run, then_use}
use robine.Application.Runs.Resume.{
  resume_run, home_gateway, cancel_each, after_admission, new_run, execute_plan,
}
use robine.Application.Runs.Kept.{IsKept, Kept, resume_run-Kept, has_row-none, find_row-upsert}
use robine.Store.Runs
use robine.Store.Runs.{
  FlowAdmission, start, rejected, restarted, existing_runs, admit, admit_flow_run,
}
use robine.Store.Retention.{save_flow_trace}

module _ {F J : Type 0} (f : F64 F) (o : Outside F J) where
  -- A run that is queued has its row, marked as queued, one that is skipped has none, and any other is as
  -- `resume_run` leaves it.
  abbrev pub IsPlaced : ExecutionPlan F → FlowRun J → RunResult F → List (FlowRun J) → Type 0
  IsPlaced plan run (queued _) runs =
      find_row (λ r. r.id == run.id) runs ≡ some (record run { queued = true })
  IsPlaced plan run (skipped _) runs = find_row (λ r. r.id == run.id) runs ≡ none
  IsPlaced plan run result runs = IsKept f o plan run result runs

  abbrev pub Started :
      ExecutionPlan F → FlowRun J → Result FlowError (FlowExecution F) × Home F J → Type 0
  Started plan run (ok execution, w') =
      (execution.run_id ≡ run.id) × IsPlaced plan run execution.result w'.store.flow_runs
  Started plan run (err e, w') = e ≡ FlowError.not_found

  Kept-IsPlaced :
      (plan : ExecutionPlan F) (run : FlowRun J) (r : RunResult F) (runs : List (FlowRun J))
      → IsKept f o plan run r runs
      → IsPlaced plan run r runs
  Kept-IsPlaced plan run (completed t) runs h = h
  Kept-IsPlaced plan run (failed t) runs h = h
  Kept-IsPlaced plan run (timed_out t) runs h = h
  Kept-IsPlaced plan run (cancelled t) runs h = h
  Kept-IsPlaced plan run (suspended s t) runs h = h
  Kept-IsPlaced plan run (skipped t) runs h = absurd h
  Kept-IsPlaced plan run (queued t) runs h = absurd h

  Kept-Started :
      (plan : ExecutionPlan F) (run : FlowRun J) (w : Home F J)
      (p : Result FlowError (FlowExecution F) × Home F J)
      → Kept f o plan run w p
      → Started plan run p
  Kept-Started plan run w (ok execution, w') h =
      (h.0, Kept-IsPlaced plan run execution.result w'.store.flow_runs h.1)
  Kept-Started plan run w (err e, w') h = h.0

module _ {F J : Type 0} (o : Outside F J) where
  -- The traces of the runs that a restart cancels are written.
  cancel_each-ok :
      (refusal : String) (dispatch : Command F → Call F J (Unit {0})) (runs : List (FlowRun J))
      (now : ℕ) (w : Home F J)
      → (w' : Home F J) × (cancel_each o refusal dispatch runs now w ≡ (ok tt, w'))
  unfolding save_flow_trace
  cancel_each-ok refusal dispatch [] now w = (w, refl)
  cancel_each-ok refusal dispatch (previous ∷ rest) now w =
      cancel_each-ok refusal dispatch rest now _

module _ {F J : Type 0} (f : F64 F) (o : Outside F J) (refusal : String)
    (dispatch : Command F → Call F J (Unit {0})) where
  new-IsResumable : (plan : ExecutionPlan F) → IsPlan f plan → IsResumable plan 0 none
  new-IsResumable plan h = record {
    inside = omega arith;
    startable = IsStart-fresh f (home_gateway o refusal dispatch 0 "") "" plan.actions h.bounded;
  }

  module _ (run_id flow_id : String) (plan : ExecutionPlan F) (now : ℕ) (correlation_id : String)
      (h : IsPlan f plan) where
    abbrev run : FlowRun J
    run = new_run o refusal dispatch run_id flow_id plan now correlation_id

    resumed-Started :
        (w : Home F J) → Started f o plan run (resume_run o refusal dispatch run now initial w)
    unfolding trace_for_run
    resumed-Started w = Kept-Started f o plan run w _ (
        resume_run-Kept f o refusal dispatch plan run now initial [] w (o.plan_read plan) refl h
          (new-IsResumable plan h))

    restarted-Started :
        (runs : List (FlowRun J)) (w : Home F J)
        → Started f o plan run (after_admission o refusal dispatch run now (restarted runs) w)
    restarted-Started runs w =
        let (w', same) = cancel_each-ok o refusal dispatch runs now w in
        subst
          (λ p.
            Started f o plan run
              (then_use (λ _ v. resume_run o refusal dispatch run now initial v) p))
          (sym same) (resumed-Started w')

    find_row-Absent :
        (runs : List (FlowRun J))
        → Absent Runs.run_id run_id runs
        → find_row (λ r. r.id == run_id) runs ≡ none
    find_row-Absent runs new =
        has_row-none (λ r. r.id == run_id) runs (Absent-has_row Runs.run_id run_id runs new)

    abbrev with_runs : Home F J → List (FlowRun J) → Home F J
    with_runs w runs = record w { store = record w.store { flow_runs = runs } }

    admitted-Started :
        (mode : ConcurrencyMode) (max_runs : ℕ) (existing : List (FlowRun J)) (w : Home F J)
        → Absent Runs.run_id run_id w.store.flow_runs
        → Started f o plan run (
            after_admission o refusal dispatch run now
              ((admit run mode max_runs existing w.store.flow_runs).0)
              (with_runs w ((admit run mode max_runs existing w.store.flow_runs).1)))
    unfolding admit save_flow_trace
    admitted-Started single max_runs [] w new = resumed-Started _
    admitted-Started single max_runs (r ∷ existing) w new =
        (refl, find_row-Absent w.store.flow_runs new)
    admitted-Started restart max_runs existing w new = restarted-Started existing _
    admitted-Started queue max_runs [] w new = elim (Bool-cases (leb max_runs 0)) [
      | inl e ↦ rw e (refl, find_row-Absent w.store.flow_runs new)
      | inr e ↦ rw e (resumed-Started _)
    ]
    admitted-Started queue max_runs (r ∷ existing) w new =
        elim (Bool-cases (leb max_runs (length (r ∷ existing)))) [
          | inl e ↦ rw e (refl, find_row-Absent w.store.flow_runs new)
          | inr e ↦
              rw e
                (refl, find_row-upsert Runs.run_id (record run { queued = true }) w.store.flow_runs)
        ]

    -- If a plan is one that compiles to, and the identifier of the run is new, then the start of the run
    -- answers with its execution, or the flow is not there. A run that is queued has a row that is marked
    -- so, a run that is skipped has none, and any other is as `resume_run` leaves it.
    pub execute_plan-Started :
        (w : Home F J)
        → Absent Runs.run_id run_id w.store.flow_runs
        → Started f o plan run
            (execute_plan o refusal dispatch run_id flow_id plan now correlation_id w)
    unfolding execute_plan admit_flow_run
    execute_plan-Started w new =
        admitted-Started plan.concurrency.mode plan.concurrency.max_runs
          (existing_runs flow_id w.store.flow_runs) w new
