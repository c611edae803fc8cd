-- ===== src/Application/Runs/Kept.antt =====
-- crates/robine-application/src/lib.rs: what a run that is taken up leaves in the table of runs.
use robine.Prelude.{
  ℕ, ◌≤◌, ◌<◌, ◌≡◌, refl, sym, subst, inl, inr, String, Bool, true, false, Option, none, some, List,
  [], ◌∷◌, ◌==◌, ◌&&◌, not, Bool-cases, Result, ok, err, eq_iff, arith,
}
use robine.Prelude.Tables.{find_row, has_row, delete_rows, upsert}
use robine.Domain.Model.{Command, FlowDefinition, FlowRun}
use robine.Flow.Float.{F64}
use robine.Flow.Plan.{ExecutionPlan}
use robine.Flow.Plan.Compile.Bounds.{IsPlan}
use robine.Flow.Runtime.Trace.{
  TraceStep, RunResult, completed, failed, skipped, suspended, timed_out, cancelled, queued,
}
use robine.Flow.Runtime.Resumption.{
  IsResumable, tries_left, Outcome, execute_from_resumption-Outcome,
}
use robine.Application.Errors.{FlowError}
use robine.Application.Home.{Home, Call}
use robine.Application.Home.Requests.{find_row-append, find_row-update}
use robine.Store.Runs.{run_id, save_flow_run, delete_flow_run}
use robine.Store.Retention.{save_flow_trace}
use robine.Store.Flows.{get_flow}
use robine.Application.Runs.{
  Outside, FlowExecution, ResumptionReason, is_timer, is_present, is_over_at, trace_for_run,
  finish_with, suspended_run, suspension_wake_at, settle_run, after_run,
}
use robine.Application.Runs.Resume.{
  run_correlation, home_gateway, run_plan, resume_flow, resume_run,
}

module _ {ℓ} {A : Type ℓ} where
  find_row-delete : (p : A → Bool) (rows : List A) → find_row p (delete_rows p rows) ≡ none
  find_row-delete p [] = refl
  find_row-delete p (r ∷ rows) = elim (Bool-cases (p r)) [
    | inl e ↦ rw e (find_row-delete p rows)
    | inr e ↦ rw (e, e) (find_row-delete p rows)
  ]

  has_row-some :
      (p : A → Bool) (rows : List A)
      → has_row p rows ≡ true
      → (c : A) × (find_row p rows ≡ some c) × (p c ≡ true)
  has_row-some p [] h = cc h
  has_row-some p (r ∷ rows) h = elim (Bool-cases (p r)) [
    | inl e ↦ rw e (r, refl, e)
    | inr e ↦ rw e (has_row-some p rows (rw e at h))
  ]

  pub has_row-none :
      (p : A → Bool) (rows : List A) → has_row p rows ≡ false → find_row p rows ≡ none
  has_row-none p [] h = refl
  has_row-none p (r ∷ rows) h = elim (Bool-cases (p r)) [
    | inl e ↦ let clash = (rw e at h) in cc clash
    | inr e ↦ rw e (has_row-none p rows (rw e at h))
  ]

  -- A row that is saved is the one that its key finds.
  pub find_row-upsert :
      (key : A → String) (r : A) (rows : List A)
      → find_row (λ s. key s == key r) (upsert key r rows) ≡ some r
  find_row-upsert key r rows = elim (Bool-cases (has_row (λ s. key s == key r) rows)) [
    | inl e ↦
        let (c, found, same) = has_row-some (λ s. key s == key r) rows e in
        rw e (
          find_row-update (λ s. key s == key r) (λ s. key s == key r) c r rows found same
            ((eq_iff (key r) (key r)).1 refl))
    | inr e ↦ rw e (
        find_row-append (λ s. key s == key r) r rows (has_row-none (λ s. key s == key r) rows e)
          ((eq_iff (key r) (key r)).1 refl))
  ]

abbrev pub IsWithin : ℕ → Option ℕ → Type 0
IsWithin wake_at none = Unit
IsWithin wake_at (some deadline) = wake_at ≤ deadline

suspension_wake_at-IsWithin :
    (now : ℕ) (after deadline : Option ℕ)
    → IsWithin (suspension_wake_at now after deadline) deadline
unfolding suspension_wake_at
suspension_wake_at-IsWithin now after none = tt
suspension_wake_at-IsWithin now after (some deadline) = ground arith

module _ {F J : Type 0} (f : F64 F) (o : Outside F J) where
  -- A run that is suspended stays in the table: its row holds the plan, where it may be resumed, with fewer
  -- tries left, is not queued, and wakes at its deadline at the latest. A run that is over is gone.
  abbrev pub IsKept : ExecutionPlan F → FlowRun J → RunResult F → List (FlowRun J) → Type 0
  IsKept plan run (suspended s trace) runs =
      (saved : FlowRun J) × (find_row (λ r. r.id == run.id) runs ≡ some saved)
      × (o.plan_from_value saved.plan ≡ ok plan)
      × (trace_for_run o saved ≡ ok trace)
      × IsResumable plan saved.next_action saved.retry_attempt
      × (tries_left plan saved.next_action saved.retry_attempt
          < tries_left plan run.next_action run.retry_attempt)
      × IsWithin saved.wake_at run.deadline_at
      × (saved.flow_id ≡ run.flow_id)
      × (saved.queued ≡ false)
  IsKept plan run (skipped _) runs = ⊥
  IsKept plan run (queued _) runs = ⊥
  IsKept plan run _ runs = find_row (λ r. r.id == run.id) runs ≡ none

  -- What `resume_run` leads to, if the flow is there, and else
  abbrev pub Kept :
      ExecutionPlan F
      → FlowRun J
      → Home F J
      → Result FlowError (FlowExecution F) × Home F J
      → Type 0
  Kept plan run w (ok execution, w') =
      (execution.run_id ≡ run.id) × IsKept plan run execution.result w'.store.flow_runs
  Kept plan run w (err e, w') =
      (e ≡ FlowError.not_found) × (w' ≡ w) × (get_flow run.flow_id w.store ≡ none)

  settle_run-Kept :
      (plan : ExecutionPlan F) (flow_id : String) (run : FlowRun J) (now : ℕ) (r : RunResult F)
      (w w' : Home F J)
      → Outcome plan run.next_action run.retry_attempt r
      → Kept plan run w (settle_run o flow_id run plan now r w')
  unfolding save_flow_run delete_flow_run save_flow_trace trace_for_run
  settle_run-Kept plan flow_id run now (completed t) w w' h =
      (refl, find_row-delete (λ r. r.id == run.id) w'.store.flow_runs)
  settle_run-Kept plan flow_id run now (failed t) w w' h =
      (refl, find_row-delete (λ r. r.id == run.id) w'.store.flow_runs)
  settle_run-Kept plan flow_id run now (suspended s t) w w' h =
      let saved = suspended_run o run plan now s t in
      (
        refl,
        (
          saved,
          find_row-upsert run_id saved w'.store.flow_runs,
          o.plan_read plan,
          rw (o.trace_read t) refl,
          h.0,
          h.1,
          suspension_wake_at-IsWithin now s.after_milliseconds run.deadline_at,
          refl,
          refl,
        ),
      )
  settle_run-Kept plan flow_id run now _ w w' h = absurd h

  timed_out-Kept :
      (plan : ExecutionPlan F) (run : FlowRun J) (step : TraceStep F) (now : ℕ)
      (trace : List (TraceStep F)) (w : Home F J)
      → Kept plan run w (finish_with o timed_out step run now (ok trace) w)
  unfolding delete_flow_run save_flow_trace
  timed_out-Kept plan run step now trace w =
      (refl, find_row-delete (λ r. r.id == run.id) w.store.flow_runs)

  cancelled-Kept :
      (plan : ExecutionPlan F) (run : FlowRun J) (step : TraceStep F) (now : ℕ)
      (trace : List (TraceStep F)) (w : Home F J)
      → Kept plan run w (finish_with o cancelled step run now (ok trace) w)
  unfolding delete_flow_run save_flow_trace
  cancelled-Kept plan run step now trace w =
      (refl, find_row-delete (λ r. r.id == run.id) w.store.flow_runs)

  module _ (refusal : String) (dispatch : Command F → Call F J (Unit {0})) where
    run_plan-Kept :
        (plan : ExecutionPlan F) (flow_id : String) (run : FlowRun J) (now : ℕ)
        (trace : List (TraceStep F)) (w : Home F J)
        → IsPlan f plan
        → IsResumable plan run.next_action run.retry_attempt
        → Kept plan run w (run_plan o refusal dispatch flow_id run now plan (ok trace) w)
    run_plan-Kept plan flow_id run now trace w h here =
        let (r, w', runs, _, outcome) =
          execute_from_resumption-Outcome f
            (home_gateway o refusal dispatch now (run_correlation run)) run.id plan run.next_action
            run.retry_attempt trace w h here in
        subst (λ p. Kept plan run w (after_run o flow_id run plan now p.0 p.1)) (sym runs)
          (settle_run-Kept plan flow_id run now r w w' outcome)

    -- If the plan and the trace of a run can be read, the plan is one that compiles to, and the run may be
    -- resumed where it stands, then `resume_run` answers with its execution, unless its flow is gone, which
    -- changes nothing. If the run is suspended, its row is in the table, with the plan, a trace that can be
    -- read, a place where it may be resumed with fewer tries left, and a time that is not after its deadline,
    -- and is not queued; otherwise it is completed, failed, timed out or cancelled, and no row has its identifier.
    pub resume_run-Kept :
        (plan : ExecutionPlan F) (run : FlowRun J) (now : ℕ) (reason : ResumptionReason)
        (trace : List (TraceStep F)) (w : Home F J)
        → o.plan_from_value run.plan ≡ ok plan
        → trace_for_run o run ≡ ok trace
        → IsPlan f plan
        → IsResumable plan run.next_action run.retry_attempt
        → Kept plan run w (resume_run o refusal dispatch run now reason w)
    unfolding resume_run
    resume_run-Kept plan run now reason trace w reads traced h here =
        elim (Bool-cases (is_over_at run.deadline_at now)) [
          | inl e ↦ rw (e, traced) (timed_out-Kept plan run _ now trace w)
          | inr e ↦
              elim (Bool-cases
                (is_timer reason && is_present run.awaiting && run.await_timeout_is_failure)) [
                  | inl t ↦ rw (e, t, traced) (timed_out-Kept plan run _ now trace w)
                  | inr t ↦ rw (e, t) (with_flow (get_flow run.flow_id w.store) refl)
                ]
        ]
      where
        with_flow :
            (flow : Option (FlowDefinition J))
            → get_flow run.flow_id w.store ≡ flow
            → Kept plan run w (resume_flow o refusal dispatch run now flow w)
        with_flow none e = (refl, refl, e)
        with_flow (some flow) e = elim (Bool-cases (not flow.enabled)) [
          | inl off ↦ rw (off, traced) (cancelled-Kept plan run _ now trace w)
          | inr on ↦ rw (on, reads, traced) (run_plan-Kept plan flow.id run now trace w h here)
        ]
