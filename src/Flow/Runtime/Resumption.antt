-- ===== src/Flow/Runtime/Resumption.antt =====
-- crates/robine-flow-runtime/src/lib.rs: where a suspended run may be resumed, and that it comes to an
-- end when it is.
use robine.Prelude.{
  ℕ, zero, suc, ◌-◌, ◌≤◌, ◌<◌, ◌≡◌, refl, sym, ap, subst, ◌∙◌, String, Option, none, some, List, [],
  ◌∷◌, arith, Result, ok, err, length, drop,
}
use robine.Flow.Float.{F64}
use robine.Flow.Plan.{PlannedAction, ExecutionPlan}
use robine.Flow.Plan.Options.Bounds.{IsTimeout}
use robine.Flow.Plan.Compile.Bounds.{IsPlan}
use robine.Flow.Runtime.Trace.{
  TraceStep, Suspension, RunResult, completed, failed, suspended, trace_of,
}
use robine.Flow.Runtime.{Gateway, unwrap_or, run_actions, execute_from_resumption, RuntimeError}
use robine.Flow.Runtime.Resume.{Extends}
use robine.Flow.Runtime.Drive.{
  IsStart, total, IsPoint, Leaves, run_actions-Runs, AreActions-drop, drop-drop, length-drop,
  Extends-trans,
}

module _ {F : Type 0} where
  -- Where a plan may be resumed: in front of an action, or behind the last, and only a retry has
  -- attempts beyond the first.
  pub record IsResumable (plan : ExecutionPlan F) (start : ℕ) (retry_attempt : Option ℕ)
      : Type 0 where
    pub inside : start ≤ length plan.actions
    pub startable : IsStart (drop start plan.actions) (unwrap_or retry_attempt 0)

  -- The tries that a plan has left from there on.
  abbrev pub tries_left : ExecutionPlan F → ℕ → Option ℕ → ℕ
  tries_left plan start retry_attempt = total (drop start plan.actions) - unwrap_or retry_attempt 0

  -- A run ends, or is suspended where it may be resumed, with fewer tries left and a bounded timer.
  abbrev pub Outcome : ExecutionPlan F → ℕ → Option ℕ → RunResult F → Type 0
  Outcome plan start retry_attempt (completed _) = Unit
  Outcome plan start retry_attempt (failed _) = Unit
  Outcome plan start retry_attempt (suspended s _) =
      IsResumable plan s.next_action s.retry_attempt
      × (tries_left plan s.next_action s.retry_attempt < tries_left plan start retry_attempt)
      × IsTimeout s.after_milliseconds
  Outcome plan start retry_attempt _ = ⊥

  start-le-total :
      (actions : List (PlannedAction F)) (attempt : ℕ)
      → IsStart actions attempt
      → attempt ≤ total actions
  start-le-total [] attempt h = omega (arith, h)
  start-le-total (action ∷ rest) attempt h = omega (arith, h)

  there :
      (plan : ExecutionPlan F) (start : ℕ) (retry_attempt : Option ℕ) (s : Suspension F)
      (l : IsPoint (drop start plan.actions) start (unwrap_or retry_attempt 0) s)
      → drop l.passed (drop start plan.actions) ≡ drop s.next_action plan.actions
  there plan start retry_attempt s l =
      drop-drop start l.passed plan.actions ∙ ap (λ n. drop n plan.actions) (sym l.place)

  Outcome-Leaves :
      (plan : ExecutionPlan F) (start : ℕ) (retry_attempt : Option ℕ) (r : RunResult F)
      → IsResumable plan start retry_attempt
      → Leaves (drop start plan.actions) start (unwrap_or retry_attempt 0) r
      → Outcome plan start retry_attempt r
  Outcome-Leaves plan start retry_attempt (completed t) h l = tt
  Outcome-Leaves plan start retry_attempt (failed t) h l = tt
  Outcome-Leaves plan start retry_attempt (suspended s t) h l =
      let same = there plan start retry_attempt s l in
      let startable =
        subst (λ actions. IsStart actions (unwrap_or s.retry_attempt 0)) same l.startable in
      let spent =
        start-le-total (drop start plan.actions) (unwrap_or retry_attempt 0) h.startable in
      let left =
        start-le-total (drop s.next_action plan.actions) (unwrap_or s.retry_attempt 0) startable in
      (
        record {
          inside = omega (arith, l.place, l.inside, length-drop start plan.actions, h.inside);
          startable = startable;
        },
        omega (arith, ap total same, l.fewer, spent, left),
        l.timed,
      )
  Outcome-Leaves plan start retry_attempt _ h l = absurd l

module _ {F G : Type 0} (f : F64 F) (gateway : Gateway F G) (run : String) where
  -- A run of a compiled plan, started where it may be resumed, returns a result: it is completed, failed
  -- or suspended, and what was recorded before is kept. If it is suspended, it may be resumed where it
  -- says, with fewer tries left than before, and its timer is at most the longest wait.
  pub execute_from_resumption-Outcome :
      (plan : ExecutionPlan F) (start : ℕ) (retry_attempt : Option ℕ) (trace : List (TraceStep F))
      (g : G)
      → IsPlan f plan
      → IsResumable plan start retry_attempt
      → (r : RunResult F) × (g' : G) × (execute_from_resumption gateway run plan start retry_attempt
            trace g
          ≡ (ok r, g'))
        × Extends trace (trace_of r)
        × Outcome plan start retry_attempt r
  unfolding execute_from_resumption
  execute_from_resumption-Outcome plan start retry_attempt trace g h here =
      let actions = drop start plan.actions in
      let attempt = unwrap_or retry_attempt 0 in
      let result = run_actions gateway run start attempt actions trace g in
      let (extends, leaves) =
        run_actions-Runs f gateway run actions start attempt trace g
          (AreActions-drop f gateway run start plan.actions h.bounded) here.startable in
      (
        result.0,
        result.1,
        refl,
        extends,
        Outcome-Leaves plan start retry_attempt result.0 here leaves,
      )

  -- What a host does with a result: it takes a suspension up again, where it says and with the trace it
  -- left, and stops at an error or at any other result.
  abbrev pub taken_up :
      (Suspension F → List (TraceStep F) → G → Option (RunResult F × G))
      → Result RuntimeError (RunResult F) × G
      → Option (RunResult F × G)
  taken_up again (ok (suspended s t), g) = again s t g
  taken_up again (ok over, g) = some (over, g)
  taken_up again (err _, g) = none

  -- A host that does so for a number of rounds
  unfoldable pub drive :
      ℕ → ExecutionPlan F → ℕ → Option ℕ → List (TraceStep F) → G → Option (RunResult F × G)
  drive zero plan start retry_attempt trace g = none
  drive (suc rounds) plan start retry_attempt trace g =
      taken_up (λ s t g'. drive rounds plan s.next_action s.retry_attempt t g')
        (execute_from_resumption gateway run plan start retry_attempt trace g)

  -- A run that is over, after a trace
  abbrev pub IsOver : List (TraceStep F) → RunResult F → Type 0
  IsOver trace (completed t) = Extends trace t
  IsOver trace (failed t) = Extends trace t
  IsOver trace _ = ⊥

  IsOver-Extends :
      (t u : List (TraceStep F)) (r : RunResult F) → Extends t u → IsOver u r → IsOver t r
  IsOver-Extends t u (completed v) a b = Extends-trans f gateway run t u v a b
  IsOver-Extends t u (failed v) a b = Extends-trans f gateway run t u v a b
  IsOver-Extends t u _ a b = absurd b

  drive-round :
      (rounds : ℕ) (plan : ExecutionPlan F) (start : ℕ) (retry_attempt : Option ℕ)
      (trace : List (TraceStep F)) (g g' : G) (r : RunResult F)
      → execute_from_resumption gateway run plan start retry_attempt trace g ≡ (ok r, g')
      → Extends trace (trace_of r)
      → Outcome plan start retry_attempt r
      → ((s : Suspension F) (t : List (TraceStep F))
          → Extends trace t
          → IsResumable plan s.next_action s.retry_attempt
          → tries_left plan s.next_action s.retry_attempt < tries_left plan start retry_attempt
          → (last : RunResult F) × (end : G) × (drive rounds plan s.next_action s.retry_attempt t g'
              ≡ some (last, end))
            × IsOver trace last)
      → (last : RunResult F) × (end : G) × (drive (suc rounds) plan start retry_attempt trace g
          ≡ some (last, end))
        × IsOver trace last
  unfolding drive
  drive-round rounds plan start retry trace g g' (completed t) e extends o more =
      (completed t, g', ap (taken_up _) e, extends)
  drive-round rounds plan start retry trace g g' (failed t) e extends o more =
      (failed t, g', ap (taken_up _) e, extends)
  drive-round rounds plan start retry trace g g' (suspended s t) e extends o more =
      let (last, end, same, over) = more s t extends o.0 o.1 in
      (last, end, ap (taken_up _) e ∙ same, over)
  drive-round rounds plan start retry trace g g' _ e extends o more = absurd o

  -- A host that takes every suspension of a compiled plan up again comes to an end: with more rounds
  -- than there are tries left, the run is completed or failed, and keeps what was recorded before.
  pub drive-IsOver :
      (rounds : ℕ) (plan : ExecutionPlan F) (start : ℕ) (retry_attempt : Option ℕ)
      (trace : List (TraceStep F)) (g : G)
      → IsPlan f plan
      → IsResumable plan start retry_attempt
      → tries_left plan start retry_attempt < rounds
      → (last : RunResult F) × (end : G) × (drive rounds plan start retry_attempt trace g
          ≡ some (last, end))
        × IsOver trace last
  drive-IsOver zero plan start retry trace g h here few = absurd (ground arith)
  drive-IsOver (suc rounds) plan start retry trace g h here few =
      let (r, g', e, extends, o) =
        execute_from_resumption-Outcome plan start retry trace g h here in
      drive-round rounds plan start retry trace g g' r e extends o (λ s t longer resumable fewer.
        let (last, end, same, over) =
          drive-IsOver rounds plan s.next_action s.retry_attempt t g' h resumable
            (omega (arith, few, fewer)) in
        (last, end, same, IsOver-Extends trace t last longer over))
