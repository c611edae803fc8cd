-- ===== src/Flow/Runtime/Trace.antt =====
-- crates/robine-flow-runtime/src/lib.rs: the trace of a run, and the results of a run.
use robine.Prelude.{ℕ, String, Bool, Option, List}
use robine.Flow.Plan.{AwaitTrigger}

pub data TraceStep (F : Type 0) : Type 0 where
  guard_evaluated : Bool → String → TraceStep F
  command_requested : String → String → TraceStep F
  retry_scheduled : ℕ → ℕ → ℕ → TraceStep F
  retry_exhausted : ℕ → TraceStep F
  action_failed audited : String → TraceStep F
  waiting : ℕ → TraceStep F
  awaiting : AwaitTrigger F → Option ℕ → TraceStep F
  automation_changed : String → Bool → TraceStep F

-- the fields of `RunResult::Suspended` but its trace
pub record Suspension (F : Type 0) : Type 0 where
  pub after_milliseconds : Option ℕ
  pub next_action : ℕ
  pub awaiting : Option (AwaitTrigger F)
  pub await_timeout_is_failure : Bool
  pub retry_attempt : Option ℕ

pub data RunResult (F : Type 0) : Type 0 where
  completed failed skipped timed_out cancelled queued : List (TraceStep F) → RunResult F
  suspended : Suspension F → List (TraceStep F) → RunResult F

-- `RunResult::trace`
abbrev pub trace_of : {F : Type 0} → RunResult F → List (TraceStep F)
trace_of (completed trace) = trace
trace_of (failed trace) = trace
trace_of (skipped trace) = trace
trace_of (timed_out trace) = trace
trace_of (cancelled trace) = trace
trace_of (queued trace) = trace
trace_of (suspended _ trace) = trace
