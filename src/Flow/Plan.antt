-- ===== src/Flow/Plan.antt =====
-- crates/robine-flow-plan/src/lib.rs: the plan that a validated flow is compiled to.
pub mod Duration
pub mod Options
pub mod Await
pub mod Action
pub mod Compile
pub mod Tests
use robine.Prelude.{ℕ, String, Bool, Option, List}

pub data ConcurrencyMode : Type 0 where
  single restart queue : ConcurrencyMode

pub record ConcurrencyPolicy : Type 0 where
  pub mode : ConcurrencyMode
  pub max_runs : ℕ

abbrev pub default_policy : ConcurrencyPolicy
default_policy = record { mode = single; max_runs = 1 }

pub data CommandConfirmation : Type 0 where
  transport unconfirmed : CommandConfirmation
  reported : ℕ → CommandConfirmation

pub data AwaitValue (F : Type 0) : Type 0 where
  bool : Bool → AwaitValue F
  percentage : F → AwaitValue F
  text : String → AwaitValue F

-- `AwaitTriggers` is the `Vec<AwaitTrigger>` of `AnyOf`.
mutual
  pub data AwaitTrigger (F : Type 0) : Type 0 where
    any_of : AwaitTriggers F → AwaitTrigger F
    event_type : String → AwaitTrigger F
    command_confirmed : String → AwaitTrigger F
    state_changed : String → String → Option (AwaitValue F) → AwaitTrigger F

  pub data AwaitTriggers (F : Type 0) : Type 0 where
    no_triggers : AwaitTriggers F
    cons_triggers : AwaitTrigger F → AwaitTriggers F → AwaitTriggers F

pub data PlannedAction (F : Type 0) : Type 0 where
  command : String → String → Option F → CommandConfirmation → PlannedAction F
  wait : ℕ → PlannedAction F
  await : AwaitTrigger F → Option ℕ → PlannedAction F
  audit : String → PlannedAction F
  set_automation_enabled : String → Bool → PlannedAction F
  retry : PlannedAction F → ℕ → ℕ → PlannedAction F

pub record ExecutionPlan (F : Type 0) : Type 0 where
  pub actions : List (PlannedAction F)
  pub max_runtime_milliseconds : Option ℕ
  pub concurrency : ConcurrencyPolicy

pub data PlanError : Type 0 where
  invalid_flow : String → PlanError
  missing_body unsupported_action invalid_command invalid_wait invalid_concurrency : PlanError
  invalid_automation_target invalid_brightness invalid_confirmation invalid_await : PlanError
  invalid_retry : PlanError
