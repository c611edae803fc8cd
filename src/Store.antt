-- ===== src/Store.antt =====
-- crates/robine-store-sqlite/src/lib.rs: the tables of the database. A row is the value that its payload
-- holds, and rows stand in the order of insertion. The database works: a statement fails only where a
-- constraint does, with the database's own text, `refusal`. A transaction that returns an error is undone.
pub mod Events
pub mod Commands
pub mod Runs
pub mod Claims
pub mod Consistent
pub mod Retention
pub mod Devices
pub mod Registry
pub mod Areas
pub mod Flows
pub mod Reach
mod Tests
use robine.Prelude.{ℕ, String, Option, List, Result}
use robine.Domain.Model.{
  Area, AdapterHealth, Entity, Device, FlowDefinition, FlowRun, StateProperty, Command,
  EventEnvelope,
}
use robine.Application.Errors.{ApplicationError}

-- A row of the table of entities; a device's payload has the entities of its last discovery.
pub record EntityRow : Type 0 where
  pub id : String
  pub device_id : String
  pub protocol_address : String
  pub payload : Entity

pub record Claim : Type 0 where
  pub flow_id : String
  pub correlation_id : String
  pub claimed_at : ℕ

pub record FlowRunTrace (J : Type 0) : Type 0 where
  pub id : String
  pub flow_id : String
  pub recorded_at : ℕ
  pub result : J

pub record Store (F J : Type 0) : Type 0 where
  pub devices : List Device
  pub entities : List EntityRow
  pub areas : List Area
  pub adapter_health : List AdapterHealth
  pub entity_state : List (StateProperty F)
  pub commands : List (Command F)
  pub events : List (EventEnvelope F J)
  -- the last number that `AUTOINCREMENT` gave out
  pub last_sequence : ℕ
  pub flows : List (FlowDefinition J)
  pub flow_runs : List (FlowRun J)
  pub flow_trigger_claims : List Claim
  pub flow_run_traces : List (FlowRunTrace J)
  pub automation_engine_cursor : Option ℕ

-- A method of the store: its result, and the tables after it.
abbrev pub Method : Type 0 → Type 0 → Type 0 → Type 0
Method F J A = Store F J → Result ApplicationError A × Store F J
