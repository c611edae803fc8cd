-- ===== src/Domain/Model.antt =====
-- crates/robine-domain/src/lib.rs: devices, flows, commands, states and events. An identifier (a `Uuid`)
-- is its text, an instant (a `DateTime<Utc>`) a number of nanoseconds, and `J` the JSON values.
use robine.Prelude.{ℕ, ◌+◌, ◌*◌, String, Bool, Option, List}
use robine.Domain.{StateValue}
use robine.Domain.Discovery.{Capability}

-- `now + chrono::Duration::milliseconds(…)`
abbrev pub add_milliseconds : ℕ → ℕ → ℕ
add_milliseconds now n = now + n * 1000000

pub data DeviceStatus : Type 0 where
  discovered available unavailable removed : DeviceStatus

pub data AdapterStatus : Type 0 where
  starting available degraded unauthorized disabled : AdapterStatus

pub record AdapterHealth : Type 0 where
  pub adapter_id : String
  pub status : AdapterStatus
  pub detail : Option String
  pub observed_at : ℕ

pub record Entity : Type 0 where
  pub id : String
  pub name : String
  pub kind : String
  pub capabilities : List Capability
  pub area_id : Option String

pub record Device : Type 0 where
  pub id : String
  pub adapter_id : String
  pub protocol_address : String
  pub name : String
  pub status : DeviceStatus
  pub entities : List Entity

pub record Area : Type 0 where
  pub id : String
  pub name : String

pub record FlowDefinition (J : Type 0) : Type 0 where
  pub id : String
  pub name : String
  pub enabled : Bool
  pub revision : ℕ
  pub ast : J
  pub source : String
  pub source_hash : String

pub record FlowRun (J : Type 0) : Type 0 where
  pub id : String
  pub flow_id : String
  pub plan : J
  pub trace : Option J
  pub retry_attempt : Option ℕ
  pub next_action : ℕ
  pub wake_at : ℕ
  pub awaiting : Option J
  pub await_timeout_is_failure : Bool
  pub correlation_id : String
  pub deadline_at : Option ℕ
  pub queued : Bool

pub data StateQuality : Type 0 where
  reported estimated unavailable invalid : StateQuality

pub record StateProperty (F : Type 0) : Type 0 where
  pub entity_id : String
  pub key : String
  pub value : StateValue F
  pub quality : StateQuality
  pub source_at : ℕ
  pub received_at : ℕ
  pub version : ℕ

pub record ReportedState (F : Type 0) : Type 0 where
  pub entity_id : String
  pub key : String
  pub value : StateValue F
  pub source_at : ℕ

pub data CommandStatus : Type 0 where
  requested dispatched confirmed failed expired : CommandStatus

pub record Command (F : Type 0) : Type 0 where
  pub id : String
  pub entity_id : String
  pub key : String
  pub value : StateValue F
  pub correlation_id : String
  pub idempotency_key : String
  pub requested_at : ℕ
  pub status : CommandStatus

pub data EventData (F J : Type 0) : Type 0 where
  device_registered device_updated device_removed : Device → EventData F J
  area_created : Area → EventData F J
  entity_area_assigned : Entity → EventData F J
  adapter_health_changed : AdapterHealth → EventData F J
  flow_created flow_updated : FlowDefinition J → EventData F J
  state_reported : StateProperty F → EventData F J
  command_requested command_dispatched command_confirmed : Command F → EventData F J
  command_failed : Command F → String → EventData F J
  command_expired : Command F → EventData F J

pub record EventEnvelope (F J : Type 0) : Type 0 where
  pub sequence : ℕ
  pub occurred_at : ℕ
  pub correlation_id : Option String
  pub content : EventData F J

module _ {F J : Type 0} where
  -- `EventData::topic`
  unfoldable pub topic : EventData F J → String
  topic (device_registered _) = "device"
  topic (device_updated _) = "device"
  topic (device_removed _) = "device"
  topic (entity_area_assigned _) = "device"
  topic (area_created _) = "area"
  topic (adapter_health_changed _) = "adapter"
  topic (flow_created _) = "automation"
  topic (flow_updated _) = "automation"
  topic (state_reported _) = "state"
  topic (command_requested _) = "command"
  topic (command_dispatched _) = "command"
  topic (command_confirmed _) = "command"
  topic (command_failed _ _) = "command"
  topic (command_expired _) = "command"

  -- `EventData::event_type`
  unfoldable pub event_type : EventData F J → String
  event_type (device_registered _) = "device.registered"
  event_type (device_updated _) = "device.updated"
  event_type (device_removed _) = "device.removed"
  event_type (area_created _) = "area.created"
  event_type (entity_area_assigned _) = "entity.area_assigned"
  event_type (adapter_health_changed _) = "adapter.health_changed"
  event_type (flow_created _) = "automation.created"
  event_type (flow_updated _) = "automation.updated"
  event_type (state_reported _) = "state.reported"
  event_type (command_requested _) = "command.requested"
  event_type (command_dispatched _) = "command.dispatched"
  event_type (command_confirmed _) = "command.confirmed"
  event_type (command_failed _ _) = "command.failed"
  event_type (command_expired _) = "command.expired"
