-- ===== src/Application/Home.antt =====
-- crates/robine-application/src/lib.rs: `HomeService`, with the SQLite store as its repository. The adapter's
-- dispatcher is a parameter: it may call the service while it dispatches.
pub mod Requests
pub mod Repeated
mod Tests
use robine.Prelude.{
  ℕ, ◌+◌, ◌-◌, String, ◌<>◌, Bool, true, false, Option, none, some, List, [], ◌∷◌, ◌++◌, ◌==◌, not,
  if◌then◌else◌, Result, ok, err, length,
}
use robine.Domain.{StateValue, is_valid_for}
use robine.Domain.Discovery.{DomainError, is_blank, supports}
use robine.Domain.Model.{CommandStatus, Command, Entity, ReportedState, EventEnvelope}
use robine.Flow.Float.{F64}
use robine.Application.Errors.{ApplicationError}
use robine.Store.{Store}
use robine.Store.Devices.{get_entity, is_entity_commandable}
use robine.Store.Commands.{
  with_status, find_command_by_idempotency, create_command, transition_command, expire_commands,
  apply_reported_state,
}

-- The tables, and the events published so far
pub record Home (F J : Type 0) : Type 0 where
  pub store : Store F J
  pub published : List (EventEnvelope F J)

abbrev pub Call : Type 0 → Type 0 → Type 0 → Type 0
Call F J A = Home F J → Result ApplicationError A × Home F J

-- What a caller asks of an entity
pub record CommandRequest (F : Type 0) : Type 0 where
  pub entity_id : String
  pub key : String
  pub value : StateValue F
  pub idempotency_key : String
  pub now : ℕ
  pub correlation_id : String

-- `#[error]` of the errors
abbrev pub domain_text : DomainError → String
domain_text DomainError.invalid_adapter_id = "adapter identifier is invalid"
domain_text DomainError.invalid_capability = "capability is invalid"
domain_text DomainError.missing_protocol_address = "a device must have a protocol address"
domain_text DomainError.duplicate_capability = "an entity cannot declare the same capability twice"
domain_text (DomainError.invalid_state_value key) = "state value does not match capability " <> key

abbrev pub error_text : ApplicationError → String
error_text ApplicationError.entity_not_found = "entity not found"
error_text (ApplicationError.capability_not_supported key) = "capability not supported: " <> key
error_text (ApplicationError.validation message) = "validation error: " <> message
error_text (ApplicationError.infrastructure message) = "infrastructure failure: " <> message
error_text (ApplicationError.domain error) = domain_text error

module _ {F : Type 0} where
  -- `Command { … }`, with the identifier that `CommandId::new` gives
  abbrev pub new_command : String → CommandRequest F → Command F
  new_command id r = record {
    id = id;
    entity_id = r.entity_id;
    key = r.key;
    value = r.value;
    correlation_id = r.correlation_id;
    idempotency_key = r.idempotency_key;
    requested_at = r.now;
    status = CommandStatus.requested;
  }

  -- the checks of the entity, the capability and the value
  abbrev pub check_entity :
      Option Entity → Bool → String → StateValue F → Result ApplicationError (Unit {0})
  check_entity none commandable key value = err ApplicationError.entity_not_found
  check_entity (some entity) commandable key value =
      if not commandable
      then err
          (ApplicationError.validation "the entity belongs to an unavailable or removed device")
      else (if not (supports entity.capabilities key)
          then err (ApplicationError.capability_not_supported key)
          else (if not (is_valid_for value key)
              then err (ApplicationError.domain (DomainError.invalid_state_value key))
              else ok tt))

  -- the same checks of a reported state, without that of the device
  abbrev check_state : Option Entity → ReportedState F → Result ApplicationError (Unit {0})
  check_state none state = err ApplicationError.entity_not_found
  check_state (some entity) state =
      if not (supports entity.capabilities state.key)
      then err (ApplicationError.capability_not_supported state.key)
      else (if not (is_valid_for state.value state.key)
          then err (ApplicationError.domain (DomainError.invalid_state_value state.key))
          else ok tt)

module _ {F J : Type 0} where
  abbrev pub publish : List (EventEnvelope F J) → Home F J → Home F J
  publish events w = record w { published = w.published ++ events }

  -- `let event = …?; self.events.publish(event)`, and then the result
  abbrev pub settled :
      {A : Type 0}
      → Result ApplicationError A
      → Result ApplicationError (EventEnvelope F J)
      → Call F J A
  settled result (err e) w = (err e, w)
  settled result (ok event) w = (result, publish (event ∷ []) w)

  module _ (refusal : String) (dispatch : Command F → Call F J (Unit {0})) where
    -- `match self.dispatcher.dispatch(…)`
    abbrev pub after_dispatch :
        Command F → ℕ → Result ApplicationError (Unit {0}) → Call F J (Command F)
    after_dispatch c now (ok _) w =
        let (event, s) =
          transition_command refusal c.id CommandStatus.dispatched none now w.store in
        settled (ok (with_status c CommandStatus.dispatched)) event (record w { store = s })
    after_dispatch c now (err error) w =
        let (event, s) =
          transition_command refusal c.id CommandStatus.failed (some (error_text error)) now
            w.store in
        settled (err error) event (record w { store = s })

    abbrev pub after_create :
        ℕ → Result ApplicationError (Command F × EventEnvelope F J) → Call F J (Command F)
    after_create now (err e) w = (err e, w)
    after_create now (ok created) w =
        let (sent, w') = dispatch created.0 (publish (created.1 ∷ []) w) in
        after_dispatch created.0 now sent w'

    abbrev pub send_new :
        String → CommandRequest F → Result ApplicationError (Unit {0}) → Call F J (Command F)
    send_new id r (err e) w = (err e, w)
    send_new id r (ok _) w =
        let (created, s) = create_command refusal (new_command id r) w.store in
        after_create r.now created (record w { store = s })

    abbrev pub send_once : String → CommandRequest F → Option (Command F) → Call F J (Command F)
    send_once id r (some command) w = (ok command, w)
    send_once id r none w =
        send_new id r
          (check_entity (get_entity r.entity_id w.store) (is_entity_commandable r.entity_id w.store)
            r.key r.value)
          w

    unfoldable pub request_command_with_correlation :
        String → CommandRequest F → Call F J (Command F)
    request_command_with_correlation id r w =
        if is_blank r.idempotency_key
        then (err (ApplicationError.validation "Idempotency-Key is required"), w)
        else send_once id r (find_command_by_idempotency r.idempotency_key w.store) w

  -- the loop that publishes
  abbrev publish_all : Result ApplicationError (List (EventEnvelope F J)) → Call F J (Unit {0})
  publish_all (err e) w = (err e, w)
  publish_all (ok events) w = (ok tt, publish events w)

  abbrev report_checked :
      String
      → F64 F
      → ReportedState F
      → ℕ
      → Result ApplicationError (Unit {0})
      → Call F J (Unit {0})
  report_checked refusal f state now (err e) w = (err e, w)
  report_checked refusal f state now (ok _) w =
      let (events, s) = apply_reported_state f refusal state now w.store in
      publish_all events (record w { store = s })

  -- `HomeService::apply_reported_state`
  unfoldable pub report_state : String → F64 F → ReportedState F → ℕ → Call F J (Unit {0})
  report_state refusal f state now w =
      report_checked refusal f state now (check_state (get_entity state.entity_id w.store) state) w

  abbrev count_published : Result ApplicationError (List (EventEnvelope F J)) → Call F J ℕ
  count_published (err e) w = (err e, w)
  count_published (ok events) w = (ok (length events), publish events w)

  unfoldable pub expire_stale_commands : ℕ → ℕ → Call F J ℕ
  expire_stale_commands now timeout w =
      let (events, s) = expire_commands (now - timeout) now 100 w.store in
      count_published events (record w { store = s })
