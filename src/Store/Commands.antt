-- ===== src/Store/Commands.antt =====
-- crates/robine-store-sqlite/src/lib.rs: commands, and the reported states that confirm them.
pub mod Sweeps
use robine.Prelude.{
  ℕ, ◌+◌, String, Bool, true, false, Option, none, some, List, [], ◌∷◌, ◌++◌, ◌==◌, ◌&&◌, ◌||◌, not,
  ltb, eqb, if◌then◌else◌, Result, ok, err,
}
use robine.Prelude.Tables.{find_row, has_row, update_rows, take}
use robine.Domain.{StateValue}
use robine.Domain.Model.{
  CommandStatus, Command, StateProperty, ReportedState, EventData, EventEnvelope, StateQuality,
  state_reported, command_requested, command_dispatched, command_confirmed, command_failed,
  command_expired,
}
use robine.Flow.Float.{F64}
use robine.Application.Errors.{ApplicationError}
use robine.Store.{Store, Method}
use robine.Store.Events.{insert_event}
use robine.Store.Devices.{has_entity}

-- `matches!(command.status, CommandStatus::Requested | CommandStatus::Dispatched)`
abbrev pub is_pending : CommandStatus → Bool
is_pending CommandStatus.requested = true
is_pending CommandStatus.dispatched = true
is_pending _ = false

abbrev reason_or : Option String → String
reason_or none = "command failed"
reason_or (some reason) = reason

module _ {F : Type 0} where
  abbrev pub with_status : Command F → CommandStatus → Command F
  with_status c status = record c { status = status }

  abbrev pub is_property : String → String → StateProperty F → Bool
  is_property entity_id key row = row.entity_id == entity_id && row.key == key

  abbrev next_version : Option (StateProperty F) → ℕ
  next_version none = 1
  next_version (some current) = current.version + 1

  abbrev pub is_newer : Option (StateProperty F) → ℕ → Bool
  is_newer none source_at = false
  is_newer (some current) source_at = ltb source_at current.source_at

  -- `INSERT INTO entity_state … ON CONFLICT DO UPDATE`
  abbrev pub put_property : StateProperty F → List (StateProperty F) → List (StateProperty F)
  put_property p rows =
      if has_row (is_property p.entity_id p.key) rows
      then update_rows (is_property p.entity_id p.key) (λ _. p) rows
      else rows ++ p ∷ []

  abbrev pub report : ReportedState F → ℕ → Option (StateProperty F) → StateProperty F
  report state now current = record {
    entity_id = state.entity_id;
    key = state.key;
    value = state.value;
    quality = StateQuality.reported;
    source_at = state.source_at;
    received_at = now;
    version = next_version current;
  }

module _ {F : Type 0} (f : F64 F) where
  -- `command.value != property.value`
  abbrev pub same_value : StateValue F → StateValue F → Bool
  same_value (StateValue.bool a) (StateValue.bool b) = (a && b) || (not a && not b)
  same_value (StateValue.percentage a) (StateValue.percentage b) = f.eq_f64 a b
  same_value (StateValue.text a) (StateValue.text b) = a == b
  same_value _ _ = false

  -- whether a reported state confirms a command
  abbrev pub confirms : StateProperty F → Command F → Bool
  confirms property c =
      c.entity_id == property.entity_id
      && c.key == property.key
      && same_value c.value property.value
      && is_pending c.status

module _ {F J : Type 0} where
  -- `UPDATE commands SET payload = ?1 WHERE id = ?2`, with the command's status
  abbrev pub put_status : Command F → CommandStatus → Store F J → Store F J
  put_status c status s = record s {
    commands = update_rows (λ row. row.id == c.id) (λ _. with_status c status) s.commands;
  }

  -- the event of `transition_command`
  abbrev pub transition_event : Command F → CommandStatus → Option String → EventData F J
  transition_event c CommandStatus.dispatched reason = command_dispatched c
  transition_event c CommandStatus.confirmed reason = command_confirmed c
  transition_event c CommandStatus.failed reason = command_failed c (reason_or reason)
  transition_event c CommandStatus.expired reason = command_expired c
  transition_event c CommandStatus.requested reason = command_requested c

  abbrev pub current_state : ReportedState F → Store F J → Option (StateProperty F)
  current_state state s = find_row (is_property state.entity_id state.key) s.entity_state

  -- The row of the state would be a new one, and the entity that it refers to has no row. An update of a
  -- row leaves the reference as it is.
  abbrev pub lacks_entity : ReportedState F → Store F J → Bool
  lacks_entity state s =
      not (has_row (is_property state.entity_id state.key) s.entity_state)
      && not (has_entity state.entity_id s)

  unfoldable pub find_command_by_idempotency : String → Store F J → Option (Command F)
  find_command_by_idempotency key s = find_row (λ row. row.idempotency_key == key) s.commands

  -- The loop of `expire_commands` at one row: it returns the events that it pushes.
  unfoldable pub expire_row : ℕ → ℕ → Command F → Store F J → List (EventEnvelope F J) × Store F J
  unfolding insert_event
  expire_row before now c s =
      if is_pending c.status && ltb c.requested_at before
      then (let (event, s') =
            insert_event (command_expired (with_status c CommandStatus.expired)) now
              (some c.correlation_id) (put_status c CommandStatus.expired s) in
          (event ∷ [], s'))
      else ([], s)

  unfoldable pub expire_rows :
      ℕ → ℕ → List (Command F) → Store F J → List (EventEnvelope F J) × Store F J
  expire_rows before now [] s = ([], s)
  expire_rows before now (c ∷ rows) s =
      let (first, s') = expire_row before now c s in
      let (more, s'') = expire_rows before now rows s' in (first ++ more, s'')

  -- The rows are those of `SELECT id, payload FROM commands LIMIT`, whatever their status.
  unfoldable pub expire_commands : ℕ → ℕ → ℕ → Method F J (List (EventEnvelope F J))
  expire_commands before now limit s =
      let (events, s') = expire_rows before now (take limit s.commands) s in (ok events, s')

  module _ (refusal : String) where
    unfoldable pub create_command : Command F → Method F J (Command F × EventEnvelope F J)
    unfolding insert_event
    create_command c s =
        if has_row (λ row. row.id == c.id) s.commands
          || has_row (λ row. row.idempotency_key == c.idempotency_key) s.commands
        then (err (ApplicationError.infrastructure refusal), s)
        else (let (event, s') =
              insert_event (command_requested c) c.requested_at (some c.correlation_id)
                (record s { commands = s.commands ++ c ∷ [] }) in
            (ok (c, event), s'))

    -- at the row with the id, or at none
    abbrev pub transition_row :
        Option (Command F) → CommandStatus → Option String → ℕ → Method F J (EventEnvelope F J)
    transition_row none status reason now s = (err (ApplicationError.infrastructure refusal), s)
    transition_row (some c) status reason now s =
        let (event, s') =
          insert_event (transition_event (with_status c status) status reason) now
            (some c.correlation_id) (put_status c status s) in
        (ok event, s')

    unfoldable pub transition_command :
        String → CommandStatus → Option String → ℕ → Method F J (EventEnvelope F J)
    unfolding insert_event
    transition_command id status reason now s =
        transition_row (find_row (λ row. row.id == id) s.commands) status reason now s

module _ {F J : Type 0} (f : F64 F) where
  -- The loop of `apply_reported_state` at one row
  unfoldable pub confirm_row :
      StateProperty F → ℕ → Command F → Store F J → List (EventEnvelope F J) × Store F J
  unfolding insert_event
  confirm_row property now c s =
      if confirms f property c
      then (let (event, s') =
            insert_event (command_confirmed (with_status c CommandStatus.confirmed)) now none
              (put_status c CommandStatus.confirmed s) in
          (event ∷ [], s'))
      else ([], s)

  unfoldable pub confirm_rows :
      StateProperty F → ℕ → List (Command F) → Store F J → List (EventEnvelope F J) × Store F J
  confirm_rows property now [] s = ([], s)
  confirm_rows property now (c ∷ rows) s =
      let (first, s') = confirm_row property now c s in
      let (more, s'') = confirm_rows property now rows s' in (first ++ more, s'')

  -- after the test of the current state's time
  abbrev pub project_state : StateProperty F → ℕ → Store F J → List (EventEnvelope F J) × Store F J
  project_state property now s =
      let (event, s') =
        insert_event (state_reported property) now none
          (record s { entity_state = put_property property s.entity_state }) in
      let (more, s'') = confirm_rows property now s'.commands s' in (event ∷ more, s'')

  -- With the database's text for a state whose entity has no row
  unfoldable pub apply_reported_state :
      String → ReportedState F → ℕ → Method F J (List (EventEnvelope F J))
  unfolding insert_event confirm_rows
  apply_reported_state refusal state now s =
      if is_newer (current_state state s) state.source_at
      then (ok [], s)
      else if lacks_entity state s
      then (err (ApplicationError.infrastructure refusal), s)
      else (let (events, s') = project_state (report state now (current_state state s)) now s in
          (ok events, s'))
