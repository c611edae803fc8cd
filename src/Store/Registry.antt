-- ===== src/Store/Registry.antt =====
-- crates/robine-store-sqlite/src/lib.rs: what is written to the tables of devices, entities and adapters.
-- The identifiers that `DeviceId::new` and `EntityId::new` give are arguments. The row of a device is written
-- before those of its entities, so that their references to it hold.
use robine.Prelude.{
  ℕ, ◌+◌, String, Bool, true, false, Option, none, some, List, [], ◌∷◌, ◌++◌, ◌==◌, ◌&&◌, not,
  if◌then◌else◌, ok, err, map,
}
use robine.Prelude.Tables.{find_row, has_row, where_rows, update_rows, delete_rows, upsert}
use robine.Domain.Discovery.{DiscoveryEntity, DeviceDiscovery}
use robine.Domain.Model.{
  Device, DeviceStatus, Entity, AdapterHealth, EventData, EventEnvelope, device_registered,
  device_updated, device_removed, adapter_health_changed,
}
use robine.Application.Errors.{ApplicationError}
use robine.Store.{Store, EntityRow, Method}
use robine.Store.Devices.{is_entity, is_device}
use robine.Store.Events.{insert_event}

-- the columns of `UNIQUE(adapter_id, protocol_address)`, and of `UNIQUE(device_id, protocol_address)`
abbrev pub is_at : String → String → Device → Bool
is_at adapter_id protocol_address d =
    d.adapter_id == adapter_id && d.protocol_address == protocol_address

abbrev pub is_entity_at : String → String → EntityRow → Bool
is_entity_at device_id protocol_address row =
    row.device_id == device_id && row.protocol_address == protocol_address

abbrev pub id_or : String → Option Device → String
id_or new_id none = new_id
id_or new_id (some d) = d.id

abbrev name_or : String → Option Device → String
name_or name none = name
name_or name (some d) = d.name

-- an entity as it is announced, with what is kept of the one before it
abbrev merged : String → DiscoveryEntity → Option EntityRow → Entity
merged new_id announced none = record {
  id = new_id;
  name = announced.name;
  kind = announced.kind;
  capabilities = announced.capabilities;
  area_id = none;
}
merged new_id announced (some row) = record {
  id = row.payload.id;
  name = row.payload.name;
  kind = announced.kind;
  capabilities = announced.capabilities;
  area_id = row.payload.area_id;
}

-- The loop over the announced entities. `existing` has the rows of `existing_entities` that are not taken.
unfoldable pub persisted_entities :
    (ℕ → String) → ℕ → List EntityRow → List DiscoveryEntity → List (String × Entity)
persisted_entities new_id place existing [] = []
persisted_entities new_id place existing (announced ∷ rest) =
    let at = λ (row : EntityRow). row.protocol_address == announced.protocol_address in
    (announced.protocol_address, merged (new_id place) announced (find_row at existing))
    ∷ persisted_entities new_id (place + 1) (delete_rows at existing) rest

abbrev entity_of : String × Entity → Entity
entity_of (_, entity) = entity

-- `INSERT INTO devices … ON CONFLICT(adapter_id, protocol_address) DO UPDATE`
abbrev pub put_device : Device → List Device → Option (List Device)
put_device d rows =
    if has_row (is_at d.adapter_id d.protocol_address) rows
    then some (update_rows (is_at d.adapter_id d.protocol_address) (λ _. d) rows)
    else if has_row (is_device d.id) rows
    then none
    else some (rows ++ d ∷ [])

-- `INSERT INTO entities … ON CONFLICT(device_id, protocol_address) DO UPDATE SET payload`
abbrev pub put_entity : String → String → Entity → List EntityRow → Option (List EntityRow)
put_entity device_id address entity rows =
    if has_row (is_entity_at device_id address) rows
    then some
        (update_rows (is_entity_at device_id address) (λ row. record row { payload = entity }) rows)
    else if has_row (is_entity entity.id) rows
    then none
    else some (
        rows
        ++ record {
          id = entity.id;
          device_id = device_id;
          protocol_address = address;
          payload = entity;
        }
          ∷ [])

abbrev then_put :
    (List EntityRow → Option (List EntityRow)) → Option (List EntityRow) → Option (List EntityRow)
then_put next none = none
then_put next (some rows) = next rows

-- the loop over the entities that are persisted
unfoldable pub put_entities :
    String → List (String × Entity) → List EntityRow → Option (List EntityRow)
put_entities device_id [] rows = some rows
put_entities device_id ((address, entity) ∷ rest) rows =
    then_put (λ rows'. put_entities device_id rest rows') (put_entity device_id address entity rows)

abbrev pub same_status : DeviceStatus → DeviceStatus → Bool
same_status DeviceStatus.discovered DeviceStatus.discovered = true
same_status DeviceStatus.available DeviceStatus.available = true
same_status DeviceStatus.unavailable DeviceStatus.unavailable = true
same_status DeviceStatus.removed DeviceStatus.removed = true
same_status _ _ = false

abbrev pub adapter_of : AdapterHealth → String
adapter_of health = health.adapter_id

module _ {F J : Type 0} where
  abbrev registration_event : Option Device → Device → EventData F J
  registration_event none d = device_registered d
  registration_event (some _) d = device_updated d

  abbrev pub registered_device : String → (ℕ → String) → DeviceDiscovery → Store F J → Device
  registered_device id new_entity_id discovery s = record {
    id = id;
    adapter_id = discovery.adapter_id;
    protocol_address = discovery.protocol_address;
    name = name_or discovery.name (find_row (is_device id) s.devices);
    status = DeviceStatus.available;
    entities = map entity_of (
        persisted_entities new_entity_id 0 (where_rows (λ row. row.device_id == id) s.entities)
          discovery.entities);
  }

  -- what follows the statements on the two tables
  abbrev pub finish_registration :
      String
      → Option Device
      → Device
      → ℕ
      → Option (List Device)
      → Option (List EntityRow)
      → Method F J (Device × EventEnvelope F J)
  finish_registration refusal existing d now (some devices) (some entities) s =
      let (event, s') =
        insert_event (registration_event existing d) now none
          (record s { devices = devices; entities = entities }) in
      (ok (d, event), s')
  finish_registration refusal existing d now _ _ s =
      (err (ApplicationError.infrastructure refusal), s)

  abbrev pub register_as :
      String
      → (ℕ → String)
      → DeviceDiscovery
      → ℕ
      → Option Device
      → String
      → Method F J (Device × EventEnvelope F J)
  register_as refusal new_entity_id discovery now existing id s =
      let persisted =
        persisted_entities new_entity_id 0 (where_rows (λ row. row.device_id == id) s.entities)
          discovery.entities in
      let d = registered_device id new_entity_id discovery s in
      finish_registration refusal existing d now (put_device d s.devices)
        (put_entities id persisted s.entities) s

  unfoldable pub register_discovery :
      String → String → (ℕ → String) → DeviceDiscovery → ℕ → Method F J (Device × EventEnvelope F J)
  unfolding insert_event
  register_discovery refusal new_device_id new_entity_id discovery now s =
      let existing = find_row (is_at discovery.adapter_id discovery.protocol_address) s.devices in
      register_as refusal new_entity_id discovery now existing (id_or new_device_id existing) s

  -- The loop of `set_adapter_devices_status` at one row
  unfoldable pub set_status_row :
      DeviceStatus → ℕ → Device → Store F J → List (EventEnvelope F J) × Store F J
  unfolding insert_event
  set_status_row status now d s =
      if same_status d.status status
      then ([], s)
      else (let changed = record d { status = status } in
          let (event, s') =
            insert_event (device_updated changed) now none
              (record s { devices = update_rows (is_device d.id) (λ _. changed) s.devices }) in
          (event ∷ [], s'))

  unfoldable pub set_status_rows :
      DeviceStatus → ℕ → List Device → Store F J → List (EventEnvelope F J) × Store F J
  set_status_rows status now [] s = ([], s)
  set_status_rows status now (d ∷ rows) s =
      let (first, s') = set_status_row status now d s in
      let (more, s'') = set_status_rows status now rows s' in (first ++ more, s'')

  unfoldable pub set_adapter_devices_status :
      String → DeviceStatus → ℕ → Method F J (List (EventEnvelope F J))
  set_adapter_devices_status adapter_id status now s =
      if same_status status DeviceStatus.removed
      then (err (ApplicationError.validation "adapter availability cannot remove devices"), s)
      else (let (events, s') =
            set_status_rows status now
              (where_rows
                (λ d. d.adapter_id == adapter_id && not (same_status d.status DeviceStatus.removed))
                s.devices)
              s in
          (ok events, s'))

  -- `rename_device` and `remove_device`, at the row with the identifier or at none
  abbrev pub change_device :
      (Device → Device)
      → (Device → EventData F J)
      → ℕ
      → Option Device
      → Method F J (Device × EventEnvelope F J)
  change_device change content now none s = (err ApplicationError.entity_not_found, s)
  change_device change content now (some d) s =
      let changed = change d in
      let (event, s') =
        insert_event (content changed) now none
          (record s { devices = update_rows (is_device d.id) (λ _. changed) s.devices }) in
      (ok (changed, event), s')

  unfoldable pub rename_device : String → String → ℕ → Method F J (Device × EventEnvelope F J)
  unfolding insert_event
  rename_device id name now s =
      change_device (λ d. record d { name = name }) device_updated now
        (find_row (is_device id) s.devices) s

  unfoldable pub remove_device : String → ℕ → Method F J (Device × EventEnvelope F J)
  unfolding insert_event
  remove_device id now s =
      change_device (λ d. record d { status = DeviceStatus.removed }) device_removed now
        (find_row (is_device id) s.devices) s

  unfoldable pub upsert_adapter_health : AdapterHealth → Method F J (EventEnvelope F J)
  unfolding insert_event
  upsert_adapter_health health s =
      let (event, s') =
        insert_event (adapter_health_changed health) health.observed_at none
          (record s { adapter_health = upsert adapter_of health s.adapter_health }) in
      (ok event, s')
