-- ===== src/Store/Consistent/Tables.antt =====
-- crates/robine-store-sqlite/src/lib.rs: the methods on devices, entities, areas, adapters and flows.
use robine.Prelude.{
  ℕ, String, Option, none, some, List, [], ◌∷◌, eqb, ◌==◌, Bool-cases, inl, inr, Result, ok, err,
}
use robine.Prelude.Tables.{find_row, has_row, where_rows, count_rows}
use robine.Domain.Discovery.{DeviceDiscovery}
use robine.Domain.Model.{
  Area, AdapterHealth, Entity, Device, DeviceStatus, FlowDefinition, EventData, device_updated,
  device_removed, entity_area_assigned,
}
use robine.Application.Errors.{ApplicationError}
use robine.Store.{Store, EntityRow}
use robine.Store.Devices.{is_entity, is_device}
use robine.Store.Events.{insert_event}
use robine.Store.Flows.{create_flow, update_flow}
use robine.Store.Registry.{
  id_or, is_at, same_status, persisted_entities, put_device, put_entities, registered_device,
  finish_registration, register_discovery, set_status_row, set_status_rows,
  set_adapter_devices_status, change_device, rename_device, remove_device, upsert_adapter_health,
}
use robine.Store.Areas.{
  AreaRecord, lacks_area, is_taken, member_device, write_member, rename_row, rename_entity,
  assign_row, assign_entity_area, insert_area, create_area, read_records, assign_records,
  create_with_records, create_area_with_entities,
}
use robine.Store.Consistent.{IsConsistent, IsConsistent-IsRest, insert_event-IsRest, with_rest}

module _ {F J : Type 0} where
  -- Other tables than those that the invariant speaks of
  tables-IsConsistent :
      (devices : List Device) (entities : List EntityRow) (areas : List Area)
      (adapters : List AdapterHealth) (flows : List (FlowDefinition J)) (s : Store F J)
      → IsConsistent s
      → IsConsistent (record s {
        devices = devices;
        entities = entities;
        areas = areas;
        adapter_health = adapters;
        flows = flows;
      })
  tables-IsConsistent devices entities areas adapters flows s h = record {
    command_ids = h.command_ids;
    idempotency_keys = h.idempotency_keys;
    numbered = h.numbered;
    run_ids = h.run_ids;
    exclusive = h.exclusive;
    bounded = h.bounded;
  }

  -- The same, with an event about it
  logged-IsConsistent :
      (content : EventData F J) (now : ℕ) (devices : List Device) (entities : List EntityRow)
      (areas : List Area) (adapters : List AdapterHealth) (flows : List (FlowDefinition J))
      (s : Store F J)
      → IsConsistent s
      → IsConsistent (
          (insert_event content now none (record s {
            devices = devices;
            entities = entities;
            areas = areas;
            adapter_health = adapters;
            flows = flows;
          })).1)
  unfolding insert_event
  logged-IsConsistent content now devices entities areas adapters flows s h =
      let changed = tables-IsConsistent devices entities areas adapters flows s h in
      with_rest _ h.command_ids h.idempotency_keys
        (insert_event-IsRest content now none _ (IsConsistent-IsRest _ changed))

  pub create_flow-IsConsistent :
      (refusal : String) (flow : FlowDefinition J) (now : ℕ) (s : Store F J)
      → IsConsistent s
      → IsConsistent ((create_flow refusal flow now s).1)
  unfolding create_flow
  create_flow-IsConsistent refusal flow now s h =
      elim (Bool-cases (has_row (λ row. row.id == flow.id) s.flows)) [
        | inl e ↦ rw e h
        | inr e ↦
            rw e (logged-IsConsistent _ now s.devices s.entities s.areas s.adapter_health _ s h)
      ]

  pub update_flow-IsConsistent :
      (flow : FlowDefinition J) (now : ℕ) (s : Store F J)
      → IsConsistent s
      → IsConsistent ((update_flow flow now s).1)
  unfolding update_flow
  update_flow-IsConsistent flow now s h =
      elim (Bool-cases (eqb (count_rows (λ row. row.id == flow.id) s.flows) 1)) [
        | inl e ↦
            rw e (logged-IsConsistent _ now s.devices s.entities s.areas s.adapter_health _ s h)
        | inr e ↦ rw e h
      ]

  finish_registration-IsConsistent :
      (refusal : String) (existing : Option Device) (d : Device) (now : ℕ)
      (devices : Option (List Device)) (entities : Option (List EntityRow)) (s : Store F J)
      → IsConsistent s
      → IsConsistent ((finish_registration refusal existing d now devices entities s).1)
  finish_registration-IsConsistent refusal existing d now (some devices) (some entities) s h =
      logged-IsConsistent _ now devices entities s.areas s.adapter_health s.flows s h
  finish_registration-IsConsistent refusal existing d now none entities s h = h
  finish_registration-IsConsistent refusal existing d now (some devices) none s h = h

  pub register_discovery-IsConsistent :
      (refusal new_device_id : String) (new_entity_id : ℕ → String) (discovery : DeviceDiscovery)
      (now : ℕ) (s : Store F J)
      → IsConsistent s
      → IsConsistent ((register_discovery refusal new_device_id new_entity_id discovery now s).1)
  unfolding register_discovery
  register_discovery-IsConsistent refusal new_device_id new_entity_id discovery now s h =
      let existing = find_row (is_at discovery.adapter_id discovery.protocol_address) s.devices in
      let id = id_or new_device_id existing in
      let persisted =
        persisted_entities new_entity_id 0 (where_rows (λ row. row.device_id == id) s.entities)
          discovery.entities in
      let d = registered_device id new_entity_id discovery s in
      finish_registration-IsConsistent refusal existing d now (put_device d s.devices)
        (put_entities id persisted s.entities) s h

  set_status_row-IsConsistent :
      (status : DeviceStatus) (now : ℕ) (d : Device) (s : Store F J)
      → IsConsistent s
      → IsConsistent ((set_status_row status now d s).1)
  unfolding set_status_row
  set_status_row-IsConsistent status now d s h = elim (Bool-cases (same_status d.status status)) [
    | inl e ↦ rw e h
    | inr e ↦ rw e (logged-IsConsistent _ now _ s.entities s.areas s.adapter_health s.flows s h)
  ]

  set_status_rows-IsConsistent :
      (status : DeviceStatus) (now : ℕ) (rows : List Device) (s : Store F J)
      → IsConsistent s
      → IsConsistent ((set_status_rows status now rows s).1)
  unfolding set_status_rows
  set_status_rows-IsConsistent status now [] s h = h
  set_status_rows-IsConsistent status now (d ∷ rows) s h =
      set_status_rows-IsConsistent status now rows ((set_status_row status now d s).1)
        (set_status_row-IsConsistent status now d s h)

  pub set_adapter_devices_status-IsConsistent :
      (adapter_id : String) (status : DeviceStatus) (now : ℕ) (s : Store F J)
      → IsConsistent s
      → IsConsistent ((set_adapter_devices_status adapter_id status now s).1)
  unfolding set_adapter_devices_status
  set_adapter_devices_status-IsConsistent adapter_id status now s h =
      elim (Bool-cases (same_status status DeviceStatus.removed)) [
        | inl e ↦ rw e h
        | inr e ↦ rw e (set_status_rows-IsConsistent status now _ s h)
      ]

  change_device-IsConsistent :
      (change : Device → Device) (content : Device → EventData F J) (now : ℕ) (o : Option Device)
      (s : Store F J)
      → IsConsistent s
      → IsConsistent ((change_device change content now o s).1)
  change_device-IsConsistent change content now none s h = h
  change_device-IsConsistent change content now (some d) s h =
      logged-IsConsistent _ now _ s.entities s.areas s.adapter_health s.flows s h

  pub rename_device-IsConsistent :
      (id name : String) (now : ℕ) (s : Store F J)
      → IsConsistent s
      → IsConsistent ((rename_device id name now s).1)
  unfolding rename_device
  rename_device-IsConsistent id name now s h =
      change_device-IsConsistent (λ d. record d { name = name }) device_updated now
        (find_row (is_device id) s.devices) s h

  pub remove_device-IsConsistent :
      (id : String) (now : ℕ) (s : Store F J)
      → IsConsistent s
      → IsConsistent ((remove_device id now s).1)
  unfolding remove_device
  remove_device-IsConsistent id now s h =
      change_device-IsConsistent (λ d. record d { status = DeviceStatus.removed }) device_removed
        now (find_row (is_device id) s.devices) s h

  pub upsert_adapter_health-IsConsistent :
      (health : AdapterHealth) (s : Store F J)
      → IsConsistent s
      → IsConsistent ((upsert_adapter_health health s).1)
  unfolding upsert_adapter_health
  upsert_adapter_health-IsConsistent health s h =
      logged-IsConsistent _ health.observed_at s.devices s.entities s.areas _ s.flows s h

  write_member-IsConsistent :
      (row_id device_id : String) (entity : Entity) (content : Device → EventData F J) (now : ℕ)
      (d : Result ApplicationError Device) (s : Store F J)
      → IsConsistent s
      → IsConsistent ((write_member row_id device_id entity content now d s).1)
  write_member-IsConsistent row_id device_id entity content now (err e) s h = h
  write_member-IsConsistent row_id device_id entity content now (ok d) s h =
      logged-IsConsistent _ now _ _ s.areas s.adapter_health s.flows s h

  rename_row-IsConsistent :
      (refusal name : String) (now : ℕ) (o : Option EntityRow) (s : Store F J)
      → IsConsistent s
      → IsConsistent ((rename_row refusal name now o s).1)
  rename_row-IsConsistent refusal name now none s h = h
  rename_row-IsConsistent refusal name now (some row) s h =
      write_member-IsConsistent row.id row.device_id (record row.payload { name = name })
        device_updated now
        (member_device refusal (record row.payload { name = name })
          (find_row (is_device row.device_id) s.devices))
        s h

  pub rename_entity-IsConsistent :
      (refusal id name : String) (now : ℕ) (s : Store F J)
      → IsConsistent s
      → IsConsistent ((rename_entity refusal id name now s).1)
  unfolding rename_entity
  rename_entity-IsConsistent refusal id name now s h =
      rename_row-IsConsistent refusal name now (find_row (is_entity id) s.entities) s h

  assign_row-IsConsistent :
      (refusal : String) (area_id : Option String) (now : ℕ) (o : Option EntityRow) (s : Store F J)
      → IsConsistent s
      → IsConsistent ((assign_row refusal area_id now o s).1)
  assign_row-IsConsistent refusal area_id now none s h = h
  assign_row-IsConsistent refusal area_id now (some row) s h =
      let entity = record row.payload { area_id = area_id } in
      write_member-IsConsistent entity.id row.device_id entity (λ _. entity_area_assigned entity)
        now (member_device refusal entity (find_row (is_device row.device_id) s.devices)) s h

  pub assign_entity_area-IsConsistent :
      (refusal id : String) (area_id : Option String) (now : ℕ) (s : Store F J)
      → IsConsistent s
      → IsConsistent ((assign_entity_area refusal id area_id now s).1)
  unfolding assign_entity_area
  assign_entity_area-IsConsistent refusal id area_id now s h =
      elim (Bool-cases (lacks_area area_id s.areas)) [
        | inl e ↦ rw e h
        | inr e ↦
            rw e
              (assign_row-IsConsistent refusal area_id now (find_row (is_entity id) s.entities) s h)
      ]

  insert_area-IsConsistent :
      (area : Area) (now : ℕ) (s : Store F J)
      → IsConsistent s
      → IsConsistent ((insert_area area now s).1)
  insert_area-IsConsistent area now s h =
      logged-IsConsistent _ now s.devices s.entities _ s.adapter_health s.flows s h

  pub create_area-IsConsistent :
      (refusal : String) (area : Area) (now : ℕ) (s : Store F J)
      → IsConsistent s
      → IsConsistent ((create_area refusal area now s).1)
  unfolding create_area
  create_area-IsConsistent refusal area now s h = elim (Bool-cases (is_taken area s.areas)) [
    | inl e ↦ rw e h
    | inr e ↦ rw e (insert_area-IsConsistent area now s h)
  ]

  assign_records-IsConsistent :
      (area_id : String) (now : ℕ) (records : List AreaRecord) (s : Store F J)
      → IsConsistent s
      → IsConsistent ((assign_records area_id now records s).1)
  unfolding assign_records
  assign_records-IsConsistent area_id now [] s h = h
  assign_records-IsConsistent area_id now (r ∷ records) s h =
      assign_records-IsConsistent area_id now records _
        (logged-IsConsistent _ now _ _ s.areas s.adapter_health s.flows s h)

  create_with_records-IsConsistent :
      (refusal : String) (area : Area) (now : ℕ)
      (records : Result ApplicationError (List AreaRecord)) (s : Store F J)
      → IsConsistent s
      → IsConsistent ((create_with_records refusal area now records s).1)
  create_with_records-IsConsistent refusal area now (err e) s h = h
  create_with_records-IsConsistent refusal area now (ok records) s h =
      elim (Bool-cases (is_taken area s.areas)) [
        | inl e ↦ rw e h
        | inr e ↦ rw e (
            assign_records-IsConsistent area.id now records _
              (insert_area-IsConsistent area now s h))
      ]

  pub create_area_with_entities-IsConsistent :
      (refusal : String) (area : Area) (ids : List String) (now : ℕ) (s : Store F J)
      → IsConsistent s
      → IsConsistent ((create_area_with_entities refusal area ids now s).1)
  unfolding create_area_with_entities
  create_area_with_entities-IsConsistent refusal area ids now s h =
      create_with_records-IsConsistent refusal area now (read_records refusal ids s) s h
