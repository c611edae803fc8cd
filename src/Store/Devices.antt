-- ===== src/Store/Devices.antt =====
-- crates/robine-store-sqlite/src/lib.rs: the tables of devices and entities.
use robine.Prelude.{String, Bool, true, false, Option, none, some, List, ◌==◌}
use robine.Prelude.Tables.{find_row, has_row, where_rows, order_rows}
use robine.Domain.Model.{Device, DeviceStatus, Entity, StateProperty}
use robine.Store.{Store, EntityRow}
use robine.Store.Runs.{text_le}

abbrev pub is_entity : String → EntityRow → Bool
is_entity id row = row.id == id

abbrev pub is_device : String → Device → Bool
is_device id d = d.id == id

abbrev payload_of : Option EntityRow → Option Entity
payload_of none = none
payload_of (some row) = some row.payload

-- the device that the entity's row refers to
abbrev joined : List Device → Option EntityRow → Option Device
joined devices none = none
joined devices (some row) = find_row (is_device row.device_id) devices

abbrev is_available : Option Device → Bool
is_available none = false
is_available (some d) = elim (d.status) [ DeviceStatus.available ↦ true | _ ↦ false ]

module _ {F J : Type 0} where
  unfoldable pub get_entity : String → Store F J → Option Entity
  get_entity id s = payload_of (find_row (is_entity id) s.entities)

  unfoldable pub is_entity_commandable : String → Store F J → Bool
  is_entity_commandable id s = is_available (joined s.devices (find_row (is_entity id) s.entities))

  unfoldable pub get_entity_state : String → Store F J → List (StateProperty F)
  get_entity_state id s =
      order_rows (λ a b. text_le a.key b.key) (where_rows (λ p. p.entity_id == id) s.entity_state)

  -- `REFERENCES entities(id)`
  abbrev pub has_entity : String → Store F J → Bool
  has_entity id s = has_row (is_entity id) s.entities
