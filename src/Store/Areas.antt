-- ===== src/Store/Areas.antt =====
-- crates/robine-store-sqlite/src/lib.rs: areas, and the names and areas of entities. The identifier that
-- `AreaId::new` gives is an argument.
use robine.Prelude.{
  ℕ, ◌+◌, String, Char, chars, code, Bool, true, false, Option, none, some, List, [], ◌∷◌, ◌++◌,
  ◌==◌, ◌&&◌, ◌||◌, not, leb, eqb, if◌then◌else◌, Result, ok, err,
}
use robine.Prelude.Tables.{find_row, has_row, update_rows}
use robine.Domain.Model.{
  Area, Device, Entity, EventData, EventEnvelope, device_updated, area_created,
  entity_area_assigned,
}
use robine.Application.Errors.{ApplicationError}
use robine.Store.{Store, EntityRow, Method}
use robine.Store.Devices.{is_entity, is_device}
use robine.Store.Events.{insert_event}

-- `COLLATE NOCASE`, which folds the letters of ASCII
abbrev folded : Char → ℕ
folded c = if leb 65 (code c) && leb (code c) 90 then code c + 32 else code c

abbrev same_folded : List Char → List Char → Bool
same_folded [] [] = true
same_folded (c ∷ s) (d ∷ t) = eqb (folded c) (folded d) && same_folded s t
same_folded _ _ = false

unfoldable pub same_name : String → String → Bool
same_name a b = same_folded (chars a) (chars b)

-- the entity in a device's payload with an identifier, which is replaced: the first one
abbrev pub is_member : String → Entity → Bool
is_member id e = e.id == id

abbrev pub replace_first : Entity → List Entity → List Entity
replace_first entity [] = []
replace_first entity (e ∷ rest) =
    let more = replace_first entity rest in
    if is_member entity.id e then entity ∷ rest else e ∷ more

abbrev pub inconsistent : ApplicationError
inconsistent = ApplicationError.infrastructure "device and entity records are inconsistent"

-- what the checks before the writes read of an entity
pub record AreaRecord : Type 0 where
  pub device_id : String
  pub entity : Entity
  pub device : Device

-- the device of a row, if its payload has the entity
abbrev pub member_device : String → Entity → Option Device → Result ApplicationError Device
member_device refusal entity none = err (ApplicationError.infrastructure refusal)
member_device refusal entity (some d) =
    if has_row (is_member entity.id) d.entities then ok d else err inconsistent

abbrev is_area : String → Area → Bool
is_area id area = area.id == id

abbrev pub lacks_area : Option String → List Area → Bool
lacks_area none areas = false
lacks_area (some id) areas = not (has_row (is_area id) areas)

-- `PRIMARY KEY` and `UNIQUE` of the table of areas
abbrev pub is_taken : Area → List Area → Bool
is_taken area areas =
    has_row (is_area area.id) areas || has_row (λ a. same_name a.name area.name) areas

abbrev add_record :
    Result ApplicationError (List AreaRecord)
    → EntityRow
    → Result ApplicationError Device
    → Result ApplicationError (List AreaRecord)
add_record more row (err e) = err e
add_record (err e) row (ok d) = err e
add_record (ok records) row (ok d) =
    ok (record { device_id = row.device_id; entity = row.payload; device = d } ∷ records)

module _ {F J : Type 0} where
  -- `UPDATE entities SET payload WHERE id`, and `UPDATE devices SET payload WHERE id`
  abbrev pub write_entity : String → String → Entity → Device → Store F J → Store F J
  write_entity row_id device_id entity d s = record s {
    entities = update_rows (is_entity row_id) (λ row. record row { payload = entity }) s.entities;
    devices =
        update_rows (is_device device_id)
          (λ _. record d { entities = replace_first entity d.entities }) s.devices;
  }

  -- what follows the look at the device's payload, with the event's content
  abbrev pub write_member :
      String
      → String
      → Entity
      → (Device → EventData F J)
      → ℕ
      → Result ApplicationError Device
      → Method F J (Entity × EventEnvelope F J)
  write_member row_id device_id entity content now (err e) s = (err e, s)
  write_member row_id device_id entity content now (ok d) s =
      let (event, s') =
        insert_event (content (record d { entities = replace_first entity d.entities })) now none
          (write_entity row_id device_id entity d s) in
      (ok (entity, event), s')

  abbrev pub rename_row :
      String → String → ℕ → Option EntityRow → Method F J (Entity × EventEnvelope F J)
  rename_row refusal name now none s = (err ApplicationError.entity_not_found, s)
  rename_row refusal name now (some row) s =
      let entity = record row.payload { name = name } in
      write_member row.id row.device_id entity device_updated now
        (member_device refusal entity (find_row (is_device row.device_id) s.devices)) s

  unfoldable pub rename_entity :
      String → String → String → ℕ → Method F J (Entity × EventEnvelope F J)
  unfolding insert_event
  rename_entity refusal id name now s =
      rename_row refusal name now (find_row (is_entity id) s.entities) s

  abbrev pub assign_row :
      String → Option String → ℕ → Option EntityRow → Method F J (Entity × EventEnvelope F J)
  assign_row refusal area_id now none s = (err ApplicationError.entity_not_found, s)
  assign_row refusal area_id now (some row) s =
      let entity = record row.payload { area_id = area_id } in
      write_member entity.id row.device_id entity (λ _. entity_area_assigned entity) now
        (member_device refusal entity (find_row (is_device row.device_id) s.devices)) s

  unfoldable pub assign_entity_area :
      String → String → Option String → ℕ → Method F J (Entity × EventEnvelope F J)
  unfolding insert_event
  assign_entity_area refusal id area_id now s =
      if lacks_area area_id s.areas
      then (err (ApplicationError.validation "area does not exist"), s)
      else assign_row refusal area_id now (find_row (is_entity id) s.entities) s

  -- `INSERT INTO areas`, with its event
  abbrev pub insert_area : Area → ℕ → Store F J → EventEnvelope F J × Store F J
  insert_area area now s =
      insert_event (area_created area) now none (record s { areas = s.areas ++ area ∷ [] })

  unfoldable pub create_area : String → Area → ℕ → Method F J (Area × EventEnvelope F J)
  unfolding insert_event
  create_area refusal area now s =
      if is_taken area s.areas
      then (err (ApplicationError.infrastructure refusal), s)
      else (let (event, s') = insert_area area now s in (ok (area, event), s'))

  abbrev read_record :
      String
      → Result ApplicationError (List AreaRecord)
      → Option EntityRow
      → Store F J
      → Result ApplicationError (List AreaRecord)
  read_record refusal more none s = err ApplicationError.entity_not_found
  read_record refusal more (some row) s =
      add_record more row
        (member_device refusal row.payload (find_row (is_device row.device_id) s.devices))

  -- the loop of checks before the first write
  unfoldable pub read_records :
      String → List String → Store F J → Result ApplicationError (List AreaRecord)
  read_records refusal [] s = ok []
  read_records refusal (id ∷ ids) s =
      read_record refusal (read_records refusal ids s) (find_row (is_entity id) s.entities) s

  -- The loop of writes. A device's payload is the one that was read before the first of them.
  unfoldable pub assign_records :
      String → ℕ → List AreaRecord → Store F J → List (EventEnvelope F J) × Store F J
  unfolding insert_event
  assign_records area_id now [] s = ([], s)
  assign_records area_id now (r ∷ records) s =
      let entity = record r.entity { area_id = some area_id } in
      let (event, s') =
        insert_event (entity_area_assigned entity) now none
          (write_entity entity.id r.device_id entity r.device s) in
      let (more, s'') = assign_records area_id now records s' in (event ∷ more, s'')

  abbrev pub create_with_records :
      String
      → Area
      → ℕ
      → Result ApplicationError (List AreaRecord)
      → Method F J (Area × List (EventEnvelope F J))
  create_with_records refusal area now (err e) s = (err e, s)
  create_with_records refusal area now (ok records) s =
      if is_taken area s.areas
      then (err (ApplicationError.infrastructure refusal), s)
      else (let (event, s') = insert_area area now s in
          let (events, s'') = assign_records area.id now records s' in
          (ok (area, event ∷ events), s''))

  unfoldable pub create_area_with_entities :
      String → Area → List String → ℕ → Method F J (Area × List (EventEnvelope F J))
  unfolding insert_event
  create_area_with_entities refusal area ids now s =
      create_with_records refusal area now (read_records refusal ids s) s
