-- ===== src/Domain.antt =====
-- crates/robine-domain/src/lib.rs: the values that a state property or a command may have.
pub mod Discovery
pub mod Model
mod Tests
use robine.Prelude.{String, Bool, ◌==◌, ◌||◌}

pub data StateValue (F : Type 0) : Type 0 where
  bool : Bool → StateValue F
  percentage : F → StateValue F
  text : String → StateValue F

-- `StateValue::is_valid_for`
unfoldable pub is_valid_for : {F : Type 0} → StateValue F → String → Bool
is_valid_for (bool _) key = key == "switch" || key == "sensor.binary" || key == "sensor.occupancy"
is_valid_for (percentage _) key =
    key == "light.brightness" || key == "sensor.humidity" || key == "sensor.battery"
is_valid_for (text _) key =
    key == "light.color_temperature"
    || key == "light.color"
    || key == "sensor.value"
    || key == "sensor.temperature"
    || key == "climate.target-temperature"
