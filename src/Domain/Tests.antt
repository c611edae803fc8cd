-- ===== src/Domain/Tests.antt =====
-- The validation of discoveries at concrete devices.
use robine.Prelude.{◌≡◌, ◌↔◌, refl, false, ok, err, [], ◌∷◌, chars}
use robine.Flow.Syntax.Token.{is_whitespace}
use robine.Domain.Discovery.{
  DeviceDiscovery, Capability, duplicate_capability, is_blank, contains, inserts, check_entities,
  validate, AreDistinct, new_capability, invalid_capability, supports, new_adapter_id,
  invalid_adapter_id,
}
use robine.Domain.Discovery.Distinct.{validate-AreDistinct}

abbrev dimming : Capability
dimming = record { key = "light.brightness"; version = 1 }

abbrev switching : Capability
switching = record { key = "switch"; version = 1 }

abbrev lamp : DeviceDiscovery
lamp = record {
  adapter_id = "hue";
  protocol_address = "00:17";
  name = "Lamp";
  entities =
      record {
        protocol_address = "1";
        name = "Lamp";
        kind = "light";
        capabilities = switching ∷ dimming ∷ [];
      }
      ∷ [];
}

abbrev twice : DeviceDiscovery
twice = record {
  adapter_id = "hue";
  protocol_address = "00:17";
  name = "Lamp";
  entities =
      record {
        protocol_address = "1";
        name = "Lamp";
        kind = "light";
        capabilities = switching ∷ switching ∷ [];
      }
      ∷ [];
}

running : Unit {0}
unfolding is_whitespace chars is_blank contains inserts check_entities validate new_capability
    supports new_adapter_id
running = tt

validate-lamp : validate lamp ≡ ok tt
unfolding running
validate-lamp = refl

validate-twice : validate twice ≡ err duplicate_capability
unfolding running
validate-twice = refl

new_capability-unversioned : new_capability "switch" 0 ≡ err invalid_capability
unfolding running
new_capability-unversioned = refl

new_adapter_id-blank : new_adapter_id " " ≡ err invalid_adapter_id
unfolding running
new_adapter_id-blank = refl

validate-AreDistinct_example :
    (validate lamp ≡ ok tt) ↔ ((is_blank lamp.protocol_address ≡ false) × AreDistinct lamp.entities)
validate-AreDistinct_example = validate-AreDistinct lamp
