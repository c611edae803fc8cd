-- ===== src/Domain/Discovery.antt =====
-- crates/robine-domain/src/lib.rs: the identifiers and capabilities that are accepted, and the validation
-- of a discovered device.
pub mod Distinct
use robine.Prelude.{
  ℕ, ◌≡◌, refl, sym, ap, subst, ◌↔◌, ◌⊎◌, inl, inr, String, Bool, true, false, ◌==◌, ◌&&◌, ◌||◌,
  eq_iff, eqb, eqb_iff, List, [], ◌∷◌, if◌then◌else◌, Bool-cases, and-true, Result, ok, err, all,
  chars, if-eq-known,
}
use robine.Flow.Syntax.Token.{is_whitespace}

-- `.trim().is_empty()`
unfoldable pub is_blank : String → Bool
unfolding is_whitespace chars
is_blank s = all is_whitespace (chars s)

pub data DomainError : Type 0 where
  invalid_adapter_id invalid_capability missing_protocol_address duplicate_capability : DomainError
  invalid_state_value : String → DomainError

-- `AdapterId::new`; an identifier is its text.
unfoldable pub new_adapter_id : String → Result DomainError String
new_adapter_id value = if is_blank value then err invalid_adapter_id else ok value

pub record Capability : Type 0 where
  pub key : String
  pub version : ℕ

-- `Capability::new`
unfoldable pub new_capability : String → ℕ → Result DomainError Capability
new_capability key version =
    if is_blank key || eqb version 0
    then err invalid_capability
    else ok (record { key = key; version = version })

-- the search of `Entity::supports`
unfoldable pub supports : List Capability → String → Bool
supports [] key = false
supports (c ∷ rest) key = c.key == key || supports rest key

pub record DiscoveryEntity : Type 0 where
  pub protocol_address : String
  pub name : String
  pub kind : String
  pub capabilities : List Capability

pub record DeviceDiscovery : Type 0 where
  pub adapter_id : String
  pub protocol_address : String
  pub name : String
  pub entities : List DiscoveryEntity

-- The keys of the `HashSet` are pairs of a key and a version.
abbrev pub same_capability : Capability → Capability → Bool
same_capability a b = a.key == b.key && eqb a.version b.version

unfoldable pub contains : List Capability → Capability → Bool
contains [] c = false
contains (k ∷ keys) c = same_capability k c || contains keys c

-- the inner loop: whether every `keys.insert(…)` adds a key
unfoldable pub inserts : List Capability → List Capability → Bool
unfolding contains
inserts keys [] = true
inserts keys (c ∷ rest) =
    let later = inserts (c ∷ keys) rest in if contains keys c then false else later

-- the outer loop
unfoldable pub check_entities : List DiscoveryEntity → Result DomainError (Unit {0})
unfolding inserts
check_entities [] = ok tt
check_entities (entity ∷ rest) =
    let later = check_entities rest in
    if inserts [] entity.capabilities then later else err duplicate_capability

-- `DeviceDiscovery::validate`
unfoldable pub validate : DeviceDiscovery → Result DomainError (Unit {0})
validate d =
    if is_blank d.protocol_address then err missing_protocol_address else check_entities d.entities

abbrev pub Occurs : Capability → List Capability → Type 0
Occurs c [] = ⊥
Occurs c (k ∷ keys) = (k ≡ c) ⊎ Occurs c keys

-- No capability, a key with its version, is there twice.
abbrev pub IsDistinct : List Capability → Type 0
IsDistinct [] = Unit
IsDistinct (c ∷ rest) = (Occurs c rest → ⊥) × IsDistinct rest

abbrev pub AreDistinct : List DiscoveryEntity → Type 0
AreDistinct [] = Unit
AreDistinct (entity ∷ rest) = IsDistinct entity.capabilities × AreDistinct rest

same_capability-eq : (a b : Capability) → same_capability a b ≡ true → a ≡ b
same_capability-eq a b h =
    let (keys, versions) = and-true h in
    let k = (eq_iff a.key b.key).0 keys in
    let v = (eqb_iff a.version b.version).0 versions in cc (k, v)

same_capability_refl : (a : Capability) → same_capability a a ≡ true
same_capability_refl a = rw ((eq_iff a.key a.key).1 refl) ((eqb_iff a.version a.version).1 refl)

pub contains-Occurs :
    (keys : List Capability) (c : Capability) → contains keys c ≡ true → Occurs c keys
unfolding contains
contains-Occurs [] c h = cc h
contains-Occurs (k ∷ keys) c h = elim (Bool-cases (same_capability k c)) [
  | inl e ↦ inl (same_capability-eq k c e)
  | inr e ↦ inr (contains-Occurs keys c (rw e at h))
]

pub Occurs-contains :
    (keys : List Capability) (c : Capability) → Occurs c keys → contains keys c ≡ true
unfolding contains
Occurs-contains (k ∷ keys) c (inl e) =
    let here : same_capability k c ≡ true =
      subst (λ x. same_capability k x ≡ true) e (same_capability_refl k) in
    rw here
Occurs-contains (k ∷ keys) c (inr h) = elim (Bool-cases (same_capability k c)) [
  | inl e ↦ rw e
  | inr e ↦ rw e (Occurs-contains keys c h)
]
Occurs-contains [] c h = absurd h
