-- ===== src/Domain/Discovery/Distinct.antt =====
-- crates/robine-domain/src/lib.rs: which discoveries `DeviceDiscovery::validate` accepts.
use robine.Prelude.{
  ◌≡◌, refl, sym, subst, ◌↔◌, inl, inr, true, false, List, [], ◌∷◌, Bool-cases, ok, if-eq-ok,
  if-eq-known,
}
use robine.Domain.Discovery.{
  Capability, DiscoveryEntity, DeviceDiscovery, duplicate_capability, is_blank, contains, inserts,
  check_entities, validate, Occurs, IsDistinct, AreDistinct, contains-Occurs, Occurs-contains,
}

-- Nothing is in both lists.
abbrev Apart : List Capability → List Capability → Type 0
Apart rest keys = (c : Capability) → Occurs c rest → Occurs c keys → ⊥

inserts_sound :
    (keys rest : List Capability) → inserts keys rest ≡ true → IsDistinct rest × Apart rest keys
unfolding inserts
inserts_sound keys [] h = (tt, λ c o k. absurd o)
inserts_sound keys (c ∷ rest) h = elim (if-eq-known (contains keys c) h) [
  | inl (_, e) ↦ cc e
  | inr (new, e) ↦
      let (distinct, apart) = inserts_sound (c ∷ keys) rest e in
      (
        (λ o. apart c o (inl refl), distinct),
        λ d o k. elim o [
          | inl here ↦
              let both = Occurs-contains keys c (subst (λ x. Occurs x keys) (sym here) k) in
              (let clash = (rw new at both) in cc clash)
          | inr later ↦ apart d later (inr k)
        ],
      )
]

inserts_complete :
    (keys rest : List Capability) → IsDistinct rest → Apart rest keys → inserts keys rest ≡ true
unfolding inserts
inserts_complete keys [] distinct apart = refl
inserts_complete keys (c ∷ rest) (new, distinct) apart = elim (Bool-cases (contains keys c)) [
  | inl e ↦ absurd (apart c (inl refl) (contains-Occurs keys c e))
  | inr e ↦ rw e (
      inserts_complete (c ∷ keys) rest distinct (λ d o k. elim k [
        | inl here ↦ new (subst (λ x. Occurs x rest) (sym here) o)
        | inr old ↦ apart d (inr o) old
      ]))
]

check_entities_sound :
    (entities : List DiscoveryEntity) → check_entities entities ≡ ok tt → AreDistinct entities
unfolding check_entities
check_entities_sound [] h = tt
check_entities_sound (entity ∷ rest) h =
    let (e, later) = if-eq-ok (inserts [] entity.capabilities) duplicate_capability h in
    ((inserts_sound [] entity.capabilities e).0, check_entities_sound rest later)

check_entities_complete :
    (entities : List DiscoveryEntity) → AreDistinct entities → check_entities entities ≡ ok tt
unfolding check_entities
check_entities_complete [] h = refl
check_entities_complete (entity ∷ rest) (distinct, more) =
    rw (inserts_complete [] entity.capabilities distinct (λ c o k. k))
      (check_entities_complete rest more)

validate_sound :
    (d : DeviceDiscovery)
    → validate d ≡ ok tt
    → (is_blank d.protocol_address ≡ false) × AreDistinct d.entities
unfolding validate
validate_sound d h = elim (if-eq-known (is_blank d.protocol_address) h) [
  | inl (_, e) ↦ cc e
  | inr (addressed, e) ↦ (addressed, check_entities_sound d.entities e)
]

validate_complete :
    (d : DeviceDiscovery)
    → (is_blank d.protocol_address ≡ false) × AreDistinct d.entities
    → validate d ≡ ok tt
unfolding validate
validate_complete d (addressed, distinct) =
    rw addressed (check_entities_complete d.entities distinct)

-- A discovery is valid exactly if its protocol address is not blank, and no entity of it has one
-- capability, a key with its version, twice.
pub validate-AreDistinct :
    (d : DeviceDiscovery)
    → (validate d ≡ ok tt) ↔ ((is_blank d.protocol_address ≡ false) × AreDistinct d.entities)
validate-AreDistinct d = (validate_sound d, validate_complete d)
