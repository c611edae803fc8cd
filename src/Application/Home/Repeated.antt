-- ===== src/Application/Home/Repeated.antt =====
-- crates/robine-application/src/lib.rs: a request that is sent again with the same idempotency key.
use robine.Prelude.{◌≡◌, refl, sym, subst, ◌∙◌, inl, inr, String, false, some, Bool-cases, ok}
use robine.Domain.Discovery.{is_blank}
use robine.Domain.Model.{Command}
use robine.Store.Commands.{find_command_by_idempotency}
use robine.Application.Home.{Home, Call, CommandRequest, request_command_with_correlation}
use robine.Application.Home.Requests.{
  Keeps, Outcome, request_command-Outcome, request_command-known,
}

module _ {F J : Type 0} (refusal : String) (dispatch : Command F → Call F J (Unit {0})) where
  answered-not_blank :
      (id : String) (r : CommandRequest F) (w : Home F J) (c : Command F) (w' : Home F J)
      → request_command_with_correlation refusal dispatch id r w ≡ (ok c, w')
      → is_blank r.idempotency_key ≡ false
  unfolding request_command_with_correlation
  answered-not_blank id r w c w' e = elim (Bool-cases (is_blank r.idempotency_key)) [
    | inl blank ↦ let clash = (rw blank at e) in cc clash
    | inr filled ↦ filled
  ]

  -- the command that an answer leaves under the key
  answered-known :
      (id key : String) (w w' : Home F J) (c : Command F)
      → Outcome id key w (ok c, w')
      → (known : Command F) × (find_command_by_idempotency key w'.store ≡ some known)
        × (known.id ≡ c.id)
  answered-known id key w w' c (inl (found, same)) =
      (c, subst (λ v. find_command_by_idempotency key v.store ≡ some c) (sym same) found, refl)
  answered-known id key w w' c (inr (_, own, _, (known, found, known_id, _))) =
      (known, found, known_id ∙ sym own)

  -- An adapter that keeps what is stored: after `request_command` has answered with a command, a request
  -- with the same idempotency key, whatever else it asks, is answered with that command's identifier, and
  -- nothing is stored, published or dispatched.
  pub request_command-repeated :
      Keeps dispatch
      → (id : String) (r : CommandRequest F) (w : Home F J) (c : Command F) (w' : Home F J)
      → request_command_with_correlation refusal dispatch id r w ≡ (ok c, w')
      → (id' : String) (r' : CommandRequest F) → r'.idempotency_key ≡ r.idempotency_key
      → (known : Command F) × (known.id ≡ c.id)
        × (request_command_with_correlation refusal dispatch id' r' w' ≡ (ok known, w'))
  request_command-repeated keeps id r w c w' e id' r' same =
      let outcome =
        subst (Outcome id r.idempotency_key w) e
          (request_command-Outcome refusal dispatch keeps id r w) in
      let (known, found, known_id) = answered-known id r.idempotency_key w w' c outcome in
      (
        known,
        known_id,
        request_command-known refusal dispatch id' r' known w'
            (subst (λ k. is_blank k ≡ false) (sym same) (answered-not_blank id r w c w' e))
            (subst (λ k. find_command_by_idempotency k w'.store ≡ some known) (sym same) found),
      )
