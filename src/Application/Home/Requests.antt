-- ===== src/Application/Home/Requests.antt =====
-- crates/robine-application/src/lib.rs: what a request of a command leaves in the table of commands.
use robine.Prelude.{
  ℕ, ◌≡◌, refl, sym, ap, ◌∙◌, ◌⊎◌, inl, inr, String, Bool, true, false, Option, none, some, List,
  [], ◌∷◌, ◌++◌, ◌==◌, ◌||◌, Bool-cases, Result, ok, err, eq_iff,
}
use robine.Prelude.Tables.{find_row, has_row, update_rows}
use robine.Prelude.Tables.Same.{find_row-middle}
use robine.Domain.Discovery.{is_blank}
use robine.Domain.Model.{CommandStatus, Command, EventEnvelope, command_requested}
use robine.Application.Errors.{ApplicationError}
use robine.Store.{Store}
use robine.Store.Events.{insert_event}
use robine.Store.Commands.{
  with_status, find_command_by_idempotency, create_command, transition_command,
}
use robine.Store.Consistent.Commands.{or-none}
use robine.Application.Home.{
  Home, Call, CommandRequest, publish, new_command, error_text, after_dispatch, send_new, send_once,
  request_command_with_correlation,
}

-- Finding rows after the statements
module _ {ℓ} {A : Type ℓ} (p q : A → Bool) where
  pub find_row-update :
      (c d : A) (rows : List A)
      → find_row p rows ≡ some c
      → q c ≡ true
      → p d ≡ true
      → find_row p (update_rows q (λ _. d) rows) ≡ some d
  find_row-update c d [] h e k = cc h
  find_row-update c d (r ∷ rows) h e k = elim (Bool-cases (q r)) [
    | inl t ↦ rw (t, k) refl
    | inr t ↦ elim (Bool-cases (p r)) [
      | inl u ↦ let same : r ≡ c = cc (rw u at h) in let clash = sym t ∙ ap q same ∙ e in cc clash
      | inr u ↦ rw (t, u) (find_row-update c d rows (rw u at h) e k)
    ]
  ]

module _ {ℓ} {A : Type ℓ} (p : A → Bool) where
  pub find_row-append :
      (c : A) (rows : List A)
      → find_row p rows ≡ none
      → p c ≡ true
      → find_row p (rows ++ c ∷ []) ≡ some c
  find_row-append c [] h k = rw k refl
  find_row-append c (r ∷ rows) h k = elim (Bool-cases (p r)) [
    | inl e ↦ let clash = (rw e at h) in cc clash
    | inr e ↦ rw e (find_row-append c rows (rw e at h) k)
  ]

  has_row-find : (rows : List A) → has_row p rows ≡ false → find_row p rows ≡ none
  has_row-find [] h = refl
  has_row-find (r ∷ rows) h = elim (Bool-cases (p r)) [
    | inl e ↦ let clash = (rw e at h) in cc clash
    | inr e ↦ rw e (has_row-find rows (rw e at h))
  ]

module _ {F : Type 0} where
  abbrev by_key : String → Command F → Bool
  by_key key row = row.idempotency_key == key

  abbrev by_id : String → Command F → Bool
  by_id id row = row.id == id

  -- The identifier finds a row with the idempotency key, and the key one with the identifier.
  pub record IsStored (id key : String) (commands : List (Command F)) : Type 0 where
    pub row : Command F
    pub row-found : find_row (by_id id) commands ≡ some row
    pub row-key : row.idempotency_key ≡ key
    pub command : Command F
    pub command-found : find_row (by_key key) commands ≡ some command
    pub command-id : command.id ≡ id

  created-IsStored :
      (c : Command F) (commands : List (Command F))
      → has_row (by_id c.id) commands ≡ false
      → has_row (by_key c.idempotency_key) commands ≡ false
      → IsStored c.id c.idempotency_key (commands ++ c ∷ [])
  created-IsStored c commands id key = record {
    row = c;
    row-found =
        find_row-append (by_id c.id) c commands (has_row-find (by_id c.id) commands id)
          ((eq_iff c.id c.id).1 refl);
    row-key = refl;
    command = c;
    command-found =
        find_row-append (by_key c.idempotency_key) c commands
          (has_row-find (by_key c.idempotency_key) commands key)
          ((eq_iff c.idempotency_key c.idempotency_key).1 refl);
    command-id = refl;
  }

module _ {F J : Type 0} where
  -- What is stored as a command stays stored as it while an adapter dispatches.
  abbrev pub Keeps : (Command F → Call F J (Unit {0})) → Type 0
  Keeps dispatch =
      (c : Command F) (id key : String) (w : Home F J)
      → IsStored id key w.store.commands
      → IsStored id key ((dispatch c w).1.store.commands)

  -- The command with an idempotency key has the identifier and the status.
  abbrev pub HasStatus : String → String → CommandStatus → Home F J → Type 0
  HasStatus key id status w =
      (c : Command F) × (find_command_by_idempotency key w.store ≡ some c)
      × (c.id ≡ id)
      × (c.status ≡ status)

  -- A transition of a stored command succeeds, and the command has the status afterwards.
  transition_command-IsStored :
      (refusal id key : String) (status : CommandStatus) (reason : Option String) (now : ℕ)
      (s : Store F J) (h : IsStored id key s.commands)
      → ((e : EventEnvelope F J) × ((transition_command refusal id status reason now s).0 ≡ ok e))
        × (find_row (by_key key) ((transition_command refusal id status reason now s).1.commands)
            ≡ some (with_status h.row status))
        × (h.row.id ≡ id)
  unfolding transition_command insert_event
  transition_command-IsStored refusal id key status reason now s h =
      let (_, _, _, same) = find_row-middle (by_id id) h.row s.commands h.row-found in
      let ids : (h.command.id == h.row.id) ≡ true =
        (eq_iff h.command.id h.row.id).1 (h.command-id ∙ sym ((eq_iff h.row.id id).0 same)) in
      rw h.row-found (
        (_, refl),
        find_row-update (by_key key) (by_id h.row.id) h.command (with_status h.row status)
            s.commands h.command-found ids ((eq_iff h.row.idempotency_key key).1 h.row-key),
        (eq_iff h.row.id id).0 same,
      )

  -- What a request leads to: the command of an earlier request, which changes nothing, a new command that is
  -- dispatched, an error that changes nothing, or a new command that failed.
  abbrev pub Outcome :
      String → String → Home F J → Result ApplicationError (Command F) × Home F J → Type 0
  Outcome id key w (ok c, w') =
      ((find_command_by_idempotency key w.store ≡ some c) × (w' ≡ w))
      ⊎ ((find_command_by_idempotency key w.store ≡ none)
          × (c.id ≡ id)
          × (c.status ≡ CommandStatus.dispatched)
          × HasStatus key id CommandStatus.dispatched w')
  Outcome id key w (err e, w') =
      (w' ≡ w)
      ⊎ ((find_command_by_idempotency key w.store ≡ none)
          × HasStatus key id CommandStatus.failed w')

  module _ (refusal : String) (dispatch : Command F → Call F J (Unit {0})) where
    after_dispatch-Outcome :
        (c : Command F) (now : ℕ) (sent : Result ApplicationError (Unit {0})) (w w' : Home F J)
        → find_command_by_idempotency c.idempotency_key w.store ≡ none
        → IsStored c.id c.idempotency_key w'.store.commands
        → Outcome c.id c.idempotency_key w (after_dispatch refusal dispatch c now sent w')
    unfolding find_command_by_idempotency
    after_dispatch-Outcome c now (ok _) w w' new h =
        let status = CommandStatus.dispatched in
        let ((_, succeeds), found, same) =
          transition_command-IsStored refusal c.id c.idempotency_key status none now w'.store h in
        rw succeeds (inr (new, refl, refl, (with_status h.row status, found, same, refl)))
    after_dispatch-Outcome c now (err error) w w' new h =
        let status = CommandStatus.failed in
        let ((_, succeeds), found, same) =
          transition_command-IsStored refusal c.id c.idempotency_key status
            (some (error_text error)) now w'.store h in
        rw succeeds (inr (new, (with_status h.row status, found, same, refl)))

    module _ (keeps : Keeps dispatch) where
      send_new-Outcome :
          (id : String) (r : CommandRequest F) (checked : Result ApplicationError (Unit {0}))
          (w : Home F J)
          → find_command_by_idempotency r.idempotency_key w.store ≡ none
          → Outcome id r.idempotency_key w (send_new refusal dispatch id r checked w)
      unfolding create_command insert_event
      send_new-Outcome id r (err e) w new = inl refl
      send_new-Outcome id r (ok _) w new =
          let c : Command F = new_command id r in
          elim (Bool-cases (
            has_row (by_id id) w.store.commands
            || has_row (by_key r.idempotency_key) w.store.commands)) [
              | inl e ↦ rw e (inl refl)
              | inr e ↦
                  let (free_id, free_key) = or-none _ _ e in
                  let made =
                    insert_event (command_requested c) r.now (some r.correlation_id)
                      (record w.store { commands = w.store.commands ++ c ∷ [] }) in
                  let w' : Home F J = publish (made.0 ∷ []) (record w { store = made.1 }) in
                  rw e (
                    after_dispatch-Outcome c r.now ((dispatch c w').0) w ((dispatch c w').1) new (
                      keeps c id r.idempotency_key w'
                        (created-IsStored c w.store.commands free_id free_key)))
            ]

      -- An adapter that keeps what is stored: `request_command` answers with the command of an earlier request
      -- with the same key, or dispatches a new command, or changes nothing, or marks the command as failed.
      pub request_command-Outcome :
          (id : String) (r : CommandRequest F) (w : Home F J)
          → Outcome id r.idempotency_key w
              (request_command_with_correlation refusal dispatch id r w)
      unfolding request_command_with_correlation
      request_command-Outcome id r w = elim (Bool-cases (is_blank r.idempotency_key)) [
        | inl e ↦ rw e (inl refl)
        | inr e ↦ rw e (sent (find_command_by_idempotency r.idempotency_key w.store) refl)
      ]
        where
          sent :
              (found : Option (Command F))
              → find_command_by_idempotency r.idempotency_key w.store ≡ found
              → Outcome id r.idempotency_key w (send_once refusal dispatch id r found w)
          sent none e = send_new-Outcome id r _ w e
          sent (some c) e = inl (e, refl)

    -- A command that the key finds answers every request with the key, and nothing changes.
    pub request_command-known :
        (id : String) (r : CommandRequest F) (c : Command F) (w : Home F J)
        → is_blank r.idempotency_key ≡ false
        → find_command_by_idempotency r.idempotency_key w.store ≡ some c
        → request_command_with_correlation refusal dispatch id r w ≡ (ok c, w)
    unfolding request_command_with_correlation
    request_command-known id r c w e found = rw (e, found) refl
