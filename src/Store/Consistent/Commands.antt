-- ===== src/Store/Consistent/Commands.antt =====
-- crates/robine-store-sqlite/src/lib.rs: the methods that change commands keep the tables consistent.
use robine.Prelude.{
  ◌||◌, ℕ, ◌≡◌, refl, sym, ap, subst, ◌∙◌, String, Bool, true, false, Option, none, some, List, [],
  ◌∷◌, ◌++◌, ◌==◌, ◌||◌, if◌then◌else◌, Bool-cases, inl, inr, eq_iff, map, drop,
}
use robine.Prelude.Tables.{find_row, has_row, take, IsUnique}
use robine.Prelude.Tables.Keys.{IsUnique-snoc, has_row-Absent}
use robine.Prelude.Tables.Sweep.{take-append-drop}
use robine.Prelude.Tables.Same.{keys-IsUnique, keys-map, keys-map_all, update-keys, find_row-middle}
use robine.Flow.Float.{F64}
use robine.Domain.Model.{
  CommandStatus, Command, StateProperty, ReportedState, state_reported, command_requested,
}
use robine.Store.{Store}
use robine.Store.Events.{insert_event}
use robine.Store.Commands.{
  with_status, put_status, transition_event, create_command, transition_row, transition_command,
  expire_row, expire_rows, expire_commands, confirms, confirm_row, confirm_rows, report,
  current_state, put_property, is_newer, lacks_entity, project_state, apply_reported_state,
}
use robine.Store.Commands.Sweeps.{
  command_id, is_stale, expire, expire_commands-take, confirm_pending,
  apply_reported_state-confirm_pending,
}
use robine.Store.Consistent.{
  idempotency_key, IsConsistent, IsRest, IsConsistent-IsRest, with_rest, insert_event-IsRest,
}

pub or-none : (a b : Bool) → (a || b) ≡ false → (a ≡ false) × (b ≡ false)
or-none true b h = cc h
or-none false b h = (refl, h)

module _ {F : Type 0} where
  -- A change of commands that keeps their keys, in a table that ends unchanged
  mapped-IsUnique :
      (key : Command F → String) (f : Command F → Command F)
      → ((c : Command F) → key (f c) ≡ key c)
      → (n : ℕ) (rows : List (Command F)) → IsUnique key rows
      → IsUnique key (map f (take n rows) ++ drop n rows)
  mapped-IsUnique key f keeps n rows h =
      keys-IsUnique key rows _
        (sym (
          keys-map key f keeps (take n rows) (drop n rows)
          ∙ ap (map key) (take-append-drop n rows)))
        h

  expire-key : (before : ℕ) (c : Command F) → idempotency_key (expire before c) ≡ c.idempotency_key
  expire-key before c = elim (Bool-cases (is_stale before c)) [
    | inl e ↦ rw e refl
    | inr e ↦ rw e refl
  ]

  expire-id : (before : ℕ) (c : Command F) → command_id (expire before c) ≡ c.id
  expire-id before c = elim (Bool-cases (is_stale before c)) [
    | inl e ↦ rw e refl
    | inr e ↦ rw e refl
  ]

  confirmed-key :
      (key : Command F → String)
      → ((c : Command F) → key (with_status c CommandStatus.confirmed) ≡ key c)
      → (f : F64 F) (property : StateProperty F) (c : Command F)
      → key (confirm_pending f property c) ≡ key c
  confirmed-key key keeps f property c = elim (Bool-cases (confirms f property c)) [
    | inl e ↦ rw e (keeps c)
    | inr e ↦ rw e refl
  ]

module _ {F J : Type 0} where
  pub create_command-IsConsistent :
      (refusal : String) (c : Command F) (s : Store F J)
      → IsConsistent s
      → IsConsistent ((create_command refusal c s).1)
  unfolding create_command insert_event
  create_command-IsConsistent refusal c s h =
      elim (Bool-cases (
        has_row (λ row. row.id == c.id) s.commands
        || has_row (λ row. row.idempotency_key == c.idempotency_key) s.commands)) [
          | inl e ↦ rw e h
          | inr e ↦
              let (id, key) = or-none _ _ e in
              rw e (
                with_rest _
                  (IsUnique-snoc command_id s.commands c h.command_ids
                    (has_row-Absent command_id c.id s.commands id))
                  (IsUnique-snoc idempotency_key s.commands c h.idempotency_keys
                    (has_row-Absent idempotency_key c.idempotency_key s.commands key))
                  (insert_event-IsRest (command_requested c) c.requested_at (some c.correlation_id)
                    (record s { commands = s.commands ++ c ∷ [] })
                    (record {
                      numbered = h.numbered;
                      run_ids = h.run_ids;
                      exclusive = h.exclusive;
                      bounded = h.bounded;
                    })))
        ]

  status-IsRest :
      (c : Command F) (status : CommandStatus) (s : Store F J)
      → IsRest s
      → IsRest (put_status c status s)
  status-IsRest c status s h = record {
    numbered = h.numbered;
    run_ids = h.run_ids;
    exclusive = h.exclusive;
    bounded = h.bounded;
  }

  transition_row-IsConsistent :
      (refusal id : String) (status : CommandStatus) (reason : Option String) (now : ℕ)
      (s : Store F J) (row : Option (Command F))
      → find_row (λ row. row.id == id) s.commands ≡ row
      → IsConsistent s
      → IsConsistent ((transition_row refusal row status reason now s).1)
  unfolding insert_event
  transition_row-IsConsistent refusal id status reason now s none e h = h
  transition_row-IsConsistent refusal id status reason now s (some c) e h =
      let (_, _, _, same) = find_row-middle (λ row. row.id == id) c s.commands e in
      let found =
        subst (λ k. find_row (λ row. row.id == k) s.commands ≡ some c)
          (sym ((eq_iff c.id id).0 same)) e in
      let ids =
        update-keys command_id command_id s.commands c (with_status c status) h.command_ids found
          refl in
      let keys =
        update-keys command_id idempotency_key s.commands c (with_status c status) h.command_ids
          found refl in
      with_rest _ (keys-IsUnique command_id s.commands _ (sym ids) h.command_ids)
        (keys-IsUnique idempotency_key s.commands _ (sym keys) h.idempotency_keys)
        (insert_event-IsRest (transition_event (with_status c status) status reason) now
          (some c.correlation_id) (put_status c status s)
          (status-IsRest c status s (IsConsistent-IsRest s h)))

  pub transition_command-IsConsistent :
      (refusal id : String) (status : CommandStatus) (reason : Option String) (now : ℕ)
      (s : Store F J)
      → IsConsistent s
      → IsConsistent ((transition_command refusal id status reason now s).1)
  unfolding transition_command
  transition_command-IsConsistent refusal id status reason now s h =
      transition_row-IsConsistent refusal id status reason now s _ refl h

  -- The events of a sweep and its updates leave the rest consistent.
  expire_row-IsRest :
      (before now : ℕ) (c : Command F) (s : Store F J)
      → IsRest s
      → IsRest ((expire_row before now c s).1)
  unfolding expire_row
  expire_row-IsRest before now c s h = elim (Bool-cases (is_stale before c)) [
    | inl e ↦ rw e (
        insert_event-IsRest _ now (some c.correlation_id) (put_status c CommandStatus.expired s)
          (status-IsRest c CommandStatus.expired s h))
    | inr e ↦ rw e h
  ]

  expire_rows-IsRest :
      (before now : ℕ) (rows : List (Command F)) (s : Store F J)
      → IsRest s
      → IsRest ((expire_rows before now rows s).1)
  unfolding expire_rows
  expire_rows-IsRest before now [] s h = h
  expire_rows-IsRest before now (c ∷ rows) s h =
      expire_rows-IsRest before now rows ((expire_row before now c s).1)
        (expire_row-IsRest before now c s h)

  expire_commands-IsRest :
      (before now limit : ℕ) (s : Store F J)
      → IsRest s
      → IsRest ((expire_commands before now limit s).1)
  unfolding expire_commands
  expire_commands-IsRest before now limit s h =
      expire_rows-IsRest before now (take limit s.commands) s h

  pub expire_commands-IsConsistent :
      (before now limit : ℕ) (s : Store F J)
      → IsConsistent s
      → IsConsistent ((expire_commands before now limit s).1)
  expire_commands-IsConsistent before now limit s h =
      let after = sym (expire_commands-take before now limit s h.command_ids) in
      with_rest _
        (subst (IsUnique command_id) after (
          mapped-IsUnique command_id (expire before) (expire-id before) limit s.commands
            h.command_ids))
        (subst (IsUnique idempotency_key) after (
          mapped-IsUnique idempotency_key (expire before) (expire-key before) limit s.commands
            h.idempotency_keys))
        (expire_commands-IsRest before now limit s (IsConsistent-IsRest s h))

module _ {F J : Type 0} (f : F64 F) where
  confirm_row-IsRest :
      (property : StateProperty F) (now : ℕ) (c : Command F) (s : Store F J)
      → IsRest s
      → IsRest ((confirm_row f property now c s).1)
  unfolding confirm_row
  confirm_row-IsRest property now c s h = elim (Bool-cases (confirms f property c)) [
    | inl e ↦ rw e (
        insert_event-IsRest _ now none (put_status c CommandStatus.confirmed s)
          (status-IsRest c CommandStatus.confirmed s h))
    | inr e ↦ rw e h
  ]

  confirm_rows-IsRest :
      (property : StateProperty F) (now : ℕ) (rows : List (Command F)) (s : Store F J)
      → IsRest s
      → IsRest ((confirm_rows f property now rows s).1)
  unfolding confirm_rows
  confirm_rows-IsRest property now [] s h = h
  confirm_rows-IsRest property now (c ∷ rows) s h =
      confirm_rows-IsRest property now rows ((confirm_row f property now c s).1)
        (confirm_row-IsRest property now c s h)

  put_property-IsRest :
      (property : StateProperty F) (s : Store F J)
      → IsRest s
      → IsRest (record s { entity_state = put_property property s.entity_state })
  put_property-IsRest property s h = record {
    numbered = h.numbered;
    run_ids = h.run_ids;
    exclusive = h.exclusive;
    bounded = h.bounded;
  }

  apply_reported_state-IsRest :
      (refusal : String) (state : ReportedState F) (now : ℕ) (s : Store F J)
      → IsRest s
      → IsRest ((apply_reported_state f refusal state now s).1)
  unfolding apply_reported_state
  apply_reported_state-IsRest refusal state now s h =
      let property = report state now (current_state state s) in
      let s' = record s { entity_state = put_property property s.entity_state } in
      elim (Bool-cases (is_newer (current_state state s) state.source_at)) [
        | inl e ↦ rw e h
        | inr e ↦ elim (Bool-cases (lacks_entity state s)) [
          | inl d ↦ rw (e, d) h
          | inr d ↦
              rw (e, d, project_state)
                (confirm_rows-IsRest property now s.commands
                  ((insert_event (state_reported property) now none s').1)
                  (insert_event-IsRest (state_reported property) now none s'
                    (put_property-IsRest property s h)))
        ]
      ]

  pub apply_reported_state-IsConsistent :
      (refusal : String) (state : ReportedState F) (now : ℕ) (s : Store F J)
      → IsConsistent s
      → IsConsistent ((apply_reported_state f refusal state now s).1)
  apply_reported_state-IsConsistent refusal state now s h =
      let after =
        sym ((apply_reported_state-confirm_pending f refusal state now s h.command_ids).1) in
      with_rest _ (subst (IsUnique command_id) after (kept command_id (λ c. refl) h.command_ids))
        (subst (IsUnique idempotency_key) after
          (kept idempotency_key (λ c. refl) h.idempotency_keys))
        (apply_reported_state-IsRest refusal state now s (IsConsistent-IsRest s h))
    where
      kept :
          (key : Command F → String)
          → ((c : Command F) → key (with_status c CommandStatus.confirmed) ≡ key c)
          → IsUnique key s.commands
          → IsUnique key (
              if is_newer (current_state state s) state.source_at || lacks_entity state s
              then s.commands
              else map (confirm_pending f (report state now (current_state state s))) s.commands)
      kept key keeps h =
          let property = report state now (current_state state s) in
          elim (Bool-cases
            (is_newer (current_state state s) state.source_at || lacks_entity state s)) [
              | inl e ↦ rw e h
              | inr e ↦ rw e (
                  keys-IsUnique key s.commands _
                    (sym (
                      keys-map_all key (confirm_pending f property)
                        (confirmed-key key keeps f property) s.commands))
                    h)
            ]
