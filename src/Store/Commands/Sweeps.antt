-- ===== src/Store/Commands/Sweeps.antt =====
-- crates/robine-store-sqlite/src/lib.rs: the loops of `expire_commands` and `apply_reported_state` as maps.
use robine.Prelude.{
  true, false, not, ◌||◌, Result, ok, err, ℕ, ◌≡◌, refl, ap, ◌∙◌, String, Bool, none, List, [], ◌∷◌,
  ◌++◌, ◌&&◌, ltb, if◌then◌else◌, Bool-cases, inl, inr, map, drop, append-nil,
}
use robine.Prelude.Tables.{take, IsUnique}
use robine.Prelude.Tables.Sweep.{round, sweep, sweep-take, sweep-all}
use robine.Flow.Float.{F64}
use robine.Domain.Model.{CommandStatus, Command, StateProperty, ReportedState, state_reported}
use robine.Store.{Store}
use robine.Application.Errors.{ApplicationError}
use robine.Store.Events.{insert_event}
use robine.Store.Commands.{
  is_pending, with_status, expire_row, expire_rows, expire_commands, confirms, confirm_row,
  confirm_rows, put_property, report, current_state, is_newer, lacks_entity, apply_reported_state,
}

-- the primary key of the table
abbrev pub command_id : {F : Type 0} → Command F → String
command_id c = c.id

-- a command that is neither confirmed, failed nor expired, and older than the bound
abbrev pub is_stale : {F : Type 0} → ℕ → Command F → Bool
is_stale before c = is_pending c.status && ltb c.requested_at before

abbrev pub expire : {F : Type 0} → ℕ → Command F → Command F
expire before c = if is_stale before c then with_status c CommandStatus.expired else c

module _ {F J : Type 0} (before now : ℕ) where
  expire_row-round :
      (c : Command F) (s : Store F J)
      → (expire_row before now c s).1.commands
        ≡ round command_id (is_stale before) (λ c. with_status c CommandStatus.expired) c s.commands
  unfolding expire_row
  expire_row-round c s = elim (Bool-cases (is_stale before c)) [ inl e ↦ rw e | inr e ↦ rw e ]

  expire_rows-sweep :
      (rows : List (Command F)) (s : Store F J)
      → (expire_rows before now rows s).1.commands
        ≡ sweep command_id
            (is_stale before)
            (λ c. with_status c CommandStatus.expired)
            rows
            s.commands
  unfolding expire_rows
  expire_rows-sweep [] s = refl
  expire_rows-sweep (c ∷ rows) s =
      expire_rows-sweep rows (expire_row before now c s).1
      ∙ ap (sweep command_id (is_stale before) (λ c. with_status c CommandStatus.expired) rows)
          (expire_row-round c s)

  -- If the identifiers in the table of commands are unique, `expire_commands` sets to expired, among the
  -- first rows up to the limit, the commands that are pending and older than the bound, and changes no
  -- other command. The limit counts all rows, also those that are settled.
  pub expire_commands-take :
      (limit : ℕ) (s : Store F J)
      → IsUnique command_id s.commands
      → (expire_commands before now limit s).1.commands
        ≡ map (expire before) (take limit s.commands) ++ drop limit s.commands
  unfolding expire_commands
  expire_commands-take limit s unique =
      expire_rows-sweep (take limit s.commands) s
      ∙ sweep-take command_id (is_stale before) (λ c. with_status c CommandStatus.expired)
          (λ c. refl) limit s.commands unique

abbrev pub confirm_pending : {F : Type 0} → F64 F → StateProperty F → Command F → Command F
confirm_pending f property c =
    if confirms f property c then with_status c CommandStatus.confirmed else c

module _ {F J : Type 0} (f : F64 F) (property : StateProperty F) (now : ℕ) where
  confirm_row-round :
      (c : Command F) (s : Store F J)
      → (confirm_row f property now c s).1.commands
        ≡ round command_id
            (confirms f property)
            (λ c. with_status c CommandStatus.confirmed)
            c
            s.commands
  unfolding confirm_row
  confirm_row-round c s = elim (Bool-cases (confirms f property c)) [ inl e ↦ rw e | inr e ↦ rw e ]

  confirm_rows-sweep :
      (rows : List (Command F)) (s : Store F J)
      → (confirm_rows f property now rows s).1.commands
        ≡ sweep command_id
            (confirms f property)
            (λ c. with_status c CommandStatus.confirmed)
            rows
            s.commands
  unfolding confirm_rows
  confirm_rows-sweep [] s = refl
  confirm_rows-sweep (c ∷ rows) s =
      confirm_rows-sweep rows (confirm_row f property now c s).1
      ∙ ap
          (sweep command_id (confirms f property) (λ c. with_status c CommandStatus.confirmed) rows)
          (confirm_row-round c s)

  confirm_rows-map :
      (s : Store F J)
      → IsUnique command_id s.commands
      → (confirm_rows f property now s.commands s).1.commands
        ≡ map (confirm_pending f property) s.commands
  confirm_rows-map s unique =
      confirm_rows-sweep s.commands s
      ∙ sweep-all command_id (confirms f property) (λ c. with_status c CommandStatus.confirmed)
          (λ c. refl) s.commands unique
      ∙ append-nil (map (confirm_pending f property) s.commands)

abbrev pub is_error : {A : Type 0} → Result ApplicationError A → Bool
is_error (ok _) = false
is_error (err _) = true

module _ {F J : Type 0} (f : F64 F) where
  pub apply_reported_state-confirm_pending :
      (refusal : String) (state : ReportedState F) (now : ℕ) (s : Store F J)
      → IsUnique command_id s.commands
      → (is_error ((apply_reported_state f refusal state now s).0)
          ≡ (not (is_newer (current_state state s) state.source_at) && lacks_entity state s))
        × ((apply_reported_state f refusal state now s).1.commands ≡ (
            if is_newer (current_state state s) state.source_at || lacks_entity state s
            then s.commands
            else map (confirm_pending f (report state now (current_state state s))) s.commands))
  unfolding apply_reported_state insert_event
  apply_reported_state-confirm_pending refusal state now s unique =
      elim (Bool-cases (is_newer (current_state state s) state.source_at)) [
        | inl e ↦ rw e (refl, refl)
        | inr e ↦ elim (Bool-cases (lacks_entity state s)) [
          | inl d ↦ rw (e, d) (refl, refl)
          | inr d ↦
              rw (e, d)
                (
                  refl,
                  confirm_rows-map f (report state now (current_state state s)) now
                      (insert_event (state_reported (report state now (current_state state s))) now
                        none
                        (record s {
                          entity_state =
                              put_property (report state now (current_state state s))
                                s.entity_state;
                        })).1
                      unique,
                )
        ]
      ]
