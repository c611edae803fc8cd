-- ===== src/Store/Consistent.antt =====
-- crates/robine-store-sqlite/src/lib.rs: what holds of the tables after every method.
pub mod Commands
pub mod Tables
pub mod Runs
use robine.Prelude.{ℕ, ◌+◌, ◌≤◌, ◌<◌, ◌≡◌, refl, Option, String, List, [], ◌∷◌, ◌++◌, arith}
use robine.Prelude.Tables.{IsUnique, All}
use robine.Domain.Model.{Command, EventData, EventEnvelope}
use robine.Store.{Store}
use robine.Store.Events.{insert_event}
use robine.Store.Runs.{run_id}
use robine.Store.Runs.Exclusive.{IsExclusive}
use robine.Store.Claims.Once.{IsBounded}
use robine.Store.Commands.Sweeps.{command_id}

-- `idempotency_key TEXT NOT NULL UNIQUE`
abbrev pub idempotency_key : {F : Type 0} → Command F → String
idempotency_key c = c.idempotency_key

module _ {F J : Type 0} where
  -- The sequences of the events increase, from above `low` to at most `last`.
  abbrev pub IsNumbered : ℕ → List (EventEnvelope F J) → ℕ → Type 0
  IsNumbered low [] last = low ≤ last
  IsNumbered low (e ∷ events) last = (low < e.sequence) × IsNumbered e.sequence events last

  pub record IsConsistent (s : Store F J) : Type 0 where
    pub command_ids : IsUnique command_id s.commands
    pub idempotency_keys : IsUnique idempotency_key s.commands
    pub numbered : IsNumbered 0 s.events s.last_sequence
    pub run_ids : IsUnique run_id s.flow_runs
    pub exclusive : IsExclusive s.flow_runs
    pub bounded : IsBounded s.flow_trigger_claims

  -- What does not depend on the table of commands
  pub record IsRest (s : Store F J) : Type 0 where
    pub numbered : IsNumbered 0 s.events s.last_sequence
    pub run_ids : IsUnique run_id s.flow_runs
    pub exclusive : IsExclusive s.flow_runs
    pub bounded : IsBounded s.flow_trigger_claims

  pub IsConsistent-IsRest : (s : Store F J) → IsConsistent s → IsRest s
  IsConsistent-IsRest s h = record {
    numbered = h.numbered;
    run_ids = h.run_ids;
    exclusive = h.exclusive;
    bounded = h.bounded;
  }

  pub with_rest :
      (s : Store F J)
      → IsUnique command_id s.commands
      → IsUnique idempotency_key s.commands
      → IsRest s
      → IsConsistent s
  with_rest s ids keys h = record {
    command_ids = ids;
    idempotency_keys = keys;
    numbered = h.numbered;
    run_ids = h.run_ids;
    exclusive = h.exclusive;
    bounded = h.bounded;
  }

  IsNumbered-append :
      (low : ℕ) (events : List (EventEnvelope F J)) (last : ℕ) (e : EventEnvelope F J)
      → e.sequence ≡ last + 1
      → IsNumbered low events last
      → IsNumbered low (events ++ e ∷ []) (last + 1)
  IsNumbered-append low [] last e h k = (omega (arith, h, k), omega (arith, h))
  IsNumbered-append low (x ∷ events) last e h k =
      (k.0, IsNumbered-append x.sequence events last e h k.1)

  pub insert_event-IsRest :
      (content : EventData F J) (now : ℕ) (correlation_id : Option String) (s : Store F J)
      → IsRest s
      → IsRest ((insert_event content now correlation_id s).1)
  unfolding insert_event
  insert_event-IsRest content now correlation_id s h = record {
    numbered = IsNumbered-append 0 s.events s.last_sequence _ refl h.numbered;
    run_ids = h.run_ids;
    exclusive = h.exclusive;
    bounded = h.bounded;
  }
