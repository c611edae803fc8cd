-- ===== src/Flow/Runtime/Command.antt =====
-- crates/robine-flow-runtime/src/lib.rs: the gateway, and the arm `PlannedAction::Command`.
use robine.Prelude.{
  ℕ, ◌+◌, ◌%◌, String, ◌<>◌, decimal, Bool, true, false, Option, none, some, List, [], ◌∷◌, ◌++◌,
  ◌==◌, ltb, if◌then◌else◌, Result, ok, err,
}
use robine.Domain.{StateValue}
use robine.Flow.Plan.{CommandConfirmation, reported, command_confirmed}
use robine.Flow.Runtime.Trace.{
  TraceStep, command_requested, action_failed, awaiting, RunResult, failed, suspended,
}

-- `trait CommandGateway`, for a gateway whose state is a `G`
pub record Gateway (F G : Type 0) : Type 0 where
  pub request : G → String → String → StateValue F → String → Result String String × G
  pub set_enabled : G → String → Bool → String → Result String (Unit {0}) × G

pub data RuntimeError : Type 0 where
  unsupported_verb command_error : String → RuntimeError
  invalid_retry_action : RuntimeError

-- `match verb.as_str()`
unfoldable pub verb_value : (F : Type 0) → String → Option (StateValue F)
verb_value F verb =
    if verb == "turn-on"
    then some (StateValue.bool true)
    else if verb == "turn-off"
    then some (StateValue.bool false)
    else none

-- `attempt.saturating_add(1)` on a `u8`
abbrev pub next_attempt : ℕ → ℕ
next_attempt n = if ltb n 255 then n + 1 else 255

abbrev pub action_key : String → ℕ → String
action_key run index = "flow:" <> run <> "/" <> decimal index

-- the key of a retried action; `attempt + 1` is on a `u8`, and wraps in a release build
abbrev pub attempt_key : String → ℕ → ℕ → String
attempt_key run index attempt = action_key run index <> ":attempt:" <> decimal ((attempt + 1) % 256)

abbrev pub unwrap_or : Option ℕ → ℕ → ℕ
unwrap_or none d = d
unwrap_or (some n) d = n

-- What one round of the loop does: it goes on, or it returns.
pub data Progress (F G : Type 0) : Type 0 where
  go_on : List (TraceStep F) → G → Progress F G
  stop : RunResult F → G → Progress F G

module _ {F G : Type 0} (gateway : Gateway F G) (run : String) where
  open gateway use {request}

  -- a failed action that is recorded and ends the run
  abbrev pub fail : List (TraceStep F) → String → G → Progress F G
  fail trace reason g = stop (failed (trace ++ action_failed reason ∷ [])) g

  -- the `if let CommandConfirmation::Reported`
  abbrev pub confirm : ℕ → CommandConfirmation → String → List (TraceStep F) → G → Progress F G
  confirm index (reported n) command_id trace g =
      stop
        (suspended
          (record {
            after_milliseconds = some n;
            next_action = index + 1;
            awaiting = some (command_confirmed command_id);
            await_timeout_is_failure = true;
            retry_attempt = none;
          })
          (trace ++ awaiting (command_confirmed command_id) (some n) ∷ []))
        g
  confirm index _ command_id trace g = go_on trace g

  -- after the brightness was requested, or none was planned
  abbrev pub requested :
      ℕ
      → String
      → String
      → CommandConfirmation
      → String
      → List (TraceStep F)
      → Result String String × G
      → Progress F G
  requested index entity verb confirmation command_id trace (err e, g) =
      fail trace "brightness command failed" g
  requested index entity verb confirmation command_id trace (ok _, g) =
      confirm index confirmation command_id (trace ++ command_requested entity verb ∷ []) g

  -- the `if let Some(brightness)`
  abbrev pub brighten : String → Option F → String → G → Result String String × G
  brighten entity none key g = (ok "", g)
  brighten entity (some b) key g =
      request g entity "light.brightness" (StateValue.percentage b) (key <> ":brightness")

  abbrev pub switched :
      ℕ
      → String
      → String
      → Option F
      → CommandConfirmation
      → List (TraceStep F)
      → Result String String × G
      → Progress F G
  switched index entity verb brightness confirmation trace (err e, g) =
      fail trace ("command " <> verb <> " failed") g
  switched index entity verb brightness confirmation trace (ok command_id, g) =
      requested index entity verb confirmation command_id trace
        (brighten entity brightness (action_key run index) g)

  -- the arm `PlannedAction::Command`
  unfoldable pub run_command :
      ℕ
      → String
      → String
      → Option F
      → CommandConfirmation
      → List (TraceStep F)
      → Option (StateValue F)
      → G
      → Progress F G
  run_command index entity verb brightness confirmation trace none g =
      fail trace ("unsupported command verb: " <> verb) g
  run_command index entity verb brightness confirmation trace (some value) g =
      switched index entity verb brightness confirmation trace
        (request g entity "switch" value (action_key run index))
