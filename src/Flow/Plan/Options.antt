-- ===== src/Flow/Plan/Options.antt =====
-- crates/robine-flow-plan/src/lib.rs: `command_options`, the options behind a command's verb.
pub mod Bounds
use robine.Prelude.{
  ℕ, String, Bool, true, false, Option, none, some, List, [], ◌∷◌, ◌==◌, ◌&&◌, if◌then◌else◌,
  Result, ok, err, ◌>>=◌, ok_or,
}
use robine.Flow.Ast.{Form, keyword, number}
use robine.Flow.Float.{F64}
use robine.Flow.Plan.{
  CommandConfirmation, transport, unconfirmed, reported, PlanError, invalid_command,
  invalid_brightness, invalid_confirmation,
}
use robine.Flow.Plan.Duration.{duration_milliseconds}

-- what the loop keeps
pub record Seen (F : Type 0) : Type 0 where
  pub brightness : Option F
  pub confirmation : Option CommandConfirmation
  pub timeout : Option ℕ

pub record CommandOptions (F : Type 0) : Type 0 where
  pub brightness : Option F
  pub confirmation : CommandConfirmation

abbrev pub is_none {ℓ} : {A : Type ℓ} → Option A → Bool
is_none none = true
is_none (some _) = false

abbrev pub nothing_seen : (F : Type 0) → Seen F
nothing_seen F = record { brightness = none; confirmation = none; timeout = none }

-- `match &items[index + 1]` of `:confirm`
pub confirmation_of : Form → Result PlanError CommandConfirmation
confirmation_of (keyword value) =
    if value == "transport"
    then ok transport
    else if value == "none"
    then ok unconfirmed
    else if value == "reported"
    then ok (reported 0)
    else err invalid_confirmation
confirmation_of _ = err invalid_confirmation

module _ {F : Type 0} (f : F64 F) where
  open f use {parse_f64, from_nat, le_f64}

  -- `.filter(|value| (0.0..=100.0).contains(value))`
  abbrev in_percent : Option F → Option F
  in_percent none = none
  in_percent (some x) = if le_f64 (from_nat 0) x && le_f64 x (from_nat 100) then some x else none

  -- `match &items[index + 1]` of `:brightness`
  unfoldable pub brightness_of : Form → Result PlanError F
  brightness_of (number literal (some unit)) =
      if unit == "%"
      then ok_or invalid_brightness (in_percent (parse_f64 literal))
      else err invalid_brightness
  brightness_of _ = err invalid_brightness

  -- `match &items[index + 1]` of `:timeout`
  unfoldable pub timeout_of : Form → Result PlanError ℕ
  timeout_of (number literal (some unit)) = duration_milliseconds f literal unit
  timeout_of _ = err invalid_confirmation

  -- `match key.as_str()`
  unfoldable pub read_option : Seen F → String → Form → Result PlanError (Seen F)
  unfolding confirmation_of
  read_option s key value =
      if key == "brightness" && is_none s.brightness
      then (do b ← brightness_of value; ok (record s { brightness = some b }))
      else if key == "confirm" && is_none s.confirmation
      then (do c ← confirmation_of value; ok (record s { confirmation = some c }))
      else if key == "timeout" && is_none s.timeout
      then (do t ← timeout_of value; ok (record s { timeout = some t }))
      else err invalid_command

  -- the `while` over the pairs of an option and its value, and the test `index != items.len()`
  unfoldable pub read_options : Seen F → List Form → Result PlanError (Seen F)
  read_options s [] = ok s
  read_options s (keyword key ∷ value ∷ rest) = read_option s key value >>= λ t. read_options t rest
  read_options s _ = err invalid_command

  -- `match confirmation.unwrap_or_default()`
  unfoldable pub settle : Seen F → Option CommandConfirmation → Result PlanError CommandConfirmation
  settle s (some (reported _)) =
      if is_none s.brightness
      then (do t ← ok_or invalid_confirmation s.timeout; ok (reported t))
      else err invalid_confirmation
  settle s (some c) = if is_none s.timeout then ok c else err invalid_confirmation
  settle s none = if is_none s.timeout then ok transport else err invalid_confirmation

  -- `options` are the items from the index 3 on
  unfoldable pub command_options : List Form → Result PlanError (CommandOptions F)
  command_options options = do
    s ← read_options (nothing_seen F) options
    c ← settle s s.confirmation
    ok (record { brightness = s.brightness; confirmation = c })
