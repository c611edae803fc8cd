-- ===== src/Flow/Samples.antt =====
-- Concrete instances for the tests of the flow crates: whole numbers in the place of `f64`, a flow, its
-- plan, and a gateway that keeps the keys it was called with and refuses a number of calls.
use robine.Prelude.{
  ◌==◌, ◌||◌, if◌then◌else◌, ℕ, zero, suc, ◌*◌, ◌≤◌, ◌<◌, ◌≡◌, String, true, false, Option, none,
  some, List, [], ◌∷◌, Result, ok, err, ltb, leb, eqb, arith, chars,
}
use robine.Flow.Ast.{FlowAst, Form, list, symbol, keyword, string, number, forms, wrap}
use robine.Flow.Float.{F64}
use robine.Flow.View.{digits_to}
use robine.Flow.Plan.{ExecutionPlan, queue, command, wait, audit, retry, transport}
use robine.Flow.Runtime.{Gateway}
use robine.Flow.Check.{Capabilities}

unfoldable pub number_of : String → Option ℕ
unfolding digits_to chars
number_of s = digits_to 0 (chars s)

pub below : (x n : ℕ) → ltb n x ≡ false → x ≤ n
below x n h = ground arith

pub positive : (x : ℕ) → leb x 0 ≡ false → 0 < x
positive x h = ground arith

abbrev pub whole_numbers : F64 ℕ
whole_numbers = record {
  parse_f64 = number_of;
  from_nat = λ n. n;
  times = λ x y. x * y;
  le_f64 = leb;
  lt_f64 = ltb;
  eq_f64 = eqb;
  close_f64 = eqb;
  is_finite = λ x. true;
  is_integral = λ x. true;
  to_u64 = λ x. x;
  to_u64_le = λ x n small finite h. below x n h;
  to_u64_pos = λ x finite whole h. positive x h;
}

abbrev entity : Form
entity = list (forms (symbol "entity" ∷ string "light/a" ∷ []))

abbrev pub sample : FlowAst
sample = wrap (
    list (
      forms (
        symbol "flow"
        ∷ list (
            forms (
              symbol "meta"
              ∷ keyword "mode"
              ∷ keyword "queue"
              ∷ keyword "max-runs"
              ∷ number "4" none
              ∷ keyword "max-runtime"
              ∷ number "2" (some "h")
              ∷ []))
        ∷ list (forms (symbol "on" ∷ list (forms (symbol "event" ∷ [])) ∷ []))
        ∷ list (
            forms (
              symbol "do"
              ∷ list (
                  forms (
                    symbol "command"
                    ∷ entity
                    ∷ keyword "turn-on"
                    ∷ keyword "brightness"
                    ∷ number "40" (some "%")
                    ∷ []))
              ∷ list (forms (symbol "wait" ∷ number "5" (some "s") ∷ []))
              ∷ list (
                  forms (
                    symbol "retry"
                    ∷ list (forms (symbol "command" ∷ entity ∷ keyword "turn-off" ∷ []))
                    ∷ keyword "times"
                    ∷ number "3" none
                    ∷ keyword "backoff"
                    ∷ number "1" (some "s")
                    ∷ []))
              ∷ list (forms (symbol "audit" ∷ keyword "info" ∷ string "off" ∷ []))
              ∷ []))
        ∷ [])))

abbrev pub sample_plan : ExecutionPlan ℕ
sample_plan = record {
  actions =
      command "light/a" "turn-on" (some 40) transport
      ∷ wait 5000
      ∷ retry (command "light/a" "turn-off" none transport) 3 1000
      ∷ audit "off"
      ∷ [];
  max_runtime_milliseconds = some 7200000;
  concurrency = record { mode = queue; max_runs = 4 };
}

-- The gateway's state: how many calls it still refuses, and the keys so far, the last one first.
abbrev pub Calls : Type 0
Calls = ℕ × List String

abbrev answer {ℓ} : {A : Type ℓ} → A → String → Calls → Result String A × Calls
answer value key (zero, keys) = (ok value, (zero, key ∷ keys))
answer value key (suc n, keys) = (err "busy", (n, key ∷ keys))

abbrev pub recorder : Gateway ℕ Calls
recorder = record {
  request = λ g entity capability value key. answer key key g;
  set_enabled = λ g flow_id enabled key. answer tt key g;
}

-- A catalog with one light that can be dimmed
abbrev pub catalog : String → Option Capabilities
catalog entity_id =
    if entity_id == "light/a"
    then some (λ capability. capability == "switch" || capability == "light.brightness")
    else none

-- A command with a timeout that no confirmation asks for
abbrev pub idle_timeout : FlowAst
idle_timeout = wrap (
    list (
      forms (
        symbol "flow"
        ∷ list (forms (symbol "on" ∷ []))
        ∷ list (
            forms (
              symbol "do"
              ∷ list (
                  forms (
                    symbol "command"
                    ∷ entity
                    ∷ keyword "turn-on"
                    ∷ keyword "timeout"
                    ∷ number "5" (some "s")
                    ∷ []))
              ∷ []))
        ∷ [])))
