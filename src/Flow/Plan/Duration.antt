-- ===== src/Flow/Plan/Duration.antt =====
-- crates/robine-flow-plan/src/lib.rs: `duration_milliseconds` and its bounds.
use robine.Prelude.{
  ℕ, ◌*◌, ◌≤◌, ◌<◌, ◌≡◌, String, Option, none, some, ◌==◌, ◌||◌, not, arith, if◌then◌else◌, Result,
  ok, err, ◌>>=◌, ok_or, bind-eq-ok,
}
use robine.Flow.Float.{F64}
use robine.Flow.Plan.{PlanError, invalid_wait}

abbrev pub max_wait_milliseconds : ℕ
max_wait_milliseconds = 30 * 24 * 60 * 60 * 1000

-- `match unit`
unfoldable pub multiplier : String → Option ℕ
multiplier unit =
    if unit == "ms"
    then some 1
    else if unit == "s"
    then some 1000
    else if unit == "m"
    then some 60000
    else if unit == "h"
    then some 3600000
    else if unit == "d"
    then some 86400000
    else none

module _ {F : Type 0} (f : F64 F) where
  open f use {
    parse_f64, from_nat, times, le_f64, lt_f64, is_finite, is_integral, to_u64, to_u64_le,
    to_u64_pos,
  }

  -- the last test of `duration_milliseconds`, and the conversion
  unfoldable pub whole_milliseconds : F → Result PlanError ℕ
  whole_milliseconds x =
      if not (is_finite x)
        || le_f64 x (from_nat 0)
        || not (is_integral x)
        || lt_f64 (from_nat max_wait_milliseconds) x
      then err invalid_wait
      else ok (to_u64 x)

  unfoldable pub duration_milliseconds : String → String → Result PlanError ℕ
  unfolding multiplier
  duration_milliseconds literal unit = do
    value ← ok_or invalid_wait (parse_f64 literal)
    scale ← ok_or invalid_wait (multiplier unit)
    whole_milliseconds (times value (from_nat scale))

  pub whole_milliseconds_bounds :
      (x : F) {n : ℕ} → whole_milliseconds x ≡ ok n → (0 < n) × (n ≤ max_wait_milliseconds)
  unfolding whole_milliseconds
  whole_milliseconds_bounds x h = ground (arith, to_u64_le x max_wait_milliseconds, to_u64_pos x)

  pub duration_milliseconds_bounds :
      (literal unit : String) {n : ℕ}
      → duration_milliseconds literal unit ≡ ok n
      → (0 < n) × (n ≤ max_wait_milliseconds)
  unfolding duration_milliseconds
  duration_milliseconds_bounds literal unit h =
      let (value, _, scaled) = bind-eq-ok (ok_or invalid_wait (parse_f64 literal)) _ h in
      let (scale, _, last) = bind-eq-ok (ok_or invalid_wait (multiplier unit)) _ scaled in
      whole_milliseconds_bounds (times value (from_nat scale)) last
