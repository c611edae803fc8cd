-- ===== src/Flow/Float.antt =====
-- Rust's `f64`, of which the flow crates use a few operations: an interface.
use robine.Prelude.{ℕ, ◌≡◌, ◌^◌, ◌≤◌, ◌<◌, String, Bool, true, false, Option}

pub record F64 (F : Type 0) : Type 0 where
  -- `str::parse::<f64>().ok()`
  pub parse_f64 : String → Option F
  -- the conversion `as f64`
  pub from_nat : ℕ → F
  pub times : F → F → F
  -- the comparisons, false at NaN
  pub le_f64 : F → F → Bool
  pub lt_f64 : F → F → Bool
  pub eq_f64 : F → F → Bool
  -- `(x - y).abs() < f64::EPSILON`
  pub close_f64 : F → F → Bool
  pub is_finite : F → Bool
  -- `fract() == 0.0`
  pub is_integral : F → Bool
  -- the conversion `as u64`, which truncates towards zero
  pub to_u64 : F → ℕ
  -- The numbers below 2 ^ 53 are floats, and the conversion keeps the order.
  pub to_u64_le :
      (x : F) (n : ℕ)
      → n < 2 ^ 53
      → is_finite x ≡ true
      → lt_f64 (from_nat n) x ≡ false
      → to_u64 x ≤ n
  -- A finite integral float above zero is at least one.
  pub to_u64_pos :
      (x : F)
      → is_finite x ≡ true
      → is_integral x ≡ true
      → le_f64 x (from_nat 0) ≡ false
      → 0 < to_u64 x
