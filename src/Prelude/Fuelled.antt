-- ===== src/Prelude/Fuelled.antt =====
-- The outcome of a routine that runs on fuel: Rust's `Result`, or no answer yet.
use mathlib.Core.Path.{◌≡◌, refl, subst}
use mathlib.Core.Bool.{Bool, true, false}
use robine.Prelude.Tests.{if◌then◌else◌}
use mathlib.Core.Logic.{◌≢◌}
use robine.Prelude.Fallible.{Result, ok, err}

pub data Outcome {ℓ κ} (E : Type ℓ) (A : Type κ) : Type (ℓ ⊔ κ) where
  success : A → Outcome E A
  failure : E → Outcome E A
  out_of_fuel : Outcome E A

module _ {ℓ κ ι} {E : Type ℓ} {A : Type κ} {B : Type ι} where
  abbrev pub and_then : Outcome E A → (A → Outcome E B) → Outcome E B
  and_then (success a) f = f a
  and_then (failure e) f = failure e
  and_then out_of_fuel f = out_of_fuel

abbrev pub from_result {ℓ κ} : {E : Type ℓ} {A : Type κ} → Result E A → Outcome E A
from_result (ok a) = success a
from_result (err e) = failure e

-- The fuel was enough, and `P` holds of the value if there is one.
pub data Ensures {ℓ κ ι} {E : Type ℓ} {A : Type κ} (P : A → Type ι)
    : Outcome E A → Type (ℓ ⊔ κ ⊔ ι) where
  returned : {a : A} → P a → Ensures P (success a)
  refused : {e : E} → Ensures P (failure e)

module _ {ℓ κ ι} {E : Type ℓ} {A : Type κ} {P : A → Type ι} where
  pub Ensures-success : {r : Outcome E A} {a : A} → Ensures P r → r ≡ success a → P a
  Ensures-success (returned h) e = subst P (cc) h
  Ensures-success refused e = cc

  pub Ensures-ne-out_of_fuel : {r : Outcome E A} → Ensures P r → r ≢ out_of_fuel
  Ensures-ne-out_of_fuel (returned h) = cc
  Ensures-ne-out_of_fuel refused = cc

  pub Ensures-if :
      (b : Bool) {x y : Outcome E A}
      → (b ≡ true → Ensures P x)
      → (b ≡ false → Ensures P y)
      → Ensures P (if b then x else y)
  Ensures-if true hx hy = hx refl
  Ensures-if false hx hy = hy refl

module _ {ℓ κ ι ν μ} {E : Type ℓ} {A : Type κ} {B : Type ν} {P : A → Type ι} {Q : B → Type μ} where
  pub Ensures-and_then :
      {r : Outcome E A} {f : A → Outcome E B}
      → Ensures P r
      → ((a : A) → P a → Ensures Q (f a))
      → Ensures Q (and_then r f)
  Ensures-and_then (returned {a} h) k = k a h
  Ensures-and_then refused k = refused
