-- ===== src/Prelude/Scalar.antt =====
-- Rust's `char::from_u32`: the character of a number, if there is one.
use Prim.Native.Nat.{ℕ, compare, Ordering}
use Prim.Native.Char.{Char, char, code, IsLt}
use mathlib.Core.Path.{◌≡◌, refl, ap}
use mathlib.Core.Option
use mathlib.Core.Option.{Option, none, some}
use text.Mathlib.TextEquality.{Char-path}

-- The two helpers of `IsScalar`, with the same clauses, so that they unfold to the same terms.
abbrev Both : Ordering → Ordering → Type 0
Both Ordering.lt o = IsLt o
Both Ordering.eq _ = ⊥
Both Ordering.gt _ = ⊥

abbrev Scalar : Ordering → Ordering → Ordering → Type 0
Scalar Ordering.lt _ _ = Unit
Scalar Ordering.eq o p = Both o p
Scalar Ordering.gt o p = Both o p

less? : (o : Ordering) → Option (IsLt o)
less? Ordering.lt = some tt
less? Ordering.eq = none
less? Ordering.gt = none

Both? : (o p : Ordering) → Option (Both o p)
unfolding less?
Both? Ordering.lt p = less? p
Both? Ordering.eq p = none
Both? Ordering.gt p = none

Scalar? : (o p q : Ordering) → Option (Scalar o p q)
unfolding Both?
Scalar? Ordering.lt p q = some tt
Scalar? Ordering.eq p q = Both? p q
Scalar? Ordering.gt p q = Both? p q

unfoldable pub char_from_u32 : ℕ → Option Char
unfolding Scalar?
char_from_u32 n =
    Option.map (char n) (Scalar? (compare n 55296) (compare 57343 n) (compare n 1114112))

less?-some : (o : Ordering) (p : IsLt o) → (q : IsLt o) × (less? o ≡ some q)
unfolding less?
less?-some Ordering.lt p = (tt, refl)
less?-some Ordering.eq p = absurd p
less?-some Ordering.gt p = absurd p

Both?-some : (o p : Ordering) (h : Both o p) → (k : Both o p) × (Both? o p ≡ some k)
unfolding Both?
Both?-some Ordering.lt p h = less?-some p h
Both?-some Ordering.eq p h = absurd h
Both?-some Ordering.gt p h = absurd h

Scalar?-some : (o p q : Ordering) (h : Scalar o p q) → (k : Scalar o p q) × (Scalar? o p q ≡ some k)
unfolding Scalar?
Scalar?-some Ordering.lt p q h = (tt, refl)
Scalar?-some Ordering.eq p q h = Both?-some p q h
Scalar?-some Ordering.gt p q h = Both?-some p q h

pub char_from_u32-code : (c : Char) → char_from_u32 (code c) ≡ some c
unfolding char_from_u32
char_from_u32-code (char n h) =
    let (k, e) = Scalar?-some (compare n 55296) (compare 57343 n) (compare n 1114112) h in
    rw e (ap some (Char-path (char n k) (char n h) refl))
