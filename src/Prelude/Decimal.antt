-- ===== src/Prelude/Decimal.antt =====
-- The decimal notation of a number, as Rust's `{}` prints it, and the concatenation of texts.
use Prim.Native.Nat.{ℕ, zero, suc, ◌/◌, ◌%◌}
use Prim.Native.Char.{Char}
use Prim.Native.String.{String, ◌++◌ as concat}
use mathlib.Core.List.{List, [], ◌∷◌, ◌++◌}
use robine.Prelude.Tests.{ltb, if◌then◌else◌}
use robine.Prelude.Text.{chars, of_chars}

infixr 65 ◌<>◌
-- `push_str`
abbrev pub ◌<>◌ : String → String → String
s <> t = concat s t

abbrev digit_in : List Char → ℕ → Char
digit_in [] d = "0"
digit_in (c ∷ s) zero = c
digit_in (c ∷ s) (suc d) = digit_in s d

-- the digit of a number below ten
unfoldable pub digit : ℕ → Char
unfolding chars
digit d = digit_in (chars "0123456789") d

-- The digits of a number that is at most the fuel.
unfoldable pub digits : ℕ → ℕ → List Char
unfolding digit
digits zero n = digit n ∷ []
digits (suc f) n =
    let more = digits f (n / 10) ++ digit (n % 10) ∷ [] in if ltb n 10 then digit n ∷ [] else more

unfoldable pub decimal : ℕ → String
unfolding digits of_chars
decimal n = of_chars (digits n n)
