-- ===== src/Prelude/Text.antt =====
-- Rust's `str` as its characters: `String` and `List Char` are two views of one text.
use Prim.Native.Nat.{ℕ}
use Prim.Native.Char.{Char, code}
use Prim.Native.String.{String}
use mathlib.Core.Path.{◌≡◌, refl, ap}
use mathlib.Core.Bool.{Bool}
use mathlib.Core.List.{List, [], ◌∷◌}
use robine.Prelude.Tests.{eqb}

-- `str.chars()`
unfoldable pub chars : String → List Char
chars String.[] = []
chars (String.◌∷◌ c s) = c ∷ chars s

-- `chars.collect::<String>()`
unfoldable pub of_chars : List Char → String
of_chars [] = String.[]
of_chars (c ∷ l) = String.◌∷◌ c (of_chars l)

pub chars-of_chars : (l : List Char) → chars (of_chars l) ≡ l
unfolding chars of_chars
chars-of_chars [] = refl
chars-of_chars (c ∷ l) = ap (λ m. c ∷ m) (chars-of_chars l)

pub of_chars-chars : (s : String) → of_chars (chars s) ≡ s
unfolding chars of_chars
of_chars-chars String.[] = refl
of_chars-chars (String.◌∷◌ c s) = ap (λ t. String.◌∷◌ c t) (of_chars-chars s)

-- `c == 'x'`, the literal by its number
abbrev pub is : Char → ℕ → Bool
is c n = eqb (code c) n
