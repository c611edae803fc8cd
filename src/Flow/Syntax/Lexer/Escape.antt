-- ===== src/Flow/Syntax/Lexer/Escape.antt =====
-- crates/robine-flow-syntax/src/lib.rs: the escapes inside a string literal.
use mathlib.Core.Option
use robine.Prelude.{
  ℕ, zero, suc, ◌+◌, ◌-◌, ◌*◌, Char, code, len_utf8, Option, none, some, List, [], ◌∷◌, ◌&&◌, is,
  leb, if◌then◌else◌, char_from_u32,
}

-- The arms of `match escape`.
pub data Escaped : Type 0 where
  plain : Char → Escaped
  unicode invalid : Escaped

unfoldable pub escape_of : Char → Escaped
escape_of e =
    if is e b'"'
    then plain "\""
    else if is e b'\\'
    then plain "\\"
    else if is e b'/'
    then plain "/"
    else if is e b'b'
    then plain "\u{8}"
    else if is e b'f'
    then plain "\u{c}"
    else if is e b'n'
    then plain "\n"
    else if is e b'r'
    then plain "\r"
    else if is e b't'
    then plain "\t"
    else if is e b'u'
    then unicode
    else invalid

-- `for _ in 0..n`: the next `n` characters, if there are as many
unfoldable pub take_digits : ℕ → ℕ → List Char → Option (List Char × ℕ × List Char)
take_digits zero at s = some ([], at, s)
take_digits (suc n) at [] = none
take_digits (suc n) at (c ∷ s) =
    Option.map (λ (v, end, rest). (c ∷ v, end, rest)) (take_digits n (at + len_utf8 c) s)

-- `char::to_digit(16)`
unfoldable pub digit_value : Char → Option ℕ
digit_value c =
    if leb b'0' (code c) && leb (code c) b'9'
    then some (code c - 48)
    else if leb b'a' (code c) && leb (code c) b'f'
    then some (code c - 87)
    else if leb b'A' (code c) && leb (code c) b'F'
    then some (code c - 55)
    else none

unfoldable pub digits_value : ℕ → List Char → Option ℕ
unfolding digit_value Option.bind
digits_value n [] = some n
digits_value n (c ∷ s) = Option.bind (digit_value c) λ d. digits_value (n * 16 + d) s

-- `u32::from_str_radix(hex, 16)` on four characters, which also takes a leading plus sign
unfoldable pub from_str_radix : List Char → Option ℕ
unfolding digits_value
from_str_radix [] = none
from_str_radix (c ∷ []) = digits_value 0 (c ∷ [])
from_str_radix (c ∷ s) = if is c b'+' then digits_value 0 s else digits_value 0 (c ∷ s)

-- `u32::from_str_radix(&hex, 16).ok().and_then(char::from_u32)`
unfoldable pub escaped_code : List Char → Option Char
unfolding from_str_radix Option.bind
escaped_code hex = Option.bind (from_str_radix hex) char_from_u32
