-- ===== src/Flow/Syntax/Atom.antt =====
-- crates/robine-flow-syntax/src/lib.rs: `atom` and `parse_number`, the meaning of a bare word.
use robine.Prelude.{
  String, Char, Bool, true, false, Option, none, some, List, [], ◌∷◌, ◌==◌, ◌&&◌, ◌||◌, is,
  if◌then◌else◌, chars, of_chars,
}
use robine.Flow.Ast.{Form, symbol, keyword, bool, nil, number}
use robine.Flow.Syntax.Token.{is_ascii_digit}

-- a character that belongs to the number: the negation of the test of `unit_start`
unfoldable pub in_number : Char → Bool
in_number c = is_ascii_digit c || is c b'.' || is c b'-'

-- `value.split_at(unit_start)`
unfoldable pub split_number : List Char → List Char × List Char
split_number [] = ([], [])
split_number (c ∷ s) =
    let (l, u) = split_number s in if in_number c then (c ∷ l, u) else ([], c ∷ s)

-- The digits at the front: whether there is one, and what follows them.
unfoldable pub skip_digits : List Char → Bool × List Char
skip_digits [] = (false, [])
skip_digits (c ∷ s) =
    let (_, rest) = skip_digits s in if is_ascii_digit c then (true, rest) else (false, c ∷ s)

abbrev is_empty : List Char → Bool
is_empty [] = true
is_empty (_ ∷ _) = false

-- behind the integer digits: an optional point and digits, at least one digit in all, and the end
abbrev is_fraction : Bool × List Char → Bool
is_fraction (digits, []) = digits
is_fraction (digits, c ∷ s) =
    let (more, rest) = skip_digits s in is c b'.' && (digits || more) && is_empty rest

-- `str::parse::<f64>().is_ok()`, for texts of digits, points and minus signs
unfoldable pub is_float : List Char → Bool
is_float [] = false
is_float (c ∷ s) =
    if is c b'-' then is_fraction (skip_digits s) else is_fraction (skip_digits (c ∷ s))

-- `(!unit.is_empty()).then_some(unit)`
abbrev unit_of : List Char → Option String
unit_of [] = none
unit_of (c ∷ s) = some (of_chars (c ∷ s))

-- An empty text and a lone minus sign are no floats either.
unfoldable pub parse_number : List Char → Option Form
parse_number s =
    let (literal, unit) = split_number s in
    if is_float literal then some (number (of_chars literal) (unit_of unit)) else none

-- `value.starts_with(':') && value.len() > 1`, and then `value[1..]`
unfoldable pub keyword_name : List Char → Option (List Char)
keyword_name (c ∷ d ∷ s) = if is c b':' then some (d ∷ s) else none
keyword_name _ = none

abbrev number_or_symbol : String → Option Form → Form
number_or_symbol value none = symbol value
number_or_symbol value (some f) = f

abbrev keyword_or : String → Option (List Char) → Form
keyword_or value (some name) = keyword (of_chars name)
keyword_or value none = number_or_symbol value (parse_number (chars value))

unfoldable pub atom : String → Form
atom value =
    if value == "true"
    then bool true
    else if value == "false"
    then bool false
    else if value == "nil"
    then nil
    else keyword_or value (keyword_name (chars value))
