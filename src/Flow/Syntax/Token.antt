-- ===== src/Flow/Syntax/Token.antt =====
-- crates/robine-flow-syntax/src/lib.rs: spans, diagnostics, tokens and the classes of characters.
use robine.Prelude.{
  ℕ, String, Char, code, Bool, true, false, List, [], ◌∷◌, ◌||◌, ◌&&◌, eqb, leb, is, if◌then◌else◌,
}

-- Byte offsets into the source.
pub record Span : Type 0 where
  pub start : ℕ
  pub end : ℕ

pub record Diagnostic : Type 0 where
  pub code : String
  pub message : String
  pub span : Span

pub data Delimiter : Type 0 where
  parenthesis bracket : Delimiter

pub data TokenKind : Type 0 where
  open_token close_token : Delimiter → TokenKind
  string_token atom_token : String → TokenKind

pub record Token : Type 0 where
  pub kind : TokenKind
  pub span : Span

-- The comparison that `#[derive(PartialEq)]` gives.
abbrev pub same_delimiter : Delimiter → Delimiter → Bool
same_delimiter parenthesis parenthesis = true
same_delimiter bracket bracket = true
same_delimiter _ _ = false

abbrev pub span_of : ℕ → ℕ → Span
span_of start end = record { start = start; end = end }

-- `Err(vec![syntax_error(code, message, span)])`, or the struct literal itself
abbrev pub syntax_error : String → String → Span → List Diagnostic
syntax_error code message span = record { code = code; message = message; span = span } ∷ []

-- `char::is_whitespace`: the property White_Space
unfoldable pub is_whitespace : Char → Bool
is_whitespace c =
    (leb 9 (code c) && leb (code c) 13)
    || (eqb (code c) 32 || eqb (code c) 0x85 || eqb (code c) 0xa0 || eqb (code c) 0x1680)
    || (leb 0x2000 (code c) && leb (code c) 0x200a)
    || (eqb (code c) 0x2028 || eqb (code c) 0x2029 || eqb (code c) 0x202f || eqb (code c) 0x205f)
    || eqb (code c) 0x3000

-- `char::is_control`: the category Cc
unfoldable pub is_control : Char → Bool
is_control c = leb (code c) 31 || (leb 127 (code c) && leb (code c) 159)

-- `char::is_ascii_digit`
unfoldable pub is_ascii_digit : Char → Bool
is_ascii_digit c = leb b'0' (code c) && leb (code c) b'9'

-- The character before which the loop of an atom breaks.
unfoldable pub ends_atom : Char → Bool
ends_atom c = is_whitespace c || is c b'(' || is c b')' || is c b'[' || is c b']' || is c b';'

-- What the main loop does at a character: its tests, in their order.
pub data Class : Type 0 where
  blank comment quote word : Class
  opening closing : Delimiter → Class

unfoldable pub class_of : Char → Class
class_of c =
    if is_whitespace c
    then blank
    else if is c b';'
    then comment
    else if is c b'('
    then opening parenthesis
    else if is c b')'
    then closing parenthesis
    else if is c b'['
    then opening bracket
    else if is c b']'
    then closing bracket
    else if is c b'"'
    then quote
    else word
