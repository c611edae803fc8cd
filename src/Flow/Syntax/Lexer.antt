-- ===== src/Flow/Syntax/Lexer.antt =====
-- crates/robine-flow-syntax/src/lib.rs: `lex` and `read_string`. An iterator over the characters is
-- the byte offset of the next character with the characters that are left. Each round of a `while`
-- takes a unit of fuel; the number of characters and one more is enough.
pub mod Escape
pub mod Word
pub mod Total
use robine.Prelude.{
  ℕ, zero, suc, ◌+◌, String, Char, code, len_utf8, Bool, true, false, Option, none, some, List, [],
  ◌∷◌, is, if◌then◌else◌, chars, of_chars, length, Outcome, success, failure, out_of_fuel, and_then,
}
use robine.Flow.Syntax.Token.{
  Span, Diagnostic, Delimiter, TokenKind, open_token, close_token, string_token, atom_token, Token,
  span_of, syntax_error, ends_atom, Class, blank, comment, quote, word, opening, closing, class_of,
}
use Escape.{Escaped, plain, unicode, invalid, escape_of, take_digits, escaped_code}

-- What a loop over the iterator leaves: its value, the next offset and the characters left.
abbrev pub Read {ℓ} : Type ℓ → Type ℓ
Read A = A × ℕ × List Char

abbrev pub Lexed {ℓ} : Type ℓ → Type ℓ
Lexed A = Outcome (List Diagnostic) A

-- the loop of a comment
unfoldable pub skip_comment : ℕ → List Char → ℕ × List Char
skip_comment at [] = (at, [])
skip_comment at (c ∷ s) =
    if is c b'\n' then (at + len_utf8 c, s) else skip_comment (at + len_utf8 c) s

-- the loop of an atom, from its second character on
unfoldable pub take_atom : ℕ → List Char → Read (List Char)
take_atom at [] = ([], at, [])
take_atom at (c ∷ s) =
    let (w, end, rest) = take_atom (at + len_utf8 c) s in
    if ends_atom c then ([], at, c ∷ s) else (c ∷ w, end, rest)

abbrev pub push : Char → Read (List Char) → Lexed (Read (List Char))
push c (v, at, s) = success (c ∷ v, at, s)

abbrev pub unterminated : String → ℕ → ℕ → Lexed (Read (List Char))
unterminated message start total =
    failure (syntax_error "flow.unterminated_string" message (span_of start total))

abbrev pub invalid_escape {ℓ} : {A : Type ℓ} → String → ℕ → ℕ → Lexed A
invalid_escape message start end =
    failure (syntax_error "flow.invalid_escape" message (span_of start end))

-- `.ok_or_else(…)?` on the decoded escape
abbrev pub decoded : ℕ → Option Char → Lexed Char
decoded at none = invalid_escape "invalid unicode escape" at (at + 5)
decoded at (some c) = success c

-- `value.push(code)` for the escape `\uXXXX`, then the loop goes on; `at` is the offset of `u`
abbrev pub read_unicode :
    ℕ
    → ℕ
    → (ℕ → List Char → Lexed (Read (List Char)))
    → Option (Read (List Char))
    → Lexed (Read (List Char))
read_unicode total at go none = invalid_escape "incomplete unicode escape" at total
read_unicode total at go (some (hex, next, rest)) =
    and_then (decoded at (escaped_code hex)) λ c. and_then (go next rest) (push c)

-- `match escape`; `at` is the offset of the character `e` after the backslash
abbrev pub read_escape :
    ℕ
    → ℕ
    → (ℕ → List Char → Lexed (Read (List Char)))
    → Char
    → List Char
    → Escaped
    → Lexed (Read (List Char))
read_escape total at go e s (plain c) = and_then (go (at + len_utf8 e) s) (push c)
read_escape total at go e s unicode = read_unicode total at go (take_digits 4 (at + len_utf8 e) s)
read_escape total at go e s invalid = invalid_escape "invalid string escape" at (at + len_utf8 e)

abbrev pub after_backslash :
    ℕ → ℕ → ℕ → (ℕ → List Char → Lexed (Read (List Char))) → List Char → Lexed (Read (List Char))
after_backslash total start at go [] = unterminated "unterminated string escape" start total
after_backslash total start at go (e ∷ s) = read_escape total at go e s (escape_of e)

-- `read_string`: the value, with the iterator behind the closing quote
unfoldable pub read_string : ℕ → ℕ → ℕ → ℕ → List Char → Lexed (Read (List Char))
read_string zero total start at s = out_of_fuel
read_string (suc f) total start at [] = unterminated "unterminated string" start total
read_string (suc f) total start at (c ∷ s) =
    let go = read_string f total start in
    let escaped : Lexed (Read (List Char)) = after_backslash total start (at + len_utf8 c) go s in
    let more : Lexed (Read (List Char)) = and_then (go (at + len_utf8 c) s) (push c) in
    if is c b'"' then success ([], at + len_utf8 c, s) else if is c b'\\' then escaped else more

abbrev pub token : TokenKind → ℕ → ℕ → Token
token kind start end = record { kind = kind; span = span_of start end }

-- `tokens.push(token)`, and what the later rounds push
abbrev pub emit : Token → Lexed (List Token) → Lexed (List Token)
emit t more = and_then more λ ts. success (t ∷ ts)

-- one round of `lex`, at the offset `at` of the character `c`
abbrev pub lex_class :
    ℕ → ℕ → ℕ → (ℕ → List Char → Lexed (List Token)) → Char → List Char → Class → Lexed (List Token)
lex_class f total at go c s blank = go (at + len_utf8 c) s
lex_class f total at go c s comment =
    let (next, rest) = skip_comment (at + len_utf8 c) s in go next rest
lex_class f total at go c s (opening d) =
    emit (token (open_token d) at (at + 1)) (go (at + len_utf8 c) s)
lex_class f total at go c s (closing d) =
    emit (token (close_token d) at (at + 1)) (go (at + len_utf8 c) s)
lex_class f total at go c s quote =
    and_then (read_string f total at (at + len_utf8 c) s)
      λ (v, end, rest). emit (token (string_token (of_chars v)) at end) (go end rest)
lex_class f total at go c s word =
    let (w, end, rest) = take_atom (at + len_utf8 c) s in
    emit (token (atom_token (of_chars (c ∷ w))) at end) (go end rest)

unfoldable pub lex_from : ℕ → ℕ → ℕ → List Char → Lexed (List Token)
lex_from zero total at s = out_of_fuel
lex_from (suc f) total at [] = success []
lex_from (suc f) total at (c ∷ s) = lex_class (suc f) total at (lex_from f total) c s (class_of c)
