-- ===== src/Flow/Syntax/Format.antt =====
-- crates/robine-flow-syntax/src/lib.rs: `format` and `format_form`, the deterministic rendering.
use robine.Prelude.{
  ℕ, zero, suc, ◌+◌, ◌/◌, ◌%◌, String, Char, code, Bool, Option, none, some, List, [], ◌∷◌, ◌++◌,
  is, if◌then◌else◌, chars, of_chars, all, Result, ok, ◌>>◌,
}
use robine.Flow.Ast.{
  Form, Forms, FlowAst, AstError, list, symbol, keyword, string, bool, nil, number, nil_forms,
  cons_forms, items, is_atom, validate,
}
use robine.Flow.Syntax.Token.{is_control}

abbrev nth_or : List Char → ℕ → Char
nth_or [] i = "0"
nth_or (c ∷ s) zero = c
nth_or (c ∷ s) (suc i) = nth_or s i

-- the digit of a number below sixteen
unfoldable pub hex_digit : ℕ → Char
unfolding chars
hex_digit d = nth_or (chars "0123456789abcdef") d

-- `format!("\\u{:04x}", n)`, for a number below 2 ^ 16, as each control character is
unfoldable pub hex_escape : ℕ → List Char
unfolding hex_digit
hex_escape n =
    "\\"
    ∷ "u"
    ∷ hex_digit (n / 4096 % 16)
    ∷ hex_digit (n / 256 % 16)
    ∷ hex_digit (n / 16 % 16)
    ∷ hex_digit (n % 16)
    ∷ []

-- the `match character` of a string
unfoldable pub escape_char : Char → List Char
unfolding hex_escape
escape_char c =
    if is c b'"'
    then "\\" ∷ "\"" ∷ []
    else if is c b'\\'
    then "\\" ∷ "\\" ∷ []
    else if is c b'\n'
    then "\\" ∷ "n" ∷ []
    else if is c b'\r'
    then "\\" ∷ "r" ∷ []
    else if is c b'\t'
    then "\\" ∷ "t" ∷ []
    else if is_control c
    then hex_escape (code c)
    else c ∷ []

unfoldable pub escape_text : List Char → List Char
unfolding escape_char
escape_text [] = []
escape_text (c ∷ s) = escape_char c ++ escape_text s

-- `" ".repeat(n)`
unfoldable pub spaces : ℕ → List Char
spaces zero = []
spaces (suc n) = " " ∷ spaces n

abbrev pub unit_chars : Option String → List Char
unit_chars none = []
unit_chars (some unit) = chars unit

-- what stands before each form of a list but the first
unfoldable pub separator : Bool → ℕ → List Char
unfolding spaces
separator inline indent = if inline then " " ∷ [] else "\n" ∷ spaces (indent + 2)

abbrev pub inner_indent : Bool → ℕ → ℕ
inner_indent inline indent = if inline then indent else indent + 2

unfoldable mutual
  unfolding escape_text separator

  -- `format_form`: what it pushes to the output
  pub format_form : Form → ℕ → List Char
  format_form (list fs) indent = "(" ∷ (format_first fs (all is_atom (items fs)) indent ++ ")" ∷ [])
  format_form (symbol value) indent = chars value
  format_form (keyword value) indent = ":" ∷ chars value
  format_form (string value) indent = "\"" ∷ (escape_text (chars value) ++ "\"" ∷ [])
  format_form (bool value) indent = if value then chars "true" else chars "false"
  format_form nil indent = chars "nil"
  format_form (number literal unit) indent = chars literal ++ unit_chars unit

  -- its loop at the index 0, which pushes no separator
  pub format_first : Forms → Bool → ℕ → List Char
  format_first nil_forms inline indent = []
  format_first (cons_forms f fs) inline indent =
      format_form f (inner_indent inline indent) ++ format_rest fs inline indent

  -- its loop from the index 1 on
  pub format_rest : Forms → Bool → ℕ → List Char
  format_rest nil_forms inline indent = []
  format_rest (cons_forms f fs) inline indent =
      separator inline indent
      ++ (format_form f (inner_indent inline indent) ++ format_rest fs inline indent)

unfoldable pub format : FlowAst → Result AstError String
format ast = do validate ast; ok (of_chars (format_form ast.root 0 ++ "\n" ∷ []))
