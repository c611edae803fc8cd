-- ===== src/Flow/Syntax/Parser.antt =====
-- crates/robine-flow-syntax/src/lib.rs: `Parser::form` and `parse`. The parser's offset into the
-- tokens is the list of the tokens from there on. The recursion of `form` and its loop take fuel:
-- twice the number of tokens and one more is enough.
use robine.Prelude.{
  ◌≡◌, refl, ℕ, zero, suc, ◌+◌, ◌*◌, String, ◌<>◌, decimal, Char, len_utf8, List, [], ◌∷◌,
  if◌then◌else◌, chars, length, Result, ok, err, Outcome, success, failure, out_of_fuel, and_then,
}
use robine.Flow.Ast.{Form, Forms, FlowAst, AstError, list, string, nil_forms, cons_forms, new}
use robine.Flow.Syntax.Token.{
  Span, Diagnostic, Delimiter, same_delimiter, TokenKind, open_token, close_token, string_token,
  atom_token, Token, span_of, syntax_error,
}
use robine.Flow.Syntax.Lexer.{Lexed, lex_from}
use robine.Flow.Syntax.Atom.{atom}

pub record SpannedForm : Type 0 where
  pub value : Form
  pub span : Span

-- A value, with the tokens from the parser's offset on.
abbrev pub Parsed {ℓ} : Type ℓ → Type ℓ
Parsed A = Outcome (List Diagnostic) (A × List Token)

-- The forms of a list that is closed, and the end of its closing token.
pub record Body : Type 0 where
  pub forms : Forms
  pub end : ℕ

abbrev pub spanned : Form → Span → SpannedForm
spanned value span = record { value = value; span = span }

-- `Form::List(forms)` with its span
abbrev pub closed : Span → Body × List Token → Parsed SpannedForm
closed span (body, rest) = success (spanned (list body.forms) (span_of span.start body.end), rest)

-- `match &token.kind`
abbrev pub form_of :
    (Delimiter → Span → Parsed Body) → Token → List Token → TokenKind → Parsed SpannedForm
form_of loop token rest (close_token _) =
    failure (syntax_error "flow.unexpected_close" "unexpected closing parenthesis" token.span)
form_of loop token rest (string_token value) = success (spanned (string value) token.span, rest)
form_of loop token rest (atom_token value) = success (spanned (atom value) token.span, rest)
form_of loop token rest (open_token delimiter) =
    and_then (loop delimiter token.span) (closed token.span)

abbrev pub push : SpannedForm → Body × List Token → Parsed Body
push f (body, rest) =
    success (record { forms = cons_forms f.value body.forms; end = body.end }, rest)

-- one round of the loop, at the token `next`: `more` parses a form and goes on
abbrev pub list_round : Parsed Body → Delimiter → Token → List Token → TokenKind → Parsed Body
list_round more delimiter next rest (close_token close) =
    if same_delimiter close delimiter
    then success (record { forms = nil_forms; end = next.span.end }, rest)
    else failure (syntax_error "flow.mismatched_delimiter" "mismatched list delimiter" next.span)
list_round more delimiter next rest _ = more

unfoldable mutual
  -- `Parser::form`
  pub form : ℕ → List Token → Parsed SpannedForm
  form zero tokens = out_of_fuel
  form (suc f) [] = failure (syntax_error "flow.unexpected_eof" "expected a form" (span_of 0 0))
  form (suc f) (token ∷ rest) =
      form_of (λ delimiter span. list_body f delimiter span rest) token rest token.kind

  -- its `loop`
  pub list_body : ℕ → Delimiter → Span → List Token → Parsed Body
  list_body zero delimiter span tokens = out_of_fuel
  list_body (suc f) delimiter span [] =
      failure (syntax_error "flow.unclosed_list" "unclosed list" span)
  list_body (suc f) delimiter span (next ∷ rest) =
      let more : Parsed Body =
        and_then (form f (next ∷ rest))
          λ (v, tokens). and_then (list_body f delimiter span tokens) (push v) in
      list_round more delimiter next rest next.kind

pub form-round :
    (f : ℕ) (token : Token) (rest : List Token)
    → form (suc f) (token ∷ rest)
      ≡ form_of (λ delimiter span. list_body f delimiter span rest) token rest token.kind
unfolding form
form-round f token rest = refl

-- the loop at a token, with the rest of the loop
abbrev pub go_on : ℕ → Delimiter → Span → Parsed SpannedForm → Parsed Body
go_on f delimiter span read =
    and_then read λ (v, tokens). and_then (list_body f delimiter span tokens) (push v)

pub list_body-round :
    (f : ℕ) (delimiter : Delimiter) (span : Span) (next : Token) (rest : List Token)
    → list_body (suc f) delimiter span (next ∷ rest)
      ≡ list_round (go_on f delimiter span (form f (next ∷ rest))) delimiter next rest next.kind
unfolding list_body
list_body-round f delimiter span next rest = refl

-- the messages of `AstError`
unfoldable pub error_message : AstError → String
error_message (AstError.unknown_dsl dsl) = "unknown DSL " <> dsl
error_message (AstError.unsupported_version v) = "unsupported DSL version " <> decimal v
error_message AstError.root_must_be_list = "flow root must be a list"
error_message AstError.root_must_start_with_flow = "flow root must start with the symbol flow"
error_message AstError.root_section_must_be_list = "flow root section must be a list"
error_message AstError.root_section_name_missing = "flow root section has no symbol name"
error_message (AstError.unknown_root_section name) = "unknown flow root section " <> name
error_message (AstError.root_section_order name) =
    "flow root section " <> name <> " is out of order or repeated"
error_message AstError.trigger_missing = "flow trigger on is required"
error_message AstError.body_missing = "flow body do is required"

-- `FlowAst::new(root.value).map_err(…)`
abbrev pub checked : Span → Result AstError FlowAst → Lexed FlowAst
checked span (ok ast) = success ast
checked span (err e) = failure (syntax_error "flow.root" (error_message e) span)

-- the test for a second root form, then `FlowAst::new`
abbrev pub whole : SpannedForm × List Token → Lexed FlowAst
whole (root, []) = checked root.span (new root.value)
whole (root, token ∷ _) =
    failure (
      syntax_error "flow.trailing_form" "a Flow document contains exactly one root form" token.span)

unfoldable pub parse_tokens : List Token → Lexed FlowAst
unfolding error_message
parse_tokens tokens = and_then (form (2 * length tokens + 1) tokens) whole

unfoldable pub byte_len : List Char → ℕ
byte_len [] = 0
byte_len (c ∷ s) = len_utf8 c + byte_len s

-- `lex`
unfoldable pub lex : List Char → Lexed (List Token)
unfolding byte_len
lex s = lex_from (length s + 1) (byte_len s) 0 s

unfoldable pub parse : String → Lexed FlowAst
parse source = and_then (lex (chars source)) parse_tokens
