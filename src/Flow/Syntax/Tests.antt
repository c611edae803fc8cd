-- ===== src/Flow/Syntax/Tests.antt =====
-- Runs of the lexer, the parser and the formatter, and the theorems at concrete sources.
use robine.Prelude.{
  ◌≡◌, ◌≢◌, refl, String, some, [], ◌∷◌, ok, success, failure, out_of_fuel, chars, of_chars,
  decimal, char_from_u32,
}
use robine.Flow.Ast.{
  FlowAst, Form, list, symbol, keyword, number, forms, wrap, new, validate, validate_root,
}
use robine.Flow.Syntax.Token.{
  span_of, syntax_error, class_of, is_whitespace, is_control, ends_atom, is_ascii_digit,
}
use robine.Flow.Syntax.Lexer.{skip_comment, take_atom, read_string, lex_from}
use robine.Flow.Syntax.Lexer.Escape.{escape_of, take_digits, escaped_code}
use robine.Flow.Syntax.Atom.{
  in_number, split_number, skip_digits, is_float, parse_number, keyword_name, atom,
}
use robine.Flow.Syntax.Parser.{form, byte_len, error_message, lex, parse_tokens, parse}
use robine.Flow.Syntax.Format.{format_form, format}
use robine.Flow.Syntax.RoundTrip.Theorem.{parse-total, parse-format}

-- Names all that a run computes with.
running : Unit {0}
unfolding parse lex parse_tokens lex_from chars of_chars class_of is_whitespace skip_comment
    take_atom read_string escape_of take_digits escaped_code char_from_u32 ends_atom form atom
    keyword_name parse_number is_float in_number split_number skip_digits is_ascii_digit byte_len
    new validate validate_root format format_form is_control error_message decimal
running = tt

abbrev source : String
source = "; cosy\n(flow (meta :mode :queue) (on (event)) (do [wait -1.5s] nil))"

abbrev sample : FlowAst
sample = wrap (
    list (
      forms (
        symbol "flow"
        ∷ list (forms (symbol "meta" ∷ keyword "mode" ∷ keyword "queue" ∷ []))
        ∷ list (forms (symbol "on" ∷ list (forms (symbol "event" ∷ [])) ∷ []))
        ∷ list (
            forms (
              symbol "do"
              ∷ list (forms (symbol "wait" ∷ number "-1.5" (some "s") ∷ []))
              ∷ Form.nil
              ∷ []))
        ∷ [])))

parse-sample : parse source ≡ success sample
unfolding running
parse-sample = refl

format-sample :
    format sample
    ≡ ok "(flow\n  (meta :mode :queue)\n  (on\n    (event))\n  (do\n    (wait -1.5s)\n    nil))\n"
unfolding running
format-sample = refl

unclosed :
    parse "(flow (on (event :type x))"
    ≡ failure (syntax_error "flow.unclosed_list" "unclosed list" (span_of 0 1))
unfolding running
unclosed = refl

parse-total_example : parse source ≢ out_of_fuel
parse-total_example = parse-total source

parse-format_example : (text : String) × (format sample ≡ ok text) × (parse text ≡ success sample)
parse-format_example = parse-format source sample parse-sample
