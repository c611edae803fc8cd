-- ===== src/Flow/Syntax/RoundTrip/Theorem.antt =====
-- crates/robine-flow-syntax/src/lib.rs: `parse` always answers, and `format` is undone by it.
use robine.Prelude.{
  ◌+◌, ◌≡◌, ◌≢◌, refl, sym, ap, ◌∙◌, subst, String, List, [], ◌∷◌, ◌++◌, chars, of_chars,
  chars-of_chars, arith, length, Result, ok, err, success, out_of_fuel, Ensures, returned, refused,
  Ensures-and_then, Ensures-success, Ensures-ne-out_of_fuel,
}
use robine.Flow.Ast.{
  Form, FlowAst, AstError, wrap, new, validate_root, validate-wrap, new-ok, new_of_validate_root,
}
use robine.Flow.Syntax.Token.{Token, Span}
use robine.Flow.Syntax.Lexer.Total.{lex_from-total}
use robine.Flow.Syntax.Parser.{SpannedForm, checked, whole, parse_tokens, byte_len, lex, parse}
use robine.Flow.Syntax.Format.{format_form, format}
use robine.Flow.Syntax.RoundTrip.Printable.{IsPrintable}
use robine.Flow.Syntax.RoundTrip.Formatted.{Lexes-formatted}
use robine.Flow.Syntax.RoundTrip.Parses.{form-tokens}
use robine.Flow.Syntax.RoundTrip.Parsed.{form-IsPrintable}

-- A document that the parser can return.
pub record IsDocument (ast : FlowAst) : Type 0 where
  pub printable : IsPrintable ast.root
  pub wrapped : ast ≡ wrap ast.root
  pub valid : validate_root ast.root ≡ ok tt

checked-IsDocument :
    (root : Form) (span : Span) (r : Result AstError FlowAst)
    → IsPrintable root
    → new root ≡ r
    → Ensures IsDocument (checked span r)
checked-IsDocument root span (ok ast) p e =
    let (same, valid) = new-ok root e in
    returned (subst IsDocument (sym same) (record { printable = p; wrapped = refl; valid = valid }))
checked-IsDocument root span (err x) p e = refused

whole-IsDocument :
    (r : SpannedForm × List Token) → IsPrintable r.0.value → Ensures IsDocument (whole r)
whole-IsDocument (root, []) p = checked-IsDocument root.value root.span (new root.value) p refl
whole-IsDocument (root, t ∷ _) p = refused

pub parse-IsDocument : (source : String) → Ensures IsDocument (parse source)
unfolding parse lex parse_tokens
parse-IsDocument source =
    Ensures-and_then (lex_from-total _ _ 0 (chars source) (omega arith))
      λ ts lexical. Ensures-and_then (form-IsPrintable ts lexical) whole-IsDocument

-- `parse` answers for every source: its fuel never runs out.
pub parse-total : (source : String) → parse source ≢ out_of_fuel
parse-total source = Ensures-ne-out_of_fuel (parse-IsDocument source)

format-wrap :
    (root : Form)
    → validate_root root ≡ ok tt
    → format (wrap root) ≡ ok (of_chars (format_form root 0 ++ "\n" ∷ []))
unfolding format
format-wrap root valid = rw (validate-wrap root, valid)

whole-value :
    (v : SpannedForm) (root : Form)
    → v.value ≡ root
    → validate_root root ≡ ok tt
    → whole (v, []) ≡ success (wrap root)
whole-value v root same valid =
    let e : new v.value ≡ ok (wrap root) = rw same (new_of_validate_root root valid) in rw e

parse-formatted :
    (root : Form) (p : IsPrintable root)
    → validate_root root ≡ ok tt
    → parse (of_chars (format_form root 0 ++ "\n" ∷ [])) ≡ success (wrap root)
unfolding parse lex parse_tokens
parse-formatted root p valid =
    let text = format_form root 0 ++ "\n" ∷ [] in
    let (ts, lexed, k) =
      (Lexes-formatted p).run (length text + 1) (byte_len text) 0 (omega arith) in
    let (v, read, same) = form-tokens p ts k in
    rw (chars-of_chars text, lexed, read) (whole-value v root same valid)

-- Whatever source parses, its syntax tree is formatted without an error, and the formatted text
-- parses to the same tree.
pub parse-format :
    (source : String) (ast : FlowAst)
    → parse source ≡ success ast
    → (text : String) × (format ast ≡ ok text) × (parse text ≡ success ast)
parse-format source ast h =
    let d = Ensures-success (parse-IsDocument source) h in
    let text = of_chars (format_form ast.root 0 ++ "\n" ∷ []) in
    (
      text,
      ap format d.wrapped ∙ format-wrap ast.root d.valid,
      parse-formatted ast.root d.printable d.valid ∙ ap success (sym d.wrapped),
    )
