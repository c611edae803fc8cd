-- ===== src/Flow/Syntax/RoundTrip/Formatted.antt =====
-- crates/robine-flow-syntax/src/lib.rs: `lex` on what `format_form` writes.
use robine.Prelude.{
  ℕ, zero, suc, ◌+◌, ◌≡◌, refl, sym, ap, ◌∙◌, String, Char, Bool, true, false, List, [], ◌∷◌, ◌++◌,
  chars, of_chars, chars-of_chars, of_chars-chars, append_assoc, subst, all,
}
use robine.Flow.Ast.{Form, Forms, nil_forms, cons_forms, items, is_atom}
use robine.Flow.Syntax.Token.{
  TokenKind, string_token, parenthesis, opening, closing, class_of, is_whitespace, ends_atom,
}
use robine.Flow.Syntax.Atom.{atom}
use robine.Flow.Syntax.Format.{
  inner_indent, escape_text, spaces, separator, format_form, format_first, format_rest,
}
use robine.Flow.Syntax.RoundTrip.Lexes.{
  Lexes, Lexes-nil, Lexes-blank, Lexes-open, Lexes-close, Lexes-word, Lexes-string,
}
use robine.Flow.Syntax.Lexer.Word.{breaks}
use robine.Flow.Syntax.RoundTrip.Words.{format-atom}
use robine.Flow.Syntax.RoundTrip.Printable.{
  IsPrintable, ArePrintable, word, string, list, nil, cons, tokens, tokens_of_list,
}

Lexes-spaces : (n : ℕ) {s : List Char} {ks : List TokenKind} → Lexes s ks → Lexes (spaces n ++ s) ks
unfolding spaces
Lexes-spaces zero after = after
Lexes-spaces (suc n) after =
    Lexes-blank " " (Lexes-spaces n after) (unfold class_of is_whitespace in refl)

Lexes-separator :
    (inline : Bool) (indent : ℕ) {s : List Char} {ks : List TokenKind}
    → Lexes s ks
    → Lexes (separator inline indent ++ s) ks
unfolding separator
Lexes-separator true indent after = Lexes-blank " " after (unfold class_of is_whitespace in refl)
Lexes-separator false indent after =
    Lexes-blank "\n" (Lexes-spaces (indent + 2) after) (unfold class_of is_whitespace in refl)

breaks-separator :
    (inline : Bool) (indent : ℕ) (s : List Char) → breaks (separator inline indent ++ s) ≡ true
unfolding separator ends_atom is_whitespace
breaks-separator true indent s = refl
breaks-separator false indent s = refl

Lexes-formatted_word :
    (w s : List Char) {ks : List TokenKind} {f : Form} (indent : ℕ)
    → f ≡ atom (of_chars w)
    → Lexes (w ++ s) ks
    → Lexes (format_form f indent ++ s) ks
Lexes-formatted_word w s {ks} indent e l =
    subst (λ t. Lexes (t ++ s) ks)
      (sym (ap (λ g. format_form g indent) e ∙ format-atom (of_chars w) indent ∙ chars-of_chars w))
      l

Lexes-formatted_string :
    (v : String) (s : List Char) {ks : List TokenKind} (indent : ℕ)
    → Lexes s ks
    → Lexes (format_form (Form.string v) indent ++ s) (string_token v ∷ ks)
unfolding format_form
Lexes-formatted_string v s {ks} indent after =
    let l = Lexes-string (chars v) s after in
    rw (append_assoc (escape_text (chars v)) ("\"" ∷ []) s) (rw (of_chars-chars v) at l)

breaks-rest :
    (fs : Forms) (inline : Bool) (indent : ℕ) (s : List Char)
    → breaks s ≡ true
    → breaks (format_rest fs inline indent ++ s) ≡ true
unfolding format_form
breaks-rest nil_forms inline indent s b = b
breaks-rest (cons_forms f fs) inline indent s b =
    rw (append_assoc (separator inline indent)) (breaks-separator inline indent _)

class_of_open : class_of "(" ≡ opening parenthesis
unfolding class_of is_whitespace
class_of_open = refl

class_of_close : class_of ")" ≡ closing parenthesis
unfolding class_of is_whitespace
class_of_close = refl

ends_atom_close : ends_atom ")" ≡ true
unfolding ends_atom is_whitespace
ends_atom_close = refl

mutual
  unfolding format_form tokens

  Lexes-format :
      {f : Form} (p : IsPrintable f) (indent : ℕ) (s : List Char) {ks : List TokenKind}
      → breaks s ≡ true
      → Lexes s ks
      → Lexes (format_form f indent ++ s) (tokens p ks)
  Lexes-format (word w h e) indent s b after =
      Lexes-formatted_word w s indent e (Lexes-word w s after h b)
  Lexes-format (string v) indent s b after = Lexes-formatted_string v s indent after
  Lexes-format (list {fs} ps) indent s b after =
      let inline = all is_atom (items fs) in
      let end = Lexes-close ")" after parenthesis class_of_close in
      let inside = Lexes-first ps inline indent (")" ∷ s) ends_atom_close end in
      Lexes-open "(" (rw (append_assoc (format_first fs inline indent) (")" ∷ []) s) inside)
        parenthesis class_of_open

  Lexes-first :
      {fs : Forms} (ps : ArePrintable fs) (inline : Bool) (indent : ℕ) (s : List Char)
      {ks : List TokenKind}
      → breaks s ≡ true
      → Lexes s ks
      → Lexes (format_first fs inline indent ++ s) (tokens_of_list ps ks)
  Lexes-first nil inline indent s b after = after
  Lexes-first (cons {f} {fs} p ps) inline indent s b after =
      let at = inner_indent inline indent in
      rw (append_assoc (format_form f at) (format_rest fs inline indent) s) (
        Lexes-format p at (format_rest fs inline indent ++ s) (breaks-rest fs inline indent s b)
          (Lexes-rest ps inline indent s b after))

  Lexes-rest :
      {fs : Forms} (ps : ArePrintable fs) (inline : Bool) (indent : ℕ) (s : List Char)
      {ks : List TokenKind}
      → breaks s ≡ true
      → Lexes s ks
      → Lexes (format_rest fs inline indent ++ s) (tokens_of_list ps ks)
  Lexes-rest nil inline indent s b after = after
  Lexes-rest (cons {f} {fs} p ps) inline indent s b after =
      let at = inner_indent inline indent in
      let body = format_form f at ++ format_rest fs inline indent in
      rw (append_assoc (separator inline indent) body s) (
        Lexes-separator inline indent (
          rw (append_assoc (format_form f at) (format_rest fs inline indent) s) (
            Lexes-format p at (format_rest fs inline indent ++ s) (breaks-rest fs inline indent s b)
              (Lexes-rest ps inline indent s b after))))

-- The formatted text of a printable form has the tokens of the form.
pub Lexes-formatted :
    {f : Form} (p : IsPrintable f) → Lexes (format_form f 0 ++ "\n" ∷ []) (tokens p [])
Lexes-formatted p =
    Lexes-format p 0 ("\n" ∷ []) (unfold ends_atom is_whitespace in refl)
      (Lexes-blank "\n" Lexes-nil (unfold class_of is_whitespace in refl))
