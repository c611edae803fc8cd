-- ===== src/Flow/Syntax/RoundTrip/Printable.antt =====
-- crates/robine-flow-syntax/src/lib.rs: the forms that Flow text can denote.
use robine.Prelude.{◌≡◌, String, Char, true, List, ◌∷◌, of_chars}
use robine.Flow.Ast.{Form, Forms, nil_forms, cons_forms}
use robine.Flow.Syntax.Token.{
  TokenKind, open_token, close_token, string_token, atom_token, parenthesis,
}
use robine.Flow.Syntax.Atom.{atom}
use robine.Flow.Syntax.Lexer.Word.{is_word}

-- Built of words, string literals and lists.
mutual
  pub data IsPrintable : Form → Type 0 where
    word : {f : Form} (w : List Char) → is_word w ≡ true → f ≡ atom (of_chars w) → IsPrintable f
    string : (v : String) → IsPrintable (Form.string v)
    list : {fs : Forms} → ArePrintable fs → IsPrintable (Form.list fs)

  pub data ArePrintable : Forms → Type 0 where
    nil : ArePrintable nil_forms
    cons :
        {f : Form} {fs : Forms} → IsPrintable f → ArePrintable fs → ArePrintable (cons_forms f fs)

-- The tokens of a form, before those that follow it.
unfoldable mutual
  pub tokens : {f : Form} → IsPrintable f → List TokenKind → List TokenKind
  tokens (word w h e) ks = atom_token (of_chars w) ∷ ks
  tokens (string v) ks = string_token v ∷ ks
  tokens (list ps) ks = open_token parenthesis ∷ tokens_of_list ps (close_token parenthesis ∷ ks)

  pub tokens_of_list : {fs : Forms} → ArePrintable fs → List TokenKind → List TokenKind
  tokens_of_list nil ks = ks
  tokens_of_list (cons p ps) ks = tokens p (tokens_of_list ps ks)
