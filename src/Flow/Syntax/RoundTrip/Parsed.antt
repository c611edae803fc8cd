-- ===== src/Flow/Syntax/RoundTrip/Parsed.antt =====
-- crates/robine-flow-syntax/src/lib.rs: `Parser::form` ends, and reads printable forms only.
use robine.Prelude.{
  ℕ, zero, suc, ◌+◌, ◌*◌, ◌<◌, sym, List, [], ◌∷◌, arith, length, subst, Ensures, returned, refused,
  Ensures-and_then, Ensures-if,
}
use robine.Flow.Syntax.Token.{
  Span, Delimiter, TokenKind, open_token, close_token, string_token, atom_token, Token,
  same_delimiter,
}
use robine.Flow.Syntax.Lexer.Total.{IsLexical, AreLexical, next}
use robine.Flow.Syntax.Parser.{
  SpannedForm, Body, Parsed, form_of, list_round, go_on, form, list_body, form-round,
  list_body-round,
}
use robine.Flow.Syntax.RoundTrip.Printable.{
  IsPrintable, ArePrintable, word, string, list, nil, cons,
}

abbrev GoodForm : List Token → SpannedForm × List Token → Type 0
GoodForm ts r = IsPrintable r.0.value × AreLexical r.1 × (length r.1 < length ts)

abbrev GoodBody : List Token → Body × List Token → Type 0
GoodBody ts r = ArePrintable r.0.forms × AreLexical r.1 × (length r.1 < length ts)

form_of-total :
    (loop : Delimiter → Span → Parsed Body) (t : Token) (rest : List Token)
    → AreLexical rest
    → ((d : Delimiter) (span : Span) → Ensures (GoodBody rest) (loop d span))
    → (k : TokenKind) → IsLexical k
    → Ensures (GoodForm (t ∷ rest)) (form_of loop t rest k)
form_of-total loop t rest lex body (close_token d) h = refused
form_of-total loop t rest lex body (string_token v) h = returned (string v, lex, omega arith)
form_of-total loop t rest lex body (atom_token v) (w, h, e) =
    returned (word w h (rw e), lex, omega arith)
form_of-total loop t rest lex body (open_token d) h =
    Ensures-and_then (body d t.span) λ (b, left) (p, l, lt). returned (list p, l, omega arith)

list_round-total :
    (more : Parsed Body) (d : Delimiter) (t : Token) (rest : List Token)
    → AreLexical rest
    → Ensures (GoodBody (t ∷ rest)) more
    → (k : TokenKind) → Ensures (GoodBody (t ∷ rest)) (list_round more d t rest k)
list_round-total more d t rest lex h (close_token close) =
    Ensures-if (same_delimiter close d) (λ _. returned (nil, lex, omega arith)) (λ _. refused)
list_round-total more d t rest lex h _ = h

no_form : (n : ℕ) → Ensures (GoodForm []) (form (suc n) [])
unfolding form
no_form n = refused

unclosed :
    (n : ℕ) (d : Delimiter) (span : Span) → Ensures (GoodBody []) (list_body (suc n) d span [])
unfolding list_body
unclosed n d span = refused

mutual
  form-total :
      (n : ℕ) (ts : List Token)
      → AreLexical ts
      → 2 * length ts < n
      → Ensures (GoodForm ts) (form n ts)
  form-total zero ts lex lt = absurd (omega arith)
  form-total (suc n) [] lex lt = no_form n
  form-total (suc n) (t ∷ rest) (next k lex) lt =
      subst (Ensures (GoodForm (t ∷ rest))) (sym (form-round n t rest)) (
        form_of-total (λ d span. list_body n d span rest) t rest lex
          (λ d span. list_body-total n d span rest lex (omega arith)) t.kind k)

  list_body-total :
      (n : ℕ) (d : Delimiter) (span : Span) (ts : List Token)
      → AreLexical ts
      → 2 * length ts + 1 < n
      → Ensures (GoodBody ts) (list_body n d span ts)
  list_body-total zero d span ts lex lt = absurd (omega arith)
  list_body-total (suc n) d span [] lex lt = unclosed n d span
  list_body-total (suc n) d span (t ∷ rest) (next k lex) lt =
      subst (Ensures (GoodBody (t ∷ rest))) (sym (list_body-round n d span t rest)) (
        list_round-total (go_on n d span (form n (t ∷ rest))) d t rest lex
          (Ensures-and_then (form-total n (t ∷ rest) (next k lex) (omega arith))
            λ (v, left) (p, l, lt').
              Ensures-and_then (list_body-total n d span left l (omega arith))
                λ (b, last) (ps, l', lt''). returned (cons p ps, l', omega arith))
          t.kind)

-- With fuel above twice the number of tokens, `form` answers, and what it reads is printable.
pub form-IsPrintable :
    (ts : List Token)
    → AreLexical ts
    → Ensures (λ r. IsPrintable r.0.value) (form (2 * length ts + 1) ts)
form-IsPrintable ts lex = weaken (form-total (2 * length ts + 1) ts lex (omega arith))
  where
    weaken :
        {r : Parsed SpannedForm} → Ensures (GoodForm ts) r → Ensures (λ r. IsPrintable r.0.value) r
    weaken (returned h) = returned h.0
    weaken refused = refused
