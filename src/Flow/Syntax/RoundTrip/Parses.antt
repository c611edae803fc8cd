-- ===== src/Flow/Syntax/RoundTrip/Parses.antt =====
-- crates/robine-flow-syntax/src/lib.rs: `Parser::form` on the tokens of a printable form.
use robine.Prelude.{
  ℕ, zero, suc, ◌+◌, ◌*◌, ◌<◌, ◌≡◌, refl, sym, ap, ◌∙◌, String, Bool, true, false, List, [], ◌∷◌,
  of_chars, arith, length, success, subst,
}
use robine.Flow.Ast.{Form, Forms, nil_forms, cons_forms}
use robine.Flow.Syntax.Token.{
  Span, TokenKind, open_token, close_token, string_token, atom_token, parenthesis, Token, span_of,
}
use robine.Flow.Syntax.Atom.{atom}
use robine.Flow.Syntax.Parser.{
  SpannedForm, spanned, Body, Parsed, list_round, go_on, form, list_body, list_body-round,
}
use robine.Flow.Syntax.RoundTrip.Lexes.{kinds}
use robine.Flow.Syntax.RoundTrip.Printable.{
  IsPrintable, ArePrintable, word, string, list, nil, cons, tokens, tokens_of_list,
}

kinds-cons :
    (ts : List Token) {k : TokenKind} {ks : List TokenKind}
    → kinds ts ≡ k ∷ ks
    → (t : Token) × (rest : List Token) × (ts ≡ t ∷ rest) × (t.kind ≡ k) × (kinds rest ≡ ks)
kinds-cons [] e = cc
kinds-cons (t ∷ rest) e = (t, rest, refl, cc, cc)

kinds-nil : (ts : List Token) → kinds ts ≡ [] → ts ≡ []
kinds-nil [] e = refl
kinds-nil (t ∷ ts) e = cc

-- From these tokens the form `f` is read, and the kinds `ks` are left.
abbrev ReadsForm : Form → List TokenKind → List Token → Type 0
ReadsForm f ks ts =
    (n : ℕ)
    → 2 * length ts < n
    → (v : SpannedForm) × (rest : List Token) × (form n ts ≡ success (v, rest))
      × (v.value ≡ f)
      × (kinds rest ≡ ks)
      × (length rest < length ts)

abbrev ReadsBody : Forms → List TokenKind → List Token → Type 0
ReadsBody fs ks ts =
    (n : ℕ) (span : Span)
    → 2 * length ts + 1 < n
    → (body : Body) × (rest : List Token) × (list_body n parenthesis span ts ≡ success (body, rest))
      × (body.forms ≡ fs)
      × (kinds rest ≡ ks)
      × (length rest < length ts)

ReadsForm-word :
    (value : String) (ks : List TokenKind) (ts : List Token)
    → kinds ts ≡ atom_token value ∷ ks
    → ReadsForm (atom value) ks ts
unfolding form
ReadsForm-word value ks [] e n h = cc
ReadsForm-word value ks (t ∷ ts) e zero h = absurd (omega arith)
ReadsForm-word value ks (t ∷ ts) e (suc n) h =
    let k : t.kind ≡ atom_token value = cc in
    (record { value = atom value; span = t.span }, ts, rw k, refl, cc, omega arith)

ReadsForm-string :
    (value : String) (ks : List TokenKind) (ts : List Token)
    → kinds ts ≡ string_token value ∷ ks
    → ReadsForm (Form.string value) ks ts
unfolding form
ReadsForm-string value ks [] e n h = cc
ReadsForm-string value ks (t ∷ ts) e zero h = absurd (omega arith)
ReadsForm-string value ks (t ∷ ts) e (suc n) h =
    let k : t.kind ≡ string_token value = cc in
    (record { value = Form.string value; span = t.span }, ts, rw k, refl, cc, omega arith)

ReadsForm-list :
    (fs : Forms) (ks : List TokenKind) (t : Token) (ts : List Token)
    → t.kind ≡ open_token parenthesis
    → ReadsBody fs ks ts
    → ReadsForm (Form.list fs) ks (t ∷ ts)
unfolding form
ReadsForm-list fs ks t ts k body zero h = absurd (omega arith)
ReadsForm-list fs ks t ts k body (suc n) h =
    let (b, rest, e, same, left, shorter) = body n t.span (omega arith) in
    (
      spanned (Form.list b.forms) (span_of t.span.start b.end),
      rest,
      rw (k, e),
      cc,
      left,
      omega arith,
    )

ReadsBody-nil :
    (ks : List TokenKind) (ts : List Token)
    → kinds ts ≡ close_token parenthesis ∷ ks
    → ReadsBody nil_forms ks ts
unfolding form
ReadsBody-nil ks [] e n span h = cc
ReadsBody-nil ks (t ∷ ts) e zero span h = absurd (omega arith)
ReadsBody-nil ks (t ∷ ts) e (suc n) span h =
    let k : t.kind ≡ close_token parenthesis = cc in
    (record { forms = nil_forms; end = t.span.end }, ts, rw k, refl, cc, omega arith)

abbrev opens : TokenKind → Bool
opens (close_token d) = false
opens _ = true

list_round-opens :
    (more : Parsed Body) (t : Token) (ts : List Token) (k : TokenKind)
    → opens k ≡ true
    → list_round more parenthesis t ts k ≡ more
list_round-opens more t ts (close_token d) o = cc
list_round-opens more t ts _ o = refl

list_body-more :
    (n : ℕ) (span : Span) (t : Token) (ts : List Token) (v : SpannedForm) (rest tail : List Token)
    (body : Body)
    → opens t.kind ≡ true
    → form n (t ∷ ts) ≡ success (v, rest)
    → list_body n parenthesis span rest ≡ success (body, tail)
    → list_body (suc n) parenthesis span (t ∷ ts)
      ≡ success (record { forms = cons_forms v.value body.forms; end = body.end }, tail)
list_body-more n span t ts v rest tail body o e l =
    list_body-round n parenthesis span t ts
    ∙ list_round-opens (go_on n parenthesis span (form n (t ∷ ts))) t ts t.kind o
    ∙ rw (e, l)

ReadsBody-cons :
    (f : Form) (fs : Forms) (between ks : List TokenKind) (t : Token) (ts : List Token)
    → opens t.kind ≡ true
    → ReadsForm f between (t ∷ ts)
    → ((rest : List Token) → kinds rest ≡ between → ReadsBody fs ks rest)
    → ReadsBody (cons_forms f fs) ks (t ∷ ts)
ReadsBody-cons f fs between ks t ts o read more zero span h = absurd (omega arith)
ReadsBody-cons f fs between ks t ts o read more (suc n) span h =
    let (v, rest, e, same, left, shorter) = read n (omega arith) in
    let (body, tail, l, also, behind, shorter') = more rest left n span (omega arith) in
    (
      record { forms = cons_forms v.value body.forms; end = body.end },
      tail,
      list_body-more n span t ts v rest tail body o e l,
      cc,
      behind,
      omega arith,
    )

head-opens :
    {f : Form} (p : IsPrintable f) (ks : List TokenKind)
    → (k : TokenKind) × (rest : List TokenKind) × (tokens p ks ≡ k ∷ rest) × (opens k ≡ true)
unfolding tokens
head-opens (word w h e) ks = (atom_token (of_chars w), ks, refl, refl)
head-opens (string v) ks = (string_token v, ks, refl, refl)
head-opens (list ps) ks =
    (open_token parenthesis, tokens_of_list ps (close_token parenthesis ∷ ks), refl, refl)

mutual
  unfolding tokens

  reads_form :
      {f : Form} (p : IsPrintable f) (ks : List TokenKind) (ts : List Token)
      → kinds ts ≡ tokens p ks
      → ReadsForm f ks ts
  reads_form (word w h same) ks ts e =
      subst (λ g. ReadsForm g ks ts) (sym same) (ReadsForm-word (of_chars w) ks ts e)
  reads_form (string v) ks ts e = ReadsForm-string v ks ts e
  reads_form (list {fs} ps) ks ts e =
      let (t, rest, split, k, left) = kinds-cons ts e in
      subst (ReadsForm (Form.list fs) ks) (sym split)
        (ReadsForm-list fs ks t rest k (reads_body ps ks rest left))

  reads_body :
      {fs : Forms} (ps : ArePrintable fs) (ks : List TokenKind) (ts : List Token)
      → kinds ts ≡ tokens_of_list ps (close_token parenthesis ∷ ks)
      → ReadsBody fs ks ts
  reads_body nil ks ts e = ReadsBody-nil ks ts e
  reads_body (cons {f} {fs} p ps) ks ts e =
      let between = tokens_of_list ps (close_token parenthesis ∷ ks) in
      let (k, kinds', head, o) = head-opens p between in
      let (t, rest, split, same, _) = kinds-cons ts (e ∙ head) in
      subst (ReadsBody (cons_forms f fs) ks) (sym split) (
        ReadsBody-cons f fs between ks t rest (ap opens same ∙ o)
          (reads_form p between (t ∷ rest) (ap kinds (sym split) ∙ e)) (reads_body ps ks))

-- The tokens of a printable form are read as that form, up to the last one.
pub form-tokens :
    {f : Form} (p : IsPrintable f) (ts : List Token)
    → kinds ts ≡ tokens p []
    → (v : SpannedForm) × (form (2 * length ts + 1) ts ≡ success (v, [])) × (v.value ≡ f)
form-tokens p ts e =
    let (v, rest, read, same, left, _) = reads_form p [] ts e (2 * length ts + 1) (omega arith) in
    (v, read ∙ ap (λ r. success (v, r)) (kinds-nil rest left), same)
