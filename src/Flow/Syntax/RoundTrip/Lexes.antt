-- ===== src/Flow/Syntax/RoundTrip/Lexes.antt =====
-- crates/robine-flow-syntax/src/lib.rs: what `lex` makes of each piece of text. Offsets, spans and
-- fuel are left behind here: a text lexes to the kinds of its tokens.
use robine.Prelude.{
  ℕ, zero, suc, ◌+◌, ◌≡◌, refl, ap, Char, len_utf8, true, List, [], ◌∷◌, ◌++◌, arith, of_chars,
  length, length-append, success, and-true, not-true, ◌≤◌, ◌<◌,
}
use robine.Flow.Syntax.Token.{
  TokenKind, open_token, close_token, string_token, atom_token, Token, Span, Delimiter, blank, word,
  opening, closing, class_of, is_whitespace,
}
use robine.Flow.Syntax.Lexer.{take_atom, lex_from}
use robine.Flow.Syntax.Lexer.Word.{breaks, continues, is_word, starts_atom-true}
use robine.Flow.Syntax.Format.{escape_text}
use robine.Flow.Syntax.RoundTrip.Escapes.{read_string-escape_text}

abbrev pub kinds : List Token → List TokenKind
kinds [] = []
kinds (t ∷ ts) = t.kind ∷ kinds ts

pub record Lexes (s : List Char) (ks : List TokenKind) : Type 0 where
  pub run :
      (f total at : ℕ)
      → length s < f
      → (ts : List Token) × (lex_from f total at s ≡ success ts) × (kinds ts ≡ ks)

abbrev span : ℕ → ℕ → Span
span start end = record { start = start; end = end }

pub Lexes-nil : Lexes [] []
Lexes-nil = record { run = go }
  where
    go :
        (f total at : ℕ)
        → 0 < f
        → (ts : List Token) × (lex_from f total at [] ≡ success ts) × (kinds ts ≡ [])
    go zero total at h = absurd (omega arith)
    go (suc f) total at h = ([], unfold lex_from in refl, refl)

-- A piece of text is lexed by one round from each fuel that is enough.
abbrev Round : List Char → List TokenKind → Type 0
Round s ks =
    (f total at : ℕ)
    → length s ≤ f
    → (ts : List Token) × (lex_from (suc f) total at s ≡ success ts) × (kinds ts ≡ ks)

Lexes-Round : (s : List Char) (ks : List TokenKind) → Round s ks → Lexes s ks
Lexes-Round s ks r = record { run = go }
  where
    go :
        (f total at : ℕ)
        → length s < f
        → (ts : List Token) × (lex_from f total at s ≡ success ts) × (kinds ts ≡ ks)
    go zero total at h = absurd (omega arith)
    go (suc f) total at h = r f total at (omega arith)

module _ (c : Char) {s : List Char} {ks : List TokenKind} (after : Lexes s ks) where
  pub Lexes-blank : class_of c ≡ blank → Lexes (c ∷ s) ks
  Lexes-blank e = Lexes-Round _ _ λ f total at h.
      let (ts, l, k) = after.run f total (at + len_utf8 c) (omega arith) in
      (ts, unfold lex_from in rw e l, k)

  pub Lexes-open : (d : Delimiter) → class_of c ≡ opening d → Lexes (c ∷ s) (open_token d ∷ ks)
  Lexes-open d e = Lexes-Round _ _ λ f total at h.
      let (ts, l, k) = after.run f total (at + len_utf8 c) (omega arith) in
      (
        record { kind = open_token d; span = span at (at + 1) } ∷ ts,
        unfold lex_from in rw (e, l),
        ap (λ m. open_token d ∷ m) k,
      )

  pub Lexes-close : (d : Delimiter) → class_of c ≡ closing d → Lexes (c ∷ s) (close_token d ∷ ks)
  Lexes-close d e = Lexes-Round _ _ λ f total at h.
      let (ts, l, k) = after.run f total (at + len_utf8 c) (omega arith) in
      (
        record { kind = close_token d; span = span at (at + 1) } ∷ ts,
        unfold lex_from in rw (e, l),
        ap (λ m. close_token d ∷ m) k,
      )

take_atom-word :
    (w s : List Char) (at : ℕ)
    → continues w ≡ true
    → breaks s ≡ true
    → (end : ℕ) × (take_atom at (w ++ s) ≡ (w, end, s))
unfolding take_atom
take_atom-word [] [] at h b = (at, refl)
take_atom-word [] (c ∷ s) at h b = (at, rw b)
take_atom-word (c ∷ w) s at h b =
    let (n, m) = and-true h in
    let (end, e) = take_atom-word w s (at + len_utf8 c) m b in (end, rw (not-true n, e))

pub Lexes-word :
    (w s : List Char) {ks : List TokenKind}
    → Lexes s ks
    → is_word w ≡ true
    → breaks s ≡ true
    → Lexes (w ++ s) (atom_token (of_chars w) ∷ ks)
Lexes-word [] s after h b = cc
Lexes-word (c ∷ w) s after h b =
    let (first, others) = and-true h in
    let e : class_of c ≡ word = starts_atom-true (class_of c) first in
    Lexes-Round _ _ λ f total at fuel.
      let (end, t) = take_atom-word w s (at + len_utf8 c) others b in
      let (ts, l, k) = after.run f total end (omega (arith, length-append w s)) in
      (
        record { kind = atom_token (of_chars (c ∷ w)); span = span at end } ∷ ts,
        unfold lex_from in rw (e, t, l),
        ap (λ m. atom_token (of_chars (c ∷ w)) ∷ m) k,
      )

pub Lexes-string :
    (v s : List Char) {ks : List TokenKind}
    → Lexes s ks
    → Lexes ("\"" ∷ (escape_text v ++ "\"" ∷ s)) (string_token (of_chars v) ∷ ks)
Lexes-string v s after = Lexes-Round _ _ λ f total at fuel.
    let (end, r) =
      read_string-escape_text v s (suc f) total at (at + len_utf8 "\"") (omega arith) in
    let (ts, l, k) =
      after.run f total end (omega (arith, length-append (escape_text v) ("\"" ∷ s))) in
    (
      record { kind = string_token (of_chars v); span = span at end } ∷ ts,
      unfold lex_from class_of is_whitespace in rw (r, l),
      ap (λ m. string_token (of_chars v) ∷ m) k,
    )
