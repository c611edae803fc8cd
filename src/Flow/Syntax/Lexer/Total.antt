-- ===== src/Flow/Syntax/Lexer/Total.antt =====
-- crates/robine-flow-syntax/src/lib.rs: the loops of `lex` end, and every atom is a word.
use robine.Prelude.{
  ℕ, zero, suc, ◌+◌, ◌≤◌, ◌<◌, ◌≡◌, refl, Char, len_utf8, true, Option, none, some, List, [], ◌∷◌,
  arith, is, of_chars, length, and_then, Ensures, returned, refused, Ensures-and_then, Ensures-if,
  Option-cases, Bool-cases, inl, inr,
}
use robine.Flow.Syntax.Token.{
  TokenKind, atom_token, Token, ends_atom, Class, blank, comment, quote, word, opening, closing,
  class_of,
}
use robine.Flow.Syntax.Lexer.{
  Read, Lexed, skip_comment, take_atom, push, decoded, read_unicode, read_escape, after_backslash,
  read_string, emit, lex_class, lex_from,
}
use robine.Flow.Syntax.Lexer.Word.{continues, is_word}
use robine.Flow.Syntax.Lexer.Escape.{
  Escaped, plain, unicode, invalid, escape_of, take_digits, escaped_code,
}

-- No more characters are left than there were.
abbrev Shorter : List Char → Read (List Char) → Type 0
Shorter s r = length r.2 ≤ length s

take_digits-length :
    (n at : ℕ) (s : List Char) (r : Read (List Char))
    → take_digits n at s ≡ some r
    → length r.2 ≤ length s
unfolding take_digits
take_digits-length zero at s r h = ground arith
take_digits-length (suc n) at [] r h = cc
take_digits-length (suc n) at (c ∷ s) r h =
    elim (Option-cases (take_digits n (at + len_utf8 c) s)) [
      | inl e ↦ let h' = (rw e at h) in cc h'
      | inr (q, e) ↦
          let h' = (rw e at h) in ground (arith, h', take_digits-length n (at + len_utf8 c) s q e)
    ]

Ensures-longer :
    (s t : List Char) {r : Lexed (Read (List Char))}
    → length s ≤ length t
    → Ensures (Shorter s) r
    → Ensures (Shorter t) r
Ensures-longer s t le (returned k) = returned (omega arith)
Ensures-longer s t le refused = refused

Ensures-push :
    (c : Char) (s s' : List Char) {r : Lexed (Read (List Char))}
    → length s ≤ length s'
    → Ensures (Shorter s) r
    → Ensures (Shorter s') (and_then r (push c))
Ensures-push c s s' le h = Ensures-and_then h λ (v, at, rest) k. returned (omega arith)

-- The loop of `read_string` at one unit of fuel less, as far as it is enough.
abbrev Enough : ℕ → (ℕ → List Char → Lexed (Read (List Char))) → Type 0
Enough f go = (at : ℕ) (s : List Char) → length s < f → Ensures (Shorter s) (go at s)

decoded-total :
    (at : ℕ) (o : Option Char) (s : List Char) {more : Lexed (Read (List Char))}
    → Ensures (Shorter s) more
    → Ensures (Shorter s) (and_then (decoded at o) λ c. and_then more (push c))
decoded-total at none s h = refused
decoded-total at (some c) s h = Ensures-push c s s (omega arith) h

read_unicode-total :
    (f total at : ℕ) (go : ℕ → List Char → Lexed (Read (List Char))) (s : List Char)
    → Enough f go
    → length s < f
    → (o : Option (Read (List Char)))
    → ((r : Read (List Char)) → o ≡ some r → length r.2 ≤ length s)
    → Ensures (Shorter s) (read_unicode total at go o)
read_unicode-total f total at go s enough lt none h = refused
read_unicode-total f total at go s enough lt (some (hex, next, rest)) h =
    let le = h (hex, next, rest) refl in
    Ensures-longer rest s le
      (decoded-total at (escaped_code hex) rest (enough next rest (omega arith)))

read_escape-total :
    (f total at : ℕ) (go : ℕ → List Char → Lexed (Read (List Char))) (e : Char) (s : List Char)
    → Enough f go
    → length s < f
    → (k : Escaped) → Ensures (Shorter s) (read_escape total at go e s k)
read_escape-total f total at go e s enough lt (plain c) =
    Ensures-push c s s (omega arith) (enough (at + len_utf8 e) s lt)
read_escape-total f total at go e s enough lt unicode =
    read_unicode-total f total at go s enough lt (take_digits 4 (at + len_utf8 e) s)
      (take_digits-length 4 (at + len_utf8 e) s)
read_escape-total f total at go e s enough lt invalid = refused

after_backslash-total :
    (f total start at : ℕ) (go : ℕ → List Char → Lexed (Read (List Char))) (s : List Char)
    → Enough f go
    → length s < f
    → Ensures (Shorter s) (after_backslash total start at go s)
after_backslash-total f total start at go [] enough lt = refused
after_backslash-total f total start at go (e ∷ s) enough lt =
    Ensures-longer s (e ∷ s) (omega arith)
      (read_escape-total f total at go e s enough (omega arith) (escape_of e))

read_string-total :
    (f total start at : ℕ) (s : List Char)
    → length s < f
    → Ensures (Shorter s) (read_string f total start at s)
unfolding read_string
read_string-total zero total start at s lt = absurd (omega arith)
read_string-total (suc f) total start at [] lt = refused
read_string-total (suc f) total start at (c ∷ s) lt =
    Ensures-if (is c b'"') (λ _. returned (omega arith))
      λ _.
        Ensures-if (is c b'\\')
          (λ _. Ensures-longer s (c ∷ s) (omega arith) (
            after_backslash-total f total start (at + len_utf8 c) (read_string f total start) s
              (read_string-total f total start) (omega arith)))
          (λ _.
            Ensures-push c s (c ∷ s) (omega arith)
              (read_string-total f total start (at + len_utf8 c) s (omega arith)))

skip_comment-length : (at : ℕ) (s : List Char) → length (skip_comment at s).1 ≤ length s
unfolding skip_comment
skip_comment-length at [] = omega arith
skip_comment-length at (c ∷ s) = ground (arith, skip_comment-length (at + len_utf8 c) s)

take_atom-continues :
    (at : ℕ) (s : List Char)
    → (continues (take_atom at s).0 ≡ true) × (length (take_atom at s).2 ≤ length s)
unfolding take_atom
take_atom-continues at [] = (refl, omega arith)
take_atom-continues at (c ∷ s) = elim (Bool-cases (ends_atom c)) [
  | inl e ↦ rw e (refl, omega arith)
  | inr e ↦ let (w, l) = take_atom-continues (at + len_utf8 c) s in rw (e, e) (w, omega arith)
]

-- An atom of the token list is the text of a word.
abbrev pub IsLexical : TokenKind → Type 0
IsLexical (atom_token v) = (w : List Char) × (is_word w ≡ true) × (v ≡ of_chars w)
IsLexical _ = Unit

pub data AreLexical : List Token → Type 0 where
  none_left : AreLexical []
  next : {t : Token} {ts : List Token} → IsLexical t.kind → AreLexical ts → AreLexical (t ∷ ts)

Ensures-emit :
    (t : Token) {r : Lexed (List Token)}
    → IsLexical t.kind
    → Ensures AreLexical r
    → Ensures AreLexical (emit t r)
Ensures-emit t k h = Ensures-and_then h λ ts hs. returned (next k hs)

lex_class-total :
    (f total at : ℕ) (go : ℕ → List Char → Lexed (List Token)) (c : Char) (s : List Char)
    → ((at : ℕ) (s : List Char) → length s < f → Ensures AreLexical (go at s))
    → length s < f
    → (k : Class) → class_of c ≡ k
    → Ensures AreLexical (lex_class (suc f) total at go c s k)
lex_class-total f total at go c s enough lt blank e = enough (at + len_utf8 c) s lt
lex_class-total f total at go c s enough lt comment e =
    enough (skip_comment (at + len_utf8 c) s).0 (skip_comment (at + len_utf8 c) s).1
      (omega (arith, skip_comment-length (at + len_utf8 c) s))
lex_class-total f total at go c s enough lt (opening d) e =
    Ensures-emit _ tt (enough (at + len_utf8 c) s lt)
lex_class-total f total at go c s enough lt (closing d) e =
    Ensures-emit _ tt (enough (at + len_utf8 c) s lt)
lex_class-total f total at go c s enough lt quote e =
    Ensures-and_then (read_string-total (suc f) total at (at + len_utf8 c) s (omega arith))
      λ (v, end, rest) le. Ensures-emit _ tt (enough end rest (omega arith))
lex_class-total f total at go c s enough lt word e =
    let r = take_atom (at + len_utf8 c) s in
    let (w, le) = take_atom-continues (at + len_utf8 c) s in
    Ensures-emit _ (c ∷ r.0, rw e w, refl) (enough r.1 r.2 (omega arith))

-- With more fuel than characters the lexer answers, and its atoms are words.
pub lex_from-total :
    (f total at : ℕ) (s : List Char) → length s < f → Ensures AreLexical (lex_from f total at s)
unfolding lex_from
lex_from-total zero total at s lt = absurd (omega arith)
lex_from-total (suc f) total at [] lt = returned none_left
lex_from-total (suc f) total at (c ∷ s) lt =
    lex_class-total f total at (lex_from f total) c s (lex_from-total f total) (omega arith)
      (class_of c) refl
