-- ===== src/Flow/Syntax/RoundTrip/Escapes.antt =====
-- crates/robine-flow-syntax/src/lib.rs: `read_string` undoes the escapes that `format_form` writes.
use robine.Prelude.{
  ℕ, zero, suc, ◌+◌, ◌/◌, ◌%◌, ◌<◌, ◌≡◌, refl, ap, Char, code, len_utf8, Bool, true, false, Option,
  none, some, List, [], ◌∷◌, ◌++◌, arith, is, eqb, length, length-append, success, and_then,
  append_assoc, Bool-cases, inl, inr, eqb_iff, Char-path, passes_below, passes_below_sound,
  char_from_u32-code,
}
use robine.Flow.Syntax.Token.{is_control}
use robine.Flow.Syntax.Lexer.{Read, Lexed, read_string}
use robine.Flow.Syntax.Lexer.Escape.{plain, escape_of, take_digits, from_str_radix, escaped_code}
use robine.Flow.Syntax.Format.{hex_digit, hex_escape, escape_char, escape_text}

pub is-true : (c d : Char) → is c (code d) ≡ true → c ≡ d
is-true c d h = Char-path c d ((eqb_iff (code c) (code d)).0 h)

hex4 : ℕ → List Char
unfolding hex_digit
hex4 n =
    hex_digit (n / 4096 % 16)
    ∷ hex_digit (n / 256 % 16)
    ∷ hex_digit (n / 16 % 16)
    ∷ hex_digit (n % 16)
    ∷ []

abbrev is_value : Option ℕ → ℕ → Bool
is_value none n = false
is_value (some m) n = eqb m n

is_value-true : (o : Option ℕ) (n : ℕ) → is_value o n ≡ true → o ≡ some n
is_value-true none n h = cc
is_value-true (some m) n h = ap some ((eqb_iff m n).0 h)

control_table : passes_below (λ n. is_value (from_str_radix (hex4 n)) n) 160 ≡ true
unfolding passes_below from_str_radix hex4
control_table = refl

from_str_radix-hex4 : (n : ℕ) → n < 160 → from_str_radix (hex4 n) ≡ some n
from_str_radix-hex4 n h =
    is_value-true _ n
      (passes_below_sound (λ m. is_value (from_str_radix (hex4 m)) m) 160 n h control_table)

control-lt : (c : Char) → is_control c ≡ true → code c < 160
unfolding is_control
control-lt c h = ground arith

escaped_code-hex4 : (c : Char) → is_control c ≡ true → escaped_code (hex4 (code c)) ≡ some c
unfolding escaped_code
escaped_code-hex4 c h = rw (from_str_radix-hex4 (code c) (control-lt c h)) (char_from_u32-code c)

abbrev pushed : Char → Read (List Char) → Lexed (Read (List Char))
pushed c (v, at, s) = success (c ∷ v, at, s)

-- One round of the loop reads one escaped character.
abbrev Step : Char → List Char → Type 0
Step c text =
    (f total start at : ℕ) (s : List Char)
    → (next : ℕ) × (read_string (suc f) total start at (text ++ s)
        ≡ and_then (read_string f total start next s) (pushed c))

Step-plain : (c : Char) → is c b'"' ≡ false → is c b'\\' ≡ false → Step c (c ∷ [])
unfolding read_string
Step-plain c q b f total start at s = (at + len_utf8 c, rw (q, b))

after_digits : ℕ → List Char → ℕ
after_digits at [] = at
after_digits at (c ∷ s) = after_digits (at + len_utf8 c) s

Step-control : (c : Char) → is_control c ≡ true → Step c (hex_escape (code c))
unfolding read_string hex_escape hex4 escape_of take_digits after_digits
Step-control c h f total start at s =
    (after_digits (at + len_utf8 "\\" + len_utf8 "u") (hex4 (code c)), rw (escaped_code-hex4 c h))

Step-short : (c e : Char) → escape_of e ≡ plain c → Step c ("\\" ∷ e ∷ [])
unfolding read_string
Step-short c e h f total start at s = (at + len_utf8 "\\" + len_utf8 e, rw h)

Step-escape_char : (c : Char) → Step c (escape_char c)
unfolding escape_char
Step-escape_char c = elim (Bool-cases (is c b'"')) [
  | inl e ↦ rw (is-true c "\"" e) (Step-short "\"" "\"" (unfold escape_of in refl))
  | inr q ↦ rw q (elim (Bool-cases (is c b'\\')) [
    | inl e ↦ rw (is-true c "\\" e) (Step-short "\\" "\\" (unfold escape_of in refl))
    | inr b ↦ rw b (elim (Bool-cases (is c b'\n')) [
      | inl e ↦ rw (is-true c "\n" e) (Step-short "\n" "n" (unfold escape_of in refl))
      | inr n ↦ rw n (elim (Bool-cases (is c b'\r')) [
        | inl e ↦ rw (is-true c "\r" e) (Step-short "\r" "r" (unfold escape_of in refl))
        | inr r ↦ rw r (elim (Bool-cases (is c b'\t')) [
          | inl e ↦ rw (is-true c "\t" e) (Step-short "\t" "t" (unfold escape_of in refl))
          | inr t ↦ rw t (elim (Bool-cases (is_control c)) [
            | inl k ↦ rw k (Step-control c k)
            | inr k ↦ rw k (Step-plain c q b)
          ])
        ])
      ])
    ])
  ])
]

escape_char_pos : (c : Char) → 0 < length (escape_char c)
unfolding escape_char hex_escape
escape_char_pos c = ground arith

-- Behind the escaped text and a quote the loop stops with the text as its value.
pub read_string-escape_text :
    (v s : List Char) (f total start at : ℕ)
    → length (escape_text v ++ "\"" ∷ s) < f
    → (end : ℕ) × (read_string f total start at (escape_text v ++ "\"" ∷ s) ≡ success (v, end, s))
unfolding escape_text
read_string-escape_text v s zero total start at h = absurd (omega arith)
read_string-escape_text [] s (suc f) total start at h =
    (at + len_utf8 "\"", unfold read_string in refl)
read_string-escape_text (c ∷ v) s (suc f) total start at h =
    let tail = escape_text v ++ "\"" ∷ s in
    let assoc = append_assoc (escape_char c) (escape_text v) ("\"" ∷ s) in
    let shorter : length tail < f =
      omega (arith, ap length assoc, length-append (escape_char c) tail, escape_char_pos c) in
    let (next, e) = Step-escape_char c f total start at tail in
    let (end, r) = read_string-escape_text v s f total start next shorter in (end, rw (assoc, e, r))
