-- ===== src/Flow/Syntax/RoundTrip/Words.antt =====
-- crates/robine-flow-syntax/src/lib.rs: `format_form` writes the word that `atom` has read.
use robine.Prelude.{
  ℕ, ◌≡◌, refl, ap, ◌∙◌, String, Char, Option, none, some, List, [], ◌∷◌, ◌++◌, is, ◌==◌, eq_iff,
  chars, of_chars, chars-of_chars, Bool-cases, inl, inr, Option-cases,
}
use robine.Flow.Ast.{Form, symbol, keyword, number}
use robine.Flow.Syntax.Atom.{in_number, split_number, is_float, parse_number, keyword_name, atom}
use robine.Flow.Syntax.Format.{unit_chars, format_form}
use robine.Flow.Syntax.RoundTrip.Escapes.{is-true}

split_number-append : (s : List Char) → (split_number s).0 ++ (split_number s).1 ≡ s
unfolding split_number
split_number-append [] = refl
split_number-append (c ∷ s) = elim (Bool-cases (in_number c)) [
  | inl e ↦ rw e (ap (λ t. c ∷ t) (split_number-append s))
  | inr e ↦ rw e
]

abbrev unit_of : List Char → Option String
unit_of [] = none
unit_of (c ∷ s) = some (of_chars (c ∷ s))

unit_chars-unit_of : (u : List Char) → unit_chars (unit_of u) ≡ u
unit_chars-unit_of [] = refl
unit_chars-unit_of (c ∷ u) = chars-of_chars (c ∷ u)

format-number :
    (l u : List Char) (indent : ℕ) → format_form (number (of_chars l) (unit_of u)) indent ≡ l ++ u
unfolding format_form
format-number l u indent = rw (chars-of_chars l, unit_chars-unit_of u)

abbrev number_or_symbol : String → Option Form → Form
number_or_symbol value none = symbol value
number_or_symbol value (some f) = f

format-number_or_symbol :
    (value : String) (indent : ℕ)
    → format_form (number_or_symbol value (parse_number (chars value))) indent ≡ chars value
unfolding parse_number
format-number_or_symbol value indent =
    let l = (split_number (chars value)).0 in
    let u = (split_number (chars value)).1 in
    elim (Bool-cases (is_float l)) [
      | inl e ↦ rw e (format-number l u indent ∙ split_number-append (chars value))
      | inr e ↦ rw e (unfold format_form in refl)
    ]

abbrev keyword_or : String → Option (List Char) → Form
keyword_or value (some name) = keyword (of_chars name)
keyword_or value none = number_or_symbol value (parse_number (chars value))

keyword_name-cons : (s name : List Char) → keyword_name s ≡ some name → s ≡ ":" ∷ name
unfolding keyword_name
keyword_name-cons (c ∷ d ∷ s) name h = elim (Bool-cases (is c b':')) [
  | inl e ↦ let h' = (rw e at h) in cc (is-true c ":" e, h')
  | inr e ↦ let h' = (rw e at h) in cc h'
]
keyword_name-cons _ name h = cc

format-keyword_or :
    (value : String) (indent : ℕ)
    → format_form (keyword_or value (keyword_name (chars value))) indent ≡ chars value
format-keyword_or value indent = elim (Option-cases (keyword_name (chars value))) [
  | inl e ↦ rw e (format-number_or_symbol value indent)
  | inr (name, e) ↦
      rw (e, keyword_name-cons (chars value) name e)
        (unfold format_form in ap (λ t. ":" ∷ t) (chars-of_chars name))
]

-- Whatever a word means, it is written as the same word.
pub format-atom : (value : String) (indent : ℕ) → format_form (atom value) indent ≡ chars value
unfolding atom
format-atom value indent = elim (Bool-cases (value == "true")) [
  | inl e ↦ rw ((eq_iff value "true").0 e) (unfold format_form in refl)
  | inr t ↦ rw t (elim (Bool-cases (value == "false")) [
    | inl e ↦ rw ((eq_iff value "false").0 e) (unfold format_form in refl)
    | inr f ↦ rw f (elim (Bool-cases (value == "nil")) [
      | inl e ↦ rw ((eq_iff value "nil").0 e) (unfold format_form in refl)
      | inr n ↦ rw n (format-keyword_or value indent)
    ])
  ])
]
