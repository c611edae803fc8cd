-- ===== src/Flow/Syntax/Lexer/Word.antt =====
-- crates/robine-flow-syntax/src/lib.rs: the texts that `lex` takes as one atom.
use robine.Prelude.{◌≡◌, refl, Char, Bool, true, false, List, [], ◌∷◌, ◌&&◌, not}
use robine.Flow.Syntax.Token.{Class, word, class_of, ends_atom}

-- A text before which an atom ends.
abbrev pub breaks : List Char → Bool
breaks [] = true
breaks (c ∷ s) = ends_atom c

-- Characters that the loop of an atom takes.
abbrev pub continues : List Char → Bool
continues [] = true
continues (c ∷ w) = not (ends_atom c) && continues w

abbrev pub starts_atom : Class → Bool
starts_atom word = true
starts_atom _ = false

-- A text that is one atom.
abbrev pub is_word : List Char → Bool
is_word [] = false
is_word (c ∷ w) = starts_atom (class_of c) && continues w

pub starts_atom-true : (k : Class) → starts_atom k ≡ true → k ≡ word
starts_atom-true word h = refl
starts_atom-true _ h = cc
