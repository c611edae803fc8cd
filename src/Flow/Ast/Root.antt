-- ===== src/Flow/Ast/Root.antt =====
-- crates/robine-flow-ast/src/lib.rs: which roots `validate_root` accepts.
use robine.Prelude.{
  ℕ, suc, ◌≤◌, ◌≡◌, refl, ap, ◌∙◌, ◌⊎◌, inl, inr, String, ◌||◌, ◌==◌, Option, none, some, List, [],
  ◌∷◌, arith, ok, if-eq-known, ok-injective, ltb,
}
use robine.Flow.Ast.{
  Form, list, symbol, as_list, head_symbol, Sections, section_position, place_section,
  named_section, listed_section,
}

-- A form that is a list headed by a name
abbrev pub IsSection : Form → String → Type 0
IsSection form name = (rest : List Form) × (as_list form ≡ some (symbol name ∷ rest))

-- Sections that have some of the names, each once and in their order.
pub data Follows : List String → List Form → Type 0 where
  no_sections : {names : List String} → Follows names []
  passed_over :
      {name : String} {names : List String} {sections : List Form}
      → Follows names sections
      → Follows (name ∷ names) sections
  named :
      {name : String} {names : List String} {section : Form} {sections : List Form}
      → IsSection section name
      → Follows names sections
      → Follows (name ∷ names) (section ∷ sections)

abbrev pub Has : String → List Form → Type 0
Has name [] = ⊥
Has name (section ∷ rest) = IsSection section name ⊎ Has name rest

abbrev pub root_sections : List String
root_sections = "meta" ∷ "inputs" ∷ "on" ∷ "when" ∷ "do" ∷ []

-- The document that a root has to be
abbrev pub IsFlowRoot : Form → Type 0
IsFlowRoot root =
    (sections : List Form) × (as_list root ≡ some (symbol "flow" ∷ sections))
    × Follows root_sections sections
    × Has "on" sections
    × Has "do" sections

-- what the loop keeps after a section
abbrev pub placed : Sections → String → ℕ → Sections
placed s name position = record {
  expected = suc position;
  trigger = s.trigger || name == "on";
  body = s.body || name == "do";
}

-- One round of the loop that is passed
pub record IsPlaced (s : Sections) (form : Form) (u : Sections) : Type 0 where
  pub name : String
  pub position : ℕ
  pub section : IsSection form name
  pub found : section_position name ≡ some position
  pub ordered : s.expected ≤ position
  pub same : placed s name position ≡ u

head_symbol-named :
    (forms : List Form) (name : String)
    → head_symbol forms ≡ some name
    → (rest : List Form) × (forms ≡ symbol name ∷ rest)
head_symbol-named (symbol value ∷ rest) name e = (rest, cc e)
head_symbol-named [] name e = cc
head_symbol-named (list _ ∷ rest) name e = cc
head_symbol-named (Form.keyword _ ∷ rest) name e = cc
head_symbol-named (Form.string _ ∷ rest) name e = cc
head_symbol-named (Form.bool _ ∷ rest) name e = cc
head_symbol-named (Form.nil ∷ rest) name e = cc
head_symbol-named (Form.number _ _ ∷ rest) name e = cc

place_section-IsPlaced :
    (s u : Sections) (form : Form) (name : String) (o : Option ℕ)
    → IsSection form name
    → section_position name ≡ o
    → place_section s name o ≡ ok u
    → IsPlaced s form u
unfolding place_section
place_section-IsPlaced s u form name none here at e = cc
place_section-IsPlaced s u form name (some position) here at e =
    elim (if-eq-known (ltb position s.expected) e) [
      | inl (_, e) ↦ cc e
      | inr (late, e) ↦ record {
        name = name;
        position = position;
        section = here;
        found = at;
        ordered = ground arith;
        same = ok-injective e;
      }
    ]

named_section-IsPlaced :
    (s u : Sections) (form : Form) (forms : List Form) (o : Option String)
    → as_list form ≡ some forms
    → head_symbol forms ≡ o
    → named_section s o ≡ ok u
    → IsPlaced s form u
unfolding named_section
named_section-IsPlaced s u form forms none here at e = cc
named_section-IsPlaced s u form forms (some name) here at e =
    let (rest, whole) = head_symbol-named forms name at in
    place_section-IsPlaced s u form name (section_position name) (rest, here ∙ ap some whole) refl e

pub listed_section-IsPlaced :
    (s u : Sections) (form : Form) (o : Option (List Form))
    → as_list form ≡ o
    → listed_section s o ≡ ok u
    → IsPlaced s form u
unfolding listed_section
listed_section-IsPlaced s u form none here e = cc
listed_section-IsPlaced s u form (some forms) here e =
    named_section-IsPlaced s u form forms (head_symbol forms) here refl e
