-- ===== src/Flow/Ast/Accepts.antt =====
-- crates/robine-flow-ast/src/lib.rs: `validate_root` accepts the roots of the right shape, and no others.
use robine.Prelude.{
  ℕ, zero, suc, ◌≤◌, ◌≡◌, refl, sym, ap, subst, ◌∙◌, ◌⊎◌, inl, inr, String, Bool, true, false, ◌||◌,
  ◌==◌, eq_iff, Option, some, List, [], ◌∷◌, arith, ok, bind-eq-ok, if-eq-known, ok-injective,
  get_elem?, drop,
}
use robine.Flow.Ast.{Form, as_list, Sections, section_position, listed_section, read_sections}
use robine.Flow.Ast.Root.{
  IsSection, Follows, no_sections, passed_over, named, Has, root_sections, placed,
  listed_section-IsPlaced,
}

position-is :
    (name word : String) (k p : ℕ)
    → get_elem? root_sections k ≡ some word
    → (name == word) ≡ true
    → ◌≡◌ {A = Option ℕ} (some k) (some p)
    → get_elem? root_sections p ≡ some name
position-is name word k p at n e =
    let k-eq-p : k ≡ p = cc e in
    subst (λ i. get_elem? root_sections i ≡ some name) k-eq-p
      (at ∙ ap some (sym ((eq_iff name word).0 n)))

section_position-name :
    (name : String) (p : ℕ) → section_position name ≡ some p → get_elem? root_sections p ≡ some name
unfolding section_position
section_position-name name p e = elim (if-eq-known (name == "meta") e) [
  | inl (n, e) ↦ position-is name "meta" 0 p refl n e
  | inr (_, e) ↦ elim (if-eq-known (name == "inputs") e) [
    | inl (n, e) ↦ position-is name "inputs" 1 p refl n e
    | inr (_, e) ↦ elim (if-eq-known (name == "on") e) [
      | inl (n, e) ↦ position-is name "on" 2 p refl n e
      | inr (_, e) ↦ elim (if-eq-known (name == "when") e) [
        | inl (n, e) ↦ position-is name "when" 3 p refl n e
        | inr (_, e) ↦ elim (if-eq-known (name == "do") e) [
          | inl (n, e) ↦ position-is name "do" 4 p refl n e
          | inr (_, e) ↦ cc e
        ]
      ]
    ]
  ]
]

-- A section may stand anywhere among the names that are left.
Follows-at :
    (names : List String) (k e : ℕ) (name : String) (section : Form) (rest : List Form)
    → get_elem? names k ≡ some name
    → e ≤ k
    → IsSection section name
    → Follows (drop (suc k) names) rest
    → Follows (drop e names) (section ∷ rest)
Follows-at [] k e name section rest at le here more = cc at
Follows-at (word ∷ names) zero e name section rest at le here more =
    let e-eq : 0 ≡ e = omega (arith, le) in
    let same : name ≡ word = cc at in
    subst (λ i. Follows (drop i (word ∷ names)) (section ∷ rest)) e-eq
      (named (subst (IsSection section) same here) more)
Follows-at (word ∷ names) (suc k) zero name section rest at le here more =
    passed_over (Follows-at names k zero name section rest at (omega arith) here more)
Follows-at (word ∷ names) (suc k) (suc e) name section rest at le here more =
    Follows-at names k e name section rest at (omega (arith, le)) here more

pub read_sections-Follows :
    (s t : Sections) (sections : List Form)
    → read_sections s sections ≡ ok t
    → Follows (drop s.expected root_sections) sections
unfolding read_sections
read_sections-Follows s t [] e = no_sections
read_sections-Follows s t (section ∷ rest) e =
    let (u, first, others) = bind-eq-ok (listed_section s (as_list section)) _ e in
    let p = listed_section-IsPlaced s u section (as_list section) refl first in
    Follows-at root_sections p.position s.expected p.name section rest
      (section_position-name p.name p.position p.found) p.ordered p.section
      (subst (λ (v : Sections). Follows (drop v.expected root_sections) rest) (sym p.same)
        (read_sections-Follows u t rest others))

or-true : (a b : Bool) → (a || b) ≡ true → (a ≡ true) ⊎ (b ≡ true)
or-true true b h = inl refl
or-true false b h = inr h

pub or-left : (a b : Bool) → a ≡ true → (a || b) ≡ true
or-left true b h = refl
or-left false b h = cc

pub or-right : (a b : Bool) → b ≡ true → (a || b) ≡ true
or-right true b h = refl
or-right false b h = h

-- The flags `trigger` and `body` say whether their section was read.
module _ (flag : Sections → Bool) (word : String)
    (step : (s : Sections) (name : String) (p : ℕ)
      → flag (placed s name p) ≡ (flag s || name == word)) where
  pub flag-Has :
      (s t : Sections) (sections : List Form)
      → read_sections s sections ≡ ok t
      → flag t ≡ true
      → (flag s ≡ true) ⊎ Has word sections
  unfolding read_sections
  flag-Has s t [] e h = inl (subst (λ v. flag v ≡ true) (sym (ok-injective e)) h)
  flag-Has s t (section ∷ rest) e h =
      let (u, first, others) = bind-eq-ok (listed_section s (as_list section)) _ e in
      let p = listed_section-IsPlaced s u section (as_list section) refl first in
      elim (flag-Has u t rest others h) [
        | inl now ↦
            elim (or-true (flag s) (p.name == word)
              (sym (step s p.name p.position) ∙ ap flag p.same ∙ now)) [
                | inl before ↦ inl before
                | inr n ↦ inr (inl (subst (IsSection section) ((eq_iff p.name word).0 n) p.section))
              ]
        | inr later ↦ inr (inr later)
      ]
