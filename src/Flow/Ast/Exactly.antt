-- ===== src/Flow/Ast/Exactly.antt =====
-- crates/robine-flow-ast/src/lib.rs: the two directions of what `validate_root` accepts.
use robine.Prelude.{
  ℕ, zero, suc, ◌≤◌, ◌≡◌, refl, sym, ap, subst, ◌∙◌, ◌↔◌, ◌⊎◌, inl, inr, String, Bool, true, false,
  ◌||◌, ◌==◌, eq_iff, some, List, [], ◌∷◌, arith, ok, bind-eq-ok, if-eq-ok, ok-injective, ltb, drop,
}
use robine.Flow.Ast.{
  Form, list, symbol, items, as_symbol, as_list, is_some_text, Sections, start, section_position,
  place_section, named_section, listed_section, read_sections, require_sections,
  validate_root_items, validate_root, root_must_start_with_flow,
}
use robine.Flow.Ast.Root.{
  IsSection, Follows, no_sections, passed_over, named, Has, root_sections, IsFlowRoot, placed,
  listed_section-IsPlaced,
}
use robine.Flow.Ast.Accepts.{read_sections-Follows, flag-Has, or-left, or-right}

listed_section-placed :
    (s : Sections) (form : Form) (name : String) (p : ℕ)
    → IsSection form name
    → section_position name ≡ some p
    → s.expected ≤ p
    → listed_section s (as_list form) ≡ ok (placed s name p)
unfolding listed_section named_section place_section
listed_section-placed s form name p (rest, here) at le =
    let late : ltb p s.expected ≡ false = ground arith in rw (here, at, late)

-- Where a name stands, and what is left behind it
name-at :
    (e : ℕ) (name : String) (names : List String)
    → name ∷ names ≡ drop e root_sections
    → (section_position name ≡ some e) × (names ≡ drop (suc e) root_sections)
unfolding section_position
name-at zero name names h = let n : name ≡ "meta" = cc h in (rw n, cc h)
name-at (suc zero) name names h = let n : name ≡ "inputs" = cc h in (rw n, cc h)
name-at (suc (suc zero)) name names h = let n : name ≡ "on" = cc h in (rw n, cc h)
name-at (suc (suc (suc zero))) name names h = let n : name ≡ "when" = cc h in (rw n, cc h)
name-at (suc (suc (suc (suc zero)))) name names h = let n : name ≡ "do" = cc h in (rw n, cc h)
name-at (suc (suc (suc (suc (suc zero))))) name names h = cc h
name-at (suc (suc (suc (suc (suc (suc e)))))) name names h = cc h

Follows-read_sections :
    (s : Sections) (e : ℕ) (names : List String) (sections : List Form)
    → Follows names sections
    → names ≡ drop e root_sections
    → s.expected ≤ e
    → (t : Sections) × (read_sections s sections ≡ ok t)
unfolding read_sections
Follows-read_sections s e names [] no_sections at le = (s, refl)
Follows-read_sections s e (name ∷ names) sections (passed_over more) at le =
    Follows-read_sections s (suc e) names sections more (name-at e name names at).1
      (omega (arith, le))
Follows-read_sections s e (name ∷ names) (section ∷ rest) (named here more) at le =
    let (position, left) = name-at e name names at in
    let (t, read) =
      Follows-read_sections (placed s name e) (suc e) names rest more left (omega arith) in
    (t, rw (listed_section-placed s section name e here position le) read)

module _ (flag : Sections → Bool) (word : String)
    (step : (s : Sections) (name : String) (p : ℕ)
      → flag (placed s name p) ≡ (flag s || name == word)) where
  Has-flag :
      (s t : Sections) (sections : List Form)
      → read_sections s sections ≡ ok t
      → (flag s ≡ true) ⊎ Has word sections
      → flag t ≡ true
  unfolding read_sections
  Has-flag s t [] e (inl h) = subst (λ v. flag v ≡ true) (ok-injective e) h
  Has-flag s t [] e (inr h) = absurd h
  Has-flag s t (section ∷ rest) e h =
      let (u, first, others) = bind-eq-ok (listed_section s (as_list section)) _ e in
      let p = listed_section-IsPlaced s u section (as_list section) refl first in
      let now = λ (k : (flag s || p.name == word) ≡ true).
        sym (ap flag p.same) ∙ step s p.name p.position ∙ k in
      Has-flag u t rest others (elim h [
        | inl before ↦ inl (now (or-left (flag s) (p.name == word) before))
        | inr has ↦ elim has [
          | inl here ↦
              let same : p.name ≡ word = (let both = sym p.section.1 ∙ here.1 in cc both) in
              inl (now (or-right (flag s) (p.name == word) ((eq_iff p.name word).1 same)))
          | inr later ↦ inr later
        ]
      ])

require_sections-ok :
    (s : Sections) → require_sections s ≡ ok tt → (s.trigger ≡ true) × (s.body ≡ true)
unfolding require_sections
require_sections-ok s e = ground arith

ok-require_sections : (s : Sections) → s.trigger ≡ true → s.body ≡ true → require_sections s ≡ ok tt
unfolding require_sections
ok-require_sections s trigger body = rw (trigger, body)

as_symbol-is :
    (form : Form) (name : String) → is_some_text (as_symbol form) name ≡ true → form ≡ symbol name
as_symbol-is (symbol value) name e = ap symbol ((eq_iff value name).0 e)
as_symbol-is (list _) name e = cc
as_symbol-is (Form.keyword _) name e = cc
as_symbol-is (Form.string _) name e = cc
as_symbol-is (Form.bool _) name e = cc
as_symbol-is Form.nil name e = cc
as_symbol-is (Form.number _ _) name e = cc

AreSections-root :
    (forms : List Form)
    → validate_root_items forms ≡ ok tt
    → (sections : List Form) × (forms ≡ symbol "flow" ∷ sections)
      × Follows root_sections sections
      × Has "on" sections
      × Has "do" sections
unfolding validate_root_items
AreSections-root [] e = cc
AreSections-root (head ∷ sections) e =
    let (is, e₁) = if-eq-ok (is_some_text (as_symbol head) "flow") root_must_start_with_flow e in
    let (t, read, required) = bind-eq-ok (read_sections start sections) _ e₁ in
    let (trigger, body) = require_sections-ok t required in
    (
      sections,
      ap (λ f. f ∷ sections) (as_symbol-is head "flow" is),
      read_sections-Follows start t sections read,
      present (flag-Has (λ s. s.trigger) "on" (λ s name p. refl) start t sections read trigger),
      present (flag-Has (λ s. s.body) "do" (λ s name p. refl) start t sections read body),
    )
  where
    present : {A : Type 0} → (false ≡ true) ⊎ A → A
    present (inl e) = cc e
    present (inr a) = a

root_items-ok :
    (sections : List Form)
    → Follows root_sections sections
    → Has "on" sections
    → Has "do" sections
    → validate_root_items (symbol "flow" ∷ sections) ≡ ok tt
unfolding validate_root_items
root_items-ok sections follows on do_section =
    let (t, read) =
      Follows-read_sections start 0 root_sections sections follows refl (omega arith) in
    let trigger =
      Has-flag (λ s. s.trigger) "on" (λ s name p. refl) start t sections read (inr on) in
    let body =
      Has-flag (λ s. s.body) "do" (λ s name p. refl) start t sections read (inr do_section) in
    rw read (ok-require_sections t trigger body)

validate_root_sound : (root : Form) → validate_root root ≡ ok tt → IsFlowRoot root
unfolding validate_root
validate_root_sound (list forms) e =
    let (sections, same, follows, on, do_section) = AreSections-root (items forms) e in
    (sections, ap some same, follows, on, do_section)
validate_root_sound _ e = cc

validate_root_complete : (root : Form) → IsFlowRoot root → validate_root root ≡ ok tt
unfolding validate_root
validate_root_complete (list forms) (sections, same, follows, on, do_section) =
    let same' : items forms ≡ symbol "flow" ∷ sections = cc same in
    rw same' (root_items-ok sections follows on do_section)
validate_root_complete _ (sections, same, _, _, _) = cc same

-- `validate_root` accepts a form exactly if it is a list of the symbol `flow` and sections, where each
-- section is a list headed by one of `meta`, `inputs`, `on`, `when` and `do`, each of them at most once
-- and in this order, and `on` and `do` are there.
pub validate_root-IsFlowRoot : (root : Form) → (validate_root root ≡ ok tt) ↔ IsFlowRoot root
validate_root-IsFlowRoot root = (validate_root_sound root, validate_root_complete root)
