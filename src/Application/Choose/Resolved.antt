-- ===== src/Application/Choose/Resolved.antt =====
-- crates/robine-application/src/lib.rs: what is compiled has no `choose` left.
use robine.Prelude.{
  ℕ, zero, suc, ◌≡◌, refl, sym, ap, ◌∙◌, subst, String, Bool, true, false, Option, List, [], ◌∷◌,
  ◌++◌, not, Bool-cases, inl, inr, Result, ok, err, ok-injective, get_elem?,
}
use robine.Prelude.Tables.{All}
use robine.Flow.Ast.{
  FlowAst, Form, Forms, list, string, keyword, symbol, number, nil_forms, cons_forms, items, forms,
  as_symbol, head_symbol, is_some_text, new, new-ok, wrap, AstError,
}
use robine.Flow.Float.{F64}
use robine.Application.Errors.{FlowError}
use robine.Application.Choose.{
  choice, prepend, branch_or_nothing, with_choice, take_branch, resolve_items, resolve_sequence,
  resolve_action, resolve_branches, resolve_branch, body_with, rewrite_section, rewrite_sections,
  rewritten, resolve_root, resolve_choose_actions, ast_result,
}
use robine.Store.{Store}

-- An action that is a list and no `choose`
abbrev pub is_settled : Form → Bool
is_settled (list fs) = not (is_some_text (head_symbol (items fs)) "choose")
is_settled _ = false

abbrev pub AreSettled : List Form → Type 0
AreSettled actions = All (λ a. is_settled a ≡ true) actions

-- The actions of every section `do`
abbrev pub IsSettledSection : Form → Type 0
IsSettledSection (list (cons_forms head body)) =
    is_some_text (as_symbol head) "do" ≡ true → AreSettled (items body)
IsSettledSection _ = Unit

abbrev pub IsSettledRoot : Form → Type 0
IsSettledRoot (list fs) = All IsSettledSection (items fs)
IsSettledRoot _ = ⊥

-- What a resolution gives, if it gives actions
abbrev Settles : Result FlowError (List Form) → Type 0
Settles (ok actions) = AreSettled actions
Settles (err e) = Unit

All-append {ℓ κ} :
    {A : Type ℓ} (P : A → Type κ) (xs ys : List A) → All P xs → All P ys → All P (xs ++ ys)
All-append P [] ys h k = k
All-append P (x ∷ xs) ys h k = (h.0, All-append P xs ys h.1 k)

items-forms : (fs : List Form) → items (forms fs) ≡ fs
items-forms [] = refl
items-forms (f ∷ fs) = ap (λ l. f ∷ l) (items-forms fs)

prepend-Settles :
    (a b : Result FlowError (List Form)) → Settles a → Settles b → Settles (prepend a b)
prepend-Settles (err e) b h k = tt
prepend-Settles (ok before) (err e) h k = tt
prepend-Settles (ok before) (ok rest) h k = All-append (λ a. is_settled a ≡ true) before rest h k

branch-Settles :
    (n : ℕ) (branches : List (Result FlowError (List Form)))
    → All Settles branches
    → Settles (branch_or_nothing (get_elem? branches n))
branch-Settles n [] h = tt
branch-Settles zero (b ∷ branches) h = h.0
branch-Settles (suc n) (b ∷ branches) h = branch-Settles n branches h.1

choice-settled : (b : Bool) → is_settled (choice b) ≡ true
choice-settled b = refl

with_choice-Settles :
    (b : Bool) (r : Result FlowError (List Form)) → Settles r → Settles (with_choice b r)
with_choice-Settles b (err e) h = tt
with_choice-Settles b (ok branch) h = (choice-settled b, h)

take_branch-Settles :
    (c : Result FlowError Bool) (branches : List (Result FlowError (List Form)))
    → All Settles branches
    → Settles (take_branch c branches)
take_branch-Settles (err e) branches h = tt
take_branch-Settles (ok true) branches h = with_choice-Settles true _ (branch-Settles 2 branches h)
take_branch-Settles (ok false) branches h =
    with_choice-Settles false _ (branch-Settles 3 branches h)

-- The same of sections
abbrev Rewrites : Result FlowError (List Form) → Type 0
Rewrites (ok sections) = All IsSettledSection sections
Rewrites (err e) = Unit

prepend-Rewrites :
    (a b : Result FlowError (List Form)) → Rewrites a → Rewrites b → Rewrites (prepend a b)
prepend-Rewrites (err e) b h k = tt
prepend-Rewrites (ok before) (err e) h k = tt
prepend-Rewrites (ok before) (ok rest) h k = All-append IsSettledSection before rest h k

-- A document that is accepted has the root that it was made of.
rewritten-IsSettledRoot :
    (sections : List Form) (ast : FlowAst)
    → All IsSettledSection sections
    → ast_result (new (list (forms sections))) ≡ ok ast
    → IsSettledRoot ast.root
rewritten-IsSettledRoot sections ast h e = made (new (list (forms sections))) refl e
  where
    made :
        (r : Result AstError FlowAst)
        → new (list (forms sections)) ≡ r
        → ast_result r ≡ ok ast
        → IsSettledRoot ast.root
    made (err x) known e = cc e
    made (ok a) known e =
        let wrapped : wrap (list (forms sections)) ≡ ast =
          sym ((new-ok (list (forms sections)) known).0) ∙ ok-injective e in
        subst (λ a. IsSettledRoot a.root) wrapped
          (subst (All IsSettledSection) (sym (items-forms sections)) h)

module _ {F J : Type 0} (f : F64 F) (parse_uuid : String → Option String) (s : Store F J) where
  resolve_items-Settles :
      (fs : Forms) (branches : List (Result FlowError (List Form)))
      → All Settles branches
      → Settles (resolve_items f parse_uuid s fs branches)
  resolve_items-Settles fs branches h =
      elim (Bool-cases (is_some_text (head_symbol (items fs)) "choose")) [
        | inl e ↦ rw e (take_branch-Settles _ branches h)
        | inr e ↦ rw e (ap not e, tt)
      ]

  mutual
    unfolding resolve_sequence

    resolve_sequence-Settles : (fs : Forms) → Settles (resolve_sequence f parse_uuid s fs)
    resolve_sequence-Settles nil_forms = tt
    resolve_sequence-Settles (cons_forms action rest) =
        prepend-Settles (resolve_action f parse_uuid s action)
          (resolve_sequence f parse_uuid s rest) (resolve_action-Settles action)
          (resolve_sequence-Settles rest)

    resolve_action-Settles : (form : Form) → Settles (resolve_action f parse_uuid s form)
    resolve_action-Settles (list fs) =
        resolve_items-Settles fs (resolve_branches f parse_uuid s fs) (resolve_branches-Settles fs)
    resolve_action-Settles _ = tt

    resolve_branches-Settles : (fs : Forms) → All Settles (resolve_branches f parse_uuid s fs)
    resolve_branches-Settles nil_forms = tt
    resolve_branches-Settles (cons_forms form rest) =
        (resolve_branch-Settles form, resolve_branches-Settles rest)

    resolve_branch-Settles : (form : Form) → Settles (resolve_branch f parse_uuid s form)
    resolve_branch-Settles (list nil_forms) = tt
    resolve_branch-Settles (list (cons_forms head body)) = resolve_sequence-Settles body
    resolve_branch-Settles _ = tt

  body_with-Rewrites :
      (r : Result FlowError (List Form)) → Settles r → Rewrites (body_with f parse_uuid s r)
  body_with-Rewrites (err e) h = tt
  body_with-Rewrites (ok resolved) h = ((λ _. subst AreSettled (sym (items-forms resolved)) h), tt)

  rewrite_section-Rewrites : (form : Form) → Rewrites (rewrite_section f parse_uuid s form)
  rewrite_section-Rewrites (list nil_forms) = (tt, tt)
  rewrite_section-Rewrites (list (cons_forms head body)) =
      elim (Bool-cases (is_some_text (as_symbol head) "do")) [
        | inl e ↦ rw e (
            body_with-Rewrites (resolve_sequence f parse_uuid s body)
              (resolve_sequence-Settles body))
        | inr e ↦ rw e ((λ d. let clash = sym d ∙ e in cc clash), tt)
      ]
  rewrite_section-Rewrites (symbol _) = (tt, tt)
  rewrite_section-Rewrites (keyword _) = (tt, tt)
  rewrite_section-Rewrites (string _) = (tt, tt)
  rewrite_section-Rewrites (number _ _) = (tt, tt)
  rewrite_section-Rewrites (Form.bool _) = (tt, tt)
  rewrite_section-Rewrites Form.nil = (tt, tt)

  rewrite_sections-Rewrites : (fs : Forms) → Rewrites (rewrite_sections f parse_uuid s fs)
  rewrite_sections-Rewrites nil_forms = tt
  rewrite_sections-Rewrites (cons_forms form rest) =
      prepend-Rewrites (rewrite_section f parse_uuid s form) (rewrite_sections f parse_uuid s rest)
        (rewrite_section-Rewrites form) (rewrite_sections-Rewrites rest)

  resolve_root-IsSettledRoot :
      (r : Result FlowError (List Form)) (ast : FlowAst)
      → Rewrites r
      → rewritten f parse_uuid s r ≡ ok ast
      → IsSettledRoot ast.root
  resolve_root-IsSettledRoot (err x) ast h e = cc e
  resolve_root-IsSettledRoot (ok sections) ast h e = rewritten-IsSettledRoot sections ast h e

  -- If `resolve_choose_actions` returns a document, no action of its sections `do` is a `choose`, and each
  -- is a list.
  pub resolve_choose_actions-IsSettledRoot :
      (ast resolved : FlowAst)
      → resolve_choose_actions f parse_uuid s ast ≡ ok resolved
      → IsSettledRoot resolved.root
  unfolding resolve_choose_actions
  resolve_choose_actions-IsSettledRoot ast resolved e = at_root ast.root e
    where
      at_root :
          (root : Form)
          → resolve_root f parse_uuid s root ≡ ok resolved
          → IsSettledRoot resolved.root
      at_root (list fs) e =
          resolve_root-IsSettledRoot (rewrite_sections f parse_uuid s fs) resolved
            (rewrite_sections-Rewrites fs) e
      at_root _ e = cc e
