-- ===== src/Flow/Ast/Tests.antt =====
-- The validation of roots at concrete forms.
use robine.Prelude.{◌≡◌, ◌↔◌, refl, ok, err, [], ◌∷◌}
use robine.Flow.Ast.{list, symbol, forms, validate_root, root_section_order}
use robine.Flow.Ast.Root.{IsFlowRoot}
use robine.Flow.Ast.Exactly.{validate_root-IsFlowRoot}
use robine.Flow.Samples.{sample}

sections_swapped :
    validate_root (
      list (
        forms
          (symbol "flow" ∷ list (forms (symbol "do" ∷ [])) ∷ list (forms (symbol "on" ∷ [])) ∷ [])))
    ≡ err (root_section_order "on")
unfolding validate_root
sections_swapped = refl

validate_root-IsFlowRoot_example : (validate_root sample.root ≡ ok tt) ↔ IsFlowRoot sample.root
validate_root-IsFlowRoot_example = validate_root-IsFlowRoot sample.root
