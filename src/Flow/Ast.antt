-- ===== src/Flow/Ast.antt =====
-- crates/robine-flow-ast/src/lib.rs: the canonical, versioned form of a Flow document.
pub mod Root
pub mod Accepts
pub mod Exactly
mod Tests
use robine.Prelude.{
  ℕ, suc, ◌≡◌, refl, bind-eq-ok, String, Bool, true, false, Option, none, some, List, [], ◌∷◌, ◌==◌,
  ◌||◌, not, eqb, ltb, if◌then◌else◌, Result, ok, err, ◌>>=◌, ◌>>◌,
}

abbrev pub dsl_name : String
dsl_name = "robine-flow"

abbrev pub dsl_version : ℕ
dsl_version = 1

-- `Forms` is the `Vec<Form>` inside a list.
mutual
  pub data Form : Type 0 where
    list : Forms → Form
    symbol keyword string : String → Form
    bool : Bool → Form
    nil : Form
    number : String → Option String → Form

  pub data Forms : Type 0 where
    nil_forms : Forms
    cons_forms : Form → Forms → Forms

-- the vector as a slice
abbrev pub items : Forms → List Form
items nil_forms = []
items (cons_forms f fs) = f ∷ items fs

-- a slice as a vector
abbrev pub forms : List Form → Forms
forms [] = nil_forms
forms (f ∷ fs) = cons_forms f (forms fs)

pub record FlowAst : Type 0 where
  pub dsl : String
  pub dsl_version : ℕ
  pub root : Form

pub data AstError : Type 0 where
  unknown_dsl : String → AstError
  unsupported_version : ℕ → AstError
  root_must_be_list root_must_start_with_flow root_section_must_be_list : AstError
  root_section_name_missing : AstError
  unknown_root_section root_section_order : String → AstError
  trigger_missing body_missing : AstError

-- `Form::symbol`
abbrev pub as_symbol : Form → Option String
as_symbol (symbol value) = some value
as_symbol _ = none

-- `Form::list`
abbrev pub as_list : Form → Option (List Form)
as_list (list value) = some (items value)
as_list _ = none

-- `Form::is_atom`
abbrev pub is_atom : Form → Bool
is_atom (list _) = false
is_atom _ = true

-- `slice.first()`
abbrev pub first : List Form → Option Form
first [] = none
first (f ∷ _) = some f

-- `items.first().and_then(Form::symbol)`
abbrev pub head_symbol : List Form → Option String
head_symbol [] = none
head_symbol (f ∷ _) = as_symbol f

-- `option == Some(text)`
abbrev pub is_some_text : Option String → String → Bool
is_some_text none t = false
is_some_text (some s) t = s == t

-- the `match name` of `validate_root`
unfoldable pub section_position : String → Option ℕ
section_position name =
    if name == "meta"
    then some 0
    else if name == "inputs"
    then some 1
    else if name == "on"
    then some 2
    else if name == "when"
    then some 3
    else if name == "do"
    then some 4
    else none

-- what the loop of `validate_root` keeps: `expected`, `trigger`, `body`
pub record Sections : Type 0 where
  pub expected : ℕ
  pub trigger : Bool
  pub body : Bool

abbrev pub start : Sections
start = record { expected = 0; trigger = false; body = false }

-- the loop's body, from the test of the section's position on
unfoldable pub place_section : Sections → String → Option ℕ → Result AstError Sections
place_section s name none = err (unknown_root_section name)
place_section s name (some position) =
    if ltb position s.expected
    then err (root_section_order name)
    else ok (record {
      expected = suc position;
      trigger = s.trigger || name == "on";
      body = s.body || name == "do";
    })

unfoldable pub named_section : Sections → Option String → Result AstError Sections
unfolding section_position place_section
named_section s none = err root_section_name_missing
named_section s (some name) = place_section s name (section_position name)

unfoldable pub listed_section : Sections → Option (List Form) → Result AstError Sections
unfolding named_section
listed_section s none = err root_section_must_be_list
listed_section s (some section) = named_section s (head_symbol section)

-- `for section in &forms[1..]`
unfoldable pub read_sections : Sections → List Form → Result AstError Sections
unfolding listed_section
read_sections s [] = ok s
read_sections s (section ∷ rest) = listed_section s (as_list section) >>= λ t. read_sections t rest

-- the two tests after the loop
unfoldable pub require_sections : Sections → Result AstError (Unit {0})
require_sections s =
    if not s.trigger then err trigger_missing else if not s.body then err body_missing else ok tt

unfoldable pub validate_root_items : List Form → Result AstError (Unit {0})
unfolding read_sections require_sections
validate_root_items [] = err root_must_start_with_flow
validate_root_items (head ∷ sections) =
    if is_some_text (as_symbol head) "flow"
    then (do s ← read_sections start sections; require_sections s)
    else err root_must_start_with_flow

unfoldable pub validate_root : Form → Result AstError (Unit {0})
unfolding validate_root_items
validate_root (list value) = validate_root_items (items value)
validate_root _ = err root_must_be_list

-- the structure that `FlowAst::new` builds
abbrev pub wrap : Form → FlowAst
wrap root = record { dsl = dsl_name; dsl_version = dsl_version; root = root }

-- `FlowAst::new`
unfoldable pub new : Form → Result AstError FlowAst
new root = do validate_root root; ok (wrap root)

-- `FlowAst::validate`
unfoldable pub validate : FlowAst → Result AstError (Unit {0})
validate ast =
    if not (ast.dsl == dsl_name)
    then err (unknown_dsl ast.dsl)
    else if not (eqb ast.dsl_version dsl_version)
    then err (unsupported_version ast.dsl_version)
    else validate_root ast.root

pub validate-wrap : (root : Form) → validate (wrap root) ≡ validate_root root
unfolding validate
validate-wrap root = refl

pub new-ok :
    (root : Form) {ast : FlowAst}
    → new root ≡ ok ast
    → (ast ≡ wrap root) × (validate_root root ≡ ok tt)
unfolding new
new-ok root h = let (u, e, k) = bind-eq-ok (validate_root root) (λ _. ok (wrap root)) h in (cc, e)

pub new_of_validate_root : (root : Form) → validate_root root ≡ ok tt → new root ≡ ok (wrap root)
unfolding new
new_of_validate_root root h = rw h
