-- ===== src/Flow/Check.antt =====
-- crates/robine-flow-check/src/lib.rs: the checker, which collects diagnostics. A function that pushes
-- diagnostics returns the ones that it pushes.
pub mod Supported
pub mod Compiled
pub mod Plans
pub mod Commands
mod Tests
use robine.Prelude.{
  ℕ, suc, ◌+◌, String, ◌<>◌, decimal, Bool, true, false, Option, none, some, List, [], ◌∷◌, ◌++◌,
  ◌==◌, ◌&&◌, ◌||◌, not, eqb, ltb, if◌then◌else◌, Result, ok, err, length, get_elem?, drop,
}
use robine.Flow.Ast.{
  FlowAst, Form, Forms, list, keyword, number, nil_forms, cons_forms, items, head_symbol,
  is_some_text, AstError, validate,
}
use robine.Flow.Syntax.Parser.{error_message}
use robine.Flow.View.{list_of, string_of, keyword_of}

pub record CheckDiagnostic : Type 0 where
  pub code : String
  pub message : String
  pub path : String

-- `diag`
abbrev pub diag : String → String → String → CheckDiagnostic
diag code message path = record { code = code; message = message; path = path }

-- `if` around a `push`
abbrev pub push_if : Bool → CheckDiagnostic → List CheckDiagnostic
push_if b d = if b then d ∷ [] else []

-- `entity_id`
abbrev entity_in_list : Option (List Form) → Option String
entity_in_list none = none
entity_in_list (some forms) =
    if is_some_text (head_symbol forms) "entity" then string_of (get_elem? forms 1) else none

abbrev pub entity_id : Option Form → Option String
entity_id form = entity_in_list (list_of form)

-- `left != right` on two units
abbrev same_unit : Option String → Option String → Bool
same_unit none none = true
same_unit (some a) (some b) = a == b
same_unit _ _ = false

abbrev compare_units : Option Form → Option Form → String → List CheckDiagnostic
compare_units (some (number _ left)) (some (number _ right)) path =
    push_if (not (same_unit left right))
      (diag "flow.unit_mismatch" "comparison operands require compatible units" path)
compare_units _ _ path = []

unfoldable pub validate_comparison : List Form → String → List CheckDiagnostic
validate_comparison forms path =
    if eqb (length forms) 3
    then compare_units (get_elem? forms 1) (get_elem? forms 2) path
    else diag "flow.comparison_arity" "comparison requires exactly two operands" path ∷ []

-- A `HashSet` is only asked what it contains.
abbrev pub Capabilities : Type 0
Capabilities = String → Bool

-- the flags of the loop in `validate_command`
pub record Flags : Type 0 where
  pub brightness : Bool
  pub confirmation : Bool
  pub reported_confirmation : Bool
  pub timeout : Bool

abbrev pub no_flags : Flags
no_flags = record {
  brightness = false;
  confirmation = false;
  reported_confirmation = false;
  timeout = false;
}

-- `matches!(items[index + 1], Form::Number { ref unit, .. } if …)`
abbrev is_percentage : Form → Bool
is_percentage (number _ (some unit)) = unit == "%"
is_percentage _ = false

abbrev is_duration : Form → Bool
is_duration (number _ (some unit)) =
    unit == "ms" || unit == "s" || unit == "m" || unit == "h" || unit == "d"
is_duration _ = false

abbrev confirmation_diag : String → CheckDiagnostic
confirmation_diag path =
    diag "flow.command_confirmation" "confirm must be :transport, :none or :reported" path

-- `match &items[index + 1]` of `:confirm`
unfoldable pub check_confirm : Flags → Form → String → Flags × List CheckDiagnostic
check_confirm flags (keyword value) path =
    if value == "transport" || value == "none"
    then (record flags { confirmation = true }, [])
    else if value == "reported"
    then (record flags { confirmation = true; reported_confirmation = true }, [])
    else (flags, confirmation_diag path ∷ [])
check_confirm flags _ path = (flags, confirmation_diag path ∷ [])

-- `match key.as_str()`
unfoldable pub check_option :
    Capabilities → Flags → String → Form → String → Flags × List CheckDiagnostic
unfolding check_confirm
check_option contains flags key value path =
    if key == "brightness" && not flags.brightness
    then (
      record flags { brightness = true },
      push_if (not (contains "light.brightness"))
            (diag "flow.command_unsupported" "entity does not support light.brightness" path)
          ++ push_if (not (is_percentage value))
              (diag "flow.brightness_unit" "brightness must use a percentage" path),
    )
    else if key == "confirm" && not flags.confirmation
    then check_confirm flags value path
    else if key == "timeout" && not flags.timeout
    then (
      record flags { timeout = is_duration value },
      push_if (not (is_duration value))
          (diag "flow.command_confirmation" "timeout must be a positive duration" path),
    )
    else (flags, diag "flow.command_option" "invalid or repeated command option" path ∷ [])

-- the `while` over the pairs: the flags, whether forms are left over, and the diagnostics
unfoldable pub check_options :
    Capabilities → Flags → List Form → String → Flags × Bool × List CheckDiagnostic
check_options contains flags [] path = (flags, false, [])
check_options contains flags (_ ∷ []) path = (flags, true, [])
check_options contains flags (keyword key ∷ value ∷ rest) path =
    let (next, pushed) = check_option contains flags key value path in
    let (last, left, more) = check_options contains next rest path in (last, left, pushed ++ more)
check_options contains flags (_ ∷ _ ∷ _) path =
    (flags, true, diag "flow.command_option" "invalid command option" path ∷ [])

-- `match verb`
abbrev pub is_switch_verb : Option String → Bool
is_switch_verb none = false
is_switch_verb (some verb) = verb == "turn-on" || verb == "turn-off"

abbrev pub check_verb : Capabilities → Option String → String → List CheckDiagnostic
check_verb contains verb path =
    if is_switch_verb verb
    then push_if (not (contains "switch"))
        (diag "flow.command_unsupported" "entity does not support switch" path)
    else diag "flow.command_verb" "unsupported command verb" path ∷ []

-- what follows the loop; fewer than three items leave `index` behind the end, too
abbrev pub check_end : ℕ → String → Flags × Bool × List CheckDiagnostic → List CheckDiagnostic
check_end count path (flags, left, pushed) =
    pushed
    ++ push_if (left || ltb count 3)
        (diag "flow.command_option" "command options must be pairs" path)
    ++ push_if (flags.reported_confirmation && (flags.brightness || not flags.timeout)) (
        diag "flow.command_confirmation"
          "reported confirmation requires a timeout and cannot be combined with brightness" path)

module _ (capabilities_for : String → Option Capabilities) where
  abbrev pub check_known : List Form → String → Option Capabilities → List CheckDiagnostic
  check_known forms path none =
      diag "flow.unknown_entity" "referenced entity does not exist" path ∷ []
  check_known forms path (some contains) =
      check_verb contains (keyword_of (get_elem? forms 2)) path
      ++ check_end (length forms) path (check_options contains no_flags (drop 3 forms) path)

  abbrev pub check_target : List Form → String → Option String → List CheckDiagnostic
  check_target forms path none =
      diag "flow.command_target" "command requires an explicit entity reference" path ∷ []
  check_target forms path (some entity) = check_known forms path (capabilities_for entity)

  unfoldable pub validate_command : List Form → String → List CheckDiagnostic
  validate_command forms path = check_target forms path (entity_id (get_elem? forms 1))

  -- `matches!(head, Some("<" | "<=" | ">" | ">="))`
  abbrev is_comparison : Option String → Bool
  is_comparison none = false
  is_comparison (some head) = head == "<" || head == "<=" || head == ">" || head == ">="

  -- the two tests of the head in `visit`
  unfoldable pub check_head : List Form → String → List CheckDiagnostic
  check_head forms path =
      (if is_some_text (head_symbol forms) "command" then validate_command forms path else [])
      ++ (if is_comparison (head_symbol forms) then validate_comparison forms path else [])

  unfoldable mutual
    pub visit : Form → String → List CheckDiagnostic
    visit (list forms) path = check_head (items forms) path ++ visit_children 0 forms path
    visit _ path = []

    -- the loop over the children, from an index on
    pub visit_children : ℕ → Forms → String → List CheckDiagnostic
    visit_children index nil_forms path = []
    visit_children index (cons_forms child rest) path =
        visit child (path <> "/" <> decimal index) ++ visit_children (index + 1) rest path

  -- `root_error`, or the visit of a valid root
  abbrev pub check_root : FlowAst → Result AstError (Unit {0}) → List CheckDiagnostic
  check_root ast (err e) = diag "flow.root" (error_message e) "$" ∷ []
  check_root ast (ok _) = visit ast.root "$"

  unfoldable pub validate_flow : FlowAst → List CheckDiagnostic
  validate_flow ast = check_root ast (validate ast)
