-- ===== src/Application/Meta.antt =====
-- crates/robine-application/src/lib.rs: `validate_meta_syntax`, the check of a flow's `meta` section.
pub mod Policy
mod Tests
use robine.Prelude.{
  ℕ, ◌%◌, String, Bool, true, false, Option, none, some, List, [], ◌∷◌, ◌==◌, ◌&&◌, ◌||◌,
  if◌then◌else◌, Result, ok, err, eqb, length,
}
use robine.Flow.Ast.{FlowAst, Form, keyword, string, bool, number, as_list}
use robine.Flow.Float.{F64}
use robine.Flow.View.{find_section, tail_of, parse_u8}
use robine.Flow.Plan.Options.{is_none}
use robine.Flow.Plan.Compile.{runs_of, root_forms}
use robine.Flow.Check.{diag}
use robine.Application.Errors.{FlowError}

abbrev pub invalid_meta_diagnostic : String → FlowError
invalid_meta_diagnostic message = FlowError.validation (diag "flow.meta" message "$/meta" ∷ [])

-- the arms of `match key.as_str()`
abbrev is_text : Form → Bool
is_text (string _) = true
is_text _ = false

abbrev is_truth : Form → Bool
is_truth (bool _) = true
is_truth _ = false

abbrev is_mode : Form → Bool
is_mode (keyword value) = value == "single" || value == "restart" || value == "queue"
is_mode _ = false

abbrev pub is_some : Option ℕ → Bool
is_some none = false
is_some (some _) = true

abbrev is_max_runs : Form → Bool
is_max_runs (number literal none) = is_some (runs_of (parse_u8 literal))
is_max_runs _ = false

-- a `HashSet` of keys as the list of them
unfoldable pub is_seen : List String → String → Bool
is_seen [] key = false
is_seen (k ∷ seen) key = k == key || is_seen seen key

module _ {F : Type 0} (f : F64 F) where
  open f use {parse_f64, from_nat, lt_f64}

  -- `is_ok_and(|value| value > 0.0)`
  abbrev is_positive : Option F → Bool
  is_positive none = false
  is_positive (some x) = lt_f64 (from_nat 0) x

  abbrev is_runtime : Form → Bool
  is_runtime (number literal (some unit)) =
      (unit == "ms" || unit == "s" || unit == "m" || unit == "h" || unit == "d")
      && is_positive (parse_f64 literal)
  is_runtime _ = false

  unfoldable pub is_valid : String → Form → Bool
  is_valid key value =
      if key == "name" || key == "description"
      then is_text value
      else if key == "mode"
      then is_mode value
      else if key == "ignore-self" || key == "enabled"
      then is_truth value
      else if key == "max-runs"
      then is_max_runs value
      else if key == "max-runtime"
      then is_runtime value
      else false

  -- the loop over the chunks of two; before it, the number of forms is tested, so no form is left alone
  unfoldable pub check_pairs : List String → List Form → Result FlowError (Unit {0})
  check_pairs seen [] = ok tt
  check_pairs seen (keyword key ∷ value ∷ rest) =
      let others = check_pairs (key ∷ seen) rest in
      if is_seen seen key
      then err (invalid_meta_diagnostic "meta keys must not be repeated")
      else if is_valid key value
      then others
      else err (invalid_meta_diagnostic "invalid or unsupported meta value")
  check_pairs seen _ = err (invalid_meta_diagnostic "meta keys must be keywords")

  abbrev pub check_meta : Option (List Form) → Result FlowError (Unit {0})
  check_meta none = ok tt
  check_meta (some meta) =
      if eqb (length meta % 2) 0
      then err (invalid_meta_diagnostic "meta requires keyword/value pairs")
      else check_pairs [] (tail_of meta)

  unfoldable pub validate_meta_syntax : FlowAst → Result FlowError (Unit {0})
  validate_meta_syntax ast = check_meta (find_section "meta" (root_forms (as_list ast.root)))
