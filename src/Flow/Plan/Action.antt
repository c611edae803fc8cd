-- ===== src/Flow/Plan/Action.antt =====
-- crates/robine-flow-plan/src/lib.rs: `compile_action`, one form of the body.
pub mod Bounds
use robine.Prelude.{
  ℕ, String, Bool, true, false, Option, none, some, List, [], ◌∷◌, ◌++◌, ◌==◌, ◌&&◌, ◌||◌,
  if◌then◌else◌, Result, ok, err, ◌>>=◌, ok_or, get_elem?, drop, length, eqb, leb,
}
use robine.Flow.Ast.{
  Form, Forms, list, symbol, keyword, string, number, nil_forms, cons_forms, items, as_list,
  head_symbol, is_some_text,
}
use robine.Flow.Float.{F64}
use robine.Flow.View.{list_of, get_in, string_of, keyword_of, non_empty, parse_u8}
use robine.Flow.Plan.{
  AwaitTrigger, PlannedAction, command, wait, await, audit, set_automation_enabled, retry,
  PlanError, unsupported_action, invalid_command, invalid_wait, invalid_automation_target,
  invalid_await, invalid_retry,
}
use robine.Flow.Plan.Duration.{duration_milliseconds}
use robine.Flow.Plan.Options.{command_options}
use robine.Flow.Plan.Await.{entity_in, compile_await_trigger}

-- `is_retryable`
abbrev pub is_retryable : {F : Type 0} → PlannedAction F → Bool
is_retryable (command _ _ _ _) = true
is_retryable (audit _) = true
is_retryable (set_automation_enabled _ _) = true
is_retryable _ = false

abbrev push_back : {A : Type 0} → A → Option (List A × A) → Option (List A × A)
push_back x none = none
push_back x (some (ys, y)) = some (x ∷ ys, y)

-- `nested.pop()`, with what is left
unfoldable pub pop : {A : Type 0} → List A → Option (List A × A)
pop [] = none
pop (x ∷ []) = some ([], x)
pop (x ∷ xs) = push_back x (pop xs)

-- the target `(flow "…")` of `activate` and `deactivate`
abbrev pub flow_target : Option (List Form) → Option String
flow_target none = none
flow_target (some target) =
    if is_some_text (head_symbol target) "flow"
    then non_empty (string_of (get_elem? target 1))
    else none

-- `.filter(|attempts| (1..=10).contains(attempts))`
abbrev pub attempts_of : Option ℕ → Option ℕ
attempts_of none = none
attempts_of (some n) = if leb 1 n && leb n 10 then some n else none

module _ {F : Type 0} (f : F64 F) where
  abbrev pub Actions : Type 0
  Actions = List (PlannedAction F)

  -- the arm `"command"`
  unfoldable pub compile_command : List Form → Result PlanError (PlannedAction F)
  compile_command forms = do
    entity ← ok_or invalid_command (entity_in forms)
    verb ← ok_or invalid_command (keyword_of (get_elem? forms 2))
    options ← command_options f (drop 3 forms)
    ok (command entity verb options.brightness options.confirmation)

  -- the arm `"wait"`
  unfoldable pub compile_wait : Option Form → Result PlanError (PlannedAction F)
  compile_wait (some (number literal (some unit))) = do
    n ← duration_milliseconds f literal unit
    ok (wait n)
  compile_wait _ = err invalid_wait

  -- `match items.get(2..)` of the arm `"await"`
  unfoldable pub await_timeout : List Form → Result PlanError (Option ℕ)
  await_timeout [] = ok none
  await_timeout (keyword key ∷ number literal (some unit) ∷ []) =
      if key == "timeout"
      then (do n ← duration_milliseconds f literal unit; ok (some n))
      else err invalid_await
  await_timeout _ = err invalid_await

  abbrev pub await_trigger : Option Form → Result PlanError (AwaitTrigger F)
  await_trigger (some (list trigger)) = compile_await_trigger f trigger
  await_trigger _ = err invalid_await

  -- the arm `"await"`
  unfoldable pub compile_await : List Form → Result PlanError (PlannedAction F)
  compile_await forms = do
    trigger ← await_trigger (get_elem? forms 1)
    timeout ← await_timeout (drop 2 forms)
    ok (await trigger timeout)

  -- the arm `"audit"`
  unfoldable pub compile_audit : Option Form → Result PlanError (PlannedAction F)
  compile_audit (some (string message)) = ok (audit message)
  compile_audit _ = err unsupported_action

  -- the arm `"activate" | "deactivate"`
  unfoldable pub compile_enable : List Form → Bool → Result PlanError (PlannedAction F)
  compile_enable forms enabled = do
    flow_id ← ok_or invalid_automation_target (flow_target (list_of (get_elem? forms 1)))
    ok (set_automation_enabled flow_id enabled)

  -- `match items.get(2..)` of the arm `"retry"`
  unfoldable pub retry_options : List Form → Result PlanError (ℕ × ℕ)
  retry_options
        (keyword times
          ∷ number literal none
          ∷ keyword backoff
          ∷ number wait_literal (some unit)
          ∷ []) =
      if times == "times" && backoff == "backoff"
      then (do
        attempts ← ok_or invalid_retry (attempts_of (parse_u8 literal))
        n ← duration_milliseconds f wait_literal unit
        ok (attempts, n))
      else err invalid_retry
  retry_options _ = err invalid_retry

  -- `nested.pop().filter(is_retryable)`, and the test that nothing else was compiled
  unfoldable pub single_retryable :
      Option (Actions × PlannedAction F) → Result PlanError (PlannedAction F)
  single_retryable (some ([], action)) =
      if is_retryable action then ok action else err invalid_retry
  single_retryable _ = err invalid_retry

  -- the arm `"retry"`: `nested` is what its first argument was compiled to
  unfoldable pub compile_retry :
      Result PlanError Actions → List Form → Result PlanError (PlannedAction F)
  compile_retry nested forms = do
    actions ← nested
    action ← single_retryable (pop actions)
    (attempts, n) ← retry_options (drop 2 forms)
    ok (retry action attempts n)

  -- `match items.first().and_then(Form::symbol)`
  abbrev pub compile_named :
      Result PlanError Actions → List Form → Option String → Result PlanError (PlannedAction F)
  compile_named nested forms none = err unsupported_action
  compile_named nested forms (some name) =
      if name == "command"
      then compile_command forms
      else if name == "wait"
      then compile_wait (get_elem? forms 1)
      else if name == "await"
      then compile_await forms
      else if name == "audit"
      then compile_audit (get_elem? forms 2)
      else if (name == "activate" || name == "deactivate") && eqb (length forms) 2
      then compile_enable forms (name == "activate")
      else if name == "retry"
      then compile_retry nested forms
      else err unsupported_action

  -- `actions.push(…)`
  abbrev pub push : Actions → Result PlanError (PlannedAction F) → Result PlanError Actions
  push actions compiled = compiled >>= λ action. ok (actions ++ action ∷ [])

  -- The second form of a list is compiled where the list is a `retry`, and nowhere else.
  unfoldable pub compile_action : Form → Actions → Result PlanError Actions
  compile_action (list (cons_forms head (cons_forms argument rest))) actions =
      let nested = compile_action argument [] in
      push actions (compile_named nested (head ∷ argument ∷ items rest) (head_symbol (head ∷ [])))
  compile_action (list forms) actions =
      push actions (compile_named (err invalid_retry) (items forms) (head_symbol (items forms)))
  compile_action _ actions = err unsupported_action
