-- ===== src/Flow/Runtime/Values.antt =====
-- crates/robine-flow-runtime/src/lib.rs: the values that a run sends to its gateway.
use robine.Prelude.{
  ℕ, ◌+◌, ◌≡◌, refl, ap, String, true, Bool-cases, inl, inr, Option, none, some, List, [], ◌∷◌,
  Result, ok, err, if◌then◌else◌, drop, ◌==◌,
}
use robine.Domain.{StateValue, is_valid_for}
use robine.Flow.Plan.{
  CommandConfirmation, PlannedAction, ExecutionPlan, command, wait, await, audit,
  set_automation_enabled, retry,
}
use robine.Flow.Runtime.Trace.{TraceStep, RunResult}
use robine.Flow.Runtime.{
  Gateway, Progress, go_on, stop, verb_value, brighten, switched, requested, run_command,
  attempt_brightened, attempt_switched, attempt_command, execute_retryable_action, after_attempt,
  perform, run_actions, execute_from_resumption, action_key, attempt_key, unwrap_or,
}

module _ {F G : Type 0} (gateway : Gateway F G) where
  -- The gateway behind a check of the values: a value that does not fit its capability is refused before
  -- the gateway is called.
  abbrev pub checked : String → Gateway F G
  checked refusal = record {
    request = λ g entity capability value key.
        if is_valid_for value capability
        then gateway.request g entity capability value key
        else (err refusal, g);
    set_enabled = gateway.set_enabled;
  }

  module _ (refusal run : String) where
    brighten-checked :
        (entity : String) (b : Option F) (key : String) (g : G)
        → brighten (checked refusal) run entity b key g ≡ brighten gateway run entity b key g
    unfolding is_valid_for
    brighten-checked entity none key g = refl
    brighten-checked entity (some b) key g = refl

    switched-checked :
        (index : ℕ) (entity verb : String) (b : Option F) (c : CommandConfirmation)
        (trace : List (TraceStep F)) (r : Result String String × G)
        → switched (checked refusal) run index entity verb b c trace r
          ≡ switched gateway run index entity verb b c trace r
    switched-checked index entity verb b c trace (err e, g) = refl
    switched-checked index entity verb b c trace (ok id, g) =
        ap (requested gateway run index entity verb c id trace)
          (brighten-checked entity b (action_key run index) g)

    -- A value that fits the capability it is sent for
    abbrev Fits : Option (StateValue F) → Type 0
    Fits none = Unit
    Fits (some value) = is_valid_for value "switch" ≡ true

    verb_value-Fits : (verb : String) → Fits (verb_value F verb)
    unfolding verb_value is_valid_for
    verb_value-Fits verb = elim (Bool-cases (verb == "turn-on")) [
      | inl e ↦ rw e refl
      | inr e ↦ elim (Bool-cases (verb == "turn-off")) [
        | inl k ↦ rw (e, k) refl
        | inr k ↦ rw (e, k) tt
      ]
    ]

    run_command-checked :
        (index : ℕ) (entity verb : String) (b : Option F) (c : CommandConfirmation)
        (trace : List (TraceStep F)) (o : Option (StateValue F)) (g : G)
        → Fits o
        → run_command (checked refusal) run index entity verb b c trace o g
          ≡ run_command gateway run index entity verb b c trace o g
    unfolding run_command
    run_command-checked index entity verb b c trace none g h = refl
    run_command-checked index entity verb b c trace (some value) g h = rw h (
        switched-checked index entity verb b c trace
          (gateway.request g entity "switch" value (action_key run index)))

    attempt_switched-checked :
        (entity verb : String) (b : Option F) (key : String) (trace : List (TraceStep F))
        (r : Result String String × G)
        → attempt_switched (checked refusal) run entity verb b key trace r
          ≡ attempt_switched gateway run entity verb b key trace r
    attempt_switched-checked entity verb b key trace (err e, g) = refl
    attempt_switched-checked entity verb b key trace (ok id, g) =
        ap (attempt_brightened gateway run entity verb trace) (brighten-checked entity b key g)

    attempt_command-checked :
        (entity verb : String) (b : Option F) (key : String) (trace : List (TraceStep F))
        (o : Option (StateValue F)) (g : G)
        → Fits o
        → attempt_command (checked refusal) run entity verb b key trace o g
          ≡ attempt_command gateway run entity verb b key trace o g
    attempt_command-checked entity verb b key trace none g h = refl
    attempt_command-checked entity verb b key trace (some value) g h = rw h (
        attempt_switched-checked entity verb b key trace
          (gateway.request g entity "switch" value key))

    execute_retryable_action-checked :
        (action : PlannedAction F) (index attempt : ℕ) (trace : List (TraceStep F)) (g : G)
        → execute_retryable_action (checked refusal) run action index attempt trace g
          ≡ execute_retryable_action gateway run action index attempt trace g
    unfolding execute_retryable_action
    execute_retryable_action-checked (command entity verb b _) index attempt trace g =
        attempt_command-checked entity verb b (attempt_key run index attempt) trace
          (verb_value F verb) g (verb_value-Fits verb)
    execute_retryable_action-checked (set_automation_enabled _ _) index attempt trace g = refl
    execute_retryable_action-checked (audit _) index attempt trace g = refl
    execute_retryable_action-checked (wait _) index attempt trace g = refl
    execute_retryable_action-checked (await _ _) index attempt trace g = refl
    execute_retryable_action-checked (retry _ _ _) index attempt trace g = refl

    perform-checked :
        (index attempt : ℕ) (action : PlannedAction F) (trace : List (TraceStep F)) (g : G)
        → perform (checked refusal) run index attempt action trace g
          ≡ perform gateway run index attempt action trace g
    unfolding perform after_attempt
    perform-checked index attempt (command entity verb b c) trace g =
        run_command-checked index entity verb b c trace (verb_value F verb) g (verb_value-Fits verb)
    perform-checked index attempt (retry action attempts backoff) trace g =
        ap (after_attempt gateway run index attempt attempts backoff)
          (execute_retryable_action-checked action index attempt trace g)
    perform-checked index attempt (set_automation_enabled _ _) trace g = refl
    perform-checked index attempt (audit _) trace g = refl
    perform-checked index attempt (wait _) trace g = refl
    perform-checked index attempt (await _ _) trace g = refl

    run_actions-checked :
        (index attempt : ℕ) (actions : List (PlannedAction F)) (trace : List (TraceStep F)) (g : G)
        → run_actions (checked refusal) run index attempt actions trace g
          ≡ run_actions gateway run index attempt actions trace g
    unfolding run_actions
    run_actions-checked index attempt [] trace g = refl
    run_actions-checked index attempt (action ∷ rest) trace g =
        go (λ t h. run_actions-checked (index + 1) 0 rest t h)
          (perform gateway run index attempt action trace g)
          (perform-checked index attempt action trace g) refl
      where
        go :
            ((t : List (TraceStep F)) (h : G)
              → run_actions (checked refusal) run (index + 1) 0 rest t h
                ≡ run_actions gateway run (index + 1) 0 rest t h)
            → (p : Progress F G) → perform (checked refusal) run index attempt action trace g ≡ p
            → perform gateway run index attempt action trace g ≡ p
            → run_actions (checked refusal) run index attempt (action ∷ rest) trace g
              ≡ run_actions gateway run index attempt (action ∷ rest) trace g
        go more (go_on t h) a b = rw (a, b, run_actions) (more t h)
        go more (stop r h) a b = rw (a, b, run_actions)

  -- A run behaves the same if its gateway refuses every value that does not fit its capability: whatever
  -- the plan is, a run asks for `switch` with a truth value and for `light.brightness` with a percentage.
  pub execute_from_resumption-checked :
      (refusal run : String) (plan : ExecutionPlan F) (start : ℕ) (retry_attempt : Option ℕ)
      (trace : List (TraceStep F)) (g : G)
      → execute_from_resumption (checked refusal) run plan start retry_attempt trace g
        ≡ execute_from_resumption gateway run plan start retry_attempt trace g
  unfolding execute_from_resumption
  execute_from_resumption-checked refusal run plan start retry_attempt trace g =
      ap (λ (r : RunResult F × G). (ok r.0, r.1))
        (run_actions-checked refusal run start (unwrap_or retry_attempt 0) (drop start plan.actions)
          trace g)
