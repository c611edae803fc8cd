-- ===== src/Flow/Runtime/Resume.antt =====
-- crates/robine-flow-runtime/src/lib.rs: what a round of the interpreter records, and where a
-- suspended run goes on.
use robine.Prelude.{
  ℕ, ◌+◌, ◌≤◌, ◌<◌, ◌≡◌, refl, sym, ◌<>◌, String, Bool, Option, none, some, List, [], ◌∷◌, ◌++◌,
  ◌⊎◌, inl, inr, arith, Result, ok, err, ltb, Bool-cases, append_assoc, append-nil,
}
use robine.Domain.{StateValue}
use robine.Flow.Float.{F64}
use robine.Flow.Plan.{
  CommandConfirmation, transport, unconfirmed, reported, PlannedAction, command, wait, await, audit,
  set_automation_enabled, retry, command_confirmed,
}
use robine.Flow.Plan.Options.Bounds.{IsTimeout, IsConfirmation}
use robine.Flow.Plan.Action.Bounds.{IsAction}
use robine.Flow.Runtime.Trace.{
  TraceStep, Suspension, RunResult, failed, suspended, trace_of, action_failed, command_requested,
  automation_changed, audited, waiting, awaiting, retry_scheduled, retry_exhausted,
}
use robine.Flow.Runtime.{
  Gateway, Progress, go_on, stop, verb_value, next_attempt, requested, brighten, switched,
  run_command, enabled_set, Attempt, attempt_brightened, attempt_switched, attempt_command,
  attempt_enabled, execute_retryable_action, after_attempt, perform, action_key, attempt_key,
}

-- How often an action may be tried.
abbrev pub weight : {F : Type 0} → PlannedAction F → ℕ
weight (retry _ attempts _) = attempts
weight _ = 1

module _ {F : Type 0} where
  -- One trace is another with further steps behind it.
  abbrev pub Extends : List (TraceStep F) → List (TraceStep F) → Type 0
  Extends trace longer = (more : List (TraceStep F)) × (longer ≡ trace ++ more)

  -- A run that stops in an action goes on behind it, or tries it once more.
  abbrev pub GoesOn : ℕ → ℕ → PlannedAction F → Suspension F → Type 0
  GoesOn index attempt action s =
      ((s.next_action ≡ index + 1) × (s.retry_attempt ≡ none))
      ⊎ ((s.next_action ≡ index)
          × (s.retry_attempt ≡ some (attempt + 1))
          × (attempt + 1 < weight action))

  -- A run ends in an action by a failure, or is suspended with a place to go on and a bounded timer.
  abbrev pub Ends : ℕ → ℕ → PlannedAction F → RunResult F → Type 0
  Ends index attempt action (suspended s _) =
      GoesOn index attempt action s × IsTimeout s.after_milliseconds
  Ends index attempt action (failed _) = Unit
  Ends index attempt action _ = ⊥

module _ {F G : Type 0} where
  abbrev pub Advances : ℕ → ℕ → PlannedAction F → List (TraceStep F) → Progress F G → Type 0
  Advances index attempt action trace (go_on longer g) = Extends trace longer
  Advances index attempt action trace (stop result g) =
      Extends trace (trace_of result) × Ends index attempt action result

module _ {F G : Type 0} (f : F64 F) (gateway : Gateway F G) (run : String) where
  module _ (index attempt : ℕ) (action : PlannedAction F) where
    requested-Advances :
        (entity verb command_id : String) (confirmation : CommandConfirmation)
        (trace : List (TraceStep F)) (b : Option F) (r : Result String String × G)
        → IsConfirmation f b confirmation
        → Advances index attempt action trace
            (requested gateway run index entity verb confirmation command_id trace r)
    requested-Advances entity verb id c trace b (err e, g) h = ((action_failed _ ∷ [], refl), tt)
    requested-Advances entity verb id (reported n) trace b (ok _, g) h = (
      (
        command_requested entity verb ∷ awaiting (command_confirmed id) (some n) ∷ [],
        append_assoc trace _ _,
      ),
      (inl (refl, refl), h.0),
    )
    requested-Advances entity verb id transport trace b (ok _, g) h =
        (command_requested entity verb ∷ [], refl)
    requested-Advances entity verb id unconfirmed trace b (ok _, g) h =
        (command_requested entity verb ∷ [], refl)

    switched-Advances :
        (entity verb : String) (b : Option F) (c : CommandConfirmation) (trace : List (TraceStep F))
        (r : Result String String × G)
        → IsConfirmation f b c
        → Advances index attempt action trace (switched gateway run index entity verb b c trace r)
    switched-Advances entity verb b c trace (err e, g) h = ((action_failed _ ∷ [], refl), tt)
    switched-Advances entity verb b c trace (ok id, g) h =
        requested-Advances entity verb id c trace b
          (brighten gateway run entity b (action_key run index) g) h

    run_command-Advances :
        (entity verb : String) (b : Option F) (c : CommandConfirmation) (trace : List (TraceStep F))
        (value : Option (StateValue F)) (g : G)
        → IsConfirmation f b c
        → Advances index attempt action trace
            (run_command gateway run index entity verb b c trace value g)
    unfolding run_command
    run_command-Advances entity verb b c trace none g h = ((action_failed _ ∷ [], refl), tt)
    run_command-Advances entity verb b c trace (some value) g h =
        switched-Advances entity verb b c trace
          (gateway.request g entity "switch" value (action_key run index)) h

    enabled_set-Advances :
        (flow_id : String) (enabled : Bool) (trace : List (TraceStep F))
        (r : Result String (Unit {0}) × G)
        → Advances index attempt action trace (enabled_set gateway run flow_id enabled trace r)
    enabled_set-Advances flow_id enabled trace (err e, g) = ((action_failed _ ∷ [], refl), tt)
    enabled_set-Advances flow_id enabled trace (ok _, g) =
        (automation_changed flow_id enabled ∷ [], refl)

  -- An attempt only adds to the trace.
  abbrev Attempted : List (TraceStep F) → Attempt gateway run → Type 0
  Attempted trace r = Extends trace r.1

  unchanged : (trace : List (TraceStep F)) → Extends trace trace
  unchanged trace = ([], sym (append-nil trace))

  attempt_brightened-Attempted :
      (entity verb : String) (trace : List (TraceStep F)) (r : Result String String × G)
      → Attempted trace (attempt_brightened gateway run entity verb trace r)
  attempt_brightened-Attempted entity verb trace (err e, g) = unchanged trace
  attempt_brightened-Attempted entity verb trace (ok _, g) =
      (command_requested entity verb ∷ [], refl)

  attempt_switched-Attempted :
      (entity verb : String) (b : Option F) (key : String) (trace : List (TraceStep F))
      (r : Result String String × G)
      → Attempted trace (attempt_switched gateway run entity verb b key trace r)
  attempt_switched-Attempted entity verb b key trace (err e, g) = unchanged trace
  attempt_switched-Attempted entity verb b key trace (ok _, g) =
      attempt_brightened-Attempted entity verb trace (brighten gateway run entity b key g)

  attempt_command-Attempted :
      (entity verb : String) (b : Option F) (key : String) (trace : List (TraceStep F))
      (value : Option (StateValue F)) (g : G)
      → Attempted trace (attempt_command gateway run entity verb b key trace value g)
  attempt_command-Attempted entity verb b key trace none g = unchanged trace
  attempt_command-Attempted entity verb b key trace (some value) g =
      attempt_switched-Attempted entity verb b key trace
        (gateway.request g entity "switch" value key)

  attempt_enabled-Attempted :
      (flow_id : String) (enabled : Bool) (trace : List (TraceStep F))
      (r : Result String (Unit {0}) × G)
      → Attempted trace (attempt_enabled gateway run flow_id enabled trace r)
  attempt_enabled-Attempted flow_id enabled trace (err e, g) = unchanged trace
  attempt_enabled-Attempted flow_id enabled trace (ok _, g) =
      (automation_changed flow_id enabled ∷ [], refl)

  execute_retryable_action-Attempted :
      (action : PlannedAction F) (index attempt : ℕ) (trace : List (TraceStep F)) (g : G)
      → Attempted trace (execute_retryable_action gateway run action index attempt trace g)
  unfolding execute_retryable_action
  execute_retryable_action-Attempted (command entity verb b _) index attempt trace g =
      attempt_command-Attempted entity verb b (attempt_key run index attempt) trace
        (verb_value F verb) g
  execute_retryable_action-Attempted (audit message) index attempt trace g =
      (audited message ∷ [], refl)
  execute_retryable_action-Attempted (set_automation_enabled flow_id enabled) index attempt trace
        g =
      attempt_enabled-Attempted flow_id enabled trace
        (gateway.set_enabled g flow_id enabled (attempt_key run index attempt <> ":automation"))
  execute_retryable_action-Attempted _ index attempt trace g = unchanged trace

  Extends-append :
      (trace t : List (TraceStep F)) (step : TraceStep F)
      → Extends trace t
      → Extends trace (t ++ step ∷ [])
  Extends-append trace t step (more, e) =
      (more ++ step ∷ [], rw e (append_assoc trace more (step ∷ [])))

  next_attempt-small : (n : ℕ) → n < 255 → next_attempt n ≡ n + 1
  next_attempt-small n h = ground arith

  after_attempt-Advances :
      (index attempt attempts backoff : ℕ) (action : PlannedAction F) (trace : List (TraceStep F))
      (r : Attempt gateway run)
      → attempts ≤ 10
      → attempt < attempts
      → IsTimeout (some backoff)
      → Attempted trace r
      → Advances index attempt
          (retry action attempts backoff)
          trace
          (after_attempt gateway run index attempt attempts backoff r)
  unfolding after_attempt
  after_attempt-Advances index attempt attempts backoff action trace (ok _, t, g) few left timed h =
      h
  after_attempt-Advances index attempt attempts backoff action trace (err _, t, g) few left timed
        h =
      elim (Bool-cases (ltb (attempt + 1) attempts)) [
        | inl e ↦
            rw (next_attempt-small attempt (omega arith), e)
              (
                Extends-append trace t
                    (retry_scheduled (next_attempt (attempt + 1)) attempts backoff) h,
                (inr (refl, refl, ground arith), timed),
              )
        | inr e ↦
            rw (next_attempt-small attempt (omega arith), e)
              (Extends-append trace t (retry_exhausted attempts) h, tt)
      ]

  -- A round of the loop only adds to the trace. If the run is suspended, it goes on behind the action,
  -- or at a retry that has attempts left.
  pub perform-Advances :
      (index attempt : ℕ) (action : PlannedAction F) (trace : List (TraceStep F)) (g : G)
      → IsAction f action
      → attempt < weight action
      → Advances index attempt action trace (perform gateway run index attempt action trace g)
  unfolding perform
  perform-Advances index attempt (command entity verb b c) trace g h lt =
      run_command-Advances index attempt (command entity verb b c) entity verb b c trace
        (verb_value F verb) g h.1
  perform-Advances index attempt (audit message) trace g h lt = (audited message ∷ [], refl)
  perform-Advances index attempt (set_automation_enabled flow_id enabled) trace g h lt =
      enabled_set-Advances index attempt (set_automation_enabled flow_id enabled) flow_id enabled
        trace (gateway.set_enabled g flow_id enabled (action_key run index <> ":automation"))
  perform-Advances index attempt (wait n) trace g h lt =
      ((waiting n ∷ [], refl), (inl (refl, refl), h))
  perform-Advances index attempt (await trigger timeout) trace g h lt =
      ((awaiting trigger timeout ∷ [], refl), (inl (refl, refl), h))
  perform-Advances index attempt (retry action attempts backoff) trace g h lt =
      after_attempt-Advances index attempt attempts backoff action trace
        (execute_retryable_action gateway run action index attempt trace g) h.3 lt h.4
        (execute_retryable_action-Attempted action index attempt trace g)
