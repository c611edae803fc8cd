-- ===== src/Flow/Runtime/Drive.antt =====
-- crates/robine-flow-runtime/src/lib.rs: the loop as a whole, and a run that is resumed to its end.
use robine.Prelude.{
  ℕ, zero, suc, ◌+◌, ◌-◌, ◌≤◌, ◌<◌, ◌≡◌, refl, sym, subst, String, List, [], ◌∷◌, ◌++◌, inl, inr,
  arith, append_assoc, append-nil, length, drop,
}
use native.Mathlib.Nat.{zero-add, add-zero, suc-add}
use robine.Flow.Float.{F64}
use robine.Flow.Plan.{PlannedAction, command, retry}
use robine.Flow.Plan.Options.Bounds.{IsTimeout}
use robine.Flow.Plan.Action.Bounds.{IsAction}
use robine.Flow.Plan.Compile.Bounds.{AreActions}
use robine.Flow.Runtime.Trace.{
  TraceStep, Suspension, RunResult, completed, failed, suspended, trace_of,
}
use robine.Flow.Runtime.{Gateway, Progress, go_on, stop, unwrap_or, perform, run_actions}
use robine.Flow.Runtime.Resume.{weight, Extends, Ends, Advances, perform-Advances}

module _ {F : Type 0} where
  -- An attempt at which a list of actions may be started: only a retry has attempts beyond the first.
  abbrev pub IsStart : List (PlannedAction F) → ℕ → Type 0
  IsStart [] attempt = attempt ≡ 0
  IsStart (action ∷ rest) attempt = attempt < weight action

  -- How often actions may be tried in all.
  abbrev pub total : List (PlannedAction F) → ℕ
  total [] = 0
  total (action ∷ rest) = weight action + total rest

  -- The actions left when a run is suspended: where it goes on may be started, and fewer tries are left
  -- than before.
  pub record IsPoint (actions : List (PlannedAction F)) (index attempt : ℕ) (s : Suspension F)
      : Type 0 where
    pub passed : ℕ
    pub place : s.next_action ≡ index + passed
    pub inside : passed ≤ length actions
    pub startable : IsStart (drop passed actions) (unwrap_or s.retry_attempt 0)
    pub fewer : total (drop passed actions) + attempt < total actions + unwrap_or s.retry_attempt 0
    pub timed : IsTimeout s.after_milliseconds

  abbrev pub Leaves : List (PlannedAction F) → ℕ → ℕ → RunResult F → Type 0
  Leaves actions index attempt (completed _) = Unit
  Leaves actions index attempt (failed _) = Unit
  Leaves actions index attempt (suspended s _) = IsPoint actions index attempt s
  Leaves actions index attempt _ = ⊥

module _ {F G : Type 0} (f : F64 F) (gateway : Gateway F G) (run : String) where
  weight_pos : (action : PlannedAction F) → IsAction f action → 0 < weight action
  weight_pos (retry action attempts backoff) h = h.2
  weight_pos (command _ _ _ _) h = omega arith
  weight_pos _ h = omega arith

  pub IsStart-fresh : (actions : List (PlannedAction F)) → AreActions f actions → IsStart actions 0
  IsStart-fresh [] h = refl
  IsStart-fresh (action ∷ rest) h = weight_pos action h.0

  Leaves-stop :
      (index attempt : ℕ) (action : PlannedAction F) (rest : List (PlannedAction F))
      (r : RunResult F)
      → AreActions f (action ∷ rest)
      → attempt < weight action
      → Ends index attempt action r
      → Leaves (action ∷ rest) index attempt r
  Leaves-stop index attempt action rest (failed t) h lt e = tt
  Leaves-stop index attempt action rest (suspended s t) h lt (inl (place, fresh), timed) = record {
    passed = 1;
    place = place;
    inside = omega arith;
    startable = rw fresh (IsStart-fresh rest h.1);
    fewer = rw fresh (omega arith);
    timed = timed;
  }
  Leaves-stop index attempt action rest (suspended s t) h lt (inr (place, again, left), timed) =
      record {
        passed = 0;
        place = omega arith;
        inside = omega arith;
        startable = rw again left;
        fewer = rw again (omega arith);
        timed = timed;
      }
  Leaves-stop index attempt action rest _ h lt e = absurd e

  Leaves-go_on :
      (index attempt : ℕ) (action : PlannedAction F) (rest : List (PlannedAction F))
      (r : RunResult F)
      → attempt < weight action
      → Leaves rest (index + 1) 0 r
      → Leaves (action ∷ rest) index attempt r
  Leaves-go_on index attempt action rest (completed t) lt h = tt
  Leaves-go_on index attempt action rest (failed t) lt h = tt
  Leaves-go_on index attempt action rest (suspended s t) lt h = record {
    passed = suc h.passed;
    place = omega (arith, h.place);
    inside = omega (arith, h.inside);
    startable = h.startable;
    fewer = omega (arith, h.fewer);
    timed = h.timed;
  }
  Leaves-go_on index attempt action rest _ lt h = absurd h

  pub Extends-trans : (t u v : List (TraceStep F)) → Extends t u → Extends u v → Extends t v
  Extends-trans t u v (a, p) (b, q) = (a ++ b, rw (q, p) (append_assoc t a b))

  -- What a run from an index on returns.
  abbrev Runs : List (PlannedAction F) → ℕ → ℕ → List (TraceStep F) → RunResult F → Type 0
  Runs actions index attempt trace r = Extends trace (trace_of r) × Leaves actions index attempt r

  abbrev continue_with : ℕ → List (PlannedAction F) → Progress F G → RunResult F × G
  continue_with index rest (go_on trace g) = run_actions gateway run (index + 1) 0 rest trace g
  continue_with index rest (stop result g) = (result, g)

  run_actions-round :
      (index attempt : ℕ) (action : PlannedAction F) (rest : List (PlannedAction F))
      (trace : List (TraceStep F)) (g : G)
      → run_actions gateway run index attempt (action ∷ rest) trace g
        ≡ continue_with index rest (perform gateway run index attempt action trace g)
  unfolding run_actions
  run_actions-round index attempt action rest trace g =
      go (perform gateway run index attempt action trace g) refl
    where
      go :
          (p : Progress F G)
          → perform gateway run index attempt action trace g ≡ p
          → run_actions gateway run index attempt (action ∷ rest) trace g
            ≡ continue_with index rest p
      go (go_on t h) e = rw (e, run_actions)
      go (stop r h) e = rw (e, run_actions)

  continue_with-Runs :
      (index attempt : ℕ) (action : PlannedAction F) (rest : List (PlannedAction F))
      (trace : List (TraceStep F)) (p : Progress F G)
      → AreActions f (action ∷ rest)
      → attempt < weight action
      → ((t : List (TraceStep F)) (g : G)
          → Runs rest (index + 1) 0 t (run_actions gateway run (index + 1) 0 rest t g).0)
      → Advances index attempt action trace p
      → Runs (action ∷ rest) index attempt trace (continue_with index rest p).0
  continue_with-Runs index attempt action rest trace (go_on t g) h lt more e =
      let (extends, leaves) = more t g in
      (
        Extends-trans trace t (trace_of (run_actions gateway run (index + 1) 0 rest t g).0) e
            extends,
        Leaves-go_on index attempt action rest (run_actions gateway run (index + 1) 0 rest t g).0 lt
            leaves,
      )
  continue_with-Runs index attempt action rest trace (stop r g) h lt more (extends, ends) =
      (extends, Leaves-stop index attempt action rest r h lt ends)

  pub run_actions-Runs :
      (actions : List (PlannedAction F)) (index attempt : ℕ) (trace : List (TraceStep F)) (g : G)
      → AreActions f actions
      → IsStart actions attempt
      → Runs actions index attempt trace (run_actions gateway run index attempt actions trace g).0
  run_actions-Runs [] index attempt trace g h lt =
      unfold run_actions in (([], sym (append-nil trace)), tt)
  run_actions-Runs (action ∷ rest) index attempt trace g h lt =
      subst (λ (r : RunResult F × G). Runs (action ∷ rest) index attempt trace r.0)
        (sym (run_actions-round index attempt action rest trace g))
        (continue_with-Runs index attempt action rest trace
          (perform gateway run index attempt action trace g) h lt
          (λ t g'. run_actions-Runs rest (index + 1) 0 t g' h.1 (IsStart-fresh rest h.1))
          (perform-Advances f gateway run index attempt action trace g h.0 lt))

  pub AreActions-drop :
      (n : ℕ) (actions : List (PlannedAction F))
      → AreActions f actions
      → AreActions f (drop n actions)
  AreActions-drop zero actions h = h
  AreActions-drop (suc n) [] h = tt
  AreActions-drop (suc n) (action ∷ rest) h = AreActions-drop n rest h.1

pub drop-drop {ℓ} : {A : Type ℓ} (n k : ℕ) (xs : List A) → drop k (drop n xs) ≡ drop (n + k) xs
drop-drop zero k xs = rw zero-add
drop-drop (suc n) zero [] = rw add-zero
drop-drop (suc n) (suc k) [] = rw suc-add
drop-drop (suc n) k (x ∷ xs) = rw suc-add (drop-drop n k xs)

pub length-drop {ℓ} : {A : Type ℓ} (n : ℕ) (xs : List A) → length (drop n xs) ≡ length xs - n
length-drop zero xs = omega arith
length-drop (suc n) [] = omega arith
length-drop (suc n) (x ∷ xs) = omega (arith, length-drop n xs)
