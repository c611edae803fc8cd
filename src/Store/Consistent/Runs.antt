-- ===== src/Store/Consistent/Runs.antt =====
-- crates/robine-store-sqlite/src/lib.rs: the methods on runs, claims, traces and the journal.
use robine.Prelude.{
  ℕ, ◌≤◌, ◌≡◌, refl, sym, subst, String, Bool, true, false, List, [], ◌∷◌, ◌==◌, ◌&&◌, leb,
  Bool-cases, inl, inr, arith,
}
use robine.Prelude.Tables.{delete_rows, has_row, All, Absent, IsUnique}
use robine.Prelude.Tables.Keys.{IsUnique-delete, IsUnique-upsert}
use robine.Flow.Plan.{ConcurrencyPolicy}
use robine.Domain.Model.{FlowRun, EventEnvelope}
use robine.Store.{Store}
use robine.Store.Events.{save_automation_engine_cursor}
use robine.Store.Runs.{
  run_id, is_active, existing_runs, queued_runs, save_flow_run, admit_flow_run,
  dequeue_next_flow_run, delete_flow_run,
}
use robine.Store.Runs.Active.{count-delete, count-update_same}
use robine.Store.Runs.Exclusive.{IsExclusive}
use robine.Store.Runs.Admission.{admit-IsExclusive, admit-IsUnique, dequeue-invariant}
use robine.Store.Claims.{claim_flow_trigger}
use robine.Store.Claims.Once.{claim-IsBounded}
use robine.Store.Retention.{prune_retained_data, save_flow_trace}
use robine.Store.Consistent.{IsNumbered, IsConsistent}

module _ {F J : Type 0} where
  -- A change of the table of runs alone
  with_runs :
      (s : Store F J) (runs : List (FlowRun J))
      → IsConsistent s
      → IsUnique run_id runs
      → IsExclusive runs
      → IsConsistent (record s { flow_runs = runs })
  with_runs s runs h unique exclusive = record {
    command_ids = h.command_ids;
    idempotency_keys = h.idempotency_keys;
    numbered = h.numbered;
    run_ids = unique;
    exclusive = exclusive;
    bounded = h.bounded;
  }

  pub admit_flow_run-IsConsistent :
      (run : FlowRun J) (policy : ConcurrencyPolicy) (s : Store F J)
      → Absent run_id run.id s.flow_runs
      → IsConsistent s
      → IsConsistent ((admit_flow_run run policy s).1)
  unfolding admit_flow_run
  admit_flow_run-IsConsistent run policy s new h =
      let existing = existing_runs run.flow_id s.flow_runs in
      with_runs s _ h
        (admit-IsUnique run policy.mode policy.max_runs existing s.flow_runs h.run_ids)
        (admit-IsExclusive run policy.mode policy.max_runs existing s.flow_runs refl new
          h.exclusive)

  pub dequeue_next_flow_run-IsConsistent :
      (s : Store F J) → IsConsistent s → IsConsistent ((dequeue_next_flow_run s).1)
  unfolding dequeue_next_flow_run
  dequeue_next_flow_run-IsConsistent s h =
      let (unique, exclusive) =
        dequeue-invariant (queued_runs s.flow_runs) s.flow_runs h.run_ids h.exclusive in
      with_runs s _ h unique exclusive

  pub delete_flow_run-IsConsistent :
      (id : String) (s : Store F J) → IsConsistent s → IsConsistent ((delete_flow_run id s).1)
  unfolding delete_flow_run
  delete_flow_run-IsConsistent id s h =
      with_runs s _ h (IsUnique-delete run_id (λ r. r.id == id) s.flow_runs h.run_ids) (λ flow_id.
        omega (
          arith,
          count-delete (is_active flow_id) (λ r. r.id == id) s.flow_runs,
          h.exclusive flow_id,
        ))

module _ {J : Type 0} where
  counts_alike :
      (run : FlowRun J) (flow_id : String)
      → run.queued ≡ false
      → (runs : List (FlowRun J))
      → All (λ r. (r.id == run.id) ≡ true → (r.flow_id ≡ run.flow_id) × (r.queued ≡ false)) runs
      → All (λ r. (r.id == run.id) ≡ true → is_active flow_id r ≡ is_active flow_id run) runs
  counts_alike run flow_id idle [] h = tt
  counts_alike run flow_id idle (r ∷ runs) h = (
    (λ e. let (flow, waits) = h.0 e in rw (flow, waits, idle) refl),
    counts_alike run flow_id idle runs h.1,
  )

module _ {F J : Type 0} where
  pub save_flow_run-IsConsistent :
      (run : FlowRun J) (s : Store F J)
      → run.queued ≡ false
      → has_row (λ r. r.id == run.id) s.flow_runs ≡ true
      → All
          (λ r. (r.id == run.id) ≡ true → (r.flow_id ≡ run.flow_id) × (r.queued ≡ false))
          s.flow_runs
      → IsConsistent s
      → IsConsistent ((save_flow_run run s).1)
  unfolding save_flow_run
  save_flow_run-IsConsistent run s idle found same h =
      with_runs s _ h (IsUnique-upsert run_id run s.flow_runs h.run_ids) (λ flow_id. rw found (
        subst (λ n. n ≤ 1)
          (sym (
            count-update_same (is_active flow_id) (λ r. r.id == run.id) run s.flow_runs
              (counts_alike run flow_id idle s.flow_runs same)))
          (h.exclusive flow_id)))

  pub claim_flow_trigger-IsConsistent :
      (flow_id correlation_id : String) (now : ℕ) (s : Store F J)
      → IsConsistent s
      → IsConsistent ((claim_flow_trigger flow_id correlation_id now s).1)
  unfolding claim_flow_trigger
  claim_flow_trigger-IsConsistent flow_id correlation_id now s h = record {
    command_ids = h.command_ids;
    idempotency_keys = h.idempotency_keys;
    numbered = h.numbered;
    run_ids = h.run_ids;
    exclusive = h.exclusive;
    bounded = claim-IsBounded flow_id correlation_id now s.flow_trigger_claims h.bounded;
  }

  IsNumbered-weaken :
      (low low' : ℕ) (events : List (EventEnvelope F J)) (last : ℕ)
      → low' ≤ low
      → IsNumbered low events last
      → IsNumbered low' events last
  IsNumbered-weaken low low' [] last le h = omega (arith, le, h)
  IsNumbered-weaken low low' (e ∷ events) last le h = (omega (arith, le, h.0), h.1)

  IsNumbered-delete :
      (p : EventEnvelope F J → Bool) (low : ℕ) (events : List (EventEnvelope F J)) (last : ℕ)
      → IsNumbered low events last
      → IsNumbered low (delete_rows p events) last
  IsNumbered-delete p low [] last h = h
  IsNumbered-delete p low (e ∷ events) last h = elim (Bool-cases (p e)) [
    | inl t ↦ rw t (
        IsNumbered-weaken e.sequence low (delete_rows p events) last (omega (arith, h.0))
          (IsNumbered-delete p e.sequence events last h.1))
    | inr t ↦ rw t (h.0, IsNumbered-delete p e.sequence events last h.1)
  ]

  pub prune_retained_data-IsConsistent :
      (now batch_size : ℕ) (s : Store F J)
      → IsConsistent s
      → IsConsistent ((prune_retained_data now batch_size s).1)
  unfolding prune_retained_data
  prune_retained_data-IsConsistent now batch_size s h =
      elim (Bool-cases (leb 1 batch_size && leb batch_size 10000)) [
        | inr e ↦ rw e h
        | inl e ↦ rw e (record {
          command_ids = h.command_ids;
          idempotency_keys = h.idempotency_keys;
          numbered = IsNumbered-delete _ 0 s.events s.last_sequence h.numbered;
          run_ids = h.run_ids;
          exclusive = h.exclusive;
          bounded = λ chain. omega (arith, count-delete _ _ s.flow_trigger_claims, h.bounded chain);
        })
      ]

  pub save_flow_trace-IsConsistent :
      (id flow_id : String) (result : J) (now : ℕ) (s : Store F J)
      → IsConsistent s
      → IsConsistent ((save_flow_trace id flow_id result now s).1)
  unfolding save_flow_trace
  save_flow_trace-IsConsistent id flow_id result now s h = record {
    command_ids = h.command_ids;
    idempotency_keys = h.idempotency_keys;
    numbered = h.numbered;
    run_ids = h.run_ids;
    exclusive = h.exclusive;
    bounded = h.bounded;
  }

  pub consumed-IsConsistent :
      (n : ℕ) (s : Store F J) → IsConsistent s → IsConsistent (save_automation_engine_cursor n s)
  unfolding save_automation_engine_cursor
  consumed-IsConsistent n s h = record {
    command_ids = h.command_ids;
    idempotency_keys = h.idempotency_keys;
    numbered = h.numbered;
    run_ids = h.run_ids;
    exclusive = h.exclusive;
    bounded = h.bounded;
  }
