-- ===== src/Store/Runs.antt =====
-- crates/robine-store-sqlite/src/lib.rs: the runs that are active, suspended or queued.
pub mod Active
pub mod Exclusive
pub mod Admission
pub mod Next
use Prim.Native.String.{compare}
use Prim.Native.Nat.{Ordering}
use robine.Prelude.{
  ℕ, ◌≡◌, String, Bool, true, false, Option, none, some, List, [], ◌∷◌, ◌==◌, ◌&&◌, ◌||◌, not, ltb,
  leb, eqb, length, if◌then◌else◌, Result, ok, err,
}
use robine.Prelude.Tables.{
  where_rows, delete_rows, update_rows, count_rows, take, order_rows, upsert,
}
use robine.Domain.Model.{FlowRun}
use robine.Flow.Plan.{ConcurrencyPolicy, ConcurrencyMode, single, restart, queue}
use robine.Store.{Store, Method}

-- `FlowAdmission`
pub data FlowAdmission (J : Type 0) : Type 0 where
  start queued : FlowAdmission J
  rejected : ℕ → FlowAdmission J
  restarted : List (FlowRun J) → FlowAdmission J

abbrev pub text_le : String → String → Bool
text_le a b = elim (compare a b) [ Ordering.gt ↦ false | _ ↦ true ]

module _ {J : Type 0} where
  abbrev is_awaiting : Option J → Bool
  is_awaiting none = false
  is_awaiting (some _) = true

  abbrev pub run_id : FlowRun J → String
  run_id run = run.id

  -- `ORDER BY wake_at, id`
  abbrev pub by_wake : FlowRun J → FlowRun J → Bool
  by_wake a b = ltb a.wake_at b.wake_at || (eqb a.wake_at b.wake_at && text_le a.id b.id)

  abbrev pub of_flow : String → FlowRun J → Bool
  of_flow flow_id run = run.flow_id == flow_id

  -- `flow_id = ?1 AND queued = 0`
  abbrev pub is_active : String → FlowRun J → Bool
  is_active flow_id run = run.flow_id == flow_id && not run.queued

  -- the rows that `admit_flow_run` reads
  abbrev pub existing_runs : String → List (FlowRun J) → List (FlowRun J)
  existing_runs flow_id runs = order_rows by_wake (where_rows (of_flow flow_id) runs)

  -- the loop of `ConcurrencyMode::Restart`
  abbrev pub delete_each : List (FlowRun J) → List (FlowRun J) → List (FlowRun J)
  delete_each [] runs = runs
  delete_each (previous ∷ rest) runs =
      delete_each rest (delete_rows (λ r. r.id == previous.id) runs)

  -- `match policy.mode`: the admission, and the table of runs after it
  unfoldable pub admit :
      FlowRun J
      → ConcurrencyMode
      → ℕ
      → List (FlowRun J)
      → List (FlowRun J)
      → FlowAdmission J × List (FlowRun J)
  admit run single max_runs [] runs = (start, upsert run_id run runs)
  admit run single max_runs (r ∷ existing) runs = (rejected (length (r ∷ existing)), runs)
  admit run restart max_runs existing runs =
      (restarted existing, upsert run_id run (delete_each existing runs))
  admit run queue max_runs [] runs =
      if leb max_runs 0 then (rejected 0, runs) else (start, upsert run_id run runs)
  admit run queue max_runs (r ∷ existing) runs =
      if leb max_runs (length (r ∷ existing))
      then (rejected (length (r ∷ existing)), runs)
      else (queued, upsert run_id (record run { queued = true }) runs)

  -- the `UPDATE flow_runs … WHERE id = ?2 AND queued = 1`
  abbrev pub is_candidate : FlowRun J → FlowRun J → Bool
  is_candidate candidate row = row.id == candidate.id && row.queued

  abbrev pub started : FlowRun J → FlowRun J
  started candidate = record candidate { queued = false }

  -- the loop of `dequeue_next_flow_run` over the candidates
  unfoldable pub dequeue :
      List (FlowRun J) → List (FlowRun J) → Option (FlowRun J) × List (FlowRun J)
  dequeue [] runs = (none, runs)
  dequeue (candidate ∷ rest) runs = elim (eqb (count_rows (is_active candidate.flow_id) runs) 0) [
    | false ↦ dequeue rest runs
    | true ↦ elim (eqb (count_rows (is_candidate candidate) runs) 1) [
      | true ↦ (
        some (started candidate),
        update_rows (is_candidate candidate) (λ _. started candidate) runs,
      )
      | false ↦ dequeue rest (update_rows (is_candidate candidate) (λ _. started candidate) runs)
    ]
  ]

  -- the rows that `dequeue_next_flow_run` reads
  abbrev pub queued_runs : List (FlowRun J) → List (FlowRun J)
  queued_runs runs = take 100 (order_rows by_wake (where_rows (λ r. r.queued) runs))

module _ {F J : Type 0} where
  -- `save_flow_run_sql`
  unfoldable pub save_flow_run : FlowRun J → Method F J (Unit {0})
  save_flow_run run s = (ok tt, record s { flow_runs = upsert run_id run s.flow_runs })

  unfoldable pub admit_flow_run : FlowRun J → ConcurrencyPolicy → Method F J (FlowAdmission J)
  unfolding admit
  admit_flow_run run policy s =
      let (admission, runs) =
        admit run policy.mode policy.max_runs (existing_runs run.flow_id s.flow_runs) s.flow_runs in
      (ok admission, record s { flow_runs = runs })

  unfoldable pub dequeue_next_flow_run : Method F J (Option (FlowRun J))
  unfolding dequeue
  dequeue_next_flow_run s =
      let (next, runs) = dequeue (queued_runs s.flow_runs) s.flow_runs in
      (ok next, record s { flow_runs = runs })

  unfoldable pub due_flow_runs : ℕ → ℕ → Store F J → List (FlowRun J)
  due_flow_runs now limit s =
      take limit
        (order_rows by_wake (where_rows (λ r. not r.queued && leb r.wake_at now) s.flow_runs))

  unfoldable pub awaiting_flow_runs : ℕ → Store F J → List (FlowRun J)
  awaiting_flow_runs limit s = take limit (
      order_rows (λ a b. text_le a.id b.id)
        (where_rows (λ r. not r.queued && is_awaiting r.awaiting) s.flow_runs))

  unfoldable pub delete_flow_run : String → Method F J (Unit {0})
  delete_flow_run id s = (ok tt, record s { flow_runs = delete_rows (λ r. r.id == id) s.flow_runs })
