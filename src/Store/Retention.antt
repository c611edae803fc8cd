-- ===== src/Store/Retention.antt =====
-- crates/robine-store-sqlite/src/lib.rs: the purge of the histories, and the traces of runs.
use robine.Prelude.{
  ℕ, ◌+◌, String, Bool, Option, none, some, List, ◌==◌, ◌&&◌, ◌||◌, ltb, leb, eqb, if◌then◌else◌,
  ok, err,
}
use robine.Prelude.Tables.{
  find_row, where_rows, delete_rows, has_row, count_rows, take, order_rows, upsert,
}
use robine.Domain.Model.{EventEnvelope}
use robine.Application.Errors.{ApplicationError}
use robine.Store.{Store, Method, Claim, FlowRunTrace}
use robine.Store.Claims.{retention, is_outdated}
use robine.Store.Runs.{text_le}

-- `RetentionPurge`
pub record RetentionPurge : Type 0 where
  pub events : ℕ
  pub flow_run_traces : ℕ
  pub flow_trigger_claims : ℕ

-- `WHERE key IN (SELECT key … WHERE … ORDER BY … LIMIT …)`
abbrev pub in_batch {ℓ} :
    {A : Type ℓ} → (A → A → Bool) → (A → Bool) → (A → A → Bool) → ℕ → List A → A → Bool
in_batch same test le batch_size rows row =
    has_row (same row) (take batch_size (order_rows le (where_rows test rows)))

abbrev same_claim : Claim → Claim → Bool
same_claim a b = a.flow_id == b.flow_id && a.correlation_id == b.correlation_id

abbrev claims_batch : ℕ → ℕ → List Claim → Claim → Bool
claims_batch now batch_size rows =
    in_batch same_claim (is_outdated now) (λ a b. leb a.claimed_at b.claimed_at) batch_size rows

module _ {J : Type 0} where
  abbrev pub trace_id : FlowRunTrace J → String
  trace_id trace = trace.id

  -- `ORDER BY recorded_at, id`
  abbrev by_recorded : FlowRunTrace J → FlowRunTrace J → Bool
  by_recorded a b =
      ltb a.recorded_at b.recorded_at || (eqb a.recorded_at b.recorded_at && text_le a.id b.id)

  abbrev traces_batch : ℕ → ℕ → List (FlowRunTrace J) → FlowRunTrace J → Bool
  traces_batch now batch_size rows =
      in_batch (λ a b. a.id == b.id) (λ t. ltb (t.recorded_at + retention) now) by_recorded
        batch_size rows

  -- The columns that a conflict leaves alone are those of the row before.
  abbrev save_trace : FlowRunTrace J → List (FlowRunTrace J) → List (FlowRunTrace J)
  save_trace trace rows = elim (find_row (λ t. t.id == trace.id) rows) [
    | none ↦ upsert trace_id trace rows
    | some old ↦ upsert trace_id (record trace { flow_id = old.flow_id }) rows
  ]

  abbrev the_result : Option (FlowRunTrace J) → Option J
  the_result none = none
  the_result (some trace) = some trace.result

module _ {F J : Type 0} where
  abbrev pub events_batch : ℕ → ℕ → List (EventEnvelope F J) → EventEnvelope F J → Bool
  events_batch now batch_size rows =
      in_batch (λ a b. eqb a.sequence b.sequence) (λ e. ltb (e.occurred_at + retention) now)
        (λ a b. leb a.sequence b.sequence) batch_size rows

  unfoldable pub prune_retained_data : ℕ → ℕ → Method F J RetentionPurge
  prune_retained_data now batch_size s =
      if leb 1 batch_size && leb batch_size 10000
      then (
        ok (record {
          events = count_rows (events_batch now batch_size s.events) s.events;
          flow_run_traces =
              count_rows (traces_batch now batch_size s.flow_run_traces) s.flow_run_traces;
          flow_trigger_claims =
              count_rows (claims_batch now batch_size s.flow_trigger_claims) s.flow_trigger_claims;
        }),
        record s {
          events = delete_rows (events_batch now batch_size s.events) s.events;
          flow_run_traces =
              delete_rows (traces_batch now batch_size s.flow_run_traces) s.flow_run_traces;
          flow_trigger_claims =
              delete_rows (claims_batch now batch_size s.flow_trigger_claims) s.flow_trigger_claims;
        },
      )
      else (err (ApplicationError.validation "Retention batch size must be between 1 and 10000"), s)

  unfoldable pub save_flow_trace : String → String → J → ℕ → Method F J (Unit {0})
  save_flow_trace id flow_id result now s = (
    ok tt,
    record s {
      flow_run_traces =
          save_trace (record { id = id; flow_id = flow_id; recorded_at = now; result = result })
            s.flow_run_traces;
    },
  )

  unfoldable pub get_flow_trace : String → Store F J → Option J
  get_flow_trace id s = the_result (find_row (λ t. t.id == id) s.flow_run_traces)

  -- `ORDER BY recorded_at DESC, id DESC`
  unfoldable pub list_flow_traces : String → ℕ → Store F J → List (FlowRunTrace J)
  list_flow_traces flow_id limit s = take limit (
      order_rows (λ a b. by_recorded b a)
        (where_rows (λ t. t.flow_id == flow_id) s.flow_run_traces))
