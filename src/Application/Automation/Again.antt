-- ===== src/Application/Automation/Again.antt =====
-- crates/robine-application/src/lib.rs: an event is consumed once.
use robine.Prelude.{ℕ, ◌+◌, ◌≤◌, ◌≡◌, refl, String, true, List, [], ◌∷◌, err}
use robine.Prelude.Tables.{has_row, All}
use robine.Domain.Model.{Command, FlowDefinition, EventEnvelope}
use robine.Application.Errors.{FlowError}
use robine.Flow.Float.{F64}
use robine.Application.Home.{Home, Call}
use robine.Application.Runs.{Outside}
use robine.Application.Runs.Resume.{Executions}
use robine.Application.Triggers.{event_trigger_matches}
use robine.Application.Automation.{
  keep, await_matches_event, triggered, claim_and_execute, claim_each, event_correlation,
  execute_event_triggered,
}
use robine.Store.{Claim}
use robine.Store.Flows.{list_flows}
use robine.Store.Runs.{awaiting_flow_runs}
use robine.Store.Claims.{retention, claim, claim_flow_trigger}
use robine.Store.Claims.Once.{is_recent, claim-recent, claim-again}

-- A flow whose trigger was claimed at an instant or later
abbrev pub IsClaimed : {J : Type 0} → String → ℕ → List Claim → FlowDefinition J → Type 0
IsClaimed correlation_id start rows flow =
    has_row (is_recent flow.id correlation_id start) rows ≡ true

module _ {F J : Type 0} where
  -- the home with another table of claims
  abbrev pub with_claims : List Claim → Home F J → Home F J
  with_claims rows w = record w { store = record w.store { flow_trigger_claims = rows } }

  module _ (f : F64 F) (o : Outside F J) (refusal : String)
      (dispatch : Command F → Call F J (Unit {0})) where
    -- Nothing is executed, and the table of claims alone may be another one.
    pub record IsIdle (w : Home F J) (r : Executions o refusal dispatch) : Type 0 where
      pub nothing_executed : r.0 ≡ []
      pub rest_unchanged : r.1 ≡ with_claims ((r.1).store.flow_trigger_claims) w

    claimed-again :
        (correlation_id : String) (start now : ℕ) (flow : FlowDefinition J) (w : Home F J)
        → now ≤ start + retention
        → IsClaimed correlation_id start w.store.flow_trigger_claims flow
        → claim_and_execute f o refusal dispatch flow now correlation_id w ≡ (
          err FlowError.already_consumed,
          with_claims ((claim flow.id correlation_id now w.store.flow_trigger_claims).1) w,
        )
    unfolding claim_flow_trigger
    claimed-again correlation_id start now flow w le h =
        rw (claim-again flow.id correlation_id start now w.store.flow_trigger_claims le h) refl

    still-IsClaimed :
        (correlation_id : String) (start now : ℕ) (flow : FlowDefinition J)
        (flows : List (FlowDefinition J)) (rows : List Claim)
        → now ≤ start + retention
        → All (IsClaimed correlation_id start rows) flows
        → All (IsClaimed correlation_id start ((claim flow.id correlation_id now rows).1)) flows
    still-IsClaimed correlation_id start now flow [] rows le h = tt
    still-IsClaimed correlation_id start now flow (other ∷ flows) rows le h = (
      claim-recent other.id correlation_id start
          (record { flow_id = flow.id; correlation_id = correlation_id; now = now }) rows le h.0,
      still-IsClaimed correlation_id start now flow flows rows le h.1,
    )

    claim_each-IsIdle :
        (correlation_id : String) (start now : ℕ) (flows : List (FlowDefinition J)) (w : Home F J)
        → now ≤ start + retention
        → All (IsClaimed correlation_id start w.store.flow_trigger_claims) flows
        → IsIdle w (claim_each f o refusal dispatch flows now correlation_id w)
    claim_each-IsIdle correlation_id start now [] w le h = record {
      nothing_executed = refl;
      rest_unchanged = refl;
    }
    claim_each-IsIdle correlation_id start now (flow ∷ flows) w le h =
        let rows = (claim flow.id correlation_id now w.store.flow_trigger_claims).1 in
        let rest = claim_each-IsIdle correlation_id start now flows (with_claims rows w) le (
          still-IsClaimed correlation_id start now flow flows w.store.flow_trigger_claims le h.1) in
        rw (claimed-again correlation_id start now flow w le h.0) (record {
          nothing_executed = rest.nothing_executed;
          rest_unchanged = rest.rest_unchanged;
        })

    -- If no suspended run awaits an event, and each enabled flow that it triggers has claimed its
    -- correlation within the last thirty days, then execute_event_triggered executes nothing and changes
    -- nothing but the table of claims: an event that is delivered again is not carried out again.
    pub execute_event_triggered-IsIdle :
        (e : EventEnvelope F J) (start now : ℕ) (w : Home F J)
        → now ≤ start + retention
        → keep
            (λ run. await_matches_event f o refusal dispatch run e)
            (awaiting_flow_runs 100 w.store)
          ≡ []
        → All
            (IsClaimed
              (event_correlation f o refusal dispatch e e.correlation_id)
              start
              w.store.flow_trigger_claims)
            (triggered f o refusal dispatch
              (λ ast. event_trigger_matches ast e)
              (list_flows w.store))
        → IsIdle w (execute_event_triggered f o refusal dispatch e now w)
    unfolding execute_event_triggered
    execute_event_triggered-IsIdle e start now w le quiet h =
        let idle =
          claim_each-IsIdle (event_correlation f o refusal dispatch e e.correlation_id) start now
            (triggered f o refusal dispatch (λ ast. event_trigger_matches ast e)
              (list_flows w.store))
            w le h in
        rw quiet (record {
          nothing_executed = idle.nothing_executed;
          rest_unchanged = idle.rest_unchanged;
        })
