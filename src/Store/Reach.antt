-- ===== src/Store/Reach.antt =====
-- crates/robine-store-sqlite/src/lib.rs: the tables after any sequence of calls of the methods.
use robine.Prelude.{ℕ, ◌≡◌, String, true, false, Option, none, List, [], ◌==◌, arith}
use robine.Prelude.Tables.{has_row, All, Absent}
use robine.Flow.Float.{F64}
use robine.Flow.Plan.{ConcurrencyPolicy}
use robine.Domain.Model.{CommandStatus, Command, ReportedState, FlowRun}
use robine.Store.{Store}
use robine.Store.Events.{save_automation_engine_cursor}
use robine.Store.Commands.{
  create_command, transition_command, expire_commands, apply_reported_state,
}
use robine.Store.Runs.{
  run_id, save_flow_run, admit_flow_run, dequeue_next_flow_run, delete_flow_run,
}
use robine.Store.Claims.{claim_flow_trigger}
use robine.Store.Retention.{prune_retained_data, save_flow_trace}
use robine.Store.Consistent.{IsConsistent}
use robine.Domain.Discovery.{DeviceDiscovery}
use robine.Domain.Model.{Area, AdapterHealth, DeviceStatus, FlowDefinition}
use robine.Store.Flows.{create_flow, update_flow}
use robine.Store.Registry.{
  register_discovery, set_adapter_devices_status, rename_device, remove_device,
  upsert_adapter_health,
}
use robine.Store.Areas.{rename_entity, create_area, create_area_with_entities, assign_entity_area}
use robine.Store.Consistent.Runs.{
  admit_flow_run-IsConsistent, dequeue_next_flow_run-IsConsistent, delete_flow_run-IsConsistent,
  save_flow_run-IsConsistent, claim_flow_trigger-IsConsistent, prune_retained_data-IsConsistent,
  save_flow_trace-IsConsistent, consumed-IsConsistent,
}
use robine.Store.Consistent.Tables.{
  create_flow-IsConsistent, update_flow-IsConsistent, register_discovery-IsConsistent,
  set_adapter_devices_status-IsConsistent, rename_device-IsConsistent, remove_device-IsConsistent,
  upsert_adapter_health-IsConsistent, rename_entity-IsConsistent, assign_entity_area-IsConsistent,
  create_area-IsConsistent, create_area_with_entities-IsConsistent,
}
use robine.Store.Consistent.Commands.{
  create_command-IsConsistent, transition_command-IsConsistent, expire_commands-IsConsistent,
  apply_reported_state-IsConsistent,
}

module _ {F J : Type 0} (f : F64 F) (refusal : String) where
  -- One call of a method of `HomeRepository` that changes the tables, of the purge, or of the cursor's. A
  -- new run has an identifier of its own and is not queued; a run that is saved again is in the table, with
  -- its flow, and is not queued.
  pub data Step : Store F J → Store F J → Type 0 where
    created : (c : Command F) (s : Store F J) → Step s ((create_command refusal c s).1)
    transitioned :
        (id : String) (status : CommandStatus) (reason : Option String) (now : ℕ) (s : Store F J)
        → Step s ((transition_command refusal id status reason now s).1)
    expired :
        (before now limit : ℕ) (s : Store F J) → Step s ((expire_commands before now limit s).1)
    reported :
        (state : ReportedState F) (now : ℕ) (s : Store F J)
        → Step s ((apply_reported_state f refusal state now s).1)
    admitted :
        (run : FlowRun J) (policy : ConcurrencyPolicy) (s : Store F J)
        → run.queued ≡ false
        → Absent run_id run.id s.flow_runs
        → Step s ((admit_flow_run run policy s).1)
    dequeued : (s : Store F J) → Step s ((dequeue_next_flow_run s).1)
    suspended :
        (run : FlowRun J) (s : Store F J)
        → run.queued ≡ false
        → has_row (λ r. r.id == run.id) s.flow_runs ≡ true
        → All
            (λ r. (r.id == run.id) ≡ true → (r.flow_id ≡ run.flow_id) × (r.queued ≡ false))
            s.flow_runs
        → Step s ((save_flow_run run s).1)
    deleted : (id : String) (s : Store F J) → Step s ((delete_flow_run id s).1)
    claimed :
        (flow_id correlation_id : String) (now : ℕ) (s : Store F J)
        → Step s ((claim_flow_trigger flow_id correlation_id now s).1)
    traced :
        (id flow_id : String) (result : J) (now : ℕ) (s : Store F J)
        → Step s ((save_flow_trace id flow_id result now s).1)
    pruned :
        (now batch_size : ℕ) (s : Store F J) → Step s ((prune_retained_data now batch_size s).1)
    consumed : (sequence : ℕ) (s : Store F J) → Step s (save_automation_engine_cursor sequence s)
    flow_created :
        (flow : FlowDefinition J) (now : ℕ) (s : Store F J)
        → Step s ((create_flow refusal flow now s).1)
    flow_updated :
        (flow : FlowDefinition J) (now : ℕ) (s : Store F J) → Step s ((update_flow flow now s).1)
    registered :
        (new_device_id : String) (new_entity_id : ℕ → String) (discovery : DeviceDiscovery)
        (now : ℕ) (s : Store F J)
        → Step s ((register_discovery refusal new_device_id new_entity_id discovery now s).1)
    status_set :
        (adapter_id : String) (status : DeviceStatus) (now : ℕ) (s : Store F J)
        → Step s ((set_adapter_devices_status adapter_id status now s).1)
    device_renamed :
        (id name : String) (now : ℕ) (s : Store F J) → Step s ((rename_device id name now s).1)
    device_removed : (id : String) (now : ℕ) (s : Store F J) → Step s ((remove_device id now s).1)
    entity_renamed :
        (id name : String) (now : ℕ) (s : Store F J)
        → Step s ((rename_entity refusal id name now s).1)
    area_created :
        (area : Area) (now : ℕ) (s : Store F J) → Step s ((create_area refusal area now s).1)
    area_filled :
        (area : Area) (ids : List String) (now : ℕ) (s : Store F J)
        → Step s ((create_area_with_entities refusal area ids now s).1)
    area_assigned :
        (id : String) (area_id : Option String) (now : ℕ) (s : Store F J)
        → Step s ((assign_entity_area refusal id area_id now s).1)
    health_changed :
        (health : AdapterHealth) (s : Store F J) → Step s ((upsert_adapter_health health s).1)

  -- Every state that calls lead to from the tables of a new database
  pub data Reach : Store F J → Type 0 where
    opened : Reach (record {
      devices = [];
      entities = [];
      areas = [];
      adapter_health = [];
      entity_state = [];
      commands = [];
      events = [];
      last_sequence = 0;
      flows = [];
      flow_runs = [];
      flow_trigger_claims = [];
      flow_run_traces = [];
      automation_engine_cursor = none;
    })
    called : {s s' : Store F J} → Reach s → Step s s' → Reach s'

module _ {F J : Type 0} (f : F64 F) (refusal : String) where
  Step-IsConsistent : {s s' : Store F J} → Step f refusal s s' → IsConsistent s → IsConsistent s'
  Step-IsConsistent (created c s) h = create_command-IsConsistent refusal c s h
  Step-IsConsistent (transitioned id status reason now s) h =
      transition_command-IsConsistent refusal id status reason now s h
  Step-IsConsistent (expired before now limit s) h =
      expire_commands-IsConsistent before now limit s h
  Step-IsConsistent (reported state now s) h =
      apply_reported_state-IsConsistent f refusal state now s h
  Step-IsConsistent (admitted run policy s idle new) h =
      admit_flow_run-IsConsistent run policy s new h
  Step-IsConsistent (dequeued s) h = dequeue_next_flow_run-IsConsistent s h
  Step-IsConsistent (suspended run s idle found same) h =
      save_flow_run-IsConsistent run s idle found same h
  Step-IsConsistent (deleted id s) h = delete_flow_run-IsConsistent id s h
  Step-IsConsistent (claimed flow_id correlation_id now s) h =
      claim_flow_trigger-IsConsistent flow_id correlation_id now s h
  Step-IsConsistent (traced id flow_id result now s) h =
      save_flow_trace-IsConsistent id flow_id result now s h
  Step-IsConsistent (pruned now batch_size s) h =
      prune_retained_data-IsConsistent now batch_size s h
  Step-IsConsistent (consumed sequence s) h = consumed-IsConsistent sequence s h
  Step-IsConsistent (flow_created flow now s) h = create_flow-IsConsistent refusal flow now s h
  Step-IsConsistent (flow_updated flow now s) h = update_flow-IsConsistent flow now s h
  Step-IsConsistent (registered new_device_id new_entity_id discovery now s) h =
      register_discovery-IsConsistent refusal new_device_id new_entity_id discovery now s h
  Step-IsConsistent (status_set adapter_id status now s) h =
      set_adapter_devices_status-IsConsistent adapter_id status now s h
  Step-IsConsistent (device_renamed id name now s) h = rename_device-IsConsistent id name now s h
  Step-IsConsistent (device_removed id now s) h = remove_device-IsConsistent id now s h
  Step-IsConsistent (entity_renamed id name now s) h =
      rename_entity-IsConsistent refusal id name now s h
  Step-IsConsistent (area_created area now s) h = create_area-IsConsistent refusal area now s h
  Step-IsConsistent (area_filled area ids now s) h =
      create_area_with_entities-IsConsistent refusal area ids now s h
  Step-IsConsistent (area_assigned id area_id now s) h =
      assign_entity_area-IsConsistent refusal id area_id now s h
  Step-IsConsistent (health_changed health s) h = upsert_adapter_health-IsConsistent health s h

  -- On a new database, after any sequence of calls of the methods of HomeRepository that change tables, of
  -- the purge and of the method that keeps the consumer's place, the identifiers and the idempotency keys
  -- of commands and the identifiers of runs are unique, the sequences of the events increase up to the last
  -- number given out, at most one run of each flow is active, and no chain of causes has more than 32
  -- claims. The calls admit only new runs that are not queued, and save again only runs in the table, of
  -- the same flow, where neither the row nor the run is queued.
  pub Reach-IsConsistent : {s : Store F J} → Reach f refusal s → IsConsistent s
  Reach-IsConsistent opened = record {
    command_ids = tt;
    idempotency_keys = tt;
    numbered = omega arith;
    run_ids = tt;
    exclusive = λ flow_id. omega arith;
    bounded = λ chain. omega arith;
  }
  Reach-IsConsistent (called h step) = Step-IsConsistent step (Reach-IsConsistent h)
