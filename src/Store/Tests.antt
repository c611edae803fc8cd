-- ===== src/Store/Tests.antt =====
-- The tables at concrete rows.
use robine.Prelude.{
  err, ℕ, ◌+◌, ◌≤◌, ◌≡◌, refl, String, Bool, true, false, none, some, List, [], ◌∷◌, ◌++◌, map,
  drop, ok, arith,
}
use robine.Prelude.Tables.{take, IsUnique}
use robine.Prelude.Tables.Keys.{eq-false-ne}
use robine.Domain.{StateValue}
use robine.Domain.Model.{
  command_requested, command_dispatched, CommandStatus, Command, ReportedState, FlowRun,
}
use robine.Flow.Samples.{whole_numbers}
use robine.Flow.Plan.{ConcurrencyPolicy, single}
use robine.Store.{Store}
use robine.Application.Errors.{ApplicationError}
use robine.Store.Commands.{
  create_command, expire_commands, apply_reported_state, confirm_rows, confirm_row,
}
use robine.Store.Commands.Sweeps.{command_id, expire, expire_commands-take}
use robine.Store.Runs.{admit_flow_run, dequeue, dequeue_next_flow_run}
use robine.Store.Claims.{claim_flow_trigger}
use robine.Store.Claims.Once.{ClaimRequest, grants, claims_once}
use robine.Store.Consistent.{IsConsistent}
use robine.Store.Events.{insert_event, events_after}
use robine.Store.Events.Pages.{page_last, events_after-pages}
use robine.Domain.Discovery.{DeviceDiscovery}
use robine.Store.Registry.{register_discovery, persisted_entities, put_entities}
use robine.Store.Reach.{
  registered, reported, created, admitted, claimed, opened, called, Reach-IsConsistent,
}

abbrev empty_store : Store ℕ ℕ
empty_store = record {
  devices = [];
  entities = [];
  areas = [];
  adapter_health = [];
  entity_state = [];
  commands = [];
  events = [];
  last_sequence = 0;
  flows = [];
  flow_runs = [];
  flow_trigger_claims = [];
  flow_run_traces = [];
  automation_engine_cursor = none;
}

abbrev lamp_on : String → ℕ → CommandStatus → Command ℕ
lamp_on id requested_at status = record {
  id = id;
  entity_id = "lamp";
  key = "switch";
  value = StateValue.bool true;
  correlation_id = "cor";
  idempotency_key = id;
  requested_at = requested_at;
  status = status;
}

abbrev two_commands : Store ℕ ℕ
two_commands = record empty_store {
  entities =
      record {
        id = "lamp";
        device_id = "bridge";
        protocol_address = "light/1";
        payload = record {
          id = "lamp";
          name = "Lamp";
          kind = "light";
          capabilities = [];
          area_id = none;
        };
      }
      ∷ [];
  commands = lamp_on "a" 5 CommandStatus.confirmed ∷ lamp_on "b" 7 CommandStatus.dispatched ∷ [];
}

two_commands-IsUnique : IsUnique command_id two_commands.commands
two_commands-IsUnique = ((eq-false-ne "b" "a" refl, tt), (tt, tt))

abbrev lamp_is_on : ReportedState ℕ
lamp_is_on = record {
  entity_id = "lamp";
  key = "switch";
  value = StateValue.bool true;
  source_at = 9;
}

-- With a limit of one row, the settled command in front hides the stale one behind it.
expire_commands-take_example :
    (expire_commands 100 200 1 two_commands).1.commands
    ≡ map (expire 100) (take 1 two_commands.commands) ++ drop 1 two_commands.commands
expire_commands-take_example = expire_commands-take 100 200 1 two_commands two_commands-IsUnique

-- The pending command is confirmed, and the other one is left as it is.
lamp_is_confirmed :
    (apply_reported_state whole_numbers "refused" lamp_is_on 10 two_commands).1.commands
    ≡ lamp_on "a" 5 CommandStatus.confirmed ∷ lamp_on "b" 7 CommandStatus.confirmed ∷ []
unfolding apply_reported_state confirm_rows confirm_row insert_event
lamp_is_confirmed = refl

-- An entity without a row
lamp_is_unknown :
    apply_reported_state whole_numbers "refused" lamp_is_on 10
      (record two_commands { entities = [] })
    ≡ (err (ApplicationError.infrastructure "refused"), record two_commands { entities = [] })
unfolding apply_reported_state
lamp_is_unknown = refl

abbrev run_of : String → String → Bool → FlowRun ℕ
run_of id flow_id queued = record {
  id = id;
  flow_id = flow_id;
  plan = 0;
  trace = none;
  retry_attempt = none;
  next_action = 0;
  wake_at = 3;
  awaiting = none;
  await_timeout_is_failure = false;
  correlation_id = "cor";
  deadline_at = none;
  queued = queued;
}

abbrev waiting_runs : Store ℕ ℕ
waiting_runs = record empty_store {
  flow_runs =
      run_of "a" "morning" false ∷ run_of "b" "morning" true ∷ run_of "c" "evening" true ∷ [];
}

-- The run of the flow whose other run is active waits.
dequeue_next_flow_run-evening :
    (dequeue_next_flow_run waiting_runs).0 ≡ ok (some (run_of "c" "evening" false))
unfolding dequeue_next_flow_run dequeue
dequeue_next_flow_run-evening = refl

abbrev asked_twice : List ClaimRequest
asked_twice =
    record { flow_id = "morning"; correlation_id = "evt_1"; now = 50 }
    ∷ record { flow_id = "evening"; correlation_id = "evt_1"; now = 51 }
    ∷ record { flow_id = "morning"; correlation_id = "evt_1"; now = 52 }
    ∷ []

claims_once_example : grants "morning" "evt_1" asked_twice [] ≤ 1
claims_once_example =
    claims_once "morning" "evt_1" 50 asked_twice []
      ((omega arith, omega arith), ((omega arith, omega arith), ((omega arith, omega arith), tt)))

abbrev one_at_a_time : ConcurrencyPolicy
one_at_a_time = record { mode = single; max_runs = 1 }

abbrev lamp_found : DeviceDiscovery
lamp_found = record {
  adapter_id = "adapter";
  protocol_address = "1";
  name = "Bridge";
  entities =
      record { protocol_address = "light/1"; name = "Lamp"; kind = "light"; capabilities = [] }
      ∷ [];
}

-- The tables after a discovery, a command, a report, a run and a claim
abbrev with_lamp : Store ℕ ℕ
with_lamp = (register_discovery "refused" "bridge" (λ _. "lamp") lamp_found 1 empty_store).1

abbrev with_command : Store ℕ ℕ
with_command = (create_command "refused" (lamp_on "a" 5 CommandStatus.requested) with_lamp).1

abbrev with_report : Store ℕ ℕ
with_report = (apply_reported_state whole_numbers "refused" lamp_is_on 10 with_command).1

abbrev with_run : Store ℕ ℕ
with_run = (admit_flow_run (run_of "a" "morning" false) one_at_a_time with_report).1

abbrev after_calls : Store ℕ ℕ
after_calls = (claim_flow_trigger "morning" "evt_1" 5 with_run).1

Reach-IsConsistent_example : IsConsistent after_calls
unfolding create_command apply_reported_state confirm_rows confirm_row insert_event
    register_discovery persisted_entities put_entities
Reach-IsConsistent_example = Reach-IsConsistent whole_numbers "refused" (
    called
      (called
        (called
          (called (called opened (registered "bridge" (λ _. "lamp") lamp_found 1 empty_store))
            (created (lamp_on "a" 5 CommandStatus.requested) with_lamp))
          (reported lamp_is_on 10 with_command))
        (admitted (run_of "a" "morning" false) one_at_a_time with_report refl tt))
      (claimed "morning" "evt_1" 5 with_run))

-- The lamp that was found reports the state that was asked for.
command_is_confirmed : with_report.commands ≡ lamp_on "a" 5 CommandStatus.confirmed ∷ []
unfolding create_command apply_reported_state confirm_rows confirm_row insert_event
    register_discovery persisted_entities put_entities
command_is_confirmed = refl

abbrev two_events : Store ℕ ℕ
two_events = record empty_store {
  events =
      record {
        sequence = 2;
        occurred_at = 5;
        correlation_id = none;
        content = command_requested (lamp_on "a" 5 CommandStatus.requested);
      }
      ∷ record {
        sequence = 4;
        occurred_at = 6;
        correlation_id = none;
        content = command_dispatched (lamp_on "a" 5 CommandStatus.dispatched);
      }
      ∷ [];
  last_sequence = 4;
}

events_after-pages_example :
    events_after 0 (1 + 1) two_events
    ≡ events_after 0 1 two_events
      ++ events_after (page_last 0 (events_after 0 1 two_events)) 1 two_events
events_after-pages_example =
    events_after-pages 0 1 1 two_events (omega arith) (omega arith, (omega arith, omega arith))
