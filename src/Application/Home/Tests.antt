-- ===== src/Application/Home/Tests.antt =====
-- Requests of a command at a concrete home.
use robine.Prelude.{ℕ, ◌≡◌, refl, true, false, none, [], ◌∷◌, Result, ok, err, chars}
use robine.Flow.Syntax.Token.{is_whitespace}
use robine.Domain.{StateValue, is_valid_for}
use robine.Domain.Discovery.{is_blank, supports}
use robine.Domain.Model.{Entity, Command, CommandStatus, DeviceStatus}
use robine.Application.Errors.{ApplicationError}
use robine.Store.Events.{insert_event}
use robine.Store.Devices.{get_entity, is_entity_commandable}
use robine.Store.Commands.{find_command_by_idempotency, create_command, transition_command}
use robine.Application.Home.{Home, Call, CommandRequest, request_command_with_correlation}
use robine.Application.Home.Requests.{Keeps, Outcome, request_command-Outcome}
use robine.Application.Home.Repeated.{request_command-repeated}

running : Unit {0}
unfolding is_whitespace chars is_blank supports is_valid_for insert_event get_entity
    is_entity_commandable find_command_by_idempotency create_command transition_command
    request_command_with_correlation
running = tt

abbrev lamp : Entity
lamp = record {
  id = "lamp";
  name = "Lamp";
  kind = "light";
  capabilities = record { key = "switch"; version = 1 } ∷ [];
  area_id = none;
}

abbrev home : Home ℕ ℕ
home = record {
  store = record {
    devices =
        record {
          id = "device";
          adapter_id = "adapter";
          protocol_address = "1";
          name = "Lamp";
          status = DeviceStatus.available;
          entities = lamp ∷ [];
        }
        ∷ [];
    entities =
        record { id = "lamp"; device_id = "device"; protocol_address = "1"; payload = lamp } ∷ [];
    areas = [];
    adapter_health = [];
    entity_state = [];
    commands = [];
    events = [];
    last_sequence = 0;
    flows = [];
    flow_runs = [];
    flow_trigger_claims = [];
    flow_run_traces = [];
    automation_engine_cursor = none;
  };
  published = [];
}

-- An adapter that takes every command, and one that takes none
abbrev accept : Command ℕ → Call ℕ ℕ (Unit {0})
accept c w = (ok tt, w)

abbrev refuse : Command ℕ → Call ℕ ℕ (Unit {0})
refuse c w = (err (ApplicationError.infrastructure "unreachable"), w)

accept-Keeps : Keeps accept
accept-Keeps c id key w h = h

refuse-Keeps : Keeps refuse
refuse-Keeps c id key w h = h

abbrev switch_on : CommandRequest ℕ
switch_on = record {
  entity_id = "lamp";
  key = "switch";
  value = StateValue.bool true;
  idempotency_key = "once";
  now = 5;
  correlation_id = "cor";
}

abbrev switch_off : CommandRequest ℕ
switch_off = record switch_on { value = StateValue.bool false; now = 9 }

abbrev answer : Result ApplicationError (Command ℕ) × Home ℕ ℕ
answer = request_command_with_correlation "refused" accept "first" switch_on home

request_command-Outcome_example :
    Outcome "first" "once" home
      (request_command_with_correlation "refused" refuse "first" switch_on home)
request_command-Outcome_example =
    request_command-Outcome "refused" refuse refuse-Keeps "first" switch_on home

abbrev sent : Command ℕ
sent = record {
  id = "first";
  entity_id = "lamp";
  key = "switch";
  value = StateValue.bool true;
  correlation_id = "cor";
  idempotency_key = "once";
  requested_at = 5;
  status = CommandStatus.dispatched;
}

answer-sent : answer.0 ≡ ok sent
unfolding running
answer-sent = refl

answer-pair : answer ≡ (ok sent, answer.1)
unfolding running
answer-pair = refl

request_command-repeated_example :
    (known : Command ℕ) × (known.id ≡ "first")
    × (request_command_with_correlation "refused" accept "second" switch_off answer.1
        ≡ (ok known, answer.1))
request_command-repeated_example =
    request_command-repeated "refused" accept accept-Keeps "first" switch_on home sent answer.1
      answer-pair "second" switch_off refl
