-- ===== src/Store/Flows.antt =====
-- crates/robine-store-sqlite/src/lib.rs: the table of flows.
use robine.Prelude.{ℕ, String, Option, none, List, [], ◌∷◌, ◌++◌, ◌==◌, eqb, if◌then◌else◌, ok, err}
use robine.Prelude.Tables.{find_row, update_rows, has_row, count_rows, order_rows}
use robine.Domain.Model.{FlowDefinition, EventEnvelope, flow_created, flow_updated}
use robine.Application.Errors.{ApplicationError}
use robine.Store.{Store, Method}
use robine.Store.Events.{insert_event}
use robine.Store.Runs.{text_le}

module _ {F J : Type 0} where
  unfoldable pub create_flow : String → FlowDefinition J → ℕ → Method F J (EventEnvelope F J)
  unfolding insert_event
  create_flow refusal flow now s =
      if has_row (λ row. row.id == flow.id) s.flows
      then (err (ApplicationError.infrastructure refusal), s)
      else (let (event, s') =
            insert_event (flow_created flow) now none (record s { flows = s.flows ++ flow ∷ [] }) in
          (ok event, s'))

  unfoldable pub update_flow : FlowDefinition J → ℕ → Method F J (EventEnvelope F J)
  unfolding insert_event
  update_flow flow now s =
      if eqb (count_rows (λ row. row.id == flow.id) s.flows) 1
      then (let (event, s') =
            insert_event (flow_updated flow) now none
              (record s { flows = update_rows (λ row. row.id == flow.id) (λ _. flow) s.flows }) in
          (ok event, s'))
      else (err (ApplicationError.infrastructure "flow does not exist"), s)

  unfoldable pub get_flow : String → Store F J → Option (FlowDefinition J)
  get_flow id s = find_row (λ row. row.id == id) s.flows

  unfoldable pub list_flows : Store F J → List (FlowDefinition J)
  list_flows s = order_rows (λ a b. text_le a.id b.id) s.flows
