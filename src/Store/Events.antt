-- ===== src/Store/Events.antt =====
-- crates/robine-store-sqlite/src/lib.rs: the journal of events, and the cursor of its consumer.
pub mod Pages
use robine.Prelude.{
  ℕ, ◌+◌, String, Bool, Option, none, some, List, [], ◌∷◌, ◌++◌, ltb, leb, if◌then◌else◌,
}
use mathlib.Core.List.{reverse}
use robine.Prelude.Tables.{where_rows, take, order_rows}
use robine.Domain.Model.{EventData, EventEnvelope}
use robine.Store.{Store}

-- `MAX(sequence, excluded.sequence)`
abbrev moved : Option ℕ → ℕ → ℕ
moved none n = n
moved (some m) n = if leb m n then n else m

module _ {F J : Type 0} where
  abbrev pub next_event : EventData F J → ℕ → Option String → Store F J → EventEnvelope F J
  next_event content now correlation_id s = record {
    sequence = s.last_sequence + 1;
    occurred_at = now;
    correlation_id = correlation_id;
    content = content;
  }

  -- `insert_event`: the envelope, and the tables with it
  unfoldable pub insert_event :
      EventData F J → ℕ → Option String → Store F J → EventEnvelope F J × Store F J
  insert_event content now correlation_id s =
      let event = next_event content now correlation_id s in
      (event, record s { events = s.events ++ event ∷ []; last_sequence = s.last_sequence + 1 })

  abbrev pub by_sequence : EventEnvelope F J → EventEnvelope F J → Bool
  by_sequence a b = leb a.sequence b.sequence

  unfoldable pub events_after : ℕ → ℕ → Store F J → List (EventEnvelope F J)
  events_after after limit s =
      take limit (order_rows by_sequence (where_rows (λ e. ltb after e.sequence) s.events))

  -- `ORDER BY sequence DESC LIMIT`, then reversed
  unfoldable pub recent_events : ℕ → Store F J → List (EventEnvelope F J)
  recent_events limit s = reverse (take limit (order_rows (λ a b. by_sequence b a) s.events))

  -- `MIN(sequence)`
  abbrev smallest : List (EventEnvelope F J) → Option ℕ
  smallest [] = none
  smallest (e ∷ events) = elim (smallest events) [
    | none ↦ some e.sequence
    | some n ↦ some (if leb e.sequence n then e.sequence else n)
  ]

  unfoldable pub earliest_event_sequence : Store F J → Option ℕ
  earliest_event_sequence s = smallest s.events

  -- `MAX(sequence)`, zero in an empty table
  abbrev pub largest : List (EventEnvelope F J) → ℕ
  largest [] = 0
  largest (e ∷ events) = let n = largest events in if leb n e.sequence then e.sequence else n

  unfoldable pub latest_event_sequence : Store F J → ℕ
  latest_event_sequence s = largest s.events

  unfoldable pub automation_engine_cursor : Store F J → Option ℕ
  automation_engine_cursor s = s.automation_engine_cursor

  unfoldable pub save_automation_engine_cursor : ℕ → Store F J → Store F J
  save_automation_engine_cursor n s = record s {
    automation_engine_cursor = some (moved s.automation_engine_cursor n);
  }
