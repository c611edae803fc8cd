-- ===== src/Lib.antt =====
-- Robine, a local home automation server: the core of its automation language, Flow.
--
-- A Flow document goes through four crates. crates/robine-flow-syntax reads its text (`parse`) to
-- the syntax tree of crates/robine-flow-ast (`FlowAst`, `Form`), whose `validate` checks the
-- sections of the root, and writes it back (`format`). crates/robine-flow-plan compiles the tree
-- to an `ExecutionPlan` (`compile`), and crates/robine-flow-runtime executes a plan
-- (`execute_from_resumption`) against a command gateway. crates/robine-flow-check looks for
-- mistakes in a tree before that (`validate`), against a catalog of the entities' capabilities. A
-- run may be suspended; the host then resumes it at the place that it names. The values that are
-- sent are those of crates/robine-domain, which also says which devices may be registered.
-- crates/robine-application holds the use cases: its `HomeService` sends commands, once for each
-- idempotency key, to an adapter, and records the states that adapters report.
-- crates/robine-store-sqlite keeps commands, states, the journal of events, and the runs of flows:
-- it admits runs by a flow's policy, starts queued ones, and lets a trigger be claimed once.
--
-- The files:
-- - Prelude, with the modules below it: shared notation, results, and lemmas. Result is Rust's
--   `Result`; Outcome is a result of a loop with fuel.
-- - Domain: crates/robine-domain/src/lib.rs, the values of commands and states. Discovery, below
--   it, has the validation of identifiers, capabilities and discovered devices; Distinct is a
--   proof. Model has the records of devices, flows, commands, states and events.
-- - Flow/Ast: crates/robine-flow-ast/src/lib.rs. Root says which roots are wanted; Accepts and
--   Exactly are proofs.
-- - Flow/Syntax: crates/robine-flow-syntax/src/lib.rs. Token has the classes of characters and the
--   spans, Lexer `lex` and `read_string`, Atom `atom` and `parse_number`, Parser the struct
--   `Parser` and `parse`, Format `format` and `format_form`. RoundTrip and Lexer/Total are proofs.
-- - Flow/Float: the operations of `f64` that the crates use, an interface.
-- - Flow/View: how the crates look into forms.
-- - Flow/Plan: crates/robine-flow-plan/src/lib.rs. Duration has `duration_milliseconds`, Options
--   `command_options`, Await `compile_await_trigger`, Action `compile_action`, Compile `compile`,
--   `flow_concurrency` and `flow_max_runtime`. The modules called Bounds are proofs.
-- - Flow/Check: crates/robine-flow-check/src/lib.rs; its `validate` is `validate_flow`. Supported,
--   Compiled, Plans and Commands are proofs, about the checker and the compiler together.
-- - Flow/Runtime: crates/robine-flow-runtime/src/lib.rs. Command has the gateway and the arm for
--   commands, Trace the trace and the results; Resume, Drive, Resumption, Values and Keys are
--   proofs.
-- - Application: crates/robine-application/src/lib.rs. Errors has its errors, Meta
--   `validate_meta_syntax`, which a flow has to pass when it is created; Meta/Policy is a proof.
--   Home has `HomeService` over the tables of the store; Requests and Repeated, below it, are
--   proofs. Runs, with Resume below it, has the runs of `FlowService`: `resume_run`, `resume_due`,
--   and the part of `execute_flow` from its admission on, which is `execute_plan`; Runs/Kept and
--   Runs/Started are proofs. Guard has `evaluate_guard`, Guard/Syntax `validate_guard_syntax`;
--   Guard/Sound is a proof. Choose has `resolve_choose_actions`, Choose/Resolved is a proof. Flows
--   has `execute_flow` and `execute_existing`, Flows/Executed is a proof. Triggers says which
--   flows and which suspended runs an event or a state concerns, Automation resumes and executes
--   those: `execute_event_triggered`, `execute_state_triggered`, `execute_scheduled`;
--   Triggers/Agree and Automation/Again are proofs. Schedule has the syntax of schedules and the
--   keys of their occurrences, `schedule_trigger_key`; Schedule/Bounds is a proof.
-- - Store: crates/robine-store-sqlite/src/lib.rs, the tables and what a method is. Events has the
--   journal and the cursor of its consumer, Commands the commands and the reported states, Runs
--   the runs of flows, Claims the claims of triggers, Retention the purge of the histories and the
--   traces, Devices what is read of devices and entities, Registry what is written to them and to
--   the adapters, Areas the areas and the names of entities, Flows the definitions of flows.
--   Events/Pages, Commands/Sweeps, Runs/Active, Runs/Exclusive, Runs/Admission, Runs/Next,
--   Claims/Once, Consistent with the modules below it, and Reach, which has the relation of one
--   call, are proofs.
-- - Prelude/Tables: what an SQL statement does to a list of rows, with lemmas below it.
-- - Flow/Samples and the modules called Tests: runs at concrete inputs.
--
-- How the code is read. A `String` is a list of characters where the code walks over it. An offset
-- of a span counts bytes of UTF-8. A `Vec<Form>` is a list, with a second data type inside `Form`.
-- The loops of the lexer and of the parser take fuel, one unit for each character or two for each
-- token, and one more; this is enough, since a round of the lexer takes a character, and a token
-- is taken by at most two rounds of the parser; the other loops are structural. A loop over an
-- index and the index after it is a recursion on the rest of the list. `f64` is a parameter, with
-- two laws about the conversion to `u64`; a `u8` keeps its wrap-around and its saturation. The
-- gateway of a run is a parameter, two functions that also change a state of its own. A run's id
-- is its text. The model of a run has no clock: a timer is a number in the result, and whoever
-- resumes is the host.
--
-- A table is the list of its rows in the order of insertion, which is the order of a statement
-- without `ORDER BY`, and a row is the value in its payload. An identifier (a `Uuid`) is its text,
-- and a new one is an argument. An instant (`DateTime<Utc>`) is a number of nanoseconds; the texts
-- of RFC 3339 in the columns are in the same order. A lock is never poisoned, and a statement
-- fails only where a constraint does, with a text that is an argument. A transaction that returns
-- an error is undone. A number that SQLite keeps in 64 bits does not overflow. The time zones of
-- chrono_tz, which say the local date and time of an instant, are an argument. What serde_json
-- reads and writes, and the parsing of a `Uuid`, are arguments: a plan and a trace that were
-- written are read again. The loop of `resume_due` has its bound, a hundred, as fuel. The
-- dispatcher of commands is an argument, which may change the tables while it dispatches. A slice
-- of a choice out of range, where the code panics, is an error.
--
-- Not modelled: serialisation by serde, the text of most error messages, the application's other
-- use cases, the store's tables of tokens with its migrations, its lists and pages of devices,
-- areas and adapters, protocols, servers and user interfaces.
pub mod Prelude
pub mod Domain
pub mod Flow
pub mod Application
pub mod Store
