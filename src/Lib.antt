-- ===== src/Lib.antt =====
-- flowcontrol: the task-graph engine of flowcore, a store of projects, work packages, tasks and
-- steps with dependencies, verifications and an event log, over SQLite.
--
-- The parts, and how they interact. A request reaches `dispatch` (flowcore/src/store.rs), which
-- calls one operation. The operation opens one session on the connection, reads, writes inside
-- one transaction (flowcore/src/sql.rs) and appends events; the constraints, triggers and the
-- view of the schema (flowcore/migrations/0001_initial_schema.sql) decide what a statement does;
-- an error carries a code that is classified from its text (flowcore/src/error.rs). The daemon
-- reaches the operations through its native store (flowd/src/store/mod.rs), which runs each as a
-- task on a thread pool and then publishes the mutation of a write, and through the service of
-- flowd/src/grpc/mod.rs, whose unary methods pass on and whose watch streams replay the log and
-- then follow what is published. A JavaScript host reaches them through flowwasm/src/lib.rs,
-- whose sessions send each statement to a SQLite of the host's as text and JSON.
-- flowcore/src/db/mod.rs opens a database and brings it to the schema.
--
--   Common    names, tests on numbers, texts and lists, signed integers
--   Error     flowcore/src/error.rs: Code, DomainError, classify, from_db_message
--   Json      the part of serde_json's Value that the store builds and reads
--   Sql       flowcore/src/sql.rs: Value, Row and its accessors, transaction; the
--             trait Session and the native driver over rusqlite (Driver)
--   Message   the structs of flowcore/src/generated/flow.v1.rs that the store takes and gives
--   Schema    flowcore/migrations/0001_initial_schema.sql: the rows of the tables (Db), CHECKs,
--             foreign keys and parent-kind triggers (Checks), the trigger against cycles (Cycle),
--             ON DELETE CASCADE (Cascade), the view node_state (View), the hierarchy of work
--             packages, tasks and steps (Tree), the triggers' messages (Classified)
--   Statement the writing statements that store.rs sends, and their effect on a Db (Effect); a
--             connection with the database that a rollback brings back (Conn)
--   Store     flowcore/src/store.rs: one function for each `*_locked` operation, under its name,
--             its private helpers, and dispatch (Dispatch); what histories of requests keep
--             (Keeps, Invariant, History); failed requests and reads (Atomic); repeated writes
--             (Replay, Retry); pages of events (Queries/Paging); what a request tells of the log
--             (Told); dispatch from bytes to bytes (Codec, Wire), with its response messages
--             (Responses)
--   Native    flowd/src/store/mod.rs and watch.rs: the methods of NativeStore (Methods), and the
--             interleavings of tasks and publishing as a step relation (Steps)
--   Grpc      flowd/src/grpc/mod.rs: the unary methods (Unary) against dispatch (Agrees), and the
--             watch streams (Watch)
--   Wasm      flowwasm/src/lib.rs: HostSession, values, rows and envelopes as JSON;
--             against the native driver (Agrees); dispatch, with errors as texts (Errors)
--   Database  flowcore/src/db/mod.rs: open and seed; the version ratchet (Ratchet)
--   Examples  runs on a small plan
--
-- A session is a state-passing computation: `Run Conn A` takes a connection and gives a value or
-- an error, and the connection after it. The `?` operator is `>>=`. A table is a list of rows in
-- the order of insertion. A SELECT is a function of the database, an INSERT, UPDATE or DELETE is
-- a Statement. A history of requests (run) is served on one connection, which a COMMIT that is
-- refused leaves in an open transaction.
--
-- Taken from outside the repository, as the record Host: the clock, the randomness of an id, the
-- engine's texts for violated constraints, its refusal of a COMMIT, json_valid, the full-text
-- match, and serde_json's to_string and from_str. Nothing is assumed of them. The codec of the
-- messages (prost) is the record Codec. How a task ends (Fate), which branch of a select wakes a
-- watch stream and how many responses its client takes are arguments; the broadcast channel of
-- tokio is a list of what was sent, with the relation Delivers for what a receiver that does not
-- lag gets. rusqlite's connection is the records Rusqlite (statements) and Opening (files), the
-- two functions of a JavaScript host are the record JsHost, and the bridge's use of serde_json
-- the record Serde.
--
-- Bounds. The recursive query of the trigger against cycles runs on fuel, as many steps as the
-- table has rows, since each step adds the blocked node of a row. The recursive query for a
-- subtree runs one generation for each row of nodes. A position is wrapped to 32 bits where the
-- source casts it.
--
-- Not modelled: the encoding of messages (prost), the texts of the store's statements, which
-- stand for their effect on the tables, the failures of the engine itself (a full disk, a
-- corrupt file) on a statement other than COMMIT, so that a SELECT always answers and a write is
-- refused by the schema only, the command line of the daemon, the Go, TypeScript and Svelte
-- clients. A panic is an end of a task (Fate), at any connection if it holds the mutex; the
-- store's code has none of its own on the way of a request, but for the overflow that
-- list_events_locked can reach in a debug build.
pub mod Common
pub mod Error
pub mod Json
pub mod Sql
pub mod Message
pub mod Schema
pub mod Statement
pub mod Store
pub mod Native
pub mod Grpc
pub mod Wasm
pub mod Database
pub mod Examples
