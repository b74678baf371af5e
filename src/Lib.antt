-- ===== src/Lib.antt =====
-- A verification library for Orisun, an event store with command context consistency: a save names
-- the content queries that it read and the latest position that it saw of each, and is accepted
-- only if those positions are still the latest ones.
--
-- The parts of the program and how they interact. A caller submits a save to the group-commit
-- coordinator of its boundary (internal/groupcommit/coordinator.go), whose worker takes requests
-- from a bounded queue, forms a batch and hands it to the executor of the backend. The SQLite
-- executor (sqlite/group_commit_executor.go) runs the batch in one transaction, each request in a
-- savepoint: it runs the consistency checks of the request (sqlite/consistency.go) on the rows that
-- the requests before it left, numbers its events and inserts them (sqlite/sqlite_eventstore.go,
-- sqlite/event_document.go). A subscription (orisun/subscription_drain.go) reads the log from its
-- cursor and calls its handler. Lifecycle events of boundaries are folded into a catalog
-- (admin/slices/boundary_catalog/event_handler.go). Commands append those events: one defines a boundary
-- (admin/slices/create_boundary), a controller provisions it and appends the outcome, and each
-- process installs the boundaries that are active (admin/slices/boundary_provisioning). Commands on
-- admin users (admin/slices/create_user, change_password, delete_user) append to the same log.
--
-- The files. Base holds the shared names and lemmas (lists, tests, texts, integers). Status is
-- internal/statuscode/statuscode.go; a Go error is the code that it carries or that it carries none.
-- Position is Position and its comparisons. Query is orisun/query_predicates.go, Query.Codec and
-- Query.Durable its round trip through JSON. Decimal is the base-10 text of an integer, WriteContext orisun/write_context.go.
-- Number is internal/eventdata/number.go, and Document internal/eventdata/envelope.go with
-- sqlite/event_document.go. Sqlite.Predicate renders and evaluates the WHERE clauses,
-- Sqlite.Predicate.Meaning says what a content query means without encoding or rendering it, Sqlite.Table
-- has the tables and SELECT, Sqlite.Consistency is sqlite/consistency.go, Sqlite.Save the save
-- path and the group-commit executor, and Sqlite.Read the reads GetBatch and GetLatestByCriteria, each
-- with child modules for its theorems. Observations is orisun/consistency.go, which makes the
-- checks of a save. GroupCommit is the coordinator: its batches and flushes, and in
-- GroupCommit.Worker the steps of Submit, runWorker, failFast and Close. Drain is the subscription,
-- Catalog the boundary catalog, and Activation the gate of orisun/eventstore.go that exposes a
-- boundary once it is active. Boundaries is the boundary commands: Create and Provision are the two
-- command handlers with the bootstrap and the handler of definitions, Query the queries of the catalog
-- and the runtime handler, Subscriber the subscriber of lifecycle events, Replay the loop over pages
-- that both of these have, Logic what a command ensures and what it relies on. Users is the commands
-- on admin users, with the users of the SQLite admin database and their cache in Users/Table
-- (SqliteAdminDB in sqlite/sqlite_eventstore.go; its operations there run one after another) and the
-- projection of users into that table in Users/Projection (admin/slices/users_projection). Tests applies
-- the theorems to concrete inputs.
--
-- Conventions. A table is the list of its rows in the order in which they were inserted. A Go map is
-- a list of entries. A text is a String where the source compares it only, and a list of code points
-- where it is taken apart; a field of an event document is a JSON value that is parsed only as far
-- as the source parses it. int64 values are integers; the one place where the source could pass the
-- largest int64 (saveEventsOnConn) tests for it, and the test is in the model. An action on a
-- transaction returns its result and the database that it leaves, also where it fails.
--
-- Fuel. insert_chunks takes the number of events, which is enough since every chunk takes at least
-- one event. format_int takes its number plus one. drain has no bound in the source, since new events
-- may always arrive: the model takes the number of turns, and its theorem holds after every number.
-- replay takes the number of pages, one more than there are events being enough. append_activated takes
-- the turns of its loop, which the source does not bound either; its theorem holds after every number.
-- The steps
-- of the coordinator's worker have no fuel: after Close a measure goes down at every step.
--
-- Interleavings. The coordinator is a step relation, in which submitters, the worker and Close step in
-- any order; when a batch is full or a delay is over is left open. The boundary commands act on a world
-- that others may change before each of their calls; the record IsStore has what they rely on. An append
-- that fails may have been stored all the same, unless it failed as already existing. The commands on
-- users are modelled with one writer at a time, but also with replies that are lost, and the replays with a log that does not
-- change meanwhile.
--
-- Keys. SQLite reads the path that jsonPathLiteral writes up to the next double quote. A path that goes
-- on there finds nothing in the model, as does one with a backslash; the theorems on content queries
-- are for keys with neither.
--
-- Parameters. The executor of a flush, and what the backend, the check and the handler of a
-- subscription answer, are functions that the definitions take. What SQLite reports of the statements
-- that frame a transaction is an argument, and so are whether it answers a query of a check and the
-- time at which a request is saved (`SaveEnv`). The texts of error messages, metrics, logging, locks and
-- time-outs are left out, as are trimming and folding of texts, the hashing of passwords, the
-- identifiers and the encoding to JSON, which are parameters; what is relied on is stated with the theorem. Not modelled are the PostgreSQL backend
-- (its core runs in the server as SQL), the messaging over NATS, the gRPC and HTTP servers, the
-- projection of the count of users, the login, the other tables of the SQLite admin database, and
-- the loops that wait between two tries (Start of the subscriptions, Run, RunExclusive), except that of
-- the projection of users, whose waits are left out.
pub mod Base
pub mod Status
pub mod Position
pub mod Query
pub mod Decimal
pub mod WriteContext
pub mod Number
pub mod Document
pub mod Sqlite
pub mod Observations
pub mod GroupCommit
pub mod Drain
pub mod Catalog
pub mod Activation
pub mod Boundaries
pub mod Users
pub mod Tests
