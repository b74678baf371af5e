-- ===== src/Sqlite/Save.antt =====
-- Saving on SQLite: saveEventsOnConn and insertEventBatch of sqlite/sqlite_eventstore.go,
-- sqlite/group_commit_executor.go and sqlite/group_commit_request.go. An action on the open
-- transaction returns its result and the database as it leaves it, also where it fails.
pub mod Insert
pub mod Serial
pub mod Check
pub mod Exact
pub mod Invariant
use orisun.Base.{
  ℕ, zero, suc, ◌+◌, ◌-◌, ◌/◌, Bool, true, false, not, ◌&&◌, ◌||◌, Option, none, some, List, [],
  ◌∷◌, ◌++◌, ltb, ◌==◌, any, take, drop, length, if◌then◌else◌, pos, max_int64, map,
}
use orisun.Status.{
  Error, Result, ok, err, ◌>>=◌, ◌>>◌, coded, uncoded, invalid_argument, already_exists, internal,
  ContextError, from_context_error,
}
use orisun.Position.{Position, same}
use orisun.Query.{ReadCriterion, encode_read_criteria, validate_read_criteria}
use orisun.Document.{Document, PreparedEventDocument, positioned_document, request_fields}
use orisun.Sqlite.Predicate.{Conjunction}
use orisun.Sqlite.Table.{Row, Database, StoredObservation, generate_row}
use orisun.Sqlite.Consistency.{latest_criteria_queries, latest_prepared_criteria_position}

-- `ConsistencyCheck`
pub record ConsistencyCheck : Type 0 where
  pub criteria : List ReadCriterion
  pub position : Position

-- `preparedConsistencyCheck`: the queries, or the error of rendering them.
pub record PreparedConsistencyCheck : Type 0 where
  pub position : Position
  pub queries : Result (List Conjunction)

-- `prepareConsistencyChecks`
unfoldable pub prepare_consistency_checks : List ConsistencyCheck → List PreparedConsistencyCheck
unfolding latest_criteria_queries
prepare_consistency_checks [] = []
prepare_consistency_checks (check ∷ checks) =
    record { position = check.position; queries = latest_criteria_queries check.criteria }
    ∷ prepare_consistency_checks checks

-- `MarshalConsistency`, up to the JSON text.
unfoldable pub marshal_consistency : List ConsistencyCheck → Result (List StoredObservation)
marshal_consistency [] = ok []
marshal_consistency (check ∷ checks) = do
  validate_read_criteria check.criteria
  rest ← marshal_consistency checks
  ok (record { criteria = encode_read_criteria check.criteria; position = check.position } ∷ rest)

-- `preparedSQLiteSave`. `cancelled` is what `ctx.Err()` gives when the turn of the request comes.
pub record PreparedSqliteSave : Type 0 where
  pub cancelled : Option ContextError
  pub inserts : List PreparedEventDocument
  pub consistency : List StoredObservation
  pub prepared_checks : List PreparedConsistencyCheck

-- `prepareSQLiteSave`
unfoldable pub prepare_sqlite_save :
    Option ContextError
    → List PreparedEventDocument
    → List ConsistencyCheck
    → Result PreparedSqliteSave
unfolding marshal_consistency prepare_consistency_checks
prepare_sqlite_save cancelled inserts checks = do
  stored ← marshal_consistency checks
  ok (record {
    cancelled = cancelled;
    inserts = inserts;
    consistency = stored;
    prepared_checks = prepare_consistency_checks checks;
  })

-- The UNIQUE constraint on `global_id`.
pub has_global_id : ℕ → List Row → Bool
has_global_id id rows = any (λ row. row.global_id == id) rows

-- One INSERT with several rows. A statement that fails leaves the table as it was.
unfoldable pub insert_documents : List Row → List Document → Result (List Row)
unfolding has_global_id generate_row
insert_documents rows [] = ok rows
insert_documents rows (d ∷ ds) = elim (generate_row d) [
  | none ↦ err uncoded
  | some row ↦
      let rest = insert_documents (rows ++ row ∷ []) ds in
      if has_global_id row.global_id rows then err uncoded else rest
]

-- The documents of one chunk, the first of them at position `gid`.
unfoldable pub positioned_chunk : List PreparedEventDocument → ℕ → Document → Result (List Document)
unfolding positioned_document
positioned_chunk [] gid fields = ok []
positioned_chunk (event ∷ events) gid fields = do
  d ← positioned_document event gid fields
  ds ← positioned_chunk events (gid + 1) fields
  ok (d ∷ ds)

-- The body of the loop of `insertEventBatch`: one chunk, one INSERT.
unfoldable pub insert_chunk :
    List Row → List PreparedEventDocument → ℕ → Document → Result (List Row)
unfolding positioned_chunk insert_documents
insert_chunk rows events first fields = do
  ds ← positioned_chunk events first fields
  insert_documents rows ds

-- The loop of `insertEventBatch` over chunks of the size given. The fuel is the number of events.
unfoldable pub insert_chunks :
    ℕ → ℕ → List Row → List PreparedEventDocument → ℕ → Document → Result (Unit {0}) × List Row
unfolding insert_chunk
insert_chunks chunk fuel rows [] first fields = (ok tt, rows)
insert_chunks chunk zero rows (event ∷ events) first fields = (err uncoded, rows)
insert_chunks chunk (suc fuel) rows (event ∷ events) first fields =
    elim (insert_chunk rows (take chunk (event ∷ events)) first fields) [
      | err e ↦ (err e, rows)
      | ok rows' ↦
          insert_chunks chunk fuel rows' (drop chunk (event ∷ events)) (first + chunk) fields
    ]

abbrev pub sqlite_insert_params_per_event : ℕ
sqlite_insert_params_per_event = 1

abbrev pub sqlite_max_insert_params : ℕ
sqlite_max_insert_params = 999

pub sqlite_max_events_per_insert : ℕ
sqlite_max_events_per_insert = sqlite_max_insert_params / sqlite_insert_params_per_event

-- `insertEventBatch`, at the time `now`.
unfoldable pub insert_event_batch :
    List ℕ → List Row → List PreparedEventDocument → ℕ → ℕ → Result (Unit {0}) × List Row
unfolding insert_chunks request_fields
insert_event_batch now rows events first transaction_id =
    insert_chunks sqlite_max_events_per_insert (length events) rows events first
      (request_fields transaction_id now)

-- `insertWriteContext`; `write_id` is the primary key.
unfoldable pub insert_write_context :
    ℕ → List StoredObservation → Database → Result (Unit {0}) × Database
insert_write_context id consistency db =
    if any (λ write. write.0 == id) db.writes
    then (err uncoded, db)
    else (ok tt, record db { writes = db.writes ++ (id, consistency) ∷ [] })

-- The statements of `saveEventsOnConn` after `insertEventBatch`, on what that gives.
unfoldable pub after_insert : Database → ℕ → Result (Unit {0}) × List Row → Result ℕ × Database
after_insert db last (ok _, rows) = (ok last, record db { events = rows })
after_insert db last (err _, rows) = (err (coded internal), record db { events = rows })

-- The statements of `saveEventsOnConn` after `insertWriteContext`, on what that gives.
unfoldable pub after_write_context :
    List ℕ → List PreparedEventDocument → ℕ → ℕ → Result (Unit {0}) × Database → Result ℕ × Database
unfolding insert_event_batch after_insert
after_write_context now events first last (ok _, db) =
    after_insert db last (insert_event_batch now db.events events first last)
after_write_context now events first last (err e, db) = (err e, db)

-- `saveEventsOnConn`; the result is the last identifier, which is also the transaction's.
unfoldable pub save_events_on_conn :
    List ℕ
    → Database
    → List PreparedEventDocument
    → List StoredObservation
    → ℕ
    → Result ℕ × Database
unfolding after_write_context insert_write_context
save_events_on_conn now db events consistency first =
    if length events == 0 || ltb (max_int64 - first) (length events)
    then (err (coded internal), db)
    else let last = first + length events - 1 in
      after_write_context now events first last (insert_write_context last consistency db)

-- `sqlitex.Save` and its release: a failure rolls back to the savepoint.
unfoldable pub savepoint : Database → Result ℕ × Database → Result ℕ × Database
savepoint db (ok id, db') = (ok id, db')
savepoint db (err e, db') = (err e, db)

-- What a transaction meets besides the database: the time at which a request inserts its events, by its
-- first identifier, and whether SQLite runs the queries of a check.
pub record SaveEnv : Type 0 where
  pub time : ℕ → List ℕ
  pub runs : List Row → List Conjunction → Bool

-- The loop over the checks of `saveSavepointed`.
unfoldable pub run_checks :
    (List Row → List Conjunction → Bool)
    → List Row
    → List PreparedConsistencyCheck
    → Result (Unit {0})
unfolding latest_prepared_criteria_position
run_checks runs rows [] = ok tt
run_checks runs rows (check ∷ checks) = elim check.queries [
  | err _ ↦ err (coded invalid_argument)
  | ok queries ↦
      let rest = run_checks runs rows checks in
      if not (runs rows queries)
      then err uncoded
      else if same (latest_prepared_criteria_position rows queries) check.position
      then rest
      else err (coded already_exists)
]

-- `saveSavepointed`
unfoldable pub save_savepointed : SaveEnv → Database → PreparedSqliteSave → ℕ → Result ℕ × Database
unfolding run_checks savepoint save_events_on_conn
save_savepointed env db req first = elim (run_checks env.runs db.events req.prepared_checks) [
  | err e ↦ (err e, db)
  | ok _ ↦ savepoint db (save_events_on_conn (env.time first) db req.inserts req.consistency first)
]

-- `sqliteSaveResult`: the last identifier, or the error.
abbrev pub Outcome : Type 0
Outcome = Result ℕ

-- The loop of `executeTransaction`: the outcomes, the next identifier and the database.
pub record Progress : Type 0 where
  pub outcomes : List Outcome
  pub next : ℕ
  pub db : Database

-- The result of a save, and the identifier that the next one starts from.
unfoldable pub record_result : ℕ → Result ℕ × Database → Outcome × ℕ × Database
record_result next (ok id, db) = (ok id, id + 1, db)
record_result next (err e, db) = (err e, next, db)

-- One turn of the loop.
unfoldable pub execute_request :
    SaveEnv → PreparedSqliteSave → ℕ → Database → Outcome × ℕ × Database
unfolding save_savepointed from_context_error record_result
execute_request env req next db = elim req.cancelled [
  | some e ↦ (err (from_context_error e), next, db)
  | none ↦ record_result next (save_savepointed env db req next)
]

unfoldable pub execute_requests : SaveEnv → List PreparedSqliteSave → ℕ → Database → Progress
unfolding execute_request
execute_requests env [] next db = record { outcomes = []; next = next; db = db }
execute_requests env (req ∷ live) next db =
    let (r, next', db') = execute_request env req next db in
    let rest = execute_requests env live next' db' in record rest { outcomes = r ∷ rest.outcomes }

abbrev pub is_accepted : Outcome → Bool
is_accepted (ok id) = true
is_accepted (err e) = false

-- What SQLite reports of the statements that frame the transaction.
pub record TransactionIo : Type 0 where
  pub begin_ok : Bool
  pub read_sequence_ok : Bool
  pub update_sequence_ok : Bool
  pub commit_ok : Bool

-- `executeTransaction`. A transaction that fails is rolled back.
unfoldable pub execute_transaction :
    TransactionIo → SaveEnv → List PreparedSqliteSave → Database → Result (List Outcome) × Database
unfolding execute_requests
execute_transaction io env live db =
    if not io.begin_ok || not io.read_sequence_ok || ltb db.next_id 1
    then (err uncoded, db)
    else let p = execute_requests env live db.next_id db in
      if any is_accepted p.outcomes && not io.update_sequence_ok || not io.commit_ok
      then (err uncoded, db)
      else if any is_accepted p.outcomes
      then (ok p.outcomes, record (p.db) { next_id = p.next })
      else (ok p.outcomes, p.db)
