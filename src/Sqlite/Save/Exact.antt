-- ===== src/Sqlite/Save/Exact.antt =====
-- When a request of a flush is accepted, and what it then leaves in the database.
use orisun.Base.{
  ℕ, ◌+◌, ◌-◌, ◌≤◌, ◌<◌, ◌≡◌, refl, ◌⊎◌, Bool, true, false, not, ◌&&◌, ◌||◌, none, some, List, [],
  ◌∷◌, ◌++◌, all, any, All, length, ltb, ◌==◌, arith, Bool-cases, Option-cases, inl, inr, max_int64,
}
use orisun.Status.{is_ok, ContextError, Result, ok, err, Result-cases}
use orisun.Document.{PreparedEventDocument}
use orisun.Sqlite.Table.{Row, Database, StoredObservation}
use orisun.Sqlite.Save.Check.{ArePlainCheck, CheckHolds, run_checks_iff}
use orisun.Sqlite.Save.{
  ConsistencyCheck, prepare_consistency_checks, prepare_sqlite_save, marshal_consistency,
  record_result, PreparedSqliteSave, insert_event_batch, insert_write_context, after_insert,
  SaveEnv, after_write_context, save_events_on_conn, savepoint, run_checks, save_savepointed,
  execute_request, is_accepted, sqlite_max_events_per_insert,
}
use orisun.Sqlite.Save.Insert.{
  is_encodable, stored_rows, Below, insert_chunks_lem, insert_chunks_fails,
}

-- Nothing in the database has an identifier from `first` on.
pub record IsFresh (first : ℕ) (db : Database) : Type 0 where
  pub events_below : Below first db.events
  pub writes_below : All (λ (w : ℕ × List StoredObservation). w.0 < first) db.writes

-- The conditions on the events of a save that starts at `first`.
abbrev pub can_insert : List PreparedEventDocument → ℕ → Bool
can_insert events first =
    not (length events == 0)
    && not (ltb (max_int64 - first) (length events))
    && all is_encodable events

abbrev pub last_id : ℕ → List PreparedEventDocument → ℕ
last_id first events = first + length events - 1

-- The database after the save.
abbrev pub with_save :
    List ℕ → Database → List PreparedEventDocument → List StoredObservation → ℕ → Database
with_save now db events consistency first = record db {
  events = db.events ++ stored_rows (last_id first events) now events first;
  writes = db.writes ++ (last_id first events, consistency) ∷ [];
}

write_fresh :
    (first id : ℕ) (writes : List (ℕ × List StoredObservation))
    → first ≤ id
    → All (λ (w : ℕ × List StoredObservation). w.0 < first) writes
    → any (λ (w : ℕ × List StoredObservation). w.0 == id) writes ≡ false
write_fresh first id [] h b = refl
write_fresh first id (w ∷ writes) h b = ground (arith, write_fresh first id writes h b.1)

insert_event_batch_lem :
    (now : List ℕ) (rows : List Row) (events : List PreparedEventDocument) (first last : ℕ)
    → all is_encodable events ≡ true
    → Below first rows
    → insert_event_batch now rows events first last
      ≡ (ok tt, rows ++ stored_rows last now events first)
unfolding insert_event_batch sqlite_max_events_per_insert
insert_event_batch_lem now rows events first last good b =
    insert_chunks_lem last now sqlite_max_events_per_insert (length events) events first rows
      (omega arith) (omega arith) good b

insert_event_batch_fails :
    (now : List ℕ) (rows : List Row) (events : List PreparedEventDocument) (first last : ℕ)
    → all is_encodable events ≡ false
    → is_ok (insert_event_batch now rows events first last).0 ≡ false
unfolding insert_event_batch
insert_event_batch_fails now rows events first last bad =
    insert_chunks_fails last now sqlite_max_events_per_insert (length events) events first rows bad

-- Whether the result of an action is an error.
abbrev is_failed : {A : Type 0} → {B : Type 0} → Result A × B → Bool
is_failed (r, b) = not (is_ok r)

savepoint_fails :
    (db : Database) (r : Result ℕ × Database)
    → is_failed r ≡ true
    → (is_failed (savepoint db r) ≡ true) × ((savepoint db r).1 ≡ db)
unfolding savepoint
savepoint_fails db (ok _, db') bad = ground arith
savepoint_fails db (err e, db') bad = (refl, refl)

module _ (now : List ℕ) (events : List PreparedEventDocument) (consistency : List StoredObservation)
    (first : ℕ) where
  insert_write_context_lem :
      (db : Database) (id : ℕ)
      → first ≤ id
      → All (λ (w : ℕ × List StoredObservation). w.0 < first) db.writes
      → insert_write_context id consistency db
        ≡ (ok tt, record db { writes = db.writes ++ (id, consistency) ∷ [] })
  unfolding insert_write_context
  insert_write_context_lem db id h b = rw (write_fresh first id db.writes h b) refl

  save_events_on_conn_ok :
      (db : Database)
      → can_insert events first ≡ true
      → IsFresh first db
      → save_events_on_conn now db events consistency first
        ≡ (ok (last_id first events), with_save now db events consistency first)
  unfolding save_events_on_conn after_write_context after_insert
  save_events_on_conn_ok db good f =
      let guard : (length events == 0 || ltb (max_int64 - first) (length events)) ≡ false =
        ground arith in
      let above : first ≤ last_id first events = ground arith in
      let encodable : all is_encodable events ≡ true = ground arith in
      rw
        (
          guard,
          insert_write_context_lem db (last_id first events) above f.writes_below,
          insert_event_batch_lem now db.events events first (last_id first events) encodable
              f.events_below,
        )
        refl

  after_insert_fails :
      (db : Database) (last : ℕ) (r : Result (Unit {0}) × List Row)
      → is_ok r.0 ≡ false
      → is_failed (after_insert db last r) ≡ true
  unfolding after_insert
  after_insert_fails db last (ok _, rows) bad = ground arith
  after_insert_fails db last (err _, rows) bad = refl

  after_write_context_fails :
      (last : ℕ) (r : Result (Unit {0}) × Database)
      → all is_encodable events ≡ false
      → is_failed (after_write_context now events first last r) ≡ true
  unfolding after_write_context
  after_write_context_fails last (ok _, db) bad =
      after_insert_fails db last _ (insert_event_batch_fails now db.events events first last bad)
  after_write_context_fails last (err _, db) bad = refl

  save_events_on_conn_fails :
      (db : Database)
      → can_insert events first ≡ false
      → is_failed (save_events_on_conn now db events consistency first) ≡ true
  unfolding save_events_on_conn
  save_events_on_conn_fails db bad =
      elim (Bool-cases (length events == 0 || ltb (max_int64 - first) (length events))) [
        | inl e ↦ rw e refl
        | inr e ↦ rw e (after_write_context_fails (last_id first events) _ (ground arith))
      ]

-- What a turn of the loop does to a request that it accepts.
pub record IsSaved (env : SaveEnv) (req : PreparedSqliteSave) (next : ℕ) (db : Database)
    : Type 0 where
  pub checked : is_ok (run_checks env.runs db.events req.prepared_checks) ≡ true
  pub insertable : can_insert req.inserts next ≡ true
  pub saved : execute_request env req next db ≡ (
    ok (last_id next req.inserts),
    last_id next req.inserts + 1,
    with_save (env.time next) db req.inserts req.consistency next,
  )

-- What it does to one that it rejects.
pub record IsRejected (env : SaveEnv) (req : PreparedSqliteSave) (next : ℕ) (db : Database)
    : Type 0 where
  pub refused : is_accepted ((execute_request env req next db).0) ≡ false
  pub kept_next : (execute_request env req next db).1 ≡ next
  pub kept_db : (execute_request env req next db).2 ≡ db

record_result_fails :
    (next : ℕ) (r : Result ℕ × Database) (db : Database)
    → is_failed r ≡ true
    → r.1 ≡ db
    → (is_accepted (record_result next r).0 ≡ false)
      × ((record_result next r).1 ≡ next)
      × ((record_result next r).2 ≡ db)
unfolding record_result
record_result_fails next (ok id, db') db bad same = ground arith
record_result_fails next (err e, db') db bad same = (refl, refl, same)

module _ (env : SaveEnv) (req : PreparedSqliteSave) (next : ℕ) (db : Database) where
  save_savepointed_ok :
      is_ok (run_checks env.runs db.events req.prepared_checks) ≡ true
      → save_savepointed env db req next
        ≡ savepoint db (save_events_on_conn (env.time next) db req.inserts req.consistency next)
  unfolding save_savepointed
  save_savepointed_ok h = elim (Result-cases (run_checks env.runs db.events req.prepared_checks)) [
    | inl (a, e) ↦ rw (e, save_savepointed) refl
    | inr (x, e) ↦ ground arith
  ]

  save_savepointed_fails :
      is_ok (run_checks env.runs db.events req.prepared_checks) ≡ false
      → (is_failed (save_savepointed env db req next) ≡ true)
        × ((save_savepointed env db req next).1 ≡ db)
  unfolding save_savepointed
  save_savepointed_fails h =
      elim (Result-cases (run_checks env.runs db.events req.prepared_checks)) [
        | inl (a, e) ↦ ground arith
        | inr (x, e) ↦ rw (e, save_savepointed) (refl, refl)
      ]

  fails-IsRejected :
      req.cancelled ≡ none
      → is_failed (save_savepointed env db req next) ≡ true
      → (save_savepointed env db req next).1 ≡ db
      → IsRejected env req next db
  unfolding execute_request
  fails-IsRejected live bad same =
      let (a, b, c) = record_result_fails next (save_savepointed env db req next) db bad same in
      record {
        refused = rw (live, execute_request) a;
        kept_next = rw (live, execute_request) b;
        kept_db = rw (live, execute_request) c;
      }

  cancelled-IsRejected : (e : ContextError) → req.cancelled ≡ some e → IsRejected env req next db
  unfolding execute_request
  cancelled-IsRejected e h = record {
    refused = rw (h, execute_request) refl;
    kept_next = rw (h, execute_request) refl;
    kept_db = rw (h, execute_request) refl;
  }

  passes-IsSaved :
      req.cancelled ≡ none
      → IsFresh next db
      → is_ok (run_checks env.runs db.events req.prepared_checks) ≡ true
      → can_insert req.inserts next ≡ true
      → IsSaved env req next db
  unfolding execute_request savepoint record_result
  passes-IsSaved live fresh h good = record {
    checked = h;
    insertable = good;
    saved =
        rw
          (
            live,
            execute_request,
            save_savepointed_ok h,
            save_events_on_conn_ok (env.time next) req.inserts req.consistency next db good fresh,
          )
          refl;
  }

  execute_live_cases :
      req.cancelled ≡ none → IsFresh next db → IsSaved env req next db ⊎ IsRejected env req next db
  execute_live_cases live fresh =
      elim (Bool-cases (is_ok (run_checks env.runs db.events req.prepared_checks))) [
        | inl h ↦ elim (Bool-cases (can_insert req.inserts next)) [
          | inl good ↦ inl (passes-IsSaved live fresh h good)
          | inr bad ↦
              let f = savepoint_fails db _ (
                save_events_on_conn_fails (env.time next) req.inserts req.consistency next db
                  bad) in
              inr (
                fails-IsRejected live (rw (save_savepointed_ok h) f.0)
                  (rw (save_savepointed_ok h) f.1))
        ]
        | inr h ↦ let f = save_savepointed_fails h in inr (fails-IsRejected live f.0 f.1)
      ]

  pub execute_request_cases : IsFresh next db → IsSaved env req next db ⊎ IsRejected env req next db
  execute_request_cases fresh = elim (Option-cases req.cancelled) [
    | inl live ↦ execute_live_cases live fresh
    | inr (e, h) ↦ inr (cancelled-IsRejected e h)
  ]

-- What `prepareSQLiteSave` makes when the observations can be stored.
abbrev prepared :
    List PreparedEventDocument → List ConsistencyCheck → List StoredObservation → PreparedSqliteSave
prepared inserts checks stored = record {
  cancelled = none;
  inserts = inserts;
  consistency = stored;
  prepared_checks = prepare_consistency_checks checks;
}

saved-accepted :
    (env : SaveEnv) (req : PreparedSqliteSave) (next : ℕ) (db : Database)
    → IsSaved env req next db
    → is_accepted (execute_request env req next db).0 ≡ true
saved-accepted env req next db s = rw s.saved refl

-- The two ways in which a turn of the loop may end for a request with these events and checks.
abbrev pub AcceptedOrRejected :
    SaveEnv
    → List PreparedEventDocument
    → List ConsistencyCheck
    → PreparedSqliteSave
    → ℕ
    → Database
    → Type 0
AcceptedOrRejected env inserts checks req next db =
    (All (CheckHolds env.runs db.events) checks
      × (can_insert inserts next ≡ true)
      × (execute_request env req next db ≡ (
        ok (last_id next inserts),
        last_id next inserts + 1,
        with_save (env.time next) db inserts req.consistency next,
      )))
    ⊎ (¬ (All (CheckHolds env.runs db.events) checks × (can_insert inserts next ≡ true))
        × (is_accepted (execute_request env req next db).0 ≡ false)
        × ((execute_request env req next db).1 ≡ next)
        × ((execute_request env req next db).2 ≡ db))

-- For a request that `prepareSQLiteSave` made from events and consistency checks whose keys have no
-- double quote and no backslash, and that is not cancelled, in a database with nothing at or above the next identifier, one turn of the loop does
-- one of two things. Either every check can be rendered, is answered by SQLite and holds, the events can be inserted (at
-- least one, each encodable, the last identifier in range), and the request is accepted: the result
-- is its last identifier, the next identifier is the one after it, and the database has exactly the
-- events' rows and the write context added. Or one of these fails, the request is rejected, and the
-- next identifier and the database are as before.
pub ccc_exact :
    (env : SaveEnv) (inserts : List PreparedEventDocument) (checks : List ConsistencyCheck)
    (req : PreparedSqliteSave) (next : ℕ) (db : Database)
    → All ArePlainCheck checks
    → prepare_sqlite_save none inserts checks ≡ ok req
    → IsFresh next db
    → AcceptedOrRejected env inserts checks req next db
unfolding prepare_sqlite_save
ccc_exact env inserts checks req next db plain h fresh =
    elim (Result-cases (marshal_consistency checks)) [
      | inl (stored, e) ↦
          let shape : prepared inserts checks stored ≡ req = ground arith in
          let passed = run_checks_iff env.runs db.events checks plain in
          rw (← shape)
            (elim (execute_request_cases env (prepared inserts checks stored) next db fresh) [
              | inl s ↦ inl (passed.0 s.checked, s.insertable, s.saved)
              | inr r ↦ inr (
                λ (v, good). ground (
                  arith,
                  r.refused,
                  saved-accepted env (prepared inserts checks stored) next db (
                      passes-IsSaved env (prepared inserts checks stored) next db refl fresh
                        (passed.1 v) good),
                ),
                r.refused,
                r.kept_next,
                r.kept_db,
              )
            ])
      | inr (x, e) ↦ ground arith
    ]
