-- ===== src/Sqlite/Save/Serial.antt =====
-- The requests of one flush, and the same requests in transactions of their own.
use orisun.Base.{
  ℕ, ◌+◌, ◌-◌, ◌==◌, max_int64, ◌≤◌, ◌≡◌, refl, ap, ◌∙◌, sym, true, false, ◌||◌, List, [], ◌∷◌,
  ◌++◌, any, length, ltb, arith, if◌then◌else◌, Bool-cases, Option-cases, inl, inr,
}
use orisun.Status.{Result, ok, err, ◌>>=◌, Result-cases}
use orisun.Document.{PreparedEventDocument}
use orisun.Sqlite.Table.{Row, Database, StoredObservation}
use orisun.Sqlite.Save.{
  SaveEnv, PreparedSqliteSave, Outcome, Progress, TransactionIo, insert_write_context, after_insert,
  after_write_context, save_events_on_conn, savepoint, save_savepointed, record_result, run_checks,
  execute_request, execute_requests, execute_transaction, is_accepted, insert_event_batch,
}

-- The database with another next identifier.
abbrev with_next : ℕ → Database → Database
with_next k db = record db { next_id = k }

abbrev both {ℓ} : {A : Type ℓ} → ℕ → A × Database → A × Database
both k (a, db) = (a, with_next k db)

after_insert-both :
    (k : ℕ) (db : Database) (last : ℕ) (r : Result (Unit {0}) × List Row)
    → after_insert (with_next k db) last r ≡ both k (after_insert db last r)
unfolding after_insert
after_insert-both k db last (ok _, rows) = refl
after_insert-both k db last (err _, rows) = refl

after_write_context-both :
    (k : ℕ) (now : List ℕ) (events : List PreparedEventDocument) (first last : ℕ)
    (r : Result (Unit {0}) × Database)
    → after_write_context now events first last (both k r)
      ≡ both k (after_write_context now events first last r)
unfolding after_write_context
after_write_context-both k now events first last (ok _, db) =
    after_insert-both k db last (insert_event_batch now db.events events first last)
after_write_context-both k now events first last (err e, db) = refl

savepoint-both :
    (k : ℕ) (db : Database) (r : Result ℕ × Database)
    → savepoint (with_next k db) (both k r) ≡ both k (savepoint db r)
unfolding savepoint
savepoint-both k db (ok id, db') = refl
savepoint-both k db (err e, db') = refl

module _ (k : ℕ) (now : List ℕ) (db : Database) where
  insert_write_context-both :
      (id : ℕ) (consistency : List StoredObservation)
      → insert_write_context id consistency (with_next k db)
        ≡ both k (insert_write_context id consistency db)
  unfolding insert_write_context
  insert_write_context-both id consistency =
      elim (Bool-cases (any (λ write. write.0 == id) db.writes)) [
        | inl e ↦ rw e refl
        | inr e ↦ rw e refl
      ]

  save_events_on_conn-both :
      (events : List PreparedEventDocument) (consistency : List StoredObservation) (first : ℕ)
      → save_events_on_conn now (with_next k db) events consistency first
        ≡ both k (save_events_on_conn now db events consistency first)
  unfolding save_events_on_conn
  save_events_on_conn-both events consistency first =
      elim (Bool-cases (length events == 0 || ltb (max_int64 - first) (length events))) [
        | inl e ↦ rw e refl
        | inr e ↦
            rw (e, insert_write_context-both (first + length events - 1) consistency)
              (after_write_context-both k now events first (first + length events - 1) _)
      ]

save_savepointed-both :
    (k : ℕ) (env : SaveEnv) (db : Database) (req : PreparedSqliteSave) (next : ℕ)
    → save_savepointed env (with_next k db) req next ≡ both k (save_savepointed env db req next)
unfolding save_savepointed
save_savepointed-both k env db req next =
    elim (Result-cases (run_checks env.runs db.events req.prepared_checks)) [
      | inl (a, e) ↦
          rw
            (
              e,
              save_savepointed,
              save_events_on_conn-both k (env.time next) db req.inserts req.consistency next,
            )
            (savepoint-both k db _)
      | inr (x, e) ↦ rw (e, save_savepointed) refl
    ]

abbrev turn_both : ℕ → Outcome × ℕ × Database → Outcome × ℕ × Database
turn_both k (r, next, db) = (r, next, with_next k db)

record_result-both :
    (k next : ℕ) (r : Result ℕ × Database)
    → record_result next (both k r) ≡ turn_both k (record_result next r)
unfolding record_result
record_result-both k next (ok id, db) = refl
record_result-both k next (err e, db) = refl

-- A turn of the loop neither reads nor writes the stored next identifier.
execute_request-both :
    (k : ℕ) (env : SaveEnv) (req : PreparedSqliteSave) (next : ℕ) (db : Database)
    → execute_request env req next (with_next k db) ≡ turn_both k (execute_request env req next db)
unfolding execute_request
execute_request-both k env req next db = elim (Option-cases req.cancelled) [
  | inl e ↦
      rw (e, execute_request, save_savepointed-both k env db req next)
        (record_result-both k next (save_savepointed env db req next))
  | inr (x, e) ↦ rw (e, execute_request) refl
]

abbrev progress_both : ℕ → Progress → Progress
progress_both k p = record p { db = with_next k p.db }

abbrev Turn : Type 0
Turn = Outcome × ℕ × Database

-- The loop after a turn.
abbrev after_turn : SaveEnv → List PreparedSqliteSave → Turn → Progress
after_turn env live t =
    let p = execute_requests env live t.1 t.2 in record p { outcomes = t.0 ∷ p.outcomes }

execute_requests-both :
    (k : ℕ) (env : SaveEnv) (live : List PreparedSqliteSave) (next : ℕ) (db : Database)
    → execute_requests env live next (with_next k db)
      ≡ progress_both k (execute_requests env live next db)
unfolding execute_requests
execute_requests-both k env [] next db = refl
execute_requests-both k env (req ∷ live) next db =
    let t = execute_request env req next db in
    ap (after_turn env live) (execute_request-both k env req next db)
    ∙ ap (λ (p : Progress). record p { outcomes = t.0 ∷ p.outcomes })
        (execute_requests-both k env live t.1 t.2)

-- The statements that commit what the loop has done.
abbrev committed : Progress → Database
committed p = if any is_accepted p.outcomes then record (p.db) { next_id = p.next } else p.db

abbrev pub all_ok : TransactionIo
all_ok = record {
  begin_ok = true;
  read_sequence_ok = true;
  update_sequence_ok = true;
  commit_ok = true;
}

execute_transaction_lem :
    (env : SaveEnv) (live : List PreparedSqliteSave) (db : Database)
    → 1 ≤ db.next_id
    → execute_transaction all_ok env live db ≡ (
      ok ((execute_requests env live db.next_id db).outcomes),
      committed (execute_requests env live db.next_id db),
    )
unfolding execute_transaction
execute_transaction_lem env live db h =
    let guard : ltb db.next_id 1 ≡ false = ground arith in
    elim (Bool-cases (any is_accepted (execute_requests env live db.next_id db).outcomes)) [
      | inl e ↦ rw (guard, e) refl
      | inr e ↦ rw (guard, e) refl
    ]

record_result_next :
    (next : ℕ) (r : Result ℕ × Database)
    → is_accepted (record_result next r).0 ≡ false
    → (record_result next r).1 ≡ next
unfolding record_result
record_result_next next (ok id, db) h = ground arith
record_result_next next (err e, db) h = refl

record_result_positive :
    (next : ℕ) (r : Result ℕ × Database) → 1 ≤ next → 1 ≤ (record_result next r).1
unfolding record_result
record_result_positive next (ok id, db) h = omega arith
record_result_positive next (err e, db) h = h

module _ (env : SaveEnv) (req : PreparedSqliteSave) (next : ℕ) (db : Database) where
  execute_request_next :
      is_accepted (execute_request env req next db).0 ≡ false
      → (execute_request env req next db).1 ≡ next
  unfolding execute_request
  execute_request_next h = elim (Option-cases req.cancelled) [
    | inl e ↦ rw (e, execute_request) (record_result_next next _ (rw (e, execute_request) at h))
    | inr (x, e) ↦ rw (e, execute_request) refl
  ]

  execute_request_positive : 1 ≤ next → 1 ≤ (execute_request env req next db).1
  unfolding execute_request
  execute_request_positive h = elim (Option-cases req.cancelled) [
    | inl e ↦ rw (e, execute_request) (record_result_positive next _ h)
    | inr (x, e) ↦ rw (e, execute_request) h
  ]

  execute_request_next_id : (execute_request env req next db).2.next_id ≡ db.next_id
  execute_request_next_id =
      ap (λ (t : Turn). t.2.next_id) (execute_request-both db.next_id env req next db)

pub execute_requests_next :
    (env : SaveEnv) (live : List PreparedSqliteSave) (next : ℕ) (db : Database)
    → any is_accepted (execute_requests env live next db).outcomes ≡ false
    → (execute_requests env live next db).next ≡ next
unfolding execute_requests
execute_requests_next env [] next db h = refl
execute_requests_next env (req ∷ live) next db h =
    let t = execute_request env req next db in
    execute_requests_next env live t.1 t.2 (ground arith)
    ∙ execute_request_next env req next db (ground arith)

abbrev joined :
    Result (List Outcome) → Result (List Outcome) × Database → Result (List Outcome) × Database
joined a (b, db) = (do xs ← a; ys ← b; ok (xs ++ ys), db)

pub execute_requests_next_id :
    (env : SaveEnv) (live : List PreparedSqliteSave) (next : ℕ) (db : Database)
    → (execute_requests env live next db).db.next_id ≡ db.next_id
execute_requests_next_id env live next db =
    ap (λ (p : Progress). p.db.next_id) (execute_requests-both db.next_id env live next db)

-- Each request in a transaction of its own, one after the other; the first transaction that fails
-- ends it.
abbrev pub one_by_one :
    SaveEnv → List PreparedSqliteSave → Database → Result (List Outcome) × Database
one_by_one env [] db = (ok [], db)
one_by_one env (req ∷ live) db =
    let t = execute_transaction all_ok env (req ∷ []) db in joined t.0 (one_by_one env live t.1)

-- The database that a transaction leaves whose one request makes the turn `t`.
abbrev after_single : Turn → Database
after_single t = if is_accepted t.0 then with_next t.1 t.2 else t.2

-- The outcomes and the database of a transaction that does not fail.
abbrev summary : Progress → List Outcome × Database
summary p = (p.outcomes, committed p)

abbrev preceded : Outcome → List Outcome × Database → List Outcome × Database
preceded o (os, db) = (o ∷ os, db)

-- The rest of the loop in the same transaction, and in a transaction that starts from there.
after_single_lem :
    (env : SaveEnv) (live : List PreparedSqliteSave) (t : Turn)
    → (is_accepted t.0 ≡ false → t.1 ≡ t.2.next_id)
    → summary (after_turn env live t)
      ≡ preceded t.0 (summary (execute_requests env live (after_single t).next_id (after_single t)))
after_single_lem env live (ok id, next, db) h =
    rw (execute_requests-both next env live next db)
      (elim (Bool-cases (any is_accepted (execute_requests env live next db).outcomes)) [
        | inl e ↦ rw e refl
        | inr e ↦ rw (e, execute_requests_next env live next db e) refl
      ])
after_single_lem env live (err e, next, db) h = rw (← h refl) refl

transaction_cons :
    (env : SaveEnv) (req : PreparedSqliteSave) (live : List PreparedSqliteSave) (db : Database)
    → let t : Turn = execute_request env req db.next_id db in
      summary (execute_requests env (req ∷ live) db.next_id db)
      ≡ preceded t.0 (summary (execute_requests env live (after_single t).next_id (after_single t)))
unfolding execute_requests
transaction_cons env req live db =
    after_single_lem env live (execute_request env req db.next_id db) (λ h.
      execute_request_next env req db.next_id db h
      ∙ sym (execute_request_next_id env req db.next_id db))

single_transaction :
    (env : SaveEnv) (req : PreparedSqliteSave) (db : Database)
    → 1 ≤ db.next_id
    → let t : Turn = execute_request env req db.next_id db in
      (execute_transaction all_ok env (req ∷ []) db ≡ (ok (t.0 ∷ []), after_single t))
      × (1 ≤ (after_single t).next_id)
unfolding execute_requests
single_transaction env req db h =
    let t = execute_request env req db.next_id db in
    elim (Bool-cases (is_accepted t.0)) [
      | inl e ↦ (
        execute_transaction_lem env (req ∷ []) db h ∙ rw e refl,
        rw e (execute_request_positive env req db.next_id db h),
      )
      | inr e ↦ (
        execute_transaction_lem env (req ∷ []) db h ∙ rw e refl,
        rw (e, execute_request_next_id env req db.next_id db) h,
      )
    ]

-- A flush whose statements all succeed is serial: executing its requests in one transaction gives
-- the outcomes, and leaves the database, of executing each request in a transaction of its own, one
-- after the other, when the stored next identifier is positive.
pub group_commit_serial :
    (env : SaveEnv) (live : List PreparedSqliteSave) (db : Database)
    → 1 ≤ db.next_id
    → execute_transaction all_ok env live db ≡ one_by_one env live db
unfolding execute_requests
group_commit_serial env [] db h = execute_transaction_lem env [] db h
group_commit_serial env (req ∷ live) db h =
    let t = execute_request env req db.next_id db in
    let (single, positive) = single_transaction env req db h in
    execute_transaction_lem env (req ∷ live) db h
    ∙ ap (λ (s : List Outcome × Database). (ok s.0, s.1)) (transaction_cons env req live db)
    ∙ ap (joined (ok (t.0 ∷ []))) (
        sym (execute_transaction_lem env live (after_single t) positive)
        ∙ group_commit_serial env live (after_single t) positive)
    ∙ ap (λ (x : Result (List Outcome) × Database). joined x.0 (one_by_one env live x.1))
        (sym single)
