-- ===== src/Sqlite/Save/Invariant.antt =====
-- What every transaction of sqlite/group_commit_executor.go keeps true of the database.
use orisun.Base.{
  ℕ, suc, ◌+◌, ◌≤◌, ◌<◌, ◌≡◌, refl, ap, ◌∙◌, sym, subst, true, not, ◌&&◌, ◌||◌, List, [], ◌∷◌, ◌++◌,
  any, All, All-append, All-map, length, ltb, arith, Bool-cases, inl, inr,
}
use mathlib.Core.List.{append_assoc, append-nil}
use orisun.Status.{Result, ok, err}
use orisun.Document.{PreparedEventDocument}
use orisun.Sqlite.Table.{Row, Database, StoredObservation}
use orisun.Sqlite.Save.{
  SaveEnv, PreparedSqliteSave, Outcome, Progress, TransactionIo, execute_request, execute_requests,
  execute_transaction, is_accepted,
}
use orisun.Sqlite.Save.Insert.{Below, Below-append, Below-snoc, stored_row, stored_rows}
use orisun.Sqlite.Save.Serial.{execute_requests_next, execute_requests_next_id}
use orisun.Sqlite.Save.Exact.{IsFresh, can_insert, last_id, with_save, execute_request_cases}

-- The global identifiers increase strictly.
abbrev pub Increasing : List Row → Type 0
Increasing [] = Unit {0}
Increasing (r ∷ rows) = All (λ (s : Row). r.global_id < s.global_id) rows × Increasing rows

-- The events are in strictly increasing order, and nothing has an identifier from the next one on.
pub record IsLog (next : ℕ) (db : Database) : Type 0 where
  pub positive : 1 ≤ next
  pub fresh : IsFresh next db
  pub increasing : Increasing db.events

Increasing-snoc :
    (n : ℕ) (row : Row) (rows : List Row)
    → row.global_id ≡ n
    → Below n rows
    → Increasing rows
    → Increasing (rows ++ row ∷ [])
Increasing-snoc n row [] e b i = (tt, tt)
Increasing-snoc n row (r ∷ rows) e b i =
    (All-append _ rows (row ∷ []) i.0 (rw e b.0, tt), Increasing-snoc n row rows e b.1 i.1)

module _ (last : ℕ) (now : List ℕ) where
  Increasing-append :
      (events : List PreparedEventDocument) (gid : ℕ) (rows : List Row)
      → Below gid rows
      → Increasing rows
      → Increasing (rows ++ stored_rows last now events gid)
  unfolding stored_rows stored_row
  Increasing-append [] gid rows b i = rw append-nil i
  Increasing-append (event ∷ events) gid rows b i =
      let row = stored_row last now event gid in
      rw (← append_assoc rows (row ∷ []) _) (
        Increasing-append events (gid + 1) (rows ++ row ∷ []) (Below-snoc last now rows event gid b)
          (Increasing-snoc gid row rows refl b i))

with_save-IsLog :
    (now : List ℕ) (db : Database) (events : List PreparedEventDocument)
    (consistency : List StoredObservation) (first : ℕ)
    → can_insert events first ≡ true
    → IsLog first db
    → IsLog (last_id first events + 1) (with_save now db events consistency first)
with_save-IsLog now db events consistency first good log =
    let shape : last_id first events + 1 ≡ first + length events = ground arith in
    rw shape (record {
      positive = ground (arith, log.positive);
      fresh = record {
        events_below =
            Below-append (last_id first events) now events first db.events log.fresh.events_below;
        writes_below =
            All-append _ db.writes ((last_id first events, consistency) ∷ [])
              (All-map _ _ db.writes (λ w (h : w.0 < first). omega arith) log.fresh.writes_below)
              (ground arith, tt);
      };
      increasing =
          Increasing-append (last_id first events) now events first db.events log.fresh.events_below
            log.increasing;
    })

-- The state of the loop after a turn.
abbrev IsTurnLog : Outcome × ℕ × Database → Type 0
IsTurnLog t = IsLog t.1 t.2

execute_request-IsLog :
    (env : SaveEnv) (req : PreparedSqliteSave) (next : ℕ) (db : Database)
    → IsLog next db
    → IsTurnLog (execute_request env req next db)
execute_request-IsLog env req next db log = elim (execute_request_cases env req next db log.fresh) [
  | inl s ↦
      rw s.saved
        (with_save-IsLog (env.time next) db req.inserts req.consistency next s.insertable log)
  | inr r ↦ rw (r.kept_next, r.kept_db) log
]

execute_requests-IsLog :
    (env : SaveEnv) (live : List PreparedSqliteSave) (next : ℕ) (db : Database)
    → IsLog next db
    → let p : Progress = execute_requests env live next db in
      IsLog p.next p.db × (length p.outcomes ≡ length live)
unfolding execute_requests
execute_requests-IsLog env [] next db log = (log, refl)
execute_requests-IsLog env (req ∷ live) next db log =
    let t = execute_request env req next db in
    let (a, b) =
      execute_requests-IsLog env live t.1 t.2 (execute_request-IsLog env req next db log) in
    (a, ap suc b)

with_next-IsLog :
    (next k : ℕ) (db : Database) → IsLog next db → IsLog next (record db { next_id = k })
with_next-IsLog next k db log = record {
  positive = log.positive;
  fresh = record { events_below = log.fresh.events_below; writes_below = log.fresh.writes_below };
  increasing = log.increasing;
}

-- What a transaction may do to a database.
abbrev pub HasResult :
    List PreparedSqliteSave → Database → Result (List Outcome) × Database → Type 0
HasResult live db (ok outcomes, db') = (length outcomes ≡ length live) × IsLog db'.next_id db'
HasResult live db (err e, db') = db' ≡ db

-- Whatever SQLite reports of the statements of a transaction, a transaction on a database that is
-- in order (the events' identifiers increase strictly, and neither an event nor a write context has
-- an identifier from the positive next one on) either gives one outcome for each request and leaves
-- the database in order, or it fails and leaves the database as it was.
pub execute_transaction_keeps :
    (io : TransactionIo) (env : SaveEnv) (live : List PreparedSqliteSave) (db : Database)
    → IsLog db.next_id db
    → HasResult live db (execute_transaction io env live db)
unfolding execute_transaction
execute_transaction_keeps io env live db log =
    let p = execute_requests env live db.next_id db in
    let (after, count) = execute_requests-IsLog env live db.next_id db log in
    elim (Bool-cases (not io.begin_ok || not io.read_sequence_ok || ltb db.next_id 1)) [
      | inl e ↦ rw e refl
      | inr e ↦
          elim (Bool-cases
            (any is_accepted p.outcomes && not io.update_sequence_ok || not io.commit_ok)) [
              | inl f ↦ rw (e, f) refl
              | inr f ↦ elim (Bool-cases (any is_accepted p.outcomes)) [
                | inl g ↦ rw (e, f, g) (count, with_next-IsLog p.next p.next p.db after)
                | inr g ↦
                    let same : p.next ≡ p.db.next_id =
                      execute_requests_next env live db.next_id db g
                      ∙ sym (execute_requests_next_id env live db.next_id db) in
                    rw (e, f, g) (count, subst (λ n. IsLog n p.db) same after)
              ]
            ]
    ]
