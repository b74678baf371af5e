-- ===== src/Tests/Saves.antt =====
-- The theorems on saves, at concrete databases and requests.
use orisun.Base.{◌≡◌, refl, true, none, List, [], ◌∷◌, ◌++◌, any, codes, pos, arith}
use orisun.Status.{ok}
use orisun.Position.{Position, not_exists_position}
use orisun.Query.{encode_read_criteria}
use orisun.Document.{PreparedEventDocument, request_fields}
use orisun.Sqlite.Table.{Row, IsLatest}
use orisun.Sqlite.Consistency.{
  CriterionLookup, minimal_criteria, latest_criteria_position, latest_criteria_queries,
}
use orisun.Query.{Fields, FieldValue}
use orisun.Document.{Document, JsonValue}
use orisun.Sqlite.Predicate.{scalar, Conjunction, conjunction_true}
use orisun.Base.{◌↔◌, All}
use orisun.Sqlite.Predicate.Meaning.{query_met}
use orisun.Sqlite.Consistency.Queries.{latest_criteria_queries_true}
use orisun.Sqlite.Save.Check.{CheckHolds, run_checks_iff}
use orisun.Sqlite.Consistency.Minimal.{criterion_true, minimal_criteria_true}
use orisun.Sqlite.Consistency.Latest.{latest_criteria_position_correct}
use orisun.Sqlite.Save.{
  SaveEnv, PreparedSqliteSave, prepare_sqlite_save, prepare_consistency_checks, execute_transaction,
  insert_chunks, run_checks,
}
use orisun.Sqlite.Save.Insert.{insert_chunks_lem, stored_rows}
use orisun.Status.{is_ok}
use orisun.Sqlite.Save.Exact.{AcceptedOrRejected, ccc_exact, IsFresh}
use orisun.Sqlite.Save.Serial.{group_commit_serial, one_by_one, all_ok}
use orisun.Sqlite.Save.Invariant.{HasResult, IsLog, execute_transaction_keeps}
use orisun.Tests.Data.{moment, deposit, account_query, unused_check, empty_database}

abbrev env : SaveEnv
env = record { time = λ n. moment; runs = λ rows queries. true }

-- A save of one event of an account that has none yet.
abbrev open_account : PreparedSqliteSave
open_account = record {
  cancelled = none;
  inserts = deposit ∷ [];
  consistency =
      record { criteria = encode_read_criteria account_query; position = not_exists_position } ∷ [];
  prepared_checks = prepare_consistency_checks (unused_check ∷ []);
}

empty-IsFresh : IsFresh 1 empty_database
empty-IsFresh = record { events_below = tt; writes_below = tt }

prepared : prepare_sqlite_save none (deposit ∷ []) (unused_check ∷ []) ≡ ok open_account
unfolding prepare_sqlite_save orisun.Query.validate_read_criteria orisun.Query.validate_tag
prepared = refl

ccc_exact_example :
    AcceptedOrRejected env (deposit ∷ []) (unused_check ∷ []) open_account 1 empty_database
ccc_exact_example =
    ccc_exact env (deposit ∷ []) (unused_check ∷ []) open_account 1 empty_database
      (((refl, tt), tt), tt) prepared empty-IsFresh

group_commit_serial_example :
    execute_transaction all_ok env (open_account ∷ open_account ∷ []) empty_database
    ≡ one_by_one env (open_account ∷ open_account ∷ []) empty_database
group_commit_serial_example =
    group_commit_serial env (open_account ∷ open_account ∷ []) empty_database (omega arith)

empty-IsLog : IsLog 1 empty_database
empty-IsLog = record { positive = omega arith; fresh = empty-IsFresh; increasing = tt }

execute_transaction_keeps_example :
    HasResult
      (open_account ∷ open_account ∷ [])
      empty_database
      (execute_transaction all_ok env (open_account ∷ open_account ∷ []) empty_database)
execute_transaction_keeps_example =
    execute_transaction_keeps all_ok env (open_account ∷ open_account ∷ []) empty_database
      empty-IsLog

abbrev two_rows : List Row
two_rows = stored_rows 2 moment (deposit ∷ deposit ∷ []) 1

abbrev second_position : Position
second_position = record { commit_position = pos 2; prepare_position = pos 2 }

latest_found : latest_criteria_position two_rows account_query ≡ ok second_position
unfolding latest_criteria_position stored_rows conjunction_true orisun.Document.field
latest_found = refl

latest_criteria_position_correct_example :
    IsLatest (λ r. query_met r.document account_query) two_rows second_position
latest_criteria_position_correct_example =
    latest_criteria_position_correct two_rows account_query second_position ((refl, tt), tt)
      latest_found

run_checks_iff_example :
    (is_ok (run_checks env.runs two_rows (prepare_consistency_checks (unused_check ∷ []))) ≡ true)
    ↔ All (CheckHolds env.runs two_rows) (unused_check ∷ [])
run_checks_iff_example = run_checks_iff env.runs two_rows (unused_check ∷ []) (((refl, tt), tt), tt)

abbrev account_document : Document
account_document =
    ("account", JsonValue.text (codes "A")) ∷ ("currency", JsonValue.text (codes "EUR")) ∷ []

abbrev account_fields : Fields
account_fields = ("account", FieldValue.text "A") ∷ []

abbrev account_clause : Conjunction
account_clause = scalar "account" "A" ∷ []

abbrev wide : CriterionLookup
wide = record { criterion = account_fields; clause = account_clause }

abbrev narrow : CriterionLookup
narrow = record {
  criterion = ("currency", FieldValue.text "EUR") ∷ account_fields;
  clause = scalar "account" "A" ∷ scalar "currency" "EUR" ∷ [];
}

rendered : latest_criteria_queries account_query ≡ ok (account_clause ∷ [])
unfolding latest_criteria_queries
rendered = refl

latest_criteria_queries_true_example :
    any (conjunction_true account_document) (account_clause ∷ [])
    ≡ query_met account_document account_query
latest_criteria_queries_true_example =
    latest_criteria_queries_true account_document account_query (account_clause ∷ [])
      ((refl, tt), tt) rendered

minimal_criteria_true_example :
    any
      (λ (l : CriterionLookup). criterion_true account_document l.criterion)
      (minimal_criteria (narrow ∷ wide ∷ []))
    ≡ any
        (λ (l : CriterionLookup). criterion_true account_document l.criterion)
        (narrow ∷ wide ∷ [])
minimal_criteria_true_example = minimal_criteria_true account_document (narrow ∷ wide ∷ [])

insert_chunks_lem_example :
    insert_chunks 2 3 [] (deposit ∷ deposit ∷ deposit ∷ []) 1 (request_fields 3 moment)
    ≡ (ok tt, [] ++ stored_rows 3 moment (deposit ∷ deposit ∷ deposit ∷ []) 1)
insert_chunks_lem_example =
    insert_chunks_lem 3 moment 2 3 (deposit ∷ deposit ∷ deposit ∷ []) 1 [] (omega arith)
      (omega arith) refl tt
