-- ===== src/Sqlite/Read.antt =====
-- Reading on SQLite: GetBatch and GetLatestByCriteria of sqlite/sqlite_eventstore.go. `scan` is
-- scanReadEventRow, which parses the time of a row.
pub mod Page
pub mod Batch
pub mod Context
use orisun.Base.{
  ℕ, zero, suc, Bool, true, false, not, ◌&&◌, ◌||◌, Option, none, some, List, [], ◌∷◌, ltb, ◌==◌,
  any, if◌then◌else◌, pos,
}
use orisun.Status.{Error, Result, ok, err, ◌>>=◌, ◌>>◌, coded, invalid_argument, internal}
use orisun.Position.{Position, not_exists_position, values_after, position_values_after}
use orisun.Query.{
  Tag, Criterion, Query, ReadCriterion, Fields, encode_criterion, encode_read_criteria,
  validate_query, validate_read_criteria,
}
use orisun.Sqlite.Predicate.{Conjunction, build_criterion_sql, conjunction_true}
use orisun.Sqlite.Table.{Row, Direction, ascending, descending, select, row_position}

-- `GetEventsRequest`
pub record ReadRequest : Type 0 where
  pub query : Option Query
  pub direction : Direction
  pub from_position : Option Position
  pub count : ℕ

-- Whether the boundary is known, a connection was given, and SQLite ran the statements.
pub record ReadIo : Type 0 where
  pub known_boundary : Bool
  pub took_connection : Bool
  pub ran : Bool

unfoldable pub query_tags : List (Option Tag) → List Tag
query_tags [] = []
query_tags (none ∷ tags) = query_tags tags
query_tags (some tag ∷ tags) = tag ∷ query_tags tags

unfoldable pub query_criteria : List (Option Criterion) → List ReadCriterion
unfolding query_tags
query_criteria [] = []
query_criteria (none ∷ criteria) = query_criteria criteria
query_criteria (some criterion ∷ criteria) =
    record { tags = query_tags criterion.tags } ∷ query_criteria criteria

-- `EncodeQueryCriteria`, of a query that `ValidateQuery` lets pass.
unfoldable pub encode_query_criteria : Option Query → List Fields
unfolding query_criteria encode_read_criteria
encode_query_criteria none = []
encode_query_criteria (some query) = encode_read_criteria (query_criteria query.criteria)

abbrev pub nonempty_clause : Conjunction → List Conjunction → List Conjunction
nonempty_clause [] parts = parts
nonempty_clause (p ∷ ps) parts = (p ∷ ps) ∷ parts

-- The loop of `buildCriteriaSQL`.
unfoldable pub or_parts : List Fields → Result (List Conjunction)
unfolding build_criterion_sql
or_parts [] = ok []
or_parts (criterion ∷ criteria) = do
  clause ← build_criterion_sql criterion
  rest ← or_parts criteria
  ok (nonempty_clause clause rest)

abbrev pub or_true : List Conjunction → List Conjunction
or_true [] = [] ∷ []
or_true (clause ∷ parts) = clause ∷ parts

-- `buildCriteriaSQL`: clauses joined by OR.
unfoldable pub build_criteria_sql : List Fields → Result (List Conjunction)
unfolding or_parts
build_criteria_sql criteria = do parts ← or_parts criteria; ok (or_true parts)

abbrev pub matches : List Conjunction → Row → Bool
matches where_sql row = any (conjunction_true row.document) where_sql

-- `(transaction_id, global_id) >= (?, ?)`, or `<=`.
unfoldable pub from_true : Direction → Option Position → Row → Bool
unfolding position_values_after
from_true d none row = true
from_true ascending (some p) row = not (values_after p (row_position row))
from_true descending (some p) row = not (values_after (row_position row) p)

abbrev pub default_read_batch_size : ℕ
default_read_batch_size = 1000

abbrev pub max_read_batch_size : ℕ
max_read_batch_size = 10000

-- The LIMIT of `GetBatch`.
unfoldable pub read_limit : ℕ → ℕ
read_limit count =
    let limit = if count == 0 then default_read_batch_size else count in
    if ltb max_read_batch_size limit then max_read_batch_size else limit

module _ {E : Type 0} (scan : Row → Result E) where
  unfoldable pub scan_rows : List Row → Result (List E)
  scan_rows [] = ok []
  scan_rows (row ∷ rows) = do event ← scan row; events ← scan_rows rows; ok (event ∷ events)

  -- The error of a query that fails in `GetBatch`.
  unfoldable pub query_result : Bool → Result (List E) → Result (List E)
  query_result false r = err (coded internal)
  query_result true (err e) = err (coded internal)
  query_result true (ok events) = ok events

-- The rows that the statement of `GetBatch` selects.
unfoldable pub batch_rows : List Row → ReadRequest → List Conjunction → List Row
unfolding select from_true read_limit conjunction_true
batch_rows rows req where_sql =
    select (λ row. matches where_sql row && from_true req.direction req.from_position row)
      req.direction (read_limit req.count) rows

-- `GetBatch`, after the query is validated.
unfoldable pub read_batch :
    {E : Type 0} → (Row → Result E) → ReadIo → List Row → ReadRequest → Result (List E)
unfolding encode_query_criteria build_criteria_sql scan_rows query_result batch_rows
read_batch scan io rows req =
    if not io.known_boundary
    then err (coded invalid_argument)
    else if not io.took_connection
    then err (coded internal)
    else elim (build_criteria_sql (encode_query_criteria req.query)) [
      | err e ↦ err (coded invalid_argument)
      | ok where_sql ↦ query_result scan io.ran (scan_rows scan (batch_rows rows req where_sql))
    ]

-- `GetBatch`
unfoldable pub get_batch :
    {E : Type 0} → (Row → Result E) → ReadIo → List Row → Option ReadRequest → Result (List E)
unfolding validate_query read_batch
get_batch scan io rows none = err (coded invalid_argument)
get_batch scan io rows (some req) = do validate_query req.query; read_batch scan io rows req

-- `LatestByCriteriaBatch`, the matches in the reverse order of the criteria, and the variable `found`.
pub record LatestByCriteriaBatch (E : Type 0) : Type 0 where
  pub matched : List (Option E)
  pub context : Position
  pub found : Bool

module _ {E : Type 0} (scan : Row → Result E) where
  -- The `ResultFunc` of `GetLatestByCriteria`, on the at most one row of a lookup.
  unfoldable pub observe : List Row → LatestByCriteriaBatch E → Result (LatestByCriteriaBatch E)
  unfolding position_values_after
  observe [] batch = ok (record batch { matched = none ∷ batch.matched })
  observe (row ∷ rows) batch = elim (scan row) [
    | err e ↦ err (coded internal)
    | ok event ↦
        if not batch.found || values_after (row_position row) batch.context
        then ok (record {
          matched = some event ∷ batch.matched;
          context = row_position row;
          found = true;
        })
        else ok (record batch { matched = some event ∷ batch.matched })
  ]

  -- The lookup of one criterion in `GetLatestByCriteria`.
  unfoldable pub lookup :
      List Row → Fields → LatestByCriteriaBatch E → Result (LatestByCriteriaBatch E)
  unfolding build_criteria_sql observe select conjunction_true
  lookup rows [] batch = err (coded invalid_argument)
  lookup rows (field ∷ fields) batch = elim (build_criteria_sql ((field ∷ fields) ∷ [])) [
    | err e ↦ err (coded invalid_argument)
    | ok where_sql ↦ observe (select (matches where_sql) descending 1 rows) batch
  ]

  -- The loop of `GetLatestByCriteria`.
  unfoldable pub latest_loop :
      List Row → List ReadCriterion → LatestByCriteriaBatch E → Result (LatestByCriteriaBatch E)
  unfolding encode_criterion lookup
  latest_loop rows [] batch = ok batch
  latest_loop rows (criterion ∷ criteria) batch = do
    batch' ← lookup rows (encode_criterion criterion.tags) batch
    latest_loop rows criteria batch'

-- The batch before the loop.
abbrev pub no_matches : {E : Type 0} → LatestByCriteriaBatch E
no_matches = record { matched = []; context = not_exists_position; found = false }

abbrev no_criteria : List ReadCriterion → Bool
no_criteria [] = true
no_criteria (c ∷ cs) = false

-- `GetLatestByCriteria`, after the criteria are validated.
unfoldable pub read_latest :
    {E : Type 0}
    → (Row → Result E)
    → ReadIo
    → List Row
    → List ReadCriterion
    → Result (LatestByCriteriaBatch E)
unfolding latest_loop not_exists_position
read_latest scan io rows criteria =
    if not io.known_boundary || no_criteria criteria
    then err (coded invalid_argument)
    else if not io.took_connection || not io.ran
    then err (coded internal)
    else latest_loop scan rows criteria no_matches

-- `GetLatestByCriteria`
unfoldable pub get_latest_by_criteria :
    {E : Type 0}
    → (Row → Result E)
    → ReadIo
    → List Row
    → List ReadCriterion
    → Result (LatestByCriteriaBatch E)
unfolding validate_read_criteria read_latest
get_latest_by_criteria scan io rows criteria = do
  validate_read_criteria criteria
  read_latest scan io rows criteria
