-- ===== src/Sqlite/Consistency.antt =====
-- sqlite/consistency.go: the latest position of a content query.
pub mod Minimal
pub mod Queries
pub mod Latest
use orisun.Base.{
  ℕ, Bool, true, false, ◌&&◌, not, Option, none, some, List, [], ◌∷◌, ◌++◌, String, str_eq, ltb,
  length, any, filter, if◌then◌else◌,
}
use orisun.Status.{Result, ok, err, ◌>>=◌, coded, invalid_argument}
use orisun.Position.{Position, not_exists_position, values_after, position_values_after}
use orisun.Query.{TagPredicate, FieldValue, Fields, ReadCriterion, encode_read_criteria}
use orisun.Sqlite.Predicate.{Conjunction, build_criterion_sql, conjunction_true}
use orisun.Sqlite.Table.{Row, Direction, descending, select, row_position}

pub record CriterionLookup : Type 0 where
  pub criterion : Fields
  pub clause : Conjunction

unfoldable pub same_predicates : List TagPredicate → List TagPredicate → Bool
same_predicates [] [] = true
same_predicates [] (q ∷ qs) = false
same_predicates (p ∷ ps) [] = false
same_predicates (p ∷ ps) (q ∷ qs) =
    str_eq p.operator q.operator && str_eq p.value q.value && same_predicates ps qs

-- `reflect.DeepEqual`, on the values that `EncodeCriterion` writes.
unfoldable pub deep_equal : FieldValue → FieldValue → Bool
unfolding same_predicates
deep_equal (FieldValue.text s) (FieldValue.text t) = str_eq s t
deep_equal (FieldValue.predicates ps) (FieldValue.predicates qs) = same_predicates ps qs
deep_equal (FieldValue.array ps) (FieldValue.array qs) = same_predicates ps qs
deep_equal _ _ = false

unfoldable pub field_value : String → Fields → Option FieldValue
field_value k [] = none
field_value k ((j, v) ∷ fields) = if str_eq j k then some v else field_value k fields

pub has_value : Option FieldValue → FieldValue → Bool
unfolding deep_equal
has_value none value = false
has_value (some got) value = deep_equal got value

-- The loop of `criterionContains`.
unfoldable pub contains_fields : Fields → Fields → Bool
unfolding field_value has_value
contains_fields criterion [] = true
contains_fields criterion ((key, value) ∷ subset) =
    has_value (field_value key criterion) value && contains_fields criterion subset

-- `criterionContains`
unfoldable pub criterion_contains : Fields → Fields → Bool
unfolding contains_fields
criterion_contains criterion subset =
    if ltb (length criterion) (length subset) then false else contains_fields criterion subset

-- One round of the loop of `minimalCriteria`.
unfoldable pub add_candidate : List CriterionLookup → CriterionLookup → List CriterionLookup
add_candidate minimal candidate =
    if any (λ existing. criterion_contains candidate.criterion existing.criterion) minimal
    then minimal
    else filter (λ existing. not (criterion_contains existing.criterion candidate.criterion))
        minimal
      ++ candidate ∷ []

pub minimal_from : List CriterionLookup → List CriterionLookup → List CriterionLookup
unfolding add_candidate
minimal_from minimal [] = minimal
minimal_from minimal (candidate ∷ criteria) =
    minimal_from (add_candidate minimal candidate) criteria

-- `minimalCriteria`
unfoldable pub minimal_criteria : List CriterionLookup → List CriterionLookup
unfolding minimal_from criterion_contains
minimal_criteria criteria = minimal_from [] criteria

-- The first loop of `latestCriteriaQueries`.
unfoldable pub criterion_lookups : List Fields → Result (List CriterionLookup)
criterion_lookups [] = ok []
criterion_lookups ([] ∷ criteria) = criterion_lookups criteria
criterion_lookups ((f ∷ fields) ∷ criteria) = do
  clause ← build_criterion_sql (f ∷ fields)
  lookups ← criterion_lookups criteria
  ok (record { criterion = f ∷ fields; clause = clause } ∷ lookups)

unfoldable pub clauses : List CriterionLookup → List Conjunction
clauses [] = []
clauses (lookup ∷ lookups) = lookup.clause ∷ clauses lookups

-- The clause `1` if there is no query.
unfoldable pub or_all : List Conjunction → List Conjunction
or_all [] = [] ∷ []
or_all (q ∷ queries) = q ∷ queries

-- `latestCriteriaQueries`; each query is given by its WHERE clause.
unfoldable pub latest_criteria_queries : List ReadCriterion → Result (List Conjunction)
unfolding criterion_lookups minimal_criteria clauses or_all build_criterion_sql encode_read_criteria
latest_criteria_queries criteria = do
  lookups ← criterion_lookups (encode_read_criteria criteria)
  ok (or_all (clauses (minimal_criteria lookups)))

abbrev pub row_matches : Conjunction → Row → Bool
row_matches query row = conjunction_true row.document query

-- The `ResultFunc` of `latestPreparedCriteriaPosition`.
unfoldable pub later_of : Position → List Row → Position
unfolding position_values_after
later_of latest [] = latest
later_of latest (row ∷ rows) =
    later_of (if values_after (row_position row) latest then row_position row else latest) rows

unfoldable pub latest_from : List Row → Position → List Conjunction → Position
unfolding later_of select
latest_from rows latest [] = latest
latest_from rows latest (query ∷ queries) =
    latest_from rows (later_of latest (select (row_matches query) descending 1 rows)) queries

-- `latestPreparedCriteriaPosition`
unfoldable pub latest_prepared_criteria_position : List Row → List Conjunction → Position
unfolding latest_from not_exists_position
latest_prepared_criteria_position rows queries = latest_from rows not_exists_position queries

-- `latestCriteriaPosition`
unfoldable pub latest_criteria_position : List Row → List ReadCriterion → Result Position
unfolding latest_criteria_queries latest_prepared_criteria_position
latest_criteria_position rows criteria = elim (latest_criteria_queries criteria) [
  | err _ ↦ err (coded invalid_argument)
  | ok queries ↦ ok (latest_prepared_criteria_position rows queries)
]
