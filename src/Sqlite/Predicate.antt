-- ===== src/Sqlite/Predicate.antt =====
-- The WHERE clauses of sqlite/sqlite_eventstore.go: what is rendered, and when SQLite finds the
-- clause true on a document. The clauses join predicates by AND and OR only, so an unknown (NULL)
-- result counts as false throughout.
pub mod Path
pub mod Meaning
pub mod Encoded
use orisun.Base.{
  ℕ, Bool, true, false, not, Option, none, some, List, [], ◌∷◌, String, codes, codes_eq,
  codes_compare, Ordering, all, ◌++◌, ◌||◌, ◌==◌, drop, if◌then◌else◌,
}
use mathlib.Core.Option
use orisun.Status.{Result, ok, err, ◌>>=◌, uncoded}
use orisun.Query.{
  TagPredicate, FieldValue, Fields, SqlOperator, sql_eq, sql_ne, sql_gt, sql_ge, sql_lt, sql_le,
  tag_sql_operator, contains_nul, decode_tag_predicates, sort_fields,
}
use orisun.Decimal.{format_int}
use orisun.Number.{compare_json_numbers}
use orisun.Document.{JsonValue, Document, field}

-- `scalar` is `expr = literal`, `compared` the parenthesised list of a key's predicates.
pub data SqlPredicate : Type 0 where
  scalar : String → String → SqlPredicate
  compared : String → List (SqlOperator × String) → SqlPredicate

-- Predicates joined by AND. No predicate is the clause `1`.
abbrev pub Conjunction : Type 0
Conjunction = List SqlPredicate

-- `sqlValueLiteral`
unfoldable pub sql_value_literal : String → Result String
unfolding contains_nul
sql_value_literal s = elim (contains_nul s) [ true ↦ err uncoded | false ↦ ok s ]

unfoldable pub render_predicates : List TagPredicate → Result (List (SqlOperator × String))
unfolding sql_value_literal tag_sql_operator
render_predicates [] = ok []
render_predicates (p ∷ ps) = do
  op ← tag_sql_operator p.operator
  literal ← sql_value_literal p.value
  rest ← render_predicates ps
  ok ((op, literal) ∷ rest)

-- `renderCriterionPredicate`, on the values that `EncodeCriterion` writes or that are read back.
unfoldable pub render_criterion_predicate : String → FieldValue → Result SqlPredicate
unfolding render_predicates sql_value_literal decode_tag_predicates
render_criterion_predicate key (FieldValue.text value) = do
  literal ← sql_value_literal value
  ok (scalar key literal)
render_criterion_predicate key value = do
  ps ← decode_tag_predicates value
  parts ← render_predicates ps
  ok (compared key parts)

unfoldable pub render_fields : Fields → Result Conjunction
unfolding render_criterion_predicate
render_fields [] = ok []
render_fields ((key, value) ∷ fields) = do
  p ← render_criterion_predicate key value
  rest ← render_fields fields
  ok (p ∷ rest)

-- `buildCriteriaSQL` of one criterion.
unfoldable pub build_criterion_sql : Fields → Result Conjunction
unfolding render_fields sort_fields
build_criterion_sql criterion = render_fields (sort_fields criterion)

-- `sqliteJSONScalarTextExpr`; none is NULL.
unfoldable pub scalar_text : Option JsonValue → Option (List ℕ)
scalar_text none = none
scalar_text (some JsonValue.null) = none
scalar_text (some (JsonValue.boolean true)) = some (codes "true")
scalar_text (some (JsonValue.boolean false)) = some (codes "false")
scalar_text (some (JsonValue.text s)) = some s
scalar_text (some (JsonValue.integer n)) = some (format_int n)
scalar_text (some (JsonValue.number token cast)) = some cast
scalar_text (some (JsonValue.composite s)) = some s

unfoldable pub holds : SqlOperator → Ordering → Bool
holds sql_eq Ordering.eq = true
holds sql_ne Ordering.lt = true
holds sql_ne Ordering.gt = true
holds sql_gt Ordering.gt = true
holds sql_ge Ordering.gt = true
holds sql_ge Ordering.eq = true
holds sql_lt Ordering.lt = true
holds sql_le Ordering.lt = true
holds sql_le Ordering.eq = true
holds _ _ = false

-- `orisun_compare_number(token, literal) op 0`
unfoldable pub number_holds : SqlOperator → List ℕ → String → Bool
unfolding holds
number_holds op token literal = elim (compare_json_numbers token (codes literal)) [
  | none ↦ false
  | some o ↦ holds op o
]

unfoldable pub equals_text : Option (List ℕ) → String → Bool
unfolding codes_eq
equals_text none literal = false
equals_text (some s) literal = codes_eq s (codes literal)

unfoldable pub differs_text : Option (List ℕ) → String → Bool
unfolding codes_eq
differs_text none literal = false
differs_text (some s) literal = not (codes_eq s (codes literal))

-- The CASE on `json_type`.
unfoldable pub ordered : SqlOperator → Option JsonValue → String → Bool
unfolding holds number_holds codes_compare
ordered op (some (JsonValue.text s)) literal = holds op (codes_compare s (codes literal))
ordered op (some (JsonValue.integer n)) literal = number_holds op (format_int n) literal
ordered op (some (JsonValue.number token cast)) literal = number_holds op token literal
ordered op _ literal = false

-- One part that `renderCriterionPredicate` renders, on the value of its key.
unfoldable pub part_true : Option JsonValue → SqlOperator × String → Bool
unfolding equals_text differs_text scalar_text ordered
part_true value (sql_eq, literal) = equals_text (scalar_text value) literal
part_true value (sql_ne, literal) = differs_text (scalar_text value) literal
part_true value (op, literal) = ordered op value literal

-- `strings.ReplaceAll` of one character by two of it.
unfoldable pub doubled : ℕ → List ℕ → List ℕ
doubled c [] = []
doubled c (x ∷ xs) = let rest = doubled c xs in if x == c then x ∷ x ∷ rest else x ∷ rest

-- `jsonPathLiteral`
unfoldable pub json_path_literal : String → List ℕ
unfolding doubled
json_path_literal key = codes "'$.\"" ++ doubled 39 (doubled 34 (codes key)) ++ codes "\"'"

-- What SQLite reads of an SQL text, after its first quote.
unfoldable pub sql_text : List ℕ → List ℕ
sql_text [] = []
sql_text (c ∷ []) = if c == 39 then [] else c ∷ []
sql_text (c ∷ d ∷ cs) =
    let escaped = 39 ∷ sql_text cs in
    let next = c ∷ sql_text (d ∷ cs) in if c == 39 then (if d == 39 then escaped else []) else next

-- The quoted label that ends a JSON path. There is no escape for a double quote: a path that goes on
-- after one names no field (SQLite finds nothing, or refuses the path). What it makes of a
-- backslash is left out in the same way.
unfoldable pub path_label : List ℕ → Option (List ℕ)
path_label [] = none
path_label (c ∷ []) = if c == 34 then some [] else none
path_label (c ∷ d ∷ cs) =
    let rest = Option.map (◌∷◌ c) (path_label (d ∷ cs)) in if c == 34 || c == 92 then none else rest

-- The label of the path `$."…"` in an SQL text.
unfoldable pub literal_label : List ℕ → Option (List ℕ)
unfolding sql_text path_label
literal_label literal = path_label (drop 3 (sql_text (drop 1 literal)))

abbrev pub is_label : Option (List ℕ) → List ℕ → Bool
is_label none key = false
is_label (some label) key = codes_eq label key

-- Whether the path of a key names the field of that key.
unfoldable pub is_found : String → Bool
unfolding literal_label json_path_literal codes_eq
is_found key = is_label (literal_label (json_path_literal key)) (codes key)

-- `json_extract(data, path)` of a key, with its `json_type`.
unfoldable pub json_value : Document → String → Option JsonValue
unfolding is_found
json_value data' key = let found = field key data' in if is_found key then found else none

unfoldable pub predicate_true : Document → SqlPredicate → Bool
unfolding part_true json_value
predicate_true data' (scalar key literal) = part_true (json_value data' key) (sql_eq, literal)
predicate_true data' (compared key parts) = all (part_true (json_value data' key)) parts

-- `WHERE …` of one criterion.
unfoldable pub conjunction_true : Document → Conjunction → Bool
unfolding predicate_true
conjunction_true data' = all (predicate_true data')
