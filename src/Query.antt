-- ===== src/Query.antt =====
-- Queries and their durable encoding: orisun/query_predicates.go, with the types of
-- orisun/eventstore_messages.go and orisun/latest_batch.go. A Go pointer that may be nil is an
-- `Option`. A Go map is a list of entries in the order in which their keys were first written;
-- where the source sorts the keys, so does the model.
pub mod Codec
pub mod Durable
use orisun.Base.{
  ℕ, ◌≡◌, Bool, true, false, ◌&&◌, ◌||◌, Option, none, some, List, [], ◌∷◌, ◌++◌, map, String,
  str_eq, codes, codes_compare, any, Ordering, ◌==◌, if◌then◌else◌,
}
use orisun.Status.{coded, uncoded, Result, ok, err, ◌>>=◌, ◌>>◌, invalid_argument}

-- `ReadTag`, and `Tag` behind its pointer.
pub record Tag : Type 0 where
  pub key : String
  pub value : String
  pub operator : String

-- `ReadCriterion`: tags are ANDed.
pub record ReadCriterion : Type 0 where
  pub tags : List Tag

pub record Criterion : Type 0 where
  pub tags : List (Option Tag)

pub record Query : Type 0 where
  pub criteria : List (Option Criterion)

pub record TagPredicate : Type 0 where
  pub operator : String
  pub value : String

unfoldable pub canonical_tag_operator : String → Result String
canonical_tag_operator operator =
    if str_eq operator "" || str_eq operator "eq"
    then ok "eq"
    else if str_eq operator "ne"
        || str_eq operator "gt"
        || str_eq operator "gte"
        || str_eq operator "lt"
        || str_eq operator "lte"
    then ok operator
    else err uncoded

-- The SQL comparisons.
pub data SqlOperator : Type 0 where
  sql_eq sql_ne sql_gt sql_ge sql_lt sql_le : SqlOperator

-- The lookup in the map of `TagSQLOperator`.
unfoldable pub sql_operator_of : String → SqlOperator
sql_operator_of op =
    if str_eq op "eq"
    then sql_eq
    else if str_eq op "ne"
    then sql_ne
    else if str_eq op "gt"
    then sql_gt
    else if str_eq op "gte"
    then sql_ge
    else if str_eq op "lt"
    then sql_lt
    else sql_le

unfoldable pub tag_sql_operator : String → Result SqlOperator
unfolding canonical_tag_operator sql_operator_of
tag_sql_operator operator = do op ← canonical_tag_operator operator; ok (sql_operator_of op)

-- `strings.ContainsRune(s, 0)`
unfoldable pub contains_nul : String → Bool
contains_nul s = any (λ c. c == 0) (codes s)

unfoldable pub validate_tag : Tag → Result (Unit {0})
unfolding canonical_tag_operator contains_nul
validate_tag tag =
    if str_eq tag.key ""
    then err (coded invalid_argument)
    else if contains_nul tag.key || contains_nul tag.value
    then err (coded invalid_argument)
    else elim (canonical_tag_operator tag.operator) [
      | ok _ ↦ ok tt
      | err _ ↦ err (coded invalid_argument)
    ]

unfoldable pub validate_query_tags : List (Option Tag) → Result (Unit {0})
validate_query_tags [] = ok tt
validate_query_tags (none ∷ tags) = err (coded invalid_argument)
validate_query_tags (some tag ∷ tags) = do validate_tag tag; validate_query_tags tags

unfoldable pub validate_criteria : List (Option Criterion) → Result (Unit {0})
validate_criteria [] = ok tt
validate_criteria (none ∷ criteria) = err (coded invalid_argument)
validate_criteria (some criterion ∷ criteria) = do
  validate_query_tags criterion.tags
  validate_criteria criteria

unfoldable pub validate_query : Option Query → Result (Unit {0})
validate_query none = ok tt
validate_query (some query) = validate_criteria query.criteria

unfoldable pub validate_tags : List Tag → Result (Unit {0})
validate_tags [] = ok tt
validate_tags (tag ∷ tags) = do validate_tag tag; validate_tags tags

unfoldable pub validate_read_criteria : List ReadCriterion → Result (Unit {0})
unfolding validate_tags
validate_read_criteria [] = ok tt
validate_read_criteria (criterion ∷ criteria) = do
  validate_tags criterion.tags
  validate_read_criteria criteria

-- A value of an encoded criterion. `array` is a JSON array that was read back, `unknown` any
-- other value, which does not decode as predicates.
pub data FieldValue : Type 0 where
  text : String → FieldValue
  predicates : List TagPredicate → FieldValue
  array : List TagPredicate → FieldValue
  unknown : FieldValue

-- `fields[key] = append(fields[key], predicate)`
unfoldable pub append_predicate :
    String → TagPredicate → List (String × List TagPredicate) → List (String × List TagPredicate)
append_predicate key predicate [] = (key, predicate ∷ []) ∷ []
append_predicate key predicate ((other, ps) ∷ fields) =
    if str_eq other key
    then (other, ps ++ predicate ∷ []) ∷ fields
    else (other, ps) ∷ append_predicate key predicate fields

unfoldable pub tag_predicate : Tag → TagPredicate
tag_predicate tag = record {
  operator = if str_eq tag.operator "" then "eq" else tag.operator;
  value = tag.value;
}

-- The first loop of `EncodeCriterion`.
unfoldable pub group_tags :
    List (String × List TagPredicate) → List Tag → List (String × List TagPredicate)
unfolding append_predicate tag_predicate
group_tags fields [] = fields
group_tags fields (tag ∷ tags) =
    group_tags (append_predicate tag.key (tag_predicate tag) fields) tags

unfoldable pub encode_value : List TagPredicate → FieldValue
encode_value [] = predicates []
encode_value (p ∷ []) = if str_eq p.operator "eq" then text p.value else predicates (p ∷ [])
encode_value (p ∷ q ∷ ps) = predicates (p ∷ q ∷ ps)

abbrev pub Fields : Type 0
Fields = List (String × FieldValue)

unfoldable pub encode_fields : List (String × List TagPredicate) → Fields
unfolding encode_value
encode_fields [] = []
encode_fields ((key, ps) ∷ fields) = (key, encode_value ps) ∷ encode_fields fields

unfoldable pub encode_criterion : List Tag → Fields
unfolding group_tags encode_fields
encode_criterion tags = encode_fields (group_tags [] tags)

unfoldable pub encode_read_criteria : List ReadCriterion → List Fields
unfolding encode_criterion
encode_read_criteria [] = []
encode_read_criteria (criterion ∷ criteria) =
    encode_criterion criterion.tags ∷ encode_read_criteria criteria

unfoldable pub decode_tag_predicates : FieldValue → Result (List TagPredicate)
decode_tag_predicates (text value) = ok (record { operator = "eq"; value = value } ∷ [])
decode_tag_predicates (predicates ps) = ok ps
decode_tag_predicates (array []) = err uncoded
decode_tag_predicates (array (p ∷ ps)) = ok (p ∷ ps)
decode_tag_predicates unknown = err uncoded

-- `sort.Strings(keys)`, on the entries.
unfoldable pub insert_field {ℓ} : {V : Type ℓ} → String × V → List (String × V) → List (String × V)
insert_field (key, value) [] = (key, value) ∷ []
insert_field (key, value) ((other, v) ∷ fields) =
    let rest = (other, v) ∷ insert_field (key, value) fields in
    elim (codes_compare (codes key) (codes other)) [
      | Ordering.gt ↦ rest
      | _ ↦ (key, value) ∷ (other, v) ∷ fields
    ]

unfoldable pub sort_fields {ℓ} : {V : Type ℓ} → List (String × V) → List (String × V)
unfolding insert_field codes_compare
sort_fields [] = []
sort_fields (field ∷ fields) = insert_field field (sort_fields fields)

unfoldable pub decoded_tag : String → TagPredicate → Tag
decoded_tag key predicate = record {
  key = key;
  value = predicate.value;
  operator = if str_eq predicate.operator "eq" then "" else predicate.operator;
}

-- `ValidateTag(key, predicate.Value, predicate.Operator)`
abbrev pub predicate_tag : String → TagPredicate → Tag
predicate_tag key predicate = record {
  key = key;
  value = predicate.value;
  operator = predicate.operator;
}

-- The inner loop of `DecodeCriterion`.
unfoldable pub decode_predicates : String → List TagPredicate → Result (List Tag)
unfolding validate_tag decoded_tag
decode_predicates key [] = ok []
decode_predicates key (p ∷ ps) = do
  validate_tag (predicate_tag key p)
  tags ← decode_predicates key ps
  ok (decoded_tag key p ∷ tags)

unfoldable pub decode_fields : Fields → Result (List Tag)
unfolding decode_tag_predicates decode_predicates
decode_fields [] = ok []
decode_fields ((key, value) ∷ fields) = do
  ps ← decode_tag_predicates value
  tags ← decode_predicates key ps
  rest ← decode_fields fields
  ok (tags ++ rest)

unfoldable pub decode_criterion : Fields → Result (List Tag)
unfolding sort_fields decode_fields
decode_criterion fields = decode_fields (sort_fields fields)
