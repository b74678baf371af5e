-- ===== src/Sqlite/Predicate/Meaning.antt =====
-- The meaning of a content query on a document, from the query as a client writes it: independent of
-- its encoding (orisun/query_predicates.go) and of its rendering as SQL (sqlite/sqlite_eventstore.go).
use orisun.Base.{
  ◌≡◌, Bool, true, false, not, ◌&&◌, ◌||◌, Option, none, some, List, [], ◌∷◌, String, str_eq, codes,
  codes_eq, codes_compare, Ordering, all, any, filter, All, ◌==◌, if◌then◌else◌,
}
use orisun.Query.{Tag, ReadCriterion}
use orisun.Decimal.{format_int}
use orisun.Number.{compare_json_numbers}
use orisun.Document.{JsonValue, Document, field}

-- Whether a value, written as a text, is the text given. A value that is absent or null has no text.
unfoldable pub reads_as : Option JsonValue → String → Bool
unfolding codes_eq
reads_as none value = false
reads_as (some JsonValue.null) value = false
reads_as (some (JsonValue.text s)) value = codes_eq s (codes value)
reads_as (some (JsonValue.boolean b)) value =
    codes_eq (if b then codes "true" else codes "false") (codes value)
reads_as (some (JsonValue.integer n)) value = codes_eq (format_int n) (codes value)
reads_as (some (JsonValue.number token cast)) value = codes_eq cast (codes value)
reads_as (some (JsonValue.composite s)) value = codes_eq s (codes value)

unfoldable pub has_text : Option JsonValue → Bool
has_text none = false
has_text (some JsonValue.null) = false
has_text (some v) = true

-- How a value compares with the text given: numbers by their decimal values, texts by their code
-- points, others not at all.
unfoldable pub order_with : Option JsonValue → String → Option Ordering
unfolding codes_compare
order_with (some (JsonValue.text s)) value = some (codes_compare s (codes value))
order_with (some (JsonValue.integer n)) value = compare_json_numbers (format_int n) (codes value)
order_with (some (JsonValue.number token cast)) value = compare_json_numbers token (codes value)
order_with _ value = none

abbrev pub above : Option Ordering → Bool
above (some Ordering.gt) = true
above _ = false

abbrev pub below : Option Ordering → Bool
below (some Ordering.lt) = true
below _ = false

abbrev pub is_compared : Option Ordering → Bool
is_compared none = false
is_compared (some o) = true

-- Whether a value satisfies the comparison that an operator names.
unfoldable pub compares : String → Option JsonValue → String → Bool
unfolding reads_as has_text order_with
compares operator v value =
    if str_eq operator "" || str_eq operator "eq"
    then reads_as v value
    else if str_eq operator "ne"
    then has_text v && not (reads_as v value)
    else if str_eq operator "gt"
    then above (order_with v value)
    else if str_eq operator "gte"
    then is_compared (order_with v value) && not (below (order_with v value))
    else if str_eq operator "lt"
    then below (order_with v value)
    else str_eq operator "lte"
      && is_compared (order_with v value)
      && not (above (order_with v value))

-- A document has a tag if the value of its key satisfies the comparison.
abbrev pub tag_met : Document → Tag → Bool
tag_met document tag = compares tag.operator (field tag.key document) tag.value

-- The tags of a criterion are joined by AND.
abbrev pub criterion_met : Document → ReadCriterion → Bool
criterion_met document criterion = all (tag_met document) criterion.tags

abbrev pub has_tags : ReadCriterion → Bool
has_tags criterion = elim criterion.tags [ [] ↦ false | t ∷ ts ↦ true ]

abbrev pub some_met : Document → List ReadCriterion → Bool
some_met document [] = true
some_met document (c ∷ cs) = any (criterion_met document) (c ∷ cs)

-- The criteria that have tags are joined by OR; without any, every document satisfies the query.
abbrev pub query_met : Document → List ReadCriterion → Bool
query_met document criteria = some_met document (filter has_tags criteria)

-- A key without a double quote and without a backslash.
abbrev pub is_plain : String → Bool
is_plain key = not (any (λ c. c == 34 || c == 92) (codes key))

abbrev pub ArePlain : List ReadCriterion → Type 0
ArePlain criteria = All (λ c. All (λ (t : Tag). is_plain t.key ≡ true) c.tags) criteria
