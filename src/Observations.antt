-- ===== src/Observations.antt =====
-- orisun/consistency.go: the observations of a save, validated and normalised to consistency checks.
-- A Go map is an association list; the lengths in a key are lengths in bytes, as in the source.
pub mod Checked
use orisun.Base.{
  ℕ, zero, suc, ◌+◌, Bool, true, false, not, ◌&&◌, ◌||◌, Option, none, some, List, [], ◌∷◌, ◌++◌,
  String, str_eq, ltb, ◌==◌, length, if◌then◌else◌, codes, codes_eq, codes_compare, Ordering, pos,
}
use orisun.Status.{Error, Result, ok, err, ◌>>=◌, ◌>>◌, coded, uncoded, invalid_argument}
use orisun.Position.{Position, same, not_exists_position}
use orisun.Decimal.{format_int}
use orisun.WriteContext.{is_negative}
use orisun.Query.{Tag, Criterion, Query, ReadCriterion, canonical_tag_operator, validate_tag}
use orisun.Sqlite.Save.{ConsistencyCheck}

abbrev pub max_consistency_observations : ℕ
max_consistency_observations = 1024

abbrev pub max_consistency_criteria : ℕ
max_consistency_criteria = 4096

abbrev pub max_consistency_tags : ℕ
max_consistency_tags = 16384

-- `ConsistencyObservation`
pub record ConsistencyObservation : Type 0 where
  pub query : Option Query
  pub position : Option Position

-- `validateConsistencyPosition`
unfoldable pub validate_consistency_position : Position → Result (Unit {0})
unfolding not_exists_position
validate_consistency_position p =
    if same p not_exists_position
    then ok tt
    else if is_negative p.commit_position || is_negative p.prepare_position
    then err uncoded
    else ok tt

-- The length of a text in UTF-8.
abbrev utf8_length : List ℕ → ℕ
utf8_length [] = 0
utf8_length (c ∷ cs) =
    (if ltb c 128 then 1 else if ltb c 2048 then 2 else if ltb c 65536 then 3 else 4)
    + utf8_length cs

-- `fmt.Sprintf("%d:%s", len(s), s)`
abbrev prefixed : List ℕ → List ℕ
prefixed s = format_int (utf8_length s) ++ 58 ∷ s

-- `identity`
abbrev tag_identity : Tag → List ℕ
tag_identity tag =
    prefixed (codes tag.key) ++ prefixed (codes tag.operator) ++ prefixed (codes tag.value)

abbrev pub lookup_key {ℓ} : {V : Type ℓ} → List ℕ → List (List ℕ × V) → Option V
lookup_key key [] = none
lookup_key key ((k, v) ∷ entries) = if codes_eq k key then some v else lookup_key key entries

-- `m[key] = value` for a key that is new, or again with the value that it has.
abbrev add_key {ℓ} : {V : Type ℓ} → List ℕ → V → List (List ℕ × V) → List (List ℕ × V)
add_key key value entries = elim (lookup_key key entries) [
  | none ↦ entries ++ (key, value) ∷ []
  | some v ↦ entries
]

abbrev is_before : List ℕ → List ℕ → Bool
is_before a b = elim (codes_compare a b) [
  | Ordering.lt ↦ true
  | Ordering.eq ↦ false
  | Ordering.gt ↦ false
]

-- The order of `sort.Slice` on the tags of a criterion.
abbrev tag_before : Tag → Tag → Bool
tag_before a b =
    if not (str_eq a.key b.key)
    then is_before (codes a.key) (codes b.key)
    else if not (str_eq a.operator b.operator)
    then is_before (codes a.operator) (codes b.operator)
    else is_before (codes a.value) (codes b.value)

abbrev insert_tag : Tag → List Tag → List Tag
insert_tag tag [] = tag ∷ []
insert_tag tag (t ∷ tags) =
    let rest = t ∷ insert_tag tag tags in if tag_before t tag then rest else tag ∷ t ∷ tags

abbrev sort_tags : List (List ℕ × Tag) → List Tag
sort_tags [] = []
sort_tags ((key, tag) ∷ tags) = insert_tag tag (sort_tags tags)

abbrev criterion_key : List Tag → List ℕ
criterion_key [] = []
criterion_key (tag ∷ tags) = tag_identity tag ++ criterion_key tags

-- One round of the loop over the tags: the maps `predicates` and `equalities`.
abbrev pub TagMaps : Type 0
TagMaps = List (List ℕ × Tag) × List (List ℕ × String)

-- A conflict of two equalities on one key.
abbrev contradicts : Option String → String → Bool
contradicts none value = false
contradicts (some previous) value = not (str_eq previous value)

abbrev add_equality : Tag → List (List ℕ × Tag) → List (List ℕ × String) → Result TagMaps
add_equality tag predicates equalities =
    if contradicts (lookup_key (codes tag.key) equalities) tag.value
    then err uncoded
    else let normal = record tag { operator = "" } in
      ok (
        add_key (tag_identity normal) normal predicates,
        add_key (codes tag.key) tag.value equalities,
      )

abbrev add_comparison : Tag → String → List (List ℕ × Tag) → List (List ℕ × String) → Result TagMaps
add_comparison tag operator predicates equalities =
    let normal = record tag { operator = operator } in
    ok (add_key (tag_identity normal) normal predicates, equalities)

abbrev with_operator : Tag → TagMaps → String → Result TagMaps
with_operator tag (predicates, equalities) operator =
    if str_eq operator "eq"
    then add_equality tag predicates equalities
    else add_comparison tag operator predicates equalities

-- The loop over the tags of a criterion.
unfoldable pub normalize_tags : List (Option Tag) → TagMaps → Result TagMaps
unfolding validate_tag canonical_tag_operator codes_eq format_int codes_compare
normalize_tags [] maps = ok maps
normalize_tags (none ∷ tags) maps = err uncoded
normalize_tags (some tag ∷ tags) maps = do
  validate_tag tag
  operator ← canonical_tag_operator tag.operator
  maps' ← with_operator tag maps operator
  normalize_tags tags maps'

abbrev no_tags : List (Option Tag) → Bool
no_tags [] = true
no_tags (t ∷ ts) = false

-- The loop over the criteria of a query: the criteria by their keys.
unfoldable pub normalize_criteria :
    List (Option Criterion) → List (List ℕ × ReadCriterion) → Result (List (List ℕ × ReadCriterion))
unfolding normalize_tags
normalize_criteria [] by_key = ok by_key
normalize_criteria (none ∷ criteria) by_key = err uncoded
normalize_criteria (some criterion ∷ criteria) by_key =
    if no_tags criterion.tags
    then err uncoded
    else (normalize_tags criterion.tags ([], []) >>= λ maps.
        let tags = sort_tags maps.0 in
        normalize_criteria criteria (add_key (criterion_key tags) (record { tags = tags }) by_key))

abbrev insert_key :
    List ℕ × ReadCriterion → List (List ℕ × ReadCriterion) → List (List ℕ × ReadCriterion)
insert_key entry [] = entry ∷ []
insert_key entry (e ∷ entries) =
    let rest = e ∷ insert_key entry entries in
    if is_before e.0 entry.0 then rest else entry ∷ e ∷ entries

abbrev sort_keys : List (List ℕ × ReadCriterion) → List (List ℕ × ReadCriterion)
sort_keys [] = []
sort_keys (e ∷ entries) = insert_key e (sort_keys entries)

abbrev criteria_of : List (List ℕ × ReadCriterion) → List ReadCriterion
criteria_of [] = []
criteria_of ((key, criterion) ∷ entries) = criterion ∷ criteria_of entries

abbrev query_key : List (List ℕ × ReadCriterion) → List ℕ
query_key [] = []
query_key ((key, criterion) ∷ entries) = prefixed key ++ query_key entries

-- `normalizeConsistencyQuery`
unfoldable pub normalize_consistency_query : Option Query → Result (List ReadCriterion × List ℕ)
unfolding normalize_criteria
normalize_consistency_query none = err uncoded
normalize_consistency_query (some query) = elim query.criteria [
  | [] ↦ err uncoded
  | c ∷ cs ↦ normalize_criteria (c ∷ cs) [] >>= λ by_key.
      let entries = sort_keys by_key in ok (criteria_of entries, query_key entries)
]

-- The variables of the loop of `ConsistencyChecksFromObservations`.
pub record Observed : Type 0 where
  pub checks : List ConsistencyCheck
  pub seen : List (List ℕ × Position)
  pub total_criteria : ℕ
  pub total_tags : ℕ

-- The loop that counts tags.
unfoldable pub count_tags : List (Option Criterion) → ℕ → Result ℕ
count_tags [] total = ok total
count_tags (none ∷ criteria) total = count_tags criteria total
count_tags (some criterion ∷ criteria) total =
    let rest = count_tags criteria (total + length criterion.tags) in
    if ltb max_consistency_tags (total + length criterion.tags)
    then err (coded invalid_argument)
    else rest

-- The counts of an observation's query, both of them within their bounds.
unfoldable pub count_query : Option Query → ℕ → ℕ → Result (ℕ × ℕ)
unfolding count_tags
count_query none criteria tags = ok (criteria, tags)
count_query (some query) criteria tags =
    if ltb max_consistency_criteria (criteria + length query.criteria)
    then err (coded invalid_argument)
    else (count_tags query.criteria tags >>= λ tags'. ok (criteria + length query.criteria, tags'))

-- The end of a round: an observation of a query that was seen is dropped if it agrees.
unfoldable pub add_check : List ReadCriterion → List ℕ → Position → Observed → Result Observed
unfolding codes_eq
add_check criteria key position p = elim (lookup_key key p.seen) [
  | some previous ↦ if same previous position then ok p else err (coded invalid_argument)
  | none ↦ ok (record p {
    checks = p.checks ++ record { criteria = criteria; position = position } ∷ [];
    seen = p.seen ++ (key, position) ∷ [];
  })
]

-- A failure inside the loop is reported as an invalid argument.
abbrev pub invalid {ℓ} : {A : Type ℓ} → Result A → Result A
invalid (ok a) = ok a
invalid (err e) = err (coded invalid_argument)

-- One round of the loop, on an observation that has a position.
unfoldable pub observe_query : Option Query → Position → Observed → Result Observed
unfolding validate_consistency_position count_query normalize_consistency_query add_check
observe_query query position p = do
  invalid (validate_consistency_position position)
  totals ← count_query query p.total_criteria p.total_tags
  normalized ← invalid (normalize_consistency_query query)
  add_check normalized.0 normalized.1 position
      (record p { total_criteria = totals.0; total_tags = totals.1 })

unfoldable pub observe_all : List (Option ConsistencyObservation) → Observed → Result Observed
unfolding observe_query
observe_all [] p = ok p
observe_all (none ∷ observations) p = err (coded invalid_argument)
observe_all (some observation ∷ observations) p = elim observation.position [
  | none ↦ err (coded invalid_argument)
  | some position ↦ observe_query observation.query position p >>= observe_all observations
]

abbrev pub nothing_observed : Observed
nothing_observed = record { checks = []; seen = []; total_criteria = 0; total_tags = 0 }

-- `ConsistencyChecksFromObservations`
unfoldable pub consistency_checks_from_observations :
    List (Option ConsistencyObservation) → Result (List ConsistencyCheck)
unfolding observe_all
consistency_checks_from_observations observations =
    if ltb max_consistency_observations (length observations)
    then err (coded invalid_argument)
    else (observe_all observations nothing_observed >>= λ p. ok p.checks)
