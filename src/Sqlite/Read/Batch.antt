-- ===== src/Sqlite/Read/Batch.antt =====
-- GetBatch against what its request asks for.
use orisun.Base.{
  ℕ, zero, suc, ◌≡◌, refl, ap, ◌∙◌, sym, subst, Bool, true, false, not, ◌&&◌, ◌||◌, Option, none,
  some, List, [], ◌∷◌, any, all, filter, arith, Bool-cases, List-cases, inl, inr, min, String,
  if◌then◌else◌,
}
use orisun.Status.{Result, ok, Result-cases}
use orisun.Position.{Position, values_after, same}
use orisun.Position.Order.{values_after_irrefl, values_after_total, same_refl}
use orisun.Query.{
  Tag, Criterion, Query, ReadCriterion, FieldValue, Fields, insert_field, sort_fields,
  encode_criterion, encode_read_criteria, validate_query,
}
use orisun.Document.{Document}
use orisun.Sqlite.Predicate.{
  Conjunction, render_criterion_predicate, render_fields, build_criterion_sql, conjunction_true,
}
use orisun.Sqlite.Predicate.Meaning.{
  tag_met, criterion_met, has_tags, some_met, query_met, ArePlain,
}
use orisun.Sqlite.Predicate.Encoded.{build_criterion_met}
use orisun.Sqlite.Consistency.Queries.{is_nonempty, encode_criterion_cons}
use orisun.Sqlite.Table.{Row, Direction, ascending, descending, row_position}
use orisun.Sqlite.Save.Check.{same_iff}
use orisun.Sqlite.Consistency.Latest.{after_asym}
use orisun.Sqlite.Read.{
  ReadRequest, ReadIo, query_tags, query_criteria, encode_query_criteria, nonempty_clause, or_parts,
  or_true, build_criteria_sql, matches, from_true, read_limit, scan_rows, query_result, batch_rows,
  read_batch, get_batch,
}
use orisun.Sqlite.Read.Page.{IsPage, select-IsPage}

-- What a request asks for, from the request alone.

abbrev pub tag_asked : Document → Option Tag → Bool
tag_asked document none = true
tag_asked document (some t) = tag_met document t

abbrev pub is_tag : Option Tag → Bool
is_tag none = false
is_tag (some t) = true

abbrev pub criterion_asked : Document → Option Criterion → Bool
criterion_asked document none = false
criterion_asked document (some c) = any is_tag c.tags && all (tag_asked document) c.tags

abbrev pub asks_tags : Option Criterion → Bool
asks_tags none = false
asks_tags (some c) = any is_tag c.tags

-- Whether a document satisfies one of the criteria with tags, if there is any.
abbrev pub query_asked : Document → Option Query → Bool
query_asked document none = true
query_asked document (some q) =
    not (any asks_tags q.criteria) || any (criterion_asked document) q.criteria

-- Whether a row is at the position that the request starts from, or after it in its direction.
abbrev pub starts_at : Direction → Option Position → Row → Bool
starts_at d none row = true
starts_at ascending (some p) row = values_after (row_position row) p || same (row_position row) p
starts_at descending (some p) row = values_after p (row_position row) || same p (row_position row)

abbrev pub asked : ReadRequest → Row → Bool
asked req row = query_asked row.document req.query && starts_at req.direction req.from_position row

abbrev pub page_size : ℕ → ℕ
page_size zero = 1000
page_size (suc n) = min (suc n) 10000

-- The criteria of a query.
abbrev pub asked_criteria : Option Query → List ReadCriterion
asked_criteria none = []
asked_criteria (some q) = query_criteria q.criteria

read_limit-page_size : (count : ℕ) → read_limit count ≡ page_size count
unfolding read_limit
read_limit-page_size zero = refl
read_limit-page_size (suc n) = ground arith

order_not : (p q : Position) → not (values_after p q) ≡ (values_after q p || same q p)
order_not p q = elim (Bool-cases (same q p)) [
  | inl s ↦ rw s (
      ground (
        arith,
        subst (λ x. values_after p x ≡ false) (sym ((same_iff q p).0 s)) (values_after_irrefl p),
      ))
  | inr n ↦ elim (values_after_total p q) [
    | inl h ↦ ground (arith, n, h, after_asym p q h)
    | inr (inl e) ↦ ground (arith, n, subst (λ x. same x p ≡ true) e (same_refl p))
    | inr (inr h) ↦ ground (arith, n, h, after_asym q p h)
  ]
]

from_true-starts_at :
    (d : Direction) (p : Option Position) (row : Row) → from_true d p row ≡ starts_at d p row
unfolding from_true
from_true-starts_at d none row = refl
from_true-starts_at ascending (some p) row = order_not p (row_position row)
from_true-starts_at descending (some p) row = order_not (row_position row) p

insert_field_cons :
    (f : String × FieldValue) (fields : Fields) → is_nonempty (insert_field f fields) ≡ true
unfolding insert_field
insert_field_cons (k, v) [] = refl
insert_field_cons (k, v) ((j, w) ∷ fields) = ground arith

render_fields_cons :
    (fields : Fields) (clause : Conjunction)
    → render_fields fields ≡ ok clause
    → is_nonempty clause ≡ is_nonempty fields
unfolding render_fields
render_fields_cons [] clause h = ground (arith, h)
render_fields_cons ((key, value) ∷ fields) clause h =
    elim (Result-cases (render_criterion_predicate key value)) [
      | inr (x, e) ↦ ground (arith, h, e)
      | inl (p, e) ↦ elim (Result-cases (render_fields fields)) [
        | inr (x, f) ↦ ground (arith, h, e, f)
        | inl (rest, f) ↦ ground (arith, h, e, f)
      ]
    ]

sort_fields_cons : (fields : Fields) → is_nonempty (sort_fields fields) ≡ is_nonempty fields
unfolding sort_fields
sort_fields_cons [] = refl
sort_fields_cons (f ∷ fields) = insert_field_cons f (sort_fields fields)

-- The clause of a criterion is empty just if it has no tags.
clause_has_tags :
    (c : ReadCriterion) (clause : Conjunction)
    → build_criterion_sql (encode_criterion c.tags) ≡ ok clause
    → is_nonempty clause ≡ has_tags c
unfolding build_criterion_sql encode_criterion
clause_has_tags c clause h =
    render_fields_cons (sort_fields (encode_criterion c.tags)) clause h
    ∙ sort_fields_cons (encode_criterion c.tags)
    ∙ elim (List-cases c.tags) [
      | inl e ↦ rw (e, encode_criterion) refl
      | inr (t, ts, e) ↦ rw e (encode_criterion_cons t ts)
    ]

module _ (document : Document) where
  abbrev AgreeOn : List Conjunction → List ReadCriterion → Type 0
  AgreeOn parts criteria =
      (is_nonempty parts ≡ is_nonempty criteria)
      × (any (conjunction_true document) parts ≡ any (criterion_met document) criteria)

  add_clause :
      (clause : Conjunction) (c : ReadCriterion) (parts : List Conjunction)
      (criteria : List ReadCriterion)
      → is_nonempty clause ≡ has_tags c
      → conjunction_true document clause ≡ criterion_met document c
      → AgreeOn parts criteria
      → AgreeOn (nonempty_clause clause parts) (if has_tags c then c ∷ criteria else criteria)
  add_clause [] c parts criteria n t a = rw (← n) a
  add_clause (p ∷ clause) c parts criteria n t a = rw (← n) (refl, ground (arith, t, a.1))

  or_parts_met :
      (criteria : List ReadCriterion) (parts : List Conjunction)
      → ArePlain criteria
      → or_parts (encode_read_criteria criteria) ≡ ok parts
      → AgreeOn parts (filter has_tags criteria)
  unfolding or_parts encode_read_criteria
  or_parts_met [] parts v h =
      let shape : [] ≡ parts = ground (arith, h) in rw (← shape) (refl, refl)
  or_parts_met (c ∷ criteria) parts v h =
      elim (Result-cases (build_criterion_sql (encode_criterion c.tags))) [
        | inr (x, e) ↦ ground (arith, h, e)
        | inl (clause, e) ↦ elim (Result-cases (or_parts (encode_read_criteria criteria))) [
          | inr (x, f) ↦ ground (arith, h, e, f)
          | inl (rest, f) ↦
              let shape : nonempty_clause clause rest ≡ parts = ground (arith, h, e, f) in
              rw (← shape) (
                add_clause clause c rest (filter has_tags criteria) (clause_has_tags c clause e)
                  (build_criterion_met document c.tags clause v.0 e)
                  (or_parts_met criteria rest v.1 f))
        ]
      ]

  or_true_met :
      (parts : List Conjunction) (criteria : List ReadCriterion)
      → AgreeOn parts criteria
      → any (conjunction_true document) (or_true parts) ≡ some_met document criteria
  unfolding conjunction_true
  or_true_met [] [] a = refl
  or_true_met [] (c ∷ criteria) a = ground (arith, a.0)
  or_true_met (p ∷ parts) [] a = ground (arith, a.0)
  or_true_met (p ∷ parts) (c ∷ criteria) a = a.1

  query_tags_met :
      (tags : List (Option Tag))
      → all (tag_met document) (query_tags tags) ≡ all (tag_asked document) tags
  unfolding query_tags
  query_tags_met [] = refl
  query_tags_met (none ∷ tags) = query_tags_met tags
  query_tags_met (some t ∷ tags) = ap (λ b. tag_met document t && b) (query_tags_met tags)

  query_tags_some :
      (tags : List (Option Tag)) → has_tags (record { tags = query_tags tags }) ≡ any is_tag tags
  unfolding query_tags
  query_tags_some [] = refl
  query_tags_some (none ∷ tags) = query_tags_some tags
  query_tags_some (some t ∷ tags) = refl

  abbrev left : List (Option Criterion) → List ReadCriterion
  left cs = filter has_tags (query_criteria cs)

  left_asked :
      (cs : List (Option Criterion))
      → (is_nonempty (left cs) ≡ any asks_tags cs)
        × (any (criterion_met document) (left cs) ≡ any (criterion_asked document) cs)
  unfolding query_criteria
  left_asked [] = (refl, refl)
  left_asked (none ∷ cs) = left_asked cs
  left_asked (some c ∷ cs) = elim (Bool-cases (any is_tag c.tags)) [
    | inl e ↦
        let kept : has_tags (record { tags = query_tags c.tags }) ≡ true =
          query_tags_some c.tags ∙ e in
        rw kept (ground (arith, e), ground (arith, e, query_tags_met c.tags, (left_asked cs).1))
    | inr e ↦
        let dropped : has_tags (record { tags = query_tags c.tags }) ≡ false =
          query_tags_some c.tags ∙ e in
        rw dropped (ground (arith, e, (left_asked cs).0), ground (arith, e, (left_asked cs).1))
  ]

  some_met_split :
      (criteria : List ReadCriterion)
      → some_met document criteria
        ≡ (not (is_nonempty criteria) || any (criterion_met document) criteria)
  some_met_split [] = refl
  some_met_split (c ∷ criteria) = refl

  query_met_asked :
      (query : Option Query)
      → query_met document (asked_criteria query) ≡ query_asked document query
  query_met_asked none = refl
  query_met_asked (some q) =
      some_met_split (left q.criteria)
      ∙ ap (λ b. not b || any (criterion_met document) (left q.criteria)) (left_asked q.criteria).0
      ∙ ap (λ b. not (any asks_tags q.criteria) || b) (left_asked q.criteria).1

encoded :
    (query : Option Query)
    → encode_read_criteria (asked_criteria query) ≡ encode_query_criteria query
unfolding encode_query_criteria encode_read_criteria
encoded none = refl
encoded (some q) = refl

-- The rows that the statement of `GetBatch` finds are those that the request asks for.
matches_asked :
    (req : ReadRequest) (where_sql : List Conjunction) (row : Row)
    → ArePlain (asked_criteria req.query)
    → build_criteria_sql (encode_query_criteria req.query) ≡ ok where_sql
    → (matches where_sql row && from_true req.direction req.from_position row) ≡ asked req row
unfolding build_criteria_sql encode_query_criteria conjunction_true
matches_asked req where_sql row v h =
    elim (Result-cases (or_parts (encode_query_criteria req.query))) [
      | inr (x, e) ↦ ground (arith, h, e)
      | inl (parts, e) ↦
          let shape : or_true parts ≡ where_sql = ground (arith, h, e) in
          let met : matches where_sql row ≡ query_asked row.document req.query = rw (← shape) (
            or_true_met row.document parts _ (
              or_parts_met row.document (asked_criteria req.query) parts v
                (ap or_parts (encoded req.query) ∙ e))
            ∙ query_met_asked row.document req.query) in
          ap (λ b. b && from_true req.direction req.from_position row) met
          ∙ ap (λ b. query_asked row.document req.query && b)
              (from_true-starts_at req.direction req.from_position row)
    ]

IsPage-same :
    (p q : Row → Bool) (d : Direction) (limit : ℕ) (rows page : List Row)
    → ((r : Row) → p r ≡ q r)
    → IsPage p d limit rows page
    → IsPage q d limit rows page
IsPage-same p q d limit rows page k h = record {
  bounded = h.bounded;
  ordered = h.ordered;
  sound = λ r m. let (n, a) = h.sound r m in (n, sym (k r) ∙ a);
  complete = λ r m a. h.complete r m (k r ∙ a);
}

batch_rows-IsPage :
    (rows : List Row) (req : ReadRequest) (where_sql : List Conjunction)
    → ArePlain (asked_criteria req.query)
    → build_criteria_sql (encode_query_criteria req.query) ≡ ok where_sql
    → IsPage (asked req) req.direction (page_size req.count) rows (batch_rows rows req where_sql)
unfolding batch_rows
batch_rows-IsPage rows req where_sql v f =
    subst (λ n. IsPage (asked req) req.direction n rows (batch_rows rows req where_sql))
      (read_limit-page_size req.count)
      (IsPage-same _ (asked req) req.direction (read_limit req.count) rows _
        (λ r. matches_asked req where_sql r v f) (select-IsPage _ req.direction _ rows))

-- When GetBatch returns events, they are the rows of one page as they are scanned, in its order. The page
-- has at most 1000 rows if the count is 0 and else at most the count, and never more than 10000; its
-- rows are in the order of the request's direction; each of them is a row of the table that satisfies
-- the query and is at the position that the request starts from or beyond it; and a row of which this
-- holds and that is left out stands after all rows of the page, which then has as many rows as it can.
-- The keys of the query have no double quote and no backslash.
pub get_batch-IsPage :
    {E : Type 0} (scan : Row → Result E) (io : ReadIo) (rows : List Row) (req : ReadRequest)
    (events : List E)
    → ArePlain (asked_criteria req.query)
    → get_batch scan io rows (some req) ≡ ok events
    → (page : List Row) × (scan_rows scan page ≡ ok events)
      × IsPage (asked req) req.direction (page_size req.count) rows page
unfolding get_batch read_batch query_result
get_batch-IsPage scan io rows req events v h = elim (Result-cases (validate_query req.query)) [
  | inr (x, e) ↦ ground (arith, h, e)
  | inl (u, e) ↦ elim (Result-cases (build_criteria_sql (encode_query_criteria req.query))) [
    | inr (x, f) ↦ ground (arith, h, e, f)
    | inl (where_sql, f) ↦ elim (Result-cases (scan_rows scan (batch_rows rows req where_sql))) [
      | inr (x, g) ↦ ground (arith, h, e, f, g)
      | inl (found, g) ↦ (
        batch_rows rows req where_sql,
        ground (arith, h, e, f, g),
        batch_rows-IsPage rows req where_sql v f,
      )
    ]
  ]
]
