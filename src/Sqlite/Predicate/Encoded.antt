-- ===== src/Sqlite/Predicate/Encoded.antt =====
-- The encoding of a criterion and its rendering as SQL, against the meaning of the criterion.
use orisun.Base.{
  ◌≡◌, refl, ap, ◌∙◌, sym, Bool, true, false, ◌&&◌, Option, none, some, Ordering, Option-cases, ℕ,
  List, [], ◌∷◌, ◌++◌, String, str_eq, eq_iff, all, arith, Bool-cases, if◌then◌else◌, inl, inr, All,
  not, codes,
}
use orisun.Query.Codec.{Groups, sort-encode}
use orisun.Sqlite.Predicate.Path.{json_value_plain}
use orisun.Status.{Result, ok, err, Result-cases}
use orisun.Query.{
  Tag, TagPredicate, FieldValue, contains_nul, SqlOperator, sql_eq, sql_ne, sql_gt, sql_ge, sql_lt,
  sql_le, canonical_tag_operator, sql_operator_of, tag_sql_operator, append_predicate,
  tag_predicate, group_tags, encode_value, encode_fields, decode_tag_predicates, encode_criterion,
  insert_field, sort_fields,
}
use orisun.Decimal.{format_int}
use orisun.Number.{compare_json_numbers}
use orisun.Document.{JsonValue, Document}
use orisun.Sqlite.Predicate.{
  Conjunction, render_predicates, render_criterion_predicate, render_fields, build_criterion_sql,
  part_true, json_value, sql_value_literal, SqlPredicate, scalar, compared, scalar_text, holds,
  number_holds, equals_text, differs_text, ordered, predicate_true, conjunction_true,
}
use orisun.Sqlite.Predicate.Meaning.{
  is_plain, compares, tag_met, reads_as, has_text, order_with, above, below, is_compared,
}

equals_reads :
    (v : Option JsonValue) (literal : String)
    → equals_text (scalar_text v) literal ≡ reads_as v literal
unfolding scalar_text equals_text reads_as
equals_reads none literal = refl
equals_reads (some JsonValue.null) literal = refl
equals_reads (some (JsonValue.boolean true)) literal = refl
equals_reads (some (JsonValue.boolean false)) literal = refl
equals_reads (some (JsonValue.text s)) literal = refl
equals_reads (some (JsonValue.integer n)) literal = refl
equals_reads (some (JsonValue.number token cast)) literal = refl
equals_reads (some (JsonValue.composite s)) literal = refl

differs_equals :
    (v : Option JsonValue) (literal : String)
    → differs_text (scalar_text v) literal
      ≡ (has_text v && not (equals_text (scalar_text v) literal))
unfolding scalar_text differs_text equals_text has_text
differs_equals none literal = refl
differs_equals (some JsonValue.null) literal = refl
differs_equals (some (JsonValue.boolean true)) literal = refl
differs_equals (some (JsonValue.boolean false)) literal = refl
differs_equals (some (JsonValue.text s)) literal = refl
differs_equals (some (JsonValue.integer n)) literal = refl
differs_equals (some (JsonValue.number token cast)) literal = refl
differs_equals (some (JsonValue.composite s)) literal = refl

abbrev order_holds : SqlOperator → Option Ordering → Bool
order_holds op none = false
order_holds op (some o) = holds op o

number_order :
    (op : SqlOperator) (token : List ℕ) (literal : String)
    → number_holds op token literal ≡ order_holds op (compare_json_numbers token (codes literal))
unfolding number_holds
number_order op token literal = elim (Option-cases (compare_json_numbers token (codes literal))) [
  | inl e ↦ rw (e, number_holds) refl
  | inr (o, e) ↦ rw (e, number_holds) refl
]

ordered_order :
    (op : SqlOperator) (v : Option JsonValue) (literal : String)
    → ordered op v literal ≡ order_holds op (order_with v literal)
unfolding ordered order_with
ordered_order op none literal = refl
ordered_order op (some JsonValue.null) literal = refl
ordered_order op (some (JsonValue.boolean b)) literal = refl
ordered_order op (some (JsonValue.text s)) literal = refl
ordered_order op (some (JsonValue.integer n)) literal = number_order op (format_int n) literal
ordered_order op (some (JsonValue.number token cast)) literal = number_order op token literal
ordered_order op (some (JsonValue.composite s)) literal = refl

order_gt : (o : Option Ordering) → order_holds sql_gt o ≡ above o
unfolding holds
order_gt none = refl
order_gt (some Ordering.lt) = refl
order_gt (some Ordering.eq) = refl
order_gt (some Ordering.gt) = refl

order_ge : (o : Option Ordering) → order_holds sql_ge o ≡ (is_compared o && not (below o))
unfolding holds
order_ge none = refl
order_ge (some Ordering.lt) = refl
order_ge (some Ordering.eq) = refl
order_ge (some Ordering.gt) = refl

order_lt : (o : Option Ordering) → order_holds sql_lt o ≡ below o
unfolding holds
order_lt none = refl
order_lt (some Ordering.lt) = refl
order_lt (some Ordering.eq) = refl
order_lt (some Ordering.gt) = refl

order_le : (o : Option Ordering) → order_holds sql_le o ≡ (is_compared o && not (above o))
unfolding holds
order_le none = refl
order_le (some Ordering.lt) = refl
order_le (some Ordering.eq) = refl
order_le (some Ordering.gt) = refl

-- What each comparison of SQL is.
abbrev sql_compares : SqlOperator → Option JsonValue → String → Bool
sql_compares sql_eq v literal = reads_as v literal
sql_compares sql_ne v literal = has_text v && not (reads_as v literal)
sql_compares sql_gt v literal = above (order_with v literal)
sql_compares sql_ge v literal =
    is_compared (order_with v literal) && not (below (order_with v literal))
sql_compares sql_lt v literal = below (order_with v literal)
sql_compares sql_le v literal =
    is_compared (order_with v literal) && not (above (order_with v literal))

part_sql_compares :
    (op : SqlOperator) (v : Option JsonValue) (literal : String)
    → part_true v (op, literal) ≡ sql_compares op v literal
unfolding part_true
part_sql_compares sql_eq v literal = equals_reads v literal
part_sql_compares sql_ne v literal =
    differs_equals v literal ∙ ap (λ b. has_text v && not b) (equals_reads v literal)
part_sql_compares sql_gt v literal =
    ordered_order sql_gt v literal ∙ order_gt (order_with v literal)
part_sql_compares sql_ge v literal =
    ordered_order sql_ge v literal ∙ order_ge (order_with v literal)
part_sql_compares sql_lt v literal =
    ordered_order sql_lt v literal ∙ order_lt (order_with v literal)
part_sql_compares sql_le v literal =
    ordered_order sql_le v literal ∙ order_le (order_with v literal)

abbrev result_compares : Result SqlOperator → Option JsonValue → String → Bool
result_compares (err e) v literal = false
result_compares (ok op) v literal = sql_compares op v literal

compares_sql :
    (operator : String) (op : SqlOperator) (v : Option JsonValue) (literal : String)
    → tag_sql_operator operator ≡ ok op
    → result_compares (tag_sql_operator operator) v literal ≡ compares operator v literal
unfolding tag_sql_operator canonical_tag_operator sql_operator_of compares
compares_sql operator op v literal h = ground (arith, h)

-- The comparison that SQL makes for an operator is the one that the operator names.
part_compares :
    (operator : String) (op : SqlOperator) (v : Option JsonValue) (literal : String)
    → tag_sql_operator operator ≡ ok op
    → part_true v (op, literal) ≡ compares operator v literal
part_compares operator op v literal h =
    part_sql_compares op v literal
    ∙ sym (ap (λ r. result_compares r v literal) h)
    ∙ compares_sql operator op v literal h

-- The empty operator is equality.
compares_empty :
    (operator : String) (v : Option JsonValue) (value : String)
    → compares (if str_eq operator "" then "eq" else operator) v value ≡ compares operator v value
unfolding compares
compares_empty operator v value = elim (Bool-cases (str_eq operator "")) [
  | inl e ↦
      ap (λ b. compares (if b then "eq" else operator) v value) e
      ∙ ap (λ s. compares s v value) (sym ((eq_iff operator "").0 e))
  | inr e ↦ ap (λ b. compares (if b then "eq" else operator) v value) e
]

sql_value_literal_lem :
    (value literal : String) → sql_value_literal value ≡ ok literal → literal ≡ value
unfolding sql_value_literal
sql_value_literal_lem value literal h = elim (Bool-cases (contains_nul value)) [
  | inl e ↦ ground (arith, h, e)
  | inr e ↦ ground (arith, h, e)
]

module _ (document : Document) where
  abbrev predicate_met : String → TagPredicate → Bool
  predicate_met key p = compares p.operator (json_value document key) p.value

  abbrev group_met : String × List TagPredicate → Bool
  group_met (key, ps) = all (predicate_met key) ps

  render_predicates_lem :
      (key : String) (ps : List TagPredicate) (parts : List (SqlOperator × String))
      → render_predicates ps ≡ ok parts
      → all (part_true (json_value document key)) parts ≡ all (predicate_met key) ps
  unfolding render_predicates
  render_predicates_lem key [] parts h = ground (arith, h)
  render_predicates_lem key (p ∷ ps) parts h = elim (Result-cases (tag_sql_operator p.operator)) [
    | inr (x, e) ↦ ground (arith, h, e)
    | inl (op, e) ↦ elim (Result-cases (sql_value_literal p.value)) [
      | inr (x, f) ↦ ground (arith, h, e, f)
      | inl (literal, f) ↦ elim (Result-cases (render_predicates ps)) [
        | inr (x, g) ↦ ground (arith, h, e, f, g)
        | inl (rest, g) ↦
            let shape : (op, literal) ∷ rest ≡ parts = ground (arith, h, e, f, g) in
            let same : literal ≡ p.value = sql_value_literal_lem p.value literal f in
            rw (← shape) (
              ground (
                arith,
                same,
                part_compares p.operator op (json_value document key) literal e,
                render_predicates_lem key ps rest g,
              ))
      ]
    ]
  ]

  render_list_lem :
      (key : String) (ps : List TagPredicate) (q : SqlPredicate)
      → render_criterion_predicate key (FieldValue.predicates ps) ≡ ok q
      → predicate_true document q ≡ group_met (key, ps)
  unfolding render_criterion_predicate decode_tag_predicates predicate_true
  render_list_lem key ps q h = elim (Result-cases (render_predicates ps)) [
    | inr (x, e) ↦ ground (arith, h, e)
    | inl (parts, e) ↦
        let shape : compared key parts ≡ q = ground (arith, h, e) in
        rw (← shape) (render_predicates_lem key ps parts e)
  ]

  render_text_lem :
      (key value : String) (q : SqlPredicate)
      → render_criterion_predicate key (FieldValue.text value) ≡ ok q
      → predicate_true document q ≡ reads_as (json_value document key) value
  unfolding render_criterion_predicate predicate_true part_true
  render_text_lem key value q h = elim (Result-cases (sql_value_literal value)) [
    | inr (x, e) ↦ ground (arith, h, e)
    | inl (literal, e) ↦
        let shape : scalar key literal ≡ q = ground (arith, h, e) in
        rw (← shape, sql_value_literal_lem value literal e)
          (equals_reads (json_value document key) value)
  ]

  render_value_lem :
      (key : String) (ps : List TagPredicate) (q : SqlPredicate)
      → render_criterion_predicate key (encode_value ps) ≡ ok q
      → predicate_true document q ≡ group_met (key, ps)
  unfolding encode_value compares
  render_value_lem key [] q h = render_list_lem key [] q h
  render_value_lem key (p ∷ r ∷ ps) q h = render_list_lem key (p ∷ r ∷ ps) q h
  render_value_lem key (p ∷ []) q h = elim (Bool-cases (str_eq p.operator "eq")) [
    | inr e ↦ render_list_lem key (p ∷ []) q (rw e at h)
    | inl e ↦ render_text_lem key p.value q (rw e at h) ∙ ground (arith, e)
  ]

  render_groups_lem :
      (m : Groups) (clause : Conjunction)
      → render_fields (encode_fields m) ≡ ok clause
      → conjunction_true document clause ≡ all group_met m
  unfolding render_fields encode_fields conjunction_true
  render_groups_lem [] clause h = ground (arith, h)
  render_groups_lem ((key, ps) ∷ m) clause h =
      elim (Result-cases (render_criterion_predicate key (encode_value ps))) [
        | inl (p, e) ↦ elim (Result-cases (render_fields (encode_fields m))) [
          | inl (rest, f) ↦
              ground (arith, h, e, f, render_value_lem key ps p e, render_groups_lem m rest f)
          | inr (x, f) ↦ ground (arith, h, e, f)
        ]
        | inr (x, e) ↦ ground (arith, h, e)
      ]

  insert_group_met :
      (g : String × List TagPredicate) (m : Groups)
      → all group_met (insert_field g m) ≡ (group_met g && all group_met m)
  unfolding insert_field
  insert_group_met (k, v) [] = refl
  insert_group_met (k, v) ((j, w) ∷ m) = ground (arith, insert_group_met (k, v) m)

  sort_groups_met : (m : Groups) → all group_met (sort_fields m) ≡ all group_met m
  unfolding sort_fields
  sort_groups_met [] = refl
  sort_groups_met (g ∷ m) = ground (arith, insert_group_met g (sort_fields m), sort_groups_met m)

  all_snoc :
      (key : String) (p : TagPredicate) (ps : List TagPredicate)
      → all (predicate_met key) (ps ++ p ∷ []) ≡ (all (predicate_met key) ps && predicate_met key p)
  all_snoc key p [] = ground arith
  all_snoc key p (q ∷ ps) = ground (arith, all_snoc key p ps)

  append_predicate_met :
      (key : String) (p : TagPredicate) (m : Groups)
      → all group_met (append_predicate key p m) ≡ (all group_met m && predicate_met key p)
  unfolding append_predicate
  append_predicate_met key p [] = ground arith
  append_predicate_met key p ((other, ps) ∷ m) = elim (Bool-cases (str_eq other key)) [
    | inl e ↦ rw (e, (eq_iff other key).0 e) (ground (arith, all_snoc key p ps))
    | inr e ↦ rw e (ground (arith, append_predicate_met key p m))
  ]

  abbrev found_tag : Tag → Bool
  found_tag tag = compares tag.operator (json_value document tag.key) tag.value

  tag_predicate_met : (tag : Tag) → predicate_met tag.key (tag_predicate tag) ≡ found_tag tag
  unfolding tag_predicate compares
  tag_predicate_met tag = compares_empty tag.operator (json_value document tag.key) tag.value

  group_tags_met :
      (m : Groups) (tags : List Tag)
      → all group_met (group_tags m tags) ≡ (all group_met m && all found_tag tags)
  unfolding group_tags
  group_tags_met m [] = ground arith
  group_tags_met m (tag ∷ tags) = ground (
    arith,
    group_tags_met (append_predicate tag.key (tag_predicate tag) m) tags,
    append_predicate_met tag.key (tag_predicate tag) m,
    tag_predicate_met tag,
  )

  found_plain :
      (tags : List Tag)
      → All (λ (t : Tag). is_plain t.key ≡ true) tags
      → all found_tag tags ≡ all (tag_met document) tags
  found_plain [] v = refl
  found_plain (t ∷ tags) v = rw (json_value_plain document t.key v.0, found_plain tags v.1) refl

  -- A document satisfies the clause of a criterion just if it has the tags.
  pub build_criterion_met :
      (tags : List Tag) (clause : Conjunction)
      → All (λ (t : Tag). is_plain t.key ≡ true) tags
      → build_criterion_sql (encode_criterion tags) ≡ ok clause
      → conjunction_true document clause ≡ all (tag_met document) tags
  unfolding build_criterion_sql encode_criterion
  build_criterion_met tags clause v h =
      render_groups_lem (sort_fields (group_tags [] tags)) clause
        (ap render_fields (sym (sort-encode (group_tags [] tags))) ∙ h)
      ∙ sort_groups_met (group_tags [] tags)
      ∙ group_tags_met [] tags
      ∙ found_plain tags v
