-- ===== src/Sqlite/Consistency/Minimal.antt =====
-- Dropping redundant criteria changes no query: `minimalCriteria` against the disjunction of all.
use orisun.Base.{
  ◌≡◌, refl, ap, ◌∙◌, Bool, true, false, ◌&&◌, ◌||◌, not, List, [], ◌∷◌, String, str_eq, eq_iff,
  any, all, any-append, filter, arith, Bool-cases, inl, inr,
}
use orisun.Status.{Result, ok, err, Result-cases}
use orisun.Query.{TagPredicate, FieldValue, Fields, insert_field, sort_fields}
use orisun.Document.{Document}
use orisun.Sqlite.Predicate.{
  Conjunction, SqlPredicate, render_criterion_predicate, render_fields, build_criterion_sql,
  predicate_true, conjunction_true,
}
use orisun.Sqlite.Consistency.{
  CriterionLookup, same_predicates, deep_equal, field_value, contains_fields, criterion_contains,
  add_candidate, minimal_from, minimal_criteria, has_value,
}

-- The meaning of a query, without sorting, rendering or simplification: a criterion holds when
-- each of its fields does, and a query when one of its criteria that are not empty does, or when
-- it has none.

abbrev pub rendered_true : Document → Result SqlPredicate → Bool
rendered_true document (ok p) = predicate_true document p
rendered_true document (err e) = false

abbrev pub field_true : Document → String × FieldValue → Bool
field_true document (key, value) = rendered_true document (render_criterion_predicate key value)

abbrev pub criterion_true : Document → Fields → Bool
criterion_true document fields = all (field_true document) fields

same_predicates_eq : (ps qs : List TagPredicate) → same_predicates ps qs ≡ true → ps ≡ qs
unfolding same_predicates
same_predicates_eq [] [] h = refl
same_predicates_eq [] (q ∷ qs) h = cc
same_predicates_eq (p ∷ ps) [] h = cc
same_predicates_eq (p ∷ ps) (q ∷ qs) h =
    ground (arith, eq_iff p.operator q.operator, eq_iff p.value q.value, same_predicates_eq ps qs)

deep_equal_eq : (v w : FieldValue) → deep_equal v w ≡ true → v ≡ w
unfolding deep_equal
deep_equal_eq (FieldValue.text s) (FieldValue.text t) h = ap FieldValue.text ((eq_iff s t).0 h)
deep_equal_eq (FieldValue.predicates ps) (FieldValue.predicates qs) h =
    ap FieldValue.predicates (same_predicates_eq ps qs h)
deep_equal_eq (FieldValue.array ps) (FieldValue.array qs) h =
    ap FieldValue.array (same_predicates_eq ps qs h)
deep_equal_eq _ _ h = ground arith

module _ (document : Document) where
  field_value-true :
      (k : String) (v : FieldValue) (fields : Fields)
      → has_value (field_value k fields) v ≡ true
      → criterion_true document fields ≡ true
      → field_true document (k, v) ≡ true
  unfolding field_value has_value
  field_value-true k v [] h t = cc
  field_value-true k v ((j, w) ∷ fields) h t = elim (Bool-cases (str_eq j k)) [
    | inl e ↦
        let same : w ≡ v = deep_equal_eq w v (rw e at h) in
        rw (← same, ← (eq_iff j k).0 e) (ground arith)
    | inr e ↦ field_value-true k v fields (rw e at h) (ground arith)
  ]

  contains_fields-true :
      (criterion subset : Fields)
      → contains_fields criterion subset ≡ true
      → criterion_true document criterion ≡ true
      → criterion_true document subset ≡ true
  unfolding contains_fields
  contains_fields-true criterion [] h t = refl
  contains_fields-true criterion ((key, value) ∷ subset) h t =
      ground (arith, field_value-true key value criterion, contains_fields-true criterion subset)

  criterion_contains-true :
      (criterion subset : Fields)
      → criterion_contains criterion subset ≡ true
      → criterion_true document criterion ≡ true
      → criterion_true document subset ≡ true
  unfolding criterion_contains
  criterion_contains-true criterion subset h t =
      ground (arith, contains_fields-true criterion subset)

  abbrev lookup_true : CriterionLookup → Bool
  lookup_true l = criterion_true document l.criterion

  redundant_true :
      (candidate : CriterionLookup) (minimal : List CriterionLookup)
      → any (λ existing. criterion_contains candidate.criterion existing.criterion) minimal ≡ true
      → lookup_true candidate ≡ true
      → any lookup_true minimal ≡ true
  redundant_true candidate [] h t = cc
  redundant_true candidate (l ∷ minimal) h t = ground (
    arith,
    criterion_contains-true candidate.criterion l.criterion,
    redundant_true candidate minimal,
  )

  kept_true :
      (candidate : CriterionLookup) (minimal : List CriterionLookup)
      → (any lookup_true (
            filter
              (λ existing. not (criterion_contains existing.criterion candidate.criterion))
              minimal)
          || lookup_true candidate)
        ≡ (any lookup_true minimal || lookup_true candidate)
  kept_true candidate [] = refl
  kept_true candidate (l ∷ minimal) =
      ground (
        arith,
        criterion_contains-true l.criterion candidate.criterion,
        kept_true candidate minimal,
      )

  add_candidate_true :
      (minimal : List CriterionLookup) (candidate : CriterionLookup)
      → any lookup_true (add_candidate minimal candidate)
        ≡ (any lookup_true minimal || lookup_true candidate)
  unfolding add_candidate
  add_candidate_true minimal candidate =
      elim (Bool-cases
        (any (λ existing. criterion_contains candidate.criterion existing.criterion) minimal)) [
          | inl e ↦ rw e (ground (arith, redundant_true candidate minimal e))
          | inr e ↦ rw e (
              ground (
                arith,
                any-append lookup_true
                    (filter
                      (λ existing. not (criterion_contains existing.criterion candidate.criterion))
                      minimal)
                    (candidate ∷ []),
                kept_true candidate minimal,
              ))
        ]

  minimal_from_true :
      (minimal criteria : List CriterionLookup)
      → any lookup_true (minimal_from minimal criteria)
        ≡ (any lookup_true minimal || any lookup_true criteria)
  unfolding minimal_from
  minimal_from_true minimal [] = ground arith
  minimal_from_true minimal (candidate ∷ criteria) = ground (
    arith,
    minimal_from_true (add_candidate minimal candidate) criteria,
    add_candidate_true minimal candidate,
  )

-- On every document, the criteria that `minimalCriteria` keeps hold at one of them exactly when
-- one of the criteria that it was given holds.
pub minimal_criteria_true :
    (document : Document) (criteria : List CriterionLookup)
    → any (λ (l : CriterionLookup). criterion_true document l.criterion) (minimal_criteria criteria)
      ≡ any (λ (l : CriterionLookup). criterion_true document l.criterion) criteria
unfolding minimal_criteria
minimal_criteria_true document criteria = minimal_from_true document [] criteria

-- Rendering and sorting keep the meaning of a criterion.

module _ (document : Document) where
  render_fields_true :
      (fields : Fields) (clause : Conjunction)
      → render_fields fields ≡ ok clause
      → conjunction_true document clause ≡ criterion_true document fields
  unfolding render_fields conjunction_true
  render_fields_true [] clause h = ground arith
  render_fields_true ((key, value) ∷ fields) clause h =
      elim (Result-cases (render_criterion_predicate key value)) [
        | inl (p, e) ↦ elim (Result-cases (render_fields fields)) [
          | inl (rest, e') ↦ ground (arith, render_fields_true fields rest e')
          | inr (x, e') ↦ ground arith
        ]
        | inr (x, e) ↦ ground arith
      ]

  insert_field_true :
      (f : String × FieldValue) (fields : Fields)
      → criterion_true document (insert_field f fields)
        ≡ (field_true document f && criterion_true document fields)
  unfolding insert_field
  insert_field_true (k, v) [] = refl
  insert_field_true (k, v) ((j, w) ∷ fields) = ground (arith, insert_field_true (k, v) fields)

  sort_fields_true :
      (fields : Fields)
      → criterion_true document (sort_fields fields) ≡ criterion_true document fields
  unfolding sort_fields
  sort_fields_true [] = refl
  sort_fields_true (f ∷ fields) =
      ground (arith, insert_field_true f (sort_fields fields), sort_fields_true fields)

  pub build_criterion_true :
      (fields : Fields) (clause : Conjunction)
      → build_criterion_sql fields ≡ ok clause
      → conjunction_true document clause ≡ criterion_true document fields
  unfolding build_criterion_sql
  build_criterion_true fields clause h =
      render_fields_true (sort_fields fields) clause h ∙ sort_fields_true fields
