-- ===== src/Sqlite/Consistency/Queries.antt =====
-- The queries that `latestCriteriaQueries` makes, against the content query that it is given.
use orisun.Base.{
  ◌≡◌, refl, ap, ◌∙◌, Bool, true, false, List, [], ◌∷◌, ◌++◌, any, filter, arith, Bool-cases,
  if◌then◌else◌, List-cases, String, sym, inl, inr, All, All-filter, All-append,
}
use orisun.Status.{ok, Result-cases}
use orisun.Query.{
  Tag, TagPredicate, Fields, ReadCriterion, append_predicate, tag_predicate, group_tags,
  encode_fields, encode_criterion, encode_read_criteria,
}
use orisun.Query.Codec.{Groups}
use orisun.Sqlite.Predicate.Meaning.{criterion_met, has_tags, some_met, query_met, ArePlain}
use orisun.Sqlite.Predicate.Encoded.{build_criterion_met}
use orisun.Document.{Document}
use orisun.Sqlite.Predicate.{Conjunction, build_criterion_sql, conjunction_true}
use orisun.Sqlite.Consistency.{
  CriterionLookup, criterion_contains, add_candidate, minimal_from, minimal_criteria,
  criterion_lookups, clauses, or_all, latest_criteria_queries,
}
use orisun.Sqlite.Consistency.Minimal.{criterion_true, build_criterion_true, minimal_criteria_true}

abbrev pub is_nonempty {ℓ} : {A : Type ℓ} → List A → Bool
is_nonempty [] = false
is_nonempty (x ∷ xs) = true

abbrev some_criterion : Document → List Fields → Bool
some_criterion document [] = true
some_criterion document (c ∷ cs) = any (criterion_true document) (c ∷ cs)

-- The meaning of a content query on a document.
abbrev pub query_true : Document → List ReadCriterion → Bool
query_true document criteria =
    some_criterion document (filter is_nonempty (encode_read_criteria criteria))

abbrev lookup_criteria : List CriterionLookup → List Fields
lookup_criteria [] = []
lookup_criteria (l ∷ ls) = l.criterion ∷ lookup_criteria ls

abbrev IsRendered : CriterionLookup → Type 0
IsRendered l = build_criterion_sql l.criterion ≡ ok l.clause

record AreLookups (criteria : List Fields) (ls : List CriterionLookup) : Type 0 where
  same_criteria : lookup_criteria ls ≡ filter is_nonempty criteria
  rendered : All IsRendered ls

criterion_lookups-AreLookups :
    (criteria : List Fields) (ls : List CriterionLookup)
    → criterion_lookups criteria ≡ ok ls
    → AreLookups criteria ls
unfolding criterion_lookups
criterion_lookups-AreLookups [] [] h = record { same_criteria = refl; rendered = tt }
criterion_lookups-AreLookups [] (l ∷ ls) h = ground arith
criterion_lookups-AreLookups ([] ∷ criteria) ls h =
    let rest = criterion_lookups-AreLookups criteria ls h in
    record { same_criteria = rest.same_criteria; rendered = rest.rendered }
criterion_lookups-AreLookups ((f ∷ fields) ∷ criteria) ls h =
    elim (Result-cases (build_criterion_sql (f ∷ fields))) [
      | inl (clause, e) ↦ elim (Result-cases (criterion_lookups criteria)) [
        | inl (rest, e') ↦
            let r = criterion_lookups-AreLookups criteria rest e' in
            let shape : record { criterion = f ∷ fields; clause = clause } ∷ rest ≡ ls =
              ground arith in
            rw (← shape) (record {
              same_criteria = ap (◌∷◌ (f ∷ fields)) r.same_criteria;
              rendered = (e, r.rendered);
            })
        | inr (x, e') ↦ ground arith
      ]
      | inr (x, e) ↦ ground arith
    ]

add_candidate-IsRendered :
    (minimal : List CriterionLookup) (candidate : CriterionLookup)
    → All IsRendered minimal
    → IsRendered candidate
    → All IsRendered (add_candidate minimal candidate)
unfolding add_candidate
add_candidate-IsRendered minimal candidate v w =
    elim (Bool-cases
      (any (λ existing. criterion_contains candidate.criterion existing.criterion) minimal)) [
        | inl e ↦ rw e v
        | inr e ↦
            rw e
              (All-append IsRendered _ (candidate ∷ []) (All-filter IsRendered _ minimal v) (w, tt))
      ]

minimal_from-IsRendered :
    (minimal criteria : List CriterionLookup)
    → All IsRendered minimal
    → All IsRendered criteria
    → All IsRendered (minimal_from minimal criteria)
unfolding minimal_from
minimal_from-IsRendered minimal [] v w = v
minimal_from-IsRendered minimal (c ∷ criteria) v w =
    minimal_from-IsRendered (add_candidate minimal c) criteria
      (add_candidate-IsRendered minimal c v w.0) w.1

append-nonempty :
    (xs : List CriterionLookup) (c : CriterionLookup) → is_nonempty (xs ++ c ∷ []) ≡ true
append-nonempty [] c = refl
append-nonempty (x ∷ xs) c = refl

any-nonempty :
    (p : CriterionLookup → Bool) (xs : List CriterionLookup)
    → any p xs ≡ true
    → is_nonempty xs ≡ true
any-nonempty p [] h = h
any-nonempty p (x ∷ xs) h = refl

add_candidate-nonempty :
    (minimal : List CriterionLookup) (candidate : CriterionLookup)
    → is_nonempty (add_candidate minimal candidate) ≡ true
unfolding add_candidate
add_candidate-nonempty minimal candidate =
    elim (Bool-cases
      (any (λ existing. criterion_contains candidate.criterion existing.criterion) minimal)) [
        | inl e ↦ rw e (any-nonempty _ minimal e)
        | inr e ↦ rw e (append-nonempty _ candidate)
      ]

minimal_from-nonempty :
    (minimal criteria : List CriterionLookup)
    → is_nonempty minimal ≡ true
    → is_nonempty (minimal_from minimal criteria) ≡ true
unfolding minimal_from
minimal_from-nonempty minimal [] h = h
minimal_from-nonempty minimal (c ∷ criteria) h =
    minimal_from-nonempty (add_candidate minimal c) criteria (add_candidate-nonempty minimal c)

module _ (document : Document) where
  abbrev lookup_true : CriterionLookup → Bool
  lookup_true l = criterion_true document l.criterion

  clauses_true :
      (ls : List CriterionLookup)
      → All IsRendered ls
      → any (conjunction_true document) (clauses ls) ≡ any lookup_true ls
  unfolding clauses
  clauses_true [] v = refl
  clauses_true (l ∷ ls) v =
      ground (arith, build_criterion_true document l.criterion l.clause v.0, clauses_true ls v.1)

  or_all-true :
      (ls : List CriterionLookup)
      → is_nonempty ls ≡ true
      → any (conjunction_true document) (or_all (clauses ls))
        ≡ any (conjunction_true document) (clauses ls)
  unfolding clauses or_all
  or_all-true [] h = ground arith
  or_all-true (l ∷ ls) h = refl

  lookup_criteria_true :
      (ls : List CriterionLookup)
      → any lookup_true ls ≡ any (criterion_true document) (lookup_criteria ls)
  lookup_criteria_true [] = refl
  lookup_criteria_true (l ∷ ls) = ground (arith, lookup_criteria_true ls)

  queries_of_lookups :
      (ls : List CriterionLookup)
      → All IsRendered ls
      → any (conjunction_true document) (or_all (clauses (minimal_criteria ls)))
        ≡ some_criterion document (lookup_criteria ls)
  unfolding minimal_criteria or_all clauses conjunction_true
  queries_of_lookups [] v = refl
  queries_of_lookups (l ∷ ls) v =
      or_all-true (minimal_criteria (l ∷ ls))
        (minimal_from-nonempty (add_candidate [] l) ls (add_candidate-nonempty [] l))
      ∙ clauses_true (minimal_criteria (l ∷ ls)) (minimal_from-IsRendered [] (l ∷ ls) tt v)
      ∙ minimal_criteria_true document (l ∷ ls)
      ∙ lookup_criteria_true (l ∷ ls)

-- With rendered queries, a document satisfies one of them just if it satisfies the encoded query.
queries_encoded_true :
    (document : Document) (criteria : List ReadCriterion) (ls : List CriterionLookup)
    (queries : List Conjunction)
    → criterion_lookups (encode_read_criteria criteria) ≡ ok ls
    → latest_criteria_queries criteria ≡ ok queries
    → any (conjunction_true document) queries ≡ query_true document criteria
unfolding latest_criteria_queries
queries_encoded_true document criteria ls queries e h =
    let r = criterion_lookups-AreLookups (encode_read_criteria criteria) ls e in
    let shape : or_all (clauses (minimal_criteria ls)) ≡ queries = ground (arith, h, e) in
    rw (← shape)
      (queries_of_lookups document ls r.rendered ∙ ap (some_criterion document) r.same_criteria)

append_predicate_cons :
    (key : String) (p : TagPredicate) (m : Groups) → is_nonempty (append_predicate key p m) ≡ true
unfolding append_predicate
append_predicate_cons key p [] = refl
append_predicate_cons key p ((other, ps) ∷ m) = ground arith

group_tags_nonempty :
    (m : Groups) (tags : List Tag)
    → is_nonempty m ≡ true
    → is_nonempty (encode_fields (group_tags m tags)) ≡ true
unfolding group_tags encode_fields
group_tags_nonempty [] [] h = h
group_tags_nonempty ((key, ps) ∷ m) [] h = refl
group_tags_nonempty m (t ∷ tags) h =
    group_tags_nonempty (append_predicate t.key (tag_predicate t) m) tags
      (append_predicate_cons t.key (tag_predicate t) m)

-- A criterion with tags has fields.
pub encode_criterion_cons :
    (t : Tag) (tags : List Tag) → is_nonempty (encode_criterion (t ∷ tags)) ≡ true
unfolding encode_criterion group_tags
encode_criterion_cons t tags =
    group_tags_nonempty (append_predicate t.key (tag_predicate t) []) tags
      (append_predicate_cons t.key (tag_predicate t) [])

lookups_skip :
    (fields : Fields) (criteria : List Fields) (ls : List CriterionLookup)
    → is_nonempty fields ≡ false
    → criterion_lookups (fields ∷ criteria) ≡ ok ls
    → criterion_lookups criteria ≡ ok ls
unfolding criterion_lookups
lookups_skip [] criteria ls n h = h
lookups_skip (f ∷ fields) criteria ls n h = ground (arith, n)

lookups_cons :
    (fields : Fields) (criteria : List Fields) (ls : List CriterionLookup)
    → is_nonempty fields ≡ true
    → criterion_lookups (fields ∷ criteria) ≡ ok ls
    → ((clause : Conjunction) × (build_criterion_sql fields ≡ ok clause))
      × ((rest : List CriterionLookup) × (criterion_lookups criteria ≡ ok rest))
unfolding criterion_lookups
lookups_cons [] criteria ls n h = ground (arith, n)
lookups_cons (f ∷ fields) criteria ls n h = elim (Result-cases (build_criterion_sql (f ∷ fields))) [
  | inr (x, e) ↦ ground (arith, h, e)
  | inl (clause, e) ↦ elim (Result-cases (criterion_lookups criteria)) [
    | inr (x, g) ↦ ground (arith, h, e, g)
    | inl (rest, g) ↦ ((clause, e), (rest, g))
  ]
]

abbrev no_tags : List Tag → Bool
no_tags [] = true
no_tags (t ∷ ts) = false

module _ (document : Document) where
  -- What is left of the encoded criteria has the same truth as what is left of the criteria.
  abbrev AgreeOn : List Fields → List ReadCriterion → Type 0
  AgreeOn encoded criteria =
      (is_nonempty encoded ≡ is_nonempty criteria)
      × (any (criterion_true document) encoded ≡ any (criterion_met document) criteria)

  add_criterion :
      (fields : Fields) (c : ReadCriterion) (encoded : List Fields) (criteria : List ReadCriterion)
      → is_nonempty fields ≡ has_tags c
      → (has_tags c ≡ true → criterion_true document fields ≡ criterion_met document c)
      → AgreeOn encoded criteria
      → AgreeOn
          (if is_nonempty fields then fields ∷ encoded else encoded)
          (if has_tags c then c ∷ criteria else criteria)
  add_criterion fields c encoded criteria h k a = elim (Bool-cases (has_tags c)) [
    | inl e ↦ rw (h, e) (refl, ground (arith, k e, a.1))
    | inr e ↦ rw (h, e) a
  ]

  criteria_met :
      (criteria : List ReadCriterion) (ls : List CriterionLookup)
      → ArePlain criteria
      → criterion_lookups (encode_read_criteria criteria) ≡ ok ls
      → AgreeOn (filter is_nonempty (encode_read_criteria criteria)) (filter has_tags criteria)
  unfolding encode_read_criteria
  criteria_met [] ls v h = (refl, refl)
  criteria_met (c ∷ criteria) ls v h = elim (List-cases c.tags) [
    | inl e ↦
        add_criterion (encode_criterion c.tags) c _ _ (rw (e, encode_criterion) refl)
          (λ k. ground (arith, ap no_tags e, k))
          (criteria_met criteria ls v.1
            (lookups_skip (encode_criterion c.tags) _ ls (rw (e, encode_criterion) refl) h))
    | inr (t, ts, e) ↦
        let some_fields : is_nonempty (encode_criterion c.tags) ≡ true =
          rw e (encode_criterion_cons t ts) in
        let ((clause, f), (rest, g)) = lookups_cons (encode_criterion c.tags) _ ls some_fields h in
        add_criterion (encode_criterion c.tags) c _ _ (some_fields ∙ rw e refl)
          (λ k.
            sym (build_criterion_true document (encode_criterion c.tags) clause f)
            ∙ build_criterion_met document c.tags clause v.0 f)
          (criteria_met criteria rest v.1 g)
  ]

  some_criterion_met :
      (encoded : List Fields) (criteria : List ReadCriterion)
      → AgreeOn encoded criteria
      → some_criterion document encoded ≡ some_met document criteria
  some_criterion_met [] [] a = refl
  some_criterion_met [] (c ∷ criteria) a = ground (arith, a.0)
  some_criterion_met (f ∷ encoded) [] a = ground (arith, a.0)
  some_criterion_met (f ∷ encoded) (c ∷ criteria) a = a.1

-- When the queries for a list of criteria can be rendered, and no key has a double quote or a
-- backslash, a document satisfies one of the queries exactly when it satisfies one of the criteria
-- that have tags, or anything if there is none: every tag of that criterion, by the comparison that
-- its operator names.
pub latest_criteria_queries_true :
    (document : Document) (criteria : List ReadCriterion) (queries : List Conjunction)
    → ArePlain criteria
    → latest_criteria_queries criteria ≡ ok queries
    → any (conjunction_true document) queries ≡ query_met document criteria
unfolding latest_criteria_queries
latest_criteria_queries_true document criteria queries v h =
    elim (Result-cases (criterion_lookups (encode_read_criteria criteria))) [
      | inl (ls, e) ↦
          queries_encoded_true document criteria ls queries e h
          ∙ some_criterion_met document _ _ (criteria_met document criteria ls v e)
      | inr (x, e) ↦ ground (arith, h, e)
    ]
