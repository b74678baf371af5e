-- ===== src/Sqlite/Read/Context.antt =====
-- The position of the context that GetLatestByCriteria returns.
use orisun.Base.{
  ◌≡◌, refl, ap, Bool, true, false, not, ◌||◌, ◌⊎◌, none, some, List, [], ◌∷◌, any, filter, take,
  All, arith, Bool-cases, inl, inr,
}
use orisun.Status.{Result, ok, Result-cases}
use orisun.Position.{values_after, not_exists_position}
use orisun.Query.{Tag, Fields, ReadCriterion, encode_criterion, validate_read_criteria}
use orisun.Sqlite.Predicate.{Conjunction, build_criterion_sql, conjunction_true}
use orisun.Sqlite.Table.{Row, IsLatest, descending, select, order_by, row_position}
use orisun.Sqlite.Consistency.{later_of}
use orisun.Sqlite.Predicate.Meaning.{criterion_met, is_plain, ArePlain}
use orisun.Sqlite.Predicate.Encoded.{build_criterion_met}
use orisun.Sqlite.Consistency.Latest.{order_by-HasTop, step-IsLatest, IsLatest-same, no_rows}
use orisun.Sqlite.Save.Check.{row_after_none}
use orisun.Sqlite.Read.{
  LatestByCriteriaBatch, ReadIo, matches, or_parts, build_criteria_sql, observe, lookup,
  latest_loop, no_matches, read_latest, get_latest_by_criteria,
}

-- A row satisfies the clause of one criterion exactly when it has its tags.
build_criteria_met :
    (row : Row) (x : ReadCriterion) (where_sql : List Conjunction)
    → All (λ (t : Tag). is_plain t.key ≡ true) x.tags
    → build_criteria_sql (encode_criterion x.tags ∷ []) ≡ ok where_sql
    → matches where_sql row ≡ criterion_met row.document x
unfolding build_criteria_sql or_parts conjunction_true
build_criteria_met row x where_sql v h =
    elim (Result-cases (build_criterion_sql (encode_criterion x.tags))) [
      | inl ([], e) ↦ ground (arith, build_criterion_met row.document x.tags [] v e)
      | inl (p ∷ ps, e) ↦ ground (arith, build_criterion_met row.document x.tags (p ∷ ps) v e)
      | inr (x, e) ↦ ground arith
    ]

-- Whether a row satisfies one of the criteria.
abbrev pub some_true : List ReadCriterion → Row → Bool
some_true criteria r = any (criterion_met r.document) criteria

module _ {E : Type 0} (scan : Row → Result E) where
  -- Before the first match, the context is (-1, -1).
  abbrev IsStarted : LatestByCriteriaBatch E → Type 0
  IsStarted batch = (batch.found ≡ true) ⊎ (batch.context ≡ not_exists_position)

  first_later :
      (row : Row) (batch : LatestByCriteriaBatch E)
      → IsStarted batch
      → (not batch.found || values_after (row_position row) batch.context) ≡ true
      → values_after (row_position row) batch.context ≡ true
  first_later row batch (inl e) h = ground arith
  first_later row batch (inr e) h = rw e (row_after_none row)

  observe_later :
      (found : List Row) (batch batch' : LatestByCriteriaBatch E)
      → IsStarted batch
      → observe scan (take 1 found) batch ≡ ok batch'
      → (batch'.context ≡ later_of batch.context (take 1 found)) × IsStarted batch'
  unfolding observe later_of
  observe_later [] batch batch' s h =
      let shape : record batch { matched = none ∷ batch.matched } ≡ batch' = ground arith in
      rw (← shape) (refl, s)
  observe_later (row ∷ rows) batch batch' s h = elim (Result-cases (scan row)) [
    | inr (x, e) ↦ ground arith
    | inl (event, e) ↦
        elim (Bool-cases (not batch.found || values_after (row_position row) batch.context)) [
          | inl f ↦
              let shape : record {
                matched = some event ∷ batch.matched;
                context = row_position row;
                found = true;
              }
                  ≡ batch' =
                ground arith in
              let later : values_after (row_position row) batch.context ≡ true =
                first_later row batch s f in
              rw (← shape, later) (refl, inl refl)
          | inr f ↦
              let shape : record batch { matched = some event ∷ batch.matched } ≡ batch' =
                ground arith in
              let not_later : values_after (row_position row) batch.context ≡ false =
                ground arith in
              rw (← shape, not_later) (refl, s)
        ]
  ]

  lookup-IsLatest :
      (rows : List Row) (fields : Fields) (c d : Row → Bool)
      (batch batch' : LatestByCriteriaBatch E)
      → ((r : Row) (where_sql : List Conjunction)
          → build_criteria_sql (fields ∷ []) ≡ ok where_sql
          → matches where_sql r ≡ d r)
      → IsStarted batch
      → IsLatest c rows batch.context
      → lookup scan rows fields batch ≡ ok batch'
      → IsLatest (λ r. c r || d r) rows batch'.context × IsStarted batch'
  unfolding lookup select
  lookup-IsLatest rows [] c d batch batch' k s l h = ground arith
  lookup-IsLatest rows (f ∷ fields) c d batch batch' k s l h =
      elim (Result-cases (build_criteria_sql ((f ∷ fields) ∷ []))) [
        | inr (x, e) ↦ ground arith
        | inl (where_sql, e) ↦
            let found = order_by descending (filter (matches where_sql) rows) in
            let (at, s') = observe_later found batch batch' s (ground arith) in
            (
              rw at (
                  IsLatest-same _ _ rows _ (λ r. ap (λ (b : Bool). c r || b) (k r where_sql e))
                    (step-IsLatest c (matches where_sql) rows found batch.context
                      (order_by-HasTop (filter (matches where_sql) rows)) l)),
              s',
            )
      ]

  latest_loop-IsLatest :
      (rows : List Row) (criteria : List ReadCriterion) (c : Row → Bool)
      (batch batch' : LatestByCriteriaBatch E)
      → ArePlain criteria
      → IsStarted batch
      → IsLatest c rows batch.context
      → latest_loop scan rows criteria batch ≡ ok batch'
      → IsLatest (λ r. c r || some_true criteria r) rows batch'.context
  unfolding latest_loop
  latest_loop-IsLatest rows [] c batch batch' v s l h =
      let shape : batch ≡ batch' = ground arith in
      rw (← shape) (IsLatest-same c _ rows _ (λ r. ground arith) l)
  latest_loop-IsLatest rows (x ∷ criteria) c batch batch' v s l h =
      elim (Result-cases (lookup scan rows (encode_criterion x.tags) batch)) [
        | inr (y, e) ↦ ground arith
        | inl (next, e) ↦
            let (m, t) =
              lookup-IsLatest rows (encode_criterion x.tags) c (λ r. criterion_met r.document x)
                batch next (λ r where_sql f. build_criteria_met r x where_sql v.0 f) s l e in
            IsLatest-same _ _ rows _ (λ r. ground arith)
              (latest_loop-IsLatest rows criteria _ next batch' v.1 t m (ground arith))
      ]

  read_latest-IsLatest :
      (io : ReadIo) (rows : List Row) (criteria : List ReadCriterion)
      (batch : LatestByCriteriaBatch E)
      → ArePlain criteria
      → read_latest scan io rows criteria ≡ ok batch
      → IsLatest (some_true criteria) rows batch.context
  unfolding read_latest
  read_latest-IsLatest io rows criteria batch v h =
      IsLatest-same _ _ rows _ (λ r. ground arith)
        (latest_loop-IsLatest rows criteria (λ r. false) no_matches batch v (inr refl)
          (no_rows rows) (ground arith))

-- The position of the context that `GetLatestByCriteria` returns is the latest one of the rows that
-- satisfy one of the criteria, each tag by the comparison that its operator names: the position that a
-- consistency check on these criteria expects. The keys have no double quote and no backslash.
pub get_latest_by_criteria-IsLatest :
    {E : Type 0} (scan : Row → Result E) (io : ReadIo) (rows : List Row)
    (criteria : List ReadCriterion) (batch : LatestByCriteriaBatch E)
    → ArePlain criteria
    → get_latest_by_criteria scan io rows criteria ≡ ok batch
    → IsLatest (some_true criteria) rows batch.context
unfolding get_latest_by_criteria
get_latest_by_criteria-IsLatest scan io rows criteria batch v h =
    elim (Result-cases (validate_read_criteria criteria)) [
      | inl (a, e) ↦ read_latest-IsLatest scan io rows criteria batch v (ground arith)
      | inr (x, e) ↦ ground arith
    ]
