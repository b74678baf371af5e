-- ===== src/Sqlite/Consistency/Latest.antt =====
-- The position that is computed is the latest one.
use orisun.Base.{
  ◌≡◌, refl, ap, ◌∙◌, sym, subst, Bool, true, false, ◌||◌, List, [], ◌∷◌, any, filter, take, arith,
  Bool-cases, inl, inr, ◌⊎◌,
}
use orisun.Status.{ok, Result-cases}
use orisun.Position.{Position, values_after, position_values_after, not_exists_position}
use orisun.Position.Order.{values_after_irrefl, values_after_trans, values_after_total}
use orisun.Query.{ReadCriterion}
use orisun.Sqlite.Predicate.{Conjunction, conjunction_true}
use orisun.Sqlite.Table.{
  Row, In, IsLatest, descending, precedes, insert_ordered, order_by, select, row_position,
}
use orisun.Sqlite.Consistency.{
  row_matches, later_of, latest_from, latest_prepared_criteria_position, latest_criteria_queries,
  latest_criteria_position,
}
use orisun.Sqlite.Consistency.Queries.{latest_criteria_queries_true}
use orisun.Sqlite.Predicate.Meaning.{query_met, ArePlain}

-- No row of `rows` is later than the row `h`, which is one of them.
pub record IsTop (h : Row) (rows : List Row) : Type 0 where
  member : In h rows
  top : (r : Row) → In r rows → values_after (row_position r) (row_position h) ≡ false

-- The head of the ordered rows.
abbrev pub HasTop : List Row → List Row → Type 0
HasTop rows [] = (r : Row) → In r rows → ⊥
HasTop rows (h ∷ t) = IsTop h rows

pub not_after_trans :
    (p q r : Position)
    → values_after p q ≡ false
    → values_after q r ≡ false
    → values_after p r ≡ false
not_after_trans p q r h k = ground (
  arith,
  values_after_total p q,
  values_after_total q r,
  values_after_trans p r q,
  values_after_trans q p r,
  values_after_trans r q p,
  values_after_irrefl p,
  values_after_irrefl r,
)

pub after_asym : (p q : Position) → values_after p q ≡ true → values_after q p ≡ false
after_asym p q h = ground (arith, values_after_trans p q p h, values_after_irrefl p)

insert-HasTop :
    (r : Row) (rows sorted : List Row)
    → HasTop rows sorted
    → HasTop (r ∷ rows) (insert_ordered descending r sorted)
unfolding insert_ordered precedes
insert-HasTop r rows [] h = record {
  member = inl refl;
  top = λ s m. elim m [
    | inl e ↦ rw (← e) (values_after_irrefl (row_position r))
    | inr n ↦ absurd (h s n)
  ];
}
insert-HasTop r rows (s ∷ t) h =
    elim (Bool-cases (values_after (row_position s) (row_position r))) [
      | inl e ↦ rw e (record {
        member = inr h.member;
        top = λ x m. elim m [
          | inl f ↦ rw (← f) (after_asym (row_position s) (row_position r) e)
          | inr n ↦ h.top x n
        ];
      })
      | inr e ↦ rw e (record {
        member = inl refl;
        top = λ x m. elim m [
          | inl f ↦ rw (← f) (values_after_irrefl (row_position r))
          | inr n ↦ not_after_trans (row_position x) (row_position s) (row_position r) (h.top x n) e
        ];
      })
    ]

pub order_by-HasTop : (rows : List Row) → HasTop rows (order_by descending rows)
unfolding order_by
order_by-HasTop [] = λ r m. m
order_by-HasTop (r ∷ rows) = insert-HasTop r rows (order_by descending rows) (order_by-HasTop rows)

pub In-filter :
    (p : Row → Bool) (r : Row) (rows : List Row) → In r rows → p r ≡ true → In r (filter p rows)
In-filter p r [] m h = m
In-filter p r (s ∷ rows) (inl e) h = rw (ap p e, h) (inl e)
In-filter p r (s ∷ rows) (inr m) h = elim (Bool-cases (p s)) [
  | inl e ↦ rw e (inr (In-filter p r rows m h))
  | inr e ↦ rw e (In-filter p r rows m h)
]

pub filter-In :
    (p : Row → Bool) (r : Row) (rows : List Row) → In r (filter p rows) → In r rows × (p r ≡ true)
filter-In p r [] m = absurd m
filter-In p r (s ∷ rows) m = elim (Bool-cases (p s)) [
  | inl e ↦
      let m' : (s ≡ r) ⊎ In r (filter p rows) = rw e at m in
      elim m' [
        | inl f ↦ (inl f, rw (← f) e)
        | inr n ↦ let (x, h) = filter-In p r rows n in (inr x, h)
      ]
  | inr e ↦ let (n, h) = filter-In p r rows (rw e at m) in (inr n, h)
]

abbrev pub either : (Row → Bool) → (Row → Bool) → Row → Bool
either c q r = c r || q r

none_found :
    (q : Row → Bool) (rows : List Row)
    → ((r : Row) → In r (filter q rows) → ⊥)
    → (r : Row) → In r rows
    → q r ≡ false
none_found q rows h r m = elim (Bool-cases (q r)) [
  | inl e ↦ absurd (h r (In-filter q r rows m e))
  | inr e ↦ e
]

-- Every stored position is later than (-1, -1).
some_position : (t : Row) → values_after (row_position t) not_exists_position ≡ false → ⊥
unfolding not_exists_position position_values_after
some_position t e = ground arith

pub IsLatest-same :
    (c d : Row → Bool) (rows : List Row) (p : Position)
    → ((r : Row) → c r ≡ d r)
    → IsLatest c rows p
    → IsLatest d rows p
IsLatest-same c d rows p same l = record {
  not_before = λ r m e. l.not_before r m (same r ∙ e);
  attained = elim l.attained [
    | inl (e, f) ↦ inl (e, λ r m. sym (same r) ∙ f r m)
    | inr (x, m, cx, e) ↦ inr (x, m, sym (same x) ∙ cx, e)
  ];
}

pub step-IsLatest :
    (c q : Row → Bool) (rows found : List Row) (latest : Position)
    → HasTop (filter q rows) found
    → IsLatest c rows latest
    → IsLatest (either c q) rows (later_of latest (take 1 found))
unfolding later_of
step-IsLatest c q rows [] latest h l = record {
  not_before = λ r m e. ground (arith, l.not_before r m, none_found q rows h r m);
  attained = elim l.attained [
    | inl (e, f) ↦ inl (e, λ r m. ground (arith, f r m, none_found q rows h r m))
    | inr (x, m, cx, e) ↦ inr (x, m, ground (arith, cx), e)
  ];
}
step-IsLatest c q rows (t ∷ found) latest h l =
    elim (Bool-cases (values_after (row_position t) latest)) [
      | inl e ↦
          let (m, qt) = filter-In q t rows h.member in
          rw e (record {
            not_before = λ r n f. elim (Bool-cases (c r)) [
              | inl g ↦
                  not_after_trans (row_position r) latest (row_position t) (l.not_before r n g)
                    (after_asym (row_position t) latest e)
              | inr g ↦ h.top r (In-filter q r rows n (rw g at f))
            ];
            attained = inr (t, m, ground (arith, qt), refl);
          })
      | inr e ↦ rw e (record {
        not_before = λ r n f. elim (Bool-cases (c r)) [
          | inl g ↦ l.not_before r n g
          | inr g ↦
              not_after_trans (row_position r) (row_position t) latest
                (h.top r (In-filter q r rows n (rw g at f))) e
        ];
        attained = elim l.attained [
          | inl (g, f) ↦
              absurd (some_position t (subst (λ p. values_after (row_position t) p ≡ false) g e))
          | inr (x, m, cx, g) ↦ inr (x, m, ground (arith, cx), g)
        ];
      })
    ]

latest_from-IsLatest :
    (c : Row → Bool) (rows : List Row) (latest : Position) (queries : List Conjunction)
    → IsLatest c rows latest
    → IsLatest
        (λ r. c r || any (conjunction_true r.document) queries)
        rows
        (latest_from rows latest queries)
unfolding latest_from select
latest_from-IsLatest c rows latest [] l = IsLatest-same c _ rows latest (λ r. ground arith) l
latest_from-IsLatest c rows latest (q ∷ queries) l =
    IsLatest-same _ _ rows _ (λ r. ground arith)
      (latest_from-IsLatest (either c (row_matches q)) rows _ queries (
        step-IsLatest c (row_matches q) rows (order_by descending (filter (row_matches q) rows))
          latest (order_by-HasTop (filter (row_matches q) rows)) l))

pub no_rows : (rows : List Row) → IsLatest (λ r. false) rows not_exists_position
no_rows rows = record { not_before = λ r m e. ground arith; attained = inl (refl, λ r m. refl) }

-- For every table, and criteria of which no key has a double quote or a backslash, a position that
-- `latestCriteriaPosition` returns is the latest position of the rows that satisfy the content query
-- of the criteria, each tag by the comparison that its operator names: no such row is later, and it
-- is the position of such a row, or (-1, -1) when there is none.
pub latest_criteria_position_correct :
    (rows : List Row) (criteria : List ReadCriterion) (p : Position)
    → ArePlain criteria
    → latest_criteria_position rows criteria ≡ ok p
    → IsLatest (λ r. query_met r.document criteria) rows p
unfolding latest_criteria_position latest_prepared_criteria_position
latest_criteria_position_correct rows criteria p v h =
    elim (Result-cases (latest_criteria_queries criteria)) [
      | inl (queries, e) ↦
          let shape : latest_from rows not_exists_position queries ≡ p = ground arith in
          rw (← shape) (
            IsLatest-same _ _ rows _
              (λ r. latest_criteria_queries_true r.document criteria queries v e)
              (latest_from-IsLatest (λ r. false) rows not_exists_position queries (no_rows rows)))
      | inr (x, e) ↦ ground arith
    ]
