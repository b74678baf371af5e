-- ===== src/Sqlite/Save/Check.antt =====
-- The consistency checks of saveSavepointed in sqlite/group_commit_executor.go.
use orisun.Base.{
  ◌≡◌, refl, sym, ◌∙◌, ◌↔◌, subst, Bool, true, false, List, [], ◌∷◌, All, arith, Bool-cases, inl,
  inr, eq_ℤ_iff,
}
use orisun.Status.{ok, Result-cases}
use orisun.Position.{Position, same, values_after, position_values_after, not_exists_position}
use orisun.Position.Order.{values_after_total}
use orisun.Sqlite.Predicate.{Conjunction}
use orisun.Sqlite.Table.{Row, IsLatest, row_position}
use orisun.Sqlite.Consistency.{
  latest_criteria_queries, latest_prepared_criteria_position, latest_criteria_position,
}
use orisun.Sqlite.Predicate.Meaning.{query_met, ArePlain}
use orisun.Sqlite.Consistency.Latest.{latest_criteria_position_correct}
use orisun.Sqlite.Save.{ConsistencyCheck, prepare_consistency_checks, run_checks}
use orisun.Status.{is_ok}

abbrev pub check_clause : ConsistencyCheck → Row → Bool
check_clause check row = query_met row.document check.criteria

-- No key of the content query has a double quote or a backslash.
abbrev pub ArePlainCheck : ConsistencyCheck → Type 0
ArePlainCheck check = ArePlain check.criteria

-- The queries of the check can be rendered, SQLite runs them, and its position is the latest one of the rows that
-- satisfy its content query.
pub record CheckHolds (runs : List Row → List Conjunction → Bool) (rows : List Row)
    (check : ConsistencyCheck) : Type 0 where
  pub renderable : is_ok (latest_criteria_queries check.criteria) ≡ true
  pub answered :
      (queries : List Conjunction)
      → latest_criteria_queries check.criteria ≡ ok queries
      → runs rows queries ≡ true
  pub latest : IsLatest (check_clause check) rows check.position

pub same_iff : (p q : Position) → same p q ≡ true ↔ (p ≡ q)
same_iff p q = ground (
  arith,
  eq_ℤ_iff p.commit_position q.commit_position,
  eq_ℤ_iff p.prepare_position q.prepare_position,
)

pub row_after_none : (r : Row) → values_after (row_position r) not_exists_position ≡ true
unfolding not_exists_position position_values_after
row_after_none r = ground arith

-- There is at most one latest position.
IsLatest-unique :
    (c : Row → Bool) (rows : List Row) (p q : Position)
    → IsLatest c rows p
    → IsLatest c rows q
    → p ≡ q
IsLatest-unique c rows p q l m = elim l.attained [
  | inl (e, none) ↦ elim m.attained [
    | inl (f, _) ↦ e ∙ sym f
    | inr (r, n, cr, f) ↦ ground (arith, none r n)
  ]
  | inr (r, n, cr, e) ↦ elim m.attained [
    | inl (f, none) ↦ ground (arith, none r n)
    | inr (s, o, cs, f) ↦
        let a : values_after p q ≡ false =
          subst (λ x. values_after x q ≡ false) e (m.not_before r n cr) in
        let b : values_after q p ≡ false =
          subst (λ x. values_after x p ≡ false) f (l.not_before s o cs) in
        ground (arith, values_after_total p q)
  ]
]

module _ (runs : List Row → List Conjunction → Bool) (rows : List Row) (check : ConsistencyCheck)
    (queries : List Conjunction) (plain : ArePlain check.criteria)
    (e : latest_criteria_queries check.criteria ≡ ok queries) where
  computed-IsLatest :
      IsLatest (check_clause check) rows (latest_prepared_criteria_position rows queries)
  unfolding latest_criteria_position
  computed-IsLatest =
      latest_criteria_position_correct rows check.criteria _ plain
        (rw (e, latest_criteria_position) refl)

  same-CheckHolds :
      runs rows queries ≡ true
      → same (latest_prepared_criteria_position rows queries) check.position ≡ true
      → CheckHolds runs rows check
  same-CheckHolds a h = record {
    renderable = rw e refl;
    answered = λ other f.
        let same_queries : queries ≡ other = ground (arith, e, f) in
        subst (λ q. runs rows q ≡ true) same_queries a;
    latest =
        subst (λ p. IsLatest (check_clause check) rows p) ((same_iff _ check.position).0 h)
          computed-IsLatest;
  }

  CheckHolds-same :
      CheckHolds runs rows check
      → same (latest_prepared_criteria_position rows queries) check.position ≡ true
  CheckHolds-same h =
      (same_iff _ check.position).1
        (IsLatest-unique (check_clause check) rows _ check.position computed-IsLatest h.latest)

-- The checks of a request, of which no key has a double quote or a backslash, pass exactly when every
-- one of them can be rendered, SQLite runs its queries, and its position is the latest one of the rows
-- that satisfy its content query.
pub run_checks_iff :
    (runs : List Row → List Conjunction → Bool) (rows : List Row) (checks : List ConsistencyCheck)
    → All ArePlainCheck checks
    → (is_ok (run_checks runs rows (prepare_consistency_checks checks)) ≡ true)
      ↔ All (CheckHolds runs rows) checks
unfolding run_checks prepare_consistency_checks
run_checks_iff runs rows [] plain = (λ h. tt, λ v. refl)
run_checks_iff runs rows (check ∷ checks) plain =
    let rest = run_checks_iff runs rows checks plain.1 in
    elim (Result-cases (latest_criteria_queries check.criteria)) [
      | inl (queries, e) ↦ elim (Bool-cases (runs rows queries)) [
        | inr a ↦ rw (e, a) (λ h. ground (arith, h), λ v. ground (arith, a, v.0.answered queries e))
        | inl a ↦
            elim (Bool-cases
              (same (latest_prepared_criteria_position rows queries) check.position)) [
                | inl s ↦
                    rw (e, a, s)
                      (
                        λ h. (same-CheckHolds runs rows check queries plain.0 e a s, rest.0 h),
                        λ v. rest.1 v.1,
                      )
                | inr s ↦
                    rw (e, a, s)
                      (
                        λ h. ground arith,
                        λ v. ground (arith, CheckHolds-same runs rows check queries plain.0 e v.0),
                      )
              ]
      ]
      | inr (x, e) ↦ rw e (λ h. ground arith, λ v. ground (arith, v.0.renderable))
    ]
