-- ===== src/Observations/Checked.antt =====
-- The checks that ConsistencyChecksFromObservations returns.
use orisun.Base.{
  ℕ, ◌+◌, ◌≤◌, ◌≡◌, Bool, true, not, ◌||◌, Option, none, some, List, [], ◌∷◌, ◌++◌, length,
  length-append, All, All-append, arith, Option-cases, inl, inr,
}
use orisun.Status.{ok, Result-cases}
use orisun.Position.{Position, same, not_exists_position}
use orisun.WriteContext.{is_negative}
use orisun.Query.{Query, ReadCriterion}
use orisun.Sqlite.Save.{ConsistencyCheck}
use orisun.Observations.{
  ConsistencyObservation, Observed, nothing_observed, max_consistency_observations,
  validate_consistency_position, normalize_consistency_query, count_query, add_check, invalid,
  lookup_key, observe_query, observe_all, consistency_checks_from_observations,
}

-- (-1, -1), or no part is negative.
abbrev pub is_valid_position : Position → Bool
is_valid_position p =
    same p not_exists_position
    || not (is_negative p.commit_position || is_negative p.prepare_position)

abbrev pub IsValidCheck : ConsistencyCheck → Type 0
IsValidCheck check = is_valid_position check.position ≡ true

-- The checks made of `n` observations.
pub record AreChecked (n : ℕ) (checks : List ConsistencyCheck) : Type 0 where
  pub valid : All IsValidCheck checks
  pub bounded : length checks ≤ n

validate_position_lem :
    (p : Position) → invalid (validate_consistency_position p) ≡ ok tt → is_valid_position p ≡ true
unfolding validate_consistency_position
validate_position_lem p h = ground arith

add_check-AreChecked :
    (n : ℕ) (criteria : List ReadCriterion) (key : List ℕ) (position : Position) (p q : Observed)
    → AreChecked n p.checks
    → is_valid_position position ≡ true
    → add_check criteria key position p ≡ ok q
    → AreChecked (n + 1) q.checks
unfolding add_check
add_check-AreChecked n criteria key position p q c v h =
    elim (Option-cases (lookup_key key p.seen)) [
      | inl e ↦
          let shape : p.checks ++ record { criteria = criteria; position = position } ∷ []
              ≡ q.checks =
            ground arith in
          rw (← shape) (record {
            valid = All-append IsValidCheck p.checks _ c.valid (v, tt);
            bounded = omega (
              arith,
              c.bounded,
              length-append p.checks (record { criteria = criteria; position = position } ∷ []),
            );
          })
      | inr (previous, e) ↦
          let shape : p.checks ≡ q.checks = ground arith in
          rw (← shape) (record { valid = c.valid; bounded = omega (arith, c.bounded) })
    ]

observe_query-AreChecked :
    (n : ℕ) (query : Option Query) (position : Position) (p q : Observed)
    → AreChecked n p.checks
    → observe_query query position p ≡ ok q
    → AreChecked (n + 1) q.checks
unfolding observe_query
observe_query-AreChecked n query position p q c h =
    elim (Result-cases (invalid (validate_consistency_position position))) [
      | inr (x, e) ↦ ground arith
      | inl (a, e) ↦ elim (Result-cases (count_query query p.total_criteria p.total_tags)) [
        | inr (x, f) ↦ ground arith
        | inl (totals, f) ↦ elim (Result-cases (invalid (normalize_consistency_query query))) [
          | inr (x, g) ↦ ground arith
          | inl (normalized, g) ↦
              add_check-AreChecked n normalized.0 normalized.1 position
                (record p { total_criteria = totals.0; total_tags = totals.1 }) q
                (record { valid = c.valid; bounded = c.bounded }) (validate_position_lem position e)
                (ground arith)
        ]
      ]
    ]

observe_all-AreChecked :
    (n : ℕ) (observations : List (Option ConsistencyObservation)) (p q : Observed)
    → AreChecked n p.checks
    → observe_all observations p ≡ ok q
    → AreChecked (n + length observations) q.checks
unfolding observe_all
observe_all-AreChecked n [] p q c h =
    let shape : p.checks ≡ q.checks = ground arith in
    rw (← shape) (record { valid = c.valid; bounded = omega (arith, c.bounded) })
observe_all-AreChecked n (none ∷ observations) p q c h = ground arith
observe_all-AreChecked n (some observation ∷ observations) p q c h =
    elim (Option-cases observation.position) [
      | inl e ↦ ground arith
      | inr (position, e) ↦ elim (Result-cases (observe_query observation.query position p)) [
        | inr (x, f) ↦ ground arith
        | inl (next, f) ↦
            let rest =
              observe_all-AreChecked (n + 1) observations next q
                (observe_query-AreChecked n observation.query position p next c f) (ground arith) in
            record { valid = rest.valid; bounded = omega (arith, rest.bounded) }
      ]
    ]

-- The checks that are made of the observations of a save have positions that are (-1, -1) or have no
-- negative part; there are at most as many as observations, and at most 1024 observations.
pub consistency_checks_from_observations-AreChecked :
    (observations : List (Option ConsistencyObservation)) (checks : List ConsistencyCheck)
    → consistency_checks_from_observations observations ≡ ok checks
    → AreChecked (length observations) checks × (length observations ≤ max_consistency_observations)
unfolding consistency_checks_from_observations
consistency_checks_from_observations-AreChecked observations checks h =
    elim (Result-cases (observe_all observations nothing_observed)) [
      | inr (x, e) ↦ ground arith
      | inl (q, e) ↦
          let shape : q.checks ≡ checks = ground arith in
          let all_checked =
            observe_all-AreChecked 0 observations nothing_observed q
              (record { valid = tt; bounded = omega arith }) e in
          (
            rw (← shape) (record {
              valid = all_checked.valid;
              bounded = omega (arith, all_checked.bounded);
            }),
            ground arith,
          )
    ]
