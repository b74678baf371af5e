-- ===== src/Position.antt =====
-- Positions in a boundary's total order: orisun/eventstore_messages.go, eventstore/types.go,
-- and the comparisons of orisun/eventstore.go.
pub mod Order
use orisun.Base.{
  ℕ, ◌≡◌, refl, ◌↔◌, ◌⊎◌, inl, inr, Bool, true, false, ◌&&◌, ◌||◌, arith, ℤ, pos, negsuc, ltb_ℤ,
  eq_ℤ, if◌then◌else◌,
}

pub record Position : Type 0 where
  pub commit_position : ℤ
  pub prepare_position : ℤ

abbrev pub minus_one : ℤ
minus_one = negsuc 0

unfoldable pub not_exists_position : Position
not_exists_position = record { commit_position = minus_one; prepare_position = minus_one }

-- `p == q` on the Go structs.
abbrev pub same : Position → Position → Bool
same p q = eq_ℤ p.commit_position q.commit_position && eq_ℤ p.prepare_position q.prepare_position

-- The results -1, 0 and 1.
pub data ComparationResult : Type 0 where
  is_less_than is_equal is_greater_than : ComparationResult

-- `ComparePositions` of orisun/eventstore.go
unfoldable pub compare_positions : Position → Position → ComparationResult
compare_positions p q =
    if eq_ℤ p.commit_position q.commit_position && eq_ℤ p.prepare_position q.prepare_position
    then is_equal
    else if ltb_ℤ p.commit_position q.commit_position
        || (eq_ℤ p.commit_position q.commit_position && ltb_ℤ p.prepare_position q.prepare_position)
    then is_less_than
    else is_greater_than

-- `isEventPositionNewerThanPosition`
unfoldable pub is_newer : Position → Position → Bool
unfolding compare_positions
is_newer new_position last_position = elim (compare_positions new_position last_position) [
  | is_greater_than ↦ true
  | _ ↦ false
]

-- `Position.Compare` of eventstore/types.go
unfoldable pub position_compare : Position → Position → ComparationResult
position_compare p other =
    if ltb_ℤ p.commit_position other.commit_position
      || (eq_ℤ p.commit_position other.commit_position
          && ltb_ℤ p.prepare_position other.prepare_position)
    then is_less_than
    else if same p other
    then is_equal
    else is_greater_than

-- `Position.After`
unfoldable pub after : Position → Position → Bool
unfolding position_compare
after p other = elim (position_compare p other) [ is_greater_than ↦ true | _ ↦ false ]

-- `positionValuesAfter`
unfoldable pub position_values_after : ℤ → ℤ → ℤ → ℤ → Bool
position_values_after commit prepare previous_commit previous_prepare =
    ltb_ℤ previous_commit commit || (eq_ℤ commit previous_commit && ltb_ℤ previous_prepare prepare)

abbrev pub values_after : Position → Position → Bool
values_after p q =
    position_values_after p.commit_position p.prepare_position q.commit_position q.prepare_position
