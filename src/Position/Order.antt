-- ===== src/Position/Order.antt =====
-- The four comparisons of positions are one strict total order.
use orisun.Base.{◌≡◌, refl, ◌⊎◌, true, false, arith, ℤ, pos, negsuc, ltb_ℤ, eq_ℤ, eq_ℤ_iff}
use orisun.Position.{
  Position, compare_positions, position_compare, is_newer, after, position_values_after,
  values_after, same,
}

-- The Boolean tests on integers as one three-way comparison.
ltb_ℤ-asymm : (a b : ℤ) → ltb_ℤ a b ≡ true → ltb_ℤ b a ≡ false
ltb_ℤ-asymm (pos a) (pos b) h = ground arith
ltb_ℤ-asymm (pos a) (negsuc b) h = ground arith
ltb_ℤ-asymm (negsuc a) (pos b) h = ground arith
ltb_ℤ-asymm (negsuc a) (negsuc b) h = ground arith

ltb_ℤ-trans : (a b c : ℤ) → ltb_ℤ a b ≡ true → ltb_ℤ b c ≡ true → ltb_ℤ a c ≡ true
ltb_ℤ-trans (pos a) (pos b) (pos c) h k = ground arith
ltb_ℤ-trans (pos a) (pos b) (negsuc c) h k = ground arith
ltb_ℤ-trans (pos a) (negsuc b) c h k = ground arith
ltb_ℤ-trans (negsuc a) (pos b) (pos c) h k = refl
ltb_ℤ-trans (negsuc a) (pos b) (negsuc c) h k = ground arith
ltb_ℤ-trans (negsuc a) (negsuc b) (pos c) h k = refl
ltb_ℤ-trans (negsuc a) (negsuc b) (negsuc c) h k = ground arith

-- Of two integers one is smaller or they are equal, and the three tests say which.
pub tests_ℤ :
    (a b : ℤ)
    → ((ltb_ℤ a b ≡ true) × (eq_ℤ a b ≡ false) × (ltb_ℤ b a ≡ false))
      ⊎ ((a ≡ b) × (ltb_ℤ a b ≡ false) × (eq_ℤ a b ≡ true) × (ltb_ℤ b a ≡ false))
      ⊎ ((ltb_ℤ a b ≡ false) × (eq_ℤ a b ≡ false) × (ltb_ℤ b a ≡ true))
tests_ℤ (pos a) (pos b) = ground arith
tests_ℤ (pos a) (negsuc b) = ground arith
tests_ℤ (negsuc a) (pos b) = ground arith
tests_ℤ (negsuc a) (negsuc b) = ground arith

pub ltb_ℤ_irrefl : (a : ℤ) → ltb_ℤ a a ≡ false
ltb_ℤ_irrefl (pos a) = ground arith
ltb_ℤ_irrefl (negsuc a) = ground arith

-- `ComparePositions` and `Position.Compare` give the same answer for every two positions, and the
-- three tests for "later" (`isEventPositionNewerThanPosition`, `Position.After`,
-- `positionValuesAfter`) are the same test.
pub comparisons_agree :
    (p q : Position)
    → (compare_positions p q ≡ position_compare p q)
      × (is_newer p q ≡ values_after p q)
      × (after p q ≡ values_after p q)
unfolding compare_positions position_compare is_newer after position_values_after
comparisons_agree p q = ground (
  arith,
  tests_ℤ p.commit_position q.commit_position,
  tests_ℤ p.prepare_position q.prepare_position,
)

pub values_after_irrefl : (p : Position) → values_after p p ≡ false
unfolding position_values_after
values_after_irrefl p =
    ground (arith, ltb_ℤ_irrefl p.commit_position, ltb_ℤ_irrefl p.prepare_position)

pub values_after_trans :
    (p q r : Position) → values_after p q ≡ true → values_after q r ≡ true → values_after p r ≡ true
unfolding position_values_after
values_after_trans p q r h k = ground (
  arith,
  eq_ℤ_iff p.commit_position q.commit_position,
  eq_ℤ_iff q.commit_position r.commit_position,
  eq_ℤ_iff p.commit_position r.commit_position,
  ltb_ℤ-trans r.commit_position q.commit_position p.commit_position,
  ltb_ℤ-trans r.prepare_position q.prepare_position p.prepare_position,
)

pub values_after_total :
    (p q : Position) → (values_after p q ≡ true) ⊎ (p ≡ q) ⊎ (values_after q p ≡ true)
unfolding position_values_after
values_after_total p q = ground (
  arith,
  tests_ℤ p.commit_position q.commit_position,
  tests_ℤ p.prepare_position q.prepare_position,
)

pub same_refl : (p : Position) → same p p ≡ true
same_refl p = ground (
  arith,
  (eq_ℤ_iff p.commit_position p.commit_position).1 refl,
  (eq_ℤ_iff p.prepare_position p.prepare_position).1 refl,
)
