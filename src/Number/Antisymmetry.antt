-- ===== src/Number/Antisymmetry.antt =====
-- Exchanging the operands of a comparison reverses its result.
use mathlib.Core.Option
use orisun.Base.{
  ℕ, ◌≡◌, refl, ap, Option, none, some, List, [], ◌∷◌, compare, arith, ℤ, pos, negsuc,
}
use orisun.Number.{
  Decimal, opposite, compare_digits, compare_ℤ, compare_magnitudes, compare_decimals, decimal_parts,
  compare_parts, compare_json_numbers,
}

compare_swap : (a b : ℕ) → compare b a ≡ opposite (compare a b)
unfolding opposite
compare_swap a b = ground arith

compare_digits_swap : (xs ys : List ℕ) → compare_digits ys xs ≡ opposite (compare_digits xs ys)
unfolding compare_digits opposite
compare_digits_swap [] [] = refl
compare_digits_swap [] (y ∷ ys) = ground (arith, compare_digits_swap [] ys)
compare_digits_swap (x ∷ xs) [] = ground (arith, compare_digits_swap xs [])
compare_digits_swap (x ∷ xs) (y ∷ ys) = ground (arith, compare_digits_swap xs ys)

compare_ℤ_swap : (a b : ℤ) → compare_ℤ b a ≡ opposite (compare_ℤ a b)
unfolding compare_ℤ opposite
compare_ℤ_swap (pos a) (pos b) = ground arith
compare_ℤ_swap (pos a) (negsuc b) = refl
compare_ℤ_swap (negsuc a) (pos b) = refl
compare_ℤ_swap (negsuc a) (negsuc b) = ground arith

compare_magnitudes_swap :
    (a b : Decimal) (xs ys : List ℕ)
    → compare_magnitudes b a ys xs ≡ opposite (compare_magnitudes a b xs ys)
unfolding compare_magnitudes opposite
compare_magnitudes_swap a b [] [] = refl
compare_magnitudes_swap a b [] (y ∷ ys) = refl
compare_magnitudes_swap a b (x ∷ xs) [] = refl
compare_magnitudes_swap a b (x ∷ xs) (y ∷ ys) =
    ground (arith, compare_ℤ_swap a.magnitude b.magnitude, compare_digits_swap (x ∷ xs) (y ∷ ys))

compare_decimals_swap : (a b : Decimal) → compare_decimals b a ≡ opposite (compare_decimals a b)
unfolding compare_decimals opposite
compare_decimals_swap a b = ground (arith, compare_magnitudes_swap a b a.digits b.digits)

-- The results of the comparison, by cases on the two parsed operands.
swap_parts : (x y : Option Decimal) → compare_parts y x ≡ Option.map opposite (compare_parts x y)
unfolding compare_parts
swap_parts none none = refl
swap_parts none (some y) = refl
swap_parts (some x) none = refl
swap_parts (some x) (some y) = ap some (compare_decimals_swap x y)

-- For every two texts, the comparison with the operands exchanged is the reverse of the
-- comparison, and the one is refused exactly when the other is.
pub compare_json_numbers_swap :
    (a b : List ℕ) → compare_json_numbers b a ≡ Option.map opposite (compare_json_numbers a b)
unfolding compare_json_numbers
compare_json_numbers_swap a b = swap_parts (decimal_parts a) (decimal_parts b)
