-- ===== src/Number.antt =====
-- internal/eventdata/number.go: exact comparison of decimal JSON numbers, on code points.
pub mod Antisymmetry
use orisun.Base.{
  ℕ, suc, ◌+◌, ◌-◌, ◌*◌, Bool, true, false, not, ◌&&◌, ◌||◌, Option, none, some, List, [], ◌∷◌,
  ◌++◌, compare, Ordering, is_digit, leb, ltb, ◌==◌, if◌then◌else◌, ℤ, pos, negsuc, length,
}

-- The regular expression `-?(0|[1-9][0-9]*)(\.[0-9]+)?([eE][+-]?[0-9]+)?`, part by part from the
-- end: each function says whether the rest of the text matches.

only_digits : List ℕ → Bool
unfolding is_digit
only_digits [] = true
only_digits (c ∷ cs) = is_digit c && only_digits cs

some_digits : List ℕ → Bool
unfolding only_digits
some_digits [] = false
some_digits (c ∷ cs) = only_digits (c ∷ cs)

exponent_sign : List ℕ → Bool
unfolding some_digits
exponent_sign [] = false
exponent_sign (c ∷ cs) = if c == b'+' || c == b'-' then some_digits cs else some_digits (c ∷ cs)

is_exponent : ℕ → Bool
is_exponent c = c == b'e' || c == b'E'

-- After a digit of the fraction.
fraction_rest : List ℕ → Bool
unfolding exponent_sign is_exponent is_digit
fraction_rest [] = true
fraction_rest (c ∷ cs) = (is_digit c && fraction_rest cs) || (is_exponent c && exponent_sign cs)

fraction : List ℕ → Bool
unfolding fraction_rest
fraction [] = false
fraction (c ∷ cs) = is_digit c && fraction_rest cs

-- After the whole integer part.
integer_end : List ℕ → Bool
unfolding fraction
integer_end [] = true
integer_end (c ∷ cs) = (c == b'.' && fraction cs) || (is_exponent c && exponent_sign cs)

-- After a digit of an integer part that may go on.
integer_rest : List ℕ → Bool
unfolding integer_end
integer_rest [] = true
integer_rest (c ∷ cs) = (is_digit c && integer_rest cs) || integer_end (c ∷ cs)

integer_part : List ℕ → Bool
unfolding integer_rest
integer_part [] = false
integer_part (c ∷ cs) = if c == b'0' then integer_end cs else is_digit c && integer_rest cs

-- `jsonNumberPattern.MatchString`
unfoldable pub json_number_pattern : List ℕ → Bool
unfolding integer_part
json_number_pattern [] = false
json_number_pattern (c ∷ cs) = if c == b'-' then integer_part cs else integer_part (c ∷ cs)

-- The text before the first character that passes the test, and the text after it.
split_at : (ℕ → Bool) → List ℕ → List ℕ × Option (List ℕ)
split_at p [] = ([], none)
split_at p (c ∷ cs) =
    let (before, after) = split_at p cs in if p c then ([], some cs) else (c ∷ before, after)

-- `strings.TrimLeft(s, "0")`
trim_zeros : List ℕ → List ℕ
trim_zeros [] = []
trim_zeros (c ∷ cs) = let rest = trim_zeros cs in if c == b'0' then rest else c ∷ cs

digits_value : ℕ → List ℕ → ℕ
digits_value acc [] = acc
digits_value acc (c ∷ cs) = digits_value (acc * 10 + (c - b'0')) cs

-- a - b, as an integer.
sub_ℕ : ℕ → ℕ → ℤ
sub_ℕ a b = if leb b a then pos (a - b) else negsuc (b - a - 1)

-- `magnitude.SetString(s, 10)` of a signed run of digits, and then `magnitude.Add` of a - b.
exponent_plus : List ℕ → ℕ → ℕ → ℤ
unfolding digits_value sub_ℕ
exponent_plus [] a b = sub_ℕ a b
exponent_plus (c ∷ cs) a b =
    if c == b'-'
    then sub_ℕ a (b + digits_value 0 cs)
    else if c == b'+'
    then sub_ℕ (a + digits_value 0 cs) b
    else sub_ℕ (a + digits_value 0 (c ∷ cs)) b

-- `magnitude` is the exponent of 0.d₁d₂… for the digits d₁d₂….
pub record Decimal : Type 0 where
  pub digits : List ℕ
  pub magnitude : ℤ
  pub negative : Bool

optional : Option (List ℕ) → List ℕ
optional none = []
optional (some cs) = cs

is_point : ℕ → Bool
is_point c = c == b'.'

with_digits : List ℕ → List ℕ → ℕ → Bool → Decimal
unfolding exponent_plus
with_digits [] exponent fractional negative = record {
  digits = [];
  magnitude = exponent_plus exponent 0 0;
  negative = false;
}
with_digits (d ∷ ds) exponent fractional negative = record {
  digits = d ∷ ds;
  magnitude = exponent_plus exponent (length (d ∷ ds)) fractional;
  negative = negative;
}

-- The part of `decimalParts` after the sign.
unsigned_parts : Bool → List ℕ → Decimal
unfolding split_at trim_zeros with_digits optional is_point is_exponent
unsigned_parts negative s =
    let (mantissa, exponent) = split_at is_exponent s in
    let (whole, fractional) = split_at is_point mantissa in
    with_digits (trim_zeros (whole ++ optional fractional)) (optional exponent)
      (length (optional fractional)) negative

-- `decimalParts`
unfoldable pub decimal_parts : List ℕ → Option Decimal
unfolding json_number_pattern unsigned_parts
decimal_parts [] = none
decimal_parts (c ∷ cs) =
    if json_number_pattern (c ∷ cs)
    then (if c == b'-' then some (unsigned_parts true cs) else some (unsigned_parts false (c ∷ cs)))
    else none

unfoldable pub opposite : Ordering → Ordering
opposite Ordering.lt = Ordering.gt
opposite Ordering.eq = Ordering.eq
opposite Ordering.gt = Ordering.lt

-- The loop over the digits, the shorter run padded with zeros.
unfoldable pub compare_digits : List ℕ → List ℕ → Ordering
compare_digits [] [] = Ordering.eq
compare_digits [] (b ∷ bs) =
    let rest = compare_digits [] bs in elim (compare b'0' b) [ Ordering.eq ↦ rest | o ↦ o ]
compare_digits (a ∷ as') [] =
    let rest = compare_digits as' [] in elim (compare a b'0') [ Ordering.eq ↦ rest | o ↦ o ]
compare_digits (a ∷ as') (b ∷ bs) =
    let rest = compare_digits as' bs in elim (compare a b) [ Ordering.eq ↦ rest | o ↦ o ]

-- `ae.Cmp(be)`
unfoldable pub compare_ℤ : ℤ → ℤ → Ordering
compare_ℤ (pos a) (pos b) = compare a b
compare_ℤ (pos a) (negsuc b) = Ordering.gt
compare_ℤ (negsuc a) (pos b) = Ordering.lt
compare_ℤ (negsuc a) (negsuc b) = compare b a

-- The `switch` over the digits of the two numbers.
unfoldable pub compare_magnitudes : Decimal → Decimal → List ℕ → List ℕ → Ordering
unfolding compare_digits compare_ℤ
compare_magnitudes a b [] [] = Ordering.eq
compare_magnitudes a b [] (y ∷ ys) = Ordering.lt
compare_magnitudes a b (x ∷ xs) [] = Ordering.gt
compare_magnitudes a b (x ∷ xs) (y ∷ ys) = elim (compare_ℤ a.magnitude b.magnitude) [
  | Ordering.eq ↦ compare_digits (x ∷ xs) (y ∷ ys)
  | o ↦ o
]

-- From `if an != bn` to the end.
unfoldable pub compare_decimals : Decimal → Decimal → Ordering
unfolding opposite compare_magnitudes
compare_decimals a b =
    if a.negative
    then (if b.negative then opposite (compare_magnitudes a b a.digits b.digits) else Ordering.lt)
    else (if b.negative then Ordering.gt else compare_magnitudes a b a.digits b.digits)

unfoldable pub compare_parts : Option Decimal → Option Decimal → Option Ordering
unfolding compare_decimals
compare_parts none b = none
compare_parts (some x) none = none
compare_parts (some x) (some y) = some (compare_decimals x y)

-- `CompareJSONNumbers`; `none` is the result (0, false).
unfoldable pub compare_json_numbers : List ℕ → List ℕ → Option Ordering
unfolding decimal_parts compare_parts
compare_json_numbers a b = compare_parts (decimal_parts a) (decimal_parts b)
