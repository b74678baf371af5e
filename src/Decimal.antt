-- ===== src/Decimal.antt =====
-- `strconv.FormatInt` and `strconv.ParseInt` in base 10, on texts as code points.
use mathlib.Core.Option
use orisun.Base.{
  ℕ, zero, suc, ◌+◌, ◌-◌, ◌*◌, ◌/◌, ◌%◌, ◌<◌, ◌≤◌, ◌≡◌, refl, ◌∙◌, ap, true, false, Option, none,
  some, List, [], ◌∷◌, is_digit, ltb, leb, ◌==◌, ◌&&◌, all, arith, if◌then◌else◌, ℤ, pos, negsuc,
  max_int64, Bool-cases, inl, inr, ltb→lt,
}

-- The digits of `n` before `rest`; the fuel `n + 1` is enough.
unfoldable pub format_from : ℕ → ℕ → List ℕ → List ℕ
format_from zero n rest = rest
format_from (suc fuel) n rest = elim (ltb n 10) [
  | true ↦ (b'0' + n) ∷ rest
  | false ↦ format_from fuel (n / 10) ((b'0' + n % 10) ∷ rest)
]

-- `strconv.FormatInt(n, 10)` for n ≥ 0
unfoldable pub format_int : ℕ → List ℕ
unfolding format_from
format_int n = format_from (suc n) n []

-- The value of a run of digits read after `acc`; `none` on any other character.
unfoldable pub parse_from : ℕ → List ℕ → Option ℕ
unfolding is_digit
parse_from acc [] = some acc
parse_from acc (c ∷ cs) =
    let rest = parse_from (acc * 10 + (c - b'0')) cs in if is_digit c then rest else none

-- -n
abbrev negated : ℕ → ℤ
negated zero = pos zero
negated (suc n) = negsuc n

-- The digits of an unsigned number: not empty, and in range.
unfoldable pub parse_digits : ℕ → List ℕ → Option ℕ
unfolding parse_from
parse_digits limit [] = none
parse_digits limit (c ∷ cs) = elim (parse_from 0 (c ∷ cs)) [
  | none ↦ none
  | some n ↦ if leb n limit then some n else none
]

-- `strconv.ParseInt(s, 10, 64)`
unfoldable pub parse_int : List ℕ → Option ℤ
unfolding parse_digits
parse_int [] = none
parse_int (c ∷ cs) =
    if c == b'-'
    then Option.map negated (parse_digits (max_int64 + 1) cs)
    else if c == b'+'
    then Option.map pos (parse_digits max_int64 cs)
    else Option.map pos (parse_digits max_int64 (c ∷ cs))

parse_digit :
    (acc d : ℕ) (rest : List ℕ)
    → d < 10
    → parse_from acc ((b'0' + d) ∷ rest) ≡ parse_from (acc * 10 + d) rest
unfolding parse_from
parse_digit acc d rest h =
    let e : acc * 10 + (b'0' + d - b'0') ≡ acc * 10 + d = omega arith in rw e (ground arith)

-- Reading digits back gives the number that was printed, in front of whatever follows.
parse-format_from :
    (fuel n : ℕ) (rest : List ℕ)
    → n < fuel
    → parse_from 0 (format_from fuel n rest) ≡ parse_from n rest
unfolding format_from
parse-format_from zero n rest h = elim h [ ]
parse-format_from (suc fuel) n rest h = elim (Bool-cases (ltb n 10)) [
  | inl e ↦
      rw (e, format_from)
        (parse_digit 0 n rest (ltb→lt n 10 e) ∙ ap (λ m. parse_from m rest) (omega arith))
  | inr e ↦
      rw (e, format_from)
        (parse-format_from fuel (n / 10) ((b'0' + n % 10) ∷ rest) (ground arith)
          ∙ parse_digit (n / 10) (n % 10) rest (omega arith)
          ∙ ap (λ m. parse_from m rest) (omega arith))
]

-- A printed number starts with a digit.
StartsWithDigit : List ℕ → Type 0
StartsWithDigit [] = ⊥
StartsWithDigit (c ∷ cs) = (b'0' ≤ c) × (c ≤ b'9')

format_from-StartsWithDigit :
    (fuel n : ℕ) (rest : List ℕ) → n < fuel → StartsWithDigit (format_from fuel n rest)
unfolding format_from StartsWithDigit
format_from-StartsWithDigit zero n rest h = elim h [ ]
format_from-StartsWithDigit (suc fuel) n rest h = elim (Bool-cases (ltb n 10)) [
  | inl e ↦ rw (e, format_from) (omega arith, omega (arith, ltb→lt n 10 e))
  | inr e ↦ rw (e, format_from) (format_from-StartsWithDigit fuel (n / 10) _ (ground arith))
]

parse_int-digits :
    (n : ℕ) (cs : List ℕ)
    → StartsWithDigit cs
    → parse_from 0 cs ≡ some n
    → n ≤ max_int64
    → parse_int cs ≡ some (pos n)
unfolding parse_int StartsWithDigit
parse_int-digits n [] s e h = absurd s
parse_int-digits n (c ∷ cs) s e h = ground arith

-- `ParseInt` of `FormatInt` is the number, for every non-negative int64.
pub parse_int-format_int : (n : ℕ) → n ≤ max_int64 → parse_int (format_int n) ≡ some (pos n)
unfolding format_int parse_from
parse_int-format_int n h =
    parse_int-digits n (format_from (suc n) n [])
      (format_from-StartsWithDigit (suc n) n [] (omega arith))
      (parse-format_from (suc n) n [] (omega arith)) h

digit_range : (c : ℕ) → b'0' ≤ c → c ≤ b'9' → (is_digit c && true) ≡ true
unfolding is_digit
digit_range c h k = ground arith

digit_before :
    (n : ℕ) (rest : List ℕ)
    → all is_digit rest ≡ true
    → all is_digit ((b'0' + n % 10) ∷ rest) ≡ true
unfolding is_digit
digit_before n rest d = rw d (digit_range (b'0' + n % 10) (omega arith) (omega arith))

format_from-digits :
    (fuel n : ℕ) (rest : List ℕ)
    → n < fuel
    → all is_digit rest ≡ true
    → all is_digit (format_from fuel n rest) ≡ true
unfolding format_from is_digit
format_from-digits zero n rest h d = elim h [ ]
format_from-digits (suc fuel) n rest h d = elim (Bool-cases (ltb n 10)) [
  | inl e ↦ rw (e, format_from) (ground arith)
  | inr e ↦
      rw (e, format_from)
        (format_from-digits fuel (n / 10) ((b'0' + n % 10) ∷ rest) (ground arith)
          (digit_before n rest d))
]

pub format_int-digits : (n : ℕ) → all is_digit (format_int n) ≡ true
unfolding format_int
format_int-digits n = format_from-digits (suc n) n [] (omega arith) refl
