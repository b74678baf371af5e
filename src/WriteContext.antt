-- ===== src/WriteContext.antt =====
-- orisun/write_context.go: the identifier of a save, and its validation. Texts that hold numbers
-- are lists of code points.
pub mod Identifier
use orisun.Base.{
  ℕ, ◌+◌, Bool, true, false, not, ◌||◌, Option, none, some, List, [], ◌∷◌, ◌++◌, String, str_eq,
  codes_eq, ◌==◌, if◌then◌else◌, ℤ, pos, negsuc,
}
use orisun.Status.{Result, ok, err, coded, invalid_argument}
use orisun.Position.{Position}
use orisun.Decimal.{format_int, parse_int}

-- `strconv.FormatInt`
unfoldable pub format_int64 : ℤ → List ℕ
format_int64 (pos n) = format_int n
format_int64 (negsuc n) = b'-' ∷ format_int (n + 1)

-- `WriteID`
unfoldable pub write_id : ℤ → ℤ → List ℕ
unfolding format_int64
write_id commit prepare = format_int64 commit ++ b':' ∷ format_int64 prepare

pub record GetWriteContextRequest : Type 0 where
  pub boundary : String
  pub write_id : List ℕ

-- `strings.Split(s, ":")`; the first argument holds the part that is being read.
unfoldable pub split_from : List ℕ → List ℕ → List (List ℕ)
split_from part [] = part ∷ []
split_from part (c ∷ cs) =
    let closed = part ∷ split_from [] cs in
    let open_part = split_from (part ++ c ∷ []) cs in if c == b':' then closed else open_part

abbrev pub is_negative : ℤ → Bool
is_negative (pos n) = false
is_negative (negsuc n) = true

unfoldable pub validate_parts : List ℕ → List (List ℕ) → Result Position
unfolding write_id
validate_parts id (a ∷ b ∷ []) = elim (parse_int a) [
  | none ↦ err (coded invalid_argument)
  | some commit ↦ elim (parse_int b) [
    | none ↦ err (coded invalid_argument)
    | some prepare ↦
        if is_negative commit || is_negative prepare || not (codes_eq (write_id commit prepare) id)
        then err (coded invalid_argument)
        else ok (record { commit_position = commit; prepare_position = prepare })
  ]
]
validate_parts id _ = err (coded invalid_argument)

-- `ValidateWriteContextRequest`
unfoldable pub validate_write_context_request : Option GetWriteContextRequest → Result Position
unfolding split_from validate_parts
validate_write_context_request none = err (coded invalid_argument)
validate_write_context_request (some req) =
    if str_eq req.boundary ""
    then err (coded invalid_argument)
    else validate_parts req.write_id (split_from [] req.write_id)
