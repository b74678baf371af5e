-- ===== src/WriteContext/Identifier.antt =====
-- The identifier of a save and its position determine one another.
use orisun.Base.{
  ℕ, ◌≤◌, ◌≡◌, ◌≢◌, eq_iff, refl, ap, ◌∙◌, true, false, Option, some, List, [], ◌∷◌, ◌++◌, String,
  str_eq, codes_eq_iff, is_digit, all, arith, pos, max_int64, Bool-cases, Option-cases, inl, inr,
}
use mathlib.Core.List.{append_assoc, append-nil}
use orisun.Status.{ok}
use orisun.Position.{Position}
use orisun.Decimal.{format_int, parse_int, parse_int-format_int, format_int-digits}
use orisun.WriteContext.{
  GetWriteContextRequest, write_id, split_from, validate_parts, is_negative,
  validate_write_context_request,
}

split_digits :
    (part ds rest : List ℕ)
    → all is_digit ds ≡ true
    → split_from part (ds ++ b':' ∷ rest) ≡ (part ++ ds) ∷ split_from [] rest
unfolding split_from is_digit
split_digits part [] rest d = rw append-nil refl
split_digits part (c ∷ ds) rest d =
    ground (arith, split_digits (part ++ c ∷ []) ds rest, append_assoc part (c ∷ []) ds)

split_last : (part ds : List ℕ) → all is_digit ds ≡ true → split_from part ds ≡ (part ++ ds) ∷ []
unfolding split_from is_digit
split_last part [] d = rw append-nil refl
split_last part (c ∷ ds) d =
    ground (arith, split_last (part ++ c ∷ []) ds, append_assoc part (c ∷ []) ds)

validate_parts-write_id :
    (c p : ℕ)
    → c ≤ max_int64
    → p ≤ max_int64
    → validate_parts (write_id (pos c) (pos p)) (format_int c ∷ format_int p ∷ [])
      ≡ ok (record { commit_position = pos c; prepare_position = pos p })
unfolding validate_parts
validate_parts-write_id c p hc hp = ground (
  arith,
  parse_int-format_int c hc,
  parse_int-format_int p hp,
  codes_eq_iff (write_id (pos c) (pos p)) (write_id (pos c) (pos p)),
)

split-write_id :
    (c p : ℕ) → split_from [] (write_id (pos c) (pos p)) ≡ format_int c ∷ format_int p ∷ []
unfolding write_id
split-write_id c p =
    split_digits [] (format_int c) (format_int p) (format_int-digits c)
    ∙ ap (λ parts. format_int c ∷ parts) (split_last [] (format_int p) (format_int-digits p))

abbrev pub request : String → List ℕ → Option GetWriteContextRequest
request boundary id = some (record { boundary = boundary; write_id = id })

-- The identifier of every save at a position from 0 to the largest int64, asked for with a
-- boundary that is named, is accepted and read back as that position.
pub validate-write_id :
    (boundary : String) (c p : ℕ)
    → boundary ≢ ""
    → c ≤ max_int64
    → p ≤ max_int64
    → validate_write_context_request (request boundary (write_id (pos c) (pos p)))
      ≡ ok (record { commit_position = pos c; prepare_position = pos p })
unfolding validate_write_context_request
validate-write_id boundary c p named hc hp =
    rw (split-write_id c p) (ground (arith, eq_iff boundary "", validate_parts-write_id c p hc hp))

validate_parts_canonical :
    (id : List ℕ) (parts : List (List ℕ)) (q : Position)
    → validate_parts id parts ≡ ok q
    → (id ≡ write_id q.commit_position q.prepare_position)
      × (is_negative q.commit_position ≡ false)
      × (is_negative q.prepare_position ≡ false)
unfolding validate_parts
validate_parts_canonical id [] q h = ground arith
validate_parts_canonical id (a ∷ []) q h = ground arith
validate_parts_canonical id (a ∷ b ∷ []) q h = elim (Option-cases (parse_int a)) [
  | inl e ↦ ground arith
  | inr (c, e) ↦ elim (Option-cases (parse_int b)) [
    | inl e' ↦ ground arith
    | inr (p, e') ↦ ground (arith, codes_eq_iff (write_id c p) id)
  ]
]
validate_parts_canonical id (a ∷ b ∷ x ∷ xs) q h = ground arith

-- A request that is accepted names a boundary, and its identifier is the one identifier of the
-- position that is returned, which has no negative part: no second spelling is accepted.
pub validate_canonical :
    (req : GetWriteContextRequest) (q : Position)
    → validate_write_context_request (some req) ≡ ok q
    → (req.boundary ≢ "")
      × (req.write_id ≡ write_id q.commit_position q.prepare_position)
      × (is_negative q.commit_position ≡ false)
      × (is_negative q.prepare_position ≡ false)
unfolding validate_write_context_request
validate_canonical req q h = elim (Bool-cases (str_eq req.boundary "")) [
  | inl e ↦ absurd (cc (rw e at h))
  | inr e ↦
      let (i, c, p) =
        validate_parts_canonical req.write_id (split_from [] req.write_id) q (rw e at h) in
      (λ named. cc (e, (eq_iff req.boundary "").1 named), i, c, p)
]
