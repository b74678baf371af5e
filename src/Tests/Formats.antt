-- ===== src/Tests/Formats.antt =====
-- The theorems on formats, at concrete inputs.
use mathlib.Core.Option
use orisun.Base.{
  ◌≡◌, ◌≢◌, eq_iff, refl, false, some, List, [], ◌∷◌, String, map, codes, arith, pos, All,
}
use orisun.Status.{ok}
use orisun.Position.{Position, compare_positions, position_compare, is_newer, after, values_after}
use orisun.Position.Order.{comparisons_agree}
use orisun.Decimal.{format_int, parse_int, parse_int-format_int}
use orisun.WriteContext.{
  is_negative, GetWriteContextRequest, write_id, validate_write_context_request,
}
use orisun.WriteContext.Identifier.{request, validate-write_id, validate_canonical}
use orisun.Number.{compare_json_numbers, opposite}
use orisun.Number.Antisymmetry.{compare_json_numbers_swap}
use orisun.Query.{Tag, encode_criterion, decode_criterion, validate_tag}
use orisun.Query.{FieldValue}
use orisun.Query.Codec.{with_key, stored_tag, IsValidTag}
use orisun.Query.Durable.{reread_fields, decode-encode}
use orisun.Document.{JsonValue, Document, with_fields, without_storage_envelope, is_reserved_key}
use orisun.Document.Envelope.{IsApplicationData, IsEnvelope, envelope_roundtrip}

parse_int-format_int_example : parse_int (format_int 1234) ≡ some (pos 1234)
parse_int-format_int_example = parse_int-format_int 1234 (omega arith)

orders_named : ◌≢◌ {A = String} "orders" ""
orders_named e = ground (arith, (eq_iff "orders" "").1 e)

abbrev position_7_9 : Position
position_7_9 = record { commit_position = pos 7; prepare_position = pos 9 }

abbrev position_9_7 : Position
position_9_7 = record { commit_position = pos 9; prepare_position = pos 7 }

validate-write_id_example :
    validate_write_context_request (request "orders" (write_id (pos 7) (pos 9))) ≡ ok position_7_9
validate-write_id_example = validate-write_id "orders" 7 9 orders_named (omega arith) (omega arith)

abbrev asked : GetWriteContextRequest
asked = record { boundary = "orders"; write_id = write_id (pos 7) (pos 9) }

validate_canonical_example :
    (asked.boundary ≢ "")
    × (asked.write_id ≡ write_id (pos 7) (pos 9))
    × (is_negative (pos 7) ≡ false)
    × (is_negative (pos 9) ≡ false)
validate_canonical_example =
    validate_canonical asked position_7_9
      (validate-write_id "orders" 7 9 orders_named (omega arith) (omega arith))

comparisons_agree_example :
    (compare_positions position_7_9 position_9_7 ≡ position_compare position_7_9 position_9_7)
    × (is_newer position_7_9 position_9_7 ≡ values_after position_7_9 position_9_7)
    × (after position_7_9 position_9_7 ≡ values_after position_7_9 position_9_7)
comparisons_agree_example = comparisons_agree position_7_9 position_9_7

compare_json_numbers_swap_example :
    compare_json_numbers (codes "1e2") (codes "99.5")
    ≡ Option.map opposite (compare_json_numbers (codes "99.5") (codes "1e2"))
compare_json_numbers_swap_example = compare_json_numbers_swap (codes "99.5") (codes "1e2")

abbrev tags : List Tag
tags =
    record { key = "b"; value = "1"; operator = "gt" }
    ∷ record { key = "a"; value = "x"; operator = "" }
    ∷ record { key = "b"; value = "9"; operator = "lt" }
    ∷ []

tags_valid : All IsValidTag tags
unfolding validate_tag
tags_valid = (refl, (refl, (refl, tt)))

abbrev reread : FieldValue → FieldValue
reread (FieldValue.text s) = FieldValue.text s
reread (FieldValue.predicates ps) = FieldValue.array ps
reread (FieldValue.array ps) = FieldValue.array ps
reread FieldValue.unknown = FieldValue.unknown

decode-encode_example :
    (decoded : List Tag) × (decode_criterion (reread_fields reread (encode_criterion tags))
      ≡ ok decoded)
    × ((k : String) → with_key k decoded ≡ map stored_tag (with_key k tags))
decode-encode_example = decode-encode reread tags ((λ s. refl), (λ p ps. refl)) tags_valid

abbrev object : Document
object = ("account", JsonValue.integer 5) ∷ []

abbrev envelope : Document
envelope = ("__commitPosition", JsonValue.integer 1) ∷ []

object-IsApplicationData : IsApplicationData object
unfolding is_reserved_key
object-IsApplicationData = (refl, tt)

envelope-IsEnvelope : IsEnvelope envelope
unfolding is_reserved_key
envelope-IsEnvelope = (refl, tt)

envelope_roundtrip_example : without_storage_envelope (with_fields object envelope) ≡ object
envelope_roundtrip_example =
    envelope_roundtrip object envelope object-IsApplicationData envelope-IsEnvelope
