-- ===== src/Document.antt =====
-- Event documents: internal/eventdata/envelope.go, namespace.go and public.go, and
-- sqlite/event_document.go. A JSON object is the list of its fields, as the JSON library parses it;
-- text values are code points. JSON values inside a field are not taken apart by the source.
pub mod Envelope
use orisun.Base.{
  ℕ, Bool, true, false, not, ◌&&◌, ◌||◌, Option, none, some, List, [], ◌∷◌, ◌++◌, String, str_eq,
  codes, has_prefix, any, filter, if◌then◌else◌, pos,
}
use orisun.Status.{Result, ok, err, uncoded}
use orisun.Decimal.{format_int}
use orisun.WriteContext.{write_id}

-- `integer n` is an integer from 0 to the largest int64; `number` any other number, with its JSON
-- token and the text that SQLite casts it to; `composite` an array or object, with its JSON text.
pub data JsonValue : Type 0 where
  null : JsonValue
  boolean : Bool → JsonValue
  text : List ℕ → JsonValue
  integer : ℕ → JsonValue
  number : List ℕ → List ℕ → JsonValue
  composite : List ℕ → JsonValue

-- `map[string]json.RawMessage`
abbrev pub Document : Type 0
Document = List (String × JsonValue)

unfoldable pub field : String → Document → Option JsonValue
field k [] = none
field k ((j, v) ∷ d) = if str_eq j k then some v else field k d

unfoldable pub has_key : String → Document → Bool
has_key k [] = false
has_key k ((j, v) ∷ d) = str_eq j k || has_key k d

-- The first loop of `Object.WithFields`.
unfoldable pub without_keys : Document → Document → Document
unfolding has_key
without_keys values [] = []
without_keys values ((k, v) ∷ d) =
    let rest = without_keys values d in if has_key k values then rest else (k, v) ∷ rest

-- `Object.WithFields`, on an object that was parsed.
unfoldable pub with_fields : Document → Document → Document
unfolding without_keys
with_fields d values = without_keys values d ++ values

-- `IsReservedKey`
unfoldable pub is_reserved_key : String → Bool
unfolding has_prefix
is_reserved_key key = has_prefix (codes "__") (codes key)

-- `WithoutStorageEnvelope`, on an object that was parsed.
unfoldable pub without_storage_envelope : Document → Document
unfolding is_reserved_key
without_storage_envelope [] = []
without_storage_envelope ((k, v) ∷ d) =
    let rest = without_storage_envelope d in if is_reserved_key k then rest else (k, v) ∷ rest

-- `preparedEventDocument`. `object` is none where `ParseObject` failed, and `metadata` is none
-- where the text is not JSON.
pub record PreparedEventDocument : Type 0 where
  pub event_id : List ℕ
  pub event_type : List ℕ
  pub metadata : Option JsonValue
  pub object : Option Document

-- The fields that all events of one save share: the first lines of `insertEventBatch`.
unfoldable pub request_fields : ℕ → List ℕ → Document
unfolding write_id
request_fields transaction_id now =
    ("__commitPosition", integer transaction_id)
    ∷ ("__dateCreated", text now)
    ∷ ("__writeId", text (write_id (pos transaction_id) (pos transaction_id)))
    ∷ []

-- The map after the assignments of `positionedDocument`.
unfoldable pub event_fields : Document → PreparedEventDocument → JsonValue → ℕ → Document
event_fields fields event metadata gid =
    fields
    ++ (("__eventId", text event.event_id)
        ∷ ("__eventType", text event.event_type)
        ∷ ("__metadata", metadata)
        ∷ ("__preparePosition", integer gid)
        ∷ [])

-- `positionedDocument`
unfoldable pub positioned_document : PreparedEventDocument → ℕ → Document → Result Document
unfolding event_fields with_fields
positioned_document event gid fields = elim event.object [
  | none ↦ err uncoded
  | some object ↦ elim event.metadata [
    | none ↦ err uncoded
    | some metadata ↦ ok (with_fields object (event_fields fields event metadata gid))
  ]
]
