-- ===== src/Document/Envelope.antt =====
-- What is stored beside an event's own data, and that reading gives the data back.
use orisun.Base.{
  ℕ, ◌≡◌, refl, ap, true, false, ◌||◌, List, [], ◌∷◌, ◌++◌, String, eq_iff, arith, if◌then◌else◌,
  Bool-cases, inl, inr,
}
use orisun.Document.{
  JsonValue, Document, field, has_key, without_keys, with_fields, is_reserved_key,
  without_storage_envelope, PreparedEventDocument, request_fields, event_fields,
}

field-append :
    (k : String) (a b : Document)
    → field k (a ++ b) ≡ (if has_key k a then field k a else field k b)
unfolding field has_key
field-append k [] b = refl
field-append k ((j, v) ∷ a) b = ground (arith, field-append k a b)

has_key-append : (k : String) (a b : Document) → has_key k (a ++ b) ≡ (has_key k a || has_key k b)
unfolding has_key
has_key-append k [] b = refl
has_key-append k ((j, v) ∷ a) b = ground (arith, has_key-append k a b)

field-without_keys :
    (k : String) (values d : Document)
    → has_key k values ≡ true
    → has_key k (without_keys values d) ≡ false
unfolding without_keys has_key
field-without_keys k values [] h = refl
field-without_keys k values ((j, v) ∷ d) h = elim (Bool-cases (has_key j values)) [
  | inl e ↦ rw e (field-without_keys k values d h)
  | inr e ↦ rw e (ground (arith, field-without_keys k values d h, eq_iff j k))
]

-- A value that is supplied replaces the object's own.
pub field-with_fields :
    (k : String) (d values : Document)
    → has_key k values ≡ true
    → field k (with_fields d values) ≡ field k values
unfolding with_fields
field-with_fields k d values h =
    ground (arith, field-append k (without_keys values d) values, field-without_keys k values d h)

-- No field is reserved; `prepareJSONObjectJSON` lets no other object pass.
abbrev pub IsApplicationData : Document → Type 0
IsApplicationData [] = Unit
IsApplicationData ((k, v) ∷ d) = (is_reserved_key k ≡ false) × IsApplicationData d

abbrev pub IsEnvelope : Document → Type 0
IsEnvelope [] = Unit
IsEnvelope ((k, v) ∷ d) = (is_reserved_key k ≡ true) × IsEnvelope d

not_in_envelope :
    (k : String) (values : Document)
    → IsEnvelope values
    → is_reserved_key k ≡ false
    → has_key k values ≡ false
unfolding has_key
not_in_envelope k [] e r = refl
not_in_envelope k ((j, v) ∷ values) e r = ground (arith, not_in_envelope k values e.1 r, eq_iff j k)

without_keys-data :
    (d values : Document) → IsApplicationData d → IsEnvelope values → without_keys values d ≡ d
unfolding without_keys
without_keys-data [] values a e = refl
without_keys-data ((k, v) ∷ d) values a e =
    rw (not_in_envelope k values e a.0)
      (ap (λ (r : Document). (k, v) ∷ r) (without_keys-data d values a.1 e))

envelope-dropped : (values : Document) → IsEnvelope values → without_storage_envelope values ≡ []
unfolding without_storage_envelope
envelope-dropped [] e = refl
envelope-dropped ((k, v) ∷ values) e = rw e.0 (envelope-dropped values e.1)

data-kept :
    (d values : Document)
    → IsApplicationData d
    → IsEnvelope values
    → without_storage_envelope (d ++ values) ≡ d
unfolding without_storage_envelope
data-kept [] values a e = envelope-dropped values e
data-kept ((k, v) ∷ d) values a e =
    rw a.0 (ap (λ (r : Document). (k, v) ∷ r) (data-kept d values a.1 e))

-- Taking the envelope off a document that application data and an envelope were merged to gives
-- the application data back, every field with its value and in its place.
pub envelope_roundtrip :
    (d values : Document)
    → IsApplicationData d
    → IsEnvelope values
    → without_storage_envelope (with_fields d values) ≡ d
unfolding with_fields
envelope_roundtrip d values a e = rw (without_keys-data d values a e) (data-kept d values a e)

pub event_fields-IsEnvelope :
    (transaction_id : ℕ) (now : List ℕ) (event : PreparedEventDocument) (metadata : JsonValue)
    (gid : ℕ)
    → IsEnvelope (event_fields (request_fields transaction_id now) event metadata gid)
unfolding event_fields request_fields is_reserved_key
event_fields-IsEnvelope transaction_id now event metadata gid =
    (refl, (refl, (refl, (refl, (refl, (refl, (refl, tt)))))))
