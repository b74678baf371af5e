-- ===== src/Sqlite/Save/Insert.antt =====
-- What `saveEventsOnConn` writes, and when it fails.
use mathlib.Core.List.{append_assoc, append-nil}
use orisun.Base.{
  ℕ, zero, suc, ◌+◌, ◌≤◌, ◌<◌, ◌≡◌, refl, ap, ◌∙◌, sym, Bool, true, false, ◌&&◌, Option, none, some,
  List, [], ◌∷◌, ◌++◌, all, All, All-append, take, drop, length, length-drop, length-take, arith,
  Bool-cases, inl, inr,
}
use orisun.Status.{is_ok, ok, Result-cases}
use orisun.Document.{
  JsonValue, Document, PreparedEventDocument, positioned_document, event_fields, request_fields,
  with_fields, field, has_key, null,
}
use orisun.Document.Envelope.{field-with_fields}
use orisun.Sqlite.Table.{Row, generate_row}
use orisun.Sqlite.Save.{
  insert_documents, positioned_chunk, insert_chunk, insert_chunks, has_global_id,
}

abbrev is_some {ℓ} : {A : Type ℓ} → Option A → Bool
is_some none = false
is_some (some a) = true

-- The event's data is a JSON object and its metadata is JSON.
abbrev pub is_encodable : PreparedEventDocument → Bool
is_encodable event = is_some event.object && is_some event.metadata

abbrev object_of : Option Document → Document
object_of none = []
object_of (some d) = d

abbrev metadata_of : Option JsonValue → JsonValue
metadata_of none = null
metadata_of (some v) = v

-- The row of one event of a save, at its place and at the time of the save.
unfoldable pub stored_row : ℕ → List ℕ → PreparedEventDocument → ℕ → Row
unfolding with_fields event_fields request_fields
stored_row transaction_id now event gid = record {
  document =
      with_fields (object_of event.object)
        (event_fields (request_fields transaction_id now) event (metadata_of event.metadata) gid);
  transaction_id = transaction_id;
  global_id = gid;
}

-- The rows of the events of one save, numbered one after another.
unfoldable pub stored_rows : ℕ → List ℕ → List PreparedEventDocument → ℕ → List Row
unfolding stored_row
stored_rows transaction_id now [] gid = []
stored_rows transaction_id now (event ∷ events) gid =
    stored_row transaction_id now event gid ∷ stored_rows transaction_id now events (gid + 1)

abbrev documents : List Row → List Document
documents [] = []
documents (r ∷ rows) = r.document ∷ documents rows

-- No row has an identifier from `n` on.
abbrev pub Below : ℕ → List Row → Type 0
Below n = All (λ row. row.global_id < n)

Below-fresh : (n : ℕ) (rows : List Row) → Below n rows → has_global_id n rows ≡ false
unfolding has_global_id
Below-fresh n [] b = refl
Below-fresh n (r ∷ rows) b = ground (arith, Below-fresh n rows b.1)

Below-suc : (n : ℕ) (rows : List Row) → Below n rows → Below (n + 1) rows
Below-suc n [] b = tt
Below-suc n (r ∷ rows) b = (omega arith, Below-suc n rows b.1)

generate_row_lem :
    (document : Document) (transaction_id gid : ℕ) (now : List ℕ)
    → field "__commitPosition" document ≡ some (JsonValue.integer transaction_id)
    → field "__preparePosition" document ≡ some (JsonValue.integer gid)
    → field "__dateCreated" document ≡ some (JsonValue.text now)
    → generate_row document
      ≡ some (record { document = document; transaction_id = transaction_id; global_id = gid })
unfolding generate_row
generate_row_lem document transaction_id gid now c p d = ground arith

pub Below-mono : (m n : ℕ) (rows : List Row) → m ≤ n → Below m rows → Below n rows
Below-mono m n [] h b = tt
Below-mono m n (r ∷ rows) h b = (omega arith, Below-mono m n rows h b.1)

all-take :
    (n : ℕ) (events : List PreparedEventDocument)
    → all is_encodable events ≡ true
    → all is_encodable (take n events) ≡ true
all-take zero events h = refl
all-take (suc n) [] h = refl
all-take (suc n) (e ∷ events) h = ground (arith, all-take n events)

all-rest :
    (n : ℕ) (events : List PreparedEventDocument)
    → all is_encodable events ≡ false
    → all is_encodable (take n events) ≡ true
    → all is_encodable (drop n events) ≡ false
all-rest zero events h k = h
all-rest (suc n) [] h k = h
all-rest (suc n) (e ∷ events) h k = all-rest n events (ground arith) (ground arith)

all-drop :
    (n : ℕ) (events : List PreparedEventDocument)
    → all is_encodable events ≡ true
    → all is_encodable (drop n events) ≡ true
all-drop zero events h = h
all-drop (suc n) [] h = refl
all-drop (suc n) (e ∷ events) h = all-drop n events (ground arith)

module _ (transaction_id : ℕ) (now : List ℕ) where
  abbrev fields : Document
  fields = request_fields transaction_id now

  generate-stored_row :
      (event : PreparedEventDocument) (gid : ℕ)
      → generate_row (stored_row transaction_id now event gid).document
        ≡ some (stored_row transaction_id now event gid)
  unfolding stored_row field has_key
  generate-stored_row event gid =
      let object : Document = object_of event.object in
      let values : Document =
        event_fields (request_fields transaction_id now) event (metadata_of event.metadata) gid in
      generate_row_lem (with_fields object values) transaction_id gid now
        (field-with_fields "__commitPosition" object values refl)
        (field-with_fields "__preparePosition" object values refl)
        (field-with_fields "__dateCreated" object values refl)

  positioned_chunk_lem :
      (events : List PreparedEventDocument) (gid : ℕ)
      → all is_encodable events ≡ true
      → positioned_chunk events gid fields
        ≡ ok (documents (stored_rows transaction_id now events gid))
  unfolding positioned_chunk stored_rows
  positioned_chunk_lem [] gid h = refl
  positioned_chunk_lem (event ∷ events) gid h =
      ground (arith, positioned_chunk_lem events (gid + 1))

  pub Below-snoc :
      (rows : List Row) (event : PreparedEventDocument) (gid : ℕ)
      → Below gid rows
      → Below (gid + 1) (rows ++ stored_row transaction_id now event gid ∷ [])
  unfolding stored_row
  Below-snoc rows event gid b =
      All-append _ rows (stored_row transaction_id now event gid ∷ []) (Below-suc gid rows b)
        (omega arith, tt)

  fresh_row :
      (event : PreparedEventDocument) (gid : ℕ) (rows : List Row)
      → Below gid rows
      → has_global_id (stored_row transaction_id now event gid).global_id rows ≡ false
  unfolding stored_row
  fresh_row event gid rows b = Below-fresh gid rows b

  insert_documents_lem :
      (events : List PreparedEventDocument) (gid : ℕ) (rows : List Row)
      → Below gid rows
      → insert_documents rows (documents (stored_rows transaction_id now events gid))
        ≡ ok (rows ++ stored_rows transaction_id now events gid)
  unfolding insert_documents stored_rows
  insert_documents_lem [] gid rows b = ap ok (sym (append-nil rows))
  insert_documents_lem (event ∷ events) gid rows b =
      rw (generate-stored_row event gid, insert_documents, fresh_row event gid rows b)
        (insert_documents_lem events (gid + 1)
            (rows ++ stored_row transaction_id now event gid ∷ []) (Below-snoc rows event gid b)
          ∙ ap ok (append_assoc rows (stored_row transaction_id now event gid ∷ []) _))

  pub Below-append :
      (events : List PreparedEventDocument) (gid : ℕ) (rows : List Row)
      → Below gid rows
      → Below (gid + length events) (rows ++ stored_rows transaction_id now events gid)
  unfolding stored_rows
  Below-append [] gid rows b = rw append-nil (Below-mono gid (gid + 0) rows (omega arith) b)
  Below-append (event ∷ events) gid rows b =
      let shape : gid + 1 + length events ≡ gid + suc (length events) = omega arith in
      rw (← append_assoc rows (stored_row transaction_id now event gid ∷ []) _, ← shape)
        (Below-append events (gid + 1) _ (Below-snoc rows event gid b))

  stored_rows-chunk :
      (chunk : ℕ) (events : List PreparedEventDocument) (gid : ℕ)
      → stored_rows transaction_id now (take chunk events) gid
          ++ stored_rows transaction_id now (drop chunk events) (gid + chunk)
        ≡ stored_rows transaction_id now events gid
  unfolding stored_rows
  stored_rows-chunk zero events gid = ap (stored_rows transaction_id now events) (omega arith)
  stored_rows-chunk (suc chunk) [] gid = refl
  stored_rows-chunk (suc chunk) (event ∷ events) gid =
      let shape : gid + suc chunk ≡ gid + 1 + chunk = omega arith in
      rw shape (
        ap (◌∷◌ (stored_row transaction_id now event gid))
          (stored_rows-chunk chunk events (gid + 1)))

  insert_chunk_lem :
      (events : List PreparedEventDocument) (gid : ℕ) (rows : List Row)
      → all is_encodable events ≡ true
      → Below gid rows
      → insert_chunk rows events gid fields ≡ ok (rows ++ stored_rows transaction_id now events gid)
  unfolding insert_chunk
  insert_chunk_lem events gid rows good b =
      rw (positioned_chunk_lem events gid good) (insert_documents_lem events gid rows b)

  -- Inserting in chunks is inserting all at once, for every size of the chunks.
  pub insert_chunks_lem :
      (chunk fuel : ℕ) (events : List PreparedEventDocument) (gid : ℕ) (rows : List Row)
      → 0 < chunk
      → length events ≤ fuel
      → all is_encodable events ≡ true
      → Below gid rows
      → insert_chunks chunk fuel rows events gid fields
        ≡ (ok tt, rows ++ stored_rows transaction_id now events gid)
  unfolding insert_chunks stored_rows
  insert_chunks_lem chunk fuel [] gid rows pos' enough good b = rw append-nil refl
  insert_chunks_lem chunk zero (event ∷ events) gid rows pos' enough good b = absurd (omega arith)
  insert_chunks_lem chunk (suc fuel) (event ∷ events) gid rows pos' enough good b =
      rw
        (
          insert_chunk_lem (take chunk (event ∷ events)) gid rows
              (all-take chunk (event ∷ events) good) b,
          insert_chunks,
        )
        (insert_chunks_lem chunk fuel (drop chunk (event ∷ events)) (gid + chunk)
            (rows ++ stored_rows transaction_id now (take chunk (event ∷ events)) gid) pos'
            (omega (arith, length-drop {0} chunk (event ∷ events)))
            (all-drop chunk (event ∷ events) good)
            (Below-mono (gid + length (take chunk (event ∷ events))) (gid + chunk) _
              (omega (arith, length-take {0} chunk (event ∷ events)))
              (Below-append (take chunk (event ∷ events)) gid rows b))
          ∙ ap (λ (rs : List Row). (ok tt, rs))
              (append_assoc rows _ _
                ∙ ap (λ (rs : List Row). rows ++ rs)
                    (stored_rows-chunk chunk (event ∷ events) gid)))

  -- An event that cannot be encoded fails its chunk.
  positioned_chunk_fails :
      (events : List PreparedEventDocument) (gid : ℕ)
      → all is_encodable events ≡ false
      → is_ok (positioned_chunk events gid fields) ≡ false
  unfolding positioned_chunk positioned_document
  positioned_chunk_fails [] gid h = ground arith
  positioned_chunk_fails (event ∷ events) gid h =
      ground (arith, positioned_chunk_fails events (gid + 1))

  insert_chunk_encodes :
      (events : List PreparedEventDocument) (gid : ℕ) (rows rs : List Row)
      → insert_chunk rows events gid fields ≡ ok rs
      → all is_encodable events ≡ true
  unfolding insert_chunk
  insert_chunk_encodes events gid rows rs h = elim (Bool-cases (all is_encodable events)) [
    | inl e ↦ e
    | inr e ↦ ground (arith, positioned_chunk_fails events gid e)
  ]

  pub insert_chunks_fails :
      (chunk fuel : ℕ) (events : List PreparedEventDocument) (gid : ℕ) (rows : List Row)
      → all is_encodable events ≡ false
      → is_ok (insert_chunks chunk fuel rows events gid fields).0 ≡ false
  unfolding insert_chunks
  insert_chunks_fails chunk fuel [] gid rows h = ground arith
  insert_chunks_fails chunk zero (event ∷ events) gid rows h = refl
  insert_chunks_fails chunk (suc fuel) (event ∷ events) gid rows h =
      elim (Result-cases (insert_chunk rows (take chunk (event ∷ events)) gid fields)) [
        | inl (rs, e) ↦
            rw (e, insert_chunks)
              (insert_chunks_fails chunk fuel (drop chunk (event ∷ events)) (gid + chunk) rs (
                all-rest chunk (event ∷ events) h
                  (insert_chunk_encodes (take chunk (event ∷ events)) gid rows rs e)))
        | inr (x, e) ↦ rw (e, insert_chunks) refl
      ]
