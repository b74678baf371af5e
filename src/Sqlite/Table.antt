-- ===== src/Sqlite/Table.antt =====
-- The tables of a boundary database (sqlite/migration.go), and the one form of SELECT that the
-- backend uses: WHERE a clause holds ORDER BY transaction_id, global_id LIMIT n.
use orisun.Base.{
  ℕ, Bool, true, false, Option, none, some, List, [], ◌∷◌, filter, take, if◌then◌else◌, pos, ◌≡◌,
  ◌⊎◌,
}
use orisun.Position.{Position, values_after, position_values_after, not_exists_position}
use orisun.Query.{Fields}
use orisun.Document.{JsonValue, Document, field}

-- A row of `orisun_es_event`: the document, and the generated columns that are sorted by.
pub record Row : Type 0 where
  pub document : Document
  pub transaction_id : ℕ
  pub global_id : ℕ

integer_column : Option JsonValue → Option ℕ
integer_column (some (JsonValue.integer n)) = some n
integer_column _ = none

text_column : Option JsonValue → Option (List ℕ)
text_column (some (JsonValue.text s)) = some s
text_column _ = none

-- The generated columns; none where a column that is NOT NULL has no value.
unfoldable pub generate_row : Document → Option Row
unfolding integer_column text_column
generate_row document = elim (integer_column (field "__commitPosition" document)) [
  | none ↦ none
  | some transaction_id ↦ elim (integer_column (field "__preparePosition" document)) [
    | none ↦ none
    | some global_id ↦ elim (text_column (field "__dateCreated" document)) [
      | none ↦ none
      | some _ ↦
          some
            (record { document = document; transaction_id = transaction_id; global_id = global_id })
    ]
  ]
]

-- `storedConsistencyObservation`
pub record StoredObservation : Type 0 where
  pub criteria : List Fields
  pub position : Position

-- `orisun_es_event`, `orisun_es_write` and the one row of `orisun_es_seq`.
pub record Database : Type 0 where
  pub events : List Row
  pub writes : List (ℕ × List StoredObservation)
  pub next_id : ℕ

abbrev pub row_position : Row → Position
row_position row = record {
  commit_position = pos row.transaction_id;
  prepare_position = pos row.global_id;
}

-- `Direction`
pub data Direction : Type 0 where
  ascending descending : Direction

-- Whether `r` stands before `s` under ORDER BY.
unfoldable pub precedes : Direction → Row → Row → Bool
unfolding position_values_after
precedes ascending r s = values_after (row_position s) (row_position r)
precedes descending r s = values_after (row_position r) (row_position s)

unfoldable pub insert_ordered : Direction → Row → List Row → List Row
unfolding precedes
insert_ordered d r [] = r ∷ []
insert_ordered d r (s ∷ rows) =
    let rest = s ∷ insert_ordered d r rows in if precedes d s r then rest else r ∷ s ∷ rows

unfoldable pub order_by : Direction → List Row → List Row
unfolding insert_ordered
order_by d [] = []
order_by d (r ∷ rows) = insert_ordered d r (order_by d rows)

unfoldable pub select : (Row → Bool) → Direction → ℕ → List Row → List Row
unfolding order_by
select clause d limit rows = take limit (order_by d (filter clause rows))

-- Membership, by recursion.
abbrev pub In : Row → List Row → Type 0
In r [] = ⊥
In r (s ∷ rows) = (s ≡ r) ⊎ In r rows

-- `p` is the latest position of the rows at which the clause holds, or (-1, -1) if it holds at none.
pub record IsLatest (clause : Row → Bool) (rows : List Row) (p : Position) : Type 0 where
  pub not_before : (r : Row) → In r rows → clause r ≡ true → values_after (row_position r) p ≡ false
  pub attained :
      ((p ≡ not_exists_position) × ((r : Row) → In r rows → clause r ≡ false))
      ⊎ ((r : Row) × In r rows × (clause r ≡ true) × (row_position r ≡ p))
