-- ===== src/Boundaries/Query.antt =====
-- admin/slices/boundary_catalog/query_handler.go, and the runtime handler of
-- admin/slices/boundary_provisioning/runtime_event_handler.go, which asks it. The events that the
-- lifecycle query of a name matches are what the port `read` reads; `strings.TrimSpace` is a parameter.
pub mod Exposed
pub mod Handled
use orisun.Base.{
  ℕ, zero, suc, Bool, true, false, not, ◌&&◌, Option, none, some, List, [], ◌∷◌, ◌++◌,
  codes_compare, Ordering, if◌then◌else◌,
}
use orisun.Status.{
  Result, ok, err, Error, coded, internal, invalid_argument, not_found, failed_precondition,
  code_of, Code,
}
use orisun.Position.{Position, same, after, not_exists_position}
use orisun.Catalog.{Boundary, Catalog, get, apply, validate_name, is_active, is_empty}
use orisun.Boundaries.{
  EventType, same_type, type_activated, StoredEvent, EventData, catalog_event, Definition, Action,
  ◌>>=◌, lift,
}
use orisun.Boundaries.Replay.{replay}

abbrev pub catalog_read_batch_size : ℕ
catalog_read_batch_size = 1000

-- The test on the cursor in `replayCatalog`.
abbrev pub is_at_cursor : Position → StoredEvent → Bool
is_at_cursor cursor event = same event.position cursor

-- What the loop of `replayCatalog` does with an event.
unfoldable pub apply_event : Catalog → StoredEvent → Result Catalog
unfolding apply
apply_event catalog event =
    let (applied, (r, next)) = apply (catalog_event event) catalog in
    elim r [
      | err _ ↦ err (coded internal)
      | ok _ ↦ if applied then ok next else err (coded internal)
    ]

-- The order of `List`.
abbrev name_before : Boundary → Boundary → Bool
name_before a b = elim (codes_compare a.name b.name) [
  | Ordering.lt ↦ true
  | Ordering.eq ↦ false
  | Ordering.gt ↦ false
]

abbrev insert_boundary : Boundary → List Boundary → List Boundary
insert_boundary boundary [] = boundary ∷ []
insert_boundary boundary (b ∷ bs) =
    let rest = insert_boundary boundary bs in
    if name_before boundary b then boundary ∷ b ∷ bs else b ∷ rest

-- `Catalog.List`
unfoldable pub list : Catalog → List Boundary
list [] = []
list ((name, boundary) ∷ catalog) = insert_boundary boundary (list catalog)

module _ {W : Type 0} (read : List ℕ → Position → Action W (List StoredEvent))
    (trim : List ℕ → List ℕ) (admin_boundary : List ℕ) where
  -- `replayCatalog`. `fuel` bounds the pages.
  unfoldable pub replay_catalog : ℕ → List ℕ → W → Option (Result Catalog × W)
  replay_catalog fuel name w =
      if is_empty admin_boundary
      then some (err (coded internal), w)
      else replay (read name) catalog_read_batch_size is_at_cursor (λ c e. lift (apply_event c e))
          fuel not_exists_position [] w

  -- `ListBoundariesQueryHandler`
  unfoldable pub list_boundaries : ℕ → W → Option (Result (List Boundary) × W)
  list_boundaries fuel w = elim (replay_catalog fuel [] w) [
    | none ↦ none
    | some (r, w') ↦ elim r [ err e ↦ some (err e, w') | ok catalog ↦ some (ok (list catalog), w') ]
  ]

  -- The lookup that ends `GetBoundaryQueryHandler`.
  abbrev pub boundary_found : List ℕ → Catalog → Result Boundary
  boundary_found name catalog = elim (get name catalog) [
    | none ↦ err (coded not_found)
    | some b ↦ ok b
  ]

  -- `GetBoundaryQueryHandler`
  unfoldable pub get_boundary : ℕ → List ℕ → W → Option (Result Boundary × W)
  get_boundary fuel query w = elim (validate_name (trim query)) [
    | err _ ↦ some (err (coded invalid_argument), w)
    | ok _ ↦ elim (replay_catalog fuel (trim query) w) [
      | none ↦ none
      | some (r, w') ↦ elim r [
        | err e ↦ some (err e, w')
        | ok c ↦ some (boundary_found (trim query) c, w')
      ]
    ]
  ]

  -- The test of `Handle` on the position of the definition.
  abbrev predates_definition : Position → Option Position → Bool
  predates_definition position none = false
  predates_definition position (some definition) = not (after position definition)

  abbrev is_not_found : Error → Bool
  is_not_found e = elim (code_of e) [ not_found ↦ true | _ ↦ false ]

  -- What `Handle` does with the boundary that it found.
  unfoldable pub expose :
      (Definition → Action W (Unit {0}))
      → (List ℕ → Action W (Unit {0}))
      → Position
      → Boundary
      → Action W (Unit {0})
  unfolding after
  expose install activate position boundary =
      if predates_definition position boundary.definition_position
      then lift (ok tt)
      else if not (is_active boundary.status)
      then lift (err (coded failed_precondition))
      else (install (record {
        name = boundary.name;
        description = boundary.description;
        placement = boundary.placement;
      })
          >>= (λ installed. activate boundary.name))

  -- `Handle` of `BoundaryRuntimeEventHandler`
  unfoldable pub handle_activation :
      ℕ
      → (Definition → Action W (Unit {0}))
      → (List ℕ → Action W (Unit {0}))
      → StoredEvent
      → W
      → Option (Result (Unit {0}) × W)
  handle_activation fuel install activate event w =
      if is_empty admin_boundary
      then some (err (coded internal), w)
      else if not (same_type event.event_type type_activated)
      then some (err (coded invalid_argument), w)
      else elim event.content [
        | none ↦ some (err (coded internal), w)
        | some activated ↦ elim (get_boundary fuel activated.boundary w) [
          | none ↦ none
          | some (r, w') ↦ elim r [
            | err e ↦ if is_not_found e then some (ok tt, w') else some (err e, w')
            | ok boundary ↦ some (expose install activate event.position boundary w')
          ]
        ]
      ]
