-- ===== src/Boundaries.antt =====
-- What the boundary commands of admin/slices share: lifecycle events as they are stored
-- (boundary/events), and what the commands call, as actions on a world that other writers may change.
-- A stored event carries its data decoded as its type says, or that it could not be decoded.
pub mod Logic
pub mod Laws
pub mod Context
pub mod Create
pub mod Replay
pub mod Subscriber
pub mod Query
pub mod Provision
use orisun.Base.{
  ℕ, ◌≡◌, Bool, true, false, ◌||◌, Option, none, some, List, [], ◌∷◌, codes_eq, if◌then◌else◌,
}
use orisun.Status.{Result, ok, err, Error, coded, uncoded, internal, invalid_argument}
use orisun.Position.{Position}
use orisun.Catalog.{
  Placement, Boundary, Lifecycle, boundary_created, boundary_activated, boundary_failed,
  undecodable, other, CatalogEvent, validate_name, is_empty,
}

-- `EventTypeBoundaryCreated` and the others, and any other type.
pub data EventType : Type 0 where
  type_created type_activated type_failed type_other : EventType

abbrev pub same_type : EventType → EventType → Bool
same_type type_created type_created = true
same_type type_activated type_activated = true
same_type type_failed type_failed = true
same_type type_other type_other = true
same_type s t = false

-- `BoundaryCreated`, `BoundaryActivated` and `BoundaryProvisioningFailed`, all their fields together.
pub record EventData : Type 0 where
  pub boundary : List ℕ
  pub description : List ℕ
  pub placement : Placement
  pub message : List ℕ

pub record EventToAppend : Type 0 where
  pub event_type : EventType
  pub content : EventData

pub record StoredEvent : Type 0 where
  pub event_type : EventType
  pub content : Option EventData
  pub position : Position

abbrev lifecycle_of : EventType → Option EventData → Lifecycle
lifecycle_of type_other content = other
lifecycle_of type_created none = undecodable
lifecycle_of type_activated none = undecodable
lifecycle_of type_failed none = undecodable
lifecycle_of type_created (some d) = boundary_created d.boundary d.description d.placement
lifecycle_of type_activated (some d) = boundary_activated d.boundary
lifecycle_of type_failed (some d) = boundary_failed d.boundary d.message

-- The event as the catalog reads it.
abbrev pub catalog_event : StoredEvent → CatalogEvent
catalog_event e = record { lifecycle = lifecycle_of e.event_type e.content; position = e.position }

-- The event as it is stored at a position.
abbrev pub stored_at : EventToAppend → Position → StoredEvent
stored_at e p = record { event_type = e.event_type; content = some e.content; position = p }

-- A criterion with the tags `boundary` and `__eventType`.
pub record LifecycleCriterion : Type 0 where
  pub boundary : List ℕ
  pub event_type : EventType

-- `LatestByCriteriaResult`. A match that is not found is `none`.
pub record LatestResult : Type 0 where
  pub matches : List (Option StoredEvent)
  pub context_position : Position

-- `AppendRequest`, with one event and one observation.
pub record AppendRequest : Type 0 where
  pub boundary : List ℕ
  pub event : EventToAppend
  pub criteria : List LifecycleCriterion
  pub observed : Position

-- `Definition`
pub record Definition : Type 0 where
  pub name : List ℕ
  pub description : List ℕ
  pub placement : Placement

-- An action on the world.
abbrev pub Action : Type 0 → Type 0 → Type 0
Action W A = W → Result A × W

-- What the commands call. `new_event` makes the identifier and encodes the data and the metadata.
pub record Ports (W : Type 0) : Type 0 where
  pub latest_by_criteria : List ℕ → List LifecycleCriterion → Action W LatestResult
  pub append : AppendRequest → Action W Position
  pub new_event : EventToAppend → Action W (Unit {0})

infixl 5 ◌>>=◌
abbrev pub ◌>>=◌ : {W A B : Type 0} → Action W A → (A → Action W B) → Action W B
(m >>= next) w = let (r, w') = m w in elim r [ ok a ↦ next a w' | err e ↦ (err e, w') ]

-- A result without an effect.
abbrev pub lift : {W A : Type 0} → Result A → Action W A
lift r w = (r, w)

-- `uuid.NewV7` and `json.Marshal`, whose errors become internal errors.
unfoldable pub make_event : {W : Type 0} → Ports W → EventToAppend → Action W (Unit {0})
make_event ports event w =
    let (r, w') = ports.new_event event w in
    (elim r [ ok made ↦ ok tt | err e ↦ err (coded internal) ], w')

-- The second test of `normalize` and `validateDefinition`.
abbrev has_placement : Placement → Result (Unit {0})
has_placement p =
    if is_empty p.backend || is_empty p.namespace then err (coded invalid_argument) else ok tt

-- `validateDefinition`, which are the tests of `normalize` as well.
unfoldable pub validate_definition : Definition → Result (Unit {0})
unfolding validate_name
validate_definition d = elim (validate_name d.name) [
  | ok _ ↦ has_placement d.placement
  | err _ ↦ err (coded invalid_argument)
]
