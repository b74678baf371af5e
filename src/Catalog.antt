-- ===== src/Catalog.antt =====
-- boundary/types.go and admin/slices/boundary_catalog/event_handler.go: the names of boundaries, and
-- the catalog that boundary events are folded into. The Go map is an association list. `json.Unmarshal`
-- is not modelled: an event carries its decoded data, or that it could not be decoded.
pub mod History
use orisun.Base.{
  ℕ, zero, suc, ◌≡◌, refl, Bool, true, false, not, ◌&&◌, ◌||◌, Option, none, some, List, [], ◌∷◌,
  ltb, ◌==◌, length, all, if◌then◌else◌, codes_eq, is_digit, is_letter,
}
use orisun.Status.{Result, ok, err, ◌>>=◌, uncoded}
use orisun.Position.{Position}

-- `Status`
pub data BoundaryStatus : Type 0 where
  provisioning active failed : BoundaryStatus

-- `Placement`
pub record Placement : Type 0 where
  pub backend : List ℕ
  pub namespace : List ℕ

-- `Boundary`
pub record Boundary : Type 0 where
  pub name : List ℕ
  pub description : List ℕ
  pub placement : Placement
  pub status : BoundaryStatus
  pub last_error : List ℕ
  pub definition_position : Option Position
  pub status_position : Option Position

abbrev underscore : ℕ
underscore = 95

-- `ValidateName`
unfoldable pub validate_name : List ℕ → Result (Unit {0})
validate_name [] = err uncoded
validate_name (first ∷ rest) =
    if ltb 63 (length (first ∷ rest))
    then err uncoded
    else if not (is_letter first) && not (first == underscore)
    then err uncoded
    else if all (λ c. is_letter c || is_digit c || c == underscore) rest
    then ok tt
    else err uncoded

-- The lifecycle events, decoded, and any other event.
pub data Lifecycle : Type 0 where
  boundary_created : List ℕ → List ℕ → Placement → Lifecycle
  boundary_activated : List ℕ → Lifecycle
  boundary_failed : List ℕ → List ℕ → Lifecycle
  undecodable other : Lifecycle

-- A `ReadEvent`, as far as the catalog reads it.
pub record CatalogEvent : Type 0 where
  pub lifecycle : Lifecycle
  pub position : Position

-- `Catalog.boundaries`
abbrev pub Catalog : Type 0
Catalog = List (List ℕ × Boundary)

-- `c.boundaries[name]`; `Get`.
unfoldable pub get : List ℕ → Catalog → Option Boundary
get name [] = none
get name ((n, b) ∷ c) = if codes_eq n name then some b else get name c

-- `c.boundaries[name] = boundary`
unfoldable pub put : List ℕ → Boundary → Catalog → Catalog
put name boundary [] = (name, boundary) ∷ []
put name boundary ((n, b) ∷ c) =
    let rest = (n, b) ∷ put name boundary c in if codes_eq n name then (n, boundary) ∷ c else rest

abbrev pub is_empty : List ℕ → Bool
is_empty [] = true
is_empty (c ∷ cs) = false

-- `define`
unfoldable pub define :
    List ℕ → List ℕ → Placement → Position → Catalog → Result (Unit {0}) × Catalog
unfolding get put
define name description placement position c =
    if is_empty name || is_empty placement.backend || is_empty placement.namespace
    then (err uncoded, c)
    else elim (get name c) [
      | some b ↦ (err uncoded, c)
      | none ↦ (
        ok tt,
        put name
            (record {
              name = name;
              description = description;
              placement = placement;
              status = provisioning;
              last_error = [];
              definition_position = some position;
              status_position = some position;
            })
            c,
      )
    ]

abbrev pub is_active : BoundaryStatus → Bool
is_active active = true
is_active provisioning = false
is_active failed = false

-- The case of `Apply` for `BoundaryActivated`.
unfoldable pub activate : List ℕ → Position → Catalog → Result (Unit {0}) × Catalog
unfolding get put
activate name position c = if is_empty name then (err uncoded, c) else elim (get name c) [
  | none ↦ (ok tt, c)
  | some b ↦ (
    ok tt,
    put name (record b { status = active; last_error = []; status_position = some position }) c,
  )
]

-- The case of `Apply` for `BoundaryProvisioningFailed`.
unfoldable pub record_failure : List ℕ → List ℕ → Position → Catalog → Result (Unit {0}) × Catalog
unfolding get put
record_failure name message position c =
    if is_empty name then (err uncoded, c) else elim (get name c) [
      | none ↦ (ok tt, c)
      | some b ↦
          if is_empty message
          then (err uncoded, c)
          else if is_active b.status
          then (ok tt, c)
          else (
            ok tt,
            put name
                (record b {
                  status = failed;
                  last_error = message;
                  status_position = some position;
                })
                c,
          )
    ]

-- The cases of `Apply`: whether it was a lifecycle event, the error, and the catalog.
unfoldable pub apply_lifecycle :
    Lifecycle → Position → Catalog → Bool × (Result (Unit {0}) × Catalog)
unfolding define activate record_failure
apply_lifecycle (boundary_created name description placement) position c =
    (true, define name description placement position c)
apply_lifecycle (boundary_activated name) position c = (true, activate name position c)
apply_lifecycle (boundary_failed name message) position c =
    (true, record_failure name message position c)
apply_lifecycle undecodable position c = (true, (err uncoded, c))
apply_lifecycle other position c = (false, (ok tt, c))

-- `Apply`
unfoldable pub apply : CatalogEvent → Catalog → Bool × (Result (Unit {0}) × Catalog)
unfolding apply_lifecycle
apply event c = apply_lifecycle event.lifecycle event.position c

-- The catalog after the events of a log, applied one after another whatever each reports.
abbrev pub apply_all : List CatalogEvent → Catalog → Catalog
apply_all [] c = c
apply_all (event ∷ events) c = apply_all events (apply event c).1.1
