-- ===== src/Boundaries/Provision.antt =====
-- admin/slices/boundary_provisioning: the command that provisions a boundary and appends the outcome,
-- and the handler of definition events that calls it. The text of an error is a parameter.
pub mod Outcome
pub mod Command
use orisun.Base.{
  ℕ, zero, suc, Bool, true, false, not, ◌&&◌, ◌||◌, Option, none, some, List, [], ◌∷◌, ◌==◌, length,
  codes_eq, if◌then◌else◌,
}
use orisun.Status.{
  Result, ok, err, Error, coded, uncoded, internal, invalid_argument, already_exists,
  failed_precondition, code_of, Code,
}
use orisun.Position.{Position, after, values_after}
use orisun.Catalog.{
  BoundaryStatus, provisioning, active, failed, Boundary, Catalog, get, apply, is_active, is_empty,
}
use orisun.Boundaries.{
  EventType, type_created, type_activated, type_failed, EventData, EventToAppend, StoredEvent,
  catalog_event, LifecycleCriterion, LatestResult, AppendRequest, Definition, Action, Ports,
  make_event, ◌>>=◌, lift, validate_definition, same_type,
}

-- `commandContext`
pub record LifecycleContext : Type 0 where
  pub boundary : Boundary
  pub position : Position
  pub criteria : List LifecycleCriterion

abbrev pub lifecycle_criteria : List ℕ → List LifecycleCriterion
lifecycle_criteria name =
    record { boundary = name; event_type = type_created }
    ∷ record { boundary = name; event_type = type_activated }
    ∷ record { boundary = name; event_type = type_failed }
    ∷ []

-- The first loop of `loadContext`.
unfoldable pub find_definition : List (Option StoredEvent) → Option StoredEvent
find_definition [] = none
find_definition (none ∷ matches) = find_definition matches
find_definition (some event ∷ matches) =
    let rest = find_definition matches in
    if same_type event.event_type type_created then some event else rest

-- The second loop.
unfoldable pub outcomes_after : StoredEvent → List (Option StoredEvent) → List StoredEvent
unfolding after
outcomes_after definition [] = []
outcomes_after definition (none ∷ matches) = outcomes_after definition matches
outcomes_after definition (some event ∷ matches) =
    let rest = outcomes_after definition matches in
    if not (same_type event.event_type type_created) && after event.position definition.position
    then event ∷ rest
    else rest

-- `sort.Slice` by position. No two events have the same one.
unfoldable pub insert_event : StoredEvent → List StoredEvent → List StoredEvent
insert_event event [] = event ∷ []
insert_event event (e ∷ events) =
    let rest = insert_event event events in
    if values_after e.position event.position then event ∷ e ∷ events else e ∷ rest

unfoldable pub sort_events : List StoredEvent → List StoredEvent
unfolding insert_event
sort_events [] = []
sort_events (event ∷ events) = insert_event event (sort_events events)

-- The loop over `catalog.Apply`.
unfoldable pub apply_each : List StoredEvent → Catalog → Result Catalog
unfolding apply
apply_each [] catalog = ok catalog
apply_each (event ∷ events) catalog =
    let (applied, (r, next)) = apply (catalog_event event) catalog in
    let rest = apply_each events next in
    elim r [ err _ ↦ err (coded internal) | ok _ ↦ if applied then rest else err (coded internal) ]

-- `loadContext` after its read, up to the number of matches.
unfoldable pub rebuild : List ℕ → List (Option StoredEvent) → Result Boundary
unfolding find_definition outcomes_after sort_events apply_each get
rebuild name matches = elim (find_definition matches) [
  | none ↦ err (coded failed_precondition)
  | some definition ↦
      elim (apply_each (sort_events (definition ∷ outcomes_after definition matches)) []) [
        | err e ↦ err e
        | ok catalog ↦ elim (get name catalog) [
          | none ↦ err (coded internal)
          | some boundary ↦ ok boundary
        ]
      ]
]

unfoldable pub lifecycle_context : List ℕ → LatestResult → Result LifecycleContext
lifecycle_context name latest =
    if length latest.matches == length (lifecycle_criteria name)
    then elim (rebuild name latest.matches) [
      | err e ↦ err e
      | ok boundary ↦ ok (record {
        boundary = boundary;
        position = latest.context_position;
        criteria = lifecycle_criteria name;
      })
    ]
    else err (coded internal)

abbrev outcome_data : List ℕ → List ℕ → EventData
outcome_data name message = record {
  boundary = name;
  description = [];
  placement = record { backend = []; namespace = [] };
  message = message;
}

-- `BoundaryActivated{...}` and `BoundaryProvisioningFailed{...}`
abbrev pub activated_event : List ℕ → EventToAppend
activated_event name = record { event_type = type_activated; content = outcome_data name [] }

abbrev pub failed_event : List ℕ → List ℕ → EventToAppend
failed_event name message = record { event_type = type_failed; content = outcome_data name message }

-- What `appendOutcome` returns.
abbrev pub with_outcome : Boundary → EventToAppend → Position → Boundary
with_outcome boundary event position =
    if same_type event.event_type type_activated
    then record boundary { status = active; last_error = []; status_position = some position }
    else record boundary {
      status = failed;
      last_error = event.content.message;
      status_position = some position;
    }

abbrev pub has_failed : BoundaryStatus → Bool
has_failed failed = true
has_failed active = false
has_failed provisioning = false

abbrev pub is_already_exists : Code → Bool
is_already_exists already_exists = true
is_already_exists _ = false

module _ {W : Type 0} (ports : Ports W) (admin_boundary : List ℕ) where
  -- `loadContext`
  unfoldable pub load_lifecycle : List ℕ → Action W LifecycleContext
  load_lifecycle name = do
    latest ← ports.latest_by_criteria admin_boundary (lifecycle_criteria name)
    lift (lifecycle_context name latest)

  -- `appendOutcome`
  unfoldable pub append_outcome : LifecycleContext → EventToAppend → Action W Boundary
  append_outcome model event = do
    made ← make_event ports event
    position ← ports.append (record {
      boundary = admin_boundary;
      event = event;
      criteria = model.criteria;
      observed = model.position;
    })
    lift (ok (with_outcome model.boundary event position))

  -- The loop after a provisioning that succeeded. `fuel` bounds its turns.
  unfoldable pub append_activated : ℕ → List ℕ → LifecycleContext → W → Option (Result Boundary × W)
  append_activated zero name model w = none
  append_activated (suc fuel) name model w =
      let (appended, w') = append_outcome model (activated_event name) w in
      let (loaded, w'') = load_lifecycle name w' in
      let again : LifecycleContext → Option (Result Boundary × W) =
        λ next. append_activated fuel name next w'' in
      elim appended [
        | ok boundary ↦ some (ok boundary, w')
        | err e ↦ if not (is_already_exists (code_of e)) then some (err e, w') else elim loaded [
          | err e' ↦ some (err e', w'')
          | ok next ↦
              if is_active next.boundary.status
              then some (err (coded already_exists), w'')
              else again next
        ]
      ]

  -- What follows a provisioning that failed with `e`.
  unfoldable pub append_failed :
      (Error → List ℕ) → List ℕ → LifecycleContext → Error → Action W Boundary
  append_failed message_of name model e w =
      if has_failed model.boundary.status
      then (err e, w)
      else (let (r, w') = append_outcome model (failed_event name (message_of e)) w in
          elim r [
            | ok _ ↦ (err e, w')
            | err e' ↦ if is_already_exists (code_of e') then (err e, w') else (err e', w')
          ])

  -- `ProvisionBoundaryCommandHandler` once the context is loaded.
  unfoldable pub provision_loaded :
      ℕ
      → (Error → List ℕ)
      → (Definition → Action W (Unit {0}))
      → Definition
      → LifecycleContext
      → W
      → Option (Result Boundary × W)
  provision_loaded fuel message_of provision definition model w =
      if is_active model.boundary.status
      then some (err (coded already_exists), w)
      else (let (r, w') = provision definition w in
          elim r [
            | ok _ ↦ append_activated fuel definition.name model w'
            | err e ↦ some (append_failed message_of definition.name model e w')
          ])

  -- `ProvisionBoundaryCommandHandler`
  unfoldable pub provision_boundary :
      ℕ
      → (Error → List ℕ)
      → (Definition → Action W (Unit {0}))
      → Definition
      → W
      → Option (Result Boundary × W)
  provision_boundary fuel message_of provision definition w =
      elim (validate_definition definition) [
        | err e ↦ some (err e, w)
        | ok _ ↦
            if is_empty admin_boundary
            then some (err (coded internal), w)
            else (let (loaded, w') = load_lifecycle definition.name w in
                elim loaded [
                  | err e ↦ some (err e, w')
                  | ok model ↦ provision_loaded fuel message_of provision definition model w'
                ])
      ]

  -- `definitionFromEvent`
  abbrev pub provisioned_definition : StoredEvent → Result Definition
  provisioned_definition event =
      if same_type event.event_type type_created
      then elim event.content [
        | none ↦ err (coded internal)
        | some d ↦
            ok (record { name = d.boundary; description = d.description; placement = d.placement })
      ]
      else err (coded invalid_argument)

  -- `Handle` of `BoundaryProvisioningEventHandler`
  unfoldable pub handle_definition :
      ℕ
      → (Error → List ℕ)
      → (Definition → Action W (Unit {0}))
      → (List ℕ → Action W (Unit {0}))
      → StoredEvent
      → W
      → Option (Result (Unit {0}) × W)
  handle_definition fuel message_of provision ensure_global event w =
      elim (provisioned_definition event) [
        | err e ↦ some (err e, w)
        | ok definition ↦
            elim (provision_boundary fuel message_of
              (λ d. provision d >>= (λ x. ensure_global d.name)) definition w) [
                | none ↦ none
                | some (r, w') ↦ elim r [
                  | ok _ ↦ some (ok tt, w')
                  | err e ↦
                      if is_already_exists (code_of e)
                      then some (ensure_global definition.name w')
                      else some (err e, w')
                ]
              ]
      ]
