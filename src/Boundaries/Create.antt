-- ===== src/Boundaries/Create.antt =====
-- admin/slices/create_boundary: the command that appends the definition of a boundary, and the
-- bootstrap of the admin boundary. `strings.TrimSpace` and `strings.EqualFold` are parameters.
pub mod Unique
use orisun.Base.{
  ℕ, ◌≡◌, Bool, true, false, ◌&&◌, Option, none, some, List, [], ◌∷◌, ◌==◌, length, codes_eq,
  if◌then◌else◌,
}
use orisun.Status.{Result, ok, err, Error, coded, uncoded, internal, already_exists, code_of, Code}
use orisun.Position.{Position}
use orisun.Catalog.{Placement, Boundary, provisioning, is_empty}
use orisun.Boundaries.{
  EventType, type_created, EventData, EventToAppend, StoredEvent, LifecycleCriterion, LatestResult,
  AppendRequest, Definition, Action, Ports, make_event, ◌>>=◌, lift, validate_definition, same_type,
}

-- `CreateBoundaryCommand`, and `commandContext`.
pub record CommandContext : Type 0 where
  pub existing : Option StoredEvent
  pub position : Position
  pub criteria : List LifecycleCriterion

abbrev pub definition_criteria : List ℕ → List LifecycleCriterion
definition_criteria name = record { boundary = name; event_type = type_created } ∷ []

-- The loop of `loadContext`.
abbrev pub find_existing :
    Option StoredEvent → List (Option StoredEvent) → Result (Option StoredEvent)
find_existing existing [] = ok existing
find_existing existing (none ∷ matches) = find_existing existing matches
find_existing none (some event ∷ matches) = find_existing (some event) matches
find_existing (some e) (some event ∷ matches) = err (coded internal)

-- `loadContext` after its read.
unfoldable pub context_of : List LifecycleCriterion → LatestResult → Result CommandContext
context_of criteria latest =
    if length latest.matches == length criteria
    then elim (find_existing none latest.matches) [
      | ok existing ↦
          ok (record {
            existing = existing;
            position = latest.context_position;
            criteria = criteria;
          })
      | err e ↦ err e
    ]
    else err (coded internal)

-- `eventData(BoundaryCreated{...})`
abbrev pub created_event : Definition → EventToAppend
created_event d = record {
  event_type = type_created;
  content = record {
    boundary = d.name;
    description = d.description;
    placement = d.placement;
    message = [];
  };
}

abbrev pub created_boundary : Definition → Position → Boundary
created_boundary d p = record {
  name = d.name;
  description = d.description;
  placement = d.placement;
  status = provisioning;
  last_error = [];
  definition_position = some p;
  status_position = some p;
}

abbrev pub is_same_placement :
    (List ℕ → List ℕ) → (List ℕ → List ℕ → Bool) → Placement → Placement → Bool
is_same_placement trim equal_fold left right =
    equal_fold (trim left.backend) (trim right.backend)
    && codes_eq (trim left.namespace) (trim right.namespace)

module _ {W : Type 0} (ports : Ports W) (trim : List ℕ → List ℕ) (admin_boundary : List ℕ) where
  -- `normalize`
  unfoldable pub normalize : Definition → Result Definition
  unfolding validate_definition
  normalize command =
      let definition : Definition = record {
        name = trim command.name;
        description = trim command.description;
        placement = record {
          backend = trim command.placement.backend;
          namespace = trim command.placement.namespace;
        };
      } in
      elim (validate_definition definition) [ ok _ ↦ ok definition | err e ↦ err e ]

  -- `loadContext`
  unfoldable pub load_context : List ℕ → Action W CommandContext
  load_context name = do
    latest ← ports.latest_by_criteria admin_boundary (definition_criteria name)
    lift (context_of (definition_criteria name) latest)

  -- What follows `loadContext` in `CreateBoundaryCommandHandler`.
  unfoldable pub append_definition : Definition → CommandContext → Action W Boundary
  append_definition definition model = elim model.existing [
    | some event ↦ lift (err (coded already_exists))
    | none ↦ do
      made ← make_event ports (created_event definition)
      position ← ports.append (record {
        boundary = admin_boundary;
        event = created_event definition;
        criteria = model.criteria;
        observed = model.position;
      })
      lift (ok (created_boundary definition position))
  ]

  -- `CreateBoundaryCommandHandler`
  unfoldable pub create_boundary : Definition → Action W Boundary
  unfolding normalize load_context append_definition
  create_boundary command = do
    definition ← lift (normalize command)
    configured ← lift (if is_empty admin_boundary then err (coded internal) else ok tt)
    model ← load_context definition.name
    append_definition definition model

  -- `definitionFromEvent`
  abbrev pub definition_from_event : StoredEvent → Result Definition
  definition_from_event event =
      if same_type event.event_type type_created
      then elim event.content [
        | none ↦ err uncoded
        | some d ↦
            ok (record { name = d.boundary; description = d.description; placement = d.placement })
      ]
      else err uncoded

  -- `verifyBootstrapDefinition` after `loadContext`.
  abbrev pub verify_existing :
      (List ℕ → List ℕ → Bool) → Definition → Option StoredEvent → Result (Unit {0})
  verify_existing equal_fold expected none = err uncoded
  verify_existing equal_fold expected (some event) = elim (definition_from_event event) [
    | err e ↦ err e
    | ok actual ↦
        if is_same_placement trim equal_fold actual.placement expected.placement
        then ok tt
        else err uncoded
  ]

  -- `verifyBootstrapDefinition`
  unfoldable pub verify_bootstrap_definition :
      (List ℕ → List ℕ → Bool) → Definition → Action W (Unit {0})
  unfolding load_context
  verify_bootstrap_definition equal_fold expected = do
    model ← load_context expected.name
    lift (verify_existing equal_fold expected model.existing)

  -- `EnsureBootstrapBoundary`: whether it created the definition.
  unfoldable pub ensure_bootstrap_boundary : (List ℕ → List ℕ → Bool) → Definition → Action W Bool
  unfolding create_boundary verify_bootstrap_definition code_of
  ensure_bootstrap_boundary equal_fold definition w =
      let (r, w') = create_boundary definition w in
      elim r [
        | ok b ↦ (ok true, w')
        | err e ↦ elim (code_of e) [
          | already_exists ↦
              (do verified ← verify_bootstrap_definition equal_fold definition; lift (ok false)) w'
          | _ ↦ (err e, w')
        ]
      ]
