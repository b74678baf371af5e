-- ===== src/Boundaries/Query/Handled.antt =====
-- What the handler of activations exposes.
use orisun.Base.{
  ℕ, ◌<◌, ◌≡◌, refl, ap, sym, ◌∙◌, true, inl, inr, some, List, [], map, length, arith, Bool-cases,
  Option-cases,
}
use orisun.Status.{Result, ok, err, coded, internal, invalid_argument, Result-cases}
use orisun.Position.{Position, not_exists_position}
use orisun.Catalog.{Boundary, Catalog, get, apply_all, is_empty, validate_name}
use orisun.Boundaries.{
  StoredEvent, same_type, type_activated, catalog_event, EventData, Definition, Action,
}
use orisun.Boundaries.Replay.Complete.{IsReader}
use orisun.Boundaries.Query.Exposed.{
  Ascending, catalog_of, catalog_of_ok, replay_catalog_lem, Exposes, expose-Exposes,
}
use orisun.Boundaries.Query.{
  catalog_read_batch_size, replay_catalog, get_boundary, boundary_found, is_not_found, expose,
  handle_activation,
}

module _ {W : Type 0} (read : List ℕ → Position → Action W (List StoredEvent))
    (trim : List ℕ → List ℕ) (admin_boundary name : List ℕ) where
  unconfigured :
      (fuel : ℕ) (w : W)
      → is_empty admin_boundary ≡ true
      → replay_catalog read trim admin_boundary fuel name w ≡ some (err (coded internal), w)
  unfolding replay_catalog
  unconfigured fuel w h = rw (h, replay_catalog) refl

  get_found :
      (c : Catalog) (b : Boundary)
      → boundary_found read trim admin_boundary name c ≡ ok b
      → get name c ≡ some b
  get_found c b h = elim (Option-cases (get name c)) [
    | inl f ↦ ground (arith, h, f)
    | inr (b', f) ↦ ground (arith, h, f)
  ]

module _ {W : Type 0} (read : List ℕ → Position → Action W (List StoredEvent))
    (trim : List ℕ → List ℕ) (admin_boundary : List ℕ) (view : List ℕ → W → List StoredEvent)
    (reader : (n : List ℕ) → IsReader W (read n) catalog_read_batch_size (view n)) (fuel : ℕ)
    (w : W) where
  -- `GetBoundaryQueryHandler` asks the catalog of the whole log, and changes nothing.
  get_boundary_lem :
      (query : List ℕ)
      → Ascending not_exists_position (view (trim query) w)
      → length (view (trim query) w) < fuel
      → (r : Result Boundary) × (get_boundary read trim admin_boundary fuel query w ≡ some (r, w))
        × ((b : Boundary)
            → r ≡ ok b
            → get (trim query) (apply_all (map catalog_event (view (trim query) w)) []) ≡ some b)
  unfolding get_boundary
  get_boundary_lem query a f = elim (Result-cases (validate_name (trim query))) [
    | inr (e, g) ↦
        (err (coded invalid_argument), rw (g, get_boundary) refl, λ b h. ground (arith, h))
    | inl (u, g) ↦ elim (Bool-cases (is_empty admin_boundary)) [
      | inl h ↦ (
        err (coded internal),
        rw (g, unconfigured read trim admin_boundary (trim query) fuel w h, get_boundary) refl,
        λ b l. ground (arith, l),
      )
      | inr h ↦
          let all : replay_catalog read trim admin_boundary fuel (trim query) w
              ≡ some (catalog_of [] (view (trim query) w), w) =
            replay_catalog_lem read trim admin_boundary (trim query) (view (trim query))
              (reader (trim query)) fuel w a f h in
          elim (Result-cases (catalog_of [] (view (trim query) w))) [
            | inr (e, k) ↦ (err e, rw (g, all, k, get_boundary) refl, λ b l. ground (arith, l))
            | inl (c, k) ↦ (
              boundary_found read trim admin_boundary (trim query) c,
              rw (g, all, k, get_boundary) refl,
              λ b l.
                  ap (get (trim query)) (sym (catalog_of_ok [] c (view (trim query) w) k))
                  ∙ get_found read trim admin_boundary (trim query) c b l,
            )
          ]
    ]
  ]

  -- What `handle_activation` comes to for an event that names a boundary.
  abbrev pub Handled :
      (Definition → Action W (Unit {0}))
      → (List ℕ → Action W (Unit {0}))
      → StoredEvent
      → List ℕ
      → Type 0
  Handled install activate event name =
      (x : Result (Unit {0}) × W) × (handle_activation read trim admin_boundary fuel install
          activate event w
        ≡ some x)
      × Exposes read trim admin_boundary name (view name) (reader name) install activate event w x

  handle_named :
      (install : Definition → Action W (Unit {0})) (activate : List ℕ → Action W (Unit {0}))
      (event : StoredEvent) (activated : EventData)
      → event.content ≡ some activated
      → Ascending not_exists_position (view (trim activated.boundary) w)
      → length (view (trim activated.boundary) w) < fuel
      → Handled install activate event (trim activated.boundary)
  unfolding handle_activation
  handle_named install activate event activated k a f =
      elim (Bool-cases (is_empty admin_boundary)) [
        | inl h ↦ ((err (coded internal), w), rw (h, handle_activation) refl, inl refl)
        | inr h ↦ elim (Bool-cases (same_type event.event_type type_activated)) [
          | inr t ↦ ((err (coded invalid_argument), w), rw (h, t, handle_activation) refl, inl refl)
          | inl t ↦
              let (r, g, in_catalog) = get_boundary_lem activated.boundary a f in
              elim (Result-cases r) [
                | inl (b, q) ↦ (
                  expose read trim admin_boundary install activate event.position b w,
                  rw (h, t, k, g ∙ ap (λ z. some (z, w)) q, handle_activation) refl,
                  expose-Exposes read trim admin_boundary (trim activated.boundary)
                      (view (trim activated.boundary)) (reader (trim activated.boundary)) install
                      activate event w b (in_catalog b q),
                )
                | inr (e, q) ↦ elim (Bool-cases (is_not_found read trim admin_boundary e)) [
                  | inl n ↦ (
                    (ok tt, w),
                    rw (h, t, k, g ∙ ap (λ z. some (z, w)) q, n, handle_activation) refl,
                    inl refl,
                  )
                  | inr n ↦ (
                    (err e, w),
                    rw (h, t, k, g ∙ ap (λ z. some (z, w)) q, n, handle_activation) refl,
                    inl refl,
                  )
                ]
              ]
        ]
      ]

-- The handler ends: with as much fuel as there are lifecycle events of the name, and one more, and a log
-- whose positions increase. It leaves the world as it is, or installs and then activates a boundary
-- that the catalog of the whole log shows as active, at an event that does not precede its definition.
pub handle_activation-Exposes :
    {W : Type 0} (read : List ℕ → Position → Action W (List StoredEvent)) (trim : List ℕ → List ℕ)
    (admin_boundary : List ℕ) (view : List ℕ → W → List StoredEvent)
    (reader : (n : List ℕ) → IsReader W (read n) catalog_read_batch_size (view n)) (fuel : ℕ)
    (w : W) (install : Definition → Action W (Unit {0})) (activate : List ℕ → Action W (Unit {0}))
    (event : StoredEvent) (activated : EventData)
    → event.content ≡ some activated
    → Ascending not_exists_position (view (trim activated.boundary) w)
    → length (view (trim activated.boundary) w) < fuel
    → Handled read trim admin_boundary view reader fuel w install activate event
        (trim activated.boundary)
handle_activation-Exposes read trim admin_boundary view reader fuel w install activate event
      activated k a f =
    handle_named read trim admin_boundary view reader fuel w install activate event activated k a f
