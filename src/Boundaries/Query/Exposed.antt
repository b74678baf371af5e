-- ===== src/Boundaries/Query/Exposed.antt =====
-- A replay of the catalog gives the catalog of the whole log, and only boundaries that are active in it
-- are exposed.
use orisun.Base.{
  ℕ, ◌<◌, ◌≡◌, refl, ap, ◌∙◌, true, false, ◌⊎◌, inl, inr, some, List, [], ◌∷◌, map, length, arith,
  Bool-cases,
}
use orisun.Status.{Result, ok, err, Result-cases}
use orisun.Position.Order.{same_refl}
use orisun.Position.{Position, same, after, position_compare, not_exists_position}
use orisun.Catalog.{Boundary, Catalog, get, apply, apply_all, is_active, is_empty}
use orisun.Boundaries.{StoredEvent, catalog_event, Definition, Action, ◌>>=◌, lift}
use orisun.Boundaries.Replay.Page.{Chain, run_all}
use orisun.Boundaries.Replay.Complete.{IsReader, replay_start}
use orisun.Boundaries.Query.{
  catalog_read_batch_size, is_at_cursor, apply_event, replay_catalog, predates_definition, expose,
}

-- Each event is after the one before it.
abbrev pub Ascending : Position → List StoredEvent → Type 0
Ascending p [] = Unit {0}
Ascending p (e ∷ es) = (after e.position p ≡ true) × Ascending e.position es

pub after_apart : (p q : Position) → after p q ≡ true → same p q ≡ false
unfolding after position_compare
after_apart p q h = ground (arith, h)

Ascending-Chain : (p : Position) (es : List StoredEvent) → Ascending p es → Chain is_at_cursor p es
Ascending-Chain p [] a = tt
Ascending-Chain p (e ∷ es) a = (after_apart e.position p a.0, Ascending-Chain e.position es a.1)

-- The catalog of a log, unless one of its events is refused.
abbrev pub catalog_of : Catalog → List StoredEvent → Result Catalog
catalog_of c [] = ok c
catalog_of c (e ∷ es) = elim (apply_event c e) [ err x ↦ err x | ok next ↦ catalog_of next es ]

apply_event_ok :
    (c next : Catalog) (e : StoredEvent)
    → apply_event c e ≡ ok next
    → next ≡ (apply (catalog_event e) c).1.1
unfolding apply_event
apply_event_ok c next e h = elim (Result-cases (apply (catalog_event e) c).1.0) [
  | inl (u, f) ↦ elim (Bool-cases (apply (catalog_event e) c).0) [
    | inl g ↦ ground (arith, h, f, g)
    | inr g ↦ ground (arith, h, f, g)
  ]
  | inr (x, f) ↦ ground (arith, h, f)
]

pub catalog_of_ok :
    (c c' : Catalog) (es : List StoredEvent)
    → catalog_of c es ≡ ok c'
    → c' ≡ apply_all (map catalog_event es) c
catalog_of_ok c c' [] h = ground (arith, h)
catalog_of_ok c c' (e ∷ es) h = elim (Result-cases (apply_event c e)) [
  | inl (next, f) ↦
      catalog_of_ok next c' es (ground (arith, h, f))
      ∙ ap (apply_all (map catalog_event es)) (apply_event_ok c next e f)
  | inr (x, f) ↦ ground (arith, h, f)
]

module _ {W : Type 0} (read : List ℕ → Position → Action W (List StoredEvent))
    (trim : List ℕ → List ℕ) (admin_boundary name : List ℕ) (view : W → List StoredEvent)
    (reader : IsReader W (read name) catalog_read_batch_size view) where
  run_all-catalog_of :
      (c : Catalog) (es : List StoredEvent) (w : W)
      → run_all (λ c' e. lift (apply_event c' e)) c es w ≡ (catalog_of c es, w)
  run_all-catalog_of c [] w = refl
  run_all-catalog_of c (e ∷ es) w = elim (Result-cases (apply_event c e)) [
    | inl (next, f) ↦ rw (f, catalog_of) (run_all-catalog_of next es w)
    | inr (x, f) ↦ rw (f, catalog_of) refl
  ]

  pub replay_catalog_lem :
      (fuel : ℕ) (w : W)
      → Ascending not_exists_position (view w)
      → length (view w) < fuel
      → is_empty admin_boundary ≡ false
      → replay_catalog read trim admin_boundary fuel name w ≡ some (catalog_of [] (view w), w)
  unfolding replay_catalog
  replay_catalog_lem fuel w a f n =
      rw (n, replay_catalog)
        (replay_start W Catalog (read name) 998 is_at_cursor (λ c e. lift (apply_event c e)) view
            reader (λ s e w'. refl) (λ e. same_refl e.position) fuel (view w) [] w refl
            (Ascending-Chain not_exists_position (view w) a) f
          ∙ ap some (run_all-catalog_of [] (view w) w))

  -- What a handler of activations does: nothing, or it installs and activates a boundary that is active
  -- in the catalog of the whole log, at an event that does not precede its definition.
  abbrev pub Exposes :
      (Definition → Action W (Unit {0}))
      → (List ℕ → Action W (Unit {0}))
      → StoredEvent
      → W
      → Result (Unit {0}) × W
      → Type 0
  Exposes install activate event w x =
      (x.1 ≡ w)
      ⊎ ((boundary : Boundary) × (get name (apply_all (map catalog_event (view w)) [])
            ≡ some boundary)
          × (is_active boundary.status ≡ true)
          × (predates_definition read trim admin_boundary event.position
                boundary.definition_position
              ≡ false)
          × (x
              ≡ (install (record {
                name = boundary.name;
                description = boundary.description;
                placement = boundary.placement;
              })
                    >>= (λ installed. activate boundary.name))
                  w))

  module _ (install : Definition → Action W (Unit {0})) (activate : List ℕ → Action W (Unit {0}))
      (event : StoredEvent) (w : W) where
    pub expose-Exposes :
        (boundary : Boundary)
        → get name (apply_all (map catalog_event (view w)) []) ≡ some boundary
        → Exposes install activate event w
            (expose read trim admin_boundary install activate event.position boundary w)
    unfolding expose
    expose-Exposes boundary g =
        elim (Bool-cases (
          predates_definition read trim admin_boundary event.position
            boundary.definition_position)) [
              | inl p ↦ rw (p, expose) (inl refl)
              | inr p ↦ elim (Bool-cases (is_active boundary.status)) [
                | inl a ↦ rw (p, a, expose) (inr (boundary, g, a, p, refl))
                | inr a ↦ rw (p, a, expose) (inl refl)
              ]
            ]

-- With fuel for one page more than there are events in the lifecycle log of a name, and positions that
-- increase, the catalog that is replayed page by page is the one of the whole log, or the error of its
-- first event that is refused.
pub replay_catalog-catalog_of :
    {W : Type 0} (read : List ℕ → Position → Action W (List StoredEvent)) (trim : List ℕ → List ℕ)
    (admin_boundary name : List ℕ) (view : W → List StoredEvent)
    (reader : IsReader W (read name) catalog_read_batch_size view) (fuel : ℕ) (w : W)
    → Ascending not_exists_position (view w)
    → length (view w) < fuel
    → is_empty admin_boundary ≡ false
    → (replay_catalog read trim admin_boundary fuel name w ≡ some (catalog_of [] (view w), w))
      × ((c : Catalog)
          → catalog_of [] (view w) ≡ ok c
          → c ≡ apply_all (map catalog_event (view w)) [])
replay_catalog-catalog_of read trim admin_boundary name view reader fuel w a f n = (
  replay_catalog_lem read trim admin_boundary name view reader fuel w a f n,
  λ c h. catalog_of_ok [] c (view w) h,
)
