-- ===== src/Boundaries/Create/Unique.antt =====
-- CreateBoundaryCommandHandler defines a name once, whatever other writers do meanwhile.
use orisun.Base.{
  ◌⊎◌, ℕ, ◌≡◌, ◌≢◌, refl, sym, ◌∙◌, Bool, false, inl, inr, none, some, List, [], ◌∷◌, ◌++◌, any,
  All, arith, Option-cases, Bool-cases, if◌then◌else◌,
}
use orisun.Status.{code_of, Result, ok, err, coded, internal}
use orisun.Position.{Position, not_exists_position}
use orisun.Catalog.{Boundary, is_empty}
use orisun.Boundaries.{
  StoredEvent, stored_at, LifecycleCriterion, AppendRequest, Definition, Ports, make_event, ◌>>=◌,
  lift, type_created,
}
use orisun.Boundaries.Context.{last_match-none, last_match_All}
use orisun.Boundaries.Provision.{is_already_exists}
use orisun.Boundaries.Logic.{
  Ensures, bind-Ensures, make_event-Ensures, lift-Ensures, Ensures-weaken, satisfies, last_match,
  matches_any, context_position, latest_of, IsStored, IsStore,
}
use orisun.Boundaries.Create.{
  CommandContext, definition_criteria, context_of, created_event, created_boundary, normalize,
  load_context, append_definition, create_boundary,
}

-- Where the position of a context stands for none, no event is in the context.
pub context_position_none :
    (criteria : List LifecycleCriterion) (log : List StoredEvent)
    → All (λ e. e.position ≢ not_exists_position) log
    → context_position criteria log ≡ not_exists_position
    → any (matches_any criteria) log ≡ false
context_position_none criteria log q h =
    elim (Option-cases (last_match (matches_any criteria) log)) [
      | inl f ↦ last_match-none (matches_any criteria) log f
      | inr (e, f) ↦
          let apart : e.position ≢ not_exists_position =
            last_match_All (λ e. e.position ≢ not_exists_position) (matches_any criteria) log e q
              f in
          elim (apart (ground (arith, h, f))) [ ]
    ]

All-append-left :
    (Q : StoredEvent → Type 0) (xs ys : List StoredEvent) → All Q (xs ++ ys) → All Q xs
All-append-left Q [] ys h = tt
All-append-left Q (x ∷ xs) ys h = (h.0, All-append-left Q xs ys h.1)

-- The context that a command starts from.
abbrev IsContext : List ℕ → List StoredEvent → CommandContext → Type 0
IsContext name log model =
    (model.criteria ≡ definition_criteria name)
    × (model.position ≡ context_position (definition_criteria name) log)
    × (model.existing
        ≡ last_match (λ e. satisfies e (record { boundary = name; event_type = type_created })) log)

-- The event `e` defines the boundary `name`.
abbrev pub defines : List ℕ → StoredEvent → Bool
defines name e = satisfies e (record { boundary = name; event_type = type_created })

context_of-IsContext :
    (name : List ℕ) (es : List StoredEvent)
    → (model : CommandContext) × (context_of
          (definition_criteria name)
          (latest_of (definition_criteria name) es)
        ≡ ok model)
      × IsContext name es model
unfolding context_of
context_of-IsContext name es = elim (Option-cases (last_match (defines name) es)) [
  | inl f ↦ (
    record {
      existing = none;
      position = context_position (definition_criteria name) es;
      criteria = definition_criteria name;
    },
    rw f refl,
    (refl, refl, sym f),
  )
  | inr (e, f) ↦ (
    record {
      existing = some e;
      position = context_position (definition_criteria name) es;
      criteria = definition_criteria name;
    },
    rw f refl,
    (refl, refl, sym f),
  )
]

any-matches_any :
    (name : List ℕ) (es : List StoredEvent)
    → any (matches_any (definition_criteria name)) es ≡ any (defines name) es
any-matches_any name [] = refl
any-matches_any name (e ∷ es) = ground (arith, any-matches_any name es)

last_match-matches_any :
    (name : List ℕ) (es : List StoredEvent)
    → last_match (matches_any (definition_criteria name)) es ≡ last_match (defines name) es
last_match-matches_any name [] = refl
last_match-matches_any name (e ∷ es) = elim (Bool-cases (defines name e)) [
  | inl f ↦ ground (arith, f, last_match-matches_any name es)
  | inr f ↦ ground (arith, f, last_match-matches_any name es)
]

module _ {W : Type 0} (ports : Ports W) (log : W → List StoredEvent) (Others : W → W → Type 0)
    (store : IsStore W ports log Others) (trim : List ℕ → List ℕ) (admin_boundary : List ℕ) where
  load_context-IsContext :
      (name : List ℕ) (w : W)
      → Ensures
          (λ model w'. Others w w' × IsContext name (log w') model)
          (λ e w'. Others w w')
          (load_context ports trim admin_boundary name w)
  unfolding load_context
  load_context-IsContext name w =
      bind-Ensures _ _ (λ r w'. Others w w' × (r ≡ latest_of (definition_criteria name) (log w')))
        (λ e w'. Others w w') (ports.latest_by_criteria admin_boundary (definition_criteria name))
        (λ latest. lift (context_of (definition_criteria name) latest)) w
        (store.reads admin_boundary (definition_criteria name) w) (λ e w' h. h)
        (λ r w' h. let (model, e, c) = context_of-IsContext name (log w') in rw (h.1, e) (h.0, c))

  -- What the world is after a definition was appended to it.
  abbrev pub IsCreated : Definition → W → Boundary → W → Type 0
  IsCreated d w boundary w' =
      (mid : W) × (p : Position) × Others w mid
      × (any (defines d.name) (log mid) ≡ false)
      × (log w' ≡ log mid ++ stored_at (created_event d) p ∷ [])
      × (boundary ≡ created_boundary d p)

  -- The append of the definition `d`.
  abbrev request : Definition → CommandContext → AppendRequest
  request d model = record {
    boundary = admin_boundary;
    event = created_event d;
    criteria = model.criteria;
    observed = model.position;
  }

  -- A command that failed has appended nothing, or the reply of its append was lost.
  abbrev MayBeCreated : Definition → W → W → Type 0
  MayBeCreated d w w' = Others w w' ⊎ ((b : Boundary) × IsCreated d w b w')

  unseen :
      (d : Definition) (model : CommandContext) (w mid : W)
      → IsContext d.name (log w) model
      → model.existing ≡ none
      → context_position model.criteria (log mid) ≡ model.position
      → any (defines d.name) (log mid) ≡ false
  unseen d model w mid c f e =
      let none_then : last_match (matches_any (definition_criteria d.name)) (log w) ≡ none =
        last_match-matches_any d.name (log w) ∙ sym c.2 ∙ f in
      let at_none : context_position (definition_criteria d.name) (log mid) ≡ not_exists_position =
        ground (arith, e, c, none_then) in
      sym (any-matches_any d.name (log mid))
      ∙ context_position_none (definition_criteria d.name) (log mid) (store.positioned mid) at_none

  stored-IsCreated :
      (d : Definition) (model : CommandContext) (u w v : W) (p : Position) (v' : W)
      → IsContext d.name (log w) model
      → model.existing ≡ none
      → Others u v
      → IsStored log Others (request d model) v p v'
      → IsCreated d u (created_boundary d p) v'
  stored-IsCreated d model u w v p v' c f o (mid, o', e, l) =
      (mid, p, store.in_turn u v mid o o', unseen d model w mid c f e, l, refl)

  append_then :
      (d : Definition) (model : CommandContext) (u w v : W)
      → IsContext d.name (log w) model
      → model.existing ≡ none
      → Others u v
      → Ensures
          (IsCreated d u)
          (λ e w'. MayBeCreated d u w')
          ((ports.append (request d model) >>= (λ p. lift (ok (created_boundary d p)))) v)
  append_then d model u w v c f o =
      bind-Ensures _ _ (IsStored log Others (request d model) v)
        (λ e v'.
          Others v v'
          ⊎ ((is_already_exists (code_of e) ≡ false)
              × (p : Position) × IsStored log Others (request d model) v p v'))
        (ports.append (request d model)) (λ p. lift (ok (created_boundary d p))) v
        (store.appends (request d model) v)
        (λ e v' l. elim l [
          | inl k ↦ inl (store.in_turn u v v' o k)
          | inr (q, p, s) ↦ inr (created_boundary d p, stored-IsCreated d model u w v p v' c f o s)
        ])
        (λ p v' s. stored-IsCreated d model u w v p v' c f o s)

  append_definition-IsCreated :
      (d : Definition) (model : CommandContext) (u w : W)
      → Others u w
      → IsContext d.name (log w) model
      → Ensures
          (IsCreated d u)
          (λ e w'. MayBeCreated d u w')
          (append_definition ports trim admin_boundary d model w)
  unfolding append_definition
  append_definition-IsCreated d model u w o c = elim (Option-cases model.existing) [
    | inr (e, f) ↦ rw f (inl o)
    | inl f ↦ rw f (
        bind-Ensures (IsCreated d u) (λ e w'. MayBeCreated d u w') (λ x v. Others w v)
          (λ e v. Others w v) (make_event ports (created_event d))
          (λ made. ports.append (request d model) >>= (λ p. lift (ok (created_boundary d p)))) w
          (make_event-Ensures store (created_event d) w) (λ e v k. inl (store.in_turn u w v o k))
          (λ x v k. append_then d model u w v c f (store.in_turn u w v o k)))
  ]

  after_context :
      (d : Definition) (w : W)
      → Ensures
          (IsCreated d w)
          (λ e w'. MayBeCreated d w w')
          ((load_context ports trim admin_boundary d.name
              >>= append_definition ports trim admin_boundary d)
            w)
  after_context d w =
      bind-Ensures _ _ (λ model w'. Others w w' × IsContext d.name (log w') model)
        (λ e w'. Others w w') (load_context ports trim admin_boundary d.name)
        (append_definition ports trim admin_boundary d) w (load_context-IsContext d.name w)
        (λ e w' o. inl o) (λ model w' (o, c). append_definition-IsCreated d model w w' o c)

  abbrev pub CreatedFrom : Definition → W → Boundary → W → Type 0
  CreatedFrom command w boundary w' =
      (d : Definition) × (normalize ports trim admin_boundary command ≡ ok d)
      × IsCreated d w boundary w'

  -- What `create_boundary` makes of a command. Where it fails, the world is what others made of it, or
  -- the definition was appended all the same.
  abbrev pub Creates : Definition → W → Result Boundary × W → Type 0
  Creates command w x =
      Ensures (CreatedFrom command w)
        (λ e w'. Others w w' ⊎ ((b : Boundary) × CreatedFrom command w b w')) x

  configured-Creates :
      (command d : Definition) (w : W)
      → normalize ports trim admin_boundary command ≡ ok d
      → Creates command w (
          (lift (if is_empty admin_boundary then err (coded internal) else ok tt) >>= (λ x.
              load_context ports trim admin_boundary d.name
              >>= append_definition ports trim admin_boundary d))
            w)
  configured-Creates command d w n =
      lift-Ensures _ _ (if is_empty admin_boundary then err (coded internal) else ok tt)
        (λ x.
          load_context ports trim admin_boundary d.name
          >>= append_definition ports trim admin_boundary d)
        w (λ e. inl (store.nothing w))
        (λ x e.
          Ensures-weaken {P = IsCreated d w} {Q = CreatedFrom command w}
            {D = λ e' v. MayBeCreated d w v}
            {E = λ e' v. Others w v ⊎ ((b : Boundary) × CreatedFrom command w b v)} _
            (λ b v c. (d, n, c))
            (λ e' v o. elim o [ inl k ↦ inl k | inr (b, c) ↦ inr (b, (d, n, c)) ])
            (after_context d w))

-- A command that creates a boundary is well formed once trimmed, the log that its definition was
-- appended to had no definition of that name, and the boundary is the one defined, at the position of
-- that event. A command that fails has appended nothing, or, when the reply of its append was lost, that
-- one definition, under the same conditions. In every case other writers may append between the calls of
-- the command.
pub create_boundary-Creates :
    {W : Type 0} (ports : Ports W) (log : W → List StoredEvent) (Others : W → W → Type 0)
    (store : IsStore W ports log Others) (trim : List ℕ → List ℕ) (admin_boundary : List ℕ)
    (command : Definition) (w : W)
    → Creates ports log Others store trim admin_boundary command w
        (create_boundary ports trim admin_boundary command w)
unfolding create_boundary
create_boundary-Creates ports log Others store trim admin_boundary command w =
    lift-Ensures _ _ (normalize ports trim admin_boundary command)
      (λ d. lift (if is_empty admin_boundary then err (coded internal) else ok tt) >>= (λ x.
        load_context ports trim admin_boundary d.name
        >>= append_definition ports trim admin_boundary d))
      w (λ e. inl (store.nothing w))
      (λ d n. configured-Creates ports log Others store trim admin_boundary command d w n)
