-- ===== src/Boundaries/Provision/Outcome.antt =====
-- What ProvisionBoundaryCommandHandler appends, and in which state of the boundary.
use orisun.Base.{
  ℕ, zero, suc, ◌≡◌, ◌≢◌, refl, ap, sym, ◌∙◌, subst, false, ◌⊎◌, inl, inr, Option, none, some, List,
  [], ◌∷◌, ◌++◌, All, Bool-cases, true, arith,
}
use orisun.Status.{Result, ok, err, Error, code_of, Result-cases}
use orisun.Position.{Position, not_exists_position}
use orisun.Catalog.{Boundary, is_active}
use orisun.Boundaries.{
  EventToAppend, StoredEvent, stored_at, AppendRequest, Ports, make_event, ◌>>=◌, lift,
}
use orisun.Boundaries.Logic.{
  Ensures, bind-Ensures, make_event-Ensures, Ensures-ok, Ensures-err, context_position, latest_of,
  IsStored, IsStore,
}
use orisun.Boundaries.Context.{latest_of_unchanged}
use orisun.Boundaries.Provision.{
  LifecycleContext, lifecycle_criteria, rebuild, lifecycle_context, activated_event, failed_event,
  with_outcome, has_failed, is_already_exists, load_lifecycle, append_outcome, append_activated,
  append_failed,
}

-- `Ensures` where the code may still be running.
abbrev pub EnsuresSome :
    {W A : Type 0} → (A → W → Type 0) → (Error → W → Type 0) → Option (Result A × W) → Type 0
EnsuresSome P E none = Unit {0}
EnsuresSome P E (some x) = Ensures P E x

-- The boundary as it is rebuilt from a log.
abbrev pub rebuilt : List ℕ → List StoredEvent → Result Boundary
rebuilt name es = rebuild name (latest_of (lifecycle_criteria name) es).matches

-- The context that was loaded from a log.
abbrev pub IsLoaded : List ℕ → List StoredEvent → LifecycleContext → Type 0
IsLoaded name es model =
    (model.criteria ≡ lifecycle_criteria name)
    × (model.position ≡ context_position (lifecycle_criteria name) es)
    × (rebuilt name es ≡ ok model.boundary)

All-append-right :
    (Q : StoredEvent → Type 0) (xs ys : List StoredEvent) → All Q (xs ++ ys) → All Q ys
All-append-right Q [] ys h = h
All-append-right Q (x ∷ xs) ys h = All-append-right Q xs ys h.1

lifecycle_context-IsLoaded :
    (name : List ℕ) (es : List StoredEvent)
    → ((model : LifecycleContext) × (lifecycle_context name (latest_of (lifecycle_criteria name) es)
          ≡ ok model)
        × IsLoaded name es model)
      ⊎ ((e : Error) × (lifecycle_context name (latest_of (lifecycle_criteria name) es) ≡ err e))
unfolding lifecycle_context
lifecycle_context-IsLoaded name es = elim (Result-cases (rebuilt name es)) [
  | inl (b, f) ↦ inl (
    record {
      boundary = b;
      position = context_position (lifecycle_criteria name) es;
      criteria = lifecycle_criteria name;
    },
    rw f refl,
    (refl, refl, f),
  )
  | inr (e, f) ↦ inr (e, rw f refl)
]

module _ (W : Type 0) (ports : Ports W) (log : W → List StoredEvent) (Others : W → W → Type 0)
    (store : IsStore W ports log Others) (admin_boundary : List ℕ) where
  pub load_lifecycle-IsLoaded :
      (name : List ℕ) (w : W)
      → Ensures
          (λ model w'. Others w w' × IsLoaded name (log w') model)
          (λ e w'. Others w w')
          (load_lifecycle ports admin_boundary name w)
  unfolding load_lifecycle
  load_lifecycle-IsLoaded name w =
      bind-Ensures _ _ (λ r w'. Others w w' × (r ≡ latest_of (lifecycle_criteria name) (log w')))
        (λ e w'. Others w w') (ports.latest_by_criteria admin_boundary (lifecycle_criteria name))
        (λ latest. lift (lifecycle_context name latest)) w
        (store.reads admin_boundary (lifecycle_criteria name) w) (λ e w' h. h)
        (λ r w' h. elim (lifecycle_context-IsLoaded name (log w')) [
          | inl (model, e, c) ↦ rw (h.1, e) (h.0, c)
          | inr (x, e) ↦ rw (h.1, e) h.0
        ])

  -- The request of `appendOutcome`.
  abbrev request : LifecycleContext → EventToAppend → AppendRequest
  request model event = record {
    boundary = admin_boundary;
    event = event;
    criteria = model.criteria;
    observed = model.position;
  }

  -- The boundary `before` is what the log shows when the event is appended to it.
  abbrev pub IsAppended : List ℕ → Boundary → EventToAppend → W → Boundary → W → Type 0
  IsAppended name before event w boundary w' =
      (mid : W) × (p : Position) × Others w mid
      × (rebuilt name (log mid) ≡ ok before)
      × (log w' ≡ log mid ++ stored_at event p ∷ [])
      × (boundary ≡ with_outcome before event p)

  unchanged :
      (name : List ℕ) (model : LifecycleContext) (u mid : W)
      → IsLoaded name (log u) model
      → Others u mid
      → context_position model.criteria (log mid) ≡ model.position
      → rebuilt name (log mid) ≡ ok model.boundary
  unchanged name model u mid c o e =
      let (more, grown, fresh) = store.grows u mid o in
      let positioned : All (λ y. y.position ≢ not_exists_position) more =
        All-append-right (λ y. y.position ≢ not_exists_position) (log u) more
          (subst (λ es. All (λ y. y.position ≢ not_exists_position) es) grown
            (store.positioned mid)) in
      let same : context_position (lifecycle_criteria name) (log u ++ more)
          ≡ context_position (lifecycle_criteria name) (log u) =
        ap (context_position (lifecycle_criteria name)) (sym grown)
        ∙ ap (λ cs. context_position cs (log mid)) (sym c.0)
        ∙ e
        ∙ c.1 in
      ap (rebuilt name) grown
      ∙ ap (λ r. rebuild name r.matches)
          (latest_of_unchanged (lifecycle_criteria name) (log u) more fresh positioned same)
      ∙ c.2

  -- An append that failed has stored nothing, or its reply was lost.
  abbrev MayBeAppended : List ℕ → Boundary → EventToAppend → W → Error → W → Type 0
  MayBeAppended name before event w e w' =
      Others w w'
      ⊎ ((is_already_exists (code_of e) ≡ false)
          × (b : Boundary) × IsAppended name before event w b w')

  -- After a conflict, nothing was stored.
  refused :
      (name : List ℕ) (before : Boundary) (event : EventToAppend) (w : W) (e : Error) (w' : W)
      → is_already_exists (code_of e) ≡ true
      → MayBeAppended name before event w e w'
      → Others w w'
  refused name before event w e w' q (inl o) = o
  refused name before event w e w' q (inr (n, b, r)) = ground (arith, q, n)

  stored-IsAppended :
      (name : List ℕ) (model : LifecycleContext) (event : EventToAppend) (u w v : W) (p : Position)
      (v' : W)
      → IsLoaded name (log u) model
      → Others u w
      → Others w v
      → IsStored log Others (request model event) v p v'
      → IsAppended name model.boundary event w (with_outcome model.boundary event p) v'
  stored-IsAppended name model event u w v p v' c o k (mid, o', e, l) =
      let w_mid : Others w mid = store.in_turn w v mid k o' in
      (mid, p, w_mid, unchanged name model u mid c (store.in_turn u w mid o w_mid) e, l, refl)

  append_then :
      (name : List ℕ) (model : LifecycleContext) (event : EventToAppend) (u w v : W)
      → IsLoaded name (log u) model
      → Others u w
      → Others w v
      → Ensures
          (IsAppended name model.boundary event w)
          (MayBeAppended name model.boundary event w)
          ((ports.append (request model event)
              >>= (λ p. lift (ok (with_outcome model.boundary event p))))
            v)
  append_then name model event u w v c o k =
      bind-Ensures (IsAppended name model.boundary event w)
        (MayBeAppended name model.boundary event w)
        (λ p v'. IsStored log Others (request model event) v p v')
        (λ e v'.
          Others v v'
          ⊎ ((is_already_exists (code_of e) ≡ false)
              × (p : Position) × IsStored log Others (request model event) v p v'))
        (ports.append (request model event)) (λ p. lift (ok (with_outcome model.boundary event p)))
        v (store.appends (request model event) v)
        (λ e v' l. elim l [
          | inl i ↦ inl (store.in_turn w v v' k i)
          | inr (q, p, s) ↦ inr (
            q,
            with_outcome model.boundary event p,
            stored-IsAppended name model event u w v p v' c o k s,
          )
        ])
        (λ p v' s. stored-IsAppended name model event u w v p v' c o k s)

  append_outcome-IsAppended :
      (name : List ℕ) (model : LifecycleContext) (event : EventToAppend) (u w : W)
      → IsLoaded name (log u) model
      → Others u w
      → Ensures
          (IsAppended name model.boundary event w)
          (MayBeAppended name model.boundary event w)
          (append_outcome ports admin_boundary model event w)
  unfolding append_outcome
  append_outcome-IsAppended name model event u w c o =
      bind-Ensures (IsAppended name model.boundary event w)
        (MayBeAppended name model.boundary event w) (λ x v. Others w v) (λ e v. Others w v)
        (make_event ports event)
        (λ made.
          ports.append (request model event)
          >>= (λ p. lift (ok (with_outcome model.boundary event p))))
        w (make_event-Ensures store event w) (λ e v k. inl k)
        (λ x v k. append_then name model event u w v c o k)

  -- An outcome is appended to a log that shows the boundary, not yet active.
  abbrev pub AppendsOutcome : List ℕ → EventToAppend → W → Boundary → W → Type 0
  AppendsOutcome name event w boundary w' =
      (before : Boundary) × (is_active before.status ≡ false)
      × IsAppended name before event w boundary w'

  abbrev pub MayBeOutcome : List ℕ → EventToAppend → W → Error → W → Type 0
  MayBeOutcome name event w e w' =
      Others w w'
      ⊎ ((is_already_exists (code_of e) ≡ false)
          × (b : Boundary) × AppendsOutcome name event w b w')

  outcome_of :
      (name : List ℕ) (model : LifecycleContext) (event : EventToAppend) (w : W) (e : Error)
      (w' : W)
      → is_active model.boundary.status ≡ false
      → MayBeAppended name model.boundary event w e w'
      → MayBeOutcome name event w e w'
  outcome_of name model event w e w' a (inl o) = inl o
  outcome_of name model event w e w' a (inr (q, b, h)) = inr (q, b, (model.boundary, a, h))

  from_earlier :
      (name : List ℕ) (event : EventToAppend) (w v : W) (x : Option (Result Boundary × W))
      → Others w v
      → EnsuresSome (AppendsOutcome name event v) (MayBeOutcome name event v) x
      → EnsuresSome (AppendsOutcome name event w) (MayBeOutcome name event w) x
  from_earlier name event w v none o h = tt
  from_earlier name event w v (some (ok b, w')) o (before, a, (mid, p, k, r, l, e)) =
      (before, a, (mid, p, store.in_turn w v mid o k, r, l, e))
  from_earlier name event w v (some (err e, w')) o (inl h) = inl (store.in_turn w v w' o h)
  from_earlier name event w v (some (err e, w')) o (inr (q, b, (before, a, (mid, p, k, r, l, f)))) =
      inr (q, b, (before, a, (mid, p, store.in_turn w v mid o k, r, l, f)))

  pub append_activated-AppendsOutcome :
      (fuel : ℕ) (name : List ℕ) (model : LifecycleContext) (u w : W)
      → IsLoaded name (log u) model
      → is_active model.boundary.status ≡ false
      → Others u w
      → EnsuresSome
          (AppendsOutcome name (activated_event name) w)
          (MayBeOutcome name (activated_event name) w)
          (append_activated ports admin_boundary fuel name model w)
  unfolding append_activated
  append_activated-AppendsOutcome zero name model u w c a o = tt
  append_activated-AppendsOutcome (suc fuel) name model u w c a o =
      let x : Result Boundary × W =
        append_outcome ports admin_boundary model (activated_event name) w in
      let h : Ensures (IsAppended name model.boundary (activated_event name) w)
          (MayBeAppended name model.boundary (activated_event name) w) x =
        append_outcome-IsAppended name model (activated_event name) u w c o in
      elim (Result-cases (append_outcome ports admin_boundary model (activated_event name) w).0) [
        | inl (b, e) ↦ rw (e, append_activated) (model.boundary, a, Ensures-ok _ _ x b e h)
        | inr (e, f) ↦
            let failed_at : MayBeAppended name model.boundary (activated_event name) w e x.1 =
              Ensures-err _ _ x e f h in
            let y : Result LifecycleContext × W = load_lifecycle ports admin_boundary name x.1 in
            let k : Ensures (λ next v. Others x.1 v × IsLoaded name (log v) next)
                (λ e' v. Others x.1 v) y =
              load_lifecycle-IsLoaded name x.1 in
            elim (Bool-cases (is_already_exists (code_of e))) [
              | inr q ↦
                  rw (f, q, append_activated)
                    (outcome_of name model (activated_event name) w e x.1 a failed_at)
              | inl q ↦
                  let nothing_at : Others w x.1 =
                    refused name model.boundary (activated_event name) w e x.1 q failed_at in
                  elim (Result-cases
                    (load_lifecycle ports admin_boundary name
                      (append_outcome ports admin_boundary model (activated_event name) w).1).0) [
                        | inr (e', g) ↦
                            rw (f, q, g, append_activated)
                              (inl (store.in_turn w x.1 y.1 nothing_at (Ensures-err _ _ y e' g k)))
                        | inl (next, g) ↦
                            let loaded_at : Others x.1 y.1 × IsLoaded name (log y.1) next =
                              Ensures-ok _ _ y next g k in
                            let w_y : Others w y.1 =
                              store.in_turn w x.1 y.1 nothing_at loaded_at.0 in
                            elim (Bool-cases (is_active next.boundary.status)) [
                              | inl b ↦ rw (f, q, g, b, append_activated) (inl w_y)
                              | inr b ↦
                                  rw (f, q, g, b, append_activated)
                                    (from_earlier name (activated_event name) w y.1 _ w_y (
                                      append_activated-AppendsOutcome fuel name next y.1 y.1
                                        loaded_at.1 b (store.nothing y.1)))
                            ]
                      ]
            ]
      ]

  pub append_failed-AppendsOutcome :
      (message_of : Error → List ℕ) (name : List ℕ) (model : LifecycleContext) (cause : Error)
      (u w : W)
      → IsLoaded name (log u) model
      → is_active model.boundary.status ≡ false
      → Others u w
      → Ensures
          (λ b w'. ⊥)
          (λ e w'.
            Others w w'
            ⊎ ((b : Boundary) × (e ≡ cause)
                × AppendsOutcome name (failed_event name (message_of cause)) w b w')
            ⊎ ((is_already_exists (code_of e) ≡ false)
                × (b : Boundary) × AppendsOutcome name
                    (failed_event name (message_of cause))
                    w
                    b
                    w'))
          (append_failed ports admin_boundary message_of name model cause w)
  unfolding append_failed
  append_failed-AppendsOutcome message_of name model cause u w c a o =
      let event : EventToAppend = failed_event name (message_of cause) in
      let x : Result Boundary × W = append_outcome ports admin_boundary model event w in
      let h : Ensures (IsAppended name model.boundary event w)
          (MayBeAppended name model.boundary event w) x =
        append_outcome-IsAppended name model event u w c o in
      elim (Bool-cases (has_failed model.boundary.status)) [
        | inl q ↦ rw (q, append_failed) (inl (store.nothing w))
        | inr q ↦
            elim (Result-cases
              (append_outcome ports admin_boundary model (failed_event name (message_of cause))
                w).0) [
                  | inl (b, f) ↦
                      rw (q, f, append_failed)
                        (inr (inl (b, refl, (model.boundary, a, Ensures-ok _ _ x b f h))))
                  | inr (e, f) ↦
                      let failed_at : MayBeAppended name model.boundary event w e x.1 =
                        Ensures-err _ _ x e f h in
                      elim (Bool-cases (is_already_exists (code_of e))) [
                        | inl g ↦
                            rw (q, f, g, append_failed)
                              (inl (refused name model.boundary event w e x.1 g failed_at))
                        | inr g ↦
                            rw (q, f, g, append_failed)
                              (elim failed_at [
                                | inl o' ↦ inl o'
                                | inr (r, b, s) ↦ inr (inr (r, b, (model.boundary, a, s)))
                              ])
                      ]
                ]
      ]
