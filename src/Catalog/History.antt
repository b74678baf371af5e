-- ===== src/Catalog/History.antt =====
-- How events change the entry of one boundary in the catalog.
use orisun.Base.{
  ℕ, ◌≡◌, refl, ◌∙◌, sym, subst, true, false, not, ◌||◌, ◌⊎◌, inl, inr, Option, none, some, List,
  [], ◌∷◌, if◌then◌else◌, arith, Bool-cases, Option-cases, codes_eq, codes_eq_iff,
}
use orisun.Status.{is_ok}
use orisun.Position.{Position}
use orisun.Catalog.{
  Boundary, Placement, provisioning, Catalog, CatalogEvent, Lifecycle, boundary_created,
  boundary_activated, boundary_failed, undecodable, other, get, put, apply_lifecycle, apply_all,
  is_empty, define, activate, record_failure, apply, is_active,
}

codes_eq_refl : (n : List ℕ) → codes_eq n n ≡ true
codes_eq_refl n = (codes_eq_iff n n).1 refl

get-put :
    (m n : List ℕ) (b : Boundary) (c : Catalog)
    → get n (put m b c) ≡ (if codes_eq m n then some b else get n c)
unfolding get put
get-put m n b [] = refl
get-put m n b ((k, d) ∷ c) = elim (Bool-cases (codes_eq k m)) [
  | inl e ↦
      let same : k ≡ m = (codes_eq_iff k m).0 e in
      rw (e, same) (elim (Bool-cases (codes_eq m n)) [ inl f ↦ rw f refl | inr f ↦ rw f refl ])
  | inr e ↦ rw e (elim (Bool-cases (codes_eq k n)) [
    | inl f ↦
        let same : k ≡ n = (codes_eq_iff k n).0 f in
        let apart : codes_eq m n ≡ false = elim (Bool-cases (codes_eq m n)) [
          | inl g ↦
              ground (
                arith,
                subst (λ (x : List ℕ). codes_eq k x ≡ true) (sym ((codes_eq_iff m n).0 g)) f,
              )
          | inr g ↦ g
        ] in
        rw (f, apart) refl
    | inr f ↦ rw f (get-put m n b c)
  ])
]

-- What a defined boundary keeps: all but its outcome, and that only as long as it is not active.
pub record IsSuccessor (b : Boundary) (b' : Boundary) : Type 0 where
  pub same_name : b'.name ≡ b.name
  pub same_description : b'.description ≡ b.description
  pub same_placement : b'.placement ≡ b.placement
  pub same_definition : b'.definition_position ≡ b.definition_position
  pub stays_active : (not (is_active b.status) || is_active b'.status) ≡ true

self : (b : Boundary) → IsSuccessor b b
self b = record {
  same_name = refl;
  same_description = refl;
  same_placement = refl;
  same_definition = refl;
  stays_active = ground arith;
}

-- What is stored under a name afterwards, from what was stored before.
abbrev pub Continues : Option Boundary → Option Boundary → Type 0
Continues none none = Unit {0}
Continues none (some b') =
    (b'.status ≡ provisioning) × (b'.definition_position ≡ b'.status_position)
Continues (some b) none = ⊥
Continues (some b) (some b') = IsSuccessor b b'

Continues-refl : (o : Option Boundary) → Continues o o
Continues-refl none = tt
Continues-refl (some b) = self b

put-Continues :
    (m n : List ℕ) (b : Boundary) (c : Catalog)
    → Continues (get m c) (some b)
    → Continues (get n c) (get n (put m b c))
put-Continues m n b c h = elim (Bool-cases (codes_eq m n)) [
  | inl e ↦
      rw (get-put m n b c, e)
        (subst (λ (x : List ℕ). Continues (get x c) (some b)) ((codes_eq_iff m n).0 e) h)
  | inr e ↦ rw (get-put m n b c, e) (Continues-refl (get n c))
]

module _ (name : List ℕ) (position : Position) (c : Catalog) (n : List ℕ) where
  define-Continues :
      (description : List ℕ) (placement : Placement)
      → Continues (get n c) (get n (define name description placement position c).1)
  unfolding define
  define-Continues description placement =
      elim (Bool-cases
        (is_empty name || is_empty placement.backend || is_empty placement.namespace)) [
          | inl e ↦ rw (e, define) (Continues-refl (get n c))
          | inr e ↦ elim (Option-cases (get name c)) [
            | inl f ↦ rw (e, f, define) (put-Continues name n _ c (rw f (refl, refl)))
            | inr (b, f) ↦ rw (e, f, define) (Continues-refl (get n c))
          ]
        ]

  activate-Continues : Continues (get n c) (get n (activate name position c).1)
  unfolding activate
  activate-Continues = elim (Bool-cases (is_empty name)) [
    | inl e ↦ rw (e, activate) (Continues-refl (get n c))
    | inr e ↦ elim (Option-cases (get name c)) [
      | inl f ↦ rw (e, f, activate) (Continues-refl (get n c))
      | inr (b, f) ↦
          rw (e, f, activate)
            (put-Continues name n _ c (
              rw f (record {
                same_name = refl;
                same_description = refl;
                same_placement = refl;
                same_definition = refl;
                stays_active = ground arith;
              })))
    ]
  ]

  record_failure-Continues :
      (message : List ℕ) → Continues (get n c) (get n (record_failure name message position c).1)
  unfolding record_failure
  record_failure-Continues message = elim (Bool-cases (is_empty name)) [
    | inl e ↦ rw (e, record_failure) (Continues-refl (get n c))
    | inr e ↦ elim (Option-cases (get name c)) [
      | inl f ↦ rw (e, f, record_failure) (Continues-refl (get n c))
      | inr (b, f) ↦ elim (Bool-cases (is_empty message)) [
        | inl g ↦ rw (e, f, g, record_failure) (Continues-refl (get n c))
        | inr g ↦ elim (Bool-cases (is_active b.status)) [
          | inl h ↦ rw (e, f, g, h, record_failure) (Continues-refl (get n c))
          | inr h ↦
              rw (e, f, g, h, record_failure)
                (put-Continues name n _ c (
                  rw f (record {
                    same_name = refl;
                    same_description = refl;
                    same_placement = refl;
                    same_definition = refl;
                    stays_active = ground arith;
                  })))
        ]
      ]
    ]
  ]

apply_lifecycle-Continues :
    (l : Lifecycle) (position : Position) (c : Catalog) (n : List ℕ)
    → Continues (get n c) (get n (apply_lifecycle l position c).1.1)
unfolding apply_lifecycle
apply_lifecycle-Continues (boundary_created name description placement) position c n =
    define-Continues name position c n description placement
apply_lifecycle-Continues (boundary_activated name) position c n =
    activate-Continues name position c n
apply_lifecycle-Continues (boundary_failed name message) position c n =
    record_failure-Continues name position c n message
apply_lifecycle-Continues undecodable position c n = Continues-refl (get n c)
apply_lifecycle-Continues other position c n = Continues-refl (get n c)

define_fails :
    (name description : List ℕ) (placement : Placement) (position : Position) (c : Catalog)
    → is_ok (define name description placement position c).0 ≡ false
    → (define name description placement position c).1 ≡ c
unfolding define
define_fails name description placement position c h = ground arith

activate_fails :
    (name : List ℕ) (position : Position) (c : Catalog)
    → is_ok (activate name position c).0 ≡ false
    → (activate name position c).1 ≡ c
unfolding activate
activate_fails name position c h = ground arith

record_failure_fails :
    (name message : List ℕ) (position : Position) (c : Catalog)
    → is_ok (record_failure name message position c).0 ≡ false
    → (record_failure name message position c).1 ≡ c
unfolding record_failure
record_failure_fails name message position c h = ground arith

apply_lifecycle_unchanged :
    (l : Lifecycle) (position : Position) (c : Catalog)
    → (is_ok (apply_lifecycle l position c).1.0 ≡ false)
      ⊎ ((apply_lifecycle l position c).0 ≡ false)
    → (apply_lifecycle l position c).1.1 ≡ c
unfolding apply_lifecycle
apply_lifecycle_unchanged (boundary_created name description placement) position c h =
    define_fails name description placement position c (ground arith)
apply_lifecycle_unchanged (boundary_activated name) position c h =
    activate_fails name position c (ground arith)
apply_lifecycle_unchanged (boundary_failed name message) position c h =
    record_failure_fails name message position c (ground arith)
apply_lifecycle_unchanged undecodable position c h = refl
apply_lifecycle_unchanged other position c h = refl

-- An event that the catalog reports as an error, or that is not a lifecycle event, leaves the
-- catalog as it was.
pub apply_unchanged :
    (event : CatalogEvent) (c : Catalog)
    → (is_ok (apply event c).1.0 ≡ false) ⊎ ((apply event c).0 ≡ false)
    → (apply event c).1.1 ≡ c
unfolding apply
apply_unchanged event c h = apply_lifecycle_unchanged event.lifecycle event.position c h

-- What one event does to the entry of a name, whatever the event is. A boundary that is defined
-- keeps its name, description, placement and definition, and if it is active it stays active. A
-- name that is not defined stays so, or gets a boundary that is provisioning.
pub apply-Continues :
    (event : CatalogEvent) (c : Catalog) (name : List ℕ)
    → Continues (get name c) (get name (apply event c).1.1)
unfolding apply
apply-Continues event c name = apply_lifecycle-Continues event.lifecycle event.position c name

IsSuccessor-trans : (b d e : Boundary) → IsSuccessor b d → IsSuccessor d e → IsSuccessor b e
IsSuccessor-trans b d e s t = record {
  same_name = t.same_name ∙ s.same_name;
  same_description = t.same_description ∙ s.same_description;
  same_placement = t.same_placement ∙ s.same_placement;
  same_definition = t.same_definition ∙ s.same_definition;
  stays_active = ground (arith, s.stays_active, t.stays_active);
}

Continues-some :
    (b : Boundary) (o : Option Boundary)
    → Continues (some b) o
    → (d : Boundary) × (o ≡ some d) × IsSuccessor b d
Continues-some b none h = absurd h
Continues-some b (some d) h = (d, refl, h)

-- After any log of events a boundary that was defined is still defined, with the same name,
-- description, placement and definition, and it is active if it was.
pub apply_all-IsSuccessor :
    (events : List CatalogEvent) (c : Catalog) (name : List ℕ) (b : Boundary)
    → get name c ≡ some b
    → (d : Boundary) × (get name (apply_all events c) ≡ some d) × IsSuccessor b d
apply_all-IsSuccessor [] c name b h = (b, h, self b)
apply_all-IsSuccessor (event ∷ events) c name b h =
    let step : Continues (some b) (get name (apply event c).1.1) =
      subst (λ (o : Option Boundary). Continues o (get name (apply event c).1.1)) h
        (apply-Continues event c name) in
    let (d, e, s) = Continues-some b _ step in
    let (f, g, t) = apply_all-IsSuccessor events (apply event c).1.1 name d e in
    (f, g, IsSuccessor-trans b d f s t)
