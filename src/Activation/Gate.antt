-- ===== src/Activation/Gate.antt =====
-- Which boundaries the gate lets pass.
use orisun.Base.{
  ℕ, ◌≡◌, refl, ap, ◌∙◌, sym, Bool, true, false, ◌&&◌, ◌||◌, List, [], ◌∷◌, ◌++◌, any-append,
  codes_eq, codes_eq_iff, arith, Bool-cases, inl, inr,
}
use orisun.Status.{ok, Result-cases}
use orisun.Catalog.{validate_name}
use orisun.Status.{is_ok}
use orisun.Activation.{
  ActivationGate, has_name, validate_names, enable_boundary_activation_gate, activate_boundary,
  require_boundary_active, activate_all,
}

-- Whether the gate knows the name as active.
abbrev knows : List ℕ → ActivationGate → Bool
knows name gate = is_ok (validate_name name) && has_name name gate.active_boundaries

same_valid :
    (n m : List ℕ) → codes_eq n m ≡ true → is_ok (validate_name n) ≡ is_ok (validate_name m)
same_valid n m h = ap (λ (x : List ℕ). is_ok (validate_name x)) ((codes_eq_iff n m).0 h)

activate-knows :
    (name boundary : List ℕ) (gate : ActivationGate)
    → knows name (activate_boundary boundary gate).1 ≡ (
        is_ok (validate_name name)
        && (has_name name gate.active_boundaries || codes_eq name boundary))
unfolding activate_boundary
activate-knows name boundary gate = elim (Result-cases (validate_name boundary)) [
  | inl (a, e) ↦
      rw (e, activate_boundary)
        (ground (arith, any-append (codes_eq name) gate.active_boundaries (boundary ∷ [])))
  | inr (x, e) ↦
      rw (e, activate_boundary)
        (elim (Bool-cases (codes_eq name boundary)) [
          | inl f ↦ ground (arith, same_valid name boundary f)
          | inr f ↦ ground arith
        ])
]

activate_enforce :
    (boundary : List ℕ) (gate : ActivationGate)
    → (activate_boundary boundary gate).1.enforce ≡ gate.enforce
unfolding activate_boundary
activate_enforce boundary gate = elim (Result-cases (validate_name boundary)) [
  | inl (a, e) ↦ rw (e, activate_boundary) refl
  | inr (x, e) ↦ rw (e, activate_boundary) refl
]

activate_all-knows :
    (name : List ℕ) (names : List (List ℕ)) (gate : ActivationGate)
    → (knows name (activate_all names gate) ≡ (
        is_ok (validate_name name)
        && (has_name name gate.active_boundaries || has_name name names)))
      × ((activate_all names gate).enforce ≡ gate.enforce)
activate_all-knows name [] gate = (ground arith, refl)
activate_all-knows name (boundary ∷ names) gate =
    let (a, b) = activate_all-knows name names (activate_boundary boundary gate).1 in
    (ground (arith, a, activate-knows name boundary gate), b ∙ activate_enforce boundary gate)

require-knows :
    (name : List ℕ) (gate : ActivationGate)
    → gate.enforce ≡ true
    → is_ok (require_boundary_active name gate) ≡ knows name gate
unfolding require_boundary_active
require-knows name gate h = elim (Result-cases (validate_name name)) [
  | inl (a, e) ↦ ground (arith, e)
  | inr (x, e) ↦ ground (arith, e)
]

-- Once the gate is enabled, and after any activations, a boundary is let pass exactly when its name is
-- valid and it was active initially or is among the boundaries that were activated.
pub require_boundary_active-activate_all :
    (name : List ℕ) (initial names : List (List ℕ)) (gate : ActivationGate)
    → enable_boundary_activation_gate initial (record { enforce = false; active_boundaries = [] })
      ≡ (ok tt, gate)
    → is_ok (require_boundary_active name (activate_all names gate))
      ≡ (is_ok (validate_name name) && (has_name name initial || has_name name names))
unfolding enable_boundary_activation_gate
require_boundary_active-activate_all name initial names gate h =
    elim (Result-cases (validate_names initial)) [
      | inl (a, e) ↦
          let enabled : record { enforce = true; active_boundaries = [] ++ initial } ≡ gate =
            ground arith in
          let enforced : gate.enforce ≡ true =
            ap (λ (g : ActivationGate). g.enforce) (sym enabled) in
          let initially : gate.active_boundaries ≡ initial =
            ap (λ (g : ActivationGate). g.active_boundaries) (sym enabled) in
          let (k, f) = activate_all-knows name names gate in
          require-knows name (activate_all names gate) (f ∙ enforced)
          ∙ k
          ∙ ap
              (λ (x : List (List ℕ)).
                is_ok (validate_name name) && (has_name name x || has_name name names))
              initially
      | inr (x, e) ↦ ground arith
    ]
