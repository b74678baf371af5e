-- ===== src/Activation.antt =====
-- The activation gate of orisun/eventstore.go: which boundaries public requests may use. The Go set of
-- names is a list of names.
pub mod Gate
use orisun.Base.{Bool, true, false, not, ◌||◌, List, [], ◌∷◌, ◌++◌, ℕ, any, codes_eq, if◌then◌else◌}
use orisun.Status.{
  Error, Result, ok, err, ◌>>=◌, ◌>>◌, coded, uncoded, invalid_argument, failed_precondition,
}
use orisun.Catalog.{validate_name}

-- `enforceBoundaryActivation` and `activeBoundaries`
pub record ActivationGate : Type 0 where
  pub enforce : Bool
  pub active_boundaries : List (List ℕ)

abbrev pub has_name : List ℕ → List (List ℕ) → Bool
has_name name names = any (codes_eq name) names

unfoldable pub validate_names : List (List ℕ) → Result (Unit {0})
unfolding validate_name
validate_names [] = ok tt
validate_names (name ∷ names) = do validate_name name; validate_names names

-- `EnableBoundaryActivationGate`
unfoldable pub enable_boundary_activation_gate :
    List (List ℕ) → ActivationGate → Result (Unit {0}) × ActivationGate
unfolding validate_names
enable_boundary_activation_gate initially_active gate = elim (validate_names initially_active) [
  | err e ↦ (err uncoded, gate)
  | ok _ ↦ (
    ok tt,
    record { enforce = true; active_boundaries = gate.active_boundaries ++ initially_active },
  )
]

-- `ActivateBoundary`
unfoldable pub activate_boundary : List ℕ → ActivationGate → Result (Unit {0}) × ActivationGate
unfolding validate_name
activate_boundary boundary gate = elim (validate_name boundary) [
  | err e ↦ (err uncoded, gate)
  | ok _ ↦ (ok tt, record gate { active_boundaries = gate.active_boundaries ++ boundary ∷ [] })
]

-- `RequireBoundaryActive`
unfoldable pub require_boundary_active : List ℕ → ActivationGate → Result (Unit {0})
unfolding validate_name codes_eq
require_boundary_active boundary gate =
    if not gate.enforce then ok tt else elim (validate_name boundary) [
      | err e ↦ err (coded invalid_argument)
      | ok _ ↦
          if has_name boundary gate.active_boundaries
          then ok tt
          else err (coded failed_precondition)
    ]

-- Activations one after another, whatever each reports.
abbrev pub activate_all : List (List ℕ) → ActivationGate → ActivationGate
activate_all [] gate = gate
activate_all (name ∷ names) gate = activate_all names (activate_boundary name gate).1
