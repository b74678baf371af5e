-- ===== src/Boundaries/Provision/Command.antt =====
-- ProvisionBoundaryCommandHandler as a whole.
use orisun.Base.{ℕ, ◌≡◌, false, ◌⊎◌, Option, List}
use orisun.Status.{Result, ok, err, Error, code_of}
use orisun.Catalog.{Boundary}
use orisun.Boundaries.{StoredEvent, Definition, Action, Ports}
use orisun.Boundaries.Logic.{Ensures, IsStore}
use orisun.Boundaries.Provision.{activated_event, failed_event, is_already_exists}
use orisun.Boundaries.Provision.Outcome.{EnsuresSome, AppendsOutcome}

module _ {W : Type 0} (ports : Ports W) (log : W → List StoredEvent) (Others : W → W → Type 0)
    (store : IsStore W ports log Others) (admin_boundary : List ℕ) (message_of : Error → List ℕ)
    (provision : Definition → Action W (Unit {0})) where
  -- Provisioning leaves the log to others.
  abbrev pub IsQuiet : Type 0
  IsQuiet =
      (d : Definition) (w : W) → Ensures (λ x w'. Others w w') (λ e w'. Others w w') (provision d w)

  -- Provisioning gave `r`, and its outcome was appended.
  abbrev pub ProvisionOutcome : Definition → Result (Unit {0}) → W → Boundary → W → Type 0
  ProvisionOutcome d (ok x) w b w' =
      (u v : W) × Others w u
      × (provision d u ≡ (ok x, v))
      × AppendsOutcome W ports log Others store admin_boundary d.name (activated_event d.name) v b
          w'
  ProvisionOutcome d (err e) w b w' =
      (u v : W) × Others w u
      × (provision d u ≡ (err e, v))
      × AppendsOutcome W ports log Others store admin_boundary d.name
          (failed_event d.name (message_of e)) v b w'

  abbrev pub Succeeds : Definition → W → Boundary → W → Type 0
  Succeeds d w b w' = ProvisionOutcome d (ok tt) w b w'

  -- The outcome was appended, and the reply of its append was lost.
  abbrev pub IsLost : Definition → W → Error → W → Type 0
  IsLost d w e w' =
      (is_already_exists (code_of e) ≡ false)
      × (r : Result (Unit {0})) × (b : Boundary) × ProvisionOutcome d r w b w'

  abbrev pub Fails : Definition → W → Error → W → Type 0
  Fails d w e w' =
      Others w w' ⊎ ((b : Boundary) × ProvisionOutcome d (err e) w b w') ⊎ IsLost d w e w'

  -- What the handler makes of a definition.
  abbrev pub Provisions : Definition → W → Option (Result Boundary × W) → Type 0
  Provisions d w x = EnsuresSome (Succeeds d w) (Fails d w) x
