-- ===== src/Boundaries/Laws.antt =====
-- Equations of actions.
use orisun.Base.{◌≡◌, refl, ◌∙◌}
use orisun.Status.{Result, ok, err}
use orisun.Boundaries.{Action, ◌>>=◌}

-- An action that has run goes on.
abbrev pub go_on : {W A B : Type 0} → (A → Action W B) → Result A × W → Result B × W
go_on next x = let (r, w) = x in elim r [ ok a ↦ next a w | err e ↦ (err e, w) ]

module _ {W A B : Type 0} where
  go_on-cong :
      (f g : A → Action W B) (x : Result A × W)
      → ((a : A) (w : W) → f a w ≡ g a w)
      → go_on f x ≡ go_on g x
  go_on-cong f g (ok a, w) h = h a w
  go_on-cong f g (err e, w) h = refl

  pub bind-cong :
      (m : Action W A) (f g : A → Action W B) (w : W)
      → ((a : A) (w' : W) → f a w' ≡ g a w')
      → (m >>= f) w ≡ (m >>= g) w
  bind-cong m f g w h = go_on-cong f g (m w) h

  go_on-keeps :
      {V : Type 0} (view : W → V) (f : A → Action W B) (x : Result A × W)
      → ((a : A) (w : W) → view (f a w).1 ≡ view w)
      → view (go_on f x).1 ≡ view x.1
  go_on-keeps view f (ok a, w) h = h a w
  go_on-keeps view f (err e, w) h = refl

  pub bind-keeps :
      {V : Type 0} (view : W → V) (m : Action W A) (f : A → Action W B) (w : W)
      → view (m w).1 ≡ view w
      → ((a : A) (w' : W) → view (f a w').1 ≡ view w')
      → view ((m >>= f) w).1 ≡ view w
  bind-keeps view m f w k h = go_on-keeps view f (m w) h ∙ k

module _ {W A B C : Type 0} where
  go_on_assoc :
      (f : A → Action W B) (g : B → Action W C) (x : Result A × W)
      → go_on g (go_on f x) ≡ go_on (λ a. f a >>= g) x
  go_on_assoc f g (ok a, w) = refl
  go_on_assoc f g (err e, w) = refl

  pub bind_assoc :
      (m : Action W A) (f : A → Action W B) (g : B → Action W C) (w : W)
      → ((m >>= f) >>= g) w ≡ (m >>= (λ a. f a >>= g)) w
  bind_assoc m f g w = go_on_assoc f g (m w)
