-- ===== src/Boundaries/Logic.antt =====
-- What an action ensures, and what the commands rely on: a log that others append to as well.
use orisun.Base.{
  ℕ, ◌≡◌, ◌≢◌, ◌⊎◌, refl, subst, Bool, false, ◌&&◌, Option, none, some, List, [], ◌∷◌, ◌++◌, map,
  any, codes_eq, All, arith, if◌then◌else◌,
}
use orisun.Status.{Result, ok, err, Error, coded, internal, code_of}
use orisun.Position.{Position, not_exists_position}
use orisun.Boundaries.{
  same_type, EventToAppend, StoredEvent, stored_at, LifecycleCriterion, LatestResult, AppendRequest,
  Action, Ports, make_event, ◌>>=◌, lift,
}
use orisun.Boundaries.Provision.{is_already_exists}

-- One predicate on the value and the world after an action that succeeds, one on those after one that
-- fails.
abbrev pub Ensures :
    {W A : Type 0} → (A → W → Type 0) → (Error → W → Type 0) → Result A × W → Type 0
Ensures P E (ok a, w) = P a w
Ensures P E (err e, w) = E e w

module _ {W A B : Type 0} (Q : B → W → Type 0) (E : Error → W → Type 0) (P : A → W → Type 0)
    (D : Error → W → Type 0) where
  next-Ensures :
      (next : A → Action W B) (x : Result A × W)
      → Ensures P D x
      → ((e : Error) (w : W) → D e w → E e w)
      → ((a : A) (w : W) → P a w → Ensures Q E (next a w))
      → Ensures Q E (let (r, w) = x in elim r [ ok a ↦ next a w | err e ↦ (err e, w) ])
  next-Ensures next (ok a, w) h f k = k a w h
  next-Ensures next (err e, w) h f k = f e w h

  -- What follows an action is proved from what the action ensures.
  pub bind-Ensures :
      (m : Action W A) (next : A → Action W B) (w : W)
      → Ensures P D (m w)
      → ((e : Error) (w' : W) → D e w' → E e w')
      → ((a : A) (w' : W) → P a w' → Ensures Q E (next a w'))
      → Ensures Q E ((m >>= next) w)
  bind-Ensures m next w h f k = next-Ensures next (m w) h f k

-- The same for a result that is computed.
pub lift-Ensures :
    {W A B : Type 0} (Q : B → W → Type 0) (E : Error → W → Type 0) (r : Result A)
    (next : A → Action W B) (w : W)
    → ((e : Error) → E e w)
    → ((a : A) → r ≡ ok a → Ensures Q E (next a w))
    → Ensures Q E ((lift r >>= next) w)
lift-Ensures Q E (ok a) next w f k = k a refl
lift-Ensures Q E (err e) next w f k = f e

pub Ensures-weaken :
    {W A : Type 0} {P Q : A → W → Type 0} {D E : Error → W → Type 0} (x : Result A × W)
    → ((a : A) (w : W) → P a w → Q a w)
    → ((e : Error) (w : W) → D e w → E e w)
    → Ensures P D x
    → Ensures Q E x
Ensures-weaken (ok a, w) f g h = f a w h
Ensures-weaken (err e, w) f g h = g e w h

pub Ensures-ok :
    {W A : Type 0} (P : A → W → Type 0) (E : Error → W → Type 0) (x : Result A × W) (a : A)
    → x.0 ≡ ok a
    → Ensures P E x
    → P a x.1
Ensures-ok P E (ok b, w) a e h = subst (λ c. P c w) (ground (arith, e)) h
Ensures-ok P E (err b, w) a e h = ground (arith, e)

pub Ensures-err :
    {W A : Type 0} (P : A → W → Type 0) (E : Error → W → Type 0) (x : Result A × W) (a : Error)
    → x.0 ≡ err a
    → Ensures P E x
    → E a x.1
Ensures-err P E (ok b, w) a e h = ground (arith, e)
Ensures-err P E (err b, w) a e h = subst (λ c. E c w) (ground (arith, e)) h

-- `boundary` and `__eventType` are as the criterion says.
abbrev pub satisfies : StoredEvent → LifecycleCriterion → Bool
satisfies e c = elim e.content [
  | none ↦ false
  | some d ↦ same_type e.event_type c.event_type && codes_eq d.boundary c.boundary
]

-- The last event that passes a test.
abbrev pub last_match : (StoredEvent → Bool) → List StoredEvent → Option StoredEvent
last_match p [] = none
last_match p (e ∷ es) = elim (last_match p es) [
  | some x ↦ some x
  | none ↦ if p e then some e else none
]

abbrev pub matches_any : List LifecycleCriterion → StoredEvent → Bool
matches_any criteria e = any (satisfies e) criteria

-- The position of the last event that satisfies one of the criteria.
abbrev pub context_position : List LifecycleCriterion → List StoredEvent → Position
context_position criteria log = elim (last_match (matches_any criteria) log) [
  | none ↦ not_exists_position
  | some e ↦ e.position
]

abbrev pub latest_of : List LifecycleCriterion → List StoredEvent → LatestResult
latest_of criteria log = record {
  matches = map (λ c. last_match (λ e. satisfies e c) log) criteria;
  context_position = context_position criteria log;
}

-- The event of a request was stored at a position, when the observed position was the latest one.
abbrev pub IsStored :
    {W : Type 0}
    → (W → List StoredEvent)
    → (W → W → Type 0)
    → AppendRequest
    → W
    → Position
    → W
    → Type 0
IsStored {W} log Others request w p w' =
    (mid : W) × Others w mid
    × (context_position request.criteria (log mid) ≡ request.observed)
    × (log w' ≡ log mid ++ stored_at request.event p ∷ [])

-- What the commands rely on. `Others` is what other writers do between two of their calls.
pub record IsStore (W : Type 0) (ports : Ports W) (log : W → List StoredEvent)
    (Others : W → W → Type 0) : Type 0 where
  pub nothing : (w : W) → Others w w
  pub in_turn : (u v w : W) → Others u v → Others v w → Others u w
  -- A read sees the log as it is at one time.
  pub reads :
      (boundary : List ℕ) (criteria : List LifecycleCriterion) (w : W)
      → Ensures
          (λ r w'. Others w w' × (r ≡ latest_of criteria (log w')))
          (λ e w'. Others w w')
          (ports.latest_by_criteria boundary criteria w)
  -- An append stores its event only when the observed position is still the latest one. The code
  -- already_exists says that it was not stored; any other error leaves open whether it was.
  pub appends :
      (request : AppendRequest) (w : W)
      → Ensures
          (λ p w'. IsStored log Others request w p w')
          (λ e w'.
            Others w w'
            ⊎ ((is_already_exists (code_of e) ≡ false)
                × (p : Position) × IsStored log Others request w p w'))
          (ports.append request w)
  pub makes :
      (event : EventToAppend) (w : W)
      → Ensures (λ u w'. Others w w') (λ e w'. Others w w') (ports.new_event event w)
  -- No event is stored at the position that stands for none.
  pub positioned : (w : W) → All (λ e. e.position ≢ not_exists_position) (log w)
  -- Others only append, at positions that are new.
  pub grows :
      (u v : W)
      → Others u v
      → (more : List StoredEvent) × (log v ≡ log u ++ more)
        × All (λ e. All (λ x. x.position ≢ e.position) (log u)) more

either_way :
    {W : Type 0} (P : W → Type 0) (x : Result (Unit {0}) × W)
    → Ensures (λ u v. P v) (λ e v. P v) x
    → Ensures
        (λ u v. P v)
        (λ e v. P v)
        (let (r, v) = x in (elim r [ ok made ↦ ok tt | err e ↦ err (coded internal) ], v))
either_way P (ok u, v) h = h
either_way P (err e, v) h = h

pub make_event-Ensures :
    {W : Type 0} {ports : Ports W} {log : W → List StoredEvent} {Others : W → W → Type 0}
    → IsStore W ports log Others
    → (event : EventToAppend) (w : W)
    → Ensures (λ x w'. Others w w') (λ e w'. Others w w') (make_event ports event w)
unfolding make_event
make_event-Ensures {ports = ports} {Others = Others} store event w =
    either_way (Others w) (ports.new_event event w) (store.makes event w)
