-- ===== src/Users/Log.antt =====
-- The log of user events that the commands read and append to, with one writer at a time.
use orisun.Base.{
  ℕ, ◌≡◌, ◌≢◌, ◌⊎◌, refl, ap, sym, ◌∙◌, subst, Bool, false, not, ◌&&◌, Option, none, some, List, [],
  ◌∷◌, ◌++◌, codes_eq, any, all, take, All, All-append, length, length-append, List-cases,
  Bool-cases, inl, inr, arith, if◌then◌else◌,
}
use mathlib.Core.List.{append-nil}
use orisun.Status.{Error}
use orisun.Position.{Position, not_exists_position}
use orisun.Boundaries.{Action, ◌>>=◌}
use orisun.Boundaries.Logic.{Ensures, bind-Ensures}
use orisun.Users.{
  same_event_type, other_event, UserData, UserEvent, UserTag, tag_type, tag_username, tag_user_id,
  tag_camel_id, UserQuery, SaveUserEvent, UserPorts, is_creation,
}

abbrev of_content : Option UserData → (UserData → Bool) → Bool
of_content none p = false
of_content (some d) p = p d

-- Whether the data of an event have a tag.
abbrev pub has_tag : UserEvent → UserTag → Bool
has_tag e (tag_type t) = same_event_type e.event_type t
has_tag e (tag_username n) = is_creation e && of_content e.content (λ d. codes_eq d.username n)
has_tag e (tag_user_id i) =
    not (same_event_type e.event_type other_event)
    && of_content e.content (λ d. codes_eq d.user_id i)
has_tag e (tag_camel_id i) = false

abbrev pub matches : UserQuery → UserEvent → Bool
matches query e = any (λ tags. all (has_tag e) tags) query

-- The events of a log that pass a test, the latest first.
abbrev pub newest : (UserEvent → Bool) → List UserEvent → List UserEvent
newest p [] = []
newest p (e ∷ es) = newest p es ++ (if p e then e ∷ [] else [])

abbrev pub first_position : List UserEvent → Position
first_position [] = not_exists_position
first_position (e ∷ es) = e.position

abbrev pub latest_position : UserQuery → List UserEvent → Position
latest_position query es = first_position (newest (matches query) es)

abbrev pub saved_at : SaveUserEvent → Position → UserEvent
saved_at save p = record { event_type = save.event_type; content = some save.content; position = p }

-- The event of a save was stored at a position, when the observed position was the latest one.
abbrev pub IsSaved : SaveUserEvent → List UserEvent → Position → List UserEvent → Type 0
IsSaved save es p es' =
    (latest_position save.query es ≡ save.observed) × (es' ≡ es ++ saved_at save p ∷ [])

-- A save that failed has stored nothing, or its reply was lost.
abbrev pub MayBeSaved : SaveUserEvent → List UserEvent → List UserEvent → Type 0
MayBeSaved save es es' = (es' ≡ es) ⊎ ((p : Position) × IsSaved save es p es')

-- What the commands rely on. A save is stored only when its observed position is the latest one; an
-- error leaves open whether it was stored.
pub record IsUserStore (W : Type 0) (ports : UserPorts W) (log : W → List UserEvent) : Type 0 where
  pub reads :
      (query : UserQuery) (n : ℕ) (w : W)
      → Ensures
          (λ r w'. (log w' ≡ log w) × (r ≡ take n (newest (matches query) (log w))))
          (λ e w'. log w' ≡ log w)
          (ports.get_events query n w)
  pub saves :
      (save : SaveUserEvent) (w : W)
      → Ensures
          (λ u w'. (p : Position) × IsSaved save (log w) p (log w'))
          (λ e w'. MayBeSaved save (log w) (log w'))
          (ports.save_events save w)
  pub identifies :
      (w : W) → Ensures (λ i w'. log w' ≡ log w) (λ e w'. log w' ≡ log w) (ports.new_id w)
  pub positioned : (w : W) → All (λ e. e.position ≢ not_exists_position) (log w)
  -- Two events that a query finds have different positions.
  pub apart :
      (query : UserQuery) (w : W) (x y : UserEvent) (rest : List UserEvent)
      → newest (matches query) (log w) ≡ x ∷ y ∷ rest
      → x.position ≢ y.position

pub newest_none : (p : UserEvent → Bool) (es : List UserEvent) → newest p es ≡ [] → any p es ≡ false
newest_none p [] h = refl
newest_none p (e ∷ es) h = elim (Bool-cases (p e)) [
  | inl f ↦
      let impossible : ⊥ = omega (
        arith,
        length-append (newest p es) (e ∷ []),
        ap length (sym (ap (λ b. newest p es ++ (if b then e ∷ [] else [])) f) ∙ h),
      ) in
      elim impossible [ ]
  | inr f ↦ rw f (
      newest_none p es (
        sym (append-nil (newest p es))
        ∙ sym (ap (λ b. newest p es ++ (if b then e ∷ [] else [])) f)
        ∙ h))
]

pub newest-All :
    (Q : UserEvent → Type 0) (p : UserEvent → Bool) (es : List UserEvent)
    → All Q es
    → All Q (newest p es)
newest-All Q p [] h = tt
newest-All Q p (e ∷ es) h = elim (Bool-cases (p e)) [
  | inl f ↦ rw f (All-append Q (newest p es) (e ∷ []) (newest-All Q p es h.1) (h.0, tt))
  | inr f ↦ rw f (All-append Q (newest p es) [] (newest-All Q p es h.1) tt)
]

-- A query whose latest position stands for none finds nothing.
pub latest_position_none :
    (query : UserQuery) (es : List UserEvent)
    → All (λ e. e.position ≢ not_exists_position) es
    → latest_position query es ≡ not_exists_position
    → newest (matches query) es ≡ []
latest_position_none query es q h = elim (List-cases (newest (matches query) es)) [
  | inl f ↦ f
  | inr (x, rest, f) ↦
      let positions : All (λ e. e.position ≢ not_exists_position) (x ∷ rest) =
        subst (All (λ e. e.position ≢ not_exists_position)) f
          (newest-All (λ e. e.position ≢ not_exists_position) (matches query) es q) in
      elim (positions.0 (sym (ap first_position f) ∙ h)) [ ]
]

module _ {W A : Type 0} (ports : UserPorts W) (log : W → List UserEvent)
    (store : IsUserStore W ports log) (Q : A → W → Type 0) (E : Error → W → Type 0)
    (es : List UserEvent) (w : W) (at : log w ≡ es)
    (unchanged : (e : Error) (w' : W) → log w' ≡ es → E e w') where
  -- What follows a read.
  pub reads_then :
      (query : UserQuery) (n : ℕ) (next : List UserEvent → Action W A)
      → ((w' : W) → log w' ≡ es → Ensures Q E (next (take n (newest (matches query) es)) w'))
      → Ensures Q E ((ports.get_events query n >>= next) w)
  reads_then query n next k =
      bind-Ensures Q E (λ r w'. (log w' ≡ log w) × (r ≡ take n (newest (matches query) (log w))))
        (λ e w'. log w' ≡ log w) (ports.get_events query n) next w (store.reads query n w)
        (λ e w' h. unchanged e w' (h ∙ at))
        (λ r w' (h, f).
          subst (λ x. Ensures Q E (next x w'))
            (sym (f ∙ ap (λ x. take n (newest (matches query) x)) at)) (k w' (h ∙ at)))

  -- What follows a new identifier.
  pub identifies_then :
      (next : List ℕ → Action W A)
      → ((i : List ℕ) (w' : W) → log w' ≡ es → Ensures Q E (next i w'))
      → Ensures Q E ((ports.new_id >>= next) w)
  identifies_then next k =
      bind-Ensures Q E (λ i w'. log w' ≡ log w) (λ e w'. log w' ≡ log w) ports.new_id next w
        (store.identifies w) (λ e w' h. unchanged e w' (h ∙ at)) (λ i w' h. k i w' (h ∙ at))
