-- ===== src/Boundaries/Replay/Page.antt =====
-- What one page of a replay does.
use orisun.Base.{
  ℕ, ◌≡◌, refl, ap, sym, ◌∙◌, Bool, true, false, not, ◌||◌, inl, inr, Option, some, List, [], ◌∷◌,
  ◌++◌, Bool-cases, if◌then◌else◌,
}
use orisun.Status.{Result, ok, err}
use orisun.Position.{Position}
use orisun.Boundaries.{StoredEvent, Action, ◌>>=◌, lift}
use orisun.Boundaries.Laws.{go_on, bind-cong, bind-keeps, bind_assoc}
use orisun.Boundaries.Replay.{take_page, replay}

-- Every event in turn, up to one that fails.
abbrev pub run_all :
    {W S : Type 0} → (S → StoredEvent → Action W S) → S → List StoredEvent → Action W S
run_all step s [] = lift (ok s)
run_all step s (e ∷ es) = step s e >>= (λ next. run_all step next es)

-- No event is skipped at the position of the one before it.
abbrev pub Chain : (Position → StoredEvent → Bool) → Position → List StoredEvent → Type 0
Chain skips p [] = Unit {0}
Chain skips p (e ∷ es) = (skips p e ≡ false) × Chain skips e.position es

abbrev pub last_position : Position → List StoredEvent → Position
last_position p [] = p
last_position p (e ∷ es) = last_position e.position es

abbrev pub is_some_event : List StoredEvent → Bool
is_some_event [] = false
is_some_event (e ∷ es) = true

pub Chain-append :
    (skips : Position → StoredEvent → Bool) (p : Position) (xs ys : List StoredEvent)
    → Chain skips p (xs ++ ys)
    → Chain skips p xs × Chain skips (last_position p xs) ys
Chain-append skips p [] ys c = (tt, c)
Chain-append skips p (x ∷ xs) ys c =
    let (first, rest) = Chain-append skips x.position xs ys c.1 in ((c.0, first), rest)

or_true : (b : Bool) → true ≡ (b || true)
or_true true = refl
or_true false = refl

module _ {W S : Type 0} (step : S → StoredEvent → Action W S) where
  pub run_all-append :
      (s : S) (xs ys : List StoredEvent) (w : W)
      → run_all step s (xs ++ ys) w ≡ (run_all step s xs >>= (λ s'. run_all step s' ys)) w
  run_all-append s [] ys w = refl
  run_all-append s (x ∷ xs) ys w =
      bind-cong (step s x) (λ n. run_all step n (xs ++ ys))
        (λ n. run_all step n xs >>= (λ s'. run_all step s' ys)) w
        (λ n w'. run_all-append n xs ys w')
      ∙ sym (bind_assoc (step s x) (λ n. run_all step n xs) (λ s'. run_all step s' ys) w)

  -- What the steps keep of the world.
  pub run_all-keeps :
      (view : W → List StoredEvent)
      (kept : (s : S) (e : StoredEvent) (w : W) → view (step s e w).1 ≡ view w) (s : S)
      (xs : List StoredEvent) (w : W)
      → view (run_all step s xs w).1 ≡ view w
  run_all-keeps view kept s [] w = refl
  run_all-keeps view kept s (x ∷ xs) w =
      bind-keeps view (step s x) (λ n. run_all step n xs) w (kept s x w)
        (λ n w'. run_all-keeps view kept n xs w')

  module _ (read : Position → Action W (List StoredEvent)) (limit : ℕ)
      (skips : Position → StoredEvent → Bool) where
    -- What is left of a page once the steps have run.
    abbrev pub finish : Position → Bool → List StoredEvent → S → Action W (Position × Bool × S)
    finish p advanced xs s = lift (ok (last_position p xs, (advanced || is_some_event xs), s))

    pub take_page_lem :
        (p : Position) (advanced : Bool) (s : S) (xs : List StoredEvent) (w : W)
        → Chain skips p xs
        → take_page read limit skips step p advanced s xs w
          ≡ (run_all step s xs >>= finish p advanced xs) w
    unfolding take_page
    take_page_lem p advanced s [] w c = elim (Bool-cases advanced) [
      | inl e ↦ rw e refl
      | inr e ↦ rw e refl
    ]
    take_page_lem p advanced s (x ∷ xs) w c = rw c.0 (
        bind-cong (step s x) (λ n. take_page read limit skips step x.position true n xs)
          (λ n. run_all step n xs >>= finish p advanced (x ∷ xs)) w
          (λ n w'.
            take_page_lem x.position true n xs w' c.1
            ∙ ap
                (λ b.
                  (run_all step n xs >>= (λ s'. lift (ok (last_position x.position xs, b, s')))) w')
                (or_true advanced))
        ∙ sym (bind_assoc (step s x) (λ n. run_all step n xs) (finish p advanced (x ∷ xs)) w))

    -- What follows a page.
    abbrev pub outcome : ℕ → Bool → Result (Position × Bool × S) × W → Option (Result S × W)
    outcome fuel short x =
        let (r, w) = x in
        elim r [
          | err e ↦ some (err e, w)
          | ok (next, advanced, s) ↦
              if short || not advanced
              then some (ok s, w)
              else replay read limit skips step fuel next s w
        ]

    pub outcome_lem :
        (view : W → List StoredEvent) (fuel : ℕ) (short : Bool) (p : Position)
        (xs ys es : List StoredEvent) (y : Result S × W)
        → view y.1 ≡ es
        → (short ≡ true → ys ≡ [])
        → (short ≡ false → is_some_event xs ≡ true)
        → ((s : S) (w : W)
            → short ≡ false
            → view w ≡ es
            → replay read limit skips step fuel (last_position p xs) s w
              ≡ some (run_all step s ys w))
        → outcome fuel short (go_on (finish p false xs) y) ≡ some (go_on (λ s. run_all step s ys) y)
    outcome_lem view fuel short p xs ys es (err e, w) v a b k = refl
    outcome_lem view fuel true p xs ys es (ok s, w) v a b k = rw (a refl) refl
    outcome_lem view fuel false p xs ys es (ok s, w) v a b k = rw (b refl) (k s w refl v)
