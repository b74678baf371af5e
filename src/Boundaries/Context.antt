-- ===== src/Boundaries/Context.antt =====
-- A context whose position is unchanged is unchanged: what an append that is accepted relies on.
use orisun.Base.{
  ◌≡◌, ◌≢◌, refl, subst, Bool, false, inl, inr, none, some, List, [], ◌∷◌, ◌++◌, any, All, map,
  arith, Option-cases, Bool-cases,
}
use orisun.Position.{Position, not_exists_position}
use orisun.Boundaries.{StoredEvent, LifecycleCriterion}
use orisun.Boundaries.Logic.{satisfies, last_match, matches_any, context_position, latest_of}

pub last_match-none :
    (p : StoredEvent → Bool) (es : List StoredEvent) → last_match p es ≡ none → any p es ≡ false
last_match-none p [] h = refl
last_match-none p (e ∷ es) h = elim (Option-cases (last_match p es)) [
  | inl f ↦ ground (arith, h, f, last_match-none p es f)
  | inr (x, f) ↦ ground (arith, h, f)
]

pub last_match_All :
    (Q : StoredEvent → Type 0) (p : StoredEvent → Bool) (es : List StoredEvent) (x : StoredEvent)
    → All Q es
    → last_match p es ≡ some x
    → Q x
last_match_All Q p [] x q h = ground (arith, h)
last_match_All Q p (e ∷ es) x q h = elim (Option-cases (last_match p es)) [
  | inl f ↦ elim (Bool-cases (p e)) [
    | inl g ↦ subst Q (ground (arith, h, f, g)) q.0
    | inr g ↦ ground (arith, h, f, g)
  ]
  | inr (y, f) ↦ last_match_All Q p es x q.1 (ground (arith, h, f))
]

last_match-append :
    (p : StoredEvent → Bool) (xs ys : List StoredEvent)
    → last_match p ys ≡ none
    → last_match p (xs ++ ys) ≡ last_match p xs
last_match-append p [] ys h = h
last_match-append p (x ∷ xs) ys h = rw (last_match-append p xs ys h) refl

last_match-append_some :
    (p : StoredEvent → Bool) (xs ys : List StoredEvent) (e : StoredEvent)
    → last_match p ys ≡ some e
    → last_match p (xs ++ ys) ≡ some e
last_match-append_some p [] ys e h = h
last_match-append_some p (x ∷ xs) ys e h = rw (last_match-append_some p xs ys e h) refl

last_match-no_match :
    (p : StoredEvent → Bool) (es : List StoredEvent) → any p es ≡ false → last_match p es ≡ none
last_match-no_match p [] h = refl
last_match-no_match p (e ∷ es) h = ground (arith, h, last_match-no_match p es)

any-matches_any-rest :
    (c : LifecycleCriterion) (cs : List LifecycleCriterion) (es : List StoredEvent)
    → any (matches_any (c ∷ cs)) es ≡ false
    → (any (λ e. satisfies e c) es ≡ false) × (any (matches_any cs) es ≡ false)
any-matches_any-rest c cs [] h = (refl, refl)
any-matches_any-rest c cs (e ∷ es) h = ground (arith, h, any-matches_any-rest c cs es)

-- The last matches, where nothing that was added matches.
matches_unchanged :
    (cs : List LifecycleCriterion) (xs more : List StoredEvent)
    → any (matches_any cs) more ≡ false
    → map (λ c. last_match (λ e. satisfies e c) (xs ++ more)) cs
      ≡ map (λ c. last_match (λ e. satisfies e c) xs) cs
matches_unchanged [] xs more h = refl
matches_unchanged (c ∷ cs) xs more h =
    let (first, rest) = any-matches_any-rest c cs more h in
    rw
      (
        last_match-append (λ e. satisfies e c) xs more
            (last_match-no_match (λ e. satisfies e c) more first),
        matches_unchanged cs xs more rest,
      )
      refl

-- The position of the last event of a context is a position of the log.
position_of_log :
    (p : StoredEvent → Bool) (xs : List StoredEvent) (x : StoredEvent) (q : Position)
    → All (λ y. y.position ≢ q) xs
    → last_match p xs ≡ some x
    → x.position ≢ q
position_of_log p xs x q h e = last_match_All (λ y. y.position ≢ q) p xs x h e

module _ (cs : List LifecycleCriterion) (xs more : List StoredEvent)
    (fresh : All (λ e. All (λ x. x.position ≢ e.position) xs) more)
    (positioned : All (λ e. e.position ≢ not_exists_position) more)
    (same_position : context_position cs (xs ++ more) ≡ context_position cs xs) where
  none_added : last_match (matches_any cs) more ≡ none
  none_added = elim (Option-cases (last_match (matches_any cs) more)) [
    | inl f ↦ f
    | inr (e, f) ↦ elim (Option-cases (last_match (matches_any cs) xs)) [
      | inl g ↦
          elim (last_match_All (λ y. y.position ≢ not_exists_position) (matches_any cs) more e
            positioned f
            (ground (
              arith,
              same_position,
              f,
              g,
              last_match-append_some (matches_any cs) xs more e f,
            ))) [ ]
      | inr (x, g) ↦
          elim (position_of_log (matches_any cs) xs x e.position
            (last_match_All (λ y. All (λ z. z.position ≢ y.position) xs) (matches_any cs) more e
              fresh f)
            g
            (ground (
              arith,
              same_position,
              f,
              g,
              last_match-append_some (matches_any cs) xs more e f,
            ))) [ ]
    ]
  ]

  pub latest_of_unchanged : latest_of cs (xs ++ more) ≡ latest_of cs xs
  latest_of_unchanged =
      rw
        (
          same_position,
          matches_unchanged cs xs more (last_match-none (matches_any cs) more none_added),
        )
        refl
