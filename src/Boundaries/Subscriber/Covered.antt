-- ===== src/Boundaries/Subscriber/Covered.antt =====
-- A replay hands every event to the handler, once and in order, and forgets none that failed.
use orisun.Base.{
  ℕ, ◌≡◌, refl, ap, sym, ◌∙◌, subst, Bool, true, false, ◌⊎◌, inl, inr, List, [], ◌∷◌, any,
  any-append, arith, Bool-cases, if◌then◌else◌, codes_eq_iff,
}
use orisun.Status.{ok, Result-cases}
use orisun.Position.Order.{same_refl, comparisons_agree}
use orisun.Position.{Position, after}
use orisun.Boundaries.{type_created, type_activated, type_failed, type_other, StoredEvent, Action}
use orisun.Boundaries.Laws.{go_on}
use orisun.Boundaries.Replay.Page.{Chain, run_all, last_position}
use orisun.Boundaries.Query.Exposed.{Ascending, after_apart}
use orisun.Boundaries.Subscriber.{
  RetryKey, by_id, by_position, same_key, Subscriber, position_after, set_position, is_behind,
  retry_key, schedule_retry, handle_or_retry, take_event,
}

pub after_irrefl : (p : Position) → after p p ≡ false
after_irrefl p = elim (Bool-cases (after p p)) [
  | inr f ↦ f
  | inl f ↦ ground (arith, after_apart p p f, same_refl p)
]

same_key_refl : (k : RetryKey) → same_key k k ≡ true
same_key_refl (by_id a) = (codes_eq_iff a a).1 refl
same_key_refl (by_position type_created p) = same_refl p
same_key_refl (by_position type_activated p) = same_refl p
same_key_refl (by_position type_failed p) = same_refl p
same_key_refl (by_position type_other p) = same_refl p

pub Ascending-Chain : (p : Position) (es : List StoredEvent) → Ascending p es → Chain is_behind p es
Ascending-Chain p [] a = tt
Ascending-Chain p (e ∷ es) a = (rw a.0 refl, Ascending-Chain e.position es a.1)

module _ {W : Type 0} (event_id : StoredEvent → List ℕ)
    (handle : StoredEvent → Action W (Unit {0})) where
  -- The world after every event was handed to the handler.
  abbrev pub handled : List StoredEvent → W → W
  handled [] w = w
  handled (e ∷ es) w = handled es (handle e w).1

  abbrev pub is_retried : StoredEvent → Subscriber → Bool
  is_retried e s = any (same_key (retry_key event_id e)) s.retrying

  -- Every event was handled, or is being retried.
  abbrev pub Covered : List StoredEvent → W → Subscriber → Type 0
  Covered [] w s = Unit {0}
  Covered (e ∷ es) w s =
      (((handle e w).0 ≡ ok tt) ⊎ (is_retried e s ≡ true)) × Covered es (handle e w).1 s

  -- Nothing that is retried is given up.
  abbrev pub Keeps : Subscriber → Subscriber → Type 0
  Keeps s t = (e : StoredEvent) → is_retried e s ≡ true → is_retried e t ≡ true

  set_position-retrying : (p : Position) (s : Subscriber) → (set_position p s).retrying ≡ s.retrying
  unfolding set_position
  set_position-retrying p s = elim (Bool-cases (position_after p s.position)) [
    | inl f ↦ rw (f, set_position) refl
    | inr f ↦ rw (f, set_position) refl
  ]

  schedule_retry-Keeps : (e : StoredEvent) (s : Subscriber) → Keeps s (schedule_retry event_id e s)
  unfolding schedule_retry
  schedule_retry-Keeps e s x h = elim (Bool-cases (is_retried e s)) [
    | inl f ↦ rw (f, schedule_retry) h
    | inr f ↦
        rw (f, schedule_retry)
          (any-append (same_key (retry_key event_id x)) s.retrying (retry_key event_id e ∷ [])
            ∙ rw h refl)
  ]

  schedule_retry-retried :
      (e : StoredEvent) (s : Subscriber) → is_retried e (schedule_retry event_id e s) ≡ true
  unfolding schedule_retry
  schedule_retry-retried e s = elim (Bool-cases (is_retried e s)) [
    | inl f ↦ rw (f, schedule_retry) f
    | inr f ↦
        rw (f, schedule_retry)
          (any-append (same_key (retry_key event_id e)) s.retrying (retry_key event_id e ∷ [])
            ∙ ground (arith, f, same_key_refl (retry_key event_id e)))
  ]

  -- The position that `setPosition` leaves.
  abbrev pub moved : Position → Position → Position
  moved p q = if position_after p q then p else q

  set_position-moved :
      (p : Position) (s : Subscriber) → (set_position p s).position ≡ moved p s.position
  unfolding set_position
  set_position-moved p s = elim (Bool-cases (position_after p s.position)) [
    | inl f ↦ rw (f, set_position) refl
    | inr f ↦ rw (f, set_position) refl
  ]

  Keeps-set_position : (p : Position) (s t : Subscriber) → Keeps s t → Keeps s (set_position p t)
  Keeps-set_position p s t k x h =
      ap (any (same_key (retry_key event_id x))) (set_position-retrying p t) ∙ k x h

  schedule_retry-position :
      (e : StoredEvent) (s : Subscriber) → (schedule_retry event_id e s).position ≡ s.position
  unfolding schedule_retry
  schedule_retry-position e s = elim (Bool-cases (is_retried e s)) [
    | inl f ↦ rw (f, schedule_retry) refl
    | inr f ↦ rw (f, schedule_retry) refl
  ]

  -- What one event does.
  abbrev pub Taken : StoredEvent → Subscriber → W → Subscriber → Type 0
  Taken e s w t =
      (take_event event_id handle s e w ≡ (ok t, (handle e w).1))
      × Keeps s t
      × (((handle e w).0 ≡ ok tt) ⊎ (is_retried e t ≡ true))
      × (t.position ≡ moved e.position s.position)

  pub take_event-Taken :
      (e : StoredEvent) (s : Subscriber) (w : W) → (t : Subscriber) × Taken e s w t
  unfolding take_event handle_or_retry
  take_event-Taken e s w = elim (Result-cases (handle e w).0) [
    | inl (u, f) ↦ (
      set_position e.position s,
      (
        rw (f, handle_or_retry, take_event) refl,
        Keeps-set_position e.position s s (λ x h. h),
        inl f,
        set_position-moved e.position s,
      ),
    )
    | inr (x, f) ↦
        let r : Subscriber = schedule_retry event_id e s in
        (
          set_position e.position r,
          (
            rw (f, handle_or_retry, take_event) refl,
            Keeps-set_position e.position s r (schedule_retry-Keeps e s),
            inr (Keeps-set_position e.position r r (λ x h. h) e (schedule_retry-retried e s)),
            set_position-moved e.position r ∙ ap (moved e.position) (schedule_retry-position e s),
          ),
        )
  ]

  moved_forward :
      (e : StoredEvent) (p : Position) → after e.position p ≡ true → moved e.position p ≡ e.position
  unfolding position_after
  moved_forward e p a =
      let later : position_after e.position p ≡ true = sym (comparisons_agree e.position p).2 ∙ a in
      rw later refl

  -- What the events do, one after another.
  abbrev pub AllTaken : List StoredEvent → Subscriber → W → Subscriber → Type 0
  AllTaken es s w t =
      (run_all (take_event event_id handle) s es w ≡ (ok t, handled es w))
      × Keeps s t
      × Covered es w t
      × (t.position ≡ last_position s.position es)

  pub run_all-AllTaken :
      (es : List StoredEvent) (s : Subscriber) (w : W)
      → Ascending s.position es
      → (t : Subscriber) × AllTaken es s w t
  run_all-AllTaken [] s w a = (s, (refl, (λ x h. h), tt, refl))
  run_all-AllTaken (e ∷ es) s w a =
      let (s', (f, k, c, p)) = take_event-Taken e s w in
      let at : s'.position ≡ e.position = p ∙ moved_forward e s.position a.0 in
      let (t, (g, l, d, q)) =
        run_all-AllTaken es s' (handle e w).1 (subst (λ z. Ascending z es) (sym at) a.1) in
      (
        t,
        (
          ap (go_on (λ next. run_all (take_event event_id handle) next es)) f ∙ g,
          (λ x h. l x (k x h)),
          (elim c [ inl h ↦ inl h | inr h ↦ inr (l e h) ], d),
          q ∙ ap (λ z. last_position z es) at,
        ),
      )
