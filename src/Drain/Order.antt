-- ===== src/Drain/Order.antt =====
-- The order in which a subscription delivers.
use orisun.Base.{
  ℕ, zero, suc, ◌≡◌, refl, ap, sym, Bool, true, false, not, Option, none, some, List, [], ◌∷◌,
  length, arith, Bool-cases, Option-cases, inl, inr, eq_ℤ_iff,
}
use orisun.Status.{Result, ok, err, Result-cases}
use orisun.Position.{Position, same, values_after}
use orisun.Drain.{
  ReadEvent, SubscriptionDrain, Calls, new_subscription_drain, advances, validate_from, validate,
  is_cursor, deliver_event, deliver_batch, and_then, after_batch, after_read, request_of,
  drain_turn, drain, unless_last,
}

abbrev pub is_after : Position → Option Position → Bool
is_after p none = true
is_after p (some q) = values_after p q

same_iff : (p q : Position) → same p q ≡ true → p ≡ q
same_iff p q h = ground (
  arith,
  eq_ℤ_iff p.commit_position q.commit_position,
  eq_ℤ_iff p.prepare_position q.prepare_position,
)

cursor_same :
    {E : Type 0} (cursor : Option Position) (event : ReadEvent E)
    → is_cursor cursor event ≡ true
    → cursor ≡ some event.position
unfolding is_cursor
cursor_same none event h = ground arith
cursor_same (some p) event h = ap some (sym (same_iff event.position p h))

advances_after :
    {E : Type 0} (is_first : Bool) (cursor : Option Position) (event : ReadEvent E)
    → is_cursor cursor event ≡ false
    → advances is_first cursor event.position ≡ true
    → is_after event.position cursor ≡ true
unfolding is_cursor advances
advances_after is_first none event h k = refl
advances_after is_first (some p) event h k = ground arith

module _ {E : Type 0} where
  -- The cursor after the events delivered, the latest first.
  abbrev pub cursor_of : Option Position → List (ReadEvent E) → Option Position
  cursor_of start [] = start
  cursor_of start (event ∷ delivered) = some event.position

  -- Each event is later than the one before it, and the first one than the start.
  abbrev pub InOrder : Option Position → List (ReadEvent E) → Type 0
  InOrder start [] = Unit {0}
  InOrder start (event ∷ delivered) =
      (is_after event.position (cursor_of start delivered) ≡ true) × InOrder start delivered

  -- The state of a drain that reads on.
  record IsReading (start : Option Position) (d : SubscriptionDrain E) : Type 0 where
    at_cursor : d.cursor ≡ cursor_of start d.delivered
    in_order : InOrder start d.delivered

  -- What a step of a drain leaves.
  abbrev Leaves : {A : Type 0} → Option Position → Result A × SubscriptionDrain E → Type 0
  Leaves start (ok a, d) = IsReading start d
  Leaves start (err e, d) = InOrder start d.delivered

  -- The same, with the cursor at the position given.
  abbrev LeavesAt : Option Position → Position → Result (Unit {0}) × SubscriptionDrain E → Type 0
  LeavesAt start p (ok a, d) = IsReading start d × (d.cursor ≡ some p)
  LeavesAt start p (err e, d) = InOrder start d.delivered

  module _ (calls : Calls E) (start : Option Position) where
    deliver_event-LeavesAt :
        (event : ReadEvent E) (d : SubscriptionDrain E)
        → IsReading start d
        → is_after event.position d.cursor ≡ true
        → LeavesAt start event.position (deliver_event calls event d)
    unfolding deliver_event
    deliver_event-LeavesAt event d r h = elim (Result-cases (calls.check_event d.delivered)) [
      | inr (x, e) ↦ rw (e, deliver_event) r.in_order
      | inl (a, e) ↦
          let next : is_after event.position (cursor_of start d.delivered) ≡ true =
            rw (← r.at_cursor) h in
          elim (Result-cases (calls.handler d.delivered event)) [
            | inl (b, f) ↦
                rw (e, f, deliver_event)
                  (record { at_cursor = refl; in_order = (next, r.in_order) }, refl)
            | inr (y, f) ↦ rw (e, f, deliver_event) (next, r.in_order)
          ]
    ]

    and_then-Leaves :
        (p : Position) (x : Result (Unit {0}) × SubscriptionDrain E)
        (next : SubscriptionDrain E → Result (Unit {0}) × SubscriptionDrain E)
        → LeavesAt start p x
        → ((d : SubscriptionDrain E)
            → IsReading start d
            → d.cursor ≡ some p
            → Leaves start (next d))
        → Leaves start (and_then x next)
    unfolding and_then
    and_then-Leaves p (ok _, d) next h k = k d h.0 h.1
    and_then-Leaves p (err e, d) next h k = h

    deliver_batch-Leaves :
        (batch : List (ReadEvent E)) (is_first : Bool) (d : SubscriptionDrain E)
        → IsReading start d
        → validate_from is_first d.cursor batch ≡ true
        → Leaves start (deliver_batch calls batch d)
    unfolding deliver_batch validate_from
    deliver_batch-Leaves [] is_first d r h = r
    deliver_batch-Leaves (event ∷ batch) is_first d r h =
        elim (Bool-cases (is_cursor d.cursor event)) [
          | inl e ↦ rw e (
              deliver_batch-Leaves batch false d r
                (rw (cursor_same d.cursor event e) (ground arith)))
          | inr e ↦ rw e (
              and_then-Leaves event.position (deliver_event calls event d)
                (deliver_batch calls batch)
                (deliver_event-LeavesAt event d r
                  (advances_after is_first d.cursor event e (ground arith)))
                (λ d' r' at. deliver_batch-Leaves batch false d' r' (rw at (ground arith))))
        ]

    after_batch-Leaves :
        (n : ℕ) (initial : Bool) (x : Result (Unit {0}) × SubscriptionDrain E)
        → Leaves start x
        → Leaves start (after_batch n initial x)
    unfolding after_batch
    after_batch-Leaves n initial (ok _, d) h = record {
      at_cursor = h.at_cursor;
      in_order = h.in_order;
    }
    after_batch-Leaves n initial (err e, d) h = h

    after_read-Leaves :
        (d : SubscriptionDrain E) (x : Result (List (ReadEvent E)))
        → IsReading start d
        → Leaves start (after_read calls d x)
    unfolding after_read validate
    after_read-Leaves d (err x) r = elim (Option-cases (calls.cancelled d.delivered)) [
      | inl e ↦ rw (e, after_read) r.in_order
      | inr (y, e) ↦ rw (e, after_read) r.in_order
    ]
    after_read-Leaves d (ok batch) r =
        elim (Bool-cases (validate d.cursor batch (request_of d).count)) [
          | inl e ↦ rw e (
              after_batch-Leaves (length batch) (not d.initialized) (deliver_batch calls batch d)
                (deliver_batch-Leaves batch true d r (ground arith)))
          | inr e ↦ rw e r.in_order
        ]

    drain_turn-Leaves :
        (d : SubscriptionDrain E) → IsReading start d → Leaves start (drain_turn calls d)
    unfolding drain_turn
    drain_turn-Leaves d r = elim (Result-cases (calls.check_active d.delivered)) [
      | inl (a, e) ↦ rw (e, drain_turn) (after_read-Leaves d _ r)
      | inr (x, e) ↦ rw (e, drain_turn) r.in_order
    ]

    unless_last-InOrder :
        (x : Result Bool × SubscriptionDrain E)
        (next : SubscriptionDrain E → Option (Result (Unit {0})) × SubscriptionDrain E)
        → Leaves start x
        → ((d : SubscriptionDrain E) → IsReading start d → InOrder start (next d).1.delivered)
        → InOrder start (unless_last x next).1.delivered
    unfolding unless_last
    unless_last-InOrder (err e, d) next h k = h
    unless_last-InOrder (ok true, d) next h k = h.in_order
    unless_last-InOrder (ok false, d) next h k = k d h

    drain-InOrder :
        (n : ℕ) (d : SubscriptionDrain E)
        → IsReading start d
        → InOrder start (drain n calls d).1.delivered
    unfolding drain
    drain-InOrder zero d r = r.in_order
    drain-InOrder (suc n) d r =
        unless_last-InOrder (drain_turn calls d) (drain n calls) (drain_turn-Leaves d r)
          (drain-InOrder n)

  new-IsReading : (start : Option Position) → IsReading start (new_subscription_drain start)
  unfolding new_subscription_drain
  new-IsReading none = record { at_cursor = refl; in_order = tt }
  new-IsReading (some p) = record { at_cursor = refl; in_order = tt }

  -- Whatever the backend, the check and the handler answer, and however many turns it takes, the
  -- events that a new subscription delivers have strictly increasing positions, all of them later
  -- than the position that it starts after; so it delivers no position twice.
  pub drain_delivers-InOrder :
      (n : ℕ) (calls : Calls E) (start : Option Position)
      → InOrder start (drain n calls (new_subscription_drain start)).1.delivered
  drain_delivers-InOrder n calls start =
      drain-InOrder calls start n (new_subscription_drain start) (new-IsReading start)
