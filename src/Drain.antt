-- ===== src/Drain.antt =====
-- orisun/subscription_drain.go: how a subscription reads and delivers events. The backend, the
-- check and the handler are functions of the model, of everything that was delivered before.
pub mod Order
use orisun.Base.{
  ℕ, zero, suc, ◌+◌, ◌≡◌, refl, Bool, true, false, not, ◌&&◌, ◌||◌, Option, none, some, List, [],
  ◌∷◌, ltb, ◌==◌, length, if◌then◌else◌,
}
use orisun.Status.{Error, Result, ok, err, coded, internal}
use orisun.Position.{Position, same, values_after}

pub data Direction : Type 0 where
  ascending descending : Direction

-- `ReadEvent`: its position, and the rest of it.
pub record ReadEvent (E : Type 0) : Type 0 where
  pub position : Position
  pub payload : E

-- `GetEventsRequest`, as `drain` makes it.
pub record GetEventsRequest : Type 0 where
  pub direction : Direction
  pub count : ℕ
  pub from_position : Option Position

-- `subscriptionDrain`: its mutable fields, and the events that its handler was called with, the
-- latest first.
pub record SubscriptionDrain (E : Type 0) : Type 0 where
  pub cursor : Option Position
  pub initialized : Bool
  pub delivered : List (ReadEvent E)

-- What the drain calls. `check_active` and `get_batch` come before a read, `check_event` and `handler`
-- before and at each event.
pub record Calls (E : Type 0) : Type 0 where
  pub check_active : List (ReadEvent E) → Result (Unit {0})
  pub get_batch : List (ReadEvent E) → GetEventsRequest → Result (List (ReadEvent E))
  pub cancelled : List (ReadEvent E) → Option Error
  pub check_event : List (ReadEvent E) → Result (Unit {0})
  pub handler : List (ReadEvent E) → ReadEvent E → Result (Unit {0})

-- `newSubscriptionDrain`
unfoldable pub new_subscription_drain : {E : Type 0} → Option Position → SubscriptionDrain E
new_subscription_drain none = record { cursor = none; initialized = false; delivered = [] }
new_subscription_drain (some after) = record {
  cursor = some after;
  initialized = true;
  delivered = [];
}

pub batch_size : ℕ
batch_size = 100

-- One turn of the loop of `validate`.
unfoldable pub advances : Bool → Option Position → Position → Bool
advances is_first none p = true
advances is_first (some q) p = values_after p q || (is_first && same p q)

-- What follows a call that may fail.
unfoldable pub and_then :
    {E : Type 0}
    → Result (Unit {0}) × SubscriptionDrain E
    → (SubscriptionDrain E → Result (Unit {0}) × SubscriptionDrain E)
    → Result (Unit {0}) × SubscriptionDrain E
and_then (err e, d) next = (err e, d)
and_then (ok _, d) next = next d

-- What follows a turn of the loop of `drain`.
unfoldable pub unless_last :
    {E : Type 0}
    → Result Bool × SubscriptionDrain E
    → (SubscriptionDrain E → Option (Result (Unit {0})) × SubscriptionDrain E)
    → Option (Result (Unit {0})) × SubscriptionDrain E
unless_last (err e, d) next = (some (err e), d)
unless_last (ok true, d) next = (some (ok tt), d)
unless_last (ok false, d) next = next d

module _ {E : Type 0} where
  unfoldable pub validate_from : Bool → Option Position → List (ReadEvent E) → Bool
  unfolding advances
  validate_from is_first previous [] = true
  validate_from is_first previous (event ∷ batch) =
      advances is_first previous event.position && validate_from false (some event.position) batch

  -- `validate`
  unfoldable pub validate : Option Position → List (ReadEvent E) → ℕ → Bool
  unfolding validate_from
  validate cursor batch count = not (ltb count (length batch)) && validate_from true cursor batch

  -- `event` is at the cursor.
  unfoldable pub is_cursor : Option Position → ReadEvent E → Bool
  is_cursor none event = false
  is_cursor (some p) event = same event.position p

  -- The delivery of one event, when it is not the cursor's.
  unfoldable pub deliver_event :
      Calls E → ReadEvent E → SubscriptionDrain E → Result (Unit {0}) × SubscriptionDrain E
  deliver_event calls event d = elim (calls.check_event d.delivered) [
    | err e ↦ (err e, d)
    | ok _ ↦
        let called = record d { delivered = event ∷ d.delivered } in
        elim (calls.handler d.delivered event) [
          | err e ↦ (err (coded internal), called)
          | ok _ ↦ (ok tt, record called { cursor = some event.position })
        ]
  ]

  -- The loop over the batch in `drain`.
  unfoldable pub deliver_batch :
      Calls E → List (ReadEvent E) → SubscriptionDrain E → Result (Unit {0}) × SubscriptionDrain E
  unfolding is_cursor deliver_event and_then
  deliver_batch calls [] d = (ok tt, d)
  deliver_batch calls (event ∷ batch) d =
      let rest = deliver_batch calls batch in
      if is_cursor d.cursor event then rest d else and_then (deliver_event calls event d) rest

  -- The request of a read.
  unfoldable pub request_of : SubscriptionDrain E → GetEventsRequest
  unfolding batch_size
  request_of d =
      if not d.initialized
      then record { direction = descending; count = 1; from_position = none }
      else record { direction = ascending; count = batch_size; from_position = d.cursor }

  -- The end of a turn of `drain`: whether it is the last one.
  unfoldable pub after_batch :
      ℕ → Bool → Result (Unit {0}) × SubscriptionDrain E → Result Bool × SubscriptionDrain E
  unfolding batch_size
  after_batch n initial (err e, d) = (err e, d)
  after_batch n initial (ok _, d) =
      (ok (n == 0 || (not initial && ltb n batch_size)), record d { initialized = true })

  -- What `drain` does with the answer to a read.
  unfoldable pub after_read :
      Calls E
      → SubscriptionDrain E
      → Result (List (ReadEvent E))
      → Result Bool × SubscriptionDrain E
  unfolding validate deliver_batch request_of after_batch
  after_read calls d (err _) = elim (calls.cancelled d.delivered) [
    | some e ↦ (err e, d)
    | none ↦ (err (coded internal), d)
  ]
  after_read calls d (ok batch) =
      if not (validate d.cursor batch (request_of d).count)
      then (err (coded internal), d)
      else after_batch (length batch) (not d.initialized) (deliver_batch calls batch d)

  -- One turn of the loop of `drain`.
  unfoldable pub drain_turn : Calls E → SubscriptionDrain E → Result Bool × SubscriptionDrain E
  unfolding after_read request_of
  drain_turn calls d = elim (calls.check_active d.delivered) [
    | err e ↦ (err e, d)
    | ok _ ↦ after_read calls d (calls.get_batch d.delivered (request_of d))
  ]

  -- `drain`, up to so many turns: nothing when it is still reading after them.
  unfoldable pub drain :
      ℕ → Calls E → SubscriptionDrain E → Option (Result (Unit {0})) × SubscriptionDrain E
  unfolding drain_turn unless_last
  drain zero calls d = (none, d)
  drain (suc n) calls d = unless_last (drain_turn calls d) (drain n calls)
