-- ===== src/Boundaries/Subscriber.antt =====
-- admin/slices/boundary_provisioning/subscriber.go: the replay of lifecycle events, the retries of
-- events whose handling failed, and the cursor. A subscriber's retries are the keys of the events that
-- are retried; the goroutine of each is `retry_event`.
pub mod Covered
pub mod Replayed
use orisun.Base.{
  ℕ, zero, suc, ◌*◌, Bool, true, false, not, ◌&&◌, ◌||◌, Option, none, some, List, [], ◌∷◌, ◌++◌,
  ltb, any, codes_eq, if◌then◌else◌,
}
use orisun.Status.{Result, ok, err, Error, uncoded}
use orisun.Position.{Position, after, same, not_exists_position, position_values_after}
use orisun.Catalog.{is_empty}
use orisun.Boundaries.{EventType, same_type, StoredEvent, Action, ◌>>=◌, lift}
use orisun.Boundaries.Replay.{replay}

-- The key of a retry: the identifier of the event, or its type and position.
pub data RetryKey : Type 0 where
  by_id : List ℕ → RetryKey
  by_position : EventType → Position → RetryKey

abbrev pub same_key : RetryKey → RetryKey → Bool
same_key (by_id a) (by_id b) = codes_eq a b
same_key (by_position s p) (by_position t q) = same_type s t && same p q
same_key (by_id a) (by_position t q) = false
same_key (by_position s p) (by_id b) = false

-- The fields of `BoundaryProvisioningSubscriber` that change.
pub record Subscriber : Type 0 where
  pub position : Position
  pub retrying : List RetryKey

unfoldable pub new_subscriber : Subscriber
unfolding not_exists_position
new_subscriber = record { position = not_exists_position; retrying = [] }

abbrev pub boundary_lifecycle_replay_batch_size : ℕ
boundary_lifecycle_replay_batch_size = 100

-- `positionAfter`
unfoldable pub position_after : Position → Position → Bool
unfolding position_values_after
position_after p cursor =
    position_values_after p.commit_position p.prepare_position cursor.commit_position
      cursor.prepare_position

-- `setPosition`
unfoldable pub set_position : Position → Subscriber → Subscriber
unfolding position_after
set_position p s = if position_after p s.position then record s { position = p } else s

-- The test of `Replay` on an event that it has seen.
abbrev pub is_behind : Position → StoredEvent → Bool
is_behind cursor event = not (after event.position cursor)

module _ (event_id : StoredEvent → List ℕ) where
  abbrev pub retry_key : StoredEvent → RetryKey
  retry_key event =
      if is_empty (event_id event)
      then by_position event.event_type event.position
      else by_id (event_id event)

  -- `scheduleRetry`
  unfoldable pub schedule_retry : StoredEvent → Subscriber → Subscriber
  schedule_retry event s =
      if any (same_key (retry_key event)) s.retrying
      then s
      else record s { retrying = s.retrying ++ retry_key event ∷ [] }

  -- What the goroutine of a retry does at its end.
  unfoldable pub forget_retry : StoredEvent → List RetryKey → List RetryKey
  forget_retry event [] = []
  forget_retry event (k ∷ keys) =
      let rest = forget_retry event keys in if same_key (retry_key event) k then rest else k ∷ rest

  module _ {W : Type 0} (handle : StoredEvent → Action W (Unit {0})) where
    -- `handleOrRetry`
    unfoldable pub handle_or_retry : StoredEvent → Subscriber → W → Subscriber × W
    unfolding schedule_retry
    handle_or_retry event s w =
        let (r, w') = handle event w in
        elim r [ ok _ ↦ (s, w') | err _ ↦ (schedule_retry event s, w') ]

    -- The goroutine of `scheduleRetry`. `cancelled` is whether its context is done when a wait ends, and
    -- `fuel` bounds the tries.
    unfoldable pub retry_event :
        (W → Bool) → ℕ → StoredEvent → List RetryKey → W → Option (List RetryKey × W)
    unfolding forget_retry
    retry_event cancelled zero event keys w = none
    retry_event cancelled (suc fuel) event keys w =
        let (r, w') = handle event w in
        let again = retry_event cancelled fuel event keys w' in
        if cancelled w
        then some (forget_retry event keys, w)
        else elim r [ ok _ ↦ some (forget_retry event keys, w') | err _ ↦ again ]

    -- What `Replay` and the handler of `Start` do with an event.
    unfoldable pub take_event : Subscriber → StoredEvent → Action W Subscriber
    take_event s event w =
        let (s', w') = handle_or_retry event s w in (ok (set_position event.position s'), w')

    -- `Replay`. `fuel` bounds the pages.
    unfoldable pub replay_events :
        (Position → Action W (List StoredEvent))
        → List ℕ
        → List ℕ
        → ℕ
        → Subscriber
        → W
        → Option (Result Subscriber × W)
    replay_events read admin_boundary subscriber_name fuel s w =
        if is_empty admin_boundary || is_empty subscriber_name
        then some (err uncoded, w)
        else replay read boundary_lifecycle_replay_batch_size is_behind take_event fuel s.position s
            w

-- The wait before the next try, in milliseconds.
unfoldable pub next_backoff : ℕ → ℕ
next_backoff backoff = if ltb 5000 (backoff * 2) then 5000 else backoff * 2
