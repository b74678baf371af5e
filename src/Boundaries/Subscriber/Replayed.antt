-- ===== src/Boundaries/Subscriber/Replayed.antt =====
-- The first Replay of a subscriber, over a log that does not change meanwhile.
use orisun.Base.{ℕ, ◌<◌, ◌≡◌, refl, ap, ◌∙◌, false, ◌||◌, some, List, length}
use orisun.Status.{ok}
use orisun.Position.{Position, not_exists_position}
use orisun.Catalog.{is_empty}
use orisun.Boundaries.{StoredEvent, Action}
use orisun.Boundaries.Replay.Page.{last_position}
use orisun.Boundaries.Replay.Complete.{IsReader, replay_start}
use orisun.Boundaries.Query.Exposed.{Ascending}
use orisun.Boundaries.Subscriber.{
  Subscriber, new_subscriber, boundary_lifecycle_replay_batch_size, is_behind, take_event,
  replay_events,
}
use orisun.Boundaries.Subscriber.Covered.{
  after_irrefl, Ascending-Chain, handled, Covered, run_all-AllTaken, take_event-Taken,
}

module _ {W : Type 0} (event_id : StoredEvent → List ℕ) (handle : StoredEvent → Action W (Unit {0}))
    (read : Position → Action W (List StoredEvent)) (admin_boundary subscriber_name : List ℕ)
    (view : W → List StoredEvent) where
  -- The replay has ended: every event was handed to the handler in order, it succeeded or is retried,
  -- and the cursor is at the last event.
  abbrev pub IsReplayed : ℕ → W → Type 0
  IsReplayed fuel w =
      (t : Subscriber) × (replay_events event_id handle read admin_boundary subscriber_name fuel
          new_subscriber w
        ≡ some (ok t, handled event_id handle (view w) w))
      × Covered event_id handle (view w) w t
      × (t.position ≡ last_position not_exists_position (view w))

-- With fuel for one page more than there are events, a log whose positions increase, and a handler that
-- does not append to that log, the first replay of a subscriber ends. It hands every event to the
-- handler once and in order, an event whose handling failed is retried, and the cursor is at the last
-- event.
pub replay_events-IsReplayed :
    {W : Type 0} (event_id : StoredEvent → List ℕ) (handle : StoredEvent → Action W (Unit {0}))
    (read : Position → Action W (List StoredEvent)) (admin_boundary subscriber_name : List ℕ)
    (view : W → List StoredEvent)
    (reader : IsReader W read boundary_lifecycle_replay_batch_size view) (fuel : ℕ) (w : W)
    → ((e : StoredEvent) (v : W) → view (handle e v).1 ≡ view v)
    → Ascending not_exists_position (view w)
    → length (view w) < fuel
    → (is_empty admin_boundary || is_empty subscriber_name) ≡ false
    → IsReplayed event_id handle read admin_boundary subscriber_name view fuel w
unfolding replay_events new_subscriber
replay_events-IsReplayed event_id handle read admin_boundary subscriber_name view reader fuel w kept
      a f n =
    let (t, (g, k, c, p)) = run_all-AllTaken event_id handle (view w) new_subscriber w a in
    (
      t,
      rw (n, replay_events)
          (replay_start _ Subscriber read 98 is_behind (take_event event_id handle) view reader
              (λ s e v.
                let (s', taken) = take_event-Taken event_id handle e s v in
                ap (λ x. view x.1) taken.0 ∙ kept e v)
              (λ e. rw (after_irrefl e.position) refl) fuel (view w) new_subscriber w refl
              (Ascending-Chain not_exists_position (view w) a) f
            ∙ ap some g),
      c,
      p,
    )
