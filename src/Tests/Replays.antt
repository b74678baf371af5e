-- ===== src/Tests/Replays.antt =====
-- The theorems on replays and on the handler of activations, at a log of two events.
use orisun.Base.{
  ℕ, ◌≡◌, refl, ap, subst, some, List, [], ◌∷◌, ◌++◌, codes, map, length, length-append, take,
  arith, if◌then◌else◌,
}
use orisun.Status.{ok, err, uncoded}
use orisun.Position.{Position, not_exists_position, same, after, position_compare}
use orisun.Catalog.{Catalog, apply_all}
use orisun.Boundaries.{
  StoredEvent, same_type, type_activated, EventData, stored_at, Definition, Action, catalog_event,
}
use orisun.Boundaries.Create.{created_event}
use orisun.Boundaries.Provision.{activated_event}
use orisun.Boundaries.Replay.Complete.{IsReader}
use orisun.Boundaries.Query.{replay_catalog, catalog_read_batch_size}
use orisun.Boundaries.Query.Exposed.{catalog_of, replay_catalog-catalog_of}
use orisun.Boundaries.Query.Handled.{Handled, handle_activation-Exposes}
use orisun.Boundaries.Subscriber.{boundary_lifecycle_replay_batch_size}
use orisun.Boundaries.Subscriber.Replayed.{IsReplayed, replay_events-IsReplayed}
use orisun.Tests.AdminLog.{numbered, position_at}
use orisun.Tests.Boundaries.{admin, orders, untrimmed}

abbrev two_events : List StoredEvent
two_events = numbered 0 (created_event orders ∷ activated_event orders.name ∷ [])

abbrev starting : Position → List StoredEvent → List StoredEvent
starting p [] = []
starting p (e ∷ es) = if same e.position p then e ∷ es else starting p es

-- The names that were installed and activated, the latest first.
abbrev World : Type 0
World = List (List ℕ)

abbrev read_up_to : ℕ → List ℕ → Position → Action World (List StoredEvent)
unfolding not_exists_position
read_up_to limit name p w =
    (ok (take limit (if same p not_exists_position then two_events else starting p two_events)), w)

abbrev installed : Definition → Action World (Unit {0})
installed d w = (ok tt, d.name ∷ w)

abbrev activated : List ℕ → Action World (Unit {0})
activated name w = (ok tt, name ∷ w)

abbrev head_position : List StoredEvent → Position
head_position [] = not_exists_position
head_position (e ∷ es) = e.position

abbrev tail : List StoredEvent → List StoredEvent
tail [] = []
tail (e ∷ es) = es

abbrev activated_orders : EventData
activated_orders = (activated_event orders.name).content

abbrev activation : StoredEvent
activation = stored_at (activated_event orders.name) (position_at 1)

starting_two :
    (before rest : List StoredEvent) (e : StoredEvent)
    → two_events ≡ before ++ e ∷ rest
    → (if same e.position not_exists_position then two_events else starting e.position two_events)
      ≡ e ∷ rest
unfolding not_exists_position
starting_two [] rest e h =
    subst
      (λ p. (if same p not_exists_position then two_events else starting p two_events) ≡ e ∷ rest)
      (ap head_position h) h
starting_two (x ∷ []) rest e h =
    subst
      (λ p. (if same p not_exists_position then two_events else starting p two_events) ≡ e ∷ rest)
      (ap (λ es. head_position (tail es)) h) (ap tail h)
starting_two (x ∷ y ∷ before) rest e h =
    let impossible : ⊥ = omega (arith, ap length h, length-append before (e ∷ rest)) in
    elim impossible [ ]

two_events-IsReader :
    (limit : ℕ) (name : List ℕ) → IsReader World (read_up_to limit name) limit (λ w. two_events)
unfolding not_exists_position
two_events-IsReader limit name = record {
  from_start = λ w. refl;
  from_event =
      λ w before rest e h. ap (λ es. (ok (take limit es), w)) (starting_two before rest e h);
}

replay_catalog-catalog_of_example :
    (replay_catalog (read_up_to catalog_read_batch_size) untrimmed admin 3 orders.name []
      ≡ some (catalog_of [] two_events, []))
    × ((c : Catalog)
        → catalog_of [] two_events ≡ ok c
        → c ≡ apply_all (map catalog_event two_events) [])
unfolding after position_compare not_exists_position
replay_catalog-catalog_of_example =
    replay_catalog-catalog_of (read_up_to catalog_read_batch_size) untrimmed admin orders.name
      (λ w. two_events) (two_events-IsReader catalog_read_batch_size orders.name) 3 []
      (refl, (refl, tt)) (omega arith) refl

handle_activation-Exposes_example :
    Handled
      (read_up_to catalog_read_batch_size)
      untrimmed
      admin
      (λ name w. two_events)
      (two_events-IsReader catalog_read_batch_size)
      3
      []
      installed
      activated
      activation
      orders.name
unfolding after position_compare not_exists_position
handle_activation-Exposes_example =
    handle_activation-Exposes (read_up_to catalog_read_batch_size) untrimmed admin
      (λ name w. two_events) (two_events-IsReader catalog_read_batch_size) 3 [] installed activated
      activation activated_orders refl (refl, (refl, tt)) (omega arith)

-- A handler that fails on the events that are not activations.
abbrev only_activations : StoredEvent → Action World (Unit {0})
only_activations e w =
    (if same_type e.event_type type_activated then ok tt else err uncoded, orders.name ∷ w)

abbrev no_id : StoredEvent → List ℕ
no_id e = []

replay_events-IsReplayed_example :
    IsReplayed no_id only_activations
      (read_up_to boundary_lifecycle_replay_batch_size [])
      admin
      (codes "runtime")
      (λ w. two_events)
      3
      []
unfolding after position_compare not_exists_position
replay_events-IsReplayed_example =
    replay_events-IsReplayed no_id only_activations
      (read_up_to boundary_lifecycle_replay_batch_size []) admin (codes "runtime") (λ w. two_events)
      (two_events-IsReader boundary_lifecycle_replay_batch_size []) 3 [] (λ e v. refl)
      (refl, (refl, tt)) (omega arith) refl
