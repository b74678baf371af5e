-- ===== src/Boundaries/Replay.antt =====
-- The loop that the replays of admin/slices share: pages of events are read from a cursor, what was seen
-- is skipped, and each other event is taken in turn (replayCatalog of boundary_catalog/query_handler.go
-- and Replay of boundary_provisioning/subscriber.go).
pub mod Page
pub mod Complete
use orisun.Base.{
  ℕ, zero, suc, Bool, true, false, not, ◌||◌, Option, none, some, List, [], ◌∷◌, ltb, length,
  if◌then◌else◌,
}
use orisun.Status.{Result, ok, err}
use orisun.Position.{Position}
use orisun.Boundaries.{StoredEvent, Action, ◌>>=◌, lift}

module _ {W S : Type 0} (read : Position → Action W (List StoredEvent)) (limit : ℕ)
    (skips : Position → StoredEvent → Bool) (step : S → StoredEvent → Action W S) where
  -- The loop over a page: the cursor, whether it advanced, and the state.
  unfoldable pub take_page : Position → Bool → S → List StoredEvent → Action W (Position × Bool × S)
  take_page cursor advanced s [] = lift (ok (cursor, advanced, s))
  take_page cursor advanced s (event ∷ page) =
      let skipped = take_page cursor advanced s page in
      if skips cursor event
      then skipped
      else (step s event >>= (λ next. take_page event.position true next page))

  -- `fuel` bounds the pages.
  unfoldable pub replay : ℕ → Position → S → W → Option (Result S × W)
  unfolding take_page
  replay zero cursor s w = none
  replay (suc fuel) cursor s w =
      let (batch, w') = read cursor w in
      elim batch [
        | err e ↦ some (err e, w')
        | ok page ↦
            let (r, w'') = take_page cursor false s page w' in
            elim r [
              | err e ↦ some (err e, w'')
              | ok (next, advanced, s') ↦
                  let again = replay fuel next s' w'' in
                  if ltb (length page) limit || not advanced then some (ok s', w'') else again
            ]
      ]
