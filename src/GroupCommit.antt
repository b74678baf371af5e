-- ===== src/GroupCommit.antt =====
-- internal/groupcommit/coordinator.go: how the worker of a boundary forms a batch and completes it.
-- Requests that other goroutines submit are a list, in the order in which the queue gives them.
pub mod Batch
pub mod Flush
pub mod Worker
use orisun.Base.{
  ℕ, zero, suc, ◌+◌, ◌≡◌, refl, Bool, true, false, ◌&&◌, Option, none, some, List, [], ◌∷◌, ◌++◌,
  ltb, ◌==◌, length, if◌then◌else◌,
}
use orisun.Status.{ContextError}

-- The errors that a caller of `Submit` may receive from the worker.
pub data FlushError : Type 0 where
  context_error : ContextError → FlushError
  flush_failed flush_panic err_closed : FlushError
  wrong_outcomes : ℕ → ℕ → FlushError

-- `completion`
pub data Completion (R : Type 0) : Type 0 where
  completed : R → Completion R
  failed : FlushError → Completion R

-- `request`. `result` is what the channel of capacity one holds, and `delivered` the flag, without
-- which no result is sent.
pub record Request (P R : Type 0) : Type 0 where
  pub cancelled : Option ContextError
  pub prepared : P
  pub events : ℕ
  pub result : Option (Completion R)
  pub delivered : Bool

-- The request that `Submit` makes. `cancelled` is what `ctx.Err()` gives when the flush begins.
unfoldable pub new_request : {P R : Type 0} → Option ContextError → P → ℕ → Request P R
new_request cancelled prepared events = record {
  cancelled = cancelled;
  prepared = prepared;
  events = events;
  result = none;
  delivered = false;
}

-- `Config`, up to its durations.
pub record Config : Type 0 where
  pub max_batch_requests : ℕ
  pub max_batch_events : ℕ
  pub max_pending : ℕ

-- What an `Executor` does with the prepared inputs.
pub data Executed (R : Type 0) : Type 0 where
  returned : List R → Executed R
  returned_error panicked : Executed R

-- What `drainBatch` leaves: the batch, the request to carry over, and what is still queued.
pub record Drained (P R : Type 0) : Type 0 where
  pub batch : List (Request P R)
  pub carry : Option (Request P R)
  pub queue : List (Request P R)

module _ {P R : Type 0} where
  -- `deliver`
  unfoldable pub deliver : Completion R → Request P R → Request P R
  deliver result req =
      if req.delivered then req else record req { result = some result; delivered = true }

  -- `fail`
  unfoldable pub fail : List (Request P R) → FlushError → List (Request P R)
  unfolding deliver
  fail [] err = []
  fail (req ∷ batch) err = deliver (failed err) req ∷ fail batch err

  -- The loop of `drainBatch`. The list ends where its select sees anything but a request.
  unfoldable pub drain_loop : Config → List (Request P R) → ℕ → List (Request P R) → Drained P R
  drain_loop cfg batch events [] = record { batch = batch; carry = none; queue = [] }
  drain_loop cfg batch events (req ∷ queue) =
      let rest = drain_loop cfg (batch ++ req ∷ []) (events + req.events) queue in
      if ltb (length batch) cfg.max_batch_requests && ltb events cfg.max_batch_events
      then (if ltb cfg.max_batch_events (events + req.events)
          then record { batch = batch; carry = some req; queue = queue }
          else rest)
      else record { batch = batch; carry = none; queue = req ∷ queue }

  -- `drainBatch`
  unfoldable pub drain_batch : Config → List (Request P R) → Request P R → Drained P R
  unfolding drain_loop
  drain_batch cfg queue first = drain_loop cfg (first ∷ []) first.events queue

  -- The first loop of `runFlush`: a request that is cancelled is completed with its error.
  unfoldable pub deliver_cancelled : List (Request P R) → List (Request P R)
  unfolding deliver
  deliver_cancelled [] = []
  deliver_cancelled (req ∷ batch) = elim req.cancelled [
    | some e ↦ deliver (failed (context_error e)) req ∷ deliver_cancelled batch
    | none ↦ req ∷ deliver_cancelled batch
  ]

  -- The inputs of the others, in order.
  unfoldable pub live_prepared : List (Request P R) → List P
  live_prepared [] = []
  live_prepared (req ∷ batch) = elim req.cancelled [
    | some e ↦ live_prepared batch
    | none ↦ req.prepared ∷ live_prepared batch
  ]

  -- `fail(live, err)`, in the batch that the live requests are taken from.
  unfoldable pub fail_live : List (Request P R) → FlushError → List (Request P R)
  unfolding deliver
  fail_live [] err = []
  fail_live (req ∷ batch) err = elim req.cancelled [
    | some e ↦ req ∷ fail_live batch err
    | none ↦ deliver (failed err) req ∷ fail_live batch err
  ]

  -- The last loop of `runFlush`: the outcomes go to the live requests in order.
  unfoldable pub deliver_outcomes : List (Request P R) → List R → List (Request P R)
  unfolding deliver
  deliver_outcomes [] outcomes = []
  deliver_outcomes (req ∷ batch) [] = req ∷ batch
  deliver_outcomes (req ∷ batch) (outcome ∷ outcomes) = elim req.cancelled [
    | some e ↦ req ∷ deliver_outcomes batch (outcome ∷ outcomes)
    | none ↦ deliver (completed outcome) req ∷ deliver_outcomes batch outcomes
  ]

  -- `runFlush` after `execute`.
  unfoldable pub after_execute : List (Request P R) → ℕ → Executed R → List (Request P R)
  unfolding fail fail_live deliver_outcomes
  after_execute batch live panicked = fail batch flush_panic
  after_execute batch live returned_error = fail_live batch flush_failed
  after_execute batch live (returned outcomes) =
      if length outcomes == live
      then deliver_outcomes batch outcomes
      else fail_live batch (wrong_outcomes (length outcomes) live)

  -- `runFlush`
  unfoldable pub run_flush : (List P → Executed R) → List (Request P R) → List (Request P R)
  unfolding deliver_cancelled live_prepared after_execute
  run_flush execute batch =
      if length (live_prepared batch) == 0
      then deliver_cancelled batch
      else after_execute (deliver_cancelled batch) (length (live_prepared batch))
          (execute (live_prepared batch))
