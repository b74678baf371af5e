-- ===== src/GroupCommit/Worker.antt =====
-- The life of one boundary's queue in internal/groupcommit/coordinator.go: Submit, runWorker,
-- failFast and Close, as steps that may be taken in any order. A request that has no result yet is the
-- submission it is made of.
pub mod Answers
pub mod Keeps
pub mod Shutdown
pub mod Returns
use orisun.Base.{
  ℕ, zero, suc, ◌+◌, ◌-◌, ◌≤◌, ◌<◌, ◌≡◌, Bool, true, false, ◌&&◌, ◌||◌, Option, none, some, List,
  [], ◌∷◌, ◌++◌, length,
}
use orisun.GroupCommit.{Request, Config, Executed, FlushError, err_closed, fail, run_flush}
use orisun.GroupCommit.Flush.{Submission, submitted}

-- Where the worker stands in the loop of `runWorker`.
pub data Pc (P : Type 0) : Type 0 where
  idle : Pc P  -- at the head of the loop
  chosen : Submission P → Pc P  -- `req` is set
  draining : List (Submission P) → Pc P  -- in the loop of `drainBatch`
  drained : List (Submission P) → Pc P  -- after `drainBatch`
  flushed : Pc P  -- after `runFlush`
  failing : Pc P  -- in `failFast`
  stopped : Pc P  -- returned

-- The queue with what `Submit` and `Close` keep of it, the worker, and two histories: the requests
-- that were admitted and the ones that have a result, each in order.
pub record System (P R : Type 0) : Type 0 where
  pub queue : List (Submission P)
  pub senders : ℕ
  pub closed : Bool
  pub queue_closed : Bool
  pub pc : Pc P
  pub carry : Option (Submission P)
  pub admitted : List (Submission P)
  pub answered : List (Request P R)

abbrev pub events_of : {P : Type 0} → Submission P → ℕ
events_of (cancelled, prepared, events) = events

abbrev pub events_in : {P : Type 0} → List (Submission P) → ℕ
events_in [] = 0
events_in (sub ∷ batch) = events_of sub + events_in batch

abbrev pub carry_of : {P : Type 0} → Option (Submission P) → List (Submission P)
carry_of none = []
carry_of (some sub) = sub ∷ []

abbrev pub initial : {P R : Type 0} → System P R
initial = record {
  queue = [];
  senders = 0;
  closed = false;
  queue_closed = false;
  pc = idle;
  carry = none;
  admitted = [];
  answered = [];
}

-- `fail(batch, ErrClosed)` on requests that have no result yet.
abbrev pub answer_closed : {P R : Type 0} → List (Submission P) → List (Request P R)
answer_closed batch = fail (submitted batch) err_closed

pub data Step {P R : Type 0} (cfg : Config) (s : System P R) : System P R → Type 0 where
  -- `Submit` passes its tests and is counted in `senders`.
  register : s.closed ≡ false → Step cfg s (record s { senders = s.senders + 1 })
  -- Its `select` sends the request.
  enqueue :
      (sub : Submission P)
      → 1 ≤ s.senders
      → 1 ≤ events_of sub
      → length s.queue < cfg.max_pending
      → Step cfg s (record s {
        senders = s.senders - 1;
        queue = s.queue ++ sub ∷ [];
        admitted = s.admitted ++ sub ∷ [];
      })
  -- Its `select` sees the context or `closed` done.
  give_up : 1 ≤ s.senders → Step cfg s (record s { senders = s.senders - 1 })
  -- `Close` closes `closed`, and the queue when no sender is left.
  close : s.closed ≡ false → Step cfg s (record s { closed = true })
  close_queue :
      s.closed ≡ true
      → s.senders ≡ 0
      → s.queue_closed ≡ false
      → Step cfg s (record s { queue_closed = true })
  -- The head of the loop of `runWorker`.
  take_carry :
      (sub : Submission P)
      → s.pc ≡ idle
      → s.carry ≡ some sub
      → Step cfg s (record s { pc = chosen sub; carry = none })
  receive :
      (sub : Submission P) (rest : List (Submission P))
      → s.pc ≡ idle
      → s.carry ≡ none
      → s.queue ≡ sub ∷ rest
      → Step cfg s (record s { pc = chosen sub; queue = rest })
  see_closed :
      s.pc ≡ idle → s.carry ≡ none → s.closed ≡ true → Step cfg s (record s { pc = failing })
  return :
      s.pc ≡ idle
      → s.carry ≡ none
      → s.queue ≡ []
      → s.queue_closed ≡ true
      → Step cfg s (record s { pc = stopped })
  -- The first test of `closed`, and the start of `drainBatch`.
  drop_chosen :
      (sub : Submission P)
      → s.pc ≡ chosen sub
      → s.closed ≡ true
      → Step cfg s (record s { pc = failing; answered = s.answered ++ answer_closed (sub ∷ []) })
  begin_drain :
      (sub : Submission P)
      → s.pc ≡ chosen sub
      → s.closed ≡ false
      → Step cfg s (record s { pc = draining (sub ∷ []) })
  -- The loop of `drainBatch`. When it ends is left open: the code ends it at the bounds, when nothing
  -- is queued, at the delay, or when the coordinator is closed.
  drain_request :
      (batch rest : List (Submission P)) (sub : Submission P)
      → s.pc ≡ draining batch
      → s.queue ≡ sub ∷ rest
      → length batch < cfg.max_batch_requests
      → events_in batch < cfg.max_batch_events
      → events_in batch + events_of sub ≤ cfg.max_batch_events
      → Step cfg s (record s { pc = draining (batch ++ sub ∷ []); queue = rest })
  drain_over :
      (batch rest : List (Submission P)) (sub : Submission P)
      → s.pc ≡ draining batch
      → s.queue ≡ sub ∷ rest
      → length batch < cfg.max_batch_requests
      → events_in batch < cfg.max_batch_events
      → cfg.max_batch_events < events_in batch + events_of sub
      → Step cfg s (record s { pc = drained batch; carry = some sub; queue = rest })
  drain_end :
      (batch : List (Submission P))
      → s.pc ≡ draining batch
      → Step cfg s (record s { pc = drained batch })
  -- The second test of `closed`, and `runFlush` with any executor.
  drop_batch :
      (batch : List (Submission P))
      → s.pc ≡ drained batch
      → s.closed ≡ true
      → Step cfg s (record s {
        pc = failing;
        carry = none;
        answered = s.answered ++ answer_closed (batch ++ carry_of s.carry);
      })
  flush :
      (batch : List (Submission P)) (execute : List P → Executed R)
      → s.pc ≡ drained batch
      → s.closed ≡ false
      → Step cfg s
          (record s { pc = flushed; answered = s.answered ++ run_flush execute (submitted batch) })
  -- The third test of `closed`, and the next round.
  drop_carry :
      s.pc ≡ flushed
      → s.closed ≡ true
      → Step cfg s (record s {
        pc = failing;
        carry = none;
        answered = s.answered ++ answer_closed (carry_of s.carry);
      })
  go_on : s.pc ≡ flushed → s.closed ≡ false → Step cfg s (record s { pc = idle })
  -- `failFast`: the loop, and its end when the queue is closed.
  fail_next :
      (sub : Submission P) (rest : List (Submission P))
      → s.pc ≡ failing
      → s.queue ≡ sub ∷ rest
      → Step cfg s (record s { queue = rest; answered = s.answered ++ answer_closed (sub ∷ []) })
  fail_done :
      s.pc ≡ failing → s.queue ≡ [] → s.queue_closed ≡ true → Step cfg s (record s { pc = stopped })

-- The states that the coordinator can reach.
pub data Reach {P R : Type 0} (cfg : Config) : System P R → Type 0 where
  start : Reach cfg initial
  later : {s t : System P R} → Reach cfg s → Step cfg s t → Reach cfg t

-- Any number of steps.
pub data Steps {P R : Type 0} (cfg : Config) (s : System P R) : System P R → Type 0 where
  none_more : Steps cfg s s
  then_step : {t u : System P R} → Steps cfg s t → Step cfg t u → Steps cfg s u
