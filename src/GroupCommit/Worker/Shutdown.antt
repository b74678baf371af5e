-- ===== src/GroupCommit/Worker/Shutdown.antt =====
-- After Close the worker returns, and every request that was admitted has its result.
use orisun.Base.{ℕ, ◌+◌, ◌<◌, ◌≡◌, refl, true, [], length, arith}
use orisun.GroupCommit.{Config}
use orisun.GroupCommit.Worker.{
  Pc, idle, chosen, draining, drained, flushed, failing, stopped, System, Step, register, enqueue,
  give_up, close, close_queue, take_carry, receive, see_closed, return, drop_chosen, begin_drain,
  drain_request, drain_over, drain_end, drop_batch, flush, drop_carry, go_on, fail_next, fail_done,
  Reach, start, later,
}

-- Where the worker has returned, and where the queue is closed, nothing is left that could be sent.
pub record IsClosing {P R : Type 0} (s : System P R) : Type 0 where
  pub was_closed : s.queue_closed ≡ true → s.closed ≡ true
  pub no_senders : s.queue_closed ≡ true → s.senders ≡ 0
  pub stopped_empty : s.pc ≡ stopped → (s.queue ≡ []) × (s.queue_closed ≡ true)

abbrev rank : {P : Type 0} → Pc P → ℕ
rank idle = 5
rank (chosen sub) = 4
rank (draining batch) = 3
rank (drained batch) = 2
rank flushed = 2
rank failing = 1
rank stopped = 0

-- What every step after the queue is closed makes smaller.
abbrev pub work_left : {P R : Type 0} → System P R → ℕ
work_left s = length s.queue + rank s.pc

module _ {P R : Type 0} {cfg : Config} where
  Step-IsClosing : {s t : System P R} → Step cfg s t → IsClosing s → IsClosing t
  Step-IsClosing {s} (register e) c = record {
    was_closed = c.was_closed;
    no_senders = λ q. ground (arith, c.was_closed q);
    stopped_empty = c.stopped_empty;
  }
  Step-IsClosing {s} (enqueue sub e f g) c = record {
    was_closed = c.was_closed;
    no_senders = λ q. ground (arith, c.no_senders q);
    stopped_empty = λ p. ground (arith, c.stopped_empty p, c.no_senders (c.stopped_empty p).1);
  }
  Step-IsClosing {s} (give_up e) c = record {
    was_closed = c.was_closed;
    no_senders = λ q. ground (arith, c.no_senders q);
    stopped_empty = c.stopped_empty;
  }
  Step-IsClosing {s} (close e) c = record {
    was_closed = λ q. refl;
    no_senders = c.no_senders;
    stopped_empty = c.stopped_empty;
  }
  Step-IsClosing {s} (close_queue e f g) c = record {
    was_closed = λ q. e;
    no_senders = λ q. f;
    stopped_empty = λ p. ((c.stopped_empty p).0, refl);
  }
  Step-IsClosing {s} (return e f g h) c = record {
    was_closed = c.was_closed;
    no_senders = c.no_senders;
    stopped_empty = λ p. (g, h);
  }
  Step-IsClosing {s} (fail_done e f g) c = record {
    was_closed = c.was_closed;
    no_senders = c.no_senders;
    stopped_empty = λ p. (f, g);
  }
  Step-IsClosing {s} (fail_next sub rest e f) c = record {
    was_closed = c.was_closed;
    no_senders = c.no_senders;
    stopped_empty = λ p. ground (arith, c.stopped_empty p);
  }
  Step-IsClosing {s} (take_carry sub e f) c = record {
    was_closed = c.was_closed;
    no_senders = c.no_senders;
    stopped_empty = λ p. ground arith;
  }
  Step-IsClosing {s} (receive sub rest e f g) c = record {
    was_closed = c.was_closed;
    no_senders = c.no_senders;
    stopped_empty = λ p. ground arith;
  }
  Step-IsClosing {s} (see_closed e f g) c = record {
    was_closed = c.was_closed;
    no_senders = c.no_senders;
    stopped_empty = λ p. ground arith;
  }
  Step-IsClosing {s} (drop_chosen sub e f) c = record {
    was_closed = c.was_closed;
    no_senders = c.no_senders;
    stopped_empty = λ p. ground arith;
  }
  Step-IsClosing {s} (begin_drain sub e f) c = record {
    was_closed = c.was_closed;
    no_senders = c.no_senders;
    stopped_empty = λ p. ground arith;
  }
  Step-IsClosing {s} (drain_request batch rest sub e f g h i) c = record {
    was_closed = c.was_closed;
    no_senders = c.no_senders;
    stopped_empty = λ p. ground arith;
  }
  Step-IsClosing {s} (drain_over batch rest sub e f g h i) c = record {
    was_closed = c.was_closed;
    no_senders = c.no_senders;
    stopped_empty = λ p. ground arith;
  }
  Step-IsClosing {s} (drain_end batch e) c = record {
    was_closed = c.was_closed;
    no_senders = c.no_senders;
    stopped_empty = λ p. ground arith;
  }
  Step-IsClosing {s} (drop_batch batch e f) c = record {
    was_closed = c.was_closed;
    no_senders = c.no_senders;
    stopped_empty = λ p. ground arith;
  }
  Step-IsClosing {s} (flush batch execute e f) c = record {
    was_closed = c.was_closed;
    no_senders = c.no_senders;
    stopped_empty = λ p. ground arith;
  }
  Step-IsClosing {s} (drop_carry e f) c = record {
    was_closed = c.was_closed;
    no_senders = c.no_senders;
    stopped_empty = λ p. ground arith;
  }
  Step-IsClosing {s} (go_on e f) c = record {
    was_closed = c.was_closed;
    no_senders = c.no_senders;
    stopped_empty = λ p. ground arith;
  }

  pub Reach-IsClosing : {s : System P R} → Reach cfg s → IsClosing s
  Reach-IsClosing start = record {
    was_closed = λ q. ground arith;
    no_senders = λ q. refl;
    stopped_empty = λ p. ground arith;
  }
  Reach-IsClosing (later r st) = Step-IsClosing st (Reach-IsClosing r)

  Step-work_left-closed :
      {s t : System P R}
      → Step cfg s t
      → s.closed ≡ true
      → s.senders ≡ 0
      → s.queue_closed ≡ true
      → work_left t < work_left s
  Step-work_left-closed {s = s} (register e) c n q = ground arith
  Step-work_left-closed {s = s} (enqueue sub e f g) c n q = ground arith
  Step-work_left-closed {s = s} (give_up e) c n q = ground arith
  Step-work_left-closed {s = s} (close e) c n q = ground arith
  Step-work_left-closed {s = s} (close_queue e f g) c n q = ground arith
  Step-work_left-closed {s = s} (take_carry sub e f) c n q = ground arith
  Step-work_left-closed {s = s} (receive sub rest e f g) c n q = ground arith
  Step-work_left-closed {s = s} (see_closed e f g) c n q = ground arith
  Step-work_left-closed {s = s} (return e f g h) c n q = ground arith
  Step-work_left-closed {s = s} (drop_chosen sub e f) c n q = ground arith
  Step-work_left-closed {s = s} (begin_drain sub e f) c n q = ground arith
  Step-work_left-closed {s = s} (drain_request batch rest sub e f g h i) c n q = ground arith
  Step-work_left-closed {s = s} (drain_over batch rest sub e f g h i) c n q = ground arith
  Step-work_left-closed {s = s} (drain_end batch e) c n q = ground arith
  Step-work_left-closed {s = s} (drop_batch batch e f) c n q = ground arith
  Step-work_left-closed {s = s} (flush batch execute e f) c n q = ground arith
  Step-work_left-closed {s = s} (drop_carry e f) c n q = ground arith
  Step-work_left-closed {s = s} (go_on e f) c n q = ground arith
  Step-work_left-closed {s = s} (fail_next sub rest e f) c n q = ground arith
  Step-work_left-closed {s = s} (fail_done e f g) c n q = ground arith

-- In a state that can be reached and in which the queue is closed, every step makes the measure smaller
-- that counts the queued requests and the stages the worker still has to go through, so that only
-- finitely many steps follow.
pub Step-work_left :
    {P R : Type 0} {cfg : Config} {s t : System P R}
    → Reach cfg s
    → s.queue_closed ≡ true
    → Step cfg s t
    → work_left t < work_left s
Step-work_left {s = s} r q st =
    let c : IsClosing s = Reach-IsClosing r in
    Step-work_left-closed st (c.was_closed q) (c.no_senders q) q
