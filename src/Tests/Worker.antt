-- ===== src/Tests/Worker.antt =====
-- The theorems on the worker of the group-commit coordinator, at a concrete run.
use orisun.Base.{ℕ, ◌<◌, refl, true, none, [], ◌∷◌, arith}
use orisun.GroupCommit.{Config}
use orisun.GroupCommit.Flush.{Submission}
use orisun.GroupCommit.Worker.{
  System, draining, drained, register, enqueue, close, close_queue, receive, begin_drain, drain_end,
  Reach, start, later,
}
use orisun.GroupCommit.Worker.Keeps.{IsKept, Reach-IsKept}
use orisun.GroupCommit.Worker.Shutdown.{work_left, Step-work_left}
use orisun.GroupCommit.Worker.Returns.{Finished, Reach-Finished}

abbrev cfg : Config
cfg = record { max_batch_requests = 2; max_batch_events = 10; max_pending = 4 }

abbrev first : Submission ℕ
first = (none, 10, 1)

abbrev second : Submission ℕ
second = (none, 20, 3)

-- Two requests are admitted, the worker has taken the first, and the coordinator is closed.
abbrev at_close : System ℕ ℕ
at_close = record {
  queue = second ∷ [];
  senders = 0;
  closed = true;
  queue_closed = true;
  pc = draining (first ∷ []);
  carry = none;
  admitted = first ∷ second ∷ [];
  answered = [];
}

at_close-Reach : Reach cfg at_close
at_close-Reach =
    later
      (later
        (later
          (later
            (later
              (later
                (later (later start (register refl))
                  (enqueue first (omega arith) (omega arith) (omega arith)))
                (register refl))
              (enqueue second (omega arith) (omega arith) (omega arith)))
            (receive first (second ∷ []) refl refl refl))
          (begin_drain first refl refl))
        (close refl))
      (close_queue refl refl refl)

Reach-IsKept_example : IsKept cfg at_close
Reach-IsKept_example = Reach-IsKept (omega arith) at_close-Reach

Step-work_left_example :
    work_left (record at_close { pc = drained (first ∷ []) }) < work_left at_close
Step-work_left_example = Step-work_left at_close-Reach refl (drain_end (first ∷ []) refl)

Reach-Finished_example : Finished cfg at_close
Reach-Finished_example = Reach-Finished (omega arith) at_close-Reach refl
