-- ===== src/GroupCommit/Worker/Keeps.antt =====
-- No request is lost, overtaken or answered twice.
use orisun.Base.{
  ◌+◌, ◌≤◌, ◌≡◌, refl, subst, true, ◌⊎◌, Option, none, List, [], ◌∷◌, ◌++◌, length, length-append,
  all, arith, inl, inr,
}
use mathlib.Core.List.{append_assoc}
use orisun.GroupCommit.{Request, Config, Executed, err_closed, run_flush}
use orisun.GroupCommit.Flush.{Submission, submitted, results, is_delivered, run_flush_lem}
use orisun.GroupCommit.Worker.{
  Pc, idle, chosen, draining, drained, flushed, failing, stopped, System, events_in, carry_of,
  initial, answer_closed, Step, register, enqueue, give_up, close, close_queue, take_carry, receive,
  see_closed, return, drop_chosen, begin_drain, drain_request, drain_over, drain_end, drop_batch,
  flush, drop_carry, go_on, fail_next, fail_done, Reach, start, later,
}
use orisun.GroupCommit.Worker.Answers.{
  submissions, submissions-append, submissions-fail, results-fail, results-append,
  submissions-run_flush,
}

-- The requests that the worker holds.
abbrev pub held : {P : Type 0} → Pc P → List (Submission P)
held idle = []
held (chosen sub) = sub ∷ []
held (draining batch) = batch
held (drained batch) = batch
held flushed = []
held failing = []
held stopped = []

-- The requests that are admitted and have no result yet, in order.
abbrev pub pending : {P R : Type 0} → System P R → List (Submission P)
pending s = held s.pc ++ (carry_of s.carry ++ s.queue)

-- Within the bounds, or one request alone.
abbrev pub IsBatch : {P : Type 0} → Config → List (Submission P) → Type 0
IsBatch cfg batch =
    (length batch ≤ cfg.max_batch_requests)
    × ((events_in batch ≤ cfg.max_batch_events) ⊎ (length batch ≡ 1))

-- What holds where the worker stands.
abbrev pub IsAt : {P : Type 0} → Config → Pc P → Option (Submission P) → Type 0
IsAt cfg idle carry = Unit {0}
IsAt cfg (chosen sub) carry = carry ≡ none
IsAt cfg (draining batch) carry = (carry ≡ none) × IsBatch cfg batch
IsAt cfg (drained batch) carry = IsBatch cfg batch
IsAt cfg flushed carry = Unit {0}
IsAt cfg failing carry = carry ≡ none
IsAt cfg stopped carry = carry ≡ none

pub record IsKept {P R : Type 0} (cfg : Config) (s : System P R) : Type 0 where
  pub in_order : submissions s.answered ++ pending s ≡ s.admitted
  pub complete : all is_delivered (results s.answered) ≡ true
  pub bounded : length s.queue ≤ cfg.max_pending
  pub at : IsAt cfg s.pc s.carry

module _ (P R : Type 0) (cfg : Config) where
  order_closed :
      (answered : List (Request P R)) (batch rest : List (Submission P))
      → submissions (answered ++ answer_closed batch) ++ rest
        ≡ submissions answered ++ (batch ++ rest)
  order_closed answered batch rest =
      rw
        (
          submissions-append P R answered (answer_closed batch),
          submissions-fail P R batch err_closed,
        )
        (append_assoc (submissions answered) batch rest)

  complete_closed :
      (answered : List (Request P R)) (batch : List (Submission P))
      → all is_delivered (results answered) ≡ true
      → all is_delivered (results (answered ++ answer_closed batch)) ≡ true
  complete_closed answered batch h =
      ground (
        arith,
        results-append P R answered (answer_closed batch),
        results-fail P R batch err_closed,
      )

  order_flush :
      (execute : List P → Executed R) (answered : List (Request P R))
      (batch rest : List (Submission P))
      → submissions (answered ++ run_flush execute (submitted batch)) ++ rest
        ≡ submissions answered ++ (batch ++ rest)
  order_flush execute answered batch rest =
      rw
        (
          submissions-append P R answered (run_flush execute (submitted batch)),
          submissions-run_flush P R execute batch,
        )
        (append_assoc (submissions answered) batch rest)

  complete_flush :
      (execute : List P → Executed R) (answered : List (Request P R)) (batch : List (Submission P))
      → all is_delivered (results answered) ≡ true
      → all is_delivered (results (answered ++ run_flush execute (submitted batch))) ≡ true
  complete_flush execute answered batch h = ground (
    arith,
    results-append P R answered (run_flush execute (submitted batch)),
    (run_flush_lem P R execute batch).1,
  )

  events_in-append :
      (xs ys : List (Submission P)) → events_in (xs ++ ys) ≡ events_in xs + events_in ys
  events_in-append [] ys = omega arith
  events_in-append (x ∷ xs) ys = omega (arith, events_in-append xs ys)

  initial-IsKept : IsKept cfg (initial {P = P} {R = R})
  initial-IsKept = record { in_order = refl; complete = refl; bounded = omega arith; at = tt }

  Step-IsKept :
      {s t : System P R} → 1 ≤ cfg.max_batch_requests → Step cfg s t → IsKept cfg s → IsKept cfg t
  Step-IsKept {s} h (register e) k = record {
    in_order = k.in_order;
    complete = k.complete;
    bounded = k.bounded;
    at = k.at;
  }
  Step-IsKept {s} h (enqueue sub e f g) k = record {
    in_order = ground (
      arith,
      k.in_order,
      append_assoc (submissions s.answered) (pending s) (sub ∷ []),
      append_assoc (held s.pc) (carry_of s.carry ++ s.queue) (sub ∷ []),
      append_assoc (carry_of s.carry) s.queue (sub ∷ []),
    );
    complete = k.complete;
    bounded = omega (arith, length-append {0} s.queue (sub ∷ []));
    at = k.at;
  }
  Step-IsKept {s} h (give_up e) k = record {
    in_order = k.in_order;
    complete = k.complete;
    bounded = k.bounded;
    at = k.at;
  }
  Step-IsKept {s} h (close e) k = record {
    in_order = k.in_order;
    complete = k.complete;
    bounded = k.bounded;
    at = k.at;
  }
  Step-IsKept {s} h (close_queue e f g) k = record {
    in_order = k.in_order;
    complete = k.complete;
    bounded = k.bounded;
    at = k.at;
  }
  Step-IsKept {s} h (take_carry sub e f) k = record {
    in_order = ground (arith, k.in_order);
    complete = k.complete;
    bounded = k.bounded;
    at = refl;
  }
  Step-IsKept {s} h (receive sub rest e f g) k = record {
    in_order = ground (arith, k.in_order);
    complete = k.complete;
    bounded = ground (arith, k.bounded);
    at = f;
  }
  Step-IsKept {s} h (see_closed e f g) k = record {
    in_order = ground (arith, k.in_order);
    complete = k.complete;
    bounded = k.bounded;
    at = f;
  }
  Step-IsKept {s} h (return e f g i) k = record {
    in_order = ground (arith, k.in_order);
    complete = k.complete;
    bounded = k.bounded;
    at = f;
  }
  Step-IsKept {s} h (drop_chosen sub e f) k = record {
    in_order =
        ground
          (arith, k.in_order, order_closed s.answered (sub ∷ []) (carry_of s.carry ++ s.queue));
    complete = complete_closed s.answered (sub ∷ []) k.complete;
    bounded = k.bounded;
    at = ground (arith, k.at);
  }
  Step-IsKept {s} h (begin_drain sub e f) k = record {
    in_order = ground (arith, k.in_order);
    complete = k.complete;
    bounded = k.bounded;
    at = (ground (arith, k.at), (h, inr refl));
  }
  Step-IsKept {s} h (drain_request batch rest sub e f g i j) k =
      let at : IsAt cfg (draining batch) s.carry = subst (λ pc. IsAt cfg pc s.carry) e k.at in
      record {
        in_order = ground (arith, k.in_order, at.0, append_assoc batch (sub ∷ []) rest);
        complete = k.complete;
        bounded = ground (arith, k.bounded);
        at = (
          at.0,
          (
            omega (arith, length-append {0} batch (sub ∷ [])),
            inl (omega (arith, events_in-append batch (sub ∷ []))),
          ),
        );
      }
  Step-IsKept {s} h (drain_over batch rest sub e f g i j) k =
      let at : IsAt cfg (draining batch) s.carry = subst (λ pc. IsAt cfg pc s.carry) e k.at in
      record {
        in_order = ground (arith, k.in_order, at.0);
        complete = k.complete;
        bounded = ground (arith, k.bounded);
        at = at.1;
      }
  Step-IsKept {s} h (drain_end batch e) k =
      let at : IsAt cfg (draining batch) s.carry = subst (λ pc. IsAt cfg pc s.carry) e k.at in
      record {
        in_order = ground (arith, k.in_order);
        complete = k.complete;
        bounded = k.bounded;
        at = at.1;
      }
  Step-IsKept {s} h (drop_batch batch e f) k = record {
    in_order = ground (
      arith,
      k.in_order,
      order_closed s.answered (batch ++ carry_of s.carry) s.queue,
      append_assoc batch (carry_of s.carry) s.queue,
    );
    complete = complete_closed s.answered (batch ++ carry_of s.carry) k.complete;
    bounded = k.bounded;
    at = refl;
  }
  Step-IsKept {s} h (flush batch execute e f) k = record {
    in_order =
        ground
          (arith, k.in_order, order_flush execute s.answered batch (carry_of s.carry ++ s.queue));
    complete = complete_flush execute s.answered batch k.complete;
    bounded = k.bounded;
    at = tt;
  }
  Step-IsKept {s} h (drop_carry e f) k = record {
    in_order = ground (arith, k.in_order, order_closed s.answered (carry_of s.carry) s.queue);
    complete = complete_closed s.answered (carry_of s.carry) k.complete;
    bounded = k.bounded;
    at = refl;
  }
  Step-IsKept {s} h (go_on e f) k = record {
    in_order = ground (arith, k.in_order);
    complete = k.complete;
    bounded = k.bounded;
    at = tt;
  }
  Step-IsKept {s} h (fail_next sub rest e f) k =
      let at : IsAt cfg failing s.carry = subst (λ pc. IsAt cfg pc s.carry) e k.at in
      record {
        in_order = ground (arith, k.in_order, at, order_closed s.answered (sub ∷ []) rest);
        complete = complete_closed s.answered (sub ∷ []) k.complete;
        bounded = ground (arith, k.bounded);
        at = k.at;
      }
  Step-IsKept {s} h (fail_done e f g) k = record {
    in_order = ground (arith, k.in_order);
    complete = k.complete;
    bounded = k.bounded;
    at = ground (arith, k.at);
  }

-- In every state that a coordinator can reach, with at least one request allowed in a batch: the
-- requests that have a result, followed by those that the worker holds, the one carried over and the
-- queued ones, are the admitted requests in the order of their admission; every request counted as
-- answered has a result; the queue is within its bound; and so is a batch, unless it is one request
-- alone.
pub Reach-IsKept :
    {P R : Type 0} {cfg : Config} {s : System P R}
    → 1 ≤ cfg.max_batch_requests
    → Reach cfg s
    → IsKept cfg s
Reach-IsKept {P} {R} {cfg} h start = initial-IsKept P R cfg
Reach-IsKept {P} {R} {cfg} h (later r st) = Step-IsKept P R cfg h st (Reach-IsKept h r)
