-- ===== src/GroupCommit/Worker/Answers.antt =====
-- Delivering results leaves a batch of requests as they were submitted.
use orisun.Base.{
  ℕ, ◌≡◌, refl, ap, true, List, [], ◌∷◌, ◌++◌, length, all, arith, Bool-cases, Option-cases, ◌&&◌,
  inl, inr,
}
use orisun.GroupCommit.{
  Request, new_request, Executed, returned, returned_error, panicked, Completion, completed, failed,
  FlushError, context_error, deliver, fail, flush_panic, flush_failed, wrong_outcomes,
  deliver_cancelled, fail_live, deliver_outcomes, after_execute, run_flush, live_prepared,
}
use orisun.GroupCommit.Flush.{Submission, submitted, results, is_delivered}

-- What a request was submitted with.
abbrev pub submission_of : {P R : Type 0} → Request P R → Submission P
submission_of req = (req.cancelled, req.prepared, req.events)

abbrev pub submissions : {P R : Type 0} → List (Request P R) → List (Submission P)
submissions [] = []
submissions (req ∷ batch) = submission_of req ∷ submissions batch

module _ (P R : Type 0) where
  pub submissions-append :
      (xs ys : List (Request P R)) → submissions (xs ++ ys) ≡ submissions xs ++ submissions ys
  submissions-append [] ys = refl
  submissions-append (x ∷ xs) ys = ap (◌∷◌ (submission_of x)) (submissions-append xs ys)

  submission-deliver :
      (c : Completion R) (req : Request P R) → submission_of (deliver c req) ≡ submission_of req
  unfolding deliver
  submission-deliver c req = elim (Bool-cases req.delivered) [
    | inl e ↦ rw e refl
    | inr e ↦ rw e refl
  ]

  pub submissions-fail :
      (batch : List (Submission P)) (e : FlushError)
      → submissions {P = P} {R = R} (fail (submitted batch) e) ≡ batch
  unfolding fail new_request
  submissions-fail [] e = refl
  submissions-fail ((c, p, n) ∷ batch) e = ap (◌∷◌ (c, p, n)) (submissions-fail batch e)

  pub results-fail :
      (batch : List (Submission P)) (e : FlushError)
      → all is_delivered (results {P = P} {R = R} (fail (submitted batch) e)) ≡ true
  unfolding fail deliver new_request
  results-fail [] e = refl
  results-fail ((c, p, n) ∷ batch) e = results-fail batch e

  pub results-append :
      (xs ys : List (Request P R))
      → all is_delivered (results (xs ++ ys))
        ≡ (all is_delivered (results xs) && all is_delivered (results ys))
  results-append [] ys = refl
  results-append (x ∷ xs) ys = ground (arith, results-append xs ys)

  submissions-fail_any :
      (batch : List (Request P R)) (e : FlushError) → submissions (fail batch e) ≡ submissions batch
  unfolding fail
  submissions-fail_any [] e = refl
  submissions-fail_any (req ∷ batch) e =
      rw (submission-deliver (failed e) req, submissions-fail_any batch e) refl

  submissions-deliver_cancelled :
      (batch : List (Request P R)) → submissions (deliver_cancelled batch) ≡ submissions batch
  unfolding deliver_cancelled
  submissions-deliver_cancelled [] = refl
  submissions-deliver_cancelled (req ∷ batch) = elim (Option-cases req.cancelled) [
    | inl e ↦ ground (arith, e, submissions-deliver_cancelled batch)
    | inr (x, e) ↦ ground (
      arith,
      e,
      submission-deliver (failed (context_error x)) req,
      submissions-deliver_cancelled batch,
    )
  ]

  submissions-fail_live :
      (batch : List (Request P R)) (e : FlushError)
      → submissions (fail_live batch e) ≡ submissions batch
  unfolding fail_live
  submissions-fail_live [] e = refl
  submissions-fail_live (req ∷ batch) e =
      ground (arith, submission-deliver (failed e) req, submissions-fail_live batch e)

  submissions-deliver_outcomes :
      (batch : List (Request P R)) (outcomes : List R)
      → submissions (deliver_outcomes batch outcomes) ≡ submissions batch
  unfolding deliver_outcomes
  submissions-deliver_outcomes [] outcomes = refl
  submissions-deliver_outcomes (req ∷ batch) [] = refl
  submissions-deliver_outcomes (req ∷ batch) (o ∷ os) = ground (
    arith,
    submission-deliver (completed o) req,
    submissions-deliver_outcomes batch os,
    submissions-deliver_outcomes batch (o ∷ os),
  )

  submissions-submitted :
      (batch : List (Submission P)) → submissions {P = P} {R = R} (submitted batch) ≡ batch
  unfolding new_request
  submissions-submitted [] = refl
  submissions-submitted ((c, p, n) ∷ batch) = ap (◌∷◌ (c, p, n)) (submissions-submitted batch)

  submissions-after_execute :
      (batch : List (Request P R)) (n : ℕ) (x : Executed R)
      → submissions (after_execute batch n x) ≡ submissions batch
  unfolding after_execute
  submissions-after_execute batch n panicked = submissions-fail_any batch flush_panic
  submissions-after_execute batch n returned_error = submissions-fail_live batch flush_failed
  submissions-after_execute batch n (returned outcomes) = ground (
    arith,
    submissions-deliver_outcomes batch outcomes,
    submissions-fail_live batch (wrong_outcomes (length outcomes) n),
  )

  pub submissions-run_flush :
      (execute : List P → Executed R) (batch : List (Submission P))
      → submissions (run_flush execute (submitted batch)) ≡ batch
  unfolding run_flush
  submissions-run_flush execute batch = ground (
    arith,
    submissions-deliver_cancelled (submitted batch),
    submissions-submitted batch,
    submissions-after_execute (deliver_cancelled (submitted batch))
        (length (live_prepared {P = P} {R = R} (submitted batch)))
        (execute (live_prepared {P = P} {R = R} (submitted batch))),
  )
