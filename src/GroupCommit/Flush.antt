-- ===== src/GroupCommit/Flush.antt =====
-- What runFlush delivers to the requests of a batch.
use orisun.Base.{
  ℕ, zero, suc, ◌≡◌, refl, ap, ◌∙◌, Bool, true, false, Option, none, some, List, [], ◌∷◌, ◌==◌,
  length, map, all, if◌then◌else◌, arith, Bool-cases, inl, inr,
}
use orisun.Status.{ContextError}
use orisun.GroupCommit.{
  Request, new_request, Completion, completed, failed, FlushError, context_error, flush_failed,
  flush_panic, wrong_outcomes, Executed, returned, returned_error, panicked, deliver, fail,
  deliver_cancelled, live_prepared, fail_live, deliver_outcomes, after_execute, run_flush,
}

-- Whether the request is cancelled when the flush begins, what it carries, and its number of events.
abbrev pub Submission : Type 0 → Type 0
Submission P = Option ContextError × P × ℕ

abbrev pub submitted : {P R : Type 0} → List (Submission P) → List (Request P R)
submitted [] = []
submitted ((cancelled, prepared, events) ∷ subs) =
    new_request cancelled prepared events ∷ submitted subs

abbrev pub live_inputs : {P : Type 0} → List (Submission P) → List P
live_inputs [] = []
live_inputs ((some e, prepared, events) ∷ subs) = live_inputs subs
live_inputs ((none, prepared, events) ∷ subs) = prepared ∷ live_inputs subs

-- The completions of a batch, when its live requests get the ones given.
abbrev pub answers :
    {P R : Type 0} → List (Submission P) → List (Completion R) → List (Option (Completion R))
answers [] live = []
answers ((some e, prepared, events) ∷ subs) live =
    some (failed (context_error e)) ∷ answers subs live
answers ((none, prepared, events) ∷ subs) [] = none ∷ answers subs []
answers ((none, prepared, events) ∷ subs) (c ∷ cs) = some c ∷ answers subs cs

abbrev repeat : {R : Type 0} → ℕ → Completion R → List (Completion R)
repeat zero c = []
repeat (suc n) c = c ∷ repeat n c

-- What the live requests are to get.
abbrev pub live_answers : {R : Type 0} → ℕ → Executed R → List (Completion R)
live_answers n panicked = repeat n (failed flush_panic)
live_answers n returned_error = repeat n (failed flush_failed)
live_answers n (returned outcomes) =
    if length outcomes == n
    then map completed outcomes
    else repeat n (failed (wrong_outcomes (length outcomes) n))

abbrev pub results : {P R : Type 0} → List (Request P R) → List (Option (Completion R))
results [] = []
results (req ∷ batch) = req.result ∷ results batch

abbrev pub is_delivered : {R : Type 0} → Option (Completion R) → Bool
is_delivered none = false
is_delivered (some c) = true

length-repeat : {R : Type 0} (n : ℕ) (c : Completion R) → length (repeat n c) ≡ n
length-repeat zero c = refl
length-repeat (suc n) c = ground (arith, length-repeat n c)

length-completed :
    {R : Type 0} (outcomes : List R) → length (map completed outcomes) ≡ length outcomes
length-completed [] = refl
length-completed (o ∷ os) = ground (arith, length-completed os)

length-live_answers : {R : Type 0} (n : ℕ) (x : Executed R) → length (live_answers n x) ≡ n
length-live_answers n panicked = length-repeat n (failed flush_panic)
length-live_answers n returned_error = length-repeat n (failed flush_failed)
length-live_answers n (returned outcomes) = elim (Bool-cases (length outcomes == n)) [
  | inl e ↦ rw e (length-completed outcomes ∙ ground arith)
  | inr e ↦ rw e (length-repeat n (failed (wrong_outcomes (length outcomes) n)))
]

module _ (P R : Type 0) where
  live_prepared_lem :
      (subs : List (Submission P)) → live_prepared {R = R} (submitted subs) ≡ live_inputs subs
  unfolding live_prepared new_request
  live_prepared_lem [] = refl
  live_prepared_lem ((some e, p, n) ∷ subs) = live_prepared_lem subs
  live_prepared_lem ((none, p, n) ∷ subs) = ap (◌∷◌ p) (live_prepared_lem subs)

  fail_lem :
      (subs : List (Submission P)) (err : FlushError)
      → results {P = P} {R = R} (fail (deliver_cancelled (submitted subs)) err)
        ≡ answers subs (repeat (length (live_inputs subs)) (failed err))
  unfolding fail deliver_cancelled deliver new_request
  fail_lem [] err = refl
  fail_lem ((some e, p, n) ∷ subs) err =
      ap (◌∷◌ (some (failed (context_error e)))) (fail_lem subs err)
  fail_lem ((none, p, n) ∷ subs) err = ap (◌∷◌ (some (failed err))) (fail_lem subs err)

  fail_live_lem :
      (subs : List (Submission P)) (err : FlushError)
      → results {P = P} {R = R} (fail_live (deliver_cancelled (submitted subs)) err)
        ≡ answers subs (repeat (length (live_inputs subs)) (failed err))
  unfolding fail_live deliver_cancelled deliver new_request
  fail_live_lem [] err = refl
  fail_live_lem ((some e, p, n) ∷ subs) err =
      ap (◌∷◌ (some (failed (context_error e)))) (fail_live_lem subs err)
  fail_live_lem ((none, p, n) ∷ subs) err = ap (◌∷◌ (some (failed err))) (fail_live_lem subs err)

  cancelled_lem :
      (subs : List (Submission P))
      → results {P = P} {R = R} (deliver_cancelled (submitted subs)) ≡ answers subs []
  unfolding deliver_cancelled deliver new_request
  cancelled_lem [] = refl
  cancelled_lem ((some e, p, n) ∷ subs) =
      ap (◌∷◌ (some (failed (context_error e)))) (cancelled_lem subs)
  cancelled_lem ((none, p, n) ∷ subs) = ap (◌∷◌ none) (cancelled_lem subs)

  deliver_outcomes_lem :
      (subs : List (Submission P)) (outcomes : List R)
      → results {P = P} {R = R} (deliver_outcomes (deliver_cancelled (submitted subs)) outcomes)
        ≡ answers subs (map completed outcomes)
  unfolding deliver_outcomes deliver_cancelled deliver new_request
  deliver_outcomes_lem [] outcomes = refl
  deliver_outcomes_lem ((some e, p, n) ∷ subs) [] =
      ap (◌∷◌ (some (failed (context_error e)))) (cancelled_lem subs)
  deliver_outcomes_lem ((none, p, n) ∷ subs) [] = ap (◌∷◌ none) (cancelled_lem subs)
  deliver_outcomes_lem ((some e, p, n) ∷ subs) (o ∷ os) =
      ap (◌∷◌ (some (failed (context_error e)))) (deliver_outcomes_lem subs (o ∷ os))
  deliver_outcomes_lem ((none, p, n) ∷ subs) (o ∷ os) =
      ap (◌∷◌ (some (completed o))) (deliver_outcomes_lem subs os)

  after_execute_lem :
      (subs : List (Submission P)) (x : Executed R)
      → results (after_execute (deliver_cancelled (submitted subs)) (length (live_inputs subs)) x)
        ≡ answers subs (live_answers (length (live_inputs subs)) x)
  unfolding after_execute
  after_execute_lem subs panicked = fail_lem subs flush_panic
  after_execute_lem subs returned_error = fail_live_lem subs flush_failed
  after_execute_lem subs (returned outcomes) =
      elim (Bool-cases (length outcomes == length (live_inputs subs))) [
        | inl e ↦ rw e (deliver_outcomes_lem subs outcomes)
        | inr e ↦
            rw e (fail_live_lem subs (wrong_outcomes (length outcomes) (length (live_inputs subs))))
      ]

  answers_complete :
      (subs : List (Submission P)) (live : List (Completion R))
      → length live ≡ length (live_inputs subs)
      → all is_delivered (answers subs live) ≡ true
  answers_complete [] live h = refl
  answers_complete ((some e, p, n) ∷ subs) live h = answers_complete subs live h
  answers_complete ((none, p, n) ∷ subs) [] h = ground arith
  answers_complete ((none, p, n) ∷ subs) (c ∷ cs) h = answers_complete subs cs (ground arith)

  no_live :
      (subs : List (Submission P)) (live : List (Completion R))
      → length (live_inputs subs) ≡ 0
      → length live ≡ 0
      → answers subs [] ≡ answers subs live
  no_live subs [] h k = refl
  no_live subs (c ∷ cs) h k = ground arith

  results-run_flush :
      (execute : List P → Executed R) (subs : List (Submission P))
      → results (run_flush execute (submitted subs))
        ≡ answers subs (live_answers (length (live_inputs subs)) (execute (live_inputs subs)))
  unfolding run_flush
  results-run_flush execute subs = elim (Bool-cases (length (live_inputs subs) == 0)) [
    | inl e ↦
        rw (live_prepared_lem subs, e)
          (cancelled_lem subs
            ∙ no_live subs _ (ground arith) (
                ground (
                  arith,
                  length-live_answers (length (live_inputs subs)) (execute (live_inputs subs)),
                )))
    | inr e ↦ rw (live_prepared_lem subs, e) (after_execute_lem subs (execute (live_inputs subs)))
  ]

  -- A flush completes every request that is submitted for it, whatever the executor does: one that
  -- is cancelled gets the error of its context; when the executor returns as many outcomes as it was
  -- given inputs, the others get the outcomes in their order, and otherwise all of them the same error.
  pub run_flush_lem :
      (execute : List P → Executed R) (subs : List (Submission P))
      → (results (run_flush execute (submitted subs))
          ≡ answers subs (live_answers (length (live_inputs subs)) (execute (live_inputs subs))))
        × (all is_delivered (results (run_flush execute (submitted subs))) ≡ true)
  unfolding run_flush
  run_flush_lem execute subs =
      let delivered =
        answers_complete subs _
          (length-live_answers (length (live_inputs subs)) (execute (live_inputs subs))) in
      let done = results-run_flush execute subs in (done, rw done delivered)
