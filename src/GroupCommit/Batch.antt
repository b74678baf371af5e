-- ===== src/GroupCommit/Batch.antt =====
-- What drainBatch takes from the queue.
use orisun.Base.{
  ℕ, ◌+◌, ◌≤◌, ◌<◌, ◌≡◌, refl, subst, ◌&&◌, ◌⊎◌, Option, none, some, List, [], ◌∷◌, ◌++◌, ltb,
  length, length-append, arith, Bool-cases, inl, inr,
}
use mathlib.Core.List.{append_assoc}
use orisun.GroupCommit.{Request, Config, Drained, drain_loop, drain_batch}

module _ {P R : Type 0} where
  -- The number of events of a batch.
  abbrev pub batch_events : List (Request P R) → ℕ
  batch_events [] = 0
  batch_events (req ∷ batch) = req.events + batch_events batch

  abbrev pub carried : Option (Request P R) → List (Request P R)
  carried none = []
  carried (some req) = req ∷ []

  -- A batch that ends with a request to carry over would exceed the bound with it.
  abbrev pub IsOver : Config → ℕ → Option (Request P R) → Type 0
  IsOver cfg events none = Unit {0}
  IsOver cfg events (some req) = cfg.max_batch_events < events + req.events

  batch_events-append :
      (xs ys : List (Request P R)) → batch_events (xs ++ ys) ≡ batch_events xs + batch_events ys
  batch_events-append [] ys = omega arith
  batch_events-append (x ∷ xs) ys = omega (arith, batch_events-append xs ys)

  pub record IsDrained (cfg : Config) (first : Request P R) (all : List (Request P R))
      (d : Drained P R) : Type 0 where
    pub in_order : d.batch ++ (carried d.carry ++ d.queue) ≡ all
    pub requests_bound : length d.batch ≤ cfg.max_batch_requests
    pub events_bound : (batch_events d.batch ≤ cfg.max_batch_events) ⊎ (d.batch ≡ first ∷ [])
    pub over : IsOver cfg (batch_events d.batch) d.carry

  drain_loop-IsDrained :
      (cfg : Config) (first : Request P R) (batch queue : List (Request P R))
      → length batch ≤ cfg.max_batch_requests
      → (batch_events batch ≤ cfg.max_batch_events) ⊎ (batch ≡ first ∷ [])
      → IsDrained cfg first (batch ++ queue) (drain_loop cfg batch (batch_events batch) queue)
  unfolding drain_loop
  drain_loop-IsDrained cfg first batch [] h b = record {
    in_order = refl;
    requests_bound = h;
    events_bound = b;
    over = tt;
  }
  drain_loop-IsDrained cfg first batch (req ∷ queue) h b =
      elim (Bool-cases (
        ltb (length batch) cfg.max_batch_requests
        && ltb (batch_events batch) cfg.max_batch_events)) [
          | inl e ↦ elim (Bool-cases (ltb cfg.max_batch_events (batch_events batch + req.events))) [
            | inl f ↦
                rw (e, f)
                  (record {
                    in_order = refl;
                    requests_bound = h;
                    events_bound = b;
                    over = ground arith;
                  })
            | inr f ↦
                let count : batch_events (batch ++ req ∷ []) ≡ batch_events batch + req.events =
                  omega (arith, batch_events-append batch (req ∷ [])) in
                rw (e, f, ← count, ← append_assoc batch (req ∷ []) queue)
                  (drain_loop-IsDrained cfg first (batch ++ req ∷ []) queue
                    (ground (arith, length-append batch (req ∷ []))) (inl (ground arith)))
          ]
          | inr e ↦
              rw e (record { in_order = refl; requests_bound = h; events_bound = b; over = tt })
        ]

  -- For a positive bound on the requests, the batch, the request carried over and what is left are the
  -- first request and the queue in their order. The batch has at most the bound's requests, and at
  -- most the bound's events unless it is the first request alone. A request is carried over only
  -- where the batch would exceed the bound on the events with it.
  pub drain_batch-IsDrained :
      (cfg : Config) (first : Request P R) (queue : List (Request P R))
      → 1 ≤ cfg.max_batch_requests
      → IsDrained cfg first (first ∷ queue) (drain_batch cfg queue first)
  unfolding drain_batch
  drain_batch-IsDrained cfg first queue h =
      let one : first.events + 0 ≡ first.events = omega arith in
      let start = drain_loop-IsDrained cfg first (first ∷ []) queue h (inr refl) in
      subst (λ (n : ℕ). IsDrained cfg first (first ∷ queue) (drain_loop cfg (first ∷ []) n queue))
        one start
