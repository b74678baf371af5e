-- ===== src/GroupCommit/Worker/Returns.antt =====
-- After Close, the worker of internal/groupcommit/coordinator.go returns and nothing is left unanswered.
use orisun.Base.{
  ℕ, zero, suc, ◌≤◌, ◌<◌, ◌≡◌, refl, ◌∙◌, subst, true, ◌⊎◌, none, all, arith, Option-cases,
  List-cases, inl, inr,
}
use mathlib.Core.List.{append-nil}
use orisun.GroupCommit.{Config}
use orisun.GroupCommit.Flush.{results, is_delivered}
use orisun.GroupCommit.Worker.{
  Pc, idle, chosen, draining, drained, flushed, failing, stopped, System, Step, take_carry,
  see_closed, drop_chosen, drain_end, drop_batch, drop_carry, fail_next, fail_done, Reach, later,
  Steps, none_more, then_step,
}
use orisun.GroupCommit.Worker.Answers.{submissions}
use orisun.GroupCommit.Worker.Keeps.{IsKept, IsAt, Reach-IsKept}
use orisun.GroupCommit.Worker.Shutdown.{IsClosing, work_left, Reach-IsClosing, Step-work_left}

-- A step that admits nothing and leaves the queue closed.
abbrev Onward : {P R : Type 0} → Config → System P R → Type 0
Onward {P} {R} cfg s =
    (t : System P R) × Step cfg s t × (t.queue_closed ≡ s.queue_closed) × (t.admitted ≡ s.admitted)

-- A run to the end of the worker.
abbrev pub Finished : {P R : Type 0} → Config → System P R → Type 0
Finished {P} {R} cfg s =
    (t : System P R) × Steps cfg s t
    × (t.pc ≡ stopped)
    × (submissions t.answered ≡ s.admitted)
    × (all is_delivered (results t.answered) ≡ true)

module _ (P R : Type 0) (cfg : Config) where
  moves_when_closed :
      (s : System P R) (pc : Pc P)
      → s.pc ≡ pc
      → s.closed ≡ true
      → s.queue_closed ≡ true
      → (s.pc ≡ stopped) ⊎ Onward cfg s
  moves_when_closed s idle e c q = elim (Option-cases s.carry) [
    | inl n ↦ inr (record s { pc = failing }, see_closed e n c, refl, refl)
    | inr (sub, f) ↦
        inr (record s { pc = chosen sub; carry = none }, take_carry sub e f, refl, refl)
  ]
  moves_when_closed s (chosen sub) e c q = inr (_, drop_chosen sub e c, refl, refl)
  moves_when_closed s (draining batch) e c q = inr (_, drain_end batch e, refl, refl)
  moves_when_closed s (drained batch) e c q = inr (_, drop_batch batch e c, refl, refl)
  moves_when_closed s flushed e c q = inr (_, drop_carry e c, refl, refl)
  moves_when_closed s failing e c q = elim (List-cases s.queue) [
    | inl n ↦ inr (_, fail_done e n q, refl, refl)
    | inr (sub, rest, f) ↦ inr (_, fail_next sub rest e f, refl, refl)
  ]
  moves_when_closed s stopped e c q = inl e

  stopped-Finished : (s : System P R) → IsKept cfg s → IsClosing s → s.pc ≡ stopped → Finished cfg s
  stopped-Finished s k c e =
      let at : IsAt cfg stopped s.carry = subst (λ pc. IsAt cfg pc s.carry) e k.at in
      (
        s,
        none_more,
        e,
        ground (arith, k.in_order, at, c.stopped_empty e, append-nil (submissions s.answered)),
        k.complete,
      )

  prepend : {s t u : System P R} → Step cfg s t → Steps cfg t u → Steps cfg s u
  prepend st none_more = then_step none_more st
  prepend st (then_step run last) = then_step (prepend st run) last

  -- `fuel` bounds the steps that are left.
  finish :
      (fuel : ℕ) (s : System P R)
      → 1 ≤ cfg.max_batch_requests
      → Reach cfg s
      → s.queue_closed ≡ true
      → work_left s < fuel
      → Finished cfg s
  finish zero s h r q w = ground arith
  finish (suc fuel) s h r q w =
      elim (moves_when_closed s s.pc refl ((Reach-IsClosing r).was_closed q) q) [
        | inl e ↦ stopped-Finished s (Reach-IsKept h r) (Reach-IsClosing r) e
        | inr (t, st, f, g) ↦
            let (u, run, e, order, complete) =
              finish fuel t h (later r st) (f ∙ q) (omega (arith, Step-work_left r q st)) in
            (u, prepend st run, e, order ∙ g, complete)
      ]

-- From every state that can be reached and in which the queue is closed, with at least one request
-- allowed in a batch, the worker's own steps lead to its return, and by then every request that was
-- admitted has its result, in the order of admission.
pub Reach-Finished :
    {P R : Type 0} {cfg : Config} {s : System P R}
    → 1 ≤ cfg.max_batch_requests
    → Reach cfg s
    → s.queue_closed ≡ true
    → Finished cfg s
Reach-Finished {P} {R} {cfg} {s} h r q = finish P R cfg (suc (work_left s)) s h r q (omega arith)
