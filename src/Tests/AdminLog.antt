-- ===== src/Tests/AdminLog.antt =====
-- A store for the tests of the boundary commands, with another writer: its events are numbered from 0.
use orisun.Base.{
  ℕ, suc, ◌+◌, ◌≡◌, ◌≢◌, ◌≤◌, ◌⊎◌, inl, inr, codes, if◌then◌else◌, refl, ap, sym, ◌∙◌, Bool, true,
  false, List, [], ◌∷◌, ◌++◌, All, length, arith, pos, eq_ℤ_iff,
}
use mathlib.Core.List.{append-nil, append_assoc}
use orisun.Status.{Result, ok, err, coded, uncoded, already_exists, code_of}
use orisun.Position.{Position, not_exists_position, same}
use orisun.Boundaries.{EventToAppend, StoredEvent, stored_at, AppendRequest, Ports}
use orisun.Boundaries.Logic.{Ensures, IsStore, IsStored, context_position, latest_of}
use orisun.Boundaries.Provision.{failed_event, is_already_exists}

abbrev pub position_at : ℕ → Position
position_at n = record { commit_position = pos n; prepare_position = pos n }

abbrev pub numbered : ℕ → List EventToAppend → List StoredEvent
numbered n [] = []
numbered n (e ∷ es) = stored_at e (position_at n) ∷ numbered (suc n) es

abbrev pub admin_log : List EventToAppend → List StoredEvent
admin_log w = numbered 0 w

-- What another writer appends before each append of a command.
abbrev pub rival : EventToAppend
rival = failed_event (codes "rival") []

abbrev accept :
    Bool → AppendRequest → List EventToAppend → Bool → Result Position × List EventToAppend
accept lost request w true =
    (if lost then err uncoded else ok (position_at (length w)), w ++ request.event ∷ [])
accept lost request w false = (err (coded already_exists), w)

-- The store, of which the replies to appends that succeed may be lost.
abbrev pub admin_ports : Bool → Ports (List EventToAppend)
admin_ports lost = record {
  latest_by_criteria = λ boundary criteria w. (ok (latest_of criteria (admin_log w)), w);
  append = λ request w.
      accept lost request (w ++ rival ∷ [])
        (same (context_position request.criteria (admin_log (w ++ rival ∷ []))) request.observed);
  new_event = λ event w. (ok tt, w);
}

-- The other writers append any events.
abbrev pub AppendMore : List EventToAppend → List EventToAppend → Type 0
AppendMore u v = (more : List EventToAppend) × (v ≡ u ++ more)

numbered-append :
    (n : ℕ) (es more : List EventToAppend)
    → numbered n (es ++ more) ≡ numbered n es ++ numbered (n + length es) more
numbered-append n [] more = ap (λ k. numbered k more) (omega arith)
numbered-append n (x ∷ es) more = ap (◌∷◌ (stored_at x (position_at n))) (
    numbered-append (suc n) es more
    ∙ ap (λ k. numbered (suc n) es ++ numbered k more) (omega arith))

pub same_iff : (p q : Position) → same p q ≡ true → p ≡ q
same_iff p q h = ground (
  arith,
  h,
  eq_ℤ_iff p.commit_position q.commit_position,
  eq_ℤ_iff p.prepare_position q.prepare_position,
)

at_end :
    (w : List EventToAppend) (e : EventToAppend)
    → admin_log (w ++ e ∷ []) ≡ admin_log w ++ stored_at e (position_at (length w)) ∷ []
at_end w e =
    numbered-append 0 w (e ∷ [])
    ∙ ap (λ k. admin_log w ++ stored_at e (position_at k) ∷ []) (omega arith)

accepted :
    (lost : Bool) (request : AppendRequest) (w : List EventToAppend) (b : Bool)
    → same (context_position request.criteria (admin_log (w ++ rival ∷ []))) request.observed ≡ b
    → Ensures
        (λ p w'. IsStored admin_log AppendMore request w p w')
        (λ e w'.
          AppendMore w w'
          ⊎ ((is_already_exists (code_of e) ≡ false)
              × (p : Position) × IsStored admin_log AppendMore request w p w'))
        (accept lost request (w ++ rival ∷ []) b)
unfolding code_of
accepted lost request w false h = inl (rival ∷ [], refl)
accepted false request w true h =
    (w ++ rival ∷ [], (rival ∷ [], refl), same_iff _ _ h, at_end (w ++ rival ∷ []) request.event)
accepted true request w true h = inr (
  refl,
  position_at (length (w ++ rival ∷ [])),
  (w ++ rival ∷ [], (rival ∷ [], refl), same_iff _ _ h, at_end (w ++ rival ∷ []) request.event),
)

numbered-positioned :
    (n : ℕ) (es : List EventToAppend) → All (λ e. e.position ≢ not_exists_position) (numbered n es)
unfolding not_exists_position
numbered-positioned n [] = tt
numbered-positioned n (e ∷ es) =
    (λ h. ground (arith, ap (λ p. p.commit_position) h), numbered-positioned (suc n) es)

numbered-other :
    (n k : ℕ) (es : List EventToAppend)
    → n + length es ≤ k
    → All (λ x. x.position ≢ position_at k) (numbered n es)
numbered-other n k [] h = tt
numbered-other n k (e ∷ es) h = (
  λ q. ground (arith, h, ap (λ p. p.commit_position) q),
  numbered-other (suc n) k es (omega arith),
)

numbered-fresh :
    (n k : ℕ) (es more : List EventToAppend)
    → n + length es ≤ k
    → All (λ e. All (λ x. x.position ≢ e.position) (numbered n es)) (numbered k more)
numbered-fresh n k es [] h = tt
numbered-fresh n k es (m ∷ more) h =
    (numbered-other n k es h, numbered-fresh n (suc k) es more (omega arith))

pub admin_ports-IsStore :
    (lost : Bool) → IsStore (List EventToAppend) (admin_ports lost) admin_log AppendMore
admin_ports-IsStore lost = record {
  nothing = λ w. ([], sym (append-nil w));
  in_turn = λ u v w (more, p) (further, q).
      (more ++ further, q ∙ ap (λ x. x ++ further) p ∙ append_assoc u more further);
  reads = λ boundary criteria w. (([], sym (append-nil w)), refl);
  appends = λ request w. accepted lost request w _ refl;
  makes = λ event w. ([], sym (append-nil w));
  positioned = λ w. numbered-positioned 0 w;
  grows = λ u v (more, o). (
    numbered (0 + length u) more,
    ap admin_log o ∙ numbered-append 0 u more,
    numbered-fresh 0 (0 + length u) u more (omega arith),
  );
}
