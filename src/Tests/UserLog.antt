-- ===== src/Tests/UserLog.antt =====
-- A store of one writer, for the tests of the commands on users: its events are numbered from 0.
use orisun.Base.{
  ℕ, suc, ◌+◌, ◌≤◌, ◌<◌, ◌≡◌, ◌≢◌, refl, ap, sym, ◌∙◌, subst, Bool, true, false, List, [], ◌∷◌,
  ◌++◌, All, length, take, codes_eq, arith, Bool-cases, inl, inr, pos, if◌then◌else◌,
}
use mathlib.Core.List.{append-nil}
use orisun.Status.{Result, ok, err, coded, uncoded, already_exists}
use orisun.Position.{Position, not_exists_position, same}
use orisun.Boundaries.Logic.{Ensures}
use orisun.Users.{UserEvent, UserPorts, SaveUserEvent}
use orisun.Users.Log.{IsUserStore, IsSaved, MayBeSaved, matches, newest, latest_position, saved_at}
use orisun.Tests.AdminLog.{position_at, same_iff}

abbrev pub user_events : ℕ → List SaveUserEvent → List UserEvent
user_events n [] = []
user_events n (s ∷ ss) = saved_at s (position_at n) ∷ user_events (suc n) ss

abbrev pub user_log : List SaveUserEvent → List UserEvent
user_log w = user_events 0 w

abbrev accept :
    Bool → SaveUserEvent → List SaveUserEvent → Bool → Result (Unit {0}) × List SaveUserEvent
accept lost save w true = (if lost then err uncoded else ok tt, w ++ save ∷ [])
accept lost save w false = (err (coded already_exists), w)

-- The replies to saves that succeed may be lost.
-- A hash is the password itself.
abbrev pub user_ports : Bool → UserPorts (List SaveUserEvent)
user_ports lost = record {
  get_events = λ query n w. (ok (take n (newest (matches query) (user_log w))), w);
  save_events =
      λ save w. accept lost save w (same (latest_position save.query (user_log w)) save.observed);
  new_id = λ w. (ok (length w ∷ []), w);
  hash_password = λ password. ok password;
  compare_password = λ hash password. codes_eq hash password;
}

user_events-append :
    (n : ℕ) (ss : List SaveUserEvent) (s : SaveUserEvent)
    → user_events n (ss ++ s ∷ [])
      ≡ user_events n ss ++ saved_at s (position_at (n + length ss)) ∷ []
user_events-append n [] s = ap (λ k. saved_at s (position_at k) ∷ []) (omega arith)
user_events-append n (x ∷ ss) s = ap (◌∷◌ (saved_at x (position_at n))) (
    user_events-append (suc n) ss s
    ∙ ap (λ k. user_events (suc n) ss ++ saved_at s (position_at k) ∷ []) (omega arith))

accepted :
    (lost : Bool) (save : SaveUserEvent) (w : List SaveUserEvent) (b : Bool)
    → same (latest_position save.query (user_log w)) save.observed ≡ b
    → Ensures
        (λ u w'. (p : Position) × IsSaved save (user_log w) p (user_log w'))
        (λ e w'. MayBeSaved save (user_log w) (user_log w'))
        (accept lost save w b)
accepted false save w true h =
    (position_at (0 + length w), (same_iff _ _ h, user_events-append 0 w save))
accepted true save w true h =
    inr (position_at (0 + length w), (same_iff _ _ h, user_events-append 0 w save))
accepted lost save w false h = inl refl

-- The positions go down, and stay between two bounds.
abbrev Falls : ℕ → ℕ → List UserEvent → Type 0
Falls low high [] = Unit {0}
Falls low high (e ∷ es) =
    (k : ℕ) × (e.position ≡ position_at k) × (low ≤ k) × (k < high) × Falls low k es

Falls-append :
    (low high : ℕ) (es : List UserEvent) (e : UserEvent)
    → Falls (suc low) high es
    → e.position ≡ position_at low
    → low < high
    → Falls low high (es ++ e ∷ [])
Falls-append low high [] e f p h = (low, p, omega arith, h, tt)
Falls-append low high (x ∷ es) e (k, q, l, m, rest) p h =
    (k, q, omega arith, m, Falls-append low k es e rest p (omega arith))

Falls-lower : (low high : ℕ) (es : List UserEvent) → Falls (suc low) high es → Falls low high es
Falls-lower low high [] f = tt
Falls-lower low high (x ∷ es) (k, q, l, m, rest) = (k, q, omega arith, m, Falls-lower low k es rest)

newest-Falls :
    (p : UserEvent → Bool) (n : ℕ) (ss : List SaveUserEvent)
    → Falls n (n + length ss) (newest p (user_events n ss))
newest-Falls p n [] = tt
newest-Falls p n (s ∷ ss) =
    let e : UserEvent = saved_at s (position_at n) in
    let rest : Falls (suc n) (n + length (s ∷ ss)) (newest p (user_events (suc n) ss)) =
      subst (λ h. Falls (suc n) h (newest p (user_events (suc n) ss))) (omega arith)
        (newest-Falls p (suc n) ss) in
    elim (Bool-cases (p (saved_at s (position_at n)))) [
      | inl f ↦
          rw f (Falls-append n _ (newest p (user_events (suc n) ss)) e rest refl (omega arith))
      | inr f ↦ rw f (
          subst (Falls n (n + length (s ∷ ss)))
            (sym (append-nil (newest p (user_events (suc n) ss))))
            (Falls-lower n _ (newest p (user_events (suc n) ss)) rest))
    ]

positions_differ :
    (low high : ℕ) (x y : UserEvent) (rest : List UserEvent)
    → Falls low high (x ∷ y ∷ rest)
    → x.position ≢ y.position
positions_differ low high x y rest (k, q, l, m, (k', q', l', m', f)) h =
    let same_number : pos k ≡ pos k' = ap (λ p. p.commit_position) (sym q ∙ h ∙ q') in
    ground (arith, same_number)

user_events-positioned :
    (n : ℕ) (ss : List SaveUserEvent)
    → All (λ e. e.position ≢ not_exists_position) (user_events n ss)
unfolding not_exists_position
user_events-positioned n [] = tt
user_events-positioned n (s ∷ ss) =
    (λ h. ground (arith, ap (λ p. p.commit_position) h), user_events-positioned (suc n) ss)

pub user_ports-IsUserStore :
    (lost : Bool) → IsUserStore (List SaveUserEvent) (user_ports lost) user_log
user_ports-IsUserStore lost = record {
  reads = λ query n w. (refl, refl);
  saves = λ save w. accepted lost save w _ refl;
  identifies = λ w. refl;
  positioned = λ w. user_events-positioned 0 w;
  apart = λ query w x y rest h.
      positions_differ 0 (0 + length w) x y rest
        (subst (Falls 0 (0 + length w)) h (newest-Falls (matches query) 0 w));
}
