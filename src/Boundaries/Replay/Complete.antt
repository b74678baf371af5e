-- ===== src/Boundaries/Replay/Complete.antt =====
-- A replay takes every event once and in order, and ends.
use orisun.Base.{
  ℕ, zero, suc, ◌≤◌, ◌<◌, ◌≡◌, refl, ap, sym, ◌∙◌, subst, Bool, true, false, Option, some, List, [],
  ◌∷◌, ◌++◌, ltb, ltb→lt, ltb-false, length, take, drop, take-append-drop, length-take, length-drop,
  arith,
}
use mathlib.Core.List.{append_assoc}
use orisun.Status.{Result, ok, err}
use orisun.Position.{Position, not_exists_position}
use orisun.Boundaries.{StoredEvent, Action}
use orisun.Boundaries.Replay.{take_page, replay}
use orisun.Boundaries.Replay.Page.{
  run_all, Chain, Chain-append, last_position, is_some_event, run_all-append, run_all-keeps,
  take_page_lem, outcome, outcome_lem,
}

-- What a replay relies on: `view` is the log as far as it matches, and a read from the position of an
-- event gives that event and what follows it, up to the limit.
pub record IsReader (W : Type 0) (read : Position → Action W (List StoredEvent)) (limit : ℕ)
    (view : W → List StoredEvent) : Type 0 where
  pub from_start : (w : W) → read not_exists_position w ≡ (ok (take limit (view w)), w)
  pub from_event :
      (w : W) (before rest : List StoredEvent) (e : StoredEvent)
      → view w ≡ before ++ e ∷ rest
      → read e.position w ≡ (ok (take limit (e ∷ rest)), w)

empty_of_length : (ys : List StoredEvent) → length ys ≡ 0 → ys ≡ []
empty_of_length [] h = refl
empty_of_length (y ∷ ys) h = ground (arith, h)

some_of_length : (ys : List StoredEvent) → 1 ≤ length ys → is_some_event ys ≡ true
some_of_length [] h = ground (arith, h)
some_of_length (y ∷ ys) h = refl

-- The last event of a page that is not empty.
last_split :
    (e : StoredEvent) (xs : List StoredEvent)
    → (init : List StoredEvent) × (last : StoredEvent) × (e ∷ xs ≡ init ++ last ∷ [])
      × (last_position e.position xs ≡ last.position)
last_split e [] = ([], e, refl, refl)
last_split e (x ∷ xs) =
    let (init, last, f, g) = last_split x xs in (e ∷ init, last, ap (◌∷◌ e) f, g)

module _ (W S : Type 0) (read : Position → Action W (List StoredEvent)) (m : ℕ)
    (skips : Position → StoredEvent → Bool) (step : S → StoredEvent → Action W S)
    (view : W → List StoredEvent) (reader : IsReader W read (suc (suc m)) view)
    (kept : (s : S) (e : StoredEvent) (w : W) → view (step s e w).1 ≡ view w)
    (seen : (e : StoredEvent) → skips e.position e ≡ true) where
  -- What follows a read.
  abbrev read_then : ℕ → Position → S → Result (List StoredEvent) × W → Option (Result S × W)
  read_then fuel p s x =
      let (batch, w) = x in
      elim batch [
        | err e ↦ some (err e, w)
        | ok page ↦
            outcome step read (suc (suc m)) skips fuel (ltb (length page) (suc (suc m)))
              (take_page read (suc (suc m)) skips step p false s page w)
      ]

  turn :
      (fuel : ℕ) (p : Position) (page xs ys : List StoredEvent) (s : S) (w : W)
      → read p w ≡ (ok page, w)
      → take_page read (suc (suc m)) skips step p false s page w
        ≡ take_page read (suc (suc m)) skips step p false s xs w
      → Chain skips p xs
      → (ltb (length page) (suc (suc m)) ≡ true → ys ≡ [])
      → (ltb (length page) (suc (suc m)) ≡ false → is_some_event xs ≡ true)
      → ((s' : S) (w' : W)
          → ltb (length page) (suc (suc m)) ≡ false
          → view w' ≡ view w
          → replay read (suc (suc m)) skips step fuel (last_position p xs) s' w'
            ≡ some (run_all step s' ys w'))
      → replay read (suc (suc m)) skips step (suc fuel) p s w ≡ some (run_all step s (xs ++ ys) w)
  unfolding replay
  turn fuel p page xs ys s w r q c a b k =
      ap (read_then fuel p s) r
      ∙ (ap (outcome step read (suc (suc m)) skips fuel (ltb (length page) (suc (suc m))))
            (q ∙ take_page_lem step read (suc (suc m)) skips p false s xs w c)
          ∙ outcome_lem step read (suc (suc m)) skips view fuel (ltb (length page) (suc (suc m))) p
              xs ys (view w) (run_all step s xs w) (run_all-keeps step view kept s xs w) a b k
          ∙ ap some (sym (run_all-append step s xs ys w)))

  skip_first :
      (e : StoredEvent) (xs : List StoredEvent) (s : S) (w : W)
      → take_page read (suc (suc m)) skips step e.position false s (e ∷ xs) w
        ≡ take_page read (suc (suc m)) skips step e.position false s xs w
  unfolding take_page
  skip_first e xs s w = rw (seen e, take_page) refl

  pub replay_from :
      (fuel : ℕ) (before : List StoredEvent) (e : StoredEvent) (rest : List StoredEvent) (s : S)
      (w : W)
      → view w ≡ before ++ e ∷ rest
      → Chain skips e.position rest
      → length rest < fuel
      → replay read (suc (suc m)) skips step fuel e.position s w ≡ some (run_all step s rest w)
  replay_from zero before e rest s w v c f = ground arith
  replay_from (suc fuel) before e rest s w v c f =
      let xs : List StoredEvent = take (suc m) rest in
      let ys : List StoredEvent = drop (suc m) rest in
      let split : xs ++ ys ≡ rest = take-append-drop (suc m) rest in
      let (first, further) =
        Chain-append skips e.position xs ys (subst (Chain skips e.position) (sym split) c) in
      turn fuel e.position (e ∷ xs) xs ys s w (reader.from_event w before rest e v)
        (skip_first e xs s w) first
        (λ h.
          empty_of_length ys
            (omega (arith, length-take (suc m) rest, length-drop (suc m) rest, ltb→lt _ _ h)))
        (λ h. some_of_length xs (omega (arith, ltb-false _ _ h)))
        (λ s' w' h u.
          let (init, last, f', g) = last_split e xs in
          subst
            (λ q. replay read (suc (suc m)) skips step fuel q s' w' ≡ some (run_all step s' ys w'))
            (sym g)
            (replay_from fuel (before ++ init) last ys s' w'
              (u
                ∙ v
                ∙ ground (
                  arith,
                  f',
                  split,
                  append_assoc init (last ∷ []) ys,
                  append_assoc before init (last ∷ ys),
                ))
              (subst (λ q. Chain skips q ys) g further)
              (omega (arith, length-take (suc m) rest, length-drop (suc m) rest, ltb-false _ _ h))))
      ∙ ap (λ es. some (run_all step s es w)) split

  pub replay_start :
      (fuel : ℕ) (es : List StoredEvent) (s : S) (w : W)
      → view w ≡ es
      → Chain skips not_exists_position es
      → length es < fuel
      → replay read (suc (suc m)) skips step fuel not_exists_position s w
        ≡ some (run_all step s es w)
  replay_start zero es s w v c f = ground arith
  replay_start (suc fuel) [] s w v c f =
      turn fuel not_exists_position [] [] [] s w
        (reader.from_start w ∙ ap (λ es. (ok (take (suc (suc m)) es), w)) v) refl tt (λ h. refl)
        (λ h. ground arith) (λ s' w' h u. ground arith)
  replay_start (suc fuel) (e ∷ rest) s w v c f =
      let xs : List StoredEvent = take (suc m) rest in
      let ys : List StoredEvent = drop (suc m) rest in
      let split : xs ++ ys ≡ rest = take-append-drop (suc m) rest in
      let (first, further) =
        Chain-append skips e.position xs ys (subst (Chain skips e.position) (sym split) c.1) in
      turn fuel not_exists_position (e ∷ xs) (e ∷ xs) ys s w
        (reader.from_start w ∙ ap (λ es. (ok (take (suc (suc m)) es), w)) v) refl (c.0, first)
        (λ h.
          empty_of_length ys
            (omega (arith, length-take (suc m) rest, length-drop (suc m) rest, ltb→lt _ _ h)))
        (λ h. refl)
        (λ s' w' h u.
          let (init, last, f', g) = last_split e xs in
          subst
            (λ q. replay read (suc (suc m)) skips step fuel q s' w' ≡ some (run_all step s' ys w'))
            (sym g)
            (replay_from fuel init last ys s' w'
              (u ∙ v ∙ ground (arith, f', split, append_assoc init (last ∷ []) ys))
              (subst (λ q. Chain skips q ys) g further)
              (omega (arith, length-take (suc m) rest, length-drop (suc m) rest, ltb-false _ _ h))))
      ∙ ap (λ es. some (run_all step s (e ∷ es) w)) split
