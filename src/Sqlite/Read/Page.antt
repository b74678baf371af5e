-- ===== src/Sqlite/Read/Page.antt =====
-- The page of rows that GetBatch selects.
use orisun.Base.{
  ℕ, zero, suc, ◌≤◌, ◌≡◌, refl, Bool, true, false, ◌⊎◌, List, [], ◌∷◌, length, length-take, take,
  filter, All, arith, Bool-cases, inl, inr,
}
use orisun.Sqlite.Table.{
  Row, In, Direction, ascending, descending, precedes, insert_ordered, order_by, select,
  row_position,
}
use orisun.Sqlite.Consistency.Latest.{In-filter, filter-In, not_after_trans, after_asym}

precedes_trans :
    (d : Direction) (r s t : Row)
    → precedes d s r ≡ false
    → precedes d t s ≡ false
    → precedes d t r ≡ false
unfolding precedes
precedes_trans ascending r s t h k =
    not_after_trans (row_position r) (row_position s) (row_position t) h k
precedes_trans descending r s t h k =
    not_after_trans (row_position t) (row_position s) (row_position r) k h

precedes_asym : (d : Direction) (r s : Row) → precedes d r s ≡ true → precedes d s r ≡ false
unfolding precedes
precedes_asym ascending r s h = after_asym (row_position s) (row_position r) h
precedes_asym descending r s h = after_asym (row_position r) (row_position s) h

-- No row stands before a row that is listed earlier.
abbrev pub IsOrdered : Direction → List Row → Type 0
IsOrdered d [] = Unit {0}
IsOrdered d (r ∷ rows) = All (λ (s : Row). precedes d s r ≡ false) rows × IsOrdered d rows

module _ (d : Direction) where
  insert-All :
      (r x : Row) (rows : List Row)
      → precedes d r x ≡ false
      → All (λ (s : Row). precedes d s x ≡ false) rows
      → All (λ (s : Row). precedes d s x ≡ false) (insert_ordered d r rows)
  unfolding insert_ordered
  insert-All r x [] h a = (h, tt)
  insert-All r x (s ∷ rows) h a = elim (Bool-cases (precedes d s r)) [
    | inl e ↦ rw e (a.0, insert-All r x rows h a.1)
    | inr e ↦ rw e (h, a)
  ]

  All-trans :
      (r s : Row) (rows : List Row)
      → precedes d s r ≡ false
      → All (λ (t : Row). precedes d t s ≡ false) rows
      → All (λ (t : Row). precedes d t r ≡ false) rows
  All-trans r s [] h a = tt
  All-trans r s (t ∷ rows) h a = (precedes_trans d r s t h a.0, All-trans r s rows h a.1)

  insert_ordered-IsOrdered :
      (r : Row) (rows : List Row) → IsOrdered d rows → IsOrdered d (insert_ordered d r rows)
  unfolding insert_ordered
  insert_ordered-IsOrdered r [] o = (tt, tt)
  insert_ordered-IsOrdered r (s ∷ rows) o = elim (Bool-cases (precedes d s r)) [
    | inl e ↦
        rw e (insert-All r s rows (precedes_asym d s r e) o.0, insert_ordered-IsOrdered r rows o.1)
    | inr e ↦ rw e ((e, All-trans r s rows e o.0), o)
  ]

  order_by-IsOrdered : (rows : List Row) → IsOrdered d (order_by d rows)
  unfolding order_by
  order_by-IsOrdered [] = tt
  order_by-IsOrdered (r ∷ rows) =
      insert_ordered-IsOrdered r (order_by d rows) (order_by-IsOrdered rows)

  In-insert_ordered :
      (x r : Row) (rows : List Row) → In x (r ∷ rows) → In x (insert_ordered d r rows)
  unfolding insert_ordered
  In-insert_ordered x r [] m = m
  In-insert_ordered x r (s ∷ rows) m = elim (Bool-cases (precedes d s r)) [
    | inl e ↦ rw e (elim m [
      | inl f ↦ inr (In-insert_ordered x r rows (inl f))
      | inr n ↦ elim n [ inl f ↦ inl f | inr o ↦ inr (In-insert_ordered x r rows (inr o)) ]
    ])
    | inr e ↦ rw e m
  ]

  insert_ordered-In :
      (x r : Row) (rows : List Row) → In x (insert_ordered d r rows) → In x (r ∷ rows)
  unfolding insert_ordered
  insert_ordered-In x r [] m = m
  insert_ordered-In x r (s ∷ rows) m = elim (Bool-cases (precedes d s r)) [
    | inl e ↦
        let m' : In x (s ∷ insert_ordered d r rows) = rw e at m in
        elim m' [
          | inl f ↦ inr (inl f)
          | inr n ↦ elim (insert_ordered-In x r rows n) [ inl f ↦ inl f | inr o ↦ inr (inr o) ]
        ]
    | inr e ↦ rw e at m
  ]

  In-order_by : (x : Row) (rows : List Row) → In x rows → In x (order_by d rows)
  unfolding order_by
  In-order_by x [] m = m
  In-order_by x (r ∷ rows) m =
      In-insert_ordered x r (order_by d rows)
        (elim m [ inl e ↦ inl e | inr n ↦ inr (In-order_by x rows n) ])

  order_by-In : (x : Row) (rows : List Row) → In x (order_by d rows) → In x rows
  unfolding order_by
  order_by-In x [] m = m
  order_by-In x (r ∷ rows) m = elim (insert_ordered-In x r (order_by d rows) m) [
    | inl e ↦ inl e
    | inr n ↦ inr (order_by-In x rows n)
  ]

  All-In :
      (x r : Row) (rows : List Row)
      → All (λ (s : Row). precedes d s x ≡ false) rows
      → In r rows
      → precedes d r x ≡ false
  All-In x r [] a m = absurd m
  All-In x r (s ∷ rows) a (inl e) = rw (← e) a.0
  All-In x r (s ∷ rows) a (inr m) = All-In x r rows a.1 m

  take-All :
      (n : ℕ) (x : Row) (rows : List Row)
      → All (λ (s : Row). precedes d s x ≡ false) rows
      → All (λ (s : Row). precedes d s x ≡ false) (take n rows)
  take-All zero x rows a = tt
  take-All (suc n) x [] a = tt
  take-All (suc n) x (s ∷ rows) a = (a.0, take-All n x rows a.1)

  take-IsOrdered : (n : ℕ) (rows : List Row) → IsOrdered d rows → IsOrdered d (take n rows)
  take-IsOrdered zero rows o = tt
  take-IsOrdered (suc n) [] o = tt
  take-IsOrdered (suc n) (r ∷ rows) o = (take-All n r rows o.0, take-IsOrdered n rows o.1)

  take-In : (n : ℕ) (r : Row) (rows : List Row) → In r (take n rows) → In r rows
  take-In zero r rows m = absurd m
  take-In (suc n) r [] m = m
  take-In (suc n) r (s ∷ rows) (inl e) = inl e
  take-In (suc n) r (s ∷ rows) (inr m) = inr (take-In n r rows m)

  -- A row that is left out stands before none of those that are taken, and the limit is reached.
  abbrev pub IsLeftOut : ℕ → Row → List Row → Type 0
  IsLeftOut n r page = (length page ≡ n) × All (λ (s : Row). precedes d r s ≡ false) page

  In-take :
      (n : ℕ) (r : Row) (rows : List Row)
      → IsOrdered d rows
      → In r rows
      → In r (take n rows) ⊎ IsLeftOut n r (take n rows)
  In-take zero r rows o m = inr (refl, tt)
  In-take (suc n) r [] o m = absurd m
  In-take (suc n) r (s ∷ rows) o (inl e) = inl (inl e)
  In-take (suc n) r (s ∷ rows) o (inr m) = elim (In-take n r rows o.1 m) [
    | inl t ↦ inl (inr t)
    | inr (len, a) ↦ inr (ground arith, (All-In s r rows o.0 m, a))
  ]

-- `page` is the first rows in the direction `d`, at most `limit`, of those at which the test holds.
pub record IsPage (p : Row → Bool) (d : Direction) (limit : ℕ) (rows page : List Row) : Type 0 where
  pub bounded : length page ≤ limit
  pub ordered : IsOrdered d page
  pub sound : (r : Row) → In r page → In r rows × (p r ≡ true)
  pub complete : (r : Row) → In r rows → p r ≡ true → In r page ⊎ IsLeftOut d limit r page

pub select-IsPage :
    (p : Row → Bool) (d : Direction) (limit : ℕ) (rows : List Row)
    → IsPage p d limit rows (select p d limit rows)
unfolding select
select-IsPage p d limit rows = record {
  bounded = omega (arith, length-take {0} limit (order_by d (filter p rows)));
  ordered =
      take-IsOrdered d limit (order_by d (filter p rows)) (order_by-IsOrdered d (filter p rows));
  sound = λ r m.
      let (n, h) = filter-In p r rows (order_by-In d r (filter p rows) (take-In d limit r _ m)) in
      (n, h);
  complete = λ r m h.
      In-take d limit r (order_by d (filter p rows)) (order_by-IsOrdered d (filter p rows))
        (In-order_by d r (filter p rows) (In-filter p r rows m h));
}
