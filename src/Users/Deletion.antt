-- ===== src/Users/Deletion.antt =====
-- DeleteUser, and the state of the user's events in which it appends.
use orisun.Base.{
  ℕ, ◌≡◌, refl, ap, sym, ◌∙◌, ◌⊎◌, false, some, List, [], ◌∷◌, ◌++◌, codes_eq, any, take,
  Bool-cases, inl, inr, arith,
}
use orisun.Status.{Result, Error}
use orisun.Position.{Position}
use orisun.Boundaries.Logic.{Ensures, Ensures-weaken}
use orisun.Users.{
  UserEvent, user_deleted, UserPorts, SaveUserEvent, only_id, is_deletion, user_query, delete_read,
  delete_user,
}
use orisun.Users.Log.{
  IsUserStore, IsSaved, MayBeSaved, matches, newest, latest_position, first_position, saved_at,
  reads_then, identifies_then,
}

module _ {W : Type 0} (ports : UserPorts W) (log : W → List UserEvent)
    (store : IsUserStore W ports log) (trim : List ℕ → List ℕ) (id : List ℕ)
    (es : List UserEvent) where
  -- The deletion of a user was appended to a log in which the user has one event, not a deletion.
  abbrev pub IsDeleted : Unit {0} → W → Type 0
  IsDeleted u w' =
      (p : Position) × (e : UserEvent) × (newest (matches (user_query id)) es ≡ e ∷ [])
      × (is_deletion e ≡ false)
      × (log w'
          ≡ es
            ++ record { event_type = user_deleted; content = some (only_id id); position = p } ∷ [])

  -- A command that failed has appended nothing, or the reply of its save was lost.
  abbrev pub MayBeDeleted : Error → W → Type 0
  MayBeDeleted e w' = (log w' ≡ es) ⊎ IsDeleted tt w'

  abbrev pub Deletes : Result (Unit {0}) × W → Type 0
  Deletes x = Ensures IsDeleted MayBeDeleted x

  abbrev deletion : Position → SaveUserEvent
  deletion p = record {
    event_type = user_deleted;
    content = only_id id;
    query = user_query id;
    observed = p;
  }

  saved-IsDeleted :
      (p : Position) (w w' : W) (q : Position)
      → log w ≡ es
      → (latest_position (user_query id) es ≡ p
          → (e : UserEvent) × (newest (matches (user_query id)) es ≡ e ∷ [])
            × (is_deletion e ≡ false))
      → IsSaved (deletion p) (log w) q (log w')
      → IsDeleted tt w'
  saved-IsDeleted p w w' q at k (f, g) =
      let (e, one, a) = k (ap (latest_position (user_query id)) (sym at) ∙ f) in
      (q, e, one, a, g ∙ ap (λ x. x ++ saved_at (deletion p) q ∷ []) at)

  save_deletion :
      (p : Position) (w : W)
      → log w ≡ es
      → (latest_position (user_query id) es ≡ p
          → (e : UserEvent) × (newest (matches (user_query id)) es ≡ e ∷ [])
            × (is_deletion e ≡ false))
      → Deletes (ports.save_events (deletion p) w)
  save_deletion p w at k =
      Ensures-weaken {P = λ u w'. (q : Position) × IsSaved (deletion p) (log w) q (log w')}
        {Q = IsDeleted} {D = λ e w'. MayBeSaved (deletion p) (log w) (log w')} {E = MayBeDeleted} _
        (λ u w' (q, s). saved-IsDeleted p w w' q at k s)
        (λ e w' h. elim h [
          | inl g ↦ inl (g ∙ at)
          | inr (q, s) ↦ inr (saved-IsDeleted p w w' q at k s)
        ])
        (store.saves (deletion p) w)

  delete_newest :
      (ns : List UserEvent) (w : W)
      → log w ≡ es
      → newest (matches (user_query id)) es ≡ ns
      → Deletes (delete_read ports trim id (take 2 ns) w)
  unfolding delete_read
  delete_newest [] w at n = inl at
  delete_newest (e ∷ []) w at n = elim (Bool-cases (any is_deletion (e ∷ []))) [
    | inl f ↦ rw (f, delete_read) (inl at)
    | inr f ↦
        rw (f, delete_read)
          (identifies_then ports log store IsDeleted MayBeDeleted es w at (λ e w' h. inl h)
            (λ i. ports.save_events (deletion e.position))
            (λ i w' at'. save_deletion e.position w' at' (λ h. (e, n, ground (arith, f)))))
  ]
  delete_newest (e ∷ y ∷ rest) w at n = elim (Bool-cases (any is_deletion (e ∷ y ∷ []))) [
    | inl f ↦ rw (f, delete_read) (inl at)
    | inr f ↦
        rw (f, delete_read)
          (identifies_then ports log store IsDeleted MayBeDeleted es w at (λ e w' h. inl h)
            (λ i. ports.save_events (deletion y.position))
            (λ i w' at'. save_deletion y.position w' at' (λ h.
              elim (store.apart (user_query id) w e y rest
                (ap (newest (matches (user_query id))) at ∙ n)
                (sym (ap first_position n) ∙ h)) [ ])))
  ]

-- A user is deleted only if the log has exactly one event of its creation or deletion, which is no
-- deletion; the deletion is then appended. A command that fails leaves the log unchanged, or, when the
-- reply of its save was lost, has deleted the user under the same condition. No other writer appends
-- meanwhile.
pub delete_user-Deletes :
    {W : Type 0} (ports : UserPorts W) (log : W → List UserEvent) (store : IsUserStore W ports log)
    (trim : List ℕ → List ℕ) (user_id current_user_id : List ℕ) (w : W)
    → Deletes ports log store trim
        (trim user_id)
        (log w)
        (delete_user ports trim user_id current_user_id w)
unfolding delete_user
delete_user-Deletes ports log store trim user_id current_user_id w =
    elim (Bool-cases (codes_eq (trim user_id) (trim current_user_id))) [
      | inl f ↦ rw (f, delete_user) (inl refl)
      | inr f ↦
          rw (f, delete_user)
            (reads_then ports log store (IsDeleted ports log store trim (trim user_id) (log w))
              (MayBeDeleted ports log store trim (trim user_id) (log w)) (log w) w refl
              (λ e w' h. inl h) (user_query (trim user_id)) 2
              (delete_read ports trim (trim user_id))
              (λ w' at. delete_newest ports log store trim (trim user_id) (log w) _ w' at refl))
    ]
