-- ===== src/Users/Names.antt =====
-- CreateUser gives a user name once, and for all time.
use orisun.Base.{
  ℕ, ◌≡◌, refl, ap, ◌∙◌, ◌⊎◌, subst, Bool, false, not, ◌&&◌, some, List, [], ◌∷◌, ◌++◌, any,
  Bool-cases, Option-cases, inl, inr, arith,
}
use orisun.Status.{Result, ok, Error, Result-cases}
use orisun.Position.{Position, not_exists_position}
use orisun.Boundaries.{◌>>=◌, lift}
use orisun.Boundaries.Logic.{Ensures, bind-Ensures, lift-Ensures}
use orisun.Users.{
  user_created, user_deleted, tag_camel_id, append_user, check_user, create_read, create_named,
  UserData, UserEvent, tag_type, tag_username, UserPorts, is_creation, is_deletion, name_query,
  decode_all, read_deletion, save_user, create_user, SaveUserEvent,
}
use orisun.Users.Log.{
  IsUserStore, IsSaved, MayBeSaved, matches, newest_none, latest_position_none, saved_at,
  reads_then, identifies_then,
}

-- The event `e` creates a user of that name.
abbrev pub creates_name : List ℕ → UserEvent → Bool
creates_name username e = matches ((tag_username username ∷ tag_type user_created ∷ []) ∷ []) e

any-name_query :
    (username id : List ℕ) (es : List UserEvent)
    → any (matches (name_query username id)) es ≡ false
    → any (creates_name username) es ≡ false
any-name_query username id [] h = refl
any-name_query username id (e ∷ es) h = ground (arith, h, any-name_query username id es)

module _ {W : Type 0} (ports : UserPorts W) (log : W → List UserEvent)
    (store : IsUserStore W ports log) (trim : List ℕ → List ℕ) (username : List ℕ)
    (es : List UserEvent) where
  -- A user of a name that the log did not have was appended.
  abbrev pub IsNewUser : UserData → W → Type 0
  IsNewUser d w' =
      (p : Position) × (d.username ≡ username)
      × (any (creates_name username) es ≡ false)
      × (log w' ≡ es ++ record { event_type = user_created; content = some d; position = p } ∷ [])

  -- A command that failed has appended nothing, or the reply of its save was lost.
  abbrev pub MayBeNewUser : Error → W → Type 0
  MayBeNewUser e w' = (log w' ≡ es) ⊎ ((d : UserData) × IsNewUser d w')

  abbrev pub CreatesUser : Result UserData × W → Type 0
  CreatesUser x = Ensures IsNewUser MayBeNewUser x

  -- The save of a creation.
  abbrev creation : UserData → SaveUserEvent
  creation d = record {
    event_type = user_created;
    content = d;
    query = name_query d.username d.user_id;
    observed = not_exists_position;
  }

  saved-IsNewUser :
      (d : UserData) (w w' : W) (p : Position)
      → log w ≡ es
      → d.username ≡ username
      → IsSaved (creation d) (log w) p (log w')
      → IsNewUser d w'
  saved-IsNewUser d w w' p at n (f, g) =
      let unused : any (matches (name_query d.username d.user_id)) (log w) ≡ false =
        newest_none (matches (name_query d.username d.user_id)) (log w)
          (latest_position_none (name_query d.username d.user_id) (log w) (store.positioned w) f) in
      (
        p,
        n,
        subst (λ x. any (creates_name x) es ≡ false) n
            (any-name_query d.username d.user_id es
              (subst (λ x. any (matches (name_query d.username d.user_id)) x ≡ false) at unused)),
        g ∙ ap (λ x. x ++ saved_at (creation d) p ∷ []) at,
      )

  append_user-CreatesUser :
      (d : UserData) (w : W)
      → log w ≡ es
      → d.username ≡ username
      → CreatesUser (append_user ports trim d w)
  unfolding append_user
  append_user-CreatesUser d w at n =
      bind-Ensures IsNewUser MayBeNewUser
        (λ u w'. (p : Position) × IsSaved (creation d) (log w) p (log w'))
        (λ e w'. MayBeSaved (creation d) (log w) (log w')) (ports.save_events (creation d))
        (λ saved. lift (ok d)) w (store.saves (creation d) w)
        (λ e w' h. elim h [
          | inl g ↦ inl (g ∙ at)
          | inr (p, s) ↦ inr (d, saved-IsNewUser d w w' p at n s)
        ])
        (λ u w' (p, s). saved-IsNewUser d w w' p at n s)

  check_user-username :
      (requested d : UserData) (password : List ℕ) (events : List UserEvent)
      → check_user ports trim requested password events ≡ ok d
      → d.username ≡ requested.username
  unfolding check_user
  check_user-username requested d password events h =
      elim (Bool-cases (any is_creation events && not (any is_deletion events))) [
        | inl f ↦ ground (arith, h, f)
        | inr f ↦ elim (Result-cases (ports.hash_password password)) [
          | inl (hash, g) ↦ ground (arith, h, f, g)
          | inr (e, g) ↦ ground (arith, h, f, g)
        ]
      ]

  save_user-CreatesUser :
      (requested : UserData) (password : List ℕ) (events : List UserEvent) (w : W)
      → log w ≡ es
      → requested.username ≡ username
      → CreatesUser (save_user ports trim requested password events w)
  unfolding save_user
  save_user-CreatesUser requested password events w at n =
      lift-Ensures IsNewUser MayBeNewUser (check_user ports trim requested password events)
        (λ d. ports.new_id >>= (λ event_id. append_user ports trim d)) w (λ e. inl at)
        (λ d f.
          identifies_then ports log store IsNewUser MayBeNewUser es w at (λ e w' h. inl h)
            (λ event_id. append_user ports trim d)
            (λ i w' at'.
              append_user-CreatesUser d w' at'
                (check_user-username requested d password events f ∙ n)))

  create_read-CreatesUser :
      (requested : UserData) (password : List ℕ) (created deleted : List UserEvent) (w : W)
      → log w ≡ es
      → requested.username ≡ username
      → CreatesUser (create_read ports trim requested password created deleted w)
  unfolding create_read
  create_read-CreatesUser requested password created deleted w at n =
      lift-Ensures IsNewUser MayBeNewUser (decode_all deleted)
        (λ decoded. ports.new_id >>= (λ id.
          save_user ports trim (record requested { user_id = id }) password (created ++ deleted)))
        w (λ e. inl at)
        (λ u f.
          identifies_then ports log store IsNewUser MayBeNewUser es w at (λ e w' h. inl h)
            (λ id.
              save_user ports trim (record requested { user_id = id }) password
                (created ++ deleted))
            (λ i w' at'.
              save_user-CreatesUser (record requested { user_id = i }) password (created ++ deleted)
                w' at' n))

  read_deletion-then :
      (requested : UserData) (password : List ℕ) (created : List UserEvent) (w : W)
      → log w ≡ es
      → requested.username ≡ username
      → CreatesUser (
          (read_deletion ports trim created >>= create_read ports trim requested password created)
            w)
  unfolding read_deletion
  read_deletion-then requested password [] w at n =
      create_read-CreatesUser requested password [] [] w at n
  read_deletion-then requested password (e ∷ rest) w at n = elim (Option-cases e.content) [
    | inl f ↦ rw f (inl at)
    | inr (d, f) ↦ rw f (
        reads_then ports log store IsNewUser MayBeNewUser es w at (λ e w' h. inl h)
          ((tag_type user_deleted ∷ tag_camel_id d.user_id ∷ []) ∷ []) 1
          (create_read ports trim requested password (record e { content = some d } ∷ rest))
          (λ w' at'.
            create_read-CreatesUser requested password (record e { content = some d } ∷ rest) _ w'
              at' n))
  ]

  create_named-CreatesUser :
      (requested : UserData) (password : List ℕ) (created : List UserEvent) (w : W)
      → log w ≡ es
      → requested.username ≡ username
      → CreatesUser (create_named ports trim requested password created w)
  unfolding create_named
  create_named-CreatesUser requested password created w at n =
      lift-Ensures IsNewUser MayBeNewUser (decode_all created)
        (λ decoded.
          read_deletion ports trim created >>= create_read ports trim requested password created)
        w (λ e. inl at) (λ u f. read_deletion-then requested password created w at n)

-- A user is created only with a name that no user of the log was ever created with, also if that user
-- was deleted since, and its creation is then appended; a command that fails leaves the log unchanged, or,
-- when the reply of its save was lost, has created such a user. No other writer appends meanwhile.
pub create_user-CreatesUser :
    {W : Type 0} (ports : UserPorts W) (log : W → List UserEvent) (store : IsUserStore W ports log)
    (trim : List ℕ → List ℕ) (name username password : List ℕ) (roles : List (List ℕ)) (w : W)
    → CreatesUser ports log store trim
        (trim username)
        (log w)
        (create_user ports trim name username password roles w)
unfolding create_user
create_user-CreatesUser ports log store trim name username password roles w =
    let requested : UserData = record {
      name = name;
      user_id = [];
      username = trim username;
      roles = roles;
      password_hash = [];
    } in
    reads_then ports log store (IsNewUser ports log store trim (trim username) (log w))
      (MayBeNewUser ports log store trim (trim username) (log w)) (log w) w refl (λ e w' h. inl h)
      ((tag_username (trim username) ∷ tag_type user_created ∷ []) ∷ []) 1
      (create_named ports trim requested password)
      (λ w' at.
        create_named-CreatesUser ports log store trim (trim username) (log w) requested password _
          w' at refl)
