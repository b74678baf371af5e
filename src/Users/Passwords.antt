-- ===== src/Users/Passwords.antt =====
-- ChangePassword, and the state of the user's events in which it appends.
use orisun.Base.{
  ℕ, ◌≡◌, ◌≢◌, refl, ap, sym, ◌∙◌, ◌⊎◌, inl, inr, Bool, some, List, [], ◌∷◌, ◌++◌, All, take,
  if◌then◌else◌,
}
use orisun.Status.{Result, Error, ok, err, uncoded}
use orisun.Position.{Position, not_exists_position}
use orisun.Boundaries.{◌>>=◌, lift}
use orisun.Boundaries.Logic.{Ensures, lift-Ensures, Ensures-weaken}
use orisun.Users.{
  user_created, user_deleted, password_changed, UserEvent, UserPorts, SaveUserEvent, only_id,
  password_query, expected_position, current_hash, save_password, change_read, change_deleted,
  change_created, change_password,
}
use orisun.Users.Log.{
  IsUserStore, IsSaved, MayBeSaved, matches, newest, newest-All, latest_position, first_position,
  saved_at, reads_then,
}

first_positioned :
    (xs : List UserEvent)
    → All (λ e. e.position ≢ not_exists_position) xs
    → All (λ e. e.position ≢ not_exists_position) (take 1 xs)
first_positioned [] h = tt
first_positioned (x ∷ xs) h = (h.0, tt)

module _ {W : Type 0} (ports : UserPorts W) (log : W → List UserEvent)
    (store : IsUserStore W ports log) (trim : List ℕ → List ℕ)
    (id current_password new_password : List ℕ) (es : List UserEvent)
    (positioned : All (λ e. e.position ≢ not_exists_position) es) where
  abbrev changes : UserEvent → Bool
  changes e = matches (password_query password_changed id) e

  -- A change of the password was appended to a log that has one already.
  abbrev pub IsChanged : Unit {0} → W → Type 0
  IsChanged u w' =
      (p : Position) × (hash : List ℕ) × (e : UserEvent) × (rest : List UserEvent) × (newest changes
          es
        ≡ e ∷ rest)
      × (ports.hash_password new_password ≡ ok hash)
      × (log w'
          ≡ es
            ++ record {
              event_type = password_changed;
              content = some (record (only_id id) { password_hash = hash });
              position = p;
            }
              ∷ [])

  -- A command that failed has appended nothing, or the reply of its save was lost.
  abbrev pub MayBeChanged : Error → W → Type 0
  MayBeChanged e w' = (log w' ≡ es) ⊎ IsChanged tt w'

  abbrev pub Changes : Result (Unit {0}) × W → Type 0
  Changes x = Ensures IsChanged MayBeChanged x

  -- The save of a hash.
  abbrev change : List ℕ → Position → SaveUserEvent
  change hash p = record {
    event_type = password_changed;
    content = record (only_id id) { password_hash = hash };
    query = password_query password_changed id;
    observed = p;
  }

  -- The position that is expected is the latest one only where there is a change already.
  changed_before :
      (ns : List UserEvent) (c : UserEvent)
      → newest changes es ≡ ns
      → c.position ≢ not_exists_position
      → latest_position (password_query password_changed id) es
        ≡ expected_position ports trim (take 1 ns) c
      → (e : UserEvent) × (rest : List UserEvent) × (newest changes es ≡ e ∷ rest)
  changed_before [] c n q h = elim (q (sym h ∙ ap first_position n)) [ ]
  changed_before (e ∷ rest) c n q h = (e, rest, n)

  saved-IsChanged :
      (ns : List UserEvent) (c : UserEvent) (hash : List ℕ) (w w' : W) (p : Position)
      → log w ≡ es
      → newest changes es ≡ ns
      → c.position ≢ not_exists_position
      → ports.hash_password new_password ≡ ok hash
      → IsSaved (change hash (expected_position ports trim (take 1 ns) c)) (log w) p (log w')
      → IsChanged tt w'
  saved-IsChanged ns c hash w w' p at n q k (f, g) =
      let save : SaveUserEvent = change hash (expected_position ports trim (take 1 ns) c) in
      let (e, rest, found) =
        changed_before ns c n q
          (ap (latest_position (password_query password_changed id)) (sym at) ∙ f) in
      (p, hash, e, rest, found, k, g ∙ ap (λ x. x ++ saved_at save p ∷ []) at)

  save_password-Changes :
      (ns : List UserEvent) (c : UserEvent) (w : W)
      → log w ≡ es
      → newest changes es ≡ ns
      → c.position ≢ not_exists_position
      → Changes (save_password ports trim id new_password (take 1 ns) c w)
  unfolding save_password
  save_password-Changes ns c w at n q =
      lift-Ensures IsChanged MayBeChanged (ports.hash_password new_password)
        (λ hash. ports.save_events (change hash (expected_position ports trim (take 1 ns) c))) w
        (λ e. inl at)
        (λ hash k.
          let save : SaveUserEvent = change hash (expected_position ports trim (take 1 ns) c) in
          Ensures-weaken {P = λ u w'. (p : Position) × IsSaved save (log w) p (log w')}
            {Q = IsChanged} {D = λ e w'. MayBeSaved save (log w) (log w')} {E = MayBeChanged} _
            (λ u w' (p, s). saved-IsChanged ns c hash w w' p at n q k s)
            (λ e w' h. elim h [
              | inl g ↦ inl (g ∙ at)
              | inr (p, s) ↦ inr (saved-IsChanged ns c hash w w' p at n q k s)
            ])
            (store.saves save w))

  change_read-Changes :
      (created deleted ns : List UserEvent) (w : W)
      → log w ≡ es
      → newest changes es ≡ ns
      → All (λ e. e.position ≢ not_exists_position) created
      → Changes
          (change_read ports trim id current_password new_password created deleted (take 1 ns) w)
  unfolding change_read
  change_read-Changes [] deleted ns w at n q = inl at
  change_read-Changes (c ∷ cs) (d ∷ ds) ns w at n q = inl at
  change_read-Changes (c ∷ cs) [] ns w at n q =
      lift-Ensures IsChanged MayBeChanged (current_hash ports trim (take 1 ns) c)
        (λ hash.
          lift (if ports.compare_password hash current_password then ok tt else err uncoded)
          >>= (λ verified. save_password ports trim id new_password (take 1 ns) c))
        w (λ e. inl at)
        (λ hash h.
          lift-Ensures IsChanged MayBeChanged
            (if ports.compare_password hash current_password then ok tt else err uncoded)
            (λ verified. save_password ports trim id new_password (take 1 ns) c) w (λ e. inl at)
            (λ u k. save_password-Changes ns c w at n q.0))

  -- The reads, of which the first is positioned.
  reads_all :
      (w : W) → log w ≡ es → Changes (change_password ports trim id current_password new_password w)
  unfolding change_password change_created change_deleted
  reads_all w at =
      let created : List UserEvent =
        take 1 (newest (matches (password_query user_created id)) es) in
      let deleted : List UserEvent =
        take 1 (newest (matches (password_query user_deleted id)) es) in
      reads_then ports log store IsChanged MayBeChanged es w at (λ e v h. inl h)
        (password_query user_created id) 1
        (change_created ports trim id current_password new_password)
        (λ w1 at1.
          reads_then ports log store IsChanged MayBeChanged es w1 at1 (λ e v h. inl h)
            (password_query user_deleted id) 1
            (change_deleted ports trim id current_password new_password created)
            (λ w2 at2.
              reads_then ports log store IsChanged MayBeChanged es w2 at2 (λ e v h. inl h)
                (password_query password_changed id) 1
                (change_read ports trim id current_password new_password created deleted)
                (λ w3 at3. change_read-Changes created deleted (newest changes es) w3 at3 refl (
                  first_positioned _ (
                    newest-All (λ e. e.position ≢ not_exists_position)
                      (matches (password_query user_created id)) es positioned)))))

-- A password is changed only where the log has an earlier change of that user's password, and the hash of
-- the new one is then appended; a command that fails leaves the log unchanged, or, when the reply of its
-- save was lost, has made such a change. So the first change is never made. No other writer appends
-- meanwhile.
pub change_password-Changes :
    {W : Type 0} (ports : UserPorts W) (log : W → List UserEvent) (store : IsUserStore W ports log)
    (trim : List ℕ → List ℕ) (id current_password new_password : List ℕ) (w : W)
    → Changes ports log store trim id current_password new_password
        (log w)
        (store.positioned w)
        (change_password ports trim id current_password new_password w)
change_password-Changes ports log store trim id current_password new_password w =
    reads_all ports log store trim id current_password new_password (log w) (store.positioned w) w
      refl
