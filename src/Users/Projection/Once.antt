-- ===== src/Users/Projection/Once.antt =====
-- The handler of the projection of users (Start in users_projection/user_projector.go) over several tries.
use orisun.Base.{
  ℕ, ◌≡◌, refl, ap, sym, ◌∙◌, subst, Bool, true, false, not, ◌&&◌, Option, none, some, List, [],
  ◌∷◌, any, codes_eq, codes_eq_iff, Bool-cases, Option-cases, inl, inr, if◌then◌else◌,
}
use orisun.Status.{Result, ok, err, is_ok}
use orisun.Position.{Position}
use orisun.Users.{
  UserData, UserEvent, UserEventType, user_created, user_deleted, password_changed, other_event,
}
use orisun.Users.Table.{
  User, UserRow, AdminDb, row_of, user_of, name_is_taken, upsert_row, row_by_id, upsert_user,
  csv_to_roles, delete_row, get_user_by_id,
}
use orisun.Users.Table.Roles.{csv_to_roles-roles_to_csv}
use orisun.Users.Projection.{
  created_user, with_password, store_password, handle_data, handle_content, handle_event,
  receive_event, after_try,
}
use orisun.Users.Projection.Repeats.{
  IsTrim, upsert_user_twice, filter_twice, row_by_id-upsert_row, has_id, has_id-row_by_id,
  csv_to_roles-AreRoles,
}

-- The user that a change of the password stores is the one that the next change makes.
with_password_twice :
    (trim : List ℕ → List ℕ) (hash : List ℕ) (row : UserRow)
    → IsTrim trim
    → with_password hash (user_of trim (row_of (with_password hash (user_of trim row))))
      ≡ with_password hash (user_of trim row)
with_password_twice trim hash row t =
    rw
      (csv_to_roles-roles_to_csv trim (csv_to_roles trim row.roles)
        (csv_to_roles-AreRoles trim row.roles t))
      refl

get_user_by_id_found :
    (trim : List ℕ → List ℕ) (id : List ℕ) (db : AdminDb) (row : UserRow)
    → row_by_id id db.users ≡ some row
    → get_user_by_id trim id db ≡ ok (user_of trim row)
unfolding get_user_by_id
get_user_by_id_found trim id db row found = rw (get_user_by_id, found) refl

upsert_user_refused :
    (u : User) (db : AdminDb) → name_is_taken (row_of u) db.users ≡ true → (upsert_user u db).1 ≡ db
unfolding upsert_user
upsert_user_refused u db taken = rw (upsert_user, taken) refl

get_user_by_id-upsert_user :
    (trim : List ℕ → List ℕ) (u : User) (db : AdminDb)
    → name_is_taken (row_of u) db.users ≡ false
    → get_user_by_id trim u.id (upsert_user u db).1 ≡ ok (user_of trim (row_of u))
unfolding upsert_user
get_user_by_id-upsert_user trim u db free =
    rw (upsert_user, free)
      (get_user_by_id_found trim u.id
        (record { users = upsert_row (row_of u) db.users; user_cache = (u.username, u) ∷ [] })
        (row_of u) (row_by_id-upsert_row (row_of u) db.users))

-- A user whose change of the password is handled again, by the identifier of its row.
store_password_twice :
    (trim : List ℕ → List ℕ) (hash : List ℕ) (db : AdminDb) (row : UserRow)
    → IsTrim trim
    → row_by_id row.id db.users ≡ some row
    → store_password hash
        (get_user_by_id trim row.id (upsert_user (with_password hash (user_of trim row)) db).1)
        (upsert_user (with_password hash (user_of trim row)) db).1
      ≡ upsert_user (with_password hash (user_of trim row)) db
store_password_twice trim hash db row t found =
    let u = with_password hash (user_of trim row) in
    elim (Bool-cases (name_is_taken (row_of u) db.users)) [
      | inl taken ↦
          ap (λ x. store_password hash (get_user_by_id trim row.id x) x)
            (upsert_user_refused u db taken)
          ∙ ap (λ r. store_password hash r db) (get_user_by_id_found trim row.id db row found)
      | inr free ↦
          ap (λ r. store_password hash r (upsert_user u db).1)
            (get_user_by_id-upsert_user trim u db free)
          ∙ ap (λ v. upsert_user v (upsert_user u db).1) (with_password_twice trim hash row t)
          ∙ upsert_user_twice u db
    ]

store_password_again :
    (trim : List ℕ → List ℕ) (hash : List ℕ) (db : AdminDb) (id : List ℕ) (row : UserRow)
    → IsTrim trim
    → row_by_id id db.users ≡ some row
    → let s = store_password hash (get_user_by_id trim id db) db in
      store_password hash (get_user_by_id trim id s.1) s.1 ≡ s
store_password_again trim hash db id row t found =
    let same : id ≡ row.id = sym (
      (codes_eq_iff row.id id).0
        (subst (λ o. has_id id o ≡ true) found (has_id-row_by_id id db.users))) in
    subst
      (λ r.
        store_password hash (get_user_by_id trim id (store_password hash r db).1)
          (store_password hash r db).1
        ≡ store_password hash r db)
      (sym (get_user_by_id_found trim id db row found))
      (subst
        (λ i.
          store_password hash
            (get_user_by_id trim i (upsert_user (with_password hash (user_of trim row)) db).1)
            (upsert_user (with_password hash (user_of trim row)) db).1
          ≡ upsert_user (with_password hash (user_of trim row)) db)
        (sym same)
        (store_password_twice trim hash db row t
          (subst (λ i. row_by_id i db.users ≡ some row) same found)))

handle_data_twice :
    (trim : List ℕ → List ℕ) (event_type : UserEventType) (d : UserData) (db : AdminDb)
    → IsTrim trim
    → handle_data trim event_type d (handle_data trim event_type d db).1
      ≡ handle_data trim event_type d db
unfolding delete_row get_user_by_id
handle_data_twice trim user_created d db t = upsert_user_twice (created_user d) db
handle_data_twice trim user_deleted d db t =
    rw (filter_twice (λ r. not (codes_eq r.id d.user_id)) db.users) refl
handle_data_twice trim other_event d db t = refl
handle_data_twice trim password_changed d db t =
    elim (Option-cases (row_by_id d.user_id db.users)) [
      | inl e ↦ rw (get_user_by_id, e, e) refl
      | inr (row, e) ↦ store_password_again trim d.password_hash db d.user_id row t e
    ]

handle_content_twice :
    (trim : List ℕ → List ℕ) (event_type : UserEventType) (content : Option UserData) (db : AdminDb)
    → IsTrim trim
    → handle_content trim event_type content (handle_content trim event_type content db).1
      ≡ handle_content trim event_type content db
unfolding handle_content
handle_content_twice trim event_type (some d) db t = handle_data_twice trim event_type d db t
handle_content_twice trim user_created none db t = refl
handle_content_twice trim user_deleted none db t = refl
handle_content_twice trim password_changed none db t = refl
handle_content_twice trim other_event none db t = refl

handle_event_twice :
    (trim : List ℕ → List ℕ) (event : UserEvent) (db : AdminDb)
    → IsTrim trim
    → handle_event trim event (handle_event trim event db).1 ≡ handle_event trim event db
unfolding handle_event
handle_event_twice trim event db t = handle_content_twice trim event.event_type event.content db t

-- What the handler leaves, over what becomes of the checkpoint on each try.
abbrev pub once :
    List Bool → Position → Result (Unit {0}) × AdminDb → AdminDb → Option Position × AdminDb
once [] position handled db = (none, db)
once (is_saved ∷ tries) position handled db =
    (if is_ok handled.0 && any (λ b. b) (is_saved ∷ tries) then some position else none, handled.1)

after_try-once :
    (s : Bool) (position : Position) (handled : Result (Unit {0}) × AdminDb) (db : AdminDb)
    → after_try s position handled (none, handled.1) ≡ once (s ∷ []) position handled db
after_try-once true position (ok u, d) db = refl
after_try-once false position (ok u, d) db = refl
after_try-once s position (err e, d) db = refl

after_try-again :
    (s t : Bool) (tries : List Bool) (position : Position) (handled : Result (Unit {0}) × AdminDb)
    (db : AdminDb)
    → after_try s position handled (once (t ∷ tries) position handled handled.1)
      ≡ once (s ∷ t ∷ tries) position handled db
after_try-again true t tries position (ok u, d) db = refl
after_try-again false t tries position (ok u, d) db = refl
after_try-again s t tries position (err e, d) db = refl

receive_event-once :
    (trim : List ℕ → List ℕ) (event : UserEvent) (is_saved : Bool) (tries : List Bool)
    (handled : Result (Unit {0}) × AdminDb) (db : AdminDb)
    → handle_event trim event db ≡ handled
    → handle_event trim event handled.1 ≡ handled
    → receive_event trim (is_saved ∷ tries) event db
      ≡ once (is_saved ∷ tries) event.position handled db
unfolding receive_event
receive_event-once trim event s [] handled db h again =
    ap (λ r. after_try s event.position r (none, r.1)) h
    ∙ after_try-once s event.position handled db
receive_event-once trim event s (t ∷ tries) handled db h again =
    ap (λ r. after_try s event.position r (receive_event trim (t ∷ tries) event r.1)) h
    ∙ ap (after_try s event.position handled)
        (receive_event-once trim event t tries handled handled.1 again again)
    ∙ after_try-again s t tries event.position handled db

-- However often the handler of the projection of users tries an event, the table and the cache are those
-- of handling it once, or the old ones if there is no try; and the checkpoint is written, with the
-- position of the event, just if the event can be handled and some try can write the checkpoint. This
-- holds if trimming a text twice is trimming it once and brings in no comma.
pub receive_event-handle_event :
    (trim : List ℕ → List ℕ) (tries : List Bool) (event : UserEvent) (db : AdminDb)
    → IsTrim trim
    → receive_event trim tries event db ≡ once tries event.position (handle_event trim event db) db
unfolding receive_event
receive_event-handle_event trim [] event db t = refl
receive_event-handle_event trim (is_saved ∷ tries) event db t =
    receive_event-once trim event is_saved tries (handle_event trim event db) db refl
      (handle_event_twice trim event db t)
