-- ===== src/Users/Projection.antt =====
-- The projection of users (admin/slices/users_projection/user_projector.go), into the table of users.
pub mod Repeats
pub mod Once
use orisun.Base.{ℕ, Bool, true, false, Option, none, some, List, [], ◌∷◌, if◌then◌else◌}
use orisun.Status.{Result, ok, err, uncoded}
use orisun.Position.{Position}
use orisun.Users.{
  UserData, UserEvent, UserEventType, user_created, user_deleted, password_changed, other_event,
}
use orisun.Users.Table.{User, AdminDb, upsert_user, delete_row, get_user_by_id}

-- The user of a `UserCreated` event.
abbrev pub created_user : UserData → User
created_user d = record {
  id = d.user_id;
  name = d.name;
  username = d.username;
  hashed_password = d.password_hash;
  roles = d.roles;
}

abbrev pub with_password : List ℕ → User → User
with_password hash u = record u { hashed_password = hash }

-- The case `UserPasswordChanged` once the user is read.
abbrev pub store_password : List ℕ → Result User → AdminDb → Result (Unit {0}) × AdminDb
store_password hash (err e) db = (err e, db)
store_password hash (ok u) db = upsert_user (with_password hash u) db

-- The cases of `handleEvent`, on the data of the event. The type $RolesChanged has none.
abbrev pub handle_data :
    (List ℕ → List ℕ) → UserEventType → UserData → AdminDb → Result (Unit {0}) × AdminDb
handle_data trim event_type d db = elim event_type [
  | user_created ↦ upsert_user (created_user d) db
  | user_deleted ↦ delete_row d.user_id db
  | password_changed ↦ store_password d.password_hash (get_user_by_id trim d.user_id db) db
  | other_event ↦ (ok tt, db)
]

-- `handleEvent` of an event's type and its data, where the data can be decoded. The data of another
-- type of event is not decoded.
unfoldable pub handle_content :
    (List ℕ → List ℕ) → UserEventType → Option UserData → AdminDb → Result (Unit {0}) × AdminDb
handle_content trim event_type (some d) db = handle_data trim event_type d db
handle_content trim user_created none db = (err uncoded, db)
handle_content trim user_deleted none db = (err uncoded, db)
handle_content trim password_changed none db = (err uncoded, db)
handle_content trim other_event none db = (ok tt, db)

-- `handleEvent`
unfoldable pub handle_event : (List ℕ → List ℕ) → UserEvent → AdminDb → Result (Unit {0}) × AdminDb
unfolding handle_content
handle_event trim event db = handle_content trim event.event_type event.content db

-- What a try of the handler of `Start` comes to, from what it handled and whether the checkpoint is
-- then written, and from what the further tries come to.
abbrev pub after_try :
    Bool
    → Position
    → Result (Unit {0}) × AdminDb
    → Option Position × AdminDb
    → Option Position × AdminDb
after_try is_saved position (err e, db) rest = rest
after_try is_saved position (ok u, db) rest = if is_saved then (some position, db) else rest

-- The handler of `Start`, over what becomes of the checkpoint on each try; the context ends after the
-- last. The result is the position of the checkpoint that was written.
unfoldable pub receive_event :
    (List ℕ → List ℕ) → List Bool → UserEvent → AdminDb → Option Position × AdminDb
receive_event trim [] event db = (none, db)
receive_event trim (is_saved ∷ tries) event db =
    let rest = receive_event trim tries event (handle_event trim event db).1 in
    after_try is_saved event.position (handle_event trim event db) rest
