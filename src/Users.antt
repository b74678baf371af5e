-- ===== src/Users.antt =====
-- The commands on admin users: admin/slices/create_user, change_password and delete_user, over the events
-- of admin/events. `strings.TrimSpace`, the hashing of passwords and the identifiers are parameters.
pub mod Log
pub mod Table
pub mod Projection
pub mod Names
pub mod Deletion
pub mod Passwords
use orisun.Base.{
  ℕ, zero, suc, Bool, true, false, not, ◌&&◌, ◌||◌, Option, none, some, List, [], ◌∷◌, ◌++◌,
  codes_eq, any, all, filter, take, if◌then◌else◌,
}
use orisun.Status.{Result, ok, err, uncoded}
use orisun.Position.{Position, not_exists_position}
use orisun.Boundaries.{Action, ◌>>=◌, lift}

-- The event types of admin/events, and any other.
pub data UserEventType : Type 0 where
  user_created user_deleted password_changed other_event : UserEventType

abbrev pub same_event_type : UserEventType → UserEventType → Bool
same_event_type user_created user_created = true
same_event_type user_deleted user_deleted = true
same_event_type password_changed password_changed = true
same_event_type other_event other_event = true
same_event_type s t = false

-- `UserCreated`, `UserDeleted` and `UserPasswordChanged`, all their fields together.
pub record UserData : Type 0 where
  pub name : List ℕ
  pub user_id : List ℕ
  pub username : List ℕ
  pub roles : List (List ℕ)
  pub password_hash : List ℕ

-- An event as it is stored, with its data decoded if it can be.
pub record UserEvent : Type 0 where
  pub event_type : UserEventType
  pub content : Option UserData
  pub position : Position

-- The tags of the queries. `tag_user_id` has the key user_id, which the data of the user events have,
-- and `tag_camel_id` the key userId, which they do not have.
pub data UserTag : Type 0 where
  tag_type : UserEventType → UserTag
  tag_username tag_user_id tag_camel_id : List ℕ → UserTag

abbrev pub UserQuery : Type 0
UserQuery = List (List UserTag)

-- `SaveEventsV2Request`, with one event and one observation.
pub record SaveUserEvent : Type 0 where
  pub event_type : UserEventType
  pub content : UserData
  pub query : UserQuery
  pub observed : Position

-- What the commands call. `get_events` reads the given number of events, the latest first.
pub record UserPorts (W : Type 0) : Type 0 where
  pub get_events : UserQuery → ℕ → Action W (List UserEvent)
  pub save_events : SaveUserEvent → Action W (Unit {0})
  pub new_id : Action W (List ℕ)
  pub hash_password : List ℕ → Result (List ℕ)
  pub compare_password : List ℕ → List ℕ → Bool

abbrev pub only_id : List ℕ → UserData
only_id id = record { name = []; user_id = id; username = []; roles = []; password_hash = [] }

abbrev pub is_deletion : UserEvent → Bool
is_deletion e = same_event_type e.event_type user_deleted

abbrev pub is_creation : UserEvent → Bool
is_creation e = same_event_type e.event_type user_created

-- The position of the last event that was read.
abbrev last_read : Position → List UserEvent → Position
last_read p [] = p
last_read p (e ∷ es) = last_read e.position es

-- The loop that decodes the events that were read.
abbrev decode_all : List UserEvent → Result (Unit {0})
decode_all [] = ok tt
decode_all (e ∷ es) = elim e.content [ none ↦ err uncoded | some d ↦ decode_all es ]

abbrev pub user_query : List ℕ → UserQuery
user_query id =
    (tag_user_id id ∷ tag_type user_created ∷ [])
    ∷ (tag_user_id id ∷ tag_type user_deleted ∷ [])
    ∷ []

abbrev pub name_query : List ℕ → List ℕ → UserQuery
name_query username id =
    (tag_username username ∷ tag_type user_created ∷ [])
    ∷ (tag_type user_deleted ∷ tag_camel_id id ∷ [])
    ∷ []

abbrev pub password_query : UserEventType → List ℕ → UserQuery
password_query event_type id = (tag_user_id id ∷ tag_type event_type ∷ []) ∷ []

module _ {W : Type 0} (ports : UserPorts W) (trim : List ℕ → List ℕ) where
  -- `DeleteUser` once the events of the user are read.
  unfoldable pub delete_read : List ℕ → List UserEvent → Action W (Unit {0})
  delete_read id [] = lift (err uncoded)
  delete_read id (e ∷ es) =
      if any is_deletion (e ∷ es)
      then lift (err uncoded)
      else (ports.new_id >>= (λ event_id. ports.save_events (record {
        event_type = user_deleted;
        content = only_id id;
        query = user_query id;
        observed = last_read e.position es;
      })))

  -- `DeleteUser`
  unfoldable pub delete_user : List ℕ → List ℕ → Action W (Unit {0})
  delete_user user_id current_user_id =
      if codes_eq (trim user_id) (trim current_user_id)
      then lift (err uncoded)
      else (ports.get_events (user_query (trim user_id)) 2 >>= delete_read (trim user_id))

  -- The hash that the current password is compared with.
  abbrev pub current_hash : List UserEvent → UserEvent → Result (List ℕ)
  current_hash [] created = elim created.content [
    | none ↦ err uncoded
    | some d ↦ ok d.password_hash
  ]
  current_hash (changed ∷ es) created = elim changed.content [
    | none ↦ err uncoded
    | some d ↦ ok d.password_hash
  ]

  -- `expectedPosition`
  abbrev pub expected_position : List UserEvent → UserEvent → Position
  expected_position [] created = created.position
  expected_position (changed ∷ es) created = changed.position

  -- `ChangePassword` once the password is verified.
  unfoldable pub save_password : List ℕ → List ℕ → List UserEvent → UserEvent → Action W (Unit {0})
  save_password id new_password changed created = do
    hash ← lift (ports.hash_password new_password)
    ports.save_events (record {
      event_type = password_changed;
      content = record (only_id id) { password_hash = hash };
      query = password_query password_changed id;
      observed = expected_position changed created;
    })

  -- `ChangePassword` once the events of the user are read.
  unfoldable pub change_read :
      List ℕ
      → List ℕ
      → List ℕ
      → List UserEvent
      → List UserEvent
      → List UserEvent
      → Action W (Unit {0})
  change_read id current_password new_password [] deleted changed = lift (err uncoded)
  change_read id current_password new_password (c ∷ cs) (d ∷ ds) changed = lift (err uncoded)
  change_read id current_password new_password (c ∷ cs) [] changed = do
    hash ← lift (current_hash changed c)
    verified ← lift (if ports.compare_password hash current_password then ok tt else err uncoded)
    save_password id new_password changed c

  -- The reads of `ChangePassword`. The last two, which run at the same time, come one after the other.
  unfoldable pub change_deleted :
      List ℕ → List ℕ → List ℕ → List UserEvent → List UserEvent → Action W (Unit {0})
  change_deleted id current_password new_password created deleted =
      ports.get_events (password_query password_changed id) 1
      >>= change_read id current_password new_password created deleted

  unfoldable pub change_created : List ℕ → List ℕ → List ℕ → List UserEvent → Action W (Unit {0})
  change_created id current_password new_password created =
      ports.get_events (password_query user_deleted id) 1
      >>= change_deleted id current_password new_password created

  -- `ChangePassword`
  unfoldable pub change_password : List ℕ → List ℕ → List ℕ → Action W (Unit {0})
  change_password id current_password new_password =
      ports.get_events (password_query user_created id) 1
      >>= change_created id current_password new_password

  -- The save of `CreateUser`.
  unfoldable pub append_user : UserData → Action W UserData
  append_user d =
      ports.save_events (record {
        event_type = user_created;
        content = d;
        query = name_query d.username d.user_id;
        observed = not_exists_position;
      })
      >>= (λ saved. lift (ok d))

  -- `createUserCommandHandler`, from the test of what was read to the hash.
  unfoldable pub check_user : UserData → List ℕ → List UserEvent → Result UserData
  check_user requested password events =
      if any is_creation events && not (any is_deletion events)
      then err uncoded
      else elim (ports.hash_password password) [
        | err e ↦ err e
        | ok hash ↦ ok (record requested { password_hash = hash })
      ]

  -- `createUserCommandHandler` and the save of its event.
  unfoldable pub save_user : UserData → List ℕ → List UserEvent → Action W UserData
  save_user requested password events =
      lift (check_user requested password events)
      >>= (λ d. ports.new_id >>= (λ event_id. append_user d))

  -- The second read of `CreateUser`, of the deletion of the user that has the name.
  unfoldable pub read_deletion : List UserEvent → Action W (List UserEvent)
  read_deletion [] = lift (ok [])
  read_deletion (e ∷ es) = elim e.content [
    | none ↦ lift (err uncoded)
    | some d ↦ ports.get_events ((tag_type user_deleted ∷ tag_camel_id d.user_id ∷ []) ∷ []) 1
  ]

  -- `CreateUser` after its second read. `requested` has no identifier and no hash yet.
  unfoldable pub create_read :
      UserData → List ℕ → List UserEvent → List UserEvent → Action W UserData
  create_read requested password created deleted = lift (decode_all deleted) >>= (λ decoded.
      ports.new_id
      >>= (λ id. save_user (record requested { user_id = id }) password (created ++ deleted)))

  -- `CreateUser` after its first read.
  unfoldable pub create_named : UserData → List ℕ → List UserEvent → Action W UserData
  create_named requested password created =
      lift (decode_all created)
      >>= (λ decoded. read_deletion created >>= create_read requested password created)

  -- `CreateUser`
  unfoldable pub create_user : List ℕ → List ℕ → List ℕ → List (List ℕ) → Action W UserData
  create_user name username password roles =
      ports.get_events ((tag_username (trim username) ∷ tag_type user_created ∷ []) ∷ []) 1
      >>= create_named
          (record {
            name = name;
            user_id = [];
            username = trim username;
            roles = roles;
            password_hash = [];
          })
          password
