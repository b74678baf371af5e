-- ===== src/Tests/Users.antt =====
-- The theorems on the commands on users, at a store of one writer.
use orisun.Base.{some, pos, ◌≡◌, refl, List, [], ◌∷◌, codes, codes_eq}
use orisun.Status.{err, coded, uncoded, already_exists}
use orisun.Position.{not_exists_position}
use orisun.Users.{
  SaveUserEvent, create_user, create_named, create_read, read_deletion, check_user, save_user,
  append_user, delete_user, delete_read, change_password, change_created, change_deleted,
  change_read, save_password,
}
use orisun.Users.Names.{CreatesUser, create_user-CreatesUser}
use orisun.Users.Deletion.{Deletes, delete_user-Deletes}
use orisun.Users.Passwords.{Changes, change_password-Changes}
use orisun.Tests.Boundaries.{untrimmed}
use orisun.Users.Table.{User}
use orisun.Users.Table.Roles.{AreRoles, csv_to_roles-roles_to_csv}
use orisun.Users.Table.Cache.{get_user_by_username-read_by_username, upsert, look_up, run_ops}
use orisun.Users.Table.{roles_to_csv, csv_to_roles, get_user_by_username, read_by_username}
use orisun.Base.{true, false}
use orisun.Users.{UserEvent, password_changed}
use orisun.Users.Table.{AdminDb}
use orisun.Users.Projection.{receive_event, handle_event}
use orisun.Users.Projection.Once.{once, receive_event-handle_event}
use orisun.Tests.UserLog.{user_ports, user_log, user_ports-IsUserStore}

-- The log after a user was created, whose identifier is 0.
abbrev one_user : List SaveUserEvent
one_user =
    (create_user (user_ports false) untrimmed (codes "Ada") (codes "ada") (codes "old") [] []).1

abbrev without_user : List SaveUserEvent
without_user = (delete_user (user_ports false) untrimmed (0 ∷ []) (codes "admin") one_user).1

-- The name of a deleted user is not free again.
name_taken :
    (create_user
      (user_ports false)
      untrimmed
      (codes "Ada")
      (codes "ada")
      (codes "new")
      []
      without_user).0
    ≡ err uncoded
unfolding not_exists_position codes_eq create_user create_named create_read read_deletion check_user
    save_user append_user delete_user delete_read
name_taken = refl

first_change_refused :
    (change_password (user_ports false) untrimmed (0 ∷ []) (codes "old") (codes "new") one_user).0
    ≡ err (coded already_exists)
unfolding not_exists_position codes_eq create_user create_named create_read read_deletion check_user
    save_user append_user delete_user delete_read change_password change_created change_deleted
    change_read save_password
first_change_refused = refl

create_user-CreatesUser_example :
    CreatesUser
      (user_ports false)
      user_log
      (user_ports-IsUserStore false)
      untrimmed
      (codes "bob")
      (user_log one_user)
      (create_user
        (user_ports false)
        untrimmed
        (codes "Bob")
        (codes "bob")
        (codes "pw")
        []
        one_user)
create_user-CreatesUser_example =
    create_user-CreatesUser (user_ports false) user_log (user_ports-IsUserStore false) untrimmed
      (codes "Bob") (codes "bob") (codes "pw") [] one_user

delete_user-Deletes_example :
    Deletes
      (user_ports true)
      user_log
      (user_ports-IsUserStore true)
      untrimmed
      (0 ∷ [])
      (user_log one_user)
      (delete_user (user_ports true) untrimmed (0 ∷ []) (codes "admin") one_user)
delete_user-Deletes_example =
    delete_user-Deletes (user_ports true) user_log (user_ports-IsUserStore true) untrimmed (0 ∷ [])
      (codes "admin") one_user

change_password-Changes_example :
    Changes
      (user_ports false)
      user_log
      (user_ports-IsUserStore false)
      untrimmed
      (0 ∷ [])
      (codes "old")
      (codes "new")
      (user_log one_user)
      ((user_ports-IsUserStore false).positioned one_user)
      (change_password (user_ports false) untrimmed (0 ∷ []) (codes "old") (codes "new") one_user)
change_password-Changes_example =
    change_password-Changes (user_ports false) user_log (user_ports-IsUserStore false) untrimmed
      (0 ∷ []) (codes "old") (codes "new") one_user

abbrev ada : User
ada = record {
  id = codes "1";
  name = codes "Ada";
  username = codes "ada";
  hashed_password = codes "h";
  roles = codes "ADMIN" ∷ codes "USER" ∷ [];
}

-- The second user has another name and takes the identifier of the first.
abbrev renamed : User
renamed = record ada { username = codes "countess" }

ada_roles : AreRoles untrimmed ada.roles
ada_roles = ((refl, refl, refl), ((refl, refl, refl), tt))

csv_to_roles-roles_to_csv_example : csv_to_roles untrimmed (roles_to_csv ada.roles) ≡ ada.roles
csv_to_roles-roles_to_csv_example = csv_to_roles-roles_to_csv untrimmed ada.roles ada_roles

get_user_by_username-read_by_username_example :
    (get_user_by_username untrimmed (codes "ada") (
      run_ops untrimmed
        (upsert ada ∷ look_up (codes "ada") ∷ upsert renamed ∷ [])
        (record { users = []; user_cache = [] }))).0
    ≡ (read_by_username untrimmed (codes "ada") (
        run_ops untrimmed
          (upsert ada ∷ look_up (codes "ada") ∷ upsert renamed ∷ [])
          (record { users = []; user_cache = [] }))).0
get_user_by_username-read_by_username_example =
    get_user_by_username-read_by_username untrimmed []
      (upsert ada ∷ look_up (codes "ada") ∷ upsert renamed ∷ []) (ada_roles, (tt, (ada_roles, tt)))
      (codes "ada")

abbrev with_ada : AdminDb
with_ada = run_ops untrimmed (upsert ada ∷ []) (record { users = []; user_cache = [] })

abbrev change_of_ada : UserEvent
change_of_ada = record {
  event_type = password_changed;
  content = some (record {
    name = [];
    user_id = codes "1";
    username = [];
    roles = [];
    password_hash = codes "new";
  });
  position = record { commit_position = pos 4; prepare_position = pos 4 };
}

-- The checkpoint is written on the second try.
receive_event-handle_event_example :
    receive_event untrimmed (false ∷ true ∷ []) change_of_ada with_ada
    ≡ once
        (false ∷ true ∷ [])
        change_of_ada.position
        (handle_event untrimmed change_of_ada with_ada)
        with_ada
receive_event-handle_event_example =
    receive_event-handle_event untrimmed (false ∷ true ∷ []) change_of_ada with_ada
      ((λ s. refl), (λ s h. h))
