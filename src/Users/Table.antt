-- ===== src/Users/Table.antt =====
-- The users of SqliteAdminDB (sqlite/sqlite_eventstore.go): the table, whose user names are unique, and
-- the cache of users by name. `strings.TrimSpace` is a parameter.
pub mod Roles
pub mod Cache
use orisun.Base.{
  ℕ, Bool, true, false, not, ◌&&◌, ◌||◌, Option, none, some, List, [], ◌∷◌, ◌++◌, ◌==◌, codes_eq,
  any, filter, if◌then◌else◌,
}
use orisun.Status.{Result, ok, err, uncoded}

-- `User`
pub record User : Type 0 where
  pub id : List ℕ
  pub name : List ℕ
  pub username : List ℕ
  pub hashed_password : List ℕ
  pub roles : List (List ℕ)

-- A row of the table `users`.
pub record UserRow : Type 0 where
  pub id : List ℕ
  pub name : List ℕ
  pub username : List ℕ
  pub password_hash : List ℕ
  pub roles : List ℕ

-- The fields of `SqliteAdminDB`, as far as users go.
pub record AdminDb : Type 0 where
  pub users : List UserRow
  pub user_cache : List (List ℕ × User)

abbrev pub comma : ℕ
comma = 44

-- `rolesToCSV`
unfoldable pub roles_to_csv : List (List ℕ) → List ℕ
roles_to_csv [] = []
roles_to_csv (r ∷ []) = r
roles_to_csv (r ∷ s ∷ roles) = r ++ comma ∷ roles_to_csv (s ∷ roles)

abbrev pub cons_first : ℕ → List (List ℕ) → List (List ℕ)
cons_first c [] = (c ∷ []) ∷ []
cons_first c (part ∷ parts) = (c ∷ part) ∷ parts

-- `strings.Split(s, ",")`
unfoldable pub split_comma : List ℕ → List (List ℕ)
split_comma [] = [] ∷ []
split_comma (c ∷ cs) =
    let rest = split_comma cs in if c == comma then [] ∷ rest else cons_first c rest

abbrev pub is_blank : List ℕ → Bool
is_blank [] = true
is_blank (c ∷ cs) = false

-- The loop of `csvToRoles`.
abbrev pub trimmed_roles : (List ℕ → List ℕ) → List (List ℕ) → List (List ℕ)
trimmed_roles trim [] = []
trimmed_roles trim (part ∷ parts) =
    let rest = trimmed_roles trim parts in if is_blank (trim part) then rest else trim part ∷ rest

-- `csvToRoles`
unfoldable pub csv_to_roles : (List ℕ → List ℕ) → List ℕ → List (List ℕ)
unfolding split_comma
csv_to_roles trim s = if is_blank s then [] else trimmed_roles trim (split_comma s)

-- What `UpsertUser` inserts, and what the reads make of a row.
abbrev pub row_of : User → UserRow
row_of u = record {
  id = u.id;
  name = u.name;
  username = u.username;
  password_hash = u.hashed_password;
  roles = roles_to_csv u.roles;
}

abbrev pub user_of : (List ℕ → List ℕ) → UserRow → User
user_of trim row = record {
  id = row.id;
  name = row.name;
  username = row.username;
  hashed_password = row.password_hash;
  roles = csv_to_roles trim row.roles;
}

-- Another user has the name: the constraint UNIQUE refuses the row.
abbrev pub name_is_taken : UserRow → List UserRow → Bool
name_is_taken row rows =
    any (λ r. not (codes_eq r.id row.id) && codes_eq r.username row.username) rows

-- INSERT with ON CONFLICT(id) DO UPDATE.
unfoldable pub upsert_row : UserRow → List UserRow → List UserRow
upsert_row row [] = row ∷ []
upsert_row row (r ∷ rows) =
    let rest = r ∷ upsert_row row rows in if codes_eq r.id row.id then row ∷ rows else rest

-- SELECT with WHERE username = ?, and with WHERE id = ?.
unfoldable pub row_by_username : List ℕ → List UserRow → Option UserRow
row_by_username name [] = none
row_by_username name (r ∷ rows) =
    let rest = row_by_username name rows in if codes_eq r.username name then some r else rest

unfoldable pub row_by_id : List ℕ → List UserRow → Option UserRow
row_by_id id [] = none
row_by_id id (r ∷ rows) = let rest = row_by_id id rows in if codes_eq r.id id then some r else rest

-- `a.userCache[username]`
unfoldable pub cached : List ℕ → List (List ℕ × User) → Option User
cached name [] = none
cached name ((n, u) ∷ cache) =
    let rest = cached name cache in if codes_eq n name then some u else rest

-- `UpsertUser`
unfoldable pub upsert_user : User → AdminDb → Result (Unit {0}) × AdminDb
upsert_user user db = if name_is_taken (row_of user) db.users then (err uncoded, db) else (
  ok tt,
  record { users = upsert_row (row_of user) db.users; user_cache = (user.username, user) ∷ [] },
)

-- `DeleteUser`
unfoldable pub delete_row : List ℕ → AdminDb → Result (Unit {0}) × AdminDb
delete_row id db =
    (ok tt, record { users = filter (λ r. not (codes_eq r.id id)) db.users; user_cache = [] })

-- `GetUserByUsername` after its look at the cache. The new entry of the Go map comes first.
unfoldable pub read_by_username : (List ℕ → List ℕ) → List ℕ → AdminDb → Result User × AdminDb
read_by_username trim name db = elim (row_by_username name db.users) [
  | none ↦ (err uncoded, db)
  | some row ↦
      (ok (user_of trim row), record db { user_cache = (name, user_of trim row) ∷ db.user_cache })
]

-- `GetUserByUsername`
unfoldable pub get_user_by_username : (List ℕ → List ℕ) → List ℕ → AdminDb → Result User × AdminDb
get_user_by_username trim name db = elim (cached name db.user_cache) [
  | some u ↦ (ok u, db)
  | none ↦ read_by_username trim name db
]

-- `GetUserById`
unfoldable pub get_user_by_id : (List ℕ → List ℕ) → List ℕ → AdminDb → Result User
unfolding row_by_id
get_user_by_id trim id db = elim (row_by_id id db.users) [
  | none ↦ err uncoded
  | some row ↦ ok (user_of trim row)
]
