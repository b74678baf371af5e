-- ===== src/Users/Table/Cache.antt =====
-- The cache of users by name, over any sequence of the operations on the table.
use orisun.Base.{
  ℕ, ◌≡◌, refl, ap, sym, ◌∙◌, subst, true, false, Option, none, some, List, [], ◌∷◌, codes_eq,
  codes_eq_iff, Bool-cases, Option-cases, inl, inr, arith, if◌then◌else◌,
}
use mathlib.Core.Option
use orisun.Status.{Result, ok, err, uncoded}
use orisun.Users.Table.{
  User, UserRow, AdminDb, row_of, user_of, name_is_taken, upsert_row, row_by_username, cached,
  upsert_user, delete_row, read_by_username, get_user_by_username,
}
use orisun.Users.Table.Roles.{AreRoles, csv_to_roles-roles_to_csv}

-- An operation on the users.
pub data UserOp : Type 0 where
  upsert : User → UserOp
  delete : List ℕ → UserOp
  look_up : List ℕ → UserOp

unfoldable pub run_op : (List ℕ → List ℕ) → UserOp → AdminDb → AdminDb
unfolding upsert_user delete_row get_user_by_username
run_op trim (upsert u) db = (upsert_user u db).1
run_op trim (delete id) db = (delete_row id db).1
run_op trim (look_up name) db = (get_user_by_username trim name db).1

unfoldable pub run_ops : (List ℕ → List ℕ) → List UserOp → AdminDb → AdminDb
run_ops trim [] db = db
run_ops trim (o ∷ ops) db = run_ops trim ops (run_op trim o db)

-- The roles of the users that are stored are read back as they are.
abbrev pub IsStorable : (List ℕ → List ℕ) → UserOp → Type 0
IsStorable trim (upsert u) = AreRoles trim u.roles
IsStorable trim (delete id) = Unit {0}
IsStorable trim (look_up name) = Unit {0}

abbrev pub AreStorable : (List ℕ → List ℕ) → List UserOp → Type 0
AreStorable trim [] = Unit {0}
AreStorable trim (o ∷ ops) = IsStorable trim o × AreStorable trim ops

-- Every user of the cache is the user of the row that its name finds.
abbrev pub IsCoherent : (List ℕ → List ℕ) → List UserRow → List (List ℕ × User) → Type 0
IsCoherent trim users [] = Unit {0}
IsCoherent trim users ((n, u) ∷ cache) =
    (Option.map (user_of trim) (row_by_username n users) ≡ some u) × IsCoherent trim users cache

codes_eq_same : (n : List ℕ) → codes_eq n n ≡ true
codes_eq_same n = (codes_eq_iff n n).1 refl

row_by_username-upsert_row :
    (row : UserRow) (rows : List UserRow)
    → name_is_taken row rows ≡ false
    → row_by_username row.username (upsert_row row rows) ≡ some row
unfolding row_by_username upsert_row
row_by_username-upsert_row row [] h = rw (codes_eq_same row.username) refl
row_by_username-upsert_row row (r ∷ rows) h = elim (Bool-cases (codes_eq r.id row.id)) [
  | inl same ↦ rw (same, codes_eq_same row.username) refl
  | inr other ↦ elim (Bool-cases (codes_eq r.username row.username)) [
    | inl taken ↦ ground (arith, h, other, taken)
    | inr free ↦
        rw (other, free) (row_by_username-upsert_row row rows (ground (arith, h, other, free)))
  ]
]

row_of-user_of :
    (trim : List ℕ → List ℕ) (u : User) → AreRoles trim u.roles → user_of trim (row_of u) ≡ u
row_of-user_of trim u h = rw (csv_to_roles-roles_to_csv trim u.roles h) refl

cached-IsCoherent :
    (trim : List ℕ → List ℕ) (users : List UserRow) (cache : List (List ℕ × User)) (name : List ℕ)
    (u : User)
    → IsCoherent trim users cache
    → cached name cache ≡ some u
    → Option.map (user_of trim) (row_by_username name users) ≡ some u
unfolding cached
cached-IsCoherent trim users [] name u h found = ground (arith, found)
cached-IsCoherent trim users ((n, v) ∷ cache) name u h found = elim (Bool-cases (codes_eq n name)) [
  | inl same ↦
      rw (sym ((codes_eq_iff n name).0 same))
        (h.0 ∙ subst (λ b. (if b then some v else cached name cache) ≡ some u) same found)
  | inr other ↦
      cached-IsCoherent trim users cache name u h.1
        (subst (λ b. (if b then some v else cached name cache) ≡ some u) other found)
]

read_by_username-IsCoherent :
    (trim : List ℕ → List ℕ) (name : List ℕ) (db : AdminDb)
    → IsCoherent trim db.users db.user_cache
    → IsCoherent trim
        (read_by_username trim name db).1.users
        (read_by_username trim name db).1.user_cache
unfolding read_by_username
read_by_username-IsCoherent trim name db h = elim (Option-cases (row_by_username name db.users)) [
  | inl e ↦ rw (read_by_username, e) h
  | inr (row, e) ↦ rw (read_by_username, e) (rw e refl, h)
]

run_op-IsCoherent :
    (trim : List ℕ → List ℕ) (o : UserOp) (db : AdminDb)
    → IsStorable trim o
    → IsCoherent trim db.users db.user_cache
    → IsCoherent trim (run_op trim o db).users (run_op trim o db).user_cache
unfolding run_op upsert_user delete_row get_user_by_username
run_op-IsCoherent trim (upsert u) db s h = elim (Bool-cases (name_is_taken (row_of u) db.users)) [
  | inl taken ↦ rw (run_op, upsert_user, taken) h
  | inr free ↦
      rw (run_op, upsert_user, free)
        (
          rw (row_by_username-upsert_row (row_of u) db.users free)
              (ap some (row_of-user_of trim u s)),
          tt,
        )
]
run_op-IsCoherent trim (delete id) db s h = tt
run_op-IsCoherent trim (look_up name) db s h = elim (Option-cases (cached name db.user_cache)) [
  | inl e ↦ rw (run_op, get_user_by_username, e) (read_by_username-IsCoherent trim name db h)
  | inr (u, e) ↦ rw (run_op, get_user_by_username, e) h
]

run_ops-IsCoherent :
    (trim : List ℕ → List ℕ) (ops : List UserOp) (db : AdminDb)
    → AreStorable trim ops
    → IsCoherent trim db.users db.user_cache
    → IsCoherent trim (run_ops trim ops db).users (run_ops trim ops db).user_cache
unfolding run_ops
run_ops-IsCoherent trim [] db s h = h
run_ops-IsCoherent trim (o ∷ ops) db s h =
    run_ops-IsCoherent trim ops (run_op trim o db) s.1 (run_op-IsCoherent trim o db s.0 h)

abbrev answer_of : Option User → Result User
answer_of none = err uncoded
answer_of (some u) = ok u

ok-read_by_username :
    (trim : List ℕ → List ℕ) (name : List ℕ) (db : AdminDb) (u : User)
    → Option.map (user_of trim) (row_by_username name db.users) ≡ some u
    → ok u ≡ (read_by_username trim name db).0
unfolding read_by_username
ok-read_by_username trim name db u h = elim (Option-cases (row_by_username name db.users)) [
  | inl e ↦ ground (arith, subst (λ o. Option.map (user_of trim) o ≡ some u) e h)
  | inr (row, e) ↦
      rw (read_by_username, e)
        (ap answer_of (sym (subst (λ o. Option.map (user_of trim) o ≡ some u) e h)))
]

-- The answer of a read that uses the cache.
get_user_by_username-cached :
    (trim : List ℕ → List ℕ) (name : List ℕ) (db : AdminDb)
    → IsCoherent trim db.users db.user_cache
    → (get_user_by_username trim name db).0 ≡ (read_by_username trim name db).0
unfolding get_user_by_username
get_user_by_username-cached trim name db h = elim (Option-cases (cached name db.user_cache)) [
  | inl e ↦ rw (get_user_by_username, e) refl
  | inr (u, e) ↦
      rw (get_user_by_username, e)
        (ok-read_by_username trim name db u
          (cached-IsCoherent trim db.users db.user_cache name u h e))
]

-- After operations on a table of users, one after another, of which each stores only roles that are read
-- back as they are, beginning with an empty cache, the user by name that the cache answers is the answer
-- of the table.
pub get_user_by_username-read_by_username :
    (trim : List ℕ → List ℕ) (rows : List UserRow) (ops : List UserOp)
    → AreStorable trim ops
    → (name : List ℕ)
    → (get_user_by_username trim name
        (run_ops trim ops (record { users = rows; user_cache = [] }))).0
      ≡ (read_by_username trim name (run_ops trim ops (record { users = rows; user_cache = [] }))).0
get_user_by_username-read_by_username trim rows ops s name =
    get_user_by_username-cached trim name
      (run_ops trim ops (record { users = rows; user_cache = [] }))
      (run_ops-IsCoherent trim ops (record { users = rows; user_cache = [] }) s tt)
