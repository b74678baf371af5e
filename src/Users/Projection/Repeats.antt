-- ===== src/Users/Projection/Repeats.antt =====
-- The operations on the table of users when they are repeated, for the projection of users.
use orisun.Base.{
  ℕ, ◌≡◌, refl, ap, Bool, true, false, Option, none, some, List, [], ◌∷◌, any, filter, codes_eq,
  codes_eq_iff, Bool-cases, inl, inr, arith, ◌==◌,
}
use orisun.Users.Table.{
  User, UserRow, AdminDb, row_of, name_is_taken, upsert_row, row_by_id, upsert_user, comma,
  split_comma, cons_first, is_blank, trimmed_roles, csv_to_roles,
}
use orisun.Users.Table.Roles.{AreRoles}

name_is_taken-upsert_row :
    (row : UserRow) (rows : List UserRow)
    → name_is_taken row rows ≡ false
    → name_is_taken row (upsert_row row rows) ≡ false
unfolding upsert_row
name_is_taken-upsert_row row [] h = rw ((codes_eq_iff row.id row.id).1 refl) refl
name_is_taken-upsert_row row (r ∷ rows) h = elim (Bool-cases (codes_eq r.id row.id)) [
  | inl same ↦ rw (same, (codes_eq_iff row.id row.id).1 refl) (ground (arith, h, same))
  | inr other ↦
      rw other
        (ground (arith, h, other, name_is_taken-upsert_row row rows (ground (arith, h, other))))
]

upsert_row_twice :
    (row : UserRow) (rows : List UserRow)
    → upsert_row row (upsert_row row rows) ≡ upsert_row row rows
unfolding upsert_row
upsert_row_twice row [] = rw ((codes_eq_iff row.id row.id).1 refl) refl
upsert_row_twice row (r ∷ rows) = elim (Bool-cases (codes_eq r.id row.id)) [
  | inl same ↦ rw (same, (codes_eq_iff row.id row.id).1 refl) refl
  | inr other ↦ rw (upsert_row, other, other) (ap (◌∷◌ r) (upsert_row_twice row rows))
]

pub upsert_user_twice :
    (u : User) (db : AdminDb) → upsert_user u (upsert_user u db).1 ≡ upsert_user u db
unfolding upsert_user
upsert_user_twice u db = elim (Bool-cases (name_is_taken (row_of u) db.users)) [
  | inl taken ↦ rw (upsert_user, taken, taken) refl
  | inr free ↦
      rw (upsert_user, free, name_is_taken-upsert_row (row_of u) db.users free)
        (rw (upsert_row_twice (row_of u) db.users) refl)
]

pub filter_twice :
    (p : UserRow → Bool) (rows : List UserRow) → filter p (filter p rows) ≡ filter p rows
filter_twice p [] = refl
filter_twice p (r ∷ rows) = elim (Bool-cases (p r)) [
  | inl e ↦ rw (e, e, filter_twice p rows) refl
  | inr e ↦ rw (e, filter_twice p rows) refl
]

pub row_by_id-upsert_row :
    (row : UserRow) (rows : List UserRow) → row_by_id row.id (upsert_row row rows) ≡ some row
unfolding row_by_id upsert_row
row_by_id-upsert_row row [] = rw ((codes_eq_iff row.id row.id).1 refl) refl
row_by_id-upsert_row row (r ∷ rows) = elim (Bool-cases (codes_eq r.id row.id)) [
  | inl same ↦ rw (same, (codes_eq_iff row.id row.id).1 refl) refl
  | inr other ↦ rw (row_by_id, upsert_row, other, other) (row_by_id-upsert_row row rows)
]

abbrev pub has_id : List ℕ → Option UserRow → Bool
has_id id none = true
has_id id (some r) = codes_eq r.id id

pub has_id-row_by_id : (id : List ℕ) (rows : List UserRow) → has_id id (row_by_id id rows) ≡ true
unfolding row_by_id
has_id-row_by_id id [] = refl
has_id-row_by_id id (r ∷ rows) = elim (Bool-cases (codes_eq r.id id)) [
  | inl e ↦ rw (row_by_id, e) e
  | inr e ↦ rw (row_by_id, e) (has_id-row_by_id id rows)
]

-- What is read of the trimming of a text.
abbrev pub IsTrim : (List ℕ → List ℕ) → Type 0
IsTrim trim =
    ((s : List ℕ) → trim (trim s) ≡ trim s)
    × ((s : List ℕ) → any (λ c. c == comma) s ≡ false → any (λ c. c == comma) (trim s) ≡ false)

abbrev AreParts : List (List ℕ) → Type 0
AreParts [] = Unit {0}
AreParts (part ∷ parts) = (any (λ c. c == comma) part ≡ false) × AreParts parts

cons_first-AreParts :
    (c : ℕ) (parts : List (List ℕ))
    → (c == comma) ≡ false
    → AreParts parts
    → AreParts (cons_first c parts)
cons_first-AreParts c [] h i = (ground (arith, h), tt)
cons_first-AreParts c (part ∷ parts) h i = (ground (arith, h, i.0), i.1)

split_comma-AreParts : (s : List ℕ) → AreParts (split_comma s)
unfolding split_comma
split_comma-AreParts [] = (refl, tt)
split_comma-AreParts (c ∷ cs) = elim (Bool-cases (c == comma)) [
  | inl e ↦ rw (split_comma, e) (refl, split_comma-AreParts cs)
  | inr e ↦ rw (split_comma, e) (cons_first-AreParts c (split_comma cs) e (split_comma-AreParts cs))
]

trimmed_roles-AreRoles :
    (trim : List ℕ → List ℕ) (parts : List (List ℕ))
    → IsTrim trim
    → AreParts parts
    → AreRoles trim (trimmed_roles trim parts)
trimmed_roles-AreRoles trim [] t h = tt
trimmed_roles-AreRoles trim (part ∷ parts) t h = elim (Bool-cases (is_blank (trim part))) [
  | inl e ↦ rw e (trimmed_roles-AreRoles trim parts t h.1)
  | inr e ↦ rw e ((e, t.1 part h.0, t.0 part), trimmed_roles-AreRoles trim parts t h.1)
]

pub csv_to_roles-AreRoles :
    (trim : List ℕ → List ℕ) (s : List ℕ) → IsTrim trim → AreRoles trim (csv_to_roles trim s)
unfolding csv_to_roles
csv_to_roles-AreRoles trim [] t = tt
csv_to_roles-AreRoles trim (c ∷ s) t =
    trimmed_roles-AreRoles trim (split_comma (c ∷ s)) t (split_comma-AreParts (c ∷ s))
