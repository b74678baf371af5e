-- ===== src/Users/Table/Roles.antt =====
-- The lemmas on rolesToCSV and csvToRoles (sqlite/sqlite_eventstore.go).
use orisun.Base.{ℕ, ◌≡◌, refl, ap, ◌∙◌, false, List, [], ◌∷◌, ◌++◌, ◌==◌, any, arith}
use orisun.Users.Table.{comma, roles_to_csv, split_comma, is_blank, trimmed_roles, csv_to_roles}

-- A role that is not empty, has no comma and no blanks at its ends.
abbrev pub IsRole : (List ℕ → List ℕ) → List ℕ → Type 0
IsRole trim r = (is_blank r ≡ false) × (any (λ c. c == comma) r ≡ false) × (trim r ≡ r)

abbrev pub AreRoles : (List ℕ → List ℕ) → List (List ℕ) → Type 0
AreRoles trim [] = Unit {0}
AreRoles trim (r ∷ roles) = IsRole trim r × AreRoles trim roles

split_comma-one : (r : List ℕ) → any (λ c. c == comma) r ≡ false → split_comma r ≡ r ∷ []
unfolding split_comma
split_comma-one [] h = refl
split_comma-one (c ∷ r) h = ground (arith, h, split_comma-one r)

split_comma-append :
    (r s : List ℕ)
    → any (λ c. c == comma) r ≡ false
    → split_comma (r ++ comma ∷ s) ≡ r ∷ split_comma s
unfolding split_comma
split_comma-append [] s h = refl
split_comma-append (c ∷ r) s h = ground (arith, h, split_comma-append r s)

split_comma-roles_to_csv :
    (trim : List ℕ → List ℕ) (r : List ℕ) (roles : List (List ℕ))
    → AreRoles trim (r ∷ roles)
    → split_comma (roles_to_csv (r ∷ roles)) ≡ r ∷ roles
unfolding roles_to_csv
split_comma-roles_to_csv trim r [] h = split_comma-one r h.0.1
split_comma-roles_to_csv trim r (s ∷ roles) h =
    split_comma-append r (roles_to_csv (s ∷ roles)) h.0.1
    ∙ ap (◌∷◌ r) (split_comma-roles_to_csv trim s roles h.1)

trimmed_roles-same :
    (trim : List ℕ → List ℕ) (roles : List (List ℕ))
    → AreRoles trim roles
    → trimmed_roles trim roles ≡ roles
trimmed_roles-same trim [] h = refl
trimmed_roles-same trim (r ∷ roles) h = rw (h.0.2, h.0.0, trimmed_roles-same trim roles h.1) refl

is_blank-roles_to_csv :
    (trim : List ℕ → List ℕ) (r : List ℕ) (roles : List (List ℕ))
    → AreRoles trim (r ∷ roles)
    → is_blank (roles_to_csv (r ∷ roles)) ≡ false
unfolding roles_to_csv
is_blank-roles_to_csv trim [] roles h = ground (arith, h.0.0)
is_blank-roles_to_csv trim (c ∷ r) [] h = refl
is_blank-roles_to_csv trim (c ∷ r) (s ∷ roles) h = refl

-- Roles that are not empty, have no comma and no blanks at their ends are read back from the text that
-- they are stored as.
pub csv_to_roles-roles_to_csv :
    (trim : List ℕ → List ℕ) (roles : List (List ℕ))
    → AreRoles trim roles
    → csv_to_roles trim (roles_to_csv roles) ≡ roles
unfolding csv_to_roles roles_to_csv
csv_to_roles-roles_to_csv trim [] h = refl
csv_to_roles-roles_to_csv trim (r ∷ roles) h =
    rw (is_blank-roles_to_csv trim r roles h, csv_to_roles)
      (ap (trimmed_roles trim) (split_comma-roles_to_csv trim r roles h)
        ∙ trimmed_roles-same trim (r ∷ roles) h)
