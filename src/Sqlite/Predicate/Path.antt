-- ===== src/Sqlite/Predicate/Path.antt =====
-- The path of a key that has no double quote and no backslash names the field of that key.
use orisun.Base.{
  ℕ, ◌≡◌, refl, ap, ◌∙◌, Bool, true, false, ◌||◌, not, some, List, [], ◌∷◌, ◌++◌, String, codes,
  codes_eq_iff, any, ◌==◌, arith, Bool-cases, drop, inl, inr,
}
use orisun.Document.{Document, field}
use orisun.Sqlite.Predicate.{
  is_label, doubled, json_path_literal, sql_text, path_label, literal_label, is_found, json_value,
}

abbrev is_special : ℕ → Bool
is_special c = c == 34 || c == 92

doubled_same : (s : List ℕ) → any is_special s ≡ false → doubled 34 s ≡ s
unfolding doubled
doubled_same [] h = refl
doubled_same (c ∷ s) h = ground (arith, h, doubled_same s)

sql_text-other :
    (c : ℕ) (s : List ℕ)
    → (c == 39) ≡ false
    → sql_text (c ∷ s ++ 34 ∷ 39 ∷ []) ≡ c ∷ sql_text (s ++ 34 ∷ 39 ∷ [])
unfolding sql_text
sql_text-other c [] h = rw h refl
sql_text-other c (d ∷ s) h = rw h refl

sql_text-doubled : (s : List ℕ) → sql_text (doubled 39 s ++ 34 ∷ 39 ∷ []) ≡ s ++ 34 ∷ []
unfolding sql_text doubled
sql_text-doubled [] = refl
sql_text-doubled (c ∷ s) = elim (Bool-cases (c == 39)) [
  | inl e ↦ rw e (ground (arith, e, sql_text-doubled s))
  | inr e ↦ rw e (sql_text-other c (doubled 39 s) e ∙ ap (◌∷◌ c) (sql_text-doubled s))
]

path_label-append : (s : List ℕ) → any is_special s ≡ false → path_label (s ++ 34 ∷ []) ≡ some s
unfolding path_label
path_label-append [] h = refl
path_label-append (c ∷ []) h = ground (arith, h)
path_label-append (c ∷ d ∷ s) h = ground (arith, h, path_label-append (d ∷ s))

is_found_plain : (key : String) → any is_special (codes key) ≡ false → is_found key ≡ true
unfolding is_found literal_label json_path_literal
is_found_plain key h = rw (doubled_same (codes key) h) (
    ap (λ x. is_label (path_label (drop 1 x)) (codes key))
      (sql_text-other 34 (doubled 39 (codes key)) refl ∙ ap (◌∷◌ 34) (sql_text-doubled (codes key)))
    ∙ ap (λ o. is_label o (codes key)) (path_label-append (codes key) h)
    ∙ (codes_eq_iff (codes key) (codes key)).1 refl)

-- The value that `json_extract` finds for such a key.
pub json_value_plain :
    (document : Document) (key : String)
    → not (any is_special (codes key)) ≡ true
    → json_value document key ≡ field key document
unfolding json_value
json_value_plain document key h = rw (is_found_plain key (ground (arith, h)), json_value) refl
