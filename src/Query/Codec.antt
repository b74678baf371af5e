-- ===== src/Query/Codec.antt =====
-- The groups of tags by key that a criterion is encoded from.
use mathlib.Core.List.{append-nil, append_assoc}
use orisun.Base.{
  ℕ, ◌≡◌, refl, ap, ◌∙◌, sym, true, false, List, [], ◌∷◌, ◌++◌, map, String, str_eq, eq_iff, arith,
  All, filter, filter-append, Ordering, codes, codes_compare, if◌then◌else◌, inl, inr, Bool-cases,
  subst,
}
use orisun.Status.{ok}
use orisun.Query.{
  Tag, TagPredicate, validate_tag, append_predicate, tag_predicate, group_tags, encode_value,
  encode_fields, insert_field, sort_fields, decoded_tag, predicate_tag, decode_predicates,
}

abbrev pub Groups : Type 0
Groups = List (String × List TagPredicate)

-- The tags of one key, in order.
abbrev pub with_key : String → List Tag → List Tag
with_key k = filter (λ tag. str_eq tag.key k)

-- The tag as `DecodeCriterion` returns it: equality has the empty operator.
abbrev pub stored_tag : Tag → Tag
stored_tag tag = decoded_tag tag.key (tag_predicate tag)

abbrev pub IsValidTag : Tag → Type 0
IsValidTag tag = validate_tag tag ≡ ok tt

abbrev pub expand : Groups → List Tag
expand [] = []
expand ((key, ps) ∷ m) = map (decoded_tag key) ps ++ expand m

abbrev pub AreValid : String → List TagPredicate → Type 0
AreValid key = All (λ p. IsValidTag (predicate_tag key p))

abbrev pub AllValid : Groups → Type 0
AllValid [] = Unit
AllValid ((key, ps) ∷ m) = AreValid key ps × AllValid m

abbrev pub Absent : String → Groups → Type 0
Absent k [] = Unit
Absent k ((key, ps) ∷ m) = (str_eq key k ≡ false) × Absent k m

abbrev pub Distinct : Groups → Type 0
Distinct [] = Unit
Distinct ((key, ps) ∷ m) = Absent key m × Distinct m

-- Decoding the predicates of one key.

pub decode_predicates_lem :
    (key : String) (ps : List TagPredicate)
    → AreValid key ps
    → decode_predicates key ps ≡ ok (map (decoded_tag key) ps)
unfolding decode_predicates
decode_predicates_lem key [] v = refl
decode_predicates_lem key (p ∷ ps) v = rw (v.0, decode_predicates_lem key ps v.1) refl

-- Sorting the entries.

insert-encode :
    (key : String) (ps : List TagPredicate) (m : Groups)
    → insert_field (key, encode_value ps) (encode_fields m)
      ≡ encode_fields (insert_field (key, ps) m)
unfolding insert_field encode_fields
insert-encode key ps [] = refl
insert-encode key ps ((other, qs) ∷ m) = ground (arith, insert-encode key ps m)

pub sort-encode : (m : Groups) → sort_fields (encode_fields m) ≡ encode_fields (sort_fields m)
unfolding sort_fields encode_fields
sort-encode [] = refl
sort-encode ((key, ps) ∷ m) = rw (sort-encode m) (insert-encode key ps (sort_fields m))

insert-AllValid :
    (key : String) (ps : List TagPredicate) (m : Groups)
    → AreValid key ps
    → AllValid m
    → AllValid (insert_field (key, ps) m)
unfolding insert_field
insert-AllValid key ps [] v w = (v, tt)
insert-AllValid key ps ((other, qs) ∷ m) v w = ground (arith, insert-AllValid key ps m v w.1)

pub sort-AllValid : (m : Groups) → AllValid m → AllValid (sort_fields m)
unfolding sort_fields
sort-AllValid [] v = tt
sort-AllValid ((key, ps) ∷ m) v = insert-AllValid key ps (sort_fields m) v.0 (sort-AllValid m v.1)

with_key-decoded :
    (k key : String) (ps : List TagPredicate)
    → with_key k (map (decoded_tag key) ps)
      ≡ (if str_eq key k then map (decoded_tag key) ps else [])
unfolding decoded_tag
with_key-decoded k key [] = ground arith
with_key-decoded k key (p ∷ ps) = ground (arith, with_key-decoded k key ps)

-- What `codes` forgets nothing of: equal texts compare as equal.
compare_self : (s : List ℕ) → codes_compare s s ≡ Ordering.eq
unfolding codes_compare
compare_self [] = refl
compare_self (c ∷ s) = ground (arith, compare_self s)

gt-not-equal :
    (s t k : String)
    → codes_compare (codes s) (codes t) ≡ Ordering.gt
    → str_eq s k ≡ true
    → str_eq t k ≡ true
    → ⊥
gt-not-equal s t k gt p q =
    let same : s ≡ t = (eq_iff s k).0 p ∙ sym ((eq_iff t k).0 q) in
    cc (compare_self (codes s), gt, ap codes same)

with_key-group :
    (k key : String) (ps : List TagPredicate) (rest : List Tag)
    → with_key k (map (decoded_tag key) ps ++ rest)
      ≡ (if str_eq key k then map (decoded_tag key) ps else []) ++ with_key k rest
with_key-group k key ps rest =
    filter-append _ (map (decoded_tag key) ps) rest
    ∙ ap (λ xs. xs ++ with_key k rest) (with_key-decoded k key ps)

swap_groups :
    (k key other : String) (ps qs : List TagPredicate) (rest : List Tag)
    → codes_compare (codes key) (codes other) ≡ Ordering.gt
    → with_key k (map (decoded_tag other) qs ++ (map (decoded_tag key) ps ++ rest))
      ≡ with_key k (map (decoded_tag key) ps ++ (map (decoded_tag other) qs ++ rest))
swap_groups k key other ps qs rest gt = ground (
  arith,
  with_key-group k other qs (map (decoded_tag key) ps ++ rest),
  with_key-group k key ps rest,
  with_key-group k key ps (map (decoded_tag other) qs ++ rest),
  with_key-group k other qs rest,
  gt-not-equal key other k gt,
)

with_key-insert :
    (k key : String) (ps : List TagPredicate) (m : Groups)
    → with_key k (expand (insert_field (key, ps) m)) ≡ with_key k (expand ((key, ps) ∷ m))
unfolding insert_field
with_key-insert k key ps [] = refl
with_key-insert k key ps ((other, qs) ∷ m) = ground (
  arith,
  with_key-insert k key ps m,
  swap_groups k key other ps qs (expand m),
  with_key-group k other qs (expand (insert_field (key, ps) m)),
  with_key-group k other qs (map (decoded_tag key) ps ++ expand m),
)

pub with_key-sort :
    (k : String) (m : Groups) → with_key k (expand (sort_fields m)) ≡ with_key k (expand m)
unfolding sort_fields
with_key-sort k [] = refl
with_key-sort k ((key, ps) ∷ m) = ground (
  arith,
  with_key-insert k key ps (sort_fields m),
  with_key-group k key ps (expand (sort_fields m)),
  with_key-group k key ps (expand m),
  with_key-sort k m,
)

-- Grouping.

Absent-append :
    (k key : String) (p : TagPredicate) (m : Groups)
    → str_eq key k ≡ false
    → Absent k m
    → Absent k (append_predicate key p m)
unfolding append_predicate
Absent-append k key p [] ne a = (ne, tt)
Absent-append k key p ((other, qs) ∷ m) ne a = ground (arith, Absent-append k key p m ne a.1)

append-Distinct :
    (key : String) (p : TagPredicate) (m : Groups)
    → Distinct m
    → Distinct (append_predicate key p m)
unfolding append_predicate
append-Distinct key p [] d = (tt, tt)
append-Distinct key p ((other, qs) ∷ m) d = ground (
  arith,
  append-Distinct key p m d.1,
  Absent-append other key p m,
  eq_iff other key,
  eq_iff key other,
)

AreValid-append :
    (key : String) (ps : List TagPredicate) (p : TagPredicate)
    → AreValid key ps
    → IsValidTag (predicate_tag key p)
    → AreValid key (ps ++ p ∷ [])
AreValid-append key [] p v w = (w, tt)
AreValid-append key (q ∷ ps) p v w = (v.0, AreValid-append key ps p v.1 w)

append-AllValid :
    (key : String) (p : TagPredicate) (m : Groups)
    → IsValidTag (predicate_tag key p)
    → AllValid m
    → AllValid (append_predicate key p m)
unfolding append_predicate
append-AllValid key p [] v w = ((v, tt), tt)
append-AllValid key p ((other, qs) ∷ m) v w = elim (Bool-cases (str_eq other key)) [
  | inl e ↦ rw e (AreValid-append other qs p w.0 (rw ((eq_iff other key).0 e) v), w.1)
  | inr e ↦ rw e (w.0, append-AllValid key p m v w.1)
]

with_key-Absent : (k : String) (m : Groups) → Absent k m → with_key k (expand m) ≡ []
with_key-Absent k [] a = refl
with_key-Absent k ((key, ps) ∷ m) a =
    rw (with_key-group k key ps (expand m), a.0) (with_key-Absent k m a.1)

map-snoc :
    (key : String) (ps : List TagPredicate) (p : TagPredicate)
    → map (decoded_tag key) (ps ++ p ∷ []) ≡ map (decoded_tag key) ps ++ decoded_tag key p ∷ []
map-snoc key [] p = refl
map-snoc key (q ∷ ps) p = ap (◌∷◌ (decoded_tag key q)) (map-snoc key ps p)

Absent-at :
    (k key : String) (m : Groups) → Absent key m → str_eq key k ≡ true → with_key k (expand m) ≡ []
Absent-at k key m a e = with_key-Absent k m (subst (λ x. Absent x m) ((eq_iff key k).0 e) a)

with_key-append :
    (k key : String) (p : TagPredicate) (m : Groups)
    → Distinct m
    → with_key k (expand (append_predicate key p m))
      ≡ with_key k (expand m) ++ (if str_eq key k then decoded_tag key p ∷ [] else [])
unfolding append_predicate
with_key-append k key p [] d = with_key-group k key (p ∷ []) [] ∙ append-nil _
with_key-append k key p ((other, qs) ∷ m) d = elim (Bool-cases (str_eq other key)) [
  | inl e ↦
      let same : other ≡ key = (eq_iff other key).0 e in
      rw (e, ← same)
        (ground (
          arith,
          with_key-group k other (qs ++ p ∷ []) (expand m),
          with_key-group k other qs (expand m),
          map-snoc other qs p,
          Absent-at k other m d.0,
          append-nil (map (decoded_tag other) qs),
          append-nil (map (decoded_tag other) qs ++ decoded_tag other p ∷ []),
          append-nil (with_key k (expand m)),
        ))
  | inr e ↦ rw e (
      ground (
        arith,
        with_key-group k other qs (expand m),
        with_key-group k other qs (expand (append_predicate key p m)),
        with_key-append k key p m d.1,
        append_assoc (if str_eq other k then map (decoded_tag other) qs else [])
            (with_key k (expand m)) (if str_eq key k then decoded_tag key p ∷ [] else []),
      ))
]

IsValidTag-predicate :
    (tag : Tag) → IsValidTag tag → IsValidTag (predicate_tag tag.key (tag_predicate tag))
unfolding validate_tag tag_predicate
IsValidTag-predicate tag v = elim (Bool-cases (str_eq tag.operator "")) [
  | inl e ↦ rw e (ground arith)
  | inr e ↦ rw e v
]

pub group_tags_lem :
    (k : String) (m : Groups) (tags : List Tag)
    → Distinct m
    → with_key k (expand (group_tags m tags))
      ≡ with_key k (expand m) ++ map stored_tag (with_key k tags)
unfolding group_tags
group_tags_lem k m [] d = sym (append-nil _)
group_tags_lem k m (tag ∷ tags) d = ground (
  arith,
  group_tags_lem k (append_predicate tag.key (tag_predicate tag) m) tags
      (append-Distinct tag.key (tag_predicate tag) m d),
  with_key-append k tag.key (tag_predicate tag) m d,
  append-nil (with_key k (expand m)),
  append_assoc (with_key k (expand m)) (stored_tag tag ∷ []) (map stored_tag (with_key k tags)),
)

pub group_tags-AllValid :
    (m : Groups) (tags : List Tag) → AllValid m → All IsValidTag tags → AllValid (group_tags m tags)
unfolding group_tags
group_tags-AllValid m [] v w = v
group_tags-AllValid m (tag ∷ tags) v w =
    group_tags-AllValid (append_predicate tag.key (tag_predicate tag) m) tags
      (append-AllValid tag.key (tag_predicate tag) m (IsValidTag-predicate tag w.0) v) w.1
