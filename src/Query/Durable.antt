-- ===== src/Query/Durable.antt =====
-- Encoded criteria that were written as JSON and are read back (orisun/query_predicates.go).
use orisun.Base.{
  ◌≡◌, refl, ◌∙◌, List, [], ◌∷◌, ◌++◌, map, String, str_eq, eq_iff, arith, All, inl, inr,
  Bool-cases,
}
use orisun.Status.{ok}
use orisun.Query.{
  Tag, TagPredicate, FieldValue, Fields, append_predicate, tag_predicate, group_tags, encode_value,
  encode_fields, encode_criterion, decode_tag_predicates, insert_field, sort_fields, decode_fields,
  decode_criterion,
}
use orisun.Query.Codec.{
  Groups, AllValid, expand, IsValidTag, with_key, stored_tag, decode_predicates_lem, sort-AllValid,
  with_key-sort, group_tags_lem, group_tags-AllValid,
}

-- What the JSON library makes of a value that is written and read back: a text stays a text, and a list
-- of predicates is read as a JSON array, which is decoded again.
abbrev pub IsReread : (FieldValue → FieldValue) → Type 0
IsReread reread =
    ((s : String) → reread (FieldValue.text s) ≡ FieldValue.text s)
    × ((p : TagPredicate) (ps : List TagPredicate)
        → reread (FieldValue.predicates (p ∷ ps)) ≡ FieldValue.array (p ∷ ps))

abbrev pub reread_fields : (FieldValue → FieldValue) → Fields → Fields
reread_fields reread [] = []
reread_fields reread ((key, value) ∷ fields) = (key, reread value) ∷ reread_fields reread fields

abbrev HasSome : List TagPredicate → Type 0
HasSome [] = ⊥
HasSome (p ∷ ps) = Unit {0}

-- Every key has a predicate.
abbrev AllSome : Groups → Type 0
AllSome [] = Unit {0}
AllSome ((key, ps) ∷ m) = HasSome ps × AllSome m

append-some : (ps : List TagPredicate) (p : TagPredicate) → HasSome (ps ++ p ∷ [])
append-some [] p = tt
append-some (q ∷ ps) p = tt

append_predicate-AllSome :
    (key : String) (p : TagPredicate) (m : Groups) → AllSome m → AllSome (append_predicate key p m)
unfolding append_predicate
append_predicate-AllSome key p [] h = (tt, tt)
append_predicate-AllSome key p ((other, ps) ∷ m) h = elim (Bool-cases (str_eq other key)) [
  | inl e ↦ rw e (append-some ps p, h.1)
  | inr e ↦ rw e (h.0, append_predicate-AllSome key p m h.1)
]

group_tags-AllSome : (m : Groups) (tags : List Tag) → AllSome m → AllSome (group_tags m tags)
unfolding group_tags
group_tags-AllSome m [] h = h
group_tags-AllSome m (t ∷ tags) h =
    group_tags-AllSome (append_predicate t.key (tag_predicate t) m) tags
      (append_predicate-AllSome t.key (tag_predicate t) m h)

insert-AllSome :
    (key : String) (ps : List TagPredicate) (m : Groups)
    → HasSome ps
    → AllSome m
    → AllSome (insert_field (key, ps) m)
unfolding insert_field
insert-AllSome key ps [] h a = (h, tt)
insert-AllSome key ps ((other, qs) ∷ m) h a = ground (arith, insert-AllSome key ps m h a.1)

sort-AllSome : (m : Groups) → AllSome m → AllSome (sort_fields m)
unfolding sort_fields
sort-AllSome [] h = tt
sort-AllSome ((key, ps) ∷ m) h = insert-AllSome key ps (sort_fields m) h.0 (sort-AllSome m h.1)

module _ (reread : FieldValue → FieldValue) (r : IsReread reread) where
  abbrev stored : Groups → Fields
  stored m = reread_fields reread (encode_fields m)

  insert-stored :
      (key : String) (ps : List TagPredicate) (m : Groups)
      → insert_field (key, reread (encode_value ps)) (stored m) ≡ stored (insert_field (key, ps) m)
  unfolding insert_field encode_fields
  insert-stored key ps [] = refl
  insert-stored key ps ((other, qs) ∷ m) = ground (arith, insert-stored key ps m)

  sort-stored : (m : Groups) → sort_fields (stored m) ≡ stored (sort_fields m)
  unfolding sort_fields encode_fields
  sort-stored [] = refl
  sort-stored ((key, ps) ∷ m) = rw (sort-stored m) (insert-stored key ps (sort_fields m))

  decode-reread :
      (ps : List TagPredicate)
      → HasSome ps
      → decode_tag_predicates (reread (encode_value ps)) ≡ ok ps
  unfolding decode_tag_predicates encode_value
  decode-reread [] h = absurd h
  decode-reread (p ∷ q ∷ ps) h = rw (r.1 p (q ∷ ps)) refl
  decode-reread (p ∷ []) h = elim (Bool-cases (str_eq p.operator "eq")) [
    | inl e ↦ rw (e, r.0 p.value) (ground (arith, (eq_iff p.operator "eq").0 e))
    | inr e ↦ rw (e, r.1 p []) refl
  ]

  decode-stored : (m : Groups) → AllSome m → AllValid m → decode_fields (stored m) ≡ ok (expand m)
  unfolding decode_fields encode_fields
  decode-stored [] h v = refl
  decode-stored ((key, ps) ∷ m) h v =
      rw (decode-reread ps h.0, decode_predicates_lem key ps v.0, decode-stored m h.1 v.1) refl

-- Every criterion whose tags are valid is decoded from its encoding, after that was written as JSON and
-- read back, so that each list of predicates is a JSON array; and for each key the tags decoded are
-- those of the criterion with that key, all of them and in their order, with the operator "eq" spelled
-- as the empty operator.
pub decode-encode :
    (reread : FieldValue → FieldValue) (tags : List Tag)
    → IsReread reread
    → All IsValidTag tags
    → (decoded : List Tag) × (decode_criterion (reread_fields reread (encode_criterion tags))
        ≡ ok decoded)
      × ((k : String) → with_key k decoded ≡ map stored_tag (with_key k tags))
unfolding decode_criterion encode_criterion
decode-encode reread tags r v = (
  expand (sort_fields (group_tags [] tags)),
  rw (sort-stored reread r (group_tags [] tags)) (
      decode-stored reread r _ (sort-AllSome _ (group_tags-AllSome [] tags tt))
        (sort-AllValid _ (group_tags-AllValid [] tags tt v))),
  λ k. with_key-sort k (group_tags [] tags) ∙ group_tags_lem k [] tags tt,
)
