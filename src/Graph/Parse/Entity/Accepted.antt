-- ===== src/Graph/Parse/Entity/Accepted.antt =====
-- Which fields of an entity are accepted (graph/entity.go, parseEntity): the converse, and both.
use protobuf_orm.Base.{
  ◌≡◌, ◌≤◌, ◌↔◌, refl, sym, ap, ◌∙◌, inl, inr, Bool, true, false, Bool-cases, List, [], ◌∷◌, none,
  some, subst, length, arith,
}
use protobuf_orm.Base.Result.{ok}
use protobuf_orm.Graph.Prop.{Field, is_version_field, is_erased_field}
use protobuf_orm.Graph.Parse.{
  FieldsError, two_versions, two_erased, is_key_field, find_key, at_most_one, check_others,
  check_fields,
}
use protobuf_orm.Graph.Parse.Entity.{pick, IsKeyReady, check_fields-eq-ok}

find_key-later :
    (fs : List Field) (k : Field) → pick is_key_field fs ≡ [] → find_key fs (some k) ≡ ok (some k)
unfolding find_key
find_key-later [] k h = refl
find_key-later (f ∷ fs) k h = elim (Bool-cases (is_key_field f)) [
  | inl e ↦ absurd (cc (rw e at h))
  | inr e ↦ rw e (find_key-later fs k (rw e at h))
]

find_key-only :
    (fs : List Field) (k : Field)
    → pick is_key_field fs ≡ k ∷ []
    → IsKeyReady k
    → find_key fs none ≡ ok (some k)
unfolding find_key
find_key-only [] k h ready = absurd (cc h)
find_key-only (f ∷ fs) k h ready = elim (Bool-cases (is_key_field f)) [
  | inl e ↦
      let both : (f ≡ k) × (pick is_key_field fs ≡ []) = parts (rw e at h) in
      let (u, n, i) = subst IsKeyReady (sym both.0) ready in
      rw (e, u, n, i) (find_key-later fs f both.1 ∙ ap (λ x. ok (some x)) both.0)
  | inr e ↦ rw e (find_key-only fs k (rw e at h) ready)
]
  where
    parts : {x y : Field} {xs : List Field} → x ∷ xs ≡ y ∷ [] → (x ≡ y) × (xs ≡ [])
    parts h = (cc, cc)

at_most_one-none :
    (is : Field → Bool) (two : FieldsError) (fs : List Field) (seen : Bool)
    → pick is fs ≡ []
    → at_most_one is two fs seen ≡ ok tt
unfolding at_most_one
at_most_one-none is two [] seen h = refl
at_most_one-none is two (f ∷ fs) seen h = elim (Bool-cases (is f)) [
  | inl e ↦ absurd (cc (rw e at h))
  | inr e ↦ rw e (at_most_one-none is two fs seen (rw e at h))
]

at_most_one-short :
    (is : Field → Bool) (two : FieldsError) (fs : List Field)
    → length (pick is fs) ≤ 1
    → at_most_one is two fs false ≡ ok tt
unfolding at_most_one
at_most_one-short is two [] h = refl
at_most_one-short is two (f ∷ fs) h = elim (Bool-cases (is f)) [
  | inl e ↦ rw e (at_most_one-none is two fs true (empty (pick is fs) (rw e at h)))
  | inr e ↦ rw e (at_most_one-short is two fs (rw e at h))
]
  where
    empty : (xs : List Field) → length (f ∷ xs) ≤ 1 → xs ≡ []
    empty [] h = refl
    empty (x ∷ xs) h = absurd (omega (arith, h))

-- The fields of an entity are accepted with this field as the key if and only if it is the only
-- field that is marked as one, its options do not say that it is not unique, that it is nullable or
-- that it is not immutable, and at most one field is the version and at most one the erased field.
pub check_fields_iff :
    (fs : List Field) (k : Field)
    → (check_fields fs ≡ ok k) ↔ (
        (pick is_key_field fs ≡ k ∷ [])
        × IsKeyReady k
        × (length (pick is_version_field fs) ≤ 1)
        × (length (pick is_erased_field fs) ≤ 1))
unfolding check_fields check_others
check_fields_iff fs k = (
  check_fields-eq-ok fs k,
  λ h.
      rw
        (
          find_key-only fs k h.0 h.1,
          at_most_one-short is_version_field two_versions fs h.2,
          at_most_one-short is_erased_field two_erased fs h.3,
        )
        refl,
)
