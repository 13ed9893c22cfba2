-- ===== src/Graph/Parse/Entity.antt =====
-- Which fields an accepted entity has (graph/entity.go, parseEntity).
pub mod Accepted
use protobuf_orm.Base.{
  ◌≡◌, ◌≤◌, refl, ap, ◌∙◌, inl, inr, Bool, true, false, not, ◌&&◌, Bool-cases, List, [], ◌∷◌,
  Option, none, some, some-injective, subst, length, arith, if◌then◌else◌,
}
use protobuf_orm.Base.Result.{ok, >>=-eq-ok, ok-injective, if_err_else-eq-ok}
use protobuf_orm.Ormpb.Options.{get_bool, has}
use protobuf_orm.Graph.Prop.{Field, is_version_field, is_erased_field}
use protobuf_orm.Graph.Parse.{
  FieldsError, two_versions, two_erased, is_key_field, find_key, at_most_one, check_others,
  check_fields,
}

-- The fields that a test picks, in order.
abbrev pub pick : (Field → Bool) → List Field → List Field
pick is [] = []
pick is (f ∷ fs) = let rest = pick is fs in if is f then f ∷ rest else rest

-- The options of a key say nothing against being unique, not nullable and immutable.
abbrev pub IsKeyReady : Field → Type 0
IsKeyReady f =
    ((has f.opts.unique && not (get_bool f.opts.unique)) ≡ false)
    × ((has f.opts.nullable && get_bool f.opts.nullable) ≡ false)
    × ((has f.opts.immutable && not (get_bool f.opts.immutable)) ≡ false)

find_key-some :
    (fs : List Field) (k : Field) {r : Option Field}
    → find_key fs (some k) ≡ ok r
    → (pick is_key_field fs ≡ []) × (some k ≡ r)
unfolding find_key
find_key-some [] k h = (refl, ok-injective h)
find_key-some (f ∷ fs) k h = elim (Bool-cases (is_key_field f)) [
  | inl e ↦ absurd (cc (rw e at h))
  | inr e ↦ let (rest, same) = find_key-some fs k (rw e at h) in (rw e rest, same)
]

find_key-none :
    (fs : List Field) (k : Field)
    → find_key fs none ≡ ok (some k)
    → (pick is_key_field fs ≡ k ∷ []) × IsKeyReady k
unfolding find_key
find_key-none [] k h = absurd (cc h)
find_key-none (f ∷ fs) k h = elim (Bool-cases (is_key_field f)) [
  | inl e ↦
      let (u, h1) =
        if_err_else-eq-ok (has f.opts.unique && not (get_bool f.opts.unique)) _ _ (rw e at h) in
      let (n, h2) = if_err_else-eq-ok (has f.opts.nullable && get_bool f.opts.nullable) _ _ h1 in
      let (i, h3) =
        if_err_else-eq-ok (has f.opts.immutable && not (get_bool f.opts.immutable)) _ _ h2 in
      let (rest, same) = find_key-some fs f h3 in
      subst (λ x. (pick is_key_field (f ∷ fs) ≡ x ∷ []) × IsKeyReady x) (some-injective same)
        (rw (e, rest) refl, (u, n, i))
  | inr e ↦ let (rest, ready) = find_key-none fs k (rw e at h) in (rw e rest, ready)
]

at_most_one-true :
    (is : Field → Bool) (two : FieldsError) (fs : List Field) {u : Unit {0}}
    → at_most_one is two fs true ≡ ok u
    → pick is fs ≡ []
unfolding at_most_one
at_most_one-true is two [] h = refl
at_most_one-true is two (f ∷ fs) h = elim (Bool-cases (is f)) [
  | inl e ↦ absurd (cc (rw e at h))
  | inr e ↦ rw e (at_most_one-true is two fs (rw e at h))
]

at_most_one-false :
    (is : Field → Bool) (two : FieldsError) (fs : List Field) {u : Unit {0}}
    → at_most_one is two fs false ≡ ok u
    → length (pick is fs) ≤ 1
unfolding at_most_one
at_most_one-false is two [] h = omega arith
at_most_one-false is two (f ∷ fs) h = elim (Bool-cases (is f)) [
  | inl e ↦ rw (e, at_most_one-true is two fs (rw e at h)) (omega arith)
  | inr e ↦ rw e (at_most_one-false is two fs (rw e at h))
]

check_others-eq-ok :
    (fs : List Field) (found : Option Field) (k : Field)
    → check_others fs found ≡ ok k
    → (found ≡ some k)
      × (length (pick is_version_field fs) ≤ 1)
      × (length (pick is_erased_field fs) ≤ 1)
unfolding check_others
check_others-eq-ok fs none k h = absurd (cc h)
check_others-eq-ok fs (some x) k h =
    let (u, versions, h1) = >>=-eq-ok (at_most_one is_version_field two_versions fs false) _ h in
    let (w, erased, h2) = >>=-eq-ok (at_most_one is_erased_field two_erased fs false) _ h1 in
    (
      ap some (ok-injective h2),
      at_most_one-false is_version_field two_versions fs versions,
      at_most_one-false is_erased_field two_erased fs erased,
    )

-- What an accepted entity's fields are.
pub check_fields-eq-ok :
    (fs : List Field) (k : Field)
    → check_fields fs ≡ ok k
    → (pick is_key_field fs ≡ k ∷ [])
      × IsKeyReady k
      × (length (pick is_version_field fs) ≤ 1)
      × (length (pick is_erased_field fs) ≤ 1)
unfolding check_fields
check_fields-eq-ok fs k h =
    let (found, hk, h1) = >>=-eq-ok (find_key fs none) _ h in
    let (same, versions, erased) = check_others-eq-ok fs found k h1 in
    let (only, ready) = find_key-none fs k (hk ∙ ap ok same) in (only, ready, versions, erased)
