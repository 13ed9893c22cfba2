-- ===== src/Graph/Parse/Fields.antt =====
-- What options a parsed field has (graph/prop.go, parseProp).
use protobuf_orm.Base.{
  ◌≡◌, ◌⊎◌, refl, inl, inr, Bool, true, false, not, ◌||◌, ◌&&◌, Bool-cases, Option, none, some,
  subst, arith, if◌then◌else◌,
}
use protobuf_orm.Base.Result.{ok, >>=-eq-ok, ok-injective, if_err_else-eq-ok}
use protobuf_orm.Proto.{FieldDescriptor}
use protobuf_orm.Ormpb.Kinds.{is_unspecified, is_message_type, is_time_type}
use protobuf_orm.Ormpb.Options.{no_field_options, FieldOptions, EdgeOptions, get_bool, has}
use protobuf_orm.Graph.Prop.{Field, field, is_version_field, is_immutable, is_erased}
use protobuf_orm.Graph.Entity.{Target}
use protobuf_orm.Graph.Patch.{patch_flag_of, force_flag}
use protobuf_orm.Graph.Parse.{
  parsed_field, deduced, check_version, check_erased, normalize_field, parse_options, commit_key,
}

-- Options that mark a version have the type of a time, and set neither key, unique, nullable nor
-- immutable. They do not say whether the column is nullable: `IsNullable` reads the field too.
abbrev pub IsVersionReady : FieldOptions → Type 0
IsVersionReady o =
    (has o.version ≡ false)
    ⊎ ((is_time_type o.orm_type ≡ true)
        × (get_bool o.key ≡ false)
        × (get_bool o.unique ≡ false)
        × (get_bool o.nullable ≡ false)
        × (get_bool o.immutable ≡ false)
        × (has o.erased ≡ false))

-- Options that mark an erased field have the type of a time and set nullable, and neither key, unique
-- nor immutable; they mark no version.
abbrev pub IsErasedReady : FieldOptions → Type 0
IsErasedReady o =
    (has o.erased ≡ false)
    ⊎ ((is_time_type o.orm_type ≡ true)
        × (get_bool o.key ≡ false)
        × (get_bool o.unique ≡ false)
        × (get_bool o.nullable ≡ true)
        × (get_bool o.immutable ≡ false)
        × (has o.version ≡ false))

abbrev pub IsNormal : FieldOptions → Type 0
IsNormal o = (is_message_type o.orm_type ≡ false) × IsVersionReady o × IsErasedReady o

not-false : (b : Bool) → not b ≡ false → b ≡ true
not-false true h = refl
not-false false h = absurd (cc h)

or-false : (a b : Bool) → (a || b) ≡ false → (a ≡ false) × (b ≡ false)
or-false false b h = (refl, h)
or-false true b h = absurd (cc h)

parsed_field-injective : {a b : FieldOptions} → parsed_field a ≡ parsed_field b → a ≡ b
parsed_field-injective h = cc

check_version-eq-ok :
    (o : FieldOptions) {u : Unit {0}}
    → check_version o ≡ ok u
    → (has o.version ≡ false)
      ⊎ ((is_time_type o.orm_type ≡ true)
          × (get_bool o.key ≡ false)
          × (get_bool o.unique ≡ false)
          × (get_bool o.nullable ≡ false)
          × (get_bool o.immutable ≡ false))
unfolding check_version
check_version-eq-ok o h = ground arith

check_erased-eq-ok :
    (o o' : FieldOptions)
    → check_erased o ≡ ok o'
    → ((has o.erased ≡ false) × (o ≡ o'))
      ⊎ ((is_time_type o.orm_type ≡ true)
          × (get_bool o.key ≡ false)
          × (get_bool o.unique ≡ false)
          × (get_bool o.immutable ≡ false)
          × (has o.version ≡ false)
          × (record o { nullable = some true } ≡ o'))
unfolding check_erased
check_erased-eq-ok o o' h = elim (Bool-cases (not (has o.erased))) [
  | inl e ↦ inl (ground arith, ok-injective (rw e at h))
  | inr e ↦
      let (key, h1) = if_err_else-eq-ok (get_bool o.key) _ _ (rw e at h) in
      let (flags, h2) = if_err_else-eq-ok (get_bool o.unique || get_bool o.immutable) _ _ h1 in
      let (version, h3) = if_err_else-eq-ok (has o.version) _ _ h2 in
      let (time, h4) = if_err_else-eq-ok (not (is_time_type o.orm_type)) _ _ h3 in
      let (nullable, h5) = if_err_else-eq-ok (has o.nullable && not (get_bool o.nullable)) _ _ h4 in
      inr (
        not-false _ time,
        key,
        (or-false _ _ flags).0,
        (or-false _ _ flags).1,
        version,
        ok-injective h5,
      )
]

checks-IsNormal :
    (o o' : FieldOptions) {u : Unit {0}}
    → check_version o ≡ ok u
    → check_erased o ≡ ok o'
    → IsVersionReady o' × IsErasedReady o'
checks-IsNormal o o' v h = elim (check_erased-eq-ok o o' h) [
  | inl (e, same) ↦
      subst (λ x. IsVersionReady x × IsErasedReady x) same
        (
          elim (check_version-eq-ok o v) [
            | inl n ↦ inl n
            | inr (t, k, u, n, i) ↦ inr (t, k, u, n, i, e)
          ],
          inl e,
        )
  | inr (t, k, u, i, w, same) ↦
      subst (λ x. IsVersionReady x × IsErasedReady x) same (inl w, inr (t, k, u, refl, i, w))
]

normalize_field-IsNormal :
    (o o' : FieldOptions) → normalize_field o ≡ ok (parsed_field o') → IsNormal o'
unfolding normalize_field
normalize_field-IsNormal o o' h =
    let (u, hv, h1) = >>=-eq-ok (check_version o) _ h in
    let (x, he, h2) = >>=-eq-ok (check_erased o) _ h1 in
    let (m, h3) = if_err_else-eq-ok (is_message_type x.orm_type) _ _ h2 in
    let (v, e) = checks-IsNormal o x hv he in
    subst IsNormal (parsed_field-injective (ok-injective h3)) (m, v, e)

-- If a proto field is parsed to a field with certain options, their type is not a message's. If they
-- mark a version, their type is the time, they set neither key, unique, nullable nor immutable, and
-- they mark no erased field. If they mark an erased field, their type is the time, they set nullable
-- and neither key, unique nor immutable, and they mark no version.
pub parse_options-IsNormal :
    (mf : FieldDescriptor) (of : Option FieldOptions) (oe : Option EdgeOptions) (o : FieldOptions)
    → parse_options mf of oe ≡ ok (parsed_field o)
    → IsNormal o
unfolding parse_options
parse_options-IsNormal mf (some x) (some y) o h = absurd (cc h)
parse_options-IsNormal mf (some x) none o h = elim (Bool-cases (get_bool x.disabled)) [
  | inl d ↦ absurd (cc (rw d at h))
  | inr d ↦
      let (y, hy, h1) =
        >>=-eq-ok (if is_unspecified x.orm_type then deduced mf x else ok x) _ (rw d at h) in
      normalize_field-IsNormal y o h1
]
parse_options-IsNormal mf none (some y) o h = elim (Bool-cases (get_bool y.disabled)) [
  | inl d ↦ absurd (cc (rw d at h))
  | inr d ↦ absurd (cc (rw d at h))
]
parse_options-IsNormal mf none none o h =
    let (y, hy, h1) = >>=-eq-ok (deduced mf no_field_options) _ h in normalize_field-IsNormal y o h1

committed-version :
    (f : Field)
    → IsNormal f.opts
    → is_version_field f ≡ true
    → (is_immutable {T = Target} (field (commit_key f)) ≡ false)
      × (is_erased {T = Target} (field (commit_key f)) ≡ false)
      × (patch_flag_of {T = Target} (field (commit_key f)) ≡ force_flag)
unfolding patch_flag_of
committed-version f n v = elim n.1 [
  | inl w ↦ absurd (cc (w, v))
  | inr (t, k, u, nl, i, e) ↦ (rw k i, rw k e, rw (k, v) refl)
]

-- If a field is parsed to a version field, then once the parser has marked the key as unique and
-- immutable it is neither immutable nor the erased field, so that a patch request carries it, and a
-- `_force` stands beside it there.
pub commit_key-parse_options :
    (f : Field) (of : Option FieldOptions) (oe : Option EdgeOptions)
    → parse_options f.source of oe ≡ ok (parsed_field f.opts)
    → is_version_field f ≡ true
    → (is_immutable {T = Target} (field (commit_key f)) ≡ false)
      × (is_erased {T = Target} (field (commit_key f)) ≡ false)
      × (patch_flag_of {T = Target} (field (commit_key f)) ≡ force_flag)
commit_key-parse_options f of oe h v =
    committed-version f (parse_options-IsNormal f.source of oe f.opts h) v
