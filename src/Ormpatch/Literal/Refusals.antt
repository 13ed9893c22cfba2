-- ===== src/Ormpatch/Literal/Refusals.antt =====
-- How a literal fails to become a value (ormpatch/value.go).
use protobuf_orm.Base.{
  ℕ, ◌+◌, ◌≡◌, refl, String, Bool, true, false, not, Bool-cases, inl, inr, List, [], ◌∷◌, ◌++◌,
  Option, Option-cases, none, some, if◌then◌else◌,
}
use protobuf_orm.Base.Result.{Result, err, ErrorsAre, ErrorsAre->>=}
use protobuf_orm.Proto.{FieldDescriptor}
use protobuf_orm.Proto.Value.{MapKey, Value, Fields, Items, Entries}
use protobuf_orm.Ormpb.Kinds.{is_uuid_type}
use protobuf_orm.Graph.Prop.{Prop}
use protobuf_orm.Graph.Entity.{Target}
use protobuf_orm.Ormpatch.Document.{
  FieldRef, KeyLiteral, Literal, FieldLiterals, Literals, EntryLiterals,
}
use protobuf_orm.Ormpatch.Errors.{At, sub, index, Error, format, invalid_value}
use protobuf_orm.Ormpatch.Library.{Library, Place, whole_field, element, map_value, Shape}
use protobuf_orm.Ormpatch.Literal.{
  contains_number, contains_key, true_oneof, any_in, is_message_shape, message_at, is_compound,
  switch, by_shape, part, materialize, fill_arm, fill_message, fill_list, fill_map, value_type,
  short_bytes, check_orm_value,
}

-- A violation of the format, or a value that the column's type cannot hold.
abbrev pub is_value_error : Error → Bool
is_value_error (format c at) = true
is_value_error (invalid_value at s n) = true
is_value_error _ = false

abbrev pub Blames : {A : Type 0} → Result Error A → Type 0
Blames r = ErrorsAre is_value_error r

-- The errors of the patch package are violations of the format.
pub record IsPatch (L : Library) : Type 0 where
  pub resolves : (md : String) (f : FieldRef) (at : At) → Blames (L.resolve_field md f at)
  pub arms :
      (v : Literal) (fd : FieldDescriptor) (s : Place) (at : At) → Blames (L.check_arm v fd s at)
  pub scalars :
      (v : Literal) (fd : FieldDescriptor) (s : Place) (at : At) → Blames (L.scalar v fd s at)
  pub keys : (k : KeyLiteral) (fd : FieldDescriptor) (at : At) → Blames (L.map_key_for k fd at)

Blames-if :
    {A : Type 0} (b : Bool) (e : Error) (r : Result Error A)
    → is_value_error e ≡ true
    → Blames r
    → Blames (if b then err e else r)
Blames-if true e r h k = h
Blames-if false e r h k = k

Blames-found :
    {A B : Type 0} (o : Option A) (e : Error) (f : A → Result Error B)
    → is_value_error e ≡ true
    → ((a : A) → Blames (f a))
    → Blames (elim o [ none ↦ err e | some a ↦ f a ])
Blames-found none e f h k = h
Blames-found (some a) e f h k = k a

module _ (L : Library) (lib : IsPatch L) where
  switch-Blames :
      (shape : Shape) (v : Literal) (fd : FieldDescriptor) (place : Place) (at : At)
      (fields : String → Result Error Fields) (items : Result Error Items)
      (entries : Result Error Entries)
      → ((md : String) → Blames (fields md))
      → Blames items
      → Blames entries
      → Blames (switch L shape v fd place at fields items entries)
  unfolding switch
  switch-Blames Shape.scalar v fd place at fields items entries f i e = lib.scalars v fd place at
  switch-Blames Shape.message v fd place at fields items entries f i e =
      ErrorsAre->>= is_value_error (fields (message_at fd place)) _ (f (message_at fd place))
        (λ x. tt)
  switch-Blames Shape.list v fd place at fields items entries f i e =
      ErrorsAre->>= is_value_error items _ i (λ x. tt)
  switch-Blames Shape.dictionary v fd place at fields items entries f i e =
      ErrorsAre->>= is_value_error entries _ e (λ x. tt)
  switch-Blames Shape.no_shape v fd place at fields items entries f i e = refl

  by_shape-Blames :
      (v : Literal) (fd : FieldDescriptor) (place : Place) (at : At)
      (fields : String → Result Error Fields) (items : Result Error Items)
      (entries : Result Error Entries)
      → ((md : String) → Blames (fields md))
      → Blames items
      → Blames entries
      → Blames (by_shape L v fd place at fields items entries)
  unfolding by_shape
  by_shape-Blames v fd place at fields items entries f i e =
      ErrorsAre->>= is_value_error (L.check_arm v fd place at) _ (lib.arms v fd place at)
        (λ u. switch-Blames (L.shape_of v) v fd place at fields items entries f i e)

  part-Blames :
      (compound : Bool) (md : String) (v : Literal) (fd : FieldDescriptor) (place : Place) (at : At)
      (fields : At → Result Error Fields)
      → ((at : At) → Blames (fields at))
      → Blames (part L compound md v fd place at fields)
  unfolding part
  part-Blames false md v fd place at fields f = lib.scalars v fd place at
  part-Blames true md v fd place at fields f =
      ErrorsAre->>= is_value_error (L.check_arm v fd place at) _ (lib.arms v fd place at) (λ u.
        Blames-if (not (is_message_shape (L.shape_of v))) _ _ refl
          (ErrorsAre->>= is_value_error (fields (sub at "m")) _ (f (sub at "m")) (λ x. tt)))

  mutual
    unfolding materialize

    pub materialize-Blames :
        (v : Literal) (fd : FieldDescriptor) (place : Place) (at : At)
        → Blames (materialize L v fd place at)
    materialize-Blames Literal.unset fd place at =
        by_shape-Blames Literal.unset fd place at _ _ _ (λ md. tt) tt tt
    materialize-Blames (Literal.scalar s) fd place at =
        by_shape-Blames (Literal.scalar s) fd place at _ _ _ (λ md. tt) tt tt
    materialize-Blames (Literal.message fs) fd place at =
        by_shape-Blames (Literal.message fs) fd place at _ _ _
          (λ md. fill_message-Blames fs md 0 [] [] (sub at "m")) tt tt
    materialize-Blames (Literal.list vs) fd place at =
        by_shape-Blames (Literal.list vs) fd place at _ _ _ (λ md. tt)
          (fill_list-Blames vs fd 0 (sub at "l")) tt
    materialize-Blames (Literal.dictionary es) fd place at =
        by_shape-Blames (Literal.dictionary es) fd place at _ _ _ (λ md. tt) tt
          (fill_map-Blames es fd 0 [] (sub at "map"))

    fill_arm-Blames : (v : Literal) (md : String) (at : At) → Blames (fill_arm L v md at)
    fill_arm-Blames (Literal.message fs) md at = fill_message-Blames fs md 0 [] [] at
    fill_arm-Blames _ md at = tt

    fill_message-Blames :
        (fs : FieldLiterals) (md : String) (i : ℕ) (seen : List ℕ) (oneofs : List String) (at : At)
        → Blames (fill_message L fs md i seen oneofs at)
    fill_message-Blames FieldLiterals.end md i seen oneofs at = tt
    fill_message-Blames (FieldLiterals.field k v rest) md i seen oneofs at =
        ErrorsAre->>= is_value_error (L.resolve_field md k (sub (index at "fields" i) "key")) _
          (lib.resolves md k (sub (index at "fields" i) "key"))
          (λ found. Blames-found found _ _ refl (λ fd.
            Blames-if (contains_number fd.number seen) _ _ refl (
              Blames-if (any_in (true_oneof fd) oneofs) _ _ refl (
                ErrorsAre->>= is_value_error
                  (materialize L v fd whole_field (sub (index at "fields" i) "value")) _
                  (materialize-Blames v fd whole_field (sub (index at "fields" i) "value"))
                  (λ pv.
                    ErrorsAre->>= is_value_error
                      (fill_message L rest md (i + 1) (fd.number ∷ seen) (true_oneof fd ++ oneofs)
                        at)
                      _
                      (fill_message-Blames rest md (i + 1) (fd.number ∷ seen)
                        (true_oneof fd ++ oneofs) at)
                      (λ fs. tt))))))

    fill_list-Blames :
        (vs : Literals) (fd : FieldDescriptor) (i : ℕ) (at : At) → Blames (fill_list L vs fd i at)
    fill_list-Blames Literals.nil fd i at = tt
    fill_list-Blames (Literals.cons v rest) fd i at =
        ErrorsAre->>= is_value_error
          (part L (is_compound fd.kind) fd.message v fd element (index at "values" i)
            (fill_arm L v fd.message))
          _
          (part-Blames (is_compound fd.kind) fd.message v fd element (index at "values" i)
            (fill_arm L v fd.message) (fill_arm-Blames v fd.message))
          (λ pv.
            ErrorsAre->>= is_value_error (fill_list L rest fd (i + 1) at) _
              (fill_list-Blames rest fd (i + 1) at) (λ is. tt))

    fill_map-Blames :
        (es : EntryLiterals) (fd : FieldDescriptor) (i : ℕ) (seen : List MapKey) (at : At)
        → Blames (fill_map L es fd i seen at)
    fill_map-Blames EntryLiterals.empty fd i seen at = tt
    fill_map-Blames (EntryLiterals.entry k v rest) fd i seen at =
        ErrorsAre->>= is_value_error (L.map_key_for k fd (sub (index at "entries" i) "key")) _
          (lib.keys k fd (sub (index at "entries" i) "key"))
          (λ mk. Blames-if (contains_key mk seen) _ _ refl (
            ErrorsAre->>= is_value_error
              (part L (is_compound fd.map_value_kind) fd.map_value_message v fd map_value
                (sub (index at "entries" i) "value") (fill_arm L v fd.map_value_message))
              _
              (part-Blames (is_compound fd.map_value_kind) fd.map_value_message v fd map_value
                (sub (index at "entries" i) "value") (fill_arm L v fd.map_value_message)
                (fill_arm-Blames v fd.map_value_message))
              (λ pv.
                ErrorsAre->>= is_value_error (fill_map L rest fd (i + 1) (mk ∷ seen) at) _
                  (fill_map-Blames rest fd (i + 1) (mk ∷ seen) at) (λ es. tt))))

pub check_orm_value-Blames :
    (p : Prop Target) (v : Value) (at : At) → Blames (check_orm_value p v at)
unfolding check_orm_value
check_orm_value-Blames p v at = elim (Bool-cases (not (is_uuid_type (value_type p)))) [
  | inl e ↦ rw e tt
  | inr e ↦ elim (Option-cases (short_bytes v)) [
    | inl n ↦ rw (e, n) tt
    | inr (k, n) ↦ rw (e, n) refl
  ]
]
