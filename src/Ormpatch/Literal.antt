-- ===== src/Ormpatch/Literal.antt =====
-- ormpatch/value.go: a document's literal turned into the value that a column would hold, and the
-- check of a value against the ORM's type.
pub mod Distinct
pub mod Refusals
use protobuf_orm.Base.{
  ℕ, ◌+◌, String, Bool, true, false, not, ◌||◌, List, [], ◌∷◌, ◌++◌, Option, none, some, length,
  ◌==◌, str_eq, if◌then◌else◌,
}
use protobuf_orm.Base.Result.{Result, ok, err, ◌>>=◌}
use protobuf_orm.Proto.{FieldDescriptor, Kind, is_message_kind, is_group_kind}
use protobuf_orm.Proto.Value.{MapKey, Value, Fields, Items, Entries, same_key}
use protobuf_orm.Ormpb.Kinds.{OrmType, is_uuid_type}
use protobuf_orm.Graph.Prop.{Prop, field, edge, name, field_type}
use protobuf_orm.Graph.Entity.{Target}
use protobuf_orm.Ormpatch.Document.{Literal, FieldLiterals, Literals, EntryLiterals}
use protobuf_orm.Ormpatch.Errors.{
  At, sub, index, Error, format, invalid_value, illegal_arm, vacant_target, duplicate_target,
  uuid_len,
}
use protobuf_orm.Ormpatch.Library.{Library, Place, whole_field, element, map_value, Shape}

abbrev pub contains_number : ℕ → List ℕ → Bool
contains_number n [] = false
contains_number n (m ∷ ms) = m == n || contains_number n ms

abbrev contains_name : String → List String → Bool
contains_name s [] = false
contains_name s (t ∷ ts) = str_eq t s || contains_name s ts

abbrev pub contains_key : MapKey → List MapKey → Bool
contains_key k [] = false
contains_key k (j ∷ js) = same_key j k || contains_key k js

-- the name of the oneof that the field is a member of, unless it is synthetic
abbrev pub true_oneof : FieldDescriptor → List String
true_oneof fd = elim fd.containing_oneof [
  | none ↦ []
  | some od ↦ if od.is_synthetic then [] else od.full_name ∷ []
]

abbrev pub any_in : List String → List String → Bool
any_in [] seen = false
any_in (s ∷ ss) seen = contains_name s seen || any_in ss seen

abbrev pub is_message_shape : Shape → Bool
is_message_shape Shape.message = true
is_message_shape _ = false

-- `fd.Message()`, or `fd.MapValue().Message()` at a map value
abbrev pub message_at : FieldDescriptor → Place → String
message_at fd map_value = fd.map_value_message
message_at fd _ = fd.message

abbrev pub is_compound : Kind → Bool
is_compound k = is_message_kind k || is_group_kind k

module _ (L : Library) where
  -- the switch of `materialize` on the shape, with what the three fills answer
  unfoldable pub switch :
      Shape
      → Literal
      → FieldDescriptor
      → Place
      → At
      → (String → Result Error Fields)
      → Result Error Items
      → Result Error Entries
      → Result Error Value
  switch Shape.scalar v fd place at fields items entries = L.scalar v fd place at
  switch Shape.message v fd place at fields items entries = do
    fs ← fields (message_at fd place)
    ok (Value.message (message_at fd place) fs)
  switch Shape.list v fd place at fields items entries = do is ← items; ok (Value.list is)
  switch Shape.dictionary v fd place at fields items entries = do
    es ← entries
    ok (Value.dictionary es)
  switch Shape.no_shape v fd place at fields items entries = err (format illegal_arm at)

  unfoldable pub by_shape :
      Literal
      → FieldDescriptor
      → Place
      → At
      → (String → Result Error Fields)
      → Result Error Items
      → Result Error Entries
      → Result Error Value
  unfolding switch
  by_shape v fd place at fields items entries = do
    _ ← L.check_arm v fd place at
    switch (L.shape_of v) v fd place at fields items entries

  -- an element of a list or a value of a map, whose kind says whether it is a message
  unfoldable pub part :
      Bool
      → String
      → Literal
      → FieldDescriptor
      → Place
      → At
      → (At → Result Error Fields)
      → Result Error Value
  part true md v fd place at fields = do
    _ ← L.check_arm v fd place at
    if not (is_message_shape (L.shape_of v))
        then err (format illegal_arm at)
        else do fs ← fields (sub at "m"); ok (Value.message md fs)
  part false md v fd place at fields = L.scalar v fd place at

  unfoldable mutual
    -- materialize
    pub materialize : Literal → FieldDescriptor → Place → At → Result Error Value
    materialize Literal.unset fd place at =
        by_shape Literal.unset fd place at (λ md. ok Fields.end) (ok Items.nil) (ok Entries.empty)
    materialize (Literal.scalar s) fd place at =
        by_shape (Literal.scalar s) fd place at (λ md. ok Fields.end) (ok Items.nil)
          (ok Entries.empty)
    materialize (Literal.message fs) fd place at =
        by_shape (Literal.message fs) fd place at (λ md. fill_message fs md 0 [] [] (sub at "m"))
          (ok Items.nil) (ok Entries.empty)
    materialize (Literal.list vs) fd place at =
        by_shape (Literal.list vs) fd place at (λ md. ok Fields.end)
          (fill_list vs fd 0 (sub at "l")) (ok Entries.empty)
    materialize (Literal.dictionary es) fd place at =
        by_shape (Literal.dictionary es) fd place at (λ md. ok Fields.end) (ok Items.nil)
          (fill_map es fd 0 [] (sub at "map"))

    -- `fillMessage(m, v.GetM(), at)`
    pub fill_arm : Literal → String → At → Result Error Fields
    fill_arm (Literal.message fs) md at = fill_message fs md 0 [] [] at
    fill_arm _ md at = ok Fields.end

    -- fillMessage, from field `i` on
    pub fill_message : FieldLiterals → String → ℕ → List ℕ → List String → At → Result Error Fields
    fill_message FieldLiterals.end md i seen oneofs at = ok Fields.end
    fill_message (FieldLiterals.field k v rest) md i seen oneofs at = do
      let at' = index at "fields" i
      found ← L.resolve_field md k (sub at' "key")
      elim found [
        | none ↦ err (format vacant_target (sub at' "key"))
        | some fd ↦
            if contains_number fd.number seen
            then err (format duplicate_target (sub at' "key"))
            else if any_in (true_oneof fd) oneofs
            then err (format duplicate_target (sub at' "key"))
            else do
              pv ← materialize v fd whole_field (sub at' "value")
              fs ← fill_message rest md (i + 1) (fd.number ∷ seen) (true_oneof fd ++ oneofs) at
              ok (Fields.field fd.number pv fs)
      ]

    -- fillList, from element `i` on
    pub fill_list : Literals → FieldDescriptor → ℕ → At → Result Error Items
    fill_list Literals.nil fd i at = ok Items.nil
    fill_list (Literals.cons v rest) fd i at = do
      let at' = index at "values" i
      pv ← part (is_compound fd.kind) fd.message v fd element at' (fill_arm v fd.message)
      is ← fill_list rest fd (i + 1) at
      ok (Items.cons pv is)

    -- fillMap, from entry `i` on
    pub fill_map : EntryLiterals → FieldDescriptor → ℕ → List MapKey → At → Result Error Entries
    fill_map EntryLiterals.empty fd i seen at = ok Entries.empty
    fill_map (EntryLiterals.entry k v rest) fd i seen at = do
      let at' = index at "entries" i
      mk ← L.map_key_for k fd (sub at' "key")
      if contains_key mk seen then err (format duplicate_target (sub at' "key")) else do
        pv ←
            part (is_compound fd.map_value_kind) fd.map_value_message v fd map_value
              (sub at' "value") (fill_arm v fd.map_value_message)
        es ← fill_map rest fd (i + 1) (mk ∷ seen) at
        ok (Entries.entry mk pv es)

-- The type that a value of the prop belongs to: at an edge, that of the target's key.
abbrev pub value_type : Prop Target → OrmType
value_type (field f) = field_type f
value_type (edge e) = field_type e.target.key

-- The lengths of the byte strings that the check looks at.
abbrev pub short_items : Items → Option ℕ
short_items Items.nil = none
short_items (Items.cons (Value.bytes b) rest) =
    let more = short_items rest in if length b == uuid_len then more else some (length b)
short_items (Items.cons _ rest) = short_items rest

abbrev pub short_entries : Entries → Option ℕ
short_entries Entries.empty = none
short_entries (Entries.entry k (Value.bytes b) rest) =
    let more = short_entries rest in if length b == uuid_len then more else some (length b)
short_entries (Entries.entry k _ rest) = short_entries rest

-- the switch of `checkOrmValue`: the length of a byte string that is no UUID
abbrev pub short_bytes : Value → Option ℕ
short_bytes (Value.bytes b) = if length b == uuid_len then none else some (length b)
short_bytes (Value.list is) = short_items is
short_bytes (Value.dictionary es) = short_entries es
short_bytes _ = none

-- checkOrmValue
unfoldable pub check_orm_value : Prop Target → Value → At → Result Error (Unit {0})
check_orm_value p v at =
    if not (is_uuid_type (value_type p))
    then ok tt
    else elim (short_bytes v) [ none ↦ ok tt | some n ↦ err (invalid_value at (name p) n) ]
