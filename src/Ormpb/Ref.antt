-- ===== src/Ormpb/Ref.antt =====
-- ormpb/ref.go: a reference to a field by number, by name or by both.
pub mod Agreement
pub mod RoundTrip
use protobuf_orm.Base.{
  ℤ, same_int, positive, to_int32, ℕ, String, not, ◌&&◌, Option, none, some, ltb, ◌==◌, str_eq,
  if◌then◌else◌,
}
use protobuf_orm.Base.Result.{Result, ok, err}
use protobuf_orm.Proto.{FieldDescriptor}

-- `ormpb.Ref`. Its accessors answer "" and 0 for what is not set. The number is an int32.
pub record Ref : Type 0 where
  pub name : String
  pub number : ℤ

-- RefByNumber, RefByName
abbrev pub ref_by_number : ℤ → Ref
ref_by_number n = record { name = ""; number = to_int32 n }

abbrev pub ref_by_name : String → Ref
ref_by_name name = record { name = name; number = ℤ.pos 0 }

-- `protoreflect.FieldDescriptors`: the lookups of the fields of one message
pub record FieldDescriptors : Type 0 where
  pub by_number : ℕ → Option FieldDescriptor
  pub by_name : String → Option FieldDescriptor

pub data RefError : Type 0 where
  empty_ref : RefError
  unknown_number : ℕ → RefError
  name_not_matched : ℕ → String → String → RefError
  unknown_name : String → RefError

-- Ref.Access
unfoldable pub access : Ref → FieldDescriptors → Result RefError FieldDescriptor
access r desc =
    let name = r.name in
    if same_int r.number (ℤ.pos 0) && str_eq name ""
    then err empty_ref
    else elim (positive r.number) [
      | some number ↦ elim (desc.by_number number) [
        | none ↦ err (unknown_number number)
        | some field ↦
            if not (str_eq name "") && not (str_eq name field.name)
            then err (name_not_matched number field.name name)
            else ok field
      ]
      | none ↦ elim (desc.by_name name) [ none ↦ err (unknown_name name) | some field ↦ ok field ]
    ]
