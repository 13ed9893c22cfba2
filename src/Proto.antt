-- ===== src/Proto.antt =====
-- The observations of `protoreflect` that the program makes: what a descriptor answers, and the
-- union that a `protoreflect.Value` is. They are documented by that package and are not code of
-- the repository; here they are data, which the program's functions take as arguments.
pub mod Value
use protobuf_orm.Base.{ℕ, String, Bool, false, true, Option}

-- `protoreflect.Kind`
pub data Kind : Type 0 where
  bool_kind enum_kind int32_kind sint32_kind uint32_kind int64_kind sint64_kind : Kind
  uint64_kind sfixed32_kind fixed32_kind float_kind sfixed64_kind fixed64_kind : Kind
  double_kind string_kind bytes_kind message_kind group_kind : Kind
  -- any other number of the Go type
  unknown_kind : Kind

-- `protoreflect.Cardinality`
pub data Cardinality : Type 0 where
  optional required repeated : Cardinality

-- `fd.ContainingOneof()`: its full name, and `IsSynthetic()`
pub record Oneof : Type 0 where
  pub full_name : String
  pub is_synthetic : Bool

-- `protoreflect.FieldDescriptor`: what its methods answer. `message` is the full name of
-- `fd.Message()`, and `map_value_…` are those answers of `fd.MapValue()`.
pub record FieldDescriptor : Type 0 where
  pub full_name : String
  pub name : String
  pub number : ℕ
  pub kind : Kind
  pub cardinality : Cardinality
  pub is_map : Bool
  pub is_list : Bool
  pub has_presence : Bool
  pub has_optional_keyword : Bool
  pub message : String
  pub map_value_kind : Kind
  pub map_value_message : String
  pub containing_oneof : Option Oneof

abbrev pub is_repeated : Cardinality → Bool
is_repeated repeated = true
is_repeated _ = false

-- k == MessageKind
abbrev pub is_message_kind : Kind → Bool
is_message_kind message_kind = true
is_message_kind _ = false

abbrev pub is_group_kind : Kind → Bool
is_group_kind group_kind = true
is_group_kind _ = false

abbrev pub is_bool_kind : Kind → Bool
is_bool_kind bool_kind = true
is_bool_kind _ = false

abbrev pub is_bytes_kind : Kind → Bool
is_bytes_kind bytes_kind = true
is_bytes_kind _ = false
