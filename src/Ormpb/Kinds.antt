-- ===== src/Ormpb/Kinds.antt =====
-- ormpb/type.pb.go and ormpb/type.go: the ORM's types, and how one is deduced from a proto field.
pub mod Deduction
use protobuf_orm.Base.{
  Bool, true, false, not, String, str_eq, ◌||◌, Option, none, some, if◌then◌else◌,
}
use protobuf_orm.Proto.{
  FieldDescriptor, Kind, bool_kind, enum_kind, int32_kind, sint32_kind, uint32_kind, int64_kind,
  sint64_kind, uint64_kind, sfixed32_kind, fixed32_kind, float_kind, sfixed64_kind, fixed64_kind,
  double_kind, string_kind, bytes_kind, message_kind, group_kind, unknown_kind,
}

-- TYPE_INT and TYPE_UINT are second names of TYPE_INT64 and TYPE_UINT64.
pub data OrmType : Type 0 where
  unspecified_type bool_type enum_type int32_type sint32_type uint32_type int64_type : OrmType
  sint64_type uint64_type sfixed32_type fixed32_type float_type sfixed64_type : OrmType
  fixed64_type double_type string_type bytes_type message_type group_type : OrmType
  uuid_type time_type json_type : OrmType

abbrev pub int_type : OrmType
int_type = int64_type

abbrev pub uint_type : OrmType
uint_type = uint64_type

abbrev pub is_unspecified : OrmType → Bool
is_unspecified unspecified_type = true
is_unspecified _ = false

abbrev pub is_message_type : OrmType → Bool
is_message_type message_type = true
is_message_type _ = false

abbrev pub is_time_type : OrmType → Bool
is_time_type time_type = true
is_time_type _ = false

abbrev pub is_json_type : OrmType → Bool
is_json_type json_type = true
is_json_type _ = false

abbrev pub is_uuid_type : OrmType → Bool
is_uuid_type uuid_type = true
is_uuid_type _ = false

-- TypeFromKind
unfoldable pub type_from_kind : Kind → OrmType
type_from_kind bool_kind = bool_type
type_from_kind enum_kind = enum_type
type_from_kind int32_kind = int32_type
type_from_kind sint32_kind = sint32_type
type_from_kind uint32_kind = uint32_type
type_from_kind int64_kind = int64_type
type_from_kind sint64_kind = sint64_type
type_from_kind uint64_kind = uint64_type
type_from_kind sfixed32_kind = sfixed32_type
type_from_kind fixed32_kind = fixed32_type
type_from_kind float_kind = float_type
type_from_kind sfixed64_kind = sfixed64_type
type_from_kind fixed64_kind = fixed64_type
type_from_kind double_kind = double_type
type_from_kind string_kind = string_type
type_from_kind bytes_kind = bytes_type
type_from_kind message_kind = message_type
type_from_kind group_kind = group_type
type_from_kind unknown_kind = unspecified_type

-- the switch on `f.Message().FullName()`
unfoldable pub deduce_message : String → OrmType
deduce_message name =
    if str_eq name "google.protobuf.Timestamp"
    then time_type
    else if str_eq name "google.protobuf.Struct" || str_eq name "google.protobuf.Value"
    then json_type
    else json_type

-- DeduceType, from what it asks of the descriptor: the kind, whether the field is a map, and the
-- name of its message; `none` is the panic on an unknown kind
unfoldable pub deduce_kind : Kind → Bool → String → Option OrmType
unfolding type_from_kind
deduce_kind k is_map message =
    let v = type_from_kind k in
    if is_unspecified v
    then none
    else if not (is_message_type v)
    then some v
    else if is_map
    then some json_type
    else some (deduce_message message)

-- DeduceType
unfoldable pub deduce_type : FieldDescriptor → Option OrmType
unfolding deduce_kind
deduce_type f = deduce_kind f.kind f.is_map f.message

-- Type.Decay
unfoldable pub decay : OrmType → OrmType
decay float_type = float_type
decay double_type = float_type
decay int32_type = int_type
decay int64_type = int_type
decay sint32_type = int_type
decay sint64_type = int_type
decay sfixed32_type = int_type
decay sfixed64_type = int_type
decay enum_type = int_type
decay uint32_type = uint_type
decay uint64_type = uint_type
decay fixed32_type = uint_type
decay fixed64_type = uint_type
decay message_type = message_type
decay json_type = message_type
decay time_type = message_type
decay group_type = message_type
decay uuid_type = bytes_type
decay t = t

-- Type.IsMessage, Type.IsScalar
unfoldable pub is_message : OrmType → Bool
unfolding decay
is_message t = is_message_type (decay t)

unfoldable pub is_scalar : OrmType → Bool
unfolding is_message
is_scalar t = not (is_message t)
