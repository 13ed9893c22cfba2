-- ===== src/Graph/GoType.antt =====
-- graph/gogen/gogen.go: the Go type of a field.
pub mod Typable
pub mod Nested
use Prim.Native.Char.{Char, code}
use Prim.Native.String.{String, [], ◌∷◌, ◌++◌, len, slice}
use text.Mathlib.Text.{starts_with}
use protobuf_orm.Base.{ℕ, Bool, true, false, not, Option, none, some, ◌==◌, str_eq, if◌then◌else◌}
use protobuf_orm.Proto.{
  Kind, bool_kind, enum_kind, int32_kind, sint32_kind, uint32_kind, int64_kind, sint64_kind,
  uint64_kind, sfixed32_kind, fixed32_kind, float_kind, sfixed64_kind, fixed64_kind, double_kind,
  string_kind, bytes_kind, message_kind, group_kind, unknown_kind,
}
use protobuf_orm.Ormpb.Kinds.{OrmType, unspecified_type, is_uuid_type, is_time_type}

-- `protogen.GoIdent`
pub record GoIdent : Type 0 where
  pub go_name : String
  pub go_import_path : String

-- `fd.Enum()` or `fd.Message()`: its names, and what `ParentFile()` answers: its package, and
-- `go_package` of its options, which is empty where it is not set
pub record Declared : Type 0 where
  pub name : String
  pub full_name : String
  pub package_name : String
  pub go_package : String

-- `protoreflect.FieldDescriptor`, as far as GoType asks: a field that is no map, or one that is,
-- with its `MapKey()` and `MapValue()`. The kind of a map is MessageKind.
pub data Descriptor : Type 0 where
  plain_field : Kind → Declared → Descriptor
  map_field : Descriptor → Descriptor → Descriptor

-- `strings.SplitN(v, ";", 2)[0]`
unfoldable pub before_semicolon : String → String
before_semicolon [] = []
before_semicolon (c ∷ s) = let rest = before_semicolon s in if code c == 59 then [] else c ∷ rest

-- GetGoImportPath, and MustGetGoImportPath, which panics where that finds none
unfoldable pub go_import_path : Declared → Option String
unfolding before_semicolon
go_import_path d = if str_eq d.go_package "" then none else some (before_semicolon d.go_package)

-- `strings.ReplaceAll(name, ".", "_")`
unfoldable pub replace_dots : String → String
replace_dots [] = []
replace_dots (c ∷ s) = let rest = replace_dots s in if code c == 46 then "_" ++ rest else c ∷ rest

-- `strings.TrimPrefix`
abbrev pub trim_prefix : String → String → String
trim_prefix s p = if starts_with s p then slice s (len p) (len s) else s

-- the name of a message in Go, without its package
unfoldable pub go_message_name : Declared → String
unfolding replace_dots
go_message_name d = replace_dots (
    if str_eq d.package_name ""
    then d.full_name
    else trim_prefix d.full_name (d.package_name ++ "."))

-- `f(v)`, which panics where `f` is nil
abbrev pub call : Option (GoIdent → String) → GoIdent → Option String
call none v = none
call (some f) v = some (f v)

-- `f(pkg.Ident(name))`, in the package of the file, which must have one
abbrev pub call_in : Option (GoIdent → String) → String → Option String → Option String
call_in f name none = none
call_in f name (some path) = call f (record { go_name = name; go_import_path = path })

abbrev pub map_type : Option String → Option String → Option String
map_type none v = none
map_type (some k) none = none
map_type (some k) (some v) = some ("map[" ++ k ++ "]" ++ v)

-- GoType, of a field that is no map
unfoldable pub plain_type : Kind → Declared → OrmType → Option (GoIdent → String) → Option String
unfolding go_import_path go_message_name
plain_type bool_kind d t f = some "bool"
plain_type enum_kind d t f = call_in f d.name (go_import_path d)
plain_type int32_kind d t f = some "int32"
plain_type sint32_kind d t f = some "int32"
plain_type sfixed32_kind d t f = some "int32"
plain_type uint32_kind d t f = some "uint32"
plain_type fixed32_kind d t f = some "uint32"
plain_type int64_kind d t f = some "int64"
plain_type sint64_kind d t f = some "int64"
plain_type sfixed64_kind d t f = some "int64"
plain_type uint64_kind d t f = some "uint64"
plain_type fixed64_kind d t f = some "uint64"
plain_type float_kind d t f = some "float32"
plain_type double_kind d t f = some "float64"
plain_type string_kind d t f = some "string"
plain_type bytes_kind d t f =
    if is_uuid_type t
    then call f (record { go_name = "UUID"; go_import_path = "uuid" })
    else some "[]byte"
plain_type message_kind d t f =
    if is_time_type t
    then call f (record { go_name = "Time"; go_import_path = "time" })
    else call_in f (go_message_name d) (go_import_path d)
plain_type group_kind d t f = none
plain_type unknown_kind d t f = none

-- GoType: none where it panics
unfoldable pub go_type : Descriptor → OrmType → Option (GoIdent → String) → Option String
unfolding plain_type
go_type (plain_field k d) t f = plain_type k d t f
go_type (map_field k v) t f = map_type (go_type k unspecified_type none) (go_type v t f)
