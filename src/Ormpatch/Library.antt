-- ===== src/Ormpatch/Library.antt =====
-- The package `github.com/lesomnus/protobuf-patch/patch`, which the compiler calls: its functions
-- are parameters. A descriptor of a message goes by the message's full name.
use protobuf_orm.Base.{ℕ, String, List, Option}
use protobuf_orm.Base.Result.{Result}
use protobuf_orm.Proto.{FieldDescriptor}
use protobuf_orm.Proto.Value.{MapKey, Value}
use protobuf_orm.Ormpatch.Document.{FieldRef, KeyLiteral, Literal, Document}
use protobuf_orm.Ormpatch.Errors.{At, Error}

-- `patch.Site`: which part of a field a literal lands on
pub data Place : Type 0 where
  whole_field element map_value : Place

-- `patch.Shape`
pub data Shape : Type 0 where
  scalar message list dictionary no_shape : Shape

-- `patch.Limits`, which the compiler passes on whole
abbrev pub Limits : Type 0
Limits = List ℕ

pub record Library : Type 0 where
  -- `none` is a vacant field
  pub resolve_field : String → FieldRef → At → Result Error (Option FieldDescriptor)
  pub check_arm : Literal → FieldDescriptor → Place → At → Result Error (Unit {0})
  pub shape_of : Literal → Shape
  pub scalar : Literal → FieldDescriptor → Place → At → Result Error Value
  pub map_key_for : KeyLiteral → FieldDescriptor → At → Result Error MapKey
  pub value_of : Value → FieldDescriptor → Place → At → Result Error Literal
  pub normalize_with : Document → Limits → Result Error Document
  pub default_limits : Limits
