-- ===== src/Ormpb/Options.antt =====
-- ormpb/options.pb.go, ormpb/index.pb.go and ormpb/rpc.pb.go: the options that a schema carries.
-- An option with presence is an `Option`; its `Has…` and `Get…` are the accessors below.
use protobuf_orm.Base.{ℕ, String, Bool, true, false, List, Option, none, some}
use protobuf_orm.Ormpb.Kinds.{OrmType, unspecified_type}
use protobuf_orm.Ormpb.Ref.{Ref}

-- `GetX` of a bool with presence: false when it is not set
abbrev pub get_bool : Option Bool → Bool
get_bool none = false
get_bool (some b) = b

-- `HasX`
abbrev pub has {ℓ} : {A : Type ℓ} → Option A → Bool
has none = false
has (some a) = true

-- FieldOptions
pub record FieldOptions : Type 0 where
  pub disabled : Option Bool
  pub orm_type : OrmType
  pub key : Option Bool
  pub unique : Option Bool
  pub nullable : Option Bool
  pub immutable : Option Bool
  pub default : Option String
  pub version : Option (Unit {0})
  pub erased : Option (Unit {0})

-- `&ormpb.FieldOptions{}`
abbrev pub no_field_options : FieldOptions
no_field_options = record {
  disabled = none;
  orm_type = unspecified_type;
  key = none;
  unique = none;
  nullable = none;
  immutable = none;
  default = none;
  version = none;
  erased = none;
}

-- EdgeOptions
pub record EdgeOptions : Type 0 where
  pub disabled : Option Bool
  pub bind : Option Ref
  pub from : Option Ref
  pub unique : Option Bool
  pub nullable : Option Bool
  pub immutable : Option Bool
  pub default : Option String

-- `&ormpb.EdgeOptions{}`
abbrev pub no_edge_options : EdgeOptions
no_edge_options = record {
  disabled = none;
  bind = none;
  from = none;
  unique = none;
  nullable = none;
  immutable = none;
  default = none;
}

-- Index
pub record IndexOptions : Type 0 where
  pub name : String
  pub refs : List Ref
  pub unique : Bool
  pub immutable : Bool
  pub hidden : Bool
  pub includes_erased : Bool

-- RpcAddMany, RpcAdd, and RpcGet, RpcPatch and RpcErase, which carry the same: what their `Get…` and
-- `Has…` answer
pub record RpcAddManyOptions : Type 0 where
  pub max : ℕ

pub record RpcAddOptions : Type 0 where
  pub disabled : Bool
  pub many : Option RpcAddManyOptions

pub record RpcMethodOptions : Type 0 where
  pub disabled : Bool

-- RpcOptions
pub record RpcOptions : Type 0 where
  pub disabled : Bool
  pub crud : Bool
  pub add : Option RpcAddOptions
  pub get : Option RpcMethodOptions
  pub patch : Option RpcMethodOptions
  pub erase : Option RpcMethodOptions

-- MessageOptions
pub record MessageOptions : Type 0 where
  pub disabled : Bool
  pub rpc : RpcOptions
  pub indexes : List IndexOptions
