-- ===== src/Graph/Prop.antt =====
-- graph/prop.go, graph/field.go and graph/edge.go: the props of an entity and their predicates.
-- `T` is what an edge knows of its target.
pub mod Laws
use protobuf_orm.Base.{ℕ, String, Bool, true, false, not, ◌||◌, Option, if◌then◌else◌}
use protobuf_orm.Proto.{FieldDescriptor, is_repeated}
use protobuf_orm.Ormpb.Kinds.{OrmType, message_type, is_time_type}
use protobuf_orm.Ormpb.Options.{FieldOptions, EdgeOptions, get_bool, has}

-- protoField: its options are a private copy, which the parser may have normalized
pub record Field : Type 0 where
  pub source : FieldDescriptor
  pub opts : FieldOptions

-- protoEdge: `inverse` is the full name of the edge that it refers back to
pub record Edge (T : Type 0) : Type 0 where
  pub source : FieldDescriptor
  pub opts : EdgeOptions
  pub target : T
  pub inverse : Option String

-- the interface `Prop`, with its two implementations
pub data Prop (T : Type 0) : Type 0 where
  field : Field → Prop T
  edge : Edge T → Prop T

-- protoField.Type
abbrev pub field_type : Field → OrmType
field_type f = f.opts.orm_type

-- protoField.IsVersion, protoField.IsErased
abbrev pub is_version_field : Field → Bool
is_version_field f = has f.opts.version

abbrev pub is_erased_field : Field → Bool
is_erased_field f = has f.opts.erased

-- protoField.IsNullable
unfoldable pub field_is_nullable : Field → Bool
field_is_nullable f =
    if is_repeated f.source.cardinality
    then false
    else if get_bool f.opts.nullable || f.source.has_optional_keyword
    then true
    else if f.source.has_presence
    then not (is_time_type (field_type f))
    else false

-- protoField.IsOptional
unfoldable pub field_is_optional : Field → Bool
unfolding field_is_nullable
field_is_optional f =
    if is_repeated f.source.cardinality then true else field_is_nullable f || has f.opts.default

module _ {T : Type 0} where
  -- protoEdge.IsNullable
  unfoldable pub edge_is_nullable : Edge T → Bool
  edge_is_nullable e =
      if is_repeated e.source.cardinality
      then false
      else get_bool e.opts.nullable || e.source.has_optional_keyword

  -- protoEdge.IsOptional
  unfoldable pub edge_is_optional : Edge T → Bool
  unfolding edge_is_nullable
  edge_is_optional e =
      if is_repeated e.source.cardinality then true else edge_is_nullable e || has e.opts.default

  -- Prop.Descriptor
  abbrev pub descriptor : Prop T → FieldDescriptor
  descriptor (field f) = f.source
  descriptor (edge e) = e.source

  -- Prop.FullName, Prop.Name, Prop.Number, Prop.IsList
  abbrev pub full_name : Prop T → String
  full_name p = (descriptor p).full_name

  abbrev pub name : Prop T → String
  name p = (descriptor p).name

  abbrev pub number : Prop T → ℕ
  number p = (descriptor p).number

  abbrev pub is_list : Prop T → Bool
  is_list p = (descriptor p).is_list

  -- Prop.Type
  abbrev pub prop_type : Prop T → OrmType
  prop_type (field f) = field_type f
  prop_type (edge e) = message_type

  -- Prop.HasDefault
  abbrev pub has_default : Prop T → Bool
  has_default (field f) = has f.opts.default
  has_default (edge e) = has e.opts.default

  -- Prop.IsUnique
  abbrev pub is_unique : Prop T → Bool
  is_unique (field f) = get_bool f.opts.unique
  is_unique (edge e) = get_bool e.opts.unique

  -- Prop.IsImmutable
  abbrev pub is_immutable : Prop T → Bool
  is_immutable (field f) = get_bool f.opts.immutable
  is_immutable (edge e) = get_bool e.opts.immutable

  -- Prop.IsNullable
  unfoldable pub is_nullable : Prop T → Bool
  unfolding field_is_nullable edge_is_nullable
  is_nullable (field f) = field_is_nullable f
  is_nullable (edge e) = edge_is_nullable e

  -- Prop.IsOptional
  unfoldable pub is_optional : Prop T → Bool
  unfolding field_is_optional edge_is_optional
  is_optional (field f) = field_is_optional f
  is_optional (edge e) = edge_is_optional e

  -- f, ok := p.(Field); ok && f.IsVersion()
  abbrev pub is_version : Prop T → Bool
  is_version (field f) = is_version_field f
  is_version (edge e) = false

  -- f, ok := p.(Field); ok && f.IsErased()
  abbrev pub is_erased : Prop T → Bool
  is_erased (field f) = is_erased_field f
  is_erased (edge e) = false

  -- _, ok := p.(Edge)
  abbrev pub is_edge : Prop T → Bool
  is_edge (field f) = false
  is_edge (edge e) = true

  -- f, ok := p.(Field); ok && f.Descriptor().IsMap(), which is ormpatch's `isMap`
  abbrev pub is_map : Prop T → Bool
  is_map (field f) = f.source.is_map
  is_map (edge e) = false

  -- IsCollection (graph/util.go)
  unfoldable pub is_collection : Prop T → Bool
  is_collection p = if is_list p then true else is_map p
