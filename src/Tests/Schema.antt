-- ===== src/Tests/Schema.antt =====
-- A schema of posts with an author, and a library that resolves fields by number.
use protobuf_orm.Base.{
  ℕ, String, true, false, List, [], ◌∷◌, Option, none, some, ◌==◌, if◌then◌else◌,
}
use protobuf_orm.Base.Result.{Result, ok, err}
use protobuf_orm.Proto.{
  FieldDescriptor, Kind, string_kind, bytes_kind, message_kind, uint64_kind, optional, repeated,
}
use protobuf_orm.Proto.Value.{MapKey, Value}
use protobuf_orm.Ormpb.Kinds.{string_type, uuid_type, json_type, uint64_type}
use protobuf_orm.Ormpb.Options.{no_field_options, no_edge_options}
use protobuf_orm.Graph.Prop.{Edge, Field, Prop, field, edge}
use protobuf_orm.Graph.Entity.{Target, Entity}
use protobuf_orm.Ormpatch.Document.{Literal, FieldRef}
use protobuf_orm.Ormpatch.Errors.{Error, format, illegal_arm, root}
use protobuf_orm.Ormpatch.Library.{Library, Shape}

abbrev pub plain : String → ℕ → Kind → FieldDescriptor
plain s n k = record {
  full_name = s;
  name = s;
  number = n;
  kind = k;
  cardinality = optional;
  is_map = false;
  is_list = false;
  has_presence = false;
  has_optional_keyword = false;
  message = "";
  map_value_kind = string_kind;
  map_value_message = "";
  containing_oneof = none;
}

abbrev pub user_id : Field
user_id = record {
  source = plain "id" 1 bytes_kind;
  opts = record no_field_options { orm_type = uuid_type };
}

abbrev pub user : Target
user = record { full_name = "User"; name = "User"; key = user_id }

abbrev pub post_id : Field
post_id = record {
  source = plain "id" 1 bytes_kind;
  opts = record no_field_options { orm_type = uuid_type; immutable = some true };
}

abbrev pub title : Prop Target
title = field (record {
  source = plain "title" 2 string_kind;
  opts = record no_field_options { orm_type = string_type };
})

abbrev pub labels : Prop Target
labels = field (record {
  source = record (plain "labels" 3 message_kind) { is_map = true; cardinality = repeated };
  opts = record no_field_options { orm_type = json_type };
})

abbrev pub pages : Prop Target
pages = field (record {
  source = record (plain "pages" 4 string_kind) { is_list = true; cardinality = repeated };
  opts = record no_field_options { orm_type = string_type };
})

abbrev pub author_edge : Edge Target
author_edge = record {
  source = plain "author" 5 message_kind;
  opts = record no_edge_options { nullable = some true };
  target = user;
  inverse = none;
}

abbrev pub author : Prop Target
author = edge author_edge

abbrev pub revision : Prop Target
revision = field (record {
  source = plain "revision" 6 uint64_kind;
  opts = record no_field_options { orm_type = uint64_type; version = some tt };
})

abbrev pub frozen : Prop Target
frozen = field (record {
  source = record (plain "frozen" 7 string_kind) { is_list = true; cardinality = repeated };
  opts = record no_field_options { orm_type = string_type; immutable = some true };
})

abbrev pub post : Entity
post = record {
  full_name = "Post";
  name = "Post";
  key = post_id;
  props = field post_id ∷ title ∷ labels ∷ pages ∷ author ∷ revision ∷ frozen ∷ [];
}

abbrev descriptors : List FieldDescriptor
descriptors =
    plain "id" 1 bytes_kind
    ∷ plain "title" 2 string_kind
    ∷ plain "labels" 3 message_kind
    ∷ plain "pages" 4 string_kind
    ∷ plain "author" 5 message_kind
    ∷ plain "revision" 6 uint64_kind
    ∷ plain "frozen" 7 string_kind
    ∷ []

abbrev pub find_descriptor : ℕ → List FieldDescriptor → Option FieldDescriptor
find_descriptor n [] = none
find_descriptor n (d ∷ ds) = if d.number == n then some d else find_descriptor n ds

abbrev resolve_number : Option ℕ → Option FieldDescriptor
resolve_number none = none
resolve_number (some n) = find_descriptor n descriptors

abbrev shape : Literal → Shape
shape (Literal.scalar bs) = Shape.scalar
shape (Literal.message fs) = Shape.message
shape (Literal.list vs) = Shape.list
shape (Literal.dictionary es) = Shape.dictionary
shape Literal.unset = Shape.no_shape

abbrev scalar_value : Literal → Result Error Value
scalar_value (Literal.scalar bs) = ok (Value.bytes bs)
scalar_value _ = err (format illegal_arm (root "value"))

abbrev encoded : Value → Literal
encoded (Value.bytes b) = Literal.scalar b
encoded (Value.uint n) = Literal.scalar (n ∷ [])
encoded _ = Literal.unset

abbrev first_byte : List ℕ → ℕ
first_byte [] = 0
first_byte (b ∷ bs) = b

abbrev pub library : Library
library = record {
  resolve_field = λ md f at. ok (resolve_number f.number);
  check_arm = λ v fd place at. ok tt;
  shape_of = shape;
  scalar = λ v fd place at. scalar_value v;
  map_key_for = λ k fd at. ok (MapKey.uint (first_byte k));
  value_of = λ v fd place at. ok (encoded v);
  normalize_with = λ d lim. ok d;
  default_limits = [];
}

abbrev pub number_ref : ℕ → FieldRef
number_ref n = record { name = none; number = some n; json_name = none }

abbrev pub sixteen : List ℕ
sixteen = 0 ∷ 1 ∷ 2 ∷ 3 ∷ 4 ∷ 5 ∷ 6 ∷ 7 ∷ 8 ∷ 9 ∷ 10 ∷ 11 ∷ 12 ∷ 13 ∷ 14 ∷ 15 ∷ []
