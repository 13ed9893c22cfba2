-- ===== src/Tests/GoTypes.antt =====
-- The theorems on Go types, applied to a message with a nested one, and to enums.
use Prim.Native.String.{◌++◌}
use protobuf_orm.Base.{◌≡◌, ◌↔◌, refl, inr, String, some}
use protobuf_orm.Proto.{string_kind, enum_kind, message_kind}
use protobuf_orm.Ormpb.Kinds.{json_type, enum_type}
use protobuf_orm.Graph.GoType.{
  GoIdent, Declared, Descriptor, plain_field, map_field, go_import_path, go_type,
}
use protobuf_orm.Graph.GoType.Typable.{IsTypable, go_type_iff}
use protobuf_orm.Graph.GoType.Nested.{IsInPackage, IsNestedIn, go_type-nested}

abbrev qualified : GoIdent → String
qualified v = v.go_import_path ++ ("." ++ v.go_name)

abbrev mapping : Declared
mapping = record {
  name = "FieldTypeMapping";
  full_name = "graphtest.FieldTypeMapping";
  package_name = "graphtest";
  go_package = "example/graphtest;graphtest";
}

abbrev something : Declared
something = record mapping {
  name = "Something";
  full_name = "graphtest.FieldTypeMapping.Something";
}

something-typed :
    go_type (plain_field message_kind something) json_type (some qualified)
    ≡ some "example/graphtest.FieldTypeMapping_Something"
unfolding go_type
something-typed = refl

mapping-found : go_import_path mapping ≡ some "example/graphtest"
unfolding go_import_path
mapping-found = refl

mapping-IsInPackage : IsInPackage mapping
mapping-IsInPackage = inr (λ e. absurd (cc e), ("FieldTypeMapping", refl))

something-IsNestedIn : IsNestedIn mapping something
something-IsNestedIn = record {
  simple = (refl, (refl, (refl, (refl, (refl, (refl, (refl, (refl, (refl, tt)))))))));
  full_name = refl;
  package_name = refl;
  go_package = refl;
}

go_type-nested_example :
    (name : String) × (go_type (plain_field message_kind mapping) json_type (some qualified)
      ≡ some (qualified (record { go_name = name; go_import_path = "example/graphtest" })))
    × (go_type (plain_field message_kind something) json_type (some qualified)
        ≡ some (
            qualified (record {
              go_name = name ++ ("_" ++ "Something");
              go_import_path = "example/graphtest";
            })))
go_type-nested_example =
    go_type-nested mapping something json_type qualified "example/graphtest" mapping-IsInPackage
      something-IsNestedIn refl mapping-found

-- a map from texts to messages
abbrev somethings : Descriptor
somethings = map_field (plain_field string_kind something) (plain_field message_kind something)

go_type_iff_example :
    ((s : String) × (go_type somethings json_type (some qualified) ≡ some s))
    ↔ IsTypable somethings json_type
go_type_iff_example = go_type_iff somethings json_type qualified (refl, tt)

-- An enum is asked for under its own name, wherever it is declared.
abbrev nested_level : Declared
nested_level = record mapping { name = "Level"; full_name = "graphtest.FieldTypeMapping.Level" }

abbrev other_level : Declared
other_level = record mapping { name = "Level"; full_name = "graphtest.Other.Level" }

levels-same :
    go_type (plain_field enum_kind nested_level) enum_type (some qualified)
    ≡ go_type (plain_field enum_kind other_level) enum_type (some qualified)
unfolding go_type
levels-same = refl
