-- ===== src/Tests/Files.antt =====
-- The theorems on files, applied to a file with a post, and a document on the post.
use protobuf_orm.Base.{
  arith, ℕ, ◌≡◌, ◌≢◌, refl, true, false, [], ◌∷◌, map, All, Distinct, none, some,
}
use protobuf_orm.Base.Result.{Result, ok}
use protobuf_orm.Base.Table
use protobuf_orm.Proto.{string_kind, bytes_kind}
use protobuf_orm.Proto.Value.{Value}
use protobuf_orm.Ormpb.Kinds.{string_type, uuid_type}
use protobuf_orm.Ormpb.Options.{no_field_options}
use protobuf_orm.Graph.Prop.{Field, field}
use protobuf_orm.Graph.Entity.{Entity, fields}
use protobuf_orm.Graph.Store.{Message, Store, new_graph, append_prop}
use protobuf_orm.Graph.Parser.{Run}
use protobuf_orm.Graph.Parse.{
  normalize_field, check_version, check_erased, check_others, find_key, at_most_one,
}
use protobuf_orm.Graph.File.{SourceFile}
use protobuf_orm.Graph.View.{entity_at, prop_at}
use protobuf_orm.Graph.View.Laws.{number_of}
use protobuf_orm.Ormpatch.Document.{Literal, Operation, Delta, Entries, Document}
use protobuf_orm.Ormpatch.Plan.{Plan, set_column}
use protobuf_orm.Ormpatch.Compile.Document.{
  compile_with, compile_normal, delta, scope_op, targets, select, collect,
}
use protobuf_orm.Ormpatch.Compile.Address.{walk, walk_step, site_of, enter, ident, same_ident}
use protobuf_orm.Ormpatch.Compile.Targets.{one, at_column, column_op}
use protobuf_orm.Ormpatch.Compile.Writes.{
  mutable, addressable, check_op, note_write, fold_write, fold_op, write,
}
use protobuf_orm.Ormpatch.Compile.Scopes.{Admits}
use protobuf_orm.Ormpatch.Literal.{check_orm_value, materialize, by_shape}
use protobuf_orm.Ormpatch.Props.{resolve, index_props}
use protobuf_orm.Ormpatch.State.{◌>>=◌}
use protobuf_orm.Ormpatch.EntityOf.{EntityOfError, entity_of}
use protobuf_orm.Ormpatch.EntityOf.Laws.{IsAnswer, entity_of-IsAnswer}
use protobuf_orm.Ormpatch.EntityOf.Keys.{entity_of-compile_with}
use protobuf_orm.Tests.Schema.{library, plain}
use protobuf_orm.Tests.Plans.{at_field, entry_at}
use protobuf_orm.Tests.Parser.{flat_names, entity_message}

abbrev note_message : Message
note_message = entity_message "Post" (
    record {
      source = plain "title" 2 string_kind;
      field_opts = some (record no_field_options { orm_type = string_type });
      edge_opts = none;
    }
    ∷ [])

abbrev notes : SourceFile
notes = record {
  path = "notes.proto";
  package_name = "";
  generate = true;
  file = note_message ∷ [];
  messages = note_message ∷ [];
}

abbrev store_or_new : Run (Result EntityOfError ℕ) → Store
store_or_new none = new_graph
store_or_new (some (r, s)) = s

note_store : Store
unfolding entity_of append_prop normalize_field check_version check_erased check_others find_key
    at_most_one
note_store = store_or_new (entity_of flat_names notes "Post")

note-answered : entity_of flat_names notes "Post" ≡ some (ok 0, note_store)
unfolding note_store
note-answered = refl

abbrev note_key : Field
note_key = record {
  source = plain "id" 1 bytes_kind;
  opts = record no_field_options {
    orm_type = uuid_type;
    key = some true;
    unique = some true;
    immutable = some true;
  };
}

abbrev note_title : Field
note_title = record {
  source = plain "title" 2 string_kind;
  opts = record no_field_options { orm_type = string_type };
}

abbrev note : Entity
note = record {
  full_name = "Post";
  name = "Post";
  key = note_key;
  props = field note_key ∷ field note_title ∷ [];
}

note-shown : entity_at flat_names note_store 0 ≡ some note
unfolding note_store entity_at prop_at
note-shown = refl

note-apart : Distinct (map number_of (fields (note_store.cell 0).props))
unfolding note_store
note-apart = omega arith

entity_of-IsAnswer_example :
    (r : Result EntityOfError ℕ) × (s : Store) × (entity_of flat_names notes "Post" ≡ some (r, s))
    × IsAnswer "Post" r s
entity_of-IsAnswer_example = entity_of-IsAnswer flat_names notes "Post"

-- the title is assigned
abbrev retitle : Document
retitle = record {
  message_type = "Post";
  delta =
      Delta.delta (
        Entries.cons (at_field 2 (Operation.assign (Literal.scalar (104 ∷ 105 ∷ [])))) Entries.end);
}

abbrev retitle_plan : Plan
retitle_plan = record {
  entity = note;
  tests = [];
  writes =
      record {
        prop = field note_title;
        at = entry_at 0;
        op = set_column (Value.bytes (104 ∷ 105 ∷ []));
      }
      ∷ [];
}

retitle-compiles : compile_with library (some note) (some retitle) [] ≡ ok retitle_plan
unfolding compile_with compile_normal delta ◌>>=◌ walk scope_op targets select one at_column
    column_op resolve Table.lookup Table.insert index_props mutable site_of walk_step enter ident
    same_ident addressable check_op check_orm_value materialize by_shape note_write fold_write
    fold_op write collect
retitle-compiles = refl

retitle-Admits : Admits false retitle.delta
unfolding Admits
retitle-Admits = ((tt, tt), tt)

entity_of-compile_with_example : All (λ w. w.prop ≢ field note.key) retitle_plan.writes
entity_of-compile_with_example =
    entity_of-compile_with flat_names notes "Post" 0 note_store note library retitle retitle []
      retitle_plan note-answered note-apart note-shown refl retitle-Admits retitle-compiles
