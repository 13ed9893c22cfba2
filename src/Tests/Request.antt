-- ===== src/Tests/Request.antt =====
-- The theorems on requests, applied to a request on a post.
use protobuf_orm.Base.{
  ℕ, ◌≡◌, ◌⊎◌, refl, inl, inr, true, false, ◌||◌, ◌==◌, [], ◌∷◌, Option, none, some, All,
  if◌then◌else◌,
}
use protobuf_orm.Base.Result.{ok}
use protobuf_orm.Base.Table
use protobuf_orm.Proto.{
  FieldDescriptor, string_kind, bool_kind, message_kind, uint64_kind, repeated,
}
use protobuf_orm.Proto.Value.{Value, Fields, Items, Entries as ValueEntries}
use protobuf_orm.Graph.Patch.{patch_props, patch_value_number, patch_flag_number, patch_flag_of}
use protobuf_orm.Graph.Prop.{is_nullable, edge_is_nullable, is_collection}
use protobuf_orm.Ormpatch.Document.{Literal, Delta, Entries, Document}
use protobuf_orm.Ormpatch.Errors.{At, root, sub, index}
use protobuf_orm.Ormpatch.Plan.{Plan, set_column, clear_edge, equal}
use protobuf_orm.Ormpatch.Literal.{check_orm_value, materialize, by_shape}
use protobuf_orm.Ormpatch.Props.{resolve, index_props}
use protobuf_orm.Ormpatch.Request.{
  Request, request_has, guard_bytes, entry_test, entry_assign, entry_remove, prop_key, value_of,
  request_value, version_entry, set_entry, flag_entry, read_flag, prop_entry, prop_entries,
  from_patch_request,
}
use protobuf_orm.Ormpatch.State.{◌>>=◌ as bind}
use protobuf_orm.Ormpatch.Compile.Address.{walk, ident, same_ident}
use protobuf_orm.Ormpatch.Compile.Suits.{IsWritable}
use protobuf_orm.Ormpatch.Compile.Targets.{one, at_column, column_op, remove_column}
use protobuf_orm.Ormpatch.Compile.Writes.{
  test, add_test, mutable, check_op, note_write, fold_write, write, is_json_column,
}
use protobuf_orm.Ormpatch.Compile.Document.{
  compile_normal, delta, scope_op, targets, select, collect,
}
use protobuf_orm.Ormpatch.Request.Compiled.{
  IsConverted, from_patch_request-IsConverted, from_patch_request-compile_normal,
}
use protobuf_orm.Ormpatch.Request.Complete.{Asks, from_patch_request-Asks}
use protobuf_orm.Ormpatch.Request.Version.{Carries, from_patch_request-version}
use protobuf_orm.Tests.Schema.{plain, library, post, title, author, revision}

abbrev title_request : FieldDescriptor
title_request = plain "title" 4 string_kind

-- the request's fields, by their numbers in the layout
abbrev request_field : ℕ → Option FieldDescriptor
request_field n =
    if n == 4
    then some title_request
    else if n == 6
    then some (record (plain "labels" 6 message_kind) { is_map = true; cardinality = repeated })
    else if n == 8
    then some (record (plain "pages" 8 string_kind) { is_list = true; cardinality = repeated })
    else if n == 10
    then some (plain "author" 10 message_kind)
    else if n == 11
    then some (plain "author_null" 11 bool_kind)
    else if n == 12
    then some (plain "revision" 12 uint64_kind)
    else if n == 13
    then some (plain "revision_force" 13 bool_kind)
    else none

abbrev request_content : ℕ → Value
request_content n =
    if n == 4
    then Value.bytes (104 ∷ [])
    else if n == 6
    then Value.dictionary ValueEntries.empty
    else if n == 8
    then Value.list Items.nil
    else if n == 10
    then Value.message "UserRef" Fields.end
    else if n == 11
    then Value.bool true
    else if n == 13
    then Value.bool false
    else Value.uint 3

-- a request that assigns the title, clears the author, and carries the revision
abbrev renaming : Request
renaming = record { by_number = request_field; get = request_content; has = λ n. n == 4 || n == 12 }

abbrev renamed : Document
renamed = record {
  message_type = "Post";
  delta = Delta.delta (
      Entries.cons (entry_assign title (Literal.scalar (104 ∷ []))) (
        Entries.cons (entry_remove author)
          (Entries.cons (entry_test revision (Literal.scalar (3 ∷ []))) Entries.end)));
}

renaming-converts : from_patch_request library (some post) (some renaming) none ≡ ok (some renamed)
unfolding from_patch_request prop_entries prop_entry patch_props patch_value_number
    patch_flag_number patch_flag_of is_nullable read_flag request_has flag_entry version_entry
    set_entry request_value guard_bytes value_of
renaming-converts = refl

from_patch_request-IsConverted_example : IsConverted post renamed
from_patch_request-IsConverted_example =
    from_patch_request-IsConverted library post renaming none renamed renaming-converts

from_patch_request-version_example :
    (read_flag library renaming revision ≡ ok true)
    ⊎ ((v : Literal) × Carries (entry_test revision v) (some renamed))
unfolding patch_props
from_patch_request-version_example =
    from_patch_request-version library post renaming none (some renamed) revision refl
      (inr (inr (inr (inr (inl refl))))) renaming-converts

from_patch_request-Asks_example :
    Asks library renaming none title title_request false (λ x. Carries x (some renamed))
unfolding patch_props patch_value_number read_flag patch_flag_of request_has is_nullable
from_patch_request-Asks_example =
    from_patch_request-Asks library renaming none post (some renamed) title title_request false true
      refl (inl refl) refl refl refl (inr refl) renaming-converts

abbrev entry_at : ℕ → At
entry_at i = index (sub (index (root "delta") "entries" i) "targets") "selectors" 0

abbrev renamed_plan : Plan
renamed_plan = record {
  entity = post;
  tests =
      record {
        prop = revision;
        key = none;
        index = none;
        want = equal (Value.bytes (3 ∷ []));
        at = entry_at 2;
      }
      ∷ [];
  writes =
      record { prop = title; at = entry_at 0; op = set_column (Value.bytes (104 ∷ [])) }
      ∷ record { prop = author; at = entry_at 1; op = clear_edge }
      ∷ [];
}

renamed-compiles : compile_normal library post renamed ≡ ok renamed_plan
unfolding compile_normal delta bind walk scope_op targets select one at_column column_op
    remove_column resolve Table.lookup Table.insert index_props test add_test mutable ident
    same_ident check_op check_orm_value materialize by_shape note_write fold_write write
    is_json_column collect entry_assign entry_remove entry_test prop_key edge_is_nullable
    is_collection
renamed-compiles = refl

from_patch_request-compile_normal_example : All (λ w. IsWritable w.prop) renamed_plan.writes
from_patch_request-compile_normal_example =
    from_patch_request-compile_normal library post renaming none renamed renamed_plan
      renaming-converts renamed-compiles
