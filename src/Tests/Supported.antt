-- ===== src/Tests/Supported.antt =====
-- The theorems on which requests are converted, and on the documents that come out, applied to a request that sets the author
-- of a post, whose key is found to be no UUID.
use protobuf_orm.Base.{
  ℕ, ◌≡◌, ◌↔◌, refl, true, false, ◌||◌, ◌==◌, [], ◌∷◌, map, Option, none, some, All, Distinct,
  arith,
}
use protobuf_orm.Base.Result.{ok, err}
use protobuf_orm.Base.Table
use protobuf_orm.Base.Table.{Table}
use protobuf_orm.Proto.{FieldDescriptor}
use protobuf_orm.Proto.Value.{Value}
use protobuf_orm.Graph.Patch.{patch_props, patch_value_number, patch_flag_number, patch_flag_of}
use protobuf_orm.Graph.Prop.{number, descriptor, is_nullable, is_collection, is_version}
use protobuf_orm.Ormpatch.Document.{Literal, Delta, Entries, Document}
use protobuf_orm.Ormpatch.Errors.{At, invalid_value}
use protobuf_orm.Ormpatch.Library.{Library, Place}
use protobuf_orm.Ormpatch.Literal.{check_orm_value, materialize, by_shape}
use protobuf_orm.Ormpatch.Literal.Refusals.{is_value_error, IsPatch, Blames}
use protobuf_orm.Ormpatch.Props.{resolve, index_props}
use protobuf_orm.Ormpatch.Request.{
  Request, EdgeResolver, request_has, guard_bytes, entry_test, entry_edge_assign, prop_key,
  value_of, request_value, version_entry, set_entry, flag_entry, read_flag, prop_entry,
  prop_entries, from_patch_request,
}
use protobuf_orm.Ormpatch.State.{◌>>=◌ as chain}
use protobuf_orm.Ormpatch.Compile.Address.{walk, walk_step, site_of, ident, same_ident}
use protobuf_orm.Ormpatch.Compile.Targets.{one, at_edge, edge_op}
use protobuf_orm.Ormpatch.Compile.Writes.{
  is_json_column, mutable, check_op, note_write, fold_write, write,
}
use protobuf_orm.Ormpatch.Compile.Document.{
  compile_normal, delta, scope_op, targets, select, collect,
}
use protobuf_orm.Ormpatch.Request.Accepted.{Succeeds, Allows, from_patch_request_iff}
use protobuf_orm.Ormpatch.Request.SingleEntries.{Declares, HasTargetKey}
use protobuf_orm.Ormpatch.Request.Supported.{from_patch_request-Supported}
use protobuf_orm.Tests.Generated.{request_fields, content}
use protobuf_orm.Tests.Plans.{entry_at}
use protobuf_orm.Tests.Schema.{library, post, user_id, author_edge, revision, find_descriptor}

abbrev find_number : Option ℕ → Option FieldDescriptor
find_number none = none
find_number (some n) = find_descriptor n (map descriptor post.props)

abbrev post_library : Library
post_library = record library { resolve_field = λ md f at. ok (find_number f.number) }

-- the author and the version are set
abbrev signing : Request
signing = record {
  by_number = λ n. Table.lookup n request_fields;
  get = content;
  has = λ n. n == 10 || n == 12;
}

-- every author is found under a key of three bytes
abbrev short_key : EdgeResolver
short_key ed v = ok (Value.bytes (1 ∷ 2 ∷ 3 ∷ []))

abbrev signed : Document
signed = record {
  message_type = "Post";
  delta = Delta.delta (
      Entries.cons (entry_edge_assign author_edge user_id (Literal.scalar (1 ∷ 2 ∷ 3 ∷ [])))
        (Entries.cons (entry_test revision (Literal.scalar (3 ∷ []))) Entries.end));
}

signing-converts :
    from_patch_request post_library (some post) (some signing) (some short_key) ≡ ok (some signed)
unfolding from_patch_request prop_entries prop_entry patch_props patch_value_number
    patch_flag_number patch_flag_of is_nullable read_flag request_has flag_entry version_entry
    set_entry request_value guard_bytes value_of Table.lookup
signing-converts = refl

from_patch_request_iff_example :
    Succeeds (from_patch_request post_library (some post) (some signing) (some short_key))
    ↔ All (Allows post_library signing (some short_key)) (patch_props post.props)
from_patch_request_iff_example = from_patch_request_iff post_library signing (some short_key) post

signed-fails : compile_normal post_library post signed ≡ err (invalid_value (entry_at 0) "author" 3)
unfolding compile_normal delta chain walk walk_step site_of scope_op targets select one at_edge
    edge_op resolve Table.lookup Table.insert index_props mutable ident same_ident check_op
    check_orm_value materialize by_shape note_write fold_write write collect entry_edge_assign
    entry_test prop_key
signed-fails = refl

post_library-IsPatch : IsPatch post_library
post_library-IsPatch = record {
  resolves = λ md f at. tt;
  arms = λ v fd s at. tt;
  scalars = scalars;
  keys = λ k fd at. tt;
}
  where
    scalars :
        (v : Literal) (fd : FieldDescriptor) (s : Place) (at : At)
        → Blames (post_library.scalar v fd s at)
    scalars (Literal.scalar bs) fd s at = tt
    scalars _ fd s at = refl

post-numbered : Distinct (map number post.props)
post-numbered = ground arith

post-declared :
    All
      (λ p.
        Declares post_library post.full_name p
        × HasTargetKey post_library p
        × (is_version p ≡ true → is_json_column p ≡ false))
      post.props
unfolding is_json_column is_collection
post-declared = (
  (λ at. refl, tt, λ v. refl),
  (
    (λ at. refl, tt, λ v. refl),
    (
      (λ at. refl, tt, λ v. absurd (cc v)),
      (
        (λ at. refl, tt, λ v. absurd (cc v)),
        (
          (λ at. refl, λ at. refl, λ v. refl),
          ((λ at. refl, tt, λ v. refl), ((λ at. refl, tt, λ v. absurd (cc v)), tt)),
        ),
      ),
    ),
  ),
)

from_patch_request-Supported_example : is_value_error (invalid_value (entry_at 0) "author" 3) ≡ true
from_patch_request-Supported_example =
    from_patch_request-Supported post_library post signing (some short_key) signed
      (invalid_value (entry_at 0) "author" 3) post_library-IsPatch post-numbered post-declared
      signing-converts signed-fails
