-- ===== src/Tests/Parse.antt =====
-- The theorems on the parser, applied to a time that is the version of an entity, and to an edge
-- with a back reference.
use protobuf_orm.Base.{ℤ, ◌≡◌, ◌↔◌, ◌≤◌, refl, true, false, [], ◌∷◌, none, some, length, List}
use protobuf_orm.Base.Result.{ok}
use protobuf_orm.Proto.{FieldDescriptor, message_kind, bytes_kind}
use protobuf_orm.Ormpb.Kinds.{deduce_message, uuid_type, time_type, deduce_type}
use protobuf_orm.Ormpb.Options.{FieldOptions, EdgeOptions, no_field_options, no_edge_options}
use protobuf_orm.Ormpb.Ref.{Ref}
use protobuf_orm.Graph.Prop.{
  Field, Edge, edge, field, is_version_field, is_erased_field, is_immutable, is_erased,
}
use protobuf_orm.Graph.Entity.{Target, find}
use protobuf_orm.Graph.Index.Laws.{IsPropOf}
use protobuf_orm.Graph.Parse.Edges.{edge_of, edge_to, find_back, check_back, commit_edge}
use protobuf_orm.Graph.Parse.Edges.Sound.{IsSingular, find_back-eq-ok}
use protobuf_orm.Graph.Patch.{patch_flag_of, force_flag}
use protobuf_orm.Graph.Parse.{
  FieldsError, parse_options, deduced, normalize_field, check_version, check_erased, parsed_field,
  is_key_field, commit_key, check_fields,
}
use protobuf_orm.Graph.Parse.Fields.{IsNormal, parse_options-IsNormal, commit_key-parse_options}
use protobuf_orm.Graph.Parse.Entity.{pick, IsKeyReady}
use protobuf_orm.Graph.Parse.Entity.Accepted.{check_fields_iff}
use protobuf_orm.Tests.Schema.{plain, post, post_id, user}

abbrev timestamp : FieldDescriptor
timestamp = record (plain "blog.Post.date_updated" 8 message_kind) {
  message = "google.protobuf.Timestamp";
  has_presence = true;
}

-- what the file says of the version, which has no type
abbrev version_options : FieldOptions
version_options = record no_field_options { version = some tt }

abbrev date_updated : Field
date_updated = record { source = timestamp; opts = record version_options { orm_type = time_type } }

abbrev date_erased : Field
date_erased = record {
  source = timestamp;
  opts = record no_field_options { orm_type = time_type; erased = some tt; nullable = some true };
}

abbrev marked_id : Field
marked_id = record {
  source = plain "blog.Post.id" 1 bytes_kind;
  opts = record no_field_options { orm_type = uuid_type; key = some true; unique = some true };
}

date_updated-parses :
    parse_options timestamp (some version_options) none ≡ ok (parsed_field date_updated.opts)
unfolding parse_options deduced normalize_field check_version check_erased deduce_type
    deduce_message
date_updated-parses = refl

parse_options-IsNormal_example : IsNormal date_updated.opts
parse_options-IsNormal_example =
    parse_options-IsNormal timestamp (some version_options) none date_updated.opts
      date_updated-parses

commit_key-parse_options_example :
    (is_immutable {T = Target} (field (commit_key date_updated)) ≡ false)
    × (is_erased {T = Target} (field (commit_key date_updated)) ≡ false)
    × (patch_flag_of {T = Target} (field (commit_key date_updated)) ≡ force_flag)
commit_key-parse_options_example =
    commit_key-parse_options date_updated (some version_options) none date_updated-parses refl

abbrev post_fields : List Field
post_fields = date_erased ∷ marked_id ∷ date_updated ∷ []

check_fields_iff_example : (check_fields post_fields ≡ ok marked_id) ↔ (
    (pick is_key_field post_fields ≡ marked_id ∷ [])
    × IsKeyReady marked_id
    × (length (pick is_version_field post_fields) ≤ 1)
    × (length (pick is_erased_field post_fields) ≤ 1))
check_fields_iff_example = check_fields_iff post_fields marked_id

-- an edge of the user, which the author of a post refers back to
abbrev draft_descriptor : FieldDescriptor
draft_descriptor = plain "draft" 9 message_kind

abbrev back_to_author : Ref
back_to_author = record { name = "author"; number = ℤ.pos 5 }

abbrev draft_options : EdgeOptions
draft_options = record no_edge_options { from = some back_to_author }

abbrev post_target : Target
post_target = record { full_name = "Post"; name = "Post"; key = post_id }

abbrev draft : Edge Target
draft = record {
  source = draft_descriptor;
  opts = draft_options;
  target = post_target;
  inverse = none;
}

abbrev author_edge : Edge Target
author_edge = record {
  source = plain "author" 5 message_kind;
  opts = record no_edge_options { nullable = some true };
  target = user;
  inverse = none;
}

draft-accepted :
    edge_of {E = FieldsError} draft_descriptor draft_options (ok post_target) ≡ ok draft
unfolding edge_of edge_to
draft-accepted = refl

author-found : find_back post.props back_to_author draft ≡ ok author_edge
unfolding find_back check_back find
author-found = refl

find_back-eq-ok_example :
    (IsPropOf post.props (edge author_edge)
      × (ℤ.pos author_edge.source.number ≡ back_to_author.number)
      × (author_edge.source.name ≡ back_to_author.name))
    × IsSingular (commit_edge author_edge draft author_edge)
    × IsSingular (commit_edge author_edge draft draft)
find_back-eq-ok_example =
    find_back-eq-ok {E = FieldsError} draft_descriptor draft_options (ok post_target) post.props
      back_to_author draft author_edge (tt, (tt, (tt, (tt, (refl, (tt, (tt, tt))))))) draft-accepted
      author-found
