-- ===== src/Tests/Parser.antt =====
-- Files of two entities that refer to one another, on which the theorems on the parser are applied.
use protobuf_orm.Base.{All, Bool, ℤ, ℕ, String, ◌≡◌, refl, true, false, List, [], ◌∷◌, none, some}
use protobuf_orm.Base.Dict.{lookup}
use protobuf_orm.Base.Result.{ok, err}
use protobuf_orm.Proto.{message_kind, bytes_kind, repeated}
use protobuf_orm.Ormpb.Kinds.{uuid_type}
use protobuf_orm.Ormpb.Options.{RpcOptions, no_field_options, no_edge_options}
use protobuf_orm.Ormpb.Options.{get_bool}
use protobuf_orm.Graph.Prop.{Prop, field, edge}
use protobuf_orm.Graph.Entity.{find}
use protobuf_orm.Graph.Rpc.{FullNames}
use protobuf_orm.Graph.Parse.{
  no_key, normalize_field, check_version, check_erased, check_others, find_key, at_most_one,
}
use protobuf_orm.Graph.Parse.Edges.{edge_of, edge_to, find_back, check_back}
use protobuf_orm.Graph.File.Runs.{SameObjects, parse-Ends, parse-eq-err}
use protobuf_orm.Graph.File.Complete.{IsWellFormed, Grows, HasEntity, parse-IsWellFormed}
use protobuf_orm.Graph.File.Again.{SameGraph, parse-Again}
use protobuf_orm.Graph.Store.{PropSource, Message, Store, new_graph, append_prop}
use protobuf_orm.Graph.Failure.{Outcome, Failure, bad_back, bad_fields}
use protobuf_orm.Graph.Parser.{Run}
use protobuf_orm.Graph.Parse.Edges.{back_not_found}
use protobuf_orm.Graph.File.{parse}
use protobuf_orm.Tests.Schema.{plain}

abbrev pub flat_names : FullNames
flat_names = record { parent = λ s. ""; base = λ s. s; append = λ s t. t }

abbrev no_rpc_options : RpcOptions
no_rpc_options = record {
  disabled = true;
  crud = false;
  add = none;
  get = none;
  patch = none;
  erase = none;
}

abbrev id_source : PropSource
id_source = record {
  source = plain "id" 1 bytes_kind;
  field_opts = some (record no_field_options { orm_type = uuid_type; key = some true });
  edge_opts = none;
}

abbrev pub entity_message : String → List PropSource → Message
entity_message name ps = record {
  full_name = name;
  opts = some (record { disabled = false; rpc = no_rpc_options; indexes = [] });
  fields = id_source ∷ ps;
}

-- a user, whose posts are those that the user is the author of
abbrev user_message : Message
user_message = entity_message "User" (
    record {
      source = record (plain "posts" 2 message_kind) {
        cardinality = repeated;
        is_list = true;
        message = "Post";
      };
      field_opts = none;
      edge_opts =
          some
            (record no_edge_options { from = some (record { name = "author"; number = ℤ.pos 3 }) });
    }
    ∷ [])

abbrev post_message : Message
post_message = entity_message "Post" (
    record {
      source = record (plain "author" 3 message_kind) { message = "User" };
      field_opts = none;
      edge_opts = some no_edge_options;
    }
    ∷ [])

abbrev blog : List Message
blog = user_message ∷ post_message ∷ []

abbrev store_of : {A : Type 0} → Run A → Store
store_of none = new_graph
store_of (some (x, s)) = s

-- the graph after a Parse
parsed : List Message → List Message → Store → Store
unfolding parse edge_of edge_to find_back check_back find append_prop normalize_field check_version
    check_erased check_others find_key at_most_one
parsed messages file g = store_of (parse flat_names messages file g)

-- the graph of the blog
blog_graph : Store
unfolding parsed
blog_graph = parsed blog blog new_graph

blog-parses : parse flat_names blog blog new_graph ≡ some (ok tt, blog_graph)
unfolding blog_graph
blog-parses = refl

parse-Ends_example :
    (r : Outcome (Unit {0})) × (g' : Store) × (parse flat_names blog blog new_graph ≡ some (r, g'))
parse-Ends_example = parse-Ends flat_names blog blog new_graph

new_graph-IsWellFormed : IsWellFormed new_graph
unfolding lookup
new_graph-IsWellFormed = record {
  named = λ name a h. absurd (cc h);
  complete = λ name a h. absurd (cc h);
}

parse-IsWellFormed_example :
    IsWellFormed blog_graph
    × Grows new_graph.entities blog_graph.entities
    × All (HasEntity blog_graph) blog
parse-IsWellFormed_example =
    parse-IsWellFormed flat_names blog blog new_graph tt blog_graph new_graph-IsWellFormed
      blog-parses

parse-Again_example :
    (g'' : Store) × (parse flat_names blog blog blog_graph ≡ some (ok tt, g''))
    × SameGraph blog_graph g''
parse-Again_example =
    parse-Again flat_names blog blog new_graph tt blog_graph new_graph-IsWellFormed blog-parses

-- The same file with its messages the other way round. The props of a post are not parsed when
-- those of a user ask for its author.
abbrev missing_author : Failure
missing_author = record {
  path = "Post" ∷ "author" ∷ "User" ∷ "posts" ∷ [];
  cause = bad_back back_not_found;
}

posts_first : Store
unfolding parsed
posts_first = parsed blog (post_message ∷ user_message ∷ []) new_graph

posts_first-fails :
    parse flat_names blog (post_message ∷ user_message ∷ []) new_graph
    ≡ some (err (missing_author, []), posts_first)
unfolding posts_first
posts_first-fails = refl

-- A tag of users, which users do not know of, and a message that is no entity for want of a key.
abbrev badge_message : Message
badge_message = entity_message "Badge" (
    record {
      source = record (plain "holder" 2 message_kind) { message = "Node" };
      field_opts = none;
      edge_opts =
          some
            (record no_edge_options { from = some (record { name = "next"; number = ℤ.pos 2 }) });
    }
    ∷ [])

abbrev node_message : Message
node_message = entity_message "Node" (
    record {
      source = record (plain "next" 2 message_kind) { message = "Node" };
      field_opts = none;
      edge_opts = some no_edge_options;
    }
    ∷ [])

abbrev keyless_message : Message
keyless_message = record (entity_message "Keyless" []) { fields = [] }

node_graph : Store
unfolding parsed
node_graph = parsed (node_message ∷ []) (node_message ∷ []) new_graph

abbrev badges : List Message
badges = badge_message ∷ keyless_message ∷ []

after_badges : Store
unfolding parsed node_graph
after_badges = parsed (node_message ∷ badges) badges node_graph

abbrev no_key_found : Failure
no_key_found = record { path = "Keyless" ∷ []; cause = bad_fields no_key }

badges-fail :
    parse flat_names (node_message ∷ badges) badges node_graph
    ≡ some (err (no_key_found, []), after_badges)
unfolding after_badges
badges-fail = refl

parse-eq-err_example :
    SameObjects node_graph after_badges × (after_badges.entities ≡ node_graph.entities)
parse-eq-err_example =
    parse-eq-err flat_names (node_message ∷ badges) badges node_graph (no_key_found, [])
      after_badges badges-fail

-- Whether the edge of a node is unique.
abbrev next_is_unique : List (Prop ℕ) → Bool
next_is_unique (field f ∷ edge e ∷ []) = get_bool e.opts.unique
next_is_unique _ = false

-- The failed Parse has made an edge of the node unique.
failed_parse-marks :
    (next_is_unique (node_graph.cell 0).props ≡ false)
    × (next_is_unique (after_badges.cell 0).props ≡ true)
unfolding after_badges
failed_parse-marks = (refl, refl)
