-- ===== src/Graph/Parser.antt =====
-- graph/entity.go, parseEntity, and graph/prop.go, parseProp, with the graph as a store. An Option
-- `none` means that the fuel ran out, which bounds the depth of the recursion through edges.
pub mod Frame
pub mod Undeclared
pub mod Depth
pub mod Targets
pub mod Progress
pub mod Links
pub mod Accepted
pub mod Sound
use protobuf_orm.Graph.Failure.{
  Cause, bad_options, scalar_edge, not_an_entity, unique_list, bad_fields, bad_index, bad_back,
  Failure, Failures, Outcome, one_failure, in_prop, in_name, failures, unless_failed,
}
use protobuf_orm.Graph.Finish.{accept_entity}
use protobuf_orm.Base.{
  ℕ, zero, suc, ◌+◌, String, List, [], ◌∷◌, ◌++◌, map, Option, none, some, str_eq, if◌then◌else◌,
}
use protobuf_orm.Base.Dict.{lookup}
use protobuf_orm.Base.Result.{Result, ok, err, ◌>>=◌}
use protobuf_orm.Proto.{FieldDescriptor, is_message_kind}
use protobuf_orm.Ormpb.Options.{EdgeOptions, IndexOptions, MessageOptions}
use protobuf_orm.Graph.Prop.{Field, Edge, Prop, field, edge, number}
use protobuf_orm.Graph.Entity.{fields, edges}
use protobuf_orm.Graph.Index.{ProtoIndex, IndexError, parse_index}
use protobuf_orm.Graph.Rpc.{FullNames, parse_rpcs}
use protobuf_orm.Graph.Parse.{
  PropError, Parsed, disabled_prop, parsed_field, parsed_edge, parse_options, FieldsError,
  check_fields, commit_key,
}
use protobuf_orm.Graph.Parse.Edges.{
  EdgeError, not_a_message, bad_target, repeated_unique, edge_of, BackError, find_back, commit_edge,
}
use protobuf_orm.Graph.Store.{
  PropSource, Message, IndexObject, Store, write_object, declare_entity, undeclare_entity,
  append_prop, change_edge,
}

-- what a function answers that may run out of fuel, and the store that it leaves
abbrev pub Run : Type 0 → Type 0
Run A = Option (A × Store)

-- one call after another
abbrev pub and_then : {A B : Type 0} → Run A → (A → Store → Run B) → Run B
and_then none k = none
and_then (some (x, s)) k = k x s

unfoldable pub find_message : List Message → String → Option Message
find_message [] name = none
find_message (m ∷ ms) name = if str_eq m.full_name name then some m else find_message ms name

-- what parseProp makes of the answer of parseEntity for a target
abbrev pub target_of : String → Outcome (Option ℕ) → Outcome ℕ
target_of name (err fs) = err (in_name name fs)
target_of name (ok none) = err (one_failure not_an_entity)
target_of name (ok (some a)) = ok a

abbrev pub prop_of_edge : Result (EdgeError Failures) (Edge ℕ) → Outcome (Option (Prop ℕ))
prop_of_edge (ok e) = ok (some (edge e))
prop_of_edge (err not_a_message) = err (one_failure scalar_edge)
prop_of_edge (err (bad_target fs)) = err fs
prop_of_edge (err repeated_unique) = err (one_failure unique_list)

-- `v.props = append(v.props, prop)`, where there is a prop
abbrev pub keep_prop : ℕ → Outcome (Option (Prop ℕ)) → Store → Store
keep_prop v (ok (some p)) s = append_prop v p s
keep_prop v (ok none) s = s
keep_prop v (err fs) s = s

-- The props of an entity. `rec` is parseEntity, and `messages` the messages that descriptors name;
-- one that is not among them is a placeholder, which has no options.
module _ (messages : List Message) (rec : Message → Store → Run (Outcome (Option ℕ))) where
  -- parseEntity of the message with this name
  unfoldable pub parse_target : String → Store → Run (Outcome ℕ)
  unfolding find_message
  parse_target name s = elim (find_message messages name) [
    | none ↦ some (err (one_failure not_an_entity), s)
    | some m ↦ and_then (rec m s) (λ r s'. some (target_of name r, s'))
  ]

  -- the target of an edge
  unfoldable pub resolve : String → Store → Run (Outcome ℕ)
  unfolding parse_target lookup
  resolve name s = elim (lookup name s.entities) [
    | none ↦ parse_target name s
    | some a ↦ some (ok a, s)
  ]

  -- an edge, whose target is looked for only if its kind is a message
  unfoldable pub parse_edge :
      FieldDescriptor → EdgeOptions → Store → Run (Outcome (Option (Prop ℕ)))
  unfolding resolve
  parse_edge mf oe s =
      if is_message_kind mf.kind
      then and_then (resolve mf.message s) (λ r s'. some (prop_of_edge (edge_of mf oe r), s'))
      else some (prop_of_edge (edge_of mf oe (err (one_failure scalar_edge))), s)

  unfoldable pub parse_parsed :
      FieldDescriptor → Result PropError Parsed → Store → Run (Outcome (Option (Prop ℕ)))
  unfolding parse_edge
  parse_parsed mf (err e) s = some (err (one_failure (bad_options e)), s)
  parse_parsed mf (ok disabled_prop) s = some (ok none, s)
  parse_parsed mf (ok (parsed_field o)) s =
      some (ok (some (field (record { source = mf; opts = o }))), s)
  parse_parsed mf (ok (parsed_edge oe)) s = parse_edge mf oe s

  -- parseProp
  unfoldable pub parse_prop : PropSource → Store → Run (Outcome (Option (Prop ℕ)))
  unfolding parse_parsed parse_options
  parse_prop p s = parse_parsed p.source (parse_options p.source p.field_opts p.edge_opts) s

  -- the loop over the fields of the message of the entity at `v`
  unfoldable pub parse_props : ℕ → List PropSource → Store → Run (List Failure)
  unfolding parse_prop
  parse_props v [] s = some ([], s)
  parse_props v (p ∷ ps) s = and_then (parse_prop p s) (λ r s1.
      and_then (parse_props v ps (keep_prop v r s1))
        (λ fs s2. some (failures p.source.name r ++ fs, s2)))

module _ (N : FullNames) where
  -- the deferred removal
  abbrev pub committed : Message → ℕ → Store → Outcome Store → Outcome (Option ℕ) × Store
  committed m v s (ok s') = (ok (some v), s')
  committed m v s (err fs) = (err fs, undeclare_entity m.full_name s)

  unfoldable pub finish_entity :
      Message → MessageOptions → ℕ → List Failure → Store → Outcome (Option ℕ) × Store
  unfolding accept_entity undeclare_entity
  finish_entity m o v [] s = committed m v s (accept_entity N m o v s)
  finish_entity m o v (f ∷ fs) s = (err (f, fs), undeclare_entity m.full_name s)

  module _ (messages : List Message) where
    -- parseEntity of an entity that is new to the graph
    unfoldable pub parse_new :
        (Message → Store → Run (Outcome (Option ℕ)))
        → Message
        → MessageOptions
        → Store
        → Run (Outcome (Option ℕ))
    unfolding parse_props declare_entity finish_entity
    parse_new rec m o s =
        and_then (parse_props messages rec s.next m.fields (declare_entity m.full_name s))
          (λ fs s'. some (finish_entity m o s.next fs s'))

    -- parseEntity of a message, whose options may say that it is no entity
    unfoldable pub parse_message :
        (Message → Store → Run (Outcome (Option ℕ))) → Message → Store → Run (Outcome (Option ℕ))
    unfolding parse_new
    parse_message rec m s = elim m.opts [
      | none ↦ some (ok none, s)
      | some o ↦ if o.disabled then some (ok none, s) else parse_new rec m o s
    ]

    -- parseEntity, to a depth
    unfoldable pub parse_entity : ℕ → Message → Store → Run (Outcome (Option ℕ))
    unfolding parse_message lookup
    parse_entity zero m s = none
    parse_entity (suc depth) m s = elim (lookup m.full_name s.entities) [
      | none ↦ parse_message (parse_entity depth) m s
      | some a ↦ some (ok (some a), s)
    ]
