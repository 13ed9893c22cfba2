-- ===== src/Graph/Parse/Edges.antt =====
-- graph/prop.go, parseProp, from where it knows that a prop is an edge, and graph/entity.go,
-- parseEntity, as far as it finds the inverse of an edge.
pub mod Sound
use protobuf_orm.Base.{
  ℤ, same_int, Bool, true, false, not, ◌&&◌, str_eq, List, Option, none, some, if◌then◌else◌,
}
use protobuf_orm.Base.Result.{Result, ok, err}
use protobuf_orm.Proto.{FieldDescriptor, is_repeated, is_message_kind}
use protobuf_orm.Ormpb.Options.{EdgeOptions, get_bool}
use protobuf_orm.Ormpb.Ref.{Ref}
use protobuf_orm.Graph.Prop.{Edge, Prop, field, edge, number, name}
use protobuf_orm.Graph.Entity.{find}

-- the refusals of an edge, where `E` are those of its target
pub data EdgeError (E : Type 0) : Type 0 where
  not_a_message : EdgeError E
  bad_target : E → EdgeError E
  repeated_unique : EdgeError E

-- the refusals of a back reference
pub data BackError : Type 0 where
  back_not_found back_name_not_matched back_not_an_edge back_unique : BackError

module _ {T : Type 0} where
  -- the cardinality check, and the edge
  unfoldable pub edge_to :
      FieldDescriptor → EdgeOptions → T → {E : Type 0} → Result (EdgeError E) (Edge T)
  edge_to mf oe target =
      if get_bool oe.unique && is_repeated mf.cardinality
      then err repeated_unique
      else ok (record { source = mf; opts = oe; target = target; inverse = none })

  -- the end of parseProp. `target` is what the graph has for the message's name, or what
  -- parseEntity makes of the message.
  unfoldable pub edge_of :
      {E : Type 0} → FieldDescriptor → EdgeOptions → Result E T → Result (EdgeError E) (Edge T)
  edge_of mf oe target =
      if not (is_message_kind mf.kind)
      then err not_a_message
      else elim target [ err e ↦ err (bad_target e) | ok t ↦ edge_to mf oe t ]

  -- the checks of the prop that a back reference of an edge names
  unfoldable pub check_back : Ref → Edge T → Prop T → Result BackError (Edge T)
  check_back back_ref e p =
      if not (str_eq (name p) back_ref.name) then err back_name_not_matched else elim p [
        | field f ↦ err back_not_an_edge
        | edge inverse ↦
            if get_bool inverse.opts.unique && is_repeated e.source.cardinality
            then err back_unique
            else ok inverse
      ]

  -- the search for the inverse of an edge, among the props of its target
  unfoldable pub find_back : List (Prop T) → Ref → Edge T → Result BackError (Edge T)
  find_back ps back_ref e = elim (find (λ p. same_int (ℤ.pos (number p)) back_ref.number) ps) [
    | none ↦ err back_not_found
    | some p ↦ check_back back_ref e p
  ]

  -- the test for a one-to-one relation
  abbrev pub is_one_to_one : Edge T → Edge T → Bool
  is_one_to_one inverse e =
      not (is_repeated inverse.source.cardinality) && not (is_repeated e.source.cardinality)

  -- the commit on the options of either of the two
  unfoldable pub commit_edge : Edge T → Edge T → Edge T → Edge T
  commit_edge inverse e x =
      if is_one_to_one inverse e
      then record x { opts = record x.opts { unique = some true } }
      else x
