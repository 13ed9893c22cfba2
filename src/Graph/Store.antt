-- ===== src/Graph/Store.antt =====
-- The objects of graph/graph.go and graph/entity.go that the parser makes and changes: a store of
-- entities by address, and a graph, which names some of them.
pub mod Frame
pub mod Complete
use protobuf_orm.Base.{ℕ, suc, ◌==◌, String, List, [], ◌∷◌, ◌++◌, Option, none, if◌then◌else◌}
use protobuf_orm.Base.Dict.{Dict, insert, erase}
use protobuf_orm.Proto.{FieldDescriptor}
use protobuf_orm.Ormpb.Options.{FieldOptions, EdgeOptions, IndexOptions, MessageOptions}
use protobuf_orm.Graph.Prop.{Edge, Prop, field, edge}
use protobuf_orm.Graph.Rpc.{RpcMap, no_rpcs}

-- a field of a message with its two extensions
pub record PropSource : Type 0 where
  pub source : FieldDescriptor
  pub field_opts : Option FieldOptions
  pub edge_opts : Option EdgeOptions

-- `protoreflect.MessageDescriptor`: what its methods answer, with the extension
pub record Message : Type 0 where
  pub full_name : String
  pub opts : Option MessageOptions
  pub fields : List PropSource

-- protoIndex: the props that it holds are pointers to the entity's, which go by their numbers
pub record IndexObject : Type 0 where
  pub opts : IndexOptions
  pub numbers : List ℕ

-- protoEntity. An edge holds the address of its target. The key is a pointer to one of the props
-- and goes by its number. No two fields of a message have one number.
pub record Object : Type 0 where
  pub full_name : String
  pub key : Option ℕ
  pub props : List (Prop ℕ)
  pub indexes : List IndexObject
  pub rpcs : RpcMap

-- the objects, and `Graph.Entities`: no object is at `next` or above
pub record Store : Type 0 where
  pub next : ℕ
  pub cell : ℕ → Object
  pub entities : Dict ℕ

abbrev pub new_object : String → Object
new_object name = record { full_name = name; key = none; props = []; indexes = []; rpcs = no_rpcs }

-- NewGraph, where nothing is allocated
abbrev pub new_graph : Store
new_graph = record { next = 0; cell = λ a. new_object ""; entities = [] }

-- *a = o
unfoldable pub write_object : ℕ → Object → Store → Store
write_object a o s = record s { cell = λ b. if a == b then o else s.cell b }

-- `v := &protoEntity{source: m}; g.Entities[m.FullName()] = v`
unfoldable pub declare_entity : String → Store → Store
unfolding write_object insert
declare_entity name s = record (write_object s.next (new_object name) s) {
  next = suc s.next;
  entities = insert name s.next s.entities;
}

-- `delete(g.Entities, m.FullName())`
unfoldable pub undeclare_entity : String → Store → Store
unfolding erase
undeclare_entity name s = record s { entities = erase name s.entities }

-- `v.props = append(v.props, prop)`
unfoldable pub append_prop : ℕ → Prop ℕ → Store → Store
unfolding write_object
append_prop v p s = write_object v (record (s.cell v) { props = (s.cell v).props ++ p ∷ [] }) s

-- a change of the edge with this number
unfoldable pub update_edge : ℕ → (Edge ℕ → Edge ℕ) → List (Prop ℕ) → List (Prop ℕ)
update_edge n f [] = []
update_edge n f (field x ∷ ps) = field x ∷ update_edge n f ps
update_edge n f (edge e ∷ ps) = edge (if e.source.number == n then f e else e) ∷ update_edge n f ps

-- the same of an edge of the entity at an address
unfoldable pub change_edge : ℕ → ℕ → (Edge ℕ → Edge ℕ) → Store → Store
unfolding write_object update_edge
change_edge a n f s =
    write_object a (record (s.cell a) { props = update_edge n f (s.cell a).props }) s
