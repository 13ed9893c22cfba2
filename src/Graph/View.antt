-- ===== src/Graph/View.antt =====
-- graph/entity.go and graph/edge.go: what the methods of a parsed entity show of the store.
pub mod Laws
use protobuf_orm.Base.{
  String, Bool, true, false, map, ◌++◌, str_eq, if◌then◌else◌, ℕ, ◌==◌, List, [], ◌∷◌, Option, none,
  some,
}
use protobuf_orm.Graph.Prop.{Field, Edge, is_unique, Prop, field, edge}
use protobuf_orm.Graph.Entity.{Target, Entity, fields, edges, find}
use protobuf_orm.Graph.Rpc.{FullNames}
use protobuf_orm.Graph.Store.{Object, Store, IndexObject}

-- the field that an entity's pointer to its key points at
unfoldable pub key_of : Object → Option Field
unfolding find fields
key_of o = elim o.key [ none ↦ none | some n ↦ find (λ f. f.source.number == n) (fields o.props) ]

-- an entity as its methods show it, through the pointers
module _ (N : FullNames) (s : Store) where
  unfoldable pub target_at : ℕ → Option Target
  unfolding key_of
  target_at a = elim (key_of (s.cell a)) [
    | none ↦ none
    | some k ↦
        some
          (record { full_name = (s.cell a).full_name; name = N.base (s.cell a).full_name; key = k })
  ]

  unfoldable pub prop_at : Prop ℕ → Option (Prop Target)
  unfolding target_at
  prop_at (field f) = some (field f)
  prop_at (edge e) = elim (target_at e.target) [
    | none ↦ none
    | some t ↦
        some (edge (record { source = e.source; opts = e.opts; target = t; inverse = e.inverse }))
  ]

  unfoldable pub props_at : List (Prop ℕ) → Option (List (Prop Target))
  props_at [] = some []
  props_at (p ∷ ps) = elim (prop_at p) [
    | none ↦ none
    | some q ↦ elim (props_at ps) [ none ↦ none | some qs ↦ some (q ∷ qs) ]
  ]

  unfoldable pub entity_at : ℕ → Option Entity
  unfolding target_at props_at
  entity_at a = elim (target_at a) [
    | none ↦ none
    | some t ↦ elim (props_at (s.cell a).props) [
      | none ↦ none
      | some ps ↦ some (record { full_name = t.full_name; name = t.name; key = t.key; props = ps })
    ]
  ]

-- Elem
pub data Elem : Type 0 where
  prop_elem : Prop ℕ → Elem
  index_elem : IndexObject → Elem

-- Elem.IsUnique
abbrev pub elem_is_unique : Elem → Bool
elem_is_unique (prop_elem p) = is_unique p
elem_is_unique (index_elem i) = i.opts.unique

-- protoEntity.Elems
unfoldable pub elems : Object → List Elem
elems o = map prop_elem o.props ++ map index_elem o.indexes

-- protoEntity.Keys, of these elems
unfoldable pub unique_elems : List Elem → List Elem
unique_elems [] = []
unique_elems (x ∷ xs) = let rest = unique_elems xs in if elem_is_unique x then x ∷ rest else rest

unfoldable pub keys : Object → List Elem
unfolding unique_elems elems
keys o = unique_elems (elems o)

-- the test of Reverse on an edge of the target
abbrev pub is_reverse : Edge ℕ → Edge ℕ → Bool
is_reverse e v = elim v.inverse [ none ↦ false | some n ↦ str_eq n e.source.full_name ]

-- protoEdge.Reverse
unfoldable pub reverse : Store → Edge ℕ → Option (Edge ℕ)
unfolding find edges
reverse s e = find (is_reverse e) (edges (s.cell e.target).props)
