-- ===== src/Graph/Entity.antt =====
-- graph/entity.go: an entity's props in order, and what is looked up among them.
use protobuf_orm.Base.{String, Bool, List, [], ◌∷◌, Option, none, some, if◌then◌else◌}
use protobuf_orm.Graph.Prop.{Field, Edge, Prop, field, edge, is_version_field, is_erased_field}

-- What `edge.Target()` answers, as far as it is asked: the entity's names and its key. The
-- descriptor of the entity's message goes by its full name.
pub record Target : Type 0 where
  pub full_name : String
  pub name : String
  pub key : Field

-- The interface `Entity`
pub record Entity : Type 0 where
  pub full_name : String
  pub name : String
  pub key : Field
  pub props : List (Prop Target)

module _ {T : Type 0} where
  -- protoEntity.Fields
  unfoldable pub fields : List (Prop T) → List Field
  fields [] = []
  fields (field f ∷ ps) = f ∷ fields ps
  fields (edge e ∷ ps) = fields ps

  -- protoEntity.Edges
  unfoldable pub edges : List (Prop T) → List (Edge T)
  edges [] = []
  edges (field f ∷ ps) = edges ps
  edges (edge e ∷ ps) = e ∷ edges ps

-- iters.Find (internal/iters/find.go)
unfoldable pub find {ℓ} : {A : Type ℓ} → (A → Bool) → List A → Option A
find f [] = none
find f (v ∷ it) = if f v then some v else find f it

module _ {T : Type 0} where
  -- protoEntity.GetVersionField, protoEntity.GetErasedField
  unfoldable pub get_version_field : List (Prop T) → Option Field
  unfolding find fields
  get_version_field ps = find is_version_field (fields ps)

  unfoldable pub get_erased_field : List (Prop T) → Option Field
  unfolding find fields
  get_erased_field ps = find is_erased_field (fields ps)
