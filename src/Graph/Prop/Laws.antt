-- ===== src/Graph/Prop/Laws.antt =====
-- What the predicates of a prop have to do with one another.
use protobuf_orm.Base.{true, false, ◌≡◌, ◌⊎◌, ◌↔◌, arith}
use protobuf_orm.Proto.{is_repeated}
use protobuf_orm.Graph.Prop.{Prop, field, edge, descriptor, has_default, is_nullable, is_optional}

module _ {T : Type 0} where
  -- A prop may be left out when its entity is created exactly when it is repeated, is nullable or
  -- has a default, and a repeated prop is never nullable.
  is_optional_iff :
      (p : Prop T)
      → ((is_optional p ≡ true) ↔ (
          (is_repeated (descriptor p).cardinality ≡ true)
          ⊎ (is_nullable p ≡ true)
          ⊎ (has_default p ≡ true)))
        × ((is_repeated (descriptor p).cardinality ≡ false) ⊎ (is_nullable p ≡ false))
  unfolding is_optional is_nullable
  is_optional_iff (field f) = ground arith
  is_optional_iff (edge e) = ground arith
