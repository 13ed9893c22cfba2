-- ===== src/Ormpatch/Compile/Suits.antt =====
-- What is known where a method of the compiler (ormpatch/compile.go) writes a column or records a
-- test.
use protobuf_orm.Base.{
  ◌≤◌, not, ◌≡◌, ◌⊎◌, true, false, Bool-cases, Option-cases, ltb, inl, inr, Option, none, some, ℤ,
  All, arith,
}
use protobuf_orm.Base.Table
use protobuf_orm.Base.Result.{ok, err}
use protobuf_orm.Graph.Prop.{
  Prop, edge, is_immutable, is_version, number, is_edge, is_list, is_map, is_nullable,
  is_collection, Edge, edge_is_nullable,
}
use protobuf_orm.Graph.Entity.{Target, Entity}
use protobuf_orm.Ormpatch.Errors.{At, unsupported}
use protobuf_orm.Ormpatch.Plan.{
  Op, set_column, clear_column, set_edge, clear_edge, edit_json, TestWant, equal,
}
use protobuf_orm.Ormpatch.Literal.{check_orm_value}
use protobuf_orm.Ormpatch.Props.{index_props}
use protobuf_orm.Ormpatch.State.{Compiler, ◌>>=◌}
use protobuf_orm.Ormpatch.Compile.Writes.{mutable, addressable, max_list_index}
use protobuf_orm.Ormpatch.Compile.Address.{Site, root_site, edge_site, map_site, list_site}

-- An index, if there is one, is a position that the engine addresses.
abbrev pub IndexInRange : Option ℤ → Type 0
IndexInRange none = Unit
IndexInRange (some (ℤ.pos n)) = n ≤ max_list_index
IndexInRange (some (ℤ.negsuc n)) = ⊥

-- The prop is one that the schema lets a document write.
abbrev pub IsWritable : Prop Target → Type 0
IsWritable v = (is_immutable v ≡ false) × (is_version v ≡ false)

-- The operation is one that the column of the prop can take.
abbrev pub Suits : Prop Target → Op → Type 0
Suits v (set_column x) = (is_edge v ≡ false) ⊎ (is_list v ≡ true)
Suits v clear_column = (is_edge v ≡ false) × (is_nullable v ≡ true)
Suits v (set_edge k) = is_edge v ≡ true
Suits v clear_edge = (is_edge v ≡ true) × (is_nullable v ≡ true)
Suits v (edit_json js) = (is_collection v ≡ true) × All (λ j. IndexInRange j.index) js

-- The value of a test passed the check of the ORM's type.
abbrev pub WantChecked : Prop Target → At → TestWant → Type 0
WantChecked v at (equal x) = check_orm_value v x at ≡ ok tt
WantChecked v at _ = Unit

-- The prop is the one that the entity's index holds at its number.
abbrev pub IsColumn : Entity → Prop Target → Type 0
IsColumn ent v = Table.lookup (number v) (index_props ent) ≡ some v

-- The prop of a site is a column, and that of a collection's site is a collection.
abbrev pub IsSound : Entity → Site → Type 0
IsSound ent root_site = Unit
IsSound ent (edge_site ed) = IsColumn ent (edge ed)
IsSound ent (map_site v) = (IsColumn ent v) × (is_map v ≡ true)
IsSound ent (list_site v) = (IsColumn ent v) × (is_list v ≡ true)

pub mutable-IsWritable :
    (v : Prop Target) (at : At) {u : Unit {0}} → mutable v at ≡ ok u → IsWritable v
unfolding mutable
mutable-IsWritable v at h = ground arith

-- `addressable` leaves the state alone, and passes only an index in range.
pub addressable-cases :
    (v : Prop Target) (idx : ℤ) (at : At) (c : Compiler)
    → ((addressable v idx at c ≡ ok (tt, c)) × IndexInRange (some idx))
      ⊎ (addressable v idx at c ≡ err (unsupported at))
unfolding addressable ◌>>=◌
addressable-cases v (ℤ.negsuc n) at c = elim (Option-cases (Table.lookup (number v) c.resized)) [
  | inl e ↦ inr (rw e)
  | inr (by, e) ↦ inr (rw e)
]
addressable-cases v (ℤ.pos n) at c = elim (Option-cases (Table.lookup (number v) c.resized)) [
  | inl e ↦ elim (Bool-cases (ltb max_list_index n)) [
    | inl big ↦ inr (rw (e, big))
    | inr small ↦ inl (rw (e, small), ground arith)
  ]
  | inr (by, e) ↦ inr (rw e)
]

pub edge-Suits : (ed : Edge Target) → not (edge_is_nullable ed) ≡ false → Suits (edge ed) clear_edge
unfolding is_nullable
edge-Suits ed e = ground arith
