-- ===== src/Ormpatch/Compile/Targets.antt =====
-- The methods of `compiler` that handle one target: atColumn, atEdge, atMapEntry, atListElem.
use protobuf_orm.Base.{not, [], ◌∷◌, Option, none, some, ℤ, ◌==◌, if◌then◌else◌}
use protobuf_orm.Proto.Value.{MapKey, Value}
use protobuf_orm.Graph.Prop.{
  Prop, Edge, descriptor, edge_is_nullable, is_nullable, is_edge, is_collection,
}
use protobuf_orm.Graph.Entity.{Target, Entity}
use protobuf_orm.Ormpatch.Document.{Key, Selector, OnMissing, Operation}
use protobuf_orm.Ormpatch.Errors.{
  At, format, unsupported, illegal_arm, illegal_selector, vacant_target, missing_oneof,
}
use protobuf_orm.Ormpatch.Library.{Library, whole_field, element, map_value}
use protobuf_orm.Ormpatch.Plan.{
  JsonOp, json_set, json_remove, json_append, json_clear, set_column, clear_column, set_edge,
  clear_edge, edit_json, exists,
}
use protobuf_orm.Ormpatch.Literal.{materialize}
use protobuf_orm.Ormpatch.Props.{resolve}
use protobuf_orm.Ormpatch.State.{M, pure, fail, lift, ◌>>=◌, ◌>>◌}
use protobuf_orm.Ormpatch.Compile.Writes.{
  mutable, resize, write, addressable, add_test, test, test_absent,
}
use protobuf_orm.Ormpatch.Compile.Address.{
  Site, root_site, edge_site, map_site, list_site, field_key?,
}

-- The operations of an EditJSON that the methods write out.
abbrev pub clear_op : At → JsonOp
clear_op at = record { kind = json_clear; key = none; index = none; value = none; at = at }

abbrev pub set_entry_op : MapKey → Value → At → JsonOp
set_entry_op mk pv at = record {
  kind = json_set;
  key = some mk;
  index = none;
  value = some pv;
  at = at;
}

abbrev pub remove_entry_op : MapKey → At → JsonOp
remove_entry_op mk at = record {
  kind = json_remove;
  key = some mk;
  index = none;
  value = none;
  at = at;
}

abbrev pub set_element_op : ℤ → Value → At → JsonOp
set_element_op idx pv at = record {
  kind = json_set;
  key = none;
  index = some idx;
  value = some pv;
  at = at;
}

abbrev pub remove_element_op : ℤ → At → JsonOp
remove_element_op idx at = record {
  kind = json_remove;
  key = none;
  index = some idx;
  value = none;
  at = at;
}

abbrev pub append_op : Value → At → JsonOp
append_op pv at = record { kind = json_append; key = none; index = none; value = some pv; at = at }

-- `if e.GetOnMissing() != ON_MISSING_SKIP { c.tests = append(…) }`: the guard against a miss
abbrev pub guard_miss : OnMissing → Prop Target → Option MapKey → Option ℤ → At → M (Unit {0})
guard_miss OnMissing.skip v key idx at = pure tt
guard_miss OnMissing.fail v key idx at =
    add_test (record { prop = v; key = key; index = idx; want = exists; at = at })

-- the removal of a column, where it is not immutable
unfoldable pub remove_column : Prop Target → At → M (Unit {0})
remove_column (Prop.edge ed) at =
    if not (edge_is_nullable ed) then fail (unsupported at) else write (Prop.edge ed) at clear_edge
remove_column v at =
    if is_collection v
    then (do resize v at; write v at (edit_json (clear_op at ∷ [])))
    else if not (is_nullable v)
    then fail (unsupported at)
    else write v at clear_column

module _ (L : Library) where
  -- the switch of `atColumn` on the operation, at a column that is there
  unfoldable pub column_op : Operation → Prop Target → At → M (Unit {0})
  column_op (Operation.test want) v at = test L want v none none at
  column_op Operation.remove v at = do lift (mutable v at); remove_column v at
  column_op (Operation.assign x) v at = do
    lift (mutable v at)
    if is_edge v then fail (unsupported at) else do
      pv ← lift (materialize L x (descriptor v) whole_field at)
      write v at (set_column pv)
  column_op (Operation.insert x) v at = fail (unsupported at)
  column_op op v at = fail (format missing_oneof at)

  -- `atColumn` at a field that the entity does not declare
  unfoldable pub vacant_column : Operation → OnMissing → At → M (Unit {0})
  vacant_column (Operation.test want) miss at = lift (test_absent want at)
  vacant_column op OnMissing.skip at = pure tt
  vacant_column op OnMissing.fail at = fail (format vacant_target at)

  -- compiler.atColumn
  unfoldable pub at_column : Entity → Operation → OnMissing → Selector → At → M (Unit {0})
  at_column ent op miss (Selector.key (Key.field f)) at = do
    found ← lift (resolve L ent f at)
    elim found [ none ↦ vacant_column op miss at | some v ↦ column_op op v at ]
  at_column ent op miss Selector.oneof_member at = fail (unsupported at)
  at_column ent op miss sel at = fail (format illegal_arm at)

  -- the switch of `atEdge` on the operation, at the key of the target
  unfoldable pub edge_op : Operation → Edge Target → At → M (Unit {0})
  edge_op (Operation.test want) ed at = test L want (Prop.edge ed) none none at
  edge_op (Operation.assign x) ed at = do
    lift (mutable (Prop.edge ed) at)
    pv ← lift (materialize L x ed.target.key.source whole_field at)
    write (Prop.edge ed) at (set_edge pv)
  edge_op op ed at = fail (unsupported at)

  -- compiler.atEdge
  unfoldable pub at_edge : Operation → Edge Target → Selector → At → M (Unit {0})
  at_edge op ed sel at = elim (field_key? sel) [
    | none ↦ fail (format illegal_arm at)
    | some f ↦ do
      found ← lift (L.resolve_field ed.target.full_name f at)
      elim found [
        | none ↦ fail (format vacant_target at)
        | some fd ↦
            if fd.number == ed.target.key.source.number
            then edge_op op ed at
            else fail (unsupported at)
      ]
  ]

  -- the switch of `atMapEntry` at one key
  unfoldable pub map_entry_op : Operation → OnMissing → Prop Target → MapKey → At → M (Unit {0})
  map_entry_op (Operation.test want) miss v mk at = test L want v (some mk) none at
  map_entry_op (Operation.assign x) miss v mk at = do
    lift (mutable v at)
    pv ← lift (materialize L x (descriptor v) map_value at)
    write v at (edit_json (set_entry_op mk pv at ∷ []))
  map_entry_op Operation.remove miss v mk at = do
    lift (mutable v at)
    guard_miss miss v (some mk) none at
    write v at (edit_json (remove_entry_op mk at ∷ []))
  map_entry_op (Operation.insert x) miss v mk at = fail (unsupported at)
  map_entry_op op miss v mk at = fail (format missing_oneof at)

  -- compiler.atMapEntry
  unfoldable pub at_map_entry : Operation → OnMissing → Prop Target → Selector → At → M (Unit {0})
  at_map_entry Operation.remove miss v Selector.every_entry at = do
    lift (mutable v at)
    resize v at
    write v at (edit_json (clear_op at ∷ []))
  at_map_entry op miss v Selector.every_entry at = fail (unsupported at)
  at_map_entry op miss v (Selector.key (Key.map_key k)) at = do
    mk ← lift (L.map_key_for k (descriptor v) at)
    map_entry_op op miss v mk at
  at_map_entry op miss v sel at = fail (format illegal_arm at)

  -- the switch of `atListElem` at one index
  unfoldable pub list_elem_op : Operation → OnMissing → Prop Target → ℤ → At → M (Unit {0})
  list_elem_op (Operation.test want) miss v idx at = test L want v none (some idx) at
  list_elem_op (Operation.assign x) miss v idx at = do
    lift (mutable v at)
    guard_miss miss v none (some idx) at
    pv ← lift (materialize L x (descriptor v) element at)
    write v at (edit_json (set_element_op idx pv at ∷ []))
  list_elem_op Operation.remove miss v idx at = do
    lift (mutable v at)
    guard_miss miss v none (some idx) at
    resize v at
    write v at (edit_json (remove_element_op idx at ∷ []))
  list_elem_op (Operation.insert x) miss v idx at = fail (unsupported at)
  list_elem_op op miss v idx at = fail (format missing_oneof at)

  -- the end of a list
  unfoldable pub list_end_op : Operation → Prop Target → At → M (Unit {0})
  list_end_op (Operation.insert x) v at = do
    lift (mutable v at)
    pv ← lift (materialize L x (descriptor v) element at)
    resize v at
    write v at (edit_json (append_op pv at ∷ []))
  list_end_op op v at = fail (format illegal_selector at)

  -- compiler.atListElem
  unfoldable pub at_list_elem : Operation → OnMissing → Prop Target → Selector → At → M (Unit {0})
  at_list_elem op miss v Selector.append at = list_end_op op v at
  at_list_elem op miss v Selector.range at = fail (unsupported at)
  at_list_elem op miss v (Selector.key (Key.index idx)) at = do
    addressable v idx at
    list_elem_op op miss v idx at
  at_list_elem op miss v sel at = fail (format illegal_arm at)

  -- compiler.one
  unfoldable pub one : Entity → Operation → OnMissing → Site → Selector → At → M (Unit {0})
  one ent op miss root_site sel at = at_column ent op miss sel at
  one ent op miss (edge_site ed) sel at = at_edge op ed sel at
  one ent op miss (map_site v) sel at = at_map_entry op miss v sel at
  one ent op miss (list_site v) sel at = at_list_elem op miss v sel at
