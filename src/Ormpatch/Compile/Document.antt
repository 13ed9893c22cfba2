-- ===== src/Ormpatch/Compile/Document.antt =====
-- The recursion of ormpatch/compile.go over a document: Compile, delta, entry, container, targets.
use protobuf_orm.Base.{
  ℕ, ◌+◌, String, Bool, true, false, ◌&&◌, ◌||◌, not, List, [], ◌∷◌, Option, none, some, ltb,
  str_eq, if◌then◌else◌,
}
use protobuf_orm.Base.Result.{Result, ok, err}
use protobuf_orm.Base.Table
use protobuf_orm.Base.Table.{Table}
use protobuf_orm.Proto.Value.{Value, Items}
use protobuf_orm.Graph.Prop.{Prop, descriptor}
use protobuf_orm.Graph.Entity.{Target, Entity}
use protobuf_orm.Ormpatch.Document.{
  Document, Delta, Entries, Entry, Operation, OnMissing, Scope, Selector,
}
use protobuf_orm.Ormpatch.Errors.{
  At, root, sub, index, Error, format, unsupported, panicked, missing_field, missing_oneof,
  message_type_mismatch, too_deep, illegal_scope, duplicate_target, no_patch,
}
use protobuf_orm.Ormpatch.Library.{Library, Limits, whole_field}
use protobuf_orm.Ormpatch.Plan.{JsonOp, json_append, set_column, edit_json, Write, Plan}
use protobuf_orm.Ormpatch.Literal.{materialize}
use protobuf_orm.Ormpatch.State.{Compiler, new_compiler, M, pure, fail, lift, ◌>>=◌, ◌>>◌}
use protobuf_orm.Ormpatch.Compile.Writes.{resize, write}
use protobuf_orm.Ormpatch.Compile.Address.{
  Site, root_site, edge_site, map_site, list_site, walk, enter, Ident, ident, same_ident,
}
use protobuf_orm.Ormpatch.Compile.Targets.{one, clear_op}

-- maxNest
abbrev pub max_nest : ℕ
max_nest = 64

-- `v.List()`, which panics at another value
unfoldable pub items_of : Value → Result Error Items
items_of (Value.list is) = ok is
items_of v = err panicked

unfoldable pub append_ops : Items → At → List JsonOp
append_ops Items.nil at = []
append_ops (Items.cons v rest) at =
    record { kind = json_append; key = none; index = none; value = some v; at = at }
    ∷ append_ops rest at

abbrev pub contains_ident : Ident → List Ident → Bool
contains_ident id [] = false
contains_ident id (j ∷ js) = same_ident j id || contains_ident id js

module _ (L : Library) (ent : Entity) where
  -- the switch of `container` on the operation, at a map or a list; `nested` compiles the delta of
  -- a `nest` in the container that it is handed
  unfoldable pub collection_op :
      Operation → Bool → Prop Target → At → (At → M (Unit {0})) → M (Unit {0})
  collection_op Operation.remove is_list v at nested = do
    resize v at
    write v at (edit_json (clear_op at ∷ []))
  collection_op (Operation.assign x) is_list v at nested = do
    pv ← lift (materialize L x (descriptor v) whole_field (sub (sub at "assign") "value"))
    write v at (set_column pv)
  collection_op (Operation.insert x) is_list v at nested =
      if not is_list then fail (unsupported at) else do
        pv ← lift (materialize L x (descriptor v) whole_field (sub (sub at "insert") "value"))
        is ← lift (items_of pv)
        write v at (edit_json (append_ops is at))
  collection_op (Operation.nest d) is_list v at nested = nested (sub (sub at "nest") "delta")
  collection_op (Operation.test want) is_list v at nested = fail (unsupported at)
  collection_op Operation.move is_list v at nested = fail (format illegal_scope at)
  collection_op Operation.copy is_list v at nested = fail (format illegal_scope at)
  collection_op Operation.unset is_list v at nested = fail (format missing_oneof at)

  -- compiler.container
  unfoldable pub container : Operation → Site → At → (Site → At → M (Unit {0})) → M (Unit {0})
  container op root_site at nested = fail (unsupported at)
  container op (edge_site ed) at nested = fail (unsupported at)
  container op (map_site v) at nested = collection_op op false v at (nested (map_site v))
  container op (list_site v) at nested = collection_op op true v at (nested (list_site v))

  -- the loop of `targets`, from selector `i` on, with the locations that were named before
  unfoldable pub select :
      Operation → OnMissing → Site → At → List Selector → ℕ → List Ident → M (Unit {0})
  select op miss s at [] i seen = pure tt
  select op miss s at (sel ∷ sels) i seen =
      let at' = index at "selectors" i in
      let id = ident L ent s sel at' in
      let rest = select op miss s at sels (i + 1) (id ∷ seen) in
      if contains_ident id seen
      then fail (format duplicate_target at')
      else one L ent op miss s sel at' >> rest

  -- compiler.targets
  unfoldable pub targets :
      Operation → OnMissing → List Selector → Site → At → (Site → At → M (Unit {0})) → M (Unit {0})
  targets Operation.move miss sels s at nested = fail (unsupported (sub at "targets"))
  targets Operation.copy miss sels s at nested = fail (unsupported (sub at "targets"))
  targets (Operation.nest d) miss (sel ∷ []) s at nested = do
    inner ← lift (enter L ent s sel (index (sub at "targets") "selectors" 0))
    nested inner (sub (sub (sub at "targets") "nest") "delta")
  targets (Operation.nest d) miss sels s at nested = fail (unsupported (sub at "targets"))
  targets op miss sels s at nested = select op miss s (sub at "targets") sels 0 []

  -- the switch of `entry` on the scope
  unfoldable pub scope_op :
      Scope → OnMissing → Operation → Site → At → (Site → At → M (Unit {0})) → M (Unit {0})
  scope_op Scope.container miss op s at nested = container op s at nested
  scope_op (Scope.targets sels) miss op s at nested = targets op miss sels s at nested
  scope_op Scope.unset miss op s at nested = fail (format missing_oneof at)

  unfoldable mutual
    -- compiler.delta
    pub delta : Delta → Site → At → ℕ → M (Unit {0})
    delta (Delta.delta es) s at depth =
        let rest = entries es s at 0 depth in
        if ltb max_nest depth then fail (format too_deep at) else rest

    -- the loop of `delta`, from entry `i` on
    pub entries : Entries → Site → At → ℕ → ℕ → M (Unit {0})
    entries Entries.end s at i depth = pure tt
    entries (Entries.cons e es) s at i depth =
        entry e s (index at "entries" i) depth >> entries es s at (i + 1) depth

    -- compiler.entry
    pub entry : Entry → Site → At → ℕ → M (Unit {0})
    entry (Entry.entry path scope miss op) s at depth = do
      s' ← lift (walk L ent s path 0 (sub at "path"))
      scope_op scope miss op s' at (nested op depth)

    -- `c.delta(e.GetNest().GetDelta(), …, depth+1)`
    pub nested : Operation → ℕ → Site → At → M (Unit {0})
    nested (Operation.nest d) depth s at = delta d s at (depth + 1)
    nested op depth s at = pure tt

-- the loop that collects the writes in order; `none` in the map is a nil pointer
unfoldable pub collect : List ℕ → Table Write → Result Error (List Write)
collect [] writes = ok []
collect (n ∷ ns) writes =
    let rest = collect ns writes in
    elim (Table.lookup n writes) [
      | none ↦ err panicked
      | some w ↦ elim rest [ ok ws ↦ ok (w ∷ ws) | err e ↦ err e ]
    ]

abbrev pub plan_of : Entity → Result Error (Unit {0} × Compiler) → Result Error Plan
plan_of e (err x) = err x
plan_of e (ok (_, c)) = elim (collect c.order c.writes) [
  | err x ↦ err x
  | ok ws ↦ ok (record { entity = e; tests = c.tests; writes = ws })
]

-- `t != "" && FullName(t) != e.FullName()`
abbrev pub is_for_another : String → Entity → Bool
is_for_another t e = not (str_eq t "") && not (str_eq t e.full_name)

module _ (L : Library) where
  -- CompileWith once the document is normalized
  unfoldable pub compile_normal : Entity → Document → Result Error Plan
  compile_normal e q =
      if is_for_another q.message_type e
      then err (format message_type_mismatch (root "message_type"))
      else plan_of e (delta L e q.delta root_site (root "delta") 0 new_compiler)

  -- CompileWith; a nil entity and a nil document are `none`
  unfoldable pub compile_with : Option Entity → Option Document → Limits → Result Error Plan
  compile_with none p lim = err (format missing_field (root ""))
  compile_with (some e) none lim = err no_patch
  compile_with (some e) (some p) lim = elim (L.normalize_with p lim) [
    | err x ↦ err x
    | ok q ↦ compile_normal e q
  ]

  -- Compile
  unfoldable pub compile : Option Entity → Option Document → Result Error Plan
  compile e p = compile_with e p L.default_limits
