-- ===== src/Ormpatch/Compile/Address.antt =====
-- The methods of `compiler` that resolve an address without touching the state: walk, enter, ident.
use protobuf_orm.Base.{
  ℕ, ◌+◌, Bool, true, false, List, [], ◌∷◌, Option, none, some, ℤ, ◌==◌, if◌then◌else◌,
}
use protobuf_orm.Base.Result.{Result, ok, err, ◌>>=◌}
use protobuf_orm.Proto.Value.{MapKey, same_key, same_index}
use protobuf_orm.Graph.Prop.{Prop, Edge, number, descriptor, is_map, is_list}
use protobuf_orm.Graph.Entity.{Target, Entity}
use protobuf_orm.Ormpatch.Document.{Key, Selector, FieldRef}
use protobuf_orm.Ormpatch.Errors.{
  At, sub, index, Error, format, unsupported, illegal_arm, path_not_reached,
}
use protobuf_orm.Ormpatch.Library.{Library}
use protobuf_orm.Ormpatch.Props.{resolve}

-- site: the container that an entry addresses
pub data Site : Type 0 where
  root_site : Site
  edge_site : Edge Target → Site
  map_site : Prop Target → Site
  list_site : Prop Target → Site

-- the switch of `walk` and of `enter` on the prop that a key names
unfoldable pub site_of : Prop Target → At → Result Error Site
site_of v at =
    if is_map v
    then ok (map_site v)
    else if is_list v
    then ok (list_site v)
    else elim v [ Prop.edge ed ↦ ok (edge_site ed) | Prop.field f ↦ err (unsupported at) ]

-- sel.GetKey().GetField(), where the selector is a field key
abbrev pub field_key? : Selector → Option FieldRef
field_key? (Selector.key (Key.field f)) = some f
field_key? _ = none

module _ (L : Library) (ent : Entity) where
  -- one round of the loop of `walk`
  unfoldable pub walk_step : Site → Key → At → Result Error Site
  walk_step root_site (Key.field f) at = do
    found ← resolve L ent f (sub at "field")
    elim found [ none ↦ err (format path_not_reached (sub at "field")) | some v ↦ site_of v at ]
  walk_step root_site seg at = err (format path_not_reached at)
  walk_step s seg at = err (unsupported at)

  -- compiler.walk, from segment `i` on
  unfoldable pub walk : Site → List Key → ℕ → At → Result Error Site
  walk s [] i at = ok s
  walk s (seg ∷ segs) i at = do
    s' ← walk_step s seg (index at "segments" i)
    walk s' segs (i + 1) at

  -- compiler.enter
  unfoldable pub enter : Site → Selector → At → Result Error Site
  enter root_site sel at = elim (field_key? sel) [
    | none ↦ err (format illegal_arm at)
    | some f ↦ do
      found ← resolve L ent f at
      elim found [ none ↦ err (format path_not_reached at) | some v ↦ site_of v at ]
  ]
  enter s sel at = err (unsupported at)

-- The texts that `ident` returns: "", "f%d", "every", "k%v", "append" and "i%d". The keys of one
-- column have one type, so two of its texts are equal exactly when the keys are.
pub data Ident : Type 0 where
  nowhere : Ident
  column : ℕ → Ident
  every : Ident
  map_entry : MapKey → Ident
  appended : Ident
  list_element : ℤ → Ident

unfoldable pub same_ident : Ident → Ident → Bool
same_ident nowhere nowhere = true
same_ident (column m) (column n) = m == n
same_ident every every = true
same_ident (map_entry j) (map_entry k) = same_key j k
same_ident appended appended = true
same_ident (list_element i) (list_element j) = same_index i j
same_ident _ _ = false

module _ (L : Library) (ent : Entity) where
  -- the case of `ident` at the root and at an edge
  abbrev column_ident : Selector → At → Ident
  column_ident sel at = elim (field_key? sel) [
    | none ↦ nowhere
    | some f ↦ elim (resolve L ent f at) [
      | ok found ↦ elim found [ none ↦ nowhere | some v ↦ column (number v) ]
      | err e ↦ nowhere
    ]
  ]

  abbrev map_ident : Prop Target → Selector → At → Ident
  map_ident v Selector.every_entry at = every
  map_ident v (Selector.key (Key.map_key k)) at = elim (L.map_key_for k (descriptor v) at) [
    | ok mk ↦ map_entry mk
    | err e ↦ nowhere
  ]
  map_ident v sel at = nowhere

  abbrev list_ident : Selector → Ident
  list_ident Selector.append = appended
  list_ident (Selector.key (Key.index i)) = list_element i
  list_ident sel = nowhere

  -- compiler.ident
  unfoldable pub ident : Site → Selector → At → Ident
  ident root_site sel at = column_ident sel at
  ident (edge_site ed) sel at = column_ident sel at
  ident (map_site v) sel at = map_ident v sel at
  ident (list_site v) sel at = list_ident sel
