-- ===== src/Ormpatch/Compile/Elements.antt =====
-- An induction over the methods of the compiler (ormpatch/compile.go) that handle an entry of a map
-- or an element of a list.
use protobuf_orm.Base.{◌≡◌, true, [], ◌∷◌, none, some, ℤ, arith}
use protobuf_orm.Graph.Prop.{Prop, is_collection}
use protobuf_orm.Graph.Entity.{Target, Entity}
use protobuf_orm.Ormpatch.Document.{Key, Selector, OnMissing, Operation}
use protobuf_orm.Proto.Value.{MapKey}
use protobuf_orm.Ormpatch.Errors.{At}
use protobuf_orm.Ormpatch.Library.{Library}
use protobuf_orm.Ormpatch.Plan.{Op, edit_json, Test}
use protobuf_orm.Ormpatch.State.{Compiler}
use protobuf_orm.Ormpatch.State.Keeps.{Keeps, Keeps-fail, Keeps-lift, Keeps-bind}
use protobuf_orm.Ormpatch.Compile.Writes.{resize, write, add_test}
use protobuf_orm.Ormpatch.Compile.Address.{Site, root_site, edge_site, map_site, list_site}
use protobuf_orm.Ormpatch.Compile.Targets.{
  map_entry_op, at_map_entry, list_elem_op, list_end_op, at_list_elem, one, clear_op, set_entry_op,
  remove_entry_op, set_element_op, remove_element_op, append_op,
}
use protobuf_orm.Ormpatch.Compile.Suits.{
  IndexInRange, IsColumn, IsWritable, Suits, IsSound, WantChecked,
}
use protobuf_orm.Ormpatch.Compile.Calls.{
  mutable-Keeps, addressable-Keeps, guard_miss-Keeps, test-Keeps, at_column-Keeps, at_edge-Keeps,
}

module _ (L : Library) (ent : Entity) (P : Compiler → Type 0)
    (keeps_write : (v : Prop Target) (at : At) (op : Op)
      → IsColumn ent v
      → IsWritable v
      → Suits v op
      → Keeps P (write v at op))
    (keeps_resize : (v : Prop Target) (at : At) → Keeps P (resize v at))
    (keeps_test : (t : Test)
      → IsColumn ent t.prop
      → IndexInRange t.index
      → WantChecked t.prop t.at t.want
      → Keeps P (add_test t)) where
  map_entry_op-Keeps :
      (op : Operation) (miss : OnMissing) (v : Prop Target) (mk : MapKey) (at : At)
      → (IsColumn ent v) × (is_collection v ≡ true)
      → Keeps P (map_entry_op L op miss v mk at)
  unfolding map_entry_op
  map_entry_op-Keeps (Operation.test want) miss v mk at c =
      test-Keeps L ent P keeps_write keeps_resize keeps_test want v (some mk) none at c.0 tt
  map_entry_op-Keeps (Operation.assign x) miss v mk at c =
      mutable-Keeps L ent P keeps_write keeps_resize keeps_test v at _ λ h u.
        Keeps-bind _ _ (Keeps-lift _)
          (λ pv. keeps_write v at (edit_json (set_entry_op mk pv at ∷ [])) c.0 h (c.1, (tt, tt)))
  map_entry_op-Keeps Operation.remove miss v mk at c =
      mutable-Keeps L ent P keeps_write keeps_resize keeps_test v at _ λ h u.
        Keeps-bind _ _
          (guard_miss-Keeps L ent P keeps_write keeps_resize keeps_test miss v (some mk) none at c.0
            tt)
          (λ u'. keeps_write v at (edit_json (remove_entry_op mk at ∷ [])) c.0 h (c.1, (tt, tt)))
  map_entry_op-Keeps _ miss v mk at c = Keeps-fail _

  at_map_entry-Keeps :
      (op : Operation) (miss : OnMissing) (v : Prop Target) (sel : Selector) (at : At)
      → (IsColumn ent v) × (is_collection v ≡ true)
      → Keeps P (at_map_entry L op miss v sel at)
  unfolding at_map_entry
  at_map_entry-Keeps Operation.remove miss v Selector.every_entry at c =
      mutable-Keeps L ent P keeps_write keeps_resize keeps_test v at _ λ h u.
        Keeps-bind _ _ (keeps_resize v at)
          (λ u'. keeps_write v at (edit_json (clear_op at ∷ [])) c.0 h (c.1, (tt, tt)))
  at_map_entry-Keeps op miss v (Selector.key (Key.map_key k)) at c =
      Keeps-bind _ _ (Keeps-lift _) (λ mk. map_entry_op-Keeps op miss v mk at c)
  at_map_entry-Keeps _ miss v Selector.every_entry at c = Keeps-fail _
  at_map_entry-Keeps _ miss v (Selector.key _) at c = Keeps-fail _
  at_map_entry-Keeps _ miss v _ at c = Keeps-fail _

  list_elem_op-Keeps :
      (op : Operation) (miss : OnMissing) (v : Prop Target) (idx : ℤ) (at : At)
      → (IsColumn ent v) × (is_collection v ≡ true)
      → IndexInRange (some idx)
      → Keeps P (list_elem_op L op miss v idx at)
  unfolding list_elem_op
  list_elem_op-Keeps (Operation.test want) miss v idx at c r =
      test-Keeps L ent P keeps_write keeps_resize keeps_test want v none (some idx) at c.0 r
  list_elem_op-Keeps (Operation.assign x) miss v idx at c r =
      mutable-Keeps L ent P keeps_write keeps_resize keeps_test v at _ λ h u.
        Keeps-bind _ _
          (guard_miss-Keeps L ent P keeps_write keeps_resize keeps_test miss v none (some idx) at
            c.0 r)
          λ u'. Keeps-bind _ _ (Keeps-lift _) (λ pv.
            keeps_write v at (edit_json (set_element_op idx pv at ∷ [])) c.0 h (c.1, (r, tt)))
  list_elem_op-Keeps Operation.remove miss v idx at c r =
      mutable-Keeps L ent P keeps_write keeps_resize keeps_test v at _ λ h u.
        Keeps-bind _ _
          (guard_miss-Keeps L ent P keeps_write keeps_resize keeps_test miss v none (some idx) at
            c.0 r)
          λ u'. Keeps-bind _ _ (keeps_resize v at) (λ u''.
            keeps_write v at (edit_json (remove_element_op idx at ∷ [])) c.0 h (c.1, (r, tt)))
  list_elem_op-Keeps _ miss v idx at c r = Keeps-fail _

  list_end_op-Keeps :
      (op : Operation) (v : Prop Target) (at : At)
      → (IsColumn ent v) × (is_collection v ≡ true)
      → Keeps P (list_end_op L op v at)
  unfolding list_end_op
  list_end_op-Keeps (Operation.insert x) v at c =
      mutable-Keeps L ent P keeps_write keeps_resize keeps_test v at _ λ h u.
        Keeps-bind _ _ (Keeps-lift _) λ pv.
          Keeps-bind _ _ (keeps_resize v at)
            (λ u'. keeps_write v at (edit_json (append_op pv at ∷ [])) c.0 h (c.1, (tt, tt)))
  list_end_op-Keeps _ v at c = Keeps-fail _

  at_list_elem-Keeps :
      (op : Operation) (miss : OnMissing) (v : Prop Target) (sel : Selector) (at : At)
      → (IsColumn ent v) × (is_collection v ≡ true)
      → Keeps P (at_list_elem L op miss v sel at)
  unfolding at_list_elem
  at_list_elem-Keeps op miss v Selector.append at c = list_end_op-Keeps op v at c
  at_list_elem-Keeps op miss v Selector.range at c = Keeps-fail _
  at_list_elem-Keeps op miss v (Selector.key (Key.index idx)) at c =
      addressable-Keeps L ent P keeps_write keeps_resize keeps_test v idx at _
        (λ r u. list_elem_op-Keeps op miss v idx at c r)
  at_list_elem-Keeps op miss v (Selector.key _) at c = Keeps-fail _
  at_list_elem-Keeps op miss v _ at c = Keeps-fail _

  -- A method that handles one target keeps `P`.
  pub one-Keeps :
      (op : Operation) (miss : OnMissing) (s : Site) (sel : Selector) (at : At)
      → IsSound ent s
      → Keeps P (one L ent op miss s sel at)
  unfolding one is_collection
  one-Keeps op miss root_site sel at h =
      at_column-Keeps L ent P keeps_write keeps_resize keeps_test op miss sel at
  one-Keeps op miss (edge_site ed) sel at h =
      at_edge-Keeps L ent P keeps_write keeps_resize keeps_test op ed sel at h
  one-Keeps op miss (map_site v) sel at h = at_map_entry-Keeps op miss v sel at (h.0, ground arith)
  one-Keeps op miss (list_site v) sel at h = at_list_elem-Keeps op miss v sel at (h.0, ground arith)
