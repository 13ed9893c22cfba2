-- ===== src/Ormpatch/Compile/Induction.antt =====
-- An induction over the whole compilation: what the writes, the changes of length and the tests
-- keep, a compilation keeps.
use protobuf_orm.Base.{
  ℕ, ◌+◌, ◌≡◌, refl, Bool, true, false, not, inl, inr, ltb, List, [], ◌∷◌, All, arith,
}
use protobuf_orm.Proto.Value.{Value, Items}
use protobuf_orm.Graph.Prop.{Prop, field, edge, is_collection}
use protobuf_orm.Graph.Entity.{Target, Entity}
use protobuf_orm.Ormpatch.Document.{Selector, Scope, OnMissing, Operation, Delta, Entries, Entry}
use protobuf_orm.Ormpatch.Errors.{At, index, sub}
use protobuf_orm.Ormpatch.Library.{Library}
use protobuf_orm.Ormpatch.Plan.{Op, set_column, edit_json, Test}
use protobuf_orm.Ormpatch.State.{Compiler, M}
use protobuf_orm.Ormpatch.State.Keeps.{
  Keeps, Keeps-fail, Keeps-pure, Keeps-lift, Keeps-bind, Keeps-bind-lift, Keeps-if,
}
use protobuf_orm.Ormpatch.Compile.Writes.{resize, write, add_test}
use protobuf_orm.Ormpatch.Compile.Address.{
  Site, root_site, edge_site, map_site, list_site, walk, enter, ident, Ident,
}
use protobuf_orm.Ormpatch.Compile.Targets.{clear_op}
use protobuf_orm.Ormpatch.Compile.Suits.{
  IndexInRange, IsColumn, IsWritable, Suits, IsSound, WantChecked,
}
use protobuf_orm.Ormpatch.Compile.Elements.{one-Keeps}
use protobuf_orm.Ormpatch.Compile.Sites.{walk-IsSound, enter-IsSound}
use protobuf_orm.Ormpatch.Compile.Scopes.{
  ScopeAdmits, Admits, EntriesAdmit, EntryAdmits, OperationAdmits,
}
use protobuf_orm.Ormpatch.Compile.Document.{
  append_ops, collection_op, container, select, targets, scope_op, delta, entries, entry, nested,
  max_nest, contains_ident,
}

append_ops-IndexInRange :
    (is : Items) (at : At) → All (λ j. IndexInRange j.index) (append_ops is at)
unfolding append_ops
append_ops-IndexInRange Items.nil at = tt
append_ops-IndexInRange (Items.cons v rest) at = (tt, append_ops-IndexInRange rest at)

module _ (L : Library) (ent : Entity) (P : Compiler → Type 0) (allowed : Bool)
    (keeps_write : (v : Prop Target) (at : At) (op : Op)
      → IsColumn ent v
      → IsWritable v
      → Suits v op
      → Keeps P (write v at op))
    (keeps_container : allowed ≡ true
      → (v : Prop Target) (at : At) (op : Op) → IsColumn ent v
      → Suits v op
      → Keeps P (write v at op))
    (keeps_resize : (v : Prop Target) (at : At) → Keeps P (resize v at))
    (keeps_test : (t : Test)
      → IsColumn ent t.prop
      → IndexInRange t.index
      → WantChecked t.prop t.at t.want
      → Keeps P (add_test t)) where
  collection_op-Keeps :
      allowed ≡ true
      → (op : Operation) (is_list_site : Bool) (v : Prop Target) (at : At)
        (nest : At → M (Unit {0}))
      → ((x : Value) → Suits v (set_column x))
      → IsColumn ent v
      → is_collection v ≡ true
      → ((at' : At) → Keeps P (nest at'))
      → Keeps P (collection_op L ent op is_list_site v at nest)
  unfolding collection_op
  collection_op-Keeps a Operation.remove is_list_site v at nest c b w k =
      Keeps-bind _ _ (keeps_resize v at)
        (λ u. keeps_container a v at (edit_json (clear_op at ∷ [])) b (w, (tt, tt)))
  collection_op-Keeps a (Operation.assign x) is_list_site v at nest c b w k =
      Keeps-bind _ _ (Keeps-lift _) (λ pv. keeps_container a v at (set_column pv) b (c pv))
  collection_op-Keeps a (Operation.insert x) is_list_site v at nest c b w k =
      Keeps-if (not is_list_site) _ _ (λ e. Keeps-fail _)
        λ e. Keeps-bind _ _ (Keeps-lift _) λ pv. Keeps-bind _ _ (Keeps-lift _) λ is.
          keeps_container a v at (edit_json (append_ops is at)) b (w, append_ops-IndexInRange is at)
  collection_op-Keeps a (Operation.nest d) is_list_site v at nest c b w k = k _
  collection_op-Keeps a _ is_list_site v at nest c b w k = Keeps-fail _

  container-Keeps :
      allowed ≡ true
      → (op : Operation) (s : Site) (at : At) (nest : Site → At → M (Unit {0})) → IsSound ent s
      → ((s' : Site) (at' : At) → IsSound ent s' → Keeps P (nest s' at'))
      → Keeps P (container L ent op s at nest)
  unfolding container is_collection
  container-Keeps a op root_site at nest h k = Keeps-fail _
  container-Keeps a op (edge_site ed) at nest h k = Keeps-fail _
  container-Keeps a op (map_site (field f)) at nest h k =
      collection_op-Keeps a op false (field f) at (nest (map_site (field f))) (λ x. inl refl) h.0
        (ground arith) (λ at'. k (map_site (field f)) at' h)
  container-Keeps a op (map_site (edge e)) at nest h k = absurd (cc (h.1))
  container-Keeps a op (list_site v) at nest h k =
      collection_op-Keeps a op true v at (nest (list_site v)) (λ x. inr h.1) h.0 (ground arith)
        (λ at'. k (list_site v) at' h)

  select-Keeps :
      (op : Operation) (miss : OnMissing) (s : Site) (at : At) (sels : List Selector) (i : ℕ)
      (seen : List Ident)
      → IsSound ent s
      → Keeps P (select L ent op miss s at sels i seen)
  unfolding select
  select-Keeps op miss s at [] i seen h = Keeps-pure tt
  select-Keeps op miss s at (sel ∷ sels) i seen h =
      let at' = index at "selectors" i in
      Keeps-if (contains_ident (ident L ent s sel at') seen) _ _ (λ e. Keeps-fail _)
        λ e.
          Keeps-bind _ _ (one-Keeps L ent P keeps_write keeps_resize keeps_test op miss s sel at' h)
            (λ u. select-Keeps op miss s at sels (i + 1) (ident L ent s sel at' ∷ seen) h)

  targets-Keeps :
      (op : Operation) (miss : OnMissing) (sels : List Selector) (s : Site) (at : At)
      (nest : Site → At → M (Unit {0}))
      → IsSound ent s
      → ((s' : Site) (at' : At) → IsSound ent s' → Keeps P (nest s' at'))
      → Keeps P (targets L ent op miss sels s at nest)
  unfolding targets
  targets-Keeps Operation.move miss sels s at nest h k = Keeps-fail _
  targets-Keeps Operation.copy miss sels s at nest h k = Keeps-fail _
  targets-Keeps (Operation.nest d) miss (sel ∷ []) s at nest h k =
      Keeps-bind-lift (enter L ent s sel _) _ (λ inner e. k inner _ (enter-IsSound L ent s sel _ e))
  targets-Keeps (Operation.nest d) miss [] s at nest h k = Keeps-fail _
  targets-Keeps (Operation.nest d) miss (sel ∷ sel' ∷ sels) s at nest h k = Keeps-fail _
  targets-Keeps op miss sels s at nest h k = select-Keeps op miss s _ sels 0 [] h

  scope_op-Keeps :
      (scope : Scope) (miss : OnMissing) (op : Operation) (s : Site) (at : At)
      (nest : Site → At → M (Unit {0}))
      → ScopeAdmits allowed scope
      → IsSound ent s
      → ((s' : Site) (at' : At) → IsSound ent s' → Keeps P (nest s' at'))
      → Keeps P (scope_op L ent scope miss op s at nest)
  unfolding scope_op
  scope_op-Keeps Scope.container miss op s at nest a h k = container-Keeps a op s at nest h k
  scope_op-Keeps (Scope.targets sels) miss op s at nest a h k =
      targets-Keeps op miss sels s at nest h k
  scope_op-Keeps Scope.unset miss op s at nest a h k = Keeps-fail _

  mutual
    unfolding delta Admits

    -- A compilation of an admitted document keeps `P`.
    pub delta-Keeps :
        (d : Delta) (s : Site) (at : At) (depth : ℕ)
        → Admits allowed d
        → IsSound ent s
        → Keeps P (delta L ent d s at depth)
    delta-Keeps (Delta.delta es) s at depth a h =
        Keeps-if (ltb max_nest depth) _ _ (λ e. Keeps-fail _)
          (λ e. entries-Keeps es s at 0 depth a h)

    entries-Keeps :
        (es : Entries) (s : Site) (at : At) (i depth : ℕ)
        → EntriesAdmit allowed es
        → IsSound ent s
        → Keeps P (entries L ent es s at i depth)
    entries-Keeps Entries.end s at i depth a h = Keeps-pure tt
    entries-Keeps (Entries.cons e es) s at i depth a h =
        Keeps-bind _ _ (entry-Keeps e s (index at "entries" i) depth a.0 h)
          (λ u. entries-Keeps es s at (i + 1) depth a.1 h)

    entry-Keeps :
        (e : Entry) (s : Site) (at : At) (depth : ℕ)
        → EntryAdmits allowed e
        → IsSound ent s
        → Keeps P (entry L ent e s at depth)
    entry-Keeps (Entry.entry path scope miss op) s at depth a h =
        Keeps-bind-lift (walk L ent s path 0 (sub at "path")) _ λ s' e.
          scope_op-Keeps scope miss op s' at (nested L ent op depth) a.0
            (walk-IsSound L ent s path 0 (sub at "path") h e) (nested-Keeps op depth a.1)

    nested-Keeps :
        (op : Operation) (depth : ℕ)
        → OperationAdmits allowed op
        → (s : Site) (at : At) → IsSound ent s
        → Keeps P (nested L ent op depth s at)
    nested-Keeps (Operation.nest d) depth a s at h = delta-Keeps d s at (depth + 1) a h
    nested-Keeps _ depth a s at h = Keeps-pure tt
