-- ===== src/Ormpatch/Compile/Calls.antt =====
-- An induction over the methods of the compiler (ormpatch/compile.go) that handle a column or an edge.
use protobuf_orm.Base.{
  ◌&&◌, not, ◌==◌, refl, true, false, inl, inr, [], ◌∷◌, Option, none, some, ℤ, arith,
}
use protobuf_orm.Graph.Prop.{
  Prop, field, edge, is_edge, is_nullable, is_collection, Edge, edge_is_nullable,
}
use protobuf_orm.Graph.Entity.{Target, Entity}
use protobuf_orm.Ormpatch.Document.{Key, Selector, OnMissing, Operation, Want}
use protobuf_orm.Proto.Value.{MapKey}
use protobuf_orm.Ormpatch.Errors.{At}
use protobuf_orm.Ormpatch.Library.{Library}
use protobuf_orm.Ormpatch.Plan.{Op, set_column, clear_column, set_edge, clear_edge, edit_json, Test}
use protobuf_orm.Ormpatch.Literal.{check_orm_value}
use protobuf_orm.Ormpatch.Props.{resolve, resolve-IsColumn}
use protobuf_orm.Ormpatch.State.{Compiler, M, lift, ◌>>=◌, and_then}
use protobuf_orm.Ormpatch.State.Keeps.{
  Keeps, Keeps-fail, Keeps-pure, Keeps-lift, Keeps-gets, Keeps-bind, Keeps-bind-lift, Keeps-if,
}
use protobuf_orm.Ormpatch.Compile.Writes.{
  mutable, resize, write, addressable, add_test, test, test_want, is_none, is_json_column,
}
use protobuf_orm.Ormpatch.Compile.Targets.{
  guard_miss, remove_column, column_op, vacant_column, at_column, edge_op, at_edge, clear_op,
}
use protobuf_orm.Ormpatch.Compile.Suits.{
  IndexInRange, IsColumn, IsWritable, Suits, WantChecked, mutable-IsWritable, addressable-cases,
  edge-Suits,
}

module _ (L : Library) (ent : Entity) (P : Compiler → Type 0)
    (keeps_write : (v : Prop Target) (at : At) (op : Op)
      → IsColumn ent v
      → IsWritable v
      → Suits v op
      → Keeps P (write v at op))
    (keeps_resize : (v : Prop Target) (at : At) → Keeps P (resize v at))
    (keeps_test : (t : Test)
      → IsColumn ent t.prop
      → IndexInRange t.index
      → WantChecked t.prop t.at t.want
      → Keeps P (add_test t)) where
  -- After a successful call of `mutable` the rest may use that the prop is writable.
  pub mutable-Keeps :
      {B : Type 0} (v : Prop Target) (at : At) (f : Unit {0} → M B)
      → (IsWritable v → (u : Unit {0}) → Keeps P (f u))
      → Keeps P (lift (mutable v at) >>= f)
  mutable-Keeps v at f k = Keeps-bind-lift (mutable v at) f (λ u e. k (mutable-IsWritable v at e) u)

  -- After a successful call of `addressable` the rest may use that the index is in range.
  pub addressable-Keeps :
      {B : Type 0} (v : Prop Target) (idx : ℤ) (at : At) (f : Unit {0} → M B)
      → (IndexInRange (some idx) → (u : Unit {0}) → Keeps P (f u))
      → Keeps P (addressable v idx at >>= f)
  unfolding ◌>>=◌
  addressable-Keeps v idx at f k = record {
    at = λ c h. elim (addressable-cases v idx at c) [
      | inl (e, r) ↦ rw (e, and_then) ((k r tt).at c h)
      | inr e ↦ rw (e, and_then) tt
    ];
  }

  pub guard_miss-Keeps :
      (miss : OnMissing) (v : Prop Target) (key : Option MapKey) (idx : Option ℤ) (at : At)
      → IsColumn ent v
      → IndexInRange idx
      → Keeps P (guard_miss miss v key idx at)
  guard_miss-Keeps OnMissing.skip v key idx at b h = Keeps-pure tt
  guard_miss-Keeps OnMissing.fail v key idx at b h = keeps_test _ b h tt

  test_want-Keeps :
      (want : Want) (v : Prop Target) (key : Option MapKey) (idx : Option ℤ) (at : At)
      → IsColumn ent v
      → IndexInRange idx
      → Keeps P (test_want L want v key idx at)
  test_want-Keeps (Want.exists true) v key idx at b h = keeps_test _ b h tt
  test_want-Keeps (Want.exists false) v key idx at b h = keeps_test _ b h tt
  test_want-Keeps (Want.value x) v key idx at b h =
      Keeps-if (is_none key && is_none idx && is_json_column v) _ _ (λ e. Keeps-fail _)
        λ e.
          Keeps-bind _ _ (Keeps-lift _)
            (λ pv. Keeps-bind-lift (check_orm_value v pv at) _ (λ u e. keeps_test _ b h e))
  test_want-Keeps Want.unset v key idx at b h = Keeps-fail _

  pub test-Keeps :
      (want : Want) (v : Prop Target) (key : Option MapKey) (idx : Option ℤ) (at : At)
      → IsColumn ent v
      → IndexInRange idx
      → Keeps P (test L want v key idx at)
  unfolding test
  test-Keeps want v key idx at b h =
      Keeps-bind _ _ (Keeps-gets _)
        (elim [ some w ↦ Keeps-fail _ | none ↦ test_want-Keeps want v key idx at b h ])

  remove_column-Keeps :
      (v : Prop Target) (at : At) → IsColumn ent v → IsWritable v → Keeps P (remove_column v at)
  unfolding remove_column
  remove_column-Keeps (edge ed) at b h =
      Keeps-if (not (edge_is_nullable ed)) _ _ (λ e. Keeps-fail _)
        (λ e. keeps_write (edge ed) at clear_edge b h (edge-Suits ed e))
  remove_column-Keeps (field f) at b h =
      Keeps-if (is_collection (field f)) _ _
        (λ e.
          Keeps-bind _ _ (keeps_resize (field f) at)
            (λ u. keeps_write (field f) at (edit_json (clear_op at ∷ [])) b h (e, (tt, tt))))
        (λ e.
          Keeps-if (not (is_nullable (field f))) _ _ (λ e'. Keeps-fail _)
            (λ e'. keeps_write (field f) at clear_column b h (refl, ground arith)))

  column_op-Keeps :
      (op : Operation) (v : Prop Target) (at : At) → IsColumn ent v → Keeps P (column_op L op v at)
  unfolding column_op
  column_op-Keeps (Operation.test want) v at b = test-Keeps want v none none at b tt
  column_op-Keeps Operation.remove v at b =
      mutable-Keeps v at _ (λ h u. remove_column-Keeps v at b h)
  column_op-Keeps (Operation.assign x) v at b = mutable-Keeps v at _ λ h u.
      Keeps-if (is_edge v) _ _ (λ e. Keeps-fail _)
        (λ e. Keeps-bind _ _ (Keeps-lift _) (λ pv. keeps_write v at (set_column pv) b h (inl e)))
  column_op-Keeps _ v at b = Keeps-fail _

  vacant_column-Keeps :
      (op : Operation) (miss : OnMissing) (at : At) → Keeps P (vacant_column L op miss at)
  unfolding vacant_column
  vacant_column-Keeps (Operation.test want) miss at = Keeps-lift _
  vacant_column-Keeps _ OnMissing.skip at = Keeps-pure tt
  vacant_column-Keeps _ OnMissing.fail at = Keeps-fail _

  pub at_column-Keeps :
      (op : Operation) (miss : OnMissing) (sel : Selector) (at : At)
      → Keeps P (at_column L ent op miss sel at)
  unfolding at_column
  at_column-Keeps op miss (Selector.key (Key.field f)) at =
      Keeps-bind-lift (resolve L ent f at) _ (elim [
        | none ↦ λ e. vacant_column-Keeps op miss at
        | some v ↦ λ e. column_op-Keeps op v at (resolve-IsColumn L ent f at e)
      ])
  at_column-Keeps op miss Selector.oneof_member at = Keeps-fail _
  at_column-Keeps op miss (Selector.key _) at = Keeps-fail _
  at_column-Keeps op miss _ at = Keeps-fail _

  edge_op-Keeps :
      (op : Operation) (ed : Edge Target) (at : At)
      → IsColumn ent (edge ed)
      → Keeps P (edge_op L op ed at)
  unfolding edge_op
  edge_op-Keeps (Operation.test want) ed at b = test-Keeps want (edge ed) none none at b tt
  edge_op-Keeps (Operation.assign x) ed at b =
      mutable-Keeps (edge ed) at _
        λ h u. Keeps-bind _ _ (Keeps-lift _) (λ pv. keeps_write (edge ed) at (set_edge pv) b h refl)
  edge_op-Keeps _ ed at b = Keeps-fail _

  pub at_edge-Keeps :
      (op : Operation) (ed : Edge Target) (sel : Selector) (at : At)
      → IsColumn ent (edge ed)
      → Keeps P (at_edge L op ed sel at)
  unfolding at_edge
  at_edge-Keeps op ed (Selector.key (Key.field f)) at b = Keeps-bind _ _ (Keeps-lift _) (elim [
    | none ↦ Keeps-fail _
    | some fd ↦
        Keeps-if (fd.number == ed.target.key.source.number) _ _ (λ e. edge_op-Keeps op ed at b)
          (λ e. Keeps-fail _)
  ])
  at_edge-Keeps op ed (Selector.key _) at b = Keeps-fail _
  at_edge-Keeps op ed _ at b = Keeps-fail _
