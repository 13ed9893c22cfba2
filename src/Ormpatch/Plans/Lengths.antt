-- ===== src/Ormpatch/Plans/Lengths.antt =====
-- The calls of ormpatch/compile.go that change the length of a list column and note it: an append,
-- the removal of an element, and the clearing of the column.
use protobuf_orm.Base.{ℕ, ◌≡◌, refl, some, true, false, Option-cases, inl, inr, ==_refl}
use protobuf_orm.Base.Result.{Result, ok, err}
use protobuf_orm.Base.Table
use protobuf_orm.Base.Table.{lookup-insert}
use protobuf_orm.Graph.Prop.{Prop, field, edge, number, is_edge, is_collection}
use protobuf_orm.Graph.Entity.{Target, Entity}
use protobuf_orm.Ormpatch.Document.{Key, Selector, OnMissing, Operation}
use protobuf_orm.Ormpatch.Errors.{At, Error}
use protobuf_orm.Ormpatch.Library.{Library}
use protobuf_orm.Ormpatch.Plan.{Op}
use protobuf_orm.Ormpatch.State.{Compiler, M, fail, ◌>>=◌, and_then}
use protobuf_orm.Ormpatch.State.Keeps.{Leaves}
use protobuf_orm.Ormpatch.Compile.Writes.{resize, write}
use protobuf_orm.Ormpatch.Compile.Address.{Site, list_site}
use protobuf_orm.Ormpatch.Compile.Targets.{
  one, at_list_elem, list_end_op, list_elem_op, column_op, remove_column,
}
use protobuf_orm.Ormpatch.Compile.Document.{container, collection_op}
use protobuf_orm.Ormpatch.Compile.Frames.{write-Keeps}

-- The call changes the length of the list column: it handles the end of the list, removes what a
-- selector names of the list, empties the list from within, or clears it as a column. An insert in
-- the scope of the container, which appends too, is not among the calls.
pub data ChangesLength (L : Library) (v : Prop Target) : M (Unit {0}) → Type 0 where
  appends :
      (ent : Entity) (op : Operation) (miss : OnMissing) (at : At)
      → ChangesLength L v (one L ent op miss (list_site v) Selector.append at)
  removes :
      (ent : Entity) (miss : OnMissing) (sel : Selector) (at : At)
      → ChangesLength L v (one L ent Operation.remove miss (list_site v) sel at)
  empties :
      (ent : Entity) (at : At) (nested : Site → At → M (Unit {0}))
      → ChangesLength L v (container L ent Operation.remove (list_site v) at nested)
  clears :
      (at : At)
      → is_edge v ≡ false
      → is_collection v ≡ true
      → ChangesLength L v (column_op L Operation.remove v at)

-- The compiler notes a position at which the length of the column of number `n` was changed.
abbrev pub IsResized : ℕ → Compiler → Type 0
IsResized n c = (at : At) × (Table.lookup n c.resized ≡ some at)

-- From any state, `m` leaves one that has `P`, where it succeeds.
abbrev Gives : {A : Type 0} → (Compiler → Type 0) → M A → Type 0
Gives P m = (c : Compiler) → Leaves P (m c)

Gives-fail : (P : Compiler → Type 0) (e : Error) → Gives P (fail {A = Unit {0}} e)
unfolding ◌>>=◌
Gives-fail P e c = tt

Leaves-and_then :
    {A B : Type 0} (P : Compiler → Type 0) (r : Result Error (A × Compiler)) (f : A → M B)
    → ((a : A) → Gives P (f a))
    → Leaves P (and_then r f)
Leaves-and_then P (ok (a, c)) f h = h a c
Leaves-and_then P (err e) f h = tt

-- What the last of two calls gives, the two give.
Gives->>= :
    {A B : Type 0} (P : Compiler → Type 0) (m : M A) (f : A → M B)
    → ((a : A) → Gives P (f a))
    → Gives P (m >>= f)
unfolding ◌>>=◌
Gives->>= P m f h c = Leaves-and_then P (m c) f h

module _ (v : Prop Target) (at : At) where
  resize-Gives : Gives (IsResized (number v)) (resize v at)
  unfolding resize ◌>>=◌
  resize-Gives c = elim (Option-cases (Table.lookup (number v) c.resized)) [
    | inl e ↦ rw e (at, rw (lookup-insert, ==_refl) refl)
    | inr (x, e) ↦ rw e (x, e)
  ]

  Leaves-write :
      (op : Op) (r : Result Error (Unit {0} × Compiler))
      → Leaves (IsResized (number v)) r
      → Leaves (IsResized (number v)) (and_then r (λ u. write v at op))
  Leaves-write op (ok (u, c)) h =
      (write-Keeps (IsResized (number v)) (λ a b m k. (k.0, m.resized (number v) k.0 k.1)) v at
          op).at
        c h
  Leaves-write op (err e) h = tt

  -- A change of length stays noted when the edit is written.
  resize-write-Gives :
      (op : Op) → Gives (IsResized (number v)) (resize v at >>= (λ u. write v at op))
  unfolding ◌>>=◌
  resize-write-Gives op c = Leaves-write op (resize v at c) (resize-Gives c)

module _ (L : Library) (v : Prop Target) where
  list_end_op-Gives :
      (op : Operation) (at : At) → Gives (IsResized (number v)) (list_end_op L op v at)
  unfolding list_end_op
  list_end_op-Gives (Operation.insert x) at =
      Gives->>= _ _ _ (λ u. Gives->>= _ _ _ (λ pv. resize-write-Gives v at _))
  list_end_op-Gives _ at = Gives-fail _ _

  at_list_elem-Gives :
      (miss : OnMissing) (sel : Selector) (at : At)
      → Gives (IsResized (number v)) (at_list_elem L Operation.remove miss v sel at)
  unfolding at_list_elem list_elem_op
  at_list_elem-Gives miss Selector.append at = list_end_op-Gives Operation.remove at
  at_list_elem-Gives miss Selector.range at = Gives-fail _ _
  at_list_elem-Gives miss (Selector.key (Key.index idx)) at =
      Gives->>= _ _ _ (λ a. Gives->>= _ _ _ (λ u. Gives->>= _ _ _ (λ g. resize-write-Gives v at _)))
  at_list_elem-Gives miss _ at = Gives-fail _ _

  remove_column-Gives :
      (w : Prop Target) (at : At)
      → is_edge w ≡ false
      → is_collection w ≡ true
      → Gives (IsResized (number w)) (remove_column w at)
  unfolding remove_column
  remove_column-Gives (edge ed) at n h = absurd (cc n)
  remove_column-Gives (field f) at n h = rw h (resize-write-Gives (field f) at _)

  -- Each of the calls, where it succeeds, notes that the length was changed.
  pub ChangesLength-IsResized :
      {m : M (Unit {0})} → ChangesLength L v m → Gives (IsResized (number v)) m
  unfolding one container collection_op column_op at_list_elem
  ChangesLength-IsResized (appends ent op miss at) = list_end_op-Gives op at
  ChangesLength-IsResized (removes ent miss sel at) = at_list_elem-Gives miss sel at
  ChangesLength-IsResized (empties ent at nested) = resize-write-Gives v at _
  ChangesLength-IsResized (clears at n h) = Gives->>= _ _ _ (λ u. remove_column-Gives v at n h)
