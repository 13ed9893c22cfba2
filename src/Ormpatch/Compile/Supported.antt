-- ===== src/Ormpatch/Compile/Supported.antt =====
-- What the compiler does with a column that the document has not written yet
-- (ormpatch/compile.go).
use protobuf_orm.Base.{
  ℕ, ◌≡◌, ◌≢◌, refl, sym, ap, ◌∙◌, subst, inl, inr, true, false, Bool-cases, Option-cases, List, [],
  ◌∷◌, ◌++◌, none, ==_ne,
}
use protobuf_orm.Base.Result.{Result, ok, err}
use protobuf_orm.Base.Table
use protobuf_orm.Base.Table.{Table, lookup-insert}
use protobuf_orm.Graph.Prop.{
  Prop, Edge, field, edge, number, descriptor, is_immutable, is_version, is_nullable, is_edge,
  is_collection,
}
use protobuf_orm.Graph.Entity.{Target}
use protobuf_orm.Ormpatch.Document.{Literal, Operation, Want}
use protobuf_orm.Ormpatch.Errors.{At, Error}
use protobuf_orm.Ormpatch.Library.{Library, whole_field}
use protobuf_orm.Ormpatch.Plan.{
  equal, JsonOp, Op, set_column, set_edge, clear_column, clear_edge, edit_json,
}
use protobuf_orm.Ormpatch.Literal.{materialize, check_orm_value}
use protobuf_orm.Ormpatch.Literal.Refusals.{
  Blames, IsPatch, materialize-Blames, check_orm_value-Blames,
}
use protobuf_orm.Ormpatch.State.{Compiler, modify, ◌>>=◌, ◌>>◌}
use protobuf_orm.Ormpatch.Compile.Writes.{
  mutable, resize, carries_value, check_json_op, check_json_ops, check_op, note_write, fold_write,
  write, add_test, is_json_column, test_descriptor, test_place, test,
}
use protobuf_orm.Ormpatch.Compile.Targets.{clear_op, remove_column, column_op, edge_op}
use protobuf_orm.Ormpatch.Compile.Fresh.{
  Goes, Goes->>=, Goes-lift, Goes-map, Spares, Spares-refl, Spares-trans, IsFresh,
}

check_json_op-Blames :
    (p : Prop Target) (at : At) (j : JsonOp) → Blames (check_json_op p at j.kind j.value)
check_json_op-Blames p at j = elim (Option-cases j.value) [
  | inl n ↦ rw n tt
  | inr (v, n) ↦ elim (Bool-cases (carries_value j.kind)) [
    | inl e ↦ rw (n, e) (check_orm_value-Blames p v at)
    | inr e ↦ rw (n, e) tt
  ]
]

check_json_ops-Blames :
    (p : Prop Target) (at : At) (js : List JsonOp) → Blames (check_json_ops p at js)
unfolding check_json_ops
check_json_ops-Blames p at [] = tt
check_json_ops-Blames p at (j ∷ js) =
    go (check_json_op p at j.kind j.value) (check_json_ops p at js) (check_json_op-Blames p at j)
      (check_json_ops-Blames p at js)
  where
    go :
        (r rest : Result Error (Unit {0}))
        → Blames r
        → Blames rest
        → Blames (elim r [ err e ↦ err e | ok _ ↦ rest ])
    go (ok u) rest h k = k
    go (err e) rest h k = h

check_op-Blames : (p : Prop Target) (op : Op) (at : At) → Blames (check_op p op at)
unfolding check_op
check_op-Blames p (set_column v) at = check_orm_value-Blames p v at
check_op-Blames p (set_edge k) at = check_orm_value-Blames p k at
check_op-Blames p (edit_json js) at = check_json_ops-Blames p at js
check_op-Blames p clear_column at = tt
check_op-Blames p clear_edge at = tt

lookup-insert_ne :
    {V : Type 0} (k n : ℕ) (x : V) (t : Table V)
    → k ≢ n
    → Table.lookup n (Table.insert k x t) ≡ Table.lookup n t
lookup-insert_ne k n x t h = rw (lookup-insert k n x t, ==_ne k n h) refl

note_write-first :
    (n : ℕ) (at : At) (c : Compiler)
    → Table.lookup n c.wrote ≡ none
    → note_write n at c ≡ record c { wrote = Table.insert n at c.wrote }
unfolding note_write
note_write-first n at c h = rw (note_write, h) refl

fold_write-first :
    (p : Prop Target) (at : At) (op : Op) (c : Compiler)
    → Table.lookup (number p) c.writes ≡ none
    → fold_write p at op c
      ≡ ok (
        tt,
        record c {
          order = c.order ++ number p ∷ [];
          writes = Table.insert (number p) (record { prop = p; at = at; op = op }) c.writes;
        },
      )
unfolding fold_write
fold_write-first p at op c h = rw (fold_write, h) refl

noted-Goes :
    (p : Prop Target) (at : At) (op : Op) (c : Compiler)
    → IsFresh p c
    → Goes (Spares p c) ((modify (note_write (number p) at) >> fold_write p at op) c)
unfolding ◌>>=◌
noted-Goes p at op c f =
    let made : fold_write p at op (note_write (number p) at c) ≡ _ =
      ap (fold_write p at op) (note_write-first (number p) at c f.0)
      ∙ fold_write-first p at op (record c { wrote = Table.insert (number p) at c.wrote }) f.1 in
    subst (Goes (Spares p c)) (sym made) (record {
      wrote = λ n h. lookup-insert_ne (number p) n at c.wrote h;
      writes = λ n h. lookup-insert_ne (number p) n _ c.writes h;
    })

-- A first write succeeds if its value does.
write-Goes :
    (p : Prop Target) (at : At) (op : Op) (c : Compiler)
    → IsFresh p c
    → Goes (Spares p c) (write p at op c)
unfolding write
write-Goes p at op c f =
    Goes-lift (Spares p c) (check_op p op at) _ c (check_op-Blames p op at)
      (λ u h. noted-Goes p at op c f)

resize-Goes :
    (p : Prop Target) (at : At) (c : Compiler)
    → IsFresh p c
    → Goes (λ c'. IsFresh p c' × Spares p c c') (resize p at c)
unfolding resize ◌>>=◌
resize-Goes p at c f = elim (Option-cases (Table.lookup (number p) c.resized)) [
  | inl n ↦ rw n (f, record { wrote = λ m h. refl; writes = λ m h. refl })
  | inr (old, n) ↦ rw n (f, Spares-refl p c)
]

remove_column-Goes :
    (p : Prop Target) (at : At) (c : Compiler)
    → is_nullable p ≡ true
    → IsFresh p c
    → Goes (Spares p c) (remove_column p at c)
unfolding remove_column is_nullable
remove_column-Goes (edge ed) at c n f = rw n (write-Goes (edge ed) at clear_edge c f)
remove_column-Goes (field g) at c n f = elim (Bool-cases (is_collection {T = Target} (field g))) [
  | inl e ↦ rw e (
      Goes->>= _ (Spares (field g) c) (resize (field g) at) _ c (resize-Goes (field g) at c f)
        (λ u c' (f', s).
          Goes-map (Spares (field g) c') (Spares (field g) c) _
            (λ c''. Spares-trans (field g) c c' c'' s)
            (write-Goes (field g) at (edit_json (clear_op at ∷ [])) c' f')))
  | inr e ↦ rw (e, n) (write-Goes (field g) at clear_column c f)
]

mutable-ok :
    (p : Prop Target) (at : At)
    → is_immutable p ≡ false
    → is_version p ≡ false
    → mutable p at ≡ ok tt
unfolding mutable
mutable-ok p at i v = rw (i, v) refl

module _ (L : Library) (lib : IsPatch L) where
  -- The test of a column that is no collection or JSON.
  test-Goes :
      (x : Literal) (p : Prop Target) (at : At) (c : Compiler)
      → is_json_column p ≡ false
      → IsFresh p c
      → Goes (Spares p c) (test L (Want.value x) p none none at c)
  unfolding test add_test ◌>>=◌
  test-Goes x p at c j f =
      rw (f.0, j)
        (Goes-lift (Spares p c) (materialize L x (test_descriptor p) (test_place p none none) at) _
          c (materialize-Blames L lib x (test_descriptor p) (test_place p none none) at)
          (λ pv k.
            Goes-lift (Spares p c) (check_orm_value p pv at)
              (λ u.
                add_test (record { prop = p; key = none; index = none; want = equal pv; at = at }))
              c (check_orm_value-Blames p pv at)
              (λ u l. record { wrote = λ n h. refl; writes = λ n h. refl })))

  pub column_op-test :
      (x : Literal) (p : Prop Target) (at : At) (c : Compiler)
      → is_json_column p ≡ false
      → IsFresh p c
      → Goes (Spares p c) (column_op L (Operation.test (Want.value x)) p at c)
  unfolding column_op
  column_op-test x p at c j f = test-Goes x p at c j f

  pub column_op-remove :
      (p : Prop Target) (at : At) (c : Compiler)
      → is_immutable p ≡ false
      → is_version p ≡ false
      → is_nullable p ≡ true
      → IsFresh p c
      → Goes (Spares p c) (column_op L Operation.remove p at c)
  unfolding column_op
  column_op-remove p at c i v n f =
      Goes-lift (Spares p c) (mutable p at) _ c (rw (mutable-ok p at i v) tt)
        (λ u h. remove_column-Goes p at c n f)

  pub column_op-assign :
      (x : Literal) (p : Prop Target) (at : At) (c : Compiler)
      → is_immutable p ≡ false
      → is_version p ≡ false
      → is_edge p ≡ false
      → IsFresh p c
      → Goes (Spares p c) (column_op L (Operation.assign x) p at c)
  unfolding column_op
  column_op-assign x p at c i v e f =
      Goes-lift (Spares p c) (mutable p at) _ c (rw (mutable-ok p at i v) tt) (λ u h. rw e (
        Goes-lift (Spares p c) (materialize L x (descriptor p) whole_field at) _ c
          (materialize-Blames L lib x (descriptor p) whole_field at)
          (λ pv k. write-Goes p at (set_column pv) c f)))

  pub edge_op-assign :
      (x : Literal) (ed : Edge Target) (at : At) (c : Compiler)
      → is_immutable (edge ed) ≡ false
      → IsFresh (edge ed) c
      → Goes (Spares (edge ed) c) (edge_op L (Operation.assign x) ed at c)
  unfolding edge_op
  edge_op-assign x ed at c i f =
      Goes-lift (Spares (edge ed) c) (mutable (edge ed) at) _ c
        (rw (mutable-ok (edge ed) at i refl) tt)
        (λ u h.
          Goes-lift (Spares (edge ed) c) (materialize L x ed.target.key.source whole_field at) _ c
            (materialize-Blames L lib x ed.target.key.source whole_field at)
            (λ pv k. write-Goes (edge ed) at (set_edge pv) c f))
