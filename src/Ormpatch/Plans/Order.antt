-- ===== src/Ormpatch/Plans/Order.antt =====
-- What an entry of a document may still ask of a column, once earlier entries have written it
-- (ormpatch/compile.go: test, addressable).
use protobuf_orm.Base.{ℕ, ℤ, ◌≡◌, refl, some, true, Option, Option-cases, inl, inr, ==_refl}
use protobuf_orm.Base.Result.{ok, err, Result-cases}
use protobuf_orm.Base.Table
use protobuf_orm.Base.Table.{lookup-insert}
use protobuf_orm.Proto.Value.{MapKey}
use protobuf_orm.Graph.Prop.{Prop, number}
use protobuf_orm.Graph.Entity.{Target, Entity}
use protobuf_orm.Ormpatch.Document.{Delta, Want}
use protobuf_orm.Ormpatch.Errors.{At, unsupported}
use protobuf_orm.Ormpatch.Library.{Library}
use protobuf_orm.Ormpatch.Plan.{Op, Test}
use protobuf_orm.Ormpatch.State.{Compiler, M, ◌>>=◌}
use protobuf_orm.Ormpatch.State.Keeps.{Keeps, Keeps-ok, Keeps-modify}
use protobuf_orm.Ormpatch.Compile.Writes.{add_test, test, addressable, write, note_write, check_op}
use protobuf_orm.Ormpatch.Compile.Address.{Site, root_site}
use protobuf_orm.Ormpatch.Compile.Frames.{Extends, write-Keeps, resize-Keeps, fold_write-Leaves}
use protobuf_orm.Ormpatch.Compile.Suits.{IsSound}
use protobuf_orm.Ormpatch.Compile.Scopes.{Admits-true}
use protobuf_orm.Ormpatch.Compile.Induction.{delta-Keeps}
use protobuf_orm.Ormpatch.Compile.Document.{delta}
use protobuf_orm.Ormpatch.Plans.Lengths.{ChangesLength, IsResized, ChangesLength-IsResized}

-- What every write, change of length and test leaves, a compiled delta leaves.
delta_leaves :
    (L : Library) (ent : Entity) (P : Compiler → Type 0)
    → ((c c' : Compiler) → Extends c c' → P c → P c')
    → ((t : Test) → Keeps P (add_test t))
    → (d : Delta) (s : Site) (at : At) (depth : ℕ) (c : Compiler) {c' : Compiler} → IsSound ent s
    → P c
    → delta L ent d s at depth c ≡ ok (tt, c')
    → P c'
delta_leaves L ent P stable keeps_test d s at depth c sound h e =
    Keeps-ok P _ c
      (delta-Keeps L ent P true (λ v x op b w s. write-Keeps P stable v x op)
        (λ y v x op b s. write-Keeps P stable v x op) (resize-Keeps P stable)
        (λ t b i k. keeps_test t) d s at depth (Admits-true d) sound)
      h e

-- The compiler notes a position of a write of the column of number `n`.
abbrev IsWritten : ℕ → Compiler → Type 0
IsWritten n c = (at : At) × (Table.lookup n c.wrote ≡ some at)

note_write-IsWritten : (n : ℕ) (at : At) (c : Compiler) → IsWritten n (note_write n at c)
unfolding note_write
note_write-IsWritten n at c = elim (Option-cases (Table.lookup n c.wrote)) [
  | inl e ↦ (at, rw (note_write, e, lookup-insert, ==_refl) refl)
  | inr (x, e) ↦ (x, rw (note_write, e, e) refl)
]

write-IsWritten :
    (v : Prop Target) (at : At) (op : Op) (c c' : Compiler)
    → write v at op c ≡ ok (tt, c')
    → IsWritten (number v) c'
unfolding write ◌>>=◌
write-IsWritten v at op c c' h = elim (Result-cases (check_op v op at)) [
  | inr (x, e) ↦ absurd (cc (rw (e) at h))
  | inl (u, e) ↦
      let left =
        fold_write-Leaves (IsWritten (number v)) (λ a b x k. (k.0, x.wrote (number v) k.0 k.1)) v at
          op (note_write (number v) at c) (note_write-IsWritten (number v) at c) in
      rw (rw e at h) at left
]

-- Once a document has written a column, a test of that column, of any entry or element of it, is
-- refused as unsupported after every further delta that compiles.
pub delta-test :
    (L : Library) (ent : Entity) (v : Prop Target) (written : At) (op : Op) (d : Delta) (at : At)
    (depth : ℕ) (c c' c'' : Compiler) (want : Want) (key : Option MapKey) (idx : Option ℤ)
    (here : At)
    → write v written op c ≡ ok (tt, c')
    → delta L ent d root_site at depth c' ≡ ok (tt, c'')
    → test L want v key idx here c'' ≡ err (unsupported here)
unfolding test ◌>>=◌ add_test
delta-test L ent v written op d at depth c c' c'' want key idx here h e =
    let (x, noted) = write-IsWritten v written op c c' h in
    let kept =
      delta_leaves L ent (λ a. Table.lookup (number v) a.wrote ≡ some x)
        (λ a b m. m.wrote (number v) x) (λ t. Keeps-modify _ (λ a k. k)) d root_site at depth c' tt
        noted e in
    rw kept refl

-- Once a list column has changed in length, by an append at its end, by the removal of one of its
-- elements, or by the clearing of the column, from within or as a column of its entity, every index
-- into it is refused as unsupported after every further delta that compiles at the entity or at a
-- site of one of its columns. An insert in the scope of the container is not among these changes.
pub delta-addressable :
    (L : Library) (ent : Entity) (v : Prop Target) (m : M (Unit {0})) (d : Delta) (s : Site)
    (at : At) (depth : ℕ) (c c' c'' : Compiler) (idx : ℤ) (here : At)
    → ChangesLength L v m
    → m c ≡ ok (tt, c')
    → IsSound ent s
    → delta L ent d s at depth c' ≡ ok (tt, c'')
    → addressable v idx here c'' ≡ err (unsupported here)
unfolding addressable ◌>>=◌ add_test
delta-addressable L ent v m d s at depth c c' c'' idx here l h sound e =
    let noted : IsResized (number v) c' = rw h at (ChangesLength-IsResized L v l c) in
    let kept =
      delta_leaves L ent (IsResized (number v)) (λ a b k w. (w.0, k.resized (number v) w.0 w.1))
        (λ t. Keeps-modify _ (λ a k. k)) d s at depth c' sound noted e in
    rw kept.1 refl
