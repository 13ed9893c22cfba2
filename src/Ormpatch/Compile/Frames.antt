-- ===== src/Ormpatch/Compile/Frames.antt =====
-- What `write` and `resize` (ormpatch/compile.go) leave of the compiler's state.
use protobuf_orm.Base.{
  ℕ, ◌≡◌, refl, inl, inr, Option-cases, Bool-cases, ◌==◌, ==_iff, some, none, ap,
}
use protobuf_orm.Base.Table
use protobuf_orm.Base.Table.{Table, lookup-insert}
use protobuf_orm.Graph.Prop.{Prop, number}
use protobuf_orm.Graph.Entity.{Target}
use protobuf_orm.Ormpatch.Errors.{At}
use protobuf_orm.Ormpatch.Plan.{Op}
use protobuf_orm.Ormpatch.State.{Compiler}
use protobuf_orm.Ormpatch.State.Keeps.{Keeps, Keeps-modify, Keeps-lift, Keeps-bind, Leaves}
use protobuf_orm.Ormpatch.Compile.Writes.{resize, write, note_write, fold_write, fold_op, check_op}

-- The tests are the same, and a position that is noted of a column stays the one that is noted.
pub record Extends (c c' : Compiler) : Type 0 where
  pub tests : c.tests ≡ c'.tests
  pub wrote :
      (n : ℕ) (at : At) → Table.lookup n c.wrote ≡ some at → Table.lookup n c'.wrote ≡ some at
  pub resized :
      (n : ℕ) (at : At) → Table.lookup n c.resized ≡ some at → Table.lookup n c'.resized ≡ some at

Extends-refl : (c : Compiler) → Extends c c
Extends-refl c = record { tests = refl; wrote = λ n at h. h; resized = λ n at h. h }

-- A new key of a table hides no other.
stays :
    (t : Table At) (n : ℕ) (x : At)
    → Table.lookup n t ≡ none
    → (m : ℕ) (at : At) → Table.lookup m t ≡ some at
    → Table.lookup m (Table.insert n x t) ≡ some at
stays t n x free m at h = elim (Bool-cases (n == m)) [
  | inl e ↦ absurd (cc (ap (λ k. Table.lookup k t) ((==_iff n m).0 e)))
  | inr e ↦ rw (lookup-insert, e) h
]

note_write-Extends : (n : ℕ) (at : At) (c : Compiler) → Extends c (note_write n at c)
unfolding note_write
note_write-Extends n at c = elim (Option-cases (Table.lookup n c.wrote)) [
  | inl e ↦
      rw (note_write, e)
        (record { tests = refl; wrote = stays c.wrote n at e; resized = λ m x h. h })
  | inr (w, e) ↦ rw (note_write, e) (Extends-refl c)
]

-- `P` holds of what extends a state of which it holds.
module _ (P : Compiler → Type 0) (stable : (c c' : Compiler) → Extends c c' → P c → P c') where
  pub fold_write-Leaves :
      (v : Prop Target) (at : At) (op : Op) (c : Compiler) → P c → Leaves P (fold_write v at op c)
  unfolding fold_write
  fold_write-Leaves v at op c h = elim (Option-cases (Table.lookup (number v) c.writes)) [
    | inl e ↦
        rw (fold_write, e, Leaves)
          (stable c _ (record { tests = refl; wrote = λ n x k. k; resized = λ n x k. k }) h)
    | inr (w, e) ↦ elim (Option-cases (fold_op w.op op)) [
      | inl f ↦ rw (fold_write, e, f, Leaves) tt
      | inr (op', f) ↦
          rw (fold_write, e, f, Leaves)
            (stable c _ (record { tests = refl; wrote = λ n x k. k; resized = λ n x k. k }) h)
    ]
  ]

  pub write-Keeps : (v : Prop Target) (at : At) (op : Op) → Keeps P (write v at op)
  unfolding write
  write-Keeps v at op = Keeps-bind _ _ (Keeps-lift (check_op v op at)) λ u.
      Keeps-bind _ _ (Keeps-modify _ (λ c. stable c _ (note_write-Extends (number v) at c)))
        (λ u'. record { at = fold_write-Leaves v at op })

  pub resize-Keeps : (v : Prop Target) (at : At) → Keeps P (resize v at)
  unfolding resize
  resize-Keeps v at = Keeps-modify _ (λ c h.
      elim (Option-cases (Table.lookup (number v) c.resized)) [
        | inl e ↦ rw e (
            stable c _
              (record {
                tests = refl;
                wrote = λ n x k. k;
                resized = stays c.resized (number v) at e;
              })
              h)
        | inr (w, e) ↦ rw e h
      ])
