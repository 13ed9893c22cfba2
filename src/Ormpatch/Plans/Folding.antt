-- ===== src/Ormpatch/Plans/Folding.antt =====
-- The folding of writes (ormpatch/compile.go, `write`), against the writes applied one by one.
use protobuf_orm.Base.{
  ℕ, ◌==◌, ◌≡◌, ap, sym, ◌∙◌, refl, inl, inr, Bool-cases, Option-cases, List, [], ◌∷◌, ◌++◌, none,
  some, some-injective, ==_iff, Option, if◌then◌else◌,
}
use protobuf_orm.Base.Result.{ok, Result-cases, ok-injective}
use protobuf_orm.Base.Table
use protobuf_orm.Base.Table.{Table, lookup-insert}
use protobuf_orm.Proto.Value.{Value}
use protobuf_orm.Graph.Prop.{Prop, number}
use protobuf_orm.Graph.Entity.{Target}
use protobuf_orm.Ormpatch.Errors.{At}
use protobuf_orm.Ormpatch.Plan.{
  JsonOp, Op, set_column, clear_column, set_edge, clear_edge, edit_json, Write,
}
use protobuf_orm.Ormpatch.State.{Compiler, M, pure, ◌>>=◌, ◌>>◌}
use protobuf_orm.Ormpatch.Compile.Writes.{write, note_write, fold_write, fold_op, check_op}

-- What the operations do to the content of a column, of whatever type.
pub record Meaning (S : Type 0) : Type 0 where
  pub column : Value → S
  pub null : S
  pub link : Value → S
  pub unlink : S
  pub edit : JsonOp → S → S

-- A call of `write`.
pub record Call : Type 0 where
  pub prop : Prop Target
  pub at : At
  pub op : Op

-- The calls, one after the other.
unfoldable pub write_all : List Call → M (Unit {0})
write_all [] = pure tt
write_all (k ∷ ks) = write k.prop k.at k.op >> write_all ks

module _ {S : Type 0} (I : Meaning S) where
  abbrev edit_all : List JsonOp → S → S
  edit_all [] s = s
  edit_all (j ∷ js) s = edit_all js (I.edit j s)

  abbrev pub effect : Op → S → S
  effect (set_column v) s = I.column v
  effect clear_column s = I.null
  effect (set_edge k) s = I.link k
  effect clear_edge s = I.unlink
  effect (edit_json js) s = edit_all js s

  abbrev content : Option Write → S → S
  content none s = s
  content (some w) s = effect w.op s

  -- what the pending write makes of the content of column `n`
  abbrev pub pending : Compiler → ℕ → S → S
  pending c n s = content (Table.lookup n c.writes) s

  -- what the calls make of the content of column `n`, each applied in its turn
  abbrev pub replay : List Call → ℕ → S → S
  replay [] n s = s
  replay (k ∷ ks) n s = replay ks n (if number k.prop == n then effect k.op s else s)

  edit_all-append :
      (js ks : List JsonOp) (s : S) → edit_all (js ++ ks) s ≡ edit_all ks (edit_all js s)
  edit_all-append [] ks s = refl
  edit_all-append (j ∷ js) ks s = edit_all-append js ks (I.edit j s)

  effect-fold_op :
      (prev op op' : Op) (s : S)
      → fold_op prev op ≡ some op'
      → effect op' s ≡ effect op (effect prev s)
  unfolding fold_op
  effect-fold_op (edit_json js) (edit_json ks) op' s e =
      sym (ap (λ o. effect o s) (some-injective e)) ∙ edit_all-append js ks s
  effect-fold_op prev (edit_json ks) op' s e = absurd (cc e)
  effect-fold_op prev op op' s e = sym (ap (λ o. effect o s) (some-injective e))

  -- A write of the column of number `m` in the table changes that column alone.
  content-insert :
      (t : Table Write) (m n : ℕ) (w : Write) (s : S)
      → content (Table.lookup n (Table.insert m w t)) s
        ≡ (if m == n then effect w.op s else content (Table.lookup n t) s)
  content-insert t m n w s = elim (Bool-cases (m == n)) [
    | inl e ↦ rw (lookup-insert, e) refl
    | inr e ↦ rw (lookup-insert, e) refl
  ]

  content-fold :
      (t : Table Write) (m n : ℕ) (w : Write) (op : Op) (s : S)
      → effect w.op s ≡ effect op (content (Table.lookup m t) s)
      → content (Table.lookup n (Table.insert m w t)) s ≡ (
          if m == n then effect op (content (Table.lookup n t) s) else content (Table.lookup n t) s)
  content-fold t m n w op s h = content-insert t m n w s ∙ elim (Bool-cases (m == n)) [
    | inl e ↦ rw e (h ∙ ap (λ k. effect op (content (Table.lookup k t) s)) ((==_iff m n).0 e))
    | inr e ↦ rw e refl
  ]

  abbrev step : Prop Target → Op → ℕ → S → S
  step v op n s = if number v == n then effect op s else s

  fold_write-pending :
      (v : Prop Target) (at : At) (op : Op) (c c' : Compiler) (n : ℕ) (s : S)
      → fold_write v at op c ≡ ok (tt, c')
      → pending c' n s ≡ step v op n (pending c n s)
  unfolding fold_write
  fold_write-pending v at op c c' n s h = elim (Option-cases (Table.lookup (number v) c.writes)) [
    | inl e ↦
        sym (ap (λ x. pending (x.1) n s) (ok-injective (rw (e, fold_write) at h)))
        ∙ content-fold c.writes (number v) n _ op s (rw e refl)
    | inr (w, e) ↦ elim (Option-cases (fold_op w.op op)) [
      | inl f ↦ absurd (cc (rw (fold_write, e, f) at h))
      | inr (op', f) ↦
          sym (ap (λ x. pending (x.1) n s) (ok-injective (rw (e, f, fold_write) at h)))
          ∙ content-fold c.writes (number v) n _ op s (rw e (effect-fold_op w.op op op' s f))
    ]
  ]

  note_write-pending :
      (m : ℕ) (at : At) (c : Compiler) (n : ℕ) (s : S)
      → pending (note_write m at c) n s ≡ pending c n s
  unfolding note_write
  note_write-pending m at c n s = elim (Option-cases (Table.lookup m c.wrote)) [
    | inl e ↦ rw (note_write, e) refl
    | inr (x, e) ↦ rw (note_write, e) refl
  ]

  write-pending :
      (v : Prop Target) (at : At) (op : Op) (c c' : Compiler) (n : ℕ) (s : S)
      → write v at op c ≡ ok (tt, c')
      → pending c' n s ≡ step v op n (pending c n s)
  unfolding write ◌>>=◌
  write-pending v at op c c' n s h = elim (Result-cases (check_op v op at)) [
    | inr (x, e) ↦ absurd (cc (rw e at h))
    | inl (u, e) ↦
        fold_write-pending v at op (note_write (number v) at c) c' n s (rw e at h)
        ∙ ap (step v op n) (note_write-pending (number v) at c n s)
  ]

  -- If the compiler accepts a sequence of writes, what its pending writes then make of the content
  -- of a column is what the pending writes before it and then each write of the sequence to that
  -- column make of it, applied one by one in order. That is so for every meaning of the operations
  -- in which the content after a SetColumn, ClearColumn, SetEdge or ClearEdge does not depend on
  -- the content before it.
  pub write_all-pending :
      (ks : List Call) (c c' : Compiler) (n : ℕ) (s : S)
      → write_all ks c ≡ ok (tt, c')
      → pending c' n s ≡ replay ks n (pending c n s)
  unfolding write_all ◌>>=◌
  write_all-pending [] c c' n s h = sym (ap (λ x. pending (x.1) n s) (ok-injective h))
  write_all-pending (k ∷ ks) c c' n s h = elim (Result-cases (write k.prop k.at k.op c)) [
    | inr (x, e) ↦ absurd (cc (rw e at h))
    | inl ((u, c1), e) ↦
        write_all-pending ks c1 c' n s (rw e at h)
        ∙ ap (replay ks n) (write-pending k.prop k.at k.op c c1 n s e)
  ]
