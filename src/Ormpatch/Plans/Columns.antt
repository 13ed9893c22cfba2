-- ===== src/Ormpatch/Plans/Columns.antt =====
-- The writes of a plan: one for each column, and each of a kind that its column takes.
use protobuf_orm.Base.{
  ◌≡◌, sym, refl, inl, inr, ◌⊎◌, Bool, true, false, List, [], ◌∷◌, some, All, All-map, Distinct,
  map, subst, ==_refl, ==_ne, ◌≢◌, ◌∙◌, All-zip, All-append, All-unmap,
}
use protobuf_orm.Base.Result.{ok, ok-injective}
use protobuf_orm.Graph.Prop.{Prop, number}
use protobuf_orm.Graph.Entity.{Target, Entity}
use protobuf_orm.Ormpatch.Document.{Document}
use protobuf_orm.Ormpatch.Errors.{At}
use protobuf_orm.Ormpatch.Library.{Library, Limits}
use protobuf_orm.Ormpatch.Plan.{Op, Write, Plan, find_write, write_to}
use protobuf_orm.Ormpatch.State.Keeps.{Keeps-ok}
use protobuf_orm.Ormpatch.Compile.Writes.{fold_op, check_op}
use protobuf_orm.Ormpatch.Compile.Suits.{IsColumn, IsWritable, Suits}
use protobuf_orm.Ormpatch.Compile.Scopes.{Admits, Admits-true}
use protobuf_orm.Ormpatch.Compile.Induction.{delta-Keeps}
use protobuf_orm.Ormpatch.Compile.Columns.{
  fold_op-cases, IsConsistent, IsConsistent-new, write-Keeps, resize-Keeps, add_test-Keeps,
  collect-ok,
}
use protobuf_orm.Ormpatch.Compile.Document.{compile_with}
use protobuf_orm.Ormpatch.Plans.Success.{IsRun, compile_with-IsRun}

module _ (L : Library) (ent : Entity) (allowed : Bool) (Q : Prop Target → Op → Type 0)
    (folds : (v : Prop Target) (prev op op' : Op)
      → Q v prev
      → Q v op
      → fold_op prev op ≡ some op'
      → Q v op')
    (holds : (v : Prop Target) (at : At) (op : Op)
      → (allowed ≡ true) ⊎ IsWritable v
      → Suits v op
      → check_op v op at ≡ ok tt
      → Q v op) where
  -- The columns of a run are consistent at its end.
  pub run-IsConsistent :
      (q : Document) (p : Plan)
      → Admits allowed q.delta
      → (r : IsRun L ent q p) → IsConsistent ent Q r.last
  run-IsConsistent q p a r =
      Keeps-ok (IsConsistent ent Q) _ _
        (delta-Keeps L ent (IsConsistent ent Q) allowed
          (λ v at op b w s. write-Keeps ent Q folds v at op b (holds v at op (inr w) s))
          (λ y v at op b s. write-Keeps ent Q folds v at op b (holds v at op (inl y) s))
          (resize-Keeps ent Q) (λ t b i k. add_test-Keeps ent Q t) q.delta _ _ _ a tt)
        (IsConsistent-new ent Q) r.ran

  -- Its writes are of distinct columns, and `Q` holds of each.
  pub run-writes :
      (q : Document) (p : Plan)
      → Admits allowed q.delta
      → IsRun L ent q p
      → Distinct (map (λ w. number w.prop) p.writes)
        × All (λ w. IsColumn ent w.prop × Q w.prop w.op) p.writes
  run-writes q p a r =
      let k = run-IsConsistent q p a r in
      let (ws, got, nums, all) = collect-ok ent Q r.last.order r.last.writes k.held k.keyed in
      let same : ws ≡ p.writes = ok-injective (sym got ∙ r.collected) in
      (
        subst (λ xs. Distinct (map (λ w. number w.prop) xs)) same
            (subst Distinct (sym nums) k.distinct),
        subst (All (λ w. IsColumn ent w.prop × Q w.prop w.op)) same all,
      )

-- Among writes of distinct columns each is found by its column's number.
find_write-All :
    (ws : List Write)
    → Distinct (map (λ w. number w.prop) ws)
    → All (λ w. find_write (number w.prop) ws ≡ some w) ws
unfolding find_write
find_write-All [] d = tt
find_write-All (w ∷ ws) d = (
  rw ==_refl refl,
  All-zip (λ x. number w.prop ≢ number x.prop) (λ x. find_write (number x.prop) ws ≡ some x)
      (λ x. find_write (number x.prop) (w ∷ ws) ≡ some x) ws
      (λ x other found. rw (find_write, ==_ne (number w.prop) (number x.prop) other) found)
      (All-unmap (λ m. number w.prop ≢ m) (λ x. number x.prop) ws d.0) (find_write-All ws d.1),
)

-- If `CompileWith` makes a plan, no two of its writes are of one column number, and `WriteTo`
-- answers each of its writes at the number of the write's column.
pub compile_with-Distinct :
    (L : Library) (ent : Entity) (d : Document) (lim : Limits) (p : Plan)
    → compile_with L (some ent) (some d) lim ≡ ok p
    → Distinct (map (λ w. number w.prop) p.writes)
      × All (λ w. write_to (some p) (number w.prop) ≡ some w) p.writes
unfolding write_to
compile_with-Distinct L ent d lim p h =
    let (q, normal, r) = compile_with-IsRun L ent d lim p h in
    let (distinct, all) =
      run-writes L ent true (λ v op. Unit) (λ v a b c ha hb e. tt) (λ v at op w s e. tt) q p
        (Admits-true q.delta) r in
    (distinct, find_write-All p.writes distinct)

Suits-fold :
    (v : Prop Target) (prev op op' : Op)
    → Suits v prev
    → Suits v op
    → fold_op prev op ≡ some op'
    → Suits v op'
Suits-fold v prev op op' hp ho e = elim (fold_op-cases prev op op' e) [
  | inl same ↦ subst (Suits v) same ho
  | inr (js, ks, ep, eo, same) ↦
      let hj = subst (Suits v) ep hp in
      let hk = subst (Suits v) eo ho in subst (Suits v) same (hj.0, All-append _ js ks hj.1 hk.1)
]

-- If `CompileWith` makes a plan, every write of it is of a prop that the entity has at that
-- number, and its operation is one that the column takes: SetColumn on a field or a list, SetEdge
-- on an edge, ClearColumn on a nullable field, ClearEdge on a nullable edge, and EditJSON on a map
-- or a list, where every index is at least 0 and at most 2^31 - 1.
pub compile_with-Suits :
    (L : Library) (ent : Entity) (d : Document) (lim : Limits) (p : Plan)
    → compile_with L (some ent) (some d) lim ≡ ok p
    → All (λ w. IsColumn ent w.prop × Suits w.prop w.op) p.writes
compile_with-Suits L ent d lim p h =
    let (q, normal, r) = compile_with-IsRun L ent d lim p h in
    (run-writes L ent true Suits Suits-fold (λ v at op w s e. s) q p (Admits-true q.delta) r).1

-- A run without entries that address a container writes only what the schema lets it write.
pub run-IsWritable :
    (L : Library) (ent : Entity) (q : Document) (p : Plan)
    → Admits false q.delta
    → IsRun L ent q p
    → All (λ w. IsWritable w.prop) p.writes
run-IsWritable L ent q p a r =
    let all =
      run-writes L ent false (λ v op. IsWritable v) (λ v x b c ha hb e. hb)
        (λ v at op w s e. elim w [ inl y ↦ absurd (cc y) | inr z ↦ z ]) q p a r in
    All-map _ _ p.writes (λ w k. k.1) all.1

-- If no entry of the normalized document addresses a container as a whole and `CompileWith` makes a
-- plan, every prop that the plan writes is neither immutable nor the version field.
pub compile_with-IsWritable :
    (L : Library) (ent : Entity) (d : Document) (lim : Limits) (p : Plan) (q : Document)
    → L.normalize_with d lim ≡ ok q
    → Admits false q.delta
    → compile_with L (some ent) (some d) lim ≡ ok p
    → All (λ w. IsWritable w.prop) p.writes
compile_with-IsWritable L ent d lim p q normal a h =
    let (q', normal', r) = compile_with-IsRun L ent d lim p h in
    let same : q' ≡ q = ok-injective (sym normal' ∙ normal) in
    run-IsWritable L ent q' p (subst (λ x. Admits false x.delta) (sym same) a) r
