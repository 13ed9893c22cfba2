-- ===== src/Ormpatch/Plans/Failure.antt =====
-- The compilations that fail (ormpatch/compile.go, `CompileWith`).
use protobuf_orm.Base.{ap, ◌≡◌, ◌⊎◌, inl, inr, ◌∙◌, true, Bool-cases}
use protobuf_orm.Base.Result.{ok, err, Result-cases}
use protobuf_orm.Graph.Prop.{Prop}
use protobuf_orm.Graph.Entity.{Target, Entity}
use protobuf_orm.Ormpatch.Document.{Document}
use protobuf_orm.Ormpatch.Errors.{root, Error, format, message_type_mismatch}
use protobuf_orm.Ormpatch.Library.{Library}
use protobuf_orm.Ormpatch.Plan.{Op}
use protobuf_orm.Ormpatch.State.{Compiler, new_compiler}
use protobuf_orm.Ormpatch.State.Keeps.{Keeps-ok}
use protobuf_orm.Ormpatch.Compile.Address.{root_site}
use protobuf_orm.Ormpatch.Compile.Columns.{
  IsConsistent, IsConsistent-new, write-Keeps, resize-Keeps, add_test-Keeps, collect-ok,
}
use protobuf_orm.Ormpatch.Compile.Scopes.{Admits-true}
use protobuf_orm.Ormpatch.Compile.Induction.{delta-Keeps}
use protobuf_orm.Ormpatch.Compile.Document.{delta, plan_of, is_for_another, compile_normal}

-- The columns of a delta that compiled are consistent.
delta-IsConsistent :
    (L : Library) (ent : Entity) (q : Document) (c : Compiler)
    → delta L ent q.delta root_site (root "delta") 0 new_compiler ≡ ok (tt, c)
    → IsConsistent ent (λ v op. Unit) c
delta-IsConsistent L ent q c e =
    let Q : Prop Target → Op → Type 0 = λ v op. Unit in
    Keeps-ok (IsConsistent ent Q) _ _
      (delta-Keeps L ent (IsConsistent ent Q) true
        (λ v at op b w s. write-Keeps ent Q (λ x p o o' hp ho f. tt) v at op b (λ k. tt))
        (λ y v at op b s. write-Keeps ent Q (λ x p o o' hp ho f. tt) v at op b (λ k. tt))
        (resize-Keeps ent Q) (λ t b i k. add_test-Keeps ent Q t) q.delta _ _ _ (Admits-true q.delta)
        tt)
      (IsConsistent-new ent Q) e

-- If a normalized document does not compile, either its message type is set and is not the
-- entity's, and the error is CodeMessageTypeMismatch at `message_type`, or compiling its delta
-- fails with that very error: that the writes are collected adds no failure, so no write that the
-- order names is missing.
pub compile_normal-err :
    (L : Library) (ent : Entity) (q : Document) (x : Error)
    → compile_normal L ent q ≡ err x
    → ((is_for_another q.message_type ent ≡ true)
        × (x ≡ format message_type_mismatch (root "message_type")))
      ⊎ (delta L ent q.delta root_site (root "delta") 0 new_compiler ≡ err x)
unfolding compile_normal
compile_normal-err L ent q x h = elim (Bool-cases (is_for_another q.message_type ent)) [
  | inl e ↦ inl (e, cc (rw e at h))
  | inr e ↦ elim (Result-cases (delta L ent q.delta root_site (root "delta") 0 new_compiler)) [
    | inr (y, f) ↦ inr (let same : y ≡ x = cc (rw (e, f, plan_of) at h) in f ∙ ap err same)
    | inl ((u, c), f) ↦
        let k = delta-IsConsistent L ent q c f in
        let (ws, got, nums, all) = collect-ok ent _ c.order c.writes k.held k.keyed in
        absurd (cc (rw (e, f, plan_of, got) at h))
  ]
]
