-- ===== src/Ormpatch/Plans/Success.antt =====
-- A compilation that succeeds, as a run of `delta` from the new compiler.
use protobuf_orm.Base.{◌≡◌, ap, ◌∙◌, inl, inr, Bool-cases, some}
use protobuf_orm.Base.Result.{ok, ok-injective, Result-cases}
use protobuf_orm.Graph.Entity.{Entity}
use protobuf_orm.Ormpatch.Document.{Document}
use protobuf_orm.Ormpatch.Errors.{root}
use protobuf_orm.Ormpatch.Library.{Library, Limits}
use protobuf_orm.Ormpatch.Plan.{Plan}
use protobuf_orm.Ormpatch.State.{Compiler, new_compiler}
use protobuf_orm.Ormpatch.Compile.Address.{root_site}
use protobuf_orm.Ormpatch.Compile.Document.{
  delta, collect, plan_of, is_for_another, compile_normal, compile_with,
}

-- The run behind a plan: the document was normalized, and its delta was compiled from the new
-- compiler to a state whose tests and writes are the plan's.
pub record IsRun (L : Library) (ent : Entity) (q : Document) (p : Plan) : Type 0 where
  pub last : Compiler
  pub ran : delta L ent q.delta root_site (root "delta") 0 new_compiler ≡ ok (tt, last)
  pub collected : collect last.order last.writes ≡ ok p.writes
  pub tests : last.tests ≡ p.tests
  pub entity : ent ≡ p.entity

plan_of-IsRun :
    (L : Library) (ent : Entity) (q : Document) (p : Plan)
    → plan_of ent (delta L ent q.delta root_site (root "delta") 0 new_compiler) ≡ ok p
    → IsRun L ent q p
plan_of-IsRun L ent q p h =
    elim (Result-cases (delta L ent q.delta root_site (root "delta") 0 new_compiler)) [
      | inr (x, e) ↦ absurd (cc (rw (e, plan_of) at h))
      | inl ((u, c), e) ↦ elim (Result-cases (collect c.order c.writes)) [
        | inr (x, f) ↦ absurd (cc (rw (e, plan_of, f) at h))
        | inl (ws, f) ↦
            let made : record { entity = ent; tests = c.tests; writes = ws } ≡ p =
              ok-injective (rw (e, plan_of, f) at h) in
            record {
              last = c;
              ran = e;
              collected = f ∙ ap (λ x. ok (x.writes)) made;
              tests = ap (λ x. x.tests) made;
              entity = ap (λ x. x.entity) made;
            }
      ]
    ]

pub compile_normal-IsRun :
    (L : Library) (ent : Entity) (q : Document) (p : Plan)
    → compile_normal L ent q ≡ ok p
    → IsRun L ent q p
unfolding compile_normal
compile_normal-IsRun L ent q p h = elim (Bool-cases (is_for_another q.message_type ent)) [
  | inl e ↦ absurd (cc (rw e at h))
  | inr e ↦ plan_of-IsRun L ent q p (rw e at h)
]

pub compile_with-IsRun :
    (L : Library) (ent : Entity) (d : Document) (lim : Limits) (p : Plan)
    → compile_with L (some ent) (some d) lim ≡ ok p
    → (q : Document) × (L.normalize_with d lim ≡ ok q) × IsRun L ent q p
unfolding compile_with
compile_with-IsRun L ent d lim p h = elim (Result-cases (L.normalize_with d lim)) [
  | inr (x, e) ↦ absurd (cc (rw (e, compile_with) at h))
  | inl (q, e) ↦ (q, e, compile_normal-IsRun L ent q p (rw (e, compile_with) at h))
]
