-- ===== src/Ormpatch/Plans/Tests.antt =====
-- The predicates of a plan (ormpatch/compile.go: test, and the guards against a miss).
use protobuf_orm.Base.{◌≡◌, true, some, [], ◌∷◌, All, All-append, subst}
use protobuf_orm.Base.Result.{ok}
use protobuf_orm.Graph.Prop.{Prop}
use protobuf_orm.Graph.Entity.{Target, Entity}
use protobuf_orm.Ormpatch.Document.{Document}
use protobuf_orm.Ormpatch.Errors.{At}
use protobuf_orm.Ormpatch.Library.{Library, Limits}
use protobuf_orm.Ormpatch.Plan.{Test, Plan, TestWant, equal}
use protobuf_orm.Ormpatch.State.{Compiler}
use protobuf_orm.Ormpatch.State.Keeps.{Keeps, Keeps-ok, Keeps-modify}
use protobuf_orm.Ormpatch.Compile.Writes.{add_test}
use protobuf_orm.Ormpatch.Compile.Frames.{Extends, write-Keeps, resize-Keeps}
use protobuf_orm.Ormpatch.Compile.Suits.{IsColumn, IndexInRange, WantChecked}
use protobuf_orm.Ormpatch.Compile.Scopes.{Admits-true}
use protobuf_orm.Ormpatch.Compile.Induction.{delta-Keeps}
use protobuf_orm.Ormpatch.Compile.Document.{compile_with}
use protobuf_orm.Ormpatch.Plans.Success.{compile_with-IsRun}
use protobuf_orm.Ormpatch.Plans.Values.{WantFits, check_orm_value-Fits}

-- The test asks about a column of the entity, at an index that the engine addresses, and a value
-- that it compares with fits.
abbrev pub IsAskable : Entity → Test → Type 0
IsAskable ent t = (IsColumn ent t.prop) × (IndexInRange t.index) × WantFits t.prop t.want

WantChecked-WantFits :
    (v : Prop Target) (at : At) (w : TestWant) → WantChecked v at w → WantFits v w
WantChecked-WantFits v at (equal x) h = check_orm_value-Fits v x at h
WantChecked-WantFits v at _ h = tt

module _ (ent : Entity) where
  abbrev Asks : Compiler → Type 0
  Asks c = All (IsAskable ent) c.tests

  Asks-stable : (c c' : Compiler) → Extends c c' → Asks c → Asks c'
  Asks-stable c c' e h = subst (All (IsAskable ent)) e.tests h

  add_test-Asks : (t : Test) → IsAskable ent t → Keeps Asks (add_test t)
  unfolding add_test
  add_test-Asks t k = Keeps-modify _ (λ c h. All-append _ c.tests (t ∷ []) h (k, tt))

-- If `CompileWith` makes a plan, every test of it, the guards against a miss included, asks about a
-- prop that the entity has at that number, an index that it names is at least 0 and at most
-- 2^31 - 1, and every byte string that it compares a UUID column with is 16 bytes long.
pub compile_with-IsAskable :
    (L : Library) (ent : Entity) (d : Document) (lim : Limits) (p : Plan)
    → compile_with L (some ent) (some d) lim ≡ ok p
    → All (IsAskable ent) p.tests
compile_with-IsAskable L ent d lim p h =
    let (q, normal, r) = compile_with-IsRun L ent d lim p h in
    subst (All (IsAskable ent)) r.tests (
      Keeps-ok (Asks ent) _ _
        (delta-Keeps L ent (Asks ent) true
          (λ v at op b w s. write-Keeps (Asks ent) (Asks-stable ent) v at op)
          (λ y v at op b s. write-Keeps (Asks ent) (Asks-stable ent) v at op)
          (resize-Keeps (Asks ent) (Asks-stable ent))
          (λ t b i k. add_test-Asks ent t (b, i, WantChecked-WantFits t.prop t.at t.want k)) q.delta
          _ _ _ (Admits-true q.delta) tt)
        tt r.ran)
