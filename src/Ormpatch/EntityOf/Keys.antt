-- ===== src/Ormpatch/EntityOf/Keys.antt =====
-- The compiler on an entity that EntityOf answers (ormpatch/entity.go, ormpatch/compile.go).
use protobuf_orm.Base.{
  ℕ, ◌≡◌, ◌≢◌, sym, ap, ◌∙◌, subst, String, true, false, map, All, All-map, Distinct, some,
  some-injective,
}
use protobuf_orm.Base.Result.{Result, ok}
use protobuf_orm.Ormpb.Options.{get_bool}
use protobuf_orm.Graph.Prop.{field, is_immutable}
use protobuf_orm.Graph.Entity.{Target, Entity, fields}
use protobuf_orm.Graph.Rpc.{FullNames}
use protobuf_orm.Graph.Store.{Store}
use protobuf_orm.Graph.File.{SourceFile}
use protobuf_orm.Graph.View.{entity_at}
use protobuf_orm.Graph.View.Laws.{number_of, entity_at-some}
use protobuf_orm.Ormpatch.Document.{Document}
use protobuf_orm.Ormpatch.Library.{Library, Limits}
use protobuf_orm.Ormpatch.Plan.{Plan}
use protobuf_orm.Ormpatch.Compile.Document.{compile_with}
use protobuf_orm.Ormpatch.Compile.Scopes.{Admits}
use protobuf_orm.Ormpatch.Plans.Columns.{compile_with-IsWritable}
use protobuf_orm.Ormpatch.EntityOf.{EntityOfError, entity_of}
use protobuf_orm.Ormpatch.EntityOf.Laws.{IsAnswer, entity_of-IsAnswer}

pub entity_of-eq-ok :
    (N : FullNames) (f : SourceFile) (name : String) (a : ℕ) (s : Store)
    → entity_of N f name ≡ some (ok a, s)
    → IsAnswer (N.append f.package_name name) (ok a) s
entity_of-eq-ok N f name a s h =
    let (r, s', e, answer) = entity_of-IsAnswer N f name in
    let same : ◌≡◌ {A = Result EntityOfError ℕ × Store} (r, s') (ok a, s) =
      some-injective (sym e ∙ h) in
    subst (λ (x : Result EntityOfError ℕ × Store). IsAnswer (N.append f.package_name name) x.0 x.1)
      same answer

-- If EntityOf answers an entity, whose fields have distinct numbers, and `CompileWith` makes a plan
-- for it of a document in which no entry, once normalized, addresses a container as a whole, then
-- the plan does not write the key.
pub entity_of-compile_with :
    (N : FullNames) (f : SourceFile) (name : String) (a : ℕ) (s : Store) (e : Entity) (L : Library)
    (d q : Document) (lim : Limits) (p : Plan)
    → entity_of N f name ≡ some (ok a, s)
    → Distinct (map number_of (fields (s.cell a).props))
    → entity_at N s a ≡ some e
    → L.normalize_with d lim ≡ ok q
    → Admits false q.delta
    → compile_with L (some e) (some d) lim ≡ ok p
    → All (λ w. w.prop ≢ field e.key) p.writes
entity_of-compile_with N f name a s e L d q lim p answered apart seen normal admits compiled =
    let (well, listed) = entity_of-eq-ok N f name a s answered in
    let (e', seen', named, marked, unique, immutable, same) =
      entity_at-some N s (N.append f.package_name name) a well listed apart in
    let fixed : e.key.opts.immutable ≡ some true =
      subst (λ x. x.key.opts.immutable ≡ some true) (some-injective (sym seen' ∙ seen)) immutable in
    All-map _ _ p.writes
      (λ w h k. absurd (cc (h.0, ap (is_immutable {T = Target}) k, ap get_bool fixed)))
      (compile_with-IsWritable L e d lim p q normal admits compiled)
