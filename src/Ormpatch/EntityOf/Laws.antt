-- ===== src/Ormpatch/EntityOf/Laws.antt =====
-- What EntityOf answers (ormpatch/entity.go).
use protobuf_orm.Base.{ℕ, ◌≡◌, refl, ap, ◌∙◌, String, Option, none, some}
use protobuf_orm.Base.Dict.{lookup}
use protobuf_orm.Base.Result.{Result, ok, err}
use protobuf_orm.Graph.Rpc.{FullNames}
use protobuf_orm.Graph.Store.{Store, new_graph}
use protobuf_orm.Graph.Failure.{Outcome}
use protobuf_orm.Graph.File.{SourceFile}
use protobuf_orm.Graph.File.Runs.{parse-Ends}
use protobuf_orm.Graph.File.Complete.{IsWellFormed, parse-IsWellFormed}
use protobuf_orm.Ormpatch.EntityOf.{EntityOfError, answer_of, entity_named, entity_of}

pub new_graph-IsWellFormed : IsWellFormed new_graph
unfolding lookup
new_graph-IsWellFormed = record {
  named = λ name a h. absurd (cc h);
  complete = λ name a h. absurd (cc h);
}

-- What an answer of EntityOf means.
abbrev pub IsAnswer : String → Result EntityOfError ℕ → Store → Type 0
IsAnswer name (err x) s = Unit
IsAnswer name (ok a) s = IsWellFormed s × (lookup name s.entities ≡ some a)

answer_of-IsAnswer :
    (name : String) (o : Option ℕ) (s : Store)
    → IsWellFormed s
    → lookup name s.entities ≡ o
    → IsAnswer name (answer_of name o) s
answer_of-IsAnswer name none s well h = tt
answer_of-IsAnswer name (some a) s well h = (well, h)

entity_named-IsAnswer :
    (name : String) (r : Outcome (Unit {0})) (s : Store)
    → ((u : Unit {0}) → r ≡ ok u → IsWellFormed s)
    → IsAnswer name (entity_named name r s) s
entity_named-IsAnswer name (err fs) s well = tt
entity_named-IsAnswer name (ok u) s well =
    answer_of-IsAnswer name (lookup name s.entities) s (well u refl) refl

-- EntityOf ends, and what it answers is the entity of that name in the file's package, in a graph
-- in which every entity is finished.
pub entity_of-IsAnswer :
    (N : FullNames) (f : SourceFile) (name : String)
    → (r : Result EntityOfError ℕ) × (s : Store) × (entity_of N f name ≡ some (r, s))
      × IsAnswer (N.append f.package_name name) r s
unfolding entity_of
entity_of-IsAnswer N f name =
    let (r, s, e) = parse-Ends N f.messages f.file new_graph in
    let full = N.append f.package_name name in
    (
      entity_named full r s,
      s,
      rw (entity_of, e) refl,
      entity_named-IsAnswer full r s (λ u h.
          (parse-IsWellFormed N f.messages f.file new_graph u s new_graph-IsWellFormed
            (e ∙ ap (λ x. some (x, s)) h)).0),
    )
