-- ===== src/Ormpatch/EntityOf.antt =====
-- ormpatch/entity.go: the entity of a file.
pub mod Laws
pub mod Keys
use protobuf_orm.Base.{Option, ℕ, String, List, none, some}
use protobuf_orm.Base.Dict.{lookup}
use protobuf_orm.Base.Result.{Result, ok, err}
use protobuf_orm.Graph.Rpc.{FullNames}
use protobuf_orm.Graph.Store.{Store, new_graph}
use protobuf_orm.Graph.Failure.{Failures, Outcome}
use protobuf_orm.Graph.Parser.{Run, and_then}
use protobuf_orm.Graph.File.{SourceFile, parse}

-- the refusals of EntityOf
pub data EntityOfError : Type 0 where
  bad_file : Failures → EntityOfError
  no_entity : String → EntityOfError

abbrev pub answer_of : String → Option ℕ → Result EntityOfError ℕ
answer_of name none = err (no_entity name)
answer_of name (some a) = ok a

abbrev pub entity_named : String → Outcome (Unit {0}) → Store → Result EntityOfError ℕ
entity_named name (err fs) s = err (bad_file fs)
entity_named name (ok u) s = answer_of name (lookup name s.entities)

-- EntityOf: the address of the entity, and the store that it is in
unfoldable pub entity_of : FullNames → SourceFile → String → Run (Result EntityOfError ℕ)
unfolding parse lookup
entity_of N f name =
    and_then (parse N f.messages f.file new_graph)
      (λ r s. some (entity_named (N.append f.package_name name) r s, s))
