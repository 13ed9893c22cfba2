-- ===== src/Graph/File.antt =====
-- graph/graph.go, Parse, and graph/gogen/gogen.go, ParseFiles.
pub mod Runs
pub mod Complete
pub mod Again
use protobuf_orm.Base.{
  ℕ, suc, String, Bool, true, false, List, [], ◌∷◌, ◌++◌, Option, none, some, length,
}
use protobuf_orm.Base.Dict.{insert, copy_onto}
use protobuf_orm.Base.Result.{ok, err}
use protobuf_orm.Graph.Rpc.{FullNames}
use protobuf_orm.Graph.Store.{Message, Store}
use protobuf_orm.Graph.Failure.{Failure, Outcome, failures, in_name}
use protobuf_orm.Graph.Parser.{Run, and_then, parse_entity}

module _ (N : FullNames) (messages : List Message) where
  -- The depth that suffices: along the recursion every entity is declared and has another name.
  abbrev pub depth : ℕ
  depth = suc (length messages)

  -- `g_.Entities[v.FullName()] = v`, where there is an entity
  abbrev pub note_entity : Outcome (Option ℕ) → Store → Store
  note_entity (ok (some a)) s = record s { entities = insert (s.cell a).full_name a s.entities }
  note_entity (ok none) s = s
  note_entity (err fs) s = s

  -- the loop over the messages of a file
  unfoldable pub parse_messages : List Message → Store → Run (List Failure)
  unfolding parse_entity insert
  parse_messages [] s = some ([], s)
  parse_messages (m ∷ ms) s = and_then (parse_entity N messages depth m s) (λ r s1.
      and_then (parse_messages ms (note_entity r s1))
        (λ fs s2. some (failures m.full_name r ++ fs, s2)))

  -- `g.InPlaceMerge(g_)`, unless there are errors. `g_` has the objects of `g`.
  unfoldable pub merge_graph : Store → List Failure → Store → Outcome (Unit {0}) × Store
  unfolding copy_onto
  merge_graph g [] g_ = (ok tt, record g_ { entities = copy_onto g.entities g_.entities })
  merge_graph g (f ∷ fs) g_ = (err (f, fs), record g_ { entities = g.entities })

  -- Parse, of a file with these messages
  unfoldable pub parse : List Message → Store → Run (Outcome (Unit {0}))
  unfolding parse_messages merge_graph
  parse file g = and_then (parse_messages file g) (λ fs g_. some (merge_graph g fs g_))

-- `protogen.File`: its messages, with what they can name, and whether it is marked for generation
pub record SourceFile : Type 0 where
  pub path : String
  pub package_name : String
  pub generate : Bool
  pub file : List Message
  pub messages : List Message

-- gogen.ParseFiles
unfoldable pub parse_files : FullNames → List SourceFile → Store → Run (Outcome (Unit {0}))
unfolding parse
parse_files N [] g = some (ok tt, g)
parse_files N (f ∷ fs) g = elim f.generate [
  | false ↦ parse_files N fs g
  | true ↦ elim (parse N f.messages f.file g) [
    | none ↦ none
    | some (err es, g') ↦ some (err (in_name f.path es), g')
    | some (ok u, g') ↦ parse_files N fs g'
  ]
]
