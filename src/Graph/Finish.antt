-- ===== src/Graph/Finish.antt =====
-- graph/entity.go, parseEntity, from where the props of the entity are parsed.
use protobuf_orm.Graph.Failure.{
  bad_fields, bad_index, bad_back, Failure, Outcome, one_failure, unless_failed,
}
use protobuf_orm.Base.{ℕ, ◌+◌, List, [], ◌∷◌, map, Option, none, some}
use protobuf_orm.Base.Result.{Result, ok, err, ◌>>=◌}
use protobuf_orm.Ormpb.Options.{IndexOptions, MessageOptions}
use protobuf_orm.Graph.Prop.{Field, Edge, Prop, field, edge, number}
use protobuf_orm.Graph.Entity.{fields, edges}
use protobuf_orm.Graph.Index.{ProtoIndex, IndexError, parse_index}
use protobuf_orm.Graph.Rpc.{FullNames, parse_rpcs}
use protobuf_orm.Graph.Parse.{FieldsError, check_fields, commit_key}
use protobuf_orm.Graph.Parse.Edges.{BackError, find_back, commit_edge}
use protobuf_orm.Graph.Store.{Message, IndexObject, Store, write_object, change_edge}

-- the loop over the indexes, from index `i` on
abbrev gather_index :
    ℕ
    → Result (List IndexError) (ProtoIndex ℕ)
    → List Failure × List IndexObject
    → List Failure × List IndexObject
gather_index i (ok x) (fs, xs) = (fs, record { opts = x.opts; numbers = map number x.props } ∷ xs)
gather_index i (err es) (fs, xs) = (record { path = []; cause = bad_index i es } ∷ fs, xs)

unfoldable pub parse_indexes :
    List (Prop ℕ) → List IndexOptions → ℕ → List Failure × List IndexObject
parse_indexes ps [] i = ([], [])
parse_indexes ps (o ∷ os) i = gather_index i (parse_index ps o) (parse_indexes ps os (i + 1))

-- an edge with the inverse that its back reference names
abbrev pub Link : Type 0
Link = Edge ℕ × Edge ℕ

abbrev gather_link :
    Edge ℕ
    → Result BackError (Option (Edge ℕ))
    → List Failure × List Link
    → List Failure × List Link
gather_link e (ok none) (fs, ls) = (fs, ls)
gather_link e (ok (some inverse)) (fs, ls) = (fs, (e, inverse) ∷ ls)
gather_link e (err x) (fs, ls) = (record { path = e.source.name ∷ []; cause = bad_back x } ∷ fs, ls)

-- the inverse of an edge, among the props that its target has by now
unfoldable pub inverse_of : Store → Edge ℕ → Result BackError (Option (Edge ℕ))
inverse_of s e = elim e.opts.from [
  | none ↦ ok none
  | some back_ref ↦ do inverse ← find_back (s.cell e.target).props back_ref e; ok (some inverse)
]

-- the loop over the edges
unfoldable pub link_edges : Store → List (Edge ℕ) → List Failure × List Link
unfolding inverse_of
link_edges s [] = ([], [])
link_edges s (e ∷ es) = gather_link e (inverse_of s e) (link_edges s es)

-- `edge.inverse = inverse`, and the commit for the two edges. No check reads what this writes.
unfoldable pub run_link : ℕ → Link → Store → Store
unfolding change_edge commit_edge
run_link v (e, inverse) s = change_edge v e.source.number (commit_edge inverse e) (
    change_edge e.target inverse.source.number (commit_edge inverse e)
      (change_edge v e.source.number (λ x. record x { inverse = some inverse.source.full_name }) s))

unfoldable pub run_links : ℕ → List Link → Store → Store
unfolding run_link
run_links v [] s = s
run_links v (l ∷ ls) s = run_links v ls (run_link v l s)

-- the commit on the key
abbrev pub commit_prop : Prop ℕ → Prop ℕ
commit_prop (field f) = field (commit_key f)
commit_prop (edge e) = edge e

abbrev pub fields_outcome : Result FieldsError Field → Outcome Field
fields_outcome (ok k) = ok k
fields_outcome (err e) = err (one_failure (bad_fields e))

module _ (N : FullNames) where
  -- parseEntity from the checks of the fields on. Where it refuses the entity, its object is in no
  -- graph that Parse answers, and what was written to it from here on is left out.
  unfoldable pub accept_entity : Message → MessageOptions → ℕ → Store → Outcome Store
  unfolding check_fields fields edges parse_indexes link_edges write_object run_links
  accept_entity m o v s = do
    let ps = (s.cell v).props
    key ← fields_outcome (check_fields (fields ps))
    indexes ← unless_failed (parse_indexes ps o.indexes 0)
    links ← unless_failed (link_edges s (edges ps))
    let done = record (s.cell v) {
      key = some key.source.number;
      props = map commit_prop ps;
      indexes = indexes;
      rpcs = (parse_rpcs N m.full_name o.rpc).0;
    }
    ok (run_links v links (write_object v done s))
