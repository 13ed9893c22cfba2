-- ===== src/Tests/Plans.antt =====
-- The theorems on plans, applied to a document on a post.
use protobuf_orm.Base.{ℕ, ℤ, ◌≡◌, refl, true, false, [], ◌∷◌, none, some, All, Distinct, map}
use protobuf_orm.Base.Result.{ok}
use protobuf_orm.Proto.Value.{MapKey, Value, same_key}
use protobuf_orm.Graph.Prop.{number}
use protobuf_orm.Ormpatch.Document.{
  Key, Selector, Scope, OnMissing, Literal, Operation, Delta, Entries, Entry, Document, Want,
}
use protobuf_orm.Ormpatch.Errors.{At, root, sub, index}
use protobuf_orm.Ormpatch.Plan.{Plan, set_column, set_edge, edit_json, write_to, exists}
use protobuf_orm.Ormpatch.Compile.Targets.{set_element_op, remove_entry_op}
use protobuf_orm.Ormpatch.Compile.Document.{
  compile_with, compile_normal, delta, scope_op, targets, select, collect,
}
use protobuf_orm.Ormpatch.Compile.Address.{walk, walk_step, site_of, enter, ident, same_ident}
use protobuf_orm.Ormpatch.Compile.Targets.{
  one, at_column, at_edge, at_list_elem, at_map_entry, column_op, edge_op, list_elem_op,
  map_entry_op,
}
use protobuf_orm.Ormpatch.Compile.Writes.{
  test, add_test, mutable, addressable, check_op, check_json_ops, note_write, fold_write, fold_op,
  write,
}
use protobuf_orm.Ormpatch.Literal.{check_orm_value, materialize, by_shape}
use protobuf_orm.Ormpatch.Props.{resolve, index_props}
use protobuf_orm.Ormpatch.State.{◌>>=◌}
use protobuf_orm.Base.Table
use protobuf_orm.Ormpatch.Compile.Suits.{IsColumn, Suits, IsWritable}
use protobuf_orm.Ormpatch.Compile.Scopes.{Admits}
use protobuf_orm.Ormpatch.Plans.Columns.{
  compile_with-Distinct, compile_with-Suits, compile_with-IsWritable,
}
use protobuf_orm.Ormpatch.Plans.Values.{OpFits, compile_with-OpFits}
use protobuf_orm.Ormpatch.Plans.Tests.{IsAskable, compile_with-IsAskable}
use protobuf_orm.Ormpatch.Plans.Depth.{NestsWithin, compile_with-NestsWithin}
use protobuf_orm.Tests.Schema.{
  library, number_ref, sixteen, post, title, labels, pages, author, revision,
}

abbrev pub at_field : ℕ → Operation → Entry
at_field n op =
    Entry.entry [] (Scope.targets (Selector.key (Key.field (number_ref n)) ∷ [])) OnMissing.fail op

abbrev under : ℕ → Selector → Operation → Entry
under n sel op =
    Entry.entry (Key.field (number_ref n) ∷ []) (Scope.targets (sel ∷ [])) OnMissing.fail op

-- the revision is asked for, the title, a page and the author are assigned, and a label is removed
-- inside a `nest`
abbrev edit : Document
edit = record {
  message_type = "Post";
  delta = Delta.delta (
      Entries.cons (at_field 6 (Operation.test (Want.exists true))) (
        Entries.cons (at_field 2 (Operation.assign (Literal.scalar (104 ∷ 105 ∷ [])))) (
          Entries.cons
            (under 4 (Selector.key (Key.index (ℤ.pos 0)))
              (Operation.assign (Literal.scalar (112 ∷ []))))
            (Entries.cons
              (under 5 (Selector.key (Key.field (number_ref 1)))
                (Operation.assign (Literal.scalar sixteen)))
              (Entries.cons
                (at_field 3 (
                  Operation.nest (
                    Delta.delta (
                      Entries.cons
                        (Entry.entry [] (Scope.targets (Selector.key (Key.map_key (7 ∷ [])) ∷ []))
                          OnMissing.skip Operation.remove)
                        Entries.end))))
                Entries.end)))));
}

abbrev pub entry_at : ℕ → At
entry_at i = index (sub (index (root "delta") "entries" i) "targets") "selectors" 0

abbrev nested_at : At
nested_at =
    index
      (sub
        (index (sub (sub (sub (index (root "delta") "entries" 4) "targets") "nest") "delta")
          "entries" 0)
        "targets")
      "selectors" 0

abbrev edit_plan : Plan
edit_plan = record {
  entity = post;
  tests =
      record { prop = revision; key = none; index = none; want = exists; at = entry_at 0 }
      ∷ record { prop = pages; key = none; index = some (ℤ.pos 0); want = exists; at = entry_at 2 }
      ∷ [];
  writes =
      record { prop = title; at = entry_at 1; op = set_column (Value.bytes (104 ∷ 105 ∷ [])) }
      ∷ record {
        prop = pages;
        at = entry_at 2;
        op = edit_json (set_element_op (ℤ.pos 0) (Value.bytes (112 ∷ [])) (entry_at 2) ∷ []);
      }
      ∷ record { prop = author; at = entry_at 3; op = set_edge (Value.bytes sixteen) }
      ∷ record {
        prop = labels;
        at = nested_at;
        op = edit_json (remove_entry_op (MapKey.uint 7) nested_at ∷ []);
      }
      ∷ [];
}

-- The document compiles to this plan.
edit-compiles : compile_with library (some post) (some edit) [] ≡ ok edit_plan
unfolding compile_with compile_normal delta ◌>>=◌ walk scope_op targets select one at_column at_edge
    at_list_elem at_map_entry column_op edge_op list_elem_op map_entry_op resolve Table.lookup
    Table.insert index_props test add_test mutable site_of walk_step enter ident same_ident
    addressable check_op check_json_ops check_orm_value materialize by_shape note_write fold_write
    fold_op write same_key collect
edit-compiles = refl

-- No entry of it addresses a container as a whole.
edit-Admits : Admits false edit.delta
unfolding Admits
edit-Admits = ((tt, tt), ((tt, tt), ((tt, tt), ((tt, tt), ((tt, ((tt, tt), tt)), tt)))))

compile_with-Distinct_example :
    Distinct (map (λ w. number w.prop) edit_plan.writes)
    × All (λ w. write_to (some edit_plan) (number w.prop) ≡ some w) edit_plan.writes
compile_with-Distinct_example = compile_with-Distinct library post edit [] edit_plan edit-compiles

compile_with-Suits_example : All (λ w. IsColumn post w.prop × Suits w.prop w.op) edit_plan.writes
compile_with-Suits_example = compile_with-Suits library post edit [] edit_plan edit-compiles

compile_with-IsWritable_example : All (λ w. IsWritable w.prop) edit_plan.writes
compile_with-IsWritable_example =
    compile_with-IsWritable library post edit [] edit_plan edit refl edit-Admits edit-compiles

compile_with-OpFits_example : All (λ w. OpFits w.prop w.op) edit_plan.writes
compile_with-OpFits_example = compile_with-OpFits library post edit [] edit_plan edit-compiles

compile_with-IsAskable_example : All (IsAskable post) edit_plan.tests
compile_with-IsAskable_example = compile_with-IsAskable library post edit [] edit_plan edit-compiles

compile_with-NestsWithin_example :
    (q : Document) × (library.normalize_with edit [] ≡ ok q) × NestsWithin 64 q.delta
compile_with-NestsWithin_example =
    compile_with-NestsWithin library post edit [] edit_plan edit-compiles
