-- ===== src/Tests/Order.antt =====
-- The theorems on sequences of writes and on refusals, applied to steps of a document on a post.
use protobuf_orm.Base.{ℕ, suc, ℤ, ◌≡◌, ◌⊎◌, refl, true, List, [], ◌∷◌, none}
use protobuf_orm.Base.Result.{ok, err}
use protobuf_orm.Base.Table
use protobuf_orm.Proto.Value.{Value}
use protobuf_orm.Ormpatch.Document.{
  Key, Selector, Scope, OnMissing, Literal, Operation, Delta, Entries, Entry, Want,
}
use protobuf_orm.Ormpatch.Errors.{
  At, root, sub, index, immutable, unsupported, format, message_type_mismatch,
}
use protobuf_orm.Ormpatch.Plan.{Op, set_column, edit_json}
use protobuf_orm.Ormpatch.Props.{resolve, index_props}
use protobuf_orm.Ormpatch.State.{Compiler, new_compiler, ◌>>=◌}
use protobuf_orm.Ormpatch.Literal.{check_orm_value, materialize, by_shape}
use protobuf_orm.Ormpatch.Compile.Targets.{
  one, at_column, at_list_elem, list_end_op, column_op, set_element_op, append_op,
}
use protobuf_orm.Ormpatch.Compile.Writes.{
  test, mutable, addressable, resize, check_op, check_json_ops, note_write, fold_write, fold_op,
  write,
}
use protobuf_orm.Ormpatch.Compile.Address.{root_site, list_site, walk, ident, same_ident}
use protobuf_orm.Ormpatch.Compile.Suits.{IsSound}
use protobuf_orm.Ormpatch.Compile.Document.{
  compile_normal, is_for_another, delta, scope_op, targets, select,
}
use protobuf_orm.Ormpatch.Plans.Lengths.{appends}
use protobuf_orm.Ormpatch.Plans.Order.{delta-test, delta-addressable}
use protobuf_orm.Ormpatch.Plans.Folding.{
  Meaning, Call, write_all, write_all-pending, pending, replay,
}
use protobuf_orm.Ormpatch.Plans.Failure.{compile_normal-err}
use protobuf_orm.Tests.Schema.{library, number_ref, post, title, pages}

abbrev here : At
here = root "here"

-- a document that assigns one column
abbrev assigning : ℕ → Delta
assigning n = Delta.delta (
    Entries.cons
      (Entry.entry [] (Scope.targets (Selector.key (Key.field (number_ref n)) ∷ [])) OnMissing.fail
        (Operation.assign (Literal.scalar (9 ∷ []))))
      Entries.end)

abbrev assigned_at : At
assigned_at = index (sub (index (root "delta") "entries" 0) "targets") "selectors" 0

abbrev hello : Op
hello = set_column (Value.bytes (1 ∷ []))

-- the title is written, and is then assigned again
abbrev titled : Compiler
titled = record {
  tests = [];
  order = 2 ∷ [];
  writes = (2, record { prop = title; at = here; op = hello }) ∷ [];
  wrote = (2, here) ∷ [];
  resized = [];
}

abbrev retitled : Compiler
retitled = record titled {
  writes =
      (2, record { prop = title; at = assigned_at; op = set_column (Value.bytes (9 ∷ [])) }) ∷ [];
}

write-titled : write title here hello new_compiler ≡ ok (tt, titled)
unfolding write ◌>>=◌ check_op check_orm_value note_write fold_write Table.lookup Table.insert
write-titled = refl

delta-retitled :
    delta library post (assigning 2) root_site (root "delta") 0 titled ≡ ok (tt, retitled)
unfolding delta ◌>>=◌ walk scope_op targets select one at_column column_op resolve Table.lookup
    Table.insert index_props mutable ident same_ident check_op check_orm_value materialize by_shape
    note_write fold_write fold_op write
delta-retitled = refl

delta-test_example :
    test library (Want.exists true) title none none here retitled ≡ err (unsupported here)
delta-test_example =
    delta-test library post title here hello (assigning 2) (root "delta") 0 new_compiler titled
      retitled (Want.exists true) none none here write-titled delta-retitled

-- a page is appended to the pages
abbrev page_insert : Operation
page_insert = Operation.insert (Literal.scalar (7 ∷ []))

abbrev grown : Compiler
grown = record new_compiler {
  order = 4 ∷ [];
  writes =
      (
        4,
        record {
          prop = pages;
          at = here;
          op = edit_json (append_op (Value.bytes (7 ∷ [])) here ∷ []);
        },
      )
      ∷ [];
  wrote = (4, here) ∷ [];
  resized = (4, here) ∷ [];
}

-- a document within the pages that appends another one
abbrev appending : Delta
appending = Delta.delta (
    Entries.cons (Entry.entry [] (Scope.targets (Selector.append ∷ [])) OnMissing.fail page_insert)
      Entries.end)

abbrev grown_twice : Compiler
grown_twice = record grown {
  writes =
      (
        4,
        record {
          prop = pages;
          at = here;
          op = edit_json (
              append_op (Value.bytes (7 ∷ [])) here
              ∷ append_op (Value.bytes (7 ∷ [])) assigned_at
              ∷ []);
        },
      )
      ∷ [];
}

one-grown :
    one library post page_insert OnMissing.fail (list_site pages) Selector.append here new_compiler
    ≡ ok (tt, grown)
unfolding one ◌>>=◌ at_list_elem list_end_op mutable resize check_op check_json_ops check_orm_value
    materialize by_shape note_write fold_write write Table.lookup Table.insert
one-grown = refl

delta-grown :
    delta library post appending (list_site pages) (root "delta") 0 grown ≡ ok (tt, grown_twice)
unfolding delta ◌>>=◌ walk scope_op targets select one at_list_elem list_end_op Table.lookup
    Table.insert mutable resize ident same_ident check_op check_json_ops check_orm_value materialize
    by_shape note_write fold_write fold_op write
delta-grown = refl

pages-IsSound : IsSound post (list_site pages)
unfolding Table.lookup Table.insert index_props
pages-IsSound = (refl, refl)

delta-addressable_example : addressable pages (ℤ.pos 0) here grown_twice ≡ err (unsupported here)
delta-addressable_example =
    delta-addressable library post pages
      (one library post page_insert OnMissing.fail (list_site pages) Selector.append here) appending
      (list_site pages) (root "delta") 0 new_compiler grown grown_twice (ℤ.pos 0) here
      (appends post page_insert OnMissing.fail here) one-grown pages-IsSound delta-grown

-- the content of a column is how often it was edited since it was last written whole
abbrev edits : Meaning ℕ
edits = record { column = λ v. 0; null = 0; link = λ v. 0; unlink = 0; edit = λ j n. suc n }

abbrev page : ℕ → Op
page i = edit_json (set_element_op (ℤ.pos i) (Value.bytes []) here ∷ [])

abbrev calls : List Call
calls =
    record { prop = pages; at = here; op = page 0 }
    ∷ record { prop = title; at = here; op = hello }
    ∷ record { prop = pages; at = here; op = page 1 }
    ∷ []

abbrev written : Compiler
written = record {
  tests = [];
  order = 4 ∷ 2 ∷ [];
  writes =
      (
        4,
        record {
          prop = pages;
          at = here;
          op = edit_json (
              set_element_op (ℤ.pos 0) (Value.bytes []) here
              ∷ set_element_op (ℤ.pos 1) (Value.bytes []) here
              ∷ []);
        },
      )
      ∷ (2, record { prop = title; at = here; op = hello })
      ∷ [];
  wrote = (4, here) ∷ (2, here) ∷ [];
  resized = [];
}

write_all-written : write_all calls new_compiler ≡ ok (tt, written)
unfolding write_all write ◌>>=◌ check_op check_json_ops check_orm_value note_write fold_write
    fold_op Table.lookup Table.insert
write_all-written = refl

write_all-pending_example :
    pending edits written 4 5 ≡ replay edits calls 4 (pending edits new_compiler 4 5)
write_all-pending_example = write_all-pending edits calls new_compiler written 4 5 write_all-written

-- The key is immutable.
assigning-refused :
    compile_normal library post (record { message_type = "Post"; delta = assigning 1 })
    ≡ err (immutable assigned_at "id")
unfolding compile_normal delta ◌>>=◌ walk scope_op targets select one at_column column_op resolve
    Table.lookup Table.insert index_props mutable ident same_ident
assigning-refused = refl

compile_normal-err_example :
    ((is_for_another "Post" post ≡ true)
      × (immutable assigned_at "id" ≡ format message_type_mismatch (root "message_type")))
    ⊎ (delta library post (assigning 1) root_site (root "delta") 0 new_compiler
        ≡ err (immutable assigned_at "id"))
compile_normal-err_example =
    compile_normal-err library post (record { message_type = "Post"; delta = assigning 1 })
      (immutable assigned_at "id") assigning-refused
