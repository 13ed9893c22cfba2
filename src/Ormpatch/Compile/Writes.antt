-- ===== src/Ormpatch/Compile/Writes.antt =====
-- The methods of `compiler` that read and change its state: mutable, write, checkOp, resize,
-- addressable, test, testAbsent.
use protobuf_orm.Base.{
  ℕ, Bool, true, false, ◌&&◌, ◌||◌, List, [], ◌∷◌, ◌++◌, Option, none, some, ℤ, ltb, is_negative,
  if◌then◌else◌,
}
use protobuf_orm.Base.Result.{Result, ok, err}
use protobuf_orm.Base.Table
use protobuf_orm.Proto.{FieldDescriptor}
use protobuf_orm.Proto.Value.{MapKey, Value}
use protobuf_orm.Ormpb.Kinds.{is_json_type}
use protobuf_orm.Graph.Prop.{
  Prop, field, edge, name, number, prop_type, is_immutable, is_version, is_collection,
}
use protobuf_orm.Graph.Entity.{Target}
use protobuf_orm.Ormpatch.Document.{Want}
use protobuf_orm.Ormpatch.Errors.{
  At, Error, format, unsupported, immutable, version_write, missing_oneof, test_failed,
}
use protobuf_orm.Ormpatch.Library.{Library, Place, whole_field, element, map_value}
use protobuf_orm.Ormpatch.Plan.{
  JsonOp, JsonOpKind, json_set, json_append, Op, set_column, set_edge, edit_json, Test, equal,
  exists, absent,
}
use protobuf_orm.Ormpatch.Literal.{materialize, check_orm_value}
use protobuf_orm.Ormpatch.State.{Compiler, M, fail, lift, gets, modify, ◌>>=◌, ◌>>◌}

-- compiler.mutable
unfoldable pub mutable : Prop Target → At → Result Error (Unit {0})
mutable v at =
    if is_immutable v
    then err (immutable at (name v))
    else if is_version v
    then err (version_write at (name v))
    else ok tt

-- compiler.resize: the first change of a column's length is kept
unfoldable pub resize : Prop Target → At → M (Unit {0})
resize v at = modify (λ c. elim (Table.lookup (number v) c.resized) [
  | none ↦ record c { resized = Table.insert (number v) at c.resized }
  | some old ↦ c
])

-- whether an operation of this kind carries a value
abbrev pub carries_value : JsonOpKind → Bool
carries_value json_set = true
carries_value json_append = true
carries_value _ = false

-- the check of `checkOp` on one operation of an EditJSON; a value that is not there is Go's zero
-- value, which is no byte string
abbrev pub check_json_op : Prop Target → At → JsonOpKind → Option Value → Result Error (Unit {0})
check_json_op p at kind none = ok tt
check_json_op p at kind (some v) = if carries_value kind then check_orm_value p v at else ok tt

unfoldable pub check_json_ops : Prop Target → At → List JsonOp → Result Error (Unit {0})
check_json_ops p at [] = ok tt
check_json_ops p at (j ∷ js) =
    let rest = check_json_ops p at js in
    elim (check_json_op p at j.kind j.value) [ err e ↦ err e | ok _ ↦ rest ]

-- checkOp
unfoldable pub check_op : Prop Target → Op → At → Result Error (Unit {0})
check_op p (set_column v) at = check_orm_value p v at
check_op p (set_edge k) at = check_orm_value p k at
check_op p (edit_json js) at = check_json_ops p at js
check_op p _ at = ok tt

-- the later operation on a column that has a pending one: two edits are joined, and a partial edit
-- after a whole write is refused
unfoldable pub fold_op : Op → Op → Option Op
fold_op (edit_json prev) (edit_json next) = some (edit_json (prev ++ next))
fold_op prev (edit_json next) = none
fold_op prev op = some op

-- where the folded write says that it came from: joined edits keep the first position
abbrev pub fold_at : Op → Op → At → At → At
fold_at (edit_json prev) (edit_json next) first at = first
fold_at prev op first at = at

-- `if _, ok := c.wrote[n]; !ok { c.wrote[n] = at }`
unfoldable pub note_write : ℕ → At → Compiler → Compiler
note_write n at c = elim (Table.lookup n c.wrote) [
  | none ↦ record c { wrote = Table.insert n at c.wrote }
  | some old ↦ c
]

-- the rest of `write`, from the lookup of the pending write on
unfoldable pub fold_write : Prop Target → At → Op → M (Unit {0})
fold_write v at op c = elim (Table.lookup (number v) c.writes) [
  | none ↦ ok (
    tt,
    record c {
      order = c.order ++ number v ∷ [];
      writes = Table.insert (number v) (record { prop = v; at = at; op = op }) c.writes;
    },
  )
  | some w ↦ elim (fold_op w.op op) [
    | none ↦ err (unsupported at)
    | some op' ↦ ok (
      tt,
      record c {
        writes =
            Table.insert (number v) (record w { op = op'; at = fold_at w.op op w.at at }) c.writes;
      },
    )
  ]
]

-- compiler.write
unfoldable pub write : Prop Target → At → Op → M (Unit {0})
write v at op = do lift (check_op v op at); modify (note_write (number v) at); fold_write v at op

-- maxListIndex
abbrev pub max_list_index : ℕ
max_list_index = 2147483647

abbrev pub above : ℤ → ℕ → Bool
above (ℤ.pos n) limit = ltb limit n
above (ℤ.negsuc n) limit = false

-- compiler.addressable
unfoldable pub addressable : Prop Target → ℤ → At → M (Unit {0})
addressable v idx at = do
  resized ← gets (λ c. Table.lookup (number v) c.resized)
  lift (elim resized [
    | some by ↦ err (unsupported at)
    | none ↦
        if is_negative idx
        then err (unsupported at)
        else if above idx max_list_index
        then err (unsupported at)
        else ok tt
  ])

-- `c.tests = append(c.tests, t)`
unfoldable pub add_test : Test → M (Unit {0})
add_test t = modify (λ c. record c { tests = c.tests ++ t ∷ [] })

-- isJSONColumn
unfoldable pub is_json_column : Prop Target → Bool
is_json_column v = is_collection v || is_json_type (prop_type v)

-- the descriptor and the site against which the expected value of a test is read
abbrev pub test_descriptor : Prop Target → FieldDescriptor
test_descriptor (field f) = f.source
test_descriptor (edge e) = e.target.key.source

abbrev pub test_place : Prop Target → Option MapKey → Option ℤ → Place
test_place (edge e) key idx = whole_field
test_place (field f) (some k) idx = map_value
test_place (field f) none (some i) = element
test_place (field f) none none = whole_field

abbrev pub is_none {ℓ} : {A : Type ℓ} → Option A → Bool
is_none none = true
is_none (some a) = false

module _ (L : Library) where
  -- the switch of `test` on what is wanted
  abbrev pub test_want : Want → Prop Target → Option MapKey → Option ℤ → At → M (Unit {0})
  test_want (Want.exists true) v key idx at =
      add_test (record { prop = v; key = key; index = idx; want = exists; at = at })
  test_want (Want.exists false) v key idx at =
      add_test (record { prop = v; key = key; index = idx; want = absent; at = at })
  test_want (Want.value x) v key idx at =
      if is_none key && is_none idx && is_json_column v then fail (unsupported at) else do
        pv ← lift (materialize L x (test_descriptor v) (test_place v key idx) at)
        lift (check_orm_value v pv at)
        add_test (record { prop = v; key = key; index = idx; want = equal pv; at = at })
  test_want Want.unset v key idx at = fail (format missing_oneof at)

  -- compiler.test
  unfoldable pub test : Want → Prop Target → Option MapKey → Option ℤ → At → M (Unit {0})
  test want v key idx at = do
    written ← gets (λ c. Table.lookup (number v) c.wrote)
    elim written [ some w ↦ fail (unsupported at) | none ↦ test_want want v key idx at ]

-- compiler.testAbsent
unfoldable pub test_absent : Want → At → Result Error (Unit {0})
test_absent (Want.exists false) at = ok tt
test_absent want at = err (format test_failed at)
