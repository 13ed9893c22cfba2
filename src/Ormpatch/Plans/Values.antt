-- ===== src/Ormpatch/Plans/Values.antt =====
-- The lengths of the byte strings that a plan writes to UUID columns and compares them with
-- (ormpatch/value.go, `checkOrmValue`).
use protobuf_orm.Base.{
  ◌≡◌, inl, inr, ◌⊎◌, true, false, Bool-cases, List, [], ◌∷◌, Option, some, none, Option-cases, All,
  All-map, All-append, subst, length, ◌==◌, ==_iff,
}
use protobuf_orm.Base.Result.{ok, Result-cases}
use protobuf_orm.Proto.Value.{Value, Items, Entries}
use protobuf_orm.Ormpb.Kinds.{is_uuid_type}
use protobuf_orm.Graph.Prop.{Prop}
use protobuf_orm.Graph.Entity.{Target, Entity}
use protobuf_orm.Ormpatch.Document.{Document}
use protobuf_orm.Ormpatch.Errors.{At}
use protobuf_orm.Ormpatch.Library.{Library, Limits}
use protobuf_orm.Ormpatch.Plan.{
  JsonOp, JsonOpKind, json_set, json_append, Op, set_column, set_edge, edit_json, Plan, TestWant,
  equal,
}
use protobuf_orm.Ormpatch.Literal.{
  check_orm_value, short_bytes, short_items, short_entries, value_type,
}
use protobuf_orm.Ormpatch.Compile.Writes.{fold_op, check_op, check_json_ops, check_json_op}
use protobuf_orm.Ormpatch.Compile.Columns.{fold_op-cases}
use protobuf_orm.Ormpatch.Compile.Scopes.{Admits-true}
use protobuf_orm.Ormpatch.Compile.Document.{compile_with}
use protobuf_orm.Ormpatch.Plans.Success.{compile_with-IsRun}
use protobuf_orm.Ormpatch.Plans.Columns.{run-writes}

-- A byte string has the 16 bytes of a UUID.
abbrev IsUuid : Value → Type 0
IsUuid (Value.bytes b) = length b ≡ 16
IsUuid _ = Unit

abbrev ItemsAreUuids : Items → Type 0
ItemsAreUuids Items.nil = Unit
ItemsAreUuids (Items.cons v rest) = IsUuid v × ItemsAreUuids rest

abbrev EntriesAreUuids : Entries → Type 0
EntriesAreUuids Entries.empty = Unit
EntriesAreUuids (Entries.entry k v rest) = IsUuid v × EntriesAreUuids rest

-- Every byte string that is the value, an item of it or a value of its entries has 16 bytes.
abbrev pub HoldsUuids : Value → Type 0
HoldsUuids (Value.list is) = ItemsAreUuids is
HoldsUuids (Value.dictionary es) = EntriesAreUuids es
HoldsUuids v = IsUuid v

-- A value that a column of the prop can hold.
abbrev pub Fits : Prop Target → Value → Type 0
Fits p v = (is_uuid_type (value_type p) ≡ false) ⊎ HoldsUuids v

abbrev ValueFits : Prop Target → JsonOpKind → Option Value → Type 0
ValueFits p json_set (some v) = Fits p v
ValueFits p json_append (some v) = Fits p v
ValueFits p _ _ = Unit

-- Every value that the operation writes fits.
abbrev pub OpFits : Prop Target → Op → Type 0
OpFits p (set_column v) = Fits p v
OpFits p (set_edge v) = Fits p v
OpFits p (edit_json js) = All (λ j. ValueFits p j.kind j.value) js
OpFits p _ = Unit

abbrev pub WantFits : Prop Target → TestWant → Type 0
WantFits p (equal v) = Fits p v
WantFits p _ = Unit

short_items-none : (is : Items) → short_items is ≡ none → ItemsAreUuids is
short_items-none Items.nil h = tt
short_items-none (Items.cons (Value.bytes b) rest) h = elim (Bool-cases (length b == 16)) [
  | inl e ↦ ((==_iff _ _).0 e, short_items-none rest (rw e at h))
  | inr e ↦ absurd (cc (rw e at h))
]
short_items-none (Items.cons _ rest) h = (tt, short_items-none rest h)

short_entries-none : (es : Entries) → short_entries es ≡ none → EntriesAreUuids es
short_entries-none Entries.empty h = tt
short_entries-none (Entries.entry k (Value.bytes b) rest) h = elim (Bool-cases (length b == 16)) [
  | inl e ↦ ((==_iff _ _).0 e, short_entries-none rest (rw e at h))
  | inr e ↦ absurd (cc (rw e at h))
]
short_entries-none (Entries.entry k _ rest) h = (tt, short_entries-none rest h)

short_bytes-none : (v : Value) → short_bytes v ≡ none → HoldsUuids v
short_bytes-none (Value.bytes b) h = elim (Bool-cases (length b == 16)) [
  | inl e ↦ (==_iff _ _).0 e
  | inr e ↦ absurd (cc (rw e at h))
]
short_bytes-none (Value.list is) h = short_items-none is h
short_bytes-none (Value.dictionary es) h = short_entries-none es h
short_bytes-none _ h = tt

pub check_orm_value-Fits :
    (p : Prop Target) (v : Value) (at : At) → check_orm_value p v at ≡ ok tt → Fits p v
unfolding check_orm_value
check_orm_value-Fits p v at h = elim (Bool-cases (is_uuid_type (value_type p))) [
  | inr e ↦ inl e
  | inl e ↦ elim (Option-cases (short_bytes v)) [
    | inl f ↦ inr (short_bytes-none v f)
    | inr (n, f) ↦ absurd (cc (rw (e, f) at h))
  ]
]

check_json_op-ValueFits :
    (p : Prop Target) (at : At) (kind : JsonOpKind) (v : Option Value)
    → check_json_op p at kind v ≡ ok tt
    → ValueFits p kind v
check_json_op-ValueFits p at json_set (some v) h = check_orm_value-Fits p v at h
check_json_op-ValueFits p at json_append (some v) h = check_orm_value-Fits p v at h
check_json_op-ValueFits p at _ v h = tt

check_json_ops-All :
    (p : Prop Target) (at : At) (js : List JsonOp)
    → check_json_ops p at js ≡ ok tt
    → All (λ j. ValueFits p j.kind j.value) js
unfolding check_json_ops
check_json_ops-All p at [] h = tt
check_json_ops-All p at (j ∷ js) h = elim (Result-cases (check_json_op p at j.kind j.value)) [
  | inr (x, e) ↦ absurd (cc (rw (e, check_json_ops) at h))
  | inl (u, e) ↦ (
    check_json_op-ValueFits p at j.kind j.value e,
    check_json_ops-All p at js (rw (e, check_json_ops) at h),
  )
]

check_op-OpFits : (p : Prop Target) (op : Op) (at : At) → check_op p op at ≡ ok tt → OpFits p op
unfolding check_op
check_op-OpFits p (set_column v) at h = check_orm_value-Fits p v at h
check_op-OpFits p (set_edge v) at h = check_orm_value-Fits p v at h
check_op-OpFits p (edit_json js) at h = check_json_ops-All p at js h
check_op-OpFits p _ at h = tt

OpFits-fold :
    (v : Prop Target) (prev op op' : Op)
    → OpFits v prev
    → OpFits v op
    → fold_op prev op ≡ some op'
    → OpFits v op'
OpFits-fold v prev op op' hp ho e = elim (fold_op-cases prev op op' e) [
  | inl same ↦ subst (OpFits v) same ho
  | inr (js, ks, ep, eo, same) ↦
      subst (OpFits v) same (All-append _ js ks (subst (OpFits v) ep hp) (subst (OpFits v) eo ho))
]

-- If `CompileWith` makes a plan, every byte string that it writes to a prop of a UUID type (at an
-- edge, to one whose target has a UUID key) is 16 bytes long: the value of a SetColumn or SetEdge
-- itself, the items and entries of a collection, and the value of every set and append of an
-- EditJSON.
pub compile_with-OpFits :
    (L : Library) (ent : Entity) (d : Document) (lim : Limits) (p : Plan)
    → compile_with L (some ent) (some d) lim ≡ ok p
    → All (λ w. OpFits w.prop w.op) p.writes
compile_with-OpFits L ent d lim p h =
    let (q, normal, r) = compile_with-IsRun L ent d lim p h in
    let all =
      run-writes L ent true OpFits OpFits-fold (λ v at op w s e. check_op-OpFits v op at e) q p
        (Admits-true q.delta) r in
    All-map _ _ p.writes (λ w k. k.1) all.1
