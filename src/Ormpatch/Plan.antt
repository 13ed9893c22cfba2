-- ===== src/Ormpatch/Plan.antt =====
-- ormpatch/plan.go: a compiled document.
use protobuf_orm.Base.{
  ℕ, Bool, true, false, ◌&&◌, List, [], ◌∷◌, Option, none, some, ℤ, ◌==◌, if◌then◌else◌,
}
use protobuf_orm.Proto.Value.{MapKey, Value}
use protobuf_orm.Graph.Prop.{Prop, number}
use protobuf_orm.Graph.Entity.{Target, Entity}
use protobuf_orm.Ormpatch.Errors.{At}

pub data JsonOpKind : Type 0 where
  json_set json_remove json_append json_clear : JsonOpKind

-- JSONOp: a field with its `Has…` is an `Option`
pub record JsonOp : Type 0 where
  pub kind : JsonOpKind
  pub key : Option MapKey
  pub index : Option ℤ
  pub value : Option Value
  pub at : At

-- the interface `Op`, with its five implementations
pub data Op : Type 0 where
  set_column : Value → Op
  clear_column : Op
  set_edge : Value → Op
  clear_edge : Op
  edit_json : List JsonOp → Op

pub record Write : Type 0 where
  pub prop : Prop Target
  pub at : At
  pub op : Op

-- TestWant, with the expected value of TestEqual
pub data TestWant : Type 0 where
  equal : Value → TestWant
  exists absent : TestWant

pub record Test : Type 0 where
  pub prop : Prop Target
  pub key : Option MapKey
  pub index : Option ℤ
  pub want : TestWant
  pub at : At

pub record Plan : Type 0 where
  pub entity : Entity
  pub tests : List Test
  pub writes : List Write

abbrev is_nil {ℓ} : {A : Type ℓ} → List A → Bool
is_nil [] = true
is_nil (x ∷ xs) = false

-- the method IsEmpty
unfoldable pub is_empty : Plan → Bool
is_empty p = is_nil p.tests && is_nil p.writes

-- the loop of WriteTo
unfoldable pub find_write : ℕ → List Write → Option Write
find_write n [] = none
find_write n (w ∷ ws) = if number w.prop == n then some w else find_write n ws

-- the method WriteTo; a nil pointer has no write
unfoldable pub write_to : Option Plan → ℕ → Option Write
unfolding find_write
write_to none n = none
write_to (some p) n = find_write n p.writes

-- the method WritesTo
unfoldable pub writes_to : Option Plan → ℕ → Bool
unfolding write_to
writes_to p n = elim (write_to p n) [ none ↦ false | some w ↦ true ]
