-- ===== src/Proto/Value.antt =====
-- `protoreflect.Value` and `protoreflect.MapKey`: the union of what a field can hold.
use protobuf_orm.Base.{ℕ, String, Bool, true, false, not, List, ◌==◌, str_eq, ℤ, same_int}

pub data MapKey : Type 0 where
  bool : Bool → MapKey
  int : ℤ → MapKey
  uint : ℕ → MapKey
  text : String → MapKey

-- A float is kept as its bit pattern, and an enum as its number. A list of values of a message or
-- a collection is a type of its own.
mutual
  pub data Value : Type 0 where
    bool : Bool → Value
    int : ℤ → Value
    uint : ℕ → Value
    float : ℕ → Value
    text : String → Value
    bytes : List ℕ → Value
    enum : ℤ → Value
    message : String → Fields → Value
    list : Items → Value
    dictionary : Entries → Value

  -- the fields that a message has set, in the order of `m.Set`
  pub data Fields : Type 0 where
    end : Fields
    field : ℕ → Value → Fields → Fields

  pub data Items : Type 0 where
    nil : Items
    cons : Value → Items → Items

  pub data Entries : Type 0 where
    empty : Entries
    entry : MapKey → Value → Entries → Entries

abbrev bool_eq : Bool → Bool → Bool
bool_eq true b = b
bool_eq false b = not b

-- the comparison of two `mk.Interface()` as keys of a Go map
unfoldable pub same_key : MapKey → MapKey → Bool
same_key (bool a) (bool b) = bool_eq a b
same_key (int a) (int b) = same_int a b
same_key (uint a) (uint b) = a == b
same_key (text a) (text b) = str_eq a b
same_key _ _ = false

pub same_index : ℤ → ℤ → Bool
same_index a b = same_int a b
