-- ===== src/Ormpatch/Request/Generated.antt =====
-- Requests of the messages that are generated from an entity's layout (ormpatch/frompatchreq.go,
-- graph/patchreq.go).
use protobuf_orm.Base.{ℕ, ◌≡◌, refl, Bool, true, false, Option, none, some, if◌then◌else◌, subst}
use protobuf_orm.Base.Result.{Result, ok, err, ◌>>=◌, ok-injective}
use protobuf_orm.Base.Table
use protobuf_orm.Base.Table.{Table}
use protobuf_orm.Proto.{FieldDescriptor, is_bool_kind, is_bytes_kind, is_message_kind}
use protobuf_orm.Proto.Value.{Value, Items, Entries as ValueEntries}
use protobuf_orm.Graph.Prop.{Prop, Edge, field, edge}
use protobuf_orm.Graph.Entity.{Target}
use protobuf_orm.Graph.Patch.{PatchSlot, ref, value, flag}
use protobuf_orm.Ormpatch.Errors.{At, Error, request_layout, panicked}
use protobuf_orm.Ormpatch.Library.{Library, Place}
use protobuf_orm.Ormpatch.Request.{
  Request, EdgeResolver, bool_of, message_of, has_entries, has_items, bytes_of,
}

-- The errors that are no client's fault: the layout does not match, or Go panics.
abbrev pub is_fault : Error → Bool
is_fault (request_layout n) = true
is_fault panicked = true
is_fault _ = false

-- An error of the result is none of those.
abbrev pub Faultless : {A : Type 0} → Result Error A → Type 0
Faultless r = (x : Error) → r ≡ err x → is_fault x ≡ false

pub Faultless-ok : {A : Type 0} (a : A) → Faultless (ok a)
Faultless-ok a x h = absurd (cc h)

pub Faultless-err : {A : Type 0} (y : Error) → is_fault y ≡ false → Faultless {A = A} (err y)
Faultless-err y k x h = cc (k, h)

pub Faultless->>= :
    {A B : Type 0} (r : Result Error A) (f : A → Result Error B)
    → Faultless r
    → ((a : A) → r ≡ ok a → Faultless (f a))
    → Faultless (r >>= f)
Faultless->>= (ok a) f h k = k a refl
Faultless->>= (err e) f h k = λ x l. h x (cc l)

pub Faultless-if :
    {A : Type 0} (b : Bool) (y : Error) (r : Result Error A)
    → is_fault y ≡ false
    → (b ≡ false → Faultless r)
    → Faultless (if b then err y else r)
Faultless-if true y r k h = Faultless-err y k
Faultless-if false y r k h = h refl

abbrev pub is_dictionary : Value → Bool
is_dictionary (Value.dictionary es) = true
is_dictionary _ = false

abbrev pub is_sequence : Value → Bool
is_sequence (Value.list is) = true
is_sequence _ = false

abbrev pub is_truth_value : Value → Bool
is_truth_value (Value.bool b) = true
is_truth_value _ = false

abbrev pub is_octets : Value → Bool
is_octets (Value.bytes b) = true
is_octets _ = false

abbrev pub is_message_value : Value → Bool
is_message_value (Value.message md fs) = true
is_message_value _ = false

-- The value is one that protobuf lets the field hold, as far as the conversion asks.
pub record IsTyped (fd : FieldDescriptor) (v : Value) : Type 0 where
  pub mapped : fd.is_map ≡ true → is_dictionary v ≡ true
  pub listed : fd.is_map ≡ false → fd.is_list ≡ true → is_sequence v ≡ true
  pub truth :
      fd.is_map ≡ false → fd.is_list ≡ false → is_bool_kind fd.kind ≡ true → is_truth_value v ≡ true
  pub octets :
      fd.is_map ≡ false → fd.is_list ≡ false → is_bytes_kind fd.kind ≡ true → is_octets v ≡ true
  pub submessage :
      fd.is_map ≡ false
      → fd.is_list ≡ false
      → is_message_kind fd.kind ≡ true
      → is_message_value v ≡ true

-- `Fields().ByNumber` answers the field of that number, and `Get` a value that it holds.
abbrev pub IsMessage : Request → Type 0
IsMessage req =
    (n : ℕ) (fd : FieldDescriptor)
    → req.by_number n ≡ some fd
    → (fd.number ≡ n) × IsTyped fd (req.get n)

-- The field is declared for the value of the prop: for that of a field, with its kind, and for that of
-- an edge, as a message, or as a list of them where the edge is a list.
abbrev pub Declares : Prop Target → FieldDescriptor → Type 0
Declares (edge ed) fd =
    (fd.is_map ≡ false) × (fd.is_list ≡ ed.source.is_list) × (is_message_kind fd.kind ≡ true)
Declares (field f) fd =
    (fd.is_map ≡ f.source.is_map) × (fd.is_list ≡ f.source.is_list) × (fd.kind ≡ f.source.kind)

-- The field that the generator makes of a slot: a bool for a flag.
abbrev pub HasField : Request → ℕ → PatchSlot → Type 0
HasField req n ref = Unit
HasField req n (value p) = (fd : FieldDescriptor) × (req.by_number n ≡ some fd) × Declares p fd
HasField req n (flag p) =
    (fd : FieldDescriptor) × (req.by_number n ≡ some fd)
    × (is_bool_kind fd.kind ≡ true)
    × (fd.is_list ≡ false)
    × (fd.is_map ≡ false)

-- The message is generated from the layout.
abbrev pub IsGenerated : Table PatchSlot → Request → Type 0
IsGenerated out req = (n : ℕ) (s : PatchSlot) → Table.lookup n out ≡ some s → HasField req n s

-- The library's errors are its own, and so are the resolver's of a message, for which it answers
-- values of the key.
pub record IsLibrary (L : Library) : Type 0 where
  pub values :
      (v : Value) (fd : FieldDescriptor) (s : Place) (at : At) → Faultless (L.value_of v fd s at)
  pub arms :
      (v : _) (fd : FieldDescriptor) (s : Place) (at : At) → Faultless (L.check_arm v fd s at)

abbrev pub IsResolver : Option EdgeResolver → Type 0
IsResolver none = Unit
IsResolver (some r) =
    (ed : Edge Target) (v : Value)
    → is_message_value v ≡ true
    → Faultless (r ed v) × ((kv : Value) → r ed v ≡ ok kv → IsTyped ed.target.key.source kv)

pub bytes_of-Faultless : (v : Value) → is_octets v ≡ true → Faultless (bytes_of v)
bytes_of-Faultless (Value.bytes b) h = Faultless-ok (Value.bytes b)
bytes_of-Faultless _ h = absurd (cc h)

pub bool_of-Faultless : (v : Value) → is_truth_value v ≡ true → Faultless (bool_of v)
bool_of-Faultless (Value.bool b) h = Faultless-ok b
bool_of-Faultless _ h = absurd (cc h)

pub message_of-Faultless : (v : Value) → is_message_value v ≡ true → Faultless (message_of v)
message_of-Faultless (Value.message md fs) h = Faultless-ok (Value.message md fs)
message_of-Faultless _ h = absurd (cc h)

pub message_of-eq-ok : (v w : Value) → message_of v ≡ ok w → is_message_value w ≡ true
message_of-eq-ok (Value.message md fs) w h =
    subst (λ x. is_message_value x ≡ true) (ok-injective h) refl
message_of-eq-ok _ w h = absurd (cc h)

pub has_entries-Faultless : (v : Value) → is_dictionary v ≡ true → Faultless (has_entries v)
has_entries-Faultless (Value.dictionary ValueEntries.empty) h = Faultless-ok false
has_entries-Faultless (Value.dictionary (ValueEntries.entry k v es)) h = Faultless-ok true
has_entries-Faultless _ h = absurd (cc h)

pub has_items-Faultless : (v : Value) → is_sequence v ≡ true → Faultless (has_items v)
has_items-Faultless (Value.list Items.nil) h = Faultless-ok false
has_items-Faultless (Value.list (Items.cons v is)) h = Faultless-ok true
has_items-Faultless _ h = absurd (cc h)
