-- ===== src/Ormpatch/Request.antt =====
-- ormpatch/frompatchreq.go: a PatchRequest turned into a patch document.
pub mod Conversion
pub mod Compiled
pub mod Version
pub mod Complete
pub mod Accepted
pub mod Generated
pub mod Faultless
pub mod SingleEntries
pub mod Supported
use Prim.Native.String.{◌++◌ as join}
use protobuf_orm.Base.{
  ℕ, String, Bool, true, false, not, ◌||◌, List, [], ◌∷◌, Option, none, some, if◌then◌else◌,
}
use protobuf_orm.Base.Result.{Result, ok, err, ◌>>=◌}
use protobuf_orm.Proto.{FieldDescriptor, is_bool_kind, is_bytes_kind}
use protobuf_orm.Proto.Value.{Value, Items, Entries as ValueEntries}
use protobuf_orm.Graph.Prop.{Prop, Field, Edge, field, edge, number, name, full_name, descriptor}
use protobuf_orm.Graph.Entity.{Target, Entity}
use protobuf_orm.Graph.Patch.{
  PatchFlag, no_flag, force_flag, null_flag, is_no_flag, patch_props, patch_value_number,
  patch_flag_number, patch_flag_of,
}
use protobuf_orm.Ormpatch.Document.{
  Key, Selector, Scope, OnMissing, Literal, Operation, Want, Delta, Entries, Entry, Document,
}
use protobuf_orm.Ormpatch.Errors.{
  At, root, Error, format, missing_field, unsupported, version_write, version_not_given,
  request_layout, no_resolver, panicked,
}
use protobuf_orm.Ormpatch.Library.{Library, whole_field}

-- `protoreflect.Message`, as it is asked: the descriptor's `Fields().ByNumber`, and `Get` and `Has`
-- of a field, which goes by its number.
pub record Request : Type 0 where
  pub by_number : ℕ → Option FieldDescriptor
  pub get : ℕ → Value
  pub has : ℕ → Bool

-- EdgeResolver: the key of the entity that a reference, which is a message, means
abbrev pub EdgeResolver : Type 0
EdgeResolver = Edge Target → Value → Result Error Value

-- `v.Bool()`, `v.Map().Len() > 0` and `v.List().Len() > 0`, which panic at other values
abbrev bool_of : Value → Result Error Bool
bool_of (Value.bool b) = ok b
bool_of v = err panicked

-- `v.Message()`, which panics at other values
abbrev message_of : Value → Result Error Value
message_of (Value.message md fs) = ok (Value.message md fs)
message_of v = err panicked

abbrev has_entries : Value → Result Error Bool
has_entries (Value.dictionary ValueEntries.empty) = ok false
has_entries (Value.dictionary es) = ok true
has_entries v = err panicked

abbrev has_items : Value → Result Error Bool
has_items (Value.list Items.nil) = ok false
has_items (Value.list is) = ok true
has_items v = err panicked

-- requestHas
unfoldable pub request_has : Request → FieldDescriptor → Result Error Bool
request_has req fd =
    if fd.is_map
    then has_entries (req.get fd.number)
    else if fd.is_list
    then has_items (req.get fd.number)
    else ok (req.has fd.number)

-- `v.Bytes()`, which panics at other values. A nil slice and an empty one are one list here, so
-- what guardBytes turns the one into is the other.
abbrev bytes_of : Value → Result Error Value
bytes_of (Value.bytes b) = ok (Value.bytes b)
bytes_of v = err panicked

-- guardBytes
unfoldable pub guard_bytes : Value → FieldDescriptor → Result Error Value
guard_bytes v fd =
    if fd.is_list || fd.is_map || not (is_bytes_kind fd.kind) then ok v else bytes_of v

-- propKey
unfoldable pub prop_key : Prop Target → Key
prop_key p = Key.field (record { name = some (name p); number = some (number p); json_name = none })

abbrev pub one_target : Key → Scope
one_target k = Scope.targets (Selector.key k ∷ [])

-- entryAssign, entryRemove, entryTest, entryEdgeAssign
unfoldable pub entry_assign : Prop Target → Literal → Entry
entry_assign p v = Entry.entry [] (one_target (prop_key p)) OnMissing.fail (Operation.assign v)

unfoldable pub entry_remove : Prop Target → Entry
entry_remove p = Entry.entry [] (one_target (prop_key p)) OnMissing.fail Operation.remove

unfoldable pub entry_test : Prop Target → Literal → Entry
entry_test p v =
    Entry.entry [] (one_target (prop_key p)) OnMissing.fail (Operation.test (Want.value v))

unfoldable pub entry_edge_assign : Edge Target → Field → Literal → Entry
entry_edge_assign ed key v =
    Entry.entry (prop_key (edge ed) ∷ []) (one_target (prop_key (field key))) OnMissing.fail
      (Operation.assign v)

module _ (L : Library) where
  -- valueOf
  unfoldable pub value_of : Value → FieldDescriptor → At → Result Error Literal
  value_of pv fd at = do
    v ← L.value_of pv fd whole_field at
    _ ← L.check_arm v fd whole_field at
    ok v

  -- requestValue
  unfoldable pub request_value :
      Request → FieldDescriptor → FieldDescriptor → At → Result Error Literal
  request_value req vfd entfd at = do
    pv ← guard_bytes (req.get vfd.number) entfd
    value_of pv entfd at

  -- the version field, by whether it is forced and whether the request carries it
  unfoldable pub version_entry :
      Request → Prop Target → FieldDescriptor → At → Bool → Bool → Result Error (Option Entry)
  version_entry req p vfd at false false = err (version_not_given (name p))
  version_entry req p vfd at false true = do
    v ← request_value req vfd (descriptor p) at
    ok (some (entry_test p v))
  version_entry req p vfd at true true = err (version_write at (name p))
  version_entry req p vfd at true false = ok none

  -- the switch on the prop, where the request carries it
  unfoldable pub set_entry :
      Request
      → Option EdgeResolver
      → Prop Target
      → FieldDescriptor
      → At
      → Result Error (Option Entry)
  set_entry req resolve (edge ed) vfd at =
      if ed.source.is_list then err (unsupported at) else elim resolve [
        | none ↦ err (no_resolver (full_name (edge ed)))
        | some r ↦ do
          m ← message_of (req.get vfd.number)
          kv ← r ed m
          kv' ← guard_bytes kv ed.target.key.source
          v ← value_of kv' ed.target.key.source at
          ok (some (entry_edge_assign ed ed.target.key v))
      ]
  set_entry req resolve (field f) vfd at = do
    v ← request_value req vfd f.source at
    ok (some (entry_assign (field f) v))

  -- the switch on the flag, and what follows it
  unfoldable pub flag_entry :
      PatchFlag
      → Request
      → Option EdgeResolver
      → Prop Target
      → FieldDescriptor
      → At
      → Bool
      → Bool
      → Result Error (Option Entry)
  flag_entry force_flag req resolve p vfd at flag set = version_entry req p vfd at flag set
  flag_entry null_flag req resolve p vfd at true set = ok (some (entry_remove p))
  flag_entry _ req resolve p vfd at flag true = set_entry req resolve p vfd at
  flag_entry _ req resolve p vfd at flag false = ok none

  -- the companion of the prop: false where there is none
  unfoldable pub read_flag : Request → Prop Target → Result Error Bool
  read_flag req p =
      if is_no_flag (patch_flag_of p)
      then ok false
      else elim (req.by_number (patch_flag_number p)) [
        | none ↦ err (request_layout (patch_flag_number p))
        | some ffd ↦
            if not (is_bool_kind ffd.kind) || ffd.is_list || ffd.is_map
            then err (request_layout (patch_flag_number p))
            else bool_of (req.get ffd.number)
      ]

  -- one round of the loop of FromPatchRequest: at most one entry
  unfoldable pub prop_entry :
      Request → Option EdgeResolver → Prop Target → Result Error (Option Entry)
  prop_entry req resolve p = elim (req.by_number (patch_value_number p)) [
    | none ↦ err (request_layout (patch_value_number p))
    | some vfd ↦ do
      flag ← read_flag req p
      set ← request_has req vfd
      flag_entry (patch_flag_of p) req resolve p vfd (root (join "req." vfd.name)) flag set
  ]

  abbrev cons_entry : Option Entry → Entries → Entries
  cons_entry none es = es
  cons_entry (some e) es = Entries.cons e es

  -- the loop
  unfoldable pub prop_entries :
      Request → Option EdgeResolver → List (Prop Target) → Result Error Entries
  prop_entries req resolve [] = ok Entries.end
  prop_entries req resolve (p ∷ ps) = do
    e ← prop_entry req resolve p
    es ← prop_entries req resolve ps
    ok (cons_entry e es)

  abbrev document_of : Entity → Entries → Option Document
  document_of e Entries.end = none
  document_of e es = some (record { message_type = e.full_name; delta = Delta.delta es })

  -- FromPatchRequest; a nil entity, request or resolver is `none`, and so is the nil document of a
  -- request that asks for nothing
  unfoldable pub from_patch_request :
      Option Entity → Option Request → Option EdgeResolver → Result Error (Option Document)
  from_patch_request none req resolve = err (format missing_field (root ""))
  from_patch_request (some e) none resolve = err (format missing_field (root ""))
  from_patch_request (some e) (some req) resolve = do
    es ← prop_entries req resolve (patch_props e.props)
    ok (document_of e es)
