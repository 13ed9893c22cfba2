-- ===== src/Graph/Parse.antt =====
-- graph/prop.go, parseProp, as far as it reads and normalizes options, and graph/entity.go,
-- parseEntity, as far as it checks the fields of an entity.
pub mod Fields
pub mod Entity
pub mod Edges
use protobuf_orm.Base.{
  Bool, true, false, not, ◌||◌, ◌&&◌, List, [], ◌∷◌, Option, none, some, if◌then◌else◌,
}
use protobuf_orm.Base.Result.{Result, ok, err, ◌>>=◌}
use protobuf_orm.Proto.{FieldDescriptor}
use protobuf_orm.Ormpb.Kinds.{is_unspecified, is_message_type, is_time_type, deduce_type}
use protobuf_orm.Ormpb.Options.{
  FieldOptions, EdgeOptions, no_field_options, no_edge_options, get_bool, has,
}
use protobuf_orm.Graph.Prop.{Field, is_version_field, is_erased_field}

-- the refusals of parseProp on options
pub data PropError : Type 0 where
  both_options : PropError
  -- the panic of DeduceType
  unknown_kind_panic : PropError
  version_is_key version_flags version_type : PropError
  erased_is_key erased_flags erased_is_version erased_type erased_not_nullable : PropError
  message_field : PropError

-- what the options make of a proto field
pub data Parsed : Type 0 where
  disabled_prop : Parsed
  parsed_field : FieldOptions → Parsed
  parsed_edge : EdgeOptions → Parsed

-- `of.SetType(ormpb.DeduceType(mf))`
unfoldable pub deduced : FieldDescriptor → FieldOptions → Result PropError FieldOptions
deduced mf o = elim (deduce_type mf) [
  | none ↦ err unknown_kind_panic
  | some t ↦ ok (record o { orm_type = t })
]

-- the block on the version
unfoldable pub check_version : FieldOptions → Result PropError (Unit {0})
check_version o =
    if not (has o.version)
    then ok tt
    else if get_bool o.key
    then err version_is_key
    else if get_bool o.unique || get_bool o.nullable || get_bool o.immutable
    then err version_flags
    else if not (is_time_type o.orm_type)
    then err version_type
    else ok tt

-- the block on the erased field, which makes it nullable
unfoldable pub check_erased : FieldOptions → Result PropError FieldOptions
check_erased o =
    if not (has o.erased)
    then ok o
    else if get_bool o.key
    then err erased_is_key
    else if get_bool o.unique || get_bool o.immutable
    then err erased_flags
    else if has o.version
    then err erased_is_version
    else if not (is_time_type o.orm_type)
    then err erased_type
    else if has o.nullable && not (get_bool o.nullable)
    then err erased_not_nullable
    else ok (record o { nullable = some true })

-- the checks of a field whose type is settled
unfoldable pub normalize_field : FieldOptions → Result PropError Parsed
normalize_field o = do
  _ ← check_version o
  o' ← check_erased o
  if is_message_type o'.orm_type then err message_field else ok (parsed_field o')

-- parseProp, up to the target of an edge. The options are clones, and `none` is a nil pointer.
unfoldable pub parse_options :
    FieldDescriptor → Option FieldOptions → Option EdgeOptions → Result PropError Parsed
parse_options mf (some o) (some oe) = err both_options
parse_options mf (some o) none =
    if get_bool o.disabled
    then ok disabled_prop
    else do o' ← if is_unspecified o.orm_type then deduced mf o else ok o; normalize_field o'
parse_options mf none (some oe) =
    if get_bool oe.disabled then ok disabled_prop else ok (parsed_edge oe)
parse_options mf none none = do o ← deduced mf no_field_options; normalize_field o

-- the refusals of parseEntity on its fields
pub data FieldsError : Type 0 where
  two_keys key_not_unique key_nullable key_not_immutable no_key : FieldsError
  two_versions two_erased : FieldsError

abbrev pub is_key_field : Field → Bool
is_key_field f = get_bool f.opts.key

-- the loop that finds the key
unfoldable pub find_key : List Field → Option Field → Result FieldsError (Option Field)
find_key [] key = ok key
find_key (f ∷ fs) key =
    let later = find_key fs key in
    let found = find_key fs (some f) in
    if not (is_key_field f)
    then later
    else if has key
    then err two_keys
    else if has f.opts.unique && not (get_bool f.opts.unique)
    then err key_not_unique
    else if has f.opts.nullable && get_bool f.opts.nullable
    then err key_nullable
    else if has f.opts.immutable && not (get_bool f.opts.immutable)
    then err key_not_immutable
    else found

-- the loops that refuse a second version field and a second erased field
unfoldable pub at_most_one :
    (Field → Bool) → FieldsError → List Field → Bool → Result FieldsError (Unit {0})
at_most_one is two [] seen = ok tt
at_most_one is two (f ∷ fs) seen =
    let skipped = at_most_one is two fs seen in
    let taken = at_most_one is two fs true in
    if not (is f) then skipped else if seen then err two else taken

-- the checks that come after the search for the key
unfoldable pub check_others : List Field → Option Field → Result FieldsError Field
check_others fs none = err no_key
check_others fs (some k) = do
  _ ← at_most_one is_version_field two_versions fs false
  _ ← at_most_one is_erased_field two_erased fs false
  ok k

-- the checks of the fields, which answer the key
unfoldable pub check_fields : List Field → Result FieldsError Field
check_fields fs = do key ← find_key fs none; check_others fs key

-- the commit on the key, run on every field once the entity is accepted: there is one that is
-- marked
abbrev pub commit_key : Field → Field
commit_key f =
    if is_key_field f
    then record f { opts = record f.opts { unique = some true; immutable = some true } }
    else f
