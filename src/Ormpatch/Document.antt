-- ===== src/Ormpatch/Document.antt =====
-- A patch document, as the accessors of `patchpb` show it: the messages of the patch format that
-- the compiler reads. The format's package is not part of the repository; what stands here is the
-- shape that the compiler's `Which…` and `Get…` calls see.
use protobuf_orm.Base.{ℕ, String, Bool, List, Option, ℤ}

-- `patchpb.Field`: the constraints by which a document names a field
pub record FieldRef : Type 0 where
  pub name : Option String
  pub number : Option ℕ
  pub json_name : Option String

-- the literal of a map key, by its encoding
abbrev pub KeyLiteral : Type 0
KeyLiteral = List ℕ

-- `patchpb.Key`
pub data Key : Type 0 where
  field : FieldRef → Key
  map_key : KeyLiteral → Key
  index : ℤ → Key
  unset : Key

-- `patchpb.Selector`
pub data Selector : Type 0 where
  key : Key → Selector
  range append every_entry oneof_member unset : Selector

-- `patchpb.Value`: a scalar arm by its encoding, or the arm of a message, a list or a map
mutual
  pub data Literal : Type 0 where
    unset : Literal
    scalar : List ℕ → Literal
    message : FieldLiterals → Literal
    list : Literals → Literal
    dictionary : EntryLiterals → Literal

  pub data FieldLiterals : Type 0 where
    end : FieldLiterals
    field : FieldRef → Literal → FieldLiterals → FieldLiterals

  pub data Literals : Type 0 where
    nil : Literals
    cons : Literal → Literals → Literals

  pub data EntryLiterals : Type 0 where
    empty : EntryLiterals
    entry : KeyLiteral → Literal → EntryLiterals → EntryLiterals

-- `patchpb.Test`
pub data Want : Type 0 where
  exists : Bool → Want
  value : Literal → Want
  unset : Want

-- `Entry.WhichScope`
pub data Scope : Type 0 where
  container : Scope
  targets : List Selector → Scope
  unset : Scope

-- `Entry.GetOnMissing`, as far as it is told apart: ON_MISSING_SKIP, or any other
pub data OnMissing : Type 0 where
  fail skip : OnMissing

-- `patchpb.Delta`, `patchpb.Entry` and `Entry.WhichKind`
mutual
  pub data Delta : Type 0 where
    delta : Entries → Delta

  pub data Entries : Type 0 where
    end : Entries
    cons : Entry → Entries → Entries

  pub data Entry : Type 0 where
    entry : List Key → Scope → OnMissing → Operation → Entry

  pub data Operation : Type 0 where
    remove : Operation
    assign : Literal → Operation
    insert : Literal → Operation
    nest : Delta → Operation
    test : Want → Operation
    move copy unset : Operation

-- `patchpb.Patch`
pub record Document : Type 0 where
  pub message_type : String
  pub delta : Delta
