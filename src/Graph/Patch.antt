-- ===== src/Graph/Patch.antt =====
-- graph/patchreq.go: the layout of a generated PatchRequest.
pub mod Slots
pub mod Layout
pub mod Contents
use Prim.Native.String.{◌++◌ as join}
use protobuf_orm.Base.{
  ℕ, ◌+◌, ◌*◌, ◌%◌, ◌^◌, String, Bool, true, false, ◌||◌, ◌&&◌, List, [], ◌∷◌, none, some, ltb, leb,
  if◌then◌else◌,
}
use protobuf_orm.Base.Result.{Result, ok, err, ◌>>=◌}
use protobuf_orm.Base.Table
use protobuf_orm.Base.Table.{Table}
use protobuf_orm.Graph.Prop.{Prop, name, number, is_immutable, is_erased, is_version, is_nullable}
use protobuf_orm.Graph.Entity.{Target, Entity}

abbrev pub first_reserved_number : ℕ
first_reserved_number = 19000

abbrev pub last_reserved_number : ℕ
last_reserved_number = 19999

abbrev pub max_field_number : ℕ
max_field_number = 536870911

-- PatchRefNumber
abbrev pub patch_ref_number : ℕ
patch_ref_number = 1

module _ {T : Type 0} where
  -- PatchProps
  unfoldable pub patch_props : List (Prop T) → List (Prop T)
  patch_props [] = []
  patch_props (p ∷ ps) =
      let rest = patch_props ps in
      if is_immutable p then rest else if is_erased p then rest else p ∷ rest

  -- PatchValueNumber, PatchFlagNumber. A number is an int32: it is kept as its bit pattern.
  unfoldable pub patch_value_number : Prop T → ℕ
  patch_value_number p = number p * 2 % 2 ^ 32

  unfoldable pub patch_flag_number : Prop T → ℕ
  patch_flag_number p = (number p * 2 + 1) % 2 ^ 32

pub data PatchFlag : Type 0 where
  no_flag force_flag null_flag : PatchFlag

abbrev pub is_no_flag : PatchFlag → Bool
is_no_flag no_flag = true
is_no_flag _ = false

module _ {T : Type 0} where
  -- PatchFlagOf
  unfoldable pub patch_flag_of : Prop T → PatchFlag
  patch_flag_of p =
      if is_version p then force_flag else if is_nullable p then null_flag else no_flag

  -- PatchFlagName
  unfoldable pub patch_flag_name : Prop T → String
  patch_flag_name p = elim (patch_flag_of p) [
    | force_flag ↦ join (name p) "_force"
    | null_flag ↦ join (name p) "_null"
    | no_flag ↦ ""
  ]

-- PatchSlot: the kind, with the prop where there is one
pub data PatchSlot : Type 0 where
  ref : PatchSlot
  value : Prop Target → PatchSlot
  flag : Prop Target → PatchSlot

-- the three refusals of `put`, with the number and the slots that they name
pub data LayoutError : Type 0 where
  not_allowed : ℕ → PatchSlot → LayoutError
  reserved : ℕ → PatchSlot → LayoutError
  collision : ℕ → PatchSlot → PatchSlot → LayoutError

-- the closure `put`. A pattern above `maxFieldNumber` is a number that is too large or negative.
pub put : Table PatchSlot → ℕ → PatchSlot → Result LayoutError (Table PatchSlot)
put out n s =
    if ltb n 1 || ltb max_field_number n
    then err (not_allowed n s)
    else if leb first_reserved_number n && leb n last_reserved_number
    then err (reserved n s)
    else elim (Table.lookup n out) [
      | some prev ↦ err (collision n prev s)
      | none ↦ ok (Table.insert n s out)
    ]

-- the body of the loop over `PatchProps`, and the loop
pub put_prop : Table PatchSlot → Prop Target → Result LayoutError (Table PatchSlot)
put_prop out p = do
  out ← put out (patch_value_number p) (value p)
  if is_no_flag (patch_flag_of p) then ok out else put out (patch_flag_number p) (flag p)

pub put_props : List (Prop Target) → Table PatchSlot → Result LayoutError (Table PatchSlot)
put_props [] out = ok out
put_props (p ∷ ps) out = do out ← put_prop out p; put_props ps out

-- PatchLayout
unfoldable pub patch_layout : Entity → Result LayoutError (Table PatchSlot)
unfolding put put_prop put_props patch_props
patch_layout e = do out ← put [] patch_ref_number ref; put_props (patch_props e.props) out
