-- ===== src/Graph/Patch/Slots.antt =====
-- The closure `put` of graph/patchreq.go, and the numbers that it is handed.
use protobuf_orm.Base.{ℕ, ◌+◌, ◌*◌, ◌≤◌, ◌<◌, ◌≡◌, ◌⊎◌, none, arith}
use protobuf_orm.Base.Result.{ok}
use protobuf_orm.Base.Table
use protobuf_orm.Base.Table.{Table}
use protobuf_orm.Graph.Prop.{Prop, number}
use protobuf_orm.Graph.Entity.{Target}
use protobuf_orm.Graph.Patch.{
  PatchSlot, ref, value, flag, put, patch_value_number, patch_flag_number, max_field_number,
}

-- Numbers that protobuf lets a field have, and those whose double has room in a request.
abbrev pub IsFieldNumber : ℕ → Type 0
IsFieldNumber n = (1 ≤ n) × (n ≤ max_field_number)

abbrev pub HasRoom : ℕ → Type 0
HasRoom n = (n ≤ 268435455) × ((n < 9500) ⊎ (9999 < n))

-- The number at which a slot belongs.
abbrev pub slot_number : PatchSlot → ℕ
slot_number ref = 1
slot_number (value p) = number p * 2
slot_number (flag p) = number p * 2 + 1

pub patch_value_number_lem :
    (p : Prop Target) → IsFieldNumber (number p) → patch_value_number p ≡ number p * 2
unfolding patch_value_number
patch_value_number_lem p h = omega arith

pub patch_flag_number_lem :
    (p : Prop Target) → IsFieldNumber (number p) → patch_flag_number p ≡ number p * 2 + 1
unfolding patch_flag_number
patch_flag_number_lem p h = omega arith

pub put-eq-ok :
    (out : Table PatchSlot) (n : ℕ) (s : PatchSlot) {out' : Table PatchSlot}
    → put out n s ≡ ok out'
    → (out' ≡ Table.insert n s out)
      × (Table.lookup n out ≡ none)
      × (n ≤ max_field_number)
      × ((n < 19000) ⊎ (19999 < n))
unfolding put
put-eq-ok out n s h = ground arith

pub put_total :
    (out : Table PatchSlot) (n : ℕ) (s : PatchSlot)
    → Table.lookup n out ≡ none
    → 1 ≤ n
    → n ≤ max_field_number
    → (n < 19000) ⊎ (19999 < n)
    → put out n s ≡ ok (Table.insert n s out)
unfolding put
put_total out n s free low high outside = ground arith
