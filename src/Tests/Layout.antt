-- ===== src/Tests/Layout.antt =====
-- The theorems on the props of an entity and on the layout of its patch request, applied to a post.
use protobuf_orm.Base.{
  ◌+◌, ◌*◌, ◌≡◌, ◌↔◌, ◌⊎◌, refl, false, [], ◌∷◌, some, All, Distinct, map, arith,
}
use protobuf_orm.Base.Result.{ok}
use protobuf_orm.Base.Table
use protobuf_orm.Base.Table.{Table}
use protobuf_orm.Graph.Prop.{number, is_nullable}
use protobuf_orm.Graph.Patch.{
  PatchSlot, ref, value, flag, patch_layout, patch_props, patch_value_number, patch_flag_number,
  patch_flag_of,
}
use protobuf_orm.Graph.Patch.Slots.{IsFieldNumber, HasRoom}
use protobuf_orm.Graph.Patch.Layout.{patch_layout_iff}
use protobuf_orm.Graph.Patch.Contents.{
  has_flag, IsPlaced, lookup-patch_layout, patch_layout-IsPlaced,
}
use protobuf_orm.Tests.Schema.{post, title, labels, pages, author, revision}

pub numbers_allowed : All (λ p. IsFieldNumber (number p)) post.props
numbers_allowed = ground arith

numbers-Distinct : Distinct (map number post.props)
numbers-Distinct = ground arith

abbrev pub layout : Table PatchSlot
layout =
    (1, ref)
    ∷ (4, value title)
    ∷ (6, value labels)
    ∷ (8, value pages)
    ∷ (10, value author)
    ∷ (11, flag author)
    ∷ (12, value revision)
    ∷ (13, flag revision)
    ∷ []

pub patch_layout-post : patch_layout post ≡ ok layout
unfolding patch_layout patch_props patch_value_number patch_flag_number patch_flag_of is_nullable
    Table.lookup Table.insert
patch_layout-post = refl

patch_layout_iff_example :
    ((out : Table PatchSlot) × (patch_layout post ≡ ok out))
    ↔ All (λ p. HasRoom (number p)) (patch_props post.props)
patch_layout_iff_example = patch_layout_iff post numbers_allowed numbers-Distinct

lookup-patch_layout_example :
    (Table.lookup 1 layout ≡ some ref)
    × All (λ p. Table.lookup (number p * 2) layout ≡ some (value p)) (patch_props post.props)
    × All
        (λ p. (has_flag p ≡ false) ⊎ (Table.lookup (number p * 2 + 1) layout ≡ some (flag p)))
        (patch_props post.props)
lookup-patch_layout_example = lookup-patch_layout post layout numbers_allowed patch_layout-post

patch_layout-IsPlaced_example : IsPlaced (flag author) 11
unfolding Table.lookup
patch_layout-IsPlaced_example =
    patch_layout-IsPlaced post layout 11 (flag author) numbers_allowed patch_layout-post refl
