-- ===== src/Ormpb/Kinds/Deduction.antt =====
-- What types ormpb/type.go deduces.
use protobuf_orm.Base.{
  ◌≡◌, ◌≢◌, String, Bool, arith, ◌||◌, refl, inl, inr, true, false, Bool-cases, some, str_eq,
}
use protobuf_orm.Proto.{
  FieldDescriptor, Kind, message_kind, unknown_kind, is_message_kind, is_group_kind,
}
use protobuf_orm.Ormpb.Kinds.{
  OrmType, type_from_kind, deduce_message, deduce_kind, deduce_type, decay, is_message,
  is_message_type, json_type,
}

-- A type that a field of the kind can be deduced to have.
abbrev pub IsDeducedFrom : Kind → OrmType → Type 0
IsDeducedFrom k t =
    (is_message_type t ≡ false) × (is_message t ≡ (is_message_kind k || is_group_kind k))

-- A message's field is a time or JSON.
deduce_message-IsDeducedFrom : (name : String) → IsDeducedFrom message_kind (deduce_message name)
unfolding deduce_message is_message
deduce_message-IsDeducedFrom name = elim (Bool-cases (str_eq name "google.protobuf.Timestamp")) [
  | inl e ↦ (rw e refl, rw e refl)
  | inr e ↦
      elim (Bool-cases
        (str_eq name "google.protobuf.Struct" || str_eq name "google.protobuf.Value")) [
          | inl f ↦ (rw (e, f) refl, rw (e, f) refl)
          | inr f ↦ (rw (e, f) refl, rw (e, f) refl)
        ]
]

deduce_kind-total :
    (k : Kind) (is_map : Bool) (message : String)
    → k ≢ unknown_kind
    → (t : OrmType) × (deduce_kind k is_map message ≡ some t) × IsDeducedFrom k t
unfolding deduce_kind is_message
deduce_kind-total message_kind true message h = (json_type, refl, (refl, refl))
deduce_kind-total message_kind false message h =
    (deduce_message message, refl, deduce_message-IsDeducedFrom message)
deduce_kind-total unknown_kind is_map message h = absurd (h refl)
deduce_kind-total k is_map message h = (type_from_kind k, refl, (refl, refl))

-- A field of any kind that protobuf has deduces to a type. The type is never TYPE_MESSAGE itself,
-- and it counts as a message exactly when the field's kind is a message or a group.
pub deduce_type-total :
    (f : FieldDescriptor)
    → f.kind ≢ unknown_kind
    → (t : OrmType) × (deduce_type f ≡ some t) × IsDeducedFrom f.kind t
unfolding deduce_type
deduce_type-total f h = deduce_kind-total f.kind f.is_map f.message h

-- A type is decayed in one step: what it decays to decays to itself, and counts as a message
-- exactly when the type does.
decay-decay : (t : OrmType) → (decay (decay t) ≡ decay t) × (is_message (decay t) ≡ is_message t)
unfolding is_message
decay-decay t = ground arith
