-- ===== src/Ormpatch/Request/Faultless.antt =====
-- That the conversion of a generated request fails by no fault of the server's
-- (ormpatch/frompatchreq.go).
use protobuf_orm.Base.{
  ◌+◌, ◌*◌, arith, ◌≡◌, ◌⊎◌, refl, sym, ap, ◌∙◌, subst, inl, inr, Bool, true, false, Bool-cases,
  List, [], ◌∷◌, All, All-zip, Option, none, some,
}
use protobuf_orm.Base.Result.{ok, err}
use protobuf_orm.Base.Table
use protobuf_orm.Base.Table.{Table}
use protobuf_orm.Proto.{FieldDescriptor, is_bool_kind, is_bytes_kind, is_message_kind}
use protobuf_orm.Proto.Value.{Value}
use protobuf_orm.Graph.Prop.{Prop, Field, field, edge, number, descriptor, is_edge}
use protobuf_orm.Graph.Entity.{Target, Entity}
use protobuf_orm.Graph.Patch.{
  PatchSlot, value, flag, PatchFlag, no_flag, force_flag, null_flag, is_no_flag, patch_layout,
  patch_props, patch_flag_of,
}
use protobuf_orm.Graph.Patch.Slots.{IsFieldNumber, patch_value_number_lem, patch_flag_number_lem}
use protobuf_orm.Graph.Patch.Layout.{All-patch_props}
use protobuf_orm.Graph.Patch.Contents.{has_flag, lookup-patch_layout}
use protobuf_orm.Ormpatch.Errors.{At, Error}
use protobuf_orm.Ormpatch.Library.{Library}
use protobuf_orm.Ormpatch.Request.{
  Request, EdgeResolver, message_of, request_has, guard_bytes, value_of, request_value,
  version_entry, set_entry, flag_entry, read_flag, prop_entry, prop_entries, from_patch_request,
}
use protobuf_orm.Ormpatch.Request.Generated.{
  is_fault, Faultless, Faultless-ok, Faultless-err, Faultless->>=, Faultless-if, IsTyped, IsMessage,
  Declares, IsGenerated, IsLibrary, IsResolver, bytes_of-Faultless, bool_of-Faultless,
  message_of-Faultless, message_of-eq-ok, has_entries-Faultless, has_items-Faultless,
}

guard_bytes-Faultless :
    (v : Value) (fd : FieldDescriptor) → IsTyped fd v → Faultless (guard_bytes v fd)
unfolding guard_bytes
guard_bytes-Faultless v fd t = elim (Bool-cases fd.is_list) [
  | inl l ↦ rw l (Faultless-ok v)
  | inr l ↦ elim (Bool-cases fd.is_map) [
    | inl m ↦ rw (l, m) (Faultless-ok v)
    | inr m ↦ elim (Bool-cases (is_bytes_kind fd.kind)) [
      | inl b ↦ rw (l, m, b) (bytes_of-Faultless v (t.octets m l b))
      | inr b ↦ rw (l, m, b) (Faultless-ok v)
    ]
  ]
]

request_has-Faultless :
    (req : Request) (fd : FieldDescriptor)
    → IsTyped fd (req.get fd.number)
    → Faultless (request_has req fd)
unfolding request_has
request_has-Faultless req fd t = elim (Bool-cases fd.is_map) [
  | inl m ↦ rw m (has_entries-Faultless (req.get fd.number) (t.mapped m))
  | inr m ↦ elim (Bool-cases fd.is_list) [
    | inl l ↦ rw (m, l) (has_items-Faultless (req.get fd.number) (t.listed m l))
    | inr l ↦ rw (m, l) (Faultless-ok (req.has fd.number))
  ]
]

module _ (L : Library) (lib : IsLibrary L) (req : Request) where
  value_of-Faultless : (v : Value) (fd : FieldDescriptor) (at : At) → Faultless (value_of L v fd at)
  unfolding value_of
  value_of-Faultless v fd at =
      Faultless->>= (L.value_of v fd _ at) _ (lib.values v fd _ at) (λ l h.
        Faultless->>= (L.check_arm l fd _ at) _ (lib.arms l fd _ at) (λ u k. Faultless-ok l))

  request_value-Faultless :
      (vfd fd : FieldDescriptor) (at : At)
      → IsTyped fd (req.get vfd.number)
      → Faultless (request_value L req vfd fd at)
  unfolding request_value
  request_value-Faultless vfd fd at t =
      Faultless->>= (guard_bytes (req.get vfd.number) fd) _
        (guard_bytes-Faultless (req.get vfd.number) fd t) (λ v h. value_of-Faultless v fd at)

  -- A value of the request's field is one of the entity's field that it stands for.
  IsTyped-Declares :
      (f : Field) (fd : FieldDescriptor) (v : Value)
      → Declares (field f) fd
      → IsTyped fd v
      → IsTyped f.source v
  IsTyped-Declares f fd v (m, l, k) t = record {
    mapped = λ a. t.mapped (m ∙ a);
    listed = λ a b. t.listed (m ∙ a) (l ∙ b);
    truth = λ a b c. t.truth (m ∙ a) (l ∙ b) (ap is_bool_kind k ∙ c);
    octets = λ a b c. t.octets (m ∙ a) (l ∙ b) (ap is_bytes_kind k ∙ c);
    submessage = λ a b c. t.submessage (m ∙ a) (l ∙ b) (ap is_message_kind k ∙ c);
  }

  set_entry-Faultless :
      (resolve : Option EdgeResolver) (p : Prop Target) (vfd : FieldDescriptor) (at : At)
      → IsResolver resolve
      → Declares p vfd
      → IsTyped vfd (req.get vfd.number)
      → Faultless (set_entry L req resolve p vfd at)
  unfolding set_entry
  set_entry-Faultless resolve (field f) vfd at r d t =
      Faultless->>= (request_value L req vfd f.source at) _
        (request_value-Faultless vfd f.source at (IsTyped-Declares f vfd _ d t))
        (λ v h. Faultless-ok _)
  set_entry-Faultless none (edge ed) vfd at r d t =
      Faultless-if ed.source.is_list _ _ refl (λ l. Faultless-err _ refl)
  set_entry-Faultless (some resolve) (edge ed) vfd at r d t =
      Faultless-if ed.source.is_list _ _ refl (λ l.
        Faultless->>= (message_of (req.get vfd.number)) _
          (message_of-Faultless _ (t.submessage d.0 (d.1 ∙ l) d.2))
          (λ m a.
            let (sound, typed) = r ed m (message_of-eq-ok (req.get vfd.number) m a) in
            Faultless->>= (resolve ed m) _ sound (λ kv h.
              Faultless->>= (guard_bytes kv ed.target.key.source) _
                (guard_bytes-Faultless kv ed.target.key.source (typed kv h))
                (λ kv' k.
                  Faultless->>= (value_of L kv' ed.target.key.source at) _
                    (value_of-Faultless kv' ed.target.key.source at) (λ v e. Faultless-ok _)))))

  IsTyped-descriptor :
      (p : Prop Target) (fd : FieldDescriptor) (v : Value)
      → is_edge p ≡ false
      → Declares p fd
      → IsTyped fd v
      → IsTyped (descriptor p) v
  IsTyped-descriptor (field f) fd v e d t = IsTyped-Declares f fd v d t
  IsTyped-descriptor (edge ed) fd v e d t = absurd (cc e)

  version_entry-Faultless :
      (p : Prop Target) (vfd : FieldDescriptor) (at : At) (marked set : Bool)
      → is_edge p ≡ false
      → Declares p vfd
      → IsTyped vfd (req.get vfd.number)
      → Faultless (version_entry L req p vfd at marked set)
  unfolding version_entry
  version_entry-Faultless p vfd at false false e d t = Faultless-err _ refl
  version_entry-Faultless p vfd at false true e d t =
      Faultless->>= (request_value L req vfd (descriptor p) at) _
        (request_value-Faultless vfd (descriptor p) at (IsTyped-descriptor p vfd _ e d t))
        (λ v h. Faultless-ok _)
  version_entry-Faultless p vfd at true true e d t = Faultless-err _ refl
  version_entry-Faultless p vfd at true false e d t = Faultless-ok none

  is_edge-forced : (p : Prop Target) → patch_flag_of p ≡ force_flag → is_edge p ≡ false
  unfolding patch_flag_of
  is_edge-forced (field f) k = refl
  is_edge-forced (edge ed) k = ground arith

  flag_entry-Faultless :
      (k : PatchFlag) (resolve : Option EdgeResolver) (p : Prop Target) (vfd : FieldDescriptor)
      (at : At) (marked set : Bool)
      → patch_flag_of p ≡ k
      → IsResolver resolve
      → Declares p vfd
      → IsTyped vfd (req.get vfd.number)
      → Faultless (flag_entry L k req resolve p vfd at marked set)
  unfolding flag_entry
  flag_entry-Faultless force_flag resolve p vfd at marked set k r d t =
      version_entry-Faultless p vfd at marked set (is_edge-forced p k) d t
  flag_entry-Faultless null_flag resolve p vfd at true set k r d t = Faultless-ok _
  flag_entry-Faultless null_flag resolve p vfd at false true k r d t =
      set_entry-Faultless resolve p vfd at r d t
  flag_entry-Faultless null_flag resolve p vfd at false false k r d t = Faultless-ok none
  flag_entry-Faultless no_flag resolve p vfd at marked true k r d t =
      set_entry-Faultless resolve p vfd at r d t
  flag_entry-Faultless no_flag resolve p vfd at marked false k r d t = Faultless-ok none

  module _ (out : Table PatchSlot) (generated : IsGenerated out req) (msg : IsMessage req) where
    -- The slots of the prop are in the layout.
    abbrev HasSlots : Prop Target → Type 0
    HasSlots p =
        IsFieldNumber (number p)
        × (Table.lookup (number p * 2) out ≡ some (value p))
        × ((has_flag p ≡ false) ⊎ (Table.lookup (number p * 2 + 1) out ≡ some (flag p)))

    read_flag-Faultless : (p : Prop Target) → HasSlots p → Faultless (read_flag L req p)
    unfolding read_flag
    read_flag-Faultless p (v, h, f) = elim (Bool-cases (is_no_flag (patch_flag_of p))) [
      | inl e ↦ rw e (Faultless-ok false)
      | inr e ↦ elim f [
        | inl none_of ↦ absurd (cc (rw e at none_of))
        | inr held ↦
            let (fd, found, kind, not_list, not_map) = generated _ (flag p) held in
            let (same, t) = msg _ fd found in
            rw (e, patch_flag_number_lem p v, found, kind, not_list, not_map, same)
              (bool_of-Faultless _ (t.truth not_map not_list kind))
      ]
    ]

    prop_entry-Faultless :
        (resolve : Option EdgeResolver) (p : Prop Target)
        → IsResolver resolve
        → HasSlots p
        → Faultless (prop_entry L req resolve p)
    unfolding prop_entry
    prop_entry-Faultless resolve p r h =
        let (fd, found, d) = generated _ (value p) h.1 in
        let (same, t) = msg _ fd found in
        let typed = subst (λ n. IsTyped fd (req.get n)) (sym same) t in
        rw (prop_entry, patch_value_number_lem p h.0, found)
          (Faultless->>= (read_flag L req p) _ (read_flag-Faultless p h) (λ marked k.
            Faultless->>= (request_has req fd) _ (request_has-Faultless req fd typed) (λ set l.
              flag_entry-Faultless (patch_flag_of p) resolve p fd _ marked set refl r d typed)))

    prop_entries-Faultless :
        (resolve : Option EdgeResolver) (ps : List (Prop Target))
        → IsResolver resolve
        → All HasSlots ps
        → Faultless (prop_entries L req resolve ps)
    unfolding prop_entries
    prop_entries-Faultless resolve [] r h = Faultless-ok _
    prop_entries-Faultless resolve (p ∷ ps) r h =
        Faultless->>= (prop_entry L req resolve p) _ (prop_entry-Faultless resolve p r h.0) (λ e k.
          Faultless->>= (prop_entries L req resolve ps) _ (prop_entries-Faultless resolve ps r h.1)
            (λ es l. Faultless-ok _))

-- If the request is a message of the type that is generated from an entity's layout, the values that
-- it and the resolver answer are ones that protobuf lets their fields hold, and the errors of the
-- patch package and of the resolver are their own, then an error of the conversion is never one of
-- the request's layout, and the conversion does not panic.
pub from_patch_request-Faultless :
    (L : Library) (e : Entity) (out : Table PatchSlot) (req : Request)
    (resolve : Option EdgeResolver) (x : Error)
    → IsLibrary L
    → IsResolver resolve
    → All (λ p. IsFieldNumber (number p)) e.props
    → patch_layout e ≡ ok out
    → IsGenerated out req
    → IsMessage req
    → from_patch_request L (some e) (some req) resolve ≡ err x
    → is_fault x ≡ false
unfolding from_patch_request
from_patch_request-Faultless L e out req resolve x lib r v laid generated msg h =
    let ps = patch_props e.props in
    let (_, values, flags) = lookup-patch_layout e out v laid in
    let slots =
      All-zip _ _ (HasSlots L lib req out generated msg) ps (λ p a b. (a, b.0, b.1))
        (All-patch_props (λ p. IsFieldNumber (number p)) e.props v)
        (All-zip _ _ (λ p. _ × _) ps (λ p a b. (a, b)) values flags) in
    Faultless->>= (prop_entries L req resolve ps) _
      (prop_entries-Faultless L lib req out generated msg resolve ps r slots)
      (λ es k. Faultless-ok _) x h
