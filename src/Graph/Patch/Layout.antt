-- ===== src/Graph/Patch/Layout.antt =====
-- `PatchLayout` of graph/patchreq.go: when an entity has a layout.
use protobuf_orm.Base.{
  ℕ, ◌+◌, ◌*◌, ◌≡◌, ◌≢◌, ◌↔◌, false, inl, inr, Bool-cases, refl, none, arith, List, [], ◌∷◌, All,
  Distinct, map,
}
use protobuf_orm.Base.Result.{ok, >>=-eq-ok}
use protobuf_orm.Base.Table
use protobuf_orm.Base.Table.{Table, lookup-insert, lookup-nil}
use protobuf_orm.Graph.Prop.{Prop, number, is_immutable}
use protobuf_orm.Graph.Entity.{Target, Entity}
use protobuf_orm.Graph.Patch.{
  PatchSlot, ref, value, flag, put, put_prop, put_props, patch_layout, patch_value_number,
  patch_props, patch_flag_of, is_no_flag,
}
use protobuf_orm.Graph.Patch.Slots.{
  IsFieldNumber, HasRoom, patch_value_number_lem, patch_flag_number_lem, put-eq-ok, put_total,
}

-- Neither slot of the prop is taken.
abbrev IsFree : Table PatchSlot → ℕ → Type 0
IsFree out n = (Table.lookup (n * 2) out ≡ none) × (Table.lookup (n * 2 + 1) out ≡ none)

IsFree-insert :
    (out : Table PatchSlot) (k n : ℕ) (s : PatchSlot)
    → k ≢ n * 2
    → k ≢ n * 2 + 1
    → IsFree out n
    → IsFree (Table.insert k s out) n
IsFree-insert out k n s e o (fe, fo) =
    (rw lookup-insert (ground arith), rw lookup-insert (ground arith))

-- One prop with two free slots and room for them is put, and leaves the other props' slots free.
put_prop_total :
    (out : Table PatchSlot) (p : Prop Target)
    → IsFieldNumber (number p)
    → HasRoom (number p)
    → IsFree out (number p)
    → (out' : Table PatchSlot) × (put_prop out p ≡ ok out')
      × ((n : ℕ) → number p ≢ n → IsFree out n → IsFree out' n)
unfolding put_prop
put_prop_total out p v r f =
    let n = number p in
    let out₁ = Table.insert (n * 2) (value p) out in
    let put₁ : put out (n * 2) (value p) ≡ ok out₁ =
      put_total out (n * 2) (value p) f.0 (omega arith) (omega arith) (omega arith) in
    elim (Bool-cases (is_no_flag (patch_flag_of p))) [
      | inl e ↦ (
        out₁,
        rw (patch_value_number_lem p v, put₁, e),
        λ m ne free. IsFree-insert out (n * 2) m (value p) (omega arith) (omega arith) free,
      )
      | inr e ↦
          let free₁ : Table.lookup (n * 2 + 1) out₁ ≡ none =
            rw lookup-insert (ground (arith, f.1)) in
          (
            Table.insert (n * 2 + 1) (flag p) out₁,
            rw (patch_value_number_lem p v, put₁, e, patch_flag_number_lem p v)
                (put_total out₁ (n * 2 + 1) (flag p) free₁ (omega arith) (omega arith)
                  (omega arith)),
            λ m ne free.
                IsFree-insert out₁ (n * 2 + 1) m (flag p) (omega arith) (omega arith)
                  (IsFree-insert out (n * 2) m (value p) (omega arith) (omega arith) free),
          )
    ]

All-IsFree :
    (out out' : Table PatchSlot) (n : ℕ) (ps : List (Prop Target))
    → ((m : ℕ) → n ≢ m → IsFree out m → IsFree out' m)
    → All (λ m. n ≢ m) (map number ps)
    → All (λ p. IsFree out (number p)) ps
    → All (λ p. IsFree out' (number p)) ps
All-IsFree out out' n [] keep ne free = tt
All-IsFree out out' n (q ∷ qs) keep ne free =
    (keep (number q) ne.0 free.0, All-IsFree out out' n qs keep ne.1 free.1)

put_props_total :
    (ps : List (Prop Target)) (out : Table PatchSlot)
    → All (λ p. IsFieldNumber (number p)) ps
    → All (λ p. HasRoom (number p)) ps
    → Distinct (map number ps)
    → All (λ p. IsFree out (number p)) ps
    → (out' : Table PatchSlot) × (put_props ps out ≡ ok out')
unfolding put_props
put_props_total [] out v r d f = (out, refl)
put_props_total (p ∷ ps) out v r d f =
    let (out₁, e, keep) = put_prop_total out p v.0 r.0 f.0 in
    let (out', e') =
      put_props_total ps out₁ v.1 r.1 d.1 (All-IsFree out out₁ (number p) ps keep d.0 f.1) in
    (out', rw e e')

-- What a successful `put_prop` shows about the prop.
put_prop-HasRoom :
    (out : Table PatchSlot) (p : Prop Target) {out' : Table PatchSlot}
    → IsFieldNumber (number p)
    → put_prop out p ≡ ok out'
    → HasRoom (number p)
unfolding put_prop
put_prop-HasRoom out p v h =
    let (out₁, e, _) = >>=-eq-ok (put out (patch_value_number p) (value p)) _ h in
    let facts = put-eq-ok out (patch_value_number p) (value p) e in
    omega (arith, facts.2, facts.3, patch_value_number_lem p v)

put_props-HasRoom :
    (ps : List (Prop Target)) (out : Table PatchSlot) {out' : Table PatchSlot}
    → All (λ p. IsFieldNumber (number p)) ps
    → put_props ps out ≡ ok out'
    → All (λ p. HasRoom (number p)) ps
unfolding put_props
put_props-HasRoom [] out v h = tt
put_props-HasRoom (p ∷ ps) out v h =
    let (out₁, e, rest) = >>=-eq-ok (put_prop out p) (put_props ps) h in
    (put_prop-HasRoom out p v.0 e, put_props-HasRoom ps out₁ v.1 rest)

-- `PatchProps` takes a sublist, so it keeps what holds of all props.
pub All-patch_props {κ} :
    {T : Type 0} (P : Prop T → Type κ) (ps : List (Prop T)) → All P ps → All P (patch_props ps)
unfolding patch_props
All-patch_props P [] h = tt
All-patch_props P (p ∷ ps) h = ground (arith, All-patch_props P ps h.1)

pub patch_props-immutable :
    {T : Type 0} (ps : List (Prop T)) → All (λ p. is_immutable p ≡ false) (patch_props ps)
unfolding patch_props
patch_props-immutable [] = tt
patch_props-immutable (p ∷ ps) = ground (arith, patch_props-immutable ps)

All-numbers-patch_props {κ} :
    {T : Type 0} (P : ℕ → Type κ) (ps : List (Prop T))
    → All P (map number ps)
    → All P (map number (patch_props ps))
unfolding patch_props
All-numbers-patch_props P [] h = tt
All-numbers-patch_props P (p ∷ ps) h = ground (arith, All-numbers-patch_props P ps h.1)

pub Distinct-patch_props :
    {T : Type 0} (ps : List (Prop T))
    → Distinct (map number ps)
    → Distinct (map number (patch_props ps))
unfolding patch_props
Distinct-patch_props [] h = tt
Distinct-patch_props (p ∷ ps) h =
    let rest = Distinct-patch_props ps h.1 in
    let away = All-numbers-patch_props (λ m. number p ≢ m) ps h.0 in ground arith

abbrev pub start : Table PatchSlot
start = Table.insert 1 ref []

pub patch_layout-start : (e : Entity) → patch_layout e ≡ put_props (patch_props e.props) start
unfolding patch_layout Table.lookup Table.insert
patch_layout-start e = refl

All-IsFree-start :
    (ps : List (Prop Target))
    → All (λ p. IsFieldNumber (number p)) ps
    → All (λ p. IsFree start (number p)) ps
unfolding Table.lookup Table.insert
All-IsFree-start [] v = tt
All-IsFree-start (p ∷ ps) v = ((ground arith, ground arith), All-IsFree-start ps v.1)

-- An entity whose props have distinct numbers that protobuf allows has a layout exactly when no
-- prop that a patch carries has a number in 9500 to 9999 or above 268435455. So the refusal of a
-- collision is never met.
pub patch_layout_iff :
    (e : Entity)
    → All (λ p. IsFieldNumber (number p)) e.props
    → Distinct (map number e.props)
    → ((out : Table PatchSlot) × (patch_layout e ≡ ok out))
      ↔ All (λ p. HasRoom (number p)) (patch_props e.props)
patch_layout_iff e v d =
    let ps = patch_props e.props in
    let v' = All-patch_props (λ p. IsFieldNumber (number p)) e.props v in
    rw patch_layout-start (
      (λ (out, h). put_props-HasRoom ps start v' h),
      (λ r.
          put_props_total ps start v' r (Distinct-patch_props e.props d) (All-IsFree-start ps v')),
    )
