-- ===== src/Graph/Patch/Contents.antt =====
-- `PatchLayout` of graph/patchreq.go: what the layout of an entity holds.
use protobuf_orm.Base.{
  All-map, Bool-cases, ℕ, ◌+◌, ◌*◌, ◌&&◌, ◌==◌, ◌≡◌, ◌⊎◌, sym, ◌∙◌, inl, inr, Bool, true, false,
  Bool-cases, none, some, arith, List, [], ◌∷◌, All, if◌then◌else◌,
}
use protobuf_orm.Base.Result.{ok, >>=-eq-ok}
use protobuf_orm.Base.Table
use protobuf_orm.Base.Table.{Table, lookup-insert, lookup-nil}
use protobuf_orm.Graph.Prop.{Prop, number}
use protobuf_orm.Graph.Entity.{Target, Entity}
use protobuf_orm.Graph.Patch.{
  PatchSlot, ref, value, flag, put, put_prop, put_props, patch_layout, patch_props, patch_flag_of,
  is_no_flag,
}
use protobuf_orm.Graph.Patch.Layout.{start, patch_layout-start, All-patch_props}
use protobuf_orm.Graph.Patch.Slots.{
  IsFieldNumber, patch_value_number_lem, patch_flag_number_lem, put-eq-ok,
}

-- The prop has a companion bool.
abbrev pub has_flag : Prop Target → Bool
has_flag p = if is_no_flag (patch_flag_of p) then false else true

-- The slots of the prop, and those alone, are new.
record Puts (p : Prop Target) (out out' : Table PatchSlot) : Type 0 where
  keeps : (m : ℕ) (t : PatchSlot) → Table.lookup m out ≡ some t → Table.lookup m out' ≡ some t
  has_value : Table.lookup (number p * 2) out' ≡ some (value p)
  has_its_flag : has_flag p ≡ true → Table.lookup (number p * 2 + 1) out' ≡ some (flag p)
  sound :
      (m : ℕ) (t : PatchSlot)
      → Table.lookup m out' ≡ some t
      → (Table.lookup m out ≡ some t)
        ⊎ ((t ≡ value p) × (m ≡ number p * 2))
        ⊎ ((t ≡ flag p) × (m ≡ number p * 2 + 1) × (has_flag p ≡ true))

-- The table after a prop is put.
abbrev after_put : Table PatchSlot → Prop Target → Table PatchSlot
after_put out p =
    let out₁ = Table.insert (number p * 2) (value p) out in
    if is_no_flag (patch_flag_of p) then out₁ else Table.insert (number p * 2 + 1) (flag p) out₁

put_prop-eq-ok :
    (out : Table PatchSlot) (p : Prop Target) {out' : Table PatchSlot}
    → IsFieldNumber (number p)
    → put_prop out p ≡ ok out'
    → (out' ≡ after_put out p)
      × (Table.lookup (number p * 2) out ≡ none)
      × (has_flag p ≡ true → Table.lookup (number p * 2 + 1) out ≡ none)
unfolding put_prop
put_prop-eq-ok out p {out'} v h =
    let h' = rw (patch_value_number_lem p v, patch_flag_number_lem p v) at h in
    let (out₁, e₁, rest) = >>=-eq-ok (put out (number p * 2) (value p)) _ h' in
    let f₁ = put-eq-ok out (number p * 2) (value p) e₁ in
    elim (Bool-cases (is_no_flag (patch_flag_of p))) [
      | inl e ↦
          let same : ok out₁ ≡ ok out' = rw e at rest in
          (rw e (cc (same, f₁.0)), f₁.1, rw e (λ x. cc))
      | inr e ↦
          let e₂ : put out₁ (number p * 2 + 1) (flag p) ≡ ok out' = rw e at rest in
          let f₂ = put-eq-ok out₁ (number p * 2 + 1) (flag p) e₂ in
          let free : Table.lookup (number p * 2 + 1) out ≡ none =
            ground
              (arith, f₂.1, f₁.0, lookup-insert (number p * 2) (number p * 2 + 1) (value p) out) in
          (rw e (cc (f₂.0, f₁.0)), f₁.1, λ _. free)
    ]

lookup-after_put :
    (out : Table PatchSlot) (p : Prop Target) (m : ℕ)
    → Table.lookup m (after_put out p) ≡ (
        if has_flag p && number p * 2 + 1 == m
        then some (flag p)
        else if number p * 2 == m
        then some (value p)
        else Table.lookup m out)
lookup-after_put out p m = elim (Bool-cases (is_no_flag (patch_flag_of p))) [
  | inl e ↦ rw e (rw lookup-insert)
  | inr e ↦ rw e (simp lookup-insert)
]

put_prop-Puts :
    (out : Table PatchSlot) (p : Prop Target) {out' : Table PatchSlot}
    → IsFieldNumber (number p)
    → put_prop out p ≡ ok out'
    → Puts p out out'
put_prop-Puts out p {out'} v h =
    let (eq, free₁, free₂) = put_prop-eq-ok out p v h in
    record {
      keeps = λ m t held. rw (eq, lookup-after_put) (ground arith);
      has_value = rw (eq, lookup-after_put) (ground arith);
      has_its_flag = λ x. rw (eq, lookup-after_put) (ground arith);
      sound = λ m t held. ground (arith, lookup-after_put out p m);
    }

-- A slot at the number where it belongs.
abbrev pub IsPlaced : PatchSlot → ℕ → Type 0
IsPlaced ref m = 1 ≡ m
IsPlaced (value p) m = number p * 2 ≡ m
IsPlaced (flag p) m = (number p * 2 + 1 ≡ m) × (has_flag p ≡ true)

start-IsPlaced : (m : ℕ) (t : PatchSlot) → Table.lookup m start ≡ some t → IsPlaced t m
start-IsPlaced m ref h = ground (arith, lookup-insert 1 m ref [], lookup-nil {V = PatchSlot} m)
start-IsPlaced m (value p) h =
    absurd (ground (arith, lookup-insert 1 m ref [], lookup-nil {V = PatchSlot} m))
start-IsPlaced m (flag p) h =
    absurd (ground (arith, lookup-insert 1 m ref [], lookup-nil {V = PatchSlot} m))

-- What the loop leaves: every prop has its slots, and each slot is where it belongs.
record PutAll (ps : List (Prop Target)) (out out' : Table PatchSlot) : Type 0 where
  keeps : (m : ℕ) (t : PatchSlot) → Table.lookup m out ≡ some t → Table.lookup m out' ≡ some t
  has_values : All (λ p. Table.lookup (number p * 2) out' ≡ some (value p)) ps
  has_flags : All (λ p. has_flag p ≡ true → Table.lookup (number p * 2 + 1) out' ≡ some (flag p)) ps
  sound :
      (m : ℕ) (t : PatchSlot)
      → Table.lookup m out' ≡ some t
      → (Table.lookup m out ≡ some t) ⊎ IsPlaced t m

IsPlaced-Puts :
    (p : Prop Target) (out : Table PatchSlot) (m : ℕ) (t : PatchSlot)
    → (Table.lookup m out ≡ some t)
      ⊎ ((t ≡ value p) × (m ≡ number p * 2))
      ⊎ ((t ≡ flag p) × (m ≡ number p * 2 + 1) × (has_flag p ≡ true))
    → (Table.lookup m out ≡ some t) ⊎ IsPlaced t m
IsPlaced-Puts p out m t (inl h) = inl h
IsPlaced-Puts p out m t (inr (inl (e, n))) = inr (rw e (sym n))
IsPlaced-Puts p out m t (inr (inr (e, n, f))) = inr (rw e (sym n, f))

put_props-PutAll :
    (ps : List (Prop Target)) (out : Table PatchSlot) {out' : Table PatchSlot}
    → All (λ p. IsFieldNumber (number p)) ps
    → put_props ps out ≡ ok out'
    → PutAll ps out out'
unfolding put_props
put_props-PutAll [] out v h = record {
  keeps = λ m t held. cc;
  has_values = tt;
  has_flags = tt;
  sound = λ m t held. inl (cc);
}
put_props-PutAll (p ∷ ps) out {out'} v h =
    let (out₁, e, rest) = >>=-eq-ok (put_prop out p) (put_props ps) h in
    let P = put_prop-Puts out p v.0 e in
    let Q = put_props-PutAll ps out₁ v.1 rest in
    record {
      keeps = λ m t held. Q.keeps m t (P.keeps m t held);
      has_values = (Q.keeps _ _ P.has_value, Q.has_values);
      has_flags = (λ x. Q.keeps _ _ (P.has_its_flag x), Q.has_flags);
      sound = λ m t held. elim (Q.sound m t held) [
        | inl old ↦ IsPlaced-Puts p out m t (P.sound m t old)
        | inr new ↦ inr new
      ];
    }

-- Placing the props of an entity on top of `ref`.
layout-PutAll :
    (e : Entity) (out : Table PatchSlot)
    → All (λ p. IsFieldNumber (number p)) e.props
    → patch_layout e ≡ ok out
    → PutAll (patch_props e.props) start out
layout-PutAll e out v h =
    put_props-PutAll (patch_props e.props) start
      (All-patch_props (λ p. IsFieldNumber (number p)) e.props v) (sym (patch_layout-start e) ∙ h)

-- In the layout of an entity whose numbers protobuf allows, `ref` is at 1, every prop that a patch
-- carries has its value at twice its number, and, unless it has no companion, its flag at the next
-- number.
pub lookup-patch_layout :
    (e : Entity) (out : Table PatchSlot)
    → All (λ p. IsFieldNumber (number p)) e.props
    → patch_layout e ≡ ok out
    → (Table.lookup 1 out ≡ some ref)
      × All (λ p. Table.lookup (number p * 2) out ≡ some (value p)) (patch_props e.props)
      × All
          (λ p. (has_flag p ≡ false) ⊎ (Table.lookup (number p * 2 + 1) out ≡ some (flag p)))
          (patch_props e.props)
lookup-patch_layout e out v h =
    let A = layout-PutAll e out v h in
    (
      A.keeps 1 ref (lookup-insert 1 1 ref []),
      A.has_values,
      All-map _ _ (patch_props e.props)
          (λ p k. elim (Bool-cases (has_flag p)) [ inl t ↦ inr (k t) | inr f ↦ inl f ]) A.has_flags,
    )

-- Whatever a layout of an entity with numbers that protobuf allows holds at a number is placed
-- there: `ref` at 1, a value at twice its prop's number, and a flag at the number after that, of a prop
-- that has a companion.
pub patch_layout-IsPlaced :
    (e : Entity) (out : Table PatchSlot) (m : ℕ) (t : PatchSlot)
    → All (λ p. IsFieldNumber (number p)) e.props
    → patch_layout e ≡ ok out
    → Table.lookup m out ≡ some t
    → IsPlaced t m
patch_layout-IsPlaced e out m t v h held = elim ((layout-PutAll e out v h).sound m t held) [
  | inl old ↦ start-IsPlaced m t old
  | inr new ↦ new
]
