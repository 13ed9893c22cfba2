-- ===== src/Ormpb/Ref/Agreement.antt =====
-- What field ormpb/ref.go finds for a reference.
use protobuf_orm.Base.{
  none, ℤ, same_int, positive, ℕ, String, ◌≡◌, ◌⊎◌, sym, ap, ◌∙◌, subst, inl, inr, false, not,
  Bool-cases, Option-cases, some, str_eq, eq_iff, ◌&&◌,
}
use protobuf_orm.Base.Result.{ok, ok-injective, if_err_else-eq-ok}
use protobuf_orm.Proto.{FieldDescriptor}
use protobuf_orm.Ormpb.Ref.{Ref, FieldDescriptors, access}

-- What is left of a name that was not refused.
name_agrees :
    (name found : String)
    → (not (str_eq name "") && not (str_eq name found)) ≡ false
    → (name ≡ "") ⊎ (found ≡ name)
name_agrees name found h = elim (Bool-cases (str_eq name "")) [
  | inl e ↦ inl ((eq_iff _ _).0 e)
  | inr e ↦ elim (Bool-cases (str_eq name found)) [
    | inl f ↦ inr (sym ((eq_iff _ _).0 f))
    | inr f ↦ absurd (cc (rw (e, f) at h))
  ]
]

-- If a reference resolves among lookups that answer the field they are asked for, the field that it
-- finds has the reference's number, if that is above 0, and its name, if that is set, whichever of
-- the two the lookup went by.
pub access-eq-ok :
    (r : Ref) (desc : FieldDescriptors) (f : FieldDescriptor)
    (numbered : (n : ℕ) (g : FieldDescriptor) → desc.by_number n ≡ some g → g.number ≡ n)
    (named : (s : String) (g : FieldDescriptor) → desc.by_name s ≡ some g → g.name ≡ s)
    → access r desc ≡ ok f
    → ((positive r.number ≡ none) ⊎ (positive r.number ≡ some f.number))
      × ((r.name ≡ "") ⊎ (f.name ≡ r.name))
unfolding access
access-eq-ok r desc f numbered named h =
    let (empty, h1) = if_err_else-eq-ok (same_int r.number (ℤ.pos 0) && str_eq r.name "") _ _ h in
    elim (Option-cases (positive r.number)) [
      | inl none_above ↦ elim (Option-cases (desc.by_name r.name)) [
        | inl e ↦ absurd (cc (rw (none_above, e) at h1))
        | inr (g, e) ↦
            let same : g ≡ f = ok-injective (rw (none_above, e) at h1) in
            (inl none_above, inr (ap (λ x. x.name) (sym same) ∙ named r.name g e))
      ]
      | inr (n, above) ↦ elim (Option-cases (desc.by_number n)) [
        | inl e ↦ absurd (cc (rw (above, e) at h1))
        | inr (g, e) ↦
            let (good, h2) =
              if_err_else-eq-ok (not (str_eq r.name "") && not (str_eq r.name g.name)) _ _
                (rw (above, e) at h1) in
            let same : g ≡ f = ok-injective h2 in
            (
              inr (above ∙ ap some (sym (numbered n g e) ∙ ap (λ x. x.number) same)),
              subst (λ x. (r.name ≡ "") ⊎ (x.name ≡ r.name)) same (name_agrees r.name g.name good),
            )
      ]
    ]
