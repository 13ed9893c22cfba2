-- ===== src/Graph/Index/Accepted.antt =====
-- That the indexes which graph/index.go accepts are those that it means to accept.
use text.Mathlib.TextPositions.{eq_refl}
use protobuf_orm.Base.{
  ℤ, same_int, same_int-eq, same_int_refl, ℕ, ◌+◌, ◌≡◌, ◌≢◌, ◌↔◌, refl, sym, ap, ◌∙◌, inl, inr,
  true, Bool-cases, List, [], ◌∷◌, map, All, Distinct, some, subst,
}
use protobuf_orm.Base.Result.{ok}
use protobuf_orm.Ormpb.Options.{IndexOptions}
use protobuf_orm.Ormpb.Ref.{Ref}
use protobuf_orm.Graph.Prop.{Prop, number, name}
use protobuf_orm.Graph.Entity.{find}
use protobuf_orm.Graph.Index.{ProtoIndex, parse_ref, parse_refs, idle_options, parse_index}
use protobuf_orm.Graph.Index.Laws.{IsPropOf, AreMeant, SaysSomething, IsIndexOf, parse_index-eq-ok}

pos-injective : (m n : ℕ) → ℤ.pos m ≡ ℤ.pos n → m ≡ n
pos-injective m n h = cc h

module _ {T : Type 0} where
  IsPropOf-apart :
      (n : ℕ) (qs : List (Prop T)) (p : Prop T)
      → All (λ m. n ≢ m) (map number qs)
      → IsPropOf qs p
      → n ≢ number p
  IsPropOf-apart n [] p a h = absurd h
  IsPropOf-apart n (q ∷ qs) p a (inl e) = subst (λ x. n ≢ number x) e a.0
  IsPropOf-apart n (q ∷ qs) p a (inr h) = IsPropOf-apart n qs p a.1 h

  -- The prop of a number is found, since no other has it.
  find-number :
      (n : ℤ) (ps : List (Prop T)) (p : Prop T)
      → Distinct (map number ps)
      → IsPropOf ps p
      → ℤ.pos (number p) ≡ n
      → find (λ x. same_int (ℤ.pos (number x)) n) ps ≡ some p
  unfolding find
  find-number n [] p d h e = absurd h
  find-number n (q ∷ qs) p d (inl same) e =
      let found : same_int (ℤ.pos (number q)) n ≡ true =
        subst (λ m. same_int (ℤ.pos (number q)) m ≡ true) (ap (λ x. ℤ.pos (number x)) same ∙ e)
          (same_int_refl (ℤ.pos (number q))) in
      rw (find, found) (ap (λ x. some x) same)
  find-number n (q ∷ qs) p d (inr h) e = elim (Bool-cases (same_int (ℤ.pos (number q)) n)) [
    | inl k ↦ absurd (
        IsPropOf-apart (number q) qs p d.0 h
          (pos-injective _ _ (same_int-eq (ℤ.pos (number q)) n k ∙ sym e)))
    | inr k ↦ rw (find, k) (find-number n qs p d.1 h e)
  ]

  parse_ref-meant :
      (ps : List (Prop T)) (r : Ref) (i : ℕ) (p : Prop T)
      → Distinct (map number ps)
      → (ℤ.pos (number p) ≡ r.number) × (name p ≡ r.name) × IsPropOf ps p
      → parse_ref ps r i ≡ ok p
  unfolding parse_ref
  parse_ref-meant ps r i p d (n, m, h) =
      rw (parse_ref, find-number r.number ps p d h n, m, eq_refl r.name) refl

  parse_refs-meant :
      (ps : List (Prop T)) (rs : List Ref) (i : ℕ) (qs : List (Prop T))
      → Distinct (map number ps)
      → AreMeant ps rs qs
      → parse_refs ps rs i ≡ ([], qs)
  unfolding parse_refs
  parse_refs-meant ps [] i [] d h = refl
  parse_refs-meant ps [] i (q ∷ qs) d h = absurd h
  parse_refs-meant ps (r ∷ rs) i [] d h = absurd h
  parse_refs-meant ps (r ∷ rs) i (q ∷ qs) d h =
      rw (parse_refs, parse_ref-meant ps r i q d h.0, parse_refs-meant ps rs (i + 1) qs d h.1) refl

  idle_options-says :
      (ps : List (Prop T)) (opts : IndexOptions) → SaysSomething ps opts → idle_options ps opts ≡ []
  unfolding idle_options
  idle_options-says ps opts (inl e) = rw (idle_options, e) refl
  idle_options-says ps opts (inr (u, f)) = elim (Bool-cases opts.includes_erased) [
    | inl e ↦ rw (idle_options, e, u, f) refl
    | inr e ↦ rw (idle_options, e) refl
  ]

  parse_index-meant :
      (ps : List (Prop T)) (opts : IndexOptions) (refs : List Ref) (qs : List (Prop T))
      → opts.refs ≡ refs
      → refs ≢ []
      → Distinct (map number ps)
      → AreMeant ps refs qs
      → SaysSomething ps opts
      → parse_index ps opts ≡ ok (record { opts = opts; props = qs })
  unfolding parse_index
  parse_index-meant ps opts [] qs e some_ref d m s = absurd (some_ref refl)
  parse_index-meant ps opts (r ∷ rs) qs e some_ref d m s =
      rw (parse_index, e, parse_refs-meant ps (r ∷ rs) 0 qs d m, idle_options-says ps opts s)
        (ap (λ l. ok (record { opts = record opts { refs = l }; props = qs })) e)

  parse_index-refs :
      (ps : List (Prop T)) (opts : IndexOptions) (v : ProtoIndex T)
      → parse_index ps opts ≡ ok v
      → opts.refs ≢ []
  unfolding parse_index
  parse_index-refs ps opts v h e = absurd (cc (rw (parse_index, e) at h))

  -- Of an entity whose props have distinct numbers, an index is accepted if and only if it
  -- references a prop, every reference means one, and it includes erased rows only if it is unique
  -- and the entity has an erased field. What it is made then has the options that it was declared
  -- with and the props that its references mean, in their order, by number and name, and it has a
  -- number, so that asking for it does not panic.
  pub parse_index_iff :
      (ps : List (Prop T)) (opts : IndexOptions) (v : ProtoIndex T)
      → Distinct (map number ps)
      → (parse_index ps opts ≡ ok v) ↔ ((opts.refs ≢ []) × IsIndexOf ps opts v)
  parse_index_iff ps opts v d = (
    λ h. (parse_index-refs ps opts v h, parse_index-eq-ok ps opts v h),
    λ (some_ref, (same, meant, says, n)).
        parse_index-meant ps opts opts.refs v.props refl some_ref d meant says
        ∙ ap (λ o. ok (record { opts = o; props = v.props })) (sym same),
  )
