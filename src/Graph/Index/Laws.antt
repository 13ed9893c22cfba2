-- ===== src/Graph/Index/Laws.antt =====
-- Which indexes graph/index.go accepts, and which rows they cover.
use protobuf_orm.Base.{
  append-eq-nil, ℤ, same_int, same_int-eq, ℕ, ◌+◌, String, ◌≡◌, ◌⊎◌, refl, ap, ◌∙◌, inl, inr, Bool,
  true, false, not, str_eq, eq_iff, Bool-cases, Option-cases, List, [], ◌∷◌, ◌++◌, some,
  some-injective, subst,
}
use protobuf_orm.Base.Result.{ok, ok-injective, Result-cases, if_err_else-eq-ok}
use protobuf_orm.Ormpb.Options.{IndexOptions}
use protobuf_orm.Ormpb.Ref.{Ref}
use protobuf_orm.Graph.Prop.{Prop, number, name}
use protobuf_orm.Graph.Entity.{find}
use protobuf_orm.Graph.Index.{
  ProtoIndex, IndexError, parse_ref, parse_refs, idle_options, index_of, parse_index,
  excludes_erased, index_number, has_erased_field,
}

-- What a test of two names went through that refuses others.
pub same_name : (a b : String) → not (str_eq a b) ≡ false → a ≡ b
same_name a b n = elim (Bool-cases (str_eq a b)) [
  | inl e ↦ (eq_iff _ _).0 e
  | inr e ↦ absurd (cc (rw e at n))
]

module _ {T : Type 0} where
  -- One of the entity's props.
  abbrev pub IsPropOf : List (Prop T) → Prop T → Type 0
  IsPropOf [] p = ⊥
  IsPropOf (q ∷ qs) p = (q ≡ p) ⊎ IsPropOf qs p

  -- The props are those that the references mean, one for each and in their order.
  abbrev pub AreMeant : List (Prop T) → List Ref → List (Prop T) → Type 0
  AreMeant ps [] [] = Unit
  AreMeant ps (r ∷ rs) (p ∷ qs) =
      ((ℤ.pos (number p) ≡ r.number) × (name p ≡ r.name) × IsPropOf ps p) × AreMeant ps rs qs
  AreMeant ps _ _ = ⊥

  pub find-eq-some :
      (f : Prop T → Bool) (ps : List (Prop T)) (p : Prop T)
      → find f ps ≡ some p
      → (f p ≡ true) × IsPropOf ps p
  unfolding find
  find-eq-some f [] p h = absurd (cc h)
  find-eq-some f (q ∷ qs) p h = elim (Bool-cases (f q)) [
    | inl e ↦
        let same : q ≡ p = some-injective (rw (find, e) at h) in
        (subst (λ x. f x ≡ true) same e, inl same)
    | inr e ↦ let k = find-eq-some f qs p (rw (find, e) at h) in (k.0, inr k.1)
  ]

  parse_ref-eq-ok :
      (ps : List (Prop T)) (r : Ref) (i : ℕ) (p : Prop T)
      → parse_ref ps r i ≡ ok p
      → (ℤ.pos (number p) ≡ r.number) × (name p ≡ r.name) × IsPropOf ps p
  unfolding parse_ref
  parse_ref-eq-ok ps r i p h =
      elim (Option-cases (find (λ x. same_int (ℤ.pos (number x)) r.number) ps)) [
        | inl e ↦ absurd (cc (rw (parse_ref, e) at h))
        | inr (q, e) ↦
            let (n, h1) =
              if_err_else-eq-ok (not (str_eq (name q) r.name)) _ _ (rw (parse_ref, e) at h) in
            let found = find-eq-some (λ x. same_int (ℤ.pos (number x)) r.number) ps q e in
            let same : q ≡ p = ok-injective h1 in
            subst (λ x. (ℤ.pos (number x) ≡ r.number) × (name x ≡ r.name) × IsPropOf ps x) same
              (same_int-eq _ _ found.0, same_name _ _ n, found.1)
      ]

  parse_refs-AreMeant :
      (ps : List (Prop T)) (rs : List Ref) (i : ℕ)
      → (parse_refs ps rs i).0 ≡ []
      → AreMeant ps rs (parse_refs ps rs i).1
  unfolding parse_refs
  parse_refs-AreMeant ps [] i h = tt
  parse_refs-AreMeant ps (r ∷ rs) i h = elim (Result-cases (parse_ref ps r i)) [
    | inl (p, e) ↦ rw e (parse_ref-eq-ok ps r i p e, parse_refs-AreMeant ps rs (i + 1) (rw e at h))
    | inr (x, e) ↦ absurd (cc (rw e at h))
  ]

module _ {T : Type 0} where
  -- `includes_erased` is set only where it says something.
  abbrev pub SaysSomething : List (Prop T) → IndexOptions → Type 0
  SaysSomething ps opts =
      (opts.includes_erased ≡ false) ⊎ ((opts.unique ≡ true) × (has_erased_field ps ≡ true))

  idle_options-eq-nil :
      (ps : List (Prop T)) (opts : IndexOptions) → idle_options ps opts ≡ [] → SaysSomething ps opts
  unfolding idle_options
  idle_options-eq-nil ps opts h = elim (Bool-cases opts.includes_erased) [
    | inr e ↦ inl e
    | inl e ↦ elim (Bool-cases opts.unique) [
      | inr u ↦ absurd (cc (rw (idle_options, e, u) at h))
      | inl u ↦ elim (Bool-cases (has_erased_field ps)) [
        | inr f ↦ absurd (cc (rw (idle_options, e, u, f) at h))
        | inl f ↦ inr (u, f)
      ]
    ]
  ]

  index_of-eq-ok :
      (opts : IndexOptions) (errs : List IndexError) (props : List (Prop T)) (v : ProtoIndex T)
      → index_of opts errs props ≡ ok v
      → (errs ≡ []) × (record { opts = opts; props = props } ≡ v)
  index_of-eq-ok opts [] props v h = (refl, ok-injective h)
  index_of-eq-ok opts (e ∷ errs) props v h = absurd (cc h)

  -- What an accepted index is, of an entity with the props and the options.
  abbrev pub IsIndexOf : List (Prop T) → IndexOptions → ProtoIndex T → Type 0
  IsIndexOf ps opts v =
      (v.opts ≡ opts)
      × AreMeant ps opts.refs v.props
      × SaysSomething ps opts
      × ((n : ℕ) × (index_number v ≡ some n))

  first_number :
      (ps : List (Prop T)) (opts : IndexOptions) (r : Ref) (rs : List Ref) (qs : List (Prop T))
      → AreMeant ps (r ∷ rs) qs
      → (n : ℕ) × (index_number (record { opts = opts; props = qs }) ≡ some n)
  unfolding index_number
  first_number ps opts r rs [] k = absurd k
  first_number ps opts r rs (q ∷ qs) k = (number q, refl)

  parse_index_lem :
      (ps : List (Prop T)) (opts : IndexOptions) (refs : List Ref) (v : ProtoIndex T)
      → opts.refs ≡ refs
      → parse_index ps opts ≡ ok v
      → IsIndexOf ps opts v
  unfolding parse_index
  parse_index_lem ps opts [] v s h = absurd (cc (rw (parse_index, s) at h))
  parse_index_lem ps opts (r ∷ rs) v s h =
      let parsed = parse_refs ps (r ∷ rs) 0 in
      let (none_at_all, made) =
        index_of-eq-ok opts (parsed.0 ++ idle_options ps opts) parsed.1 v
          (rw (parse_index, s) at h) in
      let (good, says) = append-eq-nil parsed.0 (idle_options ps opts) none_at_all in
      let meant = parse_refs-AreMeant ps (r ∷ rs) 0 good in
      subst (IsIndexOf ps opts) made (
        refl,
        rw s meant,
        idle_options-eq-nil ps opts says,
        first_number ps opts r rs parsed.1 meant,
      )

  -- An index that is accepted has the options that it was declared with, and one prop of the entity
  -- for each reference, in their order, with the reference's number and name; and it has a number,
  -- so that asking for it does not panic. It includes erased rows only if it is unique and the
  -- entity has an erased field.
  pub parse_index-eq-ok :
      (ps : List (Prop T)) (opts : IndexOptions) (v : ProtoIndex T)
      → parse_index ps opts ≡ ok v
      → IsIndexOf ps opts v
  parse_index-eq-ok ps opts v h = parse_index_lem ps opts opts.refs v refl h

  abbrev pub without_erased : ProtoIndex T → ProtoIndex T
  without_erased v = record v { opts = record v.opts { includes_erased = false } }

  -- Of an index that is accepted, `includes_erased` is either not set, or it makes the difference:
  -- the index covers erased rows, and would not if it were not set.
  pub excludes_erased-parse_index :
      (ps : List (Prop T)) (opts : IndexOptions) (v : ProtoIndex T)
      → parse_index ps opts ≡ ok v
      → (v.opts.includes_erased ≡ false)
        ⊎ ((excludes_erased ps v ≡ false) × (excludes_erased ps (without_erased v) ≡ true))
  unfolding excludes_erased
  excludes_erased-parse_index ps opts v h =
      let (same, meant, says, n) = parse_index-eq-ok ps opts v h in
      elim says [
        | inl e ↦ inl (ap (λ o. o.includes_erased) same ∙ e)
        | inr (u, f) ↦
            let unique = ap (λ o. o.unique) same ∙ u in
            elim (Bool-cases v.opts.includes_erased) [
              | inr e ↦ inl e
              | inl e ↦
                  inr (rw (excludes_erased, unique, e) refl, rw (excludes_erased, unique, f) refl)
            ]
      ]
