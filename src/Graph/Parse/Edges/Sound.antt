-- ===== src/Graph/Parse/Edges/Sound.antt =====
-- What the parser accepts as edges, and what becomes of them (graph/prop.go, graph/entity.go).
use protobuf_orm.Base.{
  ℤ, same_int, same_int-eq, ◌≡◌, refl, ap, inl, inr, Bool, true, false, not, ◌&&◌, str_eq,
  Bool-cases, Option-cases, List, [], ◌∷◌, All, subst,
}
use protobuf_orm.Base.Result.{Result, ok, err, ok-injective, if_err_else-eq-ok}
use protobuf_orm.Proto.{FieldDescriptor, is_repeated, is_message_kind}
use protobuf_orm.Ormpb.Options.{EdgeOptions, get_bool}
use protobuf_orm.Ormpb.Ref.{Ref}
use protobuf_orm.Graph.Prop.{Edge, Prop, field, edge, number, name}
use protobuf_orm.Graph.Entity.{find}
use protobuf_orm.Graph.Index.Laws.{IsPropOf, find-eq-some, same_name}
use protobuf_orm.Graph.Parse.Edges.{
  edge_to, edge_of, check_back, find_back, is_one_to_one, commit_edge,
}

module _ {T : Type 0} where
  -- An edge that is unique is not repeated.
  abbrev pub IsSingular : Edge T → Type 0
  IsSingular e = (get_bool e.opts.unique && is_repeated e.source.cardinality) ≡ false

  edge_of-IsSingular :
      {E : Type 0} (mf : FieldDescriptor) (oe : EdgeOptions) (target : Result E T) (e : Edge T)
      → edge_of mf oe target ≡ ok e
      → IsSingular e
  unfolding edge_of edge_to
  edge_of-IsSingular mf oe (err x) e h =
      let (m, h1) = if_err_else-eq-ok (not (is_message_kind mf.kind)) _ _ h in absurd (cc h1)
  edge_of-IsSingular mf oe (ok t) e h =
      let (m, h1) = if_err_else-eq-ok (not (is_message_kind mf.kind)) _ _ h in
      let (u, h2) = if_err_else-eq-ok (get_bool oe.unique && is_repeated mf.cardinality) _ _ h1 in
      subst IsSingular (ok-injective h2) u

  commit_edge-IsSingular :
      (inverse e : Edge T)
      → IsSingular inverse
      → IsSingular e
      → IsSingular (commit_edge inverse e inverse) × IsSingular (commit_edge inverse e e)
  unfolding commit_edge
  commit_edge-IsSingular inverse e hi he = elim (Bool-cases (is_one_to_one inverse e)) [
    | inl o ↦ (rw o (both _ _ o).0, rw o (both _ _ o).1)
    | inr o ↦ (rw o hi, rw o he)
  ]
    where
      both : (a b : Bool) → (not a && not b) ≡ true → (a ≡ false) × (b ≡ false)
      both false false h = (refl, refl)
      both false true h = absurd (cc h)
      both true b h = absurd (cc h)

  -- An edge among the props of an entity is singular.
  abbrev pub IsSingularProp : Prop T → Type 0
  IsSingularProp (field f) = Unit
  IsSingularProp (edge e) = IsSingular e

  All-IsPropOf :
      (P : Prop T → Type 0) (ps : List (Prop T)) (p : Prop T) → All P ps → IsPropOf ps p → P p
  All-IsPropOf P [] p h k = absurd k
  All-IsPropOf P (q ∷ qs) p h (inl same) = subst P same h.0
  All-IsPropOf P (q ∷ qs) p h (inr k) = All-IsPropOf P qs p h.1 k

  check_back-eq-ok :
      (back_ref : Ref) (e : Edge T) (p : Prop T) (inverse : Edge T)
      → check_back back_ref e p ≡ ok inverse
      → (name p ≡ back_ref.name) × (p ≡ edge inverse)
  unfolding check_back
  check_back-eq-ok back_ref e (field f) inverse h =
      let (n, h1) = if_err_else-eq-ok (not (str_eq f.source.name back_ref.name)) _ _ h in
      absurd (cc h1)
  check_back-eq-ok back_ref e (edge x) inverse h =
      let (n, h1) = if_err_else-eq-ok (not (str_eq x.source.name back_ref.name)) _ _ h in
      let (u, h2) =
        if_err_else-eq-ok (get_bool x.opts.unique && is_repeated e.source.cardinality) _ _ h1 in
      (same_name _ _ n, ap edge (ok-injective h2))

  find_back-IsPropOf :
      (ps : List (Prop T)) (back_ref : Ref) (e inverse : Edge T)
      → find_back ps back_ref e ≡ ok inverse
      → IsPropOf ps (edge inverse)
        × (ℤ.pos inverse.source.number ≡ back_ref.number)
        × (inverse.source.name ≡ back_ref.name)
  unfolding find_back
  find_back-IsPropOf ps back_ref e inverse h =
      elim (Option-cases (find (λ p. same_int (ℤ.pos (number p)) back_ref.number) ps)) [
        | inl n ↦ absurd (cc (rw (find_back, n) at h))
        | inr (p, f) ↦
            let (named, same) = check_back-eq-ok back_ref e p inverse (rw (find_back, f) at h) in
            let found = find-eq-some (λ p. same_int (ℤ.pos (number p)) back_ref.number) ps p f in
            subst
              (λ x. IsPropOf ps x × (ℤ.pos (number x) ≡ back_ref.number) × (name x ≡ back_ref.name))
              same (found.1, same_int-eq _ _ found.0, named)
      ]

  -- Suppose that no edge of the target is both unique and repeated. If an edge is accepted and an
  -- inverse is found for it, then the inverse is one of the target's edges and has the number and
  -- the name of the back reference. After the commit for a one-to-one relation, too, neither the
  -- edge nor the inverse is both unique and repeated.
  pub find_back-eq-ok :
      {E : Type 0} (mf : FieldDescriptor) (oe : EdgeOptions) (target : Result E T)
      (ps : List (Prop T)) (back_ref : Ref) (e inverse : Edge T)
      → All IsSingularProp ps
      → edge_of mf oe target ≡ ok e
      → find_back ps back_ref e ≡ ok inverse
      → (IsPropOf ps (edge inverse)
          × (ℤ.pos inverse.source.number ≡ back_ref.number)
          × (inverse.source.name ≡ back_ref.name))
        × IsSingular (commit_edge inverse e inverse)
        × IsSingular (commit_edge inverse e e)
  find_back-eq-ok mf oe target ps back_ref e inverse all accepted found =
      let meant = find_back-IsPropOf ps back_ref e inverse found in
      let inverse_before = All-IsPropOf IsSingularProp ps (edge inverse) all meant.0 in
      let e_before = edge_of-IsSingular mf oe target e accepted in
      let (inverse_after, e_after) = commit_edge-IsSingular inverse e inverse_before e_before in
      (meant, inverse_after, e_after)
