-- ===== src/Graph/Store/Frame.antt =====
-- What a change of the store leaves as it was.
use protobuf_orm.Base.{
  ℕ, ◌==◌, ==_ne, ==_iff, subst, ◌≤◌, ◌<◌, ◌≡◌, refl, sym, ap, ◌∙◌, inl, inr, String, false,
  Bool-cases, List, [], ◌∷◌, map, none, some, some-injective, str_eq, eq_iff, arith,
}
use protobuf_orm.Base.Dict.{lookup, lookup-insert, lookup-erase}
use protobuf_orm.Graph.Prop.{Edge, Prop, field, edge}
use protobuf_orm.Graph.Store.{
  Object, Store, write_object, declare_entity, undeclare_entity, append_prop, update_edge,
  change_edge,
}

-- An edge, apart from whether it is unique.
abbrev pub forget : Edge ℕ → Edge ℕ
forget e = record e { opts = record e.opts { unique = none } }

abbrev pub forget_prop : Prop ℕ → Prop ℕ
forget_prop (field f) = field f
forget_prop (edge e) = edge (forget e)

-- An entity, apart from which of its edges are unique.
abbrev pub forget_object : Object → Object
forget_object o = record o { props = map forget_prop o.props }

-- No object is renamed, and none that was there comes to be declared; those below `n` are the same, apart from which edges are unique, and no entity that was
-- declared is undeclared or declared anew.
pub record Keeps (n : ℕ) (s s' : Store) : Type 0 where
  pub grown : s.next ≤ s'.next
  pub named : (a : ℕ) → a < s.next → (s.cell a).full_name ≡ (s'.cell a).full_name
  pub same : (a : ℕ) → a < n → forget_object (s.cell a) ≡ forget_object (s'.cell a)
  pub kept :
      (name : String) (a : ℕ) → lookup name s.entities ≡ some a → lookup name s'.entities ≡ some a
  pub fresh :
      (name : String) (a : ℕ)
      → lookup name s'.entities ≡ some a
      → a < s.next
      → lookup name s.entities ≡ some a

pub Keeps-refl : (n : ℕ) (s : Store) → Keeps n s s
Keeps-refl n s = record {
  grown = omega arith;
  named = λ a h. refl;
  same = λ a h. refl;
  kept = λ name a h. h;
  fresh = λ name a h k. h;
}

pub Keeps-trans : (n m : ℕ) (s t u : Store) → n ≤ m → Keeps n s t → Keeps m t u → Keeps n s u
Keeps-trans n m s t u h p q = record {
  grown = omega (arith, p.grown, q.grown);
  named = λ a k. p.named a k ∙ q.named a (omega (arith, p.grown));
  same = λ a k. p.same a k ∙ q.same a (omega arith);
  kept = λ name a k. q.kept name a (p.kept name a k);
  fresh = λ name a k l. p.fresh name a (q.fresh name a k (omega (arith, l, p.grown))) l;
}

-- A declared name is not one that is undeclared.
pub other_name :
    (k j : String) {x : ℕ} (d : List (String × ℕ))
    → lookup k d ≡ none
    → lookup j d ≡ some x
    → str_eq k j ≡ false
other_name k j d h g = elim (Bool-cases (str_eq k j)) [
  | inr e ↦ e
  | inl e ↦ absurd (cc (h, g, (eq_iff k j).0 e))
]

pub write_object-named :
    (v : ℕ) (o : Object) (s : Store)
    → o.full_name ≡ (s.cell v).full_name
    → (a : ℕ) → a < s.next
    → (s.cell a).full_name ≡ ((write_object v o s).cell a).full_name
unfolding write_object
write_object-named v o s e a h = elim (Bool-cases (v == a)) [
  | inl k ↦ rw k (subst (λ x. (s.cell x).full_name ≡ o.full_name) ((==_iff v a).0 k) (sym e))
  | inr k ↦ rw k refl
]

pub write_object-Keeps :
    (n v : ℕ) (o : Object) (s : Store)
    → n ≤ v
    → o.full_name ≡ (s.cell v).full_name
    → Keeps n s (write_object v o s)
unfolding write_object
write_object-Keeps n v o s h e = record {
  grown = omega arith;
  named = write_object-named v o s e;
  same = λ a k. rw (==_ne v a (λ e. absurd (omega (arith, e)))) refl;
  kept = λ name a k. k;
  fresh = λ name a k l. k;
}

pub declare_entity-Keeps :
    (n : ℕ) (name : String) (s : Store)
    → n ≤ s.next
    → lookup name s.entities ≡ none
    → Keeps n s (declare_entity name s)
unfolding declare_entity
declare_entity-Keeps n name s h fresh = record {
  grown = omega arith;
  named = λ a k. rw (==_ne s.next a (λ e. absurd (omega (arith, e)))) refl;
  same = λ a k. rw (==_ne s.next a (λ e. absurd (omega (arith, e)))) refl;
  kept =
      λ j a k. rw (lookup-insert name j s.next s.entities, other_name name j s.entities fresh k) k;
  fresh = λ j a k l. elim (Bool-cases (str_eq name j)) [
    | inl e ↦
        let at : s.next ≡ a =
          some-injective (rw e at (sym (lookup-insert name j s.next s.entities) ∙ k)) in
        absurd (omega (arith, at, l))
    | inr e ↦ rw e at (sym (lookup-insert name j s.next s.entities) ∙ k)
  ];
}

-- To undeclare is to go back to the names before.
pub undeclare_entity-Keeps :
    (n : ℕ) (name : String) (s s' : Store)
    → lookup name s.entities ≡ none
    → Keeps n s s'
    → Keeps n s (undeclare_entity name s')
unfolding undeclare_entity
undeclare_entity-Keeps n name s s' fresh p = record {
  grown = p.grown;
  named = p.named;
  same = p.same;
  kept = λ j a k.
      rw (lookup-erase name j s'.entities, other_name name j s.entities fresh k) (p.kept j a k);
  fresh = λ j a k l. elim (Bool-cases (str_eq name j)) [
    | inl e ↦ absurd (cc (rw e at (sym (lookup-erase name j s'.entities) ∙ k)))
    | inr e ↦ p.fresh j a (rw e at (sym (lookup-erase name j s'.entities) ∙ k)) l
  ];
}

pub append_prop-Keeps : (n v : ℕ) (p : Prop ℕ) (s : Store) → n ≤ v → Keeps n s (append_prop v p s)
unfolding append_prop
append_prop-Keeps n v p s h = write_object-Keeps n v _ s h refl

forget-update_edge :
    (n : ℕ) (f : Edge ℕ → Edge ℕ) (ps : List (Prop ℕ))
    → ((e : Edge ℕ) → forget (f e) ≡ forget e)
    → map forget_prop (update_edge n f ps) ≡ map forget_prop ps
unfolding update_edge
forget-update_edge n f [] h = refl
forget-update_edge n f (field x ∷ ps) h = ap (λ qs. field x ∷ qs) (forget-update_edge n f ps h)
forget-update_edge n f (edge e ∷ ps) h = elim (Bool-cases (e.source.number == n)) [
  | inl k ↦ rw k (cc (h e, forget-update_edge n f ps h))
  | inr k ↦ rw k (cc (forget-update_edge n f ps h))
]

pub change_own_edge-Keeps :
    (k v n : ℕ) (f : Edge ℕ → Edge ℕ) (s : Store) → k ≤ v → Keeps k s (change_edge v n f s)
unfolding change_edge
change_own_edge-Keeps k v n f s h = write_object-Keeps k v _ s h refl

-- A change of an edge that may only make it unique is allowed anywhere.
pub change_edge-Keeps :
    (k a n : ℕ) (f : Edge ℕ → Edge ℕ) (s : Store)
    → ((e : Edge ℕ) → forget (f e) ≡ forget e)
    → Keeps k s (change_edge a n f s)
unfolding change_edge write_object
change_edge-Keeps k a n f s h = record {
  grown = omega arith;
  named = write_object-named a (changed (s.cell a)) s refl;
  same = λ b m. elim (Bool-cases (a == b)) [
    | inl e ↦ rw e (
        subst (λ x. forget_object (s.cell x) ≡ forget_object (changed (s.cell a)))
          ((==_iff a b).0 e)
          (ap (λ ps. record (forget_object (s.cell a)) { props = ps })
            (sym (forget-update_edge n f (s.cell a).props h))))
    | inr e ↦ rw e refl
  ];
  kept = λ name b m. m;
  fresh = λ name b m l. m;
}
  where
    changed : Object → Object
    changed o = record o { props = update_edge n f o.props }
