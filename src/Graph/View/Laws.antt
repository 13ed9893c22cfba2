-- ===== src/Graph/View/Laws.antt =====
-- That a finished entity can be looked at (graph/entity.go, graph/edge.go).
use protobuf_orm.Base.{
  cons-injective, ℕ, ◌==◌, ==_refl, ==_ne, ◌≡◌, ◌≢◌, refl, sym, ap, ◌∙◌, subst, inl, inr, Bool,
  true, Bool-cases, String, List, [], ◌∷◌, map, All, Distinct, some, if◌then◌else◌,
}
use protobuf_orm.Base.Dict.{lookup}
use protobuf_orm.Graph.Prop.{Field, Prop, field, edge, number}
use protobuf_orm.Graph.Entity.{Target, Entity, fields, find}
use protobuf_orm.Graph.Rpc.{FullNames}
use protobuf_orm.Graph.Parse.{is_key_field}
use protobuf_orm.Graph.Parse.Entity.{pick}
use protobuf_orm.Graph.Store.{Object, Store}
use protobuf_orm.Graph.Store.Complete.{targets, HasKey, IsListed}
use protobuf_orm.Graph.Parser.Accepted.{pick-only}
use protobuf_orm.Graph.File.Complete.{IsWellFormed}
use protobuf_orm.Graph.View.{key_of, target_at, prop_at, props_at, entity_at}

abbrev pub number_of : Field → ℕ
number_of f = f.source.number

find-pick :
    (is : Field → Bool) (fs : List Field) (k : Field)
    → pick is fs ≡ k ∷ []
    → (f : Field) × (find (λ f. number_of f == number_of k) fs ≡ some f)
unfolding find
find-pick is [] k h = absurd (cc h)
find-pick is (f ∷ fs) k h = elim (Bool-cases (number_of f == number_of k)) [
  | inl e ↦ (f, rw e refl)
  | inr e ↦ elim (Bool-cases (is f)) [
    | inl i ↦
        let same : f ≡ k = cons-injective (rw i at h) in
        absurd (cc (sym e ∙ ap (λ x. number_of x == number_of k) same ∙ ==_refl (number_of k)))
    | inr i ↦ let (g, found) = find-pick is fs k (rw i at h) in (g, rw e found)
  ]
]

All-pick :
    (P : ℕ → Type 0) (is : Field → Bool) (fs : List Field) (k : Field)
    → All P (map number_of fs)
    → pick is fs ≡ k ∷ []
    → P (number_of k)
All-pick P is [] k all h = absurd (cc h)
All-pick P is (f ∷ fs) k all h = elim (Bool-cases (is f)) [
  | inl i ↦ subst (λ x. P (number_of x)) (cons-injective (rw i at h)) all.0
  | inr i ↦ All-pick P is fs k all.1 (rw i at h)
]

-- Where numbers are distinct, the field that is found is the one that is picked.
find-pick_own :
    (is : Field → Bool) (fs : List Field) (k : Field)
    → Distinct (map number_of fs)
    → pick is fs ≡ k ∷ []
    → find (λ f. number_of f == number_of k) fs ≡ some k
unfolding find
find-pick_own is [] k d h = absurd (cc h)
find-pick_own is (f ∷ fs) k d h = elim (Bool-cases (is f)) [
  | inl i ↦
      subst
        (λ x.
          (if number_of f == number_of x then some f else find (λ g. number_of g == number_of x) fs)
          ≡ some x)
        (cons-injective (rw i at h)) (rw (==_refl (number_of f)) refl)
  | inr i ↦
      let picked = rw i at h in
      let apart = All-pick (λ m. number_of f ≢ m) is fs k d.0 picked in
      rw (==_ne (number_of f) (number_of k) apart) (find-pick_own is fs k d.1 picked)
]

key_of-some : (o : Object) → HasKey o.key (fields o.props) → (k : Field) × (key_of o ≡ some k)
unfolding key_of
key_of-some o h =
    let (f, found) = find-pick is_key_field (fields o.props) h.k h.only in
    (f, rw (key_of, h.points) found)

key_of-eq-some :
    (o : Object) (h : HasKey o.key (fields o.props))
    → Distinct (map number_of (fields o.props))
    → key_of o ≡ some h.k
unfolding key_of
key_of-eq-some o h d =
    rw (key_of, h.points) (find-pick_own is_key_field (fields o.props) h.k d h.only)

module _ (N : FullNames) (s : Store) where
  abbrev shown : ℕ → Field → Target
  shown a k = record {
    full_name = (s.cell a).full_name;
    name = N.base (s.cell a).full_name;
    key = k;
  }

  target_at-eq-some :
      (a : ℕ) (k : Field) → key_of (s.cell a) ≡ some k → target_at N s a ≡ some (shown a k)
  unfolding target_at
  target_at-eq-some a k h = rw (target_at, h) refl

  prop_at-some :
      (well : IsWellFormed s) (p : Prop ℕ)
      → All (IsListed s) (targets (p ∷ []))
      → (q : Prop Target) × (prop_at N s p ≡ some q) × (number q ≡ number p)
  unfolding prop_at
  prop_at-some well (field f) h = (field f, refl, refl)
  prop_at-some well (edge e) h =
      let (key, closed, listed) = well.complete (s.cell e.target).full_name e.target h.0.1 in
      let (k, found) = key_of-some (s.cell e.target) key in
      (
        edge (record {
          source = e.source;
          opts = e.opts;
          target = shown e.target k;
          inverse = e.inverse;
        }),
        rw (prop_at, target_at-eq-some e.target k found) refl,
        refl,
      )

  props_at-cons :
      (p : Prop ℕ) (ps : List (Prop ℕ)) (q : Prop Target) (qs : List (Prop Target))
      → prop_at N s p ≡ some q
      → props_at N s ps ≡ some qs
      → props_at N s (p ∷ ps) ≡ some (q ∷ qs)
  unfolding props_at
  props_at-cons p ps q qs h k = rw (props_at, h, k) refl

  props_at-some :
      (well : IsWellFormed s) (ps : List (Prop ℕ))
      → All (IsListed s) (targets ps)
      → (qs : List (Prop Target)) × (props_at N s ps ≡ some qs) × (map number qs ≡ map number ps)
  unfolding props_at prop_at
  props_at-some well [] h = ([], refl, refl)
  props_at-some well (field f ∷ ps) h =
      let (qs, rest, all) = props_at-some well ps h in (field f ∷ qs, rw rest refl, cc all)
  props_at-some well (edge e ∷ ps) h =
      let (q, found, same) = prop_at-some well (edge e) (h.0, tt) in
      let (qs, rest, all) = props_at-some well ps h.1 in
      (q ∷ qs, props_at-cons (edge e) ps q qs found rest, cc (same, all))

  -- In a graph in which every entity is finished, the methods of an entity answer, those of its edges'
  -- targets included, where the numbers of its fields are distinct. Its key is a field that is marked
  -- as one, unique and immutable. Its full name is the one that it goes by, and its props stand for
  -- those that were parsed, by number and in order.
  pub entity_at-some :
      (name : String) (a : ℕ)
      → IsWellFormed s
      → lookup name s.entities ≡ some a
      → Distinct (map number_of (fields (s.cell a).props))
      → (e : Entity) × (entity_at N s a ≡ some e)
        × (e.full_name ≡ name)
        × (is_key_field e.key ≡ true)
        × (e.key.opts.unique ≡ some true)
        × (e.key.opts.immutable ≡ some true)
        × (map number e.props ≡ map number (s.cell a).props)
  unfolding entity_at
  entity_at-some name a well h d =
      let (key, closed, listed) = well.complete name a h in
      let found = key_of-eq-some (s.cell a) key d in
      let (ps, shown_props, same) = props_at-some well (s.cell a).props closed in
      (
        record {
          full_name = (s.cell a).full_name;
          name = N.base (s.cell a).full_name;
          key = key.k;
          props = ps;
        },
        rw (entity_at, target_at-eq-some a key.k found, shown_props) refl,
        (well.named name a h).1,
        pick-only is_key_field (fields (s.cell a).props) key.k key.only,
        key.unique,
        key.immutable,
        same,
      )
