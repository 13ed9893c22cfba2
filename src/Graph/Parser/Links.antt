-- ===== src/Graph/Parser/Links.antt =====
-- That the commits on edges change nothing that being finished depends on (graph/entity.go).
use protobuf_orm.Base.{
  ℕ, ◌==◌, ==_iff, ◌≡◌, refl, ap, ◌∙◌, subst, inl, inr, Bool-cases, List, [], ◌∷◌, some, arith,
}
use protobuf_orm.Base.Dict.{lookup}
use protobuf_orm.Graph.Prop.{Edge, Prop, field, edge}
use protobuf_orm.Graph.Entity.{fields}
use protobuf_orm.Graph.Parse.Edges.{commit_edge, is_one_to_one}
use protobuf_orm.Graph.Store.{Object, Store, write_object, update_edge, change_edge}
use protobuf_orm.Graph.Store.Complete.{core, Core, targets, Besides}
use protobuf_orm.Graph.Finish.{Link, run_link, run_links}

fields-update_edge :
    (n : ℕ) (f : Edge ℕ → Edge ℕ) (ps : List (Prop ℕ)) → fields (update_edge n f ps) ≡ fields ps
unfolding fields update_edge
fields-update_edge n f [] = refl
fields-update_edge n f (field x ∷ ps) = ap (λ fs. x ∷ fs) (fields-update_edge n f ps)
fields-update_edge n f (edge e ∷ ps) = fields-update_edge n f ps

targets-update_edge :
    (n : ℕ) (f : Edge ℕ → Edge ℕ) (ps : List (Prop ℕ))
    → ((e : Edge ℕ) → (f e).target ≡ e.target)
    → targets (update_edge n f ps) ≡ targets ps
unfolding update_edge
targets-update_edge n f [] h = refl
targets-update_edge n f (field x ∷ ps) h = targets-update_edge n f ps h
targets-update_edge n f (edge e ∷ ps) h = elim (Bool-cases (e.source.number == n)) [
  | inl k ↦ rw k (cc (h e, targets-update_edge n f ps h))
  | inr k ↦ rw k (cc (targets-update_edge n f ps h))
]

-- A change of edges that keeps their targets changes nothing that being finished depends on.
pub record SameCores (s s' : Store) : Type 0 where
  pub size : s.next ≡ s'.next
  pub names : s.entities ≡ s'.entities
  pub cores : (a : ℕ) → core (s.cell a) ≡ core (s'.cell a)

SameCores-trans : (s t u : Store) → SameCores s t → SameCores t u → SameCores s u
SameCores-trans s t u p q = record {
  size = p.size ∙ q.size;
  names = p.names ∙ q.names;
  cores = λ a. p.cores a ∙ q.cores a;
}

change_edge-SameCores :
    (a n : ℕ) (f : Edge ℕ → Edge ℕ) (s : Store)
    → ((e : Edge ℕ) → (f e).target ≡ e.target)
    → SameCores s (change_edge a n f s)
unfolding change_edge write_object
change_edge-SameCores a n f s h = record {
  size = refl;
  names = refl;
  cores = λ b. elim (Bool-cases (a == b)) [
    | inl e ↦ rw e (
        subst (λ x. core (s.cell x) ≡ core (changed (s.cell a))) ((==_iff a b).0 e)
          (rw (fields-update_edge n f (s.cell a).props, targets-update_edge n f (s.cell a).props h)
            refl))
    | inr e ↦ rw e refl
  ];
}
  where
    changed : Object → Object
    changed o = record o { props = update_edge n f o.props }

commit_edge-target : (inverse e x : Edge ℕ) → (commit_edge inverse e x).target ≡ x.target
unfolding commit_edge
commit_edge-target inverse e x = elim (Bool-cases (is_one_to_one inverse e)) [
  | inl o ↦ rw o refl
  | inr o ↦ rw o refl
]

run_link-SameCores : (v : ℕ) (l : Link) (s : Store) → SameCores s (run_link v l s)
unfolding run_link
run_link-SameCores v (e, inverse) s =
    SameCores-trans s _ _
      (change_edge-SameCores v e.source.number
        (λ x. record x { inverse = some inverse.source.full_name }) s (λ x. refl))
      (SameCores-trans _ _ _
        (change_edge-SameCores e.target inverse.source.number (commit_edge inverse e) _
          (commit_edge-target inverse e))
        (change_edge-SameCores v e.source.number (commit_edge inverse e) _
          (commit_edge-target inverse e)))

pub run_links-SameCores : (v : ℕ) (ls : List Link) (s : Store) → SameCores s (run_links v ls s)
unfolding run_links
run_links-SameCores v [] s = record { size = refl; names = refl; cores = λ a. refl }
run_links-SameCores v (l ∷ ls) s =
    SameCores-trans s (run_link v l s) _ (run_link-SameCores v l s)
      (run_links-SameCores v ls (run_link v l s))

pub SameCores-Besides : (v : ℕ) (s s' : Store) → SameCores s s' → Besides v s s'
SameCores-Besides v s s' c = record {
  grown = omega (arith, c.size);
  named = λ a h. ap (λ (x : Core). x.0) (c.cores a);
  cores = λ a h n. c.cores a;
  kept = λ name a h. subst (λ d. lookup name d ≡ some a) c.names h;
}
