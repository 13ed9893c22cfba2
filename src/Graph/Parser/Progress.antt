-- ===== src/Graph/Parser/Progress.antt =====
-- What holds while the props of an entity are parsed (graph/entity.go, parseEntity).
use protobuf_orm.Base.{
  append-eq-nil, ℕ, ==_refl, ◌≤◌, ◌<◌, ◌≡◌, ◌⊎◌, refl, sym, ap, ◌∙◌, subst, inl, inr, String, List,
  [], ◌∷◌, ◌++◌, All, All-append, Option, none, some, arith,
}
use protobuf_orm.Base.Dict.{lookup}
use protobuf_orm.Base.Result.{ok, err}
use protobuf_orm.Graph.Prop.{Prop, field, edge}
use protobuf_orm.Graph.Store.{PropSource, Message, Store, append_prop, write_object}
use protobuf_orm.Graph.Store.Frame.{Keeps}
use protobuf_orm.Graph.Store.Complete.{
  Core, targets, IsListed, IsComplete, IsNamed, Keeps-Besides, write_object-Besides, Besides,
  All-IsListed-Besides, IsComplete-Besides,
}
use protobuf_orm.Graph.Failure.{Failure, Outcome, failures}
use protobuf_orm.Graph.Parser.{Run, keep_prop, parse_prop, parse_props}
use protobuf_orm.Graph.Parser.Frame.{
  Leaves, Leaves-and, Leaves-and_then, Keeping, parse_parsed-Keeping,
}
use protobuf_orm.Graph.Parser.Targets.{
  New, IsSound, HasTargets, targets_of, parse_parsed-HasTargets,
}

-- What holds while the props of the entity at `v` are parsed.
pub record InProgress (v : ℕ) (s : Store) : Type 0 where
  pub below : v < s.next
  pub named : IsNamed s
  pub closed : All (IsListed s) (targets (s.cell v).props)
  pub complete : (a : ℕ) → v < a → a < s.next → IsComplete s a

pub IsNamed-Besides :
    (v : ℕ) (s s' : Store) → Besides v s s' → s.entities ≡ s'.entities → IsNamed s → IsNamed s'
IsNamed-Besides v s s' b e n name a h =
    let (below, known) = n name a (subst (λ d. lookup name d ≡ some a) (sym e) h) in
    (omega (arith, below, b.grown), sym (b.named a below) ∙ known)

pub failures-eq-nil :
    {A : Type 0} (name : String) (r : Outcome A) → failures name r ≡ [] → (x : A) × (r ≡ ok x)
failures-eq-nil name (ok x) h = (x, refl)
failures-eq-nil name (err (f, fs)) h = absurd (cc h)

targets-append : (ps qs : List (Prop ℕ)) → targets (ps ++ qs) ≡ targets ps ++ targets qs
targets-append [] qs = refl
targets-append (field f ∷ ps) qs = targets-append ps qs
targets-append (edge e ∷ ps) qs = ap (λ ts. e.target ∷ ts) (targets-append ps qs)

-- The calls for a prop leave the entity in progress.
InProgress-New :
    (v : ℕ) (s s' : Store) → InProgress v s → Keeps s.next s s' → New s s' → InProgress v s'
InProgress-New v s s' p k n =
    let b = Keeps-Besides s.next s s' k in
    let same = b.cores v p.below (λ e. absurd (omega (arith, p.below, e))) in
    record {
      below = omega (arith, p.below, k.grown);
      named = n.named;
      closed =
          subst (λ (c : Core). All (IsListed s') c.3) same
            (All-IsListed-Besides s.next s s' (targets (s.cell v).props) b p.closed);
      complete = λ a h l. elim (split a) [
        | inl old ↦
            IsComplete-Besides s.next s s' a b (λ e. absurd (omega (arith, old, e)))
              (p.complete a h old)
        | inr new ↦ n.complete a new l
      ];
    }
  where
    split : (a : ℕ) → (a < s.next) ⊎ (s.next ≤ a)
    split a = grind arith

keep_prop-InProgress :
    (v : ℕ) (x : Option (Prop ℕ)) (s : Store)
    → InProgress v s
    → All (IsListed s) (targets_of x)
    → InProgress v (keep_prop v (ok x) s)
unfolding append_prop write_object
keep_prop-InProgress v none s p h = p
keep_prop-InProgress v (some q) s p h =
    let b =
      write_object-Besides v (record (s.cell v) { props = (s.cell v).props ++ q ∷ [] }) s refl in
    let s' = append_prop v q s in
    let grown : targets (s'.cell v).props ≡ targets (s.cell v).props ++ targets (q ∷ []) =
      rw (==_refl v) (targets-append (s.cell v).props (q ∷ [])) in
    record {
      below = p.below;
      named = IsNamed-Besides v s s' b refl p.named;
      closed = subst (All (IsListed s')) (sym grown) (
          All-append (IsListed s') (targets (s.cell v).props) (targets (q ∷ []))
            (All-IsListed-Besides v s s' (targets (s.cell v).props) b p.closed)
            (All-IsListed-Besides v s s' (targets (q ∷ [])) b h));
      complete = λ a h l.
          IsComplete-Besides v s s' a b (λ e. absurd (omega (arith, h, e))) (p.complete a h l);
    }

module _ (messages : List Message) (rec : Message → Store → Run (Outcome (Option ℕ)))
    (keeps : (m : Message) (s : Store) → Leaves (Keeping s.next s) (rec m s))
    (sound : (m : Message) (s : Store) → Leaves (IsSound m s) (rec m s)) where
  -- Unless there are errors, the entity stays in progress.
  abbrev pub Progresses : ℕ → Store → List Failure → Store → Type 0
  Progresses v s fs s' = InProgress v s → fs ≡ [] → InProgress v s'

  pub parse_props-Progresses :
      (v : ℕ) (ps : List PropSource) (s : Store)
      → Leaves (Progresses v s) (parse_props messages rec v ps s)
  unfolding parse_props parse_prop
  parse_props-Progresses v [] s = λ p h. p
  parse_props-Progresses v (p ∷ ps) s =
      Leaves-and_then (λ r s1. Keeps s.next s s1 × HasTargets s r s1) (Progresses v s)
        (parse_prop messages rec p s) _
        (Leaves-and (Keeping s.next s) (HasTargets s) (parse_prop messages rec p s)
          (parse_parsed-Keeping messages rec keeps p.source _ s)
          (parse_parsed-HasTargets messages rec keeps sound p.source _ s))
        (λ r s1 (k, t).
          Leaves-and_then (Progresses v (keep_prop v r s1)) (Progresses v s)
            (parse_props messages rec v ps (keep_prop v r s1)) _
            (parse_props-Progresses v ps (keep_prop v r s1))
            (λ fs s2 go progress none_at_all.
              let (good, rest) = append-eq-nil (failures p.source.name r) fs none_at_all in
              let (x, e) = failures-eq-nil p.source.name r good in
              let (new, listed) = t progress.named x e in
              go
                (subst (λ y. InProgress v (keep_prop v y s1)) (sym e)
                  (keep_prop-InProgress v x s1 (InProgress-New v s s1 progress k new) listed))
                rest))
