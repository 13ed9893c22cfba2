-- ===== src/Graph/Parser/Targets.antt =====
-- That the edges of an accepted entity lead to entities of the graph (graph/prop.go, parseProp).
use protobuf_orm.Base.{
  ℕ, ◌≤◌, ◌<◌, ◌≡◌, refl, sym, ap, subst, inl, inr, String, Bool, false, not, ◌&&◌, Bool-cases,
  Option-cases, List, [], ◌∷◌, All, Option, none, some, arith,
}
use protobuf_orm.Base.Dict.{lookup}
use protobuf_orm.Base.Result.{Result, ok, err, ok-injective}
use protobuf_orm.Proto.{FieldDescriptor, is_message_kind, is_repeated}
use protobuf_orm.Ormpb.Options.{EdgeOptions, get_bool}
use protobuf_orm.Graph.Prop.{Prop}
use protobuf_orm.Graph.Parse.{PropError, Parsed, disabled_prop, parsed_field, parsed_edge}
use protobuf_orm.Graph.Parse.Edges.{edge_of, edge_to}
use protobuf_orm.Graph.Store.{Message, Store}
use protobuf_orm.Graph.Store.Complete.{targets, IsListed, IsComplete, IsNamed, IsNamed-IsListed}
use protobuf_orm.Graph.Failure.{Outcome, one_failure, scalar_edge}
use protobuf_orm.Graph.Parser.{
  Run, find_message, target_of, prop_of_edge, parse_target, resolve, parse_edge, parse_parsed,
}
use protobuf_orm.Graph.Parser.Frame.{Leaves, Leaves-and_then, Keeping}

-- The entities that came to the store are finished.
pub record New (s s' : Store) : Type 0 where
  pub named : IsNamed s'
  pub complete : (a : ℕ) → s.next ≤ a → a < s'.next → IsComplete s' a

pub New-refl : (s : Store) → IsNamed s → New s s
New-refl s n = record { named = n; complete = λ a h k. absurd (omega (arith, h, k)) }

-- The message is one of an entity.
abbrev pub is_entity : Message → Bool
is_entity m = elim m.opts [ none ↦ false | some o ↦ not o.disabled ]

abbrev pub Answers : Message → Option ℕ → Store → Type 0
Answers m none s = is_entity m ≡ false
Answers m (some a) s = lookup m.full_name s.entities ≡ some a

-- If parseEntity accepts a message, the entities that came to the store are finished, and its
-- answer is what the graph has under the message's name.
abbrev pub IsSound : Message → Store → Outcome (Option ℕ) → Store → Type 0
IsSound m s r s' = IsNamed s → (x : Option ℕ) → r ≡ ok x → New s s' × Answers m x s'

abbrev pub HasTarget : Store → Outcome ℕ → Store → Type 0
HasTarget s r s' = IsNamed s → (a : ℕ) → r ≡ ok a → New s s' × IsListed s' a

abbrev pub targets_of : Option (Prop ℕ) → List ℕ
targets_of none = []
targets_of (some p) = targets (p ∷ [])

abbrev pub HasTargets : Store → Outcome (Option (Prop ℕ)) → Store → Type 0
HasTargets s r s' =
    IsNamed s → (x : Option (Prop ℕ)) → r ≡ ok x → New s s' × All (IsListed s') (targets_of x)

target_of-eq-ok :
    (name : String) (r : Outcome (Option ℕ)) (a : ℕ) → target_of name r ≡ ok a → r ≡ ok (some a)
target_of-eq-ok name (err fs) a h = absurd (cc h)
target_of-eq-ok name (ok none) a h = absurd (cc h)
target_of-eq-ok name (ok (some b)) a h = cc h

prop_of_edge-eq-ok :
    (mf : FieldDescriptor) (oe : EdgeOptions) (r : Outcome ℕ) (x : Option (Prop ℕ))
    → prop_of_edge (edge_of mf oe r) ≡ ok x
    → (a : ℕ) × (r ≡ ok a) × (targets_of x ≡ a ∷ [])
unfolding edge_of edge_to
prop_of_edge-eq-ok mf oe (err fs) x h = elim (Bool-cases (is_message_kind mf.kind)) [
  | inl e ↦ absurd (cc (rw (edge_of, e) at h))
  | inr e ↦ absurd (cc (rw (edge_of, e) at h))
]
prop_of_edge-eq-ok mf oe (ok a) x h = elim (Bool-cases (is_message_kind mf.kind)) [
  | inr e ↦ absurd (cc (rw (edge_of, e) at h))
  | inl e ↦ elim (Bool-cases (get_bool oe.unique && is_repeated mf.cardinality)) [
    | inl u ↦ absurd (cc (rw (edge_of, e, edge_to, u) at h))
    | inr u ↦ (a, refl, ap targets_of (sym (ok-injective (rw (edge_of, e, edge_to, u) at h))))
  ]
]

module _ (messages : List Message) (rec : Message → Store → Run (Outcome (Option ℕ)))
    (keeps : (m : Message) (s : Store) → Leaves (Keeping s.next s) (rec m s))
    (sound : (m : Message) (s : Store) → Leaves (IsSound m s) (rec m s)) where
  parse_target-HasTarget :
      (name : String) (s : Store) → Leaves (HasTarget s) (parse_target messages rec name s)
  unfolding parse_target
  parse_target-HasTarget name s = elim (Option-cases (find_message messages name)) [
    | inl e ↦ rw (parse_target, e) (λ n a h. absurd (cc h))
    | inr (m, e) ↦
        rw (parse_target, e)
          (Leaves-and_then (IsSound m s) (HasTarget s) (rec m s) _ (sound m s) (λ r s' k n a h.
            let (new, found) = k n (some a) (target_of-eq-ok name r a h) in
            (new, IsNamed-IsListed s' m.full_name a new.named found)))
  ]

  resolve-HasTarget :
      (name : String) (s : Store) → Leaves (HasTarget s) (resolve messages rec name s)
  unfolding resolve
  resolve-HasTarget name s = elim (Option-cases (lookup name s.entities)) [
    | inl e ↦ rw (resolve, e) (parse_target-HasTarget name s)
    | inr (a, e) ↦
        rw (resolve, e)
          (λ n b h. (
            New-refl s n,
            IsNamed-IsListed s name b n
                (subst (λ x. lookup name s.entities ≡ some x) (ok-injective h) e),
          ))
  ]

  pub parse_parsed-HasTargets :
      (mf : FieldDescriptor) (r : Result PropError Parsed) (s : Store)
      → Leaves (HasTargets s) (parse_parsed messages rec mf r s)
  unfolding parse_parsed parse_edge
  parse_parsed-HasTargets mf (err e) s = λ n x h. absurd (cc h)
  parse_parsed-HasTargets mf (ok disabled_prop) s =
      λ n x h. (New-refl s n, subst (λ y. All (IsListed s) (targets_of y)) (ok-injective h) tt)
  parse_parsed-HasTargets mf (ok (parsed_field o)) s =
      λ n x h. (New-refl s n, subst (λ y. All (IsListed s) (targets_of y)) (ok-injective h) tt)
  parse_parsed-HasTargets mf (ok (parsed_edge oe)) s = elim (Bool-cases (is_message_kind mf.kind)) [
    | inr e ↦
        rw (parse_edge, e)
          (λ n x h.
            let (a, bad, one) = prop_of_edge-eq-ok mf oe (err (one_failure scalar_edge)) x h in
            absurd (cc bad))
    | inl e ↦
        rw (parse_edge, e)
          (Leaves-and_then (HasTarget s) (HasTargets s) (resolve messages rec mf.message s) _
            (resolve-HasTarget mf.message s)
            (λ r s' k n x h.
              let (a, good, one) = prop_of_edge-eq-ok mf oe r x h in
              let (new, listed) = k n a good in
              (new, subst (All (IsListed s')) (sym one) (listed, tt))))
  ]
