-- ===== src/Graph/Store/Complete.antt =====
-- What a finished entity is (graph/entity.go), and which changes of the store it outlasts.
use protobuf_orm.Base.{
  ℕ, ==_ne, ◌≤◌, ◌<◌, ◌≡◌, ◌≢◌, refl, sym, ap, ◌∙◌, subst, String, true, List, [], ◌∷◌, map, All,
  All-map, length, Option, some, arith,
}
use protobuf_orm.Base.Dict.{lookup}
use protobuf_orm.Graph.Prop.{Field, Prop, field, edge, is_version_field, is_erased_field}
use protobuf_orm.Graph.Entity.{fields}
use protobuf_orm.Graph.Parse.{is_key_field}
use protobuf_orm.Graph.Parse.Entity.{pick}
use protobuf_orm.Graph.Store.{Object, Store, write_object}
use protobuf_orm.Graph.Store.Frame.{Keeps, forget_object, forget_prop, write_object-named}

-- the targets of the edges among the props
abbrev pub targets : List (Prop ℕ) → List ℕ
targets [] = []
targets (field f ∷ ps) = targets ps
targets (edge e ∷ ps) = e.target ∷ targets ps

-- What being finished depends on.
abbrev pub Core : Type 0
Core = String × Option ℕ × List Field × List ℕ

abbrev pub core : Object → Core
core o = (o.full_name, o.key, fields o.props, targets o.props)

-- The key is the only field marked as one, and is unique and immutable; at most one field is the
-- version and at most one the erased field.
pub record HasKey (key : Option ℕ) (fs : List Field) : Type 0 where
  pub k : Field
  pub only : pick is_key_field fs ≡ k ∷ []
  pub points : key ≡ some k.source.number
  pub unique : k.opts.unique ≡ some true
  pub immutable : k.opts.immutable ≡ some true
  pub one_version : length (pick is_version_field fs) ≤ 1
  pub one_erased : length (pick is_erased_field fs) ≤ 1

-- The graph has this entity under its own name.
abbrev pub IsListed : Store → ℕ → Type 0
IsListed s a = (a < s.next) × (lookup (s.cell a).full_name s.entities ≡ some a)

-- A finished entity of the graph, whose edges lead to entities of the graph.
abbrev pub IsComplete : Store → ℕ → Type 0
IsComplete s a =
    HasKey (s.cell a).key (fields (s.cell a).props)
    × All (IsListed s) (targets (s.cell a).props)
    × IsListed s a

-- Every name stands for an entity of that name.
abbrev pub IsNamed : Store → Type 0
IsNamed s =
    (name : String) (a : ℕ)
    → lookup name s.entities ≡ some a
    → (a < s.next) × ((s.cell a).full_name ≡ name)

pub IsNamed-IsListed :
    (s : Store) (name : String) (a : ℕ) → IsNamed s → lookup name s.entities ≡ some a → IsListed s a
IsNamed-IsListed s name a n h =
    let (below, e) = n name a h in (below, subst (λ x. lookup x s.entities ≡ some a) (sym e) h)

-- Of the objects that there were, all but `v` are the same in what being finished depends on.
pub record Besides (v : ℕ) (s s' : Store) : Type 0 where
  pub grown : s.next ≤ s'.next
  pub named : (a : ℕ) → a < s.next → (s.cell a).full_name ≡ (s'.cell a).full_name
  pub cores : (a : ℕ) → a < s.next → a ≢ v → core (s.cell a) ≡ core (s'.cell a)
  pub kept :
      (name : String) (a : ℕ) → lookup name s.entities ≡ some a → lookup name s'.entities ≡ some a

Besides-refl : (v : ℕ) (s : Store) → Besides v s s
Besides-refl v s = record {
  grown = omega arith;
  named = λ a h. refl;
  cores = λ a h k. refl;
  kept = λ name a h. h;
}

Besides-trans : (v : ℕ) (s t u : Store) → Besides v s t → Besides v t u → Besides v s u
Besides-trans v s t u p q = record {
  grown = omega (arith, p.grown, q.grown);
  named = λ a h. p.named a h ∙ q.named a (omega (arith, p.grown));
  cores = λ a h k. p.cores a h k ∙ q.cores a (omega (arith, p.grown)) k;
  kept = λ name a h. q.kept name a (p.kept name a h);
}

fields-forget : (ps : List (Prop ℕ)) → fields (map forget_prop ps) ≡ fields ps
unfolding fields
fields-forget [] = refl
fields-forget (field f ∷ ps) = ap (λ fs. f ∷ fs) (fields-forget ps)
fields-forget (edge e ∷ ps) = fields-forget ps

targets-forget : (ps : List (Prop ℕ)) → targets (map forget_prop ps) ≡ targets ps
targets-forget [] = refl
targets-forget (field f ∷ ps) = targets-forget ps
targets-forget (edge e ∷ ps) = ap (λ ts. e.target ∷ ts) (targets-forget ps)

core-forget_object : (o : Object) → core (forget_object o) ≡ core o
core-forget_object o = rw (fields-forget o.props, targets-forget o.props) refl

pub Keeps-Besides : (v : ℕ) (s s' : Store) → Keeps s.next s s' → Besides v s s'
Keeps-Besides v s s' k = record {
  grown = k.grown;
  named = k.named;
  cores = λ a h n.
      sym (core-forget_object (s.cell a)) ∙ ap core (k.same a h) ∙ core-forget_object (s'.cell a);
  kept = k.kept;
}

pub write_object-Besides :
    (v : ℕ) (o : Object) (s : Store)
    → o.full_name ≡ (s.cell v).full_name
    → Besides v s (write_object v o s)
unfolding write_object
write_object-Besides v o s e = record {
  grown = omega arith;
  named = write_object-named v o s e;
  cores = λ a h n. rw (==_ne v a (λ k. n (sym k))) refl;
  kept = λ name a h. h;
}

pub IsListed-Besides :
    (v : ℕ) (s s' : Store) (a : ℕ) → Besides v s s' → IsListed s a → IsListed s' a
IsListed-Besides v s s' a b (below, h) = (
  omega (arith, below, b.grown),
  subst (λ x. lookup x s'.entities ≡ some a) (b.named a below) (b.kept _ a h),
)

pub All-IsListed-Besides :
    (v : ℕ) (s s' : Store) (ts : List ℕ)
    → Besides v s s'
    → All (IsListed s) ts
    → All (IsListed s') ts
All-IsListed-Besides v s s' ts b h =
    All-map (IsListed s) (IsListed s') ts (λ a. IsListed-Besides v s s' a b) h

pub IsComplete-Besides :
    (v : ℕ) (s s' : Store) (a : ℕ) → Besides v s s' → a ≢ v → IsComplete s a → IsComplete s' a
IsComplete-Besides v s s' a b n (key, closed, listed) =
    let same = b.cores a listed.0 n in
    (
      subst (λ (c : Core). HasKey c.1 c.2) same key,
      subst (λ (c : Core). All (IsListed s') c.3) same
          (All-IsListed-Besides v s s' (targets (s.cell a).props) b closed),
      IsListed-Besides v s s' a b listed,
    )
