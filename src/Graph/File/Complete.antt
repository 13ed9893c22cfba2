-- ===== src/Graph/File/Complete.antt =====
-- What a graph is after a Parse that succeeds (graph/graph.go).
use protobuf_orm.Base.{
  append-eq-nil, ℕ, ◌≤◌, ◌<◌, ◌≡◌, refl, sym, ap, ◌∙◌, subst, inl, inr, ◌⊎◌, String, false,
  Bool-cases, Option-cases, List, [], ◌∷◌, All, All-map, Option, none, some, str_eq, eq_iff, arith,
}
use protobuf_orm.Base.Dict.{Dict, lookup, insert, copy_onto, lookup-insert, lookup-copy_onto}
use protobuf_orm.Base.Result.{ok}
use protobuf_orm.Graph.Rpc.{FullNames}
use protobuf_orm.Graph.Store.{Message, Store}
use protobuf_orm.Graph.Store.Frame.{Keeps}
use protobuf_orm.Graph.Store.Complete.{
  IsComplete, IsNamed, IsNamed-IsListed, Besides, Keeps-Besides, IsComplete-Besides,
}
use protobuf_orm.Graph.Failure.{Failure, failures}
use protobuf_orm.Graph.Parser.{Run, and_then, parse_entity}
use protobuf_orm.Graph.Parser.Frame.{
  Leaves, Leaves-and, Leaves-and_then, Keeping, parse_entity-Keeps,
}
use protobuf_orm.Graph.Parser.Targets.{is_entity, New, Answers, IsSound}
use protobuf_orm.Graph.Parser.Progress.{failures-eq-nil}
use protobuf_orm.Graph.Parser.Sound.{parse_entity-IsSound}
use protobuf_orm.Graph.File.{depth, note_entity, parse_messages, merge_graph, parse}

-- Every name of the graph stands for a finished entity of that name.
pub record IsWellFormed (s : Store) : Type 0 where
  pub named : IsNamed s
  pub complete : (name : String) (a : ℕ) → lookup name s.entities ≡ some a → IsComplete s a

abbrev pub Grows : Dict ℕ → Dict ℕ → Type 0
Grows d e = (name : String) (a : ℕ) → lookup name d ≡ some a → lookup name e ≡ some a

-- The graph has the entity that the message is of.
abbrev pub HasEntity : Store → Message → Type 0
HasEntity s m = (is_entity m ≡ false) ⊎ ((a : ℕ) × (lookup m.full_name s.entities ≡ some a))

pub HasEntity-Grows :
    (s s' : Store) (m : Message) → Grows s.entities s'.entities → HasEntity s m → HasEntity s' m
HasEntity-Grows s s' m g (inl e) = inl e
HasEntity-Grows s s' m g (inr (a, h)) = inr (a, g m.full_name a h)

-- A map with the same entries will do.
IsWellFormed-renamed :
    (s : Store) (d : Dict ℕ)
    → ((name : String) → lookup name d ≡ lookup name s.entities)
    → IsWellFormed s
    → IsWellFormed (record s { entities = d })
IsWellFormed-renamed s d same w = record {
  named = λ name a h. w.named name a (sym (same name) ∙ h);
  complete = λ name a h.
      let h' = sym (same name) ∙ h in
      IsComplete-Besides s.next s (record s { entities = d }) a b
        (λ e. absurd (omega (arith, e, (w.named name a h').0))) (w.complete name a h');
}
  where
    b : Besides s.next s (record s { entities = d })
    b = record {
      grown = omega arith;
      named = λ a h. refl;
      cores = λ a h n. refl;
      kept = λ name a h. same name ∙ h;
    }

-- After a message that is accepted.
IsWellFormed-New : (s s' : Store) → Keeps s.next s s' → New s s' → IsWellFormed s → IsWellFormed s'
IsWellFormed-New s s' k n w = record {
  named = n.named;
  complete = λ name a h. elim (split a) [
    | inl old ↦
        IsComplete-Besides s.next s s' a (Keeps-Besides s.next s s' k)
          (λ e. absurd (omega (arith, e, old))) (w.complete name a (k.fresh name a h old))
    | inr new ↦ n.complete a new (n.named name a h).0
  ];
}
  where
    split : (a : ℕ) → (a < s.next) ⊎ (s.next ≤ a)
    split a = grind arith

pub lookup-insert_self :
    (k : String) (a : ℕ) (d : Dict ℕ) (j : String)
    → lookup k d ≡ some a
    → lookup j (insert k a d) ≡ lookup j d
lookup-insert_self k a d j h = elim (Bool-cases (str_eq k j)) [
  | inl e ↦ rw (lookup-insert k j a d, e) (sym h ∙ ap (λ x. lookup x d) ((eq_iff k j).0 e))
  | inr e ↦ rw (lookup-insert k j a d, e) refl
]

pub lookup-copy_onto_grown :
    (d e : Dict ℕ) (j : String) → Grows d e → lookup j (copy_onto d e) ≡ lookup j e
lookup-copy_onto_grown d e j g = elim (Option-cases (lookup j e)) [
  | inr (a, h) ↦ rw (lookup-copy_onto j d e, h) refl
  | inl h ↦ elim (Option-cases (lookup j d)) [
    | inl k ↦ rw (lookup-copy_onto j d e, h) k
    | inr (a, k) ↦ absurd (cc (g j a k, h))
  ]
]

module _ (N : FullNames) (messages : List Message) where
  -- What an accepted message does to a graph.
  record Extends (s s' : Store) (ms : List Message) : Type 0 where
    well : IsWellFormed s'
    grows : Grows s.entities s'.entities
    has : All (HasEntity s') ms

  note_entity-Extends :
      (m : Message) (s s1 : Store) (x : Option ℕ)
      → IsWellFormed s
      → Keeps s.next s s1
      → New s s1
      → Answers m x s1
      → Extends s (note_entity N messages (ok x) s1) (m ∷ [])
  note_entity-Extends m s s1 none w k n h = record {
    well = IsWellFormed-New s s1 k n w;
    grows = k.kept;
    has = (inl h, tt);
  }
  note_entity-Extends m s s1 (some a) w k n h =
      let own : lookup (s1.cell a).full_name s1.entities ≡ some a =
        (IsNamed-IsListed s1 m.full_name a n.named h).1 in
      let same : (j : String)
          → lookup j (insert (s1.cell a).full_name a s1.entities) ≡ lookup j s1.entities =
        λ j. lookup-insert_self (s1.cell a).full_name a s1.entities j own in
      record {
        well = IsWellFormed-renamed s1 _ same (IsWellFormed-New s s1 k n w);
        grows = λ j b l. same j ∙ k.kept j b l;
        has = (inr (a, same m.full_name ∙ h), tt);
      }

  Extends-trans :
      (s t u : Store) (m : Message) (ms : List Message)
      → Extends s t (m ∷ [])
      → Extends t u ms
      → Extends s u (m ∷ ms)
  Extends-trans s t u m ms p q = record {
    well = q.well;
    grows = λ j a h. q.grows j a (p.grows j a h);
    has = (HasEntity-Grows t u m q.grows p.has.0, q.has);
  }

  abbrev Succeeds : List Message → Store → List Failure → Store → Type 0
  Succeeds ms s fs s' = IsWellFormed s → fs ≡ [] → Extends s s' ms

  parse_messages-Succeeds :
      (file : List Message) (s : Store)
      → Leaves (Succeeds file s) (parse_messages N messages file s)
  unfolding parse_messages
  parse_messages-Succeeds [] s = λ w h. record { well = w; grows = λ j a k. k; has = tt }
  parse_messages-Succeeds (m ∷ ms) s =
      let run = parse_entity N messages (depth N messages) m s in
      Leaves-and_then (λ r s1. Keeps s.next s s1 × IsSound m s r s1) (Succeeds (m ∷ ms) s) run _
        (Leaves-and (Keeping s.next s) (IsSound m s) run
          (parse_entity-Keeps N messages (depth N messages) m s)
          (parse_entity-IsSound N messages (depth N messages) m s))
        (λ r s1 (k, sound).
          Leaves-and_then (Succeeds ms (note_entity N messages r s1)) (Succeeds (m ∷ ms) s)
            (parse_messages N messages ms (note_entity N messages r s1)) _
            (parse_messages-Succeeds ms (note_entity N messages r s1))
            (λ fs s2 go w none_at_all.
              let (good, rest) = append-eq-nil (failures m.full_name r) fs none_at_all in
              let (x, e) = failures-eq-nil m.full_name r good in
              let (n, answer) = sound w.named x e in
              let first : Extends s (note_entity N messages r s1) (m ∷ []) =
                subst (λ y. Extends s (note_entity N messages y s1) (m ∷ [])) (sym e)
                  (note_entity-Extends m s s1 x w k n answer) in
              Extends-trans s (note_entity N messages r s1) s2 m ms first (go first.well rest)))

  merge_graph-Extends :
      (file : List Message) (g : Store) (run : Run (List Failure)) (u : Unit {0}) (g' : Store)
      → IsWellFormed g
      → Leaves (Succeeds file g) run
      → and_then run (λ fs g_. some (merge_graph N messages g fs g_)) ≡ some (ok u, g')
      → Extends g g' file
  unfolding merge_graph
  merge_graph-Extends file g none u g' w k h = absurd (cc h)
  merge_graph-Extends file g (some (f ∷ es, g_)) u g' w k h = absurd (cc h)
  merge_graph-Extends file g (some ([], g_)) u g' w k h =
      let x = k w refl in
      let merged = record g_ { entities = copy_onto g.entities g_.entities } in
      let same : (j : String) → lookup j merged.entities ≡ lookup j g_.entities =
        λ j. lookup-copy_onto_grown g.entities g_.entities j x.grows in
      let made : merged ≡ g' = cc h in
      subst (λ y. Extends g y file) made
        (record {
          well = IsWellFormed-renamed g_ merged.entities same x.well;
          grows = λ j a l. same j ∙ x.grows j a l;
          has =
              All-map (HasEntity g_) (HasEntity merged) file
                (λ m. HasEntity-Grows g_ merged m (λ j a l. same j ∙ l)) x.has;
        })

  -- If every entity of a graph is finished and Parse succeeds, then every entity of the graph that
  -- it leaves is finished: it stands there under its own name, has exactly one key, which is unique
  -- and immutable, has at most one version and one erased field, and its edges lead to entities of
  -- the graph. What the graph named before it still names, and it has an entity for each message of
  -- the file that is one of an entity.
  pub parse-IsWellFormed :
      (file : List Message) (g : Store) (u : Unit {0}) (g' : Store)
      → IsWellFormed g
      → parse N messages file g ≡ some (ok u, g')
      → IsWellFormed g' × Grows g.entities g'.entities × All (HasEntity g') file
  unfolding parse
  parse-IsWellFormed file g u g' w h =
      let x =
        merge_graph-Extends file g (parse_messages N messages file g) u g' w
          (parse_messages-Succeeds file g) h in
      (x.well, x.grows, x.has)
