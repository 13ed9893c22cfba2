-- ===== src/Graph/File/Runs.antt =====
-- That Parse ends, and what it leaves of the graph (graph/graph.go).
use protobuf_orm.Base.{ℕ, ◌≤◌, ◌<◌, ◌≡◌, refl, subst, ◌∙◌, List, [], ◌∷◌, Option, none, some, arith}
use protobuf_orm.Base.Result.{ok, err}
use protobuf_orm.Graph.Rpc.{FullNames}
use protobuf_orm.Graph.Store.{Message, Store, declare_entity}
use protobuf_orm.Graph.Store.Frame.{Keeps, forget_object}
use protobuf_orm.Graph.Failure.{Failure, Failures, Outcome}
use protobuf_orm.Graph.Parser.{Run, and_then, parse_entity}
use protobuf_orm.Graph.Parser.Frame.{Leaves, Leaves-and_then, Keeping, parse_entity-Keeps}
use protobuf_orm.Graph.Parser.Undeclared.{undeclared-le-length}
use protobuf_orm.Graph.Parser.Depth.{Ends, Ends-and_then, parse_entity-Ends}
use protobuf_orm.Graph.File.{depth, note_entity, parse_messages, merge_graph, parse}

-- The objects are the same, apart from which of their edges are unique.
pub record SameObjects (s s' : Store) : Type 0 where
  pub grown : s.next ≤ s'.next
  pub same : (a : ℕ) → a < s.next → forget_object (s.cell a) ≡ forget_object (s'.cell a)

module _ (N : FullNames) (messages : List Message) where
  abbrev LeavesObjects : {A : Type 0} → Store → A → Store → Type 0
  LeavesObjects s x s' = SameObjects s s'

  note_entity-SameObjects :
      (s s1 : Store) (r : Outcome (Option ℕ))
      → Keeps s.next s s1
      → SameObjects s (note_entity N messages r s1)
  note_entity-SameObjects s s1 (ok (some a)) k = record { grown = k.grown; same = k.same }
  note_entity-SameObjects s s1 (ok none) k = record { grown = k.grown; same = k.same }
  note_entity-SameObjects s s1 (err fs) k = record { grown = k.grown; same = k.same }

  parse_messages-SameObjects :
      (file : List Message) (s : Store)
      → Leaves (LeavesObjects s) (parse_messages N messages file s)
  unfolding parse_messages
  parse_messages-SameObjects [] s = record { grown = omega arith; same = λ a h. refl }
  parse_messages-SameObjects (m ∷ ms) s =
      Leaves-and_then (Keeping s.next s) (LeavesObjects s)
        (parse_entity N messages (depth N messages) m s) _
        (parse_entity-Keeps N messages (depth N messages) m s)
        (λ r s1 k.
          let s2 = note_entity N messages r s1 in
          let p = note_entity-SameObjects s s1 r k in
          Leaves-and_then (LeavesObjects s2) (LeavesObjects s) (parse_messages N messages ms s2) _
            (parse_messages-SameObjects ms s2)
            (λ fs s3 q. record {
              grown = omega (arith, p.grown, q.grown);
              same = λ a h. p.same a h ∙ q.same a (omega (arith, p.grown));
            }))

  parse_messages-Ends : (file : List Message) (s : Store) → Ends (parse_messages N messages file s)
  unfolding parse_messages
  parse_messages-Ends [] s = tt
  parse_messages-Ends (m ∷ ms) s =
      let few = undeclared-le-length messages (declare_entity m.full_name s).entities in
      Ends-and_then (Keeping s.next s) (parse_entity N messages (depth N messages) m s) _
        (parse_entity-Ends N messages (depth N messages) m s (omega (arith, few)))
        (parse_entity-Keeps N messages (depth N messages) m s)
        (λ r s1 k.
          Ends-and_then (LeavesObjects (note_entity N messages r s1))
            (parse_messages N messages ms (note_entity N messages r s1)) _
            (parse_messages-Ends ms (note_entity N messages r s1))
            (parse_messages-SameObjects ms (note_entity N messages r s1)) (λ fs s2 h. tt))

  run_of : {A : Type 0} (r : Run A) → Ends r → (x : A) × (s : Store) × (r ≡ some (x, s))
  run_of none e = absurd e
  run_of (some (x, s)) e = (x, s, refl)

  -- Parse ends on every file and graph: at a depth of one more than there are messages that the
  -- file can name, it does not run out of fuel.
  pub parse-Ends :
      (file : List Message) (g : Store)
      → (r : Outcome (Unit {0})) × (g' : Store) × (parse N messages file g ≡ some (r, g'))
  unfolding parse
  parse-Ends file g = run_of (parse N messages file g) (
      Ends-and_then (LeavesObjects g) (parse_messages N messages file g) _
        (parse_messages-Ends file g) (parse_messages-SameObjects file g) (λ fs s h. tt))

  parse_lem :
      (file : List Message) (g : Store) (run : Run (List Failure)) (fs : Failures) (g' : Store)
      → Leaves (LeavesObjects g) run
      → and_then run (λ fs g_. some (merge_graph N messages g fs g_)) ≡ some (err fs, g')
      → SameObjects g g' × (g'.entities ≡ g.entities)
  unfolding merge_graph
  parse_lem file g none fs g' k h = absurd (cc h)
  parse_lem file g (some ([], g_)) fs g' k h = absurd (cc h)
  parse_lem file g (some (f ∷ es, g_)) fs g' k h =
      let same : ◌≡◌ {A = Store} (record g_ { entities = g.entities }) g' = cc h in
      subst (λ x. SameObjects g x × (x.entities ≡ g.entities)) same
        (record { grown = k.grown; same = k.same }, refl)

  -- A Parse that fails leaves the graph with the entities that it named before, and every object
  -- that there was is as it was, apart from which of its edges are unique.
  pub parse-eq-err :
      (file : List Message) (g : Store) (fs : Failures) (g' : Store)
      → parse N messages file g ≡ some (err fs, g')
      → SameObjects g g' × (g'.entities ≡ g.entities)
  unfolding parse
  parse-eq-err file g fs g' h =
      parse_lem file g (parse_messages N messages file g) fs g' (parse_messages-SameObjects file g)
        h
