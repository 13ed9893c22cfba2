-- ===== src/Graph/File/Again.antt =====
-- That to parse a file again changes nothing (graph/graph.go, Parse).
use protobuf_orm.Base.{
  ℕ, suc, ◌<◌, length, ◌≡◌, refl, sym, ap, ◌∙◌, subst, inl, inr, String, false, Bool-cases,
  Option-cases, List, [], ◌∷◌, All, All-map, Option, none, some,
}
use protobuf_orm.Base.Dict.{lookup, copy_onto}
use protobuf_orm.Base.Result.{ok}
use protobuf_orm.Graph.Rpc.{FullNames}
use protobuf_orm.Graph.Store.{Message, Store}
use protobuf_orm.Graph.Store.Complete.{IsNamed, IsNamed-IsListed}
use protobuf_orm.Graph.Failure.{Outcome}
use protobuf_orm.Graph.Parser.{Run, parse_message, parse_entity}
use protobuf_orm.Graph.Parser.Targets.{is_entity}
use protobuf_orm.Graph.File.{note_entity, parse_messages, merge_graph, parse}
use protobuf_orm.Graph.File.Complete.{
  IsWellFormed, HasEntity, HasEntity-Grows, lookup-insert_self, lookup-copy_onto_grown,
  parse-IsWellFormed,
}

-- The same objects under the same names.
pub record SameGraph (s s' : Store) : Type 0 where
  pub objects : s'.cell ≡ s.cell
  pub next : s'.next ≡ s.next
  pub names : (name : String) → lookup name s'.entities ≡ lookup name s.entities

SameGraph-trans : (s t u : Store) → SameGraph s t → SameGraph t u → SameGraph s u
SameGraph-trans s t u p q = record {
  objects = q.objects ∙ p.objects;
  next = q.next ∙ p.next;
  names = λ name. q.names name ∙ p.names name;
}

IsNamed-SameGraph : (s t : Store) → SameGraph s t → IsNamed s → IsNamed t
IsNamed-SameGraph s t same n name a h =
    let (below, e) = n name a (sym (same.names name) ∙ h) in
    (subst (λ b. a < b) (sym same.next) below, ap (λ cell. (cell a).full_name) same.objects ∙ e)

module _ (N : FullNames) (messages : List Message) where
  parse_message-other :
      (rec : Message → Store → Run (Outcome (Option ℕ))) (m : Message) (s : Store)
      → is_entity m ≡ false
      → parse_message N messages rec m s ≡ some (ok none, s)
  unfolding parse_message
  parse_message-other rec m s h = elim (Option-cases m.opts) [
    | inl e ↦ rw e refl
    | inr (o, e) ↦ elim (Bool-cases o.disabled) [
      | inl d ↦ rw (e, d) refl
      | inr d ↦ absurd (cc (rw (e, d) at h))
    ]
  ]

  -- A message that the graph has is not parsed.
  parse_entity-has :
      (d : ℕ) (m : Message) (s : Store)
      → HasEntity s m
      → (x : Option ℕ) × (parse_entity N messages (suc d) m s ≡ some (ok x, s))
        × ((a : ℕ) → x ≡ some a → lookup m.full_name s.entities ≡ some a)
  unfolding parse_entity
  parse_entity-has d m s h = elim (Option-cases (lookup m.full_name s.entities)) [
    | inr (a, e) ↦ (some a, rw (parse_entity, e) refl, λ b k. e ∙ k)
    | inl e ↦ elim h [
      | inl other ↦ (
        none,
        rw (parse_entity, e) (parse_message-other (parse_entity N messages d) m s other),
        λ b k. absurd (cc k),
      )
      | inr (a, k) ↦ absurd (cc (e, k))
    ]
  ]

  note_entity-SameGraph :
      (m : Message) (s : Store) (x : Option ℕ)
      → IsNamed s
      → ((a : ℕ) → x ≡ some a → lookup m.full_name s.entities ≡ some a)
      → SameGraph s (note_entity N messages (ok x) s)
  note_entity-SameGraph m s none n h = record { objects = refl; next = refl; names = λ name. refl }
  note_entity-SameGraph m s (some a) n h = record {
    objects = refl;
    next = refl;
    names = λ name.
        lookup-insert_self (s.cell a).full_name a s.entities name
          (IsNamed-IsListed s m.full_name a n (h a refl)).1;
  }

  parse_messages-again :
      (ms : List Message) (s : Store)
      → IsNamed s
      → All (HasEntity s) ms
      → (t : Store) × (parse_messages N messages ms s ≡ some ([], t)) × SameGraph s t
  unfolding parse_messages
  parse_messages-again [] s n h =
      (s, refl, record { objects = refl; next = refl; names = λ name. refl })
  parse_messages-again (m ∷ ms) s n h =
      let (x, e, listed) = parse_entity-has (length messages) m s h.0 in
      let s1 = note_entity N messages (ok x) s in
      let same = note_entity-SameGraph m s x n listed in
      let (t, e2, rest) = parse_messages-again ms s1 (IsNamed-SameGraph s s1 same n) (
        All-map (HasEntity s) (HasEntity s1) ms
          (λ k. HasEntity-Grows s s1 k (λ name a l. same.names name ∙ l)) h.1) in
      (t, rw (e, e2) refl, SameGraph-trans s s1 t same rest)

  -- If every entity of a graph is finished and Parse of a file succeeds, then Parse of the same file
  -- on the graph that it leaves succeeds again, and leaves the same objects under the same names.
  pub parse-Again :
      (file : List Message) (g : Store) (u : Unit {0}) (g' : Store)
      → IsWellFormed g
      → parse N messages file g ≡ some (ok u, g')
      → (g'' : Store) × (parse N messages file g' ≡ some (ok tt, g'')) × SameGraph g' g''
  unfolding parse merge_graph
  parse-Again file g u g' w h =
      let (well, grows, has) = parse-IsWellFormed N messages file g u g' w h in
      let (t, e, same) = parse_messages-again file g' well.named has in
      (
        record t { entities = copy_onto g'.entities t.entities },
        rw e refl,
        record {
          objects = same.objects;
          next = same.next;
          names = λ name.
              lookup-copy_onto_grown g'.entities t.entities name (λ j a l. same.names j ∙ l)
              ∙ same.names name;
        },
      )
