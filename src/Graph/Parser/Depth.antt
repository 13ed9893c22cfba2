-- ===== src/Graph/Parser/Depth.antt =====
-- The depth that parseEntity needs (graph/entity.go): no more than there are messages, since each
-- call on the way down has declared an entity of another name.
use protobuf_orm.Base.{
  ℕ, zero, suc, ◌≤◌, ◌<◌, ◌≡◌, refl, sym, inl, inr, String, Bool-cases, Option-cases, subst, List,
  [], ◌∷◌, Option, none, some, eq_iff, arith,
}
use protobuf_orm.Base.Dict.{Dict, lookup, lookup-insert}
use protobuf_orm.Base.Result.{Result, ok, err}
use protobuf_orm.Proto.{FieldDescriptor, is_message_kind}
use protobuf_orm.Graph.Rpc.{FullNames}
use protobuf_orm.Graph.Parse.{PropError, Parsed, disabled_prop, parsed_field, parsed_edge}
use protobuf_orm.Graph.Store.{PropSource, Message, Store, declare_entity}
use protobuf_orm.Graph.Store.Frame.{Keeps-refl, Keeps-trans, declare_entity-Keeps}
use protobuf_orm.Graph.Failure.{Outcome}
use protobuf_orm.Graph.Parser.{
  Run, and_then, find_message, keep_prop, parse_target, resolve, parse_edge, parse_parsed,
  parse_prop, parse_props, parse_new, parse_message, parse_entity,
}
use protobuf_orm.Graph.Parser.Undeclared.{
  undeclared, undeclared-le, undeclared-lt, find_message-full_name,
}
use protobuf_orm.Graph.Parser.Frame.{
  Leaves, Keeping, keep_prop-Keeps, resolve-Keeping, parse_props-Keeping, parse_parsed-Keeping,
  parse_entity-Keeps,
}

-- The run does not run out of fuel.
abbrev pub Ends : {A : Type 0} → Run A → Type 0
Ends none = ⊥
Ends (some x) = Unit

pub Ends-and_then :
    {A B : Type 0} (P : A → Store → Type 0) (r : Run A) (k : A → Store → Run B)
    → Ends r
    → Leaves P r
    → ((x : A) (s : Store) → P x s → Ends (k x s))
    → Ends (and_then r k)
Ends-and_then P none k e h next = absurd e
Ends-and_then P (some (x, s)) k e h next = next x s h

abbrev declared_with : Message → Store → Dict ℕ
declared_with m s = (declare_entity m.full_name s).entities

lookup-declare_entity :
    (name : String) (s : Store) → lookup name (declare_entity name s).entities ≡ some s.next
unfolding declare_entity
lookup-declare_entity name s =
    rw (lookup-insert name name s.next s.entities, (eq_iff name name).1 refl) refl

module _ (messages : List Message) (rec : Message → Store → Run (Outcome (Option ℕ)))
    (keeps : (m : Message) (s : Store) → Leaves (Keeping s.next s) (rec m s)) (room : ℕ)
    (ends : (m : Message) (s : Store)
      → undeclared messages (declared_with m s) < room
      → Ends (rec m s)) where
  parse_target-Ends :
      (name : String) (s : Store)
      → undeclared messages s.entities ≤ room
      → lookup name s.entities ≡ none
      → Ends (parse_target messages rec name s)
  unfolding parse_target
  parse_target-Ends name s few fresh = elim (Option-cases (find_message messages name)) [
    | inl e ↦ rw (parse_target, e) tt
    | inr (m, e) ↦
        let unnamed : lookup m.full_name s.entities ≡ none =
          subst (λ x. lookup x s.entities ≡ none) (sym (find_message-full_name messages name m e))
            fresh in
        let k = declare_entity-Keeps s.next m.full_name s (omega arith) unnamed in
        let fewer =
          undeclared-lt messages name m s.entities (declared_with m s) s.next e unnamed
            (lookup-declare_entity m.full_name s) k.kept in
        rw (parse_target, e)
          (Ends-and_then (Keeping s.next s) (rec m s) _ (ends m s (omega (arith, fewer, few)))
            (keeps m s) (λ x s' h. tt))
  ]

  resolve-Ends :
      (name : String) (s : Store)
      → undeclared messages s.entities ≤ room
      → Ends (resolve messages rec name s)
  unfolding resolve
  resolve-Ends name s few = elim (Option-cases (lookup name s.entities)) [
    | inl e ↦ rw (resolve, e) (parse_target-Ends name s few e)
    | inr (a, e) ↦ rw (resolve, e) tt
  ]

  parse_parsed-Ends :
      (mf : FieldDescriptor) (r : Result PropError Parsed) (s : Store)
      → undeclared messages s.entities ≤ room
      → Ends (parse_parsed messages rec mf r s)
  unfolding parse_parsed parse_edge
  parse_parsed-Ends mf (err e) s few = tt
  parse_parsed-Ends mf (ok disabled_prop) s few = tt
  parse_parsed-Ends mf (ok (parsed_field o)) s few = tt
  parse_parsed-Ends mf (ok (parsed_edge oe)) s few = elim (Bool-cases (is_message_kind mf.kind)) [
    | inl e ↦ rw e (
        Ends-and_then (Keeping s.next s) (resolve messages rec mf.message s) _
          (resolve-Ends mf.message s few) (resolve-Keeping messages rec keeps mf.message s)
          (λ x s' h. tt))
    | inr e ↦ rw e tt
  ]

  parse_props-Ends :
      (v : ℕ) (ps : List PropSource) (s : Store)
      → v ≤ s.next
      → undeclared messages s.entities ≤ room
      → Ends (parse_props messages rec v ps s)
  unfolding parse_props parse_prop
  parse_props-Ends v [] s below few = tt
  parse_props-Ends v (p ∷ ps) s below few =
      Ends-and_then (Keeping s.next s) (parse_prop messages rec p s) _
        (parse_parsed-Ends p.source _ s few) (parse_parsed-Keeping messages rec keeps p.source _ s)
        (λ r s1 h1.
          let s2 = keep_prop v r s1 in
          let h2 =
            Keeps-trans v v s s1 s2 (omega arith)
              (Keeps-trans v s.next s s s1 below (Keeps-refl v s) h1)
              (keep_prop-Keeps messages rec keeps v v r s1 (omega arith)) in
          let below2 : v ≤ s2.next = omega (arith, below, h2.grown) in
          Ends-and_then (Keeping v s2) (parse_props messages rec v ps s2) _
            (parse_props-Ends v ps s2 below2
              (omega (arith, few, undeclared-le messages s.entities s2.entities h2.kept)))
            (parse_props-Keeping messages rec keeps v ps s2 below2) (λ fs s3 h3. tt))

module _ (N : FullNames) (messages : List Message) where
  parse_message-Ends :
      (depth : ℕ)
      → ((m : Message) (s : Store)
          → undeclared messages (declared_with m s) < depth
          → Ends (parse_entity N messages depth m s))
      → (m : Message) (s : Store) → lookup m.full_name s.entities ≡ none
      → undeclared messages (declared_with m s) ≤ depth
      → Ends (parse_message N messages (parse_entity N messages depth) m s)
  unfolding parse_message parse_new
  parse_message-Ends depth ends m s fresh few = elim (Option-cases m.opts) [
    | inl e ↦ rw (parse_message, e) tt
    | inr (o, e) ↦ elim (Bool-cases o.disabled) [
      | inl d ↦ rw (parse_message, e, d) tt
      | inr d ↦
          let s1 = declare_entity m.full_name s in
          let rec = parse_entity N messages depth in
          let keeps = parse_entity-Keeps N messages depth in
          let h1 = declare_entity-Keeps s.next m.full_name s (omega arith) fresh in
          rw (parse_message, e, d)
            (Ends-and_then (Keeping s.next s1) (parse_props messages rec s.next m.fields s1) _
              (parse_props-Ends messages rec keeps depth ends s.next m.fields s1 h1.grown few)
              (parse_props-Keeping messages rec keeps s.next m.fields s1 h1.grown) (λ fs s2 h2. tt))
    ]
  ]

  -- parseEntity ends, to a depth that is greater than the number of messages that stand for no
  -- entity once its own is declared.
  pub parse_entity-Ends :
      (depth : ℕ) (m : Message) (s : Store)
      → undeclared messages (declared_with m s) < depth
      → Ends (parse_entity N messages depth m s)
  unfolding parse_entity
  parse_entity-Ends zero m s few = elim few [ ]
  parse_entity-Ends (suc depth) m s few = elim (Option-cases (lookup m.full_name s.entities)) [
    | inl e ↦
        rw (parse_entity, e)
          (parse_message-Ends depth (parse_entity-Ends depth) m s e (omega (arith, few)))
    | inr (a, e) ↦ rw (parse_entity, e) tt
  ]
