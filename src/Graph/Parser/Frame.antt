-- ===== src/Graph/Parser/Frame.antt =====
-- What parseEntity leaves as it was, whether it accepts the entity or not (graph/entity.go).
use protobuf_orm.Base.{
  ℕ, zero, suc, ◌≤◌, ◌≡◌, refl, inl, inr, String, Bool-cases, Option-cases, subst, List, [], ◌∷◌,
  Option, none, some, arith,
}
use protobuf_orm.Base.Dict.{lookup}
use protobuf_orm.Base.Result.{Result, ok, err, >>=-eq-ok, ok-injective, Result-cases}
use protobuf_orm.Proto.{FieldDescriptor, is_message_kind}
use protobuf_orm.Ormpb.Options.{MessageOptions}
use protobuf_orm.Graph.Prop.{Edge, Prop}
use protobuf_orm.Graph.Rpc.{FullNames}
use protobuf_orm.Graph.Entity.{fields, edges}
use protobuf_orm.Graph.Parse.{
  check_fields, PropError, Parsed, disabled_prop, parsed_field, parsed_edge,
}
use protobuf_orm.Graph.Parse.Edges.{commit_edge, is_one_to_one}
use protobuf_orm.Graph.Store.{PropSource, Message, Store, declare_entity, change_edge}
use protobuf_orm.Graph.Store.Frame.{
  Keeps, Keeps-refl, Keeps-trans, forget, write_object-Keeps, declare_entity-Keeps,
  undeclare_entity-Keeps, append_prop-Keeps, change_edge-Keeps, change_own_edge-Keeps,
}
use protobuf_orm.Graph.Failure.{Failure, Outcome, unless_failed}
use protobuf_orm.Graph.Finish.{
  fields_outcome, parse_indexes, link_edges, Link, run_link, run_links, accept_entity,
}
use protobuf_orm.Graph.Parser.{
  Run, and_then, find_message, keep_prop, parse_target, resolve, parse_edge, parse_parsed,
  parse_prop, parse_props, finish_entity, parse_new, parse_message, parse_entity,
}

-- If the run answers, then with this.
abbrev pub Leaves : {A : Type 0} → (A → Store → Type 0) → Run A → Type 0
Leaves P none = Unit
Leaves P (some (x, s)) = P x s

pub Leaves-and_then :
    {A B : Type 0} (P : A → Store → Type 0) (Q : B → Store → Type 0) (r : Run A)
    (k : A → Store → Run B)
    → Leaves P r
    → ((x : A) (s : Store) → P x s → Leaves Q (k x s))
    → Leaves Q (and_then r k)
Leaves-and_then P Q none k h next = tt
Leaves-and_then P Q (some (x, s)) k h next = next x s h

-- What a run does to the objects below `n`.
abbrev pub Keeping : {A : Type 0} → ℕ → Store → A → Store → Type 0
Keeping n s x s' = Keeps n s s'

module _ (messages : List Message) (rec : Message → Store → Run (Outcome (Option ℕ)))
    (keeps : (m : Message) (s : Store) → Leaves (Keeping s.next s) (rec m s)) where
  parse_target-Keeping :
      (name : String) (s : Store) → Leaves (Keeping s.next s) (parse_target messages rec name s)
  unfolding parse_target
  parse_target-Keeping name s = elim (Option-cases (find_message messages name)) [
    | inl e ↦ rw (parse_target, e) (Keeps-refl s.next s)
    | inr (m, e) ↦
        rw (parse_target, e)
          (Leaves-and_then (Keeping s.next s) (Keeping s.next s) (rec m s) _ (keeps m s)
            (λ x s' h. h))
  ]

  pub resolve-Keeping :
      (name : String) (s : Store) → Leaves (Keeping s.next s) (resolve messages rec name s)
  unfolding resolve
  resolve-Keeping name s = elim (Option-cases (lookup name s.entities)) [
    | inl e ↦ rw (resolve, e) (parse_target-Keeping name s)
    | inr (a, e) ↦ rw (resolve, e) (Keeps-refl s.next s)
  ]

  pub parse_parsed-Keeping :
      (mf : FieldDescriptor) (r : Result PropError Parsed) (s : Store)
      → Leaves (Keeping s.next s) (parse_parsed messages rec mf r s)
  unfolding parse_parsed parse_edge
  parse_parsed-Keeping mf (err e) s = Keeps-refl s.next s
  parse_parsed-Keeping mf (ok disabled_prop) s = Keeps-refl s.next s
  parse_parsed-Keeping mf (ok (parsed_field o)) s = Keeps-refl s.next s
  parse_parsed-Keeping mf (ok (parsed_edge oe)) s = elim (Bool-cases (is_message_kind mf.kind)) [
    | inl e ↦ rw e (
        Leaves-and_then (Keeping s.next s) (Keeping s.next s) (resolve messages rec mf.message s) _
          (resolve-Keeping mf.message s) (λ x s' h. h))
    | inr e ↦ rw e (Keeps-refl s.next s)
  ]

  pub keep_prop-Keeps :
      (n v : ℕ) (r : Outcome (Option (Prop ℕ))) (s : Store) → n ≤ v → Keeps n s (keep_prop v r s)
  keep_prop-Keeps n v (ok (some p)) s h = append_prop-Keeps n v p s h
  keep_prop-Keeps n v (ok none) s h = Keeps-refl n s
  keep_prop-Keeps n v (err fs) s h = Keeps-refl n s

  -- the objects below the entity whose props are parsed
  pub parse_props-Keeping :
      (v : ℕ) (ps : List PropSource) (s : Store)
      → v ≤ s.next
      → Leaves (Keeping v s) (parse_props messages rec v ps s)
  unfolding parse_props parse_prop
  parse_props-Keeping v [] s below = Keeps-refl v s
  parse_props-Keeping v (p ∷ ps) s below =
      Leaves-and_then (Keeping s.next s) (Keeping v s) (parse_prop messages rec p s) _
        (parse_parsed-Keeping p.source _ s)
        (λ r s1 h1.
          let h2 =
            Keeps-trans v v s s1 (keep_prop v r s1) (omega arith)
              (Keeps-trans v s.next s s s1 below (Keeps-refl v s) h1)
              (keep_prop-Keeps v v r s1 (omega arith)) in
          Leaves-and_then (Keeping v (keep_prop v r s1)) (Keeping v s)
            (parse_props messages rec v ps (keep_prop v r s1)) _
            (parse_props-Keeping v ps (keep_prop v r s1) (omega (arith, below, h2.grown)))
            (λ fs s2 h3. Keeps-trans v v s (keep_prop v r s1) s2 (omega arith) h2 h3))

pub forget-commit_edge : (inverse e x : Edge ℕ) → forget (commit_edge inverse e x) ≡ forget x
unfolding commit_edge
forget-commit_edge inverse e x = elim (Bool-cases (is_one_to_one inverse e)) [
  | inl o ↦ rw o refl
  | inr o ↦ rw o refl
]

run_link-Keeps : (n v : ℕ) (l : Link) (s : Store) → n ≤ v → Keeps n s (run_link v l s)
unfolding run_link
run_link-Keeps n v (e, inverse) s h =
    let s1 =
      change_edge v e.source.number (λ x. record x { inverse = some inverse.source.full_name }) s in
    let s2 = change_edge e.target inverse.source.number (commit_edge inverse e) s1 in
    let own =
      change_own_edge-Keeps n v e.source.number
        (λ x. record x { inverse = some inverse.source.full_name }) s h in
    let theirs =
      change_edge-Keeps n e.target inverse.source.number (commit_edge inverse e) s1
        (forget-commit_edge inverse e) in
    let ours =
      change_edge-Keeps n v e.source.number (commit_edge inverse e) s2
        (forget-commit_edge inverse e) in
    Keeps-trans n n s s1 _ (omega arith) own (Keeps-trans n n s1 s2 _ (omega arith) theirs ours)

run_links-Keeps : (n v : ℕ) (ls : List Link) (s : Store) → n ≤ v → Keeps n s (run_links v ls s)
unfolding run_links
run_links-Keeps n v [] s h = Keeps-refl n s
run_links-Keeps n v (l ∷ ls) s h =
    Keeps-trans n n s (run_link v l s) _ (omega arith) (run_link-Keeps n v l s h)
      (run_links-Keeps n v ls (run_link v l s) h)

pub accept_entity-Keeps :
    (N : FullNames) (m : Message) (o : MessageOptions) (n v : ℕ) (s s' : Store)
    → n ≤ v
    → accept_entity N m o v s ≡ ok s'
    → Keeps n s s'
unfolding accept_entity
accept_entity-Keeps N m o n v s s' h accepted =
    let (key, hk, h1) =
      >>=-eq-ok (fields_outcome (check_fields (fields (s.cell v).props))) _ accepted in
    let (indexes, hi, h2) =
      >>=-eq-ok (unless_failed (parse_indexes (s.cell v).props o.indexes 0)) _ h1 in
    let (links, hl, h3) = >>=-eq-ok (unless_failed (link_edges s (edges (s.cell v).props))) _ h2 in
    subst (Keeps n s) (ok-injective h3) (
      Keeps-trans n n s _ _ (omega arith) (write_object-Keeps n v _ s h refl)
        (run_links-Keeps n v links _ h))

-- What parseEntity leaves of the store `s` in which the entity was not declared.
finish_entity-Keeps :
    (N : FullNames) (m : Message) (o : MessageOptions) (v : ℕ) (fs : List Failure) (s s' : Store)
    → lookup m.full_name s.entities ≡ none
    → Keeps v s s'
    → Keeps v s (finish_entity N m o v fs s').1
unfolding finish_entity
finish_entity-Keeps N m o v (f ∷ fs) s s' fresh h =
    undeclare_entity-Keeps v m.full_name s s' fresh h
finish_entity-Keeps N m o v [] s s' fresh h = elim (Result-cases (accept_entity N m o v s')) [
  | inl (t, e) ↦
      rw e (
        Keeps-trans v v s s' t (omega arith) h (accept_entity-Keeps N m o v v s' t (omega arith) e))
  | inr (fs, e) ↦ rw e (undeclare_entity-Keeps v m.full_name s s' fresh h)
]

module _ (N : FullNames) (messages : List Message) where
  parse_new-Keeping :
      (rec : Message → Store → Run (Outcome (Option ℕ)))
      → ((m : Message) (s : Store) → Leaves (Keeping s.next s) (rec m s))
      → (m : Message) (o : MessageOptions) (s : Store) → lookup m.full_name s.entities ≡ none
      → Leaves (Keeping s.next s) (parse_new N messages rec m o s)
  unfolding parse_new
  parse_new-Keeping rec keeps m o s fresh =
      let s1 = declare_entity m.full_name s in
      let h1 = declare_entity-Keeps s.next m.full_name s (omega arith) fresh in
      Leaves-and_then (Keeping s.next s1) (Keeping s.next s)
        (parse_props messages rec s.next m.fields s1) _
        (parse_props-Keeping messages rec keeps s.next m.fields s1 h1.grown)
        (λ fs s2 h2.
          finish_entity-Keeps N m o s.next fs s s2 fresh
            (Keeps-trans s.next s.next s s1 s2 (omega arith) h1 h2))

  parse_message-Keeping :
      (rec : Message → Store → Run (Outcome (Option ℕ)))
      → ((m : Message) (s : Store) → Leaves (Keeping s.next s) (rec m s))
      → (m : Message) (s : Store) → lookup m.full_name s.entities ≡ none
      → Leaves (Keeping s.next s) (parse_message N messages rec m s)
  unfolding parse_message
  parse_message-Keeping rec keeps m s fresh = elim (Option-cases m.opts) [
    | inl e ↦ rw (parse_message, e) (Keeps-refl s.next s)
    | inr (o, e) ↦ elim (Bool-cases o.disabled) [
      | inl d ↦ rw (parse_message, e, d) (Keeps-refl s.next s)
      | inr d ↦ rw (parse_message, e, d) (parse_new-Keeping rec keeps m o s fresh)
    ]
  ]

  -- Whether it accepts the message or not, parseEntity changes no object that was there before,
  -- except that it may make edges unique, and every name that stood for an entity stands for it
  -- still.
  pub parse_entity-Keeps :
      (depth : ℕ) (m : Message) (s : Store)
      → Leaves (Keeping s.next s) (parse_entity N messages depth m s)
  unfolding parse_entity
  parse_entity-Keeps zero m s = tt
  parse_entity-Keeps (suc depth) m s = elim (Option-cases (lookup m.full_name s.entities)) [
    | inl e ↦
        rw (parse_entity, e)
          (parse_message-Keeping (parse_entity N messages depth) (parse_entity-Keeps depth) m s e)
    | inr (a, e) ↦ rw (parse_entity, e) (Keeps-refl s.next s)
  ]

pub Leaves-and :
    {A : Type 0} (P Q : A → Store → Type 0) (r : Run A)
    → Leaves P r
    → Leaves Q r
    → Leaves (λ x s. P x s × Q x s) r
Leaves-and P Q none p q = tt
Leaves-and P Q (some (x, s)) p q = (p, q)
