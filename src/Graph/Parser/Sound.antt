-- ===== src/Graph/Parser/Sound.antt =====
-- That what parseEntity accepts is finished (graph/entity.go).
use protobuf_orm.Base.{
  ℕ, zero, suc, ==_ne, ==_refl, ◌≡◌, refl, sym, ◌∙◌, subst, inl, inr, String, false, Bool-cases,
  Option-cases, some-injective, List, [], ◌∷◌, Option, none, some, str_eq, eq_iff, arith,
  if◌then◌else◌,
}
use protobuf_orm.Base.Dict.{lookup, lookup-insert}
use protobuf_orm.Base.Result.{ok, ok-injective, Result-cases}
use protobuf_orm.Ormpb.Options.{MessageOptions}
use protobuf_orm.Graph.Rpc.{FullNames}
use protobuf_orm.Graph.Store.{Message, Store, declare_entity}
use protobuf_orm.Graph.Store.Frame.{Keeps, declare_entity-Keeps}
use protobuf_orm.Graph.Store.Complete.{IsListed, IsNamed}
use protobuf_orm.Graph.Failure.{Failure, Outcome}
use protobuf_orm.Graph.Finish.{accept_entity}
use protobuf_orm.Graph.Parser.{
  Run, parse_props, finish_entity, parse_new, parse_message, parse_entity,
}
use protobuf_orm.Graph.Parser.Frame.{
  Leaves, Leaves-and, Leaves-and_then, Keeping, parse_props-Keeping, parse_entity-Keeps,
  accept_entity-Keeps,
}
use protobuf_orm.Graph.Parser.Targets.{is_entity, New, New-refl, Answers, IsSound}
use protobuf_orm.Graph.Parser.Progress.{InProgress, Progresses, parse_props-Progresses}
use protobuf_orm.Graph.Parser.Accepted.{accept_entity-IsComplete}

lookup-declare_entity :
    (name j : String) (s : Store)
    → lookup j (declare_entity name s).entities
      ≡ (if str_eq name j then some s.next else lookup j s.entities)
unfolding declare_entity
lookup-declare_entity name j s = lookup-insert name j s.next s.entities

declare_entity-IsNamed : (name : String) (s : Store) → IsNamed s → IsNamed (declare_entity name s)
unfolding declare_entity
declare_entity-IsNamed name s n j a h = elim (Bool-cases (str_eq name j)) [
  | inl e ↦
      let at : s.next ≡ a = some-injective (rw (e) at (sym (lookup-declare_entity name j s) ∙ h)) in
      (omega (arith, at), rw (← at, ==_refl s.next) ((eq_iff name j).0 e))
  | inr e ↦
      let (below, known) = n j a (rw (e) at (sym (lookup-declare_entity name j s) ∙ h)) in
      (omega (arith, below), rw (==_ne s.next a (λ q. absurd (omega (arith, below, q)))) known)
]

-- The entity that is just declared.
declared-InProgress :
    (name : String) (s : Store) → IsNamed s → InProgress s.next (declare_entity name s)
unfolding declare_entity
declared-InProgress name s n = record {
  below = omega arith;
  named = unfold declare_entity in declare_entity-IsNamed name s n;
  closed = rw (==_refl s.next) tt;
  complete = λ a h k. absurd (omega (arith, h, k));
}

declared-IsListed : (name : String) (s : Store) → IsListed (declare_entity name s) s.next
unfolding declare_entity
declared-IsListed name s = (
  omega arith,
  rw (==_refl s.next, lookup-insert name name s.next s.entities, (eq_iff name name).1 refl) refl,
)

declared-full_name :
    (name : String) (s : Store) → ((declare_entity name s).cell s.next).full_name ≡ name
unfolding declare_entity
declared-full_name name s = rw (==_refl s.next) refl

IsListed-Keeps : (n : ℕ) (s s' : Store) (a : ℕ) → Keeps n s s' → IsListed s a → IsListed s' a
IsListed-Keeps n s s' a k (below, h) = (
  omega (arith, below, k.grown),
  subst (λ x. lookup x s'.entities ≡ some a) (k.named a below) (k.kept _ a h),
)

finish_entity-IsSound :
    (N : FullNames) (m : Message) (o : MessageOptions) (v : ℕ) (fs : List Failure) (s s' : Store)
    → s.next ≡ v
    → (fs ≡ [] → InProgress v s')
    → IsListed s' v
    → (s'.cell v).full_name ≡ m.full_name
    → (x : Option ℕ) → (finish_entity N m o v fs s').0 ≡ ok x
    → New s (finish_entity N m o v fs s').1 × Answers m x (finish_entity N m o v fs s').1
unfolding finish_entity
finish_entity-IsSound N m o v (f ∷ fs) s s' new progress listed same x h = absurd (cc h)
finish_entity-IsSound N m o v [] s s' new progress listed same x h =
    elim (Result-cases (accept_entity N m o v s')) [
      | inr (fs, e) ↦ absurd (cc (rw (finish_entity, e) at h))
      | inl (t, e) ↦
          let k = accept_entity-Keeps N m o v v s' t (omega arith) e in
          let (named, complete) = accept_entity-IsComplete N m o v s' t (progress refl) listed e in
          let (key, closed, there) = complete v (omega arith) (omega (arith, listed.0, k.grown)) in
          let found =
            subst (λ n. lookup n t.entities ≡ some v) (sym (k.named v listed.0) ∙ same) there.1 in
          let answer : some v ≡ x = ok-injective (rw (finish_entity, e) at h) in
          rw e (
            record { named = named; complete = λ a l. complete a (omega (arith, l, new)) },
            subst (λ y. Answers m y t) answer found,
          )
    ]

module _ (N : FullNames) (messages : List Message) where
  parse_new-IsSound :
      (rec : Message → Store → Run (Outcome (Option ℕ)))
      → ((m : Message) (s : Store) → Leaves (Keeping s.next s) (rec m s))
      → ((m : Message) (s : Store) → Leaves (IsSound m s) (rec m s))
      → (m : Message) (o : MessageOptions) (s : Store) → lookup m.full_name s.entities ≡ none
      → Leaves (IsSound m s) (parse_new N messages rec m o s)
  unfolding parse_new
  parse_new-IsSound rec keeps sound m o s fresh =
      let s1 = declare_entity m.full_name s in
      let v = s.next in
      let grown = (declare_entity-Keeps v m.full_name s (omega arith) fresh).grown in
      Leaves-and_then (λ fs s2. Keeps v s1 s2 × Progresses messages rec keeps sound v s1 fs s2)
        (IsSound m s) (parse_props messages rec v m.fields s1) _
        (Leaves-and (Keeping v s1) (Progresses messages rec keeps sound v s1)
          (parse_props messages rec v m.fields s1)
          (parse_props-Keeping messages rec keeps v m.fields s1 grown)
          (parse_props-Progresses messages rec keeps sound v m.fields s1))
        (λ fs s2 (k, progress) named x h.
          let listed = declared-IsListed m.full_name s in
          finish_entity-IsSound N m o v fs s s2 refl
            (progress (declared-InProgress m.full_name s named)) (IsListed-Keeps v s1 s2 v k listed)
            (sym (k.named v listed.0) ∙ declared-full_name m.full_name s) x h)

  parse_message-IsSound :
      (rec : Message → Store → Run (Outcome (Option ℕ)))
      → ((m : Message) (s : Store) → Leaves (Keeping s.next s) (rec m s))
      → ((m : Message) (s : Store) → Leaves (IsSound m s) (rec m s))
      → (m : Message) (s : Store) → lookup m.full_name s.entities ≡ none
      → Leaves (IsSound m s) (parse_message N messages rec m s)
  unfolding parse_message
  parse_message-IsSound rec keeps sound m s fresh = elim (Option-cases m.opts) [
    | inl e ↦ skipped (rw (parse_message, e) refl) (rw e refl)
    | inr (o, e) ↦ elim (Bool-cases o.disabled) [
      | inl d ↦ skipped (rw (parse_message, e, d) refl) (rw (e, d) refl)
      | inr d ↦
          let new : parse_message N messages rec m s ≡ parse_new N messages rec m o s =
            rw (parse_message, e, d) refl in
          subst (Leaves (IsSound m s)) (sym new) (parse_new-IsSound rec keeps sound m o s fresh)
    ]
  ]
    where
      skipped :
          parse_message N messages rec m s ≡ some (ok none, s)
          → is_entity m ≡ false
          → Leaves (IsSound m s) (parse_message N messages rec m s)
      skipped same e =
          subst (Leaves (IsSound m s)) (sym same)
            (λ n x h. (New-refl s n, subst (λ y. Answers m y s) (ok-injective h) e))

  -- If parseEntity accepts a message, the entities that came to the store are finished, and its
  -- answer is what the graph has under the message's name.
  pub parse_entity-IsSound :
      (depth : ℕ) (m : Message) (s : Store)
      → Leaves (IsSound m s) (parse_entity N messages depth m s)
  unfolding parse_entity
  parse_entity-IsSound zero m s = tt
  parse_entity-IsSound (suc depth) m s = elim (Option-cases (lookup m.full_name s.entities)) [
    | inl e ↦
        rw (parse_entity, e)
          (parse_message-IsSound (parse_entity N messages depth)
            (parse_entity-Keeps N messages depth) (parse_entity-IsSound depth) m s e)
    | inr (a, e) ↦
        rw (parse_entity, e)
          (λ n x h. (New-refl s n, subst (λ y. Answers m y s) (ok-injective h) e))
  ]
