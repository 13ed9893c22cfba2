-- ===== src/Ormpatch/Compile/Columns.antt =====
-- The pending writes of `compiler` (ormpatch/compile.go): one for each column, in the order in
-- which the columns were first written.
use protobuf_orm.Base.{
  ◌⊎◌, ℕ, ◌≡◌, ◌≢◌, sym, ◌∙◌, ap, refl, inl, inr, Option-cases, Bool-cases, ◌==◌, List, [], ◌∷◌,
  ◌++◌, none, some, All, All-append, some-injective, ==_refl, subst, Distinct, Distinct-snoc, arith,
  map,
}
use protobuf_orm.Base.Table
use protobuf_orm.Base.Table.{lookup-insert, lookup-nil}
use protobuf_orm.Base.Result.{ok}
use protobuf_orm.Graph.Prop.{Prop, number}
use protobuf_orm.Graph.Entity.{Target, Entity}
use protobuf_orm.Ormpatch.Errors.{At}
use protobuf_orm.Ormpatch.Plan.{JsonOp, Op, edit_json, Write, Test}
use protobuf_orm.Ormpatch.State.{Compiler, new_compiler}
use protobuf_orm.Ormpatch.State.Keeps.{Keeps, Leaves, Keeps-bind, Keeps-bind-lift, Keeps-modify}
use protobuf_orm.Ormpatch.Compile.Writes.{
  resize, note_write, fold_op, fold_write, check_op, write, add_test,
}
use protobuf_orm.Ormpatch.Props.{index_props}
use protobuf_orm.Ormpatch.Compile.Suits.{IsColumn}
use protobuf_orm.Ormpatch.Compile.Document.{collect}

-- Two columns of one number are one prop.
pub IsColumn-unique :
    (ent : Entity) (v w : Prop Target)
    → IsColumn ent v
    → IsColumn ent w
    → number v ≡ number w
    → v ≡ w
IsColumn-unique ent v w bv bw e =
    some-injective (sym bv ∙ ap (λ k. Table.lookup k (index_props ent)) e ∙ bw)

-- A fold joins two edits, or keeps the later operation.
pub fold_op-cases :
    (prev op op' : Op)
    → fold_op prev op ≡ some op'
    → (op ≡ op')
      ⊎ ((js : List JsonOp) × (ks : List JsonOp) × (prev ≡ edit_json js)
          × (op ≡ edit_json ks)
          × (edit_json (js ++ ks) ≡ op'))
unfolding fold_op
fold_op-cases (edit_json js) (edit_json ks) op' e = inr (js, ks, refl, refl, some-injective e)
fold_op-cases prev (edit_json ks) op' e = absurd (cc e)
fold_op-cases prev op op' e = inl (some-injective e)

-- The write is one for the column of number `n`, and `Q` holds of it.
abbrev pub IsWriteOf : (ent : Entity) → (Prop Target → Op → Type 0) → ℕ → Write → Type 0
IsWriteOf ent Q n w = (number w.prop ≡ n) × (IsColumn ent w.prop) × Q w.prop w.op

-- The columns of the order are distinct and have each a pending write, and `Q` holds of every
-- pending write.
pub record IsConsistent (ent : Entity) (Q : Prop Target → Op → Type 0) (c : Compiler) : Type 0 where
  pub distinct : Distinct c.order
  pub held : All (λ n. (w : Write) × (Table.lookup n c.writes ≡ some w)) c.order
  pub keyed : (n : ℕ) (w : Write) → Table.lookup n c.writes ≡ some w → IsWriteOf ent Q n w

pub IsConsistent-new :
    (ent : Entity) (Q : Prop Target → Op → Type 0) → IsConsistent ent Q new_compiler
IsConsistent-new ent Q = record {
  distinct = tt;
  held = tt;
  keyed = λ n w h. absurd (cc (lookup-nil {V = Write} n));
}

-- A number without a pending write is not in the order.
fresh :
    (ns : List ℕ) (writes : Table.Table Write) (n : ℕ)
    → All (λ m. (w : Write) × (Table.lookup m writes ≡ some w)) ns
    → Table.lookup n writes ≡ none
    → All (λ m. m ≢ n) ns
fresh [] writes n h e = tt
fresh (m ∷ ns) writes n ((w, hw), h) e =
    (λ same. cc (ap (λ k. Table.lookup k writes) same), fresh ns writes n h e)

held-insert :
    (ns : List ℕ) (writes : Table.Table Write) (n : ℕ) (w : Write)
    → All (λ m. (x : Write) × (Table.lookup m writes ≡ some x)) ns
    → All (λ m. (x : Write) × (Table.lookup m (Table.insert n w writes) ≡ some x)) ns
held-insert [] writes n w h = tt
held-insert (m ∷ ns) writes n w ((x, hx), h) = (
  elim (Bool-cases (n == m)) [
    | inl e ↦ (w, rw (lookup-insert, e))
    | inr e ↦ (x, rw (lookup-insert, e) hx)
  ],
  held-insert ns writes n w h,
)

keyed-insert :
    (ent : Entity) (Q : Prop Target → Op → Type 0) (writes : Table.Table Write) (n : ℕ) (w : Write)
    → ((m : ℕ) (x : Write) → Table.lookup m writes ≡ some x → IsWriteOf ent Q m x)
    → IsWriteOf ent Q n w
    → (m : ℕ) (x : Write) → Table.lookup m (Table.insert n w writes) ≡ some x
    → IsWriteOf ent Q m x
keyed-insert ent Q writes n w h k m x e = elim (Bool-cases (n == m)) [
  | inl same ↦
      let is_w : w ≡ x = some-injective (rw (lookup-insert, same) at e) in
      let is_m : n ≡ m = ground arith in
      subst (λ k'. IsWriteOf ent Q k' x) is_m (subst (IsWriteOf ent Q n) is_w k)
  | inr other ↦ h m x (rw (lookup-insert, other) at e)
]

module _ (ent : Entity) (Q : Prop Target → Op → Type 0) where
  note_write-IsConsistent :
      (n : ℕ) (at : At) (c : Compiler)
      → IsConsistent ent Q c
      → IsConsistent ent Q (note_write n at c)
  unfolding note_write
  note_write-IsConsistent n at c h = elim (Option-cases (Table.lookup n c.wrote)) [
    | inl e ↦ rw (e, note_write) (record { distinct = h.distinct; held = h.held; keyed = h.keyed })
    | inr (w, e) ↦ rw (e, note_write) h
  ]

  pub resize-Keeps : (v : Prop Target) (at : At) → Keeps (IsConsistent ent Q) (resize v at)
  unfolding resize
  resize-Keeps v at = Keeps-modify _ (λ c h.
      elim (Option-cases (Table.lookup (number v) c.resized)) [
        | inl e ↦ rw e (record { distinct = h.distinct; held = h.held; keyed = h.keyed })
        | inr (w, e) ↦ rw e h
      ])

  pub add_test-Keeps : (t : Test) → Keeps (IsConsistent ent Q) (add_test t)
  unfolding add_test
  add_test-Keeps t =
      Keeps-modify _ (λ c h. record { distinct = h.distinct; held = h.held; keyed = h.keyed })

  -- The writes of consistent columns are collected, in the order of the columns.
  pub collect-ok :
      (ns : List ℕ) (writes : Table.Table Write)
      → All (λ n. (w : Write) × (Table.lookup n writes ≡ some w)) ns
      → ((n : ℕ) (w : Write) → Table.lookup n writes ≡ some w → IsWriteOf ent Q n w)
      → (ws : List Write) × (collect ns writes ≡ ok ws)
        × (map (λ w. number w.prop) ws ≡ ns)
        × All (λ w. IsColumn ent w.prop × Q w.prop w.op) ws
  unfolding collect
  collect-ok [] writes h k = ([], refl, refl, tt)
  collect-ok (n ∷ ns) writes ((w, e), h) k =
      let (ws, got, nums, all) = collect-ok ns writes h k in
      let kw = k n w e in (w ∷ ws, rw (collect, e, got) refl, cc (kw.0, nums), ((kw.1, kw.2), all))

module _ (ent : Entity) (Q : Prop Target → Op → Type 0)
    (folds : (v : Prop Target) (prev op op' : Op)
      → Q v prev
      → Q v op
      → fold_op prev op ≡ some op'
      → Q v op') where
  -- A write to a column that has none yet.
  first_write :
      (v : Prop Target) (at : At) (op : Op) (c : Compiler)
      → IsColumn ent v
      → Q v op
      → IsConsistent ent Q c
      → Table.lookup (number v) c.writes ≡ none
      → IsConsistent ent Q (record c {
        order = c.order ++ number v ∷ [];
        writes = Table.insert (number v) (record { prop = v; at = at; op = op }) c.writes;
      })
  first_write v at op c b q h e = record {
    distinct =
        Distinct-snoc c.order (number v) h.distinct (fresh c.order c.writes (number v) h.held e);
    held =
        All-append _ c.order (number v ∷ []) (held-insert c.order c.writes (number v) _ h.held)
          ((record { prop = v; at = at; op = op }, rw (lookup-insert, ==_refl) refl), tt);
    keyed = keyed-insert ent Q c.writes (number v) _ h.keyed (refl, b, q);
  }

  next_write :
      (v : Prop Target) (at : At) (w : Write) (op : Op) (c : Compiler)
      → IsConsistent ent Q c
      → Table.lookup (number v) c.writes ≡ some w
      → Q w.prop op
      → IsConsistent ent Q
          (record c { writes = Table.insert (number v) (record w { op = op; at = at }) c.writes })
  next_write v at w op c h e q = record {
    distinct = h.distinct;
    held = held-insert c.order c.writes (number v) _ h.held;
    keyed =
        let k = h.keyed (number v) w e in
        keyed-insert ent Q c.writes (number v) _ h.keyed (k.0, k.1, q);
  }

  fold_write-Leaves :
      (v : Prop Target) (at : At) (op : Op) (c : Compiler)
      → IsColumn ent v
      → Q v op
      → IsConsistent ent Q c
      → Leaves (IsConsistent ent Q) (fold_write v at op c)
  unfolding fold_write
  fold_write-Leaves v at op c b q h = elim (Option-cases (Table.lookup (number v) c.writes)) [
    | inl e ↦ rw (e, Leaves) (first_write v at op c b q h e)
    | inr (w, e) ↦ elim (Option-cases (fold_op w.op op)) [
      | inl f ↦ rw (e, f, Leaves) tt
      | inr (op', f) ↦
          let k = h.keyed (number v) w e in
          let same = IsColumn-unique ent v w.prop b k.1 (sym k.0) in
          let folded = folds w.prop w.op op op' k.2 (subst (λ x. Q x op) same q) f in
          rw (e, f, Leaves) (next_write v _ w op' c h e folded)
    ]
  ]

  -- A write that `write` accepts keeps the pending writes consistent.
  pub write-Keeps :
      (v : Prop Target) (at : At) (op : Op)
      → IsColumn ent v
      → (check_op v op at ≡ ok tt → Q v op)
      → Keeps (IsConsistent ent Q) (write v at op)
  unfolding write
  write-Keeps v at op b q = Keeps-bind-lift (check_op v op at) _ λ u e.
      Keeps-bind _ _ (Keeps-modify _ (note_write-IsConsistent ent Q (number v) at))
        (λ u'. record { at = λ c h. fold_write-Leaves v at op c b (q e) h })
