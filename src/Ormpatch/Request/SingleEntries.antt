-- ===== src/Ormpatch/Request/SingleEntries.antt =====
-- What the compiler does with the entries that a request is converted to (ormpatch/compile.go).
use protobuf_orm.Base.{
  ℕ, ◌+◌, ◌≡◌, ◌≢◌, ◌⊎◌, refl, sym, ap, subst, inl, inr, String, true, false, List, [], ◌∷◌, map,
  All, Distinct, Option, none, some, ==_refl,
}
use protobuf_orm.Base.Result.{Result, ok, err}
use protobuf_orm.Base.Table
use protobuf_orm.Graph.Prop.{
  Prop, Edge, field, edge, name, number, descriptor, is_immutable, is_version,
}
use protobuf_orm.Graph.Entity.{Target, Entity}
use protobuf_orm.Ormpatch.Document.{
  Selector, FieldRef, Scope, OnMissing, Literal, Operation, Want, Entries, Entry,
}
use protobuf_orm.Ormpatch.Errors.{At, sub, index, Error, unsupported}
use protobuf_orm.Ormpatch.Library.{Library}
use protobuf_orm.Ormpatch.Props.{index_props, resolve}
use protobuf_orm.Ormpatch.Literal.Refusals.{IsPatch}
use protobuf_orm.Ormpatch.State.{Compiler, M, pure, ◌>>=◌}
use protobuf_orm.Ormpatch.Compile.Writes.{is_json_column}
use protobuf_orm.Ormpatch.Compile.Address.{Site, root_site, edge_site, site_of, walk_step, walk}
use protobuf_orm.Ormpatch.Compile.Targets.{column_op, at_column, edge_op, at_edge, one}
use protobuf_orm.Ormpatch.Compile.Document.{select, targets, scope_op, entries, entry}
use protobuf_orm.Ormpatch.Compile.Fresh.{Goes, Goes->>=, Spares, IsFresh, IsFresh-Spares}
use protobuf_orm.Ormpatch.Compile.Supported.{
  column_op-test, column_op-remove, column_op-assign, edge_op-assign,
}
use protobuf_orm.Ormpatch.Request.{
  prop_key, entry_assign, entry_remove, entry_test, entry_edge_assign,
}
use protobuf_orm.Ormpatch.Request.Conversion.{IsEntryFor}

-- the reference that propKey makes of a prop
abbrev pub prop_ref : Prop Target → FieldRef
prop_ref p = record { name = some (name p); number = some (number p); json_name = none }

-- The message declares the field of the prop.
abbrev pub Declares : Library → String → Prop Target → Type 0
Declares L md p = (at : At) → L.resolve_field md (prop_ref p) at ≡ ok (some (descriptor p))

-- At an edge, its target declares the key.
abbrev pub HasTargetKey : Library → Prop Target → Type 0
HasTargetKey L (field f) = Unit
HasTargetKey L (edge ed) = Declares L ed.target.full_name (field ed.target.key)

-- The prop is a column of the entity that may be written, and the version no collection or JSON.
pub record IsReady (L : Library) (ent : Entity) (p : Prop Target) : Type 0 where
  pub column : Table.lookup (number p) (index_props ent) ≡ some p
  pub declared : Declares L ent.full_name p
  pub target : HasTargetKey L p
  pub mutable : is_immutable p ≡ false
  pub lock : is_version p ≡ true → is_json_column p ≡ false

found_lem :
    (p : Prop Target) (at : At) (o : Option (Prop Target))
    → o ≡ some p
    → ◌≡◌ {A = Result Error (Option (Prop Target))}
        (elim o [ none ↦ err (unsupported at) | some v ↦ ok (some v) ])
        (ok (some p))
found_lem p at none h = absurd (cc h)
found_lem p at (some v) h = ap (λ x. ok x) h

module _ (L : Library) (lib : IsPatch L) (ent : Entity) where
  resolve_lem :
      (p : Prop Target) (at : At) → IsReady L ent p → resolve L ent (prop_ref p) at ≡ ok (some p)
  unfolding resolve
  resolve_lem p at r =
      rw (r.declared at)
        (found_lem p at (Table.lookup (descriptor p).number (index_props ent)) r.column)

  at_column-Goes :
      (Q : Compiler → Type 0) (op : Operation) (miss : OnMissing) (p : Prop Target) (at : At)
      (c : Compiler)
      → IsReady L ent p
      → Goes Q (column_op L op p at c)
      → Goes Q (at_column L ent op miss (Selector.key (prop_key p)) at c)
  unfolding at_column prop_key ◌>>=◌
  at_column-Goes Q op miss p at c r h = rw (resolve_lem p at r) h

  -- `targets` with one selector
  select-Goes :
      (Q : Compiler → Type 0) (op : Operation) (miss : OnMissing) (s : Site) (at : At)
      (sel : Selector) (c : Compiler)
      → Goes Q (one L ent op miss s sel (index at "selectors" 0) c)
      → Goes Q (select L ent op miss s at (sel ∷ []) 0 [] c)
  unfolding select ◌>>=◌
  select-Goes Q op miss s at sel c h =
      Goes->>= Q Q (one L ent op miss s sel (index at "selectors" 0)) (λ u. pure tt) c h
        (λ u c' k. k)

  -- An entry at the root that names one column.
  root_entry-Goes :
      (Q : Compiler → Type 0) (op : Operation) (p : Prop Target) (at : At) (c : Compiler)
      → ((nested : Site → At → M (Unit {0})) (sels : List Selector)
          → targets L ent op OnMissing.fail sels root_site at nested
            ≡ select L ent op OnMissing.fail root_site (sub at "targets") sels 0 [])
      → IsReady L ent p
      → ((at : At) → Goes Q (column_op L op p at c))
      → Goes Q (
          entry L ent
            (Entry.entry [] (Scope.targets (Selector.key (prop_key p) ∷ [])) OnMissing.fail op)
            root_site
            at
            0
            c)
  unfolding entry scope_op walk ◌>>=◌ one
  root_entry-Goes Q op p at c plain r h = rw plain (
      select-Goes Q op OnMissing.fail root_site (sub at "targets") (Selector.key (prop_key p)) c
        (at_column-Goes Q op OnMissing.fail p _ c r (h _)))

  walk-edge :
      (ed : Edge Target) (at : At)
      → IsReady L ent (edge ed)
      → ed.source.is_list ≡ false
      → walk L ent root_site (prop_key (edge ed) ∷ []) 0 at ≡ ok (edge_site ed)
  unfolding walk walk_step prop_key site_of
  walk-edge ed at r l = rw (resolve_lem (edge ed) (sub (index at "segments" 0) "field") r, l) refl

  at_edge-Goes :
      (Q : Compiler → Type 0) (op : Operation) (ed : Edge Target) (at : At) (c : Compiler)
      → IsReady L ent (edge ed)
      → Goes Q (edge_op L op ed at c)
      → Goes Q (at_edge L op ed (Selector.key (prop_key (field ed.target.key))) at c)
  unfolding at_edge prop_key ◌>>=◌
  at_edge-Goes Q op ed at c r h = rw (r.target at, ==_refl ed.target.key.source.number) h

  edge_entry-Goes :
      (Q : Compiler → Type 0) (x : Literal) (ed : Edge Target) (at : At) (c : Compiler)
      → IsReady L ent (edge ed)
      → ed.source.is_list ≡ false
      → ((at : At) → Goes Q (edge_op L (Operation.assign x) ed at c))
      → Goes Q (entry L ent (entry_edge_assign ed ed.target.key x) root_site at 0 c)
  unfolding entry scope_op targets one ◌>>=◌ entry_edge_assign
  edge_entry-Goes Q x ed at c r l h = rw (walk-edge ed (sub at "path") r l) (
      select-Goes Q (Operation.assign x) OnMissing.fail (edge_site ed) (sub at "targets")
        (Selector.key (prop_key (field ed.target.key))) c
        (at_edge-Goes Q (Operation.assign x) ed _ c r (h _)))

  -- What the entry of a prop does.
  entry-Goes :
      (p : Prop Target) (e : Entry) (at : At) (c : Compiler)
      → IsEntryFor p e
      → IsReady L ent p
      → IsFresh p c
      → Goes (Spares p c) (entry L ent e root_site at 0 c)
  unfolding entry_test entry_remove entry_assign targets
  entry-Goes p e at c k r f = elim k [
    | inl (v, (x, h)) ↦
        subst (λ e. Goes (Spares p c) (entry L ent e root_site at 0 c)) (sym h)
          (root_entry-Goes (Spares p c) (Operation.test (Want.value x)) p at c (λ n s. refl) r
            (λ at. column_op-test L lib x p at c (r.lock v) f))
    | inr (inl (v, n, h)) ↦
        subst (λ e. Goes (Spares p c) (entry L ent e root_site at 0 c)) (sym h)
          (root_entry-Goes (Spares p c) Operation.remove p at c (λ n s. refl) r
            (λ at. column_op-remove L lib p at c r.mutable v n f))
    | inr (inr (inl (v, n, (x, h)))) ↦
        subst (λ e. Goes (Spares p c) (entry L ent e root_site at 0 c)) (sym h)
          (root_entry-Goes (Spares p c) (Operation.assign x) p at c (λ n s. refl) r
            (λ at. column_op-assign L lib x p at c r.mutable v n f))
    | inr (inr (inr (ed, same, l, (x, h)))) ↦
        subst (λ e. Goes (Spares p c) (entry L ent e root_site at 0 c)) (sym h)
          (subst
            (λ q.
              Goes (Spares q c)
                (entry L ent (entry_edge_assign ed ed.target.key x) root_site at 0 c))
            (sym same)
            (edge_entry-Goes (Spares (edge ed) c) x ed at c (subst (IsReady L ent) same r) l (λ at.
              edge_op-assign L lib x ed at c (subst (λ q. is_immutable q ≡ false) same r.mutable)
                (subst (λ q. IsFresh q c) same f))))
  ]

-- The entries are for props of the list, in order, and no two for one.
abbrev pub Follows : List (Prop Target) → Entries → Type 0
Follows [] es = es ≡ Entries.end
Follows (p ∷ ps) es =
    Follows ps es
    ⊎ ((e : Entry) × (rest : Entries) × (es ≡ Entries.cons e rest)
        × IsEntryFor p e
        × Follows ps rest)

module _ (L : Library) (lib : IsPatch L) (ent : Entity) where
  IsFresh-rest :
      (p : Prop Target) (c c' : Compiler) (ps : List (Prop Target))
      → All (λ n. number p ≢ n) (map number ps)
      → Spares p c c'
      → All (λ q. IsFresh q c) ps
      → All (λ q. IsFresh q c') ps
  IsFresh-rest p c c' [] apart s f = tt
  IsFresh-rest p c c' (q ∷ qs) apart s f =
      (IsFresh-Spares p q c c' apart.0 s f.0, IsFresh-rest p c c' qs apart.1 s f.1)

  pub entries-Goes :
      (ps : List (Prop Target)) (es : Entries) (at : At) (i : ℕ) (c : Compiler)
      → Follows ps es
      → All (IsReady L ent) ps
      → Distinct (map number ps)
      → All (λ p. IsFresh p c) ps
      → Goes (λ c'. Unit) (entries L ent es root_site at i 0 c)
  unfolding entry ◌>>=◌
  entries-Goes [] es at i c h r d f =
      subst (λ es. Goes (λ c'. Unit) (entries L ent es root_site at i 0 c)) (sym h) tt
  entries-Goes (p ∷ ps) es at i c (inl h) r d f = entries-Goes ps es at i c h r.1 d.1 f.1
  entries-Goes (p ∷ ps) es at i c (inr (e, rest, same, k, h)) r d f =
      subst (λ es. Goes (λ c'. Unit) (entries L ent es root_site at i 0 c)) (sym same)
        (Goes->>= (Spares p c) (λ c'. Unit) (entry L ent e root_site (index at "entries" i) 0) _ c
          (entry-Goes L lib ent p e (index at "entries" i) c k r.0 f.0)
          (λ u c' s.
            entries-Goes ps rest at (i + 1) c' h r.1 d.1 (IsFresh-rest p c c' ps d.0 s f.1)))
