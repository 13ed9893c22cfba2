-- ===== src/Ormpatch/Plans/Depth.antt =====
-- How deep the documents that compile nest (ormpatch/compile.go: maxNest, delta).
use protobuf_orm.Base.{
  ℕ, zero, suc, ◌+◌, ◌<◌, ◌≡◌, refl, inl, inr, true, Bool-cases, ltb, some, [], ◌∷◌, arith,
}
use protobuf_orm.Base.Result.{ok, Result-cases}
use protobuf_orm.Graph.Entity.{Entity}
use protobuf_orm.Ormpatch.Document.{Document, Delta, Entries, Entry, Operation, Scope, OnMissing}
use protobuf_orm.Ormpatch.Errors.{At, Error, sub, index}
use protobuf_orm.Ormpatch.Library.{Library, Limits}
use protobuf_orm.Ormpatch.Plan.{Plan}
use protobuf_orm.Ormpatch.State.{Compiler, M, lift, fail, ◌>>=◌, and_then}
use protobuf_orm.Ormpatch.Compile.Address.{
  Site, root_site, edge_site, map_site, list_site, walk, enter,
}
use protobuf_orm.Ormpatch.Compile.Document.{
  delta, entries, entry, nested, scope_op, targets, container, collection_op, compile_with,
  max_nest,
}
use protobuf_orm.Ormpatch.Plans.Success.{compile_with-IsRun}

mutual
  -- The deltas of `nest` operations stand at most `k` deep inside each other.
  pub NestsWithin : ℕ → Delta → Type 0
  NestsWithin k (Delta.delta es) = EntriesNestWithin k es

  EntriesNestWithin : ℕ → Entries → Type 0
  EntriesNestWithin k Entries.end = Unit
  EntriesNestWithin k (Entries.cons e es) = EntryNestsWithin k e × EntriesNestWithin k es

  EntryNestsWithin : ℕ → Entry → Type 0
  EntryNestsWithin k (Entry.entry path scope miss op) = OperationNestsWithin op k

  OperationNestsWithin : Operation → ℕ → Type 0
  OperationNestsWithin (Operation.nest d) zero = ⊥
  OperationNestsWithin (Operation.nest d) (suc k) = NestsWithin k d
  OperationNestsWithin _ k = Unit

ltb-true : (m n : ℕ) → ltb m n ≡ true → m < n
ltb-true m n e = ground arith

ltb_of_lt : (m n : ℕ) → m < n → ltb m n ≡ true
ltb_of_lt m n h = ground arith

module _ {A B : Type 0} where
  -- What a successful chain went through.
  >>=-ok :
      (m : M A) (f : A → M B) (c : Compiler) (r : B × Compiler)
      → (m >>= f) c ≡ ok r
      → (a : A) × (c1 : Compiler) × (m c ≡ ok (a, c1)) × (f a c1 ≡ ok r)
  unfolding ◌>>=◌
  >>=-ok m f c r h = elim (Result-cases (m c)) [
    | inr (x, e) ↦ absurd (cc (rw (e, and_then) at h))
    | inl ((a, c1), e) ↦ (a, c1, e, rw (e, and_then) at h)
  ]

fail-ok : {B : Type 0} (e : Error) (c : Compiler) (r : B × Compiler) → fail e c ≡ ok r → ⊥
unfolding ◌>>=◌
fail-ok e c r h = cc

module _ (L : Library) (ent : Entity) where
  -- A `nest` that succeeds compiled its delta, at some site.
  scope_op-nest :
      (scope : Scope) (miss : OnMissing) (d : Delta) (s : Site) (at : At)
      (nst : Site → At → M (Unit {0})) (c : Compiler) (r : Unit {0} × Compiler)
      → scope_op L ent scope miss (Operation.nest d) s at nst c ≡ ok r
      → (s' : Site) × (at' : At) × (c1 : Compiler) × (nst s' at' c1 ≡ ok r)
  unfolding scope_op container collection_op targets
  scope_op-nest Scope.container miss d root_site at nst c r h = absurd (fail-ok _ c r h)
  scope_op-nest Scope.container miss d (edge_site ed) at nst c r h = absurd (fail-ok _ c r h)
  scope_op-nest Scope.container miss d (map_site v) at nst c r h = (map_site v, _, c, h)
  scope_op-nest Scope.container miss d (list_site v) at nst c r h = (list_site v, _, c, h)
  scope_op-nest (Scope.targets (sel ∷ [])) miss d s at nst c r h =
      let (s', c1, e, k) = >>=-ok (lift (enter L ent s sel _)) _ c r h in (s', _, c1, k)
  scope_op-nest (Scope.targets []) miss d s at nst c r h = absurd (fail-ok _ c r h)
  scope_op-nest (Scope.targets (sel ∷ sel' ∷ sels)) miss d s at nst c r h = absurd (fail-ok _ c r h)
  scope_op-nest Scope.unset miss d s at nst c r h = absurd (fail-ok _ c r h)

  delta_too_deep :
      (d : Delta) (s : Site) (at : At) (depth : ℕ) (c : Compiler) (r : Unit {0} × Compiler)
      → max_nest < depth
      → delta L ent d s at depth c ≡ ok r
      → ⊥
  unfolding delta
  delta_too_deep (Delta.delta es) s at depth c r b h =
      fail-ok _ c r (rw (ltb_of_lt max_nest depth b) at h)

  mutual
    unfolding delta NestsWithin

    delta-NestsWithin :
        (d : Delta) (s : Site) (at : At) (depth k : ℕ) (c : Compiler) (r : Unit {0} × Compiler)
        → depth + k ≡ max_nest
        → delta L ent d s at depth c ≡ ok r
        → NestsWithin k d
    delta-NestsWithin (Delta.delta es) s at depth k c r b h =
        elim (Bool-cases (ltb max_nest depth)) [
          | inl e ↦ absurd (omega (arith, b, ltb-true max_nest depth e))
          | inr e ↦ entries-NestWithin es s at 0 depth k c r b (rw e at h)
        ]

    entries-NestWithin :
        (es : Entries) (s : Site) (at : At) (i depth k : ℕ) (c : Compiler) (r : Unit {0} × Compiler)
        → depth + k ≡ max_nest
        → entries L ent es s at i depth c ≡ ok r
        → EntriesNestWithin k es
    entries-NestWithin Entries.end s at i depth k c r b h = tt
    entries-NestWithin (Entries.cons e es) s at i depth k c r b h =
        let (u, c1, he, hr) = >>=-ok (entry L ent e s (index at "entries" i) depth) _ c r h in
        (
          entry-NestsWithin e s _ depth k c (u, c1) b he,
          entries-NestWithin es s at (i + 1) depth k c1 r b hr,
        )

    entry-NestsWithin :
        (e : Entry) (s : Site) (at : At) (depth k : ℕ) (c : Compiler) (r : Unit {0} × Compiler)
        → depth + k ≡ max_nest
        → entry L ent e s at depth c ≡ ok r
        → EntryNestsWithin k e
    entry-NestsWithin (Entry.entry path scope miss op) s at depth k c r b h =
        let (s', c1, hw, hs) = >>=-ok (lift (walk L ent s path 0 (sub at "path"))) _ c r h in
        operation-NestsWithin op scope miss s' at depth k c1 r b hs

    operation-NestsWithin :
        (op : Operation) (scope : Scope) (miss : OnMissing) (s : Site) (at : At) (depth k : ℕ)
        (c : Compiler) (r : Unit {0} × Compiler)
        → depth + k ≡ max_nest
        → scope_op L ent scope miss op s at (nested L ent op depth) c ≡ ok r
        → OperationNestsWithin op k
    operation-NestsWithin (Operation.nest d) scope miss s at depth zero c r b h =
        let (s', at', c1, hn) =
          scope_op-nest scope miss d s at (nested L ent (Operation.nest d) depth) c r h in
        delta_too_deep d s' at' (depth + 1) c1 r (omega (arith, b)) hn
    operation-NestsWithin (Operation.nest d) scope miss s at depth (suc k) c r b h =
        let (s', at', c1, hn) =
          scope_op-nest scope miss d s at (nested L ent (Operation.nest d) depth) c r h in
        delta-NestsWithin d s' at' (depth + 1) k c1 r (omega (arith, b)) hn
    operation-NestsWithin _ scope miss s at depth k c r b h = tt

-- If `CompileWith` makes a plan, the deltas of the `nest` operations of the normalized document
-- stand at most 64 deep inside each other.
pub compile_with-NestsWithin :
    (L : Library) (ent : Entity) (d : Document) (lim : Limits) (p : Plan)
    → compile_with L (some ent) (some d) lim ≡ ok p
    → (q : Document) × (L.normalize_with d lim ≡ ok q) × NestsWithin 64 q.delta
compile_with-NestsWithin L ent d lim p h =
    let (q, normal, r) = compile_with-IsRun L ent d lim p h in
    (q, normal, delta-NestsWithin L ent q.delta root_site _ 0 64 _ _ refl r.ran)
