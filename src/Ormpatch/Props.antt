-- ===== src/Ormpatch/Props.antt =====
-- ormpatch/props.go: the columns of an entity by field number.
use protobuf_orm.Base.{
  map, All, Distinct, ◌≢◌, ◌∙◌, ℕ, ◌≡◌, arith, refl, List, [], ◌∷◌, Option, none, some,
}
use protobuf_orm.Base.Result.{Result, ok, err, ◌>>=◌, >>=-eq-ok}
use protobuf_orm.Base.Table
use protobuf_orm.Base.Table.{Table, lookup-insert, lookup-nil}
use protobuf_orm.Graph.Prop.{Prop, number}
use protobuf_orm.Graph.Entity.{Target, Entity}
use protobuf_orm.Ormpatch.Document.{FieldRef}
use protobuf_orm.Ormpatch.Errors.{At, Error, unsupported}
use protobuf_orm.Proto.{FieldDescriptor}
use protobuf_orm.Ormpatch.Library.{Library}

-- the loop of indexProps: a later prop of the same number takes the place of an earlier one
index_from : List (Prop Target) → Table (Prop Target) → Table (Prop Target)
index_from [] by_num = by_num
index_from (v ∷ vs) by_num = index_from vs (Table.insert (number v) v by_num)

-- indexProps
unfoldable pub index_props : Entity → Table (Prop Target)
unfolding index_from
index_props e = index_from e.props []

-- props.resolve: `none` is vacancy
unfoldable pub resolve : Library → Entity → FieldRef → At → Result Error (Option (Prop Target))
resolve L e f at = do
  found ← L.resolve_field e.full_name f at
  elim found [
    | none ↦ ok none
    | some fd ↦ elim (Table.lookup fd.number (index_props e)) [
      | none ↦ err (unsupported at)
      | some v ↦ ok (some v)
    ]
  ]

-- The index holds each prop at its own number.
abbrev IsKeyed : Table (Prop Target) → Type 0
IsKeyed m = (n : ℕ) (v : Prop Target) → Table.lookup n m ≡ some v → number v ≡ n

index_from-IsKeyed :
    (vs : List (Prop Target)) (m : Table (Prop Target)) → IsKeyed m → IsKeyed (index_from vs m)
unfolding index_from
index_from-IsKeyed [] m k = k
index_from-IsKeyed (v ∷ vs) m k =
    index_from-IsKeyed vs (Table.insert (number v) v m)
      (λ n w h. ground (arith, lookup-insert (number v) n v m, k n w))

index_props-IsKeyed : (e : Entity) → IsKeyed (index_props e)
unfolding index_props
index_props-IsKeyed e =
    index_from-IsKeyed e.props [] (λ n v h. absurd (cc (lookup-nil {V = Prop Target} n)))

found-IsColumn :
    (e : Entity) (fd : FieldDescriptor) (at : At) (o : Option (Prop Target)) {v : Prop Target}
    → Table.lookup fd.number (index_props e) ≡ o
    → ◌≡◌ {A = Result Error (Option (Prop Target))}
        (elim o [ none ↦ err (unsupported at) | some v ↦ ok (some v) ])
        (ok (some v))
    → Table.lookup (number v) (index_props e) ≡ some v
found-IsColumn e fd at none held h = absurd (cc)
found-IsColumn e fd at (some w) {v} held h =
    let same : w ≡ v = cc in rw (← same, index_props-IsKeyed e fd.number w held) held

-- What `resolve` finds is the prop that the index holds at its number.
pub resolve-IsColumn :
    (L : Library) (e : Entity) (f : FieldRef) (at : At) {v : Prop Target}
    → resolve L e f at ≡ ok (some v)
    → Table.lookup (number v) (index_props e) ≡ some v
unfolding resolve
resolve-IsColumn L e f at {v} h =
    let (found, _, h') = >>=-eq-ok (L.resolve_field e.full_name f at) _ h in go found h'
  where
    go :
        (found : Option FieldDescriptor)
        → ◌≡◌ {A = Result Error (Option (Prop Target))}
            (elim found [
              | none ↦ ok none
              | some fd ↦ elim (Table.lookup fd.number (index_props e)) [
                | none ↦ err (unsupported at)
                | some w ↦ ok (some w)
              ]
            ])
            (ok (some v))
        → Table.lookup (number v) (index_props e) ≡ some v
    go none x = absurd (cc)
    go (some fd) x = found-IsColumn e fd at (Table.lookup fd.number (index_props e)) refl x

index_from-other :
    (n : ℕ) (vs : List (Prop Target)) (m : Table (Prop Target))
    → All (λ k. n ≢ k) (map number vs)
    → Table.lookup n (index_from vs m) ≡ Table.lookup n m
unfolding index_from
index_from-other n [] m h = refl
index_from-other n (v ∷ vs) m h =
    index_from-other n vs (Table.insert (number v) v m) h.1
    ∙ ground (arith, lookup-insert (number v) n v m, h.0)

index_from-columns :
    (vs : List (Prop Target)) (m : Table (Prop Target))
    → Distinct (map number vs)
    → All (λ v. Table.lookup (number v) (index_from vs m) ≡ some v) vs
unfolding index_from
index_from-columns [] m d = tt
index_from-columns (v ∷ vs) m d = (
  index_from-other (number v) vs (Table.insert (number v) v m) d.0
      ∙ ground (arith, lookup-insert (number v) (number v) v m),
  index_from-columns vs (Table.insert (number v) v m) d.1,
)

-- Among props of distinct numbers, each stands in the index at its own.
pub index_props-columns :
    (e : Entity)
    → Distinct (map number e.props)
    → All (λ v. Table.lookup (number v) (index_props e) ≡ some v) e.props
unfolding index_props
index_props-columns e d = index_from-columns e.props [] d
