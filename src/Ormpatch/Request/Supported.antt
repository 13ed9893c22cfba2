-- ===== src/Ormpatch/Request/Supported.antt =====
-- That the compiler supports what a request is converted to (ormpatch/frompatchreq.go,
-- ormpatch/compile.go).
use protobuf_orm.Base.{
  ◌≡◌, refl, sym, subst, inl, inr, true, false, List, [], ◌∷◌, map, All, All-zip, some-injective,
  Distinct, Option, none, some,
}
use protobuf_orm.Base.Result.{Result, ok, err, >>=-eq-ok, ok-injective}
use protobuf_orm.Base.Table
use protobuf_orm.Graph.Prop.{Prop, number, is_version}
use protobuf_orm.Graph.Entity.{Target, Entity}
use protobuf_orm.Graph.Patch.{patch_props}
use protobuf_orm.Graph.Patch.Layout.{All-patch_props, patch_props-immutable, Distinct-patch_props}
use protobuf_orm.Ormpatch.Document.{Delta, Entries, Entry, Document}
use protobuf_orm.Ormpatch.Errors.{root, Error}
use protobuf_orm.Ormpatch.Library.{Library}
use protobuf_orm.Ormpatch.Props.{index_props-columns}
use protobuf_orm.Ormpatch.Literal.Refusals.{is_value_error, IsPatch}
use protobuf_orm.Ormpatch.State.{Compiler, new_compiler}
use protobuf_orm.Ormpatch.Compile.Writes.{is_json_column}
use protobuf_orm.Ormpatch.Compile.Address.{root_site}
use protobuf_orm.Ormpatch.Compile.Document.{delta, entries, compile_normal}
use protobuf_orm.Ormpatch.Compile.Fresh.{Goes, IsFresh}
use protobuf_orm.Ormpatch.Request.{
  Request, EdgeResolver, cons_entry, prop_entry, prop_entries, document_of, from_patch_request,
}
use protobuf_orm.Ormpatch.Request.Conversion.{IsEntryFor, prop_entry-IsEntryFor}
use protobuf_orm.Ormpatch.Plans.Failure.{compile_normal-err}
use protobuf_orm.Ormpatch.Request.SingleEntries.{
  Declares, HasTargetKey, IsReady, Follows, entries-Goes,
}

module _ (L : Library) (req : Request) (convert : Option EdgeResolver) where
  cons_entry-Follows :
      (p : Prop Target) (ps : List (Prop Target)) (o : Option Entry) (rest : Entries)
      → ((e : Entry) → o ≡ some e → IsEntryFor p e)
      → Follows ps rest
      → Follows (p ∷ ps) (cons_entry L o rest)
  cons_entry-Follows p ps none rest k h = inl h
  cons_entry-Follows p ps (some e) rest k h = inr (e, rest, refl, k e refl, h)

  prop_entries-Follows :
      (ps : List (Prop Target)) (es : Entries)
      → prop_entries L req convert ps ≡ ok es
      → Follows ps es
  unfolding prop_entries
  prop_entries-Follows [] es h = sym (ok-injective h)
  prop_entries-Follows (p ∷ ps) es h =
      let (o, ho, h1) = >>=-eq-ok (prop_entry L req convert p) _ h in
      let (rest, hr, h2) = >>=-eq-ok (prop_entries L req convert ps) _ h1 in
      subst (Follows (p ∷ ps)) (ok-injective h2) (
        cons_entry-Follows p ps o rest (λ e s. prop_entry-IsEntryFor L req convert p e (rw s at ho))
          (prop_entries-Follows ps rest hr))

document_of-some :
    (L : Library) (e : Entity) (es : Entries) (d : Document)
    → document_of L e es ≡ some d
    → d ≡ record { message_type = e.full_name; delta = Delta.delta es }
document_of-some L e Entries.end d h = absurd (cc h)
document_of-some L e (Entries.cons x es) d h = sym (some-injective h)

IsReady-patch_props :
    (L : Library) (e : Entity)
    → Distinct (map number e.props)
    → All
        (λ p.
          Declares L e.full_name p
          × HasTargetKey L p
          × (is_version p ≡ true → is_json_column p ≡ false))
        e.props
    → All (IsReady L e) (patch_props e.props)
IsReady-patch_props L e d h =
    All-zip _ _ (IsReady L e) (patch_props e.props)
      (λ p (col, (dec, tgt, lck)) i. record {
        column = col;
        declared = dec;
        target = tgt;
        mutable = i;
        lock = lck;
      })
      (All-zip _ _ (λ p. _ × _) (patch_props e.props) (λ p a b. (a, b))
        (All-patch_props _ e.props (index_props-columns e d)) (All-patch_props _ e.props h))
      (patch_props-immutable e.props)

new-IsFresh : (ps : List (Prop Target)) → All (λ p. IsFresh p new_compiler) ps
unfolding Table.lookup
new-IsFresh [] = tt
new-IsFresh (p ∷ ps) = ((refl, refl), new-IsFresh ps)

delta-Goes :
    (L : Library) (e : Entity) (es : Entries)
    → Goes (λ c. Unit) (entries L e es root_site (root "delta") 0 0 new_compiler)
    → Goes (λ c. Unit) (delta L e (Delta.delta es) root_site (root "delta") 0 new_compiler)
unfolding delta
delta-Goes L e es h = h

Goes-err :
    {A : Type 0} (P : Compiler → Type 0) (r : Result Error (A × Compiler)) (x : Error)
    → Goes P r
    → r ≡ err x
    → is_value_error x ≡ true
Goes-err P r x h e = subst (Goes P) e h

-- Suppose that the props of an entity have distinct numbers, that its message declares their fields
-- and the targets of its edges their keys, that its version is no collection or JSON, and that the
-- errors of the patch package are violations of the format. If a request converts to a document and
-- that does not compile as it is, the error is a violation of the format or a value that its column
-- cannot hold: nothing of the document is unsupported, immutable or the version's to write.
pub from_patch_request-Supported :
    (L : Library) (e : Entity) (req : Request) (convert : Option EdgeResolver) (d : Document)
    (x : Error)
    → IsPatch L
    → Distinct (map number e.props)
    → All
        (λ p.
          Declares L e.full_name p
          × HasTargetKey L p
          × (is_version p ≡ true → is_json_column p ≡ false))
        e.props
    → from_patch_request L (some e) (some req) convert ≡ ok (some d)
    → compile_normal L e d ≡ err x
    → is_value_error x ≡ true
unfolding from_patch_request
from_patch_request-Supported L e req convert d x lib apart h converted failed =
    let ps = patch_props e.props in
    let (es, he, hd) = >>=-eq-ok (prop_entries L req convert ps) _ converted in
    let made = document_of-some L e es d (ok-injective hd) in
    let run =
      entries-Goes L lib e ps es (root "delta") 0 new_compiler
        (prop_entries-Follows L req convert ps es he) (IsReady-patch_props L e apart h)
        (Distinct-patch_props e.props apart) (new-IsFresh ps) in
    elim (compile_normal-err L e d x failed) [
      | inl (other, same) ↦ rw same refl
      | inr broken ↦
          Goes-err (λ c. Unit) (delta L e d.delta root_site (root "delta") 0 new_compiler) x
            (subst
              (λ k. Goes (λ c. Unit) (delta L e k.delta root_site (root "delta") 0 new_compiler))
              (sym made) (delta-Goes L e es run))
            broken
    ]
