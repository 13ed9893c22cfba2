-- ===== src/Ormpatch/Request/Compiled.antt =====
-- A converted PatchRequest as a document, and what compiling it may write
-- (ormpatch/frompatchreq.go).
use protobuf_orm.Base.{
  ◌≡◌, refl, sym, inl, inr, false, List, [], ◌∷◌, Option, some, some-injective, subst, All,
}
use protobuf_orm.Base.Result.{ok, >>=-eq-ok, ok-injective}
use protobuf_orm.Graph.Prop.{Prop}
use protobuf_orm.Graph.Entity.{Target, Entity}
use protobuf_orm.Graph.Patch.{patch_props}
use protobuf_orm.Ormpatch.Document.{Delta, Entries, Entry, Document}
use protobuf_orm.Ormpatch.Library.{Library}
use protobuf_orm.Ormpatch.Plan.{Plan}
use protobuf_orm.Ormpatch.Compile.Suits.{IsWritable}
use protobuf_orm.Ormpatch.Compile.Scopes.{Admits, EntriesAdmit, EntryAdmits}
use protobuf_orm.Ormpatch.Compile.Document.{compile_normal}
use protobuf_orm.Ormpatch.Plans.Success.{compile_normal-IsRun}
use protobuf_orm.Ormpatch.Plans.Columns.{run-IsWritable}
use protobuf_orm.Ormpatch.Request.{
  Request, EdgeResolver, entry_assign, entry_remove, entry_test, entry_edge_assign, prop_entries,
  document_of, from_patch_request,
}
use protobuf_orm.Ormpatch.Request.Conversion.{IsEntryFor, IsForOneOf, AllEntries, prop_entries-All}

abbrev pub entries_of : Delta → Entries
entries_of (Delta.delta es) = es

-- The delta has an entry.
abbrev pub IsNonEmpty : Delta → Type 0
IsNonEmpty (Delta.delta Entries.end) = ⊥
IsNonEmpty (Delta.delta (Entries.cons e es)) = Unit

-- The document is for the entity, asks for something, and asks of each prop only what a request
-- may carry for it.
abbrev pub IsConverted : Entity → Document → Type 0
IsConverted e d =
    (d.message_type ≡ e.full_name)
    × IsNonEmpty d.delta
    × AllEntries (IsForOneOf (patch_props e.props)) (entries_of d.delta)

document_of-IsConverted :
    (L : Library) (e : Entity) (es : Entries) (d : Document)
    → AllEntries (IsForOneOf (patch_props e.props)) es
    → document_of L e es ≡ some d
    → IsConverted e d
document_of-IsConverted L e Entries.end d k h = absurd (cc h)
document_of-IsConverted L e (Entries.cons x es) d k h =
    subst (IsConverted e) (some-injective h) (refl, tt, k)

-- If a request converts to a document, its message type is the entity's name, it has an entry, and
-- each entry is for a prop that a patch carries: a test of the version field, the removal of a
-- nullable prop, the assignment of a field, or that of the target's key through an edge which is not
-- repeated.
pub from_patch_request-IsConverted :
    (L : Library) (e : Entity) (req : Request) (resolve : Option EdgeResolver) (d : Document)
    → from_patch_request L (some e) (some req) resolve ≡ ok (some d)
    → IsConverted e d
unfolding from_patch_request
from_patch_request-IsConverted L e req resolve d h =
    let (es, he, hd) = >>=-eq-ok (prop_entries L req resolve (patch_props e.props)) _ h in
    document_of-IsConverted L e es d (prop_entries-All L req resolve _ _ es (λ x k. k) he)
      (ok-injective hd)

IsEntryFor-EntryAdmits : (p : Prop Target) (e : Entry) → IsEntryFor p e → EntryAdmits false e
unfolding entry_assign entry_remove entry_test entry_edge_assign EntryAdmits
IsEntryFor-EntryAdmits p e k = elim k [
  | inl (v, (x, h)) ↦ subst (EntryAdmits false) (sym h) (tt, tt)
  | inr (inl (v, n, h)) ↦ subst (EntryAdmits false) (sym h) (tt, tt)
  | inr (inr (inl (v, n, (x, h)))) ↦ subst (EntryAdmits false) (sym h) (tt, tt)
  | inr (inr (inr (ed, s, l, (x, h)))) ↦ subst (EntryAdmits false) (sym h) (tt, tt)
]

IsForOneOf-EntryAdmits :
    (ps : List (Prop Target)) (e : Entry) → IsForOneOf ps e → EntryAdmits false e
IsForOneOf-EntryAdmits [] e k = absurd k
IsForOneOf-EntryAdmits (p ∷ ps) e (inl k) = IsEntryFor-EntryAdmits p e k
IsForOneOf-EntryAdmits (p ∷ ps) e (inr k) = IsForOneOf-EntryAdmits ps e k

AllEntries-EntriesAdmit :
    (ps : List (Prop Target)) (es : Entries) → AllEntries (IsForOneOf ps) es → EntriesAdmit false es
unfolding EntriesAdmit
AllEntries-EntriesAdmit ps Entries.end k = tt
AllEntries-EntriesAdmit ps (Entries.cons e es) k =
    (IsForOneOf-EntryAdmits ps e k.0, AllEntries-EntriesAdmit ps es k.1)

converted-Admits :
    (ps : List (Prop Target)) (d : Delta)
    → AllEntries (IsForOneOf ps) (entries_of d)
    → Admits false d
unfolding Admits
converted-Admits ps (Delta.delta es) k = AllEntries-EntriesAdmit ps es k

-- If a request converts to a document and that compiles as it is to a plan, every prop that the plan
-- writes is neither immutable nor the version field, whatever the request carries.
pub from_patch_request-compile_normal :
    (L : Library) (e : Entity) (req : Request) (resolve : Option EdgeResolver) (d : Document)
    (plan : Plan)
    → from_patch_request L (some e) (some req) resolve ≡ ok (some d)
    → compile_normal L e d ≡ ok plan
    → All (λ w. IsWritable w.prop) plan.writes
from_patch_request-compile_normal L e req resolve d plan h k =
    run-IsWritable L e d plan
      (converted-Admits (patch_props e.props) d.delta
        (from_patch_request-IsConverted L e req resolve d h).2)
      (compile_normal-IsRun L e d plan k)
