-- ===== src/Ormpatch/Compile/Scopes.antt =====
-- Documents by the scope of their entries (ormpatch/compile.go, `entry`).
use protobuf_orm.Base.{◌≡◌, refl, Bool, true}
use protobuf_orm.Ormpatch.Document.{Scope, Operation, Delta, Entries, Entry}

-- `allowed` says whether an entry may address a container as a whole.
abbrev pub ScopeAdmits : Bool → Scope → Type 0
ScopeAdmits allowed Scope.container = allowed ≡ true
ScopeAdmits allowed _ = Unit

unfoldable mutual
  pub Admits : Bool → Delta → Type 0
  Admits allowed (Delta.delta es) = EntriesAdmit allowed es

  pub EntriesAdmit : Bool → Entries → Type 0
  EntriesAdmit allowed Entries.end = Unit
  EntriesAdmit allowed (Entries.cons e es) = EntryAdmits allowed e × EntriesAdmit allowed es

  pub EntryAdmits : Bool → Entry → Type 0
  EntryAdmits allowed (Entry.entry path scope miss op) =
      ScopeAdmits allowed scope × OperationAdmits allowed op

  pub OperationAdmits : Bool → Operation → Type 0
  OperationAdmits allowed (Operation.nest d) = Admits allowed d
  OperationAdmits allowed _ = Unit

mutual
  unfolding Admits

  pub Admits-true : (d : Delta) → Admits true d
  Admits-true (Delta.delta es) = EntriesAdmit-true es

  EntriesAdmit-true : (es : Entries) → EntriesAdmit true es
  EntriesAdmit-true Entries.end = tt
  EntriesAdmit-true (Entries.cons e es) = (EntryAdmits-true e, EntriesAdmit-true es)

  EntryAdmits-true : (e : Entry) → EntryAdmits true e
  EntryAdmits-true (Entry.entry path Scope.container miss op) = (refl, OperationAdmits-true op)
  EntryAdmits-true (Entry.entry path _ miss op) = (tt, OperationAdmits-true op)

  OperationAdmits-true : (op : Operation) → OperationAdmits true op
  OperationAdmits-true (Operation.nest d) = Admits-true d
  OperationAdmits-true _ = tt
