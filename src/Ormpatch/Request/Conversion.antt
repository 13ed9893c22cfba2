-- ===== src/Ormpatch/Request/Conversion.antt =====
-- What a converted PatchRequest asks for (ormpatch/frompatchreq.go).
use protobuf_orm.Base.{
  ◌≡◌, ◌⊎◌, refl, sym, inl, inr, arith, Bool, true, false, Option-cases, List, [], ◌∷◌, Option,
  none, some, some-injective, subst,
}
use protobuf_orm.Base.Result.{Result, ok, >>=-eq-ok, ok-injective, if_err_else-eq-ok}
use protobuf_orm.Proto.{FieldDescriptor}
use protobuf_orm.Graph.Prop.{Prop, Edge, field, edge, descriptor, is_version, is_nullable, is_edge}
use protobuf_orm.Graph.Entity.{Target}
use protobuf_orm.Graph.Patch.{PatchFlag, force_flag, null_flag, patch_flag_of, patch_value_number}
use protobuf_orm.Ormpatch.Document.{Literal, Entries, Entry}
use protobuf_orm.Ormpatch.Errors.{At, Error}
use protobuf_orm.Ormpatch.Library.{Library}
use protobuf_orm.Ormpatch.Request.{
  Request, EdgeResolver, entry_assign, entry_remove, entry_test, entry_edge_assign, request_value,
  message_of, guard_bytes, value_of, version_entry, set_entry, flag_entry, read_flag, request_has,
  prop_entry, cons_entry, prop_entries,
}

-- The entry is one that a request may carry for the prop: a test of its value at the version field
-- and nothing else there; the removal of a nullable prop; the assignment of a field; and that of
-- the target's key through an edge which is not repeated.
abbrev pub IsEntryFor : Prop Target → Entry → Type 0
IsEntryFor p e =
    ((is_version p ≡ true) × ((v : Literal) × (e ≡ entry_test p v)))
    ⊎ ((is_version p ≡ false) × (is_nullable p ≡ true) × (e ≡ entry_remove p))
    ⊎ ((is_version p ≡ false) × (is_edge p ≡ false) × ((v : Literal) × (e ≡ entry_assign p v)))
    ⊎ ((ed : Edge Target) × (p ≡ edge ed)
        × (ed.source.is_list ≡ false)
        × ((v : Literal) × (e ≡ entry_edge_assign ed ed.target.key v)))

-- The entry is for one of the props.
abbrev pub IsForOneOf : List (Prop Target) → Entry → Type 0
IsForOneOf [] e = ⊥
IsForOneOf (p ∷ ps) e = IsEntryFor p e ⊎ IsForOneOf ps e

abbrev pub AllEntries : (Entry → Type 0) → Entries → Type 0
AllEntries P Entries.end = Unit
AllEntries P (Entries.cons e es) = P e × AllEntries P es

pub entry_is :
    {a e : Entry} → ◌≡◌ {A = Result Error (Option Entry)} (ok (some a)) (ok (some e)) → e ≡ a
entry_is h = sym (some-injective (ok-injective h))

module _ (L : Library) (req : Request) where
  set_entry-IsEntryFor :
      (resolve : Option EdgeResolver) (p : Prop Target) (vfd : FieldDescriptor) (at : At)
      (e : Entry)
      → is_version p ≡ false
      → set_entry L req resolve p vfd at ≡ ok (some e)
      → IsEntryFor p e
  unfolding set_entry
  set_entry-IsEntryFor resolve (field f) vfd at e v h =
      let (x, hx, he) = >>=-eq-ok (request_value L req vfd f.source at) _ h in
      inr (inr (inl (v, refl, (x, entry_is he))))
  set_entry-IsEntryFor none (edge ed) vfd at e v h =
      absurd (cc ((if_err_else-eq-ok ed.source.is_list _ _ h).1))
  set_entry-IsEntryFor (some r) (edge ed) vfd at e v h =
      let (l, h0) = if_err_else-eq-ok ed.source.is_list _ _ h in
      let (m, hm, h') = >>=-eq-ok (message_of (req.get vfd.number)) _ h0 in
      let (kv, hr, h1) = >>=-eq-ok (r ed m) _ h' in
      let (kv', hg, h2) = >>=-eq-ok (guard_bytes kv ed.target.key.source) _ h1 in
      let (x, hv, he) = >>=-eq-ok (value_of L kv' ed.target.key.source at) _ h2 in
      inr (inr (inr (ed, refl, l, (x, entry_is he))))

  version_entry-IsEntryFor :
      (p : Prop Target) (vfd : FieldDescriptor) (at : At) (flag set : Bool) (e : Entry)
      → is_version p ≡ true
      → version_entry L req p vfd at flag set ≡ ok (some e)
      → IsEntryFor p e
  unfolding version_entry
  version_entry-IsEntryFor p vfd at false true e v h =
      let (x, hx, he) = >>=-eq-ok (request_value L req vfd (descriptor p) at) _ h in
      inl (v, (x, entry_is he))
  version_entry-IsEntryFor p vfd at false false e v h = absurd (cc h)
  version_entry-IsEntryFor p vfd at true true e v h = absurd (cc h)
  version_entry-IsEntryFor p vfd at true false e v h = absurd (cc h)

  flag_entry-IsEntryFor :
      (resolve : Option EdgeResolver) (k : PatchFlag) (p : Prop Target) (vfd : FieldDescriptor)
      (at : At) (flag set : Bool) (e : Entry)
      → patch_flag_of p ≡ k
      → flag_entry L k req resolve p vfd at flag set ≡ ok (some e)
      → IsEntryFor p e
  unfolding flag_entry patch_flag_of
  flag_entry-IsEntryFor resolve force_flag p vfd at flag set e k h =
      version_entry-IsEntryFor p vfd at flag set e (ground arith) h
  flag_entry-IsEntryFor resolve null_flag p vfd at true set e k h =
      inr (inl (ground arith, ground arith, entry_is h))
  flag_entry-IsEntryFor resolve _ p vfd at flag true e k h =
      set_entry-IsEntryFor resolve p vfd at e (ground arith) h
  flag_entry-IsEntryFor resolve _ p vfd at flag false e k h = absurd (cc h)

  pub prop_entry-IsEntryFor :
      (resolve : Option EdgeResolver) (p : Prop Target) (e : Entry)
      → prop_entry L req resolve p ≡ ok (some e)
      → IsEntryFor p e
  unfolding prop_entry
  prop_entry-IsEntryFor resolve p e h = elim (Option-cases (req.by_number (patch_value_number p))) [
    | inl n ↦ absurd (cc (rw (prop_entry, n) at h))
    | inr (vfd, n) ↦
        let (flag, hf, h1) = >>=-eq-ok (read_flag L req p) _ (rw (prop_entry, n) at h) in
        let (set, hs, h2) = >>=-eq-ok (request_has req vfd) _ h1 in
        flag_entry-IsEntryFor resolve (patch_flag_of p) p vfd _ flag set e refl h2
  ]

  cons_entry-All :
      (P : Entry → Type 0) (o : Option Entry) (es : Entries)
      → ((e : Entry) → o ≡ some e → P e)
      → AllEntries P es
      → AllEntries P (cons_entry L o es)
  cons_entry-All P none es h k = k
  cons_entry-All P (some e) es h k = (h e refl, k)

  pub prop_entries-All :
      (resolve : Option EdgeResolver) (P : Entry → Type 0) (ps : List (Prop Target)) (es : Entries)
      → ((e : Entry) → IsForOneOf ps e → P e)
      → prop_entries L req resolve ps ≡ ok es
      → AllEntries P es
  unfolding prop_entries
  prop_entries-All resolve P [] es k h = subst (AllEntries P) (ok-injective h) tt
  prop_entries-All resolve P (p ∷ ps) es k h =
      let (o, ho, h1) = >>=-eq-ok (prop_entry L req resolve p) _ h in
      let (rest, hr, h2) = >>=-eq-ok (prop_entries L req resolve ps) _ h1 in
      subst (AllEntries P) (ok-injective h2) (
        cons_entry-All P o rest (λ e s. k e (inl (prop_entry-IsEntryFor resolve p e (rw s at ho))))
          (prop_entries-All resolve P ps rest (λ e i. k e (inr i)) hr))
