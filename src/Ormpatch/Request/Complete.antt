-- ===== src/Ormpatch/Request/Complete.antt =====
-- That the conversion of a PatchRequest drops nothing that the request asks for
-- (ormpatch/frompatchreq.go).
use Prim.Native.String.{◌++◌ as join}
use protobuf_orm.Base.{
  ◌≡◌, ◌≢◌, ◌⊎◌, refl, sym, ◌∙◌, arith, inl, inr, Bool, true, false, Bool-cases, List, [], ◌∷◌,
  Option, none, some, subst,
}
use protobuf_orm.Base.Result.{ok, ◌>>=◌, >>=-eq-ok, ok-injective, if_err_else-eq-ok}
use protobuf_orm.Proto.{FieldDescriptor}
use protobuf_orm.Proto.Value.{Value}
use protobuf_orm.Graph.Prop.{Prop, field, edge, is_version}
use protobuf_orm.Graph.Entity.{Target, Entity}
use protobuf_orm.Graph.Patch.{
  PatchFlag, force_flag, null_flag, no_flag, is_no_flag, patch_flag_of, patch_props,
  patch_value_number,
}
use protobuf_orm.Ormpatch.Document.{Literal, Entries, Entry, Document}
use protobuf_orm.Ormpatch.Errors.{At, root}
use protobuf_orm.Ormpatch.Library.{Library}
use protobuf_orm.Ormpatch.Request.{
  Request, EdgeResolver, entry_assign, entry_remove, entry_edge_assign, message_of, guard_bytes,
  value_of, request_value, set_entry, flag_entry, read_flag, request_has, prop_entry, cons_entry,
  prop_entries, from_patch_request,
}
use protobuf_orm.Ormpatch.Request.Version.{
  IsAmong, HasEntry, Carries, HasEntry-cons, document_of-Carries,
}

-- the entry that assigns the value of a field, or the key of an edge's target
abbrev pub assigned : Prop Target → Literal → Entry
assigned (field f) v = entry_assign (field f) v
assigned (edge ed) v = entry_edge_assign ed ed.target.key v

-- where the value of a request's field stands
abbrev pub place : FieldDescriptor → At
place vfd = root (join "req." vfd.name)

module _ (L : Library) (req : Request) where
  -- The literal is what the request holds for the prop; for an edge, the key that its reference,
  -- which is a message, resolves to.
  abbrev pub Encodes : Option EdgeResolver → Prop Target → FieldDescriptor → Literal → Type 0
  Encodes resolve (field f) vfd v = request_value L req vfd f.source (place vfd) ≡ ok v
  Encodes resolve (edge ed) vfd v =
      (r : EdgeResolver) × (m : Value) × (kv : Value) × (resolve ≡ some r)
      × (message_of (req.get vfd.number) ≡ ok m)
      × (r ed m ≡ ok kv)
      × ((do
        kv' ← guard_bytes kv ed.target.key.source
        value_of L kv' ed.target.key.source (place vfd))
          ≡ ok v)

  pub set_entry-Encodes :
      (resolve : Option EdgeResolver) (p : Prop Target) (vfd : FieldDescriptor) (o : Option Entry)
      → set_entry L req resolve p vfd (place vfd) ≡ ok o
      → (v : Literal) × Encodes resolve p vfd v × (o ≡ some (assigned p v))
  unfolding set_entry
  set_entry-Encodes resolve (field f) vfd o h =
      let (v, hv, he) = >>=-eq-ok (request_value L req vfd f.source (place vfd)) _ h in
      (v, hv, sym (ok-injective he))
  set_entry-Encodes none (edge ed) vfd o h =
      absurd (cc ((if_err_else-eq-ok ed.source.is_list _ _ h).1))
  set_entry-Encodes (some r) (edge ed) vfd o h =
      let (l, h0) = if_err_else-eq-ok ed.source.is_list _ _ h in
      let (m, hm, h') = >>=-eq-ok (message_of (req.get vfd.number)) _ h0 in
      let (kv, hr, h1) = >>=-eq-ok (r ed m) _ h' in
      let (kv', hg, h2) = >>=-eq-ok (guard_bytes kv ed.target.key.source) _ h1 in
      let (v, hv, he) = >>=-eq-ok (value_of L kv' ed.target.key.source (place vfd)) _ h2 in
      (v, (r, m, kv, refl, hm, hr, rw hg hv), sym (ok-injective he))

module _ (L : Library) (req : Request) (resolve : Option EdgeResolver) where
  pub flag_entry-set :
      (k : PatchFlag) (p : Prop Target) (vfd : FieldDescriptor) (at : At)
      → k ≢ force_flag
      → flag_entry L k req resolve p vfd at false true ≡ set_entry L req resolve p vfd at
  unfolding flag_entry
  flag_entry-set force_flag p vfd at h = absurd (h refl)
  flag_entry-set null_flag p vfd at h = refl
  flag_entry-set no_flag p vfd at h = refl

  pub flag_entry-null :
      (k : PatchFlag) (p : Prop Target) (vfd : FieldDescriptor) (at : At) (set : Bool)
      → k ≢ force_flag
      → is_no_flag k ≡ false
      → flag_entry L k req resolve p vfd at true set ≡ ok (some (entry_remove p))
  unfolding flag_entry
  flag_entry-null force_flag p vfd at set h n = absurd (h refl)
  flag_entry-null null_flag p vfd at set h n = refl
  flag_entry-null no_flag p vfd at set h n = absurd (cc n)

  pub patch_flag_of-unforced :
      (p : Prop Target) → is_version p ≡ false → patch_flag_of p ≢ force_flag
  unfolding patch_flag_of
  patch_flag_of-unforced p v h = ground arith

  pub read_flag-flagged :
      (p : Prop Target) → read_flag L req p ≡ ok true → is_no_flag (patch_flag_of p) ≡ false
  unfolding read_flag
  read_flag-flagged p h = elim (Bool-cases (is_no_flag (patch_flag_of p))) [
    | inl e ↦ absurd (cc (rw (read_flag, e) at h))
    | inr e ↦ e
  ]

  -- What one prop asks for.
  abbrev pub Asks : Prop Target → FieldDescriptor → Bool → (Entry → Type 0) → Type 0
  Asks p vfd flag Has =
      ((flag ≡ true) × Has (entry_remove p))
      ⊎ ((flag ≡ false) × ((v : Literal) × Encodes L req resolve p vfd v × Has (assigned p v)))

  prop_entry-Asks :
      (p : Prop Target) (vfd : FieldDescriptor) (flag set : Bool) (o : Option Entry)
      → is_version p ≡ false
      → req.by_number (patch_value_number p) ≡ some vfd
      → read_flag L req p ≡ ok flag
      → request_has req vfd ≡ ok set
      → (flag ≡ true) ⊎ (set ≡ true)
      → prop_entry L req resolve p ≡ ok o
      → Asks p vfd flag (λ e. o ≡ some e)
  unfolding prop_entry
  prop_entry-Asks p vfd true set o v n f s a h =
      let u = patch_flag_of-unforced p v in
      let h' : flag_entry L (patch_flag_of p) req resolve p vfd (place vfd) true set ≡ ok o =
        rw (prop_entry, n, f, s) at h in
      inl (
        refl,
        ok-injective (
            sym h'
            ∙ flag_entry-null (patch_flag_of p) p vfd (place vfd) set u (read_flag-flagged p f)),
      )
  prop_entry-Asks p vfd false true o v n f s a h =
      let u = patch_flag_of-unforced p v in
      let h' : flag_entry L (patch_flag_of p) req resolve p vfd (place vfd) false true ≡ ok o =
        rw (prop_entry, n, f, s) at h in
      inr (
        refl,
        set_entry-Encodes L req resolve p vfd o
            (sym (flag_entry-set (patch_flag_of p) p vfd (place vfd) u) ∙ h'),
      )
  prop_entry-Asks p vfd false false o v n f s a h = absurd (ground (arith, a))

  prop_entries-HasEntry :
      (p : Prop Target) (ps : List (Prop Target)) (es : Entries)
      → IsAmong p ps
      → prop_entries L req resolve ps ≡ ok es
      → (o : Option Entry) × (prop_entry L req resolve p ≡ ok o)
        × ((e : Entry) → o ≡ some e → HasEntry e es)
  unfolding prop_entries
  prop_entries-HasEntry p [] es among h = absurd among
  prop_entries-HasEntry p (q ∷ qs) es among h =
      let (o, ho, h1) = >>=-eq-ok (prop_entry L req resolve q) _ h in
      let (rest, hr, h2) = >>=-eq-ok (prop_entries L req resolve qs) _ h1 in
      let done : cons_entry L o rest ≡ es = ok-injective h2 in
      elim among [
        | inl same ↦ (
          o,
          subst (λ x. prop_entry L req resolve x ≡ ok o) same ho,
          λ e s.
              subst (HasEntry e) done
                (subst (λ k. HasEntry e (cons_entry L k rest)) (sym s) (inl refl)),
        )
        | inr later ↦
            let (o', ho', k) = prop_entries-HasEntry p qs rest later hr in
            (o', ho', λ e s. subst (HasEntry e) done (HasEntry-cons L req e o rest (k e s)))
      ]

  -- If the conversion of a request succeeds, no prop that a patch carries is dropped. Of one that is
  -- not the version, whose `_null` is set or whose value the request has, the document that comes
  -- out has an entry: where `_null` is set, the removal of the prop, and otherwise the assignment of
  -- the literal that the request's value is encoded as; of an edge, that of the key which its
  -- reference resolves to.
  pub from_patch_request-Asks :
      (e : Entity) (o : Option Document) (p : Prop Target) (vfd : FieldDescriptor) (flag set : Bool)
      → is_version p ≡ false
      → IsAmong p (patch_props e.props)
      → req.by_number (patch_value_number p) ≡ some vfd
      → read_flag L req p ≡ ok flag
      → request_has req vfd ≡ ok set
      → (flag ≡ true) ⊎ (set ≡ true)
      → from_patch_request L (some e) (some req) resolve ≡ ok o
      → Asks p vfd flag (λ x. Carries x o)
  unfolding from_patch_request
  from_patch_request-Asks e o p vfd flag set v among n f s a h =
      let (es, he, hd) = >>=-eq-ok (prop_entries L req resolve (patch_props e.props)) _ h in
      let (x, hx, k) = prop_entries-HasEntry p (patch_props e.props) es among he in
      let carried : (y : Entry) → x ≡ some y → Carries y o =
        λ y same. subst (Carries y) (ok-injective hd) (document_of-Carries L e y es (k y same)) in
      elim (prop_entry-Asks p vfd flag set x v n f s a hx) [
        | inl (t, r) ↦ inl (t, carried _ r)
        | inr (t, (l, c, r)) ↦ inr (t, (l, c, carried _ r))
      ]
