-- ===== src/Ormpatch/Request/Accepted.antt =====
-- Which requests the conversion of a PatchRequest accepts (ormpatch/frompatchreq.go).
use protobuf_orm.Base.{
  ◌≡◌, ◌≢◌, ◌↔◌, ◌⊎◌, refl, sym, ◌∙◌, inl, inr, Bool, true, false, Bool-cases, List, [], ◌∷◌, All,
  Option, Option-cases, none, some,
}
use protobuf_orm.Base.Result.{Result, ok, >>=-eq-ok, if_err_else-eq-ok}
use protobuf_orm.Proto.{FieldDescriptor}
use protobuf_orm.Graph.Prop.{Prop, field, edge, is_version, descriptor}
use protobuf_orm.Graph.Entity.{Target, Entity}
use protobuf_orm.Graph.Patch.{
  PatchFlag, force_flag, null_flag, no_flag, patch_flag_of, patch_props, patch_value_number,
}
use protobuf_orm.Ormpatch.Document.{Literal, Entries, Entry}
use protobuf_orm.Ormpatch.Errors.{Error}
use protobuf_orm.Ormpatch.Library.{Library}
use protobuf_orm.Ormpatch.Request.{
  Request, EdgeResolver, entry_test, entry_edge_assign, prop_key, guard_bytes, request_value,
  version_entry, set_entry, flag_entry, read_flag, request_has, prop_entry, cons_entry,
  prop_entries, document_of, from_patch_request,
}
use protobuf_orm.Ormpatch.Request.Version.{patch_flag_of-version}
use protobuf_orm.Ormpatch.Request.Complete.{
  Encodes, assigned, place, set_entry-Encodes, flag_entry-set, flag_entry-null,
  patch_flag_of-unforced, read_flag-flagged,
}

-- The call succeeds.
abbrev pub Succeeds : {A : Type 0} → Result Error A → Type 0
Succeeds {A} r = (a : A) × (r ≡ ok a)

-- The prop is no repeated edge.
abbrev pub IsSingleEdge : Prop Target → Type 0
IsSingleEdge (field f) = Unit
IsSingleEdge (edge ed) = ed.source.is_list ≡ false

module _ (L : Library) (req : Request) (resolve : Option EdgeResolver) where
  -- What the request may say of the version: it is forced and has no value, or it is not and has one
  -- that can be encoded.
  abbrev pub AllowsVersion : Prop Target → FieldDescriptor → Bool → Bool → Type 0
  AllowsVersion p vfd flag set =
      ((flag ≡ true) × (set ≡ false))
      ⊎ ((flag ≡ false)
          × (set ≡ true)
          × Succeeds (request_value L req vfd (descriptor p) (place vfd)))

  -- What it may say of another prop: it is to be cleared, or it is left alone, or it has a value that
  -- can be encoded, of an edge that is not repeated the key which its reference resolves to.
  abbrev pub AllowsValue : Prop Target → FieldDescriptor → Bool → Bool → Type 0
  AllowsValue p vfd flag set =
      (flag ≡ true)
      ⊎ ((flag ≡ false) × (set ≡ false))
      ⊎ ((flag ≡ false)
          × (set ≡ true)
          × IsSingleEdge p
          × ((v : Literal) × Encodes L req resolve p vfd v))

  -- The request declares the slots of the prop, and what they say of it is allowed.
  abbrev pub Allows : Prop Target → Type 0
  Allows p =
      (vfd : FieldDescriptor) × (flag : Bool) × (set : Bool) × (req.by_number (patch_value_number p)
        ≡ some vfd)
      × (read_flag L req p ≡ ok flag)
      × (request_has req vfd ≡ ok set)
      × (((is_version p ≡ true) × AllowsVersion p vfd flag set)
          ⊎ ((is_version p ≡ false) × AllowsValue p vfd flag set))

  set_entry-IsSingleEdge :
      (p : Prop Target) (vfd : FieldDescriptor) (o : Option Entry)
      → set_entry L req resolve p vfd (place vfd) ≡ ok o
      → IsSingleEdge p
  unfolding set_entry
  set_entry-IsSingleEdge (field f) vfd o h = tt
  set_entry-IsSingleEdge (edge ed) vfd o h = (if_err_else-eq-ok ed.source.is_list _ _ h).0

  set_entry-Succeeds :
      (p : Prop Target) (vfd : FieldDescriptor) (v : Literal)
      → IsSingleEdge p
      → Encodes L req resolve p vfd v
      → Succeeds (set_entry L req resolve p vfd (place vfd))
  unfolding set_entry entry_edge_assign prop_key
  set_entry-Succeeds (field f) vfd v s h = (some (assigned (field f) v), rw h refl)
  set_entry-Succeeds (edge ed) vfd v s (r, m, kv, given, hm, hr, hv) =
      let (kv', hg, hl) = >>=-eq-ok (guard_bytes kv ed.target.key.source) _ hv in
      (some (assigned (edge ed) v), rw (s, given, hm, hr, hg, hl) refl)

  version_entry-Allows :
      (p : Prop Target) (vfd : FieldDescriptor) (flag set : Bool) (o : Option Entry)
      → version_entry L req p vfd (place vfd) flag set ≡ ok o
      → AllowsVersion p vfd flag set
  unfolding version_entry
  version_entry-Allows p vfd false false o h = absurd (cc h)
  version_entry-Allows p vfd false true o h =
      let (v, hv, he) = >>=-eq-ok (request_value L req vfd (descriptor p) (place vfd)) _ h in
      inr (refl, refl, (v, hv))
  version_entry-Allows p vfd true true o h = absurd (cc h)
  version_entry-Allows p vfd true false o h = inl (refl, refl)

  version_entry-Succeeds :
      (p : Prop Target) (vfd : FieldDescriptor) (flag set : Bool)
      → AllowsVersion p vfd flag set
      → Succeeds (version_entry L req p vfd (place vfd) flag set)
  unfolding version_entry
  version_entry-Succeeds p vfd false false (inl h) = absurd (cc (h.0))
  version_entry-Succeeds p vfd false false (inr h) = absurd (cc (h.1))
  version_entry-Succeeds p vfd false true (inl h) = absurd (cc (h.0))
  version_entry-Succeeds p vfd false true (inr (f, s, (v, h))) = (some (entry_test p v), rw h refl)
  version_entry-Succeeds p vfd true true (inl h) = absurd (cc (h.1))
  version_entry-Succeeds p vfd true true (inr h) = absurd (cc (h.0))
  version_entry-Succeeds p vfd true false h = (none, refl)

  flag_entry-unset :
      (k : PatchFlag) (p : Prop Target) (vfd : FieldDescriptor)
      → k ≢ force_flag
      → flag_entry L k req resolve p vfd (place vfd) false false ≡ ok none
  unfolding flag_entry
  flag_entry-unset force_flag p vfd h = absurd (h refl)
  flag_entry-unset null_flag p vfd h = refl
  flag_entry-unset no_flag p vfd h = refl

  flag_entry-Allows :
      (p : Prop Target) (vfd : FieldDescriptor) (flag set : Bool) (o : Option Entry)
      → is_version p ≡ false
      → flag_entry L (patch_flag_of p) req resolve p vfd (place vfd) flag set ≡ ok o
      → AllowsValue p vfd flag set
  flag_entry-Allows p vfd true set o u h = inl refl
  flag_entry-Allows p vfd false false o u h = inr (inl (refl, refl))
  flag_entry-Allows p vfd false true o u h =
      let k = patch_flag_of-unforced L req resolve p u in
      let h' = sym (flag_entry-set L req resolve (patch_flag_of p) p vfd (place vfd) k) ∙ h in
      let (v, c, same) = set_entry-Encodes L req resolve p vfd o h' in
      inr (inr (refl, refl, set_entry-IsSingleEdge p vfd o h', (v, c)))

  flag_entry-Succeeds :
      (p : Prop Target) (vfd : FieldDescriptor) (flag set : Bool)
      → is_version p ≡ false
      → read_flag L req p ≡ ok flag
      → AllowsValue p vfd flag set
      → Succeeds (flag_entry L (patch_flag_of p) req resolve p vfd (place vfd) flag set)
  flag_entry-Succeeds p vfd true set u f h =
      let k = patch_flag_of-unforced L req resolve p u in
      (
        _,
        flag_entry-null L req resolve (patch_flag_of p) p vfd (place vfd) set k
            (read_flag-flagged L req resolve p f),
      )
  flag_entry-Succeeds p vfd false false u f h =
      (none, flag_entry-unset (patch_flag_of p) p vfd (patch_flag_of-unforced L req resolve p u))
  flag_entry-Succeeds p vfd false true u f (inl h) = absurd (cc h)
  flag_entry-Succeeds p vfd false true u f (inr (inl h)) = absurd (cc (h.1))
  flag_entry-Succeeds p vfd false true u f (inr (inr (x, y, s, (v, c)))) =
      let k = patch_flag_of-unforced L req resolve p u in
      let (o, e) = set_entry-Succeeds p vfd v s c in
      (o, flag_entry-set L req resolve (patch_flag_of p) p vfd (place vfd) k ∙ e)

  prop_entry-Allows :
      (p : Prop Target) (o : Option Entry) → prop_entry L req resolve p ≡ ok o → Allows p
  unfolding prop_entry flag_entry
  prop_entry-Allows p o h = elim (Option-cases (req.by_number (patch_value_number p))) [
    | inl n ↦ absurd (cc (rw (prop_entry, n) at h))
    | inr (vfd, n) ↦
        let (flag, hf, h1) = >>=-eq-ok (read_flag L req p) _ (rw (prop_entry, n) at h) in
        let (set, hs, h2) = >>=-eq-ok (request_has req vfd) _ h1 in
        elim (Bool-cases (is_version p)) [
          | inl v ↦
              let h3 = rw (patch_flag_of-version L req p v) at h2 in
              (vfd, flag, set, n, hf, hs, inl (v, version_entry-Allows p vfd flag set o h3))
          | inr v ↦ (vfd, flag, set, n, hf, hs, inr (v, flag_entry-Allows p vfd flag set o v h2))
        ]
  ]

  prop_entry-Succeeds : (p : Prop Target) → Allows p → Succeeds (prop_entry L req resolve p)
  unfolding prop_entry flag_entry
  prop_entry-Succeeds p (vfd, flag, set, n, f, s, inl (v, h)) =
      let (o, e) = version_entry-Succeeds p vfd flag set h in
      (o, rw (prop_entry, n, f, s, patch_flag_of-version L req p v) e)
  prop_entry-Succeeds p (vfd, flag, set, n, f, s, inr (v, h)) =
      let (o, e) = flag_entry-Succeeds p vfd flag set v f h in (o, rw (prop_entry, n, f, s) e)

  prop_entries-Allows :
      (ps : List (Prop Target)) (es : Entries)
      → prop_entries L req resolve ps ≡ ok es
      → All Allows ps
  unfolding prop_entries
  prop_entries-Allows [] es h = tt
  prop_entries-Allows (p ∷ ps) es h =
      let (o, ho, h1) = >>=-eq-ok (prop_entry L req resolve p) _ h in
      let (rest, hr, h2) = >>=-eq-ok (prop_entries L req resolve ps) _ h1 in
      (prop_entry-Allows p o ho, prop_entries-Allows ps rest hr)

  prop_entries-Succeeds :
      (ps : List (Prop Target)) → All Allows ps → Succeeds (prop_entries L req resolve ps)
  unfolding prop_entries
  prop_entries-Succeeds [] h = (Entries.end, refl)
  prop_entries-Succeeds (p ∷ ps) h =
      let (o, e) = prop_entry-Succeeds p h.0 in
      let (es, k) = prop_entries-Succeeds ps h.1 in (cons_entry L o es, rw (e, k) refl)

  -- FromPatchRequest answers, a document or none, exactly when of every prop that a patch carries the
  -- request declares the slots and says what is allowed. Of the version: `_force` without a value, or
  -- a value that can be encoded without `_force`. Of another prop: `_null`, whatever its value, or no
  -- value, or a value that can be encoded; of an edge, one that is not repeated and whose reference
  -- the resolver turns into a key that can be encoded.
  pub from_patch_request_iff :
      (e : Entity)
      → Succeeds (from_patch_request L (some e) (some req) resolve)
        ↔ All Allows (patch_props e.props)
  unfolding from_patch_request
  from_patch_request_iff e = (
    λ (o, h).
        let (es, he, hd) = >>=-eq-ok (prop_entries L req resolve (patch_props e.props)) _ h in
        prop_entries-Allows (patch_props e.props) es he,
    λ h.
        let (es, k) = prop_entries-Succeeds (patch_props e.props) h in
        (document_of L e es, rw k refl),
  )
