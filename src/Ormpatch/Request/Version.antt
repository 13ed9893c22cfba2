-- ===== src/Ormpatch/Request/Version.antt =====
-- The version of a row in a PatchRequest (ormpatch/frompatchreq.go): the lock that a caller cannot
-- forget.
use protobuf_orm.Base.{
  ◌≡◌, ◌⊎◌, refl, sym, inl, inr, Bool, true, false, Option-cases, List, [], ◌∷◌, Option, none, some,
  subst,
}
use protobuf_orm.Base.Result.{ok, >>=-eq-ok, ok-injective}
use protobuf_orm.Proto.{FieldDescriptor}
use protobuf_orm.Graph.Prop.{Prop, descriptor, is_version}
use protobuf_orm.Graph.Entity.{Target, Entity}
use protobuf_orm.Graph.Patch.{force_flag, patch_flag_of, patch_props, patch_value_number}
use protobuf_orm.Ormpatch.Document.{Literal, Entries, Entry, Document}
use protobuf_orm.Ormpatch.Errors.{At}
use protobuf_orm.Ormpatch.Library.{Library}
use protobuf_orm.Ormpatch.Request.{
  Request, EdgeResolver, entry_test, request_value, version_entry, flag_entry, read_flag,
  request_has, prop_entry, cons_entry, prop_entries, document_of, from_patch_request,
}
use protobuf_orm.Ormpatch.Request.Compiled.{entries_of}

-- One of the list is the prop.
abbrev pub IsAmong : Prop Target → List (Prop Target) → Type 0
IsAmong p [] = ⊥
IsAmong p (q ∷ qs) = (q ≡ p) ⊎ IsAmong p qs

abbrev pub HasEntry : Entry → Entries → Type 0
HasEntry e Entries.end = ⊥
HasEntry e (Entries.cons x es) = (x ≡ e) ⊎ HasEntry e es

-- There is a document, and it has the entry.
abbrev pub Carries : Entry → Option Document → Type 0
Carries e none = ⊥
Carries e (some d) = HasEntry e (entries_of d.delta)

module _ (L : Library) (req : Request) where
  version_entry-eq-ok :
      (p : Prop Target) (vfd : FieldDescriptor) (at : At) (flag set : Bool) (o : Option Entry)
      → version_entry L req p vfd at flag set ≡ ok o
      → ((flag ≡ true) × (set ≡ false)) ⊎ ((v : Literal) × (o ≡ some (entry_test p v)))
  unfolding version_entry
  version_entry-eq-ok p vfd at false false o h = absurd (cc h)
  version_entry-eq-ok p vfd at false true o h =
      let (v, hv, he) = >>=-eq-ok (request_value L req vfd (descriptor p) at) _ h in
      inr (v, sym (ok-injective he))
  version_entry-eq-ok p vfd at true true o h = absurd (cc h)
  version_entry-eq-ok p vfd at true false o h = inl (refl, refl)

  pub patch_flag_of-version : (p : Prop Target) → is_version p ≡ true → patch_flag_of p ≡ force_flag
  unfolding patch_flag_of
  patch_flag_of-version p v = rw v refl

  prop_entry-version :
      (resolve : Option EdgeResolver) (p : Prop Target) (o : Option Entry)
      → is_version p ≡ true
      → prop_entry L req resolve p ≡ ok o
      → (read_flag L req p ≡ ok true) ⊎ ((v : Literal) × (o ≡ some (entry_test p v)))
  unfolding prop_entry flag_entry
  prop_entry-version resolve p o v h = elim (Option-cases (req.by_number (patch_value_number p))) [
    | inl n ↦ absurd (cc (rw (prop_entry, n) at h))
    | inr (vfd, n) ↦
        let (flag, hf, h1) = >>=-eq-ok (read_flag L req p) _ (rw (prop_entry, n) at h) in
        let (set, hs, h2) = >>=-eq-ok (request_has req vfd) _ h1 in
        elim (version_entry-eq-ok p vfd _ flag set o (rw (patch_flag_of-version p v) at h2)) [
          | inl (f, s) ↦ inl (subst (λ b. read_flag L req p ≡ ok b) f hf)
          | inr t ↦ inr t
        ]
  ]

  pub HasEntry-cons :
      (e : Entry) (o : Option Entry) (es : Entries) → HasEntry e es → HasEntry e (cons_entry L o es)
  HasEntry-cons e none es k = k
  HasEntry-cons e (some x) es k = inr k

  prop_entries-version :
      (resolve : Option EdgeResolver) (p : Prop Target) (ps : List (Prop Target)) (es : Entries)
      → is_version p ≡ true
      → IsAmong p ps
      → prop_entries L req resolve ps ≡ ok es
      → (read_flag L req p ≡ ok true) ⊎ ((v : Literal) × HasEntry (entry_test p v) es)
  unfolding prop_entries
  prop_entries-version resolve p [] es v among h = absurd among
  prop_entries-version resolve p (q ∷ qs) es v among h =
      let (o, ho, h1) = >>=-eq-ok (prop_entry L req resolve q) _ h in
      let (rest, hr, h2) = >>=-eq-ok (prop_entries L req resolve qs) _ h1 in
      let done : cons_entry L o rest ≡ es = ok-injective h2 in
      elim among [
        | inl same ↦
            elim (prop_entry-version resolve p o v
              (subst (λ x. prop_entry L req resolve x ≡ ok o) same ho)) [
                | inl f ↦ inl f
                | inr (x, s) ↦ inr (
                  x,
                  subst (HasEntry (entry_test p x)) done (
                      subst (λ k. HasEntry (entry_test p x) (cons_entry L k rest)) (sym s)
                        (inl refl)),
                )
              ]
        | inr later ↦ elim (prop_entries-version resolve p qs rest v later hr) [
          | inl f ↦ inl f
          | inr (x, k) ↦ inr (x, subst (HasEntry (entry_test p x)) done (HasEntry-cons _ o rest k))
        ]
      ]

pub document_of-Carries :
    (L : Library) (e : Entity) (x : Entry) (es : Entries)
    → HasEntry x es
    → Carries x (document_of L e es)
document_of-Carries L e x Entries.end k = absurd k
document_of-Carries L e x (Entries.cons y es) k = k

-- If the conversion of a request succeeds and the entity has a version field among the props that a
-- patch carries, either the request sets that field's `_force`, or the document that comes out tests
-- the version. So a request that does neither is refused, and one that does the latter stays a
-- compare-and-swap.
pub from_patch_request-version :
    (L : Library) (e : Entity) (req : Request) (resolve : Option EdgeResolver) (o : Option Document)
    (p : Prop Target)
    → is_version p ≡ true
    → IsAmong p (patch_props e.props)
    → from_patch_request L (some e) (some req) resolve ≡ ok o
    → (read_flag L req p ≡ ok true) ⊎ ((v : Literal) × Carries (entry_test p v) o)
unfolding from_patch_request
from_patch_request-version L e req resolve o p v among h =
    let (es, he, hd) = >>=-eq-ok (prop_entries L req resolve (patch_props e.props)) _ h in
    elim (prop_entries-version L req resolve p (patch_props e.props) es v among he) [
      | inl f ↦ inl f
      | inr (x, k) ↦
          inr
            (x, subst (Carries (entry_test p x)) (ok-injective hd) (document_of-Carries L e _ es k))
    ]
