-- ===== src/Graph/Parser/Accepted.antt =====
-- What parseEntity makes of an entity whose props are parsed (graph/entity.go).
use protobuf_orm.Base.{
  cons-injective, ℕ, ◌==◌, ==_refl, ==_iff, ◌≤◌, ◌<◌, ◌≡◌, ◌≢◌, refl, sym, ap, ◌∙◌, subst, inl, inr,
  Bool, true, Bool-cases, List, [], ◌∷◌, map, All, length, some, arith,
}
use protobuf_orm.Base.Result.{Result, ok, err, >>=-eq-ok, ok-injective}
use protobuf_orm.Ormpb.Options.{MessageOptions}
use protobuf_orm.Graph.Prop.{Field, Prop, field, edge, is_version_field, is_erased_field}
use protobuf_orm.Graph.Entity.{fields, edges}
use protobuf_orm.Graph.Rpc.{FullNames}
use protobuf_orm.Graph.Parse.{FieldsError, check_fields, commit_key, is_key_field}
use protobuf_orm.Graph.Parse.Entity.{pick, check_fields-eq-ok}
use protobuf_orm.Graph.Store.{Message, Object, Store, write_object}
use protobuf_orm.Graph.Store.Complete.{
  targets, HasKey, write_object-Besides, IsListed, IsComplete, IsNamed, IsListed-Besides,
  All-IsListed-Besides, IsComplete-Besides,
}
use protobuf_orm.Graph.Parser.Links.{run_links-SameCores, SameCores-Besides}
use protobuf_orm.Graph.Parser.Progress.{InProgress, IsNamed-Besides}
use protobuf_orm.Graph.Failure.{unless_failed}
use protobuf_orm.Graph.Finish.{
  Link, run_links, commit_prop, fields_outcome, parse_indexes, link_edges, accept_entity,
}

fields-commit_prop : (ps : List (Prop ℕ)) → fields (map commit_prop ps) ≡ map commit_key (fields ps)
unfolding fields
fields-commit_prop [] = refl
fields-commit_prop (field f ∷ ps) = ap (λ fs. commit_key f ∷ fs) (fields-commit_prop ps)
fields-commit_prop (edge e ∷ ps) = fields-commit_prop ps

targets-commit_prop : (ps : List (Prop ℕ)) → targets (map commit_prop ps) ≡ targets ps
targets-commit_prop [] = refl
targets-commit_prop (field f ∷ ps) = targets-commit_prop ps
targets-commit_prop (edge e ∷ ps) = ap (λ ts. e.target ∷ ts) (targets-commit_prop ps)

pick-map :
    (is : Field → Bool) (g : Field → Field) (fs : List Field)
    → ((f : Field) → is (g f) ≡ is f)
    → pick is (map g fs) ≡ map g (pick is fs)
pick-map is g [] h = refl
pick-map is g (f ∷ fs) h = elim (Bool-cases (is f)) [
  | inl e ↦ rw (h f, e) (ap (λ xs. g f ∷ xs) (pick-map is g fs h))
  | inr e ↦ rw (h f, e) (pick-map is g fs h)
]

pub pick-only :
    (is : Field → Bool) (fs : List Field) (k : Field) → pick is fs ≡ k ∷ [] → is k ≡ true
pick-only is [] k h = absurd (cc h)
pick-only is (f ∷ fs) k h = elim (Bool-cases (is f)) [
  | inl e ↦ subst (λ x. is x ≡ true) (cons-injective (rw e at h)) e
  | inr e ↦ pick-only is fs k (rw e at h)
]

length-map_fields : (g : Field → Field) (fs : List Field) → length (map g fs) ≡ length fs
length-map_fields g [] = refl
length-map_fields g (f ∷ fs) = omega (arith, length-map_fields g fs)

commit_key-marks :
    (is : Field → Bool)
    → ((f : Field) → is_key_field f ≡ true → is (commit_key f) ≡ is f)
    → (f : Field) → is (commit_key f) ≡ is f
commit_key-marks is h f = elim (Bool-cases (is_key_field f)) [ inl e ↦ h f e | inr e ↦ rw e refl ]

-- The commit on the key leaves the fields with the key that the checks found.
check_fields-HasKey :
    (fs : List Field) (k : Field)
    → check_fields fs ≡ ok k
    → HasKey (some k.source.number) (map commit_key fs)
check_fields-HasKey fs k h =
    let (only, ready, versions, erased) = check_fields-eq-ok fs k h in
    let marked = pick-only is_key_field fs k only in
    record {
      k = commit_key k;
      only =
          pick-map is_key_field commit_key fs (commit_key-marks is_key_field (λ f e. rw e e))
          ∙ ap (map commit_key) only;
      points = rw marked refl;
      unique = rw marked refl;
      immutable = rw marked refl;
      one_version =
          rw
            (
              pick-map is_version_field commit_key fs
                  (commit_key-marks is_version_field (λ f e. rw e refl)),
              length-map_fields commit_key (pick is_version_field fs),
            )
            versions;
      one_erased =
          rw
            (
              pick-map is_erased_field commit_key fs
                  (commit_key-marks is_erased_field (λ f e. rw e refl)),
              length-map_fields commit_key (pick is_erased_field fs),
            )
            erased;
    }

-- What the entity is made, with the links that are then run.
linked-IsComplete :
    (v : ℕ) (s : Store) (done : Object) (links : List Link)
    → done.full_name ≡ (s.cell v).full_name
    → HasKey done.key (fields done.props)
    → targets done.props ≡ targets (s.cell v).props
    → InProgress v s
    → IsListed s v
    → let x = run_links v links (write_object v done s) in
      IsNamed x × ((a : ℕ) → v ≤ a → a < x.next → IsComplete x a)
linked-IsComplete v s done links same key closed progress listed =
    let s2 = write_object v done s in
    let x = run_links v links s2 in
    let b = write_object-Besides v done s same in
    let c = run_links-SameCores v links s2 in
    let d = SameCores-Besides s2.next s2 x c in
    let named2 = IsNamed-Besides v s s2 b (unfold write_object in refl) progress.named in
    let written : s2.cell v ≡ done = unfold write_object in rw (==_refl v) refl in
    let complete_v : IsComplete s2 v = (
      subst (λ o. HasKey o.key (fields o.props)) (sym written) key,
      subst (λ o. All (IsListed s2) (targets o.props)) (sym written)
          (subst (All (IsListed s2)) (sym closed)
            (All-IsListed-Besides v s s2 (targets (s.cell v).props) b progress.closed)),
      IsListed-Besides v s s2 v b listed,
    ) in
    let complete2 : (a : ℕ) → v ≤ a → a < s2.next → IsComplete s2 a = λ a h k.
      elim (Bool-cases (v == a)) [
        | inl e ↦ subst (IsComplete s2) ((==_iff v a).0 e) complete_v
        | inr e ↦
            let apart : a ≢ v = λ q. absurd (cc (e, ==_refl v, q)) in
            IsComplete-Besides v s s2 a b apart
              (progress.complete a (omega (arith, h, apart)) (unfold write_object in k))
      ] in
    (
      IsNamed-Besides s2.next s2 x d c.names named2,
      λ a h k.
          let k2 : a < s2.next = omega (arith, k, c.size) in
          IsComplete-Besides s2.next s2 x a d (λ e. absurd (omega (arith, e, k2)))
            (complete2 a h k2),
    )

fields_outcome-eq-ok :
    (r : Result FieldsError Field) (k : Field) → fields_outcome r ≡ ok k → r ≡ ok k
fields_outcome-eq-ok (ok x) k h = cc h
fields_outcome-eq-ok (err e) k h = absurd (cc h)

-- An entity in progress that is accepted is finished, and so are those that came after it.
pub accept_entity-IsComplete :
    (N : FullNames) (m : Message) (o : MessageOptions) (v : ℕ) (s s' : Store)
    → InProgress v s
    → IsListed s v
    → accept_entity N m o v s ≡ ok s'
    → IsNamed s' × ((a : ℕ) → v ≤ a → a < s'.next → IsComplete s' a)
unfolding accept_entity
accept_entity-IsComplete N m o v s s' progress listed accepted =
    let ps = (s.cell v).props in
    let (key, hk, h1) = >>=-eq-ok (fields_outcome (check_fields (fields ps))) _ accepted in
    let (indexes, hi, h2) = >>=-eq-ok (unless_failed (parse_indexes ps o.indexes 0)) _ h1 in
    let (links, hl, h3) = >>=-eq-ok (unless_failed (link_edges s (edges ps))) _ h2 in
    let has_key = subst (HasKey (some key.source.number)) (sym (fields-commit_prop ps)) (
      check_fields-HasKey (fields ps) key
        (fields_outcome-eq-ok (check_fields (fields ps)) key hk)) in
    subst (λ x. IsNamed x × ((a : ℕ) → v ≤ a → a < x.next → IsComplete x a)) (ok-injective h3)
      (linked-IsComplete v s _ links refl has_key (targets-commit_prop ps) progress listed)
