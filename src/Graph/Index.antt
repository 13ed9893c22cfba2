-- ===== src/Graph/Index.antt =====
-- graph/index.go: the indexes of an entity.
pub mod Laws
pub mod Accepted
use protobuf_orm.Base.{
  ℤ, same_int, ℕ, suc, ◌+◌, String, Bool, true, false, not, ◌||◌, List, [], ◌∷◌, ◌++◌, Option, none,
  some, ◌==◌, str_eq, if◌then◌else◌,
}
use protobuf_orm.Base.Result.{Result, ok, err}
use protobuf_orm.Ormpb.Options.{IndexOptions, has}
use protobuf_orm.Ormpb.Ref.{Ref}
use protobuf_orm.Graph.Prop.{Prop, number, name}
use protobuf_orm.Graph.Entity.{find, get_erased_field}

-- protoEntity.HasErasedField
abbrev pub has_erased_field : {T : Type 0} → List (Prop T) → Bool
has_erased_field ps = has (get_erased_field ps)

-- the refusals of parseIndex, with the position of the reference where there is one
pub data IndexError : Type 0 where
  no_refs : IndexError
  ref_not_found : ℕ → IndexError
  name_not_matched : ℕ → IndexError
  not_unique : IndexError
  no_erased_field : IndexError

-- protoIndex, without the entity that holds it
pub record ProtoIndex (T : Type 0) : Type 0 where
  pub opts : IndexOptions
  pub props : List (Prop T)

module _ {T : Type 0} where
  -- one round of the loop over the references
  unfoldable pub parse_ref : List (Prop T) → Ref → ℕ → Result IndexError (Prop T)
  unfolding find
  parse_ref ps ref i = elim (find (λ p. same_int (ℤ.pos (number p)) ref.number) ps) [
    | none ↦ err (ref_not_found i)
    | some p ↦ if not (str_eq (name p) ref.name) then err (name_not_matched i) else ok p
  ]

  abbrev gather :
      Result IndexError (Prop T) → List IndexError × List (Prop T) → List IndexError × List (Prop T)
  gather (ok p) (errs, props) = (errs, p ∷ props)
  gather (err e) (errs, props) = (e ∷ errs, props)

  -- the loop, from reference `i` on: the errors, and the props
  unfoldable pub parse_refs : List (Prop T) → List Ref → ℕ → List IndexError × List (Prop T)
  parse_refs ps [] i = ([], [])
  parse_refs ps (r ∷ rs) i = gather (parse_ref ps r i) (parse_refs ps rs (i + 1))

  -- the checks of `includes_erased`
  unfoldable pub idle_options : List (Prop T) → IndexOptions → List IndexError
  idle_options ps opts =
      if not opts.includes_erased
      then []
      else if not opts.unique
      then not_unique ∷ []
      else if not (has_erased_field ps)
      then no_erased_field ∷ []
      else []

  abbrev index_of :
      IndexOptions → List IndexError → List (Prop T) → Result (List IndexError) (ProtoIndex T)
  index_of opts [] props = ok (record { opts = opts; props = props })
  index_of opts errs props = err errs

  -- parseIndex, of an entity with these props
  unfoldable pub parse_index :
      List (Prop T) → IndexOptions → Result (List IndexError) (ProtoIndex T)
  parse_index ps opts = elim opts.refs [
    | [] ↦ err (no_refs ∷ [])
    | r ∷ rs ↦
        let parsed = parse_refs ps (r ∷ rs) 0 in
        index_of opts (parsed.0 ++ idle_options ps opts) parsed.1
  ]

  -- protoIndex.ExcludesErased
  unfoldable pub excludes_erased : List (Prop T) → ProtoIndex T → Bool
  excludes_erased ps i =
      if not i.opts.unique || i.opts.includes_erased then false else has_erased_field ps

  -- protoIndex.Number, where `none` is the panic of an index out of range
  unfoldable pub index_number : ProtoIndex T → Option ℕ
  index_number i = elim i.props [ [] ↦ none | p ∷ ps ↦ some (number p) ]
