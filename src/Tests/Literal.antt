-- ===== src/Tests/Literal.antt =====
-- The theorem on materialized values, applied to a message of two fields.
use protobuf_orm.Base.{
  ℕ, String, List, Option, none, some, some-injective, inl, inr, false, ◌==◌, Bool-cases,
  if◌then◌else◌, ◌≡◌, refl, [], ◌∷◌, subst,
}
use protobuf_orm.Base.Result.{ok, ok-injective}
use protobuf_orm.Proto.{string_kind, message_kind, FieldDescriptor}
use protobuf_orm.Proto.Value.{Value, Fields}
use protobuf_orm.Ormpatch.Document.{Literal, FieldLiterals}
use protobuf_orm.Ormpatch.Errors.{At, root}
use protobuf_orm.Ormpatch.Library.{Library, Place, whole_field}
use protobuf_orm.Ormpatch.Literal.{true_oneof, materialize, by_shape}
use protobuf_orm.Ormpatch.Literal.Distinct.{IsProper, IsPlain, materialize-IsProper}
use protobuf_orm.Tests.Schema.{library, plain, number_ref}

abbrev of_two : Literal
of_two = Literal.message (
    FieldLiterals.field (number_ref 2) (Literal.scalar (1 ∷ []))
      (FieldLiterals.field (number_ref 4) (Literal.scalar (2 ∷ [])) FieldLiterals.end))

abbrev host : FieldDescriptor
host = record (plain "author" 5 message_kind) { message = "User" }

abbrev two_fields : Value
two_fields =
    Value.message "User"
      (Fields.field 2 (Value.bytes (1 ∷ [])) (Fields.field 4 (Value.bytes (2 ∷ [])) Fields.end))

-- The field at 2 is a member of a oneof, and the one at 4 is not.
abbrev chosen : FieldDescriptor
chosen = record (plain "nick" 2 string_kind) {
  containing_oneof = some (record { full_name = "User.called"; is_synthetic = false });
}

abbrev other : FieldDescriptor
other = plain "city" 4 string_kind

abbrev pick_field : Option ℕ → Option FieldDescriptor
pick_field none = none
pick_field (some n) = if n == 2 then some chosen else if n == 4 then some other else none

abbrev oneofs : String → ℕ → List String
oneofs md n = if n == 2 then "User.called" ∷ [] else []

abbrev user_library : Library
user_library = record library { resolve_field = λ md f at. ok (pick_field f.number) }

pick_field-known :
    (md : String) (o : Option ℕ) (fd : FieldDescriptor)
    → pick_field o ≡ some fd
    → true_oneof fd ≡ oneofs md fd.number
pick_field-known md none fd h = absurd (cc h)
pick_field-known md (some n) fd h = elim (Bool-cases (n == 2)) [
  | inl e ↦ subst (λ d. true_oneof d ≡ oneofs md d.number) (some-injective (rw e at h)) refl
  | inr e ↦ elim (Bool-cases (n == 4)) [
    | inl k ↦ subst (λ d. true_oneof d ≡ oneofs md d.number) (some-injective (rw (e, k) at h)) refl
    | inr k ↦ absurd (cc (rw (e, k) at h))
  ]
]

two_fields-materialize :
    materialize user_library of_two host whole_field (root "at") ≡ ok two_fields
unfolding materialize by_shape
two_fields-materialize = refl

scalar-IsPlain :
    (v : Literal) (fd : FieldDescriptor) (place : Place) (at : At) (x : Value)
    → library.scalar v fd place at ≡ ok x
    → IsPlain x
scalar-IsPlain (Literal.scalar bs) fd place at x h = subst IsPlain (ok-injective h) tt
scalar-IsPlain _ fd place at x h = absurd (cc h)

materialize-IsProper_example : IsProper oneofs two_fields
materialize-IsProper_example =
    materialize-IsProper user_library oneofs
      (λ md f at fd h. pick_field-known md f.number fd (ok-injective h)) scalar-IsPlain of_two host
      whole_field (root "at") two_fields two_fields-materialize
