-- ===== src/Tests/Kinds.antt =====
-- The theorems on types and references, applied to the fields of a post.
use protobuf_orm.Base.{
  ℤ, positive, ℕ, String, ◌≡◌, ◌⊎◌, refl, sym, ap, ◌∙◌, some-injective, inl, inr, none, some,
  str_eq, eq_iff, arith, ◌==◌, ==_iff, if◌then◌else◌, Bool-cases,
}
use protobuf_orm.Base.Result.{ok}
use protobuf_orm.Proto.{FieldDescriptor, message_kind, string_kind}
use protobuf_orm.Ormpb.Kinds.{OrmType, deduce_type}
use protobuf_orm.Ormpb.Kinds.Deduction.{IsDeducedFrom, deduce_type-total}
use protobuf_orm.Ormpb.Ref.{Ref, FieldDescriptors, ref_by_number, ref_by_name, access}
use protobuf_orm.Ormpb.Ref.Agreement.{access-eq-ok}
use protobuf_orm.Ormpb.Ref.RoundTrip.{access-ref_by_number}
use protobuf_orm.Tests.Schema.{plain}

abbrev stamped : FieldDescriptor
stamped = record (plain "date_created" 15 message_kind) { message = "google.protobuf.Timestamp" }

deduce_type-total_example :
    (t : OrmType) × (deduce_type stamped ≡ some t) × IsDeducedFrom message_kind t
deduce_type-total_example = deduce_type-total stamped (λ e. cc)

abbrev title_field : FieldDescriptor
title_field = plain "title" 2 string_kind

-- the fields of a message that has one field, the title
abbrev only_title : FieldDescriptors
only_title = record {
  by_number = λ n. if n == 2 then some title_field else none;
  by_name = λ s. if str_eq s "title" then some title_field else none;
}

only_title-numbered : (n : ℕ) (g : FieldDescriptor) → only_title.by_number n ≡ some g → g.number ≡ n
only_title-numbered n g h = elim (Bool-cases (n == 2)) [
  | inl e ↦ ap (λ x. x.number) (sym (some-injective (rw e at h))) ∙ sym ((==_iff n 2).0 e)
  | inr e ↦ absurd (cc (rw e at h))
]

only_title-named : (s : String) (g : FieldDescriptor) → only_title.by_name s ≡ some g → g.name ≡ s
only_title-named s g h = elim (Bool-cases (str_eq s "title")) [
  | inl e ↦ ap (λ x. x.name) (sym (some-injective (rw e at h))) ∙ sym ((eq_iff s "title").0 e)
  | inr e ↦ absurd (cc (rw e at h))
]

abbrev title_ref : Ref
title_ref = record { name = "title"; number = ℤ.pos 2 }

title_found : access title_ref only_title ≡ ok title_field
unfolding access
title_found = refl

access-eq-ok_example :
    ((positive title_ref.number ≡ none) ⊎ (positive title_ref.number ≡ some title_field.number))
    × ((title_ref.name ≡ "") ⊎ (title_field.name ≡ title_ref.name))
access-eq-ok_example =
    access-eq-ok title_ref only_title title_field only_title-numbered only_title-named title_found

access-ref_by_number_example :
    (access (ref_by_number (ℤ.pos 2)) only_title ≡ ok title_field)
    × (access (ref_by_name "title") only_title ≡ ok title_field)
access-ref_by_number_example =
    access-ref_by_number only_title title_field (omega arith) (omega arith) (λ e. absurd (cc e))
      refl refl
