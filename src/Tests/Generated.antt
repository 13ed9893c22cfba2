-- ===== src/Tests/Generated.antt =====
-- The theorem on generated requests, applied to a request on a post that misses its version.
use protobuf_orm.Base.{ℕ, ◌≡◌, refl, true, false, ◌==◌, [], ◌∷◌, none, some, if◌then◌else◌}
use protobuf_orm.Base.Result.{err}
use protobuf_orm.Base.Table
use protobuf_orm.Base.Table.{Table, All-lookup}
use protobuf_orm.Proto.{
  FieldDescriptor, is_bool_kind, is_bytes_kind, is_message_kind, string_kind, bool_kind,
  message_kind, uint64_kind, repeated,
}
use protobuf_orm.Proto.Value.{Value, Fields, Items, Entries as ValueEntries}
use protobuf_orm.Graph.Patch.{patch_props, patch_value_number, patch_flag_number, patch_flag_of}
use protobuf_orm.Graph.Prop.{is_nullable}
use protobuf_orm.Ormpatch.Errors.{version_not_given}
use protobuf_orm.Ormpatch.Request.{
  Request, request_has, guard_bytes, value_of, request_value, version_entry, set_entry, flag_entry,
  read_flag, prop_entry, prop_entries, from_patch_request,
}
use protobuf_orm.Ormpatch.Request.Generated.{
  is_fault, IsTyped, IsMessage, HasField, IsGenerated, IsLibrary, is_truth_value, is_message_value,
}
use protobuf_orm.Ormpatch.Request.Faultless.{from_patch_request-Faultless}
use protobuf_orm.Tests.Schema.{plain, library, post}
use protobuf_orm.Tests.Layout.{layout, numbers_allowed, patch_layout-post}

abbrev labels_request : FieldDescriptor
labels_request = record (plain "labels" 6 message_kind) { is_map = true; cardinality = repeated }

abbrev pages_request : FieldDescriptor
pages_request = record (plain "pages" 8 string_kind) { is_list = true; cardinality = repeated }

abbrev pub request_fields : Table FieldDescriptor
request_fields =
    (4, plain "title" 4 string_kind)
    ∷ (6, labels_request)
    ∷ (8, pages_request)
    ∷ (10, plain "author" 10 message_kind)
    ∷ (11, plain "author_null" 11 bool_kind)
    ∷ (12, plain "revision" 12 uint64_kind)
    ∷ (13, plain "revision_force" 13 bool_kind)
    ∷ []

abbrev pub content : ℕ → Value
content n =
    if n == 6
    then Value.dictionary ValueEntries.empty
    else if n == 8
    then Value.list Items.nil
    else if n == 12
    then Value.uint 3
    else if n == 4
    then Value.text "hi"
    else if n == 10
    then Value.message "UserRef" Fields.end
    else Value.bool false

-- the title is set
abbrev unversioned : Request
unversioned = record {
  by_number = λ n. Table.lookup n request_fields;
  get = content;
  has = λ n. n == 4;
}

unversioned-fails :
    from_patch_request library (some post) (some unversioned) none
    ≡ err (version_not_given "revision")
unfolding from_patch_request prop_entries prop_entry patch_props patch_value_number
    patch_flag_number patch_flag_of is_nullable read_flag request_has flag_entry version_entry
    set_entry request_value guard_bytes value_of Table.lookup
unversioned-fails = refl

-- A value of a field that is no collection and holds no bytes.
single-IsTyped :
    (fd : FieldDescriptor) (v : Value)
    → fd.is_map ≡ false
    → fd.is_list ≡ false
    → is_bytes_kind fd.kind ≡ false
    → (is_bool_kind fd.kind ≡ true → is_truth_value v ≡ true)
    → (is_message_kind fd.kind ≡ true → is_message_value v ≡ true)
    → IsTyped fd v
single-IsTyped fd v m l b t s = record {
  mapped = λ a. absurd (cc (m, a));
  listed = λ a c. absurd (cc (l, c));
  truth = λ a c. t;
  octets = λ a c d. absurd (cc (b, d));
  submessage = λ a c. s;
}

labels-IsTyped : IsTyped labels_request (content 6)
labels-IsTyped = record {
  mapped = λ a. refl;
  listed = λ a. absurd (cc a);
  truth = λ a. absurd (cc a);
  octets = λ a. absurd (cc a);
  submessage = λ a. absurd (cc a);
}

pages-IsTyped : IsTyped pages_request (content 8)
pages-IsTyped = record {
  mapped = λ a. absurd (cc a);
  listed = λ a b. refl;
  truth = λ a b. absurd (cc b);
  octets = λ a b. absurd (cc b);
  submessage = λ a b. absurd (cc b);
}

unversioned-IsMessage : IsMessage unversioned
unversioned-IsMessage =
    All-lookup (λ n fd. (fd.number ≡ n) × IsTyped fd (content n)) request_fields
      (
        (refl, single-IsTyped _ _ refl refl refl (λ k. absurd (cc k)) (λ k. absurd (cc k))),
        (
          (refl, labels-IsTyped),
          (
            (refl, pages-IsTyped),
            (
              (refl, single-IsTyped _ _ refl refl refl (λ k. absurd (cc k)) (λ k. refl)),
              (
                (refl, single-IsTyped _ _ refl refl refl (λ k. refl) (λ k. absurd (cc k))),
                (
                  (
                    refl,
                    single-IsTyped _ _ refl refl refl (λ k. absurd (cc k)) (λ k. absurd (cc k)),
                  ),
                  ((refl, single-IsTyped _ _ refl refl refl (λ k. refl) (λ k. absurd (cc k))), tt),
                ),
              ),
            ),
          ),
        ),
      )

unversioned-IsGenerated : IsGenerated layout unversioned
unfolding Table.lookup
unversioned-IsGenerated = All-lookup (HasField unversioned) layout (
  tt,
  (
    (_, refl, (refl, refl, refl)),
    (
      (_, refl, (refl, refl, refl)),
      (
        (_, refl, (refl, refl, refl)),
        (
          (_, refl, (refl, refl, refl)),
          (
            (_, refl, refl, refl, refl),
            ((_, refl, (refl, refl, refl)), ((_, refl, refl, refl, refl), tt)),
          ),
        ),
      ),
    ),
  ),
)

library-IsLibrary : IsLibrary library
library-IsLibrary = record {
  values = λ v fd s at x h. absurd (cc h);
  arms = λ v fd s at x h. absurd (cc h);
}

from_patch_request-Faultless_example : is_fault (version_not_given "revision") ≡ false
from_patch_request-Faultless_example =
    from_patch_request-Faultless library post layout unversioned none (version_not_given "revision")
      library-IsLibrary tt numbers_allowed patch_layout-post unversioned-IsGenerated
      unversioned-IsMessage unversioned-fails
