-- ===== src/Graph/GoType/Typable.antt =====
-- When GoType answers (graph/gogen/gogen.go).
use text.Mathlib.TextPositions.{eq_refl}
use protobuf_orm.Base.{
  ◌≡◌, ◌≢◌, ◌↔◌, ◌⊎◌, refl, sym, ap, ◌∙◌, inl, inr, String, str_eq, eq_iff, Bool, true, false, not,
  Bool-cases, Option, none, some,
}
use protobuf_orm.Proto.{
  Kind, bool_kind, enum_kind, int32_kind, sint32_kind, uint32_kind, int64_kind, sint64_kind,
  uint64_kind, sfixed32_kind, fixed32_kind, float_kind, sfixed64_kind, fixed64_kind, double_kind,
  string_kind, bytes_kind, message_kind, group_kind, unknown_kind,
}
use protobuf_orm.Ormpb.Kinds.{OrmType, unspecified_type, is_uuid_type, is_time_type}
use protobuf_orm.Graph.GoType.{
  GoIdent, Declared, Descriptor, plain_field, map_field, before_semicolon, go_import_path,
  go_message_name, call_in, map_type, plain_type, go_type,
}

-- The kinds that a map key has.
abbrev pub is_key_kind : Kind → Bool
is_key_kind enum_kind = false
is_key_kind float_kind = false
is_key_kind double_kind = false
is_key_kind bytes_kind = false
is_key_kind message_kind = false
is_key_kind group_kind = false
is_key_kind unknown_kind = false
is_key_kind _ = true

abbrev pub is_key : Descriptor → Bool
is_key (plain_field k d) = is_key_kind k
is_key (map_field k v) = false

-- Protobuf allows the keys of the map.
abbrev pub HasKeys : Descriptor → Type 0
HasKeys (plain_field k d) = Unit
HasKeys (map_field k v) = (is_key k ≡ true) × HasKeys v

-- Whether the type is one that the field's file declares.
abbrev pub is_declared : Kind → OrmType → Bool
is_declared enum_kind t = true
is_declared message_kind t = not (is_time_type t)
is_declared _ t = false

-- There is a Go type of the field, or of the values of the map.
abbrev pub IsTypable : Descriptor → OrmType → Type 0
IsTypable (plain_field k d) t =
    (k ≢ group_kind) × (k ≢ unknown_kind) × (is_declared k t ≡ true → d.go_package ≢ "")
IsTypable (map_field k v) t = IsTypable v t

abbrev Answers : Option String → Type 0
Answers r = (s : String) × (r ≡ some s)

go_import_path-cases :
    (d : Declared)
    → ((d.go_package ≡ "") × (go_import_path d ≡ none))
      ⊎ ((d.go_package ≢ "") × ((path : String) × (go_import_path d ≡ some path)))
unfolding go_import_path
go_import_path-cases d = elim (Bool-cases (str_eq d.go_package "")) [
  | inl e ↦ inl ((eq_iff d.go_package "").0 e, rw e refl)
  | inr e ↦ inr (
    λ k. absurd (cc (sym e ∙ ap (λ s. str_eq s "") k ∙ eq_refl "")),
    (before_semicolon d.go_package, rw e refl),
  )
]

-- A field whose type needs no file.
free_iff :
    (k : Kind) (d : Declared) (t : OrmType) (f : GoIdent → String) (s : String)
    → k ≢ group_kind
    → k ≢ unknown_kind
    → is_declared k t ≡ false
    → plain_type k d t (some f) ≡ some s
    → Answers (plain_type k d t (some f)) ↔ IsTypable (plain_field k d) t
free_iff k d t f s g u h e = (λ a. (g, u, λ l. absurd (cc (h, l))), λ p. (s, e))

-- A field whose type its file declares.
declared_iff :
    (k : Kind) (d : Declared) (t : OrmType) (f : GoIdent → String) (name : String)
    → k ≢ group_kind
    → k ≢ unknown_kind
    → is_declared k t ≡ true
    → plain_type k d t (some f) ≡ call_in (some f) name (go_import_path d)
    → Answers (plain_type k d t (some f)) ↔ IsTypable (plain_field k d) t
declared_iff k d t f name g u h e = elim (go_import_path-cases d) [
  | inl (empty, missing) ↦
      let panics : plain_type k d t (some f) ≡ none = e ∙ ap (call_in (some f) name) missing in
      (λ (s, a). absurd (cc (a, panics)), λ p. absurd (p.2 h empty))
  | inr (named, (path, found)) ↦
      (λ a. (g, u, λ l. named), λ p. (_, e ∙ ap (call_in (some f) name) found))
]

plain_type_iff :
    (k : Kind) (d : Declared) (t : OrmType) (f : GoIdent → String)
    → Answers (plain_type k d t (some f)) ↔ IsTypable (plain_field k d) t
unfolding plain_type
plain_type_iff bool_kind d t f = free_iff bool_kind d t f _ (λ e. cc) (λ e. cc) refl refl
plain_type_iff enum_kind d t f = declared_iff enum_kind d t f d.name (λ e. cc) (λ e. cc) refl refl
plain_type_iff int32_kind d t f = free_iff int32_kind d t f _ (λ e. cc) (λ e. cc) refl refl
plain_type_iff sint32_kind d t f = free_iff sint32_kind d t f _ (λ e. cc) (λ e. cc) refl refl
plain_type_iff uint32_kind d t f = free_iff uint32_kind d t f _ (λ e. cc) (λ e. cc) refl refl
plain_type_iff int64_kind d t f = free_iff int64_kind d t f _ (λ e. cc) (λ e. cc) refl refl
plain_type_iff sint64_kind d t f = free_iff sint64_kind d t f _ (λ e. cc) (λ e. cc) refl refl
plain_type_iff uint64_kind d t f = free_iff uint64_kind d t f _ (λ e. cc) (λ e. cc) refl refl
plain_type_iff sfixed32_kind d t f = free_iff sfixed32_kind d t f _ (λ e. cc) (λ e. cc) refl refl
plain_type_iff fixed32_kind d t f = free_iff fixed32_kind d t f _ (λ e. cc) (λ e. cc) refl refl
plain_type_iff float_kind d t f = free_iff float_kind d t f _ (λ e. cc) (λ e. cc) refl refl
plain_type_iff sfixed64_kind d t f = free_iff sfixed64_kind d t f _ (λ e. cc) (λ e. cc) refl refl
plain_type_iff fixed64_kind d t f = free_iff fixed64_kind d t f _ (λ e. cc) (λ e. cc) refl refl
plain_type_iff double_kind d t f = free_iff double_kind d t f _ (λ e. cc) (λ e. cc) refl refl
plain_type_iff string_kind d t f = free_iff string_kind d t f _ (λ e. cc) (λ e. cc) refl refl
plain_type_iff bytes_kind d t f = elim (Bool-cases (is_uuid_type t)) [
  | inl e ↦
      free_iff bytes_kind d t f (f (record { go_name = "UUID"; go_import_path = "uuid" })) (λ k. cc)
        (λ k. cc) refl (rw e refl)
  | inr e ↦ free_iff bytes_kind d t f "[]byte" (λ k. cc) (λ k. cc) refl (rw e refl)
]
plain_type_iff message_kind d t f = elim (Bool-cases (is_time_type t)) [
  | inl e ↦
      free_iff message_kind d t f (f (record { go_name = "Time"; go_import_path = "time" }))
        (λ k. cc) (λ k. cc) (rw e refl) (rw e refl)
  | inr e ↦
      declared_iff message_kind d t f (go_message_name d) (λ k. cc) (λ k. cc) (rw e refl)
        (rw e refl)
]
plain_type_iff group_kind d t f = (λ (s, a). absurd (cc a), λ p. absurd (p.0 refl))
plain_type_iff unknown_kind d t f = (λ (s, a). absurd (cc a), λ p. absurd (p.1 refl))

-- The type of a key needs neither a file nor the function.
plain_type-key :
    (k : Kind) (d : Declared)
    → is_key_kind k ≡ true
    → Answers (plain_type k d unspecified_type none)
unfolding plain_type
plain_type-key bool_kind d h = (_, refl)
plain_type-key enum_kind d h = absurd (cc h)
plain_type-key int32_kind d h = (_, refl)
plain_type-key sint32_kind d h = (_, refl)
plain_type-key uint32_kind d h = (_, refl)
plain_type-key int64_kind d h = (_, refl)
plain_type-key sint64_kind d h = (_, refl)
plain_type-key uint64_kind d h = (_, refl)
plain_type-key sfixed32_kind d h = (_, refl)
plain_type-key fixed32_kind d h = (_, refl)
plain_type-key float_kind d h = absurd (cc h)
plain_type-key sfixed64_kind d h = (_, refl)
plain_type-key fixed64_kind d h = (_, refl)
plain_type-key double_kind d h = absurd (cc h)
plain_type-key string_kind d h = (_, refl)
plain_type-key bytes_kind d h = absurd (cc h)
plain_type-key message_kind d h = absurd (cc h)
plain_type-key group_kind d h = absurd (cc h)
plain_type-key unknown_kind d h = absurd (cc h)

go_type-key : (k : Descriptor) → is_key k ≡ true → Answers (go_type k unspecified_type none)
unfolding go_type
go_type-key (plain_field k d) h = plain_type-key k d h
go_type-key (map_field k v) h = absurd (cc h)

map_type_iff : (k v : Option String) → Answers k → Answers (map_type k v) ↔ Answers v
map_type_iff none v (s, h) = absurd (cc h)
map_type_iff (some k) none h = (λ (s, e). absurd (cc e), λ (s, e). absurd (cc e))
map_type_iff (some k) (some v) h = (λ a. (v, refl), λ a. (_, refl))

-- If every map has keys that protobuf allows, GoType with a function for the identifiers answers
-- if and only if the field, or at a map its values at any depth, is of a kind that is known and
-- no group's, and, where that kind is an enum's or a message's whose ORM type is not the time, its
-- file has a `go_package`. So the keys of a map never ask for the function, which is nil for them.
pub go_type_iff :
    (d : Descriptor) (t : OrmType) (f : GoIdent → String)
    → HasKeys d
    → ((s : String) × (go_type d t (some f) ≡ some s)) ↔ IsTypable d t
unfolding go_type
go_type_iff (plain_field k d) t f h = plain_type_iff k d t f
go_type_iff (map_field k v) t f h =
    let (to, from) = go_type_iff v t f h.1 in
    let (to', from') =
      map_type_iff (go_type k unspecified_type none) (go_type v t (some f)) (go_type-key k h.0) in
    (λ a. to (to' a), λ p. from' (from p))
