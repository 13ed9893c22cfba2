-- ===== src/Graph/GoType/Nested.antt =====
-- The names that GoType gives to nested messages (graph/gogen/gogen.go).
use Prim.Native.Char.{code}
use Prim.Native.String.{[], ◌∷◌, ◌++◌}
use text.Mathlib.TextLemmas.{append_assoc, nil-append, cons-append}
use text.Mathlib.TextPositions.{slice-append_right, starts_with-append, len-append}
use protobuf_orm.Base.{
  str_eq-ne, ◌==◌, ◌≡◌, ◌≢◌, ◌⊎◌, refl, sym, ap, ◌∙◌, inl, inr, String, str_eq, false, Bool-cases,
  none, some, if◌then◌else◌,
}
use protobuf_orm.Proto.{message_kind}
use protobuf_orm.Ormpb.Kinds.{OrmType, is_time_type}
use protobuf_orm.Graph.GoType.{
  GoIdent, Declared, plain_field, before_semicolon, go_import_path, replace_dots, trim_prefix,
  go_message_name, call_in, plain_type, go_type,
}

trim_prefix-append : (p s : String) → trim_prefix (p ++ s) p ≡ s
trim_prefix-append p s = rw (starts_with-append p s, len-append p s) (slice-append_right p s)

replace_dots-append : (s t : String) → replace_dots (s ++ t) ≡ replace_dots s ++ replace_dots t
unfolding replace_dots
replace_dots-append [] t = rw (nil-append t, nil-append (replace_dots t)) refl
replace_dots-append (c ∷ s) t = elim (Bool-cases (code c == 46)) [
  | inl e ↦
      rw (cons-append c s t, e, replace_dots-append s t)
        (sym (append_assoc "_" (replace_dots s) (replace_dots t)))
  | inr e ↦
      rw (cons-append c s t, e, replace_dots-append s t)
        (sym (cons-append c (replace_dots s) (replace_dots t)))
]

-- A single name.
abbrev pub IsSimple : String → Type 0
IsSimple [] = Unit
IsSimple (c ∷ s) = ((code c == 46) ≡ false) × IsSimple s

replace_dots-simple : (s : String) → IsSimple s → replace_dots s ≡ s
unfolding replace_dots
replace_dots-simple [] h = refl
replace_dots-simple (c ∷ s) h = rw (h.0, replace_dots-simple s h.1) refl

-- The full name of a message begins with its package.
abbrev pub IsInPackage : Declared → Type 0
IsInPackage d =
    (d.package_name ≡ "")
    ⊎ ((d.package_name ≢ "") × ((s : String) × (d.full_name ≡ (d.package_name ++ ".") ++ s)))

-- `inner` is declared in the message `outer`.
pub record IsNestedIn (outer inner : Declared) : Type 0 where
  pub simple : IsSimple inner.name
  pub full_name : inner.full_name ≡ outer.full_name ++ ("." ++ inner.name)
  pub package_name : inner.package_name ≡ outer.package_name
  pub go_package : inner.go_package ≡ outer.go_package

abbrev local_name : Declared → String
local_name d =
    if str_eq d.package_name ""
    then d.full_name
    else trim_prefix d.full_name (d.package_name ++ ".")

local_name-packaged :
    (d : Declared) (s : String)
    → d.package_name ≢ ""
    → d.full_name ≡ (d.package_name ++ ".") ++ s
    → local_name d ≡ s
local_name-packaged d s apart e =
    rw (str_eq-ne d.package_name "" apart, e) (trim_prefix-append (d.package_name ++ ".") s)

local_name-bare : (d : Declared) → d.package_name ≡ "" → local_name d ≡ d.full_name
local_name-bare d e = rw e refl

local_name-nested :
    (outer inner : Declared)
    → IsInPackage outer
    → IsNestedIn outer inner
    → local_name inner ≡ local_name outer ++ ("." ++ inner.name)
local_name-nested outer inner (inl bare) n =
    local_name-bare inner (n.package_name ∙ bare)
    ∙ n.full_name
    ∙ ap (λ s. s ++ ("." ++ inner.name)) (sym (local_name-bare outer bare))
local_name-nested outer inner (inr (apart, (s, e))) n =
    local_name-packaged inner (s ++ ("." ++ inner.name)) (λ k. apart (sym n.package_name ∙ k))
      (n.full_name
        ∙ ap (λ x. x ++ ("." ++ inner.name)) e
        ∙ append_assoc (outer.package_name ++ ".") s ("." ++ inner.name)
        ∙ ap (λ x. (x ++ ".") ++ (s ++ ("." ++ inner.name))) (sym n.package_name))
    ∙ ap (λ x. x ++ ("." ++ inner.name)) (sym (local_name-packaged outer s apart e))

go_import_path-same :
    (d e : Declared) → d.go_package ≡ e.go_package → go_import_path d ≡ go_import_path e
unfolding go_import_path
go_import_path-same d e h = ap (λ p. if str_eq p "" then none else some (before_semicolon p)) h

go_type-message :
    (d : Declared) (t : OrmType) (f : GoIdent → String) (name path : String)
    → is_time_type t ≡ false
    → go_import_path d ≡ some path
    → go_message_name d ≡ name
    → go_type (plain_field message_kind d) t (some f)
      ≡ some (f (record { go_name = name; go_import_path = path }))
unfolding go_type plain_type
go_type-message d t f name path other found named =
    rw (plain_type, other)
      (ap (call_in (some f) (go_message_name d)) found
        ∙ ap (λ x. some (f (record { go_name = x; go_import_path = path }))) named)

-- If a message is declared in another one, whose full name begins with its package, and their file
-- has a `go_package`, then wherever the ORM type is not the time, GoType asks for both in the import
-- path of the file, and for the inner one under the outer one's Go name, an underscore and its own
-- name.
pub go_type-nested :
    (outer inner : Declared) (t : OrmType) (f : GoIdent → String) (path : String)
    → IsInPackage outer
    → IsNestedIn outer inner
    → is_time_type t ≡ false
    → go_import_path outer ≡ some path
    → (name : String) × (go_type (plain_field message_kind outer) t (some f)
        ≡ some (f (record { go_name = name; go_import_path = path })))
      × (go_type (plain_field message_kind inner) t (some f)
          ≡ some (f (record { go_name = name ++ ("_" ++ inner.name); go_import_path = path })))
unfolding go_message_name
go_type-nested outer inner t f path packaged n other found =
    let name = replace_dots (local_name outer) in
    let joined : replace_dots (local_name inner) ≡ name ++ ("_" ++ inner.name) =
      ap replace_dots (local_name-nested outer inner packaged n)
      ∙ replace_dots-append (local_name outer) ("." ++ inner.name)
      ∙ ap (λ s. name ++ s)
          (replace_dots-append "." inner.name
            ∙ ap (λ s. replace_dots "." ++ s) (replace_dots-simple inner.name n.simple)) in
    (
      name,
      go_type-message outer t f name path other found refl,
      go_type-message inner t f (name ++ ("_" ++ inner.name)) path other
          (go_import_path-same inner outer n.go_package ∙ found) joined,
    )
