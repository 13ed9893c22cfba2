-- ===== src/Base/Dict.antt =====
-- A Go map keyed by text, as an association list in the order of insertion.
use protobuf_orm.Base.Tests.{if◌then◌else◌}
use Prim.Native.String.{String}
use text.Mathlib.Text.{◌==◌ as str_eq}
use text.Mathlib.TextEquality.{eq_iff}
use mathlib.Core.Path.{◌≡◌, refl}
use mathlib.Core.List.{List, [], ◌∷◌}
use mathlib.Core.Option.{Option, none, some}
use native.Mathlib.Omega.{arith}

abbrev pub Dict {ℓ} : Type ℓ → Type ℓ
Dict V = List (String × V)

module _ {ℓ} {V : Type ℓ} where
  -- x, ok := d[k]
  unfoldable pub lookup : String → Dict V → Option V
  lookup k [] = none
  lookup k ((j, x) ∷ d) = if str_eq j k then some x else lookup k d

  -- d[k] = x
  unfoldable pub insert : String → V → Dict V → Dict V
  insert k x [] = (k, x) ∷ []
  insert k x ((j, y) ∷ d) = if str_eq j k then (k, x) ∷ d else (j, y) ∷ insert k x d

  -- delete(d, k)
  unfoldable pub erase : String → Dict V → Dict V
  erase k [] = []
  erase k ((j, y) ∷ d) = let rest = erase k d in if str_eq j k then rest else (j, y) ∷ rest

  -- maps.Copy(d, e). The keys of a map are distinct, so the order of the copies is not observable.
  unfoldable pub copy_onto : Dict V → Dict V → Dict V
  unfolding insert
  copy_onto d [] = d
  copy_onto d ((k, x) ∷ e) = insert k x (copy_onto d e)

  pub lookup-insert :
      (k j : String) (x : V) (d : Dict V)
      → lookup j (insert k x d) ≡ (if str_eq k j then some x else lookup j d)
  unfolding lookup insert
  lookup-insert k j x [] = refl
  lookup-insert k j x ((i, y) ∷ d) =
      ground (arith, eq_iff k j, eq_iff i k, eq_iff i j, lookup-insert k j x d)

  pub lookup-erase :
      (k j : String) (d : Dict V) → lookup j (erase k d) ≡ (if str_eq k j then none else lookup j d)
  unfolding lookup erase
  lookup-erase k j [] = ground arith
  lookup-erase k j ((i, y) ∷ d) =
      ground (arith, eq_iff k j, eq_iff i k, eq_iff i j, lookup-erase k j d)

  pub lookup-copy_onto :
      (j : String) (d e : Dict V)
      → lookup j (copy_onto d e) ≡ elim (lookup j e) [ none ↦ lookup j d | some x ↦ some x ]
  unfolding lookup copy_onto
  lookup-copy_onto j d [] = refl
  lookup-copy_onto j d ((k, x) ∷ e) =
      ground (arith, lookup-insert k j x (copy_onto d e), lookup-copy_onto j d e)
