-- ===== src/Base/Table.antt =====
-- A Go map keyed by field numbers, as an association list. No part of the program iterates over
-- such a map, so the order of its entries is not observable.
use protobuf_orm.Base.Tests.{◌==◌, ==_iff, if◌then◌else◌, Bool-cases, some-injective}
use protobuf_orm.Base.Lists.{All}
use Prim.Native.Nat.{ℕ}
use mathlib.Core.Path.{◌≡◌, refl, subst}
use mathlib.Core.Logic.{inl, inr}
use mathlib.Core.List.{List, [], ◌∷◌}
use mathlib.Core.Option.{Option, none, some}
use native.Mathlib.Omega.{arith}

abbrev pub Table {ℓ} : Type ℓ → Type ℓ
Table V = List (ℕ × V)

module _ {ℓ} {V : Type ℓ} where
  -- x, ok := t[n]
  unfoldable pub lookup : ℕ → Table V → Option V
  lookup n [] = none
  lookup n ((i, x) ∷ t) = if i == n then some x else lookup n t

  -- t[n] = x
  unfoldable pub insert : ℕ → V → Table V → Table V
  insert n x [] = (n, x) ∷ []
  insert n x ((i, y) ∷ t) = if i == n then (n, x) ∷ t else (i, y) ∷ insert n x t

  pub lookup-insert :
      (n i : ℕ) (x : V) (t : Table V)
      → lookup i (insert n x t) ≡ (if n == i then some x else lookup i t)
  unfolding lookup insert
  lookup-insert n i x [] = refl
  lookup-insert n i x ((p, y) ∷ t) = ground (arith, lookup-insert n i x t)

pub lookup-nil {ℓ} : {V : Type ℓ} (n : ℕ) → lookup {V = V} n [] ≡ none
unfolding lookup
lookup-nil n = refl

-- What holds of all entries of a table holds of those that it answers.
pub All-lookup {ℓ κ} :
    {V : Type ℓ} (P : ℕ → V → Type κ) (t : Table V)
    → All (λ e. P e.0 e.1) t
    → (n : ℕ) (v : V) → lookup n t ≡ some v
    → P n v
unfolding lookup
All-lookup P [] h n v found = absurd (cc found)
All-lookup P ((k, x) ∷ t) h n v found = elim (Bool-cases (k == n)) [
  | inl e ↦ subst (λ m. P m v) ((==_iff k n).0 e) (subst (P k) (some-injective (rw e at found)) h.0)
  | inr e ↦ All-lookup P t h.1 n v (rw e at found)
]
