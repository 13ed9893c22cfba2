-- ===== src/Ormpatch/State.antt =====
-- The state of `compiler` (ormpatch/compile.go), and its methods as functions that pass it on. A
-- method that fails ends the whole compilation, so no state comes back beside an error.
pub mod Keeps
use protobuf_orm.Base.{ℕ, List, []}
use protobuf_orm.Base.Result.{Result, ok, err}
use protobuf_orm.Base.Table.{Table}
use protobuf_orm.Ormpatch.Errors.{At, Error}
use protobuf_orm.Ormpatch.Plan.{Test, Write}

-- `writes` holds what the pointers of the Go map point at.
pub record Compiler : Type 0 where
  pub tests : List Test
  pub order : List ℕ
  pub writes : Table Write
  pub wrote : Table At
  pub resized : Table At

abbrev pub new_compiler : Compiler
new_compiler = record { tests = []; order = []; writes = []; wrote = []; resized = [] }

abbrev pub M : Type 0 → Type 0
M A = Compiler → Result Error (A × Compiler)

module _ {A : Type 0} where
  pub pure : A → M A
  pure a c = ok (a, c)

  pub fail : Error → M A
  fail e c = err e

  abbrev lift_result : Result Error A → Compiler → Result Error (A × Compiler)
  lift_result (ok a) c = ok (a, c)
  lift_result (err e) c = err e

  -- a call that does not touch the state
  pub lift : Result Error A → M A
  lift r c = lift_result r c

  -- a read of the state
  pub gets : (Compiler → A) → M A
  gets f c = ok (f c, c)

pub modify : (Compiler → Compiler) → M (Unit {0})
modify f c = ok (tt, f c)

module _ {A B : Type 0} where
  abbrev pub and_then : Result Error (A × Compiler) → (A → M B) → Result Error (B × Compiler)
  and_then (ok (a, c)) f = f a c
  and_then (err e) f = err e

  infixl 5 ◌>>=◌
  -- opening this opens the actions above too
  unfoldable pub ◌>>=◌ : M A → (A → M B) → M B
  unfolding pure fail lift gets modify
  ◌>>=◌ m f c = and_then (m c) f

infixl 5 ◌>>◌
abbrev pub ◌>>◌ : {B : Type 0} → M (Unit {0}) → M B → M B
m >> n = m >>= λ _. n
