-- ===== src/Ormpatch/State/Keeps.antt =====
-- Invariants of the compiler's methods, one rule for each way to build a method.
use protobuf_orm.Base.{◌≡◌, refl, Bool, true, false, if◌then◌else◌}
use protobuf_orm.Base.Result.{Result, ok, err}
use protobuf_orm.Ormpatch.Errors.{Error}
use protobuf_orm.Ormpatch.State.{Compiler, M, pure, fail, lift, gets, modify, ◌>>=◌, and_then}

-- `P` holds of the state that a successful method leaves.
abbrev pub Leaves : {A : Type 0} → (Compiler → Type 0) → Result Error (A × Compiler) → Type 0
Leaves P (ok (a, c)) = P c
Leaves P (err e) = Unit

-- When `m` succeeds from a state that has `P`, so has the state that it leaves.
pub record Keeps {A : Type 0} (P : Compiler → Type 0) (m : M A) : Type 0 where
  pub at : (c : Compiler) → P c → Leaves P (m c)

module _ {A : Type 0} {P : Compiler → Type 0} where
  pub Keeps-pure : (x : A) → Keeps P (pure x)
  unfolding pure
  Keeps-pure x = record { at = λ s k. k }

  pub Keeps-fail : (e : Error) → Keeps P (fail {A = A} e)
  unfolding fail
  Keeps-fail e = record { at = λ s k. tt }

  pub Keeps-lift : (r : Result Error A) → Keeps P (lift r)
  unfolding lift
  Keeps-lift (ok x) = record { at = λ s k. k }
  Keeps-lift (err e) = record { at = λ s k. tt }

  pub Keeps-gets : (next : Compiler → A) → Keeps P (gets next)
  unfolding gets
  Keeps-gets next = record { at = λ s k. k }

  pub Keeps-if :
      (b : Bool) (run other : M A)
      → (b ≡ true → Keeps P run)
      → (b ≡ false → Keeps P other)
      → Keeps P (if b then run else other)
  Keeps-if true run other keeps keeps_other = keeps refl
  Keeps-if false run other keeps keeps_other = keeps_other refl

module _ {A B : Type 0} {P : Compiler → Type 0} where
  Leaves-and_then :
      (r : Result Error (A × Compiler)) (next : A → M B)
      → Leaves P r
      → ((x : A) → Keeps P (next x))
      → Leaves P (and_then r next)
  Leaves-and_then (ok (x, s)) next k keeps_next = (keeps_next x).at s k
  Leaves-and_then (err e) next k keeps_next = tt

  pub Keeps-bind :
      (run : M A) (next : A → M B)
      → Keeps P run
      → ((x : A) → Keeps P (next x))
      → Keeps P (run >>= next)
  unfolding ◌>>=◌
  Keeps-bind run next keeps keeps_next = record {
    at = λ s k. Leaves-and_then (run s) next (keeps.at s k) keeps_next;
  }

  -- The rest may use that the call did not fail, and what it returned.
  pub Keeps-bind-lift :
      (r : Result Error A) (next : A → M B)
      → ((x : A) → r ≡ ok x → Keeps P (next x))
      → Keeps P (lift r >>= next)
  unfolding ◌>>=◌
  Keeps-bind-lift (ok x) next keeps_next = keeps_next x refl
  Keeps-bind-lift (err e) next keeps_next = record { at = λ s k. tt }

pub Keeps-modify :
    {P : Compiler → Type 0} (next : Compiler → Compiler)
    → ((s : Compiler) → P s → P (next s))
    → Keeps P (modify next)
unfolding modify
Keeps-modify next k = record { at = k }

-- From x run that succeeded.
pub Keeps-ok :
    {A : Type 0} (P : Compiler → Type 0) (run : M A) (s : Compiler) {x : A} {c' : Compiler}
    → Keeps P run
    → P s
    → run s ≡ ok (x, c')
    → P c'
Keeps-ok P run s keeps k e = rw e at (keeps.at s k)

pub ruleset keeps_rules = (Keeps-pure, Keeps-fail, Keeps-lift, Keeps-gets, Keeps-if, Keeps-bind)
