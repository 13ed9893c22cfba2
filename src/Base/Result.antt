-- ===== src/Base/Result.antt =====
-- Go's pair of a value and an error: the error, or the value.
use protobuf_orm.Base.Tests.{if◌then◌else◌}
use mathlib.Core.Bool.{Bool, true, false}
use mathlib.Core.Path.{◌≡◌, refl}
use mathlib.Core.Logic.{◌⊎◌, inl, inr}

pub data Result {ℓ κ} (E : Type ℓ) (A : Type κ) : Type (ℓ ⊔ κ) where
  ok : A → Result E A
  err : E → Result E A

module _ {ℓ κ μ} {E : Type ℓ} {A : Type κ} {B : Type μ} where
  infixl 5 ◌>>=◌
  abbrev pub ◌>>=◌ : Result E A → (A → Result E B) → Result E B
  ok a >>= f = f a
  err e >>= f = err e

  -- What a successful chain went through.
  pub >>=-eq-ok :
      (r : Result E A) (next : A → Result E B) {z : B}
      → (r >>= next) ≡ ok z
      → (x : A) × (r ≡ ok x) × (next x ≡ ok z)
  >>=-eq-ok (ok x) next got = (x, refl, got)
  >>=-eq-ok (err e) next got = cc

pub ok-injective {ℓ κ} :
    {E : Type ℓ} {A : Type κ} {a b : A} → ◌≡◌ {A = Result E A} (ok a) (ok b) → a ≡ b
ok-injective h = cc

pub Result-cases {ℓ κ} :
    {E : Type ℓ} {A : Type κ} (r : Result E A) → ((a : A) × (r ≡ ok a)) ⊎ ((e : E) × (r ≡ err e))
Result-cases (ok a) = inl (a, refl)
Result-cases (err e) = inr (e, refl)

-- What a test went through that refuses.
pub if_err_else-eq-ok {ℓ κ} :
    {E : Type ℓ} {A : Type κ} (b : Bool) (x : E) (r : Result E A) {z : A}
    → (if b then err x else r) ≡ ok z
    → (b ≡ false) × (r ≡ ok z)
if_err_else-eq-ok true x r h = absurd (cc h)
if_err_else-eq-ok false x r h = (refl, h)

-- Every error of the result passes the test.
abbrev pub ErrorsAre {ℓ κ} : {E : Type ℓ} {A : Type κ} → (E → Bool) → Result E A → Type 0
ErrorsAre is (ok a) = Unit
ErrorsAre is (err e) = is e ≡ true

pub ErrorsAre->>= {ℓ κ μ} :
    {E : Type ℓ} {A : Type κ} {B : Type μ} (is : E → Bool) (r : Result E A) (f : A → Result E B)
    → ErrorsAre is r
    → ((a : A) → ErrorsAre is (f a))
    → ErrorsAre is (r >>= f)
ErrorsAre->>= is (ok a) f h k = k a
ErrorsAre->>= is (err e) f h k = h
