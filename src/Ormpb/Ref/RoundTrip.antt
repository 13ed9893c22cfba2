-- ===== src/Ormpb/Ref/RoundTrip.antt =====
-- That a reference which is made of a field finds it (ormpb/ref.go).
use protobuf_orm.Base.{str_eq-ne, ℤ, positive, to_int32, ℕ, ◌<◌, ◌≡◌, ◌≢◌, refl, some, ==_ne, arith}
use protobuf_orm.Base.Result.{ok}
use protobuf_orm.Proto.{FieldDescriptor}
use protobuf_orm.Ormpb.Ref.{FieldDescriptors, ref_by_number, ref_by_name, access}

to_int32-pos : (n : ℕ) → n < 2147483648 → to_int32 (ℤ.pos n) ≡ ℤ.pos n
to_int32-pos n h = ground arith

positive-pos : (n : ℕ) → 0 < n → positive (ℤ.pos n) ≡ some n
positive-pos n h = ground arith

-- If a field's number is above 0 and fits an int32, its name is not empty, and the lookups of its
-- message answer it for both, then the reference by its number and the reference by its name both
-- find it.
pub access-ref_by_number :
    (desc : FieldDescriptors) (f : FieldDescriptor)
    → 0 < f.number
    → f.number < 2147483648
    → f.name ≢ ""
    → desc.by_number f.number ≡ some f
    → desc.by_name f.name ≡ some f
    → (access (ref_by_number (ℤ.pos f.number)) desc ≡ ok f)
      × (access (ref_by_name f.name) desc ≡ ok f)
unfolding access
access-ref_by_number desc f above fits named numbered found = (
  rw
      (
        to_int32-pos f.number fits,
        ==_ne f.number 0 (λ e. absurd (omega (arith, e, above))),
        positive-pos f.number above,
        numbered,
      )
      refl,
  rw (str_eq-ne f.name "" named, found) refl,
)
