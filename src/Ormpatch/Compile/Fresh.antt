-- ===== src/Ormpatch/Compile/Fresh.antt =====
-- Runs of the compiler that fail by a value alone, and columns that nothing has written
-- (ormpatch/compile.go).
use protobuf_orm.Base.{ℕ, ◌≡◌, ◌≢◌, refl, ◌∙◌, true, none}
use protobuf_orm.Base.Result.{Result, ok, err}
use protobuf_orm.Base.Table
use protobuf_orm.Base.Table.{Table, lookup-insert}
use protobuf_orm.Graph.Prop.{Prop, number}
use protobuf_orm.Graph.Entity.{Target}
use protobuf_orm.Ormpatch.Errors.{Error}
use protobuf_orm.Ormpatch.Literal.Refusals.{is_value_error, Blames}
use protobuf_orm.Ormpatch.State.{Compiler, M, lift, and_then, ◌>>=◌}

-- An error is one of a value, and otherwise the state satisfies `P`.
abbrev pub Goes : {A : Type 0} → (Compiler → Type 0) → Result Error (A × Compiler) → Type 0
Goes P (err x) = is_value_error x ≡ true
Goes P (ok (a, c)) = P c

Goes-and_then :
    {A B : Type 0} (P Q : Compiler → Type 0) (r : Result Error (A × Compiler)) (f : A → M B)
    → Goes P r
    → ((a : A) (c : Compiler) → P c → Goes Q (f a c))
    → Goes Q (and_then r f)
Goes-and_then P Q (ok (a, c)) f h k = k a c h
Goes-and_then P Q (err x) f h k = h

pub Goes->>= :
    {A B : Type 0} (P Q : Compiler → Type 0) (m : M A) (f : A → M B) (c : Compiler)
    → Goes P (m c)
    → ((a : A) (c' : Compiler) → P c' → Goes Q (f a c'))
    → Goes Q ((m >>= f) c)
unfolding ◌>>=◌
Goes->>= P Q m f c h k = Goes-and_then P Q (m c) f h k

-- A call that does not touch the state comes first.
pub Goes-lift :
    {A B : Type 0} (Q : Compiler → Type 0) (r : Result Error A) (f : A → M B) (c : Compiler)
    → Blames r
    → ((a : A) → r ≡ ok a → Goes Q (f a c))
    → Goes Q ((lift r >>= f) c)
unfolding ◌>>=◌
Goes-lift Q (ok a) f c h k = k a refl
Goes-lift Q (err x) f c h k = h

-- The columns other than the prop's are as they were.
pub record Spares (p : Prop Target) (c c' : Compiler) : Type 0 where
  pub wrote : (n : ℕ) → number p ≢ n → Table.lookup n c'.wrote ≡ Table.lookup n c.wrote
  pub writes : (n : ℕ) → number p ≢ n → Table.lookup n c'.writes ≡ Table.lookup n c.writes

pub Spares-refl : (p : Prop Target) (c : Compiler) → Spares p c c
Spares-refl p c = record { wrote = λ n h. refl; writes = λ n h. refl }

pub Spares-trans : (p : Prop Target) (c d e : Compiler) → Spares p c d → Spares p d e → Spares p c e
Spares-trans p c d e s t = record {
  wrote = λ n h. t.wrote n h ∙ s.wrote n h;
  writes = λ n h. t.writes n h ∙ s.writes n h;
}

pub Goes-map :
    {A : Type 0} (P Q : Compiler → Type 0) (r : Result Error (A × Compiler))
    → ((c : Compiler) → P c → Q c)
    → Goes P r
    → Goes Q r
Goes-map P Q (ok (a, c)) f h = f c h
Goes-map P Q (err x) f h = h

-- Nothing has written the column.
abbrev pub IsFresh : Prop Target → Compiler → Type 0
IsFresh p c = (Table.lookup (number p) c.wrote ≡ none) × (Table.lookup (number p) c.writes ≡ none)

pub IsFresh-Spares :
    (p q : Prop Target) (c c' : Compiler)
    → number p ≢ number q
    → Spares p c c'
    → IsFresh q c
    → IsFresh q c'
IsFresh-Spares p q c c' apart s f =
    (s.wrote (number q) apart ∙ f.0, s.writes (number q) apart ∙ f.1)
