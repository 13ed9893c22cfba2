-- ===== src/Graph/Parser/Undeclared.antt =====
-- How many messages stand for no entity yet: the measure of the parser's recursion.
use protobuf_orm.Base.{
  ℕ, suc, ◌≤◌, ◌<◌, ◌≡◌, sym, inl, inr, String, Bool-cases, Option-cases, some-injective, subst,
  List, [], ◌∷◌, none, some, length, str_eq, eq_iff, arith, if◌then◌else◌,
}
use protobuf_orm.Base.Dict.{Dict, lookup}
use protobuf_orm.Ormpb.Options.{has}
use protobuf_orm.Graph.Store.{Message}
use protobuf_orm.Graph.Parser.{find_message}

-- How many messages stand for no entity of the graph.
unfoldable pub undeclared : List Message → Dict ℕ → ℕ
undeclared [] d = 0
undeclared (m ∷ ms) d =
    let rest = undeclared ms d in if has (lookup m.full_name d) then rest else suc rest

pub undeclared-le-length : (ms : List Message) (d : Dict ℕ) → undeclared ms d ≤ length ms
unfolding undeclared
undeclared-le-length [] d = omega arith
undeclared-le-length (m ∷ ms) d = ground (arith, undeclared-le-length ms d)

abbrev pub Grows : Dict ℕ → Dict ℕ → Type 0
Grows d d' = (name : String) (a : ℕ) → lookup name d ≡ some a → lookup name d' ≡ some a

pub undeclared-le :
    (ms : List Message) (d d' : Dict ℕ) → Grows d d' → undeclared ms d' ≤ undeclared ms d
unfolding undeclared
undeclared-le [] d d' g = omega arith
undeclared-le (m ∷ ms) d d' g = elim (Option-cases (lookup m.full_name d)) [
  | inl e ↦ rw e (elim (Bool-cases (has (lookup m.full_name d'))) [
    | inl k ↦ rw k (omega (arith, undeclared-le ms d d' g))
    | inr k ↦ rw k (omega (arith, undeclared-le ms d d' g))
  ])
  | inr (a, e) ↦ rw (e, g m.full_name a e) (undeclared-le ms d d' g)
]

pub undeclared-lt :
    (ms : List Message) (name : String) (m : Message) (d d' : Dict ℕ) (a : ℕ)
    → find_message ms name ≡ some m
    → lookup m.full_name d ≡ none
    → lookup m.full_name d' ≡ some a
    → Grows d d'
    → undeclared ms d' < undeclared ms d
unfolding undeclared find_message
undeclared-lt [] name m d d' a found fresh new g = absurd (cc found)
undeclared-lt (x ∷ ms) name m d d' a found fresh new g =
    elim (Bool-cases (str_eq x.full_name name)) [
      | inl e ↦
          let same : x ≡ m = some-injective (rw (find_message, e) at found) in
          let before : lookup x.full_name d ≡ none =
            subst (λ y. lookup y.full_name d ≡ none) (sym same) fresh in
          let after : lookup x.full_name d' ≡ some a =
            subst (λ y. lookup y.full_name d' ≡ some a) (sym same) new in
          rw (before, after) (omega (arith, undeclared-le ms d d' g))
      | inr e ↦
          let rest = undeclared-lt ms name m d d' a (rw (find_message, e) at found) fresh new g in
          elim (Option-cases (lookup x.full_name d)) [
            | inr (b, k) ↦ rw (k, g x.full_name b k) rest
            | inl k ↦ rw k (elim (Bool-cases (has (lookup x.full_name d'))) [
              | inl l ↦ rw l (omega (arith, rest))
              | inr l ↦ rw l (omega (arith, rest))
            ])
          ]
    ]

pub find_message-full_name :
    (ms : List Message) (name : String) (m : Message)
    → find_message ms name ≡ some m
    → m.full_name ≡ name
unfolding find_message
find_message-full_name [] name m found = absurd (cc found)
find_message-full_name (x ∷ ms) name m found = elim (Bool-cases (str_eq x.full_name name)) [
  | inl e ↦
      let same : x ≡ m = some-injective (rw (find_message, e) at found) in
      subst (λ y. y.full_name ≡ name) same ((eq_iff _ _).0 e)
  | inr e ↦ find_message-full_name ms name m (rw (find_message, e) at found)
]
