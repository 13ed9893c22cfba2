-- ===== src/Ormpatch/Literal/Distinct.antt =====
-- What a materialized value holds (ormpatch/value.go: materialize, fillMessage, fillList, fillMap).
use protobuf_orm.Base.{
  ℕ, ◌+◌, String, ◌≡◌, inl, inr, not, Bool, true, false, Option-cases, some, List, [], ◌∷◌, ◌++◌,
  subst,
}
use protobuf_orm.Base.Result.{Result, ok, >>=-eq-ok, ok-injective, if_err_else-eq-ok}
use protobuf_orm.Proto.{FieldDescriptor}
use protobuf_orm.Proto.Value.{MapKey, Value, Fields, Items, Entries}
use protobuf_orm.Ormpatch.Document.{FieldRef, Literal, FieldLiterals, Literals, EntryLiterals}
use protobuf_orm.Ormpatch.Errors.{At, sub, index, Error}
use protobuf_orm.Ormpatch.Library.{Library, Place, whole_field, element, map_value, Shape}
use protobuf_orm.Ormpatch.Literal.{
  contains_number, contains_key, true_oneof, any_in, is_message_shape, message_at, switch, by_shape,
  part, is_compound, materialize, fill_arm, fill_message, fill_list, fill_map,
}

module _ (O : String → ℕ → List String) where
  unfoldable mutual
    -- No message in the value has a field twice or two members of one oneof, and no map a key twice,
    -- at any depth. `O` is the true oneof of a message's field, by its number.
    pub IsProper : Value → Type 0
    IsProper (Value.message md fs) = FieldsAreProper md [] [] fs
    IsProper (Value.list is) = ItemsAreProper is
    IsProper (Value.dictionary es) = EntriesAreProper [] es
    IsProper _ = Unit

    FieldsAreProper : String → List ℕ → List String → Fields → Type 0
    FieldsAreProper md seen oneofs Fields.end = Unit
    FieldsAreProper md seen oneofs (Fields.field n v rest) =
        (contains_number n seen ≡ false)
        × (any_in (O md n) oneofs ≡ false)
        × IsProper v
        × FieldsAreProper md (n ∷ seen) (O md n ++ oneofs) rest

    ItemsAreProper : Items → Type 0
    ItemsAreProper Items.nil = Unit
    ItemsAreProper (Items.cons v rest) = IsProper v × ItemsAreProper rest

    EntriesAreProper : List MapKey → Entries → Type 0
    EntriesAreProper seen Entries.empty = Unit
    EntriesAreProper seen (Entries.entry k v rest) =
        (contains_key k seen ≡ false) × IsProper v × EntriesAreProper (k ∷ seen) rest

-- A scalar is no message, list or map, and so holds no field or key.
abbrev pub IsPlain : Value → Type 0
IsPlain (Value.message md fs) = ⊥
IsPlain (Value.list is) = ⊥
IsPlain (Value.dictionary es) = ⊥
IsPlain _ = Unit

IsPlain-IsProper : (O : String → ℕ → List String) (v : Value) → IsPlain v → IsProper O v
unfolding IsProper
IsPlain-IsProper O (Value.message md fs) k = absurd k
IsPlain-IsProper O (Value.list is) k = absurd k
IsPlain-IsProper O (Value.dictionary es) k = absurd k
IsPlain-IsProper O _ k = tt

module _ (L : Library) (O : String → ℕ → List String)
    (oneof_known : (md : String) (f : FieldRef) (at : At) (fd : FieldDescriptor)
      → L.resolve_field md f at ≡ ok (some fd)
      → true_oneof fd ≡ O md fd.number)
    (scalar_plain : (v : Literal) (fd : FieldDescriptor) (place : Place) (at : At) (x : Value)
      → L.scalar v fd place at ≡ ok x
      → IsPlain x) where
  switch-IsProper :
      (s : Shape) (v : Literal) (fd : FieldDescriptor) (place : Place) (at : At)
      (fields : String → Result Error Fields) (items : Result Error Items)
      (entries : Result Error Entries) (x : Value)
      → ((md : String) (fs : Fields) → fields md ≡ ok fs → FieldsAreProper O md [] [] fs)
      → ((is : Items) → items ≡ ok is → ItemsAreProper O is)
      → ((es : Entries) → entries ≡ ok es → EntriesAreProper O [] es)
      → switch L s v fd place at fields items entries ≡ ok x
      → IsProper O x
  unfolding switch IsProper
  switch-IsProper Shape.scalar v fd place at fields items entries x kf ki ke h =
      IsPlain-IsProper O x (scalar_plain v fd place at x h)
  switch-IsProper Shape.message v fd place at fields items entries x kf ki ke h =
      let (fs, hf, hx) = >>=-eq-ok (fields (message_at fd place)) _ h in
      subst (IsProper O) (ok-injective hx) (kf _ fs hf)
  switch-IsProper Shape.list v fd place at fields items entries x kf ki ke h =
      let (is, hi, hx) = >>=-eq-ok items _ h in subst (IsProper O) (ok-injective hx) (ki is hi)
  switch-IsProper Shape.dictionary v fd place at fields items entries x kf ki ke h =
      let (es, he, hx) = >>=-eq-ok entries _ h in subst (IsProper O) (ok-injective hx) (ke es he)
  switch-IsProper Shape.no_shape v fd place at fields items entries x kf ki ke h = absurd (cc h)

  by_shape-IsProper :
      (v : Literal) (fd : FieldDescriptor) (place : Place) (at : At)
      (fields : String → Result Error Fields) (items : Result Error Items)
      (entries : Result Error Entries) (x : Value)
      → ((md : String) (fs : Fields) → fields md ≡ ok fs → FieldsAreProper O md [] [] fs)
      → ((is : Items) → items ≡ ok is → ItemsAreProper O is)
      → ((es : Entries) → entries ≡ ok es → EntriesAreProper O [] es)
      → by_shape L v fd place at fields items entries ≡ ok x
      → IsProper O x
  unfolding by_shape
  by_shape-IsProper v fd place at fields items entries x kf ki ke h =
      let (u, hu, hs) = >>=-eq-ok (L.check_arm v fd place at) _ h in
      switch-IsProper (L.shape_of v) v fd place at fields items entries x kf ki ke hs

  part-IsProper :
      (b : Bool) (md : String) (v : Literal) (fd : FieldDescriptor) (place : Place) (at : At)
      (fields : At → Result Error Fields) (x : Value)
      → ((at' : At) (fs : Fields) → fields at' ≡ ok fs → FieldsAreProper O md [] [] fs)
      → part L b md v fd place at fields ≡ ok x
      → IsProper O x
  unfolding part IsProper
  part-IsProper true md v fd place at fields x kf h =
      let (u, hu, h1) = >>=-eq-ok (L.check_arm v fd place at) _ h in
      let (m, h2) = if_err_else-eq-ok (not (is_message_shape (L.shape_of v))) _ _ h1 in
      let (fs, hf, hx) = >>=-eq-ok (fields (sub at "m")) _ h2 in
      subst (IsProper O) (ok-injective hx) (kf _ fs hf)
  part-IsProper false md v fd place at fields x kf h =
      IsPlain-IsProper O x (scalar_plain v fd place at x h)

  end-proper :
      (md : String) (fs : Fields)
      → ◌≡◌ {A = Result Error Fields} (ok Fields.end) (ok fs)
      → FieldsAreProper O md [] [] fs
  unfolding IsProper
  end-proper md fs h = subst (FieldsAreProper O md [] []) (ok-injective h) tt

  nil-proper :
      (is : Items) → ◌≡◌ {A = Result Error Items} (ok Items.nil) (ok is) → ItemsAreProper O is
  unfolding IsProper
  nil-proper is h = subst (ItemsAreProper O) (ok-injective h) tt

  empty-proper :
      (es : Entries)
      → ◌≡◌ {A = Result Error Entries} (ok Entries.empty) (ok es)
      → EntriesAreProper O [] es
  unfolding IsProper
  empty-proper es h = subst (EntriesAreProper O []) (ok-injective h) tt

  mutual
    unfolding materialize IsProper

    materialize_lem :
        (v : Literal) (fd : FieldDescriptor) (place : Place) (at : At) (x : Value)
        → materialize L v fd place at ≡ ok x
        → IsProper O x
    materialize_lem Literal.unset fd place at x h =
        by_shape-IsProper _ fd place at _ _ _ x end-proper nil-proper empty-proper h
    materialize_lem (Literal.scalar s) fd place at x h =
        by_shape-IsProper _ fd place at _ _ _ x end-proper nil-proper empty-proper h
    materialize_lem (Literal.message fs) fd place at x h =
        by_shape-IsProper _ fd place at _ _ _ x
          (λ md gs. fill_message_lem fs md 0 [] [] (sub at "m") gs) nil-proper empty-proper h
    materialize_lem (Literal.list vs) fd place at x h =
        by_shape-IsProper _ fd place at _ _ _ x end-proper
          (λ is. fill_list_lem vs fd 0 (sub at "l") is) empty-proper h
    materialize_lem (Literal.dictionary es) fd place at x h =
        by_shape-IsProper _ fd place at _ _ _ x end-proper nil-proper
          (λ fs. fill_map_lem es fd 0 [] (sub at "map") fs) h

    fill_arm_lem :
        (v : Literal) (md : String) (at : At) (fs : Fields)
        → fill_arm L v md at ≡ ok fs
        → FieldsAreProper O md [] [] fs
    fill_arm_lem (Literal.message gs) md at fs h = fill_message_lem gs md 0 [] [] at fs h
    fill_arm_lem _ md at fs h = end-proper md fs h

    fill_message_lem :
        (gs : FieldLiterals) (md : String) (i : ℕ) (seen : List ℕ) (oneofs : List String) (at : At)
        (fs : Fields)
        → fill_message L gs md i seen oneofs at ≡ ok fs
        → FieldsAreProper O md seen oneofs fs
    fill_message_lem FieldLiterals.end md i seen oneofs at fs h =
        subst (FieldsAreProper O md seen oneofs) (ok-injective h) tt
    fill_message_lem (FieldLiterals.field k v rest) md i seen oneofs at fs h =
        let at' = index at "fields" i in
        let (found, hr, h1) = >>=-eq-ok (L.resolve_field md k (sub at' "key")) _ h in
        elim (Option-cases found) [
          | inl e ↦ absurd (cc (rw e at h1))
          | inr (fd, e) ↦
              let known = oneof_known md k (sub at' "key") fd (rw e at hr) in
              let (new, h2) = if_err_else-eq-ok (contains_number fd.number seen) _ _ (rw e at h1) in
              let (free, h3) = if_err_else-eq-ok (any_in (true_oneof fd) oneofs) _ _ h2 in
              let (pv, hv, h4) =
                >>=-eq-ok (materialize L v fd whole_field (sub at' "value")) _ h3 in
              let (gs, hg, h5) =
                >>=-eq-ok
                  (fill_message L rest md (i + 1) (fd.number ∷ seen) (true_oneof fd ++ oneofs) at) _
                  h4 in
              subst (FieldsAreProper O md seen oneofs) (ok-injective h5) (
                new,
                subst (λ o. any_in o oneofs ≡ false) known free,
                materialize_lem v fd whole_field (sub at' "value") pv hv,
                subst (λ o. FieldsAreProper O md (fd.number ∷ seen) (o ++ oneofs) gs) known
                    (fill_message_lem rest md (i + 1) (fd.number ∷ seen) (true_oneof fd ++ oneofs)
                      at gs hg),
              )
        ]

    fill_list_lem :
        (vs : Literals) (fd : FieldDescriptor) (i : ℕ) (at : At) (is : Items)
        → fill_list L vs fd i at ≡ ok is
        → ItemsAreProper O is
    fill_list_lem Literals.nil fd i at is h = subst (ItemsAreProper O) (ok-injective h) tt
    fill_list_lem (Literals.cons v rest) fd i at is h =
        let at' = index at "values" i in
        let (pv, hv, h1) =
          >>=-eq-ok
            (part L (is_compound fd.kind) fd.message v fd element at' (fill_arm L v fd.message)) _
            h in
        let (js, hj, h2) = >>=-eq-ok (fill_list L rest fd (i + 1) at) _ h1 in
        subst (ItemsAreProper O) (ok-injective h2) (
          part-IsProper (is_compound fd.kind) fd.message v fd element at' (fill_arm L v fd.message)
              pv (λ a fs. fill_arm_lem v fd.message a fs) hv,
          fill_list_lem rest fd (i + 1) at js hj,
        )

    fill_map_lem :
        (es : EntryLiterals) (fd : FieldDescriptor) (i : ℕ) (seen : List MapKey) (at : At)
        (xs : Entries)
        → fill_map L es fd i seen at ≡ ok xs
        → EntriesAreProper O seen xs
    fill_map_lem EntryLiterals.empty fd i seen at xs h =
        subst (EntriesAreProper O seen) (ok-injective h) tt
    fill_map_lem (EntryLiterals.entry k v rest) fd i seen at xs h =
        let at' = index at "entries" i in
        let (mk, hk, h1) = >>=-eq-ok (L.map_key_for k fd (sub at' "key")) _ h in
        let (new, h2) = if_err_else-eq-ok (contains_key mk seen) _ _ h1 in
        let (pv, hv, h3) =
          >>=-eq-ok
            (part L (is_compound fd.map_value_kind) fd.map_value_message v fd map_value
              (sub at' "value") (fill_arm L v fd.map_value_message))
            _ h2 in
        let (ys, hy, h4) = >>=-eq-ok (fill_map L rest fd (i + 1) (mk ∷ seen) at) _ h3 in
        subst (EntriesAreProper O seen) (ok-injective h4) (
          new,
          part-IsProper (is_compound fd.map_value_kind) fd.map_value_message v fd map_value
              (sub at' "value") (fill_arm L v fd.map_value_message) pv
              (λ a fs. fill_arm_lem v fd.map_value_message a fs) hv,
          fill_map_lem rest fd (i + 1) (mk ∷ seen) at ys hy,
        )

  -- If the scalars that the patch package reads are no messages, lists or maps, and the fields of one
  -- number that it resolves in a message are of one oneof, then in a value that a literal
  -- materializes to, at any depth, no message has a field twice or two members of one oneof that is
  -- not synthetic, and no map a key twice.
  pub materialize-IsProper :
      (v : Literal) (fd : FieldDescriptor) (place : Place) (at : At) (x : Value)
      → materialize L v fd place at ≡ ok x
      → IsProper O x
  materialize-IsProper v fd place at x h = materialize_lem v fd place at x h
