-- ===== src/Ormpatch/Compile/Sites.antt =====
-- The sites that the address methods of ormpatch/compile.go resolve to.
use protobuf_orm.Base.{ℕ, ◌+◌, ◌≡◌, refl, ◌∙◌, ap, List, [], ◌∷◌, Option, none, some, arith}
use protobuf_orm.Base.Result.{ok, err, >>=-eq-ok, ok-injective}
use protobuf_orm.Graph.Prop.{Prop, field, edge}
use protobuf_orm.Graph.Entity.{Target, Entity}
use protobuf_orm.Ormpatch.Document.{Key, Selector}
use protobuf_orm.Ormpatch.Errors.{At, Error, index, sub}
use protobuf_orm.Ormpatch.Library.{Library}
use protobuf_orm.Ormpatch.Props.{resolve, resolve-IsColumn}
use protobuf_orm.Ormpatch.Compile.Address.{
  Site, root_site, edge_site, map_site, list_site, site_of, walk_step, walk, enter,
}
use protobuf_orm.Ormpatch.Compile.Suits.{IsColumn, IsSound}

site_of-IsSound :
    (ent : Entity) (v : Prop Target) (at : At) {s : Site}
    → IsColumn ent v
    → site_of v at ≡ ok s
    → IsSound ent s
unfolding site_of
site_of-IsSound ent (field f) at {s = root_site} b h = tt
site_of-IsSound ent (field f) at {s = edge_site ed} b h = ground arith
site_of-IsSound ent (field f) at {s = map_site v} b h = ground arith
site_of-IsSound ent (field f) at {s = list_site v} b h = ground arith
site_of-IsSound ent (edge e) at {s = root_site} b h = tt
site_of-IsSound ent (edge e) at {s = edge_site ed} b h = ground arith
site_of-IsSound ent (edge e) at {s = map_site v} b h = ground arith
site_of-IsSound ent (edge e) at {s = list_site v} b h = ground arith

module _ (L : Library) (ent : Entity) where
  found_site-IsSound :
      (found : Option (Prop Target)) (e : Error) (at : At) {s : Site}
      → ((v : Prop Target) → found ≡ some v → IsColumn ent v)
      → elim found [ none ↦ err e | some v ↦ site_of v at ] ≡ ok s
      → IsSound ent s
  found_site-IsSound none e at b h = absurd (cc)
  found_site-IsSound (some v) e at b h = site_of-IsSound ent v at (b v refl) h

  walk_step-IsSound :
      (s : Site) (seg : Key) (at : At) {s' : Site}
      → walk_step L ent s seg at ≡ ok s'
      → IsSound ent s'
  unfolding walk_step
  walk_step-IsSound root_site (Key.field f) at h =
      let (found, e, h') = >>=-eq-ok (resolve L ent f (sub at "field")) _ h in
      found_site-IsSound found _ at (λ v x. resolve-IsColumn L ent f (sub at "field") (e ∙ ap ok x))
        h'
  walk_step-IsSound root_site (Key.map_key k) at h = absurd (cc)
  walk_step-IsSound root_site (Key.index i) at h = absurd (cc)
  walk_step-IsSound root_site Key.unset at h = absurd (cc)
  walk_step-IsSound (edge_site ed) seg at h = absurd (cc)
  walk_step-IsSound (map_site v) seg at h = absurd (cc)
  walk_step-IsSound (list_site v) seg at h = absurd (cc)

  pub walk-IsSound :
      (s : Site) (segs : List Key) (i : ℕ) (at : At) {s' : Site}
      → IsSound ent s
      → walk L ent s segs i at ≡ ok s'
      → IsSound ent s'
  unfolding walk
  walk-IsSound s [] i at hs h = rw (ok-injective h) at hs
  walk-IsSound s (seg ∷ segs) i at hs h =
      let (s₁, e, h') = >>=-eq-ok (walk_step L ent s seg (index at "segments" i)) _ h in
      walk-IsSound s₁ segs (i + 1) at (walk_step-IsSound s seg _ e) h'

  pub enter-IsSound :
      (s : Site) (sel : Selector) (at : At) {s' : Site}
      → enter L ent s sel at ≡ ok s'
      → IsSound ent s'
  unfolding enter
  enter-IsSound root_site (Selector.key (Key.field f)) at h =
      let (found, e, h') = >>=-eq-ok (resolve L ent f at) _ h in
      found_site-IsSound found _ at (λ v x. resolve-IsColumn L ent f at (e ∙ ap ok x)) h'
  enter-IsSound root_site (Selector.key _) at h = absurd (cc)
  enter-IsSound root_site _ at h = absurd (cc)
  enter-IsSound _ sel at h = absurd (cc)
