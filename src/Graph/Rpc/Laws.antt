-- ===== src/Graph/Rpc/Laws.antt =====
-- Which RPCs graph/rpc.go gives an entity.
use protobuf_orm.Base.{
  String, ◌≡◌, ◌≤◌, ◌⊎◌, Bool, true, false, not, ◌&&◌, Option, none, some, arith,
}
use protobuf_orm.Ormpb.Options.{RpcOptions, RpcAddOptions, RpcMethodOptions, has}
use protobuf_orm.Graph.Rpc.{FullNames, set_crud, parse_rpcs, add_many_max, AddMany}

-- An RPC is asked for: by its own option, or by `crud`.
abbrev pub is_asked_add : Bool → Option RpcAddOptions → Bool
is_asked_add crud none = crud
is_asked_add crud (some o) = not o.disabled

abbrev pub is_asked : Bool → Option RpcMethodOptions → Bool
is_asked crud none = crud
is_asked crud (some o) = not o.disabled

module _ (N : FullNames) (entity : String) where
  -- Unless the entity's RPCs are disabled as a whole, it has an Add, a Get, a Patch and an Erase
  -- exactly where the RPC's own option is set and not disabled, or is not set and `crud` is; and it
  -- has an AddMany only beside an Add.
  pub parse_rpcs-has :
      (opts : RpcOptions)
      → let m = (parse_rpcs N entity opts).0 in
        (has m.add ≡ (not opts.disabled && is_asked_add opts.crud opts.add))
        × (has m.get ≡ (not opts.disabled && is_asked opts.crud opts.get))
        × (has m.patch ≡ (not opts.disabled && is_asked opts.crud opts.patch))
        × (has m.erase ≡ (not opts.disabled && is_asked opts.crud opts.erase))
        × ((has m.add_many ≡ false) ⊎ (has m.add ≡ true))
  unfolding parse_rpcs set_crud
  parse_rpcs-has opts = ground arith

  -- Parsing an entity again, with the options as the first parse left them, gives the same RPCs and
  -- changes the options no further.
  pub parse_rpcs-parse_rpcs :
      (opts : RpcOptions)
      → parse_rpcs N entity (parse_rpcs N entity opts).1 ≡ parse_rpcs N entity opts
  unfolding parse_rpcs set_crud
  parse_rpcs-parse_rpcs opts = ground arith

-- One call of AddMany may always carry an item: its maximum is the option's where that is not 0,
-- and 1000 where it is.
add_many_max-bounds :
    (r : AddMany) → (1 ≤ add_many_max r) × ((r.opts.max ≡ 0) ⊎ (add_many_max r ≡ r.opts.max))
unfolding add_many_max
add_many_max-bounds r = ground arith
