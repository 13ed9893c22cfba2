-- ===== src/Graph/Rpc.antt =====
-- graph/rpc.go: the RPCs of an entity.
pub mod Laws
use Prim.Native.String.{◌++◌ as join}
use protobuf_orm.Base.{ℕ, String, Bool, true, false, not, Option, none, some, ltb, if◌then◌else◌}
use protobuf_orm.Ormpb.Options.{RpcOptions, RpcAddOptions, RpcAddManyOptions, RpcMethodOptions, has}

-- `protoreflect.FullName`: its methods Parent, Name and Append
pub record FullNames : Type 0 where
  pub parent : String → String
  pub base : String → String
  pub append : String → String → String

-- rpc, without the entity: its full name and those of its messages
pub record Rpc : Type 0 where
  pub full_name : String
  pub request : String
  pub response : String

-- rpcAddMany
pub record AddMany : Type 0 where
  pub rpc : Rpc
  pub opts : RpcAddManyOptions

-- rpcMap
pub record RpcMap : Type 0 where
  pub add : Option Rpc
  pub add_many : Option AddMany
  pub get : Option Rpc
  pub patch : Option Rpc
  pub erase : Option Rpc

abbrev pub no_rpcs : RpcMap
no_rpcs = record { add = none; add_many = none; get = none; patch = none; erase = none }

abbrev or_default {ℓ} : {A : Type ℓ} → Option A → A → Option A
or_default none a = some a
or_default (some b) a = some b

-- `if opts.GetCrud() { … }`: what is not set is set in the options themselves
unfoldable pub set_crud : RpcOptions → RpcOptions
set_crud opts =
    if opts.crud
    then record opts {
      add = or_default opts.add (record { disabled = false; many = none });
      get = or_default opts.get (record { disabled = false });
      patch = or_default opts.patch (record { disabled = false });
      erase = or_default opts.erase (record { disabled = false });
    }
    else opts

module _ (N : FullNames) (entity : String) where
  -- the names of the service, and of a message beside the entity
  abbrev rpc_name : String → String
  rpc_name method = N.append (N.append (N.parent entity) (join (N.base entity) "Service")) method

  abbrev message_name : String → String
  message_name suffix = N.append (N.parent entity) (join (N.base entity) suffix)

  abbrev rpc_of : String → String → String → Rpc
  rpc_of method request response = record {
    full_name = rpc_name method;
    request = request;
    response = response;
  }

  abbrev add_rpc : Option RpcAddOptions → Option Rpc
  add_rpc none = none
  add_rpc (some o) =
      if o.disabled then none else some (rpc_of "Add" (message_name "AddRequest") entity)

  abbrev many_rpc : Option RpcAddManyOptions → Option AddMany
  many_rpc none = none
  many_rpc (some m) = some (record {
    rpc = rpc_of "AddMany" (message_name "AddManyRequest") (message_name "AddManyResponse");
    opts = m;
  })

  abbrev add_many_rpc : Option RpcAddOptions → Option AddMany
  add_many_rpc none = none
  add_many_rpc (some o) = if o.disabled then none else many_rpc o.many

  abbrev method_rpc : Option RpcMethodOptions → Rpc → Option Rpc
  method_rpc none r = none
  method_rpc (some o) r = if o.disabled then none else some r

  -- parseRpcs: the RPCs, and the options as it leaves them
  unfoldable pub parse_rpcs : RpcOptions → RpcMap × RpcOptions
  parse_rpcs opts =
      if opts.disabled
      then (no_rpcs, opts)
      else let o = set_crud opts in
        (
          record {
            add = add_rpc o.add;
            add_many = add_many_rpc o.add;
            get = method_rpc o.get (rpc_of "Get" (message_name "Ref") entity);
            patch =
                method_rpc o.patch
                  (rpc_of "Patch" (message_name "PatchRequest") "google.protobuf.Empty");
            erase =
                method_rpc o.erase (rpc_of "Erase" (message_name "Ref") "google.protobuf.Empty");
          },
          o,
        )

-- DefaultAddManyMax
abbrev pub default_add_many_max : ℕ
default_add_many_max = 1000

-- rpcAddMany.Max
unfoldable pub add_many_max : AddMany → ℕ
add_many_max r = if ltb 0 r.opts.max then r.opts.max else default_add_many_max
