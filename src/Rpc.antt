-- ===== src/Rpc.antt =====
-- RpcPools of gokit/transport/pool/rpc/pools.go. The file is a copy of gokit/transport/pool/grpc/pools.go
-- up to names, with an RpcPool for the GRPCPool, except for what this module and its children define
-- anew: the choice of a pool, the calls, and the constructor.
pub mod Call
pub mod Moves
pub mod Attempts
pub mod Trace
mod Tests
use jkfr.Prelude.{
  ℕ, ◌+◌, ◌*◌, ◌%◌, Bool, true, Option, none, some, List, [], ◌∷◌, leb, ◌==◌, if◌then◌else◌, length,
  get_elem?, ℤ,
}
use jkfr.Pool.Options.{Options}
use jkfr.Grpc.{
  GrpcPools, Net, GetPoolFunc, random_get, roll_get, least_get, Strategy, least, Found, found,
  missing, new_and_push, get_and_push, push_pool, close_pools, remove_index, get_server_index,
  set_retry_times, set_retry_interval, set_idle_time_out, set_strategy, StPool,
}
use jkfr.Grpc.Pick.{wrap32, is_up_at, scan, settle_at, least_get_when_less, least_get_when_bigger}
use jkfr.Grpc.Idle.{idle_check}
use jkfr.Grpc.New.{NewPools, blank, push_all}

-- The same fields.
abbrev pub RpcPools : Type 0
RpcPools = GrpcPools

abbrev pub at_index : RpcPools → ℕ → RpcPools
at_index s i = record s { index = i }

-- get_index_ex: the index is that of the pool that is returned.
unfoldable pub rpc_get_index_ex : Net → RpcPools → ℕ → RpcPools × Option ℕ
rpc_get_index_ex env s index =
    if length s.pools == 0
    then (s, none)
    else let p = get_elem? s.pools (index % length s.pools) in
      let s' = at_index s (index % length s.pools) in
      if is_up_at env s p then (s', p) else settle_at s' p (scan env s' index (length s.pools) 0)

-- roll_get
unfoldable pub rpc_get_roll : Net → RpcPools → RpcPools × Option ℕ
rpc_get_roll env s =
    let index = wrap32 (s.index + 1) in rpc_get_index_ex env (at_index s index) index

-- random_get
unfoldable pub rpc_get_random : Net → RpcPools → RpcPools × Option ℕ
rpc_get_random env s = rpc_get_index_ex env (at_index s (env.draw 0)) (env.draw 0)

-- least_get
unfoldable pub rpc_get_least : Net → RpcPools → RpcPools × Option ℕ
rpc_get_least env s =
    let index =
      if leb (length s.pools) 20 then least_get_when_less env s else least_get_when_bigger env s in
    if length s.pools == 0 then (s, none) else rpc_get_index_ex env (at_index s index) index

-- pls.get_pool()
unfoldable pub rpc_pick : Net → RpcPools → GetPoolFunc → RpcPools × Option ℕ
rpc_pick env s random_get = rpc_get_random env s
rpc_pick env s roll_get = rpc_get_roll env s
rpc_pick env s least_get = rpc_get_least env s

abbrev pub rpc_configured : Options → RpcPools
rpc_configured o =
    set_retry_interval 1000
      (set_strategy least (set_idle_time_out (24 * 60 * 60) (set_retry_times 3 (blank o))))

-- NewRpcPools
unfoldable pub new_rpc_pools : (ℕ → Net) → List ℕ → Options → NewPools
new_rpc_pools envs addrs o = push_all envs o addrs (rpc_configured o)

-- The methods that are copies.
abbrev pub rpc_get_and_push : Net → RpcPools → ℕ → Options → Bool → RpcPools × Found
rpc_get_and_push env s a o static = get_and_push env s a o static

abbrev pub rpc_close : RpcPools → RpcPools
rpc_close s = close_pools s

abbrev pub rpc_remove_index : RpcPools → ℤ → RpcPools
rpc_remove_index s i = remove_index s i

abbrev pub rpc_close_server : RpcPools → ℕ → RpcPools
rpc_close_server s a = rpc_remove_index s (get_server_index s a)

abbrev pub rpc_idle_check : Net → RpcPools → Option RpcPools
rpc_idle_check env s = idle_check env s

abbrev pub rpc_set_retry_times : ℕ → RpcPools → RpcPools
rpc_set_retry_times n s = set_retry_times n s

abbrev pub rpc_set_retry_interval : ℕ → RpcPools → RpcPools
rpc_set_retry_interval ms s = set_retry_interval ms s

abbrev pub rpc_set_idle_time_out : ℕ → RpcPools → RpcPools
rpc_set_idle_time_out secs s = set_idle_time_out secs s

abbrev pub rpc_set_strategy : Strategy → RpcPools → RpcPools
rpc_set_strategy n s = set_strategy n s
