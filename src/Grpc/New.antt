-- ===== src/Grpc/New.antt =====
-- NewGRPCPools of gokit/transport/pool/grpc/pools.go.
use jkfr.Prelude.{ℕ, true, false, List, [], ◌∷◌, pos}
use jkfr.Pool.Options.{Options}
use jkfr.Grpc.{
  GrpcPools, StPool, Net, CallError, least, least_get, Found, found, missing, get_and_push,
  close_pools, set_retry_times, set_retry_interval, set_idle_time_out, set_strategy,
}

abbrev no_stpool : StPool
no_stpool = record { net = 0; addr = 0; last = 0; call = pos 0; static = false }

-- The fields that Go sets to zero, before the setters are called.
abbrev pub blank : Options → GrpcPools
blank o = record {
  store = λ p. no_stpool;
  made = 0;
  addr2pool = [];
  pools = [];
  opt = o;
  get_pool = least_get;
  strategy = least;
  retry_times = 0;
  retry_interval = pos 0;
  idle_time_out = 0;
  index = 0;
  is_closed = false;
  closed = [];
}

abbrev pub configured : Options → GrpcPools
configured o =
    set_retry_interval 1000
      (set_strategy least (set_idle_time_out 600 (set_retry_times 3 (blank o))))

-- What NewGRPCPools returns: the pools, or an error with the pools that it closed.
pub data NewPools : Type 0 where
  ready : GrpcPools → NewPools
  dropped : GrpcPools → CallError → NewPools

unfoldable pub push_rest : (GrpcPools → NewPools) → GrpcPools × Found → NewPools
push_rest again (s, found p) = again s
push_rest again (s, missing e) = dropped (close_pools s) e

-- The loop over the addresses.
unfoldable pub push_all : (ℕ → Net) → Options → List ℕ → GrpcPools → NewPools
push_all envs o [] s = ready s
push_all envs o (a ∷ rest) s = push_rest (push_all envs o rest) (get_and_push (envs a) s a o true)

-- NewGRPCPools
unfoldable pub new_grpc_pools : (ℕ → Net) → List ℕ → Options → NewPools
new_grpc_pools envs addrs o = push_all envs o addrs (configured o)
