-- ===== src/Single.antt =====
-- RpcPool and GRPCPool of gokit/transport/pool/rpc/pool.go and grpc/pool.go: calls to one server over its
-- pool. What a call over a client comes to is an argument.
pub mod Account
mod Tests
use jkfr.Prelude.{ℕ, Bool, true, false, some, ltb}
use jkfr.Pool.Options.{Error}
use jkfr.Pool.Client.{Env}
use jkfr.Pool.Clients.{Got, got, failed, fault}
use jkfr.Pool.Calls.{Pool, get_client, put, pool_valid_count, close_pool}

-- What a call of RpcPool comes to: `rpc_reply`, an rpc.ServerError, another error of the call, or the
-- end of its context.
pub data RpcEnd : Type 0 where
  rpc_reply server_error call_error : ℕ → RpcEnd
  context_done : RpcEnd

-- What is put back as GOOD.
unfoldable pub rpc_good : RpcEnd → Bool
rpc_good (rpc_reply r) = true
rpc_good (server_error e) = true
rpc_good (call_error e) = false
rpc_good context_done = false

-- The codes that call distinguishes.
pub data Code : Type 0 where
  code_ok code_unknown code_unimplemented other_code : Code

-- What a call of GRPCPool comes to: a response, an error with a status, or an error without one.
pub data GrpcEnd : Type 0 where
  grpc_reply : ℕ → GrpcEnd
  status_error : Code → GrpcEnd
  plain_error : ℕ → GrpcEnd

unfoldable pub code_good : Code → Bool
code_good code_ok = true
code_good code_unknown = true
code_good code_unimplemented = true
code_good other_code = false

unfoldable pub grpc_good : GrpcEnd → Bool
grpc_good (grpc_reply r) = true
grpc_good (status_error c) = code_good c
grpc_good (plain_error e) = false

-- What a call returns: the error of Get, the error of a client of another type, or how it ended. Get may
-- panic.
pub data Called (A : Type 0) : Type 0 where
  get_error : Error → Called A
  get_panicked not_client : Called A
  ended : A → Called A

module _ {A : Type 0} (good : A → Bool) where
  abbrev pub call_got : Env → Bool → A → Pool × Got → Pool × Called A
  call_got env is_client a (pl, failed e) = (pl, get_error e)
  call_got env is_client a (pl, fault) = (pl, get_panicked)
  call_got env false a (pl, got p) = (pl, not_client)
  call_got env true a (pl, got p) = ((put env pl (some p) (good a)).0, ended a)

-- RpcPool.call: `before` and `after` surround the call, and `is_client` tells whether the client of the
-- pool is an *rpc.Client.
unfoldable pub rpc_pool_call : Env → Env → Bool → RpcEnd → Pool → Pool × Called RpcEnd
rpc_pool_call before after is_client a pl =
    call_got rpc_good after is_client a (get_client before pl)

-- GRPCPool.CallWithContext
unfoldable pub grpc_pool_call : Env → Env → Bool → GrpcEnd → Pool → Pool × Called GrpcEnd
grpc_pool_call before after is_client a pl =
    call_got grpc_good after is_client a (get_client before pl)

-- IsConnected, of both
abbrev pub is_connected : Pool → Bool
is_connected pl = ltb 0 (pool_valid_count pl)
