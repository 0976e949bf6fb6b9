-- ===== src/Rpc/Call.antt =====
-- The calls of RpcPools in gokit/transport/pool/rpc/pools.go: a retry goes to the next server.
use jkfr.Prelude.{
  ℕ, zero, suc, ◌+◌, Option, none, some, List, [], ◌∷◌, ◌++◌, leb, ◌==◌, if◌then◌else◌,
}
use jkfr.Grpc.{Net, CallError, Reply, reply, failure}
use jkfr.Grpc.Call.{call_picked, call_addr}
use jkfr.Rpc.{RpcPools, rpc_pick, rpc_get_roll}

-- call: the strategy chooses for the first attempt, and each retry takes the next pool.
unfoldable pub rpc_call : ℕ → Net → RpcPools → RpcPools × Reply
rpc_call retry env s =
    if retry == 0
    then call_picked env (rpc_pick env s s.get_pool)
    else call_picked env (rpc_get_roll env s)

-- What call_with_func returns: nil, ErrClosed, or the errors, each with its number.
pub data RpcAnswer : Type 0 where
  done : ℕ → RpcAnswer
  pools_shut : RpcAnswer
  failed_all : List (ℕ × CallError) → RpcAnswer

unfoldable pub rpc_judge :
    ℕ
    → List (ℕ × CallError)
    → (List (ℕ × CallError) → RpcPools → Option (RpcPools × RpcAnswer))
    → RpcPools × Reply
    → Option (RpcPools × RpcAnswer)
rpc_judge retry errs again (s, reply r) = some (s, done r)
rpc_judge retry errs again (s, failure e) =
    if leb s.retry_times (retry + 1)
    then some (s, failed_all (errs ++ (retry + 1, e) ∷ []))
    else again (errs ++ (retry + 1, e) ∷ []) s

-- The loop of call_with_func; none means that the fuel ran out.
unfoldable pub rpc_attempt :
    ℕ
    → (ℕ → Net)
    → (ℕ → Net → RpcPools → RpcPools × Reply)
    → ℕ
    → List (ℕ × CallError)
    → RpcPools
    → Option (RpcPools × RpcAnswer)
rpc_attempt zero envs f retry errs s = none
rpc_attempt (suc fuel) envs f retry errs s =
    if s.is_closed
    then some (s, pools_shut)
    else rpc_judge retry errs (rpc_attempt fuel envs f (retry + 1)) (f retry (envs retry) s)

-- call_with_func: SetRetryTimes keeps the number of attempts at 10 or below.
unfoldable pub rpc_call_with_func :
    (ℕ → Net) → (ℕ → Net → RpcPools → RpcPools × Reply) → RpcPools → Option (RpcPools × RpcAnswer)
rpc_call_with_func envs f s = rpc_attempt 10 envs f 0 [] s

-- CallWithTimeOut and CallWithContext
abbrev pub rpc_call_with_context : (ℕ → Net) → RpcPools → Option (RpcPools × RpcAnswer)
rpc_call_with_context envs s = rpc_call_with_func envs rpc_call s

-- CallWithAddrEx
abbrev pub rpc_call_with_addr : (ℕ → Net) → ℕ → RpcPools → Option (RpcPools × RpcAnswer)
rpc_call_with_addr envs a s = rpc_call_with_func envs (λ retry. call_addr a) s
