-- ===== src/Rpc/Tests.antt =====
-- Runs of the RpcPools of gokit/transport/pool/rpc/pools.go over two servers, and the theorems at
-- these runs.
use jkfr.Prelude.{
  ◌+◌, ◌*◌, ◌%◌, ◌≡◌, ◌≢◌, refl, true, false, Option, none, some, [], ◌∷◌, arith, ◌==◌,
  if◌then◌else◌, get_elem?, wrap_int64,
}
use jkfr.Pool.Options.{second, new_options}
use jkfr.Grpc.{
  Net, opened, reply, failure, net_error, get_and_push, new_and_push, push_opened, push_pool,
  set_retry_times, set_retry_interval, set_idle_time_out, set_strategy,
}
use jkfr.Grpc.New.{ready, push_all, push_rest}
use jkfr.Grpc.Pick.{scan, least_of, least_get_when_less}
use jkfr.Grpc.Call.{call_over}
use jkfr.Grpc.Sound.{IsLimited}
use jkfr.Prelude.{◌+ℤ◌}
use jkfr.Rpc.{
  RpcPools, rpc_configured, new_rpc_pools, rpc_get_index_ex, rpc_get_roll, rpc_get_least, rpc_pick,
  rpc_close, rpc_get_and_push,
}
use jkfr.Rpc.Call.{
  RpcAnswer, done, rpc_call, rpc_judge, rpc_attempt, rpc_call_with_func, rpc_call_with_context,
}
use jkfr.Rpc.Moves.{rpc_get_roll-next}
use jkfr.Grpc.Sound.{IsSound}
use jkfr.Rpc.Trace.{here, next, opens, rolls, closes, rpc_reached-IsSound}
use jkfr.Rpc.Attempts.{IsAnswer, rpc_call_with_context-IsAnswer}

-- Server 10 answers no call, though it is connected.
abbrev net : Net
net = record {
  now = 1000 * second;
  dial_pool = λ o a. opened a;
  is_connected = λ n. true;
  invoke = λ n. if n == 10 then failure (net_error 1) else reply n;
  draw = λ i. 0;
}

abbrev two : RpcPools
two =
    (get_and_push net (get_and_push net (rpc_configured new_options) 10 new_options true).0 20
      new_options true).0

what_runs : Unit {0}
unfolding get_and_push new_and_push push_opened push_pool set_retry_times set_retry_interval
    set_idle_time_out set_strategy wrap_int64 push_all push_rest new_rpc_pools scan least_of
    least_get_when_less call_over rpc_get_index_ex rpc_get_roll rpc_get_least rpc_pick rpc_call
    rpc_judge rpc_attempt rpc_call_with_func ◌+ℤ◌
what_runs = tt

two_made : new_rpc_pools (λ a. net) (10 ∷ 20 ∷ []) new_options ≡ ready two
unfolding what_runs
two_made = refl

-- A third server is opened for a call, the next pool is chosen, and all are closed.
abbrev after : RpcPools
after = rpc_close (rpc_get_roll net (rpc_get_and_push net two 30 new_options false).0).0

rpc_reached-IsSound_example : IsSound after
rpc_reached-IsSound_example =
    rpc_reached-IsSound (λ a. net) (10 ∷ 20 ∷ []) new_options two after two_made
      (next
        (next (next here (opens net two 30 new_options false))
          (rolls net (rpc_get_and_push net two 30 new_options false).0))
        (closes (rpc_get_roll net (rpc_get_and_push net two 30 new_options false).0).0))

-- The first attempt goes to server 10 and fails, and the second to server 20.
abbrev answer : Option (RpcPools × RpcAnswer) → Option RpcAnswer
answer none = none
answer (some (s, r)) = some r

second_server : answer (rpc_call_with_context (λ i. net) two) ≡ some (done 20)
unfolding what_runs
second_server = refl

rpc_get_roll-next_example :
    ((rpc_get_roll net two).1 ≡ get_elem? two.pools ((0 + 1) % 2))
    × ((rpc_get_roll net two).0.index ≢ 0)
unfolding what_runs
rpc_get_roll-next_example = rpc_get_roll-next net two (omega arith) (omega arith) (omega arith) refl

two-IsLimited : IsLimited two
unfolding what_runs
two-IsLimited = record {
  tried = omega arith;
  bounded = omega arith;
  spaced = omega arith;
  patient = omega arith;
}

rpc_call_with_context-IsAnswer_example :
    (t : RpcPools) × (r : RpcAnswer) × (rpc_call_with_context (λ i. net) two ≡ some (t, r))
    × IsAnswer two.retry_times r
rpc_call_with_context-IsAnswer_example = rpc_call_with_context-IsAnswer (λ i. net) two two-IsLimited
