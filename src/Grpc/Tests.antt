-- ===== src/Grpc/Tests.antt =====
-- Runs of the GRPCPools of gokit/transport/pool/grpc/pools.go over two servers, and the theorems at
-- these runs.
use jkfr.Prelude.{
  ◌^◌, ◌-◌, ℕ, zero, suc, subst, sym, ◌*◌, ◌≡◌, refl, true, false, none, some, [], ◌∷◌, arith, ◌==◌,
  if◌then◌else◌, elem, pos, negsuc, ◌<◌, length, wrap_int64, ◌≤ℤ◌,
}
use jkfr.Pool.Options.{second, new_options}
use jkfr.Pool.Clients.{max_int64}
use jkfr.Grpc.{
  GrpcPools, Net, opened, Reply, reply, failure, net_error, get_and_push, new_and_push, push_opened,
  push_pool, set_retry_times, set_retry_interval, set_idle_time_out, set_strategy, close_server,
}
use jkfr.Grpc.Pick.{scan, get_index_ex, calls_at, least_get_when_less}
use jkfr.Grpc.Idle.{is_expired, remove_idle_time_out}
use jkfr.Grpc.Call.{counted, call, call_with_context}
use jkfr.Grpc.New.{ready, configured, push_all, push_rest, new_grpc_pools}
use jkfr.Grpc.Sound.{IsSound, IsLimited}
use jkfr.Grpc.Trace.{Reach, here, next, opens, counts, closes_server, reached-IsSound}
use jkfr.Grpc.Ready.{get_index_ex-connected}
use jkfr.Grpc.Attempts.{Tries, call_with_context-Tries}
use jkfr.Grpc.Expiry.{keepers, closed_after, remove_idle_time_out-keepers}
use jkfr.Grpc.Least.{least_get_when_less-le}

-- The GRPCPool to an address has the address's number; that of server 10 has lost its connections.
abbrev net : Net
net = record {
  now = 1000 * second;
  dial_pool = λ o a. opened a;
  is_connected = λ n. if n == 10 then false else true;
  invoke = λ n. if n == 10 then failure (net_error 1) else reply n;
  draw = λ i. 5;
}

abbrev later : Net
later = record net { now = 9000 * second }

-- What NewGRPCPools makes of the servers 10 and 20.
abbrev two : GrpcPools
two =
    (get_and_push net (get_and_push net (configured new_options) 10 new_options true).0 20
      new_options true).0

what_runs : Unit {0}
unfolding get_and_push new_and_push push_opened push_pool get_index_ex scan set_retry_times
    set_retry_interval set_idle_time_out set_strategy wrap_int64 push_all push_rest new_grpc_pools
    elem
what_runs = tt

two_made : new_grpc_pools (λ a. net) (10 ∷ 20 ∷ []) new_options ≡ ready two
unfolding what_runs
two_made = refl

two_listed : (two.pools ≡ 1 ∷ 2 ∷ []) × (two.addr2pool ≡ (20, 2) ∷ (10, 1) ∷ [])
unfolding what_runs
two_listed = (refl, refl)

-- An interval of more than 292 years wraps, and is negative.
interval_wraps :
    (set_retry_interval 9_223_372_036_855 two).retry_interval ≡ negsuc 9_223_372_036_854_551_615
unfolding what_runs
interval_wraps = refl

-- A third server is opened for a call, and the first is closed while the call runs.
abbrev three : GrpcPools
three = counted (pos 1) (get_and_push net two 30 new_options false).0 3

abbrev after : GrpcPools
after = close_server three 10

after_reached : Reach two after
after_reached =
    next
      (next (next here (opens net two 30 new_options false))
        (counts (pos 1) (get_and_push net two 30 new_options false).0 3))
      (closes_server three 10)

reached-IsSound_example : IsSound after
reached-IsSound_example =
    reached-IsSound (λ a. net) (10 ∷ 20 ∷ []) new_options two after two_made after_reached

-- Index 0 is the server without connections.
get_index_ex-connected_example :
    (p : ℕ) × ((get_index_ex net two 0).1 ≡ some p)
    × (elem p two.pools ≡ true)
    × (net.is_connected (two.store p).net ≡ true)
unfolding what_runs
get_index_ex-connected_example = get_index_ex-connected net two 0 2 (omega arith) refl refl

-- Of three pools only the third is connected. From the greatest uint32 on the sum wraps after one round,
-- so the loop looks at the pools 0, 0 and 1, and the unconnected pool 0 is returned.
abbrev third_only : Net
third_only = record net { is_connected = λ n. if n == 30 then true else false }

wrapped : (get_index_ex third_only three (2 ^ 32 - 1)).1 ≡ some 1
unfolding what_runs
wrapped = refl

third_up : third_only.is_connected (three.store 3).net ≡ true
unfolding what_runs
third_up = refl

two-IsLimited : IsLimited two
two-IsLimited =
    (reached-IsSound (λ a. net) (10 ∷ 20 ∷ []) new_options two two two_made here).limited

call_with_context-Tries_example :
    (t : GrpcPools) × (r : Reply) × (call_with_context (λ i. net) two ≡ some (t, r))
    × Tries (λ i. net) call 0 none two t r
call_with_context-Tries_example = call_with_context-Tries (λ i. net) two two-IsLimited

remove_idle_time_out-keepers_example :
    (t : GrpcPools) × (remove_idle_time_out later three ≡ some t)
    × (t.pools ≡ keepers (is_expired later three) three.pools)
    × (t.closed ≡ closed_after (is_expired later three) three.store three.pools three.closed)
    × (t.store ≡ three.store)
remove_idle_time_out-keepers_example = remove_idle_time_out-keepers later three

calls_of_two : (i : ℕ) → calls_at two i ≡ pos 0
unfolding what_runs
calls_of_two zero = refl
calls_of_two (suc zero) = refl
calls_of_two (suc (suc i)) = refl

least_get_when_less-le_example :
    (least_get_when_less net two < length two.pools)
    × (calls_at two (least_get_when_less net two) ≤ℤ calls_at two 1)
unfolding what_runs
least_get_when_less-le_example =
    least_get_when_less-le net two 1 (omega arith)
      (λ i. subst (λ c. pos 0 ≤ℤ c) (sym (calls_of_two i)) (omega arith))
      (λ i. subst (λ c. c ≤ℤ max_int64) (sym (calls_of_two i)) (omega arith)) (omega arith)
