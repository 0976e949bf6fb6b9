-- ===== src/Single/Tests.antt =====
-- Calls over a pool with two connections by gokit/transport/pool/rpc/pool.go, and the theorem at them.
use jkfr.Prelude.{◌*◌, ◌≡◌, refl, true, false, none, some, elem, insert, remove, set, ◌+ℤ◌}
use mathlib.Core.Option.{bind}
use jkfr.Pool.Options.{Options, second}
use jkfr.Pool.Client.{
  Env, new_client, close, destroy, add_ref, connect, connect_check, connect_locked, dialed,
}
use jkfr.Pool.Recycle.{push, enqueue, new_recycle}
use jkfr.Pool.Clients.{
  new_clients, init_clients, init_slots, init_one, init_with, push_client, make_slots, first_idle,
  least_ref, min_get, round_get, get, get_chosen, answer, get_one_valid_client, retire, retire_to,
  move_recycle, valid_count,
}
use jkfr.Pool.Calls.{Pool, pool_of, get_client, hand_out, put, put_bad, pool_valid_count}
use jkfr.Single.{
  server_error, call_error, rpc_good, status_error, code_unknown, code_good, grpc_good,
  rpc_pool_call, grpc_pool_call, is_connected,
}
use jkfr.Single.Account.{Accounts, single_call-Accounts}

what_runs : Unit {0}
unfolding close destroy add_ref connect connect_check connect_locked dialed push enqueue new_recycle
    new_clients init_clients init_slots init_one init_with push_client make_slots first_idle
    least_ref min_get round_get get get_chosen answer get_one_valid_client retire retire_to
    move_recycle valid_count get_client hand_out put put_bad pool_valid_count rpc_good code_good
    grpc_good rpc_pool_call grpc_pool_call insert remove elem set ◌+ℤ◌ bind
what_runs = tt

-- Every dial and every close succeeds.
abbrev healthy : Env
healthy = record {
  now = 10 * second;
  later = 11 * second;
  dial = λ t. record { handle = some t; conn = some t; err = none };
  closing = λ t. none;
  range = λ ts. ts;
}

abbrev options : Options
options = record {
  init_cap = 2;
  max_cap = 3;
  dial_timeout = second;
  idle_timeout = second;
  read_timeout = second;
  write_timeout = second;
  has_factory = true;
}

abbrev pool : Pool
pool = pool_of (init_clients healthy (new_clients options (λ t. new_client 0) 0)).0

-- A failed call takes its connection out of the map, and the pool stays connected by the other.
left_connected :
    let one = (rpc_pool_call healthy healthy true (call_error 9) pool).0 in
    (is_connected one ≡ true) × (elem 1 one.clients.pc2c ≡ false)
unfolding what_runs
left_connected = (refl, refl)

single_call-Accounts_example :
    Accounts rpc_good
      (server_error 9)
      pool.clients
      1
      (rpc_pool_call healthy healthy true (server_error 9) pool)
      (rpc_pool_call healthy healthy false (server_error 9) pool)
    × Accounts grpc_good
        (status_error code_unknown)
        pool.clients
        1
        (grpc_pool_call healthy healthy true (status_error code_unknown) pool)
        (grpc_pool_call healthy healthy false (status_error code_unknown) pool)
unfolding what_runs
single_call-Accounts_example =
    single_call-Accounts healthy healthy (server_error 9) (status_error code_unknown) pool 1
      (λ t. refl) refl refl refl
