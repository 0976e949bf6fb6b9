-- ===== src/Factory/Tests.antt =====
-- Dials of a host with four addresses by gokit/transport/pool/rpc/fatory.go, and the theorem at them.
use jkfr.Prelude.{ℕ, ◌≡◌, refl, true, none, some, [], ◌∷◌, arith, ◌==◌, if◌then◌else◌, elem}
use jkfr.Pool.Options.{foreign}
use jkfr.Pool.Client.{Env}
use jkfr.Pool.Clients.Keep.{Factories}
use jkfr.Factory.{
  ips, connection, no_connection, connected, other_status, Site, unique_ips, resolve_addr,
  resolve_addr_with_rand, try_addrs, conn_with_resolve, tcp_conn, tcp_factory, rpc_http_conn,
  rpc_http_factory, grpc_factory,
}
use jkfr.Factory.Contract.{dials-Factories}

-- The address `up` alone can be dialed.
abbrev only : ℕ → Site
only up = record {
  has_target = true;
  resolved = ips (1 ∷ 2 ∷ 2 ∷ 3 ∷ 4 ∷ []);
  shuffle = λ addrs. addrs;
  dial = λ a. if a == up then connection 50 else no_connection (foreign a);
  connect = connected;
  new_client = λ conn. (some 60, none);
}

what_runs : Unit {0}
unfolding unique_ips resolve_addr resolve_addr_with_rand try_addrs conn_with_resolve tcp_conn
    tcp_factory rpc_http_conn rpc_http_factory grpc_factory elem
what_runs = tt

third_dialed : tcp_conn (only 3) ≡ (some 50, none)
unfolding what_runs
third_dialed = refl

-- No more than three addresses are tried.
fourth_left : tcp_conn (only 4) ≡ (none, some (foreign 3))
unfolding what_runs
fourth_left = refl

-- A server that does not answer CONNECT as it should has its connection closed.
status_closed :
    rpc_http_conn (record (only 3) { connect = other_status (foreign 9) })
    ≡ (none, some (foreign 9), some 50)
unfolding what_runs
status_closed = refl

-- If newClient fails, the factory returns the open connection together with the error.
both_returned :
    let d = tcp_factory (record (only 3) { new_client = λ conn. (none, some (foreign 9)) }) in
    (d.conn ≡ some 50) × (d.err ≡ some (foreign 9))
unfolding what_runs
both_returned = (refl, refl)

abbrev quiet : Env
quiet = record {
  now = 0;
  later = 0;
  dial = λ t. record { handle = none; conn = none; err = none };
  closing = λ t. none;
  range = λ ts. ts;
}

dials-Factories_example :
    Factories (record quiet { dial = λ t. tcp_factory (only t) })
    × Factories (record quiet { dial = λ t. rpc_http_factory (only t) })
    × Factories (record quiet { dial = λ t. grpc_factory (only t) })
dials-Factories_example =
    dials-Factories quiet only only (λ t. ((omega arith, λ addrs. refl), λ conn. refl))
      (λ t. (omega arith, λ addrs. refl))
