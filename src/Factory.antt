-- ===== src/Factory.antt =====
-- The factories of clients in gokit/transport/pool/rpc/fatory.go and grpc/fatory.go, and the dialing of
-- net/net.go below them. An address is the number of its IP, since the port is the same for all. What
-- the resolver, the network and newClient answer is an argument.
pub mod Contract
mod Tests
use jkfr.Prelude.{
  ℕ, Bool, true, false, Option, none, some, List, [], ◌∷◌, ltb, if◌then◌else◌, length, take, elem,
}
use jkfr.Pool.Options.{Error, err_targets, foreign}
use jkfr.Pool.Client.{Dialed}

-- What the resolver answers: the IPs of the host, or an error.
pub data Resolved : Type 0 where
  ips : List ℕ → Resolved
  unresolved : Error → Resolved

pub data Dial : Type 0 where
  connection : ℕ → Dial
  no_connection : Error → Dial

-- What the server answers to CONNECT: `connected`, another status, or nothing that can be read.
pub data Connect : Type 0 where
  connected : Connect
  other_status unread : Error → Connect

-- `has_target` tells whether ServerAddr is not empty, `shuffle` is rand.Shuffle, and `dial` is what dialing
-- an address comes to. `connect` is the answer to CONNECT, and `new_client` what newClient makes.
pub record Site : Type 0 where
  pub has_target : Bool
  pub resolved : Resolved
  pub shuffle : List ℕ → List ℕ
  pub dial : ℕ → Dial
  pub connect : Connect
  pub new_client : Option ℕ → Option ℕ × Option Error

-- The loop of ResolveAddr, with the keys of uniqueIPs.
unfoldable pub unique_ips : List ℕ → List ℕ → List ℕ
unique_ips seen [] = []
unique_ips seen (ip ∷ rest) =
    let kept = unique_ips (ip ∷ seen) rest in
    let dropped = unique_ips seen rest in if elem ip seen then dropped else ip ∷ kept

-- ResolveAddr
unfoldable pub resolve_addr : Resolved → Resolved
resolve_addr (unresolved e) = unresolved e
resolve_addr (ips found) = ips (unique_ips [] found)

abbrev pub shuffled : (List ℕ → List ℕ) → Resolved → Resolved
shuffled shuffle (unresolved e) = unresolved e
shuffled shuffle (ips addrs) = ips (if ltb 1 (length addrs) then shuffle addrs else addrs)

-- ResolveAddrWithRand
unfoldable pub resolve_addr_with_rand : Site → Resolved
resolve_addr_with_rand site = shuffled site.shuffle (resolve_addr site.resolved)

-- The loop of ConnWithResolve, with the error so far.
unfoldable pub try_addrs : (ℕ → Dial) → Option Error → List ℕ → Option ℕ × Option Error
try_addrs dial err [] = (none, err)
try_addrs dial err (a ∷ addrs) = elim (dial a) [
  | connection c ↦ (some c, none)
  | no_connection e ↦ try_addrs dial (some e) addrs
]

abbrev pub first_three : List ℕ → List ℕ
first_three addrs = if ltb 3 (length addrs) then take 3 addrs else addrs

abbrev pub try_resolved : (ℕ → Dial) → Resolved → Option ℕ × Option Error
try_resolved dial (unresolved e) = (none, some e)
try_resolved dial (ips addrs) = try_addrs dial none (first_three addrs)

-- ConnWithResolve
unfoldable pub conn_with_resolve : Site → Option ℕ × Option Error
conn_with_resolve site = try_resolved site.dial (resolve_addr_with_rand site)

-- TcpConn, TLSConn and GRPCConn
unfoldable pub tcp_conn : Site → Option ℕ × Option Error
tcp_conn site = if site.has_target then conn_with_resolve site else (none, some err_targets)

abbrev pub refused_dial : Error → Dialed
refused_dial e = record { handle = none; conn = none; err = some e }

abbrev pub made_client : Option ℕ → Option ℕ × Option Error → Dialed
made_client conn (handle, err) = record { handle = handle; conn = conn; err = err }

abbrev pub with_new_client : (Option ℕ → Option ℕ × Option Error) → Option ℕ × Option Error → Dialed
with_new_client new_client (conn, some e) = refused_dial e
with_new_client new_client (conn, none) = made_client conn (new_client conn)

-- The factory of TcpClientFactory and of TLSClientFatory
unfoldable pub tcp_factory : Site → Dialed
tcp_factory site = with_new_client site.new_client (tcp_conn site)

-- The connection and the error, and the connection that has been closed.
abbrev pub ask_connect : Connect → Option ℕ × Option Error → Option ℕ × Option Error × Option ℕ
ask_connect answer (conn, some e) = (none, some e, none)
ask_connect connected (conn, none) = (conn, none, none)
ask_connect (other_status e) (conn, none) = (none, some e, conn)
ask_connect (unread e) (conn, none) = (none, some e, conn)

-- RpcHttpConn and RpcTLSHttpConn
unfoldable pub rpc_http_conn : Site → Option ℕ × Option Error × Option ℕ
rpc_http_conn site = ask_connect site.connect (tcp_conn site)

-- The factory of RpcHttpFatory and of RpcTLSHttpFatory
unfoldable pub rpc_http_factory : Site → Dialed
rpc_http_factory site =
    let (conn, err, closed) = rpc_http_conn site in with_new_client site.new_client (conn, err)

abbrev pub grpc_made : Option ℕ → Option ℕ × Option Error → Dialed
grpc_made conn (client, some e) = refused_dial e
grpc_made conn (client, none) = record { handle = conn; conn = conn; err = none }

abbrev pub with_grpc_client :
    (Option ℕ → Option ℕ × Option Error) → Option ℕ × Option Error → Dialed
with_grpc_client make (conn, some e) = refused_dial e
with_grpc_client make (conn, none) = grpc_made conn (make conn)

-- The factory of GRPCClientFactory. The ClientHandle that it makes goes by its connection.
unfoldable pub grpc_factory : Site → Dialed
grpc_factory site = with_grpc_client site.new_client (tcp_conn site)
