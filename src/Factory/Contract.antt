-- ===== src/Factory/Contract.antt =====
-- The factories of gokit/transport/pool/rpc/fatory.go and grpc/fatory.go keep to the contract on which
-- the pool relies.
use jkfr.Prelude.{
  ℕ, ◌≤◌, ◌≡◌, refl, ap, ◌∙◌, Bool, true, false, Option, none, some, List, [], ◌∷◌, arith, ltb,
  if◌then◌else◌, length, take, elem, is_some,
}
use jkfr.Pool.Options.{Error, err_targets}
use jkfr.Pool.Client.{Env, IsFactory}
use jkfr.Pool.Clients.Keep.{Factories}
use jkfr.Factory.{
  Resolved, ips, unresolved, Dial, connection, no_connection, Connect, connected, other_status,
  unread, Site, unique_ips, resolve_addr, shuffled, resolve_addr_with_rand, try_addrs, first_three,
  try_resolved, conn_with_resolve, tcp_conn, with_new_client, tcp_factory, ask_connect,
  rpc_http_conn, rpc_http_factory, grpc_made, with_grpc_client, grpc_factory,
}

-- A connection or an error, and not both.
abbrev IsEither : Option ℕ × Option Error → Type 0
IsEither (conn, err) = is_some err ≡ (if is_some conn then false else true)

try_addrs-IsEither :
    (dial : ℕ → Dial) (err : Option Error) (addrs : List ℕ)
    → 1 ≤ (if is_some err then 1 else length addrs)
    → IsEither (try_addrs dial err addrs)
unfolding try_addrs
try_addrs-IsEither dial none [] some_left = let no : ⊥ = omega arith in absurd no
try_addrs-IsEither dial (some e) [] some_left = refl
try_addrs-IsEither dial err (a ∷ addrs) some_left =
    by (dial a) (λ e. try_addrs-IsEither dial (some e) addrs (omega arith))
  where
    by :
        (d : Dial)
        → ((e : Error) → IsEither (try_addrs dial (some e) addrs))
        → IsEither (elim d as (λ x. Option ℕ × Option Error) [
          | connection c ↦ (some c, none)
          | no_connection e ↦ try_addrs dial (some e) addrs
        ])
    by (connection c) rest = refl
    by (no_connection e) rest = rest e

-- The resolver finds an address or returns an error, and a shuffle keeps the number of addresses.
abbrev IsFound : Resolved → Type 0
IsFound (unresolved e) = Unit {0}
IsFound (ips addrs) = 1 ≤ length addrs

abbrev pub IsNetwork : Site → Type 0
IsNetwork site =
    IsFound site.resolved × ((addrs : List ℕ) → length (site.shuffle addrs) ≡ length addrs)

resolve_addr-IsFound : (r : Resolved) → IsFound r → IsFound (resolve_addr r)
unfolding resolve_addr unique_ips elem
resolve_addr-IsFound (unresolved e) v = tt
resolve_addr-IsFound (ips []) v = v
resolve_addr-IsFound (ips (ip ∷ rest)) v = omega arith

shuffled-IsFound :
    (shuffle : List ℕ → List ℕ) (r : Resolved)
    → ((addrs : List ℕ) → length (shuffle addrs) ≡ length addrs)
    → IsFound r
    → IsFound (shuffled shuffle r)
shuffled-IsFound shuffle (unresolved e) same v = tt
shuffled-IsFound shuffle (ips addrs) same v = ground (arith, same addrs)

first_three-length : (addrs : List ℕ) → 1 ≤ length addrs → 1 ≤ length (first_three addrs)
first_three-length [] v = v
first_three-length (a ∷ addrs) v = by (ltb 3 (length (a ∷ addrs)))
  where
    by : (b : Bool) → 1 ≤ length (if b then take 3 (a ∷ addrs) else a ∷ addrs)
    by true = omega arith
    by false = omega arith

try_resolved-IsEither :
    (dial : ℕ → Dial) (r : Resolved) → IsFound r → IsEither (try_resolved dial r)
try_resolved-IsEither dial (unresolved e) v = refl
try_resolved-IsEither dial (ips addrs) v =
    try_addrs-IsEither dial none (first_three addrs) (first_three-length addrs v)

tcp_conn-IsEither : (site : Site) → IsNetwork site → IsEither (tcp_conn site)
unfolding tcp_conn conn_with_resolve resolve_addr_with_rand
tcp_conn-IsEither site (found, same) = by site.has_target
  where
    by : (b : Bool) → IsEither (if b then conn_with_resolve site else (none, some err_targets))
    by false = refl
    by true = try_resolved-IsEither site.dial _ (
        shuffled-IsFound site.shuffle (resolve_addr site.resolved) same
          (resolve_addr-IsFound site.resolved found))

-- newClient returns no error, as DefaultNewRpcClient does not.
abbrev pub IsSafe : Site → Type 0
IsSafe site = (conn : Option ℕ) → (site.new_client conn).1 ≡ none

with_new_client-IsFactory :
    (site : Site) (c : Option ℕ × Option Error)
    → IsSafe site
    → IsEither c
    → IsFactory (with_new_client site.new_client c)
with_new_client-IsFactory site (conn, some e) safe v = refl
with_new_client-IsFactory site (conn, none) safe v = ap is_some (safe conn) ∙ v

with_grpc_client-IsFactory :
    (make : Option ℕ → Option ℕ × Option Error) (c : Option ℕ × Option Error)
    → IsEither c
    → IsFactory (with_grpc_client make c)
with_grpc_client-IsFactory make (conn, some e) v = refl
with_grpc_client-IsFactory make (conn, none) v = by (make conn).1
  where
    by : (err : Option Error) → IsFactory (grpc_made conn ((make conn).0, err))
    by none = v
    by (some e) = refl

ask_connect-IsEither :
    (answer : Connect) (c : Option ℕ × Option Error)
    → IsEither c
    → IsEither ((ask_connect answer c).0, (ask_connect answer c).1)
ask_connect-IsEither answer (conn, some e) v = refl
ask_connect-IsEither connected (conn, none) v = v
ask_connect-IsEither (other_status e) (conn, none) v = refl
ask_connect-IsEither (unread e) (conn, none) v = refl

-- The factories that the rpc and grpc packages make meet the contract of the pool, whatever each dial
-- comes to: they return an error or a connection and not both, if the resolver finds an address or
-- returns an error, shuffling keeps the number of addresses, and newClient of the rpc factories returns
-- no error.
pub dials-Factories :
    (env : Env) (rpc grpc : ℕ → Site)
    → ((t : ℕ) → IsNetwork (rpc t) × IsSafe (rpc t))
    → ((t : ℕ) → IsNetwork (grpc t))
    → Factories (record env { dial = λ t. tcp_factory (rpc t) })
      × Factories (record env { dial = λ t. rpc_http_factory (rpc t) })
      × Factories (record env { dial = λ t. grpc_factory (grpc t) })
unfolding tcp_factory rpc_http_factory rpc_http_conn grpc_factory
dials-Factories env rpc grpc rpc_site grpc_site = (
  λ t. with_new_client-IsFactory (rpc t) (tcp_conn (rpc t)) (rpc_site t).1 (either t),
  λ t.
      with_new_client-IsFactory (rpc t) _ (rpc_site t).1
        (ask_connect-IsEither (rpc t).connect (tcp_conn (rpc t)) (either t)),
  λ t.
      with_grpc_client-IsFactory (grpc t).new_client (tcp_conn (grpc t))
        (tcp_conn-IsEither (grpc t) (grpc_site t)),
)
  where
    either : (t : ℕ) → IsEither (tcp_conn (rpc t))
    either t = tcp_conn-IsEither (rpc t) (rpc_site t).0
