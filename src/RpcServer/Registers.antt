-- ===== src/RpcServer/Registers.antt =====
-- Where a run of gokit/transport/rpc/server.go registers.
use jkfr.Prelude.{
  ℕ, ◌^◌, ◌≤◌, ◌<◌, ◌≡◌, refl, ap, ◌∙◌, true, false, Option, none, some, List, [], ◌∷◌, ◌++◌,
  if◌then◌else◌, map, elem,
}
use jkfr.HostAddr.{Text, itoa, open_bracket, close_bracket, join_host_port}
use jkfr.Environ.{is_empty}
use jkfr.Middleware.{ActionMiddleware}
use jkfr.Registry.{RegConfig, with_server_addr}
use jkfr.Registry.Server.{
  Registration, registered, new_consul_client, registry_server_with_server_addr, or_text,
}
use jkfr.Registry.Registered.{KeepsAddr, IsAt, registry_server_with_server_addr-IsAt}
use jkfr.RpcServer.Settings.{
  ServerRun, run_server_with_tcp, run_server_with_http, own_server_run, ServerConfig, ServerProcess,
  ServerOption, with_addr, apply_server_option, apply_server_options, new_server_config,
}
use jkfr.RpcServer.{
  Event, wrapped_all, starts_registering, serves_gob, serves_json, closing, deregistering, Ending,
  Around, is_json, accept_loop, serving, service_name, named, deregistered, after_registry, closed,
  after_listener, wrap_endpoint, run_server, run_server_with_server_addr,
}

-- The registrations for which do_register is started.
unfoldable pub registrations : List Event → List Registration
registrations [] = []
registrations (starts_registering r ∷ vs) = r ∷ registrations vs
registrations (v ∷ vs) = registrations vs

apply_server_options-append :
    (p : ServerProcess) (ops : List ServerOption) (op : ServerOption) (c : ServerConfig)
    → apply_server_options p (ops ++ op ∷ []) c
      ≡ apply_server_option p op (apply_server_options p ops c)
unfolding apply_server_options
apply_server_options-append p [] op c = refl
apply_server_options-append p (o ∷ ops) op c =
    apply_server_options-append p ops op (apply_server_option p o c)

join_host_port-nonempty : (host port : Text) → is_empty (join_host_port host port) ≡ false
unfolding join_host_port
join_host_port-nonempty [] port =
    elim (elem 58 [])
      as (λ b.
        is_empty (if b then open_bracket ∷ close_bracket ∷ 58 ∷ port else 58 ∷ port) ≡ false) [
          | true ↦ refl
          | false ↦ refl
        ]
join_host_port-nonempty (h ∷ hs) port =
    elim (elem 58 (h ∷ hs))
      as (λ b.
        is_empty (
          if b then open_bracket ∷ h ∷ (hs ++ close_bracket ∷ 58 ∷ port) else h ∷ (hs ++ 58 ∷ port))
        ≡ false) [ true ↦ refl | false ↦ refl ]

or_text-given : (a b : Text) → is_empty a ≡ false → or_text a b ≡ a
or_text-given a b e = ap (λ x. if x then b else a) e

-- An address that is given last is the one of the settings, unless it is empty.
new_server_config-server_addr :
    (p : ServerProcess) (name addr : Text) (ops : List ServerOption)
    → is_empty addr ≡ false
    → (new_server_config p name (ops ++ with_addr addr ∷ [])).server_addr ≡ addr
unfolding new_server_config apply_server_option
new_server_config-server_addr p name addr ops nonempty =
    ap (λ (c : ServerConfig). or_text c.server_addr (or_text c.bind_addr c.server_addr))
      (apply_server_options-append p ops (with_addr addr) _)
    ∙ or_text-given addr _ nonempty

registrations-append :
    (vs ws : List Event) → registrations ws ≡ [] → registrations (vs ++ ws) ≡ registrations vs
unfolding registrations
registrations-append [] ws e = e
registrations-append (starts_registering r ∷ vs) ws e =
    ap (λ rs. r ∷ rs) (registrations-append vs ws e)
registrations-append (_ ∷ vs) ws e = registrations-append vs ws e

accept_loop-none : (codec : Text) (conns : List ℕ) → registrations (accept_loop codec conns) ≡ []
unfolding registrations accept_loop
accept_loop-none codec [] = refl
accept_loop-none codec (conn ∷ conns) =
    elim (is_json codec)
      as (λ b.
        registrations ((if b then serves_json conn else serves_gob conn) ∷ accept_loop codec conns)
        ≡ []) [ true ↦ accept_loop-none codec conns | false ↦ accept_loop-none codec conns ]

serving-none :
    (e : Around) (c : ServerConfig) (run : ServerRun) → registrations (serving e c run).0 ≡ []
unfolding registrations serving
serving-none e c run_server_with_tcp = accept_loop-none c.codec e.accepted
serving-none e c run_server_with_http = refl
serving-none e c (own_server_run n) = refl

named-none : (e : Around) (c : ServerConfig) (err : Option ℕ) → registrations (named e c err).0 ≡ []
unfolding registrations
named-none e c (some n) = refl
named-none e c none = serving-none e c c.server_run

deregistered-one :
    (r : Registration) (rest : List Event × Ending)
    → registrations rest.0 ≡ []
    → registrations (deregistered r rest).0 ≡ r ∷ []
unfolding registrations
deregistered-one r rest e =
    ap (λ rs. r ∷ rs) (registrations-append rest.0 (deregistering ∷ []) refl ∙ e)

wrapped-registrations :
    (ms : List ActionMiddleware) (vs : List Event)
    → registrations (map wrapped_all ms ++ vs) ≡ registrations vs
unfolding registrations
wrapped-registrations [] vs = refl
wrapped-registrations (m ∷ ms) vs = wrapped-registrations ms vs

after_listener-one :
    (e : Around) (name : Text) (c : ServerConfig) (client : ℕ) (r : Registration)
    → registry_server_with_server_addr e.registry name c.server_addr c.reg_ops ≡ registered client r
    → registrations (after_listener e name c none).0 ≡ r ∷ []
unfolding registrations after_registry
after_listener-one e name c client r there =
    ap (λ x. registrations (closed c (after_registry e c x)).0) there
    ∙ registrations-append (deregistered r (named e c (e.register (service_name c)))).0
        (closing ∷ []) refl
    ∙ deregistered-one r (named e c (e.register (service_name c)))
        (named-none e c (e.register (service_name c)))

-- RunServerWithServerAddr, called with a host without brackets and a port from 1 to 2^63 - 1 that
-- net.JoinHostPort has joined, starts do_register once in its run, with a registration of that host and
-- port and a TCP check of that address, whatever the variables, the files and the other options say,
-- and whether or not the service is then named and served. The service must be an
-- EndpointsWrapInterface, the listener must open, newConsulClient must have a client, and the appended
-- handles must leave the address.
pub run_server_with_server_addr-IsAt :
    (e : Around) (name host : Text) (port client : ℕ) (ops : List ServerOption) (d : RegConfig)
    → let addr = join_host_port host (itoa port) in
      let c = new_server_config e.process name (ops ++ with_addr addr ∷ []) in
      e.is_endpoints ≡ true
      → e.listen c ≡ none
      → KeepsAddr e.registry
      → elem open_bracket host ≡ false
      → elem close_bracket host ≡ false
      → 1 ≤ port
      → port < 2 ^ 63
      → new_consul_client e.registry name (c.reg_ops ++ with_server_addr addr ∷ [])
        ≡ some (client, d)
      → (r : Registration) × (registrations (run_server_with_server_addr e name addr ops).0
          ≡ r ∷ [])
        × IsAt r name host port d
unfolding run_server run_server_with_server_addr
run_server_with_server_addr-IsAt e name host port client ops d is_service listens keeps o cl low
      high made =
    let addr = join_host_port host (itoa port) in
    let c = new_server_config e.process name (ops ++ with_addr addr ∷ []) in
    let at : c.server_addr ≡ addr =
      new_server_config-server_addr e.process name addr ops
        (join_host_port-nonempty host (itoa port)) in
    let (r, there, is_at) =
      registry_server_with_server_addr-IsAt e.registry name host port client c.reg_ops d keeps o cl
        low high made in
    (
      r,
      ap
            (λ b.
              registrations
                (wrap_endpoint b c.action_middlewares (after_listener e name c (e.listen c))).0)
            is_service
          ∙ wrapped-registrations c.action_middlewares (after_listener e name c (e.listen c)).0
          ∙ ap (λ x. registrations (after_listener e name c x).0) listens
          ∙ after_listener-one e name c client r
              (ap (λ a. registry_server_with_server_addr e.registry name a c.reg_ops) at ∙ there),
      is_at,
    )
