-- ===== src/RpcServer.antt =====
-- Running a server, gokit/transport/rpc/server.go and server_fatory.go: a run is the sequence of what it
-- does. What the service, the listeners and the registry answer are arguments.
pub mod Settings
pub mod Ordered
pub mod Registers
mod Tests
use jkfr.Prelude.{
  ℕ, Bool, Option, none, some, List, [], ◌∷◌, ◌++◌, if◌then◌else◌, map, ◌==◌, ◌&&◌, true, false,
}
use jkfr.HostAddr.{Text, AddrError}
use jkfr.Environ.{is_empty}
use jkfr.Middleware.{ActionMiddleware}
use jkfr.Registry.Server.{
  Surroundings, Registration, Registered, registered, addr_refused, registry_panic,
  registry_server_with_server_addr,
}
use jkfr.RpcServer.Settings.{
  ListenerFatory, tls_listener_fatory, ServerRun, run_server_with_tcp, run_server_with_http,
  own_server_run, ServerConfig, ServerProcess, ServerOption, with_addr, server_listener_fatory,
  server_run_with, new_server_config,
}

-- What happens in a run, in order. `starts_registering` starts do_register, whose goroutine calls Register
-- in its own time and goes on after the run; `deregistering` is the call of Deregister.
pub data Event : Type 0 where
  wrapped_all : ActionMiddleware → Event
  listening : ListenerFatory → Text → Event
  starts_registering : Registration → Event
  naming : Option Text → Event
  serves_gob serves_json : ℕ → Event
  serves_http : Text → Text → Event
  serves_own : ℕ → Event
  deregistering closing : Event

-- How a run ends: with an error of one of its calls, or with what the serving returns.
pub data Ending : Type 0 where
  not_endpoints server_panic : Ending
  not_listening not_named : ℕ → Ending
  not_registered : AddrError → Ending
  served : Option ℕ → Ending

-- What surrounds a run: the settings, whether the service is an EndpointsWrapInterface, the errors of the
-- listener and of Register or RegisterName, the registry, the connections that Accept returns before its
-- error, and what another serving returns.
pub record Around : Type 0 where
  pub process : ServerProcess
  pub is_endpoints : Bool
  pub listen : ServerConfig → Option ℕ
  pub registry : Surroundings
  pub register : Option Text → Option ℕ
  pub accepted : List ℕ
  pub accept_error : ℕ
  pub serve : ServerConfig → Option ℕ

-- CODEC_JSON == cfg.Codec, the text being "json"
abbrev pub is_json : Text → Bool
is_json (j ∷ s ∷ o ∷ n ∷ []) = j == 106 && s == 115 && o == 111 && n == 110
is_json t = false

-- RunServerWithTcp, whose loop ends with the error of Accept
unfoldable pub accept_loop : Text → List ℕ → List Event
accept_loop codec [] = []
accept_loop codec (conn ∷ conns) =
    (if is_json codec then serves_json conn else serves_gob conn) ∷ accept_loop codec conns

-- cfg.ServerRun(listener, server, cfg)
unfoldable pub serving : Around → ServerConfig → ServerRun → List Event × Option ℕ
serving e c run_server_with_tcp = (accept_loop c.codec e.accepted, some e.accept_error)
serving e c run_server_with_http = (serves_http c.rpc_path c.rpc_debug_path ∷ [], e.serve c)
serving e c (own_server_run n) = (serves_own n ∷ [], e.serve c)

-- The name that the service is registered under, its own where cfg.RpcName is empty.
abbrev pub service_name : ServerConfig → Option Text
service_name c = if is_empty c.rpc_name then none else some c.rpc_name

-- The end of runServer, from NewServer.
abbrev pub named : Around → ServerConfig → Option ℕ → List Event × Ending
named e c (some err) = ([], not_named err)
named e c none =
    let (events, err) = serving e c c.server_run in (naming (service_name c) ∷ events, served err)

-- The deferred Deregister
abbrev pub deregistered : Registration → List Event × Ending → List Event × Ending
deregistered r (events, end) = (starts_registering r ∷ events ++ deregistering ∷ [], end)

-- runServer from the registration on. A panic of the registry runs the deferred calls.
unfoldable pub after_registry : Around → ServerConfig → Registered → List Event × Ending
after_registry e c (registered client r) = deregistered r (named e c (e.register (service_name c)))
after_registry e c (addr_refused err) = ([], not_registered err)
after_registry e c registry_panic = ([], server_panic)

-- The deferred Close of the listener
abbrev pub closed : ServerConfig → List Event × Ending → List Event × Ending
closed c (events, end) = (listening c.listener_fatory c.bind_addr ∷ events ++ closing ∷ [], end)

abbrev pub after_listener : Around → Text → ServerConfig → Option ℕ → List Event × Ending
after_listener e name c (some err) = ([], not_listening err)
after_listener e name c none =
    closed c (
      after_registry e c (registry_server_with_server_addr e.registry name c.server_addr c.reg_ops))

-- WrapEnpoint, with the rest of runServer
abbrev pub wrap_endpoint : Bool → List ActionMiddleware → List Event × Ending → List Event × Ending
wrap_endpoint false ms rest = ([], not_endpoints)
wrap_endpoint true ms (events, end) = (map wrapped_all ms ++ events, end)

-- runServer, which is also RunServer
unfoldable pub run_server : Around → Text → List ServerOption → List Event × Ending
run_server e name ops =
    let c = new_server_config e.process name ops in
    wrap_endpoint e.is_endpoints c.action_middlewares (after_listener e name c (e.listen c))

-- RunServerWithServerAddr
unfoldable pub run_server_with_server_addr :
    Around → Text → Text → List ServerOption → List Event × Ending
run_server_with_server_addr e name addr ops = run_server e name (ops ++ with_addr addr ∷ [])

-- RunHttpServer
abbrev pub run_http_server : Around → Text → List ServerOption → List Event × Ending
run_http_server e name ops = run_server e name (ops ++ server_run_with run_server_with_http ∷ [])

-- RunTLSServer
abbrev pub run_tls_server : Around → Text → List ServerOption → List Event × Ending
run_tls_server e name ops =
    run_server e name (ops ++ server_listener_fatory tls_listener_fatory ∷ [])

-- RunTLSHttpServer
abbrev pub run_tls_http_server : Around → Text → List ServerOption → List Event × Ending
run_tls_http_server e name ops =
    run_server e name (
      ops ++ server_listener_fatory tls_listener_fatory ∷ server_run_with run_server_with_http ∷ [])
