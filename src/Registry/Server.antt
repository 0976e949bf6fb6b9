-- ===== src/Registry/Server.antt =====
-- The registration of a server, gokit/registry/registry.go. What consul's package answers, the free port
-- and the handles that others have appended are arguments.
use jkfr.Prelude.{
  ℕ, zero, suc, ◌-◌, ◌*◌, ◌%◌, ◌^◌, Option, none, some, List, [], ◌∷◌, ◌++◌, if◌then◌else◌, ℤ, pos,
  negsuc, wrap_int64,
}
use jkfr.Pool.Options.{second}
use jkfr.HostAddr.{
  Text, itoa_ℤ, AddrError, Parsed, parsed, parse_error, parse_host_addr, RandomAddr, random_addr,
  random_error, get_random_host_addr,
}
use jkfr.Environ.{is_empty}
use jkfr.Registry.{RegConfig, Process, RegOption, with_server_addr, apply_options, default_config}

-- The fields of consulapi.Config that getConfig sets; the time in nanoseconds.
pub record ConsulConfig : Type 0 where
  pub address : Text
  pub consul_wait_time : ℤ
  pub http_auth : Option (Text × Text)

-- What surrounds a registration: WaitTime of consulapi.DefaultConfig in seconds, the appended handles, what
-- consulapi.NewClient makes, the clients by their address (mapConsulReg), the port that GetFreePort
-- returns, and the address of the health check if it has been started.
pub record Surroundings : Type 0 where
  pub process : Process
  pub default_wait_time : ℤ
  pub handles : List (RegConfig → RegConfig)
  pub new_client : ConsulConfig → Option ℕ
  pub map_consul_reg : Text → Option ℕ
  pub free_port : ℤ
  pub health_check_server : Option Text

abbrev pub or_text : Text → Text → Text
or_text a b = if is_empty a then b else a

-- utils.ResetServerAddr, on the two addresses of the health check
abbrev pub reset_server_addr : RegConfig → RegConfig
reset_server_addr c =
    let bind = or_text c.health_check_bind_addr c.health_check_addr in
    record c { health_check_bind_addr = bind; health_check_addr = or_text c.health_check_addr bind }

unfoldable pub run_handles : List (RegConfig → RegConfig) → RegConfig → RegConfig
run_handles [] c = c
run_handles (h ∷ hs) c = run_handles hs (h c)

-- time.Duration(n) * time.Second, an int64 that wraps
abbrev pub in_nanoseconds : ℤ → ℤ
in_nanoseconds (pos n) = wrap_int64 (n * second)
in_nanoseconds (negsuc n) = wrap_int64 (2 ^ 64 - suc n * second % 2 ^ 64)

abbrev pub consul_config : RegConfig → ConsulConfig
consul_config c = record {
  address = c.consul_addr;
  consul_wait_time = in_nanoseconds c.wait_time;
  http_auth = if is_empty c.user_name then none else some (c.user_name, c.password);
}

-- The settings after the options.
unfoldable pub option_config : Surroundings → Text → List RegOption → RegConfig
option_config e name ops =
    apply_options e.process ops
      (record (default_config e.process name) { wait_time = e.default_wait_time })

-- getConfig
unfoldable pub get_config : Surroundings → Text → List RegOption → RegConfig × ConsulConfig
get_config e name ops =
    let c = option_config e name ops in
    (run_handles e.handles (reset_server_addr c), consul_config c)

abbrev pub client_for : Surroundings → ConsulConfig → Option ℕ → Option ℕ
client_for e consul (some client) = some client
client_for e consul none = e.new_client consul

-- newConsulClient; without a client, it returns no settings either.
unfoldable pub new_consul_client : Surroundings → Text → List RegOption → Option (ℕ × RegConfig)
new_consul_client e name ops =
    let (c, consul) = get_config e name ops in
    elim (client_for e consul (e.map_consul_reg consul.address)) [
      | none ↦ none
      | some client ↦ some (client, c)
    ]

-- consulapi.AgentServiceCheck, where a text that is not set is empty.
pub record Check : Type 0 where
  pub check_id : Text
  pub interval : Text
  pub timeout : Text
  pub deregister_after : Text
  pub http : Text
  pub tcp : Text

-- consulapi.AgentServiceRegistration
pub record Registration : Type 0 where
  pub id : Text
  pub name : Text
  pub tags : List Text
  pub address : Text
  pub port : ℤ
  pub check : Check

-- "check_", "http://" and "/health"
abbrev pub check_prefix : Text
check_prefix = 99 ∷ 104 ∷ 101 ∷ 99 ∷ 107 ∷ 95 ∷ []

abbrev pub http_prefix : Text
http_prefix = 104 ∷ 116 ∷ 116 ∷ 112 ∷ 58 ∷ 47 ∷ 47 ∷ []

abbrev pub health_path : Text
health_path = 47 ∷ 104 ∷ 101 ∷ 97 ∷ 108 ∷ 116 ∷ 104 ∷ []

abbrev pub check_host : Text → Parsed → Text
check_host host (parse_error e) = host ++ 58 ∷ itoa_ℤ (pos 0)
check_host host (parsed h port) = or_text h host ++ 58 ∷ itoa_ℤ port

abbrev pub check_url : Text → Text → Text
check_url host health = http_prefix ++ check_host host (parse_host_addr health) ++ health_path

abbrev pub http_check : Text → Text → ℤ → Text
http_check host health (pos zero) = check_url host health
http_check host health port = []

abbrev pub tcp_check : RegConfig → ℤ → Text
tcp_check c (pos zero) = []
tcp_check c port = c.server_addr

-- makeConsulAgentServiceRegistration, where `health` is the address of the health check
unfoldable pub make_registration : Text → RegConfig → Text → Registration
make_registration name c health =
    let id = name ++ 95 ∷ c.svc_host ++ 58 ∷ itoa_ℤ c.svc_port in
    record {
      id = id;
      name = name;
      tags = c.consul_tags ++ name ∷ c.server_addr ∷ [];
      address = c.svc_host;
      port = c.svc_port;
      check = record {
        check_id = check_prefix ++ id;
        interval = itoa_ℤ c.health_check_interval ++ 115 ∷ [];
        timeout = itoa_ℤ c.health_check_time_out ++ 115 ∷ [];
        deregister_after = itoa_ℤ c.deregister_critical_service_after ++ 109 ∷ [];
        http = http_check c.svc_host health c.svc_port;
        tcp = tcp_check c c.svc_port;
      };
    }

-- What do_register's goroutine does: it calls Register, and sleeps for some seconds.
pub data Registering : Type 0 where
  registers : Registration → Registering
  sleeps : ℕ → Registering

-- do_register, as far as the errors of its calls of Register go; the loop has no end, and nothing stops
-- it.
unfoldable pub do_register : Registration → List (Option ℕ) → List Registering
do_register r [] = []
do_register r (some err ∷ errs) = registers r ∷ sleeps 5 ∷ do_register r errs
do_register r (none ∷ errs) = registers r ∷ sleeps 3_600 ∷ do_register r errs

-- What RegistryServer comes to: the client and the registration with which do_register starts its
-- goroutine, or an error. It panics on the nil settings that go with the error of newConsulClient,
-- and on an address of the health check that cannot be read.
pub data Registered : Type 0 where
  registered : ℕ → Registration → Registered
  addr_refused : AddrError → Registered
  registry_panic : Registered

abbrev pub with_health : ℕ → Text → RegConfig → RandomAddr → Registered
with_health client name c (random_addr health port) =
    registered client (make_registration name c health)
with_health client name c (random_error e) = registry_panic

-- The address of the health check, which runHealthCheckServer starts once.
abbrev pub health_addr : Surroundings → RegConfig → Option Text → RandomAddr
health_addr e c (some health) = random_addr health (pos 0)
health_addr e c none = get_random_host_addr e.free_port c.health_check_addr

abbrev pub register_at : Surroundings → ℕ → Text → RegConfig → ℤ → Registered
register_at e client name c (pos zero) =
    with_health client name c (health_addr e c e.health_check_server)
register_at e client name c port = registered client (make_registration name c [])

abbrev pub register_parsed : Surroundings → ℕ → Text → RegConfig → Parsed → Registered
register_parsed e client name c (parse_error err) = addr_refused err
register_parsed e client name c (parsed host port) =
    register_at e client name (record c { svc_host = host; svc_port = port }) port

abbrev pub register_client : Surroundings → Text → Option (ℕ × RegConfig) → Registered
register_client e name none = registry_panic
register_client e name (some (client, c)) =
    register_parsed e client name c (parse_host_addr c.server_addr)

-- RegistryServer
unfoldable pub registry_server : Surroundings → Text → List RegOption → Registered
registry_server e name ops = register_client e name (new_consul_client e name ops)

-- RegistryServerWithServerAddr
unfoldable pub registry_server_with_server_addr :
    Surroundings → Text → Text → List RegOption → Registered
registry_server_with_server_addr e name svr_addr ops =
    registry_server e name (ops ++ with_server_addr svr_addr ∷ [])
