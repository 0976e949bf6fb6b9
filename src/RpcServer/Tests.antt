-- ===== src/RpcServer/Tests.antt =====
-- Runs of a server by gokit/transport/rpc/server.go in a process without variables, and the theorems at
-- them.
use jkfr.Prelude.{◌≡◌, refl, true, false, none, some, List, [], ◌∷◌, ◌++◌, arith, elem, pos}
use jkfr.HostAddr.{
  Text, digits, itoa, read_digits, atoi, split_first, split_last, split_host_port, join_host_port,
  has_port, parse_host_addr, get_random_host_addr,
}
use jkfr.Environ.{
  trim_left, get_env_string, split_by, trimmed, get_env_strings, get_env_int, is_lower_text,
  get_env_bool,
}
use jkfr.Registry.{
  RegConfig, RegOption, with_tags, with_server_addr, apply_option, apply_options, load_files,
  env_config, default_config,
}
use jkfr.Registry.Server.{
  Surroundings, run_handles, option_config, get_config, new_consul_client, Registration,
  make_registration, registry_server, registry_server_with_server_addr,
}
use jkfr.Registry.Registered.{IsAt}
use jkfr.RpcServer.Settings.{
  ServerProcess, ServerOption, with_bind_addr, server_reg_option, server_codec, apply_server_option,
  apply_server_options, server_env_config, default_server_config, load_default_config,
  new_server_config,
}
use jkfr.RpcServer.{
  Around, not_named, not_listening, server_panic, accept_loop, serving, after_registry, run_server,
  run_server_with_server_addr,
}
use jkfr.RpcServer.Ordered.{follows}
use jkfr.RpcServer.Registers.{registrations, run_server_with_server_addr-IsAt}

what_runs : Unit {0}
unfolding digits read_digits atoi split_first split_last split_host_port join_host_port has_port
    parse_host_addr get_random_host_addr elem trim_left get_env_string split_by trimmed
    get_env_strings get_env_int is_lower_text get_env_bool apply_option apply_options load_files
    env_config default_config run_handles option_config get_config new_consul_client
    make_registration registry_server registry_server_with_server_addr apply_server_option
    apply_server_options server_env_config default_server_config load_default_config
    new_server_config accept_loop serving after_registry run_server run_server_with_server_addr
    follows registrations
what_runs = tt

abbrev process : ServerProcess
process = record {
  env = λ v. [];
  cur_dir = [];
  is_file_exists = λ path. false;
  read_file = λ path. none;
  read_config_file = λ path c. c;
}

abbrev registry : Surroundings
registry = record {
  process = record {
    env = λ v. [];
    is_file_exists = λ path. false;
    read_config_file = λ path c. c;
    cur_dir = [];
  };
  default_wait_time = pos 0;
  handles = [];
  new_client = λ consul. some 5;
  map_consul_reg = λ addr. none;
  free_port = pos 31000;
  health_check_server = none;
}

-- Two connections, and then the error 9
abbrev around : Around
around = record {
  process = process;
  is_endpoints = true;
  listen = λ c. none;
  registry = registry;
  register = λ name. none;
  accepted = 1 ∷ 2 ∷ [];
  accept_error = 9;
  serve = λ c. some 8;
}

-- "s", "a", and the options of a tag "t", the codec "json" and an address to bind
abbrev service : Text
service = 115 ∷ []

abbrev host : Text
host = 97 ∷ []

abbrev options : List ServerOption
options =
    server_reg_option (with_tags ((116 ∷ []) ∷ []) ∷ [])
    ∷ server_codec (106 ∷ 115 ∷ 111 ∷ 110 ∷ [])
    ∷ with_bind_addr (48 ∷ [])
    ∷ []

abbrev addr : Text
addr = join_host_port host (itoa 80)

abbrev reg_options : List RegOption
reg_options = with_tags ((116 ∷ []) ∷ []) ∷ []

abbrev config : RegConfig
config = (get_config registry service (reg_options ++ with_server_addr addr ∷ [])).0

-- A listener that is refused ends the run, a service that is refused is not served, and a panic of the
-- registry closes the listener.
refusals :
    ((run_server (record around { listen = λ c. some 3 }) service options).1 ≡ not_listening 3)
    × ((run_server_with_server_addr
          (record around { register = λ n. some 4 })
          service
          addr
          options).1
        ≡ not_named 4)
    × ((run_server
          (record around {
            is_endpoints = true;
            registry = record registry { new_client = λ consul. none };
          })
          service
          []).1
        ≡ server_panic)
unfolding what_runs
refusals = (refl, refl, refl)

run_server_with_server_addr-IsAt_example :
    (r : Registration) × (registrations (run_server_with_server_addr around service addr options).0
      ≡ r ∷ [])
    × IsAt r service host 80 config
unfolding what_runs
run_server_with_server_addr-IsAt_example =
    run_server_with_server_addr-IsAt around service host 80 5 options config refl refl (λ c. refl)
      refl refl (omega arith) (omega arith) refl
