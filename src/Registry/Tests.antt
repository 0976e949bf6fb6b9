-- ===== src/Registry/Tests.antt =====
-- Registrations by gokit/registry/registry.go in a process with variables and without files, and the
-- theorems at them.
use jkfr.Prelude.{◌≡◌, refl, false, none, some, List, [], ◌∷◌, ◌++◌, arith, elem, pos}
use jkfr.HostAddr.{
  Text, digits, itoa, read_digits, atoi, split_first, split_last, split_host_port, join_host_port,
  has_port, parse_host_addr, get_random_host_addr,
}
use jkfr.Environ.{
  trim_left, get_env_string, split_by, trimmed, get_env_strings, get_env_int, is_lower_text,
  get_env_bool,
}
use jkfr.Registry.{
  RegConfig, Variable, r_wait_time, r_server_addr, RegOption, with_server_addr, with_tags,
  with_wait_time, apply_option, apply_options, load_files, env_config, default_config,
}
use jkfr.Registry.Server.{
  Surroundings, in_nanoseconds, do_register, registers, sleeps, run_handles, option_config,
  get_config, new_consul_client, Registration, make_registration, registered, registry_panic,
  registry_server, registry_server_with_server_addr,
}
use jkfr.Registry.Registered.{
  IsAt, last_wait_time, registry_server_with_server_addr-IsAt, get_config-wait_time,
}

what_runs : Unit {0}
unfolding digits read_digits atoi split_first split_last split_host_port join_host_port has_port
    parse_host_addr get_random_host_addr elem trim_left get_env_string split_by trimmed
    get_env_strings get_env_int is_lower_text get_env_bool apply_option apply_options load_files
    env_config default_config run_handles option_config get_config new_consul_client
    make_registration registry_server registry_server_with_server_addr
what_runs = tt

-- R_WAIT_TIME is "7" and R_SERVER_ADDR "b"; there is no file.
abbrev variable : Variable → Text
variable r_wait_time = 55 ∷ []
variable r_server_addr = 98 ∷ []
variable v = []

abbrev around : Surroundings
around = record {
  process = record {
    env = variable;
    is_file_exists = λ path. false;
    read_config_file = λ path c. c;
    cur_dir = [];
  };
  default_wait_time = pos 0;
  handles = [];
  new_client = λ consul. some 5;
  map_consul_reg = λ addr. none;
  free_port = pos 31000;
  health_check_server = none;
}

-- "s", "a" and the option of a tag "t"
abbrev service : Text
service = 115 ∷ []

abbrev host : Text
host = 97 ∷ []

abbrev tagged : List RegOption
tagged = with_tags ((116 ∷ []) ∷ []) ∷ []

abbrev config : RegConfig
config =
    (get_config around service (tagged ++ with_server_addr (join_host_port host (itoa 80)) ∷ [])).0

-- The variable is read, and then overwritten.
wait_time_lost :
    ((default_config around.process service).wait_time ≡ pos 7)
    × ((get_config around service []).0.wait_time ≡ pos 0)
unfolding what_runs
wait_time_lost = (refl, refl)

-- After Register has succeeded once, the goroutine registers again in an hour.
registered_again :
    (r : Registration)
    → do_register r (some 3 ∷ none ∷ none ∷ [])
      ≡ registers r ∷ sleeps 5 ∷ registers r ∷ sleeps 3600 ∷ registers r ∷ sleeps 3600 ∷ []
unfolding do_register
registered_again r = refl

-- Without a client of consul, the settings that are logged are nil.
no_client_panics :
    registry_server (record around { new_client = λ consul. none }) service [] ≡ registry_panic
unfolding what_runs
no_client_panics = refl

registry_server_with_server_addr-IsAt_example :
    (r : Registration) × (registry_server_with_server_addr around service
        (join_host_port host (itoa 80))
        tagged
      ≡ registered 5 r)
    × IsAt r service host 80 config
unfolding what_runs
registry_server_with_server_addr-IsAt_example =
    registry_server_with_server_addr-IsAt around service host 80 5 tagged config (λ c. refl) refl
      refl (omega arith) (omega arith) refl

get_config-wait_time_example :
    (get_config around service (with_wait_time (pos 9) ∷ tagged)).1.consul_wait_time
    ≡ in_nanoseconds (last_wait_time (with_wait_time (pos 9) ∷ tagged) around.default_wait_time)
get_config-wait_time_example =
    get_config-wait_time around service (with_wait_time (pos 9) ∷ tagged) refl
