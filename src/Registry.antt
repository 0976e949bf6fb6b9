-- ===== src/Registry.antt =====
-- The settings of a registration, gokit/registry/option.go. The reading of files is an argument.
pub mod Server
pub mod Registered
mod Tests
use jkfr.Prelude.{
  ℕ, Bool, true, false, Option, none, some, List, [], ◌∷◌, ◌++◌, if◌then◌else◌, ℤ, pos,
}
use jkfr.HostAddr.{Text}
use jkfr.Environ.{Environment, get_env_string, get_env_strings, get_env_int, get_env_bool}

-- RegConfig. `query_opts` numbers the options of a query.
pub record RegConfig : Type 0 where
  pub server_name : Text
  pub svc_host : Text
  pub svc_port : ℤ
  pub server_addr : Text
  pub consul_addr : Text
  pub namespace : Text
  pub user_name : Text
  pub password : Text
  pub health_check_addr : Text
  pub health_check_bind_addr : Text
  pub deregister_critical_service_after : ℤ
  pub health_check_interval : ℤ
  pub health_check_time_out : ℤ
  pub consul_tags : List Text
  pub wait_time : ℤ
  pub prometheus_name_space : Text
  pub prometheus_server_name : Text
  pub prometheus_addr : Text
  pub prometheus_bind_addr : Text
  pub config_path : Text
  pub passing_only : Bool
  pub query_opts : Option ℕ

-- The environment variables that defaultconfig reads.
pub data Variable : Type 0 where
  r_server_addr r_consul_addr r_health_check_addr r_health_check_bind_addr : Variable
  r_health_check_interval r_health_check_timeout r_deregister_critical_service_after : Variable
  r_passing_only r_namespace r_prometheus_namespace r_prometheus_addr : Variable
  r_prometheus_bind_addr r_prometheus_server_name r_username r_password : Variable
  r_consul_tags r_wait_time r_config_path : Variable

-- What a process finds: its variables and directory, the files that exist, and what
-- utils.ReadConfigFile makes of a configuration.
pub record Process : Type 0 where
  pub env : Environment Variable
  pub is_file_exists : Text → Bool
  pub read_config_file : Text → RegConfig → RegConfig
  pub cur_dir : Text

-- A new RegConfig.
abbrev pub zero_config : RegConfig
zero_config = record {
  server_name = [];
  svc_host = [];
  svc_port = pos 0;
  server_addr = [];
  consul_addr = [];
  namespace = [];
  user_name = [];
  password = [];
  health_check_addr = [];
  health_check_bind_addr = [];
  deregister_critical_service_after = pos 0;
  health_check_interval = pos 0;
  health_check_time_out = pos 0;
  consul_tags = [];
  wait_time = pos 0;
  prometheus_name_space = [];
  prometheus_server_name = [];
  prometheus_addr = [];
  prometheus_bind_addr = [];
  config_path = [];
  passing_only = false;
  query_opts = none;
}

-- "127.0.0.1", "127.0.0.1:8500" and "prometheus"
abbrev pub local_host : Text
local_host = 49 ∷ 50 ∷ 55 ∷ 46 ∷ 48 ∷ 46 ∷ 48 ∷ 46 ∷ 49 ∷ []

abbrev pub local_consul : Text
local_consul = local_host ++ 58 ∷ 56 ∷ 53 ∷ 48 ∷ 48 ∷ []

abbrev pub prometheus : Text
prometheus = 112 ∷ 114 ∷ 111 ∷ 109 ∷ 101 ∷ 116 ∷ 104 ∷ 101 ∷ 117 ∷ 115 ∷ []

-- The options, each with what its function captures.
pub data RegOption : Type 0 where
  with_server_addr with_consul_addr with_namespace : Text → RegOption
  with_basic_auth : Text → Text → RegOption
  with_health_check_addr with_health_check_bind_addr : Text → RegOption
  with_deregister_critical_service_after : ℤ → RegOption
  with_health_check_interval with_health_check_time_out : ℤ → RegOption
  with_tags : List Text → RegOption
  with_wait_time : ℤ → RegOption
  with_prometheus_name_space with_prometheus_addr : Text → RegOption
  with_prometheus_bind_addr with_prometheus_server_name : Text → RegOption
  with_passing_only : Bool → RegOption
  with_query_options : Option ℕ → RegOption
  with_file : Text → RegOption

-- op(cfg)
unfoldable pub apply_option : Process → RegOption → RegConfig → RegConfig
apply_option p (with_server_addr a) c = record c { server_addr = a }
apply_option p (with_consul_addr a) c = record c { consul_addr = a }
apply_option p (with_namespace n) c = record c { namespace = n }
apply_option p (with_basic_auth u w) c = record c { user_name = u; password = w }
apply_option p (with_health_check_addr a) c = record c { health_check_addr = a }
apply_option p (with_health_check_bind_addr a) c = record c { health_check_bind_addr = a }
apply_option p (with_deregister_critical_service_after m) c = record c {
  deregister_critical_service_after = m;
}
apply_option p (with_health_check_interval i) c = record c { health_check_interval = i }
apply_option p (with_health_check_time_out t) c = record c { health_check_time_out = t }
apply_option p (with_tags ts) c = record c { consul_tags = ts }
apply_option p (with_wait_time t) c = record c { wait_time = t }
apply_option p (with_prometheus_name_space n) c = record c { prometheus_name_space = n }
apply_option p (with_prometheus_addr a) c = record c { prometheus_addr = a }
apply_option p (with_prometheus_bind_addr a) c = record c { prometheus_bind_addr = a }
apply_option p (with_prometheus_server_name n) c = record c { prometheus_server_name = n }
apply_option p (with_passing_only b) c = record c { passing_only = b }
apply_option p (with_query_options q) c = record c { query_opts = q }
apply_option p (with_file path) c = p.read_config_file path (record c { config_path = path })

unfoldable pub apply_options : Process → List RegOption → RegConfig → RegConfig
apply_options p [] c = c
apply_options p (op ∷ ops) c = apply_options p ops (apply_option p op c)

abbrev pub load_if_exists : Process → Text → RegConfig → RegConfig
load_if_exists p path c = if p.is_file_exists path then apply_option p (with_file path) c else c

-- "/conf/", ".toml", ".json" and "registry"
abbrev pub conf : Text
conf = 47 ∷ 99 ∷ 111 ∷ 110 ∷ 102 ∷ 47 ∷ []

abbrev pub toml : Text
toml = 46 ∷ 116 ∷ 111 ∷ 109 ∷ 108 ∷ []

abbrev pub json : Text
json = 46 ∷ 106 ∷ 115 ∷ 111 ∷ 110 ∷ []

abbrev pub registry : Text
registry = 114 ∷ 101 ∷ 103 ∷ 105 ∷ 115 ∷ 116 ∷ 114 ∷ 121 ∷ []

abbrev pub default_files : Process → Text → List Text
default_files p name =
    (p.cur_dir ++ conf ++ name ++ toml)
    ∷ (p.cur_dir ++ conf ++ name ++ json)
    ∷ (p.cur_dir ++ conf ++ registry ++ json)
    ∷ (p.cur_dir ++ conf ++ registry ++ toml)
    ∷ []

unfoldable pub load_files : Process → List Text → RegConfig → RegConfig
load_files p [] c = c
load_files p (path ∷ paths) c = load_files p paths (load_if_exists p path c)

-- loadDefaultServerConfig
abbrev pub load_default_server_config : Process → Text → RegConfig → RegConfig
load_default_server_config p name c = load_files p (default_files p name) c

-- defaultconfig, up to the reading of files
unfoldable pub env_config : Process → Text → RegConfig
env_config p name =
    let env = p.env in
    record zero_config {
      server_name = name;
      server_addr = get_env_string env r_server_addr [];
      consul_addr = get_env_string env r_consul_addr local_consul;
      health_check_addr = get_env_string env r_health_check_addr local_host;
      health_check_bind_addr = get_env_string env r_health_check_bind_addr [];
      health_check_interval = get_env_int env r_health_check_interval (pos 1);
      health_check_time_out = get_env_int env r_health_check_timeout (pos 60);
      deregister_critical_service_after =
          get_env_int env r_deregister_critical_service_after (pos 30);
      passing_only = get_env_bool env r_passing_only true;
      namespace = get_env_string env r_namespace [];
      prometheus_name_space = get_env_string env r_prometheus_namespace name;
      prometheus_addr = get_env_string env r_prometheus_addr [];
      prometheus_bind_addr = get_env_string env r_prometheus_bind_addr [];
      prometheus_server_name = get_env_string env r_prometheus_server_name prometheus;
      user_name = get_env_string env r_username [];
      password = get_env_string env r_password [];
      consul_tags = get_env_strings env r_consul_tags 44 [];
      wait_time = get_env_int env r_wait_time (pos 60);
      config_path = get_env_string env r_config_path [];
    }

-- defaultconfig
unfoldable pub default_config : Process → Text → RegConfig
default_config p name =
    let c = env_config p name in
    load_default_server_config p name (load_if_exists p c.config_path c)
