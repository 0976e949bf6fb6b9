-- ===== src/RpcServer/Settings.antt =====
-- The settings of a server, gokit/transport/rpc/server_option.go. What is in files is an argument, and a
-- limit is a whole number.
use jkfr.Prelude.{ℕ, Bool, Option, none, some, List, [], ◌∷◌, ◌++◌, if◌then◌else◌, ℤ, pos, pos_part}
use jkfr.HostAddr.{Text}
use jkfr.Environ.{Environment, get_env_string, get_env_int}
use jkfr.Middleware.{ActionMiddleware, default_middleware}
use jkfr.Registry.{RegOption, conf, toml, json}
use jkfr.Registry.Server.{or_text}
use jkfr.RpcClient.Settings.{gob_name, or_middlewares}

-- The functions that make a listener and that serve it, those of server_fatory.go by their names.
pub data ListenerFatory : Type 0 where
  tcp_listener_fatory tls_listener_fatory : ListenerFatory
  own_listener_fatory : ℕ → ListenerFatory

pub data ServerRun : Type 0 where
  run_server_with_tcp run_server_with_http : ServerRun
  own_server_run : ℕ → ServerRun

-- ServerConfig
pub record ServerConfig : Type 0 where
  pub server_addr : Text
  pub bind_addr : Text
  pub server_pem_file : Text
  pub server_key_file : Text
  pub client_pem_file : Text
  pub prometheus_name_space : Text
  pub rate_limit : ℤ
  pub rpc_path : Text
  pub rpc_debug_path : Text
  pub rpc_name : Text
  pub codec : Text
  pub server_pem : Text
  pub server_key : Text
  pub client_pem : Text
  pub config_path : Text
  pub reg_ops : List RegOption
  pub listener_fatory : ListenerFatory
  pub server_run : ServerRun
  pub action_middlewares : List ActionMiddleware
  pub tmp_action_middlewares : List ActionMiddleware

-- The environment variables that defaultServerConfig reads.
pub data ServerVariable : Type 0 where
  s_server_addr s_bind_addr s_prometheus_name_space s_rpc_path s_rpc_name : ServerVariable
  s_codec s_rpc_debug_path s_rate_limit s_pem_file s_key_file : ServerVariable
  s_client_key_file s_config_path : ServerVariable

-- What a process finds: its variables and directory, the files that exist, the contents of those that
-- can be read, and what ReadConfigFile makes of a configuration.
pub record ServerProcess : Type 0 where
  pub env : Environment ServerVariable
  pub cur_dir : Text
  pub is_file_exists : Text → Bool
  pub read_file : Text → Option Text
  pub read_config_file : Text → ServerConfig → ServerConfig

-- The options of a server, each with what its function captures. ServerActionMiddlewares is none of them:
-- it makes an option of a client.
pub data ServerOption : Type 0 where
  with_addr with_bind_addr with_server_pem with_server_key with_client_pem : Text → ServerOption
  server_pem_file server_key_file server_client_pem_file : Text → ServerOption
  server_reg_option : List RegOption → ServerOption
  server_rate_limit : ℤ → ServerOption
  server_prometheus_name_space server_rpc_path server_rpc_debug_path : Text → ServerOption
  server_rpc_name server_codec server_config_file : Text → ServerOption
  server_listener_fatory : ListenerFatory → ServerOption
  server_run_with : ServerRun → ServerOption

abbrev pub server_content : ServerProcess → Text → Text → Text
server_content p path old =
    if p.is_file_exists path then elim (p.read_file path) [ none ↦ old | some t ↦ t ] else old

-- op(cfg)
unfoldable pub apply_server_option : ServerProcess → ServerOption → ServerConfig → ServerConfig
apply_server_option p (with_addr a) c = record c { server_addr = a }
apply_server_option p (with_bind_addr a) c = record c { bind_addr = a }
apply_server_option p (with_server_pem t) c = record c { server_pem = t }
apply_server_option p (with_server_key t) c = record c { server_key = t }
apply_server_option p (with_client_pem t) c = record c { client_pem = t }
apply_server_option p (server_pem_file path) c = record c {
  server_pem_file = path;
  server_pem = server_content p path c.server_pem;
}
apply_server_option p (server_key_file path) c = record c {
  server_key_file = path;
  server_key = server_content p path c.server_key;
}
apply_server_option p (server_client_pem_file path) c = record c {
  client_pem_file = path;
  client_pem = server_content p path c.client_pem;
}
apply_server_option p (server_reg_option ops) c = record c { reg_ops = c.reg_ops ++ ops }
apply_server_option p (server_rate_limit n) c = record c { rate_limit = n }
apply_server_option p (server_prometheus_name_space n) c = record c { prometheus_name_space = n }
apply_server_option p (server_listener_fatory f) c = record c { listener_fatory = f }
apply_server_option p (server_run_with r) c = record c { server_run = r }
apply_server_option p (server_rpc_path t) c = record c { rpc_path = t }
apply_server_option p (server_rpc_debug_path t) c = record c { rpc_debug_path = t }
apply_server_option p (server_rpc_name t) c = record c { rpc_name = t }
apply_server_option p (server_codec t) c = record c { codec = t }
apply_server_option p (server_config_file path) c =
    p.read_config_file path (record c { config_path = path })

unfoldable pub apply_server_options :
    ServerProcess → List ServerOption → ServerConfig → ServerConfig
apply_server_options p [] c = c
apply_server_options p (op ∷ ops) c = apply_server_options p ops (apply_server_option p op c)

-- "/_goRPC_" and "/debug/rpc", the paths of Go's net/rpc
abbrev pub default_rpc_path : Text
default_rpc_path = 47 ∷ 95 ∷ 103 ∷ 111 ∷ 82 ∷ 80 ∷ 67 ∷ 95 ∷ []

abbrev pub default_debug_path : Text
default_debug_path = 47 ∷ 100 ∷ 101 ∷ 98 ∷ 117 ∷ 103 ∷ 47 ∷ 114 ∷ 112 ∷ 99 ∷ []

-- defaultServerConfig, up to the files that its last variables name
unfoldable pub server_env_config : ServerProcess → Text → ServerConfig
server_env_config p name =
    let env = p.env in
    record {
      server_addr = get_env_string env s_server_addr [];
      bind_addr = get_env_string env s_bind_addr [];
      server_pem_file = [];
      server_key_file = [];
      client_pem_file = [];
      prometheus_name_space = get_env_string env s_prometheus_name_space name;
      rate_limit = get_env_int env s_rate_limit (pos 0);
      rpc_path = get_env_string env s_rpc_path default_rpc_path;
      rpc_debug_path = get_env_string env s_rpc_debug_path default_debug_path;
      rpc_name = get_env_string env s_rpc_name [];
      codec = get_env_string env s_codec gob_name;
      server_pem = [];
      server_key = [];
      client_pem = [];
      config_path = [];
      reg_ops = [];
      listener_fatory = tcp_listener_fatory;
      server_run = run_server_with_tcp;
      action_middlewares = [];
      tmp_action_middlewares = [];
    }

abbrev pub load_server_file : ServerProcess → Text → ServerConfig → ServerConfig
load_server_file p path c =
    if p.is_file_exists path then apply_server_option p (server_config_file path) c else c

-- defaultServerConfig
unfoldable pub default_server_config : ServerProcess → Text → ServerConfig
default_server_config p name =
    let pem = server_pem_file (get_env_string p.env s_pem_file []) in
    let key = server_key_file (get_env_string p.env s_key_file []) in
    let client = server_client_pem_file (get_env_string p.env s_client_key_file []) in
    let path = get_env_string p.env s_config_path [] in
    let c = apply_server_options p (pem ∷ key ∷ client ∷ []) (server_env_config p name) in
    load_server_file p path (record c { config_path = path })

-- loadDefaultServerConfig
unfoldable pub load_default_config : ServerProcess → Text → ServerConfig → ServerConfig
load_default_config p name c =
    load_server_file p (p.cur_dir ++ conf ++ name ++ json)
      (load_server_file p (p.cur_dir ++ conf ++ name ++ toml) c)

-- utils.ResetServerAddr
abbrev pub reset_addr : ServerConfig → ServerConfig
reset_addr c =
    let bind = or_text c.bind_addr c.server_addr in
    record c { bind_addr = bind; server_addr = or_text c.server_addr bind }

-- newServerConfig; to the middlewares, a negative limit is as 0 is, and ResetServerAddr has no error.
unfoldable pub new_server_config : ServerProcess → Text → List ServerOption → ServerConfig
new_server_config p name ops =
    let loaded = load_default_config p name (default_server_config p name) in
    let c = apply_server_options p ops loaded in
    let defaults = default_middleware (pos_part c.rate_limit) in
    reset_addr (record c { action_middlewares = or_middlewares c.tmp_action_middlewares defaults })
