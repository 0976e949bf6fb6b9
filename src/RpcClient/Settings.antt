-- ===== src/RpcClient/Settings.antt =====
-- The settings of a client, gokit/transport/rpc/client_option.go. What is in files is an argument, and a
-- limit is a whole number.
use jkfr.Prelude.{
  ℕ, Bool, true, Option, none, some, List, [], ◌∷◌, ◌++◌, if◌then◌else◌, ℤ, pos, pos_part,
}
use jkfr.HostAddr.{Text}
use jkfr.Environ.{Environment, get_env_string, get_env_strings, get_env_int, get_env_bool}
use jkfr.Middleware.{ActionMiddleware, default_middleware}
use jkfr.Registry.{RegOption, conf, toml, json}

-- ClientConfig. `fatory` and `async_call_chan` number the function and the channel.
pub record ClientConfig : Type 0 where
  pub reg_ops : List RegOption
  pub action_middlewares : List ActionMiddleware
  pub tmp_action_middlewares : List ActionMiddleware
  pub fatory : ℕ
  pub async_call_chan : ℕ
  pub client_pem : Text
  pub client_key : Text
  pub config_path : Text
  pub consul_tags : List Text
  pub strategy : Text
  pub prometheus_name_space : Text
  pub retry : ℤ
  pub retry_interval_ms : ℤ
  pub rate_limit : ℤ
  pub time_out : ℤ
  pub passing_only : Bool
  pub keep_alive : Bool
  pub pool_cap : ℤ
  pub max_cap : ℤ
  pub dial_timeout : ℤ
  pub idle_timeout : ℤ
  pub read_timeout : ℤ
  pub write_timeout : ℤ
  pub client_pem_file : Text
  pub client_key_file : Text
  pub codec : Text

-- The environment variables that defaultClientConfig reads.
pub data ClientVariable : Type 0 where
  c_consul_tags c_strategy c_prometheus_name_space c_codec c_retry : ClientVariable
  c_retry_interval_ms c_rate_limit c_timeout c_passing_only c_keep_alive : ClientVariable
  c_pool_cap c_max_cap c_dial_timeout c_idle_timeout c_read_timeout : ClientVariable
  c_write_timeout c_pem_file c_key_file c_config_path : ClientVariable

-- What a process finds: its variables and directory, the contents of the files that exist and can be
-- read, the files that exist, what ReadConfigFile makes of a configuration, and the number of the
-- channel that it makes.
pub record ClientProcess : Type 0 where
  pub env : Environment ClientVariable
  pub cur_dir : Text
  pub is_file_exists : Text → Bool
  pub read_file : Text → Option Text
  pub read_config_file : Text → ClientConfig → ClientConfig
  pub new_chan : ℕ

-- The options, each with what its function captures; of a channel also whether it is not nil and has a
-- buffer.
pub data ClientOption : Type 0 where
  client_prometheus_name_space client_codec client_strategy : Text → ClientOption
  client_reg_option : List RegOption → ClientOption
  client_consul_tags : List Text → ClientOption
  client_limit client_retry client_retry_interval_ms client_rate_limit : ℤ → ClientOption
  client_time_out client_pool_cap client_max_cap client_dial_timeout : ℤ → ClientOption
  client_idle_timeout client_read_timeout client_write_timeout : ℤ → ClientOption
  client_passing_only client_keep_alive : Bool → ClientOption
  client_async_call_chan : Bool → ℕ → ClientOption
  client_create_fatory : ℕ → ClientOption
  client_action_middlewares : List ActionMiddleware → ClientOption
  with_client_pem with_client_key client_pem_file client_key_file : Text → ClientOption
  client_config_file : Text → ClientOption

abbrev pub content : ClientProcess → Text → Text → Text
content p path old =
    if p.is_file_exists path then elim (p.read_file path) [ none ↦ old | some t ↦ t ] else old

-- op(cfg)
unfoldable pub apply_client_option : ClientProcess → ClientOption → ClientConfig → ClientConfig
apply_client_option p (client_prometheus_name_space n) c = record c { prometheus_name_space = n }
apply_client_option p (client_codec t) c = record c { codec = t }
apply_client_option p (client_strategy t) c = record c { strategy = t }
apply_client_option p (client_reg_option ops) c = record c { reg_ops = c.reg_ops ++ ops }
apply_client_option p (client_consul_tags ts) c = record c { consul_tags = c.consul_tags ++ ts }
apply_client_option p (client_limit n) c = record c { rate_limit = n }
apply_client_option p (client_retry n) c = record c { retry = n }
apply_client_option p (client_retry_interval_ms n) c = record c { retry_interval_ms = n }
apply_client_option p (client_rate_limit n) c = record c { rate_limit = n }
apply_client_option p (client_time_out n) c = record c { time_out = n }
apply_client_option p (client_pool_cap n) c = record c { pool_cap = n }
apply_client_option p (client_max_cap n) c = record c { max_cap = n }
apply_client_option p (client_dial_timeout n) c = record c { dial_timeout = n }
apply_client_option p (client_idle_timeout n) c = record c { idle_timeout = n }
apply_client_option p (client_read_timeout n) c = record c { read_timeout = n }
apply_client_option p (client_write_timeout n) c = record c { write_timeout = n }
apply_client_option p (client_passing_only b) c = record c { passing_only = b }
apply_client_option p (client_keep_alive b) c = record c { keep_alive = b }
apply_client_option p (client_async_call_chan ok n) c =
    if ok then record c { async_call_chan = n } else c
apply_client_option p (client_create_fatory n) c = record c { fatory = n }
apply_client_option p (client_action_middlewares ms) c = record c {
  tmp_action_middlewares = c.tmp_action_middlewares ++ ms;
}
apply_client_option p (with_client_pem t) c = record c { client_pem = t }
apply_client_option p (with_client_key t) c = record c { client_key = t }
apply_client_option p (client_pem_file path) c = record c {
  client_pem_file = path;
  client_pem = content p path c.client_pem;
}
apply_client_option p (client_key_file path) c = record c {
  client_key_file = path;
  client_key = content p path c.client_key;
}
apply_client_option p (client_config_file path) c =
    p.read_config_file path (record c { config_path = path })

unfoldable pub apply_client_options :
    ClientProcess → List ClientOption → ClientConfig → ClientConfig
apply_client_options p [] c = c
apply_client_options p (op ∷ ops) c = apply_client_options p ops (apply_client_option p op c)

-- "least" and "gob"
abbrev pub least_name : Text
least_name = 108 ∷ 101 ∷ 97 ∷ 115 ∷ 116 ∷ []

abbrev pub gob_name : Text
gob_name = 103 ∷ 111 ∷ 98 ∷ []

-- defaultClientConfig, up to the files that its last variables name; the factory 0 is TcpClientFatory.
unfoldable pub client_env_config : ClientProcess → Text → ClientConfig
client_env_config p name =
    let env = p.env in
    record {
      reg_ops = [];
      action_middlewares = [];
      tmp_action_middlewares = [];
      fatory = 0;
      async_call_chan = p.new_chan;
      client_pem = [];
      client_key = [];
      config_path = [];
      consul_tags = get_env_strings env c_consul_tags 44 [];
      strategy = get_env_string env c_strategy least_name;
      prometheus_name_space = get_env_string env c_prometheus_name_space name;
      codec = get_env_string env c_codec gob_name;
      retry = get_env_int env c_retry (pos 3);
      retry_interval_ms = get_env_int env c_retry_interval_ms (pos 1_000);
      rate_limit = get_env_int env c_rate_limit (pos 0);
      time_out = get_env_int env c_timeout (pos 60);
      passing_only = get_env_bool env c_passing_only true;
      keep_alive = get_env_bool env c_keep_alive true;
      pool_cap = get_env_int env c_pool_cap (pos 2);
      max_cap = get_env_int env c_max_cap (pos 64);
      dial_timeout = get_env_int env c_dial_timeout (pos 10);
      idle_timeout = get_env_int env c_idle_timeout (pos 600);
      read_timeout = get_env_int env c_read_timeout (pos 60);
      write_timeout = get_env_int env c_write_timeout (pos 60);
      client_pem_file = [];
      client_key_file = [];
    }

abbrev pub load_client_file : ClientProcess → Text → ClientConfig → ClientConfig
load_client_file p path c =
    if p.is_file_exists path then apply_client_option p (client_config_file path) c else c

-- defaultClientConfig
unfoldable pub default_client_config : ClientProcess → Text → ClientConfig
default_client_config p name =
    let pem = client_pem_file (get_env_string p.env c_pem_file []) in
    let key = client_key_file (get_env_string p.env c_key_file []) in
    let path = get_env_string p.env c_config_path [] in
    let c = apply_client_options p (pem ∷ key ∷ []) (client_env_config p name) in
    load_client_file p path (record c { config_path = path })

-- loadDefaultClientConfig
unfoldable pub load_default_client_config : ClientProcess → Text → ClientConfig → ClientConfig
load_default_client_config p name c =
    load_client_file p (p.cur_dir ++ conf ++ name ++ json)
      (load_client_file p (p.cur_dir ++ conf ++ name ++ toml) c)

abbrev pub or_middlewares : List ActionMiddleware → List ActionMiddleware → List ActionMiddleware
or_middlewares [] ms = ms
or_middlewares (t ∷ ts) ms = t ∷ ts

-- newClientConfig; to the middlewares, a negative limit is as 0 is.
unfoldable pub new_client_config : ClientProcess → Text → List ClientOption → ClientConfig
new_client_config p name ops =
    let loaded = load_default_client_config p name (default_client_config p name) in
    let c = apply_client_options p ops loaded in
    record c {
      action_middlewares =
          or_middlewares c.tmp_action_middlewares (default_middleware (pos_part c.rate_limit));
    }
