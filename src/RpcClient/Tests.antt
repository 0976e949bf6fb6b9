-- ===== src/RpcClient/Tests.antt =====
-- Calls of an endpoint that fails at odd requests by gokit/transport/rpc/client.go, the theorem at
-- them, and settings of gokit/transport/rpc/client_option.go.
use jkfr.Prelude.{
  ℕ, ◌+◌, ◌%◌, ◌≡◌, refl, true, none, some, ◌==◌, if◌then◌else◌, is_some, Bool, false, [], ◌∷◌, pos,
}
use jkfr.Middleware.{
  Metrics, Endpoint, chain_loop, chain, rate_limit, response_time, action_request, total_request,
  action_request_error, total_request_error, default_middleware,
}
use jkfr.Middleware.Counts.{nested}
use jkfr.RpcClient.{RpcClient, new_rpc_client, call_action}
use jkfr.RpcClient.Cached.{begins, calls, call_action-nested}
use jkfr.HostAddr.{Text}
use jkfr.Environ.{
  trim_left, get_env_string, split_by, trimmed, get_env_strings, get_env_int, is_lower_text,
  get_env_bool,
}
use jkfr.RpcClient.Settings.{
  ClientProcess, client_strategy, client_consul_tags, client_pem_file, client_config_file,
  apply_client_option, apply_client_options, client_env_config, default_client_config,
  load_default_client_config, new_client_config,
}

what_runs : Unit {0}
unfolding call_action chain chain_loop default_middleware response_time action_request total_request
    total_request_error action_request_error rate_limit apply_client_option apply_client_options
    client_env_config default_client_config load_default_client_config new_client_config trim_left
    get_env_string split_by trimmed get_env_strings get_env_int is_lower_text get_env_bool
what_runs = tt

abbrev even_only : Endpoint
even_only request m =
    (m, record { response = request + 1; err = if request % 2 == 1 then some 5 else none })

abbrev fresh : Metrics
fresh = record {
  running = true;
  total = 0;
  total_error = 0;
  action = λ a. 0;
  action_error = λ a. 0;
  observed = 0;
  waited = 0;
}

abbrev client : RpcClient
client = new_rpc_client even_only (default_middleware 100)

abbrev after : ℕ → RpcClient
after request = (call_action client client (some 4) request fresh).0

-- An endpoint is kept once it has answered.
kept_once :
    (is_some ((after 2).action_end_point (some 4)) ≡ true)
    × ((after 3).action_end_point (some 4) ≡ none)
unfolding what_runs
kept_once = (refl, refl)

call_action-nested_example :
    let (c, m', err) = call_action (after 2) (after 2) (some 4) 3 fresh in
    let (n', r) = nested (default_middleware 100) (some 4) even_only 3 fresh in
    (m' ≡ n') × (err ≡ r.err)
call_action-nested_example =
    call_action-nested even_only (default_middleware 100) (after 2) (after 2) (some 4) 3 fresh
      (calls client client (some 4) 2 fresh begins begins)

-- "p", a file that exists, and whose content is "k"; as a configuration file, it names itself.
abbrev path : Text
path = 112 ∷ []

abbrev key : Text
key = 107 ∷ []

abbrev around : ClientProcess
around = record {
  env = λ v. [];
  cur_dir = [];
  is_file_exists = λ t. is_p t;
  read_file = λ t. some key;
  read_config_file = λ t c. record c { client_pem_file = t };
  new_chan = 1;
}
  where
    is_p : Text → Bool
    is_p [] = false
    is_p (c ∷ cs) = c == 112

-- The option of a PEM file reads it, and a configuration file that names one does not.
pem_read :
    let by_option = new_client_config around [] (client_pem_file path ∷ []) in
    let by_file = new_client_config around [] (client_config_file path ∷ []) in
    (by_option.client_pem ≡ key) × (by_file.client_pem_file ≡ path) × (by_file.client_pem ≡ [])
unfolding what_runs
pem_read = (refl, refl, refl)

-- Tags add up, and a later strategy replaces an earlier one.
options_applied :
    let c = new_client_config around [] (
      client_consul_tags (key ∷ [])
      ∷ client_strategy key
      ∷ client_consul_tags (path ∷ [])
      ∷ client_strategy path
      ∷ []) in
    (c.consul_tags ≡ key ∷ path ∷ []) × (c.strategy ≡ path) × (c.max_cap ≡ pos 64)
unfolding what_runs
options_applied = (refl, refl, refl)
