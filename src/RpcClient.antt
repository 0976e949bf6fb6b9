-- ===== src/RpcClient.antt =====
-- RPCClient of gokit/transport/rpc/client.go: calls of actions, whose endpoints are kept in a map. The
-- endpoint of all requests, which retries over a balancer, is a parameter.
pub mod Cached
pub mod Settings
mod Tests
use jkfr.Prelude.{
  ℕ, Bool, true, false, ◌||◌, Option, none, some, List, ◌==◌, if◌then◌else◌, is_some,
}
use jkfr.Middleware.{Metrics, Returned, Endpoint, Action, ActionMiddleware, chain}

-- `action_end_point` is the map of endpoints, and `middlewares` are cfg.ActionMiddlewares.
pub record RpcClient : Type 0 where
  pub req_end_point : Endpoint
  pub middlewares : List ActionMiddleware
  pub action_end_point : Action → Option Endpoint

-- NewClient, the map of the actions being empty
abbrev pub new_rpc_client : Endpoint → List ActionMiddleware → RpcClient
new_rpc_client req middlewares = record {
  req_end_point = req;
  middlewares = middlewares;
  action_end_point = λ a. none;
}

abbrev pub is_action : Action → Action → Bool
is_action none none = true
is_action none (some b) = false
is_action (some a) none = false
is_action (some a) (some b) = a == b

abbrev pub stored : RpcClient → Action → Endpoint → RpcClient
stored c a e = record c {
  action_end_point = λ b. if is_action a b then some e else c.action_end_point b;
}

-- The first half of Call: the endpoint of the action, from the map or made by Chain.
abbrev pub end_point_of : RpcClient → Action → Option Endpoint → Endpoint
end_point_of c a (some e) = e
end_point_of c a none = chain c.req_end_point a c.middlewares

-- The second half, with what the endpoint has returned: a new endpoint goes into the map if it has
-- returned no error. Other goroutines may have changed the map since the first half.
abbrev pub settled :
    RpcClient → Action → Bool → Endpoint → Metrics × Returned → RpcClient × Metrics × Option ℕ
settled c a found e (m, r) =
    if is_some r.err || found then (c, m, r.err) else (stored c a e, m, r.err)

-- Call, where `later` is the client after the endpoint has run.
unfoldable pub call_action :
    RpcClient → RpcClient → Action → ℕ → Metrics → RpcClient × Metrics × Option ℕ
call_action c later a request m =
    let found = c.action_end_point a in
    let e = end_point_of c a found in settled later a (is_some found) e (e request m)
