-- ===== src/Middleware.antt =====
-- The middlewares of gokit/transport/endpoint/endpoint.go, and their composition. An endpoint reads and
-- changes the metrics of the process, and what it calls is a parameter.
pub mod Counts
mod Tests
use jkfr.Prelude.{
  ℕ, zero, suc, ◌+◌, Bool, true, false, Option, none, some, List, [], ◌∷◌, ltb, ◌==◌, if◌then◌else◌,
  length, get_elem?, is_some,
}

-- The counters that the middlewares share, by their name and labels: `running` is uprometheus.Running,
-- `action` and `action_error` have a counter for each action, `observed` counts the response times, and
-- `waited` the calls that went through the rate limiter.
pub record Metrics : Type 0 where
  pub running : Bool
  pub total : ℕ
  pub total_error : ℕ
  pub action : ℕ → ℕ
  pub action_error : ℕ → ℕ
  pub observed : ℕ
  pub waited : ℕ

-- What an endpoint returns: a response, and an error or nil.
pub record Returned : Type 0 where
  pub response : ℕ
  pub err : Option ℕ

abbrev pub Endpoint : Type 0
Endpoint = ℕ → Metrics → Metrics × Returned

-- An action; `none` is the empty name.
abbrev pub Action : Type 0
Action = Option ℕ

abbrev pub ActionMiddleware : Type 0
ActionMiddleware = Action → Endpoint → Endpoint

module _ {ℓ ℓ'} {A : Type ℓ} {E : Type ℓ'} where
  abbrev pub wrapped : Option (A → E → E) → A → E → E
  wrapped none a next = next
  wrapped (some m) a next = m a next

  -- The loop of Chain, where `i` is one more than the index.
  unfoldable pub chain_loop : ℕ → List (A → E → E) → A → E → E
  chain_loop zero ms a next = next
  chain_loop (suc i) ms a next = chain_loop i ms a (wrapped (get_elem? ms i) a next)

  -- Chain
  unfoldable pub chain : E → A → List (A → E → E) → E
  chain next a ms = chain_loop (length ms) ms a next

-- counter.Inc(), if uprometheus.Running
abbrev pub inc_total : Metrics → Metrics
inc_total m = if m.running then record m { total = m.total + 1 } else m

abbrev pub inc_total_error : Metrics → Metrics
inc_total_error m = if m.running then record m { total_error = m.total_error + 1 } else m

abbrev pub inc_at : ℕ → (ℕ → ℕ) → ℕ → ℕ
inc_at a count b = if a == b then count b + 1 else count b

abbrev pub inc_action : ℕ → Metrics → Metrics
inc_action a m = if m.running then record m { action = inc_at a m.action } else m

abbrev pub inc_action_error : ℕ → Metrics → Metrics
inc_action_error a m = if m.running then record m { action_error = inc_at a m.action_error } else m

abbrev pub observe : Metrics → Metrics
observe m = if m.running then record m { observed = m.observed + 1 } else m

-- What a middleware does after the call.
abbrev pub after : (Option ℕ → Metrics → Metrics) → Metrics × Returned → Metrics × Returned
after f (m, r) = (f r.err m, r)

abbrev pub if_error : (Metrics → Metrics) → Option ℕ → Metrics → Metrics
if_error f e m = if is_some e then f m else m

-- MakeRateLimitMiddleware, for a limit that is a natural number
unfoldable pub rate_limit : ℕ → ActionMiddleware
rate_limit limit a next request m =
    next request (if ltb 0 limit then record m { waited = m.waited + 1 } else m)

-- MakePrometheusResponeTimeMiddleware
unfoldable pub response_time : ActionMiddleware
response_time a next request m = after (λ e. observe) (next request m)

-- MakePrometheusActionRequestMiddleware
unfoldable pub action_request : ActionMiddleware
action_request none next = next
action_request (some a) next = λ request m. next request (inc_action a m)

-- MakePrometheusTotalRequestMiddleware
unfoldable pub total_request : ActionMiddleware
total_request a next request m = next request (inc_total m)

-- MakePrometheusActionRequestErrorMiddleware
unfoldable pub action_request_error : ActionMiddleware
action_request_error none next = next
action_request_error (some a) next =
    λ request m. after (if_error (inc_action_error a)) (next request m)

-- MakePrometheusTotalRequestErrorMiddleware
unfoldable pub total_request_error : ActionMiddleware
total_request_error a next request m = after (if_error inc_total_error) (next request m)

-- DefaultMiddleware
unfoldable pub default_middleware : ℕ → List ActionMiddleware
default_middleware limit =
    response_time
    ∷ action_request
    ∷ total_request
    ∷ total_request_error
    ∷ action_request_error
    ∷ rate_limit limit
    ∷ []
