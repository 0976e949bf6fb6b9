-- ===== src/Middleware/Tests.antt =====
-- An endpoint that fails at odd requests, under the middlewares of
-- gokit/transport/endpoint/endpoint.go, and the theorems at it.
use jkfr.Prelude.{◌+◌, ◌%◌, ◌≡◌, refl, true, none, some, ◌==◌, if◌then◌else◌}
use jkfr.Middleware.{
  Metrics, Endpoint, chain_loop, chain, rate_limit, response_time, action_request, total_request,
  action_request_error, total_request_error, default_middleware,
}
use jkfr.Middleware.Counts.{counted_before, counted_after, chain-counts}

abbrev even_only : Endpoint
even_only request m =
    (m, record { response = request + 1; err = if request % 2 == 1 then some 5 else none })

abbrev fresh : Metrics
fresh = record {
  running = true;
  total = 0;
  total_error = 0;
  action = λ a. 0;
  action_error = λ a. 0;
  observed = 0;
  waited = 0;
}

what_runs : Unit {0}
unfolding chain chain_loop default_middleware response_time action_request total_request
    total_request_error action_request_error rate_limit
what_runs = tt

failure_counted :
    let m = (chain even_only (some 4) (default_middleware 100) 3 fresh).0 in
    (m.total ≡ 1)
    × (m.total_error ≡ 1)
    × (m.action_error 4 ≡ 1)
    × (m.action_error 5 ≡ 0)
    × (m.waited ≡ 1)
unfolding what_runs
failure_counted = (refl, refl, refl, refl, refl)

chain-counts_example : chain even_only (some 4) (default_middleware 100) 3 fresh ≡ (
    let (m', r) = even_only 3 (counted_before 100 (some 4) fresh) in
    (counted_after (some 4) r.err m', r))
chain-counts_example = chain-counts 100 (some 4) even_only 3 fresh
