-- ===== src/Middleware/Counts.antt =====
-- In which order the middlewares of gokit/transport/endpoint/endpoint.go wrap an endpoint, and what they
-- count.
use jkfr.Prelude.{
  ℕ, zero, suc, ◌+◌, ◌≡◌, refl, ap, ◌∙◌, Option, none, some, List, [], ◌∷◌, ltb, if◌then◌else◌,
  length, get_elem?, ◌&&◌, Bool, true, false, is_some, ◌==◌,
}
use jkfr.Middleware.{
  Metrics, Returned, Endpoint, Action, wrapped, chain_loop, chain, inc_total, inc_total_error,
  inc_action, inc_action_error, observe, if_error, rate_limit, response_time, action_request,
  total_request, action_request_error, total_request_error, default_middleware,
}

module _ {ℓ ℓ'} {A : Type ℓ} {E : Type ℓ'} where
  -- The reference: the first middleware is outermost.
  unfoldable pub nested : List (A → E → E) → A → E → E
  nested [] a next = next
  nested (m ∷ ms) a next = m a (nested ms a next)

  chain_loop-cons :
      (i : ℕ) (m : A → E → E) (ms : List (A → E → E)) (a : A) (next : E)
      → chain_loop (suc i) (m ∷ ms) a next ≡ m a (chain_loop i ms a next)
  unfolding chain_loop
  chain_loop-cons zero m ms a next = refl
  chain_loop-cons (suc i) m ms a next = chain_loop-cons i m ms a (wrapped (get_elem? ms i) a next)

  -- Chain, which goes through the middlewares from the last to the first, nests them so that the first
  -- of the list is outermost and the endpoint innermost.
  pub chain-nested : (next : E) (a : A) (ms : List (A → E → E)) → chain next a ms ≡ nested ms a next
  unfolding chain chain_loop nested
  chain-nested next a [] = refl
  chain-nested next a (m ∷ ms) =
      chain_loop-cons (length ms) m ms a next ∙ ap (m a) (chain-nested next a ms)

abbrev inc_named : (ℕ → Metrics → Metrics) → Action → Metrics → Metrics
inc_named f none m = m
inc_named f (some a) m = f a m

-- A counter that is one higher where the test holds.
abbrev pub one_more : Bool → ℕ → ℕ
one_more b n = if b then n + 1 else n

abbrev pub is_named : Action → ℕ → Bool
is_named none b = false
is_named (some a) b = a == b

-- What has been counted before the endpoint runs, and what more after it has returned.
abbrev pub counted_before : ℕ → Action → Metrics → Metrics
counted_before limit a m = record m {
  total = one_more m.running m.total;
  action = λ b. one_more (m.running && is_named a b) (m.action b);
  waited = one_more (ltb 0 limit) m.waited;
}

abbrev pub counted_after : Action → Option ℕ → Metrics → Metrics
counted_after a e m = record m {
  observed = one_more m.running m.observed;
  total_error = one_more (m.running && is_some e) m.total_error;
  action_error = λ b. one_more (m.running && is_some e && is_named a b) (m.action_error b);
}

-- The same as the middlewares do it, one after the other.
abbrev before : ℕ → Action → Metrics → Metrics
before limit a m =
    let counted = inc_total (inc_named inc_action a m) in
    if ltb 0 limit then record counted { waited = counted.waited + 1 } else counted

abbrev finished : Action → Option ℕ → Metrics → Metrics
finished a e m =
    observe (if_error inc_total_error e (inc_named (λ b. if_error (inc_action_error b) e) a m))

abbrev with_running : Bool → Metrics → Metrics
with_running b m = record m { running = b }

before-counted :
    (limit : ℕ) (a : Action) (m : Metrics) → before limit a m ≡ counted_before limit a m
before-counted limit a m = by m.running a (ltb 0 limit)
  where
    by :
        (b : Bool) (a : Action) (l : Bool)
        → (let counted = inc_total (inc_named inc_action a (with_running b m)) in
            if l then record counted { waited = counted.waited + 1 } else counted)
          ≡ record m {
            running = b;
            total = one_more b m.total;
            action = λ c. one_more (b && is_named a c) (m.action c);
            waited = one_more l m.waited;
          }
    by true none true = refl
    by true none false = refl
    by true (some a) true = refl
    by true (some a) false = refl
    by false none true = refl
    by false none false = refl
    by false (some a) true = refl
    by false (some a) false = refl

finished-counted : (a : Action) (e : Option ℕ) (m : Metrics) → finished a e m ≡ counted_after a e m
finished-counted a e m = by m.running a e
  where
    by :
        (b : Bool) (a : Action) (e : Option ℕ)
        → finished a e (with_running b m) ≡ record m {
          running = b;
          observed = one_more b m.observed;
          total_error = one_more (b && is_some e) m.total_error;
          action_error = λ c. one_more (b && is_some e && is_named a c) (m.action_error c);
        }
    by true none none = refl
    by true none (some e) = refl
    by true (some a) none = refl
    by true (some a) (some e) = refl
    by false none none = refl
    by false none (some e) = refl
    by false (some a) none = refl
    by false (some a) (some e) = refl

-- An endpoint under the default middlewares answers what it answers alone, with the counters of the
-- action and of all requests one higher before it runs and one wait more if there is a limit; after it,
-- one response time has been observed, and the two error counters are one higher exactly if it returned
-- an error. While uprometheus is not running, only the wait is counted, and an action without a name has
-- no counter of its own.
pub chain-counts :
    (limit : ℕ) (a : Action) (next : Endpoint) (request : ℕ) (m : Metrics)
    → chain next a (default_middleware limit) request m
      ≡ (let (m', r) = next request (counted_before limit a m) in (counted_after a r.err m', r))
unfolding chain chain_loop default_middleware response_time action_request total_request
    total_request_error action_request_error rate_limit
chain-counts limit a next request m = run a ∙ ap ends (before-counted limit a m) ∙ settle
  where
    ends : Metrics → Metrics × Returned
    ends m' = let (n, r) = next request m' in (finished a r.err n, r)

    run :
        (a : Action)
        → chain next a (default_middleware limit) request m
          ≡ (let (n, r) = next request (before limit a m) in (finished a r.err n, r))
    run none = refl
    run (some b) = refl

    settle :
        ends (counted_before limit a m)
        ≡ (let (n, r) = next request (counted_before limit a m) in (counted_after a r.err n, r))
    settle =
        let result = next request (counted_before limit a m) in
        ap (λ n. (n, result.1)) (finished-counted a result.1.err result.0)
