-- ===== src/RpcClient/Cached.antt =====
-- The map of endpoints in gokit/transport/rpc/client.go does not show in what a call does.
use jkfr.Prelude.{
  ℕ, ◌≡◌, refl, sym, ap, ◌∙◌, Bool, true, false, Option, none, some, List, arith, ◌||◌,
  if◌then◌else◌, is_some,
}
use jkfr.Middleware.{Metrics, Endpoint, Action, ActionMiddleware, chain}
use jkfr.Middleware.Counts.{nested, chain-nested}
use jkfr.RpcClient.{RpcClient, new_rpc_client, is_action, stored, end_point_of, call_action}

-- What goroutines that call actions lead to. A call reads the map at `before` and writes it at `later`,
-- and other calls may come in between.
pub data Reach (req : Endpoint) (middlewares : List ActionMiddleware) : RpcClient → Type 0 where
  begins : Reach req middlewares (new_rpc_client req middlewares)
  calls :
      (before later : RpcClient) (a : Action) (request : ℕ) (m : Metrics)
      → Reach req middlewares before
      → Reach req middlewares later
      → Reach req middlewares (call_action before later a request m).0

-- The map has for an action nothing or what Chain makes.
pub record IsSound (req : Endpoint) (middlewares : List ActionMiddleware) (c : RpcClient)
    : Type 0 where
  pub same_end_point : c.req_end_point ≡ req
  pub same_middlewares : c.middlewares ≡ middlewares
  pub kept :
      (a : Action) (e : Endpoint) → c.action_end_point a ≡ some e → e ≡ chain req a middlewares

is_action-eq : (a b : Action) → is_action a b ≡ true → a ≡ b
is_action-eq none none e = refl
is_action-eq none (some b) e = cc
is_action-eq (some a) none e = cc
is_action-eq (some a) (some b) e = ap (λ n. some n) (ground arith)

module _ (req : Endpoint) (middlewares : List ActionMiddleware) where
  end_point_of-chain :
      (c : RpcClient) (a : Action) (o : Option Endpoint)
      → IsSound req middlewares c
      → c.action_end_point a ≡ o
      → end_point_of c a o ≡ chain req a middlewares
  end_point_of-chain c a (some e) v at = v.kept a e at
  end_point_of-chain c a none v at =
      ap (λ r. chain r a c.middlewares) v.same_end_point ∙ ap (chain req a) v.same_middlewares

  stored-IsSound :
      (c : RpcClient) (a : Action) (e : Endpoint)
      → IsSound req middlewares c
      → e ≡ chain req a middlewares
      → IsSound req middlewares (stored c a e)
  stored-IsSound c a e v made = record {
    same_end_point = v.same_end_point;
    same_middlewares = v.same_middlewares;
    kept = λ b f. by b f (is_action a b) refl;
  }
    where
      by :
          (b : Action) (f : Endpoint) (t : Bool)
          → is_action a b ≡ t
          → (if t then some e else c.action_end_point b) ≡ some f
          → f ≡ chain req b middlewares
      by b f true same at =
          let e≡f : e ≡ f = cc in
          sym e≡f ∙ made ∙ ap (λ x. chain req x middlewares) (is_action-eq a b same)
      by b f false same at = v.kept b f at

  call_action-IsSound :
      (before later : RpcClient) (a : Action) (request : ℕ) (m : Metrics)
      → IsSound req middlewares before
      → IsSound req middlewares later
      → IsSound req middlewares (call_action before later a request m).0
  unfolding call_action
  call_action-IsSound before later a request m v w =
      by (is_some ((e request m).1.err) || is_some (before.action_end_point a))
    where
      e : Endpoint
      e = end_point_of before a (before.action_end_point a)

      by :
          (b : Bool)
          → IsSound req middlewares
              (if◌then◌else◌ {A = RpcClient × Metrics × Option ℕ} b
                (later, (e request m).0, (e request m).1.err)
                (stored later a e, (e request m).0, (e request m).1.err)).0
      by true = w
      by false =
          stored-IsSound later a e w
            (end_point_of-chain before a (before.action_end_point a) v refl)

  Reach-IsSound : (c : RpcClient) → Reach req middlewares c → IsSound req middlewares c
  Reach-IsSound _ begins = record {
    same_end_point = refl;
    same_middlewares = refl;
    kept = λ a e at. cc;
  }
  Reach-IsSound _ (calls before later a request m r s) =
      call_action-IsSound before later a request m (Reach-IsSound before r) (Reach-IsSound later s)

-- After every history of calls, which may overlap, Call of an action does to the metrics, and returns as
-- its error, what the endpoint of all requests does inside the middlewares of the client, the first
-- outermost, whether the map has the action or not.
pub call_action-nested :
    (req : Endpoint) (middlewares : List ActionMiddleware) (before later : RpcClient) (a : Action)
    (request : ℕ) (m : Metrics)
    → Reach req middlewares before
    → let (c, m', err) = call_action before later a request m in
      let (n', r) = nested middlewares a req request m in (m' ≡ n') × (err ≡ r.err)
unfolding call_action
call_action-nested req middlewares before later a request m r =
    by (is_some ((e request m).1.err) || is_some (before.action_end_point a))
  where
    e : Endpoint
    e = end_point_of before a (before.action_end_point a)

    same : e ≡ nested middlewares a req
    same =
        end_point_of-chain req middlewares before a (before.action_end_point a)
          (Reach-IsSound req middlewares before r) refl
        ∙ chain-nested req a middlewares

    agrees :
        let (n', r) = nested middlewares a req request m in
        ((e request m).0 ≡ n') × ((e request m).1.err ≡ r.err)
    agrees = (
      ap (λ (f : Endpoint). (f request m).0) same,
      ap (λ (f : Endpoint). (f request m).1.err) same,
    )

    by :
        (b : Bool)
        → let (c, m', err) =
            if◌then◌else◌ {A = RpcClient × Metrics × Option ℕ} b
              (later, (e request m).0, (e request m).1.err)
              (stored later a e, (e request m).0, (e request m).1.err) in
          let (n', r) = nested middlewares a req request m in (m' ≡ n') × (err ≡ r.err)
    by true = agrees
    by false = agrees
