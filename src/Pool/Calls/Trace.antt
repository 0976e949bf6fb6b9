-- ===== src/Pool/Calls/Trace.antt =====
-- Histories of a pool of gokit/transport/pool/pool.go: calls, ticks and wake-ups in any order,
-- each at an end before the next begins. Overlap has the histories in which they mix.
use jkfr.Prelude.{
  ℕ, ◌-◌, ◌≡◌, sym, ap, subst, ◌∙◌, inl, inr, Bool, true, false, Option, none, some, if◌then◌else◌,
  ltb, Option-cases,
}
use mathlib.Core.Option.{some-injective}
use jkfr.Pool.Options.{Options, Error, repair, validate}
use jkfr.Pool.Client.{Env, Heap, IsRange}
use jkfr.Pool.Recycle.{Recycle, Wake, wake}
use jkfr.Pool.Recycle.Drain.{IsWoken, wake-IsWoken}
use jkfr.Pool.Clients.{
  Clients, Outcome, new_clients, init_clients, idle_tick, clear_idle, close_clients, minute,
}
use jkfr.Pool.Clients.Keep.{IsOpen, Factories, init_clients-IsOpen}
use jkfr.Pool.Clients.Retire.{clear_idle-IsOpen}
use jkfr.Pool.Clients.New.{new_clients-IsOpen}
use jkfr.Pool.Calls.{
  Pool, made, refused, new_pool, finish, pool_of, close_pool, get_client, put, with_clients,
}
use jkfr.Pool.Calls.Keep.{Keeps, get_client-Keeps, put-Keeps, woken, woken-IsOpen}

-- One call of a user, or one round of a goroutine of an open pool.
pub data Step : Pool → Pool → Type 0 where
  gets : (env : Env) (pl : Pool) → Factories env → Step pl (get_client env pl).0
  puts : (env : Env) (pl : Pool) (c : Option ℕ) (good : Bool) → Step pl (put env pl c good).0
  closes : (env : Env) (pl : Pool) → Step pl (close_pool env pl)
  ticks :
      (env : Env) (pl : Pool) (pre : ℕ)
      → Factories env
      → pl.locked ≡ false
      → Step pl (with_clients pl (idle_tick env pl.clients pre).0)
  wakes :
      (env : Env) (pl : Pool) (e : Wake) (r : Recycle) (t : Heap × Recycle)
      → IsRange env.range
      → pl.locked ≡ false
      → pl.clients.recycle ≡ some r
      → wake pl.clients.o env e (pl.clients.heap, r) ≡ some t
      → Step pl (with_clients pl (woken pl.clients t))

pub data Reach (pl : Pool) : Pool → Type 0 where
  here : Reach pl pl
  next : {q r : Pool} → Reach pl q → Step q r → Reach pl r

idle_tick-IsOpen :
    (env : Env) (s : Clients) (pre : ℕ) → Factories env → IsOpen s → IsOpen (idle_tick env s pre).0
unfolding idle_tick
idle_tick-IsOpen env s pre fs v = either (ltb (env.now - pre) minute)
  where
    started : IsOpen (init_clients env s).0
    started = init_clients-IsOpen env fs s v

    either :
        (b : Bool)
        → IsOpen
            (if◌then◌else◌ {A = Clients × ℕ} b
              ((init_clients env s).0, pre)
              (clear_idle env (init_clients env s).0, env.now)).0
    either true = started
    either false = clear_idle-IsOpen env (init_clients env s).0 started

close_pool-Keeps : (env : Env) (pl : Pool) → Keeps pl → Keeps (close_pool env pl)
unfolding close_pool
close_pool-Keeps env pl v = either pl.closing
  where
    shut : Pool
    shut = record pl { clients = (close_clients env pl.clients).0; closing = true; locked = true }

    either : (b : Bool) → Keeps (if b then pl else shut)
    either true = v
    either false = λ e. cc

wakes-IsOpen :
    (env : Env) (s : Clients) (e : Wake) (r : Recycle) (t : Heap × Recycle)
    → IsRange env.range
    → s.recycle ≡ some r
    → wake s.o env e (s.heap, r) ≡ some t
    → IsOpen s
    → IsOpen (woken s t)
wakes-IsOpen env s e r t range at ran v =
    let (t', ran', w) = wake-IsWoken s.o env e s.heap v.list range v.whole v.bounded in
    let listed : r ≡ v.list = some-injective _ _ (sym at ∙ v.recycling) in
    let same : t' ≡ t =
      some-injective _ _
        (sym ran' ∙ ap (λ (q : Recycle). wake s.o env e (s.heap, q)) (sym listed) ∙ ran) in
    woken-IsOpen s v t (subst (IsWoken s.o s.heap v.list) same w)

Step-Keeps : {pl q : Pool} → Step pl q → Keeps pl → Keeps q
Step-Keeps (gets env pl fs) v = get_client-Keeps env pl fs v
Step-Keeps (puts env pl c good) v = put-Keeps env pl c good v
Step-Keeps (closes env pl) v = close_pool-Keeps env pl v
Step-Keeps (ticks env pl pre fs up) v = λ e. idle_tick-IsOpen env pl.clients pre fs (v up)
Step-Keeps (wakes env pl w r t range up at ran) v =
    λ e. wakes-IsOpen env pl.clients w r t range at ran (v up)

pub Reach-Keeps : {pl q : Pool} → Reach pl q → Keeps pl → Keeps q
Reach-Keeps here v = v
Reach-Keeps (next r st) v = Step-Keeps st (Reach-Keeps r v)

finish-Keeps :
    (env : Env) (r : Outcome) (pl : Pool) → IsOpen r.0 → finish env r ≡ made pl → Keeps pl
unfolding finish
finish-Keeps env (s, some x) pl v e = cc
finish-Keeps env (s, none) pl v e = let same : pool_of s ≡ pl = cc in subst Keeps same (λ u. v)

pub new_pool-Keeps :
    (env : Env) (o : Options) (h : Heap) (tag : ℕ) (pl : Pool)
    → Factories env
    → new_pool env o h tag ≡ made pl
    → Keeps pl
unfolding new_pool
new_pool-Keeps env o h tag pl fs e = elim (Option-cases (validate (repair o))) [
  | inr (x, q) ↦ absurd (refusal (rw (q, new_pool) at e))
  | inl q ↦
      finish-Keeps env (init_clients env (new_clients (repair o) h tag)) pl
        (init_clients-IsOpen env fs _ (new_clients-IsOpen (repair o) h tag)) (rw (q, new_pool) at e)
]
  where
    refusal : {x : Error} → refused x ≡ made pl → ⊥
    refusal q = cc
