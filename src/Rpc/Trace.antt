-- ===== src/Rpc/Trace.antt =====
-- Histories of the RpcPools of gokit/transport/pool/rpc/pools.go.
use jkfr.Prelude.{
  ℕ, arith, ◌*◌, ◌+◌, ◌%◌, ◌^◌, ◌≡◌, refl, Bool, true, false, Option, none, some, List, leb, ◌==◌,
  if◌then◌else◌, length, get_elem?, ℤ, pos, ◌<◌, wrap_int64,
}
use jkfr.Pool.Options.{Options, second}
use jkfr.Grpc.{
  Net, GetPoolFunc, random_get, roll_get, least_get, Strategy, least, get_server_index, millisecond,
  set_retry_times, set_idle_time_out, set_strategy, set_retry_interval,
}
use jkfr.Grpc.Pick.{is_up_at, scan, settle_at, least_get_when_less, least_get_when_bigger}
use jkfr.Grpc.Call.{counted, stamped}
use jkfr.Grpc.New.{blank, ready}
use jkfr.Grpc.Sound.{
  IsSound, IsIndexed, IsIndexed-IsSound, get_and_push-IsSound, remove_index-IsSound,
  close_pools-IsSound, tuned-IsSound,
}
use jkfr.Grpc.Trace.{
  counted-IsSound, stamped-IsSound, idle_check-IsSound, set_strategy-IsSound,
  set_retry_times-IsSound, set_retry_interval-IsSound, set_idle_time_out-IsSound, push_all-IsSound,
  blank-Agree,
}
use jkfr.Rpc.{
  RpcPools, at_index, rpc_get_index_ex, rpc_get_random, rpc_get_roll, rpc_get_least, rpc_pick,
  rpc_configured, new_rpc_pools, rpc_get_and_push, rpc_close, rpc_close_server, rpc_idle_check,
  rpc_set_retry_times, rpc_set_retry_interval, rpc_set_idle_time_out, rpc_set_strategy,
}

-- One step of a history. A call is a choice, which for a retry is roll_get, and two steps that count it.
pub data RpcStep : RpcPools → RpcPools → Type 0 where
  opens :
      (env : Net) (s : RpcPools) (a : ℕ) (o : Options) (static : Bool)
      → RpcStep s (rpc_get_and_push env s a o static).0
  picks : (env : Net) (s : RpcPools) (g : GetPoolFunc) → RpcStep s (rpc_pick env s g).0
  rolls : (env : Net) (s : RpcPools) → RpcStep s (rpc_get_roll env s).0
  counts : (d : ℤ) (s : RpcPools) (p : ℕ) → RpcStep s (counted d s p)
  stamps : (now : ℕ) (s : RpcPools) (p : ℕ) → RpcStep s (stamped now s p)
  closes_server : (s : RpcPools) (a : ℕ) → RpcStep s (rpc_close_server s a)
  closes : (s : RpcPools) → RpcStep s (rpc_close s)
  checks : (env : Net) (s t : RpcPools) → rpc_idle_check env s ≡ some t → RpcStep s t
  sets_times : (n : ℕ) (s : RpcPools) → RpcStep s (rpc_set_retry_times n s)
  sets_interval :
      (n : ℕ) (s : RpcPools) → n * millisecond < 2 ^ 63 → RpcStep s (rpc_set_retry_interval n s)
  sets_idle : (n : ℕ) (s : RpcPools) → RpcStep s (rpc_set_idle_time_out n s)
  sets_strategy : (n : Strategy) (s : RpcPools) → RpcStep s (rpc_set_strategy n s)

pub data RpcReach (s : RpcPools) : RpcPools → Type 0 where
  here : RpcReach s s
  next : {t u : RpcPools} → RpcReach s t → RpcStep t u → RpcReach s u

rpc_get_index_ex-IsIndexed :
    (env : Net) (s : RpcPools) (i : ℕ) → IsIndexed s (rpc_get_index_ex env s i).0
unfolding rpc_get_index_ex
rpc_get_index_ex-IsIndexed env s i = branch (length s.pools == 0) (is_up_at env s p)
  where
    p : Option ℕ
    p = get_elem? s.pools (i % length s.pools)

    s' : RpcPools
    s' = at_index s (i % length s.pools)

    settled : (r : Option ℕ) → IsIndexed s (settle_at s' p r).0
    settled none = (i % length s.pools, refl)
    settled (some j) = (j, refl)

    branch :
        (b c : Bool)
        → IsIndexed s
            (if◌then◌else◌ {A = RpcPools × Option ℕ} b
              (s, none)
              (if◌then◌else◌ {A = RpcPools × Option ℕ} c
                (s', p)
                (settle_at s' p (scan env s' i (length s.pools) 0)))).0
    branch true c = (s.index, refl)
    branch false true = (i % length s.pools, refl)
    branch false false = settled (scan env s' i (length s.pools) 0)

rpc_get_roll-IsIndexed : (env : Net) (s : RpcPools) → IsIndexed s (rpc_get_roll env s).0
unfolding rpc_get_roll
rpc_get_roll-IsIndexed env s =
    let i = (s.index + 1) % 2 ^ 32 in rpc_get_index_ex-IsIndexed env (at_index s i) i

rpc_pick-IsIndexed : (env : Net) (s : RpcPools) (g : GetPoolFunc) → IsIndexed s (rpc_pick env s g).0
unfolding rpc_pick rpc_get_random rpc_get_least
rpc_pick-IsIndexed env s random_get =
    rpc_get_index_ex-IsIndexed env (at_index s (env.draw 0)) (env.draw 0)
rpc_pick-IsIndexed env s roll_get = rpc_get_roll-IsIndexed env s
rpc_pick-IsIndexed env s least_get = branch (length s.pools == 0)
  where
    i : ℕ
    i = if leb (length s.pools) 20 then least_get_when_less env s else least_get_when_bigger env s

    branch :
        (b : Bool)
        → IsIndexed s
            (if◌then◌else◌ {A = RpcPools × Option ℕ} b
              (s, none)
              (rpc_get_index_ex env (at_index s i) i)).0
    branch true = (s.index, refl)
    branch false = rpc_get_index_ex-IsIndexed env (at_index s i) i

RpcStep-IsSound : {s t : RpcPools} → RpcStep s t → IsSound s → IsSound t
RpcStep-IsSound (opens env s a o static) v = get_and_push-IsSound env s a o static v
RpcStep-IsSound (picks env s g) v = IsIndexed-IsSound s _ (rpc_pick-IsIndexed env s g) v
RpcStep-IsSound (rolls env s) v = IsIndexed-IsSound s _ (rpc_get_roll-IsIndexed env s) v
RpcStep-IsSound (counts d s p) v = counted-IsSound d s p v
RpcStep-IsSound (stamps now s p) v = stamped-IsSound now s p v
RpcStep-IsSound (closes_server s a) v = remove_index-IsSound s (get_server_index s a) v
RpcStep-IsSound (closes s) v = close_pools-IsSound s v
RpcStep-IsSound (checks env s t e) v = idle_check-IsSound env s t v e
RpcStep-IsSound (sets_times n s) v = set_retry_times-IsSound n s v
RpcStep-IsSound (sets_interval n s small) v = set_retry_interval-IsSound n s small v
RpcStep-IsSound (sets_idle n s) v = set_idle_time_out-IsSound n s v
RpcStep-IsSound (sets_strategy n s) v = set_strategy-IsSound n s v

RpcReach-IsSound : {s t : RpcPools} → RpcReach s t → IsSound s → IsSound t
RpcReach-IsSound here v = v
RpcReach-IsSound (next r st) v = RpcStep-IsSound st (RpcReach-IsSound r v)

rpc_configured-IsSound : (o : Options) → IsSound (rpc_configured o)
unfolding set_retry_times set_idle_time_out set_strategy set_retry_interval wrap_int64
rpc_configured-IsSound o =
    tuned-IsSound (blank o) 3 (pos (1000 * millisecond)) (24 * 60 * 60 * second) least_get least
      (blank-Agree o) (omega arith) (omega arith) (omega arith) (omega arith)

-- After any steps of the pools that NewRpcPools has returned, with retry intervals set to less than 2^63
-- nanoseconds, beyond which the product wraps, the list of pools and the map of addresses
-- agree, every pool that is not listed any more has been closed, no pool is listed after a Close, and
-- the settings are within their limits.
pub rpc_reached-IsSound :
    (envs : ℕ → Net) (addrs : List ℕ) (o : Options) (s t : RpcPools)
    → new_rpc_pools envs addrs o ≡ ready s
    → RpcReach s t
    → IsSound t
unfolding new_rpc_pools
rpc_reached-IsSound envs addrs o s t e r =
    RpcReach-IsSound r
      (push_all-IsSound envs o addrs (rpc_configured o) s (rpc_configured-IsSound o) e)
