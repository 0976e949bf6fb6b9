-- ===== src/Grpc.antt =====
-- GRPCPools of gokit/transport/pool/grpc/pools.go: the pools of several servers, one for each address.
-- mtNew and mtPool make each method one step. Addresses are numbers.
pub mod Pick
pub mod Idle
pub mod Call
pub mod New
pub mod Cut
pub mod Agree
pub mod Removed
pub mod Settings
pub mod Sound
pub mod Trace
pub mod Ready
pub mod Attempts
pub mod Expiry
pub mod Least
mod Tests
use jkfr.Prelude.{
  ℕ, suc, ◌+◌, ◌*◌, Bool, true, false, Option, none, some, List, [], ◌∷◌, ◌++◌, map, ltb, ◌==◌,
  if◌then◌else◌, length, get_elem?, take, drop, ℤ, pos, negsuc, pos_part, wrap_int64, lookup,
  delete,
}
use jkfr.Pool.Options.{Options, second}

-- `net` numbers the GRPCPool, and `addr` is the address that it keeps.
pub record StPool : Type 0 where
  pub net : ℕ
  pub addr : ℕ
  pub last : ℕ
  pub call : ℤ
  pub static : Bool

-- The strategies that have a name, and any other string.
pub data Strategy : Type 0 where
  round random least : Strategy
  other : ℕ → Strategy

-- What get_pool has been set to.
pub data GetPoolFunc : Type 0 where
  random_get roll_get least_get : GetPoolFunc

pub data CallError : Type 0 where
  err_closed pools_closed server_not_found : CallError
  net_error : ℕ → CallError
  joined : CallError → CallError → CallError

-- `store` takes a pointer to an stpool to what it points to, and `made` counts those made. `closed`
-- lists the GRPCPools that have been closed.
pub record GrpcPools : Type 0 where
  pub store : ℕ → StPool
  pub made : ℕ
  pub addr2pool : List (ℕ × ℕ)
  pub pools : List ℕ
  pub opt : Options
  pub get_pool : GetPoolFunc
  pub strategy : Strategy
  pub retry_times : ℕ
  pub retry_interval : ℤ
  pub idle_time_out : ℕ
  pub index : ℕ
  pub is_closed : Bool
  pub closed : List ℕ

-- What NewGRPCPool returns, and what a call of a GRPCPool returns.
pub data Opened : Type 0 where
  opened : ℕ → Opened
  unreachable : CallError → Opened

pub data Reply : Type 0 where
  reply : ℕ → Reply
  failure : CallError → Reply

-- What a method reads of its surroundings: the time, the outcome of opening a pool to an address, the
-- pools that are connected, the reply that a call over a pool gets, and the numbers that `random` draws.
pub record Net : Type 0 where
  pub now : ℕ
  pub dial_pool : Options → ℕ → Opened
  pub is_connected : ℕ → Bool
  pub invoke : ℕ → Reply
  pub draw : ℕ → ℕ

abbrev pub store_at : (ℕ → StPool) → ℕ → StPool → ℕ → StPool
store_at st p e q = if p == q then e else st q

-- get
abbrev pub get_addr : GrpcPools → ℕ → Option ℕ
get_addr s a = lookup a s.addr2pool

-- push, for an address that has a pool: the old GRPCPool is closed, and the new one takes its place.
abbrev pub replaced : Net → GrpcPools → ℕ → StPool → GrpcPools
replaced env s q e = record s {
  store =
      store_at s.store q
        (record (s.store q) { net = e.net; addr = e.addr; static = e.static; last = env.now });
  closed = (s.store q).net ∷ s.closed;
}

-- push, for a new address
abbrev pub entered : GrpcPools → ℕ → StPool → GrpcPools
entered s a e = record s {
  store = store_at s.store (suc s.made) e;
  made = suc s.made;
  addr2pool = (a, suc s.made) ∷ s.addr2pool;
  pools = s.pools ++ suc s.made ∷ [];
}

-- push, with the pointer that it returns
unfoldable pub push_pool : Net → GrpcPools → ℕ → StPool → GrpcPools × ℕ
push_pool env s a e = elim (get_addr s a) [
  | some q ↦ (replaced env s q e, q)
  | none ↦ (entered s a e, suc s.made)
]

pub data Found : Type 0 where
  found : ℕ → Found
  missing : CallError → Found

-- The stpool that new_and_push makes.
abbrev pub new_stpool : Net → ℕ → ℕ → Bool → StPool
new_stpool env n a static = record {
  net = n;
  addr = a;
  last = env.now;
  call = pos 0;
  static = static;
}

unfoldable pub push_opened : Net → GrpcPools → ℕ → Bool → Opened → GrpcPools × Found
push_opened env s a static (unreachable e) = (s, missing e)
push_opened env s a static (opened n) =
    let (s', p) = push_pool env s a (new_stpool env n a static) in (s', found p)

-- new_and_push
unfoldable pub new_and_push : Net → GrpcPools → ℕ → Options → Bool → GrpcPools × Found
new_and_push env s a o static =
    if s.is_closed then (s, missing pools_closed) else elim (get_addr s a) [
      | some p ↦ (s, found p)
      | none ↦ push_opened env s a static (env.dial_pool o a)
    ]

-- get_and_push
unfoldable pub get_and_push : Net → GrpcPools → ℕ → Options → Bool → GrpcPools × Found
get_and_push env s a o static = elim (get_addr s a) [
  | some p ↦ (s, found p)
  | none ↦ new_and_push env s a o static
]

-- getex
abbrev pub getex : Net → GrpcPools → ℕ → GrpcPools × Found
getex env s a = get_and_push env s a s.opt false

-- The pools without the one at an index.
abbrev pub without : List ℕ → ℕ → List ℕ
without ps i = if ltb (i + 1) (length ps) then take i ps ++ drop (i + 1) ps else take i ps

abbrev pub taken_out : GrpcPools → ℕ → ℕ → GrpcPools
taken_out s i p = record s {
  pools = without s.pools i;
  addr2pool = delete (s.store p).addr s.addr2pool;
  closed = (s.store p).net ∷ s.closed;
}

-- remove_index
unfoldable pub remove_index : GrpcPools → ℤ → GrpcPools
remove_index s (negsuc n) = s
remove_index s (pos i) = elim (get_elem? s.pools i) [ none ↦ s | some p ↦ taken_out s i p ]

-- The loop of get_server_index, from the index `i` on.
unfoldable pub find_server : (ℕ → StPool) → ℕ → ℕ → List ℕ → ℤ
find_server st a i [] = negsuc 0
find_server st a i (p ∷ ps) = if a == (st p).addr then pos i else find_server st a (i + 1) ps

-- get_server_index
abbrev pub get_server_index : GrpcPools → ℕ → ℤ
get_server_index s a = find_server s.store a 0 s.pools

-- CloseServer
unfoldable pub close_server : GrpcPools → ℕ → GrpcPools
close_server s a = remove_index s (get_server_index s a)

abbrev pub nets : (ℕ → StPool) → List ℕ → List ℕ
nets st [] = []
nets st (p ∷ ps) = (st p).net ∷ nets st ps

-- Close, after the exit signal has been received
unfoldable pub close_pools : GrpcPools → GrpcPools
close_pools s = if s.is_closed then s else record s {
  is_closed = true;
  closed = nets s.store s.pools ++ s.closed;
  addr2pool = [];
  pools = [];
}

-- SetRetryTimes
unfoldable pub set_retry_times : ℕ → GrpcPools → GrpcPools
set_retry_times times s =
    if ltb 10 times
    then record s { retry_times = 10 }
    else if times == 0
    then record s { retry_times = 1 }
    else record s { retry_times = times }

abbrev pub millisecond : ℕ
millisecond = 1_000_000

-- SetRetryIntervalMS, whose product is an int64 that wraps
unfoldable pub set_retry_interval : ℕ → GrpcPools → GrpcPools
set_retry_interval ms s =
    let ms' = if ltb ms 50 then 50 else ms in
    record s { retry_interval = wrap_int64 (ms' * millisecond) }

abbrev pub at_least_minute : GrpcPools → GrpcPools
at_least_minute s =
    if ltb s.idle_time_out (60 * second) then record s { idle_time_out = 60 * second } else s

-- SetIdleTimeOut, whose product is an int64 that wraps; a negative one is below a minute, as 0 is.
unfoldable pub set_idle_time_out : ℕ → GrpcPools → GrpcPools
set_idle_time_out secs s =
    at_least_minute (record s { idle_time_out = pos_part (wrap_int64 (secs * second)) })

-- SetStrategy
unfoldable pub set_strategy : Strategy → GrpcPools → GrpcPools
set_strategy random s = record s { strategy = random; get_pool = random_get }
set_strategy round s = record s { strategy = round; get_pool = roll_get }
set_strategy least s = record s { strategy = least; get_pool = least_get }
set_strategy (other n) s = record s { strategy = least; get_pool = least_get }
