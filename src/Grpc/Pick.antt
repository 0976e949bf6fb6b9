-- ===== src/Grpc/Pick.antt =====
-- How GRPCPools of gokit/transport/pool/grpc/pools.go picks a pool. Indices are uint32, and wrap.
use jkfr.Prelude.{
  ℕ, zero, suc, ◌+◌, ◌%◌, ◌^◌, Bool, false, Option, none, some, leb, ◌==◌, if◌then◌else◌, length,
  get_elem?, ℤ, pos, ltb_ℤ,
}
use jkfr.Pool.Clients.{max_int64}
use jkfr.Grpc.{GrpcPools, Net, GetPoolFunc, random_get, roll_get, least_get}

abbrev pub wrap32 : ℕ → ℕ
wrap32 n = n % 2 ^ 32

abbrev pub is_up_at : Net → GrpcPools → Option ℕ → Bool
is_up_at env s none = false
is_up_at env s (some p) = env.is_connected (s.store p).net

-- The loop of get_index_ex with `n` rounds to go: the first index with a connected pool.
unfoldable pub scan : Net → GrpcPools → ℕ → ℕ → ℕ → Option ℕ
scan env s index zero i = none
scan env s index (suc n) i =
    let cur = wrap32 (index + i) % length s.pools in
    if is_up_at env s (get_elem? s.pools cur) then some cur else scan env s index n (i + 1)

abbrev pub settle_at : GrpcPools → Option ℕ → Option ℕ → GrpcPools × Option ℕ
settle_at s p none = (s, p)
settle_at s p (some cur) = (record s { index = cur }, get_elem? s.pools cur)

-- get_index_ex; none is nil.
unfoldable pub get_index_ex : Net → GrpcPools → ℕ → GrpcPools × Option ℕ
get_index_ex env s index =
    if length s.pools == 0
    then (s, none)
    else let p = get_elem? s.pools (index % length s.pools) in
      if is_up_at env s p then (s, p) else settle_at s p (scan env s index (length s.pools) 0)

-- The number of calls that run over the pool at an index.
abbrev pub calls_at : GrpcPools → ℕ → ℤ
calls_at s i = elim (get_elem? s.pools i) [ none ↦ pos 0 | some p ↦ (s.store p).call ]

abbrev pub is_zero : ℤ → Bool
is_zero (pos n) = n == 0
is_zero x = false

-- The loops of least_get_when_less and least_get_when_bigger, with `n` rounds to go, where `at` gives
-- the index of a round: it is left as soon as the least count is 0.
unfoldable pub least_of : GrpcPools → (ℕ → ℕ) → ℕ → ℕ → ℤ → ℕ → ℕ
least_of s at zero i min index = index
least_of s at (suc n) i min index =
    let c = calls_at s (at i) in
    let min' = if ltb_ℤ c min then c else min in
    let index' = if ltb_ℤ c min then at i else index in
    let rest = least_of s at n (i + 1) min' index' in if is_zero min' then index' else rest

-- least_get_when_less
unfoldable pub least_get_when_less : Net → GrpcPools → ℕ
least_get_when_less env s =
    let nlen = length s.pools in
    least_of s (λ i. wrap32 (env.draw 0 % nlen + i) % nlen) nlen 0 max_int64 0

-- least_get_when_bigger
unfoldable pub least_get_when_bigger : Net → GrpcPools → ℕ
least_get_when_bigger env s = least_of s (λ i. env.draw i % length s.pools) 10 0 max_int64 0

-- least_get
unfoldable pub get_least : Net → GrpcPools → GrpcPools × Option ℕ
get_least env s =
    let index =
      if leb (length s.pools) 20 then least_get_when_less env s else least_get_when_bigger env s in
    if length s.pools == 0 then (s, none) else get_index_ex env (record s { index = index }) index

-- roll_get
unfoldable pub get_roll : Net → GrpcPools → GrpcPools × Option ℕ
get_roll env s =
    let index = wrap32 (s.index + 1) in get_index_ex env (record s { index = index }) index

-- random_get
unfoldable pub get_random : Net → GrpcPools → GrpcPools × Option ℕ
get_random env s = get_index_ex env (record s { index = env.draw 0 }) (env.draw 0)

-- pls.get_pool()
unfoldable pub pick : Net → GrpcPools → GetPoolFunc → GrpcPools × Option ℕ
pick env s random_get = get_random env s
pick env s roll_get = get_roll env s
pick env s least_get = get_least env s
