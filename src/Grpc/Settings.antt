-- ===== src/Grpc/Settings.antt =====
-- Opening, removing and closing pools in gokit/transport/pool/grpc/pools.go leave the settings alone.
use jkfr.Prelude.{
  ℕ, ◌≡◌, refl, inl, inr, Bool, true, false, Option, none, some, arith, if◌then◌else◌, get_elem?,
  Option-cases, ℤ, pos, negsuc,
}
use jkfr.Pool.Options.{Options}
use jkfr.Grpc.{
  GrpcPools, StPool, Net, Found, found, missing, get_and_push, remove_index, close_pools, push_pool,
  push_opened, new_stpool, new_and_push, get_addr, Opened, opened, unreachable, pools_closed,
}

abbrev pub settings : GrpcPools → ℕ × ℤ × ℕ
settings s = (s.retry_times, s.retry_interval, s.idle_time_out)

settings-push_pool :
    (env : Net) (s : GrpcPools) (a : ℕ) (e : StPool) → settings (push_pool env s a e).0 ≡ settings s
unfolding push_pool
settings-push_pool env s a e = elim (Option-cases (get_addr s a)) [
  | inl free ↦ rw (free, push_pool) refl
  | inr (q, at) ↦ rw (at, push_pool) refl
]

settings-push_opened :
    (env : Net) (s : GrpcPools) (a : ℕ) (static : Bool) (o : Opened)
    → settings (push_opened env s a static o).0 ≡ settings s
unfolding push_opened
settings-push_opened env s a static (unreachable e) = refl
settings-push_opened env s a static (opened n) =
    settings-push_pool env s a (new_stpool env n a static)

settings-new_and_push :
    (env : Net) (s : GrpcPools) (a : ℕ) (o : Options) (static : Bool)
    → settings (new_and_push env s a o static).0 ≡ settings s
unfolding new_and_push
settings-new_and_push env s a o static = branch s.is_closed (get_addr s a)
  where
    branch :
        (b : Bool) (r : Option ℕ)
        → settings
            (if◌then◌else◌ {A = GrpcPools × Found} b
              (s, missing pools_closed)
              (elim r as (λ x. GrpcPools × Found) [
                | some p ↦ (s, found p)
                | none ↦ push_opened env s a static (env.dial_pool o a)
              ])).0
          ≡ settings s
    branch true r = refl
    branch false (some p) = refl
    branch false none = settings-push_opened env s a static (env.dial_pool o a)

pub settings-get_and_push :
    (env : Net) (s : GrpcPools) (a : ℕ) (o : Options) (static : Bool)
    → settings (get_and_push env s a o static).0 ≡ settings s
unfolding get_and_push
settings-get_and_push env s a o static = branch (get_addr s a)
  where
    branch :
        (r : Option ℕ)
        → settings
            (elim r as (λ x. GrpcPools × Found) [
              | some p ↦ (s, found p)
              | none ↦ new_and_push env s a o static
            ]).0
          ≡ settings s
    branch (some p) = refl
    branch none = settings-new_and_push env s a o static

pub settings-remove_index : (s : GrpcPools) (i : ℤ) → settings (remove_index s i) ≡ settings s
unfolding remove_index
settings-remove_index s (negsuc n) = refl
settings-remove_index s (pos i) = elim (Option-cases (get_elem? s.pools i)) [
  | inl e ↦ rw (e, remove_index) refl
  | inr (p, e) ↦ rw (e, remove_index) refl
]

pub settings-close_pools : (s : GrpcPools) → settings (close_pools s) ≡ settings s
unfolding close_pools
settings-close_pools s = ground arith
