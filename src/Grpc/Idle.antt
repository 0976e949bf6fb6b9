-- ===== src/Grpc/Idle.antt =====
-- The goroutine of gokit/transport/pool/grpc/pools.go that closes idle pools.
use jkfr.Prelude.{
  ℕ, zero, suc, ◌+◌, ◌-◌, Bool, not, ◌&&◌, Option, none, some, ltb, if◌then◌else◌, length,
  get_elem?, pos,
}
use jkfr.Grpc.{GrpcPools, Net, at_least_minute, remove_index}
use jkfr.Grpc.Pick.{is_zero}

-- A pool that was made for a call, has not been used for too long, and has no call running.
abbrev pub is_expired : Net → GrpcPools → ℕ → Bool
is_expired env s p =
    not (s.store p).static
    && ltb s.idle_time_out (env.now - (s.store p).last)
    && is_zero (s.store p).call

-- The loop of remove_idle_time_out at the index `i`; none means that the fuel ran out.
unfoldable pub expire : ℕ → Net → GrpcPools → ℕ → Option GrpcPools
expire zero env s i = none
expire (suc fuel) env s i = elim (get_elem? s.pools i) [
  | none ↦ some s
  | some p ↦
      let gone = expire fuel env (remove_index s (pos i)) i in
      let kept = expire fuel env s (i + 1) in if is_expired env s p then gone else kept
]

-- remove_idle_time_out
unfoldable pub remove_idle_time_out : Net → GrpcPools → Option GrpcPools
remove_idle_time_out env s = expire (suc (length s.pools)) env s 0

-- One tick of loop_check_idle_time_out_pool
unfoldable pub idle_check : Net → GrpcPools → Option GrpcPools
idle_check env s = remove_idle_time_out env (at_least_minute s)
