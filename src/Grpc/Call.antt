-- ===== src/Grpc/Call.antt =====
-- The calls of GRPCPools in gokit/transport/pool/grpc/pools.go. What a call reads of its surroundings
-- differs from one attempt to the next, so that is a sequence, one for each attempt.
use jkfr.Prelude.{ℕ, zero, suc, ◌+◌, Option, none, some, leb, if◌then◌else◌, ℤ, pos, negsuc, ◌+ℤ◌}
use jkfr.Grpc.{
  GrpcPools, Net, CallError, err_closed, server_not_found, joined, Reply, reply, failure, store_at,
  Found, found, missing, getex,
}
use jkfr.Grpc.Pick.{pick}

abbrev pub counted : ℤ → GrpcPools → ℕ → GrpcPools
counted d s p = record s {
  store = store_at s.store p (record (s.store p) { call = (s.store p).call +ℤ d });
}

abbrev pub stamped : ℕ → GrpcPools → ℕ → GrpcPools
stamped now s p = record s { store = store_at s.store p (record (s.store p) { last = now }) }

-- A call over the pool `p`, counted while it runs.
unfoldable pub call_over : Net → GrpcPools → ℕ → GrpcPools × Reply
call_over env s p =
    let s' = counted (pos 1) s p in
    (stamped env.now (counted (negsuc 0) s' p) p, env.invoke (s'.store p).net)

abbrev pub call_picked : Net → GrpcPools × Option ℕ → GrpcPools × Reply
call_picked env (s, none) = (s, failure server_not_found)
call_picked env (s, some p) = call_over env s p

-- call
unfoldable pub call : Net → GrpcPools → GrpcPools × Reply
call env s = call_picked env (pick env s s.get_pool)

abbrev pub call_found : Net → GrpcPools × Found → GrpcPools × Reply
call_found env (s, missing e) = (s, failure e)
call_found env (s, found p) = call_over env s p

-- What CallWithAddrEx attempts.
unfoldable pub call_addr : ℕ → Net → GrpcPools → GrpcPools × Reply
call_addr a env s = call_found env (getex env s a)

abbrev pub join_error : Option CallError → CallError → CallError
join_error none e = e
join_error (some l) e = joined l e

-- What follows an attempt, with `retry` failed ones behind it, whose errors are joined in `last_err`.
unfoldable pub judge :
    ℕ
    → Option CallError
    → (Option CallError → GrpcPools → Option (GrpcPools × Reply))
    → GrpcPools × Reply
    → Option (GrpcPools × Reply)
judge retry last_err again (s, reply r) = some (s, reply r)
judge retry last_err again (s, failure e) =
    if leb s.retry_times (retry + 1)
    then some (s, failure (join_error last_err e))
    else again (some (join_error last_err e)) s

-- The loop of call_with_func; none means that the fuel ran out.
unfoldable pub attempt :
    ℕ
    → (ℕ → Net)
    → (Net → GrpcPools → GrpcPools × Reply)
    → ℕ
    → Option CallError
    → GrpcPools
    → Option (GrpcPools × Reply)
attempt zero envs f retry last_err s = none
attempt (suc fuel) envs f retry last_err s =
    if s.is_closed
    then some (s, failure err_closed)
    else judge retry last_err (attempt fuel envs f (retry + 1)) (f (envs retry) s)

-- call_with_func: SetRetryTimes keeps the number of attempts at 10 or below.
unfoldable pub call_with_func :
    (ℕ → Net) → (Net → GrpcPools → GrpcPools × Reply) → GrpcPools → Option (GrpcPools × Reply)
call_with_func envs f s = attempt 10 envs f 0 none s

-- CallWithTimeOut and CallWithContext
abbrev pub call_with_context : (ℕ → Net) → GrpcPools → Option (GrpcPools × Reply)
call_with_context envs s = call_with_func envs call s

-- CallWithAddrEx
abbrev pub call_with_addr : (ℕ → Net) → ℕ → GrpcPools → Option (GrpcPools × Reply)
call_with_addr envs a s = call_with_func envs (call_addr a) s
