-- ===== src/Grpc/Attempts.antt =====
-- call_with_func of gokit/transport/pool/grpc/pools.go makes at most `retry_times` attempts.
use jkfr.Prelude.{
  ℕ, zero, suc, ◌+◌, ◌≤◌, ◌<◌, ◌≡◌, refl, ap, inl, inr, true, false, Option, none, some, arith, leb,
  Bool-cases, ℤ,
}
use jkfr.Grpc.{
  GrpcPools, Net, CallError, err_closed, Reply, reply, failure, Found, found, missing, getex,
}
use jkfr.Grpc.Pick.{pick}
use jkfr.Grpc.Settings.{settings-get_and_push}
use jkfr.Grpc.Sound.{IsLimited, IsIndexed, pick-IsIndexed}
use jkfr.Grpc.Call.{
  join_error, judge, attempt, call_with_func, call, call_over, call_picked, call_found, call_addr,
  call_with_context, call_with_addr,
}

-- A run of attempts: `Tries envs f times retry last s s' r` says that the attempts from number `retry`
-- on, at pools `s`, end at `s'` with the answer `r`.
pub data Tries (envs : ℕ → Net) (f : Net → GrpcPools → GrpcPools × Reply)
    : ℕ → Option CallError → GrpcPools → GrpcPools → Reply → Type 0 where
  -- the pools have been closed
  refused :
      (retry : ℕ) (last : Option CallError) (s : GrpcPools)
      → s.is_closed ≡ true
      → Tries envs f retry last s s (failure err_closed)
  -- an attempt succeeds
  answered :
      (retry : ℕ) (last : Option CallError) (s s' : GrpcPools) (x : ℕ)
      → s.is_closed ≡ false
      → f (envs retry) s ≡ (s', reply x)
      → Tries envs f retry last s s' (reply x)
  -- an attempt fails, and it was the last
  exhausted :
      (retry : ℕ) (last : Option CallError) (s s' : GrpcPools) (e : CallError)
      → s.is_closed ≡ false
      → f (envs retry) s ≡ (s', failure e)
      → s'.retry_times ≤ retry + 1
      → Tries envs f retry last s s' (failure (join_error last e))
  -- an attempt fails, and another follows
  again :
      (retry : ℕ) (last : Option CallError) (s s' t : GrpcPools) (e : CallError) (r : Reply)
      → s.is_closed ≡ false
      → f (envs retry) s ≡ (s', failure e)
      → retry + 1 < s'.retry_times
      → Tries envs f (retry + 1) (some (join_error last e)) s' t r
      → Tries envs f retry last s t r

abbrev Ends :
    (ℕ → Net)
    → (Net → GrpcPools → GrpcPools × Reply)
    → ℕ
    → Option CallError
    → GrpcPools
    → Option (GrpcPools × Reply)
    → Type 0
Ends envs f retry last s o =
    (t : GrpcPools) × (r : Reply) × (o ≡ some (t, r)) × Tries envs f retry last s t r

module _ (envs : ℕ → Net) (f : Net → GrpcPools → GrpcPools × Reply)
    (kept : (env : Net) (s : GrpcPools) → (f env s).0.retry_times ≡ s.retry_times) where
  judge-Ends :
      (fuel retry : ℕ) (last : Option CallError) (s : GrpcPools) (x : GrpcPools × Reply)
      → s.is_closed ≡ false
      → f (envs retry) s ≡ x
      → ((s' : GrpcPools) (e : CallError)
          → x ≡ (s', failure e)
          → retry + 1 < s'.retry_times
          → Ends envs f
              (retry + 1)
              (some (join_error last e))
              s'
              (attempt fuel envs f (retry + 1) (some (join_error last e)) s'))
      → Ends envs f retry last s (judge retry last (attempt fuel envs f (retry + 1)) x)
  unfolding judge
  judge-Ends fuel retry last s (s', reply y) up e next =
      (s', reply y, refl, answered retry last s s' y up e)
  judge-Ends fuel retry last s (s', failure y) up e next =
      elim (Bool-cases (leb s'.retry_times (retry + 1))) [
        | inl l ↦
            simp (l, judge)
              (
                s',
                failure (join_error last y),
                refl,
                exhausted retry last s s' y up e (ground arith),
              )
        | inr l ↦
            let more : retry + 1 < s'.retry_times = ground arith in
            let (t, r, ran, tries) = next s' y refl more in
            simp (l, judge) (t, r, ran, again retry last s s' t y r up e more tries)
      ]

  attempt-Ends :
      (fuel retry : ℕ) (last : Option CallError) (s : GrpcPools)
      → retry < s.retry_times
      → s.retry_times ≤ retry + fuel
      → Ends envs f retry last s (attempt fuel envs f retry last s)
  unfolding attempt
  attempt-Ends zero retry last s lo hi = absurd (omega arith)
  attempt-Ends (suc fuel) retry last s lo hi = elim (Bool-cases s.is_closed) [
    | inl shut ↦ simp (shut, attempt) (s, failure err_closed, refl, refused retry last s shut)
    | inr up ↦
        simp (up, attempt)
          (judge-Ends fuel retry last s (f (envs retry) s) up refl (λ s' e q more.
            attempt-Ends fuel (retry + 1) (some (join_error last e)) s' more (
              omega (
                arith,
                hi,
                kept (envs retry) s,
                ap (λ (x : GrpcPools × Reply). x.0.retry_times) q,
              ))))
  ]

  -- If an attempt leaves the number of retries as it is, and that is between 1 and 10, the loop ends.
  call_with_func-Tries :
      (s : GrpcPools)
      → 1 ≤ s.retry_times
      → s.retry_times ≤ 10
      → (t : GrpcPools) × (r : Reply) × (call_with_func envs f s ≡ some (t, r))
        × Tries envs f 0 none s t r
  unfolding call_with_func
  call_with_func-Tries s lo hi = attempt-Ends 10 0 none s (omega arith) (omega arith)

call-retry_times : (env : Net) (s : GrpcPools) → (call env s).0.retry_times ≡ s.retry_times
unfolding call call_over
call-retry_times env s = by (pick env s s.get_pool) (pick-IsIndexed env s s.get_pool)
  where
    by :
        (r : GrpcPools × Option ℕ)
        → IsIndexed s r.0
        → (call_picked env r).0.retry_times ≡ s.retry_times
    by (t, none) (j, e) = ap (λ (u : GrpcPools). u.retry_times) e
    by (t, some p) (j, e) = ap (λ (u : GrpcPools). u.retry_times) e

call_addr-retry_times :
    (a : ℕ) (env : Net) (s : GrpcPools) → (call_addr a env s).0.retry_times ≡ s.retry_times
unfolding call_addr call_over
call_addr-retry_times a env s =
    by (getex env s a) (ap (λ (n : ℕ × ℤ × ℕ). n.0) (settings-get_and_push env s a s.opt false))
  where
    by :
        (r : GrpcPools × Found)
        → r.0.retry_times ≡ s.retry_times
        → (call_found env r).0.retry_times ≡ s.retry_times
    by (t, missing x) e = e
    by (t, found p) e = e

-- On pools whose settings are within their limits, CallWithContext ends after at most as many attempts
-- as there are retries, and answers with the reply of the first that succeeds, or the joined errors
-- of all of them, or that the pools have been closed.
pub call_with_context-Tries :
    (envs : ℕ → Net) (s : GrpcPools)
    → IsLimited s
    → (t : GrpcPools) × (r : Reply) × (call_with_context envs s ≡ some (t, r))
      × Tries envs call 0 none s t r
call_with_context-Tries envs s v =
    call_with_func-Tries envs call call-retry_times s v.tried v.bounded

-- On pools whose settings are within their limits, CallWithAddrEx ends after at most as many attempts as
-- there are retries, and answers with the reply of the first that succeeds, or the joined errors of
-- all of them, or that the pools have been closed.
pub call_with_addr-Tries :
    (envs : ℕ → Net) (a : ℕ) (s : GrpcPools)
    → IsLimited s
    → (t : GrpcPools) × (r : Reply) × (call_with_addr envs a s ≡ some (t, r))
      × Tries envs (call_addr a) 0 none s t r
call_with_addr-Tries envs a s v =
    call_with_func-Tries envs (call_addr a) (call_addr-retry_times a) s v.tried v.bounded
