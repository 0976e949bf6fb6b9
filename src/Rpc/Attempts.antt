-- ===== src/Rpc/Attempts.antt =====
-- call_with_func of gokit/transport/pool/rpc/pools.go numbers its attempts, and makes at most
-- `retry_times` of them.
use jkfr.Prelude.{
  ℕ, zero, suc, get_elem?, ◌%◌, ◌+◌, ◌≤◌, ◌<◌, ◌≡◌, refl, ◌∙◌, inl, inr, Bool, true, false, Option,
  none, some, List, [], ◌∷◌, ◌++◌, arith, leb, ◌==◌, if◌then◌else◌, length, length-append,
  Bool-cases,
}
use jkfr.Grpc.{GetPoolFunc, random_get, roll_get, least_get, Net, CallError, Reply, reply, failure}
use jkfr.Grpc.Sound.{IsLimited}
use jkfr.Rpc.{
  RpcPools, at_index, rpc_pick, rpc_get_index_ex, rpc_get_random, rpc_get_roll, rpc_get_least,
}
use jkfr.Rpc.Call.{
  RpcAnswer, done, pools_shut, failed_all, rpc_judge, rpc_attempt, rpc_call_with_func, rpc_call,
  rpc_call_with_context,
}
use jkfr.Grpc.Pick.{wrap32, is_up_at, scan, settle_at, least_get_when_less, least_get_when_bigger}
use jkfr.Grpc.Call.{call_over, call_picked}

-- The errors of attempts `retry + 1`, `retry + 2` and so on, with these numbers.
abbrev pub Numbered : ℕ → List (ℕ × CallError) → Type 0
Numbered n [] = Unit {0}
Numbered n ((k, e) ∷ es) = (k ≡ suc n) × Numbered (suc n) es

Numbered-append :
    (n m : ℕ) (es : List (ℕ × CallError)) (e : CallError)
    → Numbered n es
    → m ≡ n + length es + 1
    → Numbered n (es ++ (m, e) ∷ [])
Numbered-append n m [] e h q = (omega (arith, q), tt)
Numbered-append n m ((k, x) ∷ es) e (h, hs) q =
    (h, Numbered-append (suc n) m es e hs (omega (arith, q)))

-- What an answer promises, where at most `times` attempts are made.
abbrev pub IsAnswer : ℕ → RpcAnswer → Type 0
IsAnswer times (done x) = Unit {0}
IsAnswer times pools_shut = Unit {0}
IsAnswer times (failed_all es) = (length es ≡ times) × Numbered 0 es

abbrev Answers : ℕ → Option (RpcPools × RpcAnswer) → Type 0
Answers times o = (t : RpcPools) × (r : RpcAnswer) × (o ≡ some (t, r)) × IsAnswer times r

module _ (envs : ℕ → Net) (f : ℕ → Net → RpcPools → RpcPools × Reply)
    (kept : (retry : ℕ) (env : Net) (s : RpcPools)
      → (f retry env s).0.retry_times ≡ s.retry_times) where
  rpc_judge-Answers :
      (times fuel retry : ℕ) (errs : List (ℕ × CallError)) (x : RpcPools × Reply)
      → Numbered 0 errs
      → length errs ≡ retry
      → retry < times
      → x.0.retry_times ≡ times
      → ((errs' : List (ℕ × CallError)) (t : RpcPools)
          → Numbered 0 errs'
          → length errs' ≡ retry + 1
          → retry + 1 < times
          → t.retry_times ≡ times
          → Answers times (rpc_attempt fuel envs f (retry + 1) errs' t))
      → Answers times (rpc_judge retry errs (rpc_attempt fuel envs f (retry + 1)) x)
  unfolding rpc_judge
  rpc_judge-Answers times fuel retry errs (s, reply y) ns l lt same next = (s, done y, refl, tt)
  rpc_judge-Answers times fuel retry errs (s, failure y) ns l lt same next =
      elim (Bool-cases (leb s.retry_times (retry + 1))) [
        | inl e ↦
            simp (e, rpc_judge)
              (
                s,
                failed_all (errs ++ (retry + 1, y) ∷ []),
                refl,
                (ground (arith, lt, same, longer), numbered),
              )
        | inr e ↦ simp (e, rpc_judge) (next _ s numbered longer (ground (arith, same)) same)
      ]
    where
      numbered : Numbered 0 (errs ++ (retry + 1, y) ∷ [])
      numbered = Numbered-append 0 (retry + 1) errs y ns (omega (arith, l))

      longer : length (errs ++ (retry + 1, y) ∷ []) ≡ retry + 1
      longer = length-append errs ((retry + 1, y) ∷ []) ∙ omega (arith, l)

  rpc_attempt-Answers :
      (times fuel retry : ℕ) (errs : List (ℕ × CallError)) (s : RpcPools)
      → Numbered 0 errs
      → length errs ≡ retry
      → retry < times
      → s.retry_times ≡ times
      → times ≤ retry + fuel
      → Answers times (rpc_attempt fuel envs f retry errs s)
  unfolding rpc_attempt
  rpc_attempt-Answers times zero retry errs s ns l lt same hi = absurd (omega (arith, lt, hi))
  rpc_attempt-Answers times (suc fuel) retry errs s ns l lt same hi =
      elim (Bool-cases s.is_closed) [
        | inl shut ↦ simp (shut, rpc_attempt) (s, pools_shut, refl, tt)
        | inr up ↦
            simp (up, rpc_attempt)
              (rpc_judge-Answers times fuel retry errs (f retry (envs retry) s) ns l lt
                (kept retry (envs retry) s ∙ same)
                (λ es t n' l' lt' same'.
                  rpc_attempt-Answers times fuel (retry + 1) es t n' l' lt' same'
                    (omega (arith, hi))))
      ]

  rpc_call_with_func-IsAnswer :
      (s : RpcPools)
      → 1 ≤ s.retry_times
      → s.retry_times ≤ 10
      → (t : RpcPools) × (r : RpcAnswer) × (rpc_call_with_func envs f s ≡ some (t, r))
        × IsAnswer s.retry_times r
  unfolding rpc_call_with_func
  rpc_call_with_func-IsAnswer s lo hi =
      rpc_attempt-Answers s.retry_times 10 0 [] s tt refl (omega (arith, lo)) refl
        (omega (arith, hi))

rpc_get_index_ex-times :
    (env : Net) (s : RpcPools) (i : ℕ) → (rpc_get_index_ex env s i).0.retry_times ≡ s.retry_times
unfolding rpc_get_index_ex
rpc_get_index_ex-times env s i = branch (length s.pools == 0) (is_up_at env s p)
  where
    p : Option ℕ
    p = get_elem? s.pools (i % length s.pools)

    s' : RpcPools
    s' = at_index s (i % length s.pools)

    settled : (r : Option ℕ) → (settle_at s' p r).0.retry_times ≡ s.retry_times
    settled none = refl
    settled (some cur) = refl

    branch :
        (b c : Bool)
        → (if◌then◌else◌ {A = RpcPools × Option ℕ} b
            (s, none)
            (if◌then◌else◌ {A = RpcPools × Option ℕ} c
              (s', p)
              (settle_at s' p (scan env s' i (length s.pools) 0)))).0.retry_times
          ≡ s.retry_times
    branch true c = refl
    branch false true = refl
    branch false false = settled (scan env s' i (length s.pools) 0)

rpc_get_roll-times : (env : Net) (s : RpcPools) → (rpc_get_roll env s).0.retry_times ≡ s.retry_times
unfolding rpc_get_roll
rpc_get_roll-times env s =
    let i = wrap32 (s.index + 1) in rpc_get_index_ex-times env (at_index s i) i

rpc_get_least-times :
    (env : Net) (s : RpcPools) → (rpc_get_least env s).0.retry_times ≡ s.retry_times
unfolding rpc_get_least
rpc_get_least-times env s = branch (length s.pools == 0)
  where
    i : ℕ
    i = if leb (length s.pools) 20 then least_get_when_less env s else least_get_when_bigger env s

    branch :
        (b : Bool)
        → (if◌then◌else◌ {A = RpcPools × Option ℕ} b
            (s, none)
            (rpc_get_index_ex env (at_index s i) i)).0.retry_times
          ≡ s.retry_times
    branch true = refl
    branch false = rpc_get_index_ex-times env (at_index s i) i

rpc_pick-times :
    (env : Net) (s : RpcPools) (g : GetPoolFunc) → (rpc_pick env s g).0.retry_times ≡ s.retry_times
unfolding rpc_pick rpc_get_random
rpc_pick-times env s random_get = rpc_get_index_ex-times env (at_index s (env.draw 0)) (env.draw 0)
rpc_pick-times env s roll_get = rpc_get_roll-times env s
rpc_pick-times env s least_get = rpc_get_least-times env s

call_picked-times :
    (env : Net) (n : ℕ) (r : RpcPools × Option ℕ)
    → r.0.retry_times ≡ n
    → (call_picked env r).0.retry_times ≡ n
unfolding call_over
call_picked-times env n (s, none) e = e
call_picked-times env n (s, some p) e = e

rpc_call-times :
    (retry : ℕ) (env : Net) (s : RpcPools) → (rpc_call retry env s).0.retry_times ≡ s.retry_times
unfolding rpc_call
rpc_call-times retry env s = branch (retry == 0)
  where
    branch :
        (b : Bool)
        → (if◌then◌else◌ {A = RpcPools × Reply} b
            (call_picked env (rpc_pick env s s.get_pool))
            (call_picked env (rpc_get_roll env s))).0.retry_times
          ≡ s.retry_times
    branch true = call_picked-times env s.retry_times _ (rpc_pick-times env s s.get_pool)
    branch false = call_picked-times env s.retry_times _ (rpc_get_roll-times env s)

-- On pools whose settings are within their limits, CallWithContext ends. If it returns errors of its
-- attempts, it has made as many attempts as there are retries, and the errors are numbered from 1 on.
pub rpc_call_with_context-IsAnswer :
    (envs : ℕ → Net) (s : RpcPools)
    → IsLimited s
    → (t : RpcPools) × (r : RpcAnswer) × (rpc_call_with_context envs s ≡ some (t, r))
      × IsAnswer s.retry_times r
rpc_call_with_context-IsAnswer envs s v =
    rpc_call_with_func-IsAnswer envs rpc_call rpc_call-times s v.tried v.bounded
