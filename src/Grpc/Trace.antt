-- ===== src/Grpc/Trace.antt =====
-- Histories of the GRPCPools of gokit/transport/pool/grpc/pools.go: sequences of the exported methods'
-- steps, of the steps of calls that run at the same time, and of the ticks of the goroutine.
use jkfr.Prelude.{
  ℕ, zero, suc, ◌+◌, ◌*◌, ◌≡◌, refl, sym, ap, subst, ◌⊎◌, inl, inr, Bool, true, false, Option, none,
  some, List, [], ◌∷◌, arith, ◌==◌, if◌then◌else◌, length, get_elem?, elem, ℤ, pos, ◌+ℤ◌, ◌<◌, ◌^◌,
  pos_part, wrap_int64,
}
use jkfr.Pool.Options.{Options, second}
use jkfr.Grpc.{
  GrpcPools, Net, GetPoolFunc, random_get, roll_get, least_get, Strategy, round, random, least,
  other, Found, found, missing, get_and_push, remove_index, close_server, get_server_index,
  close_pools, at_least_minute, set_retry_times, set_retry_interval, set_idle_time_out,
  set_strategy,
}
use jkfr.Grpc.Pick.{pick}
use jkfr.Grpc.Idle.{is_expired, expire, remove_idle_time_out, idle_check}
use jkfr.Grpc.Call.{counted, stamped}
use jkfr.Grpc.Agree.{Agree}
use jkfr.Grpc.{millisecond}
use jkfr.Grpc.New.{NewPools, ready, blank, configured, push_rest, push_all, new_grpc_pools}
use jkfr.Grpc.Sound.{
  IsSound, IsIndexed-IsSound, pick-IsIndexed, same-Agree, same-IsLimited, get_and_push-IsSound,
  remove_index-IsSound, close_pools-IsSound, tuned-IsSound, times, interval, idle_time,
  set_retry_times-times, at_least_minute-idle_time, times-range, interval-least, idle_time-least,
}

-- One step of a history. A call is two steps, between which others may come.
pub data Step : GrpcPools → GrpcPools → Type 0 where
  opens :
      (env : Net) (s : GrpcPools) (a : ℕ) (o : Options) (static : Bool)
      → Step s (get_and_push env s a o static).0
  picks : (env : Net) (s : GrpcPools) (g : GetPoolFunc) → Step s (pick env s g).0
  counts : (d : ℤ) (s : GrpcPools) (p : ℕ) → Step s (counted d s p)
  stamps : (now : ℕ) (s : GrpcPools) (p : ℕ) → Step s (stamped now s p)
  closes_server : (s : GrpcPools) (a : ℕ) → Step s (close_server s a)
  closes : (s : GrpcPools) → Step s (close_pools s)
  checks : (env : Net) (s t : GrpcPools) → idle_check env s ≡ some t → Step s t
  sets_times : (n : ℕ) (s : GrpcPools) → Step s (set_retry_times n s)
  sets_interval :
      (n : ℕ) (s : GrpcPools) → n * millisecond < 2 ^ 63 → Step s (set_retry_interval n s)
  sets_idle : (n : ℕ) (s : GrpcPools) → Step s (set_idle_time_out n s)
  sets_strategy : (n : Strategy) (s : GrpcPools) → Step s (set_strategy n s)

pub data Reach (s : GrpcPools) : GrpcPools → Type 0 where
  here : Reach s s
  next : {t u : GrpcPools} → Reach s t → Step t u → Reach s u

expire-cases :
    (fuel : ℕ) (env : Net) (s : GrpcPools) (i : ℕ) (t : GrpcPools)
    → expire (suc fuel) env s i ≡ some t
    → (s ≡ t)
      ⊎ ((expire fuel env (remove_index s (pos i)) i ≡ some t)
          ⊎ (expire fuel env s (i + 1) ≡ some t))
unfolding expire
expire-cases fuel env s i t = by (get_elem? s.pools i)
  where
    chosen :
        (b : Bool)
        → (if b then expire fuel env (remove_index s (pos i)) i else expire fuel env s (i + 1))
          ≡ some t
        → (s ≡ t)
          ⊎ ((expire fuel env (remove_index s (pos i)) i ≡ some t)
              ⊎ (expire fuel env s (i + 1) ≡ some t))
    chosen true e = inr (inl e)
    chosen false e = inr (inr e)

    by :
        (r : Option ℕ)
        → (elim r as (λ x. Option GrpcPools) [
          | none ↦ some s
          | some p ↦
              let gone = expire fuel env (remove_index s (pos i)) i in
              let kept = expire fuel env s (i + 1) in if is_expired env s p then gone else kept
        ])
          ≡ some t
        → (s ≡ t)
          ⊎ ((expire fuel env (remove_index s (pos i)) i ≡ some t)
              ⊎ (expire fuel env s (i + 1) ≡ some t))
    by none e = inl cc
    by (some p) e = chosen (is_expired env s p) e

pub expire-IsSound :
    (fuel : ℕ) (env : Net) (s : GrpcPools) (i : ℕ) (t : GrpcPools)
    → IsSound s
    → expire fuel env s i ≡ some t
    → IsSound t
unfolding expire
expire-IsSound zero env s i t v e = cc
expire-IsSound (suc fuel) env s i t v e = elim (expire-cases fuel env s i t e) [
  | inl same ↦ subst IsSound same v
  | inr (inl gone) ↦
      expire-IsSound fuel env (remove_index s (pos i)) i t (remove_index-IsSound s (pos i) v) gone
  | inr (inr kept) ↦ expire-IsSound fuel env s (i + 1) t v kept
]

pub idle_check-IsSound :
    (env : Net) (s t : GrpcPools) → IsSound s → idle_check env s ≡ some t → IsSound t
unfolding idle_check remove_idle_time_out
idle_check-IsSound env s t v e =
    expire-IsSound (suc (length (at_least_minute s).pools)) env (at_least_minute s) 0 t
      (subst IsSound (sym (at_least_minute-idle_time s)) (
        tuned-IsSound s s.retry_times s.retry_interval (idle_time s.idle_time_out) s.get_pool
          s.strategy v.agree v.limited.tried v.limited.bounded v.limited.spaced
          (idle_time-least s.idle_time_out)))
      e

pub counted-IsSound : (d : ℤ) (s : GrpcPools) (p : ℕ) → IsSound s → IsSound (counted d s p)
counted-IsSound d s p v = record {
  agree = same-Agree s _ (λ q. by q (p == q) refl) v.agree;
  limited = same-IsLimited s (counted d s p) refl v.limited;
}
  where
    by :
        (q : ℕ) (b : Bool)
        → (p == q) ≡ b
        → ((if b then record (s.store p) { call = (s.store p).call +ℤ d } else s.store q).addr
            ≡ (s.store q).addr)
          × ((if b then record (s.store p) { call = (s.store p).call +ℤ d } else s.store q).net
              ≡ (s.store q).net)
    by q true t =
        let p≡q : p ≡ q = ground arith in
        (ap (λ (u : ℕ). (s.store u).addr) p≡q, ap (λ (u : ℕ). (s.store u).net) p≡q)
    by q false t = (refl, refl)

pub stamped-IsSound : (now : ℕ) (s : GrpcPools) (p : ℕ) → IsSound s → IsSound (stamped now s p)
stamped-IsSound now s p v = record {
  agree = same-Agree s _ (λ q. by q (p == q) refl) v.agree;
  limited = same-IsLimited s (stamped now s p) refl v.limited;
}
  where
    by :
        (q : ℕ) (b : Bool)
        → (p == q) ≡ b
        → ((if b then record (s.store p) { last = now } else s.store q).addr ≡ (s.store q).addr)
          × ((if b then record (s.store p) { last = now } else s.store q).net ≡ (s.store q).net)
    by q true t =
        let p≡q : p ≡ q = ground arith in
        (ap (λ (u : ℕ). (s.store u).addr) p≡q, ap (λ (u : ℕ). (s.store u).net) p≡q)
    by q false t = (refl, refl)

pub set_strategy-IsSound : (n : Strategy) (s : GrpcPools) → IsSound s → IsSound (set_strategy n s)
unfolding set_strategy
set_strategy-IsSound n s v = by n
  where
    tuned : (g : GetPoolFunc) (m : Strategy) → IsSound (record s { get_pool = g; strategy = m })
    tuned g m =
        tuned-IsSound s s.retry_times s.retry_interval s.idle_time_out g m v.agree v.limited.tried
          v.limited.bounded v.limited.spaced v.limited.patient

    by : (n : Strategy) → IsSound (set_strategy n s)
    by random = tuned random_get random
    by round = tuned roll_get round
    by least = tuned least_get least
    by (other m) = tuned least_get least

pub set_retry_times-IsSound : (n : ℕ) (s : GrpcPools) → IsSound s → IsSound (set_retry_times n s)
set_retry_times-IsSound n s v = subst IsSound (sym (set_retry_times-times n s)) (
    tuned-IsSound s (times n) s.retry_interval s.idle_time_out s.get_pool s.strategy v.agree
      (times-range n).0 (times-range n).1 v.limited.spaced v.limited.patient)

pub set_retry_interval-IsSound :
    (n : ℕ) (s : GrpcPools)
    → n * millisecond < 2 ^ 63
    → IsSound s
    → IsSound (set_retry_interval n s)
unfolding set_retry_interval interval
set_retry_interval-IsSound n s small v =
    tuned-IsSound s s.retry_times (interval n) s.idle_time_out s.get_pool s.strategy v.agree
      v.limited.tried v.limited.bounded (interval-least n small) v.limited.patient

pub set_idle_time_out-IsSound :
    (n : ℕ) (s : GrpcPools) → IsSound s → IsSound (set_idle_time_out n s)
unfolding set_idle_time_out
set_idle_time_out-IsSound n s v =
    subst IsSound
      (sym (
        at_least_minute-idle_time
          (record s { idle_time_out = pos_part (wrap_int64 (n * second)) })))
      (tuned-IsSound s s.retry_times s.retry_interval
        (idle_time (pos_part (wrap_int64 (n * second)))) s.get_pool s.strategy v.agree
        v.limited.tried v.limited.bounded v.limited.spaced
        (idle_time-least (pos_part (wrap_int64 (n * second)))))

Step-IsSound : {s t : GrpcPools} → Step s t → IsSound s → IsSound t
unfolding close_server
Step-IsSound (opens env s a o static) v = get_and_push-IsSound env s a o static v
Step-IsSound (picks env s g) v = IsIndexed-IsSound s _ (pick-IsIndexed env s g) v
Step-IsSound (counts d s p) v = counted-IsSound d s p v
Step-IsSound (stamps now s p) v = stamped-IsSound now s p v
Step-IsSound (closes_server s a) v = remove_index-IsSound s (get_server_index s a) v
Step-IsSound (closes s) v = close_pools-IsSound s v
Step-IsSound (checks env s t e) v = idle_check-IsSound env s t v e
Step-IsSound (sets_times n s) v = set_retry_times-IsSound n s v
Step-IsSound (sets_interval n s small) v = set_retry_interval-IsSound n s small v
Step-IsSound (sets_idle n s) v = set_idle_time_out-IsSound n s v
Step-IsSound (sets_strategy n s) v = set_strategy-IsSound n s v

Reach-IsSound : {s t : GrpcPools} → Reach s t → IsSound s → IsSound t
Reach-IsSound here v = v
Reach-IsSound (next r st) v = Step-IsSound st (Reach-IsSound r v)

pub blank-Agree : (o : Options) → Agree (blank o)
unfolding elem
blank-Agree o = record {
  index = record { listed = λ p m. cc; mapped = λ a p m. cc; once = tt };
  fresh = λ p m. cc;
  kept = λ p lo hi. absurd (omega (arith, lo, hi));
  shut = λ c. refl;
}

configured-IsSound : (o : Options) → IsSound (configured o)
unfolding set_retry_times set_idle_time_out set_strategy set_retry_interval wrap_int64
configured-IsSound o =
    tuned-IsSound (blank o) 3 (pos (1000 * millisecond)) (600 * second) least_get least
      (blank-Agree o) (omega arith) (omega arith) (omega arith) (omega arith)

push_rest-IsSound :
    (again : GrpcPools → NewPools) (r : GrpcPools × Found) (t : GrpcPools)
    → ((s : GrpcPools) → IsSound s → again s ≡ ready t → IsSound t)
    → IsSound r.0
    → push_rest again r ≡ ready t
    → IsSound t
unfolding push_rest
push_rest-IsSound again (s, found p) t h v e = h s v e
push_rest-IsSound again (s, missing x) t h v e = cc

pub push_all-IsSound :
    (envs : ℕ → Net) (o : Options) (addrs : List ℕ) (s t : GrpcPools)
    → IsSound s
    → push_all envs o addrs s ≡ ready t
    → IsSound t
unfolding push_all
push_all-IsSound envs o [] s t v e = let s≡t : s ≡ t = cc in subst IsSound s≡t v
push_all-IsSound envs o (a ∷ rest) s t v e =
    push_rest-IsSound (push_all envs o rest) (get_and_push (envs a) s a o true) t
      (λ u w f. push_all-IsSound envs o rest u t w f) (get_and_push-IsSound (envs a) s a o true v) e

-- After any steps of the pools that NewGRPCPools has returned, with retry intervals set to less than 2^63
-- nanoseconds, beyond which the product wraps, the list of pools and the map of
-- addresses agree, every pool that is not listed any more has been closed, no pool is listed after a
-- Close, and the settings are within their limits.
pub reached-IsSound :
    (envs : ℕ → Net) (addrs : List ℕ) (o : Options) (s t : GrpcPools)
    → new_grpc_pools envs addrs o ≡ ready s
    → Reach s t
    → IsSound t
unfolding new_grpc_pools
reached-IsSound envs addrs o s t e r =
    Reach-IsSound r (push_all-IsSound envs o addrs (configured o) s (configured-IsSound o) e)
