-- ===== src/Grpc/Sound.antt =====
-- What the steps of gokit/transport/pool/grpc/pools.go keep: the agreement of the list and the map, and
-- the limits of the settings.
use jkfr.Prelude.{
  ℕ, ◌+◌, ◌*◌, ◌≤◌, ◌≡◌, refl, sym, ap, subst, ◌∙◌, Bool, true, false, ◌||◌, Option, none, some,
  arith, ltb, leb, ◌==◌, if◌then◌else◌, length, get_elem?, elem, ℤ, pos, ◌≤ℤ◌, ◌<◌, wrap_int64,
  wrap_int64-small, ◌%◌, ◌^◌, IsIndex-key,
}
use jkfr.Pool.Options.{Options, second}
use jkfr.Grpc.{
  GrpcPools, StPool, Net, GetPoolFunc, random_get, roll_get, least_get, Strategy, get_and_push,
  remove_index, close_pools, millisecond, at_least_minute, set_retry_times,
}
use jkfr.Grpc.Pick.{
  scan, settle_at, get_index_ex, is_up_at, get_least, get_roll, get_random, pick,
  least_get_when_less, least_get_when_bigger,
}
use jkfr.Grpc.Agree.{Agree, addr_of, get_and_push-Agree}
use jkfr.Grpc.Removed.{remove_index-Agree, close_pools-Agree}
use jkfr.Grpc.Settings.{
  settings, settings-get_and_push, settings-remove_index, settings-close_pools,
}

-- The settings stay within their limits.
pub record IsLimited (s : GrpcPools) : Type 0 where
  pub tried : 1 ≤ s.retry_times
  pub bounded : s.retry_times ≤ 10
  pub spaced : pos (50 * millisecond) ≤ℤ s.retry_interval
  pub patient : 60 * second ≤ s.idle_time_out

pub record IsSound (s : GrpcPools) : Type 0 where
  pub agree : Agree s
  pub limited : IsLimited s

-- What a step that leaves the lists and addresses alone keeps.
pub same-Agree :
    (s : GrpcPools) (st : ℕ → StPool)
    → ((q : ℕ) → ((st q).addr ≡ (s.store q).addr) × ((st q).net ≡ (s.store q).net))
    → Agree s
    → Agree (record s { store = st })
same-Agree s st same v = record {
  index =
      IsIndex-key (addr_of s) (λ p. (st p).addr) s.addr2pool s.pools (λ p m. (same p).0) v.index;
  fresh = v.fresh;
  kept = λ p lo hi. ap (λ n. elem p s.pools || elem n s.closed) (same p).1 ∙ v.kept p lo hi;
  shut = v.shut;
}

-- What a step that changes settings and the index alone keeps.
tuned-Agree :
    (s : GrpcPools) (rt : ℕ) (ri : ℤ) (it ix : ℕ) (g : GetPoolFunc) (n : Strategy)
    → Agree s
    → Agree (record s {
      retry_times = rt;
      retry_interval = ri;
      idle_time_out = it;
      index = ix;
      get_pool = g;
      strategy = n;
    })
tuned-Agree s rt ri it ix g n v = record {
  index = v.index;
  fresh = v.fresh;
  kept = v.kept;
  shut = v.shut;
}

pub same-IsLimited : (s t : GrpcPools) → settings t ≡ settings s → IsLimited s → IsLimited t
same-IsLimited s t e v = record {
  tried = subst (λ (n : ℕ × ℤ × ℕ). 1 ≤ n.0) (sym e) v.tried;
  bounded = subst (λ (n : ℕ × ℤ × ℕ). n.0 ≤ 10) (sym e) v.bounded;
  spaced = subst (λ (n : ℕ × ℤ × ℕ). pos (50 * millisecond) ≤ℤ n.1) (sym e) v.spaced;
  patient = subst (λ (n : ℕ × ℤ × ℕ). 60 * second ≤ n.2) (sym e) v.patient;
}

abbrev pub IsIndexed : GrpcPools → GrpcPools → Type 0
IsIndexed s t = (j : ℕ) × (t ≡ record s { index = j })

pub get_index_ex-IsIndexed :
    (env : Net) (s : GrpcPools) (i : ℕ) → IsIndexed s (get_index_ex env s i).0
unfolding get_index_ex
get_index_ex-IsIndexed env s i = branch (length s.pools == 0) (is_up_at env s p)
  where
    p : Option ℕ
    p = get_elem? s.pools (i % length s.pools)

    settled : (r : Option ℕ) → IsIndexed s (settle_at s p r).0
    settled none = (s.index, refl)
    settled (some j) = (j, refl)

    branch :
        (b c : Bool)
        → IsIndexed s
            (if◌then◌else◌ {A = GrpcPools × Option ℕ} b
              (s, none)
              (if◌then◌else◌ {A = GrpcPools × Option ℕ} c
                (s, p)
                (settle_at s p (scan env s i (length s.pools) 0)))).0
    branch true c = (s.index, refl)
    branch false true = (s.index, refl)
    branch false false = settled (scan env s i (length s.pools) 0)

pub pick-IsIndexed : (env : Net) (s : GrpcPools) (g : GetPoolFunc) → IsIndexed s (pick env s g).0
unfolding pick get_random get_roll get_least
pick-IsIndexed env s random_get =
    get_index_ex-IsIndexed env (record s { index = env.draw 0 }) (env.draw 0)
pick-IsIndexed env s roll_get =
    let i = (s.index + 1) % 2 ^ 32 in get_index_ex-IsIndexed env (record s { index = i }) i
pick-IsIndexed env s least_get = branch (length s.pools == 0)
  where
    i : ℕ
    i = if leb (length s.pools) 20 then least_get_when_less env s else least_get_when_bigger env s

    branch :
        (b : Bool)
        → IsIndexed s
            (if◌then◌else◌ {A = GrpcPools × Option ℕ} b
              (s, none)
              (get_index_ex env (record s { index = i }) i)).0
    branch true = (s.index, refl)
    branch false = get_index_ex-IsIndexed env (record s { index = i }) i

pub IsIndexed-IsSound : (s t : GrpcPools) → IsIndexed s t → IsSound s → IsSound t
IsIndexed-IsSound s t (j, e) v = subst IsSound (sym e) (record {
  agree =
      tuned-Agree s s.retry_times s.retry_interval s.idle_time_out j s.get_pool s.strategy v.agree;
  limited = record {
    tried = v.limited.tried;
    bounded = v.limited.bounded;
    spaced = v.limited.spaced;
    patient = v.limited.patient;
  };
})

pub get_and_push-IsSound :
    (env : Net) (s : GrpcPools) (a : ℕ) (o : Options) (static : Bool)
    → IsSound s
    → IsSound (get_and_push env s a o static).0
get_and_push-IsSound env s a o static v = record {
  agree = get_and_push-Agree env s a o static v.agree;
  limited = same-IsLimited s _ (settings-get_and_push env s a o static) v.limited;
}

pub remove_index-IsSound : (s : GrpcPools) (i : ℤ) → IsSound s → IsSound (remove_index s i)
remove_index-IsSound s i v = record {
  agree = remove_index-Agree s i v.agree;
  limited = same-IsLimited s _ (settings-remove_index s i) v.limited;
}

pub close_pools-IsSound : (s : GrpcPools) → IsSound s → IsSound (close_pools s)
close_pools-IsSound s v = record {
  agree = close_pools-Agree s v.agree;
  limited = same-IsLimited s _ (settings-close_pools s) v.limited;
}

pub tuned-IsSound :
    (s : GrpcPools) (rt : ℕ) (ri : ℤ) (it : ℕ) (g : GetPoolFunc) (n : Strategy)
    → Agree s
    → 1 ≤ rt
    → rt ≤ 10
    → pos (50 * millisecond) ≤ℤ ri
    → 60 * second ≤ it
    → IsSound (record s {
      retry_times = rt;
      retry_interval = ri;
      idle_time_out = it;
      get_pool = g;
      strategy = n;
    })
tuned-IsSound s rt ri it g n v a b c d = record {
  agree = tuned-Agree s rt ri it s.index g n v;
  limited = record { tried = a; bounded = b; spaced = c; patient = d };
}

-- The setters repair what they are given.
unfoldable pub times : ℕ → ℕ
times n = if ltb 10 n then 10 else if n == 0 then 1 else n

pub set_retry_times-times :
    (n : ℕ) (s : GrpcPools) → set_retry_times n s ≡ record s { retry_times = times n }
unfolding set_retry_times times
set_retry_times-times n s = ground arith

unfoldable pub interval : ℕ → ℤ
interval n = wrap_int64 ((if ltb n 50 then 50 else n) * millisecond)

unfoldable pub idle_time : ℕ → ℕ
idle_time n = if ltb n (60 * second) then 60 * second else n

pub at_least_minute-idle_time :
    (s : GrpcPools) → at_least_minute s ≡ record s { idle_time_out = idle_time s.idle_time_out }
unfolding idle_time
at_least_minute-idle_time s = ground arith

pub times-range : (n : ℕ) → (1 ≤ times n) × (times n ≤ 10)
unfolding times
times-range n = (ground arith, ground arith)

-- An interval of less than 2^63 nanoseconds does not wrap.
pub interval-least : (n : ℕ) → n * millisecond < 2 ^ 63 → pos (50 * millisecond) ≤ℤ interval n
unfolding interval
interval-least n small =
    let ms = if ltb n 50 then 50 else n in
    let fits : ms * millisecond < 2 ^ 63 = ground (arith, small) in
    let least : 50 ≤ ms = ground arith in
    subst (λ z. pos (50 * millisecond) ≤ℤ z) (sym (wrap_int64-small (ms * millisecond) fits))
      (omega (arith, least))

pub idle_time-least : (n : ℕ) → 60 * second ≤ idle_time n
unfolding idle_time
idle_time-least n = ground arith
