-- ===== src/Grpc/Least.antt =====
-- least_get_when_less of gokit/transport/pool/grpc/pools.go finds a pool with the fewest running calls.
use jkfr.Prelude.{
  ℕ, zero, suc, ◌+◌, ◌%◌, ◌^◌, ◌≤◌, ◌<◌, ◌≡◌, refl, ap, subst, ◌∙◌, Bool, true, false, arith, ◌==◌,
  if◌then◌else◌, length, ℤ, pos, negsuc, ltb_ℤ, ◌≤ℤ◌,
}
use native.Mathlib.Nat.{mod-eq_of_lt, mod-lt}
use jkfr.Pool.Clients.{max_int64}
use jkfr.Grpc.{GrpcPools, Net}
use jkfr.Grpc.Pick.{wrap32, calls_at, is_zero, least_of, least_get_when_less}
use jkfr.Grpc.Ready.{round_meets}

is_zero-least : (z : ℤ) → is_zero z ≡ true → z ≤ℤ pos 0
is_zero-least (pos n) e = ground arith
is_zero-least (negsuc n) e = cc

abbrev IsLeast : GrpcPools → (ℕ → ℕ) → ℕ → ℕ → ℤ → ℕ → Type 0
IsLeast s at n i min r =
    (calls_at s r ≤ℤ min) × ((k : ℕ) → i ≤ k → k < i + n → calls_at s r ≤ℤ calls_at s (at k))

-- One round, after which the least count is `min'`, at `index'`.
round-IsLeast :
    (s : GrpcPools) (at : ℕ → ℕ) (n i : ℕ) (min min' : ℤ) (index' rest : ℕ)
    → ((j : ℕ) → pos 0 ≤ℤ calls_at s j)
    → calls_at s index' ≤ℤ min'
    → min' ≤ℤ min
    → min' ≤ℤ calls_at s (at i)
    → IsLeast s at n (i + 1) min' rest
    → (z : Bool) → is_zero min' ≡ z
    → IsLeast s at (suc n) i min (if z then index' else rest)
round-IsLeast s at n i min min' index' rest h m below here r true e =
    let zero_found = is_zero-least min' e in
    (omega (arith, m, below), λ k lo hi. omega (arith, m, zero_found, h (at k)))
round-IsLeast s at n i min min' index' rest h m below here (r, rs) false e =
    (omega (arith, r, below), λ k lo hi. visited k lo hi (i == k) refl)
  where
    visited :
        (k : ℕ)
        → i ≤ k
        → k < i + suc n
        → (b : Bool) → (i == k) ≡ b
        → calls_at s rest ≤ℤ calls_at s (at k)
    visited k lo hi false t = rs k (ground arith) (omega (arith, hi))
    visited k lo hi true t =
        let i≡k : i ≡ k = ground arith in
        subst (λ j. calls_at s rest ≤ℤ calls_at s (at j)) i≡k (omega (arith, r, here))

-- The loop with `n` rounds to go returns an index whose count is at most the least count so far, and
-- at most that of every index that it would still visit.
least_of-IsLeast :
    (s : GrpcPools) (at : ℕ → ℕ) (n i : ℕ) (min : ℤ) (index : ℕ)
    → ((j : ℕ) → pos 0 ≤ℤ calls_at s j)
    → calls_at s index ≤ℤ min
    → IsLeast s at n i min (least_of s at n i min index)
unfolding least_of
least_of-IsLeast s at zero i min index h m = (m, λ k lo hi. absurd (omega (arith, lo, hi)))
least_of-IsLeast s at (suc n) i min index h m =
    by (ltb_ℤ (calls_at s (at i)) min) refl (λ c j q. least_of-IsLeast s at n (i + 1) c j h q)
  where
    by :
        (b : Bool)
        → ltb_ℤ (calls_at s (at i)) min ≡ b
        → ((c : ℤ) (j : ℕ)
            → calls_at s j ≤ℤ c
            → IsLeast s at n (i + 1) c (least_of s at n (i + 1) c j))
        → IsLeast s at (suc n) i min (
            if is_zero (if b then calls_at s (at i) else min)
            then (if b then at i else index)
            else least_of s at n
                (i + 1)
                (if b then calls_at s (at i) else min)
                (if b then at i else index))
    by true e rest =
        round-IsLeast s at n i min (calls_at s (at i)) (at i) _ h (omega arith) (ground arith)
          (omega arith) (rest (calls_at s (at i)) (at i) (omega arith))
          (is_zero (calls_at s (at i))) refl
    by false e rest =
        round-IsLeast s at n i min min index _ h m (omega arith) (ground arith) (rest min index m)
          (is_zero min) refl

-- The index stays among those that the rounds visit.
least_of-lt :
    (s : GrpcPools) (at : ℕ → ℕ) (m n i : ℕ) (min : ℤ) (index : ℕ)
    → ((k : ℕ) → at k < m)
    → index < m
    → least_of s at n i min index < m
unfolding least_of
least_of-lt s at m zero i min index h lt = lt
least_of-lt s at m (suc n) i min index h lt =
    by (ltb_ℤ (calls_at s (at i)) min) (λ c j q. least_of-lt s at m n (i + 1) c j h q)
  where
    either : (z : Bool) (a b : ℕ) → a < m → b < m → (if z then a else b) < m
    either true a b p q = p
    either false a b p q = q

    by :
        (b : Bool)
        → ((c : ℤ) (j : ℕ) → j < m → least_of s at n (i + 1) c j < m)
        → (if is_zero (if b then calls_at s (at i) else min)
            then (if b then at i else index)
            else least_of s at n
                (i + 1)
                (if b then calls_at s (at i) else min)
                (if b then at i else index))
          < m
    by true rest =
        either (is_zero (calls_at s (at i))) (at i) _ (h i) (rest (calls_at s (at i)) (at i) (h i))
    by false rest = either (is_zero min) index _ lt (rest min index lt)

-- With at least one and at most 2^31 pools, whose counts are not negative and fit an int64,
-- least_get_when_less returns the index of a pool, and none has a lower count than that, whatever number
-- is drawn.
pub least_get_when_less-le :
    (env : Net) (s : GrpcPools) (j : ℕ)
    → length s.pools ≤ 2 ^ 31
    → ((i : ℕ) → pos 0 ≤ℤ calls_at s i)
    → ((i : ℕ) → calls_at s i ≤ℤ max_int64)
    → j < length s.pools
    → (least_get_when_less env s < length s.pools)
      × (calls_at s (least_get_when_less env s) ≤ℤ calls_at s j)
unfolding least_get_when_less
least_get_when_less-le env s j small low high lt =
    let n = length s.pools in
    let b = env.draw 0 % n in
    let (k, k_lt, e) = round_meets n b j lt in
    let here : wrap32 (b + k) % n ≡ j =
      ap (λ x. x % n)
        (mod-eq_of_lt (omega (arith, k_lt, small, mod-lt (env.draw 0) {m = n} (omega (arith, lt)))))
      ∙ e in
    let (r, rs) = least_of-IsLeast s (λ i. wrap32 (b + i) % n) n 0 max_int64 0 low (high 0) in
    (
      least_of-lt s (λ i. wrap32 (b + i) % n) n n 0 max_int64 0
          (λ i. mod-lt (wrap32 (b + i)) {m = n} (omega (arith, lt))) (omega (arith, lt)),
      subst (λ i. calls_at s (least_get_when_less env s) ≤ℤ calls_at s i) here
          (rs k (omega arith) (omega (arith, k_lt))),
    )
