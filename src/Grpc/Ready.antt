-- ===== src/Grpc/Ready.antt =====
-- get_index_ex of gokit/transport/pool/grpc/pools.go finds a connected pool if there is one.
use jkfr.Prelude.{
  ℕ, zero, suc, ◌+◌, ◌-◌, ◌%◌, ◌^◌, ◌≤◌, ◌<◌, ◌≡◌, refl, sym, ap, ◌∙◌, inl, inr, Bool, true, false,
  Option, none, some, arith, ◌==◌, if◌then◌else◌, length, get_elem?, elem, Bool-cases, get_elem?-lt,
  get_elem?-elem, elem-get_elem?,
}
use native.Mathlib.Nat.{mod-eq_of_lt, add-mod_right}
use jkfr.Grpc.{GrpcPools, Net}
use jkfr.Grpc.Pick.{wrap32, is_up_at, scan, settle_at, get_index_ex}

-- From any index on, the next `n` indices modulo `n` meet every index.
pub round_meets : (n x j : ℕ) → j < n → (k : ℕ) × (k < n) × ((x + k) % n ≡ j)
round_meets n zero j h = (j, h, ap (λ m. m % n) (omega arith) ∙ mod-eq_of_lt h)
round_meets n (suc x) j h = let (k, lt, e) = round_meets n x j h in by k lt e
  where
    by : (k : ℕ) → k < n → (x + k) % n ≡ j → (k : ℕ) × (k < n) × ((suc x + k) % n ≡ j)
    by (suc k) lt e = (k, omega arith, ap (λ m. m % n) (omega arith) ∙ e)
    by zero lt e = (
      n - 1,
      omega arith,
      ap (λ m. m % n) (omega arith) ∙ add-mod_right x n ∙ ap (λ m. m % n) (omega arith) ∙ e,
    )

scan-finds :
    (env : Net) (s : GrpcPools) (index n i k : ℕ)
    → i ≤ k
    → k < i + n
    → is_up_at env s (get_elem? s.pools (wrap32 (index + k) % length s.pools)) ≡ true
    → (cur : ℕ) × (scan env s index n i ≡ some cur)
      × (is_up_at env s (get_elem? s.pools cur) ≡ true)
unfolding scan
scan-finds env s index zero i k lo hi up = absurd (omega arith)
scan-finds env s index (suc n) i k lo hi up =
    by (is_up_at env s (get_elem? s.pools (wrap32 (index + i) % length s.pools))) refl
      (λ below. scan-finds env s index n (i + 1) k below (omega arith) up)
  where
    by :
        (b : Bool)
        → is_up_at env s (get_elem? s.pools (wrap32 (index + i) % length s.pools)) ≡ b
        → (i + 1 ≤ k
            → (cur : ℕ) × (scan env s index n (i + 1) ≡ some cur)
              × (is_up_at env s (get_elem? s.pools cur) ≡ true))
        → (cur : ℕ) × ((if b
              then some (wrap32 (index + i) % length s.pools)
              else scan env s index n (i + 1))
            ≡ some cur)
          × (is_up_at env s (get_elem? s.pools cur) ≡ true)
    by true e below = (wrap32 (index + i) % length s.pools, refl, e)
    by false e below = elim (Bool-cases (i == k)) [
      | inl same ↦
          let i≡k : i ≡ k = ground arith in
          absurd (
            never (
              sym e
              ∙ ap (λ m. is_up_at env s (get_elem? s.pools (wrap32 (index + m) % length s.pools)))
                  i≡k
              ∙ up))
      | inr other ↦ below (ground arith)
    ]
      where
        never : false ≡ true → ⊥
        never q = cc

-- If a listed pool is connected, and counting on from the index through all pools does not wrap,
-- get_index_ex returns a listed pool that is connected.
pub get_index_ex-connected :
    (env : Net) (s : GrpcPools) (index q : ℕ)
    → index + length s.pools ≤ 2 ^ 32
    → elem q s.pools ≡ true
    → env.is_connected (s.store q).net ≡ true
    → (p : ℕ) × ((get_index_ex env s index).1 ≡ some p)
      × (elem p s.pools ≡ true)
      × (env.is_connected (s.store p).net ≡ true)
unfolding get_index_ex
get_index_ex-connected env s index q small m up =
    let (j, at) = elem-get_elem? q s.pools m in
    let (k, lt, e) = round_meets (length s.pools) index j (get_elem?-lt s.pools j q at) in
    let here : wrap32 (index + k) % length s.pools ≡ j =
      ap (λ x. x % length s.pools) (mod-eq_of_lt (omega (arith, lt, small))) ∙ e in
    branch (length s.pools == 0) (is_up_at env s p) refl refl
      (omega (arith, get_elem?-lt s.pools j q at))
      (scan-finds env s index (length s.pools) 0 k (omega arith) (omega (arith, lt))
        (ap (λ x. is_up_at env s (get_elem? s.pools x)) here ∙ ap (is_up_at env s) at ∙ up))
  where
    p : Option ℕ
    p = get_elem? s.pools (index % length s.pools)

    given :
        (i : ℕ) (r : Option ℕ)
        → get_elem? s.pools i ≡ r
        → is_up_at env s r ≡ true
        → (p : ℕ) × (r ≡ some p)
          × (elem p s.pools ≡ true)
          × (env.is_connected (s.store p).net ≡ true)
    given i none at u = cc
    given i (some x) at u = (x, refl, get_elem?-elem s.pools i x at, u)

    settled :
        (r : Option ℕ)
        → ((cur : ℕ) × (r ≡ some cur) × (is_up_at env s (get_elem? s.pools cur) ≡ true))
        → (p' : ℕ) × ((settle_at s p r).1 ≡ some p')
          × (elem p' s.pools ≡ true)
          × (env.is_connected (s.store p').net ≡ true)
    settled none (cur, e, u) = cc
    settled (some i) (cur, e, u) =
        let same : i ≡ cur = cc in
        given i (get_elem? s.pools i) refl (ap (λ x. is_up_at env s (get_elem? s.pools x)) same ∙ u)

    branch :
        (b c : Bool)
        → (length s.pools == 0) ≡ b
        → is_up_at env s p ≡ c
        → 0 < length s.pools
        → ((cur : ℕ) × (scan env s index (length s.pools) 0 ≡ some cur)
            × (is_up_at env s (get_elem? s.pools cur) ≡ true))
        → (p' : ℕ) × ((if◌then◌else◌ {A = GrpcPools × Option ℕ} b
              (s, none)
              (if◌then◌else◌ {A = GrpcPools × Option ℕ} c
                (s, p)
                (settle_at s p (scan env s index (length s.pools) 0)))).1
            ≡ some p')
          × (elem p' s.pools ≡ true)
          × (env.is_connected (s.store p').net ≡ true)
    branch true c e f pos r = absurd (ground arith)
    branch false true e f pos r = given (index % length s.pools) p refl f
    branch false false e f pos r = settled (scan env s index (length s.pools) 0) r
