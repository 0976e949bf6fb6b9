-- ===== src/Rpc/Moves.antt =====
-- In gokit/transport/pool/rpc/pools.go the index always is that of the pool that was chosen last, so a
-- retry goes to another server.
use jkfr.Prelude.{
  ℕ, zero, suc, ◌+◌, ◌%◌, ◌^◌, ◌≤◌, ◌<◌, ◌≡◌, ◌≢◌, refl, sym, ap, ◌∙◌, inl, inr, Bool, true, false,
  Option, none, some, arith, ◌==◌, if◌then◌else◌, length, get_elem?, Bool-cases,
}
use native.Mathlib.Nat.{mod-eq_of_lt, mod-lt, mod_self}
use jkfr.Grpc.{Net}
use jkfr.Grpc.Pick.{wrap32, is_up_at, scan, settle_at}
use jkfr.Rpc.{RpcPools, at_index, rpc_get_index_ex, rpc_get_roll}

scan-lt :
    (env : Net) (s : RpcPools) (index n i cur : ℕ)
    → 0 < length s.pools
    → scan env s index n i ≡ some cur
    → cur < length s.pools
unfolding scan
scan-lt env s index zero i cur l e = cc
scan-lt env s index (suc n) i cur l e =
    by (is_up_at env s (get_elem? s.pools (wrap32 (index + i) % length s.pools))) e
      (scan-lt env s index n (i + 1) cur l)
  where
    by :
        (b : Bool)
        → (if b then some (wrap32 (index + i) % length s.pools) else scan env s index n (i + 1))
          ≡ some cur
        → (scan env s index n (i + 1) ≡ some cur → cur < length s.pools)
        → cur < length s.pools
    by true q rest =
        let same : wrap32 (index + i) % length s.pools ≡ cur = cc in
        omega (arith, same, mod-lt (wrap32 (index + i)) {m = length s.pools} l)
    by false q rest = rest q

-- Whichever index it is given, get_index_ex of pools that are not empty returns the pool at the index
-- that it leaves behind, which is in range.
pub rpc_get_index_ex-index :
    (env : Net) (s : RpcPools) (i : ℕ)
    → 0 < length s.pools
    → ((rpc_get_index_ex env s i).0.index < length s.pools)
      × ((rpc_get_index_ex env s i).1 ≡ get_elem? s.pools (rpc_get_index_ex env s i).0.index)
      × ((rpc_get_index_ex env s i).0.pools ≡ s.pools)
unfolding rpc_get_index_ex
rpc_get_index_ex-index env s i l = branch (length s.pools == 0) (is_up_at env s p) refl
  where
    p : Option ℕ
    p = get_elem? s.pools (i % length s.pools)

    s' : RpcPools
    s' = at_index s (i % length s.pools)

    Holds : RpcPools × Option ℕ → Type 0
    Holds r =
        (r.0.index < length s.pools) × (r.1 ≡ get_elem? s.pools r.0.index) × (r.0.pools ≡ s.pools)

    settled : (r : Option ℕ) → scan env s' i (length s.pools) 0 ≡ r → Holds (settle_at s' p r)
    settled none e = (mod-lt i {m = length s.pools} l, refl, refl)
    settled (some cur) e = (scan-lt env s' i (length s.pools) 0 cur l e, refl, refl)

    branch :
        (b c : Bool)
        → (length s.pools == 0) ≡ b
        → Holds (
            if◌then◌else◌ {A = RpcPools × Option ℕ} b
              (s, none)
              (if◌then◌else◌ {A = RpcPools × Option ℕ} c
                (s', p)
                (settle_at s' p (scan env s' i (length s.pools) 0))))
    branch true c e = absurd (ground (arith, l))
    branch false true e = (mod-lt i {m = length s.pools} l, refl, refl)
    branch false false e = settled (scan env s' i (length s.pools) 0) refl

-- A connected pool at the index is returned at once.
rpc_get_index_ex-up :
    (env : Net) (s : RpcPools) (i : ℕ)
    → 0 < length s.pools
    → is_up_at env s (get_elem? s.pools (i % length s.pools)) ≡ true
    → rpc_get_index_ex env s i
      ≡ (at_index s (i % length s.pools), get_elem? s.pools (i % length s.pools))
unfolding rpc_get_index_ex
rpc_get_index_ex-up env s i l up =
    let some_there : (length s.pools == 0) ≡ false = ground (arith, l) in
    simp (some_there, up, rpc_get_index_ex) refl

is_up_at-index :
    (env : Net) (s : RpcPools) (i : ℕ) (r : Option ℕ)
    → is_up_at env s r ≡ true
    → is_up_at env (at_index s i) r ≡ true
is_up_at-index env s i none e = e
is_up_at-index env s i (some p) e = e

next-other : (n i : ℕ) → i < n → 2 ≤ n → (i + 1) % n ≢ i
next-other n i lt two e = elim (Bool-cases (i + 1 == n)) [
  | inl last ↦
      let whole : i + 1 ≡ n = ground arith in
      let back : 0 ≡ i = sym (ap (λ m. m % n) whole ∙ mod_self n) ∙ e in
      omega (arith, whole, back, two)
  | inr inner ↦ let more : i + 1 < n = ground (arith, lt) in omega (arith, mod-eq_of_lt more, e)
]

-- With at least 2 and at most 2^31 pools, an index in range, and the pool behind that index, counted
-- around, connected, roll_get returns that pool, and leaves an index other than the one before.
pub rpc_get_roll-next :
    (env : Net) (s : RpcPools)
    → s.index < length s.pools
    → 2 ≤ length s.pools
    → length s.pools ≤ 2 ^ 31
    → is_up_at env s (get_elem? s.pools ((s.index + 1) % length s.pools)) ≡ true
    → ((rpc_get_roll env s).1 ≡ get_elem? s.pools ((s.index + 1) % length s.pools))
      × ((rpc_get_roll env s).0.index ≢ s.index)
unfolding rpc_get_roll
rpc_get_roll-next env s lt two small up =
    let flat : wrap32 (s.index + 1) ≡ s.index + 1 = mod-eq_of_lt (omega (arith, lt, small)) in
    let found =
      rpc_get_index_ex-up env (at_index s (s.index + 1)) (s.index + 1) (omega (arith, two))
        (is_up_at-index env s (s.index + 1) _ up) in
    let rolled = ap (λ i. rpc_get_index_ex env (at_index s i) i) flat ∙ found in
    (
      ap (λ (r : RpcPools × Option ℕ). r.1) rolled,
      λ e.
          next-other (length s.pools) s.index lt two
            (sym (ap (λ (r : RpcPools × Option ℕ). r.0.index) rolled) ∙ e),
    )
