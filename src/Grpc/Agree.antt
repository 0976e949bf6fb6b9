-- ===== src/Grpc/Agree.antt =====
-- The list of pools and the map of addresses in gokit/transport/pool/grpc/pools.go agree, whatever is
-- opened, closed and replaced.
use jkfr.Prelude.{
  ℕ, suc, ◌≤◌, ◌≡◌, refl, sym, ap, ◌∙◌, inl, inr, Bool, true, false, ◌||◌, none, some, [], ◌∷◌,
  ◌++◌, arith, ◌==◌, if◌then◌else◌, elem, Bool-cases, Option-cases, elem-append, IsIndex,
  IsIndex-key, append-IsIndex,
}
use jkfr.Grpc.{
  GrpcPools, StPool, Net, Opened, opened, unreachable, store_at, replaced, entered, push_pool,
  new_stpool, push_opened, new_and_push, get_and_push, get_addr,
}
use jkfr.Pool.Options.{Options}

abbrev pub addr_of : GrpcPools → ℕ → ℕ
addr_of s p = (s.store p).addr

-- `index`: the map takes the address of each listed pool to that pool, and has no other keys. `kept`: every pool ever made is listed, or its GRPCPool has been closed. `shut`: no pool is
-- listed once Close has run.
pub record Agree (s : GrpcPools) : Type 0 where
  pub index : IsIndex (addr_of s) s.addr2pool s.pools
  pub fresh : (p : ℕ) → elem p s.pools ≡ true → p ≤ s.made
  pub kept : (p : ℕ) → 1 ≤ p → p ≤ s.made → elem p s.pools || elem (s.store p).net s.closed ≡ true
  pub shut : s.is_closed ≡ true → s.pools ≡ []

pub replaced-Agree :
    (env : Net) (s : GrpcPools) (a q : ℕ) (e : StPool)
    → Agree s
    → get_addr s a ≡ some q
    → e.addr ≡ a
    → Agree (replaced env s q e)
unfolding elem
replaced-Agree env s a q e v at same = record {
  index =
      IsIndex-key (addr_of s) (addr_of (replaced env s q e)) s.addr2pool s.pools
        (λ p m. addr_kept p) v.index;
  fresh = v.fresh;
  kept = λ p lo hi. either p (q == p) refl (v.kept p lo hi);
  shut = v.shut;
}
  where
    new : StPool
    new = record (s.store q) { net = e.net; addr = e.addr; static = e.static; last = env.now }

    addr_kept : (p : ℕ) → (store_at s.store q new p).addr ≡ (s.store p).addr
    addr_kept p = by (q == p) refl
      where
        by : (b : Bool) → (q == p) ≡ b → (if b then new else s.store p).addr ≡ (s.store p).addr
        by true t =
            let q≡p : q ≡ p = ground arith in
            same ∙ sym (v.index.mapped a q at).1 ∙ ap (λ (u : ℕ). (s.store u).addr) q≡p
        by false t = refl

    either :
        (p : ℕ) (b : Bool)
        → (q == p) ≡ b
        → elem p s.pools || elem (s.store p).net s.closed ≡ true
        → elem p s.pools || elem (if b then new else s.store p).net ((s.store q).net ∷ s.closed)
          ≡ true
    either p true t k =
        let q≡p : q ≡ p = ground arith in
        ground (arith, (v.index.mapped a q at).0, ap (λ (u : ℕ). elem u s.pools) q≡p)
    either p false t k = ground arith

pub entered-Agree :
    (s : GrpcPools) (a : ℕ) (e : StPool)
    → Agree s
    → get_addr s a ≡ none
    → e.addr ≡ a
    → s.is_closed ≡ false
    → Agree (entered s a e)
unfolding elem
entered-Agree s a e v free same up = record {
  index =
      append-IsIndex (addr_of (entered s a e)) s.addr2pool s.pools n a unlisted free
        (ground (arith, same))
        (IsIndex-key (addr_of s) (addr_of (entered s a e)) s.addr2pool s.pools
          (λ p m. ground (arith, v.fresh p m)) v.index);
  fresh = λ p m. ground (arith, elem-append p s.pools (suc s.made ∷ []), v.fresh p);
  kept = λ p lo hi. keep p (suc s.made == p) refl lo hi;
  shut = λ c. cc;
}
  where
    n : ℕ
    n = suc s.made

    unlisted : elem n s.pools ≡ false
    unlisted = ground (arith, v.fresh n)

    keep :
        (p : ℕ) (b : Bool)
        → (n == p) ≡ b
        → 1 ≤ p
        → p ≤ n
        → elem p (s.pools ++ n ∷ []) || elem (if b then e else s.store p).net s.closed ≡ true
    keep p true t lo hi = ground (arith, elem-append p s.pools (n ∷ []))
    keep p false t lo hi =
        let hi' : p ≤ s.made = ground arith in
        ground (arith, elem-append p s.pools (n ∷ []), v.kept p lo hi')

pub push_pool-Agree :
    (env : Net) (s : GrpcPools) (a : ℕ) (e : StPool)
    → Agree s
    → e.addr ≡ a
    → s.is_closed ≡ false
    → Agree (push_pool env s a e).0
unfolding push_pool
push_pool-Agree env s a e v same up = elim (Option-cases (get_addr s a)) [
  | inl free ↦ rw (free, push_pool) (entered-Agree s a e v free same up)
  | inr (q, at) ↦ rw (at, push_pool) (replaced-Agree env s a q e v at same)
]

push_opened-Agree :
    (env : Net) (s : GrpcPools) (a : ℕ) (static : Bool) (o : Opened)
    → Agree s
    → s.is_closed ≡ false
    → Agree (push_opened env s a static o).0
unfolding push_opened
push_opened-Agree env s a static (unreachable e) v up = v
push_opened-Agree env s a static (opened n) v up =
    push_pool-Agree env s a (new_stpool env n a static) v refl up

new_and_push-Agree :
    (env : Net) (s : GrpcPools) (a : ℕ) (o : Options) (static : Bool)
    → Agree s
    → Agree (new_and_push env s a o static).0
unfolding new_and_push
new_and_push-Agree env s a o static v = elim (Bool-cases s.is_closed) [
  | inl shut ↦ simp (shut, new_and_push) v
  | inr up ↦ elim (Option-cases (get_addr s a)) [
    | inl free ↦
        simp (up, free, new_and_push) (push_opened-Agree env s a static (env.dial_pool o a) v up)
    | inr (q, at) ↦ simp (up, at, new_and_push) v
  ]
]

pub get_and_push-Agree :
    (env : Net) (s : GrpcPools) (a : ℕ) (o : Options) (static : Bool)
    → Agree s
    → Agree (get_and_push env s a o static).0
unfolding get_and_push
get_and_push-Agree env s a o static v = elim (Option-cases (get_addr s a)) [
  | inl free ↦ rw (free, get_and_push) (new_and_push-Agree env s a o static v)
  | inr (q, at) ↦ rw (at, get_and_push) v
]
