-- ===== src/Grpc/Removed.antt =====
-- Removing a pool, and closing them all, in gokit/transport/pool/grpc/pools.go keeps the list of pools
-- and the map of addresses in agreement.
use jkfr.Prelude.{
  ℕ, ◌≡◌, refl, sym, ap, subst, ◌∙◌, inl, inr, Bool, true, false, ◌||◌, some, List, [], ◌∷◌, arith,
  ◌==◌, if◌then◌else◌, get_elem?, elem, NoDup, Bool-cases, Option-cases, elem-append,
  get_elem?-elem, ℤ, pos, negsuc, delete-IsIndex,
}
use jkfr.Grpc.{GrpcPools, StPool, taken_out, remove_index, close_pools, nets, without}
use jkfr.Grpc.Cut.{without-cut, elem-cut, cut-NoDup}
use jkfr.Grpc.Agree.{Agree, addr_of}

taken_out-Agree :
    (s : GrpcPools) (i p : ℕ) → Agree s → get_elem? s.pools i ≡ some p → Agree (taken_out s i p)
unfolding elem
taken_out-Agree s i p v at = record {
  index =
      delete-IsIndex (addr_of s) s.addr2pool s.pools (without s.pools i) p in_pools left
        (subst NoDup (sym (without-cut s.pools i)) (cut-NoDup s.pools i v.index.once)) v.index;
  fresh = λ q m. v.fresh q (ground (arith, left q));
  kept = λ q lo hi. keep q (p == q) refl (v.kept q lo hi);
  shut = λ c. absurd (none_left (v.shut c));
}
  where
    in_pools : elem p s.pools ≡ true
    in_pools = get_elem?-elem s.pools i p at

    none_left : s.pools ≡ [] → ⊥
    none_left e = ground (arith, ap (elem p) e, in_pools)

    left : (q : ℕ) → elem q (without s.pools i) ≡ (if p == q then false else elem q s.pools)
    left q = ap (elem q) (without-cut s.pools i) ∙ elem-cut s.pools i p q v.index.once at

    keep :
        (q : ℕ) (b : Bool)
        → (p == q) ≡ b
        → elem q s.pools || elem (s.store q).net s.closed ≡ true
        → elem q (without s.pools i) || elem (s.store q).net ((s.store p).net ∷ s.closed) ≡ true
    keep q true t k =
        let p≡q : p ≡ q = ground arith in ground (arith, ap (λ (x : ℕ). (s.store x).net) p≡q)
    keep q false t k = ground (arith, left q)

pub remove_index-Agree : (s : GrpcPools) (i : ℤ) → Agree s → Agree (remove_index s i)
unfolding remove_index
remove_index-Agree s (negsuc n) v = v
remove_index-Agree s (pos i) v = elim (Option-cases (get_elem? s.pools i)) [
  | inl e ↦ rw (e, remove_index) v
  | inr (p, e) ↦ rw (e, remove_index) (taken_out-Agree s i p v e)
]

elem-nets :
    (st : ℕ → StPool) (ps : List ℕ) (p : ℕ) → elem p ps ≡ true → elem (st p).net (nets st ps) ≡ true
unfolding elem
elem-nets st [] p m = cc
elem-nets st (q ∷ ps) p m = by (q == p) refl (elem-nets st ps p)
  where
    by :
        (b : Bool)
        → (q == p) ≡ b
        → (elem p ps ≡ true → elem (st p).net (nets st ps) ≡ true)
        → (if (st q).net == (st p).net then true else elem (st p).net (nets st ps)) ≡ true
    by true t rest =
        let q≡p : q ≡ p = ground arith in ground (arith, ap (λ (x : ℕ). (st x).net) q≡p)
    by false t rest = ground arith

pub close_pools-Agree : (s : GrpcPools) → Agree s → Agree (close_pools s)
unfolding close_pools elem
close_pools-Agree s v = elim (Bool-cases s.is_closed) [
  | inl e ↦ simp (e, close_pools) v
  | inr e ↦
      simp (e, close_pools)
        (record {
          index = record { listed = λ p m. cc; mapped = λ a p m. cc; once = tt };
          fresh = λ p m. cc;
          kept = λ p lo hi. ground (
            arith,
            v.kept p lo hi,
            elem-nets s.store s.pools p,
            elem-append (s.store p).net (nets s.store s.pools) s.closed,
          );
          shut = λ c. refl;
        })
]
