-- ===== src/Balance/Reset.antt =====
-- try_reset_endpoints of gokit/utils/lb/least.go keeps the counts of the endpoints that stay.
use jkfr.Prelude.{
  lookup, ℕ, suc, ◌-◌, ◌*◌, ◌≤◌, ◌≡◌, refl, sym, ap, ◌∙◌, inl, inr, Bool, true, false, ◌&&◌, none,
  some, List, [], ◌∷◌, arith, ltb, ◌==◌, if◌then◌else◌, length, elem, Bool-cases, Option-cases,
}
use jkfr.Pool.Options.{second}
use jkfr.Balance.{Least, keyed, with_new, keep_calls, try_reset_endpoints}

module _ (old : List (ℕ × ℕ)) (e p : ℕ) (held : lookup e old ≡ some p) where
  keep_calls-store :
      (eps : List ℕ) (s : Least) → p ≤ s.made → (keep_calls old s eps).store p ≡ s.store p
  unfolding keep_calls
  keep_calls-store [] s h = refl
  keep_calls-store (x ∷ eps) s h = elim (Option-cases (lookup x old)) [
    | inr (q, at) ↦ rw (at, keep_calls) (keep_calls-store eps (keyed s x q) h)
    | inl free ↦
        rw (free, keep_calls)
          (keep_calls-store eps (with_new s x) (omega (arith, h)) ∙ older (suc s.made == p) refl)
  ]
    where
      older : (b : Bool) → (suc s.made == p) ≡ b → (with_new s x).store p ≡ s.store p
      older b t = ground (arith, h)

  keep_calls-lookup :
      (eps : List ℕ) (s : Least)
      → lookup e s.ep_calls ≡ some p
      → lookup e (keep_calls old s eps).ep_calls ≡ some p
  unfolding keep_calls
  keep_calls-lookup [] s h = h
  keep_calls-lookup (x ∷ eps) s h = elim (Option-cases (lookup x old)) [
    | inr (q, at) ↦
        rw (at, keep_calls) (keep_calls-lookup eps (keyed s x q) (again q at (x == e) refl))
    | inl free ↦
        rw (free, keep_calls) (keep_calls-lookup eps (with_new s x) (fresh free (x == e) refl))
  ]
    where
      again :
          (q : ℕ)
          → lookup x old ≡ some q
          → (b : Bool) → (x == e) ≡ b
          → (if b then some q else lookup e s.ep_calls) ≡ some p
      again q at true t =
          let x≡e : x ≡ e = ground arith in sym at ∙ ap (λ y. lookup y old) x≡e ∙ held
      again q at false t = h

      fresh :
          lookup x old ≡ none
          → (b : Bool) → (x == e) ≡ b
          → (if b then some (suc s.made) else lookup e s.ep_calls) ≡ some p
      fresh free true t =
          let x≡e : x ≡ e = ground arith in
          let clash : none ≡ some p = sym free ∙ ap (λ y. lookup y old) x≡e ∙ held in cc
      fresh free false t = h

  keep_calls-finds :
      (eps : List ℕ) (s : Least)
      → elem e eps ≡ true
      → lookup e (keep_calls old s eps).ep_calls ≡ some p
  unfolding keep_calls elem
  keep_calls-finds [] s m = cc
  keep_calls-finds (x ∷ eps) s m = elim (Bool-cases (x == e)) [
    | inl t ↦
        let x≡e : x ≡ e = ground arith in
        let at : lookup x old ≡ some p = ap (λ y. lookup y old) x≡e ∙ held in
        rw (at, keep_calls) (keep_calls-lookup eps (keyed s x p) (ground arith))
    | inr t ↦ elim (Option-cases (lookup x old)) [
      | inr (q, at) ↦ rw (at, keep_calls) (keep_calls-finds eps (keyed s x q) (ground arith))
      | inl free ↦ rw (free, keep_calls) (keep_calls-finds eps (with_new s x) (ground arith))
    ]
  ]

-- If an endpoint has an entry, that entry was made by the balancer, and the endpoint is among those of a
-- reset, it has the same entry with the same count after it.
try_reset_endpoints-kept :
    (now : ℕ) (eps : List ℕ) (s : Least) (e p : ℕ)
    → lookup e s.ep_calls ≡ some p
    → p ≤ s.made
    → elem e eps ≡ true
    → (lookup e (try_reset_endpoints now eps s).ep_calls ≡ some p)
      × ((try_reset_endpoints now eps s).store p ≡ s.store p)
unfolding try_reset_endpoints
try_reset_endpoints-kept now eps s e p held known m =
    by (length s.eps == length eps && ltb (now - s.pre_check_time) (60 * second))
  where
    blank : Least
    blank = record s { ep_calls = [] }

    reset : Least
    reset = record (keep_calls s.ep_calls blank eps) { eps = eps; pre_check_time = now }

    by :
        (b : Bool)
        → (lookup e (if b then s else reset).ep_calls ≡ some p)
          × ((if b then s else reset).store p ≡ s.store p)
    by true = (held, refl)
    by false = (
      keep_calls-finds s.ep_calls e p held eps blank m,
      keep_calls-store s.ep_calls e p held eps blank known,
    )
