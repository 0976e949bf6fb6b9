-- ===== src/Balance/Fewest.antt =====
-- The balancer of gokit/utils/lb/least.go offers an endpoint with the fewest running calls.
use jkfr.Prelude.{
  lookup, ℕ, zero, suc, ◌+◌, ◌%◌, ◌^◌, ◌≤◌, ◌<◌, ◌≡◌, refl, sym, ap, subst, ◌∙◌, Bool, true, false,
  Option, none, some, List, [], ◌∷◌, arith, ltb, ◌==◌, if◌then◌else◌, length, get_elem?,
  get_elem?-some, get_elem?-lt, get_elem?-elem, elem-get_elem?, elem, lt→ltb, ℤ, pos, negsuc, ltb_ℤ,
  ◌≤ℤ◌,
}
use native.Mathlib.Nat.{mod-lt}
use jkfr.Pool.Clients.{max_int64}
use jkfr.Grpc.Pick.{is_zero}
use jkfr.Grpc.Ready.{round_meets}
use jkfr.Balance.{Least, with_new, round_index, ep_at, Took, took, least_from, fewest_when_less}

-- The choice of an entry among those of the `n` rounds from `i` on: that of an endpoint that is new, or
-- one whose count is at most `bound` and at most that of every entry.
pub data Choice (n : ℕ) (pick : ℕ → Option ℕ) (i : ℕ) (s : Least) (bound : ℤ)
    : Least × Took → Type 0 where
  fresh :
      (k ep : ℕ)
      → pick k ≡ some ep
      → lookup ep s.ep_calls ≡ none
      → Choice n pick i s bound (with_new s ep, took (suc s.made))
  least :
      (k ep p : ℕ)
      → pick k ≡ some ep
      → lookup ep s.ep_calls ≡ some p
      → (s.store p).call ≤ℤ bound
      → ((j e q : ℕ)
          → i ≤ j
          → j < i + n
          → pick j ≡ some e
          → lookup e s.ep_calls ≡ some q
          → (s.store p).call ≤ℤ (s.store q).call)
      → Choice n pick i s bound (s, took p)

is_zero-least : (z : ℤ) → is_zero z ≡ true → z ≤ℤ pos 0
is_zero-least (pos n) e = ground arith
is_zero-least (negsuc n) e = cc

module _ (pick : ℕ → Option ℕ) (s : Least) where
  -- A round before the others, whose entry is no less than the bound of the others.
  earlier :
      (n i e q : ℕ) (b bound : ℤ) (r : Least × Took)
      → pick i ≡ some e
      → lookup e s.ep_calls ≡ some q
      → b ≤ℤ bound
      → b ≤ℤ (s.store q).call
      → Choice n pick (i + 1) s b r
      → Choice (suc n) pick i s bound r
  earlier n i e q b bound _ at held below first (fresh k ep p h) = fresh k ep p h
  earlier n i e q b bound _ at held below first (least k ep p a h l every) =
      least k ep p a h (omega (arith, l, below))
        (λ j e' q' lo hi a' h'. by j e' q' lo hi a' h' (i == j) refl)
    where
      by :
          (j e' q' : ℕ)
          → i ≤ j
          → j < i + suc n
          → pick j ≡ some e'
          → lookup e' s.ep_calls ≡ some q'
          → (b : Bool) → (i == j) ≡ b
          → (s.store p).call ≤ℤ (s.store q').call
      by j e' q' lo hi a' h' false t = every j e' q' (ground arith) (omega (arith, hi)) a' h'
      by j e' q' lo hi a' h' true t =
          let i≡j : i ≡ j = ground arith in
          let some_e : some e ≡ some e' = sym at ∙ ap pick i≡j ∙ a' in
          let e≡e' : e ≡ e' = cc in
          let some_q : some q ≡ some q' = sym held ∙ ap (λ x. lookup x s.ep_calls) e≡e' ∙ h' in
          let q≡q' : q ≡ q' = cc in
          subst (λ x. (s.store p).call ≤ℤ (s.store x).call) q≡q' (omega (arith, l, first))

  module _ (low : (q : ℕ) → pos 0 ≤ℤ (s.store q).call) where
    -- A round that finds no call running, or an endpoint without an entry, is the last.
    round-Choice :
        (n i e : ℕ) (bound : ℤ) (next : ℕ → Least × Took) (o : Option ℕ)
        → pos 0 ≤ℤ bound
        → pick i ≡ some e
        → lookup e s.ep_calls ≡ o
        → ((q : ℕ) → lookup e s.ep_calls ≡ some q → Choice (suc n) pick i s bound (next q))
        → Choice (suc n) pick i s bound (elim o as (λ x. Least × Took) [
          | none ↦ (with_new s e, took (suc s.made))
          | some p ↦ if is_zero (s.store p).call then (s, took p) else next p
        ])
    round-Choice n i e bound next none b at held others = fresh i e at held
    round-Choice n i e bound next (some p) b at held others = by (is_zero (s.store p).call) refl
      where
        by :
            (z : Bool)
            → is_zero (s.store p).call ≡ z
            → Choice (suc n) pick i s bound (if z then (s, took p) else next p)
        by true t =
            let zero_calls = is_zero-least (s.store p).call t in
            least i e p at held (omega (arith, zero_calls, b))
              (λ j e' q lo hi a h. omega (arith, zero_calls, low q))
        by false t = others p held

    -- From an entry on that has been found, with the least count so far.
    least_from-Choice :
        (n i k ep p : ℕ)
        → ((j : ℕ) → i ≤ j → j < i + n → (e : ℕ) × (pick j ≡ some e))
        → pick k ≡ some ep
        → lookup ep s.ep_calls ≡ some p
        → Choice n pick i s (s.store p).call (least_from n pick i (s.store p).call (some p) s)
    unfolding least_from
    least_from-Choice zero i k ep p ok at held =
        least k ep p at held (omega arith) (λ j e q lo hi a h. absurd (omega (arith, lo, hi)))
    least_from-Choice (suc n) i k ep p ok at held =
        let (e, there) = ok i (omega arith) (omega arith) in
        rw (there, least_from)
          (round-Choice n i e (s.store p).call _ (lookup e s.ep_calls) (low p) there refl (λ q h.
            better e q there h (ltb_ℤ (s.store q).call (s.store p).call) refl
              (least_from-Choice n (i + 1) i e q (λ j lo hi. ok j (omega arith) (omega (arith, hi)))
                there h)
              (least_from-Choice n (i + 1) k ep p
                (λ j lo hi. ok j (omega arith) (omega (arith, hi))) at held)))
      where
        better :
            (e q : ℕ)
            → pick i ≡ some e
            → lookup e s.ep_calls ≡ some q
            → (b : Bool) → ltb_ℤ (s.store q).call (s.store p).call ≡ b
            → Choice n pick
                (i + 1)
                s
                (s.store q).call
                (least_from n pick (i + 1) (s.store q).call (some q) s)
            → Choice n pick
                (i + 1)
                s
                (s.store p).call
                (least_from n pick (i + 1) (s.store p).call (some p) s)
            → Choice (suc n) pick i s (s.store p).call (
                least_from n pick
                  (i + 1)
                  (if b then (s.store q).call else (s.store p).call)
                  (if b then some q else some p)
                  s)
        better e q there h true t new old =
            earlier n i e q (s.store q).call (s.store p).call _ there h (ground arith) (omega arith)
              new
        better e q there h false t new old =
            earlier n i e q (s.store p).call (s.store p).call _ there h (omega arith) (ground arith)
              old

    -- From the first round on, nothing has been found.
    first_round-Choice :
        (n : ℕ)
        → ((q : ℕ) → ltb_ℤ (s.store q).call max_int64 ≡ true)
        → ((j : ℕ) → j < suc n → (e : ℕ) × (pick j ≡ some e))
        → Choice (suc n) pick 0 s max_int64 (least_from (suc n) pick 0 max_int64 none s)
    unfolding least_from
    first_round-Choice n high ok =
        let (e, there) = ok 0 (omega arith) in
        rw (there, least_from)
          (round-Choice n 0 e max_int64 _ (lookup e s.ep_calls) (omega arith) there refl (λ q h.
            found e q there h (ltb_ℤ (s.store q).call max_int64) (high q)
              (least_from-Choice n (0 + 1) 0 e q (λ j lo hi. ok j (omega (arith, hi))) there h)))
      where
        bounded : (c : ℤ) → ltb_ℤ c max_int64 ≡ true → c ≤ℤ max_int64
        bounded c e = ground arith

        found :
            (e q : ℕ)
            → pick 0 ≡ some e
            → lookup e s.ep_calls ≡ some q
            → (b : Bool) → b ≡ true
            → Choice n pick
                (0 + 1)
                s
                (s.store q).call
                (least_from n pick (0 + 1) (s.store q).call (some q) s)
            → Choice (suc n) pick 0 s max_int64 (
                least_from n pick
                  (0 + 1)
                  (if b then (s.store q).call else max_int64)
                  (if b then some q else none)
                  s)
        found e q there h false t new = cc
        found e q there h true t new =
            earlier n 0 e q (s.store q).call max_int64 _ there h (bounded (s.store q).call (high q))
              (omega arith) new

-- What choosing among the endpoints `eps` should come to: a new entry for an endpoint that has none, or
-- the entry of an endpoint whose count is at most that of the entries of all endpoints.
pub data IsFewest (eps : List ℕ) (s : Least) : Least × Took → Type 0 where
  unknown :
      (ep : ℕ)
      → elem ep eps ≡ true
      → lookup ep s.ep_calls ≡ none
      → IsFewest eps s (with_new s ep, took (suc s.made))
  fewest :
      (ep p : ℕ)
      → elem ep eps ≡ true
      → lookup ep s.ep_calls ≡ some p
      → ((e q : ℕ)
          → elem e eps ≡ true
          → lookup e s.ep_calls ≡ some q
          → (s.store p).call ≤ℤ (s.store q).call)
      → IsFewest eps s (s, took p)

module _ (bg : ℕ) (eps : List ℕ) (s : Least) (drawn : bg + length eps ≤ 2 ^ 63) where
  abbrev round_ep : ℕ → Option ℕ
  round_ep i = ep_at eps (round_index bg (length eps) i)

  round_ep-at : (i : ℕ) → i < length eps → round_ep i ≡ get_elem? eps ((bg + i) % length eps)
  round_ep-at i lt =
      let small : ltb (bg + i) (2 ^ 63) ≡ true = lt→ltb _ _ (omega (arith, lt, drawn)) in
      rw small refl

  round_ep-elem : (i e : ℕ) → round_ep i ≡ some e → elem e eps ≡ true
  round_ep-elem i e h = by (round_index bg (length eps) i) h
    where
      by : (o : Option ℕ) → ep_at eps o ≡ some e → elem e eps ≡ true
      by none q = cc
      by (some j) q = get_elem?-elem eps j e q

  Choice-IsFewest :
      (r : Least × Took) → Choice (length eps) round_ep 0 s max_int64 r → IsFewest eps s r
  Choice-IsFewest _ (fresh k ep at none_held) = unknown ep (round_ep-elem k ep at) none_held
  Choice-IsFewest _ (least k ep p at held b every) =
      fewest ep p (round_ep-elem k ep at) held (λ e q m h.
        let (j, there) = elem-get_elem? e eps m in
        let (i, lt, meets) = round_meets (length eps) bg j (get_elem?-lt eps j e there) in
        every i e q (omega arith) (omega (arith, lt))
          (round_ep-at i lt ∙ ap (λ x. get_elem? eps x) meets ∙ there) h)

-- Among one endpoint or more, and with a drawn number from which counting through them does not
-- overflow an int64, where no count is negative or the greatest int64, get_least_when_less offers
-- an endpoint that has no count yet, or one with the least count of all.
pub fewest_when_less-IsFewest :
    (bg : ℕ) (eps : List ℕ) (s : Least)
    → 0 < length eps
    → bg + length eps ≤ 2 ^ 63
    → ((q : ℕ) → pos 0 ≤ℤ (s.store q).call)
    → ((q : ℕ) → ltb_ℤ (s.store q).call max_int64 ≡ true)
    → IsFewest eps s (fewest_when_less bg eps s)
unfolding fewest_when_less
fewest_when_less-IsFewest bg [] s l drawn low high = absurd (omega (arith, l))
fewest_when_less-IsFewest bg (x ∷ xs) s l drawn low high = Choice-IsFewest bg (x ∷ xs) s drawn _ (
    first_round-Choice (round_ep bg (x ∷ xs) s drawn) s low (length xs) high (λ j lt.
      let (e, there) =
        get_elem?-some (x ∷ xs) ((bg + j) % length (x ∷ xs))
          (mod-lt (bg + j) {m = length (x ∷ xs)} l) in
      (e, round_ep-at bg (x ∷ xs) s drawn j lt ∙ there)))
