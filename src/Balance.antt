-- ===== src/Balance.antt =====
-- The least-call balancer of gokit/utils/lb/least.go. An endpoint is a function, which the code tells
-- from others by the pointer to it; here it is a number. A pointer to an epCall is a number that a store
-- takes to its fields.
pub mod Fewest
pub mod Reset
mod Tests
use jkfr.Prelude.{
  lookup, ℕ, zero, suc, ◌+◌, ◌-◌, ◌*◌, ◌%◌, ◌^◌, Bool, true, false, ◌&&◌, Option, none, some, List,
  [], ◌∷◌, ltb, leb, ◌==◌, if◌then◌else◌, length, get_elem?, ℤ, pos, negsuc, ◌+ℤ◌, ltb_ℤ,
}
use jkfr.Pool.Options.{second}
use jkfr.Pool.Clients.{max_int64}
use jkfr.Grpc.Pick.{is_zero}

pub record EpCall : Type 0 where
  pub ep : ℕ
  pub call : ℤ

-- `made` counts the epCalls made, which gives the next its pointer.
pub record Least : Type 0 where
  pub store : ℕ → EpCall
  pub made : ℕ
  pub ep_calls : List (ℕ × ℕ)
  pub eps : List ℕ
  pub pre_check_time : ℕ

-- `epCalls[key] = epc`: the latest entry of a key counts.
abbrev pub keyed : Least → ℕ → ℕ → Least
keyed s ep p = record s { ep_calls = (ep, p) ∷ s.ep_calls }

-- `&epCall{ep: ep}`, put into the map
abbrev pub with_new : Least → ℕ → Least
with_new s ep = record s {
  store = λ p. if p == suc s.made then record { ep = ep; call = pos 0 } else s.store p;
  made = suc s.made;
  ep_calls = (ep, suc s.made) ∷ s.ep_calls;
}

-- The loop of try_reset_endpoints, which finds in the old map what it puts into the new one.
unfoldable pub keep_calls : List (ℕ × ℕ) → Least → List ℕ → Least
keep_calls old s [] = s
keep_calls old s (ep ∷ eps) = elim (lookup ep old) [
  | some p ↦ keep_calls old (keyed s ep p) eps
  | none ↦ keep_calls old (with_new s ep) eps
]

-- try_reset_endpoints; the second test, under the write lock, is the same as the first.
unfoldable pub try_reset_endpoints : ℕ → List ℕ → Least → Least
try_reset_endpoints now eps s =
    if length s.eps == length eps && ltb (now - s.pre_check_time) (60 * second)
    then s
    else record (keep_calls s.ep_calls (record s { ep_calls = [] }) eps) {
      eps = eps;
      pre_check_time = now;
    }

-- The index of round `i` from the drawn number `bg` on, which is an int64: a sum that overflows is
-- negative, and so is its remainder, unless that is 0. A negative index panics.
abbrev pub round_index : ℕ → ℕ → ℕ → Option ℕ
round_index bg n i =
    if ltb (bg + i) (2 ^ 63)
    then some ((bg + i) % n)
    else if (2 ^ 64 - (bg + i)) % n == 0
    then some 0
    else none

abbrev pub ep_at : List ℕ → Option ℕ → Option ℕ
ep_at eps none = none
ep_at eps (some i) = get_elem? eps i

-- What choosing comes to: an epCall, a nil pointer, or a panic.
pub data Took : Type 0 where
  took : ℕ → Took
  nobody panicked : Took

abbrev pub taken : Option ℕ → Took
taken none = nobody
taken (some p) = took p

-- The loops of get_least_when_less and get_least_when_bigger from round `i` on, with `n` rounds to go,
-- where `pick` gives the endpoint of a round, or none where indexing panics.
unfoldable pub least_from : ℕ → (ℕ → Option ℕ) → ℕ → ℤ → Option ℕ → Least → Least × Took
least_from zero pick i min tmp s = (s, taken tmp)
least_from (suc n) pick i min tmp s = elim (pick i) [
  | none ↦ (s, panicked)
  | some ep ↦ elim (lookup ep s.ep_calls) [
    | none ↦ (with_new s ep, took (suc s.made))
    | some p ↦
        let c = (s.store p).call in
        let rest =
          least_from n pick (i + 1) (if ltb_ℤ c min then c else min)
            (if ltb_ℤ c min then some p else tmp) s in
        if is_zero c then (s, took p) else rest
  ]
]

-- get_least_when_less
unfoldable pub fewest_when_less : ℕ → List ℕ → Least → Least × Took
fewest_when_less bg eps s =
    least_from (length eps) (λ i. ep_at eps (round_index bg (length eps) i)) 0 max_int64 none s

-- get_least_when_bigger
unfoldable pub fewest_when_bigger : (ℕ → ℕ) → List ℕ → Least → Least × Took
fewest_when_bigger draw eps s =
    least_from 10 (λ i. get_elem? eps (draw i % length eps)) 0 max_int64 none s

-- get_least, where `draw` gives the numbers that jkrand.Int draws.
unfoldable pub get_fewest : (ℕ → ℕ) → List ℕ → Least → Least × Took
get_fewest draw eps s =
    if leb (length eps) 20 then fewest_when_less (draw 0) eps s else fewest_when_bigger draw eps s

-- What Endpoint returns: an error of the source of endpoints, ErrNoEndpoints, or what was chosen.
pub data Offered : Type 0 where
  source_error no_endpoints : Offered
  offered : Took → Offered

-- Endpoint; the source's answer is none for an error.
unfoldable pub endpoint : ℕ → (ℕ → ℕ) → Option (List ℕ) → Least → Least × Offered
endpoint now draw none s = (s, source_error)
endpoint now draw (some []) s = (s, no_endpoints)
endpoint now draw (some (ep ∷ eps)) s =
    let (s', t) = get_fewest draw (ep ∷ eps) (try_reset_endpoints now (ep ∷ eps) s) in
    (s', offered t)

abbrev pub call_counted : ℤ → ℕ → Least → Least
call_counted d p s = record s {
  store = λ q. if p == q then record (s.store p) { call = (s.store p).call +ℤ d } else s.store q;
}

-- The function that Endpoint returns, where `answer` is what the endpoint of an epCall answers.
unfoldable pub run_offered {ℓ} : {A : Type ℓ} → (ℕ → A) → ℕ → Least → Least × A
run_offered answer p s =
    (call_counted (negsuc 0) p (call_counted (pos 1) p s), answer (s.store p).ep)
