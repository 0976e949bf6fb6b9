-- ===== src/Balance/Tests.antt =====
-- Runs of the balancer of gokit/utils/lb/least.go over three endpoints, and the theorems at these runs.
use jkfr.Prelude.{
  ℕ, ◌-◌, ◌*◌, ◌^◌, ◌≡◌, refl, true, List, [], ◌∷◌, arith, ◌==◌, if◌then◌else◌, elem, pos, ◌≤ℤ◌,
  ltb_ℤ,
}
use jkfr.Pool.Clients.{max_int64}
use jkfr.Balance.{
  Least, keep_calls, try_reset_endpoints, least_from, fewest_when_less, panicked, took,
}
use jkfr.Balance.Fewest.{IsFewest, fewest_when_less-IsFewest}

abbrev eps : List ℕ
eps = 10 ∷ 20 ∷ 30 ∷ []

-- The endpoint 20 has one call running, and the others two.
abbrev busy : Least
busy = record {
  store = λ p. record { ep = p * 10; call = if p == 2 then pos 1 else pos 2 };
  made = 3;
  ep_calls = (10, 1) ∷ (20, 2) ∷ (30, 3) ∷ [];
  eps = eps;
  pre_check_time = 0;
}

what_runs : Unit {0}
unfolding least_from fewest_when_less keep_calls try_reset_endpoints elem
what_runs = tt

second_taken : (fewest_when_less 2 eps busy).1 ≡ took 2
unfolding what_runs
second_taken = refl

-- The drawn number is the greatest int63, so the second index is negative.
overflow : (fewest_when_less (2 ^ 63 - 1) eps busy).1 ≡ panicked
unfolding what_runs
overflow = refl

busy_low : (q : ℕ) → pos 0 ≤ℤ (busy.store q).call
busy_low q = ground arith

busy_high : (q : ℕ) → ltb_ℤ (busy.store q).call max_int64 ≡ true
busy_high q = ground arith

fewest_when_less-IsFewest_example : IsFewest eps busy (fewest_when_less 2 eps busy)
fewest_when_less-IsFewest_example =
    fewest_when_less-IsFewest 2 eps busy (omega arith) (omega arith) busy_low busy_high
