-- ===== src/Retry/Tests.antt =====
-- Runs of Retry of gokit/transport/retry.go, and the theorems at these runs.
use jkfr.Prelude.{ℕ, zero, suc, ◌≡◌, refl, none, some, [], ◌∷◌, ◌++◌, arith}
use jkfr.Retry.{
  RetryError, Attempt, no_endpoint, call_failed, answered, Retried, response, gave_up, error_text,
  attempted, retry_loop, retry,
}
use jkfr.Retry.Ends.{Ends, errors, retry-Ends, retry-error_text}

-- The first attempt fails, and the balancer has no endpoint for the second.
abbrev lacking : ℕ → Attempt ℕ ℕ
lacking zero = answered 0
lacking (suc zero) = call_failed 7
lacking (suc (suc i)) = no_endpoint 8

abbrev second_answers : ℕ → Attempt ℕ ℕ
second_answers zero = answered 0
second_answers (suc zero) = call_failed 7
second_answers (suc (suc i)) = answered 5

second_answers_run : retry 3 second_answers ≡ some (response 5)
unfolding retry retry_loop attempted
second_answers_run = refl

retry-Ends_example : (r : Retried ℕ ℕ) × (retry 3 second_answers ≡ some r) × Ends 3 second_answers r
retry-Ends_example = retry-Ends 3 second_answers

retry-error_text_example :
    (r : RetryError ℕ) × (retry 2 lacking ≡ some (gave_up r))
    × (r.raw_errors ≡ errors lacking 1 ++ 8 ∷ [])
    × (error_text r ≡ (none, errors lacking 1))
retry-error_text_example = retry-error_text lacking 2 1 8 (omega arith) refl refl
