-- ===== src/Retry.antt =====
-- Retry of gokit/transport/retry.go: calls to the endpoints that a balancer picks, until one succeeds.
-- A negative `max` is treated as 0 is. The callback type is used by nothing.
pub mod Ends
mod Tests
use jkfr.Prelude.{ℕ, zero, suc, ◌+◌, Option, none, some, List, [], ◌∷◌, ◌++◌, ltb, if◌then◌else◌}

-- RetryError
pub record RetryError {ℓ} (E : Type ℓ) : Type ℓ where
  pub raw_errors : List E
  pub final : Option E

-- What one attempt comes to: the balancer has no endpoint, or the endpoint fails or answers.
pub data Attempt {ℓ} (A E : Type ℓ) : Type ℓ where
  no_endpoint call_failed : E → Attempt A E
  answered : A → Attempt A E

pub data Retried {ℓ} (A E : Type ℓ) : Type ℓ where
  response : A → Retried A E
  gave_up : RetryError E → Retried A E

-- The elements before the last, which is taken to be the final error.
abbrev pub previous {ℓ} : {E : Type ℓ} → List E → List E
previous [] = []
previous (e ∷ []) = []
previous (e ∷ f ∷ es) = e ∷ previous (f ∷ es)

-- Error: the errors that the text names, the final one and those listed as `previously`.
abbrev pub error_text {ℓ} : {E : Type ℓ} → RetryError E → Option E × List E
error_text r = (r.final, previous r.raw_errors)

-- The loop's body at attempt `i`, with the errors so far.
unfoldable pub attempted {ℓ} :
    {A E : Type ℓ}
    → ℕ
    → ℕ
    → List E
    → (List E → Option (Retried A E))
    → Attempt A E
    → Option (Retried A E)
attempted max i raw again (no_endpoint e) =
    if ltb i max
    then again (raw ++ e ∷ [])
    else some (gave_up (record { raw_errors = raw ++ e ∷ []; final = none }))
attempted max i raw again (call_failed e) =
    if ltb i max
    then again (raw ++ e ∷ [])
    else some (gave_up (record { raw_errors = raw ++ e ∷ []; final = some e }))
attempted max i raw again (answered a) = some (response a)

-- The loop from attempt `i` on, where `b i` is what attempt `i` comes to; none means that the fuel ran
-- out.
unfoldable pub retry_loop {ℓ} :
    {A E : Type ℓ} → ℕ → ℕ → (ℕ → Attempt A E) → ℕ → List E → Option (Retried A E)
retry_loop zero max b i raw = none
retry_loop (suc fuel) max b i raw = attempted max i raw (retry_loop fuel max b (suc i)) (b i)

-- RetryWithCallback
unfoldable pub retry {ℓ} : {A E : Type ℓ} → ℕ → (ℕ → Attempt A E) → Option (Retried A E)
retry max b = retry_loop (suc max) max b 1 []
