-- ===== src/Retry/Ends.antt =====
-- Retry of gokit/transport/retry.go ends, with the first answer or with all errors.
use jkfr.Prelude.{
  ℕ, zero, suc, ◌+◌, max, ◌≤◌, ◌<◌, ◌≡◌, refl, sym, ap, subst, ◌∙◌, inl, inr, Bool, true, false,
  Option, none, some, List, [], ◌∷◌, ◌++◌, arith, ltb, if◌then◌else◌, length, length-append,
  Bool-cases,
}
use jkfr.Retry.{
  RetryError, Attempt, no_endpoint, call_failed, answered, Retried, response, gave_up, previous,
  error_text, attempted, retry_loop, retry,
}

abbrev pub error_of {ℓ} : {A E : Type ℓ} → Attempt A E → List E
error_of (no_endpoint e) = e ∷ []
error_of (call_failed e) = e ∷ []
error_of (answered a) = []

-- What the final error should be: that of the call, if there was one.
abbrev pub final_of {ℓ} : {A E : Type ℓ} → Attempt A E → Option E
final_of (no_endpoint e) = none
final_of (call_failed e) = some e
final_of (answered a) = none

-- The errors of the first `n` attempts, in their order.
abbrev pub errors {ℓ} : {A E : Type ℓ} → (ℕ → Attempt A E) → ℕ → List E
errors b zero = []
errors b (suc n) = errors b n ++ error_of (b (suc n))

-- The first `n` attempts fail.
abbrev pub AllFail {ℓ} : {A E : Type ℓ} → (ℕ → Attempt A E) → ℕ → Type 0
AllFail b n = length (errors b n) ≡ n

-- How Retry may end.
pub data Ends {ℓ} {A E : Type ℓ} (limit : ℕ) (b : ℕ → Attempt A E) : Retried A E → Type ℓ where
  -- after `n` failures, fewer than may be made, an attempt is answered
  first_answer :
      (n : ℕ) (a : A)
      → n < max 1 limit
      → AllFail b n
      → b (suc n) ≡ answered a
      → Ends limit b (response a)
  -- all attempts fail
  all_errors :
      AllFail b (max 1 limit)
      → Ends limit b (
          gave_up
            (record { raw_errors = errors b (max 1 limit); final = final_of (b (max 1 limit)) }))

module _ {ℓ} {A E : Type ℓ} (limit : ℕ) (b : ℕ → Attempt A E) where
  retry_loop-Ends :
      (fuel n : ℕ)
      → AllFail b n
      → n < max 1 limit
      → max 1 limit ≤ n + fuel
      → (r : Retried A E) × (retry_loop fuel limit b (suc n) (errors b n) ≡ some r) × Ends limit b r
  unfolding retry_loop attempted
  retry_loop-Ends zero n f lo hi = absurd (omega (arith, lo, hi))
  retry_loop-Ends (suc fuel) n f lo hi =
      by (b (suc n)) refl (λ g more. retry_loop-Ends fuel (suc n) g more (omega (arith, hi)))
    where
      next : List E → Option (Retried A E)
      next = retry_loop fuel limit b (suc (suc n))

      one_more : (x : Attempt A E) → b (suc n) ≡ x → length (error_of x) ≡ 1 → AllFail b (suc n)
      one_more x e l =
          length-append (errors b n) (error_of (b (suc n)))
          ∙ omega (arith, f, ap (λ y. length (error_of y)) e, l)

      last :
          (x : Attempt A E)
          → b (suc n) ≡ x
          → length (error_of x) ≡ 1
          → limit ≤ suc n
          → Ends limit b
              (gave_up (record { raw_errors = errors b n ++ error_of x; final = final_of x }))
      last x e l top =
          let whole : max 1 limit ≡ suc n = omega (arith, lo, top) in
          let g = one_more x e l in
          let ended : Ends limit b (
              gave_up (record {
                raw_errors = errors b (max 1 limit);
                final = final_of (b (max 1 limit));
              })) =
            all_errors (subst (AllFail b) (sym whole) g) in
          subst
            (λ y.
              Ends limit b
                (gave_up (record { raw_errors = errors b n ++ error_of y; final = final_of y })))
            e
            (subst
              (λ k.
                Ends limit b (gave_up (record { raw_errors = errors b k; final = final_of (b k) })))
              whole ended)

      by :
          (x : Attempt A E)
          → b (suc n) ≡ x
          → (AllFail b (suc n)
              → suc n < max 1 limit
              → (r : Retried A E) × (next (errors b (suc n)) ≡ some r) × Ends limit b r)
          → (r : Retried A E) × (attempted limit (suc n) (errors b n) next x ≡ some r)
            × Ends limit b r
      by (answered a) e more = (response a, refl, first_answer n a lo f e)
      by (no_endpoint x) e more = branch (ltb (suc n) limit) refl
        where
          branch :
              (c : Bool)
              → ltb (suc n) limit ≡ c
              → (r : Retried A E) × ((if c
                    then next (errors b n ++ x ∷ [])
                    else some
                        (gave_up (record { raw_errors = errors b n ++ x ∷ []; final = none })))
                  ≡ some r)
                × Ends limit b r
          branch true t =
              let (r, ran, end) = more (one_more (no_endpoint x) e refl) (ground arith) in
              (r, sym (ap (λ y. next (errors b n ++ error_of y)) e) ∙ ran, end)
          branch false t = (gave_up _, refl, last (no_endpoint x) e refl (ground arith))
      by (call_failed x) e more = branch (ltb (suc n) limit) refl
        where
          branch :
              (c : Bool)
              → ltb (suc n) limit ≡ c
              → (r : Retried A E) × ((if c
                    then next (errors b n ++ x ∷ [])
                    else some
                        (gave_up (record { raw_errors = errors b n ++ x ∷ []; final = some x })))
                  ≡ some r)
                × Ends limit b r
          branch true t =
              let (r, ran, end) = more (one_more (call_failed x) e refl) (ground arith) in
              (r, sym (ap (λ y. next (errors b n ++ error_of y)) e) ∙ ran, end)
          branch false t = (gave_up _, refl, last (call_failed x) e refl (ground arith))

  -- Retry ends. It returns the answer of the first attempt that has one, or, after `max` failures, at
  -- least one, all errors in their order, with the last as the final one if the endpoint returned it.
  pub retry-Ends : (r : Retried A E) × (retry limit b ≡ some r) × Ends limit b r
  unfolding retry
  retry-Ends = retry_loop-Ends (suc limit) 0 refl (omega arith) (omega arith)

previous-append {ℓ} : {E : Type ℓ} (es : List E) (e : E) → previous (es ++ e ∷ []) ≡ es
previous-append [] e = refl
previous-append (x ∷ []) e = refl
previous-append (x ∷ y ∷ es) e = ap (λ zs. x ∷ zs) (previous-append (y ∷ es) e)

module _ {ℓ} {A E : Type ℓ} (b : ℕ → Attempt A E) where
  error_of-le : (x : Attempt A E) → length (error_of x) ≤ 1
  error_of-le (no_endpoint e) = omega arith
  error_of-le (call_failed e) = omega arith
  error_of-le (answered a) = omega arith

  errors-le : (n : ℕ) → length (errors b n) ≤ n
  errors-le zero = omega arith
  errors-le (suc n) = omega (
    arith,
    length-append (errors b n) (error_of (b (suc n))),
    errors-le n,
    error_of-le (b (suc n)),
  )

  AllFail-at : (n m : ℕ) → n < m → AllFail b m → length (error_of (b (suc n))) ≡ 1
  AllFail-at n zero lt f = absurd (omega (arith, lt))
  AllFail-at n (suc m) lt f =
      let sum = length-append (errors b m) (error_of (b (suc m))) in
      let before : AllFail b m = omega (arith, sum, f, errors-le m, error_of-le (b (suc m))) in
      elim (Bool-cases (ltb n m)) [
        | inl l ↦ AllFail-at n m (ground arith) before
        | inr l ↦
            let n≡m : n ≡ m = ground (arith, lt) in
            subst (λ k. length (error_of (b (suc k))) ≡ 1) (sym n≡m) (omega (arith, sum, f, before))
      ]

  -- If all attempts that Retry makes fail, and for the last of them the balancer has no endpoint, Retry
  -- returns all errors, but the text of its error names no final error, and of the others all but
  -- the last.
  pub retry-error_text :
      (limit n : ℕ) (e : E)
      → max 1 limit ≡ suc n
      → AllFail b (suc n)
      → b (suc n) ≡ no_endpoint e
      → (r : RetryError E) × (retry limit b ≡ some (gave_up r))
        × (r.raw_errors ≡ errors b n ++ e ∷ [])
        × (error_text r ≡ (none, errors b n))
  retry-error_text limit n e whole f lacks = by (retry-Ends limit b)
    where
      named : (es : List E) → es ≡ errors b n ++ e ∷ [] → previous es ≡ errors b n
      named es q = ap (λ (ys : List E). previous ys) q ∙ previous-append (errors b n) e

      all : (errors b (max 1 limit) ≡ errors b n ++ e ∷ []) × (final_of (b (max 1 limit)) ≡ none)
      all = (
        ap (λ k. errors b k) whole ∙ ap (λ x. errors b n ++ error_of x) lacks,
        ap (λ k. final_of (b k)) whole ∙ ap (λ x. final_of x) lacks,
      )

      by :
          (r : Retried A E) × (retry limit b ≡ some r) × Ends limit b r
          → (r : RetryError E) × (retry limit b ≡ some (gave_up r))
            × (r.raw_errors ≡ errors b n ++ e ∷ [])
            × (error_text r ≡ (none, errors b n))
      by (r, ran, first_answer k a lt g at) = absurd (
          omega (
            arith,
            AllFail-at k (suc n) (omega (arith, lt, whole)) f,
            ap (λ x. length (error_of x)) at,
          ))
      by (r, ran, all_errors g) = (
        _,
        ran,
        all.0,
        ap (λ p. (p, previous (errors b (max 1 limit)))) all.1
            ∙ ap (λ q. (none, q)) (named _ all.0),
      )
