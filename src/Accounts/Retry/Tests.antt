-- ===== src/Accounts/Retry/Tests.antt =====
-- Runs of `retry` on concrete outcomes.
use fuels_rs.Prelude.{ℕ, ◌+◌, ◌*◌, ◌%◌, ◌^◌, ◌≤◌, ◌≡◌, refl, arith, Bool, ltb}
use fuels_rs.Errors.{ok, err, other, max_attempts_zero}
use fuels_rs.Accounts.Retry.{
  linear, exponential, wait_duration, RetryConfig, new_retry_config, run_of, retry,
}
use fuels_rs.Accounts.Retry.Attempts.{Fail, waits_from, retry-stop, retry-last}

no_attempts : new_retry_config 0 (linear 5) ≡ err (other max_attempts_zero)
unfolding new_retry_config
no_attempts = refl

-- The factor of the exponential strategy wraps to 0 at the 33rd attempt.
exponential_wraps : wait_duration (exponential 5) 32 ≡ ok 0
unfolding wait_duration
exponential_wraps = refl

abbrev config : RetryConfig
config = record { max_attempts = 3; interval = linear 5 }

abbrev wait_of : ℕ → ℕ
wait_of i = 5 * ((i + 1) % 2 ^ 32)

-- Results below 12 are to be retried.
abbrev too_small : ℕ → Bool
too_small t = ltb t 12

fails : (n : ℕ) → n ≤ 2 → Fail (λ i. i + 10) (linear 5) too_small wait_of 0 n
unfolding wait_duration
fails n le i lo hi = (ground arith, ground arith)

retry-stop_example : retry (λ i. i + 10) config too_small ≡ ok (run_of 12 (waits_from wait_of 0 2))
retry-stop_example =
    retry-stop (λ i. i + 10) config too_small wait_of 2 (fails 2 (omega arith)) (omega arith) refl

always_fails : Fail (λ i. i) (linear 5) (λ t. ltb t 12) wait_of 0 3
unfolding wait_duration
always_fails i lo hi = (ground arith, ground arith)

retry-last_example : retry (λ i. i) config too_small ≡ ok (run_of 2 (waits_from wait_of 0 3))
retry-last_example = retry-last (λ i. i) config too_small wait_of 2 refl always_fails
