-- ===== src/Accounts/Retry.antt =====
-- fuels-accounts/src/provider/retry_util.rs: how often an action is retried and how long to wait. A
-- duration is a number of nanoseconds, and u32 arithmetic wraps as in a release build.
pub mod Attempts
mod Tests
use fuels_rs.Prelude.{
  ℕ, zero, suc, ◌+◌, ◌*◌, ◌%◌, ◌^◌, ltb, ◌==◌, if◌then◌else◌, Bool, Option, none, some, List, [],
  ◌∷◌, ◌++◌,
}
use fuels_rs.Errors.{Result, ok, err, panic, ◌>>=◌, other, max_attempts_zero}

pub data Backoff : Type 0 where
  linear exponential fixed : ℕ → Backoff

-- The first duration that is out of range: 2^64 seconds.
abbrev pub duration_limit : ℕ
duration_limit = 2 ^ 64 * 1000000000

-- `Duration * u32` panics on overflow.
unfoldable pub duration_mul : ℕ → ℕ → Result ℕ
duration_mul duration factor =
    if ltb (duration * factor) duration_limit then ok (duration * factor) else panic

unfoldable pub wait_duration : Backoff → ℕ → Result ℕ
unfolding duration_mul
wait_duration (linear base_duration) attempt = duration_mul base_duration ((attempt + 1) % 2 ^ 32)
wait_duration (exponential base_duration) attempt =
    duration_mul base_duration (2 ^ attempt % 2 ^ 32)
wait_duration (fixed interval) attempt = ok interval

pub record RetryConfig : Type 0 where
  pub max_attempts : ℕ
  pub interval : Backoff

-- `RetryConfig::new`
unfoldable pub new_retry_config : ℕ → Backoff → Result RetryConfig
new_retry_config max_attempts interval =
    if max_attempts == 0
    then err (other max_attempts_zero)
    else ok (record { max_attempts = max_attempts; interval = interval })

-- `Backoff::default` and `RetryConfig::default`.
abbrev pub default_backoff : Backoff
default_backoff = linear 10000000

abbrev pub default_retry_config : RetryConfig
default_retry_config = record { max_attempts = 1; interval = default_backoff }

-- What a run of `retry` returns, and the waits after its calls of the action.
pub record Run (T : Type 0) : Type 0 where
  pub result : T
  pub waits : List ℕ

abbrev pub run_of : {T : Type 0} → T → List ℕ → Run T
run_of t ws = record { result = t; waits = ws }

-- `action i` is what call `i` of the action comes to.
module _ {T : Type 0} (action : ℕ → T) (interval : Backoff) (should_retry : T → Bool) where
  -- The loop, with the attempts that remain.
  unfoldable pub retry_loop : ℕ → ℕ → Option T → List ℕ → Result (Run T)
  unfolding wait_duration
  retry_loop zero attempt none waits = panic
  retry_loop zero attempt (some last_result) waits = ok (run_of last_result waits)
  retry_loop (suc remaining) attempt last waits =
      let result = action attempt in
      if should_retry result
      then (wait_duration interval attempt >>= λ wait.
          retry_loop remaining (attempt + 1) (some result) (waits ++ (wait ∷ [])))
      else ok (run_of result waits)

unfoldable pub retry : {T : Type 0} → (ℕ → T) → RetryConfig → (T → Bool) → Result (Run T)
unfolding retry_loop
retry action config should_retry =
    retry_loop action config.interval should_retry config.max_attempts 0 none []
