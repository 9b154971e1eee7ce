-- ===== src/Accounts/Retry/Attempts.antt =====
-- Which attempt `retry` ends with.
use native.Mathlib.Nat.{zero-add, add-zero}
use fuels_rs.Prelude.{
  ℕ, zero, suc, ◌+◌, ◌≤◌, ◌<◌, ◌≡◌, ap, sym, ◌∙◌, arith, Bool, true, false, Option, none, some,
  List, [], ◌∷◌, ◌++◌, append_assoc, append-nil,
}
use fuels_rs.Errors.{Result, ok}
use fuels_rs.Accounts.Retry.{Backoff, wait_duration, RetryConfig, Run, run_of, retry_loop, retry}

-- The waits after attempts `from`, `from + 1`, ..., `from + n - 1`.
unfoldable pub waits_from : (ℕ → ℕ) → ℕ → ℕ → List ℕ
waits_from wait from zero = []
waits_from wait from (suc n) = wait from ∷ waits_from wait (from + 1) n

module _ {T : Type 0} (action : ℕ → T) (interval : Backoff) (should_retry : T → Bool)
    (wait : ℕ → ℕ) where
  -- `n` attempts from `from` on fail, and the wait after each is in range.
  abbrev pub Fail : ℕ → ℕ → Type 0
  Fail from n =
      (i : ℕ)
      → from ≤ i
      → i < from + n
      → (should_retry (action i) ≡ true) × (wait_duration interval i ≡ ok (wait i))

  Fail-next : (n from : ℕ) → Fail from (suc n) → Fail (from + 1) n
  Fail-next n from fail i lo hi = fail i (omega arith) (omega arith)

  -- What is waited after one failure and the ones that follow it.
  waits-next :
      (n from : ℕ) (waits : List ℕ) {t t' : T}
      → t ≡ t'
      → ◌≡◌ {A = Result (Run T)}
          (ok (run_of t ((waits ++ (wait from ∷ [])) ++ waits_from wait (from + 1) n)))
          (ok (run_of t' (waits ++ (wait from ∷ waits_from wait (from + 1) n))))
  waits-next n from waits {t} {t'} e =
      ap (λ ws. ok (run_of t ws))
        (append_assoc waits (wait from ∷ []) (waits_from wait (from + 1) n))
      ∙ ap (λ r. ok (run_of r (waits ++ (wait from ∷ waits_from wait (from + 1) n)))) e

  loop-stop :
      (n remaining from : ℕ) (last : Option T) (waits : List ℕ)
      → n < remaining
      → Fail from n
      → should_retry (action (from + n)) ≡ false
      → retry_loop action interval should_retry remaining from last waits
        ≡ ok (run_of (action (from + n)) (waits ++ waits_from wait from n))
  unfolding retry_loop waits_from
  loop-stop n zero from last waits lt fail stop = ground arith
  loop-stop zero (suc r) from last waits lt fail stop =
      let at : action (from + 0) ≡ action from = ap action (add-zero from) in
      rw (sym (ap should_retry at) ∙ stop)
        (rw (append-nil waits) (ap (λ t. ok (run_of t waits)) (sym at)))
  loop-stop (suc n) (suc r) from last waits lt fail stop =
      let at : action (from + 1 + n) ≡ action (from + suc n) = ap action (omega arith) in
      let (again, wait_eq) = fail from (omega arith) (omega arith) in
      rw (again, wait_eq)
        (loop-stop n r (from + 1) (some (action from)) (waits ++ (wait from ∷ [])) (omega arith)
            (Fail-next n from fail) (ap should_retry at ∙ stop)
          ∙ waits-next n from waits at)

  loop-last :
      (n from : ℕ) (last : Option T) (waits : List ℕ)
      → Fail from (suc n)
      → retry_loop action interval should_retry (suc n) from last waits
        ≡ ok (run_of (action (from + n)) (waits ++ waits_from wait from (suc n)))
  unfolding retry_loop waits_from
  loop-last zero from last waits fail =
      let (again, wait_eq) = fail from (omega arith) (omega arith) in
      rw (again, wait_eq)
        (ap (λ t. ok (run_of t (waits ++ (wait from ∷ [])))) (ap action (sym (add-zero from))))
  loop-last (suc n) from last waits fail =
      let (again, wait_eq) = fail from (omega arith) (omega arith) in
      rw (again, wait_eq)
        (loop-last n (from + 1) (some (action from)) (waits ++ (wait from ∷ []))
            (Fail-next (suc n) from fail)
          ∙ waits-next (suc n) from waits (ap action (omega arith)))

-- If the attempts before number `n` are to be retried, with waits in range, and attempt `n` is
-- within the limit and not to be retried, `retry` returns its result, after those waits.
pub retry-stop :
    {T : Type 0} (action : ℕ → T) (config : RetryConfig) (should_retry : T → Bool) (wait : ℕ → ℕ)
    (n : ℕ)
    → Fail action config.interval should_retry wait 0 n
    → n < config.max_attempts
    → should_retry (action n) ≡ false
    → retry action config should_retry ≡ ok (run_of (action n) (waits_from wait 0 n))
unfolding retry
retry-stop action config should_retry wait n fail lt stop =
    let at : action (0 + n) ≡ action n = ap action (zero-add n) in
    loop-stop action config.interval should_retry wait n config.max_attempts 0 none [] lt fail
      (ap should_retry at ∙ stop)
    ∙ ap (λ t. ok (run_of t (waits_from wait 0 n))) at

-- If every attempt that the configuration allows is to be retried, with waits in range, `retry`
-- returns the result of the last one, and has waited after each, the last one included.
pub retry-last :
    {T : Type 0} (action : ℕ → T) (config : RetryConfig) (should_retry : T → Bool) (wait : ℕ → ℕ)
    (n : ℕ)
    → config.max_attempts ≡ suc n
    → Fail action config.interval should_retry wait 0 (suc n)
    → retry action config should_retry ≡ ok (run_of (action n) (waits_from wait 0 (suc n)))
unfolding retry
retry-last action config should_retry wait n e fail =
    ap (λ m. retry_loop action config.interval should_retry m 0 none []) e
    ∙ loop-last action config.interval should_retry wait n 0 none [] fail
    ∙ ap (λ t. ok (run_of t (waits_from wait 0 (suc n)))) (ap action (zero-add n))
